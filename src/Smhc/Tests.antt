-- ===== src/Smhc/Tests.antt =====
-- A command that reads one block, and a short transfer.
use front_mangopi_overlay.Smhc.{
  SdioCmd, Script, Round, with_init, with_response, with_data, command_word, smhccmd, smhcio_write,
}
use front_mangopi_overlay.Smhc.Word.{Encodes, command_word-Encodes}
use front_mangopi_overlay.Smhc.Command.{Answered, smhccmd-Answered}
use front_mangopi_overlay.Smhc.Transfer.{smhcio_write-prefix, smhcio_write-finishes}
use front_mangopi_overlay.Base.{
  ℕ, true, false, arith, refl, List, [], ◌∷◌, ◌++◌, some, ◌≡◌, ◌≢◌, ◌⊎◌,
}

abbrev read_block : SdioCmd
read_block = record { index = 17; resp = 1; data_kind = 1; busy = false }

abbrev at_once : Script
at_once = record { now = 100; reads = (0, 100) ∷ [] }

abbrev soon : Script
soon = record { now = 100; reads = (0, 101) ∷ (4, 101) ∷ [] }

abbrev full_then_free : List Round
full_then_free =
    record { tick = 100; rints = 0; status = 8; fifo = 0 }
    ∷ record { tick = 101; rints = 0; status = 0; fifo = 0 }
    ∷ record { tick = 102; rints = 0; status = 4; fifo = 0 }
    ∷ []

command_word_run : command_word read_block ≡ 0x80002351
unfolding command_word with_init with_response with_data
command_word_run = refl

command_word-Encodes_example : Encodes read_block (command_word read_block)
command_word-Encodes_example = command_word-Encodes read_block (omega arith)

smhccmd-Answered_example :
    Answered read_block 8
      (7, (0, (0, 0)))
      at_once
      soon
      at_once
      (smhccmd read_block 8 (7, (0, (0, 0))) at_once soon at_once)
smhccmd-Answered_example =
    smhccmd-Answered read_block 8 (7, (0, (0, 0))) at_once soon at_once (omega arith)

smhcio_write-prefix_example :
    let (result, xs) = smhcio_write 100 full_then_free (5 ∷ 6 ∷ 7 ∷ []) 102 [] in
    ((rest : List ℕ) × (5 ∷ 6 ∷ 7 ∷ [] ≡ xs ++ rest))
    × ((result ≢ some true) ⊎ (xs ≡ 5 ∷ 6 ∷ 7 ∷ []))
smhcio_write-prefix_example = smhcio_write-prefix 100 full_then_free (5 ∷ 6 ∷ 7 ∷ []) 102 []

smhcio_write-finishes_example :
    smhcio_write 100 full_then_free (5 ∷ 6 ∷ []) 102 ([] ++ (8, (0, 103)) ∷ [])
    ≡ (some true, 5 ∷ 6 ∷ [])
smhcio_write-finishes_example =
    smhcio_write-finishes 100 full_then_free (5 ∷ 6 ∷ []) 102 [] 8 0 103 []
      (refl, refl, (refl, refl, (refl, refl, tt))) (omega arith) tt (omega arith)
