-- ===== src/Smhc/Transfer.antt =====
-- What `smhcio` writes to the FIFO.
use front_mangopi_overlay.Smhc.{
  Round, Moved, all_moved, failed, hung_after, with_word, end_transfer, late, interr, transfer_over,
  write_words, transfer_ends, smhcio_write,
}
use front_mangopi_overlay.Timer.{hz}
use front_mangopi_overlay.Base.{
  ap, ◌∙◌, ℕ, suc, ◌*◌, ◌≤◌, ◌≡◌, ◌≢◌, ◌⊎◌, bit_and, ◌==◌, if◌then◌else◌, Bool, true, false, arith,
  refl, ◌<<<◌, List, [], ◌∷◌, ◌++◌, length, Option, some, Bool-cases, inl, inr,
}

-- The words that went through, and that they are a first part of `words`, all of it if it is done.
abbrev words_of : Moved → List ℕ
words_of (all_moved xs left) = xs
words_of (failed xs) = xs
words_of (hung_after xs) = xs

-- All of `words`, if the loop is done.
abbrev AllMoved : List ℕ → Moved → Type 0
AllMoved words (all_moved xs left) = xs ≡ words
AllMoved words (failed xs) = Unit {0}
AllMoved words (hung_after xs) = Unit {0}

record IsPrefix (words : List ℕ) (r : Moved) : Type 0 where
  rest : List ℕ
  split : words ≡ words_of r ++ rest
  all : AllMoved words r

with_word-IsPrefix :
    (w : ℕ) (ws : List ℕ) (r : Moved) → IsPrefix ws r → IsPrefix (w ∷ ws) (with_word w r)
with_word-IsPrefix w ws (all_moved xs left) p = record {
  rest = p.rest;
  split = ap (λ t. w ∷ t) p.split;
  all = ap (λ t. w ∷ t) p.all;
}
with_word-IsPrefix w ws (failed xs) p = record {
  rest = p.rest;
  split = ap (λ t. w ∷ t) p.split;
  all = tt;
}
with_word-IsPrefix w ws (hung_after xs) p = record {
  rest = p.rest;
  split = ap (λ t. w ∷ t) p.split;
  all = tt;
}

-- Every word waits for a round in which the FIFO has room.
abbrev has_room : Round → Bool
has_room r = bit_and r.status (1 <<< 3) == 0

write_words-IsPrefix :
    (now : ℕ) (rounds : List Round) (words : List ℕ) → IsPrefix words (write_words now rounds words)
unfolding write_words
write_words-IsPrefix now rounds [] = record { rest = []; split = refl; all = refl }
write_words-IsPrefix now [] (w ∷ ws) = record { rest = w ∷ ws; split = refl; all = tt }
write_words-IsPrefix now (r ∷ rs) (w ∷ ws) =
    let nothing : IsPrefix (w ∷ ws) (failed []) = record {
      rest = w ∷ ws;
      split = refl;
      all = tt;
    } in
    elim (Bool-cases (late now (5 * hz) r.tick)) [
      | inl out ↦ rw out nothing
      | inr in_time ↦ elim (Bool-cases (bit_and r.rints interr == 0)) [
        | inr bad ↦ rw (in_time, bad) nothing
        | inl good ↦ elim (Bool-cases (has_room r)) [
          | inl room ↦
              rw (in_time, good, room)
                (with_word-IsPrefix w ws (write_words now rs ws) (write_words-IsPrefix now rs ws))
          | inr full ↦ rw (in_time, good, full) (write_words-IsPrefix now rs (w ∷ ws))
        ]
      ]
    ]

-- Whatever the card host answers, `smhcio` writes to the FIFO the words of the buffer from the first
-- one on, in order and each once, and nothing else; if it returns without an error or a loop that
-- does not end, it has written all of them.
pub smhcio_write-prefix :
    (now : ℕ) (rounds : List Round) (words : List ℕ) (now2 : ℕ) (ends : List (ℕ × (ℕ × ℕ)))
    → let (result, xs) = smhcio_write now rounds words now2 ends in
      ((rest : List ℕ) × (words ≡ xs ++ rest)) × ((result ≢ some true) ⊎ (xs ≡ words))
unfolding smhcio_write
smhcio_write-prefix now rounds words now2 ends =
    from (write_words now rounds words) (write_words-IsPrefix now rounds words)
  where
    from :
        (r : Moved)
        → IsPrefix words r
        → let (result, xs) = end_transfer now2 ends r in
          ((rest : List ℕ) × (words ≡ xs ++ rest)) × ((result ≢ some true) ⊎ (xs ≡ words))
    from (all_moved xs left) p = ((p.rest, p.split), inr p.all)
    from (failed xs) p = ((p.rest, p.split), inl (λ e. absurd (ground arith)))
    from (hung_after xs) p = ((p.rest, p.split), inl (λ e. absurd (ground arith)))

-- Rounds in time and without an error, with how many of them have room.
abbrev pub AllClean : (now : ℕ) → List Round → Type 0
AllClean now [] = Unit {0}
AllClean now (r ∷ rs) =
    (late now (5 * hz) r.tick ≡ false) × (bit_and r.rints interr ≡ 0) × AllClean now rs

abbrev pub rooms : List Round → ℕ
rooms [] = 0
rooms (r ∷ rs) = if has_room r then suc (rooms rs) else rooms rs

write_words-clean :
    (now : ℕ) (rounds : List Round) (words : List ℕ)
    → AllClean now rounds
    → length words ≤ rooms rounds
    → (left : List Round) × (write_words now rounds words ≡ all_moved words left)
unfolding write_words
write_words-clean now rounds [] clean enough = (rounds, refl)
write_words-clean now [] (w ∷ ws) clean enough = absurd (omega arith)
write_words-clean now (r ∷ rs) (w ∷ ws) (in_time, no_error, clean) enough =
    let good : (bit_and r.rints interr == 0) ≡ true = ground arith in
    elim (Bool-cases (has_room r)) [
      | inl room ↦
          let (left, e) = write_words-clean now rs ws clean (ground arith) in
          (left, rw (in_time, good, room) (ap (with_word w) e))
      | inr full ↦
          let (left, e) = write_words-clean now rs (w ∷ ws) clean (ground arith) in
          (left, rw (in_time, good, full) e)
    ]

-- The rounds before the transfer is over, and the read that shows it.
abbrev pub AllWaiting : (now : ℕ) → List (ℕ × (ℕ × ℕ)) → Type 0
AllWaiting now [] = Unit {0}
AllWaiting now ((i, (j, tick)) ∷ rest) =
    (bit_and i transfer_over ≡ 0)
    × (bit_and j interr ≡ 0)
    × (late now (5 * hz) tick ≡ false)
    × AllWaiting now rest

transfer_ends-over :
    (now : ℕ) (early : List (ℕ × (ℕ × ℕ))) (i j tick : ℕ) (rest : List (ℕ × (ℕ × ℕ)))
    → AllWaiting now early
    → bit_and i transfer_over ≢ 0
    → transfer_ends now (early ++ (i, (j, tick)) ∷ rest) ≡ some true
unfolding transfer_ends
transfer_ends-over now [] i j tick rest waiting over =
    let is_over : (bit_and i transfer_over == 0) ≡ false = ground arith in rw is_over refl
transfer_ends-over now ((i', (j', tick')) ∷ early) i j tick rest
      (not_over, no_error, in_time, waiting) over =
    let going : (bit_and i' transfer_over == 0) ≡ true = ground arith in
    let fine : (bit_and j' interr == 0) ≡ true = ground arith in
    rw (going, fine, in_time) (transfer_ends-over now early i j tick rest waiting over)

-- If the rounds are in time and without an error, as many of them find room in the FIFO as there are
-- words, and the end of the transfer shows while the second loop waits in time and without an
-- error, `smhcio` returns and has written every word, in order and once.
pub smhcio_write-finishes :
    (now : ℕ) (rounds : List Round) (words : List ℕ) (now2 : ℕ) (early : List (ℕ × (ℕ × ℕ)))
    (i j tick : ℕ) (rest : List (ℕ × (ℕ × ℕ)))
    → AllClean now rounds
    → length words ≤ rooms rounds
    → AllWaiting now2 early
    → bit_and i transfer_over ≢ 0
    → smhcio_write now rounds words now2 (early ++ (i, (j, tick)) ∷ rest) ≡ (some true, words)
unfolding smhcio_write
smhcio_write-finishes now rounds words now2 early i j tick rest clean enough waiting over =
    let (left, e) = write_words-clean now rounds words clean enough in
    ap (end_transfer now2 (early ++ (i, (j, tick)) ∷ rest)) e
    ∙ ap (λ (r : Option Bool). (r, words))
        (transfer_ends-over now2 early i j tick rest waiting over)
