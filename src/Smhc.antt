-- ===== src/Smhc.antt =====
-- smhc.c: the SD card host. Each loop that polls a register has a script: the tick count when it
-- starts, and for each round what the register returns and the tick count that is read after it.
-- Writes are a list of registers and values, in order.
pub mod Word
pub mod Command
pub mod Transfer
mod Tests
use front_mangopi_overlay.Timer.{hz}
use front_mangopi_overlay.Base.{
  ◌>>=◌, ℕ, zero, suc, ◌+◌, ◌-◌, ◌*◌, ◌/◌, ◌^◌, bit_and, bit_or, ◌==◌, ltb, if◌then◌else◌, ◌&&◌,
  not, Bool, true, false, not32, u32, ◌<<<◌, List, [], ◌∷◌, ◌++◌, Option, none, some,
}

pub data SmhcReg : Type 0 where
  gctrl clkcr timeout_reg width blksz bytecnt cmd_reg arg_reg imask rint sampdl : SmhcReg
  -- the clock of ccu.c, set in between
  card_clock : SmhcReg

abbrev pub Writes : Type 0
Writes = List (SmhcReg × ℕ)

abbrev pub cmdstart : ℕ
cmdstart = 1 <<< 31

abbrev pub interr : ℕ
interr =
    bit_or
      (bit_or
        (bit_or
          (bit_or
            (bit_or
              (bit_or (bit_or (bit_or (bit_or (1 <<< 1) (1 <<< 6)) (1 <<< 7)) (1 <<< 8)) (1 <<< 9))
              (1 <<< 10))
            (1 <<< 11))
          (1 <<< 12))
        (1 <<< 13))
      (1 <<< 15)

abbrev pub commanddone : ℕ
commanddone = 1 <<< 2

abbrev pub transfer_over : ℕ
transfer_over = bit_or (1 <<< 3) (1 <<< 14)

abbrev pub carddatabusy : ℕ
carddatabusy = 1 <<< 9

-- `(long)(m->ticks - now) > limit`, of 32 bits.
abbrev pub late : (now limit tick : ℕ) → Bool
late now limit tick = let d = u32 (tick + 2 ^ 32 - now) in ltb d (2 ^ 31) && ltb limit d

pub record Script : Type 0 where
  pub now : ℕ
  pub reads : List (ℕ × ℕ)

-- How a loop ends: with the value that ended it, with the time-out, or not at all.
pub data Polled : Type 0 where
  came : ℕ → Polled
  expired unending : Polled

unfoldable pub poll_from : (ends : ℕ → Bool) (limit now : ℕ) → List (ℕ × ℕ) → Polled
poll_from ends limit now [] = unending
poll_from ends limit now ((v, tick) ∷ reads) =
    let rest = poll_from ends limit now reads in
    if ends v then came v else if late now limit tick then expired else rest

unfoldable pub poll : (ends : ℕ → Bool) (limit : ℕ) → Script → Polled
unfolding poll_from
poll ends limit s = poll_from ends limit s.now s.reads

-- The result, with `true` for 0, and the writes; `rints` is what RINT returns at the end.
unfoldable pub updateclk : Script → (rints : ℕ) → Option (Bool × Writes)
updateclk s rints =
    let start = (cmd_reg, bit_or (bit_or cmdstart (1 <<< 21)) (1 <<< 13)) ∷ [] in
    elim (poll (λ v. bit_and v cmdstart == 0) hz s) [
      | came v ↦ some (true, start ++ (rint, rints) ∷ [])
      | expired ↦ some (false, start)
      | unending ↦ none
    ]

-- `clk` is what CLKCR returns; the results of `updateclk` are not looked at.
unfoldable pub smhcclock :
    (freq clk : ℕ) (first second : Script) (rints1 rints2 : ℕ) → Option Writes
smhcclock freq clk first second rints1 rints2 =
    let v = bit_and clk (not32 0xff) in
    let off = bit_and v (not32 (1 <<< 16)) in
    do
      (ok1, w1) ← updateclk first rints1
      (ok2, w2) ← updateclk second rints2
      some (
          (clkcr, off) ∷ w1
          ++ (card_clock, freq)
            ∷ (clkcr, off)
            ∷ (sampdl, 1 <<< 7)
            ∷ (clkcr, bit_or v (1 <<< 16))
            ∷ w2)

-- After `mmc0enable` of ccu.c. `true` for 0, and the writes; `after` is what GCTRL returns a
-- millisecond after the reset.
unfoldable pub smhcinit : (after : ℕ) → Bool × Writes
smhcinit after =
    let reset = (gctrl, 7) ∷ [] in
    if bit_and after 7 == 0
    then (
      true,
      reset
          ++ (gctrl, 1 <<< 31)
            ∷ (imask, 0)
            ∷ (rint, not32 0)
            ∷ (timeout_reg, not32 0)
            ∷ (width, 0)
            ∷ [],
    )
    else (false, reset)

-- `SDiocmd`, as far as `smhccmd` reads it.
pub record SdioCmd : Type 0 where
  pub index : ℕ
  pub resp : ℕ
  pub data_kind : ℕ
  pub busy : Bool

-- The value for CMD, in the three steps that set its flags.
unfoldable pub with_init : (index c : ℕ) → ℕ
with_init index c = if index == 0 then bit_or c (1 <<< 15) else c

unfoldable pub with_response : (resp c : ℕ) → ℕ
with_response resp c =
    if resp == 0
    then c
    else if resp == 2
    then bit_or c (bit_or (bit_or (1 <<< 6) (1 <<< 7)) (1 <<< 8))
    else if resp == 3
    then bit_or c (1 <<< 6)
    else bit_or c (bit_or (1 <<< 6) (1 <<< 8))

unfoldable pub with_data : (kind c : ℕ) → ℕ
with_data kind c =
    let c1 = bit_or c (bit_or (1 <<< 9) (1 <<< 13)) in
    let c2 = if bit_and kind 1 == 0 then bit_or c1 (1 <<< 10) else c1 in
    let c3 = if ltb 2 kind then bit_or c2 (1 <<< 12) else c2 in if kind == 0 then c else c3

unfoldable pub command_word : SdioCmd → ℕ
command_word cmd =
    with_data cmd.data_kind
      (with_response cmd.resp (with_init cmd.index (bit_or cmdstart cmd.index)))

-- What a command comes to: 0 with the response, `error(Eio)`, or a loop that does not end.
pub data Outcome : Type 0 where
  ok : List ℕ → Outcome
  eio hung : Outcome

-- `resp`: the values of RESP0 to RESP3 that are stored.
unfoldable pub response : SdioCmd → (r0 r1 r2 r3 : ℕ) → List ℕ
response cmd r0 r1 r2 r3 =
    if cmd.resp == 0 then 0 ∷ [] else if cmd.resp == 2 then r0 ∷ r1 ∷ r2 ∷ r3 ∷ [] else r0 ∷ []

-- After the wait for the card to be free at the end.
abbrev pub settle : Outcome → Polled → Outcome
settle good (came v) = good
settle good expired = eio
settle good unending = hung

-- After the wait for the answer.
abbrev pub answer_to : (sent : Writes) (final : Outcome) → Polled → Outcome × Writes
answer_to sent final (came i) = if bit_and i interr == 0 then (final, sent) else (eio, sent)
answer_to sent final expired = (eio, sent)
answer_to sent final unending = (hung, sent)

-- After the wait for the card to be free at the beginning.
abbrev pub issue : (run : Outcome × Writes) → Polled → Outcome × Writes
issue run (came v) = run
issue run expired = (eio, [])
issue run unending = (hung, [])

abbrev pub idle : ℕ → Bool
idle v = bit_and v carddatabusy == 0

abbrev pub has_answer : ℕ → Bool
has_answer i = not (bit_and i (bit_or commanddone interr) == 0)

unfoldable pub smhccmd :
    SdioCmd
    → (arg : ℕ) (resps : ℕ × (ℕ × (ℕ × ℕ))) (before answer after : Script) → Outcome × Writes
smhccmd cmd arg (r0, (r1, (r2, r3))) before answer after =
    let sent = (rint, not32 0) ∷ (arg_reg, arg) ∷ (cmd_reg, command_word cmd) ∷ [] in
    let good = ok (response cmd r0 r1 r2 r3) in
    let final = if cmd.busy then settle good (poll idle (3 * hz) after) else good in
    let run = answer_to sent final (poll has_answer hz answer) in
    if cmd.index == 12 then (ok [], []) else issue run (poll idle (5 * hz) before)

-- `none` is the error.
unfoldable pub smhciosetup : (buf bsize bcount : ℕ) → Option Writes
smhciosetup buf bsize bcount =
    if bit_and buf 3 == 0
    then some ((blksz, bsize) ∷ (bytecnt, u32 (bsize * bcount)) ∷ [])
    else none

-- A width other than 1, 4 and 8 writes nothing, and a speed of 0 leaves the clock alone.
unfoldable pub smhcbus :
    (bits speed clk : ℕ) (first second : Script) (rints1 rints2 : ℕ) → Option Writes
smhcbus bits speed clk first second rints1 rints2 =
    let set : Writes =
      (if bits == 1
        then (width, 0) ∷ []
        else if bits == 4
        then (width, 1) ∷ []
        else if bits == 8
        then (width, 2) ∷ []
        else []) in
    let clocked : Option Writes = (do
      w ← smhcclock speed clk first second rints1 rints2
      some (set ++ w)) in
    if speed == 0 then some set else clocked

-- One round of the first loop of `smhcio`: the tick count, RINT, STATUS and FIFO as they are read.
pub record Round : Type 0 where
  pub tick : ℕ
  pub rints : ℕ
  pub status : ℕ
  pub fifo : ℕ

-- How a transfer loop ends: what went through the FIFO, and the rounds that are left if it is done.
pub data Moved : Type 0 where
  all_moved : List ℕ → List Round → Moved
  failed hung_after : List ℕ → Moved

-- One more word before the others.
abbrev pub with_word : ℕ → Moved → Moved
with_word w (all_moved xs left) = all_moved (w ∷ xs) left
with_word w (failed xs) = failed (w ∷ xs)
with_word w (hung_after xs) = hung_after (w ∷ xs)

-- The first loop of `smhcio`, writing.
unfoldable pub write_words : (now : ℕ) → List Round → (words : List ℕ) → Moved
write_words now rounds [] = all_moved [] rounds
write_words now [] (w ∷ ws) = hung_after []
write_words now (r ∷ rs) (w ∷ ws) =
    let room = bit_and r.status (1 <<< 3) == 0 in
    let rest = write_words now rs (if room then ws else w ∷ ws) in
    let next = if room then with_word w rest else rest in
    if late now (5 * hz) r.tick
    then failed []
    else if bit_and r.rints interr == 0
    then next
    else failed []

-- The same loop, reading `n` words.
unfoldable pub read_words : (now : ℕ) → List Round → (n : ℕ) → Moved
read_words now rounds zero = all_moved [] rounds
read_words now [] (suc n) = hung_after []
read_words now (r ∷ rs) (suc n) =
    let there = bit_and r.status (1 <<< 2) == 0 in
    let rest = read_words now rs (if there then n else suc n) in
    let next = if there then with_word r.fifo rest else rest in
    if late now (5 * hz) r.tick
    then failed []
    else if bit_and r.rints interr == 0
    then next
    else failed []

-- The second loop, for the end of the transfer: `true` when it is over and `false` for the error. Each
-- round reads RINT twice, and then the tick count.
unfoldable pub transfer_ends : (now : ℕ) → List (ℕ × (ℕ × ℕ)) → Option Bool
transfer_ends now [] = none
transfer_ends now ((i, (j, tick)) ∷ rest) =
    let more = transfer_ends now rest in
    if bit_and i transfer_over == 0
    then (if bit_and j interr == 0
        then if late now (5 * hz) tick then some false else more
        else some false)
    else some true

-- The second loop after the first.
abbrev pub end_transfer : (now2 : ℕ) (ends : List (ℕ × (ℕ × ℕ))) → Moved → Option Bool × List ℕ
end_transfer now2 ends (all_moved xs left) = (transfer_ends now2 ends, xs)
end_transfer now2 ends (failed xs) = (some false, xs)
end_transfer now2 ends (hung_after xs) = (none, xs)

-- `smhcio` for a write of `words`, with what went through the FIFO: `some true` is the return,
-- `some false` the error.
unfoldable pub smhcio_write :
    (now : ℕ) (rounds : List Round) (words : List ℕ) (now2 : ℕ) (ends : List (ℕ × (ℕ × ℕ)))
    → Option Bool × List ℕ
smhcio_write now rounds words now2 ends = end_transfer now2 ends (write_words now rounds words)

-- `smhcio` for a read of `n` words, with what it has put into the buffer.
unfoldable pub smhcio_read :
    (now : ℕ) (rounds : List Round) (n : ℕ) (now2 : ℕ) (ends : List (ℕ × (ℕ × ℕ)))
    → Option Bool × List ℕ
smhcio_read now rounds n now2 ends = end_transfer now2 ends (read_words now rounds n)
