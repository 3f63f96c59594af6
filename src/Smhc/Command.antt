-- ===== src/Smhc/Command.antt =====
-- What a command that succeeds has seen.
use front_mangopi_overlay.Smhc.{
  Script, Polled, came, expired, unending, poll, poll_from, late, SdioCmd, Outcome, ok, eio, hung,
  response, smhccmd, command_word, interr, commanddone, idle, has_answer, settle, answer_to, issue,
  Writes, rint, arg_reg, cmd_reg,
}
use front_mangopi_overlay.Timer.{hz}
use front_mangopi_overlay.Base.Bits.{bit_and_cut, bit_and-one}
use front_mangopi_overlay.Base.{
  zero, suc, ◌∙◌, ap, ℕ, ◌*◌, ◌/◌, ◌%◌, ◌^◌, ◌≡◌, ◌≢◌, ◌⊎◌, bit_and, bit_or, ◌==◌, if◌then◌else◌,
  not32, Bool, true, false, arith, refl, List, [], ◌∷◌, ◌++◌, Bool-cases, inl, inr,
}

-- What a loop has seen when it ends with a value: the register returned the value, and the value
-- ends the loop.
abbrev pub Saw : (ends : ℕ → Bool) → List (ℕ × ℕ) → Polled → Type 0
Saw ends reads (came v) =
    (early : List (ℕ × ℕ)) × (tick : ℕ) × (rest : List (ℕ × ℕ)) × (reads
      ≡ early ++ (v, tick) ∷ rest)
    × (ends v ≡ true)
Saw ends reads expired = Unit {0}
Saw ends reads unending = Unit {0}

Saw-later :
    (ends : ℕ → Bool) (u : ℕ × ℕ) (reads : List (ℕ × ℕ)) (p : Polled)
    → Saw ends reads p
    → Saw ends (u ∷ reads) p
Saw-later ends u reads (came v) (early, tick, rest, split, ended) =
    (u ∷ early, tick, rest, ap (λ t. u ∷ t) split, ended)
Saw-later ends u reads expired s = tt
Saw-later ends u reads unending s = tt

poll_from-Saw :
    (ends : ℕ → Bool) (limit now : ℕ) (reads : List (ℕ × ℕ))
    → Saw ends reads (poll_from ends limit now reads)
unfolding poll_from
poll_from-Saw ends limit now [] = tt
poll_from-Saw ends limit now ((u, tick) ∷ reads) = elim (Bool-cases (ends u)) [
  | inl over ↦ rw over ([], tick, reads, refl, over)
  | inr going ↦ elim (Bool-cases (late now limit tick)) [
    | inl out ↦ rw (going, out) tt
    | inr in_time ↦
        rw (going, in_time)
          (Saw-later ends (u, tick) reads (poll_from ends limit now reads)
            (poll_from-Saw ends limit now reads))
  ]
]

poll-Saw : (ends : ℕ → Bool) (limit : ℕ) (s : Script) → Saw ends s.reads (poll ends limit s)
unfolding poll
poll-Saw ends limit s = poll_from-Saw ends limit s.now s.reads

-- An interrupt word that ends the wait and shows no error has Commanddone, bit 2.
done_bit : (i : ℕ) → has_answer i ≡ true → bit_and i interr ≡ 0 → i / 2 ^ 2 % 2 ≡ 1
done_bit i ended clean = ground (
  arith,
  bit_and_cut 3 i (bit_or commanddone interr),
  bit_and_cut 3 i interr,
  bit_and_cut 2 (i % 8) 6,
  bit_and_cut 2 (i % 8) 2,
  bit_and-one (i % 8 / 4),
)

-- What the command has written when it is issued.
abbrev pub sent : SdioCmd → ℕ → Writes
sent cmd arg = (rint, not32 0) ∷ (arg_reg, arg) ∷ (cmd_reg, command_word cmd) ∷ []

-- A register has returned `v` in the course of a loop.
abbrev pub Returned : Script → ℕ → Type 0
Returned s v =
    (early : List (ℕ × ℕ)) × (tick : ℕ) × (rest : List (ℕ × ℕ)) × (s.reads
      ≡ early ++ (v, tick) ∷ rest)

-- The words of a response by its type: none but a 0, all four from RESP0 on, or RESP0.
abbrev pub stored : (resp r0 r1 r2 r3 : ℕ) → List ℕ
stored zero r0 r1 r2 r3 = 0 ∷ []
stored (suc zero) r0 r1 r2 r3 = r0 ∷ []
stored (suc (suc zero)) r0 r1 r2 r3 = r0 ∷ r1 ∷ r2 ∷ r3 ∷ []
stored (suc (suc (suc n))) r0 r1 r2 r3 = r0 ∷ []

response-stored :
    (cmd : SdioCmd) (r0 r1 r2 r3 : ℕ) → response cmd r0 r1 r2 r3 ≡ stored cmd.resp r0 r1 r2 r3
unfolding response
response-stored cmd r0 r1 r2 r3 = by_type cmd.resp
  where
    by_type :
        (resp : ℕ)
        → (if resp == 0 then 0 ∷ [] else if resp == 2 then r0 ∷ r1 ∷ r2 ∷ r3 ∷ [] else r0 ∷ [])
          ≡ stored resp r0 r1 r2 r3
    by_type zero = refl
    by_type (suc zero) = refl
    by_type (suc (suc zero)) = refl
    by_type (suc (suc (suc n))) = ground arith

-- What a command's outcome tells.
abbrev pub Answered :
    (cmd : SdioCmd) (arg : ℕ) (resps : ℕ × (ℕ × (ℕ × ℕ))) (before answer after : Script)
    → Outcome × Writes
    → Type 0
Answered cmd arg (r0, (r1, (r2, r3))) before answer after (ok r, ws) =
    (r ≡ stored cmd.resp r0 r1 r2 r3)
    × (ws ≡ sent cmd arg)
    × ((v : ℕ) × Returned before v × (idle v ≡ true))
    × ((i : ℕ) × Returned answer i × (i / 2 ^ 2 % 2 ≡ 1) × (bit_and i interr ≡ 0))
    × ((cmd.busy ≡ false) ⊎ ((v : ℕ) × Returned after v × (idle v ≡ true)))
Answered cmd arg resps before answer after (eio, ws) = (ws ≡ []) ⊎ (ws ≡ sent cmd arg)
Answered cmd arg resps before answer after (hung, ws) = (ws ≡ []) ⊎ (ws ≡ sent cmd arg)

module _ (cmd : SdioCmd) (arg r0 r1 r2 r3 : ℕ) (before answer after : Script) where
  abbrev good : Outcome
  good = ok (response cmd r0 r1 r2 r3)

  -- What the outcome after the answer tells.
  abbrev Final : Outcome → Type 0
  Final (ok r) =
      (r ≡ response cmd r0 r1 r2 r3)
      × ((cmd.busy ≡ false) ⊎ ((v : ℕ) × Returned after v × (idle v ≡ true)))
  Final eio = Unit {0}
  Final hung = Unit {0}

  settle-Final : (p : Polled) → Saw idle after.reads p → Final (settle good p)
  settle-Final (came v) (early, tick, rest, split, free) =
      (refl, inr (v, (early, tick, rest, split), free))
  settle-Final expired s = tt
  settle-Final unending s = tt

  choose-Final :
      (p : Polled) → Saw idle after.reads p → Final (if cmd.busy then settle good p else good)
  choose-Final p s = chosen cmd.busy refl
    where
      chosen : (b : Bool) → cmd.busy ≡ b → Final (if b then settle good p else good)
      chosen true e = settle-Final p s
      chosen false e = (refl, inl e)

  abbrev Answer : Outcome × Writes → Type 0
  Answer = Answered cmd arg (r0, (r1, (r2, r3))) before answer after

  give-Answered :
      (o : Outcome)
      → ((v : ℕ) × Returned before v × (idle v ≡ true))
      → ((i : ℕ) × Returned answer i × (i / 2 ^ 2 % 2 ≡ 1) × (bit_and i interr ≡ 0))
      → Final o
      → Answer (o, sent cmd arg)
  give-Answered (ok r) free done f = (f.0 ∙ response-stored cmd r0 r1 r2 r3, refl, free, done, f.1)
  give-Answered eio free done f = inr refl
  give-Answered hung free done f = inr refl

  answer_to-Answered :
      (o : Outcome) (p : Polled)
      → ((v : ℕ) × Returned before v × (idle v ≡ true))
      → Saw has_answer answer.reads p
      → Final o
      → Answer (answer_to (sent cmd arg) o p)
  answer_to-Answered o expired free s f = inr refl
  answer_to-Answered o unending free s f = inr refl
  answer_to-Answered o (came i) free (early, tick, rest, split, ended) f =
      elim (Bool-cases (bit_and i interr == 0)) [
        | inr bad ↦ rw bad (inr refl)
        | inl clean ↦
            let zero_bits : bit_and i interr ≡ 0 = ground arith in
            rw clean (
              give-Answered o free
                (i, (early, tick, rest, split), done_bit i ended zero_bits, zero_bits) f)
      ]

  issue-Answered :
      (o : Outcome) (p q : Polled)
      → Saw idle before.reads p
      → Saw has_answer answer.reads q
      → Final o
      → Answer (issue (answer_to (sent cmd arg) o q) p)
  issue-Answered o expired q s s' f = inl refl
  issue-Answered o unending q s s' f = inl refl
  issue-Answered o (came v) q (early, tick, rest, split, free) s' f =
      answer_to-Answered o q (v, (early, tick, rest, split), free) s' f

-- A command other than number 12 that is reported as done was issued after STATUS showed the card
-- free, with its argument and its word; RINT then showed Commanddone and none of the error bits, the
-- response is a 0, RESP0 to RESP3 in this order or RESP0, by the command's type, and after a command that keeps the card busy STATUS
-- showed it free again. In the other outcomes either nothing was written or the command was issued.
pub smhccmd-Answered :
    (cmd : SdioCmd) (arg : ℕ) (resps : ℕ × (ℕ × (ℕ × ℕ))) (before answer after : Script)
    → cmd.index ≢ 12
    → Answered cmd arg resps before answer after (smhccmd cmd arg resps before answer after)
unfolding smhccmd
smhccmd-Answered cmd arg (r0, (r1, (r2, r3))) before answer after other =
    let run : (cmd.index == 12) ≡ false = ground arith in
    let settled = poll idle (3 * hz) after in
    let final =
      if cmd.busy
      then settle (good cmd arg r0 r1 r2 r3 before answer after) settled
      else good cmd arg r0 r1 r2 r3 before answer after in
    rw run (
      issue-Answered cmd arg r0 r1 r2 r3 before answer after final (poll idle (5 * hz) before)
        (poll has_answer hz answer) (poll-Saw idle (5 * hz) before) (poll-Saw has_answer hz answer)
        (choose-Final cmd arg r0 r1 r2 r3 before answer after settled
          (poll-Saw idle (3 * hz) after)))
