-- ===== src/Usb/Wait.antt =====
-- The loop that waits for the controller to come out of its reset.
use mathlib.Core.Path.{ap₂}
use mathlib.Core.List.{append-nil, append_assoc}
use native.Mathlib.Decide.{ℕ_discrete}
use front_mangopi_overlay.Usb.{
  Event, delayed, timed_out, Device, Ctlr, does, next_read, chcreset, wait_reset,
}
use front_mangopi_overlay.Base.Bits.{bit_and-bit}
use front_mangopi_overlay.Base.{
  ℕ, zero, suc, ◌+◌, ◌-◌, ◌/◌, ◌%◌, ◌<◌, ◌≤◌, ◌≡◌, ◌⊎◌, inl, inr, bit_and, ◌==◌, List, [], ◌∷◌,
  ◌++◌, arith, refl, ap, sym, ◌∙◌, Bool-cases,
}

-- One delay for each round.
abbrev pub delays : ℕ → List Event
delays zero = []
delays (suc n) = delayed 1 ∷ delays n

-- The bit that the controller clears when it is done.
abbrev pub in_reset : ℕ → ℕ
in_reset v = v / 2 % 2

-- How the wait ended after `rounds` of `n` rounds: the controller was done, or there is a message.
pub record Polled (d : Device) (n : ℕ) (c after : Ctlr) : Type 0 where
  pub rounds : ℕ
  pub bounded : rounds ≤ n
  pub busy : (j : ℕ) → j < rounds → in_reset (d.cmd (c.reads + j)) ≡ 1
  pub ended :
      ((rounds < n)
        × (in_reset (d.cmd (c.reads + rounds)) ≡ 0)
        × (after ≡ record c { reads = c.reads + rounds + 1; log = c.log ++ delays rounds }))
      ⊎ ((rounds ≡ n)
          × (after ≡ record c { reads = c.reads + n; log = c.log ++ (delays n ++ timed_out ∷ []) }))

pub same_but :
    (c : Ctlr) {r r' : ℕ} {l l' : List Event}
    → r ≡ r'
    → l ≡ l'
    → record c { reads = r; log = l } ≡ record c { reads = r'; log = l' }
same_but c e f = ap₂ (λ r l. record c { reads = r; log = l }) e f

add-zero : (n : ℕ) → n + 0 ≡ n
add-zero n = omega arith

done_bit : (v : ℕ) → (bit_and v chcreset == 0) ≡ (in_reset v == 0)
done_bit v = ground (arith, bit_and-bit 1 v)

Polled-more :
    (d : Device) (n : ℕ) (c after : Ctlr)
    → in_reset (d.cmd c.reads) ≡ 1
    → Polled d n (does (delayed 1) (next_read c)) after
    → Polled d (suc n) c after
Polled-more d n c after busy p = record {
  rounds = suc p.rounds;
  bounded = omega (arith, p.bounded);
  busy = λ j h. elim (ℕ_discrete j 0) [
    | yes e ↦ ap (λ i. in_reset (d.cmd i)) (omega arith) ∙ busy
    | no ne ↦ ap (λ i. in_reset (d.cmd i)) (omega arith) ∙ p.busy (j - 1) (omega arith)
  ];
  ended = elim (p.ended) [
    | inl (lt, clear, e) ↦ inl (
      omega arith,
      ap (λ i. in_reset (d.cmd i)) (omega arith) ∙ clear,
      e ∙ same_but c (omega arith) (append_assoc c.log (delayed 1 ∷ []) (delays p.rounds)),
    )
    | inr (full, e) ↦ inr (
      omega arith,
      e
          ∙ same_but c (omega arith)
              (append_assoc c.log (delayed 1 ∷ []) (delays n ++ timed_out ∷ [])),
    )
  ];
}

-- Each call of the loop ends, and in one of the two ways.
pub wait_reset-Polled : (d : Device) (n : ℕ) (c : Ctlr) → Polled d n c (wait_reset d n c)
unfolding wait_reset
wait_reset-Polled d zero c = record {
  rounds = 0;
  bounded = omega arith;
  busy = λ j h. absurd (omega arith);
  ended = inr (refl, same_but c (omega arith) refl);
}
wait_reset-Polled d (suc n) c = elim (Bool-cases (in_reset (d.cmd c.reads) == 0)) [
  | inl e ↦
      rw (done_bit (d.cmd c.reads), e)
        (record {
          rounds = 0;
          bounded = omega arith;
          busy = λ j h. absurd (omega arith);
          ended = inl (
            omega arith,
            ap (λ i. in_reset (d.cmd i)) (add-zero c.reads) ∙ ground (arith, e),
            same_but c (omega arith) (sym (append-nil c.log)),
          );
        })
  | inr e ↦
      rw (done_bit (d.cmd c.reads), e)
        (Polled-more d n c (wait_reset d n (does (delayed 1) (next_read c))) (ground (arith, e))
          (wait_reset-Polled d n (does (delayed 1) (next_read c))))
]
