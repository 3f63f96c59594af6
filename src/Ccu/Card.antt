-- ===== src/Ccu/Card.antt =====
-- The card clock: the dividers that `mmc0clock` chooses and the rate that they give.
use front_mangopi_overlay.Ccu.{
  Ccu, wrote, delayed, mmc0clock, mmc0_div, mmc0_p, mmc0_m, mmc0_clk, hoscfreq, peri1xfreq,
}
use front_mangopi_overlay.Base.Bits.{bit_or-add, add-bit_or}
use mathlib.Core.Path.{subst, ap₂, ◌∙◌}
use native.Mathlib.Nat.{mul-div_cancel_left, div-add-mod}
use front_mangopi_overlay.Base.{
  ℕ, ◌+◌, ◌-◌, ◌*◌, ◌/◌, ◌%◌, ◌^◌, ◌<◌, ◌≤◌, ◌≡◌, ◌≢◌, ◌⊎◌, arith, refl, leb, if◌then◌else◌, ◌<<<◌,
  bit_or, Bool, true, false, ◌++◌, ◌∷◌, [],
}

-- The divider P is the least that brings the quotient into the 16 steps of M, and at most 3.
p_bounds : (div : ℕ) → (mmc0_p div ≤ 3) × (mmc0_p div ≡ 3 ⊎ (div ≤ 16 * 2 ^ mmc0_p div))
unfolding mmc0_p
p_bounds div = ground arith

-- The total division M * 2^P: for a quotient up to 128 it is no less than the quotient, and
-- exceeds it by less than 2^P.
pub total_bounds :
    (div : ℕ)
    → 0 < div
    → div ≤ 128
    → let p = mmc0_p div in
      let m = mmc0_m div p in
      (1 ≤ m) × (m ≤ 16) × (p ≤ 3) × (div ≤ m * 2 ^ p) × (m * 2 ^ p < div + 2 ^ p)
unfolding mmc0_p mmc0_m
total_bounds div pos h = ground arith

-- The card clock that the chosen dividers give from `freq` is at most `hz`: freq / (2 M 2^P) ≤ hz.
abbrev pub NotFaster : (hz freq : ℕ) → Type 0
NotFaster hz freq =
    let div = mmc0_div hz freq in let p = mmc0_p div in freq ≤ hz * (2 * (mmc0_m div p * 2 ^ p))

quotient_of : (hz k : ℕ) → 0 < hz → 0 < k → mmc0_div hz (2 * (hz * k)) ≡ k
unfolding mmc0_div
quotient_of hz k pos some_k =
    let half : 2 * (hz * k) / 2 ≡ hz * k = omega arith in
    let exact : hz * k / hz ≡ k = mul-div_cancel_left k pos in rw half (rw exact (ground arith))

scaled : (hz k t : ℕ) → k ≤ t → 2 * (hz * k) ≤ hz * (2 * t)
scaled hz k t h = grind arith

-- Where the parent's frequency is 2 k times `hz`, with k from 1 to 128, the card is not clocked
-- faster than asked.
pub exact-NotFaster : (hz k : ℕ) → 0 < hz → 0 < k → k ≤ 128 → NotFaster hz (2 * (hz * k))
exact-NotFaster hz k pos some_k small =
    rw (quotient_of hz k pos some_k)
      (scaled hz k (mmc0_m k (mmc0_p k) * 2 ^ mmc0_p k) (total_bounds k some_k small).3)

small_quotient : (d : ℕ) → 0 < d → d ≤ 16 → mmc0_m d (mmc0_p d) * 2 ^ mmc0_p d ≡ d
unfolding mmc0_p mmc0_m
small_quotient d pos small = ground arith

not_exact : (n hz : ℕ) → n % hz ≢ 0 → hz * (n / hz) < n
not_exact n hz ne = omega (arith, div-add-mod n hz)

some_quotient : (n hz : ℕ) → 0 < hz → hz ≤ n → 0 < n / hz
some_quotient n hz pos h = grind arith

-- The quotient is rounded down before the dividers are rounded up. So below 12 MHz, where `hz`
-- does not divide 12 MHz and the quotient is at most 16, the card is always clocked faster than
-- asked.
pub inexact-faster :
    (hz : ℕ)
    → 0 < hz
    → hz ≤ hoscfreq / 2
    → hoscfreq / 2 / hz ≤ 16
    → hoscfreq / 2 % hz ≢ 0
    → ¬ NotFaster hz hoscfreq
unfolding mmc0_div
inexact-faster hz pos below small ne h =
    let some_d = some_quotient (hoscfreq / 2) hz pos below in
    let quotient : mmc0_div hz hoscfreq ≡ hoscfreq / 2 / hz = ground arith in
    let h' : hoscfreq ≤ hz * (2 * (hoscfreq / 2 / hz)) =
      subst (λ t. hoscfreq ≤ hz * (2 * t)) (small_quotient (hoscfreq / 2 / hz) some_d small)
        (subst (λ t. hoscfreq ≤ hz * (2 * (mmc0_m t (mmc0_p t) * 2 ^ mmc0_p t))) quotient h) in
    absurd (omega (arith, not_exact (hoscfreq / 2) hz ne))

word_sum :
    (s p m : ℕ)
    → s < 2
    → p < 4
    → m < 16
    → bit_or (bit_or (s <<< 24) (p <<< 8)) (m <<< 0) ≡ s * 2 ^ 24 + p * 2 ^ 8 + m
word_sum s p m hs hp hm =
    ap₂ bit_or (bit_or-add 24 s (p * 2 ^ 8) (omega arith) ∙ both) (omega arith)
    ∙ bit_or-add 8 (s * 2 ^ 16 + p) m (omega arith)
    ∙ omega arith
  where
    both : s * 2 ^ 24 + p * 2 ^ 8 ≡ (s * 2 ^ 16 + p) * 2 ^ 8
    both = omega arith

gated : (v : ℕ) → v < 2 ^ 31 → bit_or v (1 <<< 31) ≡ 2 ^ 31 + v
gated v h = add-bit_or 31 1 v h

m_small : (div p : ℕ) → mmc0_m div p - 1 < 16
unfolding mmc0_m
m_small div p = ground arith

source_small : (b : Bool) → (if b then 0 else 1) < 2
source_small true = omega arith
source_small false = omega arith

fields_small : (s p m : ℕ) → s < 2 → p < 4 → m < 16 → s * 2 ^ 24 + p * 2 ^ 8 + m < 2 ^ 31
fields_small s p m hs hp hm = omega arith

-- The two writes: for an `hz` above 0 the fields of `mmc0_clk` are the source (bits 26:24: the
-- oscillator up to 12 MHz, PLL_PERI above), P (bits 9:8) and M - 1 (bits 3:0), first with the gate
-- (bit 31) closed and then with it open; then the driver waits.
pub mmc0clock-writes :
    (hz : ℕ) (c : Ccu)
    → 0 < hz
    → let slow = leb hz (hoscfreq / 2) in
      let freq = if slow then hoscfreq else peri1xfreq c in
      let div = mmc0_div hz freq in
      let p = mmc0_p div in
      let v = (if slow then 0 else 1) * 2 ^ 24 + p * 2 ^ 8 + (mmc0_m div p - 1) in
      (mmc0clock hz c).log
      ≡ ((c.log ++ wrote mmc0_clk v ∷ []) ++ wrote mmc0_clk (2 ^ 31 + v) ∷ []) ++ delayed 10 ∷ []
unfolding mmc0clock
mmc0clock-writes hz c pos =
    let go : (leb hz 0 ≡ false) = ground arith in
    let s : ℕ = (if leb hz (hoscfreq / 2) then 0 else 1) in
    let freq : ℕ = (if leb hz (hoscfreq / 2) then hoscfreq else peri1xfreq c) in
    let div = mmc0_div hz freq in
    let v =
      word_sum s (mmc0_p div) (mmc0_m div (mmc0_p div) - 1) (source_small (leb hz (hoscfreq / 2)))
        (omega (arith, (p_bounds div).0)) (m_small div (mmc0_p div)) in
    rw go (
      rw v (
        rw
          (gated (s * 2 ^ 24 + mmc0_p div * 2 ^ 8 + (mmc0_m div (mmc0_p div) - 1)) (
            fields_small s (mmc0_p div) (mmc0_m div (mmc0_p div) - 1)
              (source_small (leb hz (hoscfreq / 2))) (omega (arith, (p_bounds div).0))
              (m_small div (mmc0_p div))))
          refl))
