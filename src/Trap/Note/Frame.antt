-- ===== src/Trap/Note/Frame.antt =====
-- What `notify` writes, and where.
use front_mangopi_overlay.Trap.Regs.{Layout, IsLayout, Fits}
use front_mangopi_overlay.Trap.Note.{by2wd, minus, move_to, Notified, nureg_of, deliver, notify}
use front_mangopi_overlay.Base.Bits.{bit_and-ones}
use front_mangopi_overlay.Base.{
  ℕ, ◌+◌, ◌-◌, ◌*◌, ◌^◌, ◌/◌, ◌%◌, ◌<◌, ◌≤◌, ◌≡◌, ◌==◌, if◌then◌else◌, not, Bool, true, false,
  bit_and, Option, none, some, arith, refl, ◌∙◌, sym, ap, ◌⊎◌, inr,
}

pub minus-lt : (a b : ℕ) → minus a b < 2 ^ 64
unfolding minus
minus-lt a b = omega arith

pub minus-add : (m a : ℕ) → m + a < 2 ^ 64 → minus (m + a) a ≡ m
unfolding minus
minus-add m a h = omega arith

-- A difference that leaves room for what was taken off was not wrapped around.
pub add-minus : (n a : ℕ) → n < 2 ^ 64 → a < 2 ^ 64 → minus n a + a < 2 ^ 64 → n ≡ minus n a + a
unfolding minus
add-minus n a h ha room = omega arith

-- The addresses that `notify` computes, from the lowest one that it asks `okaddr` about: the space
-- for the message and four words, and the Ureg above it.
chain :
    (x w e : ℕ)
    → 0 < w
    → w < 2 ^ 10
    → e < 2 ^ 10
    → let nureg = minus (minus x 256) (w * 8) in
      let low = minus (minus nureg (e * 8)) 32 in
      low + (w * 8 + e * 8 + 32) ≤ 2 ^ 64
      → (nureg ≡ low + e * 8 + 32)
        × (minus nureg (8 + e * 8) ≡ low + 24)
        × (minus (minus nureg (8 + e * 8)) 24 ≡ low)
chain x w e some_w hw he fits =
    let nureg = minus (minus x 256) (w * 8) in
    let below = minus nureg (e * 8) in
    let low = minus below 32 in
    let b : below ≡ low + 32 =
      add-minus below 32 (minus-lt nureg (e * 8)) (omega arith) (omega arith) in
    let n : nureg ≡ below + e * 8 =
      add-minus nureg (e * 8) (minus-lt (minus x 256) (w * 8)) (omega arith) (omega arith) in
    let top_up : nureg ≡ low + e * 8 + 32 = omega arith in
    let message : minus nureg (8 + e * 8) ≡ low + 24 =
      ap (λ t. minus t (8 + e * 8)) (omega arith)
      ∙ minus-add (low + 24) (8 + e * 8) (omega arith) in
    (top_up, message, ap (λ t. minus t 24) message ∙ minus-add low 24 (omega arith))

-- Reading back what was moved.
pub move_to-get :
    (n dst i : ℕ) (words m : ℕ → ℕ) → i < n → move_to n dst words m (dst + i * by2wd) ≡ words i
unfolding move_to
move_to-get n dst i words m h =
    let index : (dst + i * by2wd - dst) / by2wd ≡ i = omega arith in ground (arith, ap words index)

pub move_to-other :
    (n dst a : ℕ) (words m : ℕ → ℕ)
    → (a < dst) ⊎ (dst + n * by2wd ≤ a)
    → move_to n dst words m a ≡ m a
unfolding move_to
move_to-other n dst a words m h = ground arith

some_inj : {A : Type 0} {x y : A} → some x ≡ some y → x ≡ y
some_inj {A} {x} {y} e = ap (λ (o : Option A). elim o [ some z ↦ z | none ↦ x ]) e

passed :
    {A : Type 0} {r : A} (b : Bool) (x : Option A)
    → (if not b then none else x) ≡ some r
    → (b ≡ true) × (x ≡ some r)
passed true x e = (refl, e)
passed false x e = ground arith

module _ (l : Layout) (okaddr : (addr len : ℕ) (writing : Bool) → Bool) where
  -- The lowest address that `notify` asks `okaddr` about.
  abbrev pub low_of : ℕ → ℕ
  low_of sp = minus (minus (nureg_of l sp) (l.errwords * by2wd)) (4 * by2wd)

  pub notify-checked :
      (handler : ℕ) (ureg msg mem : ℕ → ℕ) (r : Notified)
      → notify l okaddr handler ureg msg mem ≡ some r
      → (okaddr (low_of (ureg l.sp)) (l.words * by2wd + l.errwords * by2wd + 4 * by2wd) true ≡ true)
        × (nureg_of l (ureg l.sp) % 8 ≡ 0)
        × (deliver l okaddr handler ureg msg mem ≡ r)
  unfolding notify
  notify-checked handler ureg msg mem r e =
      let checked = passed (okaddr _ _ true) _ e in
      let even = passed (bit_and handler 1 == 0) _ checked.1 in
      let aligned = passed (bit_and (nureg_of l (ureg l.sp)) 7 == 0) _ even.1 in
      (
        checked.0,
        ground (arith, aligned.0, bit_and-ones 3 (nureg_of l (ureg l.sp))),
        some_inj aligned.1,
      )

  -- The Ureg of the handler is the interrupted one.
  pub deliver-keeps :
      (handler : ℕ) (ureg msg mem : ℕ → ℕ) (i : ℕ)
      → IsLayout l
      → low_of (ureg l.sp) + (l.words * by2wd + l.errwords * by2wd + 4 * by2wd) ≤ 2 ^ 64
      → i < l.words
      → let d = deliver l okaddr handler ureg msg mem in d.mem (d.nureg + i * by2wd) ≡ ureg i
  unfolding deliver nureg_of
  deliver-keeps handler ureg msg mem i is fits h =
      let c =
        chain (ureg l.sp) l.words l.errwords (omega arith) is.few_words is.few_errwords fits in
      let nureg = nureg_of l (ureg l.sp) in
      let sp1 = minus nureg (by2wd + l.errwords * by2wd) in
      ground (
        arith,
        c,
        move_to-get l.words nureg i ureg mem h,
        move_to-other l.errwords sp1 (nureg + i * by2wd) msg (move_to l.words nureg ureg mem)
            (inr (omega (arith, c))),
      )

  pub at_nureg :
      (handler : ℕ) (ureg msg mem : ℕ → ℕ)
      → nureg_of l (ureg l.sp) % 8 ≡ 0
      → (deliver l okaddr handler ureg msg mem).nureg % 8 ≡ 0
  unfolding deliver
  at_nureg handler ureg msg mem h = h

  deliver-frame :
      (handler : ℕ) (ureg msg mem : ℕ → ℕ)
      → IsLayout l
      → low_of (ureg l.sp) + (l.words * by2wd + l.errwords * by2wd + 4 * by2wd) ≤ 2 ^ 64
      → let r = deliver l okaddr handler ureg msg mem in
        let sp = low_of (ureg l.sp) in
        let size = l.words * by2wd + l.errwords * by2wd + 4 * by2wd in
        (r.ureg l.sp ≡ sp)
        × ((a : ℕ) → (a < sp) ⊎ (sp + size ≤ a) → r.mem a ≡ mem a)
        × (r.mem (sp + 8) ≡ r.nureg)
        × (r.mem (sp + 16) ≡ sp + 24)
        × ((i : ℕ) → i < l.errwords → r.mem (sp + 24 + i * by2wd) ≡ msg i)
        × (r.ureg l.arg ≡ r.nureg)
        × (r.ureg l.pc ≡ handler)
  unfolding deliver nureg_of
  deliver-frame handler ureg msg mem is fits =
      let c =
        chain (ureg l.sp) l.words l.errwords (omega arith) is.few_words is.few_errwords fits in
      let nureg = nureg_of l (ureg l.sp) in
      let sp1 = minus nureg (by2wd + l.errwords * by2wd) in
      let mem1 = move_to l.words nureg ureg mem in
      let outside : (a : ℕ)
          → (a < low_of (ureg l.sp))
            ⊎ (low_of (ureg l.sp) + (l.words * by2wd + l.errwords * by2wd + 4 * by2wd) ≤ a)
          → (a < nureg) ⊎ (nureg + l.words * by2wd ≤ a) =
        (λ a h. ground (arith, c, h)) in
      let outside_msg : (a : ℕ)
          → (a < low_of (ureg l.sp))
            ⊎ (low_of (ureg l.sp) + (l.words * by2wd + l.errwords * by2wd + 4 * by2wd) ≤ a)
          → (a < sp1) ⊎ (sp1 + l.errwords * by2wd ≤ a) =
        (λ a h. ground (arith, c, h)) in
      (
        ground (arith, c),
        (λ a h. ground (
          arith,
          c,
          h,
          move_to-other l.words nureg a ureg mem (outside a h),
          move_to-other l.errwords sp1 a msg mem1 (outside_msg a h),
        )),
        ground (arith, c),
        ground (arith, c),
        (λ i h. ground (arith, c, move_to-get l.errwords sp1 i msg mem1 h)),
        ground arith,
        ground arith,
      )

  -- `notify` changes memory only in the range that it has asked `okaddr` about; and from the stack
  -- pointer that it sets, the second and the third word are the addresses of the Ureg and of the
  -- message, which begins after them.
  pub notify-frame :
      (handler : ℕ) (ureg msg mem : ℕ → ℕ) (r : Notified)
      → IsLayout l
      → Fits okaddr
      → notify l okaddr handler ureg msg mem ≡ some r
      → let sp = r.ureg l.sp in
        let size = l.words * by2wd + l.errwords * by2wd + 4 * by2wd in
        (okaddr sp size true ≡ true)
        × ((a : ℕ) → (a < sp) ⊎ (sp + size ≤ a) → r.mem a ≡ mem a)
        × (r.mem (sp + 8) ≡ r.nureg)
        × (r.mem (sp + 16) ≡ sp + 24)
        × ((i : ℕ) → i < l.errwords → r.mem (sp + 24 + i * by2wd) ≡ msg i)
        × (r.ureg l.arg ≡ r.nureg)
        × (r.ureg l.pc ≡ handler)
  notify-frame handler ureg msg mem r is fit e =
      let checked = notify-checked handler ureg msg mem r e in
      let f = deliver-frame handler ureg msg mem is (fit (low_of (ureg l.sp)) _ true checked.0) in
      rw (sym checked.2) (rw f.0 (checked.0, f.1, f.2, f.3, f.4, f.5, f.6))

  nureg-deliver :
      (handler : ℕ) (ureg msg mem : ℕ → ℕ)
      → (deliver l okaddr handler ureg msg mem).nureg ≡ nureg_of l (ureg l.sp)
  unfolding deliver
  nureg-deliver handler ureg msg mem = refl

  pub saved_sp :
      (handler : ℕ) (ureg msg mem : ℕ → ℕ)
      → IsLayout l
      → low_of (ureg l.sp) + (l.words * by2wd + l.errwords * by2wd + 4 * by2wd) ≤ 2 ^ 64
      → nureg_of l (ureg l.sp) % 8 ≡ 0
      → let d = deliver l okaddr handler ureg msg mem in
        (minus (minus d.nureg (4 * by2wd)) (l.errwords * by2wd) ≡ d.ureg l.sp)
        × (d.ureg l.sp % 8 ≡ 0)
        × (d.ureg l.sp + 8 < 2 ^ 64)
  unfolding nureg_of
  saved_sp handler ureg msg mem is fits aligned =
      let c =
        chain (ureg l.sp) l.words l.errwords (omega arith) is.few_words is.few_errwords fits in
      let low = low_of (ureg l.sp) in
      let off = minus-add (low + l.errwords * by2wd) 32 (omega arith) in
      let down = minus-add low (l.errwords * by2wd) (omega arith) in
      let at_low = (deliver-frame handler ureg msg mem is fits).0 in
      let whole : (deliver l okaddr handler ureg msg mem).nureg ≡ low + l.errwords * by2wd + 32 =
        nureg-deliver handler ureg msg mem ∙ c.0 in
      (
        ap (λ t. minus (minus t 32) (l.errwords * by2wd)) whole
            ∙ ap (λ t. minus t (l.errwords * by2wd)) off
            ∙ down
            ∙ sym at_low,
        omega (arith, at_low, c.0, aligned),
        omega (arith, at_low, fits),
      )
