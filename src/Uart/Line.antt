-- ===== src/Uart/Line.antt =====
-- The line settings: character size, parity and rate.
use mathlib.Core.Path.{subst}
use mathlib.Core.List.{append_assoc}
use front_mangopi_overlay.Uart.{
  write, write_lcr, Ctlr, Event, wrote, rbr, ier, lcr, lsr_thre, lcr_dlab, suartbits, suartparity,
  suartbaud,
}
use front_mangopi_overlay.Uart.Wait.{ready, wait_for-ready}
use front_mangopi_overlay.Base.Bits.{bit_or-add, bit_and-ones}
use front_mangopi_overlay.Base.Bits.Field.{clear_field, fill_field, fill_ones}
use front_mangopi_overlay.Base.{
  ap, ◌∙◌, ℕ, zero, suc, ◌+◌, ◌-◌, ◌*◌, ◌/◌, ◌%◌, ◌^◌, ◌<◌, ◌≤◌, ◌≡◌, ◌≢◌, bit_and, bit_or, not32,
  u32, ◌>>>◌, ◌==◌, leb, if◌then◌else◌, Bool, true, false, List, [], ◌∷◌, ◌++◌, Option, none, some,
  arith, refl, Bool-cases, inl, inr,
}

size_field : (l v : ℕ) → l < 2 ^ 32 → v < 4 → bit_or (bit_and l (not32 3)) v ≡ l / 4 * 4 + v
size_field l v h hv =
    ap (λ t. bit_or t v)
      (clear_field 0 2 30 (l / 4) (l % 4) 0 l (not32 3) (omega arith) refl (omega arith)
          (omega arith) (omega arith)
        ∙ omega arith)
    ∙ bit_or-add 2 (l / 4) v hv

parity_clear : (l : ℕ) → l < 2 ^ 32 → bit_and l (not32 0x38) ≡ l / 64 * 64 + l % 8
parity_clear l h =
    clear_field 3 3 26 (l / 64) (l / 8 % 8) (l % 8) l (not32 0x38) (omega arith) refl (omega arith)
      (omega arith) (omega arith)
    ∙ omega arith

parity_field :
    (l v : ℕ)
    → l < 2 ^ 32
    → v < 8
    → bit_or (bit_and l (not32 0x38)) (v * 8) ≡ l / 64 * 64 + v * 8 + l % 8
parity_field l v h hv =
    fill_field 3 3 (l / 64) v (l % 8) (bit_and l (not32 0x38)) (parity_clear l h ∙ omega arith) hv
      (omega arith)
    ∙ omega arith

-- The size field of LCR: the sizes 5 to 8 put the size less 5 in the two low bits of LCR and keep
-- the rest; any other size is refused and writes nothing.
abbrev pub SizeSet : (n : ℕ) → Ctlr → Bool × Ctlr → Type 0
SizeSet n c (ok, c') =
    if (if leb 5 n then leb n 8 else false)
    then ((ok ≡ true)
        × (c'.line ≡ c.line / 4 * 4 + (n - 5))
        × (c'.log ≡ c.log ++ wrote lcr c'.line ∷ []))
    else ((ok ≡ false) × (c' ≡ c))

suartbits-SizeSet : (n : ℕ) (c : Ctlr) → c.line < 2 ^ 32 → SizeSet n c (suartbits n c)
unfolding suartbits
suartbits-SizeSet n c h = ground (
  arith,
  size_field c.line 0 h,
  size_field c.line 1 h,
  size_field c.line 2 h,
  size_field c.line 3 h,
)

suartbits-word : (n : ℕ) (c : Ctlr) → c.line < 2 ^ 32 → (suartbits n c).1.line < 2 ^ 32
unfolding suartbits
suartbits-word n c h = ground (
  arith,
  size_field c.line 0 h,
  size_field c.line 1 h,
  size_field c.line 2 h,
  size_field c.line 3 h,
)

-- The code of a parity letter in bits 5:3 of LCR: none, odd, even.
abbrev pub parity_code : ℕ → Option ℕ
parity_code p =
    if p == b'n' then some 0 else if p == b'o' then some 1 else if p == b'e' then some 3 else none

abbrev pub ParitySet : Option ℕ → Ctlr → Bool × Ctlr → Type 0
ParitySet none c (ok, c') = (ok ≡ false) × (c' ≡ c)
ParitySet (some v) c (ok, c') =
    (ok ≡ true)
    × (c'.line ≡ c.line / 64 * 64 + v * 8 + c.line % 8)
    × (c'.log ≡ c.log ++ wrote lcr c'.line ∷ [])

suartparity-ParitySet :
    (p : ℕ) (c : Ctlr) → c.line < 2 ^ 32 → ParitySet (parity_code p) c (suartparity p c)
unfolding suartparity
suartparity-ParitySet p c h = elim (Bool-cases (p == b'n')) [
  | inl e ↦ rw e (refl, omega (arith, parity_clear c.line h), refl)
  | inr e ↦ elim (Bool-cases (p == b'o')) [
    | inl f ↦ rw (e, f) (refl, omega (arith, parity_field c.line 1 h), refl)
    | inr f ↦ elim (Bool-cases (p == b'e')) [
      | inl g ↦ rw (e, f, g) (refl, omega (arith, parity_field c.line 3 h), refl)
      | inr g ↦ rw (e, f, g) (refl, refl)
    ]
  ]
]

-- Setting the size and then the parity, on any 32-bit LCR: the size is taken if it is 5 to 8 and
-- stands in bits 1:0 of LCR less 5, the parity is taken if it is n, o or e and stands in bits 5:3 as
-- 0, 1 or 3; each keeps the other bits with one write of LCR, and what is not taken writes nothing.
pub line_settings :
    (n p : ℕ) (c : Ctlr)
    → c.line < 2 ^ 32
    → SizeSet n c (suartbits n c)
      × ParitySet (parity_code p) (suartbits n c).1 (suartparity p (suartbits n c).1)
line_settings n p c h =
    (suartbits-SizeSet n c h, suartparity-ParitySet p (suartbits n c).1 (suartbits-word n c h))

-- The divisor that a rate asks for.
abbrev pub divisor : (freq n : ℕ) → ℕ
divisor freq n = freq / (16 * n)

bit_or_one : (b : ℕ) → b < 2 → bit_or b (2 ^ 1 - 1) ≡ 2 ^ 1 - 1
bit_or_one zero h = refl
bit_or_one (suc zero) h = refl
bit_or_one (suc (suc b)) h = absurd (omega arith)

dlab_clear :
    (l : ℕ) → l < 2 ^ 32 → bit_and (bit_or l lcr_dlab) (not32 lcr_dlab) ≡ l / 256 * 256 + l % 128
dlab_clear l h =
    clear_field 7 1 24 (l / 256) 1 (l % 128) (bit_or l lcr_dlab) (not32 lcr_dlab)
      (fill_ones 7 1 (l / 256) (l / 128 % 2) (l % 128) l (omega arith) (omega arith) (omega arith)
        (bit_or_one (l / 128 % 2) (omega arith)))
      refl (omega arith) (omega arith) (omega arith)
    ∙ omega arith

-- What a setting of the rate writes: the two bytes of the divisor, while DLAB is set, and LCR with
-- DLAB clear at the end.
abbrev pub rate_writes : (line d : ℕ) → List Event
rate_writes line d =
    wrote lcr (bit_or line lcr_dlab)
    ∷ wrote rbr (d % 256)
    ∷ wrote ier (d / 256 % 256)
    ∷ wrote lcr (line / 256 * 256 + line % 128)
    ∷ []

-- A rate above 0 and below 2^27 whose divisor is 0 is refused and nothing is written. For any other
-- one `suartbaud` returns, if a coming read of LSR shows the transmitter free, and has written the
-- divisor modulo 2^16 byte by byte while DLAB was set; LCR is then as before with DLAB
-- clear, and the rate is noted.
pub suartbaud-writes :
    (freq n : ℕ) (c : Ctlr)
    → 0 < n
    → n < 2 ^ 27
    → c.line < 2 ^ 32
    → 0 < ready lsr_thre c.lsr_reads
    → if divisor freq n == 0
      then suartbaud freq n c ≡ some (false, c)
      else ((c' : Ctlr) × (suartbaud freq n c ≡ some (true, c'))
          × (c'.log ≡ c.log ++ rate_writes c.line (divisor freq n))
          × (c'.line ≡ c.line / 256 * 256 + c.line % 128)
          × (c'.baud ≡ n))
unfolding suartbaud
suartbaud-writes freq n c pos small h free =
    let times : u32 (16 * n) ≡ 16 * n = omega arith in
    let go : leb n 0 ≡ false = ground arith in
    let (rest, found, count) = wait_for-ready lsr_thre c.lsr_reads free in
    let low = bit_and-ones 8 (divisor freq n) in
    let high = bit_and-ones 8 (divisor freq n / 2 ^ 8) in
    let d = divisor freq n in
    let c1 : Ctlr = record c { lsr_reads = rest } in
    let c2 = write_lcr (bit_or c1.line lcr_dlab) c1 in
    let c4 = write ier (bit_and (d >>> 8) 0xff) (write rbr (bit_and d 0xff) c2) in
    let c5 = write_lcr (bit_and c4.line (not32 lcr_dlab)) c4 in
    elim (Bool-cases (divisor freq n == 0)) [
      | inl e ↦ rw (times, go, e) refl
      | inr e ↦
          rw (times, go, e, found)
            (
              record c5 { baud = n },
              refl,
              simp (append_assoc, low, high, dlab_clear c.line h),
              dlab_clear c.line h,
              refl,
            )
    ]

wide_divisor : (n : ℕ) → 0 < n → n < 23 → 2 ^ 16 ≤ divisor 24000000 n
wide_divisor n pos h = grind arith

-- Each rate from 1 to 22 at the 24 MHz of the board is taken, but its divisor has more than 16 bits:
-- the two bytes that are written make up another number.
pub suartbaud_truncates :
    (n : ℕ) (c : Ctlr)
    → 0 < n
    → n < 23
    → c.line < 2 ^ 32
    → 0 < ready lsr_thre c.lsr_reads
    → (c' : Ctlr) × (lo : ℕ) × (hi : ℕ) × (suartbaud 24000000 n c ≡ some (true, c'))
      × (c'.log
          ≡ c.log
            ++ wrote lcr (bit_or c.line lcr_dlab)
              ∷ wrote rbr lo
              ∷ wrote ier hi
              ∷ wrote lcr c'.line
              ∷ [])
      × (lo < 256)
      × (hi < 256)
      × (hi * 256 + lo ≢ divisor 24000000 n)
suartbaud_truncates n c pos h line free =
    let wide = wide_divisor n pos h in
    let d = divisor 24000000 n in
    let some_divisor : (d == 0) ≡ false = ground arith in
    let (c', ran, log, kept, _) =
      subst
        (λ (b : Bool).
          if b
          then suartbaud 24000000 n c ≡ some (false, c)
          else ((c' : Ctlr) × (suartbaud 24000000 n c ≡ some (true, c'))
              × (c'.log ≡ c.log ++ rate_writes c.line d)
              × (c'.line ≡ c.line / 256 * 256 + c.line % 128)
              × (c'.baud ≡ n)))
        some_divisor (suartbaud-writes 24000000 n c pos (omega arith) line free) in
    (c', d % 256, d / 256 % 256, ran, rw kept log, omega arith, omega arith, omega arith)
