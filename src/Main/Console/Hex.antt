-- ===== src/Main/Console/Hex.antt =====
-- `uart_puthex64` can be read back.
use mathlib.Core.Path.{subst}
use native.Mathlib.Nat.{
  pow-suc, div-add-mod, mul-add-mod_self_left, mod-eq_of_lt, mod-lt, one-le-pow,
}
use mathlib.Core.List.{append-nil}
use front_mangopi_overlay.Uart.{lsr_thre}
use front_mangopi_overlay.Uart.Wait.{ready}
use front_mangopi_overlay.Uart.{Ctlr, suartputc, drain, suartkick}
use front_mangopi_overlay.Uart.Kick.{writes, crlf, suartkick-Sent}
use front_mangopi_overlay.Main.Console.Text.{
  view, seen, seen-bind, uart_putc-eq-suartputc, uart_puts-eq-suartkick,
}
use front_mangopi_overlay.Main.Console.{Console, put_digits, uart_puthex64, hex_digits}
use front_mangopi_overlay.Base.Bits.{bit_and-ones}
use front_mangopi_overlay.Base.{
  ◌>>=◌, ap, ◌∙◌, sym, ℕ, zero, suc, ◌+◌, ◌-◌, ◌*◌, ◌/◌, ◌<◌, ◌≤◌, ◌≡◌, ◌%◌, ◌^◌, ltb, ◌==◌,
  if◌then◌else◌, get_or, length, List, [], ◌∷◌, ◌++◌, Option, none, some, arith, refl, false,
}

-- The value of a lower-case hexadecimal digit, and of a number in base 16 after `acc`.
abbrev pub digit_value : ℕ → ℕ
digit_value ch = if ltb ch b'a' then ch - b'0' else ch - b'a' + 10

abbrev pub read_hex : (acc : ℕ) → List ℕ → ℕ
read_hex acc [] = acc
read_hex acc (ch ∷ chs) = read_hex (acc * 16 + digit_value ch) chs

digit_char :
    (d : ℕ)
    → d < 16
    → (digit_value (get_or hex_digits d 0) ≡ d)
      × (get_or hex_digits d 0 < 256)
      × (10 < get_or hex_digits d 0)
digit_char d h = ground arith

-- The characters that `put_digits` sends.
abbrev pub digits_of : (left v : ℕ) → List ℕ
digits_of zero v = []
digits_of (suc left) v = get_or hex_digits (v / 2 ^ (4 * left) % 16) 0 ∷ digits_of left v

regroup : (p a b : ℕ) → p * (16 * a + b) ≡ (p * 16) * a + b * p
regroup p a b = grind arith

small : (p d r : ℕ) → d < 16 → r < p → d * p + r < p * 16
small p d r hd hr = grind arith

spread : (acc d p : ℕ) → (acc * 16 + d) * p ≡ acc * (p * 16) + d * p
spread acc d p = grind arith

-- One digit more.
mod_split : (v p : ℕ) → 0 < p → v % (p * 16) ≡ v / p % 16 * p + v % p
mod_split v p pos =
    let q = v / p in
    let below : v % p < p = mod-lt v pos in
    let whole : v ≡ (p * 16) * (q / 16) + (q % 16 * p + v % p) = grind (
      arith,
      div-add-mod v p,
      regroup p (q / 16) (q % 16),
      ap (λ (t : ℕ). p * t) (div-add-mod q 16),
    ) in
    ap (λ (x : ℕ). x % (p * 16)) whole
    ∙ mul-add-mod_self_left (p * 16) (q / 16) (q % 16 * p + v % p)
    ∙ mod-eq_of_lt (small p (q % 16) (v % p) (omega arith) below)

sixteen : (left : ℕ) → 2 ^ (4 * suc left) ≡ 2 ^ (4 * left) * 16
sixteen left =
    let n = 4 * left in
    let four : 4 * suc left ≡ suc (suc (suc (suc n))) = omega arith in
    ap (λ (k : ℕ). 2 ^ k) four
    ∙ omega (
      arith,
      pow-suc 2 (suc (suc (suc n))),
      pow-suc 2 (suc (suc n)),
      pow-suc 2 (suc n),
      pow-suc 2 n,
    )

read_hex-digits_of :
    (left v acc : ℕ) → read_hex acc (digits_of left v) ≡ acc * 2 ^ (4 * left) + v % 2 ^ (4 * left)
read_hex-digits_of zero v acc = omega arith
read_hex-digits_of (suc left) v acc =
    let p = 2 ^ (4 * left) in
    let d = v / p % 16 in
    ap (λ x. read_hex (acc * 16 + x) (digits_of left v)) (digit_char d (omega arith)).0
    ∙ read_hex-digits_of left v (acc * 16 + d)
    ∙ grind (
      arith,
      mod_split v p (one-le-pow (4 * left) 2 (omega arith)),
      sixteen left,
      spread acc d p,
      ap (λ (x : ℕ). acc * x) (sixteen left),
      ap (λ (x : ℕ). v % x) (sixteen left),
    )

crlf-digits_of : (left v : ℕ) → crlf (digits_of left v) ≡ digits_of left v
crlf-digits_of zero v = refl
crlf-digits_of (suc left) v =
    let d = v / 2 ^ (4 * left) % 16 in
    ground (arith, digit_char d (omega arith), crlf-digits_of left v)

length-digits_of : (left v : ℕ) → length (digits_of left v) ≡ left
length-digits_of zero v = refl
length-digits_of (suc left) v = ap suc (length-digits_of left v)

-- The digits go out as the serial driver would send them.
pub put_digits-eq-drain :
    (left v : ℕ) (c : Ctlr) → put_digits left v (view c) ≡ seen (drain (digits_of left v) c)
unfolding put_digits drain
put_digits-eq-drain zero v c = refl
put_digits-eq-drain (suc left) v c =
    let d = v / 2 ^ (4 * left) % 16 in
    let ch = get_or hex_digits d 0 in
    let in_range = digit_char d (omega arith) in
    let no_feed : (ch == 10) ≡ false = ground arith in
    rw (bit_and-ones 4 (v / 2 ^ (4 * left)), no_feed, uart_putc-eq-suartputc ch c in_range.1)
      (seen-bind (suartputc ch c) (drain (digits_of left v)) (put_digits left v)
        (put_digits-eq-drain left v))

bind_assoc :
    (m : Option Ctlr) (f g : Ctlr → Option Ctlr) → (m >>= λ a. f a >>= g) ≡ ((m >>= f) >>= g)
bind_assoc none f g = refl
bind_assoc (some a) f g = refl

bind_cong :
    (m : Option Ctlr) (f g : Ctlr → Option Ctlr) → ((a : Ctlr) → f a ≡ g a) → (m >>= f) ≡ (m >>= g)
bind_cong none f g h = refl
bind_cong (some a) f g h = h a

pub drain-append : (xs ys : List ℕ) (c : Ctlr) → drain (xs ++ ys) c ≡ (drain xs c >>= drain ys)
unfolding drain
drain-append [] ys c = refl
drain-append (x ∷ xs) ys c =
    let first = if x == 10 then suartputc 13 c else some c in
    bind_cong first (λ c1. suartputc x c1 >>= drain (xs ++ ys))
      (λ c1. (suartputc x c1 >>= drain xs) >>= drain ys)
      (λ c1.
        bind_cong (suartputc x c1) (drain (xs ++ ys)) (λ c2. drain xs c2 >>= drain ys)
          (drain-append xs ys)
        ∙ bind_assoc (suartputc x c1) (drain xs) (drain ys))
    ∙ bind_assoc first (λ c1. suartputc x c1 >>= drain xs) (drain ys)

-- For each 64-bit `v`, `uart_puthex64` returns if 18 of the coming status reads show the transmitter
-- free, and has written 0, x and sixteen hexadecimal digits, which read back as `v`.
pub uart_puthex64-read_hex :
    (v : ℕ) (c : Ctlr)
    → v < 2 ^ 64
    → 18 ≤ ready lsr_thre c.lsr_reads
    → let text = digits_of 16 v in
      (c' : Console) × (uart_puthex64 v (view c) ≡ some c')
      × (c'.log ≡ c.log ++ writes (b'0' ∷ b'x' ∷ text))
      × (length text ≡ 16)
      × (read_hex 0 text ≡ v)
unfolding uart_puthex64 suartkick
uart_puthex64-read_hex v c h free =
    let text = digits_of 16 v in
    let all = b'0' ∷ b'x' ∷ text in
    let same : ◌≡◌ {A = List ℕ} (crlf all) all = ap (λ t. b'0' ∷ b'x' ∷ t) (crlf-digits_of 16 v) in
    let eighteen : length (crlf (all ++ [])) ≡ 18 =
      ap (λ t. length (crlf t)) (append-nil all)
      ∙ ap length same
      ∙ ap (λ n. suc (suc n)) (length-digits_of 16 v) in
    let s =
      suartkick-Sent [] all c
        (subst (λ (n : ℕ). n ≤ ready lsr_thre c.lsr_reads) (sym eighteen) free) in
    let start = uart_puts-eq-suartkick (b'0' ∷ b'x' ∷ []) c (omega arith, (omega arith, tt)) in
    let ran : uart_puthex64 v (view c) ≡ some (view s.after) =
      ap (λ r. r >>= put_digits 16 v) start
      ∙ seen-bind (drain (b'0' ∷ b'x' ∷ []) c) (drain text) (put_digits 16 v)
          (put_digits-eq-drain 16 v)
      ∙ ap seen (sym (drain-append (b'0' ∷ b'x' ∷ []) text c) ∙ s.ran) in
    (
      view s.after,
      ran,
      s.log ∙ ap (λ t. c.log ++ writes t) (ap crlf (append-nil all) ∙ same),
      length-digits_of 16 v,
      read_hex-digits_of 16 v 0 ∙ omega arith,
    )
