-- ===== src/Main/Console/Text.antt =====
-- The early console and the serial driver compared.
use front_mangopi_overlay.Uart.{Ctlr, wrote, rbr, lsr_thre, wait_for, suartputc, drain, suartkick}
use front_mangopi_overlay.Main.Console.{Console, uart_putc, uart_puts}
use front_mangopi_overlay.Base.Bits.{bit_and-ones}
use front_mangopi_overlay.Base.{
  ◌>>=◌, ◌∙◌, ℕ, ◌<◌, ◌≡◌, bit_and, ◌==◌, List, [], ◌∷◌, ◌++◌, Option, none, some, arith, refl,
  Bool-cases, inl, inr,
}

-- The port as main.c sees it.
abbrev pub view : Ctlr → Console
view c = record { lsr_reads = c.lsr_reads; log = c.log }

abbrev pub seen : Option Ctlr → Option Console
seen none = none
seen (some c) = some (view c)

abbrev pub AllBytes : List ℕ → Type 0
AllBytes [] = Unit {0}
AllBytes (ch ∷ chs) = (ch < 256) × AllBytes chs

pub seen-bind :
    (r : Option Ctlr) (f : Ctlr → Option Ctlr) (g : Console → Option Console)
    → ((c : Ctlr) → g (view c) ≡ seen (f c))
    → (seen r >>= g) ≡ seen (r >>= f)
seen-bind none f g h = refl
seen-bind (some c) f g h = h c

pub uart_putc-eq-suartputc :
    (ch : ℕ) (c : Ctlr) → ch < 256 → uart_putc ch (view c) ≡ seen (suartputc ch c)
unfolding uart_putc suartputc
uart_putc-eq-suartputc ch c h = from (wait_for lsr_thre c.lsr_reads)
  where
    byte : bit_and ch 0xff ≡ ch
    byte = bit_and-ones 8 ch ∙ omega arith

    from :
        (r : Option (List ℕ))
        → ◌≡◌ {A = Option Console}
            (r >>= λ rest.
              some (record { lsr_reads = rest; log = c.log ++ wrote rbr (bit_and ch 0xff) ∷ [] }))
            (seen (
              (r >>= λ rest. some (record c { lsr_reads = rest })) >>= λ (c' : Ctlr).
              some (record c' { log = c'.log ++ wrote rbr ch ∷ [] })))
    from none = refl
    from (some rest) = rw byte refl

-- For bytes, `uart_puts` of main.c does to the port what `suartkick` of the serial driver does to it
-- with the same characters staged and no others: the same writes, and the same reads used up.
pub uart_puts-eq-suartkick :
    (chs : List ℕ) (c : Ctlr) → AllBytes chs → uart_puts chs (view c) ≡ seen (suartkick [] chs c)
unfolding uart_puts suartkick
uart_puts-eq-suartkick [] c h = refl
uart_puts-eq-suartkick (ch ∷ chs) c h =
    let rest : (c1 : Ctlr)
        → ◌≡◌ {A = Option Console} (uart_putc ch (view c1) >>= uart_puts chs)
            (seen (suartputc ch c1 >>= drain chs)) =
      (λ c1. rw (uart_putc-eq-suartputc ch c1 h.0) (
        seen-bind (suartputc ch c1) (drain chs) (uart_puts chs)
          (λ c2. uart_puts-eq-suartkick chs c2 h.1))) in
    elim (Bool-cases (ch == 10)) [
      | inl e ↦
          rw (e, uart_putc-eq-suartputc 13 c (omega arith))
            (seen-bind (suartputc 13 c) (λ c1. suartputc ch c1 >>= drain chs)
              (λ c1. uart_putc ch c1 >>= uart_puts chs) rest)
      | inr e ↦ rw e (rest c)
    ]
