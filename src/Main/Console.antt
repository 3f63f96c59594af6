-- ===== src/Main/Console.antt =====
-- main.c: `uart_putc`, `uart_puts` and `uart_puthex64`. What reading the status register returns is
-- a list, as in Uart; before and after `uarthigh` the registers are those of one port.
pub mod Text
pub mod Hex
use front_mangopi_overlay.Uart.{Event, wrote, rbr, wait_for}
use front_mangopi_overlay.Base.{
  ◌>>=◌, ℕ, zero, suc, ◌+◌, ◌*◌, ◌/◌, ◌^◌, bit_and, ◌==◌, if◌then◌else◌, ◌<<<◌, ◌>>>◌, List, [],
  ◌∷◌, ◌++◌, Option, none, some, get_or,
}

pub record Console : Type 0 where
  pub lsr_reads : List ℕ
  pub log : List Event

abbrev pub uart_lsr_thre : ℕ
uart_lsr_thre = 1 <<< 5

unfoldable pub uart_putc : ℕ → Console → Option Console
uart_putc ch c = do
  rest ← wait_for uart_lsr_thre c.lsr_reads
  some (record { lsr_reads = rest; log = c.log ++ wrote rbr (bit_and ch 0xff) ∷ [] })

-- The characters before the 0 that ends the string.
unfoldable pub uart_puts : List ℕ → Console → Option Console
unfolding uart_putc
uart_puts [] c = some c
uart_puts (ch ∷ chs) c = do
  c1 ← (if ch == 10 then uart_putc 13 c else some c)
  c2 ← uart_putc ch c1
  uart_puts chs c2

abbrev pub hex_digits : List ℕ
hex_digits =
    b'0' ∷ b'1' ∷ b'2' ∷ b'3' ∷ b'4' ∷ b'5' ∷ b'6' ∷ b'7' ∷ b'8' ∷ b'9' ∷ b'a' ∷ b'b' ∷ b'c' ∷ b'd'
    ∷ b'e' ∷ b'f' ∷ []

-- `for(i = 4 * (left - 1); i >= 0; i -= 4)`
unfoldable pub put_digits : (left v : ℕ) → Console → Option Console
unfolding uart_putc
put_digits zero v c = some c
put_digits (suc left) v c =
    uart_putc (get_or hex_digits (bit_and (v >>> (4 * left)) 0xf) 0) c >>= put_digits left v

unfoldable pub uart_puthex64 : ℕ → Console → Option Console
unfolding uart_puts put_digits
uart_puthex64 v c = uart_puts (b'0' ∷ b'x' ∷ []) c >>= put_digits 16 v
