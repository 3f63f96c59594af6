-- ===== src/Trap/Dump/Report.antt =====
-- What `dumptrap` prints.
use front_mangopi_overlay.Base.{false, ◌==◌, if◌then◌else◌}
use front_mangopi_overlay.Trap.Dump.{excname, or_unknown, excstr, Faulted, dumptrap}
use front_mangopi_overlay.Main.Console.{Console, uart_puts, put_digits, uart_puthex64}
use front_mangopi_overlay.Main.Console.Text.{
  view, seen, seen-bind, AllBytes, uart_puts-eq-suartkick,
}
use front_mangopi_overlay.Main.Console.Hex.{digits_of, put_digits-eq-drain, drain-append}
use front_mangopi_overlay.Uart.{Ctlr, lsr_thre, drain, suartkick}
use front_mangopi_overlay.Uart.Wait.{ready}
use front_mangopi_overlay.Uart.Kick.{crlf, writes, drain-Sent}
use front_mangopi_overlay.Base.Bytes.{bytes}
use front_mangopi_overlay.Base.{
  ◌>>=◌, ap, ◌∙◌, sym, ℕ, zero, suc, ◌≤◌, ◌≡◌, ltb, ◌&&◌, get_or, length, List, [], ◌∷◌, ◌++◌, Bool,
  true, Bool-cases, inl, inr, Option, none, some, arith, refl,
}

abbrev pub hex_text : ℕ → List ℕ
hex_text v = b'0' ∷ b'x' ∷ digits_of 16 v

-- The exceptions of the RISC-V privileged architecture by their number, with the words for them; the
-- other numbers have none.
abbrev pub exceptions : List (ℕ × List ℕ)
exceptions =
    (0, bytes "sys: trap: instruction address misaligned")
    ∷ (1, bytes "sys: trap: instruction access fault")
    ∷ (2, bytes "sys: trap: illegal instruction")
    ∷ (3, bytes "sys: breakpoint")
    ∷ (4, bytes "sys: trap: load address misaligned")
    ∷ (5, bytes "sys: trap: load access fault")
    ∷ (6, bytes "sys: trap: store/AMO address misaligned")
    ∷ (7, bytes "sys: trap: store/AMO access fault")
    ∷ (8, bytes "sys: trap: environment call from U-mode")
    ∷ (9, bytes "sys: trap: environment call from S-mode")
    ∷ (12, bytes "sys: trap: instruction page fault")
    ∷ (13, bytes "sys: trap: load page fault")
    ∷ (15, bytes "sys: trap: store/AMO page fault")
    ∷ []

abbrev pub named : ℕ → List (ℕ × List ℕ) → List ℕ
named cause [] = bytes "sys: trap: unknown"
named cause (e ∷ es) = if cause == e.0 then e.1 else named cause es

abbrev pub field_line : (name : List ℕ) → ℕ → List ℕ → List ℕ
field_line name v rest = name ++ (hex_text v ++ (bytes "\n" ++ rest))

abbrev pub report : Faulted → (cause : ℕ) → List ℕ
report ureg cause =
    bytes "trap: exception, cause "
    ++ (hex_text cause
        ++ (bytes " ("
            ++ (named cause exceptions
                ++ (bytes ")\n"
                    ++ field_line (bytes "  sepc    = ") ureg.pc (
                        field_line (bytes "  stval   = ") ureg.tval (
                          field_line (bytes "  sstatus = ") ureg.status
                            (bytes "trap: halting\n")))))))

-- Code on the console that does what the driver does to send a text.
abbrev Sends : (Console → Option Console) → List ℕ → Type 0
Sends f text = (c : Ctlr) → f (view c) ≡ seen (drain text c)

Sends-append :
    (f g : Console → Option Console) (s t : List ℕ)
    → Sends f s
    → Sends g t
    → Sends (λ c. f c >>= g) (s ++ t)
Sends-append f g s t hf hg c =
    ap (λ r. r >>= g) (hf c)
    ∙ seen-bind (drain s c) (drain t) g hg
    ∙ ap seen (sym (drain-append s t c))

abbrev all_bytes : List ℕ → Bool
all_bytes [] = true
all_bytes (ch ∷ chs) = ltb ch 256 && all_bytes chs

all_bytes-AllBytes : (text : List ℕ) → all_bytes text ≡ true → AllBytes text
all_bytes-AllBytes [] h = tt
all_bytes-AllBytes (ch ∷ chs) h = (ground arith, all_bytes-AllBytes chs (ground arith))

uart_puts-Sends : (text : List ℕ) → all_bytes text ≡ true → Sends (uart_puts text) text
unfolding suartkick
uart_puts-Sends text h c = uart_puts-eq-suartkick text c (all_bytes-AllBytes text h)

uart_puthex64-Sends : (v : ℕ) → Sends (uart_puthex64 v) (hex_text v)
unfolding uart_puthex64
uart_puthex64-Sends v =
    Sends-append (uart_puts (bytes "0x")) (λ c. put_digits 16 v c) (bytes "0x") (digits_of 16 v)
      (uart_puts-Sends (bytes "0x") refl) (put_digits-eq-drain 16 v)

abbrev all_names : List (Option (List ℕ)) → Bool
all_names [] = true
all_names (x ∷ xs) = all_bytes (or_unknown x) && all_names xs

names_are_bytes :
    (names : List (Option (List ℕ))) (i : ℕ)
    → all_names names ≡ true
    → all_bytes (or_unknown (get_or names i none)) ≡ true
names_are_bytes [] i h = refl
names_are_bytes (x ∷ xs) zero h = ground arith
names_are_bytes (x ∷ xs) (suc i) h = names_are_bytes xs i (ground arith)

excstr_is_bytes : (cause : ℕ) → all_bytes (excstr cause) ≡ true
unfolding excstr
excstr_is_bytes cause = elim (Bool-cases (ltb cause 16)) [
  | inl e ↦ rw e (names_are_bytes excname cause refl)
  | inr e ↦ rw e refl
]

field-Sends :
    (name : List ℕ) (v : ℕ) (g : Console → Option Console) (rest : List ℕ)
    → all_bytes name ≡ true
    → Sends g rest
    → Sends
        (λ c.
          uart_puts name c >>= λ c1. uart_puthex64 v c1 >>= λ c2. uart_puts (bytes "\n") c2 >>= g)
        (field_line name v rest)
field-Sends name v g rest h more =
    Sends-append (uart_puts name)
      (λ c1. uart_puthex64 v c1 >>= λ c2. uart_puts (bytes "\n") c2 >>= g) name
      (hex_text v ++ (bytes "\n" ++ rest)) (uart_puts-Sends name h)
      (Sends-append (uart_puthex64 v) (λ c2. uart_puts (bytes "\n") c2 >>= g) (hex_text v)
        (bytes "\n" ++ rest) (uart_puthex64-Sends v)
        (Sends-append (uart_puts (bytes "\n")) g (bytes "\n") rest
          (uart_puts-Sends (bytes "\n") refl) more))

abbrev numbers_below_16 : List (ℕ × List ℕ) → Bool
numbers_below_16 [] = true
numbers_below_16 (e ∷ es) = ltb e.0 16 && numbers_below_16 es

named_unknown :
    (cause : ℕ) (es : List (ℕ × List ℕ))
    → 16 ≤ cause
    → numbers_below_16 es ≡ true
    → named cause es ≡ bytes "sys: trap: unknown"
named_unknown cause [] past h = refl
named_unknown cause (e ∷ es) past h = ground (arith, named_unknown cause es past (ground arith))

-- The table of the source has an entry at each number that has a name, and no other.
excstr-named : (cause : ℕ) → excstr cause ≡ named cause exceptions
unfolding excstr
excstr-named zero = refl
excstr-named (suc zero) = refl
excstr-named (suc (suc zero)) = refl
excstr-named (suc (suc (suc zero))) = refl
excstr-named (suc (suc (suc (suc zero)))) = refl
excstr-named (suc (suc (suc (suc (suc zero))))) = refl
excstr-named (suc (suc (suc (suc (suc (suc zero)))))) = refl
excstr-named (suc (suc (suc (suc (suc (suc (suc zero))))))) = refl
excstr-named (suc (suc (suc (suc (suc (suc (suc (suc zero)))))))) = refl
excstr-named (suc (suc (suc (suc (suc (suc (suc (suc (suc zero))))))))) = refl
excstr-named (suc (suc (suc (suc (suc (suc (suc (suc (suc (suc zero)))))))))) = refl
excstr-named (suc (suc (suc (suc (suc (suc (suc (suc (suc (suc (suc zero))))))))))) = refl
excstr-named (suc (suc (suc (suc (suc (suc (suc (suc (suc (suc (suc (suc zero)))))))))))) = refl
excstr-named (suc (suc (suc (suc (suc (suc (suc (suc (suc (suc (suc (suc (suc zero))))))))))))) =
    refl
excstr-named
      (suc (suc (suc (suc (suc (suc (suc (suc (suc (suc (suc (suc (suc (suc zero)))))))))))))) =
    refl
excstr-named
      (suc
        (suc (suc (suc (suc (suc (suc (suc (suc (suc (suc (suc (suc (suc (suc zero))))))))))))))) =
    refl
excstr-named
      (suc (
        suc
          (suc (suc (suc (suc (suc (suc (suc (suc (suc (suc (suc (suc (suc (suc n)))))))))))))))) =
    let cause =
      suc (
        suc
          (suc (suc (suc (suc (suc (suc (suc (suc (suc (suc (suc (suc (suc (suc n))))))))))))))) in
    let past : ltb cause 16 ≡ false = ground arith in
    rw past (sym (named_unknown cause exceptions (omega arith) refl))

excstr-Sends : (cause : ℕ) → Sends (uart_puts (excstr cause)) (named cause exceptions)
excstr-Sends cause c =
    uart_puts-Sends (excstr cause) (excstr_is_bytes cause) c
    ∙ ap (λ t. seen (drain t c)) (excstr-named cause)

dumptrap-Sends : (ureg : Faulted) (cause : ℕ) → Sends (dumptrap ureg cause) (report ureg cause)
unfolding dumptrap
dumptrap-Sends ureg cause =
    let end = uart_puts-Sends (bytes "trap: halting\n") refl in
    let status =
      field-Sends (bytes "  sstatus = ") ureg.status (uart_puts (bytes "trap: halting\n")) _ refl
        end in
    let tval = field-Sends (bytes "  stval   = ") ureg.tval _ _ refl status in
    let pc = field-Sends (bytes "  sepc    = ") ureg.pc _ _ refl tval in
    let closed =
      Sends-append (uart_puts (bytes ")\n")) _ (bytes ")\n") _ (uart_puts-Sends (bytes ")\n") refl)
        pc in
    let name =
      Sends-append (uart_puts (excstr cause)) _ (named cause exceptions) _ (excstr-Sends cause)
        closed in
    let opened =
      Sends-append (uart_puts (bytes " (")) _ (bytes " (") _ (uart_puts-Sends (bytes " (") refl)
        name in
    let number =
      Sends-append (uart_puthex64 cause) _ (hex_text cause) _ (uart_puthex64-Sends cause) opened in
    Sends-append (uart_puts (bytes "trap: exception, cause ")) _ (bytes "trap: exception, cause ") _
      (uart_puts-Sends (bytes "trap: exception, cause ") refl) number

-- If as many of the coming status reads show the transmitter free as the report has characters, a
-- carriage return before each line feed included, `dumptrap` gets to its halt and has written the
-- report and nothing else: the cause with the words for it in `exceptions`, or that it is unknown, and a line
-- each for the pc, the address and the status, the numbers as sixteen digits.
pub dumptrap-report :
    (ureg : Faulted) (cause : ℕ) (c : Ctlr)
    → length (crlf (report ureg cause)) ≤ ready lsr_thre c.lsr_reads
    → (c' : Console) × (dumptrap ureg cause (view c) ≡ some c')
      × (c'.log ≡ c.log ++ writes (crlf (report ureg cause)))
dumptrap-report ureg cause c free =
    let s = drain-Sent (report ureg cause) c free in
    (view s.after, dumptrap-Sends ureg cause c ∙ ap seen s.ran, s.log)
