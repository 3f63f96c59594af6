-- ===== src/Trap/Dump.antt =====
-- trap.c: the names of the exceptions, and `dumptrap`, which prints a report on the console of main.c
-- and halts. What is modelled is the console when it halts.
pub mod Report
mod Tests
use front_mangopi_overlay.Main.Console.{Console, uart_puts, uart_puthex64}
use front_mangopi_overlay.Base.Bytes.{bytes}
use front_mangopi_overlay.Base.{
  ◌>>=◌, ℕ, ltb, ◌&&◌, if◌then◌else◌, List, [], ◌∷◌, Option, none, some, get_or,
}

-- The entries that the source leaves out are `none`.
abbrev pub excname : List (Option (List ℕ))
excname =
    some (bytes "sys: trap: instruction address misaligned")
    ∷ some (bytes "sys: trap: instruction access fault")
    ∷ some (bytes "sys: trap: illegal instruction")
    ∷ some (bytes "sys: breakpoint")
    ∷ some (bytes "sys: trap: load address misaligned")
    ∷ some (bytes "sys: trap: load access fault")
    ∷ some (bytes "sys: trap: store/AMO address misaligned")
    ∷ some (bytes "sys: trap: store/AMO access fault")
    ∷ some (bytes "sys: trap: environment call from U-mode")
    ∷ some (bytes "sys: trap: environment call from S-mode")
    ∷ none
    ∷ none
    ∷ some (bytes "sys: trap: instruction page fault")
    ∷ some (bytes "sys: trap: load page fault")
    ∷ none
    ∷ some (bytes "sys: trap: store/AMO page fault")
    ∷ []

abbrev pub or_unknown : Option (List ℕ) → List ℕ
or_unknown none = bytes "sys: trap: unknown"
or_unknown (some s) = s

-- `cause` may be beyond the table: then `excname` is not read.
unfoldable pub excstr : (cause : ℕ) → List ℕ
excstr cause = or_unknown (if ltb cause 16 then get_or excname cause none else none)

-- The fields of the Ureg that the report shows.
pub record Faulted : Type 0 where
  pub pc : ℕ
  pub tval : ℕ
  pub status : ℕ

unfoldable pub dumptrap : Faulted → (cause : ℕ) → Console → Option Console
dumptrap ureg cause c = do
  c1 ← uart_puts (bytes "trap: exception, cause ") c
  c2 ← uart_puthex64 cause c1
  c3 ← uart_puts (bytes " (") c2
  c4 ← uart_puts (excstr cause) c3
  c5 ← uart_puts (bytes ")\n") c4
  c6 ← uart_puts (bytes "  sepc    = ") c5
  c7 ← uart_puthex64 ureg.pc c6
  c8 ← uart_puts (bytes "\n") c7
  c9 ← uart_puts (bytes "  stval   = ") c8
  c10 ← uart_puthex64 ureg.tval c9
  c11 ← uart_puts (bytes "\n") c10
  c12 ← uart_puts (bytes "  sstatus = ") c11
  c13 ← uart_puthex64 ureg.status c12
  c14 ← uart_puts (bytes "\n") c13
  uart_puts (bytes "trap: halting\n") c14
