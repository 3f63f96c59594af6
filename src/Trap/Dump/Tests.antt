-- ===== src/Trap/Dump/Tests.antt =====
-- An illegal instruction in the kernel, on a port that is always free.
use front_mangopi_overlay.Uart.{Ctlr}
use front_mangopi_overlay.Uart.Kick.{crlf, writes}
use front_mangopi_overlay.Main.Console.{Console}
use front_mangopi_overlay.Main.Console.Text.{view}
use front_mangopi_overlay.Trap.Dump.{Faulted, excstr, dumptrap}
use front_mangopi_overlay.Trap.Dump.Report.{report, dumptrap-report}
use front_mangopi_overlay.Base.{ℕ, zero, suc, ◌≡◌, List, [], ◌∷◌, ◌++◌, some, false, arith}

abbrev free_reads : ℕ → List ℕ
free_reads zero = []
free_reads (suc n) = 0x20 ∷ free_reads n

abbrev free_port : Ctlr
free_port = record {
  lsr_reads = free_reads 256;
  rbr_reads = [];
  line = 3;
  iena = false;
  baud = 115200;
  log = [];
}

abbrev stopped : Faulted
stopped = record { pc = 0xFFFFFFFFC1001234; tval = 0; status = 0x8000000200006120 }

dumptrap-report_example :
    (c' : Console) × (dumptrap stopped 2 (view free_port) ≡ some c')
    × (c'.log ≡ [] ++ writes (crlf (report stopped 2)))
unfolding excstr
dumptrap-report_example = dumptrap-report stopped 2 free_port (omega arith)
