-- ===== src/Main/Tests.antt =====
-- The console on a port that is always free, a delay across the wrap of the counter, the sizes for a
-- kernel of 2 MB on a board with 1 GB, and the first stack.
use front_mangopi_overlay.Uart.{Ctlr}
use front_mangopi_overlay.Uart.Kick.{writes}
use front_mangopi_overlay.Mmu.Pte.{kaddr}
use front_mangopi_overlay.Main.Stack.{init0_stack, load_bytes, boot_name, init0_stack_argv}
use front_mangopi_overlay.Bootargs.Init.{string_at}
use front_mangopi_overlay.Trap.Dispatch.{ustktop}
use front_mangopi_overlay.Main.Console.{Console, uart_puthex64}
use front_mangopi_overlay.Main.Console.Text.{view}
use front_mangopi_overlay.Main.Console.Hex.{digits_of, read_hex, uart_puthex64-read_hex}
use front_mangopi_overlay.Main.Delay.{Waited, microdelay, microdelay-Waited}
use front_mangopi_overlay.Main.Conf.{Sizes, confinit, tables_of, confinit_fits}
use front_mangopi_overlay.Base.{
  ℕ, ◌+◌, ◌-◌, ◌*◌, ◌%◌, ◌^◌, ◌<◌, ◌≤◌, ◌≡◌, ◌⊎◌, inr, [], ◌∷◌, ◌++◌, some, length, false, refl,
  arith,
}

abbrev free_port : Ctlr
free_port = record {
  lsr_reads =
      0x20 ∷ 0x20 ∷ 0x20 ∷ 0x20 ∷ 0x20 ∷ 0x20 ∷ 0x20 ∷ 0x20 ∷ 0x20 ∷ 0x20 ∷ 0x20 ∷ 0x20 ∷ 0x20
      ∷ 0x20 ∷ 0x20 ∷ 0x20 ∷ 0x20 ∷ 0x20 ∷ [];
  rbr_reads = [];
  line = 3;
  iena = false;
  baud = 115200;
  log = [];
}

uart_puthex64-read_hex_example :
    (c' : Console) × (uart_puthex64 0xFFFFFFFFC1000000 (view free_port) ≡ some c')
    × (c'.log ≡ [] ++ writes (b'0' ∷ b'x' ∷ digits_of 16 0xFFFFFFFFC1000000))
    × (length (digits_of 16 0xFFFFFFFFC1000000) ≡ 16)
    × (read_hex 0 (digits_of 16 0xFFFFFFFFC1000000) ≡ 0xFFFFFFFFC1000000)
uart_puthex64-read_hex_example =
    uart_puthex64-read_hex 0xFFFFFFFFC1000000 free_port (omega arith) (omega arith)

microdelay-Waited_example :
    Waited 0xFFFFFFFFFFFFFFF0 240
      (5 ∷ 100 ∷ 240 ∷ 260 ∷ [])
      (microdelay 10 (0xFFFFFFFFFFFFFFF0 ∷ 5 ∷ 100 ∷ 240 ∷ 260 ∷ []))
microdelay-Waited_example =
    microdelay-Waited 10 0xFFFFFFFFFFFFFFF0 (5 ∷ 100 ∷ []) 240 (260 ∷ []) (omega arith)

abbrev port_sizes : Sizes
port_sizes = record { page = 64; proc_ptr = 8; image = 4200; page_ptr = 8 }

confinit_fits_example :
    let c = confinit port_sizes (2 ^ 30) (kaddr 0x41200123) in
    (0x41200123 ≤ c.base)
    × (c.base < 0x41200123 + 4096)
    × (c.base % 4096 ≡ 0)
    × (c.base + c.npage * 4096 ≡ 0x80000000)
    × (c.pages ≡ c.npage)
    × (c.mainmem + tables_of port_sizes c + c.upages * 4096 ≡ c.npage * 4096)
    × (c.nproc ≤ 2000)
    × (c.imagmem ≤ c.mainmem)
confinit_fits_example =
    confinit_fits port_sizes (2 ^ 30) 0x41200123 (inr refl) (omega arith) (omega arith)
      (omega arith) (omega arith) (omega arith) (omega arith)

init0_stack_argv_example :
    let (sp, mem) = init0_stack 0x60 (λ _. 7) in
    let argv = load_bytes 8 (sp + 16) mem in
    (string_at 8 mem (load_bytes 8 argv mem) ≡ boot_name)
    × (load_bytes 8 (argv + 8) mem ≡ 0)
    × (sp % 8 ≡ 0)
    × ((x : ℕ) → (x < sp) ⊎ (ustktop - 0x60 - 8 ≤ x) → mem x ≡ 7)
init0_stack_argv_example = init0_stack_argv 0x60 (λ _. 7) refl (omega arith)
