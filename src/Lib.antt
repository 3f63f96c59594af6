-- ===== src/Lib.antt =====
-- The sun20i kernel port of 9front to the MangoPi MQ-Pro: a verification library for its C code in
-- mangopi_overlay/sys/src/9/sun20i. The paths below are relative to that directory.
--
-- The parts. At start-up mmu.c builds the page tables that main.c switches to, and later the tables
-- of each process, with the macros of mem.h. ccu.c sets the clocks of the CPU, the card host and
-- USB; timer.c arms timer 0 and wdt.c the two watchdogs. plic.c enables interrupts and dispatches
-- them to the handlers that trap.c and the drivers register. fpu.c keeps the floating-point state
-- of the processes across switches and notes, through three routines of l.s. trap.c is entered from
-- l.s for each trap; it delivers notes to processes and takes them back from note handlers.
-- bootargs.c keeps the settings of plan9.ini that drivers ask for. usbehcisun20i.c brings up the USB
-- host controller, if those settings let it.
-- smhc.c sends the SD card's commands and data. uartsun20i.c is the console's serial port; main.c
-- writes to the same port before that driver runs.
--
-- The files.
-- - Base: shared names, tests on numbers, arrays (Base/Array), the bytes of a literal string
--   (Base/Bytes), and the bit operations by fields
--   (Base/Bits and below). Words of 32 and 64 bits are natural numbers with the wrap-around
--   written out (`u32`, `u64`).
-- - Fpu: fpu.c, `FPsave`, `PFPU` of dat.h, and `fpsave`, `fprestore`, `fpsetfs` of l.s. Fpu/Switch is
--   about context switches, Fpu/Notes about notes. A record holds a process and the hart, and says
--   whether a floating-point instruction ran while FS was Off.
-- - Mmu/Pte: the macros of mem.h. Mmu/Tree: page tables in memory with a ghost role for each table,
--   lookups, and what adding an entry does to them. Mmu/Boot: `newtable`, `mapleaf`, `maprange`,
--   `mapblock`, `maphigh`, `mapident`, `mmubootstrap` and `mmulowdrop` of mmu.c; a call that finds
--   no table left, where the code loops for ever, is `none`. Mmu/Boot/View sees the tables as one
--   function from the indices of a page to its entry; Mmu/Boot/Start and Drop are about the two as a
--   whole. Mmu/User: the entry of `putmmu`, and
--   below it the tables of a process, its table pages and the functions on them.
--   Mmu/Dram: `dramsize` and `cankaddr`; which cell answers for an address is a parameter.
--   Mmu/Uncache: `splitblock`, `mmuuncache` and `dcflush`.
-- - Ccu: ccu.c, with the writes and waits as a list. The reads of the loop that waits for the PLL
--   are a list too, and `none` stands for a PLL that never locks. Ccu/Card is about `mmc0clock`.
-- - Timer: timer.c. The clock of `timerset` is an argument, and what `cyclefreqinit` reads of the two
--   counters is a list of pairs.
-- - Wdt: wdt.c. A pair holds the registers of the two watchdogs.
-- - Plic: plic.c. A handler with its argument is a function on a state that handlers share; the
--   number that reading `claim` returns is an argument, and `none` stands for the panic.
-- - Trap/Note: `notify`, `noted` and `setregisters` of trap.c, with the layout of a Ureg, ERRMAX and
--   `okaddr` as parameters (Trap/Regs says what is relied on). Frame is about what `notify` writes,
--   RoundTrip about the return. Trap/Dispatch: `trap` and `faultriscv` as the calls they make.
--   Trap/Process: `syscall`, `execregs`, `forkchild` and `setkernur`. Trap/Clock: `trapinit` and
--   `clockintr`, which join timer.c, wdt.c and plic.c. Trap/Dump: `excstr` and `dumptrap`, on the
--   console of main.c.
-- - Bootargs: bootargs.c. The table (Bootargs/Table, Bootargs/Distinct), the text in its buffer and
--   the lines of it (Bootargs/Init, Strip, Text), and the environments of `setconfenv`
--   (Bootargs/Env). `cistrcmp` and `getfields` are parameters.
-- - Uart: uartsun20i.c. What reading LSR and RBR returns is a list for each and the writes are a log;
--   `none` stands for a wait that never ends. Uart/Kick is about output, Uart/Line about settings.
-- - Smhc: smhc.c. Each loop that polls has a script of what it reads, with the tick counts, and the
--   writes are a list. Smhc/Word is about the command word, Smhc/Command about the outcome of a
--   command, Smhc/Transfer about the loops of `smhcio`.
-- - Usb: usbehcisun20i.c. What reading the command register returns is a function of how many reads
--   there were. Usb/Wait is about the loop that waits for the reset, Usb/Reset about `ehcireset`, and
--   Usb/Attach about `reset`, which calls on ccu.c, plic.c and bootargs.c.
-- - Main: of main.c the console before the serial driver runs (Main/Console), `microdelay` and
--   `delay` on the reads of the time counter (Main/Delay), `confinit` (Main/Conf), and the stack
--   that `init0` builds, on a memory of bytes (Main/Stack).
-- - Stub: `kprocchild` and `evenaddr` of stub.c.
-- The modules called Tests evaluate the definitions and apply the theorems at concrete inputs.
--
-- Bounds and fuel. The loops of `maprange` and `mapblock` run on fuel that is the size divided
-- by the step, plus 2: one for a last partial step and one for the test that ends the loop. That
-- it is enough is part of the theorems on them. The loop of `bootargsinit` runs on the length of
-- the buffer. `NTABLES` is 24, as in the source. The loop of `putmmu` goes over the pages that
-- `newpage` will return, of which it needs one for each table that lacks. The loops that poll a
-- device go over what its registers will return.
--
-- Not modelled: `userpc` and `dbgpc` of trap.c; the rest of `init0`,
-- `smhcprobe` and `main` of main.c, which call the portable kernel; the rest of stub.c and of l.s;
-- the portable kernel, which is not in the repository; the tests, scripts and documents.
pub mod Base
pub mod Fpu
pub mod Mmu
pub mod Ccu
pub mod Timer
pub mod Wdt
pub mod Plic
pub mod Trap
pub mod Bootargs
pub mod Uart
pub mod Main
pub mod Smhc
pub mod Usb
pub mod Stub
