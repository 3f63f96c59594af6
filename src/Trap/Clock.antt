-- ===== src/Trap/Clock.antt =====
-- trap.c: `trapinit` and the handler of the timer's interrupt. The portable `timerintr` is a
-- parameter, and `setstvec` and `intrinit` of l.s set the vector and the two enable bits
-- of a hart.
pub mod Ticking
mod Tests
use front_mangopi_overlay.Timer.{
  TimerRegs, timebasefreq, hz, timer0start, timer0ack, cyclefreqinit, cpumhz,
}
use front_mangopi_overlay.Wdt.{Watchdogs, wdt_riscv_feed}
use front_mangopi_overlay.Plic.{Plic, plicinit, plicenable, intrenable}
use front_mangopi_overlay.Trap.Dispatch.{timer0irq}
use front_mangopi_overlay.Base.{◌>>=◌, ℕ, ◌/◌, Bool, true, List, Option, some}

abbrev pub tickinterval : ℕ
tickinterval = timebasefreq / hz

-- What the interrupt handlers share: the devices of the clock, and the portable kernel's state.
pub record Shared (P : Type 0) : Type 0 where
  pub timer : TimerRegs
  pub dogs : Watchdogs
  pub portable : P

-- `none` in `stvec` is the value from before. `cyclefreq`, `cpuhz` and `mhz`, which is `cpumhz`,
-- are fields of `m`.
pub record Hart (P : Type 0) : Type 0 where
  pub stvec : Option ℕ
  pub sie_seie : Bool
  pub sstatus_sie : Bool
  pub cyclefreq : ℕ
  pub cpuhz : ℕ
  pub mhz : ℕ
  pub plic : Plic (Shared P)

module _ {P : Type 0} (timerintr : Shared P → Shared P) where
  unfoldable pub clockintr : Shared P → Shared P
  clockintr s =
      let s1 = record s { dogs = wdt_riscv_feed s.dogs } in
      timerintr (record s1 { timer = timer0ack s1.timer })

  -- `reads` and `tstart` are what `cyclefreqinit` reads.
  unfoldable pub timer0init : (ticks tstart : ℕ) → List (ℕ × ℕ) → Hart P → Option (Hart P)
  timer0init ticks tstart reads h = do
    let s = h.plic.shared
    let set = record s { timer = timer0start ticks s.timer }
    freq ← cyclefreqinit tstart reads
    some (record h {
      cyclefreq = freq;
      cpuhz = freq;
      mhz = cpumhz freq;
      plic = plicenable timer0irq 1 (record h.plic { shared = set });
    })

  unfoldable pub trapinit : (trapvec tstart : ℕ) → List (ℕ × ℕ) → Hart P → Option (Hart P)
  unfolding timer0init
  trapinit trapvec tstart reads h = do
    let h1 = record h { stvec = some trapvec; plic = plicinit h.plic }
    h2 ← timer0init tickinterval tstart reads h1
    p ← intrenable timer0irq clockintr h2.plic
    some (record h2 { plic = p; sie_seie = true; sstatus_sie = true })
