-- ===== src/Trap/Clock/Ticking.antt =====
-- After `trapinit` the timer's interrupt, and no other, does something.
use front_mangopi_overlay.Trap.Clock.{Shared, Hart, clockintr, timer0init, trapinit, tickinterval}
use front_mangopi_overlay.Trap.Dispatch.{timer0irq}
use front_mangopi_overlay.Timer.{
  timer0start, timer0ack, cyclefreqinit, cyclefreq, cpumhz, AllAgain, cyclefreqinit_measures,
}
use front_mangopi_overlay.Wdt.{wdt_riscv_feed, wdt_feed_at, or_one}
use front_mangopi_overlay.Plic.{
  Plic, plicinit, plicenable, intrenable, handler, dispatch, pliccomplete, plicintr,
}
use front_mangopi_overlay.Plic.Dispatch.{plicintr-intrenable}
use front_mangopi_overlay.Base.Bits.{bit_or_cut, bit_or-zero}
use mathlib.Core.Option.{some-injective}
use front_mangopi_overlay.Base.{
  bit_or, u64, ◌/◌, ◌%◌, ◌*◌, ◌-◌, ◌<<<◌, ℕ, ◌+◌, ◌^◌, ◌<◌, ◌≤◌, ◌≡◌, ◌≢◌, ◌==◌, ltb, true, false,
  List, [], ◌∷◌, ◌++◌, Option, none, some, arith, refl, sym, ap, ◌∙◌,
}

-- The state after `trapinit`, on a hart with the shared state `s` before.
pub record Ticking {P : Type 0} (timerintr : Shared P → Shared P) (trapvec freq : ℕ) (h : Hart P)
    (result : Option (Hart P)) : Type 0 where
  pub after : Hart P
  pub ran : result ≡ some after
  pub vector : after.stvec ≡ some trapvec
  pub enabled : after.sie_seie ≡ true
  pub unmasked : after.sstatus_sie ≡ true
  pub threshold : after.plic.threshold ≡ 0
  pub measured :
      (after.cyclefreq ≡ freq) × (after.cpuhz ≡ freq) × (after.mhz ≡ u64 (freq + 500000) / 1000000)
  -- The timer's number at the controller.
  pub passes : (after.plic.pri 75 ≡ 1) × (after.plic.en 2 / 2 ^ 11 % 2 ≡ 1)
  -- A tick of 10 ms, over and over.
  pub period :
      (after.plic.shared.timer.intv0 ≡ 240000)
      × (after.plic.shared.timer.ctl0 ≡ 7)
      × (after.plic.shared.timer.irqen ≡ bit_or h.plic.shared.timer.irqen 1)
  pub ticks :
      (plicintr timer0irq after.plic).shared
      ≡ timerintr (record (after.plic.shared) {
        dogs = record (after.plic.shared.dogs) {
          riscv = record (after.plic.shared.dogs.riscv) { ctrl = 0x14af };
        };
        timer = record (after.plic.shared.timer) { irqsta = 1 };
      })
  pub silent :
      (j : ℕ)
      → 0 < j
      → j ≢ timer0irq
      → ((plicintr j after.plic).shared ≡ after.plic.shared)
        × ((plicintr j after.plic).unhandled ≡ h.plic.unhandled ++ j ∷ [])

bit_eleven : (x : ℕ) → bit_or x (1 <<< 11) / 2 ^ 11 % 2 ≡ 1
bit_eleven x =
    omega (arith, bit_or_cut 11 x (1 <<< 11), or_one (x / 2 ^ 11), bit_or-zero (x % 2 ^ 11))

nonzero : (j : ℕ) → 0 < j → j == 0 ≡ false
nonzero j h = ground arith

module _ {P : Type 0} (timerintr : Shared P → Shared P) (h : Hart P) (trapvec tstart freq : ℕ)
    (reads : List (ℕ × ℕ)) (measured : cyclefreqinit tstart reads ≡ some freq)
    (nobody : (j : ℕ) → h.plic.vctl j ≡ none) where
  abbrev ready : Plic (Shared P)
  ready = plicenable timer0irq 1 (record (plicinit h.plic) {
    shared = record ((plicinit h.plic).shared) {
      timer = timer0start tickinterval (plicinit h.plic).shared.timer;
    };
  })

  handler-ready : (j : ℕ) → handler j ready ≡ none
  unfolding handler plicenable plicinit
  handler-ready j = ground (arith, nobody j)

  no_handler :
      (j : ℕ)
      → 0 < j
      → ((plicintr j ready).shared ≡ ready.shared)
        × ((plicintr j ready).unhandled ≡ h.plic.unhandled ++ j ∷ [])
  unfolding plicintr dispatch pliccomplete plicenable plicinit
  no_handler j pos = rw (handler-ready j, nonzero j pos) (refl, refl)

  armed :
      (q : Plic (Shared P)) × (intrenable timer0irq (clockintr timerintr) ready ≡ some q)
      × (q.threshold ≡ 0)
      × (q.shared ≡ ready.shared)
      × (q.pri 75 ≡ 1)
      × (q.en 2 / 2 ^ 11 % 2 ≡ 1)
  unfolding intrenable plicenable plicinit
  armed = (_, refl, refl, refl, refl, bit_eleven (bit_or (h.plic.en 2) (1 <<< 11)))

  trapinit-ran :
      trapinit timerintr trapvec tstart reads h
      ≡ some (record h {
        stvec = some trapvec;
        cyclefreq = freq;
        cpuhz = freq;
        mhz = cpumhz freq;
        plic = armed.0;
        sie_seie = true;
        sstatus_sie = true;
      })
  unfolding trapinit timer0init
  trapinit-ran = rw (measured, armed.1) refl

  trapinit-period :
      (armed.0.shared.timer.intv0 ≡ 240000)
      × (armed.0.shared.timer.ctl0 ≡ 7)
      × (armed.0.shared.timer.irqen ≡ bit_or h.plic.shared.timer.irqen 1)
  unfolding timer0start plicenable plicinit
  trapinit-period = (
    ap (λ (s : Shared P). s.timer.intv0) armed.3,
    ap (λ (s : Shared P). s.timer.ctl0) armed.3,
    ap (λ (s : Shared P). s.timer.irqen) armed.3,
  )

  -- The two that `intrenable` makes are one.
  armed-same :
      (q : Plic (Shared P))
      → intrenable timer0irq (clockintr timerintr) ready ≡ some q
      → armed.0 ≡ q
  armed-same q e = some-injective armed.0 q (sym armed.1 ∙ e)

  clockintr-armed :
      (plicintr timer0irq armed.0).shared
      ≡ timerintr (record (armed.0.shared) {
        dogs = record (armed.0.shared.dogs) {
          riscv = record (armed.0.shared.dogs.riscv) { ctrl = 0x14af };
        };
        timer = record (armed.0.shared.timer) { irqsta = 1 };
      })
  unfolding clockintr wdt_riscv_feed wdt_feed_at timer0ack
  clockintr-armed =
      let q =
        plicintr-intrenable timer0irq 1 (clockintr timerintr) ready (omega arith) (omega arith)
          (omega arith) in
      ap (λ (p : Plic (Shared P)). (plicintr timer0irq p).shared) (armed-same q.0 q.1)
      ∙ q.3
      ∙ ap (λ (s : Shared P). clockintr timerintr s) (sym armed.3)

  silent_armed :
      (j : ℕ)
      → 0 < j
      → j ≢ timer0irq
      → ((plicintr j armed.0).shared ≡ armed.0.shared)
        × ((plicintr j armed.0).unhandled ≡ h.plic.unhandled ++ j ∷ [])
  silent_armed j pos ne =
      let q =
        plicintr-intrenable timer0irq j (clockintr timerintr) ready (omega arith) (omega arith)
          ne in
      let same = armed-same q.0 q.1 in
      let none_left = no_handler j pos in
      (
        ap (λ (p : Plic (Shared P)). (plicintr j p).shared) same ∙ q.4 ∙ none_left.0 ∙ sym armed.3,
        ap (λ (p : Plic (Shared P)). (plicintr j p).unhandled) same ∙ q.5 ∙ none_left.1,
      )

  trapinit-ticks : Ticking timerintr trapvec freq h (trapinit timerintr trapvec tstart reads h)
  unfolding cpumhz
  trapinit-ticks = record {
    after = record h {
      stvec = some trapvec;
      cyclefreq = freq;
      cpuhz = freq;
      mhz = cpumhz freq;
      plic = armed.0;
      sie_seie = true;
      sstatus_sie = true;
    };
    ran = trapinit-ran;
    vector = refl;
    enabled = refl;
    unmasked = refl;
    threshold = armed.2;
    measured = (refl, refl, refl);
    passes = (armed.4, armed.5);
    period = trapinit-period;
    ticks = clockintr-armed;
    silent = silent_armed;
  }

-- Where no handler was registered before, and the reads of the counters let the measurement end,
-- `trapinit` returns. The vector and the interrupts are set, no priority is masked and the timer's
-- number is enabled with priority 1; the timer runs, again and again, with a period of 10 ms and its
-- interrupt enabled; and the frequency is 100 times the cycles that were counted from the first move
-- of the time counter to the first read of it that is 10 ms or more after its first value. From then
-- on a claim of the timer's number runs the portable clock, once it has fed the watchdog of the hart
-- and acknowledged the timer, and a claim of any other number is reported and changes nothing that handlers share.
pub trapinit-Ticking :
    {P : Type 0} (timerintr : Shared P → Shared P) (h : Hart P) (trapvec tstart : ℕ)
    (aligns waits : List (ℕ × ℕ)) (c0 t0 c1 t1 : ℕ) (rest : List (ℕ × ℕ))
    → ((j : ℕ) → h.plic.vctl j ≡ none)
    → tstart + 240000 < 2 ^ 64
    → AllAgain (λ t. t == tstart) aligns
    → t0 ≢ tstart
    → AllAgain (λ t. ltb t (tstart + 240000)) waits
    → tstart + 240000 ≤ t1
    → Ticking timerintr trapvec
        (u64 (u64 (c1 + 2 ^ 64 - c0) * 100))
        h
        (trapinit timerintr trapvec tstart (aligns ++ (c0, t0) ∷ (waits ++ (c1, t1) ∷ rest)) h)
unfolding cyclefreq
trapinit-Ticking timerintr h trapvec tstart aligns waits c0 t0 c1 t1 rest nobody fits still moved
      early late =
    trapinit-ticks timerintr h trapvec tstart (cyclefreq c0 c1)
      (aligns ++ (c0, t0) ∷ (waits ++ (c1, t1) ∷ rest))
      (cyclefreqinit_measures tstart aligns waits c0 t0 c1 t1 rest fits still moved early late)
      nobody
