-- ===== src/Timer.antt =====
-- timer.c: timer 0 of the board as the portable clock sets it, and the cycle-counter measurement.
mod Tests
use front_mangopi_overlay.Base.{
  ◌>>=◌, List, [], ◌∷◌, ◌++◌, Option, none, some, ℕ, ◌+◌, ◌-◌, ◌*◌, ◌/◌, ◌%◌, ◌^◌, ◌<◌, ◌≤◌, ◌≡◌,
  ◌≢◌, ◌⊎◌, inl, inr, ◌==◌, ltb, leb, if◌then◌else◌, bit_or, ◌<<<◌, arith, refl, u32, u64, Bool,
  true, false,
}

abbrev pub timebasefreq : ℕ
timebasefreq = 24000000

abbrev pub hz : ℕ
hz = 100

abbrev pub min_period : ℕ
min_period = timebasefreq / (100 * hz)

abbrev pub max_period : ℕ
max_period = timebasefreq / hz

-- The registers that the kernel writes, and the interrupt-enable word.
pub record TimerRegs : Type 0 where
  pub irqen : ℕ
  pub irqsta : ℕ
  pub ctl0 : ℕ
  pub intv0 : ℕ

-- `ModeContinuous` and `Div1` are 0.
unfoldable pub timer0start : (ticks : ℕ) → TimerRegs → TimerRegs
timer0start ticks tr = record tr {
  intv0 = u32 ticks;
  ctl0 = bit_or (bit_or (1 <<< 2) (1 <<< 1)) (1 <<< 0);
  irqen = bit_or tr.irqen (1 <<< 0);
}

-- Writing 1 to a status bit clears it: what is written is kept as the last write.
unfoldable pub timer0ack : TimerRegs → TimerRegs
timer0ack tr = record tr { irqsta = 1 <<< 0 }

unfoldable pub timer0set : (ticks : ℕ) → TimerRegs → TimerRegs
timer0set ticks tr = record tr {
  intv0 = u32 ticks;
  ctl0 = bit_or (bit_or (bit_or (1 <<< 7) (1 <<< 2)) (1 <<< 1)) (1 <<< 0);
}

-- `period` is a signed 64-bit difference: a pattern of 2^63 or more is below 0, so below
-- `MinPeriod`.
unfoldable pub timer_period : (when now : ℕ) → ℕ
timer_period when now =
    let period = u64 (when + 2 ^ 64 - now) in
    if leb (2 ^ 63) period
    then min_period
    else if ltb period min_period
    then min_period
    else if ltb max_period period
    then max_period
    else period

unfoldable pub timerset : (when now : ℕ) → TimerRegs → TimerRegs
unfolding timer_period timer0set
timerset when now tr = timer0set (timer_period when now) tr

-- What `cyclefreqinit` derives from the cycle counter read `c0` at the start and `c1` at the end of
-- 10 ms.
unfoldable pub cyclefreq : (c0 c1 : ℕ) → ℕ
cyclefreq c0 c1 = u64 (u64 (c1 + 2 ^ 64 - c0) * 100)

unfoldable pub cpumhz : (freq : ℕ) → ℕ
cpumhz freq = u64 (freq + 500000) / 1000000

-- A loop `do c = rdcycle(); while(again(rdtime()))` on what the pairs of reads return: the last
-- `c`, and the reads after it.
unfoldable pub read_while : (again : ℕ → Bool) → List (ℕ × ℕ) → Option (ℕ × List (ℕ × ℕ))
read_while again [] = none
read_while again (ct ∷ reads) =
    let rest = read_while again reads in if again ct.1 then rest else some (ct.0, reads)

-- The frequency; `tstart` is the first read of the time counter.
unfoldable pub cyclefreqinit : (tstart : ℕ) → List (ℕ × ℕ) → Option ℕ
unfolding read_while cyclefreq
cyclefreqinit tstart reads = do
  let tend = u64 (tstart + timebasefreq / 100)
  (c0, reads1) ← read_while (λ t. t == tstart) reads
  (c1, reads2) ← read_while (λ t. ltb t tend) reads1
  some (cyclefreq c0 c1)

-- The timer is set for the time that is left until `when`, but never for less than 100 µs nor for
-- more than one tick of 10 ms; a time that has passed counts as too short. It counts down once
-- (bit 7) from there, and nothing else changes.
pub timerset-clamps :
    (when now : ℕ) (tr : TimerRegs)
    → when < 2 ^ 63
    → now < 2 ^ 63
    → let t = timerset when now tr in
      (2400 ≤ t.intv0)
      × (t.intv0 ≤ 240000)
      × (now + 2400 ≤ when → when ≤ now + 240000 → now + t.intv0 ≡ when)
      × (when < now + 2400 → t.intv0 ≡ 2400)
      × (now + 240000 < when → t.intv0 ≡ 240000)
      × (t.ctl0 ≡ 0x87)
      × (t.irqen ≡ tr.irqen)
unfolding timerset
timerset-clamps when now tr hw hn = ground arith

-- Every read of the time counter in a list of pairs has the loop go round again.
abbrev pub AllAgain : (ℕ → Bool) → List (ℕ × ℕ) → Type 0
AllAgain again [] = Unit {0}
AllAgain again (ct ∷ reads) = (again ct.1 ≡ true) × AllAgain again reads

read_while_ends :
    (again : ℕ → Bool) (before : List (ℕ × ℕ)) (c t : ℕ) (rest : List (ℕ × ℕ))
    → AllAgain again before
    → again t ≡ false
    → read_while again (before ++ (c, t) ∷ rest) ≡ some (c, rest)
unfolding read_while
read_while_ends again [] c t rest h e = rw e refl
read_while_ends again (ct ∷ before) c t rest (a, h) e =
    rw a (read_while_ends again before c t rest h e)

-- The measurement ends at the first read of the time counter that is 10 ms after the first, and
-- takes the cycles since the counter first moved.
pub cyclefreqinit_measures :
    (tstart : ℕ) (aligns waits : List (ℕ × ℕ)) (c0 t0 c1 t1 : ℕ) (rest : List (ℕ × ℕ))
    → tstart + 240000 < 2 ^ 64
    → AllAgain (λ t. t == tstart) aligns
    → t0 ≢ tstart
    → AllAgain (λ t. ltb t (tstart + 240000)) waits
    → tstart + 240000 ≤ t1
    → cyclefreqinit tstart (aligns ++ (c0, t0) ∷ (waits ++ (c1, t1) ∷ rest))
      ≡ some (cyclefreq c0 c1)
unfolding cyclefreqinit
cyclefreqinit_measures tstart aligns waits c0 t0 c1 t1 rest fits still moved early late =
    let tend : u64 (tstart + timebasefreq / 100) ≡ tstart + 240000 = omega arith in
    rw tend (
      rw
        (read_while_ends (λ t. t == tstart) aligns c0 t0 (waits ++ (c1, t1) ∷ rest) still
          (ground arith))
        (rw (read_while_ends (λ t. ltb t (tstart + 240000)) waits c1 t1 rest early (ground arith))
          refl))

-- The measured frequency does not depend on where the counter stood, also across its wrap, and the
-- figure in MHz is the nearest one.
pub cpumhz-nearest :
    (c0 cycles : ℕ)
    → c0 < 2 ^ 64
    → cycles < 2 ^ 50
    → let f = cyclefreq c0 (u64 (c0 + cycles)) in
      (f ≡ cycles * 100) × (f < cpumhz f * 1000000 + 500000) × (cpumhz f * 1000000 ≤ f + 500000)
unfolding cyclefreq cpumhz
cpumhz-nearest c0 cycles h small = omega arith
