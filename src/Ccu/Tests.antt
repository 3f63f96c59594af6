-- ===== src/Ccu/Tests.antt =====
-- Runs of the clock functions, and the theorems at concrete inputs.
use front_mangopi_overlay.Ccu.{
  Ccu, wrote, delayed, mmc0clock, mmc0_div, mmc0_p, mmc0_m, mmc0_clk, hoscfreq, peri1xfreq,
}
use front_mangopi_overlay.Ccu.Card.{inexact-faster, mmc0clock-writes, NotFaster}
use front_mangopi_overlay.Base.{
  ◌==◌, ◌+◌, ◌-◌, ◌*◌, ◌^◌, ◌≡◌, arith, refl, if◌then◌else◌, ◌++◌, ◌∷◌, [],
}

abbrev idle : Ccu
idle = record { regs = λ i. if i == 8 then 0x90006300 else 0; log = [] }

-- 400 kHz from the oscillator: 24 MHz is 2 * 30 * 400 kHz.
-- 7 MHz was asked for, and the card runs at 12 MHz.
inexact-faster_example : ¬ NotFaster 7000000 hoscfreq
inexact-faster_example =
    inexact-faster 7000000 (omega arith) (omega arith) (omega arith) (omega arith)

mmc0clock-writes_example :
    let p = mmc0_p (mmc0_div 400000 hoscfreq) in
    let v = 0 * 2 ^ 24 + p * 2 ^ 8 + (mmc0_m (mmc0_div 400000 hoscfreq) p - 1) in
    (mmc0clock 400000 idle).log
    ≡ (([] ++ wrote mmc0_clk v ∷ []) ++ wrote mmc0_clk (2 ^ 31 + v) ∷ []) ++ delayed 10 ∷ []
mmc0clock-writes_example = mmc0clock-writes 400000 idle (omega arith)

-- PLL_PERI(1X) is 600 MHz with N 100, M 1, P 1.
peri1xfreq_run : peri1xfreq (record idle { regs = λ i. 99 * 2 ^ 8 + 2 ^ 16 }) ≡ 600000000
unfolding peri1xfreq
peri1xfreq_run = refl
