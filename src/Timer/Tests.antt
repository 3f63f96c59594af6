-- ===== src/Timer/Tests.antt =====
-- The timer theorems at concrete inputs.
use front_mangopi_overlay.Timer.{TimerRegs, timerset, timerset-clamps}
use front_mangopi_overlay.Base.{◌+◌, ◌<◌, ◌≤◌, ◌≡◌, arith}

abbrev fresh : TimerRegs
fresh = record { irqen = 1; irqsta = 0; ctl0 = 7; intv0 = 240000 }

timerset-clamps_example :
    let t = timerset 1050000 1000000 fresh in
    (2400 ≤ t.intv0)
    × (t.intv0 ≤ 240000)
    × (1000000 + 2400 ≤ 1050000 → 1050000 ≤ 1000000 + 240000 → 1000000 + t.intv0 ≡ 1050000)
    × (1050000 < 1000000 + 2400 → t.intv0 ≡ 2400)
    × (1000000 + 240000 < 1050000 → t.intv0 ≡ 240000)
    × (t.ctl0 ≡ 0x87)
    × (t.irqen ≡ 1)
timerset-clamps_example = timerset-clamps 1050000 1000000 fresh (omega arith) (omega arith)
