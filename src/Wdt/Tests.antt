-- ===== src/Wdt/Tests.antt =====
-- The timeouts that main.c asks for, on registers that hold other settings.
use front_mangopi_overlay.Wdt.{WdtRegs, wdt_enable_at, seconds_of, wdt_enable_at-sets}
use front_mangopi_overlay.Base.{◌+◌, ◌/◌, ◌%◌, ◌^◌, ◌≤◌, ◌≡◌, arith}

abbrev set_up : WdtRegs
set_up = record { ctrl = 0; cfg = 2; mode = 0xb31 }

wdt_enable_at-sets_example :
    let w' = wdt_enable_at 7 set_up in
    let s = seconds_of (w'.mode / 2 ^ 4 % 2 ^ 4) in
    (7 ≤ s)
    × (s ≤ 7 + 1)
    × (w'.mode % 2 ≡ 1)
    × (w'.cfg % 4 ≡ 1)
    × (w'.ctrl ≡ 0x14af)
    × (w'.mode % 2 ^ 16 / 2 ^ 8 ≡ 0xb)
    × (w'.mode / 2 ^ 16 ≡ 0x16aa)
    × (w'.cfg / 2 ^ 16 ≡ 0x16aa)
wdt_enable_at-sets_example = wdt_enable_at-sets 7 set_up (omega arith) (omega arith)
