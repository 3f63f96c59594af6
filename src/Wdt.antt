-- ===== src/Wdt.antt =====
-- wdt.c: the two watchdogs, which share one register layout.
mod Tests
use front_mangopi_overlay.Base.{
  ap, ℕ, zero, suc, ◌+◌, ◌-◌, ◌*◌, ◌/◌, ◌%◌, ◌^◌, ◌<◌, ◌≤◌, ◌≡◌, ltb, if◌then◌else◌, bit_or,
  bit_and, ◌<<<◌, not32, arith, refl, List, [], ◌∷◌, get_or, ◌∙◌, min,
}
use front_mangopi_overlay.Base.Bits.{
  bit_or-zero, bit_and-ones, bit_or-add, add-bit_or, bit_or_cut, bit_and_cut,
}
use front_mangopi_overlay.Base.Bits.Field.{replace_field, clear_field, fill_field}

-- `Wdtregs`
pub record WdtRegs : Type 0 where
  pub ctrl : ℕ
  pub cfg : ℕ
  pub mode : ℕ

abbrev pub wdt_key : ℕ
wdt_key = 0x16aa0000

abbrev pub wdt_max_timeout : ℕ
wdt_max_timeout = 16

abbrev pub wdt_timeout_map : List ℕ
wdt_timeout_map =
    0x0 ∷ 0x1 ∷ 0x2 ∷ 0x3 ∷ 0x4 ∷ 0x5 ∷ 0x6 ∷ 0x7 ∷ 0x7 ∷ 0x8 ∷ 0x8 ∷ 0x9 ∷ 0x9 ∷ 0xa ∷ 0xa ∷ 0xb
    ∷ 0xb ∷ []

unfoldable pub wdt_feed_at : WdtRegs → WdtRegs
wdt_feed_at w = record w { ctrl = bit_or (1 <<< 0) (0x0a57 <<< 1) }

unfoldable pub wdt_disable_at : WdtRegs → WdtRegs
wdt_disable_at w = record w { mode = wdt_key }

unfoldable pub wdt_enable_at : (timeout_seconds : ℕ) → WdtRegs → WdtRegs
unfolding wdt_feed_at
wdt_enable_at timeout_seconds w =
    let t = if ltb wdt_max_timeout timeout_seconds then wdt_max_timeout else timeout_seconds in
    let c = bit_or (bit_and w.cfg (not32 0x03)) (bit_or 0x01 wdt_key) in
    let m = bit_and w.mode (not32 (0xf <<< 4)) in
    let m' = bit_or m (get_or wdt_timeout_map t 0 <<< 4) in
    wdt_feed_at (record w { cfg = c; mode = bit_or m' (bit_or (1 <<< 0) wdt_key) })

-- The registers of the two watchdogs.
pub record Watchdogs : Type 0 where
  pub main : WdtRegs
  pub riscv : WdtRegs

unfoldable pub wdt_main_enable : (timeout_seconds : ℕ) → Watchdogs → Watchdogs
unfolding wdt_enable_at
wdt_main_enable timeout_seconds d = record d { main = wdt_enable_at timeout_seconds d.main }

unfoldable pub wdt_main_disable : Watchdogs → Watchdogs
unfolding wdt_disable_at
wdt_main_disable d = record d { main = wdt_disable_at d.main }

unfoldable pub wdt_main_feed : Watchdogs → Watchdogs
unfolding wdt_feed_at
wdt_main_feed d = record d { main = wdt_feed_at d.main }

unfoldable pub wdt_riscv_enable : (timeout_seconds : ℕ) → Watchdogs → Watchdogs
unfolding wdt_enable_at
wdt_riscv_enable timeout_seconds d = record d { riscv = wdt_enable_at timeout_seconds d.riscv }

unfoldable pub wdt_riscv_disable : Watchdogs → Watchdogs
unfolding wdt_disable_at
wdt_riscv_disable d = record d { riscv = wdt_disable_at d.riscv }

unfoldable pub wdt_riscv_feed : Watchdogs → Watchdogs
unfolding wdt_feed_at
wdt_riscv_feed d = record d { riscv = wdt_feed_at d.riscv }

-- The seconds that a register value stands for: the most that the table gives that value to.
abbrev pub seconds_of : ℕ → ℕ
seconds_of v = get_or (0 ∷ 1 ∷ 2 ∷ 3 ∷ 4 ∷ 5 ∷ 6 ∷ 8 ∷ 10 ∷ 12 ∷ 14 ∷ 16 ∷ []) v 0

-- The table rounds up, by at most one second, and its values fit the field.
rounds :
    (t : ℕ)
    → t < 17
    → let v = get_or wdt_timeout_map t 0 in (v < 12) × (t ≤ seconds_of v) × (seconds_of v ≤ t + 1)
rounds t h = ground arith

mode_field :
    (mode v : ℕ)
    → mode < 2 ^ 32
    → v < 16
    → bit_or (bit_and mode (not32 (0xf <<< 4))) (v <<< 4)
      ≡ (mode / 2 ^ 8 * 2 ^ 4 + v) * 2 ^ 4 + mode % 2 ^ 4
mode_field mode v h hv =
    replace_field 4 4 24 (mode / 2 ^ 8) (mode / 2 ^ 4 % 2 ^ 4) (mode % 2 ^ 4) v mode
      (not32 (0xf <<< 4)) (omega arith) refl (omega arith) (omega arith) (omega arith) hv

-- Setting bit 0 leaves the bits above it.
one_or : (r : ℕ) → r < 2 → bit_or r 1 ≡ 1
one_or zero h = refl
one_or (suc zero) h = refl
one_or (suc (suc r)) h = omega arith

pub or_one : (a : ℕ) → bit_or a 1 ≡ a / 2 * 2 + 1
or_one a = bit_or_cut 1 a 1 ∙ omega (arith, bit_or-zero (a / 2), one_or (a % 2) (omega arith))

-- The key goes to the upper half and the enable bit to bit 0.
or_key :
    (a : ℕ)
    → bit_or a (bit_or 1 wdt_key) ≡ bit_or (a / 2 ^ 16) 0x16aa * 2 ^ 16 + (a % 2 ^ 16 / 2 * 2 + 1)
or_key a =
    bit_or_cut 16 a (bit_or 1 wdt_key)
    ∙ ap (λ x. bit_or (a / 2 ^ 16) 0x16aa * 2 ^ 16 + x) (or_one (a % 2 ^ 16))

cfg_field : (cfg : ℕ) → cfg < 2 ^ 32 → bit_and cfg (not32 0x03) ≡ cfg / 4 * 4
cfg_field cfg h =
    clear_field 0 2 30 (cfg / 4) (cfg % 4) 0 cfg (not32 0x03) (omega arith) refl (omega arith)
      (omega arith) (omega arith)
    ∙ omega arith

cfg_low : (h k : ℕ) → (k * 2 ^ 16 + (h * 4 % 2 ^ 16 / 2 * 2 + 1)) % 4 ≡ 1
cfg_low h k = omega arith

mode_low :
    (mode v k : ℕ)
    → v < 16
    → let m = (mode / 2 ^ 8 * 2 ^ 4 + v) * 2 ^ 4 + mode % 2 ^ 4 in
      let r = k * 2 ^ 16 + (m % 2 ^ 16 / 2 * 2 + 1) in
      (r % 2 ≡ 1) × (r / 2 ^ 4 % 2 ^ 4 ≡ v) × (r % 2 ^ 16 / 2 ^ 8 ≡ mode % 2 ^ 16 / 2 ^ 8)
mode_low mode v k h = (omega arith, omega arith, omega arith)

-- The upper half, where the key goes, and the bits that the two fields below it do not reach.
upper : (h k : ℕ) (r : ℕ) → r < 2 ^ 16 → (k * 2 ^ 16 + (r / 2 * 2 + 1)) / 2 ^ 16 ≡ k
upper h k r b = omega arith

mode_upper :
    (mode v : ℕ)
    → mode < 2 ^ 32
    → v < 16
    → bit_or (bit_or (bit_and mode (not32 (0xf <<< 4))) (v <<< 4)) (bit_or 1 wdt_key) / 2 ^ 16
      ≡ bit_or (mode / 2 ^ 16) 0x16aa
mode_upper mode v h hv =
    let m = (mode / 2 ^ 8 * 2 ^ 4 + v) * 2 ^ 4 + mode % 2 ^ 4 in
    let kept : m / 2 ^ 16 ≡ mode / 2 ^ 16 = omega arith in
    rw (mode_field mode v h hv, or_key m)
      (upper mode (bit_or (m / 2 ^ 16) 0x16aa) (m % 2 ^ 16) (omega arith)
        ∙ ap (λ x. bit_or x 0x16aa) kept)

cfg_upper :
    (cfg : ℕ)
    → cfg < 2 ^ 32
    → bit_or (bit_and cfg (not32 0x03)) (bit_or 1 wdt_key) / 2 ^ 16 ≡ bit_or (cfg / 2 ^ 16) 0x16aa
cfg_upper cfg h =
    let c = cfg / 4 * 4 in
    let kept : c / 2 ^ 16 ≡ cfg / 2 ^ 16 = omega arith in
    rw (cfg_field cfg h, or_key c)
      (upper cfg (bit_or (c / 2 ^ 16) 0x16aa) (c % 2 ^ 16) (omega arith)
        ∙ ap (λ x. bit_or x 0x16aa) kept)

mode_set :
    (mode v : ℕ)
    → mode < 2 ^ 32
    → v < 16
    → let r = bit_or (bit_or (bit_and mode (not32 (0xf <<< 4))) (v <<< 4)) (bit_or 1 wdt_key) in
      (r % 2 ≡ 1) × (r / 2 ^ 4 % 2 ^ 4 ≡ v) × (r % 2 ^ 16 / 2 ^ 8 ≡ mode % 2 ^ 16 / 2 ^ 8)
mode_set mode v h hv =
    rw (mode_field mode v h hv, or_key ((mode / 2 ^ 8 * 2 ^ 4 + v) * 2 ^ 4 + mode % 2 ^ 4))
      (mode_low mode v
        (bit_or (((mode / 2 ^ 8 * 2 ^ 4 + v) * 2 ^ 4 + mode % 2 ^ 4) / 2 ^ 16) 0x16aa) hv)

cfg_set : (cfg : ℕ) → cfg < 2 ^ 32 → bit_or (bit_and cfg (not32 0x03)) (bit_or 1 wdt_key) % 4 ≡ 1
cfg_set cfg h =
    rw (cfg_field cfg h, or_key (cfg / 4 * 4))
      (cfg_low (cfg / 4) (bit_or (cfg / 4 * 4 / 2 ^ 16) 0x16aa))

-- Enabling a watchdog whose registers hold 32-bit words selects the reset action in `cfg`, turns it
-- on in `mode`, kicks it, and puts in the timeout field a value that stands for at least the seconds
-- asked for, or 16 where more are asked for, and for at most one second more. Both words are written
-- with the key in their upper half, over what was read there, without which the hardware ignores
-- them. The bits of `mode` between the timeout and the upper half are kept.
pub wdt_enable_at-sets :
    (t : ℕ) (w : WdtRegs)
    → w.cfg < 2 ^ 32
    → w.mode < 2 ^ 32
    → let w' = wdt_enable_at t w in
      let s = seconds_of (w'.mode / 2 ^ 4 % 2 ^ 4) in
      let t' = if ltb 16 t then 16 else t in
      (t' ≤ s)
      × (s ≤ t' + 1)
      × (w'.mode % 2 ≡ 1)
      × (w'.cfg % 4 ≡ 1)
      × (w'.ctrl ≡ 0x14af)
      × (w'.mode % 2 ^ 16 / 2 ^ 8 ≡ w.mode % 2 ^ 16 / 2 ^ 8)
      × (w'.mode / 2 ^ 16 ≡ bit_or (w.mode / 2 ^ 16) 0x16aa)
      × (w'.cfg / 2 ^ 16 ≡ bit_or (w.cfg / 2 ^ 16) 0x16aa)
unfolding wdt_enable_at wdt_feed_at
wdt_enable_at-sets t w hc hm =
    let t' = if ltb 16 t then 16 else t in
    let r = rounds t' (ground arith) in
    let m = mode_set w.mode (get_or wdt_timeout_map t' 0) hm (omega (arith, r)) in
    (
      rw m.1 r.1,
      rw m.1 r.2,
      m.0,
      cfg_set w.cfg hc,
      refl,
      m.2,
      mode_upper w.mode (get_or wdt_timeout_map t' 0) hm (omega (arith, r)),
      cfg_upper w.cfg hc,
    )
