-- ===== src/Ccu.antt =====
-- ccu.c: the clock control unit. The registers are 32-bit words by index; what the driver does to
-- the device is the list of its writes and waits, newest last. `coherence` (a fence) orders the
-- writes, as the list does.
pub mod Card
mod Tests
use front_mangopi_overlay.Base.{
  ℕ, zero, suc, ◌+◌, ◌-◌, ◌*◌, ◌/◌, ◌%◌, ◌^◌, bit_and, bit_or, Bool, true, false, ◌==◌, ltb, leb,
  if◌then◌else◌, ◌&&◌, not, ◌<<<◌, ◌>>>◌, not32, u32, update, List, [], ◌∷◌, ◌++◌, Option, none,
  some,
}

pub data Event : Type 0 where
  wrote : (index value : ℕ) → Event
  delayed : (us : ℕ) → Event

pub record Ccu : Type 0 where
  pub regs : ℕ → ℕ
  pub log : List Event

abbrev pub write : ℕ → ℕ → Ccu → Ccu
write i v c = record { regs = update c.regs i v; log = c.log ++ wrote i v ∷ [] }

abbrev pub microdelay : ℕ → Ccu → Ccu
microdelay us c = record c { log = c.log ++ delayed us ∷ [] }

abbrev pub pll_cpu_ctl : ℕ
pll_cpu_ctl = 0x000 / 4

abbrev pub pll_peri_ctl : ℕ
pll_peri_ctl = 0x020 / 4

abbrev pub mmc0_clk : ℕ
mmc0_clk = 0x830 / 4

abbrev pub bus_clk_gate : ℕ
bus_clk_gate = 0x84c / 4

abbrev pub usb1_clk : ℕ
usb1_clk = 0xa74 / 4

abbrev pub usb_bus_clk_gate : ℕ
usb_bus_clk_gate = 0xa8c / 4

abbrev pub riscv_clk : ℕ
riscv_clk = 0xd00 / 4

abbrev pub hoscfreq : ℕ
hoscfreq = 24 * 1000 * 1000

-- `none` if the PLL never locks: `polls` is what the reads of the status loop return.
unfoldable pub wait_lock : List ℕ → Option (List ℕ)
wait_lock [] = none
wait_lock (v ∷ polls) =
    let rest = wait_lock polls in if bit_and v (1 <<< 28) == 0 then rest else some polls

-- An `mhz` below 0 is as 0 here: both are refused.
unfoldable pub cpuclockinit : (mhz : ℕ) (polls : List ℕ) → Ccu → Option Ccu
unfolding wait_lock
cpuclockinit mhz polls c =
    let n = mhz / 24 in
    let c1 =
      microdelay 10
        (write riscv_clk (bit_or (bit_and (c.regs riscv_clk) (not32 (7 <<< 24))) (4 <<< 24)) c) in
    let v =
      bit_or (bit_or (bit_and (c1.regs pll_cpu_ctl) (not32 (0xff <<< 8))) ((n - 1) <<< 8))
        (1 <<< 31) in
    let c2 = write pll_cpu_ctl v c1 in
    let c3 = write pll_cpu_ctl (bit_and v (not32 (1 <<< 29))) c2 in
    let c4 = write pll_cpu_ctl (bit_or v (1 <<< 29)) c3 in
    let c5 =
      microdelay 10
        (write riscv_clk (bit_or (bit_and (c4.regs riscv_clk) (not32 (7 <<< 24))) (5 <<< 24)) c4) in
    if ltb n 12
    then some c
    else if ltb 255 n
    then some c
    else elim (wait_lock polls) [ none ↦ none | some rest ↦ some c5 ]

unfoldable pub peri1xfreq : Ccu → ℕ
peri1xfreq c =
    let v = c.regs pll_peri_ctl in
    let n = bit_and (v >>> 8) 0xff + 1 in
    let m = bit_and (v >>> 1) 1 + 1 in
    let p = bit_and (v >>> 16) 7 + 1 in u32 (24 * 1000 * 1000 * n / m / p / 2)

unfoldable pub mmc0enable : Ccu → Ccu
mmc0enable c =
    let c1 =
      microdelay 10 (write bus_clk_gate (bit_and (c.regs bus_clk_gate) (not32 (1 <<< 16))) c) in
    let c2 = write bus_clk_gate (bit_or (c1.regs bus_clk_gate) (1 <<< 16)) c1 in
    microdelay 10 (write bus_clk_gate (bit_or (c2.regs bus_clk_gate) (1 <<< 0)) c2)

-- `for(p = 0; p < 3 && div > (16<<p); p++)`, with the rounds that are left.
unfoldable pub p_from : (left p div : ℕ) → ℕ
p_from zero p div = p
p_from (suc left) p div =
    let more = p_from left (p + 1) div in if ltb (16 <<< p) div then more else p

-- The source, the parent's frequency, and the two dividers.
unfoldable pub mmc0_div : (hz freq : ℕ) → ℕ
mmc0_div hz freq = let div = freq / 2 / hz in if ltb div 1 then 1 else div

unfoldable pub mmc0_p : ℕ → ℕ
unfolding p_from
mmc0_p div = p_from 3 0 div

unfoldable pub mmc0_m : (div p : ℕ) → ℕ
mmc0_m div p =
    let m = (div + 1 <<< p - 1) >>> p in if ltb 16 m then 16 else if ltb m 1 then 1 else m

-- An `hz` below 0 is as 0 here: nothing is done.
unfoldable pub mmc0clock : ℕ → Ccu → Ccu
unfolding mmc0_div mmc0_p mmc0_m
mmc0clock hz c =
    let slow = leb hz (hoscfreq / 2) in
    let src = if slow then 0 else 1 in
    let freq = if slow then hoscfreq else peri1xfreq c in
    let div = mmc0_div hz freq in
    let p = mmc0_p div in
    let m = mmc0_m div p in
    let v = bit_or (bit_or (src <<< 24) (p <<< 8)) ((m - 1) <<< 0) in
    let c1 = write mmc0_clk v c in
    let c2 = microdelay 10 (write mmc0_clk (bit_or v (1 <<< 31)) c1) in if leb hz 0 then c else c2

unfoldable pub usb1enable : Ccu → Ccu
usb1enable c =
    let c1 = write usb1_clk (bit_or (c.regs usb1_clk) (1 <<< 31)) c in
    let c2 = microdelay 10 (write usb1_clk (bit_and (c1.regs usb1_clk) (not32 (1 <<< 30))) c1) in
    let c3 = write usb1_clk (bit_or (c2.regs usb1_clk) (1 <<< 30)) c2 in
    let c4 = microdelay 10 (
      write usb_bus_clk_gate
        (bit_and (c3.regs usb_bus_clk_gate) (not32 (bit_or (1 <<< 21) (1 <<< 17)))) c3) in
    let c5 =
      write usb_bus_clk_gate (bit_or (c4.regs usb_bus_clk_gate) (bit_or (1 <<< 21) (1 <<< 17)))
        c4 in
    microdelay 10
      (write usb_bus_clk_gate (bit_or (c5.regs usb_bus_clk_gate) (bit_or (1 <<< 5) (1 <<< 1))) c5)
