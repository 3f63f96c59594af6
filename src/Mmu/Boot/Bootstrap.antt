-- ===== src/Mmu/Boot/Bootstrap.antt =====
-- `mmubootstrap` and `mmulowdrop` of mmu.c, with the addresses of io.h and mem.h.
use front_mangopi_overlay.Mmu.Boot.{Boot, store, newtable, mapblock, maphigh, mapident}
use front_mangopi_overlay.Mmu.Tree.{Mem}
use front_mangopi_overlay.Mmu.Pte.{
  by2pg, physdram, drammax, kaddr, round, ptlx, pteleafmem, pteleafdev, mksatp,
}
use front_mangopi_overlay.Base.{◌>>=◌, ℕ, ◌+◌, ◌*◌, Option, some}

abbrev pub physpio : ℕ
physpio = 0x02000000

abbrev pub physpiosize : ℕ
physpiosize = 6 * 1024 * 1024

abbrev pub physwdtriscv : ℕ
physwdtriscv = 0x06011000

abbrev pub physmmc0 : ℕ
physmmc0 = 0x04020000

abbrev pub physehci1 : ℕ
physehci1 = 0x04200000

abbrev pub physplic : ℕ
physplic = 0x10000000

abbrev pub physplicen : ℕ
physplicen = physplic + 0x002000 + 0x80 * 1

abbrev pub physplicctl : ℕ
physplicctl = physplic + 0x200000 + 0x1000 * 1

abbrev pub phystext : ℕ
phystext = 0x41000000

-- The calls after the block for DRAM, for the high half and for the identity map.
unfoldable pub devices : (map : (pa size attr : ℕ) → Boot → Option Boot) → Boot → Option Boot
devices map b0 = do
  b1 ← map physpio physpiosize pteleafdev b0
  b2 ← map physwdtriscv by2pg pteleafdev b1
  b3 ← map physmmc0 by2pg pteleafdev b2
  b4 ← map physehci1 by2pg pteleafdev b3
  b5 ← map physplic by2pg pteleafdev b4
  b6 ← map physplicen by2pg pteleafdev b5
  map physplicctl by2pg pteleafdev b6

-- The value for satp and the state; `root` is set from the first table.
unfoldable pub mmubootstrap : (tablestore : ℕ) → Mem → Option (ℕ × Boot)
unfolding devices
mmubootstrap tablestore mem = do
  let start : Boot = record { mem = mem; tablebase = round tablestore by2pg; ntable = 0; root = 0 }
  (root, b0) ← newtable start
  b1 ← mapblock (kaddr physdram) physdram drammax pteleafmem (record b0 { root = root })
  b2 ← devices (λ pa size attr. maphigh pa size attr) b1
  b3 ← mapblock physdram physdram drammax pteleafmem b2
  b4 ← devices (λ pa size attr. mapident pa size attr) b3
  some (mksatp b4.root, b4)

-- The high address `KADDR(root)` reaches the cells of `root`.
unfoldable pub mmulowdrop : Boot → Boot
mmulowdrop b = store (b.root + ptlx physpio 2 * 8) 0 (store (b.root + ptlx phystext 2 * 8) 0 b)
