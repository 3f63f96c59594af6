-- ===== src/Mmu/Boot.antt =====
-- The boot-time half of mmu.c: page tables taken from `tablestore` and filled while the kernel
-- still runs at physical addresses. `none` is the endless loop of `newtable` when no table is
-- left.
pub mod State
pub mod Level
pub mod Leaf
pub mod Block
pub mod Range
pub mod Blocks
pub mod View
pub mod Devices
pub mod Start
pub mod Drop
pub mod Bootstrap
use front_mangopi_overlay.Base.{
  ◌>>=◌, ℕ, zero, suc, ◌+◌, ◌*◌, ◌/◌, ◌^◌, ◌<◌, Option, none, some, bit_and, bit_or, ◌==◌, ltb, leb,
  if◌then◌else◌, update, u64,
}
use front_mangopi_overlay.Mmu.Pte.{
  by2pg, ptlx, pglsz, papte, ptepa, ptevalid, pteptr, kaddr, mksatp,
}
use front_mangopi_overlay.Mmu.Tree.{Mem}

abbrev pub ntables : ℕ
ntables = 24

-- The statics of mmu.c that these functions use, and memory.
pub record Boot : Type 0 where
  pub mem : Mem
  pub tablebase : ℕ
  pub ntable : ℕ
  pub root : ℕ

abbrev pub store : ℕ → ℕ → Boot → Boot
store a v b = record b { mem = update b.mem a v }

-- `tablebase + ntable*512` counts words of 8 bytes.
unfoldable pub newtable : Boot → Option (ℕ × Boot)
newtable b =
    if leb ntables b.ntable
    then none
    else some (b.tablebase + b.ntable * 512 * 8, record b { ntable = b.ntable + 1 })

-- The table that the entry at `slot` points to, made first if the entry is not valid: the two
-- lines that `mapleaf` has for each level, and `mapblock` for one.
unfoldable pub table_at : ℕ → Boot → Option (ℕ × Boot)
unfolding newtable
table_at slot b =
    if bit_and (b.mem slot) ptevalid == 0
    then (do
      (t, b') ← newtable b
      let b'' = store slot (bit_or (papte t) pteptr) b'
      some (ptepa (b''.mem slot), b''))
    else some (ptepa (b.mem slot), b)

unfoldable pub mapleaf : (va pa attr : ℕ) → Boot → Option Boot
mapleaf va pa attr b = do
  (l1, b1) ← table_at (b.root + ptlx va 2 * 8) b
  (l0, b2) ← table_at (l1 + ptlx va 1 * 8) b1
  some (store (l0 + ptlx va 0 * 8) (bit_or (papte pa) attr) b2)

-- One round of the loop of `mapblock`.
unfoldable pub mapleaf2m : (va pa attr : ℕ) → Boot → Option Boot
mapleaf2m va pa attr b = do
  (l1, b1) ← table_at (b.root + ptlx va 2 * 8) b
  some (store (l1 + ptlx va 1 * 8) (bit_or (papte pa) attr) b1)

-- `for(o = 0; o < size; o += step)`; the fuel is one more than the number of rounds.
unfoldable pub map_from :
    (f : (va pa : ℕ) → Boot → Option Boot) (step va pa size : ℕ) → (fuel o : ℕ) → Boot → Option Boot
map_from f step va pa size zero o b = none
map_from f step va pa size (suc fuel) o b =
    let rest = f (u64 (va + o)) (u64 (pa + o)) b >>= map_from f step va pa size fuel (o + step) in
    if ltb o size then rest else some b

unfoldable pub maprange : (va pa size attr : ℕ) → Boot → Option Boot
maprange va pa size attr = map_from (λ v p. mapleaf v p attr) by2pg va pa size (size / by2pg + 2) 0

unfoldable pub mapblock : (va pa size attr : ℕ) → Boot → Option Boot
mapblock va pa size attr =
    map_from (λ v p. mapleaf2m v p attr) (pglsz 1) va pa size (size / pglsz 1 + 2) 0

unfoldable pub maphigh : (pa size attr : ℕ) → Boot → Option Boot
maphigh pa size attr = maprange (kaddr pa) pa size attr

unfoldable pub mapident : (pa size attr : ℕ) → Boot → Option Boot
mapident pa size attr = maprange pa pa size attr
