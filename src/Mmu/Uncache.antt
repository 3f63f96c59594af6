-- ===== src/Mmu/Uncache.antt =====
-- The part of mmu.c that makes kernel memory uncached: `splitblock`, `mmuuncache` and `dcflush`.
-- Memory is physical: the kernel reaches the table at `pa` through `KADDR(pa)`.
pub mod Leaf
pub mod View
pub mod Split
pub mod Block
pub mod Flush
mod Tests
use front_mangopi_overlay.Mmu.Tree.{Mem}
use front_mangopi_overlay.Mmu.Pte.{
  by2pg, kaddr, paddr, round, ptlx, pglsz, papte, ptepa, ptevalid, pteread, ptewrite, pteexec,
  pteptr, pteppnmask, pte_thead_c,
}
use front_mangopi_overlay.Base.{
  Bool, false, ℕ, zero, suc, ◌+◌, ◌-◌, ◌*◌, ◌/◌, ◌^◌, bit_and, bit_or, ◌==◌, if◌then◌else◌, not,
  ◌&&◌, ◌||◌, not64, u64, update, Option, none, some,
}

abbrev pub cacheline : ℕ
cacheline = 64

-- `for(i = 0; i < n; i++) l0[i] = PAPTE(pa + i*BY2PG) | attr;`
unfoldable pub fill_leaves : (n l0 pa attr : ℕ) → Mem → Mem
fill_leaves zero l0 pa attr m = m
fill_leaves (suc i) l0 pa attr m =
    update (fill_leaves i l0 pa attr m) (l0 + i * 8) (bit_or (papte (u64 (pa + i * by2pg))) attr)

-- The second half of `splitblock`, for the block leaf `pte` at `slot` and the new table at `l0`.
unfoldable pub split_leaf : (slot pte l0 : ℕ) → Mem → Mem
split_leaf slot pte l0 m =
    update (fill_leaves 512 l0 (ptepa pte) (bit_and pte (not64 pteppnmask)) m) slot
      (bit_or (papte l0) pteptr)

-- The physical address of the level-0 table; `none` is nil. `page` is that of the page that
-- `mallocalign` returns.
unfoldable pub splitblock : (rootab va : ℕ) (page : Option ℕ) → Mem → Option ℕ × Mem
splitblock rootab va page m =
    let top = m (rootab + ptlx va 2 * 8) in
    let slot = ptepa top + ptlx va 1 * 8 in
    let pte = m slot in
    if bit_and top ptevalid == 0
    then (none, m)
    else if bit_and pte ptevalid == 0
    then (none, m)
    else if bit_and pte (bit_or (bit_or pteread ptewrite) pteexec) == 0
    then (some (ptepa pte), m)
    else elim page [ none ↦ (none, m) | some l0 ↦ (some l0, split_leaf slot pte l0 m) ]

-- `for(o = 0; o < n*BY2PG; o += BY2PG) l0[PTLX(va+o, 0)] &= ~PTE_THEAD_C;`
unfoldable pub uncache_pages : (n l0 va : ℕ) → Mem → Mem
uncache_pages zero l0 va m = m
uncache_pages (suc i) l0 va m =
    let m' = uncache_pages i l0 va m in
    let slot = l0 + ptlx (u64 (va + i * by2pg)) 0 * 8 in
    update m' slot (bit_and (m' slot) (not64 pte_thead_c))

-- The start and the length that `dcacheciparange` is given.
unfoldable pub dcflush : (v n : ℕ) → ℕ × ℕ
dcflush v n =
    let pa = paddr v in
    let off = bit_and pa (cacheline - 1) in
    (u64 (pa + 2 ^ 64 - off), round (u64 (n + off)) cacheline)

-- Whether `mmuuncache` goes on: whole pages, some, inside one 2 MB block.
unfoldable pub uncachable : (va size : ℕ) → Bool
uncachable va size =
    if size == 0 || not (bit_and (bit_or va size) (by2pg - 1) == 0)
    then false
    else (bit_and va (not64 (pglsz 1 - 1))
        == bit_and (u64 (va + size + 2 ^ 64 - 1)) (not64 (pglsz 1 - 1)))

-- The flushed range, and memory; `none` is nil. The loop runs for whole pages.
unfoldable pub mmuuncache : (root va size : ℕ) (page : Option ℕ) → Mem → Option (ℕ × ℕ) × Mem
mmuuncache root va size page m =
    let (table, m') = splitblock root va page m in
    let done : Option (ℕ × ℕ) × Mem = elim table [
      | none ↦ (none, m')
      | some l0 ↦ (some (dcflush va size), uncache_pages (size / by2pg) l0 va m')
    ] in
    if uncachable va size then done else (none, m)
