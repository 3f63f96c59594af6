-- ===== src/Mmu/Uncache/Tests.antt =====
-- A kernel block of 2 MB, and the cache lines of a short range.
use front_mangopi_overlay.Mmu.Pte.{kaddr}
use front_mangopi_overlay.Mmu.Uncache.{dcflush, mmuuncache}
use front_mangopi_overlay.Mmu.Uncache.View.{page2}
use front_mangopi_overlay.Mmu.Uncache.Split.{uncached}
use front_mangopi_overlay.Mmu.Uncache.Block.{in_range, mmuuncache-uncaches}
use front_mangopi_overlay.Mmu.Pte.{by2pg}
use front_mangopi_overlay.Mmu.Tree.{Mem, Role, unused, top, mid, ptr, IsTree}
use native.Mathlib.Decide.{ℕ_discrete}
use front_mangopi_overlay.Mmu.Uncache.Flush.{dcflush_covers}
use front_mangopi_overlay.Base.{
  ℕ, ◌*◌, ◌^◌, ◌==◌, if◌then◌else◌, inl, inr, some, ◌+◌, ◌%◌, ◌<◌, ◌≤◌, ◌≡◌, arith, refl,
}
use front_mangopi_overlay.Mmu.Pte.{paddr}
use front_mangopi_overlay.Mmu.Pte.{round}

dcflush_run : dcflush (kaddr 0x41000123) 100 ≡ (0x41000100, 192)
unfolding dcflush kaddr paddr round
dcflush_run = refl

dcflush_covers_example :
    let (start, len) = dcflush (kaddr 0x41000123) 100 in
    (start % 64 ≡ 0)
    × (len % 64 ≡ 0)
    × (start ≤ 0x41000123)
    × (0x41000123 < start + 64)
    × (0x41000123 + 100 ≤ start + len)
    × (start + len < 0x41000123 + 100 + 64)
dcflush_covers_example = dcflush_covers 0x41000123 100 (omega arith) (omega arith)

abbrev block_entry : ℕ
block_entry = 2 ^ 62 + 2 ^ 60 + 0x41000 * 2 ^ 10 + 0xE7

abbrev block_mem : Mem
block_mem a =
    if a == 0x41200000 + 511 * 8
    then ptr 0x41201000
    else if a == 0x41201000 + 8 * 8
    then block_entry
    else 0

abbrev block_roles : ℕ → Role
block_roles t = if t == 0x41200000 then top else if t == 0x41201000 then mid 511 else unused

block_mem-IsTree : IsTree block_mem 0x41200000 512 block_roles
block_mem-IsTree = record {
  root_role = refl;
  small = omega arith;
  is_page = λ t h. ground arith;
  root_entry = λ x h. elim (ℕ_discrete x 511) [
    | yes at ↦ inr (0x41201000, ground arith, ground arith)
    | no ne ↦ inl (ground arith)
  ];
  mid_entry = λ t x y h hy.
      let at : t ≡ 0x41201000 = ground arith in
      elim (ℕ_discrete y 8) [
        | yes this ↦ inr (inl (ground arith, ground arith))
        | no ne ↦ inl (ground arith)
      ];
}

-- The first megabyte of the kernel's memory.
mmuuncache-uncaches_example :
    let (flushed, m') =
      mmuuncache 0x41200000 0xFFFFFFFFC1000000 (256 * by2pg) (some 0x50000000) block_mem in
    (flushed ≡ some (dcflush 0xFFFFFFFFC1000000 (256 * by2pg)))
    × ((w s z : ℕ)
        → w < 512
        → s < 512
        → z < 512
        → page2 m' 0x41200000 w s z ≡ (
            if in_range 0xFFFFFFFFC1000000 256 w s z
            then uncached (page2 block_mem 0x41200000 w s z)
            else page2 block_mem 0x41200000 w s z))
mmuuncache-uncaches_example =
    mmuuncache-uncaches block_mem-IsTree 0xFFFFFFFFC1000000 256 0x41201000 block_entry 0x50000000
      refl refl refl refl (omega arith) (omega arith) refl refl refl (omega arith) (omega arith)
      refl (omega arith) (omega arith)
