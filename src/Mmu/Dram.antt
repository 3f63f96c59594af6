-- ===== src/Mmu/Dram.antt =====
-- `dramsize` and `cankaddr`. Memory is seen through the DDR controller of the board, which is a
-- parameter: it takes an address to the cell that answers for it.
mod Tests
use front_mangopi_overlay.Base.{
  ℕ, ◌+◌, ◌-◌, ◌*◌, ◌^◌, ◌<◌, ◌≤◌, ◌≡◌, ◌≢◌, ◌↔◌, ◌==◌, ltb, leb, if◌then◌else◌, ◌&&◌, update,
  arith, refl, Bool, true, false,
}
use front_mangopi_overlay.Mmu.Pte.{physdram, drammax}

abbrev pub dram512 : ℕ
dram512 = 512 * 1024 * 1024

abbrev pub probeoff : ℕ
probeoff = 0x100000

abbrev pub probe_lo : ℕ
probe_lo = physdram + probeoff

abbrev pub probe_hi : ℕ
probe_hi = physdram + probeoff + dram512

-- The size and the cells as `dramsize` leaves them.
unfoldable pub dramsize : (cell : ℕ → ℕ) → (cells : ℕ → ℕ) → ℕ × (ℕ → ℕ)
dramsize cell m0 =
    let lo = cell probe_lo in
    let hi = cell probe_hi in
    let save = m0 lo in
    let m1 = update m0 lo 0x55aa55aa in
    let m2 = update m1 hi 0xaa55aa55 in
    let size = if m2 lo == 0x55aa55aa then 2 * dram512 else dram512 in (size, update m2 lo save)

-- `cankaddr` answers with the bytes from `pa` to the end of the linear map.
unfoldable pub cankaddr : ℕ → ℕ
cankaddr pa = if leb physdram pa && ltb pa (physdram + drammax) then physdram + drammax - pa else 0

-- A board whose controller answers for both probes with one cell has 512 MB, and its memory is as
-- before. A board with two cells there has 1 GB, and only the upper cell is changed.
pub dramsize-detects :
    (cell m : ℕ → ℕ)
    → let (size, m') = dramsize cell m in
      (cell probe_lo ≡ cell probe_hi → (size ≡ dram512) × ((a : ℕ) → m' a ≡ m a))
      × (cell probe_lo ≢ cell probe_hi
          → (size ≡ 2 * dram512) × ((a : ℕ) → a ≢ cell probe_hi → m' a ≡ m a))
unfolding dramsize
dramsize-detects cell m =
    (λ e. (ground arith, λ a. ground arith), λ ne. (ground arith, λ a other. ground arith))

-- `cankaddr` is above 0 exactly for an address in the 1 GB from `PHYSDRAM`, and from there it
-- counts up to the end of that range.
pub cankaddr-range :
    (pa : ℕ)
    → ((0 < cankaddr pa) ↔ ((physdram ≤ pa) × (pa < physdram + drammax)))
      × (0 < cankaddr pa → pa + cankaddr pa ≡ physdram + drammax)
unfolding cankaddr
cankaddr-range pa = ground arith
