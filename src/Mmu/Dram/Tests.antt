-- ===== src/Mmu/Dram/Tests.antt =====
-- The probes on a board of each size.
use front_mangopi_overlay.Mmu.Dram.{dramsize, dramsize-detects, dram512, probe_lo, probe_hi}
use front_mangopi_overlay.Base.{ℕ, ◌+◌, ◌*◌, ◌%◌, ◌≡◌, ◌≢◌}

-- 512 MB: the controller ignores bit 29.
abbrev aliasing : ℕ → ℕ
aliasing a = a % (512 * 1024 * 1024)

dramsize-detects_example :
    let (size, m') = dramsize aliasing (λ a. a + 7) in
    (aliasing probe_lo ≡ aliasing probe_hi → (size ≡ dram512) × ((a : ℕ) → m' a ≡ a + 7))
    × (aliasing probe_lo ≢ aliasing probe_hi
        → (size ≡ 2 * dram512) × ((a : ℕ) → a ≢ aliasing probe_hi → m' a ≡ a + 7))
dramsize-detects_example = dramsize-detects aliasing (λ a. a + 7)
