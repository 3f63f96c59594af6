-- ===== src/Fpu/Tests.antt =====
-- Runs of the hooks, and the theorems at concrete processes.
use front_mangopi_overlay.Base.{◌≡◌, refl, false, ℕ, inl, ◌+◌}
use front_mangopi_overlay.Fpu.{FpSave, FpProc, procsave, procrestore, fpunotify, fpunoted}
use front_mangopi_overlay.Fpu.Switch.{others, procrestore-procsave}
use front_mangopi_overlay.Fpu.Notes.{computes, fpunotify_loses}

abbrev filled : ℕ → FpSave
filled n = record { regs = λ i. n + i; fcsr = n }

abbrev running : FpProc
running = record {
  fpstate = 1;
  moribund = false;
  fpsave = filled 0;
  live = filled 7;
  sstatus = 0x8000000200040020;
  trapped = false;
}

procrestore-procsave_example :
    let r = procrestore (others (filled 99) 0 (procsave running)) in
    (r.live ≡ filled 7) × (r.fpstate ≡ 1) × (r.trapped ≡ false)
procrestore-procsave_example = procrestore-procsave running (filled 99) 0 (inl refl) refl

fpunotify_loses_example :
    let noted = computes (filled 30) (fpunoted (computes (filled 20) (fpunotify running))) in
    (noted.live ≡ filled 30)
    × (noted.fpstate ≡ 2)
    × ((procrestore (others (filled 99) 0 (procsave noted))).live ≡ filled 7)
fpunotify_loses_example = fpunotify_loses running (filled 20) (filled 30) (filled 99) 0 refl
