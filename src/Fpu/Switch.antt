-- ===== src/Fpu/Switch.antt =====
-- Saving and restoring across a context switch.
use front_mangopi_overlay.Base.{
  bit_and, ◌∙◌, true, false, ℕ, ◌≡◌, refl, false, ◌⊎◌, inl, inr, bit_or,
}
use front_mangopi_overlay.Base.Bits.{bit_and_cut, bit_and-zero}
use front_mangopi_overlay.Base.Bits.Field.{replace_field}
use front_mangopi_overlay.Base.{◌+◌, ◌*◌, ◌/◌, ◌%◌, ◌^◌, ◌<◌, arith, not64, ◌==◌, if◌then◌else◌}
use front_mangopi_overlay.Fpu.{
  fs_off, save, restore, procsetup, fpsetfs, sstatus_fs, sstatus_fs_clean, fp_init, fp_inactive,
  initfp, FpSave, FpProc, fp_active, fp_notify, procsave, procrestore,
}
use front_mangopi_overlay.Base.{Bool}

-- A process that runs, inside a note handler or not.
abbrev pub IsActive : ℕ → Type 0
IsActive n = (n ≡ fp_active) ⊎ (n ≡ bit_or fp_active fp_notify)

-- The process with another `fpstate`.
abbrev pub at : ℕ → FpProc → FpProc
at n p = record p { fpstate = n }

-- What other processes leave in the registers and in `sstatus` between a switch out and in.
abbrev pub others : FpSave → ℕ → FpProc → FpProc
others live sstatus p = record p { live = live; sstatus = sstatus }

-- `fpsetfs(SSTATUS_FS_CLEAN)` sets the field `FS`, bits 14:13 of `sstatus`, to 2 (clean, so that
-- floating-point instructions run) and leaves the bits above and below it.
fpsetfs-clean :
    (p : FpProc)
    → p.sstatus < 2 ^ 64
    → (fpsetfs sstatus_fs_clean p).sstatus
      ≡ (p.sstatus / 2 ^ 15 * 2 ^ 2 + 2) * 2 ^ 13 + p.sstatus % 2 ^ 13
unfolding fpsetfs
fpsetfs-clean p h =
    replace_field 13 2 49 (p.sstatus / 2 ^ 15) (p.sstatus / 2 ^ 13 % 4) (p.sstatus % 2 ^ 13) 2
      p.sstatus (not64 sstatus_fs) (omega arith) refl (omega arith) (omega arith) (omega arith)
      (omega arith)

-- An `and` with a 64-bit mask leaves nothing above it.
mask_cuts : (s : ℕ) → bit_and s (not64 sstatus_fs) ≡ bit_and (s % 2 ^ 64) (not64 sstatus_fs)
mask_cuts s = bit_and_cut 64 s (not64 sstatus_fs) ∙ omega (arith, bit_and-zero (s / 2 ^ 64))

fpsetfs-fs_off : (p : FpProc) → fs_off (fpsetfs sstatus_fs_clean p) ≡ false
unfolding fpsetfs
fpsetfs-fs_off p =
    let s = p.sstatus % 2 ^ 64 in
    let cut = fpsetfs-clean (record p { sstatus = s }) (omega arith) in
    rw mask_cuts (rw cut (ground arith))

-- After `fpsetfs(SSTATUS_FS_CLEAN)` the two routines of l.s do not trap.
pub save-fpsetfs :
    (p : FpProc)
    → save (fpsetfs sstatus_fs_clean p)
      ≡ record p { fpsave = p.live; sstatus = (fpsetfs sstatus_fs_clean p).sstatus }
unfolding save fpsetfs
save-fpsetfs p = rw (fpsetfs-fs_off p) refl

pub restore-fpsetfs :
    (f : FpSave) (p : FpProc)
    → restore f (fpsetfs sstatus_fs_clean p)
      ≡ record p { live = f; sstatus = (fpsetfs sstatus_fs_clean p).sstatus }
unfolding restore fpsetfs
restore-fpsetfs f p = rw (fpsetfs-fs_off p) refl

round_trip :
    (n : ℕ) (p : FpProc) (live : FpSave) (sstatus : ℕ)
    → IsActive n
    → p.moribund ≡ false
    → let r = procrestore (others live sstatus (procsave (at n p))) in
      (r.live ≡ p.live) × (r.fpstate ≡ n) × (r.trapped ≡ p.trapped)
unfolding procsave procrestore
round_trip n p live sstatus (inl e) h =
    rw e (rw h (rw (save-fpsetfs, restore-fpsetfs) (refl, refl, refl)))
round_trip n p live sstatus (inr e) h =
    rw e (rw h (rw (save-fpsetfs, restore-fpsetfs) (refl, refl, refl)))

-- A process that is switched out while its registers are in use (`FPactive`, with or without
-- `FPnotify`) and is not dying has the same registers and the same `fpstate` when it is switched
-- in, and none of the kernel's floating-point instructions has trapped, whatever the processes in
-- between left in the registers and in `sstatus`, and also if FS was Off there or at the switch out.
pub procrestore-procsave :
    (p : FpProc) (live : FpSave) (sstatus : ℕ)
    → IsActive p.fpstate
    → p.moribund ≡ false
    → let r = procrestore (others live sstatus (procsave p)) in
      (r.live ≡ p.live) × (r.fpstate ≡ p.fpstate) × (r.trapped ≡ p.trapped)
procrestore-procsave p live sstatus h m = round_trip p.fpstate p live sstatus h m

-- The registers may be used (`FS` is Clean), and the rest of `sstatus` is as in `b`.
abbrev pub IsClean : ℕ → ℕ → Type 0
IsClean a b = (a / 2 ^ 13 % 4 ≡ 2) × (a / 2 ^ 15 ≡ b / 2 ^ 15) × (a % 2 ^ 13 ≡ b % 2 ^ 13)

fpsetfs-IsClean :
    (p : FpProc) → p.sstatus < 2 ^ 64 → IsClean (fpsetfs sstatus_fs_clean p).sstatus p.sstatus
fpsetfs-IsClean p h = omega (arith, fpsetfs-clean p h)

-- From `FPinit` (n is 0) the registers of `initfp` are loaded and from `FPinactive` (n is 2) the
-- saved ones. With the note flag (b is 0x100) or without it (b is 0), the process is then
-- active with the flag as it was, its save area is kept, `FS` is Clean and the rest of `sstatus`
-- is kept. From any other state `procrestore` changes nothing.
pub procrestore-loads :
    (n b : ℕ) (p : FpProc)
    → (b ≡ 0) ⊎ (b ≡ fp_notify)
    → (n ≡ fp_init) ⊎ (n ≡ fp_inactive) ⊎ (n ≡ fp_active)
    → p.sstatus < 2 ^ 64
    → let r = procrestore (at (n + b) p) in
      (r.fpstate ≡ fp_active + b)
      × (r.fpsave ≡ p.fpsave)
      × (r.live ≡ (if n == fp_init then initfp else if n == fp_active then p.live else p.fpsave))
      × (if n == fp_active then r.sstatus ≡ p.sstatus else IsClean r.sstatus p.sstatus)
unfolding procrestore
procrestore-loads n b p (inl eb) (inl en) h =
    rw eb (rw en (rw restore-fpsetfs (refl, refl, refl, fpsetfs-IsClean (at _ p) h)))
procrestore-loads n b p (inl eb) (inr (inl en)) h =
    rw eb (rw en (rw restore-fpsetfs (refl, refl, refl, fpsetfs-IsClean (at _ p) h)))
procrestore-loads n b p (inl eb) (inr (inr en)) h = rw eb (rw en (refl, refl, refl, refl))
procrestore-loads n b p (inr eb) (inl en) h =
    rw eb (rw en (rw restore-fpsetfs (refl, refl, refl, fpsetfs-IsClean (at _ p) h)))
procrestore-loads n b p (inr eb) (inr (inl en)) h =
    rw eb (rw en (rw restore-fpsetfs (refl, refl, refl, fpsetfs-IsClean (at _ p) h)))
procrestore-loads n b p (inr eb) (inr (inr en)) h = rw eb (rw en (refl, refl, refl, refl))

-- A process that starts afresh on the running hart is active at once with the registers of
-- `initfp`: the four constants that the compiler keeps in registers 28 to 31 hold 0.0, 0.5, 1.0
-- and 2.0. Any other process is left in `FPinit`, with the hart's registers untouched.
pub procsetup-constants :
    (p : FpProc) (is_up : Bool)
    → let r = procsetup is_up p in
      if is_up
      then (r.fpstate ≡ fp_active)
        × (r.live.regs 28 ≡ 0)
        × (r.live.regs 29 ≡ 0x3FE0000000000000)
        × (r.live.regs 30 ≡ 0x3FF0000000000000)
        × (r.live.regs 31 ≡ 0x4000000000000000)
        × (r.live.fcsr ≡ 0)
      else (r.fpstate ≡ fp_init) × (r.live ≡ p.live)
unfolding procsetup procrestore initfp
procsetup-constants p true = rw restore-fpsetfs (refl, refl, refl, refl, refl, refl)
procsetup-constants p false = (refl, refl)
