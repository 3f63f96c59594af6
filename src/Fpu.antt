-- ===== src/Fpu.antt =====
-- fpu.c: the hooks that the portable kernel calls when a process starts, is switched out and in,
-- and enters and leaves a note handler. `fpsave`, `fprestore` and `fpsetfs` are those of l.s.
pub mod Switch
pub mod Notes
mod Tests
use front_mangopi_overlay.Base.{
  ℕ, ◌*◌, ◌-◌, ◌/◌, ◌%◌, ◌^◌, bit_and, bit_or, Bool, true, false, ◌==◌, if◌then◌else◌, not, ◌<<<◌,
  not32, not64, update,
}

-- `FPsave` of dat.h.
pub record FpSave : Type 0 where
  pub regs : ℕ → ℕ
  pub fcsr : ℕ

abbrev pub fp_init : ℕ
fp_init = 0

abbrev pub fp_active : ℕ
fp_active = 1

abbrev pub fp_inactive : ℕ
fp_inactive = 2

abbrev pub fp_notify : ℕ
fp_notify = 0x100

abbrev pub sstatus_fs : ℕ
sstatus_fs = 3 <<< 13

abbrev pub sstatus_fs_clean : ℕ
sstatus_fs_clean = 2 <<< 13

-- The part of `Proc` that the hooks use (`PFPU` and the test for `Moribund`), with the hart's
-- floating-point registers and its `sstatus`. `trapped` is set by a floating-point instruction while
-- the field FS of `sstatus` is Off: an illegal instruction, at which the kernel halts. That the
-- hardware may make FS Dirty at a write to a register is left out: no code asks for it.
pub record FpProc : Type 0 where
  pub fpstate : ℕ
  pub moribund : Bool
  pub fpsave : FpSave
  pub live : FpSave
  pub sstatus : ℕ
  pub trapped : Bool

unfoldable pub fpsetfs : ℕ → FpProc → FpProc
fpsetfs v p = record p { sstatus = bit_or (bit_and p.sstatus (not64 sstatus_fs)) v }

abbrev pub fs_off : FpProc → Bool
fs_off p = p.sstatus / 2 ^ 13 % 4 == 0

-- The registers go to `p->fpsave`.
unfoldable pub save : FpProc → FpProc
save p = if fs_off p then record p { trapped = true } else record p { fpsave = p.live }

unfoldable pub restore : FpSave → FpProc → FpProc
restore f p = if fs_off p then record p { trapped = true } else record p { live = f }

-- What `fpuinit` leaves in the static `initfp`.
unfoldable pub initfp : FpSave
initfp = record {
  regs =
      update (update (update (update (λ _. 0) 28 0) 29 0x3FE0000000000000) 30 0x3FF0000000000000) 31
        0x4000000000000000;
  fcsr = 0;
}

unfoldable pub procrestore : FpProc → FpProc
procrestore p =
    let base = bit_and p.fpstate (not32 fp_notify) in
    let q =
      if base == fp_init
      then restore initfp (fpsetfs sstatus_fs_clean p)
      else restore p.fpsave (fpsetfs sstatus_fs_clean p) in
    if (if base == fp_init then true else base == fp_inactive)
    then record q { fpstate = bit_or fp_active (bit_and p.fpstate fp_notify) }
    else p

-- The interrupt level that `procsetup` raises and lowers again is not part of the state.
unfoldable pub procsetup : (is_up : Bool) → FpProc → FpProc
procsetup is_up p = let q = record p { fpstate = fp_init } in if is_up then procrestore q else q

unfoldable pub procsave : FpProc → FpProc
procsave p =
    if not (bit_and p.fpstate (not32 fp_notify) == fp_active)
    then p
    else if p.moribund
    then record p { fpstate = fp_init }
    else record (save (fpsetfs sstatus_fs_clean p)) {
      fpstate = bit_or fp_inactive (bit_and p.fpstate fp_notify);
    }

unfoldable pub fpunotify : FpProc → FpProc
fpunotify p =
    let q =
      if p.fpstate == fp_active
      then record (save (fpsetfs sstatus_fs_clean p)) { fpstate = fp_inactive }
      else p in
    record q { fpstate = bit_or q.fpstate fp_notify }

unfoldable pub fpunoted : FpProc → FpProc
fpunoted p = record p { fpstate = bit_and p.fpstate (not32 fp_notify) }
