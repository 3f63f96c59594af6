-- ===== src/Fpu/Notes.antt =====
-- Floating point across a note handler.
use front_mangopi_overlay.Base.{◌≡◌, refl, ℕ, ◌⊎◌, inl, inr}
use front_mangopi_overlay.Fpu.{
  FpSave, FpProc, fp_active, fp_inactive, procsave, procrestore, fpunotify, fpunoted,
}
use front_mangopi_overlay.Fpu.Switch.{at, others, save-fpsetfs, restore-fpsetfs}
use front_mangopi_overlay.Base.{arith}

-- The running process computes: its registers become `f`.
abbrev pub computes : FpSave → FpProc → FpProc
computes f p = record p { live = f }

-- The states that the hooks use: initial, active or inactive, each with or without the note flag.
abbrev pub IsFpState : ℕ → Type 0
IsFpState n = (n ≡ 0) ⊎ (n ≡ 1) ⊎ (n ≡ 2) ⊎ (n ≡ 0x100) ⊎ (n ≡ 0x101) ⊎ (n ≡ 0x102)

keeps_from :
    (n : ℕ) (p : FpProc)
    → IsFpState n
    → IsFpState (procsave (at n p)).fpstate
      × IsFpState (procrestore (at n p)).fpstate
      × IsFpState (fpunotify (at n p)).fpstate
      × IsFpState (fpunoted (at n p)).fpstate
unfolding procsave procrestore fpunotify fpunoted
keeps_from n p (inl e) = rw e (omega arith, omega arith, omega arith, omega arith)
keeps_from n p (inr (inl e)) = rw e (ground arith, omega arith, omega arith, omega arith)
keeps_from n p (inr (inr (inl e))) = rw e (omega arith, omega arith, omega arith, omega arith)
keeps_from n p (inr (inr (inr (inl e)))) = rw e (omega arith, omega arith, omega arith, omega arith)
keeps_from n p (inr (inr (inr (inr (inl e))))) =
    rw e (ground arith, omega arith, omega arith, omega arith)
keeps_from n p (inr (inr (inr (inr (inr e))))) =
    rw e (omega arith, omega arith, omega arith, omega arith)

-- From each of the six states of `fpstate`, every hook leads to one of the six.
pub hooks-IsFpState :
    (p : FpProc)
    → IsFpState p.fpstate
    → IsFpState (procsave p).fpstate
      × IsFpState (procrestore p).fpstate
      × IsFpState (fpunotify p).fpstate
      × IsFpState (fpunoted p).fpstate
hooks-IsFpState p h = keeps_from p.fpstate p h

loses_from :
    (n : ℕ) (p : FpProc) (f g live : FpSave) (sstatus : ℕ)
    → n ≡ fp_active
    → let noted = computes g (fpunoted (computes f (fpunotify (at n p)))) in
      (noted.live ≡ g)
      × (noted.fpstate ≡ fp_inactive)
      × ((procrestore (others live sstatus (procsave noted))).live ≡ p.live)
unfolding procsave procrestore fpunotify fpunoted
loses_from n p f g live sstatus h = rw h (rw (save-fpsetfs, restore-fpsetfs) (refl, refl, refl))

-- A process that runs is sent a note: `fpunotify` saves its registers and marks them inactive,
-- but leaves them live. If it computes on after the note (the handler to registers `f`, and the
-- process itself to `g` after `fpunoted`), the next switch out saves nothing, since `fpstate`
-- says inactive: after the switch in, the registers are those from before the note, and both
-- `f` and `g` are lost.
pub fpunotify_loses :
    (p : FpProc) (f g live : FpSave) (sstatus : ℕ)
    → p.fpstate ≡ fp_active
    → let noted = computes g (fpunoted (computes f (fpunotify p))) in
      (noted.live ≡ g)
      × (noted.fpstate ≡ fp_inactive)
      × ((procrestore (others live sstatus (procsave noted))).live ≡ p.live)
fpunotify_loses p f g live sstatus h = loses_from p.fpstate p f g live sstatus h
