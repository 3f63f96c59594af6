-- ===== src/Trap/Process/Tests.antt =====
-- A system call, a note at its end and a fork, with the Ureg of Trap/Note/Tests.
use front_mangopi_overlay.Trap.Note.{ncont, Notified, notify, noted, deliver}
use front_mangopi_overlay.Trap.Note.Tests.{regs, regs-IsLayout, low_half, low_half-Fits, running}
use front_mangopi_overlay.Trap.Process.{dosyscalls, donotifies, kexits, Entry, syscall, forkchild}
use front_mangopi_overlay.Trap.Process.Resume.{noted-syscall, forkchild-copies}
use front_mangopi_overlay.Base.{
  ℕ, ◌+◌, ◌*◌, ◌<◌, ◌≤◌, ◌≡◌, ◌≢◌, ◌⊎◌, update, true, false, [], ◌∷◌, arith, refl,
}

abbrev call : Entry
call = record {
  kenters = true;
  dosyscall = λ nr args ureg. (nr + 100, ureg);
  pending = true;
  delaysched = false;
}

abbrev returned : ℕ → ℕ
returned i = update (update running 0 0x1024) 8 108 i

abbrev noted_late : Notified
noted_late = deliver regs low_half 0x2000 returned (λ i. 7) (λ a. 0)

noted-syscall_example :
    let q = noted regs low_half ncont noted_late.nureg (λ i. 5) noted_late.mem in
    (q.ok ≡ true) × (q.ureg 0 ≡ 0x1024) × (q.ureg 8 ≡ 108) × (q.ureg 2 ≡ 0x10000)
unfolding syscall notify
noted-syscall_example =
    noted-syscall regs low_half call 0x2000 running (λ i. 7) (λ a. 0) returned
      (dosyscalls 8 0x10008 ∷ donotifies ∷ kexits ∷ []) noted_late (λ i. 5) noted_late.mem
      regs-IsLayout low_half-Fits refl (refl, refl) refl refl (λ i h. refl) refl refl refl refl
      (omega arith)

forkchild-copies_example :
    let f = forkchild regs 0x3000 0x80000 running (λ a. 1) in
    (f.sched_pc ≡ 0x3000)
    × (f.sched_sp + 37 * 8 ≡ 0x80000)
    × ((i : ℕ) → i < 37 → i ≢ 8 → f.mem (f.sched_sp + i * 8) ≡ running i)
    × (f.mem (f.sched_sp + 8 * 8) ≡ 0)
    × ((a : ℕ) → (a < f.sched_sp) ⊎ (0x80000 ≤ a) → f.mem a ≡ 1)
forkchild-copies_example =
    forkchild-copies regs 0x3000 0x80000 running (λ a. 1) regs-IsLayout (omega arith) (omega arith)
      (omega arith)
