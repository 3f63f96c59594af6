-- ===== src/Trap/Process.antt =====
-- trap.c: `syscall`, `execregs`, `forkchild` and `setkernur`. A Ureg is its 64-bit words by index, as
-- in Trap/Note.
pub mod Resume
mod Tests
use front_mangopi_overlay.Trap.Regs.{Layout}
use front_mangopi_overlay.Trap.Note.{by2wd, minus, move_to}
use front_mangopi_overlay.Base.{
  ℕ, ◌+◌, ◌-◌, ◌*◌, ◌^◌, ◌/◌, if◌then◌else◌, Bool, true, false, u32, u64, update, Option, none,
  some, List, [], ◌∷◌, ◌++◌,
}

-- What `syscall` calls, in order. The portable kernel's `dosyscall` is called with the number and
-- the address of the arguments.
pub data Step : Type 0 where
  dosyscalls : (scallnr sargs : ℕ) → Step
  donotifies : Step
  scheds : Step
  kexits : Step

-- `kenter` and the two tests on `up` as they turn out. `dosyscall` of the portable kernel is called
-- with the number, the address of the arguments and the Ureg, which `execregs` and `noted` write from
-- within it; it returns the result and the Ureg as it leaves it.
pub record Entry : Type 0 where
  pub kenters : Bool
  pub dosyscall : (scallnr sargs : ℕ) (ureg : ℕ → ℕ) → ℕ × (ℕ → ℕ)
  pub pending : Bool
  pub delaysched : Bool

-- `none` is the panic. The Ureg is that before `donotify`.
unfoldable pub syscall : Layout → Entry → (ureg : ℕ → ℕ) → Option ((ℕ → ℕ) × List Step)
syscall l e ureg =
    let past = update ureg l.pc (u64 (ureg l.pc + 4)) in
    let scallnr = u32 (past l.arg) in
    let sargs = u64 (past l.sp + by2wd) in
    let (result, left) = e.dosyscall scallnr sargs past in
    let after = update left l.ret result in
    let tail = (if e.delaysched then scheds ∷ [] else []) ++ kexits ∷ [] in
    if e.kenters
    then some (after, dosyscalls scallnr sargs ∷ (if e.pending then donotifies ∷ tail else tail))
    else none

-- The new stack pointer's word, the registers and what arrives in R8; `argv` is the address of the
-- arguments.
unfoldable pub execregs :
    Layout → (entry argc argv tos : ℕ) → (ureg mem : ℕ → ℕ) → (ℕ → ℕ) × (ℕ → ℕ) × ℕ
unfolding minus
execregs l entry argc argv tos ureg mem =
    let sp = minus argv by2wd in
    (update (update (update ureg l.sp sp) l.pc entry) l.r1 0, update mem sp argc, tos)

-- `p->sched`, and memory with the child's Ureg.
pub record Forked : Type 0 where
  pub sched_pc : ℕ
  pub sched_sp : ℕ
  pub mem : ℕ → ℕ

-- `p` and `forkretfp` are addresses.
unfoldable pub forkchild : Layout → (forkretfp p : ℕ) → (ureg mem : ℕ → ℕ) → Forked
unfolding minus move_to
forkchild l forkretfp p ureg mem =
    let sp = minus p (l.words * by2wd) in
    record {
      sched_pc = forkretfp;
      sched_sp = sp;
      mem = update (move_to l.words sp ureg mem) (sp + l.ret * by2wd) 0;
    }

unfoldable pub setkernur : Layout → (sched : ℕ) → (sched_pc sched_sp : ℕ) → (ℕ → ℕ) → ℕ → ℕ
setkernur l sched sched_pc sched_sp ureg =
    update (update (update ureg l.pc sched_pc) l.sp (u64 (sched_sp + by2wd))) l.r1 sched
