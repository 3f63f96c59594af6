-- ===== src/Trap/Process/Resume.antt =====
-- Where a process goes on.
use front_mangopi_overlay.Trap.Regs.{Layout, IsLayout, Fits}
use front_mangopi_overlay.Trap.Note.{by2wd, minus, ncont, Notified, notify, noted}
use front_mangopi_overlay.Trap.Note.Frame.{move_to-get, move_to-other, minus-add}
use front_mangopi_overlay.Trap.Note.RoundTrip.{noted-notify}
use front_mangopi_overlay.Trap.Process.{
  Step, dosyscalls, donotifies, scheds, kexits, Entry, syscall, forkchild,
}
use front_mangopi_overlay.Base.{
  ap, sym, ◌∙◌, ℕ, ◌+◌, ◌-◌, ◌*◌, ◌^◌, ◌%◌, ◌<◌, ◌≤◌, ◌≡◌, ◌≢◌, ◌⊎◌, if◌then◌else◌, Bool, true,
  false, u32, u64, update, Option, none, some, List, [], ◌∷◌, ◌++◌, arith, refl,
}

tails :
    (pending delaysched : Bool)
    → ◌≡◌ {A = List Step}
        (if pending
          then donotifies ∷ ((if delaysched then scheds ∷ [] else []) ++ kexits ∷ [])
          else (if delaysched then scheds ∷ [] else []) ++ kexits ∷ [])
        (((if pending then donotifies ∷ [] else []) ++ (if delaysched then scheds ∷ [] else []))
          ++ kexits ∷ [])
tails true true = refl
tails true false = refl
tails false true = refl
tails false false = refl

-- The Ureg with the pc past the 4 bytes of the ecall.
abbrev pub past_ecall : Layout → (ℕ → ℕ) → ℕ → ℕ
past_ecall l ureg i = update ureg l.pc (u64 (ureg l.pc + 4)) i

-- A system call that enters the kernel calls `dosyscall` once, with the low 32 bits of R8 as number,
-- the word above the stack pointer as arguments and the pc past the ecall already; what it returns is
-- in the return register, every other register is as it left it, and the call leaves the kernel last,
-- after the note if one is pending.
pub syscall-returns :
    (l : Layout) (e : Entry) (ureg : ℕ → ℕ)
    → IsLayout l
    → e.kenters ≡ true
    → (after : ℕ → ℕ) × (tail : List Step) × (syscall l e ureg
        ≡ some (after, dosyscalls (u32 (ureg l.arg)) (u64 (ureg l.sp + 8)) ∷ (tail ++ kexits ∷ [])))
      × (tail
          ≡ (if e.pending then donotifies ∷ [] else [])
            ++ (if e.delaysched then scheds ∷ [] else []))
      × (let done = e.dosyscall (u32 (ureg l.arg)) (u64 (ureg l.sp + 8)) (past_ecall l ureg) in
          (after l.ret ≡ done.0) × ((i : ℕ) → i ≢ l.ret → after i ≡ done.1 i))
unfolding syscall
syscall-returns l e ureg is enters =
    let past = update ureg l.pc (u64 (ureg l.pc + 4)) in
    let same_arg : past l.arg ≡ ureg l.arg = ground arith in
    let same_sp : past l.sp ≡ ureg l.sp = ground arith in
    let nr = u32 (ureg l.arg) in
    let args = u64 (ureg l.sp + 8) in
    let done = e.dosyscall nr args (past_ecall l ureg) in
    (
      update done.1 l.ret done.0,
      (if e.pending then donotifies ∷ [] else []) ++ (if e.delaysched then scheds ∷ [] else []),
      rw (enters, same_arg, same_sp)
          (ap (λ t. some (update done.1 l.ret done.0, dosyscalls nr args ∷ t))
            (tails e.pending e.delaysched)),
      refl,
      (ground arith, λ i h. ground arith),
    )

other_word : (k i v : ℕ) (m : ℕ → ℕ) → i ≢ k → update m k v i ≡ m i
other_word k i v m h = ground arith

-- A note that is delivered at the end of a system call which leaves the pc and the stack pointer of
-- its Ureg alone (unlike exec and noted) does not make the call run again: if the handler keeps its
-- Ureg and returns with NCONT, the process goes on after the ecall, with the call's result in the
-- return register. The pc and the stack must be readable and aligned, as
-- `noted` asks.
pub noted-syscall :
    (l : Layout) (okaddr : (addr len : ℕ) (writing : Bool) → Bool) (e : Entry) (handler : ℕ)
    (ureg msg mem after : ℕ → ℕ) (steps : List Step) (r : Notified) (now mem' : ℕ → ℕ)
    → IsLayout l
    → Fits okaddr
    → e.kenters ≡ true
    → (let left = (e.dosyscall (u32 (ureg l.arg)) (u64 (ureg l.sp + 8)) (past_ecall l ureg)).1 in
        (left l.pc ≡ past_ecall l ureg l.pc) × (left l.sp ≡ past_ecall l ureg l.sp))
    → syscall l e ureg ≡ some (after, steps)
    → notify l okaddr handler after msg mem ≡ some r
    → ((i : ℕ) → i < l.words → mem' (r.nureg + i * by2wd) ≡ r.mem (r.nureg + i * by2wd))
    → okaddr (u64 (ureg l.pc + 4)) by2wd false ≡ true
    → okaddr (ureg l.sp) by2wd false ≡ true
    → ureg l.pc % 2 ≡ 0
    → ureg l.sp % 8 ≡ 0
    → l.ret ≢ l.status
    → let q = noted l okaddr ncont r.nureg now mem' in
      (q.ok ≡ true)
      × (q.ureg l.pc ≡ u64 (ureg l.pc + 4))
      × (q.ureg l.ret
          ≡ (e.dosyscall (u32 (ureg l.arg)) (u64 (ureg l.sp + 8)) (past_ecall l ureg)).0)
      × (q.ureg l.sp ≡ ureg l.sp)
noted-syscall l okaddr e handler ureg msg mem after steps r now mem' is fit enters
      (pc_left, sp_left) called sent kept pc_ok sp_ok pc_even sp_aligned ret_status =
    let (after', tail, ran, shape, (ret, others)) = syscall-returns l e ureg is enters in
    let same : after' ≡ after =
      ap (λ (o : Option ((ℕ → ℕ) × List Step)). elim o [ some z ↦ z.0 | none ↦ after' ])
        (sym ran ∙ called) in
    let at_pc : after l.pc ≡ u64 (ureg l.pc + 4) =
      ap (λ (u : ℕ → ℕ). u l.pc) (sym same)
      ∙ others l.pc (λ h. is.ret_pc (sym h))
      ∙ pc_left
      ∙ ground arith in
    let at_sp : after l.sp ≡ ureg l.sp =
      ap (λ (u : ℕ → ℕ). u l.sp) (sym same)
      ∙ others l.sp (λ h. is.ret_sp (sym h))
      ∙ sp_left
      ∙ other_word l.pc l.sp (u64 (ureg l.pc + 4)) ureg (λ h. is.pc_sp (sym h)) in
    let at_ret = ap (λ (u : ℕ → ℕ). u l.ret) (sym same) ∙ ret in
    let q =
      noted-notify l okaddr handler after msg mem r now mem' is fit sent kept
        (ap (λ x. okaddr x by2wd false) at_pc ∙ pc_ok)
        (ap (λ x. okaddr x by2wd false) at_sp ∙ sp_ok) (ap (λ x. x % 2) at_pc ∙ omega arith)
        (ap (λ x. x % 8) at_sp ∙ sp_aligned) in
    (
      q.0,
      q.2 l.pc is.pc_word (λ h. is.status_pc (sym h)) ∙ at_pc,
      q.2 l.ret is.ret_word ret_status ∙ at_ret,
      q.2 l.sp is.sp_word (λ h. is.status_sp (sym h)) ∙ at_sp,
    )

below : (p sp a w : ℕ) → sp + w * 8 ≡ p → (a < sp) ⊎ (p ≤ a) → (a < sp) ⊎ (sp + w * 8 ≤ a)
below p sp a w e o = ground (arith, e, o)

minus-back : (p n : ℕ) → p < 2 ^ 64 → n ≤ p → minus p n + n ≡ p
minus-back p n h room =
    let whole : p ≡ (p - n) + n = omega arith in
    ap (λ t. minus t n + n) whole ∙ ap (λ t. t + n) (minus-add (p - n) n (omega arith)) ∙ sym whole

-- The child's Ureg, below `p`, is the parent's but for the return register, which is 0; no other
-- memory changes.
pub forkchild-copies :
    (l : Layout) (forkretfp p : ℕ) (ureg mem : ℕ → ℕ)
    → IsLayout l
    → p < 2 ^ 64
    → l.words * 8 ≤ p
    → p % 8 ≡ 0
    → let f = forkchild l forkretfp p ureg mem in
      (f.sched_pc ≡ forkretfp)
      × (f.sched_sp + l.words * 8 ≡ p)
      × ((i : ℕ) → i < l.words → i ≢ l.ret → f.mem (f.sched_sp + i * 8) ≡ ureg i)
      × (f.mem (f.sched_sp + l.ret * 8) ≡ 0)
      × ((a : ℕ) → (a < f.sched_sp) ⊎ (p ≤ a) → f.mem a ≡ mem a)
unfolding forkchild
forkchild-copies l forkretfp p ureg mem is h room al =
    let sp = minus p (l.words * by2wd) in
    let low : sp + l.words * 8 ≡ p = minus-back p (l.words * 8) h room in
    (
      refl,
      low,
      (λ i b ne. ground (arith, move_to-get l.words sp i ureg mem b)),
      ground arith,
      λ a o. ground (
        arith,
        o,
        is.ret_word,
        low,
        move_to-other l.words sp a ureg mem (below p sp a l.words low o),
      ),
    )
