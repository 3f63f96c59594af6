-- ===== src/Trap/Dispatch.antt =====
-- trap.c: `trap` and `faultriscv`, as the list of the calls they make, newest last. What they read
-- from the process, from the portable kernel's `fault` and from the interrupt controller is in
-- `Trap`.
mod Balance
mod Tests
use front_mangopi_overlay.Base.{
  ℕ, ◌+◌, ◌-◌, ◌*◌, ◌^◌, ◌==◌, ltb, leb, if◌then◌else◌, ◌&&◌, Bool, true, false, bit_and, not64,
  List, [], ◌∷◌, ◌++◌,
}

-- `stops` is a panic or an endless loop: nothing comes after it.
pub data Call : Type 0 where
  syscalls : Call
  kenters : Call
  runs_plicintr : Call
  preempts : (timer : Bool) → Call
  sets_insyscall : ℕ → Call
  faults : (addr : ℕ) (read : Bool) → Call
  posts_note : Call
  splhis : Call
  donotifies : Call
  kexits : Call
  stops : Call

pub record Trap : Type 0 where
  pub cause : ℕ
  pub tval : ℕ
  pub user : Bool
  pub has_up : Bool
  pub nlocks : ℕ
  pub insyscall : ℕ
  pub fault_fails : Bool
  pub claimed : ℕ
  -- `up->procctl || up->nnote` when `trap` reads them
  pub pending : Bool

abbrev pub timer0irq : ℕ
timer0irq = 75

abbrev pub ustktop : ℕ
ustktop = 0x0000003FFFFF0000

-- The calls, and whether the code goes on after them.
pub record Part : Type 0 where
  pub calls : List Call
  pub goes_on : Bool

unfoldable pub faultriscv : Trap → (read : Bool) → Part
faultriscv t read =
    let asked = sets_insyscall 1 ∷ faults t.tval read ∷ [] in
    let restored = sets_insyscall t.insyscall ∷ [] in
    if t.has_up
    then (if t.user
        then (if t.fault_fails
            then record { calls = asked ++ posts_note ∷ restored; goes_on = true }
            else record { calls = asked ++ restored; goes_on = true })
        else if leb ustktop t.tval
        then record { calls = stops ∷ []; goes_on = false }
        else if t.nlocks == 0
        then (if t.fault_fails
            then record { calls = asked ++ stops ∷ []; goes_on = false }
            else record { calls = asked ++ restored; goes_on = true })
        else record { calls = stops ∷ []; goes_on = false })
    else record { calls = stops ∷ []; goes_on = false }

unfoldable pub interrupt : Trap → Part
interrupt t =
    if bit_and t.cause (not64 (2 ^ 63)) == 9
    then record { calls = runs_plicintr ∷ preempts (t.claimed == timer0irq) ∷ []; goes_on = true }
    else record { calls = stops ∷ []; goes_on = false }

unfoldable pub exception : Trap → Part
unfolding faultriscv
exception t =
    if t.cause == 12
    then faultriscv t true
    else if t.cause == 13
    then faultriscv t true
    else if t.cause == 15
    then faultriscv t false
    else if t.user && t.has_up
    then record { calls = posts_note ∷ []; goes_on = true }
    else record { calls = stops ∷ []; goes_on = false }

unfoldable pub handled : Trap → Part
unfolding interrupt exception
handled t = if bit_and t.cause (2 ^ 63) == 0 then exception t else interrupt t

-- On the way in, and on the way out.
unfoldable pub enters : (user : Bool) → List Call
enters true = kenters ∷ []
enters false = []

unfoldable pub leaves : (user pending : Bool) → List Call
leaves true true = splhis ∷ donotifies ∷ kexits ∷ []
leaves true false = splhis ∷ kexits ∷ []
leaves false pending = splhis ∷ []

unfoldable pub trap : Trap → List Call
unfolding handled enters leaves
trap t =
    let part = handled t in
    if t.cause == 8
    then syscalls ∷ []
    else enters t.user ++ part.calls ++ (if part.goes_on then leaves t.user t.pending else [])
