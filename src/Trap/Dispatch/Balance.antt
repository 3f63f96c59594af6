-- ===== src/Trap/Dispatch/Balance.antt =====
-- How the calls of `trap` pair up.
use front_mangopi_overlay.Trap.Dispatch.{
  Call, kenters, splhis, donotifies, kexits, stops, Trap, Part, faultriscv, interrupt, exception,
  handled, enters, leaves, trap, ustktop,
}
use front_mangopi_overlay.Base.{
  ℕ, ◌+◌, ◌-◌, ◌^◌, ◌≤◌, ◌≡◌, ◌≢◌, ◌==◌, leb, if◌then◌else◌, ◌&&◌, Bool, true, false, bit_and,
  not64, List, [], ◌∷◌, ◌++◌, arith, refl,
}

-- 1 for a call of the kind, 0 for any other.
abbrev pub entering : Call → ℕ
entering kenters = 1
entering _ = 0

abbrev pub exiting : Call → ℕ
exiting kexits = 1
exiting _ = 0

abbrev pub stopping : Call → ℕ
stopping stops = 1
stopping _ = 0

abbrev pub count : (Call → ℕ) → List Call → ℕ
count f [] = 0
count f (x ∷ xs) = f x + count f xs

count-append : (f : Call → ℕ) (xs ys : List Call) → count f (xs ++ ys) ≡ count f xs + count f ys
count-append f [] ys = omega arith
count-append f (x ∷ xs) ys = omega (arith, count-append f xs ys)

-- The part between entry and exit makes neither, and stops exactly if it does not go on.
record IsInner (p : Part) : Type 0 where
  no_enter : count entering p.calls ≡ 0
  no_exit : count exiting p.calls ≡ 0
  stop : count stopping p.calls ≡ (if p.goes_on then 0 else 1)

either : (b : Bool) {p q : Part} → IsInner p → IsInner q → IsInner (if b then p else q)
either true p q = p
either false p q = q

by_counts :
    {p : Part}
    → count entering p.calls ≡ 0
    → count exiting p.calls ≡ 0
    → count stopping p.calls ≡ (if p.goes_on then 0 else 1)
    → IsInner p
by_counts a b c = record { no_enter = a; no_exit = b; stop = c }

faultriscv-IsInner : (t : Trap) (read : Bool) → IsInner (faultriscv t read)
unfolding faultriscv
faultriscv-IsInner t read =
    either t.has_up
      (either t.user (either t.fault_fails (by_counts refl refl refl) (by_counts refl refl refl)) (
        either (leb ustktop t.tval) (by_counts refl refl refl) (
          either (t.nlocks == 0)
            (either t.fault_fails (by_counts refl refl refl) (by_counts refl refl refl))
            (by_counts refl refl refl))))
      (by_counts refl refl refl)

handled-IsInner : (t : Trap) → IsInner (handled t)
unfolding handled interrupt exception
handled-IsInner t =
    either (bit_and t.cause (2 ^ 63) == 0)
      (either (t.cause == 12) (faultriscv-IsInner t true) (
        either (t.cause == 13) (faultriscv-IsInner t true) (
          either (t.cause == 15) (faultriscv-IsInner t false)
            (either (t.user && t.has_up) (by_counts refl refl refl) (by_counts refl refl refl)))))
      (either (bit_and t.cause (not64 (2 ^ 63)) == 9) (by_counts refl refl refl)
        (by_counts refl refl refl))

-- What the counts of a whole trap are, by the counts of its part.
run_counts :
    (user pending goes_on : Bool) (calls : List Call)
    → count entering calls ≡ 0
    → count exiting calls ≡ 0
    → count stopping calls ≡ (if goes_on then 0 else 1)
    → let all = enters user ++ calls ++ (if goes_on then leaves user pending else []) in
      (count entering all ≡ (if user then 1 else 0))
      × (count exiting all ≡ (if user && goes_on then 1 else 0))
      × (count stopping all ≡ (if goes_on then 0 else 1))
unfolding enters leaves
run_counts true true true calls a b c =
    let l = splhis ∷ donotifies ∷ kexits ∷ [] in
    (
      omega (arith, a, count-append entering calls l),
      omega (arith, b, count-append exiting calls l),
      omega (arith, c, count-append stopping calls l),
    )
run_counts true false true calls a b c =
    let l = splhis ∷ kexits ∷ [] in
    (
      omega (arith, a, count-append entering calls l),
      omega (arith, b, count-append exiting calls l),
      omega (arith, c, count-append stopping calls l),
    )
run_counts false pending true calls a b c =
    let l = splhis ∷ [] in
    (
      omega (arith, a, count-append entering calls l),
      omega (arith, b, count-append exiting calls l),
      omega (arith, c, count-append stopping calls l),
    )
run_counts true pending false calls a b c = (
  omega (arith, a, count-append entering calls []),
  omega (arith, b, count-append exiting calls []),
  omega (arith, c, count-append stopping calls []),
)
run_counts false pending false calls a b c = (
  omega (arith, a, count-append entering calls []),
  omega (arith, b, count-append exiting calls []),
  omega (arith, c, count-append stopping calls []),
)

-- For every trap but a system call: a trap from user mode enters the kernel's accounting once, and
-- leaves it once, or stops once; a trap from the kernel neither enters nor leaves it. No trap
-- stops twice.
pub trap-balance :
    (t : Trap)
    → t.cause ≢ 8
    → (count entering (trap t) ≡ (if t.user then 1 else 0))
      × (count stopping (trap t) ≤ 1)
      × (count exiting (trap t) ≡ (if t.user then 1 - count stopping (trap t) else 0))
unfolding trap
trap-balance t ne =
    let i = handled-IsInner t in
    let r =
      run_counts t.user t.pending (handled t).goes_on (handled t).calls i.no_enter i.no_exit
        i.stop in
    ground (arith, r)

faultriscv-user :
    (t : Trap) (read : Bool) → t.user ≡ true → t.has_up ≡ true → (faultriscv t read).goes_on ≡ true
unfolding faultriscv
faultriscv-user t read user up = ground arith

user_goes_on :
    (t : Trap)
    → t.user ≡ true
    → t.has_up ≡ true
    → (handled t).goes_on
      ≡ (if (bit_and t.cause (2 ^ 63)) == 0 then true else (bit_and t.cause (not64 (2 ^ 63)) == 9))
unfolding handled interrupt exception
user_goes_on t user up =
    ground (arith, faultriscv-user t true user up, faultriscv-user t false user up)

-- A trap from user mode that finds its process and is no system call stops exactly if it is an
-- interrupt other than the external one (code 9): no page fault and no other exception of a
-- process stops the kernel.
pub trap-user :
    (t : Trap)
    → t.cause ≢ 8
    → t.user ≡ true
    → t.has_up ≡ true
    → count stopping (trap t) ≡ (
        if (bit_and t.cause (2 ^ 63)) == 0
        then 0
        else if bit_and t.cause (not64 (2 ^ 63)) == 9
        then 0
        else 1)
unfolding trap
trap-user t ne user up =
    let i = handled-IsInner t in
    let r =
      run_counts t.user t.pending (handled t).goes_on (handled t).calls i.no_enter i.no_exit
        i.stop in
    ground (arith, r, user_goes_on t user up)
