-- ===== src/Trap/Dispatch/Tests.antt =====
-- A store page fault of a process, which `fault` cannot resolve, with a note pending after it.
use front_mangopi_overlay.Trap.Dispatch.{
  Trap, trap, kenters, sets_insyscall, faults, posts_note, splhis, donotifies, kexits,
}
use front_mangopi_overlay.Trap.Dispatch.Balance.{
  count, entering, exiting, stopping, trap-balance, trap-user,
}
use front_mangopi_overlay.Base.{◌≤◌, ◌≡◌, arith, refl, true, false, [], ◌∷◌}

abbrev store_fault : Trap
store_fault = record {
  cause = 15;
  tval = 0x123456;
  user = true;
  has_up = true;
  nlocks = 0;
  insyscall = 0;
  fault_fails = true;
  claimed = 0;
  pending = true;
}

calls_of_store_fault :
    trap store_fault
    ≡ kenters
      ∷ sets_insyscall 1
      ∷ faults 0x123456 false
      ∷ posts_note
      ∷ sets_insyscall 0
      ∷ splhis
      ∷ donotifies
      ∷ kexits
      ∷ []
unfolding trap
calls_of_store_fault = refl

trap-balance_example :
    (count entering (trap store_fault) ≡ 1)
    × (count stopping (trap store_fault) ≤ 1)
    × (count exiting (trap store_fault) ≡ 1)
unfolding trap
trap-balance_example = trap-balance store_fault (omega arith)

trap-user_example : count stopping (trap store_fault) ≡ 0
trap-user_example = trap-user store_fault (omega arith) refl refl
