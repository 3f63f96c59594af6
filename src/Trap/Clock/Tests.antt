-- ===== src/Trap/Clock/Tests.antt =====
-- A hart with no handlers; the time counter moves at the third read.
use front_mangopi_overlay.Trap.Clock.{Shared, Hart, trapinit}
use front_mangopi_overlay.Trap.Clock.Ticking.{Ticking, trapinit-Ticking}
use front_mangopi_overlay.Base.{ℕ, ◌+◌, [], ◌∷◌, none, false, arith, refl}

abbrev fresh : Hart ℕ
fresh = record {
  stvec = none;
  sie_seie = false;
  sstatus_sie = false;
  cyclefreq = 0;
  cpuhz = 0;
  mhz = 0;
  plic = record {
    vctl = λ _. none;
    pri = λ _. 0;
    en = λ _. 0;
    threshold = 7;
    completed = [];
    unhandled = [];
    shared = record {
      timer = record { irqen = 0; irqsta = 0; ctl0 = 0; intv0 = 0 };
      dogs = record {
        main = record { ctrl = 0; cfg = 0; mode = 0 };
        riscv = record { ctrl = 0; cfg = 0; mode = 0 };
      };
      portable = 0;
    };
  };
}

abbrev counts : Shared ℕ → Shared ℕ
counts s = record s { portable = s.portable + 1 }

trapinit-Ticking_example : Ticking counts 0xFFFFFFFFC1000000 1008000000 fresh (
    trapinit counts 0xFFFFFFFFC1000000 100
      ((1000, 100) ∷ (1200, 100) ∷ (1500, 101) ∷ (900000, 20000) ∷ (10081500, 240100) ∷ [])
      fresh)
trapinit-Ticking_example =
    trapinit-Ticking counts fresh 0xFFFFFFFFC1000000 100 ((1000, 100) ∷ (1200, 100) ∷ [])
      ((900000, 20000) ∷ []) 1500 101 10081500 240100 [] (λ j. refl) (omega arith)
      (refl, (refl, tt)) (omega arith) (refl, tt) (omega arith)
