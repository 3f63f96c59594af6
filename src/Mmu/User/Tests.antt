-- ===== src/Mmu/User/Tests.antt =====
-- A process without tables, and one whose tables are empty.
use front_mangopi_overlay.Mmu.User.{putmmu_pte}
use front_mangopi_overlay.Mmu.User.Tables.{Proc, Hart, putmmu, flushmmu, nuserslot}
use front_mangopi_overlay.Mmu.User.State.{IsUser}
use front_mangopi_overlay.Mmu.User.Empty.{only_root, empty-IsUser}
use front_mangopi_overlay.Mmu.User.Put.{walk_of, Put, putmmu-Put}
use front_mangopi_overlay.Mmu.User.First.{FirstPut, putmmu-FirstPut}
use front_mangopi_overlay.Mmu.User.Flush.{flushmmu-unmaps}
use front_mangopi_overlay.Mmu.Tree.{lookup2}
use mathlib.Core.List.{Perm}
use front_mangopi_overlay.Base.{
  ℕ, ◌+◌, ◌*◌, ◌<◌, ◌≤◌, ◌≡◌, false, arith, refl, List, [], ◌∷◌, some, none,
}

abbrev new_proc : Proc
new_proc = record {
  mmuroot = none;
  satp = 0;
  mmufree = 0x50003000 ∷ [];
  mmuused = [];
  newtlb = false;
}

abbrev empty_proc : Proc
empty_proc = record {
  mmuroot = some 0x50000000;
  satp = 7;
  mmufree = 0x50003000 ∷ [];
  mmuused = [];
  newtlb = false;
}

abbrev busy_proc : Proc
busy_proc = record {
  mmuroot = some 0x50000000;
  satp = 7;
  mmufree = [];
  mmuused = 0x50003000 ∷ 0x50001000 ∷ [];
  newtlb = false;
}

abbrev blank : Hart
blank = record { mem = λ _. 0; active = 5 }

abbrev new_pages : List ℕ
new_pages = 0x50001000 ∷ 0x50002000 ∷ []

empty_proc-IsUser : IsUser (walk_of empty_proc blank) 0x50000000 new_pages (only_root 0x50000000)
empty_proc-IsUser =
    empty-IsUser (walk_of empty_proc blank) 0x50000000 new_pages refl (omega arith) (λ x hx. refl)
      (omega arith, (omega arith, (omega arith, tt)))
      (
        refl,
        refl,
        omega arith,
        (omega arith, (omega arith, tt)),
        (refl, refl, omega arith, (omega arith, tt), (refl, refl, omega arith, tt, tt)),
      )

-- A data page, with one page on the free list and one that must be asked for.
putmmu-Put_example :
    Put empty_proc blank 0x50000000 new_pages 0x200000
      (putmmu_pte 0x42000204)
      (putmmu 0x41200000 new_pages 0x200000 0x42000204 empty_proc blank)
putmmu-Put_example =
    putmmu-Put 0x41200000 new_pages 0x200000 0x42000204 0x50000000 empty_proc blank
      (only_root 0x50000000) refl (omega arith) (omega arith) empty_proc-IsUser (omega arith)

putmmu-FirstPut_example :
    FirstPut 0x41200000 new_proc blank 0x50000000 new_pages 0x200000
      (putmmu_pte 0x42000204)
      (putmmu 0x41200000 (0x50000000 ∷ new_pages) 0x200000 0x42000204 new_proc blank)
putmmu-FirstPut_example =
    putmmu-FirstPut 0x41200000 0x50000000 new_pages 0x200000 0x42000204 new_proc blank refl
      (omega arith) (omega arith) refl (omega arith)
      (
        refl,
        refl,
        omega arith,
        (omega arith, (omega arith, (omega arith, tt))),
        (
          refl,
          refl,
          omega arith,
          (omega arith, (omega arith, tt)),
          (refl, refl, omega arith, (omega arith, tt), (refl, refl, omega arith, tt, tt)),
        ),
      )
      (omega arith)

flushmmu-unmaps_example :
    let (p', h') = flushmmu 9 busy_proc blank in
    ((x y z : ℕ) → x < nuserslot → lookup2 h'.mem 0x50000000 x y z ≡ none)
    × ((x : ℕ) → nuserslot ≤ x → x < 512 → h'.mem (0x50000000 + x * 8) ≡ 0)
    × (p'.mmuused ≡ [])
    × Perm p'.mmufree (0x50003000 ∷ 0x50001000 ∷ [])
    × (p'.newtlb ≡ false)
    × (h'.active ≡ 7)
    × IsUser (walk_of p' h') 0x50000000 (0x50002000 ∷ []) (only_root 0x50000000)
flushmmu-unmaps_example = flushmmu-unmaps 9 0x50000000 (0x50002000 ∷ []) busy_proc blank refl (
  refl,
  refl,
  omega arith,
  (omega arith, (omega arith, (omega arith, tt))),
  (
    refl,
    refl,
    omega arith,
    (omega arith, (omega arith, tt)),
    (refl, refl, omega arith, (omega arith, tt), (refl, refl, omega arith, tt, tt)),
  ),
)
