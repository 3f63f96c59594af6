-- ===== src/Mmu/User/Flush.antt =====
-- `flushmmu`, and the lists of table pages.
use front_mangopi_overlay.Mmu.User.Tables.{Proc, Hart, clear, recycle, flushmmu, nuserslot}
use front_mangopi_overlay.Mmu.User.State.{IsUser, AllSpare, NotIn}
use front_mangopi_overlay.Mmu.User.Empty.{no_table, only_root, empty-IsUser, empty-lookup}
use front_mangopi_overlay.Mmu.User.Put.{walk_of}
use front_mangopi_overlay.Mmu.Tree.{lookup2}
use mathlib.Core.List.{Perm, perm_middle}
use mathlib.Core.List.Perm
use front_mangopi_overlay.Base.{
  ◌∙◌, sym, ap, ℕ, ◌+◌, ◌*◌, ◌<◌, ◌≤◌, ◌≡◌, arith, List, [], ◌∷◌, ◌++◌, refl, some, none, Option,
  false,
}

recycle-Perm : (used free : List ℕ) → Perm (recycle used free) (used ++ free)
unfolding recycle
recycle-Perm [] free = Perm.refl free
recycle-Perm (pg ∷ used) free = Perm.trans (recycle-Perm used (pg ∷ free)) (perm_middle used free)

-- A page that moves to a later place is still apart from the others.
NotIn-move : (t p : ℕ) (us fs : List ℕ) → NotIn t (p ∷ us ++ fs) → NotIn t (us ++ p ∷ fs)
NotIn-move t p [] fs h = h
NotIn-move t p (u ∷ us) fs (ne, (ne_u, rest)) = (ne_u, NotIn-move t p us fs (ne, rest))

AllSpare-move :
    (p : ℕ) (us fs : List ℕ) → AllSpare no_table (p ∷ us ++ fs) → AllSpare no_table (us ++ p ∷ fs)
AllSpare-move p [] fs h = h
AllSpare-move p (u ∷ us) fs (un, page, fits, (ne, apart), (un_u, page_u, fits_u, apart_u, rest)) = (
  un_u,
  page_u,
  fits_u,
  NotIn-move u p us fs ((λ e. ne (sym e)), apart_u),
  AllSpare-move p us fs (un, page, fits, apart, rest),
)

recycle-AllSpare :
    (used free pages : List ℕ)
    → AllSpare no_table (used ++ (free ++ pages))
    → AllSpare no_table (recycle used free ++ pages)
unfolding recycle
recycle-AllSpare [] free pages h = h
recycle-AllSpare (pg ∷ used) free pages h =
    recycle-AllSpare used (pg ∷ free) pages (AllSpare-move pg used (free ++ pages) h)

recycle-NotIn :
    (t : ℕ) (used free pages : List ℕ)
    → NotIn t (used ++ (free ++ pages))
    → NotIn t (recycle used free ++ pages)
unfolding recycle
recycle-NotIn t [] free pages h = h
recycle-NotIn t (pg ∷ used) free pages h =
    recycle-NotIn t used (pg ∷ free) pages (NotIn-move t pg used (free ++ pages) h)

abbrev flushed_proc : Proc → Proc
flushed_proc p = record p { mmufree = recycle p.mmuused p.mmufree; mmuused = []; newtlb = false }

abbrev flushed_hart : (root : ℕ) → Proc → Hart → Hart
flushed_hart root p h = record { mem = clear nuserslot root h.mem; active = p.satp }

flushmmu-run :
    (kernelsatp root : ℕ) (p : Proc) (h : Hart)
    → p.mmuroot ≡ some root
    → flushmmu kernelsatp p h ≡ (flushed_proc p, flushed_hart root p h)
unfolding flushmmu
flushmmu-run kernelsatp root p h has =
    let rooted : Option ℕ → Proc = (λ r. record p { mmuroot = r }) in
    ap (λ r. flushmmu kernelsatp (rooted r) h) has
    ∙ ap (λ r. (flushed_proc (rooted r), flushed_hart root p h)) (sym has)

-- `flushmmu` of a process with a root, whose pages are all different: no user page is mapped any
-- more, the kernel's half of the root is as it was, no table page is in use and none is lost, the
-- process's tables are selected, and they are well formed, so that `putmmu` can map anew.
pub flushmmu-unmaps :
    (kernelsatp root : ℕ) (pages : List ℕ) (p : Proc) (h : Hart)
    → p.mmuroot ≡ some root
    → AllSpare no_table (root ∷ p.mmuused ++ (p.mmufree ++ pages))
    → let (p', h') = flushmmu kernelsatp p h in
      ((x y z : ℕ) → x < nuserslot → lookup2 h'.mem root x y z ≡ none)
      × ((x : ℕ) → nuserslot ≤ x → x < 512 → h'.mem (root + x * 8) ≡ h.mem (root + x * 8))
      × (p'.mmuused ≡ [])
      × Perm p'.mmufree (p.mmuused ++ p.mmufree)
      × (p'.newtlb ≡ false)
      × (h'.active ≡ p.satp)
      × IsUser (walk_of p' h') root pages (only_root root)
flushmmu-unmaps kernelsatp root pages p h has (un, page, fits, apart, spare) =
    let empty : (x : ℕ) → x < nuserslot → clear nuserslot root h.mem (root + x * 8) ≡ 0 =
      (λ x hx. ground arith) in
    let w = walk_of (flushed_proc p) (flushed_hart root p h) in
    let once = recycle-NotIn root p.mmuused p.mmufree pages apart in
    let spare' = recycle-AllSpare p.mmuused p.mmufree pages spare in
    rw (flushmmu-run kernelsatp root p h has) (
      (λ x y z hx. empty-lookup w root pages page fits empty once spare' x y z hx),
      (λ x lo hi. ground arith),
      refl,
      recycle-Perm p.mmuused p.mmufree,
      refl,
      refl,
      empty-IsUser w root pages page fits empty once spare',
    )
