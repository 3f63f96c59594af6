-- ===== src/Mmu/User/Refill.antt =====
-- A whole `mmuwalk` for an entry, and the loop of `putmmu` that gives it pages.
use front_mangopi_overlay.Mmu.User.Tables.{Walk, descend, walk_from, mmuwalk, refill, nuserslot}
use front_mangopi_overlay.Mmu.User.State.{
  IsUser, AllSpare, missing, Extends, Extends-refl, Extends-trans,
}
use front_mangopi_overlay.Mmu.User.Walked.{MidGot, LowGot, Failed, mid_level, low_level}
use front_mangopi_overlay.Mmu.Boot.Leaf.{vpn0, vpn1, vpn2}
use front_mangopi_overlay.Mmu.Pte.Fields.{ptlx-zero, ptlx-one, ptlx-two}
use front_mangopi_overlay.Mmu.Tree.{next, Role, mid, low, ptr}
use front_mangopi_overlay.Mmu.Tree.Agree.{next-ptr}
use mathlib.Core.Path.{subst}
use mathlib.Core.List.{perm_middle}
use mathlib.Core.List.Perm
use front_mangopi_overlay.Base.{
  ◌∙◌, sym, ap, ℕ, ◌+◌, ◌*◌, ◌^◌, ◌<◌, ◌≤◌, ◌≡◌, ◌⊎◌, inl, inr, arith, List, [], ◌∷◌, ◌++◌, length,
  refl, some, none, Option,
}

-- The entry's table at `v` is found or made.
pub record Found (w after : Walk) (root : ℕ) (pages left : List ℕ) (va v : ℕ) : Type 0 where
  pub role' : ℕ → Role
  pub u : ℕ
  pub is : IsUser after root left role'
  pub extends : Extends w after root pages left
  pub is_mid : role' u ≡ mid (vpn2 va)
  pub root_ptr : after.mem (root + vpn2 va * 8) ≡ ptr u
  pub is_low : role' v ≡ low (vpn2 va) (vpn1 va)
  pub mid_ptr : after.mem (u + vpn1 va * 8) ≡ ptr v
  pub need :
      length w.free + length pages
      ≡ missing w.mem root (vpn2 va) (vpn1 va) + (length after.free + length left)

-- What a walk comes to.
record WalkFound (w : Walk) (root : ℕ) (pages : List ℕ) (va : ℕ) : Type 0 where
  v : ℕ
  after : Walk
  ran : mmuwalk va 0 root w ≡ (some (v + vpn0 va * 8), after)
  found : Found w after root pages pages va v

record WalkFailed (w : Walk) (root : ℕ) (pages : List ℕ) (va : ℕ) : Type 0 where
  after : Walk
  role' : ℕ → Role
  ran : mmuwalk va 0 root w ≡ (none, after)
  is : IsUser after root pages role'
  extends : Extends w after root pages pages
  empty : after.free ≡ []
  need :
      missing after.mem root (vpn2 va) (vpn1 va) + length w.free
      ≡ missing w.mem root (vpn2 va) (vpn1 va)
  lacks : 0 < missing after.mem root (vpn2 va) (vpn1 va)

-- The walk goes on at the table that a round gives.
then_walk : (k va : ℕ) → Option ℕ × Walk → Option ℕ × Walk
unfolding walk_from
then_walk k va (next, w) = elim next [ none ↦ (none, w) | some t ↦ walk_from k 0 va t w ]

mmuwalk-first :
    (va root : ℕ) (w : Walk) → mmuwalk va 0 root w ≡ then_walk 1 va (descend (root + vpn2 va * 8) w)
unfolding mmuwalk then_walk
mmuwalk-first va root w = ap (λ x. then_walk 1 va (descend (root + x * 8) w)) (ptlx-two va)

then_walk-second :
    (va t : ℕ) (w : Walk)
    → then_walk 1 va (some t, w) ≡ then_walk 0 va (descend (t + vpn1 va * 8) w)
unfolding then_walk
then_walk-second va t w = ap (λ x. then_walk 0 va (descend (t + x * 8) w)) (ptlx-one va)

then_walk-last : (va v : ℕ) (w : Walk) → then_walk 0 va (some v, w) ≡ (some (v + vpn0 va * 8), w)
unfolding then_walk
then_walk-last va v w = ap (λ x. (some (v + x * 8), w)) (ptlx-zero va)

then_walk-none : (k va : ℕ) (w : Walk) → then_walk k va (none, w) ≡ (none, w)
unfolding then_walk
then_walk-none k va w = refl

module _ (w : Walk) (root : ℕ) (pages : List ℕ) (va : ℕ) (low_half : va < 2 ^ 38) where
  slots : (vpn2 va < nuserslot) × (vpn1 va < 512)
  slots = omega arith

  first_fails :
      {role : ℕ → Role}
      → IsUser w root pages role
      → Failed w (root + vpn2 va * 8)
      → WalkFailed w root pages va
  first_fails {role} is f = record {
    after = w;
    role' = role;
    ran = mmuwalk-first va root w ∙ ap (then_walk 1 va) f.ran ∙ then_walk-none 1 va w;
    is = is;
    extends = Extends-refl w root pages;
    empty = f.empty;
    need = ground (arith, f.empty);
    lacks = ground (arith, f.invalid);
  }

  first_round :
      (g : MidGot w root pages (vpn2 va))
      → mmuwalk va 0 root w ≡ then_walk 0 va (descend (g.t + vpn1 va * 8) g.after)
  first_round g =
      mmuwalk-first va root w ∙ ap (then_walk 1 va) g.ran ∙ then_walk-second va g.t g.after

  second_fails :
      (g : MidGot w root pages (vpn2 va))
      → Failed g.after (g.t + vpn1 va * 8)
      → WalkFailed w root pages va
  second_fails g f =
      let page = g.is.tree.is_page g.t (λ e. cc (g.is_mid)) in
      record {
        after = g.after;
        role' = g.role';
        ran = first_round g ∙ ap (then_walk 0 va) f.ran ∙ then_walk-none 0 va g.after;
        is = g.is;
        extends = g.extends;
        empty = f.empty;
        need = ground (arith, g.need (vpn1 va) (omega arith), f.empty);
        lacks = ground (arith, f.invalid, g.root_ptr, next-ptr g.t page.0 page.1);
      }

  present :
      (g : MidGot w root pages (vpn2 va)) (f : LowGot g.after root pages (vpn2 va) (vpn1 va) g.t)
      → missing f.after.mem root (vpn2 va) (vpn1 va) ≡ 0
  present g f =
      let page = f.is.tree.is_page g.t (λ e. cc (f.is_mid)) in
      ground (arith, f.root_ptr, f.mid_ptr, next-ptr g.t page.0 page.1)

  second_finds :
      (g : MidGot w root pages (vpn2 va))
      → LowGot g.after root pages (vpn2 va) (vpn1 va) g.t
      → WalkFound w root pages va
  second_finds g f = record {
    v = f.v;
    after = f.after;
    ran = first_round g ∙ ap (then_walk 0 va) f.ran ∙ then_walk-last va f.v f.after;
    found = record {
      role' = f.role';
      u = g.t;
      is = f.is;
      extends = Extends-trans g.extends f.extends;
      is_mid = f.is_mid;
      root_ptr = f.root_ptr;
      is_low = f.is_low;
      mid_ptr = f.mid_ptr;
      need =
          let none_missing : missing f.after.mem root (vpn2 va) (vpn1 va) ≡ 0 = present g f in
          omega (arith, g.need (vpn1 va) (omega arith), f.need);
    };
  }

  mmuwalk-cases :
      (role : ℕ → Role)
      → IsUser w root pages role
      → WalkFound w root pages va ⊎ WalkFailed w root pages va
  mmuwalk-cases role is = elim (mid_level w root pages role (vpn2 va) is slots.0) [
    | inr f ↦ inr (first_fails is f)
    | inl g ↦
        elim (low_level g.after root pages g.role' (vpn2 va) (vpn1 va) g.t g.is slots.0 slots.1
          g.is_mid g.root_ptr) [ inr f ↦ inr (second_fails g f) | inl f ↦ inl (second_finds g f) ]
  ]

-- A page for the free list.
abbrev give : ℕ → Walk → Walk
give pg w = record w { free = pg ∷ w.free }

give-IsUser :
    (pg : ℕ) (w : Walk) (root : ℕ) (pages : List ℕ) (role : ℕ → Role)
    → w.free ≡ []
    → IsUser w root (pg ∷ pages) role
    → IsUser (give pg w) root pages role
give-IsUser pg w root pages role e is = record {
  tree = is.tree;
  no_block = is.no_block;
  spare =
      subst (λ f. AllSpare role (pg ∷ f ++ pages)) (sym e)
        (subst (λ f. AllSpare role (f ++ pg ∷ pages)) e is.spare);
}

give-Extends :
    (pg : ℕ) (w : Walk) (root : ℕ) (pages : List ℕ) → Extends w (give pg w) root (pg ∷ pages) pages
give-Extends pg w root pages = record {
  same_map = λ x y z hx hy hz. refl;
  kernel_half = λ x lo hi. refl;
  same_pages = Perm.append_left (w.used) (Perm.symm (perm_middle (w.free) pages));
}

-- What the loop gives.
pub record Refilled (w : Walk) (root : ℕ) (pages : List ℕ) (va : ℕ) : Type 0 where
  pub v : ℕ
  pub after : Walk
  pub left : List ℕ
  pub ran : refill pages va root w ≡ some (v + vpn0 va * 8, after, left)
  pub found : Found w after root pages left va v

-- The loop's answer to what a walk gives.
answer : (pages : List ℕ) (va root : ℕ) → Option ℕ × Walk → Option (ℕ × Walk × List ℕ)
unfolding refill
answer [] va root (pte, w) = elim pte [ none ↦ none | some slot ↦ some (slot, w, []) ]
answer (pg ∷ pages) va root (pte, w) =
    let again = refill pages va root (give pg w) in
    elim pte [ none ↦ again | some slot ↦ some (slot, w, pg ∷ pages) ]

refill-answer :
    (pages : List ℕ) (va root : ℕ) (w : Walk)
    → refill pages va root w ≡ answer pages va root (mmuwalk va 0 root w)
unfolding refill answer
refill-answer [] va root w = refl
refill-answer (pg ∷ pages) va root w = refl

answer-some :
    (pages : List ℕ) (va root slot : ℕ) (w : Walk)
    → answer pages va root (some slot, w) ≡ some (slot, w, pages)
unfolding answer
answer-some [] va root slot w = refl
answer-some (pg ∷ pages) va root slot w = refl

answer-again :
    (pg : ℕ) (pages : List ℕ) (va root : ℕ) (w : Walk)
    → answer (pg ∷ pages) va root (none, w) ≡ refill pages va root (give pg w)
unfolding answer
answer-again pg pages va root w = refl

at_once :
    (w : Walk) (root : ℕ) (pages : List ℕ) (va : ℕ)
    → WalkFound w root pages va
    → Refilled w root pages va
at_once w root pages va f = record {
  v = f.v;
  after = f.after;
  left = pages;
  ran =
      refill-answer pages va root w
      ∙ ap (answer pages va root) f.ran
      ∙ answer-some pages va root (f.v + vpn0 va * 8) f.after;
  found = f.found;
}

-- A walk that lacks a page is made again with one more.
retry :
    (w : Walk) (root pg : ℕ) (pages : List ℕ) (va : ℕ) (f : WalkFailed w root (pg ∷ pages) va)
    → Refilled (give pg f.after) root pages va
    → Refilled w root (pg ∷ pages) va
retry w root pg pages va f r = record {
  v = r.v;
  after = r.after;
  left = r.left;
  ran =
      refill-answer (pg ∷ pages) va root w
      ∙ ap (answer (pg ∷ pages) va root) f.ran
      ∙ answer-again pg pages va root f.after
      ∙ r.ran;
  found = record {
    role' = r.found.role';
    u = r.found.u;
    is = r.found.is;
    extends =
        Extends-trans f.extends
          (Extends-trans (give-Extends pg f.after root pages) r.found.extends);
    is_mid = r.found.is_mid;
    root_ptr = r.found.root_ptr;
    is_low = r.found.is_low;
    mid_ptr = r.found.mid_ptr;
    need =
        let nothing : length f.after.free ≡ 0 = ap length f.empty in
        omega (arith, r.found.need, f.need);
  };
}

-- With a page for each table that lacks, the loop ends with the entry.
pub refill-Refilled :
    (pages : List ℕ) (w : Walk) (root : ℕ) (role : ℕ → Role) (va : ℕ)
    → va < 2 ^ 38
    → IsUser w root pages role
    → missing w.mem root (vpn2 va) (vpn1 va) ≤ length w.free + length pages
    → Refilled w root pages va
refill-Refilled [] w root role va low_half is room =
    elim (mmuwalk-cases w root [] va low_half role is) [
      | inl f ↦ at_once w root [] va f
      | inr f ↦ absurd (omega (arith, f.need, f.lacks))
    ]
refill-Refilled (pg ∷ pages) w root role va low_half is room =
    elim (mmuwalk-cases w root (pg ∷ pages) va low_half role is) [
      | inl f ↦ at_once w root (pg ∷ pages) va f
      | inr f ↦ retry w root pg pages va f (
          refill-Refilled pages (give pg f.after) root f.role' va low_half
            (give-IsUser pg f.after root pages f.role' f.empty f.is) (omega (arith, f.need)))
    ]
