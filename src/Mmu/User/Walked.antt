-- ===== src/Mmu/User/Walked.antt =====
-- One round of `mmuwalk`, at a root slot and at a slot of a level-1 table.
use front_mangopi_overlay.Mmu.User.Tables.{Walk, descend, clear, nuserslot}
use front_mangopi_overlay.Mmu.User.State.{
  IsUser, NoBlock, AllSpare-other, missing, Extends, Extends-refl, clear-root, clear-mid,
  clear-IsTree, clear-lookup, cleared,
}
use front_mangopi_overlay.Mmu.Boot.State.{papte-ptr, ptepa-ptr}
use front_mangopi_overlay.Mmu.Tree.{Mem, Role, unused, mid, low, ptr, RootEntry, MidEntry}
use front_mangopi_overlay.Mmu.Tree.Agree.{next-ptr, root_page, mid_page, update-apart}
use front_mangopi_overlay.Mmu.Tree.AddMid.{add_mid-IsTree, add_mid-lookup}
use front_mangopi_overlay.Mmu.Tree.AddLow.{add_low-IsTree, add_low-lookup}
use front_mangopi_overlay.Base.Bits.{bit_and-one}
use mathlib.Core.List.{Perm, perm_middle}
use mathlib.Core.List.Perm
use native.Mathlib.Decide.{ℕ_discrete}
use front_mangopi_overlay.Base.{
  bit_and, true, suc, ◌∙◌, sym, ℕ, ◌+◌, ◌*◌, ◌%◌, ◌^◌, ◌<◌, ◌≡◌, ◌≢◌, ◌⊎◌, inl, inr, ◌==◌, arith,
  update, List, [], ◌∷◌, ◌++◌, length, refl, some, none,
}

descend-found :
    (slot t : ℕ) (w : Walk)
    → t % 4096 ≡ 0
    → t < 2 ^ 56
    → w.mem slot ≡ ptr t
    → descend slot w ≡ (some t, w)
unfolding descend
descend-found slot t w page fits e = ground (arith, bit_and-one (w.mem slot), ptepa-ptr t page fits)

-- The walk after the free page `pg` is linked in at `slot`.
abbrev pub linked : (slot pg : ℕ) (m : Mem) (rest used : List ℕ) → Walk
linked slot pg m rest used = record {
  mem = update (clear 512 pg m) slot (ptr pg);
  free = rest;
  used = pg ∷ used;
}

descend-new :
    (slot pg : ℕ) (m : Mem) (rest used : List ℕ)
    → pg < 2 ^ 56
    → m slot % 2 ≡ 0
    → descend slot (record { mem = m; free = pg ∷ rest; used = used })
      ≡ (some pg, linked slot pg m rest used)
unfolding descend
descend-new slot pg m rest used fits invalid =
    let clear_bit : (bit_and (m slot) 1 == 0) ≡ true = ground (arith, bit_and-one (m slot)) in
    rw (clear_bit, papte-ptr pg fits) refl

descend-empty :
    (slot : ℕ) (m : Mem) (used : List ℕ)
    → m slot % 2 ≡ 0
    → descend slot (record { mem = m; free = []; used = used })
      ≡ (none, record { mem = m; free = []; used = used })
unfolding descend
descend-empty slot m used invalid = ground (arith, bit_and-one (m slot))

-- The level-1 table of root slot `x`, found or made.
pub record MidGot (w : Walk) (root : ℕ) (pages : List ℕ) (x : ℕ) : Type 0 where
  pub t : ℕ
  pub after : Walk
  pub role' : ℕ → Role
  pub ran : descend (root + x * 8) w ≡ (some t, after)
  pub is : IsUser after root pages role'
  pub extends : Extends w after root pages pages
  pub is_mid : role' t ≡ mid x
  pub root_ptr : after.mem (root + x * 8) ≡ ptr t
  pub need :
      (y : ℕ)
      → y < 512
      → missing after.mem root x y + length w.free ≡ missing w.mem root x y + length after.free

-- The level-0 table for slot `y` of the level-1 table at `u`, which serves root slot `x`.
pub record LowGot (w : Walk) (root : ℕ) (pages : List ℕ) (x y u : ℕ) : Type 0 where
  pub v : ℕ
  pub after : Walk
  pub role' : ℕ → Role
  pub ran : descend (u + y * 8) w ≡ (some v, after)
  pub is : IsUser after root pages role'
  pub extends : Extends w after root pages pages
  pub is_mid : role' u ≡ mid x
  pub root_ptr : after.mem (root + x * 8) ≡ ptr u
  pub is_low : role' v ≡ low x y
  pub mid_ptr : after.mem (u + y * 8) ≡ ptr v
  pub need : missing after.mem root x y + length w.free ≡ missing w.mem root x y + length after.free

-- No page is left for a table that is missing at `slot`.
pub record Failed (w : Walk) (slot : ℕ) : Type 0 where
  pub ran : descend slot w ≡ (none, w)
  pub empty : w.free ≡ []
  pub invalid : w.mem slot % 2 ≡ 0

mid_found :
    (w : Walk) (root : ℕ) (pages : List ℕ) (role : ℕ → Role) (x t : ℕ)
    → IsUser w root pages role
    → role t ≡ mid x
    → w.mem (root + x * 8) ≡ ptr t
    → MidGot w root pages x
mid_found w root pages role x t is is_mid is_ptr =
    let page = is.tree.is_page t (λ e. cc) in
    record {
      t = t;
      after = w;
      role' = role;
      ran = descend-found (root + x * 8) t w page.0 page.1 is_ptr;
      is = is;
      extends = Extends-refl w root pages;
      is_mid = is_mid;
      root_ptr = is_ptr;
      need = λ y hy. refl;
    }

module _ (m : Mem) (used : List ℕ) (root : ℕ) (pages : List ℕ) (role : ℕ → Role) (pg : ℕ)
    (rest : List ℕ)
    (is : IsUser (record { mem = m; free = pg ∷ rest; used = used }) root pages role) where
  fresh : role pg ≡ unused
  fresh = is.spare.0

  page : pg % 4096 ≡ 0
  page = is.spare.1

  fits : pg < 2 ^ 56
  fits = is.spare.2

  ne_root : root ≢ pg
  ne_root e = ground (arith, is.tree.root_role, fresh)

  pages_kept : Perm ((pg ∷ used) ++ (rest ++ pages)) (used ++ (pg ∷ rest ++ pages))
  pages_kept = Perm.symm (perm_middle used (rest ++ pages))

  mid-NoBlock :
      (x : ℕ)
      → x < nuserslot
      → NoBlock (update (clear 512 pg m) (root + x * 8) (ptr pg)) (update role pg (mid x))
  mid-NoBlock x hx u w y h hy = elim (ℕ_discrete u pg) [
    | yes same ↦ inl (
        ground (
          arith,
          update-apart (clear 512 pg m) pg root y x (ptr pg) page (root_page is.tree).0
              (λ e. ne_root (sym e)) hy (omega (arith, hx)),
          cleared is.tree pg fresh page y hy,
        ))
    | no ne ↦
        let was : role u ≡ mid w = ground arith in
        let own = mid_page is.tree u w was in
        rw
          (
            update-apart (clear 512 pg m) u root y x (ptr pg) own.0 (root_page is.tree).0 own.1 hy
                (omega (arith, hx)),
            clear-mid is.tree pg fresh page u w y was hy,
          )
          (is.no_block u w y was hy)
  ]

  mid_need :
      (x y : ℕ)
      → x < nuserslot
      → y < 512
      → m (root + x * 8) % 2 ≡ 0
      → missing (update (clear 512 pg m) (root + x * 8) (ptr pg)) root x y + suc (length rest)
        ≡ missing m root x y + length rest
  mid_need x y hx hy invalid =
      let below : update (clear 512 pg m) (root + x * 8) (ptr pg) (pg + y * 8) ≡ 0 =
        update-apart (clear 512 pg m) pg root y x (ptr pg) page (root_page is.tree).0
          (λ e. ne_root (sym e)) hy (omega (arith, hx))
        ∙ cleared is.tree pg fresh page y hy in
      ground (arith, next-ptr pg page fits, below)

  mid_new :
      (x : ℕ)
      → x < nuserslot
      → m (root + x * 8) % 2 ≡ 0
      → MidGot (record { mem = m; free = pg ∷ rest; used = used }) root pages x
  mid_new x hx invalid =
      let tree = clear-IsTree is.tree pg fresh page in
      let same = clear-root is.tree pg fresh page in
      let zero = cleared is.tree pg fresh page in
      let still : clear 512 pg m (root + x * 8) % 2 ≡ 0 = ground (arith, same x) in
      record {
        t = pg;
        after = linked (root + x * 8) pg m rest used;
        role' = update role pg (mid x);
        ran = descend-new (root + x * 8) pg m rest used fits invalid;
        is = record {
          tree = add_mid-IsTree tree x pg hx still fresh page fits zero;
          no_block = mid-NoBlock x hx;
          spare = AllSpare-other role pg (mid x) (rest ++ pages) (is.spare.3) (is.spare.4);
        };
        extends = record {
          same_map = λ w y z hw hy hz.
              add_mid-lookup tree x pg hx still fresh page fits zero w y z hw hy hz
              ∙ clear-lookup is.tree pg fresh page w y z hw hy hz;
          kernel_half = λ w lo hi. ground (arith, same w);
          same_pages = pages_kept;
        };
        is_mid = ground arith;
        root_ptr = ground arith;
        need = λ y hy. mid_need x y hx hy invalid;
      }

  -- At a slot of the level-1 table at `u`, which serves root slot `x`.
  module _ (x y u : ℕ) (hx : x < nuserslot) (hy : y < 512) (is_mid : role u ≡ mid x)
      (root_ptr : m (root + x * 8) ≡ ptr u) (invalid : m (u + y * 8) % 2 ≡ 0) where
    u_page : (u % 4096 ≡ 0) × (u < 2 ^ 56)
    u_page = is.tree.is_page u (λ e. cc)

    root_ne_u : root ≢ u
    root_ne_u e = ground (arith, is.tree.root_role)

    low-NoBlock : NoBlock (update (clear 512 pg m) (u + y * 8) (ptr pg)) (update role pg (low x y))
    low-NoBlock v w s h hs =
        let was : role v ≡ mid w = ground arith in
        let own = mid_page is.tree v w was in
        elim (ℕ_discrete v u) [
          | no ne ↦
              rw
                (
                  update-apart (clear 512 pg m) v u s y (ptr pg) own.0 u_page.0 ne hs hy,
                  clear-mid is.tree pg fresh page v w s was hs,
                )
                (is.no_block v w s was hs)
          | yes same ↦ elim (ℕ_discrete s y) [
            | yes at ↦ inr (ground arith)
            | no ne ↦
                ground
                  (arith, is.no_block v w s was hs, clear-mid is.tree pg fresh page v w s was hs)
          ]
        ]

    kept_root :
        (w : ℕ)
        → w < 512
        → update (clear 512 pg m) (u + y * 8) (ptr pg) (root + w * 8) ≡ m (root + w * 8)
    kept_root w hw =
        update-apart (clear 512 pg m) root u w y (ptr pg) (root_page is.tree).0 u_page.0 root_ne_u
          hw hy
        ∙ clear-root is.tree pg fresh page w hw

    low_new : LowGot (record { mem = m; free = pg ∷ rest; used = used }) root pages x y u
    low_new =
        let tree = clear-IsTree is.tree pg fresh page in
        let zero = cleared is.tree pg fresh page in
        let still : clear 512 pg m (u + y * 8) % 2 ≡ 0 =
          ground (arith, clear-mid is.tree pg fresh page u x y is_mid hy) in
        let there : clear 512 pg m (root + x * 8) ≡ ptr u =
          clear-root is.tree pg fresh page x (omega (arith, hx)) ∙ root_ptr in
        record {
          v = pg;
          after = linked (u + y * 8) pg m rest used;
          role' = update role pg (low x y);
          ran = descend-new (u + y * 8) pg m rest used fits invalid;
          is = record {
            tree = add_low-IsTree tree x y u pg hx hy is_mid there still fresh page fits zero;
            no_block = low-NoBlock;
            spare = AllSpare-other role pg (low x y) (rest ++ pages) (is.spare.3) (is.spare.4);
          };
          extends = record {
            same_map = λ w s z hw hs hz.
                add_low-lookup tree x y u pg hx hy is_mid there still fresh page fits zero w s z hw
                  hs hz
                ∙ clear-lookup is.tree pg fresh page w s z hw hs hz;
            kernel_half = λ w lo hi. kept_root w hi;
            same_pages = pages_kept;
          };
          is_mid = ground (arith, fresh);
          root_ptr = kept_root x (omega (arith, hx)) ∙ root_ptr;
          is_low = ground arith;
          mid_ptr = ground arith;
          need = ground (arith, next-ptr u u_page.0 u_page.1);
        }

-- The level-1 table for root slot `x`, if it is there or a page is left.
pub mid_level :
    (w : Walk) (root : ℕ) (pages : List ℕ) (role : ℕ → Role) (x : ℕ)
    → IsUser w root pages role
    → x < nuserslot
    → MidGot w root pages x ⊎ Failed w (root + x * 8)
mid_level w root pages role x is hx = from (w.free) is (is.tree.root_entry x hx)
  where
    from :
        (free : List ℕ)
        → IsUser (record { mem = w.mem; free = free; used = w.used }) root pages role
        → RootEntry role x (w.mem (root + x * 8))
        → let w' : Walk = record { mem = w.mem; free = free; used = w.used } in
          MidGot w' root pages x ⊎ Failed w' (root + x * 8)
    from free is' (inr (t, is_mid, is_ptr)) =
        inl (mid_found _ root pages role x t is' is_mid is_ptr)
    from [] is' (inl invalid) = inr (record {
      ran = descend-empty (root + x * 8) (w.mem) (w.used) invalid;
      empty = refl;
      invalid = invalid;
    })
    from (pg ∷ rest) is' (inl invalid) =
        inl (mid_new (w.mem) (w.used) root pages role pg rest is' x hx invalid)

-- The level-0 table for slot `y` of the level-1 table at `u`.
pub low_level :
    (w : Walk) (root : ℕ) (pages : List ℕ) (role : ℕ → Role) (x y u : ℕ)
    → IsUser w root pages role
    → x < nuserslot
    → y < 512
    → role u ≡ mid x
    → w.mem (root + x * 8) ≡ ptr u
    → LowGot w root pages x y u ⊎ Failed w (u + y * 8)
low_level w root pages role x y u is hx hy is_mid root_ptr =
    from (w.free) is (is.tree.mid_entry u x y is_mid hy)
  where
    from :
        (free : List ℕ)
        → IsUser (record { mem = w.mem; free = free; used = w.used }) root pages role
        → MidEntry role x y (w.mem (u + y * 8))
        → let w' : Walk = record { mem = w.mem; free = free; used = w.used } in
          LowGot w' root pages x y u ⊎ Failed w' (u + y * 8)
    from free is' (inr (inl (valid, leaf))) = absurd (ground (arith, is'.no_block u x y is_mid hy))
    from free is' (inr (inr (v, is_low, is_ptr))) =
        let page_v = is'.tree.is_page v (λ e. cc) in
        inl (record {
          v = v;
          after = record { mem = w.mem; free = free; used = w.used };
          role' = role;
          ran = descend-found (u + y * 8) v _ page_v.0 page_v.1 is_ptr;
          is = is';
          extends = Extends-refl _ root pages;
          is_mid = is_mid;
          root_ptr = root_ptr;
          is_low = is_low;
          mid_ptr = is_ptr;
          need = refl;
        })
    from [] is' (inl invalid) = inr (record {
      ran = descend-empty (u + y * 8) (w.mem) (w.used) invalid;
      empty = refl;
      invalid = invalid;
    })
    from (pg ∷ rest) is' (inl invalid) =
        inl
          (low_new (w.mem) (w.used) root pages role pg rest is' x y u hx hy is_mid root_ptr invalid)
