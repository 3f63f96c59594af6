-- ===== src/Mmu/Boot/Level.antt =====
-- `table_at` at a root slot and at a slot of a level-1 table.
use front_mangopi_overlay.Mmu.Tree.AddLow.{add_low-IsTree, add_low-lookup}
use front_mangopi_overlay.Mmu.Boot.{Boot, ntables, table_at}
use front_mangopi_overlay.Mmu.Boot.State.{
  IsBoot, HasMid, HasLow, Unblocked, table_at-ptr, table_at-new, fresh, linked, fresh_page,
}
use front_mangopi_overlay.Mmu.Tree.AddMid.{add_mid-IsTree, add_mid-lookup}
use front_mangopi_overlay.Mmu.Tree.{lookup2, Role, unused, mid, low, ptr, RootEntry, IsTree}
use front_mangopi_overlay.Mmu.Tree.Agree.{apart, root_page, mid_page}
use front_mangopi_overlay.Mmu.Tree.Agree.{update-apart}
use native.Mathlib.Decide.{ℕ_discrete}
use front_mangopi_overlay.Base.{
  ◌∙◌, sym, ap, ℕ, ◌+◌, ◌*◌, ◌%◌, ◌^◌, ◌<◌, ◌≤◌, ◌≡◌, ◌≢◌, ◌⊎◌, inl, inr, some, arith, update, refl,
}
use front_mangopi_overlay.Mmu.Boot.{store}
use front_mangopi_overlay.Mmu.Tree.{MidEntry}

-- What a new table leaves as it was.
pub record Extends (b : Boot) (role : ℕ → Role) (b' : Boot) (role' : ℕ → Role) : Type 0 where
  pub same_root : b'.root ≡ b.root
  pub same_map :
      (w s r : ℕ)
      → w < 512
      → s < 512
      → r < 512
      → lookup2 b'.mem b'.root w s r ≡ lookup2 b.mem b.root w s r
  pub keeps_mid : (w : ℕ) → w < 512 → HasMid b role w → HasMid b' role' w
  pub keeps_unblocked : (w : ℕ) → w < 512 → Unblocked b role w → Unblocked b' role' w

pub Extends-refl : (b : Boot) (role : ℕ → Role) → Extends b role b role
Extends-refl b role = record {
  same_root = refl;
  same_map = λ w s r hw hs hr. refl;
  keeps_mid = λ w hw h. h;
  keeps_unblocked = λ w hw h. h;
}

pub Extends-trans :
    {b c d : Boot} {p q r : ℕ → Role} → Extends b p c q → Extends c q d r → Extends b p d r
Extends-trans f g = record {
  same_root = g.same_root ∙ f.same_root;
  same_map = λ w s r hw hs hr. g.same_map w s r hw hs hr ∙ f.same_map w s r hw hs hr;
  keeps_mid = λ w hw h. g.keeps_mid w hw (f.keeps_mid w hw h);
  keeps_unblocked = λ w hw h. g.keeps_unblocked w hw (f.keeps_unblocked w hw h);
}

-- The level-1 table for root slot `x` is found or made.
pub record MidFound (b : Boot) (role : ℕ → Role) (x : ℕ) : Type 0 where
  pub u : ℕ
  pub after : Boot
  pub role' : ℕ → Role
  pub ran : table_at (b.root + x * 8) b ≡ some (u, after)
  pub is : IsBoot after role'
  pub extends : Extends b role after role'
  pub is_mid : role' u ≡ mid x
  pub root_ptr : after.mem (after.root + x * 8) ≡ ptr u
  pub count : after.ntable ≤ b.ntable + 1
  pub grows : b.ntable ≤ after.ntable
  pub cheap : HasMid b role x → after.ntable ≡ b.ntable
  pub keeps_low : (y : ℕ) → HasLow b role x y → HasLow after role' x y

-- A slot of the level-1 table at `u`, which serves root slot `x`, has a table, found or made.
pub record LowFound (b : Boot) (role : ℕ → Role) (x y u : ℕ) : Type 0 where
  pub v : ℕ
  pub after : Boot
  pub role' : ℕ → Role
  pub ran : table_at (u + y * 8) b ≡ some (v, after)
  pub is : IsBoot after role'
  pub extends : Extends b role after role'
  pub is_mid : role' u ≡ mid x
  pub root_ptr : after.mem (after.root + x * 8) ≡ ptr u
  pub is_low : role' v ≡ low x y
  pub mid_ptr : after.mem (u + y * 8) ≡ ptr v
  pub count : after.ntable ≤ b.ntable + 1
  pub grows : b.ntable ≤ after.ntable
  pub cheap : HasLow b role x y → after.ntable ≡ b.ntable

module _ {b : Boot} {role : ℕ → Role} (is : IsBoot b role) where
  still_empty :
      (p k e i y : ℕ)
      → role p ≢ unused
      → k < 512
      → b.ntable ≤ i
      → i < ntables
      → y < 512
      → update b.mem (p + k * 8) e (b.tablebase + i * 4096 + y * 8) ≡ 0
  still_empty p k e i y used hk lo hi hy = ground (
    arith,
    is.base_page,
    is.empty i y lo hi hy,
    is.tree.is_page p used,
    apart (b.tablebase + i * 4096) p y k,
    other,
  )
    where
      other : b.tablebase + i * 4096 ≢ p
      other e = used (ap role (sym e) ∙ is.free i lo hi)

  IsBoot-link :
      (p k : ℕ) (r : Role)
      → role p ≢ unused
      → k < 512
      → b.ntable < ntables
      → IsTree (update b.mem (p + k * 8) (ptr (fresh b))) b.root 512 (update role (fresh b) r)
      → IsBoot (linked (p + k * 8) b) (update role (fresh b) r)
  IsBoot-link p k r used hk room tree = record {
    tree = tree;
    base_page = is.base_page;
    base_fits = is.base_fits;
    few = omega arith;
    free = λ i lo hi. ground (arith, is.free i);
    empty = λ i y lo hi hy. still_empty p k (ptr (fresh b)) i y used hk (omega arith) hi hy;
  }

  pub IsBoot-store :
      (p k e : ℕ)
      → role p ≢ unused
      → k < 512
      → IsTree (update b.mem (p + k * 8) e) b.root 512 role
      → IsBoot (store (p + k * 8) e b) role
  IsBoot-store p k e used hk tree = record {
    tree = tree;
    base_page = is.base_page;
    base_fits = is.base_fits;
    few = is.few;
    free = is.free;
    empty = λ i y lo hi hy. still_empty p k e i y used hk lo hi hy;
  }

  mid_new :
      (x : ℕ) → x < 512 → b.ntable < ntables → b.mem (b.root + x * 8) % 2 ≡ 0 → MidFound b role x
  mid_new x hx room invalid = record {
    u = fresh b;
    after = linked (b.root + x * 8) b;
    role' = update role (fresh b) (mid x);
    ran = table_at-new (b.root + x * 8) b is room invalid;
    is =
        IsBoot-link b.root x (mid x) (λ e. cc (is.tree.root_role)) hx room
          (add_mid-IsTree is.tree x (fresh b) hx invalid unused_t page.0 page.1 zeroed);
    extends = record {
      same_root = refl;
      same_map = add_mid-lookup is.tree x (fresh b) hx invalid unused_t page.0 page.1 zeroed;
      keeps_mid =
          λ w hw (u, is_mid, is_ptr). (u, ground (arith, unused_t), ground (arith, invalid));
      keeps_unblocked = λ w hw h u y is_mid hy. unblocked w h u y is_mid hy;
    };
    is_mid = ground arith;
    root_ptr = ground arith;
    count = omega arith;
    grows = omega arith;
    cheap = λ (u, is_mid, is_ptr). absurd (omega arith);
    keeps_low = λ y (u, v, is_mid, is_ptr, is_low, low_ptr). absurd (omega arith);
  }
    where
      unused_t : role (fresh b) ≡ unused
      unused_t = is.free b.ntable (omega arith) room

      page : (fresh b % 4096 ≡ 0) × (fresh b < 2 ^ 56)
      page = fresh_page is room

      zeroed : (y : ℕ) → y < 512 → b.mem (fresh b + y * 8) ≡ 0
      zeroed y hy = is.empty b.ntable y (omega arith) room hy

      unblocked :
          (w : ℕ)
          → Unblocked b role w
          → Unblocked (linked (b.root + x * 8) b) (update role (fresh b) (mid x)) w
      unblocked w h u y is_mid hy = elim (ℕ_discrete u (fresh b)) [
        | yes same ↦ inl (
            ground (
              arith,
              update-apart b.mem (fresh b) b.root y x (ptr (fresh b)) page.0 (root_page is.tree).0
                  (λ e. ground (arith, is.tree.root_role, unused_t)) hy hx,
              zeroed y hy,
            ))
        | no ne ↦
            let was : role u ≡ mid w = ground arith in
            let own = mid_page is.tree u w was in
            rw
              (update-apart b.mem u b.root y x (ptr (fresh b)) own.0 (root_page is.tree).0 own.1 hy
                hx)
              (h u y was hy)
      ]

  mid_found : (x u : ℕ) → role u ≡ mid x → b.mem (b.root + x * 8) ≡ ptr u → MidFound b role x
  mid_found x u is_mid is_ptr = record {
    u = u;
    after = b;
    role' = role;
    ran =
        table_at-ptr (b.root + x * 8) u b (is.tree.is_page u (λ e. cc)).0
          (is.tree.is_page u (λ e. cc)).1 is_ptr;
    is = is;
    extends = Extends-refl b role;
    is_mid = is_mid;
    root_ptr = is_ptr;
    count = omega arith;
    grows = omega arith;
    cheap = λ h. refl;
    keeps_low = λ y h. h;
  }

  -- The first level of a walk succeeds if the table is there or a table is left.
  pub mid_level : (x : ℕ) → x < 512 → HasMid b role x ⊎ (b.ntable < ntables) → MidFound b role x
  mid_level x hx room = from (is.tree.root_entry x hx)
    where
      from : RootEntry role x (b.mem (b.root + x * 8)) → MidFound b role x
      from (inl invalid) = elim room [
        | inl (u, is_mid, is_ptr) ↦ absurd (omega arith)
        | inr left ↦ mid_new x hx left invalid
      ]
      from (inr (u, is_mid, is_ptr)) = mid_found x u is_mid is_ptr

  module _ (x y u : ℕ) (hx : x < 512) (hy : y < 512) (is_mid : role u ≡ mid x)
      (root_ptr : b.mem (b.root + x * 8) ≡ ptr u) where
    mid_here : (u % 4096 ≡ 0) × (u < 2 ^ 56)
    mid_here = is.tree.is_page u (λ e. cc)

    one_mid : (w : ℕ) → w < 2 ^ 56 → w % 4096 ≡ 0 → b.mem (b.root + x * 8) ≡ ptr w → w ≡ u
    one_mid w fits page is_ptr = omega (arith, mid_here)

    low_new : b.ntable < ntables → b.mem (u + y * 8) % 2 ≡ 0 → LowFound b role x y u
    low_new room invalid = record {
      v = fresh b;
      after = linked (u + y * 8) b;
      role' = update role (fresh b) (low x y);
      ran = table_at-new (u + y * 8) b is room invalid;
      is =
          IsBoot-link u y (low x y) (λ e. cc) hy room
            (add_low-IsTree is.tree x y u (fresh b) hx hy is_mid root_ptr invalid unused_t page.0
              page.1 zeroed);
      extends = record {
        same_root = refl;
        same_map =
            add_low-lookup is.tree x y u (fresh b) hx hy is_mid root_ptr invalid unused_t page.0
              page.1 zeroed;
        keeps_mid = λ w hw (t, t_mid, t_ptr). (
          t,
          ground (arith, unused_t),
          update-apart b.mem b.root u w y (ptr (fresh b)) (root_page is.tree).0 mid_here.0 root_ne_u
                hw hy
              ∙ t_ptr,
        );
        keeps_unblocked = λ w hw h t s t_mid hs. unblocked w h t s t_mid hs;
      };
      is_mid = ground (arith, unused_t);
      root_ptr =
          update-apart b.mem b.root u x y (ptr (fresh b)) (root_page is.tree).0 mid_here.0 root_ne_u
            hx hy
          ∙ root_ptr;
      is_low = ground arith;
      mid_ptr = ground arith;
      count = omega arith;
      grows = omega arith;
      cheap = λ (t, v, t_mid, t_ptr, v_low, v_ptr). absurd (cheap_case t v t_mid t_ptr v_ptr);
    }
      where
        unused_t : role (fresh b) ≡ unused
        unused_t = is.free b.ntable (omega arith) room

        page : (fresh b % 4096 ≡ 0) × (fresh b < 2 ^ 56)
        page = fresh_page is room

        zeroed : (z : ℕ) → z < 512 → b.mem (fresh b + z * 8) ≡ 0
        zeroed z hz = is.empty b.ntable z (omega arith) room hz

        root_ne_u : b.root ≢ u
        root_ne_u e = ground (arith, is.tree.root_role)

        cheap_case :
            (t v : ℕ)
            → role t ≡ mid x
            → b.mem (b.root + x * 8) ≡ ptr t
            → b.mem (t + y * 8) ≡ ptr v
            → ⊥
        cheap_case t v t_mid t_ptr v_ptr =
            let own = is.tree.is_page t (λ e. cc) in ground (arith, one_mid t own.1 own.0 t_ptr)

        unblocked :
            (w : ℕ)
            → Unblocked b role w
            → Unblocked (linked (u + y * 8) b) (update role (fresh b) (low x y)) w
        unblocked w h t s t_mid hs =
            let was : role t ≡ mid w = ground arith in
            let own = mid_page is.tree t w was in
            elim (ℕ_discrete t u) [
              | no ne ↦
                  rw (update-apart b.mem t u s y (ptr (fresh b)) own.0 mid_here.0 ne hs hy)
                    (h t s was hs)
              | yes same ↦ elim (ℕ_discrete s y) [
                | yes at ↦ inr (ground arith)
                | no ne ↦ ground (arith, h t s was hs)
              ]
            ]

    low_found : (v : ℕ) → role v ≡ low x y → b.mem (u + y * 8) ≡ ptr v → LowFound b role x y u
    low_found v is_low is_ptr = record {
      v = v;
      after = b;
      role' = role;
      ran =
          table_at-ptr (u + y * 8) v b (is.tree.is_page v (λ e. cc)).0
            (is.tree.is_page v (λ e. cc)).1 is_ptr;
      is = is;
      extends = Extends-refl b role;
      is_mid = is_mid;
      root_ptr = root_ptr;
      is_low = is_low;
      mid_ptr = is_ptr;
      count = omega arith;
      grows = omega arith;
      cheap = λ h. refl;
    }

    -- So does the second, where no 2 MB leaf is in the way.
    pub low_level :
        Unblocked b role x → HasLow b role x y ⊎ (b.ntable < ntables) → LowFound b role x y u
    low_level clear room = from (is.tree.mid_entry u x y is_mid hy)
      where
        from : MidEntry role x y (b.mem (u + y * 8)) → LowFound b role x y u
        from (inl invalid) = elim room [
          | inl (t, v, t_mid, t_ptr, v_low, v_ptr) ↦
              let own = is.tree.is_page t (λ e. cc) in
              absurd (ground (arith, one_mid t own.1 own.0 t_ptr))
          | inr left ↦ low_new left invalid
        ]
        from (inr (inl (valid, leaf))) = absurd (ground (arith, clear u y is_mid hy))
        from (inr (inr (v, is_low, is_ptr))) = low_found v is_low is_ptr
