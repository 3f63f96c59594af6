-- ===== src/Mmu/Tree/Agree.antt =====
-- Lookups that agree in two memories, and what a new table leaves alone.
use front_mangopi_overlay.Mmu.Tree.{
  Mem, next, lookup1, lookup2, Role, unused, mid, low, ptr, RootEntry, MidEntry, IsTree,
}
use front_mangopi_overlay.Base.{ℕ, ◌+◌, ◌*◌, ◌%◌, ◌^◌, ◌<◌, ◌≡◌, ◌≢◌, inl, inr, arith, update}

-- Entries of different tables, and different entries of one table, have different addresses.
pub apart :
    (t u y z : ℕ)
    → t % 4096 ≡ 0
    → u % 4096 ≡ 0
    → y < 512
    → z < 512
    → t + y * 8 ≡ u + z * 8
    → (t ≡ u) × (y ≡ z)
apart t u y z ht hu hy hz e = omega arith

pub update-apart :
    (m : Mem) (p q y k e : ℕ)
    → p % 4096 ≡ 0
    → q % 4096 ≡ 0
    → p ≢ q
    → y < 512
    → k < 512
    → update m (q + k * 8) e (p + y * 8) ≡ m (p + y * 8)
update-apart m p q y k e hp hq ne hy hk = ground (arith, apart p q y k)

pub next-ptr : (t : ℕ) → t % 4096 ≡ 0 → t < 2 ^ 56 → next (ptr t) ≡ t
next-ptr t h s = omega arith

-- A new role for an unused page does not disturb the entries that are there.
pub RootEntry-grow :
    {role : ℕ → Role} (t x e : ℕ) (r : Role)
    → role t ≡ unused
    → RootEntry role x e
    → RootEntry (update role t r) x e
RootEntry-grow t x e r fresh (inl invalid) = inl invalid
RootEntry-grow t x e r fresh (inr (u, is_mid, is_ptr)) = inr (u, ground arith, is_ptr)

pub MidEntry-grow :
    {role : ℕ → Role} (t x y e : ℕ) (r : Role)
    → role t ≡ unused
    → MidEntry role x y e
    → MidEntry (update role t r) x y e
MidEntry-grow t x y e r fresh (inl invalid) = inl invalid
MidEntry-grow t x y e r fresh (inr (inl leaf)) = inr (inl leaf)
MidEntry-grow t x y e r fresh (inr (inr (u, is_low, is_ptr))) = inr (inr (u, ground arith, is_ptr))

module _ {m : Mem} {root slots : ℕ} {role : ℕ → Role} (tree : IsTree m root slots role) where
  pub root_page : (root % 4096 ≡ 0) × (root < 2 ^ 56)
  root_page = tree.is_page root (λ e. cc (tree.root_role))

  pub mid_page : (u x : ℕ) → role u ≡ mid x → (u % 4096 ≡ 0) × (u ≢ root)
  mid_page u x h = ((tree.is_page u (λ e. cc)).0, λ e. ground (arith, tree.root_role))

  pub low_page : (u x y : ℕ) → role u ≡ low x y → (u % 4096 ≡ 0) × (u ≢ root)
  low_page u x y h = ((tree.is_page u (λ e. cc)).0, λ e. ground (arith, tree.root_role))

  module _ (m' : Mem) (x y z : ℕ) (hy : y < 512) where
    lookup1-agree :
        (u : ℕ)
        → role u ≡ mid x
        → m' (u + y * 8) ≡ m (u + y * 8)
        → ((v : ℕ) → role v ≡ low x y → m' (v + z * 8) ≡ m (v + z * 8))
        → lookup1 m' u y z ≡ lookup1 m u y z
    lookup1-agree u is_mid same_mid same_low = from (tree.mid_entry u x y is_mid hy)
      where
        from : MidEntry role x y (m (u + y * 8)) → lookup1 m' u y z ≡ lookup1 m u y z
        from (inl invalid) = ground arith
        from (inr (inl (valid, leaf))) = ground arith
        from (inr (inr (v, is_low, is_ptr))) =
            let page = tree.is_page v (λ e. cc) in
            ground (arith, next-ptr v page.0 page.1, same_low v is_low)

    -- Two memories that agree on the entries for (x, y, z) in all tables of the tree's roles have
    -- the same mapping there.
    pub lookup2-agree :
        x < slots
        → m' (root + x * 8) ≡ m (root + x * 8)
        → ((u : ℕ) → role u ≡ mid x → m' (u + y * 8) ≡ m (u + y * 8))
        → ((v : ℕ) → role v ≡ low x y → m' (v + z * 8) ≡ m (v + z * 8))
        → lookup2 m' root x y z ≡ lookup2 m root x y z
    lookup2-agree hx same_root same_mid same_low = from (tree.root_entry x hx)
      where
        from : RootEntry role x (m (root + x * 8)) → lookup2 m' root x y z ≡ lookup2 m root x y z
        from (inl invalid) = ground arith
        from (inr (u, is_mid, is_ptr)) =
            let page = tree.is_page u (λ e. cc) in
            ground
              (arith, next-ptr u page.0 page.1, lookup1-agree u is_mid (same_mid u is_mid) same_low)
