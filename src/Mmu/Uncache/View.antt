-- ===== src/Mmu/Uncache/View.antt =====
-- What the hardware makes of the kernel's tables: the page and the attributes of each address.
use front_mangopi_overlay.Mmu.Uncache.Leaf.{frame, attributes}
use front_mangopi_overlay.Mmu.Tree.{Mem, next, Role, mid, low, RootEntry, MidEntry, IsTree}
use front_mangopi_overlay.Mmu.Tree.Agree.{next-ptr}
use front_mangopi_overlay.Base.{
  ℕ, ◌+◌, ◌*◌, ◌/◌, ◌%◌, ◌<◌, ◌≡◌, inl, inr, arith, ◌==◌, if◌then◌else◌, Option, none, some,
}

-- The page number and the attributes of a level-0 entry.
abbrev pub seen : ℕ → Option (ℕ × (ℕ × ℕ))
seen e = if e % 2 == 0 then none else some (frame e, attributes e)

-- By table and indices. A leaf of the level-1 table maps 512 pages in a row.
abbrev pub page0 : Mem → (table z : ℕ) → Option (ℕ × (ℕ × ℕ))
page0 m t z = seen (m (t + z * 8))

abbrev pub page1 : Mem → (table y z : ℕ) → Option (ℕ × (ℕ × ℕ))
page1 m t y z =
    let e = m (t + y * 8) in
    if e % 2 == 0
    then none
    else if e / 2 % 8 == 0
    then page0 m (next e) z
    else some (frame e / 512 * 512 + z, attributes e)

-- The root holds no leaf of 1 GB.
abbrev pub page2 : Mem → (root x y z : ℕ) → Option (ℕ × (ℕ × ℕ))
page2 m t x y z = let e = m (t + x * 8) in if e % 2 == 0 then none else page1 m (next e) y z

module _ {m : Mem} {root slots : ℕ} {role : ℕ → Role} (tree : IsTree m root slots role) (m' : Mem)
    (x y z : ℕ) (hy : y < 512) where
  page1-agree :
      (u : ℕ)
      → role u ≡ mid x
      → m' (u + y * 8) ≡ m (u + y * 8)
      → ((v : ℕ) → role v ≡ low x y → m' (v + z * 8) ≡ m (v + z * 8))
      → page1 m' u y z ≡ page1 m u y z
  page1-agree u is_mid same_mid same_low = from (tree.mid_entry u x y is_mid hy)
    where
      from : MidEntry role x y (m (u + y * 8)) → page1 m' u y z ≡ page1 m u y z
      from (inl invalid) = ground arith
      from (inr (inl (valid, leaf))) = ground arith
      from (inr (inr (v, is_low, is_ptr))) =
          let page = tree.is_page v (λ e. cc) in
          ground (arith, next-ptr v page.0 page.1, same_low v is_low)

  -- Two memories that agree on the entries for (x, y, z) map them alike.
  pub page2-agree :
      x < slots
      → m' (root + x * 8) ≡ m (root + x * 8)
      → ((u : ℕ) → role u ≡ mid x → m' (u + y * 8) ≡ m (u + y * 8))
      → ((v : ℕ) → role v ≡ low x y → m' (v + z * 8) ≡ m (v + z * 8))
      → page2 m' root x y z ≡ page2 m root x y z
  page2-agree hx same_root same_mid same_low = from (tree.root_entry x hx)
    where
      from : RootEntry role x (m (root + x * 8)) → page2 m' root x y z ≡ page2 m root x y z
      from (inl invalid) = ground arith
      from (inr (u, is_mid, is_ptr)) =
          let page = tree.is_page u (λ e. cc) in
          ground
            (arith, next-ptr u page.0 page.1, page1-agree u is_mid (same_mid u is_mid) same_low)
