-- ===== src/Mmu/Boot/View/Leaves.antt =====
-- What `maprange` and `mapblock` do to the view of the boot-time tables.
use mathlib.Core.Path.{subst}
use front_mangopi_overlay.Mmu.Boot.{Boot, ntables, maprange, mapblock}
use front_mangopi_overlay.Mmu.Boot.State.{IsBoot, HasMid, Unblocked}
use front_mangopi_overlay.Mmu.Boot.Leaf.{vpn2, vpn1, vpn0}
use front_mangopi_overlay.Mmu.Boot.Range.{slot_of, RangeMapped, maprange-RangeMapped}
use front_mangopi_overlay.Mmu.Boot.Blocks.{BlocksMapped, BlockRoom, mapblock-BlocksMapped}
use front_mangopi_overlay.Mmu.Pte.Fields.{IsAttr}
use front_mangopi_overlay.Mmu.Tree.{Role}
use front_mangopi_overlay.Base.{
  ◌-◌, ◌∙◌, sym, ap, ℕ, ◌+◌, ◌*◌, ◌/◌, ◌%◌, ◌^◌, ◌<◌, ◌≤◌, ◌≡◌, ◌≢◌, ◌⊎◌, inl, inr, Option, arith,
  refl, true, Bool-cases,
}
use front_mangopi_overlay.Mmu.Boot.View.{
  View, view, in_range, map_pages, in_blocks, map_blocks, Mapped, map_pages-pagewise,
  map_blocks-pagewise,
}

-- The page at an offset of a range under one root slot.
module _ (va size i : ℕ) (one_slot : (va + size - 1) / 2 ^ 30 ≡ va / 2 ^ 30) (lt : i < size) where
  page_at : i % 4096 ≡ 0 → (va + i) / 2 ^ 12 % 2 ^ 18 ≡ va / 2 ^ 12 % 2 ^ 18 + i / 4096
  page_at e = let same = slot_of va size i one_slot lt in omega arith

  block_at : i % 2 ^ 21 ≡ 0 → vpn1 (va + i) ≡ vpn1 va + i / 2 ^ 21
  block_at e = let same = slot_of va size i one_slot lt in omega arith

  in_range_at :
      (w s r : ℕ)
      → i % 4096 ≡ 0
      → w ≡ vpn2 (va + i)
      → s ≡ vpn1 (va + i)
      → r ≡ vpn0 (va + i)
      → in_range va size w s r ≡ true
  unfolding in_range
  in_range_at w s r e e2 e1 e0 = ground (arith, facts)
    where
      facts :
          (w ≡ vpn2 va)
          × (va / 2 ^ 12 % 2 ^ 18 ≤ s * 512 + r)
          × (s * 512 + r - va / 2 ^ 12 % 2 ^ 18 < (size + 4095) / 2 ^ 12)
      facts =
          let p = page_at e in
          let same = slot_of va size i one_slot lt in
          let q : s * 512 + r ≡ (va + i) / 2 ^ 12 % 2 ^ 18 = omega arith in
          (e2 ∙ ap (λ t. t % 512) same, omega arith, omega arith)

  in_blocks_at :
      (w s : ℕ)
      → i % 2 ^ 21 ≡ 0
      → w ≡ vpn2 (va + i)
      → s ≡ vpn1 (va + i)
      → in_blocks va size w s ≡ true
  unfolding in_blocks
  in_blocks_at w s e e2 e1 = ground (arith, facts)
    where
      facts : (w ≡ vpn2 va) × (vpn1 va ≤ s) × (s - vpn1 va < (size + (2 ^ 21 - 1)) / 2 ^ 21)
      facts =
          let p = block_at e in
          let same = slot_of va size i one_slot lt in
          (e2 ∙ ap (λ t. t % 512) same, omega arith, omega arith)

module _ (va size : ℕ) (one_slot : (va + size - 1) / 2 ^ 30 ≡ va / 2 ^ 30) where
  in_range_bounds :
      (w s r : ℕ)
      → in_range va size w s r ≡ true
      → (w ≡ vpn2 va)
        × (va / 2 ^ 12 % 2 ^ 18 ≤ s * 512 + r)
        × (s * 512 + r - va / 2 ^ 12 % 2 ^ 18 < (size + 4095) / 2 ^ 12)
  unfolding in_range
  in_range_bounds w s r h = ground (arith, h)

  page_of_offset :
      (k w s r : ℕ)
      → s < 512
      → r < 512
      → w ≡ vpn2 va
      → s * 512 + r ≡ va / 2 ^ 12 % 2 ^ 18 + k
      → k < (size + 4095) / 2 ^ 12
      → (k * 4096 < size)
        × (vpn2 (va + k * 4096) ≡ w)
        × (vpn1 (va + k * 4096) ≡ s)
        × (vpn0 (va + k * 4096) ≡ r)
  page_of_offset k w s r hs hr hw e lt =
      let inside : k * 4096 < size = omega arith in
      let p = page_at va size (k * 4096) one_slot inside (omega arith) in
      let same = slot_of va size (k * 4096) one_slot inside in
      (inside, ap (λ t. t % 512) same ∙ sym hw, omega arith, omega arith)

  block_of_offset :
      (k w s : ℕ)
      → w ≡ vpn2 va
      → s ≡ vpn1 va + k
      → k < (size + (2 ^ 21 - 1)) / 2 ^ 21
      → (k * 2 ^ 21 < size) × (vpn2 (va + k * 2 ^ 21) ≡ w) × (vpn1 (va + k * 2 ^ 21) ≡ s)
  block_of_offset k w s hw e lt =
      let inside : k * 2 ^ 21 < size = omega arith in
      let p = block_at va size (k * 2 ^ 21) one_slot inside (omega arith) in
      let same = slot_of va size (k * 2 ^ 21) one_slot inside in
      (inside, ap (λ t. t % 512) same ∙ sym hw, omega arith)

  -- A page of the range, by its offset.
  at_in_range :
      (w s r : ℕ)
      → s < 512
      → r < 512
      → in_range va size w s r ≡ true
      → let i = (s * 512 + r - va / 2 ^ 12 % 2 ^ 18) * 4096 in
        (i < size) × (vpn2 (va + i) ≡ w) × (vpn1 (va + i) ≡ s) × (vpn0 (va + i) ≡ r)
  unfolding in_range
  at_in_range w s r hs hr h =
      let (hw, lo, hi) = in_range_bounds w s r h in
      page_of_offset (s * 512 + r - va / 2 ^ 12 % 2 ^ 18) w s r hs hr hw (omega arith) hi

  in_blocks_bounds :
      (w s : ℕ)
      → in_blocks va size w s ≡ true
      → (w ≡ vpn2 va) × (vpn1 va ≤ s) × (s - vpn1 va < (size + (2 ^ 21 - 1)) / 2 ^ 21)
  unfolding in_blocks
  in_blocks_bounds w s h = ground (arith, h)

  at_in_blocks :
      (w s : ℕ)
      → s < 512
      → in_blocks va size w s ≡ true
      → let i = (s - vpn1 va) * 2 ^ 21 in (i < size) × (vpn2 (va + i) ≡ w) × (vpn1 (va + i) ≡ s)
  unfolding in_blocks
  at_in_blocks w s hs h =
      let (hw, lo, hi) = in_blocks_bounds w s h in
      block_of_offset (s - vpn1 va) w s hw (omega arith) hi

reindex : (f : View) {w s r w' s' r' : ℕ} → w' ≡ w → s' ≡ s → r' ≡ r → f w s r ≡ f w' s' r'
reindex f e2 e1 e0 = cc

maprange-views :
    (va pa size attr most : ℕ) {b : Boot} {role : ℕ → Role} {result : Option Boot}
    → (va + size - 1) / 2 ^ 30 ≡ va / 2 ^ 30
    → (f : RangeMapped va pa size attr 0 most b role result) → (w s r : ℕ) → w < 512
    → s < 512
    → r < 512
    → view f.after w s r ≡ map_pages va pa size attr (view b) w s r
unfolding map_pages
maprange-views va pa size attr most {b} slot f w s r hw hs hr =
    elim (Bool-cases (in_range va size w s r)) [
      | inl h ↦
          let (lt, e2, e1, e0) = at_in_range va size slot w s r hs hr h in
          rw h (
            reindex (view f.after) e2 e1 e0
            ∙ f.maps ((s * 512 + r - va / 2 ^ 12 % 2 ^ 18) * 4096) (omega arith) lt (omega arith))
      | inr h ↦ rw h (
          f.others w s r hw hs hr (λ i lo hi e (e2, e1, e0).
            absurd (ground (arith, in_range_at va size i slot hi w s r e e2 e1 e0, h))))
    ]

mapblock-views :
    (va pa size attr most : ℕ) {b : Boot} {role : ℕ → Role} {result : Option Boot}
    → (va + size - 1) / 2 ^ 30 ≡ va / 2 ^ 30
    → (f : BlocksMapped va pa size attr 0 most b role result) → (w s r : ℕ) → w < 512
    → s < 512
    → r < 512
    → view f.after w s r ≡ map_blocks va pa size attr (view b) w s r
unfolding map_blocks
mapblock-views va pa size attr most {b} slot f w s r hw hs hr =
    elim (Bool-cases (in_blocks va size w s)) [
      | inl h ↦
          let (lt, e2, e1) = at_in_blocks va size slot w s hs h in
          rw h (
            reindex (view f.after) e2 e1 refl
            ∙ f.maps ((s - vpn1 va) * 2 ^ 21) r (omega arith) lt (omega arith) hr)
      | inr h ↦ rw h (
          f.others w s r hw hs hr (λ i lo hi e (e2, e1).
            absurd (ground (arith, in_blocks_at va size i slot hi w s e e2 e1, h))))
    ]

-- `maprange` as a change of the view.
pub maprange-Mapped :
    (va pa size attr : ℕ) (blocks : ℕ → Type 0) (most : ℕ) {b : Boot} {role : ℕ → Role}
    → attr % 2 ≡ 1
    → va + size < 2 ^ 64 + 1
    → pa + size < 2 ^ 64 + 1
    → (va + size - 1) / 2 ^ 30 ≡ va / 2 ^ 30
    → IsBoot b role
    → Unblocked b role (vpn2 va)
    → 0 < size
    → (HasMid b role (vpn2 va) × (b.ntable + 1 + ((va + size - 1) / 2 ^ 21 - va / 2 ^ 21) ≤ most))
      ⊎ (b.ntable + 2 + ((va + size - 1) / 2 ^ 21 - va / 2 ^ 21) ≤ most)
    → most ≤ ntables
    → (f : Mapped (map_pages va pa size attr) blocks most b role (maprange va pa size attr b))
      × HasMid f.after f.role' (vpn2 va)
maprange-Mapped va pa size attr blocks most valid vs ps slot is clear pos room few =
    let f = maprange-RangeMapped va pa size attr most valid vs ps slot is clear pos room few in
    (
      record {
        after = f.after;
        role' = f.role';
        ran = f.ran;
        is = f.is;
        pagewise = map_pages-pagewise va pa size attr;
        views = maprange-views va pa size attr most slot f;
        keeps_mid = f.keeps_mid;
        keeps_unblocked = λ w hw ne h. f.keeps_unblocked w hw h;
        count = f.count;
      },
      f.has_mid,
    )

-- `mapblock` as a change of the view.
pub mapblock-Mapped :
    (va pa size attr : ℕ) (blocks : ℕ → Type 0) (most : ℕ) {b : Boot} {role : ℕ → Role}
    → IsAttr attr
    → attr % 2 ≡ 1
    → attr / 2 % 8 ≢ 0
    → va + size < 2 ^ 64 + 1
    → pa + size < 2 ^ 56
    → (va + size - 1) / 2 ^ 30 ≡ va / 2 ^ 30
    → blocks (vpn2 va)
    → IsBoot b role
    → BlockRoom b role (vpn2 va) most
    → most ≤ ntables
    → Mapped (map_blocks va pa size attr) blocks most b role (mapblock va pa size attr b)
mapblock-Mapped va pa size attr blocks most is_attr valid leaf vs ps slot own is room few =
    let f = mapblock-BlocksMapped va pa size attr most is_attr valid leaf vs ps slot is room few in
    record {
      after = f.after;
      role' = f.role';
      ran = f.ran;
      is = f.is;
      pagewise = map_blocks-pagewise va pa size attr;
      views = mapblock-views va pa size attr most slot f;
      keeps_mid = f.keeps_mid;
      keeps_unblocked = λ w hw ne h. f.keeps_unblocked w hw (λ e. ne (subst blocks (sym e) own)) h;
      count = f.count;
    }
