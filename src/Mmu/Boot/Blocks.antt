-- ===== src/Mmu/Boot/Blocks.antt =====
-- The loop of `mapblock` over 2 MB leaves that share a root slot.
use front_mangopi_overlay.Mmu.Boot.{Boot, ntables, mapleaf2m, map_from, mapblock}
use front_mangopi_overlay.Mmu.Boot.State.{IsBoot, HasMid, Unblocked}
use front_mangopi_overlay.Mmu.Boot.Block.{BlockLeaf, mapleaf2m-BlockLeaf}
use front_mangopi_overlay.Mmu.Boot.Leaf.{vpn2, vpn1}
use front_mangopi_overlay.Mmu.Boot.Range.{slot_of}
use front_mangopi_overlay.Mmu.Pte.{papte, pglsz}
use front_mangopi_overlay.Mmu.Pte.Fields.{IsAttr, papte-or}
use front_mangopi_overlay.Mmu.Tree.{lookup2, Role}
use mathlib.Core.Path.{subst}
use native.Mathlib.Decide.{ℕ_discrete, dec_lt}
use front_mangopi_overlay.Base.{
  bit_or, u64, zero, suc, ◌-◌, ◌∙◌, sym, ap, ℕ, ◌+◌, ◌*◌, ◌/◌, ◌%◌, ◌^◌, ◌<◌, ◌≤◌, ◌≡◌, ◌≢◌, ◌⊎◌,
  inl, inr, Option, some, arith, refl,
}

-- What the loop does from offset `o` on.
pub record BlocksMapped (va pa size attr o most : ℕ) (b : Boot) (role : ℕ → Role)
    (result : Option Boot) : Type 0 where
  pub after : Boot
  pub role' : ℕ → Role
  pub ran : result ≡ some after
  pub is : IsBoot after role'
  pub maps :
      (i z : ℕ)
      → o ≤ i
      → i < size
      → i % 2 ^ 21 ≡ 0
      → z < 512
      → lookup2 after.mem after.root (vpn2 (va + i)) (vpn1 (va + i)) z
        ≡ some (bit_or (papte (pa + i)) attr)
  pub others :
      (w s r : ℕ)
      → w < 512
      → s < 512
      → r < 512
      → ((i : ℕ)
          → o ≤ i
          → i < size
          → i % 2 ^ 21 ≡ 0
          → ¬ ((w ≡ vpn2 (va + i)) × (s ≡ vpn1 (va + i))))
      → lookup2 after.mem after.root w s r ≡ lookup2 b.mem b.root w s r
  pub keeps_mid : (w : ℕ) → w < 512 → HasMid b role w → HasMid after role' w
  pub keeps_unblocked :
      (w : ℕ) → w < 512 → w ≢ vpn2 va → Unblocked b role w → Unblocked after role' w
  pub count : after.ntable ≤ most

-- Room for the one table that the loop can need.
abbrev pub BlockRoom : Boot → (ℕ → Role) → (x most : ℕ) → Type 0
BlockRoom b role x most = (HasMid b role x × (b.ntable ≤ most)) ⊎ (b.ntable + 1 ≤ most)

BlockRoom-few :
    (x most : ℕ) (b : Boot) (role : ℕ → Role) → BlockRoom b role x most → b.ntable ≤ most
BlockRoom-few x most b role (inl (has, few)) = few
BlockRoom-few x most b role (inr few) = omega arith

BlockRoom-leaf :
    (x most : ℕ) (b : Boot) (role : ℕ → Role)
    → BlockRoom b role x most
    → most ≤ ntables
    → HasMid b role x ⊎ (b.ntable < ntables)
BlockRoom-leaf x most b role (inl (has, few)) le = inl has
BlockRoom-leaf x most b role (inr few) le = inr (omega arith)

BlockRoom-next :
    (v e most : ℕ) {b : Boot} {role : ℕ → Role} {result : Option Boot}
    → BlockRoom b role (vpn2 v) most
    → (f : BlockLeaf b role v e result) → BlockRoom f.after f.role' (vpn2 v) most
BlockRoom-next v e most (inl (has, few)) f = inl (f.has_mid, omega (arith, f.no_table has))
BlockRoom-next v e most (inr few) f = inl (f.has_mid, omega (arith, f.count))

module _ (va pa size attr : ℕ) (is_attr : IsAttr attr) (valid : attr % 2 ≡ 1)
    (leaf : attr / 2 % 8 ≢ 0) (in_space : va + size < 2 ^ 64 + 1) (pa_in_space : pa + size < 2 ^ 56)
    (one_slot : (va + size - 1) / 2 ^ 30 ≡ va / 2 ^ 30) where
  abbrev loop : ℕ → ℕ → Boot → Option Boot
  loop = map_from (λ v p. mapleaf2m v p attr) (2 ^ 21) va pa size

  loop-done : (fuel o : ℕ) (b : Boot) → size ≤ o → loop (suc fuel) o b ≡ some b
  unfolding map_from
  loop-done fuel o b h = ground arith

  loop-step :
      (fuel o : ℕ) (b c : Boot)
      → o < size
      → mapleaf2m (va + o) (pa + o) attr b ≡ some c
      → loop (suc fuel) o b ≡ loop fuel (o + 2 ^ 21) c
  unfolding map_from
  loop-step fuel o b c h ran =
      let v : u64 (va + o) ≡ va + o = omega arith in
      let p : u64 (pa + o) ≡ pa + o = omega arith in ground arith

  entry_valid : (o : ℕ) → o < size → bit_or (papte (pa + o)) attr % 2 ≡ 1
  entry_valid o lt = omega (arith, papte-or (pa + o) attr (omega arith) is_attr)

  entry_leaf : (o : ℕ) → o < size → bit_or (papte (pa + o)) attr / 2 % 8 ≢ 0
  entry_leaf o lt = omega (arith, papte-or (pa + o) attr (omega arith) is_attr)

  none_left :
      (o most : ℕ) {b : Boot} {role : ℕ → Role} (result : Option Boot)
      → size ≤ o
      → b.ntable ≤ most
      → IsBoot b role
      → result ≡ some b
      → BlocksMapped va pa size attr o most b role result
  none_left o most {b} {role} result h few is ran = record {
    after = b;
    role' = role;
    ran = ran;
    is = is;
    maps = λ i z lo hi e hz. absurd (omega arith);
    others = λ w s r hw hs hr none_of. refl;
    keeps_mid = λ w hw h. h;
    keeps_unblocked = λ w hw ne h. h;
    count = few;
  }

  -- Leaves at different offsets have different indices.
  different :
      (o i : ℕ) → o < i → i < size → o % 2 ^ 21 ≡ 0 → i % 2 ^ 21 ≡ 0 → vpn1 (va + o) ≢ vpn1 (va + i)
  different o i lt hi eo ei same =
      let same_slot =
        slot_of va size o one_slot (omega arith) ∙ sym (slot_of va size i one_slot hi) in
      omega arith

  slot_same : (o : ℕ) → o < size → vpn2 (va + o) ≡ vpn2 va
  slot_same o lt = ap (λ t. t % 512) (slot_of va size o one_slot lt)

  one_more :
      (o most : ℕ) {b : Boot} {role : ℕ → Role} (first rest : Option Boot)
      → o < size
      → o % 2 ^ 21 ≡ 0
      → (f : BlockLeaf b role (va + o) (bit_or (papte (pa + o)) attr) first)
      → BlocksMapped va pa size attr (o + 2 ^ 21) most f.after f.role' rest
      → BlocksMapped va pa size attr o most b role rest
  one_more o most first rest lt e f g = record {
    after = g.after;
    role' = g.role';
    ran = g.ran;
    is = g.is;
    maps = λ i z lo hi ei hz. elim (ℕ_discrete i o) [
      | yes same ↦ rw same (
          g.others (vpn2 (va + o)) (vpn1 (va + o)) z (omega arith) (omega arith) hz
            (λ j below above ej (e2, e1). different o j (omega arith) above e ej e1)
          ∙ f.maps z)
      | no ne ↦ g.maps i z (omega arith) hi ei hz
    ];
    others = λ w s r hw hs hr none_of.
        g.others w s r hw hs hr (λ i lo hi ei. none_of i (omega arith) hi ei)
        ∙ f.others w s r hw hs hr (none_of o (omega arith) lt e);
    keeps_mid = λ w hw h. g.keeps_mid w hw (f.keeps_mid w hw h);
    keeps_unblocked = λ w hw ne h.
        g.keeps_unblocked w hw ne (f.keeps_unblocked w hw (λ h. ne (h ∙ slot_same o lt)) h);
    count = g.count;
  }

  next_block :
      (o most : ℕ) {b : Boot} {role : ℕ → Role}
      → IsBoot b role
      → BlockRoom b role (vpn2 (va + o)) most
      → most ≤ ntables
      → o < size
      → BlockLeaf b role
          (va + o)
          (bit_or (papte (pa + o)) attr)
          (mapleaf2m (va + o) (pa + o) attr b)
  next_block o most {b} {role} is room few lt =
      mapleaf2m-BlockLeaf is (va + o) (pa + o) attr (entry_valid o lt) (entry_leaf o lt)
        (BlockRoom-leaf (vpn2 (va + o)) most b role room few)

  from_block :
      (n fuel o most : ℕ) {b : Boot} {role : ℕ → Role}
      → IsBoot b role
      → o % 2 ^ 21 ≡ 0
      → BlockRoom b role (vpn2 va) most
      → most ≤ ntables
      → size ≤ o + n * 2 ^ 21
      → n < fuel
      → BlocksMapped va pa size attr o most b role (loop fuel o b)
  from_block n zero o most is e room cap_le rounds enough = absurd (omega arith)
  from_block zero (suc fuel) o most {b} {role} is e room cap_le rounds enough =
      none_left o most (loop (suc fuel) o b) (omega arith)
        (BlockRoom-few (vpn2 va) most b role room) is (loop-done fuel o b (omega arith))
  from_block (suc n) (suc fuel) o most {b} {role} is e room cap_le rounds enough =
      elim (dec_lt o size) [
        | no past ↦
            none_left o most (loop (suc fuel) o b) (omega arith)
              (BlockRoom-few (vpn2 va) most b role room) is (loop-done fuel o b (omega arith))
        | yes lt ↦
            let room' : BlockRoom b role (vpn2 (va + o)) most =
              subst (λ x. BlockRoom b role x most) (sym (slot_same o lt)) room in
            let f = next_block o most is room' cap_le lt in
            rw (loop-step fuel o b f.after lt f.ran) (
              one_more o most (mapleaf2m (va + o) (pa + o) attr b) (loop fuel (o + 2 ^ 21) f.after)
                lt e f
                (from_block n fuel (o + 2 ^ 21) most f.is (omega arith)
                  (subst (λ x. BlockRoom f.after f.role' x most) (slot_same o lt)
                    (BlockRoom-next (va + o) (bit_or (papte (pa + o)) attr) most room' f))
                  cap_le (omega arith) (omega arith)))
      ]

-- `mapblock` of up to 1 GB that lies under one root slot, from tables in order: it returns if there is
-- a table left or the slot has its level-1 table. Then each 2 MB of the range is mapped by a leaf for
-- the 2 MB at the same offset of `pa` with the attributes `attr`, no other page's mapping has
-- changed, and the tables are still in order.
pub mapblock-BlocksMapped :
    (va pa size attr most : ℕ) {b : Boot} {role : ℕ → Role}
    → IsAttr attr
    → attr % 2 ≡ 1
    → attr / 2 % 8 ≢ 0
    → va + size < 2 ^ 64 + 1
    → pa + size < 2 ^ 56
    → (va + size - 1) / 2 ^ 30 ≡ va / 2 ^ 30
    → IsBoot b role
    → BlockRoom b role (vpn2 va) most
    → most ≤ ntables
    → BlocksMapped va pa size attr 0 most b role (mapblock va pa size attr b)
unfolding mapblock pglsz
mapblock-BlocksMapped va pa size attr most is_attr valid leaf vs ps slot is room cap_le =
    from_block va pa size attr is_attr valid leaf vs ps slot (size / 2 ^ 21 + 1) (size / 2 ^ 21 + 2)
      0 most is refl room cap_le (omega arith) (omega arith)
