-- ===== src/Mmu/Boot/Range.antt =====
-- `maprange` over pages that share a root slot.
use front_mangopi_overlay.Mmu.Boot.{Boot, ntables, mapleaf, map_from, maprange}
use front_mangopi_overlay.Mmu.Boot.State.{IsBoot, HasMid, HasLow, Unblocked}
use front_mangopi_overlay.Mmu.Boot.Leaf.{LeafMapped, mapleaf-LeafMapped, vpn2, vpn1, vpn0, Room}
use front_mangopi_overlay.Mmu.Pte.{papte}
use front_mangopi_overlay.Base.Bits.{bit_or-odd}
use front_mangopi_overlay.Base.{u64, bit_or, zero, suc, ◌-◌}
use front_mangopi_overlay.Mmu.Tree.{lookup2, Role}
use mathlib.Core.Path.{subst}
use native.Mathlib.Decide.{ℕ_discrete, dec_lt}
use front_mangopi_overlay.Base.{
  ◌∙◌, sym, ap, ℕ, ◌+◌, ◌*◌, ◌/◌, ◌%◌, ◌^◌, ◌<◌, ◌≤◌, ◌≡◌, ◌≢◌, ◌⊎◌, inl, inr, Option, some, arith,
  refl,
}

-- What the loop does from offset `o` on.
pub record RangeMapped (va pa size attr o most : ℕ) (b : Boot) (role : ℕ → Role)
    (result : Option Boot) : Type 0 where
  pub after : Boot
  pub role' : ℕ → Role
  pub ran : result ≡ some after
  pub is : IsBoot after role'
  pub maps :
      (i : ℕ)
      → o ≤ i
      → i < size
      → i % 4096 ≡ 0
      → lookup2 after.mem after.root (vpn2 (va + i)) (vpn1 (va + i)) (vpn0 (va + i))
        ≡ some (bit_or (papte (pa + i)) attr)
  pub others :
      (w s r : ℕ)
      → w < 512
      → s < 512
      → r < 512
      → ((i : ℕ)
          → o ≤ i
          → i < size
          → i % 4096 ≡ 0
          → ¬ ((w ≡ vpn2 (va + i)) × (s ≡ vpn1 (va + i)) × (r ≡ vpn0 (va + i))))
      → lookup2 after.mem after.root w s r ≡ lookup2 b.mem b.root w s r
  pub keeps_mid : (w : ℕ) → w < 512 → HasMid b role w → HasMid after role' w
  pub keeps_unblocked : (w : ℕ) → w < 512 → Unblocked b role w → Unblocked after role' w
  pub count : after.ntable ≤ most
  pub has_mid : HasMid after role' (vpn2 va)

-- The page number from its three parts.
page_parts : (p : ℕ) → p ≡ p / 2 ^ 18 * 2 ^ 18 + p / 2 ^ 9 % 512 * 2 ^ 9 + p % 512
page_parts p = omega arith

page_of :
    (v w : ℕ)
    → v / 2 ^ 30 ≡ w / 2 ^ 30
    → vpn1 v ≡ vpn1 w
    → vpn0 v ≡ vpn0 w
    → v / 2 ^ 12 ≡ w / 2 ^ 12
page_of v w e2 e1 e0 =
    page_parts (v / 2 ^ 12)
    ∙ ground (arith, high v, high w, middle v, middle w)
    ∙ sym (page_parts (w / 2 ^ 12))
  where
    high : (a : ℕ) → a / 2 ^ 12 / 2 ^ 18 ≡ a / 2 ^ 30
    high a = omega arith

    middle : (a : ℕ) → a / 2 ^ 12 / 2 ^ 9 ≡ a / 2 ^ 21
    middle a = omega arith

-- An offset that keeps inside the range stays in the root slot.
pub slot_of :
    (va size o : ℕ)
    → (va + size - 1) / 2 ^ 30 ≡ va / 2 ^ 30
    → o < size
    → (va + o) / 2 ^ 30 ≡ va / 2 ^ 30
slot_of va size o e h = omega arith

offset_of :
    (va o i : ℕ) → o % 4096 ≡ 0 → i % 4096 ≡ 0 → (va + o) / 2 ^ 12 ≡ (va + i) / 2 ^ 12 → o ≡ i
offset_of va o i eo ei e = omega arith

module _ (va pa size attr : ℕ) (valid : attr % 2 ≡ 1) (in_space : va + size < 2 ^ 64 + 1)
    (pa_in_space : pa + size < 2 ^ 64 + 1) (one_slot : (va + size - 1) / 2 ^ 30 ≡ va / 2 ^ 30) where
  abbrev loop : ℕ → ℕ → Boot → Option Boot
  loop = map_from (λ v p. mapleaf v p attr) 4096 va pa size

  loop-done : (fuel o : ℕ) (b : Boot) → size ≤ o → loop (suc fuel) o b ≡ some b
  unfolding map_from
  loop-done fuel o b h = ground arith

  loop-step :
      (fuel o : ℕ) (b c : Boot)
      → o < size
      → mapleaf (va + o) (pa + o) attr b ≡ some c
      → loop (suc fuel) o b ≡ loop fuel (o + 4096) c
  unfolding map_from
  loop-step fuel o b c h ran =
      let v : u64 (va + o) ≡ va + o = omega arith in
      let p : u64 (pa + o) ≡ pa + o = omega arith in ground arith

  none_left :
      (o most : ℕ) {b : Boot} {role : ℕ → Role} (result : Option Boot)
      → size ≤ o
      → b.ntable ≤ most
      → HasMid b role (vpn2 va)
      → IsBoot b role
      → result ≡ some b
      → RangeMapped va pa size attr o most b role result
  none_left o most {b} {role} result h few has is ran = record {
    after = b;
    role' = role;
    ran = ran;
    is = is;
    maps = λ i lo hi e. absurd (omega arith);
    others = λ w s r hw hs hr none_of. refl;
    keeps_mid = λ w hw h. h;
    keeps_unblocked = λ w hw h. h;
    count = few;
    has_mid = has;
  }

  -- Pages at different offsets have different indices.
  different :
      (o i : ℕ)
      → o < i
      → i < size
      → o % 4096 ≡ 0
      → i % 4096 ≡ 0
      → ¬ (
          (vpn2 (va + o) ≡ vpn2 (va + i))
          × (vpn1 (va + o) ≡ vpn1 (va + i))
          × (vpn0 (va + o) ≡ vpn0 (va + i)))
  different o i lt hi eo ei (e2, e1, e0) =
      let same_slot =
        slot_of va size o one_slot (omega arith) ∙ sym (slot_of va size i one_slot hi) in
      let same = offset_of va o i eo ei (page_of (va + o) (va + i) same_slot e1 e0) in
      absurd (omega arith)

  one_more :
      (o most : ℕ) {b : Boot} {role : ℕ → Role} (first rest : Option Boot)
      → o < size
      → o % 4096 ≡ 0
      → (f : LeafMapped b role (va + o) (bit_or (papte (pa + o)) attr) first)
      → RangeMapped va pa size attr (o + 4096) most f.after f.role' rest
      → RangeMapped va pa size attr o most b role rest
  one_more o most first rest lt e f g = record {
    after = g.after;
    role' = g.role';
    ran = g.ran;
    is = g.is;
    maps = λ i lo hi ei. elim (ℕ_discrete i o) [
      | yes same ↦ rw same (
          g.others (vpn2 (va + o)) (vpn1 (va + o)) (vpn0 (va + o)) (omega arith) (omega arith)
            (omega arith) (λ j below above ej. different o j (omega arith) above e ej)
          ∙ f.maps)
      | no ne ↦ g.maps i (omega arith) hi ei
    ];
    others = λ w s r hw hs hr none_of.
        g.others w s r hw hs hr (λ i lo hi ei. none_of i (omega arith) hi ei)
        ∙ f.others w s r hw hs hr (none_of o (omega arith) lt e);
    keeps_mid = λ w hw h. g.keeps_mid w hw (f.keeps_mid w hw h);
    keeps_unblocked = λ w hw h. g.keeps_unblocked w hw (f.keeps_unblocked w hw h);
    count = g.count;
    has_mid = g.has_mid;
  }

  -- The tables that the rest of the loop can need after a page at `p`: one for each 2 MB that is
  -- entered.
  abbrev budget : ℕ → ℕ
  budget p = (va + size - 1) / 2 ^ 21 - (va + p) / 2 ^ 21

  -- The next page needs a table only if it enters another 2 MB.
  page-Room :
      (o : ℕ) (b : Boot) (role : ℕ → Role)
      → HasLow b role (vpn2 va) (vpn1 (va + o))
      → b.ntable + budget o < ntables + 1
      → o + 4096 < size
      → Room b role (va + (o + 4096))
  page-Room o b role has room lt =
      elim (ℕ_discrete ((va + o) / 2 ^ 21) ((va + (o + 4096)) / 2 ^ 21)) [
        | yes same ↦ inl (
            rw (slot_of va size (o + 4096) one_slot lt)
              (subst (λ t. HasLow b role (vpn2 va) (t % 512)) same has))
        | no ne ↦
            inr
              (inl (rw (slot_of va size (o + 4096) one_slot lt) (has.0, has.2, has.3), omega arith))
      ]

  page_count :
      (o most : ℕ) {b : Boot} {role : ℕ → Role} {e : ℕ} {result : Option Boot}
      → HasLow b role (vpn2 va) (vpn1 (va + o))
      → b.ntable + budget o ≤ most
      → o + 4096 < size
      → (f : LeafMapped b role (va + (o + 4096)) e result)
      → f.after.ntable + budget (o + 4096) ≤ most
  page_count o most {b} {role} has room lt f =
      elim (ℕ_discrete ((va + o) / 2 ^ 21) ((va + (o + 4096)) / 2 ^ 21)) [
        | yes same ↦
            let low : HasLow b role (vpn2 (va + (o + 4096))) (vpn1 (va + (o + 4096))) =
              rw (slot_of va size (o + 4096) one_slot lt)
                (subst (λ t. HasLow b role (vpn2 va) (t % 512)) same has) in
            omega (arith, f.no_table low)
        | no ne ↦
            let mid_there : HasMid b role (vpn2 (va + (o + 4096))) =
              rw (slot_of va size (o + 4096) one_slot lt) (has.0, has.2, has.3) in
            fewer (f.one_table mid_there) ne
      ]
    where
      fewer :
          f.after.ntable ≤ b.ntable + 1
          → (va + o) / 2 ^ 21 ≢ (va + (o + 4096)) / 2 ^ 21
          → f.after.ntable + budget (o + 4096) ≤ most
      fewer c ne = omega arith

  module _ (o : ℕ) {b : Boot} {role : ℕ → Role} (is : IsBoot b role)
      (clear : Unblocked b role (vpn2 va)) (lt : o < size) where
    same_vpn2 : vpn2 (va + o) ≡ vpn2 va
    same_vpn2 = ap (λ t. t % 512) (slot_of va size o one_slot lt)

    next_leaf :
        Room b role (va + o)
        → LeafMapped b role
            (va + o)
            (bit_or (papte (pa + o)) attr)
            (mapleaf (va + o) (pa + o) attr b)
    next_leaf room =
        mapleaf-LeafMapped is (va + o) (pa + o) attr (bit_or-odd (papte (pa + o)) attr valid)
          (subst (Unblocked b role) (sym same_vpn2) clear) room

    low_after :
        {e : ℕ} {result : Option Boot} (f : LeafMapped b role (va + o) e result)
        → HasLow f.after f.role' (vpn2 va) (vpn1 (va + o))
    low_after f = subst (λ t. HasLow f.after f.role' t (vpn1 (va + o))) same_vpn2 f.has_low

    continue :
        (fuel most : ℕ)
        → o % 4096 ≡ 0
        → (f : LeafMapped b role
            (va + o)
            (bit_or (papte (pa + o)) attr)
            (mapleaf (va + o) (pa + o) attr b))
        → RangeMapped va pa size attr (o + 4096) most f.after f.role' (loop fuel (o + 4096) f.after)
        → RangeMapped va pa size attr o most b role (loop (suc fuel) o b)
    continue fuel most e f rest = rw (loop-step fuel o b f.after lt f.ran) (
        one_more o most (mapleaf (va + o) (pa + o) attr b) (loop fuel (o + 4096) f.after) lt e f
          rest)

  -- The page before offset `o` has its tables; `n` rounds are left.
  from_page :
      (n fuel o most : ℕ) {b : Boot} {role : ℕ → Role}
      → IsBoot b role
      → Unblocked b role (vpn2 va)
      → HasLow b role (vpn2 va) (vpn1 (va + o))
      → o % 4096 ≡ 0
      → b.ntable + budget o ≤ most
      → most ≤ ntables
      → size ≤ (o + 4096) + n * 4096
      → n < fuel
      → RangeMapped va pa size attr (o + 4096) most b role (loop fuel (o + 4096) b)
  from_page n zero o most is clear has e room cap rounds enough = absurd (omega arith)
  from_page zero (suc fuel) o most {b} is clear has e room cap rounds enough =
      none_left (o + 4096) most (loop (suc fuel) (o + 4096) b) (omega arith) (omega arith)
        (has.0, has.2, has.3) is (loop-done fuel (o + 4096) b (omega arith))
  from_page (suc n) (suc fuel) o most {b} {role} is clear has e room cap rounds enough =
      elim (dec_lt (o + 4096) size) [
        | no past ↦
            none_left (o + 4096) most (loop (suc fuel) (o + 4096) b) (omega arith) (omega arith)
              (has.0, has.2, has.3) is (loop-done fuel (o + 4096) b (omega arith))
        | yes lt ↦
            let f = next_leaf (o + 4096) is clear lt (page-Room o b role has (omega arith) lt) in
            continue (o + 4096) is clear lt fuel most (omega arith) f (
              from_page n fuel (o + 4096) most f.is
                (f.keeps_unblocked (vpn2 va) (omega arith) clear)
                (low_after (o + 4096) is clear lt f) (omega arith) (page_count o most has room lt f)
                cap (omega arith) (omega arith))
      ]

  -- The whole loop, given room for the tables of the first page and then for each 2 MB that is
  -- entered.
  from_start :
      (n fuel most : ℕ) {b : Boot} {role : ℕ → Role}
      → IsBoot b role
      → Unblocked b role (vpn2 va)
      → 0 < size
      → (HasMid b role (vpn2 va) × (b.ntable + 1 + budget 0 ≤ most))
        ⊎ (b.ntable + 2 + budget 0 ≤ most)
      → most ≤ ntables
      → size ≤ 4096 + n * 4096
      → n < fuel
      → RangeMapped va pa size attr 0 most b role (loop (suc fuel) 0 b)
  from_start n fuel most {b} {role} is clear pos (inl (has, room)) cap rounds enough =
      let at_start : vpn2 (va + 0) ≡ vpn2 va = ap (λ t. vpn2 t) (omega arith) in
      let has' = subst (HasMid b role) (sym at_start) has in
      let f = next_leaf 0 is clear pos (inr (inl (has', omega arith))) in
      continue 0 is clear pos fuel most refl f (
        from_page n fuel 0 most f.is (f.keeps_unblocked (vpn2 va) (omega arith) clear)
          (low_after 0 is clear pos f) refl (omega (arith, f.one_table has')) cap (omega arith)
          enough)
  from_start n fuel most {b} {role} is clear pos (inr room) cap rounds enough =
      let f = next_leaf 0 is clear pos (inr (inr (omega arith))) in
      continue 0 is clear pos fuel most refl f (
        from_page n fuel 0 most f.is (f.keeps_unblocked (vpn2 va) (omega arith) clear)
          (low_after 0 is clear pos f) refl (omega (arith, f.count)) cap (omega arith) enough)

-- `maprange` of a non-empty range of up to 1 GB that lies under one root slot, from tables in order
-- and with no 2 MB leaf in that slot: it returns if, beside the tables in use, there is room for
-- one table for each 2 MB that the range touches, and one more if the slot has no level-1 table
-- yet. Then each page of the range is mapped by an entry for the page at the same offset of `pa`
-- with the attributes `attr`, no other page's mapping has changed, the tables are still in order,
-- and no more than `most` of them are in use.
pub maprange-RangeMapped :
    (va pa size attr most : ℕ) {b : Boot} {role : ℕ → Role}
    → attr % 2 ≡ 1
    → va + size < 2 ^ 64 + 1
    → pa + size < 2 ^ 64 + 1
    → (va + size - 1) / 2 ^ 30 ≡ va / 2 ^ 30
    → IsBoot b role
    → Unblocked b role (vpn2 va)
    → 0 < size
    → (HasMid b role (vpn2 va) × (b.ntable + 1 + ((va + size - 1) / 2 ^ 21 - va / 2 ^ 21) ≤ most))
      ⊎ (b.ntable + 2 + ((va + size - 1) / 2 ^ 21 - va / 2 ^ 21) ≤ most)
    → most ≤ ntables
    → RangeMapped va pa size attr 0 most b role (maprange va pa size attr b)
unfolding maprange
maprange-RangeMapped va pa size attr most {b} {role} valid vs ps slot is clear pos room cap =
    let fuel : size / 4096 + 2 ≡ suc (size / 4096 + 1) = omega arith in
    let start : va + 0 ≡ va = omega arith in
    rw fuel (
      from_start va pa size attr valid vs ps slot (size / 4096) (size / 4096 + 1) most is clear pos
        (rw start room) cap (omega arith) (omega arith))
