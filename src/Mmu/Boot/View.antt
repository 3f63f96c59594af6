-- ===== src/Mmu/Boot/View.antt =====
-- The boot-time tables as one function from the indices of a page to its entry, and calls that
-- change it.
pub mod Leaves
use mathlib.Core.Path.{subst}
use front_mangopi_overlay.Mmu.Boot.{Boot, ntables, maprange, mapblock}
use front_mangopi_overlay.Mmu.Boot.State.{IsBoot, HasMid, Unblocked}
use front_mangopi_overlay.Mmu.Boot.Leaf.{vpn2, vpn1, vpn0}
use front_mangopi_overlay.Mmu.Boot.Range.{slot_of, RangeMapped, maprange-RangeMapped}
use front_mangopi_overlay.Mmu.Boot.Blocks.{BlocksMapped, BlockRoom, mapblock-BlocksMapped}
use front_mangopi_overlay.Mmu.Pte.{papte}
use front_mangopi_overlay.Mmu.Pte.Fields.{IsAttr}
use front_mangopi_overlay.Mmu.Tree.{lookup2, Role}
use front_mangopi_overlay.Base.{
  ◌>>=◌, bit_or, ◌-◌, ◌∙◌, sym, ap, ℕ, ◌+◌, ◌*◌, ◌/◌, ◌%◌, ◌^◌, ◌<◌, ◌≤◌, ◌≡◌, ◌≢◌, ◌⊎◌, inl, inr,
  Option, none, some, arith, refl, Bool, true, false, ◌==◌, ◌&&◌, leb, ltb, if◌then◌else◌,
  Bool-cases,
}

-- The entry for a page, by its three indices.
abbrev pub View : Type 0
View = ℕ → ℕ → ℕ → Option ℕ

abbrev pub view : Boot → View
view b w s r = lookup2 b.mem b.root w s r

-- Whether a page lies in a range under one root slot.
unfoldable pub in_range : (va size : ℕ) → (w s r : ℕ) → Bool
in_range va size w s r =
    (w == vpn2 va)
    && (leb (va / 2 ^ 12 % 2 ^ 18) (s * 512 + r)
        && ltb (s * 512 + r - va / 2 ^ 12 % 2 ^ 18) ((size + 4095) / 2 ^ 12))

-- The pages of the range are mapped in order from `pa` on, and all others are as before.
unfoldable pub map_pages : (va pa size attr : ℕ) → View → View
unfolding in_range
map_pages va pa size attr f w s r =
    if in_range va size w s r
    then some (bit_or (papte (pa + (s * 512 + r - va / 2 ^ 12 % 2 ^ 18) * 4096)) attr)
    else f w s r

unfoldable pub in_blocks : (va size : ℕ) → (w s : ℕ) → Bool
in_blocks va size w s =
    (w == vpn2 va) && (leb (vpn1 va) s && ltb (s - vpn1 va) ((size + (2 ^ 21 - 1)) / 2 ^ 21))

-- The same in steps of 2 MB.
unfoldable pub map_blocks : (va pa size attr : ℕ) → View → View
unfolding in_blocks
map_blocks va pa size attr f w s r =
    if in_blocks va size w s
    then some (bit_or (papte (pa + (s - vpn1 va) * 2 ^ 21)) attr)
    else f w s r

-- A call that turns one view into another, with at most `most` tables used in the end, where only the
-- root slots of `blocks` may get 2 MB leaves.
pub record Mapped (g : View → View) (blocks : ℕ → Type 0) (most : ℕ) (b : Boot) (role : ℕ → Role)
    (result : Option Boot) : Type 0 where
  pub after : Boot
  pub role' : ℕ → Role
  pub ran : result ≡ some after
  pub is : IsBoot after role'
  pub pagewise : (f f' : View) (w s r : ℕ) → f w s r ≡ f' w s r → g f w s r ≡ g f' w s r
  pub views : (w s r : ℕ) → w < 512 → s < 512 → r < 512 → view after w s r ≡ g (view b) w s r
  pub keeps_mid : (w : ℕ) → w < 512 → HasMid b role w → HasMid after role' w
  pub keeps_unblocked :
      (w : ℕ) → w < 512 → ¬ blocks w → Unblocked b role w → Unblocked after role' w
  pub count : after.ntable ≤ most

pub map_pages-pagewise :
    (va pa size attr : ℕ) (f f' : View) (w s r : ℕ)
    → f w s r ≡ f' w s r
    → map_pages va pa size attr f w s r ≡ map_pages va pa size attr f' w s r
unfolding map_pages
map_pages-pagewise va pa size attr f f' w s r e = rw e refl

pub map_blocks-pagewise :
    (va pa size attr : ℕ) (f f' : View) (w s r : ℕ)
    → f w s r ≡ f' w s r
    → map_blocks va pa size attr f w s r ≡ map_blocks va pa size attr f' w s r
unfolding map_blocks
map_blocks-pagewise va pa size attr f f' w s r e = rw e refl

-- One call after another.
pub Mapped-then :
    {g h : View → View} {blocks : ℕ → Type 0} {n most : ℕ} {b : Boot} {role : ℕ → Role}
    {first : Option Boot} (next : Boot → Option Boot)
    → (f : Mapped g blocks n b role first) → Mapped h blocks most f.after f.role' (next f.after)
    → Mapped (λ v. h (g v)) blocks most b role (first >>= next)
Mapped-then {g} {h} {b = b} next f k = record {
  after = k.after;
  role' = k.role';
  ran = rw f.ran k.ran;
  is = k.is;
  pagewise = λ v v' w s r e. k.pagewise (g v) (g v') w s r (f.pagewise v v' w s r e);
  views = λ w s r hw hs hr.
      k.views w s r hw hs hr
      ∙ k.pagewise (view f.after) (g (view b)) w s r (f.views w s r hw hs hr);
  keeps_mid = λ w hw h. k.keeps_mid w hw (f.keeps_mid w hw h);
  keeps_unblocked = λ w hw ne h. k.keeps_unblocked w hw ne (f.keeps_unblocked w hw ne h);
  count = k.count;
}
