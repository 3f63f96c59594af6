-- ===== src/Mmu/Boot/State.antt =====
-- The invariant of the boot-time tables, and what is known of the next free one.
use front_mangopi_overlay.Mmu.Boot.{Boot, ntables, newtable, table_at}
use front_mangopi_overlay.Mmu.Pte.{papte, ptepa, pteptr}
use front_mangopi_overlay.Mmu.Pte.Fields.{papte-or, ptepa-papte}
use front_mangopi_overlay.Base.Bits.{bit_and-one}
use front_mangopi_overlay.Mmu.Tree.{Role, unused, mid, low, ptr, IsTree}
use front_mangopi_overlay.Base.{
  ◌∙◌, sym, ap, ℕ, ◌+◌, ◌*◌, ◌/◌, ◌%◌, ◌^◌, ◌<◌, ◌≤◌, ◌≡◌, ◌⊎◌, some, arith, update,
}
use front_mangopi_overlay.Base.{bit_or}

-- The tables in use form one tree, and those not in use are empty.
pub record IsBoot (b : Boot) (role : ℕ → Role) : Type 0 where
  pub tree : IsTree b.mem b.root 512 role
  pub base_page : b.tablebase % 4096 ≡ 0
  pub base_fits : b.tablebase + ntables * 4096 < 2 ^ 56
  pub few : b.ntable ≤ ntables
  pub free : (i : ℕ) → b.ntable ≤ i → i < ntables → role (b.tablebase + i * 4096) ≡ unused
  pub empty :
      (i y : ℕ) → b.ntable ≤ i → i < ntables → y < 512 → b.mem (b.tablebase + i * 4096 + y * 8) ≡ 0

-- The level-1 table of root slot `x` is there.
abbrev pub HasMid : Boot → (ℕ → Role) → ℕ → Type 0
HasMid b role x = (u : ℕ) × (role u ≡ mid x) × (b.mem (b.root + x * 8) ≡ ptr u)

-- So is the level-0 table of its slot `y`.
abbrev pub HasLow : Boot → (ℕ → Role) → (x y : ℕ) → Type 0
HasLow b role x y =
    (u : ℕ) × (v : ℕ) × (role u ≡ mid x)
    × (b.mem (b.root + x * 8) ≡ ptr u)
    × (role v ≡ low x y)
    × (b.mem (u + y * 8) ≡ ptr v)

-- No 2 MB leaf stands below root slot `x`.
abbrev pub Unblocked : Boot → (ℕ → Role) → ℕ → Type 0
Unblocked b role x =
    (t y : ℕ)
    → role t ≡ mid x
    → y < 512
    → (b.mem (t + y * 8) % 2 ≡ 0) ⊎ (b.mem (t + y * 8) / 2 % 8 ≡ 0)

pub papte-ptr : (t : ℕ) → t < 2 ^ 56 → bit_or (papte t) pteptr ≡ ptr t
papte-ptr t h = papte-or t 1 h (omega arith) ∙ omega arith

pub ptepa-ptr : (t : ℕ) → t % 4096 ≡ 0 → t < 2 ^ 56 → ptepa (ptr t) ≡ t
ptepa-ptr t h s = ap ptepa (sym (papte-ptr t s)) ∙ ptepa-papte t 1 s h (omega arith)

pub table_at-ptr :
    (slot t : ℕ) (b : Boot)
    → t % 4096 ≡ 0
    → t < 2 ^ 56
    → b.mem slot ≡ ptr t
    → table_at slot b ≡ some (t, b)
unfolding table_at
table_at-ptr slot t b h s e = ground (arith, bit_and-one (b.mem slot), ptepa-ptr t h s)

-- The next table of `tablestore`.
abbrev pub fresh : Boot → ℕ
fresh b = b.tablebase + b.ntable * 4096

-- The state after it is linked in at `slot`.
abbrev pub linked : ℕ → Boot → Boot
linked slot b = record b { mem = update b.mem slot (ptr (fresh b)); ntable = b.ntable + 1 }

pub table_at-new :
    (slot : ℕ) (b : Boot) {role : ℕ → Role}
    → IsBoot b role
    → b.ntable < ntables
    → b.mem slot % 2 ≡ 0
    → table_at slot b ≡ some (fresh b, linked slot b)
unfolding table_at newtable
table_at-new slot b is room invalid = ground (
  arith,
  is.base_page,
  is.base_fits,
  bit_and-one (b.mem slot),
  papte-ptr (fresh b) (omega (arith, is.base_fits)),
  ptepa-ptr (fresh b) (omega (arith, is.base_page)) (omega (arith, is.base_fits)),
)

pub fresh_page :
    {b : Boot} {role : ℕ → Role}
    → IsBoot b role
    → b.ntable < ntables
    → (fresh b % 4096 ≡ 0) × (fresh b < 2 ^ 56)
fresh_page is room = omega (arith, is.base_page, is.base_fits)
