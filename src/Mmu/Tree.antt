-- ===== src/Mmu/Tree.antt =====
-- What Sv39 hardware reads out of a memory that holds page tables, and the invariant of the
-- tables that the kernel builds: every table has one place in one tree.
pub mod Agree
pub mod AddMid
pub mod AddLow
pub mod AddLeaf
pub mod DropRoot
use front_mangopi_overlay.Base.{
  ℕ, ◌+◌, ◌*◌, ◌/◌, ◌%◌, ◌^◌, ◌<◌, ◌≡◌, ◌≢◌, ◌⊎◌, Option, none, some, ◌==◌, if◌then◌else◌,
}

-- Physical memory, a 64-bit word at each address that is a multiple of 8.
abbrev pub Mem : Type 0
Mem = ℕ → ℕ

-- The table that a pointer entry names: bits 53:10, as a page number.
abbrev pub next : ℕ → ℕ
next e = e / 2 ^ 10 % 2 ^ 44 * 2 ^ 12

-- The entry that maps a page, by its three table indices: `none` is a page fault. An entry is
-- invalid if bit 0 is clear, and points to a table if R, W and X (bits 3:1) are clear.
abbrev pub lookup0 : Mem → (table z : ℕ) → Option ℕ
lookup0 m t z = let e = m (t + z * 8) in if e % 2 == 0 then none else some e

abbrev pub lookup1 : Mem → (table y z : ℕ) → Option ℕ
lookup1 m t y z =
    let e = m (t + y * 8) in
    if e % 2 == 0 then none else if e / 2 % 8 == 0 then lookup0 m (next e) z else some e

abbrev pub lookup2 : Mem → (root x y z : ℕ) → Option ℕ
lookup2 m t x y z =
    let e = m (t + x * 8) in
    if e % 2 == 0 then none else if e / 2 % 8 == 0 then lookup1 m (next e) y z else some e

-- The entry that maps a virtual address.
abbrev pub translate : Mem → (root va : ℕ) → Option ℕ
translate m root va = lookup2 m root (va / 2 ^ 30 % 512) (va / 2 ^ 21 % 512) (va / 2 ^ 12 % 512)

-- The place of a page of memory in the tree: a level-1 table serves one root slot, and a level-0
-- table one slot of the level-1 table of a root slot.
pub data Role : Type 0 where
  unused top : Role
  mid : ℕ → Role
  low : ℕ → ℕ → Role

-- A pointer entry for the table at `t`.
abbrev pub ptr : ℕ → ℕ
ptr t = t / 2 ^ 12 * 2 ^ 10 + 1

-- An entry of the root, and of the level-1 table of root slot `x`.
abbrev pub RootEntry : (ℕ → Role) → (x e : ℕ) → Type 0
RootEntry role x e = (e % 2 ≡ 0) ⊎ ((t : ℕ) × (role t ≡ mid x) × (e ≡ ptr t))

abbrev pub MidEntry : (ℕ → Role) → (x y e : ℕ) → Type 0
MidEntry role x y e =
    (e % 2 ≡ 0) ⊎ ((e % 2 ≡ 1) × (e / 2 % 8 ≢ 0)) ⊎ ((t : ℕ) × (role t ≡ low x y) × (e ≡ ptr t))

-- The tables below the first `slots` slots of the root.
pub record IsTree (m : Mem) (root slots : ℕ) (role : ℕ → Role) : Type 0 where
  pub root_role : role root ≡ top
  pub small : slots < 513
  pub is_page : (t : ℕ) → role t ≢ unused → (t % 4096 ≡ 0) × (t < 2 ^ 56)
  pub root_entry : (x : ℕ) → x < slots → RootEntry role x (m (root + x * 8))
  pub mid_entry : (t x y : ℕ) → role t ≡ mid x → y < 512 → MidEntry role x y (m (t + y * 8))
