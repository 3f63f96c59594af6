-- ===== src/Mmu/Pte.antt =====
-- The macros of mem.h and io.h: virtual layout, table indices, page-table entries and satp. An
-- address or an entry is a 64-bit word.
pub mod Fields
use front_mangopi_overlay.Base.{
  ℕ, ◌+◌, ◌-◌, ◌*◌, ◌/◌, ◌%◌, ◌^◌, bit_and, bit_or, ◌<<<◌, ◌>>>◌, not64, u64,
}

abbrev pub by2pg : ℕ
by2pg = 4096

abbrev pub pgshift : ℕ
pgshift = 12

abbrev pub ptshift : ℕ
ptshift = 9

abbrev pub kzero : ℕ
kzero = 0xFFFFFFFF80000000

abbrev pub physdram : ℕ
physdram = 0x40000000

abbrev pub drammax : ℕ
drammax = 1024 * 1024 * 1024

unfoldable pub kaddr : ℕ → ℕ
kaddr pa = u64 (pa + kzero)

unfoldable pub paddr : ℕ → ℕ
paddr va = u64 (va + 2 ^ 64 - kzero)

-- `ROUND(s, sz)`
unfoldable pub round : ℕ → ℕ → ℕ
round s sz = bit_and (u64 (s + (sz - 1))) (not64 (sz - 1))

-- `PTLX(v, l)`
unfoldable pub ptlx : ℕ → ℕ → ℕ
ptlx v l = bit_and (v >>> (pgshift + l * ptshift)) (1 <<< ptshift - 1)

-- `PGLSZ(l)`
unfoldable pub pglsz : ℕ → ℕ
pglsz l = 1 <<< (pgshift + l * ptshift)

abbrev pub ptevalid : ℕ
ptevalid = 1 <<< 0

abbrev pub pteread : ℕ
pteread = 1 <<< 1

abbrev pub ptewrite : ℕ
ptewrite = 1 <<< 2

abbrev pub pteexec : ℕ
pteexec = 1 <<< 3

abbrev pub pteuser : ℕ
pteuser = 1 <<< 4

abbrev pub pteglobal : ℕ
pteglobal = 1 <<< 5

abbrev pub pteaccessed : ℕ
pteaccessed = 1 <<< 6

abbrev pub ptedirty : ℕ
ptedirty = 1 <<< 7

abbrev pub pteptr : ℕ
pteptr = ptevalid

abbrev pub pteuncached : ℕ
pteuncached = 1 <<< 8

abbrev pub ptenoexec : ℕ
ptenoexec = 1 <<< 9

abbrev pub ptedevice : ℕ
ptedevice = 1 <<< 10

abbrev pub pte_thead_so : ℕ
pte_thead_so = 1 <<< 63

abbrev pub pte_thead_c : ℕ
pte_thead_c = 1 <<< 62

abbrev pub pte_thead_sh : ℕ
pte_thead_sh = 1 <<< 60

-- V, R, W, X, A, D and G.
abbrev pub pteleaf : ℕ
pteleaf = 0xEF

abbrev pub pteleafmem : ℕ
pteleafmem = bit_or (bit_or pteleaf pte_thead_c) pte_thead_sh

abbrev pub pteleafdev : ℕ
pteleafdev = bit_or pteleaf pte_thead_so

abbrev pub pteppnmask : ℕ
pteppnmask = (1 <<< 44 - 1) <<< 10

-- `PPN(x)`
unfoldable pub ppn : ℕ → ℕ
ppn x = bit_and x (not64 (by2pg - 1))

-- `PTEPA(pte)`
unfoldable pub ptepa : ℕ → ℕ
ptepa pte = u64 (pte >>> 10 <<< pgshift)

-- `PAPTE(pa)`
unfoldable pub papte : ℕ → ℕ
papte pa = u64 (pa >>> pgshift <<< 10)

-- `MKSATP(rootpa)`
unfoldable pub mksatp : ℕ → ℕ
mksatp rootpa = bit_or (8 <<< 60) (rootpa >>> pgshift)
