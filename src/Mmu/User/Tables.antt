-- ===== src/Mmu/User/Tables.antt =====
-- The page tables of processes in mmu.c: `mmurootalloc`, `mmuwalk`, `mmufree`, `putmmu`, `mmuswitch`,
-- `flushmmu` and `mmurelease`. A page is its physical address, at which the kernel reaches it through
-- `KADDR`. What `newpage` will return is a list, and `none` stands for a `newpage` that never returns.
-- The instruction cache and the interrupt level are left out.
use front_mangopi_overlay.Mmu.User.{putmmu_pte}
use front_mangopi_overlay.Mmu.Pte.{ptlx, papte, ptepa, ptevalid, pteptr, mksatp}
use front_mangopi_overlay.Mmu.Tree.{Mem}
use front_mangopi_overlay.Base.{
  ℕ, zero, suc, ◌+◌, ◌-◌, ◌*◌, bit_and, bit_or, ◌==◌, ltb, leb, if◌then◌else◌, ◌&&◌, Bool, true,
  false, update, Option, none, some, List, [], ◌∷◌, ◌++◌,
}

abbrev pub nuserslot : ℕ
nuserslot = 256

-- `memset` with 0, and `memmove`, for `n` words.
abbrev pub clear : (n to : ℕ) → Mem → Mem
clear n to m a = if leb to a && ltb a (to + n * 8) then 0 else m a

abbrev pub copy : (n to from : ℕ) → Mem → Mem
copy n to from m a = if leb to a && ltb a (to + n * 8) then m (from + (a - to)) else m a

-- A process, as its mapping functions see it.
pub record Proc : Type 0 where
  pub mmuroot : Option ℕ
  pub satp : ℕ
  pub mmufree : List ℕ
  pub mmuused : List ℕ
  pub newtlb : Bool

-- Memory and the register that selects the tables.
pub record Hart : Type 0 where
  pub mem : Mem
  pub active : ℕ

-- `kernel` is the physical address of the boot root, `pg` that of the new page.
unfoldable pub mmurootalloc : (kernel pg : ℕ) → Proc → Hart → Proc × Hart
mmurootalloc kernel pg p h =
    let half = clear nuserslot pg h.mem in
    let m = copy (512 - nuserslot) (pg + nuserslot * 8) (kernel + nuserslot * 8) half in
    (record p { mmuroot = some pg; satp = mksatp pg }, record h { mem = m })

-- What a walk changes.
pub record Walk : Type 0 where
  pub mem : Mem
  pub free : List ℕ
  pub used : List ℕ

-- One round of the loop of `mmuwalk` with `&table[x]` at `slot`: the next table, if there is one.
unfoldable pub descend : (slot : ℕ) → Walk → Option ℕ × Walk
descend slot w =
    let pte = w.mem slot in
    let made : Option ℕ × Walk = elim (w.free) [
      | [] ↦ (none, w)
      | pg ∷ rest ↦ (
        some pg,
        record {
          mem = update (clear 512 pg w.mem) slot (bit_or (papte pg) pteptr);
          free = rest;
          used = pg ∷ w.used;
        },
      )
    ] in
    if bit_and pte ptevalid == 0 then made else (some (ptepa pte), w)

-- The rounds for the levels from `level + rounds` down to `level + 1`.
unfoldable pub walk_from : (rounds level va table : ℕ) → Walk → Option ℕ × Walk
unfolding descend
walk_from zero level va table w = (some (table + ptlx va level * 8), w)
walk_from (suc k) level va table w =
    let (next, w') = descend (table + ptlx va (level + suc k) * 8) w in
    elim next [ none ↦ (none, w') | some t ↦ walk_from k level va t w' ]

-- `none` is nil; otherwise the address of the entry. `level` is at most 2.
unfoldable pub mmuwalk : (va level root : ℕ) → Walk → Option ℕ × Walk
unfolding walk_from
mmuwalk va level root w = walk_from (2 - level) level va root w

-- `while((pte = mmuwalk(va, 0)) == nil)`: the entry, and the pages that `newpage` still has.
unfoldable pub refill : (pages : List ℕ) (va root : ℕ) → Walk → Option (ℕ × Walk × List ℕ)
unfolding mmuwalk
refill [] va root w =
    let (pte, w') = mmuwalk va 0 root w in
    elim pte [ none ↦ none | some slot ↦ some (slot, w', []) ]
refill (pg ∷ pages) va root w =
    let (pte, w') = mmuwalk va 0 root w in
    let again = refill pages va root (record w' { free = pg ∷ w'.free }) in
    elim pte [ none ↦ again | some slot ↦ some (slot, w', pg ∷ pages) ]

-- The part of `putmmu` after the root is there.
unfoldable pub put_pte :
    (pages : List ℕ) (va pa root : ℕ) → Proc → Hart → Option (Proc × Hart × List ℕ)
unfolding refill
put_pte pages va pa root p h =
    elim (refill pages va root (record { mem = h.mem; free = p.mmufree; used = p.mmuused })) [
      | none ↦ none
      | some (slot, w, left) ↦ some (
        record p { mmufree = w.free; mmuused = w.used },
        record h { mem = update w.mem slot (putmmu_pte pa) },
        left,
      )
    ]

unfoldable pub putmmu :
    (kernel : ℕ) (pages : List ℕ) (va pa : ℕ) → Proc → Hart → Option (Proc × Hart × List ℕ)
unfolding mmurootalloc put_pte
putmmu kernel pages va pa p h = elim (p.mmuroot) [
  | some root ↦ put_pte pages va pa root p h
  | none ↦ elim pages [
    | [] ↦ none
    | pg ∷ more ↦
        let (p', h') = mmurootalloc kernel pg p h in
        put_pte more va pa pg p' (record h' { active = p'.satp })
  ]
]

-- Each page of the first list is put on the second.
unfoldable pub recycle : List ℕ → List ℕ → List ℕ
recycle [] free = free
recycle (pg ∷ used) free = recycle used (pg ∷ free)

unfoldable pub mmufree : Proc → Hart → Proc × Hart
unfolding recycle
mmufree p h = (
  record p { mmufree = recycle p.mmuused p.mmufree; mmuused = [] },
  elim (p.mmuroot) [ none ↦ h | some root ↦ record h { mem = clear nuserslot root h.mem } ],
)

-- `mmuswitch(nil)` is `record h { active = kernelsatp }`.
unfoldable pub mmuswitch : (kernelsatp : ℕ) → Proc → Hart → Proc × Hart
unfolding mmufree
mmuswitch kernelsatp p h =
    let (p', h') = if p.newtlb then mmufree p h else (p, h) in
    elim (p.mmuroot) [
      | none ↦ (record p { newtlb = false }, record h { active = kernelsatp })
      | some root ↦ (record p' { newtlb = false }, record h' { active = p'.satp })
    ]

unfoldable pub flushmmu : (kernelsatp : ℕ) → Proc → Hart → Proc × Hart
unfolding mmuswitch
flushmmu kernelsatp p h = mmuswitch kernelsatp (record p { newtlb = true }) h

-- The pages given back to the portable kernel, the table pages and then the root.
unfoldable pub mmurelease : (kernelsatp : ℕ) → Proc → Hart → List ℕ × Proc × Hart
unfolding mmufree
mmurelease kernelsatp p h =
    let (p', h') = mmufree p (record h { active = kernelsatp }) in
    let root : List ℕ = elim (p'.mmuroot) [ none ↦ [] | some pg ↦ pg ∷ [] ] in
    (p'.mmufree ++ root, record p' { mmufree = []; mmuroot = none; satp = 0 }, h')
