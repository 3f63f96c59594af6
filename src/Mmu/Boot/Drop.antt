-- ===== src/Mmu/Boot/Drop.antt =====
-- `mmulowdrop`: the identity map is gone, and the high half is as it was.
use front_mangopi_overlay.Mmu.Boot.{Boot, ntables}
use front_mangopi_overlay.Mmu.Boot.State.{IsBoot}
use front_mangopi_overlay.Mmu.Boot.Leaf.{vpn2}
use front_mangopi_overlay.Mmu.Boot.View.{View, view, in_range, in_blocks, map_pages, map_blocks}
use front_mangopi_overlay.Mmu.Boot.Devices.{map_device}
use front_mangopi_overlay.Mmu.Boot.Start.{map_at, boot_map, mmubootstrap-Started}
use front_mangopi_overlay.Mmu.Boot.Bootstrap.{
  physpio, physpiosize, physwdtriscv, physmmc0, physehci1, physplic, physplicen, physplicctl,
  mmubootstrap, mmulowdrop,
}
use front_mangopi_overlay.Mmu.Pte.{
  by2pg, kzero, physdram, drammax, ptlx, pteleafmem, pteleafdev, mksatp,
}
use front_mangopi_overlay.Mmu.Tree.{Mem, Role}
use front_mangopi_overlay.Mmu.Tree.DropRoot.{drop-IsTree, drop-lookup, different}
use mathlib.Core.Option.{some-injective}
use mathlib.Core.Path.{subst}
use native.Mathlib.Decide.{dec_lt}
use front_mangopi_overlay.Base.{
  ◌∙◌, sym, ap, ℕ, ◌+◌, ◌*◌, ◌^◌, ◌<◌, ◌≤◌, ◌≡◌, ◌≢◌, Option, none, some, arith, refl, ◌==◌, ltb,
  if◌then◌else◌,
}

map_pages_outside :
    (va pa size attr : ℕ) (f : View) (w s r : ℕ)
    → w ≢ vpn2 va
    → map_pages va pa size attr f w s r ≡ f w s r
unfolding map_pages in_range
map_pages_outside va pa size attr f w s r ne = rw (different w (vpn2 va) ne) refl

map_blocks_outside :
    (va pa size attr : ℕ) (f : View) (w s r : ℕ)
    → w ≢ vpn2 va
    → map_blocks va pa size attr f w s r ≡ f w s r
unfolding map_blocks in_blocks
map_blocks_outside va pa size attr f w s r ne = rw (different w (vpn2 va) ne) refl

-- What is mapped at `k` lies under the root slot of the devices and that of DRAM.
map_at_outside :
    (k : ℕ) (f : View) (w s r : ℕ)
    → ((pa : ℕ) → pa < 2 ^ 30 → w ≢ vpn2 (k + pa))
    → w ≢ vpn2 (k + physdram)
    → map_at k f w s r ≡ f w s r
map_at_outside k f w s r device in_dram =
    outside _ physplicctl by2pg
      (outside _ physplicen by2pg
        (outside _ physplic by2pg
          (outside _ physehci1 by2pg
            (outside _ physmmc0 by2pg
              (outside _ physwdtriscv by2pg
                (outside _ physpio physpiosize
                  (map_blocks_outside (k + physdram) physdram drammax pteleafmem f w s r in_dram)
                  (omega arith))
                (omega arith))
              (omega arith))
            (omega arith))
          (omega arith))
        (omega arith))
      (omega arith)
  where
    outside :
        (g : View) (pa size : ℕ)
        → g w s r ≡ f w s r
        → pa < 2 ^ 30
        → map_device k pa size g w s r ≡ f w s r
    outside g pa size e h = map_pages_outside (k + pa) pa size pteleafdev g w s r (device pa h) ∙ e

mmulowdrop-view :
    (b : Boot) {role : ℕ → Role} (w s r : ℕ)
    → IsBoot b role
    → w < 512
    → s < 512
    → r < 512
    → view (mmulowdrop b) w s r ≡ (if w == 0 then none else (if w == 1 then none else view b w s r))
unfolding mmulowdrop ptlx
mmulowdrop-view b w s r is hw hs hr =
    drop-lookup (drop-IsTree is.tree 1 (omega arith)) 0 (omega arith) w s r hw hs hr
    ∙ ap (λ o. if w == 0 then none else o) (drop-lookup is.tree 1 (omega arith) w s r hw hs hr)

by_slot :
    (w : ℕ) (both high : Option ℕ)
    → (1 < w → both ≡ high)
    → (w < 256 → high ≡ none)
    → (if w == 0 then none else (if w == 1 then none else both))
      ≡ (if ltb w 256 then none else high)
by_slot w both high up down = elim (dec_lt w 256) [
  | yes below ↦ elim (dec_lt 1 w) [
    | yes above ↦ ground (arith, up above, down below)
    | no first ↦ ground arith
  ]
  | no above ↦ ground (arith, up (omega arith))
]

-- Once the high half runs, dropping the identity map leaves every page of the low half unmapped, and
-- every page of the high half with the entry that `mmubootstrap` gave it.
pub mmulowdrop_high :
    (tablestore satp : ℕ) (mem : Mem) (b : Boot) (w s r : ℕ)
    → tablestore < 2 ^ 55
    → ((a : ℕ) → tablestore ≤ a → a < tablestore + (ntables + 1) * 4096 → mem a ≡ 0)
    → mmubootstrap tablestore mem ≡ some (satp, b)
    → w < 512
    → s < 512
    → r < 512
    → view (mmulowdrop b) w s r ≡ (if ltb w 256 then none else map_at kzero (λ w s r. none) w s r)
mmulowdrop_high tablestore satp mem b w s r fits zeroed ran hw hs hr =
    let f = mmubootstrap-Started tablestore mem fits zeroed in
    subst
      (λ (c : Boot).
        view (mmulowdrop c) w s r
        ≡ (if ltb w 256 then none else map_at kzero (λ w s r. none) w s r))
      (ap (λ (p : ℕ × Boot). p.1)
        (some-injective (mksatp f.after.root, f.after) (satp, b) (sym f.ran ∙ ran)))
      (mmulowdrop-view f.after w s r f.is hw hs hr
        ∙ ap (λ o. if w == 0 then none else (if w == 1 then none else o)) (f.views w s r hw hs hr)
        ∙ by_slot w (boot_map w s r) (map_at kzero (λ w s r. none) w s r)
            (λ h.
              map_at_outside 0 (map_at kzero (λ w s r. none)) w s r (λ pa lt. omega arith)
                (omega arith))
            (λ h. map_at_outside kzero (λ w s r. none) w s r (λ pa lt. omega arith) (omega arith)))
