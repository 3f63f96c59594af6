-- ===== src/Mmu/Tests.antt =====
-- The theorems on the boot-time tables and on the entries of user pages at concrete inputs.
use front_mangopi_overlay.Mmu.Boot.View.{view}
use front_mangopi_overlay.Mmu.Boot.Start.{Started, mmubootstrap-Started}
use front_mangopi_overlay.Mmu.Boot.Drop.{mmulowdrop_high}
use front_mangopi_overlay.Mmu.Boot.Bootstrap.{mmubootstrap, mmulowdrop}
use front_mangopi_overlay.Mmu.User.{putmmu_pte}
use front_mangopi_overlay.Mmu.User.Attr.{Decodes, putmmu_pte-Decodes}
use front_mangopi_overlay.Mmu.Pte.{mksatp}
use front_mangopi_overlay.Base.{none, ◌≡◌, arith, refl}

-- A writable, executable, cached page of the segment that a process runs.
putmmu_pte-Decodes_example : Decodes 0x41000204 (putmmu_pte 0x41000204)
putmmu_pte-Decodes_example = putmmu_pte-Decodes 0x41000204 (omega arith)

mmubootstrap-Started_example : Started (mmubootstrap 0x411ff008 (λ _. 0))
mmubootstrap-Started_example =
    mmubootstrap-Started 0x411ff008 (λ _. 0) (omega arith) (λ a lo hi. refl)

-- The first page of the kernel's text is unmapped at its physical address.
mmulowdrop_high_example :
    let f = mmubootstrap-Started 0x411ff008 (λ _. 0) (omega arith) (λ a lo hi. refl) in
    view (mmulowdrop f.after) 1 8 0 ≡ none
mmulowdrop_high_example =
    let f = mmubootstrap-Started 0x411ff008 (λ _. 0) (omega arith) (λ a lo hi. refl) in
    mmulowdrop_high 0x411ff008 (mksatp f.after.root) (λ _. 0) f.after 1 8 0 (omega arith)
      (λ a lo hi. refl) f.ran (omega arith) (omega arith) (omega arith)
