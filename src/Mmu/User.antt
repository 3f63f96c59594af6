-- ===== src/Mmu/User.antt =====
-- The entry that `putmmu` builds for a user page.
pub mod Attr
pub mod Tables
pub mod State
pub mod Walked
pub mod Refill
pub mod Put
pub mod Empty
pub mod First
pub mod Flush
mod Tests
use front_mangopi_overlay.Base.{ℕ, ◌*◌, ◌-◌, ◌^◌, bit_and, bit_or, ◌==◌, if◌then◌else◌}
use front_mangopi_overlay.Mmu.Pte.{
  papte, ppn, ptevalid, pteread, ptewrite, pteexec, pteuser, pteaccessed, ptedirty, pteuncached,
  ptenoexec, ptedevice, pte_thead_so, pte_thead_c, pte_thead_sh,
}

-- `pa` is page-aligned but for the flags of the portable kernel in its low bits.
unfoldable pub putmmu_attr : ℕ → ℕ
putmmu_attr pa =
    let always = bit_or (bit_or (bit_or (bit_or ptevalid pteread) pteuser) pteaccessed) ptedirty in
    let write = if bit_and pa ptewrite == 0 then always else bit_or always ptewrite in
    let exec = if bit_and pa ptenoexec == 0 then bit_or write pteexec else write in
    if bit_and pa (bit_or pteuncached ptedevice) == 0
    then bit_or exec (bit_or pte_thead_c pte_thead_sh)
    else bit_or exec pte_thead_so

unfoldable pub putmmu_pte : ℕ → ℕ
unfolding putmmu_attr
putmmu_pte pa = bit_or (papte (ppn pa)) (putmmu_attr pa)
