-- ===== src/Mmu/User/Attr.antt =====
-- The bits of the entry that `putmmu` builds.
use front_mangopi_overlay.Mmu.User.{putmmu_attr, putmmu_pte}
use front_mangopi_overlay.Mmu.Pte.{ppn}
use front_mangopi_overlay.Mmu.Pte.Fields.{papte-or, ppn-page}
use front_mangopi_overlay.Base.Bits.{
  bit_and-bit, bit_and_above, bit_and_cut, bit_and-one, bit_and-zero,
}
use front_mangopi_overlay.Base.{ℕ, ◌+◌, ◌*◌, ◌/◌, ◌%◌, ◌^◌, ◌<◌, ◌≡◌, arith, bit_and, max, ◌∙◌}

-- What the entry for `pa` holds, by the flags of `pa`: bit 2 asks for writing, bit 9 forbids
-- execution, bits 8 and 10 ask for uncached and for device memory.
pub record Decodes (pa e : ℕ) : Type 0 where
  pub page : e / 2 ^ 10 % 2 ^ 44 ≡ pa / 2 ^ 12
  pub valid_and_read : e % 4 ≡ 3
  pub write : e / 2 ^ 2 % 2 ≡ pa / 2 ^ 2 % 2
  pub exec : e / 2 ^ 3 % 2 + pa / 2 ^ 9 % 2 ≡ 1
  pub user_not_global : e / 2 ^ 4 % 4 ≡ 1
  pub accessed_and_dirty : e / 2 ^ 6 % 16 ≡ 3
  pub strong_order : e / 2 ^ 63 ≡ max (pa / 2 ^ 8 % 2) (pa / 2 ^ 10 % 2)
  pub cached : e / 2 ^ 62 % 2 + e / 2 ^ 63 ≡ 1
  pub shared : e / 2 ^ 60 % 4 ≡ e / 2 ^ 62 % 2

write_bit : (pa : ℕ) → bit_and pa 4 ≡ pa / 4 % 2 * 4
write_bit pa = bit_and-bit 2 pa

noexec_bit : (pa : ℕ) → bit_and pa 512 ≡ pa / 512 % 2 * 512
noexec_bit pa = bit_and-bit 9 pa

five : (q : ℕ) → bit_and q 5 ≡ q / 4 % 2 * 4 + q % 2
five q = omega (
  arith,
  bit_and_cut 2 q 5,
  bit_and-one (q / 4),
  bit_and_cut 1 (q % 4) 1,
  bit_and-one (q % 4 % 2),
  bit_and-zero (q % 4 / 2),
)

device_bits : (pa : ℕ) → bit_and pa 0x500 ≡ (pa / 1024 % 2 * 4 + pa / 256 % 2) * 256
device_bits pa = omega (arith, bit_and_above 8 pa 5, five (pa / 256))

attr-lt : (pa : ℕ) → (putmmu_attr pa / 2 ^ 10 % 2 ^ 44 ≡ 0) × (putmmu_attr pa < 2 ^ 64)
unfolding putmmu_attr
attr-lt pa = ground arith

as_sum :
    (pa : ℕ)
    → pa < 2 ^ 56
    → putmmu_pte pa
      ≡ putmmu_attr pa / 2 ^ 54 * 2 ^ 54 + pa / 2 ^ 12 * 2 ^ 10 + putmmu_attr pa % 2 ^ 10
unfolding putmmu_pte
as_sum pa h =
    papte-or (ppn pa) (putmmu_attr pa) (omega (arith, ppn-page pa)) (attr-lt pa)
    ∙ omega (arith, ppn-page pa)

-- For every physical address below 2^56 with flags in its low bits, the entry maps its page as
-- valid, readable, user, accessed and dirty; it is writable exactly if bit 2 is set, executable
-- exactly if bit 9 is clear, and strongly ordered exactly if bit 8 or 10 is set, and otherwise
-- cached and shared.
pub putmmu_pte-Decodes : (pa : ℕ) → pa < 2 ^ 56 → Decodes pa (putmmu_pte pa)
unfolding putmmu_attr
putmmu_pte-Decodes pa h = ground (arith, as_sum pa h, write_bit pa, noexec_bit pa, device_bits pa)
