-- ===== src/Mmu/Uncache/Flush.antt =====
-- The cache lines that `dcflush` covers.
use front_mangopi_overlay.Mmu.Pte.{kaddr, kzero, paddr, round}
use front_mangopi_overlay.Mmu.Uncache.{dcflush, cacheline}
use front_mangopi_overlay.Base.Bits.{bit_and-ones}
use front_mangopi_overlay.Base.Bits.Field.{clear_field}
use front_mangopi_overlay.Base.{
  ap, ◌∙◌, ℕ, ◌+◌, ◌-◌, ◌*◌, ◌/◌, ◌%◌, ◌^◌, ◌<◌, ◌≤◌, ◌≡◌, bit_and, not64, u64, arith, refl,
}

whole_lines : (k : ℕ) → k + 63 < 2 ^ 64 → round k cacheline ≡ (k + 63) / 64 * 64
unfolding round
whole_lines k h =
    let up : u64 (k + (cacheline - 1)) ≡ k + 63 = omega arith in
    clear_field 0 6 58 ((k + 63) / 64) ((k + 63) % 64) 0 (u64 (k + (cacheline - 1)))
      (not64 (cacheline - 1)) (omega arith) refl (omega arith) (omega arith) (omega arith)
    ∙ omega arith

-- For any range of kernel addresses, `dcflush` names a range of whole cache lines that holds the
-- physical range, and no more than the lines it touches: it begins less than a line before, and ends
-- less than a line after.
pub dcflush_covers :
    (pa n : ℕ)
    → pa < 2 ^ 31
    → n < 2 ^ 31
    → let (start, len) = dcflush (kaddr pa) n in
      (start % 64 ≡ 0)
      × (len % 64 ≡ 0)
      × (start ≤ pa)
      × (pa < start + 64)
      × (pa + n ≤ start + len)
      × (start + len < pa + n + 64)
unfolding dcflush kaddr paddr
dcflush_covers pa n h hn =
    let there : u64 (u64 (pa + kzero) + 2 ^ 64 - kzero) ≡ pa = omega arith in
    let off : bit_and pa (cacheline - 1) ≡ pa % 64 = bit_and-ones 6 pa in
    let start : u64 (pa + 2 ^ 64 - pa % 64) ≡ pa - pa % 64 = omega arith in
    let len : round (u64 (n + pa % 64)) cacheline ≡ (n + pa % 64 + 63) / 64 * 64 =
      ap (λ x. round x cacheline) (omega arith) ∙ whole_lines (n + pa % 64) (omega arith) in
    rw (there, off, start, len)
      (omega arith, omega arith, omega arith, omega arith, omega arith, omega arith)
