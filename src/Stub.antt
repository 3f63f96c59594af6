-- ===== src/Stub.antt =====
-- stub.c: `kprocchild`, which prepares a kernel process to run, and `evenaddr`. The other functions
-- of the file return at once, or stop the kernel.
mod Tests
use front_mangopi_overlay.Main.Stack.{store_bytes, load_bytes, store_bytes_apart, load-store_bytes}
use front_mangopi_overlay.Base.Bits.{bit_and-ones}
use front_mangopi_overlay.Base.{
  ℕ, ◌+◌, ◌-◌, ◌%◌, ◌^◌, ◌<◌, ◌≤◌, ◌≡◌, ◌==◌, inl, inr, bit_and, u64, Bool, arith, ap,
}

-- `p->sched`
pub record Sched : Type 0 where
  pub pc : ℕ
  pub sp : ℕ

-- `self` is the address of `kprocchild`, which stands for the caller's.
unfoldable pub kprocchild : (p entry self : ℕ) → (ℕ → ℕ) → Sched × (ℕ → ℕ)
kprocchild p entry self m =
    let sp = u64 (p + 2 ^ 64 - 16) in (record { pc = u64 entry; sp = sp }, store_bytes 8 sp self m)

-- Whether the call returns; otherwise a note is posted and an error is raised.
unfoldable pub evenaddr : (addr : ℕ) → Bool
evenaddr addr = bit_and addr 3 == 0

-- A kernel process starts with the given pc, with the address of `kprocchild` on top of its stack,
-- and neither its Proc nor the word below it, where its first argument may be spilled, is touched.
pub kprocchild_stack :
    (p entry self : ℕ) (m : ℕ → ℕ)
    → 16 ≤ p
    → p < 2 ^ 64
    → entry < 2 ^ 64
    → self < 2 ^ 64
    → let (sched, mem) = kprocchild p entry self m in
      (sched.pc ≡ entry) × (load_bytes 8 sched.sp mem ≡ self) × ((x : ℕ) → p ≤ x + 8 → mem x ≡ m x)
unfolding kprocchild
kprocchild_stack p entry self m room fits code own = (
  omega arith,
  load-store_bytes 8 (u64 (p + 2 ^ 64 - 16)) self m own,
  λ x h. store_bytes_apart 8 (u64 (p + 2 ^ 64 - 16)) self m x (inr (omega arith)),
)

-- `evenaddr` returns for the multiples of 4 only.
evenaddr_multiple : (addr : ℕ) → evenaddr addr ≡ (addr % 4 == 0)
unfolding evenaddr
evenaddr_multiple addr = ap (λ r. r == 0) (bit_and-ones 2 addr)
