-- ===== src/Trap/Regs.antt =====
-- What trap.c relies on of ureg.h and lib.h.
use front_mangopi_overlay.Base.{ℕ, ◌+◌, ◌^◌, ◌<◌, ◌≤◌, ◌≡◌, ◌≢◌, Bool, true}

-- The number of words of a Ureg, the word indices of the registers that trap.c names, and the
-- number of words in ERRMAX.
pub record Layout : Type 0 where
  pub words : ℕ
  pub errwords : ℕ
  pub pc : ℕ
  pub sp : ℕ
  pub r1 : ℕ
  pub arg : ℕ
  pub status : ℕ
  pub ret : ℕ

-- The registers are apart and both sizes are small.
pub record IsLayout (l : Layout) : Type 0 where
  pub pc_word : l.pc < l.words
  pub sp_word : l.sp < l.words
  pub arg_word : l.arg < l.words
  pub pc_sp : l.pc ≢ l.sp
  pub pc_r1 : l.pc ≢ l.r1
  pub sp_r1 : l.sp ≢ l.r1
  pub arg_pc : l.arg ≢ l.pc
  pub arg_sp : l.arg ≢ l.sp
  pub arg_r1 : l.arg ≢ l.r1
  pub status_pc : l.status ≢ l.pc
  pub status_sp : l.status ≢ l.sp
  pub status_r1 : l.status ≢ l.r1
  pub status_arg : l.status ≢ l.arg
  pub ret_pc : l.ret ≢ l.pc
  pub ret_sp : l.ret ≢ l.sp
  pub ret_word : l.ret < l.words
  pub few_words : l.words < 2 ^ 10
  pub few_errwords : l.errwords < 2 ^ 10

-- `okaddr` accepts only ranges that end in the address space.
abbrev pub Fits : ((addr len : ℕ) (writing : Bool) → Bool) → Type 0
Fits okaddr = (a n : ℕ) (w : Bool) → okaddr a n w ≡ true → a + n ≤ 2 ^ 64
