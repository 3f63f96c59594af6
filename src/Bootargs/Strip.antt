-- ===== src/Bootargs/Strip.antt =====
-- bootargs.c: the loop of `bootargsinit` that cleans the text in its own buffer.
use mathlib.Core.Path.{subst}
use native.Mathlib.Decide.{ℕ_discrete}
use front_mangopi_overlay.Bootargs.Init.{Buffer, strip_byte, strip, string_at}
use front_mangopi_overlay.Base.{
  ℕ, zero, suc, ◌+◌, ◌≤◌, ◌<◌, ◌≡◌, ◌≢◌, ◌==◌, ◌∙◌, true, false, if◌then◌else◌, List, [], ◌∷◌,
  length, update, arith, refl, Bool-cases, inl, inr,
}

-- The text with no carriage return and a space for each tab.
unfoldable pub clean : List ℕ → List ℕ
clean [] = []
clean (b ∷ bs) = let rest = clean bs in if b == 13 then rest else (if b == 9 then 32 else b) ∷ rest

-- The bytes from an address on are these and then a 0.
unfoldable pub IsString : Buffer → ℕ → List ℕ → Type 0
IsString m a [] = m a ≡ 0
IsString m a (b ∷ bs) = (m a ≡ b) × (b ≢ 0) × IsString m (a + 1) bs

IsString-agree :
    (m m' : Buffer) (a : ℕ) (s : List ℕ)
    → ((x : ℕ) → a ≤ x → m' x ≡ m x)
    → IsString m a s
    → IsString m' a s
unfolding IsString
IsString-agree m m' a [] same h = same a (omega arith) ∙ h
IsString-agree m m' a (b ∷ bs) same (e, nz, h) =
    (same a (omega arith) ∙ e, nz, IsString-agree m m' (a + 1) bs (λ x h. same x (omega arith)) h)

string_at-IsString :
    (n : ℕ) (m : Buffer) (a : ℕ) (s : List ℕ) → IsString m a s → length s < n → string_at n m a ≡ s
unfolding IsString string_at
string_at-IsString zero m a s h l = absurd (omega arith)
string_at-IsString (suc n) m a [] h l = ground arith
string_at-IsString (suc n) m a (b ∷ bs) (e, nz, h) l =
    ground (arith, string_at-IsString n m (a + 1) bs h (omega arith))

length-string_at : (n : ℕ) (m : Buffer) (a : ℕ) → length (string_at n m a) ≤ n
unfolding string_at
length-string_at zero m a = omega arith
length-string_at (suc n) m a = ground (arith, length-string_at n m (a + 1))

length-clean : (s : List ℕ) → length (clean s) ≤ length s
unfolding clean
length-clean [] = omega arith
length-clean (b ∷ bs) = ground (arith, length-clean bs)

string_at_end : (n : ℕ) (m : Buffer) (a : ℕ) → m a ≡ 0 → string_at (suc n) m a ≡ []
unfolding string_at
string_at_end n m a e = ground arith

string_at_cons :
    (n : ℕ) (m : Buffer) (a : ℕ) → m a ≢ 0 → string_at (suc n) m a ≡ m a ∷ string_at n m (a + 1)
unfolding string_at
string_at_cons n m a nz = ground arith

-- The first `n` bytes are a string once a 0 stands behind them.
pub string_at_terminated :
    (n : ℕ) (m : Buffer) (a : ℕ) → IsString (update m (a + n) 0) a (string_at n m a)
unfolding IsString string_at
string_at_terminated zero m a = ground arith
string_at_terminated (suc n) m a = elim (ℕ_discrete (m a) 0) [
  | yes e ↦ rw (string_at_end n m a e) (ground arith)
  | no nz ↦ rw (string_at_cons n m a nz) (
    ground arith,
    nz,
    IsString-agree (update m (a + 1 + n) 0) (update m (a + suc n) 0) (a + 1) (string_at n m (a + 1))
        (λ x h. ground arith) (string_at_terminated n m (a + 1)),
  )
]

strip_byte_below : (m : Buffer) (p q x : ℕ) → p ≤ q → x < p → (strip_byte m p q).0 x ≡ m x
unfolding strip_byte
strip_byte_below m p q x le lt = ground arith

strip_byte_next :
    (m : Buffer) (p q : ℕ) → (p ≤ (strip_byte m p q).1) × ((strip_byte m p q).1 ≤ p + 1)
unfolding strip_byte
strip_byte_next m p q = ground arith

strip_byte_above : (m : Buffer) (p q x : ℕ) → p ≤ q → q < x → (strip_byte m p q).0 x ≡ m x
unfolding strip_byte
strip_byte_above m p q x le lt = ground arith

strip_below : (n : ℕ) (m : Buffer) (p q x : ℕ) → p ≤ q → x < p → strip n m p q x ≡ m x
unfolding strip
strip_below zero m p q x le lt = refl
strip_below (suc n) m p q x le lt = ground (
  arith,
  strip_byte_next m p q,
  strip_byte_below m p q x le lt,
  strip_below n (strip_byte m p q).0 (strip_byte m p q).1 (q + 1) x
      (omega (arith, strip_byte_next m p q)) (omega (arith, strip_byte_next m p q)),
)

strip_cons :
    (n : ℕ) (m : Buffer) (p q : ℕ)
    → m q ≢ 0
    → strip (suc n) m p q ≡ strip n (strip_byte m p q).0 (strip_byte m p q).1 (q + 1)
unfolding strip
strip_cons n m p q nz = elim (Bool-cases (m q == 0)) [
  | inl e ↦ absurd (ground (arith, e, nz))
  | inr e ↦ rw e refl
]

-- What is behind the reading place is as it was, so the rest of the text is still there.
strip_byte_rest :
    (m : Buffer) (p q : ℕ) (s : List ℕ)
    → p ≤ q
    → IsString m (q + 1) s
    → IsString (strip_byte m p q).0 (q + 1) s
strip_byte_rest m p q s le h =
    IsString-agree m (strip_byte m p q).0 (q + 1) s
      (λ x l. strip_byte_above m p q x le (omega arith)) h

strip_byte_skips : (m : Buffer) (p q b : ℕ) → m q ≡ b → b == 13 ≡ true → (strip_byte m p q).1 ≡ p
unfolding strip_byte
strip_byte_skips m p q b e r = ground (arith, e, r)

strip_byte_keeps :
    (m : Buffer) (p q b : ℕ) → m q ≡ b → b == 13 ≡ false → (strip_byte m p q).1 ≡ p + 1
unfolding strip_byte
strip_byte_keeps m p q b e k = ground (arith, e, k)

-- A byte that is kept stands in front of what the rest of the loop leaves.
strip_byte-clean :
    (left m : Buffer) (p q b : ℕ) (bs : List ℕ)
    → m q ≡ b
    → b ≢ 0
    → (p < (strip_byte m p q).1 → left p ≡ (strip_byte m p q).0 p)
    → IsString left (strip_byte m p q).1 (clean bs)
    → IsString left p (clean (b ∷ bs))
unfolding strip_byte clean IsString
strip_byte-clean left m p q b bs e nz kept h = elim (Bool-cases (b == 13)) [
  | inl r ↦ rw r (subst (λ x. IsString left x (clean bs)) (strip_byte_skips m p q b e r) h)
  | inr k ↦ rw k (
    ground (arith, kept, e, k),
    ground arith,
    subst (λ x. IsString left x (clean bs)) (strip_byte_keeps m p q b e k) h,
  )
]

-- Writing behind the reading place in the same buffer, the loop leaves the cleaned text.
strip-clean :
    (n : ℕ) (m : Buffer) (p q : ℕ) (s : List ℕ)
    → p ≤ q
    → IsString m q s
    → length s < n
    → IsString (strip n m p q) p (clean s)
unfolding strip clean IsString
strip-clean zero m p q s le h l = absurd (omega arith)
strip-clean (suc n) m p q [] le h l = ground arith
strip-clean (suc n) m p q (b ∷ bs) le (e, nz, h) l = rw (strip_cons n m p q (ground arith)) (
    strip_byte-clean (strip n (strip_byte m p q).0 (strip_byte m p q).1 (q + 1)) m p q b bs e nz
      (λ lt. strip_below n (strip_byte m p q).0 (strip_byte m p q).1 (q + 1) p (next) lt)
      (strip-clean n (strip_byte m p q).0 (strip_byte m p q).1 (q + 1) bs next
        (strip_byte_rest m p q bs le h) (omega arith)))
  where
    next : (strip_byte m p q).1 ≤ q + 1
    next = omega (arith, strip_byte_next m p q)

-- Reading the buffer after the loop gives the cleaned text, whatever stood behind the text.
pub string_at-strip :
    (n : ℕ) (m : Buffer)
    → string_at (suc n) (strip (suc n) (update m n 0) 0 0) 0 ≡ clean (string_at n m 0)
string_at-strip n m =
    string_at-IsString (suc n) (strip (suc n) (update m n 0) 0 0) 0 (clean (string_at n m 0))
      (strip-clean (suc n) (update m n 0) 0 0 (string_at n m 0) (omega arith)
        (subst (λ a. IsString (update m a 0) 0 (string_at n m 0)) (omega arith)
          (string_at_terminated n m 0))
        (omega (arith, length-string_at n m 0)))
      (omega (arith, length-clean (string_at n m 0), length-string_at n m 0))
