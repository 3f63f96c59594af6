-- ===== src/Base.antt =====
-- The names that the other modules share: numbers, tests, lists and the bit laws.
mod Tests
mod Array
pub mod Bits
pub mod Bytes
pub use Tests.*
pub use Array.*
pub use Prim.Native.Nat.{
  ℕ, zero, suc, ◌+◌, ◌-◌, ◌*◌, ◌/◌, ◌%◌, ◌^◌, ◌≤◌, ◌<◌, min, max, bit_and, bit_or,
}
pub use mathlib.Core.Path.{◌≡◌, refl, sym, ap, ◌∙◌}
pub use mathlib.Core.Logic.{◌≢◌, ◌↔◌, ◌⊎◌, inl, inr}
pub use mathlib.Core.Bool.{Bool, true, false, not, ◌&&◌, ◌||◌}
pub use mathlib.Core.Option.{Option, none, some}
pub use mathlib.Core.List.{List, [], ◌∷◌, ◌++◌, map}
pub use native.Mathlib.Omega.{arith}

-- The chains of fallible steps.
infixl 5 ◌>>=◌
abbrev pub ◌>>=◌ {ℓ κ} : {A : Type ℓ} {B : Type κ} → Option A → (A → Option B) → Option B
none >>= f = none
some a >>= f = f a

module _ {ℓ} {A : Type ℓ} where
  -- The first of two results that is there.
  abbrev pub or_else : Option A → Option A → Option A
  or_else none o = o
  or_else (some v) o = some v

  pub or_else_assoc : (o p q : Option A) → or_else o (or_else p q) ≡ or_else (or_else o p) q
  or_else_assoc none p q = refl
  or_else_assoc (some v) p q = refl

  pub or_else-none : (o : Option A) → or_else o none ≡ o
  or_else-none none = refl
  or_else-none (some v) = refl
