-- ===== src/Base/Bytes.antt =====
-- The bytes of a C string that is a literal of the source; all of them are ASCII.
use Prim.Native.Char.{code}
use Prim.Native.String.{String, [] as []ˢ, ◌∷◌ as ◌∷ˢ◌}
use Prim.Native.Nat.{ℕ}
use mathlib.Core.List.{List, [], ◌∷◌}

abbrev pub bytes : String → List ℕ
bytes []ˢ = []
bytes (c ∷ˢ s) = code c ∷ bytes s
