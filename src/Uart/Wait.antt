-- ===== src/Uart/Wait.antt =====
-- Waiting for a status bit ends if the bit will be read.
use front_mangopi_overlay.Uart.{wait_for}
use front_mangopi_overlay.Base.{
  ℕ, suc, ◌<◌, ◌≡◌, bit_and, ◌==◌, if◌then◌else◌, List, [], ◌∷◌, some, arith, Bool-cases, inl, inr,
}

-- How many of the reads show the bit.
abbrev pub ready : (mask : ℕ) → List ℕ → ℕ
ready mask [] = 0
ready mask (v ∷ vs) = if bit_and v mask == 0 then ready mask vs else suc (ready mask vs)

pub wait_for-ready :
    (mask : ℕ) (vs : List ℕ)
    → 0 < ready mask vs
    → (rest : List ℕ) × (wait_for mask vs ≡ some rest) × (suc (ready mask rest) ≡ ready mask vs)
unfolding wait_for
wait_for-ready mask [] h = absurd (omega arith)
wait_for-ready mask (v ∷ vs) h = elim (Bool-cases (bit_and v mask == 0)) [
  | inl e ↦ rw e (wait_for-ready mask vs (ground arith))
  | inr e ↦ (vs, ground arith, ground arith)
]
