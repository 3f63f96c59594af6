-- ===== src/Plic/Dispatch.antt =====
-- plic.c: enabling an interrupt and dispatching it.
use front_mangopi_overlay.Plic.{
  Plic, nvctl, plicenable, intrenable, pliccomplete, handler, dispatch, plicintr,
}
use front_mangopi_overlay.Base.{
  ap, ℕ, ◌<◌, ◌≡◌, ◌≢◌, update, Option, none, some, List, [], ◌∷◌, ◌++◌, arith, refl,
}

module _ {S : Type 0} where
  handler-intrenable :
      (irq : ℕ) (f : S → S) (p : Plic S)
      → 0 < irq
      → irq < nvctl
      → intrenable irq f p
        ≡ some (plicenable irq 1 (record p { vctl = update p.vctl irq (some f) }))
  unfolding intrenable
  handler-intrenable irq f p h h' = ground arith

  handler-own :
      (irq : ℕ) (f : S → S) (p : Plic S)
      → 0 < irq
      → irq < nvctl
      → handler irq (plicenable irq 1 (record p { vctl = update p.vctl irq (some f) })) ≡ some f
  unfolding handler plicenable
  handler-own irq f p h h' = ground arith

  handler-other :
      (irq j : ℕ) (f : S → S) (p : Plic S)
      → j ≢ irq
      → handler j (plicenable irq 1 (record p { vctl = update p.vctl irq (some f) })) ≡ handler j p
  unfolding handler plicenable
  handler-other irq j f p h = ground arith

  dispatch-same :
      (j : ℕ) (o o' : Option (S → S)) (p q : Plic S)
      → o' ≡ o
      → q.shared ≡ p.shared
      → q.unhandled ≡ p.unhandled
      → ((dispatch j o' q).shared ≡ (dispatch j o p).shared)
        × ((dispatch j o' q).unhandled ≡ (dispatch j o p).unhandled)
  unfolding dispatch
  dispatch-same j (some f) o' p q e es eu = ground arith
  dispatch-same j none o' p q e es eu = ground arith

  dispatch-completed :
      (j : ℕ) (o : Option (S → S)) (p : Plic S) → (dispatch j o p).completed ≡ p.completed
  unfolding dispatch
  dispatch-completed j (some f) p = refl
  dispatch-completed j none p = ground arith

  -- An interrupt number from 1 to 175 is accepted. A claim of that number then runs the handler once
  -- on the shared state, and a claim of any other number does to the shared state and to the list of
  -- unhandled numbers what it did before. Both
  -- complete the number that was claimed.
  pub plicintr-intrenable :
      (irq j : ℕ) (f : S → S) (p : Plic S)
      → 0 < irq
      → irq < nvctl
      → j ≢ irq
      → (q : Plic S) × (intrenable irq f p ≡ some q)
        × (q.pri irq ≡ 1)
        × ((plicintr irq q).shared ≡ f p.shared)
        × ((plicintr j q).shared ≡ (plicintr j p).shared)
        × ((plicintr j q).unhandled ≡ (plicintr j p).unhandled)
        × ((plicintr irq q).completed ≡ p.completed ++ irq ∷ [])
        × ((plicintr j q).completed ≡ p.completed ++ j ∷ [])
  unfolding plicenable plicintr pliccomplete dispatch
  plicintr-intrenable irq j f p h h' ne =
      let q = plicenable irq 1 (record p { vctl = update p.vctl irq (some f) }) in
      let other =
        dispatch-same j (handler j p) (handler j q) p q (handler-other irq j f p ne) refl refl in
      (
        q,
        handler-intrenable irq f p h h',
        ground arith,
        (dispatch-same irq (some f) (handler irq q) q q (handler-own irq f p h h') refl refl).0,
        other.0,
        other.1,
        ap (λ (cs : List ℕ). cs ++ irq ∷ []) (dispatch-completed irq (handler irq q) q),
        ap (λ (cs : List ℕ). cs ++ j ∷ []) (dispatch-completed j (handler j q) q),
      )
