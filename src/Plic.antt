-- ===== src/Plic.antt =====
-- plic.c: the interrupt controller and the table of handlers. A handler is a function on the state
-- `S` that handlers share; registers are 32-bit words.
pub mod Dispatch
use front_mangopi_overlay.Base.{
  ℕ, zero, suc, ◌+◌, ◌-◌, ◌*◌, ◌/◌, ◌%◌, ◌^◌, ◌==◌, ltb, leb, if◌then◌else◌, bit_or, ◌<<<◌, update,
  Option, none, some, List, [], ◌∷◌, ◌++◌,
}

abbrev pub nvctl : ℕ
nvctl = 176

-- `Vctl`, the registers of the controller for context 1, and the shared state. A handler's `f` and
-- its argument `a` are one function here; `none` is a nil `f`.
pub record Plic (S : Type 0) : Type 0 where
  pub vctl : ℕ → Option (S → S)
  pub pri : ℕ → ℕ
  pub en : ℕ → ℕ
  pub threshold : ℕ
  pub completed : List ℕ
  pub unhandled : List ℕ
  pub shared : S

module _ {S : Type 0} where
  unfoldable pub plicinit : Plic S → Plic S
  plicinit p = record p { threshold = 0 }

  unfoldable pub plicenable : (irq priority : ℕ) → Plic S → Plic S
  plicenable irq priority p = record p {
    pri = update p.pri irq priority;
    en = update p.en (irq / 32) (bit_or (p.en (irq / 32)) (1 <<< (irq % 32)));
  }

  -- `none` is the panic. An `irq` below 0 is as 0 here: both are refused.
  unfoldable pub intrenable : (irq : ℕ) (f : S → S) → Plic S → Option (Plic S)
  unfolding plicenable
  intrenable irq f p =
      if leb irq 0
      then none
      else if leb nvctl irq
      then none
      else some (plicenable irq 1 (record p { vctl = update p.vctl irq (some f) }))

  unfoldable pub pliccomplete : ℕ → Plic S → Plic S
  pliccomplete irq p = record p { completed = p.completed ++ irq ∷ [] }

  -- The handler in `vctl[irq]`, where the test of `plicintr` finds one.
  unfoldable pub handler : ℕ → Plic S → Option (S → S)
  handler irq p = if leb irq 0 then none else if ltb irq nvctl then p.vctl irq else none

  -- The two branches of `plicintr`: a handler is called, or the number is reported unless it is 0.
  unfoldable pub dispatch : (irq : ℕ) → Option (S → S) → Plic S → Plic S
  dispatch irq (some f) p = record p { shared = f p.shared }
  dispatch irq none p = if irq == 0 then p else record p { unhandled = p.unhandled ++ irq ∷ [] }

  -- `irq` is what reading `claim` returned; the state is that after the completion.
  unfoldable pub plicintr : (irq : ℕ) → Plic S → Plic S
  unfolding handler pliccomplete dispatch
  plicintr irq p = pliccomplete irq (dispatch irq (handler irq p) p)
