-- ===== src/Trap/Note/RoundTrip.antt =====
-- The return from a note's handler.
use front_mangopi_overlay.Trap.Note.Frame.{
  low_of, notify-checked, deliver-keeps, at_nureg, saved_sp,
}
use front_mangopi_overlay.Trap.Regs.{Layout, IsLayout, Fits}
use front_mangopi_overlay.Trap.Note.{
  by2wd, NoteArg, ncont, nrstr, nsave, other_arg, minus, Notified, setregisters, deliver, notify,
  continues, saves, resume, noted,
}
use mathlib.Core.Path.{subst}
use front_mangopi_overlay.Base.Bits.{bit_and-ones, bit_and-one}
use front_mangopi_overlay.Base.{
  ℕ, ◌+◌, ◌*◌, ◌^◌, ◌%◌, ◌<◌, ◌≡◌, ◌≢◌, Bool, true, false, some, arith, refl, ◌∙◌, sym, ap,
}

module _ (l : Layout) (okaddr : (addr len : ℕ) (writing : Bool) → Bool) where
  noted-aligned :
      (arg0 : NoteArg) (oureg : ℕ) (ureg mem : ℕ → ℕ)
      → oureg % 8 ≡ 0
      → noted l okaddr arg0 oureg ureg mem
        ≡ resume l okaddr arg0 oureg (setregisters l ureg oureg mem) mem
  unfolding noted
  noted-aligned arg0 oureg ureg mem h = ground (arith, bit_and-ones 3 oureg)

  continues-ok :
      (ureg mem : ℕ → ℕ) (pc sp : ℕ)
      → ureg l.pc ≡ pc
      → ureg l.sp ≡ sp
      → okaddr pc by2wd false ≡ true
      → okaddr sp by2wd false ≡ true
      → pc % 2 ≡ 0
      → sp % 8 ≡ 0
      → (continues l okaddr ureg mem).ok ≡ true
  unfolding continues
  continues-ok ureg mem pc sp e f h h' pc_even sp_aligned =
      rw (e, f, h, h') (ground (arith, bit_and-one pc, bit_and-ones 3 sp))

  setregisters-other :
      (ureg mem : ℕ → ℕ) (uva i : ℕ)
      → i ≢ l.status
      → setregisters l ureg uva mem i ≡ mem (uva + i * by2wd)
  unfolding setregisters
  setregisters-other ureg mem uva i h = ground arith

  setregisters-status :
      (ureg mem : ℕ → ℕ) (uva : ℕ) → setregisters l ureg uva mem l.status ≡ ureg l.status
  unfolding setregisters
  setregisters-status ureg mem uva = ground arith

  -- A process gets a note, and its handler returns with NCONT and has kept the Ureg that it was
  -- given. If the process ran at an even pc that can be read, on a stack that is aligned to 8 and
  -- can be read, it goes on with the registers that it had when the note came, but `status`, which
  -- stays what it is at the return; memory is as the handler left it.
  pub noted-notify :
      (handler : ℕ) (ureg msg mem : ℕ → ℕ) (r : Notified) (after mem' : ℕ → ℕ)
      → IsLayout l
      → Fits okaddr
      → notify l okaddr handler ureg msg mem ≡ some r
      → ((i : ℕ) → i < l.words → mem' (r.nureg + i * by2wd) ≡ r.mem (r.nureg + i * by2wd))
      → okaddr (ureg l.pc) by2wd false ≡ true
      → okaddr (ureg l.sp) by2wd false ≡ true
      → ureg l.pc % 2 ≡ 0
      → ureg l.sp % 8 ≡ 0
      → let q = noted l okaddr ncont r.nureg after mem' in
        (q.ok ≡ true)
        × (q.ureg l.status ≡ after l.status)
        × ((i : ℕ) → i < l.words → i ≢ l.status → q.ureg i ≡ ureg i)
        × ((a : ℕ) → q.mem a ≡ mem' a)
  unfolding resume continues
  noted-notify handler ureg msg mem r after mem' is fit e kept pc_ok sp_ok pc_even sp_aligned =
      let checked = notify-checked l okaddr handler ureg msg mem r e in
      let fits = fit (low_of l okaddr (ureg l.sp)) _ true checked.0 in
      let d = deliver l okaddr handler ureg msg mem in
      let back : (i : ℕ) → i < l.words → mem' (r.nureg + i * by2wd) ≡ ureg i = (λ i h.
        kept i h
        ∙ subst (λ (n : Notified). n.mem (n.nureg + i * by2wd) ≡ ureg i) checked.2
            (deliver-keeps l okaddr handler ureg msg mem i is fits h)) in
      let aligned : r.nureg % 8 ≡ 0 =
        subst (λ (n : Notified). n.nureg % 8 ≡ 0) checked.2
          (at_nureg l okaddr handler ureg msg mem checked.1) in
      let other : (i : ℕ)
          → i < l.words
          → i ≢ l.status
          → setregisters l after r.nureg mem' i ≡ ureg i =
        (λ i h ne. setregisters-other after mem' r.nureg i ne ∙ back i h) in
      rw (noted-aligned ncont r.nureg after mem' aligned) (
        continues-ok (setregisters l after r.nureg mem') mem' (ureg l.pc) (ureg l.sp)
            (other l.pc is.pc_word (λ h. is.status_pc (sym h)))
            (other l.sp is.sp_word (λ h. is.status_sp (sym h))) pc_ok sp_ok pc_even sp_aligned,
        setregisters-status after mem' r.nureg,
        other,
        λ a. refl,
      )

  -- Returning from a note never changes `status`, whatever the argument and the Ureg are, and
  -- whether it succeeds or not.
  pub noted-status :
      (arg0 : NoteArg) (oureg : ℕ) (ureg mem : ℕ → ℕ)
      → IsLayout l
      → (noted l okaddr arg0 oureg ureg mem).ureg l.status ≡ ureg l.status
  unfolding noted resume continues saves setregisters
  noted-status ncont oureg ureg mem is = ground arith
  noted-status nrstr oureg ureg mem is = ground arith
  noted-status nsave oureg ureg mem is = ground arith
  noted-status other_arg oureg ureg mem is = ground arith

  saves-ok :
      (oureg sp : ℕ) (ureg mem : ℕ → ℕ)
      → IsLayout l
      → minus (minus oureg (4 * by2wd)) (l.errwords * by2wd) ≡ sp
      → okaddr (ureg l.pc) by2wd false ≡ true
      → okaddr sp (4 * by2wd) true ≡ true
      → ureg l.pc % 2 ≡ 0
      → sp % 8 ≡ 0
      → sp + 8 < 2 ^ 64
      → let q = saves l okaddr oureg ureg mem in
        (q.ok ≡ true)
        × (q.ureg l.sp ≡ sp)
        × (q.ureg l.arg ≡ oureg)
        × (q.ureg l.pc ≡ ureg l.pc)
        × (q.mem (sp + 8) ≡ oureg)
  unfolding saves
  saves-ok oureg sp ureg mem is e h h' pc_even sp_aligned small =
      rw (e, h, h') (ground (arith, bit_and-one (ureg l.pc), bit_and-ones 3 sp))

  -- A handler that returns with NSAVE from the Ureg that `notify` gave it, at an even pc that can be
  -- read, and with the four words at the stack pointer that `notify` set still writable, goes on
  -- on that same stack pointer, with the address of the Ureg as argument, in R8 and in memory.
  pub noted-nsave :
      (handler : ℕ) (ureg msg mem : ℕ → ℕ) (r : Notified) (after mem' : ℕ → ℕ)
      → IsLayout l
      → Fits okaddr
      → notify l okaddr handler ureg msg mem ≡ some r
      → okaddr (mem' (r.nureg + l.pc * by2wd)) by2wd false ≡ true
      → okaddr (r.ureg l.sp) (4 * by2wd) true ≡ true
      → mem' (r.nureg + l.pc * by2wd) % 2 ≡ 0
      → let q = noted l okaddr nsave r.nureg after mem' in
        (q.ok ≡ true)
        × (q.ureg l.sp ≡ r.ureg l.sp)
        × (q.ureg l.arg ≡ r.nureg)
        × (q.ureg l.pc ≡ mem' (r.nureg + l.pc * by2wd))
        × (q.mem (r.ureg l.sp + 8) ≡ r.nureg)
  unfolding resume
  noted-nsave handler ureg msg mem r after mem' is fit e pc_ok sp_ok pc_even =
      let checked = notify-checked l okaddr handler ureg msg mem r e in
      let fits = fit (low_of l okaddr (ureg l.sp)) _ true checked.0 in
      let s =
        subst
          (λ (n : Notified).
            (minus (minus n.nureg (4 * by2wd)) (l.errwords * by2wd) ≡ n.ureg l.sp)
            × (n.ureg l.sp % 8 ≡ 0)
            × (n.ureg l.sp + 8 < 2 ^ 64))
          checked.2 (saved_sp l okaddr handler ureg msg mem is fits checked.1) in
      let aligned : r.nureg % 8 ≡ 0 =
        subst (λ (n : Notified). n.nureg % 8 ≡ 0) checked.2
          (at_nureg l okaddr handler ureg msg mem checked.1) in
      let set = setregisters l after r.nureg mem' in
      let pc : set l.pc ≡ mem' (r.nureg + l.pc * by2wd) =
        setregisters-other after mem' r.nureg l.pc (λ h. is.status_pc (sym h)) in
      let q =
        saves-ok r.nureg (r.ureg l.sp) set mem' is s.0 (ap (λ x. okaddr x by2wd false) pc ∙ pc_ok)
          sp_ok (ap (λ x. x % 2) pc ∙ pc_even) s.1 s.2 in
      rw (noted-aligned nsave r.nureg after mem' aligned) (q.0, q.1, q.2, q.3 ∙ pc, q.4)
