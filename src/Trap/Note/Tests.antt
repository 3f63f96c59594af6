-- ===== src/Trap/Note/Tests.antt =====
-- A note on a concrete stack, with a Ureg of 37 words and an ERRMAX of 16 words. `okaddr` accepts
-- what lies below 2^38.
use front_mangopi_overlay.Trap.Regs.{Layout, IsLayout, Fits}
use front_mangopi_overlay.Trap.Note.{ncont, nsave, Notified, notify, noted, deliver}
use front_mangopi_overlay.Trap.Note.RoundTrip.{noted-notify, noted-status, noted-nsave}
use front_mangopi_overlay.Trap.Note.Frame.{notify-frame}
use front_mangopi_overlay.Base.{
  ℕ, ◌+◌, ◌*◌, ◌^◌, ◌<◌, ◌≤◌, ◌≡◌, ◌≢◌, ◌⊎◌, leb, Bool, true, arith, refl, update,
}

abbrev pub regs : Layout
regs = record { words = 37; errwords = 16; pc = 0; sp = 2; r1 = 1; arg = 8; status = 32; ret = 8 }

pub regs-IsLayout : IsLayout regs
regs-IsLayout = record {
  pc_word = omega arith;
  sp_word = omega arith;
  arg_word = omega arith;
  pc_sp = omega arith;
  pc_r1 = omega arith;
  sp_r1 = omega arith;
  arg_pc = omega arith;
  arg_sp = omega arith;
  arg_r1 = omega arith;
  status_pc = omega arith;
  status_sp = omega arith;
  status_r1 = omega arith;
  status_arg = omega arith;
  ret_pc = omega arith;
  ret_sp = omega arith;
  ret_word = omega arith;
  few_words = omega arith;
  few_errwords = omega arith;
}

abbrev pub low_half : (addr len : ℕ) (writing : Bool) → Bool
low_half a n w = leb (a + n) (2 ^ 38)

pub low_half-Fits : Fits low_half
low_half-Fits a n w h = ground arith

-- Registers at pc 0x1020 and sp 0x10000.
abbrev pub running : ℕ → ℕ
running i = update (update (λ j. j) 0 0x1020) 2 0x10000 i

abbrev at_note : Notified
at_note = deliver regs low_half 0x2000 running (λ i. 7) (λ a. 0)

noted-notify_example :
    let q = noted regs low_half ncont at_note.nureg (λ i. 5) at_note.mem in
    (q.ok ≡ true)
    × (q.ureg 32 ≡ 5)
    × ((i : ℕ) → i < 37 → i ≢ 32 → q.ureg i ≡ running i)
    × ((a : ℕ) → q.mem a ≡ at_note.mem a)
unfolding notify
noted-notify_example =
    noted-notify regs low_half 0x2000 running (λ i. 7) (λ a. 0) at_note (λ i. 5) at_note.mem
      regs-IsLayout low_half-Fits refl (λ i h. refl) refl refl refl refl

noted-nsave_example :
    let q = noted regs low_half nsave at_note.nureg (λ i. 5) at_note.mem in
    (q.ok ≡ true)
    × (q.ureg 2 ≡ at_note.ureg 2)
    × (q.ureg 8 ≡ at_note.nureg)
    × (q.ureg 0 ≡ 0x1020)
    × (q.mem (at_note.ureg 2 + 8) ≡ at_note.nureg)
unfolding notify
noted-nsave_example =
    noted-nsave regs low_half 0x2000 running (λ i. 7) (λ a. 0) at_note (λ i. 5) at_note.mem
      regs-IsLayout low_half-Fits refl refl refl refl

notify-frame_example :
    let sp = at_note.ureg 2 in
    (low_half sp (37 * 8 + 16 * 8 + 32) true ≡ true)
    × ((a : ℕ) → (a < sp) ⊎ (sp + (37 * 8 + 16 * 8 + 32) ≤ a) → at_note.mem a ≡ 0)
    × (at_note.mem (sp + 8) ≡ at_note.nureg)
    × (at_note.mem (sp + 16) ≡ sp + 24)
    × ((i : ℕ) → i < 16 → at_note.mem (sp + 24 + i * 8) ≡ 7)
    × (at_note.ureg 8 ≡ at_note.nureg)
    × (at_note.ureg 0 ≡ 0x2000)
unfolding notify
notify-frame_example =
    notify-frame regs low_half 0x2000 running (λ i. 7) (λ a. 0) at_note regs-IsLayout low_half-Fits
      refl

noted-status_example : (noted regs low_half nsave 0x5000 running (λ a. a)).ureg 32 ≡ 32
noted-status_example = noted-status regs low_half nsave 0x5000 running (λ a. a) regs-IsLayout
