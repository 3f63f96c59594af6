-- ===== src/Usb/Reset.antt =====
-- `ehcireset`: the writes it makes, whatever the controller answers, and the number of frames.
use mathlib.Core.List.{append-nil, append_assoc}
use front_mangopi_overlay.Usb.{
  Event, stopped, cleared_seg, wrote_cmd, timed_out, Device, Ctlr, chcreset, cflsmask, citcmask,
  citc8, c64, start_reset, wait_reset, set_threshold, frames_of, set_frames, stop_run, finish_reset,
  ehcireset,
}
use front_mangopi_overlay.Usb.Wait.{same_but, delays, in_reset, Polled, wait_reset-Polled}
use front_mangopi_overlay.Base.Bits.{bit_and_above, bit_and-ones}
use front_mangopi_overlay.Base.Bits.Field.{replace_field}
use front_mangopi_overlay.Base.{
  ℕ, zero, suc, ◌+◌, ◌*◌, ◌/◌, ◌%◌, ◌^◌, ◌<◌, ◌≡◌, ◌⊎◌, inl, inr, bit_and, bit_or, not32, ◌==◌,
  if◌then◌else◌, List, [], ◌∷◌, ◌++◌, arith, refl, ap, sym, ◌∙◌, Bool, true, false, Bool-cases,
  Option, none, some,
}

-- The frame-list size as the controller reports it: bits 3:2 of the command register.
abbrev pub size_field : ℕ → ℕ
size_field v = v / 4 % 4

-- `v` with the interrupt threshold, bits 23:16, set to 8 micro-frames.
abbrev pub HasThreshold : (v w : ℕ) → Type 0
HasThreshold v w = (w / 2 ^ 16 % 256 ≡ 8) × (w % 2 ^ 16 ≡ v % 2 ^ 16) × (w / 2 ^ 24 ≡ v / 2 ^ 24)

-- The message comes after the last of 100 rounds.
abbrev pub message : Bool → List Event
message late = if late then timed_out ∷ [] else []

-- What one call does to the device, given how the wait went and what it writes in the end.
abbrev pub reset_events : (capparms cmd rounds : ℕ) (late : Bool) (last : ℕ) → List Event
reset_events capparms cmd rounds late last =
    (stopped ∷ (if bit_and capparms c64 == 0 then [] else cleared_seg ∷ []))
    ++ (wrote_cmd (bit_or cmd chcreset) ∷ ((delays rounds ++ message late) ++ wrote_cmd last ∷ []))

pub record Reset (d : Device) (c : Ctlr) (result : Option Ctlr) : Type 0 where
  pub rounds : ℕ
  pub late : Bool
  pub busy : (j : ℕ) → j < rounds → in_reset (d.cmd (c.reads + 1 + j)) ≡ 1
  pub ended :
      ((late ≡ false) × (rounds < 100) × (in_reset (d.cmd (c.reads + 1 + rounds)) ≡ 0))
      ⊎ ((late ≡ true) × (rounds ≡ 100))
  pub last : ℕ
  pub reads : ℕ
  pub reads_after : reads ≡ c.reads + 1 + rounds + (if late then 0 else 1)
  pub threshold : HasThreshold (d.cmd reads) last
  pub outcome :
      ((size_field (d.cmd (reads + 1)) < 3)
        × (result
            ≡ some (record c {
              nframes = 1024 / 2 ^ size_field (d.cmd (reads + 1));
              reads = reads + 2;
              log = c.log ++ reset_events d.capparms (d.cmd c.reads) rounds late last;
            })))
      ⊎ ((size_field (d.cmd (reads + 1)) ≡ 3) × (result ≡ none))

size_bits : (v : ℕ) → bit_and v cflsmask ≡ size_field v * 4
size_bits v = bit_and_above 2 v 3 ∙ ap (λ t. t * 4) (bit_and-ones 2 (v / 4))

frames_of_field :
    (v : ℕ)
    → ((size_field v < 3) × (frames_of (bit_and v cflsmask) ≡ some (1024 / 2 ^ size_field v)))
      ⊎ ((size_field v ≡ 3) × (frames_of (bit_and v cflsmask) ≡ none))
unfolding frames_of
frames_of_field v = rw (size_bits v) (by_field (size_field v) (omega arith))
  where
    by_field :
        (k : ℕ)
        → k < 4
        → ((k < 3) × (frames_of (k * 4) ≡ some (1024 / 2 ^ k)))
          ⊎ ((k ≡ 3) × (frames_of (k * 4) ≡ none))
    by_field zero h = inl (omega arith, refl)
    by_field (suc zero) h = inl (omega arith, refl)
    by_field (suc (suc zero)) h = inl (omega arith, refl)
    by_field (suc (suc (suc zero))) h = inr (refl, refl)
    by_field (suc (suc (suc (suc k)))) h = absurd (omega arith)

threshold_set : (v : ℕ) → v < 2 ^ 32 → HasThreshold v (bit_or (bit_and v (not32 citcmask)) citc8)
threshold_set v h = rw value (omega arith)
  where
    value :
        bit_or (bit_and v (not32 citcmask)) citc8 ≡ (v / 2 ^ 24 * 2 ^ 8 + 8) * 2 ^ 16 + v % 2 ^ 16
    value =
        replace_field 16 8 8 (v / 2 ^ 24) (v / 2 ^ 16 % 2 ^ 8) (v % 2 ^ 16) 8 v (not32 citcmask)
          (omega arith) refl (omega arith) (omega arith) (omega arith) (omega arith)

module _ (d : Device) (c : Ctlr) where
  abbrev last_of : ℕ → ℕ
  last_of t = bit_or (bit_and (d.cmd t) (not32 citcmask)) citc8

  finished :
      (t : ℕ) (log : List Event)
      → let result = finish_reset d (record c { reads = t; log = log }) in
        ((size_field (d.cmd (t + 1)) < 3)
          × (result
              ≡ some (record c {
                nframes = 1024 / 2 ^ size_field (d.cmd (t + 1));
                reads = t + 2;
                log = log ++ wrote_cmd (last_of t) ∷ [];
              })))
        ⊎ ((size_field (d.cmd (t + 1)) ≡ 3) × (result ≡ none))
  unfolding finish_reset set_threshold set_frames
  finished t log = elim (frames_of_field (d.cmd (t + 1))) [
    | inl (h, e) ↦ inl (
      h,
      rw (one_more, e)
          (ap
            (λ r. some (record c {
              nframes = 1024 / 2 ^ size_field (d.cmd (t + 1));
              reads = r;
              log = log ++ wrote_cmd (last_of t) ∷ [];
            }))
            (omega arith)),
    )
    | inr (h, e) ↦ inr (h, rw (one_more, e) refl)
  ]
    where
      one_more : suc t ≡ t + 1
      one_more = omega arith

  -- What was done before the wait.
  abbrev first_events : List Event
  first_events =
      (stopped ∷ (if bit_and d.capparms c64 == 0 then [] else cleared_seg ∷ []))
      ++ wrote_cmd (bit_or (d.cmd c.reads) chcreset) ∷ []

  abbrev started : Ctlr
  started = record c { reads = c.reads + 1; log = c.log ++ first_events }

  reset-started : start_reset d (stop_run d c) ≡ started
  unfolding start_reset stop_run
  reset-started = elim (Bool-cases (bit_and d.capparms c64 == 0)) [
    | inl e ↦ rw e (
        same_but c (omega arith)
          (append_assoc c.log (stopped ∷ []) (wrote_cmd (bit_or (d.cmd c.reads) chcreset) ∷ [])))
    | inr e ↦ rw e (
        same_but c (omega arith) (
          append_assoc (c.log ++ stopped ∷ []) (cleared_seg ∷ [])
            (wrote_cmd (bit_or (d.cmd c.reads) chcreset) ∷ [])
          ∙ append_assoc c.log (stopped ∷ [])
              (cleared_seg ∷ wrote_cmd (bit_or (d.cmd c.reads) chcreset) ∷ [])))
  ]

  ehcireset-started : ehcireset d c ≡ finish_reset d (wait_reset d 100 started)
  unfolding ehcireset
  ehcireset-started = ap (λ x. finish_reset d (wait_reset d 100 x)) reset-started

  all_events :
      (rounds : ℕ) (late : Bool) (last : ℕ)
      → (c.log ++ (first_events ++ (delays rounds ++ message late))) ++ wrote_cmd last ∷ []
        ≡ c.log ++ reset_events d.capparms (d.cmd c.reads) rounds late last
  all_events rounds late last =
      append_assoc c.log (first_events ++ (delays rounds ++ message late)) (wrote_cmd last ∷ [])
      ∙ ap (λ l. c.log ++ l)
          (append_assoc first_events (delays rounds ++ message late) (wrote_cmd last ∷ [])
            ∙ append_assoc
                (stopped ∷ (if bit_and d.capparms c64 == 0 then [] else cleared_seg ∷ []))
                (wrote_cmd (bit_or (d.cmd c.reads) chcreset) ∷ [])
                ((delays rounds ++ message late) ++ wrote_cmd last ∷ []))

  -- The whole, given how the wait ended.
  ended_at :
      (rounds t : ℕ) (late : Bool) (w : Ctlr)
      → ehcireset d c ≡ finish_reset d w
      → w ≡ record c { reads = t; log = c.log ++ (first_events ++ (delays rounds ++ message late)) }
      → ((size_field (d.cmd (t + 1)) < 3)
          × (ehcireset d c
              ≡ some (record c {
                nframes = 1024 / 2 ^ size_field (d.cmd (t + 1));
                reads = t + 2;
                log = c.log ++ reset_events d.capparms (d.cmd c.reads) rounds late (last_of t);
              })))
        ⊎ ((size_field (d.cmd (t + 1)) ≡ 3) × (ehcireset d c ≡ none))
  ended_at rounds t late w e f =
      elim (finished t (c.log ++ (first_events ++ (delays rounds ++ message late)))) [
        | inl (h, r) ↦ inl (
          h,
          run
              ∙ r
              ∙ ap
                  (λ l. some (record c {
                    nframes = 1024 / 2 ^ size_field (d.cmd (t + 1));
                    reads = t + 2;
                    log = l;
                  }))
                  (all_events rounds late (last_of t)),
        )
        | inr (h, r) ↦ inr (h, run ∙ r)
      ]
    where
      run :
          ehcireset d c
          ≡ finish_reset d (record c {
            reads = t;
            log = c.log ++ (first_events ++ (delays rounds ++ message late));
          })
      run = e ∙ ap (λ x. finish_reset d x) f

  from_wait :
      (w : Ctlr)
      → ehcireset d c ≡ finish_reset d w
      → Polled d 100 started w
      → ((v : ℕ) → d.cmd v < 2 ^ 32)
      → Reset d c (ehcireset d c)
  from_wait w e p words = elim (p.ended) [
    | inl (lt, clear, f) ↦ record {
      rounds = p.rounds;
      late = false;
      busy = p.busy;
      ended = inl (refl, lt, clear);
      last = last_of (c.reads + 1 + p.rounds + 1);
      reads = c.reads + 1 + p.rounds + 1;
      reads_after = refl;
      threshold =
          threshold_set (d.cmd (c.reads + 1 + p.rounds + 1)) (words (c.reads + 1 + p.rounds + 1));
      outcome = ended_at p.rounds (c.reads + 1 + p.rounds + 1) false w e (
          f
          ∙ same_but c refl (
              append_assoc c.log first_events (delays p.rounds)
              ∙ ap (λ l. c.log ++ (first_events ++ l)) (sym (append-nil (delays p.rounds)))));
    }
    | inr (full, f) ↦ record {
      rounds = p.rounds;
      late = true;
      busy = p.busy;
      ended = inr (refl, full);
      last = last_of (c.reads + 1 + p.rounds + 0);
      reads = c.reads + 1 + p.rounds + 0;
      reads_after = refl;
      threshold =
          threshold_set (d.cmd (c.reads + 1 + p.rounds + 0)) (words (c.reads + 1 + p.rounds + 0));
      outcome = ended_at p.rounds (c.reads + 1 + p.rounds + 0) true w e (
          f
          ∙ same_but c (omega arith) (
              append_assoc c.log first_events (delays 100 ++ timed_out ∷ [])
              ∙ ap (λ n. c.log ++ (first_events ++ (delays n ++ timed_out ∷ []))) (sym full)));
    }
  ]

-- Whatever the controller answers, `ehcireset` ends. It stops the controller, clears the upper address
-- bits of one that has 64, asks for the reset and waits in rounds of 1 ms, for as long as the reset
-- bit is set and at most 100, with a message if it never clears. Then it sets the interrupt
-- threshold to 8 and leaves the other bits as they are, and the number of frames is 1024, 512 or 256
-- by the size that the controller reports; the fourth size, and nothing else, is a panic.
pub ehcireset-Reset :
    (d : Device) (c : Ctlr) → ((i : ℕ) → d.cmd i < 2 ^ 32) → Reset d c (ehcireset d c)
ehcireset-Reset d c words =
    from_wait d c (wait_reset d 100 (started d c)) (ehcireset-started d c)
      (wait_reset-Polled d 100 (started d c)) words
