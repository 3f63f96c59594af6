-- ===== src/Trap/Note.antt =====
-- trap.c: `notify`, `noted` and `setregisters`. The layout of `Ureg` (ureg.h), `ERRMAX` and `okaddr`
-- are not in the repository and are parameters. A Ureg is its 64-bit words by index, and memory is
-- read and written by words at their byte addresses: the code refuses an address that is no
-- multiple of 8 before it is used.

pub mod Frame
pub mod RoundTrip
pub mod Tests
use front_mangopi_overlay.Trap.Regs.{Layout}
use front_mangopi_overlay.Base.{
  ℕ, ◌+◌, ◌-◌, ◌*◌, ◌^◌, ◌/◌, ◌==◌, ltb, leb, if◌then◌else◌, ◌&&◌, not, Bool, true, false, bit_and,
  u64, update, Option, none, some,
}

abbrev pub by2wd : ℕ
by2wd = 8

-- The argument of noted(2); `other_arg` is any value that `noted` has no case for.
pub data NoteArg : Type 0 where
  ncont : NoteArg
  nrstr : NoteArg
  nsave : NoteArg
  other_arg : NoteArg

-- `a - b` on 64-bit words.
unfoldable pub minus : ℕ → ℕ → ℕ
minus a b = u64 (a + 2 ^ 64 - b)

-- `memmove` of `n` words to `dst`.
unfoldable pub move_to : (n dst : ℕ) → (ℕ → ℕ) → (ℕ → ℕ) → ℕ → ℕ
move_to n dst words m a =
    if leb dst a && ltb a (dst + n * by2wd) then words ((a - dst) / by2wd) else m a

-- What `notify` leaves and returns.
pub record Notified : Type 0 where
  pub ureg : ℕ → ℕ
  pub mem : ℕ → ℕ
  pub nureg : ℕ

-- What `noted` returns (`true` for 0, `false` for -1) and leaves, on an error too.
pub record Resumed : Type 0 where
  pub ok : Bool
  pub ureg : ℕ → ℕ
  pub mem : ℕ → ℕ

-- `setregisters` as `noted` calls it, with the whole of a Ureg at `uva`.
unfoldable pub setregisters : Layout → (ureg : ℕ → ℕ) → (uva : ℕ) → (mem : ℕ → ℕ) → ℕ → ℕ
setregisters l ureg uva mem = update (λ i. mem (uva + i * by2wd)) l.status (ureg l.status)

-- The address of the handler's Ureg.
unfoldable pub nureg_of : Layout → (sp : ℕ) → ℕ
unfolding minus
nureg_of l sp = minus (minus sp 256) (l.words * by2wd)

module _ (l : Layout) (okaddr : (addr len : ℕ) (writing : Bool) → Bool) where
  -- What `notify` does once its checks have passed.
  unfoldable pub deliver : (handler : ℕ) (ureg msg mem : ℕ → ℕ) → Notified
  unfolding nureg_of move_to minus
  deliver handler ureg msg mem =
      let nureg = nureg_of l (ureg l.sp) in
      let sp1 = minus nureg (by2wd + l.errwords * by2wd) in
      let sp2 = minus sp1 (3 * by2wd) in
      let mem1 = move_to l.words nureg ureg mem in
      let mem2 = move_to l.errwords sp1 msg mem1 in
      let mem3 = update mem2 (u64 (sp2 + 2 * by2wd)) (u64 (sp2 + 3 * by2wd)) in
      let mem4 = update mem3 (u64 (sp2 + 1 * by2wd)) nureg in
      let ureg' = update (update (update (update ureg l.arg nureg) l.sp sp2) l.pc handler) l.r1 0 in
      record { ureg = ureg'; mem = mem4; nureg = nureg }

  unfoldable pub notify : (handler : ℕ) (ureg msg mem : ℕ → ℕ) → Option Notified
  unfolding deliver nureg_of minus
  notify handler ureg msg mem =
      let nureg = nureg_of l (ureg l.sp) in
      let low = minus (minus nureg (l.errwords * by2wd)) (4 * by2wd) in
      if not (okaddr low (l.words * by2wd + l.errwords * by2wd + 4 * by2wd) true)
      then none
      else if not (bit_and handler 1 == 0)
      then none
      else if not (bit_and nureg 7 == 0)
      then none
      else some (deliver handler ureg msg mem)

  -- The case NCONT or NRSTR, and the case NSAVE, on the registers that were set.
  unfoldable pub continues : (ureg mem : ℕ → ℕ) → Resumed
  continues ureg mem = record {
    ok =
        okaddr (ureg l.pc) by2wd false
        && okaddr (ureg l.sp) by2wd false
        && bit_and (ureg l.pc) 1 == 0
        && bit_and (ureg l.sp) 7 == 0;
    ureg = ureg;
    mem = mem;
  }

  unfoldable pub saves : (oureg : ℕ) (ureg mem : ℕ → ℕ) → Resumed
  unfolding minus
  saves oureg ureg mem =
      let sp = minus (minus oureg (4 * by2wd)) (l.errwords * by2wd) in
      if okaddr (ureg l.pc) by2wd false
        && okaddr sp (4 * by2wd) true
        && bit_and (ureg l.pc) 1 == 0
        && bit_and sp 7 == 0
      then record {
        ok = true;
        ureg = update (update ureg l.sp sp) l.arg oureg;
        mem = update (update mem (u64 (sp + 1 * by2wd)) oureg) sp 0;
      }
      else record { ok = false; ureg = ureg; mem = mem }

  unfoldable pub resume : NoteArg → (oureg : ℕ) (ureg mem : ℕ → ℕ) → Resumed
  unfolding continues saves
  resume ncont oureg ureg mem = continues ureg mem
  resume nrstr oureg ureg mem = continues ureg mem
  resume nsave oureg ureg mem = saves oureg ureg mem
  resume other_arg oureg ureg mem = record { ok = true; ureg = ureg; mem = mem }

  unfoldable pub noted : (arg0 : NoteArg) (oureg : ℕ) (ureg mem : ℕ → ℕ) → Resumed
  unfolding resume setregisters
  noted arg0 oureg ureg mem =
      if not (bit_and oureg 7 == 0)
      then record { ok = false; ureg = ureg; mem = mem }
      else resume arg0 oureg (setregisters l ureg oureg mem) mem
