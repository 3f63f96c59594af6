-- ===== src/Uart/Kick.antt =====
-- What `suartkick` sends.
use front_mangopi_overlay.Uart.{Ctlr, Event, wrote, rbr, lsr_thre, suartputc, drain, suartkick}
use front_mangopi_overlay.Uart.Wait.{ready, wait_for-ready}
use mathlib.Core.Path.{subst}
use mathlib.Core.List.{append-nil, append_assoc}
use front_mangopi_overlay.Base.{
  ◌>>=◌, ap, sym, ◌∙◌, ℕ, suc, ◌+◌, ◌<◌, ◌≤◌, ◌≡◌, ◌==◌, if◌then◌else◌, List, [], ◌∷◌, ◌++◌, Option,
  some, length, length-append, arith, refl, Bool-cases, ==_iff, inl, inr,
}

-- A text with a carriage return before each line feed.
abbrev pub crlf : List ℕ → List ℕ
crlf [] = []
crlf (ch ∷ chs) = if ch == 10 then 13 ∷ 10 ∷ crlf chs else ch ∷ crlf chs

-- The characters up to the first empty stage.
abbrev pub staged_text : List (List ℕ) → List ℕ
staged_text [] = []
staged_text ([] ∷ stages) = []
staged_text ((ch ∷ chs) ∷ stages) = (ch ∷ chs) ++ staged_text stages

abbrev pub writes : List ℕ → List Event
writes [] = []
writes (ch ∷ chs) = wrote rbr ch ∷ writes chs

-- A run that returns having written the characters, with the rest of the reads left over.
pub record Sent (chs : List ℕ) (c : Ctlr) (result : Option Ctlr) : Type 0 where
  pub after : Ctlr
  pub ran : result ≡ some after
  pub log : after.log ≡ c.log ++ writes chs
  pub left : ready lsr_thre after.lsr_reads + length chs ≡ ready lsr_thre c.lsr_reads

suartputc-Sent :
    (ch : ℕ) (c : Ctlr) → 0 < ready lsr_thre c.lsr_reads → Sent (ch ∷ []) c (suartputc ch c)
unfolding suartputc
suartputc-Sent ch c h =
    let (rest, found, count) = wait_for-ready lsr_thre c.lsr_reads h in
    record {
      after = record c { lsr_reads = rest; log = c.log ++ wrote rbr ch ∷ [] };
      ran = rw found refl;
      log = refl;
      left = omega (arith, count);
    }

writes-append : (xs ys : List ℕ) → writes (xs ++ ys) ≡ writes xs ++ writes ys
writes-append [] ys = refl
writes-append (x ∷ xs) ys = ap (λ es. wrote rbr x ∷ es) (writes-append xs ys)

Sent-bind :
    (xs ys : List ℕ) (c : Ctlr) (r : Option Ctlr) (f : Ctlr → Option Ctlr) (s : Sent xs c r)
    → Sent ys s.after (f s.after)
    → Sent (xs ++ ys) c (r >>= f)
Sent-bind xs ys c r f s t = record {
  after = t.after;
  ran = rw s.ran t.ran;
  log =
      rw writes-append
        (t.log ∙ ap (λ es. es ++ writes ys) s.log ∙ append_assoc c.log (writes xs) (writes ys));
  left = omega (arith, s.left, t.left, length-append xs ys);
}

Sent-nothing : (c : Ctlr) → Sent [] c (some c)
Sent-nothing c = record { after = c; ran = refl; log = sym (append-nil c.log); left = omega arith }

-- Enough reads show that the transmitter is free, and one left over for each character.
room :
    (xs : List ℕ) (c : Ctlr) (r : Option Ctlr) (s : Sent xs c r) (n : ℕ)
    → length xs + n ≤ ready lsr_thre c.lsr_reads
    → n ≤ ready lsr_thre s.after.lsr_reads
room xs c r s n h = omega (arith, s.left)

-- One character, and then the rest of a text.
pub then-Sent :
    (ch : ℕ) (xs : List ℕ) (c : Ctlr) (f : Ctlr → Option Ctlr)
    → suc (length xs) ≤ ready lsr_thre c.lsr_reads
    → ((c' : Ctlr) → length xs ≤ ready lsr_thre c'.lsr_reads → Sent xs c' (f c'))
    → Sent (ch ∷ xs) c (suartputc ch c >>= f)
then-Sent ch xs c f h rest =
    let s = suartputc-Sent ch c (omega arith) in
    Sent-bind (ch ∷ []) xs c (suartputc ch c) f s
      (rest s.after (room (ch ∷ []) c (suartputc ch c) s (length xs) (omega arith)))

pub drain-Sent :
    (chs : List ℕ) (c : Ctlr)
    → length (crlf chs) ≤ ready lsr_thre c.lsr_reads
    → Sent (crlf chs) c (drain chs c)
unfolding drain
drain-Sent [] c h = Sent-nothing c
drain-Sent (ch ∷ chs) c h = elim (Bool-cases (ch == 10)) [
  | inl e ↦ rw e (
      subst
        (λ (t : ℕ).
          Sent (13 ∷ t ∷ crlf chs) c (suartputc 13 c >>= λ c1. suartputc ch c1 >>= drain chs))
        ((==_iff ch 10).0 e)
        (then-Sent 13 (ch ∷ crlf chs) c (λ c1. suartputc ch c1 >>= drain chs) (ground arith)
          (λ c1 h1. then-Sent ch (crlf chs) c1 (drain chs) h1 (drain-Sent chs))))
  | inr e ↦ rw e (then-Sent ch (crlf chs) c (drain chs) (ground arith) (drain-Sent chs))
]

pub crlf-append : (xs ys : List ℕ) → crlf (xs ++ ys) ≡ crlf xs ++ crlf ys
crlf-append [] ys = refl
crlf-append (x ∷ xs) ys = ground (arith, crlf-append xs ys)

-- `suartkick` sends the staged characters and then every stage up to the first empty one, in order
-- and each once, with a carriage return before each line feed and nothing else; and it returns,
-- if as many of the coming reads of LSR show the transmitter free as there are characters to send.
pub suartkick-Sent :
    (stages : List (List ℕ)) (staged : List ℕ) (c : Ctlr)
    → length (crlf (staged ++ staged_text stages)) ≤ ready lsr_thre c.lsr_reads
    → Sent (crlf (staged ++ staged_text stages)) c (suartkick stages staged c)
unfolding suartkick
suartkick-Sent [] staged c h =
    subst (λ t. Sent (crlf t) c (drain staged c)) (sym (append-nil staged))
      (drain-Sent staged c
        (subst (λ t. length (crlf t) ≤ ready lsr_thre c.lsr_reads) (append-nil staged) h))
suartkick-Sent ([] ∷ stages) staged c h =
    subst (λ t. Sent (crlf t) c (drain staged c)) (sym (append-nil staged))
      (drain-Sent staged c
        (subst (λ t. length (crlf t) ≤ ready lsr_thre c.lsr_reads) (append-nil staged) h))
suartkick-Sent ((ch ∷ chs) ∷ stages) staged c h =
    let more = (ch ∷ chs) ++ staged_text stages in
    let fits : length (crlf staged) + length (crlf more) ≤ ready lsr_thre c.lsr_reads =
      subst (λ t. t ≤ ready lsr_thre c.lsr_reads)
        (ap length (crlf-append staged more) ∙ length-append (crlf staged) (crlf more)) h in
    let s = drain-Sent staged c (omega arith) in
    rw (crlf-append staged more) (
      Sent-bind (crlf staged) (crlf more) c (drain staged c) (suartkick stages (ch ∷ chs)) s (
        suartkick-Sent stages (ch ∷ chs) s.after
          (room (crlf staged) c (drain staged c) s (length (crlf more)) fits)))
