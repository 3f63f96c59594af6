-- ===== src/Uart.antt =====
-- uartsun20i.c: the serial port. What reading LSR and RBR returns is a list for each, from the next
-- read on, and an operation that waits on a list that ends is `none`. What is written is a log of
-- registers and values, newest last. The portable kernel's Uart is a parameter where it is used.
pub mod Wait
pub mod Kick
pub mod Line
mod Tests
use front_mangopi_overlay.Base.{
  ◌>>=◌, ℕ, zero, suc, ◌-◌, ◌*◌, ◌/◌, ◌^◌, bit_and, bit_or, Bool, true, false, ◌==◌, leb,
  if◌then◌else◌, ◌<<<◌, ◌>>>◌, not32, u32, List, [], ◌∷◌, ◌++◌, Option, none, some, length,
}

pub data Reg : Type 0 where
  rbr ier fcr lcr : Reg

pub data Event : Type 0 where
  wrote : (reg : Reg) (value : ℕ) → Event
  registered : Event

pub record Ctlr : Type 0 where
  pub lsr_reads : List ℕ
  pub rbr_reads : List ℕ
  -- LCR reads back what was written to it
  pub line : ℕ
  pub iena : Bool
  -- `uart->baud`
  pub baud : ℕ
  pub log : List Event

abbrev pub write : Reg → ℕ → Ctlr → Ctlr
write reg v c = record c { log = c.log ++ wrote reg v ∷ [] }

abbrev pub write_lcr : ℕ → Ctlr → Ctlr
write_lcr v c = record c { line = v; log = c.log ++ wrote lcr v ∷ [] }

-- `while((ct->r[LSR] & mask) == 0);` on what the reads return.
unfoldable pub wait_for : (mask : ℕ) → List ℕ → Option (List ℕ)
wait_for mask [] = none
wait_for mask (v ∷ vs) =
    let rest = wait_for mask vs in if bit_and v mask == 0 then rest else some vs

abbrev pub lsr_dr : ℕ
lsr_dr = 1 <<< 0

abbrev pub lsr_thre : ℕ
lsr_thre = 1 <<< 5

abbrev pub lcr_dlab : ℕ
lcr_dlab = 1 <<< 7

unfoldable pub await : (mask : ℕ) → Ctlr → Option Ctlr
unfolding wait_for
await mask c = do rest ← wait_for mask c.lsr_reads; some (record c { lsr_reads = rest })

-- The character and the rest of RBR.
unfoldable pub suartgetc : Ctlr → Option (ℕ × Ctlr)
unfolding await
suartgetc c = do
  c' ← await lsr_dr c
  elim c'.rbr_reads [ [] ↦ none | ch ∷ rest ↦ some (ch, record c' { rbr_reads = rest }) ]

unfoldable pub suartputc : ℕ → Ctlr → Option Ctlr
unfolding await
suartputc ch c = do c' ← await lsr_thre c; some (write rbr ch c')

-- The receive interrupt: the characters handed to `uartrecv`, in order.
unfoldable pub suartintr : (lsr_reads rbr_reads : List ℕ) → List ℕ
suartintr [] chs = []
suartintr (v ∷ vs) [] = []
suartintr (v ∷ vs) (ch ∷ chs) =
    let rest = ch ∷ suartintr vs chs in if bit_and v lsr_dr == 0 then [] else rest

-- The inner rounds of `suartkick`, for the characters from `op` to `oe`.
unfoldable pub drain : List ℕ → Ctlr → Option Ctlr
unfolding suartputc
drain [] c = some c
drain (ch ∷ chs) c = do
  c1 ← (if ch == 10 then suartputc 13 c else some c)
  c2 ← suartputc ch c1
  drain chs c2

-- `stages` is what the calls of `uartstageoutput` will stage; a stage with no character is the
-- result 0.
unfoldable pub suartkick : (stages : List (List ℕ)) (staged : List ℕ) → Ctlr → Option Ctlr
unfolding drain
suartkick [] staged c = drain staged c
suartkick ([] ∷ stages) staged c = drain staged c
suartkick ((ch ∷ chs) ∷ stages) staged c = drain staged c >>= suartkick stages (ch ∷ chs)

unfoldable pub suartenable : (ie : Bool) → Ctlr → Option Ctlr
unfolding await
suartenable ie c = do
  c1 ← await lsr_thre c
  let c2 = write ier 0 (write fcr 0x01 (write_lcr 0x03 c1))
  let c3 = if c2.iena then c2 else record c2 { iena = true; log = c2.log ++ registered ∷ [] }
  some (if ie then write ier (1 <<< 0) c3 else c2)

-- The line settings return `true` for 0 and `false` for -1.
unfoldable pub suartbits : (n : ℕ) → Ctlr → Bool × Ctlr
suartbits n c =
    let low = bit_and c.line (not32 3) in
    if n == 5
    then (true, write_lcr (bit_or low 0) c)
    else if n == 6
    then (true, write_lcr (bit_or low 1) c)
    else if n == 7
    then (true, write_lcr (bit_or low 2) c)
    else if n == 8
    then (true, write_lcr (bit_or low 3) c)
    else (false, c)

-- `p` is a character.
unfoldable pub suartparity : (p : ℕ) → Ctlr → Bool × Ctlr
suartparity p c =
    let low = bit_and c.line (not32 0x38) in
    if p == b'n'
    then (true, write_lcr low c)
    else if p == b'o'
    then (true, write_lcr (bit_or low 0x08) c)
    else if p == b'e'
    then (true, write_lcr (bit_or low 0x18) c)
    else (false, c)

-- `freq` is `uart->freq`; an `n` below 0 is as 0 here, refused.
unfoldable pub suartbaud : (freq n : ℕ) → Ctlr → Option (Bool × Ctlr)
unfolding await
suartbaud freq n c =
    let d = freq / u32 (16 * n) in
    let set : Option (Bool × Ctlr) = (do
      c1 ← await lsr_thre c
      let c2 = write_lcr (bit_or c1.line lcr_dlab) c1
      let c3 = write rbr (bit_and d 0xff) c2
      let c4 = write ier (bit_and (d >>> 8) 0xff) c3
      let c5 = write_lcr (bit_and c4.line (not32 lcr_dlab)) c4
      some (true, record c5 { baud = n })) in
    if leb n 0 then some (false, c) else if d == 0 then some (false, c) else set
