-- ===== src/Uart/Tests.antt =====
-- The port on a device that is ready at every second read.
use front_mangopi_overlay.Uart.{Ctlr, suartkick, suartbaud, wrote, rbr, ier, lcr, lcr_dlab}
use front_mangopi_overlay.Uart.Kick.{Sent, suartkick-Sent}
use front_mangopi_overlay.Uart.Line.{divisor, suartbaud_truncates}
use front_mangopi_overlay.Base.{
  ℕ, ◌+◌, ◌*◌, ◌<◌, ◌≡◌, ◌≢◌, bit_or, true, false, some, [], ◌∷◌, ◌++◌, arith,
}

abbrev port : Ctlr
port = record {
  lsr_reads = 0 ∷ 0x60 ∷ 1 ∷ 0x20 ∷ 0x20 ∷ 0x20 ∷ 0x20 ∷ [];
  rbr_reads = [];
  line = 0x43;
  iena = false;
  baud = 115200;
  log = [];
}

suartkick-Sent_example :
    Sent
      (b'o' ∷ b'k' ∷ 13 ∷ 10 ∷ [])
      port
      (suartkick ((10 ∷ []) ∷ [] ∷ (1 ∷ []) ∷ []) (b'o' ∷ b'k' ∷ []) port)
suartkick-Sent_example =
    suartkick-Sent ((10 ∷ []) ∷ [] ∷ (1 ∷ []) ∷ []) (b'o' ∷ b'k' ∷ []) port (omega arith)

suartbaud_truncates_example :
    (c' : Ctlr) × (lo : ℕ) × (hi : ℕ) × (suartbaud 24000000 20 port ≡ some (true, c'))
    × (c'.log
        ≡ []
          ++ wrote lcr (bit_or 0x43 lcr_dlab)
            ∷ wrote rbr lo
            ∷ wrote ier hi
            ∷ wrote lcr c'.line
            ∷ [])
    × (lo < 256)
    × (hi < 256)
    × (hi * 256 + lo ≢ divisor 24000000 20)
suartbaud_truncates_example =
    suartbaud_truncates 20 port (omega arith) (omega arith) (omega arith) (omega arith)
