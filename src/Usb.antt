-- ===== src/Usb.antt =====
-- usbehcisun20i.c: the USB host controller, brought up once. What the reads of the controller's command
-- register return is a function of how many there were; what the driver does to the device is a
-- list, newest last. `ehcirun`, `ehcimeminit` and `ehcilinkage` are the portable driver's: the
-- first two are events, and the third is a parameter.
pub mod Wait
pub mod Reset
pub mod Attach
mod Tests
use front_mangopi_overlay.Base.{
  ◌>>=◌, ℕ, zero, suc, ◌+◌, ◌/◌, ◌^◌, bit_and, bit_or, Bool, true, false, ◌==◌, if◌then◌else◌,
  ◌<<<◌, not32, u32, update, List, [], ◌∷◌, ◌++◌, Option, none, some,
}
use front_mangopi_overlay.Ccu.{Ccu, usb1enable}
use front_mangopi_overlay.Mmu.Boot.Bootstrap.{physehci1}
use front_mangopi_overlay.Mmu.Pte.{kaddr}
use front_mangopi_overlay.Plic.{Plic, intrenable}
use front_mangopi_overlay.Bootargs.{Conf, getconf}

abbrev pub hciphyctl : ℕ
hciphyctl = 0x010 / 4

abbrev pub pmucfg : ℕ
pmucfg = 0x000 / 4

abbrev pub siddq : ℕ
siddq = 1 <<< 3

abbrev pub passby : ℕ
passby = bit_or (bit_or (bit_or (1 <<< 10) (1 <<< 9)) (1 <<< 8)) (1 <<< 0)

abbrev pub c64 : ℕ
c64 = 1

abbrev pub chcreset : ℕ
chcreset = 0x00002

abbrev pub cflsmask : ℕ
cflsmask = 0x0000C

abbrev pub citcmask : ℕ
citcmask = 0xff <<< 16

abbrev pub citc8 : ℕ
citc8 = 0x80000

abbrev pub cnports : ℕ
cnports = 0xF

abbrev pub ehci1irq : ℕ
ehci1irq = 49

pub data Event : Type 0 where
  stopped : Event
  cleared_seg : Event
  wrote_cmd : (value : ℕ) → Event
  wrote_pmu : (index value : ℕ) → Event
  delayed : (ms : ℕ) → Event
  microdelayed : (us : ℕ) → Event
  timed_out : Event
  made_memory : Event

-- The capability registers, and what the reads of the command register return.
pub record Device : Type 0 where
  pub cap : ℕ
  pub parms : ℕ
  pub capparms : ℕ
  pub cmd : ℕ → ℕ

-- `Ctlr`, as far as this file sets it, the registers of the PHY, and how many reads of the command
-- register there were.
pub record Ctlr : Type 0 where
  pub pmu : ℕ → ℕ
  pub opio : ℕ
  pub nframes : ℕ
  pub reads : ℕ
  pub log : List Event

abbrev pub does : Event → Ctlr → Ctlr
does e c = record c { log = c.log ++ e ∷ [] }

abbrev pub wrote_pmu_to : ℕ → ℕ → Ctlr → Ctlr
wrote_pmu_to i v c = record c { pmu = update c.pmu i v; log = c.log ++ wrote_pmu i v ∷ [] }

-- A read of the command register.
abbrev pub next_read : Ctlr → Ctlr
next_read c = record c { reads = suc c.reads }

abbrev pub is_some : Option (List ℕ) → Bool
is_some none = false
is_some (some v) = true

unfoldable pub phy1enable : Ctlr → Ctlr
phy1enable c =
    let c1 = wrote_pmu_to hciphyctl (bit_and (c.pmu hciphyctl) (not32 siddq)) c in
    does (microdelayed 100) (wrote_pmu_to pmucfg (bit_or (c1.pmu pmucfg) passby) c1)

-- `opio->cmd |= Chcreset`.
unfoldable pub start_reset : Device → Ctlr → Ctlr
start_reset d c = does (wrote_cmd (bit_or (d.cmd c.reads) chcreset)) (next_read c)

-- The rounds that are left of the loop that waits for the reset, and the message after it.
unfoldable pub wait_reset : Device → (rounds : ℕ) → Ctlr → Ctlr
wait_reset d zero c = does timed_out c
wait_reset d (suc n) c =
    let rest = wait_reset d n (does (delayed 1) (next_read c)) in
    if bit_and (d.cmd c.reads) chcreset == 0 then next_read c else rest

-- `opio->cmd = (opio->cmd & ~Citcmask) | Citc8`.
unfoldable pub set_threshold : Device → Ctlr → Ctlr
set_threshold d c =
    does (wrote_cmd (bit_or (bit_and (d.cmd c.reads) (not32 citcmask)) citc8)) (next_read c)

-- The switch on the size of the frame list; `none` is the panic.
unfoldable pub frames_of : (fls : ℕ) → Option ℕ
frames_of fls =
    if fls == 0x00000
    then some 1024
    else if fls == 0x00004
    then some 512
    else if fls == 0x00008
    then some 256
    else none

unfoldable pub set_frames : Ctlr → Option ℕ → Option Ctlr
set_frames c none = none
set_frames c (some n) = some (record c { nframes = n })

-- What comes before the reset.
unfoldable pub stop_run : Device → Ctlr → Ctlr
stop_run d c =
    let c1 = does stopped c in if bit_and d.capparms c64 == 0 then c1 else does cleared_seg c1

-- What comes after the wait.
unfoldable pub finish_reset : Device → Ctlr → Option Ctlr
finish_reset d c =
    let c1 = set_threshold d c in
    set_frames (next_read c1) (frames_of (bit_and (d.cmd c1.reads) cflsmask))

unfoldable pub ehcireset : Device → Ctlr → Option Ctlr
ehcireset d c = finish_reset d (wait_reset d 100 (start_reset d (stop_run d c)))

unfoldable pub shutdown : Device → Ctlr → Ctlr
shutdown d c = wait_reset d 100 (start_reset d c)

-- `Hci`, as far as this file and `intrenable` use it; `interrupt` is its function with its argument.
pub record Hci (S : Type 0) : Type 0 where
  pub port : ℕ
  pub irq : ℕ
  pub nports : ℕ
  pub interrupt : S → S

-- The driver's static `beenhere`, what it allocates, and the parts of the kernel that it calls.
pub record Kernel (S : Type 0) : Type 0 where
  pub beenhere : Bool
  pub conf : List (Conf (List ℕ))
  pub ccu : Ccu
  pub plic : Plic S
  pub ctlr : Ctlr
  pub hci : Hci S

-- `*nousbehci`
abbrev pub nousbehci : List ℕ
nousbehci = b'*' ∷ b'n' ∷ b'o' ∷ b'u' ∷ b's' ∷ b'b' ∷ b'e' ∷ b'h' ∷ b'c' ∷ b'i' ∷ []

module _ {S : Type 0} (ehcilinkage : Hci S → Hci S) (d : Device) where
  -- The memory of a new `Ctlr` is zero; the registers of the PHY are where they were.
  unfoldable pub new_ctlr : Ctlr → Ctlr
  new_ctlr c = record c { opio = kaddr physehci1 + bit_and d.cap 0xff; nframes = 0 }

  -- From the clocks on; `none` is a panic, and the Boolean says whether 0 is returned.
  unfoldable pub attach : Kernel S → Option (Bool × Kernel S)
  attach k = do
    let ccu = usb1enable k.ccu
    let hp = record k.hci { port = physehci1; irq = ehci1irq; nports = bit_and d.parms cnports }
    c ← ehcireset d (new_ctlr (phy1enable k.ctlr))
    let linked = ehcilinkage hp
    p ← intrenable linked.irq linked.interrupt k.plic
    some (true, record k { ccu = ccu; plic = p; ctlr = does made_memory c; hci = linked })

  unfoldable pub reset : (same : List ℕ → List ℕ → Bool) → Kernel S → Option (Bool × Kernel S)
  reset same k =
      let k1 = record k { beenhere = true } in
      if k.beenhere
      then some (false, k)
      else if is_some (getconf same nousbehci k.conf)
      then some (false, k1)
      else attach k1
