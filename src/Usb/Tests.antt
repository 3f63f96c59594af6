-- ===== src/Usb/Tests.antt =====
-- A controller that is in reset for two rounds and has the largest frame list.
use front_mangopi_overlay.Usb.{Device, Ctlr, Hci, Kernel, ehcireset, reset, nousbehci}
use front_mangopi_overlay.Usb.Reset.{Reset, ehcireset-Reset}
use front_mangopi_overlay.Usb.Attach.{IsLinkage, Attached, reset-Attached, reset_disabled}
use front_mangopi_overlay.Bootargs.{Conf, getconf}
use front_mangopi_overlay.Bootargs.Env.{same_bytes, same_bytes-IsSame}
use front_mangopi_overlay.Bootargs.Init.{Buffer, bootargslen, string_at, bootargsinit, first_byte}
use front_mangopi_overlay.Bootargs.Strip.{clean}
use front_mangopi_overlay.Bootargs.Text.{line_says, last_setting, file_setting}
use front_mangopi_overlay.Base.{
  ℕ, ◌+◌, ◌-◌, ◌<◌, ◌≡◌, ltb, if◌then◌else◌, List, [], ◌∷◌, ◌++◌, some, none, true, false, ◌^◌,
  get_or, arith, refl,
}

abbrev device : Device
device = record { cap = 0x10; parms = 0x1101; capparms = 1; cmd = λ i. if ltb i 3 then 2 else 0 }

abbrev ctlr : Ctlr
ctlr = record { pmu = λ _. 8; opio = 0; nframes = 0; reads = 0; log = [] }

words : (i : ℕ) → device.cmd i < 2 ^ 32
words i = ground arith

ehcireset-Reset_example : Reset device ctlr (ehcireset device ctlr)
ehcireset-Reset_example = ehcireset-Reset device ctlr words

-- The shared state is a count of the interrupts.
abbrev linkage : Hci ℕ → Hci ℕ
linkage h = record h { interrupt = λ n. n + 1 }

linkage-IsLinkage : IsLinkage linkage
linkage-IsLinkage = record { same_irq = λ h. refl; same_port = λ h. refl; same_nports = λ h. refl }

abbrev kernel : List (Conf (List ℕ)) → Kernel ℕ
kernel conf = record {
  beenhere = false;
  conf = conf;
  ccu = record { regs = λ _. 0; log = [] };
  plic = record {
    vctl = λ _. none;
    pri = λ _. 0;
    en = λ _. 0;
    threshold = 0;
    completed = [];
    unhandled = [];
    shared = 0;
  };
  ctlr = ctlr;
  hci = record { port = 0; irq = 0; nports = 0; interrupt = λ n. n };
}

reset-Attached_example :
    Attached linkage device (kernel []) (reset linkage device same_bytes (kernel []))
unfolding getconf
reset-Attached_example =
    reset-Attached linkage device same_bytes (kernel []) words linkage-IsLinkage (omega arith) refl
      refl (ground arith)

-- The text `*nousbehci=1`.
abbrev plan9_ini : Buffer
plan9_ini a = get_or (nousbehci ++ b'=' ∷ b'1' ∷ []) a 0

abbrev one_line : List ℕ → List (List ℕ)
one_line s = s ∷ []

set :
    file_setting same_bytes one_line (string_at (bootargslen - 1) plan9_ini 0) nousbehci
    ≡ some (b'1' ∷ [])
unfolding file_setting last_setting line_says string_at bootargslen first_byte clean same_bytes
set = refl

reset_disabled_example :
    let k = kernel (bootargsinit same_bytes one_line plan9_ini) in
    reset linkage device same_bytes k ≡ some (false, record k { beenhere = true })
reset_disabled_example =
    reset_disabled linkage device same_bytes one_line plan9_ini (b'1' ∷ [])
      (kernel (bootargsinit same_bytes one_line plan9_ini)) same_bytes-IsSame (λ s. omega arith)
      refl set refl
