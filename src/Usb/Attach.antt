-- ===== src/Usb/Attach.antt =====
-- `reset`: the controller is brought up once, unless plan9.ini says not to.
use mathlib.Core.Option.{some-injective}
use front_mangopi_overlay.Usb.{
  Device, Ctlr, Hci, Kernel, hciphyctl, siddq, ehci1irq, cnports, nousbehci, is_some, does,
  made_memory, phy1enable, ehcireset, new_ctlr, attach, reset,
}
use front_mangopi_overlay.Usb.Reset.{ehcireset-Reset, size_field}
use front_mangopi_overlay.Mmu.Boot.Bootstrap.{physehci1}
use front_mangopi_overlay.Ccu.{usb1enable}
use front_mangopi_overlay.Plic.{Plic, plicintr, intrenable}
use front_mangopi_overlay.Plic.Dispatch.{plicintr-intrenable}
use front_mangopi_overlay.Bootargs.{getconf, maxconf}
use front_mangopi_overlay.Bootargs.Table.{IsSame}
use front_mangopi_overlay.Bootargs.Init.{Buffer, bootargslen, string_at, bootargsinit}
use front_mangopi_overlay.Bootargs.Text.{file_setting, getconf-bootargsinit}
use front_mangopi_overlay.Base.Bits.{bit_and-ones}
use front_mangopi_overlay.Base.Bits.Field.{clear_field}
use front_mangopi_overlay.Base.{
  ◌>>=◌, ℕ, zero, suc, ◌+◌, ◌-◌, ◌*◌, ◌/◌, ◌%◌, ◌^◌, ◌<◌, ◌≤◌, ◌≡◌, ◌≢◌, ◌⊎◌, inl, inr, bit_and,
  not32, List, length, arith, refl, ap, sym, ◌∙◌, Bool, true, false, Bool-cases, Option, none, some,
}

-- What the portable driver's `ehcilinkage` is relied on to leave alone.
pub record IsLinkage {S : Type 0} (ehcilinkage : Hci S → Hci S) : Type 0 where
  pub same_irq : (h : Hci S) → (ehcilinkage h).irq ≡ h.irq
  pub same_port : (h : Hci S) → (ehcilinkage h).port ≡ h.port
  pub same_nports : (h : Hci S) → (ehcilinkage h).nports ≡ h.nports

-- The state after a controller was brought up.
pub record Attached {S : Type 0} (ehcilinkage : Hci S → Hci S) (d : Device) (k : Kernel S)
    (result : Option (Bool × Kernel S)) : Type 0 where
  pub after : Kernel S
  pub ran : result ≡ some (true, after)
  pub here : after.beenhere ≡ true
  pub powered : after.ctlr.pmu hciphyctl / 2 ^ 3 % 2 ≡ 0
  pub frames : (after.ctlr.nframes ≡ 1024) ⊎ (after.ctlr.nframes ≡ 512) ⊎ (after.ctlr.nframes ≡ 256)
  pub clocked : after.ccu ≡ usb1enable k.ccu
  -- `ehcilinkage` ran on the `Hci` with the port, the number and the ports of the controller.
  pub linked :
      after.hci ≡ ehcilinkage (record k.hci { port = physehci1; irq = 49; nports = d.parms % 16 })
  pub port : after.hci.port ≡ physehci1
  pub nports : after.hci.nports ≡ d.parms % 16
  pub handles : (plicintr ehci1irq after.plic).shared ≡ after.hci.interrupt k.plic.shared
  pub others : (j : ℕ) → j ≢ ehci1irq → (plicintr j after.plic).shared ≡ (plicintr j k.plic).shared

powered_up : (c : Ctlr) → c.pmu hciphyctl < 2 ^ 32 → (phy1enable c).pmu hciphyctl / 2 ^ 3 % 2 ≡ 0
unfolding phy1enable
powered_up c h = rw value (omega arith)
  where
    value :
        bit_and (c.pmu hciphyctl) (not32 siddq)
        ≡ c.pmu hciphyctl / 2 ^ 4 * 2 ^ 1 * 2 ^ 3 + c.pmu hciphyctl % 2 ^ 3
    value =
        clear_field 3 1 28 (c.pmu hciphyctl / 2 ^ 4) (c.pmu hciphyctl / 2 ^ 3 % 2)
          (c.pmu hciphyctl % 2 ^ 3) (c.pmu hciphyctl) (not32 siddq) (omega arith) refl (omega arith)
          (omega arith) (omega arith)

module _ {S : Type 0} (ehcilinkage : Hci S → Hci S) (d : Device)
    (same : List ℕ → List ℕ → Bool) where
  reset_first :
      (k : Kernel S)
      → k.beenhere ≡ false
      → getconf same nousbehci k.conf ≡ none
      → reset ehcilinkage d same k ≡ attach ehcilinkage d (record k { beenhere = true })
  unfolding reset
  reset_first k e f = rw (e, f) refl

  bind_marks :
      {A : Type 0} (o : Option A) (g : A → Option (Bool × Kernel S)) (k' : Kernel S) (done : Bool)
      → ((a : A) → g a ≡ some (done, k') → k'.beenhere ≡ true)
      → (o >>= g) ≡ some (done, k')
      → k'.beenhere ≡ true
  bind_marks none g k' done h e = absurd (ground (arith, e))
  bind_marks (some a) g k' done h e = h a e

  returned :
      (k k' : Kernel S) (done done' : Bool)
      → k.beenhere ≡ true
      → Path (Option (Bool × Kernel S)) (some (done, k)) (some (done', k'))
      → k'.beenhere ≡ true
  returned k k' done done' h e =
      sym (ap (λ (r : Bool × Kernel S). r.1.beenhere) (some-injective (done, k) (done', k') e)) ∙ h

  attach_marks :
      (k k' : Kernel S) (done : Bool)
      → k.beenhere ≡ true
      → attach ehcilinkage d k ≡ some (done, k')
      → k'.beenhere ≡ true
  unfolding attach
  attach_marks k k' done h e =
      bind_marks (ehcireset d (new_ctlr ehcilinkage d (phy1enable k.ctlr))) _ k' done
        (λ c e'.
          bind_marks (intrenable _ _ k.plic) _ k' done (λ p e''. returned _ k' true done h e'') e')
        e

  reset_marks :
      (k k' : Kernel S) (done : Bool)
      → reset ehcilinkage d same k ≡ some (done, k')
      → k'.beenhere ≡ true
  unfolding reset
  reset_marks k k' done e = elim (Bool-cases k.beenhere) [
    | inl here ↦ returned (record k { beenhere = true }) k' false done refl (rw here at e)
    | inr first ↦ elim (Bool-cases (is_some (getconf same nousbehci k.conf))) [
      | inl set ↦ returned (record k { beenhere = true }) k' false done refl (rw (first, set) at e)
      | inr unset ↦
          attach_marks (record k { beenhere = true }) k' done refl (rw (first, unset) at e)
    ]
  ]

  reset_again : (k : Kernel S) → k.beenhere ≡ true → reset ehcilinkage d same k ≡ some (false, k)
  unfolding reset
  reset_again k here = rw here refl

  -- A call that returns, whatever it returned, is the last that does anything: the state it leaves
  -- makes a further call return -1 and leave the state as it is.
  reset_once :
      (k k' : Kernel S) (done : Bool)
      → reset ehcilinkage d same k ≡ some (done, k')
      → (k'.beenhere ≡ true) × (reset ehcilinkage d same k' ≡ some (false, k'))
  reset_once k k' done e = let here = reset_marks k k' done e in (here, reset_again k' here)

  -- If the text of plan9.ini gives `*nousbehci` a value, the first call returns -1, and has changed
  -- nothing but the mark that it was there: no clock, no interrupt and no register of the controller.
  pub reset_disabled :
      (getfields : List ℕ → List (List ℕ)) (m : Buffer) (value : List ℕ) (k : Kernel S)
      → IsSame same
      → ((s : List ℕ) → length (getfields s) ≤ maxconf)
      → k.conf ≡ bootargsinit same getfields m
      → file_setting same getfields (string_at (bootargslen - 1) m 0) nousbehci ≡ some value
      → k.beenhere ≡ false
      → reset ehcilinkage d same k ≡ some (false, record k { beenhere = true })
  unfolding reset
  reset_disabled getfields m value k is few conf set first =
      rw (first, conf, getconf-bootargsinit same getfields m nousbehci is few, set) refl

  -- The parameters of the two steps of `attach` that can fail, and what they leave.
  abbrev first_hci : Kernel S → Hci S
  first_hci k = record k.hci { port = physehci1; irq = ehci1irq; nports = bit_and d.parms cnports }

  abbrev brought_up : Kernel S → Ctlr → Plic S → Kernel S
  brought_up k c p = record k {
    ccu = usb1enable k.ccu;
    plic = p;
    ctlr = does made_memory c;
    hci = ehcilinkage (first_hci k);
  }

  attach_ran :
      (k : Kernel S) (c : Ctlr) (p : Plic S)
      → IsLinkage ehcilinkage
      → ehcireset d (new_ctlr ehcilinkage d (phy1enable k.ctlr)) ≡ some c
      → intrenable ehci1irq (ehcilinkage (first_hci k)).interrupt k.plic ≡ some p
      → attach ehcilinkage d k ≡ some (true, brought_up k c p)
  unfolding attach
  attach_ran k c p linkage run enabled = rw (run, linkage.same_irq (first_hci k), enabled) refl

  frames_of_size :
      (n : ℕ) → n < 3 → (1024 / 2 ^ n ≡ 1024) ⊎ (1024 / 2 ^ n ≡ 512) ⊎ (1024 / 2 ^ n ≡ 256)
  frames_of_size zero h = inl refl
  frames_of_size (suc zero) h = inr (inl refl)
  frames_of_size (suc (suc zero)) h = inr (inr refl)
  frames_of_size (suc (suc (suc n))) h = absurd (omega arith)

  -- The handler stands alone for its number.
  enabled :
      (k : Kernel S)
      → let f = (ehcilinkage (first_hci k)).interrupt in
        (q : Plic S) × (intrenable ehci1irq f k.plic ≡ some q)
        × ((plicintr ehci1irq q).shared ≡ f k.plic.shared)
        × ((j : ℕ) → j ≢ ehci1irq → (plicintr j q).shared ≡ (plicintr j k.plic).shared)
  enabled k =
      let f = (ehcilinkage (first_hci k)).interrupt in
      let q = plicintr-intrenable ehci1irq 0 f k.plic (omega arith) (omega arith) (omega arith) in
      (
        q.0,
        q.1,
        q.3,
        λ j ne.
            let r = plicintr-intrenable ehci1irq j f k.plic (omega arith) (omega arith) ne in
            ap (λ (p : Plic S). (plicintr j p).shared) (some-injective q.0 r.0 (sym q.1 ∙ r.1))
            ∙ r.4,
      )

  brought_up-Attached :
      (k : Kernel S) (c : Ctlr)
      → IsLinkage ehcilinkage
      → k.ctlr.pmu hciphyctl < 2 ^ 32
      → k.beenhere ≡ false
      → getconf same nousbehci k.conf ≡ none
      → ehcireset d (new_ctlr ehcilinkage d (phy1enable k.ctlr)) ≡ some c
      → c.pmu hciphyctl ≡ (phy1enable k.ctlr).pmu hciphyctl
      → (c.nframes ≡ 1024) ⊎ (c.nframes ≡ 512) ⊎ (c.nframes ≡ 256)
      → Attached ehcilinkage d k (reset ehcilinkage d same k)
  brought_up-Attached k c linkage fits first allowed run pmu sizes = record {
    after = brought_up (record k { beenhere = true }) c (enabled k).0;
    ran =
        reset_first k first allowed
        ∙ attach_ran (record k { beenhere = true }) c (enabled k).0 linkage run (enabled k).1;
    here = refl;
    powered = rw pmu (powered_up k.ctlr fits);
    frames = sizes;
    clocked = refl;
    linked =
        ap (λ n. ehcilinkage (record k.hci { port = physehci1; irq = 49; nports = n }))
          (bit_and-ones 4 d.parms);
    port = linkage.same_port (first_hci k);
    nports = linkage.same_nports (first_hci k) ∙ bit_and-ones 4 d.parms;
    handles = (enabled k).2;
    others = (enabled k).3;
  }

  -- A first call that plan9.ini does not forbid brings the controller up, if it reports one of the
  -- three sizes of the frame list: `usb1enable` was called once on the clocks, the PHY is powered, the
  -- frame list has 1024, 512 or 256 frames, `ehcilinkage` was called once with the port, the interrupt
  -- number 49 and the controller's number of ports, and interrupt 49 now runs the function that it
  -- left, while every other number does to the shared state what it did. A further call will do nothing.
  pub reset-Attached :
      (k : Kernel S) (words : (i : ℕ) → d.cmd i < 2 ^ 32)
      → IsLinkage ehcilinkage
      → k.ctlr.pmu hciphyctl < 2 ^ 32
      → k.beenhere ≡ false
      → getconf same nousbehci k.conf ≡ none
      → (let r = ehcireset-Reset d (new_ctlr ehcilinkage d (phy1enable k.ctlr)) words in
          size_field (d.cmd (r.reads + 1)) < 3)
      → Attached ehcilinkage d k (reset ehcilinkage d same k)
  unfolding new_ctlr
  reset-Attached k words linkage fits first allowed size =
      elim (ehcireset-Reset d (new_ctlr ehcilinkage d (phy1enable k.ctlr)) words).outcome [
        | inr (bad, run) ↦ absurd (omega arith)
        | inl (good, run) ↦
            brought_up-Attached k _ linkage fits first allowed run refl (frames_of_size _ good)
      ]
