-- ===== src/Mmu/Boot/Devices.antt =====
-- The device calls of `mmubootstrap`, for the high half and for the identity map alike.
use front_mangopi_overlay.Mmu.Boot.{Boot, ntables, maprange}
use front_mangopi_overlay.Mmu.Boot.State.{IsBoot, HasMid, Unblocked}
use front_mangopi_overlay.Mmu.Boot.Leaf.{vpn2}
use front_mangopi_overlay.Mmu.Boot.View.Leaves.{maprange-Mapped}
use front_mangopi_overlay.Mmu.Boot.View.{View, map_pages, Mapped, Mapped-then}
use front_mangopi_overlay.Mmu.Boot.Bootstrap.{
  physpio, physpiosize, physwdtriscv, physmmc0, physehci1, physplic, physplicen, physplicctl,
  devices,
}
use front_mangopi_overlay.Mmu.Pte.{by2pg, pteleafdev}
use front_mangopi_overlay.Mmu.Tree.{Role}
use mathlib.Core.Path.{subst}
use front_mangopi_overlay.Base.{
  ◌∙◌, sym, ap, ℕ, ◌+◌, ◌*◌, ◌/◌, ◌%◌, ◌^◌, ◌<◌, ◌≤◌, ◌≡◌, inl, inr, Option, arith, refl,
}

-- The view after the seven calls, where a device at `pa` is mapped at `k + pa`.
abbrev pub map_device : (k pa size : ℕ) → View → View
map_device k pa size = map_pages (k + pa) pa size pteleafdev

abbrev pub map_devices : ℕ → View → View
map_devices k f = map_device k physplicctl by2pg (
    map_device k physplicen by2pg (
      map_device k physplic by2pg (
        map_device k physehci1 by2pg (
          map_device k physmmc0 by2pg
            (map_device k physwdtriscv by2pg (map_device k physpio physpiosize f))))))

-- The tables are in order, root slot `x` has its level-1 table with no 2 MB leaf, and at most `n`
-- tables are in use.
pub record Ready (x n : ℕ) (b : Boot) (role : ℕ → Role) : Type 0 where
  pub is : IsBoot b role
  pub clear : Unblocked b role x
  pub has : HasMid b role x
  pub few : b.ntable ≤ n

-- The calls map at `K` GB above the device, which lies in the first GB.
module _ (K : ℕ) (blocks : ℕ → Type 0) (map : (pa size attr : ℕ) → Boot → Option Boot)
    (in_space : K + 1 < 2 ^ 34 + 1) (apart : ¬ blocks (K % 512))
    (maps : (pa size attr : ℕ)
      → pa < 2 ^ 29
      → map pa size attr ≡ maprange (K * 2 ^ 30 + pa) pa size attr) where
  abbrev base : ℕ
  base = K * 2 ^ 30

  slot_at : (pa : ℕ) → pa < 2 ^ 30 → vpn2 (base + pa) ≡ K % 512
  slot_at pa h = omega arith

  abbrev OneStep : (pa size n : ℕ) → Boot → (ℕ → Role) → Type 0
  OneStep pa size n b role =
      (f : Mapped (map_device base pa size) blocks n b role (map pa size pteleafdev b)) × Ready
        (K % 512) n f.after f.role'

  -- From a call of `maprange`, the call of `map`.
  step_of :
      (pa size n : ℕ) {b : Boot} {role : ℕ → Role}
      → pa < 2 ^ 29
      → Unblocked b role (K % 512)
      → (f : Mapped
          (map_device base pa size)
          blocks
          n
          b
          role
          (maprange (base + pa) pa size pteleafdev b))
      → HasMid f.after f.role' (vpn2 (base + pa))
      → OneStep pa size n b role
  step_of pa size n {b} {role} low clear f has = (
    record {
      after = f.after;
      role' = f.role';
      ran = ap (λ g. g b) (maps pa size pteleafdev low) ∙ f.ran;
      is = f.is;
      pagewise = f.pagewise;
      views = f.views;
      keeps_mid = f.keeps_mid;
      keeps_unblocked = f.keeps_unblocked;
      count = f.count;
    },
    record {
      is = f.is;
      clear = f.keeps_unblocked (K % 512) (omega arith) apart clear;
      has = subst (HasMid f.after f.role') (slot_at pa (omega arith)) has;
      few = f.count;
    },
  )

  -- One page of a device.
  one_page :
      (pa n n' : ℕ) {b : Boot} {role : ℕ → Role}
      → pa + 4096 < 2 ^ 29
      → (pa + 4095) / 2 ^ 21 ≡ pa / 2 ^ 21
      → n + 1 ≤ n'
      → n' ≤ ntables
      → Ready (K % 512) n b role
      → OneStep pa by2pg n' b role
  one_page pa n n' {b} {role} low same more left r =
      let at = slot_at pa (omega arith) in
      let f =
        maprange-Mapped (base + pa) pa by2pg pteleafdev blocks n' refl (omega arith) (omega arith)
          (omega arith) r.is (subst (Unblocked b role) (sym at) r.clear) (omega arith)
          (inl (subst (HasMid b role) (sym at) r.has, omega (arith, r.few))) left in
      step_of pa by2pg n' (omega arith) r.clear f.0 f.1

  -- The ports, whose 6 MB need three level-0 tables and perhaps the level-1 table.
  first_range :
      (n : ℕ) {b : Boot} {role : ℕ → Role}
      → IsBoot b role
      → Unblocked b role (K % 512)
      → b.ntable ≤ n
      → n + 4 ≤ ntables
      → OneStep physpio physpiosize (n + 4) b role
  first_range n {b} {role} is clear few left =
      let at = slot_at physpio (omega arith) in
      let f =
        maprange-Mapped (base + physpio) physpio physpiosize pteleafdev blocks (n + 4) refl
          (omega arith) (omega arith) (omega arith) is (subst (Unblocked b role) (sym at) clear)
          (omega arith) (inr (omega arith)) left in
      step_of physpio physpiosize (n + 4) (omega arith) clear f.0 f.1

  -- All seven, which need up to 10 tables.
  pub devices-Mapped :
      (n : ℕ) {b : Boot} {role : ℕ → Role}
      → IsBoot b role
      → Unblocked b role (K % 512)
      → b.ntable ≤ n
      → n + 10 ≤ ntables
      → Mapped (map_devices base) blocks (n + 10) b role (devices map b)
  unfolding devices
  devices-Mapped n is clear few left =
      let f1 = first_range n is clear few (omega arith) in
      let f2 =
        one_page physwdtriscv (n + 4) (n + 5) (omega arith) refl (omega arith) (omega arith) f1.1 in
      let f3 =
        one_page physmmc0 (n + 5) (n + 6) (omega arith) refl (omega arith) (omega arith) f2.1 in
      let f4 =
        one_page physehci1 (n + 6) (n + 7) (omega arith) refl (omega arith) (omega arith) f3.1 in
      let f5 =
        one_page physplic (n + 7) (n + 8) (omega arith) refl (omega arith) (omega arith) f4.1 in
      let f6 =
        one_page physplicen (n + 8) (n + 9) (omega arith) refl (omega arith) (omega arith) f5.1 in
      let f7 =
        one_page physplicctl (n + 9) (n + 10) (omega arith) refl (omega arith) (omega arith) f6.1 in
      Mapped-then _ f1.0 (
        Mapped-then _ f2.0
          (Mapped-then _ f3.0 (Mapped-then _ f4.0 (Mapped-then _ f5.0 (Mapped-then _ f6.0 f7.0)))))
