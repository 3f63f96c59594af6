-- ===== src/Mmu/Boot/Start.antt =====
-- `mmubootstrap` as a whole: the tables that the kernel starts with.
use front_mangopi_overlay.Mmu.Boot.{Boot, ntables, newtable, mapblock, maphigh, mapident, maprange}
use front_mangopi_overlay.Mmu.Boot.State.{IsBoot, Unblocked}
use front_mangopi_overlay.Mmu.Boot.View.Leaves.{mapblock-Mapped}
use front_mangopi_overlay.Mmu.Boot.View.{View, view, map_blocks, Mapped, Mapped-then}
use front_mangopi_overlay.Mmu.Boot.Devices.{map_devices, devices-Mapped}
use front_mangopi_overlay.Mmu.Boot.Bootstrap.{devices, mmubootstrap}
use front_mangopi_overlay.Mmu.Pte.{
  by2pg, kzero, physdram, drammax, kaddr, round, pteleafmem, mksatp,
}
use front_mangopi_overlay.Mmu.Tree.{Mem, Role, unused, top}
use front_mangopi_overlay.Base.Bits.Field.{clear_field}
use front_mangopi_overlay.Base.{
  not64, u64, ◌-◌, ◌∙◌, ap, ℕ, ◌+◌, ◌*◌, ◌/◌, ◌%◌, ◌^◌, ◌<◌, ◌≤◌, ◌≡◌, ◌≢◌, ◌⊎◌, inl, inr, Option,
  none, some, arith, refl, ◌>>=◌, ◌==◌, if◌then◌else◌,
}

-- What is mapped at `k` above the physical addresses: DRAM and the devices.
abbrev pub map_at : ℕ → View → View
map_at k f = map_devices k (map_blocks (k + physdram) physdram drammax pteleafmem f)

-- What `mmubootstrap` means to map: everything in the high half, and the same again where it lies
-- physically.
abbrev pub boot_map : View
boot_map = map_at 0 (map_at kzero (λ w s r. none))

-- The root slots of DRAM.
abbrev DramSlot : ℕ → Type 0
DramSlot w = (w ≡ 1) ⊎ (w ≡ 511)

-- What it returns: satp names the root of tables in order that show this map, and of the 24 tables
-- at most 23 are in use.
pub record Started (result : Option (ℕ × Boot)) : Type 0 where
  pub after : Boot
  pub role' : ℕ → Role
  pub ran : result ≡ some (mksatp after.root, after)
  pub is : IsBoot after role'
  pub views : (w s r : ℕ) → w < 512 → s < 512 → r < 512 → view after w s r ≡ boot_map w s r
  pub count : after.ntable ≤ 23

round_page : (t : ℕ) → t < 2 ^ 55 → round t by2pg ≡ (t + 4095) / 4096 * 4096
unfolding round
round_page t h =
    clear_field 0 12 52 ((t + 4095) / 4096) ((t + 4095) % 4096) 0 (u64 (t + 4095)) (not64 4095)
      (omega arith) refl (omega arith) (omega arith) (omega arith)
    ∙ omega arith

module _ (tablestore : ℕ) (mem : Mem) (low : tablestore < 2 ^ 55)
    (zeroed : (a : ℕ) → tablestore ≤ a → a < tablestore + (ntables + 1) * 4096 → mem a ≡ 0) where
  abbrev start : Boot
  start = record {
    mem = mem;
    tablebase = round tablestore by2pg;
    ntable = 1;
    root = round tablestore by2pg;
  }

  abbrev start_role : ℕ → Role
  start_role t = if t == round tablestore by2pg then top else unused

  in_store : (i y : ℕ) → i < ntables → y < 512 → mem (round tablestore by2pg + i * 4096 + y * 8) ≡ 0
  in_store i y hi hy =
      let page = round_page tablestore low in
      zeroed (round tablestore by2pg + i * 4096 + y * 8) (omega arith) (omega arith)

  store_page : (round tablestore by2pg % 4096 ≡ 0) × (round tablestore by2pg < 2 ^ 56)
  store_page = let page = round_page tablestore low in omega arith

  start-IsBoot : IsBoot start start_role
  start-IsBoot = record {
    tree = record {
      root_role = ground arith;
      small = omega arith;
      is_page = λ t h. ground (arith, store_page);
      root_entry = λ x h. inl (
          ap (λ v. v % 2)
            (zeroed (round tablestore by2pg + x * 8) (omega (arith, round_page tablestore low))
              (omega (arith, round_page tablestore low))));
      mid_entry = λ t x y h hy. absurd (ground arith);
    };
    base_page = omega (arith, round_page tablestore low);
    base_fits = omega (arith, round_page tablestore low);
    few = omega arith;
    free = λ i lo hi. ground arith;
    empty = λ i y lo hi hy. in_store i y hi hy;
  }

  no_mid : (x : ℕ) → Unblocked start start_role x
  no_mid x t y is_mid hy = absurd (ground arith)

  first_table :
      newtable (record start { ntable = 0; root = 0 })
      ≡ some (round tablestore by2pg, record start { root = 0 })
  unfolding newtable
  first_table = ap (λ a. some (a, record start { root = 0 })) (omega arith)

  high_block :
      Mapped
        (map_blocks (kzero + physdram) physdram drammax pteleafmem)
        DramSlot
        2
        start
        start_role
        (mapblock (kaddr physdram) physdram drammax pteleafmem start)
  unfolding kaddr
  high_block =
      mapblock-Mapped (kzero + physdram) physdram drammax pteleafmem DramSlot 2 (refl, omega arith)
        refl (omega arith) (omega arith) (omega arith) refl (inr refl) start-IsBoot
        (inr (omega arith)) (omega arith)

-- `maphigh` and `mapident` map at 2 ^ 34 - 2 and 0 GB above the devices.
maphigh-maprange :
    (pa size attr : ℕ)
    → pa < 2 ^ 29
    → maphigh pa size attr ≡ maprange ((2 ^ 34 - 2) * 2 ^ 30 + pa) pa size attr
unfolding maphigh kaddr
maphigh-maprange pa size attr h = ap (λ va. maprange va pa size attr) (omega arith)

mapident-maprange :
    (pa size attr : ℕ)
    → pa < 2 ^ 29
    → mapident pa size attr ≡ maprange (0 * 2 ^ 30 + pa) pa size attr
unfolding mapident
mapident-maprange pa size attr h = ap (λ va. maprange va pa size attr) (omega arith)

not_dram : (w : ℕ) → w ≢ 1 → w ≢ 511 → ¬ DramSlot w
not_dram w low high (inl e) = low e
not_dram w low high (inr e) = high e

-- The calls after the first block, without the value for satp.
after_high_block : Boot → Option Boot
after_high_block b1 = do
  b2 ← devices (λ pa size attr. maphigh pa size attr) b1
  b3 ← mapblock physdram physdram drammax pteleafmem b2
  devices (λ pa size attr. mapident pa size attr) b3

-- The same calls with the value for satp.
with_satp : Boot → Option (ℕ × Boot)
with_satp b1 = do
  b2 ← devices (λ pa size attr. maphigh pa size attr) b1
  b3 ← mapblock physdram physdram drammax pteleafmem b2
  b4 ← devices (λ pa size attr. mapident pa size attr) b3
  some (mksatp b4.root, b4)

bind-replace :
    {R : Type 0} (o : Option Boot) (k : Boot → Option Boot) (k' : Boot → Option R) (x : Boot)
    (y : R)
    → ((b : Boot) → k b ≡ some x → k' b ≡ some y)
    → (o >>= k) ≡ some x
    → (o >>= k') ≡ some y
bind-replace none k k' x y h e = absurd (ground (arith, e))
bind-replace (some b) k k' x y h e = h b e

bind-with_satp :
    (b x : Boot)
    → (mapblock (kaddr physdram) physdram drammax pteleafmem b >>= after_high_block) ≡ some x
    → (mapblock (kaddr physdram) physdram drammax pteleafmem b >>= with_satp)
      ≡ some (mksatp x.root, x)
unfolding after_high_block with_satp
bind-with_satp b x e =
    bind-replace (mapblock (kaddr physdram) physdram drammax pteleafmem b) _ _ x _
      (λ b1 e1.
        bind-replace (devices (λ pa size attr. maphigh pa size attr) b1) _ _ x _
          (λ b2 e2.
            bind-replace (mapblock physdram physdram drammax pteleafmem b2) _ _ x _
              (λ b3 e3. rw e3 refl) e2)
          e1)
      e

-- The calls after the first block.
module _ {b : Boot} {role : ℕ → Role} (n : ℕ) (is : IsBoot b role) (few : b.ntable ≤ n) where
  high_devices :
      Unblocked b role 510
      → n + 10 ≤ ntables
      → Mapped
          (map_devices kzero)
          DramSlot
          (n + 10)
          b
          role
          (devices (λ pa size attr. maphigh pa size attr) b)
  high_devices clear left =
      devices-Mapped (2 ^ 34 - 2) DramSlot (λ pa size attr. maphigh pa size attr) (omega arith)
        (not_dram 510 (omega arith) (omega arith)) maphigh-maprange n is clear few left

  low_block :
      n + 1 ≤ ntables
      → Mapped
          (map_blocks physdram physdram drammax pteleafmem)
          DramSlot
          (n + 1)
          b
          role
          (mapblock physdram physdram drammax pteleafmem b)
  low_block left =
      mapblock-Mapped physdram physdram drammax pteleafmem DramSlot (n + 1) (refl, omega arith) refl
        (omega arith) (omega arith) (omega arith) refl (inl refl) is (inr (omega arith)) left

  low_devices :
      Unblocked b role 0
      → n + 10 ≤ ntables
      → Mapped
          (map_devices 0)
          DramSlot
          (n + 10)
          b
          role
          (devices (λ pa size attr. mapident pa size attr) b)
  low_devices clear left =
      devices-Mapped 0 DramSlot (λ pa size attr. mapident pa size attr) (omega arith)
        (not_dram 0 (omega arith) (omega arith)) mapident-maprange n is clear few left

module _ (tablestore : ℕ) (mem : Mem) (low : tablestore < 2 ^ 55)
    (zeroed : (a : ℕ) → tablestore ≤ a → a < tablestore + (ntables + 1) * 4096 → mem a ≡ 0) where
  first : Boot
  first = start tablestore mem low zeroed

  empty_view : (w s r : ℕ) → w < 512 → view first w s r ≡ none
  unfolding first
  empty_view w s r hw = ground (arith, root_slot)
    where
      root_slot : mem (round tablestore by2pg + w * 8) ≡ 0
      root_slot =
          let page = round_page tablestore low in
          zeroed (round tablestore by2pg + w * 8) (omega arith) (omega arith)

  -- The calls from the first block on.
  all_calls :
      Mapped
        (λ v. map_at 0 (map_at kzero v))
        DramSlot
        23
        first
        (start_role tablestore mem low zeroed)
        (mapblock (kaddr physdram) physdram drammax pteleafmem first >>= after_high_block)
  unfolding first after_high_block
  all_calls =
      let f1 = high_block tablestore mem low zeroed in
      let f2 =
        high_devices 2 f1.is f1.count
          (f1.keeps_unblocked 510 (omega arith) (not_dram 510 (omega arith) (omega arith))
            (no_mid tablestore mem low zeroed 510))
          (omega arith) in
      let f3 = low_block 12 f2.is f2.count (omega arith) in
      let f4 =
        low_devices 13 f3.is f3.count
          (let apart = not_dram 0 (omega arith) (omega arith) in
            f3.keeps_unblocked 0 (omega arith) apart (
              f2.keeps_unblocked 0 (omega arith) apart
                (f1.keeps_unblocked 0 (omega arith) apart (no_mid tablestore mem low zeroed 0))))
          (omega arith) in
      Mapped-then _ f1 (Mapped-then _ f2 (Mapped-then _ f3 f4))

  -- For a store of tables below 2 ^ 55 that holds zeros, `mmubootstrap` returns. The satp value that it
  -- returns names the root of tables which map exactly DRAM and the devices, in the high half and again at
  -- their physical addresses, every page with its own entry. The tables form one tree, and at least one of
  -- the 24 is left.
  pub mmubootstrap-Started : Started (mmubootstrap tablestore mem)
  unfolding mmubootstrap with_satp first
  mmubootstrap-Started =
      let f = all_calls in
      record {
        after = f.after;
        role' = f.role';
        ran = rw (first_table tablestore mem low zeroed) (bind-with_satp first f.after f.ran);
        is = f.is;
        views = λ w s r hw hs hr.
            f.views w s r hw hs hr
            ∙ f.pagewise (view first) (λ w s r. none) w s r (empty_view w s r hw);
        count = f.count;
      }
