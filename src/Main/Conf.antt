-- ===== src/Main/Conf.antt =====
-- main.c: the arithmetic of `confinit`. A `ulong` has 32 bits and a `uintptr` 64. The sizes of the
-- portable kernel's structures are parameters.
use front_mangopi_overlay.Mmu.Pte.{by2pg, physdram, kaddr, paddr, round}
use front_mangopi_overlay.Base.Bits.Field.{clear_field}
use front_mangopi_overlay.Base.{
  ap, ◌∙◌, ℕ, ◌+◌, ◌-◌, ◌*◌, ◌/◌, ◌%◌, ◌^◌, ◌<◌, ◌≤◌, ◌≡◌, ◌⊎◌, not64, u32, u64, ltb, if◌then◌else◌,
  arith, refl,
}

-- `sizeof` of Page, Proc*, Image and Page*.
pub record Sizes : Type 0 where
  pub page : ℕ
  pub proc_ptr : ℕ
  pub image : ℕ
  pub page_ptr : ℕ

-- `conf` with its one `Confmem`, and the two pool limits. `pages` is `conf.npage`.
pub record Conf : Type 0 where
  pub base : ℕ
  pub npage : ℕ
  pub kbase : ℕ
  pub klimit : ℕ
  pub pages : ℕ
  pub upages : ℕ
  pub ialloc : ℕ
  pub nproc : ℕ
  pub nimage : ℕ
  pub nswap : ℕ
  pub nswppo : ℕ
  pub mainmem : ℕ
  pub imagmem : ℕ

-- `memsize` is what `dramsize` returned, and `end` the address of the end of the kernel.
unfoldable pub confinit : Sizes → (memsize end : ℕ) → Conf
confinit size memsize end =
    let pa = paddr (round end by2pg) in
    let npage = u32 (u64 (physdram + memsize + 2 ^ 64 - pa) / by2pg) in
    let upages = u32 (npage * 80) / 100 in
    let kernel = u32 (npage + 2 ^ 32 - upages) in
    let procs = 100 + u32 (npage * by2pg) / (1024 * 1024) * 5 in
    let nproc = if ltb 2000 procs then 2000 else procs in
    let nswap = u32 (npage * 3) in
    let tables =
      upages * size.page
      + nproc * size.proc_ptr
      + 200 * size.image
      + nswap
      + 4096 * size.page_ptr in
    let kpages = u32 (u32 (kernel * by2pg) + 2 ^ 32 - u32 tables) in
    record {
      base = pa;
      npage = npage;
      kbase = kaddr pa;
      klimit = kaddr (physdram + memsize);
      pages = npage;
      upages = upages;
      ialloc = u32 (kernel / 2 * by2pg);
      nproc = nproc;
      nimage = 200;
      nswap = nswap;
      nswppo = 4096;
      mainmem = kpages;
      imagmem = kpages - kpages / 10;
    }

rounded : (k : ℕ) → k + 4095 < 2 ^ 64 → round k by2pg ≡ (k + 4095) / 4096 * 4096
unfolding round
rounded k h =
    let up : u64 (k + (by2pg - 1)) ≡ k + 4095 = omega arith in
    clear_field 0 12 52 ((k + 4095) / 4096) ((k + 4095) % 4096) 0 (u64 (k + (by2pg - 1)))
      (not64 (by2pg - 1)) (omega arith) refl (omega arith) (omega arith) (omega arith)
    ∙ omega arith

at_most_256 : (n x : ℕ) → x ≤ 256 → n * x ≤ n * 256
at_most_256 n x h = grind arith

-- The shares of `npage` pages.
shares :
    (n t : ℕ)
    → 2 ^ 16 ≤ n
    → n ≤ 2 ^ 18
    → t ≤ n * 208 + 2 ^ 24
    → let u = u32 (n * 80) / 100 in
      let kernel = u32 (n + 2 ^ 32 - u) in
      (u ≤ n)
      × (kernel + u ≡ n)
      × (u32 (u32 (kernel * by2pg) + 2 ^ 32 - u32 t) + t + u * by2pg ≡ n * by2pg)
shares n t lo hi h =
    let u = n * 80 / 100 in
    let eu : u32 (n * 80) / 100 ≡ u = omega arith in
    let ek : u32 (n + 2 ^ 32 - u) ≡ n - u = omega arith in
    let eb : u32 ((n - u) * by2pg) ≡ (n - u) * 4096 = omega arith in
    let et : u32 t ≡ t = omega arith in
    let ep : u32 ((n - u) * 4096 + 2 ^ 32 - t) ≡ (n - u) * 4096 - t = omega arith in
    rw (eu, ek, eb, et, ep) (omega arith, omega arith, omega arith)

first_page :
    (e : ℕ)
    → 0x41000000 ≤ e
    → e ≤ 0x45000000
    → paddr (round (kaddr e) by2pg) ≡ (e + 4095) / 4096 * 4096
unfolding kaddr paddr
first_page e lo hi =
    let k : u64 (e + 0xFFFFFFFF80000000) ≡ e + 0xFFFFFFFF80000000 = omega arith in
    ap (λ x. u64 (round x by2pg + 2 ^ 64 - 0xFFFFFFFF80000000)) k
    ∙ ap (λ x. u64 (x + 2 ^ 64 - 0xFFFFFFFF80000000))
        (rounded (e + 0xFFFFFFFF80000000) (omega arith))
    ∙ omega arith

page_count :
    (memsize e : ℕ)
    → (memsize ≡ 2 ^ 29) ⊎ (memsize ≡ 2 ^ 30)
    → 0x41000000 ≤ e
    → e ≤ 0x45000000
    → let b = (e + 4095) / 4096 * 4096 in
      let n = (physdram + memsize - b) / 4096 in
      (u32 (u64 (physdram + memsize + 2 ^ 64 - b) / by2pg) ≡ n)
      × (2 ^ 16 ≤ n)
      × (n ≤ 2 ^ 18)
      × (b + n * 4096 ≡ physdram + memsize)
page_count memsize e mem lo hi = (omega arith, omega arith, omega arith, omega arith)

tables_bound :
    (n u np : ℕ) (size : Sizes)
    → u ≤ n * 80 / 100
    → np ≤ 2000
    → n ≤ 2 ^ 18
    → size.page ≤ 256
    → size.proc_ptr ≤ 256
    → size.image ≤ 2 ^ 16
    → size.page_ptr ≤ 256
    → u * size.page + np * size.proc_ptr + 200 * size.image + u32 (n * 3) + 4096 * size.page_ptr
      ≤ n * 208 + 2 ^ 24
tables_bound n u np size hu hn small h1 h2 h3 h4 =
    omega (arith, at_most_256 u size.page h1, at_most_256 np size.proc_ptr h2)

-- What the portable kernel's tables take.
abbrev pub tables_of : Sizes → Conf → ℕ
tables_of size c =
    c.upages * size.page
    + c.nproc * size.proc_ptr
    + c.nimage * size.image
    + c.nswap
    + c.nswppo * size.page_ptr

-- For a kernel whose image ends within 64 MB above `PHYSTEXT`, 512 MB or 1 GB of memory, and
-- an Image of at most 64 KB and a Page of at most 256 bytes, as are the two pointers: the pages go from the first one after the kernel to the end of
-- memory, none is left out; the limit of `mainmem`, the tables and the user pages add up to exactly
-- those pages, so that no difference has wrapped around; there are at most 2000 processes.
pub confinit_fits :
    (size : Sizes) (memsize e : ℕ)
    → (memsize ≡ 2 ^ 29) ⊎ (memsize ≡ 2 ^ 30)
    → 0x41000000 ≤ e
    → e ≤ 0x45000000
    → size.page ≤ 256
    → size.proc_ptr ≤ 256
    → size.image ≤ 2 ^ 16
    → size.page_ptr ≤ 256
    → let c = confinit size memsize (kaddr e) in
      (e ≤ c.base)
      × (c.base < e + 4096)
      × (c.base % 4096 ≡ 0)
      × (c.base + c.npage * 4096 ≡ physdram + memsize)
      × (c.pages ≡ c.npage)
      × (c.mainmem + tables_of size c + c.upages * 4096 ≡ c.npage * 4096)
      × (c.nproc ≤ 2000)
      × (c.imagmem ≤ c.mainmem)
unfolding confinit kaddr paddr
confinit_fits size memsize e mem lo hi h1 h2 h3 h4 =
    let b = (e + 4095) / 4096 * 4096 in
    let n = (physdram + memsize - b) / 4096 in
    let pages = page_count memsize e mem lo hi in
    let np =
      if ltb 2000 (100 + u32 (n * by2pg) / (1024 * 1024) * 5)
      then 2000
      else 100 + u32 (n * by2pg) / (1024 * 1024) * 5 in
    let np_few : np ≤ 2000 = ground arith in
    let u = u32 (n * 80) / 100 in
    let t =
      u * size.page + np * size.proc_ptr + 200 * size.image + u32 (n * 3) + 4096 * size.page_ptr in
    let few : t ≤ n * 208 + 2 ^ 24 =
      tables_bound n u np size (omega (arith, pages)) np_few (omega (arith, pages)) h1 h2 h3 h4 in
    let s = shares n t (omega (arith, pages)) (omega (arith, pages)) few in
    rw (first_page e lo hi, pages.0)
      (omega arith, omega arith, omega arith, omega (arith, pages), refl, s.2, np_few, omega arith)
