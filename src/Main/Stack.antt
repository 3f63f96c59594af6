-- ===== src/Main/Stack.antt =====
-- main.c: the stack that `init0` builds for the first process. Memory is bytes; a pointer is eight of
-- them, the lowest first. The size of a Tos is a parameter.
use native.Mathlib.Numerals.{unary_clauses}
use front_mangopi_overlay.Trap.Dispatch.{ustktop}
use front_mangopi_overlay.Bootargs.Init.{string_at}
use front_mangopi_overlay.Base.{
  ℕ, zero, suc, ◌+◌, ◌-◌, ◌*◌, ◌/◌, ◌%◌, ◌^◌, ◌<◌, ◌≤◌, ◌≡◌, ◌⊎◌, inl, List, [], ◌∷◌, update, arith,
  refl, ◌∙◌, ap,
}

-- The eight bytes of a word, at and after an address.
unfoldable pub store_bytes : ℕ → (a v : ℕ) → (ℕ → ℕ) → ℕ → ℕ
store_bytes zero a v m x = m x
store_bytes (suc n) a v m x = store_bytes n (a + 1) (v / 256) (update m a (v % 256)) x

unfoldable pub load_bytes : ℕ → (a : ℕ) → (ℕ → ℕ) → ℕ
load_bytes zero a m = 0
load_bytes (suc n) a m = m a + 256 * load_bytes n (a + 1) m

-- `strcpy`.
unfoldable pub strcpy : (a : ℕ) → List ℕ → (ℕ → ℕ) → ℕ → ℕ
strcpy a [] m = update m a 0
strcpy a (c ∷ cs) m = strcpy (a + 1) cs (update m a c)

abbrev pub boot_name : List ℕ
boot_name = b'b' ∷ b'o' ∷ b'o' ∷ b't' ∷ []

-- What is written from the stack pointer on.
unfoldable pub fill_stack : (sp : ℕ) → (ℕ → ℕ) → ℕ → ℕ
fill_stack sp m =
    let m0 = store_bytes 8 sp 0 m in
    let m1 = store_bytes 8 (sp + 8) 0 m0 in
    let m2 = store_bytes 8 (sp + 16) (sp + 24) m1 in
    let m3 = store_bytes 8 (sp + 24) (sp + 40) m2 in
    let m4 = store_bytes 8 (sp + 32) 0 m3 in strcpy (sp + 40) boot_name m4

-- The stack pointer and the memory, given the size of a Tos.
unfoldable pub init0_stack : (tos : ℕ) → (ℕ → ℕ) → ℕ × (ℕ → ℕ)
init0_stack tos m = let sp = ustktop - tos - 8 - 8 * 6 in (sp, fill_stack sp m)

pub store_bytes_apart :
    (n a v : ℕ) (m : ℕ → ℕ) (x : ℕ) → (x < a) ⊎ (a + n ≤ x) → store_bytes n a v m x ≡ m x
unfolding store_bytes
store_bytes_apart zero a v m x h = refl
store_bytes_apart (suc n) a v m x h =
    store_bytes_apart n (a + 1) (v / 256) (update m a (v % 256)) x (omega arith) ∙ ground arith

load_bytes_agree :
    (n a : ℕ) (m m' : ℕ → ℕ)
    → ((x : ℕ) → a ≤ x → x < a + n → m' x ≡ m x)
    → load_bytes n a m' ≡ load_bytes n a m
unfolding load_bytes
load_bytes_agree zero a m m' h = refl
load_bytes_agree (suc n) a m m' h = omega (
  arith,
  h a (omega arith) (omega arith),
  load_bytes_agree n (a + 1) m m' (λ x lo hi. h x (omega arith) (omega arith)),
)

quotient : (v n : ℕ) → v < n * 256 → v / 256 < n
quotient v n h = omega arith

own : (a v : ℕ) (m : ℕ → ℕ) → update m a v a ≡ v
own a v m = ground arith

pub load-store_bytes :
    (n a v : ℕ) (m : ℕ → ℕ) → v < 256 ^ n → load_bytes n a (store_bytes n a v m) ≡ v
unfolding load_bytes store_bytes
load-store_bytes zero a v m h = omega arith
load-store_bytes (suc n) a v m h =
    let fits : v / 256 < 256 ^ n = quotient v (256 ^ n) (simp unary_clauses at h) in
    omega (
      arith,
      store_bytes_apart n (a + 1) (v / 256) (update m a (v % 256)) a (inl (omega arith)),
      own a (v % 256) m,
      load-store_bytes n (a + 1) (v / 256) (update m a (v % 256)) fits,
    )

strcpy_apart : (a : ℕ) (m : ℕ → ℕ) (x : ℕ) → (x < a) ⊎ (a + 5 ≤ x) → strcpy a boot_name m x ≡ m x
unfolding strcpy
strcpy_apart a m x h = ground arith

strcpy-string_at : (a : ℕ) (m : ℕ → ℕ) → string_at 8 (strcpy a boot_name m) a ≡ boot_name
unfolding strcpy string_at
strcpy-string_at a m = ground arith

module _ (sp : ℕ) (m : ℕ → ℕ) (fits : sp + 64 < 2 ^ 64) where
  abbrev m0 : ℕ → ℕ
  m0 = store_bytes 8 sp 0 m

  abbrev m1 : ℕ → ℕ
  m1 = store_bytes 8 (sp + 8) 0 m0

  abbrev m2 : ℕ → ℕ
  m2 = store_bytes 8 (sp + 16) (sp + 24) m1

  abbrev m3 : ℕ → ℕ
  m3 = store_bytes 8 (sp + 24) (sp + 40) m2

  abbrev m4 : ℕ → ℕ
  m4 = store_bytes 8 (sp + 32) 0 m3

  argv_slot : load_bytes 8 (sp + 16) (fill_stack sp m) ≡ sp + 24
  unfolding fill_stack
  argv_slot =
      load_bytes_agree 8 (sp + 16) m2 (fill_stack sp m) (λ x lo hi.
        strcpy_apart (sp + 40) m4 x (inl (omega arith))
        ∙ store_bytes_apart 8 (sp + 32) 0 m3 x (inl (omega arith))
        ∙ store_bytes_apart 8 (sp + 24) (sp + 40) m2 x (inl (omega arith)))
      ∙ load-store_bytes 8 (sp + 16) (sp + 24) m1 (omega arith)

  first_slot : load_bytes 8 (sp + 24) (fill_stack sp m) ≡ sp + 40
  unfolding fill_stack
  first_slot =
      load_bytes_agree 8 (sp + 24) m3 (fill_stack sp m) (λ x lo hi.
        strcpy_apart (sp + 40) m4 x (inl (omega arith))
        ∙ store_bytes_apart 8 (sp + 32) 0 m3 x (inl (omega arith)))
      ∙ load-store_bytes 8 (sp + 24) (sp + 40) m2 (omega arith)

  last_slot : load_bytes 8 (sp + 32) (fill_stack sp m) ≡ 0
  unfolding fill_stack
  last_slot =
      load_bytes_agree 8 (sp + 32) m4 (fill_stack sp m)
        (λ x lo hi. strcpy_apart (sp + 40) m4 x (inl (omega arith)))
      ∙ load-store_bytes 8 (sp + 32) 0 m3 (omega arith)

  outside : (x : ℕ) → (x < sp) ⊎ (sp + 45 ≤ x) → fill_stack sp m x ≡ m x
  unfolding fill_stack
  outside x h =
      strcpy_apart (sp + 40) m4 x (omega arith)
      ∙ store_bytes_apart 8 (sp + 32) 0 m3 x (omega arith)
      ∙ store_bytes_apart 8 (sp + 24) (sp + 40) m2 x (omega arith)
      ∙ store_bytes_apart 8 (sp + 16) (sp + 24) m1 x (omega arith)
      ∙ store_bytes_apart 8 (sp + 8) 0 m0 x (omega arith)
      ∙ store_bytes_apart 8 sp 0 m x (omega arith)

  name : string_at 8 (fill_stack sp m) (sp + 40) ≡ boot_name
  unfolding fill_stack
  name = strcpy-string_at (sp + 40) m4

  argv_name :
      let mem = fill_stack sp m in
      string_at 8 mem (load_bytes 8 (load_bytes 8 (sp + 16) mem) mem) ≡ boot_name
  argv_name =
      let mem = fill_stack sp m in
      ap (λ a. string_at 8 mem (load_bytes 8 a mem)) argv_slot
      ∙ ap (λ a. string_at 8 mem a) first_slot
      ∙ name

  argv_end : let mem = fill_stack sp m in load_bytes 8 (load_bytes 8 (sp + 16) mem + 8) mem ≡ 0
  argv_end =
      let mem = fill_stack sp m in
      ap (λ a. load_bytes 8 (a + 8) mem) argv_slot
      ∙ ap (λ a. load_bytes 8 a mem) (next sp)
      ∙ last_slot
    where
      next : (sp : ℕ) → sp + 24 + 8 ≡ sp + 32
      next sp = omega arith

-- On the stack that `init0` leaves, the third word names a vector of pointers with one string,
-- which is `boot`, and then 0. The stack pointer is aligned as the Tos is, and nothing is written below it,
-- nor in the Tos and the 8 bytes before it, nor above.
pub init0_stack_argv :
    (tos : ℕ) (m : ℕ → ℕ)
    → tos % 8 ≡ 0
    → tos < 2 ^ 16
    → let (sp, mem) = init0_stack tos m in
      let argv = load_bytes 8 (sp + 16) mem in
      (string_at 8 mem (load_bytes 8 argv mem) ≡ boot_name)
      × (load_bytes 8 (argv + 8) mem ≡ 0)
      × (sp % 8 ≡ 0)
      × ((x : ℕ) → (x < sp) ⊎ (ustktop - tos - 8 ≤ x) → mem x ≡ m x)
unfolding init0_stack
init0_stack_argv tos m aligned small =
    let sp = ustktop - tos - 8 - 8 * 6 in
    let fits : sp + 64 < 2 ^ 64 = omega arith in
    (argv_name sp m fits, argv_end sp m fits, omega arith, λ x h. outside sp m fits x (omega arith))
