-- ===== src/Bootargs/Env.antt =====
-- bootargs.c: the environments that `setconfenv` fills from the table of `bootargsinit`.
use mathlib.Core.Path.{subst}
use mathlib.Core.Option.{some-injective}
use front_mangopi_overlay.Bootargs.{Conf, findconf, getconf}
use front_mangopi_overlay.Bootargs.Table.{IsSame}
use front_mangopi_overlay.Bootargs.Distinct.{
  IsDistinct, addconf-IsDistinct, getconf-get_elem?, get_elem?_absent, findconf_head, findconf_tail,
  not_same,
}
use front_mangopi_overlay.Bootargs.Init.{
  Buffer, bootargslen, string_at, strip, first_byte, line_setting, add_setting, add_lines,
  bootargsinit, Ksetenv, set_row, set_rows, until_error, setconfenv,
}
use front_mangopi_overlay.Base.{
  ℕ, zero, suc, ◌-◌, ◌<◌, ◌≡◌, ◌==◌, leb, ◌&&◌, ◌||◌, if◌then◌else◌, Bool, true, false, Option,
  none, some, List, [], ◌∷◌, ◌++◌, get_elem?, update, arith, refl, or_else, or_else_assoc,
  or_else-none, sym, ap, ◌∙◌, Bool-cases, inl, inr,
}

-- The names of the environments are compared byte by byte.
unfoldable pub same_bytes : List ℕ → List ℕ → Bool
same_bytes [] [] = true
same_bytes [] (b ∷ bs) = false
same_bytes (a ∷ s) [] = false
same_bytes (a ∷ s) (b ∷ bs) = (a == b) && same_bytes s bs

-- What an environment holds under a name after some calls: the value of the last one.
unfoldable pub env : List Ksetenv → ℕ → List ℕ → Option (List ℕ)
unfolding same_bytes
env [] f j = none
env (k ∷ ks) f j =
    or_else (env ks f j) (if (k.conf == f) && same_bytes k.name j then some k.value else none)

same_bytes_sound : (a b : List ℕ) → same_bytes a b ≡ true → a ≡ b
unfolding same_bytes
same_bytes_sound [] [] e = refl
same_bytes_sound [] (b ∷ bs) e = absurd (ground (arith, e))
same_bytes_sound (a ∷ s) [] e = absurd (ground (arith, e))
same_bytes_sound (a ∷ s) (b ∷ bs) e = ground (arith, e, same_bytes_sound s bs)

same_bytes_refl : (a : List ℕ) → same_bytes a a ≡ true
unfolding same_bytes
same_bytes_refl [] = refl
same_bytes_refl (a ∷ s) = ground (arith, same_bytes_refl s)

pub same_bytes-IsSame : IsSame same_bytes
same_bytes-IsSame = record {
  of_self = same_bytes_refl;
  from_left = λ a b c h. ap (λ x. same_bytes x c) (same_bytes_sound a b h);
  from_right = λ a b c h. ap (λ x. same_bytes a x) (same_bytes_sound b c h);
}

env-append :
    (ks ls : List Ksetenv) (f : ℕ) (j : List ℕ)
    → env (ks ++ ls) f j ≡ or_else (env ls f j) (env ks f j)
unfolding env
env-append [] ls f j = sym (or_else-none (env ls f j))
env-append (k ∷ ks) ls f j =
    ap (λ o. or_else o (env (k ∷ []) f j)) (env-append ks ls f j)
    ∙ sym (or_else_assoc (env ls f j) (env ks f j) (env (k ∷ []) f j))

-- What the calls for one row leave under a name.
row_value : Conf (List ℕ) → ℕ → Option (List ℕ)
unfolding first_byte
row_value c f = if (f == 0) && (first_byte c.confname == b'*') then none else some c.confval

env-set_row_other :
    (c : Conf (List ℕ)) (f : ℕ) (j : List ℕ)
    → same_bytes c.confname j ≡ false
    → env (set_row c) f j ≡ none
unfolding env set_row
env-set_row_other c f j h = elim (Bool-cases (first_byte c.confname == b'*')) [
  | inl s ↦ rw s (ground (arith, h))
  | inr s ↦ rw s (ground (arith, h))
]

env-set_row_self :
    (c : Conf (List ℕ)) (f : ℕ) → f < 2 → env (set_row c) f c.confname ≡ row_value c f
unfolding env set_row row_value
env-set_row_self c f h = ground (arith, same_bytes_refl c.confname)

not_same_bytes :
    (same : List ℕ → List ℕ → Bool) (a b : List ℕ)
    → IsSame same
    → same a b ≡ false
    → same_bytes a b ≡ false
not_same_bytes same a b is h = elim (Bool-cases (same_bytes a b)) [
  | inl e ↦ absurd (ground (arith, is.of_self a, ap (λ x. same a x) (same_bytes_sound a b e), h))
  | inr e ↦ e
]

until_error_all :
    (raises : Ksetenv → Bool) (ks : List Ksetenv)
    → ((k : Ksetenv) → raises k ≡ false)
    → until_error raises ks ≡ ks
unfolding until_error
until_error_all raises [] none_raises = refl
until_error_all raises (k ∷ ks) none_raises =
    rw (none_raises k)
      (ap (λ (rest : List Ksetenv). k ∷ rest) (until_error_all raises ks none_raises))

setconfenv_all :
    (raises : Ksetenv → Bool) (cs : List (Conf (List ℕ)))
    → ((k : Ksetenv) → raises k ≡ false)
    → setconfenv raises cs ≡ set_rows cs
unfolding setconfenv
setconfenv_all raises cs none_raises = until_error_all raises (set_rows cs) none_raises

module _ (same : List ℕ → List ℕ → Bool) where
  env_absent :
      (cs : List (Conf (List ℕ))) (f : ℕ) (j : List ℕ)
      → IsSame same
      → findconf same j cs ≡ none
      → env (set_rows cs) f j ≡ none
  unfolding set_rows env
  env_absent [] f j is e = refl
  env_absent (c ∷ cs) f j is e = rw (
    env-append (set_row c) (set_rows cs) f j,
    env_absent cs f j is (findconf_tail same c j cs e),
    env-set_row_other c f j (not_same_bytes same c.confname j is (findconf_head same c j cs e)),
  )

  env-set_rows :
      (cs : List (Conf (List ℕ))) (i : ℕ) (c : Conf (List ℕ)) (f : ℕ)
      → IsSame same
      → IsDistinct same cs
      → get_elem? cs i ≡ some c
      → f < 2
      → env (set_rows cs) f c.confname ≡ row_value c f
  unfolding set_rows IsDistinct
  env-set_rows [] i c f is d e h = absurd (ground (arith, e))
  env-set_rows (b ∷ bs) zero c f is (a, d) e h =
      subst (λ (x : Conf (List ℕ)). env (set_rows (b ∷ bs)) f x.confname ≡ row_value x f)
        (some-injective b c e)
        (rw (env-append (set_row b) (set_rows bs) f b.confname, env_absent bs f b.confname is a)
          (env-set_row_self b f h))
  env-set_rows (b ∷ bs) (suc i) c f is (a, d) e h =
      rw
        (
          env-append (set_row b) (set_rows bs) f c.confname,
          env-set_row_other b f c.confname (
              not_same_bytes same b.confname c.confname is (
                not_same same b.confname c.confname is
                  (get_elem?_absent same b.confname bs i c a e))),
          or_else-none (env (set_rows bs) f c.confname),
        )
        (env-set_rows bs i c f is d e h)

  add_setting-IsDistinct :
      (o : Option (List ℕ × List ℕ)) (cs : List (Conf (List ℕ)))
      → IsSame same
      → IsDistinct same cs
      → IsDistinct same (add_setting same o cs)
  unfolding add_setting
  add_setting-IsDistinct none cs is d = d
  add_setting-IsDistinct (some kv) cs is d = addconf-IsDistinct same kv.0 kv.1 cs is d

  add_lines-IsDistinct :
      (ls : List (List ℕ)) (cs : List (Conf (List ℕ)))
      → IsSame same
      → IsDistinct same cs
      → IsDistinct same (add_lines same ls cs)
  unfolding add_lines
  add_lines-IsDistinct [] cs is d = d
  add_lines-IsDistinct (l ∷ ls) cs is d =
      add_lines-IsDistinct ls (add_setting same (line_setting l) cs) is
        (add_setting-IsDistinct (line_setting l) cs is d)

  lines-IsDistinct :
      (empty : Bool) (ls : List (List ℕ))
      → IsSame same
      → IsDistinct same (if empty then [] else add_lines same ls [])
  unfolding IsDistinct
  lines-IsDistinct true ls is = tt
  lines-IsDistinct false ls is = add_lines-IsDistinct ls [] is tt

  bootargsinit-IsDistinct :
      (getfields : List ℕ → List (List ℕ)) (m : Buffer)
      → IsSame same
      → IsDistinct same (bootargsinit same getfields m)
  unfolding bootargsinit
  bootargsinit-IsDistinct getfields m is =
      lines-IsDistinct
        ((update m (bootargslen - 1) 0 0 == 0) || leb 128 (update m (bootargslen - 1) 0 0))
        (getfields (string_at bootargslen (strip bootargslen (update m (bootargslen - 1) 0) 0 0) 0))
        is

  env-row :
      (cs : List (Conf (List ℕ))) (f i : ℕ) (c : Conf (List ℕ))
      → IsSame same
      → IsDistinct same cs
      → get_elem? cs i ≡ some c
      → f < 2
      → env (set_rows cs) f c.confname
        ≡ (if (f == 0) && (first_byte c.confname == b'*') then none else getconf same c.confname cs)
  unfolding row_value
  env-row cs f i c is d e h =
      rw (env-set_rows cs i c f is d e h, getconf-get_elem? same cs i c is d e) refl

  -- After the calls of `setconfenv`, if none of them raises an error, each name in the table that `bootargsinit` left is in the kernel's
  -- configuration with the value that `getconf` finds, and in the environment of `init` with that value
  -- too, except when it starts with `*`, and then it is not there.
  pub setconfenv-getconf :
      (getfields : List ℕ → List (List ℕ)) (m : Buffer) (i : ℕ) (c : Conf (List ℕ))
      (raises : Ksetenv → Bool)
      → IsSame same
      → ((k : Ksetenv) → raises k ≡ false)
      → get_elem? (bootargsinit same getfields m) i ≡ some c
      → (env (setconfenv raises (bootargsinit same getfields m)) 1 c.confname
          ≡ getconf same c.confname (bootargsinit same getfields m))
        × (env (setconfenv raises (bootargsinit same getfields m)) 0 c.confname ≡ (
            if first_byte c.confname == b'*'
            then none
            else getconf same c.confname (bootargsinit same getfields m)))
  setconfenv-getconf getfields m i c raises is none_raises e =
      let calls = setconfenv_all raises T none_raises in
      (
        ap (λ ks. env ks 1 c.confname) calls ∙ env-row T 1 i c is d e (omega arith),
        ap (λ ks. env ks 0 c.confname) calls ∙ env-row T 0 i c is d e (omega arith),
      )
    where
      T : List (Conf (List ℕ))
      T = bootargsinit same getfields m

      d : IsDistinct same T
      d = bootargsinit-IsDistinct getfields m is
