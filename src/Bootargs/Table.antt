-- ===== src/Bootargs/Table.antt =====
-- Reading back what was stored.
use front_mangopi_overlay.Bootargs.{
  maxconf, Conf, findconf, set_confval, store_conf, value_of, addconf, getconf,
}
use front_mangopi_overlay.Base.{
  suc, ◌<◌, ◌≤◌, ◌≡◌, if◌then◌else◌, Bool, true, Option, none, some, List, [], ◌∷◌, ◌++◌, length,
  length-append, arith, refl, Bool-cases, inl, inr,
}

-- What the code relies on of `cistrcmp`: strings that are the same cannot be told apart.
pub record IsSame {Str : Type 0} (same : Str → Str → Bool) : Type 0 where
  pub of_self : (a : Str) → same a a ≡ true
  pub from_left : (a b c : Str) → same a b ≡ true → same a c ≡ same b c
  pub from_right : (a b c : Str) → same b c ≡ true → same a b ≡ same a c

module _ {Str : Type 0} (same : Str → Str → Bool) where
  length-set_confval :
      (k v : Str) (cs : List (Conf Str)) → length (set_confval same k v cs) ≡ length cs
  unfolding set_confval
  length-set_confval k v [] = refl
  length-set_confval k v (c ∷ cs) = ground (arith, length-set_confval k v cs)

  length-store_conf :
      (o : Option (Conf Str)) (k v : Str) (cs : List (Conf Str))
      → length cs ≤ maxconf
      → length (store_conf same o k v cs) ≤ maxconf
  unfolding store_conf
  length-store_conf (some c) k v cs h = omega (arith, length-set_confval k v cs, h)
  length-store_conf none k v cs h =
      ground (arith, length-append cs (record { confname = k; confval = v } ∷ []))

  length-store_conf-suc :
      (o : Option (Conf Str)) (k v : Str) (cs : List (Conf Str))
      → length (store_conf same o k v cs) ≤ suc (length cs)
  unfolding store_conf
  length-store_conf-suc (some c) k v cs = omega (arith, length-set_confval k v cs)
  length-store_conf-suc none k v cs =
      ground (arith, length-append cs (record { confname = k; confval = v } ∷ []))

  pub length-addconf :
      (k v : Str) (cs : List (Conf Str)) → length (addconf same k v cs) ≤ suc (length cs)
  unfolding addconf
  length-addconf k v cs = length-store_conf-suc (findconf same k cs) k v cs

  pub getconf-cons :
      (j : Str) (c : Conf Str) (cs : List (Conf Str))
      → getconf same j (c ∷ cs) ≡ (if same c.confname j then some c.confval else getconf same j cs)
  unfolding getconf findconf value_of
  getconf-cons j c cs = elim (Bool-cases (same c.confname j)) [
    | inl e ↦ rw e refl
    | inr e ↦ rw e refl
  ]

  getconf-set_confval :
      (k v j : Str) (cs : List (Conf Str)) (c : Conf Str)
      → IsSame same
      → findconf same k cs ≡ some c
      → getconf same j (set_confval same k v cs) ≡ (if same k j then some v else getconf same j cs)
  unfolding findconf set_confval
  getconf-set_confval k v j [] c is e = ground arith
  getconf-set_confval k v j (d ∷ cs) c is e = elim (Bool-cases (same d.confname k)) [
    | inl h ↦ rw h (
        ground (
          arith,
          getconf-cons j (record d { confval = v }) cs,
          getconf-cons j d cs,
          is.from_left d.confname k j h,
        ))
    | inr h ↦ rw h (
        ground (
          arith,
          getconf-cons j d (set_confval same k v cs),
          getconf-cons j d cs,
          is.from_right d.confname k j,
          getconf-set_confval k v j cs c is (ground (arith, e, h)),
        ))
  ]

  getconf-append :
      (k v j : Str) (cs : List (Conf Str))
      → IsSame same
      → findconf same k cs ≡ none
      → getconf same j (cs ++ record { confname = k; confval = v } ∷ [])
        ≡ (if same k j then some v else getconf same j cs)
  unfolding findconf
  getconf-append k v j [] is e = getconf-cons j (record { confname = k; confval = v }) []
  getconf-append k v j (d ∷ cs) is e = elim (Bool-cases (same d.confname k)) [
    | inl h ↦ absurd (ground (arith, e, h))
    | inr h ↦ ground (
      arith,
      h,
      getconf-cons j d (cs ++ record { confname = k; confval = v } ∷ []),
      getconf-cons j d cs,
      is.from_right d.confname k j,
      getconf-append k v j cs is (ground (arith, e, h)),
    )
  ]

  getconf-store_conf :
      (o : Option (Conf Str)) (k v j : Str) (cs : List (Conf Str))
      → IsSame same
      → findconf same k cs ≡ o
      → length cs < maxconf
      → getconf same j (store_conf same o k v cs) ≡ (if same k j then some v else getconf same j cs)
  unfolding store_conf
  getconf-store_conf (some c) k v j cs is e h = getconf-set_confval k v j cs c is e
  getconf-store_conf none k v j cs is e h = ground (arith, getconf-append k v j cs is e)

  -- After a value is stored in a table with a free row, whether the name had a row already or not,
  -- `getconf` finds that value under every name that `cistrcmp` takes for the same, and what it
  -- found before under every other name. The table has no more than 64 rows.
  pub getconf-addconf :
      (k v j : Str) (cs : List (Conf Str))
      → IsSame same
      → length cs < maxconf
      → (getconf same j (addconf same k v cs) ≡ (if same k j then some v else getconf same j cs))
        × (length (addconf same k v cs) ≤ maxconf)
  unfolding addconf
  getconf-addconf k v j cs is h = (
    getconf-store_conf (findconf same k cs) k v j cs is refl h,
    length-store_conf (findconf same k cs) k v cs (omega arith),
  )
