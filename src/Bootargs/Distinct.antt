-- ===== src/Bootargs/Distinct.antt =====
-- bootargs.c: names in the table are pairwise different.
use front_mangopi_overlay.Bootargs.{
  maxconf, Conf, findconf, set_confval, store_conf, addconf, getconf,
}
use front_mangopi_overlay.Bootargs.Table.{IsSame, getconf-cons}
use front_mangopi_overlay.Base.{
  ℕ, zero, suc, ◌≡◌, leb, Bool, false, Option, none, some, List, [], ◌∷◌, ◌++◌, length, get_elem?,
  arith, refl, Bool-cases, inl, inr,
}

-- No two rows have names that `cistrcmp` takes for the same.
unfoldable pub IsDistinct : {Str : Type 0} → (Str → Str → Bool) → List (Conf Str) → Type 0
IsDistinct same [] = Unit
IsDistinct same (c ∷ cs) = (findconf same c.confname cs ≡ none) × IsDistinct same cs

module _ {Str : Type 0} (same : Str → Str → Bool) where
  pub findconf_head :
      (c : Conf Str) (j : Str) (cs : List (Conf Str))
      → findconf same j (c ∷ cs) ≡ none
      → same c.confname j ≡ false
  unfolding findconf
  findconf_head c j cs e = ground (arith, e)

  pub findconf_tail :
      (c : Conf Str) (j : Str) (cs : List (Conf Str))
      → findconf same j (c ∷ cs) ≡ none
      → findconf same j cs ≡ none
  unfolding findconf
  findconf_tail c j cs e = ground (arith, e)

  findconf_skip :
      (c : Conf Str) (j : Str) (cs : List (Conf Str))
      → same c.confname j ≡ false
      → findconf same j cs ≡ none
      → findconf same j (c ∷ cs) ≡ none
  unfolding findconf
  findconf_skip c j cs h e = rw h e

  findconf-confval :
      (c : Conf Str) (v j : Str) (cs : List (Conf Str))
      → findconf same j (c ∷ cs) ≡ none
      → findconf same j (record c { confval = v } ∷ cs) ≡ none
  unfolding findconf
  findconf-confval c v j cs e = ground (arith, e)

  findconf-set_confval :
      (k v j : Str) (cs : List (Conf Str))
      → findconf same j cs ≡ none
      → findconf same j (set_confval same k v cs) ≡ none
  unfolding findconf set_confval
  findconf-set_confval k v j [] e = ground arith
  findconf-set_confval k v j (c ∷ cs) e = elim (Bool-cases (same c.confname k)) [
    | inl h ↦ rw h (findconf-confval c v j cs e)
    | inr h ↦ rw h (
        findconf_skip c j (set_confval same k v cs) (findconf_head c j cs e)
          (findconf-set_confval k v j cs (findconf_tail c j cs e)))
  ]

  set_confval-IsDistinct :
      (k v : Str) (cs : List (Conf Str))
      → IsDistinct same cs
      → IsDistinct same (set_confval same k v cs)
  unfolding IsDistinct set_confval
  set_confval-IsDistinct k v [] d = d
  set_confval-IsDistinct k v (c ∷ cs) (e, d) = elim (Bool-cases (same c.confname k)) [
    | inl h ↦ rw h (e, d)
    | inr h ↦ rw h (findconf-set_confval k v c.confname cs e, set_confval-IsDistinct k v cs d)
  ]

  findconf-empty : (j : Str) → findconf same j [] ≡ none
  unfolding findconf
  findconf-empty j = refl

  findconf-append :
      (j : Str) (d : Conf Str) (cs : List (Conf Str))
      → same d.confname j ≡ false
      → findconf same j cs ≡ none
      → findconf same j (cs ++ d ∷ []) ≡ none
  findconf-append j d [] h e = findconf_skip d j [] h e
  findconf-append j d (c ∷ cs) h e =
      findconf_skip c j (cs ++ d ∷ []) (findconf_head c j cs e)
        (findconf-append j d cs h (findconf_tail c j cs e))

  pub not_same : (a b : Str) → IsSame same → same b a ≡ false → same a b ≡ false
  not_same a b is h = ground (arith, is.from_right b a b, is.of_self b)

  append-IsDistinct :
      (k v : Str) (cs : List (Conf Str))
      → IsSame same
      → IsDistinct same cs
      → findconf same k cs ≡ none
      → IsDistinct same (cs ++ record { confname = k; confval = v } ∷ [])
  unfolding IsDistinct
  append-IsDistinct k v [] is d e = (findconf-empty k, d)
  append-IsDistinct k v (c ∷ cs) is (f, d) e = (
    findconf-append c.confname (record { confname = k; confval = v }) cs
        (not_same k c.confname is (findconf_head c k cs e)) f,
    append-IsDistinct k v cs is d (findconf_tail c k cs e),
  )

  store_conf-IsDistinct :
      (o : Option (Conf Str)) (k v : Str) (cs : List (Conf Str))
      → IsSame same
      → findconf same k cs ≡ o
      → IsDistinct same cs
      → IsDistinct same (store_conf same o k v cs)
  unfolding store_conf
  store_conf-IsDistinct (some c) k v cs is e d = set_confval-IsDistinct k v cs d
  store_conf-IsDistinct none k v cs is e d = elim (Bool-cases (leb maxconf (length cs))) [
    | inl h ↦ rw h d
    | inr h ↦ rw h (append-IsDistinct k v cs is d e)
  ]

  pub addconf-IsDistinct :
      (k v : Str) (cs : List (Conf Str))
      → IsSame same
      → IsDistinct same cs
      → IsDistinct same (addconf same k v cs)
  unfolding addconf
  addconf-IsDistinct k v cs is d = store_conf-IsDistinct (findconf same k cs) k v cs is refl d

  pub get_elem?_absent :
      (j : Str) (cs : List (Conf Str)) (i : ℕ) (c : Conf Str)
      → findconf same j cs ≡ none
      → get_elem? cs i ≡ some c
      → same c.confname j ≡ false
  get_elem?_absent j [] i c f e = absurd (ground (arith, e))
  get_elem?_absent j (b ∷ bs) zero c f e = ground (arith, findconf_head b j bs f, e)
  get_elem?_absent j (b ∷ bs) (suc i) c f e = get_elem?_absent j bs i c (findconf_tail b j bs f) e

  -- A row of a table with distinct names is the one that `getconf` finds.
  pub getconf-get_elem? :
      (cs : List (Conf Str)) (i : ℕ) (c : Conf Str)
      → IsSame same
      → IsDistinct same cs
      → get_elem? cs i ≡ some c
      → getconf same c.confname cs ≡ some c.confval
  unfolding IsDistinct
  getconf-get_elem? [] i c is d e = absurd (ground (arith, e))
  getconf-get_elem? (b ∷ bs) zero c is d e =
      ground (arith, getconf-cons same c.confname b bs, is.of_self c.confname, e)
  getconf-get_elem? (b ∷ bs) (suc i) c is (f, d) e = ground (
    arith,
    getconf-cons same c.confname b bs,
    not_same b.confname c.confname is (get_elem?_absent b.confname bs i c f e),
    getconf-get_elem? bs i c is d e,
  )
