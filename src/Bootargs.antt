-- ===== src/Bootargs.antt =====
-- bootargs.c: the table of the names and values of plan9.ini. Strings and `cistrcmp`, which is not
-- in the repository, are parameters: `same` is `cistrcmp(a, b) == 0`.
pub mod Table
pub mod Init
pub mod Strip
pub mod Text
pub mod Distinct
pub mod Env
mod Tests
use front_mangopi_overlay.Base.{
  ℕ, zero, suc, leb, if◌then◌else◌, Bool, Option, none, some, List, [], ◌∷◌, ◌++◌, length,
}

abbrev pub maxconf : ℕ
maxconf = 64

-- One row of `confname` and `confval`; the table is the first `nconf` rows.
pub record Conf (Str : Type 0) : Type 0 where
  pub confname : Str
  pub confval : Str

module _ {Str : Type 0} (same : Str → Str → Bool) where
  -- The row of `findconf`; `none` is -1.
  unfoldable pub findconf : Str → List (Conf Str) → Option (Conf Str)
  findconf k [] = none
  findconf k (c ∷ cs) = let rest = findconf k cs in if same c.confname k then some c else rest

  -- `confval[i] = v` at the row of `findconf`.
  unfoldable pub set_confval : Str → Str → List (Conf Str) → List (Conf Str)
  set_confval k v [] = []
  set_confval k v (c ∷ cs) =
      let rest = set_confval k v cs in
      if same c.confname k then record c { confval = v } ∷ cs else c ∷ rest

  -- `addconf` by what `findconf` returned.
  unfoldable pub store_conf : Option (Conf Str) → Str → Str → List (Conf Str) → List (Conf Str)
  unfolding set_confval
  store_conf (some c) k v cs = set_confval k v cs
  store_conf none k v cs =
      if leb maxconf (length cs) then cs else cs ++ (record { confname = k; confval = v }) ∷ []

  unfoldable pub addconf : Str → Str → List (Conf Str) → List (Conf Str)
  unfolding findconf store_conf
  addconf k v cs = store_conf (findconf k cs) k v cs

  unfoldable pub value_of : Option (Conf Str) → Option Str
  value_of none = none
  value_of (some c) = some c.confval

  unfoldable pub getconf : Str → List (Conf Str) → Option Str
  unfolding findconf value_of
  getconf k cs = value_of (findconf k cs)
