-- ===== src/Bootargs/Init.antt =====
-- bootargs.c: `bootargsinit` reads plan9.ini from the buffer where the boot loader put it. An address is
-- an offset in the buffer and a string is its bytes up to the 0. `getfields` of the C library and
-- `cistrcmp` are parameters; `getfields` takes the text and returns its lines.
use mathlib.Core.Option
use front_mangopi_overlay.Bootargs.{Conf, addconf}
use front_mangopi_overlay.Base.{
  ℕ, zero, suc, ◌+◌, ◌==◌, leb, ◌||◌, if◌then◌else◌, Bool, Option, none, some, List, [], ◌∷◌, ◌++◌,
  ◌-◌, update,
}

-- The bytes of the buffer.
abbrev pub Buffer : Type 0
Buffer = ℕ → ℕ

unfoldable pub bootargslen : ℕ
bootargslen = 8192

-- One round of the loop that cleans the text: what is left in the buffer and where `p` is.
unfoldable pub strip_byte : Buffer → ℕ → ℕ → Buffer × ℕ
strip_byte m p q =
    let tab = if m q == 9 then update m q 32 else m in
    if m q == 13 then (m, p) else (update tab p (tab q), p + 1)

-- The loop, which writes at `p` and reads at `q` in the same buffer.
unfoldable pub strip : ℕ → Buffer → ℕ → ℕ → Buffer
unfolding strip_byte
strip zero m p q = m
strip (suc n) m p q =
    let rest = strip n (strip_byte m p q).0 (strip_byte m p q).1 (q + 1) in
    if m q == 0 then update m p 0 else rest

-- The string at an address, at most so many bytes of it.
unfoldable pub string_at : ℕ → Buffer → ℕ → List ℕ
string_at zero m a = []
string_at (suc n) m a = let rest = string_at n m (a + 1) in if m a == 0 then [] else m a ∷ rest

-- The name and the value of a line that is cut at its first `=`: `strchr` and the 0 put in its place.
unfoldable pub split_line : List ℕ → Option (List ℕ × List ℕ)
split_line [] = none
split_line (b ∷ bs) =
    let rest = Option.map (λ (kv : List ℕ × List ℕ). (b ∷ kv.0, kv.1)) (split_line bs) in
    if b == b'=' then some ([], bs) else rest

-- `*s`.
unfoldable pub first_byte : List ℕ → ℕ
first_byte [] = 0
first_byte (b ∷ bs) = b

-- The value a line has for its name; `none` for a comment and for a line with no `=`.
unfoldable pub line_setting : List ℕ → Option (List ℕ × List ℕ)
unfolding split_line first_byte
line_setting l = if first_byte l == b'#' then none else split_line l

-- One call of `ksetenv`: the name, the value and `conf`, which is 1 for the kernel's configuration.
pub record Ksetenv : Type 0 where
  pub name : List ℕ
  pub value : List ℕ
  pub conf : ℕ

module _ (same : List ℕ → List ℕ → Bool) where
  unfoldable pub add_setting :
      Option (List ℕ × List ℕ) → List (Conf (List ℕ)) → List (Conf (List ℕ))
  unfolding addconf
  add_setting none cs = cs
  add_setting (some kv) cs = addconf same kv.0 kv.1 cs

  -- The loop over the lines.
  unfoldable pub add_lines : List (List ℕ) → List (Conf (List ℕ)) → List (Conf (List ℕ))
  unfolding add_setting line_setting
  add_lines [] cs = cs
  add_lines (l ∷ ls) cs = add_lines ls (add_setting (line_setting l) cs)

  -- The table that `bootargsinit` leaves.
  unfoldable pub bootargsinit : (List ℕ → List (List ℕ)) → Buffer → List (Conf (List ℕ))
  unfolding add_lines strip string_at
  bootargsinit getfields m =
      let cp = update m (bootargslen - 1) 0 in
      let lines = getfields (string_at bootargslen (strip bootargslen cp 0 0) 0) in
      if (cp 0 == 0) || leb 128 (cp 0) then [] else add_lines lines []

-- The calls for one row and for the table.
unfoldable pub set_row : Conf (List ℕ) → List Ksetenv
unfolding first_byte
set_row c =
    let conf = record { name = c.confname; value = c.confval; conf = 1 } ∷ [] in
    if first_byte c.confname == b'*'
    then conf
    else record { name = c.confname; value = c.confval; conf = 0 } ∷ conf

unfoldable pub set_rows : List (Conf (List ℕ)) → List Ksetenv
unfolding set_row
set_rows [] = []
set_rows (c ∷ cs) = set_row c ++ set_rows cs

-- The calls up to the first that raises an error, that one included.
unfoldable pub until_error : (raises : Ksetenv → Bool) → List Ksetenv → List Ksetenv
until_error raises [] = []
until_error raises (k ∷ ks) =
    let rest = until_error raises ks in k ∷ (if raises k then [] else rest)

-- `raises` says for which calls `ksetenv` of the portable kernel raises an error. That leaves the
-- loop for the `waserror` of `init0`.
unfoldable pub setconfenv : (raises : Ksetenv → Bool) → List (Conf (List ℕ)) → List Ksetenv
unfolding set_rows until_error
setconfenv raises cs = until_error raises (set_rows cs)
