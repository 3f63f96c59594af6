-- ===== src/Bootargs/Text.antt =====
-- bootargs.c: what `bootargsinit` reads from plan9.ini, by the lines of the file.
use mathlib.Core.Option
use front_mangopi_overlay.Bootargs.{maxconf, Conf, getconf, findconf, value_of}
use front_mangopi_overlay.Bootargs.Table.{IsSame, getconf-addconf, length-addconf}
use front_mangopi_overlay.Bootargs.Init.{
  split_line, Buffer, bootargslen, string_at, first_byte, line_setting, add_setting, add_lines,
  bootargsinit,
}
use front_mangopi_overlay.Bootargs.Strip.{clean, string_at-strip}
use front_mangopi_overlay.Base.{
  Bool-cases, inl, inr, ℕ, suc, ◌+◌, ◌-◌, ◌≤◌, ◌<◌, ◌≡◌, ◌==◌, leb, ◌||◌, if◌then◌else◌, Bool, true,
  false, Option, none, some, List, [], ◌∷◌, length, arith, refl, or_else, or_else_assoc,
  or_else-none, ap, ◌∙◌,
}

-- The part of a line before its first `=`, which is byte 61, and what comes after that.
abbrev pub before_equals : List ℕ → List ℕ
before_equals [] = []
before_equals (b ∷ bs) = if b == 61 then [] else b ∷ before_equals bs

abbrev pub after_equals : List ℕ → List ℕ
after_equals [] = []
after_equals (b ∷ bs) = if b == 61 then bs else after_equals bs

abbrev pub has_equals : List ℕ → Bool
has_equals [] = false
has_equals (b ∷ bs) = (b == 61) || has_equals bs

-- A comment starts with `#`, which is byte 35.
abbrev pub is_comment : List ℕ → Bool
is_comment [] = false
is_comment (b ∷ bs) = b == 35

split_line_parts :
    (l : List ℕ)
    → split_line l ≡ (if has_equals l then some (before_equals l, after_equals l) else none)
unfolding split_line
split_line_parts [] = refl
split_line_parts (b ∷ bs) = elim (Bool-cases (b == 61)) [
  | inl e ↦ rw e refl
  | inr e ↦ rw (e, split_line_parts bs) (mapped (has_equals bs))
]
  where
    mapped :
        (found : Bool)
        → Option.map {B = List ℕ × List ℕ}
            (λ (kv : List ℕ × List ℕ). (b ∷ kv.0, kv.1))
            (if found then some (before_equals bs, after_equals bs) else none)
          ≡ (if found then some (b ∷ before_equals bs, after_equals bs) else none)
    mapped true = refl
    mapped false = refl

first_byte-is_comment : (l : List ℕ) → (first_byte l == 35) ≡ is_comment l
unfolding first_byte
first_byte-is_comment [] = refl
first_byte-is_comment (b ∷ bs) = refl

module _ (same : List ℕ → List ℕ → Bool) where
  -- What one line says of a name: nothing if it is a comment, has no `=`, or is about another name.
  unfoldable pub line_says : List ℕ → List ℕ → Option (List ℕ)
  line_says l j =
      if is_comment l
      then none
      else if has_equals l
      then (if same (before_equals l) j then some (after_equals l) else none)
      else none

  -- The last line that gives a name a value.
  unfoldable pub last_setting : List (List ℕ) → List ℕ → Option (List ℕ)
  unfolding line_says
  last_setting [] j = none
  last_setting (l ∷ ls) j = or_else (last_setting ls j) (line_says l j)

  -- What a file says of a name. A buffer that starts with a byte over 127 holds no text.
  unfoldable pub file_setting : (List ℕ → List (List ℕ)) → List ℕ → List ℕ → Option (List ℕ)
  unfolding last_setting clean first_byte
  file_setting getfields text j =
      let lines = getfields (clean text) in
      if (first_byte text == 0) || leb 128 (first_byte text) then none else last_setting lines j

  -- What the split of a line gives a name.
  abbrev line_value : Option (List ℕ × List ℕ) → List ℕ → Option (List ℕ)
  line_value none j = none
  line_value (some kv) j = if same kv.0 j then some kv.1 else none

  line_setting-line_says : (l j : List ℕ) → line_value (line_setting l) j ≡ line_says l j
  unfolding line_setting line_says
  line_setting-line_says l j = rw (first_byte-is_comment l, split_line_parts l) (ground arith)

  getconf-add_setting :
      (o : Option (List ℕ × List ℕ)) (j : List ℕ) (cs : List (Conf (List ℕ)))
      → IsSame same
      → length cs < maxconf
      → getconf same j (add_setting same o cs) ≡ or_else (line_value o j) (getconf same j cs)
  unfolding add_setting
  getconf-add_setting none j cs is h = refl
  getconf-add_setting (some kv) j cs is h = ground (arith, getconf-addconf same kv.0 kv.1 j cs is h)

  length-add_setting :
      (o : Option (List ℕ × List ℕ)) (cs : List (Conf (List ℕ)))
      → length (add_setting same o cs) ≤ suc (length cs)
  unfolding add_setting
  length-add_setting none cs = omega arith
  length-add_setting (some kv) cs = length-addconf same kv.0 kv.1 cs

  getconf-add_lines :
      (ls : List (List ℕ)) (j : List ℕ) (cs : List (Conf (List ℕ)))
      → IsSame same
      → length cs + length ls ≤ maxconf
      → getconf same j (add_lines same ls cs) ≡ or_else (last_setting ls j) (getconf same j cs)
  unfolding add_lines last_setting
  getconf-add_lines [] j cs is h = refl
  getconf-add_lines (l ∷ ls) j cs is h =
      getconf-add_lines ls j (add_setting same (line_setting l) cs) is
        (omega (arith, length-add_setting (line_setting l) cs))
      ∙ ap (λ o. or_else (last_setting ls j) o)
          (getconf-add_setting (line_setting l) j cs is (omega arith)
            ∙ ap (λ v. or_else v (getconf same j cs)) (line_setting-line_says l j))
      ∙ or_else_assoc (last_setting ls j) (line_says l j) (getconf same j cs)

  getconf-empty : (j : List ℕ) → getconf same j [] ≡ none
  unfolding getconf findconf value_of
  getconf-empty j = refl

  first_byte-string_at : (n : ℕ) (m : Buffer) (a : ℕ) → first_byte (string_at (suc n) m a) ≡ m a
  unfolding first_byte string_at
  first_byte-string_at n m a = ground arith

  bootargslen-two : bootargslen ≡ suc (suc (bootargslen - 2))
  unfolding bootargslen
  bootargslen-two = refl

  zero-suc : (n : ℕ) → 0 == suc n ≡ false
  zero-suc n = ground arith

  getconf-lines :
      (empty : Bool) (ls : List (List ℕ)) (j : List ℕ)
      → IsSame same
      → length ls ≤ maxconf
      → getconf same j (if empty then [] else add_lines same ls [])
        ≡ (if empty then none else last_setting ls j)
  getconf-lines true ls j is few = getconf-empty j
  getconf-lines false ls j is few =
      getconf-add_lines ls j [] is (omega (arith, few))
      ∙ ap (λ o. or_else (last_setting ls j) o) (getconf-empty j)
      ∙ or_else-none (last_setting ls j)

  suc-sub : (n : ℕ) → suc (suc n) - 1 ≡ suc n
  suc-sub n = omega arith

  getconf-bootargsinit_len :
      (getfields : List ℕ → List (List ℕ)) (n : ℕ) (m : Buffer) (j : List ℕ)
      → bootargslen ≡ suc (suc n)
      → IsSame same
      → ((s : List ℕ) → length (getfields s) ≤ maxconf)
      → getconf same j (bootargsinit same getfields m)
        ≡ file_setting getfields (string_at (suc n) m 0) j
  unfolding bootargsinit file_setting
  getconf-bootargsinit_len getfields n m j len is few =
      rw (len, suc-sub n, string_at-strip (suc n) m, first_byte-string_at n m 0, zero-suc n)
        (getconf-lines ((m 0 == 0) || leb 128 (m 0)) (getfields (clean (string_at (suc n) m 0))) j
          is (few (clean (string_at (suc n) m 0))))

  -- After `bootargsinit`, whatever the buffer holds, `getconf` finds for a name what the text of
  -- plan9.ini says of it: what is after the first `=` on the last line that gives the name a value, where the
  -- name is what is before that `=`, the text ends at the first 0 or before the last byte of the buffer,
  -- carriage returns are left out, a tab is a space, a line that starts with `#` or has no `=` gives
  -- nothing, and a buffer that starts with a byte over 127 has no text. `getfields` returns at most the
  -- 64 lines that it is asked for.
  pub getconf-bootargsinit :
      (getfields : List ℕ → List (List ℕ)) (m : Buffer) (j : List ℕ)
      → IsSame same
      → ((s : List ℕ) → length (getfields s) ≤ maxconf)
      → getconf same j (bootargsinit same getfields m)
        ≡ file_setting getfields (string_at (bootargslen - 1) m 0) j
  unfolding bootargslen
  getconf-bootargsinit getfields m j is few =
      getconf-bootargsinit_len getfields (bootargslen - 2) m j bootargslen-two is few
