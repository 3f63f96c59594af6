-- ===== src/Bootargs/Tests.antt =====
-- A small plan9.ini, with a `getfields` that splits a text at its line feeds.
use front_mangopi_overlay.Bootargs.{Conf, getconf}
use front_mangopi_overlay.Bootargs.Init.{
  Buffer, bootargslen, strip_byte, strip, string_at, split_line, first_byte, line_setting,
  add_setting, add_lines, bootargsinit, setconfenv,
}
use front_mangopi_overlay.Bootargs.Strip.{clean}
use front_mangopi_overlay.Bootargs.Text.{
  line_says, last_setting, file_setting, getconf-bootargsinit,
}
use front_mangopi_overlay.Bootargs.Env.{same_bytes, same_bytes-IsSame, env, setconfenv-getconf}
use front_mangopi_overlay.Base.{
  ◌++◌, zero, suc, ◌-◌, none, if◌then◌else◌, get_or, get_elem?, refl, false, ℕ, ◌≤◌, ◌≡◌, ◌==◌,
  some, List, [], ◌∷◌, length, arith,
}

-- The lines of a text.
lines : List ℕ → List ℕ → List (List ℕ)
lines [] line = line ∷ []
lines (b ∷ bs) line = if b == 10 then line ∷ lines bs [] else lines bs (line ++ b ∷ [])

first_lines : ℕ → List (List ℕ) → List (List ℕ)
first_lines zero ls = []
first_lines (suc n) [] = []
first_lines (suc n) (l ∷ ls) = l ∷ first_lines n ls

length-first_lines : (n : ℕ) (ls : List (List ℕ)) → length (first_lines n ls) ≤ n
unfolding first_lines
length-first_lines zero ls = omega arith
length-first_lines (suc n) [] = omega arith
length-first_lines (suc n) (l ∷ ls) = omega (arith, length-first_lines n ls)

few_lines : List ℕ → List (List ℕ)
few_lines s = first_lines 64 (lines s [])

length-few_lines : (s : List ℕ) → length (few_lines s) ≤ 64
unfolding few_lines
length-few_lines s = length-first_lines 64 (lines s [])

-- `a=1`, `#a=2`, `*b=3` with a carriage return and `a=\t4`.
abbrev plan9_ini : Buffer
plan9_ini a =
    get_or
      (97 ∷ 61 ∷ 49 ∷ 10 ∷ 35 ∷ 97 ∷ 61 ∷ 50 ∷ 10 ∷ 42 ∷ 98 ∷ 61 ∷ 51 ∷ 13 ∷ 10 ∷ 97 ∷ 61 ∷ 9 ∷ 52
        ∷ [])
      a 0

getconf-bootargsinit_example :
    getconf same_bytes (97 ∷ []) (bootargsinit same_bytes few_lines plan9_ini)
    ≡ file_setting same_bytes few_lines (string_at (bootargslen - 1) plan9_ini 0) (97 ∷ [])
getconf-bootargsinit_example =
    getconf-bootargsinit same_bytes few_lines plan9_ini (97 ∷ []) same_bytes-IsSame length-few_lines

last_value :
    file_setting same_bytes few_lines (string_at 100 plan9_ini 0) (97 ∷ []) ≡ some (32 ∷ 52 ∷ [])
unfolding file_setting last_setting line_says string_at first_byte clean same_bytes few_lines lines
    first_lines
last_value = refl

abbrev star_row : Conf (List ℕ)
star_row = record { confname = 42 ∷ 98 ∷ []; confval = 51 ∷ [] }

second_row : get_elem? (bootargsinit same_bytes few_lines plan9_ini) 1 ≡ some star_row
unfolding bootargsinit bootargslen strip strip_byte string_at add_lines add_setting line_setting
    split_line first_byte same_bytes few_lines lines first_lines
second_row = refl

setconfenv-getconf_example :
    (env (setconfenv (λ _. false) (bootargsinit same_bytes few_lines plan9_ini)) 1 star_row.confname
      ≡ getconf same_bytes star_row.confname (bootargsinit same_bytes few_lines plan9_ini))
    × (env
          (setconfenv (λ _. false) (bootargsinit same_bytes few_lines plan9_ini))
          0
          star_row.confname
        ≡ none)
unfolding first_byte
setconfenv-getconf_example =
    setconfenv-getconf same_bytes few_lines plan9_ini 1 star_row (λ _. false) same_bytes-IsSame
      (λ k. refl) second_row
