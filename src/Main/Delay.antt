-- ===== src/Main/Delay.antt =====
-- main.c: `microdelay` and `delay`, on what the reads of the time counter return.
use front_mangopi_overlay.Base.{
  ◌>>=◌, ℕ, zero, suc, ◌+◌, ◌-◌, ◌*◌, ◌/◌, ◌^◌, ◌<◌, ◌≤◌, ◌≡◌, ltb, if◌then◌else◌, u64, List, [],
  ◌∷◌, ◌++◌, Option, none, some, ap, ltb→lt, arith, refl, Bool-cases, inl, inr,
}
use front_mangopi_overlay.Uart.{}

-- `while(rdtime() - t0 < n);`, with the read that ends it and the reads after it.
unfoldable pub wait_until : (t0 n : ℕ) → List ℕ → Option (ℕ × List ℕ)
wait_until t0 n [] = none
wait_until t0 n (t ∷ ts) =
    let rest = wait_until t0 n ts in if ltb (u64 (t + 2 ^ 64 - t0)) n then rest else some (t, ts)

-- `us` is not below 0.
unfoldable pub microdelay : (us : ℕ) → List ℕ → Option (ℕ × List ℕ)
unfolding wait_until
microdelay us [] = none
microdelay us (t0 ∷ ts) = wait_until t0 (us * (24000000 / 1000000)) ts

unfoldable pub delay : (ms : ℕ) → List ℕ → Option (List ℕ)
unfolding microdelay
delay zero ts = some ts
delay (suc ms) ts = microdelay 1000 ts >>= λ r. delay ms r.1

-- The ticks of the time counter since `t0`, across its wrap.
abbrev pub since : (t0 t : ℕ) → ℕ
since t0 t = u64 (t + 2 ^ 64 - t0)

abbrev pub AllEarly : (t0 n : ℕ) → List ℕ → Type 0
AllEarly t0 n [] = Unit {0}
AllEarly t0 n (t ∷ ts) = (since t0 t < n) × AllEarly t0 n ts

-- The reads that come before the first one that is `n` ticks or more after `t0`.
pub record Waited (t0 n : ℕ) (ts : List ℕ) (result : Option (ℕ × List ℕ)) : Type 0 where
  pub early : List ℕ
  pub last : ℕ
  pub rest : List ℕ
  pub split : ts ≡ early ++ last ∷ rest
  pub ran : result ≡ some (last, rest)
  pub enough : n ≤ since t0 last
  pub too_early : AllEarly t0 n early

wait_until-Waited :
    (t0 n : ℕ) (early : List ℕ) (t : ℕ) (rest : List ℕ)
    → n ≤ since t0 t
    → Waited t0 n (early ++ t ∷ rest) (wait_until t0 n (early ++ t ∷ rest))
unfolding wait_until
wait_until-Waited t0 n [] t rest h = record {
  early = [];
  last = t;
  rest = rest;
  split = refl;
  ran = ground arith;
  enough = h;
  too_early = tt;
}
wait_until-Waited t0 n (x ∷ xs) t rest h = elim (Bool-cases (ltb (since t0 x) n)) [
  | inl e ↦
      (let w = wait_until-Waited t0 n xs t rest h in
        record {
          early = x ∷ w.early;
          last = w.last;
          rest = w.rest;
          split = ap (λ l. x ∷ l) w.split;
          ran = rw e w.ran;
          enough = w.enough;
          too_early = (ltb→lt (since t0 x) n e, w.too_early);
        })
  | inr e ↦ record {
    early = [];
    last = x;
    rest = xs ++ t ∷ rest;
    split = refl;
    ran = rw e refl;
    enough = ground arith;
    too_early = tt;
  }
]

-- `microdelay` reads the time counter, and then again until it has read a value that is at least 24
-- ticks later for each microsecond asked for, also where the counter wraps around; it returns at
-- the first such value, if there is one.
pub microdelay-Waited :
    (us t0 : ℕ) (early : List ℕ) (t : ℕ) (rest : List ℕ)
    → us * 24 ≤ since t0 t
    → Waited t0 (us * 24) (early ++ t ∷ rest) (microdelay us (t0 ∷ early ++ t ∷ rest))
unfolding microdelay
microdelay-Waited us t0 early t rest h = wait_until-Waited t0 (us * 24) early t rest h
