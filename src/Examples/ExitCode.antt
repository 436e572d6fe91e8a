-- ===== src/Examples/ExitCode.antt =====
-- examples/three-peps/demo.py: what the exit code of `main` says.
use apparitor.Prelude.{
  ℕ, suc, ◌+◌, ◌≤◌, String, ◌≡◌, ◌≢◌, refl, ◌↔◌, arith, Bool, true, Option, none, some, List, [],
  ◌∷◌, ap, sym, ◌∙◌, length, eq_iff, subst,
}
use apparitor.Dict.{lookup}
use apparitor.Examples.Lanes.{
  Case, Results, Tally, compare, count_mismatches, count_lane, exit_code, run_lanes, main,
}
use apparitor.Exec.{Exec, after-ok}
use apparitor.Result
use apparitor.Result.{Result, ok, raise, cancelled, >>=-ok}

abbrev pub Lanes : Type 0 → Type 0
Lanes S = List (Exec S (Option Results))

-- The lanes end, one behind the other, with these results; `none` is a lane that was skipped.
abbrev pub EndWith : {S : Type 0} → Lanes S → S → List (Option Results) → Type 0
EndWith [] s [] = Unit
EndWith [] s (o ∷ outs) = ⊥
EndWith (lane ∷ lanes) s [] = ⊥
EndWith (lane ∷ lanes) s (o ∷ outs) = ((lane s).0 ≡ ok o) × EndWith lanes (lane s).1 outs

-- Each case has the verdict that is wanted.
abbrev pub Match : List Case → Results → Type 0
Match [] results = Unit
Match (c ∷ cases) results = (lookup c.name results ≡ some c.want) × Match cases results

-- So has each lane that ran.
abbrev pub AllMatch : List Case → List (Option Results) → Type 0
AllMatch cases [] = Unit
AllMatch cases (none ∷ outs) = AllMatch cases outs
AllMatch cases (some results ∷ outs) = Match cases results × AllMatch cases outs

unfoldable pub ran_of : List (Option Results) → ℕ
ran_of [] = 0
ran_of (none ∷ outs) = ran_of outs
ran_of (some results ∷ outs) = suc (ran_of outs)

compare-zero :
    (want : String) (o : Option String) (n k : ℕ)
    → compare want o n ≡ ok k
    → k ≡ 0
    → (n ≡ 0) × (o ≡ some want)
compare-zero want none n k h z = absurd (ground (arith, h))
compare-zero want (some got) n k h z = ground (arith, h, eq_iff got want)

compare-some : (want : String) (n : ℕ) → compare want (some want) n ≡ ok n
compare-some want n = ground (arith, eq_iff want want)

count_mismatches-zero :
    (cases : List Case) (results : Results) (n k : ℕ)
    → count_mismatches cases results n ≡ ok k
    → k ≡ 0
    → (n ≡ 0) × Match cases results
unfolding count_mismatches
count_mismatches-zero [] results n k h z = (ground (arith, h), tt)
count_mismatches-zero (c ∷ cases) results n k h z =
    let (m, first, rest) = >>=-ok (compare c.want (lookup c.name results) n) _ h in
    let (zero_m, matches) = count_mismatches-zero cases results m k rest z in
    let (zero_n, found) = compare-zero c.want (lookup c.name results) n m first zero_m in
    (zero_n, (found, matches))

bind-ok :
    {A B : Type 0} {r : Result A} (f : A → Result B) {a : A} {b : B}
    → r ≡ ok a
    → f a ≡ ok b
    → Result.◌>>=◌ r f ≡ ok b
bind-ok f first rest = rw first rest

count_mismatches-Match :
    (cases : List Case) (results : Results) (n : ℕ)
    → Match cases results
    → count_mismatches cases results n ≡ ok n
unfolding count_mismatches
count_mismatches-Match [] results n m = refl
count_mismatches-Match (c ∷ cases) results n (found, m) =
    let step : compare c.want (lookup c.name results) n ≡ ok n =
      subst (λ o. compare c.want o n ≡ ok n) (sym found) (compare-some c.want n) in
    bind-ok (count_mismatches cases results) step (count_mismatches-Match cases results n m)

module _ (cases : List Case) where
  count_lane-zero :
      (o : Option Results) (t t' : Tally) (outs : List (Option Results))
      → count_lane cases o t ≡ ok t'
      → t'.mismatches ≡ 0
      → AllMatch cases outs
      → (t.mismatches ≡ 0)
        × AllMatch cases (o ∷ outs)
        × (t'.ran + ran_of outs ≡ t.ran + ran_of (o ∷ outs))
  unfolding ran_of
  count_lane-zero none t t' outs h z m = (ground (arith, h), m, ground (arith, h))
  count_lane-zero (some results) t t' outs h z m =
      let (n, counted, made) = >>=-ok (count_mismatches cases results t.mismatches) _ h in
      let (zero_t, matches) =
        count_mismatches-zero cases results t.mismatches n counted (ground (arith, made)) in
      (zero_t, (matches, m), ground (arith, made))

  count_lane-AllMatch :
      (o : Option Results) (outs : List (Option Results)) (t : Tally)
      → AllMatch cases (o ∷ outs)
      → (t' : Tally) × (count_lane cases o t ≡ ok t')
        × (t'.mismatches ≡ t.mismatches)
        × (t'.ran + ran_of outs ≡ t.ran + ran_of (o ∷ outs))
        × AllMatch cases outs
  unfolding ran_of
  count_lane-AllMatch none outs t m = (t, refl, refl, refl, m)
  count_lane-AllMatch (some results) outs t (matches, m) = (
    record { ran = suc t.ran; mismatches = t.mismatches },
    rw (count_mismatches-Match cases results t.mismatches matches) refl,
    refl,
    omega arith,
    m,
  )

exit_code-zero :
    (require_all : Bool) (n : ℕ) (t : Tally)
    → (exit_code require_all n t ≡ 0)
      ↔ ((t.mismatches ≡ 0) × (t.ran ≢ 0) × (require_all ≡ true → n ≤ t.ran))
unfolding exit_code
exit_code-zero require_all n t = (λ h. ground arith, λ h. ground arith)

module _ {S : Type 0} (cases : List Case) where
  run_lanes-zero :
      (lanes : Lanes S) (t u : Tally) (s : S)
      → (run_lanes cases lanes t s).0 ≡ ok u
      → u.mismatches ≡ 0
      → (t.mismatches ≡ 0)
        × (outs : List (Option Results)) × EndWith lanes s outs
        × AllMatch cases outs
        × (u.ran ≡ t.ran + ran_of outs)
  unfolding run_lanes ran_of
  run_lanes-zero [] t u s h z = (ground (arith, h), [], tt, tt, ground (arith, h))
  run_lanes-zero (lane ∷ lanes) t u s h z =
      let (o, ended, rest) = after-ok (lane s).0 _ (lane s).1 h in
      let (t', counted, more) = after-ok (count_lane cases o t) _ (lane s).1 rest in
      let (zero_t', outs, ends, matches, total) = run_lanes-zero lanes t' u (lane s).1 more z in
      let (zero_t, matching, sum) = count_lane-zero cases o t t' outs counted zero_t' matches in
      (zero_t, o ∷ outs, (ended, ends), matching, omega (arith, total, sum))

  run_lanes-EndWith :
      (lanes : Lanes S) (outs : List (Option Results)) (t : Tally) (s : S)
      → EndWith lanes s outs
      → AllMatch cases outs
      → (u : Tally) × ((run_lanes cases lanes t s).0 ≡ ok u)
        × (u.mismatches ≡ t.mismatches)
        × (u.ran ≡ t.ran + ran_of outs)
  unfolding run_lanes ran_of
  run_lanes-EndWith [] [] t s h m = (t, refl, refl, omega arith)
  run_lanes-EndWith [] (o ∷ outs) t s h m = absurd h
  run_lanes-EndWith (lane ∷ lanes) [] t s h m = absurd h
  run_lanes-EndWith (lane ∷ lanes) (o ∷ outs) t s (ended, ends) m =
      let (t', counted, kept, sum, rest) = count_lane-AllMatch cases o outs t m in
      let (u, ran, same, total) = run_lanes-EndWith lanes outs t' (lane s).1 ends rest in
      (u, rw (ended, counted) ran, same ∙ kept, total ∙ sum)

  -- With cedarpy there, the demo ends with the exit code 0 exactly if each lane ends with results or
  -- is skipped, each that is not skipped has the wanted verdict for each case, one lane is not
  -- skipped, and none is where all are required.
  pub main-zero :
      (require_all : Bool) (lanes : Lanes S) (s : S)
      → ((main cases true require_all lanes s).0 ≡ ok 0) ↔ (
          (outs : List (Option Results)) × EndWith lanes s outs
          × AllMatch cases outs
          × (ran_of outs ≢ 0)
          × (require_all ≡ true → length lanes ≤ ran_of outs))
  unfolding main
  main-zero require_all lanes s = (
    λ h.
        let start : Tally = record { ran = 0; mismatches = 0 } in
        let (u, ran, code) = after-ok (run_lanes cases lanes start s).0 _ _ h in
        let (none_wrong, some_ran, all) =
          (exit_code-zero require_all (length lanes) u).0 (ground (arith, code)) in
        let (z, outs, ends, matches, total) = run_lanes-zero lanes start u s ran none_wrong in
        let sum : u.ran ≡ ran_of outs = omega (arith, total) in
        (outs, ends, matches, rw sum at some_ran, rw sum at all),
    λ (outs, ends, matches, some_ran, all).
        let start : Tally = record { ran = 0; mismatches = 0 } in
        let (u, ran, none_wrong, total) = run_lanes-EndWith lanes outs start s ends matches in
        let sum : u.ran ≡ ran_of outs = omega (arith, total) in
        rw ran (
          ap ok (
            (exit_code-zero require_all (length lanes) u).1
              (none_wrong, rw sum some_ran, rw sum all))),
  )
