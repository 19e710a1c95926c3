-- ===== src/Scheduling/Pct/Draws.antt =====
-- The draws of `Init` and `NextIteration`: distinct and in range, and when they end.
use dstest.Prelude.{
  ℕ, zero, suc, ◌+◌, ◌*◌, ◌==◌, ◌≡◌, ◌≢◌, ◌<◌, ◌≤◌, refl, Bool, true, false, ◌||◌, List, [], ◌∷◌,
  ◌++◌, ok, >>=-eq-ok, length, length-append, All-append, arith, Bool-cases, inl, inr, Returns,
  ==_iff,
}
use dstest.Prelude.Machine.{Floats, Generator, intn}
use dstest.Scheduling.Pct.Limits.{AreDrawn, IsDistinct-snoc, length-le_bound, missing}
use dstest.Scheduling.Pct.{contains, distinct_random_integer, draw_all}

module _ (fl : Floats) (g : Generator fl.F) where
  -- A draw that ends gives a number below the bound that was not there.
  draw_new :
      (fuel max : ℕ) (arr : List ℕ) (rand : g.State) (i : ℕ) (rand' : g.State)
      → distinct_random_integer fl g fuel max arr rand ≡ ok (i, rand')
      → (i < max) × (contains i arr ≡ false)
  unfolding distinct_random_integer intn
  draw_new zero max arr rand i rand' e = cc
  draw_new (suc fuel) zero arr rand i rand' e = cc
  draw_new (suc fuel) (suc max) arr rand i rand' e =
      elim (Bool-cases (contains (g.draw (suc max) rand).0 arr)) [
        | inl old ↦ draw_new fuel (suc max) arr (g.draw (suc max) rand).1 i rand' (ground arith)
        | inr new ↦ ground (arith, g.draw_lt (suc max) rand, new)
      ]

  -- Draws that end add as many distinct numbers below the bound as there are rounds.
  pub draw_all-AreDrawn :
      (fuel max rounds : ℕ) (arr : List ℕ) (rand : g.State) (arr' : List ℕ) (rand' : g.State)
      → AreDrawn max arr
      → draw_all fl g fuel max rounds arr rand ≡ ok (arr', rand')
      → AreDrawn max arr' × (length arr' ≡ length arr + rounds)
  unfolding draw_all
  draw_all-AreDrawn fuel max zero arr rand arr' rand' drawn e = ground arith
  draw_all-AreDrawn fuel max (suc rounds) arr rand arr' rand' drawn e =
      let ((i, next), first, rest) =
        >>=-eq-ok (distinct_random_integer fl g fuel max arr rand) _ e in
      let (low, new) = draw_new fuel max arr rand i next first in
      let (drawn', count) =
        draw_all-AreDrawn fuel max rounds (arr ++ i ∷ []) next arr' rand'
          (record {
            distinct = IsDistinct-snoc arr i drawn.distinct new;
            bounded = All-append (λ x. x < max) arr (i ∷ []) drawn.bounded (low, tt);
          })
          rest in
      (drawn', omega (arith, count, length-append {0} arr (i ∷ [])))

  -- The number comes among the next draws.
  abbrev pub shows : ℕ → ℕ → ℕ → g.State → Bool
  shows zero max i rand = false
  shows (suc fuel) max i rand = (g.draw max rand).0 == i || shows fuel max i (g.draw max rand).1

  -- The state after `k` draws below `max`.
  abbrev pub after : ℕ → ℕ → g.State → g.State
  after zero max rand = rand
  after (suc k) max rand = after k max (g.draw max rand).1

  after-after :
      (j k max : ℕ) (rand : g.State) → after j max (after k max rand) ≡ after (k + j) max rand
  after-after j zero max rand = let e : 0 + j ≡ j = omega arith in rw e refl
  after-after j (suc k) max rand =
      let e : suc k + j ≡ suc (k + j) = omega arith in
      rw e (after-after j k max (g.draw max rand).1)

  -- From this state on, where at most `rounds * fuel` numbers below `max` have been drawn, the next `fuel` ones
  -- have every number among them.
  abbrev pub ShowsAll : ℕ → ℕ → ℕ → g.State → Type 0
  ShowsAll fuel max rounds rand =
      (k i : ℕ) → k ≤ rounds * fuel → i < max → shows fuel max i (after k max rand) ≡ true

  -- It ends with one of at most `fuel` draws.
  draw_shown :
      (fuel max : ℕ) (arr : List ℕ) (rand : g.State) (i : ℕ)
      → 0 < max
      → contains i arr ≡ false
      → shows fuel max i rand ≡ true
      → (x : ℕ) × (k : ℕ) × (k ≤ fuel)
        × (distinct_random_integer fl g fuel max arr rand ≡ ok (x, after k max rand))
  unfolding distinct_random_integer intn
  draw_shown zero max arr rand i h new s = cc
  draw_shown (suc fuel) zero arr rand i h new s = absurd (omega arith)
  draw_shown (suc fuel) (suc max) arr rand i h new s =
      elim (Bool-cases (contains (g.draw (suc max) rand).0 arr)) [
        | inr fresh ↦ rw fresh ((g.draw (suc max) rand).0, 1, omega arith, refl)
        | inl old ↦
            let (x, k, few, e) =
              draw_shown fuel (suc max) arr (g.draw (suc max) rand).1 i h new
                (ground (arith, ==_iff (g.draw (suc max) rand).0 i)) in
            rw old (x, suc k, omega arith, e)
      ]

  draw_all_ends :
      (fuel max rounds : ℕ) (arr : List ℕ) (rand : g.State)
      → ShowsAll fuel max rounds rand
      → length arr + rounds ≤ max
      → (arr' : List ℕ) × (k : ℕ) × (k ≤ rounds * fuel)
        × (draw_all fl g fuel max rounds arr rand ≡ ok (arr', after k max rand))
  unfolding draw_all
  draw_all_ends fuel max zero arr rand shown room = (arr, 0, omega arith, refl)
  draw_all_ends fuel max (suc rounds) arr rand shown room =
      let (i, low, new) = missing max arr (omega arith) in
      let (x, k, few, e) =
        draw_shown fuel max arr rand i (omega arith) new (shown 0 i (omega arith) low) in
      let later : ShowsAll fuel max rounds (after k max rand) =
        λ j i' lj li. rw (after-after j k max rand) (shown (k + j) i' (omega arith) li) in
      let (arr', m, more, e') =
        draw_all_ends fuel max rounds (arr ++ x ∷ []) (after k max rand) later
          (omega (arith, length-append {0} arr (x ∷ []))) in
      rw e (arr', k + m, omega arith, rw (← after-after m k max rand) e')

  -- Where the generator shows every number in time, the draws end if no more are asked for than
  -- there are numbers, and give that many distinct numbers below the bound.
  pub draw_all-Returns :
      (fuel max rounds : ℕ) (rand : g.State)
      → ShowsAll fuel max rounds rand
      → rounds ≤ max
      → Returns (draw_all fl g fuel max rounds [] rand) λ result.
        AreDrawn max result.0
        × (length result.0 ≡ rounds)
        × ((k : ℕ) × (k ≤ rounds * fuel) × (result.1 ≡ after k max rand))
  draw_all-Returns fuel max rounds rand shown room =
      let (arr, k, few, e) = draw_all_ends fuel max rounds [] rand shown (omega arith) in
      let (drawn, count) =
        draw_all-AreDrawn fuel max rounds [] rand arr (after k max rand)
          (record { distinct = tt; bounded = tt }) e in
      rw e (drawn, omega (arith, count), (k, few, refl))

  -- Asked for more numbers than there are below the bound, the draws never return, whatever the
  -- generator shows: no fuel is enough.
  pub draw_all_never :
      (fuel max rounds : ℕ) (rand : g.State) (arr : List ℕ) (rand' : g.State)
      → max < rounds
      → draw_all fl g fuel max rounds [] rand ≢ ok (arr, rand')
  draw_all_never fuel max rounds rand arr rand' many e =
      let (drawn, count) =
        draw_all-AreDrawn fuel max rounds [] rand arr rand' (record { distinct = tt; bounded = tt })
          e in
      omega (arith, count, length-le_bound max arr drawn.distinct drawn.bounded)
