-- ===== src/Engine/Unfinished.antt =====
-- cmd/dstest/engine/TestEngine.go: the whole of `Run` with the strategy "ql".
use dstest.Prelude.{
  ℕ, zero, suc, ◌+◌, ◌≡◌, ◌≢◌, ◌<◌, ◌∙◌, refl, List, Option, none, some, Outcome, ok, >>=-eq-ok,
  for_range, arith, Option-cases, inl, inr,
}
use dstest.Prelude.Text.{Text}
use dstest.Prelude.Machine.{Floats, Generator}
use dstest.Config.{Config}
use dstest.Network.Translator.{Frame}
use dstest.Scheduling.Decision.{SchedulerType}
use dstest.Scheduling.Strategy
use dstest.Scheduling.Strategy.{Outside, Scheduler}
use dstest.Scheduling.Strategy.Kinds.{kind}
use dstest.Engine.{TestEngine}
use dstest.Engine.Runs.{
  Inputs, Iterating, Running, run_iteration, unless_failed, run_iterations, run_experiment, run,
}
use dstest.Engine.Learning.{IsInitError, run_iteration_ql}

module _ (fl : Floats) (g : Generator fl.F) (out : Outside fl g) (frames : List ℕ → List Frame)
    (decimal : ℕ → Text) where
  init-kind :
      (t : SchedulerType) (config : Config fl.F) (before : Option (Scheduler fl g))
      (s : Scheduler fl g)
      → Strategy.init fl g out t config before ≡ ok s
      → kind fl g s ≡ t
  unfolding Strategy.init
  init-kind SchedulerType.random config before s e = ground arith
  init-kind SchedulerType.ql config before s e = ground arith
  init-kind SchedulerType.pct config before s e = ground arith
  init-kind SchedulerType.replay config before s e = ground arith

  IsInitError-some : (error : Option Text) → IsInitError error → error ≢ none
  IsInitError-some none failed fine = failed
  IsInitError-some (some e) failed fine = cc

  unless_failed_skips :
      (body : ℕ → Iterating fl g → Outcome (Iterating fl g)) (j : ℕ) (it it' : Iterating fl g)
      → it.error ≢ none
      → unless_failed fl g out frames decimal body j it ≡ ok it'
      → it' ≡ it
  unfolding unless_failed
  unless_failed_skips body j it it' failed e = elim (Option-cases it.error) [
    | inl fine ↦ absurd (failed fine)
    | inr (error, is_error) ↦ ground (arith, is_error, e)
  ]

  -- No iteration follows one that failed.
  iterations_skip :
      (rounds j : ℕ) (body : ℕ → Iterating fl g → Outcome (Iterating fl g))
      (it it' : Iterating fl g)
      → IsInitError it.error
      → for_range rounds j (unless_failed fl g out frames decimal body) it ≡ ok it'
      → IsInitError it'.error
  unfolding for_range
  iterations_skip zero j body it it' failed e =
      let same : it ≡ it' = ground arith in rw (← same) failed
  iterations_skip (suc rounds) j body it it' failed e =
      let (mid, first, rest) = >>=-eq-ok (unless_failed fl g out frames decimal body j it) _ e in
      let same = unless_failed_skips body j it mid (IsInitError-some it.error failed) first in
      iterations_skip rounds (j + 1) body mid it' (rw same failed) rest

  iterations_fail :
      (rounds j : ℕ) (body : ℕ → Iterating fl g → Outcome (Iterating fl g))
      (it it' : Iterating fl g)
      → 0 < rounds
      → it.error ≡ none
      → ((mid : Iterating fl g) → body j it ≡ ok mid → IsInitError mid.error)
      → for_range rounds j (unless_failed fl g out frames decimal body) it ≡ ok it'
      → IsInitError it'.error
  unfolding for_range unless_failed
  iterations_fail zero j body it it' some_rounds fine fails e = absurd (omega arith)
  iterations_fail (suc rounds) j body it it' some_rounds fine fails e =
      let (mid, first, rest) = >>=-eq-ok (unless_failed fl g out frames decimal body j it) _ e in
      iterations_skip rounds (j + 1) body mid it' (fails mid (ground (arith, fine, first))) rest

  run_iterations_ql :
      (inputs : ℕ → Inputs fl g) (it it' : Iterating fl g)
      → kind fl g it.scheduler ≡ SchedulerType.ql
      → it.error ≡ none
      → 0 < it.engine.iterations
      → run_iterations fl g out frames decimal inputs it ≡ ok it'
      → IsInitError it'.error
  unfolding run_iterations
  run_iterations_ql inputs it it' k fine some_iterations e =
      iterations_fail it.engine.iterations 0
        (λ j. run_iteration fl g out frames decimal (inputs j) j) it it' some_iterations fine
        (λ mid first. run_iteration_ql fl g out frames decimal (inputs 0) 0 it mid k first) e

  experiment_skips :
      (inputs : ℕ → Inputs fl g) (r r' : Running fl g)
      → r.error ≢ none
      → run_experiment fl g out frames decimal inputs r ≡ ok r'
      → r' ≡ r
  unfolding run_experiment
  experiment_skips inputs r r' failed e = elim (Option-cases r.error) [
    | inl fine ↦ absurd (failed fine)
    | inr (error, is_error) ↦ ground (arith, is_error, e)
  ]

  experiments_skip :
      (rounds i : ℕ) (inputs : ℕ → ℕ → Inputs fl g) (r r' : Running fl g)
      → IsInitError r.error
      → for_range rounds i (λ k. run_experiment fl g out frames decimal (inputs k)) r ≡ ok r'
      → IsInitError r'.error
  unfolding for_range
  experiments_skip zero i inputs r r' failed e =
      let same : r ≡ r' = ground arith in rw (← same) failed
  experiments_skip (suc rounds) i inputs r r' failed e =
      let (mid, first, rest) =
        >>=-eq-ok (run_experiment fl g out frames decimal (inputs i) r) _ e in
      let same = experiment_skips (inputs i) r mid (IsInitError-some r.error failed) first in
      experiments_skip rounds (i + 1) inputs mid r' (rw same failed) rest

  run_experiment_ql :
      (inputs : ℕ → Inputs fl g) (r r' : Running fl g)
      → r.engine.scheduler_type ≡ SchedulerType.ql
      → r.error ≡ none
      → 0 < r.engine.iterations
      → run_experiment fl g out frames decimal inputs r ≡ ok r'
      → IsInitError r'.error
  unfolding run_experiment
  run_experiment_ql inputs r r' is_ql fine some_iterations e =
      let (s, made, e1) =
        >>=-eq-ok (Strategy.init fl g out r.engine.scheduler_type r.engine.config r.before) _
          (rw fine at e) in
      let (it, ran, e2) = >>=-eq-ok (run_iterations fl g out frames decimal inputs _) _ e1 in
      let k = init-kind r.engine.scheduler_type r.engine.config r.before s made ∙ is_ql in
      let failed = run_iterations_ql inputs _ it k refl some_iterations ran in
      let same : r'.error ≡ it.error = ground arith in rw same failed

  experiments_fail :
      (rounds : ℕ) (inputs : ℕ → ℕ → Inputs fl g) (r r' : Running fl g)
      → 0 < rounds
      → r.engine.scheduler_type ≡ SchedulerType.ql
      → r.error ≡ none
      → 0 < r.engine.iterations
      → for_range rounds 0 (λ i. run_experiment fl g out frames decimal (inputs i)) r ≡ ok r'
      → IsInitError r'.error
  unfolding for_range
  experiments_fail zero inputs r r' some_rounds is_ql fine some_iterations e = absurd (omega arith)
  experiments_fail (suc rounds) inputs r r' some_rounds is_ql fine some_iterations e =
      let (mid, first, rest) =
        >>=-eq-ok (run_experiment fl g out frames decimal (inputs 0) r) _ e in
      experiments_skip rounds 1 inputs mid r'
        (run_experiment_ql (inputs 0) r mid is_ql fine some_iterations first) rest

  -- With the Q-learning strategy, an experiment and an iteration, `Run` never returns without an error: if it
  -- returns, then with the error of `NetworkManager.Init` or that of `FaultManager.Init`.
  pub run_ql :
      (inputs : ℕ → ℕ → Inputs fl g) (te : TestEngine fl g) (r : Running fl g)
      → te.scheduler_type ≡ SchedulerType.ql
      → 0 < te.experiments
      → 0 < te.iterations
      → run fl g out frames decimal inputs te ≡ ok r
      → IsInitError r.error
  unfolding run
  run_ql inputs te r is_ql some_experiments some_iterations e =
      experiments_fail te.experiments inputs _ r some_experiments is_ql refl some_iterations e
