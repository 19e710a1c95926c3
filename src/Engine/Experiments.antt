-- ===== src/Engine/Experiments.antt =====
-- cmd/dstest/engine/TestEngine.go: all iterations and all experiments of `Run` with the random strategy.
use dstest.Prelude.{
  ℕ, ◌+◌, ◌*◌, ◌≡◌, ◌<◌, ◌∙◌, refl, List, [], Option, none, some, Outcome, ok, Returns,
  Returns-bind, Returns-map, length, arith, for_range-Returns,
}
use dstest.Prelude.Text.{Text, lookup}
use dstest.Prelude.Machine.{Floats, Generator}
use dstest.Network.Translator.{Frame}
use dstest.Network.Manager.{Manager}
use dstest.Faults.{FaultManager}
use dstest.Scheduling.Decision.{SchedulerType}
use dstest.Scheduling.RandomScheduler
use dstest.Scheduling.RandomScheduler.{float_of, probability_key}
use dstest.Scheduling.Strategy
use dstest.Scheduling.Strategy.{Outside, Scheduler}
use dstest.Scheduling.Strategy.Kinds.{kind}
use dstest.Engine.{TestEngine}
use dstest.Engine.Runs.{
  Inputs, Iterating, Running, run_iteration, unless_failed, run_iterations, run_experiment, run,
}
use dstest.Engine.Sending.{Steady}
use dstest.Engine.Smooth.{IsFit, CanIterate, IsSmooth}
use dstest.Engine.Complete.{IsCompleted, run_iteration-IsCompleted}

goes_on :
    {A : Type 0} (error : Option Text) (m m' : Outcome A)
    → error ≡ none
    → elim error [ some e ↦ m | none ↦ m' ] ≡ m'
goes_on none m m' fresh = refl
goes_on (some e) m m' fresh = cc

module _ (fl : Floats) (g : Generator fl.F) where
  join-IsCompleted :
      (count : ℕ) (it s t : Iterating fl g)
      → IsCompleted fl g count it s
      → IsCompleted fl g 1 s t
      → IsCompleted fl g (count + 1) it t
  join-IsCompleted count it s t p q =
      let more : length q.manager.channels ≡ length p.manager.channels + 1 * it.engine.steps =
        rw p.engine at q.released in
      let so_far = p.released in
      record {
        able = q.able;
        manager = q.manager;
        faults = q.faults;
        engine = rw p.engine at q.engine;
        error = q.error ∙ p.error;
        logs = q.logs ∙ p.logs;
        released = omega arith;
      }

  -- The random strategy, with a probability of a request.
  pub record IsRandom (te : TestEngine fl g) : Type 0 where
    pub type : te.scheduler_type ≡ SchedulerType.random
    pub probability :
        (p : fl.F) × (float_of (lookup probability_key te.config.scheduler_config.params) ≡ ok p)

  -- After `count` experiments without an error and without a bug.
  pub record IsFinished (count : ℕ) (r r' : Running fl g) : Type 0 where
    pub manager : Manager
    pub faults : FaultManager
    pub engine : r'.engine ≡ record r.engine { network_manager = manager; fault_manager = faults }
    pub fit : IsFit fl g r'.engine
    pub error : r'.error ≡ none
    pub logs : r'.logs ≡ r.logs
    pub released :
        length manager.channels
        ≡ length r.engine.network_manager.channels + count * (r.engine.iterations * r.engine.steps)

  module _ (out : Outside fl g) (frames : List ℕ → List Frame) (decimal : ℕ → Text) where
    run_iterations-IsCompleted :
        (inputs : ℕ → Inputs fl g) (it : Iterating fl g)
        → CanIterate fl g it
        → it.error ≡ none
        → ((j : ℕ)
            → j < it.engine.iterations
            → IsSmooth fl g it.engine.config.process_config.num_replicas it.engine.steps (inputs j))
        → Returns
            (run_iterations fl g out frames decimal inputs it)
            (IsCompleted fl g it.engine.iterations it)
    unfolding run_iterations unless_failed
    run_iterations-IsCompleted inputs it able fresh smooth =
        for_range-Returns (λ j. IsCompleted fl g j it) _ it.engine.iterations
          (λ j s lj p. rw (goes_on s.error (ok s) _ (p.error ∙ fresh)) (
            Returns-map (run_iteration fl g out frames decimal (inputs j) j s)
              (IsCompleted fl g 1 s) _
              (run_iteration-IsCompleted fl g out frames decimal (inputs j) j s p.able
                (rw p.engine (smooth j lj)))
              (λ t q. join-IsCompleted j it s t p q)))
          it.engine.iterations 0 it (omega arith)
          (record {
            able = able;
            manager = it.engine.network_manager;
            faults = it.engine.fault_manager;
            engine = refl;
            error = refl;
            logs = refl;
            released = omega arith;
          })

    init-random :
        (te : TestEngine fl g) (before : Option (Scheduler fl g))
        → IsRandom te
        → Returns (Strategy.init fl g out te.scheduler_type te.config before) λ s.
          (kind fl g s ≡ SchedulerType.random)
          × Steady fl g (length te.config.process_config.client_scripts) s
    unfolding Strategy.init RandomScheduler.init
    init-random te before with_random =
        let (p, found) = with_random.probability in rw (with_random.type, found) (refl, refl)

    run_experiment-IsFinished :
        (inputs : ℕ → Inputs fl g) (r : Running fl g)
        → IsFit fl g r.engine
        → IsRandom r.engine
        → r.error ≡ none
        → ((j : ℕ)
            → j < r.engine.iterations
            → IsSmooth fl g r.engine.config.process_config.num_replicas r.engine.steps (inputs j))
        → Returns (run_experiment fl g out frames decimal inputs r) (IsFinished 1 r)
    unfolding run_experiment
    run_experiment-IsFinished inputs r fit with_random fresh smooth = rw fresh (
        Returns-bind _ _
          (λ s.
            (kind fl g s ≡ SchedulerType.random)
            × Steady fl g (length r.engine.config.process_config.client_scripts) s)
          _ (init-random r.engine r.before with_random)
          λ s (strategy, steady).
            let it : Iterating fl g = record {
              engine = r.engine;
              scheduler = s;
              error = none;
              logs = r.logs;
            } in
            Returns-bind _ _ (IsCompleted fl g r.engine.iterations it) _
              (run_iterations-IsCompleted inputs it
                (record { fit = fit; strategy = strategy; steady = steady }) refl smooth)
              λ t done.
                let count = done.released in
                record {
                  manager = done.manager;
                  faults = done.faults;
                  engine = done.engine;
                  fit = done.able.fit;
                  error = done.error;
                  logs = done.logs;
                  released = omega arith;
                })

    join-IsFinished :
        (count : ℕ) (r s t : Running fl g)
        → IsFinished count r s
        → IsFinished 1 s t
        → IsFinished (count + 1) r t
    join-IsFinished count r s t p q =
        let more : length q.manager.channels
            ≡ length p.manager.channels + 1 * (r.engine.iterations * r.engine.steps) =
          rw p.engine at q.released in
        let so_far = p.released in
        record {
          manager = q.manager;
          faults = q.faults;
          engine = rw p.engine at q.engine;
          fit = q.fit;
          error = q.error;
          logs = q.logs ∙ p.logs;
          released = omega arith;
        }

    -- With the random strategy, from an engine that is fit for it, and if all goes well in every iteration of
    -- every experiment, `Run` returns, without an error and without a bug, and each step of each
    -- iteration of each experiment has released a message.
    pub run-IsFinished :
        (inputs : ℕ → ℕ → Inputs fl g) (te : TestEngine fl g)
        → IsFit fl g te
        → IsRandom te
        → ((i j : ℕ)
            → i < te.experiments
            → j < te.iterations
            → IsSmooth fl g te.config.process_config.num_replicas te.steps (inputs i j))
        → Returns (run fl g out frames decimal inputs te) (
            IsFinished te.experiments
              (record { engine = te; before = none; error = none; logs = [] }))
    unfolding run
    run-IsFinished inputs te fit with_random smooth =
        let r : Running fl g = record { engine = te; before = none; error = none; logs = [] } in
        for_range-Returns (λ i. IsFinished i r)
          (λ i. run_experiment fl g out frames decimal (inputs i)) te.experiments
          (λ i s li p.
            Returns-map (run_experiment fl g out frames decimal (inputs i) s) (IsFinished 1 s) _
              (run_experiment-IsFinished (inputs i) s p.fit
                (rw p.engine
                  (record { type = with_random.type; probability = with_random.probability }))
                p.error (rw p.engine (λ j lj. smooth i j li lj)))
              (λ t q. join-IsFinished i r s t p q))
          te.experiments 0 r (omega arith)
          (record {
            manager = te.network_manager;
            faults = te.fault_manager;
            engine = refl;
            fit = fit;
            error = refl;
            logs = refl;
            released = omega arith;
          })
