-- ===== src/Engine/Supported.antt =====
-- cmd/dstest/engine/TestEngine.go: `Init` and then `Run`, for a configuration with the random strategy.
use dstest.Prelude.{
  ℕ, zero, suc, ◌+◌, ◌*◌, ◌≡◌, ◌≢◌, ◌<◌, ◌≤◌, ◌∙◌, refl, none, some, ok, Returns, Returns-map,
  length, get_or, arith, List, [],
}
use dstest.Prelude.Text.{Text, to_lower, lookup}
use dstest.Prelude.Machine.{Floats, Generator}
use dstest.Config.{Config}
use dstest.Network.Interceptor.{create_interceptor}
use dstest.Network.Translator.{Frame}
use dstest.Faults
use dstest.Faults.{FaultManager}
use dstest.Process.Start.{Numbered}
use dstest.Scheduling.Decision.{SchedulerType, new_scheduler}
use dstest.Scheduling.RandomScheduler.{float_of, probability_key}
use dstest.Scheduling.Strategy.{Outside}
use dstest.Engine.{TestEngine, started, ids_from, new_manager, init}
use dstest.Engine.Runs.{Inputs, run}
use dstest.Engine.Smooth.{IsFit, IsSmooth}
use dstest.Engine.Experiments.{IsRandom, IsFinished, run-IsFinished}

length-ids_from : (n i : ℕ) → length (ids_from n i) ≡ n
unfolding ids_from
length-ids_from zero i = refl
length-ids_from (suc n) i = let rest = length-ids_from n (i + 1) in omega arith

get_or-ids_from : (n i k : ℕ) → k < n → get_or (ids_from n i) k 0 ≡ i + k
unfolding ids_from
get_or-ids_from zero i k lk = absurd (omega arith)
get_or-ids_from (suc n) i zero lk = omega arith
get_or-ids_from (suc n) i (suc k) lk =
    let rest = get_or-ids_from n (i + 1) k (omega arith) in omega arith

ids_from-Numbered : (n : ℕ) → Numbered n (ids_from n 0)
ids_from-Numbered n =
    (length-ids_from n 0, λ i li. let own = get_or-ids_from n 0 i li in omega arith)

module _ (fl : Floats) (g : Generator fl.F) where
  -- A configuration of the random strategy that the engine can carry out: a known protocol, a replica and a
  -- client script at least, parameters for each replica, known faults, and a probability.
  pub record IsSupported (config : Config fl.F) : Type 0 where
    pub protocol : create_interceptor config.network_config.protocol ≢ none
    pub some_node : 0 < config.process_config.num_replicas
    pub some_script : 0 < length config.process_config.client_scripts
    pub params : config.process_config.num_replicas ≤ length config.process_config.replica_params
    pub planned :
        (fm : FaultManager) × (Faults.init config.fault_config (record { faults = [] })
          ≡ ok (fm, none))
    pub strategy : new_scheduler (to_lower config.scheduler_config.type) ≡ some SchedulerType.random
    pub probability :
        (p : fl.F) × (float_of (lookup probability_key config.scheduler_config.params) ≡ ok p)

  -- The engine that `Init` makes is ready for a run, as the configuration says, and has released nothing.
  record IsPrepared (config : Config fl.F) (te : TestEngine fl g) : Type 0 where
    fit : IsFit fl g te
    with_random : IsRandom fl g te
    config_lem : te.config ≡ config
    experiments : te.experiments ≡ config.test_config.experiments
    iterations : te.iterations ≡ config.test_config.iterations
    steps : te.steps ≡ config.scheduler_config.steps
    channels : te.network_manager.channels ≡ []

  abbrev engine_of : Config fl.F → FaultManager → TestEngine fl g
  engine_of config fm = record {
    config = config;
    experiments = config.test_config.experiments;
    iterations = config.test_config.iterations;
    steps = config.scheduler_config.steps;
    replica_ids = ids_from config.process_config.num_replicas 0;
    scheduler_type = SchedulerType.random;
    network_manager = new_manager fl g;
    fault_manager = fm;
  }

  init-IsPrepared :
      (config : Config fl.F)
      → IsSupported config
      → (te : TestEngine fl g) × (init fl g config ≡ ok (started te)) × IsPrepared config te
  unfolding init Faults.init
  init-IsPrepared config supported =
      let (fm, planned) = supported.planned in
      (
        engine_of config fm,
        rw (init, supported.strategy, planned) refl,
        record {
          fit = record {
            protocol = supported.protocol;
            some_node = supported.some_node;
            some_script = supported.some_script;
            ids = ids_from-Numbered config.process_config.num_replicas;
            params = supported.params;
            planned = (fm, planned);
            counter = refl;
            channels = tt;
          };
          with_random = record { type = refl; probability = supported.probability };
          config_lem = refl;
          experiments = refl;
          iterations = refl;
          steps = refl;
          channels = refl;
        },
      )

  -- For a configuration that the engine can carry out with the random strategy (IsSupported) `Init` returns
  -- an engine, and if all goes well in every iteration of every experiment (IsSmooth), its `Run` returns
  -- without an error, without a bug and without a schedule in the logs, and has released one message for
  -- each step of each iteration of each experiment.
  pub init-run :
      (out : Outside fl g) (frames : List ℕ → List Frame) (decimal : ℕ → Text)
      (config : Config fl.F) (inputs : ℕ → ℕ → Inputs fl g)
      → IsSupported config
      → ((i j : ℕ)
          → i < config.test_config.experiments
          → j < config.test_config.iterations
          → IsSmooth fl g config.process_config.num_replicas config.scheduler_config.steps
              (inputs i j))
      → (te : TestEngine fl g) × (init fl g config ≡ ok (started te))
        × Returns (run fl g out frames decimal inputs te) λ r.
          (r.error ≡ none)
          × (r.logs ≡ [])
          × (length r.engine.network_manager.channels
              ≡ config.test_config.experiments
                * (config.test_config.iterations * config.scheduler_config.steps))
  init-run out frames decimal config inputs supported smooth =
      let (te, made, ready) = init-IsPrepared config supported in
      (
        te,
        made,
        Returns-map _
            (IsFinished fl g te.experiments
              (record { engine = te; before = none; error = none; logs = [] }))
            _
            (run-IsFinished fl g out frames decimal inputs te ready.fit ready.with_random
              (rw (ready.config_lem, ready.experiments, ready.iterations, ready.steps) smooth))
            λ r done. (
              done.error,
              done.logs,
              rw done.engine (
                  done.released
                  ∙ rw (ready.channels, ready.experiments, ready.iterations, ready.steps)
                      (omega arith)),
            ),
      )
