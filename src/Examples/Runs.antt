-- ===== src/Examples/Runs.antt =====
-- Runs of the engine: one that ends with an error of an `Init`, one in which nothing happens, and one that
-- completes.
use dstest.Prelude.{
  ℕ, zero, suc, ◌<◌, get_or, out_of_fuel, false, ◌*◌, ◌≡◌, refl, length, Returns, true, [], ◌∷◌,
  none, some, ok, for_range, arith,
}
use dstest.Prelude.Text.{codes, to_lower}
use dstest.Network.Manager
use dstest.Network.Manager.{get_actions, pair_of}
use dstest.Network.Router
use dstest.Network.Interceptor.{create_interceptor}
use dstest.Scheduling.Decision.{SchedulerType, new_scheduler}
use dstest.Scheduling.Ql.QlScheduler
use dstest.Scheduling.Strategy
use dstest.Scheduling.Strategy.{Outside, Scheduler, random, ql, replay, pct}
use dstest.Engine.Runs.{
  Inputs, Running, run, run_experiment, run_iterations, run_iteration, unless_failed, after_network,
}
use dstest.Engine.{Happening, TestEngine, Round, init, started}
use dstest.Engine.Closing.{closing_of}
use dstest.Engine.Smooth.{IsFit, IsSmooth}
use dstest.Engine.Supported.{IsSupported, init-run}
use dstest.Network.Message.{bytes}
use dstest.Engine.Unfinished.{run_ql}
use dstest.Engine.Learning.{IsInitError}
use dstest.Config.{Config}
use dstest.Faults
use dstest.Faults.{FaultManager, always_enabled, crash_replica_behavior}
use dstest.Engine.Silent.{run_iteration_silent}
use dstest.Engine.Runs.{Iterating}
use dstest.Examples.Strategies.{naturals, alternating, config}
use dstest.Examples.Messages.{frames, http2c_known}
use dstest.Examples.Engines.{outside, decimal, engine, at_random}

abbrev pub inputs : Inputs naturals alternating
inputs = record {
  listen = λ i. none;
  launched = λ i. true;
  rounds = [];
  client_stderr = λ i. some [];
  stderr = λ i. some [];
  closing = [];
}

-- The protocol of the configuration is unknown.
failed_run :
    (r : Running naturals alternating) × (run naturals alternating outside frames decimal
        (λ i j. inputs)
        (engine SchedulerType.ql 2)
      ≡ ok r)
unfolding run run_experiment run_iterations run_iteration unless_failed after_network for_range
    Strategy.init QlScheduler.init Manager.init Router.init Router.make_row Router.set_cell
    Manager.connect_node Manager.connect_pair Manager.connect create_interceptor
failed_run = (_, refl)

run_ql_example : IsInitError failed_run.0.error
run_ql_example =
    run_ql naturals alternating outside frames decimal (λ i j. inputs) (engine SchedulerType.ql 2)
      failed_run.0 refl (omega arith) (omega arith) failed_run.1

abbrev http2c_config : Config ℕ
http2c_config = record config {
  network_config = record config.network_config { protocol = codes "http2c" };
}

abbrev pub http2c_iterating : Iterating naturals alternating
http2c_iterating = record {
  engine = record (engine SchedulerType.random 2) { config = http2c_config };
  scheduler = at_random;
  error = none;
  logs = [];
}

-- The rounds of the first iteration, in which nothing happens.
abbrev quiet_inputs : Inputs naturals alternating
quiet_inputs = record inputs {
  rounds =
      record { before = []; meanwhile = []; draw = 0; launched = true }
      ∷ record { before = []; meanwhile = []; draw = 0; launched = false }
      ∷ [];
}

http2c_iterating-IsFit : IsFit naturals alternating http2c_iterating.engine
unfolding Faults.init Faults.add_all
http2c_iterating-IsFit = record {
  protocol = http2c_known;
  some_node = omega arith;
  some_script = omega arith;
  ids = (refl, own);
  params = omega arith;
  planned = (record { faults = [] }, refl);
  counter = refl;
  channels = tt;
}
  where
    own : (i : ℕ) → i < 2 → get_or (0 ∷ 1 ∷ []) i 0 ≡ i
    own zero li = refl
    own (suc zero) li = refl
    own (suc (suc i)) li = absurd (omega arith)

run_iteration_silent_example :
    run_iteration naturals alternating outside frames decimal quiet_inputs 0 http2c_iterating
    ≡ out_of_fuel
run_iteration_silent_example =
    run_iteration_silent naturals alternating outside frames decimal quiet_inputs 0 http2c_iterating
      http2c_iterating-IsFit ((refl, refl), ((refl, refl), tt)) (omega arith) refl

abbrev random_config : Config ℕ
random_config = record config {
  scheduler_config = record config.scheduler_config { type = codes "Random" };
  network_config = record config.network_config { protocol = codes "http2c" };
}

-- Two iterations of two steps, with a request before and during each.
random_config-IsSupported : IsSupported naturals alternating random_config
unfolding new_scheduler to_lower Faults.init Faults.add_all
random_config-IsSupported = record {
  protocol = http2c_known;
  some_node = omega arith;
  some_script = omega arith;
  params = omega arith;
  planned = (record { faults = [] }, refl);
  strategy = refl;
  probability = (1, refl);
}

abbrev fed_round : Round naturals alternating
fed_round = record {
  before = Happening.arrives (bytes []) 9001 ∷ [];
  meanwhile = Happening.arrives (bytes []) 9002 ∷ [];
  draw = 0;
  launched = true;
}

abbrev fed_inputs : Inputs naturals alternating
fed_inputs = record inputs {
  rounds = fed_round ∷ fed_round ∷ [];
  closing = closing_of (1 ∷ 0 ∷ []);
}

fed_inputs-IsSmooth : IsSmooth naturals alternating 2 2 fed_inputs
fed_inputs-IsSmooth = record {
  listens = λ i. refl;
  launches = λ key. refl;
  calm = ((((tt, tt), (tt, tt)), refl), ((((tt, tt), (tt, tt)), refl), tt));
  fed = (omega arith, (omega arith, tt));
  few = omega arith;
  enough = omega arith;
  quiet = λ key. (refl, refl);
  keys = 1 ∷ 0 ∷ [];
  all_keys = (refl, (omega arith, (omega arith, tt)));
  closing = refl;
}

init-run_example :
    (te : TestEngine naturals alternating) × (init naturals alternating random_config
      ≡ ok (started te))
    × Returns (run naturals alternating outside frames decimal (λ i j. fed_inputs) te) λ r.
      (r.error ≡ none) × (r.logs ≡ []) × (length r.engine.network_manager.channels ≡ 1 * (2 * 2))
init-run_example =
    init-run naturals alternating outside frames decimal random_config (λ i j. fed_inputs)
      random_config-IsSupported (λ i j li lj. fed_inputs-IsSmooth)
