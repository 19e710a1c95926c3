-- ===== src/Engine/Complete.antt =====
-- cmd/dstest/engine/TestEngine.go: an iteration with the random strategy that comes to its end, and leaves
-- the engine ready for the next.
use dstest.Prelude.{
  ℕ, ◌+◌, ◌*◌, ◌≡◌, ◌<◌, ◌∙◌, refl, ap, false, List, [], Option, none, lt→ltb, some, Returns,
  Returns-bind, Returns-map, Returns-ok, length, All, arith,
}
use dstest.Prelude.Text.{Text}
use dstest.Prelude.Machine.{Floats, Generator}
use dstest.Network.Translator.{Frame}
use dstest.Network.Manager.{Manager}
use dstest.Network.Manager.Init.{IsReady, init-IsReady}
use dstest.Network.Manager.History.{ready-IsFifo}
use dstest.Network.Manager.Open.{passes-open}
use dstest.Faults
use dstest.Faults.{FaultManager}
use dstest.Process.{ProcessManager, run_replicas}
use dstest.Process.Lifecycle
use dstest.Process.Lifecycle.{shutdown}
use dstest.Process.Start.{IsStarted, init-IsStarted, worker_of}
use dstest.Process.Closing.{start_all-Has}
use dstest.Scheduling.Strategy.{Outside}
use dstest.Engine.{TestEngine, Loop, run_steps}
use dstest.Engine.Runs.{Inputs, Iterating, run_loop, run_iteration, after_faults, after_network}
use dstest.Engine.Sending.{Steady}
use dstest.Engine.Busy.{Ready, IsDone}
use dstest.Engine.Flow.{run_steps_flow}
use dstest.Engine.Kept.{Kept, run_steps-Kept}
use dstest.Engine.Smooth.{CanIterate, IsSmooth, All-IsBusy, all_bring, start_all-IsSound}
use dstest.Engine.Finish.{Looped, Ended, end_iteration-Ended}

module _ (fl : Floats) (g : Generator fl.F) where
  -- `count` iterations came to their ends without an error and without a bug, and released a message in
  -- each of their steps; only the managers and the scheduler were written.
  pub record IsCompleted (count : ℕ) (it it' : Iterating fl g) : Type 0 where
    pub able : CanIterate fl g it'
    pub manager : Manager
    pub faults : FaultManager
    pub engine : it'.engine ≡ record it.engine { network_manager = manager; fault_manager = faults }
    pub error : it'.error ≡ it.error
    pub logs : it'.logs ≡ it.logs
    pub released :
        length manager.channels
        ≡ length it.engine.network_manager.channels + count * it.engine.steps

  -- The engine after `Init` of the network and of the faults.
  abbrev prepared : Iterating fl g → Manager → FaultManager → Iterating fl g
  prepared it nm fm = record it {
    engine = record it.engine { network_manager = nm; fault_manager = fm };
  }

  Ended-IsCompleted :
      (k : ℕ) (nm : Manager) (fm : FaultManager) (l : Loop fl g) (it it' : Iterating fl g)
      → CanIterate fl g it
      → k ≡ length it.engine.config.process_config.client_scripts
      → All (λ c. c < l.network.heap) l.network.channels
      → length l.network.channels ≡ length it.engine.network_manager.channels + it.engine.steps
      → Ended fl g k l (prepared it nm fm) it'
      → IsCompleted 1 it it'
  Ended-IsCompleted k nm fm l it it' fit e closed count ended =
      let same = ended.engine in
      record {
        able = record {
          fit = record {
            protocol = rw same fit.protocol;
            some_node = rw same fit.some_node;
            some_script = rw same fit.some_script;
            ids = rw same fit.ids;
            params = rw same fit.params;
            planned = rw same fit.planned;
            counter = rw same ended.counter;
            channels = rw (same, ended.channels, ended.heap) closed;
          };
          strategy = ended.strategy;
          steady = rw (same, ← e) ended.steady;
        };
        manager = ended.manager;
        faults = fm;
        engine = same;
        error = ended.error;
        logs = ended.logs;
        released = rw ended.channels (omega arith);
      }

  module _ (out : Outside fl g) (frames : List ℕ → List Frame) (decimal : ℕ → Text)
      (inputs : Inputs fl g) (j : ℕ) (it : Iterating fl g) (fit : CanIterate fl g it) where
    abbrev n : ℕ
    n = it.engine.config.process_config.num_replicas

    abbrev k : ℕ
    k = length it.engine.config.process_config.client_scripts

    abbrev base : ℕ
    base = it.engine.config.network_config.base_interceptor_port

    module _ (smooth : IsSmooth fl g n it.engine.steps inputs) (nm : Manager) (fm : FaultManager)
        (pm : ProcessManager) (ready : IsReady base n it.engine.network_manager (nm, none))
        (started : IsStarted it.engine.config j pm) where
      abbrev start : Loop fl g
      start = record {
        scheduler = it.scheduler;
        network = nm;
        processes = run_replicas inputs.launched pm;
        ended = false;
        schedule = [];
        s = 0;
      }

      abbrev te : TestEngine fl g
      te = record it.engine { network_manager = nm; fault_manager = fm }

      start-Ready : Ready fl g out frames decimal te n start
      unfolding run_replicas
      start-Ready = record {
        steady = fit.steady;
        consistent =
            (ready-IsFifo base n it.engine.network_manager (nm, none) fit.channels
              ready).consistent;
        no_bug = started.no_bug;
      }

      start-Kept : Kept fl g (run_replicas inputs.launched pm) nm start
      unfolding run_replicas
      start-Kept = record {
        workers = refl;
        wait_group = refl;
        clients = rw started.no_client tt;
        going = refl;
        network = record { interceptors = refl; wait_group = refl };
        strategy = fit.strategy;
      }

      loop_done :
          Returns
            (run_steps fl g out frames decimal te inputs.rounds start)
            (IsDone fl g out frames decimal te n start)
      loop_done =
          let none_numbered : start.network.index ≡ 0 = ready.no_index in
          let few = smooth.few in
          let enough = smooth.enough in
          run_steps_flow fl g frames n out decimal te inputs.rounds start fit.some_script
            start-Ready (All-IsBusy fl g inputs.rounds smooth.calm) (omega arith) (omega arith)
            (omega arith)
            (all_bring fl g n nm inputs.rounds
              (passes-open base n it.engine.network_manager (nm, none) fit.some_node ready)
              smooth.calm smooth.fed)

      Kept-Looped :
          (l : Loop fl g)
          → l.processes.bug_candidate ≡ false
          → Steady fl g k l.scheduler
          → Kept fl g (run_replicas inputs.launched pm) nm l
          → Looped fl g n k l
      unfolding run_replicas
      Kept-Looped l no_bug steady kept = record {
        replicas = rw kept.workers (start_all-IsSound inputs.launched pm.workers smooth.launches);
        clients = kept.clients;
        has = λ key lk. rw kept.workers (
            start_all-Has inputs.launched pm.workers key
              (worker_of it.engine.config key, started.workers key ∙ rw (lt→ltb key n lk) refl));
        wait_group = kept.wait_group ∙ omega (arith, started.wait_group, started.count);
        no_bug = no_bug;
        going = kept.going;
        filled = rw (kept.network.interceptors, ready.slots) ready.filled;
        counter = kept.network.wait_group ∙ ready.wait_group ∙ fit.counter;
        strategy = kept.strategy;
        steady = steady;
      }

      run_loop-IsCompleted :
          Returns
            (run_loop fl g out frames decimal inputs pm (prepared it nm fm))
            (IsCompleted 1 it)
      unfolding run_loop
      run_loop-IsCompleted =
          let (l, e, (s, count, after)) =
            Returns-ok (run_steps fl g out frames decimal te inputs.rounds start)
              (IsDone fl g out frames decimal te n start) loop_done in
          let kept =
            run_steps-Kept fl g (run_replicas inputs.launched pm) nm out frames decimal te
              inputs.rounds start l smooth.calm start-Kept e in
          let looped = Kept-Looped l after.no_bug after.steady kept in
          let old = ap length ready.channels in
          rw e (
            Returns-map _ (Ended fl g k l (prepared it nm fm)) _
              (end_iteration-Ended fl g out frames decimal n it.engine.steps k inputs
                (prepared it nm fm) l smooth looped)
              λ it' ended.
                Ended-IsCompleted k nm fm l it it' fit refl after.consistent.closed (omega arith)
                  ended)

    after_network-IsCompleted :
        (nm : Manager) (error : Option Text)
        → IsSmooth fl g n it.engine.steps inputs
        → IsReady base n it.engine.network_manager (nm, error)
        → Returns (after_network fl g out frames decimal inputs j it nm error) (IsCompleted 1 it)
    unfolding after_network after_faults Faults.init
    after_network-IsCompleted nm (some error) smooth ready = let impossible = ready.no_error in cc
    after_network-IsCompleted nm none smooth ready =
        let (fm, planned) = fit.planned in
        let (pm, made, started) =
          Returns-ok (Lifecycle.init it.engine.config it.engine.replica_ids j)
            (IsStarted it.engine.config j)
            (init-IsStarted it.engine.config it.engine.replica_ids j fit.ids fit.params) in
        rw (planned, made) (run_loop-IsCompleted smooth nm fm pm ready started)

    -- With the random strategy, an engine that is fit for it, and an outside on which all goes well, an
    -- iteration returns, without an error and without a bug: each of its steps has released a message, the
    -- processes were stopped, both goroutines have ended, and the engine is fit for the next iteration.
    pub run_iteration-IsCompleted :
        IsSmooth fl g n it.engine.steps inputs
        → Returns (run_iteration fl g out frames decimal inputs j it) (IsCompleted 1 it)
    unfolding run_iteration
    run_iteration-IsCompleted smooth =
        Returns-bind _ _ (IsReady base n it.engine.network_manager) _
          (init-IsReady it.engine.config.network_config it.engine.config.process_config
            it.engine.replica_ids it.engine.network_manager fit.protocol)
          λ (nm, error) ready. after_network-IsCompleted nm error smooth ready
