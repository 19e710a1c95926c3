-- ===== src/Engine/Runs.antt =====
-- cmd/dstest/engine/TestEngine.go: `Run`, its iterations and its experiments.
use dstest.Prelude.{
  ℕ, ◌==◌, ◌&&◌, Bool, false, List, [], ◌∷◌, ◌++◌, Option, none, some, Outcome, ok, out_of_fuel,
  ◌>>=◌, for_range, if◌then◌else◌,
}
use dstest.Prelude.Text.{Text, codes}
use dstest.Prelude.Machine.{Floats, Generator}
use dstest.Network.Translator.{Frame}
use dstest.Network.Manager
use dstest.Network.Manager.{Manager}
use dstest.Network.Manager.Shutdown
use dstest.Process.{ProcessManager, run_replicas}
use dstest.Process.Lifecycle
use dstest.Process.Lifecycle.{shutdown}
use dstest.Faults
use dstest.Faults.{FaultManager}
use dstest.Scheduling.Strategy
use dstest.Scheduling.Strategy.{Outside, Scheduler}
use dstest.Engine.{Action, Happening, TestEngine, Round, Loop, happen_all, run_steps}

module _ (fl : Floats) (g : Generator fl.F) where
  -- What the outside does in an iteration: the answers to the interceptors that listen, the launches of the
  -- replicas, the rounds of the loop, the error files of the clients and of the replicas, and
  -- what happens after the shutdown.
  pub record Inputs : Type 0 where
    pub listen : ℕ → Option Text
    pub launched : ℕ → Bool
    pub rounds : List (Round fl g)
    pub client_stderr : ℕ → Option Text
    pub stderr : ℕ → Option Text
    pub closing : List Happening

  -- `error` is what `Run` has returned, and `logs` are the schedules that were written to files.
  pub record Iterating : Type 0 where
    pub engine : TestEngine fl g
    pub scheduler : Scheduler fl g
    pub error : Option Text
    pub logs : List (List Action)

  -- The state between two experiments: there is no scheduler before the first.
  pub record Running : Type 0 where
    pub engine : TestEngine fl g
    pub before : Option (Scheduler fl g)
    pub error : Option Text
    pub logs : List (List Action)

  module _ (out : Outside fl g) (frames : List ℕ → List Frame) (decimal : ℕ → Text) where
    -- `wg.Wait()`: it returns if both goroutines have ended.
    unfoldable pub wait_all : Manager → Bool → Outcome (Unit {0})
    wait_all nm ended = if nm.wait_group == 0 && ended then ok tt else out_of_fuel

    -- The end of the iteration, after the loop over the steps.
    abbrev pub end_iteration : Inputs → Iterating → Loop fl g → Outcome Iterating
    end_iteration inputs it l = do
      stopped ← shutdown inputs.client_stderr inputs.stderr l.processes
      _ ← Shutdown.shutdown l.network
      l' ← happen_all fl g frames inputs.closing (record l { processes = stopped })
      nm ← Manager.run inputs.listen l'.network
      _ ← wait_all nm l'.ended
      scheduler ← Strategy.next_iteration fl g out l'.scheduler
      ok (record it {
        engine = record it.engine { network_manager = nm };
        scheduler = scheduler;
        logs = if l'.processes.bug_candidate then it.logs ++ l'.schedule ∷ [] else it.logs;
      })

    -- The loop over the steps, from fresh managers, up to the end of the iteration.
    unfoldable pub run_loop : Inputs → ProcessManager → Iterating → Outcome Iterating
    run_loop inputs pm it = do
      l ← run_steps fl g out frames decimal it.engine inputs.rounds (record {
        scheduler = it.scheduler;
        network = it.engine.network_manager;
        processes = run_replicas inputs.launched pm;
        ended = false;
        schedule = [];
        s = 0;
      })
      end_iteration inputs it l

    -- After `FaultManager.Init`, with the error that it returned.
    unfoldable pub after_faults :
        Inputs → ℕ → Iterating → FaultManager → Option Text → Outcome Iterating
    after_faults inputs j it fm (some e) = ok (record it {
      engine = record it.engine { fault_manager = fm };
      error = some (codes "Error initializing FaultManager: " ++ e);
    })
    after_faults inputs j it fm none = do
      pm ← Lifecycle.init it.engine.config it.engine.replica_ids j
      run_loop inputs pm (record it { engine = record it.engine { fault_manager = fm } })

    -- After `NetworkManager.Init`, with the error that it returned.
    unfoldable pub after_network :
        Inputs → ℕ → Iterating → Manager → Option Text → Outcome Iterating
    after_network inputs j it nm (some e) = ok (record it {
      engine = record it.engine { network_manager = nm };
      error = some (codes "Error initializing NetworkManager: " ++ e);
    })
    after_network inputs j it nm none = do
      (fm, error) ← Faults.init it.engine.config.fault_config it.engine.fault_manager
      after_faults inputs j (record it { engine = record it.engine { network_manager = nm } }) fm
          error

    unfoldable pub run_iteration : Inputs → ℕ → Iterating → Outcome Iterating
    run_iteration inputs j it = do
      let config = it.engine.config
      (nm, error) ←
          Manager.init config.network_config config.process_config it.engine.replica_ids
            it.engine.network_manager
      after_network inputs j it nm error

    -- The body of a loop, which does nothing after a `return`.
    unfoldable pub unless_failed :
        (ℕ → Iterating → Outcome Iterating) → ℕ → Iterating → Outcome Iterating
    unless_failed body j it = elim it.error [ some e ↦ ok it | none ↦ body j it ]

    unfoldable pub run_iterations : (ℕ → Inputs) → Iterating → Outcome Iterating
    run_iterations inputs it =
        for_range it.engine.iterations 0 (unless_failed (λ j. run_iteration (inputs j) j)) it

    -- `Reset` comes after the last iteration, unless one returned an error.
    abbrev pub finish_experiment : Iterating → Running
    finish_experiment it = record {
      engine = it.engine;
      before =
          some (elim it.error [ some e ↦ it.scheduler | none ↦ Strategy.reset fl g it.scheduler ]);
      error = it.error;
      logs = it.logs;
    }

    unfoldable pub run_experiment : (ℕ → Inputs) → Running → Outcome Running
    run_experiment inputs r = elim r.error [
      | some e ↦ ok r
      | none ↦ do
        scheduler ← Strategy.init fl g out r.engine.scheduler_type r.engine.config r.before
        it ←
            run_iterations inputs
              (record { engine = r.engine; scheduler = scheduler; error = none; logs = r.logs })
        ok (finish_experiment it)
    ]

    -- `inputs i j` are those of the j-th iteration of the i-th experiment.
    unfoldable pub run : (ℕ → ℕ → Inputs) → TestEngine fl g → Outcome Running
    run inputs te =
        for_range te.experiments 0 (λ i. run_experiment (inputs i))
          (record { engine = te; before = none; error = none; logs = [] })
