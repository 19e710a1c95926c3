-- ===== src/Engine/Silent.antt =====
-- cmd/dstest/engine/TestEngine.go: an iteration from its `Init`s on, in which nothing happens in the loop.
use dstest.Prelude.{
  ℕ, zero, suc, ◌≡◌, ◌<◌, ◌∙◌, refl, ap, false, List, [], Option, none, some, out_of_fuel,
  Returns-ok, replicate, All, length,
}
use dstest.Prelude.Text.{Text}
use dstest.Prelude.Machine.{Floats, Generator}
use dstest.Network.Queue
use dstest.Network.Manager
use dstest.Network.Manager.{Manager, get_actions}
use dstest.Network.Manager.Init.{IsReady, init-IsReady}
use dstest.Network.Translator.{Frame}
use dstest.Process.{ProcessManager, run_replicas}
use dstest.Process.Lifecycle
use dstest.Process.Start.{IsStarted, init-IsStarted}
use dstest.Faults
use dstest.Faults.{FaultManager}
use dstest.Scheduling.Strategy.{Outside}
use dstest.Engine.Runs.{Inputs, Iterating, run_loop, run_iteration, after_faults, after_network}
use dstest.Engine.Stuck.{IsQuiet}
use dstest.Engine.Idle.{IsPatient, run_steps_idle}
use dstest.Engine.Smooth.{IsFit}

fresh_actions : (n : ℕ) → get_actions (replicate n Queue.init) ≡ []
unfolding get_actions Queue.init Queue.peek
fresh_actions zero = refl
fresh_actions (suc n) = fresh_actions n

module _ (fl : Floats) (g : Generator fl.F) (out : Outside fl g) (frames : List ℕ → List Frame)
    (decimal : ℕ → Text) where
  run_loop_silent :
      (inputs : Inputs fl g) (pm : ProcessManager) (it : Iterating fl g)
      → 0 < length it.engine.config.process_config.client_scripts
      → All (IsQuiet fl g) inputs.rounds
      → 0 < it.engine.steps
      → IsPatient fl g (length it.engine.config.process_config.client_scripts) it.scheduler
      → get_actions it.engine.network_manager.message_queues ≡ []
      → pm.bug_candidate ≡ false
      → run_loop fl g out frames decimal inputs pm it ≡ out_of_fuel
  unfolding run_loop run_replicas
  run_loop_silent inputs pm it some_scripts quiet some_steps patient empty no_bug =
      rw
        (run_steps_idle fl g out frames decimal it.engine inputs.rounds
          (record {
            scheduler = it.scheduler;
            network = it.engine.network_manager;
            processes = run_replicas inputs.launched pm;
            ended = false;
            schedule = [];
            s = 0;
          })
          some_scripts quiet (record { nothing_waits = empty; no_bug = no_bug; strategy = patient })
          some_steps)
        refl

  module _ (inputs : Inputs fl g) (j : ℕ) (it : Iterating fl g) (fit : IsFit fl g it.engine) where
    after_network_silent :
        (nm : Manager) (error : Option Text)
        → All (IsQuiet fl g) inputs.rounds
        → 0 < it.engine.steps
        → IsPatient fl g (length it.engine.config.process_config.client_scripts) it.scheduler
        → IsReady it.engine.config.network_config.base_interceptor_port
            it.engine.config.process_config.num_replicas it.engine.network_manager
            (nm, error)
        → after_network fl g out frames decimal inputs j it nm error ≡ out_of_fuel
    unfolding after_network after_faults Faults.init
    after_network_silent nm (some error) quiet some_steps patient ready =
        let impossible = ready.no_error in cc
    after_network_silent nm none quiet some_steps patient ready =
        let (fm, planned) = fit.planned in
        let (pm, made, started) =
          Returns-ok (Lifecycle.init it.engine.config it.engine.replica_ids j)
            (IsStarted it.engine.config j)
            (init-IsStarted it.engine.config it.engine.replica_ids j fit.ids fit.params) in
        rw (planned, made)
          (run_loop_silent inputs pm
            (record it { engine = record it.engine { network_manager = nm; fault_manager = fm } })
            fit.some_script quiet some_steps patient
            (ap get_actions ready.queues
              ∙ fresh_actions it.engine.config.process_config.num_replicas)
            started.no_bug)

    -- In an engine that is fit for an iteration, with a strategy that is ready and does not replay and with a step to
    -- do: as long as no request arrives, no process ends and `ProcessManager.Run` does not return, the
    -- iteration does not get out of the loop over the steps, however many rounds it takes, and nothing
    -- panics.
    pub run_iteration_silent :
        All (IsQuiet fl g) inputs.rounds
        → 0 < it.engine.steps
        → IsPatient fl g (length it.engine.config.process_config.client_scripts) it.scheduler
        → run_iteration fl g out frames decimal inputs j it ≡ out_of_fuel
    unfolding run_iteration
    run_iteration_silent quiet some_steps patient =
        let config = it.engine.config in
        let ((nm, error), made, ready) =
          Returns-ok
            (Manager.init config.network_config config.process_config it.engine.replica_ids
              it.engine.network_manager)
            (IsReady config.network_config.base_interceptor_port config.process_config.num_replicas
              it.engine.network_manager)
            (init-IsReady config.network_config config.process_config it.engine.replica_ids
              it.engine.network_manager fit.protocol) in
        rw made (after_network_silent nm error quiet some_steps patient ready)
