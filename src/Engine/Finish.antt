-- ===== src/Engine/Finish.antt =====
-- cmd/dstest/engine/TestEngine.go: the end of an iteration with the random strategy.
use dstest.Prelude.{
  ℕ, ◌+◌, ◌≡◌, ◌<◌, ◌∙◌, refl, ap, false, List, Option, none, Returns, Returns-bind, Returns-ok,
  length, All, arith,
}
use dstest.Prelude.Text.{Text}
use dstest.Prelude.Machine.{Floats, Generator}
use dstest.Network.Translator.{Frame}
use dstest.Network.Manager
use dstest.Network.Manager.{Manager, pair_of}
use dstest.Network.Manager.Running.{run-wait_group, run-keeps, failures, failures-none}
use dstest.Network.Manager.Shutdown
use dstest.Network.Manager.Shutdown.{shutdown_all-Filled}
use dstest.Network.Manager.Pending.{All-map}
use dstest.Process.{ProcessManager, decide_bug}
use dstest.Process.Lifecycle.{shutdown}
use dstest.Process.Stop.{IsSound, shutdown-AllDone}
use dstest.Process.Status.{AllDone}
use dstest.Process.Closing.{Has, shutdown-Stopped, IsClosing}
use dstest.Scheduling.Decision.{SchedulerType}
use dstest.Scheduling.Strategy
use dstest.Scheduling.Strategy.{Outside, Scheduler, random, ql, pct, replay}
use dstest.Scheduling.Strategy.Kinds.{kind}
use dstest.Engine.{Loop, happen_all}
use dstest.Engine.Runs.{Inputs, Iterating, end_iteration, wait_all}
use dstest.Engine.Sending.{Steady}
use dstest.Engine.Closing.{Closed, happen_all-Closed}
use dstest.Scheduling.RandomScheduler
use dstest.Engine.Smooth.{IsSmooth}
use dstest.Network.Manager.Ports.{Filled}

module _ (fl : Floats) (g : Generator fl.F) where
  -- After the loop over the steps: sound workers, one for each of the `n` replicas and for none has `Done` been
  -- called, and initialized interceptors, none of which has failed.
  pub record Looped (n k : ℕ) (l : Loop fl g) : Type 0 where
    pub replicas : All IsSound l.processes.workers
    pub clients : All IsSound l.processes.client_workers
    pub has : (key : ℕ) → key < n → Has l.processes.workers key
    pub wait_group : l.processes.wait_group ≡ n
    pub no_bug : l.processes.bug_candidate ≡ false
    pub going : l.ended ≡ false
    pub filled : Filled (length l.network.interceptors) l.network.interceptors
    pub counter : l.network.wait_group ≡ 0
    pub strategy : kind fl g l.scheduler ≡ SchedulerType.random
    pub steady : Steady fl g k l.scheduler

  -- The iteration has ended: nothing is written but the scheduler and the counter of the network.
  pub record Ended (k : ℕ) (l : Loop fl g) (it it' : Iterating fl g) : Type 0 where
    pub manager : Manager
    pub engine : it'.engine ≡ record it.engine { network_manager = manager }
    pub error : it'.error ≡ it.error
    pub logs : it'.logs ≡ it.logs
    pub counter : manager.wait_group ≡ 0
    pub channels : manager.channels ≡ l.network.channels
    pub heap : manager.heap ≡ l.network.heap
    pub strategy : kind fl g it'.scheduler ≡ SchedulerType.random
    pub steady : Steady fl g k it'.scheduler

  shutdown-IsClosing :
      (n steps k : ℕ) (inputs : Inputs fl g) (l : Loop fl g)
      → IsSmooth fl g n steps inputs
      → Looped n k l
      → Returns
          (shutdown inputs.client_stderr inputs.stderr l.processes)
          (λ pm. IsClosing n pm × ((key : ℕ) → key < n → Has pm.workers key))
  shutdown-IsClosing n steps k inputs l smooth looped =
      let (pm, e, (replicas, clients, _)) =
        Returns-ok (shutdown inputs.client_stderr inputs.stderr l.processes)
          (λ pm.
            AllDone pm.workers
            × AllDone pm.client_workers
            × ((decide_bug pm).bug_candidate ≡ false))
          (shutdown-AllDone inputs.client_stderr inputs.stderr l.processes looped.no_bug
            smooth.quiet looped.clients looped.replicas) in
      let stopped = shutdown-Stopped inputs.client_stderr inputs.stderr l.processes pm e in
      rw e (
        record {
          replicas = replicas;
          clients = clients;
          wait_group = stopped.wait_group ∙ looped.wait_group;
          bug = stopped.bug ∙ looped.no_bug;
        },
        λ key lk. stopped.has key (looped.has key lk),
      )

  run_all_listen :
      (listen : ℕ → Option Text) (nm : Manager)
      → ((i : ℕ) → listen i ≡ none)
      → Filled (length nm.interceptors) nm.interceptors
      → nm.wait_group ≡ 0
      → Returns
          (Manager.run listen nm)
          λ nm'. (nm'.wait_group ≡ 0) × (nm'.channels ≡ nm.channels) × (nm'.heap ≡ nm.heap)
  run_all_listen listen nm listens filled counter =
      let (nm', e, sum) =
        Returns-ok (Manager.run listen nm)
          (λ nm'. nm'.wait_group ≡ nm.wait_group + failures listen 0 (length nm.interceptors))
          (run-wait_group listen nm filled) in
      let (channels, heap) = run-keeps listen nm nm' e in
      let none_failed = failures-none listen listens 0 (length nm.interceptors) in
      rw e (omega arith, channels, heap)

  module _ (out : Outside fl g) (frames : List ℕ → List Frame) (decimal : ℕ → Text) where
    next_iteration-random :
        (k : ℕ) (s : Scheduler fl g)
        → kind fl g s ≡ SchedulerType.random
        → Steady fl g k s
        → Returns
            (Strategy.next_iteration fl g out s)
            (λ s'. (kind fl g s' ≡ SchedulerType.random) × Steady fl g k s')
    unfolding Strategy.next_iteration RandomScheduler.next_iteration
    next_iteration-random k (random s) e steady = (refl, steady)
    next_iteration-random k (ql s) e steady = cc
    next_iteration-random k (pct s) e steady = cc
    next_iteration-random k (replay s) e steady = cc

    closing-Closed :
        (n steps k : ℕ) (inputs : Inputs fl g) (l : Loop fl g) (pm : ProcessManager)
        → IsSmooth fl g n steps inputs
        → Looped n k l
        → IsClosing n pm
        → ((key : ℕ) → key < n → Has pm.workers key)
        → Returns
            (happen_all fl g frames inputs.closing (record l { processes = pm }))
            (Closed fl g frames (record l { processes = pm }))
    closing-Closed n steps k inputs l pm smooth looped closing has = rw smooth.closing (
        happen_all-Closed fl g frames smooth.keys (record l { processes = pm })
          (rw smooth.all_keys.0 closing)
          (All-map (λ key. key < n) (Has pm.workers) smooth.keys has smooth.all_keys.1)
          looped.going)

    pub end_iteration-Ended :
        (n steps k : ℕ) (inputs : Inputs fl g) (it : Iterating fl g) (l : Loop fl g)
        → IsSmooth fl g n steps inputs
        → Looped n k l
        → Returns (end_iteration fl g out frames decimal inputs it l) (Ended k l it)
    unfolding Shutdown.shutdown wait_all
    end_iteration-Ended n steps k inputs it l smooth looped =
        Returns-bind _ _ (λ pm. IsClosing n pm × ((key : ℕ) → key < n → Has pm.workers key)) _
          (shutdown-IsClosing n steps k inputs l smooth looped)
          λ pm (closing, has). rw (shutdown_all-Filled l.network.interceptors looped.filled) (
            Returns-bind _ _ (Closed fl g frames (record l { processes = pm })) _
              (closing-Closed n steps k inputs l pm smooth looped closing has)
              λ l' closed.
                let filled : Filled (length l'.network.interceptors) l'.network.interceptors =
                  rw closed.network looped.filled in
                Returns-bind _ _
                  (λ nm'.
                    (nm'.wait_group ≡ 0)
                    × (nm'.channels ≡ l'.network.channels)
                    × (nm'.heap ≡ l'.network.heap))
                  _
                  (run_all_listen inputs.listen l'.network smooth.listens filled
                    (rw closed.network looped.counter))
                  λ nm (counter, channels, heap).
                    rw (counter, closed.ended, closed.no_bug)
                      (Returns-bind _ _
                        (λ s. (kind fl g s ≡ SchedulerType.random) × Steady fl g k s) _
                        (next_iteration-random k l'.scheduler (rw closed.scheduler looped.strategy)
                          (rw closed.scheduler looped.steady))
                        λ s (strategy, steady). record {
                          manager = record nm { wait_group = 0 };
                          engine = refl;
                          error = refl;
                          logs = refl;
                          counter = refl;
                          channels = channels ∙ ap (λ (nm : Manager). nm.channels) closed.network;
                          heap = heap ∙ ap (λ (nm : Manager). nm.heap) closed.network;
                          strategy = strategy;
                          steady = steady;
                        }))
