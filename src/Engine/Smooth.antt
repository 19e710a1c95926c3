-- ===== src/Engine/Smooth.antt =====
-- cmd/dstest/engine/TestEngine.go: an iteration with the random strategy in which all goes well.
use dstest.Prelude.{
  ℕ, ◌^◌, ◌≡◌, ◌≢◌, ◌<◌, ◌≤◌, refl, true, inl, List, [], ◌∷◌, Bool, none, ok, length, All, arith,
}
use dstest.Prelude.Machine.{Floats, Generator}
use dstest.Network.Interceptor.{create_interceptor}
use dstest.Network.Manager.{Manager, pair_of}
use dstest.Network.Manager.Queueing.{passes}
use dstest.Network.Manager.Pending.{All-map}
use dstest.Faults
use dstest.Faults.{FaultManager}
use dstest.Process.{Worker, start_all, start_worker}
use dstest.Process.Start.{Numbered}
use dstest.Process.Stop.{IsSound, IsQuiet}
use dstest.Scheduling.Decision.{SchedulerType}
use dstest.Scheduling.Strategy.Kinds.{kind}
use dstest.Engine.{Happening, TestEngine, Round}
use dstest.Engine.Runs.{Inputs, Iterating}
use dstest.Engine.Arrivals.{IsArrival}
use dstest.Engine.Sending.{Steady}
use dstest.Engine.Busy.{IsBusy, arrivals}
use dstest.Engine.Flow.{Brings}
use dstest.Engine.Kept.{IsCalm}
use dstest.Engine.Closing.{closing_of}

-- Where every request passes, one that arrives is enough.
pub arrival-Brings :
    (n : ℕ) (nm : Manager) (hs : List Happening)
    → ((port : ℕ) → passes n nm (pair_of nm port) ≡ true)
    → All IsArrival hs
    → 0 < length hs
    → Brings n nm hs
arrival-Brings n nm [] all_pass a h = absurd (omega arith)
arrival-Brings n nm (Happening.arrives payload port ∷ hs) all_pass a h = inl (all_pass port)
arrival-Brings n nm (Happening.replica_ends ending key ∷ hs) all_pass a h = absurd a.0
arrival-Brings n nm (Happening.client_ends ending key ∷ hs) all_pass a h = absurd a.0
arrival-Brings n nm (Happening.run_ends ∷ hs) all_pass a h = absurd a.0

pub start_all-IsSound :
    (launched : ℕ → Bool) (workers : List (ℕ × Worker))
    → ((key : ℕ) → launched key ≡ true)
    → All IsSound (start_all launched workers)
unfolding start_worker
start_all-IsSound launched [] all_launched = tt
start_all-IsSound launched ((key, worker) ∷ workers) all_launched =
    ((all_launched key, refl), start_all-IsSound launched workers all_launched)

module _ (fl : Floats) (g : Generator fl.F) where
  -- An engine whose configuration can be carried out, in which no interceptor has failed so far, and no
  -- channel is closed that was not made.
  pub record IsFit (te : TestEngine fl g) : Type 0 where
    pub protocol : create_interceptor te.config.network_config.protocol ≢ none
    pub some_node : 0 < te.config.process_config.num_replicas
    pub some_script : 0 < length te.config.process_config.client_scripts
    pub ids : Numbered te.config.process_config.num_replicas te.replica_ids
    pub params :
        te.config.process_config.num_replicas ≤ length te.config.process_config.replica_params
    pub planned :
        (fm : FaultManager) × (Faults.init te.config.fault_config (record { faults = [] })
          ≡ ok (fm, none))
    pub counter : te.network_manager.wait_group ≡ 0
    pub channels : All (λ c. c < te.network_manager.heap) te.network_manager.channels

  -- Between two iterations with the random strategy.
  pub record CanIterate (it : Iterating fl g) : Type 0 where
    pub fit : IsFit it.engine
    pub open fit use *
    pub strategy : kind fl g it.scheduler ≡ SchedulerType.random
    pub steady : Steady fl g (length it.engine.config.process_config.client_scripts) it.scheduler

  -- What comes from outside in an iteration where all goes well: every port can be listened on and every
  -- process is launched; a request comes before each round and nothing but requests during the
  -- loop, for as many rounds as there are steps; no process writes to the first line of its error
  -- file; and after the shutdown each replica's process ends, and then `ProcessManager.Run`.
  pub record IsSmooth (n steps : ℕ) (inputs : Inputs fl g) : Type 0 where
    pub listens : (i : ℕ) → inputs.listen i ≡ none
    pub launches : (key : ℕ) → inputs.launched key ≡ true
    pub calm : All (IsCalm fl g) inputs.rounds
    pub fed : All (λ (round : Round fl g). 0 < length round.before) inputs.rounds
    pub few : arrivals fl g inputs.rounds < 2 ^ 64
    pub enough : steps ≤ length inputs.rounds
    pub quiet : (key : ℕ) → IsQuiet (inputs.client_stderr key) × IsQuiet (inputs.stderr key)
    pub keys : List ℕ
    pub all_keys : (length keys ≡ n) × All (λ key. key < n) keys
    pub closing : inputs.closing ≡ closing_of keys

  pub All-IsBusy :
      (rounds : List (Round fl g)) → All (IsCalm fl g) rounds → All (IsBusy fl g) rounds
  All-IsBusy rounds calm = All-map (IsCalm fl g) (IsBusy fl g) rounds (λ round c. c.0) calm

  pub all_bring :
      (n : ℕ) (nm : Manager) (rounds : List (Round fl g))
      → ((port : ℕ) → passes n nm (pair_of nm port) ≡ true)
      → All (IsCalm fl g) rounds
      → All (λ (round : Round fl g). 0 < length round.before) rounds
      → All (λ (round : Round fl g). Brings n nm round.before) rounds
  all_bring n nm [] all_pass calm fed = tt
  all_bring n nm (round ∷ rounds) all_pass calm fed = (
    arrival-Brings n nm round.before all_pass calm.0.0.0 fed.0,
    all_bring n nm rounds all_pass calm.1 fed.1,
  )
