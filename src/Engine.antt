-- ===== src/Engine.antt =====
-- cmd/dstest/engine/TestEngine.go. The goroutines of the network and of the processes go on while the
-- engine runs: what they do is a list of happenings between two steps of the engine. The loop over
-- the steps has no bound, so it takes a list of rounds, and is out of fuel when they are used up.
pub mod Runs
pub mod Rounds
pub mod Schedule
pub mod Faultless
pub mod Learning
pub mod Unfinished
pub mod Arrivals
pub mod Sending
pub mod Busy
pub mod Progress
pub mod Backlog
pub mod Flow
pub mod Stuck
pub mod Idle
pub mod Starved
pub mod Silent
pub mod Kept
pub mod Closing
pub mod Smooth
pub mod Finish
pub mod Complete
pub mod Experiments
pub mod Supported
pub mod Verdict
use dstest.Prelude.{
  ℕ, zero, suc, ◌+◌, ◌==◌, ◌&&◌, not, ltb, Bool, true, false, List, [], ◌∷◌, ◌++◌, Option, none,
  some, Outcome, ok, panic, out_of_fuel, ◌>>=◌, ℤ, pos, negsuc, minus_one, at, for_range,
  if◌then◌else◌,
}
use dstest.Prelude.Text.{Text, codes, to_lower}
use dstest.Prelude.Machine.{Floats, Generator}
use dstest.Config.{Config}
use dstest.Network.Message.{Message, Payload}
use dstest.Network.Translator.{Frame}
use dstest.Network.Manager
use dstest.Network.Manager.{Manager, intercept, get_actions, send_message_by_id}
use dstest.Process.{ProcessManager, Ending, finish_replica, decide_bug, run_replicas}
use dstest.Process.Clients.{run_client, generate_client_worker_config}
use dstest.Process.Lifecycle.{finish_client, shutdown}
use dstest.Process.Lifecycle
use dstest.Faults
use dstest.Faults.{FaultManager, FaultContext, get_faults, apply_behavior_if_precondition_met}
use dstest.Scheduling.Decision.{
  SchedulerDecision, SchedulerType, DecisionType, no_op, send_message, inject_fault, new_scheduler,
}
use dstest.Scheduling.Strategy
use dstest.Scheduling.Strategy.{Outside, Scheduler}

pub record Action : Type 0 where
  pub sender : ℤ
  pub receiver : ℤ
  pub name : Text

-- A request at an interceptor; the end of a replica's or a client's process; the end of
-- `ProcessManager.Run` after its `Wait`.
pub data Happening : Type 0 where
  arrives : Payload → ℕ → Happening
  replica_ends client_ends : Ending → ℕ → Happening
  run_ends : Happening

-- `0, 1, …` up to the number of replicas.
unfoldable pub ids_from : ℕ → ℕ → List ℕ
ids_from zero i = []
ids_from (suc n) i = i ∷ ids_from n (i + 1)

module _ (fl : Floats) (g : Generator fl.F) where
  pub record TestEngine : Type 0 where
    pub config : Config fl.F
    pub experiments : ℕ
    pub iterations : ℕ
    pub steps : ℕ
    pub replica_ids : List ℕ
    pub scheduler_type : SchedulerType
    pub network_manager : Manager
    pub fault_manager : FaultManager

  pub data Started : Type 0 where
    started : TestEngine → Started
    refused : Text → Started

  -- `new(network.Manager)`
  abbrev pub new_manager : Manager
  new_manager = record {
    router = record { routing_table = [] };
    interceptors = [];
    message_queues = [];
    index = 0;
    wait_group = 0;
    replica_ids = [];
    port_map = [];
    message_type = [];
    chain_clocks = [];
    channels = [];
    heap = 0;
  }

  unfoldable pub init : Config fl.F → Outcome Started
  init config = elim (new_scheduler (to_lower config.scheduler_config.type)) [
    | none ↦ ok (
        refused (
          codes "Error initializing Scheduler: unknown scheduler type: "
          ++ to_lower config.scheduler_config.type))
    | some scheduler_type ↦ do
      (fm, error) ← Faults.init config.fault_config (record { faults = [] })
      ok (elim error [
        | some e ↦ refused (codes "Error initializing FaultManager: " ++ e)
        | none ↦ started (record {
          config = config;
          experiments = config.test_config.experiments;
          iterations = config.test_config.iterations;
          steps = config.scheduler_config.steps;
          replica_ids = ids_from config.process_config.num_replicas 0;
          scheduler_type = scheduler_type;
          network_manager = new_manager;
          fault_manager = fm;
        })
      ])
  ]

  -- What happens before a round of the step loop, what happens between the choice of the scheduler and its
  -- execution, the random number of the agent, and if a process is launched.
  pub record Round : Type 0 where
    pub before : List Happening
    pub meanwhile : List Happening
    pub draw : fl.F
    pub launched : Bool

  -- The variables of the step loop. `ended` says if `ProcessManager.Run` has returned.
  pub record Loop : Type 0 where
    pub scheduler : Scheduler fl g
    pub network : Manager
    pub processes : ProcessManager
    pub ended : Bool
    pub schedule : List Action
    pub s : ℕ

  module _ (frames : List ℕ → List Frame) where
    unfoldable pub happen : Happening → Loop → Outcome Loop
    happen (arrives payload port) l = do
      nm ← intercept frames payload port l.network
      ok (record l { network = nm })
    happen (replica_ends ending key) l = do
      pm ← finish_replica ending key l.processes
      ok (record l { processes = pm })
    happen (client_ends ending key) l = do
      pm ← finish_client ending key l.processes
      ok (record l { processes = pm })
    happen run_ends l =
        if l.processes.wait_group == 0 && not l.ended
        then ok (record l { processes = decide_bug l.processes; ended = true })
        else ok l

    unfoldable pub happen_all : List Happening → Loop → Outcome Loop
    happen_all [] l = ok l
    happen_all (h ∷ hs) l = happen h l >>= happen_all hs

  module _ (out : Outside fl g) (frames : List ℕ → List Frame) (decimal : ℕ → Text)
      (te : TestEngine) where
    abbrev pub request_name : ℕ → ℕ → Text
    request_name s sc = codes "ClientRequest_" ++ decimal s ++ codes "_" ++ decimal sc

    -- The request of a client, for the answer of the scheduler.
    unfoldable pub request : Bool → ℤ → Loop → Outcome Loop
    request launched (negsuc k) l = ok l
    request launched (pos sc) l = do
      pm ← run_client te.config.process_config launched sc l.processes
      ok (record l {
        processes = pm;
        schedule =
            l.schedule
            ++ record { sender = minus_one; receiver = minus_one; name = request_name l.s sc } ∷ [];
      })

    unfoldable pub send : List Message → ℕ → Loop → Outcome Loop
    send actions index l = do
      action ← at actions (pos index)
      nm ← send_message_by_id l.network action.message_id
      ok (record l {
        network = nm;
        schedule =
            l.schedule
            ++ record { sender = action.sender; receiver = action.receiver; name = action.name }
              ∷ [];
        s = l.s + 1;
      })

    -- `NewEngineFaultContext`: the engine's own network and processes.
    abbrev pub fault_context : Loop → FaultContext
    fault_context l = record { router = l.network.router; process_manager = l.processes }

    unfoldable pub inject : Bool → ℕ → Loop → Outcome Loop
    inject launched index l = do
      fault ← at (get_faults te.fault_manager) (pos index)
      context ← apply_behavior_if_precondition_met launched fault (fault_context l)
      ok (record l {
        network = record l.network { router = context.router };
        processes = context.process_manager;
      })

    unfoldable pub execute_as : DecisionType → Bool → List Message → ℕ → Loop → Outcome Loop
    execute_as no_op launched actions index l = ok l
    execute_as send_message launched actions index l = send actions index l
    execute_as inject_fault launched actions index l = inject launched index l

    unfoldable pub execute : Bool → List Message → SchedulerDecision → Loop → Outcome Loop
    execute launched actions d l = execute_as d.decision_type launched actions d.index l

    -- One round of the loop, after its tests.
    unfoldable pub run_round : Round → Loop → Outcome Loop
    run_round round l = do
      let actions = get_actions l.network.message_queues
      (sc, asked) ← Strategy.get_client_request fl g l.scheduler
      l' ← request round.launched sc (record l { scheduler = asked })
      (d, chosen) ← Strategy.next fl g out round.draw actions l'.scheduler
      l'' ← happen_all frames round.meanwhile (record l' { scheduler = chosen })
      execute round.launched actions d l''

    -- `for s := 0; s < te.Steps; { if BugCandidate { break }; … }`
    unfoldable pub run_steps : List Round → Loop → Outcome Loop
    run_steps [] l = if ltb l.s te.steps then out_of_fuel else ok l
    run_steps (round ∷ rounds) l =
        if ltb l.s te.steps
        then (do
          l' ← happen_all frames round.before l
          if l'.processes.bug_candidate then ok l' else (run_round round l' >>= run_steps rounds))
        else ok l
