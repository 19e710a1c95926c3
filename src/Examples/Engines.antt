-- ===== src/Examples/Engines.antt =====
-- An engine of two replicas, with a message that waits and without one.
use dstest.Prelude.{
  out_of_fuel, Returns-ok, zero, suc, inl, ℕ, ◌≡◌, refl, false, true, [], ◌∷◌, none, ok, pos, arith,
  Returns,
}
use dstest.Prelude.Text.{Text, codes}
use dstest.Network.Manager.{get_actions, pair_of}
use dstest.Network.Queue
use dstest.Network.Message.{bytes}
use dstest.Scheduling.Decision.{SchedulerType}
use dstest.Scheduling.Replay.{ReplayScheduler}
use dstest.Scheduling.Strategy.{Outside, Scheduler, random, replay, pct}
use dstest.Engine.{TestEngine, Round, Loop, Happening, happen_all, run_steps}
use dstest.Engine.Faultless.{run_steps-same}
use dstest.Engine.Idle.{IsIdle, run_steps_idle}
use dstest.Engine.Backlog.{run_steps_backlog}
use dstest.Engine.Busy.{Ready, IsDone}
use dstest.Engine.Schedule.{IsLogged, run_steps-IsLogged}
use dstest.Engine.Flow.{Brings, run_steps_flow}
use dstest.Faults.{FaultManager, always_enabled, crash_replica_behavior}
use dstest.Scheduling.Pct.{Pct}
use dstest.Scheduling.Pct.Choice.{NoneFrom}
use dstest.Engine.Starved.{IsStarved, run_steps_starved}
use dstest.Examples.Strategies.{naturals, alternating, config, client}
use dstest.Examples.Messages.{
  frames, idle, one_waiting, one_waiting-IsConsistent, idle-IsConsistent,
}
use dstest.Examples.Processes.{both_running}

abbrev pub outside : Outside naturals alternating
outside = record {
  fuel = 10;
  file = λ name. none;
  defaults = record { alpha = 1; gamma = 1; epsilon = 1 };
  clock = pos 5;
  hash = λ messages. 50;
}

abbrev pub decimal : ℕ → Text
decimal k = []

abbrev pub engine : SchedulerType → ℕ → TestEngine naturals alternating
engine type steps = record {
  config = config;
  experiments = 1;
  iterations = 2;
  steps = steps;
  replica_ids = 0 ∷ 1 ∷ [];
  scheduler_type = type;
  network_manager = idle;
  fault_manager = record { faults = [] };
}

abbrev pub at_random : Scheduler naturals alternating
at_random = random (record { config = config; client = client 2 })

abbrev one_step_in : Loop naturals alternating
one_step_in = record {
  scheduler = at_random;
  network = one_waiting;
  processes = both_running;
  ended = false;
  schedule = [];
  s = 1;
}

abbrev nothing_waits : Loop naturals alternating
nothing_waits = record one_step_in { network = idle }

abbrev quiet_round : Round naturals alternating
quiet_round = record { before = []; meanwhile = []; draw = 0; launched = true }

abbrev busy_round : Round naturals alternating
busy_round = record {
  before = Happening.arrives (bytes []) 9002 ∷ [];
  meanwhile = Happening.arrives (bytes []) 9001 ∷ [];
  draw = 0;
  launched = true;
}

one_step_in-Ready :
    Ready naturals alternating outside frames decimal (engine SchedulerType.random 2) 2 one_step_in
one_step_in-Ready = record { steady = refl; consistent = one_waiting-IsConsistent; no_bug = refl }

run_steps_backlog_example :
    Returns
      (run_steps naturals alternating outside frames decimal
        (engine SchedulerType.random 2)
        (busy_round ∷ [])
        one_step_in)
      (IsDone naturals alternating outside frames decimal
        (engine SchedulerType.random 2)
        2
        one_step_in)
run_steps_backlog_example =
    run_steps_backlog naturals alternating outside frames decimal (engine SchedulerType.random 2) 2
      (busy_round ∷ []) one_step_in (omega arith) one_step_in-Ready (((tt, tt), (tt, tt)), tt)
      (omega arith) (omega arith) (omega arith) (omega arith)

nothing_waits-IsIdle : IsIdle naturals alternating 2 nothing_waits
unfolding get_actions Queue.peek
nothing_waits-IsIdle = record { nothing_waits = refl; no_bug = refl; strategy = refl }

run_steps_idle_example :
    run_steps naturals alternating outside frames decimal
      (engine SchedulerType.random 2)
      (quiet_round ∷ quiet_round ∷ [])
      nothing_waits
    ≡ out_of_fuel
run_steps_idle_example =
    run_steps_idle naturals alternating outside frames decimal (engine SchedulerType.random 2)
      (quiet_round ∷ quiet_round ∷ []) nothing_waits (omega arith)
      ((refl, refl), ((refl, refl), tt)) nothing_waits-IsIdle (omega arith)

abbrev one_action : ReplayScheduler
one_action = record { actions = [] ∷ []; index = 0 }

abbrev replaying : Loop naturals alternating
replaying = record nothing_waits { scheduler = replay one_action }

no_action : get_actions idle.message_queues ≡ []
unfolding get_actions Queue.peek
no_action = refl

nothing_meanwhile :
    happen_all naturals alternating frames []
      (record replaying { scheduler = replay (record one_action { index = 1 }) })
    ≡ ok (record replaying { scheduler = replay (record one_action { index = 1 }) })
unfolding happen_all
nothing_meanwhile = refl

abbrev one_fault : FaultManager
one_fault = record {
  faults = record { precondition = always_enabled; behavior = crash_replica_behavior (pos 1) } ∷ [];
}

run_steps-same_example :
    run_steps naturals alternating outside frames decimal
      (record (engine SchedulerType.random 2) { fault_manager = one_fault })
      (busy_round ∷ [])
      one_step_in
    ≡ run_steps naturals alternating outside frames decimal
        (engine SchedulerType.random 2)
        (busy_round ∷ [])
        one_step_in
run_steps-same_example =
    run_steps-same naturals alternating outside frames decimal (engine SchedulerType.random 2)
      one_fault (busy_round ∷ []) one_step_in

abbrev first_priority : Pct naturals alternating
first_priority = record {
  config = config;
  client = client 2;
  depth = 0;
  initial_priorities = 1 ∷ 0 ∷ [];
  priority_change_points = [];
  num_priority_change = 0;
  step = 3;
}

abbrev by_priority : Loop naturals alternating
by_priority = record one_step_in { scheduler = pct first_priority }

hello_from_first : NoneFrom 1 (get_actions one_waiting.message_queues)
unfolding get_actions Queue.peek
hello_from_first zero m found from = ground (arith, found, from)
hello_from_first (suc j) m found from = ground (arith, found)

first_priority-IsStarved :
    IsStarved naturals alternating outside (get_actions one_waiting.message_queues) first_priority
first_priority-IsStarved = record {
  ready = record { points = refl; priorities = omega arith; counted = omega arith };
  passed = inl (omega arith);
  starved = hello_from_first;
}

run_steps_starved_example :
    run_steps naturals alternating outside frames decimal
      (engine SchedulerType.pct 2)
      (quiet_round ∷ quiet_round ∷ [])
      by_priority
    ≡ out_of_fuel
run_steps_starved_example =
    run_steps_starved naturals alternating outside frames decimal (engine SchedulerType.pct 2)
      (quiet_round ∷ quiet_round ∷ []) by_priority first_priority (omega arith)
      ((refl, refl), ((refl, refl), tt)) refl refl first_priority-IsStarved refl (omega arith)

abbrev one_step_idle : Loop naturals alternating
one_step_idle = record one_step_in { network = idle }

one_step_idle-Ready :
    Ready naturals alternating outside frames decimal
      (engine SchedulerType.random 2)
      2
      one_step_idle
one_step_idle-Ready = record { steady = refl; consistent = idle-IsConsistent; no_bug = refl }

busy_round-Brings : Brings 2 idle busy_round.before
unfolding pair_of
busy_round-Brings = inl refl

run_steps_flow_example :
    Returns
      (run_steps naturals alternating outside frames decimal
        (engine SchedulerType.random 2)
        (busy_round ∷ [])
        one_step_idle)
      (IsDone naturals alternating outside frames decimal
        (engine SchedulerType.random 2)
        2
        one_step_idle)
run_steps_flow_example =
    run_steps_flow naturals alternating frames 2 outside decimal (engine SchedulerType.random 2)
      (busy_round ∷ []) one_step_idle (omega arith) one_step_idle-Ready (((tt, tt), (tt, tt)), tt)
      (omega arith) (omega arith) (omega arith) (busy_round-Brings, tt)

-- One step is done, and its message is in the schedule.
abbrev one_entry : Loop naturals alternating
one_entry = record one_step_in {
  schedule = record { sender = pos 0; receiver = pos 1; name = codes "Put" } ∷ [];
}

one_entry-Ready :
    Ready naturals alternating outside frames decimal (engine SchedulerType.random 2) 2 one_entry
one_entry-Ready = record { steady = refl; consistent = one_waiting-IsConsistent; no_bug = refl }

finished_loop :
    (l : Loop naturals alternating) × (run_steps naturals alternating outside frames decimal
        (engine SchedulerType.random 2)
        (busy_round ∷ [])
        one_entry
      ≡ ok l)
    × IsDone naturals alternating outside frames decimal
        (engine SchedulerType.random 2)
        2
        one_entry
        l
finished_loop =
    Returns-ok _
      (IsDone naturals alternating outside frames decimal (engine SchedulerType.random 2) 2
        one_entry)
      (run_steps_backlog naturals alternating outside frames decimal (engine SchedulerType.random 2)
        2 (busy_round ∷ []) one_entry (omega arith) one_entry-Ready (((tt, tt), (tt, tt)), tt)
        (omega arith) (omega arith) (omega arith) (omega arith))

run_steps-IsLogged_example : IsLogged naturals alternating finished_loop.0
run_steps-IsLogged_example =
    run_steps-IsLogged naturals alternating outside frames decimal (engine SchedulerType.random 2)
      (busy_round ∷ []) one_entry finished_loop.0 finished_loop.1 refl
