-- ===== src/Examples/Processes.antt =====
-- Two replicas and a client: a crash, a restart and ends; and the faults of a configuration.
use dstest.Prelude.{ℕ, ◌+◌, ◌≡◌, refl, Bool, true, false, List, [], ◌∷◌, ok, pos, Returns}
use dstest.Prelude.Text.{codes}
use dstest.Config.{FaultConfig, int}
use dstest.Process.{
  Worker, ProcessManager, ProcessStatus, running, done, crashed, replica, exited, finish_worker,
  kill_worker, crash_worker, restart_worker, start_worker, finish_replica, crash_replica,
  crash_found, restart_replica, restart_found,
}
use dstest.Process.Accounting
use dstest.Process.Accounting.{Session, session-balance}
use dstest.Faults
use dstest.Faults.{
  FaultContext, FaultManager, always_enabled, dummy, nothing, crash_replica_behavior,
  isolate_node_behavior, apply_faults, get_enabled_faults,
}
use dstest.Faults.Plan.{run_behaviors, Planned, apply_faults-enabled, init-Planned}

abbrev worker : ℕ → ProcessStatus → Worker
worker id status = record {
  run_script = codes "run.sh";
  clean_script = [];
  num_replicas = 2;
  base_interceptor_port = 9000;
  worker_id = id;
  type = replica;
  params = [];
  timeout_seconds = 10;
  status = status;
  launched = true;
}

abbrev pub manager : ProcessStatus → ProcessStatus → ℕ → List (ℕ × Bool) → ProcessManager
manager first second wait_group crashes = record {
  workers = (0, worker 0 first) ∷ (1, worker 1 second) ∷ [];
  client_workers = [];
  client_ids = [];
  client_id_counter = 0;
  crashed_workers = crashes;
  wait_group = wait_group;
  iteration = 0;
  bug_candidate = false;
}

abbrev pub both_running : ProcessManager
both_running = manager running running 2 []

abbrev one_crashed : ProcessManager
one_crashed = manager running crashed 1 ((1, true) ∷ [])

abbrev one_ended : ProcessManager
one_ended = manager done crashed 0 ((1, true) ∷ [])

abbrev one_again : ProcessManager
one_again = manager done running 1 ((1, true) ∷ [])

crash_second : crash_replica (pos 1) both_running ≡ ok (one_crashed, true)
unfolding crash_replica crash_found crash_worker kill_worker
crash_second = refl

end_first : finish_replica exited 0 one_crashed ≡ ok one_ended
unfolding finish_replica finish_worker
end_first = refl

restart_second : restart_replica true (pos 1) one_ended ≡ ok (one_again, true)
unfolding restart_replica restart_found restart_worker start_worker
restart_second = refl

crash_end_restart : Session both_running 1 1 1 one_again
crash_end_restart =
    Accounting.restarted true (pos 1)
      (Accounting.ended exited 0 (Accounting.crashed (pos 1) Accounting.begun crash_second)
        end_first)
      restart_second

session-balance_example : one_again.wait_group + 1 + 1 ≡ both_running.wait_group + 1
session-balance_example = session-balance both_running one_again 1 1 1 crash_end_restart

abbrev faults : FaultManager
faults = record {
  faults =
      record { precondition = dummy; behavior = nothing }
      ∷ record { precondition = always_enabled; behavior = crash_replica_behavior (pos 1) }
      ∷ [];
}

abbrev context : FaultContext
context = record {
  router = record { routing_table = (true ∷ true ∷ []) ∷ (true ∷ true ∷ []) ∷ [] };
  process_manager = both_running;
}

apply_faults-enabled_example :
    apply_faults true faults context ≡ run_behaviors true (get_enabled_faults faults) context
apply_faults-enabled_example = apply_faults-enabled true faults context

abbrev config : FaultConfig ℕ
config = record {
  faults =
      record { type = codes "Crash"; params = (codes "node", int (pos 1)) ∷ [] }
      ∷ record { type = codes "dummy"; params = [] }
      ∷ record { type = codes "isolate"; params = (codes "nodeId", int (pos 0)) ∷ [] }
      ∷ [];
}

init-Planned_example : Returns (Faults.init config faults) (Planned 3)
init-Planned_example = init-Planned config faults (refl, (refl, (refl, tt)))
