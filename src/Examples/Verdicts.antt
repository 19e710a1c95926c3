-- ===== src/Examples/Verdicts.antt =====
-- The iteration of a replica that failed.
use dstest.Prelude.{pos, false, ◌≡◌, refl, true, [], ◌∷◌, ok}
use dstest.Prelude.Text.{codes}
use dstest.Network.Manager
use dstest.Network.Manager.{get_actions, pair_of}
use dstest.Network.Interceptor.{create_interceptor}
use dstest.Scheduling.Decision.{SchedulerType}
use dstest.Scheduling.Strategy
use dstest.Scheduling.Strategy.{Outside, Scheduler, random, ql, replay, pct}
use dstest.Engine.Runs.{Inputs, end_iteration, wait_all}
use dstest.Engine.{
  Loop, run_steps, run_round, request, execute, execute_as, send, happen, happen_all,
}
use dstest.Engine.Closing.{closing_of}
use dstest.Engine.Verdict.{failed_replica_logged}
use dstest.Process.{
  Worker, replica, running, exception, start_worker, stop_worker, kill_worker, finish_replica,
  finish_worker, decide_bug,
}
use dstest.Process.Lifecycle.{init_worker, shutdown, stop_all, stop_if}
use dstest.Process.Clients.{run_client, generate_client_worker_config}
use dstest.Network.Manager.Shutdown
use dstest.Network.Queue
use dstest.Network.Queue.{pop_front}
use dstest.Network.Message.{send_message}
use dstest.Scheduling.RandomScheduler
use dstest.Scheduling.Requests
use dstest.Prelude.Machine.{intn}
use dstest.Network.Interceptor
use dstest.Engine.Runs.{Iterating}
use dstest.Examples.Strategies.{naturals, alternating}
use dstest.Examples.Messages.{frames, one_waiting}
use dstest.Examples.Engines.{outside, decimal, engine, at_random}
use dstest.Examples.Runs.{inputs, http2c_iterating}

abbrev first_worker : Worker
first_worker = record {
  run_script = [];
  clean_script = [];
  num_replicas = 2;
  base_interceptor_port = 9000;
  worker_id = 0;
  type = replica;
  params = [];
  timeout_seconds = 10;
  status = running;
  launched = true;
}

-- One step is done, and the second replica has failed.
abbrev one_failed : Loop naturals alternating
one_failed = record {
  scheduler = at_random;
  network = one_waiting;
  processes = record {
    workers =
        (0, first_worker) ∷ (1, record first_worker { worker_id = 1; status = exception }) ∷ [];
    client_workers = [];
    client_ids = [];
    client_id_counter = 0;
    crashed_workers = [];
    wait_group = 1;
    iteration = 0;
    bug_candidate = false;
  };
  ended = false;
  schedule = record { sender = pos 0; receiver = pos 1; name = codes "Put" } ∷ [];
  s = 1;
}

abbrev failing_inputs : Inputs naturals alternating
failing_inputs = record inputs {
  rounds = record { before = []; meanwhile = []; draw = 0; launched = true } ∷ [];
  closing = closing_of (0 ∷ []);
}

abbrev failing_iterating : Iterating naturals alternating
failing_iterating = record http2c_iterating { engine = engine SchedulerType.random 2 }

failing_loop :
    (l : Loop naturals alternating) × (run_steps naturals alternating outside frames decimal
        failing_iterating.engine failing_inputs.rounds one_failed
      ≡ ok l)
unfolding run_steps happen_all run_round request execute execute_as send get_actions Queue.peek
    Strategy.get_client_request Strategy.next RandomScheduler.get_client_request
    RandomScheduler.next Requests.get_client_request intn run_client generate_client_worker_config
    init_worker start_worker Manager.send_message_by_id Manager.release Manager.release_head
    send_message pop_front
failing_loop = (_, refl)

failing_end :
    (it : Iterating naturals alternating) × (end_iteration naturals alternating outside frames
        decimal failing_inputs failing_iterating failing_loop.0
      ≡ ok it)
unfolding shutdown stop_all stop_if stop_worker kill_worker Shutdown.shutdown Shutdown.shutdown_all
    Shutdown.shutdown_interceptor happen_all happen finish_replica finish_worker decide_bug
    Manager.run Manager.run_all Manager.run_interceptor Manager.finish Interceptor.run wait_all
    Strategy.next_iteration RandomScheduler.next_iteration failing_loop
failing_end = (_, refl)

failed_replica_logged_example : failing_end.0.logs ≡ failing_loop.0.schedule ∷ []
failed_replica_logged_example =
    failed_replica_logged naturals alternating 1 outside frames decimal failing_inputs
      failing_iterating failing_end.0 one_failed failing_loop.0
      (record { failed = (_, refl, refl); noticed = λ ended. absurd (cc) }) ((tt, tt), tt)
      (refl, (tt, tt)) failing_loop.1 failing_end.1
