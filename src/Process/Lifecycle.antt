-- ===== src/Process/Lifecycle.antt =====
-- cmd/dstest/process: how `ProcessManager.Init` makes its workers, and what `Shutdown` does with them.
-- Directories and log files are left out: an error there is only logged.
use dstest.Prelude.{
  ℕ, ◌&&◌, not, Bool, List, [], ◌∷◌, ◌++◌, Option, Outcome, ok, nil_dereference, ◌>>=◌, pos, at,
  for_range, find, assign, or_panic, if◌then◌else◌,
}
use dstest.Prelude.Text.{Text}
use dstest.Config.{Config}
use dstest.Process.{
  ProcessType, replica, client, initialized, Worker, ProcessManager, Ending, finish_worker,
  stop_worker, is_stoppable, is_done,
}

-- The map that `Worker.Init` reads.
pub record WorkerConfig : Type 0 where
  pub run_script : Text
  pub clean_script : Text
  pub worker_id : ℕ
  pub type : ProcessType
  pub base_interceptor_port : ℕ
  pub num_replicas : ℕ
  pub params : Text
  pub timeout : ℕ

-- A client's map has none of the fields that only a replica's worker takes.
unfoldable pub init_worker : WorkerConfig → Worker
init_worker conf = elim conf.type [
  | replica ↦ record {
    run_script = conf.run_script;
    clean_script = conf.clean_script;
    num_replicas = conf.num_replicas;
    base_interceptor_port = conf.base_interceptor_port;
    worker_id = conf.worker_id;
    type = replica;
    params = conf.params;
    timeout_seconds = conf.timeout;
    status = initialized;
    launched = Bool.false;
  }
  | client ↦ record {
    run_script = conf.run_script;
    clean_script = [];
    num_replicas = 0;
    base_interceptor_port = 0;
    worker_id = conf.worker_id;
    type = client;
    params = [];
    timeout_seconds = conf.timeout;
    status = initialized;
    launched = Bool.false;
  }
]

-- The body of the loop that makes the workers.
unfoldable pub add_worker : List WorkerConfig → ℕ → List (ℕ × Worker) → Outcome (List (ℕ × Worker))
add_worker configs i workers = do
  conf ← at configs (pos i)
  ok (assign conf.worker_id (init_worker conf) workers)

module _ {F : Type 0} where
  -- The body of the loop for one replica.
  unfoldable pub replica_worker_config : Config F → List ℕ → ℕ → Outcome WorkerConfig
  replica_worker_config config worker_ids i = do
    id ← at worker_ids (pos i)
    params ← at config.process_config.replica_params (pos i)
    ok (record {
      run_script = config.process_config.replica_script;
      clean_script = config.process_config.clean_script;
      worker_id = id;
      type = replica;
      base_interceptor_port = config.network_config.base_interceptor_port;
      num_replicas = config.process_config.num_replicas;
      params = params;
      timeout = config.process_config.timeout;
    })

  unfoldable pub generate_replica_worker_config : Config F → List ℕ → Outcome (List WorkerConfig)
  generate_replica_worker_config config worker_ids =
      for_range config.process_config.num_replicas 0
        (λ i configs. do
          conf ← replica_worker_config config worker_ids i
          ok (configs ++ conf ∷ []))
        []

  unfoldable pub init : Config F → List ℕ → ℕ → Outcome ProcessManager
  init config worker_ids iteration = do
    configs ← generate_replica_worker_config config worker_ids
    workers ← for_range config.process_config.num_replicas 0 (add_worker configs) []
    ok (record {
      workers = workers;
      client_workers = [];
      client_ids = [];
      client_id_counter = 0;
      crashed_workers = [];
      wait_group = 0;
      iteration = iteration;
      bug_candidate = Bool.false;
    })

-- The end of a client's goroutine.
unfoldable pub finish_client : Ending → ℕ → ProcessManager → Outcome ProcessManager
finish_client ending key pm = do
  worker ← or_panic nil_dereference (find key pm.client_workers)
  worker' ← finish_worker ending worker
  ok (record pm { client_workers = assign key worker' pm.client_workers })

-- The end of the process of a worker that was restarted. `RestartReplica` runs the worker itself, so its
-- caller waits until here, and no `Done` follows.
unfoldable pub finish_restarted : Ending → ℕ → ProcessManager → Outcome ProcessManager
finish_restarted ending key pm = do
  worker ← or_panic nil_dereference (find key pm.workers)
  worker' ← finish_worker ending worker
  ok (record pm { workers = assign key worker' pm.workers })

-- `stderr key` is the error file of the worker with that key.
unfoldable pub stop_if : (Worker → Bool) → (ℕ → Option Text) → ℕ → Worker → Outcome Worker
stop_if test stderr key worker = if test worker then stop_worker (stderr key) worker else ok worker

unfoldable pub stop_all :
    (Worker → Bool) → (ℕ → Option Text) → List (ℕ × Worker) → Outcome (List (ℕ × Worker))
stop_all test stderr [] = ok []
stop_all test stderr ((key, worker) ∷ workers) = do
  worker' ← stop_if test stderr key worker
  workers' ← stop_all test stderr workers
  ok ((key, worker') ∷ workers')

-- The tests of the two loops.
abbrev pub stops_client : Worker → Bool
stops_client worker = is_stoppable worker.status && not (is_done worker.status)

abbrev pub stops_replica : Worker → Bool
stops_replica worker = is_stoppable worker.status

unfoldable pub shutdown :
    (ℕ → Option Text) → (ℕ → Option Text) → ProcessManager → Outcome ProcessManager
shutdown client_stderr stderr pm = do
  client_workers ← stop_all stops_client client_stderr pm.client_workers
  workers ← stop_all stops_replica stderr pm.workers
  ok (record pm { client_workers = client_workers; workers = workers })
