-- ===== src/Process/Clients.antt =====
-- cmd/dstest/process/process.go: how a client is started. Its directory and its log files are left out:
-- an error there is only logged.
use dstest.Prelude.{
  ℕ, ◌+◌, Bool, [], ◌∷◌, ◌++◌, Outcome, ok, index_out_of_range, ◌>>=◌, assign, or_panic, get_elem?,
}
use dstest.Config.{ProcessConfig}
use dstest.Process.{client, start_worker, ProcessManager}
use dstest.Process.Lifecycle.{WorkerConfig, init_worker}

-- A client's map has none of the fields that only a replica's worker takes.
unfoldable pub generate_client_worker_config :
    ProcessConfig → ℕ → ProcessManager → Outcome (ProcessManager × WorkerConfig)
generate_client_worker_config config client_type pm = do
  script ← or_panic index_out_of_range (get_elem? config.client_scripts client_type)
  let id = pm.client_id_counter + 1
  ok (
    record pm { client_id_counter = id },
    record {
      run_script = script;
      clean_script = [];
      worker_id = id;
      type = client;
      base_interceptor_port = 0;
      num_replicas = 0;
      params = [];
      timeout = config.timeout;
    },
  )

-- `RunClient`, with the start of the client's goroutine.
unfoldable pub run_client : ProcessConfig → Bool → ℕ → ProcessManager → Outcome ProcessManager
run_client config launched client_type pm = do
  (pm', conf) ← generate_client_worker_config config client_type pm
  ok (record pm' {
    client_workers =
        assign conf.worker_id (start_worker launched (init_worker conf)) pm'.client_workers;
    client_ids = pm'.client_ids ++ conf.worker_id ∷ [];
  })
