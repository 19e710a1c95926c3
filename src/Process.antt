-- ===== src/Process.antt =====
-- cmd/dstest/process: the workers (worker.go) and the manager of the replicas' and the clients'
-- processes (process.go). A call of `RunWorker` blocks in its `select` until the process ends, so it is
-- two steps here, `start_worker` and `finish_worker`, and other steps come between them. The operating
-- system says if a process was launched, how it ended, and what is in its error file.
pub mod Status
pub mod Accounting
pub mod Lifecycle
pub mod Clients
pub mod Start
pub mod Stop
pub mod Closing
use dstest.Prelude.{
  ℕ, zero, suc, ◌+◌, ◌==◌, ◌||◌, ◌&&◌, not, Bool, true, false, List, [], ◌∷◌, ◌++◌, Option, none,
  some, Outcome, ok, panic, nil_dereference, negative_wait_group, index_out_of_range,
  invalid_argument, ◌>>=◌, ℤ, pos, eq_ℤ, find, assign, if◌then◌else◌, length, get_elem?, or_panic,
}
use dstest.Prelude.Text.{Text, codes, split}
use dstest.Config.{ProcessConfig, NetworkConfig}

pub data ProcessType : Type 0 where
  replica client : ProcessType

pub data ProcessStatus : Type 0 where
  initialized running done crashed timeout exception : ProcessStatus

-- `launched` says if `Cmd.Process` is there.
pub record Worker : Type 0 where
  pub run_script : Text
  pub clean_script : Text
  pub num_replicas : ℕ
  pub base_interceptor_port : ℕ
  pub worker_id : ℕ
  pub type : ProcessType
  pub params : Text
  pub timeout_seconds : ℕ
  pub status : ProcessStatus
  pub launched : Bool

unfoldable pub to_string : ProcessStatus → Text
to_string initialized = codes "Initialized"
to_string running = codes "Running"
to_string done = codes "Done"
to_string crashed = codes "Crashed"
to_string timeout = codes "Timeout"
to_string exception = codes "Exception"

abbrev pub is_done : ProcessStatus → Bool
is_done done = true
is_done _ = false

abbrev pub is_crashed : ProcessStatus → Bool
is_crashed crashed = true
is_crashed _ = false

abbrev pub is_client : ProcessType → Bool
is_client client = true
is_client replica = false

-- `Status != Exception && Status != Timeout`
abbrev pub is_stoppable : ProcessStatus → Bool
is_stoppable timeout = false
is_stoppable exception = false
is_stoppable _ = true

-- `RunWorker` up to its `select`. An error of `Start` is only logged.
unfoldable pub start_worker : Bool → Worker → Worker
start_worker launched worker = record worker { status = running; launched = launched }

unfoldable pub kill_worker : Worker → Outcome Worker
kill_worker worker = if worker.launched then ok worker else panic nil_dereference

unfoldable pub crash_worker : Worker → Outcome Worker
crash_worker worker = kill_worker (record worker { status = crashed })

-- What ends the `select`: the timer, or `Wait` with an error or without one.
pub data Ending : Type 0 where
  timer failed exited : Ending

-- The `select` of `RunWorker`.
unfoldable pub finish_worker : Ending → Worker → Outcome Worker
finish_worker timer worker = kill_worker (record worker { status = timeout })
finish_worker failed worker =
    if not (is_crashed worker.status) && not (is_done worker.status) && not (is_client worker.type)
    then ok (record worker { status = exception })
    else ok worker
finish_worker exited worker = ok (record worker { status = done })

abbrev pub first_line_empty : List Text → Bool
first_line_empty ([] ∷ lines) = true
first_line_empty _ = false

-- `stderr` is the file, `none` if it cannot be read.
unfoldable pub stop_worker : Option Text → Worker → Outcome Worker
stop_worker none worker = panic invalid_argument
stop_worker (some stderr) worker =
    if first_line_empty (split 10 stderr)
    then kill_worker (record worker { status = done })
    else kill_worker worker

unfoldable pub restart_worker : Bool → Worker → Worker
restart_worker launched worker =
    if is_crashed worker.status then start_worker launched worker else worker

pub record ProcessManager : Type 0 where
  pub workers : List (ℕ × Worker)
  pub client_workers : List (ℕ × Worker)
  pub client_ids : List ℕ
  pub client_id_counter : ℕ
  pub crashed_workers : List (ℕ × Bool)
  pub wait_group : ℕ
  pub iteration : ℕ
  pub bug_candidate : Bool

abbrev pub wait_group_done : ℕ → Outcome ℕ
wait_group_done zero = panic negative_wait_group
wait_group_done (suc n) = ok n

-- The goroutine of a replica after its `select`: the end of `RunWorker`, and `Done`.
unfoldable pub finish_replica : Ending → ℕ → ProcessManager → Outcome ProcessManager
finish_replica ending key pm = do
  worker ← or_panic nil_dereference (find key pm.workers)
  worker' ← finish_worker ending worker
  wait_group ← wait_group_done pm.wait_group
  ok (record pm { workers = assign key worker' pm.workers; wait_group = wait_group })

abbrev pub start_all : (ℕ → Bool) → List (ℕ × Worker) → List (ℕ × Worker)
start_all launched [] = []
start_all launched ((key, worker) ∷ workers) =
    (key, start_worker (launched key) worker) ∷ start_all launched workers

-- The loop of `Run` that starts the goroutines; `launched key` is for the process of that worker.
unfoldable pub run_replicas : (ℕ → Bool) → ProcessManager → ProcessManager
run_replicas launched pm = record pm {
  workers = start_all launched pm.workers;
  wait_group = pm.wait_group + length pm.workers;
}

abbrev pub any_not_done : List (ℕ × Worker) → Bool
any_not_done [] = false
any_not_done ((key, worker) ∷ workers) = not (is_done worker.status) || any_not_done workers

-- The end of `Run`, after `Wait`. The removal of the directory is left out.
unfoldable pub decide_bug : ProcessManager → ProcessManager
decide_bug pm =
    if any_not_done pm.workers || any_not_done pm.client_workers
    then record pm { bug_candidate = true }
    else pm

abbrev pub find_worker : ℤ → List (ℕ × Worker) → Option (ℕ × Worker)
find_worker id [] = none
find_worker id ((key, worker) ∷ workers) =
    if eq_ℤ (pos worker.worker_id) id then some (key, worker) else find_worker id workers

-- The body of the loop of `CrashReplica` for the worker that is found. The Boolean is the one that is
-- returned.
unfoldable pub crash_found : Option (ℕ × Worker) → ProcessManager → Outcome (ProcessManager × Bool)
crash_found none pm = ok (pm, false)
crash_found (some (key, worker)) pm = do
  worker' ← crash_worker worker
  wait_group ← wait_group_done pm.wait_group
  ok (
    record pm {
      workers = assign key worker' pm.workers;
      wait_group = wait_group;
      crashed_workers = assign worker.worker_id true pm.crashed_workers;
    },
    true,
  )

unfoldable pub crash_replica : ℤ → ProcessManager → Outcome (ProcessManager × Bool)
crash_replica id pm = crash_found (find_worker id pm.workers) pm

abbrev pub find_crashed : ℤ → List (ℕ × Bool) → Option ℕ
find_crashed id [] = none
find_crashed id ((key, value) ∷ crashed_workers) =
    if eq_ℤ (pos key) id then some key else find_crashed id crashed_workers

-- The body of the loop of `RestartReplica` for the key that is found, up to the `select` of the worker
-- that it runs, in which it blocks.
unfoldable pub restart_found : Bool → Option ℕ → ProcessManager → Outcome (ProcessManager × Bool)
restart_found launched none pm = ok (pm, false)
restart_found launched (some key) pm = do
  worker ← or_panic nil_dereference (find key pm.workers)
  ok (
    record pm {
      workers = assign key (restart_worker launched worker) pm.workers;
      wait_group = pm.wait_group + 1;
    },
    true,
  )

unfoldable pub restart_replica : Bool → ℤ → ProcessManager → Outcome (ProcessManager × Bool)
restart_replica launched id pm = restart_found launched (find_crashed id pm.crashed_workers) pm
