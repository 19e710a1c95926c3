-- ===== src/Process/Start.antt =====
-- cmd/dstest/process/process.go: what `Init` returns, and when it panics.
use dstest.Prelude.{
  ℕ, zero, suc, ◌+◌, ◌==◌, ◌≡◌, ◌<◌, ◌≤◌, refl, ◌∙◌, ltb, false, List, [], ◌∷◌, ◌++◌, some, none,
  ok, panic, index_out_of_range, ◌>>=◌, at-lt, for_range, for_range-Returns, find, find-assign,
  length-assign_new, length, length-append, get_elem?, get_or, get_elem?_out, if◌then◌else◌,
  Returns, Returns-bind, arith, ℕ_discrete, Option-cases, inl, inr,
}
use native.Mathlib.Decide.{dec_lt}
use dstest.Config.{Config}
use dstest.Process.{Worker, replica, initialized, ProcessManager}
use dstest.Process.Lifecycle.{
  WorkerConfig, init_worker, replica_worker_config, generate_replica_worker_config, add_worker,
  init,
}

-- The ids that the engine hands out: each index is its own.
abbrev pub Numbered : ℕ → List ℕ → Type 0
Numbered n ids = (length ids ≡ n) × ((i : ℕ) → i < n → get_or ids i 0 ≡ i)

module _ {F : Type 0} (config : Config F) where
  abbrev n : ℕ
  n = config.process_config.num_replicas

  -- The worker of the k-th replica.
  abbrev pub worker_of : ℕ → Worker
  worker_of k = record {
    run_script = config.process_config.replica_script;
    clean_script = config.process_config.clean_script;
    num_replicas = config.process_config.num_replicas;
    base_interceptor_port = config.network_config.base_interceptor_port;
    worker_id = k;
    type = replica;
    params = get_or config.process_config.replica_params k [];
    timeout_seconds = config.process_config.timeout;
    status = initialized;
    launched = false;
  }

  abbrev conf_of : ℕ → WorkerConfig
  conf_of k = record {
    run_script = config.process_config.replica_script;
    clean_script = config.process_config.clean_script;
    worker_id = k;
    type = replica;
    base_interceptor_port = config.network_config.base_interceptor_port;
    num_replicas = config.process_config.num_replicas;
    params = get_or config.process_config.replica_params k [];
    timeout = config.process_config.timeout;
  }

  -- A worker for each replica and no other, nothing crashed, no client, and no bug so far.
  pub record IsStarted (iteration : ℕ) (pm : ProcessManager) : Type 0 where
    pub workers : (k : ℕ) → find k pm.workers ≡ (if ltb k n then some (worker_of k) else none)
    pub count : length pm.workers ≡ n
    pub no_client : pm.client_workers ≡ []
    pub no_ids : pm.client_ids ≡ []
    pub counter : pm.client_id_counter ≡ 0
    pub no_crash : pm.crashed_workers ≡ []
    pub wait_group : pm.wait_group ≡ 0
    pub iteration_lem : pm.iteration ≡ iteration
    pub no_bug : pm.bug_candidate ≡ false

  abbrev Configs : ℕ → List WorkerConfig → Type 0
  Configs i configs =
      (length configs ≡ i) × ((k : ℕ) → k < i → get_or configs k (conf_of 0) ≡ conf_of k)

  get_or-append :
      (configs : List WorkerConfig) (c : WorkerConfig) (k : ℕ)
      → get_or (configs ++ c ∷ []) k (conf_of 0)
        ≡ (if k == length configs then c else get_or configs k (conf_of 0))
  get_or-append [] c zero = refl
  get_or-append [] c (suc k) = ground arith
  get_or-append (x ∷ configs) c zero = ground arith
  get_or-append (x ∷ configs) c (suc k) = get_or-append configs c k ∙ ground arith

  generate-Configs :
      (ids : List ℕ)
      → Numbered n ids
      → n ≤ length config.process_config.replica_params
      → Returns (generate_replica_worker_config config ids) (Configs n)
  unfolding generate_replica_worker_config replica_worker_config
  generate-Configs ids (count, own) enough =
      for_range-Returns Configs _ n
        (λ i configs li (size, made).
          rw
            (
              at-lt ids i 0 (omega (arith, count)),
              at-lt config.process_config.replica_params i [] (omega arith),
              own i li,
            )
            (
              omega (arith, length-append {0} configs (conf_of i ∷ []), size),
              λ k lk. elim (ℕ_discrete k i) [
                | yes e ↦ get_or-append configs (conf_of i) k ∙ ground (arith, size, e)
                | no e ↦ get_or-append configs (conf_of i) k ∙ ground (arith, size, e, made k)
              ],
            ))
        n 0 [] (omega arith) (refl, λ k lk. absurd (omega arith))

  abbrev Workers : ℕ → List (ℕ × Worker) → Type 0
  Workers i workers =
      ((k : ℕ) → find k workers ≡ (if ltb k i then some (worker_of k) else none))
      × (length workers ≡ i)

  add_worker-Workers :
      (configs : List WorkerConfig)
      → Configs n configs
      → Returns (for_range n 0 (add_worker configs) []) (Workers n)
  unfolding add_worker init_worker
  add_worker-Workers configs (size, made) =
      for_range-Returns Workers (add_worker configs) n
        (λ i workers li (known, count).
          rw (at-lt configs i (conf_of 0) (omega (arith, size)), made i li)
            (
              (λ k. find-assign i k (worker_of i) workers ∙ ground (arith, known k)),
              omega (
                arith,
                count,
                length-assign_new i (worker_of i) workers (ground (arith, known i)),
              ),
            ))
        n 0 [] (omega arith) ((λ k. ground arith), refl)

  -- With the ids of the engine and parameters for every replica, `Init` returns: a worker for each replica
  -- under its id, initialized with its own parameters, and no other; no client and no crash; the
  -- counter of the wait group at 0, and no bug candidate.
  pub init-IsStarted :
      (ids : List ℕ) (iteration : ℕ)
      → Numbered n ids
      → n ≤ length config.process_config.replica_params
      → Returns (init config ids iteration) (IsStarted iteration)
  unfolding init
  init-IsStarted ids iteration numbered enough =
      Returns-bind _ _ (Configs n) _ (generate-Configs ids numbered enough) λ configs c.
        Returns-bind _ _ (Workers n) _ (add_worker-Workers configs c) λ workers (known, count).
          record {
            workers = known;
            count = count;
            no_client = refl;
            no_ids = refl;
            counter = refl;
            no_crash = refl;
            wait_group = refl;
            iteration_lem = refl;
            no_bug = refl;
          }

  generate_short :
      (ids : List ℕ) (rounds i : ℕ) (configs : List WorkerConfig)
      → i ≤ length config.process_config.replica_params
      → length config.process_config.replica_params < i + rounds
      → for_range rounds i
          (λ j acc. replica_worker_config config ids j >>= λ conf. ok (acc ++ conf ∷ []))
          configs
        ≡ panic index_out_of_range
  unfolding for_range replica_worker_config
  generate_short ids zero i configs le short = absurd (omega arith)
  generate_short ids (suc rounds) i configs le short = elim (Option-cases (get_elem? ids i)) [
    | inl no_id ↦ rw no_id
    | inr (id, has) ↦ elim (dec_lt i (length config.process_config.replica_params)) [
      | yes more ↦
          rw (has, at-lt config.process_config.replica_params i [] more)
            (generate_short ids rounds (i + 1) _ (omega arith) (omega arith))
      | no over ↦ rw (has, get_elem?_out config.process_config.replica_params i (omega arith))
    ]
  ]

  -- With parameters for fewer replicas than there are, `Init` panics.
  init_short :
      (ids : List ℕ) (iteration : ℕ)
      → length config.process_config.replica_params < n
      → init config ids iteration ≡ panic index_out_of_range
  unfolding init generate_replica_worker_config
  init_short ids iteration short = rw (generate_short ids n 0 [] (omega arith) (omega arith))
