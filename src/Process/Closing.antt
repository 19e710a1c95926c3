-- ===== src/Process/Closing.antt =====
-- cmd/dstest/process/process.go: from `Shutdown` to the end of `Run`, when every goroutine ends with the
-- process that was killed.
use dstest.Prelude.{
  ℕ, suc, ◌≡◌, refl, ◌∙◌, Bool, false, List, [], ◌∷◌, Option, some, ok, >>=-eq-ok, find,
  find-assign, All-assign, All-find, if-eq, inl, inr, Returns, arith, ◌==◌, Bool-cases,
}
use dstest.Prelude.Text.{Text}
use dstest.Process.{
  Worker, ProcessManager, done, finish_replica, finish_worker, failed, start_all, start_worker,
}
use dstest.Process.Lifecycle.{stop_if, stop_all, stops_client, stops_replica, shutdown}
use dstest.Process.Status.{AllDone}

-- The key has a worker.
abbrev pub Has : List (ℕ × Worker) → ℕ → Type 0
Has workers key = (worker : Worker) × (find key workers ≡ some worker)

pub start_all-Has :
    (launched : ℕ → Bool) (workers : List (ℕ × Worker)) (key : ℕ)
    → Has workers key
    → Has (start_all launched workers) key
start_all-Has launched [] key (worker, e) = cc
start_all-Has launched ((k, w) ∷ workers) key (worker, e) = elim (if-eq (k == key) _ _ _ e) [
  | inl (same, here) ↦ rw same (start_worker (launched k) w, refl)
  | inr (other, rest) ↦ rw other (start_all-Has launched workers key (worker, rest))
]

stop_all-Has :
    (test : Worker → Bool) (stderr : ℕ → Option Text) (workers workers' : List (ℕ × Worker))
    (key : ℕ)
    → stop_all test stderr workers ≡ ok workers'
    → Has workers key
    → Has workers' key
unfolding stop_all
stop_all-Has test stderr [] workers' key e (worker, found) = cc
stop_all-Has test stderr ((k, w) ∷ workers) workers' key e (worker, found) =
    let (w', _, e1) = >>=-eq-ok (stop_if test stderr k w) _ e in
    let (rest, stopped, e2) = >>=-eq-ok (stop_all test stderr workers) _ e1 in
    let same : (k, w') ∷ rest ≡ workers' = ground arith in
    rw (← same) (elim (if-eq (k == key) _ _ _ found) [
      | inl (here, _) ↦ rw here (w', refl)
      | inr (other, later) ↦
          rw other (stop_all-Has test stderr workers rest key stopped (worker, later))
    ])

-- What `Shutdown` leaves as it was.
pub record Stopped (pm pm' : ProcessManager) : Type 0 where
  pub has : (key : ℕ) → Has pm.workers key → Has pm'.workers key
  pub wait_group : pm'.wait_group ≡ pm.wait_group
  pub bug : pm'.bug_candidate ≡ pm.bug_candidate

pub shutdown-Stopped :
    (client_stderr stderr : ℕ → Option Text) (pm pm' : ProcessManager)
    → shutdown client_stderr stderr pm ≡ ok pm'
    → Stopped pm pm'
unfolding shutdown
shutdown-Stopped client_stderr stderr pm pm' e =
    let (cs, _, e1) = >>=-eq-ok (stop_all stops_client client_stderr pm.client_workers) _ e in
    let (ws, stopped, e2) = >>=-eq-ok (stop_all stops_replica stderr pm.workers) _ e1 in
    let same : record pm { client_workers = cs; workers = ws } ≡ pm' = ground arith in
    rw (← same) (record {
      has = λ key h. stop_all-Has stops_replica stderr pm.workers ws key stopped h;
      wait_group = refl;
      bug = refl;
    })

-- All workers are done, with `left` goroutines that have not ended.
pub record IsClosing (left : ℕ) (pm : ProcessManager) : Type 0 where
  pub replicas : AllDone pm.workers
  pub clients : AllDone pm.client_workers
  pub wait_group : pm.wait_group ≡ left
  pub bug : pm.bug_candidate ≡ false

finish_done : (worker : Worker) → worker.status ≡ done → finish_worker failed worker ≡ ok worker
unfolding finish_worker
finish_done worker e = ground (arith, e)

-- The goroutine of a worker that was stopped ends with the error of its killed process.
pub finish_replica-IsClosing :
    (left key : ℕ) (pm : ProcessManager)
    → IsClosing (suc left) pm
    → Has pm.workers key
    → Returns
        (finish_replica failed key pm)
        (λ pm'. IsClosing left pm' × ((k : ℕ) → Has pm.workers k → Has pm'.workers k))
unfolding finish_replica
finish_replica-IsClosing left key pm closing (worker, found) =
    let (k, is_done) =
      All-find (λ (entry : ℕ × Worker). entry.1.status ≡ done) key worker pm.workers found
        closing.replicas in
    let counter = closing.wait_group in
    rw (found, finish_done worker is_done, counter)
      (
        record {
          replicas =
              All-assign (λ (entry : ℕ × Worker). entry.1.status ≡ done) key worker pm.workers
                is_done closing.replicas;
          clients = closing.clients;
          wait_group = refl;
          bug = closing.bug;
        },
        λ j (w, e). elim (Bool-cases (key == j)) [
          | inl same ↦ (worker, find-assign key j worker pm.workers ∙ rw same refl)
          | inr other ↦ (w, find-assign key j worker pm.workers ∙ rw other e)
        ],
      )
