-- ===== src/Process/Stop.antt =====
-- cmd/dstest/process/process.go: the verdict of `Run` on the workers that `Shutdown` leaves.
use dstest.Prelude.{
  ℕ, ◌≡◌, ◌⊎◌, refl, Bool, true, false, List, [], ◌∷◌, Option, some, none, ok, All, if◌then◌else◌,
  Returns, Returns-bind, Bool-cases, inl, inr, arith,
}
use dstest.Prelude.Text.{Text, split}
use dstest.Process.{
  Worker, ProcessManager, done, is_stoppable, kill_worker, stop_worker, first_line_empty,
  decide_bug,
}
use dstest.Process.Lifecycle.{stop_if, stop_all, stops_client, stops_replica, shutdown}
use dstest.Process.Status.{AllDone, decide_bug-AllDone}

-- A launched worker that neither timed out nor failed.
abbrev pub IsSound : ℕ × Worker → Type 0
IsSound (key, worker) = (worker.launched ≡ true) × (is_stoppable worker.status ≡ true)

-- The error file is there, and its first line is empty.
abbrev pub IsQuiet : Option Text → Type 0
IsQuiet none = ⊥
IsQuiet (some text) = first_line_empty (split 10 text) ≡ true

stop_quiet :
    (stderr : Option Text) (worker : Worker)
    → IsQuiet stderr
    → worker.launched ≡ true
    → stop_worker stderr worker ≡ ok (record worker { status = done })
unfolding stop_worker kill_worker
stop_quiet none worker q l = absurd q
stop_quiet (some text) worker q l = rw (q, l)

-- A test that passes over no worker but a done one.
abbrev Covers : (Worker → Bool) → Type 0
Covers test =
    (worker : Worker)
    → is_stoppable worker.status ≡ true
    → test worker ≡ false
    → worker.status ≡ done

stop_all-AllDone :
    (test : Worker → Bool) (stderr : ℕ → Option Text) (workers : List (ℕ × Worker))
    → Covers test
    → ((key : ℕ) → IsQuiet (stderr key))
    → All IsSound workers
    → Returns (stop_all test stderr workers) AllDone
unfolding stop_all stop_if
stop_all-AllDone test stderr [] covers quiet sound = tt
stop_all-AllDone test stderr ((key, worker) ∷ workers) covers quiet sound =
    Returns-bind _ _ (λ (w : Worker). w.status ≡ done) _ (stopped (Bool-cases (test worker)))
      (λ w d.
        Returns-bind _ _ AllDone _ (stop_all-AllDone test stderr workers covers quiet sound.1)
          (λ ws ds. (d, ds)))
  where
    stopped :
        (test worker ≡ true) ⊎ (test worker ≡ false)
        → Returns
            (if test worker then stop_worker (stderr key) worker else ok worker)
            (λ (w : Worker). w.status ≡ done)
    stopped (inl yes_stop) =
        rw (yes_stop, stop_quiet (stderr key) worker (quiet key) sound.0.0) refl
    stopped (inr no_stop) = rw no_stop (covers worker sound.0.1 no_stop)

stops_replica-Covers : Covers stops_replica
stops_replica-Covers worker s t = ground arith

stops_client-Covers : Covers stops_client
stops_client-Covers worker s t = ground arith

-- If every worker was launched, none of them timed out or is in exception, and every error file begins
-- with an empty line, then `Shutdown` returns and leaves all workers done, so that the end of `Run`
-- finds no bug, also where a replica is crashed or a client failed.
pub shutdown-AllDone :
    (client_stderr stderr : ℕ → Option Text) (pm : ProcessManager)
    → pm.bug_candidate ≡ false
    → ((key : ℕ) → IsQuiet (client_stderr key) × IsQuiet (stderr key))
    → All IsSound pm.client_workers
    → All IsSound pm.workers
    → Returns (shutdown client_stderr stderr pm) λ pm'.
      AllDone pm'.workers × AllDone pm'.client_workers × ((decide_bug pm').bug_candidate ≡ false)
unfolding shutdown
shutdown-AllDone client_stderr stderr pm fresh quiet clients replicas =
    Returns-bind _ _ AllDone _
      (stop_all-AllDone stops_client client_stderr pm.client_workers stops_client-Covers
        (λ key. (quiet key).0) clients)
      λ cs dc.
        Returns-bind _ _ AllDone _
          (stop_all-AllDone stops_replica stderr pm.workers stops_replica-Covers
            (λ key. (quiet key).1) replicas)
          λ ws dw. (
            dw,
            dc,
            (decide_bug-AllDone (record pm { client_workers = cs; workers = ws }) fresh).1 (dw, dc),
          )
