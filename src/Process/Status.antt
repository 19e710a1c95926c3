-- ===== src/Process/Status.antt =====
-- cmd/dstest/process: what becomes of a worker's status, and the verdict of `Run`.
use dstest.Prelude.{ℕ, ◌≡◌, ◌↔◌, refl, Bool, true, false, List, [], ◌∷◌, ok, ◌>>=◌, All, arith}
use dstest.Process.{
  Worker, ProcessType, replica, client, ProcessStatus, initialized, running, done, crashed, timeout,
  exception, Ending, timer, failed, exited, start_worker, finish_worker, crash_worker, kill_worker,
  restart_worker, ProcessManager, decide_bug, any_not_done,
}

-- The status that a launched worker has after its process ended, from the one it had and its type.
abbrev pub status_after : Ending → ProcessStatus → ProcessType → ProcessStatus
status_after timer _ _ = timeout
status_after exited _ _ = done
status_after failed crashed _ = crashed
status_after failed done _ = done
status_after failed status client = status
status_after failed initialized replica = exception
status_after failed running replica = exception
status_after failed timeout replica = exception
status_after failed exception replica = exception

-- After its process ended, a launched worker is timed out, done, or, on an error, in exception;
-- after an error a crashed or done worker and a client keep the status they had.
finish_worker-status :
    (ending : Ending) (worker : Worker)
    → worker.launched ≡ true
    → finish_worker ending worker
      ≡ ok (record worker { status = status_after ending worker.status worker.type })
unfolding finish_worker kill_worker
finish_worker-status ending worker h = ground (arith, h)

-- A launched worker that is crashed stays crashed when its process ends with an error, and is running
-- again after a restart.
crash-restart :
    (worker : Worker) (again : Bool)
    → worker.launched ≡ true
    → ((crash_worker worker >>= finish_worker failed) ≡ ok (record worker { status = crashed }))
      × (restart_worker again (record worker { status = crashed })
          ≡ record worker { status = running; launched = again })
unfolding crash_worker kill_worker finish_worker restart_worker start_worker
crash-restart worker again h = (rw h refl, refl)

abbrev pub AllDone : List (ℕ × Worker) → Type 0
AllDone workers = All (λ (entry : ℕ × Worker). entry.1.status ≡ done) workers

any_not_done-AllDone :
    (workers : List (ℕ × Worker)) → (any_not_done workers ≡ false) ↔ AllDone workers
any_not_done-AllDone [] = ((λ _. tt), (λ _. refl))
any_not_done-AllDone ((key, worker) ∷ workers) = (
  (λ h. ground (arith, (any_not_done-AllDone workers).0)),
  (λ h. ground (arith, (any_not_done-AllDone workers).1)),
)

-- From a manager that is no bug candidate yet, the end of `Run` leaves it none exactly if all replicas
-- and all clients are done.
pub decide_bug-AllDone :
    (pm : ProcessManager)
    → pm.bug_candidate ≡ false
    → ((decide_bug pm).bug_candidate ≡ false) ↔ (AllDone pm.workers × AllDone pm.client_workers)
unfolding decide_bug
decide_bug-AllDone pm fresh = (
  (λ h.
      ground
        (arith, (any_not_done-AllDone pm.workers).0, (any_not_done-AllDone pm.client_workers).0)),
  (λ h.
      ground
        (arith, (any_not_done-AllDone pm.workers).1, (any_not_done-AllDone pm.client_workers).1)),
)
