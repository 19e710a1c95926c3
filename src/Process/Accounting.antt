-- ===== src/Process/Accounting.antt =====
-- cmd/dstest/process/process.go: the counter of the wait group through the calls of an iteration.
use dstest.Prelude.{
  ℕ, zero, suc, ◌+◌, ◌≡◌, Bool, true, Option, none, some, ok, nil_dereference, >>=-eq-ok, ℤ, find,
  or_panic, arith,
}
use dstest.Process.Lifecycle.{finish_restarted}
use dstest.Process.{
  ProcessManager, Ending, finish_replica, finish_worker, wait_group_done, crash_replica,
  crash_worker, restart_replica, find_worker, find_crashed, crash_found, restart_found, Worker,
}

-- The calls that returned since the manager was `first`, in any order, with the numbers of
-- replicas' goroutines that ended, of crashes and of restarts.
pub data Session (first : ProcessManager) : ℕ → ℕ → ℕ → ProcessManager → Type 0 where
  begun : Session first 0 0 0 first
  ended :
      {f c r : ℕ} {pm pm' : ProcessManager} (ending : Ending) (key : ℕ)
      → Session first f c r pm
      → finish_replica ending key pm ≡ ok pm'
      → Session first (f + 1) c r pm'
  crashed :
      {f c r : ℕ} {pm pm' : ProcessManager} (id : ℤ)
      → Session first f c r pm
      → crash_replica id pm ≡ ok (pm', true)
      → Session first f (c + 1) r pm'
  restarted :
      {f c r : ℕ} {pm pm' : ProcessManager} (launched : Bool) (id : ℤ)
      → Session first f c r pm
      → restart_replica launched id pm ≡ ok (pm', true)
      → Session first f c (r + 1) pm'
  restart_ended :
      {f c r : ℕ} {pm pm' : ProcessManager} (ending : Ending) (key : ℕ)
      → Session first f c r pm
      → finish_restarted ending key pm ≡ ok pm'
      → Session first f c r pm'

done_minus : (n m : ℕ) → wait_group_done n ≡ ok m → n ≡ m + 1
done_minus zero m e = cc
done_minus (suc n) m e = ground arith

finish-count :
    (ending : Ending) (key : ℕ) (pm pm' : ProcessManager)
    → finish_replica ending key pm ≡ ok pm'
    → pm.wait_group ≡ pm'.wait_group + 1
unfolding finish_replica
finish-count ending key pm pm' e =
    let (worker, found, rest) = >>=-eq-ok (or_panic nil_dereference (find key pm.workers)) _ e in
    let (worker', _, rest') = >>=-eq-ok (finish_worker ending worker) _ rest in
    let (n, less, same) = >>=-eq-ok (wait_group_done pm.wait_group) _ rest' in
    let out = done_minus pm.wait_group n less in ground (arith, out)

crash-count :
    (o : Option (ℕ × Worker)) (pm pm' : ProcessManager)
    → crash_found o pm ≡ ok (pm', true)
    → pm.wait_group ≡ pm'.wait_group + 1
unfolding crash_found
crash-count none pm pm' e = cc
crash-count (some (key, worker)) pm pm' e =
    let (worker', _, rest) = >>=-eq-ok (crash_worker worker) _ e in
    let (n, less, same) = >>=-eq-ok (wait_group_done pm.wait_group) _ rest in
    let out = done_minus pm.wait_group n less in ground (arith, out)

restart-count :
    (launched : Bool) (o : Option ℕ) (pm pm' : ProcessManager)
    → restart_found launched o pm ≡ ok (pm', true)
    → pm.wait_group + 1 ≡ pm'.wait_group
unfolding restart_found
restart-count launched none pm pm' e = cc
restart-count launched (some key) pm pm' e =
    let (worker, _, rest) = >>=-eq-ok (or_panic nil_dereference (find key pm.workers)) _ e in
    ground arith

restarted-count :
    (ending : Ending) (key : ℕ) (pm pm' : ProcessManager)
    → finish_restarted ending key pm ≡ ok pm'
    → pm.wait_group ≡ pm'.wait_group
unfolding finish_restarted
restarted-count ending key pm pm' e =
    let (worker, found, rest) = >>=-eq-ok (or_panic nil_dereference (find key pm.workers)) _ e in
    let (worker', _, rest') = >>=-eq-ok (finish_worker ending worker) _ rest in ground arith

-- In every order of ends, crashes and restarts that return, the counter of the wait group together
-- with the ended goroutines and the crashes is its first value together with the restarts: a crash
-- lowers the counter once more than the end of the crashed replica's goroutine, and a restart
-- raises it for good, also when the process of the restarted replica ends.
pub session-balance :
    (first pm : ProcessManager) (f c r : ℕ)
    → Session first f c r pm
    → pm.wait_group + f + c ≡ first.wait_group + r
unfolding crash_replica restart_replica
session-balance first pm f c r begun = omega arith
session-balance first _ _ _ _ (ended {f} {c} {r} {pm} {pm'} ending key s e) =
    omega (arith, session-balance first pm f c r s, finish-count ending key pm pm' e)
session-balance first _ _ _ _ (crashed {f} {c} {r} {pm} {pm'} id s e) =
    omega
      (arith, session-balance first pm f c r s, crash-count (find_worker id pm.workers) pm pm' e)
session-balance first _ _ _ _ (restarted {f} {c} {r} {pm} {pm'} launched id s e) = omega (
  arith,
  session-balance first pm f c r s,
  restart-count launched (find_crashed id pm.crashed_workers) pm pm' e,
)
session-balance first _ _ _ _ (restart_ended {f} {c} {r} {pm} {pm'} ending key s e) =
    omega (arith, session-balance first pm f c r s, restarted-count ending key pm pm' e)
