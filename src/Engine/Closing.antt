-- ===== src/Engine/Closing.antt =====
-- The end of an iteration: the processes that `Shutdown` killed end, and then `ProcessManager.Run`.
use dstest.Prelude.{
  ℕ, ◌≡◌, refl, true, false, List, [], ◌∷◌, ok, Returns, Returns-map, Returns-ok, length, All,
  arith,
}
use dstest.Prelude.Machine.{Floats, Generator}
use dstest.Network.Translator.{Frame}
use dstest.Network.Manager.Pending.{All-map}
use dstest.Process.{failed, finish_replica, decide_bug}
use dstest.Process.Status.{decide_bug-AllDone}
use dstest.Process.Closing.{Has, IsClosing, finish_replica-IsClosing}
use dstest.Engine.{Happening, Loop, happen, happen_all}

-- Each of the goroutines ends, with the error of a process that was killed, and then `Run`.
abbrev pub closing_of : List ℕ → List Happening
closing_of [] = Happening.run_ends ∷ []
closing_of (key ∷ keys) = Happening.replica_ends failed key ∷ closing_of keys

module _ (fl : Floats) (g : Generator fl.F) (frames : List ℕ → List Frame) where
  -- `Run` has returned without a bug, and network, scheduler and schedule are as they were.
  pub record Closed (l l' : Loop fl g) : Type 0 where
    pub ended : l'.ended ≡ true
    pub no_bug : l'.processes.bug_candidate ≡ false
    pub network : l'.network ≡ l.network
    pub scheduler : l'.scheduler ≡ l.scheduler

  run_ends-eq :
      (l : Loop fl g)
      → l.processes.wait_group ≡ 0
      → l.ended ≡ false
      → happen fl g frames Happening.run_ends l
        ≡ ok (record l { processes = decide_bug l.processes; ended = true })
  unfolding happen
  run_ends-eq l counter going = ground (arith, counter, going)

  run_ends-Closed :
      (l : Loop fl g)
      → IsClosing 0 l.processes
      → l.ended ≡ false
      → Returns (happen_all fl g frames (Happening.run_ends ∷ []) l) (Closed l)
  unfolding happen_all
  run_ends-Closed l c going = rw (run_ends-eq l c.wait_group going) (record {
    ended = refl;
    no_bug = (decide_bug-AllDone l.processes c.bug).1 (c.replicas, c.clients);
    network = refl;
    scheduler = refl;
  })

  pub happen_all-Closed :
      (keys : List ℕ) (l : Loop fl g)
      → IsClosing (length keys) l.processes
      → All (Has l.processes.workers) keys
      → l.ended ≡ false
      → Returns (happen_all fl g frames (closing_of keys) l) (Closed l)
  unfolding happen_all happen
  happen_all-Closed [] l c has going = run_ends-Closed l c going
  happen_all-Closed (key ∷ keys) l c has going =
      let (pm, e, (c', has')) =
        Returns-ok (finish_replica failed key l.processes)
          (λ pm.
            IsClosing (length keys) pm × ((k : ℕ) → Has l.processes.workers k → Has pm.workers k))
          (finish_replica-IsClosing (length keys) key l.processes c has.0) in
      rw e (
        Returns-map _ (Closed (record l { processes = pm })) _
          (happen_all-Closed keys (record l { processes = pm }) c'
            (All-map (Has l.processes.workers) (Has pm.workers) keys has' has.1) going)
          λ l' closed. record {
            ended = closed.ended;
            no_bug = closed.no_bug;
            network = closed.network;
            scheduler = closed.scheduler;
          })
