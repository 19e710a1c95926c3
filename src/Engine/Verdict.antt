-- ===== src/Engine/Verdict.antt =====
-- cmd/dstest/engine/TestEngine.go, cmd/dstest/process: what becomes of a replica that failed or timed out.
use dstest.Prelude.{
  ℕ, ◌≡◌, ◌≢◌, ◌∙◌, ◌==◌, ◌&&◌, not, ◌++◌, refl, ap, sym, Bool, true, false, List, [], ◌∷◌, Option,
  some, ok, >>=-eq-ok, at, pos, negsuc, ℤ, All, find, find-assign, assign, arith, if-eq, inl, inr,
  or_panic, nil_dereference,
}
use dstest.Prelude.Text.{Text}
use dstest.Prelude.Machine.{Floats, Generator}
use dstest.Config.{ProcessConfig}
use dstest.Network.Message.{Message}
use dstest.Network.Translator.{Frame}
use dstest.Network.Manager
use dstest.Network.Manager.{Manager, intercept, get_actions, send_message_by_id}
use dstest.Network.Manager.Shutdown
use dstest.Process.{
  Worker, ProcessManager, is_stoppable, any_not_done, decide_bug, finish_replica, finish_worker,
  wait_group_done, Ending,
}
use dstest.Process.Lifecycle.{
  stop_if, stop_all, stops_client, stops_replica, shutdown, finish_client,
}
use dstest.Process.Clients.{run_client, generate_client_worker_config}
use dstest.Scheduling.Decision.{DecisionType, no_op, send_message, inject_fault}
use dstest.Scheduling.Strategy
use dstest.Scheduling.Strategy.{Outside}
use dstest.Scheduling.Strategy.Kinds.{next-IsPlain}
use dstest.Engine.{
  TestEngine, Round, Loop, Happening, happen, happen_all, request, send, execute, execute_as,
  run_round, run_steps,
}
use dstest.Engine.Rounds.{run_steps-keeps}
use dstest.Engine.Runs.{Inputs, Iterating, end_iteration, wait_all}

-- The replica's worker timed out or is in exception.
abbrev pub HasFailed : ℕ → List (ℕ × Worker) → Type 0
HasFailed key workers =
    (worker : Worker) × (find key workers ≡ some worker) × (is_stoppable worker.status ≡ false)

any_not_done-HasFailed :
    (key : ℕ) (workers : List (ℕ × Worker)) → HasFailed key workers → any_not_done workers ≡ true
any_not_done-HasFailed key [] (worker, found, bad) = cc
any_not_done-HasFailed key ((k, w) ∷ workers) (worker, found, bad) =
    elim (if-eq (k == key) _ _ _ found) [
      | inl (here, same) ↦ let w_same : w ≡ worker = ground arith in ground (arith, bad)
      | inr (other, later) ↦
          let rest = any_not_done-HasFailed key workers (worker, later, bad) in ground arith
    ]

-- `Shutdown` passes over it.
stop_all-HasFailed :
    (stderr : ℕ → Option Text) (key : ℕ) (workers workers' : List (ℕ × Worker))
    → stop_all stops_replica stderr workers ≡ ok workers'
    → HasFailed key workers
    → HasFailed key workers'
unfolding stop_all stop_if
stop_all-HasFailed stderr key [] workers' e (worker, found, bad) = cc
stop_all-HasFailed stderr key ((k, w) ∷ workers) workers' e (worker, found, bad) =
    let (w', one, e1) = >>=-eq-ok (stop_if stops_replica stderr k w) _ e in
    let (rest, stopped, e2) = >>=-eq-ok (stop_all stops_replica stderr workers) _ e1 in
    let same : (k, w') ∷ rest ≡ workers' = ground arith in
    rw (← same) (elim (if-eq (k == key) _ _ _ found) [
      | inl (here, is_it) ↦
          let w_same : w ≡ worker = ground arith in
          let w_bad : is_stoppable w.status ≡ false = rw w_same bad in
          let kept : w ≡ w' = ground (arith, one, w_bad) in (w', rw here refl, rw (← kept) w_bad)
      | inr (other, later) ↦
          let (x, there, is_bad) =
            stop_all-HasFailed stderr key workers rest stopped (worker, later, bad) in
          (x, rw other there, is_bad)
    ])

shutdown-HasFailed :
    (client_stderr stderr : ℕ → Option Text) (key : ℕ) (pm pm' : ProcessManager)
    → shutdown client_stderr stderr pm ≡ ok pm'
    → HasFailed key pm.workers
    → HasFailed key pm'.workers × (pm'.bug_candidate ≡ pm.bug_candidate)
unfolding shutdown
shutdown-HasFailed client_stderr stderr key pm pm' e failed =
    let (cs, _, e1) = >>=-eq-ok (stop_all stops_client client_stderr pm.client_workers) _ e in
    let (ws, stopped, e2) = >>=-eq-ok (stop_all stops_replica stderr pm.workers) _ e1 in
    let same : record pm { client_workers = cs; workers = ws } ≡ pm' = ground arith in
    rw (← same) (stop_all-HasFailed stderr key pm.workers ws stopped failed, refl)

finish_replica-HasFailed :
    (ending : Ending) (key k : ℕ) (pm pm' : ProcessManager)
    → finish_replica ending k pm ≡ ok pm'
    → (k == key) ≡ false
    → HasFailed key pm.workers
    → HasFailed key pm'.workers × (pm'.bug_candidate ≡ pm.bug_candidate)
unfolding finish_replica
finish_replica-HasFailed ending key k pm pm' e other (worker, found, bad) =
    let (w, _, e1) = >>=-eq-ok (or_panic nil_dereference (find k pm.workers)) _ e in
    let (w', _, e2) = >>=-eq-ok (finish_worker ending w) _ e1 in
    let (left, _, e3) = >>=-eq-ok (wait_group_done pm.wait_group) _ e2 in
    let same : record pm { workers = assign k w' pm.workers; wait_group = left } ≡ pm' =
      ground arith in
    rw (← same) ((worker, find-assign k key w' pm.workers ∙ rw other found, bad), refl)

run_client-same :
    (config : ProcessConfig) (launched : Bool) (sc : ℕ) (pm pm' : ProcessManager)
    → run_client config launched sc pm ≡ ok pm'
    → (pm'.workers ≡ pm.workers) × (pm'.bug_candidate ≡ pm.bug_candidate)
unfolding run_client generate_client_worker_config
run_client-same config launched sc pm pm' e = (ground arith, ground arith)

module _ (fl : Floats) (g : Generator fl.F) (key : ℕ) where
  -- The goroutine of that replica has ended already.
  abbrev pub IsOther : Happening → Type 0
  IsOther (Happening.replica_ends ending k) = (k == key) ≡ false
  IsOther (Happening.arrives payload port) = Unit
  IsOther (Happening.client_ends ending k) = Unit
  IsOther Happening.run_ends = Unit

  -- The replica has failed, and if `ProcessManager.Run` has returned, then with a bug.
  pub record Alarmed (l : Loop fl g) : Type 0 where
    pub failed : HasFailed key l.processes.workers
    pub noticed : l.ended ≡ true → l.processes.bug_candidate ≡ true

  -- With another scheduler, network and schedule.
  Alarmed-same :
      (l l' : Loop fl g)
      → l'.processes.workers ≡ l.processes.workers
      → l'.processes.bug_candidate ≡ l.processes.bug_candidate
      → l'.ended ≡ l.ended
      → Alarmed l
      → Alarmed l'
  Alarmed-same l l' workers bug ended a = record {
    failed = rw workers a.failed;
    noticed = λ e. bug ∙ a.noticed (sym ended ∙ e);
  }

  module _ (frames : List ℕ → List Frame) where
    happen-Alarmed :
        (h : Happening) (l l' : Loop fl g)
        → IsOther h
        → happen fl g frames h l ≡ ok l'
        → Alarmed l
        → Alarmed l'
    unfolding happen finish_client decide_bug
    happen-Alarmed (Happening.arrives payload port) l l' other e a =
        let (nm, _, last) = >>=-eq-ok (intercept frames payload port l.network) _ e in
        let same : record l { network = nm } ≡ l' = ground arith in
        rw (← same) (record { failed = a.failed; noticed = a.noticed })
    happen-Alarmed (Happening.replica_ends ending k) l l' other e a =
        let (pm, finished, last) = >>=-eq-ok (finish_replica ending k l.processes) _ e in
        let same : record l { processes = pm } ≡ l' = ground arith in
        let (failed, bug) =
          finish_replica-HasFailed ending key k l.processes pm finished other a.failed in
        rw (← same) (record { failed = failed; noticed = λ ended. bug ∙ a.noticed ended })
    happen-Alarmed (Happening.client_ends ending k) l l' other e a =
        let workers : l'.processes.workers ≡ l.processes.workers = ground arith in
        let bug : l'.processes.bug_candidate ≡ l.processes.bug_candidate = ground arith in
        let ended : l'.ended ≡ l.ended = ground arith in Alarmed-same l l' workers bug ended a
    happen-Alarmed Happening.run_ends l l' other e a =
        elim (if-eq (l.processes.wait_group == 0 && not l.ended) _ _ _ e) [
          | inr (still, same) ↦ let here : l ≡ l' = ground arith in rw (← here) a
          | inl (over, same) ↦
              let late = any_not_done-HasFailed key l.processes.workers a.failed in
              let workers : l'.processes.workers ≡ l.processes.workers = ground arith in
              let bug : l'.processes.bug_candidate ≡ true = ground arith in
              record { failed = rw workers a.failed; noticed = λ ended. bug }
        ]

    happen_all-Alarmed :
        (hs : List Happening) (l l' : Loop fl g)
        → All IsOther hs
        → happen_all fl g frames hs l ≡ ok l'
        → Alarmed l
        → Alarmed l'
    unfolding happen_all
    happen_all-Alarmed [] l l' others e a = let same : l ≡ l' = ground arith in rw (← same) a
    happen_all-Alarmed (h ∷ hs) l l' others e a =
        let (m, first, rest) = >>=-eq-ok (happen fl g frames h l) _ e in
        happen_all-Alarmed hs m l' others.1 rest (happen-Alarmed h l m others.0 first a)

    happen_all-schedule :
        (hs : List Happening) (l l' : Loop fl g)
        → happen_all fl g frames hs l ≡ ok l'
        → l'.schedule ≡ l.schedule
    unfolding happen_all happen
    happen_all-schedule [] l l' e = ground arith
    happen_all-schedule (h ∷ hs) l l' e =
        let (m, first, rest) = >>=-eq-ok (happen fl g frames h l) _ e in
        happen_all-schedule hs m l' rest ∙ happen-schedule h m first
      where
        happen-schedule :
            (h : Happening) (m : Loop fl g)
            → happen fl g frames h l ≡ ok m
            → m.schedule ≡ l.schedule
        happen-schedule (Happening.arrives payload port) m e' = ground arith
        happen-schedule (Happening.replica_ends ending k) m e' = ground arith
        happen-schedule (Happening.client_ends ending k) m e' = ground arith
        happen-schedule Happening.run_ends m e' = ground arith

    module _ (out : Outside fl g) (decimal : ℕ → Text) (te : TestEngine fl g) where
      -- Nothing else of that replica happens in the round.
      abbrev pub Spares : Round fl g → Type 0
      Spares round = All IsOther round.before × All IsOther round.meanwhile

      request-Alarmed :
          (launched : Bool) (sc : ℤ) (l l' : Loop fl g)
          → request fl g out frames decimal te launched sc l ≡ ok l'
          → Alarmed l
          → Alarmed l'
      unfolding request
      request-Alarmed launched (negsuc i) l l' e a =
          let same : l ≡ l' = ground arith in rw (← same) a
      request-Alarmed launched (pos sc) l l' e a =
          let (pm, first, last) =
            >>=-eq-ok (run_client te.config.process_config launched sc l.processes) _ e in
          let (workers, bug) =
            run_client-same te.config.process_config launched sc l.processes pm first in
          let processes : l'.processes ≡ pm = ground arith in
          let ended : l'.ended ≡ l.ended = ground arith in
          Alarmed-same l l' (ap (λ (p : ProcessManager). p.workers) processes ∙ workers)
            (ap (λ (p : ProcessManager). p.bug_candidate) processes ∙ bug) ended a

      execute_as-Alarmed :
          (t : DecisionType) (launched : Bool) (actions : List Message) (i : ℕ) (l l' : Loop fl g)
          → t ≢ inject_fault
          → execute_as fl g out frames decimal te t launched actions i l ≡ ok l'
          → Alarmed l
          → Alarmed l'
      unfolding execute_as send
      execute_as-Alarmed no_op launched actions i l l' plain e a =
          let same : l ≡ l' = ground arith in rw (← same) a
      execute_as-Alarmed send_message launched actions i l l' plain e a =
          let (m, _, rest) = >>=-eq-ok (at actions (pos i)) _ e in
          let (nm, _, last) = >>=-eq-ok (send_message_by_id l.network m.message_id) _ rest in
          let processes : l'.processes ≡ l.processes = ground arith in
          let ended : l'.ended ≡ l.ended = ground arith in
          Alarmed-same l l' (ap (λ (p : ProcessManager). p.workers) processes)
            (ap (λ (p : ProcessManager). p.bug_candidate) processes) ended a
      execute_as-Alarmed inject_fault launched actions i l l' plain e a = absurd (plain refl)

      run_round-Alarmed :
          (round : Round fl g) (l l' : Loop fl g)
          → Spares round
          → Alarmed l
          → run_round fl g out frames decimal te round l ≡ ok l'
          → Alarmed l'
      unfolding run_round execute
      run_round-Alarmed round l l' spares a e =
          let actions = get_actions l.network.message_queues in
          let ((sc, asked), _, e1) = >>=-eq-ok (Strategy.get_client_request fl g l.scheduler) _ e in
          let (l1, requested, e2) =
            >>=-eq-ok
              (request fl g out frames decimal te round.launched sc
                (record l { scheduler = asked }))
              _ e1 in
          let ((d, chosen), c, e3) =
            >>=-eq-ok (Strategy.next fl g out round.draw actions l1.scheduler) _ e2 in
          let (l2, happened, e4) =
            >>=-eq-ok (happen_all fl g frames round.meanwhile (record l1 { scheduler = chosen })) _
              e3 in
          let (plain, _) = next-IsPlain fl g out round.draw actions l1.scheduler chosen d c in
          let a1 =
            request-Alarmed round.launched sc (record l { scheduler = asked }) l1 requested
              (record { failed = a.failed; noticed = a.noticed }) in
          execute_as-Alarmed d.decision_type round.launched actions d.index l2 l' plain e4 (
            happen_all-Alarmed round.meanwhile (record l1 { scheduler = chosen }) l2 spares.1
              happened (record { failed = a1.failed; noticed = a1.noticed }))

      run_steps-Alarmed :
          (rounds : List (Round fl g)) (l l' : Loop fl g)
          → All Spares rounds
          → Alarmed l
          → run_steps fl g out frames decimal te rounds l ≡ ok l'
          → Alarmed l'
      run_steps-Alarmed rounds l l' spares a e =
          (run_steps-keeps fl g out frames decimal te Spares Alarmed
            (λ round m m' q p e'. happen_all-Alarmed round.before m m' q.0 e' p)
            (λ round m m' q p e'. run_round-Alarmed round m m' q p e') rounds l l' spares a e).0

  module _ (out : Outside fl g) (frames : List ℕ → List Frame) (decimal : ℕ → Text) where
    end_iteration-logs :
        (inputs : Inputs fl g) (it it' : Iterating fl g) (l : Loop fl g)
        → Alarmed l
        → All IsOther inputs.closing
        → end_iteration fl g out frames decimal inputs it l ≡ ok it'
        → it'.logs ≡ it.logs ++ l.schedule ∷ []
    unfolding wait_all
    end_iteration-logs inputs it it' l a others e =
        let (stopped, shut, e1) =
          >>=-eq-ok (shutdown inputs.client_stderr inputs.stderr l.processes) _ e in
        let (_, _, e2) = >>=-eq-ok (Shutdown.shutdown l.network) _ e1 in
        let (l', closed, e3) =
          >>=-eq-ok (happen_all fl g frames inputs.closing (record l { processes = stopped })) _
            e2 in
        let (nm, _, e4) = >>=-eq-ok (Manager.run inputs.listen l'.network) _ e3 in
        let (_, waited, e5) = >>=-eq-ok (wait_all fl g out frames decimal nm l'.ended) _ e4 in
        let (s, _, e6) = >>=-eq-ok (Strategy.next_iteration fl g out l'.scheduler) _ e5 in
        let (failed, bug) =
          shutdown-HasFailed inputs.client_stderr inputs.stderr key l.processes stopped shut
            a.failed in
        let a' =
          happen_all-Alarmed frames inputs.closing (record l { processes = stopped }) l' others
            closed (record { failed = failed; noticed = λ ended. bug ∙ a.noticed ended }) in
        let ended : l'.ended ≡ true = ground arith in
        let found = a'.noticed ended in
        let same =
          happen_all-schedule frames inputs.closing (record l { processes = stopped }) l' closed in
        ground (arith, found, same)

    -- Once a replica has timed out or is in exception, from any point of the loop over the steps on,
    -- while its process does not end again and `ProcessManager.Run` has not returned without a bug:
    -- if the iteration comes to its end, it has logged the schedule of the loop.
    pub failed_replica_logged :
        (inputs : Inputs fl g) (it it' : Iterating fl g) (l l' : Loop fl g)
        → Alarmed l
        → All (Spares frames out decimal it.engine) inputs.rounds
        → All IsOther inputs.closing
        → run_steps fl g out frames decimal it.engine inputs.rounds l ≡ ok l'
        → end_iteration fl g out frames decimal inputs it l' ≡ ok it'
        → it'.logs ≡ it.logs ++ l'.schedule ∷ []
    failed_replica_logged inputs it it' l l' a spares others ran ended =
        end_iteration-logs inputs it it' l'
          (run_steps-Alarmed frames out decimal it.engine inputs.rounds l l' spares a ran) others
          ended
