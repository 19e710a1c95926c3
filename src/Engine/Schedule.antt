-- ===== src/Engine/Schedule.antt =====
-- cmd/dstest/engine/TestEngine.go: the schedule that the loop over the steps keeps.
use dstest.Prelude.{
  inl, inr, Option-cases, ℕ, ◌+◌, ◌==◌, ◌&&◌, ◌≡◌, ◌≢◌, ◌∙◌, refl, sym, ap, true, Bool, List, [],
  ◌∷◌, ◌++◌, ok, >>=-eq-ok, or_panic, nil_dereference, find, get_elem?, length, length-append, ℤ,
  pos, negsuc, at, arith, if-eq, inl, inr, not, minus_one,
}
use dstest.Prelude.Text.{Text}
use dstest.Prelude.Machine.{Floats, Generator}
use dstest.Network.Message.{Message}
use dstest.Network.Manager.{get_actions, send_message_by_id, intercept}
use dstest.Network.Translator.{Frame}
use dstest.Config.{ProcessConfig}
use dstest.Process.{
  ProcessManager, Ending, finish_replica, finish_worker, wait_group_done, decide_bug,
}
use dstest.Process.Clients.{run_client, generate_client_worker_config}
use dstest.Process.Lifecycle.{finish_client}
use dstest.Scheduling.Decision.{DecisionType, no_op, send_message, inject_fault}
use dstest.Scheduling.Strategy
use dstest.Scheduling.Strategy.{Outside}
use dstest.Scheduling.Strategy.Kinds.{next-IsPlain}
use dstest.Engine.{
  request_name, Action, TestEngine, Round, Loop, Happening, happen, happen_all, request, send,
  execute, execute_as, run_round, run_steps,
}
use dstest.Engine.Rounds.{any_round, run_steps-keeps}

finish_replica-ids :
    (ending : Ending) (key : ℕ) (pm pm' : ProcessManager)
    → finish_replica ending key pm ≡ ok pm'
    → pm'.client_ids ≡ pm.client_ids
unfolding finish_replica
finish_replica-ids ending key pm pm' e =
    let (worker, _, rest) = >>=-eq-ok (or_panic nil_dereference (find key pm.workers)) _ e in
    let (worker', _, rest') = >>=-eq-ok (finish_worker ending worker) _ rest in
    let (n, _, last) = >>=-eq-ok (wait_group_done pm.wait_group) _ rest' in ground arith

finish_client-ids :
    (ending : Ending) (key : ℕ) (pm pm' : ProcessManager)
    → finish_client ending key pm ≡ ok pm'
    → pm'.client_ids ≡ pm.client_ids
unfolding finish_client
finish_client-ids ending key pm pm' e =
    let (worker, _, rest) = >>=-eq-ok (or_panic nil_dereference (find key pm.client_workers)) _ e in
    let (worker', _, last) = >>=-eq-ok (finish_worker ending worker) _ rest in ground arith

decide_bug-ids : (pm : ProcessManager) → (decide_bug pm).client_ids ≡ pm.client_ids
unfolding decide_bug
decide_bug-ids pm = ground arith

run_client-ids :
    (config : ProcessConfig) (launched : Bool) (sc : ℕ) (pm pm' : ProcessManager)
    → run_client config launched sc pm ≡ ok pm'
    → length pm'.client_ids ≡ length pm.client_ids + 1
unfolding run_client generate_client_worker_config
run_client-ids config launched sc pm pm' e =
    elim (Option-cases (get_elem? config.client_scripts sc)) [
      | inl missing ↦ let stopped = rw (missing, generate_client_worker_config) at e in cc
      | inr (script, found) ↦
          let made = rw (found, generate_client_worker_config) at e in
          let ids : pm'.client_ids ≡ pm.client_ids ++ (pm.client_id_counter + 1) ∷ [] =
            ground arith in
          ap length ids ∙ length-append pm.client_ids _
    ]

module _ (fl : Floats) (g : Generator fl.F) where
  -- The schedule has an entry for every step that is done and for every client that was started.
  abbrev pub IsLogged : Loop fl g → Type 0
  IsLogged l = length l.schedule ≡ l.s + length l.processes.client_ids

  module _ (frames : List ℕ → List Frame) where
    happen-IsLogged :
        (h : Happening) (l l' : Loop fl g)
        → happen fl g frames h l ≡ ok l'
        → IsLogged l
        → IsLogged l'
    unfolding happen
    happen-IsLogged (Happening.arrives payload port) l l' e i =
        let (nm, _, last) = >>=-eq-ok (intercept frames payload port l.network) _ e in
        let same : record l { network = nm } ≡ l' = ground arith in rw (← same) i
    happen-IsLogged (Happening.replica_ends ending key) l l' e i =
        let (pm, first, last) = >>=-eq-ok (finish_replica ending key l.processes) _ e in
        let same : record l { processes = pm } ≡ l' = ground arith in
        rw (← same) (
          i
          ∙ ap (λ ids. l.s + length ids) (sym (finish_replica-ids ending key l.processes pm first)))
    happen-IsLogged (Happening.client_ends ending key) l l' e i =
        let (pm, first, last) = >>=-eq-ok (finish_client ending key l.processes) _ e in
        let same : record l { processes = pm } ≡ l' = ground arith in
        rw (← same) (
          i
          ∙ ap (λ ids. l.s + length ids) (sym (finish_client-ids ending key l.processes pm first)))
    happen-IsLogged Happening.run_ends l l' e i =
        elim (if-eq (l.processes.wait_group == 0 && not l.ended) _ _ _ e) [
          | inl (ends, last) ↦
              let same : record l { processes = decide_bug l.processes; ended = true } ≡ l' =
                ground arith in
              rw (← same) (i ∙ ap (λ ids. l.s + length ids) (sym (decide_bug-ids l.processes)))
          | inr (goes_on, last) ↦ let same : l ≡ l' = ground arith in rw (← same) i
        ]

    happen_all-IsLogged :
        (hs : List Happening) (l l' : Loop fl g)
        → happen_all fl g frames hs l ≡ ok l'
        → IsLogged l
        → IsLogged l'
    unfolding happen_all
    happen_all-IsLogged [] l l' e i = let same : l ≡ l' = ground arith in rw (← same) i
    happen_all-IsLogged (h ∷ hs) l l' e i =
        let (m, first, rest) = >>=-eq-ok (happen fl g frames h l) _ e in
        happen_all-IsLogged hs m l' rest (happen-IsLogged h l m first i)

  module _ (out : Outside fl g) (frames : List ℕ → List Frame) (decimal : ℕ → Text)
      (te : TestEngine fl g) where
    request-IsLogged :
        (launched : Bool) (sc : ℤ) (l l' : Loop fl g)
        → request fl g out frames decimal te launched sc l ≡ ok l'
        → IsLogged l
        → IsLogged l'
    unfolding request
    request-IsLogged launched (negsuc k) l l' e i =
        let same : l ≡ l' = ground arith in rw (← same) i
    request-IsLogged launched (pos sc) l l' e i =
        let (pm, first, last) =
          >>=-eq-ok (run_client te.config.process_config launched sc l.processes) _ e in
        let ids = run_client-ids te.config.process_config launched sc l.processes pm first in
        let action : Action = record {
          sender = minus_one;
          receiver = minus_one;
          name = request_name fl g out frames decimal te l.s sc;
        } in
        let schedule : l'.schedule ≡ l.schedule ++ action ∷ [] = ground arith in
        let processes : l'.processes ≡ pm = ground arith in
        let s : l'.s ≡ l.s = ground arith in
        let count = ap length schedule ∙ length-append l.schedule (action ∷ []) in
        let clients = ap (λ (p : ProcessManager). length p.client_ids) processes in omega arith

    send-IsLogged :
        (actions : List Message) (k : ℕ) (l l' : Loop fl g)
        → send fl g out frames decimal te actions k l ≡ ok l'
        → IsLogged l
        → IsLogged l'
    unfolding send
    send-IsLogged actions k l l' e i =
        let (m, _, rest) = >>=-eq-ok (at actions (pos k)) _ e in
        let (nm, _, last) = >>=-eq-ok (send_message_by_id l.network m.message_id) _ rest in
        let action : Action = record { sender = m.sender; receiver = m.receiver; name = m.name } in
        let schedule : l'.schedule ≡ l.schedule ++ action ∷ [] = ground arith in
        let processes : l'.processes ≡ l.processes = ground arith in
        let s : l'.s ≡ l.s + 1 = ground arith in
        let count = ap length schedule ∙ length-append l.schedule (action ∷ []) in
        let clients = ap (λ (p : ProcessManager). length p.client_ids) processes in omega arith

    execute_as-IsLogged :
        (t : DecisionType) (launched : Bool) (actions : List Message) (k : ℕ) (l l' : Loop fl g)
        → t ≢ inject_fault
        → execute_as fl g out frames decimal te t launched actions k l ≡ ok l'
        → IsLogged l
        → IsLogged l'
    unfolding execute_as
    execute_as-IsLogged no_op launched actions k l l' plain e i =
        let same : l ≡ l' = ground arith in rw (← same) i
    execute_as-IsLogged send_message launched actions k l l' plain e i =
        send-IsLogged actions k l l' e i
    execute_as-IsLogged inject_fault launched actions k l l' plain e i = absurd (plain refl)

    run_round-IsLogged :
        (round : Round fl g) (l l' : Loop fl g)
        → run_round fl g out frames decimal te round l ≡ ok l'
        → IsLogged l
        → IsLogged l'
    unfolding run_round execute
    run_round-IsLogged round l l' e i =
        let actions = get_actions l.network.message_queues in
        let ((sc, asked), a, e1) = >>=-eq-ok (Strategy.get_client_request fl g l.scheduler) _ e in
        let (l1, b, e2) =
          >>=-eq-ok
            (request fl g out frames decimal te round.launched sc (record l { scheduler = asked }))
            _ e1 in
        let ((d, chosen), c, e3) =
          >>=-eq-ok (Strategy.next fl g out round.draw actions l1.scheduler) _ e2 in
        let (l2, f, e4) =
          >>=-eq-ok (happen_all fl g frames round.meanwhile (record l1 { scheduler = chosen })) _
            e3 in
        let plain = (next-IsPlain fl g out round.draw actions l1.scheduler chosen d c).0 in
        let i1 = request-IsLogged round.launched sc (record l { scheduler = asked }) l1 b i in
        execute_as-IsLogged d.decision_type round.launched actions d.index l2 l' plain e4
          (happen_all-IsLogged frames round.meanwhile (record l1 { scheduler = chosen }) l2 f i1)

    -- Whatever the strategy decides and whatever happens meanwhile: the schedule that is written for a bug
    -- candidate has exactly one entry for every step and for every client that was started.
    pub run_steps-IsLogged :
        (rounds : List (Round fl g)) (l l' : Loop fl g)
        → run_steps fl g out frames decimal te rounds l ≡ ok l'
        → IsLogged l
        → IsLogged l'
    run_steps-IsLogged rounds l l' e i =
        (run_steps-keeps fl g out frames decimal te (λ round. Unit {0}) IsLogged
          (λ round m m' q p e'. happen_all-IsLogged frames round.before m m' e' p)
          (λ round m m' q p e'. run_round-IsLogged round m m' e' p) rounds l l'
          (any_round fl g rounds) i e).0
