-- ===== src/Engine/Busy.antt =====
-- A round of the loop over the steps in which a message waits.
use dstest.Prelude.{
  Returns-map, ap, Bool, ℕ, suc, ◌+◌, ◌^◌, ◌≡◌, ◌<◌, ◌≤◌, ◌∙◌, sym, ap, subst, false, List, [], ◌∷◌,
  ◌>>=◌, Returns, Returns-bind, Returns-map, length, All, arith,
}
use dstest.Prelude.Text.{Text}
use dstest.Prelude.Machine.{Floats, Generator}
use dstest.Network.Message.{Message}
use dstest.Network.Translator.{Frame}
use dstest.Network.Manager.{get_actions}
use dstest.Network.Manager.Pending.{pending}
use dstest.Network.Manager.Invariant.{IsConsistent}
use dstest.Network.Manager.Actions.{get_actions-Front, get_actions_some}
use dstest.Scheduling.Decision.{SchedulerDecision, DecisionType, send_message}
use dstest.Scheduling.Requests.{InRange}
use dstest.Scheduling.RandomScheduler.{Picked}
use dstest.Scheduling.Strategy
use dstest.Scheduling.Strategy.{Outside, Scheduler}
use dstest.Engine.{TestEngine, Round, Loop, happen_all, send, execute, execute_as, run_round}
use dstest.Engine.Arrivals.{IsArrival, Grown-Front, Grown-pending, Received, happen_all-Received}
use dstest.Engine.Sending.{
  Steady, get_client_request-Steady, next-Steady, Picked-some, Asked, request-Asked, Sent,
  send-Sent,
}

module _ (fl : Floats) (g : Generator fl.F) where
  -- Nothing happens in the round but arrivals.
  abbrev pub IsBusy : Round fl g → Type 0
  IsBusy round = All IsArrival round.before × All IsArrival round.meanwhile

  abbrev pub arrivals : List (Round fl g) → ℕ
  arrivals [] = 0
  arrivals (round ∷ rounds) = length round.before + (length round.meanwhile + arrivals rounds)

  module _ (out : Outside fl g) (frames : List ℕ → List Frame) (decimal : ℕ → Text)
      (te : TestEngine fl g) (n : ℕ) where
    abbrev pub scripts : ℕ
    scripts = length te.config.process_config.client_scripts

    pub record Ready (l : Loop fl g) : Type 0 where
      pub steady : Steady fl g scripts l.scheduler
      pub consistent : IsConsistent n l.network
      pub no_bug : l.processes.bug_candidate ≡ false

    -- A step with `k` arrivals: one message was released.
    pub record Stepped (k : ℕ) (l l' : Loop fl g) : Type 0 where
      pub ready : Ready l'
      pub s : l'.s ≡ suc l.s
      pub index : l'.network.index ≤ l.network.index + k
      pub channels : length l'.network.channels ≡ suc (length l.network.channels)
      pub router : l'.network.router ≡ l.network.router
      pub ports : l'.network.port_map ≡ l.network.port_map
      pub left :
          length (pending l.network.message_queues)
          ≤ suc (length (pending l'.network.message_queues))

    execute_send :
        (launched : Bool) (actions : List Message) (d : SchedulerDecision) (l : Loop fl g)
        → d.decision_type ≡ send_message
        → execute fl g out frames decimal te launched actions d l
          ≡ send fl g out frames decimal te actions d.index l
    unfolding execute execute_as
    execute_send launched actions d l sends =
        ap
          (λ (t : DecisionType). execute_as fl g out frames decimal te t launched actions d.index l)
          sends

    -- The choice is carried out, after the arrivals that come between.
    finish_round :
        (round : Round fl g) (d : SchedulerDecision) (l : Loop fl g)
        → Ready l
        → All IsArrival round.meanwhile
        → l.network.index + length round.meanwhile < 2 ^ 64
        → d.decision_type ≡ send_message
        → d.index < length (get_actions l.network.message_queues)
        → Returns
            (happen_all fl g frames round.meanwhile l
              >>= execute fl g out frames decimal te round.launched
                  (get_actions l.network.message_queues)
                  d)
            (Stepped (length round.meanwhile) l)
    finish_round round d l ready a small sends inside =
        let actions = get_actions l.network.message_queues in
        let (m, chosen, front) = get_actions-Front l.network.message_queues d.index inside in
        Returns-bind _ _ (Received fl g frames n (length round.meanwhile) l) _
          (happen_all-Received fl g frames n round.meanwhile l a ready.consistent small)
          λ l' received.
            let grown = received.grown in
            let more = Grown-pending n _ l.network l'.network ready.consistent grown in
            let kept = received.rest in
            rw (execute_send round.launched actions d l' sends) (
              Returns-map _ (Sent fl g out frames decimal te n l') _
                (send-Sent fl g out frames decimal te n actions d.index m l' grown.consistent chosen
                  (Grown-Front n _ l.network l'.network m ready.consistent grown front))
                λ l'' sent.
                  let numbered = grown.numbered in
                  let same_index = sent.index in
                  let left = sent.left in
                  record {
                    ready = record {
                      steady =
                          subst (Steady fl g scripts)
                            (sym (sent.scheduler ∙ ap (λ (x : Loop fl g). x.scheduler) kept))
                            ready.steady;
                      consistent = sent.consistent;
                      no_bug =
                          sent.bug
                          ∙ ap (λ (x : Loop fl g). x.processes.bug_candidate) kept
                          ∙ ready.no_bug;
                    };
                    s = sent.s ∙ ap (λ (x : Loop fl g). suc x.s) kept;
                    index = omega arith;
                    channels = sent.channels ∙ ap (λ closed. suc (length closed)) grown.channels;
                    router = sent.router ∙ grown.router;
                    ports = sent.ports ∙ grown.ports;
                    left = omega arith;
                  })

    choose_round :
        (round : Round fl g) (l : Loop fl g)
        → Ready l
        → All IsArrival round.meanwhile
        → 0 < length (pending l.network.message_queues)
        → l.network.index + length round.meanwhile < 2 ^ 64
        → Returns
            (Strategy.next fl g out round.draw (get_actions l.network.message_queues) l.scheduler
              >>= λ (d, chosen).
                  happen_all fl g frames round.meanwhile (record l { scheduler = chosen })
                  >>= execute fl g out frames decimal te round.launched
                      (get_actions l.network.message_queues)
                      d)
            (Stepped (length round.meanwhile) l)
    choose_round round l ready a waiting small =
        let actions = get_actions l.network.message_queues in
        Returns-bind _ _ (λ result. Picked fl g actions result.0 × Steady fl g scripts result.1) _
          (next-Steady fl g out round.draw actions scripts l.scheduler ready.steady)
          λ (d, chosen) (picked, steady).
            let (sends, inside) =
              Picked-some fl g actions d (get_actions_some l.network.message_queues waiting)
                picked in
            let ready' : Ready (record l { scheduler = chosen }) = record {
              steady = steady;
              consistent = ready.consistent;
              no_bug = ready.no_bug;
            } in
            Returns-map _ (Stepped (length round.meanwhile) (record l { scheduler = chosen })) _
              (finish_round round d (record l { scheduler = chosen }) ready' a small sends inside)
              λ l' t. record {
                ready = t.ready;
                s = t.s;
                index = t.index;
                channels = t.channels;
                router = t.router;
                ports = t.ports;
                left = t.left;
              }

    pub run_round-Stepped :
        (round : Round fl g) (l : Loop fl g)
        → 0 < scripts
        → Ready l
        → All IsArrival round.meanwhile
        → 0 < length (pending l.network.message_queues)
        → l.network.index + length round.meanwhile < 2 ^ 64
        → Returns
            (run_round fl g out frames decimal te round l)
            (Stepped (length round.meanwhile) l)
    unfolding run_round
    run_round-Stepped round l some_scripts ready a waiting small =
        Returns-bind _ _ (λ result. InRange scripts result.0 × Steady fl g scripts result.1) _
          (get_client_request-Steady fl g scripts l.scheduler some_scripts ready.steady)
          λ (sc, asked) (in_range, steady).
            Returns-bind _ _ (Asked fl g out frames decimal te (record l { scheduler = asked })) _
              (request-Asked fl g out frames decimal te round.launched sc
                (record l { scheduler = asked }) in_range)
              λ l1 same.
                let ready1 : Ready l1 = record {
                  steady = subst (Steady fl g scripts) (sym same.scheduler) steady;
                  consistent = subst (IsConsistent n) (sym same.network) ready.consistent;
                  no_bug = same.bug ∙ ready.no_bug;
                } in
                let s = same.s in
                rw (← same.network) (
                  Returns-map _ (Stepped (length round.meanwhile) l1) _
                    (choose_round round l1 ready1 a (rw same.network waiting)
                      (rw same.network small))
                    λ l' t. record {
                      ready = t.ready;
                      s = t.s ∙ ap suc s;
                      index = t.index;
                      channels = t.channels;
                      router = t.router;
                      ports = t.ports;
                      left = t.left;
                    })

    -- All steps are done, and each has released a message.
    abbrev pub IsDone : Loop fl g → Loop fl g → Type 0
    IsDone l l' =
        (l'.s ≡ te.steps)
        × (length l'.network.channels + l.s ≡ length l.network.channels + te.steps)
        × Ready l'

    pub Received-Ready :
        (k : ℕ) (l l' : Loop fl g) → Ready l → Received fl g frames n k l l' → Ready l'
    Received-Ready k l l' ready received = record {
      steady =
          subst (Steady fl g scripts) (sym (ap (λ (x : Loop fl g). x.scheduler) received.rest))
            ready.steady;
      consistent = received.grown.consistent;
      no_bug = ap (λ (x : Loop fl g). x.processes.bug_candidate) received.rest ∙ ready.no_bug;
    }
