-- ===== src/Engine/Sending.antt =====
-- The strategies that always choose a message, and what the engine does with a message that is chosen.
use dstest.Prelude.{
  ℕ, suc, ◌≡◌, ◌<◌, ◌∙◌, refl, ap, Bool, List, [], ◌∷◌, ok, Returns, Returns-ok, length, get_elem?,
  arith, ℤ, pos, negsuc, some, get_elem?-get_or,
}
use dstest.Process.Clients.{run_client, generate_client_worker_config}
use dstest.Prelude.Text.{Text}
use dstest.Prelude.Machine.{Floats, Generator}
use dstest.Network.Message.{Message}
use dstest.Network.Queue.{MessageQueue}
use dstest.Network.Translator.{Frame}
use dstest.Network.Manager.{send_message_by_id}
use dstest.Network.Manager.Pending.{pending}
use dstest.Network.Manager.Invariant.{IsConsistent}
use dstest.Network.Manager.Delivery.{Released, send_message-front}
use dstest.Network.Manager.Actions.{Front, pending-release}
use dstest.Scheduling.Decision.{SchedulerDecision, send_message}
use dstest.Scheduling.Requests
use dstest.Scheduling.Requests.{InRange, Answered}
use dstest.Scheduling.RandomScheduler
use dstest.Scheduling.RandomScheduler.{Picked}
use dstest.Scheduling.Ql.QlScheduler
use dstest.Scheduling.Strategy
use dstest.Scheduling.Strategy.{Outside, Scheduler, random, ql, pct, replay}
use dstest.Engine.{TestEngine, Loop, request, send}

module _ (fl : Floats) (g : Generator fl.F) where
  -- A scheduler that chooses at random or asks the agent, with `k` client scripts.
  abbrev pub Steady : ℕ → Scheduler fl g → Type 0
  Steady k (random s) = s.client.num_client_types ≡ k
  Steady k (ql s) = s.client.num_client_types ≡ k
  Steady k (pct s) = ⊥
  Steady k (replay s) = ⊥

  pub get_client_request-Steady :
      (k : ℕ) (s : Scheduler fl g)
      → 0 < k
      → Steady k s
      → Returns
          (Strategy.get_client_request fl g s)
          λ result. InRange k result.0 × Steady k result.1
  unfolding Strategy.get_client_request RandomScheduler.get_client_request
      QlScheduler.get_client_request
  get_client_request-Steady k (random s) some_types steady =
      let ((answer, c), e, a) =
        Returns-ok _ (Answered fl g s.client)
          (Requests.get_client_request-Returns fl g s.client (rw steady some_types)) in
      rw e (rw (← steady) a.in_range, a.types ∙ steady)
  get_client_request-Steady k (ql s) some_types steady =
      let ((answer, c), e, a) =
        Returns-ok _ (Answered fl g s.client)
          (Requests.get_client_request-Returns fl g s.client (rw steady some_types)) in
      rw e (rw (← steady) a.in_range, a.types ∙ steady)
  get_client_request-Steady k (pct s) some_types steady = absurd steady
  get_client_request-Steady k (replay s) some_types steady = absurd steady

  random_types :
      (messages : List Message) (s s' : RandomScheduler.RandomScheduler fl g)
      (d : SchedulerDecision)
      → RandomScheduler.next fl g messages s ≡ ok (d, s')
      → s'.client.num_client_types ≡ s.client.num_client_types
  unfolding RandomScheduler.next
  random_types messages s s' d e = ground arith

  ql_types :
      (hash : List Message → ℕ) (draw : fl.F) (messages : List Message)
      (s s' : QlScheduler.QlScheduler fl g) (d : SchedulerDecision)
      → QlScheduler.next fl g hash draw messages s ≡ ok (d, s')
      → s'.client.num_client_types ≡ s.client.num_client_types
  unfolding QlScheduler.next
  ql_types hash draw [] s s' d e = ground arith
  ql_types hash draw (m ∷ messages) s s' d e = ground arith

  pub next-Steady :
      (out : Outside fl g) (draw : fl.F) (messages : List Message) (k : ℕ) (s : Scheduler fl g)
      → Steady k s
      → Returns
          (Strategy.next fl g out draw messages s)
          λ result. Picked fl g messages result.0 × Steady k result.1
  unfolding Strategy.next
  next-Steady out draw messages k (random s) steady =
      let ((d, s'), e, picked) =
        Returns-ok _ (λ result. Picked fl g messages result.0)
          (RandomScheduler.next-Picked fl g messages s) in
      rw e (picked, random_types messages s s' d e ∙ steady)
  next-Steady out draw messages k (ql s) steady =
      let ((d, s'), e, both) =
        Returns-ok (QlScheduler.next fl g out.hash draw messages s)
          (λ result.
            Picked fl g messages result.0
            × QlScheduler.Exploited fl g draw s messages result.0
            × (result.1.agent ≡ s.agent))
          (QlScheduler.next-Exploited fl g out.hash draw messages s) in
      rw e (both.0, ql_types out.hash draw messages s s' d e ∙ steady)
  next-Steady out draw messages k (pct s) steady = absurd steady
  next-Steady out draw messages k (replay s) steady = absurd steady

  pub Picked-some :
      (messages : List Message) (d : SchedulerDecision)
      → 0 < length messages
      → Picked fl g messages d
      → (d.decision_type ≡ send_message) × (d.index < length messages)
  Picked-some [] d h picked = absurd (omega arith)
  Picked-some (m ∷ messages) d h picked = picked

  module _ (out : Outside fl g) (frames : List ℕ → List Frame) (decimal : ℕ → Text)
      (te : TestEngine fl g) where
    -- The loop goes on as before, with the processes and the schedule changed.
    pub record Asked (l l' : Loop fl g) : Type 0 where
      pub network : l'.network ≡ l.network
      pub scheduler : l'.scheduler ≡ l.scheduler
      pub s : l'.s ≡ l.s
      pub bug : l'.processes.bug_candidate ≡ l.processes.bug_candidate

    pub request-Asked :
        (launched : Bool) (sc : ℤ) (l : Loop fl g)
        → InRange (length te.config.process_config.client_scripts) sc
        → Returns (request fl g out frames decimal te launched sc l) (Asked l)
    unfolding request run_client generate_client_worker_config
    request-Asked launched (negsuc k) l h = record {
      network = refl;
      scheduler = refl;
      s = refl;
      bug = refl;
    }
    request-Asked launched (pos k) l h =
        rw (get_elem?-get_or te.config.process_config.client_scripts k [] h)
          (record { network = refl; scheduler = refl; s = refl; bug = refl })

    -- A message was released, and a step is done.
    pub record Sent (n : ℕ) (l l' : Loop fl g) : Type 0 where
      pub consistent : IsConsistent n l'.network
      pub s : l'.s ≡ suc l.s
      pub scheduler : l'.scheduler ≡ l.scheduler
      pub bug : l'.processes.bug_candidate ≡ l.processes.bug_candidate
      pub index : l'.network.index ≡ l.network.index
      pub router : l'.network.router ≡ l.network.router
      pub ports : l'.network.port_map ≡ l.network.port_map
      pub channels : length l'.network.channels ≡ suc (length l.network.channels)
      pub left :
          suc (length (pending l'.network.message_queues))
          ≡ length (pending l.network.message_queues)

    pub send-Sent :
        (n : ℕ) (actions : List Message) (k : ℕ) (m : Message) (l : Loop fl g)
        → IsConsistent n l.network
        → get_elem? actions k ≡ some m
        → Front l.network.message_queues m
        → Returns (send fl g out frames decimal te actions k l) (Sent n l)
    unfolding send
    send-Sent n actions k m l c e f =
        let count = c.queue_count in
        let inside = f.inside in
        let (nm, sent, r) =
          Returns-ok (send_message_by_id l.network m.message_id) (Released n l.network f.r m f.rest)
            (send_message-front c f.r m f.rest (omega arith) f.begins) in
        rw (e, sent)
          (record {
            consistent = r.consistent;
            s = omega arith;
            scheduler = refl;
            bug = refl;
            index = r.index;
            router = r.router;
            ports = r.ports;
            channels = ap length r.channels;
            left =
                ap (λ (queues : List MessageQueue). suc (length (pending queues))) r.queues
                ∙ pending-release l.network.message_queues f.r m f.rest f.inside f.begins;
          })
