-- ===== src/Network/Manager/History.antt =====
-- Arrivals and releases in any order: the interceptors' goroutines call `intercept`, the engine calls
-- `SendMessage`.
use mathlib.Core.List.{append_assoc, append-nil}
use dstest.Prelude.{
  ℕ, zero, suc, ◌+◌, ◌^◌, ◌==◌, ◌≡◌, ◌<◌, ◌≤◌, inl, inr, ◌∙◌, ap, sym, refl, ◌&&◌, List, [], ◌∷◌,
  ◌++◌, Outcome, ok, ◌>>=◌, length, replicate, length-replicate, Option, set, All, arith,
  if◌then◌else◌, Returns, Returns-bind, Returns-map, ℕ_discrete, Bool-cases,
}
use dstest.Network.Message.{Message, Payload}
use dstest.Network.Queue
use dstest.Network.Queue.{MessageQueue}
use dstest.Network.Manager.Init.{IsReady}
use dstest.Prelude.Text.{Text}
use dstest.Network.Translator.{Frame, translate}
use dstest.Network.Manager.{Manager, SenderReceiverPair, pair_of, intercept, send_message_by_id}
use dstest.Network.Manager.Pending.{pending, queue_of, none_queued, Apart}
use dstest.Network.Manager.Invariant.{IsConsistent}
use dstest.Network.Manager.Delivery.{Released, HeadOther, send_message-front, send_message_no_head}
use dstest.Network.Manager.Queueing.{passes, queued}
use dstest.Network.Manager.Arrival.{Arrived, request, intercept-Returns}
use dstest.Network.Manager.Heads.{
  front_with, find_head, other_front, get_or-All, other_heads, queue_of-set_self, queue_of-set_ne,
}

pub data Call : Type 0 where
  arrives : Payload → ℕ → Call
  sends : ℕ → Call

-- The manager, with the messages accepted for each node so far and those released to it.
pub record Log : Type 0 where
  pub manager : Manager
  pub accepted : ℕ → List Message
  pub released : ℕ → List Message

module _ (frames : List ℕ → List Frame) where
  unfoldable pub step : Manager → Call → Outcome Manager
  step nm (arrives payload port) = intercept frames payload port nm
  step nm (sends id) = send_message_by_id nm id

  -- What a call adds to the messages accepted for the r-th of `n` nodes.
  abbrev pub accepts : ℕ → Manager → Call → ℕ → List Message
  accepts n nm (arrives payload port) r =
      let p = pair_of nm port in
      if passes n nm p && p.receiver == r then translate frames (request payload p nm) ∷ [] else []
  accepts n nm (sends id) r = []

  -- What a call adds to the messages released to the r-th node.
  abbrev pub releases : Manager → Call → ℕ → List Message
  releases nm (arrives payload port) r = []
  releases nm (sends id) r = front_with id (queue_of nm.message_queues r)

  unfoldable pub run_calls : ℕ → Log → List Call → Outcome Log
  run_calls n s [] = ok s
  run_calls n s (call ∷ calls) = do
    nm ← step s.manager call
    run_calls n
        (record {
          manager = nm;
          accepted = λ r. s.accepted r ++ accepts n s.manager call r;
          released = λ r. s.released r ++ releases s.manager call r;
        })
        calls

-- What one call does to the lines of the nodes.
pub record Moves (frames : List ℕ → List Frame) (n : ℕ) (nm : Manager) (call : Call) (nm' : Manager)
    : Type 0 where
  pub consistent : IsConsistent n nm'
  pub numbered : nm'.index ≤ nm.index + 1
  pub lines :
      (r : ℕ)
      → r < n
      → queue_of nm.message_queues r ++ accepts frames n nm call r
        ≡ releases frames nm call r ++ queue_of nm'.message_queues r

-- For each node, what was accepted for it is what was released to it followed by what still waits.
pub record IsFifo (n : ℕ) (s : Log) : Type 0 where
  pub consistent : IsConsistent n s.manager
  pub order : (r : ℕ) → r < n → s.accepted r ≡ s.released r ++ queue_of s.manager.message_queues r

-- What queueing a message does to the line of the r-th node.
pub queued-line :
    {n : ℕ} {nm : Manager}
    → IsConsistent n nm
    → (p : SenderReceiverPair) (m : Message) (r : ℕ) → r < n
    → queue_of nm.message_queues r ++ (if passes n nm p && p.receiver == r then m ∷ [] else [])
      ≡ queue_of (queued n nm p m) r
queued-line {n} {nm} c p m r lr = elim (Bool-cases (passes n nm p)) [
  | inr dropped ↦ rw dropped (append-nil _)
  | inl passed ↦ elim (ℕ_discrete p.receiver r) [
    | yes e ↦ rw passed (
        ground (
          arith,
          e,
          queue_of-set_self nm.message_queues p.receiver
              (record { list = queue_of nm.message_queues p.receiver ++ m ∷ [] })
              (omega (arith, c.queue_count)),
        ))
    | no e ↦ rw passed (
        ground (
          arith,
          e,
          append-nil (queue_of nm.message_queues r),
          queue_of-set_ne nm.message_queues p.receiver r
              (record { list = queue_of nm.message_queues p.receiver ++ m ∷ [] }) e,
        ))
  ]
]

-- What the release of the front of the r-th queue does to the line of the x-th node.
pub released-line :
    (queues : List MessageQueue)
    → Apart (pending queues)
    → (r : ℕ) (m : Message) (rest : List Message) → r < length queues
    → queue_of queues r ≡ m ∷ rest
    → (x : ℕ)
    → queue_of queues x ++ []
      ≡ front_with m.message_id (queue_of queues x)
        ++ queue_of (set queues r (record { list = rest })) x
released-line queues apart r m rest lr e x = append-nil _ ∙ elim (ℕ_discrete r x) [
  | yes at_front ↦
      rw (← at_front)
        (rw (queue_of-set_self queues r (record { list = rest }) lr, e) (ground arith))
  | no ne ↦ rw (
    queue_of-set_ne queues r x (record { list = rest }) ne,
    other_front m.message_id (queue_of queues x) (other_heads queues r x m rest apart ne e),
  )
]

module _ (frames : List ℕ → List Frame) {n : ℕ} where
  pub arrives-Moves :
      (nm : Manager) (payload : Payload) (port : ℕ)
      → IsConsistent n nm
      → nm.index + 1 < 2 ^ 64
      → Returns (step frames nm (arrives payload port)) (Moves frames n nm (arrives payload port))
  unfolding step
  arrives-Moves nm payload port c small =
      Returns-map _ (Arrived n nm p m) _ (intercept-Returns frames payload port c small) λ nm' a.
        record {
          consistent = a.consistent;
          numbered = omega (arith, a.index);
          lines = λ r lr. rw a.queues (queued-line c p m r lr);
        }
    where
      p : SenderReceiverPair
      p = pair_of nm port

      m : Message
      m = translate frames (request payload p nm)

  sends-Moves :
      (nm : Manager) (id : ℕ)
      → IsConsistent n nm
      → Returns (step frames nm (sends id)) (Moves frames n nm (sends id))
  unfolding step
  sends-Moves nm id c = elim (find_head id nm.message_queues) [
    | inl none_has ↦ rw (send_message_no_head nm id none_has) (record {
      consistent = c;
      numbered = omega arith;
      lines = λ r lr.
          append-nil _
          ∙ ap (λ l. l ++ queue_of nm.message_queues r)
              (sym (
                other_front id (queue_of nm.message_queues r) (
                  get_or-All (λ (mq : MessageQueue). HeadOther id mq.list) nm.message_queues r
                    none_queued tt none_has)));
    })
    | inr (r, m, rest, lr, e, same) ↦ rw (← same) (
        Returns-map _ (Released n nm r m rest) _
          (send_message-front c r m rest (omega (arith, c.queue_count)) e)
          λ nm' a. record {
            consistent = a.consistent;
            numbered = omega (arith, a.index);
            lines = λ x lx. rw a.queues (released-line nm.message_queues c.apart r m rest lr e x);
          })
  ]

  step-Moves :
      (nm : Manager) (call : Call)
      → IsConsistent n nm
      → nm.index + 1 < 2 ^ 64
      → Returns (step frames nm call) (Moves frames n nm call)
  step-Moves nm (arrives payload port) c small = arrives-Moves nm payload port c small
  step-Moves nm (sends id) c small = sends-Moves nm id c

  -- Arrivals and releases in any order return while fewer than 2^64 messages are numbered, keep the
  -- manager consistent, and for each node what was accepted is what was released to it followed by what
  -- still waits: no message is lost, doubled or overtaken.
  run_calls-IsFifo :
      (calls : List Call) (s : Log)
      → s.manager.index + length calls < 2 ^ 64
      → IsFifo n s
      → Returns (run_calls frames n s calls) (IsFifo n)
  unfolding run_calls
  run_calls-IsFifo [] s small f = f
  run_calls-IsFifo (call ∷ calls) s small f =
      Returns-bind _ _ (Moves frames n s.manager call) _
        (step-Moves s.manager call f.consistent (omega arith))
        λ nm m. run_calls-IsFifo calls _ (omega (arith, m.numbered)) (record {
          consistent = m.consistent;
          order = λ r lr. shift nm r (f.order r lr) (m.lines r lr);
        })
    where
      shift :
          (nm : Manager) (r : ℕ)
          → s.accepted r ≡ s.released r ++ queue_of s.manager.message_queues r
          → queue_of s.manager.message_queues r ++ accepts frames n s.manager call r
            ≡ releases frames s.manager call r ++ queue_of nm.message_queues r
          → s.accepted r ++ accepts frames n s.manager call r
            ≡ (s.released r ++ releases frames s.manager call r) ++ queue_of nm.message_queues r
      shift nm r order lines = rw order (simp append_assoc (rw lines))

pending_none : (n : ℕ) → pending (replicate n Queue.init) ≡ []
unfolding Queue.init
pending_none zero = refl
pending_none (suc n) = pending_none n

queue_of_none : (n r : ℕ) → queue_of (replicate n Queue.init) r ≡ []
unfolding Queue.init
queue_of_none zero r = refl
queue_of_none (suc n) zero = refl
queue_of_none (suc n) (suc r) = queue_of_none n r

-- A manager that `Init` has made ready starts such a history, with nothing accepted or released.
pub ready-IsFifo :
    (base n : ℕ) (nm : Manager) (result : Manager × Option Text)
    → All (λ ch. ch < nm.heap) nm.channels
    → IsReady base n nm result
    → IsFifo n (record { manager = result.0; accepted = λ r. []; released = λ r. [] })
ready-IsFifo base n nm result old ready = record {
  consistent = record {
    queue_count = rw ready.queues (length-replicate n Queue.init);
    square = ready.connected.square;
    apart = rw ready.queues (rw (pending_none n) tt);
    waiting = rw ready.queues (rw (pending_none n) tt);
    closed = rw (ready.channels, ready.heap) old;
    addressed = λ r lr. rw ready.queues (rw (queue_of_none n r) tt);
  };
  order = λ r lr. rw ready.queues (sym (queue_of_none n r));
}
