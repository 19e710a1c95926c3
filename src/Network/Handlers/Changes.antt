-- ===== src/Network/Handlers/Changes.antt =====
-- The steps as a relation between states, and that each of them returns.
use dstest.Prelude.{
  ℕ, ◌+◌, ◌^◌, ◌≡◌, ◌<◌, refl, inl, inr, true, List, ◌∷◌, some, get_elem?, All, arith, Returns,
  Bool-cases, ◌≢◌, Option-cases, Returns-bind,
}
use dstest.Network.Message.{Message, Payload, is_closed}
use dstest.Network.Queue.{MessageQueue}
use dstest.Network.Translator.{Frame}
use dstest.Network.Router.{Router}
use dstest.Network.Router.Cells.{cell, IsSquare}
use dstest.Network.Router.Connectivity.{Connects, isolate_node-Returns}
use dstest.Network.Manager.{Manager}
use dstest.Network.Manager.Pending.{queue_of}
use dstest.Network.Manager.Delivery.{Released, HeadOther, send_message-front, send_message_no_head}
use dstest.Network.Manager.Heads.{find_head}
use dstest.Network.Handlers.{
  numbered, waiting, resumed, System, Act, begins, queues, wakes, sends, isolates, queue, wake, act,
}
use dstest.Network.Handlers.Invariant.{IsSound}
use dstest.Network.Handlers.Steps.{begun, queued_state, woken, begin-eq, queue-eq, wake-eq}

-- What a step does. A handler that is elsewhere, a channel that is open and a number that no queue
-- begins with change nothing.
pub data Changes (frames : List ℕ → List Frame) (n : ℕ) (s : System) : Act → System → Type 0 where
  began :
      (payload : Payload) (port : ℕ)
      → Changes frames n s (begins payload port) (begun payload port s)
  has_queued :
      (i : ℕ) (m : Message)
      → get_elem? s.handlers i ≡ some (numbered m)
      → Changes frames n s (queues i) (queued_state frames n s i m)
  has_woken :
      (i : ℕ) (m : Message)
      → get_elem? s.handlers i ≡ some (waiting m)
      → is_closed m.send s.manager.channels ≡ true
      → Changes frames n s (wakes i) (woken s i m)
  has_sent :
      (r : ℕ) (m : Message) (rest : List Message) (nm : Manager)
      → r < n
      → queue_of s.manager.message_queues r ≡ m ∷ rest
      → Released n s.manager r m rest nm
      → Changes frames n s (sends m.message_id) (record s { manager = nm })
  has_cut :
      (id : ℕ) (router : Router)
      → IsSquare n router.routing_table
      → Changes frames n s
          (isolates id)
          (record s { manager = record s.manager { router = router } })
  not_queued :
      (i : ℕ)
      → ((m : Message) → get_elem? s.handlers i ≢ some (numbered m))
      → Changes frames n s (queues i) s
  not_woken : (i : ℕ) → Changes frames n s (wakes i) s
  not_sent :
      (id : ℕ)
      → All (λ (mq : MessageQueue). HeadOther id mq.list) s.manager.message_queues
      → Changes frames n s (sends id) s

-- Only a node of the table is isolated.
abbrev pub IsInside : ℕ → Act → Type 0
IsInside n (isolates id) = id < n
IsInside n (begins payload port) = Unit
IsInside n (queues i) = Unit
IsInside n (wakes i) = Unit
IsInside n (sends id) = Unit

module _ (frames : List ℕ → List Frame) {n : ℕ} {s : System} (sound : IsSound n s) where
  queues-Changes : (i : ℕ) → Returns (act frames s (queues i)) (Changes frames n s (queues i))
  unfolding act queue
  queues-Changes i = elim (Option-cases (get_elem? s.handlers i)) [
    | inl out ↦ rw out (not_queued i (λ m e. cc))
    | inr (numbered m, here) ↦ rw (queue-eq sound frames i m here) (has_queued i m here)
    | inr (waiting m, here) ↦ rw here (not_queued i (λ m e. cc))
    | inr (resumed m, here) ↦ rw here (not_queued i (λ m e. cc))
  ]

  wakes-Changes : (i : ℕ) → Returns (act frames s (wakes i)) (Changes frames n s (wakes i))
  unfolding act wake
  wakes-Changes i = elim (Option-cases (get_elem? s.handlers i)) [
    | inl out ↦ rw out (not_woken i)
    | inr (numbered m, here) ↦ rw here (not_woken i)
    | inr (resumed m, here) ↦ rw here (not_woken i)
    | inr (waiting m, here) ↦ elim (Bool-cases (is_closed m.send s.manager.channels)) [
      | inl closed ↦ rw (wake-eq sound i m here closed) (has_woken i m here closed)
      | inr open_yet ↦ rw (here, open_yet) (not_woken i)
    ]
  ]

  sends-Changes : (id : ℕ) → Returns (act frames s (sends id)) (Changes frames n s (sends id))
  unfolding act
  sends-Changes id = elim (find_head id s.manager.message_queues) [
    | inl none_has ↦ rw (send_message_no_head s.manager id none_has) (not_sent id none_has)
    | inr (r, m, rest, lr, e, same) ↦ rw (← same) (
        let inside : r < n = omega (arith, sound.consistent.queue_count) in
        Returns-bind _ _ (Released n s.manager r m rest) _
          (send_message-front sound.consistent r m rest inside e)
          λ nm a. has_sent r m rest nm inside e a)
  ]

  isolates-Changes :
      (id : ℕ) → id < n → Returns (act frames s (isolates id)) (Changes frames n s (isolates id))
  unfolding act
  isolates-Changes id inside =
      Returns-bind _ _ (Connects n _) _ (isolate_node-Returns connects id inside)
        λ router c. has_cut id router c.square
    where
      connects : Connects n (cell s.manager.router.routing_table) s.manager.router
      connects = record { square = sound.consistent.square; cells = λ x y lx ly. refl }

  pub act-Changes :
      (a : Act)
      → IsInside n a
      → s.manager.index + 1 < 2 ^ 64
      → Returns (act frames s a) (Changes frames n s a)
  unfolding act
  act-Changes (begins payload port) inside small =
      rw (begin-eq payload port s small) (began payload port)
  act-Changes (queues i) inside small = queues-Changes i
  act-Changes (wakes i) inside small = wakes-Changes i
  act-Changes (sends id) inside small = sends-Changes id
  act-Changes (isolates id) inside small = isolates-Changes id inside
