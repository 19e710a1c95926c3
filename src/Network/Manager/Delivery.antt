-- ===== src/Network/Manager/Delivery.antt =====
-- `SendMessage` releases the message that it is asked for, and nothing else.
use mathlib.Core.List.{append_assoc}
use dstest.Prelude.{
  ℕ, zero, suc, ◌≡◌, ◌≢◌, ◌<◌, ◌∙◌, ap, sym, subst, refl, false, List, [], ◌∷◌, ◌++◌, pos, length,
  set, length-set, get_or-set_self, get_or-set_ne, ok, All, arith, Returns, ℕ_discrete,
}
use dstest.Network.Message.{Message, Channels, is_closed, send_message}
use dstest.Network.Queue.{MessageQueue, peek, pop_front}
use dstest.Network.Manager.{Manager, release_head, release, send_message_by_id}
use dstest.Network.Manager.Pending.{
  pending, queue_of, before, behind, pending-split, pending-set, Apart, Differ, none_queued,
  All-middle, All-map, Apart-middle, All-left, All-right,
}
use dstest.Network.Manager.Invariant.{IsWaiting, IsConsistent}

abbrev Other : ℕ → Message → Type 0
Other id m = m.message_id ≢ id

release_head-Other :
    (id : ℕ) (l : List Message) (closed : Channels)
    → All (Other id) l
    → release_head id (record { list = l }) closed ≡ ok (record { list = l }, closed)
unfolding release_head peek
release_head-Other id [] closed h = refl
release_head-Other id (m ∷ l) closed h = ground (arith, h.0)

release_head_same :
    (m : Message) (l : List Message) (closed : Channels)
    → is_closed m.send closed ≡ false
    → release_head m.message_id (record { list = m ∷ l }) closed
      ≡ ok (record { list = l }, m.send ∷ closed)
unfolding release_head peek pop_front send_message
release_head_same m l closed h = ground arith

release-Other :
    (id : ℕ) (queues : List MessageQueue) (closed : Channels)
    → All (Other id) (pending queues)
    → release id queues closed ≡ ok (queues, closed)
unfolding release
release-Other id [] closed h = refl
release-Other id (mq ∷ queues) closed h =
    rw (release_head-Other id mq.list closed (All-left (Other id) mq.list (pending queues) h))
      (rw (release-Other id queues closed (All-right (Other id) mq.list (pending queues) h)))

-- The r-th queue begins with the message.
release_at :
    (queues : List MessageQueue) (r : ℕ) (m : Message) (rest : List Message) (closed : Channels)
    → r < length queues
    → queue_of queues r ≡ m ∷ rest
    → All (Other m.message_id) (before queues r ++ (rest ++ behind queues r))
    → is_closed m.send closed ≡ false
    → release m.message_id queues closed
      ≡ ok (set queues r (record { list = rest }), m.send ∷ closed)
unfolding release
release_at [] r m rest closed lr e h o = elim lr [ ]
release_at (mq ∷ queues) zero m rest closed lr e h o = rw e (
    rw (release_head_same m rest closed o) (
      rw (
        release-Other m.message_id queues (m.send ∷ closed)
          (All-right (Other m.message_id) rest (pending queues) h))))
release_at (mq ∷ queues) (suc r) m rest closed lr e h o =
    rw
      (release_head-Other m.message_id mq.list closed
        (All-left (Other m.message_id) mq.list _ (rw append_assoc at h)))
      (rw (
        release_at queues r m rest closed (omega arith) e
          (All-right (Other m.message_id) mq.list _ (rw append_assoc at h)) o))

-- The state after the release of `m` from the r-th queue.
pub record Released (n : ℕ) (nm : Manager) (r : ℕ) (m : Message) (rest : List Message)
    (nm' : Manager) : Type 0 where
  pub queues : nm'.message_queues ≡ set nm.message_queues r (record { list = rest })
  pub channels : nm'.channels ≡ m.send ∷ nm.channels
  pub index : nm'.index ≡ nm.index
  pub heap : nm'.heap ≡ nm.heap
  pub router : nm'.router ≡ nm.router
  pub ports : nm'.port_map ≡ nm.port_map
  pub consistent : IsConsistent n nm'

module _ {n : ℕ} {nm : Manager} (c : IsConsistent n nm) (r : ℕ) (m : Message) (rest : List Message)
    (lr : r < n) (front : queue_of nm.message_queues r ≡ m ∷ rest) where
  abbrev left : List MessageQueue
  left = set nm.message_queues r (record { list = rest })

  in_queues : r < length nm.message_queues
  in_queues = omega (arith, c.queue_count)

  split_front :
      pending nm.message_queues
      ≡ before nm.message_queues r ++ m ∷ (rest ++ behind nm.message_queues r)
  split_front = pending-split nm.message_queues r in_queues ∙ rw front

  split_left : pending left ≡ before nm.message_queues r ++ (rest ++ behind nm.message_queues r)
  split_left = pending-set nm.message_queues r _ in_queues

  abbrev others : List Message
  others = before nm.message_queues r ++ (rest ++ behind nm.message_queues r)

  parts : All (Differ m) others × Apart others
  parts = Apart-middle (before nm.message_queues r) m _ (rw split_front at c.apart)

  waits :
      IsWaiting nm.index nm.heap nm.channels m × All (IsWaiting nm.index nm.heap nm.channels) others
  waits =
      All-middle (IsWaiting nm.index nm.heap nm.channels) (before nm.message_queues r) m _
        (rw split_front at c.waiting)

  abbrev after : Manager
  after = record nm { message_queues = left; channels = m.send ∷ nm.channels }

  pub still_waits :
      (l : List Message)
      → All (Differ m) l
      → All (IsWaiting nm.index nm.heap nm.channels) l
      → All (IsWaiting nm.index nm.heap (m.send ∷ nm.channels)) l
  still_waits [] d w = tt
  still_waits (x ∷ l) d w = (
    record {
      numbered = w.0.numbered;
      allocated = w.0.allocated;
      is_open = ground (arith, d.0.channels, w.0.is_open);
    },
    still_waits l d.1 w.1,
  )

  still_addressed : (x : ℕ) → x < n → All (λ m'. m'.receiver ≡ pos x) (queue_of left x)
  still_addressed x lx = elim (ℕ_discrete r x) [
    | yes e ↦
        rw (← e)
          (subst (All (λ m'. m'.receiver ≡ pos r)) (sym now) (rw front at (c.addressed r lr)).1)
    | no e ↦ subst (All (λ m'. m'.receiver ≡ pos x)) (sym (same e)) (c.addressed x lx)
  ]
    where
      now : queue_of left r ≡ rest
      now =
          ap (λ (q : MessageQueue). q.list)
            (get_or-set_self nm.message_queues r (record { list = rest }) none_queued in_queues)

      same : r ≢ x → queue_of left x ≡ queue_of nm.message_queues x
      same e =
          ap (λ (q : MessageQueue). q.list)
            (get_or-set_ne nm.message_queues r x (record { list = rest }) none_queued e)

  after-IsConsistent : IsConsistent n after
  after-IsConsistent = record {
    queue_count = length-set nm.message_queues r _ ∙ c.queue_count;
    square = c.square;
    apart = rw split_left parts.1;
    waiting = rw split_left (still_waits others parts.0 waits.1);
    closed = (waits.0.allocated, c.closed);
    addressed = still_addressed;
  }

  -- In a consistent manager the message at the front of a queue is released by its number: it
  -- leaves its queue, its channel is closed, the other queues stay, and the invariant holds again.
  pub send_message-front : Returns (send_message_by_id nm m.message_id) (Released n nm r m rest)
  unfolding send_message_by_id
  send_message-front =
      rw
        (release_at nm.message_queues r m rest nm.channels in_queues front
          (All-map (Differ m) (Other m.message_id) others (λ x d e. d.numbers (sym e)) parts.0)
          waits.0.is_open)
        (record {
          queues = refl;
          channels = refl;
          index = refl;
          heap = refl;
          router = refl;
          ports = refl;
          consistent = after-IsConsistent;
        })

abbrev pub HeadOther : ℕ → List Message → Type 0
HeadOther id [] = Unit
HeadOther id (m ∷ l) = m.message_id ≢ id

release_head_no :
    (id : ℕ) (l : List Message) (closed : Channels)
    → HeadOther id l
    → release_head id (record { list = l }) closed ≡ ok (record { list = l }, closed)
unfolding release_head peek
release_head_no id [] closed h = refl
release_head_no id (m ∷ l) closed h = ground (arith, h)

release_no_head :
    (id : ℕ) (queues : List MessageQueue) (closed : Channels)
    → All (λ (mq : MessageQueue). HeadOther id mq.list) queues
    → release id queues closed ≡ ok (queues, closed)
unfolding release
release_no_head id [] closed h = refl
release_no_head id (mq ∷ queues) closed h =
    rw (release_head_no id mq.list closed h.0) (rw (release_no_head id queues closed h.1))

-- A number that no queue begins with releases nothing, also where a message behind a front has it.
pub send_message_no_head :
    (nm : Manager) (id : ℕ)
    → All (λ (mq : MessageQueue). HeadOther id mq.list) nm.message_queues
    → send_message_by_id nm id ≡ ok nm
unfolding send_message_by_id
send_message_no_head nm id h = rw (release_no_head id nm.message_queues nm.channels h)
