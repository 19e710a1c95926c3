-- ===== src/Network/Manager/Queueing.antt =====
-- A numbered message that its handler queues: it is last in its receiver's line, or dropped by the
-- router.
use mathlib.Core.List.{append_assoc}
use dstest.Prelude.{
  ℕ, ◌≡◌, ◌≢◌, ◌<◌, ◌∙◌, ap, sym, subst, refl, Bool, true, ◌&&◌, List, [], ◌∷◌, ◌++◌, pos, length,
  set, length-set, get_or-set_self, get_or-set_ne, ok, All, All-append, arith, if◌then◌else◌,
  ℕ_discrete, ltb, at-lt, put-lt, Bool-cases, inl, inr, ◌⊎◌,
}
use dstest.Network.Message.{Message}
use dstest.Network.Queue.{MessageQueue, push_back}
use dstest.Network.Translator.{Frame, translate}
use dstest.Network.Router.Cells.{cell}
use dstest.Network.Router.Connectivity.{Connects, has_connectivity-Connects}
use dstest.Network.Manager.{Manager, SenderReceiverPair, queue_message}
use dstest.Network.Manager.Pending.{
  pending, queue_of, before, behind, pending-split, pending-set, Differ, none_queued, All-insert,
  Apart-insert,
}
use dstest.Network.Manager.Invariant.{IsWaiting, IsConsistent}

-- A translation changes the type and the name of a message alone.
pub translate_keeps :
    (frames : List ℕ → List Frame) (m : Message)
    → ((translate frames m).sender ≡ m.sender)
      × ((translate frames m).receiver ≡ m.receiver)
      × ((translate frames m).message_id ≡ m.message_id)
      × ((translate frames m).send ≡ m.send)
      × ((translate frames m).address ≡ m.address)
      × ((translate frames m).payload ≡ m.payload)
unfolding translate
translate_keeps frames m = ground arith

-- The router lets the pair through.
abbrev pub passes : ℕ → Manager → SenderReceiverPair → Bool
passes n nm p =
    ltb p.sender n && ltb p.receiver n && cell nm.router.routing_table p.sender p.receiver

-- The queues after a message for the pair.
abbrev pub queued : ℕ → Manager → SenderReceiverPair → Message → List MessageQueue
queued n nm p m =
    if passes n nm p
    then set nm.message_queues p.receiver
        (record { list = queue_of nm.message_queues p.receiver ++ m ∷ [] })
    else nm.message_queues

pub queue_message-eq :
    (frames : List ℕ → List Frame) (n : ℕ) (nm : Manager) (m : Message) (p : SenderReceiverPair)
    → IsConsistent n nm
    → m.sender ≡ pos p.sender
    → m.receiver ≡ pos p.receiver
    → queue_message frames nm m
      ≡ ok (record nm { message_queues = queued n nm p (translate frames m) })
unfolding queue_message push_back
queue_message-eq frames n nm m p c from to =
    rw (keeps.0 ∙ from, keeps.1 ∙ to)
      (elim (Bool-cases (ltb p.sender n && ltb p.receiver n)) [
        | inl inside ↦ ground (
          arith,
          c.square.height,
          has_connectivity-Connects connects p.sender p.receiver (ground arith) (ground arith),
          at-lt nm.message_queues p.receiver none_queued (ground (arith, c.queue_count)),
          put-lt nm.message_queues p.receiver
              (record { list = queue_of nm.message_queues p.receiver ++ translate frames m ∷ [] })
              (ground (arith, c.queue_count)),
        )
        | inr outside ↦ ground (arith, c.square.height)
      ])
  where
    keeps :
        ((translate frames m).sender ≡ m.sender)
        × ((translate frames m).receiver ≡ m.receiver)
        × ((translate frames m).message_id ≡ m.message_id)
        × ((translate frames m).send ≡ m.send)
        × ((translate frames m).address ≡ m.address)
        × ((translate frames m).payload ≡ m.payload)
    keeps = translate_keeps frames m

    connects : Connects n (cell nm.router.routing_table) nm.router
    connects = record { square = c.square; cells = λ x y lx ly. refl }

-- Where a message stands among all that wait once it is queued.
pub record Placed (queues queues' : List MessageQueue) (m : Message) : Type 0 where
  pub ahead : List Message
  pub back : List Message
  pub old : pending queues ≡ ahead ++ back
  pub new : pending queues' ≡ ahead ++ m ∷ back

module _ {n : ℕ} {nm : Manager} (c : IsConsistent n nm) (m : Message) where
  module _ (r : ℕ) (lr : r < n) (to : m.receiver ≡ pos r) where
    abbrev line : List Message
    line = queue_of nm.message_queues r

    abbrev longer : List MessageQueue
    longer = set nm.message_queues r (record { list = line ++ m ∷ [] })

    in_queues : r < length nm.message_queues
    in_queues = omega (arith, c.queue_count)

    longer-Placed : Placed nm.message_queues longer m
    longer-Placed = record {
      ahead = before nm.message_queues r ++ line;
      back = behind nm.message_queues r;
      old = pending-split nm.message_queues r in_queues ∙ simp append_assoc;
      new = pending-set nm.message_queues r _ in_queues ∙ simp append_assoc;
    }

    still_addressed : (x : ℕ) → x < n → All (λ m'. m'.receiver ≡ pos x) (queue_of longer x)
    still_addressed x lx = elim (ℕ_discrete r x) [
      | yes e ↦ rw (← e) (
          subst (All (λ m'. m'.receiver ≡ pos r)) (sym now)
            (All-append (λ m'. m'.receiver ≡ pos r) line (m ∷ []) (c.addressed r lr) (to, tt)))
      | no e ↦ subst (All (λ m'. m'.receiver ≡ pos x)) (sym (same e)) (c.addressed x lx)
    ]
      where
        now : queue_of longer r ≡ line ++ m ∷ []
        now =
            ap (λ (q : MessageQueue). q.list)
              (get_or-set_self nm.message_queues r _ none_queued in_queues)

        same : r ≢ x → queue_of longer x ≡ queue_of nm.message_queues x
        same e =
            ap (λ (q : MessageQueue). q.list) (get_or-set_ne nm.message_queues r x _ none_queued e)

    longer-IsConsistent :
        IsWaiting nm.index nm.heap nm.channels m
        → All (Differ m) (pending nm.message_queues)
        → IsConsistent n (record nm { message_queues = longer })
    longer-IsConsistent waits differs = record {
      queue_count = length-set nm.message_queues r _ ∙ c.queue_count;
      square = c.square;
      apart = rw longer-Placed.new (
          Apart-insert longer-Placed.ahead m longer-Placed.back (rw longer-Placed.old at differs)
            (rw longer-Placed.old at c.apart));
      waiting = rw longer-Placed.new (
          All-insert (IsWaiting nm.index nm.heap nm.channels) longer-Placed.ahead m
            longer-Placed.back waits (rw longer-Placed.old at c.waiting));
      closed = c.closed;
      addressed = still_addressed;
    }

  module _ (p : SenderReceiverPair) (to : m.receiver ≡ pos p.receiver) where
    passes_inside : passes n nm p ≡ true → p.receiver < n
    passes_inside yes_pass = ground arith

    -- The queues are as they were where the router drops the message.
    pub queued-Placed :
        (queued n nm p m ≡ nm.message_queues) ⊎ Placed nm.message_queues (queued n nm p m) m
    queued-Placed = elim (Bool-cases (passes n nm p)) [
      | inl yes_pass ↦ inr (rw yes_pass (longer-Placed p.receiver (passes_inside yes_pass) to))
      | inr dropped ↦ inl (rw dropped refl)
    ]

    pub queued-IsConsistent :
        IsWaiting nm.index nm.heap nm.channels m
        → All (Differ m) (pending nm.message_queues)
        → IsConsistent n (record nm { message_queues = queued n nm p m })
    queued-IsConsistent waits differs = elim (Bool-cases (passes n nm p)) [
      | inl yes_pass ↦
          rw yes_pass (longer-IsConsistent p.receiver (passes_inside yes_pass) to waits differs)
      | inr dropped ↦ rw dropped c
    ]
