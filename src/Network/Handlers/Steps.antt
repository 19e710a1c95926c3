-- ===== src/Network/Handlers/Steps.antt =====
-- What each step of a handler or of the engine does to a sound state.
use native.Mathlib.Nat.{mod-eq_of_lt}
use mathlib.Core.List.{append_assoc}
use dstest.Prelude.{
  ℕ, ◌+◌, ◌^◌, ◌≡◌, ◌<◌, ◌∙◌, sym, refl, ◌⊎◌, inl, inr, true, List, [], ◌∷◌, ◌++◌, some, ok,
  get_elem?, set, All, All-append, All-set,
}
use dstest.Network.Message.{Message, Payload, is_closed}
use dstest.Network.Translator.{Frame, translate}
use dstest.Network.Manager.{Manager, make_message, generate_unique_id, pair_of}
use dstest.Network.Manager.Pending.{
  pending, Apart, Differ, All-middle, All-map, Apart-insert, Apart-middle, All-right,
}
use dstest.Network.Manager.Invariant.{IsWaiting}
use dstest.Network.Manager.Queueing.{
  translate_keeps, queued, queue_message-eq, Placed, queued-Placed, queued-IsConsistent,
}
use dstest.Network.Manager.Arrival.{
  request, counted-IsConsistent, fresh_differs, fresh_waits, still_waiting,
}
use dstest.Network.Handlers.{numbered, waiting, resumed, System, begin, queue, wake}
use dstest.Network.Handlers.Invariant.{
  unqueued, ends, IsRouted, IsReleased, IsSound, Taken, unqueued-append, unqueued-Taken,
  unqueued-set,
}

-- The state once a request has its message and its number.
abbrev pub begun : Payload → ℕ → System → System
begun payload port s = record {
  manager = record s.manager { index = s.manager.index + 1; heap = s.manager.heap + 1 };
  handlers = s.handlers ++ numbered (request payload (pair_of s.manager port) s.manager) ∷ [];
}

pub begin-eq :
    (payload : Payload) (port : ℕ) (s : System)
    → s.manager.index + 1 < 2 ^ 64
    → begin payload port s ≡ begun payload port s
unfolding begin make_message generate_unique_id
begin-eq payload port s small = rw (mod-eq_of_lt small) refl

-- The state once the i-th handler has queued its message, which the router may have dropped.
abbrev pub queued_state : (List ℕ → List Frame) → ℕ → System → ℕ → Message → System
queued_state frames n s i m = record {
  manager = record s.manager { message_queues = queued n s.manager (ends m) (translate frames m) };
  handlers = set s.handlers i (waiting m);
}

-- The state once the i-th handler is past its wait.
abbrev pub woken : System → ℕ → Message → System
woken s i m = record s { handlers = set s.handlers i (resumed m) }

module _ {n : ℕ} {s : System} (sound : IsSound n s) where
  abbrev nm : Manager
  nm = s.manager

  pub begun-IsSound : (payload : Payload) (port : ℕ) → IsSound n (begun payload port s)
  begun-IsSound payload port = record {
    consistent = counted-IsConsistent sound.consistent;
    apart = rw unqueued-append (
        rw append_assoc (
          Apart-insert (unqueued s.handlers) m (pending nm.message_queues)
            (All-append (Differ m) (unqueued s.handlers) (pending nm.message_queues)
              (All-map (IsWaiting nm.index nm.heap nm.channels) (Differ m) _
                (λ x w. fresh_differs sound.consistent m x refl refl w) sound.fresh)
              (All-map (IsWaiting nm.index nm.heap nm.channels) (Differ m) _
                (λ x w. fresh_differs sound.consistent m x refl refl w) sound.consistent.waiting))
            sound.apart));
    fresh = rw unqueued-append (
        All-append (IsWaiting (nm.index + 1) (nm.heap + 1) nm.channels) (unqueued s.handlers)
          (m ∷ [])
          (All-map (IsWaiting nm.index nm.heap nm.channels) _ _
            (λ x w. still_waiting sound.consistent x w) sound.fresh)
          (fresh_waits sound.consistent m refl refl, tt));
    routed = rw unqueued-append (
        All-append IsRouted (unqueued s.handlers) (m ∷ []) sound.routed
          (record { from = refl; to = refl }, tt));
    released = All-append (IsReleased nm.channels) s.handlers _ sound.released (tt, tt);
  }
    where
      m : Message
      m = request payload (pair_of nm port) nm

  -- A handler that queues its message.
  module _ (frames : List ℕ → List Frame) (i : ℕ) (m : Message)
      (here : get_elem? s.handlers i ≡ some (numbered m)) where
    abbrev taken : Taken (unqueued s.handlers) (unqueued (set s.handlers i (waiting m))) m
    taken = unqueued-Taken s.handlers i m here

    split_at :
        (P : Message → Type 0)
        → All P (unqueued s.handlers)
        → P m × All P (unqueued (set s.handlers i (waiting m)))
    split_at P h =
        let (p, rest) = All-middle P taken.ahead m taken.back (rw taken.old at h) in
        (p, rw taken.new rest)

    route : IsRouted m
    route = (split_at IsRouted sound.routed).0

    pub queue-eq : queue frames i s (get_elem? s.handlers i) ≡ ok (queued_state frames n s i m)
    unfolding queue
    queue-eq =
        rw (here, queue_message-eq frames n nm m (ends m) sound.consistent route.from route.to) refl

    abbrev pub others : List Message
    others = unqueued (set s.handlers i (waiting m)) ++ pending nm.message_queues

    -- The message differs from all the others, in the queues or not.
    pub away : All (Differ m) others × Apart others
    away =
        rw (taken.new, append_assoc)
          (Apart-middle taken.ahead m (taken.back ++ pending nm.message_queues)
            (rw (taken.old, append_assoc) at sound.apart))

    abbrev sent : Message
    sent = translate frames m

    sent_differs : (x : Message) → Differ m x → Differ sent x
    sent_differs x d = record {
      numbers = λ e. d.numbers (sym (translate_keeps frames m).2 ∙ e);
      channels = λ e. d.channels (sym (translate_keeps frames m).3 ∙ e);
    }

    pub waits : IsWaiting nm.index nm.heap nm.channels m
    waits = (split_at (IsWaiting nm.index nm.heap nm.channels) sound.fresh).0

    sent_waits : IsWaiting nm.index nm.heap nm.channels sent
    sent_waits =
        let keeps = translate_keeps frames m in
        record {
          numbered = rw keeps.2 waits.numbered;
          allocated = rw keeps.3 waits.allocated;
          is_open = rw keeps.3 waits.is_open;
        }

    differs : All (Differ sent) others
    differs = All-map (Differ m) (Differ sent) others sent_differs away.0

    -- The queues are as they were, or the message is in one more place.
    pub placed :
        (queued n nm (ends m) sent ≡ nm.message_queues)
        ⊎ Placed nm.message_queues (queued n nm (ends m) sent) sent
    placed = queued-Placed sound.consistent sent (ends m) ((translate_keeps frames m).1 ∙ route.to)

    pub queued_state-IsSound : IsSound n (queued_state frames n s i m)
    queued_state-IsSound = record {
      consistent =
          queued-IsConsistent sound.consistent sent (ends m)
            ((translate_keeps frames m).1 ∙ route.to) sent_waits
            (All-right (Differ sent) (unqueued (set s.handlers i (waiting m))) _ differs);
      apart = elim placed [
        | inl same ↦ rw same away.1
        | inr pl ↦
            rw (pl.new, ← append_assoc)
              (Apart-insert (unqueued (set s.handlers i (waiting m)) ++ pl.ahead) sent pl.back
                (rw (pl.old, ← append_assoc) at differs) (rw (pl.old, ← append_assoc) at away.1))
      ];
      fresh = (split_at (IsWaiting nm.index nm.heap nm.channels) sound.fresh).1;
      routed = (split_at IsRouted sound.routed).1;
      released = All-set (IsReleased nm.channels) s.handlers i (waiting m) sound.released tt;
    }

  -- A handler that finds its channel closed.
  module _ (i : ℕ) (m : Message) (here : get_elem? s.handlers i ≡ some (waiting m))
      (closed : is_closed m.send nm.channels ≡ true) where
    pub wake-eq : wake i s (get_elem? s.handlers i) ≡ woken s i m
    unfolding wake
    wake-eq = rw (here, closed) refl

    pub woken-IsSound : IsSound n (woken s i m)
    woken-IsSound = record {
      consistent = sound.consistent;
      apart = rw (unqueued-set s.handlers i m here) sound.apart;
      fresh = rw (unqueued-set s.handlers i m here) sound.fresh;
      routed = rw (unqueued-set s.handlers i m here) sound.routed;
      released = All-set (IsReleased nm.channels) s.handlers i (resumed m) sound.released closed;
    }
