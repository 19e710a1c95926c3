-- ===== src/Network/Manager/Arrival.antt =====
-- A request that arrives at an interceptor: numbered, and queued at its receiver unless the router
-- drops it.
use native.Mathlib.Nat.{mod-eq_of_lt}
use dstest.Prelude.{ℕ, ◌+◌, ◌^◌, ◌≡◌, ◌<◌, refl, false, List, [], ◌∷◌, pos, All, arith, Returns}
use dstest.Network.Message.{Message, Payload, Channels, is_closed}
use dstest.Network.Translator.{Frame, translate}
use dstest.Network.Manager.{
  Manager, SenderReceiverPair, pair_of, generate_unique_id, make_message, intercept,
}
use dstest.Network.Manager.Pending.{pending, Differ, All-map}
use dstest.Network.Manager.Queueing.{translate_keeps, queued, queue_message-eq, queued-IsConsistent}
use dstest.Network.Manager.Invariant.{IsWaiting, IsConsistent}

-- The message that a request becomes, before its translation.
abbrev pub request : Payload → SenderReceiverPair → Manager → Message
request payload p nm = record {
  address = nm.heap;
  sender = pos p.sender;
  receiver = pos p.receiver;
  payload = payload;
  type = [];
  name = [];
  message_id = nm.index + 1;
  send = nm.heap;
}

-- The state after a request for the pair: the counters have moved, and the message is queued behind
-- the others of its receiver, or dropped.
pub record Arrived (n : ℕ) (nm : Manager) (p : SenderReceiverPair) (m : Message) (nm' : Manager)
    : Type 0 where
  pub index : nm'.index ≡ nm.index + 1
  pub heap : nm'.heap ≡ nm.heap + 1
  pub channels : nm'.channels ≡ nm.channels
  pub router : nm'.router ≡ nm.router
  pub ports : nm'.port_map ≡ nm.port_map
  pub queues : nm'.message_queues ≡ queued n nm p m
  pub consistent : IsConsistent n nm'

module _ {n : ℕ} {nm : Manager} (c : IsConsistent n nm) where
  abbrev pub counted : Manager
  counted = record nm { index = nm.index + 1; heap = nm.heap + 1 }

  -- A message that waits goes on waiting when another is numbered.
  pub still_waiting :
      (x : Message)
      → IsWaiting nm.index nm.heap nm.channels x
      → IsWaiting (nm.index + 1) (nm.heap + 1) nm.channels x
  still_waiting x w = record {
    numbered = omega (arith, w.numbered);
    allocated = omega (arith, w.allocated);
    is_open = w.is_open;
  }

  pub counted-IsConsistent : IsConsistent n counted
  counted-IsConsistent = record {
    queue_count = c.queue_count;
    square = c.square;
    apart = c.apart;
    waiting =
        All-map (IsWaiting nm.index nm.heap nm.channels)
          (IsWaiting (nm.index + 1) (nm.heap + 1) nm.channels) (pending nm.message_queues)
          (λ x w. still_waiting x w) c.waiting;
    closed =
        All-map (λ ch. ch < nm.heap) (λ ch. ch < nm.heap + 1) nm.channels (λ x l. omega arith)
          c.closed;
    addressed = c.addressed;
  }

  -- A channel that is not allocated yet is open.
  fresh_open : (l : Channels) → All (λ ch. ch < nm.heap) l → is_closed nm.heap l ≡ false
  fresh_open [] h = refl
  fresh_open (x ∷ l) h = ground (arith, h.0, fresh_open l h.1)

  -- The next message differs from all that wait, and would wait as they do.
  pub fresh_differs :
      (m x : Message)
      → m.message_id ≡ nm.index + 1
      → m.send ≡ nm.heap
      → IsWaiting nm.index nm.heap nm.channels x
      → Differ m x
  fresh_differs m x number channel w = record {
    numbers = omega (arith, w.numbered);
    channels = omega (arith, w.allocated);
  }

  pub fresh_waits :
      (m : Message)
      → m.message_id ≡ nm.index + 1
      → m.send ≡ nm.heap
      → IsWaiting (nm.index + 1) (nm.heap + 1) nm.channels m
  fresh_waits m number channel = record {
    numbered = omega arith;
    allocated = omega arith;
    is_open = rw channel (fresh_open nm.channels c.closed);
  }

-- In a consistent manager with fewer than 2^64 numbers given, a request at a port returns: it is
-- numbered, and the translated message is queued last at the receiver of the port's pair, or dropped if
-- the router does not let the pair through; the invariant holds again.
pub intercept-Returns :
    (frames : List ℕ → List Frame) (payload : Payload) (port : ℕ) {n : ℕ} {nm : Manager}
    → IsConsistent n nm
    → nm.index + 1 < 2 ^ 64
    → Returns
        (intercept frames payload port nm)
        (Arrived n nm (pair_of nm port) (translate frames (request payload (pair_of nm port) nm)))
unfolding intercept make_message generate_unique_id
intercept-Returns frames payload port {n} {nm} c small = rw (mod-eq_of_lt small) (
    rw
      (queue_message-eq frames n (counted c) (request payload p nm) p (counted-IsConsistent c) refl
        refl)
      (record {
        index = refl;
        heap = refl;
        channels = refl;
        router = refl;
        ports = refl;
        queues = refl;
        consistent =
            queued-IsConsistent (counted-IsConsistent c) m p keeps.1
              (fresh_waits c m keeps.2 keeps.3)
              (All-map (IsWaiting nm.index nm.heap nm.channels) (Differ m) _
                (λ x w. fresh_differs c m x keeps.2 keeps.3 w) c.waiting);
      }))
  where
    p : SenderReceiverPair
    p = pair_of nm port

    m : Message
    m = translate frames (request payload p nm)

    keeps :
        (m.sender ≡ pos p.sender)
        × (m.receiver ≡ pos p.receiver)
        × (m.message_id ≡ nm.index + 1)
        × (m.send ≡ nm.heap)
        × (m.address ≡ nm.heap)
        × (m.payload ≡ payload)
    keeps = translate_keeps frames (request payload p nm)
