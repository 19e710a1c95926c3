-- ===== src/Network/Handlers.antt =====
-- The handlers of Http2CInterceptor.go and HttpInterceptor.go side by side: each request has a goroutine of
-- its own, and between its calls on the manager the others and the engine go on. The counter, a
-- queue and a channel are each safe for concurrent use, so that a call is one step; a run is a list of steps.
pub mod Invariant
pub mod Steps
pub mod Changes
pub mod Order
pub mod Blocked
pub mod Pairs
use dstest.Prelude.{
  ℕ, List, [], ◌∷◌, ◌++◌, Option, none, some, Outcome, ok, ◌>>=◌, pos, get_elem?, set,
  if◌then◌else◌,
}
use dstest.Network.Message.{Message, Payload, is_closed}
use dstest.Network.Translator.{Frame}
use dstest.Network.Router
use dstest.Network.Router.{isolate_node}
use dstest.Network.Manager.{Manager, make_message, queue_message, send_message_by_id}

-- Where a handler stands: its message is made and has its number; it waits for its channel; it is
-- past the wait, and passes its request on.
pub data Handler : Type 0 where
  numbered : Message → Handler
  waiting : Message → Handler
  resumed : Message → Handler

pub record System : Type 0 where
  pub manager : Manager
  pub handlers : List Handler

-- A request with a payload comes to a port; the i-th handler queues its message, or looks at its
-- channel; the engine sends the message with a number, or isolates a node.
pub data Act : Type 0 where
  begins : Payload → ℕ → Act
  queues : ℕ → Act
  wakes : ℕ → Act
  sends : ℕ → Act
  isolates : ℕ → Act

unfoldable pub begin : Payload → ℕ → System → System
begin payload port s =
    let (nm, m) = make_message payload port s.manager in
    record { manager = nm; handlers = s.handlers ++ numbered m ∷ [] }

-- `<-awaitSendRequest`: the handler goes on when its channel is closed.
unfoldable pub wake : ℕ → System → Option Handler → System
wake i s (some (waiting m)) =
    if is_closed m.send s.manager.channels
    then record s { handlers = set s.handlers i (resumed m) }
    else s
wake i s (some (numbered m)) = s
wake i s (some (resumed m)) = s
wake i s none = s

module _ (frames : List ℕ → List Frame) where
  -- `QueueMessage`, for a handler that has not called it yet.
  unfoldable pub queue : ℕ → System → Option Handler → Outcome System
  queue i s (some (numbered m)) = do
    nm ← queue_message frames s.manager m
    ok (record { manager = nm; handlers = set s.handlers i (waiting m) })
  queue i s (some (waiting m)) = ok s
  queue i s (some (resumed m)) = ok s
  queue i s none = ok s

  unfoldable pub act : System → Act → Outcome System
  act s (begins payload port) = ok (begin payload port s)
  act s (queues i) = queue i s (get_elem? s.handlers i)
  act s (wakes i) = ok (wake i s (get_elem? s.handlers i))
  act s (sends id) = do nm ← send_message_by_id s.manager id; ok (record s { manager = nm })
  act s (isolates id) = do
    router ← isolate_node s.manager.router (pos id)
    ok (record s { manager = record s.manager { router = router } })

  unfoldable pub act_all : System → List Act → Outcome System
  act_all s [] = ok s
  act_all s (a ∷ acts) = act s a >>= λ s'. act_all s' acts
