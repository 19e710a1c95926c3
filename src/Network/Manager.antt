-- ===== src/Network/Manager.antt =====
-- cmd/dstest/network/manager.go, and `QueueMessage` of router.go, which works on the manager's queues.
pub mod Ports
pub mod Rounds
pub mod Running
pub mod Pending
pub mod Invariant
pub mod Delivery
pub mod Queueing
pub mod Arrival
pub mod Chains
pub mod Heads
pub mod Actions
pub mod History
pub mod Shutdown
pub mod Fixed
pub mod Open
pub mod Init
use dstest.Prelude.{
  ℕ, zero, suc, ◌+◌, ◌-◌, ◌*◌, ◌%◌, ◌^◌, ◌==◌, ◌||◌, Bool, true, false, List, [], ◌∷◌, ◌++◌, Option,
  none, some, Outcome, ok, panic, nil_dereference, index_out_of_range, negative_wait_group, ◌>>=◌,
  ℤ, pos, eq_ℤ, replicate, at, put, for_range, find, assign, if◌then◌else◌, length,
}
use dstest.Prelude.Text.{Text, codes}
use dstest.Config.{NetworkConfig, ProcessConfig}
use dstest.Network.Message.{Message, Payload, Channels, send_message}
use dstest.Network.Queue
use dstest.Network.Queue.{MessageQueue}
use dstest.Network.Translator.{Frame, translate}
use dstest.Network.Router
use dstest.Network.Router.{Router, invalid, has_connectivity}
use dstest.Network.Interceptor
use dstest.Network.Interceptor.{Interceptor, create_interceptor}

pub record SenderReceiverPair : Type 0 where
  pub sender : ℕ
  pub receiver : ℕ

-- An event with the event before it in its chain; `root` has none.
pub record EventFields : Type 0 where
  pub sender : ℤ
  pub receiver : ℤ
  pub message_id : ℕ
  pub name : Text

pub data Event : Type 0 where
  root : EventFields → Event
  after : Event → EventFields → Event

abbrev pub fields : Event → EventFields
fields (root e) = e
fields (after prev e) = e

-- `channels` are the closed channels of all messages so far, and `heap` counts the allocations.
pub record Manager : Type 0 where
  pub router : Router
  pub interceptors : List (Option Interceptor)
  pub message_queues : List MessageQueue
  pub index : ℕ
  pub wait_group : ℕ
  pub replica_ids : List ℕ
  pub port_map : List (ℕ × SenderReceiverPair)
  pub message_type : Text
  pub chain_clocks : List (List Event)
  pub channels : Channels
  pub heap : ℕ

-- The loops of `Init`: the manager, the number of interceptors made, and the error that ended them.
pub record InitState : Type 0 where
  pub manager : Manager
  pub k : ℕ
  pub error : Option Text

abbrev pub creation_error : Text → Text
creation_error protocol = codes "Error creating interceptor: Unknown interceptor type: " ++ protocol

-- The body of the loop over `j`, for `i ≢ j`.
unfoldable pub connect : NetworkConfig → ℕ → ℕ → ℕ → InitState → Outcome InitState
connect config num_replicas i j s = elim (create_interceptor config.protocol) [
  | none ↦ do
    interceptors ← put s.manager.interceptors (pos s.k) none
    ok (record s {
      manager = record s.manager { interceptors = interceptors };
      error = some (creation_error config.protocol);
    })
  | some ni ↦ do
    let id = i * num_replicas + j
    let port = config.base_interceptor_port + id
    interceptors ← put s.manager.interceptors (pos s.k) (some (Interceptor.init id port ni))
    ok (record s {
      manager = record s.manager {
        interceptors = interceptors;
        port_map = assign port (record { sender = i; receiver = j }) s.manager.port_map;
      };
      k = s.k + 1;
    })
]

-- After the `return` of an error no round does anything.
unfoldable pub connect_pair : NetworkConfig → ℕ → ℕ → ℕ → InitState → Outcome InitState
connect_pair config num_replicas i j s = elim s.error [
  | some e ↦ ok s
  | none ↦ if i == j then ok s else connect config num_replicas i j s
]

unfoldable pub connect_node : NetworkConfig → ℕ → ℕ → InitState → Outcome InitState
connect_node config num_replicas i s = elim s.error [
  | some e ↦ ok s
  | none ↦ do
    queues ← put s.manager.message_queues (pos i) Queue.init
    for_range num_replicas 0 (connect_pair config num_replicas i)
        (record s { manager = record s.manager { message_queues = queues } })
]

-- The queues that `make` leaves nil are empty ones here: they show only after an error.
unfoldable pub init :
    NetworkConfig → ProcessConfig → List ℕ → Manager → Outcome (Manager × Option Text)
init network process replica_ids nm = do
  let n : ℕ = process.num_replicas
  router ← Router.init n
  s ← for_range n 0 (connect_node network n) (record {
    manager = record nm {
      router = router;
      interceptors = replicate (n * (n - 1)) none;
      message_queues = replicate n Queue.init;
      index = 0;
      replica_ids = replica_ids;
      port_map = [];
      message_type = network.message_type;
      chain_clocks = [];
    };
    k = 0;
    error = none;
  })
  ok (s.manager, s.error)

-- The counter after `Add(1)` and the end of the goroutine: `Done` is skipped on an error.
unfoldable pub finish : Option Text → ℕ → ℕ
finish none wait_group = wait_group + 1 - 1
finish (some error) wait_group = wait_group + 1

-- `WaitGroup.Add(1)`, the goroutine's call of `Run`, and `Done` unless it fails.
unfoldable pub run_interceptor : Option Interceptor → Option Text → ℕ → Outcome ℕ
run_interceptor none listen wait_group = panic nil_dereference
run_interceptor (some ni) listen wait_group = do
  error ← Interceptor.run listen ni
  ok (finish error wait_group)

unfoldable pub run_all : List (Option Interceptor) → (ℕ → Option Text) → ℕ → ℕ → Outcome ℕ
run_all [] listen i wait_group = ok wait_group
run_all (ni ∷ rest) listen i wait_group =
    run_interceptor ni (listen i) wait_group >>= run_all rest listen (i + 1)

-- The counter once every goroutine has ended; `listen i` is what the system answers to the i-th.
-- `Wait` returns if the counter is 0.
unfoldable pub run : (ℕ → Option Text) → Manager → Outcome Manager
unfolding run_all
run listen nm = do
  wait_group ← run_all nm.interceptors listen 0 nm.wait_group
  ok (record nm { wait_group = wait_group })

unfoldable pub generate_unique_id : Manager → Manager × ℕ
generate_unique_id nm = let next = (nm.index + 1) % 2 ^ 64 in (record nm { index = next }, next)

unfoldable pub get_actions : List MessageQueue → List Message
get_actions [] = []
get_actions (mq ∷ queues) = elim (Queue.peek mq) [
  | none ↦ get_actions queues
  | some action ↦ action ∷ get_actions queues
]

-- The body of the loop of `SendMessage`: the queue after it, and the closed channels.
unfoldable pub release_head : ℕ → MessageQueue → Channels → Outcome (MessageQueue × Channels)
release_head message_id mq closed = elim (Queue.peek mq) [
  | none ↦ ok (mq, closed)
  | some head ↦
      if head.message_id == message_id
      then (do
        (message, rest) ← Queue.pop_front mq
        closed' ← send_message message closed
        ok (rest, closed'))
      else ok (mq, closed)
]

unfoldable pub release : ℕ → List MessageQueue → Channels → Outcome (List MessageQueue × Channels)
release message_id [] closed = ok ([], closed)
release message_id (mq ∷ queues) closed = do
  (mq', closed') ← release_head message_id mq closed
  (queues', closed'') ← release message_id queues closed'
  ok (mq' ∷ queues', closed'')

unfoldable pub send_message_by_id : Manager → ℕ → Outcome Manager
send_message_by_id nm message_id = do
  (queues, closed) ← release message_id nm.message_queues nm.channels
  ok (record nm { message_queues = queues; channels = closed })

-- `Router.QueueMessage`
unfoldable pub queue_message : (List ℕ → List Frame) → Manager → Message → Outcome Manager
queue_message frames nm m =
    let tm = translate frames m in
    let table = nm.router.routing_table in
    if invalid tm.sender table || invalid tm.receiver table then ok nm else (do
      connected ← has_connectivity nm.router tm.sender tm.receiver
      if connected
          then (do
            queue ← at nm.message_queues tm.receiver
            queues ← put nm.message_queues tm.receiver (Queue.push_back queue tm)
            ok (record nm { message_queues = queues }))
          else ok nm)

-- `pair := nm.PortMap[port]`: the zero value for a port that is not in the map.
unfoldable pub pair_of : Manager → ℕ → SenderReceiverPair
pair_of nm port = elim (find port nm.port_map) [
  | none ↦ record { sender = 0; receiver = 0 }
  | some pair ↦ pair
]

-- The message that a handler of Http2CInterceptor.go or HttpInterceptor.go makes: it and its channel are
-- allocated, and `GenerateUniqueId` numbers it.
unfoldable pub make_message : Payload → ℕ → Manager → Manager × Message
make_message payload port nm =
    let pair = pair_of nm port in
    let (nm', message_id) = generate_unique_id (record nm { heap = nm.heap + 1 }) in
    (
      nm',
      record {
        address = nm.heap;
        sender = pos pair.sender;
        receiver = pos pair.receiver;
        payload = payload;
        type = [];
        name = [];
        message_id = message_id;
        send = nm.heap;
      },
    )

-- What a handler does until it waits for its channel, as one step.
unfoldable pub intercept : (List ℕ → List Frame) → Payload → ℕ → Manager → Outcome Manager
intercept frames payload port nm =
    let (nm', m) = make_message payload port nm in queue_message frames nm' m

-- `chain[len(chain)-1]`
unfoldable pub last_event : List Event → Outcome Event
last_event [] = panic index_out_of_range
last_event (e ∷ []) = ok e
last_event (e ∷ e' ∷ chain) = last_event (e' ∷ chain)

-- The loop of `UpdateChainClocks`: the first chain that ends at the sender grows, or a new one begins.
unfoldable pub extend_chains : EventFields → List (List Event) → Outcome (List (List Event))
extend_chains e [] = ok ((root e ∷ []) ∷ [])
extend_chains e (chain ∷ chains) = do
  last ← last_event chain
  if eq_ℤ (fields last).receiver e.sender
      then ok ((chain ++ after last e ∷ []) ∷ chains)
      else (do rest ← extend_chains e chains; ok (chain ∷ rest))

unfoldable pub update_chain_clocks : Manager → ℤ → ℤ → ℕ → Text → Outcome Manager
update_chain_clocks nm sender receiver message_id name = do
  chains ←
      extend_chains
        (record { sender = sender; receiver = receiver; message_id = message_id; name = name })
        nm.chain_clocks
  ok (record nm { chain_clocks = chains })
