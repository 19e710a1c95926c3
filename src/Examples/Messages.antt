-- ===== src/Examples/Messages.antt =====
-- A manager of two nodes: its start, a request, the release of a message, and both in a run.
use dstest.Prelude.{
  ℕ, zero, suc, ◌+◌, for_range, ◌≡◌, ◌≢◌, refl, true, List, [], ◌∷◌, none, some, pos, arith,
  Returns, All,
}
use dstest.Prelude.Text.{Text, codes}
use dstest.Config.{NetworkConfig, ProcessConfig}
use dstest.Network.Message.{Message, bytes, grpc}
use dstest.Network.Translator.{Frame, headers, translate}
use dstest.Network.Router
use dstest.Network.Router.{Router}
use dstest.Network.Router.Connectivity.{Connects, init-Returns}
use dstest.Network.Queue.{MessageQueue}
use dstest.Network.Interceptor.{create_interceptor, tcp}
use dstest.Network.Manager
use dstest.Network.Manager.{
  Manager, EventFields, root, creation_error, send_message_by_id, intercept, pair_of, run,
  update_chain_clocks,
}
use dstest.Network.Manager.Init.{IsReady, init-IsReady}
use dstest.Network.Manager.Ports.{pair, Filled}
use dstest.Network.Manager.Pending.{queue_of}
use dstest.Network.Manager.Invariant.{IsConsistent}
use dstest.Network.Manager.Delivery.{Released, send_message-front}
use dstest.Network.Manager.Arrival.{Arrived, request, intercept-Returns}
use dstest.Network.Manager.Running.{run-wait_group}

-- Every payload is one frame, a header with the path of a call.
abbrev pub frames : List ℕ → List Frame
frames p = headers ((codes ":path", codes "/kv/Put") ∷ []) ∷ []

abbrev pub network : Text → NetworkConfig
network protocol = record {
  base_replica_port = 7000;
  base_interceptor_port = 9000;
  protocol = protocol;
  message_type = grpc;
}

abbrev pub process : ProcessConfig
process = record {
  num_replicas = 2;
  timeout = 10;
  output_dir = [];
  replica_script = [];
  client_scripts = [];
  clean_script = [];
  replica_params = [] ∷ [] ∷ [];
}

abbrev open_router : Router
open_router = record { routing_table = (true ∷ true ∷ []) ∷ (true ∷ true ∷ []) ∷ [] }

abbrev pub manager : List MessageQueue → ℕ → Manager
manager queues index = record {
  router = open_router;
  interceptors = some (record { kind = tcp; is_initialized = true; port = 9001; id = 1 }) ∷ [];
  message_queues = queues;
  index = index;
  wait_group = 0;
  replica_ids = 0 ∷ 1 ∷ [];
  port_map = (9001, pair 0 1) ∷ (9002, pair 1 0) ∷ [];
  message_type = grpc;
  chain_clocks = [];
  channels = [];
  heap = index;
}

abbrev pub idle : Manager
idle = manager (record { list = [] } ∷ record { list = [] } ∷ []) 0

abbrev pub hello : Message
hello = record {
  address = 0;
  sender = pos 0;
  receiver = pos 1;
  payload = bytes [];
  type = grpc;
  name = codes "Put";
  message_id = 1;
  send = 0;
}

abbrev pub one_waiting : Manager
one_waiting = manager (record { list = [] } ∷ record { list = hello ∷ [] } ∷ []) 1

open_router-Connects : Connects 2 (λ x y. true) open_router
unfolding Router.init for_range Router.make_row Router.set_cell
open_router-Connects = init-Returns 2

none_below : (r : ℕ) → All (λ m. m.receiver ≡ pos r) (queue_of idle.message_queues r)
none_below zero = tt
none_below (suc zero) = tt
none_below (suc (suc r)) = tt

one_below : (r : ℕ) → All (λ m. m.receiver ≡ pos r) (queue_of one_waiting.message_queues r)
one_below zero = tt
one_below (suc zero) = (refl, tt)
one_below (suc (suc r)) = tt

pub idle-IsConsistent : IsConsistent 2 idle
idle-IsConsistent = record {
  queue_count = refl;
  square = open_router-Connects.square;
  apart = tt;
  waiting = tt;
  closed = tt;
  addressed = λ r lr. none_below r;
}

pub one_waiting-IsConsistent : IsConsistent 2 one_waiting
one_waiting-IsConsistent = record {
  queue_count = refl;
  square = open_router-Connects.square;
  apart = (tt, tt);
  waiting = (record { numbered = omega arith; allocated = omega arith; is_open = refl }, tt);
  closed = tt;
  addressed = λ r lr. one_below r;
}

intercept-Returns_example :
    Returns
      (intercept frames (bytes []) 9001 idle)
      (Arrived 2 idle (pair 0 1) (translate frames (request (bytes []) (pair 0 1) idle)))
unfolding pair_of
intercept-Returns_example = intercept-Returns frames (bytes []) 9001 idle-IsConsistent (omega arith)

send_message-front_example :
    Returns (send_message_by_id one_waiting 1) (Released 2 one_waiting 1 hello [])
send_message-front_example =
    send_message-front one_waiting-IsConsistent 1 hello [] (omega arith) refl

pub tcp_known : create_interceptor (codes "tcp") ≢ none
unfolding create_interceptor
tcp_known e = cc

pub http2c_known : create_interceptor (codes "http2c") ≢ none
unfolding create_interceptor
http2c_known e = cc

udp_unknown : create_interceptor (codes "udp") ≡ none
unfolding create_interceptor
udp_unknown = refl

idle-Filled : Filled 1 idle.interceptors
idle-Filled zero lx =
    (record { kind = tcp; is_initialized = true; port = 9001; id = 1 }, refl, refl)
idle-Filled (suc x) lx = absurd (omega arith)

init-IsReady_example :
    Returns (Manager.init (network (codes "tcp")) process (0 ∷ 1 ∷ []) idle) (IsReady 9000 2 idle)
init-IsReady_example = init-IsReady (network (codes "tcp")) process (0 ∷ 1 ∷ []) idle tcp_known

run-wait_group_example :
    Returns (run (λ i. some (codes "address already in use")) idle) (λ nm. nm.wait_group ≡ 0 + 1)
run-wait_group_example =
    run-wait_group (λ i. some (codes "address already in use")) idle idle-Filled
