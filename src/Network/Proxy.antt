-- ===== src/Network/Proxy.antt =====
-- What the interceptors do with a request around its wait in a queue: Http2CInterceptor.go,
-- HttpInterceptor.go and TCPInterceptor.go. The packages net and net/http are parameters: `new_request`, the
-- canonical form of a header's name, and what a node that is dialed answers. A body is `none` where
-- reading it fails.
pub mod Headers
pub mod Relay
pub mod Targets
use dstest.Prelude.{
  ℕ, ◌+◌, ◌++◌, Bool, true, false, leb, ◌&&◌, List, [], ◌∷◌, Option, none, some, Outcome, ok, fatal,
  panic, nil_dereference, ◌>>=◌, find, if◌then◌else◌,
}
use dstest.Prelude.Text.{Text, codes, text_eq}
use dstest.Network.Manager.{Manager, SenderReceiverPair, pair_of}

-- `http.Header`
abbrev pub Header : Type 0
Header = List (Text × List Text)

pub record Incoming : Type 0 where
  pub method : Text
  pub request_uri : Text
  pub header : Header
  pub body : Option Text

pub record Request : Type 0 where
  pub method : Text
  pub url : Text
  pub header : Header
  pub body : Text

pub record Response : Type 0 where
  pub status_code : ℕ
  pub header : Header
  pub body : Option Text

-- What was written to the `ResponseWriter`.
pub record Written : Type 0 where
  pub status_code : ℕ
  pub header : Header
  pub body : Text

-- `header[h] = val`
abbrev pub assign_header : Text → List Text → Header → Header
assign_header h val [] = (h, val) ∷ []
assign_header h val ((k, w) ∷ header) =
    if text_eq k h then (h, val) ∷ header else (k, w) ∷ assign_header h val header

-- `header.Add(h, value)`, for a name in canonical form.
abbrev pub add_header : Text → Text → Header → Header
add_header h value [] = (h, value ∷ []) ∷ []
add_header h value ((k, w) ∷ header) =
    if text_eq k h then (k, w ++ value ∷ []) ∷ header else (k, w) ∷ add_header h value header

unfoldable pub copy_header : Header → Header → Header
copy_header [] header = header
copy_header ((h, val) ∷ rest) header = copy_header rest (assign_header h val header)

module _ (canonical : Text → Text) where
  -- The loops over the names and over the values of the response's header.
  unfoldable pub add_values : Text → List Text → Header → Header
  add_values h [] header = header
  add_values h (value ∷ values) header = add_values h values (add_header (canonical h) value header)

  unfoldable pub add_all : Header → Header → Header
  add_all [] header = header
  add_all ((h, values) ∷ rest) header = add_all rest (add_values h values header)

-- The port that the node of a pair's receiver listens on.
abbrev pub node_port : ℕ → SenderReceiverPair → ℕ
node_port base_replica_port pair = pair.receiver + base_replica_port

module _ (decimal : ℕ → Text) (new_request : Text → Text → Text → Option Request) where
  abbrev pub node_url : ℕ → Text → Text
  node_url port uri = codes "http://localhost:" ++ decimal port ++ uri

  -- The handler until it queues its message. An error of `NewRequest` is not looked at: the request is nil.
  unfoldable pub http2c_prepare : ℕ → ℕ → Manager → Incoming → Outcome Request
  http2c_prepare base_replica_port port nm request = elim request.body [
    | none ↦ fatal
    | some body ↦
        elim (new_request request.method
          (node_url (node_port base_replica_port (pair_of nm port)) request.request_uri) body) [
            | none ↦ panic nil_dereference
            | some proxy_request ↦
                ok (record proxy_request { header = copy_header request.header [] })
          ]
  ]

-- The handler after the release, for the pair that it found before: `answer` is what the node at a port answers, or `none` for an error.
unfoldable pub http2c_forward :
    (Text → Text)
    → (ℕ → Request → Option Response)
    → ℕ
    → SenderReceiverPair
    → Request
    → Outcome Written
http2c_forward canonical answer base_replica_port pair proxy_request =
    elim (answer (node_port base_replica_port pair) proxy_request) [
      | none ↦ fatal
      | some resp ↦ elim resp.body [
        | none ↦ fatal
        | some body ↦ ok (record {
          status_code = resp.status_code;
          header = add_all canonical resp.header [];
          body = body;
        })
      ]
    ]

-- How the handling of a connection ends: closed without being passed on, or joined with the node at a port.
pub data Connection : Type 0 where
  closed : Connection
  joined : ℕ → Connection

-- `handleConnection` of TCPInterceptor.go, which queues nothing. `reachable` says if the node at a port accepts.
unfoldable pub tcp_connection : (ℕ → Bool) → ℕ → ℕ → Manager → Connection
tcp_connection reachable base_replica_port port nm = elim (find port nm.port_map) [
  | none ↦ closed
  | some pair ↦
      let target = base_replica_port + pair.receiver + 1 in
      if reachable target then joined target else closed
]

-- `handleHttp2` after the release, for the pair that it found before.
unfoldable pub http2_forward : (ℕ → Bool) → ℕ → SenderReceiverPair → Connection
http2_forward reachable base_replica_port pair =
    let target = node_port base_replica_port pair in
    if reachable target then joined target else closed

-- `handleConn` of HttpInterceptor.go until a message is queued: if one is. `proto_major` is the version of the
-- request, or `none` where it cannot be read; `settings` says if the HTTP/2 settings were written. A
-- request of HTTP/1 is not passed on.
unfoldable pub http_queues : Option ℕ → Bool → Bool
http_queues none settings = false
http_queues (some proto_major) settings = leb 2 proto_major && settings
