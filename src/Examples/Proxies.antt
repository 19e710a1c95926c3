-- ===== src/Examples/Proxies.antt =====
-- A request that an interceptor passes on to the second of two nodes.
use dstest.Prelude.{ℕ, ◌+◌, ◌≡◌, ◌≢◌, ◌<◌, refl, true, [], ◌∷◌, Option, some, ok, ◌>>=◌, Returns}
use dstest.Prelude.Text.{Text, codes}
use dstest.Network.Manager
use dstest.Network.Manager.{pair_of}
use dstest.Network.Proxy.{
  Incoming, Request, Response, closed, joined, http2c_prepare, http2c_forward, http2_forward,
  tcp_connection,
}
use dstest.Network.Proxy.Relay.{http2c_relay}
use dstest.Network.Proxy.Targets.{port_of, init-targets}
use dstest.Examples.Messages.{idle, network, process, tcp_known}

abbrev decimal : ℕ → Text
decimal k = codes "7001"

abbrev new_request : Text → Text → Text → Option Request
new_request method url body = some (record { method = method; url = url; header = []; body = body })

abbrev canonical : Text → Text
canonical name = name

abbrev reply : Response
reply = record {
  status_code = 200;
  header =
      (codes "Content-Type", codes "application/grpc" ∷ [])
      ∷ (codes "Trailer", codes "a" ∷ codes "b" ∷ [])
      ∷ [];
  body = some (codes "stored");
}

abbrev asked : Incoming
asked = record {
  method = codes "POST";
  request_uri = codes "/kv/Put";
  header = (codes "Te", codes "trailers" ∷ []) ∷ [];
  body = some (codes "k=v");
}

abbrev answer : ℕ → Request → Option Response
answer port request = some reply

http2c_relay_example :
    (http2c_prepare decimal new_request 7000 9001 idle asked
      >>= http2c_forward canonical answer 7000 (pair_of idle 9001))
    ≡ ok (record { status_code = 200; header = reply.header; body = codes "stored" })
http2c_relay_example =
    http2c_relay decimal new_request canonical answer 7000 9001 idle asked (codes "k=v") reply
      (codes "stored") refl (tt, tt) (record { made = refl }) refl refl ((refl, tt), (tt, tt))
      ((refl, λ e. cc), ((refl, λ e. cc), tt))

init-targets_example :
    Returns (Manager.init (network (codes "tcp")) process (0 ∷ 1 ∷ []) idle) λ result.
      ((i j : ℕ)
        → i < 2
        → j < 2
        → i ≢ j
        → (http2_forward
              (λ port. true)
              7000
              (pair_of result.0 (port_of (network (codes "tcp")) process i j))
            ≡ joined (7000 + j))
          × (tcp_connection
                (λ port. true)
                7000
                (port_of (network (codes "tcp")) process i j)
                result.0
              ≡ joined (7000 + j + 1)))
      × ((port : ℕ)
          → ((i j : ℕ) → i < 2 → j < 2 → i ≢ j → port ≢ port_of (network (codes "tcp")) process i j)
          → tcp_connection (λ p. true) 7000 port result.0 ≡ closed)
init-targets_example =
    init-targets (network (codes "tcp")) process (0 ∷ 1 ∷ []) idle tcp_known (λ port. true)
      (λ port. refl)
