-- ===== src/Network/Proxy/Relay.antt =====
-- A request that the handler of Http2CInterceptor.go passes on, and the response that it gives back.
use dstest.Prelude.{ℕ, ◌≡◌, [], Option, some, ok, ◌>>=◌}
use dstest.Prelude.Text.{Text}
use dstest.Network.Manager.{Manager, pair_of}
use dstest.Network.Proxy.{
  Incoming, Request, Response, node_port, node_url, http2c_prepare, http2c_forward,
}
use dstest.Network.Proxy.Headers.{IsMap, IsParsed, copy_header_same, add_all_same}

-- `NewRequest` makes a request of its arguments, with an empty header, where it has no error.
pub record Makes (new_request : Text → Text → Text → Option Request) (method url body : Text)
    : Type 0 where
  pub made :
      new_request method url body
      ≡ some (record { method = method; url = url; header = []; body = body })

-- Where the body can be read, the request can be made and the node answers with a body: the node at the
-- port of the pair's receiver is asked for the same method, path, header and body, and the client gets the
-- status, the header and the body that the node answered.
pub http2c_relay :
    (decimal : ℕ → Text) (new_request : Text → Text → Text → Option Request)
    (canonical : Text → Text) (answer : ℕ → Request → Option Response) (base port : ℕ)
    (nm : Manager) (request : Incoming) (body : Text) (resp : Response) (payload : Text)
    → request.body ≡ some body
    → IsMap request.header
    → Makes new_request request.method
        (node_url decimal new_request (node_port base (pair_of nm port)) request.request_uri)
        body
    → answer (node_port base (pair_of nm port)) (record {
      method = request.method;
      url = node_url decimal new_request (node_port base (pair_of nm port)) request.request_uri;
      header = request.header;
      body = body;
    })
      ≡ some resp
    → resp.body ≡ some payload
    → IsMap resp.header
    → IsParsed canonical resp.header
    → (http2c_prepare decimal new_request base port nm request
        >>= http2c_forward canonical answer base (pair_of nm port))
      ≡ ok (record { status_code = resp.status_code; header = resp.header; body = payload })
unfolding http2c_prepare http2c_forward
http2c_relay decimal new_request canonical answer base port nm request body resp payload read is_map
      makes answered read' is_map' parsed =
    rw (
      read,
      http2c_prepare,
      makes.made,
      copy_header_same request.header is_map,
      http2c_forward,
      answered,
      read',
      add_all_same canonical resp.header is_map' parsed,
    )
