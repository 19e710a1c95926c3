-- ===== src/Network/Proxy/Targets.antt =====
-- Which node the interceptors of a manager that `Init` made dial.
use native.Mathlib.Nat.{div-add-mod', mod-lt}
use dstest.Prelude.{
  ℕ, zero, suc, ◌+◌, ◌-◌, ◌*◌, ◌/◌, ◌%◌, ◌==◌, ◌&&◌, not, ltb, Bool-cases, inl, inr, ◌≡◌, ◌≢◌, ◌<◌,
  ◌∙◌, refl, ap, Bool, true, List, none, some, Returns, Returns-map, arith, find,
}
use dstest.Config.{NetworkConfig, ProcessConfig}
use dstest.Network.Interceptor.{create_interceptor}
use dstest.Network.Manager.{Manager, pair_of, init}
use dstest.Network.Manager.Ports.{pair, port_pair, port_pair-offset}
use dstest.Network.Manager.Init.{IsReady, init-IsReady}
use dstest.Network.Proxy.{closed, joined, tcp_connection, http2_forward}

-- The interceptor port of a pair.
abbrev pub port_of : NetworkConfig → ProcessConfig → ℕ → ℕ → ℕ
port_of network process i j = network.base_interceptor_port + (i * process.num_replicas + j)

-- A port other than those of the pairs stands for no pair.
port_pair_other :
    (base n port : ℕ)
    → ((i j : ℕ) → i < n → j < n → i ≢ j → port ≢ base + (i * n + j))
    → port_pair base n port ≡ none
port_pair_other base zero port other = ground arith
port_pair_other base (suc n) port other =
    let q = port - base in
    let small = mod-lt q {m = suc n} (omega arith) in
    let parts = div-add-mod' q (suc n) in
    elim (Bool-cases (ltb port base)) [
      | inl below ↦ ground (arith, below)
      | inr above ↦ elim (Bool-cases (ltb (q / suc n) (suc n) && not (q / suc n == q % suc n))) [
        | inr outside ↦ rw (above, outside) refl
        | inl inside ↦ absurd (
            other (q / suc n) (q % suc n) (ground (arith, inside)) small
              (λ e. ground (arith, inside, e)) (ground (arith, above, parts)))
      ]
    ]

module _ (network : NetworkConfig) (process : ProcessConfig) (ids : List ℕ) (before : Manager)
    (known : create_interceptor network.protocol ≢ none) (reachable : ℕ → Bool) where
  -- After `Init` with a known protocol, and with nodes that all accept: the HTTP interceptor of i and j joins its client with the node at
  -- the base port plus j, and the TCP interceptor of the same pair with the node one port above, which
  -- the HTTP interceptors take for node j + 1; at any other port, below, between or above those of the
  -- pairs, the TCP interceptor closes.
  pub init-targets :
      ((port : ℕ) → reachable port ≡ true)
      → Returns (init network process ids before) λ result.
        ((i j : ℕ)
          → i < process.num_replicas
          → j < process.num_replicas
          → i ≢ j
          → (http2_forward reachable network.base_replica_port
                (pair_of result.0 (port_of network process i j))
              ≡ joined (network.base_replica_port + j))
            × (tcp_connection reachable network.base_replica_port
                  (port_of network process i j)
                  result.0
                ≡ joined (network.base_replica_port + j + 1)))
        × ((port : ℕ)
            → ((i j : ℕ)
                → i < process.num_replicas
                → j < process.num_replicas
                → i ≢ j
                → port ≢ port_of network process i j)
            → tcp_connection reachable network.base_replica_port port result.0 ≡ closed)
  unfolding http2_forward tcp_connection pair_of
  init-targets accepts =
      Returns-map _ (IsReady network.base_interceptor_port process.num_replicas before) _
        (init-IsReady network process ids before known)
        λ result ready. (
          (λ i j li lj ne.
              let found : find (port_of network process i j) result.0.port_map ≡ some (pair i j) =
                ready.ports (port_of network process i j)
                ∙ port_pair-offset network.base_interceptor_port process.num_replicas i j li lj
                ∙ ground arith in
              (
                rw (found, pair_of, accepts (j + network.base_replica_port))
                    (ap joined (omega arith)),
                rw (found, tcp_connection, accepts (network.base_replica_port + j + 1)) refl,
              )),
          (λ port other.
              rw
                (
                  ready.ports port,
                  port_pair_other network.base_interceptor_port process.num_replicas port other,
                  tcp_connection,
                )
                refl),
        )
