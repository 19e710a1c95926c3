-- ===== src/Network/Manager/Init.antt =====
-- `Manager.Init` as a whole, with a known protocol and with an unknown one.
use native.Mathlib.Nat.{mul-le-mul, le-div_iff_mul-le}
use dstest.Prelude.{
  ℕ, zero, suc, ◌+◌, ◌-◌, ◌*◌, ◌/◌, ◌==◌, ◌≡◌, ◌<◌, ◌≤◌, ◌≢◌, ◌⊎◌, inl, inr, ◌∙◌, refl, true, false,
  List, Option, none, some, length, replicate, length-replicate, length-set, put-lt,
  for_range-Returns, find, Returns, Returns-map, Returns-bind, arith, ℕ_discrete, Option-cases,
}
use dstest.Prelude.Text.{Text}
use dstest.Config.{NetworkConfig, ProcessConfig}
use dstest.Network.Queue
use dstest.Network.Queue.{MessageQueue}
use dstest.Network.Router.Connectivity.{Connects, init-Returns}
use dstest.Network.Interceptor.{create_interceptor}
use dstest.Network.Manager.{
  Manager, InitState, creation_error, connect, connect_pair, connect_node, init,
}
use dstest.Network.Manager.Ports.{port_pair, Filled}
use dstest.Network.Manager.Rounds.{Before, connect_node-Before}

-- The manager after `Init`: no error; a map from ports to pairs; an interceptor for every ordered pair
-- of different nodes; all nodes connected, and no message queued.
pub record IsReady (base n : ℕ) (nm : Manager) (result : Manager × Option Text) : Type 0 where
  pub no_error : result.1 ≡ none
  pub ports : (port : ℕ) → find port result.0.port_map ≡ port_pair base n port
  pub slots : length result.0.interceptors ≡ n * (n - 1)
  pub filled : Filled (n * (n - 1)) result.0.interceptors
  pub connected : Connects n (λ x y. true) result.0.router
  pub queues : result.0.message_queues ≡ replicate n Queue.init
  pub no_index : result.0.index ≡ 0
  pub channels : result.0.channels ≡ nm.channels
  pub heap : result.0.heap ≡ nm.heap
  pub wait_group : result.0.wait_group ≡ nm.wait_group

port_pair_past : (base n port : ℕ) → base + n * n ≤ port → port_pair base n port ≡ none
port_pair_past base zero port h = ground arith
port_pair_past base (suc n) port h =
    let far : suc n ≤ (port - base) / suc n =
      (le-div_iff_mul-le {k = suc n} (omega arith)).1 (omega arith) in
    ground arith

-- With a known protocol `Init` returns without an error: the port at the base port plus i * n + j
-- stands for the pair of i and j, for different i and j, and no other port for any; every slot
-- holds an initialized interceptor, all nodes are connected, and nothing is queued or numbered.
pub init-IsReady :
    (network : NetworkConfig) (process : ProcessConfig) (ids : List ℕ) (nm : Manager)
    → create_interceptor network.protocol ≢ none
    → Returns
        (init network process ids nm)
        (IsReady network.base_interceptor_port process.num_replicas nm)
unfolding init
init-IsReady network process ids nm known =
    elim (Option-cases (create_interceptor network.protocol)) [
      | inl e ↦ absurd (known e)
      | inr (ni, made) ↦
          let n = process.num_replicas in
          let base = network.base_interceptor_port in
          Returns-bind _ _ (Connects n (λ x y. true)) _ (init-Returns n) λ router c.
            Returns-bind _ _ (Before base n router nm n 0) _
              (for_range-Returns (λ i. Before base n router nm i 0) (connect_node network n) n
                (λ i s li b. connect_node-Before network n router nm made i s li b) n 0 _
                (omega arith)
                (record {
                  no_error = refl;
                  count = omega arith;
                  slots = length-replicate (n * (n - 1)) none;
                  filled = λ x lx. absurd (omega arith);
                  known = λ port. ground arith;
                  kept = record {
                    same_router = refl;
                    queues = refl;
                    no_index = refl;
                    channels = refl;
                    heap = refl;
                    wait_group = refl;
                  };
                }))
              λ s b. record {
                no_error = b.no_error;
                ports = λ port. ground (arith, b.known port, port_pair_past base n port);
                slots = b.slots;
                filled = λ x lx. b.filled x (rw b.count (ground arith));
                connected = rw b.kept.same_router c;
                queues = b.kept.queues;
                no_index = b.kept.no_index;
                channels = b.kept.channels;
                heap = b.kept.heap;
                wait_group = b.kept.wait_group;
              }
    ]

-- With an unknown protocol the loops stop at the second node's port.
module _ (network : NetworkConfig) (n : ℕ)
    (unknown : create_interceptor network.protocol ≡ none) where
  abbrev Stopped : InitState → Type 0
  Stopped s = s.error ≡ some (creation_error network.protocol)

  -- No error yet: no pair has come up.
  record Starting (i j : ℕ) (s : InitState) : Type 0 where
    no_error : s.error ≡ none
    first : s.k ≡ 0
    node : i ≡ 0
    pair : j ≤ 1
    slots : length s.manager.interceptors ≡ n * (n - 1)
    queues : length s.manager.message_queues ≡ n

  abbrev Pending : ℕ → ℕ → InitState → Type 0
  Pending i j s = Stopped s ⊎ Starting i j s

  connect_pair-Pending :
      (i j : ℕ) (s : InitState)
      → i < n
      → j < n
      → Pending i j s
      → Returns (connect_pair network n i j s) (Pending i (j + 1))
  unfolding connect_pair connect
  connect_pair-Pending i j s li lj (inl e) = rw (e, connect_pair) (inl e)
  connect_pair-Pending i j s li lj (inr b) =
      rw (b.no_error, connect_pair)
        (elim (ℕ_discrete i j) [
          | yes e ↦ rw (same e) (inr (start e))
          | no e ↦ rw (differ e) (
              rw (unknown, connect)
                (rw (put-lt s.manager.interceptors s.k none (room e)) (inl refl)))
        ])
    where
      differ : i ≢ j → (i == j) ≡ false
      differ e = ground arith

      same : i ≡ j → (i == j) ≡ true
      same e = ground arith

      room : i ≢ j → s.k < length s.manager.interceptors
      room e =
          let two : 2 ≤ n = omega (arith, b.node, b.pair) in
          let grown : 1 * 1 ≤ n * (n - 1) =
            mul-le-mul {n₁ = 1} {m₁ = 1} (omega arith) (omega arith) in
          omega (arith, b.slots, b.first)

      start : i ≡ j → Starting i (j + 1) s
      start e = record {
        no_error = b.no_error;
        first = b.first;
        node = b.node;
        pair = omega (arith, b.node);
        slots = b.slots;
        queues = b.queues;
      }

  abbrev Overall : ℕ → InitState → Type 0
  Overall i s = Stopped s ⊎ Starting i 0 s

  connect_node-Pending :
      (i : ℕ) (s : InitState)
      → i < n
      → 2 ≤ n
      → Overall i s
      → Returns (connect_node network n i s) Stopped
  unfolding connect_node
  connect_node-Pending i s li two (inl e) = rw (e, connect_node) e
  connect_node-Pending i s li two (inr b) =
      rw (b.no_error, connect_node)
        (rw (put-lt s.manager.message_queues i Queue.init (omega (arith, b.queues))) (
          Returns-map _ (Pending i n) _
            (for_range-Returns (Pending i) (connect_pair network n i) n
              (λ j t lj p. connect_pair-Pending i j t li lj p) n 0 _ (omega arith)
              (inr (record {
                no_error = b.no_error;
                first = b.first;
                node = b.node;
                pair = omega arith;
                slots = b.slots;
                queues = length-set s.manager.message_queues i Queue.init ∙ b.queues;
              })))
            (λ t p. only_stopped t p)))
    where
      only_stopped : (t : InitState) → Pending i n t → Stopped t
      only_stopped t (inl e) = e
      only_stopped t (inr late) = absurd (omega (arith, late.pair))

-- With an unknown protocol and two nodes or more `Init` returns the error, which names the protocol.
init_unknown :
    (network : NetworkConfig) (process : ProcessConfig) (ids : List ℕ) (nm : Manager)
    → create_interceptor network.protocol ≡ none
    → 2 ≤ process.num_replicas
    → Returns
        (init network process ids nm)
        (λ result. result.1 ≡ some (creation_error network.protocol))
unfolding init
init_unknown network process ids nm unknown two =
    let n = process.num_replicas in
    Returns-bind _ _ (Connects n (λ x y. true)) _ (init-Returns n) λ router c.
      Returns-bind _ _ (Overall network n unknown n) _
        (for_range-Returns (Overall network n unknown) (connect_node network n) n
          (λ i s li p.
            Returns-map _ (Stopped network n unknown) _
              (connect_node-Pending network n unknown i s li two p) (λ t e. inl e))
          n 0 _ (omega arith)
          (inr (record {
            no_error = refl;
            first = refl;
            node = refl;
            pair = omega arith;
            slots = length-replicate (n * (n - 1)) none;
            queues = length-replicate n Queue.init;
          })))
        (λ s p. finished s p)
  where
    finished :
        (s : InitState)
        → Overall network process.num_replicas unknown process.num_replicas s
        → s.error ≡ some (creation_error network.protocol)
    finished s (inl e) = e
    finished s (inr early) = absurd (omega (arith, early.node))
