-- ===== src/Network/Manager/Rounds.antt =====
-- The rounds of the loops in `Manager.Init`, while the protocol is known.
use native.Mathlib.Nat.{mul-le-mul_right}
use dstest.Prelude.{
  ℕ, suc, ◌+◌, ◌-◌, ◌*◌, ◌==◌, ◌≡◌, ◌<◌, ◌≤◌, ◌≢◌, ◌∙◌, true, false, none, some, ok, length,
  replicate, length-replicate, length-set, set, set-replicate, put-lt, for_range-Returns, assign,
  if◌then◌else◌, ltb, Returns, Returns-map, arith, ℕ_discrete,
}
use dstest.Config.{NetworkConfig}
use dstest.Network.Queue
use dstest.Network.Queue.{MessageQueue}
use dstest.Network.Router.{Router}
use dstest.Network.Interceptor
use dstest.Network.Interceptor.{Interceptor, create_interceptor}
use dstest.Network.Manager.{Manager, InitState, connect, connect_pair, connect_node}
use dstest.Network.Manager.Ports.{Known, Known-assign, Known-skip, Filled, Filled-set}

-- What the loops leave alone, for a manager that began as `nm`.
pub record Kept (n : ℕ) (router : Router) (nm s : Manager) : Type 0 where
  pub same_router : s.router ≡ router
  pub queues : s.message_queues ≡ replicate n Queue.init
  pub no_index : s.index ≡ 0
  pub channels : s.channels ≡ nm.channels
  pub heap : s.heap ≡ nm.heap
  pub wait_group : s.wait_group ≡ nm.wait_group

-- The state before the round for the pair (i, j).
pub record Before (base n : ℕ) (router : Router) (nm : Manager) (i j : ℕ) (s : InitState)
    : Type 0 where
  pub no_error : s.error ≡ none
  pub count : s.k ≡ i * (n - 1) + (if ltb i j then j - 1 else j)
  pub slots : length s.manager.interceptors ≡ n * (n - 1)
  pub filled : Filled s.k s.manager.interceptors
  pub known : Known base n (i * n + j) s.manager.port_map
  pub kept : Kept n router nm s.manager

-- There is a slot left for the interceptor of a pair.
slot_free :
    (n i j k : ℕ)
    → i < n
    → j < n
    → i ≢ j
    → k ≡ i * (n - 1) + (if ltb i j then j - 1 else j)
    → k < n * (n - 1)
slot_free n i j k li lj ne e =
    let offset : (if ltb i j then j - 1 else j) < n - 1 = ground arith in
    let row : suc i * (n - 1) ≤ n * (n - 1) = mul-le-mul_right (n - 1) li in omega (arith, e)

next_offset : (n i j : ℕ) (P : ℕ → Type 0) → P (i * n + j + 1) → P (i * n + (j + 1))
next_offset n i j P h = let e : i * n + j + 1 ≡ i * n + (j + 1) = omega arith in rw e at h

module _ (config : NetworkConfig) (n : ℕ) (router : Router) (nm : Manager) where
  abbrev base : ℕ
  base = config.base_interceptor_port

  connect-Before :
      {ni : Interceptor}
      → create_interceptor config.protocol ≡ some ni
      → (i j : ℕ) (s : InitState) → i < n
      → j < n
      → i ≢ j
      → Before base n router nm i j s
      → Returns (connect config n i j s) (Before base n router nm i (j + 1))
  unfolding connect
  connect-Before {ni} made i j s li lj ne b =
      let free : s.k < length s.manager.interceptors =
        rw b.slots (slot_free n i j s.k li lj ne b.count) in
      rw (made, connect)
        (rw
          (put-lt s.manager.interceptors s.k
            (some (Interceptor.init (i * n + j) (base + (i * n + j)) ni)) free)
          (record {
            no_error = b.no_error;
            count = ground (arith, b.count);
            slots = length-set s.manager.interceptors s.k _ ∙ b.slots;
            filled =
                Filled-set s.k s.manager.interceptors (i * n + j) (base + (i * n + j)) ni free
                  b.filled;
            known =
                next_offset n i j
                  (λ q. Known base n q (
                    assign (base + (i * n + j)) (record { sender = i; receiver = j })
                      s.manager.port_map))
                  (Known-assign base n i j s.manager.port_map li lj ne b.known);
            kept = record {
              same_router = b.kept.same_router;
              queues = b.kept.queues;
              no_index = b.kept.no_index;
              channels = b.kept.channels;
              heap = b.kept.heap;
              wait_group = b.kept.wait_group;
            };
          }))

  skip-Before :
      (i : ℕ) (s : InitState)
      → i < n
      → Before base n router nm i i s
      → Before base n router nm i (i + 1) s
  skip-Before i s li b = record {
    no_error = b.no_error;
    count = ground (arith, b.count);
    slots = b.slots;
    filled = b.filled;
    known =
        next_offset n i i (λ q. Known base n q s.manager.port_map)
          (Known-skip base n i s.manager.port_map li b.known);
    kept = b.kept;
  }

  connect_pair-Before :
      {ni : Interceptor}
      → create_interceptor config.protocol ≡ some ni
      → (i j : ℕ) (s : InitState) → i < n
      → j < n
      → Before base n router nm i j s
      → Returns (connect_pair config n i j s) (Before base n router nm i (j + 1))
  unfolding connect_pair
  connect_pair-Before made i j s li lj b =
      rw (b.no_error, connect_pair)
        (elim (ℕ_discrete i j) [
          | yes e ↦ skip e
          | no e ↦ rw (differ e) (connect-Before made i j s li lj e b)
        ])
    where
      differ : i ≢ j → (i == j) ≡ false
      differ e = ground arith

      same : (i == i) ≡ true
      same = ground arith

      skip :
          i ≡ j
          → Returns
              (if i == j then ok s else connect config n i j s)
              (Before base n router nm i (j + 1))
      skip e = rw (← e) (rw same (skip-Before i s li (rw (← e) at b)))

  start_row :
      (i : ℕ) (s : InitState)
      → i < n
      → Before base n router nm i 0 s
      → Before base n router nm i 0 (record s {
        manager = record s.manager { message_queues = set s.manager.message_queues i Queue.init };
      })
  start_row i s li b = record {
    no_error = b.no_error;
    count = b.count;
    slots = b.slots;
    filled = b.filled;
    known = b.known;
    kept = record {
      same_router = b.kept.same_router;
      queues = rw b.kept.queues (set-replicate n i Queue.init);
      no_index = b.kept.no_index;
      channels = b.kept.channels;
      heap = b.kept.heap;
      wait_group = b.kept.wait_group;
    };
  }

  end_row :
      (i : ℕ) (s : InitState)
      → i < n
      → Before base n router nm i n s
      → Before base n router nm (i + 1) 0 s
  end_row i s li b = record {
    no_error = b.no_error;
    count = ground (arith, b.count);
    slots = b.slots;
    filled = b.filled;
    known = λ port. ground (arith, b.known port);
    kept = b.kept;
  }

  pub connect_node-Before :
      {ni : Interceptor}
      → create_interceptor config.protocol ≡ some ni
      → (i : ℕ) (s : InitState) → i < n
      → Before base n router nm i 0 s
      → Returns (connect_node config n i s) (Before base n router nm (i + 1) 0)
  unfolding connect_node
  connect_node-Before made i s li b =
      let queue_free : i < length s.manager.message_queues =
        rw b.kept.queues (rw (length-replicate n Queue.init) li) in
      rw (b.no_error, connect_node)
        (rw (put-lt s.manager.message_queues i Queue.init queue_free) (
          Returns-map _ (Before base n router nm i n) _
            (for_range-Returns (Before base n router nm i) (connect_pair config n i) n
              (λ j t lj p. connect_pair-Before made i j t li lj p) n 0 _ (omega arith)
              (start_row i s li b))
            (λ t p. end_row i t li p)))
