-- ===== src/Network/Manager/Ports.antt =====
-- What `Manager.Init` builds: which interceptor port stands for which pair of nodes.
use native.Mathlib.Nat.{
  mul-add-div_right, mul-add-mod_self_right, div-eq_of_lt, mod-eq_of_lt, add-zero,
}
use dstest.Prelude.{
  ℕ, ◌+◌, ◌-◌, ◌*◌, ◌/◌, ◌%◌, ◌==◌, ◌&&◌, ◌≡◌, ◌<◌, ◌≢◌, ◌∙◌, ap, refl, not, true, List, Option,
  none, some, length, set, get_or, get_or-set_self, get_or-set_ne, find, assign, find-assign,
  if◌then◌else◌, ltb, arith, ℕ_discrete,
}
use dstest.Network.Interceptor.{Interceptor, create_interceptor}
use dstest.Network.Interceptor
use dstest.Network.Manager.{SenderReceiverPair}

abbrev pub pair : ℕ → ℕ → SenderReceiverPair
pair i j = record { sender = i; receiver = j }

-- The pair that stands at an offset of the port numbers: two different nodes of `n`.
abbrev pub pair_at : ℕ → ℕ → Option SenderReceiverPair
pair_at n q = if ltb (q / n) n && not (q / n == q % n) then some (pair (q / n) (q % n)) else none

-- The same for a port, the numbers starting at `base`.
abbrev pub port_pair : ℕ → ℕ → ℕ → Option SenderReceiverPair
port_pair base n port = if ltb port base then none else pair_at n (port - base)

pub offset_parts : (n i j : ℕ) → j < n → ((i * n + j) / n ≡ i) × ((i * n + j) % n ≡ j)
offset_parts n i j h = (
  mul-add-div_right {m = n} (omega arith) i j ∙ ap (λ k. i + k) (div-eq_of_lt h) ∙ add-zero i,
  mul-add-mod_self_right i n j ∙ mod-eq_of_lt h,
)

pub port_pair-offset :
    (base n i j : ℕ)
    → i < n
    → j < n
    → port_pair base n (base + (i * n + j)) ≡ (if i == j then none else some (pair i j))
port_pair-offset base n i j li lj =
    let (di, mj) = offset_parts n i j lj in
    let e : base + (i * n + j) - base ≡ i * n + j = omega arith in rw e (rw (di, mj) (ground arith))

-- While the pairs with an offset below `q` are done, the map answers for those alone.
abbrev pub Known : ℕ → ℕ → ℕ → List (ℕ × SenderReceiverPair) → Type 0
Known base n q m =
    (port : ℕ) → find port m ≡ (if ltb port (base + q) then port_pair base n port else none)

pub Known-assign :
    (base n i j : ℕ) (m : List (ℕ × SenderReceiverPair))
    → i < n
    → j < n
    → i ≢ j
    → Known base n (i * n + j) m
    → Known base n (i * n + j + 1) (assign (base + (i * n + j)) (pair i j) m)
Known-assign base n i j m li lj ne known port =
    rw (find-assign (base + (i * n + j)) port (pair i j) m)
      (elim (ℕ_discrete (base + (i * n + j)) port) [
        | yes e ↦ rw (← e) (rw (port_pair-offset base n i j li lj) (ground arith))
        | no e ↦ rw (known port) (ground arith)
      ])

pub Known-skip :
    (base n i : ℕ) (m : List (ℕ × SenderReceiverPair))
    → i < n
    → Known base n (i * n + i) m
    → Known base n (i * n + i + 1) m
Known-skip base n i m li known port = elim (ℕ_discrete (base + (i * n + i)) port) [
  | yes e ↦ rw (known port) (rw (← e) (rw (port_pair-offset base n i i li li) (ground arith)))
  | no e ↦ rw (known port) (ground arith)
]

-- The first `k` interceptors are made and initialized.
abbrev pub Filled : ℕ → List (Option Interceptor) → Type 0
Filled k l =
    (x : ℕ) → x < k → (ni : Interceptor) × (get_or l x none ≡ some ni) × (ni.is_initialized ≡ true)

pub Filled-set :
    (k : ℕ) (l : List (Option Interceptor)) (id port : ℕ) (ni : Interceptor)
    → k < length l
    → Filled k l
    → Filled (k + 1) (set l k (some (Interceptor.init id port ni)))
unfolding Interceptor.init
Filled-set k l id port ni lk filled x lx = elim (ℕ_discrete k x) [
  | yes e ↦ rw (← e) (
    Interceptor.init id port ni,
    get_or-set_self l k (some (Interceptor.init id port ni)) none lk,
    refl,
  )
  | no e ↦
      let (ni', at_x, ready) = filled x (omega arith) in
      (ni', get_or-set_ne l k x (some (Interceptor.init id port ni)) none e ∙ at_x, ready)
]
