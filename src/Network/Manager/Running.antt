-- ===== src/Network/Manager/Running.antt =====
-- `Manager.Run`: when its `Wait` returns.
use dstest.Prelude.{
  ℕ, zero, suc, ◌+◌, ◌≡◌, refl, List, [], ◌∷◌, Option, none, some, ok, true, length, Returns,
  Returns-map, Returns-bind, arith, >>=-eq-ok,
}
use dstest.Prelude.Text.{Text}
use dstest.Network.Interceptor.{Interceptor, Kind, http2c, http, tcp}
use dstest.Network.Interceptor
use dstest.Network.Manager.{Manager, finish, run_interceptor, run_all, run}
use dstest.Network.Manager.Ports.{Filled}

abbrev pub failed : Option Text → ℕ
failed none = 0
failed (some error) = 1

-- How many of the next `k` interceptors the system refuses to listen for, from the i-th on.
abbrev pub failures : (ℕ → Option Text) → ℕ → ℕ → ℕ
failures listen i zero = 0
failures listen i (suc k) = failed (listen i) + failures listen (i + 1) k

finish-eq :
    (error : Option Text) (wait_group : ℕ) → finish error wait_group ≡ wait_group + failed error
unfolding finish
finish-eq none wait_group = omega arith
finish-eq (some error) wait_group = refl

-- An initialized interceptor of any kind returns what the system answers.
run_initialized :
    (listen : Option Text) (ni : Interceptor)
    → ni.is_initialized ≡ true
    → Interceptor.run listen ni ≡ ok listen
unfolding Interceptor.run
run_initialized listen ni ready = ground arith

run_all-Returns :
    (listen : ℕ → Option Text) (l : List (Option Interceptor)) (i wait_group : ℕ)
    → Filled (length l) l
    → Returns
        (run_all l listen i wait_group)
        (λ after. after ≡ wait_group + failures listen i (length l))
unfolding run_all run_interceptor
run_all-Returns listen [] i wait_group filled = omega arith
run_all-Returns listen (none ∷ l) i wait_group filled =
    let (ni, missing, _) = filled 0 (omega arith) in absurd (cc)
run_all-Returns listen (some ni ∷ l) i wait_group filled =
    let (ni', same, ready) = filled 0 (omega arith) in
    let rest : Filled (length l) l = λ x lx. filled (suc x) (omega arith) in
    rw (run_initialized (listen i) ni (cc)) (
      Returns-map _
        (λ after. after ≡ finish (listen i) wait_group + failures listen (i + 1) (length l)) _
        (run_all-Returns listen l (i + 1) (finish (listen i) wait_group) rest)
        (λ after e. omega (arith, e, finish-eq (listen i) wait_group)))

-- With initialized interceptors in all slots, `Run` leaves the counter of its wait group higher by the
-- number of interceptors for which the system answers with an error.
pub run-wait_group :
    (listen : ℕ → Option Text) (nm : Manager)
    → Filled (length nm.interceptors) nm.interceptors
    → Returns
        (run listen nm)
        λ nm'. nm'.wait_group ≡ nm.wait_group + failures listen 0 (length nm.interceptors)
unfolding run
run-wait_group listen nm filled =
    Returns-bind _ _ (λ after. after ≡ nm.wait_group + failures listen 0 (length nm.interceptors)) _
      (run_all-Returns listen nm.interceptors 0 nm.wait_group filled) (λ after e. e)

-- `Run` writes its counter alone.
pub run-keeps :
    (listen : ℕ → Option Text) (nm nm' : Manager)
    → run listen nm ≡ ok nm'
    → (nm'.channels ≡ nm.channels) × (nm'.heap ≡ nm.heap)
unfolding run
run-keeps listen nm nm' e =
    let (after, _, same) = >>=-eq-ok (run_all nm.interceptors listen 0 nm.wait_group) _ e in
    (ground arith, ground arith)

-- Where the system refuses nothing, nothing fails.
pub failures-none :
    (listen : ℕ → Option Text) → ((i : ℕ) → listen i ≡ none) → (i k : ℕ) → failures listen i k ≡ 0
failures-none listen all_listen i zero = refl
failures-none listen all_listen i (suc k) =
    let rest = failures-none listen all_listen (i + 1) k in rw (all_listen i) (omega arith)
