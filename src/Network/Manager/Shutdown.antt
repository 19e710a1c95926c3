-- ===== src/Network/Manager/Shutdown.antt =====
-- `Manager.Shutdown` and the `Shutdown` of the interceptors: which sockets are closed is left out, and so is
-- the log of the chains. An interceptor that was not initialized has no server and no cancel function.
use dstest.Prelude.{
  ℕ, suc, ◌≡◌, ◌≢◌, refl, true, Bool, List, [], ◌∷◌, Option, none, some, Outcome, ok, panic,
  nil_dereference, ◌>>=◌, length, Returns, Returns-map, if◌then◌else◌, arith,
}
use dstest.Config.{NetworkConfig, ProcessConfig}
use dstest.Network.Interceptor.{Interceptor, Kind, http2c, http, tcp, create_interceptor}
use dstest.Network.Manager.{Manager, init}
use dstest.Network.Manager.Ports.{Filled}
use dstest.Network.Manager.Init.{IsReady, init-IsReady}

abbrev pub shutdown_as : Kind → Bool → Outcome (Unit {0})
shutdown_as http2c is_initialized = if is_initialized then ok tt else panic nil_dereference
shutdown_as http is_initialized = if is_initialized then ok tt else panic nil_dereference
shutdown_as tcp is_initialized = ok tt

unfoldable pub shutdown_interceptor : Option Interceptor → Outcome (Unit {0})
shutdown_interceptor none = panic nil_dereference
shutdown_interceptor (some ni) = shutdown_as ni.kind ni.is_initialized

unfoldable pub shutdown_all : List (Option Interceptor) → Outcome (Unit {0})
shutdown_all [] = ok tt
shutdown_all (ni ∷ rest) = shutdown_interceptor ni >>= λ _. shutdown_all rest

unfoldable pub shutdown : Manager → Outcome (Unit {0})
shutdown nm = shutdown_all nm.interceptors

shutdown_initialized :
    (kind : Kind) (is_initialized : Bool)
    → is_initialized ≡ true
    → shutdown_as kind is_initialized ≡ ok tt
shutdown_initialized http2c b e = rw e refl
shutdown_initialized http b e = rw e refl
shutdown_initialized tcp b e = refl

pub shutdown_all-Filled :
    (l : List (Option Interceptor)) → Filled (length l) l → shutdown_all l ≡ ok tt
unfolding shutdown_all shutdown_interceptor
shutdown_all-Filled [] filled = refl
shutdown_all-Filled (none ∷ l) filled = let (ni, missing, _) = filled 0 (omega arith) in absurd (cc)
shutdown_all-Filled (some ni ∷ l) filled =
    let (ni', same, ready) = filled 0 (omega arith) in
    rw (shutdown_initialized ni.kind ni.is_initialized (cc))
      (shutdown_all-Filled l (λ x lx. filled (suc x) (omega arith)))

-- A manager that `Init` made with a known protocol can be shut down.
pub init-shutdown :
    (network : NetworkConfig) (process : ProcessConfig) (ids : List ℕ) (nm : Manager)
    → create_interceptor network.protocol ≢ none
    → Returns (init network process ids nm) (λ result. shutdown result.0 ≡ ok tt)
unfolding shutdown
init-shutdown network process ids nm known =
    Returns-map _ (IsReady network.base_interceptor_port process.num_replicas nm) _
      (init-IsReady network process ids nm known)
      λ result ready. shutdown_all-Filled result.0.interceptors (rw ready.slots ready.filled)
