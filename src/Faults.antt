-- ===== src/Faults.antt =====
-- cmd/dstest/faults: the faults and their manager. `Precondition` and `Behavior` are interfaces
-- with two and four implementations, and `BaseFault` is the only kind of fault.
pub mod Plan
use dstest.Prelude.{
  ℕ, ◌++◌, Bool, true, false, List, [], ◌∷◌, Option, none, some, Outcome, ok, panic, type_assertion,
  ◌>>=◌, ℤ, if◌then◌else◌,
}
use dstest.Prelude.Text.{Text, codes, text_eq, to_lower, lookup}
use dstest.Config.{Value, int, float, text, compound, Params, FaultEntry, FaultConfig}
use dstest.Network.Router.{Router, isolate_node}
use dstest.Process.{ProcessManager, crash_replica, restart_replica}

-- What `GetNetworkManager` and `GetProcessManager` give, of which the faults use the router and the
-- processes.
pub record FaultContext : Type 0 where
  pub router : Router
  pub process_manager : ProcessManager

pub data Precondition : Type 0 where
  always_enabled dummy : Precondition

pub data Behavior : Type 0 where
  nothing : Behavior
  crash_replica_behavior restart_replica_behavior isolate_node_behavior : ℤ → Behavior

pub record BaseFault : Type 0 where
  pub precondition : Precondition
  pub behavior : Behavior

-- No precondition returns an error.
unfoldable pub satisfies : Precondition → Bool
satisfies always_enabled = true
satisfies dummy = false

unfoldable pub is_enabled : BaseFault → Bool
is_enabled f = satisfies f.precondition

unfoldable pub apply_crash_replica : ℤ → FaultContext → Outcome FaultContext
apply_crash_replica node_id context = do
  (pm, crashed) ← crash_replica node_id context.process_manager
  ok (record context { process_manager = pm })

-- `launched` says if the process of the restart is launched.
unfoldable pub apply_restart_replica : Bool → ℤ → FaultContext → Outcome FaultContext
apply_restart_replica launched node_id context = do
  (pm, restarted) ← restart_replica launched node_id context.process_manager
  ok (record context { process_manager = pm })

unfoldable pub apply_isolate_node : ℤ → FaultContext → Outcome FaultContext
apply_isolate_node node_id context = do
  router ← isolate_node context.router node_id
  ok (record context { router = router })

-- No behavior returns an error.
unfoldable pub apply : Bool → Behavior → FaultContext → Outcome FaultContext
apply launched nothing context = ok context
apply launched (crash_replica_behavior node_id) context = apply_crash_replica node_id context
apply launched (restart_replica_behavior node_id) context =
    apply_restart_replica launched node_id context
apply launched (isolate_node_behavior node_id) context = apply_isolate_node node_id context

unfoldable pub apply_behavior_if_precondition_met :
    Bool → BaseFault → FaultContext → Outcome FaultContext
apply_behavior_if_precondition_met launched f context =
    if satisfies f.precondition then apply launched f.behavior context else ok context

-- How a constructor answers: the fault, or the text of the error.
pub data Made : Type 0 where
  made : BaseFault → Made
  refused : Text → Made

always : Behavior → Made
always b = made (record { precondition = always_enabled; behavior = b })

module _ {F : Type 0} where
  -- `params[key].(int)` where `missing` is the error for a key that is not there.
  int_param : Text → Text → (ℤ → Behavior) → Option (Value F) → Outcome Made
  unfolding always
  int_param key missing behavior none = ok (refused missing)
  int_param key missing behavior (some (int node)) = ok (always (behavior node))
  int_param key missing behavior (some (float x)) = panic type_assertion
  int_param key missing behavior (some (text t)) = panic type_assertion
  int_param key missing behavior (some compound) = panic type_assertion

  unfoldable pub new_crash_replica_fault : Params F → Outcome Made
  unfolding int_param
  new_crash_replica_fault params =
      int_param (codes "node") (codes "node parameter is required") crash_replica_behavior
        (lookup (codes "node") params)

  unfoldable pub new_restart_replica_fault : Params F → Outcome Made
  unfolding int_param
  new_restart_replica_fault params =
      int_param (codes "node") (codes "node parameter is required") restart_replica_behavior
        (lookup (codes "node") params)

  unfoldable pub new_node_isolation_fault : Params F → Outcome Made
  unfolding int_param
  new_node_isolation_fault params =
      int_param (codes "nodeId") (codes "nodeId parameter is required") isolate_node_behavior
        (lookup (codes "nodeId") params)

  unfoldable pub new_dummy_fault : Params F → Outcome Made
  new_dummy_fault params = ok (made (record { precondition = dummy; behavior = nothing }))

  unfoldable pub new_fault : Text → Params F → Outcome Made
  unfolding new_crash_replica_fault new_restart_replica_fault new_dummy_fault
  new_fault name params =
      if text_eq (to_lower name) (codes "dummy")
      then new_dummy_fault params
      else if text_eq (to_lower name) (codes "crash")
      then new_crash_replica_fault params
      else if text_eq (to_lower name) (codes "restart")
      then new_restart_replica_fault params
      else ok (refused (codes "Fault '" ++ name ++ codes "' not found"))

pub record FaultManager : Type 0 where
  pub faults : List BaseFault

unfoldable pub add_fault : FaultManager → BaseFault → FaultManager
add_fault fm f = record { faults = fm.faults ++ f ∷ [] }

-- The body of the loop of `Init` after the call of `NewFault`, with the rounds that come `next`.
unfoldable pub add_next :
    {F : Type 0}
    → FaultEntry F
    → (FaultManager → Outcome (FaultManager × Option Text))
    → FaultManager
    → Made
    → Outcome (FaultManager × Option Text)
add_next f next fm (made fault) = next (add_fault fm fault)
add_next f next fm (refused e) =
    ok (fm, some (codes "error creating " ++ f.type ++ codes " fault: " ++ e))

unfoldable pub add_all :
    {F : Type 0} → List (FaultEntry F) → FaultManager → Outcome (FaultManager × Option Text)
add_all [] fm = ok (fm, none)
add_all (f ∷ faults) fm = new_fault f.type f.params >>= add_next f (add_all faults) fm

-- The faults after `Init`, and the error that it returns.
unfoldable pub init :
    {F : Type 0} → FaultConfig F → FaultManager → Outcome (FaultManager × Option Text)
init config fm = add_all config.faults (record { faults = [] })

unfoldable pub apply_list : Bool → List BaseFault → FaultContext → Outcome FaultContext
apply_list launched [] context = ok context
apply_list launched (f ∷ faults) context =
    apply_behavior_if_precondition_met launched f context >>= apply_list launched faults

unfoldable pub apply_faults : Bool → FaultManager → FaultContext → Outcome FaultContext
apply_faults launched fm context = apply_list launched fm.faults context

abbrev pub enabled : List BaseFault → List BaseFault
enabled [] = []
enabled (f ∷ faults) = if is_enabled f then f ∷ enabled faults else enabled faults

unfoldable pub get_faults : FaultManager → List BaseFault
get_faults fm = fm.faults

unfoldable pub get_enabled_faults : FaultManager → List BaseFault
get_enabled_faults fm = enabled fm.faults
