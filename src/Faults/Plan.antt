-- ===== src/Faults/Plan.antt =====
-- cmd/dstest/faults: which faults a configuration gives, and what applying them does.
use dstest.Prelude.{
  ◌≡◌, refl, Bool, true, false, List, [], ◌∷◌, Option, none, some, Outcome, ok, panic, ℕ, fatal,
  out_of_fuel, length, length-append, ◌+◌, ◌>>=◌, ℤ, Bool-cases, inl, inr, arith, All, All-append,
  Returns, Returns-bind,
}
use dstest.Prelude.Text.{Text, codes, text_eq, to_lower, lookup}
use dstest.Config.{Value, int, float, text, compound, Params, FaultEntry, FaultConfig}
use dstest.Faults.{
  FaultContext, BaseFault, Behavior, crash_replica_behavior, restart_replica_behavior,
  isolate_node_behavior, is_enabled, satisfies, apply, apply_behavior_if_precondition_met, Made,
  made, refused, int_param, new_fault, new_crash_replica_fault, new_restart_replica_fault,
  new_dummy_fault, FaultManager, add_fault, add_all, add_next, init, apply_list, apply_faults,
  enabled, get_enabled_faults,
}

-- Every behavior is run, in the order of the list.
abbrev pub run_behaviors : Bool → List BaseFault → FaultContext → Outcome FaultContext
run_behaviors launched [] context = ok context
run_behaviors launched (f ∷ faults) context =
    apply launched f.behavior context >>= run_behaviors launched faults

bind-ext :
    {A B : Type 0} (m : Outcome A) (f g : A → Outcome B)
    → ((a : A) → f a ≡ g a)
    → (m >>= f) ≡ (m >>= g)
bind-ext (ok a) f g h = h a
bind-ext (panic p) f g h = refl
bind-ext fatal f g h = refl
bind-ext out_of_fuel f g h = refl

apply_list-enabled :
    (launched : Bool) (faults : List BaseFault) (context : FaultContext)
    → apply_list launched faults context ≡ run_behaviors launched (enabled faults) context
unfolding apply_list apply_behavior_if_precondition_met is_enabled
apply_list-enabled launched [] context = refl
apply_list-enabled launched (f ∷ faults) context = elim (Bool-cases (satisfies f.precondition)) [
  | inl on ↦
      rw on (bind-ext (apply launched f.behavior context) _ _ (apply_list-enabled launched faults))
  | inr off ↦ rw off (apply_list-enabled launched faults context)
]

-- Applying the faults runs the behaviors of the enabled faults, in their order, and nothing else; the
-- first that panics is the end.
pub apply_faults-enabled :
    (launched : Bool) (fm : FaultManager) (context : FaultContext)
    → apply_faults launched fm context ≡ run_behaviors launched (get_enabled_faults fm) context
unfolding apply_faults get_enabled_faults
apply_faults-enabled launched fm context = apply_list-enabled launched fm.faults context

abbrev pub isolates : Behavior → Bool
isolates (isolate_node_behavior node_id) = true
isolates _ = false

-- The configured value is an integer, if it is there.
abbrev pub is_int : {F : Type 0} → Option (Value F) → Bool
is_int none = true
is_int (some (int node)) = true
is_int (some _) = false

abbrev pub IsPlain : Made → Type 0
IsPlain (made f) = isolates f.behavior ≡ false
IsPlain (refused e) = Unit

abbrev pub AllPlain : List BaseFault → Type 0
AllPlain faults = All (λ (f : BaseFault). isolates f.behavior ≡ false) faults

-- The faults are plain, and there are `count` of them if there is no error.
abbrev pub Planned : ℕ → FaultManager × Option Text → Type 0
Planned count result = AllPlain result.0.faults × (result.1 ≡ none → length result.0.faults ≡ count)

module _ {F : Type 0} where
  int_param-IsPlain :
      (key missing : Text) (behavior : ℤ → Behavior) (o : Option (Value F))
      → is_int o ≡ true
      → ((node : ℤ) → isolates (behavior node) ≡ false)
      → Returns (int_param key missing behavior o) IsPlain
  unfolding int_param
  int_param-IsPlain key missing behavior none h plain = tt
  int_param-IsPlain key missing behavior (some (int node)) h plain = plain node
  int_param-IsPlain key missing behavior (some (float x)) h plain = cc
  int_param-IsPlain key missing behavior (some (text t)) h plain = cc
  int_param-IsPlain key missing behavior (some compound) h plain = cc

  abbrev pub HasIntNode : FaultEntry F → Type 0
  HasIntNode f = is_int (lookup (codes "node") f.params) ≡ true

  new_fault-IsPlain :
      (name : Text) (params : Params F)
      → is_int (lookup (codes "node") params) ≡ true
      → Returns (new_fault name params) IsPlain
  unfolding new_fault new_crash_replica_fault new_restart_replica_fault new_dummy_fault
  new_fault-IsPlain name params h = elim (Bool-cases (text_eq (to_lower name) (codes "dummy"))) [
    | inl is_dummy ↦ rw is_dummy refl
    | inr not_dummy ↦ elim (Bool-cases (text_eq (to_lower name) (codes "crash"))) [
      | inl is_crash ↦
          rw (not_dummy, is_crash)
            (int_param-IsPlain (codes "node") (codes "node parameter is required")
              crash_replica_behavior (lookup (codes "node") params) h (λ node. refl))
      | inr not_crash ↦ elim (Bool-cases (text_eq (to_lower name) (codes "restart"))) [
        | inl is_restart ↦
            rw (not_dummy, not_crash, is_restart)
              (int_param-IsPlain (codes "node") (codes "node parameter is required")
                restart_replica_behavior (lookup (codes "node") params) h (λ node. refl))
        | inr not_restart ↦ rw (not_dummy, not_crash, not_restart) tt
      ]
    ]
  ]

  add_next-Planned :
      (f : FaultEntry F) (next : FaultManager → Outcome (FaultManager × Option Text))
      (fm : FaultManager) (m : Made) (count : ℕ)
      → AllPlain fm.faults
      → IsPlain m
      → ((fm' : FaultManager)
          → AllPlain fm'.faults
          → length fm'.faults ≡ length fm.faults + 1
          → Returns (next fm') (Planned count))
      → Returns (add_next f next fm m) (Planned count)
  unfolding add_next add_fault
  add_next-Planned f next fm (made fault) count plain p go =
      go (add_fault fm fault)
        (All-append (λ (g : BaseFault). isolates g.behavior ≡ false) fm.faults (fault ∷ []) plain
          (p, tt))
        (length-append {0} fm.faults (fault ∷ []))
  add_next-Planned f next fm (refused e) count plain p go = (plain, (λ no. cc))

  add_all-Planned :
      (faults : List (FaultEntry F)) (fm : FaultManager) (count : ℕ)
      → length fm.faults + length faults ≡ count
      → All HasIntNode faults
      → AllPlain fm.faults
      → Returns (add_all faults fm) (Planned count)
  unfolding add_all
  add_all-Planned [] fm count e ints plain = (plain, (λ _. omega (arith, e)))
  add_all-Planned (f ∷ faults) fm count e ints plain =
      Returns-bind (new_fault f.type f.params) (add_next f (add_all faults) fm) IsPlain
        (Planned count) (new_fault-IsPlain f.type f.params ints.0)
        (λ m p. add_next-Planned f (add_all faults) fm m count plain p (λ fm' plain' more.
          add_all-Planned faults fm' count (omega (arith, e, more)) ints.1 plain'))

  -- If every configured `node` is an integer, `Init` returns: none of its faults isolates a node, and
  -- without an error there is one fault for every entry.
  pub init-Planned :
      (config : FaultConfig F) (fm : FaultManager)
      → All HasIntNode config.faults
      → Returns (init config fm) (Planned (length config.faults))
  unfolding init
  init-Planned config fm ints =
      add_all-Planned config.faults (record { faults = [] }) (length config.faults) (omega arith)
        ints tt
