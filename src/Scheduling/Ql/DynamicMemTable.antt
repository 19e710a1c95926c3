-- ===== src/Scheduling/Ql/DynamicMemTable.antt =====
-- cmd/dstest/scheduling/ql/DynamicMemTable.go: a map from state hashes to maps from actions to values.
use mathlib.Core.List.{Memᴰ}
use dstest.Prelude.{
  ◌⊎◌, ◌∙◌, sym, ap, subst, ℕ, ◌==◌, ◌≡◌, refl, true, false, List, [], ◌∷◌, Option, none, some, pos,
  minus_one, All, find, assign, find-assign, if◌then◌else◌, Bool-cases, Option-cases, inl, inr,
}
use dstest.Prelude.Machine.{Floats}

module _ (fl : Floats) where
  abbrev pub Row : Type 0
  Row = List (ℕ × fl.F)

  abbrev pub DynamicMemTable : Type 0
  DynamicMemTable = List (ℕ × Row)

  unfoldable pub new_dynamic_mem_table : DynamicMemTable
  new_dynamic_mem_table = []

  -- The loop of `GetMax`. `action = action` assigns the loop's own variable, so the one that is
  -- returned keeps its value.
  unfoldable pub scan : Row → ℕ → fl.F → ℕ × fl.F
  scan [] action max_q_value = (action, max_q_value)
  scan ((a, value) ∷ qv) action max_q_value =
      scan qv action (if fl.lt max_q_value value then value else max_q_value)

  unfoldable pub get_max : DynamicMemTable → ℕ → ℕ × fl.F
  get_max m state = elim (find state m) [
    | none ↦ (0, fl.of_int (pos 0))
    | some qv ↦ scan qv 0 (fl.of_int minus_one)
  ]

  -- `none` is the error "action does not exist in state".
  unfoldable pub get : DynamicMemTable → ℕ → ℕ → Option fl.F
  get m state action = elim (find state m) [
    | none ↦ some (fl.of_int (pos 0))
    | some qv ↦ find action qv
  ]

  abbrev pub row_or_empty : Option Row → Row
  row_or_empty none = []
  row_or_empty (some qv) = qv

  unfoldable pub set : DynamicMemTable → ℕ → ℕ → fl.F → DynamicMemTable
  set m state action q_value = assign state (assign action q_value (row_or_empty (find state m))) m

  unfoldable pub clear : DynamicMemTable → DynamicMemTable
  clear m = []

  -- `Get` after `Set`: in the row that was written the new value for its action and what the row
  -- had for the others, where none is an error; in the other rows what was there.
  get-set :
      (m : DynamicMemTable) (state state' action action' : ℕ) (q : fl.F)
      → get (set m state action q) state' action' ≡ (
          if state == state'
          then (if action == action' then some q else find action' (row_or_empty (find state m)))
          else get m state' action')
  unfolding get set
  get-set m state state' action action' q =
      rw (find-assign state state' (assign action q (row_or_empty (find state m))) m, get)
        (elim (Bool-cases (state == state')) [
          | inl same ↦ rw same (find-assign action action' q (row_or_empty (find state m)))
          | inr other ↦ rw (other, get)
        ])

  scan-action : (qv : Row) (action : ℕ) (best : fl.F) → (scan qv action best).0 ≡ action
  unfolding scan
  scan-action [] action best = refl
  scan-action ((a, value) ∷ qv) action best = scan-action qv action _

  max_action :
      (m : DynamicMemTable) (state : ℕ) (qv : Row)
      → find state m ≡ some qv
      → (get_max m state).0 ≡ 0
  unfolding get_max
  max_action m state qv e = rw (e, get_max) (scan-action qv 0 (fl.of_int minus_one))

  -- The action of `GetMax` is 0 for every state.
  pub get_max-zero : (m : DynamicMemTable) (state : ℕ) → (get_max m state).0 ≡ 0
  unfolding get_max
  get_max-zero m state = elim (Option-cases (find state m)) [
    | inl absent ↦ rw (absent, get_max)
    | inr (qv, e) ↦ max_action m state qv e
  ]

  -- For a row without action 0, the action that `GetMax` returns has no value in it: `Get` answers it
  -- with an error.
  get_max_unknown :
      (m : DynamicMemTable) (state : ℕ) (qv : Row)
      → find state m ≡ some qv
      → find 0 qv ≡ none
      → get m state (get_max m state).0 ≡ none
  unfolding get get_max
  get_max_unknown m state qv e absent =
      let missing : get m state 0 ≡ none = rw (e, get) absent in
      subst (λ a. get m state a ≡ none) (sym (max_action m state qv e)) missing

  -- The order of floating-point numbers that are not NaN.
  pub record IsOrdered : Type 0 where
    pub lt_irrefl : (x : fl.F) → fl.lt x x ≡ false
    pub lt_asymm : (x y : fl.F) → fl.lt x y ≡ true → fl.lt y x ≡ false
    pub ge_trans : (x y z : fl.F) → fl.lt x y ≡ false → fl.lt y z ≡ false → fl.lt x z ≡ false

  module _ (ordered : IsOrdered) where
    abbrev pub Bounds : fl.F → Row → Type 0
    Bounds best qv = All (λ (entry : ℕ × fl.F). fl.lt best entry.1 ≡ false) qv

    better_ge :
        (best value : fl.F)
        → (fl.lt (if fl.lt best value then value else best) best ≡ false)
          × (fl.lt (if fl.lt best value then value else best) value ≡ false)
    better_ge best value = elim (Bool-cases (fl.lt best value)) [
      | inl up ↦ rw up (ordered.lt_asymm best value up, ordered.lt_irrefl value)
      | inr keep ↦ rw keep (ordered.lt_irrefl best, keep)
    ]

    scan-Bounds :
        (qv : Row) (action : ℕ) (best : fl.F)
        → (fl.lt (scan qv action best).1 best ≡ false) × Bounds (scan qv action best).1 qv
    unfolding scan
    scan-Bounds [] action best = (ordered.lt_irrefl best, tt)
    scan-Bounds ((a, value) ∷ qv) action best =
        let next = if fl.lt best value then value else best in
        let result = (scan qv action next).1 in
        let (above, below) = scan-Bounds qv action next in
        let (ge_best, ge_value) = better_ge best value in
        (
          ordered.ge_trans result next best above ge_best,
          (ordered.ge_trans result next value above ge_value, below),
        )

    scan-attained :
        (qv : Row) (action : ℕ) (best : fl.F)
        → ((scan qv action best).1 ≡ best) ⊎ ((a : ℕ) × Memᴰ (a, (scan qv action best).1) qv)
    unfolding scan
    scan-attained [] action best = inl refl
    scan-attained ((a, value) ∷ qv) action best =
        let next = if fl.lt best value then value else best in
        elim (scan-attained qv action next) [
          | inr (a', there) ↦ inr (a', Memᴰ.tail there)
          | inl here ↦ elim (Bool-cases (fl.lt best value)) [
            | inl up ↦ inr (a, Memᴰ.head (ap (λ (v : fl.F). (a, v)) (here ∙ rw up)))
            | inr keep ↦ inl (here ∙ rw keep)
          ]
        ]

    -- With numbers that are ordered, the value that `GetMax` returns for a row is at least every
    -- value of the row, in whatever order the map is gone through, and it is one of them or -1.
    get_max-value :
        (m : DynamicMemTable) (state : ℕ) (qv : Row)
        → find state m ≡ some qv
        → Bounds (get_max m state).1 qv
          × (((get_max m state).1 ≡ fl.of_int minus_one)
              ⊎ ((a : ℕ) × Memᴰ (a, (get_max m state).1) qv))
    unfolding get_max
    get_max-value m state qv e =
        rw (e, get_max)
          ((scan-Bounds qv 0 (fl.of_int minus_one)).1, scan-attained qv 0 (fl.of_int minus_one))
