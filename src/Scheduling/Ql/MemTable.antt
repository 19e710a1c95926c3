-- ===== src/Scheduling/Ql/MemTable.antt =====
-- cmd/dstest/scheduling/ql/MemTable.go: a map from state hashes to rows with a value for every action.
use dstest.Prelude.{
  ℕ, ℤ, pos, negsuc, List, [], Option, none, some, Outcome, ok, ◌>>=◌, at, put, replicate, panic,
  index_out_of_range, ltb, length, ◌+◌, if◌then◌else◌, find, assign,
}
use dstest.Prelude.Machine.{Floats}

module _ (fl : Floats) where
  pub record MemTable : Type 0 where
    pub action_space_size : ℕ
    pub table : List (ℕ × List fl.F)

  unfoldable pub new_mem_table : ℕ → MemTable
  new_mem_table action_space_size = record { action_space_size = action_space_size; table = [] }

  -- `max_f32` is `num.MaxF32` of the package gold: an index of a slice with a largest value, and that value.
  unfoldable pub get_max : (List fl.F → ℕ × fl.F) → MemTable → ℕ → ℕ × fl.F
  get_max max_f32 m state = elim (find state m.table) [
    | none ↦ (0, fl.of_int (pos 0))
    | some qv ↦ max_f32 qv
  ]

  -- `len(qv) < action+1`, and the access.
  abbrev pub get_in_row : List fl.F → ℤ → Outcome (Option fl.F)
  get_in_row qv (negsuc k) = panic index_out_of_range
  get_in_row qv (pos action) =
      if ltb (length qv) (action + 1) then ok none else (do q ← at qv (pos action); ok (some q))

  -- `make([]float32, m.actionSpaceSize)` for a state without a row.
  abbrev pub row_or_zeros : ℕ → Option (List fl.F) → List fl.F
  row_or_zeros size none = replicate size (fl.of_int (pos 0))
  row_or_zeros size (some qv) = qv

  -- `none` is the error "action outside of action space size". A negative action passes the test, and panics.
  unfoldable pub get : MemTable → ℕ → ℤ → Outcome (Option fl.F)
  get m state action = elim (find state m.table) [
    | none ↦ ok (some (fl.of_int (pos 0)))
    | some qv ↦ get_in_row qv action
  ]

  unfoldable pub set : MemTable → ℕ → ℤ → fl.F → Outcome MemTable
  set m state action q_value = do
    qv ← put (row_or_zeros m.action_space_size (find state m.table)) action q_value
    ok (record m { table = assign state qv m.table })

  unfoldable pub clear : MemTable → MemTable
  clear m = record m { table = [] }
