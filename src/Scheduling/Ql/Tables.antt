-- ===== src/Scheduling/Ql/Tables.antt =====
-- The two implementations of the interface `Table` of ql/table.go, under the same calls of `Set`.
use dstest.Prelude.{
  ℕ, ◌+◌, ◌==◌, ◌≡◌, ◌<◌, ◌∙◌, refl, false, pos, List, [], ◌∷◌, Option, none, some, Outcome, ok,
  ◌>>=◌, Returns, Returns-bind, Returns-map, at-lt, put-lt, find, assign, find-assign, length, set,
  get_or, get_or-set_self, get_or-set_ne, get_or-replicate, length-set, length-replicate, ltb, All,
  Bool-cases, ℕ_discrete, inl, inr, arith,
}
use dstest.Prelude.Machine.{Floats}
use dstest.Scheduling.Ql.DynamicMemTable
use dstest.Scheduling.Ql.DynamicMemTable.{DynamicMemTable, Row, new_dynamic_mem_table, row_or_empty}
use dstest.Scheduling.Ql.MemTable
use dstest.Scheduling.Ql.MemTable.{MemTable, new_mem_table, row_or_zeros, get_in_row}

module _ (fl : Floats) where
  -- A call of `Set`.
  pub record Write : Type 0 where
    pub state : ℕ
    pub action : ℕ
    pub q_value : fl.F

  abbrev pub write_dynamic : List Write → DynamicMemTable fl → DynamicMemTable fl
  write_dynamic [] d = d
  write_dynamic (w ∷ writes) d =
      write_dynamic writes (DynamicMemTable.set fl d w.state w.action w.q_value)

  abbrev pub write_mem : List Write → MemTable fl → Outcome (MemTable fl)
  write_mem [] m = ok m
  write_mem (w ∷ writes) m = MemTable.set fl m w.state (pos w.action) w.q_value >>= write_mem writes

  -- The value, and 0 where there is none.
  abbrev pub or_zero : Option fl.F → fl.F
  or_zero none = fl.of_int (pos 0)
  or_zero (some q) = q

  abbrev RowsAgree : ℕ → List fl.F → Row fl → Type 0
  RowsAgree size row qv =
      (length row ≡ size)
      × ((a : ℕ) → a < size → get_or row a (fl.of_int (pos 0)) ≡ or_zero (find a qv))

  abbrev Agree : ℕ → Option (List fl.F) → Option (Row fl) → Type 0
  Agree size none none = Unit
  Agree size none (some qv) = ⊥
  Agree size (some row) none = ⊥
  Agree size (some row) (some qv) = RowsAgree size row qv

  record Alike (size : ℕ) (d : DynamicMemTable fl) (m : MemTable fl) : Type 0 where
    same_size : m.action_space_size ≡ size
    rows : (state : ℕ) → Agree size (find state m.table) (find state d)

  row-RowsAgree :
      (size : ℕ) (o : Option (List fl.F)) (p : Option (Row fl))
      → Agree size o p
      → RowsAgree size (row_or_zeros fl size o) (row_or_empty fl p)
  row-RowsAgree size none none h =
      (length-replicate size (fl.of_int (pos 0)), λ a lt. get_or-replicate size a _ _ lt)
  row-RowsAgree size none (some qv) h = absurd h
  row-RowsAgree size (some row) none h = absurd h
  row-RowsAgree size (some row) (some qv) h = h

  set-RowsAgree :
      (size : ℕ) (row : List fl.F) (qv : Row fl) (action : ℕ) (q : fl.F)
      → action < size
      → RowsAgree size row qv
      → RowsAgree size (set row action q) (assign action q qv)
  set-RowsAgree size row qv action q lt h = (
    length-set row action q ∙ h.0,
    λ a la. rw (find-assign action a q qv) (elim (ℕ_discrete action a) [
      | yes e ↦
          rw (← e) (let e' = h.0 in get_or-set_self row action q _ (omega arith) ∙ ground arith)
      | no ne ↦ get_or-set_ne row action a q _ ne ∙ h.1 a la ∙ ground arith
    ]),
  )

  set-Alike :
      (size : ℕ) (d : DynamicMemTable fl) (m : MemTable fl) (w : Write)
      → w.action < size
      → Alike size d m
      → Returns
          (MemTable.set fl m w.state (pos w.action) w.q_value)
          (Alike size (DynamicMemTable.set fl d w.state w.action w.q_value))
  unfolding MemTable.set DynamicMemTable.set
  set-Alike size d m w lt h =
      let row = row_or_zeros fl size (find w.state m.table) in
      let old = row-RowsAgree size (find w.state m.table) (find w.state d) (h.rows w.state) in
      let e = old.0 in
      let stored = put-lt row w.action w.q_value (omega arith) in
      rw (h.same_size, stored)
        (record {
          same_size = refl;
          rows = λ state.
              rw
                (
                  find-assign w.state state (set row w.action w.q_value) m.table,
                  find-assign w.state state
                      (assign w.action w.q_value (row_or_empty fl (find w.state d))) d,
                )
                (elim (Bool-cases (w.state == state)) [
                  | inl same ↦ rw same (set-RowsAgree size row _ w.action w.q_value lt old)
                  | inr other ↦ rw other (h.rows state)
                ]);
        })

  write-Alike :
      (size : ℕ) (writes : List Write) (d : DynamicMemTable fl) (m : MemTable fl)
      → All (λ (w : Write). w.action < size) writes
      → Alike size d m
      → Returns (write_mem writes m) (Alike size (write_dynamic writes d))
  write-Alike size [] d m lt h = h
  write-Alike size (w ∷ writes) d m lt h =
      Returns-bind _ _ _ _ (set-Alike size d m w lt.0 h) λ m' h'.
        write-Alike size writes (DynamicMemTable.set fl d w.state w.action w.q_value) m' lt.1 h'

  get-Agree :
      (size action : ℕ) (o : Option (List fl.F)) (p : Option (Row fl))
      → action < size
      → Agree size o p
      → elim o [ none ↦ ok (some (fl.of_int (pos 0))) | some qv ↦ get_in_row fl qv (pos action) ]
        ≡ ok
            (some (or_zero (elim p [ none ↦ some (fl.of_int (pos 0)) | some qv ↦ find action qv ])))
  get-Agree size action none none lt h = refl
  get-Agree size action none (some qv) lt h = absurd h
  get-Agree size action (some row) none lt h = absurd h
  get-Agree size action (some row) (some qv) lt h =
      let e = h.0 in
      let inside : ltb (length row) (action + 1) ≡ false = ground arith in
      rw (inside, at-lt row action (fl.of_int (pos 0)) (omega arith), h.1 action lt)

  -- After the same writes, whose actions are all within the action space, the memory table has not panicked, and
  -- it answers for every state and every action of the space what the dynamic table does, with 0 where
  -- that one has an error.
  pub write_mem-write_dynamic :
      (size : ℕ) (writes : List Write)
      → All (λ (w : Write). w.action < size) writes
      → Returns (write_mem writes (new_mem_table fl size)) λ m.
        (state action : ℕ)
        → action < size
        → MemTable.get fl m state (pos action)
          ≡ ok (
              some (
                or_zero (
                  DynamicMemTable.get fl
                    (write_dynamic writes (new_dynamic_mem_table fl))
                    state
                    action)))
  unfolding new_mem_table new_dynamic_mem_table MemTable.get DynamicMemTable.get
  write_mem-write_dynamic size writes inside =
      Returns-map _ (Alike size (write_dynamic writes [])) _
        (write-Alike size writes [] _ inside (record { same_size = refl; rows = λ state. tt }))
        λ m h state action lt. get-Agree size action _ _ lt (h.rows state)
