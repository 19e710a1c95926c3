-- ===== src/Scheduling/Ql/Agent.antt =====
-- cmd/dstest/scheduling/ql/agent.go: Q-learning over the dynamic table, which `NewAgent` takes
-- where no other is given, as QLScheduler.go does. `state` stands for the hash of a state.
use dstest.Prelude.{
  ℕ, ◌==◌, ◌≡◌, refl, subst, List, [], ◌∷◌, Option, none, some, Outcome, ok, pos, length, All, find,
  assign, if◌then◌else◌, arith, Bool-cases, inl, inr, Option-cases,
}
use dstest.Prelude.Machine.{Floats, Generator, intn}
use dstest.Network.Message.{Message}
use dstest.Scheduling.Ql.DynamicMemTable.{DynamicMemTable, Row, get, get_max, set}

module _ (fl : Floats) where
  pub record Agent : Type 0 where
    pub epsilon : fl.F
    pub gamma : fl.F
    pub alpha : fl.F
    pub ada_divisor : fl.F
    pub min_alpha : fl.F
    pub table : DynamicMemTable fl

  -- `draw` is the random number that is compared with the rate of exploring.
  unfoldable pub action :
      (g : Generator fl.F) → Agent → fl.F → ℕ → List Message → g.State → Outcome (ℕ × g.State)
  action g a draw state actions rand =
      if fl.lt draw a.epsilon
      then intn g (length actions) rand
      else ok ((get_max fl a.table state).0, rand)

  abbrev pub new_value : Agent → fl.F → fl.F → fl.F → fl.F
  new_value a old reward next_max =
      fl.add (fl.mul (fl.sub (fl.of_int (pos 1)) a.alpha) old)
        (fl.mul a.alpha (fl.add reward (fl.mul a.gamma next_max)))

  -- `none` is the error of `Get`; `GetMax` and `Set` have none.
  unfoldable pub learn : ℕ → ℕ → ℕ → fl.F → Agent → Option Agent
  learn act state next_state reward a = elim (get fl a.table state act) [
    | none ↦ none
    | some old ↦ some (record a {
      table = set fl a.table state act (new_value a old reward (get_max fl a.table next_state).1);
    })
  ]

  -- Every row has one action.
  abbrev pub AllSingle : DynamicMemTable fl → Type 0
  AllSingle m = All (λ (entry : ℕ × Row fl). length entry.1 ≡ 1) m

  find-Single :
      (m : DynamicMemTable fl) (state : ℕ) (qv : Row fl)
      → AllSingle m
      → find state m ≡ some qv
      → length qv ≡ 1
  find-Single [] state qv h e = cc
  find-Single ((j, w) ∷ m) state qv h e = elim (Bool-cases (j == state)) [
    | inl same ↦ ground (arith, h.0, same, e)
    | inr other ↦ find-Single m state qv h.1 (rw other at e)
  ]

  assign-AllSingle :
      (m : DynamicMemTable fl) (state : ℕ) (qv : Row fl)
      → AllSingle m
      → length qv ≡ 1
      → AllSingle (assign state qv m)
  assign-AllSingle [] state qv h e = (e, tt)
  assign-AllSingle ((j, w) ∷ m) state qv h e = elim (Bool-cases (j == state)) [
    | inl same ↦ rw same (e, h.1)
    | inr other ↦ rw other (h.0, assign-AllSingle m state qv h.1 e)
  ]

  -- A write for an action of the row keeps the row's length.
  length-assign :
      (qv : Row fl) (act : ℕ) (old new : fl.F)
      → find act qv ≡ some old
      → length (assign act new qv) ≡ length qv
  length-assign [] act old new e = cc
  length-assign ((j, w) ∷ qv) act old new e = elim (Bool-cases (j == act)) [
    | inl same ↦ rw same refl
    | inr other ↦ rw other (omega (arith, length-assign qv act old new (rw other at e)))
  ]

  learn-eq :
      (act state next_state : ℕ) (reward old : fl.F) (a a' : Agent)
      → get fl a.table state act ≡ some old
      → learn act state next_state reward a ≡ some a'
      → (value : fl.F) × (set fl a.table state act value ≡ a'.table)
  unfolding learn
  learn-eq act state next_state reward old a a' e learned =
      let same = rw (e, learn) at learned in
      (new_value a old reward (get_max fl a.table next_state).1, ground (arith, same))

  set-AllSingle :
      (m : DynamicMemTable fl) (state act : ℕ) (old value : fl.F)
      → AllSingle m
      → get fl m state act ≡ some old
      → AllSingle (set fl m state act value)
  unfolding get set
  set-AllSingle m state act old value h e = elim (Option-cases (find state m)) [
    | inl fresh ↦ rw fresh (assign-AllSingle m state ((act, value) ∷ []) h refl)
    | inr (qv, row) ↦
        let has : find act qv ≡ some old = rw (row, get) at e in
        rw row (
          assign-AllSingle m state (assign act value qv) h
            (omega (arith, length-assign qv act old value has, find-Single m state qv h row)))
  ]

  learn_keeps :
      (act state next_state : ℕ) (reward : fl.F) (a a' : Agent)
      → AllSingle a.table
      → learn act state next_state reward a ≡ some a'
      → AllSingle a'.table
  unfolding learn
  learn_keeps act state next_state reward a a' h learned =
      elim (Option-cases (get fl a.table state act)) [
        | inl absent ↦ let no = rw (absent, learn) at learned in cc
        | inr (old, e) ↦
            let (value, same) = learn-eq act state next_state reward old a a' e learned in
            subst AllSingle same (set-AllSingle a.table state act old value h e)
      ]

  learn_other :
      (act state next_state : ℕ) (reward : fl.F) (a : Agent) (qv : Row fl)
      → find state a.table ≡ some qv
      → find act qv ≡ none
      → learn act state next_state reward a ≡ none
  unfolding learn get
  learn_other act state next_state reward a qv e absent =
      let missing : get fl a.table state act ≡ none = rw (e, get) absent in rw (missing, learn)

  -- If every row has one action, then learning that succeeds leaves one action in every row, and it
  -- is an error for any other action of a state that has a row: a state keeps the first action
  -- learned for it.
  pub learn-AllSingle :
      (act state next_state : ℕ) (reward : fl.F) (a : Agent)
      → AllSingle a.table
      → ((a' : Agent) → learn act state next_state reward a ≡ some a' → AllSingle a'.table)
        × ((qv : Row fl)
            → find state a.table ≡ some qv
            → find act qv ≡ none
            → learn act state next_state reward a ≡ none)
  learn-AllSingle act state next_state reward a h = (
    λ a' learned. learn_keeps act state next_state reward a a' h learned,
    λ qv e absent. learn_other act state next_state reward a qv e absent,
  )
