-- ===== src/Scheduling/Ql/Adapting.antt =====
-- `NewAgent` and `Adapt` of cmd/dstest/scheduling/ql/agent.go: how an agent starts, and the rate at
-- which it learns. The functions of the package math belong to the floating-point numbers.
use dstest.Prelude.{◌≡◌, true, Option, none, some, ℤ, pos, suc_ℤ}
use dstest.Prelude.Machine.{Floats}
use dstest.Scheduling.Ql.DynamicMemTable.{DynamicMemTable, new_dynamic_mem_table}
use dstest.Scheduling.Ql.Agent.{Agent}

module _ (fl : Floats) where
  pub record Hyperparameters : Type 0 where
    pub epsilon : fl.F
    pub gamma : fl.F
    pub alpha : fl.F
    pub ada_divisor : fl.F

  -- A `Table` that is nil is `none`. `Base` only names the agent.
  pub record AgentConfig : Type 0 where
    pub hyperparameters : Hyperparameters
    pub table : Option (DynamicMemTable fl)

  abbrev table_or_new : Option (DynamicMemTable fl) → DynamicMemTable fl
  table_or_new none = new_dynamic_mem_table fl
  table_or_new (some table) = table

  unfoldable pub new_agent : AgentConfig → Agent fl
  new_agent c = record {
    epsilon = c.hyperparameters.epsilon;
    gamma = c.hyperparameters.gamma;
    alpha = c.hyperparameters.alpha;
    ada_divisor = c.hyperparameters.ada_divisor;
    min_alpha = c.hyperparameters.alpha;
    table = table_or_new c.table;
  }

  abbrev pub one : fl.F
  one = fl.of_int (pos 1)

  -- `1.0 - math.Log10(float64(float32(timestep+1) / ada))`
  abbrev pub decayed : ℤ → fl.F → fl.F
  decayed timestep ada = fl.sub one (fl.log10 (fl.div (fl.of_int (suc_ℤ timestep)) ada))

  unfoldable pub adapted : ℤ → fl.F → fl.F → fl.F
  adapted timestep min ada = fl.max min (fl.min one (decayed timestep ada))

  unfoldable pub adapt : ℤ → Agent fl → Agent fl
  adapt timestep a = record a { alpha = adapted timestep a.min_alpha a.ada_divisor }

  -- What the documentation of math says of `Min` and `Max` on numbers, and of `<=`: it has no NaN among
  -- its numbers.
  record HasMinMax (IsNumber : fl.F → Type 0) : Type 1 where
    min_number : (x y : fl.F) → IsNumber x → IsNumber y → IsNumber (fl.min x y)
    min_le : (x y : fl.F) → IsNumber x → IsNumber y → fl.le (fl.min x y) x ≡ true
    le_max : (x y : fl.F) → IsNumber x → IsNumber y → fl.le x (fl.max x y) ≡ true
    max_least :
        (x y z : fl.F)
        → IsNumber x
        → IsNumber y
        → fl.le x z ≡ true
        → fl.le y z ≡ true
        → fl.le (fl.max x y) z ≡ true

  -- The rate of a new agent is at least its first one and at most 1 after any calls of `Adapt`, if the
  -- first is a number of at most 1 and the logarithms are numbers: each call starts from the first rate.
  adapt-between :
      (IsNumber : fl.F → Type 0) (timestep : ℤ) (c : AgentConfig)
      → HasMinMax IsNumber
      → IsNumber one
      → IsNumber c.hyperparameters.alpha
      → IsNumber (decayed timestep c.hyperparameters.ada_divisor)
      → fl.le c.hyperparameters.alpha one ≡ true
      → (fl.le c.hyperparameters.alpha (adapt timestep (new_agent c)).alpha ≡ true)
        × (fl.le (adapt timestep (new_agent c)).alpha one ≡ true)
  unfolding adapt adapted new_agent
  adapt-between IsNumber timestep c o is_one is_alpha is_decayed small =
      let least =
        o.min_number one (decayed timestep c.hyperparameters.ada_divisor) is_one is_decayed in
      (
        o.le_max _ _ is_alpha least,
        o.max_least _ _ one is_alpha least small (o.min_le _ _ is_one is_decayed),
      )
