-- ===== src/Prelude/Machine.antt =====
-- What the program takes from elsewhere: floating-point numbers, and the generator of `math/rand`.
use Prim.Native.Nat.{ℕ, zero, suc, ◌<◌}
use mathlib.Core.Bool.{Bool}
use dstest.Prelude.Int.{ℤ}
use dstest.Prelude.Effects.{Outcome, ok, panic, invalid_argument}

-- The numbers of type `float64` (or `float32`), with the operations that the program uses.
pub record Floats : Type 1 where
  pub F : Type 0
  pub lt : F → F → Bool
  pub le : F → F → Bool
  pub eq : F → F → Bool
  pub add : F → F → F
  pub sub : F → F → F
  pub mul : F → F → F
  pub div : F → F → F
  pub log10 : F → F
  pub min : F → F → F
  pub max : F → F → F
  pub of_int : ℤ → F
  pub to_int : F → ℤ
  pub hundredth : F

-- `rand.Rand`: `Intn` answers below its argument, as its documentation says.
pub record Generator (F : Type 0) : Type 1 where
  pub State : Type 0
  pub source : ℤ → State
  pub draw : ℕ → State → ℕ × State
  pub float64 : State → F × State
  pub draw_lt : (max : ℕ) (rand : State) → 0 < max → (draw max rand).0 < max

-- `Rand.Intn`, which panics unless its argument is positive.
unfoldable pub intn : {F : Type 0} (g : Generator F) → ℕ → g.State → Outcome (ℕ × g.State)
intn g zero rand = panic invalid_argument
intn g (suc max) rand = ok (g.draw (suc max) rand)
