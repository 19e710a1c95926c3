-- ===== src/Command.antt =====
-- cmd/dstest/cmd/run.go, which main.go calls by way of cobra: read the configuration, make the engine, run it.
use dstest.Prelude.{ℕ, ◌≡◌, refl, List, none, Outcome, ok, fatal, ◌>>=◌}
use dstest.Prelude.Text.{Text, to_lower}
use dstest.Prelude.Machine.{Floats, Generator}
use dstest.Config.{Config}
use dstest.Config.Paths.{Reading, config_read, not_read, read, modify_filepath-map}
use dstest.Network.Translator.{Frame}
use dstest.Scheduling.Decision.{new_scheduler}
use dstest.Scheduling.Strategy.{Outside}
use dstest.Engine
use dstest.Engine.{TestEngine, started, refused}
use dstest.Engine.Runs
use dstest.Engine.Runs.{Inputs}

module _ (fl : Floats) (g : Generator fl.F) (out : Outside fl g) (frames : List ℕ → List Frame)
    (decimal : ℕ → Text) (join : Text → Text → Text) (wd : Text) where
  -- The command with a configuration. The error that the engine's `Run` returns is dropped.
  unfoldable pub start : Config fl.F → (ℕ → ℕ → Inputs fl g) → Outcome (Unit {0})
  start config inputs = do
    made ← Engine.init fl g config
    elim made [
      | refused error ↦ fatal
      | started te ↦ do result ← Runs.run fl g out frames decimal inputs te; ok tt
    ]

  unfoldable pub run_command : Reading join wd fl.F → (ℕ → ℕ → Inputs fl g) → Outcome (Unit {0})
  run_command answer inputs = do
    reading ← read join wd answer
    elim reading [ not_read error ↦ fatal | config_read config ↦ start config inputs ]

  start_unknown :
      (config : Config fl.F) (inputs : ℕ → ℕ → Inputs fl g)
      → new_scheduler (to_lower config.scheduler_config.type) ≡ none
      → start config inputs ≡ fatal
  unfolding start Engine.init
  start_unknown config inputs unknown = rw (Engine.init, unknown) refl

  -- A configuration with an unknown strategy ends the process, whatever it asks for else, and nothing runs.
  run_command_unknown :
      (config : Config fl.F) (inputs : ℕ → ℕ → Inputs fl g)
      → new_scheduler (to_lower config.scheduler_config.type) ≡ none
      → run_command (config_read config) inputs ≡ fatal
  unfolding run_command read
  run_command_unknown config inputs unknown =
      rw (modify_filepath-map join wd config) (start_unknown _ inputs unknown)
