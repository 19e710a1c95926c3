-- ===== src/Scheduling/Pct/Start.antt =====
-- `PCT.Init` and `NextIteration`: the draws leave a scheduler that `Next` can work with.
use dstest.Prelude.{ℕ, ◌≡◌, ◌<◌, ◌≤◌, ◌*◌, refl, length, arith, Returns, Returns-bind}
use dstest.Prelude.Text.{codes, lookup}
use dstest.Prelude.Machine.{Floats, Generator}
use dstest.Config.{Config}
use dstest.Scheduling.Pct.{Pct, redraw, init, next_iteration, depth_of}
use dstest.Scheduling.Pct.Limits.{AreDrawn}
use dstest.Scheduling.Pct.Draws.{after, ShowsAll, draw_all-Returns}
use dstest.Scheduling.Pct.Choice.{IsReady}

module _ (fl : Floats) (g : Generator fl.F) where
  -- From this state of the generator on, every number comes among the next `fuel` draws, at each point that the
  -- draws of the change points and then those of the priorities can get to; the depth fits the steps and
  -- the replicas.
  pub record Fits (fuel : ℕ) (config : Config fl.F) (depth : ℕ) (rand : g.State) : Type 0 where
    pub shows_steps : ShowsAll fl g fuel config.scheduler_config.steps depth rand
    pub shows_replicas :
        (k : ℕ)
        → k ≤ depth * fuel
        → ShowsAll fl g fuel config.process_config.num_replicas config.process_config.num_replicas
            (after fl g k config.scheduler_config.steps rand)
    pub in_steps : depth ≤ config.scheduler_config.steps
    pub in_replicas : depth < config.process_config.num_replicas

  -- Ready at the beginning of an iteration, with distinct points among the steps, and with the replicas
  -- in some order.
  pub record IsDealt (config : Config fl.F) (s : Pct fl g) : Type 0 where
    pub ready : IsReady fl g s
    pub points : AreDrawn config.scheduler_config.steps s.priority_change_points
    pub priorities : AreDrawn config.process_config.num_replicas s.initial_priorities
    pub all_replicas : length s.initial_priorities ≡ config.process_config.num_replicas
    pub at_start : s.num_priority_change ≡ 0
    pub no_step : s.step ≡ 0

  redraw-IsDealt :
      (fuel : ℕ) (s : Pct fl g)
      → Fits fuel s.config s.depth s.rand
      → s.num_priority_change ≡ 0
      → s.step ≡ 0
      → Returns (redraw fl g fuel s) (IsDealt s.config)
  unfolding redraw
  redraw-IsDealt fuel s fits none_yet start =
      let steps = s.config.scheduler_config.steps in
      let n = s.config.process_config.num_replicas in
      Returns-bind _ _
        (λ result.
          AreDrawn steps result.0
          × (length result.0 ≡ s.depth)
          × ((k : ℕ) × (k ≤ s.depth * fuel) × (result.1 ≡ after fl g k steps s.rand)))
        _ (draw_all-Returns fl g fuel steps s.depth s.rand fits.shows_steps fits.in_steps)
        λ (points, rand) (drawn, count, (k, few, there)).
          Returns-bind _ _
            (λ result.
              AreDrawn n result.0
              × (length result.0 ≡ n)
              × ((j : ℕ) × (j ≤ n * fuel) × (result.1 ≡ after fl g j n rand)))
            _
            (draw_all-Returns fl g fuel n n rand (rw there (fits.shows_replicas k few))
              (omega arith))
            λ (priorities, rand') (drawn', count', _). record {
              ready = record {
                points = count;
                priorities = omega (arith, count', fits.in_replicas);
                counted = omega (arith, none_yet);
              };
              points = drawn;
              priorities = drawn';
              all_replicas = count';
              at_start = none_yet;
              no_step = start;
            }

  -- With a seed from which every number comes in time, as far as the draws can get, a depth of at most
  -- the number of steps and below the number of replicas, `Init` returns a scheduler that is ready:
  -- distinct change points among the steps, and every replica once among the priorities.
  pub init-IsDealt :
      (fuel : ℕ) (config : Config fl.F)
      → Fits fuel config
          (depth_of fl g (lookup (codes "d") config.scheduler_config.params))
          (g.source config.scheduler_config.seed)
      → Returns (init fl g fuel config) (IsDealt config)
  unfolding init
  init-IsDealt fuel config fits = redraw-IsDealt fuel _ fits refl refl

  -- The same for `NextIteration`, from the state in which it finds the generator.
  next_iteration-IsDealt :
      (fuel : ℕ) (s : Pct fl g)
      → Fits fuel s.config s.depth s.rand
      → Returns (next_iteration fl g fuel s) (IsDealt s.config)
  unfolding next_iteration
  next_iteration-IsDealt fuel s fits = redraw-IsDealt fuel _ fits refl refl
