-- ===== src/Engine/Idle.antt =====
-- cmd/dstest/engine/TestEngine.go: the loop over the steps while no message waits.
use dstest.Prelude.{
  ℕ, ◌+◌, ◌≡◌, ◌<◌, ◌∙◌, refl, sym, subst, false, List, [], ok, panic, index_out_of_range,
  out_of_fuel, Returns, Returns-ok, Returns-bind, Returns-map, lt→ltb, length, All, arith,
}
use dstest.Prelude.Text.{Text}
use dstest.Prelude.Machine.{Floats, Generator}
use dstest.Network.Manager.{get_actions}
use dstest.Network.Translator.{Frame}
use dstest.Scheduling.Decision.{SchedulerDecision, nothing}
use dstest.Scheduling.Requests.{InRange}
use dstest.Scheduling.RandomScheduler.{Picked}
use dstest.Scheduling.Pct
use dstest.Scheduling.Pct.{Pct}
use dstest.Scheduling.Pct.Choice
use dstest.Scheduling.Pct.Choice.{Chosen, next-Chosen}
use dstest.Scheduling.Replay
use dstest.Scheduling.Replay.{ReplayScheduler}
use dstest.Scheduling.Strategy
use dstest.Scheduling.Strategy.{Outside, Scheduler, random, ql, pct, replay}
use dstest.Engine.{
  TestEngine, Round, Loop, happen_all, request, execute, execute_as, send, run_round, run_steps,
}
use dstest.Engine.Sending.{Steady, get_client_request-Steady, next-Steady}
use dstest.Engine.Stuck.{IsQuiet, pct_asks, pct_types, run_steps_stuck}

module _ (fl : Floats) (g : Generator fl.F) where
  -- A strategy that does not replay, ready for a choice, with `k` client scripts.
  abbrev pub IsPatient : ℕ → Scheduler fl g → Type 0
  IsPatient k (random s) = Steady fl g k (random s)
  IsPatient k (ql s) = Steady fl g k (ql s)
  IsPatient k (pct s) = Choice.IsReady fl g s × (s.client.num_client_types ≡ k)
  IsPatient k (replay s) = ⊥

  Steady-IsPatient : (k : ℕ) (s : Scheduler fl g) → Steady fl g k s → IsPatient k s
  Steady-IsPatient k (random s) p = p
  Steady-IsPatient k (ql s) p = p
  Steady-IsPatient k (pct s) p = absurd p
  Steady-IsPatient k (replay s) p = absurd p

  asks_steadily :
      (k : ℕ) (s : Scheduler fl g)
      → 0 < k
      → Steady fl g k s
      → Returns
          (Strategy.get_client_request fl g s)
          λ result. InRange k result.0 × IsPatient k result.1
  asks_steadily k s some_scripts steady =
      Returns-map _ (λ result. InRange k result.0 × Steady fl g k result.1) _
        (get_client_request-Steady fl g k s some_scripts steady)
        (λ result (in_range, p). (in_range, Steady-IsPatient k result.1 p))

  decides_steadily :
      (out : Outside fl g) (draw : fl.F) (k : ℕ) (s : Scheduler fl g)
      → Steady fl g k s
      → Returns
          (Strategy.next fl g out draw [] s)
          λ result. (result.0 ≡ nothing) × IsPatient k result.1
  decides_steadily out draw k s steady =
      Returns-map _ (λ result. Picked fl g [] result.0 × Steady fl g k result.1) _
        (next-Steady fl g out draw [] k s steady)
        (λ result (picked, p). (picked, Steady-IsPatient k result.1 p))

  -- No message waits, no bug was found, and the strategy, with `k` client scripts, is ready for a choice.
  pub record IsIdle (k : ℕ) (l : Loop fl g) : Type 0 where
    pub nothing_waits : get_actions l.network.message_queues ≡ []
    pub no_bug : l.processes.bug_candidate ≡ false
    pub strategy : IsPatient k l.scheduler

module _ (fl : Floats) (g : Generator fl.F) (out : Outside fl g) (frames : List ℕ → List Frame)
    (decimal : ℕ → Text) (te : TestEngine fl g) where
  abbrev k : ℕ
  k = length te.config.process_config.client_scripts

  asks_patiently :
      (s : Scheduler fl g)
      → 0 < k
      → IsPatient fl g k s
      → Returns
          (Strategy.get_client_request fl g s)
          λ result. InRange k result.0 × IsPatient fl g k result.1
  unfolding Strategy.get_client_request
  asks_patiently (random s) some_scripts p = asks_steadily fl g k (random s) some_scripts p
  asks_patiently (ql s) some_scripts p = asks_steadily fl g k (ql s) some_scripts p
  asks_patiently (pct s) some_scripts (ready, types) =
      Returns-bind _ _
        (λ result.
          InRange s.client.num_client_types result.0
          × (result.1.client.num_client_types ≡ s.client.num_client_types)
          × (result.1 ≡ record s { client = result.1.client }))
        _ (pct_asks fl g s (rw types some_scripts))
        λ (answer, s') (in_range, kept, same). (
          rw (← types) in_range,
          (
            subst (λ (x : Pct fl g). Choice.IsReady fl g x) (sym same)
                (record {
                  points = ready.points;
                  priorities = ready.priorities;
                  counted = ready.counted;
                }),
            kept ∙ types,
          ),
        )
  asks_patiently (replay s) some_scripts p = absurd p

  pct_none :
      (s s' : Pct fl g) (d : SchedulerDecision) → Pct.next fl g [] s ≡ ok (d, s') → d ≡ nothing
  unfolding Pct.next
  pct_none s s' d e = ground arith

  decides_nothing :
      (draw : fl.F) (s : Scheduler fl g)
      → IsPatient fl g k s
      → Returns
          (Strategy.next fl g out draw [] s)
          λ result. (result.0 ≡ nothing) × IsPatient fl g k result.1
  unfolding Strategy.next
  decides_nothing draw (random s) p = decides_steadily fl g out draw k (random s) p
  decides_nothing draw (ql s) p = decides_steadily fl g out draw k (ql s) p
  decides_nothing draw (pct s) (ready, types) =
      let ((d, s'), e, chosen) =
        Returns-ok (Pct.next fl g [] s) (Chosen fl g [] s) (next-Chosen fl g [] s ready) in
      rw e (pct_none s s' d e, (chosen.ready, pct_types fl g [] s s' d e ∙ types))
  decides_nothing draw (replay s) p = absurd p

  -- With a client script, a strategy that does not replay and is ready for a choice, no bug so far and a step
  -- to do: where no message waits and nothing happens in any round, the loop over the steps goes through all
  -- the rounds it is given without a panic, and has not ended, however many they are.
  pub run_steps_idle :
      (rounds : List (Round fl g)) (l : Loop fl g)
      → 0 < k
      → All (IsQuiet fl g) rounds
      → IsIdle fl g k l
      → l.s < te.steps
      → run_steps fl g out frames decimal te rounds l ≡ out_of_fuel
  run_steps_idle rounds l some_scripts quiet idle more =
      run_steps_stuck fl g out frames decimal te [] (IsPatient fl g k)
        (λ s p. asks_patiently s some_scripts p) decides_nothing rounds l quiet
        (record {
          fronts = idle.nothing_waits;
          steps_done = refl;
          no_bug = idle.no_bug;
          strategy = idle.strategy;
        })
        more

  -- A replay that has actions left, at a moment when no message waits, panics in the engine.
  run_round_replay :
      (round : Round fl g) (l l' : Loop fl g) (s : ReplayScheduler)
      → l.scheduler ≡ replay s
      → s.index < length s.actions
      → get_actions l.network.message_queues ≡ []
      → happen_all fl g frames round.meanwhile
          (record l { scheduler = replay (record s { index = s.index + 1 }) })
        ≡ ok l'
      → run_round fl g out frames decimal te round l ≡ panic index_out_of_range
  unfolding run_round execute execute_as send request Strategy.get_client_request Strategy.next
      Replay.get_client_request Replay.next
  run_round_replay round l l' s is_replay more empty meanwhile =
      rw (is_replay, empty, lt→ltb s.index (length s.actions) more, meanwhile)
