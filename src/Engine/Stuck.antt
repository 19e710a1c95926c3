-- ===== src/Engine/Stuck.antt =====
-- cmd/dstest/engine/TestEngine.go: the loop over the steps with a strategy that chooses nothing.
use dstest.Prelude.{
  ℕ, ◌≡◌, ◌<◌, ◌∙◌, refl, sym, subst, ap, Bool, false, List, [], ◌∷◌, ok, out_of_fuel, Returns,
  Returns-bind, Returns-ok, lt→ltb, length, All, ◌>>=◌, arith,
}
use dstest.Prelude.Text.{Text}
use dstest.Prelude.Machine.{Floats, Generator}
use dstest.Network.Message.{Message}
use dstest.Network.Manager.{get_actions}
use dstest.Network.Translator.{Frame}
use dstest.Scheduling.Decision.{SchedulerDecision, nothing}
use dstest.Scheduling.Requests
use dstest.Scheduling.Requests.{InRange, Answered}
use dstest.Scheduling.Pct
use dstest.Scheduling.Pct.{Pct}
use dstest.Scheduling.Strategy
use dstest.Scheduling.Strategy.{Outside, Scheduler}
use dstest.Engine.{
  TestEngine, Round, Loop, Happening, happen_all, execute, execute_as, run_round, run_steps,
}
use dstest.Engine.Sending.{Asked, request-Asked}

module _ (fl : Floats) (g : Generator fl.F) where
  -- Nothing happens in the round but what the engine does.
  abbrev pub IsQuiet : Round fl g → Type 0
  IsQuiet round = (round.before ≡ []) × (round.meanwhile ≡ [])

  -- `GetClientRequest` of PCT.go answers in range, and writes the client's fields alone.
  pub pct_asks :
      (s : Pct fl g)
      → 0 < s.client.num_client_types
      → Returns (Pct.get_client_request fl g s) λ result.
        InRange s.client.num_client_types result.0
        × (result.1.client.num_client_types ≡ s.client.num_client_types)
        × (result.1 ≡ record s { client = result.1.client })
  unfolding Pct.get_client_request
  pct_asks s some_types =
      Returns-bind _ _ (Answered fl g s.client) _
        (Requests.get_client_request-Returns fl g s.client some_types)
        λ (answer, c) a. (a.in_range, a.types, refl)

  pub pct_types :
      (messages : List Message) (s s' : Pct fl g) (d : SchedulerDecision)
      → Pct.next fl g messages s ≡ ok (d, s')
      → s'.client.num_client_types ≡ s.client.num_client_types
  unfolding Pct.next Pct.advance
  pct_types messages s s' d e = ground arith

module _ (fl : Floats) (g : Generator fl.F) (out : Outside fl g) (frames : List ℕ → List Frame)
    (decimal : ℕ → Text) (te : TestEngine fl g) where
  abbrev pub scripts : ℕ
  scripts = length te.config.process_config.client_scripts

  execute-nothing :
      (launched : Bool) (actions : List Message) (d : SchedulerDecision) (l : Loop fl g)
      → d ≡ nothing
      → execute fl g out frames decimal te launched actions d l ≡ ok l
  unfolding execute execute_as
  execute-nothing launched actions d l is_nothing =
      ap (λ (x : SchedulerDecision). execute fl g out frames decimal te launched actions x l)
        is_nothing

  happen_none : (hs : List Happening) (l : Loop fl g) → hs ≡ [] → happen_all fl g frames hs l ≡ ok l
  unfolding happen_all
  happen_none [] l e = refl
  happen_none (h ∷ hs) l e = cc

  module _ (actions : List Message) (P : Scheduler fl g → Type 0)
      (asks : (s : Scheduler fl g)
        → P s
        → Returns
            (Strategy.get_client_request fl g s)
            λ result. InRange scripts result.0 × P result.1)
      (decides : (draw : fl.F) (s : Scheduler fl g)
        → P s
        → Returns
            (Strategy.next fl g out draw actions s)
            λ result. (result.0 ≡ nothing) × P result.1) where
    -- The fronts of the queues are the actions, no bug was found, and `n` steps are done.
    pub record IsStuck (n : ℕ) (l : Loop fl g) : Type 0 where
      pub fronts : get_actions l.network.message_queues ≡ actions
      pub steps_done : l.s ≡ n
      pub no_bug : l.processes.bug_candidate ≡ false
      pub strategy : P l.scheduler

    decide-IsStuck :
        (n : ℕ) (round : Round fl g) (l : Loop fl g)
        → round.meanwhile ≡ []
        → IsStuck n l
        → Returns
            (Strategy.next fl g out round.draw (get_actions l.network.message_queues) l.scheduler
              >>= λ (d, chosen).
                  happen_all fl g frames round.meanwhile (record l { scheduler = chosen })
                  >>= execute fl g out frames decimal te round.launched
                      (get_actions l.network.message_queues)
                      d)
            (IsStuck n)
    decide-IsStuck n round l quiet i =
        Returns-bind
          (Strategy.next fl g out round.draw (get_actions l.network.message_queues) l.scheduler) _
          (λ result. (result.0 ≡ nothing) × P result.1) _
          (rw i.fronts (decides round.draw l.scheduler i.strategy))
          λ (d, chosen) (none_chosen, again).
            let shown = get_actions l.network.message_queues in
            let l1 : Loop fl g = record l { scheduler = chosen } in
            rw (happen_none round.meanwhile l1 quiet) (
              rw (execute-nothing round.launched shown d l1 none_chosen) (record {
                fronts = i.fronts;
                steps_done = i.steps_done;
                no_bug = i.no_bug;
                strategy = again;
              }))

    run_round-IsStuck :
        (n : ℕ) (round : Round fl g) (l : Loop fl g)
        → round.meanwhile ≡ []
        → IsStuck n l
        → Returns (run_round fl g out frames decimal te round l) (IsStuck n)
    unfolding run_round
    run_round-IsStuck n round l quiet i =
        Returns-bind _ _ (λ result. InRange scripts result.0 × P result.1) _
          (asks l.scheduler i.strategy)
          λ (sc, asked) (in_range, again).
            Returns-bind _ _ (Asked fl g out frames decimal te (record l { scheduler = asked })) _
              (request-Asked fl g out frames decimal te round.launched sc
                (record l { scheduler = asked }) in_range)
              λ l1 same.
                let i1 : IsStuck n l1 = record {
                  fronts = ap (λ nm. get_actions nm.message_queues) same.network ∙ i.fronts;
                  steps_done = same.s ∙ i.steps_done;
                  no_bug = same.bug ∙ i.no_bug;
                  strategy = subst P (sym same.scheduler) again;
                } in
                rw (← same.network) (decide-IsStuck n round l1 quiet i1)

    -- The loop goes through all its rounds, and has not ended.
    pub run_steps_stuck :
        (rounds : List (Round fl g)) (l : Loop fl g)
        → All (IsQuiet fl g) rounds
        → IsStuck l.s l
        → l.s < te.steps
        → run_steps fl g out frames decimal te rounds l ≡ out_of_fuel
    unfolding run_steps
    run_steps_stuck [] l quiet i more = rw (lt→ltb l.s te.steps more) refl
    run_steps_stuck (round ∷ rounds) l quiet i more =
        let (l', e, i') =
          Returns-ok (run_round fl g out frames decimal te round l) (IsStuck l.s)
            (run_round-IsStuck l.s round l quiet.0.1 i) in
        rw (lt→ltb l.s te.steps more) (
          rw (happen_none round.before l quiet.0.0) (
            rw e (
              rw i.no_bug (
                run_steps_stuck rounds l' quiet.1
                  (record {
                    fronts = i'.fronts;
                    steps_done = refl;
                    no_bug = i'.no_bug;
                    strategy = i'.strategy;
                  })
                  (let same = i'.steps_done in omega arith)))))
