-- ===== src/Engine/Faultless.antt =====
-- cmd/dstest/engine/TestEngine.go: the faults of the configuration have no effect on the loop.
use dstest.Prelude.{
  ℕ, ◌≡◌, ◌≢◌, ℤ, pos, negsuc, refl, ap, Bool, List, [], ◌∷◌, Outcome, ok, panic, fatal,
  out_of_fuel, ◌>>=◌, if◌then◌else◌, ltb, ◌∙◌,
}
use dstest.Prelude.Text.{Text}
use dstest.Prelude.Machine.{Floats, Generator}
use dstest.Network.Message.{Message}
use dstest.Network.Manager.{get_actions}
use dstest.Network.Translator.{Frame}
use dstest.Faults.{FaultManager}
use dstest.Scheduling.Decision.{DecisionType, no_op, send_message, inject_fault}
use dstest.Scheduling.Strategy
use dstest.Scheduling.Strategy.{Outside, Scheduler}
use dstest.Scheduling.Strategy.Kinds.{next-IsPlain}
use dstest.Engine.{
  TestEngine, Round, Loop, happen_all, execute_as, execute, request, send, run_round, run_steps,
}

-- Two continuations that agree on what a call returns.
bind-agree :
    {A B : Type 0} (m : Outcome A) (f h : A → Outcome B)
    → ((a : A) → m ≡ ok a → f a ≡ h a)
    → (m >>= f) ≡ (m >>= h)
bind-agree (ok a) f h same = same a refl
bind-agree (panic p) f h same = refl
bind-agree fatal f h same = refl
bind-agree out_of_fuel f h same = refl

module _ (fl : Floats) (g : Generator fl.F) (out : Outside fl g) (frames : List ℕ → List Frame)
    (decimal : ℕ → Text) (te : TestEngine fl g) (fm : FaultManager) where
  execute_as-same :
      (t : DecisionType) (launched : Bool) (actions : List Message) (index : ℕ) (l : Loop fl g)
      → t ≢ inject_fault
      → execute_as fl g out frames decimal
          (record te { fault_manager = fm })
          t
          launched
          actions
          index
          l
        ≡ execute_as fl g out frames decimal te t launched actions index l
  unfolding execute_as send
  execute_as-same no_op launched actions index l plain = refl
  execute_as-same send_message launched actions index l plain = refl
  execute_as-same inject_fault launched actions index l plain = absurd (plain refl)

  request-same :
      (launched : Bool) (sc : ℤ) (l : Loop fl g)
      → request fl g out frames decimal (record te { fault_manager = fm }) launched sc l
        ≡ request fl g out frames decimal te launched sc l
  unfolding request
  request-same launched (pos sc) l = refl
  request-same launched (negsuc k) l = refl

  run_round-same :
      (round : Round fl g) (l : Loop fl g)
      → run_round fl g out frames decimal (record te { fault_manager = fm }) round l
        ≡ run_round fl g out frames decimal te round l
  unfolding run_round execute
  run_round-same round l =
      bind-agree (Strategy.get_client_request fl g l.scheduler) _ _ λ (sc, asked) _.
        rw (request-same round.launched sc (record l { scheduler = asked })) (
          bind-agree
            (request fl g out frames decimal te round.launched sc (record l { scheduler = asked }))
            _ _
            λ l' _.
              bind-agree
                (Strategy.next fl g out round.draw (get_actions l.network.message_queues)
                  l'.scheduler)
                _ _
                λ (d, chosen) e.
                  bind-agree
                    (happen_all fl g frames round.meanwhile (record l' { scheduler = chosen })) _ _
                    λ l'' _.
                      execute_as-same d.decision_type round.launched
                        (get_actions l.network.message_queues) d.index l''
                        (next-IsPlain fl g out round.draw (get_actions l.network.message_queues)
                          l'.scheduler chosen d e).0)

  -- Whatever strategy decides, and whatever happens meanwhile: the loop over the steps is the same with any other
  -- faults, since no decision injects one.
  pub run_steps-same :
      (rounds : List (Round fl g)) (l : Loop fl g)
      → run_steps fl g out frames decimal (record te { fault_manager = fm }) rounds l
        ≡ run_steps fl g out frames decimal te rounds l
  unfolding run_steps
  run_steps-same [] l = refl
  run_steps-same (round ∷ rounds) l =
      ap (λ (y : Outcome (Loop fl g)). if ltb l.s te.steps then y else ok l)
        (bind-agree (happen_all fl g frames round.before l) _ _ λ l' _.
          ap (λ (y : Outcome (Loop fl g)). if l'.processes.bug_candidate then ok l' else y)
            (ap
                (λ (m : Outcome (Loop fl g)).
                  m >>= run_steps fl g out frames decimal (record te { fault_manager = fm }) rounds)
                (run_round-same round l')
              ∙ bind-agree (run_round fl g out frames decimal te round l') _ _
                  λ l'' _. run_steps-same rounds l''))
