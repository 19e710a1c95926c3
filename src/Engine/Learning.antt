-- ===== src/Engine/Learning.antt =====
-- cmd/dstest/engine/TestEngine.go with the strategy "ql", which has no `NextIteration`.
use dstest.Prelude.{
  ℕ, ◌≡◌, ◌≢◌, ◌⊎◌, inl, inr, ◌++◌, ◌∙◌, refl, ap, Bool, List, [], ◌∷◌, Option, none, some, Outcome,
  ok, >>=-eq-ok, ℤ, pos, negsuc, arith,
}
use dstest.Prelude.Text.{Text, codes}
use dstest.Prelude.Machine.{Floats, Generator}
use dstest.Network.Message.{Message}
use dstest.Network.Manager
use dstest.Network.Manager.{get_actions}
use dstest.Network.Manager.Shutdown
use dstest.Network.Translator.{Frame}
use dstest.Process.{ProcessManager}
use dstest.Process.Lifecycle.{shutdown}
use dstest.Process.Lifecycle
use dstest.Faults
use dstest.Faults.{FaultManager}
use dstest.Scheduling.Decision.{SchedulerType, DecisionType, no_op, send_message, inject_fault}
use dstest.Scheduling.Strategy
use dstest.Scheduling.Strategy.{Outside, Scheduler, random, ql, pct, replay}
use dstest.Scheduling.Strategy.Kinds.{kind, get_client_request-kind, next-IsPlain}
use dstest.Engine.{
  TestEngine, Round, Loop, Happening, happen, happen_all, execute_as, execute, request, send,
  inject, run_round, run_steps,
}
use dstest.Engine.Rounds.{any_round, run_steps-keeps}
use dstest.Engine.Runs.{
  Inputs, Iterating, run_loop, run_iteration, wait_all, after_faults, after_network,
}

-- The error of `NetworkManager.Init` or that of `FaultManager.Init`, as `Run` returns it.
abbrev pub IsInitError : Option Text → Type 0
IsInitError none = ⊥
IsInitError (some text) =
    (e : Text) × ((text ≡ codes "Error initializing NetworkManager: " ++ e)
      ⊎ (text ≡ codes "Error initializing FaultManager: " ++ e))

module _ (fl : Floats) (g : Generator fl.F) (out : Outside fl g) (frames : List ℕ → List Frame)
    (decimal : ℕ → Text) where
  -- The call leaves the scheduler as it is.
  abbrev Leaves : Loop fl g → Outcome (Loop fl g) → Type 0
  Leaves l m = (l' : Loop fl g) → m ≡ ok l' → l'.scheduler ≡ l.scheduler

  happen-Leaves : (h : Happening) (l : Loop fl g) → Leaves l (happen fl g frames h l)
  unfolding happen
  happen-Leaves (Happening.arrives payload port) l l' e = ground arith
  happen-Leaves (Happening.replica_ends ending key) l l' e = ground arith
  happen-Leaves (Happening.client_ends ending key) l l' e = ground arith
  happen-Leaves Happening.run_ends l l' e = ground arith

  happen_all-Leaves : (hs : List Happening) (l : Loop fl g) → Leaves l (happen_all fl g frames hs l)
  unfolding happen_all
  happen_all-Leaves [] l l' e = ground arith
  happen_all-Leaves (h ∷ hs) l l' e =
      let (m, first, rest) = >>=-eq-ok (happen fl g frames h l) _ e in
      happen_all-Leaves hs m l' rest ∙ happen-Leaves h l m first

  request-Leaves :
      (te : TestEngine fl g) (launched : Bool) (sc : ℤ) (l : Loop fl g)
      → Leaves l (request fl g out frames decimal te launched sc l)
  unfolding request
  request-Leaves te launched (pos sc) l l' e = ground arith
  request-Leaves te launched (negsuc k) l l' e = ground arith

  execute_as-Leaves :
      (te : TestEngine fl g) (t : DecisionType) (launched : Bool) (actions : List Message)
      (index : ℕ) (l : Loop fl g)
      → Leaves l (execute_as fl g out frames decimal te t launched actions index l)
  unfolding execute_as send inject
  execute_as-Leaves te no_op launched actions index l l' e = ground arith
  execute_as-Leaves te send_message launched actions index l l' e = ground arith
  execute_as-Leaves te inject_fault launched actions index l l' e = ground arith

  -- A round leaves a scheduler of the same strategy.
  run_round-kind :
      (te : TestEngine fl g) (round : Round fl g) (l l' : Loop fl g)
      → run_round fl g out frames decimal te round l ≡ ok l'
      → kind fl g l'.scheduler ≡ kind fl g l.scheduler
  unfolding run_round execute
  run_round-kind te round l l' e =
      let actions = get_actions l.network.message_queues in
      let ((sc, asked), a, e1) = >>=-eq-ok (Strategy.get_client_request fl g l.scheduler) _ e in
      let (l1, b, e2) =
        >>=-eq-ok
          (request fl g out frames decimal te round.launched sc (record l { scheduler = asked })) _
          e1 in
      let ((d, chosen), c, e3) =
        >>=-eq-ok (Strategy.next fl g out round.draw actions l1.scheduler) _ e2 in
      let (l2, f, e4) =
        >>=-eq-ok (happen_all fl g frames round.meanwhile (record l1 { scheduler = chosen })) _
          e3 in
      let last = execute_as-Leaves te d.decision_type round.launched actions d.index l2 l' e4 in
      let meanwhile = happen_all-Leaves round.meanwhile (record l1 { scheduler = chosen }) l2 f in
      let requested = request-Leaves te round.launched sc (record l { scheduler = asked }) l1 b in
      ap (kind fl g) (last ∙ meanwhile)
      ∙ (next-IsPlain fl g out round.draw actions l1.scheduler chosen d c).1
      ∙ ap (kind fl g) requested
      ∙ get_client_request-kind fl g l.scheduler asked sc a

  run_steps-kind :
      (te : TestEngine fl g) (rounds : List (Round fl g)) (l l' : Loop fl g)
      → run_steps fl g out frames decimal te rounds l ≡ ok l'
      → kind fl g l'.scheduler ≡ kind fl g l.scheduler
  run_steps-kind te rounds l l' e =
      (run_steps-keeps fl g out frames decimal te (λ round. Unit {0})
        (λ m. kind fl g m.scheduler ≡ kind fl g l.scheduler)
        (λ round m m' q p e'. ap (kind fl g) (happen_all-Leaves round.before m m' e') ∙ p)
        (λ round m m' q p e'. run_round-kind te round m m' e' ∙ p) rounds l l'
        (any_round fl g rounds) refl e).0

  next_iteration_ql :
      (s s' : Scheduler fl g)
      → kind fl g s ≡ SchedulerType.ql
      → Strategy.next_iteration fl g out s ≢ ok s'
  unfolding Strategy.next_iteration
  next_iteration_ql (random s) s' k e = cc
  next_iteration_ql (ql s) s' k e = cc
  next_iteration_ql (pct s) s' k e = cc
  next_iteration_ql (replay s) s' k e = cc

  run_loop_ql :
      (inputs : Inputs fl g) (pm : ProcessManager) (it it' : Iterating fl g)
      → kind fl g it.scheduler ≡ SchedulerType.ql
      → run_loop fl g out frames decimal inputs pm it ≢ ok it'
  unfolding run_loop
  run_loop_ql inputs pm it it' k e =
      let (l, a, e1) =
        >>=-eq-ok (run_steps fl g out frames decimal it.engine inputs.rounds _) _ e in
      let (stopped, b, e2) =
        >>=-eq-ok (shutdown inputs.client_stderr inputs.stderr l.processes) _ e1 in
      let (closed, sockets, e2') = >>=-eq-ok (Shutdown.shutdown l.network) _ e2 in
      let (l', c, e3) =
        >>=-eq-ok (happen_all fl g frames inputs.closing (record l { processes = stopped })) _
          e2' in
      let (nm, d, e4) = >>=-eq-ok (Manager.run inputs.listen l'.network) _ e3 in
      let (u, f, e5) = >>=-eq-ok (wait_all fl g out frames decimal nm l'.ended) _ e4 in
      let (s, h, e6) = >>=-eq-ok (Strategy.next_iteration fl g out l'.scheduler) _ e5 in
      let same : kind fl g l'.scheduler ≡ SchedulerType.ql =
        ap (kind fl g) (happen_all-Leaves inputs.closing (record l { processes = stopped }) l' c)
        ∙ run_steps-kind it.engine inputs.rounds _ l a
        ∙ k in
      next_iteration_ql l'.scheduler s same h

  after_faults_ql :
      (inputs : Inputs fl g) (j : ℕ) (it it' : Iterating fl g) (fm : FaultManager)
      (error : Option Text)
      → kind fl g it.scheduler ≡ SchedulerType.ql
      → after_faults fl g out frames decimal inputs j it fm error ≡ ok it'
      → IsInitError it'.error
  unfolding after_faults
  after_faults_ql inputs j it it' fm (some e') k e =
      let same : some (codes "Error initializing FaultManager: " ++ e') ≡ it'.error =
        ground arith in
      rw (← same) (e', inr refl)
  after_faults_ql inputs j it it' fm none k e =
      let (pm, a, e1) = >>=-eq-ok (Lifecycle.init it.engine.config it.engine.replica_ids j) _ e in
      absurd (
        run_loop_ql inputs pm (record it { engine = record it.engine { fault_manager = fm } }) it' k
          e1)

  after_network_ql :
      (inputs : Inputs fl g) (j : ℕ) (it it' : Iterating fl g) (nm : Manager.Manager)
      (error : Option Text)
      → kind fl g it.scheduler ≡ SchedulerType.ql
      → after_network fl g out frames decimal inputs j it nm error ≡ ok it'
      → IsInitError it'.error
  unfolding after_network
  after_network_ql inputs j it it' nm (some e') k e =
      let same : some (codes "Error initializing NetworkManager: " ++ e') ≡ it'.error =
        ground arith in
      rw (← same) (e', inl refl)
  after_network_ql inputs j it it' nm none k e =
      let ((fm, error), a, e1) =
        >>=-eq-ok (Faults.init it.engine.config.fault_config it.engine.fault_manager) _ e in
      after_faults_ql inputs j (record it { engine = record it.engine { network_manager = nm } })
        it' fm error k e1

  -- With the Q-learning scheduler an iteration that returns does so with an error of the managers' `Init`.
  pub run_iteration_ql :
      (inputs : Inputs fl g) (j : ℕ) (it it' : Iterating fl g)
      → kind fl g it.scheduler ≡ SchedulerType.ql
      → run_iteration fl g out frames decimal inputs j it ≡ ok it'
      → IsInitError it'.error
  unfolding run_iteration
  run_iteration_ql inputs j it it' k e =
      let config = it.engine.config in
      let ((nm, network_error), a, e1) =
        >>=-eq-ok
          (Manager.init config.network_config config.process_config it.engine.replica_ids
            it.engine.network_manager)
          _ e in
      after_network_ql inputs j it it' nm network_error k e1
