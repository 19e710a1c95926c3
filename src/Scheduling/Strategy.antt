-- ===== src/Scheduling/Strategy.antt =====
-- cmd/dstest/scheduling/scheduling.go: the interface `Scheduler`, as the sum of the four strategies that
-- `NewScheduler` makes. `Shutdown` does nothing in any of them, and none has an `ApplyFault`.
pub mod Kinds
use dstest.Prelude.{ℕ, List, Option, none, some, [], Outcome, ok, panic, nil_dereference, ◌>>=◌, ℤ}
use dstest.Prelude.Text.{Text}
use dstest.Prelude.Machine.{Floats, Generator}
use dstest.Config.{Config}
use dstest.Network.Message.{Message}
use dstest.Scheduling.Decision.{SchedulerDecision, SchedulerType}
use dstest.Scheduling.RandomScheduler
use dstest.Scheduling.RandomScheduler.{RandomScheduler}
use dstest.Scheduling.Pct
use dstest.Scheduling.Pct.{Pct}
use dstest.Scheduling.Replay
use dstest.Scheduling.Replay.{ReplayScheduler}
use dstest.Scheduling.Ql.QlScheduler
use dstest.Scheduling.Ql.QlScheduler.{QlScheduler, Defaults}

module _ (fl : Floats) (g : Generator fl.F) where
  -- What the strategies take from outside: the fuel of the draw loop, the answers of the file system, the
  -- constants and the clock of the agent, and the hash of a list of messages.
  pub record Outside : Type 0 where
    pub fuel : ℕ
    pub file : Text → Option Text
    pub defaults : Defaults fl g
    pub clock : ℤ
    pub hash : List Message → ℕ

  pub data Scheduler : Type 0 where
    random : RandomScheduler fl g → Scheduler
    ql : QlScheduler fl g → Scheduler
    pct : Pct fl g → Scheduler
    replay : ReplayScheduler → Scheduler

  -- The struct that `ReplayScheduler.Init` writes to: a new one, or that of the experiment before.
  abbrev pub replay_before : Option Scheduler → ReplayScheduler
  replay_before (some (replay s)) = s
  replay_before _ = record { actions = []; index = 0 }

  -- The other strategies write every field.
  unfoldable pub init : Outside → SchedulerType → Config fl.F → Option Scheduler → Outcome Scheduler
  init out SchedulerType.random config before = do
    s ← RandomScheduler.init fl g config
    ok (random s)
  init out SchedulerType.ql config before = do
    s ← QlScheduler.init fl g out.defaults out.clock config
    ok (ql s)
  init out SchedulerType.pct config before = do s ← Pct.init fl g out.fuel config; ok (pct s)
  init out SchedulerType.replay config before = do
    s ← Replay.init config out.file (replay_before before)
    ok (replay s)

  -- `draw` is the random number of the agent.
  unfoldable pub next :
      Outside → fl.F → List Message → Scheduler → Outcome (SchedulerDecision × Scheduler)
  next out draw messages (random s) = do
    (d, s') ← RandomScheduler.next fl g messages s
    ok (d, random s')
  next out draw messages (ql s) = do
    (d, s') ← QlScheduler.next fl g out.hash draw messages s
    ok (d, ql s')
  next out draw messages (pct s) = do (d, s') ← Pct.next fl g messages s; ok (d, pct s')
  next out draw messages (replay s) = let (d, s') = Replay.next messages s in ok (d, replay s')

  unfoldable pub get_client_request : Scheduler → Outcome (ℤ × Scheduler)
  get_client_request (random s) = do
    (answer, s') ← RandomScheduler.get_client_request fl g s
    ok (answer, random s')
  get_client_request (ql s) = do
    (answer, s') ← QlScheduler.get_client_request fl g s
    ok (answer, ql s')
  get_client_request (pct s) = do (answer, s') ← Pct.get_client_request fl g s; ok (answer, pct s')
  get_client_request (replay s) =
      let (answer, s') = Replay.get_client_request s in ok (answer, replay s')

  -- QLScheduler has no `NextIteration`: the call goes to the interface that it embeds, which is nil.
  unfoldable pub next_iteration : Outside → Scheduler → Outcome Scheduler
  next_iteration out (random s) = ok (random (RandomScheduler.next_iteration fl g s))
  next_iteration out (ql s) = panic nil_dereference
  next_iteration out (pct s) = do s' ← Pct.next_iteration fl g out.fuel s; ok (pct s')
  next_iteration out (replay s) = ok (replay (Replay.next_iteration s))

  unfoldable pub reset : Scheduler → Scheduler
  reset (random s) = random (RandomScheduler.reset fl g s)
  reset (ql s) = ql (QlScheduler.reset fl g s)
  reset (pct s) = pct (Pct.reset fl g s)
  reset (replay s) = replay (Replay.reset s)
