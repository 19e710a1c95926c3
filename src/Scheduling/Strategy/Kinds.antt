-- ===== src/Scheduling/Strategy/Kinds.antt =====
-- What every strategy has in common: a scheduler stays what it is, and none chooses a fault.
use dstest.Prelude.{◌≡◌, ◌≢◌, List, [], ◌∷◌, ok, ℤ, >>=-eq-ok, arith}
use dstest.Prelude.Machine.{Floats, Generator}
use dstest.Network.Message.{Message}
use dstest.Scheduling.Decision.{SchedulerDecision, SchedulerType, inject_fault}
use dstest.Scheduling.RandomScheduler
use dstest.Scheduling.Pct
use dstest.Scheduling.Replay
use dstest.Scheduling.Ql.QlScheduler
use dstest.Scheduling.Strategy.{
  Outside, Scheduler, random, ql, pct, replay, next, get_client_request,
}

-- A decision that is not a fault.
abbrev pub IsPlain : SchedulerDecision → Type 0
IsPlain d = d.decision_type ≢ inject_fault

module _ (fl : Floats) (g : Generator fl.F) where
  abbrev pub kind : Scheduler fl g → SchedulerType
  kind (random s) = SchedulerType.random
  kind (ql s) = SchedulerType.ql
  kind (pct s) = SchedulerType.pct
  kind (replay s) = SchedulerType.replay

  pub get_client_request-kind :
      (s s' : Scheduler fl g) (answer : ℤ)
      → get_client_request fl g s ≡ ok (answer, s')
      → kind s' ≡ kind s
  unfolding get_client_request
  get_client_request-kind (random s) s' answer e = ground arith
  get_client_request-kind (ql s) s' answer e = ground arith
  get_client_request-kind (pct s) s' answer e = ground arith
  get_client_request-kind (replay s) s' answer e = ground arith

  random-IsPlain :
      (messages : List Message) (s s' : RandomScheduler.RandomScheduler fl g)
      (d : SchedulerDecision)
      → RandomScheduler.next fl g messages s ≡ ok (d, s')
      → IsPlain d
  unfolding RandomScheduler.next
  random-IsPlain messages s s' d e f = ground arith

  ql-IsPlain :
      (out : Outside fl g) (draw : fl.F) (messages : List Message)
      (s s' : QlScheduler.QlScheduler fl g) (d : SchedulerDecision)
      → QlScheduler.next fl g out.hash draw messages s ≡ ok (d, s')
      → IsPlain d
  unfolding QlScheduler.next
  ql-IsPlain out draw [] s s' d e f = ground arith
  ql-IsPlain out draw (m ∷ messages) s s' d e f = ground arith

  pct-IsPlain :
      (messages : List Message) (s s' : Pct.Pct fl g) (d : SchedulerDecision)
      → Pct.next fl g messages s ≡ ok (d, s')
      → IsPlain d
  unfolding Pct.next
  pct-IsPlain messages s s' d e f = ground arith

  -- Whatever `Next` of any strategy answers is no fault, and leaves a scheduler of that strategy.
  pub next-IsPlain :
      (out : Outside fl g) (draw : fl.F) (messages : List Message) (s s' : Scheduler fl g)
      (d : SchedulerDecision)
      → next fl g out draw messages s ≡ ok (d, s')
      → IsPlain d × (kind s' ≡ kind s)
  unfolding next Replay.next
  next-IsPlain out draw messages (random s) s' d e =
      let ((d', t), first, e') = >>=-eq-ok (RandomScheduler.next fl g messages s) _ e in
      let same : d ≡ d' = ground arith in
      (rw same (random-IsPlain messages s t d' first), ground arith)
  next-IsPlain out draw messages (ql s) s' d e =
      let ((d', t), first, e') = >>=-eq-ok (QlScheduler.next fl g out.hash draw messages s) _ e in
      let same : d ≡ d' = ground arith in
      (rw same (ql-IsPlain out draw messages s t d' first), ground arith)
  next-IsPlain out draw messages (pct s) s' d e =
      let ((d', t), first, e') = >>=-eq-ok (Pct.next fl g messages s) _ e in
      let same : d ≡ d' = ground arith in
      (rw same (pct-IsPlain messages s t d' first), ground arith)
  next-IsPlain out draw messages (replay s) s' d e = ground arith
