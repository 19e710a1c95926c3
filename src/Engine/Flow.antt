-- ===== src/Engine/Flow.antt =====
-- The loop over the steps while every round brings a request that the router lets through.
use dstest.Prelude.{
  ℕ, ◌+◌, ◌^◌, ◌≡◌, ◌<◌, ◌≤◌, ◌⊎◌, ◌∙◌, ap, subst, true, inl, inr, List, [], ◌∷◌, ◌++◌, Outcome, ok,
  Returns, Returns-ok, length, length-append, set, All, arith,
}
use dstest.Prelude.Text.{Text}
use dstest.Prelude.Machine.{Floats, Generator}
use dstest.Network.Message.{Payload}
use dstest.Network.Queue.{MessageQueue}
use dstest.Network.Translator.{Frame, translate}
use dstest.Network.Manager.{Manager, SenderReceiverPair, pair_of, intercept}
use dstest.Network.Manager.Pending.{pending, queue_of, before, behind, pending-set}
use dstest.Network.Manager.Invariant.{IsConsistent}
use dstest.Network.Manager.Arrival.{Arrived, request, intercept-Returns}
use dstest.Network.Manager.Queueing.{passes}
use dstest.Scheduling.Strategy.{Outside}
use dstest.Engine.{TestEngine, Round, Loop, Happening, happen, happen_all, run_steps}
use dstest.Engine.Arrivals.{
  IsArrival, Grown, Grown-pending, Received, happen_all-Received, intercept-Grown,
}
use dstest.Engine.Busy.{IsBusy, arrivals, Ready, IsDone}
use dstest.Engine.Progress.{run_steps-IsDone}

-- One of the happenings is a request that the router lets through.
abbrev pub Brings : ℕ → Manager → List Happening → Type 0
Brings n nm [] = ⊥
Brings n nm (Happening.arrives payload port ∷ hs) =
    (passes n nm (pair_of nm port) ≡ true) ⊎ Brings n nm hs
Brings n nm (Happening.replica_ends ending key ∷ hs) = Brings n nm hs
Brings n nm (Happening.client_ends ending key ∷ hs) = Brings n nm hs
Brings n nm (Happening.run_ends ∷ hs) = Brings n nm hs

passes-same :
    (n port : ℕ) (nm nm' : Manager)
    → nm'.router ≡ nm.router
    → nm'.port_map ≡ nm.port_map
    → passes n nm' (pair_of nm' port) ≡ passes n nm (pair_of nm port)
unfolding pair_of
passes-same n port nm nm' router ports =
    let pairs : pair_of nm' port ≡ pair_of nm port =
      ap (λ (m : List (ℕ × SenderReceiverPair)). pair_of (record nm { port_map = m }) port) ports in
    ap (λ r. passes n (record nm' { router = r }) (pair_of nm' port)) router
    ∙ ap (passes n nm) pairs

-- What brings a request goes on to do so while router and ports stay.
Brings-same :
    (n : ℕ) (nm nm' : Manager) (hs : List Happening)
    → nm'.router ≡ nm.router
    → nm'.port_map ≡ nm.port_map
    → Brings n nm hs
    → Brings n nm' hs
Brings-same n nm nm' [] router ports b = b
Brings-same n nm nm' (Happening.arrives payload port ∷ hs) router ports (inl here) =
    inl (passes-same n port nm nm' router ports ∙ here)
Brings-same n nm nm' (Happening.arrives payload port ∷ hs) router ports (inr later) =
    inr (Brings-same n nm nm' hs router ports later)
Brings-same n nm nm' (Happening.replica_ends ending key ∷ hs) router ports b =
    Brings-same n nm nm' hs router ports b
Brings-same n nm nm' (Happening.client_ends ending key ∷ hs) router ports b =
    Brings-same n nm nm' hs router ports b
Brings-same n nm nm' (Happening.run_ends ∷ hs) router ports b =
    Brings-same n nm nm' hs router ports b

-- A request that passes leaves a message that waits.
passed-waits :
    (frames : List ℕ → List Frame) (payload : Payload) (port : ℕ) {n : ℕ} (nm nm' : Manager)
    → IsConsistent n nm
    → passes n nm (pair_of nm port) ≡ true
    → Arrived n nm (pair_of nm port) (translate frames (request payload (pair_of nm port) nm)) nm'
    → 0 < length (pending nm'.message_queues)
passed-waits frames payload port {n} nm nm' c passed arrived =
    let p = pair_of nm port in
    let m = translate frames (request payload p nm) in
    let line = queue_of nm.message_queues p.receiver in
    let count = c.queue_count in
    let inside : p.receiver < length nm.message_queues = ground arith in
    let queues : nm'.message_queues
        ≡ set nm.message_queues p.receiver (record { list = line ++ m ∷ [] }) =
      arrived.queues ∙ ground arith in
    let all = ap (λ (q : List MessageQueue). length (pending q)) queues in
    let parts =
      ap length
        (pending-set nm.message_queues p.receiver (record { list = line ++ m ∷ [] }) inside) in
    let first =
      length-append (before nm.message_queues p.receiver)
        ((line ++ m ∷ []) ++ behind nm.message_queues p.receiver) in
    let second = length-append (line ++ m ∷ []) (behind nm.message_queues p.receiver) in
    let third = length-append line (m ∷ []) in omega arith

module _ (fl : Floats) (g : Generator fl.F) (frames : List ℕ → List Frame) (n : ℕ) where
  Brings-waits :
      (hs : List Happening) (l m : Loop fl g)
      → All IsArrival hs
      → IsConsistent n l.network
      → l.network.index + length hs < 2 ^ 64
      → Brings n l.network hs
      → happen_all fl g frames hs l ≡ ok m
      → 0 < length (pending m.network.message_queues)
  unfolding happen_all happen
  Brings-waits [] l m a c small b e = absurd b
  Brings-waits (Happening.replica_ends ending key ∷ hs) l m a c small b e = absurd a.0
  Brings-waits (Happening.client_ends ending key ∷ hs) l m a c small b e = absurd a.0
  Brings-waits (Happening.run_ends ∷ hs) l m a c small b e = absurd a.0
  Brings-waits (Happening.arrives payload port ∷ hs) l m a c small b e =
      let (nm, first, grown) =
        Returns-ok (intercept frames payload port l.network) (Grown n 1 l.network)
          (intercept-Grown frames payload port l.network c (omega arith)) in
      let arrived : Arrived n l.network (pair_of l.network port)
          (translate frames (request payload (pair_of l.network port) l.network)) nm =
        subst
          (λ (o : Outcome Manager). Returns o (
            Arrived n l.network (pair_of l.network port)
              (translate frames (request payload (pair_of l.network port) l.network))))
          first (intercept-Returns frames payload port c (omega arith)) in
      let numbered = grown.numbered in
      let rest : happen_all fl g frames hs (record l { network = nm }) ≡ ok m = rw first at e in
      elim b [
        | inr later ↦
            Brings-waits hs (record l { network = nm }) m a.1 grown.consistent (omega arith)
              (Brings-same n l.network nm hs grown.router grown.ports later) rest
        | inl here ↦
            let now = passed-waits frames payload port l.network nm c here arrived in
            let received : Received fl g frames n (length hs) (record l { network = nm }) m =
              subst
                (λ (o : Outcome (Loop fl g)).
                  Returns o (Received fl g frames n (length hs) (record l { network = nm })))
                rest
                (happen_all-Received fl g frames n hs (record l { network = nm }) a.1
                  grown.consistent (omega arith)) in
            let more = Grown-pending n _ nm m.network grown.consistent received.grown in omega arith
      ]

  module _ (out : Outside fl g) (decimal : ℕ → Text) (te : TestEngine fl g) where
    abbrev pub AllBring : List (Round fl g) → Loop fl g → Type 0
    AllBring rounds l = All (λ (round : Round fl g). Brings n l.network round.before) rounds

    AllBring-same :
        (rounds : List (Round fl g)) (l l' : Loop fl g)
        → l'.network.router ≡ l.network.router
        → l'.network.port_map ≡ l.network.port_map
        → AllBring rounds l
        → AllBring rounds l'
    AllBring-same [] l l' router ports all = tt
    AllBring-same (round ∷ rounds) l l' router ports all = (
      Brings-same n l.network l'.network round.before router ports all.0,
      AllBring-same rounds l l' router ports all.1,
    )

    -- With the random or the Q-learning strategy and a client script, from a consistent manager, also one
    -- without any message: while only requests arrive, and before each round one that the router lets
    -- through, as many rounds as steps are left are enough: the loop returns with all steps
    -- done, each of which released one message.
    pub run_steps_flow :
        (rounds : List (Round fl g)) (l : Loop fl g)
        → 0 < length te.config.process_config.client_scripts
        → Ready fl g out frames decimal te n l
        → All (IsBusy fl g) rounds
        → l.network.index + arrivals fl g rounds < 2 ^ 64
        → l.s ≤ te.steps
        → te.steps ≤ l.s + length rounds
        → AllBring rounds l
        → Returns
            (run_steps fl g out frames decimal te rounds l)
            (IsDone fl g out frames decimal te n l)
    run_steps_flow =
        run_steps-IsDone fl g out frames decimal te n AllBring
          (λ round rounds l m more ready a small all happened received.
            Brings-waits round.before l m a ready.consistent small all.0 happened)
          (λ round rounds l m l' ready all received t.
            AllBring-same rounds l l' (t.router ∙ received.grown.router)
              (t.ports ∙ received.grown.ports) all.1)
