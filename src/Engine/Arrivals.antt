-- ===== src/Engine/Arrivals.antt =====
-- Requests that arrive while the engine works: the fronts of the queues stay, and no message gets lost.
use mathlib.Core.List.{append_assoc, append-nil}
use dstest.Prelude.{
  ℕ, suc, ◌+◌, ◌^◌, ◌≡◌, ◌<◌, ◌≤◌, ◌∙◌, refl, sym, ap, subst, List, [], ◌∷◌, ◌++◌, Outcome, Returns,
  Returns-ok, Returns-map, length, length-append, All, arith,
}
use dstest.Network.Message.{Message, Payload}
use dstest.Network.Translator.{Frame, translate}
use dstest.Network.Manager.{Manager, intercept, pair_of}
use dstest.Network.Manager.Pending.{pending, queue_of}
use dstest.Network.Manager.Invariant.{IsConsistent}
use dstest.Network.Manager.Arrival.{Arrived, request, intercept-Returns}
use dstest.Network.Manager.Actions.{Front, pending_le}
use dstest.Network.Manager.History.{Moves, arrives-Moves, step}
use dstest.Network.Manager.History
use dstest.Prelude.Machine.{Floats, Generator}
use dstest.Engine.{Happening, Loop, happen, happen_all}

-- A happening is the arrival of a request.
abbrev pub IsArrival : Happening → Type 0
IsArrival (Happening.arrives payload port) = Unit
IsArrival (Happening.replica_ends ending key) = ⊥
IsArrival (Happening.client_ends ending key) = ⊥
IsArrival Happening.run_ends = ⊥

-- The manager after at most `k` arrivals: each queue has what it had, and maybe more.
pub record Grown (n k : ℕ) (nm nm' : Manager) : Type 0 where
  pub consistent : IsConsistent n nm'
  pub numbered : nm'.index ≤ nm.index + k
  pub channels : nm'.channels ≡ nm.channels
  pub router : nm'.router ≡ nm.router
  pub ports : nm'.port_map ≡ nm.port_map
  pub lines :
      (r : ℕ)
      → r < n
      → (more : List Message) × (queue_of nm.message_queues r ++ more
          ≡ queue_of nm'.message_queues r)

Grown-refl : {n : ℕ} (nm : Manager) → IsConsistent n nm → Grown n 0 nm nm
Grown-refl nm c = record {
  consistent = c;
  numbered = omega arith;
  channels = refl;
  router = refl;
  ports = refl;
  lines = λ r lr. ([], append-nil _);
}

Grown-trans :
    {n : ℕ} (k : ℕ) (nm nm' nm'' : Manager)
    → Grown n 1 nm nm'
    → Grown n k nm' nm''
    → Grown n (suc k) nm nm''
Grown-trans k nm nm' nm'' a b = record {
  consistent = b.consistent;
  numbered = let l = a.numbered in let l' = b.numbered in omega arith;
  channels = b.channels ∙ a.channels;
  router = b.router ∙ a.router;
  ports = b.ports ∙ a.ports;
  lines = λ r lr.
      let (more, e) = a.lines r lr in
      let (rest, e') = b.lines r lr in
      (more ++ rest, sym (append_assoc _ more rest) ∙ ap (λ l. l ++ rest) e ∙ e');
}

-- A message at the front of a queue is still there after arrivals.
pub Grown-Front :
    (n k : ℕ) (nm nm' : Manager) (m : Message)
    → IsConsistent n nm
    → Grown n k nm nm'
    → Front nm.message_queues m
    → Front nm'.message_queues m
Grown-Front n k nm nm' m c grown f =
    let count = c.queue_count in
    let count' = grown.consistent.queue_count in
    let inside = f.inside in
    let (more, e) = grown.lines f.r (omega arith) in
    record {
      r = f.r;
      rest = f.rest ++ more;
      inside = omega arith;
      begins = sym e ∙ ap (λ l. l ++ more) f.begins;
    }

-- As many messages wait as before, or more.
pub Grown-pending :
    (n k : ℕ) (nm nm' : Manager)
    → IsConsistent n nm
    → Grown n k nm nm'
    → length (pending nm.message_queues) ≤ length (pending nm'.message_queues)
Grown-pending n k nm nm' c grown =
    let count = c.queue_count in
    let count' = grown.consistent.queue_count in
    pending_le nm.message_queues nm'.message_queues (omega arith) λ r lr.
      let (more, e) = grown.lines r (omega arith) in
      let both = length-append (queue_of nm.message_queues r) more in
      let same = ap length e in omega arith

pub intercept-Grown :
    (frames : List ℕ → List Frame) (payload : Payload) (port : ℕ) {n : ℕ} (nm : Manager)
    → IsConsistent n nm
    → nm.index + 1 < 2 ^ 64
    → Returns (intercept frames payload port nm) (Grown n 1 nm)
unfolding step
intercept-Grown frames payload port {n} nm c small =
    let (nm', e, moves) =
      Returns-ok _ (Moves frames n nm (History.Call.arrives payload port))
        (arrives-Moves frames nm payload port c small) in
    let arrived : Arrived n nm (pair_of nm port)
        (translate frames (request payload (pair_of nm port) nm)) nm' =
      subst
        (λ (o : Outcome Manager). Returns o (
          Arrived n nm (pair_of nm port) (translate frames (request payload (pair_of nm port) nm))))
        e (intercept-Returns frames payload port c small) in
    subst (λ (o : Outcome Manager). Returns o (Grown n 1 nm)) (sym e)
      (record {
        consistent = moves.consistent;
        numbered = moves.numbered;
        channels = arrived.channels;
        router = arrived.router;
        ports = arrived.ports;
        lines = λ r lr. (_, moves.lines r lr);
      })

module _ (fl : Floats) (g : Generator fl.F) (frames : List ℕ → List Frame) (n : ℕ) where
  -- Arrivals change the network alone.
  pub record Received (k : ℕ) (l l' : Loop fl g) : Type 0 where
    pub grown : Grown n k l.network l'.network
    pub rest : l' ≡ record l { network = l'.network }

  -- Arrivals return while fewer than 2^64 messages are numbered.
  pub happen_all-Received :
      (hs : List Happening) (l : Loop fl g)
      → All IsArrival hs
      → IsConsistent n l.network
      → l.network.index + length hs < 2 ^ 64
      → Returns (happen_all fl g frames hs l) (Received (length hs) l)
  unfolding happen_all happen
  happen_all-Received [] l a c small = record { grown = Grown-refl l.network c; rest = refl }
  happen_all-Received (Happening.arrives payload port ∷ hs) l a c small =
      let (nm, e, first) =
        Returns-ok _ (Grown n 1 l.network)
          (intercept-Grown frames payload port l.network c (omega arith)) in
      let numbered = first.numbered in
      rw e (
        Returns-map _ (Received (length hs) (record l { network = nm })) _
          (happen_all-Received hs (record l { network = nm }) a.1 first.consistent (omega arith))
          λ l' later. record {
            grown = Grown-trans (length hs) l.network nm l'.network first later.grown;
            rest = later.rest;
          })
  happen_all-Received (Happening.replica_ends ending key ∷ hs) l a c small = absurd a.0
  happen_all-Received (Happening.client_ends ending key ∷ hs) l a c small = absurd a.0
  happen_all-Received (Happening.run_ends ∷ hs) l a c small = absurd a.0
