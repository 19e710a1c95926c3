-- ===== src/Network/Handlers/Invariant.antt =====
-- The invariant of a manager and its handlers.
use dstest.Prelude.{
  ℕ, zero, suc, ◌≡◌, ap, refl, true, List, [], ◌∷◌, ◌++◌, some, pos, pos_part, get_elem?, set, All,
}
use dstest.Network.Message.{Message, Channels, is_closed}
use dstest.Network.Manager.{SenderReceiverPair}
use dstest.Network.Manager.Pending.{pending, Apart}
use dstest.Network.Manager.Invariant.{IsWaiting, IsConsistent}
use dstest.Network.Handlers.{Handler, numbered, waiting, resumed, System}

-- The messages that have a number and are in no queue yet.
abbrev pub unqueued : List Handler → List Message
unqueued [] = []
unqueued (numbered m ∷ handlers) = m ∷ unqueued handlers
unqueued (waiting m ∷ handlers) = unqueued handlers
unqueued (resumed m ∷ handlers) = unqueued handlers

-- The pair of nodes that a message is for.
abbrev pub ends : Message → SenderReceiverPair
ends m = record { sender = pos_part m.sender; receiver = pos_part m.receiver }

pub record IsRouted (m : Message) : Type 0 where
  pub from : m.sender ≡ pos (ends m).sender
  pub to : m.receiver ≡ pos (ends m).receiver

-- A handler that is past its wait has a closed channel.
abbrev pub IsReleased : Channels → Handler → Type 0
IsReleased closed (numbered m) = Unit
IsReleased closed (waiting m) = Unit
IsReleased closed (resumed m) = is_closed m.send closed ≡ true

pub record IsSound (n : ℕ) (s : System) : Type 0 where
  pub consistent : IsConsistent n s.manager
  pub apart : Apart (unqueued s.handlers ++ pending s.manager.message_queues)
  pub fresh :
      All (IsWaiting s.manager.index s.manager.heap s.manager.channels) (unqueued s.handlers)
  pub routed : All IsRouted (unqueued s.handlers)
  pub released : All (IsReleased s.manager.channels) s.handlers

-- Where the message of a handler stands among those that are in no queue.
pub record Taken (l l' : List Message) (m : Message) : Type 0 where
  pub ahead : List Message
  pub back : List Message
  pub old : l ≡ ahead ++ m ∷ back
  pub new : l' ≡ ahead ++ back

pub unqueued-append :
    (handlers : List Handler) (m : Message)
    → unqueued (handlers ++ numbered m ∷ []) ≡ unqueued handlers ++ m ∷ []
unqueued-append [] m = refl
unqueued-append (numbered x ∷ handlers) m = ap (λ l. x ∷ l) (unqueued-append handlers m)
unqueued-append (waiting x ∷ handlers) m = unqueued-append handlers m
unqueued-append (resumed x ∷ handlers) m = unqueued-append handlers m

-- A handler that queues its message takes it from them, and one that goes on takes nothing.
pub unqueued-Taken :
    (handlers : List Handler) (i : ℕ) (m : Message)
    → get_elem? handlers i ≡ some (numbered m)
    → Taken (unqueued handlers) (unqueued (set handlers i (waiting m))) m
unqueued-Taken [] i m e = cc
unqueued-Taken (h ∷ handlers) zero m e =
    let same : h ≡ numbered m = cc in
    rw same (record { ahead = []; back = unqueued handlers; old = refl; new = refl })
unqueued-Taken (numbered x ∷ handlers) (suc i) m e =
    let t = unqueued-Taken handlers i m e in
    record {
      ahead = x ∷ t.ahead;
      back = t.back;
      old = ap (λ l. x ∷ l) t.old;
      new = ap (λ l. x ∷ l) t.new;
    }
unqueued-Taken (waiting x ∷ handlers) (suc i) m e = unqueued-Taken handlers i m e
unqueued-Taken (resumed x ∷ handlers) (suc i) m e = unqueued-Taken handlers i m e

pub unqueued-set :
    (handlers : List Handler) (i : ℕ) (m : Message)
    → get_elem? handlers i ≡ some (waiting m)
    → unqueued (set handlers i (resumed m)) ≡ unqueued handlers
unqueued-set [] i m e = cc
unqueued-set (h ∷ handlers) zero m e = let same : h ≡ waiting m = cc in rw same refl
unqueued-set (numbered x ∷ handlers) (suc i) m e = ap (λ l. x ∷ l) (unqueued-set handlers i m e)
unqueued-set (waiting x ∷ handlers) (suc i) m e = unqueued-set handlers i m e
unqueued-set (resumed x ∷ handlers) (suc i) m e = unqueued-set handlers i m e
