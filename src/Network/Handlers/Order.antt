-- ===== src/Network/Handlers/Order.antt =====
-- Requests, releases and faults in any interleaving: what stays true, and the order of each line.
use mathlib.Core.List.{append_assoc, append-nil}
use dstest.Prelude.{
  ℕ, ◌+◌, ◌^◌, ◌≡◌, ◌<◌, ◌≤◌, ◌∙◌, ◌==◌, ◌≢◌, sym, refl, ◌&&◌, List, [], ◌∷◌, ◌++◌, some, none,
  Option, ok, length, get_elem?, set, All, arith, Returns, Returns-bind, Outcome, ◌>>=◌,
  if◌then◌else◌, ap,
}
use dstest.Network.Message.{Message, Channels}
use dstest.Network.Translator.{Frame, translate}
use dstest.Network.Manager.{Manager}
use dstest.Network.Manager.Pending.{
  pending, queue_of, before, behind, pending-split, pending-set, Apart, Differ, Apart-middle,
  All-left, none_queued,
}
use dstest.Network.Manager.Queueing.{passes}
use dstest.Network.Manager.Delivery.{Released, HeadOther, still_waits}
use dstest.Network.Manager.Heads.{front_with, get_or-All, other_front}
use dstest.Network.Manager.History.{queued-line, released-line}
use dstest.Network.Queue.{MessageQueue}
use dstest.Network.Handlers.{
  Handler, numbered, waiting, resumed, System, Act, begins, queues, wakes, sends, isolates, act,
}
use dstest.Network.Handlers.Invariant.{unqueued, ends, IsReleased, IsSound}
use dstest.Network.Handlers.Steps.{begun-IsSound, queued_state-IsSound, woken-IsSound}
use dstest.Network.Handlers.Changes.{
  Changes, began, has_queued, has_woken, has_sent, has_cut, not_queued, not_woken, not_sent,
  IsInside, act-Changes,
}

closed-IsReleased :
    (c : ℕ) (closed : Channels) (handlers : List Handler)
    → All (IsReleased closed) handlers
    → All (IsReleased (c ∷ closed)) handlers
closed-IsReleased c closed [] h = tt
closed-IsReleased c closed (numbered m ∷ handlers) h = (tt, closed-IsReleased c closed handlers h.1)
closed-IsReleased c closed (waiting m ∷ handlers) h = (tt, closed-IsReleased c closed handlers h.1)
closed-IsReleased c closed (resumed m ∷ handlers) h =
    (ground (arith, h.0), closed-IsReleased c closed handlers h.1)

module _ {n : ℕ} {s : System} (sound : IsSound n s) where
  pub has_sent-IsSound :
      (r : ℕ) (m : Message) (rest : List Message) (nm : Manager)
      → r < n
      → queue_of s.manager.message_queues r ≡ m ∷ rest
      → Released n s.manager r m rest nm
      → IsSound n (record s { manager = nm })
  has_sent-IsSound r m rest nm lr front a = record {
    consistent = a.consistent;
    apart = rw (a.queues, left, ← append_assoc) parts.1;
    fresh =
        rw (a.channels, a.index, a.heap)
          (still_waits sound.consistent r m rest lr front (unqueued s.handlers)
            (All-left (Differ m) (unqueued s.handlers) _ (rw append_assoc at parts.0)) sound.fresh);
    routed = sound.routed;
    released =
        rw a.channels (closed-IsReleased m.send s.manager.channels s.handlers sound.released);
  }
    where
      in_queues : r < length s.manager.message_queues
      in_queues = omega (arith, sound.consistent.queue_count)

      whole :
          pending s.manager.message_queues
          ≡ before s.manager.message_queues r ++ m ∷ (rest ++ behind s.manager.message_queues r)
      whole = pending-split s.manager.message_queues r in_queues ∙ rw front refl

      left :
          pending (set s.manager.message_queues r (record { list = rest }))
          ≡ before s.manager.message_queues r ++ (rest ++ behind s.manager.message_queues r)
      left = pending-set s.manager.message_queues r _ in_queues

      parts :
          All (Differ m) (
            (unqueued s.handlers ++ before s.manager.message_queues r)
            ++ (rest ++ behind s.manager.message_queues r))
          × Apart (
              (unqueued s.handlers ++ before s.manager.message_queues r)
              ++ (rest ++ behind s.manager.message_queues r))
      parts =
          Apart-middle (unqueued s.handlers ++ before s.manager.message_queues r) m
            (rest ++ behind s.manager.message_queues r) (rw (whole, ← append_assoc) at sound.apart)

  pub Changes-IsSound :
      (frames : List ℕ → List Frame) (a : Act) (s' : System)
      → Changes frames n s a s'
      → IsSound n s' × (s'.manager.index ≤ s.manager.index + 1)
  Changes-IsSound frames _ _ (began payload port) = (begun-IsSound sound payload port, omega arith)
  Changes-IsSound frames _ _ (has_queued i m here) =
      (queued_state-IsSound sound frames i m here, omega arith)
  Changes-IsSound frames _ _ (has_woken i m here closed) =
      (woken-IsSound sound i m here closed, omega arith)
  Changes-IsSound frames _ _ (has_sent r m rest nm lr front a) =
      (has_sent-IsSound r m rest nm lr front a, omega (arith, a.index))
  Changes-IsSound frames _ _ (has_cut id router square) = (
    record {
      consistent = record {
        queue_count = sound.consistent.queue_count;
        square = square;
        apart = sound.consistent.apart;
        waiting = sound.consistent.waiting;
        closed = sound.consistent.closed;
        addressed = sound.consistent.addressed;
      };
      apart = sound.apart;
      fresh = sound.fresh;
      routed = sound.routed;
      released = sound.released;
    },
    omega arith,
  )
  Changes-IsSound frames _ _ (not_queued i elsewhere) = (sound, omega arith)
  Changes-IsSound frames _ _ (not_woken i) = (sound, omega arith)
  Changes-IsSound frames _ _ (not_sent id elsewhere) = (sound, omega arith)

-- The messages accepted for each node so far, in the order in which they were queued, and those
-- released to it.
pub record Ledger : Type 0 where
  pub accepted : ℕ → List Message
  pub released : ℕ → List Message

module _ (frames : List ℕ → List Frame) (n : ℕ) where
  -- What the i-th handler adds for the r-th node when it queues its message.
  abbrev pub accepts_from : System → Option Handler → ℕ → List Message
  accepts_from s (some (numbered m)) r =
      if passes n s.manager (ends m) && (ends m).receiver == r then translate frames m ∷ [] else []
  accepts_from s (some (waiting m)) r = []
  accepts_from s (some (resumed m)) r = []
  accepts_from s none r = []

  abbrev pub accepts : System → Act → ℕ → List Message
  accepts s (queues i) r = accepts_from s (get_elem? s.handlers i) r
  accepts s (begins payload port) r = []
  accepts s (wakes i) r = []
  accepts s (sends id) r = []
  accepts s (isolates id) r = []

  abbrev pub releases : System → Act → ℕ → List Message
  releases s (sends id) r = front_with id (queue_of s.manager.message_queues r)
  releases s (begins payload port) r = []
  releases s (queues i) r = []
  releases s (wakes i) r = []
  releases s (isolates id) r = []

  unfoldable pub act_logged : System → Ledger → List Act → Outcome (System × Ledger)
  act_logged s l [] = ok (s, l)
  act_logged s l (a ∷ acts) = do
    s' ← act frames s a
    act_logged s'
        (record {
          accepted = λ r. l.accepted r ++ accepts s a r;
          released = λ r. l.released r ++ releases s a r;
        })
        acts

not_queued-accepts :
    (frames : List ℕ → List Frame) (n : ℕ) (s : System) (o : Option Handler) (r : ℕ)
    → ((m : Message) → o ≢ some (numbered m))
    → accepts_from frames n s o r ≡ []
not_queued-accepts frames n s (some (numbered m)) r elsewhere = absurd (elsewhere m refl)
not_queued-accepts frames n s (some (waiting m)) r elsewhere = refl
not_queued-accepts frames n s (some (resumed m)) r elsewhere = refl
not_queued-accepts frames n s none r elsewhere = refl

-- One step moves the line of the r-th node by what it accepts and releases.
Changes-line :
    (frames : List ℕ → List Frame) {n : ℕ} {s : System}
    → IsSound n s
    → (a : Act) (s' : System) → Changes frames n s a s'
    → (r : ℕ) → r < n
    → queue_of s.manager.message_queues r ++ accepts frames n s a r
      ≡ releases frames n s a r ++ queue_of s'.manager.message_queues r
Changes-line frames sound _ _ (began payload port) r lr = append-nil _
Changes-line frames {n} {s} sound _ _ (has_queued i m here) r lr =
    rw here (queued-line sound.consistent (ends m) (translate frames m) r lr)
Changes-line frames sound _ _ (has_woken i m here closed) r lr = append-nil _
Changes-line frames {n} {s} sound _ _ (has_sent x m rest nm lx front a) r lr = rw a.queues (
    released-line s.manager.message_queues sound.consistent.apart x m rest
      (omega (arith, sound.consistent.queue_count)) front r)
Changes-line frames sound _ _ (has_cut id router square) r lr = append-nil _
Changes-line frames {n} {s} sound _ _ (not_queued i elsewhere) r lr =
    rw (not_queued-accepts frames n s (get_elem? s.handlers i) r elsewhere) (append-nil _)
Changes-line frames sound _ _ (not_woken i) r lr = append-nil _
Changes-line frames {n} {s} sound _ _ (not_sent id elsewhere) r lr =
    append-nil _
    ∙ ap (λ l. l ++ queue_of s.manager.message_queues r)
        (sym (
          other_front id (queue_of s.manager.message_queues r) (
            get_or-All (λ (mq : MessageQueue). HeadOther id mq.list) s.manager.message_queues r
              none_queued tt elsewhere)))

-- For each node, what was accepted for it is what was released to it followed by what still waits.
pub record IsOrdered (n : ℕ) (s : System) (l : Ledger) : Type 0 where
  pub sound : IsSound n s
  pub order : (r : ℕ) → r < n → l.accepted r ≡ l.released r ++ queue_of s.manager.message_queues r

append_shift :
    (released waits accepted new gone waits' : List Message)
    → accepted ≡ released ++ waits
    → waits ++ new ≡ gone ++ waits'
    → accepted ++ new ≡ (released ++ gone) ++ waits'
append_shift released waits accepted new gone waits' order line =
    rw order (simp append_assoc (rw line))

module _ (frames : List ℕ → List Frame) {n : ℕ} where
  -- Handlers that begin, queue their messages and go on, the engine's releases and its isolations, in
  -- any interleaving: each step returns while fewer than 2^64 messages are numbered; no two messages
  -- share a number or a channel, in a queue or on the way to one; no handler passes its request
  -- on before its message is released; and for each node what was queued is what was released to it, in
  -- this order, followed by what waits.
  pub act_logged-IsOrdered :
      (acts : List Act) (s : System) (l : Ledger)
      → All (IsInside n) acts
      → s.manager.index + length acts < 2 ^ 64
      → IsOrdered n s l
      → Returns (act_logged frames n s l acts) (λ end. IsOrdered n end.0 end.1)
  unfolding act_logged
  act_logged-IsOrdered [] s l inside small h = h
  act_logged-IsOrdered (a ∷ acts) s l inside small h =
      Returns-bind _ _ (Changes frames n s a) _
        (act-Changes frames h.sound a inside.0 (omega arith))
        λ s' c.
          let next = Changes-IsSound h.sound frames a s' c in
          act_logged-IsOrdered acts s' _ inside.1 (omega (arith, next.1)) (record {
            sound = next.0;
            order = λ r lr.
                append_shift (l.released r) (queue_of s.manager.message_queues r) (l.accepted r)
                  (accepts frames n s a r) (releases frames n s a r)
                  (queue_of s'.manager.message_queues r) (h.order r lr)
                  (Changes-line frames h.sound a s' c r lr);
          })
