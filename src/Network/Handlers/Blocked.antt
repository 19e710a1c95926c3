-- ===== src/Network/Handlers/Blocked.antt =====
-- When a handler gets past its wait, and when it never does.
use dstest.Prelude.{
  ℕ, ◌+◌, ◌^◌, ◌≡◌, ◌≢◌, ◌<◌, ◌∙◌, sym, inl, inr, true, false, List, [], ◌∷◌, ◌++◌, some, length,
  get_elem?, set, get_elem?-set_self, get_elem?-set_ne, get_elem?-lt, get_elem?-append, All,
  All-append, arith, Returns, Returns-bind, Returns-map, Returns-ok,
}
use dstest.Network.Message.{Message, is_closed}
use dstest.Network.Translator.{Frame, translate}
use dstest.Network.Manager.Pending.{
  pending, queue_of, before, behind, pending-split, pending-set, Differ, All-middle, All-insert,
  All-map, All-left, All-right,
}
use dstest.Network.Manager.Queueing.{passes, translate_keeps}
use dstest.Network.Manager.Delivery.{Released, send_message-front}
use dstest.Network.Handlers.{
  numbered, waiting, resumed, System, Act, queues, wakes, sends, act, act_all,
}
use dstest.Network.Handlers.Invariant.{
  unqueued, ends, IsSound, unqueued-append, unqueued-Taken, unqueued-set,
}
use dstest.Network.Handlers.Steps.{
  queued_state, placed, waits, others, away, queue-eq, queued_state-IsSound, wake-eq, woken-IsSound,
}
use dstest.Network.Handlers.Changes.{
  Changes, began, has_queued, has_woken, has_sent, has_cut, not_queued, not_woken, not_sent,
  IsInside, act-Changes,
}
use dstest.Network.Handlers.Order.{has_sent-IsSound, Changes-IsSound}
use dstest.Network.Manager.Heads.{queue_of-set_self}

abbrev Elsewhere : ℕ → Message → Type 0
Elsewhere c x = x.send ≢ c

-- The i-th handler waits for a channel that is open, and no message that is in a queue, or will
-- be, has this channel.
record IsBlocked (i : ℕ) (m : Message) (s : System) : Type 0 where
  here : get_elem? s.handlers i ≡ some (waiting m)
  still_open : is_closed m.send s.manager.channels ≡ false
  allocated : m.send < s.manager.heap
  outside : All (Elsewhere m.send) (unqueued s.handlers)
  gone : All (Elsewhere m.send) (pending s.manager.message_queues)

module _ {n : ℕ} {s : System} (sound : IsSound n s) (i : ℕ) (m : Message)
    (b : IsBlocked i m s) where
  -- Another handler moves: a message leaves those that are in no queue, for a queue or for nowhere.
  has_queued-IsBlocked :
      (frames : List ℕ → List Frame) (j : ℕ) (x : Message)
      → get_elem? s.handlers j ≡ some (numbered x)
      → IsBlocked i m (queued_state frames n s j x)
  has_queued-IsBlocked frames j x there =
      let t = unqueued-Taken s.handlers j x there in
      let parts = All-middle (Elsewhere m.send) t.ahead x t.back (rw t.old at b.outside) in
      record {
        here =
            get_elem?-set_ne s.handlers j i (waiting x)
              (λ e. let both = rw e at there in let own = b.here in cc)
            ∙ b.here;
        still_open = b.still_open;
        allocated = b.allocated;
        outside = rw t.new parts.1;
        gone = elim (placed sound frames j x there) [
          | inl same ↦ rw same b.gone
          | inr pl ↦ rw pl.new (
              All-insert (Elsewhere m.send) pl.ahead (translate frames x) pl.back
                (λ e. parts.0 (sym (translate_keeps frames x).3 ∙ e)) (rw pl.old at b.gone))
        ];
      }

  Changes-IsBlocked :
      (frames : List ℕ → List Frame) (a : Act) (s' : System)
      → Changes frames n s a s'
      → IsBlocked i m s'
  Changes-IsBlocked frames _ _ (began payload port) = record {
    here = get_elem?-append s.handlers _ i (waiting m) b.here;
    still_open = b.still_open;
    allocated = let l = b.allocated in omega arith;
    outside = rw unqueued-append (
        All-append (Elsewhere m.send) (unqueued s.handlers) _ b.outside
          ((λ e. let l = b.allocated in omega arith), tt));
    gone = b.gone;
  }
  Changes-IsBlocked frames _ _ (has_queued j x there) = has_queued-IsBlocked frames j x there
  Changes-IsBlocked frames _ _ (has_woken j x there closed) = record {
    here =
        get_elem?-set_ne s.handlers j i (resumed x)
          (λ e. let both = rw e at there in let own = b.here in let unlike = b.still_open in cc)
        ∙ b.here;
    still_open = b.still_open;
    allocated = b.allocated;
    outside = rw (unqueued-set s.handlers j x there) b.outside;
    gone = b.gone;
  }
  Changes-IsBlocked frames _ _ (has_sent r x rest nm lr front a) =
      let inside : r < length s.manager.message_queues =
        omega (arith, sound.consistent.queue_count) in
      let parts =
        All-middle (Elsewhere m.send) (before s.manager.message_queues r) x
          (rest ++ behind s.manager.message_queues r)
          (rw (pending-split s.manager.message_queues r inside, front) at b.gone) in
      record {
        here = b.here;
        still_open = rw a.channels (ground (arith, parts.0, b.still_open));
        allocated = rw a.heap b.allocated;
        outside = b.outside;
        gone =
            rw (a.queues, pending-set s.manager.message_queues r (record { list = rest }) inside)
              parts.1;
      }
  Changes-IsBlocked frames _ _ (has_cut id router square) = record {
    here = b.here;
    still_open = b.still_open;
    allocated = b.allocated;
    outside = b.outside;
    gone = b.gone;
  }
  Changes-IsBlocked frames _ _ (not_queued j other) = b
  Changes-IsBlocked frames _ _ (not_woken j) = b
  Changes-IsBlocked frames _ _ (not_sent id other) = b

module _ (frames : List ℕ → List Frame) {n : ℕ} where
  act_all-IsBlocked :
      (acts : List Act) (s : System) (i : ℕ) (m : Message)
      → All (IsInside n) acts
      → s.manager.index + length acts < 2 ^ 64
      → IsSound n s
      → IsBlocked i m s
      → Returns (act_all frames s acts) (IsBlocked i m)
  unfolding act_all
  act_all-IsBlocked [] s i m inside small sound b = b
  act_all-IsBlocked (a ∷ acts) s i m inside small sound b =
      Returns-bind _ _ (Changes frames n s a) _ (act-Changes frames sound a inside.0 (omega arith))
        λ s' c.
          let next = Changes-IsSound sound frames a s' c in
          act_all-IsBlocked acts s' i m inside.1 (omega (arith, next.1)) next.0
            (Changes-IsBlocked sound i m b frames a s' c)

  module _ {s : System} (sound : IsSound n s) (i : ℕ) (m : Message)
      (here : get_elem? s.handlers i ≡ some (numbered m)) where
    dropped-IsBlocked :
        passes n s.manager (ends m) ≡ false → IsBlocked i m (queued_state frames n s i m)
    dropped-IsBlocked dropped = rw dropped (record {
      here = get_elem?-set_self s.handlers i (waiting m) (get_elem?-lt s.handlers i _ here);
      still_open = (waits sound frames i m here).is_open;
      allocated = (waits sound frames i m here).allocated;
      outside = All-left (Elsewhere m.send) (unqueued (set s.handlers i (waiting m))) _ away_from;
      gone = All-right (Elsewhere m.send) (unqueued (set s.handlers i (waiting m))) _ away_from;
    })
      where
        away_from : All (Elsewhere m.send) (others sound frames i m here)
        away_from =
            All-map (Differ m) (Elsewhere m.send) _ (λ x d e. d.channels (sym e))
              (away sound frames i m here).0

    -- A handler whose message the router drops when it is queued waits for ever: whatever the handlers
    -- and the engine do next, each step returns and it is still at its wait.
    pub dropped_waits :
        (acts : List Act)
        → passes n s.manager (ends m) ≡ false
        → All (IsInside n) acts
        → s.manager.index + length acts < 2 ^ 64
        → Returns
            (act_all frames s (queues i ∷ acts))
            (λ end. get_elem? end.handlers i ≡ some (waiting m))
    unfolding act_all act
    dropped_waits acts dropped inside small = rw (queue-eq sound frames i m here) (
        Returns-map _ (IsBlocked i m) _
          (act_all-IsBlocked acts _ i m inside small (queued_state-IsSound sound frames i m here)
            (dropped-IsBlocked dropped))
          λ end b. b.here)

  -- A handler goes on once the engine has sent its message, which was at the front of a queue.
  pub front_resumes :
      (s : System) (i r : ℕ) (m : Message) (rest : List Message)
      → IsSound n s
      → r < n
      → get_elem? s.handlers i ≡ some (waiting m)
      → queue_of s.manager.message_queues r ≡ translate frames m ∷ rest
      → Returns (act_all frames s (sends m.message_id ∷ wakes i ∷ [])) (λ end.
        (get_elem? end.handlers i ≡ some (resumed m))
        × (queue_of end.manager.message_queues r ≡ rest)
        × IsSound n end)
  unfolding act_all act
  front_resumes s i r m rest sound lr here front =
      let keeps = translate_keeps frames m in
      let (nm, e, a) =
        Returns-ok _ (Released n s.manager r (translate frames m) rest)
          (send_message-front sound.consistent r (translate frames m) rest lr front) in
      let next = has_sent-IsSound sound r (translate frames m) rest nm lr front a in
      let closed : is_closed m.send nm.channels ≡ true = rw (a.channels, keeps.3) (ground arith) in
      rw (rw keeps.2 at e) (
        rw (wake-eq next i m here closed) (
          get_elem?-set_self s.handlers i (resumed m) (get_elem?-lt s.handlers i _ here),
          rw a.queues (
              queue_of-set_self s.manager.message_queues r (record { list = rest })
                (omega (arith, sound.consistent.queue_count))),
          woken-IsSound next i m here closed,
        ))
