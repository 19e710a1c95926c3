-- ===== src/Network/Handlers/Pairs.antt =====
-- The calls of two handlers interleaved.
use mathlib.Core.List.{append_assoc}
use dstest.Prelude.{
  ℕ, ◌+◌, ◌^◌, ◌≡◌, ◌<◌, ◌∙◌, sym, refl, true, List, [], ◌∷◌, ◌++◌, some, length, length-append,
  get_elem?-set_ne, get_elem?-append, get_elem?, get_elem?-append_last, arith, Returns, ap,
}
use dstest.Network.Message.{Message, Payload}
use dstest.Network.Translator.{Frame, translate}
use dstest.Network.Manager.{pair_of}
use dstest.Network.Manager.Pending.{queue_of}
use dstest.Network.Manager.Arrival.{request}
use dstest.Network.Manager.Queueing.{passes, translate_keeps}
use dstest.Network.Handlers.{numbered, waiting, System, begins, queues, act, act_all}
use dstest.Network.Handlers.Invariant.{IsSound, ends}
use dstest.Network.Manager.History.{queued-line}
use dstest.Network.Handlers.Steps.{
  begun, begin-eq, queued_state, queue-eq, begun-IsSound, queued_state-IsSound,
}

-- A message that the router lets through is last in its receiver's line.
last_in_line :
    (frames : List ℕ → List Frame) {n : ℕ} {s : System} (i : ℕ) (m : Message) (r : ℕ)
    → IsSound n s
    → passes n s.manager (ends m) ≡ true
    → (ends m).receiver ≡ r
    → queue_of (queued_state frames n s i m).manager.message_queues r
      ≡ queue_of s.manager.message_queues r ++ translate frames m ∷ []
last_in_line frames {n} {s} i m r sound let_through to =
    let line = queued-line {nm = s.manager} sound.consistent (ends m) (translate frames m) in
    ground (arith, let_through, to, line r (ground (arith, to)))

module _ (frames : List ℕ → List Frame) {n : ℕ} where
  -- Of two requests for one node that the router lets through, the one with the larger number is
  -- ahead in the node's line if its handler is the first to queue: the lines are in the order of the calls
  -- of `QueueMessage`, which need not be the order of the numbers.
  pub act_all-overtaken :
      (a b : Payload) (port_a port_b : ℕ) (s : System)
      → IsSound n s
      → s.manager.index + 2 < 2 ^ 64
      → passes n s.manager (pair_of s.manager port_a) ≡ true
      → passes n s.manager (pair_of s.manager port_b) ≡ true
      → (pair_of s.manager port_a).receiver ≡ (pair_of s.manager port_b).receiver
      → Returns
          (act_all frames s (
            begins a port_a
            ∷ begins b port_b
            ∷ queues (length s.handlers + 1)
            ∷ queues (length s.handlers)
            ∷ []))
          (λ end.
            (first : Message) × (second : Message) × (queue_of end.manager.message_queues
                (pair_of s.manager port_a).receiver
              ≡ queue_of s.manager.message_queues (pair_of s.manager port_a).receiver
                ++ first ∷ second ∷ [])
            × (first.message_id ≡ s.manager.index + 2)
            × (second.message_id ≡ s.manager.index + 1))
  unfolding act_all act pair_of
  act_all-overtaken a b port_a port_b s sound small pass_a pass_b same =
      rw (begin-eq a port_a s (omega arith)) (
        rw (begin-eq b port_b s1 (omega arith)) (
          rw (queue-eq sound2 frames (length s.handlers + 1) mb here_b) (
            rw (queue-eq sound3 frames (length s.handlers) ma here_a) (
              translate frames mb,
              translate frames ma,
              last_in_line frames (length s.handlers) ma _ sound3 pass_a refl
                  ∙ ap (λ l. l ++ translate frames ma ∷ [])
                      (last_in_line frames (length s.handlers + 1) mb _ sound2 pass_b (sym same))
                  ∙ append_assoc
                      (queue_of s.manager.message_queues (pair_of s.manager port_a).receiver)
                      (translate frames mb ∷ []) (translate frames ma ∷ []),
              (translate_keeps frames mb).2 ∙ omega arith,
              (translate_keeps frames ma).2,
            ))))
    where
      ma : Message
      ma = request a (pair_of s.manager port_a) s.manager

      s1 : System
      s1 = begun a port_a s

      in_front : length s.handlers + 1 ≡ length s1.handlers
      in_front = omega (arith, length-append s.handlers (numbered ma ∷ []))

      mb : Message
      mb = request b (pair_of s1.manager port_b) s1.manager

      s2 : System
      s2 = begun b port_b s1

      sound2 : IsSound n s2
      sound2 = begun-IsSound (begun-IsSound sound a port_a) b port_b

      here_b : get_elem? s2.handlers (length s.handlers + 1) ≡ some (numbered mb)
      here_b = rw in_front (get_elem?-append_last s1.handlers (numbered mb) [])

      sound3 : IsSound n (queued_state frames n s2 (length s.handlers + 1) mb)
      sound3 = queued_state-IsSound sound2 frames (length s.handlers + 1) mb here_b

      here_a :
          get_elem?
            (queued_state frames n s2 (length s.handlers + 1) mb).handlers
            (length s.handlers)
          ≡ some (numbered ma)
      here_a =
          get_elem?-set_ne s2.handlers (length s.handlers + 1) (length s.handlers) (waiting mb)
            (λ e. omega arith)
          ∙ get_elem?-append s1.handlers (numbered mb ∷ []) (length s.handlers) (numbered ma)
              (get_elem?-append_last s.handlers (numbered ma) [])
