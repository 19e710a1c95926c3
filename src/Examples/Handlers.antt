-- ===== src/Examples/Handlers.antt =====
-- Two nodes and their handlers: a request on its way, one that is dropped, and two that overtake each
-- other.
use dstest.Prelude.{
  ℕ, zero, suc, ◌≡◌, ◌<◌, refl, true, false, List, [], ◌∷◌, some, length, get_elem?, arith, Returns,
  All,
}
use dstest.Network.Message.{Message, bytes, framer, other}
use dstest.Network.Router.Cells.{row}
use dstest.Network.Translator.{translate, read_name, header_name, path_name}
use dstest.Network.Manager.{Manager, pair_of}
use dstest.Network.Manager.Pending.{queue_of}
use dstest.Network.Manager.Arrival.{request}
use dstest.Network.Manager.Ports.{pair}
use dstest.Network.Handlers.{
  System, Act, begins, queues, wakes, sends, isolates, numbered, waiting, resumed, act_all,
}
use dstest.Network.Handlers.Invariant.{IsSound}
use dstest.Network.Handlers.Changes.{IsInside}
use dstest.Network.Handlers.Order.{Ledger, IsOrdered, act_logged, act_logged-IsOrdered}
use dstest.Network.Handlers.Blocked.{dropped_waits, front_resumes}
use dstest.Network.Handlers.Pairs.{act_all-overtaken}
use dstest.Examples.Messages.{
  frames, idle, one_waiting, idle-IsConsistent, one_waiting-IsConsistent,
}

abbrev no_handlers : System
no_handlers = record { manager = idle; handlers = [] }

no_handlers-IsSound : IsSound 2 no_handlers
no_handlers-IsSound = record {
  consistent = idle-IsConsistent;
  apart = tt;
  fresh = tt;
  routed = tt;
  released = tt;
}

abbrev nothing_yet : Ledger
nothing_yet = record { accepted = λ r. []; released = λ r. [] }

idle_lines : (r : ℕ) → [] ≡ queue_of idle.message_queues r
idle_lines zero = refl
idle_lines (suc zero) = refl
idle_lines (suc (suc r)) = refl

-- Two requests to node 1 overtake each other, one is released, and node 0 is isolated before a third
-- is queued.
abbrev acts : List Act
acts =
    begins (bytes []) 9001
    ∷ begins framer 9001
    ∷ queues 1
    ∷ queues 0
    ∷ sends 2
    ∷ wakes 1
    ∷ wakes 0
    ∷ begins other 9002
    ∷ isolates 0
    ∷ queues 2
    ∷ []

acts-IsInside : All (IsInside 2) acts
acts-IsInside = (tt, (tt, (tt, (tt, (tt, (tt, (tt, (tt, (omega arith, (tt, tt))))))))))

act_logged-IsOrdered_example :
    Returns (act_logged frames 2 no_handlers nothing_yet acts) (λ end. IsOrdered 2 end.0 end.1)
act_logged-IsOrdered_example =
    act_logged-IsOrdered frames acts no_handlers nothing_yet acts-IsInside (omega arith)
      (record { sound = no_handlers-IsSound; order = λ r lr. idle_lines r })

-- A request that came to a port of no pair, from node 0 to itself, with node 0 cut off.
abbrev cut_off : Manager
cut_off = record idle {
  router = record { routing_table = (false ∷ false ∷ []) ∷ (false ∷ true ∷ []) ∷ [] };
  index = 1;
  heap = 1;
}

abbrev one_numbered : System
one_numbered = record {
  manager = cut_off;
  handlers = numbered (request (bytes []) (pair 0 1) idle) ∷ [];
}

cut_off_widths : (x : ℕ) → x < 2 → length (row cut_off.router.routing_table x) ≡ 2
cut_off_widths zero lx = refl
cut_off_widths (suc zero) lx = refl
cut_off_widths (suc (suc x)) lx = absurd (omega arith)

one_numbered-IsSound : IsSound 2 one_numbered
one_numbered-IsSound = record {
  consistent = record {
    queue_count = refl;
    square = record { height = refl; widths = cut_off_widths };
    apart = tt;
    waiting = tt;
    closed = tt;
    addressed = idle-IsConsistent.addressed;
  };
  apart = (tt, tt);
  fresh = (record { numbered = omega arith; allocated = omega arith; is_open = refl }, tt);
  routed = (record { from = refl; to = refl }, tt);
  released = (tt, tt);
}

dropped_waits_example :
    Returns
      (act_all frames one_numbered (queues 0 ∷ sends 1 ∷ wakes 0 ∷ []))
      (λ end. get_elem? end.handlers 0 ≡ some (waiting (request (bytes []) (pair 0 1) idle)))
dropped_waits_example =
    dropped_waits frames one_numbered-IsSound 0 (request (bytes []) (pair 0 1) idle) refl
      (sends 1 ∷ wakes 0 ∷ []) refl (tt, (tt, tt)) (omega arith)

abbrev one_blocked : System
one_blocked = record {
  manager = one_waiting;
  handlers = waiting (request (bytes []) (pair 0 1) idle) ∷ [];
}

one_blocked-IsSound : IsSound 2 one_blocked
one_blocked-IsSound = record {
  consistent = one_waiting-IsConsistent;
  apart = one_waiting-IsConsistent.apart;
  fresh = tt;
  routed = tt;
  released = (tt, tt);
}

front_resumes_example : Returns (act_all frames one_blocked (sends 1 ∷ wakes 0 ∷ [])) (λ end.
    (get_elem? end.handlers 0 ≡ some (resumed (request (bytes []) (pair 0 1) idle)))
    × (queue_of end.manager.message_queues 1 ≡ [])
    × IsSound 2 end)
unfolding translate read_name header_name path_name
front_resumes_example =
    front_resumes frames one_blocked 0 1 (request (bytes []) (pair 0 1) idle) [] one_blocked-IsSound
      (omega arith) refl refl

act_all-overtaken_example :
    Returns
      (act_all frames no_handlers
        (begins (bytes []) 9001 ∷ begins framer 9001 ∷ queues 1 ∷ queues 0 ∷ []))
      (λ end.
        (first : Message) × (second : Message) × (queue_of end.manager.message_queues 1
          ≡ first ∷ second ∷ [])
        × (first.message_id ≡ 2)
        × (second.message_id ≡ 1))
unfolding pair_of
act_all-overtaken_example =
    act_all-overtaken frames (bytes []) framer 9001 9001 no_handlers no_handlers-IsSound
      (omega arith) refl refl refl
