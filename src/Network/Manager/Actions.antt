-- ===== src/Network/Manager/Actions.antt =====
-- `GetActions` answers the fronts of the queues; how many messages wait as the queues grow and shrink.
use dstest.Prelude.{
  ℕ, zero, suc, ◌≡◌, ◌<◌, ◌≤◌, refl, ap, List, [], ◌∷◌, ◌++◌, some, length, length-append,
  get_elem?, set, arith,
}
use dstest.Network.Message.{Message}
use dstest.Network.Queue
use dstest.Network.Queue.{MessageQueue}
use dstest.Network.Manager.{get_actions}
use dstest.Network.Manager.Pending.{pending, queue_of, before, behind, pending-split, pending-set}

-- The r-th queue begins with the message.
pub record Front (queues : List MessageQueue) (m : Message) : Type 0 where
  pub r : ℕ
  pub rest : List Message
  pub inside : r < length queues
  pub begins : queue_of queues r ≡ m ∷ rest

-- A message in one more queue.
further :
    (mq : MessageQueue) (queues : List MessageQueue) (m : Message)
    → Front queues m
    → Front (mq ∷ queues) m
further mq queues m f = record {
  r = suc f.r;
  rest = f.rest;
  inside = let inside = f.inside in omega arith;
  begins = f.begins;
}

-- The k-th action, which is a front.
abbrev pub ActionAt : List MessageQueue → ℕ → Type 0
ActionAt queues k = (m : Message) × (get_elem? (get_actions queues) k ≡ some m) × Front queues m

first_queue :
    (line : List Message) (queues : List MessageQueue) (k : ℕ)
    → k < length (get_actions (record { list = line } ∷ queues))
    → ((j : ℕ) → j < length (get_actions queues) → ActionAt queues j)
    → ActionAt (record { list = line } ∷ queues) k
unfolding get_actions Queue.peek
first_queue [] queues k h others =
    let (m, e, f) = others k h in (m, e, further (record { list = [] }) queues m f)
first_queue (m ∷ rest) queues zero h others =
    (m, refl, record { r = 0; rest = rest; inside = omega arith; begins = refl })
first_queue (x ∷ rest) queues (suc k) h others =
    let (m, e, f) = others k (omega arith) in
    (m, e, further (record { list = x ∷ rest }) queues m f)

-- Every action is the front of a queue.
pub get_actions-Front :
    (queues : List MessageQueue) (k : ℕ) → k < length (get_actions queues) → ActionAt queues k
unfolding get_actions
get_actions-Front [] k h = absurd (omega arith)
get_actions-Front (mq ∷ queues) k h = first_queue mq.list queues k h (get_actions-Front queues)

some_front :
    (line : List Message) (queues : List MessageQueue)
    → 0 < length (line ++ pending queues)
    → (0 < length (pending queues) → 0 < length (get_actions queues))
    → 0 < length (get_actions (record { list = line } ∷ queues))
unfolding get_actions Queue.peek
some_front [] queues h others = others h
some_front (m ∷ rest) queues h others = omega arith

-- Where a message waits there is an action.
pub get_actions_some :
    (queues : List MessageQueue) → 0 < length (pending queues) → 0 < length (get_actions queues)
get_actions_some [] h = absurd (omega arith)
get_actions_some (mq ∷ queues) h = some_front mq.list queues h (get_actions_some queues)

-- Queues that are as long or longer hold as many messages or more.
pub pending_le :
    (queues queues' : List MessageQueue)
    → length queues ≡ length queues'
    → ((r : ℕ) → r < length queues → length (queue_of queues r) ≤ length (queue_of queues' r))
    → length (pending queues) ≤ length (pending queues')
pending_le [] queues' e h = omega arith
pending_le (mq ∷ queues) [] e h = absurd (omega arith)
pending_le (mq ∷ queues) (mq' ∷ queues') e h =
    let rest = pending_le queues queues' (omega arith) (λ r lr. h (suc r) (omega arith)) in
    let first = h 0 (omega arith) in
    let count = length-append mq.list (pending queues) in
    let count' = length-append mq'.list (pending queues') in omega arith

-- Without its front a queue holds one message less.
pub pending-release :
    (queues : List MessageQueue) (r : ℕ) (m : Message) (rest : List Message)
    → r < length queues
    → queue_of queues r ≡ m ∷ rest
    → suc (length (pending (set queues r (record { list = rest })))) ≡ length (pending queues)
pending-release queues r m rest lr front =
    let all = ap length (pending-split queues r lr) in
    let left = ap length (pending-set queues r (record { list = rest }) lr) in
    let first = length-append (before queues r) (queue_of queues r ++ behind queues r) in
    let first' = length-append (before queues r) (rest ++ behind queues r) in
    let last = length-append (queue_of queues r) (behind queues r) in
    let last' = length-append rest (behind queues r) in let one = ap length front in omega arith
