-- ===== src/Network/Manager/Invariant.antt =====
-- The invariant of a running manager.
use dstest.Prelude.{ℕ, ◌≡◌, ◌<◌, ◌≤◌, false, pos, length, All}
use dstest.Network.Message.{Message, Channels, is_closed}
use dstest.Network.Router.Cells.{IsSquare}
use dstest.Network.Manager.{Manager}
use dstest.Network.Manager.Pending.{pending, queue_of, Apart}

-- A message that waits: numbered, with a channel of its own that is open.
pub record IsWaiting (index heap : ℕ) (channels : Channels) (m : Message) : Type 0 where
  pub numbered : m.message_id ≤ index
  pub allocated : m.send < heap
  pub is_open : is_closed m.send channels ≡ false

pub record IsConsistent (n : ℕ) (nm : Manager) : Type 0 where
  pub queue_count : length nm.message_queues ≡ n
  pub square : IsSquare n nm.router.routing_table
  pub apart : Apart (pending nm.message_queues)
  pub waiting : All (IsWaiting nm.index nm.heap nm.channels) (pending nm.message_queues)
  pub closed : All (λ c. c < nm.heap) nm.channels
  pub addressed : (r : ℕ) → r < n → All (λ m. m.receiver ≡ pos r) (queue_of nm.message_queues r)
