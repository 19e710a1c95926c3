-- ===== src/Network/Manager/Fixed.antt =====
-- What requests and releases leave alone: the interceptors and the counter of their wait group.
use dstest.Prelude.{ℕ, ◌≡◌, ◌||◌, List, ok, >>=-eq-ok, if-eq, inl, inr, at, put, arith}
use dstest.Network.Message.{Message, Payload}
use dstest.Network.Queue.{push_back}
use dstest.Network.Translator.{Frame, translate}
use dstest.Network.Router.{invalid, has_connectivity}
use dstest.Network.Manager.{
  Manager, make_message, queue_message, intercept, release, send_message_by_id, generate_unique_id,
}

pub record Untouched (nm nm' : Manager) : Type 0 where
  pub interceptors : nm'.interceptors ≡ nm.interceptors
  pub wait_group : nm'.wait_group ≡ nm.wait_group

queue_message-Untouched :
    (frames : List ℕ → List Frame) (nm nm' : Manager) (m : Message)
    → queue_message frames nm m ≡ ok nm'
    → Untouched nm nm'
unfolding queue_message
queue_message-Untouched frames nm nm' m e =
    let tm = translate frames m in
    let table = nm.router.routing_table in
    elim (if-eq (invalid tm.sender table || invalid tm.receiver table) _ _ _ e) [
      | inl (ignored, same) ↦ record { interceptors = ground arith; wait_group = ground arith }
      | inr (valid, rest) ↦
          let (connected, _, rest') =
            >>=-eq-ok (has_connectivity nm.router tm.sender tm.receiver) _ rest in
          elim (if-eq connected _ _ _ rest') [
            | inr (dropped, same) ↦ record {
              interceptors = ground arith;
              wait_group = ground arith;
            }
            | inl (passed, queueing) ↦
                let (queue, _, e1) = >>=-eq-ok (at nm.message_queues tm.receiver) _ queueing in
                let (queues, _, same) =
                  >>=-eq-ok (put nm.message_queues tm.receiver (push_back queue tm)) _ e1 in
                record { interceptors = ground arith; wait_group = ground arith }
          ]
    ]

pub intercept-Untouched :
    (frames : List ℕ → List Frame) (payload : Payload) (port : ℕ) (nm nm' : Manager)
    → intercept frames payload port nm ≡ ok nm'
    → Untouched nm nm'
unfolding intercept make_message generate_unique_id
intercept-Untouched frames payload port nm nm' e =
    let u = queue_message-Untouched frames _ nm' _ e in
    record { interceptors = u.interceptors; wait_group = u.wait_group }

pub send_message-Untouched :
    (nm nm' : Manager) (id : ℕ) → send_message_by_id nm id ≡ ok nm' → Untouched nm nm'
unfolding send_message_by_id
send_message-Untouched nm nm' id e =
    let ((queues, closed), _, same) = >>=-eq-ok (release id nm.message_queues nm.channels) _ e in
    record { interceptors = ground arith; wait_group = ground arith }
