-- ===== src/Network/Message.antt =====
-- cmd/dstest/network/Message.go: messages, and the channel that releases one.
use dstest.Prelude.{
  ℕ, ◌==◌, ◌||◌, Bool, false, List, [], ◌∷◌, Outcome, ok, panic, close_of_closed_channel, ℤ,
  if◌then◌else◌,
}
use dstest.Prelude.Text.{Text, codes}

-- What `Payload any` holds: bytes, an http2.Framer, or a value of another type (`Http2CPayload`).
pub data Payload : Type 0 where
  bytes : List ℕ → Payload
  framer : Payload
  other : Payload

-- `address` is the identity of the struct that a `*Message` points to, and `send` that of the channel
-- made for it. Nothing writes to a message that has been queued.
pub record Message : Type 0 where
  pub address : ℕ
  pub sender : ℤ
  pub receiver : ℤ
  pub payload : Payload
  pub type : Text
  pub name : Text
  pub message_id : ℕ
  pub send : ℕ

abbrev pub grpc : Text
grpc = codes "GRPC"

-- The channels that are closed.
abbrev pub Channels : Type 0
Channels = List ℕ

abbrev pub is_closed : ℕ → Channels → Bool
is_closed c [] = false
is_closed c (d ∷ closed) = d == c || is_closed c closed

-- `close(m.Send)`: a channel that is closed already panics.
unfoldable pub send_message : Message → Channels → Outcome Channels
send_message m closed =
    if is_closed m.send closed then panic close_of_closed_channel else ok (m.send ∷ closed)
