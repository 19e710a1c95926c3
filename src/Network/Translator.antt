-- ===== src/Network/Translator.antt =====
-- cmd/dstest/network/MessageTranslator.go: the name of a gRPC message is the last piece of its path.
-- The http2 framer and the hpack decoder are parameters: `frames` gives the frames that are read from
-- the bytes of a payload before the first error, each header block decoded.
use dstest.Prelude.{List, [], ◌∷◌, ℕ, if◌then◌else◌, Option, none, some}
use dstest.Prelude.Text.{Text, codes, text_eq, split}
use dstest.Network.Message.{Message, bytes, framer, other, grpc}

pub data Frame : Type 0 where
  headers : List (Text × Text) → Frame
  plain : Frame

pub data MessageTranslator : Type 0 where
  grpc_translator : MessageTranslator

-- `none` is the nil interface.
unfoldable pub new_message_translator : Text → Option MessageTranslator
new_message_translator message_type =
    if text_eq message_type grpc then some grpc_translator else none

abbrev last_piece : List Text → Text
last_piece [] = []
last_piece (p ∷ []) = p
last_piece (p ∷ q ∷ rest) = last_piece (q ∷ rest)

unfoldable pub path_name : Text → Text
path_name path = last_piece (split b'/' path)

-- The `range` over the decoded fields.
unfoldable pub header_name : List (Text × Text) → Text → Text
unfolding path_name
header_name [] name = name
header_name ((key, value) ∷ fields) name =
    header_name fields (if text_eq key (codes ":path") then path_name value else name)

-- `for message.Name == ""`: an error of `ReadFrame` ends the loop.
unfoldable pub read_name : List Frame → Text → Text
unfolding header_name
read_name [] name = name
read_name (frame ∷ frames) (c ∷ name) = c ∷ name
read_name (headers fields ∷ frames) [] = read_name frames (header_name fields [])
read_name (plain ∷ frames) [] = read_name frames []

unfoldable pub translate : (List ℕ → List Frame) → Message → Message
unfolding read_name
translate frames m = elim m.payload [
  | bytes p ↦ record m { type = grpc; name = read_name (frames p) m.name }
  | framer ↦ m
  | other ↦ m
]
