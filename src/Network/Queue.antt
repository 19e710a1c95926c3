-- ===== src/Network/Queue.antt =====
-- cmd/dstest/network/messagequeue.go: a queue of messages behind a mutex. Each method is one critical
-- section, and so one step here.
use dstest.Prelude.{
  ℕ, ◌==◌, List, [], ◌∷◌, ◌++◌, Option, none, some, Outcome, ok, panic, nil_dereference,
  type_assertion, length, if◌then◌else◌,
}
use dstest.Network.Message.{Message}

pub record MessageQueue : Type 0 where
  pub list : List Message

unfoldable pub init : MessageQueue
init = record { list = [] }

unfoldable pub push_back : MessageQueue → Message → MessageQueue
push_back mq m = record { list = mq.list ++ m ∷ [] }

pop_list : List Message → Outcome (Message × MessageQueue)
pop_list [] = panic nil_dereference
pop_list (m ∷ rest) = ok (m, record { list = rest })

-- `List.Remove(nil)` follows the nil pointer.
unfoldable pub pop_front : MessageQueue → Outcome (Message × MessageQueue)
unfolding pop_list
pop_front mq = pop_list mq.list

unfoldable pub len : MessageQueue → ℕ
len mq = length mq.list

remove_first : ℕ → List Message → List Message
remove_first a [] = []
remove_first a (m ∷ rest) = if m.address == a then rest else m ∷ remove_first a rest

-- The elements are compared as pointers.
unfoldable pub remove : MessageQueue → Message → MessageQueue
unfolding remove_first
remove mq m = record { list = remove_first m.address mq.list }

front : List Message → Option Message
front [] = none
front (m ∷ rest) = some m

unfoldable pub peek : MessageQueue → Option Message
unfolding front
peek mq = front mq.list

print_list : List Message → Outcome (Unit {0})
print_list [] = ok tt
print_list (m ∷ rest) = panic type_assertion

-- The loop asserts that each element is a `Message`, and the elements are of type `*Message`.
unfoldable pub print : MessageQueue → Outcome (Unit {0})
unfolding print_list
print mq = print_list mq.list
