-- ===== src/Network/Manager/Pending.antt =====
-- The messages that wait in the queues, as one list, and how a list of messages stays free of
-- duplicates.
use mathlib.Core.List.{append_assoc}
use dstest.Prelude.{
  ℕ, zero, suc, ◌≡◌, ◌≢◌, ◌<◌, refl, List, [], ◌∷◌, ◌++◌, length, get_or, set, All, arith, sym,
}
use dstest.Network.Message.{Message}
use dstest.Network.Queue.{MessageQueue}

abbrev pub none_queued : MessageQueue
none_queued = record { list = [] }

abbrev pub pending : List MessageQueue → List Message
pending [] = []
pending (mq ∷ queues) = mq.list ++ pending queues

abbrev pub queue_of : List MessageQueue → ℕ → List Message
queue_of queues r = (get_or queues r none_queued).list

-- The waiting messages of the queues before the r-th, and of those behind it.
abbrev pub before : List MessageQueue → ℕ → List Message
before [] r = []
before (mq ∷ queues) zero = []
before (mq ∷ queues) (suc r) = mq.list ++ before queues r

abbrev pub behind : List MessageQueue → ℕ → List Message
behind [] r = []
behind (mq ∷ queues) zero = pending queues
behind (mq ∷ queues) (suc r) = behind queues r

pub pending-split :
    (queues : List MessageQueue) (r : ℕ)
    → r < length queues
    → pending queues ≡ before queues r ++ (queue_of queues r ++ behind queues r)
pending-split [] r h = elim h [ ]
pending-split (mq ∷ queues) zero h = refl
pending-split (mq ∷ queues) (suc r) h = simp (pending-split queues r (omega arith), append_assoc)

pub pending-set :
    (queues : List MessageQueue) (r : ℕ) (mq : MessageQueue)
    → r < length queues
    → pending (set queues r mq) ≡ before queues r ++ (mq.list ++ behind queues r)
pending-set [] r mq h = elim h [ ]
pending-set (q ∷ queues) zero mq h = refl
pending-set (q ∷ queues) (suc r) mq h = simp (pending-set queues r mq (omega arith), append_assoc)

-- Two messages differ in number and in channel.
pub record Differ (m m' : Message) : Type 0 where
  pub numbers : m.message_id ≢ m'.message_id
  pub channels : m.send ≢ m'.send

Differ-sym : (m m' : Message) → Differ m m' → Differ m' m
Differ-sym m m' d = record { numbers = λ e. d.numbers (sym e); channels = λ e. d.channels (sym e) }

abbrev pub Apart : List Message → Type 0
Apart [] = Unit
Apart (m ∷ l) = All (Differ m) l × Apart l

pub All-middle {ℓ} :
    {A : Type ℓ} (P : A → Type 0) (xs : List A) (x : A) (ys : List A)
    → All P (xs ++ x ∷ ys)
    → P x × All P (xs ++ ys)
All-middle P [] x ys h = h
All-middle P (z ∷ xs) x ys h = let (p, rest) = All-middle P xs x ys h.1 in (p, (h.0, rest))

pub All-insert {ℓ} :
    {A : Type ℓ} (P : A → Type 0) (xs : List A) (x : A) (ys : List A)
    → P x
    → All P (xs ++ ys)
    → All P (xs ++ x ∷ ys)
All-insert P [] x ys p h = (p, h)
All-insert P (z ∷ xs) x ys p h = (h.0, All-insert P xs x ys p h.1)

pub Apart-middle :
    (xs : List Message) (m : Message) (ys : List Message)
    → Apart (xs ++ m ∷ ys)
    → All (Differ m) (xs ++ ys) × Apart (xs ++ ys)
Apart-middle [] m ys h = h
Apart-middle (x ∷ xs) m ys h =
    let (d, rest) = All-middle (Differ x) xs m ys h.0 in
    let (away, apart) = Apart-middle xs m ys h.1 in ((Differ-sym x m d, away), (rest, apart))

pub Apart-insert :
    (xs : List Message) (m : Message) (ys : List Message)
    → All (Differ m) (xs ++ ys)
    → Apart (xs ++ ys)
    → Apart (xs ++ m ∷ ys)
Apart-insert [] m ys d h = (d, h)
Apart-insert (x ∷ xs) m ys d h =
    (All-insert (Differ x) xs m ys (Differ-sym m x d.0) h.0, Apart-insert xs m ys d.1 h.1)

pub All-map {ℓ} :
    {A : Type ℓ} (P Q : A → Type 0) (xs : List A) → ((x : A) → P x → Q x) → All P xs → All Q xs
All-map P Q [] f h = tt
All-map P Q (x ∷ xs) f h = (f x h.0, All-map P Q xs f h.1)

pub All-both {ℓ} :
    {A : Type ℓ} (P Q : A → Type 0) (xs : List A) → All P xs → All Q xs → All (λ x. P x × Q x) xs
All-both P Q [] h k = tt
All-both P Q (x ∷ xs) h k = ((h.0, k.0), All-both P Q xs h.1 k.1)

-- The parts of two lists of messages.
pub Apart-right : (xs ys : List Message) → Apart (xs ++ ys) → Apart ys
Apart-right [] ys h = h
Apart-right (x ∷ xs) ys h = Apart-right xs ys h.1

pub All-right {ℓ} : {A : Type ℓ} (P : A → Type 0) (xs ys : List A) → All P (xs ++ ys) → All P ys
All-right P [] ys h = h
All-right P (x ∷ xs) ys h = All-right P xs ys h.1

pub All-left {ℓ} : {A : Type ℓ} (P : A → Type 0) (xs ys : List A) → All P (xs ++ ys) → All P xs
All-left P [] ys h = tt
All-left P (x ∷ xs) ys h = (h.0, All-left P xs ys h.1)
