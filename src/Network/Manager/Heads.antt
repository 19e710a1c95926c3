-- ===== src/Network/Manager/Heads.antt =====
-- The fronts of the queues: at most one of them has a number.
use dstest.Prelude.{
  ℕ, zero, suc, ◌==◌, ◌≡◌, ◌≢◌, ◌<◌, ◌⊎◌, inl, inr, ap, sym, refl, List, [], ◌∷◌, ◌++◌, length,
  get_or, set, get_or-set_self, get_or-set_ne, All, arith, if◌then◌else◌, ℕ_discrete,
}
use dstest.Network.Message.{Message}
use dstest.Network.Queue.{MessageQueue}
use dstest.Network.Manager.Pending.{
  pending, queue_of, none_queued, Apart, Differ, Apart-right, All-left, All-right,
}
use dstest.Network.Manager.Delivery.{HeadOther}

-- The front of a line, if it has the number.
abbrev pub front_with : ℕ → List Message → List Message
front_with id [] = []
front_with id (m ∷ rest) = if m.message_id == id then m ∷ [] else []

-- The queue that begins with the number, if there is one.
abbrev pub Headed : ℕ → List MessageQueue → Type 0
Headed id queues =
    (r : ℕ) × (m : Message) × (rest : List Message) × (r < length queues)
    × (queue_of queues r ≡ m ∷ rest)
    × (m.message_id ≡ id)

head_cases :
    (id : ℕ) (l : List Message)
    → HeadOther id l
      ⊎ ((m : Message) × (rest : List Message) × (l ≡ m ∷ rest) × (m.message_id ≡ id))
head_cases id [] = inl tt
head_cases id (m ∷ l) = elim (ℕ_discrete m.message_id id) [
  | yes e ↦ inr (m, l, refl, e)
  | no e ↦ inl e
]

pub find_head :
    (id : ℕ) (queues : List MessageQueue)
    → All (λ (mq : MessageQueue). HeadOther id mq.list) queues ⊎ Headed id queues
find_head id [] = inl tt
find_head id (mq ∷ queues) = elim (head_cases id mq.list) [
  | inr (m, rest, e, same) ↦ inr (0, m, rest, omega arith, e, same)
  | inl other ↦ elim (find_head id queues) [
    | inl others ↦ inl (other, others)
    | inr (r, m, rest, lr, e, same) ↦ inr (suc r, m, rest, omega arith, e, same)
  ]
]

pub other_front : (id : ℕ) (l : List Message) → HeadOther id l → front_with id l ≡ []
other_front id [] h = refl
other_front id (m ∷ l) h = ground (arith, h)

pub get_or-All {ℓ} :
    {A : Type ℓ} (P : A → Type 0) (xs : List A) (r : ℕ) (d : A) → P d → All P xs → P (get_or xs r d)
get_or-All P [] r d p h = p
get_or-All P (x ∷ xs) zero d p h = h.0
get_or-All P (x ∷ xs) (suc r) d p h = get_or-All P xs r d p h.1

All-queue :
    (P : Message → Type 0) (queues : List MessageQueue) (r : ℕ)
    → All P (pending queues)
    → All P (queue_of queues r)
All-queue P [] r h = tt
All-queue P (mq ∷ queues) zero h = All-left P mq.list (pending queues) h
All-queue P (mq ∷ queues) (suc r) h = All-queue P queues r (All-right P mq.list (pending queues) h)

-- Another queue does not begin with the number of a front.
pub other_heads :
    (queues : List MessageQueue) (r x : ℕ) (m : Message) (rest : List Message)
    → Apart (pending queues)
    → r ≢ x
    → queue_of queues r ≡ m ∷ rest
    → HeadOther m.message_id (queue_of queues x)
other_heads [] r x m rest a ne e = tt
other_heads (mq ∷ queues) zero zero m rest a ne e = absurd (ne refl)
other_heads (mq ∷ queues) zero (suc x) m rest a ne e =
    later (queue_of queues x)
      (All-queue (Differ m) queues x (All-right (Differ m) rest (pending queues) ((rw e at a).0)))
  where
    later : (l : List Message) → All (Differ m) l → HeadOther m.message_id l
    later [] h = tt
    later (m' ∷ l) h = λ same. h.0.numbers (sym same)
other_heads (mq ∷ queues) (suc r) zero m rest a ne e = now mq.list a
  where
    now : (l : List Message) → Apart (l ++ pending queues) → HeadOther m.message_id l
    now [] h = tt
    now (m' ∷ l) h =
        (rw e at
          (All-queue (Differ m') queues r (All-right (Differ m') l (pending queues) h.0))).0.numbers
other_heads (mq ∷ queues) (suc r) (suc x) m rest a ne e =
    other_heads queues r x m rest (Apart-right mq.list (pending queues) a)
      (λ same. ne (ap suc same)) e

pub queue_of-set_self :
    (queues : List MessageQueue) (r : ℕ) (mq : MessageQueue)
    → r < length queues
    → queue_of (set queues r mq) r ≡ mq.list
queue_of-set_self queues r mq lr =
    ap (λ (q : MessageQueue). q.list) (get_or-set_self queues r mq none_queued lr)

pub queue_of-set_ne :
    (queues : List MessageQueue) (r x : ℕ) (mq : MessageQueue)
    → r ≢ x
    → queue_of (set queues r mq) x ≡ queue_of queues x
queue_of-set_ne queues r x mq ne =
    ap (λ (q : MessageQueue). q.list) (get_or-set_ne queues r x mq none_queued ne)
