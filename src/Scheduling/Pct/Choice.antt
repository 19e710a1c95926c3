-- ===== src/Scheduling/Pct/Choice.antt =====
-- `PCT.Next`: which message it chooses, and when it panics.
use dstest.Prelude.{
  ℕ, zero, suc, ◌+◌, ◌==◌, ◌≡◌, ◌≢◌, ◌<◌, ◌≤◌, refl, ◌∙◌, ap, ltb, Bool, false, ◌&&◌, List, [], ◌∷◌,
  some, Outcome, ok, panic, index_out_of_range, ◌>>=◌, ℤ, pos, minus_one, eq_ℤ, eq_ℤ_iff, length,
  get_elem?, get_elem?_out, get_or, at, at-lt, for_each, if◌then◌else◌, arith, Bool-cases, inl, inr,
  Returns, Returns-bind, Returns-map, ◌⊎◌, lt→ltb,
}
use dstest.Prelude.Machine.{Floats, Generator}
use dstest.Network.Message.{Message}
use dstest.Scheduling.Decision.{SchedulerDecision, nothing, sending}
use dstest.Scheduling.Pct.{choose, Pct, advance, decide_by, next}

-- No message of the list is from the sender.
abbrev pub NoneFrom : ℕ → List Message → Type 0
NoneFrom p messages = (j : ℕ) (m : Message) → get_elem? messages j ≡ some m → m.sender ≢ pos p

-- The k-th message is from the sender, and no later one is.
pub record IsLast (p : ℕ) (messages : List Message) (k : ℕ) : Type 0 where
  pub message : Message
  pub found : get_elem? messages k ≡ some message
  pub sender : message.sender ≡ pos p
  pub latest : (j : ℕ) (m : Message) → k < j → get_elem? messages j ≡ some m → m.sender ≢ pos p

-- What the loop answers from the index `i` on, with the answer `before` so far.
abbrev Answer : ℕ → ℕ → List Message → ℤ → ℤ → Type 0
Answer p i messages before d =
    ((d ≡ before) × NoneFrom p messages) ⊎ ((k : ℕ) × (d ≡ pos (i + k)) × IsLast p messages k)

abbrev body : List ℕ → ℕ → ℕ → Message → ℤ → Outcome ℤ
body priorities num i message decision = do
  priority ← at priorities (pos num)
  ok (if eq_ℤ message.sender (pos priority) then pos i else decision)

later-Answer :
    (p i : ℕ) (m : Message) (messages : List Message) (before d : ℤ)
    → Answer p (i + 1) messages (if eq_ℤ m.sender (pos p) then pos i else before) d
    → Answer p i (m ∷ messages) before d
later-Answer p i m messages before d (inr (k, e, last)) = inr (
  suc k,
  e ∙ ap pos (omega arith),
  record {
    message = last.message;
    found = last.found;
    sender = last.sender;
    latest = λ j m' lt at_j. beyond j m' lt at_j;
  },
)
  where
    beyond :
        (j : ℕ) (m' : Message)
        → suc k < j
        → get_elem? (m ∷ messages) j ≡ some m'
        → m'.sender ≢ pos p
    beyond zero m' lt at_j = absurd (omega arith)
    beyond (suc j) m' lt at_j = last.latest j m' (omega arith) at_j
later-Answer p i m messages before d (inl (e, absent)) = elim (Bool-cases (eq_ℤ m.sender (pos p))) [
  | inl hit ↦ inr (
    0,
    (rw hit at e) ∙ ap pos (omega arith),
    record {
      message = m;
      found = refl;
      sender = (eq_ℤ_iff m.sender (pos p)).0 hit;
      latest = beyond;
    },
  )
  | inr miss ↦ inl (rw miss at e, none_at miss)
]
  where
    beyond :
        (j : ℕ) (m' : Message) → 0 < j → get_elem? (m ∷ messages) j ≡ some m' → m'.sender ≢ pos p
    beyond zero m' lt at_j = absurd (omega arith)
    beyond (suc j) m' lt at_j = absent j m' at_j

    none_at : eq_ℤ m.sender (pos p) ≡ false → NoneFrom p (m ∷ messages)
    none_at miss zero m' at_j = ground (arith, at_j, miss, eq_ℤ_iff m.sender (pos p))
    none_at miss (suc j) m' at_j = absent j m' at_j

choose_from :
    (priorities : List ℕ) (num p i : ℕ) (messages : List Message) (before : ℤ)
    → at priorities (pos num) ≡ ok p
    → Returns (for_each i messages (body priorities num) before) (Answer p i messages before)
unfolding for_each
choose_from priorities num p i [] before e = inl (refl, λ j m h. cc)
choose_from priorities num p i (m ∷ messages) before e = rw e (
    Returns-map _ (Answer p (i + 1) messages (if eq_ℤ m.sender (pos p) then pos i else before)) _
      (choose_from priorities num p (i + 1) messages
        (if eq_ℤ m.sender (pos p) then pos i else before) e)
      (λ d a. later-Answer p i m messages before d a))

module _ (fl : Floats) (g : Generator fl.F) where
  -- The points and the priorities fit the counters, and the depth is below the number of priorities.
  pub record IsReady (s : Pct fl g) : Type 0 where
    pub points : length s.priority_change_points ≡ s.depth
    pub priorities : s.depth < length s.initial_priorities
    pub counted : s.num_priority_change ≤ s.depth

  -- The priority moves on when its point has come.
  abbrev pub is_point : Pct fl g → Bool
  is_point s = s.step == get_or s.priority_change_points s.num_priority_change 0

  abbrev pub moved_on : Pct fl g → ℕ
  moved_on s =
      if ltb s.num_priority_change s.depth && is_point s
      then s.num_priority_change + 1
      else s.num_priority_change

  -- The decision: the last message from the sender of the priority, or nothing if there is none.
  abbrev pub Decided : ℕ → List Message → SchedulerDecision → Type 0
  Decided p messages d =
      ((d ≡ nothing) × NoneFrom p messages) ⊎ ((k : ℕ) × (d ≡ sending k) × IsLast p messages k)

  advance-eq :
      (s : Pct fl g)
      → IsReady s
      → advance fl g s ≡ ok (record s { num_priority_change = moved_on s })
  unfolding advance
  advance-eq s r = elim (Bool-cases (ltb s.num_priority_change s.depth)) [
    | inl open_points ↦
        ground
          (arith, at-lt s.priority_change_points s.num_priority_change 0 (ground (arith, r.points)))
    | inr done ↦ ground arith
  ]

  moved_on_le : (s : Pct fl g) → IsReady s → moved_on s ≤ s.depth
  moved_on_le s r = ground (arith, r.counted)

  pub record Chosen (messages : List Message) (s : Pct fl g) (result : SchedulerDecision × Pct fl g)
      : Type 0 where
    pub ready : IsReady result.1
    pub num : result.1.num_priority_change ≡ moved_on s
    pub step : result.1.step ≡ (if ltb 0 (length messages) then s.step + 1 else s.step)
    pub points : result.1.priority_change_points ≡ s.priority_change_points
    pub depth : result.1.depth ≡ s.depth
    pub order : result.1.initial_priorities ≡ s.initial_priorities
    pub decided : Decided (get_or s.initial_priorities (moved_on s) 0) messages result.0

  -- With a depth below the number of priorities `Next` never panics: it chooses the last message of
  -- the replica that has the priority, or nothing if that replica has none; the priority moves on exactly
  -- at the next change point, each call with a message counts, and points, depth and priorities stay.
  pub next-Chosen :
      (messages : List Message) (s : Pct fl g)
      → IsReady s
      → Returns (next fl g messages s) (Chosen messages s)
  unfolding next choose
  next-Chosen [] s r = rw (advance-eq s r) (record {
    ready = record { points = r.points; priorities = r.priorities; counted = moved_on_le s r };
    num = refl;
    step = refl;
    points = refl;
    depth = refl;
    order = refl;
    decided = inl (refl, λ j m h. cc);
  })
  next-Chosen (m ∷ messages) s r =
      let current = get_or s.initial_priorities (moved_on s) 0 in
      let some_message = lt→ltb 0 (suc (length messages)) (omega arith) in
      let in_list : moved_on s < length s.initial_priorities =
        omega (arith, moved_on_le s r, r.priorities) in
      rw (advance-eq s r) (
        rw some_message (
          Returns-bind _ _ (Answer current 0 (m ∷ messages) minus_one) _
            (choose_from s.initial_priorities (moved_on s) current 0 (m ∷ messages) minus_one
              (at-lt s.initial_priorities (moved_on s) 0 in_list))
            λ d a. record {
              ready = record {
                points = r.points;
                priorities = r.priorities;
                counted = moved_on_le s r;
              };
              num = refl;
              step = rw some_message;
              points = refl;
              depth = refl;
              order = refl;
              decided = decided current d a;
            }))
    where
      decided :
          (p : ℕ) (d : ℤ)
          → Answer p 0 (m ∷ messages) minus_one d
          → Decided p (m ∷ messages) (decide_by d)
      decided p d (inl (e, absent)) = inl (ap decide_by e, absent)
      decided p d (inr (k, e, last)) = inr (k, ap decide_by e ∙ ap sending (omega arith), last)

  -- Once the counter is past the last priority, `Next` panics at any message.
  next_past_priorities :
      (m : Message) (messages : List Message) (s : Pct fl g)
      → s.depth ≤ s.num_priority_change
      → length s.initial_priorities ≤ s.num_priority_change
      → next fl g (m ∷ messages) s ≡ panic index_out_of_range
  unfolding next advance choose for_each
  next_past_priorities m messages s done past =
      ground (arith, get_elem?_out s.initial_priorities s.num_priority_change past)
