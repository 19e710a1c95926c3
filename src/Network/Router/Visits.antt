-- ===== src/Network/Router/Visits.antt =====
-- The checks of `CreatePartitions`, against a direct description: which node is in which part.
use dstest.Prelude.{
  ℕ, ◌+◌, ◌≡◌, ◌<◌, ◌∙◌, refl, ◌&&◌, ◌||◌, not, Bool, true, false, List, [], ◌∷◌, ◌++◌, Outcome, ok,
  fatal, ℤ, pos, negsuc, minus_one, length, get_or, set, length-set, get_or-set_self, get_or-set_ne,
  at-lt, put-lt, eq_ℤ, eq_ℤ_iff, ltb, inl, inr, ◌==◌, if◌then◌else◌, Returns, Returns-map,
  Returns-ok, Returns-bind, for_each, arith, ℕ_discrete, Bool-cases,
}
use dstest.Network.Router.{visit}

abbrev pub member : ℤ → List ℤ → Bool
member x [] = false
member x (y ∷ l) = eq_ℤ y x || member x l

abbrev pub flat : List (List ℤ) → List ℤ
flat [] = []
flat (p ∷ ps) = p ++ flat ps

-- Every node of the list is one of `n` nodes, none is among `seen`, and none comes twice.
abbrev pub acceptable : ℕ → List ℤ → List ℤ → Bool
acceptable n seen [] = true
acceptable n seen (negsuc k ∷ l) = false
acceptable n seen (pos a ∷ l) =
    ltb a n && not (member (pos a) seen) && acceptable n (pos a ∷ seen) l

-- The number of the first part that holds the node, counted from `k`; -1 if there is none.
abbrev pub part_of : ℕ → ℤ → List (List ℤ) → ℤ
part_of k x [] = minus_one
part_of k x (p ∷ ps) = if member x p then pos k else part_of (k + 1) x ps

abbrev pub mark : List ℤ → ℕ → ℤ
mark v x = get_or v x minus_one

-- `visited` is -1 exactly at the nodes that are not among `seen`.
pub record Tracks (n : ℕ) (seen : List ℤ) (v : List ℤ) : Type 0 where
  pub size : length v ≡ n
  pub marks : (x : ℕ) → x < n → eq_ℤ (mark v x) minus_one ≡ not (member (pos x) seen)

abbrev with_seen : List ℤ → List ℤ → List ℤ
with_seen [] seen = seen
with_seen (x ∷ p) seen = with_seen p (x ∷ seen)

member-with_seen :
    (x : ℤ) (p seen : List ℤ) → member x (with_seen p seen) ≡ (member x p || member x seen)
member-with_seen x [] seen = refl
member-with_seen x (y ∷ p) seen = ground (arith, member-with_seen x p (y ∷ seen))

pub member-append : (x : ℤ) (p q : List ℤ) → member x (p ++ q) ≡ (member x p || member x q)
member-append x [] q = refl
member-append x (y ∷ p) q = ground (arith, member-append x p q)

acceptable-append :
    (n : ℕ) (seen p q : List ℤ)
    → acceptable n seen (p ++ q) ≡ (acceptable n seen p && acceptable n (with_seen p seen) q)
acceptable-append n seen [] q = refl
acceptable-append n seen (pos a ∷ p) q = ground (arith, acceptable-append n (pos a ∷ seen) p q)
acceptable-append n seen (negsuc a ∷ p) q = refl

-- What is seen does not come again.
acceptable_fresh :
    (n : ℕ) (seen l : List ℤ) (x : ℕ)
    → acceptable n seen l ≡ true
    → member (pos x) seen ≡ true
    → member (pos x) l ≡ false
acceptable_fresh n seen [] x h s = refl
acceptable_fresh n seen (pos a ∷ l) x h s =
    ground (arith, acceptable_fresh n (pos a ∷ seen) l x, eq_ℤ_iff (pos a) (pos x))
acceptable_fresh n seen (negsuc a ∷ l) x h s = cc

-- The result of a visit to one node.
visit_ok :
    (n k a : ℕ) (seen v : List ℤ)
    → Tracks n seen v
    → a < n
    → member (pos a) seen ≡ false
    → visit n k (pos a) v ≡ ok (set v a (pos k))
unfolding visit
visit_ok n k a seen v t la fresh = ground (
  arith,
  t.marks a la,
  at-lt v a minus_one (omega (arith, t.size)),
  put-lt v a (pos k) (omega (arith, t.size)),
)

visit_fatal :
    (n k : ℕ) (x : ℤ) (seen v : List ℤ)
    → Tracks n seen v
    → acceptable n seen (x ∷ []) ≡ false
    → visit n k x v ≡ fatal
unfolding visit
visit_fatal n k (negsuc a) seen v t h = ground arith
visit_fatal n k (pos a) seen v t h = elim (Bool-cases (ltb a n)) [
  | inl low ↦ ground (arith, t.marks a (ground arith), at-lt v a minus_one (ground (arith, t.size)))
  | inr high ↦ ground arith
]

set-Tracks :
    (n k a : ℕ) (seen v : List ℤ)
    → Tracks n seen v
    → a < n
    → Tracks n (pos a ∷ seen) (set v a (pos k))
set-Tracks n k a seen v t la = record {
  size = length-set v a _ ∙ t.size;
  marks = λ x lx. elim (ℕ_discrete a x) [
    | yes e ↦
        rw (← e) (ground (arith, get_or-set_self v a (pos k) minus_one (omega (arith, t.size))))
    | no e ↦ ground (arith, get_or-set_ne v a x (pos k) minus_one e, t.marks x lx)
  ];
}

-- What the loop over one part leaves: its nodes are marked with its number.
pub record Marked (n k : ℕ) (p seen v v' : List ℤ) : Type 0 where
  pub tracks : Tracks n (with_seen p seen) v'
  pub values : (x : ℕ) → x < n → mark v' x ≡ (if member (pos x) p then pos k else mark v x)

mark-set :
    (n k a : ℕ) (seen v : List ℤ) (x : ℕ)
    → Tracks n seen v
    → a < n
    → mark (set v a (pos k)) x ≡ (if a == x then pos k else mark v x)
mark-set n k a seen v x t la = elim (ℕ_discrete a x) [
  | yes e ↦ rw (← e) (get_or-set_self v a (pos k) minus_one (omega (arith, t.size)) ∙ ground arith)
  | no e ↦ get_or-set_ne v a x (pos k) minus_one e ∙ ground arith
]

abbrev pub visit_part : ℕ → ℕ → ℕ → List ℤ → List ℤ → Outcome (List ℤ)
visit_part n k i p v = for_each i p (λ _ node. visit n k node) v

visit_part-Returns :
    (n k i : ℕ) (p seen v : List ℤ)
    → Tracks n seen v
    → acceptable n seen p ≡ true
    → Returns (visit_part n k i p v) (Marked n k p seen v)
unfolding for_each
visit_part-Returns n k i [] seen v t h = record { tracks = t; values = λ x lx. refl }
visit_part-Returns n k i (negsuc a ∷ p) seen v t h = absurd (cc)
visit_part-Returns n k i (pos a ∷ p) seen v t h =
    let la : a < n = ground arith in
    rw (visit_ok n k a seen v t la (ground arith)) (
      Returns-map _ (Marked n k p (pos a ∷ seen) (set v a (pos k))) _
        (visit_part-Returns n k (i + 1) p (pos a ∷ seen) (set v a (pos k))
          (set-Tracks n k a seen v t la) (ground arith))
        λ v' m. record {
          tracks = m.tracks;
          values = λ x lx. ground (arith, m.values x lx, mark-set n k a seen v x t la);
        })

visit_part_fatal :
    (n k i : ℕ) (p seen v : List ℤ)
    → Tracks n seen v
    → acceptable n seen p ≡ false
    → visit_part n k i p v ≡ fatal
unfolding for_each
visit_part_fatal n k i [] seen v t h = cc
visit_part_fatal n k i (negsuc a ∷ p) seen v t h = rw (visit_fatal n k (negsuc a) seen v t refl)
visit_part_fatal n k i (pos a ∷ p) seen v t h = elim (Bool-cases (acceptable n seen (pos a ∷ []))) [
  | inl good ↦
      let la : a < n = ground arith in
      rw (visit_ok n k a seen v t la (ground arith)) (
        visit_part_fatal n k (i + 1) p (pos a ∷ seen) (set v a (pos k))
          (set-Tracks n k a seen v t la) (ground arith))
  | inr bad ↦ rw (visit_fatal n k (pos a) seen v t bad)
]

-- What the loop over all parts leaves.
abbrev pub Parted : ℕ → ℕ → List (List ℤ) → List ℤ → List ℤ → Type 0
Parted n k ps v v' =
    (length v' ≡ n)
    × ((x : ℕ)
        → x < n
        → mark v' x ≡ (if member (pos x) (flat ps) then part_of k (pos x) ps else mark v x))

pub visit_all-Returns :
    (n k : ℕ) (ps : List (List ℤ)) (seen v : List ℤ)
    → Tracks n seen v
    → acceptable n seen (flat ps) ≡ true
    → Returns (for_each k ps (λ k' p. visit_part n k' 0 p) v) (Parted n k ps v)
unfolding for_each
visit_all-Returns n k [] seen v t h = (t.size, λ x lx. refl)
visit_all-Returns n k (p ∷ ps) seen v t h =
    let both = acceptable-append n seen p (flat ps) in
    Returns-bind _ _ (Marked n k p seen v) _ (visit_part-Returns n k 0 p seen v t (ground arith))
      λ v' m.
        Returns-map _ (Parted n (k + 1) ps v') _
          (visit_all-Returns n (k + 1) ps (with_seen p seen) v' m.tracks (ground arith))
          λ v'' (size, values). (
            size,
            λ x lx. ground (
              arith,
              values x lx,
              m.values x lx,
              member-append (pos x) p (flat ps),
              member-with_seen (pos x) p seen,
              acceptable_fresh n (with_seen p seen) (flat ps) x (ground arith),
            ),
          )

pub visit_all_fatal :
    (n k : ℕ) (ps : List (List ℤ)) (seen v : List ℤ)
    → Tracks n seen v
    → acceptable n seen (flat ps) ≡ false
    → for_each k ps (λ k' p. visit_part n k' 0 p) v ≡ fatal
unfolding for_each
visit_all_fatal n k [] seen v t h = cc
visit_all_fatal n k (p ∷ ps) seen v t h = elim (Bool-cases (acceptable n seen p)) [
  | inl good ↦
      let (v', e, m) =
        Returns-ok _ (Marked n k p seen v) (visit_part-Returns n k 0 p seen v t good) in
      rw e (
        visit_all_fatal n (k + 1) ps (with_seen p seen) v' m.tracks
          (let both = acceptable-append n seen p (flat ps) in ground arith))
  | inr bad ↦ rw (visit_part_fatal n k 0 p seen v t bad)
]
