-- ===== src/Network/Router/Partitions.antt =====
-- Network partitions: which nodes may talk after `CreatePartitions`, and which partitions it refuses.
use dstest.Prelude.{
  ℕ, ◌+◌, ◌≡◌, ◌<◌, refl, Bool, true, false, List, [], ◌∷◌, fatal, ℤ, pos, minus_one, length,
  length-replicate, get_or-replicate, at-lt, eq_ℤ, Returns, Returns-map, Returns-bind, arith,
  replicate,
}
use dstest.Network.Router.{visit_partitions, create_partitions, Router}
use dstest.Network.Router.Cells.{IsSquare, Cells, fill_cells-Returns}
use dstest.Network.Router.Connectivity.{Connects}
use dstest.Network.Router.Visits.{
  member, flat, acceptable, part_of, mark, Tracks, member-append, Parted, visit_all-Returns,
  visit_all_fatal,
}

abbrev pub same_part : List (List ℤ) → ℕ → ℕ → Bool
same_part ps x y = eq_ℤ (part_of 0 (pos x) ps) (part_of 0 (pos y) ps)

start-Tracks : (n : ℕ) → Tracks n [] (replicate n minus_one)
start-Tracks n = record {
  size = length-replicate n minus_one;
  marks = λ x lx. ground (arith, get_or-replicate n x minus_one minus_one lx);
}

part_of_absent :
    (k : ℕ) (x : ℤ) (ps : List (List ℤ)) → member x (flat ps) ≡ false → part_of k x ps ≡ minus_one
part_of_absent k x [] h = refl
part_of_absent k x (p ∷ ps) h =
    ground (arith, member-append x p (flat ps), part_of_absent (k + 1) x ps)

-- Each node is marked with its part.
abbrev Parts : ℕ → List (List ℤ) → List ℤ → Type 0
Parts n ps v = (length v ≡ n) × ((x : ℕ) → x < n → mark v x ≡ part_of 0 (pos x) ps)

visit_partitions-Returns :
    (n : ℕ) (ps : List (List ℤ))
    → acceptable n [] (flat ps) ≡ true
    → Returns (visit_partitions n ps) (Parts n ps)
unfolding visit_partitions
visit_partitions-Returns n ps h =
    Returns-map _ (Parted n 0 ps (replicate n minus_one)) _
      (visit_all-Returns n 0 ps [] (replicate n minus_one) (start-Tracks n) h)
      λ v (size, values). (
        size,
        λ x lx. ground (
          arith,
          values x lx,
          get_or-replicate n x minus_one minus_one lx,
          part_of_absent 0 (pos x) ps,
        ),
      )

-- On a square table, partitions that name each of their nodes once, all of them nodes of the router,
-- are accepted: then two nodes are connected exactly when they are in the same part, or both in none.
pub create_partitions-Returns :
    {n : ℕ} {f : ℕ → ℕ → Bool} {r : Router}
    → Connects n f r
    → (ps : List (List ℤ)) → acceptable n [] (flat ps) ≡ true
    → Returns (create_partitions r ps) (Connects n (same_part ps))
unfolding create_partitions
create_partitions-Returns {n} {r} c ps h = rw c.square.height (
    Returns-bind _ _ (Parts n ps) _ (visit_partitions-Returns n ps h) λ v (size, values).
      Returns-bind _ _ (λ t. IsSquare n t × Cells n (same_part ps) t) _
        (fill_cells-Returns _ (same_part ps)
          (λ i j li lj. ground (
            arith,
            values i li,
            values j lj,
            at-lt v i minus_one (omega (arith, size)),
            at-lt v j minus_one (omega (arith, size)),
          ))
          r.routing_table c.square)
        (λ t (sq, cs). record { square = sq; cells = cs }))

-- Partitions that name a node twice, or one that is no node of the router, end the process.
pub create_partitions_fatal :
    {n : ℕ} {f : ℕ → ℕ → Bool} {r : Router}
    → Connects n f r
    → (ps : List (List ℤ)) → acceptable n [] (flat ps) ≡ false
    → create_partitions r ps ≡ fatal
unfolding create_partitions visit_partitions
create_partitions_fatal {n} {r} c ps h =
    rw c.square.height (rw (visit_all_fatal n 0 ps [] (replicate n minus_one) (start-Tracks n) h))
