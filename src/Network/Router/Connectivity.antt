-- ===== src/Network/Router/Connectivity.antt =====
-- What the router promises: a relation between the nodes. `Connects n f r` says that among `n` nodes
-- `r` lets a message from `x` to `y` pass exactly when `f x y` is true.
use dstest.Prelude.{
  ℕ, zero, suc, get_elem?_out, ◌+◌, ◌≡◌, ◌<◌, ◌∙◌, ap, refl, ◌&&◌, ◌||◌, Bool, true, false, [], ok,
  panic, index_out_of_range, ℤ, pos, negsuc, length, get_or, set, length-set, length-replicate,
  get_or-set_self, get_or-set_ne, at-lt, put-lt, ltb, ◌==◌, if◌then◌else◌, Returns, Returns-map,
  Returns-bind, for_range, for_range-Returns, arith, ℕ_discrete, replicate,
}
use dstest.Network.Router.{
  Table, Router, set_cell, fill_cells, make_row, init, cut, invalid, has_connectivity, isolate_node,
  reset_partitions,
}
use dstest.Network.Router.Cells.{
  row, cell, HasRows, IsSquare, Cells, Written, set_cell-Returns, Rows, fill_row-Returns,
  fill_cells-Returns,
}

pub record Connects (n : ℕ) (f : ℕ → ℕ → Bool) (r : Router) : Type 0 where
  pub square : IsSquare n r.routing_table
  pub cells : Cells n f r.routing_table

-- For two nodes of the table `has_connectivity` answers by the relation that the table stands for.
pub has_connectivity-Connects :
    {n : ℕ} {f : ℕ → ℕ → Bool} {r : Router}
    → Connects n f r
    → (x y : ℕ) → x < n
    → y < n
    → has_connectivity r (pos x) (pos y) ≡ ok (f x y)
unfolding has_connectivity
has_connectivity-Connects {r} c x y lx ly = ground (
  arith,
  c.square.height,
  c.square.widths x lx,
  c.cells x y lx ly,
  at-lt r.routing_table x [] (omega (arith, c.square.height)),
  at-lt (row r.routing_table x) y false (omega (arith, c.square.widths x lx)),
)

-- Any other pair of numbers counts as connected; the lookup never panics.
pub has_connectivity-invalid :
    (r : Router) (x y : ℤ)
    → (invalid x r.routing_table || invalid y r.routing_table) ≡ true
    → has_connectivity r x y ≡ ok true
unfolding has_connectivity
has_connectivity-invalid r x y h = ground arith

-- The table of a new router, row by row.
init_row :
    (n i : ℕ) (t : Table)
    → i < n
    → HasRows n i t × ((x y : ℕ) → x < i → y < n → cell t x y ≡ true)
    → HasRows n (i + 1) (set t i (replicate n false))
      × ((x y : ℕ) → x < i → y < n → cell (set t i (replicate n false)) x y ≡ true)
init_row n i t li (rows, above) = (
  record {
    height = length-set t i _ ∙ rows.height;
    widths = λ x lx. elim (ℕ_discrete i x) [
      | yes e ↦ rw (← e) (
          ap length (get_or-set_self t i (replicate n false) [] (omega (arith, rows.height)))
          ∙ length-replicate n false)
      | no e ↦
          ap length (get_or-set_ne t i x (replicate n false) [] e) ∙ rows.widths x (omega arith)
    ];
  },
  λ x y lx ly.
      ap (λ l. get_or l y false) (get_or-set_ne t i x (replicate n false) [] (λ e. omega arith))
      ∙ above x y lx ly,
)

abbrev Made : ℕ → ℕ → Table → Type 0
Made n i t = HasRows n i t × ((x y : ℕ) → x < i → y < n → cell t x y ≡ true)

make_row-Returns :
    (n i : ℕ) (t : Table) → i < n → Made n i t → Returns (make_row n i t) (Made n (i + 1))
unfolding make_row
make_row-Returns n i t li p = rw (put-lt t i (replicate n false) (omega (arith, p.0.height))) (
    fill_row-Returns {m = i + 1} (omega arith) (λ i j. ok true) (λ i j. true) (λ i j li lj. refl) i
      (set t i (replicate n false)) (omega arith) (init_row n i t li p))

-- A new router connects every node with every node.
pub init-Returns : (n : ℕ) → Returns (init n) (Connects n (λ x y. true))
unfolding init
init-Returns n =
    Returns-bind _ _
      (Rows {n = n} {m = n} (omega arith) (λ i j. ok true) (λ i j. true) (λ i j li lj. refl) n) _
      (for_range-Returns (Made n) (make_row n) n (λ i t li p. make_row-Returns n i t li p) n 0
        (replicate n []) (omega arith)
        (
          record { height = length-replicate n []; widths = λ x lx. absurd (omega arith) },
          λ x y lx ly. absurd (omega arith),
        ))
      (λ t (sq, cs). record { square = sq; cells = cs })

-- The rounds below `i` have cut both cells that they name.
abbrev Cut : (ℕ → ℕ → Bool) → ℕ → ℕ → ℕ → Table → Type 0
Cut f a n i t =
    IsSquare n t
    × ((x y : ℕ)
        → x < n
        → y < n
        → cell t x y ≡ (if (x == a && ltb y i) || (y == a && ltb x i) then false else f x y))

cut-Returns :
    (f : ℕ → ℕ → Bool) (a n i : ℕ) (t : Table)
    → a < n
    → i < n
    → Cut f a n i t
    → Returns (cut (pos a) i t) (Cut f a n (i + 1))
unfolding cut
cut-Returns f a n i t la li (sq, cs) =
    Returns-bind _ _ (Written n n t a i false) _
      (set_cell-Returns t a i false sq la (omega arith) li)
      λ t' (sq', ws).
        Returns-map _ (Written n n t' i a false) _
          (set_cell-Returns t' i a false sq' li (omega arith) la)
          λ t'' (sq'', ws'). (sq'', λ x y lx ly. ground (arith, cs x y lx ly, ws x y, ws' x y))

-- Isolating a node of the table cuts it off in both directions, from itself too, and leaves the other
-- pairs alone.
pub isolate_node-Returns :
    {n : ℕ} {f : ℕ → ℕ → Bool} {r : Router}
    → Connects n f r
    → (a : ℕ) → a < n
    → Returns
        (isolate_node r (pos a))
        (Connects n (λ x y. if x == a || y == a then false else f x y))
unfolding isolate_node
isolate_node-Returns {n} {f} {r} c a la = rw c.square.height (
    Returns-bind _ _ (Cut f a n n) _
      (for_range-Returns (Cut f a n) (cut (pos a)) n (λ i t li p. cut-Returns f a n i t la li p) n 0
        r.routing_table (omega arith) (c.square, λ x y lx ly. ground (arith, c.cells x y lx ly)))
      (λ t (sq, cs). record { square = sq; cells = λ x y lx ly. ground (arith, cs x y lx ly) }))

cut-invalid :
    (rounds i : ℕ) (node : ℤ) (t : Table)
    → 0 < rounds
    → invalid node t ≡ true
    → for_range rounds i (cut node) t ≡ panic index_out_of_range
unfolding for_range cut set_cell
cut-invalid zero i node t h e = absurd (omega arith)
cut-invalid (suc rounds) i (pos a) t h e = rw (get_elem?_out t a (ground arith))
cut-invalid (suc rounds) i (negsuc a) t h e = refl

-- Isolating a node that is not in a non-empty table panics.
pub isolate_node-invalid :
    (r : Router) (node : ℤ)
    → 0 < length r.routing_table
    → invalid node r.routing_table ≡ true
    → isolate_node r node ≡ panic index_out_of_range
unfolding isolate_node
isolate_node-invalid r node h i =
    rw (cut-invalid (length r.routing_table) 0 node r.routing_table h i)

-- After a reset of a square table every node is connected with every node.
reset_partitions-Returns :
    {n : ℕ} {f : ℕ → ℕ → Bool} {r : Router}
    → Connects n f r
    → Returns (reset_partitions r) (Connects n (λ x y. true))
unfolding reset_partitions
reset_partitions-Returns {n} {r} c = rw c.square.height (
    Returns-bind (fill_cells n (λ i j. ok true) r.routing_table) _
      (λ t. IsSquare n t × Cells n (λ x y. true) t) (Connects n (λ x y. true))
      (fill_cells-Returns (λ i j. ok true) (λ i j. true) (λ i j li lj. refl) r.routing_table
        c.square)
      (λ t (sq, cs). record { square = sq; cells = cs }))
