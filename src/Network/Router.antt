-- ===== src/Network/Router.antt =====
-- cmd/dstest/network/router.go: which node may send to which, as a square table.
pub mod Cells
pub mod Connectivity
pub mod Visits
pub mod Partitions
use dstest.Prelude.{
  ℕ, ◌||◌, Bool, true, false, List, [], Outcome, ok, fatal, ◌>>=◌, ℤ, pos, minus_one, ltb_ℤ, leb_ℤ,
  eq_ℤ, not, length, replicate, at, put, for_range, for_each, if◌then◌else◌,
}

abbrev pub Table : Type 0
Table = List (List Bool)

pub record Router : Type 0 where
  pub routing_table : Table

-- `t[i][j] = v`
unfoldable pub set_cell : Table → ℤ → ℤ → Bool → Outcome Table
set_cell t i j v = do row ← at t i; row' ← put row j v; put t i row'

-- `for i … { for j … { t[i][j] = f(i, j) } }`
unfoldable pub fill_cells : ℕ → (ℕ → ℕ → Outcome Bool) → Table → Outcome Table
fill_cells n f = for_range n 0 λ i. for_range n 0 λ j t. f i j >>= λ v. set_cell t (pos i) (pos j) v

-- `r.RoutingTable[i] = make([]bool, n)`, and the loop that sets the row to true.
unfoldable pub make_row : ℕ → ℕ → Table → Outcome Table
make_row num_replicas i t = do
  t' ← put t (pos i) (replicate num_replicas false)
  for_range num_replicas 0 (λ j s. set_cell s (pos i) (pos j) true) t'

unfoldable pub init : ℕ → Outcome Router
init num_replicas = do
  table ← for_range num_replicas 0 (make_row num_replicas) (replicate num_replicas [])
  ok (record { routing_table = table })

abbrev pub invalid : ℤ → Table → Bool
invalid node t = ltb_ℤ node (pos 0) || leb_ℤ (pos (length t)) node

unfoldable pub has_connectivity : Router → ℤ → ℤ → Outcome Bool
has_connectivity r from to =
    if invalid from r.routing_table || invalid to r.routing_table
    then ok true
    else (do row ← at r.routing_table from; at row to)

unfoldable pub cut : ℤ → ℕ → Table → Outcome Table
cut node i t = do t' ← set_cell t node (pos i) false; set_cell t' (pos i) node false

unfoldable pub isolate_node : Router → ℤ → Outcome Router
isolate_node r node = do
  table ← for_range (length r.routing_table) 0 (cut node) r.routing_table
  ok (record { routing_table = table })

-- The checks and the write for one node of the partition with this index.
unfoldable pub visit : ℕ → ℕ → ℤ → List ℤ → Outcome (List ℤ)
visit num_replicas index node visited =
    if ltb_ℤ node (pos 0) || leb_ℤ (pos num_replicas) node then fatal else (do
      seen ← at visited node
      if not (eq_ℤ seen minus_one) then fatal else put visited node (pos index))

unfoldable pub visit_partitions : ℕ → List (List ℤ) → Outcome (List ℤ)
visit_partitions num_replicas partitions =
    for_each 0 partitions
      (λ index partition. for_each 0 partition (λ _ node. visit num_replicas index node))
      (replicate num_replicas minus_one)

unfoldable pub create_partitions : Router → List (List ℤ) → Outcome Router
create_partitions r partitions = do
  visited ← visit_partitions (length r.routing_table) partitions
  table ←
      fill_cells (length r.routing_table)
        (λ i j. do a ← at visited (pos i); b ← at visited (pos j); ok (eq_ℤ a b)) r.routing_table
  ok (record { routing_table = table })

unfoldable pub reset_partitions : Router → Outcome Router
reset_partitions r = do
  table ← fill_cells (length r.routing_table) (λ i j. ok true) r.routing_table
  ok (record { routing_table = table })
