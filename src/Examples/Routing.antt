-- ===== src/Examples/Routing.antt =====
-- The router of three nodes: a partition, an isolated node, a refused partition.
use dstest.Prelude.{
  for_range, ◌≡◌, ◌==◌, ◌||◌, refl, true, false, List, [], ◌∷◌, ok, fatal, ℤ, pos, arith, Returns,
  if◌then◌else◌,
}
use dstest.Network.Router
use dstest.Network.Router.{
  Router, create_partitions, isolate_node, reset_partitions, has_connectivity,
}
use dstest.Network.Router.Connectivity.{Connects, init-Returns, isolate_node-Returns}
use dstest.Network.Router.Partitions.{same_part, create_partitions-Returns, create_partitions_fatal}

abbrev open_router : Router
open_router = record {
  routing_table =
      (true ∷ true ∷ true ∷ []) ∷ (true ∷ true ∷ true ∷ []) ∷ (true ∷ true ∷ true ∷ []) ∷ [];
}

init_three : Router.init 3 ≡ ok open_router
unfolding Router.init for_range Router.make_row Router.set_cell
init_three = refl

open_router-Connects : Connects 3 (λ x y. true) open_router
unfolding Router.init for_range Router.make_row Router.set_cell
open_router-Connects = init-Returns 3

abbrev halves : List (List ℤ)
halves = (pos 0 ∷ []) ∷ (pos 2 ∷ pos 1 ∷ []) ∷ []

abbrev twice : List (List ℤ)
twice = (pos 0 ∷ []) ∷ (pos 1 ∷ pos 0 ∷ []) ∷ []

create_partitions-Returns_example :
    Returns (create_partitions open_router halves) (Connects 3 (same_part halves))
create_partitions-Returns_example = create_partitions-Returns open_router-Connects halves refl

create_partitions_fatal_example : create_partitions open_router twice ≡ fatal
create_partitions_fatal_example = create_partitions_fatal open_router-Connects twice refl

isolate_node-Returns_example :
    Returns
      (isolate_node open_router (pos 1))
      (Connects 3 (λ x y. if x == 1 || y == 1 then false else true))
isolate_node-Returns_example = isolate_node-Returns open_router-Connects 1 (omega arith)
