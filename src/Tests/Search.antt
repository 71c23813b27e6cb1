-- ===== src/Tests/Search.antt =====
-- The search for a path on a small map.
use oxidia.Prelude.{
  ℕ, suc, ◌≤◌, ◌<◌, ◌≡◌, refl, List, [], ◌∷◌, none, some, true, false, arith, get_elem?, ◌==◌, ◌&&◌,
  not,
}
use oxidia.Prelude.Int.{pos, ◌+ℤ◌, ◌-ℤ◌}
use oxidia.World.Position.{Position, Direction}
use oxidia.World.Position.Laws.{InRange}
use oxidia.World.Pathfinding.{
  AStarNode, AStarNodes, closed, get_best_node, add_node, best_loop, lookup, try_reopen, heuristic,
  neighbors_with_pruning, calculate_path, step_direction,
}
use oxidia.World.Pathfinding.Best.{get_best_node_lem}
use oxidia.World.Pathfinding.Search.{
  Request, get_path_matching, search_loop, turn, turn_at, expand, try_neighbor, relax, step_cost,
  any_at,
}
use oxidia.World.Pathfinding.Weight.{pow9, dearest}
use oxidia.World.Pathfinding.Path.{Answer, get_path_matching_lem}

abbrev origin : Position
origin = record { x = 5; y = 5; z = 7 }

origin-InRange : InRange origin
origin-InRange = record { x_u16 = omega arith; y_u16 = omega arith; z_u8 = omega arith }

-- From (5, 5) to (7, 5) where (6, 5) is blocked.
abbrev request : Request Unit
request = record {
  start = origin;
  target = record { x = 7; y = 5; z = 7 };
  creatures = [];
  full_search = true;
  max_search_dist = pos 0;
  condition = λ p. p.x == 7 && p.y == 5;
  is_walkable = λ x y s. (not (x == 6 && y == 5), s);
}

-- The tiles that are not blocked.
abbrev Free : ℕ → ℕ → Type 0
Free x y = (x == 6 && y == 5) ≡ false

walkable-Free : (x y : ℕ) (s : Unit) → (request.is_walkable x y s).0 ≡ true → Free x y
walkable-Free x y s h = ground arith

get_path_matching_lem_example :
    (path : List Direction) × (get_path_matching request (suc (pow9 dearest)) tt ≡ some path)
    × Answer request Free origin-InRange path
get_path_matching_lem_example =
    get_path_matching_lem request Free origin-InRange walkable-Free (suc (pow9 dearest)) tt
      (omega arith)

-- What the search gives here: four straight steps round the blocked tile cost less than two diagonal
-- ones.
get_path_matching-request :
    get_path_matching request 9 tt
    ≡ some (Direction.north ∷ Direction.east ∷ Direction.east ∷ Direction.south ∷ [])
unfolding get_path_matching add_node search_loop turn turn_at get_best_node best_loop lookup expand
    try_neighbor relax try_reopen step_cost any_at heuristic neighbors_with_pruning calculate_path
    step_direction ◌+ℤ◌ ◌-ℤ◌
get_path_matching-request = refl

abbrev nodes : AStarNodes
nodes = record {
  nodes =
      record { parent = 65535; f = closed; g = 0; x = 5; y = 5 }
      ∷ record { parent = 0; f = 50; g = 10; x = 6; y = 5 }
      ∷ record { parent = 0; f = 40; g = 10; x = 5; y = 6 }
      ∷ [];
  table = [];
}

get_best_node_lem_example :
    ((j : ℕ)
      → get_best_node nodes ≡ some j
      → (b : AStarNode) × (get_elem? nodes.nodes j ≡ some b)
        × (b.f < closed)
        × ((k : ℕ) (c : AStarNode) → get_elem? nodes.nodes k ≡ some c → c.f < closed → b.f ≤ c.f))
    × (get_best_node nodes ≡ none
        → (k : ℕ) (c : AStarNode) → get_elem? nodes.nodes k ≡ some c
        → ¬ (c.f < closed))
get_best_node_lem_example = get_best_node_lem nodes
