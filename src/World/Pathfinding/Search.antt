-- ===== src/World/Pathfinding/Search.antt =====
-- `get_path_matching`: the loop of the search and its inner loop over the neighbours.
use package.oxidia.Prelude.{
  ℕ, zero, suc, ◌+◌, ◌-◌, ◌^◌, max, Bool, true, false, not, ◌&&◌, List, [], ◌∷◌, Option, none, some,
  if◌then◌else◌, ltb, ◌==◌, get_elem?, set,
}
use package.oxidia.Prelude.Int.{ℤ, pos, negsuc, ◌+ℤ◌, ◌-ℤ◌, pos_part, eq_ℤ}
use package.oxidia.World.Position.{Position, Direction, within}
use package.oxidia.World.Pathfinding.{
  AStarNode, AStarNodes, no_parent, closed, get_best_node, add_node, is_node_at, try_reopen,
  step_direction, neighbors_with_pruning, calculate_path, distance, heuristic,
}

-- The arguments of the search; `max_search_dist` is an i32 that is read `as u32`.
pub record Request (S : Type 0) : Type 0 where
  pub start : Position
  pub target : Position
  pub creatures : List (ℕ × ℕ)
  pub full_search : Bool
  pub max_search_dist : ℤ
  pub condition : Position → Bool
  pub is_walkable : ℕ → ℕ → S → Bool × S

abbrev pub as_u32 : ℤ → ℕ
as_u32 (pos n) = n
as_u32 (negsuc n) = 2 ^ 32 - 1 - n

unfoldable pub any_at : ℕ → ℕ → List (ℕ × ℕ) → Bool
any_at x y [] = false
any_at x y ((cx, cy) ∷ cs) = if cx == x && cy == y then true else any_at x y cs

-- `checked_add(d).filter(in range)` on a u16
abbrev pub shift : ℕ → ℤ → Option ℕ
shift a d = let v = pos a +ℤ d in if within 65536 v then some (pos_part v) else none

unfoldable pub step_cost : ℕ → ℕ → ℤ × ℤ → List (ℕ × ℕ) → ℕ
step_cost nx ny (dx, dy) creatures =
    let sc = if not (eq_ℤ dx (pos 0)) && not (eq_ℤ dy (pos 0)) then 25 else 10 in
    sc + (if any_at nx ny creatures then 30 else 0)

module _ {S : Type 0} (r : Request S) where
  abbrev pub too_far : ℕ → ℕ → Bool
  too_far x y =
      not r.full_search
      && ltb (as_u32 r.max_search_dist) (max (distance x r.start.x) (distance y r.start.y))

  abbrev pub to_target : ℕ → ℕ → ℕ
  to_target x y = heuristic x y r.target.x r.target.y

  -- `none` is the early return of an empty path.
  abbrev pub Flow : Type 0
  Flow = Option (AStarNodes × S)

  abbrev add_or_stop : Option AStarNodes → S → Flow
  add_or_stop none s = none
  add_or_stop (some n) s = some (n, s)

  -- On what `try_reopen` gave: the node was there and is reopened, is there and stays, is too far
  -- from the start, or is new.
  abbrev pub after_reopen : Option AStarNodes → ℕ → ℕ → ℕ → ℕ → ℕ → AStarNodes → S → Flow
  after_reopen (some n') nx ny child_g child_f bi n s = some (n', s)
  after_reopen none nx ny child_g child_f bi n s =
      if is_node_at nx ny n
      then some (n, s)
      else (if too_far nx ny
          then some (n, s)
          else add_or_stop (add_node nx ny child_g child_f bi n) s)

  unfoldable pub relax : ℕ → ℕ → ℕ → ℕ → ℕ → AStarNodes → S → Flow
  relax bi nx ny pg cost n s =
      let child_g = pg + cost in
      let child_f = child_g + to_target nx ny in
      after_reopen (try_reopen nx ny child_g child_f bi n) nx ny child_g child_f bi n s

  -- The two `continue`s for a coordinate out of range, and the one for a tile that blocks.
  unfoldable pub try_neighbor : ℕ → ℕ → ℤ × ℤ → Option ℕ → Option ℕ → AStarNodes → S → Flow
  try_neighbor bi pg d none ny n s = some (n, s)
  try_neighbor bi pg d (some nx) none n s = some (n, s)
  try_neighbor bi pg d (some nx) (some ny) n s =
      let (walkable, s') = r.is_walkable nx ny s in
      if not walkable then some (n, s') else relax bi nx ny pg (step_cost nx ny d r.creatures) n s'

  -- The `for` loop over the neighbours of the node `b` at index `bi`.
  unfoldable pub expand : AStarNode → ℕ → ℕ → List (ℤ × ℤ) → AStarNodes → S → Flow
  expand b bi pg [] n s = some (n, s)
  expand b bi pg (d ∷ ds) n s = elim (try_neighbor bi pg d (shift b.x d.0) (shift b.y d.1) n s) [
    | none ↦ none
    | some (n', s') ↦ expand b bi pg ds n' s'
  ]

  -- One turn of the loop ends the search, perhaps with a path that could not be built, or goes on.
  pub data Turn : Type 0 where
    finished : Option (List Direction) → Turn
    running : AStarNodes → S → Turn

  -- `if b.parent == u16::MAX { None } else { Some(match ..) }`
  abbrev pub entry_direction : AStarNode → Option AStarNode → Option Direction
  entry_direction b none = none
  entry_direction b (some q) =
      if b.parent == no_parent
      then none
      else some (step_direction (pos b.x -ℤ pos q.x) (pos b.y -ℤ pos q.y))

  abbrev pub next_turn : Flow → Turn
  next_turn none = finished (some [])
  next_turn (some (n, s)) = running n s

  -- With the best node `b`: it is closed, then tested, then its neighbours are tried.
  unfoldable pub turn_at : ℕ → AStarNode → AStarNodes → S → Turn
  turn_at bi b n s =
      let n' = record n { nodes = set n.nodes bi (record b { f = closed }) } in
      let pg = b.f - to_target b.x b.y in
      let ed = entry_direction b (get_elem? n'.nodes b.parent) in
      if too_far b.x b.y
      then finished (some [])
      else (if r.condition (record { x = b.x; y = b.y; z = r.start.z })
          then finished (calculate_path (suc b.g) n'.nodes bi [])
          else next_turn (expand b bi pg (neighbors_with_pruning ed) n' s))

  abbrev turn_found : ℕ → Option AStarNode → AStarNodes → S → Turn
  turn_found bi none n s = finished none
  turn_found bi (some b) n s = turn_at bi b n s

  abbrev turn_best : Option ℕ → AStarNodes → S → Turn
  turn_best none n s = finished (some [])
  turn_best (some bi) n s = turn_found bi (get_elem? n.nodes bi) n s

  unfoldable pub turn : AStarNodes → S → Turn
  turn n s = turn_best (get_best_node n) n s

  -- The `loop`; `none` is a search that runs out of fuel or leaves the array.
  unfoldable pub search_loop : ℕ → AStarNodes → S → Option (List Direction)
  search_loop zero n s = none
  search_loop (suc fuel) n s = elim (turn n s) [
    | finished path ↦ path
    | running n' s' ↦ search_loop fuel n' s'
  ]

  abbrev pub no_nodes : AStarNodes
  no_nodes = record { nodes = []; table = [] }

  abbrev pub with_start : Option AStarNodes → ℕ → S → Option (List Direction)
  with_start none fuel s = some []
  with_start (some n) fuel s = search_loop fuel n s

  unfoldable pub get_path_matching : ℕ → S → Option (List Direction)
  get_path_matching fuel s =
      with_start (add_node r.start.x r.start.y 0 (to_target r.start.x r.start.y) no_parent no_nodes)
        fuel s
