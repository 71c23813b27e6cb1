-- ===== src/World/Pathfinding.antt =====
-- The A* search (crates/world/src/pathfinding.rs). `u16::MAX` is the parent of the start node and
-- `u32::MAX` the `f` of a closed one. The sums of costs are u32 in the source; that they stay far
-- below the limit is part of the invariant in the modules below. The state `S` is what the closure
-- `is_walkable` changes (it loads map chunks).
pub mod Search
pub mod Best
pub mod Invariant
pub mod Weight
pub mod Relax
pub mod Path
pub mod Total
use package.oxidia.Prelude.{
  ℕ, zero, suc, ◌+◌, ◌-◌, ◌*◌, ◌^◌, min, max, Bool, true, false, not, ◌&&◌, ◌||◌, List, [], ◌∷◌,
  ◌++◌, Option, none, some, if◌then◌else◌, ltb, leb, ◌==◌, length, get_elem?, set,
}
use mathlib.Core.Option
use package.oxidia.Prelude.Int.{ℤ, pos, negsuc, ◌+ℤ◌, ◌-ℤ◌, pos_part, eq_ℤ}
use package.oxidia.World.Position.{Position, Direction, within}

abbrev pub max_nodes : ℕ
max_nodes = 512

abbrev pub no_parent : ℕ
no_parent = 65535

abbrev pub closed : ℕ
closed = 4294967295

pub record AStarNode : Type 0 where
  pub parent : ℕ
  pub f : ℕ
  pub g : ℕ
  pub x : ℕ
  pub y : ℕ

pub record AStarNodes : Type 0 where
  pub nodes : List AStarNode
  pub table : List ((ℕ × ℕ) × ℕ)

unfoldable pub lookup : ℕ → ℕ → List ((ℕ × ℕ) × ℕ) → Option ℕ
lookup x y [] = none
lookup x y (((a, b), i) ∷ t) = if a == x && b == y then some i else lookup x y t

-- `filter(f < MAX).min_by_key(f)`: the first of the least, on the best index so far and its `f`.
abbrev pub better : ℕ → AStarNode → Option (ℕ × ℕ) → Option (ℕ × ℕ)
better i n none = if ltb n.f closed then some (i, n.f) else none
better i n (some (j, least)) =
    if ltb n.f closed && ltb n.f least then some (i, n.f) else some (j, least)

unfoldable pub best_loop : ℕ → Option (ℕ × ℕ) → List AStarNode → Option (ℕ × ℕ)
best_loop i acc [] = acc
best_loop i acc (n ∷ ns) = best_loop (suc i) (better i n acc) ns

unfoldable pub get_best_node : AStarNodes → Option ℕ
get_best_node n = Option.map (λ (p : ℕ × ℕ). p.0) (best_loop 0 none n.nodes)

unfoldable pub add_node : ℕ → ℕ → ℕ → ℕ → ℕ → AStarNodes → Option AStarNodes
add_node x y g f parent n =
    if leb max_nodes (length n.nodes)
    then none
    else some (record {
      nodes = n.nodes ++ (record { parent = parent; f = f; g = g; x = x; y = y } ∷ []);
      table = ((x, y), length n.nodes) ∷ n.table;
    })

abbrev pub is_node_at : ℕ → ℕ → AStarNodes → Bool
is_node_at x y n = elim (lookup x y n.table) [ none ↦ false | some _ ↦ true ]

-- The update of a node that the table names.
abbrev pub reopen_at : ℕ → Option AStarNode → ℕ → ℕ → ℕ → AStarNodes → Option AStarNodes
reopen_at idx none g f parent n = none
reopen_at idx (some existing) g f parent n =
    if leb g existing.g
    then some
        (record n { nodes = set n.nodes idx (record existing { g = g; f = f; parent = parent }) })
    else none

-- `true` with the nodes changed, or `false` with the nodes as they were.
unfoldable pub try_reopen : ℕ → ℕ → ℕ → ℕ → ℕ → AStarNodes → Option AStarNodes
try_reopen x y g f parent n = elim (lookup x y n.table) [
  | none ↦ none
  | some idx ↦ reopen_at idx (get_elem? n.nodes idx) g f parent n
]

-- The `match (dx, dy)` that names the step from a parent.
unfoldable pub step_direction : ℤ → ℤ → Direction
step_direction (pos zero) (negsuc zero) = Direction.north
step_direction (pos (suc zero)) (pos zero) = Direction.east
step_direction (pos zero) (pos (suc zero)) = Direction.south
step_direction (negsuc zero) (pos zero) = Direction.west
step_direction (pos (suc zero)) (negsuc zero) = Direction.north_east
step_direction (pos (suc zero)) (pos (suc zero)) = Direction.south_east
step_direction (negsuc zero) (pos (suc zero)) = Direction.south_west
step_direction (negsuc zero) (negsuc zero) = Direction.north_west
step_direction _ _ = Direction.north

abbrev pub down : ℤ
down = negsuc 0

abbrev pub same : ℤ
same = pos 0

abbrev pub up : ℤ
up = pos 1

unfoldable pub neighbors_with_pruning : Option Direction → List (ℤ × ℤ)
neighbors_with_pruning none =
    (down, down)
    ∷ (same, down)
    ∷ (up, down)
    ∷ (down, same)
    ∷ (up, same)
    ∷ (down, up)
    ∷ (same, up)
    ∷ (up, up)
    ∷ []
neighbors_with_pruning (some Direction.east) =
    (down, same) ∷ (same, up) ∷ (up, same) ∷ (up, up) ∷ (down, up) ∷ []
neighbors_with_pruning (some Direction.west) =
    (down, same) ∷ (same, up) ∷ (same, down) ∷ (down, down) ∷ (down, up) ∷ []
neighbors_with_pruning (some Direction.south) =
    (down, same) ∷ (up, same) ∷ (same, down) ∷ (down, down) ∷ (up, down) ∷ []
neighbors_with_pruning (some Direction.north) =
    (same, up) ∷ (up, same) ∷ (same, down) ∷ (up, down) ∷ (up, up) ∷ []
neighbors_with_pruning (some Direction.south_east) =
    (up, same) ∷ (same, down) ∷ (down, down) ∷ (up, down) ∷ (up, up) ∷ []
neighbors_with_pruning (some Direction.south_west) =
    (down, same) ∷ (same, down) ∷ (down, down) ∷ (up, down) ∷ (down, up) ∷ []
neighbors_with_pruning (some Direction.north_east) =
    (same, up) ∷ (up, same) ∷ (up, down) ∷ (up, up) ∷ (down, up) ∷ []
neighbors_with_pruning (some Direction.north_west) =
    (down, same) ∷ (same, up) ∷ (down, down) ∷ (up, up) ∷ (down, up) ∷ []

-- The loop of `calculate_path` up the parents, with `path` in front of which it pushes. `none` is a
-- parent index out of range, or a chain longer than the fuel.
unfoldable pub calculate_path : ℕ → List AStarNode → ℕ → List Direction → Option (List Direction)
unfolding Option.bind
calculate_path zero nodes cur path = none
calculate_path (suc fuel) nodes cur path = Option.bind (get_elem? nodes cur) (λ node.
    let climb = Option.bind (get_elem? nodes node.parent) (λ q.
      calculate_path fuel nodes node.parent
        (step_direction (pos node.x -ℤ pos q.x) (pos node.y -ℤ pos q.y) ∷ path)) in
    if node.parent == no_parent then some path else climb)

abbrev pub distance : ℕ → ℕ → ℕ
distance a b = if ltb a b then b - a else a - b

unfoldable pub heuristic : ℕ → ℕ → ℕ → ℕ → ℕ
heuristic x1 y1 x2 y2 =
    let dx = distance x1 x2 in
    let dy = distance y1 y2 in min dx dy * 20 + (max dx dy - min dx dy) * 10
