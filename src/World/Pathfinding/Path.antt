-- ===== src/World/Pathfinding/Path.antt =====
-- About the path that the search of crates/world/src/pathfinding.rs reads back from the parents.
use package.oxidia.Prelude.{
  ℕ, zero, suc, ◌-◌, ◌<◌, ◌≡◌, refl, ◌⊎◌, inl, inr, List, [], ◌∷◌, Option, some, arith, get_elem?,
  get_elem?-lt, get_elem?-set_self, true, Bool-cases, Option-cases, subst, ◌==◌, ==_refl,
}
use package.oxidia.Prelude.Int.{ℤ, pos, negsuc, ◌+ℤ◌, ◌-ℤ◌}
use package.oxidia.World.Position.{Position, Direction, offset, delta}
use package.oxidia.World.Position.Laws.{InRange, offset_lem}
use package.oxidia.World.Pathfinding.{
  AStarNode, AStarNodes, closed, no_parent, get_best_node, calculate_path, step_direction, add_node,
  neighbors_with_pruning, lookup,
}
use package.oxidia.World.Pathfinding.Search.{
  Request, to_target, too_far, expand, Turn, turn_at, turn, entry_direction, search_loop, no_nodes,
  get_path_matching,
}
use package.oxidia.World.Pathfinding.Best.{get_best_node_lem}
use package.oxidia.World.Pathfinding.Invariant.{IsRoot, Link, Valid, append-Valid}
use package.oxidia.World.Pathfinding.Weight.{pow9, dearest, total_weight, weight_le}
use package.oxidia.World.Pathfinding.Total.{close, close-Valid, turn_lighter}

difference : (a b : ℕ) (d : ℤ) → pos a +ℤ d ≡ pos b → pos b -ℤ pos a ≡ d
unfolding ◌+ℤ◌ ◌-ℤ◌
difference a b (pos n) e = ground arith
difference a b (negsuc n) e = ground arith

direction_of_delta : (d : Direction) → step_direction (delta d).0 (delta d).1 ≡ d
unfolding step_direction
direction_of_delta Direction.north = refl
direction_of_delta Direction.east = refl
direction_of_delta Direction.south = refl
direction_of_delta Direction.west = refl
direction_of_delta Direction.north_east = refl
direction_of_delta Direction.south_east = refl
direction_of_delta Direction.south_west = refl
direction_of_delta Direction.north_west = refl

-- The steps lead from `p` to `q`, each to a position on the map for which `P` holds.
pub WalksTo : (ℕ → ℕ → Type 0) → Position → List Direction → Position → Type 0
WalksTo P p [] q = p ≡ q
WalksTo P p (d ∷ ds) q =
    (m : Position) × (offset p (delta d).0 (delta d).1 ≡ some m) × P m.x m.y × WalksTo P m ds q

turn-cases :
    {S : Type 0} {r : Request S} (t : Turn r)
    → ((o : Option (List Direction)) × (t ≡ Turn.finished o))
      ⊎ ((n : AStarNodes) × (s : S) × (t ≡ Turn.running n s))
turn-cases (Turn.finished o) = inl (o, refl)
turn-cases (Turn.running n s) = inr (n, s, refl)

module _ {S : Type 0} (r : Request S) (P : ℕ → ℕ → Type 0) (v_start : InRange r.start) where
  place : AStarNode → Position
  place b = record { x = b.x; y = b.y; z = r.start.z }

  one_step :
      (n : AStarNodes) (p b : AStarNode) (i : ℕ) (ds : List Direction) (q : Position)
      → Valid r P n
      → get_elem? n.nodes i ≡ some p
      → (l : Link p b) → P b.x b.y
      → b.x < 65536
      → b.y < 65536
      → WalksTo P (place b) ds q
      → WalksTo P (place p) (l.step ∷ ds) q
  unfolding WalksTo place
  one_step n p b i ds q v at l walks hx hy rest =
      let ok = v.each i p at in
      let from : InRange (place p) = record {
        x_u16 = ok.x_u16;
        y_u16 = ok.y_u16;
        z_u8 = v_start.z_u8;
      } in
      (
        place b,
        (offset_lem (place p) (delta l.step).0 (delta l.step).1 from).1 b.x b.y l.move_x l.move_y hx
            hy,
        walks,
        rest,
      )

  -- With more fuel than the cost of the node, the way up the parents ends at the start.
  climb :
      (n : AStarNodes) (fuel cur : ℕ) (b : AStarNode) (ds : List Direction) (q : Position)
      → Valid r P n
      → get_elem? n.nodes cur ≡ some b
      → b.g < fuel
      → WalksTo P (place b) ds q
      → (path : List Direction) × (calculate_path fuel n.nodes cur ds ≡ some path)
        × WalksTo P r.start path q
  unfolding calculate_path
  climb n zero cur b ds q v at h w = absurd (omega arith)
  climb n (suc fuel) cur b ds q v at h w =
      let ok = v.each cur b at in
      elim ok.origin [
        | inl root ↦
            let here : (b.parent == no_parent) ≡ true = rw root.no_one (==_refl no_parent) in
            let start : place b ≡ r.start = unfold place in rw (root.at_x, root.at_y) refl in
            (ds, ground arith, subst (λ p. WalksTo P p ds q) start w)
        | inr up ↦
            let l = up.link in
            let dearer = l.dearer in
            let step = step_direction (pos b.x -ℤ pos up.up.x) (pos b.y -ℤ pos up.up.y) in
            let step_is : step ≡ l.step =
              rw
                (
                  difference up.up.x b.x (delta l.step).0 l.move_x,
                  difference up.up.y b.y (delta l.step).1 l.move_y,
                )
                (direction_of_delta l.step) in
            let before =
              one_step n up.up b b.parent ds q v up.found l up.walkable ok.x_u16 ok.y_u16 w in
            let (path, e, walks) =
              climb n fuel b.parent up.up (step ∷ ds) q v up.found (omega arith)
                (rw step_is before) in
            let small = get_elem?-lt n.nodes b.parent up.found in
            let few = v.few in (path, ground arith, walks)
      ]

  -- The answers of the search: no path, or one to a position that meets the condition.
  pub Answer : List Direction → Type 0
  Answer path = (path ≡ []) ⊎ ((q : Position) × WalksTo P r.start path q × (r.condition q ≡ true))

  module _ (allowed : (x y : ℕ) (s : S) → (r.is_walkable x y s).0 ≡ true → P x y) where
    turn-Answer :
        (n : AStarNodes) (s : S) (o : Option (List Direction))
        → Valid r P n
        → turn r n s ≡ Turn.finished o
        → (path : List Direction) × (o ≡ some path) × Answer path
    unfolding turn turn_at Answer
    turn-Answer n s o v e = elim (Option-cases (get_best_node n)) [
      | inl nothing ↦ ([], ground arith, inl refl)
      | inr (bi, best) ↦
          let (b, at, opened, _) = (get_best_node_lem n).0 bi best in
          elim (Bool-cases (too_far r b.x b.y)) [
            | inl far ↦ ([], ground arith, inl refl)
            | inr near ↦
                elim (Bool-cases (r.condition (record { x = b.x; y = b.y; z = r.start.z }))) [
                  | inl here ↦
                      let shut : AStarNode = record b { f = closed } in
                      let (path, made, walks) =
                        climb (close bi b n) (suc b.g) bi shut [] (place b)
                          (close-Valid r P allowed n bi b v at)
                          (get_elem?-set_self n.nodes bi shut (get_elem?-lt n.nodes bi at))
                          (omega arith) (unfold place WalksTo in refl) in
                      (path, ground arith, inr (place b, walks, unfold place in here))
                  | inr on ↦
                      let ed = entry_direction r b (get_elem? (close bi b n).nodes b.parent) in
                      let pg = b.f - to_target r b.x b.y in
                      elim (Option-cases
                        (expand r b bi pg (neighbors_with_pruning ed) (close bi b n) s)) [
                          | inl stopped ↦ ([], ground arith, inl refl)
                          | inr (_, went) ↦ absurd (ground arith)
                        ]
                ]
          ]
    ]

    search-Answer :
        (fuel : ℕ) (n : AStarNodes) (s : S)
        → Valid r P n
        → total_weight n.nodes < fuel
        → (path : List Direction) × (search_loop r fuel n s ≡ some path) × Answer path
    unfolding search_loop
    search-Answer zero n s v h = absurd (omega arith)
    search-Answer (suc fuel) n s v h = elim (turn-cases (turn r n s)) [
      | inl (o, ended) ↦
          let (path, e, good) = turn-Answer n s o v ended in (path, ground arith, good)
      | inr (n', s', went) ↦
          let (v', less) = turn_lighter r P allowed n n' s s' v went in
          let (path, e, good) = search-Answer fuel n' s' v' (omega arith) in
          (path, ground arith, good)
    ]

    start-Valid :
        (b : AStarNode)
        → IsRoot r P b
        → b.f ≡ to_target r b.x b.y
        → Valid r P (record { nodes = b ∷ []; table = ((b.x, b.y), 0) ∷ [] })
    unfolding lookup
    start-Valid b root e =
        let free = root.free in
        let empty : Valid r P (no_nodes r) = record {
          few = omega arith;
          each = λ i c at. absurd (ground arith);
          indexed = λ x y i at. absurd (ground arith);
        } in
        append-Valid r P (no_nodes r) b empty (omega arith) (record {
          estimate = λ _. omega arith;
          origin = inl root;
          cheap = omega arith;
          x_u16 = rw root.at_x v_start.x_u16;
          y_u16 = rw root.at_y v_start.y_u16;
        })

    -- For a start on the map and more fuel than the weight of the first node, the search returns; it
    -- returns no path, or one that leads from the start by steps on the map, each to a tile that the
    -- closure found walkable, to a position that meets the condition.
    pub get_path_matching_lem :
        (fuel : ℕ) (s : S)
        → pow9 dearest < fuel
        → (path : List Direction) × (get_path_matching r fuel s ≡ some path) × Answer path
    unfolding get_path_matching add_node
    get_path_matching_lem fuel s h =
        let first : AStarNode = record {
          parent = no_parent;
          f = to_target r r.start.x r.start.y;
          g = 0;
          x = r.start.x;
          y = r.start.y;
        } in
        let root : IsRoot r P first = record {
          no_one = refl;
          free = refl;
          at_x = refl;
          at_y = refl;
        } in
        let light = weight_le first 0 (omega arith) in
        search-Answer fuel (record { nodes = first ∷ []; table = ((first.x, first.y), 0) ∷ [] }) s
          (start-Valid first root (omega arith)) (unfold total_weight in omega arith)
