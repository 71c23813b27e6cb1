-- ===== src/World/Pathfinding/Relax.antt =====
-- One neighbour: what `relax` and `try_neighbor` do to the nodes.
use package.oxidia.Prelude.{
  ℕ, ◌+◌, ◌-◌, ◌*◌, ◌≤◌, ◌<◌, ◌≡◌, ◌≢◌, refl, sym, ap, ◌∙◌, subst, inl, inr, List, [], ◌∷◌, ◌++◌,
  Option, none, some, arith, length, get_elem?, set, true, Bool-cases, Option-cases, if◌then◌else◌,
  leb, get_elem?-set_ne, get_elem?-append_left, length-append, All,
}
use package.oxidia.Prelude.Int.{negsuc, ℤ, pos, ◌+ℤ◌, pos_part}
use package.oxidia.World.Position.{Direction, delta, within}
use package.oxidia.World.Pathfinding.{
  AStarNode, AStarNodes, max_nodes, lookup, add_node, try_reopen, step_direction,
  neighbors_with_pruning,
}
use package.oxidia.World.Pathfinding.Search.{
  Request, to_target, too_far, relax, try_neighbor, shift, step_cost,
}
use package.oxidia.World.Pathfinding.Invariant.{Link, NodeOk, Valid, set-Valid, append-Valid}
use package.oxidia.World.Pathfinding.Weight.{
  pow9, dearest, total_weight, total_weight-append, total_weight-set, weight_le,
}

-- The node whose neighbours are tried is where it was, at its cost.
pub record Parent (n : AStarNodes) (bi pg bx by : ℕ) : Type 0 where
  pub node : AStarNode
  pub found : get_elem? n.nodes bi ≡ some node
  pub cost : node.g ≡ pg
  pub at_x : node.x ≡ bx
  pub at_y : node.y ≡ by

-- Every offset of the table is the step of some direction.
abbrev pub IsStep : ℤ × ℤ → Type 0
IsStep d = delta (step_direction d.0 d.1) ≡ d

pub neighbors-IsStep : (ed : Option Direction) → All IsStep (neighbors_with_pruning ed)
unfolding neighbors_with_pruning step_direction
neighbors-IsStep none = (refl, (refl, (refl, (refl, (refl, (refl, (refl, (refl, tt))))))))
neighbors-IsStep (some Direction.north) = (refl, (refl, (refl, (refl, (refl, tt)))))
neighbors-IsStep (some _) = (refl, (refl, (refl, (refl, (refl, tt)))))

pub step_cost_bounds :
    (nx ny : ℕ) (d : ℤ × ℤ) (cs : List (ℕ × ℕ))
    → (10 ≤ step_cost nx ny d cs) × (step_cost nx ny d cs ≤ 55)
unfolding step_cost
step_cost_bounds nx ny d cs = ground arith

shift_lem :
    (v : ℤ) (b : ℕ)
    → (if within 65536 v then some (pos_part v) else none) ≡ some b
    → (v ≡ pos b) × (b < 65536)
shift_lem (pos n) b e = ground arith
shift_lem (negsuc n) b e = absurd (ground arith)

module _ {S : Type 0} (r : Request S) (P : ℕ → ℕ → Type 0) where
  -- What trying one neighbour may do.
  pub record Grown (bi pg bx by : ℕ) (n n' : AStarNodes) : Type 0 where
    pub valid : Valid r P n'
    pub parent : Parent n' bi pg bx by
    pub weighs : total_weight n'.nodes ≤ total_weight n.nodes + pow9 (dearest - (pg + 10))

  module _ (bi pg bx by : ℕ) (n : AStarNodes) (v : Valid r P n) (p : Parent n bi pg bx by) where
    Grown-same : Grown bi pg bx by n n
    Grown-same = record { valid = v; parent = p; weighs = omega arith }

    module _ (nx ny cost : ℕ) (d : Direction) (ex : pos bx +ℤ (delta d).0 ≡ pos nx)
        (ey : pos by +ℤ (delta d).1 ≡ pos ny) (walks : P nx ny) (low : 10 ≤ cost) (high : cost ≤ 55)
        (hx : nx < 65536) (hy : ny < 65536) where
      child : ℕ
      child = pg + cost

      Link-child : (b : AStarNode) → b.x ≡ nx → b.y ≡ ny → b.g ≡ pg + cost → Link p.node b
      Link-child b xb yb gb =
          let at_cost = p.cost in
          record {
            dearer = omega arith;
            step = d;
            move_x = rw (p.at_x, xb) ex;
            move_y = rw (p.at_y, yb) ey;
          }

      child_ok :
          (ns : List AStarNode) (b : AStarNode)
          → get_elem? ns bi ≡ some p.node
          → b.parent ≡ bi
          → b.x ≡ nx
          → b.y ≡ ny
          → b.g ≡ pg + cost
          → b.f ≡ pg + cost + to_target r nx ny
          → b.g + 55 ≤ 55 * length ns
          → NodeOk r P ns b
      child_ok ns b found up xb yb gb fb cheap = record {
        estimate = λ h. rw (gb, xb, yb) fb;
        origin = inr (record {
          up = p.node;
          found = rw up found;
          link = Link-child b xb yb gb;
          walkable = rw (xb, yb) walks;
        });
        cheap = cheap;
        x_u16 = rw xb hx;
        y_u16 = rw yb hy;
      }

      other_node :
          (i : ℕ) (old : AStarNode)
          → i ≡ bi
          → get_elem? n.nodes i ≡ some old
          → pg + cost ≤ old.g
          → ⊥
      other_node i old e at cheaper =
          let same : p.node ≡ old = cc (p.found) in
          let at_cost = p.cost in let here = ap (λ (t : AStarNode). t.g) same in omega arith

      reopened :
          (i : ℕ) (old : AStarNode)
          → lookup nx ny n.table ≡ some i
          → get_elem? n.nodes i ≡ some old
          → pg + cost ≤ old.g
          → let new = record old {
            g = pg + cost;
            f = pg + cost + to_target r nx ny;
            parent = bi;
          } in
            Grown bi pg bx by n (record n { nodes = set n.nodes i new })
      reopened i old named at cheaper =
          let new : AStarNode = record old {
            g = pg + cost;
            f = pg + cost + to_target r nx ny;
            parent = bi;
          } in
          let (b, found, at_x, at_y) = v.indexed nx ny i named in
          let is_old : b ≡ old = ground arith in
          let old_x : old.x ≡ nx = sym (ap (λ (t : AStarNode). t.x) is_old) ∙ at_x in
          let old_y : old.y ≡ ny = sym (ap (λ (t : AStarNode). t.y) is_old) ∙ at_y in
          let bound = (v.each i old at).cheap in
          let apart : i ≢ bi = λ e. other_node i old e at cheaper in
          record {
            valid =
                set-Valid r P n i old new v at refl refl cheaper
                  (child_ok n.nodes new p.found refl old_x old_y refl refl (omega arith));
            parent = record {
              node = p.node;
              found = get_elem?-set_ne n.nodes new apart ∙ p.found;
              cost = p.cost;
              at_x = p.at_x;
              at_y = p.at_y;
            };
            weighs = omega (
              arith,
              total_weight-set n.nodes i old new at,
              weight_le new (pg + 10) (omega arith),
            );
          }

      added :
          length n.nodes < max_nodes
          → let new : AStarNode = record {
            parent = bi;
            f = pg + cost + to_target r nx ny;
            g = pg + cost;
            x = nx;
            y = ny;
          } in
            Grown bi pg bx by n (record {
              nodes = n.nodes ++ (new ∷ []);
              table = ((nx, ny), length n.nodes) ∷ n.table;
            })
      added room =
          let new : AStarNode = record {
            parent = bi;
            f = pg + cost + to_target r nx ny;
            g = pg + cost;
            x = nx;
            y = ny;
          } in
          let bound = (v.each bi p.node p.found).cheap in
          let at_cost = p.cost in
          let found = get_elem?-append_left n.nodes (new ∷ []) bi p.found in
          let size = length-append n.nodes (new ∷ []) in
          record {
            valid = append-Valid r P n new v room (
                child_ok (n.nodes ++ (new ∷ [])) new found refl refl refl refl refl
                  (omega (arith, size)));
            parent = record {
              node = p.node;
              found = found;
              cost = p.cost;
              at_x = p.at_x;
              at_y = p.at_y;
            };
            weighs =
                omega
                  (arith, total_weight-append n.nodes new, weight_le new (pg + 10) (omega arith));
          }

      pub relax-Grown :
          (n' : AStarNodes) (s s' : S)
          → relax r bi nx ny pg cost n s ≡ some (n', s')
          → Grown bi pg bx by n n'
      unfolding relax try_reopen add_node
      relax-Grown n' s s' e = elim (Option-cases (lookup nx ny n.table)) [
        | inl absent ↦ elim (Bool-cases (too_far r nx ny)) [
          | inl far ↦ subst (Grown bi pg bx by n) (ground arith) Grown-same
          | inr near ↦ elim (Bool-cases (leb max_nodes (length n.nodes))) [
            | inl full ↦ absurd (ground arith)
            | inr room ↦ subst (Grown bi pg bx by n) (ground arith) (added (ground arith))
          ]
        ]
        | inr (i, named) ↦ elim (Option-cases (get_elem? n.nodes i)) [
          | inl missing ↦ subst (Grown bi pg bx by n) (ground arith) Grown-same
          | inr (old, at) ↦ elim (Bool-cases (leb (pg + cost) old.g)) [
            | inl cheaper ↦
                subst (Grown bi pg bx by n) (ground arith) (reopened i old named at (ground arith))
            | inr dearer ↦ subst (Grown bi pg bx by n) (ground arith) Grown-same
          ]
        ]
      ]

    -- A neighbour off the map or blocked changes no node; another is relaxed.
    pub try_neighbor-Grown :
        ((x y : ℕ) (s : S) → (r.is_walkable x y s).0 ≡ true → P x y)
        → (d : ℤ × ℤ) (n' : AStarNodes) (s s' : S) → IsStep d
        → try_neighbor r bi pg d (shift bx d.0) (shift by d.1) n s ≡ some (n', s')
        → Grown bi pg bx by n n'
    unfolding try_neighbor
    try_neighbor-Grown allowed d n' s s' step e = elim (Option-cases (shift bx d.0)) [
      | inl off ↦ subst (Grown bi pg bx by n) (ground arith) Grown-same
      | inr (nx, xs) ↦ elim (Option-cases (shift by d.1)) [
        | inl off ↦ subst (Grown bi pg bx by n) (ground arith) Grown-same
        | inr (ny, ys) ↦ elim (Bool-cases (r.is_walkable nx ny s).0) [
          | inl free ↦
              let cost = step_cost nx ny d r.creatures in
              let s1 = (r.is_walkable nx ny s).1 in
              let bounds = step_cost_bounds nx ny d r.creatures in
              let (ex, hx) = shift_lem (pos bx +ℤ d.0) nx xs in
              let (ey, hy) = shift_lem (pos by +ℤ d.1) ny ys in
              relax-Grown nx ny cost (step_direction d.0 d.1) (rw step ex) (rw step ey)
                (allowed nx ny s free) bounds.0 bounds.1 hx hy n' s1 s' (ground arith)
          | inr blocked ↦ subst (Grown bi pg bx by n) (ground arith) Grown-same
        ]
      ]
    ]
