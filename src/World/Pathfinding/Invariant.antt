-- ===== src/World/Pathfinding/Invariant.antt =====
-- The invariant of the nodes: each is the start or stands one step from its parent at a lower cost,
-- on a tile that was walkable; open estimates are cost plus heuristic; the table names the nodes.
-- Its bound on each cost is 55 for each node before it.
use package.oxidia.Prelude.{
  ℕ, ◌+◌, ◌*◌, ◌≤◌, ◌<◌, ◌≡◌, sym, ap, ◌∙◌, subst, ◌⊎◌, inl, inr, List, [], ◌∷◌, ◌++◌, some, arith,
  length, get_elem?, set, get_elem?-lt, get_elem?-append_left, get_elem?-append_last,
  get_elem?-append_inv, get_elem?-set_self, get_elem?-set_ne, length-set, length-append, ◌==◌, ◌&&◌,
  Bool-cases, ==_iff,
}
use package.oxidia.Prelude.Int.{pos, ◌+ℤ◌}
use package.oxidia.World.Position.{Direction, delta}
use package.oxidia.World.Pathfinding.{AStarNode, AStarNodes, no_parent, closed, max_nodes, lookup}
use package.oxidia.World.Pathfinding.Search.{Request, to_target}

-- `b` is one step from `q` and costs ten more at least.
pub record Link (q b : AStarNode) : Type 0 where
  pub dearer : q.g + 10 ≤ b.g
  pub step : Direction
  pub move_x : pos q.x +ℤ (delta step).0 ≡ pos b.x
  pub move_y : pos q.y +ℤ (delta step).1 ≡ pos b.y

module _ {S : Type 0} (r : Request S) (P : ℕ → ℕ → Type 0) where
  pub record IsRoot (b : AStarNode) : Type 0 where
    pub no_one : b.parent ≡ no_parent
    pub free : b.g ≡ 0
    pub at_x : b.x ≡ r.start.x
    pub at_y : b.y ≡ r.start.y

  pub record HasParent (ns : List AStarNode) (b : AStarNode) : Type 0 where
    pub up : AStarNode
    pub found : get_elem? ns b.parent ≡ some up
    pub link : Link up b
    pub walkable : P b.x b.y

  pub record NodeOk (ns : List AStarNode) (b : AStarNode) : Type 0 where
    pub estimate : b.f < closed → b.f ≡ b.g + to_target r b.x b.y
    pub origin : IsRoot b ⊎ HasParent ns b
    pub cheap : b.g + 55 ≤ 55 * length ns
    pub x_u16 : b.x < 65536
    pub y_u16 : b.y < 65536

  pub record Valid (n : AStarNodes) : Type 0 where
    pub few : length n.nodes ≤ max_nodes
    pub each : (i : ℕ) (b : AStarNode) → get_elem? n.nodes i ≡ some b → NodeOk n.nodes b
    pub indexed :
        (x y i : ℕ)
        → lookup x y n.table ≡ some i
        → (b : AStarNode) × (get_elem? n.nodes i ≡ some b) × (b.x ≡ x) × (b.y ≡ y)

  -- Replacing a node by one at the same place that costs no more keeps what hangs on it.
  module _ (ns : List AStarNode) (i : ℕ) (old new : AStarNode) (at : get_elem? ns i ≡ some old)
      (same_x : new.x ≡ old.x) (same_y : new.y ≡ old.y) (cheaper : new.g ≤ old.g) where
    moved : (q b : AStarNode) → old ≡ q → Link q b → Link new b
    moved q b e l =
        let fall = ap (λ (t : AStarNode). t.g) e in
        record {
          dearer = omega arith;
          step = l.step;
          move_x = rw (same_x ∙ ap (λ (t : AStarNode). t.x) e) l.move_x;
          move_y = rw (same_y ∙ ap (λ (t : AStarNode). t.y) e) l.move_y;
        }

    set_origin : (b : AStarNode) → IsRoot b ⊎ HasParent ns b → IsRoot b ⊎ HasParent (set ns i new) b
    set_origin b (inl root) = inl root
    set_origin b (inr h) = elim (Bool-cases (i == b.parent)) [
      | inl e ↦
          let here = (==_iff i b.parent).0 e in
          let is_old : old ≡ h.up = ground arith in
          inr (record {
            up = new;
            found = rw (← here) (get_elem?-set_self ns i new (get_elem?-lt ns i at));
            link = moved h.up b is_old h.link;
            walkable = h.walkable;
          })
      | inr e ↦ inr (record {
        up = h.up;
        found = get_elem?-set_ne ns new (ground arith) ∙ h.found;
        link = h.link;
        walkable = h.walkable;
      })
    ]

    set-NodeOk : (b : AStarNode) → NodeOk ns b → NodeOk (set ns i new) b
    set-NodeOk b h = record {
      estimate = h.estimate;
      origin = set_origin b h.origin;
      cheap = rw (length-set ns i new) h.cheap;
      x_u16 = h.x_u16;
      y_u16 = h.y_u16;
    }

  pub set-Valid :
      (n : AStarNodes) (i : ℕ) (old new : AStarNode)
      → Valid n
      → get_elem? n.nodes i ≡ some old
      → new.x ≡ old.x
      → new.y ≡ old.y
      → new.g ≤ old.g
      → NodeOk n.nodes new
      → Valid (record n { nodes = set n.nodes i new })
  set-Valid n i old new v at same_x same_y cheaper fresh =
      let ns = n.nodes in
      let keep = set-NodeOk ns i old new at same_x same_y cheaper in
      let self = get_elem?-set_self ns i new (get_elem?-lt ns i at) in
      record {
        few = rw (length-set ns i new) v.few;
        each = λ j b e. elim (Bool-cases (i == j)) [
          | inl same ↦
              let here = (==_iff i j).0 same in
              let it : new ≡ b = ground (arith, self) in
              subst (NodeOk (set ns i new)) it (keep new fresh)
          | inr other ↦ keep b (v.each j b (sym (get_elem?-set_ne ns new (ground arith)) ∙ e))
        ];
        indexed = λ x y j e.
            let (b, found, bx, by) = v.indexed x y j e in
            elim (Bool-cases (i == j)) [
              | inl same ↦
                  let here = (==_iff i j).0 same in
                  let it : old ≡ b = ground arith in
                  (
                    new,
                    rw (← here) self,
                    same_x ∙ ap (λ (t : AStarNode). t.x) it ∙ bx,
                    same_y ∙ ap (λ (t : AStarNode). t.y) it ∙ by,
                  )
              | inr other ↦ (b, get_elem?-set_ne ns new (ground arith) ∙ found, bx, by)
            ];
      }

  grow-NodeOk :
      (ns : List AStarNode) (new b : AStarNode) → NodeOk ns b → NodeOk (ns ++ (new ∷ [])) b
  grow-NodeOk ns new b h = record {
    estimate = h.estimate;
    origin = elim h.origin [
      | inl root ↦ inl root
      | inr q ↦ inr (record {
        up = q.up;
        found = get_elem?-append_left ns (new ∷ []) b.parent q.found;
        link = q.link;
        walkable = q.walkable;
      })
    ];
    cheap = let bound = h.cheap in omega (arith, length-append ns (new ∷ []));
    x_u16 = h.x_u16;
    y_u16 = h.y_u16;
  }

  find_lem :
      (n : AStarNodes) (new : AStarNode)
      → Valid n
      → (x y j : ℕ) → lookup x y (((new.x, new.y), length n.nodes) ∷ n.table) ≡ some j
      → (b : AStarNode) × (get_elem? (n.nodes ++ (new ∷ [])) j ≡ some b) × (b.x ≡ x) × (b.y ≡ y)
  unfolding lookup
  find_lem n new v x y j e = elim (Bool-cases (new.x == x && new.y == y)) [
    | inl here ↦
        let at : length n.nodes ≡ j = ground arith in
        (new, rw (← at) (get_elem?-append_last n.nodes new), ground arith, ground arith)
    | inr other ↦
        let old : lookup x y n.table ≡ some j = rw other at e in
        let (b, found, bx, by) = v.indexed x y j old in
        (b, get_elem?-append_left n.nodes (new ∷ []) j found, bx, by)
  ]

  pub append-Valid :
      (n : AStarNodes) (b : AStarNode)
      → Valid n
      → length n.nodes < max_nodes
      → NodeOk (n.nodes ++ (b ∷ [])) b
      → Valid
          (record { nodes = n.nodes ++ (b ∷ []); table = ((b.x, b.y), length n.nodes) ∷ n.table })
  append-Valid n b v room fresh =
      let ns = n.nodes in
      let size = length-append ns (b ∷ []) in
      record {
        few = omega (arith, size);
        each = λ j c e. elim (get_elem?-append_inv ns b j e) [
          | inl old ↦ grow-NodeOk ns b c (v.each j c old)
          | inr (_, same) ↦ subst (NodeOk (ns ++ (b ∷ []))) same fresh
        ];
        indexed = λ x y j e. find_lem n b v x y j e;
      }
