-- ===== src/World/Pathfinding/Total.antt =====
-- About the turns of the search in crates/world/src/pathfinding.rs and its fuel.
use package.oxidia.Prelude.{
  ℕ, ◌+◌, ◌-◌, ◌*◌, ◌≤◌, ◌<◌, ◌≡◌, refl, inl, inr, List, [], ◌∷◌, Option, none, some, arith, length,
  get_elem?, get_elem?-lt, get_elem?-set_self, set, true, Bool-cases, Option-cases, All, subst,
}
use package.oxidia.Prelude.Int.{ℤ}
use package.oxidia.World.Position.{Direction}
use package.oxidia.World.Pathfinding.{
  AStarNode, AStarNodes, closed, get_best_node, neighbors_with_pruning,
}
use package.oxidia.World.Pathfinding.Search.{
  Request, to_target, too_far, try_neighbor, expand, shift, Turn, entry_direction, turn_at, turn,
}
use package.oxidia.World.Pathfinding.Best.{get_best_node_lem}
use package.oxidia.World.Pathfinding.Invariant.{Link, Valid, set-Valid}
use package.oxidia.World.Pathfinding.Weight.{
  pow9, dearest, total_weight, total_weight-set, weight-closed, weight_open, eight_lighter,
}
use package.oxidia.World.Pathfinding.Relax.{Parent, IsStep, neighbors-IsStep, try_neighbor-Grown}

neighbors_few : (ed : Option Direction) → length (neighbors_with_pruning ed) ≤ 8
unfolding neighbors_with_pruning
neighbors_few none = omega arith
neighbors_few (some Direction.north) = omega arith
neighbors_few (some _) = omega arith

times_le : (a b c : ℕ) → a ≤ b → a * c ≤ b * c
times_le a b c h = let e : b ≡ a + (b - a) = omega arith in rw e (omega arith)

-- The nodes once the best of them is closed.
abbrev pub close : ℕ → AStarNode → AStarNodes → AStarNodes
close bi b n = record n { nodes = set n.nodes bi (record b { f = closed }) }

module _ {S : Type 0} (r : Request S) (P : ℕ → ℕ → Type 0)
    (allowed : (x y : ℕ) (s : S) → (r.is_walkable x y s).0 ≡ true → P x y) where
  expand-Valid :
      (b : AStarNode) (bi pg : ℕ) (ds : List (ℤ × ℤ)) (n n' : AStarNodes) (s s' : S)
      → All IsStep ds
      → Valid r P n
      → Parent n bi pg b.x b.y
      → expand r b bi pg ds n s ≡ some (n', s')
      → Valid r P n'
        × (total_weight n'.nodes ≤ total_weight n.nodes + length ds * pow9 (dearest - (pg + 10)))
  unfolding expand
  expand-Valid b bi pg [] n n' s s' steps v p e =
      let same : n ≡ n' = ground arith in
      subst
        (λ m.
          Valid r P m
          × (total_weight m.nodes ≤ total_weight n.nodes + 0 * pow9 (dearest - (pg + 10))))
        same (v, omega arith)
  expand-Valid b bi pg (d ∷ ds) n n' s s' (step, steps) v p e =
      elim (Option-cases (try_neighbor r bi pg d (shift b.x d.0) (shift b.y d.1) n s)) [
        | inl stopped ↦ absurd (ground arith)
        | inr ((n1, s1), went) ↦
            let grown = try_neighbor-Grown r P bi pg b.x b.y n v p allowed d n1 s s1 step went in
            let later : expand r b bi pg ds n1 s1 ≡ some (n', s') = ground arith in
            let (v', w) =
              expand-Valid b bi pg ds n1 n' s1 s' steps grown.valid grown.parent later in
            let w1 = grown.weighs in (v', omega arith)
      ]

  module _ (n : AStarNodes) (bi : ℕ) (b : AStarNode) (v : Valid r P n)
      (at : get_elem? n.nodes bi ≡ some b) where
    relink : (q : AStarNode) → Link q b → Link q (record b { f = closed })
    relink q l = record { dearer = l.dearer; step = l.step; move_x = l.move_x; move_y = l.move_y }

    pub close-Valid : Valid r P (close bi b n)
    close-Valid =
        let ok = v.each bi b at in
        let shut : AStarNode = record b { f = closed } in
        set-Valid r P n bi b shut v at refl refl (omega arith) (record {
          estimate = λ h. absurd (omega arith);
          origin = elim ok.origin [
            | inl h ↦
                inl (record { no_one = h.no_one; free = h.free; at_x = h.at_x; at_y = h.at_y })
            | inr h ↦ inr (record {
              up = h.up;
              found = h.found;
              link = relink h.up h.link;
              walkable = h.walkable;
            })
          ];
          cheap = ok.cheap;
          x_u16 = ok.x_u16;
          y_u16 = ok.y_u16;
        })

    close-Parent : Parent (close bi b n) bi b.g b.x b.y
    close-Parent = record {
      node = record b { f = closed };
      found = get_elem?-set_self n.nodes bi (record b { f = closed }) (get_elem?-lt n.nodes bi at);
      cost = refl;
      at_x = refl;
      at_y = refl;
    }

    module _ (opened : b.f < closed) where
      cost_of : b.f - to_target r b.x b.y ≡ b.g
      cost_of = let e = (v.each bi b at).estimate opened in omega arith

      within_dearest : b.g + 10 ≤ dearest
      within_dearest = let h = (v.each bi b at).cheap in let k = v.few in omega arith

      expand_lighter :
          (pg : ℕ) (ed : Option Direction) (n' : AStarNodes) (s s' : S)
          → pg ≡ b.g
          → expand r b bi pg (neighbors_with_pruning ed) (close bi b n) s ≡ some (n', s')
          → Valid r P n' × (total_weight n'.nodes < total_weight n.nodes)
      expand_lighter pg ed n' s s' pe e =
          let shut : AStarNode = record b { f = closed } in
          let (v', w) =
            expand-Valid b bi b.g (neighbors_with_pruning ed) (close bi b n) n' s s'
              (neighbors-IsStep ed) close-Valid close-Parent (rw pe at e) in
          let total = total_weight-set n.nodes bi b shut at in
          let gone = weight-closed shut refl in
          let was = weight_open b opened in
          let drop = eight_lighter b.g within_dearest in
          let few = neighbors_few ed in
          let part =
            times_le (length (neighbors_with_pruning ed)) 8 (pow9 (dearest - (b.g + 10))) few in
          (v', omega arith)

  -- A turn that goes on keeps the invariant and lowers the weight.
  pub turn_lighter :
      (n n' : AStarNodes) (s s' : S)
      → Valid r P n
      → turn r n s ≡ Turn.running n' s'
      → Valid r P n' × (total_weight n'.nodes < total_weight n.nodes)
  unfolding turn turn_at
  turn_lighter n n' s s' v e = elim (Option-cases (get_best_node n)) [
    | inl nothing ↦ absurd (ground arith)
    | inr (bi, best) ↦
        let (b, at, opened, _) = (get_best_node_lem n).0 bi best in
        let ed = entry_direction r b (get_elem? (close bi b n).nodes b.parent) in
        let pg = b.f - to_target r b.x b.y in
        elim (Bool-cases (too_far r b.x b.y)) [
          | inl far ↦ absurd (ground arith)
          | inr near ↦
              elim (Bool-cases (r.condition (record { x = b.x; y = b.y; z = r.start.z }))) [
                | inl here ↦ absurd (ground arith)
                | inr on ↦
                    elim (Option-cases
                      (expand r b bi pg (neighbors_with_pruning ed) (close bi b n) s)) [
                        | inl stopped ↦ absurd (ground arith)
                        | inr ((n1, s1), went) ↦
                            let (v1, less) =
                              expand_lighter n bi b v at opened pg ed n1 s s1
                                (cost_of n bi b v at opened) went in
                            let same : n1 ≡ n' = ground arith in
                            subst (λ m. Valid r P m × (total_weight m.nodes < total_weight n.nodes))
                              same (v1, less)
                      ]
              ]
        ]
  ]
