-- ===== src/World/Pathfinding/Best.antt =====
-- About the choice of the next node, `get_best_node` of crates/world/src/pathfinding.rs.
use package.oxidia.Prelude.{
  ℕ, zero, suc, ◌+◌, ◌≤◌, ◌<◌, ◌≡◌, refl, ◌⊎◌, inl, inr, List, [], ◌∷◌, Option, none, some, arith,
  get_elem?, Option-cases, Bool-cases, ltb, lt→ltb, ◌&&◌, subst, true,
}
use package.oxidia.World.Pathfinding.{
  AStarNode, AStarNodes, closed, better, best_loop, get_best_node,
}

-- Where the pair that the loop ends with comes from.
From : ℕ → Option (ℕ × ℕ) → List AStarNode → ℕ → ℕ → Type 0
From i acc ns j least =
    (acc ≡ some (j, least))
    ⊎ ((k : ℕ) × (b : AStarNode) × (j ≡ i + k)
        × (get_elem? ns k ≡ some b)
        × (b.f ≡ least)
        × (least < closed))

better-From :
    (i : ℕ) (acc : Option (ℕ × ℕ)) (n : AStarNode) (ns : List AStarNode) (j least : ℕ)
    → better i n acc ≡ some (j, least)
    → From i acc (n ∷ ns) j least
unfolding From
better-From i none n ns j least e = elim (Bool-cases (ltb n.f closed)) [
  | inl opened ↦ inr (0, n, ground arith, refl, ground arith, ground arith)
  | inr shut ↦ absurd (ground arith)
]
better-From i (some (a, l)) n ns j least e = elim (Bool-cases (ltb n.f closed && ltb n.f l)) [
  | inl opened ↦ inr (0, n, ground arith, refl, ground arith, ground arith)
  | inr kept ↦ inl (rw kept at e)
]

best_loop-From :
    (i : ℕ) (acc : Option (ℕ × ℕ)) (ns : List AStarNode) (j least : ℕ)
    → best_loop i acc ns ≡ some (j, least)
    → From i acc ns j least
unfolding best_loop From
best_loop-From i acc [] j least e = inl e
best_loop-From i acc (n ∷ ns) j least e =
    elim (best_loop-From (suc i) (better i n acc) ns j least e) [
      | inl at ↦ better-From i acc n ns j least at
      | inr (k, b, at, found, cost, opened) ↦ inr (suc k, b, omega arith, found, cost, opened)
    ]

-- The bound that the loop starts with only falls.
best_loop_falls :
    (i j least : ℕ) (ns : List AStarNode)
    → (p : ℕ × ℕ) × (best_loop i (some (j, least)) ns ≡ some p) × (p.1 ≤ least)
unfolding best_loop
best_loop_falls i j least [] = ((j, least), refl, omega arith)
best_loop_falls i j least (n ∷ ns) = elim (Bool-cases (ltb n.f closed && ltb n.f least)) [
  | inl lower ↦ let (p, e, h) = best_loop_falls (suc i) i n.f ns in (p, rw lower e, ground arith)
  | inr kept ↦ rw kept (best_loop_falls (suc i) j least ns)
]

best_loop_head :
    (i : ℕ) (acc : Option (ℕ × ℕ)) (n : AStarNode) (ns : List AStarNode)
    → n.f < closed
    → (p : ℕ × ℕ) × (best_loop (suc i) (better i n acc) ns ≡ some p) × (p.1 ≤ n.f)
best_loop_head i none n ns h =
    let opened : ltb n.f closed ≡ true = lt→ltb n.f closed h in
    rw opened (best_loop_falls (suc i) i n.f ns)
best_loop_head i (some (j, l)) n ns h = elim (Bool-cases (ltb n.f closed && ltb n.f l)) [
  | inl lower ↦ rw lower (best_loop_falls (suc i) i n.f ns)
  | inr kept ↦ let (p, e, k) = best_loop_falls (suc i) j l ns in (p, rw kept e, ground arith)
]

best_loop_least :
    (i : ℕ) (acc : Option (ℕ × ℕ)) (ns : List AStarNode) (k : ℕ) (b : AStarNode)
    → get_elem? ns k ≡ some b
    → b.f < closed
    → (p : ℕ × ℕ) × (best_loop i acc ns ≡ some p) × (p.1 ≤ b.f)
unfolding best_loop
best_loop_least i acc [] k b e h = absurd (ground arith)
best_loop_least i acc (n ∷ ns) zero b e h =
    let same : n ≡ b = ground arith in
    subst (λ c. (p : ℕ × ℕ) × (best_loop (suc i) (better i n acc) ns ≡ some p) × (p.1 ≤ c.f)) same
      (best_loop_head i acc n ns (rw same h))
best_loop_least i acc (n ∷ ns) (suc k) b e h = best_loop_least (suc i) (better i n acc) ns k b e h

-- The index that `get_best_node` returns is that of an open node, and no open node has a smaller
-- estimate; if it returns none, then every node is closed.
pub get_best_node_lem :
    (n : AStarNodes)
    → ((j : ℕ)
        → get_best_node n ≡ some j
        → (b : AStarNode) × (get_elem? n.nodes j ≡ some b)
          × (b.f < closed)
          × ((k : ℕ) (c : AStarNode) → get_elem? n.nodes k ≡ some c → c.f < closed → b.f ≤ c.f))
      × (get_best_node n ≡ none
          → (k : ℕ) (c : AStarNode) → get_elem? n.nodes k ≡ some c
          → ¬ (c.f < closed))
unfolding get_best_node From
get_best_node_lem n = elim (Option-cases (best_loop 0 none n.nodes)) [
  | inl nothing ↦ (
    λ j e. absurd (ground arith),
    λ e k c at h. let (p, found, _) = best_loop_least 0 none n.nodes k c at h in ground arith,
  )
  | inr ((i, least), some_best) ↦ (
    λ j e. elim (best_loop-From 0 none n.nodes i least some_best) [
      | inl start ↦ absurd (ground arith)
      | inr (k, b, at, found, cost, opened) ↦
          let same : k ≡ j = ground arith in
          (
            b,
            rw (← same) found,
            rw cost opened,
            λ k' c at' h.
                let (p, found', low) = best_loop_least 0 none n.nodes k' c at' h in ground arith,
          )
    ],
    λ e k c at h. ground arith,
  )
]
