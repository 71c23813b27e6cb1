-- ===== src/Formats/Node/Total.antt =====
-- About the fuel of the parser of crates/formats/src/node.rs.
use package.oxidia.Prelude.{
  ℕ, zero, suc, ◌≤◌, ◌<◌, ◌≡◌, ◌≢◌, refl, subst, [], ◌∷◌, ◌++◌, arith, length, Bool-cases, inl, inr,
  ◌==◌, not,
}
use package.oxidia.Protocol.Bytes.{Bytes}
use package.oxidia.Formats.Error.{Outcome, and_then}
use package.oxidia.Formats.Node.{
  Node, Nodes, push, start, end_marker, escape, arm, parse_node, parse_tree,
}

-- A result that is not short of fuel and leaves no more bytes than it was given.
abbrev Settled : Bytes → Outcome (Node × Bytes) → Type 0
Settled bs (Outcome.done (n, r)) = length r ≤ length bs
Settled bs (Outcome.failed e) = Unit
Settled bs Outcome.out_of_fuel = ⊥

arm-Settled :
    (bs : Bytes) (byte : ℕ) (a b c d : Outcome (Node × Bytes))
    → Settled bs a
    → Settled bs b
    → Settled bs c
    → Settled bs d
    → Settled bs (arm byte a b c d)
arm-Settled bs byte a b c d ha hb hc hd = elim (Bool-cases (byte == start)) [
  | inl e ↦ rw e ha
  | inr e ↦ elim (Bool-cases (byte == end_marker)) [
    | inl f ↦ rw (e, f) hb
    | inr f ↦ elim (Bool-cases (byte == escape)) [
      | inl g ↦ rw (e, f, g) hc
      | inr g ↦ rw (e, f, g) hd
    ]
  ]
]

weaken :
    (bs cs : Bytes) (o : Outcome (Node × Bytes))
    → length bs ≤ length cs
    → Settled bs o
    → Settled cs o
weaken bs cs (Outcome.done (n, r)) h s = omega arith
weaken bs cs (Outcome.failed e) h s = tt
weaken bs cs Outcome.out_of_fuel h s = s

then-Settled :
    (bs cs : Bytes) (o : Outcome (Node × Bytes)) (k : Node × Bytes → Outcome (Node × Bytes))
    → Settled bs o
    → ((n : Node) (r : Bytes) → length r ≤ length bs → Settled cs (k (n, r)))
    → Settled cs (and_then o k)
then-Settled bs cs (Outcome.done (n, r)) k s h = h n r s
then-Settled bs cs (Outcome.failed e) k s h = tt
then-Settled bs cs Outcome.out_of_fuel k s h = absurd s

parse_node-Settled :
    (fuel : ℕ) (bs : Bytes) (kind : ℕ) (props : Bytes) (children : Nodes)
    → length bs < fuel
    → Settled bs (parse_node fuel bs kind props children)
unfolding parse_node
parse_node-Settled zero bs kind props children h = absurd (omega arith)
parse_node-Settled (suc fuel) [] kind props children h = tt
parse_node-Settled (suc fuel) (byte ∷ []) kind props children h =
    arm-Settled (byte ∷ []) byte _ _ _ _ tt (omega arith) tt (
      weaken [] (byte ∷ []) _ (omega arith)
        (parse_node-Settled fuel [] kind (props ++ (byte ∷ [])) children (omega arith)))
parse_node-Settled (suc fuel) (byte ∷ next ∷ rest) kind props children h =
    let all = byte ∷ next ∷ rest in
    arm-Settled all byte _ _ _ _
      (then-Settled rest all (parse_node fuel rest next [] Nodes.nil) _
        (parse_node-Settled fuel rest next [] Nodes.nil (omega arith))
        (λ n r k.
          weaken r all _ (omega arith)
            (parse_node-Settled fuel r kind props (push children n) (omega arith))))
      (omega arith)
      (weaken rest all _ (omega arith)
        (parse_node-Settled fuel rest kind (props ++ (next ∷ [])) children (omega arith)))
      (weaken (next ∷ rest) all _ (omega arith)
        (parse_node-Settled fuel (next ∷ rest) kind (props ++ (byte ∷ [])) children (omega arith)))

Settled-ne : (bs : Bytes) (o : Outcome (Node × Bytes)) → Settled bs o → o ≢ Outcome.out_of_fuel
Settled-ne bs o s e = subst (Settled bs) e s

-- The parser of a node ends with a node or an error on every input, given more fuel than the input
-- has bytes, and hands on no more bytes than it was given.
pub parse_node_total :
    (fuel : ℕ) (bs : Bytes) (kind : ℕ) (props : Bytes) (children : Nodes)
    → length bs < fuel
    → (parse_node fuel bs kind props children ≢ Outcome.out_of_fuel)
      × ((n : Node) (r : Bytes)
          → parse_node fuel bs kind props children ≡ Outcome.done (n, r)
          → length r ≤ length bs)
parse_node_total fuel bs kind props children h =
    let s = parse_node-Settled fuel bs kind props children h in
    (Settled-ne bs _ s, λ n r e. subst (Settled bs) e s)

node_out :
    (o : Outcome (Node × Bytes))
    → and_then o (λ (c : Node × Bytes). Outcome.done c.0) ≡ Outcome.out_of_fuel
    → o ≡ Outcome.out_of_fuel
node_out (Outcome.done c) e = absurd (ground arith)
node_out (Outcome.failed f) e = absurd (ground arith)
node_out Outcome.out_of_fuel e = refl

-- The parser of a file ends with a tree or an error whatever the file holds.
pub parse_tree_total : (bs : Bytes) → parse_tree bs ≢ Outcome.out_of_fuel
unfolding parse_tree
parse_tree_total [] e = absurd (ground arith)
parse_tree_total (a ∷ []) e = absurd (ground arith)
parse_tree_total (a ∷ b ∷ []) e = absurd (ground arith)
parse_tree_total (a ∷ b ∷ c ∷ []) e = absurd (ground arith)
parse_tree_total (a ∷ b ∷ c ∷ d ∷ []) e = absurd (ground arith)
parse_tree_total (a ∷ b ∷ c ∷ d ∷ m ∷ []) e = absurd (ground arith)
parse_tree_total (a ∷ b ∷ c ∷ d ∷ m ∷ kind ∷ rest) e = elim (Bool-cases (not (m == start))) [
  | inl missing ↦ absurd (ground arith)
  | inr there ↦
      (parse_node_total (suc (length rest)) rest kind [] Nodes.nil (omega arith)).0
        (node_out (parse_node (suc (length rest)) rest kind [] Nodes.nil) (rw there at e))
]
