-- ===== src/Formats/Node/RoundTrip.antt =====
-- About trees written with their special bytes escaped and read back (crates/formats/src/node.rs).
use package.oxidia.Prelude.{
  ℕ, zero, suc, ◌≤◌, ◌<◌, ◌≡◌, refl, sym, ap, ◌∙◌, [], ◌∷◌, ◌++◌, arith, length, Bool-cases, inl,
  inr, if◌then◌else◌, leb, append_assoc, append-nil, false, ◌==◌,
}
use package.oxidia.Protocol.Bytes.{Bytes}
use package.oxidia.Formats.Error.{Outcome}
use package.oxidia.Formats.Node.{
  Node, Nodes, push, start, end_marker, escape, parse_node, parse_tree,
}

-- Writers in front of the bytes that follow. A byte from 0xfd on is escaped.
unfoldable pub write_props : Bytes → Bytes → Bytes
write_props [] tail = tail
write_props (b ∷ bs) tail =
    let rest = write_props bs tail in if leb escape b then escape ∷ b ∷ rest else b ∷ rest

unfoldable pub write_nodes : Nodes → Bytes → Bytes
write_nodes Nodes.nil tail = tail
write_nodes (Nodes.cons (Node.node kind props children) ns) tail =
    start ∷ kind ∷ write_props props (write_nodes children (end_marker ∷ write_nodes ns tail))

unfoldable pub append : Nodes → Nodes → Nodes
append Nodes.nil ms = ms
append (Nodes.cons n ns) ms = Nodes.cons n (append ns ms)

append-push :
    (ns : Nodes) (c : Node) (ms : Nodes) → append (push ns c) ms ≡ append ns (Nodes.cons c ms)
unfolding append push
append-push Nodes.nil c ms = refl
append-push (Nodes.cons n ns) c ms = ap (Nodes.cons n) (append-push ns c ms)

length-write_props : (ps tail : Bytes) → length tail ≤ length (write_props ps tail)
unfolding write_props
length-write_props [] tail = omega arith
length-write_props (b ∷ bs) tail = ground (arith, length-write_props bs tail)

length-write_nodes : (ns : Nodes) (tail : Bytes) → length tail ≤ length (write_nodes ns tail)
unfolding write_nodes
length-write_nodes Nodes.nil tail = omega arith
length-write_nodes (Nodes.cons (Node.node kind props children) ns) tail =
    let after = end_marker ∷ write_nodes ns tail in
    omega (
      arith,
      length-write_nodes ns tail,
      length-write_nodes children after,
      length-write_props props (write_nodes children after),
    )

plain_byte :
    (fuel b : ℕ) (rest : Bytes) (kind : ℕ) (props : Bytes) (children : Nodes)
    → leb escape b ≡ false
    → parse_node (suc fuel) (b ∷ rest) kind props children
      ≡ parse_node fuel rest kind (props ++ (b ∷ [])) children
unfolding parse_node
plain_byte fuel b [] kind props children h =
    let e1 : (b == start) ≡ false = ground arith in
    let e2 : (b == end_marker) ≡ false = ground arith in
    let e3 : (b == escape) ≡ false = ground arith in rw (e1, e2, e3) refl
plain_byte fuel b (c ∷ rest) kind props children h =
    let e1 : (b == start) ≡ false = ground arith in
    let e2 : (b == end_marker) ≡ false = ground arith in
    let e3 : (b == escape) ≡ false = ground arith in rw (e1, e2, e3) refl

escaped_byte :
    (fuel b : ℕ) (rest : Bytes) (kind : ℕ) (props : Bytes) (children : Nodes)
    → parse_node (suc fuel) (escape ∷ b ∷ rest) kind props children
      ≡ parse_node fuel rest kind (props ++ (b ∷ [])) children
unfolding parse_node
escaped_byte fuel b rest kind props children = refl

parse_node-write_props :
    (fuel : ℕ) (ps tail : Bytes) (kind : ℕ) (props : Bytes) (children : Nodes)
    → length (write_props ps tail) < fuel
    → (left : ℕ) × (length tail < left)
      × (parse_node fuel (write_props ps tail) kind props children
          ≡ parse_node left tail kind (props ++ ps) children)
unfolding write_props
parse_node-write_props fuel [] tail kind props children h =
    (fuel, h, ap (λ p. parse_node fuel tail kind p children) (sym (append-nil props)))
parse_node-write_props zero (b ∷ bs) tail kind props children h = absurd (omega arith)
parse_node-write_props (suc fuel) (b ∷ bs) tail kind props children h =
    let parsed = λ (p : Bytes). parse_node (suc fuel) p kind props children in
    let (left, k, e) =
      parse_node-write_props fuel bs tail kind (props ++ (b ∷ [])) children (ground arith) in
    let joined = ap (λ p. parse_node left tail kind p children) (append_assoc props (b ∷ []) bs) in
    elim (Bool-cases (leb escape b)) [
      | inl special ↦
          let shape : write_props (b ∷ bs) tail ≡ escape ∷ b ∷ write_props bs tail =
            rw special refl in
          (
            left,
            k,
            ap parsed shape
                ∙ escaped_byte fuel b (write_props bs tail) kind props children
                ∙ e
                ∙ joined,
          )
      | inr plain ↦
          let shape : write_props (b ∷ bs) tail ≡ b ∷ write_props bs tail = rw plain refl in
          (
            left,
            k,
            ap parsed shape
                ∙ plain_byte fuel b (write_props bs tail) kind props children plain
                ∙ e
                ∙ joined,
          )
    ]

closing :
    (fuel : ℕ) (tail : Bytes) (kind : ℕ) (props : Bytes) (children : Nodes)
    → parse_node (suc fuel) (end_marker ∷ tail) kind props children
      ≡ Outcome.done (Node.node kind props children, tail)
unfolding parse_node
closing fuel [] kind props children = refl
closing fuel (b ∷ tail) kind props children = refl

opening :
    (fuel sub : ℕ) (rest : Bytes) (kind : ℕ) (props : Bytes) (children : Nodes) (c : Node)
    (r : Bytes)
    → parse_node fuel rest sub [] Nodes.nil ≡ Outcome.done (c, r)
    → parse_node (suc fuel) (start ∷ sub ∷ rest) kind props children
      ≡ parse_node fuel r kind props (push children c)
unfolding parse_node
opening fuel sub rest kind props children c r e = rw e refl

append-nil_right : (ns : Nodes) → append ns Nodes.nil ≡ ns
unfolding append
append-nil_right Nodes.nil = refl
append-nil_right (Nodes.cons n ns) = ap (Nodes.cons n) (append-nil_right ns)

nil-append : (ns : Nodes) → append Nodes.nil ns ≡ ns
unfolding append
nil-append ns = refl

parse_node-write_nodes :
    (ns : Nodes) (fuel : ℕ) (tail : Bytes) (kind : ℕ) (props : Bytes) (children : Nodes)
    → length (write_nodes ns (end_marker ∷ tail)) < fuel
    → parse_node fuel (write_nodes ns (end_marker ∷ tail)) kind props children
      ≡ Outcome.done (Node.node kind props (append children ns), tail)
unfolding write_nodes
parse_node-write_nodes ns zero tail kind props children h = absurd (omega arith)
parse_node-write_nodes Nodes.nil (suc fuel) tail kind props children h =
    closing fuel tail kind props children
    ∙ ap (λ cs. Outcome.done (Node.node kind props cs, tail)) (sym (append-nil_right children))
parse_node-write_nodes (Nodes.cons (Node.node sub ps inner) ns) (suc fuel) tail kind props children
      h =
    let after = write_nodes ns (end_marker ∷ tail) in
    let body = write_nodes inner (end_marker ∷ after) in
    let (left, k, e) = parse_node-write_props fuel ps body sub [] Nodes.nil (omega arith) in
    let child : parse_node fuel (write_props ps body) sub [] Nodes.nil
        ≡ Outcome.done (Node.node sub ps inner, after) =
      e
      ∙ parse_node-write_nodes inner left after sub ps Nodes.nil k
      ∙ ap (λ cs. Outcome.done (Node.node sub ps cs, after)) (nil-append inner) in
    let small : length after < fuel =
      omega (arith, length-write_props ps body, length-write_nodes inner (end_marker ∷ after)) in
    opening fuel sub (write_props ps body) kind props children (Node.node sub ps inner) after child
    ∙ parse_node-write_nodes ns fuel tail kind props (push children (Node.node sub ps inner)) small
    ∙ ap (λ cs. Outcome.done (Node.node kind props cs, tail))
        (append-push children (Node.node sub ps inner) ns)

-- Any tree, written behind four bytes of identifier with every special byte of its properties
-- escaped, is read back, whatever stands behind it in the file.
pub parse_tree-write_nodes :
    (a b c d kind : ℕ) (props : Bytes) (children : Nodes) (tail : Bytes)
    → parse_tree
        (a ∷ b ∷ c ∷ d ∷ write_nodes (Nodes.cons (Node.node kind props children) Nodes.nil) tail)
      ≡ Outcome.done (Node.node kind props children)
unfolding parse_tree write_nodes
parse_tree-write_nodes a b c d kind props children tail =
    let body = write_nodes children (end_marker ∷ tail) in
    let (left, k, e) =
      parse_node-write_props (suc (length (write_props props body))) props body kind [] Nodes.nil
        (omega arith) in
    let root =
      e
      ∙ parse_node-write_nodes children left tail kind props Nodes.nil k
      ∙ ap (λ cs. Outcome.done (Node.node kind props cs, tail)) (nil-append children) in
    rw root refl
