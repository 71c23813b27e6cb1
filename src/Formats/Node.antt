-- ===== src/Formats/Node.antt =====
-- The node tree of `.otb` and `.otbm` files (crates/formats/src/node.rs). A position in the file is
-- the bytes from it on; `parse_node` is recursive and has a loop, and both take from one fuel.
pub mod RoundTrip
pub mod Total
use package.oxidia.Prelude.{
  ℕ, zero, suc, ◌+◌, Bool, List, [], ◌∷◌, ◌++◌, if◌then◌else◌, ltb, ◌==◌, length, not,
}
use package.oxidia.Protocol.Bytes.{Bytes}
use package.oxidia.Formats.Error.{What, FormatError, Outcome, and_then}

mutual
  pub data Node : Type 0 where
    node : ℕ → Bytes → Nodes → Node

  pub data Nodes : Type 0 where
    nil : Nodes
    cons : Node → Nodes → Nodes

-- `children.push(c)`
unfoldable pub push : Nodes → Node → Nodes
push Nodes.nil c = Nodes.cons c Nodes.nil
push (Nodes.cons n ns) c = Nodes.cons n (push ns c)

abbrev pub start : ℕ
start = 0xfe

abbrev pub end_marker : ℕ
end_marker = 0xff

abbrev pub escape : ℕ
escape = 0xfd

abbrev pub eof : What → Outcome (Node × Bytes)
eof what = Outcome.failed (FormatError.unexpected_eof what)

-- The four arms of the `match`, on what each gives.
abbrev pub arm :
    ℕ
    → Outcome (Node × Bytes)
    → Outcome (Node × Bytes)
    → Outcome (Node × Bytes)
    → Outcome (Node × Bytes)
    → Outcome (Node × Bytes)
arm byte on_start on_end on_escape on_other =
    if byte == start
    then on_start
    else (if byte == end_marker then on_end else (if byte == escape then on_escape else on_other))

-- The loop, on the properties and children so far.
unfoldable pub parse_node : ℕ → Bytes → ℕ → Bytes → Nodes → Outcome (Node × Bytes)
parse_node zero bs kind props children = Outcome.out_of_fuel
parse_node (suc fuel) [] kind props children = eof What.node_body
parse_node (suc fuel) (byte ∷ []) kind props children =
    let on_other = parse_node fuel [] kind (props ++ (byte ∷ [])) children in
    arm byte (eof What.child_type) (Outcome.done (Node.node kind props children, []))
      (eof What.escaped_byte) on_other
parse_node (suc fuel) (byte ∷ next ∷ rest) kind props children =
    let on_start =
      and_then (parse_node fuel rest next [] Nodes.nil)
        (λ (c : Node × Bytes). parse_node fuel c.1 kind props (push children c.0)) in
    let on_escape = parse_node fuel rest kind (props ++ (next ∷ [])) children in
    let on_other = parse_node fuel (next ∷ rest) kind (props ++ (byte ∷ [])) children in
    arm byte on_start (Outcome.done (Node.node kind props children, next ∷ rest)) on_escape on_other

abbrev node_of : Outcome (Node × Bytes) → Outcome Node
node_of r = and_then r (λ (c : Node × Bytes). Outcome.done c.0)

unfoldable pub parse_tree : Bytes → Outcome Node
parse_tree (_ ∷ _ ∷ _ ∷ _ ∷ marker ∷ kind ∷ rest) =
    let root = node_of (parse_node (suc (length rest)) rest kind [] Nodes.nil) in
    if not (marker == start)
    then Outcome.failed (FormatError.invalid_node What.root_start)
    else root
parse_tree _ = Outcome.failed (FormatError.unexpected_eof What.node_header)
