-- ===== src/Tests/Files.antt =====
-- The node tree of the item and map files.
use oxidia.Prelude.{◌≤◌, ◌≡◌, ◌≢◌, [], ◌∷◌, arith, length}
use oxidia.Protocol.Bytes.{Bytes}
use oxidia.Formats.Error.{Outcome}
use oxidia.Formats.Node.{Node, Nodes, parse_node, parse_tree}
use oxidia.Formats.Node.RoundTrip.{write_nodes, parse_tree-write_nodes}
use oxidia.Formats.Node.Total.{parse_node_total, parse_tree_total}

-- A child whose property is a byte that has to be escaped.
abbrev child : Node
child = Node.node 5 (0xfe ∷ []) Nodes.nil

parse_tree-write_nodes_example :
    parse_tree (
      0
      ∷ 0
      ∷ 0
      ∷ 0
      ∷ write_nodes (Nodes.cons (Node.node 1 (7 ∷ []) (Nodes.cons child Nodes.nil)) Nodes.nil) [])
    ≡ Outcome.done (Node.node 1 (7 ∷ []) (Nodes.cons child Nodes.nil))
parse_tree-write_nodes_example =
    parse_tree-write_nodes 0 0 0 0 1 (7 ∷ []) (Nodes.cons child Nodes.nil) []

-- The file of the first unit test of node.rs, with the last byte cut off.
abbrev cut_file : Bytes
cut_file = 0 ∷ 0 ∷ 0 ∷ 0 ∷ 0xfe ∷ 5 ∷ 0xaa ∷ 0xbb ∷ []

parse_tree_total_example : ¬ (parse_tree cut_file ≡ Outcome.out_of_fuel)
parse_tree_total_example = parse_tree_total cut_file

parse_node_total_example :
    (parse_node 9 cut_file 5 [] Nodes.nil ≢ Outcome.out_of_fuel)
    × ((n : Node) (r : Bytes)
        → parse_node 9 cut_file 5 [] Nodes.nil ≡ Outcome.done (n, r)
        → length r ≤ length cut_file)
parse_node_total_example = parse_node_total 9 cut_file 5 [] Nodes.nil (omega arith)
