-- ===== src/Knowledge/Graph/Coded.antt =====
-- The encodings of a node and of an edge of crates/vesc-knowledge-index/src/graph.rs are read back.
use vesc_mcp.Prelude.{
  ℕ, ◌^◌, ◌<◌, ◌≡◌, refl, Bool, true, false, not, [], ◌∷◌, ◌++◌, arith, ltb, leb, length,
  append_assoc, length-append, take-append_length, drop-append_length, ok, Ensures, Ensures-ok,
  Ensures-guard, Ensures-bind,
}
use vesc_mcp.Text.{Text}
use vesc_mcp.Text.Utf8.{Bytes, as_bytes, byte_len, AreScalar, from_utf8-as_bytes}
use vesc_mcp.Knowledge.Graph.{GraphNode, GraphEdge, u16_le, u32_le, max_string_bytes}
use vesc_mcp.Knowledge.Graph.Codec.{
  take_bytes, read_u8, read_u16, read_u32, read_string, bounded_count, put_string, write_node,
  read_node, write_edge, read_edge, verified_of, flag,
}

-- What the types of the source say of a node and of an edge: u32 numbers, texts of scalar values and
-- digests of 32 bytes.
pub record IsNode (node : GraphNode) : Type 0 where
  pub id : length node.id ≡ 32
  pub repository : AreScalar node.repository
  pub revision : AreScalar node.revision
  pub path : AreScalar node.path
  pub start_line : node.start_line < 2 ^ 32
  pub end_line : node.end_line < 2 ^ 32
  pub start_byte : node.start_byte < 2 ^ 32
  pub end_byte : node.end_byte < 2 ^ 32
  pub symbol : AreScalar node.symbol
  pub kind : AreScalar node.kind

pub record IsEdge (edge : GraphEdge) : Type 0 where
  pub target : length edge.target ≡ 32
  pub node : length edge.evidence.node ≡ 32
  pub start_line : edge.evidence.start_line < 2 ^ 32
  pub end_line : edge.evidence.end_line < 2 ^ 32
  pub start_byte : edge.evidence.start_byte < 2 ^ 32
  pub end_byte : edge.evidence.end_byte < 2 ^ 32
  pub relation : AreScalar edge.relation
  pub extractor : AreScalar edge.extractor

pub take_bytes-append :
    (n : ℕ) (xs : Bytes) → length xs ≡ n → (ys : Bytes) → take_bytes n (xs ++ ys) ≡ ok (xs, ys)
unfolding take_bytes
take_bytes-append n xs h ys =
    let fits : leb n (length (xs ++ ys)) ≡ true = ground (arith, length-append xs ys, h) in
    rw fits (rw (← h) (rw (take-append_length xs ys, drop-append_length xs ys) refl))

pub read_u16-u16_le :
    (n : ℕ) (rest : Bytes) → n < 2 ^ 16 → read_u16 (u16_le n ++ rest) ≡ ok (n, rest)
unfolding read_u16
read_u16-u16_le n rest h = ground arith

pub read_u32-u32_le :
    (n : ℕ) → n < 2 ^ 32 → (rest : Bytes) → read_u32 (u32_le n ++ rest) ≡ ok (n, rest)
unfolding read_u32
read_u32-u32_le n h rest = ground arith

pub put_string-read_string :
    (t : Text)
    → AreScalar t
    → Ensures (λ bytes. (rest : Bytes) → read_string (bytes ++ rest) ≡ ok (t, rest)) (put_string t)
unfolding put_string read_string bounded_count
put_string-read_string t scalar =
    Ensures-guard (not (ltb max_string_bytes (byte_len t))) _ _ λ short.
      Ensures-ok (u32_le (byte_len t) ++ as_bytes t) λ rest.
        let small : leb (byte_len t) max_string_bytes ≡ true = ground (arith, short) in
        let number = read_u32-u32_le (byte_len t) (ground (arith, short)) (as_bytes t ++ rest) in
        rw number (
          rw small (
            rw (take_bytes-append (byte_len t) (as_bytes t) refl rest)
              (rw (from_utf8-as_bytes t scalar) refl)))

abbrev Reads : Text → Bytes → Type 0
Reads t bytes = (rest : Bytes) → read_string (bytes ++ rest) ≡ ok (t, rest)

module _ (node : GraphNode) (w : IsNode node) (repository revision path symbol kind : Bytes)
    (read_repository : Reads node.repository repository)
    (read_revision : Reads node.revision revision) (read_path : Reads node.path path)
    (read_symbol : Reads node.symbol symbol) (read_kind : Reads node.kind kind) where
  read_node_parts :
      (rest : Bytes)
      → read_node (
          (node.id
            ++ repository
            ++ revision
            ++ path
            ++ u32_le node.start_line
            ++ u32_le node.end_line
            ++ u32_le node.start_byte
            ++ u32_le node.end_byte
            ++ symbol
            ++ kind)
          ++ rest)
        ≡ ok (node, rest)
  unfolding read_node
  read_node_parts rest =
      let id = take_bytes-append 32 node.id w.id in
      let start_line = read_u32-u32_le node.start_line w.start_line in
      let end_line = read_u32-u32_le node.end_line w.end_line in
      let start_byte = read_u32-u32_le node.start_byte w.start_byte in
      let end_byte = read_u32-u32_le node.end_byte w.end_byte in
      simp
        (
          append_assoc, id, read_repository, read_revision, read_path, read_symbol, read_kind,
          start_line, end_line, start_byte, end_byte,
        )
        refl

-- The encoding of a node is read back as that node.
pub write_node-read_node :
    (node : GraphNode)
    → IsNode node
    → Ensures
        (λ bytes. (rest : Bytes) → read_node (bytes ++ rest) ≡ ok (node, rest))
        (write_node node)
unfolding write_node
write_node-read_node node w = Ensures-bind (put_string node.repository) _ λ repository put1.
    Ensures-bind (put_string node.revision) _ λ revision put2.
      Ensures-bind (put_string node.path) _ λ path put3.
        Ensures-bind (put_string node.symbol) _ λ symbol put4.
          Ensures-bind (put_string node.kind) _ λ kind put5. Ensures-ok _ (
            read_node_parts node w repository revision path symbol kind
              ((put_string-read_string node.repository w.repository).at repository put1)
              ((put_string-read_string node.revision w.revision).at revision put2)
              ((put_string-read_string node.path w.path).at path put3)
              ((put_string-read_string node.symbol w.symbol).at symbol put4)
              ((put_string-read_string node.kind w.kind).at kind put5))

verified_of-flag : (b : Bool) → verified_of (flag b) ≡ ok b
unfolding verified_of
verified_of-flag true = refl
verified_of-flag false = refl

module _ (edge : GraphEdge) (w : IsEdge edge) (relation extractor : Bytes)
    (read_relation : Reads edge.relation relation)
    (read_extractor : Reads edge.extractor extractor) where
  read_edge_parts :
      (rest : Bytes)
      → read_edge edge.source (
          (edge.target
            ++ edge.evidence.node
            ++ u32_le edge.evidence.start_line
            ++ u32_le edge.evidence.end_line
            ++ u32_le edge.evidence.start_byte
            ++ u32_le edge.evidence.end_byte
            ++ relation
            ++ extractor
            ++ (edge.confidence ∷ flag edge.verified ∷ []))
          ++ rest)
        ≡ ok (edge, rest)
  unfolding read_edge read_u8
  read_edge_parts rest =
      let target = take_bytes-append 32 edge.target w.target in
      let node = take_bytes-append 32 edge.evidence.node w.node in
      let start_line = read_u32-u32_le edge.evidence.start_line w.start_line in
      let end_line = read_u32-u32_le edge.evidence.end_line w.end_line in
      let start_byte = read_u32-u32_le edge.evidence.start_byte w.start_byte in
      let end_byte = read_u32-u32_le edge.evidence.end_byte w.end_byte in
      let verified = verified_of-flag edge.verified in
      simp
        (
          append_assoc, target, node, read_relation, read_extractor, start_line, end_line,
          start_byte, end_byte, verified,
        )
        refl

-- The encoding of an edge is read back as that edge from its source.
pub write_edge-read_edge :
    (edge : GraphEdge)
    → IsEdge edge
    → Ensures
        (λ bytes. (rest : Bytes) → read_edge edge.source (bytes ++ rest) ≡ ok (edge, rest))
        (write_edge edge)
unfolding write_edge
write_edge-read_edge edge w = Ensures-bind (put_string edge.relation) _ λ relation put1.
    Ensures-bind (put_string edge.extractor) _ λ extractor put2. Ensures-ok _ (
      read_edge_parts edge w relation extractor
        ((put_string-read_string edge.relation w.relation).at relation put1)
        ((put_string-read_string edge.extractor w.extractor).at extractor put2))
