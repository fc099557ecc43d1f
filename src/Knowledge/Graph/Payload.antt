-- ===== src/Knowledge/Graph/Payload.antt =====
-- The payload of an artifact of crates/vesc-knowledge-index/src/graph.rs is read back.
use mathlib.Core.Path.{subst}
use vesc_mcp.Prelude.{
  ℕ, ◌+◌, ◌-◌, ◌*◌, ◌^◌, ◌<◌, ◌≤◌, ◌≡◌, refl, sym, true, List, [], ◌∷◌, ◌++◌, arith, ltb, leb,
  length, append_assoc, length-append, All, append-nil, ok, ok-injective, All-split, Ensures,
  Ensures-ok, Ensures-guard, Ensures-bind,
}
use vesc_mcp.Text.{Text, codes, text_eq_refl}
use vesc_mcp.Text.Utf8.{Bytes}
use vesc_mcp.Knowledge.Graph.{
  ContentDigest, GraphNode, GraphEdge, GraphArtifact, magic, u16_le, u32_le, max_nodes, max_edges,
  graph_artifact_schema_v1,
}
use vesc_mcp.Knowledge.Graph.Codec.{read_u16, bounded_count, write_node, write_edge}
use vesc_mcp.Knowledge.Graph.Decode.{
  write_nodes, write_edges, write_numbers, encode_payload, read_nodes, read_counts, read_group,
  read_edges, offsets_are_valid, decode_reverse_index, read_header, decode_payload,
}
use vesc_mcp.Knowledge.Graph.Grouped.{Grouped, done, next}
use vesc_mcp.Knowledge.Graph.Reverse.{IsReverse}
use vesc_mcp.Knowledge.Graph.Coded.{
  IsNode, IsEdge, take_bytes-append, read_u32-u32_le, write_node-read_node, write_edge-read_edge,
}

write_nodes-read_nodes :
    (nodes : List GraphNode)
    → All IsNode nodes
    → Ensures
        (λ bytes. (rest : Bytes) → read_nodes (length nodes) (bytes ++ rest) ≡ ok (nodes, rest))
        (write_nodes nodes)
unfolding write_nodes read_nodes
write_nodes-read_nodes [] w = Ensures-ok [] (λ rest. refl)
write_nodes-read_nodes (node ∷ nodes) w = Ensures-bind (write_node node) _ λ first put1.
    Ensures-bind (write_nodes nodes) _ λ more put2. Ensures-ok (first ++ more) λ rest.
      let one = (write_node-read_node node w.0).at first put1 in
      let others = (write_nodes-read_nodes nodes w.1).at more put2 in
      simp (append_assoc, one, others) refl

write_numbers-read_counts :
    (name : Text) (max : ℕ) (numbers : List ℕ) (rest : Bytes)
    → max < 2 ^ 32
    → All (λ n. n ≤ max) numbers
    → read_counts name max (length numbers) (write_numbers numbers ++ rest) ≡ ok (numbers, rest)
unfolding write_numbers read_counts bounded_count
write_numbers-read_counts name max [] rest h all = refl
write_numbers-read_counts name max (n ∷ ns) rest h all =
    let fits : leb n max ≡ true = ground (arith, all.0) in
    let number = read_u32-u32_le n (omega (arith, h, all.0)) (write_numbers ns ++ rest) in
    rw (number, fits) (rw (write_numbers-read_counts name max ns rest h all.1) refl)

-- `n` numbers are read back, whatever follows them.
numbers-read_counts :
    (name : Text) (max n : ℕ) (numbers : List ℕ)
    → max < 2 ^ 32
    → length numbers ≡ n
    → All (λ k. k ≤ max) numbers
    → (rest : Bytes) → read_counts name max n (write_numbers numbers ++ rest) ≡ ok (numbers, rest)
numbers-read_counts name max n numbers h size all rest =
    subst (λ k. read_counts name max k (write_numbers numbers ++ rest) ≡ ok (numbers, rest)) size
      (write_numbers-read_counts name max numbers rest h all)

-- The edges of one source are read back with it.
write_edges-read_group :
    (source : ContentDigest) (edges : List GraphEdge)
    → All IsEdge edges
    → All (λ e. e.source ≡ source) edges
    → Ensures
        (λ bytes.
          (rest : Bytes) → read_group source (length edges) (bytes ++ rest) ≡ ok (edges, rest))
        (write_edges edges)
unfolding write_edges read_group
write_edges-read_group source [] w same = Ensures-ok [] (λ rest. refl)
write_edges-read_group source (edge ∷ edges) w same = Ensures-bind (write_edge edge) _ λ first put1.
    Ensures-bind (write_edges edges) _ λ more put2. Ensures-ok (first ++ more) λ rest.
      let one = (write_edge-read_edge edge w.0).at first put1 in
      let others = (write_edges-read_group source edges w.1 same.1).at more put2 in
      rw (append_assoc first more rest, ← same.0) (rw (one (more ++ rest)) (rw (others rest) refl))

-- The encoding of two parts of the edges is the encoding of one and that of the other.
write_edges-append :
    (xs ys : List GraphEdge)
    → Ensures
        (λ bytes.
          (first : Bytes) × (rest : Bytes) × (write_edges xs ≡ ok first)
          × (write_edges ys ≡ ok rest)
          × (bytes ≡ first ++ rest))
        (write_edges (xs ++ ys))
unfolding write_edges
write_edges-append [] ys = record { at = λ bytes run. ([], bytes, refl, run, refl) }
write_edges-append (x ∷ xs) ys = Ensures-bind (write_edge x) _ λ one put1.
    Ensures-bind (write_edges (xs ++ ys)) _ λ more put2.
      let (first, rest, first_is, rest_is, whole) = (write_edges-append xs ys).at more put2 in
      Ensures-ok (one ++ more) (
        one ++ first,
        rest,
        rw (put1, first_is) refl,
        rest_is,
        rw whole (sym (append_assoc one first rest)),
      )

Grouped-read_edges :
    {nodes : List GraphNode} {offsets : List ℕ} {edges : List GraphEdge}
    → Grouped nodes offsets edges
    → All IsEdge edges
    → Ensures
        (λ bytes. (rest : Bytes) → read_edges nodes offsets (bytes ++ rest) ≡ ok (edges, rest))
        (write_edges edges)
unfolding read_edges write_edges
Grouped-read_edges done w = record { at = λ bytes run rest. rw (← ok-injective run) refl }
Grouped-read_edges (next {node = node} {start = start} {end = end} part edges size same more) w =
    record {
      at = λ bytes run rest.
          let (first, others, first_is, others_is, whole) =
            (write_edges-append part edges).at bytes run in
          let (mine, theirs) = All-split IsEdge part edges w in
          let count : end - start ≡ length part = omega (arith, size) in
          let one =
            (write_edges-read_group node.id part mine same).at first first_is (others ++ rest) in
          let two = (Grouped-read_edges more theirs).at others others_is rest in
          rw (whole, append_assoc first others rest, count, one, two) refl;
    }

-- The two counts that a header carries are within the limits.
read_header-encoded :
    (node_count edge_count : ℕ)
    → node_count ≤ max_nodes
    → edge_count ≤ max_edges
    → (rest : Bytes)
    → read_header (
        magic
        ++ u16_le graph_artifact_schema_v1.major
        ++ u16_le graph_artifact_schema_v1.minor
        ++ u32_le node_count
        ++ u32_le edge_count
        ++ rest)
      ≡ ok ((node_count, edge_count), rest)
unfolding read_header read_u16 bounded_count
read_header-encoded node_count edge_count few_nodes few_edges rest =
    let start = take_bytes-append 8 magic refl in
    let magic_is = text_eq_refl magic in
    let nodes = read_u32-u32_le node_count (omega (arith, few_nodes)) in
    let edges = read_u32-u32_le edge_count (omega (arith, few_edges)) in
    let nodes_fit : leb node_count max_nodes ≡ true = ground (arith, few_nodes) in
    let edges_fit : leb edge_count max_edges ≡ true = ground (arith, few_edges) in
    simp (start, magic_is, nodes, edges, nodes_fit, edges_fit) refl

decode_reverse_index-encoded :
    (n m : ℕ) (offsets indices : List ℕ)
    → m < 2 ^ 32
    → IsReverse n m offsets indices
    → decode_reverse_index n m (write_numbers offsets ++ write_numbers indices)
      ≡ ok ((offsets, indices), [])
unfolding decode_reverse_index
decode_reverse_index-encoded n m offsets indices small R =
    let first =
      numbers-read_counts (codes "reverse edge offset") m (n + 1) offsets small R.offsets_size
        R.offsets_fit in
    let second =
      numbers-read_counts (codes "reverse edge index") m m indices small R.indices_size
        R.indices_fit [] in
    let last = append-nil (write_numbers indices) in
    let valid = R.valid in rw (first, valid, ← last) (rw second refl)

-- What the reader needs of an artifact: the types of its parts and its two indexes.
pub record IsReadable (graph : GraphArtifact) : Type 0 where
  pub digest : length graph.corpus_digest ≡ 32
  pub nodes : All IsNode graph.nodes
  pub edges : All IsEdge graph.edges
  pub few_nodes : length graph.nodes ≤ max_nodes
  pub few_edges : length graph.edges ≤ max_edges
  pub offsets_size : length graph.forward_offsets ≡ length graph.nodes + 1
  pub offsets_fit : All (λ n. n ≤ length graph.edges) graph.forward_offsets
  pub offsets_valid : offsets_are_valid (length graph.edges) graph.forward_offsets ≡ true
  pub grouped : Grouped graph.nodes graph.forward_offsets graph.edges
  pub reverse :
      IsReverse
        (length graph.nodes)
        (length graph.edges)
        graph.reverse_offsets
        graph.reverse_edge_indices

-- The payload of an artifact decodes to the artifact.
pub encode_payload-decode_payload :
    (graph : GraphArtifact)
    → IsReadable graph
    → Ensures (λ payload. decode_payload payload ≡ ok graph) (encode_payload graph)
unfolding encode_payload decode_payload
encode_payload-decode_payload graph w = Ensures-guard (ltb (length graph.nodes) (2 ^ 32)) _ _ λ _.
    Ensures-guard (ltb (length graph.edges) (2 ^ 32)) _ _ λ _.
      Ensures-bind (write_nodes graph.nodes) _ λ nodes nodes_run.
        Ensures-bind (write_edges graph.edges) _ λ edges edges_run. Ensures-ok _ (
          let small : length graph.edges < 2 ^ 32 = omega (arith, w.few_edges) in
          let digest = take_bytes-append 32 graph.corpus_digest w.digest in
          let nodes_read = (write_nodes-read_nodes graph.nodes w.nodes).at nodes nodes_run in
          let offsets =
            numbers-read_counts (codes "edge offset") (length graph.edges) (length graph.nodes + 1)
              graph.forward_offsets small w.offsets_size w.offsets_fit in
          let edges_read = (Grouped-read_edges w.grouped w.edges).at edges edges_run in
          let header =
            read_header-encoded (length graph.nodes) (length graph.edges) w.few_nodes w.few_edges in
          let reverse =
            decode_reverse_index-encoded (length graph.nodes) (length graph.edges)
              graph.reverse_offsets graph.reverse_edge_indices small w.reverse in
          let valid = w.offsets_valid in
          simp (append_assoc, header, digest, nodes_read, offsets, valid, edges_read, reverse) refl)

write_numbers-size : (ns : List ℕ) → length ns * 4 ≤ length (write_numbers ns)
unfolding write_numbers
write_numbers-size [] = omega arith
write_numbers-size (n ∷ ns) = omega (arith, write_numbers-size ns)

-- A payload has its header, the digest and two offsets at least.
pub encode_payload-length :
    (graph : GraphArtifact)
    → IsReadable graph
    → Ensures (λ payload. 60 ≤ length payload) (encode_payload graph)
unfolding encode_payload
encode_payload-length graph w = Ensures-guard (ltb (length graph.nodes) (2 ^ 32)) _ _ λ _.
    Ensures-guard (ltb (length graph.edges) (2 ^ 32)) _ _ λ _.
      Ensures-bind (write_nodes graph.nodes) _ λ nodes _.
        Ensures-bind (write_edges graph.edges) _ λ edges _.
          let forward = write_numbers graph.forward_offsets in
          let reverse = write_numbers graph.reverse_offsets in
          let indices = write_numbers graph.reverse_edge_indices in
          let digest = graph.corpus_digest in
          Ensures-ok _ (
            omega (
              arith,
              w.digest,
              w.offsets_size,
              w.reverse.offsets_size,
              write_numbers-size graph.forward_offsets,
              write_numbers-size graph.reverse_offsets,
              length-append digest nodes,
              length-append (digest ++ nodes) forward,
              length-append (digest ++ nodes ++ forward) edges,
              length-append (digest ++ nodes ++ forward ++ edges) reverse,
              length-append (digest ++ nodes ++ forward ++ edges ++ reverse) indices,
            ))
