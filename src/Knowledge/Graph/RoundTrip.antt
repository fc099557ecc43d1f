-- ===== src/Knowledge/Graph/RoundTrip.antt =====
-- `decode` reads back what `encode` of crates/vesc-knowledge-index/src/graph.rs writes.
use vesc_mcp.Prelude.{
  ℕ, ◌+◌, ◌-◌, ◌≤◌, ◌≡◌, refl, sym, ap, ◌∙◌, true, List, [], ◌∷◌, ◌++◌, arith, leb, length,
  length-append, below-zero, take-append_length, drop-append_length, All, ok, bind-ok, ok-injective,
}
use mathlib.Core.Path.{subst}
use mathlib.Core.Option.{some-injective}
use vesc_mcp.Knowledge.Graph.Index.{node_indexes}
use vesc_mcp.Text.{text_eq_refl}
use vesc_mcp.Text.Utf8.{Bytes}
use vesc_mcp.Knowledge.Graph.{ContentDigest, GraphNode, GraphEdge, GraphArtifact}
use vesc_mcp.Knowledge.Graph.Validate.{validate}
use vesc_mcp.Knowledge.Graph.Decode.{
  encode_payload, decode_payload, encode, decode, min_length, offsets_are_valid,
}
use vesc_mcp.Knowledge.Graph.Coded.{IsNode, IsEdge}
use vesc_mcp.Knowledge.Graph.Forward.{IsForward, source_index, build_forward_index-Ensures}
use vesc_mcp.Knowledge.Graph.Valid.{IsValid, validate-IsValid}
use vesc_mcp.Knowledge.Graph.EdgeOrder.{validate_edges-Ascends}
use vesc_mcp.Knowledge.Graph.Grouped.{Grouped, forward-Grouped, Grouped-climbs_to, climbs_to-All}
use vesc_mcp.Knowledge.Graph.Decode.{climbs_to}
use vesc_mcp.Knowledge.Graph.Indexed.{build_reverse_index-IsReverse}
use vesc_mcp.Knowledge.Graph.Payload.{
  IsReadable, encode_payload-decode_payload, encode_payload-length,
}

-- What the types of the source say of an artifact.
pub record IsGraph (graph : GraphArtifact) : Type 0 where
  pub digest : length graph.corpus_digest ≡ 32
  pub nodes : All IsNode graph.nodes
  pub edges : All IsEdge graph.edges

-- A digest function has digests of 32 bytes.
abbrev pub IsDigest : (Bytes → ContentDigest) → Type 0
IsDigest sha256 = (bytes : Bytes) → length (sha256 bytes) ≡ 32

record Offsets (graph : GraphArtifact) (offsets : List ℕ) : Type 0 where
  pub fit : All (λ n. n ≤ length graph.edges) offsets
  pub valid : offsets_are_valid (length graph.edges) offsets ≡ true

zero_first :
    (nodes : List GraphNode) (edges : List GraphEdge) (offsets : List ℕ)
    → IsForward nodes edges offsets
    → (rest : List ℕ) × (offsets ≡ 0 ∷ rest)
zero_first nodes edges [] F = absurd (omega (arith, F.size))
zero_first nodes edges (o ∷ rest) F =
    let zero_is =
      some-injective _ _ (F.offset 0 (omega arith))
      ∙ below-zero (source_index (node_indexes nodes)) edges in
    (rest, ap (λ n. n ∷ rest) zero_is)

grouped-Offsets :
    (graph : GraphArtifact) (rest : List ℕ)
    → Grouped graph.nodes (0 ∷ rest) graph.edges
    → Offsets graph (0 ∷ rest)
grouped-Offsets graph rest G =
    let plain : 0 + length graph.edges ≡ length graph.edges = omega arith in
    let climbs = subst (λ n. climbs_to n 0 rest ≡ true) plain (Grouped-climbs_to G) in
    record {
      fit = (omega arith, (climbs_to-All (length graph.edges) 0 rest climbs).1);
      valid = ground (arith, climbs);
    }

valid-IsReadable :
    (sha256 : Bytes → ContentDigest) (graph : GraphArtifact)
    → IsValid sha256 graph
    → IsGraph graph
    → IsReadable graph
valid-IsReadable sha256 graph V w =
    let F =
      (build_forward_index-Ensures graph.nodes graph.edges).at graph.forward_offsets V.forward in
    let G = forward-Grouped graph.nodes graph.edges graph.forward_offsets V.sorted F in
    let (rest, first) = zero_first graph.nodes graph.edges graph.forward_offsets F in
    let O =
      subst (Offsets graph) (sym first)
        (grouped-Offsets graph rest (subst (λ o. Grouped graph.nodes o graph.edges) first G)) in
    record {
      digest = w.digest;
      nodes = w.nodes;
      edges = w.edges;
      few_nodes = V.few_nodes;
      few_edges = V.few_edges;
      offsets_size = omega (arith, F.size);
      offsets_fit = O.fit;
      offsets_valid = O.valid;
      grouped = G;
      reverse =
          build_reverse_index-IsReverse graph.nodes graph.edges V.sorted
            (validate_edges-Ascends graph.nodes graph.edges V.sorted V.edges_valid) V.reverse;
    }

-- The digest is the last 32 bytes.
decode-checked :
    (sha256 : Bytes → ContentDigest) (payload : Bytes) (graph : GraphArtifact)
    → IsDigest sha256
    → 60 ≤ length payload
    → decode_payload payload ≡ ok graph
    → validate sha256 graph ≡ ok tt
    → decode sha256 (payload ++ sha256 payload) ≡ ok graph
unfolding decode
decode-checked sha256 payload graph D long read accepted =
    let whole = length-append payload (sha256 payload) in
    let size = D payload in
    let enough : leb min_length (length (payload ++ sha256 payload)) ≡ true =
      ground (arith, whole, size, long) in
    let payload_len : length (payload ++ sha256 payload) - 32 ≡ length payload =
      omega (arith, whole, size) in
    let front = take-append_length payload (sha256 payload) in
    let back = drop-append_length payload (sha256 payload) in
    let same = text_eq_refl (sha256 payload) in
    rw (enough) (rw (payload_len) (rw (front, back) (rw (same, read, accepted) refl)))

-- An artifact that `encode` writes is read back by `decode` as the same artifact: for digests of 32
-- bytes, u32 numbers and texts of scalar values, and a digest function with digests of 32 bytes.
pub encode-decode :
    (sha256 : Bytes → ContentDigest) (graph : GraphArtifact) (bytes : Bytes)
    → IsDigest sha256
    → IsGraph graph
    → encode sha256 graph ≡ ok bytes
    → decode sha256 bytes ≡ ok graph
unfolding encode
encode-decode sha256 graph bytes D w run =
    let (_, accepted, after) = bind-ok (validate sha256 graph) _ run in
    let (payload, written, out) = bind-ok (encode_payload graph) _ after in
    let V = (validate-IsValid sha256 graph).at tt accepted in
    let R = valid-IsReadable sha256 graph V w in
    let read = (encode_payload-decode_payload graph R).at payload written in
    let long = (encode_payload-length graph R).at payload written in
    rw (← ok-injective out) (decode-checked sha256 payload graph D long read accepted)
