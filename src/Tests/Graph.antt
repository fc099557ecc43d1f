-- ===== src/Tests/Graph.antt =====
-- Runs of the graph artifact on two chunks, with a checksum in place of SHA-256.
use mathlib.Core.List.{Permᴰ}
use vesc_mcp.Prelude.{
  ℕ, ◌+◌, ◌%◌, ◌^◌, ◌<◌, arith, ltb, take, drop, all, All-all, ◌≡◌, refl, true, [], ◌∷◌, ◌++◌, some,
  none, replicate, Result, ok, err,
}
use vesc_mcp.Text.{Text, codes, text_eq, text_cmp, trim, is_empty, u32_to_string}
use vesc_mcp.Text.Split.{split}
use vesc_mcp.Text.Utf8.{Bytes, as_bytes, is_scalar}
use vesc_mcp.Map.{get, insert, contains_key}
use vesc_mcp.Knowledge.Investigation.Contract.{is_blank}
use vesc_mcp.Knowledge.Investigation.Audit.{sort, insert_sorted}
use vesc_mcp.Knowledge.Graph.{
  ContentDigest, GraphNode, GraphEdge, GraphArtifact, GraphArtifactError, new_node, edge_cmp,
  key_cmp,
}
use vesc_mcp.Knowledge.Graph.Index.{
  index_nodes, increment, count_edges, sum_counts, build_forward_index, push_at, collect_incoming,
  lay_out, build_reverse_index,
}
use vesc_mcp.Knowledge.Graph.Lookup.{outgoing, incoming}
use vesc_mcp.Knowledge.Graph.Validate.{
  validate_node, validate_edge, validate_edges, validate_nodes, validate, new_graph,
}
use vesc_mcp.Knowledge.Graph.Codec.{put_string, write_node, write_edge}
use vesc_mcp.Knowledge.Graph.Decode.{
  write_nodes, write_edges, write_numbers, encode_payload, encode, decode,
}
use vesc_mcp.Knowledge.Graph.Chunks.{
  GraphChunk, byte_offset, graph_span, push, push_all, adjacency_edge, locator_edges,
  adjacency_edges, from_graph_chunks,
}
use vesc_mcp.Knowledge.Graph.Outgoing.{outgoing-filter}
use vesc_mcp.Knowledge.Graph.Incoming.{incoming-filter}
use vesc_mcp.Knowledge.Graph.Coded.{IsNode}
use vesc_mcp.Knowledge.Graph.RoundTrip.{IsGraph, IsDigest, encode-decode}
use vesc_mcp.Knowledge.Graph.ReadBack.{AreBytes}
use vesc_mcp.Knowledge.Graph.Accepted.{decode-encode}
use vesc_mcp.Knowledge.Graph.Canonical.{new_graph-Perm}

abbrev sum : Bytes → ℕ
sum [] = 0
sum (b ∷ bytes) = (b + sum bytes) % 256

-- 32 bytes, the last of them the sum.
abbrev checksum : Bytes → ContentDigest
checksum bytes = replicate 31 0 ++ sum bytes ∷ []

abbrev corpus : ContentDigest
corpus = replicate 32 7

abbrev chunk_of : ℕ → GraphChunk
chunk_of n = record {
  chunk_id = n ∷ [];
  repository = codes "vesc";
  revision = codes "r1";
  path = codes "src/lib.c";
  title = n ∷ [];
  ordinal = 12;
  source_span = none;
  next_chunk = none;
}

abbrev first_chunk : GraphChunk
first_chunk = record (chunk_of b'a') {
  source_span =
      some (record { start_line = 1; end_line = 9; start_byte = none; end_byte = some 300 });
  next_chunk = some (b'b' ∷ []);
}

abbrev first_node : GraphNode
first_node =
    new_node checksum (codes "vesc") (codes "r1") (codes "src/lib.c") 1 9 0 300 (codes "a#12")
      (codes "chunk")

abbrev second_node : GraphNode
second_node =
    new_node checksum (codes "vesc") (codes "r1") (codes "src/lib.c") 0 0 0 0 (codes "b#12")
      (codes "chunk")

abbrev next_edge : GraphEdge
next_edge = adjacency_edge first_node.id second_node.id (1, 9, 0, 300)

abbrev graph : GraphArtifact
graph = record {
  corpus_digest = corpus;
  nodes = second_node ∷ first_node ∷ [];
  edges = next_edge ∷ [];
  forward_offsets = 0 ∷ 0 ∷ 1 ∷ [];
  reverse_offsets = 0 ∷ 1 ∷ 1 ∷ [];
  reverse_edge_indices = 0 ∷ [];
}

chunks_test : from_graph_chunks checksum corpus (first_chunk ∷ chunk_of b'b' ∷ []) ≡ ok graph
unfolding from_graph_chunks push_all push graph_span byte_offset contains_key get insert text_cmp
    text_eq new_node as_bytes u32_to_string adjacency_edges locator_edges new_graph sort
    insert_sorted edge_cmp build_forward_index index_nodes count_edges increment sum_counts
    build_reverse_index collect_incoming push_at lay_out validate validate_nodes validate_node
    validate_edges validate_edge key_cmp trim is_empty split is_blank
chunks_test = refl

abbrev bytes_of : Result GraphArtifactError Bytes → Bytes
bytes_of (ok bytes) = bytes
bytes_of (err e) = []

abbrev encoded : Bytes
encoded = bytes_of (encode checksum graph)

valid_test : validate checksum graph ≡ ok tt
unfolding get insert text_cmp text_eq new_node as_bytes sort insert_sorted edge_cmp
    build_forward_index index_nodes count_edges increment sum_counts build_reverse_index
    collect_incoming push_at lay_out validate validate_nodes validate_node validate_edges
    validate_edge key_cmp trim is_empty split is_blank
valid_test = refl

encode_test : encode checksum graph ≡ ok encoded
unfolding encode encode_payload write_nodes write_node put_string write_edges write_edge
    write_numbers get insert text_cmp text_eq new_node as_bytes sort insert_sorted edge_cmp
    build_forward_index index_nodes count_edges increment sum_counts build_reverse_index
    collect_incoming push_at lay_out validate validate_nodes validate_node validate_edges
    validate_edge key_cmp trim is_empty split is_blank
encode_test = refl

incoming-filter_example : incoming graph second_node.id ≡ ok (next_edge ∷ [])
unfolding text_eq new_node as_bytes
incoming-filter_example = incoming-filter checksum graph second_node.id valid_test

outgoing-filter_example : outgoing graph first_node.id ≡ ok (next_edge ∷ [])
unfolding text_eq new_node as_bytes
outgoing-filter_example = outgoing-filter checksum graph first_node.id valid_test

checksum-IsDigest : IsDigest checksum
checksum-IsDigest bytes = refl

abbrev AllScalar : Text → Type 0
AllScalar t = all is_scalar t ≡ true

new_node-IsNode :
    (path title : Text) (a b c d : ℕ)
    → AllScalar path
    → AllScalar title
    → (a < 2 ^ 32) × (b < 2 ^ 32) × (c < 2 ^ 32) × (d < 2 ^ 32)
    → IsNode (new_node checksum (codes "vesc") (codes "r1") path a b c d title (codes "chunk"))
unfolding new_node
new_node-IsNode path title a b c d p t (la, lb, lc, ld) = record {
  id = refl;
  repository = All-all is_scalar (codes "vesc") refl;
  revision = All-all is_scalar (codes "r1") refl;
  path = All-all is_scalar path p;
  start_line = la;
  end_line = lb;
  start_byte = lc;
  end_byte = ld;
  symbol = All-all is_scalar title t;
  kind = All-all is_scalar (codes "chunk") refl;
}

small : (1 < 2 ^ 32) × (9 < 2 ^ 32) × (0 < 2 ^ 32) × (300 < 2 ^ 32)
small = (omega arith, omega arith, omega arith, omega arith)

graph-IsGraph : IsGraph graph
unfolding new_node
graph-IsGraph = record {
  digest = refl;
  nodes = (
    new_node-IsNode (codes "src/lib.c") (codes "b#12") 0 0 0 0 refl refl
        (small.2, small.2, small.2, small.2),
    (new_node-IsNode (codes "src/lib.c") (codes "a#12") 1 9 0 300 refl refl small, tt),
  );
  edges = (
    record {
      target = refl;
      node = refl;
      start_line = small.0;
      end_line = small.1;
      start_byte = small.2;
      end_byte = small.3;
      relation = All-all is_scalar (codes "adjacent-next") refl;
      extractor = All-all is_scalar (codes "chunk-adjacency-v1") refl;
    },
    tt,
  );
}

encode-decode_example : decode checksum encoded ≡ ok graph
encode-decode_example =
    encode-decode checksum graph encoded checksum-IsDigest graph-IsGraph encode_test

all_bytes : (bytes : Bytes) → all (λ b. ltb b 256) bytes ≡ true → AreBytes bytes
all_bytes [] h = tt
all_bytes (b ∷ bytes) h = (ground (arith, h), all_bytes bytes (ground (arith, h)))

decode_test : decode checksum encoded ≡ ok graph
decode_test = encode-decode checksum graph encoded checksum-IsDigest graph-IsGraph encode_test

encoded_test : (all (λ b. ltb b 256) encoded ≡ true) × (take 2 (drop 10 encoded) ≡ 0 ∷ 0 ∷ [])
unfolding encode encode_payload write_nodes write_node put_string write_edges write_edge
    write_numbers get insert text_cmp text_eq new_node as_bytes sort insert_sorted edge_cmp
    build_forward_index index_nodes count_edges increment sum_counts build_reverse_index
    collect_incoming push_at lay_out validate validate_nodes validate_node validate_edges
    validate_edge key_cmp trim is_empty split is_blank
encoded_test = (refl, refl)

decode-encode_example : encode checksum graph ≡ ok encoded
decode-encode_example =
    decode-encode checksum encoded graph (all_bytes encoded encoded_test.0) encoded_test.1
      decode_test

sorted_test : new_graph checksum corpus (first_node ∷ second_node ∷ []) (next_edge ∷ []) ≡ ok graph
unfolding get insert text_cmp text_eq new_node as_bytes new_graph sort insert_sorted edge_cmp
    build_forward_index index_nodes count_edges increment sum_counts build_reverse_index
    collect_incoming push_at lay_out validate validate_nodes validate_node validate_edges
    validate_edge key_cmp trim is_empty split is_blank
sorted_test = refl

new_graph-Perm_example :
    new_graph checksum corpus (second_node ∷ first_node ∷ []) (next_edge ∷ []) ≡ ok graph
new_graph-Perm_example =
    new_graph-Perm checksum corpus graph (Permᴰ.swap refl refl) (Permᴰ.cons refl Permᴰ.nil)
      sorted_test
