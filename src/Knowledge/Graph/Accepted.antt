-- ===== src/Knowledge/Graph/Accepted.antt =====
-- crates/vesc-knowledge-index/src/graph.rs: the bytes that `decode` accepts.
use mathlib.Core.Path.{subst}
use vesc_mcp.Prelude.{
  take-drop-take, ℕ, ◌+◌, ◌-◌, ◌^◌, ◌<◌, ◌≤◌, ◌≡◌, refl, sym, ap, ◌∙◌, true, [], ◌∷◌, ◌++◌, arith,
  ltb, leb, length, take, drop, append_assoc, append-nil, take-append-drop, All-split, ok, Ensures,
  Ensures-ok, Ensures-guard, Ensures-bind,
}
use vesc_mcp.Text.{codes, text_eq, text_eq_iff}
use vesc_mcp.Text.Utf8.{Bytes}
use vesc_mcp.Knowledge.Graph.{
  ContentDigest, GraphArtifact, u16_le, u32_le, magic, graph_artifact_schema_v1,
}
use vesc_mcp.Knowledge.Graph.Validate.{validate}
use vesc_mcp.Knowledge.Graph.Codec.{take_bytes}
use vesc_mcp.Knowledge.Graph.Decode.{
  write_nodes, write_edges, write_numbers, read_nodes, read_counts, read_edges, offsets_are_valid,
  decode_reverse_index, read_header, encode_payload, decode_payload, encode, decode, is_at_end,
  min_length,
}
use vesc_mcp.Knowledge.Graph.HeaderBack.{IsHeader, read_header-IsRead}
use vesc_mcp.Knowledge.Graph.ReadBack.{AreBytes, IsRead, take_bytes-IsRead, behind}
use vesc_mcp.Knowledge.Graph.ListsBack.{read_nodes-IsRead, read_counts-IsRead, read_edges-IsCounted}

at_end : (bytes : Bytes) → is_at_end bytes ≡ true → bytes ≡ []
at_end [] h = refl
at_end (b ∷ bytes) h = ground (arith, h)

-- The minor version of the schema, behind the magic number and the major version, is 0.
abbrev pub MinorIsZero : Bytes → Type 0
MinorIsZero bytes = take 2 (drop 10 bytes) ≡ u16_le graph_artifact_schema_v1.minor

payload_written :
    (graph : GraphArtifact) (header corpus_digest nodes edges payload : Bytes)
    → IsHeader (length graph.nodes, length graph.edges) header
    → corpus_digest ≡ graph.corpus_digest
    → write_nodes graph.nodes ≡ ok nodes
    → write_edges graph.edges ≡ ok edges
    → payload
      ≡ header
        ++ corpus_digest
        ++ nodes
        ++ write_numbers graph.forward_offsets
        ++ edges
        ++ write_numbers graph.reverse_offsets
        ++ write_numbers graph.reverse_edge_indices
    → MinorIsZero payload
    → encode_payload graph ≡ ok payload
unfolding encode_payload
payload_written graph header corpus_digest nodes edges payload
      (minor, header_is, few_nodes, few_edges) corpus_is nodes_are edges_are payload_is is_zero =
    let nodes_fit : ltb (length graph.nodes) (2 ^ 32) ≡ true = ground (arith, few_nodes) in
    let edges_fit : ltb (length graph.edges) (2 ^ 32) ≡ true = ground (arith, few_edges) in
    let from_corpus = λ (front digest : Bytes).
      front
      ++ digest
      ++ nodes
      ++ write_numbers graph.forward_offsets
      ++ edges
      ++ write_numbers graph.reverse_offsets
      ++ write_numbers graph.reverse_edge_indices in
    let whole = λ (minor_bytes digest : Bytes).
      from_corpus
        (magic
          ++ u16_le graph_artifact_schema_v1.major
          ++ minor_bytes
          ++ u32_le (length graph.nodes)
          ++ u32_le (length graph.edges))
        digest in
    let read : payload ≡ whole (u16_le minor) corpus_digest =
      payload_is ∙ ap (λ (front : Bytes). from_corpus front corpus_digest) header_is in
    let minor_is : u16_le minor ≡ u16_le graph_artifact_schema_v1.minor =
      ap (λ (p : Bytes). take 2 (drop 10 p)) (sym read) ∙ is_zero in
    rw (nodes_fit, edges_fit, nodes_are, edges_are)
      (ap ok (
        sym (
          read
          ∙ ap (λ (m : Bytes). whole m corpus_digest) minor_is
          ∙ ap (whole (u16_le graph_artifact_schema_v1.minor)) corpus_is)))

reverse_index-IsRead :
    (node_count edge_count : ℕ) (reader : Bytes)
    → AreBytes reader
    → Ensures
        (IsRead (λ index bytes. bytes ≡ write_numbers index.0 ++ write_numbers index.1) reader)
        (decode_reverse_index node_count edge_count reader)
unfolding decode_reverse_index
reverse_index-IsRead node_count edge_count reader h =
    let name = codes "reverse edge offset" in
    let index_name = codes "reverse edge index" in
    Ensures-bind (read_counts name edge_count (node_count + 1) reader) _ λ offsets run0.
      let O = (read_counts-IsRead name edge_count (node_count + 1) reader h).at offsets run0 in
      Ensures-guard (offsets_are_valid edge_count offsets.0) _ _ λ valid.
        Ensures-bind (read_counts index_name edge_count edge_count offsets.1) _ λ indices run1.
          let I =
            (read_counts-IsRead index_name edge_count edge_count offsets.1 O.rest).at indices
              run1 in
          Ensures-ok _ (record {
            bytes = O.bytes ++ I.bytes;
            written = rw (O.written.0, I.written.0) refl;
            reader_is = behind O.bytes I.bytes indices.1 O.reader_is I.reader_is;
            rest = I.rest;
          })

payload_accepted :
    (payload : Bytes)
    → AreBytes payload
    → MinorIsZero payload
    → Ensures (λ graph. encode_payload graph ≡ ok payload) (decode_payload payload)
unfolding decode_payload
payload_accepted payload h is_zero = Ensures-bind (read_header payload) _ λ header run0.
    let H = (read_header-IsRead payload h).at header run0 in
    Ensures-bind (take_bytes 32 header.1) _ λ corpus_digest run1.
      let C = (take_bytes-IsRead 32 header.1 H.rest).at corpus_digest run1 in
      Ensures-bind (read_nodes header.0.0 corpus_digest.1) _ λ nodes run2.
        let N = (read_nodes-IsRead header.0.0 corpus_digest.1 C.rest).at nodes run2 in
        Ensures-bind (read_counts (codes "edge offset") header.0.1 (header.0.0 + 1) nodes.1) _
          λ offsets run3.
            let F =
              (read_counts-IsRead (codes "edge offset") header.0.1 (header.0.0 + 1) nodes.1
                  N.rest).at
                offsets run3 in
            Ensures-guard (offsets_are_valid header.0.1 offsets.0) _ _ λ valid.
              Ensures-bind (read_edges nodes.0 offsets.0 offsets.1) _ λ edges run4.
                let E =
                  (read_edges-IsCounted header.0.1 nodes.0 offsets.0 offsets.1 F.rest valid
                      (F.written.1 ∙ ap (λ n. n + 1) (sym N.written.1))).at
                    edges run4 in
                Ensures-bind (decode_reverse_index header.0.0 header.0.1 edges.1) _ λ reverse run5.
                  let R =
                    (reverse_index-IsRead header.0.0 header.0.1 edges.1 E.rest).at reverse run5 in
                  Ensures-guard (is_at_end reverse.1) _ _ λ finished.
                    let e1 = behind H.bytes C.bytes corpus_digest.1 H.reader_is C.reader_is in
                    let e2 = behind _ N.bytes nodes.1 e1 N.reader_is in
                    let e3 = behind _ F.bytes offsets.1 e2 F.reader_is in
                    let e4 = behind _ E.bytes edges.1 e3 E.reader_is in
                    let e5 = behind _ R.bytes reverse.1 e4 R.reader_is in
                    let front = H.bytes ++ C.bytes ++ N.bytes ++ F.bytes ++ E.bytes in
                    let all =
                      e5
                      ∙ ap (λ b. front ++ R.bytes ++ b) (at_end reverse.1 finished)
                      ∙ append-nil (front ++ R.bytes)
                      ∙ ap (λ b. front ++ b) R.written
                      ∙ sym (
                          append_assoc front (write_numbers reverse.0.0)
                            (write_numbers reverse.0.1)) in
                    Ensures-ok _ (
                      payload_written _ H.bytes C.bytes N.bytes E.bytes payload
                        (subst (λ n. IsHeader (n, length edges.0) H.bytes) (sym N.written.1)
                          (subst (λ n. IsHeader (header.0.0, n) H.bytes) (sym E.written.1)
                            H.written))
                        C.written.0 N.written.0 E.written.0
                        (all
                          ∙ ap
                              (λ b.
                                H.bytes
                                ++ C.bytes
                                ++ N.bytes
                                ++ b
                                ++ E.bytes
                                ++ write_numbers reverse.0.0
                                ++ write_numbers reverse.0.1)
                              F.written.0)
                        is_zero)

decode-IsEncoded :
    (sha256 : Bytes → ContentDigest) (bytes : Bytes)
    → AreBytes bytes
    → MinorIsZero bytes
    → Ensures (λ graph. encode sha256 graph ≡ ok bytes) (decode sha256 bytes)
unfolding decode encode
decode-IsEncoded sha256 bytes h is_zero = Ensures-guard (leb min_length (length bytes)) _ _ λ long.
    let n = length bytes - 32 in
    let both = take-append-drop n bytes in
    let early : 10 + 2 ≤ n = ground (arith, long) in
    Ensures-guard (text_eq (sha256 (take n bytes)) (drop n bytes)) _ _ λ checked.
      Ensures-bind (decode_payload (take n bytes)) _ λ artifact run.
        Ensures-bind (validate sha256 artifact) _ λ valid validated.
          let payload_bytes =
            (All-split (λ b. b < 256) (take n bytes) (drop n bytes)
              (subst AreBytes (sym both) h)).0 in
          let minor_zero = take-drop-take 2 10 n bytes early ∙ is_zero in
          let written =
            (payload_accepted (take n bytes) payload_bytes minor_zero).at artifact run in
          Ensures-ok artifact (
            rw (validated, written)
              (ap (λ c. ok (take n bytes ++ c))
                  ((text_eq_iff (sha256 (take n bytes)) (drop n bytes)).0 checked)
                ∙ ap ok both))

-- Bytes that `decode` accepts are what `encode` writes for the artifact that it returns, when the
-- minor version that they name is 0.
pub decode-encode :
    (sha256 : Bytes → ContentDigest) (bytes : Bytes) (graph : GraphArtifact)
    → AreBytes bytes
    → MinorIsZero bytes
    → decode sha256 bytes ≡ ok graph
    → encode sha256 graph ≡ ok bytes
decode-encode sha256 bytes graph h is_zero run =
    (decode-IsEncoded sha256 bytes h is_zero).at graph run
