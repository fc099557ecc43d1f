-- ===== src/Knowledge/Graph/HeaderBack.antt =====
-- crates/vesc-knowledge-index/src/graph.rs: the bytes that are read as a header.

use vesc_mcp.Prelude.{
  ℕ, ◌≤◌, ◌≡◌, refl, [], ◌∷◌, ◌++◌, arith, ◌==◌, Ensures, Ensures-ok, Ensures-err, Ensures-guard,
  Ensures-bind,
}
use vesc_mcp.Text.{codes, text_eq, text_eq_iff}
use vesc_mcp.Text.Utf8.{Bytes}
use vesc_mcp.Knowledge.Graph.{u16_le, u32_le, magic, max_nodes, max_edges, graph_artifact_schema_v1}
use vesc_mcp.Knowledge.Graph.Codec.{take_bytes, read_u16, read_u32, bounded_count}
use vesc_mcp.Knowledge.Graph.Decode.{read_header}
use vesc_mcp.Knowledge.Graph.ReadBack.{
  AreBytes, IsRead, take_bytes-IsRead, read_u32-IsRead, bounded_count-Ensures, behind,
}

read_u16-IsRead :
    (reader : Bytes)
    → AreBytes reader
    → Ensures (IsRead (λ value bytes. bytes ≡ u16_le value) reader) (read_u16 reader)
unfolding read_u16
read_u16-IsRead (a ∷ b ∷ rest) h =
    Ensures-ok _
      (record { bytes = a ∷ b ∷ []; written = ground (arith, h); reader_is = refl; rest = h.1.1 })
read_u16-IsRead _ h = Ensures-err _

-- The bytes of a header: any minor version of the schema, and the two counts.
abbrev pub IsHeader : ℕ × ℕ → Bytes → Type 0
IsHeader counts bytes =
    (minor : ℕ) × (bytes
      ≡ magic
        ++ u16_le graph_artifact_schema_v1.major
        ++ u16_le minor
        ++ u32_le counts.0
        ++ u32_le counts.1)
    × (counts.0 ≤ max_nodes)
    × (counts.1 ≤ max_edges)

pub read_header-IsRead :
    (reader : Bytes) → AreBytes reader → Ensures (IsRead IsHeader reader) (read_header reader)
unfolding read_header
read_header-IsRead reader h = Ensures-bind (take_bytes 8 reader) _ λ start run0.
    let S = (take_bytes-IsRead 8 reader h).at start run0 in
    Ensures-guard (text_eq start.0 magic) _ _ λ is_magic.
      Ensures-bind (read_u16 start.1) _ λ major run1.
        let A = (read_u16-IsRead start.1 S.rest).at major run1 in
        Ensures-bind (read_u16 major.1) _ λ minor run2.
          let B = (read_u16-IsRead major.1 A.rest).at minor run2 in
          Ensures-guard (major.0 == graph_artifact_schema_v1.major) _ _ λ is_major.
            Ensures-bind (read_u32 minor.1) _ λ nodes run3.
              let N = (read_u32-IsRead minor.1 B.rest).at nodes run3 in
              Ensures-bind (bounded_count nodes.0 max_nodes (codes "nodes")) _ λ node_count bound0.
                let (nodes_are, few_nodes) =
                  (bounded_count-Ensures nodes.0 max_nodes (codes "nodes")).at node_count bound0 in
                Ensures-bind (read_u32 nodes.1) _ λ edges run4.
                  let E = (read_u32-IsRead nodes.1 N.rest).at edges run4 in
                  Ensures-bind (bounded_count edges.0 max_edges (codes "edges")) _
                    λ edge_count bound1.
                      let (edges_are, few_edges) =
                        (bounded_count-Ensures edges.0 max_edges (codes "edges")).at edge_count
                          bound1 in
                      let major_is : major.0 ≡ 1 = ground (arith, is_major) in
                      let e1 = behind S.bytes A.bytes major.1 S.reader_is A.reader_is in
                      let e2 = behind _ B.bytes minor.1 e1 B.reader_is in
                      let e3 = behind _ N.bytes nodes.1 e2 N.reader_is in
                      Ensures-ok _ (record {
                        bytes = S.bytes ++ A.bytes ++ B.bytes ++ N.bytes ++ E.bytes;
                        written = (
                          minor.0,
                          rw
                              (
                                S.written.0,
                                (text_eq_iff start.0 magic).0 is_magic,
                                A.written,
                                major_is,
                                B.written,
                                N.written.0,
                                E.written.0,
                                nodes_are,
                                edges_are,
                              )
                              refl,
                          few_nodes,
                          few_edges,
                        );
                        reader_is = behind _ E.bytes edges.1 e3 E.reader_is;
                        rest = E.rest;
                      })
