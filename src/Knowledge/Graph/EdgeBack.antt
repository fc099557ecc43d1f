-- ===== src/Knowledge/Graph/EdgeBack.antt =====
-- crates/vesc-knowledge-index/src/graph.rs: the bytes that are read as edges.

use vesc_mcp.Prelude.{
  ℕ, ◌≡◌, sym, ap, ◌∙◌, true, false, [], ◌∷◌, ◌++◌, arith, ◌==◌, append_assoc, ok, Ensures,
  Ensures-ok, Ensures-err, Ensures-bind, Bool-cases, inl, inr,
}
use vesc_mcp.Text.Utf8.{Bytes}
use vesc_mcp.Knowledge.Graph.{ContentDigest, GraphEdge, u32_le}
use vesc_mcp.Knowledge.Graph.ReadBack.{
  AreBytes, IsRead, take_bytes-IsRead, read_u32-IsRead, read_u8-IsRead, read_string-IsRead, behind,
}
use vesc_mcp.Knowledge.Graph.Codec.{
  take_bytes, read_u8, read_u32, read_string, put_string, write_edge, read_edge, verified_of, flag,
}

flag_is : (value : ℕ) → Ensures (λ verified. flag verified ≡ value) (verified_of value)
unfolding verified_of
flag_is value = elim (Bool-cases (value == 0)) [
  | inl zero_is ↦ rw (zero_is, verified_of) (Ensures-ok false (ground (arith, zero_is)))
  | inr nonzero ↦ elim (Bool-cases (value == 1)) [
    | inl one_is ↦ rw (nonzero, one_is, verified_of) (Ensures-ok true (ground (arith, one_is)))
    | inr other ↦ rw (nonzero, other, verified_of) (Ensures-err _)
  ]
]

edge_written :
    (edge : GraphEdge) (target node a b c d relation extractor e f : Bytes)
    → target ≡ edge.target
    → node ≡ edge.evidence.node
    → a ≡ u32_le edge.evidence.start_line
    → b ≡ u32_le edge.evidence.end_line
    → c ≡ u32_le edge.evidence.start_byte
    → d ≡ u32_le edge.evidence.end_byte
    → put_string edge.relation ≡ ok relation
    → put_string edge.extractor ≡ ok extractor
    → e ≡ edge.confidence ∷ []
    → f ≡ flag edge.verified ∷ []
    → write_edge edge ≡ ok (target ++ node ++ a ++ b ++ c ++ d ++ relation ++ extractor ++ e ++ f)
unfolding write_edge
edge_written edge target node a b c d relation extractor e f t n ea eb ec ed put1 put2 ee ef =
    rw (put1, put2, t, n, ea, eb, ec, ed, ee, ef)
      (ap ok (sym (append_assoc _ (edge.confidence ∷ []) (flag edge.verified ∷ []))))

pub read_edge-IsRead :
    (source : ContentDigest) (reader : Bytes)
    → AreBytes reader
    → Ensures (IsRead (λ edge bytes. write_edge edge ≡ ok bytes) reader) (read_edge source reader)
unfolding read_edge
read_edge-IsRead source reader h = Ensures-bind (take_bytes 32 reader) _ λ target run0.
    let T = (take_bytes-IsRead 32 reader h).at target run0 in
    Ensures-bind (take_bytes 32 target.1) _ λ node run1.
      let N = (take_bytes-IsRead 32 target.1 T.rest).at node run1 in
      Ensures-bind (read_u32 node.1) _ λ start_line run2.
        let A = (read_u32-IsRead node.1 N.rest).at start_line run2 in
        Ensures-bind (read_u32 start_line.1) _ λ end_line run3.
          let B = (read_u32-IsRead start_line.1 A.rest).at end_line run3 in
          Ensures-bind (read_u32 end_line.1) _ λ start_byte run4.
            let C = (read_u32-IsRead end_line.1 B.rest).at start_byte run4 in
            Ensures-bind (read_u32 start_byte.1) _ λ end_byte run5.
              let D = (read_u32-IsRead start_byte.1 C.rest).at end_byte run5 in
              Ensures-bind (read_string end_byte.1) _ λ relation run6.
                let R = (read_string-IsRead end_byte.1 D.rest).at relation run6 in
                Ensures-bind (read_string relation.1) _ λ extractor run7.
                  let E = (read_string-IsRead relation.1 R.rest).at extractor run7 in
                  Ensures-bind (read_u8 extractor.1) _ λ confidence run8.
                    let F = (read_u8-IsRead extractor.1 E.rest).at confidence run8 in
                    Ensures-bind (read_u8 confidence.1) _ λ value run9.
                      let G = (read_u8-IsRead confidence.1 F.rest).at value run9 in
                      Ensures-bind (verified_of value.0) _ λ verified run10.
                        let flagged = (flag_is value.0).at verified run10 in
                        let e1 = behind T.bytes N.bytes node.1 T.reader_is N.reader_is in
                        let e2 = behind _ A.bytes start_line.1 e1 A.reader_is in
                        let e3 = behind _ B.bytes end_line.1 e2 B.reader_is in
                        let e4 = behind _ C.bytes start_byte.1 e3 C.reader_is in
                        let e5 = behind _ D.bytes end_byte.1 e4 D.reader_is in
                        let e6 = behind _ R.bytes relation.1 e5 R.reader_is in
                        let e7 = behind _ E.bytes extractor.1 e6 E.reader_is in
                        let e8 = behind _ F.bytes confidence.1 e7 F.reader_is in
                        Ensures-ok _ (record {
                          bytes =
                              T.bytes ++ N.bytes ++ A.bytes ++ B.bytes ++ C.bytes ++ D.bytes
                              ++ R.bytes ++ E.bytes ++ F.bytes ++ G.bytes;
                          written =
                              edge_written _ T.bytes N.bytes A.bytes B.bytes C.bytes D.bytes R.bytes
                                E.bytes F.bytes G.bytes T.written.0 N.written.0 A.written.0
                                B.written.0 C.written.0 D.written.0 R.written.0 E.written.0
                                F.written (G.written ∙ ap (λ v. v ∷ []) (sym flagged));
                          reader_is = behind _ G.bytes value.1 e8 G.reader_is;
                          rest = G.rest;
                        })
