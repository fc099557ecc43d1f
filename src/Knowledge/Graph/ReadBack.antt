-- ===== src/Knowledge/Graph/ReadBack.antt =====
-- What the readers of crates/vesc-knowledge-index/src/graph.rs read is what the writers write.
use mathlib.Core.Path.{subst}
use vesc_mcp.Prelude.{
  ℕ, ◌^◌, ◌<◌, ◌≤◌, ◌≡◌, refl, sym, ap, ◌∙◌, true, not, [], ◌∷◌, ◌++◌, arith, ltb, leb, length,
  take, drop, append_assoc, take-append-drop, length-take, All, All-split, ok, Ensures, Ensures-ok,
  Ensures-err, Ensures-guard, Ensures-bind, Ensures-ok_or, Bool-cases, inl, inr,
}
use vesc_mcp.Text.{Text, codes}
use vesc_mcp.Text.Utf8.{Bytes, as_bytes, byte_len, from_utf8, AreScalar, from_utf8-eq_some}
use vesc_mcp.Knowledge.Graph.{GraphNode, u32_le, max_string_bytes}
use vesc_mcp.Knowledge.Graph.Codec.{
  take_bytes, read_u8, read_u32, read_string, bounded_count, put_string, write_node, read_node,
}

abbrev pub AreBytes : Bytes → Type 0
AreBytes bytes = All (λ b. b < 256) bytes

-- The reader had some bytes that `Written` relates to the value, and then the rest.
pub record IsRead {A : Type 0} (Written : A → Bytes → Type 0) (reader : Bytes) (p : A × Bytes)
    : Type 0 where
  pub bytes : Bytes
  pub written : Written p.0 bytes
  pub reader_is : reader ≡ bytes ++ p.1
  pub rest : AreBytes p.1

pub take_bytes-IsRead :
    (n : ℕ) (reader : Bytes)
    → AreBytes reader
    → Ensures
        (IsRead (λ value bytes. (bytes ≡ value) × (length value ≡ n)) reader)
        (take_bytes n reader)
unfolding take_bytes
take_bytes-IsRead n reader h = Ensures-guard (leb n (length reader)) _ _ λ fits.
    Ensures-ok (take n reader, drop n reader)
      (record {
        bytes = take n reader;
        written = (refl, ground (arith, fits, length-take n reader));
        reader_is = sym (take-append-drop n reader);
        rest =
            (All-split (λ b. b < 256) (take n reader) (drop n reader)
              (subst AreBytes (sym (take-append-drop n reader)) h)).1;
      })

pub read_u32-IsRead :
    (reader : Bytes)
    → AreBytes reader
    → Ensures
        (IsRead (λ value bytes. (bytes ≡ u32_le value) × (value < 2 ^ 32)) reader)
        (read_u32 reader)
unfolding read_u32
read_u32-IsRead (a ∷ b ∷ c ∷ d ∷ rest) h = Ensures-ok _ (record {
  bytes = a ∷ b ∷ c ∷ d ∷ [];
  written = ground (arith, h);
  reader_is = refl;
  rest = h.1.1.1.1;
})
read_u32-IsRead _ h = Ensures-err _

pub read_u8-IsRead :
    (reader : Bytes)
    → AreBytes reader
    → Ensures (IsRead (λ value bytes. bytes ≡ value ∷ []) reader) (read_u8 reader)
unfolding read_u8
read_u8-IsRead (a ∷ rest) h =
    Ensures-ok _ (record { bytes = a ∷ []; written = refl; reader_is = refl; rest = h.1 })
read_u8-IsRead [] h = Ensures-err _

pub bounded_count-Ensures :
    (value max : ℕ) (name : Text)
    → Ensures (λ n. (n ≡ value) × (n ≤ max)) (bounded_count value max name)
unfolding bounded_count
bounded_count-Ensures value max name = elim (Bool-cases (leb value max)) [
  | inl fits ↦ rw (fits, bounded_count) (Ensures-ok value (refl, ground (arith, fits)))
  | inr long ↦ rw (long, bounded_count) (Ensures-err _)
]

pub read_string-IsRead :
    (reader : Bytes)
    → AreBytes reader
    → Ensures
        (IsRead (λ value bytes. (put_string value ≡ ok bytes) × AreScalar value) reader)
        (read_string reader)
unfolding read_string put_string
read_string-IsRead reader h = Ensures-bind (read_u32 reader) _ λ value value_run.
    let V = (read_u32-IsRead reader h).at value value_run in
    Ensures-bind (bounded_count value.0 max_string_bytes (codes "string")) _ λ n bounded.
      let (n_is, small) =
        (bounded_count-Ensures value.0 max_string_bytes (codes "string")).at n bounded in
      Ensures-bind (take_bytes n value.1) _ λ bytes taken.
        let T = (take_bytes-IsRead n value.1 V.rest).at bytes taken in
        Ensures-ok_or (from_utf8 bytes.0) _ _ λ text decoded.
          let (bytes_are, scalar) = from_utf8-eq_some bytes.0 decoded in
          let size : byte_len text ≡ n = ap length (sym bytes_are) ∙ T.written.1 in
          let short : not (ltb max_string_bytes (byte_len text)) ≡ true =
            ground (arith, size, small) in
          Ensures-ok (text, bytes.1)
            (record {
              bytes = u32_le (byte_len text) ++ as_bytes text;
              written = (rw short refl, scalar);
              reader_is =
                  V.reader_is
                  ∙ ap (λ b. b ++ value.1) (V.written.0 ∙ ap u32_le (sym (size ∙ n_is)))
                  ∙ ap (λ r. u32_le (byte_len text) ++ r)
                      (T.reader_is ∙ ap (λ b. b ++ bytes.1) (T.written.0 ∙ bytes_are))
                  ∙ sym (append_assoc (u32_le (byte_len text)) (as_bytes text) bytes.1);
              rest = T.rest;
            })

-- What is read after something else.
pub behind :
    {reader middle : Bytes} (first second rest : Bytes)
    → reader ≡ first ++ middle
    → middle ≡ second ++ rest
    → reader ≡ first ++ second ++ rest
behind first second rest e f = e ∙ ap (λ r. first ++ r) f ∙ sym (append_assoc first second rest)

node_written :
    (node : GraphNode) (id repository revision path a b c d symbol kind : Bytes)
    → id ≡ node.id
    → put_string node.repository ≡ ok repository
    → put_string node.revision ≡ ok revision
    → put_string node.path ≡ ok path
    → a ≡ u32_le node.start_line
    → b ≡ u32_le node.end_line
    → c ≡ u32_le node.start_byte
    → d ≡ u32_le node.end_byte
    → put_string node.symbol ≡ ok symbol
    → put_string node.kind ≡ ok kind
    → write_node node
      ≡ ok (id ++ repository ++ revision ++ path ++ a ++ b ++ c ++ d ++ symbol ++ kind)
unfolding write_node
node_written node id repository revision path a b c d symbol kind i put1 put2 put3 ea eb ec ed put4
      put5 =
    rw (put1, put2, put3, put4, put5, i, ea, eb, ec, ed) refl

pub read_node-IsRead :
    (reader : Bytes)
    → AreBytes reader
    → Ensures (IsRead (λ node bytes. write_node node ≡ ok bytes) reader) (read_node reader)
unfolding read_node
read_node-IsRead reader h = Ensures-bind (take_bytes 32 reader) _ λ id run0.
    let I = (take_bytes-IsRead 32 reader h).at id run0 in
    Ensures-bind (read_string id.1) _ λ repository run1.
      let R = (read_string-IsRead id.1 I.rest).at repository run1 in
      Ensures-bind (read_string repository.1) _ λ revision run2.
        let V = (read_string-IsRead repository.1 R.rest).at revision run2 in
        Ensures-bind (read_string revision.1) _ λ path run3.
          let P = (read_string-IsRead revision.1 V.rest).at path run3 in
          Ensures-bind (read_u32 path.1) _ λ start_line run4.
            let A = (read_u32-IsRead path.1 P.rest).at start_line run4 in
            Ensures-bind (read_u32 start_line.1) _ λ end_line run5.
              let B = (read_u32-IsRead start_line.1 A.rest).at end_line run5 in
              Ensures-bind (read_u32 end_line.1) _ λ start_byte run6.
                let C = (read_u32-IsRead end_line.1 B.rest).at start_byte run6 in
                Ensures-bind (read_u32 start_byte.1) _ λ end_byte run7.
                  let D = (read_u32-IsRead start_byte.1 C.rest).at end_byte run7 in
                  Ensures-bind (read_string end_byte.1) _ λ symbol run8.
                    let S = (read_string-IsRead end_byte.1 D.rest).at symbol run8 in
                    Ensures-bind (read_string symbol.1) _ λ kind run9.
                      let K = (read_string-IsRead symbol.1 S.rest).at kind run9 in
                      let e1 = behind I.bytes R.bytes repository.1 I.reader_is R.reader_is in
                      let e2 = behind (I.bytes ++ R.bytes) V.bytes revision.1 e1 V.reader_is in
                      let e3 =
                        behind (I.bytes ++ R.bytes ++ V.bytes) P.bytes path.1 e2 P.reader_is in
                      let e4 = behind _ A.bytes start_line.1 e3 A.reader_is in
                      let e5 = behind _ B.bytes end_line.1 e4 B.reader_is in
                      let e6 = behind _ C.bytes start_byte.1 e5 C.reader_is in
                      let e7 = behind _ D.bytes end_byte.1 e6 D.reader_is in
                      let e8 = behind _ S.bytes symbol.1 e7 S.reader_is in
                      Ensures-ok _ (record {
                        bytes =
                            I.bytes ++ R.bytes ++ V.bytes ++ P.bytes ++ A.bytes ++ B.bytes
                            ++ C.bytes ++ D.bytes ++ S.bytes ++ K.bytes;
                        written =
                            node_written _ I.bytes R.bytes V.bytes P.bytes A.bytes B.bytes C.bytes
                              D.bytes S.bytes K.bytes I.written.0 R.written.0 V.written.0
                              P.written.0 A.written.0 B.written.0 C.written.0 D.written.0
                              S.written.0 K.written.0;
                        reader_is = behind _ K.bytes kind.1 e8 K.reader_is;
                        rest = K.rest;
                      })
