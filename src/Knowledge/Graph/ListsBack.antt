-- ===== src/Knowledge/Graph/ListsBack.antt =====
-- crates/vesc-knowledge-index/src/graph.rs: the bytes that are read as lists.

use vesc_mcp.Prelude.{
  ℕ, zero, suc, ◌+◌, ◌-◌, ◌≡◌, refl, sym, ap, ◌∙◌, true, List, [], ◌∷◌, ◌++◌, arith, length,
  append_assoc, length-append, ok, Ensures, Ensures-ok, Ensures-bind, bind-ok, ok-injective,
}
use vesc_mcp.Text.{Text}
use vesc_mcp.Text.Utf8.{Bytes}
use vesc_mcp.Knowledge.Graph.{ContentDigest, GraphNode, GraphEdge}
use vesc_mcp.Knowledge.Graph.Codec.{read_u32, bounded_count, read_node, write_edge, read_edge}
use vesc_mcp.Knowledge.Graph.Decode.{
  write_nodes, write_edges, write_numbers, read_nodes, read_counts, read_group, read_edges,
  climbs_to, offsets_are_valid,
}
use vesc_mcp.Knowledge.Graph.ReadBack.{
  AreBytes, IsRead, read_u32-IsRead, bounded_count-Ensures, behind, read_node-IsRead,
}
use vesc_mcp.Knowledge.Graph.EdgeBack.{read_edge-IsRead}

pub read_nodes-IsRead :
    (n : ℕ) (reader : Bytes)
    → AreBytes reader
    → Ensures
        (IsRead (λ nodes bytes. (write_nodes nodes ≡ ok bytes) × (length nodes ≡ n)) reader)
        (read_nodes n reader)
unfolding read_nodes write_nodes
read_nodes-IsRead zero reader h =
    Ensures-ok _ (record { bytes = []; written = (refl, refl); reader_is = refl; rest = h })
read_nodes-IsRead (suc n) reader h = Ensures-bind (read_node reader) _ λ node run.
    let N = (read_node-IsRead reader h).at node run in
    Ensures-bind (read_nodes n node.1) _ λ nodes runs.
      let R = (read_nodes-IsRead n node.1 N.rest).at nodes runs in
      Ensures-ok _ (record {
        bytes = N.bytes ++ R.bytes;
        written = (rw (N.written, R.written.0) refl, ap suc R.written.1);
        reader_is = behind N.bytes R.bytes nodes.1 N.reader_is R.reader_is;
        rest = R.rest;
      })

pub read_counts-IsRead :
    (name : Text) (max n : ℕ) (reader : Bytes)
    → AreBytes reader
    → Ensures
        (IsRead (λ ns bytes. (bytes ≡ write_numbers ns) × (length ns ≡ n)) reader)
        (read_counts name max n reader)
unfolding read_counts write_numbers
read_counts-IsRead name max zero reader h =
    Ensures-ok _ (record { bytes = []; written = (refl, refl); reader_is = refl; rest = h })
read_counts-IsRead name max (suc n) reader h = Ensures-bind (read_u32 reader) _ λ number run.
    let N = (read_u32-IsRead reader h).at number run in
    Ensures-bind (bounded_count number.0 max name) _ λ value bounded.
      let (value_is, small) = (bounded_count-Ensures number.0 max name).at value bounded in
      Ensures-bind (read_counts name max n number.1) _ λ numbers runs.
        let R = (read_counts-IsRead name max n number.1 N.rest).at numbers runs in
        Ensures-ok _ (record {
          bytes = N.bytes ++ R.bytes;
          written = (rw (value_is, N.written.0, R.written.0) refl, ap suc R.written.1);
          reader_is = behind N.bytes R.bytes numbers.1 N.reader_is R.reader_is;
          rest = R.rest;
        })

read_group-IsRead :
    (source : ContentDigest) (n : ℕ) (reader : Bytes)
    → AreBytes reader
    → Ensures
        (IsRead (λ edges bytes. (write_edges edges ≡ ok bytes) × (length edges ≡ n)) reader)
        (read_group source n reader)
unfolding read_group write_edges
read_group-IsRead source zero reader h =
    Ensures-ok _ (record { bytes = []; written = (refl, refl); reader_is = refl; rest = h })
read_group-IsRead source (suc n) reader h = Ensures-bind (read_edge source reader) _ λ edge run.
    let N = (read_edge-IsRead source reader h).at edge run in
    Ensures-bind (read_group source n edge.1) _ λ edges runs.
      let R = (read_group-IsRead source n edge.1 N.rest).at edges runs in
      Ensures-ok _ (record {
        bytes = N.bytes ++ R.bytes;
        written = (rw (N.written, R.written.0) refl, ap suc R.written.1);
        reader_is = behind N.bytes R.bytes edges.1 N.reader_is R.reader_is;
        rest = R.rest;
      })

write_edges-joins :
    (xs ys : List GraphEdge) {first second : Bytes}
    → write_edges xs ≡ ok first
    → write_edges ys ≡ ok second
    → write_edges (xs ++ ys) ≡ ok (first ++ second)
unfolding write_edges
write_edges-joins [] ys {second} first_is second_is =
    second_is ∙ ap (λ (b : Bytes). ok (b ++ second)) (ok-injective first_is)
write_edges-joins (x ∷ xs) ys {second} first_is second_is =
    let (one, one_is, after) = bind-ok (write_edge x) _ first_is in
    let (more, more_is, whole) = bind-ok (write_edges xs) _ after in
    rw (one_is, write_edges-joins xs ys more_is second_is)
      (ap ok (sym (append_assoc one more second))
        ∙ ap (λ (b : Bytes). ok (b ++ second)) (ok-injective whole))

read_edges-IsRead :
    (edge_count start : ℕ) (nodes : List GraphNode) (offsets : List ℕ) (reader : Bytes)
    → AreBytes reader
    → climbs_to edge_count start offsets ≡ true
    → length offsets ≡ length nodes
    → Ensures
        (IsRead
          (λ edges bytes. (write_edges edges ≡ ok bytes) × (length edges + start ≡ edge_count))
          reader)
        (read_edges nodes (start ∷ offsets) reader)
unfolding read_edges write_edges
read_edges-IsRead edge_count start (node ∷ nodes) (end ∷ offsets) reader h climbs same =
    Ensures-bind (read_group node.id (end - start) reader) _ λ group run.
      let N = (read_group-IsRead node.id (end - start) reader h).at group run in
      Ensures-bind (read_edges nodes (end ∷ offsets) group.1) _ λ edges runs.
        let R =
          (read_edges-IsRead edge_count end nodes offsets group.1 N.rest (ground (arith, climbs))
              (ground (arith, same))).at
            edges runs in
        Ensures-ok _ (record {
          bytes = N.bytes ++ R.bytes;
          written = (
            write_edges-joins group.0 edges.0 N.written.0 R.written.0,
            ground (arith, climbs, N.written.1, R.written.1, length-append group.0 edges.0),
          );
          reader_is = behind N.bytes R.bytes edges.1 N.reader_is R.reader_is;
          rest = R.rest;
        })
read_edges-IsRead edge_count start [] [] reader h climbs same =
    Ensures-ok _
      (record { bytes = []; written = (refl, ground (arith, climbs)); reader_is = refl; rest = h })
read_edges-IsRead edge_count start [] (end ∷ offsets) reader h climbs same = ground (arith, same)
read_edges-IsRead edge_count start (node ∷ nodes) [] reader h climbs same = ground (arith, same)

pub read_edges-IsCounted :
    (edge_count : ℕ) (nodes : List GraphNode) (offsets : List ℕ) (reader : Bytes)
    → AreBytes reader
    → offsets_are_valid edge_count offsets ≡ true
    → length offsets ≡ length nodes + 1
    → Ensures
        (IsRead
          (λ edges bytes. (write_edges edges ≡ ok bytes) × (length edges ≡ edge_count))
          reader)
        (read_edges nodes offsets reader)
read_edges-IsCounted edge_count nodes [] reader h valid same = ground (arith, valid)
read_edges-IsCounted edge_count nodes (start ∷ offsets) reader h valid same = record {
  at = λ edges run.
      let climbs : climbs_to edge_count start offsets ≡ true = ground (arith, valid) in
      let even : length offsets ≡ length nodes = ground (arith, same) in
      let R =
        (read_edges-IsRead edge_count start nodes offsets reader h climbs even).at edges run in
      record {
        bytes = R.bytes;
        written = (R.written.0, ground (arith, valid, R.written.1));
        reader_is = R.reader_is;
        rest = R.rest;
      };
}
