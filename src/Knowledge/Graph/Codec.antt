-- ===== src/Knowledge/Graph/Codec.antt =====
-- crates/vesc-knowledge-index/src/graph.rs: the byte format of a node and of an edge.
-- A reader is the bytes that are left: `offset` moves over a slice, and cannot overflow.
use vesc_mcp.Prelude.{
  ℕ, ◌+◌, ◌*◌, Bool, true, false, not, [], ◌∷◌, ◌++◌, ltb, leb, ◌==◌, length, take, drop,
  if◌then◌else◌, Result, ok, err, guard, ◌>>=◌, ◌>>◌, ok_or,
}
use vesc_mcp.Text.{Text, codes}
use vesc_mcp.Text.Utf8.{Bytes, as_bytes, byte_len, from_utf8}
use vesc_mcp.Knowledge.Graph.{
  ContentDigest, GraphNode, GraphEdge, GraphArtifactError, max_string_bytes, u32_le, truncated,
  invalid_flag, string_too_large, not_utf8, count_exceeds,
}

-- A value and the bytes behind it.
abbrev pub Read : Type 0 → Type 0
Read A = Result GraphArtifactError (A × Bytes)

unfoldable pub take_bytes : ℕ → Bytes → Read Bytes
take_bytes n reader = do guard (leb n (length reader)) truncated; ok (take n reader, drop n reader)

abbrev pub read_array : Bytes → Read Bytes
read_array = take_bytes 32

unfoldable pub read_u8 : Bytes → Read ℕ
read_u8 (a ∷ reader) = ok (a, reader)
read_u8 _ = err truncated

unfoldable pub read_u16 : Bytes → Read ℕ
read_u16 (a ∷ b ∷ reader) = ok (a + b * 256, reader)
read_u16 _ = err truncated

unfoldable pub read_u32 : Bytes → Read ℕ
read_u32 (a ∷ b ∷ c ∷ d ∷ reader) = ok (a + b * 256 + c * 65536 + d * 16777216, reader)
read_u32 _ = err truncated

unfoldable pub bounded_count : ℕ → ℕ → Text → Result GraphArtifactError ℕ
bounded_count value max name = if leb value max then ok value else err (count_exceeds name)

unfoldable pub read_string : Bytes → Read Text
read_string reader = do
  value ← read_u32 reader
  length ← bounded_count value.0 max_string_bytes (codes "string")
  bytes ← take_bytes length value.1
  text ← ok_or (from_utf8 bytes.0) not_utf8
  ok (text, bytes.1)

unfoldable pub put_string : Text → Result GraphArtifactError Bytes
put_string value = do
  guard (not (ltb max_string_bytes (byte_len value))) string_too_large
  ok (u32_le (byte_len value) ++ as_bytes value)

unfoldable pub write_node : GraphNode → Result GraphArtifactError Bytes
write_node node = do
  repository ← put_string node.repository
  revision ← put_string node.revision
  path ← put_string node.path
  symbol ← put_string node.symbol
  kind ← put_string node.kind
  ok (
      node.id
      ++ repository
      ++ revision
      ++ path
      ++ u32_le node.start_line
      ++ u32_le node.end_line
      ++ u32_le node.start_byte
      ++ u32_le node.end_byte
      ++ symbol
      ++ kind)

unfoldable pub read_node : Bytes → Read GraphNode
read_node reader = do
  id ← read_array reader
  repository ← read_string id.1
  revision ← read_string repository.1
  path ← read_string revision.1
  start_line ← read_u32 path.1
  end_line ← read_u32 start_line.1
  start_byte ← read_u32 end_line.1
  end_byte ← read_u32 start_byte.1
  symbol ← read_string end_byte.1
  kind ← read_string symbol.1
  ok (
    record {
      id = id.0;
      repository = repository.0;
      revision = revision.0;
      path = path.0;
      start_line = start_line.0;
      end_line = end_line.0;
      start_byte = start_byte.0;
      end_byte = end_byte.0;
      symbol = symbol.0;
      kind = kind.0;
    },
    kind.1,
  )

-- `u8::from(verified)`
abbrev pub flag : Bool → ℕ
flag false = 0
flag true = 1

unfoldable pub write_edge : GraphEdge → Result GraphArtifactError Bytes
write_edge edge = do
  relation ← put_string edge.relation
  extractor ← put_string edge.extractor
  ok (
      edge.target
      ++ edge.evidence.node
      ++ u32_le edge.evidence.start_line
      ++ u32_le edge.evidence.end_line
      ++ u32_le edge.evidence.start_byte
      ++ u32_le edge.evidence.end_byte
      ++ relation
      ++ extractor
      ++ (edge.confidence ∷ flag edge.verified ∷ []))

unfoldable pub verified_of : ℕ → Result GraphArtifactError Bool
verified_of value =
    if value == 0 then ok false else if value == 1 then ok true else err invalid_flag

unfoldable pub read_edge : ContentDigest → Bytes → Read GraphEdge
read_edge source reader = do
  target ← read_array reader
  node ← read_array target.1
  start_line ← read_u32 node.1
  end_line ← read_u32 start_line.1
  start_byte ← read_u32 end_line.1
  end_byte ← read_u32 start_byte.1
  relation ← read_string end_byte.1
  extractor ← read_string relation.1
  confidence ← read_u8 extractor.1
  value ← read_u8 confidence.1
  verified ← verified_of value.0
  ok (
    record {
      source = source;
      target = target.0;
      evidence = record {
        node = node.0;
        start_line = start_line.0;
        end_line = end_line.0;
        start_byte = start_byte.0;
        end_byte = end_byte.0;
      };
      relation = relation.0;
      extractor = extractor.0;
      confidence = confidence.0;
      verified = verified;
    },
    value.1,
  )
