-- ===== src/Knowledge/Graph/Chunks.antt =====
-- crates/vesc-knowledge-index/src/graph.rs: the graph of the chunks of a snapshot.
use vesc_mcp.Prelude.{
  ℕ, ◌^◌, true, not, List, [], ◌∷◌, ◌++◌, Option, none, some, ltb, leb, length, Result, ok, guard,
  ◌>>=◌, ◌>>◌, ok_or, get_elem?,
}
use vesc_mcp.Text.{Text, codes, u32_to_string}
use vesc_mcp.Text.Utf8.{Bytes}
use vesc_mcp.Map.{Map, get, insert, contains_key}
use vesc_mcp.Knowledge.Graph.{
  ContentDigest, GraphNode, GraphEdge, GraphArtifact, GraphArtifactError, max_nodes, new_node,
  node_count_exceeds_limit, duplicate_chunk, adjacency_outside, span_exceeds_limits,
}
use vesc_mcp.Knowledge.Graph.Validate.{new_graph}

pub record SourceSpan : Type 0 where
  pub start_line : ℕ
  pub end_line : ℕ
  pub start_byte : Option ℕ
  pub end_byte : Option ℕ

-- A chunk id is a text.
pub record GraphChunk : Type 0 where
  pub chunk_id : Text
  pub repository : Text
  pub revision : Text
  pub path : Text
  pub title : Text
  pub ordinal : ℕ
  pub source_span : Option SourceSpan
  pub next_chunk : Option Text

abbrev pub Span : Type 0
Span = ℕ × ℕ × ℕ × ℕ

-- `map(u32::try_from).transpose()?.unwrap_or(0)`
unfoldable pub byte_offset : Option ℕ → Result GraphArtifactError ℕ
byte_offset none = ok 0
byte_offset (some offset) = do guard (ltb offset (2 ^ 32)) span_exceeds_limits; ok offset

unfoldable pub graph_span : Option SourceSpan → Result GraphArtifactError Span
graph_span none = ok (0, 0, 0, 0)
graph_span (some span) = do
  start_byte ← byte_offset span.start_byte
  end_byte ← byte_offset span.end_byte
  ok (span.start_line, span.end_line, start_byte, end_byte)

-- The index of a node, its span, and the chunk after it.
abbrev pub NodeLocator : Type 0
NodeLocator = ℕ × Span × Option Text

-- Nobody reads the order of `node_by_chunk`: the edges made from it are sorted.
pub record GraphChunkBuilder : Type 0 where
  pub nodes : List GraphNode
  pub node_by_chunk : Map NodeLocator

module _ (sha256 : Bytes → ContentDigest) where
  -- `format!("{title}#{ordinal}")`
  abbrev symbol_of : GraphChunk → Text
  symbol_of chunk = chunk.title ++ b'#' ∷ u32_to_string chunk.ordinal

  abbrev pub chunk_node : GraphChunk → Span → GraphNode
  chunk_node chunk (start_line, end_line, start_byte, end_byte) =
      new_node sha256 chunk.repository chunk.revision chunk.path start_line end_line start_byte
        end_byte (symbol_of chunk) (codes "chunk")

  unfoldable pub push : GraphChunkBuilder → GraphChunk → Result GraphArtifactError GraphChunkBuilder
  push builder chunk = do
    guard (not (leb max_nodes (length builder.nodes))) node_count_exceeds_limit
    span ← graph_span chunk.source_span
    guard (not (contains_key chunk.chunk_id builder.node_by_chunk)) duplicate_chunk
    ok (record {
      nodes = builder.nodes ++ chunk_node chunk span ∷ [];
      node_by_chunk =
          insert chunk.chunk_id (length builder.nodes, span, chunk.next_chunk)
            builder.node_by_chunk;
    })

  unfoldable pub push_all :
      GraphChunkBuilder → List GraphChunk → Result GraphArtifactError GraphChunkBuilder
  push_all builder [] = ok builder
  push_all builder (chunk ∷ chunks) = do pushed ← push builder chunk; push_all pushed chunks

abbrev pub adjacency_edge : ContentDigest → ContentDigest → Span → GraphEdge
adjacency_edge source target (start_line, end_line, start_byte, end_byte) = record {
  source = source;
  target = target;
  evidence = record {
    node = source;
    start_line = start_line;
    end_line = end_line;
    start_byte = start_byte;
    end_byte = end_byte;
  };
  relation = codes "adjacent-next";
  extractor = codes "chunk-adjacency-v1";
  confidence = 255;
  verified = true;
}

abbrev id_at : List GraphNode → ℕ → Result GraphArtifactError ContentDigest
id_at nodes index = do node ← ok_or (get_elem? nodes index) adjacency_outside; ok node.id

-- The edge of a locator that has a next chunk. An index of a locator is in range.
unfoldable pub locator_edges :
    GraphChunkBuilder → NodeLocator → Result GraphArtifactError (List GraphEdge)
locator_edges builder (index, span, none) = ok []
locator_edges builder (index, span, some next) = do
  locator ← ok_or (get next builder.node_by_chunk) adjacency_outside
  source ← id_at builder.nodes index
  target ← id_at builder.nodes locator.0
  ok (adjacency_edge source target span ∷ [])

unfoldable pub adjacency_edges :
    GraphChunkBuilder → Map NodeLocator → Result GraphArtifactError (List GraphEdge)
adjacency_edges builder [] = ok []
adjacency_edges builder (entry ∷ entries) = do
  first ← locator_edges builder entry.1
  rest ← adjacency_edges builder entries
  ok (first ++ rest)

unfoldable pub from_graph_chunks :
    (Bytes → ContentDigest)
    → ContentDigest
    → List GraphChunk
    → Result GraphArtifactError GraphArtifact
from_graph_chunks sha256 corpus_digest chunks = do
  builder ← push_all sha256 (record { nodes = []; node_by_chunk = [] }) chunks
  edges ← adjacency_edges builder builder.node_by_chunk
  new_graph sha256 corpus_digest builder.nodes edges
