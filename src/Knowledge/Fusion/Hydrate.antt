-- ===== src/Knowledge/Fusion/Hydrate.antt =====
-- crates/vesc-knowledge-index/src/fusion.rs: the selected candidates with their chunks.
use vesc_mcp.Prelude.{ℕ, Bool, List, [], ◌∷◌, Option, none, some, map}
use vesc_mcp.Map.{Map, get, insert, values}
use vesc_mcp.Knowledge.Fusion.{
  FusionConfig, RetrievalMetadata, SemanticHit, FusedCandidate, Floats, fuse_candidate_metadata,
}
use vesc_mcp.Knowledge.Fusion.Expand.{Chunk}

pub record LexicalHit (F : Type 0) : Type 0 where
  pub chunk : Chunk
  pub score : F
  pub exact_identifier : Bool

pub record FusedHit (F : Type 0) : Type 0 where
  pub chunk : Chunk
  pub score : F
  pub lexical_rank : Option ℕ
  pub semantic_rank : Option ℕ
  pub lexical_score : Option F
  pub semantic_similarity : Option F
  pub exact_identifier : Bool

abbrev pub retrieval_metadata : Chunk → RetrievalMetadata
retrieval_metadata chunk = record {
  chunk_id = chunk.chunk_id;
  document_id = chunk.document_id;
  registered_id = chunk.registered_id;
  content_digest = chunk.content_digest;
}

-- A map from the id of each chunk to what `f` makes of it; of two chunks with one id the later stays.
unfoldable pub by_id : {V : Type 0} → (Chunk → V) → Map V → List Chunk → Map V
by_id f entries [] = entries
by_id f entries (chunk ∷ chunks) = by_id f (insert chunk.chunk_id (f chunk) entries) chunks

abbrev or_insert : Option Chunk → Chunk → Map Chunk → Map Chunk
or_insert none chunk entries = insert chunk.chunk_id chunk entries
or_insert (some old) chunk entries = entries

unfoldable pub add_hits : {F : Type 0} → Map Chunk → List (LexicalHit F) → Map Chunk
add_hits entries [] = entries
add_hits entries (hit ∷ hits) =
    add_hits (or_insert (get hit.chunk.chunk_id entries) hit.chunk entries) hits

abbrev hit_of : {F : Type 0} → FusedCandidate F → Chunk → FusedHit F
hit_of candidate chunk = record {
  chunk = chunk;
  score = candidate.score;
  lexical_rank = candidate.lexical_rank;
  semantic_rank = candidate.semantic_rank;
  lexical_score = candidate.lexical_score;
  semantic_similarity = candidate.semantic_similarity;
  exact_identifier = candidate.exact_identifier;
}

-- The `filter_map` over the selection.
unfoldable pub hydrate : {F : Type 0} → Map Chunk → List (FusedCandidate F) → List (FusedHit F)
hydrate hydrated [] = []
hydrate hydrated (candidate ∷ candidates) =
    let rest = hydrate hydrated candidates in
    elim (get candidate.chunk.chunk_id hydrated) [
      | none ↦ rest
      | some chunk ↦ hit_of candidate chunk ∷ rest
    ]

unfoldable pub fuse_candidates :
    {F : Type 0}
    → Floats F
    → List (LexicalHit F)
    → List (SemanticHit F)
    → Map Chunk
    → FusionConfig
    → List (FusedHit F)
fuse_candidates floats lexical semantic chunks config =
    let candidates =
      map
        (λ hit. record {
          chunk = retrieval_metadata hit.chunk;
          score = hit.score;
          exact_identifier = hit.exact_identifier;
        })
        lexical in
    let metadata = by_id retrieval_metadata [] (values chunks) in
    let hydrated = add_hits (by_id (λ chunk. chunk) [] (values chunks)) lexical in
    hydrate hydrated (fuse_candidate_metadata floats candidates semantic metadata config)
