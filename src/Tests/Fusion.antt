-- ===== src/Tests/Fusion.antt =====
-- Runs of crates/vesc-knowledge-index/src/fusion.rs, with whole numbers for scores.
use vesc_mcp.Prelude.{
  ℕ, ◌+◌, ◌/◌, ◌<◌, ◌≤◌, ◌≡◌, refl, true, false, List, [], ◌∷◌, ◌++◌, some, none, arith, compare,
  length, max, map,
}
use vesc_mcp.Text.{Text, codes, text_eq, text_cmp, is_empty}
use vesc_mcp.Text.Utf8.{as_bytes, byte_len, encode_char}
use vesc_mcp.Map.{Map, get, insert, values}
use vesc_mcp.Knowledge.Investigation.Audit.{sort, insert_sorted}
use vesc_mcp.Knowledge.Fusion.{
  LexicalCandidate, SemanticHit, RetrievalMetadata, Floats, default_config, select_loop,
  add_lexical, add_semantic, candidate_cmp, fuse_candidate_metadata,
}
use vesc_mcp.Knowledge.Fusion.Expand.{
  Chunk, walk, neighbors_of, is_char_boundary, floor_boundary, prefix, append_bounded_piece,
  append_neighbors, reason_of, expand_adjacent_context, included_until_budget,
}
use vesc_mcp.Knowledge.Fusion.Hydrate.{by_id, add_hits, hydrate, fuse_candidates}
use vesc_mcp.Knowledge.Fusion.Neighbors.{IsAround}
use vesc_mcp.Knowledge.Fusion.Bounds.{expand_adjacent_context-le, expand_adjacent_context-joined}
use vesc_mcp.Knowledge.Fusion.Select.{
  fuse_candidate_metadata-le, documents, are_distinct, is_settled,
}
use vesc_mcp.Knowledge.Fusion.Settled.{fuse_candidate_metadata-settled}

abbrev chunk : ℕ → Text → Chunk
chunk n text = record {
  chunk_id = n ∷ [];
  document_id = codes "doc";
  registered_id = none;
  content_digest = n ∷ [];
  text = text;
  previous_chunk = none;
  next_chunk = none;
}

abbrev anchor : Chunk
anchor = record (chunk b'b' (codes "anchor")) {
  previous_chunk = some (codes "a");
  next_chunk = some (codes "c");
}

abbrev chunks : Map Chunk
chunks =
    (codes "a", chunk b'a' (codes "before"))
    ∷ (codes "b", anchor)
    ∷ (codes "c", chunk b'c' (codes "behind the anchor"))
    ∷ []

context_test : expand_adjacent_context anchor chunks 1 20 ≡ record {
  passage = codes "anchor" ++ b'\n' ∷ b'\n' ∷ codes "before";
  neighbor_count = 1;
  reason = some included_until_budget;
}
unfolding expand_adjacent_context neighbors_of walk get text_eq append_bounded_piece is_empty
    as_bytes encode_char append_neighbors reason_of
context_test = refl

-- A character that does not fit whole is left out.
boundary_test : (append_bounded_piece [] (b'a' ∷ 0xe9 ∷ []) 2).0 ≡ b'a' ∷ []
unfolding append_bounded_piece is_empty as_bytes encode_char floor_boundary is_char_boundary prefix
boundary_test = refl

expand_adjacent_context-le_example :
    (byte_len (expand_adjacent_context anchor chunks 1 20).passage ≤ 20)
    × ((expand_adjacent_context anchor chunks 1 20).neighbor_count
        ≤ length (neighbors_of anchor chunks 1))
    × IsAround anchor chunks 1 (neighbors_of anchor chunks 1)
expand_adjacent_context-le_example = expand_adjacent_context-le anchor chunks 1 20

few : 6 ≤ 20
few = omega arith

positive : 0 < 20
positive = omega arith

expand_adjacent_context-joined_example :
    (expand_adjacent_context anchor chunks 1 20).passage
    ≡ codes "anchor" ++ b'\n' ∷ b'\n' ∷ codes "before"
unfolding expand_adjacent_context neighbors_of walk get text_eq append_bounded_piece is_empty
    as_bytes encode_char append_neighbors
expand_adjacent_context-joined_example =
    expand_adjacent_context-joined anchor chunks 1 20 positive refl few

abbrev thousandths : Floats ℕ
thousandths = record {
  zero_score = 0;
  add_reciprocal = λ score k rank. score + 1000 / (k + rank + 1);
  total_cmp = compare;
}

abbrev metadata : ℕ → RetrievalMetadata
metadata n = record {
  chunk_id = n ∷ [];
  document_id = codes "doc";
  registered_id = none;
  content_digest = n ∷ [];
}

abbrev lexical : List (LexicalCandidate ℕ)
lexical =
    record { chunk = metadata b'a'; score = 9; exact_identifier = false }
    ∷ record { chunk = metadata b'b'; score = 8; exact_identifier = true }
    ∷ []

abbrev semantic : List (SemanticHit ℕ)
semantic =
    record { chunk_id = codes "c"; similarity = 3 }
    ∷ record { chunk_id = codes "a"; similarity = 2 }
    ∷ []

abbrev known : Map RetrievalMetadata
known = (codes "a", metadata b'a') ∷ (codes "c", metadata b'c') ∷ []

-- The exact hit is first, then the one that both searches found; the document has no room for a third.
fused_test :
    map
      (λ c. c.chunk.chunk_id)
      (fuse_candidate_metadata thousandths lexical semantic known default_config)
    ≡ codes "b" ∷ codes "a" ∷ []
unfolding fuse_candidate_metadata add_lexical add_semantic candidate_cmp select_loop get insert
    values text_eq text_cmp sort insert_sorted
fused_test = refl

fuse_candidate_metadata-le_example :
    (length (fuse_candidate_metadata thousandths lexical semantic known default_config) ≤ max 10 1)
    × (documents default_config
          (codes "doc")
          (fuse_candidate_metadata thousandths lexical semantic known default_config)
        ≤ 2)
    × (are_distinct default_config
          (fuse_candidate_metadata thousandths lexical semantic known default_config)
        ≡ true)
fuse_candidate_metadata-le_example =
    fuse_candidate_metadata-le thousandths lexical semantic known default_config (codes "doc")

some_quota : 0 < 2
some_quota = omega arith

room : length (fuse_candidate_metadata thousandths lexical semantic known default_config) < max 10 1
unfolding fuse_candidate_metadata add_lexical add_semantic candidate_cmp select_loop get insert
    values text_eq text_cmp sort insert_sorted
room = omega arith

-- The known chunk of the semantic hit that is no lexical hit is left out for the quota of the document.
fuse_candidate_metadata-settled_example :
    is_settled default_config
      (fuse_candidate_metadata thousandths lexical semantic known default_config)
      (metadata b'c')
    ≡ true
unfolding get text_eq
fuse_candidate_metadata-settled_example =
    fuse_candidate_metadata-settled thousandths lexical semantic known default_config (codes "c")
      (metadata b'c') some_quota room refl

hydrated_test :
    map
      (λ h. h.chunk.text)
      (fuse_candidates thousandths
        (record { chunk = anchor; score = 1; exact_identifier = false } ∷ [])
        semantic
        chunks
        default_config)
    ≡ codes "before" ∷ codes "anchor" ∷ []
unfolding fuse_candidates by_id add_hits hydrate fuse_candidate_metadata add_lexical add_semantic
    candidate_cmp select_loop get insert values text_eq text_cmp sort insert_sorted
hydrated_test = refl
