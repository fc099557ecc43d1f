-- ===== src/Knowledge/Fusion/Neighbors.antt =====
-- The neighbours of a chunk in crates/vesc-knowledge-index/src/fusion.rs.
use vesc_mcp.Prelude.{
  ℕ, zero, suc, ◌≤◌, ◌≡◌, refl, not, ◌||◌, true, List, [], ◌∷◌, ◌++◌, Option, none, some, arith,
  length, Bool-cases, Option-cases, inl, inr,
}
use vesc_mcp.Text.{Text, text_eq, text_eq_iff}
use vesc_mcp.Map.{Map, get}
use vesc_mcp.Knowledge.Investigation.{contains}
use vesc_mcp.Knowledge.Fusion.Expand.{Chunk, walk, reverse_onto, neighbors_of}

length-walk :
    (step : Chunk → Option Text) (document : Text) (chunks : Map Chunk) (n : ℕ)
    (cursor : Option Text) (seen : List Text)
    → length (walk step document chunks n cursor seen).0 ≤ n
unfolding walk
length-walk step document chunks zero cursor seen = omega arith
length-walk step document chunks (suc n) none seen = omega arith
length-walk step document chunks (suc n) (some id) seen = elim (Option-cases (get id chunks)) [
  | inl absent ↦ rw (absent, walk) (omega arith)
  | inr (chunk, found) ↦
      rw (found, walk) (ground (arith, length-walk step document chunks n (step chunk) (id ∷ seen)))
]

-- Chunks of the document that `step` leads to, one after the other.
pub data Chain (step : Chunk → Option Text) (document : Text) (chunks : Map Chunk)
    : Option Text → List Chunk → Type 0 where
  stop : {cursor : Option Text} → Chain step document chunks cursor []
  link :
      {id : Text} {chunk : Chunk} {rest : List Chunk}
      → get id chunks ≡ some chunk
      → chunk.document_id ≡ document
      → Chain step document chunks (step chunk) rest
      → Chain step document chunks (some id) (chunk ∷ rest)

walk-Chain :
    (step : Chunk → Option Text) (document : Text) (chunks : Map Chunk) (n : ℕ)
    (cursor : Option Text) (seen : List Text)
    → Chain step document chunks cursor (walk step document chunks n cursor seen).0
unfolding walk
walk-Chain step document chunks zero cursor seen = stop
walk-Chain step document chunks (suc n) none seen = stop
walk-Chain step document chunks (suc n) (some id) seen = elim (Option-cases (get id chunks)) [
  | inl absent ↦ rw (absent, walk) stop
  | inr (chunk, found) ↦
      elim (Bool-cases (not (text_eq chunk.document_id document) || contains id seen)) [
        | inl over ↦ rw (found, walk) (rw over stop)
        | inr goes_on ↦
            let same : text_eq chunk.document_id document ≡ true = ground (arith, goes_on) in
            rw (found, walk)
              (rw goes_on (
                link found ((text_eq_iff chunk.document_id document).0 same)
                  (walk-Chain step document chunks n (step chunk) (id ∷ seen))))
      ]
]

-- The neighbours: those before the anchor, the nearest last, and those behind it.
abbrev pub IsAround : Chunk → Map Chunk → ℕ → List Chunk → Type 0
IsAround anchor chunks max_neighbors neighbors =
    (before : List Chunk) × (behind : List Chunk) × (neighbors ≡ reverse_onto before [] ++ behind)
    × (length before ≤ max_neighbors)
    × (length behind ≤ max_neighbors)
    × Chain (λ c. c.previous_chunk) anchor.document_id chunks anchor.previous_chunk before
    × Chain (λ c. c.next_chunk) anchor.document_id chunks anchor.next_chunk behind

pub neighbors_of-IsAround :
    (anchor : Chunk) (chunks : Map Chunk) (max_neighbors : ℕ)
    → IsAround anchor chunks max_neighbors (neighbors_of anchor chunks max_neighbors)
unfolding neighbors_of
neighbors_of-IsAround anchor chunks n =
    let back =
      walk (λ c. c.previous_chunk) anchor.document_id chunks n anchor.previous_chunk
        (anchor.chunk_id ∷ []) in
    let forth = walk (λ c. c.next_chunk) anchor.document_id chunks n anchor.next_chunk back.1 in
    (
      back.0,
      forth.0,
      refl,
      length-walk (λ c. c.previous_chunk) anchor.document_id chunks n anchor.previous_chunk
          (anchor.chunk_id ∷ []),
      length-walk (λ c. c.next_chunk) anchor.document_id chunks n anchor.next_chunk back.1,
      walk-Chain (λ c. c.previous_chunk) anchor.document_id chunks n anchor.previous_chunk
          (anchor.chunk_id ∷ []),
      walk-Chain (λ c. c.next_chunk) anchor.document_id chunks n anchor.next_chunk back.1,
    )
