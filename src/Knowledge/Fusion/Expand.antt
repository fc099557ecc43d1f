-- ===== src/Knowledge/Fusion/Expand.antt =====
-- crates/vesc-knowledge-index/src/fusion.rs: the context around a passage.
use vesc_mcp.Prelude.{
  ℕ, zero, suc, ◌+◌, ◌-◌, Bool, true, false, not, ◌||◌, List, [], ◌∷◌, ◌++◌, Option, none, some,
  ltb, leb, ◌==◌, length, min, if◌then◌else◌,
}
use vesc_mcp.Text.{Text, text_eq, is_empty}
use vesc_mcp.Text.Utf8.{encode_char, byte_len}
use vesc_mcp.Map.{Map, get}
use vesc_mcp.Knowledge.Investigation.{contains}
use vesc_mcp.Knowledge.Graph.{ContentDigest}

-- The fields of a chunk that fusion reads.
pub record Chunk : Type 0 where
  pub chunk_id : Text
  pub document_id : Text
  pub registered_id : Option Text
  pub content_digest : ContentDigest
  pub text : Text
  pub previous_chunk : Option Text
  pub next_chunk : Option Text

pub data ExpansionReason : Type 0 where
  budget_prevented_expansion included_until_budget included : ExpansionReason
  budget_prevented_adjacent : ExpansionReason

pub record ExpandedContext : Type 0 where
  pub passage : Text
  pub neighbor_count : ℕ
  pub reason : Option ExpansionReason

-- The chunks that `step` leads to from `cursor`, and the ids seen at the end.
unfoldable pub walk :
    (Chunk → Option Text) → Text → Map Chunk → ℕ → Option Text → List Text → List Chunk × List Text
walk step document chunks zero cursor seen = ([], seen)
walk step document chunks (suc n) none seen = ([], seen)
walk step document chunks (suc n) (some id) seen = elim (get id chunks) [
  | none ↦ ([], seen)
  | some chunk ↦
      let rest = walk step document chunks n (step chunk) (id ∷ seen) in
      if not (text_eq chunk.document_id document) || contains id seen
      then ([], seen)
      else (chunk ∷ rest.0, rest.1)
]

abbrev pub reverse_onto : List Chunk → List Chunk → List Chunk
reverse_onto [] ys = ys
reverse_onto (x ∷ xs) ys = reverse_onto xs (x ∷ ys)

unfoldable pub neighbors_of : Chunk → Map Chunk → ℕ → List Chunk
neighbors_of anchor chunks max_neighbors =
    let back =
      walk (λ c. c.previous_chunk) anchor.document_id chunks max_neighbors anchor.previous_chunk
        (anchor.chunk_id ∷ []) in
    let forth =
      walk (λ c. c.next_chunk) anchor.document_id chunks max_neighbors anchor.next_chunk back.1 in
    reverse_onto back.0 [] ++ forth.0

-- `is_char_boundary`: a character starts `n` bytes in, or the text ends there.
unfoldable pub is_char_boundary : ℕ → Text → Bool
is_char_boundary n [] = n == 0
is_char_boundary n (c ∷ cs) =
    let rest = is_char_boundary (n - length (encode_char c)) cs in
    if n == 0 then true else if ltb n (length (encode_char c)) then false else rest

-- `while end > 0 && !piece.is_char_boundary(end) { end -= 1; }`
unfoldable pub floor_boundary : ℕ → Text → ℕ
floor_boundary zero piece = 0
floor_boundary (suc end) piece =
    let rest = floor_boundary end piece in
    if is_char_boundary (suc end) piece then suc end else rest

-- `&piece[..end]` at a boundary.
unfoldable pub prefix : ℕ → Text → Text
prefix end [] = []
prefix end (c ∷ cs) =
    let rest = prefix (end - length (encode_char c)) cs in
    if ltb end (length (encode_char c)) then [] else c ∷ rest

abbrev pub separator : Text → Text
separator [] = []
separator (c ∷ cs) = b'\n' ∷ b'\n' ∷ []

-- The output and whether the whole piece was appended.
unfoldable pub append_bounded_piece : Text → Text → ℕ → Text × Bool
append_bounded_piece output piece max_bytes =
    if leb (byte_len (separator output) + byte_len piece) (max_bytes - byte_len output)
    then (output ++ separator output ++ piece, true)
    else if is_empty output
    then (prefix (floor_boundary (min max_bytes (byte_len piece)) piece) piece, false)
    else (output, false)

-- The passage, how many neighbours it took, and whether the budget stopped it.
unfoldable pub append_neighbors : Text → ℕ → List Chunk → ℕ → Text × ℕ × Bool
append_neighbors passage count [] max_bytes = (passage, count, false)
append_neighbors passage count (neighbor ∷ neighbors) max_bytes =
    let (output, whole) = append_bounded_piece passage neighbor.text max_bytes in
    let rest = append_neighbors output (count + 1) neighbors max_bytes in
    if whole then rest else (output, count, true)

unfoldable pub reason_of : ℕ → Bool → Option ExpansionReason
reason_of neighbor_count budget_limited =
    if ltb 0 neighbor_count
    then if budget_limited then some included_until_budget else some included
    else if budget_limited
    then some budget_prevented_adjacent
    else none

unfoldable pub expand_adjacent_context : Chunk → Map Chunk → ℕ → ℕ → ExpandedContext
expand_adjacent_context anchor chunks max_neighbors max_bytes =
    let neighbors = neighbors_of anchor chunks max_neighbors in
    let (start, whole) = append_bounded_piece [] anchor.text max_bytes in
    let anchor_truncated = ltb (byte_len start) (byte_len anchor.text) in
    let (passage, neighbor_count, stopped) = append_neighbors start 0 neighbors max_bytes in
    if max_bytes == 0
    then record { passage = []; neighbor_count = 0; reason = some budget_prevented_expansion }
    else record {
      passage = passage;
      neighbor_count = neighbor_count;
      reason = reason_of neighbor_count (anchor_truncated || stopped);
    }
