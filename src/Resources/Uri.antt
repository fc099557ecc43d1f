-- ===== src/Resources/Uri.antt =====
-- crates/vesc-mcp-core/src/resources/uri.rs: the `vesc://` and `vescpkg://` resource URIs.
pub mod Percent
pub mod Shape
pub mod RoundTrip
pub mod Canonical
use vesc_mcp.Prelude.{
  ℕ, zero, suc, ◌+◌, ◌-◌, ◌*◌, ◌/◌, ◌%◌, Bool, true, false, not, ◌&&◌, ◌||◌, List, [], ◌∷◌, ◌++◌,
  Option, none, some, if◌then◌else◌, ◌==◌, any, all, map, Result, ok, err, ◌>>=◌, ◌>>◌, guard,
  ok_or, map_err, String,
}
use vesc_mcp.Text.{
  Text, codes, text_eq, trim, is_empty, contains_char, is_whitespace, is_ascii_alphanumeric,
  is_ascii_hexdigit, within,
}
use vesc_mcp.Text.Split.{split, split_once, split_once_text, strip_prefix}
use vesc_mcp.Text.Utf8.{Bytes, as_bytes, byte_len}

-- The variants with the fields of their URI structs.
pub data ParsedResourceUri : Type 0 where
  catalog : (kind id : Text) → ParsedResourceUri
  knowledge_chunk knowledge_document knowledge_feedback : (id : Text) → ParsedResourceUri
  snapshot_knowledge_chunk snapshot_knowledge_document : (snapshot id : Text) → ParsedResourceUri
  refloat_command : (command : Text) → ParsedResourceUri
  fixture_manifest : (name : Text) → ParsedResourceUri
  dynamic_manifest : (path : Text) → ParsedResourceUri

-- The reasons of `ResourceUriError`, in the order of the source.
pub data Reason : Type 0 where
  empty_uri no_scheme : Reason
  unsupported_scheme : Text → Reason
  vesc_parts snapshot_shape knowledge_shape knowledge_id : Reason
  vesc_authority : Text → Reason
  catalog_parts catalog_empty vescpkg_parts : Reason
  vescpkg_authority : Text → Reason
  fixture_parts fixture_empty fixture_tail manifest_empty truncated_percent : Reason
  invalid_percent : ℕ → Reason

pub record ResourceUriError : Type 0 where
  pub uri : Text
  pub reason : Reason

abbrev malformed {ℓ} : {A : Type ℓ} → Text → Reason → Result ResourceUriError A
malformed uri reason = err (record { uri = uri; reason = reason })

unfoldable pub is_unreserved : ℕ → Bool
unfolding is_ascii_alphanumeric
is_unreserved b = is_ascii_alphanumeric b || b == b'-' || b == b'.' || b == b'_' || b == b'~'

-- `HEX[n]`
unfoldable pub hex : ℕ → ℕ
hex n = if within 0 9 n then b'0' + n else b'A' + (n - 10)

unfoldable pub encode_bytes : Bytes → Text
encode_bytes [] = []
encode_bytes (b ∷ bs) =
    let rest = encode_bytes bs in
    if is_unreserved b then b ∷ rest else b'%' ∷ hex (b / 16) ∷ hex (b % 16) ∷ rest

-- `join("/")`
unfoldable pub join_slash : List Text → Text
join_slash [] = []
join_slash (p ∷ []) = p
join_slash (p ∷ q ∷ ps) = p ++ (b'/' ∷ join_slash (q ∷ ps))

unfoldable pub encode_manifest_path : Text → Text
encode_manifest_path [] = []
encode_manifest_path (c ∷ cs) =
    if c == b'/'
    then encode_bytes (as_bytes (c ∷ cs))
    else join_slash (map (λ segment. encode_bytes (as_bytes segment)) (split b'/' (c ∷ cs)))

unfoldable pub hex_digit : ℕ → Result Reason ℕ
hex_digit b =
    if within b'0' b'9' b
    then ok (b - b'0')
    else if within b'a' b'f' b
    then ok (b - b'a' + 10)
    else if within b'A' b'F' b
    then ok (b - b'A' + 10)
    else err (invalid_percent b)

-- The loop of `decode_manifest_path` over the bytes from `index` on. The digits are below 16, so
-- `(high << 4) | low` is the sum.
unfoldable pub decode_loop : Text → Bytes → Result Reason Text
decode_loop out [] = ok out
decode_loop out (b ∷ []) = if b == b'%' then err truncated_percent else ok (out ++ b ∷ [])
decode_loop out (b ∷ c ∷ []) =
    let rest = decode_loop (out ++ b ∷ []) (c ∷ []) in
    if b == b'%' then err truncated_percent else rest
decode_loop out (b ∷ c ∷ d ∷ bytes) = elim (b == b'%') [
  | true ↦ hex_digit c >>= λ high.
      hex_digit d >>= λ low. decode_loop (out ++ (high * 16 + low) ∷ []) bytes
  | false ↦ decode_loop (out ++ b ∷ []) (c ∷ d ∷ bytes)
]

unfoldable pub decode_manifest_path : Text → Result Reason Text
decode_manifest_path encoded = decode_loop [] (as_bytes encoded)

unfoldable pub to_uri : ParsedResourceUri → Text
to_uri (catalog kind id) = codes "vesc://catalog/" ++ (kind ++ (b'/' ∷ id))
to_uri (knowledge_chunk id) = codes "vesc://knowledge/chunk/" ++ id
to_uri (knowledge_document id) = codes "vesc://knowledge/document/" ++ id
to_uri (knowledge_feedback id) = codes "vesc://knowledge/feedback/" ++ id
to_uri (snapshot_knowledge_chunk snapshot id) =
    codes "vesc://knowledge/snapshot/" ++ (snapshot ++ (codes "/chunk/" ++ id))
to_uri (snapshot_knowledge_document snapshot id) =
    codes "vesc://knowledge/snapshot/" ++ (snapshot ++ (codes "/document/" ++ id))
to_uri (refloat_command command) = codes "vesc://catalog/commands/refloat/" ++ command
to_uri (fixture_manifest name) = codes "vescpkg://fixture/" ++ (name ++ codes "/manifest")
to_uri (dynamic_manifest path) = codes "vescpkg://manifest/" ++ encode_manifest_path path

-- A snapshot is 64 hexadecimal digits, an id holds no white space.
unfoldable pub is_snapshot_id : Text → Text → Bool
is_snapshot_id snapshot id =
    byte_len snapshot == 64
    && all is_ascii_hexdigit (as_bytes snapshot)
    && not (is_empty id)
    && not (any is_whitespace id)

unfoldable pub parse_snapshot : Text → List Text → Result ResourceUriError ParsedResourceUri
parse_snapshot full (snapshot ∷ kind ∷ id ∷ []) =
    if (text_eq kind (codes "chunk") || text_eq kind (codes "document"))
      && is_snapshot_id snapshot id
    then ok (
        if text_eq kind (codes "chunk")
        then snapshot_knowledge_chunk snapshot id
        else snapshot_knowledge_document snapshot id)
    else malformed full snapshot_shape
parse_snapshot full _ = malformed full snapshot_shape

abbrev is_kind : Text → Bool
is_kind kind =
    text_eq kind (codes "chunk")
    || text_eq kind (codes "document")
    || text_eq kind (codes "feedback")

abbrev pub is_bad_id : Text → Bool
is_bad_id id = is_empty id || contains_char b'/' id || any is_whitespace id

unfoldable pub parse_token : Text → Text → Text → Result ResourceUriError ParsedResourceUri
parse_token full kind id =
    if not (is_kind kind)
    then malformed full knowledge_shape
    else if is_bad_id id
    then malformed full knowledge_id
    else ok (
        if text_eq kind (codes "chunk")
        then knowledge_chunk id
        else if text_eq kind (codes "document")
        then knowledge_document id
        else knowledge_feedback id)

abbrev or_blank : Option (Text × Text) → Text × Text
or_blank none = ([], [])
or_blank (some p) = p

-- The branch `authority == "knowledge"` of `parse_vesc_uri`.
unfoldable pub parse_knowledge : Text → Text → Result ResourceUriError ParsedResourceUri
parse_knowledge full path = elim (strip_prefix (codes "snapshot/") path) [
  | some versioned ↦ parse_snapshot full (split b'/' versioned)
  | none ↦ let (kind, id) = or_blank (split_once b'/' path) in parse_token full kind id
]

-- A command of the URI `catalog/commands/refloat/{command}`.
abbrev pub command_of : Text → Text → Option Text
command_of kind id =
    if text_eq kind (codes "commands") then strip_prefix (codes "refloat/") id else none

abbrev pub catalog_or_command : Text → Text → Option Text → ParsedResourceUri
catalog_or_command kind id none = catalog kind id
catalog_or_command kind id (some command) =
    if not (is_empty command) && not (contains_char b'/' command)
    then refloat_command command
    else catalog kind id

-- The rest of `parse_vesc_uri`, for the authority `catalog`.
unfoldable pub parse_catalog : Text → Text → Result ResourceUriError ParsedResourceUri
parse_catalog full path = do
  parts ← ok_or (split_once b'/' path) (record { uri = full; reason = catalog_parts })
  guard (not (is_empty parts.0 || is_empty parts.1)) (record { uri = full; reason = catalog_empty })
  ok (catalog_or_command parts.0 parts.1 (command_of parts.0 parts.1))

unfoldable pub parse_vesc_uri : Text → Text → Result ResourceUriError ParsedResourceUri
parse_vesc_uri full rest = do
  parts ← ok_or (split_once b'/' rest) (record { uri = full; reason = vesc_parts })
  if text_eq parts.0 (codes "knowledge")
      then parse_knowledge full parts.1
      else if text_eq parts.0 (codes "catalog")
      then parse_catalog full parts.1
      else malformed full (vesc_authority parts.0)

unfoldable pub parse_fixture_manifest_uri : Text → Text → Result ResourceUriError ParsedResourceUri
parse_fixture_manifest_uri full path = do
  parts ← ok_or (split_once b'/' path) (record { uri = full; reason = fixture_parts })
  guard (not (is_empty parts.0)) (record { uri = full; reason = fixture_empty })
  guard (text_eq parts.1 (codes "manifest")) (record { uri = full; reason = fixture_tail })
  ok (fixture_manifest parts.0)

unfoldable pub parse_dynamic_manifest_uri : Text → Text → Result ResourceUriError ParsedResourceUri
parse_dynamic_manifest_uri full path = do
  guard (not (is_empty path)) (record { uri = full; reason = manifest_empty })
  decoded ← map_err (λ reason. record { uri = full; reason = reason }) (decode_manifest_path path)
  ok (dynamic_manifest decoded)

unfoldable pub parse_vescpkg_uri : Text → Text → Result ResourceUriError ParsedResourceUri
parse_vescpkg_uri full rest = do
  parts ← ok_or (split_once b'/' rest) (record { uri = full; reason = vescpkg_parts })
  if text_eq parts.0 (codes "fixture")
      then parse_fixture_manifest_uri full parts.1
      else if text_eq parts.0 (codes "manifest")
      then parse_dynamic_manifest_uri full parts.1
      else malformed full (vescpkg_authority parts.0)

unfoldable pub parse_trimmed : Text → Result ResourceUriError ParsedResourceUri
parse_trimmed uri = do
  guard (not (is_empty uri)) (record { uri = uri; reason = empty_uri })
  parts ← ok_or (split_once_text (codes "://") uri) (record { uri = uri; reason = no_scheme })
  if text_eq parts.0 (codes "vesc")
      then parse_vesc_uri uri parts.1
      else if text_eq parts.0 (codes "vescpkg")
      then parse_vescpkg_uri uri parts.1
      else malformed uri (unsupported_scheme parts.0)

unfoldable pub parse_resource_uri : Text → Result ResourceUriError ParsedResourceUri
parse_resource_uri uri = parse_trimmed (trim uri)
