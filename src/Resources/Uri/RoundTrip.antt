-- ===== src/Resources/Uri/RoundTrip.antt =====
-- The parsers on the parts of a printed URI, in crates/vesc-mcp-core/src/resources/uri.rs.
use vesc_mcp.Prelude.{
  ◌≡◌, refl, ap, ◌∙◌, true, false, [], ◌∷◌, ◌++◌, arith, All, all-true, ok, Bool-cases,
  Option-cases, inl, inr,
}
use vesc_mcp.Text.{
  Text, codes, text_eq, text_eq_iff, is_empty, contains_char, is_whitespace, is_ascii_hexdigit,
}
use vesc_mcp.Text.Split.{
  split, split_once, strip_prefix, strip_prefix-eq_some, split_once-append, split-append,
  split-free,
}
use vesc_mcp.Text.Utf8.{as_bytes, encode_char}
use vesc_mcp.Resources.Uri.{
  catalog, knowledge_chunk, knowledge_document, knowledge_feedback, snapshot_knowledge_chunk,
  snapshot_knowledge_document, refloat_command, fixture_manifest, dynamic_manifest, is_snapshot_id,
  parse_snapshot, parse_token, parse_knowledge, parse_catalog, parse_vesc_uri,
  parse_fixture_manifest_uri, parse_dynamic_manifest_uri, parse_vescpkg_uri, parse_trimmed,
  parse_resource_uri, catalog_or_command, command_of, encode_manifest_path, decode_manifest_path,
}
use vesc_mcp.Resources.Uri.Shape.{
  IsTail, trim-append, scheme_vesc, scheme_vescpkg, IsToken, IsSnapshot, IsEntry,
}

-- A URI of the scheme `vesc` whose end is trimmed.
pub parse_vesc :
    (s t : Text)
    → IsTail t
    → parse_resource_uri (codes "vesc://" ++ (s ++ t))
      ≡ parse_vesc_uri (codes "vesc://" ++ (s ++ t)) (s ++ t)
unfolding parse_resource_uri is_whitespace
parse_vesc s t w =
    ap parse_trimmed (trim-append b'v' (codes "esc://" ++ s) t refl w) ∙ scheme_vesc (s ++ t)

pub parse_vescpkg :
    (s t : Text)
    → IsTail t
    → parse_resource_uri (codes "vescpkg://" ++ (s ++ t))
      ≡ parse_vescpkg_uri (codes "vescpkg://" ++ (s ++ t)) (s ++ t)
unfolding parse_resource_uri is_whitespace
parse_vescpkg s t w =
    ap parse_trimmed (trim-append b'v' (codes "escpkg://" ++ s) t refl w) ∙ scheme_vescpkg (s ++ t)

module _ (full : Text) where
  pub knowledge_part :
      (rest : Text) → parse_vesc_uri full (codes "knowledge/" ++ rest) ≡ parse_knowledge full rest
  unfolding parse_vesc_uri split_once text_eq
  knowledge_part rest = refl

  pub catalog_part :
      (rest : Text) → parse_vesc_uri full (codes "catalog/" ++ rest) ≡ parse_catalog full rest
  unfolding parse_vesc_uri split_once text_eq
  catalog_part rest = refl

  pub chunk_part :
      (id : Text)
      → IsToken id
      → parse_knowledge full (codes "chunk/" ++ id) ≡ ok (knowledge_chunk id)
  unfolding parse_knowledge parse_token split_once strip_prefix text_eq
  chunk_part id h = ground (arith, h)

  pub document_part :
      (id : Text)
      → IsToken id
      → parse_knowledge full (codes "document/" ++ id) ≡ ok (knowledge_document id)
  unfolding parse_knowledge parse_token split_once strip_prefix text_eq
  document_part id h = ground (arith, h)

  pub feedback_part :
      (id : Text)
      → IsToken id
      → parse_knowledge full (codes "feedback/" ++ id) ≡ ok (knowledge_feedback id)
  unfolding parse_knowledge parse_token split_once strip_prefix text_eq
  feedback_part id h = ground (arith, h)

  pub snapshot_part :
      (rest : Text)
      → parse_knowledge full (codes "snapshot/" ++ rest) ≡ parse_snapshot full (split b'/' rest)
  unfolding parse_knowledge strip_prefix
  snapshot_part rest = refl

  pub catalog_id :
      (kind id : Text)
      → is_empty kind ≡ false
      → contains_char b'/' kind ≡ false
      → is_empty id ≡ false
      → parse_catalog full (kind ++ (b'/' ∷ id))
        ≡ ok (catalog_or_command kind id (command_of kind id))
  unfolding parse_catalog
  catalog_id kind id filled free some_id =
      rw (split_once-append b'/' kind id free, filled, some_id) refl

  pub command_id :
      (command : Text)
      → is_empty command ≡ false
      → contains_char b'/' command ≡ false
      → parse_catalog full (codes "commands/refloat/" ++ command) ≡ ok (refloat_command command)
  unfolding parse_catalog split_once strip_prefix text_eq is_empty
  command_id command filled free = ground (arith, filled, free)

  pub snapshot_chunk_id :
      (snapshot id : Text)
      → contains_char b'/' snapshot ≡ false
      → is_snapshot_id snapshot id ≡ true
      → contains_char b'/' id ≡ false
      → parse_snapshot full (split b'/' (snapshot ++ (codes "/chunk/" ++ id)))
        ≡ ok (snapshot_knowledge_chunk snapshot id)
  unfolding parse_snapshot text_eq
  snapshot_chunk_id snapshot id whole h free =
      rw
        (
          split-append b'/' snapshot (codes "chunk/" ++ id) whole,
          split-append b'/' (codes "chunk") id (unfold contains_char in refl),
          split-free b'/' id free,
          h,
        )
        refl

  pub snapshot_document_id :
      (snapshot id : Text)
      → contains_char b'/' snapshot ≡ false
      → is_snapshot_id snapshot id ≡ true
      → contains_char b'/' id ≡ false
      → parse_snapshot full (split b'/' (snapshot ++ (codes "/document/" ++ id)))
        ≡ ok (snapshot_knowledge_document snapshot id)
  unfolding parse_snapshot text_eq
  snapshot_document_id snapshot id whole h free =
      rw
        (
          split-append b'/' snapshot (codes "document/" ++ id) whole,
          split-append b'/' (codes "document") id (unfold contains_char in refl),
          split-free b'/' id free,
          h,
        )
        refl

  pub fixture_part :
      (name : Text)
      → is_empty name ≡ false
      → contains_char b'/' name ≡ false
      → parse_vescpkg_uri full (codes "fixture/" ++ (name ++ codes "/manifest"))
        ≡ ok (fixture_manifest name)
  unfolding parse_vescpkg_uri parse_fixture_manifest_uri split_once text_eq
  fixture_part name filled free =
      rw (split_once-append b'/' name (codes "manifest") free, filled) refl

  pub manifest_part :
      (path : Text)
      → is_empty (encode_manifest_path path) ≡ false
      → decode_manifest_path (encode_manifest_path path) ≡ ok path
      → parse_vescpkg_uri full (codes "manifest/" ++ encode_manifest_path path)
        ≡ ok (dynamic_manifest path)
  unfolding parse_vescpkg_uri parse_dynamic_manifest_uri split_once text_eq
  manifest_part path filled decoded = rw (filled, decoded) refl

pub hexdigits-free :
    (s : Text) → All (λ c. is_ascii_hexdigit c ≡ true) s → contains_char b'/' s ≡ false
unfolding contains_char is_ascii_hexdigit
hexdigits-free [] h = refl
hexdigits-free (c ∷ s) h = ground (arith, h.0, hexdigits-free s h.1)

-- Hexadecimal digits are their own bytes.
hexdigits_bytes : (s : Text) → All (λ c. is_ascii_hexdigit c ≡ true) s → as_bytes s ≡ s
unfolding as_bytes encode_char is_ascii_hexdigit
hexdigits_bytes [] h = refl
hexdigits_bytes (c ∷ s) h = ground (arith, h.0, hexdigits_bytes s h.1)

pub snapshot_lem : (snapshot id : Text) → IsSnapshot snapshot id → is_snapshot_id snapshot id ≡ true
unfolding is_snapshot_id
snapshot_lem snapshot id (size, digits, (filled, free, plain)) =
    let bytes = hexdigits_bytes snapshot digits in
    let is_hex = all-true is_ascii_hexdigit snapshot digits in
    rw (bytes, size, is_hex, filled, plain) refl

-- An entry that is no command is read as an entry.
pub entry_lem :
    (kind id : Text)
    → IsEntry kind id
    → catalog_or_command kind id (command_of kind id) ≡ catalog kind id
entry_lem kind id entry = elim (Bool-cases (text_eq kind (codes "commands"))) [
  | inl commands ↦ elim (Option-cases (strip_prefix (codes "refloat/") id)) [
    | inl absent ↦ rw (commands, absent) refl
    | inr (command, found) ↦
        let refused =
          entry command ((text_eq_iff kind (codes "commands")).0 commands)
            (strip_prefix-eq_some (codes "refloat/") id found) in
        rw (commands, found) (ground (arith, refused))
  ]
  | inr other ↦ rw other refl
]
