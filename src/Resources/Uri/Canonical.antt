-- ===== src/Resources/Uri/Canonical.antt =====
-- `parse_resource_uri` on what `to_uri` prints, in crates/vesc-mcp-core/src/resources/uri.rs.
use vesc_mcp.Prelude.{
  ◌≡◌, ◌≢◌, refl, sym, ap, ◌∙◌, false, [], ◌∷◌, ◌++◌, arith, any, ok, ok-injective,
}
use vesc_mcp.Text.{Text, codes, is_empty, is_whitespace, trim_end}
use vesc_mcp.Text.Utf8.{as_bytes, AreScalar}
use vesc_mcp.Text.Ascii.{IsAscii}
use vesc_mcp.Resources.Uri.{
  ParsedResourceUri, catalog, knowledge_chunk, knowledge_document, knowledge_feedback,
  snapshot_knowledge_chunk, snapshot_knowledge_document, refloat_command, fixture_manifest,
  dynamic_manifest, to_uri, parse_knowledge, parse_catalog, parse_resource_uri,
  encode_manifest_path, decode_manifest_path, decode_loop,
}
use vesc_mcp.Resources.Uri.Percent.{decode-encode_manifest_path, encode-EncodesTo, IsPlain}
use vesc_mcp.Resources.Uri.Shape.{IsTail, IsToken, IsTail-of_plain, IsCanonical, trim_end-append}
use vesc_mcp.Resources.Uri.RoundTrip.{
  parse_vesc, parse_vescpkg, knowledge_part, catalog_part, chunk_part, document_part, feedback_part,
  snapshot_part, catalog_id, command_id, snapshot_chunk_id, snapshot_document_id, fixture_part,
  manifest_part, hexdigits-free, snapshot_lem, entry_lem,
}

append-filled : (s t : Text) → t ≢ [] → s ++ t ≢ []
append-filled [] t h = h
append-filled (c ∷ s) t h = λ e. cc e

IsTail-append : (s t : Text) → IsTail t → IsTail (s ++ t)
IsTail-append s t w = record {
  filled = append-filled s t w.filled;
  trimmed = trim_end-append s t w.filled w.trimmed;
}

IsTail-is_empty : (t : Text) → IsTail t → is_empty t ≡ false
unfolding is_empty
IsTail-is_empty [] w = absurd (w.filled refl)
IsTail-is_empty (c ∷ t) w = refl

-- A knowledge URI, and a catalog URI, after the scheme and the authority.
knowledge_uri :
    (rest : Text)
    → IsTail rest
    → parse_resource_uri (codes "vesc://knowledge/" ++ rest)
      ≡ parse_knowledge (codes "vesc://knowledge/" ++ rest) rest
knowledge_uri rest w = parse_vesc (codes "knowledge/") rest w ∙ knowledge_part _ rest

catalog_uri :
    (rest : Text)
    → IsTail rest
    → parse_resource_uri (codes "vesc://catalog/" ++ rest)
      ≡ parse_catalog (codes "vesc://catalog/" ++ rest) rest
catalog_uri rest w = parse_vesc (codes "catalog/") rest w ∙ catalog_part _ rest

token-IsTail : (s id : Text) → IsToken id → IsTail (s ++ id)
token-IsTail s id h = IsTail-append s id (IsTail-of_plain id h.0 h.2)

IsAscii-AreScalar : (t : Text) → IsAscii t → AreScalar t
IsAscii-AreScalar [] h = tt
IsAscii-AreScalar (c ∷ t) h = (ground (arith, h.0), IsAscii-AreScalar t h.1)

decode_manifest_path_nil : decode_manifest_path [] ≡ ok []
unfolding decode_manifest_path decode_loop as_bytes
decode_manifest_path_nil = refl

-- What decodes to a path that is not empty is not empty.
decoded_filled :
    (encoded path : Text)
    → path ≢ []
    → decode_manifest_path encoded ≡ ok path
    → is_empty encoded ≡ false
unfolding is_empty
decoded_filled [] path ne h = absurd (ne (sym (ok-injective (sym decode_manifest_path_nil ∙ h))))
decoded_filled (c ∷ encoded) path ne h = refl

IsPlain-any : (t : Text) → IsPlain t → any is_whitespace t ≡ false
IsPlain-any [] h = refl
IsPlain-any (c ∷ t) h = rw (h.0.1, IsPlain-any t h.1) refl

manifest_uri :
    (path : Text)
    → path ≢ []
    → IsAscii path
    → parse_resource_uri (codes "vescpkg://manifest/" ++ encode_manifest_path path)
      ≡ ok (dynamic_manifest path)
manifest_uri path ne ascii =
    let scalar = IsAscii-AreScalar path ascii in
    let decoded = (decode-encode_manifest_path path scalar).1.1 ascii in
    let filled = decoded_filled _ path ne decoded in
    let plain = (encode-EncodesTo path scalar).0 in
    parse_vescpkg (codes "manifest/") (encode_manifest_path path)
      (IsTail-of_plain _ filled (IsPlain-any _ plain))
    ∙ manifest_part _ path filled decoded

manifest-IsTail : IsTail (codes "/manifest")
manifest-IsTail = record { filled = λ x. cc x; trimmed = unfold trim_end is_whitespace in refl }

-- A resource whose texts are such as its URI can hold is read back from that URI: the ids are not
-- empty, have no slash and no white space, a snapshot is 64 hexadecimal digits, the kind of a
-- catalog entry and the name of a fixture are not empty and have no slash, the id of a catalog
-- entry and a command are not empty and do not end in white space, a catalog entry has not the
-- URI of a command, a command has no slash, and the path of a manifest is ASCII and not empty.
pub parse_resource_uri-to_uri :
    (uri : ParsedResourceUri) → IsCanonical uri → parse_resource_uri (to_uri uri) ≡ ok uri
unfolding to_uri
parse_resource_uri-to_uri (catalog kind id) (filled, free, tail, entry) =
    catalog_uri (kind ++ (b'/' ∷ id)) (IsTail-append kind _ (IsTail-append (b'/' ∷ []) id tail))
    ∙ catalog_id _ kind id filled free (IsTail-is_empty id tail)
    ∙ ap ok (entry_lem kind id entry)
parse_resource_uri-to_uri (knowledge_chunk id) h =
    knowledge_uri _ (token-IsTail (codes "chunk/") id h) ∙ chunk_part _ id h
parse_resource_uri-to_uri (knowledge_document id) h =
    knowledge_uri _ (token-IsTail (codes "document/") id h) ∙ document_part _ id h
parse_resource_uri-to_uri (knowledge_feedback id) h =
    knowledge_uri _ (token-IsTail (codes "feedback/") id h) ∙ feedback_part _ id h
parse_resource_uri-to_uri (snapshot_knowledge_chunk snapshot id) h =
    knowledge_uri (codes "snapshot/" ++ (snapshot ++ (codes "/chunk/" ++ id))) (
      IsTail-append (codes "snapshot/") _
        (IsTail-append snapshot _ (token-IsTail (codes "/chunk/") id h.2)))
    ∙ snapshot_part _ _
    ∙ snapshot_chunk_id _ snapshot id (hexdigits-free snapshot h.1) (snapshot_lem snapshot id h)
        h.2.1
parse_resource_uri-to_uri (snapshot_knowledge_document snapshot id) h =
    knowledge_uri (codes "snapshot/" ++ (snapshot ++ (codes "/document/" ++ id))) (
      IsTail-append (codes "snapshot/") _
        (IsTail-append snapshot _ (token-IsTail (codes "/document/") id h.2)))
    ∙ snapshot_part _ _
    ∙ snapshot_document_id _ snapshot id (hexdigits-free snapshot h.1) (snapshot_lem snapshot id h)
        h.2.1
parse_resource_uri-to_uri (refloat_command command) (filled, free, tail) =
    catalog_uri _ (IsTail-append (codes "commands/refloat/") command tail)
    ∙ command_id _ command filled free
parse_resource_uri-to_uri (fixture_manifest name) (filled, free) =
    parse_vescpkg (codes "fixture/") (name ++ codes "/manifest")
      (IsTail-append name _ manifest-IsTail)
    ∙ fixture_part _ name filled free
parse_resource_uri-to_uri (dynamic_manifest path) (ne, ascii) = manifest_uri path ne ascii
