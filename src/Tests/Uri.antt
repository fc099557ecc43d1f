-- ===== src/Tests/Uri.antt =====
-- Runs of crates/vesc-mcp-core/src/resources/uri.rs.
use vesc_mcp.Prelude.{arith, ◌≡◌, refl, [], ◌∷◌, ok, err, replicate}
use vesc_mcp.Text.{
  Text, codes, trim, trim_start, trim_end, is_whitespace, is_empty, contains_char, text_eq,
  is_ascii_hexdigit,
}
use vesc_mcp.Text.Utf8.{as_bytes, encode_char}
use vesc_mcp.Text.Split.{split, split_once, split_once_text, strip_prefix}
use vesc_mcp.Resources.Uri.{
  catalog, snapshot_knowledge_chunk, snapshot_shape, is_snapshot_id, parse_snapshot,
  refloat_command, dynamic_manifest, to_uri, parse_resource_uri, parse_trimmed, parse_vesc_uri,
  parse_catalog, decode_manifest_path, decode_loop, encode_manifest_path, encode_bytes,
  is_unreserved, hex, join_slash, hex_digit, truncated_percent, catalog_empty,
}
use vesc_mcp.Resources.Uri.Percent.{decode-encode_manifest_path}
use vesc_mcp.Resources.Uri.Canonical.{parse_resource_uri-to_uri}

abbrev manifest_path : Text
manifest_path = codes "pkg files/pkgdesc.qml"

encoded_path : encode_manifest_path manifest_path ≡ codes "pkg%20files/pkgdesc.qml"
unfolding encode_manifest_path encode_bytes is_unreserved hex join_slash split as_bytes encode_char
encoded_path = refl

-- An `é` comes back as the two characters of its bytes.
decoded_accent : decode_manifest_path (encode_manifest_path (0xe9 ∷ [])) ≡ ok (0xc3 ∷ 0xa9 ∷ [])
unfolding decode_manifest_path decode_loop encode_manifest_path encode_bytes is_unreserved hex
    hex_digit join_slash split as_bytes encode_char
decoded_accent = refl

truncated : decode_manifest_path (codes "a%2") ≡ err truncated_percent
unfolding decode_manifest_path decode_loop hex_digit as_bytes encode_char
truncated = refl

command_read :
    parse_resource_uri (codes " vesc://catalog/commands/refloat/get-info")
    ≡ ok (refloat_command (codes "get-info"))
unfolding parse_resource_uri trim_start trim_end is_whitespace trim parse_trimmed split_once_text
    strip_prefix is_empty text_eq parse_vesc_uri parse_catalog split_once contains_char
command_read = refl

catalog_refused :
    parse_resource_uri (codes "vesc://catalog/commands/")
    ≡ err (record { uri = codes "vesc://catalog/commands/"; reason = catalog_empty })
unfolding parse_resource_uri trim_start trim_end is_whitespace trim parse_trimmed split_once_text
    strip_prefix is_empty text_eq parse_vesc_uri parse_catalog split_once contains_char
catalog_refused = refl

-- A command with a slash in it is a catalog entry.
entry_read :
    (parse_resource_uri (codes "vesc://catalog/commands/refloat/a/b")
      ≡ ok (catalog (codes "commands") (codes "refloat/a/b")))
    × (parse_resource_uri (codes "vesc://catalog/abi/refloat/a")
        ≡ ok (catalog (codes "abi") (codes "refloat/a")))
unfolding parse_resource_uri trim_start trim_end is_whitespace trim parse_trimmed split_once_text
    strip_prefix is_empty text_eq parse_vesc_uri parse_catalog split_once contains_char
entry_read = (refl, refl)

-- A snapshot has 64 digits, and no fewer.
snapshot_read :
    (parse_snapshot [] (replicate 64 b'a' ∷ codes "chunk" ∷ codes "x" ∷ [])
      ≡ ok (snapshot_knowledge_chunk (replicate 64 b'a') (codes "x")))
    × (parse_snapshot [] (replicate 63 b'a' ∷ codes "chunk" ∷ codes "x" ∷ [])
        ≡ err (record { uri = []; reason = snapshot_shape }))
unfolding parse_snapshot is_snapshot_id text_eq as_bytes encode_char is_ascii_hexdigit is_empty
    is_whitespace
snapshot_read = (refl, refl)

parse_resource_uri-to_uri_example :
    parse_resource_uri (to_uri (dynamic_manifest (codes "/a b")))
    ≡ ok (dynamic_manifest (codes "/a b"))
parse_resource_uri-to_uri_example =
    parse_resource_uri-to_uri (dynamic_manifest (codes "/a b"))
      (λ x. cc x, (omega arith, (omega arith, (omega arith, (omega arith, tt)))))

decode-encode_manifest_path_example :
    decode_manifest_path (encode_manifest_path (codes "pkg files/é"))
    ≡ ok (as_bytes (codes "pkg files/é"))
decode-encode_manifest_path_example =
    (decode-encode_manifest_path (codes "pkg files/é")
      (refl, (refl, (refl, (refl, (refl, (refl, (refl, (refl, (refl, (refl, (refl, tt)))))))))))).0
