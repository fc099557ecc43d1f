-- ===== src/Tests/Wire.antt =====
-- crates/vesc-domain/src/wire/mod.rs on a small package.
use vesc_mcp.Prelude.{
  ℕ, ◌≡◌, ◌↔◌, refl, true, false, List, [], ◌∷◌, ◌++◌, Option, none, some, inl, inr, arith, all,
  ltb, All, All-all, length, ok, err, Bool-cases, if◌then◌else◌, replicate,
}
use mathlib.Core.Path.{subst}
use vesc_mcp.Text.{codes, text_eq, contains_char}
use vesc_mcp.Text.Split.{split_once, strip_prefix}
use vesc_mcp.Text.Utf8.{Bytes, as_bytes, from_utf8, is_scalar}
use vesc_mcp.Domain.Error.{invalid_wire_format, bad_magic, short_prefix, missing_nul}
use vesc_mcp.Domain.Wire.{
  PackageField, VescPackageFields, LispImport, package_fields, parse_vescpkg_fields, fields_of_raw,
  fields_loop, read_field, read_string, read_i32_be, read_i16_be, usize_from, decompress_vescpkg,
  sized, parse_lisp_imports, imports_loop, read_import, payload_matches_native_with_only_nul_tail,
  fields_from_pairs,
}
use vesc_mcp.Domain.Wire.Fields.{IsWireField, AreBytes}
use vesc_mcp.Domain.Wire.Package.{
  InflatesBytes, Holds, encode_raw, package_fields_iff, payload_matches_native_iff,
}
use vesc_mcp.Domain.Wire.Spine.{
  Kept, package_pairs, IsText, Omits, fields_from_pairs-package_pairs, parse_vescpkg_fields-encode,
}
use vesc_mcp.Domain.Wire.Imports.{IsImportTable, parse_lisp_imports-IsImportTable}

-- A decompressor of stored data: it returns its input where that is made of bytes.
abbrev stored : Bytes → Option Bytes
stored s = if all (λ b. ltb b 256) s then some s else none

stored-InflatesBytes : InflatesBytes stored
stored-InflatesBytes s raw h = elim (Bool-cases (all (λ b. ltb b 256) s)) [
  | inl e ↦ subst AreBytes (cc (rw e at h)) (bytes s e)
  | inr ne ↦ cc (rw ne at h)
]
  where
    bytes : (t : Bytes) → all (λ b. ltb b 256) t ≡ true → AreBytes t
    bytes [] e = tt
    bytes (b ∷ t) e = (ground (arith, e), bytes t (ground (arith, e)))

abbrev demo : VescPackageFields
demo = record {
  name = codes "Ré";
  description_md = codes "# demo";
  lisp_data = 0 ∷ 0 ∷ 0 ∷ [];
  qml_file = [];
  pkg_desc_qml = [];
  qml_is_fullscreen = true;
}

abbrev demo_kept : Kept
demo_kept = record {
  description_md = true;
  lisp_data = true;
  qml_file = false;
  pkg_desc_qml = false;
  qml_is_fullscreen = true;
}

demo-IsText : IsText demo
demo-IsText = record {
  name = All-all is_scalar demo.name refl;
  description_md = All-all is_scalar demo.description_md refl;
  qml_file = tt;
  pkg_desc_qml = tt;
}

demo-Omits : Omits demo_kept demo
demo-Omits = record {
  description_md = λ h. cc h;
  lisp_data = λ h. cc h;
  qml_file = λ h. refl;
  pkg_desc_qml = λ h. refl;
  qml_is_fullscreen = λ h. cc h;
}

wire_field :
    (f : PackageField)
    → all is_scalar f.key ≡ true
    → contains_char 0 (as_bytes f.key) ≡ false
    → ltb (length f.value) 2_147_483_648 ≡ true
    → IsWireField f
wire_field f s n l = record {
  key_text = record { scalar = All-all is_scalar f.key s; no_nul = n };
  short = ground (arith, l);
}

demo-All : All IsWireField (package_pairs demo_kept demo)
unfolding package_pairs as_bytes contains_char
demo-All = (
  wire_field _ refl refl refl,
  (wire_field _ refl refl refl, (wire_field _ refl refl refl, (wire_field _ refl refl refl, tt))),
)

abbrev demo_raw : Bytes
unfolding package_pairs as_bytes
demo_raw = encode_raw (package_pairs demo_kept demo)

package_fields_iff_example :
    (package_fields stored (0 ∷ 0 ∷ 0 ∷ 86 ∷ demo_raw) ≡ ok (package_pairs demo_kept demo))
    ↔ Holds stored stored-InflatesBytes 0 0 0 86 demo_raw (package_pairs demo_kept demo)
package_fields_iff_example =
    package_fields_iff stored stored-InflatesBytes 0 0 0 86 demo_raw (package_pairs demo_kept demo)

raw_length : length demo_raw ≡ 86
unfolding package_pairs as_bytes demo_raw
raw_length = refl

parse_vescpkg_fields-encode_example :
    parse_vescpkg_fields stored (0 ∷ 0 ∷ 0 ∷ 86 ∷ demo_raw) ≡ ok demo
unfolding package_pairs as_bytes demo_raw
parse_vescpkg_fields-encode_example =
    parse_vescpkg_fields-encode stored stored-InflatesBytes 0 0 0 86 demo_raw demo_kept demo
      demo-IsText demo-Omits demo-All refl refl

demo_from_pairs : fields_from_pairs (package_pairs demo_kept demo) ≡ ok demo
demo_from_pairs = fields_from_pairs-package_pairs demo_kept demo demo-IsText demo-Omits

payload_matches_native_iff_example :
    (payload_matches_native_with_only_nul_tail (7 ∷ 0 ∷ 0 ∷ []) (7 ∷ []) ≡ true)
    ↔ ((n : ℕ) × (◌≡◌ {A = Bytes} (7 ∷ 0 ∷ 0 ∷ []) ((7 ∷ []) ++ replicate n 0)))
payload_matches_native_iff_example = payload_matches_native_iff (7 ∷ 0 ∷ 0 ∷ []) (7 ∷ [])

payload_runs :
    (payload_matches_native_with_only_nul_tail (7 ∷ 0 ∷ 0 ∷ []) (7 ∷ []) ≡ true)
    × (payload_matches_native_with_only_nul_tail (7 ∷ 0 ∷ 1 ∷ []) (7 ∷ []) ≡ false)
    × (payload_matches_native_with_only_nul_tail [] (7 ∷ []) ≡ false)
unfolding payload_matches_native_with_only_nul_tail strip_prefix
payload_runs = (refl, refl, refl)

-- A zero header, the code `(a)`, one import `m` of two bytes, and the payload.
abbrev lisp : Bytes
lisp =
    0 ∷ 0 ∷ b'(' ∷ b'a' ∷ b')' ∷ 0 ∷ 0 ∷ 1 ∷ b'm' ∷ 0 ∷ 0 ∷ 0 ∷ 0 ∷ 16 ∷ 0 ∷ 0 ∷ 0 ∷ 2 ∷ 8 ∷ 9 ∷ []

abbrev lisp_imports : List LispImport
lisp_imports = record { tag = codes "m"; offset = 16; size = 2; payload = 8 ∷ 9 ∷ [] } ∷ []

lisp_runs : parse_lisp_imports lisp ≡ ok (codes "(a)", lisp_imports)
unfolding parse_lisp_imports imports_loop read_import read_string read_i32_be read_i16_be usize_from
    split_once from_utf8
lisp_runs = refl

parse_lisp_imports-IsImportTable_example : IsImportTable lisp (codes "(a)") lisp_imports
parse_lisp_imports-IsImportTable_example =
    parse_lisp_imports-IsImportTable lisp (codes "(a)") lisp_imports lisp_runs

errors_run :
    (package_fields stored (0 ∷ 0 ∷ 0 ∷ []) ≡ err (invalid_wire_format short_prefix))
    × (package_fields stored (0 ∷ 0 ∷ 0 ∷ 2 ∷ b'V' ∷ 0 ∷ [])
        ≡ err (invalid_wire_format (bad_magic (codes "V"))))
    × (fields_of_raw (b'V' ∷ []) ≡ err (invalid_wire_format missing_nul))
unfolding package_fields decompress_vescpkg sized fields_of_raw fields_loop read_field read_string
    split_once from_utf8 text_eq
errors_run = (refl, refl, refl)
