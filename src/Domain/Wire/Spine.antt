-- ===== src/Domain/Wire/Spine.antt =====
-- `fields_from_pairs` and `parse_vescpkg_fields` of crates/vesc-domain/src/wire/mod.rs on packages
-- that are written in the order of `FIELD_SPINE`.
use vesc_mcp.Prelude.{
  ℕ, ◌≡◌, refl, Bool, true, false, List, [], ◌∷◌, Option, none, some, arith, length, ok,
  if◌then◌else◌, All,
}
use vesc_mcp.Text.{Text, codes, text_eq}
use vesc_mcp.Text.Utf8.{Bytes, as_bytes, AreScalar, from_utf8-as_bytes}
use vesc_mcp.Domain.Wire.{
  PackageField, VescPackageFields, be_u32, extract_field, decode_text, required_text_field,
  optional_text_field, optional_bytes_field, optional_bool_field, fields_from_pairs,
  parse_vescpkg_fields, unwrap_or_false,
}
use vesc_mcp.Domain.Wire.Fields.{IsWireField}
use vesc_mcp.Domain.Wire.Package.{InflatesBytes, encode_raw, package_fields_iff}

-- Which of the optional fields a package holds.
pub record Kept : Type 0 where
  pub description_md : Bool
  pub lisp_data : Bool
  pub qml_file : Bool
  pub pkg_desc_qml : Bool
  pub qml_is_fullscreen : Bool

abbrev pair : Bool → Text → Bytes → List PackageField → List PackageField
pair kept key value rest = if kept then record { key = key; value = value } ∷ rest else rest

abbrev flag : Bool → Bytes
flag true = 1 ∷ []
flag false = 0 ∷ []

-- The fields of a package in the order of `FIELD_SPINE`.
unfoldable pub package_pairs : Kept → VescPackageFields → List PackageField
package_pairs k v =
    record { key = codes "name"; value = as_bytes v.name }
    ∷ pair k.description_md (codes "description_md") (as_bytes v.description_md) (
        pair k.lisp_data (codes "lispData") v.lisp_data (
          pair k.qml_file (codes "qmlFile") (as_bytes v.qml_file) (
            pair k.pkg_desc_qml (codes "pkgDescQml") (as_bytes v.pkg_desc_qml)
              (pair k.qml_is_fullscreen (codes "qmlIsFullscreen") (flag v.qml_is_fullscreen) []))))

-- A field that is left out has its default value.
pub record Omits (k : Kept) (v : VescPackageFields) : Type 0 where
  pub description_md : k.description_md ≡ false → v.description_md ≡ []
  pub lisp_data : k.lisp_data ≡ false → v.lisp_data ≡ []
  pub qml_file : k.qml_file ≡ false → v.qml_file ≡ []
  pub pkg_desc_qml : k.pkg_desc_qml ≡ false → v.pkg_desc_qml ≡ []
  pub qml_is_fullscreen : k.qml_is_fullscreen ≡ false → v.qml_is_fullscreen ≡ false

pub record IsText (v : VescPackageFields) : Type 0 where
  pub name : AreScalar v.name
  pub description_md : AreScalar v.description_md
  pub qml_file : AreScalar v.qml_file
  pub pkg_desc_qml : AreScalar v.pkg_desc_qml

abbrev found : Bool → Bytes → Option Bytes
found kept value = if kept then some value else none

module _ (k : Kept) (v : VescPackageFields) where
  extract_name : extract_field (package_pairs k v) (codes "name") ≡ some (as_bytes v.name)
  unfolding extract_field package_pairs text_eq
  extract_name = refl

  extract_description :
      extract_field (package_pairs k v) (codes "description_md")
      ≡ found k.description_md (as_bytes v.description_md)
  unfolding extract_field package_pairs text_eq
  extract_description = ground arith

  extract_lisp :
      extract_field (package_pairs k v) (codes "lispData") ≡ found k.lisp_data v.lisp_data
  unfolding extract_field package_pairs text_eq
  extract_lisp = ground arith

  extract_qml :
      extract_field (package_pairs k v) (codes "qmlFile") ≡ found k.qml_file (as_bytes v.qml_file)
  unfolding extract_field package_pairs text_eq
  extract_qml = ground arith

  extract_pkg_desc :
      extract_field (package_pairs k v) (codes "pkgDescQml")
      ≡ found k.pkg_desc_qml (as_bytes v.pkg_desc_qml)
  unfolding extract_field package_pairs text_eq
  extract_pkg_desc = ground arith

  extract_fullscreen :
      extract_field (package_pairs k v) (codes "qmlIsFullscreen")
      ≡ found k.qml_is_fullscreen (flag v.qml_is_fullscreen)
  unfolding extract_field package_pairs text_eq
  extract_fullscreen = ground arith

module _ (fields : List PackageField) (key : Text) where
  optional_text_lem :
      (kept : Bool) (t : Text)
      → extract_field fields key ≡ found kept (as_bytes t)
      → (kept ≡ false → t ≡ [])
      → AreScalar t
      → optional_text_field fields key ≡ t
  unfolding optional_text_field decode_text
  optional_text_lem true t e h s = ground (arith, e, from_utf8-as_bytes t s)
  optional_text_lem false t e h s = ground (arith, e, h refl)

  optional_bytes_lem :
      (kept : Bool) (t : Bytes)
      → extract_field fields key ≡ found kept t
      → (kept ≡ false → t ≡ [])
      → optional_bytes_field fields key ≡ t
  unfolding optional_bytes_field
  optional_bytes_lem true t e h = ground (arith, e)
  optional_bytes_lem false t e h = ground (arith, e, h refl)

  required_text_lem :
      (t : Text)
      → extract_field fields key ≡ some (as_bytes t)
      → AreScalar t
      → required_text_field fields key ≡ ok t
  unfolding required_text_field decode_text
  required_text_lem t e s = rw e (rw (from_utf8-as_bytes t s) refl)

  optional_bool_lem :
      (kept b : Bool)
      → extract_field fields key ≡ found kept (flag b)
      → (kept ≡ false → b ≡ false)
      → unwrap_or_false (optional_bool_field fields key) ≡ b
  unfolding optional_bool_field
  optional_bool_lem true true e h = ground (arith, e)
  optional_bool_lem true false e h = ground (arith, e)
  optional_bool_lem false b e h = ground (arith, e, h refl)

-- Fields in the order of `FIELD_SPINE`, with any of those left out whose value is the default, give
-- back the package's values.
pub fields_from_pairs-package_pairs :
    (k : Kept) (v : VescPackageFields)
    → IsText v
    → Omits k v
    → fields_from_pairs (package_pairs k v) ≡ ok v
unfolding fields_from_pairs
fields_from_pairs-package_pairs k v s o =
    let fs = package_pairs k v in
    rw (required_text_lem fs _ v.name (extract_name k v) s.name) (
      rw (optional_text_lem fs _ _ _ (extract_description k v) o.description_md s.description_md) (
        rw (optional_bytes_lem fs _ _ _ (extract_lisp k v) o.lisp_data) (
          rw (optional_text_lem fs _ _ _ (extract_qml k v) o.qml_file s.qml_file) (
            rw (optional_text_lem fs _ _ _ (extract_pkg_desc k v) o.pkg_desc_qml s.pkg_desc_qml) (
              rw (optional_bool_lem fs _ _ _ (extract_fullscreen k v) o.qml_is_fullscreen) refl)))))

module _ (inflate : Bytes → Option Bytes) (inflates_bytes : InflatesBytes inflate) (a b c d : ℕ)
    (stream : Bytes) where
  -- A package whose stream inflates to the wire encoding of a package's fields, in the order of
  -- `FIELD_SPINE` and with any field left out that has its default value, and whose prefix is the
  -- length of that encoding, is read back as that package. The texts are scalar values, the keys'
  -- values are shorter than 2 ^ 31 bytes, and the decompressor returns bytes.
  pub parse_vescpkg_fields-encode :
      (k : Kept) (v : VescPackageFields)
      → IsText v
      → Omits k v
      → All IsWireField (package_pairs k v)
      → inflate stream ≡ some (encode_raw (package_pairs k v))
      → be_u32 a b c d ≡ length (encode_raw (package_pairs k v))
      → parse_vescpkg_fields inflate (a ∷ b ∷ c ∷ d ∷ stream) ≡ ok v
  unfolding parse_vescpkg_fields
  parse_vescpkg_fields-encode k v s o wires inflated size =
      rw
        ((package_fields_iff inflate inflates_bytes a b c d stream (package_pairs k v)).1
          (inflated, size, wires))
        (fields_from_pairs-package_pairs k v s o)
