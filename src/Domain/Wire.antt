-- ===== src/Domain/Wire.antt =====
-- crates/vesc-domain/src/wire/mod.rs: the reader of `.vescpkg` files. A cursor `&mut &[u8]` is the
-- list of the bytes left, returned beside the result. The zlib decoder of flate2 and the file system
-- are parameters.
pub mod Fields
pub mod Imports
pub mod Package
pub mod Spine
use vesc_mcp.Prelude.{
  ℕ, zero, suc, ◌+◌, ◌-◌, ◌*◌, ◌^◌, Bool, true, false, not, ◌&&◌, ◌||◌, List, [], ◌∷◌, ◌++◌, Option,
  none, some, ltb, ◌==◌, if◌then◌else◌, length, take, drop, all, Result, ok, err, ◌>>=◌, ◌>>◌,
  guard, ok_or, map_err, ◌≡◌, refl, min,
}
use vesc_mcp.Prelude.Int.{ℤ, pos, negsuc, is_negative, signed32, signed16}
use vesc_mcp.Text.{Text, codes, text_eq}
use vesc_mcp.Text.Split.{split_once, strip_prefix}
use vesc_mcp.Text.Utf8.{Bytes, from_utf8}
use vesc_mcp.Domain.Error.{
  WireMessage, short_prefix, zlib_failed, length_mismatch, bad_magic, negative_field_length,
  field_exceeds, bad_lisp_header, negative_import_count, negative_import, import_range,
  missing_field, field_not_utf8, missing_nul, string_not_utf8, short_i32, short_i16, out_of_range,
  DomainError, invalid_wire_format, io,
}

abbrev pub magic : Text
magic = codes "VESC Packet"

pub record VescPackageFields : Type 0 where
  pub name : Text
  pub description_md : Text
  pub lisp_data : Bytes
  pub qml_file : Text
  pub pkg_desc_qml : Text
  pub qml_is_fullscreen : Bool

pub record PackageField : Type 0 where
  pub key : Text
  pub value : Bytes

pub record LispImport : Type 0 where
  pub tag : Text
  pub offset : ℕ
  pub size : ℕ
  pub payload : Bytes

-- `wire_err`
abbrev wire_err {ℓ} : {A : Type ℓ} → WireMessage → Result DomainError A
wire_err m = err (invalid_wire_format m)

abbrev is_zero : ℤ → Bool
is_zero (pos n) = n == 0
is_zero (negsuc n) = false

-- The bytes before the first nul, as text.
unfoldable pub read_string : Bytes → Result DomainError (Text × Bytes)
read_string cursor = do
  parts ← ok_or (split_once 0 cursor) (invalid_wire_format missing_nul)
  value ← ok_or (from_utf8 parts.0) (invalid_wire_format string_not_utf8)
  ok (value, parts.1)

abbrev pub be_u32 : ℕ → ℕ → ℕ → ℕ → ℕ
be_u32 a b c d = ((a * 256 + b) * 256 + c) * 256 + d

unfoldable pub read_i32_be : Bytes → Result DomainError (ℤ × Bytes)
read_i32_be (a ∷ b ∷ c ∷ d ∷ rest) = ok (signed32 (be_u32 a b c d), rest)
read_i32_be _ = wire_err short_i32

unfoldable pub read_i16_be : Bytes → Result DomainError (ℤ × Bytes)
read_i16_be (a ∷ b ∷ rest) = ok (signed16 (a * 256 + b), rest)
read_i16_be _ = wire_err short_i16

-- `usize_from_i32` and `usize_from_i16`; a usize has 64 bits.
unfoldable pub usize_from : ℤ → Result DomainError ℕ
usize_from (pos n) = ok n
usize_from (negsuc n) = wire_err (out_of_range (negsuc n))

-- The body of the `while` loop of `package_fields`.
unfoldable pub read_field : Bytes → Result DomainError (PackageField × Bytes)
read_field cursor = do
  key ← read_string cursor
  len_i32 ← read_i32_be key.1
  guard (not (is_negative len_i32.0)) (invalid_wire_format (negative_field_length key.0 len_i32.0))
  len ← usize_from len_i32.0
  guard (not (ltb (length len_i32.1) len)) (invalid_wire_format (field_exceeds key.0 len))
  ok (record { key = key.0; value = take len len_i32.1 }, drop len len_i32.1)

-- The loop, on fuel no smaller than the cursor: without fuel the cursor is empty.
unfoldable pub fields_loop : ℕ → Bytes → List PackageField → Result DomainError (List PackageField)
fields_loop zero cursor fields = ok fields
fields_loop (suc fuel) [] fields = ok fields
fields_loop (suc fuel) (b ∷ bs) fields =
    read_field (b ∷ bs) >>= λ step. fields_loop fuel step.1 (fields ++ step.0 ∷ [])

-- `package_fields` on the decompressed payload.
unfoldable pub fields_of_raw : Bytes → Result DomainError (List PackageField)
fields_of_raw raw = do
  head ← read_string raw
  guard (text_eq head.0 magic) (invalid_wire_format (bad_magic head.0))
  fields_loop (length head.1) head.1 []

unfoldable pub extract_field : List PackageField → Text → Option Bytes
extract_field [] key = none
extract_field (f ∷ fs) key = if text_eq f.key key then some f.value else extract_field fs key

unfoldable pub decode_text : Text → Bytes → Result DomainError Text
decode_text key value = ok_or (from_utf8 value) (invalid_wire_format (field_not_utf8 key))

unfoldable pub required_text_field : List PackageField → Text → Result DomainError Text
unfolding extract_field decode_text
required_text_field fields key = do
  value ← ok_or (extract_field fields key) (invalid_wire_format (missing_field key))
  decode_text key value

abbrev pub unwrap_or_default : Option (List ℕ) → List ℕ
unwrap_or_default none = []
unwrap_or_default (some t) = t

unfoldable pub optional_text_field : List PackageField → Text → Text
unfolding extract_field decode_text
optional_text_field fields key = elim (extract_field fields key) [
  | none ↦ []
  | some value ↦ elim (decode_text key value) [ ok t ↦ t | err e ↦ [] ]
]

unfoldable pub optional_bytes_field : List PackageField → Text → Bytes
unfolding extract_field
optional_bytes_field fields key = unwrap_or_default (extract_field fields key)

abbrev first_byte_set : Bytes → Option Bool
first_byte_set [] = none
first_byte_set (b ∷ bs) = some (not (b == 0))

unfoldable pub optional_bool_field : List PackageField → Text → Option Bool
unfolding extract_field
optional_bool_field fields key = elim (extract_field fields key) [
  | none ↦ none
  | some value ↦ first_byte_set value
]

abbrev pub unwrap_or_false : Option Bool → Bool
unwrap_or_false none = false
unwrap_or_false (some b) = b

unfoldable pub fields_from_pairs : List PackageField → Result DomainError VescPackageFields
fields_from_pairs fields = do
  name ← required_text_field fields (codes "name")
  ok (record {
    name = name;
    description_md = optional_text_field fields (codes "description_md");
    lisp_data = optional_bytes_field fields (codes "lispData");
    qml_file = optional_text_field fields (codes "qmlFile");
    pkg_desc_qml = optional_text_field fields (codes "pkgDescQml");
    qml_is_fullscreen = unwrap_or_false (optional_bool_field fields (codes "qmlIsFullscreen"));
  })

-- One round of the loop of `parse_lisp_imports`, over the whole of `lispData`. Offsets are below
-- 2 ^ 31, so the saturating sums on a usize are the sums.
unfoldable pub read_import : Bytes → Bytes → Result DomainError (LispImport × Bytes)
read_import lisp_data cursor = do
  tag ← read_string cursor
  offset_i32 ← read_i32_be tag.1
  size_i32 ← read_i32_be offset_i32.1
  guard (not (is_negative offset_i32.0 || is_negative size_i32.0))
      (invalid_wire_format (negative_import tag.0))
  offset ← usize_from offset_i32.0
  size ← usize_from size_i32.0
  let start = 2 + offset
  let end = start + size
  guard (not (ltb (length lisp_data) end))
      (invalid_wire_format (import_range tag.0 start end (length lisp_data)))
  ok (
    record {
      tag = tag.0;
      offset = offset;
      size = size;
      payload = take size (drop start lisp_data);
    },
    size_i32.1,
  )

unfoldable pub imports_loop :
    ℕ → Bytes → Bytes → List LispImport → Result DomainError (List LispImport)
imports_loop zero lisp_data cursor imports = ok imports
imports_loop (suc n) lisp_data cursor imports = read_import lisp_data cursor >>= λ step.
    imports_loop n lisp_data step.1 (imports ++ step.0 ∷ [])

unfoldable pub parse_lisp_imports : Bytes → Result DomainError (Text × List LispImport)
parse_lisp_imports lisp_data = do
  header ← read_i16_be lisp_data
  guard (is_zero header.0) (invalid_wire_format (bad_lisp_header header.0))
  code ← read_string header.1
  import_count ← read_i16_be code.1
  guard (not (is_negative import_count.0)) (invalid_wire_format negative_import_count)
  count ← usize_from import_count.0
  imports ← imports_loop count lisp_data import_count.1 []
  ok (code.0, imports)

unfoldable pub payload_matches_native_with_only_nul_tail : Bytes → Bytes → Bool
payload_matches_native_with_only_nul_tail payload native = elim (strip_prefix native payload) [
  | none ↦ false
  | some tail ↦ all (λ b. b == 0) tail
]

-- The check of `decompress_vescpkg` on the declared length.
unfoldable pub sized : ℕ → Bytes → Result DomainError Bytes
sized declared raw =
    if length raw == declared then ok raw else wire_err (length_mismatch (length raw) declared)

-- `inflate` is flate2's `ZlibDecoder`: the decompressed bytes, or `none` where it fails.
module _ (inflate : Bytes → Option Bytes) where
  unfoldable pub decompress_vescpkg : Bytes → Result DomainError Bytes
  decompress_vescpkg (a ∷ b ∷ c ∷ d ∷ stream) = do
    raw ← ok_or (inflate stream) (invalid_wire_format zlib_failed)
    sized (be_u32 a b c d) raw
  decompress_vescpkg _ = wire_err short_prefix

  unfoldable pub package_fields : Bytes → Result DomainError (List PackageField)
  unfolding decompress_vescpkg
  package_fields bytes = do raw ← decompress_vescpkg bytes; fields_of_raw raw

  unfoldable pub parse_vescpkg_fields : Bytes → Result DomainError VescPackageFields
  parse_vescpkg_fields bytes = do fields ← package_fields bytes; fields_from_pairs fields

  -- `read` is `std::fs::read`.
  unfoldable pub read_vescpkg_fields :
      (Text → Option Bytes) → Text → Result DomainError VescPackageFields
  unfolding parse_vescpkg_fields
  read_vescpkg_fields read path = do bytes ← ok_or (read path) (io path); parse_vescpkg_fields bytes
