-- ===== src/Domain/PkgDesc.antt =====
-- crates/vesc-domain/src/pkgdesc: the descriptor types and the parser of pkgdesc.qml.
pub mod Property
pub mod Accepts
pub mod Descriptor
use vesc_mcp.Prelude.{
  ℕ, ◌+◌, Bool, true, false, ◌||◌, List, [], ◌∷◌, Option, none, some, if◌then◌else◌, Result, ok,
  err, ◌>>=◌, ◌>>◌, guard, any, not, String,
}
use vesc_mcp.Text.{Text, codes, text_eq, trim, is_empty}
use vesc_mcp.Text.Split.{strip_prefix, split_once}
use vesc_mcp.Text.Lines.{lines, strip_suffix, trim_end_matches}
use vesc_mcp.Map.{Map, get, insert, contains_key}
use vesc_mcp.Domain.Error.{
  DomainError, missing_property, invalid_property, unknown_dialect, legacy_poc_dialect,
  duplicate_on_line, expected_string, expected_bool,
}

-- vesc_tool.rs; the newtypes of newtypes.rs are their texts.
pub record PkgDescVescTool : Type 0 where
  pub pkg_name : Text
  pub description_md_path : Text
  pub lisp_path : Text
  pub qml_path : Text
  pub output_name : Text
  pub qml_is_fullscreen : Bool

-- dialect.rs
pub data ParsedPkgDesc : Type 0 where
  vesc_tool : PkgDescVescTool → ParsedPkgDesc

-- parse.rs
pub data PropertyValue : Type 0 where
  text : Text → PropertyValue
  bool : Bool → PropertyValue

abbrev pub legacy_poc_properties : List Text
legacy_poc_properties =
    codes "packageName"
    ∷ codes "packageVersion"
    ∷ codes "nativeLibraryPath"
    ∷ codes "loaderScriptPath"
    ∷ []

-- `e?` in a function that returns an `Option`
infixl 5 ◌>>?◌
abbrev pub ◌>>?◌ {ℓ κ} : {A : Type ℓ} {B : Type κ} → Option A → (A → Option B) → Option B
none >>? f = none
some a >>? f = f a

unfoldable pub parse_quoted_string : Text → Option Text
unfolding strip_prefix strip_suffix
parse_quoted_string value_text = strip_prefix (b'"' ∷ []) value_text >>? λ s. strip_suffix b'"' s

unfoldable pub property_value : Text → Text → Text → Option (Text × PropertyValue)
unfolding parse_quoted_string text_eq
property_value kind name value_text =
    if text_eq kind (codes "string")
    then (parse_quoted_string value_text >>? λ value. some (name, text value))
    else if text_eq kind (codes "bool")
    then (if text_eq value_text (codes "true")
        then some (name, bool true)
        else if text_eq value_text (codes "false")
        then some (name, bool false)
        else none)
    else none

unfoldable pub parse_property_line : Text → Option (Text × PropertyValue)
unfolding property_value strip_prefix split_once trim trim_end_matches
parse_property_line line = strip_prefix (codes "property ") line >>? λ rest.
    split_once b' ' rest >>? λ kind. split_once b':' kind.1 >>? λ name.
    property_value kind.0 (trim name.0) (trim (trim_end_matches b';' (trim name.1)))

-- A line that the loop of `extract_properties` skips, or the property that it declares.
unfoldable pub line_property : Text → Option (Text × PropertyValue)
unfolding parse_property_line trim is_empty strip_prefix
line_property line =
    let trimmed = trim line in
    if is_empty trimmed then none else elim (strip_prefix (codes "//") trimmed) [
      | some comment ↦ none
      | none ↦ parse_property_line trimmed
    ]

-- One round of the loop over `lines().enumerate()`; the number of the line counts from 0.
unfoldable pub extract_line :
    Text
    → ℕ
    → Option (Text × PropertyValue)
    → Map PropertyValue
    → Result DomainError (Map PropertyValue)
extract_line path line_no none properties = ok properties
extract_line path line_no (some (name, value)) properties =
    if contains_key name properties
    then err (invalid_property name path (duplicate_on_line (line_no + 1)))
    else ok (insert name value properties)

unfoldable pub extract_loop :
    Text → ℕ → List Text → Map PropertyValue → Result DomainError (Map PropertyValue)
extract_loop path line_no [] properties = ok properties
extract_loop path line_no (line ∷ rest) properties =
    extract_line path line_no (line_property line) properties >>= λ extended.
    extract_loop path (line_no + 1) rest extended

unfoldable pub extract_properties : Text → Text → Result DomainError (Map PropertyValue)
extract_properties content path = extract_loop path 0 (lines content) []

unfoldable pub validate_dialect : Map PropertyValue → Text → Result DomainError (Unit {0})
validate_dialect properties path =
    if any (λ key. contains_key key properties) legacy_poc_properties
    then err (legacy_poc_dialect path)
    else guard (contains_key (codes "pkgName") properties) (unknown_dialect path)

-- `string_property`, `string_path_property` and `string_output_property` differ in the newtype alone.
unfoldable pub string_property : Map PropertyValue → Text → Text → Result DomainError Text
string_property properties key path = elim (get key properties) [
  | some (text value) ↦ ok value
  | some (bool value) ↦ err (invalid_property key path expected_string)
  | none ↦ err (missing_property key path)
]

unfoldable pub bool_property : Map PropertyValue → Text → Text → Result DomainError Bool
bool_property properties key path = elim (get key properties) [
  | some (bool value) ↦ ok value
  | some (text value) ↦ err (invalid_property key path expected_bool)
  | none ↦ err (missing_property key path)
]

unfoldable pub build_vesc_tool : Map PropertyValue → Text → Result DomainError PkgDescVescTool
build_vesc_tool properties path = do
  pkg_name ← string_property properties (codes "pkgName") path
  description_md_path ← string_property properties (codes "pkgDescriptionMd") path
  lisp_path ← string_property properties (codes "pkgLisp") path
  qml_path ← string_property properties (codes "pkgQml") path
  output_name ← string_property properties (codes "pkgOutput") path
  qml_is_fullscreen ← bool_property properties (codes "pkgQmlIsFullscreen") path
  ok (record {
    pkg_name = pkg_name;
    description_md_path = description_md_path;
    lisp_path = lisp_path;
    qml_path = qml_path;
    output_name = output_name;
    qml_is_fullscreen = qml_is_fullscreen;
  })

unfoldable pub parse_pkgdesc_qml : Text → Text → Result DomainError ParsedPkgDesc
parse_pkgdesc_qml content path = do
  properties ← extract_properties content path
  validate_dialect properties path
  desc ← build_vesc_tool properties path
  ok (vesc_tool desc)
