-- ===== src/Tests/Package.antt =====
-- crates/vesc-domain/src: descriptors, layout and legacy lines on small inputs.
use vesc_mcp.Prelude.{
  ◌≡◌, ◌↔◌, refl, Bool, true, false, [], ◌∷◌, ◌++◌, All, ok, err, some, none, if◌then◌else◌, ◌==◌,
}
use vesc_mcp.Text.{Text, codes, text_eq, text_cmp, trim, is_ascii_alphanumeric}
use vesc_mcp.Text.Split.{split, Parts}
use vesc_mcp.Text.Lines.{lines}
use vesc_mcp.Map.{get, insert, contains_key}
use vesc_mcp.Domain.Error.{
  invalid_property, duplicate_on_line, legacy_poc_dialect, unknown_dialect, legacy_descriptor,
  field_count, bad_fullscreen,
}
use vesc_mcp.Domain.PkgDesc.{
  PkgDescVescTool, vesc_tool, text, bool, line_property, extract_line, extract_loop,
  extract_properties, validate_dialect, string_property, bool_property, build_vesc_tool,
  parse_pkgdesc_qml,
}
use vesc_mcp.Domain.PkgDesc.Descriptor.{Declares, parse_pkgdesc_qml_iff}
use vesc_mcp.Domain.Legacy.{
  LegacyBuildPkgDescriptor, legacy_fields, fullscreen_flag, descriptor_of_fields,
  parse_legacy_buildpkg_colon, parse_legacy_buildpkg_colon_iff,
}
use vesc_mcp.Domain.Layout.{
  missing, is_artifact_char, Sanitizes, sanitize_pkg_name, sanitize_pkg_name_lem, is_ok, assets,
  missing_of, validate_package_layout, validate_package_layout_lem, validate_package_layout-is_ok,
}

abbrev refloat_qml : Text
refloat_qml =
    codes "import QtQuick 2.15\n\nItem {\n  property string pkgName: \"Refloat\"\n"
    ++ codes
        "  property string pkgDescriptionMd: \"R.md\"\n  property string pkgLisp: \"p.lisp\";\n"
    ++ codes "  property string pkgQml: \"\"\n  property bool pkgQmlIsFullscreen: false\n"
    ++ codes "  // done\n  property string pkgOutput: \"r.vescpkg\"\r\n}\n"

abbrev refloat : PkgDescVescTool
refloat = record {
  pkg_name = codes "Refloat";
  description_md_path = codes "R.md";
  lisp_path = codes "p.lisp";
  qml_path = [];
  output_name = codes "r.vescpkg";
  qml_is_fullscreen = false;
}

refloat_runs : parse_pkgdesc_qml refloat_qml (codes "p") ≡ ok (vesc_tool refloat)
unfolding parse_pkgdesc_qml extract_properties extract_loop extract_line line_property
    validate_dialect string_property bool_property build_vesc_tool lines get insert contains_key
    text_eq text_cmp
refloat_runs = refl

flags_read :
    (line_property (codes "  property bool a : true ; ") ≡ some (codes "a", bool true))
    × (line_property (codes "property bool a: false") ≡ some (codes "a", bool false))
    × (line_property (codes "property bool a: yes") ≡ none)
    × (line_property (codes "property string a: \"x\";") ≡ some (codes "a", text (codes "x")))
    × (line_property (codes "// property bool a: true") ≡ none)
unfolding line_property text_eq
flags_read = (refl, refl, refl, refl, refl)

parse_pkgdesc_qml_iff_example :
    (parse_pkgdesc_qml refloat_qml (codes "p") ≡ ok (vesc_tool refloat))
    ↔ Declares refloat_qml (codes "p") refloat
parse_pkgdesc_qml_iff_example = parse_pkgdesc_qml_iff refloat_qml (codes "p") refloat

rejections :
    (parse_pkgdesc_qml (codes "property string a: \"x\"\nproperty bool a: true") (codes "p")
      ≡ err (invalid_property (codes "a") (codes "p") (duplicate_on_line 2)))
    × (parse_pkgdesc_qml (codes "property string foo: \"bar\"") (codes "p")
        ≡ err (unknown_dialect (codes "p")))
    × (parse_pkgdesc_qml
          (codes "property string pkgName: \"x\"\nproperty string packageName: \"y\"")
          (codes "p")
        ≡ err (legacy_poc_dialect (codes "p")))
unfolding parse_pkgdesc_qml extract_properties extract_loop extract_line line_property
    validate_dialect string_property bool_property build_vesc_tool lines get insert contains_key
    text_eq text_cmp
rejections = (refl, refl, refl)

abbrev legacy_line : Text
legacy_line = codes "r.vescpkg:p.lisp:ui.qml:1:R.md:Refloat Minimal\n"

abbrev legacy : LegacyBuildPkgDescriptor
legacy = record {
  output = codes "r.vescpkg";
  lisp = codes "p.lisp";
  qml = codes "ui.qml";
  qml_is_fullscreen = true;
  readme = codes "R.md";
  name = codes "Refloat Minimal";
}

legacy_runs :
    (parse_legacy_buildpkg_colon legacy_line ≡ ok legacy)
    × (parse_legacy_buildpkg_colon (codes "a:b") ≡ err (legacy_descriptor (field_count 2)))
    × (parse_legacy_buildpkg_colon (codes "a:b:c:2:d:e")
        ≡ err (legacy_descriptor (bad_fullscreen (codes "2"))))
unfolding parse_legacy_buildpkg_colon descriptor_of_fields fullscreen_flag split trim text_eq
legacy_runs = (refl, refl, refl)

parse_legacy_buildpkg_colon_iff_example :
    (parse_legacy_buildpkg_colon legacy_line ≡ ok legacy)
    ↔ Parts b':' (trim legacy_line) (legacy_fields legacy)
parse_legacy_buildpkg_colon_iff_example = parse_legacy_buildpkg_colon_iff legacy_line legacy

sanitize_runs : sanitize_pkg_name (codes "Rust BLE_0.1/é") ≡ codes "Rust-BLE_0.1--"
unfolding sanitize_pkg_name is_ascii_alphanumeric
sanitize_runs = refl

sanitize_pkg_name_lem_example :
    All (λ c. is_artifact_char c ≡ true) (sanitize_pkg_name (codes "a b"))
    × Sanitizes (codes "a b") (sanitize_pkg_name (codes "a b"))
    × (sanitize_pkg_name (sanitize_pkg_name (codes "a b")) ≡ sanitize_pkg_name (codes "a b"))
    × ((sanitize_pkg_name (codes "a b") ≡ codes "a b")
        ↔ All (λ c. is_artifact_char c ≡ true) (codes "a b"))
sanitize_pkg_name_lem_example = sanitize_pkg_name_lem (codes "a b")

-- A root with one file, and paths joined by a slash.
abbrev join_slash : Text → Text → Text
join_slash root asset = root ++ (b'/' ∷ asset)

abbrev only_lisp : Text → Bool
unfolding text_eq
only_lisp path = text_eq path (codes "/r/p.lisp")

layout_runs :
    validate_package_layout join_slash only_lisp (codes "/r") (vesc_tool refloat)
    ≡ missing (codes "R.md") (codes "/r") ∷ []
unfolding validate_package_layout only_lisp
layout_runs = refl

-- A join in which an absolute path replaces the root: files outside the root are no issue.
abbrev join_path : Text → Text → Text
join_path root [] = root ++ (b'/' ∷ [])
join_path root (c ∷ asset) = if c == b'/' then c ∷ asset else root ++ (b'/' ∷ c ∷ asset)

outside_runs :
    validate_package_layout join_path
      (λ path. text_eq path (codes "/other/file"))
      (codes "/r")
      (vesc_tool (record refloat {
        description_md_path = codes "/other/file";
        lisp_path = codes "/other/file";
      }))
    ≡ []
unfolding validate_package_layout text_eq
outside_runs = refl

validate_package_layout_lem_example :
    validate_package_layout join_slash only_lisp (codes "/r") (vesc_tool refloat)
    ≡ missing_of join_slash only_lisp (codes "/r") (assets join_slash only_lisp refloat)
validate_package_layout_lem_example =
    validate_package_layout_lem join_slash only_lisp (codes "/r") refloat

validate_package_layout-is_ok_example :
    (is_ok (validate_package_layout join_slash only_lisp (codes "/r") (vesc_tool refloat)) ≡ true)
    ↔ All (λ a. only_lisp (join_slash (codes "/r") a) ≡ true) (assets join_slash only_lisp refloat)
validate_package_layout-is_ok_example =
    validate_package_layout-is_ok join_slash only_lisp (codes "/r") refloat
