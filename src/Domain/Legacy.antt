-- ===== src/Domain/Legacy.antt =====
-- crates/vesc-domain/src/legacy/mod.rs: the colon descriptor of `--buildPkg`.
use vesc_mcp.Prelude.{
  ◌≡◌, ◌↔◌, refl, ap, ◌∙◌, Bool, true, false, List, [], ◌∷◌, arith, if◌then◌else◌, Result, ok, err,
  ◌>>=◌, length, Ensures, Ensures-ok, Ensures-err, Ensures-bind,
}
use mathlib.Core.Path.{subst}
use vesc_mcp.Text.{Text, codes, text_eq, text_eq_iff, trim}
use vesc_mcp.Text.Split.{split, Parts, split-Parts, Parts-split}
use vesc_mcp.Domain.Error.{DomainError, legacy_descriptor, field_count, bad_fullscreen}

pub record LegacyBuildPkgDescriptor : Type 0 where
  pub output : Text
  pub lisp : Text
  pub qml : Text
  pub qml_is_fullscreen : Bool
  pub readme : Text
  pub name : Text

-- The `match` on `fields[3]`.
unfoldable pub fullscreen_flag : Text → Result DomainError Bool
fullscreen_flag t =
    if text_eq t (codes "0")
    then ok false
    else if text_eq t (codes "1")
    then ok true
    else err (legacy_descriptor (bad_fullscreen t))

-- The six fields by pattern, where the source tests `fields.len() != 6` and indexes.
unfoldable pub descriptor_of_fields : List Text → Result DomainError LegacyBuildPkgDescriptor
descriptor_of_fields (output ∷ lisp ∷ qml ∷ flag ∷ readme ∷ name ∷ []) = do
  fullscreen ← fullscreen_flag flag
  ok (record {
    output = output;
    lisp = lisp;
    qml = qml;
    qml_is_fullscreen = fullscreen;
    readme = readme;
    name = name;
  })
descriptor_of_fields fields = err (legacy_descriptor (field_count (length fields)))

unfoldable pub parse_legacy_buildpkg_colon : Text → Result DomainError LegacyBuildPkgDescriptor
parse_legacy_buildpkg_colon input = descriptor_of_fields (split b':' (trim input))

abbrev flag_text : Bool → Text
flag_text false = codes "0"
flag_text true = codes "1"

-- The fields of a descriptor in the order of the format.
abbrev pub legacy_fields : LegacyBuildPkgDescriptor → List Text
legacy_fields d = d.output ∷ d.lisp ∷ d.qml ∷ flag_text d.qml_is_fullscreen ∷ d.readme ∷ d.name ∷ []

fullscreen_flag-Ensures : (t : Text) → Ensures (λ b. t ≡ flag_text b) (fullscreen_flag t)
unfolding fullscreen_flag
fullscreen_flag-Ensures t = record {
  at = λ b h. ground (arith, text_eq_iff t (codes "0"), text_eq_iff t (codes "1"));
}

fullscreen_flag-flag_text : (b : Bool) → fullscreen_flag (flag_text b) ≡ ok b
unfolding fullscreen_flag text_eq
fullscreen_flag-flag_text true = refl
fullscreen_flag-flag_text false = refl

descriptor_of_fields-Ensures :
    (fields : List Text) → Ensures (λ d. fields ≡ legacy_fields d) (descriptor_of_fields fields)
unfolding descriptor_of_fields
descriptor_of_fields-Ensures (a ∷ b ∷ c ∷ f ∷ r ∷ n ∷ []) =
    Ensures-bind (fullscreen_flag f) _ λ flag read.
      Ensures-ok _ (ap (λ t. a ∷ b ∷ c ∷ t ∷ r ∷ n ∷ []) ((fullscreen_flag-Ensures f).at flag read))
descriptor_of_fields-Ensures _ = Ensures-err _

descriptor_of_fields-legacy_fields :
    (d : LegacyBuildPkgDescriptor) → descriptor_of_fields (legacy_fields d) ≡ ok d
unfolding descriptor_of_fields
descriptor_of_fields-legacy_fields d = rw (fullscreen_flag-flag_text d.qml_is_fullscreen) refl

-- The parser returns a descriptor exactly when the trimmed line is the descriptor's six fields around
-- five colons, none of the fields holding one: output, Lisp, QML, `0` or `1` for the flag, readme and
-- name.
pub parse_legacy_buildpkg_colon_iff :
    (input : Text) (d : LegacyBuildPkgDescriptor)
    → (parse_legacy_buildpkg_colon input ≡ ok d) ↔ Parts b':' (trim input) (legacy_fields d)
unfolding parse_legacy_buildpkg_colon
parse_legacy_buildpkg_colon_iff input d = (
  λ h.
      subst (Parts b':' (trim input))
        ((descriptor_of_fields-Ensures (split b':' (trim input))).at d h)
        (split-Parts b':' (trim input)),
  λ p. ap descriptor_of_fields (Parts-split b':' p) ∙ descriptor_of_fields-legacy_fields d,
)
