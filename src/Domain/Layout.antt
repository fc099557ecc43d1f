-- ===== src/Domain/Layout.antt =====
-- crates/vesc-domain/src/layout/mod.rs, `sanitize` of pkgdesc/newtypes.rs, and
-- crates/vesc-domain/src/validate/mod.rs. The file system and `Path::join` are parameters. The join of a
-- root and an absolute path, or one with `..`, need not lie below the root.
use vesc_mcp.Prelude.{
  ℕ, ◌≡◌, ◌↔◌, refl, ap, Bool, true, false, not, ◌||◌, List, [], ◌∷◌, ◌++◌, inl, inr, arith,
  if◌then◌else◌, ◌==◌, map, All, Bool-cases,
}
use vesc_mcp.Text.{Text, is_ascii_alphanumeric, is_empty}
use vesc_mcp.Domain.Error.{DomainError, missing_asset}
use vesc_mcp.Domain.PkgDesc.{PkgDescVescTool, ParsedPkgDesc, vesc_tool}

-- The characters that an artifact name keeps.
abbrev pub is_artifact_char : ℕ → Bool
is_artifact_char c = is_ascii_alphanumeric c || c == b'-' || c == b'_' || c == b'.'

abbrev sanitize_char : ℕ → ℕ
sanitize_char c = if is_artifact_char c then c else b'-'

unfoldable pub sanitize_pkg_name : Text → Text
sanitize_pkg_name name = map sanitize_char name

unfoldable pub expected_artifact_name : ParsedPkgDesc → Text
expected_artifact_name (vesc_tool d) = d.output_name

sanitize_char_lem : (c : ℕ) → is_artifact_char (sanitize_char c) ≡ true
unfolding is_ascii_alphanumeric
sanitize_char_lem c = ground arith

-- Two texts agree where the first has an artifact character, and have the same length.
pub data Sanitizes : Text → Text → Type 0 where
  nil : Sanitizes [] []
  kept :
      {c : ℕ} {s t : Text} → is_artifact_char c ≡ true → Sanitizes s t → Sanitizes (c ∷ s) (c ∷ t)
  dashed :
      {c : ℕ} {s t : Text}
      → is_artifact_char c ≡ false
      → Sanitizes s t
      → Sanitizes (c ∷ s) (b'-' ∷ t)

sanitize-Sanitizes : (name : Text) → Sanitizes name (sanitize_pkg_name name)
unfolding sanitize_pkg_name
sanitize-Sanitizes [] = nil
sanitize-Sanitizes (c ∷ name) = elim (Bool-cases (is_artifact_char c)) [
  | inl e ↦ rw e (kept e (sanitize-Sanitizes name))
  | inr ne ↦ rw ne (dashed ne (sanitize-Sanitizes name))
]

sanitize-fixed :
    (name : Text) → All (λ c. is_artifact_char c ≡ true) name → sanitize_pkg_name name ≡ name
unfolding sanitize_pkg_name
sanitize-fixed [] h = refl
sanitize-fixed (c ∷ name) h = rw h.0 (ap (λ t. c ∷ t) (sanitize-fixed name h.1))

sanitize-All : (name : Text) → All (λ c. is_artifact_char c ≡ true) (sanitize_pkg_name name)
unfolding sanitize_pkg_name
sanitize-All [] = tt
sanitize-All (c ∷ name) = (sanitize_char_lem c, sanitize-All name)

-- A sanitized name has artifact characters alone, is the name with every other character replaced by
-- a dash, and is not changed by being sanitized again; the name itself is unchanged exactly when it
-- has artifact characters alone.
pub sanitize_pkg_name_lem :
    (name : Text)
    → All (λ c. is_artifact_char c ≡ true) (sanitize_pkg_name name)
      × Sanitizes name (sanitize_pkg_name name)
      × (sanitize_pkg_name (sanitize_pkg_name name) ≡ sanitize_pkg_name name)
      × ((sanitize_pkg_name name ≡ name) ↔ All (λ c. is_artifact_char c ≡ true) name)
sanitize_pkg_name_lem name = (
  sanitize-All name,
  sanitize-Sanitizes name,
  sanitize-fixed _ (sanitize-All name),
  (λ e. rw e at (sanitize-All name), sanitize-fixed name),
)

-- validate/mod.rs
pub data LayoutIssue : Type 0 where
  missing : (asset root : Text) → LayoutIssue

unfoldable pub to_domain_error : LayoutIssue → DomainError
to_domain_error (missing asset root) = missing_asset asset root

unfoldable pub is_ok : List LayoutIssue → Bool
is_ok [] = true
is_ok (i ∷ is) = false

unfoldable pub errors : List LayoutIssue → List DomainError
unfolding to_domain_error
errors issues = map to_domain_error issues

-- `Path::join` and `Path::is_file`
module _ (join : Text → Text → Text) (is_file : Text → Bool) where
  unfoldable pub check_asset : Text → Text → List LayoutIssue → List LayoutIssue
  check_asset root asset issues =
      if not (is_file (join root asset)) then issues ++ missing asset root ∷ [] else issues

  unfoldable pub validate_vesc_tool_layout :
      Text → PkgDescVescTool → List LayoutIssue → List LayoutIssue
  unfolding check_asset is_empty
  validate_vesc_tool_layout root desc issues =
      let described = check_asset root desc.description_md_path issues in
      let lisped = check_asset root desc.lisp_path described in
      if not (is_empty desc.qml_path) then check_asset root desc.qml_path lisped else lisped

  unfoldable pub validate_package_layout : Text → ParsedPkgDesc → List LayoutIssue
  unfolding validate_vesc_tool_layout
  validate_package_layout root (vesc_tool desc) = validate_vesc_tool_layout root desc []

  -- The assets that a descriptor names: a blank QML path names none.
  abbrev pub assets : PkgDescVescTool → List Text
  assets d =
      d.description_md_path ∷ d.lisp_path ∷ (if is_empty d.qml_path then [] else d.qml_path ∷ [])

  abbrev pub missing_of : Text → List Text → List LayoutIssue
  missing_of root [] = []
  missing_of root (a ∷ as') =
      if is_file (join root a) then missing_of root as' else missing a root ∷ missing_of root as'

  -- The issues of a layout are the descriptor's assets whose join with the root is not the path of a
  -- file, in the order description, Lisp, QML; an empty QML path is no asset.
  pub validate_package_layout_lem :
      (root : Text) (d : PkgDescVescTool)
      → validate_package_layout root (vesc_tool d) ≡ missing_of root (assets d)
  unfolding validate_package_layout
  validate_package_layout_lem root d = ground arith

  missing_of-nil :
      (root : Text) (as' : List Text)
      → (is_ok (missing_of root as') ≡ true) ↔ All (λ a. is_file (join root a) ≡ true) as'
  unfolding is_ok
  missing_of-nil root [] = (λ _. tt, λ _. refl)
  missing_of-nil root (a ∷ as') = elim (Bool-cases (is_file (join root a))) [
    | inl e ↦
        rw e (λ h. (refl, (missing_of-nil root as').0 h), λ h. (missing_of-nil root as').1 h.1)
    | inr ne ↦ rw ne (λ h. cc h, λ h. cc h.0)
  ]

  -- A layout has no issue exactly when for each asset that the descriptor names the join of the root
  -- and the asset is the path of a file.
  pub validate_package_layout-is_ok :
      (root : Text) (d : PkgDescVescTool)
      → (is_ok (validate_package_layout root (vesc_tool d)) ≡ true)
        ↔ All (λ a. is_file (join root a) ≡ true) (assets d)
  validate_package_layout-is_ok root d =
      rw (validate_package_layout_lem root d) (missing_of-nil root (assets d))
