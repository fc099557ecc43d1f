-- ===== src/Domain/PkgDesc/Descriptor.antt =====
-- The descriptor that crates/vesc-domain/src/pkgdesc/parse.rs builds, by what the text declares.
use mathlib.Core.Path.{subst}
use vesc_mcp.Prelude.{
  ◌≡◌, ◌↔◌, refl, sym, ◌∙◌, Bool, List, [], ◌∷◌, Option, none, some, arith, ok, All, Ensures,
  Ensures-ok, Ensures-bind,
}
use vesc_mcp.Text.{Text, codes}
use vesc_mcp.Text.Lines.{lines}
use vesc_mcp.Map.{Map, get, contains_key}
use vesc_mcp.Domain.PkgDesc.{
  PkgDescVescTool, vesc_tool, PropertyValue, text, bool, legacy_poc_properties, extract_properties,
  validate_dialect, string_property, bool_property, build_vesc_tool, parse_pkgdesc_qml,
}
use vesc_mcp.Domain.PkgDesc.Property.{Declared}
use vesc_mcp.Domain.PkgDesc.Accepts.{
  declared-Declared, Declared-declared, declared, AreDistinct, extract_loop-Ensures,
  extract_loop-ok, or_else,
}

-- The properties give this descriptor, and no property of the legacy dialect is among them.
pub record Describes (properties : Map PropertyValue) (d : PkgDescVescTool) : Type 0 where
  pub no_legacy : All (λ key. get key properties ≡ none) legacy_poc_properties
  pub pkg_name : get (codes "pkgName") properties ≡ some (text d.pkg_name)
  pub description : get (codes "pkgDescriptionMd") properties ≡ some (text d.description_md_path)
  pub lisp : get (codes "pkgLisp") properties ≡ some (text d.lisp_path)
  pub qml : get (codes "pkgQml") properties ≡ some (text d.qml_path)
  pub output : get (codes "pkgOutput") properties ≡ some (text d.output_name)
  pub fullscreen : get (codes "pkgQmlIsFullscreen") properties ≡ some (bool d.qml_is_fullscreen)

module _ (properties : Map PropertyValue) (key path : Text) where
  string_property-Ensures :
      Ensures (λ v. get key properties ≡ some (text v)) (string_property properties key path)
  unfolding string_property
  string_property-Ensures = record { at = λ v h. ground arith }

  bool_property-Ensures :
      Ensures (λ v. get key properties ≡ some (bool v)) (bool_property properties key path)
  unfolding bool_property
  bool_property-Ensures = record { at = λ v h. ground arith }

  string_property-ok :
      {v : Text} → get key properties ≡ some (text v) → string_property properties key path ≡ ok v
  unfolding string_property
  string_property-ok h = ground arith

  bool_property-ok :
      {v : Bool} → get key properties ≡ some (bool v) → bool_property properties key path ≡ ok v
  unfolding bool_property
  bool_property-ok h = ground arith

module _ (properties : Map PropertyValue) (path : Text) where
  validate_dialect-Ensures :
      Ensures
        (λ _. All (λ key. get key properties ≡ none) legacy_poc_properties)
        (validate_dialect properties path)
  unfolding validate_dialect contains_key
  validate_dialect-Ensures = record {
    at = λ u h. (ground arith, (ground arith, (ground arith, (ground arith, tt))));
  }

  validate_dialect-ok :
      {name : PropertyValue}
      → All (λ key. get key properties ≡ none) legacy_poc_properties
      → get (codes "pkgName") properties ≡ some name
      → validate_dialect properties path ≡ ok tt
  unfolding validate_dialect contains_key
  validate_dialect-ok l n = ground arith

  build-Ensures :
      Ensures
        (λ d. All (λ key. get key properties ≡ none) legacy_poc_properties → Describes properties d)
        (build_vesc_tool properties path)
  unfolding build_vesc_tool
  build-Ensures = Ensures-bind (string_property properties (codes "pkgName") path) _ λ a ha.
      Ensures-bind (string_property properties (codes "pkgDescriptionMd") path) _ λ b hb.
        Ensures-bind (string_property properties (codes "pkgLisp") path) _ λ c hc.
          Ensures-bind (string_property properties (codes "pkgQml") path) _ λ e he.
            Ensures-bind (string_property properties (codes "pkgOutput") path) _ λ f hf.
              Ensures-bind (bool_property properties (codes "pkgQmlIsFullscreen") path) _ λ g hg.
                Ensures-ok _ (λ l. record {
                  no_legacy = l;
                  pkg_name = (string_property-Ensures properties _ path).at a ha;
                  description = (string_property-Ensures properties _ path).at b hb;
                  lisp = (string_property-Ensures properties _ path).at c hc;
                  qml = (string_property-Ensures properties _ path).at e he;
                  output = (string_property-Ensures properties _ path).at f hf;
                  fullscreen = (bool_property-Ensures properties _ path).at g hg;
                })

  build-ok : (d : PkgDescVescTool) → Describes properties d → build_vesc_tool properties path ≡ ok d
  unfolding build_vesc_tool
  build-ok d h = rw (string_property-ok properties (codes "pkgName") path h.pkg_name) (
      rw (string_property-ok properties (codes "pkgDescriptionMd") path h.description) (
        rw (string_property-ok properties (codes "pkgLisp") path h.lisp) (
          rw (string_property-ok properties (codes "pkgQml") path h.qml) (
            rw (string_property-ok properties (codes "pkgOutput") path h.output) (
              rw (bool_property-ok properties (codes "pkgQmlIsFullscreen") path h.fullscreen)
                refl)))))

All-imp : {P Q : Text → Type 0} (ks : List Text) → ((k : Text) → P k → Q k) → All P ks → All Q ks
All-imp [] f h = tt
All-imp (k ∷ ks) f h = (f k h.0, All-imp ks f h.1)

Describes-transport :
    (m n : Map PropertyValue) (d : PkgDescVescTool)
    → ((k : Text) → get k m ≡ get k n)
    → Describes m d
    → Describes n d
Describes-transport m n d e h = record {
  no_legacy =
      All-imp {P = λ k. get k m ≡ none} {Q = λ k. get k n ≡ none} legacy_poc_properties
        (λ k h. sym (e k) ∙ h) h.no_legacy;
  pkg_name = sym (e _) ∙ h.pkg_name;
  description = sym (e _) ∙ h.description;
  lisp = sym (e _) ∙ h.lisp;
  qml = sym (e _) ∙ h.qml;
  output = sym (e _) ∙ h.output;
  fullscreen = sym (e _) ∙ h.fullscreen;
}

or_else-none {ℓ} : {A : Type ℓ} (o : Option A) → or_else o none ≡ o
or_else-none none = refl
or_else-none (some a) = refl

-- What the properties of a text are: its declarations, none twice.
extract_properties-Ensures :
    (content path : Text)
    → Ensures
        (λ m.
          AreDistinct (declared (lines content))
          × ((k : Text) → get k m ≡ get k (declared (lines content))))
        (extract_properties content path)
unfolding extract_properties get
extract_properties-Ensures content path = record {
  at = λ m run.
      let a = (extract_loop-Ensures path 0 (lines content) []).at m run in
      (a.distinct, λ k. a.holds k ∙ or_else-none _);
}

module _ (content path : Text) where
  abbrev pub Declares : PkgDescVescTool → Type 0
  Declares d =
      (ds : Map PropertyValue) × Declared (lines content) ds × AreDistinct ds × Describes ds d

  parse-Ensures :
      Ensures
        (λ p. (d : PkgDescVescTool) × (p ≡ vesc_tool d) × Declares d)
        (parse_pkgdesc_qml content path)
  unfolding parse_pkgdesc_qml
  parse-Ensures = Ensures-bind (extract_properties content path) _ λ m extracted.
      let (distinct, same) = (extract_properties-Ensures content path).at m extracted in
      Ensures-bind (validate_dialect m path) _ λ u valid.
        Ensures-bind (build_vesc_tool m path) _ λ d built.
          let legacy = (validate_dialect-Ensures m path).at u valid in
          let describes = (build-Ensures m path).at d built legacy in
          Ensures-ok _ (
            d,
            refl,
            (
              declared (lines content),
              declared-Declared (lines content),
              distinct,
              Describes-transport m _ d same describes,
            ),
          )

  parse-ok : (d : PkgDescVescTool) → Declares d → parse_pkgdesc_qml content path ≡ ok (vesc_tool d)
  unfolding parse_pkgdesc_qml extract_properties
  parse-ok d (ds, declares, distinct_ds, describes_ds) =
      let is = sym (Declared-declared declares) in
      let distinct = subst AreDistinct is distinct_ds in
      let describes = subst (λ x. Describes x d) is describes_ds in
      let (m, run) =
        extract_loop-ok path 0 (lines content) [] distinct (λ k v _. unfold get in refl) in
      let same = ((extract_properties-Ensures content path).at m run).1 in
      let h = Describes-transport _ m d (λ k. sym (same k)) describes in
      rw run
        (rw (validate_dialect-ok m path h.no_legacy h.pkg_name) (rw (build-ok m path d h) refl))

  -- `parse_pkgdesc_qml` returns a descriptor exactly when the lines of the text that have the form
  -- `property string name: "value"`, `property bool name: true` or `property bool name: false`, up to white
  -- space around it, around the name and around the value, and semicolons behind the value, declare no name
  -- twice and none of the legacy dialect, and declare the descriptor's five texts and its flag under
  -- their names and with their types.
  pub parse_pkgdesc_qml_iff :
      (d : PkgDescVescTool) → (parse_pkgdesc_qml content path ≡ ok (vesc_tool d)) ↔ Declares d
  parse_pkgdesc_qml_iff d = (λ h. sound (parse-Ensures.at (vesc_tool d) h), parse-ok d)
    where
      sound : (e : PkgDescVescTool) × (vesc_tool d ≡ vesc_tool e) × Declares e → Declares d
      sound (e, p, h) = subst Declares (cc p) h
