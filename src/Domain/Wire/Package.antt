-- ===== src/Domain/Wire/Package.antt =====
-- `package_fields` and `fields_from_pairs` of crates/vesc-domain/src/wire/mod.rs as a whole.
use mathlib.Core.Path.{subst, ap₂}
use vesc_mcp.Prelude.{
  ℕ, zero, suc, ◌≡◌, refl, sym, ap, ◌∙◌, true, false, List, [], ◌∷◌, ◌++◌, Option, none, some, inl,
  inr, arith, length, All, all, All-all, ok, ◌==◌, ==_iff, Ensures, Ensures-ok, Ensures-err,
  Ensures-bind, Ensures-guard, Ensures-ok_or, Bool-cases, ◌↔◌, replicate,
}
use vesc_mcp.Text.{text_eq, text_eq_iff, text_eq_refl, contains_char}
use vesc_mcp.Text.Split.{strip_prefix, strip_prefix-append, strip_prefix-eq_some}
use vesc_mcp.Text.Utf8.{Bytes, as_bytes, is_scalar}
use vesc_mcp.Domain.Wire.{
  magic, PackageField, fields_of_raw, be_u32, decompress_vescpkg, sized, package_fields,
  read_string, payload_matches_native_with_only_nul_tail,
}
use vesc_mcp.Domain.Wire.Fields.{
  encode_string, encode_fields, IsWireText, IsWireField, AreBytes, read_string-encode_string,
  fields_loop-encode_fields, fields_loop-Ensures, read_string-Ensures, AreBytes-encode_string,
}

-- The decompressed payload of a package.
abbrev pub encode_raw : List PackageField → Bytes
encode_raw fs = encode_string magic (encode_fields fs)

magic-IsWireText : IsWireText magic
unfolding as_bytes contains_char
magic-IsWireText = record { scalar = All-all is_scalar magic refl; no_nul = refl }

pub fields_of_raw-encode_raw :
    (fs : List PackageField) → All IsWireField fs → fields_of_raw (encode_raw fs) ≡ ok fs
unfolding fields_of_raw
fields_of_raw-encode_raw fs w =
    rw (read_string-encode_string magic (encode_fields fs) magic-IsWireText) (
      rw (text_eq_refl magic)
        (fields_loop-encode_fields fs (length (encode_fields fs)) [] (omega arith) w))

pub fields_of_raw-Ensures :
    (raw : Bytes)
    → AreBytes raw
    → Ensures (λ fs. (raw ≡ encode_raw fs) × All IsWireField fs) (fields_of_raw raw)
unfolding fields_of_raw
fields_of_raw-Ensures raw h = Ensures-bind (read_string raw) _ λ head read.
    let (e, wire) = (read_string-Ensures raw).at head read in
    Ensures-guard (text_eq head.0 magic) _ _ λ same.
      let rest = AreBytes-encode_string head.0 head.1 (subst AreBytes e h) in
      record {
        at = λ out run.
            let (fs, out_is, cursor_is, wires) =
              (fields_loop-Ensures (length head.1) head.1 [] (omega arith) rest).at out run in
            rw out_is (e ∙ ap₂ encode_string ((text_eq_iff head.0 magic).0 same) cursor_is, wires);
      }

sized-Ensures :
    (n : ℕ) (raw : Bytes) → Ensures (λ out. (out ≡ raw) × (n ≡ length raw)) (sized n raw)
unfolding sized
sized-Ensures n raw = elim (Bool-cases (length raw == n)) [
  | inl e ↦ rw e (Ensures-ok raw (refl, ground (arith, e)))
  | inr ne ↦ rw ne (Ensures-err _)
]

-- A decompressor returns bytes.
abbrev pub InflatesBytes : (Bytes → Option Bytes) → Type 0
InflatesBytes inflate = (s raw : Bytes) → inflate s ≡ some raw → AreBytes raw

-- `a b c d` is the length prefix of `qCompress`.
module _ (inflate : Bytes → Option Bytes) (inflates_bytes : InflatesBytes inflate) (a b c d : ℕ)
    (stream : Bytes) where
  abbrev pub Holds : List PackageField → Type 0
  Holds fs =
      (inflate stream ≡ some (encode_raw fs))
      × (be_u32 a b c d ≡ length (encode_raw fs))
      × All IsWireField fs

  decompress_vescpkg-Ensures :
      Ensures
        (λ raw. (inflate stream ≡ some raw) × (be_u32 a b c d ≡ length raw))
        (decompress_vescpkg inflate (a ∷ b ∷ c ∷ d ∷ stream))
  unfolding decompress_vescpkg
  decompress_vescpkg-Ensures = Ensures-ok_or (inflate stream) _ _ λ raw inflated. record {
    at = λ out run.
        let (same, size) = (sized-Ensures (be_u32 a b c d) raw).at out run in
        (rw same inflated, rw same size);
  }

  package_fields-Ensures : Ensures Holds (package_fields inflate (a ∷ b ∷ c ∷ d ∷ stream))
  unfolding package_fields
  package_fields-Ensures =
      Ensures-bind (decompress_vescpkg inflate (a ∷ b ∷ c ∷ d ∷ stream)) _ λ raw decompressed.
        let (inflated, size) = decompress_vescpkg-Ensures.at raw decompressed in
        record {
          at = λ fs run.
              let (e, wires) =
                (fields_of_raw-Ensures raw (inflates_bytes stream raw inflated)).at fs run in
              (rw (← e) inflated, rw (← e) size, wires);
        }

  package_fields-eq_ok :
      (fs : List PackageField) → Holds fs → package_fields inflate (a ∷ b ∷ c ∷ d ∷ stream) ≡ ok fs
  unfolding package_fields decompress_vescpkg sized
  package_fields-eq_ok fs (inflated, size, wires) = rw inflated (
      rw ((==_iff (length (encode_raw fs)) (be_u32 a b c d)).1 (sym size))
        (fields_of_raw-encode_raw fs wires))

  -- For a decompressor that returns bytes, `package_fields` succeeds on a package of at least four
  -- bytes exactly when the stream behind the prefix inflates to the wire encoding of the fields
  -- returned, the prefix is the length of that encoding, and each field has a key of scalar values
  -- with no nul byte and a value shorter than 2 ^ 31 bytes.
  pub package_fields_iff :
      (fs : List PackageField)
      → (package_fields inflate (a ∷ b ∷ c ∷ d ∷ stream) ≡ ok fs) ↔ Holds fs
  package_fields_iff fs = (package_fields-Ensures.at fs, package_fields-eq_ok fs)

zeros : (t : Bytes) → all (λ b. b == 0) t ≡ true → t ≡ replicate (length t) 0
zeros [] h = refl
zeros (x ∷ t) h = ground (arith, zeros t)

all-replicate : (n : ℕ) → all (λ b. b == 0) (replicate n 0) ≡ true
all-replicate zero = refl
all-replicate (suc n) = all-replicate n

-- The native payload is accepted exactly when it is followed by zero bytes alone.
pub payload_matches_native_iff :
    (payload native : Bytes)
    → (payload_matches_native_with_only_nul_tail payload native ≡ true)
      ↔ ((n : ℕ) × (payload ≡ native ++ replicate n 0))
unfolding payload_matches_native_with_only_nul_tail
payload_matches_native_iff payload native = (
  accepted (strip_prefix native payload) refl,
  λ (n, e). rw e (
      rw (strip_prefix-append native (replicate n 0), payload_matches_native_with_only_nul_tail)
        (all-replicate n)),
)
  where
    accepted :
        (o : Option Bytes)
        → strip_prefix native payload ≡ o
        → elim o [ none ↦ false | some tail ↦ all (λ b. b == 0) tail ] ≡ true
        → (n : ℕ) × (payload ≡ native ++ replicate n 0)
    accepted none s h = cc
    accepted (some tail) s h =
        (length tail, strip_prefix-eq_some native payload s ∙ ap (λ t. native ++ t) (zeros tail h))
