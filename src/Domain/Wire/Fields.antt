-- ===== src/Domain/Wire/Fields.antt =====
-- The wire format as an encoder, and the field loop of crates/vesc-domain/src/wire/mod.rs against it.
use vesc_mcp.Prelude.{
  ℕ, zero, suc, ◌/◌, ◌%◌, ◌^◌, ◌<◌, ◌≤◌, ◌≡◌, refl, sym, ap, ◌∙◌, false, not, List, [], ◌∷◌, ◌++◌,
  arith, ltb, length, take, drop, All, ok, Ensures, Ensures-ok, Ensures-err, Ensures-guard,
  Ensures-bind, Ensures-ok_or, All-split, take-append_length, drop-append_length, take-append-drop,
  append_assoc, length-append, append-nil, length-take,
}
use mathlib.Core.Path.{subst}
use vesc_mcp.Prelude.Int.{ℤ, pos, negsuc, is_negative}
use vesc_mcp.Text.{Text, contains_char}
use vesc_mcp.Text.Split.{split_once, split_once-append, split_once-Splits}
use vesc_mcp.Text.Utf8.{
  Bytes, as_bytes, from_utf8, AreScalar, from_utf8-as_bytes, from_utf8-eq_some,
}
use vesc_mcp.Domain.Wire.{
  PackageField, read_string, read_i32_be, read_field, fields_loop, usize_from,
}

-- A text as `vesc_tool` writes it: its bytes and a nul.
abbrev pub encode_string : Text → Bytes → Bytes
encode_string t rest = as_bytes t ++ (0 ∷ rest)

abbrev pub encode_u32 : ℕ → Bytes → Bytes
encode_u32 n rest =
    (n / 256 / 256 / 256) ∷ (n / 256 / 256 % 256) ∷ (n / 256 % 256) ∷ (n % 256) ∷ rest

abbrev pub encode_field : PackageField → Bytes → Bytes
encode_field f rest = encode_string f.key (encode_u32 (length f.value) (f.value ++ rest))

abbrev pub encode_fields : List PackageField → Bytes
encode_fields [] = []
encode_fields (f ∷ fs) = encode_field f (encode_fields fs)

-- A text that a nul-terminated string can hold.
pub record IsWireText (t : Text) : Type 0 where
  pub scalar : AreScalar t
  pub no_nul : contains_char 0 (as_bytes t) ≡ false

pub record IsWireField (f : PackageField) : Type 0 where
  pub key_text : IsWireText f.key
  pub short : length f.value < 2 ^ 31

abbrev pub AreBytes : Bytes → Type 0
AreBytes bs = All (λ b. b < 256) bs

pub read_string-encode_string :
    (t : Text) (rest : Bytes) → IsWireText t → read_string (encode_string t rest) ≡ ok (t, rest)
unfolding read_string
read_string-encode_string t rest w =
    rw (split_once-append 0 (as_bytes t) rest w.no_nul) (rw (from_utf8-as_bytes t w.scalar) refl)

pub read_i32_be-encode_u32 :
    (n : ℕ) (rest : Bytes) → n < 2 ^ 31 → read_i32_be (encode_u32 n rest) ≡ ok (pos n, rest)
unfolding read_i32_be
read_i32_be-encode_u32 n rest h = ground arith

length-append_ltb : (xs ys : Bytes) → ltb (length (xs ++ ys)) (length xs) ≡ false
length-append_ltb xs ys = ground (arith, length-append xs ys)

pub read_field-encode_field :
    (f : PackageField) (rest : Bytes)
    → IsWireField f
    → read_field (encode_field f rest) ≡ ok (f, rest)
unfolding read_field usize_from
read_field-encode_field f rest w =
    rw (read_string-encode_string f.key (encode_u32 (length f.value) (f.value ++ rest)) w.key_text)
      (rw (read_i32_be-encode_u32 (length f.value) (f.value ++ rest) w.short) (
        rw (length-append_ltb f.value rest)
          (rw (take-append_length f.value rest) (rw (drop-append_length f.value rest) refl))))

length-encode_field : (f : PackageField) (rest : Bytes) → length rest < length (encode_field f rest)
length-encode_field f rest = omega (
  arith,
  length-append (as_bytes f.key) (0 ∷ encode_u32 (length f.value) (f.value ++ rest)),
  length-append f.value rest,
)

fields_loop_step :
    (fuel : ℕ) (cursor : Bytes) (acc : List PackageField) {f : PackageField} {rest : Bytes}
    → 0 < length cursor
    → read_field cursor ≡ ok (f, rest)
    → fields_loop (suc fuel) cursor acc ≡ fields_loop fuel rest (acc ++ f ∷ [])
unfolding fields_loop
fields_loop_step fuel [] acc h e = elim h [ ]
fields_loop_step fuel (b ∷ bs) acc h e = rw e refl

pub fields_loop-encode_fields :
    (fs : List PackageField) (fuel : ℕ) (acc : List PackageField)
    → length (encode_fields fs) ≤ fuel
    → All IsWireField fs
    → fields_loop fuel (encode_fields fs) acc ≡ ok (acc ++ fs)
unfolding fields_loop
fields_loop-encode_fields [] zero acc h w = rw append-nil
fields_loop-encode_fields [] (suc fuel) acc h w = rw append-nil
fields_loop-encode_fields (f ∷ fs) zero acc h w =
    absurd (omega (arith, length-encode_field f (encode_fields fs)))
fields_loop-encode_fields (f ∷ fs) (suc fuel) acc h w =
    let grows = length-encode_field f (encode_fields fs) in
    fields_loop_step fuel (encode_field f (encode_fields fs)) acc (omega arith)
      (read_field-encode_field f (encode_fields fs) w.0)
    ∙ fields_loop-encode_fields fs fuel (acc ++ f ∷ []) (omega arith) w.1
    ∙ ap ok (append_assoc acc (f ∷ []) fs)

pub AreBytes-encode_string :
    (t : Text) (rest : Bytes) → AreBytes (encode_string t rest) → AreBytes rest
AreBytes-encode_string t rest h = (All-split (λ b. b < 256) (as_bytes t) (0 ∷ rest) h).1.1

-- What `read_string` reads is the encoding of the text, which is a wire text.
pub read_string-Ensures :
    (cursor : Bytes)
    → Ensures (λ p. (cursor ≡ encode_string p.0 p.1) × IsWireText p.0) (read_string cursor)
unfolding read_string
read_string-Ensures cursor = Ensures-ok_or (split_once 0 cursor) _ _ λ parts split.
    Ensures-ok_or (from_utf8 parts.0) _ _ λ value decoded.
      let (e, clean) = rw split at (split_once-Splits 0 cursor) in
      let (bytes, scalar) = from_utf8-eq_some parts.0 decoded in
      Ensures-ok _ (rw (← bytes) e, record { scalar = scalar; no_nul = rw (← bytes) clean })

read_i32_be-Ensures :
    (cursor : Bytes)
    → AreBytes cursor
    → Ensures
        (λ p. (n : ℕ) → p.0 ≡ pos n → (cursor ≡ encode_u32 n p.1) × (n < 2 ^ 31))
        (read_i32_be cursor)
unfolding read_i32_be
read_i32_be-Ensures (a ∷ b ∷ c ∷ d ∷ rest) h = Ensures-ok _ (λ n e. ground arith)
read_i32_be-Ensures _ h = Ensures-err _

pub usize_from-Ensures : (z : ℤ) → Ensures (λ n. z ≡ pos n) (usize_from z)
unfolding usize_from
usize_from-Ensures (pos n) = Ensures-ok n refl
usize_from-Ensures (negsuc n) = Ensures-err _

-- A value cut off after `n` bytes of `rest`.
split_value :
    (n : ℕ) (bytes : Bytes)
    → ltb (length bytes) n ≡ false
    → (length (take n bytes) ≡ n) × (take n bytes ++ drop n bytes ≡ bytes)
split_value n bytes h = (ground (arith, length-take n bytes), take-append-drop n bytes)

read_field-Ensures :
    (cursor : Bytes)
    → AreBytes cursor
    → Ensures (λ p. (cursor ≡ encode_field p.0 p.1) × IsWireField p.0) (read_field cursor)
unfolding read_field
read_field-Ensures cursor h = Ensures-bind (read_string cursor) _ λ key key_read.
    let (e, wire) = (read_string-Ensures cursor).at key key_read in
    let after = (All-split (λ b. b < 256) (as_bytes key.0) (0 ∷ key.1) (rw e at h)).1 in
    Ensures-bind (read_i32_be key.1) _ λ len len_read.
      Ensures-guard (not (is_negative len.0)) _ _ λ _. Ensures-bind (usize_from len.0) _ λ n sized.
        let (e32, short) =
          (read_i32_be-Ensures key.1 after.1).at len len_read n
            ((usize_from-Ensures len.0).at n sized) in
        Ensures-guard (not (ltb (length len.1) n)) _ _ λ fits.
          let (size, whole) = split_value n len.1 (ground (arith, fits)) in
          Ensures-ok _
            (rw size (rw whole (rw (← e32) e)), record { key_text = wire; short = rw size short })

AreBytes-rest : (f : PackageField) (rest : Bytes) → AreBytes (encode_field f rest) → AreBytes rest
AreBytes-rest f rest h =
    let after_key = (All-split (λ b. b < 256) (as_bytes f.key) _ h).1 in
    (All-split (λ b. b < 256) f.value rest after_key.1.1.1.1.1).1

-- The loop stops only at the end of the cursor, and has then read all of it.
pub fields_loop-Ensures :
    (fuel : ℕ) (cursor : Bytes) (acc : List PackageField)
    → length cursor ≤ fuel
    → AreBytes cursor
    → Ensures
        (λ out.
          (fs : List PackageField) × (out ≡ acc ++ fs)
          × (cursor ≡ encode_fields fs)
          × All IsWireField fs)
        (fields_loop fuel cursor acc)
unfolding fields_loop
fields_loop-Ensures zero [] acc h b = Ensures-ok acc ([], sym (append-nil acc), refl, tt)
fields_loop-Ensures zero (x ∷ xs) acc h b = elim h [ ]
fields_loop-Ensures (suc fuel) [] acc h b = Ensures-ok acc ([], sym (append-nil acc), refl, tt)
fields_loop-Ensures (suc fuel) (x ∷ xs) acc h b = Ensures-bind (read_field (x ∷ xs)) _ λ p read.
    let (e, wire) = (read_field-Ensures (x ∷ xs) b).at p read in
    let rest_bytes = AreBytes-rest p.0 p.1 (subst AreBytes e b) in
    record {
      at = λ out run.
          let (fs, o, cursor_is, wires) =
            (fields_loop-Ensures fuel p.1 (acc ++ p.0 ∷ [])
                (omega (arith, length-encode_field p.0 p.1, ap length e)) rest_bytes).at
              out run in
          (
            p.0 ∷ fs,
            o ∙ append_assoc acc (p.0 ∷ []) fs,
            e ∙ ap (encode_field p.0) cursor_is,
            (wire, wires),
          );
    }
