-- ===== src/Domain/Wire/Imports.antt =====
-- `parse_lisp_imports` of crates/vesc-domain/src/wire/mod.rs: every import that it returns is a range
-- of `lispData`, and there are as many as the header says.
use vesc_mcp.Prelude.{
  ℕ, zero, suc, ◌+◌, ◌≤◌, ◌≡◌, sym, ap, ◌∙◌, true, not, ◌||◌, List, [], ◌∷◌, ◌++◌, arith, ltb,
  length, take, drop, All, ok, Ensures, Ensures-ok, Ensures-bind, Ensures-guard, take-append-drop,
  length-append, length-take, length-drop,
}
use vesc_mcp.Prelude.Int.{ℤ, pos, negsuc, is_negative}
use vesc_mcp.Text.{Text}
use vesc_mcp.Text.Utf8.{Bytes}
use vesc_mcp.Domain.Wire.{
  LispImport, read_string, read_i32_be, read_i16_be, usize_from, read_import, imports_loop,
  parse_lisp_imports, is_zero,
}
use vesc_mcp.Domain.Wire.Fields.{usize_from-Ensures, encode_string, read_string-Ensures}

-- The payload of an import is the range that it names, two bytes behind its offset.
pub record InRange (lisp_data : Bytes) (i : LispImport) : Type 0 where
  pub in_bounds : 2 + i.offset + i.size ≤ length lisp_data
  pub payload_length : length i.payload ≡ i.size
  pub payload_is :
      (before : Bytes) × (after : Bytes) × (length before ≡ 2 + i.offset)
      × (lisp_data ≡ before ++ (i.payload ++ after))

range_split :
    (start size : ℕ) (xs : Bytes)
    → start + size ≤ length xs
    → (length (take size (drop start xs)) ≡ size)
      × (length (take start xs) ≡ start)
      × (xs ≡ take start xs ++ (take size (drop start xs) ++ drop size (drop start xs)))
range_split start size xs h = (
  omega (arith, length-take size (drop start xs), length-drop start xs),
  omega (arith, length-take start xs),
  sym (
      ap (λ t. take start xs ++ t) (take-append-drop size (drop start xs))
      ∙ take-append-drop start xs),
)

pub read_import-Ensures :
    (lisp_data cursor : Bytes) → Ensures (λ p. InRange lisp_data p.0) (read_import lisp_data cursor)
unfolding read_import
read_import-Ensures lisp_data cursor = Ensures-bind (read_string cursor) _ λ tag _.
    Ensures-bind (read_i32_be tag.1) _ λ offset_i32 _.
      Ensures-bind (read_i32_be offset_i32.1) _ λ size_i32 _.
        Ensures-guard (not (is_negative offset_i32.0 || is_negative size_i32.0)) _ _ λ _.
          Ensures-bind (usize_from offset_i32.0) _ λ offset _.
            Ensures-bind (usize_from size_i32.0) _ λ size _.
              Ensures-guard (not (ltb (length lisp_data) (2 + offset + size))) _ _ λ fits.
                let bound : 2 + offset + size ≤ length lisp_data = ground (arith, fits) in
                let (len, before, whole) = range_split (2 + offset) size lisp_data bound in
                Ensures-ok _ (record {
                  in_bounds = bound;
                  payload_length = len;
                  payload_is = (_, _, before, whole);
                })

InRange-push :
    (lisp_data : Bytes) (i : LispImport) (acc : List LispImport)
    → InRange lisp_data i
    → All (InRange lisp_data) acc
    → All (InRange lisp_data) (acc ++ i ∷ [])
InRange-push lisp_data i [] new old = (new, tt)
InRange-push lisp_data i (j ∷ acc) new old = (old.0, InRange-push lisp_data i acc new old.1)

imports_loop-Ensures :
    (n : ℕ) (lisp_data cursor : Bytes) (acc : List LispImport)
    → All (InRange lisp_data) acc
    → Ensures
        (λ out. (length out ≡ length acc + n) × All (InRange lisp_data) out)
        (imports_loop n lisp_data cursor acc)
unfolding imports_loop
imports_loop-Ensures zero lisp_data cursor acc h = Ensures-ok acc (omega arith, h)
imports_loop-Ensures (suc n) lisp_data cursor acc h =
    Ensures-bind (read_import lisp_data cursor) _ λ step read. record {
      at = λ out run.
          let range = (read_import-Ensures lisp_data cursor).at step read in
          let (count, all) =
            (imports_loop-Ensures n lisp_data step.1 (acc ++ step.0 ∷ [])
                (InRange-push lisp_data step.0 acc range h)).at
              out run in
          (omega (arith, count, length-append acc (step.0 ∷ [])), all);
    }

-- `lispData` begins with a zero header, the code as a nul-terminated text, and the count of the
-- imports; each import lies within `lispData`, and its payload is the range that it names.
pub record IsImportTable (lisp_data : Bytes) (code : Text) (imports : List LispImport)
    : Type 0 where
  pub after_header : Bytes
  pub after_code : Bytes
  pub table : Bytes
  pub header : read_i16_be lisp_data ≡ ok (pos 0, after_header)
  pub code_is : after_header ≡ encode_string code after_code
  pub count : read_i16_be after_code ≡ ok (pos (length imports), table)
  pub in_range : All (InRange lisp_data) imports

is_zero_lem : (z : ℤ) → is_zero z ≡ true → z ≡ pos 0
is_zero_lem (pos n) h = ground arith
is_zero_lem (negsuc n) h = cc

pair_path {ℓ} : {A B : Type ℓ} (p : A × B) {a : A} → p.0 ≡ a → p ≡ (a, p.1)
pair_path p e = λ i. (e i, p.1)

parse_lisp_imports-Ensures :
    (lisp_data : Bytes)
    → Ensures (λ out. IsImportTable lisp_data out.0 out.1) (parse_lisp_imports lisp_data)
unfolding parse_lisp_imports
parse_lisp_imports-Ensures lisp_data = Ensures-bind (read_i16_be lisp_data) _ λ header header_read.
    Ensures-guard (is_zero header.0) _ _ λ zero_header.
      Ensures-bind (read_string header.1) _ λ code code_read.
        Ensures-bind (read_i16_be code.1) _ λ import_count count_read.
          Ensures-guard (not (is_negative import_count.0)) _ _ λ _.
            Ensures-bind (usize_from import_count.0) _ λ count sized.
              Ensures-bind (imports_loop count lisp_data import_count.1 []) _ λ imports looped.
                let (len, ranges) =
                  (imports_loop-Ensures count lisp_data import_count.1 [] tt).at imports looped in
                let len' : count ≡ length imports = omega (arith, len) in
                let number = (usize_from-Ensures import_count.0).at count sized ∙ ap pos len' in
                Ensures-ok _ (record {
                  after_header = header.1;
                  after_code = code.1;
                  table = import_count.1;
                  header =
                      header_read ∙ ap ok (pair_path header (is_zero_lem header.0 zero_header));
                  code_is = ((read_string-Ensures header.1).at code code_read).0;
                  count = count_read ∙ ap ok (pair_path import_count number);
                  in_range = ranges;
                })

-- When `parse_lisp_imports` succeeds, `lispData` begins with a zero header, the nul-terminated code
-- returned and the number of the imports returned; and each of these has a range that ends within
-- `lispData`, with the bytes of that range, as many as its size, for its payload.
pub parse_lisp_imports-IsImportTable :
    (lisp_data : Bytes) (code : Text) (imports : List LispImport)
    → parse_lisp_imports lisp_data ≡ ok (code, imports)
    → IsImportTable lisp_data code imports
parse_lisp_imports-IsImportTable lisp_data code imports h =
    (parse_lisp_imports-Ensures lisp_data).at (code, imports) h
