-- ===== src/Domain/Error.antt =====
-- crates/vesc-domain/src/error.rs. A message is a constructor with the values that it shows; the
-- wording is not modelled. A path is the text that it displays as.
use vesc_mcp.Prelude.{ℕ}
use vesc_mcp.Prelude.Int.{ℤ}
use vesc_mcp.Text.{Text}

-- The messages of `InvalidWireFormat`, in the order of wire/mod.rs.
pub data WireMessage : Type 0 where
  short_prefix zlib_failed : WireMessage
  length_mismatch : ℕ → ℕ → WireMessage
  bad_magic : Text → WireMessage
  negative_field_length : Text → ℤ → WireMessage
  field_exceeds : Text → ℕ → WireMessage
  bad_lisp_header : ℤ → WireMessage
  negative_import_count : WireMessage
  negative_import : Text → WireMessage
  import_range : Text → ℕ → ℕ → ℕ → WireMessage
  missing_field : Text → WireMessage
  field_not_utf8 : Text → WireMessage
  missing_nul string_not_utf8 short_i32 short_i16 : WireMessage
  out_of_range : ℤ → WireMessage

-- The messages of `LegacyDescriptor`.
pub data LegacyMessage : Type 0 where
  field_count : ℕ → LegacyMessage
  bad_fullscreen : Text → LegacyMessage

-- The messages of `InvalidProperty`.
pub data PropertyMessage : Type 0 where
  duplicate_on_line : ℕ → PropertyMessage
  expected_string expected_bool : PropertyMessage

pub data DomainError : Type 0 where
  missing_property : Text → Text → DomainError
  invalid_property : Text → Text → PropertyMessage → DomainError
  unknown_dialect legacy_poc_dialect : Text → DomainError
  missing_asset : Text → Text → DomainError
  invalid_wire_format : WireMessage → DomainError
  io : Text → DomainError
  legacy_descriptor : LegacyMessage → DomainError
