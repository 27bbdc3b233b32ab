-- ===== src/Format/Layout.antt =====
-- libs/data_types.h: the fields of `LogFileHeader`, and the bytes they are written as.
use tracebox.Prelude.{ℕ, ◌+◌, ◌*◌, ◌%◌, ◌^◌, ◌++◌, ◌∷◌, ℤ, size_of_int, take, drop}
use tracebox.Bytes.{Text, le_bytes, of_le_bytes}

pub record LogFileHeader : Type 0 where
  pub header_size : ℕ
  pub timestamp_ns : ℕ
  pub record_size : ℕ
  pub major_version : ℕ
  pub minor_version : ℕ
  pub file_type : ℕ
  pub name : Text

-- The object's memory, field by field.
unfoldable pub encode_header : LogFileHeader → Text
encode_header h =
    le_bytes 2 h.header_size
    ++ (le_bytes 8 h.timestamp_ns
        ++ (le_bytes 4 h.record_size ++ (h.major_version ∷ h.minor_version ∷ h.file_type ∷ h.name)))

abbrev byte_at : ℕ → Text → ℕ
byte_at i bs = of_le_bytes (take 1 (drop i bs))

-- The same memory read back as the struct.
unfoldable pub decode_header : Text → LogFileHeader
decode_header bs = record {
  header_size = of_le_bytes (take 2 bs);
  timestamp_ns = of_le_bytes (take 8 (drop 2 bs));
  record_size = of_le_bytes (take 4 (drop 10 bs));
  major_version = byte_at 14 bs;
  minor_version = byte_at 15 bs;
  file_type = byte_at 16 bs;
  name = take 32 (drop 17 bs);
}

-- `maxRecordSize`. The argument is an `int`, which the sum converts to `size_t`.
unfoldable pub max_record_size : ℤ → ℕ
max_record_size size = (2 * 49 + 12 + 12 + size_of_int size) % 2 ^ 64
