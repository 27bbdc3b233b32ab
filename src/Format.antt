-- ===== src/Format.antt =====
-- libs/data_types.h: the packed structs of the index and data files, as the bytes they occupy.
mod Layout
pub mod RoundTrip
unfoldable pub use Layout.*
use tracebox.Prelude.{
  ℕ, ◌+◌, ◌%◌, ◌^◌, ◌<◌, ◌≤◌, ◌≡◌, refl, ◌++◌, List, [], ◌∷◌, ℤ, size_of_int, length, take, drop,
  All, Option, none, some, leb, if◌then◌else◌,
}
use tracebox.Bytes.{Text, le_bytes, of_le_bytes}

abbrev pub index_file : ℕ
index_file = 1

abbrev pub data_file : ℕ
data_file = 2

abbrev pub format_major : ℕ
format_major = 1

abbrev pub format_minor : ℕ
format_minor = 0

abbrev pub name_size : ℕ
name_size = 32

-- `sizeof(LogFileHeader)`: 2 + 8 + 4 + 1 + 1 + 1 + 32.
abbrev pub header_bytes : ℕ
header_bytes = 49

-- `sizeof(FixedRecordIdx)`, `sizeof(VariableRecordIdx)`, `sizeof(VariableRecordDataHeader)`
abbrev pub fixed_record_idx_bytes : ℕ
fixed_record_idx_bytes = 8

abbrev pub variable_record_idx_bytes : ℕ
variable_record_idx_bytes = 12

abbrev pub variable_record_data_header_bytes : ℕ
variable_record_data_header_bytes = 12
