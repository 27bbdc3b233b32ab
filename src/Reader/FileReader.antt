-- ===== src/Reader/FileReader.antt =====
-- libs/log_reader/file_reader.h: `FileReader`.
use tracebox.Prelude.{
  ℕ, ◌%◌, ◌^◌, Bool, true, false, Option, none, some, [], ◌∷◌, ◌++◌, ◌==◌, if◌then◌else◌, length,
}
use tracebox.Bytes.{Text}
use tracebox.Format.{LogFileHeader, decode_header, header_bytes}
use tracebox.Reader.IfStream.{IfStream, read_bytes}

-- What `log_error` was last told.
pub data ReadError : Type 0 where
  not_opened no_header invalid_index invalid_offset not_fixed not_variable short_record : ReadError

-- `beyond` is what memory holds behind the header object, up to and with some zero byte.
pub record FileReader : Type 0 where
  pub stream : IfStream
  pub header : Option LogFileHeader
  pub size_bytes : ℕ
  pub last_error : Option ReadError
  pub beyond : Text

-- A path: whether it can be opened, and its content, if it is there.
pub record OnDisk : Type 0 where
  pub content : Option Text
  pub opens : Bool

abbrev pub closed_stream : IfStream
closed_stream = record { bytes = []; position = 0; is_open = false; failed = false }

-- `fileSize`, kept in a `uint32_t`.
unfoldable pub file_size : Option Text → ℕ
file_size none = 0
file_size (some bytes) = length bytes % 2 ^ 32

abbrev pub opened_stream : OnDisk → IfStream
opened_stream disk = elim disk.content [
  | none ↦ record closed_stream { failed = true }
  | some bytes ↦ record {
    bytes = bytes;
    position = 0;
    is_open = disk.opens;
    failed = not_open disk.opens;
  }
]
  where
    not_open : Bool → Bool
    not_open true = false
    not_open false = true

unfoldable pub get_header : FileReader → FileReader
get_header r =
    if r.stream.is_open
    then (let (s, found) = read_bytes r.stream header_bytes in
        elim found [
          | none ↦ record r { stream = s; header = none; last_error = some no_header }
          | some bytes ↦ record r { stream = s; header = some (decode_header bytes) }
        ])
    else record r { last_error = some not_opened }

-- The constructor.
unfoldable pub open_reader : OnDisk → Text → FileReader
open_reader disk beyond =
    if file_size disk.content == 0
    then blank closed_stream
    else get_header (blank (opened_stream disk))
  where
    blank : IfStream → FileReader
    blank s = record {
      stream = s;
      header = none;
      size_bytes = file_size disk.content;
      last_error = none;
      beyond = beyond;
    }

-- A string from a C string: up to the first zero.
unfoldable pub c_string : Text → Text
c_string [] = []
c_string (b ∷ bs) = let rest = c_string bs in if b == 0 then [] else b ∷ rest

-- The array `name_` need not hold a zero; then the string goes on behind the header.
unfoldable pub name_of : FileReader → Text
name_of r = elim r.header [ none ↦ [] | some h ↦ c_string (h.name ++ r.beyond) ]
