-- ===== src/Reader/DataFile.antt =====
-- libs/log_reader/data_file_reader.h: `DataFileReader`.
use tracebox.Prelude.{
  ℕ, ◌+◌, ◌-◌, ◌%◌, ◌^◌, ◌||◌, not, Option, none, some, ◌==◌, ltb, if◌then◌else◌, take, drop,
}
use tracebox.Bytes.{Text, of_le_bytes}
use tracebox.Format.{data_file}
use tracebox.Reader.IfStream.{IfStream, seek, read_bytes}
use tracebox.Reader.FileReader.{FileReader, ReadError, not_opened, invalid_offset, short_record}

-- The message `DataPiece`; the server leaves `stream_idx` unset, which reads as 0.
pub record DataPiece : Type 0 where
  pub time_ns : ℕ
  pub payload : Text
  pub stream_idx : ℕ

-- `size_bytes_ - k`, in a `size_t`
abbrev pub size_minus : ℕ → ℕ → ℕ
size_minus size k = (size + 2 ^ 64 - k) % 2 ^ 64

abbrev pub fail_with : FileReader → IfStream → ReadError → FileReader × ℕ × Option DataPiece
fail_with f s e = (record f { stream = s; last_error = some e }, 0, none)

-- The record whose header `bytes` is, at `offset`.
unfoldable pub read_record : FileReader → IfStream → ℕ → Text → FileReader × ℕ × Option DataPiece
read_record f s offset bytes =
    let size = of_le_bytes (take 4 (drop 8 bytes)) in
    if ltb (size_minus f.size_bytes (offset + 12)) size
    then fail_with f s invalid_offset
    else (let (t, found) = read_bytes s size in
        elim found [
          | none ↦ fail_with f t short_record
          | some payload ↦ (
            record f { stream = t; last_error = none },
            size,
            some (record {
              time_ns = of_le_bytes (take 8 bytes);
              payload = payload;
              stream_idx = 0;
            }),
          )
        ])

-- `read`: the returned size, and what it puts into `result`, if anything.
unfoldable pub read_data : FileReader → ℕ → FileReader × ℕ × Option DataPiece
read_data f offset = elim f.header [
  | none ↦ fail_with f f.stream not_opened
  | some h ↦
      if ltb f.size_bytes h.header_size
        || (ltb offset h.header_size
            || (ltb (size_minus f.size_bytes 12) offset || not (h.file_type == data_file)))
      then fail_with f f.stream invalid_offset
      else (let s = seek f.stream offset in
          if s.failed
          then fail_with f s invalid_offset
          else (let (t, found) = read_bytes s 12 in
              elim found [
                | none ↦ fail_with f t short_record
                | some bytes ↦ read_record f t offset bytes
              ]))
]
