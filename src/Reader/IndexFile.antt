-- ===== src/Reader/IndexFile.antt =====
-- libs/log_reader/idx_file_reader.h: `IndexFileReader`.
use tracebox.Prelude.{
  ℕ, ◌+◌, ◌-◌, ◌*◌, ◌/◌, ◌%◌, ◌^◌, Bool, true, false, ◌&&◌, ◌||◌, not, Option, none, some, ◌==◌,
  ltb, leb, if◌then◌else◌,
}
use tracebox.Bytes.{Text, of_le_bytes}
use tracebox.Format.{LogFileHeader, index_file, header_bytes}
use tracebox.Prelude.{take, drop}
use tracebox.Reader.IfStream.{IfStream, seek, read_bytes}
use tracebox.Reader.FileReader.{
  FileReader, OnDisk, ReadError, not_opened, invalid_index, not_fixed, not_variable, short_record,
  open_reader,
}

pub record IndexFileReader : Type 0 where
  pub file : FileReader
  pub records_cnt : ℕ
  pub start_ns : ℕ
  pub end_ns : ℕ

-- `sizeof(FixedRecordIdx) + record_size_`, or `sizeof(VariableRecordIdx)`
abbrev pub stride : LogFileHeader → ℕ
stride h = if h.record_size == 0 then 12 else 8 + h.record_size

-- `selectRecord`; the position is computed in a `size_t`.
unfoldable pub select_record : IfStream → LogFileHeader → ℕ → IfStream
select_record s h index = seek s ((h.header_size + index * stride h) % 2 ^ 64)

abbrev pub with_stream : FileReader → IfStream → Option ReadError → FileReader
with_stream f s e = record f { stream = s; last_error = e }

-- Selects a record and reads `n` bytes of it; a failed selection reports no error, a failed read
-- the given one.
unfoldable pub read_at : FileReader → LogFileHeader → ℕ → ℕ → FileReader × Option Text
read_at f h index n =
    let s = select_record f.stream h index in
    if s.failed
    then (with_stream f s none, none)
    else (let (t, found) = read_bytes s n in
        elim found [
          | none ↦ (with_stream f t (some short_record), none)
          | some bytes ↦ (with_stream f t none, some bytes)
        ])

abbrev pub number_of : Option Text → ℕ
number_of none = 0
number_of (some bytes) = of_le_bytes bytes

-- `timeOf`, with the number of records as an argument, since the constructor calls it too.
unfoldable pub time_in : FileReader → ℕ → ℕ → FileReader × ℕ
time_in f records_cnt index = elim f.header [
  | none ↦ (record f { last_error = some not_opened }, 0)
  | some h ↦
      if leb records_cnt index || not (h.file_type == index_file)
      then (record f { last_error = some invalid_index }, 0)
      else (let (g, found) = read_at f h (index % 2 ^ 32) 8 in (g, number_of found))
]

unfoldable pub time_of : IndexFileReader → ℕ → IndexFileReader × ℕ
time_of r index = let (f, t) = time_in r.file r.records_cnt index in (record r { file = f }, t)

-- The constructor behind `FileReader`'s.
unfoldable pub index_of : FileReader → IndexFileReader
index_of f = elim f.header [
  | none ↦ empty
  | some h ↦
      if not (f.size_bytes == 0) && leb h.header_size f.size_bytes
      then (let cnt = ((f.size_bytes - h.header_size) / stride h) % 2 ^ 32 in
          let (f1, start) = time_in f cnt 0 in
          let (f2, end) = time_in f1 cnt ((cnt + 2 ^ 32 - 1) % 2 ^ 32) in
          record { file = f2; records_cnt = cnt; start_ns = start; end_ns = end })
      else empty
]
  where
    empty : IndexFileReader
    empty = record { file = f; records_cnt = 0; start_ns = 0; end_ns = 0 }

unfoldable pub open_index : OnDisk → Text → IndexFileReader
open_index disk beyond = index_of (open_reader disk beyond)

unfoldable pub valid_index : IndexFileReader → Bool
valid_index r = elim r.file.header [
  | none ↦ false
  | some h ↦
      leb h.header_size r.file.size_bytes
      && leb header_bytes h.header_size
      && h.file_type == index_file
]

unfoldable pub match_time : IndexFileReader → ℕ → ℕ → Bool
match_time r start end =
    not (r.records_cnt == 0) && leb start end && leb r.start_ns end && leb start r.end_ns

unfoldable pub fixed_size : IndexFileReader → Bool
fixed_size r = elim r.file.header [ none ↦ true | some h ↦ ltb 0 h.record_size ]

-- `readPayload`: `none` for the returned 0.
unfoldable pub read_payload : IndexFileReader → ℕ → IndexFileReader × Option Text
read_payload r index = elim r.file.header [
  | none ↦ (record r { file = record file { last_error = some not_opened } }, none)
  | some h ↦
      if h.record_size == 0 || leb r.records_cnt index
      then (record r { file = record file { last_error = some not_fixed } }, none)
      else (let (f, time) = read_at r.file h index 8 in
          elim time [
            | none ↦ (record r { file = f }, none)
            | some bytes ↦
                let (s, found) = read_bytes f.stream h.record_size in
                elim found [
                  | none ↦ (record r { file = with_stream f s (some short_record) }, none)
                  | some payload ↦ (record r { file = with_stream f s none }, some payload)
                ]
          ])
]
  where
    open r use {file}

-- `readOffset`: 0 if there is none.
unfoldable pub read_offset : IndexFileReader → ℕ → IndexFileReader × ℕ
read_offset r index = elim r.file.header [
  | none ↦ (record r { file = record file { last_error = some not_opened } }, 0)
  | some h ↦
      if not (h.record_size == 0) || leb r.records_cnt index
      then (record r { file = record file { last_error = some not_variable } }, 0)
      else (let (f, found) = read_at r.file h index 12 in
          (record r { file = f }, number_of (offset_of found)))
]
  where
    open r use {file}

    offset_of : Option Text → Option Text
    offset_of none = none
    offset_of (some bytes) = some (take 4 (drop 8 bytes))
