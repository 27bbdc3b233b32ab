-- ===== src/Reader/StreamReader.antt =====
-- libs/log_reader/stream_reader.{h,cpp}: `StreamReader`.
use tracebox.Prelude.{
  ℕ, suc, ◌%◌, ◌^◌, Bool, true, false, ◌&&◌, Option, none, some, [], ◌∷◌, ◌++◌, ◌==◌, if◌then◌else◌,
  take,
}
use tracebox.Bytes.{Text, text_eq}
use tracebox.Reader.FileReader.{FileReader, OnDisk, ReadError, open_reader, name_of}
use tracebox.Reader.IndexFile.{
  IndexFileReader, open_index, time_of, fixed_size, read_payload, read_offset, match_time,
}
use tracebox.Reader.DataFile.{DataPiece, read_data}

pub data StreamStatus : Type 0 where
  unknown healthy empty header_mismatch headers_different index_missing : StreamStatus

pub record StreamReader : Type 0 where
  pub index : Option IndexFileReader
  pub payloads : Option FileReader
  pub status : StreamStatus

-- What the constructor meets: the disk by path, which paths are regular files, and what memory
-- holds behind the two header objects.
pub record ReaderWorld : Type 0 where
  pub disk : Text → OnDisk
  pub is_regular : Text → Bool
  pub beyond_index : Text
  pub beyond_data : Text

unfoldable pub starts_with : Text → Text → Bool
starts_with [] text = true
starts_with (p ∷ ps) [] = false
starts_with (p ∷ ps) (c ∷ cs) = (p == c) && starts_with ps cs

-- `std::string::find`: the first position.
unfoldable pub find_text : Text → Text → Option ℕ
find_text pattern [] = if starts_with pattern [] then some 0 else none
find_text pattern (c ∷ cs) =
    let rest = next (find_text pattern cs) in if starts_with pattern (c ∷ cs) then some 0 else rest
  where
    next : Option ℕ → Option ℕ
    next none = none
    next (some n) = some (suc n)

abbrev pub idx_extension : Text
idx_extension = b'.' ∷ b'i' ∷ b'd' ∷ b'x' ∷ []

abbrev pub data_extension : Text
data_extension = b'.' ∷ b'd' ∷ b'a' ∷ b't' ∷ b'a' ∷ []

-- The data file of a channel whose records vary in length, and the status from the two names.
unfoldable pub attach_payloads : IndexFileReader → FileReader → StreamReader
attach_payloads index payloads = record {
  index = some index;
  payloads = some payloads;
  status = if text_eq (name_of payloads) (name_of index.file) then healthy else headers_different;
}

unfoldable pub open_stream : ReaderWorld → Text → StreamReader
open_stream world path =
    if world.is_regular path
    then (elim (find_text idx_extension path) [
      | none ↦ record { index = none; payloads = none; status = unknown }
      | some ext_pos ↦
          let index = open_index (world.disk path) world.beyond_index in
          if index.records_cnt == 0
          then record { index = some index; payloads = none; status = empty }
          else (if fixed_size index
              then record { index = some index; payloads = none; status = healthy }
              else attach_payloads index (
                  open_reader (world.disk (take ext_pos path ++ data_extension)) world.beyond_data))
    ])
    else record { index = none; payloads = none; status = unknown }

-- `status_ == kHealthy`
abbrev pub is_healthy : StreamStatus → Bool
is_healthy healthy = true
is_healthy unknown = false
is_healthy empty = false
is_healthy header_mismatch = false
is_healthy headers_different = false
is_healthy index_missing = false

unfoldable pub stream_matches : StreamReader → ℕ → ℕ → Bool
stream_matches r start end = elim r.index [
  | none ↦ false
  | some index ↦ is_healthy r.status && match_time index start end
]

unfoldable pub stream_records : StreamReader → ℕ
stream_records r = elim r.index [ none ↦ 0 | some index ↦ index.records_cnt ]

-- The record of a file of variable length records that the index entry names.
unfoldable pub read_linked :
    StreamReader → IndexFileReader → FileReader → ℕ → StreamReader × Option DataPiece
read_linked r index payloads rec_index =
    let (index', offset) = read_offset index (rec_index % 2 ^ 32) in
    if offset == 0
    then (record r { index = some index' }, none)
    else (let (payloads', size, piece) = read_data payloads offset in
        (record r { index = some index'; payloads = some payloads' }, piece))

unfoldable pub read_inline :
    StreamReader → IndexFileReader → ℕ → ℕ → StreamReader × Option DataPiece
read_inline r index rec_index time_ns =
    let (index', found) = read_payload index (rec_index % 2 ^ 32) in
    elim found [
      | none ↦ (record r { index = some index' }, none)
      | some payload ↦ (
        record r { index = some index' },
        some (record { time_ns = time_ns; payload = payload; stream_idx = 0 }),
      )
    ]

-- `read`: `none` for the returned `false`. A healthy stream has an index, and a data file if its
-- records vary in length.
unfoldable pub read_stream : StreamReader → ℕ → StreamReader × Option DataPiece
read_stream r rec_index = elim r.index [
  | none ↦ (r, none)
  | some index ↦
      if is_healthy r.status
      then (let (index', time_ns) = time_of index rec_index in
          if time_ns == 0
          then (record r { index = some index' }, none)
          else (if fixed_size index'
              then read_inline r index' rec_index time_ns
              else (elim r.payloads [
                | none ↦ (record r { index = some index' }, none)
                | some payloads ↦ read_linked r index' payloads rec_index
              ])))
      else (r, none)
]

-- `last_error()`: the index's, or else the data file's.
unfoldable pub stream_error : StreamReader → Option ReadError
stream_error r = elim r.index [
  | none ↦ payloads_error
  | some index ↦ elim index.file.last_error [ none ↦ payloads_error | some e ↦ some e ]
]
  where
    payloads_error : Option ReadError
    payloads_error = elim r.payloads [ none ↦ none | some f ↦ f.last_error ]
