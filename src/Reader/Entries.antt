-- ===== src/Reader/Entries.antt =====
-- What one call of the index reader or the data reader returns where its bytes are there.
use tracebox.Prelude.{
  ℕ, ◌+◌, ◌*◌, ◌%◌, ◌^◌, ◌<◌, ◌≤◌, ◌≡◌, ap, ◌∙◌, false, none, some, arith, length, take, drop,
}
use tracebox.Bytes.{Text, le_bytes, of_le_bytes, of_le_bytes-le_bytes, length-le_bytes}
use tracebox.Format.{LogFileHeader}
use tracebox.StreamWriter.Images.{Piece, index_entry}
use tracebox.Reader.IfStream.{seek, read_bytes}
use tracebox.Reader.FileReader.{FileReader}
use tracebox.Reader.IndexFile.{
  IndexFileReader, read_at, select_record, time_in, time_of, read_offset, fixed_size,
}
use tracebox.Reader.Slices.{LiesAt, LiesAt-take}

-- The reader behind a successful read.
abbrev pub moved : FileReader → ℕ → FileReader
moved f position = record f { stream = record f.stream { position = position }; last_error = none }

-- An index reader over a file of variable length records, with `n` of them.
pub record IndexReady (bytes : Text) (n : ℕ) (r : IndexFileReader) : Type 0 where
  pub header : LogFileHeader
  pub header_is : r.file.header ≡ some header
  pub header_size : header.header_size ≡ 49
  pub record_size : header.record_size ≡ 0
  pub file_type : header.file_type ≡ 1
  pub stream_bytes : r.file.stream.bytes ≡ bytes
  pub alive : r.file.stream.failed ≡ false
  pub count : r.records_cnt ≡ n

pub record DataReady (bytes : Text) (f : FileReader) : Type 0 where
  pub header : LogFileHeader
  pub header_is : f.header ≡ some header
  pub header_size : header.header_size ≡ 49
  pub file_type : header.file_type ≡ 2
  pub stream_bytes : f.stream.bytes ≡ bytes
  pub alive : f.stream.failed ≡ false
  pub size : f.size_bytes ≡ length bytes

module _ (f : FileReader) (h : LogFileHeader) where
  read_at-found :
      (index n position : ℕ)
      → h.header_size ≡ 49
      → h.record_size ≡ 0
      → f.stream.failed ≡ false
      → 49 + 12 * index ≡ position
      → position + n ≤ length f.stream.bytes
      → length f.stream.bytes < 2 ^ 32
      → read_at f h index n ≡ (moved f (position + n), some (take n (drop position f.stream.bytes)))
  unfolding read_at select_record seek read_bytes
  read_at-found index n position hs rs alive e fits small = ground arith

module _ {bytes : Text} {n : ℕ} (r : IndexFileReader) (v : IndexReady bytes n r) where
  pub time_of-found :
      (i : ℕ)
      → i < n
      → n < 2 ^ 32
      → 49 + 12 * i + 8 ≤ length bytes
      → length bytes < 2 ^ 32
      → time_of r i ≡ (
        record r { file = moved r.file (49 + 12 * i + 8) },
        of_le_bytes (take 8 (drop (49 + 12 * i) bytes)),
      )
  unfolding time_of time_in
  time_of-found i h nb fits small =
      ground (arith, read_at-found r.file v.header (i % 2 ^ 32) 8 (49 + 12 * i), v.stream_bytes)

  pub read_offset-found :
      (i : ℕ)
      → i < n
      → 49 + 12 * i + 12 ≤ length bytes
      → length bytes < 2 ^ 32
      → read_offset r i ≡ (
        record r { file = moved r.file (49 + 12 * i + 12) },
        of_le_bytes (take 4 (drop 8 (take 12 (drop (49 + 12 * i) bytes)))),
      )
  unfolding read_offset
  read_offset-found i h fits small =
      ground (arith, read_at-found r.file v.header i 12 (49 + 12 * i), v.stream_bytes)

  pub IndexReady-moved :
      (position : ℕ) → IndexReady bytes n (record r { file = moved r.file position })
  IndexReady-moved position = record {
    header = v.header;
    header_is = v.header_is;
    header_size = v.header_size;
    record_size = v.record_size;
    file_type = v.file_type;
    stream_bytes = v.stream_bytes;
    alive = v.alive;
    count = v.count;
  }

  pub not-fixed_size : fixed_size r ≡ false
  unfolding fixed_size
  not-fixed_size = ground arith

-- An index entry taken apart again.
pub entry_time :
    (bytes : Text) (position offset : ℕ) (p : Piece)
    → p.time_ns < 256 ^ 8
    → LiesAt bytes position (index_entry offset p)
    → of_le_bytes (take 8 (drop position bytes)) ≡ p.time_ns
entry_time bytes position offset p h at =
    ap of_le_bytes (
      LiesAt-take bytes position 8 (le_bytes 8 p.time_ns) (le_bytes 4 offset)
        (length-le_bytes 8 p.time_ns) at)
    ∙ of_le_bytes-le_bytes 8 p.time_ns h

pub entry_offset :
    (bytes : Text) (position offset : ℕ) (p : Piece)
    → offset < 256 ^ 4
    → LiesAt bytes position (index_entry offset p)
    → of_le_bytes (take 4 (drop 8 (take 12 (drop position bytes)))) ≡ offset
unfolding le_bytes
entry_offset bytes position offset p h (rest, at) =
    ap (λ t. of_le_bytes (take 4 (drop 8 (take 12 t)))) at ∙ of_le_bytes-le_bytes 4 offset h
