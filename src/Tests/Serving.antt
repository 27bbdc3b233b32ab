-- ===== src/Tests/Serving.antt =====
-- A reader and a scanner over the files that a channel's writer has left.
use tracebox.Prelude.{
  List, ℕ, All, ◌≡◌, refl, true, false, some, [], ◌∷◌, ◌++◌, arith, length, if◌then◌else◌,
}
use tracebox.Bytes.{Text, text_eq, le_bytes, of_le_bytes}
use tracebox.Format.{encode_header, decode_header}
use tracebox.StreamWriter.{header_of, header_name}
use tracebox.Reader.FileReader.{c_string, name_of, open_reader, get_header, file_size}
use tracebox.Reader.IndexFile.{
  open_index, valid_index, index_of, time_in, read_at, select_record, match_time, fixed_size,
}
use tracebox.Reader.IfStream.{seek, read_bytes}
use tracebox.Reader.StreamReader.{
  StreamReader, ReaderWorld, open_stream, read_stream, stream_matches, find_text, starts_with,
  idx_extension, attach_payloads,
}
use tracebox.Reader.Records.{Fits, sent}
use tracebox.Reader.Linked.{StreamReady}
use tracebox.Reader.Open.{readable_file}
use tracebox.EndToEnd.{OnDisk, IsNamed, open_stream-linked, read_stream-linked}
use tracebox.Scanner.{
  FilePath, ScannerWorld, Requested, is_within_root, resolve_index_path, stream_data, confine,
  is_acceptable, has_byte, has_rejected_component,
}
use tracebox.Calendar.{Date}
use tracebox.Scanner.Discovery.{DayEntry, get_streams, Requestable, get_streams-Requestable}
use tracebox.Scanner.Selection.{selected, stream_data-selected}
use tracebox.Scanner.Confinement.{Confined, resolve_index_path-Confined}
use tracebox.Tests.Files.{
  h1, h2, named, index_bytes, data_bytes_on_disk, left-Readable, stored_pieces, first, second,
}

abbrev pub index_path : Text
index_path = b'd' ∷ b'/' ∷ b'x' ∷ b'.' ∷ b'i' ∷ b'd' ∷ b'x' ∷ []

abbrev payload_path : Text
payload_path = b'd' ∷ b'/' ∷ b'x' ∷ b'.' ∷ b'd' ∷ b'a' ∷ b't' ∷ b'a' ∷ []

abbrev pub reader : ReaderWorld
reader = record {
  disk = λ path.
      if text_eq path index_path
      then readable_file index_bytes
      else readable_file data_bytes_on_disk;
  is_regular = λ path. true;
  beyond_index = [];
  beyond_data = [];
}

reader-OnDisk : OnDisk reader index_path index_bytes data_bytes_on_disk
unfolding find_text starts_with text_eq encode_header le_bytes header_of
reader-OnDisk = record {
  ext_pos = 3;
  is_regular = refl;
  extension = refl;
  index = refl;
  payloads = refl;
  index_small = omega arith;
  data_small = omega arith;
}

pub named-IsNamed : IsNamed named 1000
named-IsNamed = record { short = omega arith; variable = refl; time = omega arith }

pub first-Fits : Fits first
first-Fits = record { time = omega arith; size = omega arith }

second-Fits : Fits second
second-Fits = record { time = omega arith; size = omega arith }

open_stream-linked_example :
    StreamReady index_bytes data_bytes_on_disk 2 (open_stream reader index_path)
open_stream-linked_example =
    open_stream-linked named 1000 named-IsNamed left-Readable reader index_path reader-OnDisk 1
      first second refl refl refl first-Fits second-Fits

abbrev opened : StreamReader
opened = open_stream reader index_path

-- The same, for the instances below.
opened-StreamReady : StreamReady index_bytes data_bytes_on_disk 2 opened
opened-StreamReady =
    open_stream-linked named 1000 named-IsNamed left-Readable reader index_path reader-OnDisk 1
      first second refl refl refl first-Fits second-Fits

read_stream-linked_example :
    (s : StreamReader) × (read_stream opened 1 ≡ (s, some (sent second)))
    × StreamReady index_bytes data_bytes_on_disk 2 s
read_stream-linked_example =
    read_stream-linked named 1000 named-IsNamed left-Readable reader index_path reader-OnDisk opened
      opened-StreamReady 1 second refl second-Fits (λ e. omega arith)

length-h1 : length h1 ≡ 49
unfolding encode_header le_bytes header_of header_name
length-h1 = refl

length-h2 : length h2 ≡ 49
unfolding encode_header le_bytes header_of header_name
length-h2 = refl

opened-matches : stream_matches opened 1500 2500 ≡ true
unfolding stream_matches match_time open_stream find_text starts_with text_eq encode_header le_bytes
    header_of header_name open_index index_of open_reader file_size get_header read_bytes
    decode_header of_le_bytes seek read_at select_record time_in attach_payloads name_of c_string
    fixed_size
opened-matches = refl

stream_data-selected_example :
    stream_data 1500 2500 0 10 opened ≡ selected 10 1500 2500 stored_pieces
stream_data-selected_example =
    stream_data-selected left-Readable length-h1 length-h2 (reader-OnDisk.index_small)
      (reader-OnDisk.data_small) 1500 2500 0 10 opened opened-StreamReady
      ((first-Fits, λ e. omega arith), ((second-Fits, λ e. omega arith), tt)) opened-matches
      (omega arith)

abbrev pub root : FilePath
root = (b'r' ∷ []) ∷ []

-- A request for `d/x.idx`.
abbrev pub requested : Text → Requested
requested file = record {
  components = (b'd' ∷ []) ∷ file ∷ [];
  is_absolute = false;
  extension = idx_extension;
}

abbrev pub scanned : ScannerWorld
scanned = record {
  canonical = λ path. some path;
  is_regular_file = λ path. true;
  as_text = λ path. index_path;
  reader = reader;
}

resolved :
    resolve_index_path scanned requested root index_path
    ≡ some (root ++ (requested index_path).components)
unfolding resolve_index_path is_acceptable has_byte has_rejected_component text_eq confine
    is_within_root valid_index open_index index_of open_reader file_size encode_header le_bytes
    header_of get_header read_bytes decode_header of_le_bytes seek read_at select_record time_in
    header_name
resolved = refl

resolve_index_path-Confined_example :
    Confined scanned root index_path
      (requested index_path)
      (root ++ (requested index_path).components)
resolve_index_path-Confined_example =
    resolve_index_path-Confined scanned requested root index_path
      (root ++ (requested index_path).components) resolved

-- One day with one index file.
abbrev pub storage_days : List DayEntry
storage_days =
    record {
      is_directory = true;
      name = b'2' ∷ b'0' ∷ b'2' ∷ b'3' ∷ b'0' ∷ b'1' ∷ b'0' ∷ b'1' ∷ [];
      files = some (record { path = root; is_directory = false; extension = idx_extension } ∷ []);
    }
    ∷ []

abbrev pub new_year : ℕ → Date
new_year t = record { year = 123; month = 0; day = 1 }

get_streams-Requestable_example :
    All
      (Requestable scanned requested root (λ path. some index_path) 1500 2500)
      (get_streams scanned requested root (λ path. some index_path) 1500 2500 new_year storage_days)
get_streams-Requestable_example =
    get_streams-Requestable scanned requested root (λ path. some index_path) 1500 2500 new_year
      storage_days
