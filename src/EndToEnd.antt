-- ===== src/EndToEnd.antt =====
-- From the writer's calls to the reader's answers.
pub mod ReadBack
use tracebox.Prelude.{
  ℕ, suc, ◌-◌, ◌^◌, ◌<◌, ◌≡◌, ◌≢◌, refl, sym, ap, ◌∙◌, true, List, ◌∷◌, ◌++◌, some, arith, length,
  take, length-append, get_elem?, replicate, min, length-take, length-replicate, take_all,
}
use tracebox.Bytes.{Text}
use tracebox.Format.{LogFileHeader, encode_header}
use tracebox.Format.RoundTrip.{IsHeader, length-encode_header}
use tracebox.StreamWriter.{StreamWriter, header_of, header_name}
use tracebox.StreamWriter.Images.{Piece}
use tracebox.StreamWriter.Linked.{Readable}
use tracebox.Reader.StreamReader.{
  StreamReader, ReaderWorld, open_stream, read_stream, find_text, idx_extension, data_extension,
}
use tracebox.Reader.Records.{Fits, sent}
use tracebox.Reader.Linked.{StreamReady, read_stream-found}
use tracebox.Reader.Open.{readable_file, open_stream-Ready}

-- The files of a channel as a reader meets them: the index under `path`, the data file beside it,
-- both below 4 GiB.
pub record OnDisk (world : ReaderWorld) (path ib db : Text) : Type 0 where
  pub ext_pos : ℕ
  pub is_regular : world.is_regular path ≡ true
  pub extension : find_text idx_extension path ≡ some ext_pos
  pub index : world.disk path ≡ readable_file ib
  pub payloads : world.disk (take ext_pos path ++ data_extension) ≡ readable_file db
  pub index_small : length ib < 2 ^ 32
  pub data_small : length db < 2 ^ 32

-- A channel name that leaves room for a zero in the header, and no record of length 0.
pub record IsNamed (w : StreamWriter) (time_ns : ℕ) : Type 0 where
  pub short : length w.name < 32
  pub variable : w.record_size ≡ 0
  pub time : time_ns < 256 ^ 8

header_name-padded :
    (name : Text) → length name < 32 → (back : Text) × (header_name name ≡ name ++ (0 ∷ back))
unfolding header_name
header_name-padded name h = (
  replicate (31 - length name) 0,
  ap (λ t. t ++ replicate (32 - min 32 (length name)) 0) (take_all 32 name (omega arith))
      ∙ ap (λ n. name ++ replicate n 0) {y = suc (31 - length name)} (omega arith),
)

length-header_name : (name : Text) → length (header_name name) ≡ 32
unfolding header_name
length-header_name name = omega (
  arith,
  length-append (take 32 name) (replicate (32 - min 32 (length name)) 0),
  length-take 32 name,
  length-replicate {A = ℕ} (32 - min 32 (length name)) 0,
)

module _ (w : StreamWriter) (time_ns type : ℕ) (v : IsNamed w time_ns) where
  header_of-IsHeader : IsHeader (header_of w time_ns type)
  unfolding header_of
  header_of-IsHeader = record {
    header_size = omega arith;
    timestamp = v.time;
    record_size = omega (arith, v.variable);
    name = length-header_name w.name;
  }

  header_of-size : (header_of w time_ns type).header_size ≡ 49
  unfolding header_of
  header_of-size = refl

  header_of-record_size : (header_of w time_ns type).record_size ≡ 0
  unfolding header_of
  header_of-record_size = v.variable

  header_of-type : (header_of w time_ns type).file_type ≡ type
  unfolding header_of
  header_of-type = refl

  header_of-name : (header_of w time_ns type).name ≡ header_name w.name
  unfolding header_of
  header_of-name = refl

module _ (w : StreamWriter) (time_ns : ℕ) {ib db : Text} {ps : List Piece} (v : IsNamed w time_ns)
    (r : Readable
      (encode_header (header_of w time_ns 1))
      (encode_header (header_of w time_ns 2))
      ib
      db
      ps)
    (world : ReaderWorld) (path : Text) (on : OnDisk world path ib db) where
  abbrev h1 : LogFileHeader
  h1 = header_of w time_ns 1

  abbrev h2 : LogFileHeader
  h2 = header_of w time_ns 2

  -- For two files below 4 GiB that hold the headers of a channel of variable length records and are
  -- readable as at least one record, with a name shorter than 32 bytes, and whose first and last
  -- record fit their fields: `StreamReader` opened on the index is a healthy stream with all these
  -- records.
  pub open_stream-linked :
      (n : ℕ) (first last : Piece)
      → length ps ≡ suc n
      → get_elem? ps 0 ≡ some first
      → get_elem? ps n ≡ some last
      → Fits first
      → Fits last
      → StreamReady ib db (length ps) (open_stream world path)
  open_stream-linked n first last en e0 e1 f0 f1 =
      open_stream-Ready r h1 (header_of-IsHeader w time_ns 1 v) refl
        (length-encode_header h2 (header_of-IsHeader w time_ns 2 v).name)
        (header_of-size w time_ns 1 v) (header_of-record_size w time_ns 1 v)
        (header_of-type w time_ns 1 v) on.index_small on.data_small world path on.ext_pos n first
        last h2 w.name (header_name-padded w.name v.short).0 on.is_regular on.extension on.index
        on.payloads en e0 e1 f0.time f1.time (header_of-IsHeader w time_ns 2 v) refl
        (header_of-size w time_ns 2 v) (header_of-type w time_ns 2 v)
        (header_of-name w time_ns 2 v ∙ sym (header_of-name w time_ns 1 v))
        (header_of-name w time_ns 1 v ∙ (header_name-padded w.name v.short).1)

  -- For two files below 4 GiB that hold the headers of a channel of variable length records and are
  -- readable as the records `ps` (the form of what `StreamWriter::write` hands to its streams),
  -- with a name shorter than 32 bytes: on a healthy stream reader over them, reading a record that
  -- fits its fields and whose time is not 0 returns exactly its time and payload, and leaves the
  -- reader as ready as before.
  pub read_stream-linked :
      (s : StreamReader)
      → StreamReady ib db (length ps) s
      → (i : ℕ) (p : Piece) → get_elem? ps i ≡ some p
      → Fits p
      → p.time_ns ≢ 0
      → (s' : StreamReader) × (read_stream s i ≡ (s', some (sent p)))
        × StreamReady ib db (length ps) s'
  read_stream-linked s ready i p at fits nz =
      read_stream-found r (length-encode_header h1 (header_of-IsHeader w time_ns 1 v).name)
        (length-encode_header h2 (header_of-IsHeader w time_ns 2 v).name) on.index_small
        on.data_small i p at s ready fits nz
