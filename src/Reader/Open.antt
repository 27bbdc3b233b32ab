-- ===== src/Reader/Open.antt =====
-- Opening the two files of a channel that a writer has left.
use tracebox.Prelude.{
  ℕ, suc, ◌+◌, ◌-◌, ◌*◌, ◌%◌, ◌^◌, ◌<◌, ◌≤◌, ◌≡◌, ◌≢◌, refl, sym, ap, ◌∙◌, true, false, List, [],
  ◌∷◌, ◌++◌, none, some, arith, length, take, subst, length-append, get_elem?, take-append,
}
use tracebox.Bytes.{Text, text_eq, text_eq_refl}
use tracebox.Format.{LogFileHeader, encode_header, decode_header}
use tracebox.Format.RoundTrip.{IsHeader, length-encode_header, decode_header-encode_header}
use tracebox.StreamWriter.Images.{Piece, index_image, data_image}
use tracebox.StreamWriter.Linked.{Readable}
use tracebox.Reader.IfStream.{read_bytes}
use tracebox.Reader.FileReader.{
  FileReader, OnDisk, open_reader, get_header, file_size, c_string, name_of,
}
use tracebox.Reader.IndexFile.{IndexFileReader, time_in, time_of, index_of, open_index, fixed_size}
use tracebox.Reader.StreamReader.{
  ReaderWorld, healthy, open_stream, attach_payloads, find_text, idx_extension, data_extension,
}
use tracebox.Reader.Slices.{bytes_before, lt_length}
use tracebox.Reader.Entries.{moved, IndexReady, time_of-found, not-fixed_size, entry_time}
use tracebox.Reader.Linked.{StreamReady, length-index, entry_at}

-- The reader behind its constructor, on a file that begins with the header `h`.
abbrev pub opened : Text → LogFileHeader → Text → FileReader
opened bytes h beyond = record {
  stream = record { bytes = bytes; position = 49; is_open = true; failed = false };
  header = some h;
  size_bytes = length bytes;
  last_error = none;
  beyond = beyond;
}

abbrev pub readable_file : Text → OnDisk
readable_file bytes = record { content = some bytes; opens = true }

open_reader-raw :
    (bytes beyond : Text) (h : LogFileHeader)
    → 49 ≤ length bytes
    → length bytes < 2 ^ 32
    → decode_header (take 49 bytes) ≡ h
    → open_reader (readable_file bytes) beyond ≡ opened bytes h beyond
unfolding open_reader get_header read_bytes file_size
open_reader-raw bytes beyond h large small e = ground arith

-- A file that begins with an encoded header is opened with that header.
pub open_reader-opened :
    (h : LogFileHeader) (rest bytes beyond : Text)
    → IsHeader h
    → bytes ≡ encode_header h ++ rest
    → length bytes < 2 ^ 32
    → open_reader (readable_file bytes) beyond ≡ opened bytes h beyond
open_reader-opened h rest bytes beyond v e small =
    open_reader-raw bytes beyond h
      (omega
        (arith, ap length e, length-append (encode_header h) rest, length-encode_header h v.name))
      small
      (ap (λ b. decode_header (take 49 b)) e
        ∙ ap decode_header (take-append 49 (encode_header h) rest (length-encode_header h v.name))
        ∙ decode_header-encode_header h v)

-- A string ends at its first zero, whatever follows.
pub c_string-append :
    (front back more beyond : Text)
    → c_string ((front ++ (0 ∷ back)) ++ more) ≡ c_string ((front ++ (0 ∷ back)) ++ beyond)
unfolding c_string
c_string-append [] back more beyond = refl
c_string-append (b ∷ front) back more beyond =
    ground (arith, c_string-append front back more beyond)

pub time_in-of :
    (f : FileReader) (n i t position : ℕ)
    → let r : IndexFileReader = record { file = f; records_cnt = n; start_ns = 0; end_ns = 0 } in
      time_of r i ≡ (record r { file = moved f position }, t)
      → time_in f n i ≡ (moved f position, t)
unfolding time_of
time_in-of f n i t position e = ap (λ (x : IndexFileReader × ℕ). (x.0.file, x.1)) e

index_of-counted :
    (f : FileReader) (h : LogFileHeader) (n last start end k l : ℕ)
    → f.header ≡ some h
    → h.header_size ≡ 49
    → h.record_size ≡ 0
    → f.size_bytes < 2 ^ 32
    → (tail : ℕ) → f.size_bytes ≡ 49 + 12 * n + tail
    → tail < 12
    → last ≡ (n + 2 ^ 32 - 1) % 2 ^ 32
    → time_in f n 0 ≡ (moved f k, start)
    → time_in (moved f k) n last ≡ (moved f l, end)
    → index_of f ≡ record { file = moved f l; records_cnt = n; start_ns = start; end_ns = end }
unfolding index_of
index_of-counted f h n last start end k l eh hs rs small tail size short el e1 e2 = ground arith

abbrev pub with_count : FileReader → ℕ → IndexFileReader
with_count f n = record { file = f; records_cnt = n; start_ns = 0; end_ns = 0 }

-- What the constructor of the index reader finds: the number of records, and the times of the
-- first and of the last.
pub record IndexOpened (ib : Text) (ps : List Piece) (h : LogFileHeader) (first last : Piece)
    (r : IndexFileReader) : Type 0 where
  pub header : r.file.header ≡ some h
  pub ready : IndexReady ib (length ps) r
  pub start : r.start_ns ≡ first.time_ns
  pub end : r.end_ns ≡ last.time_ns

module _ {ih dh ib db : Text} {ps : List Piece} (r : Readable ih dh ib db ps) (h : LogFileHeader)
    (v : IsHeader h) (ih_is : ih ≡ encode_header h) (dh_size : length dh ≡ 49)
    (hs : h.header_size ≡ 49) (rs : h.record_size ≡ 0) (type : h.file_type ≡ 1)
    (ib_small : length ib < 2 ^ 32) (db_small : length db < 2 ^ 32) where
  ih_size : length ih ≡ 49
  ih_size = ap length ih_is ∙ length-encode_header h v.name

  time_at :
      (f : FileReader) (i : ℕ) (p : Piece)
      → f.header ≡ some h
      → f.stream.bytes ≡ ib
      → f.stream.failed ≡ false
      → get_elem? ps i ≡ some p
      → p.time_ns < 256 ^ 8
      → time_in f (length ps) i ≡ (moved f (49 + 12 * i + 8), p.time_ns)
  time_at f i p eh eb alive at fits = time_in-of f (length ps) i p.time_ns (49 + 12 * i + 8) (
      time_of-found (with_count f (length ps)) ready i inside
        (omega (arith, inside, length-index r ih_size dh_size ib_small db_small))
        (omega (arith, inside, length-index r ih_size dh_size ib_small db_small)) ib_small
      ∙ ap (λ (t : ℕ). (with_count (moved f (49 + 12 * i + 8)) (length ps), t))
          (entry_time ib (49 + 12 * i) (49 + bytes_before ps i) p fits
            (entry_at r ih_size dh_size ib_small db_small i p at)))
    where
      inside : i < length ps
      inside = lt_length ps i at

      ready : IndexReady ib (length ps) (with_count f (length ps))
      ready = record {
        header = h;
        header_is = eh;
        header_size = hs;
        record_size = rs;
        file_type = type;
        stream_bytes = eb;
        alive = alive;
        count = refl;
      }

  -- The index reader finds every record of the index.
  pub open_index-found :
      (beyond : Text) (n : ℕ) (first last : Piece)
      → length ps ≡ suc n
      → get_elem? ps 0 ≡ some first
      → get_elem? ps n ≡ some last
      → first.time_ns < 256 ^ 8
      → last.time_ns < 256 ^ 8
      → IndexOpened ib ps h first last (open_index (readable_file ib) beyond)
  unfolding open_index
  open_index-found beyond n first last en e0 e1 t0 t1 =
      subst (IndexOpened ib ps h first last) (sym (ap index_of opens ∙ counts)) (record {
        header = refl;
        ready = record {
          header = h;
          header_is = refl;
          header_size = hs;
          record_size = rs;
          file_type = type;
          stream_bytes = refl;
          alive = refl;
          count = refl;
        };
        start = refl;
        end = refl;
      })
    where
      f : FileReader
      f = opened ib h beyond

      size : length ib ≡ 49 + 12 * length ps + length r.tail
      size = length-index r ih_size dh_size ib_small db_small

      opens : open_reader (readable_file ib) beyond ≡ f
      opens =
          open_reader-opened h (index_image 49 ps ++ r.tail) ib beyond v
            (r.index_split ∙ ap (λ b. b ++ (index_image 49 ps ++ r.tail)) ih_is) ib_small

      counts : index_of f ≡ record {
        file = moved f (49 + 12 * n + 8);
        records_cnt = length ps;
        start_ns = first.time_ns;
        end_ns = last.time_ns;
      }
      counts =
          index_of-counted f h (length ps) n first.time_ns last.time_ns (49 + 12 * 0 + 8)
            (49 + 12 * n + 8) refl hs rs ib_small (length r.tail) size r.short
            (omega (arith, en, size, ib_small)) (time_at f 0 first refl refl refl e0 t0)
            (time_at (moved f (49 + 12 * 0 + 8)) n last refl refl refl e1 t1)

  open_stream-attached :
      (world : ReaderWorld) (path : Text) (ext_pos : ℕ) (index : IndexFileReader)
      → world.is_regular path ≡ true
      → find_text idx_extension path ≡ some ext_pos
      → open_index (world.disk path) world.beyond_index ≡ index
      → index.records_cnt ≢ 0
      → fixed_size index ≡ false
      → open_stream world path
        ≡ attach_payloads index
            (open_reader (world.disk (take ext_pos path ++ data_extension)) world.beyond_data)
  unfolding open_stream
  open_stream-attached world path ext_pos index reg found ei nz fixed = ground arith

  attach_payloads-healthy :
      (index : IndexFileReader) (payloads : FileReader)
      → name_of payloads ≡ name_of index.file
      → attach_payloads index payloads
        ≡ record { index = some index; payloads = some payloads; status = healthy }
  unfolding attach_payloads
  attach_payloads-healthy index payloads e =
      ground (arith, text_eq_refl (name_of index.file), ap (λ n. text_eq n (name_of index.file)) e)

  name_of-header :
      (f : FileReader) (g : LogFileHeader)
      → f.header ≡ some g
      → name_of f ≡ c_string (g.name ++ f.beyond)
  unfolding name_of
  name_of-header f g e = ground arith

  -- A stream whose name leaves room for a zero in both headers opens as healthy, with every record
  -- that its index holds.
  pub open_stream-Ready :
      (world : ReaderWorld) (path : Text) (ext_pos n : ℕ) (first last : Piece) (g : LogFileHeader)
      (front back : Text)
      → world.is_regular path ≡ true
      → find_text idx_extension path ≡ some ext_pos
      → world.disk path ≡ readable_file ib
      → world.disk (take ext_pos path ++ data_extension) ≡ readable_file db
      → length ps ≡ suc n
      → get_elem? ps 0 ≡ some first
      → get_elem? ps n ≡ some last
      → first.time_ns < 256 ^ 8
      → last.time_ns < 256 ^ 8
      → IsHeader g
      → dh ≡ encode_header g
      → g.header_size ≡ 49
      → g.file_type ≡ 2
      → g.name ≡ h.name
      → h.name ≡ front ++ (0 ∷ back)
      → StreamReady ib db (length ps) (open_stream world path)
  open_stream-Ready world path ext_pos n first last g front back reg found di dd en e0 e1 t0 t1 gv
        gd gs gt same zero_in =
      subst (StreamReady ib db (length ps))
        (sym (attached ∙ ap (attach_payloads index) payloads_is ∙ healthy_is))
        (record {
          index = index;
          payloads = payloads;
          index_is = refl;
          payloads_is = refl;
          status_is = refl;
          index_ready = index_opened.ready;
          data_ready = record {
            header = g;
            header_is = refl;
            header_size = gs;
            file_type = gt;
            stream_bytes = refl;
            alive = refl;
            size = refl;
          };
        })
    where
      index : IndexFileReader
      index = open_index (readable_file ib) world.beyond_index

      payloads : FileReader
      payloads = opened db g world.beyond_data

      index_opened : IndexOpened ib ps h first last index
      index_opened = open_index-found world.beyond_index n first last en e0 e1 t0 t1

      attached :
          open_stream world path
          ≡ attach_payloads index
              (open_reader (world.disk (take ext_pos path ++ data_extension)) world.beyond_data)
      attached =
          open_stream-attached world path ext_pos index reg found
            (ap (λ d. open_index d world.beyond_index) di)
            (omega (arith, index_opened.ready.count, en)) (not-fixed_size index index_opened.ready)

      payloads_is :
          open_reader (world.disk (take ext_pos path ++ data_extension)) world.beyond_data
          ≡ payloads
      payloads_is =
          ap (λ d. open_reader d world.beyond_data) dd
          ∙ open_reader-opened g (data_image ps ++ r.junk) db world.beyond_data gv
              (r.data_split ∙ ap (λ b. b ++ (data_image ps ++ r.junk)) gd) db_small

      names : name_of payloads ≡ name_of index.file
      names =
          name_of-header payloads g refl
          ∙ ap (λ t. c_string (t ++ world.beyond_data)) (same ∙ zero_in)
          ∙ c_string-append front back world.beyond_data index.file.beyond
          ∙ ap (λ t. c_string (t ++ index.file.beyond)) (sym zero_in)
          ∙ sym (name_of-header index.file h index_opened.header)

      healthy_is :
          attach_payloads index payloads
          ≡ record { index = some index; payloads = some payloads; status = healthy }
      healthy_is = attach_payloads-healthy index payloads names
