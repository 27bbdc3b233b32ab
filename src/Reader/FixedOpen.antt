-- ===== src/Reader/FixedOpen.antt =====
-- Opening the file of a channel of fixed size records.
use tracebox.Prelude.{
  ℕ, suc, ◌+◌, ◌-◌, ◌*◌, ◌/◌, ◌%◌, ◌^◌, ◌<◌, ◌≤◌, ◌≡◌, ◌≢◌, refl, sym, ap, ◌∙◌, true, false, List,
  [], ◌∷◌, ◌++◌, none, some, arith, length, subst, length-append, get_elem?, All,
}
use native.Mathlib.Nat.{add-mul-div_right, div-eq_of_lt}
use tracebox.Bytes.{Text}
use tracebox.Format.{LogFileHeader, encode_header}
use tracebox.Format.RoundTrip.{IsHeader, length-encode_header}
use tracebox.StreamWriter.Images.{Piece}
use tracebox.StreamWriter.Fixed.{fixed_record, fixed_image, HoldsFixed}
use tracebox.Reader.FileReader.{FileReader, open_reader}
use tracebox.Reader.IndexFile.{IndexFileReader, stride, time_in, index_of, open_index, fixed_size}
use tracebox.Reader.StreamReader.{ReaderWorld, healthy, open_stream, find_text, idx_extension}
use tracebox.Reader.Entries.{moved}
use tracebox.Reader.Open.{opened, readable_file, open_reader-opened, time_in-of, with_count}
use tracebox.Reader.Fixed.{
  FixedReady, FixedStreamReady, mul_step, length-fixed_record, time_of-fixed, reads_inline,
  few_records,
}

length-fixed_image-records :
    (size : ℕ) (ps : List Piece)
    → All (λ (q : Piece). length q.payload ≡ size) ps
    → length (fixed_image ps) ≡ length ps * (8 + size)
length-fixed_image-records size [] sizes = omega arith
length-fixed_image-records size (p ∷ ps) sizes = omega (
  arith,
  length-append (fixed_record p) (fixed_image ps),
  length-fixed_record size p sizes.0,
  length-fixed_image-records size ps sizes.1,
  mul_step (length ps) (8 + size),
)

-- A number of records with less than one behind them.
count_records : (n k tail : ℕ) → tail < k → (tail + n * k) / k ≡ n
count_records n k tail short =
    add-mul-div_right tail n (omega (arith, short))
    ∙ ap (λ (q : ℕ). q + n) (div-eq_of_lt short)
    ∙ omega arith

index_of-fixed :
    (f : FileReader) (h : LogFileHeader) (n last start end k l step : ℕ)
    → f.header ≡ some h
    → h.header_size ≡ 49
    → stride h ≡ step
    → f.size_bytes < 2 ^ 32
    → 49 ≤ f.size_bytes
    → (f.size_bytes - 49) / step ≡ n
    → n < 2 ^ 32
    → last ≡ (n + 2 ^ 32 - 1) % 2 ^ 32
    → time_in f n 0 ≡ (moved f k, start)
    → time_in (moved f k) n last ≡ (moved f l, end)
    → index_of f ≡ record { file = moved f l; records_cnt = n; start_ns = start; end_ns = end }
unfolding index_of
index_of-fixed f h n last start end k l step eh hs st small large count few el e1 e2 = ground arith

open_stream-inline :
    (world : ReaderWorld) (path : Text) (ext_pos : ℕ) (index : IndexFileReader)
    → world.is_regular path ≡ true
    → find_text idx_extension path ≡ some ext_pos
    → open_index (world.disk path) world.beyond_index ≡ index
    → index.records_cnt ≢ 0
    → fixed_size index ≡ true
    → open_stream world path ≡ record { index = some index; payloads = none; status = healthy }
unfolding open_stream
open_stream-inline world path ext_pos index reg found ei nz fixed = ground arith

module _ {ih ib : Text} {size : ℕ} {ps : List Piece} (held : HoldsFixed ih size ib ps)
    (h : LogFileHeader) (v : IsHeader h) (ih_is : ih ≡ encode_header h) (hs : h.header_size ≡ 49)
    (rs : h.record_size ≡ size) (some_size : 0 < size) (type : h.file_type ≡ 1)
    (ib_small : length ib < 2 ^ 32) (sizes : All (λ (q : Piece). length q.payload ≡ size) ps) where
  ih_size : length ih ≡ 49
  ih_size = ap length ih_is ∙ length-encode_header h v.name

  stride_is : stride h ≡ 8 + size
  stride_is = ground (arith, rs, some_size)

  length-file : length ib ≡ 49 + (length held.tail + length ps * (8 + size))
  length-file = omega (
    arith,
    ap length held.split,
    length-append ih (fixed_image ps ++ held.tail),
    length-append (fixed_image ps) held.tail,
    length-fixed_image-records size ps sizes,
    ih_size,
  )

  counted : (length ib - 49) / (8 + size) ≡ length ps
  counted =
      ap (λ (k : ℕ). k / (8 + size)) {y = length held.tail + length ps * (8 + size)}
        (omega (arith, length-file))
      ∙ count_records (length ps) (8 + size) (length held.tail) held.short

  ready_count :
      (f : FileReader)
      → f.header ≡ some h
      → f.stream.bytes ≡ ib
      → f.stream.failed ≡ false
      → FixedReady ib size (length ps) (with_count f (length ps))
  ready_count f eh eb alive = record {
    header = h;
    header_is = eh;
    header_size = hs;
    record_size = rs;
    some_size = some_size;
    file_type = type;
    stream_bytes = eb;
    alive = alive;
    count = refl;
  }

  time_at :
      (f : FileReader) (i : ℕ) (p : Piece)
      → f.header ≡ some h
      → f.stream.bytes ≡ ib
      → f.stream.failed ≡ false
      → get_elem? ps i ≡ some p
      → p.time_ns < 256 ^ 8
      → time_in f (length ps) i ≡ (moved f (49 + i * (8 + size) + 8), p.time_ns)
  time_at f i p eh eb alive at fits =
      time_in-of f (length ps) i p.time_ns (49 + i * (8 + size) + 8) (
        time_of-fixed held ih_size ib_small sizes i p at (with_count f (length ps))
          (ready_count f eh eb alive) fits)

  -- For a file below 4 GiB that holds the encoded header of a channel of fixed size records, at
  -- least one record and less than one record's worth of bytes behind the records, where the first
  -- and the last time fit their fields: `StreamReader` opened on it is healthy and ready to read
  -- all its records.
  pub open_stream-FixedStreamReady :
      (world : ReaderWorld) (path : Text) (ext_pos n : ℕ) (first last : Piece)
      → world.is_regular path ≡ true
      → find_text idx_extension path ≡ some ext_pos
      → world.disk path ≡ readable_file ib
      → length ps ≡ suc n
      → get_elem? ps 0 ≡ some first
      → get_elem? ps n ≡ some last
      → first.time_ns < 256 ^ 8
      → last.time_ns < 256 ^ 8
      → FixedStreamReady ib size (length ps) (open_stream world path)
  unfolding open_index
  open_stream-FixedStreamReady world path ext_pos n first last reg found disk en e0 e1 t0 t1 =
      subst (FixedStreamReady ib size (length ps))
        (sym (
          open_stream-inline world path ext_pos index reg found
            (ap (λ d. open_index d world.beyond_index) disk ∙ ap index_of opens ∙ counts)
            (omega (arith, en)) (reads_inline index ready)))
        (record { index = index; index_is = refl; status_is = refl; ready = ready })
    where
      f : FileReader
      f = opened ib h world.beyond_index

      few : length ps < 2 ^ 32
      few = few_records held ih_size ib_small sizes

      k : ℕ
      k = 49 + 0 * (8 + size) + 8

      l : ℕ
      l = 49 + n * (8 + size) + 8

      index : IndexFileReader
      index = record {
        file = moved f l;
        records_cnt = length ps;
        start_ns = first.time_ns;
        end_ns = last.time_ns;
      }

      ready : FixedReady ib size (length ps) index
      ready = record {
        header = h;
        header_is = refl;
        header_size = hs;
        record_size = rs;
        some_size = some_size;
        file_type = type;
        stream_bytes = refl;
        alive = refl;
        count = refl;
      }

      opens : open_reader (readable_file ib) world.beyond_index ≡ f
      opens =
          open_reader-opened h (fixed_image ps ++ held.tail) ib world.beyond_index v
            (held.split ∙ ap (λ b. b ++ (fixed_image ps ++ held.tail)) ih_is) ib_small

      counts : index_of f ≡ index
      counts =
          index_of-fixed f h (length ps) n first.time_ns last.time_ns k l (8 + size) refl hs
            stride_is ib_small (omega (arith, length-file)) counted few (omega (arith, en, few))
            (time_at f 0 first refl refl refl e0 t0)
            (time_at (moved f k) n last refl refl refl e1 t1)
