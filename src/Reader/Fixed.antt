-- ===== src/Reader/Fixed.antt =====
-- The readers over the file of a channel of fixed size records.
use tracebox.Prelude.{
  ℕ, zero, suc, ◌+◌, ◌*◌, ◌%◌, ◌^◌, ◌<◌, ◌≤◌, ◌≡◌, ◌≢◌, refl, sym, ap, ◌∙◌, true, false, List, [],
  ◌∷◌, ◌++◌, some, arith, length, length-append, take, drop, get_elem?, append_assoc, All, subst,
  drop-drop, drop-append, take-append,
}
use mathlib.Core.Option.{some-injective}
use tracebox.Bytes.{Text, le_bytes, of_le_bytes, of_le_bytes-le_bytes, length-le_bytes}
use tracebox.Format.{LogFileHeader}
use tracebox.StreamWriter.Images.{Piece}
use tracebox.StreamWriter.Fixed.{fixed_record, fixed_image, HoldsFixed}
use tracebox.Reader.IfStream.{seek, read_bytes}
use tracebox.Reader.FileReader.{FileReader}
use tracebox.Reader.IndexFile.{
  IndexFileReader, read_at, select_record, stride, time_in, time_of, read_payload, fixed_size,
}
use tracebox.Reader.Slices.{LiesAt, LiesAt-take, LiesAt-fits, LiesAt-header, lt_length, behind}
use tracebox.Reader.Entries.{moved}
use tracebox.Reader.Records.{sent}
use tracebox.Reader.StreamReader.{StreamReader, healthy, read_stream, read_inline}

pub mul_step : (i k : ℕ) → suc i * k ≡ k + i * k
mul_step i k = omega arith

pub length-fixed_record :
    (size : ℕ) (p : Piece) → length p.payload ≡ size → length (fixed_record p) ≡ 8 + size
length-fixed_record size p e =
    omega (arith, length-append (le_bytes 8 p.time_ns) p.payload, length-le_bytes 8 p.time_ns, e)

-- Where record `i` lies.
fixed_record-LiesAt :
    (size : ℕ) (ps : List Piece) (i : ℕ) (p : Piece) (tail : Text)
    → All (λ (q : Piece). length q.payload ≡ size) ps
    → get_elem? ps i ≡ some p
    → LiesAt (fixed_image ps ++ tail) (i * (8 + size)) (fixed_record p)
fixed_record-LiesAt size [] i p tail sizes at = cc
fixed_record-LiesAt size (q ∷ ps) zero p tail sizes at = (
  fixed_image ps ++ tail,
  ap (λ (n : ℕ). drop n ((fixed_record q ++ fixed_image ps) ++ tail)) {y = 0} (omega arith)
      ∙ append_assoc (fixed_record q) (fixed_image ps) tail
      ∙ ap (λ x. fixed_record x ++ (fixed_image ps ++ tail)) (some-injective _ _ at),
)
fixed_record-LiesAt size (q ∷ ps) (suc i) p tail sizes at =
    subst (λ b. LiesAt b (suc i * (8 + size)) (fixed_record p))
      (sym (append_assoc (fixed_record q) (fixed_image ps) tail))
      (subst (λ n. LiesAt (fixed_record q ++ (fixed_image ps ++ tail)) n (fixed_record p))
        (sym (mul_step i (8 + size)))
        (behind (fixed_record q) (fixed_image ps ++ tail) (8 + size) (i * (8 + size))
          (fixed_record p) (length-fixed_record size q sizes.0)
          (fixed_record-LiesAt size ps i p tail sizes.1 at)))

-- An index reader over `n` records of `size` bytes.
pub record FixedReady (bytes : Text) (size n : ℕ) (r : IndexFileReader) : Type 0 where
  pub header : LogFileHeader
  pub header_is : r.file.header ≡ some header
  pub header_size : header.header_size ≡ 49
  pub record_size : header.record_size ≡ size
  pub some_size : 0 < size
  pub file_type : header.file_type ≡ 1
  pub stream_bytes : r.file.stream.bytes ≡ bytes
  pub alive : r.file.stream.failed ≡ false
  pub count : r.records_cnt ≡ n

read_at-at :
    (f : FileReader) (h : LogFileHeader) (index n position : ℕ)
    → f.stream.failed ≡ false
    → h.header_size + index * stride h ≡ position
    → position + n ≤ length f.stream.bytes
    → length f.stream.bytes < 2 ^ 32
    → read_at f h index n ≡ (moved f (position + n), some (take n (drop position f.stream.bytes)))
unfolding read_at select_record seek read_bytes
read_at-at f h index n position alive e fits small = ground arith

module _ {bytes : Text} {size n : ℕ} (r : IndexFileReader) (v : FixedReady bytes size n r) where
  record_at :
      (i position : ℕ)
      → 49 + i * (8 + size) ≡ position
      → v.header.header_size + i * stride v.header ≡ position
  record_at i position e = omega (arith, v.header_size, ap (λ (k : ℕ). i * k) stride_is, e)
    where
      stride_is : stride v.header ≡ 8 + size
      stride_is = ground (arith, v.record_size, v.some_size)

  time_of-at :
      (i position : ℕ)
      → i < n
      → n < 2 ^ 32
      → 49 + i * (8 + size) ≡ position
      → position + 8 ≤ length bytes
      → length bytes < 2 ^ 32
      → time_of r i ≡ (
        record r { file = moved r.file (position + 8) },
        of_le_bytes (take 8 (drop position bytes)),
      )
  unfolding time_of time_in
  time_of-at i position h nb e fits small = ground (
    arith,
    read_at-at r.file v.header (i % 2 ^ 32) 8 position,
    record_at i position e,
    v.stream_bytes,
  )

  read_payload-at :
      (i position : ℕ)
      → i < n
      → 49 + i * (8 + size) ≡ position
      → position + 8 + size ≤ length bytes
      → length bytes < 2 ^ 32
      → read_payload r i ≡ (
        record r { file = moved r.file (position + 8 + size) },
        some (take size (drop (position + 8) bytes)),
      )
  unfolding read_payload read_bytes
  read_payload-at i position h e fits small =
      ground
        (arith, read_at-at r.file v.header i 8 position, record_at i position e, v.stream_bytes)

-- A healthy stream reader over the file, with `n` records.
pub record FixedStreamReady (bytes : Text) (size n : ℕ) (s : StreamReader) : Type 0 where
  pub index : IndexFileReader
  pub index_is : s.index ≡ some index
  pub status_is : s.status ≡ healthy
  pub ready : FixedReady bytes size n index

FixedReady-moved :
    {bytes : Text} {size n : ℕ} (r : IndexFileReader) (position : ℕ)
    → FixedReady bytes size n r
    → FixedReady bytes size n (record r { file = moved r.file position })
FixedReady-moved r position v = record {
  header = v.header;
  header_is = v.header_is;
  header_size = v.header_size;
  record_size = v.record_size;
  some_size = v.some_size;
  file_type = v.file_type;
  stream_bytes = v.stream_bytes;
  alive = v.alive;
  count = v.count;
}

-- The path through `read` of a stream without a data file.
read_stream-inline :
    (s : StreamReader) (index index' index'' : IndexFileReader) (i time : ℕ) (payload : Text)
    → s.index ≡ some index
    → s.status ≡ healthy
    → time_of index i ≡ (index', time)
    → time ≢ 0
    → fixed_size index' ≡ true
    → i < 2 ^ 32
    → read_payload index' i ≡ (index'', some payload)
    → read_stream s i ≡ (
      record s { index = some index'' },
      some (record { time_ns = time; payload = payload; stream_idx = 0 }),
    )
unfolding read_stream read_inline
read_stream-inline s index index' index'' i time payload ei h et nz fixed small ep = ground arith

pub reads_inline :
    {bytes : Text} {size n : ℕ} (r : IndexFileReader)
    → FixedReady bytes size n r
    → fixed_size r ≡ true
unfolding fixed_size
reads_inline r v = ground (arith, v.header_is, v.record_size, v.some_size)

length-fixed_image : (ps : List Piece) → length ps ≤ length (fixed_image ps)
length-fixed_image [] = omega arith
length-fixed_image (p ∷ ps) = omega (
  arith,
  length-append (fixed_record p) (fixed_image ps),
  length-fixed_image ps,
  length-append (le_bytes 8 p.time_ns) p.payload,
  length-le_bytes 8 p.time_ns,
)

size_of :
    {size : ℕ} (ps : List Piece) (i : ℕ) (p : Piece)
    → All (λ (q : Piece). length q.payload ≡ size) ps
    → get_elem? ps i ≡ some p
    → length p.payload ≡ size
size_of [] i p sizes at = cc
size_of (q ∷ ps) zero p sizes at =
    ap (λ (x : Piece). length x.payload) (sym (some-injective _ _ at)) ∙ sizes.0
size_of (q ∷ ps) (suc i) p sizes at = size_of ps i p sizes.1 at

module _ {ih ib : Text} {size : ℕ} {ps : List Piece} (h : HoldsFixed ih size ib ps)
    (ih_size : length ih ≡ 49) (ib_small : length ib < 2 ^ 32)
    (sizes : All (λ (q : Piece). length q.payload ≡ size) ps) where
  pub few_records : length ps < 2 ^ 32
  few_records = omega (
    arith,
    ib_small,
    ap length h.split,
    length-append ih (fixed_image ps ++ h.tail),
    length-append (fixed_image ps) h.tail,
    length-fixed_image ps,
  )

  module _ (i : ℕ) (p : Piece) (at : get_elem? ps i ≡ some p) where
    lies : LiesAt ib (49 + i * (8 + size)) (fixed_record p)
    lies =
        subst (λ b. LiesAt b (49 + i * (8 + size)) (fixed_record p)) (sym h.split)
          (LiesAt-header ih (fixed_image ps ++ h.tail) (i * (8 + size)) (fixed_record p) ih_size
            (fixed_record-LiesAt size ps i p h.tail sizes at))

    fits : 49 + i * (8 + size) + (8 + size) ≤ length ib
    fits =
        let whole = length-fixed_record size p (size_of ps i p sizes at) in
        omega (
          arith,
          whole,
          LiesAt-fits ib (49 + i * (8 + size)) (fixed_record p) lies (omega (arith, whole)),
        )

    -- The time of a record, of a reader that is ready for the file.
    pub time_of-fixed :
        (r : IndexFileReader)
        → FixedReady ib size (length ps) r
        → p.time_ns < 256 ^ 8
        → time_of r i ≡ (record r { file = moved r.file (49 + i * (8 + size) + 8) }, p.time_ns)
    time_of-fixed r v time =
        time_of-at r v i (49 + i * (8 + size)) (lt_length ps i at) few_records refl
          (omega (arith, fits)) ib_small
        ∙ ap (λ (t : ℕ). (record r { file = moved r.file (49 + i * (8 + size) + 8) }, t))
            (ap of_le_bytes (
                LiesAt-take ib (49 + i * (8 + size)) 8 (le_bytes 8 p.time_ns) p.payload
                  (length-le_bytes 8 p.time_ns) lies)
              ∙ of_le_bytes-le_bytes 8 p.time_ns time)

    payload_at : take size (drop (49 + i * (8 + size) + 8) ib) ≡ p.payload
    payload_at =
        ap (take size) (
          drop-drop (49 + i * (8 + size)) 8 ib
          ∙ ap (drop 8) (lies.1 ∙ append_assoc (le_bytes 8 p.time_ns) p.payload lies.0)
          ∙ drop-append 8 (le_bytes 8 p.time_ns) (p.payload ++ lies.0)
              (length-le_bytes 8 p.time_ns))
        ∙ take-append size p.payload lies.0 (size_of ps i p sizes at)

    -- For a file below 4 GiB that holds a header of 49 bytes and the records of a channel of fixed
    -- size, in the form of what `write` hands to its stream: a healthy stream reader on it reads
    -- each record whose time fits its field and is not 0 with exactly its time and payload, and
    -- stays as ready as before.
    pub read_stream-fixed :
        (s : StreamReader)
        → FixedStreamReady ib size (length ps) s
        → p.time_ns < 256 ^ 8
        → p.time_ns ≢ 0
        → (s' : StreamReader) × (read_stream s i ≡ (s', some (sent p)))
          × FixedStreamReady ib size (length ps) s'
    read_stream-fixed s v time nz = (
      record s { index = some index2 },
      read_stream-inline s v.index index1 index2 i p.time_ns p.payload v.index_is v.status_is
          (time_of-fixed v.index v.ready time) nz (reads_inline index1 ready1)
          (omega (arith, lt_length ps i at, few_records))
          (read_payload-at index1 ready1 i position (lt_length ps i at) refl (omega (arith, fits))
              ib_small
            ∙ ap (λ t. (index2, some t)) payload_at),
      record {
        index = index2;
        index_is = refl;
        status_is = v.status_is;
        ready = FixedReady-moved index1 _ ready1;
      },
    )
      where
        position : ℕ
        position = 49 + i * (8 + size)

        index1 : IndexFileReader
        index1 = record (v.index) { file = moved v.index.file (position + 8) }

        ready1 : FixedReady ib size (length ps) index1
        ready1 = FixedReady-moved v.index (position + 8) v.ready

        index2 : IndexFileReader
        index2 = record index1 { file = moved index1.file (position + 8 + size) }
