-- ===== src/Reader/Linked.antt =====
-- Reading back what the writer has left in two linked files.
use tracebox.Prelude.{
  ℕ, ◌+◌, ◌*◌, ◌^◌, ◌<◌, ◌≡◌, ◌≢◌, refl, sym, ap, ◌∙◌, false, List, ◌++◌, some, arith, length, take,
  drop, subst, length-append, get_elem?,
}
use tracebox.Bytes.{Text, of_le_bytes}
use tracebox.StreamWriter.Images.{
  Piece, data_record, index_entry, data_image, index_image, data_bytes, length-index_image,
  length-data_image,
}
use tracebox.StreamWriter.Linked.{Readable}
use tracebox.Reader.FileReader.{FileReader}
use tracebox.Reader.IndexFile.{IndexFileReader, time_of, read_offset, fixed_size}
use tracebox.Reader.DataFile.{DataPiece, read_data}
use tracebox.Reader.StreamReader.{StreamReader, healthy, read_stream, read_linked}
use tracebox.Reader.Slices.{
  LiesAt, LiesAt-header, index_entry-LiesAt, data_record-LiesAt, bytes_before, bytes_before-le,
  lt_length,
}
use tracebox.Reader.Entries.{
  moved, IndexReady, DataReady, time_of-found, read_offset-found, IndexReady-moved, not-fixed_size,
  entry_time, entry_offset,
}
use tracebox.Reader.Records.{Fits, sent, read_data-found, DataReady-moved}

-- A healthy stream reader over the two files, with `n` records.
pub record StreamReady (ib db : Text) (n : ℕ) (s : StreamReader) : Type 0 where
  pub index : IndexFileReader
  pub payloads : FileReader
  pub index_is : s.index ≡ some index
  pub payloads_is : s.payloads ≡ some payloads
  pub status_is : s.status ≡ healthy
  pub index_ready : IndexReady ib n index
  pub data_ready : DataReady db payloads

-- The path through `read` of a stream with a data file.
read_stream-path :
    (s : StreamReader) (index : IndexFileReader) (payloads : FileReader) (i : ℕ)
    → s.index ≡ some index
    → s.payloads ≡ some payloads
    → s.status ≡ healthy
    → (time_of index i).1 ≢ 0
    → fixed_size (time_of index i).0 ≡ false
    → read_stream s i ≡ read_linked s (time_of index i).0 payloads i
unfolding read_stream
read_stream-path s index payloads i ei ep h t fixed = ground arith

read_linked-found :
    (s : StreamReader) (index index' : IndexFileReader) (payloads payloads' : FileReader)
    (i offset size : ℕ) (piece : DataPiece)
    → i < 2 ^ 32
    → read_offset index i ≡ (index', offset)
    → offset ≢ 0
    → read_data payloads offset ≡ (payloads', size, some piece)
    → read_linked s index payloads i
      ≡ (record s { index = some index'; payloads = some payloads' }, some piece)
unfolding read_linked
read_linked-found s index index' payloads payloads' i offset size piece h eo nz ed = ground arith

module _ {ih dh ib db : Text} {ps : List Piece} (r : Readable ih dh ib db ps)
    (ih_size : length ih ≡ 49) (dh_size : length dh ≡ 49) (ib_small : length ib < 2 ^ 32)
    (db_small : length db < 2 ^ 32) where
  pub length-index : length ib ≡ 49 + 12 * length ps + length r.tail
  length-index = omega (
    arith,
    ap length r.index_split,
    length-append ih (index_image 49 ps ++ r.tail),
    length-append (index_image 49 ps) r.tail,
    length-index_image 49 ps,
    ih_size,
  )

  pub length-data : length db ≡ 49 + data_bytes ps + length r.junk
  length-data = omega (
    arith,
    ap length r.data_split,
    length-append dh (data_image ps ++ r.junk),
    length-append (data_image ps) r.junk,
    length-data_image ps,
    dh_size,
  )

  module _ (i : ℕ) (p : Piece) (at : get_elem? ps i ≡ some p) where
    pub entry_at : LiesAt ib (49 + 12 * i) (index_entry (49 + bytes_before ps i) p)
    entry_at =
        subst (λ b. LiesAt b (49 + 12 * i) (index_entry (49 + bytes_before ps i) p))
          (sym r.index_split)
          (LiesAt-header ih _ (12 * i) _ ih_size (index_entry-LiesAt 49 ps i p r.tail at))

    record_at : LiesAt db (49 + bytes_before ps i) (data_record p)
    record_at =
        subst (λ b. LiesAt b (49 + bytes_before ps i) (data_record p)) (sym r.data_split)
          (LiesAt-header dh _ (bytes_before ps i) _ dh_size (data_record-LiesAt ps i p r.junk at))

    -- Each index entry leads to its record, whatever lies behind the records.
    pub read_stream-found :
        (s : StreamReader)
        → StreamReady ib db (length ps) s
        → Fits p
        → p.time_ns ≢ 0
        → (s' : StreamReader) × (read_stream s i ≡ (s', some (sent p)))
          × StreamReady ib db (length ps) s'
    read_stream-found s v ok nz = (
      record s { index = some index2; payloads = some payloads2 },
      read_stream-path s v.index v.payloads i v.index_is v.payloads_is v.status_is
            (subst (λ (x : IndexFileReader × ℕ). x.1 ≢ 0) (sym time_is)
              (λ e. nz (sym time_value ∙ e)))
            (subst (λ (x : IndexFileReader × ℕ). fixed_size x.0 ≡ false) (sym time_is)
              (not-fixed_size index1 ready1))
          ∙ ap (λ (x : IndexFileReader × ℕ). read_linked s x.0 v.payloads i) time_is
          ∙ read_linked-found s index1 index2 v.payloads payloads2 i (49 + bytes_before ps i)
              (length p.payload) (sent p) (omega (arith, inside, length-index))
              (offset_is ∙ ap (λ (o : ℕ). (index2, o)) offset_value) (omega arith) data_is,
      record {
        index = index2;
        payloads = payloads2;
        index_is = refl;
        payloads_is = refl;
        status_is = v.status_is;
        index_ready = IndexReady-moved index1 ready1 _;
        data_ready = DataReady-moved v.payloads 0 _ v.data_ready;
      },
    )
      where
        inside : i < length ps
        inside = lt_length ps i at

        index1 : IndexFileReader
        index1 = record (v.index) { file = moved v.index.file (49 + 12 * i + 8) }

        ready1 : IndexReady ib (length ps) index1
        ready1 = IndexReady-moved v.index v.index_ready (49 + 12 * i + 8)

        index2 : IndexFileReader
        index2 = record index1 { file = moved index1.file (49 + 12 * i + 12) }

        payloads2 : FileReader
        payloads2 = moved v.payloads (49 + bytes_before ps i + 12 + length p.payload)

        time_is : time_of v.index i ≡ (index1, of_le_bytes (take 8 (drop (49 + 12 * i) ib)))
        time_is =
            time_of-found v.index v.index_ready i inside (omega (arith, length-index, inside))
              (omega (arith, length-index, inside)) ib_small

        time_value : of_le_bytes (take 8 (drop (49 + 12 * i) ib)) ≡ p.time_ns
        time_value = entry_time ib (49 + 12 * i) (49 + bytes_before ps i) p ok.time entry_at

        offset_is :
            read_offset index1 i
            ≡ (index2, of_le_bytes (take 4 (drop 8 (take 12 (drop (49 + 12 * i) ib)))))
        offset_is =
            read_offset-found index1 ready1 i inside (omega (arith, length-index, inside)) ib_small

        offset_value :
            of_le_bytes (take 4 (drop 8 (take 12 (drop (49 + 12 * i) ib)))) ≡ 49 + bytes_before ps i
        offset_value =
            entry_offset ib (49 + 12 * i) (49 + bytes_before ps i) p
              (omega (arith, bytes_before-le ps i p at, length-data)) entry_at

        data_is :
            read_data v.payloads (49 + bytes_before ps i)
            ≡ (payloads2, length p.payload, some (sent p))
        data_is =
            read_data-found v.payloads (49 + bytes_before ps i) p v.data_ready ok (omega arith)
              db_small record_at
