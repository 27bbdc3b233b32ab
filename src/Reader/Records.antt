-- ===== src/Reader/Records.antt =====
-- The data reader at the offset of a record, and the stream reader over two linked files.
use tracebox.Prelude.{
  ℕ, ◌+◌, ◌^◌, ◌<◌, ◌≤◌, ◌≡◌, refl, sym, ap, ◌∙◌, false, ◌++◌, some, arith, length, take, drop,
  append_assoc, subst, length-append, take_all, take-append, drop-append, drop-drop,
}
use tracebox.Bytes.{Text, le_bytes, of_le_bytes, of_le_bytes-le_bytes, length-le_bytes}
use tracebox.StreamWriter.{size32}
use tracebox.StreamWriter.Images.{Piece, data_record, length-data_record}
use tracebox.Reader.IfStream.{seek, read_bytes}
use tracebox.Reader.FileReader.{FileReader}
use tracebox.Reader.DataFile.{DataPiece, read_data, read_record}
use tracebox.Reader.Slices.{LiesAt, LiesAt-take, LiesAt-fits}
use tracebox.Reader.Entries.{moved, DataReady}

-- The piece that is sent to a client for the record `p`.
abbrev pub sent : Piece → DataPiece
sent p = record { time_ns = p.time_ns; payload = p.payload; stream_idx = 0 }

-- Each value fits its field of the record.
pub record Fits (p : Piece) : Type 0 where
  pub time : p.time_ns < 256 ^ 8
  pub size : length p.payload < 2 ^ 32

abbrev pub head_of : Piece → Text
head_of p = le_bytes 8 p.time_ns ++ le_bytes 4 (size32 p.payload)

pub length-head_of : (p : Piece) → length (head_of p) ≡ 12
length-head_of p = omega (
  arith,
  length-append (le_bytes 8 p.time_ns) (le_bytes 4 (size32 p.payload)),
  length-le_bytes 8 p.time_ns,
  length-le_bytes 4 (size32 p.payload),
)

data_record-split : (p : Piece) → Fits p → data_record p ≡ head_of p ++ p.payload
data_record-split p v =
    ap (λ t. le_bytes 8 p.time_ns ++ (le_bytes 4 (size32 p.payload) ++ t))
      (take_all (size32 p.payload) p.payload (omega (arith, v.size)))
    ∙ sym (append_assoc (le_bytes 8 p.time_ns) (le_bytes 4 (size32 p.payload)) p.payload)

head_of-time : (p : Piece) → Fits p → of_le_bytes (take 8 (head_of p)) ≡ p.time_ns
unfolding le_bytes
head_of-time p v = of_le_bytes-le_bytes 8 p.time_ns v.time

head_of-size : (p : Piece) → Fits p → of_le_bytes (take 4 (drop 8 (head_of p))) ≡ length p.payload
unfolding le_bytes
head_of-size p v = of_le_bytes-le_bytes 4 (size32 p.payload) (omega arith) ∙ omega (arith, v.size)

module _ (f : FileReader) (offset : ℕ) where
  -- `read` is a read of 12 bytes and then `read_record`.
  read_data-head :
      {bytes : Text}
      → DataReady bytes f
      → 49 ≤ offset
      → offset + 12 ≤ length bytes
      → length bytes < 2 ^ 32
      → read_data f offset
        ≡ read_record f
            (record f.stream { position = offset + 12 })
            offset
            (take 12 (drop offset bytes))
  unfolding read_data seek read_bytes
  read_data-head v lo fits small = ground (arith, v.stream_bytes)

  read_record-found :
      (head payload : Text) (size time : ℕ)
      → f.size_bytes ≡ length f.stream.bytes
      → f.stream.failed ≡ false
      → of_le_bytes (take 4 (drop 8 head)) ≡ size
      → of_le_bytes (take 8 head) ≡ time
      → offset + 12 + size ≤ length f.stream.bytes
      → length f.stream.bytes < 2 ^ 32
      → take size (drop (offset + 12) f.stream.bytes) ≡ payload
      → read_record f (record f.stream { position = offset + 12 }) offset head ≡ (
        moved f (offset + 12 + size),
        size,
        some (record { time_ns = time; payload = payload; stream_idx = 0 }),
      )
  unfolding read_record read_bytes
  read_record-found head payload size time fs alive es et fits small ep = ground arith

  -- A record that lies at `offset` is read whole.
  pub read_data-found :
      {bytes : Text} (p : Piece)
      → DataReady bytes f
      → Fits p
      → 49 ≤ offset
      → length bytes < 2 ^ 32
      → LiesAt bytes offset (data_record p)
      → read_data f offset
        ≡ (moved f (offset + 12 + length p.payload), length p.payload, some (sent p))
  read_data-found {bytes} p v ok lo small at =
      read_data-head v lo (omega (arith, fits, length-data_record p)) small
      ∙ ap (read_record f (record f.stream { position = offset + 12 }) offset) head_is
      ∙ read_record-found (head_of p) p.payload (length p.payload) p.time_ns
          (v.size ∙ ap length (sym v.stream_bytes)) v.alive (head_of-size p ok) (head_of-time p ok)
          (omega (arith, fits, length-data_record p, ok.size, ap length v.stream_bytes))
          (omega (arith, ap length v.stream_bytes, small))
          (ap (λ b. take (length p.payload) (drop (offset + 12) b)) v.stream_bytes ∙ payload_is)
    where
      fits : offset + length (data_record p) ≤ length bytes
      fits = LiesAt-fits bytes offset (data_record p) at (omega (arith, length-data_record p))

      split : LiesAt bytes offset (head_of p ++ p.payload)
      split = subst (LiesAt bytes offset) (data_record-split p ok) at

      head_is : take 12 (drop offset bytes) ≡ head_of p
      head_is = LiesAt-take bytes offset 12 (head_of p) p.payload (length-head_of p) split

      payload_is : take (length p.payload) (drop (offset + 12) bytes) ≡ p.payload
      payload_is =
          ap (take (length p.payload)) (
            drop-drop offset 12 bytes
            ∙ ap (drop 12) (split.1 ∙ append_assoc (head_of p) p.payload split.0)
            ∙ drop-append 12 (head_of p) (p.payload ++ split.0) (length-head_of p))
          ∙ take-append (length p.payload) p.payload split.0 refl

  pub DataReady-moved :
      {bytes : Text} (position : ℕ) → DataReady bytes f → DataReady bytes (moved f position)
  DataReady-moved position v = record {
    header = v.header;
    header_is = v.header_is;
    header_size = v.header_size;
    file_type = v.file_type;
    stream_bytes = v.stream_bytes;
    alive = v.alive;
    size = v.size;
  }
