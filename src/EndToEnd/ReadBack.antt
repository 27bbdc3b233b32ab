-- ===== src/EndToEnd/ReadBack.antt =====
-- A record that `StreamWriter::write` has flushed, as `StreamReader` finds it in the files.
use tracebox.Prelude.{
  ℕ, suc, ◌+◌, ◌^◌, ◌<◌, ◌≡◌, ◌≢◌, refl, sym, ap, true, false, List, [], ◌∷◌, ◌++◌, some, arith,
  length, length-append, get_elem?, take_all, subst,
}
use tracebox.Bytes.{Text}
use tracebox.Format.{encode_header}
use tracebox.FileIo.{File, on_device}
use tracebox.StreamWriter.{
  StreamWriter, World, returned, eio, header_of, write, flush_is_due, size32,
}
use tracebox.StreamWriter.Images.{Piece, data_bytes, record_bytes}
use tracebox.StreamWriter.Linked.{Readable, Linked}
use tracebox.StreamWriter.Append.{Appended, stored, failed, failed_behind, write-Appended}
use tracebox.StreamWriter.Commit.{IsFlushed}
use tracebox.Reader.StreamReader.{StreamReader, ReaderWorld, open_stream, read_stream}
use tracebox.Reader.Records.{Fits, sent}
use tracebox.EndToEnd.{OnDisk, IsNamed, open_stream-linked, read_stream-linked}

get_elem?-snoc : (ps : List Piece) (p : Piece) → get_elem? (ps ++ p ∷ []) (length ps) ≡ some p
get_elem?-snoc [] p = refl
get_elem?-snoc (q ∷ ps) p = get_elem?-snoc ps p

length-snoc : (ps : List Piece) (p : Piece) → length (ps ++ p ∷ []) ≡ suc (length ps)
length-snoc ps p = omega (arith, length-append ps (p ∷ []))

same_bytes :
    {reader : ReaderWorld} {path ib jb db eb : Text}
    → ib ≡ jb
    → db ≡ eb
    → OnDisk reader path ib db
    → OnDisk reader path jb eb
same_bytes {reader} {path} {ib} {jb} {db} {eb} x y on =
    subst (λ t. OnDisk reader path t eb) x (subst (λ t. OnDisk reader path ib t) y on)

module _ (w : StreamWriter) (time_ns : ℕ) (v : IsNamed w time_ns) (reader : ReaderWorld)
    (path : Text) (ps : List Piece) (p first : Piece)
    (starts : get_elem? (ps ++ p ∷ []) 0 ≡ some first) (fits_first : Fits first) (fits : Fits p)
    (some_time : p.time_ns ≢ 0) where
  abbrev ih : Text
  ih = encode_header (header_of w time_ns 1)

  abbrev dh : Text
  dh = encode_header (header_of w time_ns 2)

  abbrev ReadsBack : Type 0
  ReadsBack =
      (s : StreamReader) × (read_stream (open_stream reader path) (length ps) ≡ (s, some (sent p)))

  -- In files that hold the record at the end, it is found.
  last_found :
      {ib db : Text} → Readable ih dh ib db (ps ++ p ∷ []) → OnDisk reader path ib db → ReadsBack
  last_found r on =
      let ready =
        open_stream-linked w time_ns v r reader path on (length ps) first p (length-snoc ps p)
          starts (get_elem?-snoc ps p) fits_first fits in
      let (s, e, _) =
        read_stream-linked w time_ns v r reader path on (open_stream reader path) ready (length ps)
          p (get_elem?-snoc ps p) fits some_time in
      (s, e)

  -- What a flushed stream was handed is what its file holds.
  flushed_found :
      (j e : File)
      → Readable ih dh j.bytes e.bytes (ps ++ p ∷ [])
      → IsFlushed j
      → IsFlushed e
      → OnDisk reader path (on_device j) (on_device e)
      → ReadsBack
  flushed_found j e r fj fe on =
      last_found r (same_bytes (take_all j.written j.bytes fj) (take_all e.written e.bytes fe) on)

  -- On a channel of variable length records whose two streams were handed a linked index and data,
  -- with a name shorter than 32 bytes, room for the record below 4 GiB in the offset and the data,
  -- and no fault injected: when `write` is to flush and does not return -EIO, `StreamReader` opened
  -- on what the two files themselves then hold, if both are below 4 GiB, reads exactly the time and
  -- payload of the record, at the index behind the records that were there; provided that this
  -- record and the first one fit their fields and its time is not 0.
  pub write-read_back :
      (world : World) (u : StreamWriter) (i d j e : File)
      → Linked ih dh u i d ps
      → u.offset + (24 + size32 p.payload) < 2 ^ 32
      → 49 + data_bytes ps + record_bytes p < 2 ^ 32
      → u.throws ≡ false
      → flush_is_due u.last_flush world.now ≡ true
      → (write world u p.time_ns p.payload).1 ≢ returned eio
      → (write world u p.time_ns p.payload).0.index ≡ some j
      → (write world u p.time_ns p.payload).0.payloads ≡ some e
      → OnDisk reader path (on_device j) (on_device e)
      → (s : StreamReader) × (read_stream (open_stream reader path) (length ps)
          ≡ (s, some (sent p)))
  write-read_back world u i d j e l space room calm due success at_j at_e on =
      by_result (write-Appended ih dh world u i d ps p l space room calm)
    where
      by_result :
          Appended ih dh i d
            (flush_is_due u.last_flush world.now)
            ps
            p
            0
            (write world u p.time_ns p.payload)
          → ReadsBack
      by_result (stored j' e' gi gd l' good flush q) =
          let same_j : j' ≡ j = cc (l'.index_is, at_j) in
          let same_e : e' ≡ e = cc (l'.payloads_is, at_e) in
          flushed_found j' e' l'.readable (flush due).0 (flush due).1
            (same_bytes (ap on_device (sym same_j)) (ap on_device (sym same_e)) on)
      by_result (failed j' e' gi gd l' bad q) = absurd (success q)
      by_result (failed_behind j' e' gi gd l' bad q) = absurd (success q)
