-- ===== src/StreamWriter/Fault.antt =====
-- The fault injector throws between the data record and its index entry.
use tracebox.Prelude.{
  ◌≤◌, ◌+◌, ◌^◌, ◌<◌, ◌≡◌, refl, sym, Bool, true, false, ◌⊎◌, inl, inr, List, ◌++◌, some,
  if◌then◌else◌, subst, int32, ◌%◌,
}
use tracebox.Bytes.{Text}
use tracebox.FileIo.{File}
use tracebox.StreamWriter.{
  StreamWriter, World, Outcome, returned, raises, eio, commit, record_chunks, size32,
  append_variable, write, flush_is_due, entry_chunks,
}
use tracebox.StreamWriter.Commit.{whole, torn, WritesPair, commit-Writes, joined}
use tracebox.StreamWriter.Images.{Piece}
use tracebox.StreamWriter.Linked.{
  Readable, Linked, Grew, Grew-refl, InFiles, InFiles-Grew, grow_junk,
}
use tracebox.StreamWriter.Append.{write-append}

-- What is left behind: the index file and its stream as they were; a data stream that was handed
-- more, with the old records still where the index says; and the records `kept` in the two files
-- themselves.
pub record Survives (ih dh : Text) (i d : File) (ps kept : List Piece) (w : StreamWriter)
    : Type 0 where
  pub data_file : File
  pub index_is : w.index ≡ some i
  pub payloads_is : w.payloads ≡ some data_file
  pub grew : Grew d data_file
  pub readable : Readable ih dh i.bytes data_file.bytes ps
  pub in_files : InFiles ih dh i data_file kept

-- When the fault injector throws between the data record and its index entry, on linked streams
-- with room for the record: the call has thrown or returned -EIO, the index file and its stream are
-- as they were, the data stream was only handed more, what the two streams were handed is still
-- readable as the old records, and those records that were in the two files are still there.
pub write-Survives :
    (ih dh : Text) (world : World) (w : StreamWriter) (i d : File) (ps kept : List Piece)
    (p : Piece)
    → Linked ih dh w i d ps
    → InFiles ih dh i d kept
    → w.offset + (24 + size32 p.payload) < 2 ^ 32
    → w.throws ≡ true
    → let (w', out) = write world w p.time_ns p.payload in
      Survives ih dh i d ps kept w' × ((out ≡ raises) ⊎ (out ≡ returned eio))
unfolding append_variable
write-Survives ih dh world w i d ps held p l v fits throws =
    subst (λ r. Survives ih dh i d ps held r.0 × ((r.1 ≡ raises) ⊎ (r.1 ≡ returned eio)))
      (sym (
        write-append world w p.time_ns p.payload l.index_is l.payloads_is l.index_open
          l.payloads_open l.variable fits))
      (by_data _ (commit-Writes d _ _ _ l.payloads_open))
  where
    next : File → StreamWriter × Outcome
    next e =
        let (j, entered) =
          commit i (flush_is_due w.last_flush world.now) (entry_chunks p.time_ns w.offset) in
        if entered
        then (
          record w {
            payloads = some e;
            index = some j;
            offset = (w.offset + (8 + 4 + size32 p.payload)) % 2 ^ 32;
          },
          returned (int32 (0 + (24 + size32 p.payload))),
        )
        else (record w { payloads = some e; index = some j }, returned eio)

    after : File × Bool → StreamWriter × Outcome
    after (e, stored) =
        if stored
        then (if w.throws then (record w { payloads = some e }, raises) else next e)
        else (record w { payloads = some e }, returned eio)

    survives :
        (e : File) (t : Text)
        → e.bytes ≡ d.bytes ++ t
        → d.written ≤ e.written
        → Survives ih dh i d ps held (record w { payloads = some e })
    survives e t s k = record {
      data_file = e;
      index_is = l.index_is;
      payloads_is = refl;
      grew = record { more = t; bytes = s; kept = k };
      readable = grow_junk t e.bytes l.readable s;
      in_files = InFiles-Grew v (Grew-refl i) (record { more = t; bytes = s; kept = k });
    }

    by_data :
        (q : File × Bool)
        → WritesPair d (joined (record_chunks p.time_ns p.payload)) q
        → Survives ih dh i d ps held (after q).0
          × (((after q).1 ≡ raises) ⊎ ((after q).1 ≡ returned eio))
    by_data (e, true) (whole rep dg ee eg eo kept) =
        subst
          (λ b.
            let r : StreamWriter × Outcome =
              if b then (record w { payloads = some e }, raises) else next e in
            Survives ih dh i d ps held r.0 × ((r.1 ≡ raises) ⊎ (r.1 ≡ returned eio)))
          (sym throws) (survives e _ ee kept, inl refl)
    by_data (e, false) (whole rep dg ee eg eo kept) = cc
    by_data (e, true) (torn t u rep s ee eg eo quiet kept) = cc
    by_data (e, false) (torn t u rep s ee eg eo quiet kept) = (survives e t ee kept, inr refl)
