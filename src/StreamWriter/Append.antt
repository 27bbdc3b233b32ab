-- ===== src/StreamWriter/Append.antt =====
-- `StreamWriter::write` on a channel of variable length records keeps the two files linked,
-- whatever the device answers.
use tracebox.Prelude.{
  ℕ, ◌≤◌, ◌+◌, ◌%◌, ◌^◌, ◌<◌, ◌≡◌, refl, sym, ap, ◌∙◌, Bool, true, false, ◌⊎◌, inl, inr, List, [],
  ◌∷◌, ◌++◌, append-nil, arith, some, length, length-append, int32, if◌then◌else◌, subst,
}
use tracebox.Bytes.{Text, le_bytes}
use tracebox.FileIo.{File}
use tracebox.StreamWriter.{
  StreamWriter, World, Outcome, returned, raises, eio, commit, record_chunks, entry_chunks, size32,
  append_variable, write_variable, write, flush_is_due,
}
use tracebox.StreamWriter.Commit.{
  whole, torn, WritesPair, commit-Writes, joined, IsFlushed, commit-IsFlushed,
}
use tracebox.StreamWriter.Images.{
  Piece, data_record, index_entry, data_bytes, record_bytes, data_bytes-snoc, length-index_entry,
}
use tracebox.StreamWriter.Linked.{
  Readable, Linked, grow_junk, part_of_entry, whole_entry, Grew, Grew-refl,
}

record_chunks-joined : (p : Piece) → joined (record_chunks p.time_ns p.payload) ≡ data_record p
record_chunks-joined p =
    ap (λ t. le_bytes 8 p.time_ns ++ (le_bytes 4 (size32 p.payload) ++ t)) (append-nil _)

entry_chunks-joined :
    (offset : ℕ) (p : Piece) → joined (entry_chunks p.time_ns offset) ≡ index_entry offset p
entry_chunks-joined offset p = ap (λ t. le_bytes 8 p.time_ns ++ t) (append-nil _)

-- The ways a write of `p` ends, `result` being the bytes of headers written before and `due` whether
-- it was to flush. The streams are handed more and the files keep what they held. Either the record
-- is stored and counted: both streams are good and have it, and if a flush was due their buffers
-- are empty. Or the call reports -EIO and a stream has failed: `p` is either not in what the index
-- stream was handed, or both of its parts were handed over.
pub data Appended (ih dh : Text) (i d : File) (due : Bool) (ps : List Piece) (p : Piece)
    (result : ℕ) (r : StreamWriter × Outcome) : Type 0 where
  stored :
      (j e : File)
      → Grew i j
      → Grew d e
      → Linked ih dh r.0 j e (ps ++ p ∷ [])
      → (j.good ≡ true) × (e.good ≡ true)
      → (due ≡ true → IsFlushed j × IsFlushed e)
      → r.1 ≡ returned (int32 (result + (24 + size32 p.payload)))
      → Appended ih dh i d due ps p result r
  failed :
      (j e : File)
      → Grew i j
      → Grew d e
      → Linked ih dh r.0 j e ps
      → (j.good ≡ false) ⊎ (e.good ≡ false)
      → r.1 ≡ returned eio
      → Appended ih dh i d due ps p result r
  failed_behind :
      (j e : File)
      → Grew i j
      → Grew d e
      → Linked ih dh r.0 j e (ps ++ p ∷ [])
      → (j.good ≡ false) ⊎ (e.good ≡ false)
      → r.1 ≡ returned eio
      → Appended ih dh i d due ps p result r

module _ (ih dh : Text) (w : StreamWriter) (i d : File) (due : Bool) (ps : List Piece) (p : Piece)
    (result : ℕ) where
  -- The index commit behind a whole data commit.
  abbrev indexed : File → File × Bool → StreamWriter × Outcome
  indexed e (j, entered) =
      if entered
      then (
        record w {
          payloads = some e;
          index = some j;
          offset = (w.offset + (8 + 4 + size32 p.payload)) % 2 ^ 32;
        },
        returned (int32 (result + (24 + size32 p.payload))),
      )
      else (record w { payloads = some e; index = some j }, returned eio)

  module _ (l : Linked ih dh w i d ps) (room : 49 + data_bytes ps + record_bytes p < 2 ^ 32)
      (e : File) (stored_bytes : e.bytes ≡ d.bytes ++ data_record p) (was_good : d.good ≡ true)
      (is_good : e.good ≡ true) (is_open : e.is_open ≡ true) (kept_data : d.written ≤ e.written)
      (flushed_data : due ≡ true → IsFlushed e) where
    data-Grew : Grew d e
    data-Grew = record { more = data_record p; bytes = stored_bytes; kept = kept_data }

    -- The index stream had failed before.
    index_was_bad :
        (j : File)
        → i.good ≡ false
        → Grew i j
        → j.bytes ≡ i.bytes
        → j.good ≡ false
        → j.is_open ≡ true
        → Appended ih dh i d due ps p result (indexed e (j, false))
    index_was_bad j bad grew same jbad jopen =
        failed j e grew data-Grew
          (record {
            index_is = refl;
            payloads_is = refl;
            variable = l.variable;
            index_open = jopen;
            payloads_open = is_open;
            readable =
                grow_junk (data_record p) e.bytes
                  (subst (λ b. Readable ih dh b d.bytes ps) (sym same) l.readable) stored_bytes;
            in_step = inr (inl jbad);
          })
          (inl jbad) refl

    -- The writer was in step: the entry says where the record went.
    in_step_case :
        (r : Readable ih dh i.bytes d.bytes ps)
        → r.tail ≡ []
        → r.junk ≡ []
        → w.offset ≡ 49 + data_bytes ps
        → (q : File × Bool) → WritesPair i (index_entry w.offset p) q
        → (due ≡ true → q.1 ≡ true → IsFlushed q.0)
        → Appended ih dh i d due ps p result (indexed e q)
    in_step_case r no_tail no_junk at (j, true) (whole rep ig je jg jo kept) flushed =
        let both =
          whole_entry p j.bytes e.bytes r (no_tail, no_junk)
            (je ∙ ap (λ o. i.bytes ++ index_entry o p) at) stored_bytes in
        stored j e (record { more = index_entry w.offset p; bytes = je; kept = kept }) data-Grew
          (record {
            index_is = refl;
            payloads_is = refl;
            variable = l.variable;
            index_open = jo;
            payloads_open = is_open;
            readable = both.0;
            in_step = inl (both.1, omega (arith, data_bytes-snoc ps p, at));
          })
          (jg, is_good) (λ on. (flushed on refl, flushed_data on)) refl
    in_step_case r no_tail no_junk at (j, false) (whole rep ig je jg jo kept) flushed = cc
    in_step_case r no_tail no_junk at (j, true) (torn t u rep s je jg jo quiet kept) flushed = cc
    in_step_case r no_tail no_junk at (j, false) (torn t [] rep s je jg jo quiet kept) flushed =
        let both =
          whole_entry p j.bytes e.bytes r (no_tail, no_junk)
            (je
              ∙ ap (λ x. i.bytes ++ x) (sym (append-nil t) ∙ s)
              ∙ ap (λ o. i.bytes ++ index_entry o p) at)
            stored_bytes in
        failed_behind j e (record { more = t; bytes = je; kept = kept }) data-Grew
          (record {
            index_is = refl;
            payloads_is = refl;
            variable = l.variable;
            index_open = jo;
            payloads_open = is_open;
            readable = both.0;
            in_step = inr (inl jg);
          })
          (inl jg) refl
    in_step_case r no_tail no_junk at (j, false) (torn t (b ∷ u) rep s je jg jo quiet kept)
          flushed =
        failed j e (record { more = t; bytes = je; kept = kept }) data-Grew
          (record {
            index_is = refl;
            payloads_is = refl;
            variable = l.variable;
            index_open = jo;
            payloads_open = is_open;
            readable =
                part_of_entry p t j.bytes e.bytes r (no_tail, no_junk)
                  (omega
                    (arith, ap length s, length-append t (b ∷ u), length-index_entry w.offset p))
                  je stored_bytes;
            in_step = inr (inl jg);
          })
          (inl jg) refl

    indexed-Appended :
        (q : File × Bool)
        → WritesPair i (index_entry w.offset p) q
        → (due ≡ true → q.1 ≡ true → IsFlushed q.0)
        → Appended ih dh i d due ps p result (indexed e q)
    indexed-Appended q wr flushed = by_step l.in_step q wr flushed
      where
        by_step :
            ((l.readable.tail ≡ []) × (l.readable.junk ≡ [])) × (w.offset ≡ 49 + data_bytes ps)
              ⊎ (i.good ≡ false)
              ⊎ (d.good ≡ false)
            → (q : File × Bool) → WritesPair i (index_entry w.offset p) q
            → (due ≡ true → q.1 ≡ true → IsFlushed q.0)
            → Appended ih dh i d due ps p result (indexed e q)
        by_step (inl ((no_tail, no_junk), at)) q wr flushed =
            in_step_case l.readable no_tail no_junk at q wr flushed
        by_step (inr (inr bad)) q wr flushed = cc
        by_step (inr (inl bad)) (j, true) (whole rep ig je jg jo kept) flushed = cc
        by_step (inr (inl bad)) (j, false) (whole rep ig je jg jo kept) flushed = cc
        by_step (inr (inl bad)) (j, true) (torn t u rep s je jg jo quiet kept) flushed = cc
        by_step (inr (inl bad)) (j, false) (torn t u rep s je jg jo quiet kept) flushed =
            index_was_bad j bad (record { more = t; bytes = je; kept = kept })
              (je ∙ ap (λ x. i.bytes ++ x) (quiet bad) ∙ append-nil i.bytes) jg jo

  append_variable-Appended :
      Linked ih dh w i d ps
      → 49 + data_bytes ps + record_bytes p < 2 ^ 32
      → w.throws ≡ false
      → Appended ih dh i d due ps p result (append_variable w i d due p.time_ns p.payload result)
  unfolding append_variable
  append_variable-Appended l room calm =
      by_data (commit d due (record_chunks p.time_ns p.payload))
        (subst (λ t. WritesPair d t (commit d due (record_chunks p.time_ns p.payload)))
          (record_chunks-joined p) (commit-Writes d due _ _ l.payloads_open))
        (commit-IsFlushed d due _ _ l.payloads_open)
    where
      by_index :
          (q : File × Bool)
          → WritesPair i (joined (entry_chunks p.time_ns w.offset)) q
          → WritesPair i (index_entry w.offset p) q
      by_index q wr = subst (λ t. WritesPair i t q) (entry_chunks-joined w.offset p) wr

      by_data :
          (q : File × Bool)
          → WritesPair d (data_record p) q
          → (due ≡ true → q.1 ≡ true → IsFlushed q.0)
          → Appended ih dh i d due ps p result (
              if q.1
              then (if w.throws
                  then (record w { payloads = some q.0 }, raises)
                  else indexed q.0 (commit i due (entry_chunks p.time_ns w.offset)))
              else (record w { payloads = some q.0 }, returned eio))
      by_data (e, true) (whole rep dg ee eg eo kept) flushed =
          subst
            (λ b. Appended ih dh i d due ps p result (
              if b
              then (record w { payloads = some e }, raises)
              else indexed e (commit i due (entry_chunks p.time_ns w.offset))))
            (sym calm)
            (indexed-Appended l room e ee dg eg eo kept (λ on. flushed on refl) _
              (by_index _ (commit-Writes i due _ _ l.index_open))
              (commit-IsFlushed i due _ _ l.index_open))
      by_data (e, false) (whole rep dg ee eg eo kept) flushed = cc
      by_data (e, true) (torn t u rep s ee eg eo quiet kept) flushed = cc
      by_data (e, false) (torn t u rep s ee eg eo quiet kept) flushed =
          failed i e (Grew-refl i) (record { more = t; bytes = ee; kept = kept })
            (record {
              index_is = l.index_is;
              payloads_is = refl;
              variable = l.variable;
              index_open = l.index_open;
              payloads_open = eo;
              readable = grow_junk t e.bytes l.readable ee;
              in_step = inr (inr eg);
            })
            (inr eg) refl

-- Open files and no overflow of the offset: the record goes to the files at hand.
pub write-append :
    (world : World) (w : StreamWriter) {i d : File} (time_ns : ℕ) (payload : Text)
    → w.index ≡ some i
    → w.payloads ≡ some d
    → i.is_open ≡ true
    → d.is_open ≡ true
    → w.record_size ≡ 0
    → w.offset + (24 + size32 payload) < 2 ^ 32
    → write world w time_ns payload
      ≡ append_variable w i d (flush_is_due w.last_flush world.now) time_ns payload 0
unfolding write write_variable
write-append world w time_ns payload ei ed oi od v fits = ground arith

-- On a channel of variable length records whose two streams were handed a linked index and data,
-- when the offset and the data stay below 4 GiB and no fault is injected, `write` ends in one of
-- three ways, whatever part of the buffers the device takes and wherever it fails. The record is
-- stored: the streams, both good, were handed linked bytes with it at the end, the count of its
-- bytes is returned, and if a flush was due, both buffers are empty. Or -EIO is returned, a stream
-- has failed, and what the streams were handed is linked with the old records. Or -EIO is returned,
-- a stream has failed, and both parts of the record were handed over, linked behind the old ones.
-- In each case the streams were only handed more, and what had reached a file stays in it.
pub write-Appended :
    (ih dh : Text) (world : World) (w : StreamWriter) (i d : File) (ps : List Piece) (p : Piece)
    → Linked ih dh w i d ps
    → w.offset + (24 + size32 p.payload) < 2 ^ 32
    → 49 + data_bytes ps + record_bytes p < 2 ^ 32
    → w.throws ≡ false
    → Appended ih dh i d
        (flush_is_due w.last_flush world.now)
        ps
        p
        0
        (write world w p.time_ns p.payload)
write-Appended ih dh world w i d ps p l fits room calm =
    subst (Appended ih dh i d (flush_is_due w.last_flush world.now) ps p 0)
      (sym (
        write-append world w p.time_ns p.payload l.index_is l.payloads_is l.index_open
          l.payloads_open l.variable fits))
      (append_variable-Appended ih dh w i d _ ps p 0 l room calm)
