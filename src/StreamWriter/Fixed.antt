-- ===== src/StreamWriter/Fixed.antt =====
-- `StreamWriter::write` on a channel of fixed size records, whose only file holds the records.
use tracebox.Prelude.{
  ℕ, ◌+◌, ◌<◌, ◌≡◌, ◌≢◌, refl, sym, ap, ◌∙◌, Bool, true, false, ◌⊎◌, inl, inr, List, [], ◌∷◌, ◌++◌,
  append-nil, append_assoc, arith, some, length, length-append, int32, if◌then◌else◌, ◌==◌, subst,
  Bool-cases,
}
use tracebox.Bytes.{Text, le_bytes, length-le_bytes}
use tracebox.FileIo.{File}
use tracebox.StreamWriter.{
  StreamWriter, World, Outcome, returned, eio, einval, commit, write_fixed, write, flush_is_due,
}
use tracebox.StreamWriter.Commit.{
  whole, torn, WritesPair, commit-Writes, IsFlushed, commit-IsFlushed,
}
use tracebox.StreamWriter.Images.{Piece}
use tracebox.StreamWriter.Linked.{Grew}

abbrev pub fixed_record : Piece → Text
fixed_record p = le_bytes 8 p.time_ns ++ p.payload

abbrev pub fixed_image : List Piece → Text
fixed_image [] = []
fixed_image (p ∷ ps) = fixed_record p ++ fixed_image ps

pub fixed_image-snoc :
    (ps : List Piece) (p : Piece) → fixed_image (ps ++ p ∷ []) ≡ fixed_image ps ++ fixed_record p
fixed_image-snoc [] p = append-nil (fixed_record p)
fixed_image-snoc (q ∷ ps) p =
    ap (λ t. fixed_record q ++ t) (fixed_image-snoc ps p)
    ∙ sym (append_assoc (fixed_record q) (fixed_image ps) (fixed_record p))

-- In some bytes: the header, the records, and less than one record behind them.
pub record HoldsFixed (ih : Text) (size : ℕ) (bytes : Text) (ps : List Piece) : Type 0 where
  pub tail : Text
  pub split : bytes ≡ ih ++ (fixed_image ps ++ tail)
  pub short : length tail < 8 + size

-- The writer's state: nothing lies behind the records as long as the stream has not failed.
pub record FixedLinked (ih : Text) (size : ℕ) (w : StreamWriter) (i : File) (ps : List Piece)
    : Type 0 where
  pub index_is : w.index ≡ some i
  pub size_is : w.record_size ≡ size
  pub some_size : 0 < size
  pub is_open : i.is_open ≡ true
  pub holds : HoldsFixed ih size i.bytes ps
  pub in_step : (holds.tail ≡ []) ⊎ (i.good ≡ false)

-- The ways a write of `p` ends, `due` being whether it was to flush. The stream is handed more and
-- the file keeps what it held. Behind a flush the buffer is empty.
pub data FixedStep (ih : Text) (size : ℕ) (i : File) (due : Bool) (ps : List Piece) (p : Piece)
    (r : StreamWriter × Outcome) : Type 0 where
  stored :
      (j : File)
      → Grew i j
      → FixedLinked ih size r.0 j (ps ++ p ∷ [])
      → j.good ≡ true
      → (due ≡ true → IsFlushed j)
      → length p.payload ≡ size
      → r.1 ≡ returned (int32 (size + 8))
      → FixedStep ih size i due ps p r
  refused :
      FixedLinked ih size r.0 i ps
      → length p.payload ≢ size
      → r.1 ≡ returned einval
      → FixedStep ih size i due ps p r
  failed :
      (j : File)
      → Grew i j
      → FixedLinked ih size r.0 j ps
      → j.good ≡ false
      → r.1 ≡ returned eio
      → FixedStep ih size i due ps p r
  failed_behind :
      (j : File)
      → Grew i j
      → FixedLinked ih size r.0 j (ps ++ p ∷ [])
      → j.good ≡ false
      → r.1 ≡ returned eio
      → FixedStep ih size i due ps p r

-- A part of a record behind the old ones, or all of it.
module _ {ih : Text} {size : ℕ} {ps : List Piece} {bytes : Text} (p : Piece)
    (h : HoldsFixed ih size bytes ps) (no_tail : h.tail ≡ []) where
  behind_records : (t b : Text) → b ≡ bytes ++ t → b ≡ ih ++ (fixed_image ps ++ t)
  behind_records t b e =
      e
      ∙ ap (λ x. x ++ t) (h.split ∙ ap (λ x. ih ++ (fixed_image ps ++ x)) no_tail)
      ∙ append_assoc ih (fixed_image ps ++ []) t
      ∙ ap (λ x. ih ++ (x ++ t)) (append-nil (fixed_image ps))

  whole_record :
      0 < size
      → (b : Text) → b ≡ bytes ++ fixed_record p
      → (q : HoldsFixed ih size b (ps ++ p ∷ [])) × (q.tail ≡ [])
  whole_record some_size b e = (
    record {
      tail = [];
      split =
          behind_records (fixed_record p) b e
          ∙ ap (λ x. ih ++ x) (sym (append-nil (fixed_image ps ++ fixed_record p) ∙ refl))
          ∙ ap (λ x. ih ++ (x ++ [])) (sym (fixed_image-snoc ps p));
      short = omega (arith, some_size);
    },
    refl,
  )

abbrev ended : StreamWriter → File × Bool → StreamWriter × Outcome
ended w (g, written) =
    (record w { index = some g }, returned (if written then int32 (w.record_size + 8) else eio))

module _ (ih : Text) (size : ℕ) (w : StreamWriter) (i : File) (due : Bool) (ps : List Piece)
    (p : Piece) (l : FixedLinked ih size w i ps) (fits : length p.payload ≡ size) where
  after_commit :
      (l.holds.tail ≡ []) ⊎ (i.good ≡ false)
      → (q : File × Bool) → WritesPair i (fixed_record p) q
      → (due ≡ true → q.1 ≡ true → IsFlushed q.0)
      → FixedStep ih size i due ps p (ended w q)
  after_commit (inl no_tail) (g, true) (whole rep ig e gg go kept) flushed =
      let both = whole_record p l.holds no_tail l.some_size g.bytes e in
      stored g (record { more = fixed_record p; bytes = e; kept = kept })
        (record {
          index_is = refl;
          size_is = l.size_is;
          some_size = l.some_size;
          is_open = go;
          holds = both.0;
          in_step = inl both.1;
        })
        gg (λ on. flushed on refl) fits (ap (λ (n : ℕ). returned (int32 (n + 8))) l.size_is)
  after_commit (inl no_tail) (g, false) (whole rep ig e gg go kept) flushed = cc
  after_commit (inl no_tail) (g, true) (torn t u rep s e gg go quiet kept) flushed = cc
  after_commit (inl no_tail) (g, false) (torn t [] rep s e gg go quiet kept) flushed =
      let both =
        whole_record p l.holds no_tail l.some_size g.bytes
          (e ∙ ap (λ x. i.bytes ++ x) (sym (append-nil t) ∙ s)) in
      failed_behind g (record { more = t; bytes = e; kept = kept })
        (record {
          index_is = refl;
          size_is = l.size_is;
          some_size = l.some_size;
          is_open = go;
          holds = both.0;
          in_step = inr gg;
        })
        gg refl
  after_commit (inl no_tail) (g, false) (torn t (b ∷ u) rep s e gg go quiet kept) flushed =
      failed g (record { more = t; bytes = e; kept = kept })
        (record {
          index_is = refl;
          size_is = l.size_is;
          some_size = l.some_size;
          is_open = go;
          holds = record {
            tail = t;
            split = behind_records p l.holds no_tail t g.bytes e;
            short = omega (
              arith,
              ap length s,
              length-append t (b ∷ u),
              length-append (le_bytes 8 p.time_ns) p.payload,
              length-le_bytes 8 p.time_ns,
              fits,
            );
          };
          in_step = inr gg;
        })
        gg refl
  after_commit (inr bad) (g, true) (whole rep ig e gg go kept) flushed = cc
  after_commit (inr bad) (g, false) (whole rep ig e gg go kept) flushed = cc
  after_commit (inr bad) (g, true) (torn t u rep s e gg go quiet kept) flushed = cc
  after_commit (inr bad) (g, false) (torn t u rep s e gg go quiet kept) flushed =
      failed g (record { more = t; bytes = e; kept = kept })
        (record {
          index_is = refl;
          size_is = l.size_is;
          some_size = l.some_size;
          is_open = go;
          holds =
              subst (λ b. HoldsFixed ih size b ps)
                (sym (e ∙ ap (λ x. i.bytes ++ x) (quiet bad) ∙ append-nil i.bytes)) l.holds;
          in_step = inr gg;
        })
        gg refl

write-fixed :
    (world : World) (w : StreamWriter) {i : File} (time_ns : ℕ) (payload : Text)
    → w.index ≡ some i
    → i.is_open ≡ true
    → 0 < w.record_size
    → write world w time_ns payload
      ≡ write_fixed w i (flush_is_due w.last_flush world.now) time_ns payload
unfolding write
write-fixed world w time_ns payload ei oi some_size = ground arith

-- On a channel of fixed size records whose stream was handed the records of a list, `write` ends in
-- one of four ways, whatever part of the buffer the device takes and wherever it fails. The record
-- has the channel's size: the stream, good, was handed it at the end, its size plus 8 is returned,
-- and if a flush was due the buffer is empty. Or it has another size, -EINVAL is returned, and the
-- stream and the file are as they were. Or -EIO is returned, the stream has failed, and it was
-- handed less than one record behind the old ones. Or -EIO is returned, the stream has failed, and
-- it was handed the whole record. In each case the stream was only handed more, and what had
-- reached the file stays in it.
pub write-FixedStep :
    (ih : Text) (size : ℕ) (world : World) (w : StreamWriter) (i : File) (ps : List Piece)
    (p : Piece)
    → FixedLinked ih size w i ps
    → FixedStep ih size i
        (flush_is_due w.last_flush world.now)
        ps
        p
        (write world w p.time_ns p.payload)
unfolding write_fixed
write-FixedStep ih size world w i ps p l =
    subst (FixedStep ih size i (flush_is_due w.last_flush world.now) ps p)
      (sym (
        write-fixed world w p.time_ns p.payload l.index_is l.is_open
          (omega (arith, l.some_size, l.size_is))))
      (by_size (Bool-cases (length p.payload == w.record_size)))
  where
    due : Bool
    due = flush_is_due w.last_flush world.now

    written : StreamWriter × Outcome
    written = ended w (commit i due (le_bytes 8 p.time_ns ∷ p.payload ∷ []))

    by_size :
        ((length p.payload == w.record_size) ≡ true) ⊎ ((length p.payload == w.record_size) ≡ false)
        → FixedStep ih size i due ps p (write_fixed w i due p.time_ns p.payload)
    by_size (inl same) =
        subst (λ b. FixedStep ih size i due ps p (if b then written else (w, returned einval)))
          (sym same)
          (after_commit ih size w i due ps p l (ground (arith, l.size_is)) l.in_step _
            (subst (λ t. WritesPair i t (commit i due (le_bytes 8 p.time_ns ∷ p.payload ∷ [])))
              (ap (λ t. le_bytes 8 p.time_ns ++ t) (append-nil p.payload))
              (commit-Writes i due _ _ l.is_open))
            (commit-IsFlushed i due _ _ l.is_open))
    by_size (inr other) =
        subst (λ b. FixedStep ih size i due ps p (if b then written else (w, returned einval)))
          (sym other) (refused l (λ e. ground (arith, l.size_is, e)) refl)
