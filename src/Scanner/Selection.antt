-- ===== src/Scanner/Selection.antt =====
-- `getData` on a channel that the writer has left: which records it returns.
use tracebox.Prelude.{
  ℕ, zero, suc, ◌+◌, ◌-◌, ◌^◌, ◌<◌, ◌≡◌, ◌≢◌, refl, sym, ap, ◌∙◌, Bool, true, false, Option, none,
  some, List, [], ◌∷◌, if◌then◌else◌, arith, Bool-cases, inl, inr, All, length, take, drop,
  get_elem?, length-drop,
}
use tracebox.Bytes.{Text}
use tracebox.StreamWriter.Images.{Piece}
use tracebox.StreamWriter.Linked.{Readable}
use tracebox.Reader.DataFile.{DataPiece}
use tracebox.Reader.StreamReader.{StreamReader, read_stream, stream_matches, stream_records}
use tracebox.Reader.Records.{Fits, sent}
use tracebox.Reader.Linked.{StreamReady, read_stream-found}
use tracebox.Scanner.{DataResponse, in_time, data_from, stream_data, add_data}

-- The specification: the first `wanted` of the records from the range, in their order.
pub in_range : ℕ → ℕ → List Piece → List DataPiece
in_range start end [] = []
in_range start end (p ∷ ps) =
    if in_time start end (sent p) then sent p ∷ in_range start end ps else in_range start end ps

abbrev pub selected : ℕ → ℕ → ℕ → List Piece → DataResponse
selected wanted start end ps = record {
  pieces = take wanted (in_range start end ps);
  errors = none;
}

-- A record that can be read back: it fits its fields, and its time is not 0.
abbrev pub IsReadable : Piece → Type 0
IsReadable p = Fits p × (p.time_ns ≢ 0)

drop-cons :
    (i : ℕ) (ps qs : List Piece) (q : Piece)
    → drop i ps ≡ q ∷ qs
    → (get_elem? ps i ≡ some q) × (drop (suc i) ps ≡ qs)
drop-cons zero [] qs q e = cc
drop-cons zero (p ∷ ps) qs q e =
    let same : p ≡ q = cc e in let rest : ps ≡ qs = cc e in (ap some same, rest)
drop-cons (suc i) [] qs q e = cc
drop-cons (suc i) (p ∷ ps) qs q e = drop-cons i ps qs q e

-- One round of the loop on a record that is there.
round_taken :
    (left i wanted start end : ℕ) (r r' : StreamReader) (piece : DataPiece)
    → read_stream r i ≡ (r', some piece)
    → in_time start end piece ≡ true
    → data_from (suc left) i (suc wanted) start end r
      ≡ add_data piece (data_from left (i + 1) wanted start end r')
unfolding data_from
round_taken left i wanted start end r r' piece e t =
    rw (e, data_from)
      (rw (t, data_from)
        (ap
          (λ (x : StreamReader × Option DataPiece).
            add_data piece (data_from left (i + 1) wanted start end x.0))
          e))

round_passed :
    (left i wanted start end : ℕ) (r r' : StreamReader) (piece : DataPiece)
    → read_stream r i ≡ (r', some piece)
    → in_time start end piece ≡ false
    → data_from (suc left) i (suc wanted) start end r
      ≡ data_from left (i + 1) (suc wanted) start end r'
unfolding data_from
round_passed left i wanted start end r r' piece e t =
    rw (e, data_from)
      (rw (t, data_from)
        (ap
          (λ (x : StreamReader × Option DataPiece).
            data_from left (i + 1) (suc wanted) start end x.0)
          e))

module _ {ih dh ib db : Text} {ps : List Piece} (v : Readable ih dh ib db ps)
    (ih_size : length ih ≡ 49) (dh_size : length dh ≡ 49) (ib_small : length ib < 2 ^ 32)
    (db_small : length db < 2 ^ 32) (start end : ℕ) where
  data_from-selected :
      (qs : List Piece) (i wanted : ℕ) (r : StreamReader)
      → drop i ps ≡ qs
      → All IsReadable qs
      → StreamReady ib db (length ps) r
      → data_from (length qs) i wanted start end r ≡ selected wanted start end qs
  unfolding data_from in_range
  data_from-selected [] i zero r d ok ready = refl
  data_from-selected [] i (suc wanted) r d ok ready = refl
  data_from-selected (q ∷ qs) i zero r d ok ready = refl
  data_from-selected (q ∷ qs) i (suc wanted) r d ok ready =
      let at = drop-cons i ps qs q d in
      let (r', reads, ready') =
        read_stream-found v ih_size dh_size ib_small db_small i q at.0 r ready ok.0.0 ok.0.1 in
      let later : drop (i + 1) ps ≡ qs =
        ap (λ (k : ℕ). drop k ps) {y = suc i} (omega arith) ∙ at.1 in
      elim (Bool-cases (in_time start end (sent q))) [
        | inl t ↦
            round_taken (length qs) i wanted start end r r' (sent q) reads t
            ∙ ap (add_data (sent q)) (data_from-selected qs (i + 1) wanted r' later ok.1 ready')
            ∙ ap (λ b. choose wanted q qs b) (sym t)
        | inr t ↦
            round_passed (length qs) i wanted start end r r' (sent q) reads t
            ∙ data_from-selected qs (i + 1) (suc wanted) r' later ok.1 ready'
            ∙ ap (λ b. choose wanted q qs b) (sym t)
      ]
    where
      choose : ℕ → Piece → List Piece → Bool → DataResponse
      choose wanted q qs b = record {
        pieces =
            take (suc wanted) (if b then sent q ∷ in_range start end qs else in_range start end qs);
        errors = none;
      }

  stream_data-from :
      (start_idx max_size : ℕ) (r : StreamReader)
      → stream_matches r start end ≡ true
      → start_idx < stream_records r
      → stream_data start end start_idx max_size r
        ≡ data_from (stream_records r - start_idx) start_idx max_size start end r
  unfolding stream_data
  stream_data-from start_idx max_size r m h = ground arith

  stream_records-ready :
      (r : StreamReader) → StreamReady ib db (length ps) r → stream_records r ≡ length ps
  unfolding stream_records
  stream_records-ready r ready = ground (arith, ready.index_is, ready.index_ready.count)

  -- On a ready stream reader over two readable files below 4 GiB with headers of 49 bytes, where
  -- every record from `start_idx` on fits its fields and has a time other than 0, `getData` returns
  -- exactly the first `max_size` of the records from `start_idx` on whose times lie in the range,
  -- in the order in which they were written, and no error; provided that the range meets that of
  -- the channel and `start_idx` is one of its records.
  pub stream_data-selected :
      (start_idx max_size : ℕ) (r : StreamReader)
      → StreamReady ib db (length ps) r
      → All IsReadable (drop start_idx ps)
      → stream_matches r start end ≡ true
      → start_idx < length ps
      → stream_data start end start_idx max_size r ≡ selected max_size start end (drop start_idx ps)
  stream_data-selected start_idx max_size r ready ok m inside =
      stream_data-from start_idx max_size r m (omega (arith, stream_records-ready r ready))
      ∙ ap (λ (n : ℕ). data_from n start_idx max_size start end r)
          (omega (arith, stream_records-ready r ready, length-drop start_idx ps))
      ∙ data_from-selected (drop start_idx ps) start_idx max_size r refl ok ready
