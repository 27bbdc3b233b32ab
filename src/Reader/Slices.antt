-- ===== src/Reader/Slices.antt =====
-- Where the records of the writer's images lie in the bytes of the two files.
use tracebox.Prelude.{
  ℕ, zero, suc, ◌+◌, ◌*◌, ◌<◌, ◌≤◌, ◌≡◌, sym, ap, ◌∙◌, List, [], ◌∷◌, ◌++◌, some, arith, length,
  take, drop, get_elem?, drop-drop, append_assoc, drop-append, length-append, length-drop,
  take-append, ap₂, subst,
}
use mathlib.Core.Option.{some-injective}
use tracebox.Bytes.{Text}
use tracebox.StreamWriter.Images.{
  Piece, data_record, index_entry, data_image, index_image, data_bytes, record_bytes,
  length-index_entry, length-data_record,
}

-- The offset of record `i` behind the header of the data file.
abbrev pub bytes_before : List Piece → ℕ → ℕ
bytes_before ps i = data_bytes (take i ps)

-- `part` begins at `position`, and `rest` follows it.
abbrev pub LiesAt : Text → ℕ → Text → Type 0
LiesAt bytes position part = (rest : Text) × (drop position bytes ≡ part ++ rest)

pub behind :
    (front bytes : Text) (n position : ℕ) (part : Text)
    → length front ≡ n
    → LiesAt bytes position part
    → LiesAt (front ++ bytes) (n + position) part
behind front bytes n position part e (rest, at) = (
  rest,
  drop-drop n position (front ++ bytes) ∙ ap (drop position) (drop-append n front bytes e) ∙ at,
)

-- Entry `i` of the index, which names the offset of record `i`.
pub index_entry-LiesAt :
    (offset : ℕ) (ps : List Piece) (i : ℕ) (p : Piece) (tail : Text)
    → get_elem? ps i ≡ some p
    → LiesAt (index_image offset ps ++ tail) (12 * i) (index_entry (offset + bytes_before ps i) p)
unfolding data_bytes
index_entry-LiesAt offset [] i p tail e = cc
index_entry-LiesAt offset (q ∷ ps) zero p tail e = (
  index_image (offset + record_bytes q) ps ++ tail,
  append_assoc (index_entry offset q) (index_image (offset + record_bytes q) ps) tail
      ∙ ap (λ t. t ++ (index_image (offset + record_bytes q) ps ++ tail)) same,
)
  where
    same : index_entry offset q ≡ index_entry (offset + 0) p
    same = ap₂ index_entry (omega arith) (some-injective _ _ e)
index_entry-LiesAt offset (q ∷ ps) (suc i) p tail e =
    subst
      (λ bytes. LiesAt bytes (12 * suc i) (index_entry (offset + bytes_before (q ∷ ps) (suc i)) p))
      (sym (append_assoc (index_entry offset q) (index_image (offset + record_bytes q) ps) tail))
      (shifted (
        behind (index_entry offset q) _ 12 (12 * i) _ (length-index_entry offset q)
          (index_entry-LiesAt (offset + record_bytes q) ps i p tail e)))
  where
    later : Text
    later = index_entry offset q ++ (index_image (offset + record_bytes q) ps ++ tail)

    shifted :
        LiesAt later (12 + 12 * i) (index_entry (offset + record_bytes q + bytes_before ps i) p)
        → LiesAt later (12 * suc i) (index_entry (offset + (record_bytes q + bytes_before ps i)) p)
    shifted (rest, at) = (
      rest,
      ap (λ n. drop n later) (omega arith) ∙ at ∙ ap (λ o. index_entry o p ++ rest) (omega arith),
    )

-- Record `i` of the data file.
pub data_record-LiesAt :
    (ps : List Piece) (i : ℕ) (p : Piece) (junk : Text)
    → get_elem? ps i ≡ some p
    → LiesAt (data_image ps ++ junk) (bytes_before ps i) (data_record p)
unfolding data_bytes
data_record-LiesAt [] i p junk e = cc
data_record-LiesAt (q ∷ ps) zero p junk e = (
  data_image ps ++ junk,
  append_assoc (data_record q) (data_image ps) junk
      ∙ ap (λ r. data_record r ++ (data_image ps ++ junk)) (some-injective _ _ e),
)
data_record-LiesAt (q ∷ ps) (suc i) p junk e =
    subst (λ bytes. LiesAt bytes (record_bytes q + bytes_before ps i) (data_record p))
      (sym (append_assoc (data_record q) (data_image ps) junk))
      (behind (data_record q) _ (record_bytes q) (bytes_before ps i) _ (length-data_record q)
        (data_record-LiesAt ps i p junk e))

-- A part of the records takes no more bytes than all of them.
pub bytes_before-le :
    (ps : List Piece) (i : ℕ) (p : Piece)
    → get_elem? ps i ≡ some p
    → bytes_before ps i + record_bytes p ≤ data_bytes ps
unfolding data_bytes
bytes_before-le [] i p e = cc
bytes_before-le (q ∷ ps) zero p e = omega (arith, ap record_bytes (some-injective _ _ e))
bytes_before-le (q ∷ ps) (suc i) p e = omega (arith, bytes_before-le ps i p e)

pub lt_length : (ps : List Piece) (i : ℕ) {p : Piece} → get_elem? ps i ≡ some p → i < length ps
lt_length [] i e = cc
lt_length (q ∷ ps) zero e = omega arith
lt_length (q ∷ ps) (suc i) e = omega (arith, lt_length ps i e)

-- Behind a header of 49 bytes.
pub LiesAt-header :
    (header bytes : Text) (position : ℕ) (part : Text)
    → length header ≡ 49
    → LiesAt bytes position part
    → LiesAt (header ++ bytes) (49 + position) part
LiesAt-header header bytes position part = behind header bytes 49 position part

-- What a read of the first `n` bytes there gives, and that they are there.
pub LiesAt-take :
    (bytes : Text) (position n : ℕ) (part more : Text)
    → length part ≡ n
    → LiesAt bytes position (part ++ more)
    → take n (drop position bytes) ≡ part
LiesAt-take bytes position n part more e (rest, at) =
    ap (take n) (at ∙ append_assoc part more rest) ∙ take-append n part (more ++ rest) e

pub LiesAt-fits :
    (bytes : Text) (position : ℕ) (part : Text)
    → LiesAt bytes position part
    → 0 < length part
    → position + length part ≤ length bytes
LiesAt-fits bytes position part (rest, at) h =
    omega (arith, ap length at, length-append part rest, length-drop position bytes)
