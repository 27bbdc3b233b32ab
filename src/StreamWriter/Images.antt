-- ===== src/StreamWriter/Images.antt =====
-- The bytes that a sequence of records of variable length takes in the data file and in the
-- index file, written down independently of how the writer gets there.
use tracebox.Prelude.{
  ℕ, ◌+◌, ◌*◌, ◌≡◌, refl, sym, ap, ◌∙◌, List, [], ◌∷◌, ◌++◌, append-nil, append_assoc, arith,
  length, take, length-append, length-take,
}
use tracebox.Bytes.{Text, le_bytes, length-le_bytes}
use tracebox.StreamWriter.{size32}

pub record Piece : Type 0 where
  pub time_ns : ℕ
  pub payload : Text

-- `VariableRecordDataHeader` and the payload.
abbrev pub data_record : Piece → Text
data_record p =
    le_bytes 8 p.time_ns ++ (le_bytes 4 (size32 p.payload) ++ take (size32 p.payload) p.payload)

-- `VariableRecordIdx`
abbrev pub index_entry : ℕ → Piece → Text
index_entry offset p = le_bytes 8 p.time_ns ++ le_bytes 4 offset

abbrev pub record_bytes : Piece → ℕ
record_bytes p = 12 + size32 p.payload

abbrev pub data_image : List Piece → Text
data_image [] = []
data_image (p ∷ ps) = data_record p ++ data_image ps

-- The first record lies at `offset`.
abbrev pub index_image : ℕ → List Piece → Text
index_image offset [] = []
index_image offset (p ∷ ps) = index_entry offset p ++ index_image (offset + record_bytes p) ps

unfoldable pub data_bytes : List Piece → ℕ
data_bytes [] = 0
data_bytes (p ∷ ps) = record_bytes p + data_bytes ps

pub data_bytes-snoc :
    (ps : List Piece) (p : Piece) → data_bytes (ps ++ p ∷ []) ≡ data_bytes ps + record_bytes p
unfolding data_bytes
data_bytes-snoc [] p = omega arith
data_bytes-snoc (q ∷ ps) p = omega (arith, data_bytes-snoc ps p)

pub length-data_record : (p : Piece) → length (data_record p) ≡ record_bytes p
length-data_record p = omega (
  arith,
  length-append (le_bytes 8 p.time_ns)
      (le_bytes 4 (size32 p.payload) ++ take (size32 p.payload) p.payload),
  length-append (le_bytes 4 (size32 p.payload)) (take (size32 p.payload) p.payload),
  length-le_bytes 8 p.time_ns,
  length-le_bytes 4 (size32 p.payload),
  length-take (size32 p.payload) p.payload,
)

pub length-data_image : (ps : List Piece) → length (data_image ps) ≡ data_bytes ps
unfolding data_bytes
length-data_image [] = refl
length-data_image (p ∷ ps) = omega (
  arith,
  length-append (data_record p) (data_image ps),
  length-data_record p,
  length-data_image ps,
)

pub length-index_entry : (offset : ℕ) (p : Piece) → length (index_entry offset p) ≡ 12
length-index_entry offset p = omega (
  arith,
  length-append (le_bytes 8 p.time_ns) (le_bytes 4 offset),
  length-le_bytes 8 p.time_ns,
  length-le_bytes 4 offset,
)

pub length-index_image :
    (offset : ℕ) (ps : List Piece) → length (index_image offset ps) ≡ 12 * length ps
length-index_image offset [] = refl
length-index_image offset (p ∷ ps) = omega (
  arith,
  length-append (index_entry offset p) (index_image (offset + record_bytes p) ps),
  length-index_entry offset p,
  length-index_image (offset + record_bytes p) ps,
)

pub data_image-snoc :
    (ps : List Piece) (p : Piece) → data_image (ps ++ p ∷ []) ≡ data_image ps ++ data_record p
data_image-snoc [] p = append-nil (data_record p)
data_image-snoc (q ∷ ps) p =
    ap (λ t. data_record q ++ t) (data_image-snoc ps p)
    ∙ sym (append_assoc (data_record q) (data_image ps) (data_record p))

pub index_image-snoc :
    (offset : ℕ) (ps : List Piece) (p : Piece)
    → index_image offset (ps ++ p ∷ [])
      ≡ index_image offset ps ++ index_entry (offset + data_bytes ps) p
unfolding data_bytes
index_image-snoc offset [] p =
    append-nil (index_entry offset p) ∙ ap (λ o. index_entry o p) (omega arith)
index_image-snoc offset (q ∷ ps) p =
    ap (λ t. index_entry offset q ++ t)
      (index_image-snoc (offset + record_bytes q) ps p
        ∙ ap (λ o. index_image (offset + record_bytes q) ps ++ index_entry o p) (omega arith))
    ∙ sym (append_assoc (index_entry offset q) (index_image (offset + record_bytes q) ps) _)
