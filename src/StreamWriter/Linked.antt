-- ===== src/StreamWriter/Linked.antt =====
-- The invariant that ties the two files of a channel of variable length records together.
use tracebox.Prelude.{
  ℕ, zero, suc, take, take_all, subst, ◌≤◌, ◌+◌, ◌<◌, ◌≡◌, refl, sym, ap, ◌∙◌, true, false, ◌⊎◌,
  List, [], ◌∷◌, ◌++◌, append-nil, append_assoc, arith, some, length,
}
use tracebox.Bytes.{Text}
use tracebox.FileIo.{File, on_device}
use tracebox.StreamWriter.Commit.{IsFlushed}
use tracebox.StreamWriter.{StreamWriter}
use tracebox.StreamWriter.Images.{
  Piece, data_record, index_entry, data_image, index_image, data_bytes, data_image-snoc,
  index_image-snoc,
}

-- In the bytes of an index file and a data file: the index holds its header, an entry for each
-- record of `ps` that points at it, and less than one entry behind these; the data file holds its
-- header, the records, and perhaps bytes that no entry names.
pub record Readable (ih dh index_bytes payload_bytes : Text) (ps : List Piece) : Type 0 where
  pub tail : Text
  pub junk : Text
  pub index_split : index_bytes ≡ ih ++ (index_image 49 ps ++ tail)
  pub data_split : payload_bytes ≡ dh ++ (data_image ps ++ junk)
  pub short : length tail < 12

abbrev pub IsClean : {ih dh ib db : Text} {ps : List Piece} → Readable ih dh ib db ps → Type 0
IsClean r = (r.tail ≡ []) × (r.junk ≡ [])

-- The writer's state: both files are open, what their streams were handed is readable, and as long
-- as neither stream has failed nothing lies behind the records and `offset` is where the next record
-- goes.
pub record Linked (ih dh : Text) (w : StreamWriter) (i d : File) (ps : List Piece) : Type 0 where
  pub index_is : w.index ≡ some i
  pub payloads_is : w.payloads ≡ some d
  pub variable : w.record_size ≡ 0
  pub index_open : i.is_open ≡ true
  pub payloads_open : d.is_open ≡ true
  pub readable : Readable ih dh i.bytes d.bytes ps
  pub in_step :
      (IsClean readable × (w.offset ≡ 49 + data_bytes ps)) ⊎ (i.good ≡ false) ⊎ (d.good ≡ false)

-- Bytes behind the records change nothing that can be read.
pub grow_junk :
    {ih dh ib db : Text} {ps : List Piece} (x db' : Text)
    → Readable ih dh ib db ps
    → db' ≡ db ++ x
    → Readable ih dh ib db' ps
grow_junk {ih} {dh} {ib} {db} {ps} x db' r e = record {
  tail = r.tail;
  junk = r.junk ++ x;
  index_split = r.index_split;
  data_split =
      e
      ∙ ap (λ t. t ++ x) r.data_split
      ∙ append_assoc dh (data_image ps ++ r.junk) x
      ∙ ap (λ t. dh ++ t) (append_assoc (data_image ps) r.junk x);
  short = r.short;
}

-- A record in the data file, and a part of its entry in the index file.
pub part_of_entry :
    {ih dh ib db : Text} {ps : List Piece} (p : Piece) (t ib' db' : Text)
    → (r : Readable ih dh ib db ps) → IsClean r
    → length t < 12
    → ib' ≡ ib ++ t
    → db' ≡ db ++ data_record p
    → Readable ih dh ib' db' ps
part_of_entry {ih} {dh} {ib} {db} {ps} p t ib' db' r (no_tail, no_junk) s ei ed = record {
  tail = t;
  junk = data_record p;
  index_split =
      ei
      ∙ ap (λ x. x ++ t) (r.index_split ∙ ap (λ x. ih ++ (index_image 49 ps ++ x)) no_tail)
      ∙ append_assoc ih (index_image 49 ps ++ []) t
      ∙ ap (λ x. ih ++ (x ++ t)) (append-nil (index_image 49 ps));
  data_split =
      ed
      ∙ ap (λ x. x ++ data_record p) (r.data_split ∙ ap (λ x. dh ++ (data_image ps ++ x)) no_junk)
      ∙ append_assoc dh (data_image ps ++ []) (data_record p)
      ∙ ap (λ x. dh ++ (x ++ data_record p)) (append-nil (data_image ps));
  short = s;
}

-- A record in the data file, and its whole entry in the index file.
pub whole_entry :
    {ih dh ib db : Text} {ps : List Piece} (p : Piece) (ib' db' : Text)
    → (r : Readable ih dh ib db ps) → IsClean r
    → ib' ≡ ib ++ index_entry (49 + data_bytes ps) p
    → db' ≡ db ++ data_record p
    → (q : Readable ih dh ib' db' (ps ++ p ∷ [])) × IsClean q
whole_entry {ih} {dh} {ib} {db} {ps} p ib' db' r (no_tail, no_junk) ei ed = (
  record {
    tail = [];
    junk = [];
    index_split =
        ei
        ∙ ap (λ x. x ++ entry) (r.index_split ∙ ap (λ x. ih ++ (index_image 49 ps ++ x)) no_tail)
        ∙ append_assoc ih (index_image 49 ps ++ []) entry
        ∙ ap (λ x. ih ++ (x ++ entry)) (append-nil (index_image 49 ps))
        ∙ ap (λ x. ih ++ x) (sym (index_image-snoc 49 ps p))
        ∙ ap (λ x. ih ++ x) (sym (append-nil (index_image 49 (ps ++ p ∷ []))));
    data_split =
        ed
        ∙ ap (λ x. x ++ data_record p) (r.data_split ∙ ap (λ x. dh ++ (data_image ps ++ x)) no_junk)
        ∙ append_assoc dh (data_image ps ++ []) (data_record p)
        ∙ ap (λ x. dh ++ (x ++ data_record p)) (append-nil (data_image ps))
        ∙ ap (λ x. dh ++ x) (sym (data_image-snoc ps p))
        ∙ ap (λ x. dh ++ x) (sym (append-nil (data_image (ps ++ p ∷ []))));
    short = omega arith;
  },
  (refl, refl),
)
  where
    entry : Text
    entry = index_entry (49 + data_bytes ps) p

-- The bytes begin with an image.
abbrev pub StartsWith : Text → Text → Type 0
StartsWith bytes image = (rest : Text) × (bytes ≡ image ++ rest)

-- What one or more calls do to a stream: it is handed more, and its file keeps what it held.
pub record Grew (f g : File) : Type 0 where
  pub more : Text
  pub bytes : g.bytes ≡ f.bytes ++ more
  pub kept : f.written ≤ g.written

pub Grew-refl : (f : File) → Grew f f
Grew-refl f = record { more = []; bytes = sym (append-nil f.bytes); kept = omega arith }

take-StartsWith :
    (m n : ℕ) (bytes more : Text) → m ≤ n → StartsWith (take n (bytes ++ more)) (take m bytes)
take-StartsWith zero n bytes more h = (take n (bytes ++ more), refl)
take-StartsWith (suc m) zero bytes more h = absurd (omega arith)
take-StartsWith (suc m) (suc n) [] more h = (take (suc n) more, refl)
take-StartsWith (suc m) (suc n) (b ∷ bytes) more h =
    let (rest, e) = take-StartsWith m n bytes more (omega arith) in (rest, ap (λ t. b ∷ t) e)

pub Grew-on_device : (f g : File) → Grew f g → StartsWith (on_device g) (on_device f)
Grew-on_device f g x =
    subst (λ b. StartsWith (take g.written b) (on_device f)) (sym x.bytes)
      (take-StartsWith f.written g.written f.bytes x.more x.kept)

StartsWith-trans : (a b c : Text) → StartsWith b a → StartsWith c b → StartsWith c a
StartsWith-trans a b c (s, e) (t, q) = (s ++ t, q ∙ ap (λ x. x ++ t) e ∙ append_assoc a s t)

-- The records `ps` are in the two files themselves, whatever is behind them and in the buffers.
pub record InFiles (ih dh : Text) (i d : File) (ps : List Piece) : Type 0 where
  pub index : StartsWith (on_device i) (ih ++ index_image 49 ps)
  pub payloads : StartsWith (on_device d) (dh ++ data_image ps)

-- They stay there.
pub InFiles-Grew :
    {ih dh : Text} {ps : List Piece} {i j d e : File}
    → InFiles ih dh i d ps
    → Grew i j
    → Grew d e
    → InFiles ih dh j e ps
InFiles-Grew {i = i} {j = j} {d = d} {e = e} v x y = record {
  index = StartsWith-trans _ (on_device i) _ v.index (Grew-on_device i j x);
  payloads = StartsWith-trans _ (on_device d) _ v.payloads (Grew-on_device d e y);
}

-- Behind a flush of both streams all records are there.
pub IsFlushed-InFiles :
    {ih dh : Text} {ps : List Piece} (i d : File)
    → Readable ih dh i.bytes d.bytes ps
    → IsFlushed i
    → IsFlushed d
    → InFiles ih dh i d ps
IsFlushed-InFiles {ih} {dh} {ps} i d r fi fd = record {
  index = (
    r.tail,
    take_all i.written i.bytes fi
        ∙ r.index_split
        ∙ sym (append_assoc ih (index_image 49 ps) r.tail),
  );
  payloads = (
    r.junk,
    take_all d.written d.bytes fd ∙ r.data_split ∙ sym (append_assoc dh (data_image ps) r.junk),
  );
}
