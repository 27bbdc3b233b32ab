-- ===== src/StreamWriter/Start.antt =====
-- `openFile` and `reopenFile` of a channel of variable length records, when they succeed.
use tracebox.Prelude.{
  ℕ, take_all, ◌≡◌, refl, sym, ◌∙◌, true, false, inl, inr, [], Option, none, some, arith, ℤ, pos,
  positive, negative, Bool-cases, Option-cases, subst, append-nil,
}
use tracebox.Bytes.{Text}
use tracebox.Format.{encode_header}
use tracebox.FileIo.{File, open_file, on_device}
use tracebox.StreamWriter.{
  StreamWriter, World, Outcome, returned, free_name, header_of, write_header, is_taken, reopen_file,
  reopen_index, reopen_payloads, open_payloads, idx_path, data_path, name_fuel, file_name,
}
use tracebox.StreamWriter.Images.{data_bytes}
use tracebox.StreamWriter.Linked.{Linked}
use tracebox.StreamWriter.Open.{Fresh, Fresh-write_header, write_header-signs, free_name-free}

-- Both files are new, and the writer is ready for the first record.
pub record Started (w : StreamWriter) (time_ns : ℕ) (r : StreamWriter × Outcome) : Type 0 where
  pub index_file : File
  pub data_file : File
  pub linked :
      Linked
        (encode_header (header_of w time_ns 1))
        (encode_header (header_of w time_ns 2))
        r.0
        index_file
        data_file
        []
  pub index_good : index_file.good ≡ true
  pub data_good : data_file.good ≡ true
  pub index_holds : on_device index_file ≡ encode_header (header_of w time_ns 1)
  pub data_holds : on_device data_file ≡ encode_header (header_of w time_ns 2)
  pub count : r.1 ≡ returned (pos 98)

-- What `open_payloads` is on each path of the factory and of the call of `open`.
module _ (world : World) (w : StreamWriter) (file : Text) (time_ns : ℕ) where
  open_payloads-opened :
      (f : File)
      → world.content (data_path w.folder file) ≡ none
      → world.new_payloads ≡ some f
      → (open_file f []).1 ≡ true
      → open_payloads world w file time_ns ≡ (
        some (write_header w (open_file f []).0 time_ns 2).0,
        (write_header w (open_file f []).0 time_ns 2).1,
      )
  unfolding open_payloads
  open_payloads-opened f absent e o = ground arith

  open_payloads-refused :
      (f : File)
      → world.content (data_path w.folder file) ≡ none
      → world.new_payloads ≡ some f
      → (open_file f []).1 ≡ false
      → negative (open_payloads world w file time_ns).1 ≡ true
  unfolding open_payloads
  open_payloads-refused f absent e o = ground arith

  open_payloads-missing :
      world.new_payloads ≡ none → negative (open_payloads world w file time_ns).1 ≡ true
  unfolding open_payloads
  open_payloads-missing e = ground arith

  abbrev HoldsHeader : Option File × ℤ → Type 0
  HoldsHeader r = (d : File) × (r.0 ≡ some d) × Fresh w time_ns 2 d r.1

  open_payloads-Fresh :
      world.content (data_path w.folder file) ≡ none
      → negative (open_payloads world w file time_ns).1 ≡ false
      → HoldsHeader (open_payloads world w file time_ns)
  open_payloads-Fresh absent ok = elim (Option-cases world.new_payloads) [
    | inl e ↦ cc (open_payloads-missing e)
    | inr (f, e) ↦ elim (Bool-cases (open_file f []).1) [
      | inr o ↦ cc (open_payloads-refused f absent e o)
      | inl o ↦
          let q = open_payloads-opened f absent e o in
          subst HoldsHeader (sym q) (
            (write_header w (open_file f []).0 time_ns 2).0,
            refl,
            Fresh-write_header w f time_ns 2 o (
                write_header-signs w (open_file f []).0 time_ns 2
                  (subst (λ (r : Option File × ℤ). negative r.1 ≡ false) q ok)),
          )
    ]
  ]

  -- The writer with two new files.
  abbrev begun : File → File → StreamWriter
  begun i d = record w { index = some i; payloads = some d; offset = 49; last_flush = world.now }

  reopen_payloads-begun :
      (i d : File)
      → w.record_size ≡ 0
      → (open_payloads world w file time_ns).0 ≡ some d
      → (open_payloads world w file time_ns).1 ≡ pos 49
      → reopen_payloads world w i file time_ns (pos 49) ≡ (begun i d, returned (pos 98))
  unfolding reopen_payloads
  reopen_payloads-begun i d v de ce = ground arith

  reopen_payloads-refused :
      (i : File) (code : ℤ)
      → w.record_size ≡ 0
      → negative (open_payloads world w file time_ns).1 ≡ true
      → (reopen_payloads world w i file time_ns (pos 49)).1 ≡ returned code
      → positive code ≡ false
  unfolding reopen_payloads
  reopen_payloads-refused i code v bad e = ground arith

  begun-Started :
      (i d : File) (c : ℤ)
      → w.record_size ≡ 0
      → Fresh w time_ns 1 i (pos 49)
      → Fresh w time_ns 2 d c
      → Started w time_ns (begun i d, returned (pos 98))
  unfolding data_bytes
  begun-Started i d c v fi fd = record {
    index_file = i;
    data_file = d;
    linked = record {
      index_is = refl;
      payloads_is = refl;
      variable = v;
      index_open = fi.is_open;
      payloads_open = fd.is_open;
      readable = record {
        tail = [];
        junk = [];
        index_split = fi.bytes ∙ sym (append-nil _);
        data_split = fd.bytes ∙ sym (append-nil _);
        short = omega arith;
      };
      in_step = inl ((refl, refl), refl);
    };
    index_good = fi.good;
    data_good = fd.good;
    index_holds = take_all i.written i.bytes fi.flushed ∙ fi.bytes;
    data_holds = take_all d.written d.bytes fd.flushed ∙ fd.bytes;
    count = refl;
  }

  -- Behind a good index header, in a writer of variable length records.
  reopen_payloads-Started :
      (i : File)
      → w.record_size ≡ 0
      → world.content (data_path w.folder file) ≡ none
      → Fresh w time_ns 1 i (pos 49)
      → (code : ℤ) → (reopen_payloads world w i file time_ns (pos 49)).1 ≡ returned code
      → positive code ≡ true
      → Started w time_ns (reopen_payloads world w i file time_ns (pos 49))
  reopen_payloads-Started i v absent fi code e p =
      elim (Bool-cases (negative (open_payloads world w file time_ns).1)) [
        | inl bad ↦ cc (reopen_payloads-refused i code v bad e)
        | inr ok ↦
            let (d, de, fd) = open_payloads-Fresh absent ok in
            subst (Started w time_ns) (sym (reopen_payloads-begun i d v de fd.count))
              (begun-Started i d _ v fi fd)
      ]

  reopen_index-refused :
      (f : File) (code : ℤ)
      → world.content (idx_path w.folder file) ≡ none
      → (open_file f []).1 ≡ false
      → (reopen_index world w file time_ns f).1 ≡ returned code
      → positive code ≡ false
  unfolding reopen_index
  reopen_index-refused f code absent o e = ground arith

  reopen_index-unwritten :
      (f : File) (code : ℤ)
      → world.content (idx_path w.folder file) ≡ none
      → (open_file f []).1 ≡ true
      → positive (write_header w (open_file f []).0 time_ns 1).1 ≡ false
      → (reopen_index world w file time_ns f).1 ≡ returned code
      → positive code ≡ false
  unfolding reopen_index
  reopen_index-unwritten f code absent o h e = ground arith

  reopen_index-written :
      (f : File)
      → world.content (idx_path w.folder file) ≡ none
      → (open_file f []).1 ≡ true
      → (write_header w (open_file f []).0 time_ns 1).1 ≡ pos 49
      → reopen_index world w file time_ns f
        ≡ reopen_payloads world w
            (write_header w (open_file f []).0 time_ns 1).0
            file
            time_ns
            (pos 49)
  unfolding reopen_index
  reopen_index-written f absent o h = ground arith

  reopen_index-Started :
      (f : File)
      → w.record_size ≡ 0
      → world.content (idx_path w.folder file) ≡ none
      → world.content (data_path w.folder file) ≡ none
      → (code : ℤ) → (reopen_index world w file time_ns f).1 ≡ returned code
      → positive code ≡ true
      → Started w time_ns (reopen_index world w file time_ns f)
  reopen_index-Started f v ai ad code e p = elim (Bool-cases (open_file f []).1) [
    | inr o ↦ cc (reopen_index-refused f code ai o e)
    | inl o ↦ elim (Bool-cases (positive (write_header w (open_file f []).0 time_ns 1).1)) [
      | inr h ↦ cc (reopen_index-unwritten f code ai o h e)
      | inl h ↦
          let fi = Fresh-write_header w f time_ns 1 o h in
          let q = reopen_index-written f ai o fi.count in
          subst (Started w time_ns) (sym q) (
            reopen_payloads-Started (write_header w (open_file f []).0 time_ns 1).0 v ad
              (record {
                bytes = fi.bytes;
                good = fi.good;
                is_open = fi.is_open;
                flushed = fi.flushed;
                count = refl;
              })
              code (subst (λ (r : StreamWriter × Outcome). r.1 ≡ returned code) q e) p)
    ]
  ]

-- A name that is not taken names no file.
not-taken :
    (world : World) (folder file : Text)
    → is_taken world folder file ≡ false
    → (world.content (idx_path folder file) ≡ none) × (world.content (data_path folder file) ≡ none)
not-taken world folder file h = ground arith

module _ (world : World) (w : StreamWriter) (time_ns : ℕ) where
  abbrev found_name : Option Text
  found_name =
      free_name name_fuel (is_taken world w.folder) (file_name world w time_ns)
        (file_name world w time_ns) 1

  reopen_file-found :
      (file : Text) (f : File)
      → found_name ≡ some file
      → world.new_index ≡ some f
      → reopen_file world w time_ns ≡ reopen_index world (record w { offset = 0 }) file time_ns f
  unfolding reopen_file
  reopen_file-found file f n e = ground arith

  reopen_file-unnamed :
      (code : ℤ) → found_name ≡ none → (reopen_file world w time_ns).1 ≡ returned code → ⊥
  unfolding reopen_file
  reopen_file-unnamed code n e = ground arith

  reopen_file-missing :
      (code : ℤ)
      → world.new_index ≡ none
      → (reopen_file world w time_ns).1 ≡ returned code
      → positive code ≡ false
  unfolding reopen_file
  reopen_file-missing code m e = ground arith

  -- For a channel of variable length records, whenever `reopenFile` returns a positive count, that
  -- count is the size of two headers, and the two files themselves hold just their headers, whose
  -- streams are good and are linked as a channel without records.
  pub reopen_file-Started :
      w.record_size ≡ 0
      → (code : ℤ) → (reopen_file world w time_ns).1 ≡ returned code
      → positive code ≡ true
      → Started (record w { offset = 0 }) time_ns (reopen_file world w time_ns)
  reopen_file-Started v code e p = elim (Option-cases found_name) [
    | inl n ↦ absurd (reopen_file-unnamed code n e)
    | inr (file, n) ↦ elim (Option-cases world.new_index) [
      | inl m ↦ cc (reopen_file-missing code m e)
      | inr (f, m) ↦
          let q = reopen_file-found file f n m in
          let absent = not-taken world w.folder file (
            free_name-free name_fuel (is_taken world w.folder) (file_name world w time_ns)
              (file_name world w time_ns) 1 file n) in
          subst (Started (record w { offset = 0 }) time_ns) (sym q) (
            reopen_index-Started world (record w { offset = 0 }) file time_ns f v absent.0 absent.1
              code (subst (λ (r : StreamWriter × Outcome). r.1 ≡ returned code) q e) p)
    ]
  ]
