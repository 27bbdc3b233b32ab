-- ===== src/StreamWriter/Log.antt =====
-- A channel of variable length records as an append-only log, over any run of `StreamWriter::write`.
use tracebox.Prelude.{
  ℕ, ◌+◌, ◌^◌, ◌<◌, ◌≤◌, ◌≡◌, refl, sym, ap, ◌∙◌, Bool, false, true, false, List, [], ◌∷◌, ◌++◌,
  arith, int32, subst, if-elim,
}
use tracebox.Bytes.{Text}
use tracebox.FileIo.{File}
use tracebox.StreamWriter.{
  StreamWriter, World, Outcome, returned, eio, commit, record_chunks, entry_chunks, size32,
  append_variable, write, flush_is_due,
}
use tracebox.StreamWriter.Images.{Piece, data_bytes, data_bytes-snoc}
use tracebox.StreamWriter.Linked.{Linked, InFiles, InFiles-Grew, IsFlushed-InFiles}
use tracebox.StreamWriter.Append.{
  Appended, stored, failed, failed_behind, write-Appended, write-append,
}

-- What a caller knows of a write: the record, whether the write was to flush, and the result.
abbrev pub Attempt : Type 0
Attempt = Piece × Bool × Outcome

-- What has been accepted, and the records that are in the files themselves.
pub record Log : Type 0 where
  pub accepted : List Piece
  pub in_files : List Piece

-- An acknowledged record is put at the end of the accepted ones, and a flush puts them
-- all into the files. One that is reported as an error may be accepted or not. What is in the
-- files stays there.
pub data LogStep (log : Log) (p : Piece) : Bool → Outcome → Log → Type 0 where
  acknowledged :
      {out : Outcome}
      → out ≡ returned (int32 (24 + size32 p.payload))
      → LogStep log p false out (record log { accepted = log.accepted ++ p ∷ [] })
  flushed :
      {out : Outcome}
      → out ≡ returned (int32 (24 + size32 p.payload))
      → LogStep log p true out
          (record { accepted = log.accepted ++ p ∷ []; in_files = log.accepted ++ p ∷ [] })
  lost : {due : Bool} {out : Outcome} → out ≡ returned eio → LogStep log p due out log
  kept :
      {due : Bool} {out : Outcome}
      → out ≡ returned eio
      → LogStep log p due out (record log { accepted = log.accepted ++ p ∷ [] })

-- The logs that a list of attempts leads to.
pub data LogRun : Log → List Attempt → Log → Type 0 where
  over : {log : Log} → LogRun log [] log
  step :
      {log next last : Log} {p : Piece} {due : Bool} {out : Outcome} {more : List Attempt}
      → LogStep log p due out next
      → LogRun next more last
      → LogRun log ((p, due, out) ∷ more) last

-- A run of the writer, each write in the world of its time.
unfoldable pub write_each : StreamWriter → List (World × Piece) → StreamWriter × List Attempt
write_each w [] = (w, [])
write_each w ((world, p) ∷ rest) =
    let (w', out) = write world w p.time_ns p.payload in
    let (w'', attempts) = write_each w' rest in
    (w'', (p, flush_is_due w.last_flush world.now, out) ∷ attempts)

-- The room that the records need in the data file, as `write` counts it: the index entry with it.
unfoldable pub room_for : List (World × Piece) → ℕ
room_for [] = 0
room_for ((world, p) ∷ rest) = 24 + size32 p.payload + room_for rest

-- How far the offset may move, and that the injector stays.
abbrev Moved : StreamWriter → Piece → StreamWriter × Outcome → Type 0
Moved w p r = (r.0.offset ≤ w.offset + (12 + size32 p.payload)) × (r.0.throws ≡ w.throws)

module _ (w : StreamWriter) (i d : File) (due : Bool) (p : Piece) where
  append_variable-Moved : Moved w p (append_variable w i d due p.time_ns p.payload 0)
  unfolding append_variable
  append_variable-Moved =
      if-elim (Moved w p) stores
        (λ stored.
          if-elim (Moved w p) w.throws (λ faulty. (omega arith, refl))
            (λ calm.
              if-elim (Moved w p) enters (λ entered. (ground arith, refl))
                (λ e. (omega arith, refl))))
        (λ unstored. (omega arith, refl))
    where
      stores : Bool
      stores = (commit d due (record_chunks p.time_ns p.payload)).1

      enters : Bool
      enters = (commit i due (entry_chunks p.time_ns w.offset)).1

-- What a run from `log` has led to: a log that the attempts allow, whose accepted records the
-- streams were handed, and and whose flushed records are in the two files.
pub record Logged (ih dh : Text) (log : Log) (r : StreamWriter × List Attempt) : Type 0 where
  pub last : Log
  pub index : File
  pub payloads : File
  pub run : LogRun log r.1 last
  pub linked : Linked ih dh r.0 index payloads last.accepted
  pub in_files : InFiles ih dh index payloads last.in_files

module _ (ih dh : Text) where
  after_step :
      {log next : Log} {w : StreamWriter} {attempts : List Attempt} {due : Bool} {p : Piece}
      {out : Outcome}
      → LogStep log p due out next
      → Logged ih dh next (w, attempts)
      → Logged ih dh log (w, (p, due, out) ∷ attempts)
  after_step s g = record {
    last = g.last;
    index = g.index;
    payloads = g.payloads;
    run = step s g.run;
    linked = g.linked;
    in_files = g.in_files;
  }

  -- What holds of the runs over `rest`.
  abbrev pub LogsRest : List (World × Piece) → Type 0
  LogsRest rest =
      (w : StreamWriter) (i d : File) (log : Log)
      → Linked ih dh w i d log.accepted
      → InFiles ih dh i d log.in_files
      → w.offset + room_for rest < 2 ^ 32
      → 49 + data_bytes log.accepted + room_for rest < 2 ^ 32
      → w.throws ≡ false
      → Logged ih dh log (write_each w rest)

  module _ (rest : List (World × Piece)) (p : Piece) (log : Log) (i d : File)
      (v : InFiles ih dh i d log.in_files) (again : LogsRest rest) (w w' : StreamWriter)
      (out : Outcome) where
    abbrev RestLogged : Bool → Type 0
    RestLogged due =
        Logged ih dh log ((write_each w' rest).0, (p, due, out) ∷ (write_each w' rest).1)

    write_first :
        (due : Bool)
        → w.offset + (24 + size32 p.payload + room_for rest) < 2 ^ 32
        → 49 + data_bytes log.accepted + (24 + size32 p.payload + room_for rest) < 2 ^ 32
        → w.throws ≡ false
        → Moved w p (w', out)
        → Appended ih dh i d due log.accepted p 0 (w', out)
        → RestLogged due
    write_first true fits room calm moved (stored j e gi gd l good flush q) =
        after_step (flushed (q ∙ ap (λ (n : ℕ). returned (int32 n)) (omega arith))) (
          again w' j e _ l (IsFlushed-InFiles j e l.readable (flush refl).0 (flush refl).1)
            (omega (arith, fits, moved.0)) (omega (arith, room, data_bytes-snoc log.accepted p))
            (moved.1 ∙ calm))
    write_first false fits room calm moved (stored j e gi gd l good flush q) =
        after_step (acknowledged (q ∙ ap (λ (n : ℕ). returned (int32 n)) (omega arith))) (
          again w' j e _ l (InFiles-Grew v gi gd) (omega (arith, fits, moved.0))
            (omega (arith, room, data_bytes-snoc log.accepted p)) (moved.1 ∙ calm))
    write_first due fits room calm moved (failed j e gi gd l bad q) = after_step (lost q) (
        again w' j e log l (InFiles-Grew v gi gd) (omega (arith, fits, moved.0))
          (omega (arith, room)) (moved.1 ∙ calm))
    write_first due fits room calm moved (failed_behind j e gi gd l bad q) = after_step (kept q) (
        again w' j e _ l (InFiles-Grew v gi gd) (omega (arith, fits, moved.0))
          (omega (arith, room, data_bytes-snoc log.accepted p)) (moved.1 ∙ calm))

  -- A channel of variable length records refines a log of two lists: the records that were
  -- accepted, and records that are in the two files. Over any run of `write` on linked streams,
  -- with room for the records below 4 GiB in the offset and in the data and no fault injected,
  -- whatever part of the buffers the device takes and wherever it fails: a write that returns the
  -- count of its record's bytes adds the record to the accepted ones and, if a flush was due, puts
  -- all accepted ones into the files; one that returns -EIO adds it or not; records that are in the
  -- files stay there; and at the end the accepted records are linked in what the streams were
  -- handed, and the list of those in the files lies in the files themselves.
  pub write_each-Logged :
      (rest : List (World × Piece)) (w : StreamWriter) (i d : File) (log : Log)
      → Linked ih dh w i d log.accepted
      → InFiles ih dh i d log.in_files
      → w.offset + room_for rest < 2 ^ 32
      → 49 + data_bytes log.accepted + room_for rest < 2 ^ 32
      → w.throws ≡ false
      → Logged ih dh log (write_each w rest)
  unfolding write_each room_for
  write_each-Logged [] w i d log l v fits room calm = record {
    last = log;
    index = i;
    payloads = d;
    run = over;
    linked = l;
    in_files = v;
  }
  write_each-Logged ((world, p) ∷ rest) w i d log l v fits room calm =
      write_first rest p log i d v (write_each-Logged rest) w _ _
        (flush_is_due w.last_flush world.now) fits room calm
        (subst (Moved w p)
          (sym (
            write-append world w p.time_ns p.payload l.index_is l.payloads_is l.index_open
              l.payloads_open l.variable (omega (arith, fits))))
          (append_variable-Moved w i d (flush_is_due w.last_flush world.now) p))
        (write-Appended ih dh world w i d log.accepted p l (omega (arith, fits))
          (omega (arith, room)) calm)
