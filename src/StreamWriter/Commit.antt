-- ===== src/StreamWriter/Commit.antt =====
-- What a chain of writes and a flush leave in one stream, whatever the device answers.
use tracebox.Prelude.{
  ◌≡◌, refl, sym, ap, ◌∙◌, Bool, true, false, List, [], ◌∷◌, ◌++◌, append-nil, append_assoc, ℕ, ◌≤◌,
  length, arith, if◌then◌else◌,
}
use tracebox.Bytes.{Text}
use tracebox.FileIo.{File, Answer, done, fails, write_file, flush_file}
use tracebox.StreamWriter.{write_all, commit}

abbrev pub joined : List Text → Text
joined [] = []
joined (chunk ∷ chunks) = chunk ++ joined chunks

-- A write of `all`, by what it reports: the stream has all of it, or it has failed behind a part of
-- it. Either way the file keeps what it held.
pub data Writes (f : File) (all : Text) (g : File) (reported : Bool) : Type 0 where
  whole :
      reported ≡ true
      → f.good ≡ true
      → g.bytes ≡ f.bytes ++ all
      → g.good ≡ true
      → g.is_open ≡ true
      → f.written ≤ g.written
      → Writes f all g reported
  torn :
      (t u : Text)
      → reported ≡ false
      → t ++ u ≡ all
      → g.bytes ≡ f.bytes ++ t
      → g.good ≡ false
      → g.is_open ≡ true
      → (f.good ≡ false → t ≡ [])
      → f.written ≤ g.written
      → Writes f all g reported

abbrev pub WritesPair : File → Text → File × Bool → Type 0
WritesPair f all (g, reported) = Writes f all g reported

module _ (bytes : Text) (written : ℕ) (chunk : Text) where
  of_fields :
      (is_open good : Bool) (answers : List Answer)
      → is_open ≡ true
      → let f : File = record {
        bytes = bytes;
        written = written;
        is_open = is_open;
        good = good;
        answers = answers;
      } in
        WritesPair f chunk (write_file f chunk)
  unfolding write_file
  of_fields true true [] o = whole refl refl refl refl refl (omega arith)
  of_fields true true (done k ∷ rest) o = whole refl refl refl refl refl (omega arith)
  of_fields true true (fails k ∷ rest) o =
      torn chunk [] refl (append-nil chunk) refl refl refl (λ h. cc) (omega arith)
  of_fields true false answers o =
      torn [] chunk refl refl (sym (append-nil bytes)) refl refl (λ h. refl) (omega arith)
  of_fields false good answers o = cc

pub write_file-Writes :
    (f : File) (chunk : Text) → f.is_open ≡ true → WritesPair f chunk (write_file f chunk)
write_file-Writes f chunk o = of_fields f.bytes f.written chunk f.is_open f.good f.answers o

-- One write and then another, the second only behind a whole first.
Writes-append :
    {f g h : File} {b c : Text} {r : Bool}
    → Writes f b g true
    → Writes g c h r
    → Writes f (b ++ c) h r
Writes-append {f} {g} {h} {b} {c} (whole r fg e gg go kept) (whole r' fg' e' gg' go' kept') =
    whole r' fg (e' ∙ ap (λ t. t ++ c) e ∙ append_assoc f.bytes b c) gg' go'
      (omega (arith, kept, kept'))
Writes-append {f} {g} {h} {b} {c} (whole r fg e gg go kept) (torn t u r' s e' gg' go' quiet kept') =
    torn (b ++ t) u r' (append_assoc b t u ∙ ap (λ x. b ++ x) s)
      (e' ∙ ap (λ x. x ++ t) e ∙ append_assoc f.bytes b t) gg' go' (λ bad. cc)
      (omega (arith, kept, kept'))
Writes-append (torn t u r s e gg go quiet kept) second = cc

-- A write that failed is also a failed write of more.
Writes-torn : {f g : File} {b : Text} (c : Text) → Writes f b g false → Writes f (b ++ c) g false
Writes-torn c (whole r fg e gg go kept) = cc
Writes-torn {f} {g} {b} c (torn t u r s e gg go quiet kept) =
    torn t (u ++ c) r (sym (append_assoc t u c) ∙ ap (λ x. x ++ c) s) e gg go quiet kept

Writes-good : {f g : File} {b : Text} → Writes f b g true → g.is_open ≡ true
Writes-good (whole r fg e gg go kept) = go
Writes-good (torn t u r s e gg go quiet kept) = go

-- `then` runs only behind a whole write.
chained :
    {f g : File} {b c : Text} (r : Bool) (next : File × Bool)
    → Writes f b g r
    → (g.is_open ≡ true → WritesPair g c next)
    → WritesPair f (b ++ c) (if r then next else (g, false))
chained true next first second = Writes-append first (second (Writes-good first))
chained {c} false next first second = Writes-torn c first

write_all-Writes :
    (f : File) (chunk : Text) (chunks : List Text)
    → f.is_open ≡ true
    → WritesPair f (joined (chunk ∷ chunks)) (write_all f (chunk ∷ chunks))
unfolding write_all
write_all-Writes f chunk [] o = last (write_file f chunk) (write_file-Writes f chunk o)
  where
    last :
        (p : File × Bool)
        → WritesPair f chunk p
        → WritesPair f (chunk ++ []) (if p.1 then (p.0, true) else (p.0, false))
    last (g, true) w = rw append-nil w
    last (g, false) w = Writes-torn [] w
write_all-Writes f chunk (c ∷ chunks) o =
    chained (write_file f chunk).1 _ (write_file-Writes f chunk o)
      (λ p. write_all-Writes (write_file f chunk).0 c chunks p)

flush_file-Writes :
    {f : File} {b : Text} (g : File) → Writes f b g true → WritesPair f b (flush_file g)
unfolding flush_file
flush_file-Writes {f} {b} g (whole r fg e gg go kept) =
    by_fields f b g.bytes g.written g.is_open g.good g.answers e gg go fg kept
  where
    by_fields :
        (f : File) (b bytes : Text) (written : ℕ) (is_open good : Bool) (answers : List Answer)
        → bytes ≡ f.bytes ++ b
        → good ≡ true
        → is_open ≡ true
        → f.good ≡ true
        → f.written ≤ written
        → let g : File = record {
          bytes = bytes;
          written = written;
          is_open = is_open;
          good = good;
          answers = answers;
        } in
          WritesPair f b (flush_file g)
    by_fields f b bytes n true true [] e gg go fg kept = whole refl fg e refl refl (omega arith)
    by_fields f b bytes n true true (done k ∷ rest) e gg go fg kept =
        whole refl fg e refl refl (omega arith)
    by_fields f b bytes n true true (fails k ∷ rest) e gg go fg kept =
        torn b [] refl (append-nil b) e refl refl (λ h. cc) (omega arith)
    by_fields f b bytes n true false answers e gg go fg kept = cc
    by_fields f b bytes n false good answers e gg go fg kept = cc
flush_file-Writes g (torn t u r s e gg go quiet kept) = cc

-- `commit` hands all chunks to the stream and reports success, or it reports failure, a part of them
-- was handed over, and the stream has failed. Nothing that is in the file is lost.
pub commit-Writes :
    (f : File) (due : Bool) (chunk : Text) (chunks : List Text)
    → f.is_open ≡ true
    → WritesPair f (joined (chunk ∷ chunks)) (commit f due (chunk ∷ chunks))
unfolding commit
commit-Writes f due chunk chunks o =
    by_report due (write_all f (chunk ∷ chunks)) (write_all-Writes f chunk chunks o)
  where
    by_report :
        {b : Text} (due : Bool) (p : File × Bool)
        → WritesPair f b p
        → WritesPair f b
            (if p.1 then (if due then flush_file p.0 else (p.0, true)) else (p.0, false))
    by_report true (g, true) w = flush_file-Writes g w
    by_report false (g, true) w = w
    by_report due (g, false) w = w

-- Everything has left the buffer.
abbrev pub IsFlushed : File → Type 0
IsFlushed f = length f.bytes ≤ f.written

flush_file-IsFlushed :
    (g : File) → g.is_open ≡ true → (flush_file g).1 ≡ true → IsFlushed (flush_file g).0
unfolding flush_file
flush_file-IsFlushed g o h = ground arith

-- A commit that was to flush, and has succeeded, has left nothing in the buffer.
pub commit-IsFlushed :
    (f : File) (due : Bool) (chunk : Text) (chunks : List Text)
    → f.is_open ≡ true
    → due ≡ true
    → (commit f due (chunk ∷ chunks)).1 ≡ true
    → IsFlushed (commit f due (chunk ∷ chunks)).0
unfolding commit
commit-IsFlushed f due chunk chunks o on =
    by_report due on (write_all f (chunk ∷ chunks)) (write_all-Writes f chunk chunks o)
  where
    by_report :
        {b : Text} (due : Bool)
        → due ≡ true
        → (p : File × Bool) → WritesPair f b p
        → let q : File × Bool =
            if p.1 then (if due then flush_file p.0 else (p.0, true)) else (p.0, false) in
          q.1 ≡ true → IsFlushed q.0
    by_report true on (g, true) w h = flush_file-IsFlushed g (Writes-good w) h
    by_report true on (g, false) w h = cc
    by_report false on p w h = cc
