-- ===== src/StreamWriter/Open.antt =====
-- Opening the files of a channel: the search for a free name, and the headers.
use tracebox.Prelude.{
  ℕ, length, ◌≤◌, zero, suc, ◌+◌, ◌%◌, ◌^◌, ◌<◌, ◌≡◌, ap, ◌∙◌, Bool, true, false, ◌⊎◌, inl, inr, [],
  ◌++◌, some, arith, ℤ, pos, positive, negative, Bool-cases,
}
use tracebox.Bytes.{Text}
use tracebox.Format.{encode_header}
use tracebox.FileIo.{File, open_file, write_file, flush_file}
use tracebox.StreamWriter.{StreamWriter, free_name, suffixed, header_of, write_header}

-- The `n`-th name that the loop tries from `file` and `suffix` on.
unfoldable pub candidate : Text → Text → ℕ → ℕ → Text
candidate base file suffix zero = file
candidate base file suffix (suc n) = candidate base (suffixed base suffix) ((suffix + 1) % 2 ^ 32) n

-- If the `n`-th name that the loop over file names tries is free, then the loop ends within more
-- than `n` rounds, on a name that is free.
pub free_name-finds :
    (fuel : ℕ) (taken : Text → Bool) (base file : Text) (suffix n : ℕ)
    → n < fuel
    → taken (candidate base file suffix n) ≡ false
    → (found : Text) × (free_name fuel taken base file suffix ≡ some found) × (taken found ≡ false)
unfolding free_name candidate
free_name-finds zero taken base file suffix n h free = elim h [ ]
free_name-finds (suc fuel) taken base file suffix zero h free = (file, rw (free, free_name), free)
free_name-finds (suc fuel) taken base file suffix (suc n) h free =
    by_test (Bool-cases (taken file)) (
      free_name-finds fuel taken base (suffixed base suffix) ((suffix + 1) % 2 ^ 32) n (omega arith)
        free)
  where
    by_test :
        (taken file ≡ true) ⊎ (taken file ≡ false)
        → (found : Text) × (free_name fuel taken base (suffixed base suffix) ((suffix + 1) % 2 ^ 32)
            ≡ some found)
          × (taken found ≡ false)
        → (found : Text) × (free_name (suc fuel) taken base file suffix ≡ some found)
          × (taken found ≡ false)
    by_test (inl t) (found, e, f) = (found, rw (t, free_name) e, f)
    by_test (inr t) rest = (file, rw (t, free_name), t)

pub free_name-free :
    (fuel : ℕ) (taken : Text → Bool) (base file : Text) (suffix : ℕ) (found : Text)
    → free_name fuel taken base file suffix ≡ some found
    → taken found ≡ false
unfolding free_name
free_name-free zero taken base file suffix found e = cc
free_name-free (suc fuel) taken base file suffix found e =
    ground
      (arith, free_name-free fuel taken base (suffixed base suffix) ((suffix + 1) % 2 ^ 32) found)

pub record HeaderWritten (w : StreamWriter) (f : File) (time_ns type : ℕ) (g : File) (code : ℤ)
    : Type 0 where
  pub bytes : g.bytes ≡ f.bytes ++ encode_header (header_of w time_ns type)
  pub good : g.good ≡ true
  pub is_open : g.is_open ≡ true
  pub flushed : length g.bytes ≤ g.written
  pub count : code ≡ pos 49

pub write_header-positive :
    (w : StreamWriter) (f : File) (time_ns type : ℕ)
    → positive (write_header w f time_ns type).1 ≡ true
    → HeaderWritten w f time_ns type
        (write_header w f time_ns type).0
        (write_header w f time_ns type).1
unfolding write_header write_file flush_file
write_header-positive w f time_ns type h = ground arith

pub write_header-signs :
    (w : StreamWriter) (f : File) (time_ns type : ℕ)
    → negative (write_header w f time_ns type).1 ≡ false
    → positive (write_header w f time_ns type).1 ≡ true
unfolding write_header
write_header-signs w f time_ns type h = ground arith

-- A file opened where nothing was.
open_file-empty : (f : File) → (open_file f []).1 ≡ true → (open_file f []).0.bytes ≡ []
unfolding open_file
open_file-empty f h = ground arith

-- A new file that holds a header and nothing else.
pub record Fresh (w : StreamWriter) (time_ns type : ℕ) (g : File) (code : ℤ) : Type 0 where
  pub bytes : g.bytes ≡ encode_header (header_of w time_ns type)
  pub good : g.good ≡ true
  pub is_open : g.is_open ≡ true
  pub flushed : length g.bytes ≤ g.written
  pub count : code ≡ pos 49

pub Fresh-write_header :
    (w : StreamWriter) (f : File) (time_ns type : ℕ)
    → (open_file f []).1 ≡ true
    → positive (write_header w (open_file f []).0 time_ns type).1 ≡ true
    → Fresh w time_ns type
        (write_header w (open_file f []).0 time_ns type).0
        (write_header w (open_file f []).0 time_ns type).1
Fresh-write_header w f time_ns type o h = record {
  bytes = v.bytes ∙ ap (λ b. b ++ encode_header (header_of w time_ns type)) (open_file-empty f o);
  good = v.good;
  is_open = v.is_open;
  flushed = v.flushed;
  count = v.count;
}
  where
    v :
        HeaderWritten w
          (open_file f []).0
          time_ns
          type
          (write_header w (open_file f []).0 time_ns type).0
          (write_header w (open_file f []).0 time_ns type).1
    v = write_header-positive w (open_file f []).0 time_ns type h
