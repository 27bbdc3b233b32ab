-- ===== src/FileIo.antt =====
-- libs/log_writer/storage_management/file_io.h: `StandardFileIO`, an `std::ofstream` behind the
-- `FileIO` interface. The stream has a buffer: `bytes` is all that was handed to it, of which the
-- first `written` have reached the file. The device answers each call by the next of `answers`, and
-- with success behind the last; a stream that has failed stays failed until it is opened again.
use tracebox.Prelude.{
  ℕ, ◌+◌, min, max, length, Bool, true, false, ◌&&◌, List, [], ◌∷◌, ◌++◌, take, if◌then◌else◌,
}
use tracebox.Bytes.{Text}

-- Whether the call succeeds, and how many bytes leave the buffer for the file, if there are as many;
-- a flush or a close that succeeds empties the buffer.
pub data Answer : Type 0 where
  done : ℕ → Answer
  fails : ℕ → Answer

pub record File : Type 0 where
  pub bytes : Text
  pub written : ℕ
  pub is_open : Bool
  pub good : Bool
  pub answers : List Answer

abbrev pub answer : List Answer → Answer
answer [] = done 0
answer (a ∷ rest) = a

abbrev pub later : List Answer → List Answer
later [] = []
later (a ∷ rest) = rest

-- What the file holds.
abbrev pub on_device : File → Text
on_device f = take f.written f.bytes

-- `std::ios::app` keeps what the file holds.
unfoldable pub open_file : File → Text → File × Bool
open_file f existing = elim (answer f.answers) [
  | done k ↦ (
    record {
      bytes = existing;
      written = length existing;
      is_open = true;
      good = true;
      answers = later f.answers;
    },
    true,
  )
  | fails k ↦ (record f { is_open = false; good = false; answers = later f.answers }, false)
]

-- The front of the buffer that reaches the file when the device takes `k` bytes.
abbrev pub reached : File → Text → ℕ → ℕ
reached f bytes k = min (f.written + k) (max f.written (length bytes))

-- The buffer and the new bytes are behind each other, and the device takes them from the front.
abbrev pub handed : File → Text → ℕ → File
handed f chunk k = record f {
  bytes = f.bytes ++ chunk;
  written = reached f (f.bytes ++ chunk) k;
  answers = later f.answers;
}

unfoldable pub write_file : File → Text → File × Bool
write_file f chunk =
    if f.is_open && f.good
    then (elim (answer f.answers) [
      | done k ↦ (handed f chunk k, true)
      | fails k ↦ (record (handed f chunk k) { good = false }, false)
    ])
    else (record f { good = false }, false)

-- All that the buffer holds goes to the file, or a part of it.
abbrev pub emptied : File → File
emptied f = record f { written = max f.written (length f.bytes); answers = later f.answers }

abbrev pub stuck : File → ℕ → File
stuck f k = record f { written = reached f f.bytes k; good = false; answers = later f.answers }

unfoldable pub flush_file : File → File × Bool
flush_file f =
    if f.is_open && f.good
    then (elim (answer f.answers) [ done k ↦ (emptied f, true) | fails k ↦ (stuck f k, false) ])
    else (f, f.good)

-- The stream flushes its buffer before it closes the file. A stream without a file fails.
unfoldable pub close_file : File → File
close_file f =
    if f.is_open
    then (elim (answer f.answers) [
      | done k ↦ record (emptied f) { is_open = false }
      | fails k ↦ record (stuck f k) { is_open = false }
    ])
    else record f { good = false }

-- `makeStandardFileIO()`: a stream that is not open, on a device with the given answers.
abbrev pub standard_file : List Answer → File
standard_file answers = record {
  bytes = [];
  written = 0;
  is_open = false;
  good = true;
  answers = answers;
}
