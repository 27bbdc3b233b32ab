-- ===== src/StreamWriter.antt =====
-- libs/log_writer/storage_management/stream_writer.{h,cpp}: `StreamWriter`, which writes one
-- channel into an index file and, for records of variable length, a data file.
pub mod Commit
pub mod Images
pub mod Linked
pub mod Append
pub mod Log
pub mod Fixed
pub mod Open
pub mod Start
pub mod Fault
use tracebox.Prelude.{
  ℕ, zero, suc, ◌+◌, ◌-◌, ◌*◌, ◌/◌, ◌%◌, ◌^◌, ◌<◌, ◌≡◌, Bool, true, false, ◌&&◌, ◌||◌, not, List,
  [], ◌∷◌, ◌++◌, Option, none, some, ℤ, pos, negsuc, int32, size_of_int, positive, negative, length,
  take, replicate, ltb, leb, ◌==◌, if◌then◌else◌, min,
}
use tracebox.Bytes.{Text, le_bytes}
use tracebox.Format.{
  LogFileHeader, encode_header, index_file, data_file, format_major, format_minor, header_bytes,
  name_size,
}
use tracebox.FileIo.{File, open_file, write_file, flush_file, close_file}

-- `-EINVAL` and `-EIO`.
abbrev pub einval : ℤ
einval = negsuc 21

abbrev pub eio : ℤ
eio = negsuc 4

-- How a call ends: it returns an `int`; it throws, as the injected fault and `create_directories`
-- do; or the loop over file names never finds a free one.
pub data Outcome : Type 0 where
  returned : ℤ → Outcome
  raises : Outcome
  hangs : Outcome

pub record LogRequest : Type 0 where
  pub channel : Text
  pub size : ℕ
  pub payload : Text
  pub time_ns : ℕ

pub record StreamWriter : Type 0 where
  pub folder : Text
  pub name : Text
  pub record_size : ℕ
  pub offset : ℕ
  pub index : Option File
  pub payloads : Option File
  pub last_flush : ℕ
  pub throws : Bool

pub record TimeOfDay : Type 0 where
  pub hour : ℕ
  pub minute : ℕ
  pub second : ℕ

-- What a call meets outside: the disk by path, the clock in nanoseconds, what the local time of
-- a timestamp is, and what the factory returns for the index and for the data file.
pub record World : Type 0 where
  pub content : Text → Option Text
  pub now : ℕ
  pub local_time : ℕ → TimeOfDay
  pub new_index : Option File
  pub new_payloads : Option File

-- `StreamWriter(folder)`
unfoldable pub init : Text → StreamWriter
init folder = record {
  folder = folder;
  name = [];
  record_size = 0;
  offset = 0;
  index = none;
  payloads = none;
  last_flush = 0;
  throws = false;
}

-- `std::to_string`
unfoldable pub decimal_from : ℕ → ℕ → Text → Text
decimal_from zero n acc = acc
decimal_from (suc fuel) n acc =
    let digits = (b'0' + n % 10) ∷ acc in
    let rest = decimal_from fuel (n / 10) digits in if ltb n 10 then digits else rest

unfoldable pub to_string : ℕ → Text
unfolding decimal_from
to_string n = decimal_from (suc n) n []

-- `std::setw(2)` with `std::setfill('0')`
unfoldable pub two_digits : ℕ → Text
unfolding to_string
two_digits n = if ltb n 10 then b'0' ∷ to_string n else to_string n

unfoldable pub file_name : World → StreamWriter → ℕ → Text
unfolding two_digits
file_name world w time_ns =
    two_digits now.hour
    ++ (two_digits now.minute
        ++ (two_digits now.second ++ ((b'_' ∷ w.name) ++ (b'_' ∷ to_string w.record_size))))
  where
    now : TimeOfDay
    now = world.local_time time_ns

abbrev pub idx_path : Text → Text → Text
idx_path folder file = folder ++ (b'/' ∷ (file ++ (b'.' ∷ b'i' ∷ b'd' ∷ b'x' ∷ [])))

abbrev pub data_path : Text → Text → Text
data_path folder file = folder ++ (b'/' ∷ (file ++ (b'.' ∷ b'd' ∷ b'a' ∷ b't' ∷ b'a' ∷ [])))

abbrev pub exists : World → Text → Bool
exists world path = elim (world.content path) [ none ↦ false | some bytes ↦ true ]

-- What a file opened for appending starts with.
abbrev pub on_disk : Option Text → Text
on_disk none = []
on_disk (some bytes) = bytes

-- The condition of the loop over the file names.
abbrev pub is_taken : World → Text → Text → Bool
is_taken world folder file =
    exists world (idx_path folder file) || exists world (data_path folder file)

-- `fileName(time_ns) + "_" + std::to_string(suffix)`
abbrev pub suffixed : Text → ℕ → Text
suffixed base suffix = base ++ (b'_' ∷ to_string suffix)

-- The loop from `suffix` on, the present name being `file`. The suffix is a `uint32_t`.
unfoldable pub free_name : ℕ → (Text → Bool) → Text → Text → ℕ → Option Text
free_name zero taken base file suffix = none
free_name (suc fuel) taken base file suffix = elim (taken file) [
  | false ↦ some file
  | true ↦ free_name fuel taken base (suffixed base suffix) ((suffix + 1) % 2 ^ 32)
]

-- The name as it stands and the 2 ^ 32 suffixes: behind these the loop only repeats itself.
abbrev pub name_fuel : ℕ
name_fuel = 2 ^ 32 + 1

-- The array `name_`: at most 32 bytes of the name, and zeros.
unfoldable pub header_name : Text → Text
header_name name = take name_size name ++ replicate (name_size - min name_size (length name)) 0

unfoldable pub header_of : StreamWriter → ℕ → ℕ → LogFileHeader
unfolding header_name
header_of w time_ns type = record {
  header_size = header_bytes;
  timestamp_ns = time_ns;
  record_size = w.record_size;
  major_version = format_major;
  minor_version = format_minor;
  file_type = type;
  name = header_name w.name;
}

unfoldable pub write_header : StreamWriter → File → ℕ → ℕ → File × ℤ
write_header w f time_ns type =
    if f.is_open
    then (let (g, written) = write_file f (encode_header (header_of w time_ns type)) in
        if written
        then (let (h, flushed) = flush_file g in (h, if flushed then pos header_bytes else eio))
        else (g, eio))
    else (f, einval)

-- `data_ && data_->open(...) ? writeHeader(...) : -EINVAL`
unfoldable pub open_payloads : World → StreamWriter → Text → ℕ → Option File × ℤ
open_payloads world w file time_ns = elim world.new_payloads [
  | none ↦ (none, einval)
  | some f ↦
      let (g, opened) = open_file f (on_disk (world.content (data_path w.folder file))) in
      if opened
      then (let (h, code) = write_header w g time_ns data_file in (some h, code))
      else (some g, einval)
]

-- The rest of `reopenFile` behind a written index header; `i` is the index file.
unfoldable pub reopen_payloads : World → StreamWriter → File → Text → ℕ → ℤ → StreamWriter × Outcome
reopen_payloads world w i file time_ns result =
    if w.record_size == 0
    then (let (d, code) = open_payloads world w file time_ns in
        if negative code
        then (
          record w { index = some (close_file i); payloads = d; offset = header_bytes },
          returned code,
        )
        else (
          record w { index = some i; payloads = d; offset = header_bytes; last_flush = world.now },
          returned (int32 (size_of_int result + size_of_int code)),
        ))
    else (record w { index = some i; last_flush = world.now }, returned result)

unfoldable pub reopen_index : World → StreamWriter → Text → ℕ → File → StreamWriter × Outcome
reopen_index world w file time_ns f =
    let (g, opened) = open_file f (on_disk (world.content (idx_path w.folder file))) in
    if opened
    then (let (h, result) = write_header w g time_ns index_file in
        if positive result
        then reopen_payloads world w h file time_ns result
        else (record w { index = some (close_file h) }, returned result))
    else (record w { index = some g }, returned einval)

unfoldable pub reopen_file : World → StreamWriter → ℕ → StreamWriter × Outcome
reopen_file world w time_ns =
    let base = file_name world w time_ns in
    let fresh = record w { offset = 0 } in
    elim (free_name name_fuel (is_taken world w.folder) base base 1) [
      | none ↦ (fresh, hangs)
      | some file ↦ elim world.new_index [
        | none ↦ (record fresh { index = none }, returned einval)
        | some f ↦ reopen_index world fresh file time_ns f
      ]
    ]

unfoldable pub open_request : World → StreamWriter → LogRequest → StreamWriter × Outcome
open_request world w request =
    reopen_file world (record w { name = request.channel; record_size = request.size })
      request.time_ns

-- `if (f && f->isOpen()) { f->flush(); f->close(); }`
abbrev pub close_one : Option File → Option File
close_one none = none
close_one (some f) = if f.is_open then some (close_file (flush_file f).0) else some f

unfoldable pub close_writer : StreamWriter → StreamWriter
close_writer w = record w { index = close_one w.index; payloads = close_one w.payloads }

unfoldable pub set_fault_injector : StreamWriter → Bool → StreamWriter
set_fault_injector w throws = record w { throws = throws }

-- `!f->write(a) || !f->write(b) || ...`: no write behind the first that fails.
unfoldable pub write_all : File → List Text → File × Bool
write_all f [] = (f, true)
write_all f (chunk ∷ chunks) =
    let (g, written) = write_file f chunk in
    let rest = write_all g chunks in if written then rest else (g, false)

-- Such writes, and then the flush if it is due.
unfoldable pub commit : File → Bool → List Text → File × Bool
unfolding write_all
commit f due chunks =
    let (g, written) = write_all f chunks in
    if written then (if due then flush_file g else (g, true)) else (g, false)

unfoldable pub write_fixed : StreamWriter → File → Bool → ℕ → Text → StreamWriter × Outcome
write_fixed w f due time_ns payload =
    if length payload == w.record_size
    then (let (g, written) = commit f due (le_bytes 8 time_ns ∷ payload ∷ []) in
        (
          record w { index = some g },
          returned (if written then int32 (w.record_size + 8) else eio),
        ))
    else (w, returned einval)

-- `uint32_t size = data.size();`
abbrev pub size32 : Text → ℕ
size32 payload = length payload % 2 ^ 32

abbrev pub record_chunks : ℕ → Text → List Text
record_chunks time_ns payload =
    le_bytes 8 time_ns ∷ le_bytes 4 (size32 payload) ∷ take (size32 payload) payload ∷ []

abbrev pub entry_chunks : ℕ → ℕ → List Text
entry_chunks time_ns offset = le_bytes 8 time_ns ∷ le_bytes 4 offset ∷ []

-- The data first, then the index entry; `result` holds the bytes of new headers.
unfoldable pub append_variable :
    StreamWriter → File → File → Bool → ℕ → Text → ℕ → StreamWriter × Outcome
append_variable w i d due time_ns payload result =
    let (e, stored) = commit d due (record_chunks time_ns payload) in
    let behind = record w { payloads = some e } in
    if stored
    then (if w.throws
        then (behind, raises)
        else (let (j, entered) = commit i due (entry_chunks time_ns w.offset) in
            if entered
            then (
              record behind {
                index = some j;
                offset = (w.offset + (8 + 4 + size32 payload)) % 2 ^ 32;
              },
              returned (int32 (result + (24 + size32 payload))),
            )
            else (record behind { index = some j }, returned eio)))
    else (behind, returned eio)

-- Behind `reopenFile`: both files are there if it has succeeded.
unfoldable pub append_reopened : StreamWriter × Outcome → Bool → ℕ → Text → StreamWriter × Outcome
append_reopened (w, returned code) due time_ns payload =
    if positive code
    then (elim w.index [
      | none ↦ (w, returned einval)
      | some i ↦ elim w.payloads [
        | none ↦ (w, returned einval)
        | some d ↦ append_variable w i d due time_ns payload (size_of_int code)
      ]
    ])
    else (w, returned code)
append_reopened (w, raises) due time_ns payload = (w, raises)
append_reopened (w, hangs) due time_ns payload = (w, hangs)

unfoldable pub write_variable :
    World → StreamWriter → File → Bool → ℕ → Text → StreamWriter × Outcome
write_variable world w i due time_ns payload = elim w.payloads [
  | none ↦ (w, returned einval)
  | some d ↦
      if d.is_open
      then (if ltb (2 ^ 32 - 1) (24 + size32 payload + w.offset)
          then append_reopened (reopen_file world (close_writer w) time_ns) due time_ns payload
          else append_variable w i d due time_ns payload 0)
      else (w, returned einval)
]

-- `seconds_from_last_flush.count() > kFlushIntervalSeconds`
abbrev pub flush_is_due : ℕ → ℕ → Bool
flush_is_due last now = ltb (last + 1000000000) now

unfoldable pub write : World → StreamWriter → ℕ → Text → StreamWriter × Outcome
write world w time_ns payload = elim w.index [
  | none ↦ (w, returned einval)
  | some i ↦
      if i.is_open
      then (if w.record_size == 0
          then write_variable world w i (flush_is_due w.last_flush world.now) time_ns payload
          else write_fixed w i (flush_is_due w.last_flush world.now) time_ns payload)
      else (w, returned einval)
]
