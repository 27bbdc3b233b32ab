-- ===== src/Scanner/Discovery.antt =====
-- libs/log_reader/storage_scanner.cpp: `getStreams` and `extractStreams`, and what they list.
use tracebox.Prelude.{
  ℕ, ◌-◌, ◌%◌, ◌^◌, ◌≡◌, refl, Bool, true, false, not, ◌&&◌, Option, none, some, List, [], ◌∷◌,
  ◌++◌, ltb, leb, ◌==◌, if◌then◌else◌, All, All-append,
}
use tracebox.Bytes.{Text, text_eq}
use tracebox.Calendar.{Date, time_to_yyyymmdd}
use tracebox.Storage.Filesystem.{skip_spaces, digits_from, is_digit}
use tracebox.Reader.FileReader.{name_of}
use tracebox.Reader.IndexFile.{IndexFileReader}
use tracebox.Reader.StreamReader.{
  StreamReader, StreamStatus, open_stream, stream_matches, idx_extension,
}
use tracebox.Scanner.{FilePath, ScannerWorld, Requested, resolve_index_path}

-- `std::stoul`: the number that the text begins with, a sign taken modulo 2^64.
abbrev in_ulong : Bool → ℕ → Option ℕ
in_ulong negative n =
    if ltb n (2 ^ 64) then some (if negative then (2 ^ 64 - n) % 2 ^ 64 else n) else none

abbrev unsigned : Bool → Text → Option ℕ
unsigned negative [] = none
unsigned negative (c ∷ cs) = if is_digit c then in_ulong negative (digits_from 0 (c ∷ cs)) else none

abbrev with_sign : Text → Option ℕ
with_sign [] = none
with_sign (c ∷ cs) =
    if c == b'-'
    then unsigned true cs
    else (if c == b'+' then unsigned false cs else unsigned false (c ∷ cs))

unfoldable pub stoul : Text → Option ℕ
unfolding skip_spaces
stoul text = with_sign (skip_spaces text)

-- An entry of a day's folder.
pub record DirEntry : Type 0 where
  pub path : FilePath
  pub is_directory : Bool
  pub extension : Text

-- An entry of the storage folder, with what its iterator finds; none if it throws.
pub record DayEntry : Type 0 where
  pub is_directory : Bool
  pub name : Text
  pub files : Option (List DirEntry)

-- `DataStreamsResponse::stream`
pub record StreamInfo : Type 0 where
  pub day : ℕ
  pub name : Text
  pub status : StreamStatus
  pub file : Text
  pub records_cnt : ℕ
  pub start_time_ns : ℕ
  pub end_time_ns : ℕ

-- `relative` is `streamIdentifier`, none for an exception.
module _ (world : ScannerWorld) (parse : Text → Requested) (root : FilePath)
    (relative : FilePath → Option Text) (start end : ℕ) where
  abbrev pub info_of : ℕ → Text → StreamStatus → IndexFileReader → StreamInfo
  info_of day file status index = record {
    day = day % 2 ^ 32;
    name = name_of index.file;
    status = status;
    file = file;
    records_cnt = index.records_cnt;
    start_time_ns = index.start_ns;
    end_time_ns = index.end_ns;
  }

  -- What a reader of a resolved path adds.
  abbrev pub listed : ℕ → Text → StreamReader → List StreamInfo
  listed day file r = elim r.index [
    | none ↦ []
    | some index ↦ if stream_matches r start end then info_of day file r.status index ∷ [] else []
  ]

  abbrev pub resolved_streams : ℕ → Text → Option FilePath → List StreamInfo
  resolved_streams day file none = []
  resolved_streams day file (some path) =
      listed day file (open_stream world.reader (world.as_text path))

  -- `extractStreams`; an exception ends the directory and leaves what was added.
  unfoldable pub extract_streams : ℕ → List DirEntry → List StreamInfo
  extract_streams day [] = []
  extract_streams day (e ∷ es) =
      let rest = extract_streams day es in
      if not e.is_directory && text_eq e.extension idx_extension
      then (elim (relative e.path) [
        | none ↦ []
        | some file ↦ resolved_streams day file (resolve_index_path world parse root file) ++ rest
      ])
      else rest

  abbrev pub day_streams : ℕ → ℕ → Option ℕ → Option (List DirEntry) → List StreamInfo
  day_streams start_day end_day none files = []
  day_streams start_day end_day (some day) none = []
  day_streams start_day end_day (some day) (some files) =
      if leb start_day day && leb day end_day then extract_streams day files else []

  -- The loop of `getStreams`.
  unfoldable pub streams_of : ℕ → ℕ → List DayEntry → List StreamInfo
  streams_of start_day end_day [] = []
  streams_of start_day end_day (e ∷ es) =
      (if e.is_directory then day_streams start_day end_day (stoul e.name) e.files else [])
      ++ streams_of start_day end_day es

  -- `getStreams`
  unfoldable pub get_streams : (ℕ → Date) → List DayEntry → List StreamInfo
  get_streams local_date days =
      streams_of (time_to_yyyymmdd local_date start) (time_to_yyyymmdd local_date end) days

  -- A listed stream can be requested by its identifier, and has data for the range.
  pub record Requestable (i : StreamInfo) : Type 0 where
    pub path : FilePath
    pub resolves : resolve_index_path world parse root i.file ≡ some path
    pub matches : stream_matches (open_stream world.reader (world.as_text path)) start end ≡ true

  listed-Requestable :
      (day : ℕ) (file : Text) (path : FilePath)
      → resolve_index_path world parse root file ≡ some path
      → All Requestable (listed day file (open_stream world.reader (world.as_text path)))
  listed-Requestable day file path e =
      by_index (open_stream world.reader (world.as_text path)).index
    where
      r : StreamReader
      r = open_stream world.reader (world.as_text path)

      by_index :
          (o : Option IndexFileReader)
          → All Requestable (elim o [
            | none ↦ []
            | some index ↦
                if stream_matches r start end then info_of day file r.status index ∷ [] else []
          ])
      by_index none = tt
      by_index (some index) = by_test (stream_matches r start end) refl
        where
          by_test :
              (t : Bool)
              → stream_matches r start end ≡ t
              → All Requestable (if t then info_of day file r.status index ∷ [] else [])
          by_test false q = tt
          by_test true q = (record { path = path; resolves = e; matches = q }, tt)

  resolved-Requestable :
      (day : ℕ) (file : Text) (o : Option FilePath)
      → resolve_index_path world parse root file ≡ o
      → All Requestable (resolved_streams day file o)
  resolved-Requestable day file none e = tt
  resolved-Requestable day file (some path) e = listed-Requestable day file path e

  extract_streams-Requestable :
      (day : ℕ) (es : List DirEntry) → All Requestable (extract_streams day es)
  unfolding extract_streams
  extract_streams-Requestable day [] = tt
  extract_streams-Requestable day (e ∷ es) =
      by_test (extract_streams-Requestable day es)
        (not e.is_directory && text_eq e.extension idx_extension)
    where
      by_relative :
          All Requestable (extract_streams day es)
          → (o : Option Text)
          → All Requestable (elim o [
            | none ↦ []
            | some file ↦
                resolved_streams day file (resolve_index_path world parse root file)
                ++ extract_streams day es
          ])
      by_relative rest none = tt
      by_relative rest (some file) =
          All-append Requestable
            (resolved_streams day file (resolve_index_path world parse root file))
            (extract_streams day es) (resolved-Requestable day file _ refl) rest

      by_test :
          All Requestable (extract_streams day es)
          → (t : Bool)
          → All Requestable (
              if t
              then (elim (relative e.path) [
                | none ↦ []
                | some file ↦
                    resolved_streams day file (resolve_index_path world parse root file)
                    ++ extract_streams day es
              ])
              else extract_streams day es)
      by_test rest true = by_relative rest (relative e.path)
      by_test rest false = rest

  day_streams-Requestable :
      (start_day end_day : ℕ) (day : Option ℕ) (files : Option (List DirEntry))
      → All Requestable (day_streams start_day end_day day files)
  day_streams-Requestable start_day end_day none files = tt
  day_streams-Requestable start_day end_day (some day) none = tt
  day_streams-Requestable start_day end_day (some day) (some files) =
      by_test (extract_streams-Requestable day files) (leb start_day day && leb day end_day)
    where
      by_test :
          All Requestable (extract_streams day files)
          → (t : Bool) → All Requestable (if t then extract_streams day files else [])
      by_test found true = found
      by_test found false = tt

  streams_of-Requestable :
      (start_day end_day : ℕ) (es : List DayEntry)
      → All Requestable (streams_of start_day end_day es)
  unfolding streams_of
  streams_of-Requestable start_day end_day [] = tt
  streams_of-Requestable start_day end_day (e ∷ es) =
      All-append Requestable
        (if e.is_directory then day_streams start_day end_day (stoul e.name) e.files else [])
        (streams_of start_day end_day es) (by_test e.is_directory)
        (streams_of-Requestable start_day end_day es)
    where
      by_test :
          (t : Bool)
          → All Requestable (if t then day_streams start_day end_day (stoul e.name) e.files else [])
      by_test true = day_streams-Requestable start_day end_day (stoul e.name) e.files
      by_test false = tt

  -- Every stream that `getStreams` lists can be requested: its identifier is resolved by
  -- `resolveIndexPath`, and the stream reader on the resolved path is healthy and meets the time
  -- range.
  pub get_streams-Requestable :
      (local_date : ℕ → Date) (days : List DayEntry) → All Requestable (get_streams local_date days)
  unfolding get_streams
  get_streams-Requestable local_date days = streams_of-Requestable _ _ days
