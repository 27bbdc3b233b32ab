-- ===== src/Scanner.antt =====
-- libs/log_reader/storage_scanner.{h,cpp}: `StorageScanner`. A path is its components. The
-- resolution of symbolic links and the kind of a file are the file system's: parameters.
pub mod Confinement
pub mod Selection
pub mod Discovery
use tracebox.Prelude.{
  ℕ, zero, suc, ◌+◌, ◌-◌, ◌%◌, ◌^◌, ◌≡◌, Bool, true, false, not, ◌&&◌, ◌||◌, Option, none, some,
  List, [], ◌∷◌, ◌++◌, ltb, leb, ◌==◌, if◌then◌else◌,
}
use tracebox.Bytes.{Text, text_eq}
use tracebox.Calendar.{Date, time_to_yyyymmdd}
use tracebox.Reader.FileReader.{OnDisk, ReadError, name_of}
use tracebox.Reader.IndexFile.{open_index, valid_index}
use tracebox.Reader.DataFile.{DataPiece}
use tracebox.Reader.StreamReader.{
  StreamReader, StreamStatus, ReaderWorld, open_stream, stream_matches, stream_records, read_stream,
  stream_error, idx_extension,
}

abbrev pub FilePath : Type 0
FilePath = List Text

-- `isWithinRoot`
unfoldable pub is_within_root : FilePath → FilePath → Bool
is_within_root [] candidate = true
is_within_root (r ∷ root) [] = false
is_within_root (r ∷ root) (c ∷ candidate) = text_eq r c && is_within_root root candidate

abbrev pub dot_dot : Text
dot_dot = b'.' ∷ b'.' ∷ []

-- `hasRejectedComponent`
unfoldable pub has_rejected_component : FilePath → Bool
has_rejected_component [] = false
has_rejected_component (c ∷ cs) = text_eq c dot_dot || has_rejected_component cs

-- `file.find(c) != npos`
unfoldable pub has_byte : ℕ → Text → Bool
has_byte b [] = false
has_byte b (c ∷ cs) = c == b || has_byte b cs

-- The file system as the scanner meets it: `weakly_canonical` (none for an error), which paths
-- are regular files, how a path is written, the relative path of one under the root (none for an
-- error), and the reader's view.
pub record ScannerWorld : Type 0 where
  pub canonical : FilePath → Option FilePath
  pub is_regular_file : FilePath → Bool
  pub as_text : FilePath → Text
  pub reader : ReaderWorld

-- A requested path, as `std::filesystem::path` takes a text apart.
pub record Requested : Type 0 where
  pub components : FilePath
  pub is_absolute : Bool
  pub extension : Text

-- The test of the request itself.
unfoldable pub is_acceptable : Text → Requested → Bool
is_acceptable file requested =
    not (has_byte 0 file)
    && (not (has_byte b'\\' file)
        && (not requested.is_absolute
            && (not (has_rejected_component requested.components)
                && text_eq requested.extension idx_extension)))

abbrev pub is_empty : {A : Type 0} → List A → Bool
is_empty [] = true
is_empty (x ∷ xs) = false

unfoldable pub confine : ScannerWorld → FilePath → FilePath → Option FilePath
confine world root candidate =
    if is_within_root root candidate
      && (world.is_regular_file candidate
          && valid_index
              (open_index (world.reader.disk (world.as_text candidate)) world.reader.beyond_index))
    then some candidate
    else none

-- `resolveIndexPath`
unfoldable pub resolve_index_path :
    ScannerWorld → (Text → Requested) → FilePath → Text → Option FilePath
resolve_index_path world parse root file =
    if is_empty file
    then none
    else (if is_empty (parse file).components || not (is_acceptable file (parse file))
        then none
        else (elim (world.canonical (root ++ (parse file).components)) [
          | none ↦ none
          | some candidate ↦ confine world root candidate
        ]))

-- `set_errors`
pub data DataError : Type 0 where
  invalid_path : DataError
  reader_error : Option ReadError → DataError

-- `DataStreamsResponse` of a request for data.
pub record DataResponse : Type 0 where
  pub pieces : List DataPiece
  pub errors : Option DataError

abbrev pub no_data : DataResponse
no_data = record { pieces = []; errors = none }

abbrev pub in_time : ℕ → ℕ → DataPiece → Bool
in_time start end piece = leb start piece.time_ns && leb piece.time_ns end

abbrev pub add_data : DataPiece → DataResponse → DataResponse
add_data piece response = record response { pieces = piece ∷ response.pieces }

-- A later error takes the place of an earlier one.
abbrev pub or_error : Option ReadError → DataResponse → DataResponse
or_error e response = elim response.errors [
  | none ↦ record response { errors = some (reader_error e) }
  | some later ↦ response
]

-- The loop of `getData` over the `left` records from `idx` on; `wanted` more are to be returned.
unfoldable pub data_from : ℕ → ℕ → ℕ → ℕ → ℕ → StreamReader → DataResponse
data_from zero idx wanted start end r = no_data
data_from (suc left) idx zero start end r = no_data
data_from (suc left) idx (suc wanted) start end r = elim (read_stream r idx).1 [
  | none ↦
      or_error (stream_error (read_stream r idx).0)
        (data_from left (idx + 1) (suc wanted) start end (read_stream r idx).0)
  | some piece ↦ elim (in_time start end piece) [
    | true ↦ add_data piece (data_from left (idx + 1) wanted start end (read_stream r idx).0)
    | false ↦ data_from left (idx + 1) (suc wanted) start end (read_stream r idx).0
  ]
]

-- `getData` behind the resolution of the path.
unfoldable pub stream_data : ℕ → ℕ → ℕ → ℕ → StreamReader → DataResponse
stream_data start end start_idx max_size r =
    if not (stream_matches r start end) || leb (stream_records r) start_idx
    then no_data
    else data_from (stream_records r - start_idx) start_idx max_size start end r

-- `getData`
unfoldable pub get_data :
    ScannerWorld → (Text → Requested) → FilePath → Text → ℕ → ℕ → ℕ → ℕ → DataResponse
get_data world parse root file start end start_idx max_size =
    elim (resolve_index_path world parse root file) [
      | none ↦ record { pieces = []; errors = some invalid_path }
      | some path ↦
          stream_data start end start_idx max_size (open_stream world.reader (world.as_text path))
    ]
