-- ===== src/Handlers.antt =====
-- libs/log_writer/writer/tracebox_logger.h and libs/log_reader/log_reader.h: the callbacks of the two
-- servers.
use tracebox.Prelude.{ℕ, Option, none, some, List, [], if◌then◌else◌}
use tracebox.Bytes.{Text}
use tracebox.Calendar.{Date}
use tracebox.LogWriter.{LogWriter, add}
use tracebox.Scanner.{FilePath, ScannerWorld, Requested, no_data, get_data}
use tracebox.Scanner.Discovery.{DayEntry, get_streams}
use tracebox.Messages.{
  Codec, LogMessage, DataStreamsRequest, DataStreamsResponse, or_zero, request_of,
}

-- `TraceboxLogger::handleLogRequest`
unfoldable pub handle_log_request : Codec LogMessage → LogWriter → Text → LogWriter × Option Text
handle_log_request codec w bytes =
    let (m, parsed) = codec.parse bytes in
    if parsed then ((add w (request_of m)).0, some []) else (w, some [])

-- The scanner of a `LogReader`: its root folder, and what the file system and the local time answer.
pub record StorageScanner : Type 0 where
  pub world : ScannerWorld
  pub parse : Text → Requested
  pub root : FilePath
  pub relative : FilePath → Option Text
  pub local_date : ℕ → Date
  pub days : List DayEntry

-- The response of `handleReadingRequest` to a request that parses.
unfoldable pub answer_request : StorageScanner → DataStreamsRequest → DataStreamsResponse
answer_request s request = elim request.file [
  | none ↦ record {
    streams =
        get_streams s.world s.parse s.root s.relative (or_zero request.start_ns)
          (or_zero request.end_ns) s.local_date s.days;
    answer = no_data;
  }
  | some file ↦ record {
    streams = [];
    answer =
        get_data s.world s.parse s.root file (or_zero request.start_ns) (or_zero request.end_ns)
          (or_zero request.start_idx) (or_zero request.max_count);
  }
]

-- `LogReader::handleReadingRequest`
unfoldable pub handle_reading_request :
    Codec DataStreamsRequest
    → Codec DataStreamsResponse
    → StorageScanner
    → Text
    → StorageScanner × Option Text
handle_reading_request requests responses s bytes =
    let (request, parsed) = requests.parse bytes in
    if parsed then (s, some (responses.encode (answer_request s request))) else (s, some [])
