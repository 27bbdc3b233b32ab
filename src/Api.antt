-- ===== src/Api.antt =====
-- src/tracebox_api.cpp and include/tracebox: `Recorder`, `Reader`, `Storage` and `Writer`. Each `Impl`
-- is the object that it holds.
pub mod Limits
use tracebox.Prelude.{
  ℕ, ◌%◌, ◌^◌, ◌≡◌, Bool, true, false, Option, none, some, ℤ, int32, List, [], ◌∷◌, map,
}
use tracebox.Bytes.{Text}
use tracebox.Calendar.{Date, time_to_yyyymmdd}
use tracebox.Descriptors.{Kernel}
use tracebox.StreamWriter.{LogRequest, Outcome}
use tracebox.LogWriter.{LogWriter, System, start, add}
use tracebox.Storage.{Backend, Shrunk, Room, open_storage}
use tracebox.Reader.StreamReader.{
  StreamStatus, unknown, healthy, empty, header_mismatch, headers_different, index_missing,
}
use tracebox.Reader.DataFile.{DataPiece}
use tracebox.Scanner.{DataError}
use tracebox.Scanner.Discovery.{StreamInfo}
use tracebox.TcpSocket.{Reply}
use tracebox.TcpClient.{TcpClient, Dialing, connect, disconnect, is_connected}
use tracebox.Messages.{Codec, LogMessage, DataStreamsRequest, DataStreamsResponse}
use tracebox.Clients.{LogClient, log_data, read_streams, read_records}

-- `day`
unfoldable pub day : (ℕ → Date) → ℕ → ℕ
day local_date timestamp = time_to_yyyymmdd local_date timestamp

-- `Recorder`
abbrev pub Recorder : Type 0
Recorder = LogClient

unfoldable pub new_recorder : Text → ℕ → Recorder
new_recorder stream_name record_size = record {
  tcp = record { fd = none };
  stream_name = stream_name;
  record_size = record_size;
}

unfoldable pub connect_recorder : Dialing → ℕ → Recorder → Kernel → Recorder × Kernel × Option Bool
connect_recorder env port r k =
    let (tcp, k', result) = connect env port r.tcp k in (record r { tcp = tcp }, k', result)

unfoldable pub disconnect_recorder : Recorder → Kernel → Recorder × Kernel
disconnect_recorder r k = let (tcp, k') = disconnect r.tcp k in (record r { tcp = tcp }, k')

unfoldable pub record_data : Codec LogMessage → Recorder → List Reply → Text → ℕ → Text × Bool
record_data codec r replies payload timestamp = log_data codec r replies payload timestamp

-- `StreamStatus` of include/tracebox/stream.h, and the cast of the message's status to it.
pub data PublicStatus : Type 0 where
  public_unknown public_healthy public_empty public_header_mismatch public_headers_different
        public_index_missing :
      PublicStatus

unfoldable pub cast_status : StreamStatus → PublicStatus
cast_status unknown = public_unknown
cast_status healthy = public_healthy
cast_status empty = public_empty
cast_status header_mismatch = public_header_mismatch
cast_status headers_different = public_headers_different
cast_status index_missing = public_index_missing

pub record Sample : Type 0 where
  pub time_ns : ℕ
  pub payload : Text
  pub stream_index : ℕ

pub record Stream : Type 0 where
  pub name : Text
  pub day : ℕ
  pub file : Text
  pub records_count : ℕ
  pub status : PublicStatus
  pub start_time_ns : ℕ
  pub end_time_ns : ℕ

-- No error is the empty text.
pub record ReadResult : Type 0 where
  pub records : List Sample
  pub error : Option DataError

unfoldable pub to_stream : StreamInfo → Stream
to_stream source = record {
  name = source.name;
  day = source.day;
  file = source.file;
  records_count = source.records_cnt;
  status = cast_status source.status;
  start_time_ns = source.start_time_ns;
  end_time_ns = source.end_time_ns;
}

unfoldable pub to_sample : DataPiece → Sample
to_sample source = record {
  time_ns = source.time_ns;
  payload = source.payload;
  stream_index = source.stream_idx;
}

-- `Reader`'s connection
unfoldable pub connect_reader : Dialing → ℕ → TcpClient → Kernel → TcpClient × Kernel × Option Bool
connect_reader env port client k = connect env port client k

unfoldable pub disconnect_reader : TcpClient → Kernel → TcpClient × Kernel
disconnect_reader client k = disconnect client k

-- `Reader::streams` and `Reader::read`
module _ (requests : Codec DataStreamsRequest) (responses : Codec DataStreamsResponse)
    (tcp : TcpClient) (sending reading : List Reply) (wire : Text) where
  unfoldable pub streams : ℕ → ℕ → ℕ → ℕ → List Stream
  streams start end start_index max_count =
      let (sent, response) =
        read_streams requests responses tcp sending reading wire start end start_index max_count in
      map to_stream response.streams

  unfoldable pub read : Text → ℕ → ℕ → ℕ → ℕ → ReadResult
  read file start end start_index max_count =
      let (sent, response) =
        read_records requests responses tcp sending reading wire file start end start_index
          max_count in
      record { records = map to_sample response.answer.pieces; error = response.answer.errors }

-- `Storage` and `Writer`, with what a `Record` becomes.
pub record Record : Type 0 where
  pub channel : Text
  pub record_size : ℕ
  pub payload : Text
  pub timestamp : ℕ

unfoldable pub to_request : Record → LogRequest
to_request r = record {
  channel = r.channel;
  size = r.record_size;
  payload = r.payload;
  time_ns = r.timestamp;
}

-- `static_cast<int>(max_size_bytes)` and the constructor behind it.
unfoldable pub new_storage : (b : Backend) → ℕ → ℕ → b.State → Shrunk b.State
new_storage b fuel max_size_bytes s = open_storage b fuel (int32 max_size_bytes) s

unfoldable pub write_record :
    (b : Backend) → ℕ → ℕ → b.State → Record → Room b.State × Option Outcome
write_record b fuel available s r = tracebox.Storage.write b fuel available s (to_request r)

unfoldable pub new_writer : {S : Type 0} → S → System S
new_writer storage = start storage

unfoldable pub add_record : LogWriter → Record → LogWriter
add_record w r = (add w (to_request r)).0
