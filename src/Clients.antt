-- ===== src/Clients.antt =====
-- libs/log_client/log_client.{h,cpp} and reader_client.{h,cpp}: `LogClient` and `LogReadClient`.
use tracebox.Prelude.{ℕ, Bool, false, not, ◌&&◌, none, some, List, [], length, ◌==◌, if◌then◌else◌}
use tracebox.Bytes.{Text}
use tracebox.TcpSocket.{Reply, read_data}
use tracebox.Server.Loop.{is_empty, buffer_of}
use tracebox.TcpClient.{TcpClient, send_on}
use tracebox.Messages.{Codec, LogMessage, DataStreamsRequest, DataStreamsResponse, new_response}

pub record LogClient : Type 0 where
  pub tcp : TcpClient
  pub stream_name : Text
  pub record_size : ℕ

-- The message that `logData` puts together; the size is left out when it is 0.
unfoldable pub log_message : LogClient → Text → ℕ → LogMessage
log_message c payload time_ns = record {
  channel = some c.stream_name;
  size = if c.record_size == 0 then none else some c.record_size;
  payload = some payload;
  time_ns = some time_ns;
}

-- `logData`: what it puts on the wire, and its result.
unfoldable pub log_data : Codec LogMessage → LogClient → List Reply → Text → ℕ → Text × Bool
log_data codec c replies payload time_ns =
    if not (c.record_size == 0) && not (length payload == c.record_size)
    then ([], false)
    else send_on c.tcp replies (codec.encode (log_message c payload time_ns))

-- `getResponse`, of the default message `fresh`: what it puts on the wire, and its result. The
-- string that `readData` finds is empty after an error; a message that does not parse is returned
-- as far as it did.
module _ {Q R : Type 0} (requests : Codec Q) (responses : Codec R) (fresh : R) where
  abbrev pub response_of : Text → R
  response_of buffer = if is_empty buffer then fresh else (responses.parse buffer).0

  unfoldable pub get_response : TcpClient → List Reply → List Reply → Text → Q → Text × R
  get_response tcp sending reading wire request =
      let (sent, result) = send_on tcp sending (requests.encode request) in
      (sent, if result then response_of (buffer_of (read_data reading wire)) else fresh)

unfoldable pub streams_request : ℕ → ℕ → ℕ → ℕ → DataStreamsRequest
streams_request start end start_idx max_size = record {
  start_ns = some start;
  end_ns = some end;
  file = none;
  start_idx = some start_idx;
  max_count = some max_size;
}

unfoldable pub data_request : Text → ℕ → ℕ → ℕ → ℕ → DataStreamsRequest
data_request file start end start_idx max_size = record {
  start_ns = some start;
  end_ns = some end;
  file = some file;
  start_idx = some start_idx;
  max_count = some max_size;
}

-- `getStreams` and `getData`, on what the socket answers and what the server has put on the wire.
module _ (requests : Codec DataStreamsRequest) (responses : Codec DataStreamsResponse) where
  unfoldable pub read_streams :
      TcpClient → List Reply → List Reply → Text → ℕ → ℕ → ℕ → ℕ → Text × DataStreamsResponse
  read_streams tcp sending reading wire start end start_idx max_size =
      get_response requests responses new_response tcp sending reading wire
        (streams_request start end start_idx max_size)

  unfoldable pub read_records :
      TcpClient → List Reply → List Reply → Text → Text → ℕ → ℕ → ℕ → ℕ → Text × DataStreamsResponse
  read_records tcp sending reading wire file start end start_idx max_size =
      get_response requests responses new_response tcp sending reading wire
        (data_request file start end start_idx max_size)
