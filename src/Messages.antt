-- ===== src/Messages.antt =====
-- libs/data_protos/logger.proto: the messages, with a field that is not set as none. The code that
-- is generated from them, which writes and parses their bytes, is a parameter.
use tracebox.Prelude.{ℕ, Bool, Option, none, some, List, []}
use tracebox.Bytes.{Text}
use tracebox.StreamWriter.{LogRequest}
use tracebox.Scanner.{DataResponse, no_data}
use tracebox.Scanner.Discovery.{StreamInfo}

-- `SerializePartialToString` or `SerializeToString`, and `ParseFromArray`: what the message holds
-- behind the call, also if it fails, and its result.
pub record Codec (M : Type 0) : Type 0 where
  pub encode : M → Text
  pub parse : Text → M × Bool

-- `LogRequest` as it is sent.
pub record LogMessage : Type 0 where
  pub channel : Option Text
  pub size : Option ℕ
  pub payload : Option Text
  pub time_ns : Option ℕ

pub record DataStreamsRequest : Type 0 where
  pub start_ns : Option ℕ
  pub end_ns : Option ℕ
  pub file : Option Text
  pub start_idx : Option ℕ
  pub max_count : Option ℕ

-- The streams, or the records of one of them and the errors.
pub record DataStreamsResponse : Type 0 where
  pub streams : List StreamInfo
  pub answer : DataResponse

abbrev pub new_response : DataStreamsResponse
new_response = record { streams = []; answer = no_data }

-- What the getters return for a field that is not set.
abbrev pub or_zero : Option ℕ → ℕ
or_zero none = 0
or_zero (some n) = n

abbrev pub or_empty : Option Text → Text
or_empty none = []
or_empty (some text) = text

-- The message as the writing side reads it, by its getters.
unfoldable pub request_of : LogMessage → LogRequest
request_of m = record {
  channel = or_empty m.channel;
  size = or_zero m.size;
  payload = or_empty m.payload;
  time_ns = or_zero m.time_ns;
}
