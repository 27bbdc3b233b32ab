-- ===== src/Tests/Answers.antt =====
-- A reading client and the server of a `LogReader`, on the files of one channel.
use tracebox.Prelude.{
  ℕ, ◌+◌, ◌≤◌, ◌≡◌, refl, true, false, Bool, Option, none, some, List, [], ◌∷◌, ◌++◌, arith, length,
  zero, suc, take, drop, if◌then◌else◌, ◌==◌, subst, sym, All, append-nil,
}
use tracebox.Bytes.{Text, le_bytes, of_le_bytes, text_eq}
use tracebox.Format.{encode_header, decode_header}
use tracebox.StreamWriter.{header_of, header_name}
use tracebox.TcpSocket.{Reply, moves, frame, send_data, send_loop}
use tracebox.TcpSocket.Sending.{IsLive, progress}
use tracebox.TcpClient.{TcpClient, send_on}
use tracebox.Reader.FileReader.{open_reader, get_header, file_size, c_string, name_of}
use tracebox.Reader.IndexFile.{
  open_index, valid_index, index_of, time_in, read_at, select_record, match_time, fixed_size,
  time_of, read_offset,
}
use tracebox.Reader.IfStream.{seek, read_bytes}
use tracebox.Reader.DataFile.{DataPiece, read_data, read_record}
use tracebox.Reader.StreamReader.{
  healthy, open_stream, read_stream, stream_matches, find_text, starts_with, attach_payloads,
  stream_records, read_linked,
}
use tracebox.Scanner.Discovery.{StreamInfo, get_streams, streams_of, stoul, extract_streams}
use tracebox.Calendar.{time_to_yyyymmdd, yyyymmdd}
use tracebox.Storage.Filesystem.{digits_from}
use tracebox.Scanner.{
  is_within_root, resolve_index_path, stream_data, confine, is_acceptable, has_byte,
  has_rejected_component, data_from, get_data, no_data,
}
use tracebox.Server.Loop.{Request}
use tracebox.Messages.{Codec, DataStreamsRequest, DataStreamsResponse, new_response, or_zero}
use tracebox.Clients.{read_records, read_streams, data_request, streams_request}
use tracebox.Handlers.{StorageScanner, answer_request}
use tracebox.Exchange.Answers.{
  Exchanged, Keeps, Carries, reply_to, read_records-answered, read_streams-answered,
}
use tracebox.Tests.Serving.{index_path, root, requested, scanned, storage_days, new_year}

abbrev scanner : StorageScanner
scanner = record {
  world = scanned;
  parse = requested;
  root = root;
  relative = λ path. some index_path;
  local_date = new_year;
  days = storage_days;
}

-- Two bytes for a time, one for an index, and the name of the file.
abbrev requests : Codec DataStreamsRequest
requests = record { encode = encode; parse = parse }
  where
    encode_file : Option Text → Text
    encode_file none = b's' ∷ []
    encode_file (some file) = b'f' ∷ file

    encode : DataStreamsRequest → Text
    encode q =
        le_bytes 2 (or_zero q.start_ns)
        ++ (le_bytes 2 (or_zero q.end_ns)
            ++ (or_zero q.start_idx ∷ or_zero q.max_count ∷ encode_file q.file))

    parse_file : Text → Option Text
    parse_file [] = none
    parse_file (kind ∷ file) = if kind == b'f' then some file else none

    parse : Text → DataStreamsRequest × Bool
    parse (a ∷ b ∷ c ∷ d ∷ i ∷ m ∷ file) = (
      record {
        start_ns = some (of_le_bytes (a ∷ b ∷ []));
        end_ns = some (of_le_bytes (c ∷ d ∷ []));
        file = parse_file file;
        start_idx = some i;
        max_count = some m;
      },
      true,
    )
    parse bytes = (
      record { start_ns = none; end_ns = none; file = none; start_idx = none; max_count = none },
      false,
    )

-- The records, each with two bytes for its time and one for its size.
abbrev responses : Codec DataStreamsResponse
responses = record { encode = encode; parse = parse }
  where
    encode_all : List DataPiece → Text
    encode_all [] = []
    encode_all (p ∷ ps) = le_bytes 2 p.time_ns ++ (length p.payload ∷ (p.payload ++ encode_all ps))

    encode : DataStreamsResponse → Text
    encode r = length r.answer.pieces ∷ encode_all r.answer.pieces

    parse_all : ℕ → Text → List DataPiece
    parse_all zero bytes = []
    parse_all (suc n) (a ∷ b ∷ size ∷ bytes) =
        record { time_ns = of_le_bytes (a ∷ b ∷ []); payload = take size bytes; stream_idx = 0 }
        ∷ parse_all n (drop size bytes)
    parse_all (suc n) bytes = []

    parse : Text → DataStreamsResponse × Bool
    parse [] = (new_response, true)
    parse (n ∷ bytes) = (
      record { streams = []; answer = record { pieces = parse_all n bytes; errors = none } },
      true,
    )

-- The streams: the day, the number of records, the times, and the two texts with their sizes.
abbrev stream_responses : Codec DataStreamsResponse
stream_responses = record { encode = encode; parse = parse }
  where
    encode_all : List StreamInfo → Text
    encode_all [] = []
    encode_all (i ∷ is) =
        le_bytes 4 i.day
        ++ (i.records_cnt
            ∷ (le_bytes 2 i.start_time_ns
                ++ (le_bytes 2 i.end_time_ns
                    ++ (length i.name ∷ (i.name ++ (length i.file ∷ (i.file ++ encode_all is)))))))

    encode : DataStreamsResponse → Text
    encode r = length r.streams ∷ encode_all r.streams

    -- The texts.
    parse_texts : (Text → Text → StreamInfo) → Text → StreamInfo × Text
    parse_texts info [] = (info [] [], [])
    parse_texts info (n ∷ bytes) = parse_file (take n bytes) (drop n bytes)
      where
        parse_file : Text → Text → StreamInfo × Text
        parse_file name [] = (info name [], [])
        parse_file name (m ∷ rest) = (info name (take m rest), drop m rest)

    parse_all : ℕ → Text → List StreamInfo
    parse_all zero bytes = []
    parse_all (suc n) bytes =
        let (info, rest) =
          parse_texts
            (λ name file. record {
              day = of_le_bytes (take 4 bytes);
              name = name;
              status = healthy;
              file = file;
              records_cnt = of_le_bytes (take 1 (drop 4 bytes));
              start_time_ns = of_le_bytes (take 2 (drop 5 bytes));
              end_time_ns = of_le_bytes (take 2 (drop 7 bytes));
            })
            (drop 9 bytes) in
        info ∷ parse_all n rest

    parse : Text → DataStreamsResponse × Bool
    parse [] = (new_response, true)
    parse (n ∷ bytes) = (record { streams = parse_all n bytes; answer = no_data }, true)

abbrev asked : DataStreamsRequest
asked = data_request index_path 500 2500 0 10

abbrev both : DataStreamsResponse
both = record {
  streams = [];
  answer = record {
    pieces =
        record { time_ns = 1000; payload = b'a' ∷ b'b' ∷ []; stream_idx = 0 }
        ∷ record { time_ns = 2000; payload = []; stream_idx = 0 }
        ∷ [];
    errors = none;
  };
}

asked-both : answer_request scanner asked ≡ both
unfolding answer_request data_request get_data resolve_index_path is_acceptable has_byte
    has_rejected_component text_eq confine is_within_root valid_index open_index index_of
    open_reader file_size encode_header le_bytes header_of get_header read_bytes decode_header
    of_le_bytes seek read_at select_record time_in header_name stream_data data_from stream_matches
    match_time open_stream find_text starts_with attach_payloads name_of c_string fixed_size
    read_stream stream_records time_of read_linked read_offset read_data read_record
asked-both = refl

both-Keeps : Keeps responses both
unfolding le_bytes of_le_bytes
both-Keeps = record { some_byte = omega arith; small = omega arith; parsed = refl }

asked-Keeps : Keeps requests asked
unfolding le_bytes of_le_bytes data_request
asked-Keeps = record { some_byte = omega arith; small = omega arith; parsed = refl }

-- A socket that takes and gives five bytes at a time.
abbrev by_fives : ℕ → List Reply
by_fives zero = []
by_fives (suc n) = moves 5 ∷ by_fives n

by_fives-IsLive : (n : ℕ) → All IsLive (by_fives n)
by_fives-IsLive zero = tt
by_fives-IsLive (suc n) = (omega arith, by_fives-IsLive n)

abbrev client : TcpClient
client = record { fd = some 8 }

abbrev asking : DataStreamsRequest → Request
asking q = record {
  replies = by_fives 60;
  wire = (send_on client (by_fives 60) (requests.encode q)).0;
  allocates = true;
  after_read = true;
  in_lock = true;
  before_reply = true;
  sending = by_fives 40;
}

asking-Exchanged :
    (codec : Codec DataStreamsResponse) (q : DataStreamsRequest) (r : DataStreamsResponse)
    → (send_on client (by_fives 60) (requests.encode q)).1 ≡ true
    → length (asking q).wire ≤ progress (by_fives 60)
    → Keeps requests q
    → answer_request scanner q ≡ r
    → Keeps codec r
    → 4 + length (codec.encode r) ≤ progress (by_fives 40)
    → Exchanged requests codec scanner client (by_fives 60) (asking q) (by_fives 40) q
asking-Exchanged codec q r sends enough keeps answered kept room = record {
  sends = sends;
  request_kept = keeps;
  arrives = record {
    more = [];
    wire = sym (append-nil (asking q).wire);
    live = by_fives-IsLive 60;
    enough = enough;
    allocates = refl;
    after_read = refl;
    in_lock = refl;
  };
  response_kept = subst (Keeps codec) (sym answered) kept;
  before_reply = refl;
  carries_out = carries;
  carries_back = carries;
}
  where
    carries : Carries (codec.encode (answer_request scanner q)) (by_fives 40)
    carries =
        subst (λ m. Carries (codec.encode m) (by_fives 40)) (sym answered)
          (record { live = by_fives-IsLive 40; enough = room })

asked-Exchanged :
    Exchanged requests responses scanner client (by_fives 60) (asking asked) (by_fives 40) asked
unfolding send_on send_data send_loop frame le_bytes progress data_request
asked-Exchanged =
    asking-Exchanged responses asked both refl (omega arith) asked-Keeps asked-both both-Keeps
      (omega arith)

read_records-answered_example :
    (read_records requests responses client
      (by_fives 60)
      (by_fives 40)
      (reply_to requests responses scanner (asking asked))
      index_path
      500
      2500
      0
      10).1.answer
    ≡ get_data scanned requested root index_path 500 2500 0 10
read_records-answered_example =
    read_records-answered requests responses scanner client (by_fives 60) (asking asked)
      (by_fives 40) index_path 500 2500 0 10 asked-Exchanged

abbrev asked_streams : DataStreamsRequest
asked_streams = streams_request 500 2500 0 10

abbrev one_stream : DataStreamsResponse
one_stream = record {
  streams =
      record {
        day = 20230101;
        name = b'c' ∷ b'a' ∷ b'n' ∷ [];
        status = healthy;
        file = index_path;
        records_cnt = 2;
        start_time_ns = 1000;
        end_time_ns = 2000;
      }
      ∷ [];
  answer = no_data;
}

streams-one : answer_request scanner asked_streams ≡ one_stream
unfolding answer_request streams_request get_streams resolve_index_path is_acceptable has_byte
    has_rejected_component text_eq confine is_within_root valid_index open_index index_of
    open_reader file_size encode_header le_bytes header_of get_header read_bytes decode_header
    of_le_bytes seek read_at select_record time_in header_name stream_matches match_time open_stream
    find_text starts_with attach_payloads name_of c_string fixed_size stream_records time_of
    read_linked read_offset read_data read_record streams_of stoul digits_from time_to_yyyymmdd
    yyyymmdd extract_streams
streams-one = refl

one_stream-Keeps : Keeps stream_responses one_stream
unfolding le_bytes of_le_bytes
one_stream-Keeps = record { some_byte = omega arith; small = omega arith; parsed = refl }

asked_streams-Keeps : Keeps requests asked_streams
unfolding le_bytes of_le_bytes streams_request
asked_streams-Keeps = record { some_byte = omega arith; small = omega arith; parsed = refl }

asked_streams-Exchanged :
    Exchanged requests stream_responses scanner client
      (by_fives 60)
      (asking asked_streams)
      (by_fives 40)
      asked_streams
unfolding send_on send_data send_loop frame le_bytes progress streams_request
asked_streams-Exchanged =
    asking-Exchanged stream_responses asked_streams one_stream refl (omega arith)
      asked_streams-Keeps streams-one one_stream-Keeps (omega arith)

read_streams-answered_example :
    (read_streams requests stream_responses client
      (by_fives 60)
      (by_fives 40)
      (reply_to requests stream_responses scanner (asking asked_streams))
      500
      2500
      0
      10).1.streams
    ≡ get_streams scanned requested root (λ path. some index_path) 500 2500 new_year storage_days
read_streams-answered_example =
    read_streams-answered requests stream_responses scanner client (by_fives 60)
      (asking asked_streams) (by_fives 40) 500 2500 0 10 asked_streams-Exchanged
