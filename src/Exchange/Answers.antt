-- ===== src/Exchange/Answers.antt =====
-- `LogReadClient::getStreams` and `getData`, and `LogReader::handleReadingRequest`.
use tracebox.Prelude.{
  ℕ, ◌+◌, ◌<◌, ◌≤◌, ◌≡◌, sym, ap, ap₂, ◌∙◌, Bool, true, not, ◌&&◌, some, List, [], length,
  if◌then◌else◌, subst, ◌^◌, All, append-nil,
}
use tracebox.Bytes.{Text}
use tracebox.TcpSocket.{Reply, frame, read_data, send_data}
use tracebox.TcpSocket.Sending.{IsLive, progress}
use tracebox.TcpSocket.Receiving.{read_data-completes}
use tracebox.Server.Loop.{Request, Handled, handled, handle_request, answer_with, buffer_of}
use tracebox.TcpClient.{TcpClient, send_on}
use tracebox.Messages.{Codec, DataStreamsRequest, DataStreamsResponse, new_response}
use tracebox.Clients.{
  get_response, response_of, read_streams, read_records, streams_request, data_request,
}
use tracebox.Scanner.{get_data}
use tracebox.Scanner.Discovery.{get_streams}
use tracebox.Handlers.{StorageScanner, answer_request, handle_reading_request}
use tracebox.Exchange.{Arrives, send_on-sent, handle_request-arrived, send_data_complete, nonempty}

-- What a codec does to one message: it is written to some bytes, below 4 GiB, which are read back
-- as that message.
pub record Keeps {M : Type 0} (codec : Codec M) (m : M) : Type 0 where
  pub some_byte : 0 < length (codec.encode m)
  pub small : length (codec.encode m) < 2 ^ 32
  pub parsed : codec.parse (codec.encode m) ≡ (m, true)

-- A socket on which no call fails, and which moves enough for `bytes`.
pub record Carries (bytes : Text) (replies : List Reply) : Type 0 where
  pub live : All IsLive replies
  pub enough : 4 + length bytes ≤ progress replies

module _ (requests : Codec DataStreamsRequest) (responses : Codec DataStreamsResponse)
    (s : StorageScanner) where
  handle_reading_request-answers :
      (request : DataStreamsRequest)
      → Keeps requests request
      → handle_reading_request requests responses s (requests.encode request)
        ≡ (s, some (responses.encode (answer_request s request)))
  unfolding handle_reading_request
  handle_reading_request-answers request k =
      ap
        (λ (p : DataStreamsRequest × Bool).
          if p.1 then (s, some (responses.encode (answer_request s p.0))) else (s, some []))
        k.parsed

  -- The server's side: the whole response is sent.
  pub handle_request-answers :
      (request : DataStreamsRequest) (r : Request)
      → Keeps requests request
      → Keeps responses (answer_request s request)
      → Arrives (frame (requests.encode request)) r
      → r.before_reply ≡ true
      → Carries (responses.encode (answer_request s request)) r.sending
      → handle_request (handle_reading_request requests responses) r s
        ≡ (s, frame (responses.encode (answer_request s request)), handled true)
  handle_request-answers request r q a arrives on carries =
      handle_request-arrived (handle_reading_request requests responses) r s
        (requests.encode request) arrives q.some_byte q.small
      ∙ ap (answer_with (handle_reading_request requests responses) r)
          (handle_reading_request-answers request q)
      ∙ ap₂
          (λ b c. (
            s,
            if not b && c
                then (send_data r.sending (responses.encode (answer_request s request))).0
                else [],
            handled true,
          ))
          (nonempty (responses.encode (answer_request s request)) a.some_byte) on
      ∙ ap (λ t. (s, t, handled true))
          (send_data_complete r.sending (responses.encode (answer_request s request)) a.small
            carries.live carries.enough)

  -- The client's side: the response is read.
  get_response-answered :
      (tcp : TcpClient) (sending reading : List Reply) (request : DataStreamsRequest)
      → (send_on tcp sending (requests.encode request)).1 ≡ true
      → Keeps responses (answer_request s request)
      → Carries (responses.encode (answer_request s request)) reading
      → (get_response requests responses new_response tcp sending reading
          (frame (responses.encode (answer_request s request)))
          request).1
        ≡ answer_request s request
  unfolding get_response
  get_response-answered tcp sending reading request sent a carries =
      let (calls, e) =
        read_data-completes reading (responses.encode (answer_request s request)) [] a.small
          carries.live carries.enough in
      ap₂
        (λ b t.
          if b
          then response_of requests responses new_response (buffer_of (read_data reading t))
          else new_response)
        sent (sym (append-nil (frame (responses.encode (answer_request s request)))))
      ∙ ap (λ t. response_of requests responses new_response (buffer_of t)) e
      ∙ ap
          (λ b.
            if b
            then new_response
            else (responses.parse (responses.encode (answer_request s request))).0)
          (nonempty (responses.encode (answer_request s request)) a.some_byte)
      ∙ ap (λ (p : DataStreamsResponse × Bool). p.0) a.parsed

  -- A whole exchange: the client's request, the server's `r`, and the client's reading of the
  -- response.
  pub record Exchanged (tcp : TcpClient) (sending : List Reply) (r : Request) (reading : List Reply)
      (request : DataStreamsRequest) : Type 0 where
    pub sends : (send_on tcp sending (requests.encode request)).1 ≡ true
    pub request_kept : Keeps requests request
    pub arrives : Arrives (send_on tcp sending (requests.encode request)).0 r
    pub response_kept : Keeps responses (answer_request s request)
    pub before_reply : r.before_reply ≡ true
    pub carries_out : Carries (responses.encode (answer_request s request)) r.sending
    pub carries_back : Carries (responses.encode (answer_request s request)) reading

  -- What the server has put on the wire for the client.
  abbrev pub reply_to : Request → Text
  reply_to r = (handle_request (handle_reading_request requests responses) r s).1

  exchange :
      (tcp : TcpClient) (sending : List Reply) (r : Request) (reading : List Reply)
      (request : DataStreamsRequest)
      → Exchanged tcp sending r reading request
      → (get_response requests responses new_response tcp sending reading (reply_to r) request).1
        ≡ answer_request s request
  exchange tcp sending r reading request x =
      let whole = (send_on-sent tcp sending (requests.encode request) x.sends).0 in
      ap
        (λ (t : StorageScanner × Text × Handled).
          (get_response requests responses new_response tcp sending reading t.1 request).1)
        (handle_request-answers request r x.request_kept x.response_kept
          (subst (λ t. Arrives t r) whole x.arrives) x.before_reply x.carries_out)
      ∙ get_response-answered tcp sending reading request x.sends x.response_kept x.carries_back

  module _ (tcp : TcpClient) (sending : List Reply) (r : Request) (reading : List Reply) where
    -- On an exchange in which the client's request and the server's response arrive (no call fails,
    -- enough of them move something, the server is not stopping, and the generated code reads both
    -- messages back from at least one and less than 2^32 bytes), `getData` of the client returns
    -- the records and errors that `getData` of the scanner makes of the same file, range, first
    -- index and maximum.
    pub read_records-answered :
        (file : Text) (start end start_idx max_size : ℕ)
        → Exchanged tcp sending r reading (data_request file start end start_idx max_size)
        → (read_records requests responses tcp sending reading
            (reply_to r)
            file
            start
            end
            start_idx
            max_size).1.answer
          ≡ get_data s.world s.parse s.root file start end start_idx max_size
    unfolding read_records answer_request data_request
    read_records-answered file start end start_idx max_size x =
        ap (λ (m : DataStreamsResponse). m.answer)
          (exchange tcp sending r reading (data_request file start end start_idx max_size) x)

    -- On an exchange in which the client's request and the server's response arrive (no call fails,
    -- enough of them move something, the server is not stopping, and the generated code reads both
    -- messages back from at least one and less than 2^32 bytes), `getStreams` of the client returns
    -- the streams that `getStreams` of the scanner lists for the same range.
    pub read_streams-answered :
        (start end start_idx max_size : ℕ)
        → Exchanged tcp sending r reading (streams_request start end start_idx max_size)
        → (read_streams requests responses tcp sending reading
            (reply_to r)
            start
            end
            start_idx
            max_size).1.streams
          ≡ get_streams s.world s.parse s.root s.relative start end s.local_date s.days
    unfolding read_streams answer_request streams_request
    read_streams-answered start end start_idx max_size x =
        ap (λ (m : DataStreamsResponse). m.streams)
          (exchange tcp sending r reading (streams_request start end start_idx max_size) x)
