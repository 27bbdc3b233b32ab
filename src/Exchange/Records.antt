-- ===== src/Exchange/Records.antt =====
-- `LogClient::logData` and `TraceboxLogger::handleLogRequest`.
use tracebox.Prelude.{
  ℕ, ◌<◌, ◌≡◌, sym, ap, ◌∙◌, Bool, true, false, not, ◌&&◌, none, some, List, [], ◌∷◌, ◌++◌, length,
  ◌==◌, if◌then◌else◌, arith, subst, Bool-cases, inl, inr, ◌^◌,
}
use tracebox.Bytes.{Text}
use tracebox.StreamWriter.{LogRequest}
use tracebox.LogWriter.{LogWriter, add}
use tracebox.TcpSocket.{Reply, frame}
use tracebox.Server.Loop.{Request, handled, handle_request, answer_with}
use tracebox.TcpClient.{send_on}
use tracebox.Messages.{Codec, LogMessage, or_zero, request_of}
use tracebox.Clients.{LogClient, log_message, log_data}
use tracebox.Handlers.{handle_log_request}
use tracebox.Exchange.{Arrives, send_on-sent, handle_request-arrived}

-- The record as the client has it.
abbrev pub record_of : LogClient → Text → ℕ → LogRequest
record_of c payload time_ns = record {
  channel = c.stream_name;
  size = c.record_size;
  payload = payload;
  time_ns = time_ns;
}

request_of-log_message :
    (c : LogClient) (payload : Text) (time_ns : ℕ)
    → request_of (log_message c payload time_ns) ≡ record_of c payload time_ns
unfolding request_of log_message
request_of-log_message c payload time_ns =
    ap (λ n. record (record_of c payload time_ns) { size = n }) (size_kept c.record_size)
  where
    size_kept : (n : ℕ) → or_zero (if n == 0 then none else some n) ≡ n
    size_kept n = ground arith

module _ (codec : Codec LogMessage) (c : LogClient) (sending : List Reply) (payload : Text)
    (time_ns : ℕ) where
  log_data-sent :
      (log_data codec c sending payload time_ns).1 ≡ true
      → ((log_data codec c sending payload time_ns).0
          ≡ frame (codec.encode (log_message c payload time_ns)))
        × (length (codec.encode (log_message c payload time_ns)) < 2 ^ 32)
  unfolding log_data
  log_data-sent h =
      elim (Bool-cases (not (c.record_size == 0) && not (length payload == c.record_size))) [
        | inl refused ↦ cc (h, refused)
        | inr fits ↦
            subst
              (λ b.
                let r =
                  if b
                  then ([], false)
                  else send_on c.tcp sending (codec.encode (log_message c payload time_ns)) in
                r.1 ≡ true
                → (r.0 ≡ frame (codec.encode (log_message c payload time_ns)))
                  × (length (codec.encode (log_message c payload time_ns)) < 2 ^ 32))
              (sym fits) (send_on-sent c.tcp sending (codec.encode (log_message c payload time_ns)))
              h
      ]

  handle_log_request-queued :
      (w : LogWriter)
      → codec.parse (codec.encode (log_message c payload time_ns))
        ≡ (log_message c payload time_ns, true)
      → w.stopping ≡ false
      → handle_log_request codec w (codec.encode (log_message c payload time_ns))
        ≡ (record w { queue = w.queue ++ record_of c payload time_ns ∷ [] }, some [])
  unfolding handle_log_request add
  handle_log_request-queued w parsed runs =
      ap
        (λ (p : LogMessage × Bool).
          if p.1 then ((add w (request_of p.0)).0, some []) else (w, some []))
        parsed
      ∙ ap (λ q. ((add w q).0, some [])) (request_of-log_message c payload time_ns)
      ∙ ap (λ b. ((added b).0, some [])) runs
    where
      added : Bool → LogWriter × Bool
      added b =
          if b
          then (w, false)
          else (record w { queue = w.queue ++ record_of c payload time_ns ∷ [] }, true)

  -- When `logData` returns true, the generated code reads the message back from at least one byte,
  -- the bytes that were sent arrive on a connection where no call fails and enough of them move
  -- something, the buffer can be allocated, and neither the server nor the writer is stopping, then
  -- `handleLogRequest` with the callback of `TraceboxLogger` puts exactly one record at the end of
  -- the writer's queue, with the client's channel, record size, data and time, sends nothing, and
  -- keeps the connection.
  pub log_data-delivered :
      (w : LogWriter) (r : Request)
      → (log_data codec c sending payload time_ns).1 ≡ true
      → codec.parse (codec.encode (log_message c payload time_ns))
        ≡ (log_message c payload time_ns, true)
      → 0 < length (codec.encode (log_message c payload time_ns))
      → Arrives (log_data codec c sending payload time_ns).0 r
      → w.stopping ≡ false
      → handle_request (handle_log_request codec) r w
        ≡ (record w { queue = w.queue ++ record_of c payload time_ns ∷ [] }, [], handled true)
  log_data-delivered w r sent parsed some_byte arrives runs =
      let (whole, small) = log_data-sent sent in
      handle_request-arrived (handle_log_request codec) r w
        (codec.encode (log_message c payload time_ns)) (subst (λ t. Arrives t r) whole arrives)
        some_byte small
      ∙ ap (answer_with (handle_log_request codec) r) (handle_log_request-queued w parsed runs)
