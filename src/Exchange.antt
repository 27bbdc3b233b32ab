-- ===== src/Exchange.antt =====
-- A client on one end of a connection and a server's callback on the other: libs/log_client/tcp_client.h,
-- libs/tcp_server/tcp_socket.h and `handleLogRequest` of libs/tcp_server/tcp_server.cpp together.
pub mod Records
pub mod Answers
pub mod Queue
use tracebox.Prelude.{
  ℕ, suc, ◌+◌, ◌-◌, ◌^◌, ◌<◌, ◌≤◌, ◌≡◌, ◌≢◌, refl, sym, ap, ap₂, ◌∙◌, Bool, true, false, inl, inr,
  Option, none, some, List, [], ◌∷◌, ◌++◌, length, length-append, ltb, if◌then◌else◌, arith,
  Bool-cases, subst, All, not, ◌&&◌, ◌||◌,
}
use tracebox.Bytes.{Text, le_bytes, length-le_bytes}
use tracebox.TcpSocket.{Reply, frame, send_loop, send_data, received, load, read_data}
use tracebox.TcpSocket.Sending.{
  Sends, complete, partial, send_data-Sends, send_loop-completes, IsLive, progress,
}
use tracebox.TcpSocket.Receiving.{read_data-completes}
use tracebox.Server.Loop.{
  Request, Handled, handled, is_empty, buffer_of, header_arrives, read_request, handle_request,
  handle_buffer, answer_with,
}
use tracebox.TcpClient.{TcpClient, send_on, is_true}

pub length-frame : (payload : Text) → length (frame payload) ≡ 4 + length payload
unfolding frame
length-frame payload =
    omega (
      arith,
      length-append (le_bytes 4 (length payload)) payload,
      length-le_bytes 4 (length payload),
    )

-- A message that is sent is whole on the wire, and short enough for its length field.
pub send_data-sent :
    (replies : List Reply) (payload : Text)
    → is_true (send_data replies payload).1 ≡ true
    → ((send_data replies payload).0 ≡ frame payload) × (length payload < 2 ^ 32)
unfolding send_data
send_data-sent replies payload h = elim (Bool-cases (ltb (2 ^ 32 - 1) (length payload))) [
  | inl large ↦ cc (h, large)
  | inr small ↦ (by_sends (send_data-Sends replies payload) h, ground arith)
]
  where
    by_sends :
        {r : Text × Option Bool}
        → Sends (frame payload) r
        → is_true r.1 ≡ true
        → r.0 ≡ frame payload
    by_sends (complete e all) h = all
    by_sends {r = (text, none)} (partial b rest e some_of) h = cc
    by_sends {r = (text, some false)} (partial b rest e some_of) h = cc
    by_sends {r = (text, some true)} (partial b rest e some_of) h = absurd (e refl)

-- Where no call fails and enough of them move something, the whole message is on the wire.
pub send_data_complete :
    (replies : List Reply) (payload : Text)
    → length payload < 2 ^ 32
    → All IsLive replies
    → 4 + length payload ≤ progress replies
    → (send_data replies payload).0 ≡ frame payload
unfolding send_data
send_data_complete replies payload small live enough =
    (send_data-sent replies payload (
      ap (λ b. is_true (if b then ([], some false) else send_loop replies (frame payload)).1)
        not_large
      ∙ ap is_true (
          send_loop-completes replies (frame payload) live
            (omega (arith, length-frame payload))))).0
  where
    not_large : ltb (2 ^ 32 - 1) (length payload) ≡ false
    not_large = ground arith

pub send_on-sent :
    (c : TcpClient) (replies : List Reply) (payload : Text)
    → (send_on c replies payload).1 ≡ true
    → ((send_on c replies payload).0 ≡ frame payload) × (length payload < 2 ^ 32)
unfolding send_on
send_on-sent c replies payload h = by_fd c.fd h
  where
    by_fd :
        (fd : Option ℕ)
        → (send_on (record { fd = fd }) replies payload).1 ≡ true
        → ((send_on (record { fd = fd }) replies payload).0 ≡ frame payload)
          × (length payload < 2 ^ 32)
    by_fd none h = cc
    by_fd (some n) h = send_data-sent replies payload h

-- What was sent arrives in front of the wire, no call that reads it fails, and the server is not
-- stopping.
pub record Arrives (sent : Text) (r : Request) : Type 0 where
  pub more : Text
  pub wire : r.wire ≡ sent ++ more
  pub live : All IsLive r.replies
  pub enough : length sent ≤ progress r.replies
  pub allocates : r.allocates ≡ true
  pub after_read : r.after_read ≡ true
  pub in_lock : r.in_lock ≡ true

pub nonempty : (text : Text) → 0 < length text → is_empty text ≡ false
nonempty [] h = absurd (omega arith)
nonempty (c ∷ cs) h = refl

and-false : (b : Bool) → (b && false) ≡ false
and-false true = refl
and-false false = refl

read_request-arrived :
    (r : Request) (payload : Text) {more : Text} {calls : List Reply}
    → r.allocates ≡ true
    → read_data r.replies r.wire ≡ received payload more calls
    → read_request r ≡ some payload
unfolding read_request
read_request-arrived r payload fits e =
    ap₂ (λ b t. if b then none else some (buffer_of t))
      (ap (λ b. header_arrives (load r.replies 4 r.wire) && not b) fits
        ∙ and-false (header_arrives (load r.replies 4 r.wire)))
      e

-- Then the callback is run on it.
pub handle_request-arrived :
    {S : Type 0} (callback : S → Text → S × Option Text) (r : Request) (served : S) (payload : Text)
    → Arrives (frame payload) r
    → 0 < length payload
    → length payload < 2 ^ 32
    → handle_request callback r served ≡ answer_with callback r (callback served payload)
unfolding handle_request
handle_request-arrived {S = S} callback r served payload a some_byte small =
    let (calls, e) =
      read_data-completes r.replies payload a.more small a.live
        (omega (arith, a.enough, length-frame payload)) in
    let text = read_request-arrived r payload a.allocates (ap (read_data r.replies) a.wire ∙ e) in
    ap (handle_buffer callback r served) text
    ∙ ap₂ (λ b c. if b || not c || not r.in_lock then (served, [], handled false) else answered)
        (nonempty payload some_byte) a.after_read
    ∙ ap (λ d. if not d then (served, [], handled false) else answered) a.in_lock
  where
    answered : S × Text × Handled
    answered = answer_with callback r (callback served payload)
