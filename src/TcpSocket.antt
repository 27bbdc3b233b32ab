-- ===== src/TcpSocket.antt =====
-- libs/tcp_server/tcp_socket.h: `sendDataWith` and `readDataWith`, the framing of every message.
-- The socket's answers to the successive calls of `send` or `recv` are a list; where it ends, the
-- call blocks.
pub mod Sending
pub mod Receiving
use tracebox.Prelude.{
  ℕ, zero, suc, ◌+◌, ◌-◌, ◌^◌, ◌≡◌, Bool, true, false, Option, none, some, List, [], ◌∷◌, ◌++◌,
  length, take, drop, ltb, ◌==◌, if◌then◌else◌, min,
}
use tracebox.Bytes.{Text, le_bytes, of_le_bytes}

-- `moves k`: the call moves `k` bytes, or as many as it is asked for and as there are. A call that
-- moves none returns 0, which is the end of the connection.
pub data Reply : Type 0 where
  moves : ℕ → Reply
  interrupted : Reply
  failed : Reply

-- The buffer: the size as a `uint32_t`, and the payload.
unfoldable pub frame : Text → Text
frame payload = le_bytes 4 (length payload) ++ payload

-- The loop over the bytes that are left: what the socket takes, and the result, `none` while the
-- loop waits.
unfoldable pub send_loop : List Reply → Text → Text × Option Bool
send_loop replies [] = ([], some true)
send_loop [] (b ∷ bs) = ([], none)
send_loop (moves k ∷ replies) (b ∷ bs) =
    let n = min k (suc (length bs)) in
    let (taken, result) = send_loop replies (drop n (b ∷ bs)) in
    if n == 0 then ([], some false) else (take n (b ∷ bs) ++ taken, result)
send_loop (interrupted ∷ replies) (b ∷ bs) = send_loop replies (b ∷ bs)
send_loop (failed ∷ replies) (b ∷ bs) = ([], some false)

unfoldable pub send_data : List Reply → Text → Text × Option Bool
send_data replies payload =
    if ltb (2 ^ 32 - 1) (length payload)
    then ([], some false)
    else send_loop replies (frame payload)

-- How a loop over `recv` ends: with its bytes, what is left on the wire and the answers to come;
-- with an error or the end of the connection; or not yet.
pub data Loaded : Type 0 where
  loaded : Text → Text → List Reply → Loaded
  broken : Loaded
  waiting : Loaded

abbrev pub in_front : Text → Loaded → Loaded
in_front bytes (loaded more wire replies) = loaded (bytes ++ more) wire replies
in_front bytes broken = broken
in_front bytes waiting = waiting

-- Both loops of `readDataWith`, until `need` bytes are there.
unfoldable pub load : List Reply → ℕ → Text → Loaded
load replies zero wire = loaded [] wire replies
load [] (suc need) wire = waiting
load (moves k ∷ replies) (suc need) wire =
    let n = min k (min (suc need) (length wire)) in
    let rest = load replies (suc need - n) (drop n wire) in
    if n == 0 then broken else in_front (take n wire) rest
load (interrupted ∷ replies) (suc need) wire = load replies (suc need) wire
load (failed ∷ replies) (suc need) wire = broken

-- The string that the caller gets, empty after an error, with the wire and the answers behind it.
pub data Received : Type 0 where
  received : Text → Text → List Reply → Received
  nothing : Received
  blocked : Received

abbrev pub payload_of : Loaded → Received
payload_of (loaded payload wire replies) = received payload wire replies
payload_of broken = nothing
payload_of waiting = blocked

abbrev pub behind_header : Loaded → Received
behind_header (loaded header wire replies) = payload_of (load replies (of_le_bytes header) wire)
behind_header broken = nothing
behind_header waiting = blocked

unfoldable pub read_data : List Reply → Text → Received
read_data replies wire = behind_header (load replies 4 wire)
