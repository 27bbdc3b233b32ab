-- ===== src/Tests/Sockets.antt =====
-- Messages over a socket that interrupts and cuts them.
use tracebox.Prelude.{◌≡◌, refl, true, some, List, [], ◌∷◌, ◌++◌, arith, All}
use tracebox.Bytes.{Text, le_bytes}
use tracebox.TcpSocket.{
  Reply, moves, interrupted, failed, frame, send_loop, send_data, received, read_data,
}
use tracebox.TcpSocket.Sending.{Sends, IsLive, send_loop-completes, send_data-Sends, progress}
use tracebox.TcpSocket.Receiving.{Receives, read_data-frame, read_data-completes}

abbrev message : Text
message = b'h' ∷ b'i' ∷ []

-- Three bytes, an interruption, one byte, then whatever is left.
abbrev calls : List Reply
calls = moves 3 ∷ interrupted ∷ moves 1 ∷ moves 1 ∷ moves 9 ∷ moves 9 ∷ moves 9 ∷ []

calls-IsLive : All IsLive calls
calls-IsLive = (
  omega arith,
  (tt, (omega arith, (omega arith, (omega arith, (omega arith, (omega arith, tt)))))),
)

sent_in_parts : send_data calls message ≡ (frame message, some true)
unfolding send_data send_loop frame le_bytes
sent_in_parts = refl

send_data-Sends_example : Sends (frame message) (send_data (moves 3 ∷ failed ∷ []) message)
send_data-Sends_example = send_data-Sends (moves 3 ∷ failed ∷ []) message

send_loop-completes_example : (send_loop calls message).1 ≡ some true
unfolding progress
send_loop-completes_example = send_loop-completes calls message calls-IsLive (omega arith)

read_data-frame_example :
    Receives message (b'x' ∷ []) (read_data calls (frame message ++ (b'x' ∷ [])))
read_data-frame_example = read_data-frame calls message (b'x' ∷ []) (omega arith)

read_data-completes_example :
    (rest : List Reply) × (read_data calls (frame message ++ (b'x' ∷ []))
      ≡ received message (b'x' ∷ []) rest)
unfolding progress
read_data-completes_example =
    read_data-completes calls message (b'x' ∷ []) (omega arith) calls-IsLive (omega arith)
