-- ===== src/TcpClient.antt =====
-- libs/log_client/tcp_client.{h,cpp}: `TcpClient`, a descriptor that `connect` and `disconnect`
-- change. `ScopedFd` is the `close_fd` on each early return.
pub mod Connecting
use tracebox.Prelude.{
  ℕ, ◌^◌, Bool, true, false, not, ◌||◌, Option, none, some, List, [], ◌∷◌, ltb, ◌==◌, if◌then◌else◌,
}
use tracebox.Bytes.{Text}
use tracebox.Descriptors.{Kernel, create, close_fd, close_some}
use tracebox.Server.{Timeouts}
use tracebox.TcpSocket.{Reply, send_data}

pub record TcpClient : Type 0 where
  pub fd : Option ℕ

unfoldable pub is_connected : TcpClient → Bool
is_connected c = elim c.fd [ none ↦ false | some fd ↦ true ]

-- `disconnect`
unfoldable pub disconnect : TcpClient → Kernel → TcpClient × Kernel
disconnect c k = (record { fd = none }, close_some c.fd k)

abbrev pub set_client_timeouts : Timeouts → Bool
set_client_timeouts t = if not t.sending then false else (if not t.receiving then false else true)

-- What one call of `connect` on the socket answers.
pub data Attempt : Type 0 where
  succeeds interrupted refused : Attempt

-- The loop over `::connect`; none while it waits.
unfoldable pub connect_loop : List Attempt → Option Bool
connect_loop [] = none
connect_loop (succeeds ∷ attempts) = some true
connect_loop (interrupted ∷ attempts) = connect_loop attempts
connect_loop (refused ∷ attempts) = some false

-- What the calls of one `connect` answer; `parses` is whether `inet_aton` reads the address.
pub record Dialing : Type 0 where
  pub socket : Option ℕ
  pub parses : Bool
  pub timeouts : Timeouts
  pub attempts : List Attempt

-- The end of the loop: the descriptor is released into the client, closed, or held while it waits.
abbrev pub settle : ℕ → Kernel → Option Bool → TcpClient × Kernel × Option Bool
settle fd k none = (record { fd = none }, k, none)
settle fd k (some true) = (record { fd = some fd }, k, some true)
settle fd k (some false) = (record { fd = none }, close_fd fd k, some false)

abbrev pub connect_with : Dialing → Kernel × Option ℕ → TcpClient × Kernel × Option Bool
connect_with env (k, none) = (record { fd = none }, k, some false)
connect_with env (k, some fd) =
    if not env.parses || not (set_client_timeouts env.timeouts)
    then (record { fd = none }, close_fd fd k, some false)
    else settle fd k (connect_loop env.attempts)

-- `connect`; the result is none while it waits.
unfoldable pub connect : Dialing → ℕ → TcpClient → Kernel → TcpClient × Kernel × Option Bool
connect env port c k =
    let (c', k') = disconnect c k in
    if port == 0 || ltb 65535 port
    then (c', k', some false)
    else connect_with env (create k' env.socket)

abbrev pub is_true : Option Bool → Bool
is_true none = false
is_true (some b) = b

-- `sendData`; on no descriptor the call fails. The socket has timeouts, so that a call that finds no
-- room fails too.
unfoldable pub send_on : TcpClient → List Reply → Text → Text × Bool
send_on c replies payload = elim c.fd [
  | none ↦ ([], false)
  | some fd ↦ let (sent, result) = send_data replies payload in (sent, is_true result)
]
