-- ===== src/TcpClient/Connecting.antt =====
-- `connect` leaves the client with its descriptor, or with none open.
use tracebox.Prelude.{
  ℕ, ◌≡◌, refl, Bool, true, false, not, ◌||◌, Option, none, some, List, [], ◌∷◌, ◌++◌, ltb, ◌==◌,
  if-elim,
}
use tracebox.Descriptors.{
  Kernel, create, close_fd, close_some, fds, Holds, Holds-create, Holds-closed,
}
use tracebox.Server.Owned.{Holds-close_some}
use tracebox.TcpClient.{
  TcpClient, Attempt, succeeds, interrupted, refused, Dialing, is_connected, disconnect, connect,
  connect_loop, connect_with, settle, set_client_timeouts,
}

-- Some attempt on the socket is not interrupted.
unfoldable pub is_decided : List Attempt → Bool
is_decided [] = false
is_decided (succeeds ∷ attempts) = true
is_decided (interrupted ∷ attempts) = is_decided attempts
is_decided (refused ∷ attempts) = true

connect_loop-returns :
    (attempts : List Attempt)
    → is_decided attempts ≡ true
    → (b : Bool) × (connect_loop attempts ≡ some b)
unfolding is_decided connect_loop
connect_loop-returns [] h = cc
connect_loop-returns (succeeds ∷ attempts) h = (true, refl)
connect_loop-returns (interrupted ∷ attempts) h = connect_loop-returns attempts h
connect_loop-returns (refused ∷ attempts) h = (false, refl)

-- A call that has returned: its result is whether the client is connected, and beside the
-- descriptors `owned` just the client's is open, and nothing was closed twice.
pub record Returned (elsewhere : ℕ → Bool) (owned : List ℕ) (r : TcpClient × Kernel × Option Bool)
    : Type 0 where
  pub result : r.2 ≡ some (is_connected r.0)
  pub holds : Holds elsewhere (fds r.0.fd ++ owned) r.1

module _ {elsewhere : ℕ → Bool} {owned : List ℕ} where
  unconnected :
      (k : Kernel)
      → Holds elsewhere owned k
      → Returned elsewhere owned (record { fd = none }, k, some false)
  unfolding is_connected
  unconnected k h = record { result = refl; holds = h }

  settle-Returned :
      (fd : ℕ) (k : Kernel) (o : Option Bool) (b : Bool)
      → o ≡ some b
      → Holds elsewhere (fd ∷ owned) k
      → Returned elsewhere owned (settle fd k o)
  unfolding is_connected
  settle-Returned fd k none b e h = cc
  settle-Returned fd k (some true) b e h = record { result = refl; holds = h }
  settle-Returned fd k (some false) b e h =
      unconnected (close_fd fd k) (Holds-closed fd owned h (λ n. refl))

  connect_with-Returned :
      (env : Dialing) (r : Kernel × Option ℕ)
      → is_decided env.attempts ≡ true
      → Holds elsewhere (fds r.1 ++ owned) r.0
      → Returned elsewhere owned (connect_with env r)
  connect_with-Returned env (k, none) decided h = unconnected k h
  connect_with-Returned env (k, some fd) decided h =
      if-elim (Returned elsewhere owned) (not env.parses || not (set_client_timeouts env.timeouts))
        (λ fails. unconnected (close_fd fd k) (Holds-closed fd owned h (λ n. refl)))
        (λ goes_on.
          let (b, e) = connect_loop-returns env.attempts decided in
          settle-Returned fd k (connect_loop env.attempts) b e h)

  -- When some attempt to connect is not interrupted, `connect` returns whether the client is
  -- connected, whatever the system calls answer and whether it was connected before; the client's
  -- descriptor, if it has one, and the others of the process are just the open ones, none having
  -- been closed twice.
  pub connect-Returned :
      (env : Dialing) (port : ℕ) (c : TcpClient) (k : Kernel)
      → is_decided env.attempts ≡ true
      → Holds elsewhere (fds c.fd ++ owned) k
      → Returned elsewhere owned (connect env port c k)
  unfolding connect disconnect
  connect-Returned env port c k decided h =
      let dropped = Holds-close_some c.fd owned h in
      if-elim (Returned elsewhere owned) (port == 0 || ltb 65535 port)
        (λ bad. unconnected (close_some c.fd k) dropped)
        (λ good.
          connect_with-Returned env (create (close_some c.fd k) env.socket) decided
            (Holds-create env.socket dropped))
