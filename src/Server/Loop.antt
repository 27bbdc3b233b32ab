-- ===== src/Server/Loop.antt =====
-- libs/tcp_server/tcp_server.cpp: `run` and `handleLogRequest`. Another thread may store into
-- `state_` at any time, so what each load of it finds is given: whether it is still `kRunning`.
use tracebox.Prelude.{
  ℕ, Bool, true, false, not, ◌&&◌, ◌||◌, Option, none, some, List, [], ◌∷◌, ◌++◌, ◌==◌,
  if◌then◌else◌,
}
use tracebox.Bytes.{Text}
use tracebox.TcpSocket.{
  Reply, Loaded, loaded, broken, waiting, load, Received, received, nothing, blocked, read_data,
  send_data,
}
use tracebox.Descriptors.{Kernel, create, close_fd, close_some}
use tracebox.Server.{
  Server, Registering, register_fd, unregister_fd, close_clients, request_stop, finish_stop,
}

-- One request on a client's socket: what its calls of `recv` answer and find, whether the buffer of
-- the announced size can be allocated, what the loads of `state_` find, and what `send` answers.
pub record Request : Type 0 where
  pub replies : List Reply
  pub wire : Text
  pub allocates : Bool
  pub after_read : Bool
  pub in_lock : Bool
  pub before_reply : Bool
  pub sending : List Reply

abbrev pub header_arrives : Loaded → Bool
header_arrives (loaded bytes rest replies) = true
header_arrives broken = false
header_arrives waiting = false

-- The sockets do not block: where the answers run out the call fails by `EAGAIN`.
abbrev pub buffer_of : Received → Text
buffer_of (received payload rest replies) = payload
buffer_of nothing = []
buffer_of blocked = []

-- `TcpSocket::readData`; none for `std::bad_alloc`.
unfoldable pub read_request : Request → Option Text
read_request r =
    if header_arrives (load r.replies 4 r.wire) && not r.allocates
    then none
    else some (buffer_of (read_data r.replies r.wire))

abbrev pub is_empty : Text → Bool
is_empty [] = true
is_empty (c ∷ cs) = false

-- How `handleLogRequest` ends: it returns a `bool`, or the exception of the allocation leaves it.
-- A callback that throws is caught.
pub data Handled : Type 0 where
  handled : Bool → Handled
  escapes : Handled

-- What a callback has changed, its answer (none if it throws), and what a client has been sent.
module _ {S : Type 0} (callback : S → Text → S × Option Text) where
  abbrev pub answer_with : Request → S × Option Text → S × Text × Handled
  answer_with r (served, none) = (served, [], handled false)
  answer_with r (served, some reply) = (
    served,
    if not (is_empty reply) && r.before_reply then (send_data r.sending reply).0 else [],
    handled true,
  )

  abbrev pub handle_buffer : Request → S → Option Text → S × Text × Handled
  handle_buffer r served none = (served, [], escapes)
  handle_buffer r served (some buffer) =
      if is_empty buffer || not r.after_read || not r.in_lock
      then (served, [], handled false)
      else answer_with r (callback served buffer)

  -- `handleLogRequest`
  unfoldable pub handle_request : Request → S → S × Text × Handled
  handle_request r served = handle_buffer r served (read_request r)

-- One entry of what `epoll_wait` returns: the descriptor, `EPOLLIN`, what `accept` and `registerFd`
-- answer if it is the listening one, the request if it is a client's, and what the loads of
-- `state_` find.
pub record Event : Type 0 where
  pub fd : ℕ
  pub readable : Bool
  pub at_event : Bool
  pub accepted : Option ℕ
  pub after_accept : Bool
  pub registering : Registering
  pub request : Request

-- The thread's view: the server, the descriptors, what the callback works on, and what has been
-- sent to which client.
pub record Loop (S : Type 0) : Type 0 where
  pub server : Server
  pub kernel : Kernel
  pub served : S
  pub sent : List (ℕ × Text)

abbrev pub is_fd : Option ℕ → ℕ → Bool
is_fd none fd = false
is_fd (some own) fd = fd == own

-- `accept`, and `close(client)` where the client is not taken.
unfoldable pub accept_client : {S : Type 0} → Event → Loop S → Loop S
accept_client e l =
    let (k, client) = create l.kernel e.accepted in
    elim client [
      | none ↦ record l { kernel = k }
      | some fd ↦
          if e.after_accept
          then (let (s', k', taken) = register_fd e.registering fd true l.server k in
              if taken
              then record l { server = s'; kernel = k' }
              else record l { server = s'; kernel = close_fd fd k' })
          else record l { kernel = close_fd fd k }
    ]

abbrev pub drop_client : {S : Type 0} → ℕ → Loop S → Loop S
drop_client fd l =
    let (s', k') = unregister_fd fd l.server l.kernel in record l { server = s'; kernel = k' }

-- How the handling of an event ends: the loop goes on, shuts down, or is left by an exception.
pub data Verdict : Type 0 where
  goes_on shuts_down thrown : Verdict

module _ {S : Type 0} (callback : S → Text → S × Option Text) where
  abbrev pub settle : ℕ → Loop S → S × Text × Handled → Loop S × Verdict
  settle fd l (served, sent, handled true) =
      (record l { served = served; sent = l.sent ++ (fd, sent) ∷ [] }, goes_on)
  settle fd l (served, sent, handled false) =
      (drop_client fd (record l { served = served }), goes_on)
  settle fd l (served, sent, escapes) = (record l { served = served }, thrown)

  -- The body of the loop over the events, behind the test for the wakeup descriptor.
  unfoldable pub handle_event : Event → Loop S → Loop S × Verdict
  handle_event e l =
      if not e.at_event
      then (l, shuts_down)
      else (if is_fd l.server.listening_fd e.fd
          then (accept_client e l, goes_on)
          else (if e.readable
              then settle e.fd l (handle_request callback e.request l.served)
              else (drop_client e.fd l, goes_on)))

  -- `drainEventFd`: the value is read and the next read fails.
  abbrev pub drained : Loop S → Loop S
  drained l = record l { server = record l.server { signalled = false } }

  -- The loop over the events of one wait.
  unfoldable pub handle_events : List Event → Loop S → Loop S × Verdict
  handle_events [] l = (l, goes_on)
  handle_events (e ∷ es) l = elim (is_fd l.server.wakeup_fd e.fd) [
    | true ↦ (drained l, shuts_down)
    | false ↦
        let (l', verdict) = handle_event e l in
        elim verdict [
          | goes_on ↦ handle_events es l'
          | shuts_down ↦ (l', shuts_down)
          | thrown ↦ (l', thrown)
        ]
  ]

-- What `epoll_wait` answers: an interruption, another error, or events.
pub data Wait : Type 0 where
  interrupted failed : Wait
  ready : List Event → Wait

module _ {S : Type 0} (callback : S → Text → S × Option Text) where
  -- The outer loop, and whether it has ended; it waits where the answers run out.
  unfoldable pub run_loop : List Wait → Loop S → Loop S × Bool
  run_loop [] l = (l, false)
  run_loop (interrupted ∷ ws) l = run_loop ws l
  run_loop (failed ∷ ws) l = (l, true)
  run_loop (ready es ∷ ws) l =
      let (l', verdict) = handle_events callback es l in
      elim verdict [ goes_on ↦ run_loop ws l' | shuts_down ↦ (l', true) | thrown ↦ (l', true) ]

  -- What follows the loop.
  unfoldable pub leave_loop : Loop S → Loop S
  leave_loop l =
      let (s, k) = close_clients l.server l.kernel in
      record l { server = record s { listening_fd = none }; kernel = close_some s.listening_fd k }

  -- `run`, and whether the thread has ended.
  unfoldable pub run_thread : List Wait → Loop S → Loop S × Bool
  run_thread ws l =
      let (l', over) = run_loop ws l in if over then (leave_loop l', true) else (l', false)

  -- `finish_stop` on the thread's view.
  abbrev pub closed_down : Loop S → Loop S
  closed_down l = let (s, k) = finish_stop l.server l.kernel in record l { server = s; kernel = k }

  -- `stop`: the request, the join, which waits for what the thread still does, and the rest; and
  -- whether it has returned. `writes` is whether the eventfd takes the value.
  unfoldable pub stop_server : List Wait → Bool → Loop S → Loop S × Bool
  stop_server ws writes l =
      let (s, on) = request_stop l.server writes in
      let l' = record l { server = s } in
      if on
      then (if s.has_thread
          then (let (ran, over) = run_thread ws l' in
              if over then (closed_down ran, true) else (ran, false))
          else (closed_down l', true))
      else (l', true)
