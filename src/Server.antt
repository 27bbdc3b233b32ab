-- ===== src/Server.antt =====
-- libs/tcp_server/tcp_server.{h,cpp}: `Server`, its descriptors and the life cycle that `start` and
-- `stop` lead it through. Server/Loop has the event loop.
pub mod Loop
pub mod Served
pub mod Owned
pub mod Starting
pub mod Watching
pub mod Serving
pub mod Running
pub mod Stopping
use tracebox.Prelude.{
  ℕ, zero, suc, ◌%◌, ◌^◌, Bool, true, false, not, ◌&&◌, ◌||◌, Option, none, some, List, [], ◌∷◌,
  ◌++◌, ◌==◌, if◌then◌else◌, length,
}
use tracebox.Descriptors.{Kernel, create, close_fd, watch, unwatch, close_some, fds}

pub data State : Type 0 where
  stopped starting running stopping : State

pub record Server : Type 0 where
  pub epoll_fd : Option ℕ
  pub wakeup_fd : Option ℕ
  pub listening_fd : Option ℕ
  pub bound_port : ℕ
  pub clients : List ℕ
  pub state : State
  pub has_thread : Bool
  pub signalled : Bool

-- `Server(port, cb)`
abbrev pub new_server : Server
new_server = record {
  epoll_fd = none;
  wakeup_fd = none;
  listening_fd = none;
  bound_port = 0;
  clients = [];
  state = stopped;
  has_thread = false;
  signalled = false;
}

abbrev pub is_stopped : State → Bool
is_stopped stopped = true
is_stopped starting = false
is_stopped running = false
is_stopped stopping = false

-- The two calls of `fcntl`, and of `setsockopt`: whether each succeeds.
pub record Fcntl : Type 0 where
  pub gets : Bool
  pub sets : Bool

pub record Timeouts : Type 0 where
  pub sending : Bool
  pub receiving : Bool

abbrev pub set_non_blocking : Fcntl → Bool
set_non_blocking f = if not f.gets || not f.sets then false else true

abbrev pub set_socket_timeouts : Timeouts → Bool
set_socket_timeouts t = if not t.sending then false else (if not t.receiving then false else true)

-- What the calls of one `registerFd` answer.
pub record Registering : Type 0 where
  pub flags : Fcntl
  pub added : Bool
  pub timeouts : Timeouts

-- `registerFd`
unfoldable pub register_fd : Registering → ℕ → Bool → Server → Kernel → Server × Kernel × Bool
register_fd r fd client s k =
    if not (set_non_blocking r.flags) || not r.added
    then (s, k, false)
    else (if client
        then (if set_socket_timeouts r.timeouts
            then (record s { clients = s.clients ++ fd ∷ [] }, watch fd k, true)
            else (s, unwatch fd (watch fd k), false))
        else (s, watch fd k, true))

-- `std::find` and `erase`
unfoldable pub erase : ℕ → List ℕ → List ℕ
erase fd [] = []
erase fd (x ∷ xs) = if x == fd then xs else x ∷ erase fd xs

-- `if (epoll_fd_ >= 0) epoll_ctl(epoll_fd_, EPOLL_CTL_DEL, fd, nullptr);`
abbrev pub forget : Option ℕ → ℕ → Kernel → Kernel
forget none fd k = k
forget (some epoll) fd k = unwatch fd k

-- `unregisterFd`
unfoldable pub unregister_fd : ℕ → Server → Kernel → Server × Kernel
unregister_fd fd s k =
    (record s { clients = erase fd s.clients }, close_fd fd (forget s.epoll_fd fd k))

-- `client_fd_.back()`
abbrev pub last_of : ℕ → List ℕ → ℕ
last_of x [] = x
last_of x (y ∷ ys) = last_of y ys

-- The loop of `closeClientFds`.
unfoldable pub close_clients_in : ℕ → Server → Kernel → Server × Kernel
close_clients_in zero s k = (s, k)
close_clients_in (suc rounds) s k = elim s.clients [
  | [] ↦ (s, k)
  | x ∷ xs ↦ let (s', k') = unregister_fd (last_of x xs) s k in close_clients_in rounds s' k'
]

-- `closeClientFds`; each round takes one client away.
unfoldable pub close_clients : Server → Kernel → Server × Kernel
close_clients s k = close_clients_in (length s.clients) s k

abbrev pub close_wakeup : Server → Kernel → Kernel
close_wakeup s k = elim s.wakeup_fd [ none ↦ k | some fd ↦ close_fd fd (forget s.epoll_fd fd k) ]

-- `closeStartupDescriptors`
unfoldable pub close_startup_descriptors : Server → Kernel → Server × Kernel
close_startup_descriptors s k =
    let (s', k') = close_clients s k in
    (
      record s' { listening_fd = none; wakeup_fd = none; epoll_fd = none },
      close_some s'.epoll_fd (close_wakeup s' (close_some s'.listening_fd k')),
    )

-- What the calls of one `start` answer.
pub record Startup : Type 0 where
  pub epoll : Option ℕ
  pub wakeup : Option ℕ
  pub wakeup_flags : Fcntl
  pub listening : Option ℕ
  pub listening_flags : Fcntl
  pub reuses : Bool
  pub timeouts : Timeouts
  pub binds : Bool
  pub listens : Bool
  pub bound : Option ℕ
  pub registering_wakeup : Registering
  pub registering_listening : Registering
  pub thread_starts : Bool

-- The three lines behind each failure.
unfoldable pub give_up : Server → Kernel → Server × Kernel × Bool
give_up s k =
    let (s', k') = close_startup_descriptors s k in (record s' { state = stopped }, k', false)

unfoldable pub start_thread : Startup → Server → Kernel → Server × Kernel × Bool
start_thread env s k =
    let s' = record s { state = running } in
    if env.thread_starts then (record s' { has_thread = true }, k, true) else give_up s' k

unfoldable pub start_registering : Startup → ℕ → ℕ → Server → Kernel → Server × Kernel × Bool
start_registering env wakeup listening s k =
    let (s1, k1, first) = register_fd env.registering_wakeup wakeup false s k in
    if first
    then (let (s2, k2, second) = register_fd env.registering_listening listening false s1 k1 in
        if second then start_thread env s2 k2 else give_up s2 k2)
    else give_up s1 k1

-- The configured socket: `getsockname`, whose port stays behind a later failure.
unfoldable pub start_bound : Startup → ℕ → ℕ → Server → Kernel → Server × Kernel × Bool
start_bound env wakeup listening s k = elim env.bound [
  | none ↦ give_up s k
  | some port ↦ start_registering env wakeup listening (record s { bound_port = port % 2 ^ 16 }) k
]

unfoldable pub start_listening : Startup → ℕ → Server → Kernel → Server × Kernel × Bool
start_listening env wakeup s k =
    let (k', made) = create k env.listening in
    let s' = record s { listening_fd = made } in
    elim made [
      | none ↦ give_up s' k'
      | some fd ↦
          if set_non_blocking env.listening_flags
            && (env.reuses && set_socket_timeouts env.timeouts)
            && (env.binds && env.listens)
          then start_bound env wakeup fd s' k'
          else give_up s' k'
    ]

unfoldable pub start_wakeup : Startup → Server → Kernel → Server × Kernel × Bool
start_wakeup env s k =
    let (k', made) = create k env.wakeup in
    let s' = record s { wakeup_fd = made; signalled = false } in
    elim made [
      | none ↦ give_up s' k'
      | some fd ↦
          if set_non_blocking env.wakeup_flags then start_listening env fd s' k' else give_up s' k'
    ]

-- `start`
unfoldable pub start_server : Startup → Server → Kernel → Server × Kernel × Bool
start_server env s k =
    if is_stopped s.state
    then (let (k', made) = create k env.epoll in
        let s' = record s { state = starting; epoll_fd = made } in
        elim made [ none ↦ give_up s' k' | some fd ↦ start_wakeup env s' k' ])
    else (s, k, false)

-- The first block of `stop`: whether it goes on, and the server as it leaves it. `writes` is
-- whether the eventfd takes the value.
abbrev pub request_from : State → Server → Bool → Server × Bool
request_from starting s writes = (s, false)
request_from running s writes =
    let s' = record s { state = stopping } in
    (elim s.wakeup_fd [
      | none ↦ (s', true)
      | some fd ↦ (record s' { signalled = writes || s.signalled }, true)
    ])
request_from stopped s writes = (s, true)
request_from stopping s writes = (s, true)

unfoldable pub request_stop : Server → Bool → Server × Bool
request_stop s writes = request_from s.state s writes

-- The rest of `stop`, behind the join.
unfoldable pub finish_stop : Server → Kernel → Server × Kernel
finish_stop s k =
    let (s', k') = close_startup_descriptors s k in
    (record s' { bound_port = 0; state = stopped; has_thread = false }, k')
