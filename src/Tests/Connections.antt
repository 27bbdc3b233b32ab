-- ===== src/Tests/Connections.antt =====
-- A server and its clients: a start that fails, a connection, a record, and a stop.
use tracebox.Prelude.{
  ℕ, ◌≡◌, refl, true, false, Bool, none, some, List, [], ◌∷◌, ◌++◌, ◌==◌, ◌||◌, arith,
}
use tracebox.Bytes.{Text, le_bytes, of_le_bytes}
use tracebox.TcpSocket.{Reply, moves, interrupted, frame, read_data, load, send_data, send_loop}
use tracebox.TcpSocket.Sending.{progress}
use tracebox.Descriptors.{Kernel, Holds, count, create, watch}
use tracebox.Server.{
  Server, running, new_server, Startup, Registering, Fcntl, Timeouts, start_server, register_fd,
  request_stop, close_clients, close_clients_in,
}
use tracebox.Server.Loop.{
  Request, Event, Loop, Wait, interrupted, ready, handled, handle_request, run_thread, stop_server,
  handle_events, handle_event, accept_client, read_request, run_loop, leave_loop,
}
use tracebox.Server.Starting.{Started, start_server-Started}
use tracebox.Server.Serving.{LoopServes}
use tracebox.Server.Running.{Delivered, Ran, run_thread-Ran, is_roused, wakes}
use tracebox.Server.Stopping.{Stopped, stop_server-Stopped}
use tracebox.TcpClient.{Dialing, refused, interrupted, connect, send_on}
use tracebox.TcpClient.Connecting.{Returned, connect-Returned, is_decided}
use tracebox.LogWriter.{LogWriter, add}
use tracebox.Messages.{Codec, LogMessage, or_zero, or_empty, request_of}
use tracebox.Clients.{LogClient, log_data, log_message}
use tracebox.Handlers.{handle_log_request}
use tracebox.Exchange.Queue.{Extends, run_thread-Extends}
use tracebox.Exchange.Records.{record_of, log_data-delivered}

abbrev no_fd : ℕ → Bool
no_fd n = false

abbrev bare : Kernel
bare = record { is_open = no_fd; watched = no_fd; stray = 0 }

bare-Holds : Holds no_fd [] bare
unfolding count
bare-Holds = record { opened = λ n. refl; quiet = refl }

abbrev flags : Fcntl
flags = record { gets = true; sets = true }

abbrev timeouts : Timeouts
timeouts = record { sending = true; receiving = true }

abbrev registering : Registering
registering = record { flags = flags; added = true; timeouts = timeouts }

-- All calls succeed but the last: the listening socket cannot be watched.
abbrev startup : Startup
startup = record {
  epoll = some 3;
  wakeup = some 4;
  wakeup_flags = flags;
  listening = some 5;
  listening_flags = flags;
  reuses = true;
  timeouts = timeouts;
  binds = true;
  listens = true;
  bound = some 49997;
  registering_wakeup = registering;
  registering_listening = record registering { added = false };
  thread_starts = true;
}

start_server-Started_example : Started no_fd (start_server startup new_server bare)
start_server-Started_example =
    start_server-Started startup new_server bare
      (record {
        state = refl;
        epoll = refl;
        wakeup = refl;
        listening = refl;
        clients = refl;
        thread = refl;
      })
      bare-Holds

-- Two attempts are interrupted, and the third is refused.
abbrev dialing : Dialing
dialing = record {
  socket = some 7;
  parses = true;
  timeouts = timeouts;
  attempts = interrupted ∷ interrupted ∷ refused ∷ [];
}

abbrev lone : Kernel
lone = record { is_open = λ n. n == 6; watched = no_fd; stray = 0 }

connect-Returned_example : Returned no_fd [] (connect dialing 49997 (record { fd = some 6 }) lone)
unfolding is_decided count
connect-Returned_example =
    connect-Returned dialing 49997 (record { fd = some 6 }) lone refl
      (record { opened = λ n. ground arith; quiet = refl })

-- Messages of one channel: the time in one byte, and the data.
abbrev log_codec : Codec LogMessage
log_codec = record { encode = encode; parse = parse }
  where
    encode : LogMessage → Text
    encode m = or_zero m.time_ns ∷ or_empty m.payload

    parse : Text → LogMessage × Bool
    parse [] = (record { channel = none; size = none; payload = none; time_ns = none }, false)
    parse (t ∷ bytes) = (
      record { channel = some (b'x' ∷ []); size = none; payload = some bytes; time_ns = some t },
      true,
    )

abbrev log_client : LogClient
log_client = record { tcp = record { fd = some 6 }; stream_name = b'x' ∷ []; record_size = 0 }

abbrev calls : List Reply
calls =
    moves 3 ∷ interrupted ∷ moves 2 ∷ moves 9 ∷ moves 9 ∷ moves 9 ∷ moves 9 ∷ moves 9 ∷ moves 9 ∷ []

abbrev written : Text
written = b'h' ∷ b'i' ∷ []

abbrev request_on : Text → Request
request_on wire = record {
  replies = calls;
  wire = wire;
  allocates = true;
  after_read = true;
  in_lock = true;
  before_reply = true;
  sending = calls;
}

abbrev on_wire : Text
on_wire = (log_data log_codec log_client calls written 200).0

abbrev idle : LogWriter
idle = record { queue = []; stopping = false }

log_data-delivered_example :
    handle_request (handle_log_request log_codec) (request_on (on_wire ++ (b'z' ∷ []))) idle
    ≡ (record idle { queue = record_of log_client written 200 ∷ [] }, [], handled true)
unfolding log_data log_message send_on send_data send_loop frame le_bytes progress
log_data-delivered_example =
    log_data-delivered log_codec log_client calls written 200 idle
      (request_on (on_wire ++ (b'z' ∷ []))) refl refl (omega arith)
      (record {
        more = b'z' ∷ [];
        wire = refl;
        live = (
          omega arith,
          (
            tt,
            (
              omega arith,
              (
                omega arith,
                (omega arith, (omega arith, (omega arith, (omega arith, (omega arith, tt))))),
              ),
            ),
          ),
        );
        enough = omega arith;
        allocates = refl;
        after_read = refl;
        in_lock = refl;
      })
      refl

-- The server runs, with no client yet.
abbrev up_kernel : Kernel
up_kernel = record {
  is_open = λ n. n == 3 || n == 4 || n == 5;
  watched = λ n. n == 4 || n == 5;
  stray = 0;
}

abbrev up_server : Server
up_server = record new_server {
  epoll_fd = some 3;
  wakeup_fd = some 4;
  listening_fd = some 5;
  bound_port = 49997;
  state = running;
  has_thread = true;
}

abbrev begun : Loop LogWriter
begun = record { server = up_server; kernel = up_kernel; served = idle; sent = [] }

begun-LoopServes : LoopServes no_fd begun
unfolding count
begun-LoopServes = record {
  holds = record { opened = λ n. ground arith; quiet = refl };
  watches = λ n. ground arith;
}

abbrev event_on : ℕ → Event
event_on fd = record {
  fd = fd;
  readable = true;
  at_event = true;
  accepted = some 6;
  after_accept = true;
  registering = registering;
  request = request_on on_wire;
}

-- A client is accepted, its record arrives, and the wakeup descriptor is readable.
abbrev waits : List Wait
waits =
    ready (event_on 5 ∷ []) ∷ interrupted ∷ ready (event_on 6 ∷ []) ∷ ready (event_on 4 ∷ []) ∷ []

waits-Delivered :
    (writes : Bool)
    → Delivered no_fd
        (handle_log_request log_codec)
        waits
        (record begun { server = (request_stop up_server writes).0 })
unfolding handle_events handle_event accept_client create register_fd handle_request read_request
    load read_data of_le_bytes log_data log_message send_on send_data send_loop frame le_bytes
    handle_log_request request_of add request_stop watch
waits-Delivered writes = ((refl, tt, tt), ((refl, tt, tt), ((refl, tt, tt), tt)))

stop_server-Stopped_example :
    Stopped no_fd
      (handle_log_request log_codec)
      (stop_server (handle_log_request log_codec) waits true begun)
unfolding is_roused wakes
stop_server-Stopped_example =
    stop_server-Stopped no_fd (handle_log_request log_codec) waits true begun refl refl
      begun-LoopServes (waits-Delivered true) refl

begun-Delivered : Delivered no_fd (handle_log_request log_codec) waits begun
unfolding handle_events handle_event accept_client create register_fd handle_request read_request
    load read_data of_le_bytes log_data log_message send_on send_data send_loop frame le_bytes
    handle_log_request request_of add watch
begun-Delivered = ((refl, tt, tt), ((refl, tt, tt), ((refl, tt, tt), tt)))

run_thread-Ran_example :
    Ran no_fd
      (handle_log_request log_codec)
      waits
      begun
      (run_thread (handle_log_request log_codec) waits begun)
run_thread-Ran_example =
    run_thread-Ran no_fd (handle_log_request log_codec) waits begun begun-LoopServes begun-Delivered

run_thread-Extends_example :
    Extends log_codec idle (run_thread (handle_log_request log_codec) waits begun).0.served
run_thread-Extends_example = run_thread-Extends log_codec waits begun

-- The record is in the queue when the thread has ended.
queue_filled :
    (run_thread (handle_log_request log_codec) waits begun).0.served.queue
    ≡ record_of log_client written 200 ∷ []
unfolding handle_events handle_event accept_client create register_fd handle_request read_request
    load read_data of_le_bytes log_data log_message send_on send_data send_loop frame le_bytes
    handle_log_request request_of add run_thread run_loop leave_loop close_clients close_clients_in
    watch
queue_filled = refl
