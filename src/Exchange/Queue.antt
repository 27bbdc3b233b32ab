-- ===== src/Exchange/Queue.antt =====
-- `TraceboxLogger`: what its server makes of the writer's queue, the worker apart.
use tracebox.Prelude.{
  ◌≡◌, refl, sym, ap, ◌∙◌, Bool, true, Option, List, [], ◌∷◌, ◌++◌, append-nil, append_assoc, All,
  All-append, if-elim,
}
use tracebox.Bytes.{Text}
use tracebox.StreamWriter.{LogRequest}
use tracebox.LogWriter.{LogWriter, add}
use tracebox.Server.Loop.{Loop, Wait, run_thread}
use tracebox.Server.Served.{run_thread-keeps}
use tracebox.Messages.{Codec, LogMessage, request_of}
use tracebox.Handlers.{handle_log_request}

module _ (codec : Codec LogMessage) where
  -- Some bytes parse as this request.
  abbrev pub IsParsed : LogRequest → Type 0
  IsParsed request =
      (bytes : Text) × (m : LogMessage) × (codec.parse bytes ≡ (m, true)) × (request_of m ≡ request)

  -- The queue has grown by such requests, and not at all if the writer was stopping.
  pub record Extends (w w' : LogWriter) : Type 0 where
    pub added : List LogRequest
    pub queue : w'.queue ≡ w.queue ++ added
    pub parsed : All IsParsed added
    pub stopping : w'.stopping ≡ w.stopping
    pub closed : w.stopping ≡ true → added ≡ []

  Extends-refl : (w : LogWriter) → Extends w w
  Extends-refl w = record {
    added = [];
    queue = sym (append-nil w.queue);
    parsed = tt;
    stopping = refl;
    closed = λ e. refl;
  }

  Extends-trans : (u v w : LogWriter) → Extends u v → Extends v w → Extends u w
  Extends-trans u v w a b = record {
    added = a.added ++ b.added;
    queue = b.queue ∙ ap (λ q. q ++ b.added) a.queue ∙ append_assoc u.queue a.added b.added;
    parsed = All-append IsParsed a.added b.added a.parsed b.parsed;
    stopping = b.stopping ∙ a.stopping;
    closed = λ e. cc (a.closed e, b.closed (a.stopping ∙ e));
  }

  handle_log_request-Extends :
      (w : LogWriter) (bytes : Text) → Extends w (handle_log_request codec w bytes).0
  unfolding handle_log_request add
  handle_log_request-Extends w bytes =
      if-elim (λ (x : LogWriter × Option Text). Extends w x.0) (codec.parse bytes).1
        (λ parses.
          if-elim (λ (x : LogWriter × Bool). Extends w x.0) w.stopping (λ stopped. Extends-refl w)
            (λ runs. record {
              added = request_of (codec.parse bytes).0 ∷ [];
              queue = refl;
              parsed = (
                (bytes, (codec.parse bytes).0, ap (λ b. ((codec.parse bytes).0, b)) parses, refl),
                tt,
              );
              stopping = refl;
              closed = λ e. cc (e, runs);
            }))
        (λ e. Extends-refl w)

  -- Whatever the clients send and the system calls answer, the server's thread with the callback of
  -- `TraceboxLogger` only adds requests at the end of the writer's queue, each of which some bytes
  -- parse as, and adds none to a writer that is stopping.
  pub run_thread-Extends :
      (ws : List Wait) (l : Loop LogWriter)
      → Extends l.served (run_thread (handle_log_request codec) ws l).0.served
  run_thread-Extends =
      run_thread-keeps (handle_log_request codec) Extends Extends-refl Extends-trans
        handle_log_request-Extends
