-- ===== src/Server/Stopping.antt =====
-- `stop` of a running server.
use tracebox.Prelude.{
  ℕ, ◌≤◌, ◌≡◌, ◌≢◌, refl, sym, ap, ◌∙◌, subst, Bool, true, false, ◌||◌, Option, none, some, List,
  [], if◌then◌else◌, if-elim,
}
use tracebox.Bytes.{Text}
use tracebox.Descriptors.{Holds, bit, count}
use tracebox.Server.{Server, running, stopping, request_stop, request_from, finish_stop}
use tracebox.Server.Loop.{Loop, Wait, run_thread, stop_server, closed_down}
use tracebox.Server.Owned.{IsStopped, descriptors, Holds-close_startup_descriptors}
use tracebox.Server.Watching.{watchable}
use tracebox.Server.Serving.{LoopServes}
use tracebox.Server.Running.{Delivered, is_roused, Ran, left, waits, run_thread-Ran}

true-ne-false : true ≢ false
true-ne-false e = cc

-- The first block of `stop` on a running server: it goes on, and touches no descriptor.
record Requested (s : Server) (r : Server × Bool) : Type 0 where
  on : r.1 ≡ true
  wakeup : r.0.wakeup_fd ≡ s.wakeup_fd
  owned : descriptors r.0 ≡ descriptors s
  watched : watchable r.0 ≡ watchable s
  thread : r.0.has_thread ≡ s.has_thread

request_stop-Requested :
    (s : Server) (writes : Bool) → s.state ≡ running → Requested s (request_stop s writes)
unfolding request_stop
request_stop-Requested s writes st =
    subst (λ state. Requested s (request_from state s writes)) (sym st) (by_wakeup s.wakeup_fd)
  where
    by_wakeup :
        (o : Option ℕ)
        → Requested s (elim o as (λ x. Server × Bool) [
          | none ↦ (record s { state = stopping }, true)
          | some fd ↦ (record s { state = stopping; signalled = writes || s.signalled }, true)
        ])
    by_wakeup none = record {
      on = refl;
      wakeup = refl;
      owned = refl;
      watched = refl;
      thread = refl;
    }
    by_wakeup (some fd) = record {
      on = refl;
      wakeup = refl;
      owned = refl;
      watched = refl;
      thread = refl;
    }

module _ {S : Type 0} (elsewhere : ℕ → Bool) (callback : S → Text → S × Option Text) where
  -- Stopped for good: no descriptor of the server is open.
  pub record Stopped (r : Loop S × Bool) : Type 0 where
    pub returned : r.1 ≡ true
    pub stopped : IsStopped r.0.server
    pub port : r.0.server.bound_port ≡ 0
    pub holds : Holds elsewhere [] r.0.kernel

  closed_down-Stopped :
      (l : Loop S)
      → Holds elsewhere (descriptors l.server) l.kernel
      → Stopped (closed_down callback l, true)
  unfolding finish_stop
  closed_down-Stopped l h =
      let closed = Holds-close_startup_descriptors l.server l.kernel h in
      record {
        returned = refl;
        stopped = record {
          state = refl;
          epoll = ap (λ (r : Server). r.epoll_fd) closed.0;
          wakeup = ap (λ (r : Server). r.wakeup_fd) closed.0;
          listening = ap (λ (r : Server). r.listening_fd) closed.0;
          clients = ap (λ (r : Server). r.clients) closed.0;
          thread = refl;
        };
        port = refl;
        holds = closed.1;
      }

  -- `stop` of a running server that keeps its descriptors returns once some answer of `epoll_wait`
  -- rouses the loop, if all answers report watched descriptors, each once: the server is stopped,
  -- with no thread, client, descriptor or port, and just the descriptors that are open elsewhere in
  -- the process are open, none having been closed twice.
  pub stop_server-Stopped :
      (ws : List Wait) (writes : Bool) (l : Loop S)
      → l.server.state ≡ running
      → l.server.has_thread ≡ true
      → LoopServes elsewhere l
      → Delivered elsewhere callback ws (record l { server = (request_stop l.server writes).0 })
      → is_roused l.server.wakeup_fd ws ≡ true
      → Stopped (stop_server callback ws writes l)
  unfolding stop_server request_stop
  stop_server-Stopped ws writes l st th v d roused =
      by_request (request_stop l.server writes) (request_stop-Requested l.server writes st) d
    where
      by_run :
          (l' : Loop S) (r : Loop S × Bool)
          → is_roused l'.server.wakeup_fd ws ≡ true
          → Ran elsewhere callback ws l' r
          → Stopped (
              let (ran, over) = r in
              if over then (closed_down callback ran, true) else (ran, false))
      by_run l' r awake (left e b) =
          subst (λ t. Stopped (if t then (closed_down callback r.0, true) else (r.0, false)))
            (sym e) (closed_down-Stopped r.0 b.holds)
      by_run l' r awake (waits e asleep v') = cc

      by_request :
          (r : Server × Bool)
          → Requested l.server r
          → Delivered elsewhere callback ws (record l { server = r.0 })
          → Stopped (
              let (s, on) = r in
              let l' = record l { server = s } in
              if on
              then (if s.has_thread
                  then (let (ran, over) = run_thread callback ws l' in
                      if over then (closed_down callback ran, true) else (ran, false))
                  else (closed_down callback l', true))
              else (l', true))
      by_request r q d' =
          let l' : Loop S = record l { server = r.0 } in
          let v' : LoopServes elsewhere l' = record {
            holds = subst (λ ds. Holds elsewhere ds l.kernel) (sym q.owned) v.holds;
            watches = λ n.
                subst (λ ds. bit (l.kernel.watched n) ≤ count n ds) (sym q.watched) (v.watches n);
          } in
          if-elim Stopped r.1
            (λ on.
              if-elim Stopped r.0.has_thread
                (λ threaded.
                  by_run l' (run_thread callback ws l') (ap (λ o. is_roused o ws) q.wakeup ∙ roused)
                    (run_thread-Ran elsewhere callback ws l' v' d'))
                (λ unthreaded. absurd (true-ne-false (sym (q.thread ∙ th) ∙ unthreaded))))
            (λ off. absurd (true-ne-false (sym q.on ∙ off)))
