-- ===== src/Server/Served.antt =====
-- What the thread does to what its callback works on: it calls the callback, and nothing else.
use tracebox.Prelude.{
  ℕ, ◌≡◌, refl, sym, subst, Bool, true, false, not, ◌||◌, Option, none, some, List, [], ◌∷◌,
  if◌then◌else◌, if-elim,
}
use tracebox.Bytes.{Text}
use tracebox.Descriptors.{Kernel, create, close_fd}
use tracebox.Server.{register_fd}
use tracebox.Server.Loop.{
  Loop, Request, Event, Verdict, goes_on, shuts_down, thrown, Wait, interrupted, failed, ready,
  Handled, handled, escapes, is_fd, is_empty, accept_client, settle, handle_request, handle_buffer,
  answer_with, read_request, handle_event, handle_events, run_loop, drained, leave_loop, run_thread,
}

module _ {S : Type 0} (callback : S → Text → S × Option Text) (R : S → S → Type 0)
    (same : (s : S) → R s s) (then_ : (s t u : S) → R s t → R t u → R s u)
    (calls : (s : S) (bytes : Text) → R s (callback s bytes).0) where
  handle_request-keeps : (r : Request) (s : S) → R s (handle_request callback r s).0
  unfolding handle_request
  handle_request-keeps r s = by_buffer (read_request r)
    where
      answered : (a : S × Option Text) → (answer_with callback r a).0 ≡ a.0
      answered (t, none) = refl
      answered (t, some reply) = refl

      by_buffer : (b : Option Text) → R s (handle_buffer callback r s b).0
      by_buffer none = same s
      by_buffer (some buffer) =
          if-elim (λ (x : S × Text × Handled). R s x.0)
            (is_empty buffer || not r.after_read || not r.in_lock) (λ e. same s)
            (λ e. subst (R s) (sym (answered (callback s buffer))) (calls s buffer))

  accept_client-served : (e : Event) (l : Loop S) → (accept_client e l).served ≡ l.served
  unfolding accept_client
  accept_client-served e l = by_client (create l.kernel e.accepted)
    where
      by_client :
          (c : Kernel × Option ℕ)
          → let (k, client) = c in
            let after : Loop S = elim client [
              | none ↦ record l { kernel = k }
              | some fd ↦
                  if e.after_accept
                  then (let (s', k', taken) = register_fd e.registering fd true l.server k in
                      if taken
                      then record l { server = s'; kernel = k' }
                      else record l { server = s'; kernel = close_fd fd k' })
                  else record l { kernel = close_fd fd k }
            ] in
            after.served ≡ l.served
      by_client (k, none) = refl
      by_client (k, some fd) =
          let r = register_fd e.registering fd true l.server k in
          if-elim (λ (x : Loop S). x.served ≡ l.served) e.after_accept
            (λ h. if-elim (λ (x : Loop S). x.served ≡ l.served) r.2 (λ h. refl) (λ h. refl))
            (λ h. refl)

  settle-served :
      (fd : ℕ) (l : Loop S) (x : S × Text × Handled) → (settle callback fd l x).0.served ≡ x.0
  settle-served fd l (s, sent, handled true) = refl
  settle-served fd l (s, sent, handled false) = refl
  settle-served fd l (s, sent, escapes) = refl

  -- What a stretch of the loop does.
  abbrev Keeps : Loop S → Loop S × Verdict → Type 0
  Keeps l x = R l.served x.0.served

  handle_event-Keeps : (e : Event) (l : Loop S) → Keeps l (handle_event callback e l)
  unfolding handle_event
  handle_event-Keeps e l =
      if-elim (Keeps l) (not e.at_event) (λ h. same l.served)
        (λ h.
          if-elim (Keeps l) (is_fd l.server.listening_fd e.fd)
            (λ h. subst (R l.served) (sym (accept_client-served e l)) (same l.served))
            (λ h.
              if-elim (Keeps l) e.readable
                (λ h.
                  subst (R l.served)
                    (sym (settle-served e.fd l (handle_request callback e.request l.served)))
                    (handle_request-keeps e.request l.served))
                (λ h. same l.served)))

  handle_events-Keeps : (es : List Event) (l : Loop S) → Keeps l (handle_events callback es l)
  unfolding handle_events
  handle_events-Keeps [] l = same l.served
  handle_events-Keeps (e ∷ es) l =
      by_wakeup (is_fd l.server.wakeup_fd e.fd) (handle_event callback e l) (handle_event-Keeps e l)
        (handle_events-Keeps es (handle_event callback e l).0)
    where
      by_wakeup :
          (b : Bool) (x : Loop S × Verdict)
          → Keeps l x
          → Keeps x.0 (handle_events callback es x.0)
          → Keeps l (elim b [
            | true ↦ (drained callback l, shuts_down)
            | false ↦
                let (l', verdict) = x in
                elim verdict [
                  | goes_on ↦ handle_events callback es l'
                  | shuts_down ↦ (l', shuts_down)
                  | thrown ↦ (l', thrown)
                ]
          ])
      by_wakeup true x h more = same l.served
      by_wakeup false (l', goes_on) h more = then_ l.served l'.served _ h more
      by_wakeup false (l', shuts_down) h more = h
      by_wakeup false (l', thrown) h more = h

  run_loop-keeps : (ws : List Wait) (l : Loop S) → R l.served (run_loop callback ws l).0.served
  unfolding run_loop
  run_loop-keeps [] l = same l.served
  run_loop-keeps (interrupted ∷ ws) l = run_loop-keeps ws l
  run_loop-keeps (failed ∷ ws) l = same l.served
  run_loop-keeps (ready es ∷ ws) l =
      by_verdict (handle_events callback es l) (handle_events-Keeps es l)
        (run_loop-keeps ws (handle_events callback es l).0)
    where
      by_verdict :
          (x : Loop S × Verdict)
          → Keeps l x
          → R x.0.served (run_loop callback ws x.0).0.served
          → let (l', verdict) = x in
            let after : Loop S × Bool = elim verdict [
              | goes_on ↦ run_loop callback ws l'
              | shuts_down ↦ (l', true)
              | thrown ↦ (l', true)
            ] in
            R l.served after.0.served
      by_verdict (l', goes_on) h more = then_ l.served l'.served _ h more
      by_verdict (l', shuts_down) h more = h
      by_verdict (l', thrown) h more = h

  -- The whole thread.
  pub run_thread-keeps :
      (ws : List Wait) (l : Loop S) → R l.served (run_thread callback ws l).0.served
  unfolding run_thread leave_loop
  run_thread-keeps ws l =
      let r = run_loop callback ws l in
      if-elim (λ (x : Loop S × Bool). R l.served x.0.served) r.1 (λ h. run_loop-keeps ws l)
        (λ h. run_loop-keeps ws l)
