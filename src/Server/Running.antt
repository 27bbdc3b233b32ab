-- ===== src/Server/Running.antt =====
-- The event loop as a whole: over what `epoll_wait` may report, it keeps the books, and it ends once
-- the wakeup descriptor is reported.
use tracebox.Prelude.{
  ℕ, ◌≡◌, ◌≢◌, refl, sym, ap, ◌∙◌, subst, Bool, true, false, ◌||◌, Option, none, List, [], ◌∷◌,
  ◌++◌, if◌then◌else◌, arith, Bool-cases, inl, inr, All,
}
use tracebox.Bytes.{Text}
use tracebox.Descriptors.{Kernel, close_some, fds, count-append, count-nil, Holds, Holds-moved}
use tracebox.Server.{Server, close_clients}
use tracebox.Server.Loop.{
  Loop, Event, Verdict, goes_on, shuts_down, thrown, Wait, interrupted, failed, ready, is_fd,
  handle_event, handle_events, run_loop, drained, leave_loop, run_thread,
}
use tracebox.Server.Owned.{
  descriptors, count-descriptors, without_clients, Holds-close_clients, Holds-close_some,
}
use tracebox.Server.Watching.{StaysWatched}
use tracebox.Server.Serving.{SameOwn, Stepped, LoopServes, handle_event-Stepped}

-- What `epoll_wait` may report: watched descriptors, each once.
abbrev pub Reported : List Event → Kernel → Type 0
Reported [] k = Unit
Reported (e ∷ es) k = (k.watched e.fd ≡ true) × All (λ (f : Event). f.fd ≢ e.fd) es × Reported es k

-- The wakeup descriptor is among them.
unfoldable pub wakes : Option ℕ → List Event → Bool
wakes own [] = false
wakes own (e ∷ es) = is_fd own e.fd || wakes own es

-- An answer of `epoll_wait` that ends the loop.
unfoldable pub is_roused : Option ℕ → List Wait → Bool
is_roused own [] = false
is_roused own (interrupted ∷ ws) = is_roused own ws
is_roused own (failed ∷ ws) = true
is_roused own (ready es ∷ ws) = wakes own es || is_roused own ws

Reported-stays :
    (fd : ℕ) (es : List Event) (k k' : Kernel)
    → StaysWatched fd k k'
    → All (λ (f : Event). f.fd ≢ fd) es
    → Reported es k
    → Reported es k'
Reported-stays fd [] k k' stays apart r = tt
Reported-stays fd (e ∷ es) k k' stays apart r =
    (stays e.fd apart.0 r.0, r.1, Reported-stays fd es k k' stays apart.1 r.2)

SameOwn-trans : (s t u : Server) → SameOwn s t → SameOwn t u → SameOwn s u
SameOwn-trans s t u a b = (b.0 ∙ a.0, b.1 ∙ a.1, b.2 ∙ a.2)

module _ {S : Type 0} (elsewhere : ℕ → Bool) (callback : S → Text → S × Option Text) where
  -- All answers of `epoll_wait` are such reports, each where the loop has got to.
  abbrev pub Delivered : List Wait → Loop S → Type 0
  Delivered [] l = Unit
  Delivered (interrupted ∷ ws) l = Delivered ws l
  Delivered (failed ∷ ws) l = Unit
  Delivered (ready es ∷ ws) l = Reported es l.kernel × Delivered ws (handle_events callback es l).0

  -- What a batch of events leaves: the books are kept, the server's own descriptors are the same,
  -- and the loop does not go on if the wakeup descriptor was reported.
  pub record Batch (es : List Event) (l : Loop S) (r : Loop S × Verdict) : Type 0 where
    pub serves : LoopServes elsewhere r.0
    pub same : SameOwn l.server r.0.server
    pub roused : wakes l.server.wakeup_fd es ≡ true → r.1 ≢ goes_on

  handle_events-Batch :
      (es : List Event) (l : Loop S)
      → LoopServes elsewhere l
      → Reported es l.kernel
      → Batch es l (handle_events callback es l)
  unfolding handle_events wakes
  handle_events-Batch [] l v r = record { serves = v; same = (refl, refl, refl); roused = λ h. cc }
  handle_events-Batch (e ∷ es) l v r =
      by_test (is_fd l.server.wakeup_fd e.fd) refl (λ l' v' r'. handle_events-Batch es l' v' r')
    where
      after : Loop S × Verdict → Loop S × Verdict
      after (l', verdict) = elim verdict [
        | goes_on ↦ handle_events callback es l'
        | shuts_down ↦ (l', shuts_down)
        | thrown ↦ (l', thrown)
      ]

      by_verdict :
          (r' : Loop S × Verdict)
          → is_fd l.server.wakeup_fd e.fd ≡ false
          → Stepped elsewhere e.fd l r'.0
          → ((l' : Loop S)
              → LoopServes elsewhere l'
              → Reported es l'.kernel
              → Batch es l' (handle_events callback es l'))
          → Batch (e ∷ es) l (after r')
      by_verdict (l', goes_on) other st rest =
          let b = rest l' st.serves (Reported-stays e.fd es l.kernel l'.kernel st.stays r.1 r.2) in
          record {
            serves = b.serves;
            same =
                SameOwn-trans l.server l'.server (handle_events callback es l').0.server st.same
                  b.same;
            roused = λ h. b.roused (
                ap (λ o. wakes o es) (st.same.1)
                ∙ (sym (ap (λ t. t || wakes l.server.wakeup_fd es) other) ∙ h));
          }
      by_verdict (l', shuts_down) other st rest = record {
        serves = st.serves;
        same = st.same;
        roused = λ h. (λ q. cc);
      }
      by_verdict (l', thrown) other st rest = record {
        serves = st.serves;
        same = st.same;
        roused = λ h. (λ q. cc);
      }

      by_test :
          (t : Bool)
          → is_fd l.server.wakeup_fd e.fd ≡ t
          → ((l' : Loop S)
              → LoopServes elsewhere l'
              → Reported es l'.kernel
              → Batch es l' (handle_events callback es l'))
          → Batch (e ∷ es) l (elim t as (λ x. Loop S × Verdict) [
            | true ↦ (drained callback l, shuts_down)
            | false ↦ after (handle_event callback e l)
          ])
      by_test true at rest = record {
        serves = record { holds = v.holds; watches = v.watches };
        same = (refl, refl, refl);
        roused = λ h. (λ q. cc);
      }
      by_test false other rest =
          by_verdict (handle_event callback e l) other
            (handle_event-Stepped elsewhere callback e l v r.0 other) rest

  -- The same for the outer loop, which has ended if an answer rouses it.
  pub record Looped (ws : List Wait) (l : Loop S) (r : Loop S × Bool) : Type 0 where
    pub serves : LoopServes elsewhere r.0
    pub same : SameOwn l.server r.0.server
    pub over : is_roused l.server.wakeup_fd ws ≡ true → r.1 ≡ true

  run_loop-Looped :
      (ws : List Wait) (l : Loop S)
      → LoopServes elsewhere l
      → Delivered ws l
      → Looped ws l (run_loop callback ws l)
  unfolding run_loop is_roused
  run_loop-Looped [] l v d = record { serves = v; same = (refl, refl, refl); over = λ h. cc }
  run_loop-Looped (interrupted ∷ ws) l v d =
      let b = run_loop-Looped ws l v d in record { serves = b.serves; same = b.same; over = b.over }
  run_loop-Looped (failed ∷ ws) l v d = record {
    serves = v;
    same = (refl, refl, refl);
    over = λ h. refl;
  }
  run_loop-Looped (ready es ∷ ws) l v d =
      by_verdict (handle_events callback es l) (handle_events-Batch es l v d.0)
        (λ l' v' d'. run_loop-Looped ws l' v' d') d.1
    where
      by_verdict :
          (r : Loop S × Verdict)
          → Batch es l r
          → ((l' : Loop S)
              → LoopServes elsewhere l'
              → Delivered ws l'
              → Looped ws l' (run_loop callback ws l'))
          → Delivered ws r.0
          → Looped (ready es ∷ ws) l (
              let (l', verdict) = r in
              elim verdict [
                | goes_on ↦ run_loop callback ws l'
                | shuts_down ↦ (l', true)
                | thrown ↦ (l', true)
              ])
      by_verdict (l', goes_on) b rest d' =
          let more = rest l' b.serves d' in
          record {
            serves = more.serves;
            same =
                SameOwn-trans l.server l'.server (run_loop callback ws l').0.server b.same
                  more.same;
            over = λ h. elim (Bool-cases (wakes l.server.wakeup_fd es)) [
              | inl woken ↦ absurd (b.roused woken refl)
              | inr asleep ↦ more.over (
                  ap (λ o. is_roused o ws) b.same.1
                  ∙ (sym (ap (λ t. t || is_roused l.server.wakeup_fd ws) asleep) ∙ h))
            ];
          }
      by_verdict (l', shuts_down) b rest d' = record {
        serves = b.serves;
        same = b.same;
        over = λ h. refl;
      }
      by_verdict (l', thrown) b rest d' = record {
        serves = b.serves;
        same = b.same;
        over = λ h. refl;
      }

  -- Behind the loop no client and no listening descriptor is left, and just the other two are open.
  pub record Left (l l' : Loop S) : Type 0 where
    pub no_clients : l'.server.clients ≡ []
    pub no_listening : l'.server.listening_fd ≡ none
    pub epoll : l'.server.epoll_fd ≡ l.server.epoll_fd
    pub wakeup : l'.server.wakeup_fd ≡ l.server.wakeup_fd
    pub holds : Holds elsewhere (descriptors l'.server) l'.kernel

  leave_loop-Left : (l : Loop S) → LoopServes elsewhere l → Left l (leave_loop callback l)
  unfolding leave_loop
  leave_loop-Left l v =
      by_clients (close_clients l.server l.kernel) (Holds-close_clients l.server l.kernel v.holds)
    where
      by_clients :
          (r : Server × Kernel)
          → (r.0 ≡ without_clients l.server)
            × Holds elsewhere (descriptors (without_clients l.server)) r.1
          → Left l (
              let (s, k) = r in
              record l {
                server = record s { listening_fd = none };
                kernel = close_some s.listening_fd k;
              })
      by_clients (s, k) (e, held) =
          let own : Holds elsewhere (descriptors s) k =
            subst (λ t. Holds elsewhere (descriptors t) k) (sym e) held in
          let rest = descriptors (record s { listening_fd = none }) in
          record {
            no_clients = ap (λ (t : Server). t.clients) e;
            no_listening = refl;
            epoll = ap (λ (t : Server). t.epoll_fd) e;
            wakeup = ap (λ (t : Server). t.wakeup_fd) e;
            holds = Holds-close_some s.listening_fd rest (
                Holds-moved (fds s.listening_fd ++ rest) own (λ n. omega (
                  arith,
                  count-descriptors n s,
                  count-descriptors n (record s { listening_fd = none }),
                  count-append n (fds s.listening_fd) rest,
                  count-nil n,
                )));
          }

  -- How the thread ends: it has left the loop, or it still waits and the loop has not been roused.
  pub data Ran (ws : List Wait) (l : Loop S) (r : Loop S × Bool) : Type 0 where
    left : r.1 ≡ true → Left l r.0 → Ran ws l r
    waits :
        r.1 ≡ false
        → is_roused l.server.wakeup_fd ws ≡ false
        → LoopServes elsewhere r.0
        → Ran ws l r

  -- From a server that keeps its descriptors, whatever clients connect and send, if all answers of
  -- `epoll_wait` report watched descriptors, each once: either the thread has ended, with no client
  -- and no listening descriptor, and the epoll and wakeup descriptors as before; or no answer has
  -- roused it and it waits, and the server keeps its descriptors: just they and those elsewhere in
  -- the process are open, and only they are watched, none having been closed twice.
  pub run_thread-Ran :
      (ws : List Wait) (l : Loop S)
      → LoopServes elsewhere l
      → Delivered ws l
      → Ran ws l (run_thread callback ws l)
  unfolding run_thread
  run_thread-Ran ws l v d = by_end (run_loop callback ws l) (run_loop-Looped ws l v d)
    where
      by_end :
          (r : Loop S × Bool)
          → Looped ws l r
          → Ran ws l
              (let (l', over) = r in if over then (leave_loop callback l', true) else (l', false))
      by_end (l', true) b =
          let left_books = leave_loop-Left l' b.serves in
          left refl (record {
            no_clients = left_books.no_clients;
            no_listening = left_books.no_listening;
            epoll = left_books.epoll ∙ b.same.0;
            wakeup = left_books.wakeup ∙ b.same.1;
            holds = left_books.holds;
          })
      by_end (l', false) b =
          waits refl
            (elim (Bool-cases (is_roused l.server.wakeup_fd ws)) [
              | inl roused ↦ cc (b.over roused)
              | inr asleep ↦ asleep
            ])
            b.serves
