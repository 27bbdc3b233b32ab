-- ===== src/Server/Starting.antt =====
-- What `start` leaves behind, whatever the system calls answer.
use tracebox.Prelude.{
  ℕ, ◌%◌, ◌^◌, ◌≡◌, refl, sym, ap, ◌∙◌, subst, Bool, true, false, not, ◌&&◌, ◌||◌, Option, none,
  some, [], ◌∷◌, ◌++◌, if◌then◌else◌, arith, Bool-cases, inl, inr,
}
use tracebox.Descriptors.{Kernel, create, fds, count, Holds, Holds-moved, Holds-create, Holds-watch}
use tracebox.Server.{
  Server, starting, running, Startup, Registering, register_fd, give_up, start_thread,
  start_registering, start_bound, start_listening, start_wakeup, start_server, is_stopped,
  set_non_blocking, set_socket_timeouts,
}
use tracebox.Server.Owned.{
  IsStopped, descriptors, count-descriptors, Holds-close_startup_descriptors,
}

-- A server with its three descriptors and no client.
pub record IsUp (epoll wakeup listening : ℕ) (s : Server) : Type 0 where
  pub epoll_is : s.epoll_fd ≡ some epoll
  pub wakeup_is : s.wakeup_fd ≡ some wakeup
  pub listening_is : s.listening_fd ≡ some listening
  pub no_clients : s.clients ≡ []

-- The two ends of a start beside the descriptors `elsewhere`: the server runs, with a thread and
-- its three descriptors; or it is stopped, with no descriptor and no thread. Either way just the
-- descriptors that it names are open, and nothing was closed twice.
pub data Started (elsewhere : ℕ → Bool) (r : Server × Kernel × Bool) : Type 0 where
  up :
      (epoll wakeup listening : ℕ)
      → r.2 ≡ true
      → r.0.state ≡ running
      → r.0.has_thread ≡ true
      → IsUp epoll wakeup listening r.0
      → Holds elsewhere (descriptors r.0) r.1
      → Started elsewhere r
  down : r.2 ≡ false → IsStopped r.0 → Holds elsewhere [] r.1 → Started elsewhere r

-- A field that was empty takes the new descriptor.
module _ (n fd : ℕ) (s : Server) where
  count-with_listening :
      s.listening_fd ≡ none
      → count n (fd ∷ descriptors s) ≡ count n (descriptors (record s { listening_fd = some fd }))
  unfolding count
  count-with_listening e = omega (
    arith,
    count-descriptors n s,
    count-descriptors n (record s { listening_fd = some fd }),
    ap (λ o. count n (fds o)) e,
  )

  count-with_wakeup :
      s.wakeup_fd ≡ none
      → count n (fd ∷ descriptors s) ≡ count n (descriptors (record s { wakeup_fd = some fd }))
  unfolding count
  count-with_wakeup e = omega (
    arith,
    count-descriptors n s,
    count-descriptors n (record s { wakeup_fd = some fd }),
    ap (λ o. count n (fds o)) e,
  )

-- A server on its way up.
abbrev Prepared : (ℕ → Bool) → Server → Kernel → Type 0
Prepared elsewhere s k = (s.has_thread ≡ false) × Holds elsewhere (descriptors s) k

module _ {elsewhere : ℕ → Bool} where
  give_up-Started :
      (s : Server) (k : Kernel) → Prepared elsewhere s k → Started elsewhere (give_up s k)
  unfolding give_up
  give_up-Started s k (t, h) =
      let closed = Holds-close_startup_descriptors s k h in
      down refl
        (record {
          state = refl;
          epoll = ap (λ (r : Server). r.epoll_fd) closed.0;
          wakeup = ap (λ (r : Server). r.wakeup_fd) closed.0;
          listening = ap (λ (r : Server). r.listening_fd) closed.0;
          clients = ap (λ (r : Server). r.clients) closed.0;
          thread = ap (λ (r : Server). r.has_thread) closed.0 ∙ t;
        })
        closed.1

  or_give_up :
      (b : Bool) (r : Server × Kernel × Bool) (s : Server) (k : Kernel)
      → Started elsewhere r
      → Prepared elsewhere s k
      → Started elsewhere (if b then r else give_up s k)
  or_give_up true r s k v p = v
  or_give_up false r s k v p = give_up-Started s k p

  -- Registering one of the server's own descriptors changes no field, and no descriptor is opened
  -- or closed.
  register_own :
      {epoll wakeup listening : ℕ} (r : Registering) (fd : ℕ) (s : Server) (k : Kernel)
      → IsUp epoll wakeup listening s
      → Prepared elsewhere s k
      → let (s', k', taken) = register_fd r fd false s k in
        IsUp epoll wakeup listening s' × Prepared elsewhere s' k'
  unfolding register_fd
  register_own r fd s k u (t, h) =
      elim (Bool-cases (not (set_non_blocking r.flags) || not r.added)) [
        | inl bad ↦ rw bad (u, (t, h))
        | inr good ↦ rw good (u, (t, Holds-watch fd h))
      ]

module _ {elsewhere : ℕ → Bool} (env : Startup) where
  start_thread-Started :
      {epoll wakeup listening : ℕ} (s : Server) (k : Kernel)
      → IsUp epoll wakeup listening s
      → Prepared elsewhere s k
      → Started elsewhere (start_thread env s k)
  unfolding start_thread
  start_thread-Started {epoll} {wakeup} {listening} s k u (t, h) =
      or_give_up env.thread_starts (record s { state = running; has_thread = true }, k, true)
        (record s { state = running }) k
        (up epoll wakeup listening refl refl refl
          (record {
            epoll_is = u.epoll_is;
            wakeup_is = u.wakeup_is;
            listening_is = u.listening_is;
            no_clients = u.no_clients;
          })
          h)
        (t, h)

  start_registering-Started :
      {epoll wakeup listening : ℕ} (s : Server) (k : Kernel)
      → IsUp epoll wakeup listening s
      → Prepared elsewhere s k
      → Started elsewhere (start_registering env wakeup listening s k)
  unfolding start_registering
  start_registering-Started {wakeup} {listening} s k u p =
      let first = register_fd env.registering_wakeup wakeup false s k in
      let p1 = register_own env.registering_wakeup wakeup s k u p in
      let second = register_fd env.registering_listening listening false first.0 first.1 in
      let p2 = register_own env.registering_listening listening first.0 first.1 p1.0 p1.1 in
      or_give_up first.2 _ first.0 first.1
        (or_give_up second.2 _ second.0 second.1 (start_thread-Started second.0 second.1 p2.0 p2.1)
          p2.1)
        p1.1

  start_bound-Started :
      {epoll wakeup listening : ℕ} (s : Server) (k : Kernel)
      → IsUp epoll wakeup listening s
      → Prepared elsewhere s k
      → Started elsewhere (start_bound env wakeup listening s k)
  unfolding start_bound
  start_bound-Started {wakeup} {listening} s k u p = by_port env.bound
    where
      by_port :
          (o : Option ℕ)
          → Started elsewhere (elim o [
            | none ↦ give_up s k
            | some port ↦
                start_registering env wakeup listening (record s { bound_port = port % 2 ^ 16 }) k
          ])
      by_port none = give_up-Started s k p
      by_port (some port) =
          start_registering-Started (record s { bound_port = port % 2 ^ 16 }) k
            (record {
              epoll_is = u.epoll_is;
              wakeup_is = u.wakeup_is;
              listening_is = u.listening_is;
              no_clients = u.no_clients;
            })
            p

  start_listening-Started :
      (epoll wakeup : ℕ) (s : Server) (k : Kernel)
      → s.epoll_fd ≡ some epoll
      → s.wakeup_fd ≡ some wakeup
      → s.clients ≡ []
      → s.listening_fd ≡ none
      → s.has_thread ≡ false
      → Holds elsewhere (descriptors s) k
      → Started elsewhere (start_listening env wakeup s k)
  unfolding start_listening
  start_listening-Started epoll wakeup s k e w c l t h =
      by_answer (create k env.listening) (Holds-create env.listening h)
    where
      by_answer :
          (r : Kernel × Option ℕ)
          → Holds elsewhere (fds r.1 ++ descriptors s) r.0
          → Started elsewhere (
              let (k', made) = r in
              let s' = record s { listening_fd = made } in
              elim made [
                | none ↦ give_up s' k'
                | some fd ↦
                    if set_non_blocking env.listening_flags
                      && (env.reuses && set_socket_timeouts env.timeouts)
                      && (env.binds && env.listens)
                    then start_bound env wakeup fd s' k'
                    else give_up s' k'
              ])
      by_answer (k', none) held =
          give_up-Started (record s { listening_fd = none }) k'
            (
              t,
              Holds-moved _ held
                  (λ n. ap (λ o. count n (descriptors (record s { listening_fd = o }))) l),
            )
      by_answer (k', some fd) held =
          let s' : Server = record s { listening_fd = some fd } in
          let p : Prepared elsewhere s' k' =
            (t, Holds-moved _ held (λ n. count-with_listening n fd s l)) in
          or_give_up _ _ s' k'
            (start_bound-Started s' k'
              (record { epoll_is = e; wakeup_is = w; listening_is = refl; no_clients = c }) p)
            p

  start_wakeup-Started :
      (epoll : ℕ) (s : Server) (k : Kernel)
      → s.epoll_fd ≡ some epoll
      → s.wakeup_fd ≡ none
      → s.clients ≡ []
      → s.listening_fd ≡ none
      → s.has_thread ≡ false
      → Holds elsewhere (descriptors s) k
      → Started elsewhere (start_wakeup env s k)
  unfolding start_wakeup
  start_wakeup-Started epoll s k e w c l t h =
      by_answer (create k env.wakeup) (Holds-create env.wakeup h)
    where
      by_answer :
          (r : Kernel × Option ℕ)
          → Holds elsewhere (fds r.1 ++ descriptors s) r.0
          → Started elsewhere (
              let (k', made) = r in
              let s' = record s { wakeup_fd = made; signalled = false } in
              elim made [
                | none ↦ give_up s' k'
                | some fd ↦
                    if set_non_blocking env.wakeup_flags
                    then start_listening env fd s' k'
                    else give_up s' k'
              ])
      by_answer (k', none) held =
          give_up-Started (record s { wakeup_fd = none; signalled = false }) k'
            (
              t,
              Holds-moved _ held
                  (λ n. ap (λ o. count n (descriptors (record s { wakeup_fd = o }))) w),
            )
      by_answer (k', some fd) held =
          let s' : Server = record s { wakeup_fd = some fd; signalled = false } in
          let own : Holds elsewhere (descriptors s') k' =
            Holds-moved _ held (λ n. count-with_wakeup n fd s w) in
          or_give_up _ _ s' k' (start_listening-Started epoll fd s' k' e refl c l t own) (t, own)

  -- Whatever the system calls answer, `start` of a stopped server ends in one of two ways: it
  -- returns true, and the server runs, with a thread, its three descriptors and no client; or it
  -- returns false, and the server is stopped, with no thread, client or descriptor. Either way just
  -- its descriptors and those elsewhere in the process are open, none having been closed twice.
  pub start_server-Started :
      (s : Server) (k : Kernel)
      → IsStopped s
      → Holds elsewhere [] k
      → Started elsewhere (start_server env s k)
  unfolding start_server
  start_server-Started s k v h =
      subst
        (λ b. Started elsewhere (
          if b
          then (let (k', made) = create k env.epoll in
              let s' = record s { state = starting; epoll_fd = made } in
              elim made [ none ↦ give_up s' k' | some fd ↦ start_wakeup env s' k' ])
          else (s, k, false)))
        (sym (ap is_stopped v.state)) (by_answer (create k env.epoll) (Holds-create env.epoll h))
    where
      by_answer :
          (r : Kernel × Option ℕ)
          → Holds elsewhere (fds r.1 ++ []) r.0
          → Started elsewhere (
              let (k', made) = r in
              let s' = record s { state = starting; epoll_fd = made } in
              elim made [ none ↦ give_up s' k' | some fd ↦ start_wakeup env s' k' ])
      by_answer (k', none) held =
          give_up-Started (record s { state = starting; epoll_fd = none }) k'
            (
              v.thread,
              Holds-moved _ held (λ n.
                  ap (count n)
                    (sym (λ i. fds (v.wakeup i) ++ (fds (v.listening i) ++ v.clients i)))),
            )
      by_answer (k', some fd) held =
          start_wakeup-Started fd (record s { state = starting; epoll_fd = some fd }) k' refl
            v.wakeup v.clients v.listening v.thread
            (Holds-moved _ held (λ n.
              ap (count n)
                (sym (λ i. fd ∷ (fds (v.wakeup i) ++ (fds (v.listening i) ++ v.clients i))))))
