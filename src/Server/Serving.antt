-- ===== src/Server/Serving.antt =====
-- The event loop keeps the books of the descriptors, whatever the clients and the system calls do.
use tracebox.Prelude.{
  ℕ, ◌<◌, ◌≡◌, refl, sym, subst, Bool, true, false, not, ◌||◌, Option, none, some, [], ◌∷◌, ◌++◌,
  if◌then◌else◌, Bool-cases, if-elim, inl, inr, ◌⊎◌,
}
use tracebox.Bytes.{Text}
use tracebox.Descriptors.{
  Kernel, create, close_fd, watch, unwatch, update, count, Holds-watch, Holds-unwatch,
}
use tracebox.Server.{Server, register_fd, unregister_fd, set_non_blocking, set_socket_timeouts}
use tracebox.Server.Loop.{
  Loop, Event, Verdict, Handled, handled, escapes, is_fd, accept_client, drop_client, settle,
  handle_request, handle_event,
}
use tracebox.Server.Watching.{
  Serves, StaysWatched, client_of_watched, unregister_fd-Serves, accepted, closed, taken, created,
}

create-cases :
    (k : Kernel) (a : Option ℕ)
    → (create k a ≡ (k, none))
      ⊎ ((fd : ℕ) × (k.is_open fd ≡ false)
          × (create k a ≡ (record k { is_open = update fd true k.is_open }, some fd)))
unfolding create
create-cases k none = inl refl
create-cases k (some fd) = elim (Bool-cases (k.is_open fd)) [
  | inl o ↦ inl (rw o refl)
  | inr shut ↦ inr (fd, shut, rw shut refl)
]

-- The server keeps its own descriptors.
abbrev pub SameOwn : Server → Server → Type 0
SameOwn s s' =
    (s'.epoll_fd ≡ s.epoll_fd) × (s'.wakeup_fd ≡ s.wakeup_fd) × (s'.listening_fd ≡ s.listening_fd)

module _ {S : Type 0} (elsewhere : ℕ → Bool) where
  abbrev pub LoopServes : Loop S → Type 0
  LoopServes l = Serves elsewhere l.server l.kernel

  -- What one event does to the books.
  pub record Stepped (fd : ℕ) (l l' : Loop S) : Type 0 where
    pub serves : LoopServes l'
    pub same : SameOwn l.server l'.server
    pub stays : StaysWatched fd l.kernel l'.kernel

  Stepped-refl : (fd : ℕ) (l : Loop S) → LoopServes l → Stepped fd l l
  Stepped-refl fd l v = record { serves = v; same = (refl, refl, refl); stays = λ n other w. w }

  -- A new client is taken, or its descriptor is closed again.
  taken_or_closed :
      (e : Event) (fd at : ℕ) (l : Loop S)
      → LoopServes l
      → l.kernel.is_open fd ≡ false
      → let k : Kernel = record l.kernel { is_open = update fd true l.kernel.is_open } in
        Stepped at l (
          if e.after_accept
          then (let (s', k', took) = register_fd e.registering fd true l.server k in
              if took
              then record l { server = s'; kernel = k' }
              else record l { server = s'; kernel = close_fd fd k' })
          else record l { kernel = close_fd fd k })
  unfolding register_fd
  taken_or_closed e fd at l v new =
      if-elim (Stepped at l) e.after_accept
        (λ still.
          if-elim (λ r. Stepped at l (after r))
            (not (set_non_blocking e.registering.flags) || not e.registering.added)
            (λ refused. of_closed (close_fd fd k) shut)
            (λ added.
              if-elim (λ r. Stepped at l (after r)) (set_socket_timeouts e.registering.timeouts)
                (λ timed. record {
                  serves = kept.0;
                  same = (refl, refl, refl);
                  stays = λ n other w. kept.1 n w;
                })
                (λ untimed. of_closed (close_fd fd (unwatch fd (watch fd k))) shut_again)))
        (λ late. of_closed (close_fd fd k) shut)
    where
      after : Server × Kernel × Bool → Loop S
      after (s', k', took) =
          if took
          then record l { server = s'; kernel = k' }
          else record l { server = s'; kernel = close_fd fd k' }

      k : Kernel
      k = accepted fd l.server l.kernel v new

      shut :
          Serves elsewhere l.server (close_fd fd k)
          × ((n : ℕ) → l.kernel.watched n ≡ true → (close_fd fd k).watched n ≡ true)
      shut =
          closed fd l.server l.kernel v new k (created fd l.server l.kernel v new) (λ n other. refl)

      shut_again :
          Serves elsewhere l.server (close_fd fd (unwatch fd (watch fd k)))
          × ((n : ℕ)
              → l.kernel.watched n ≡ true
              → (close_fd fd (unwatch fd (watch fd k))).watched n ≡ true)
      shut_again =
          closed fd l.server l.kernel v new (unwatch fd (watch fd k))
            (Holds-unwatch fd (Holds-watch fd (created fd l.server l.kernel v new)))
            (λ n other. unfold watch unwatch in rw other refl)

      kept :
          Serves elsewhere (record l.server { clients = l.server.clients ++ fd ∷ [] }) (watch fd k)
          × ((n : ℕ) → l.kernel.watched n ≡ true → (watch fd k).watched n ≡ true)
      kept = taken fd l.server l.kernel v new

      of_closed :
          (k' : Kernel)
          → Serves elsewhere l.server k'
            × ((n : ℕ) → l.kernel.watched n ≡ true → k'.watched n ≡ true)
          → Stepped at l (record l { kernel = k' })
      of_closed k' (serves, stays) = record {
        serves = serves;
        same = (refl, refl, refl);
        stays = λ n other w. stays n w;
      }

  accept_client-Stepped :
      (e : Event) (l : Loop S) → LoopServes l → Stepped e.fd l (accept_client e l)
  unfolding accept_client
  accept_client-Stepped e l v = elim (create-cases l.kernel e.accepted) [
    | inl none_made ↦
        subst (λ r. Stepped e.fd l (answered r)) (sym none_made) (Stepped-refl e.fd l v)
    | inr (fd, new, made) ↦
        subst (λ r. Stepped e.fd l (answered r)) (sym made) (taken_or_closed e fd e.fd l v new)
  ]
    where
      answered : Kernel × Option ℕ → Loop S
      answered (k, client) = elim client [
        | none ↦ record l { kernel = k }
        | some fd ↦
            if e.after_accept
            then (let (s', k', took) = register_fd e.registering fd true l.server k in
                if took
                then record l { server = s'; kernel = k' }
                else record l { server = s'; kernel = close_fd fd k' })
            else record l { kernel = close_fd fd k }
      ]

  drop_client-Stepped :
      (fd : ℕ) (l : Loop S)
      → LoopServes l
      → 0 < count fd l.server.clients
      → Stepped fd l (drop_client fd l)
  drop_client-Stepped fd l v owned =
      let both = unregister_fd-Serves fd l.server l.kernel v owned in
      record { serves = both.0; same = unregistered_same; stays = both.1 }
    where
      unregistered_same : SameOwn l.server (unregister_fd fd l.server l.kernel).0
      unregistered_same = unfold unregister_fd in (refl, refl, refl)

  module _ (callback : S → Text → S × Option Text) where
    settle-Stepped :
        (fd : ℕ) (l : Loop S) (r : S × Text × Handled)
        → LoopServes l
        → 0 < count fd l.server.clients
        → Stepped fd l (settle callback fd l r).0
    settle-Stepped fd l (served, sent, handled true) v owned = record {
      serves = v;
      same = (refl, refl, refl);
      stays = λ n other w. w;
    }
    settle-Stepped fd l (served, sent, handled false) v owned =
        let d = drop_client-Stepped fd (record l { served = served }) v owned in
        record { serves = d.serves; same = d.same; stays = d.stays }
    settle-Stepped fd l (served, sent, escapes) v owned = record {
      serves = v;
      same = (refl, refl, refl);
      stays = λ n other w. w;
    }

    pub handle_event-Stepped :
        (e : Event) (l : Loop S)
        → LoopServes l
        → l.kernel.watched e.fd ≡ true
        → is_fd l.server.wakeup_fd e.fd ≡ false
        → Stepped e.fd l (handle_event callback e l).0
    unfolding handle_event
    handle_event-Stepped e l v w other =
        if-elim (λ (r : Loop S × Verdict). Stepped e.fd l r.0) (not e.at_event)
          (λ late. Stepped-refl e.fd l v)
          (λ now.
            if-elim (λ (r : Loop S × Verdict). Stepped e.fd l r.0)
              (is_fd l.server.listening_fd e.fd) (λ listening. accept_client-Stepped e l v)
              (λ client.
                let owned = client_of_watched e.fd l.server l.kernel v w other client in
                if-elim (λ (r : Loop S × Verdict). Stepped e.fd l r.0) e.readable
                  (λ readable.
                    settle-Stepped e.fd l (handle_request callback e.request l.served) v owned)
                  (λ hup. drop_client-Stepped e.fd l v owned)))
