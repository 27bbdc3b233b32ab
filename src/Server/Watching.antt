-- ===== src/Server/Watching.antt =====
-- What the event loop keeps true of the server's descriptors and of those that `epoll_wait` watches.
use tracebox.Prelude.{
  ℕ, ◌+◌, ◌≤◌, ◌<◌, ◌≡◌, ◌≢◌, refl, ap, ◌∙◌, Bool, true, false, Option, none, some, List, [], ◌∷◌,
  ◌++◌, ◌==◌, if◌then◌else◌, arith, Bool-cases, inl, inr,
}
use tracebox.Descriptors.{
  Kernel, close_fd, watch, unwatch, update, bit, fds, count, count-append, count-cons, Holds,
  Holds-is_open, Holds-moved, Holds-closed, Holds-created, Holds-watch,
}
use tracebox.Server.{Server, unregister_fd, erase, forget}
use tracebox.Server.Loop.{is_fd}
use tracebox.Server.Owned.{descriptors, count-descriptors, count-erase, Holds-unregister_fd}

-- The descriptors that `epoll_wait` may report.
abbrev pub watchable : Server → List ℕ
watchable s = fds s.wakeup_fd ++ (fds s.listening_fd ++ s.clients)

pub record Serves (elsewhere : ℕ → Bool) (s : Server) (k : Kernel) : Type 0 where
  pub holds : Holds elsewhere (descriptors s) k
  pub watches : (n : ℕ) → bit (k.watched n) ≤ count n (watchable s)

count-watchable :
    (n : ℕ) (s : Server)
    → count n (watchable s)
      ≡ count n (fds s.wakeup_fd) + (count n (fds s.listening_fd) + count n s.clients)
count-watchable n s = omega (
  arith,
  count-append n (fds s.wakeup_fd) (fds s.listening_fd ++ s.clients),
  count-append n (fds s.listening_fd) s.clients,
)

-- Nothing becomes unwatched but the descriptor `fd`.
abbrev pub StaysWatched : ℕ → Kernel → Kernel → Type 0
StaysWatched fd k k' = (n : ℕ) → n ≢ fd → k.watched n ≡ true → k'.watched n ≡ true

count-is_fd : (o : Option ℕ) (fd : ℕ) → is_fd o fd ≡ false → count fd (fds o) ≡ 0
unfolding count
count-is_fd none fd h = refl
count-is_fd (some own) fd h = ground arith

count-other : (n fd : ℕ) → (n == fd) ≡ false → count n (fd ∷ []) ≡ 0
unfolding count
count-other n fd h = ground arith

count-same : (n fd : ℕ) → (n == fd) ≡ true → count n (fd ∷ []) ≡ 1
unfolding count
count-same n fd h = ground arith

closed_watched :
    (epoll : Option ℕ) (fd n : ℕ) (k : Kernel)
    → k.is_open fd ≡ true
    → (close_fd fd (forget epoll fd k)).watched n ≡ (if n == fd then false else k.watched n)
unfolding close_fd unwatch
closed_watched none fd n k o = rw o refl
closed_watched (some e) fd n k o = rw o (ground arith)

module _ {elsewhere : ℕ → Bool} where
  -- A watched descriptor that is neither the wakeup nor the listening one is a client's.
  pub client_of_watched :
      (fd : ℕ) (s : Server) (k : Kernel)
      → Serves elsewhere s k
      → k.watched fd ≡ true
      → is_fd s.wakeup_fd fd ≡ false
      → is_fd s.listening_fd fd ≡ false
      → 0 < count fd s.clients
  client_of_watched fd s k v w a b = omega (
    arith,
    v.watches fd,
    ap bit w,
    count-watchable fd s,
    count-is_fd s.wakeup_fd fd a,
    count-is_fd s.listening_fd fd b,
  )

  pub unregister_fd-Serves :
      (fd : ℕ) (s : Server) (k : Kernel)
      → Serves elsewhere s k
      → 0 < count fd s.clients
      → let (s', k') = unregister_fd fd s k in Serves elsewhere s' k' × StaysWatched fd k k'
  unfolding unregister_fd
  unregister_fd-Serves fd s k v owned = (
    record {
      holds = unfold unregister_fd in Holds-unregister_fd fd s v.holds owned;
      watches = watches;
    },
    stays,
  )
    where
      o : k.is_open fd ≡ true
      o = Holds-is_open fd v.holds (omega (arith, owned, count-descriptors fd s))

      watched' :
          (n : ℕ)
          → (close_fd fd (forget s.epoll_fd fd k)).watched n
            ≡ (if n == fd then false else k.watched n)
      watched' n = closed_watched s.epoll_fd fd n k o

      watches :
          (n : ℕ)
          → bit ((close_fd fd (forget s.epoll_fd fd k)).watched n)
            ≤ count n (watchable (record s { clients = erase fd s.clients }))
      watches n = elim (Bool-cases (n == fd)) [
        | inl same ↦ rw (watched' n) (rw same (omega arith))
        | inr other ↦ rw (watched' n) (
            rw other (
              omega (
                arith,
                v.watches n,
                count-watchable n s,
                count-watchable n (record s { clients = erase fd s.clients }),
                count-erase n fd s.clients owned,
                count-cons n fd (erase fd s.clients),
                count-other n fd other,
              )))
      ]

      stays : StaysWatched fd k (close_fd fd (forget s.epoll_fd fd k))
      stays n other w = watched' n ∙ ground (arith, other, w)

-- A client whose descriptor is new: it is taken and watched, or closed again.
module _ {elsewhere : ℕ → Bool} (fd : ℕ) (s : Server) (k : Kernel) (v : Serves elsewhere s k)
    (new : k.is_open fd ≡ false) where
  abbrev pub accepted : Kernel
  accepted = record k { is_open = update fd true k.is_open }

  unwatched : k.watched fd ≡ false
  unwatched = elim (Bool-cases (k.watched fd)) [
    | inl w ↦ absurd (
        omega (
          arith,
          v.watches fd,
          ap bit w,
          ap bit new,
          v.holds.opened fd,
          count-watchable fd s,
          count-descriptors fd s,
        ))
    | inr shut ↦ shut
  ]

  pub created : Holds elsewhere (fd ∷ descriptors s) accepted
  created = Holds-created fd v.holds new

  apart_from : (n : ℕ) → k.watched n ≡ true → (n == fd) ≡ false
  apart_from n w = elim (Bool-cases (n == fd)) [
    | inl same ↦ let at : n ≡ fd = ground (arith, same) in cc (ap k.watched at, w, unwatched)
    | inr other ↦ other
  ]

  pub closed :
      (k' : Kernel)
      → Holds elsewhere (fd ∷ descriptors s) k'
      → ((n : ℕ) → (n == fd) ≡ false → k'.watched n ≡ k.watched n)
      → Serves elsewhere s (close_fd fd k')
        × ((n : ℕ) → k.watched n ≡ true → (close_fd fd k').watched n ≡ true)
  closed k' h same =
      (record { holds = Holds-closed fd (descriptors s) h (λ n. refl); watches = watches }, stays)
    where
      o : k'.is_open fd ≡ true
      o =
          Holds-is_open fd h
            (omega (arith, count-cons fd fd (descriptors s), count-same fd fd (ground arith)))

      watches : (n : ℕ) → bit ((close_fd fd k').watched n) ≤ count n (watchable s)
      watches n = elim (Bool-cases (n == fd)) [
        | inl at ↦ rw (closed_watched none fd n k' o) (rw at (omega arith))
        | inr other ↦
            rw (closed_watched none fd n k' o) (rw other (rw (same n other) (v.watches n)))
      ]

      stays : (n : ℕ) → k.watched n ≡ true → (close_fd fd k').watched n ≡ true
      stays n w =
          let other = apart_from n w in closed_watched none fd n k' o ∙ rw other (same n other ∙ w)

  pub taken :
      Serves elsewhere (record s { clients = s.clients ++ fd ∷ [] }) (watch fd accepted)
      × ((n : ℕ) → k.watched n ≡ true → (watch fd accepted).watched n ≡ true)
  unfolding watch
  taken = (
    record {
      holds =
          unfold watch in
          Holds-watch fd (
            Holds-moved _ created (λ n. omega (
              arith,
              count-cons n fd (descriptors s),
              count-descriptors n s,
              count-descriptors n (record s { clients = s.clients ++ fd ∷ [] }),
              count-append n s.clients (fd ∷ []),
            )));
      watches = watches;
    },
    λ n w. rw (apart_from n w) w,
  )
    where
      watches :
          (n : ℕ)
          → bit (update fd true k.watched n)
            ≤ count n (watchable (record s { clients = s.clients ++ fd ∷ [] }))
      watches n = elim (Bool-cases (n == fd)) [
        | inl at ↦ rw at (
            omega (
              arith,
              count-watchable n (record s { clients = s.clients ++ fd ∷ [] }),
              count-append n s.clients (fd ∷ []),
              count-same n fd at,
            ))
        | inr other ↦ rw other (
            omega (
              arith,
              v.watches n,
              count-watchable n s,
              count-watchable n (record s { clients = s.clients ++ fd ∷ [] }),
              count-append n s.clients (fd ∷ []),
            ))
      ]
