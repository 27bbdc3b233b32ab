-- ===== src/Server/Owned.antt =====
-- The descriptors that a server owns, and that closing them closes each once.
use tracebox.Prelude.{
  ℕ, zero, suc, ◌+◌, ◌≤◌, ◌<◌, ◌≡◌, refl, sym, ap, ◌∙◌, subst, Bool, false, Option, none, some,
  List, [], ◌∷◌, ◌++◌, ◌==◌, length, arith, Bool-cases, inl, inr,
}
use tracebox.Descriptors.{
  Kernel, close_fd, close_some, fds, count, Holds, count-append, count-cons, Holds-moved,
  Holds-closed, Holds-unwatch,
}
use tracebox.Server.{
  Server, stopped, erase, unregister_fd, forget, last_of, close_clients_in, close_clients,
  close_wakeup, close_startup_descriptors,
}

-- All descriptors that the fields name.
abbrev pub descriptors : Server → List ℕ
descriptors s = fds s.epoll_fd ++ (fds s.wakeup_fd ++ (fds s.listening_fd ++ s.clients))

abbrev pub without_clients : Server → Server
without_clients s = record s { clients = [] }

abbrev pub without_descriptors : Server → Server
without_descriptors s = record s {
  clients = [];
  listening_fd = none;
  wakeup_fd = none;
  epoll_fd = none;
}

-- Before `start` and behind `stop`.
pub record IsStopped (s : Server) : Type 0 where
  pub state : s.state ≡ stopped
  pub epoll : s.epoll_fd ≡ none
  pub wakeup : s.wakeup_fd ≡ none
  pub listening : s.listening_fd ≡ none
  pub clients : s.clients ≡ []
  pub thread : s.has_thread ≡ false

pub count-descriptors :
    (n : ℕ) (s : Server)
    → count n (descriptors s)
      ≡ count n (fds s.epoll_fd)
        + (count n (fds s.wakeup_fd) + (count n (fds s.listening_fd) + count n s.clients))
count-descriptors n s = omega (
  arith,
  count-append n (fds s.epoll_fd) (fds s.wakeup_fd ++ (fds s.listening_fd ++ s.clients)),
  count-append n (fds s.wakeup_fd) (fds s.listening_fd ++ s.clients),
  count-append n (fds s.listening_fd) s.clients,
)

pub count-erase :
    (n fd : ℕ) (xs : List ℕ) → 0 < count fd xs → count n xs ≡ count n (fd ∷ erase fd xs)
unfolding count erase
count-erase n fd [] h = absurd (omega arith)
count-erase n fd (x ∷ xs) h = elim (Bool-cases (x == fd)) [
  | inl same ↦ let at : x ≡ fd = ground (arith, same) in ground (arith, same, at)
  | inr other ↦
      let rest = count-erase n fd xs (ground (arith, h, other)) in ground (arith, other, rest)
]

length-erase : (fd : ℕ) (xs : List ℕ) → 0 < count fd xs → length xs ≡ suc (length (erase fd xs))
unfolding count erase
length-erase fd [] h = absurd (omega arith)
length-erase fd (x ∷ xs) h = elim (Bool-cases (x == fd)) [
  | inl same ↦ ground (arith, same)
  | inr other ↦
      let rest = length-erase fd xs (ground (arith, h, other)) in ground (arith, other, rest)
]

count-last_of : (x : ℕ) (xs : List ℕ) → 0 < count (last_of x xs) (x ∷ xs)
unfolding count
count-last_of x [] = ground arith
count-last_of x (y ∷ ys) = omega (arith, count-last_of y ys)

-- A round of the loop, by what the list of clients is.
abbrev round : ℕ → Server → Kernel → List ℕ → Server × Kernel
round rounds s k clients = elim clients [
  | [] ↦ (s, k)
  | x ∷ xs ↦ let (s', k') = unregister_fd (last_of x xs) s k in close_clients_in rounds s' k'
]

close_clients_in-cons :
    (rounds : ℕ) (s : Server) (k : Kernel) (x : ℕ) (xs : List ℕ)
    → s.clients ≡ x ∷ xs
    → close_clients_in (suc rounds) s k
      ≡ (let (s', k') = unregister_fd (last_of x xs) s k in close_clients_in rounds s' k')
unfolding close_clients_in
close_clients_in-cons rounds s k x xs e = ap (round rounds s k) e

close_clients_in-nil :
    (rounds : ℕ) (s : Server) (k : Kernel)
    → s.clients ≡ []
    → close_clients_in rounds s k ≡ (without_clients s, k)
unfolding close_clients_in
close_clients_in-nil zero s k e = ap (λ cs. (record s { clients = cs }, k)) e
close_clients_in-nil (suc rounds) s k e =
    ap (round rounds s k) e ∙ ap (λ cs. (record s { clients = cs }, k)) e

none_left :
    {elsewhere : ℕ → Bool} (rounds : ℕ) (s : Server) (k : Kernel)
    → s.clients ≡ []
    → Holds elsewhere (descriptors s) k
    → ((close_clients_in rounds s k).0 ≡ without_clients s)
      × Holds elsewhere (descriptors (without_clients s)) (close_clients_in rounds s k).1
none_left {elsewhere} rounds s k e h =
    subst (λ r. (r.0 ≡ without_clients s) × Holds elsewhere (descriptors (without_clients s)) r.1)
      (sym (close_clients_in-nil rounds s k e))
      (refl, subst (λ cs. Holds elsewhere (descriptors (record s { clients = cs })) k) e h)

module _ {elsewhere : ℕ → Bool} where
  pub Holds-forget :
      {owned : List ℕ} {k : Kernel} (epoll : Option ℕ) (fd : ℕ)
      → Holds elsewhere owned k
      → Holds elsewhere owned (forget epoll fd k)
  Holds-forget none fd h = h
  Holds-forget (some e) fd h = Holds-unwatch fd h

  -- Closing a client takes its descriptor off the list and closes it, once.
  pub Holds-unregister_fd :
      {k : Kernel} (fd : ℕ) (s : Server)
      → Holds elsewhere (descriptors s) k
      → 0 < count fd s.clients
      → Holds elsewhere (descriptors (unregister_fd fd s k).0) (unregister_fd fd s k).1
  unfolding unregister_fd
  Holds-unregister_fd fd s h owned =
      Holds-closed fd (descriptors (record s { clients = erase fd s.clients }))
        (Holds-forget s.epoll_fd fd h) apart
    where
      apart :
          (n : ℕ)
          → count n (descriptors s)
            ≡ count n (fd ∷ descriptors (record s { clients = erase fd s.clients }))
      apart n = omega (
        arith,
        count-descriptors n s,
        count-descriptors n (record s { clients = erase fd s.clients }),
        count-cons n fd (descriptors (record s { clients = erase fd s.clients })),
        count-erase n fd s.clients owned,
        count-cons n fd (erase fd s.clients),
      )

  Holds-close_clients_in :
      (rounds : ℕ) (s : Server) (k : Kernel)
      → length s.clients ≤ rounds
      → Holds elsewhere (descriptors s) k
      → ((close_clients_in rounds s k).0 ≡ without_clients s)
        × Holds elsewhere (descriptors (without_clients s)) (close_clients_in rounds s k).1
  unfolding unregister_fd
  Holds-close_clients_in zero s k fits h = by_clients s.clients refl
    where
      by_clients :
          (xs : List ℕ)
          → s.clients ≡ xs
          → ((close_clients_in zero s k).0 ≡ without_clients s)
            × Holds elsewhere (descriptors (without_clients s)) (close_clients_in zero s k).1
      by_clients [] e = none_left {elsewhere = elsewhere} zero s k e h
      by_clients (x ∷ xs) e = absurd (omega (arith, ap length e))
  Holds-close_clients_in (suc rounds) s k fits h =
      by_clients s.clients refl (λ s' k'. Holds-close_clients_in rounds s' k')
    where
      shorter : (fd : ℕ) → 0 < count fd s.clients → length (unregister_fd fd s k).0.clients ≤ rounds
      shorter fd owned = omega (arith, length-erase fd s.clients owned)

      by_clients :
          (xs : List ℕ)
          → s.clients ≡ xs
          → ((s' : Server) (k' : Kernel)
              → length s'.clients ≤ rounds
              → Holds elsewhere (descriptors s') k'
              → ((close_clients_in rounds s' k').0 ≡ without_clients s')
                × Holds elsewhere
                    (descriptors (without_clients s'))
                    (close_clients_in rounds s' k').1)
          → ((close_clients_in (suc rounds) s k).0 ≡ without_clients s)
            × Holds elsewhere
                (descriptors (without_clients s))
                (close_clients_in (suc rounds) s k).1
      by_clients [] e rest = none_left {elsewhere = elsewhere} (suc rounds) s k e h
      by_clients (x ∷ xs) e rest =
          let fd = last_of x xs in
          let owned : 0 < count fd s.clients =
            subst (λ cs. 0 < count fd cs) (sym e) (count-last_of x xs) in
          let u = unregister_fd fd s k in
          let next = rest u.0 u.1 (shorter fd owned) (Holds-unregister_fd fd s h owned) in
          subst
            (λ r. (r.0 ≡ without_clients s) × Holds elsewhere (descriptors (without_clients s)) r.1)
            (sym (close_clients_in-cons rounds s k x xs e)) next

  pub Holds-close_clients :
      (s : Server) (k : Kernel)
      → Holds elsewhere (descriptors s) k
      → ((close_clients s k).0 ≡ without_clients s)
        × Holds elsewhere (descriptors (without_clients s)) (close_clients s k).1
  unfolding close_clients
  Holds-close_clients s k h = Holds-close_clients_in (length s.clients) s k (omega arith) h

  pub Holds-close_some :
      {k : Kernel} (o : Option ℕ) (rest : List ℕ)
      → Holds elsewhere (fds o ++ rest) k
      → Holds elsewhere rest (close_some o k)
  Holds-close_some none rest h = h
  Holds-close_some (some fd) rest h = Holds-closed fd rest h (λ n. refl)

  Holds-close_wakeup :
      {k : Kernel} (wakeup epoll : Option ℕ) (rest : List ℕ)
      → Holds elsewhere (fds wakeup ++ rest) k
      → Holds elsewhere rest (elim wakeup [ none ↦ k | some fd ↦ close_fd fd (forget epoll fd k) ])
  Holds-close_wakeup none epoll rest h = h
  Holds-close_wakeup (some fd) epoll rest h =
      Holds-closed fd rest (Holds-forget epoll fd h) (λ n. refl)

  -- All descriptors of the fields are closed, each once.
  pub Holds-close_startup_descriptors :
      (s : Server) (k : Kernel)
      → Holds elsewhere (descriptors s) k
      → ((close_startup_descriptors s k).0 ≡ without_descriptors s)
        × Holds elsewhere [] (close_startup_descriptors s k).1
  unfolding close_startup_descriptors
  Holds-close_startup_descriptors s k h = by_clients (close_clients s k) (Holds-close_clients s k h)
    where
      by_clients :
          (r : Server × Kernel)
          → (r.0 ≡ without_clients s) × Holds elsewhere (descriptors (without_clients s)) r.1
          → let (s', k') = r in
            (record s' { listening_fd = none; wakeup_fd = none; epoll_fd = none }
              ≡ without_descriptors s)
            × Holds elsewhere []
                (close_some s'.epoll_fd (close_wakeup s' (close_some s'.listening_fd k')))
      by_clients (s', k') (e, held) =
          let own : Holds elsewhere (descriptors s') k' =
            subst (λ t. Holds elsewhere (descriptors t) k') (sym e) held in
          let sorted =
            Holds-moved (fds s'.listening_fd ++ (fds s'.wakeup_fd ++ (fds s'.epoll_fd ++ []))) own
              (λ n. omega (
                arith,
                count-descriptors n s',
                ap (λ (t : Server). count n t.clients) e,
                count-append n (fds s'.listening_fd) (fds s'.wakeup_fd ++ (fds s'.epoll_fd ++ [])),
                count-append n (fds s'.wakeup_fd) (fds s'.epoll_fd ++ []),
                count-append n (fds s'.epoll_fd) [],
              )) in
          (
            ap (λ (t : Server). record t { listening_fd = none; wakeup_fd = none; epoll_fd = none })
                e,
            Holds-close_some s'.epoll_fd [] (
                Holds-close_wakeup s'.wakeup_fd s'.epoll_fd (fds s'.epoll_fd ++ []) (
                  Holds-close_some s'.listening_fd (fds s'.wakeup_fd ++ (fds s'.epoll_fd ++ []))
                    sorted)),
          )
