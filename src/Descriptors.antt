-- ===== src/Descriptors.antt =====
-- The file descriptors of the process, as the system calls of libs/tcp_server/tcp_server.cpp and
-- libs/log_client/tcp_client.cpp change them: `socket`, `accept`, `epoll_create1`, `eventfd` make
-- one, `close` takes one away, and `epoll_ctl` adds one to the watched ones or removes it.
use tracebox.Prelude.{
  ℕ, suc, ◌+◌, ◌≤◌, ◌<◌, ◌≡◌, refl, ap, ◌∙◌, Bool, true, false, Option, none, some, List, [], ◌∷◌,
  ◌++◌, ◌==◌, if◌then◌else◌, arith, Bool-cases, inl, inr,
}

-- `stray` counts the calls of `close` on what is no open descriptor.
pub record Kernel : Type 0 where
  pub is_open : ℕ → Bool
  pub watched : ℕ → Bool
  pub stray : ℕ

abbrev pub update : ℕ → Bool → (ℕ → Bool) → ℕ → Bool
update fd b f n = if n == fd then b else f n

-- A call that makes a descriptor answers by one that is not open, or fails.
unfoldable pub create : Kernel → Option ℕ → Kernel × Option ℕ
create k none = (k, none)
create k (some fd) =
    if k.is_open fd then (k, none) else (record k { is_open = update fd true k.is_open }, some fd)

-- A closed descriptor is watched no more.
unfoldable pub close_fd : ℕ → Kernel → Kernel
close_fd fd k =
    if k.is_open fd
    then record k { is_open = update fd false k.is_open; watched = update fd false k.watched }
    else record k { stray = suc k.stray }

unfoldable pub watch : ℕ → Kernel → Kernel
watch fd k = record k { watched = update fd true k.watched }

unfoldable pub unwatch : ℕ → Kernel → Kernel
unwatch fd k = record k { watched = update fd false k.watched }

-- `if (fd >= 0) close(fd);`
abbrev pub close_some : Option ℕ → Kernel → Kernel
close_some none k = k
close_some (some fd) k = close_fd fd k

abbrev pub fds : Option ℕ → List ℕ
fds none = []
fds (some fd) = fd ∷ []

-- How many times a descriptor is listed.
unfoldable pub count : ℕ → List ℕ → ℕ
count n [] = 0
count n (x ∷ xs) = (if x == n then 1 else 0) + count n xs

abbrev pub bit : Bool → ℕ
bit true = 1
bit false = 0

-- Open are just the descriptors that are open elsewhere in the process and those of the list, each
-- of these once; and nothing has been closed that was not open.
pub record Holds (elsewhere : ℕ → Bool) (owned : List ℕ) (k : Kernel) : Type 0 where
  pub opened : (n : ℕ) → bit (k.is_open n) ≡ bit (elsewhere n) + count n owned
  pub quiet : k.stray ≡ 0

pub count-append : (n : ℕ) (xs ys : List ℕ) → count n (xs ++ ys) ≡ count n xs + count n ys
unfolding count
count-append n [] ys = omega arith
count-append n (x ∷ xs) ys = omega (arith, count-append n xs ys)

pub count-nil : (n : ℕ) → count n [] ≡ 0
unfolding count
count-nil n = refl

pub count-cons : (n x : ℕ) (xs : List ℕ) → count n (x ∷ xs) ≡ count n (x ∷ []) + count n xs
unfolding count
count-cons n x xs = omega arith

pub bit-le : (b : Bool) → bit b ≤ 1
bit-le true = omega arith
bit-le false = omega arith

module _ {elsewhere : ℕ → Bool} {owned : List ℕ} {k : Kernel} where
  pub Holds-moved :
      (others : List ℕ)
      → Holds elsewhere owned k
      → ((n : ℕ) → count n owned ≡ count n others)
      → Holds elsewhere others k
  Holds-moved others h e = record {
    opened = λ n. h.opened n ∙ ap (λ c. bit (elsewhere n) + c) (e n);
    quiet = h.quiet;
  }

  pub Holds-is_open : (fd : ℕ) → Holds elsewhere owned k → 0 < count fd owned → k.is_open fd ≡ true
  Holds-is_open fd h e = elim (Bool-cases (k.is_open fd)) [
    | inl o ↦ o
    | inr shut ↦ absurd (omega (arith, h.opened fd, ap bit shut))
  ]

  pub Holds-closed :
      (fd : ℕ) (rest : List ℕ)
      → Holds elsewhere owned k
      → ((n : ℕ) → count n owned ≡ count n (fd ∷ rest))
      → Holds elsewhere rest (close_fd fd k)
  unfolding close_fd count
  Holds-closed fd rest h e = rw o (record { opened = opened; quiet = h.quiet })
    where
      o : k.is_open fd ≡ true
      o = Holds-is_open fd h (ground (arith, e fd))

      opened : (n : ℕ) → bit (update fd false k.is_open n) ≡ bit (elsewhere n) + count n rest
      opened n =
          let was = h.opened n in
          let own = e n in let le = bit-le (k.is_open n) in ground (arith, was, own, le)

  pub Holds-created :
      (fd : ℕ)
      → Holds elsewhere owned k
      → k.is_open fd ≡ false
      → Holds elsewhere (fd ∷ owned) (record k { is_open = update fd true k.is_open })
  unfolding count
  Holds-created fd h e = record { opened = opened; quiet = h.quiet }
    where
      opened : (n : ℕ) → bit (update fd true k.is_open n) ≡ bit (elsewhere n) + count n (fd ∷ owned)
      opened n = elim (Bool-cases (n == fd)) [
        | inl same ↦
            let at : n ≡ fd = ground (arith, same) in
            let was : bit (k.is_open n) ≡ bit (elsewhere n) + count n owned = h.opened n in
            let shut : k.is_open n ≡ false = ap k.is_open at ∙ e in ground (arith, was, shut, at)
        | inr other ↦ let was = h.opened n in ground (arith, was, other)
      ]

  pub Holds-create :
      (answer : Option ℕ)
      → Holds elsewhere owned k
      → Holds elsewhere (fds (create k answer).1 ++ owned) (create k answer).0
  unfolding create
  Holds-create none h = h
  Holds-create (some fd) h = elim (Bool-cases (k.is_open fd)) [
    | inl o ↦ rw o h
    | inr shut ↦ rw shut (Holds-created fd h shut)
  ]

  pub Holds-watch : (fd : ℕ) → Holds elsewhere owned k → Holds elsewhere owned (watch fd k)
  unfolding watch
  Holds-watch fd h = record { opened = h.opened; quiet = h.quiet }

  pub Holds-unwatch : (fd : ℕ) → Holds elsewhere owned k → Holds elsewhere owned (unwatch fd k)
  unfolding unwatch
  Holds-unwatch fd h = record { opened = h.opened; quiet = h.quiet }
