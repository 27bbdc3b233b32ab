-- ===== src/Storage/Accounting.antt =====
-- The space that `Storage` counts, over any backend that keeps the laws below.
use tracebox.Prelude.{
  ℕ, zero, suc, ◌+◌, ◌^◌, ◌<◌, ◌≤◌, ◌≡◌, refl, sym, ap, ◌∙◌, true, false, ◌⊎◌, inl, inr, pos, ltb,
  arith, Bool-cases, lt→ltb, ap₂,
}
use tracebox.Storage.{
  Backend, Removal, removed, nothing_left, throws, Shrunk, started, threw, endless, room, full,
  thrown, shrink, open_storage, make_room, begin, add_size, sub_size,
}

-- What a backend promises of `removeOldest`: what it reports is what it frees, a removal leaves
-- fewer days, and where nothing is left, or the call throws, nothing changes.
pub record Removes (b : Backend) : Type 0 where
  pub days : b.State → ℕ
  pub frees :
      (s : b.State) (freed : ℕ)
      → (b.remove_oldest s).1 ≡ removed freed
      → b.used_bytes (b.remove_oldest s).0 + freed ≡ b.used_bytes s
  pub fewer :
      (s : b.State) (freed : ℕ)
      → (b.remove_oldest s).1 ≡ removed freed
      → suc (days (b.remove_oldest s).0) ≤ days s
  pub stays : (s : b.State) → (b.remove_oldest s).1 ≡ nothing_left → (b.remove_oldest s).0 ≡ s
  pub breaks : (s : b.State) → (b.remove_oldest s).1 ≡ throws → (b.remove_oldest s).0 ≡ s

pub Removal-cases : (r : Removal) → ((n : ℕ) × (r ≡ removed n)) ⊎ (r ≡ nothing_left) ⊎ (r ≡ throws)
Removal-cases (removed n) = inl (n, refl)
Removal-cases nothing_left = inr (inl refl)
Removal-cases throws = inr (inr refl)

-- One round of each loop.
module _ (b : Backend) (fuel wanted available : ℕ) (s : b.State) where
  abbrev pub rest : b.State
  rest = (b.remove_oldest s).0

  pub shrink-stop :
      ltb available wanted ≡ false → shrink b (suc fuel) wanted available s ≡ started available s
  unfolding shrink
  shrink-stop h = rw (h, shrink)

  shrink-removed :
      (n : ℕ)
      → ltb available wanted ≡ true
      → (b.remove_oldest s).1 ≡ removed n
      → shrink b (suc fuel) wanted available s ≡ shrink b fuel wanted (add_size available n) rest
  unfolding shrink
  shrink-removed n h r = rw (h, shrink) (rw (r, shrink))

  shrink-nothing :
      ltb available wanted ≡ true
      → (b.remove_oldest s).1 ≡ nothing_left
      → shrink b (suc fuel) wanted available s ≡ shrink b fuel wanted (add_size available 0) rest
  unfolding shrink
  shrink-nothing h r = rw (h, shrink) (rw (r, shrink))

  shrink-throws :
      ltb available wanted ≡ true
      → (b.remove_oldest s).1 ≡ throws
      → shrink b (suc fuel) wanted available s ≡ threw
  unfolding shrink
  shrink-throws h r = rw (h, shrink) (rw (r, shrink))

  pub make_room-stop :
      ltb available wanted ≡ false → make_room b (suc fuel) wanted available s ≡ room available s
  unfolding make_room
  make_room-stop h = rw (h, make_room)

  pub make_room-removed :
      (n : ℕ)
      → ltb available wanted ≡ true
      → (b.remove_oldest s).1 ≡ removed n
      → make_room b (suc fuel) wanted available s
        ≡ make_room b fuel wanted (add_size available n) rest
  unfolding make_room
  make_room-removed n h r = rw (h, make_room) (rw (r, make_room))

  pub make_room-nothing :
      ltb available wanted ≡ true
      → (b.remove_oldest s).1 ≡ nothing_left
      → make_room b (suc fuel) wanted available s ≡ full available rest
  unfolding make_room
  make_room-nothing h r = rw (h, make_room) (rw (r, make_room))

  pub make_room-throws :
      ltb available wanted ≡ true
      → (b.remove_oldest s).1 ≡ throws
      → make_room b (suc fuel) wanted available s ≡ thrown available rest
  unfolding make_room
  make_room-throws h r = rw (h, make_room) (rw (r, make_room))

module _ (b : Backend) (laws : Removes b) where
  open b use {State, used_bytes, remove_oldest}

  -- The space available and the space used add up to the same all along the constructor's loop,
  -- and it ends with room for what was used.
  pub shrink-balance :
      (fuel used available a : ℕ) (s s' : State)
      → available + used_bytes s < 2 ^ 64
      → shrink b fuel used available s ≡ started a s'
      → (a + used_bytes s' ≡ available + used_bytes s) × (used ≤ a)
  unfolding shrink
  shrink-balance zero used available a s s' small e = cc
  shrink-balance (suc fuel) used available a s s' small e = elim (Bool-cases (ltb available used)) [
    | inr fits ↦
        let q : started available s ≡ started a s' =
          sym (shrink-stop b fuel used available s fits) ∙ e in
        let qa : available ≡ a = cc q in
        let qs : s ≡ s' = cc q in (omega (arith, ap used_bytes qs, qa), ground (arith, qa))
    | inl over ↦ elim (Removal-cases (remove_oldest s).1) [
      | inl (n, r) ↦
          let ih =
            shrink-balance fuel used (add_size available n) a (remove_oldest s).0 s'
              (omega (arith, laws.frees s n r))
              (sym (shrink-removed b fuel used available s n over r) ∙ e) in
          (omega (arith, laws.frees s n r, ih.0), ih.1)
      | inr (inl r) ↦
          let ih =
            shrink-balance fuel used (add_size available 0) a (remove_oldest s).0 s'
              (omega (arith, ap used_bytes (laws.stays s r)))
              (sym (shrink-nothing b fuel used available s over r) ∙ e) in
          (omega (arith, ap used_bytes (laws.stays s r), ih.0), ih.1)
      | inr (inr r) ↦ cc (shrink-throws b fuel used available s over r)
    ]
  ]

  -- Over a backend that keeps `Removes`, when the constructor with a limit below 2^31 ends with a
  -- storage, the bytes available and the bytes used add up to that limit; provided that the limit
  -- and the bytes used at first add up to less than 2^64.
  pub open_storage-balance :
      (fuel limit a : ℕ) (s s' : State)
      → limit < 2 ^ 31
      → limit + used_bytes s < 2 ^ 64
      → open_storage b fuel (pos limit) s ≡ started a s'
      → a + used_bytes s' ≡ limit
  unfolding open_storage
  open_storage-balance fuel limit a s s' small fits e =
      by_loop (shrink b fuel (used_bytes s) limit s) refl e
    where
      by_loop :
          (r : Shrunk State)
          → shrink b fuel (used_bytes s) limit s ≡ r
          → begin b (used_bytes s) r ≡ started a s'
          → a + used_bytes s' ≡ limit
      by_loop (started a' s'') l q =
          let both = shrink-balance fuel (used_bytes s) limit a' s s'' fits l in
          let qa : sub_size a' (used_bytes s) ≡ a = cc q in
          let qs : s'' ≡ s' = cc q in omega (arith, both.0, both.1, qa, ap used_bytes qs)
      by_loop threw l q = cc
      by_loop endless l q = cc

  -- Over a backend that keeps `Removes`, with fewer bytes available (below 2^64) than used and
  -- nothing left to remove, the constructor's loop has not ended after any number of rounds.
  pub shrink-endless :
      (fuel used available : ℕ) (s : State)
      → available < used
      → available < 2 ^ 64
      → (remove_oldest s).1 ≡ nothing_left
      → shrink b fuel used available s ≡ endless
  unfolding shrink
  shrink-endless zero used available s h small r = refl
  shrink-endless (suc fuel) used available s h small r =
      shrink-nothing b fuel used available s (lt→ltb available used h) r
      ∙ ap₂ (λ (a : ℕ) t. shrink b fuel used a t) {y = available} (omega arith) (laws.stays s r)
      ∙ shrink-endless fuel used available s h small r
