-- ===== src/Storage/Writing.antt =====
-- The loop of `Storage::write` that makes room for a record.
use tracebox.Prelude.{
  ℕ, zero, suc, ◌+◌, ◌<◌, ◌≤◌, ◌≡◌, ◌≢◌, sym, ◌∙◌, inl, inr, ltb, arith, Bool-cases,
}
use tracebox.Storage.{Backend, Room, room, full, thrown, unfinished, make_room, add_size}
use tracebox.Storage.Accounting.{
  Removes, Removal-cases, make_room-stop, make_room-removed, make_room-nothing, make_room-throws,
}

module _ (b : Backend) (laws : Removes b) where
  open b use {State, used_bytes, remove_oldest}

  -- The space of a state of the storage is its limit.
  abbrev pub Balanced : ℕ → Room State → Type 0
  Balanced limit (room a s) = a + used_bytes s ≡ limit
  Balanced limit (full a s) = a + used_bytes s ≡ limit
  Balanced limit (thrown a s) = a + used_bytes s ≡ limit
  Balanced limit unfinished = Unit

  abbrev pub HasRoom : ℕ → Room State → Type 0
  HasRoom need (room a s) = need ≤ a
  HasRoom need (full a s) = a < need
  HasRoom need (thrown a s) = a < need
  HasRoom need unfinished = Unit

  -- Over a backend that keeps `Removes`, the loop of `Storage::write` ends when it may go round
  -- more often than there are days.
  pub make_room-ends :
      (fuel need available : ℕ) (s : State)
      → laws.days s < fuel
      → make_room b fuel need available s ≢ unfinished
  unfolding make_room
  make_room-ends zero need available s h = absurd (omega arith)
  make_room-ends (suc fuel) need available s h = elim (Bool-cases (ltb available need)) [
    | inr fits ↦ λ e. cc (make_room-stop b fuel need available s fits)
    | inl over ↦ elim (Removal-cases (remove_oldest s).1) [
      | inl (n, r) ↦ λ e.
          make_room-ends fuel need (add_size available n) (remove_oldest s).0
            (omega (arith, laws.fewer s n r))
            (sym (make_room-removed b fuel need available s n over r) ∙ e)
      | inr (inl r) ↦ λ e. cc (make_room-nothing b fuel need available s over r)
      | inr (inr r) ↦ λ e. cc (make_room-throws b fuel need available s over r)
    ]
  ]
