-- ===== src/Storage.antt =====
-- libs/log_writer/storage_management/storage.{h,cpp} and storage_backend.h: `Storage`, which keeps the space for records
-- within a limit, over the interface `StorageBackend`.
pub mod Accounting
pub mod Writing
pub mod Filesystem
pub mod Oldest
use tracebox.Prelude.{
  ℕ, zero, suc, ◌+◌, ◌-◌, ◌%◌, ◌^◌, ◌≡◌, Bool, true, false, Option, none, some, ℤ, pos, negsuc,
  int32, size_of_int, positive, ltb, if◌then◌else◌, length,
}
use tracebox.Format.{max_record_size}
use tracebox.StreamWriter.{LogRequest, Outcome, returned, raises, hangs}

-- How `removeOldest` ends: it has freed some bytes, there is nothing to remove, or it throws.
pub data Removal : Type 0 where
  removed : ℕ → Removal
  nothing_left : Removal
  throws : Removal

-- `StorageBackend`.
pub record Backend : Type 1 where
  pub State : Type 0
  pub used_bytes : State → ℕ
  pub remove_oldest : State → State × Removal
  pub write : State → LogRequest → State × Outcome

-- How the constructor ends: with the bytes available and the backend; by an exception; or not
-- within the given number of removals.
pub data Shrunk (State : Type 0) : Type 0 where
  started : ℕ → State → Shrunk State
  threw : Shrunk State
  endless : Shrunk State

-- How the loop of `write` ends: with room for the record; with nothing left to remove; by an
-- exception; or not within the given number of removals.
pub data Room (State : Type 0) : Type 0 where
  room : ℕ → State → Room State
  full : ℕ → State → Room State
  thrown : ℕ → State → Room State
  unfinished : Room State

-- `size_t` addition and subtraction.
abbrev pub add_size : ℕ → ℕ → ℕ
add_size a c = (a + c) % 2 ^ 64

abbrev pub sub_size : ℕ → ℕ → ℕ
sub_size a c = (a + 2 ^ 64 - c) % 2 ^ 64

module _ (b : Backend) where
  open b use {State, used_bytes, remove_oldest, write as write_backend}

  -- The constructor's loop: `used` is not computed again, and the returned `bool` is not looked
  -- at.
  unfoldable pub shrink : ℕ → ℕ → ℕ → State → Shrunk State
  shrink zero used available s = endless
  shrink (suc fuel) used available s = elim (ltb available used) [
    | false ↦ started available s
    | true ↦ elim (remove_oldest s).1 [
      | removed freed ↦ shrink fuel used (add_size available freed) (remove_oldest s).0
      | nothing_left ↦ shrink fuel used (add_size available 0) (remove_oldest s).0
      | throws ↦ threw
    ]
  ]

  -- The rest of the constructor.
  abbrev pub begin : ℕ → Shrunk State → Shrunk State
  begin used (started available s) = started (sub_size available used) s
  begin used threw = threw
  begin used endless = endless

  unfoldable pub open_storage : ℕ → ℤ → State → Shrunk State
  open_storage fuel max_size s =
      begin (used_bytes s) (shrink fuel (used_bytes s) (size_of_int max_size) s)

  -- The loop of `write`.
  unfoldable pub make_room : ℕ → ℕ → ℕ → State → Room State
  make_room zero need available s = unfinished
  make_room (suc fuel) need available s = elim (ltb available need) [
    | false ↦ room available s
    | true ↦ elim (remove_oldest s).1 [
      | removed freed ↦ make_room fuel need (add_size available freed) (remove_oldest s).0
      | nothing_left ↦ full available (remove_oldest s).0
      | throws ↦ thrown available (remove_oldest s).0
    ]
  ]

  -- `if (written > 0) available_bytes_ -= written;`
  abbrev pub charge : ℕ → Outcome → ℕ
  charge available (returned written) =
      if positive written then sub_size available (size_of_int written) else available
  charge available raises = available
  charge available hangs = available

  abbrev pub write_in : LogRequest → Room State → Room State × Option Outcome
  write_in request (room available s) =
      let (s', out) = write_backend s request in (room (charge available out) s', some out)
  write_in request (full available s) = (full available s, some (returned (pos 0)))
  write_in request (thrown available s) = (thrown available s, none)
  write_in request unfinished = (unfinished, none)

  -- `write`, with the state of the storage that it leaves; no outcome stands for an exception.
  unfoldable pub write : ℕ → ℕ → State → LogRequest → Room State × Option Outcome
  write fuel available s request =
      write_in request
        (make_room fuel (max_record_size (int32 (length request.payload))) available s)
