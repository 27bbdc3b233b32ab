-- ===== src/Reader/IfStream.antt =====
-- `std::ifstream` as the readers use it: `seekg` and `read` on a binary file, and the failure
-- that stays once it is set.
use tracebox.Prelude.{
  ℕ, ◌+◌, Bool, true, Option, none, some, leb, if◌then◌else◌, take, drop, length,
}
use tracebox.Bytes.{Text}

pub record IfStream : Type 0 where
  pub bytes : Text
  pub position : ℕ
  pub is_open : Bool
  pub failed : Bool

unfoldable pub seek : IfStream → ℕ → IfStream
seek s position = if s.failed then s else record s { position = position }

-- The bytes are complete, or the stream has failed.
unfoldable pub read_bytes : IfStream → ℕ → IfStream × Option Text
read_bytes s n =
    if s.failed
    then (s, none)
    else (if leb (s.position + n) (length s.bytes)
        then (record s { position = s.position + n }, some (take n (drop s.position s.bytes)))
        else (record s { position = length s.bytes; failed = true }, none))
