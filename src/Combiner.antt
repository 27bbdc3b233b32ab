-- ===== src/Combiner.antt =====
-- libs/log_client/streams_combiner.{h,cpp}: `OneSecondData` and `StreamsCombiner`, which sorts the
-- records of several streams into seconds.
pub mod Contents
pub mod Seconds
use tracebox.Prelude.{
  ℕ, zero, suc, ◌+◌, ◌%◌, ◌^◌, ◌≡◌, Bool, true, false, ◌||◌, Option, none, some, List, [], ◌∷◌,
  ◌++◌, ltb, ◌==◌, if◌then◌else◌, length,
}
use tracebox.Bytes.{Text, text_eq}
use tracebox.Reader.DataFile.{DataPiece}

pub record OneSecondData : Type 0 where
  pub pieces : List DataPiece
  pub sorted : Bool

abbrev pub no_pieces : OneSecondData
no_pieces = record { pieces = []; sorted = false }

-- `add`
abbrev pub add_pieces : OneSecondData → List DataPiece → OneSecondData
add_pieces d more = record { pieces = d.pieces ++ more; sorted = false }

-- `sort`, over `std::sort` by time.
unfoldable pub sort_pieces : (List DataPiece → List DataPiece) → OneSecondData → OneSecondData
sort_pieces std_sort d =
    if d.sorted then d else record { pieces = std_sort d.pieces; sorted = true }

-- `std::map<uint64_t, OneSecondData>`, in the order of its keys.
abbrev pub Seconds : Type 0
Seconds = List (ℕ × OneSecondData)

-- The indices of the streams, the newest last.
abbrev pub Indices : Type 0
Indices = List (Text × ℕ)

pub record StreamsCombiner : Type 0 where
  pub seconds : Seconds
  pub first_second : ℕ
  pub last_second : ℕ
  pub indices : Indices

-- The entry of a second with `more` behind its records; a new entry stands where its key belongs.
unfoldable pub add_at : ℕ → List DataPiece → Seconds → Seconds
add_at second more [] = (second, add_pieces no_pieces more) ∷ []
add_at second more ((key, d) ∷ m) =
    let rest = add_at second more m in
    if key == second
    then (key, add_pieces d more) ∷ m
    else (if ltb second key
        then (second, add_pieces no_pieces more) ∷ (key, d) ∷ m
        else (key, d) ∷ rest)

-- `storeData`
unfoldable pub store_pieces : ℕ → List DataPiece → Seconds → Seconds
store_pieces second [] m = m
store_pieces second (p ∷ ps) m = if second == 0 then m else add_at second (p ∷ ps) m

-- `indices_.find`
unfoldable pub find_index : Text → Indices → Option ℕ
find_index stream [] = none
find_index stream ((name, n) ∷ rest) =
    let later = find_index stream rest in if text_eq name stream then some n else later

-- The index of the stream; a new stream gets the number of those before it.
abbrev pub index_or_new : Text → Indices → Option ℕ → ℕ × Indices
index_or_new stream indices (some n) = (n, indices)
index_or_new stream indices none = (length indices, indices ++ (stream, length indices) ∷ [])

-- `piece`, with the time and the data of the record.
abbrev pub tagged : ℕ → DataPiece → DataPiece
tagged idx p = record { time_ns = p.time_ns; payload = p.payload; stream_idx = idx }

-- `time_ns / 1E9`, a division of doubles, is a parameter.
module _ (seconds_of : ℕ → ℕ) where
  -- `StreamsCombiner(start_time, end_time)`
  unfoldable pub combiner : ℕ → ℕ → StreamsCombiner
  combiner start_time end_time = record {
    seconds = [];
    first_second = seconds_of start_time;
    last_second = seconds_of end_time;
    indices = [];
  }

  -- The loop of `addRecords`, with `last` and `tmp`.
  unfoldable pub add_loop : ℕ → ℕ → ℕ → List DataPiece → ℕ → List DataPiece → Seconds → Seconds
  add_loop first_second last_second idx [] last tmp m = store_pieces last tmp m
  add_loop first_second last_second idx (p ∷ ps) last tmp m =
      elim (ltb (seconds_of p.time_ns) first_second) [
        | true ↦ add_loop first_second last_second idx ps last tmp m
        | false ↦ elim (ltb last_second (seconds_of p.time_ns)) [
          | true ↦ store_pieces last tmp m
          | false ↦ elim (seconds_of p.time_ns == last) [
            | true ↦ add_loop first_second last_second idx ps last (tmp ++ tagged idx p ∷ []) m
            | false ↦
                add_loop first_second last_second idx ps (seconds_of p.time_ns) (tagged idx p ∷ [])
                  (store_pieces last tmp m)
          ]
        ]
      ]

  -- `addRecords`
  unfoldable pub add_records : StreamsCombiner → Text → List DataPiece → StreamsCombiner
  add_records c stream ps =
      let (idx, indices) = index_or_new stream c.indices (find_index stream c.indices) in
      record c {
        seconds = add_loop c.first_second c.last_second idx ps 0 [] c.seconds;
        indices = indices;
      }

-- The loop of `save` from a `size_t` on: what the writer is called with, and the count.
unfoldable pub save_from : Seconds → ℕ → List (List DataPiece) × ℕ
save_from [] size = ([], size)
save_from ((key, d) ∷ m) size =
    let (calls, count) = save_from m ((size + length d.pieces) % 2 ^ 64) in
    (d.pieces ∷ calls, count)

-- `save`
unfoldable pub save : StreamsCombiner → List (List DataPiece) × ℕ
save c = save_from c.seconds 0
