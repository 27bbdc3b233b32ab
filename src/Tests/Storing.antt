-- ===== src/Tests/Storing.antt =====
-- The storage over a backend with one byte count for each day, the worker, and days.
use tracebox.Prelude.{
  ◌^◌, ◌-◌, ℕ, suc, ◌+◌, ◌≤◌, ◌≡◌, ◌≢◌, refl, true, false, List, [], ◌∷◌, ◌++◌, arith, pos, length,
  ◌⊎◌, All,
}
use tracebox.Bytes.{Text, text_eq}
use tracebox.StreamWriter.{LogRequest, returned, to_string}
use tracebox.Storage.{
  Backend, Removal, removed, nothing_left, throws, started, endless, unfinished, shrink,
  open_storage, make_room,
}
use tracebox.Api.{new_storage}
use tracebox.Api.Limits.{new_storage-unlimited}
use tracebox.Storage.Accounting.{Removes, open_storage-balance, shrink-endless}
use tracebox.Storage.Writing.{make_room-ends}
use tracebox.Storage.Filesystem.{
  Entry, used_in, sizes, remove_oldest, remove_oldest-used, find_oldest, delete_folder, max_day,
  int_string, oldest_from, stoi,
}
use tracebox.Storage.Oldest.{NotBefore, Occurs, day_of, find_oldest-least}
use tracebox.LogWriter.{
  System, waits, ended, start, stop, add, pending, work_for, work, wait, Reach, here, next, accepts,
  stops, works,
}
use tracebox.LogWriter.Drains.{store_all, Reach-start, Reach-ended, work_for-drains}
use tracebox.Calendar.{Date, IsDate}

abbrev total : List ℕ → ℕ
total [] = 0
total (n ∷ ns) = n + total ns

abbrev drop_first : List ℕ → List ℕ × Removal
drop_first [] = ([], nothing_left)
drop_first (n ∷ ns) = (ns, removed n)

-- Each day is its number of bytes; a write adds a day of 5 bytes.
abbrev days_backend : Backend
days_backend = record {
  State = List ℕ;
  used_bytes = total;
  remove_oldest = drop_first;
  write = λ s request. (5 ∷ s, returned (pos 5));
}

days_backend-Removes : Removes days_backend
days_backend-Removes = record {
  days = λ s. length s;
  frees = frees;
  fewer = fewer;
  stays = stays;
  breaks = breaks;
}
  where
    frees :
        (s : List ℕ) (freed : ℕ)
        → (drop_first s).1 ≡ removed freed
        → total (drop_first s).0 + freed ≡ total s
    frees [] freed e = cc
    frees (n ∷ ns) freed e = let same : n ≡ freed = cc e in omega (arith, same)

    fewer :
        (s : List ℕ) (freed : ℕ)
        → (drop_first s).1 ≡ removed freed
        → suc (length (drop_first s).0) ≤ length s
    fewer [] freed e = cc
    fewer (n ∷ ns) freed e = omega arith

    stays : (s : List ℕ) → (drop_first s).1 ≡ nothing_left → (drop_first s).0 ≡ s
    stays [] e = refl
    stays (n ∷ ns) e = cc

    breaks : (s : List ℕ) → (drop_first s).1 ≡ throws → (drop_first s).0 ≡ s
    breaks [] e = cc
    breaks (n ∷ ns) e = cc

abbrev request : LogRequest
request = record { channel = []; size = 0; payload = b'a' ∷ []; time_ns = 7 }

open_storage-balance_example : 75 + total (25 ∷ []) ≡ 100
unfolding open_storage shrink
open_storage-balance_example =
    open_storage-balance days_backend days_backend-Removes 3 100 75 (80 ∷ 25 ∷ []) (25 ∷ [])
      (omega arith) (omega arith) refl

shrink-endless_example : shrink days_backend 1000 105 100 [] ≡ endless
shrink-endless_example =
    shrink-endless days_backend days_backend-Removes 1000 105 100 [] (omega arith) (omega arith)
      refl

make_room-ends_example : make_room days_backend 3 123 20 (80 ∷ 100 ∷ []) ≢ unfinished
unfolding days_backend-Removes
make_room-ends_example =
    make_room-ends days_backend days_backend-Removes 3 123 20 (80 ∷ 100 ∷ []) (omega arith)

abbrev day : Text → ℕ → Entry
day name size = record {
  name = name;
  is_directory = true;
  files = record { is_directory = false; size = size } ∷ [];
}

-- Two days and a directory that is no day.
abbrev entries : List Entry
entries = day (b'1' ∷ b'2' ∷ []) 30 ∷ day (b'x' ∷ []) 5 ∷ day (b'1' ∷ b'1' ∷ []) 40 ∷ []

remove_oldest-used_example :
    (used_in (remove_oldest entries).0 + 40 ≡ used_in entries)
    × (suc (length (remove_oldest entries).0) ≤ length entries)
unfolding remove_oldest find_oldest oldest_from stoi delete_folder int_string text_eq to_string
    sizes
remove_oldest-used_example = remove_oldest-used entries 40 refl

find_oldest-least_example :
    All (λ e. NotBefore (find_oldest entries) (day_of e)) entries
    × ((find_oldest entries ≡ max_day) ⊎ Occurs (find_oldest entries) entries)
find_oldest-least_example = find_oldest-least entries

-- Storing a request is to remember its time.
abbrev remember : List ℕ → LogRequest → List ℕ
remember s r = s ++ r.time_ns ∷ []

abbrev accepted_one : System (List ℕ)
accepted_one = record {
  writer = record { queue = request ∷ []; stopping = false };
  worker = waits;
  storage = [];
}

accepting : Reach remember (start []) accepted_one (request ∷ [])
unfolding start add
accepting = next here (accepts request refl)

abbrev stopped_empty : System (List ℕ)
stopped_empty = record {
  writer = record { queue = []; stopping = true };
  worker = ended;
  storage = [];
}

stopping : Reach remember (start []) stopped_empty []
unfolding start stop work wait
stopping = next (next here stops) works

Reach-start_example :
    store_all remember [] (pending accepted_one) ≡ store_all remember [] (request ∷ [])
Reach-start_example = Reach-start remember [] accepting

Reach-ended_example : (true ≡ true) × (stopped_empty.storage ≡ store_all remember [] [])
Reach-ended_example = Reach-ended remember [] stopping refl

abbrev two_queued : System (List ℕ)
two_queued = record {
  writer = record { queue = request ∷ request ∷ []; stopping = true };
  worker = waits;
  storage = [];
}

work_for-drains_example : (work_for remember 7 two_queued).worker ≡ ended
work_for-drains_example = work_for-drains remember 7 two_queued refl (omega arith)

abbrev new_year : Date
new_year = record { year = 123; month = 0; day = 1 }

abbrev old_year : Date
old_year = record { year = 122; month = 11; day = 31 }

new_year-IsDate : IsDate new_year
new_year-IsDate = record { month = omega arith; day = omega arith; some_day = omega arith }

old_year-IsDate : IsDate old_year
old_year-IsDate = record { month = omega arith; day = omega arith; some_day = omega arith }

-- 3 GB in place of 100 bytes: nothing is removed.
new_storage-unlimited_example :
    new_storage days_backend 1 3000000000 (80 ∷ 25 ∷ [])
    ≡ started (3000000000 + (2 ^ 64 - 2 ^ 32) - 105) (80 ∷ 25 ∷ [])
new_storage-unlimited_example =
    new_storage-unlimited days_backend 0 3000000000 (80 ∷ 25 ∷ []) (omega arith) (omega arith)
      (omega arith)
