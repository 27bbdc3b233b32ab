-- ===== src/Tests/Combining.antt =====
-- Two streams put together by their seconds.
use tracebox.Prelude.{false, ℕ, ◌/◌, ◌≡◌, refl, List, [], ◌∷◌, ◌++◌, arith}
use tracebox.Bytes.{text_eq}
use tracebox.Reader.DataFile.{DataPiece}
use tracebox.Combiner.{
  StreamsCombiner, add_records, add_loop, store_pieces, add_at, save, save_from, find_index, tagged,
}
use tracebox.Combiner.Contents.{contents}
use tracebox.Combiner.Seconds.{pieces_at, index_of_stream, contents-add_records}

abbrev seconds_of : ℕ → ℕ
seconds_of t = t / 1000000000

abbrev at : ℕ → DataPiece
at t = record { time_ns = t; payload = []; stream_idx = 0 }

-- From the first to the third second, with one record in the second of them.
abbrev loaded : StreamsCombiner
loaded = record {
  seconds = (2, record { pieces = at 2000000000 ∷ []; sorted = false }) ∷ [];
  first_second = 1;
  last_second = 3;
  indices = (b'a' ∷ [], 0) ∷ [];
}

-- A record before the range, three in it, one behind it.
abbrev records : List DataPiece
records = at 5 ∷ at 1000000001 ∷ at 2000000007 ∷ at 2000000009 ∷ at 4000000000 ∷ []

saved_in_order : save (add_records seconds_of loaded (b'b' ∷ []) records) ≡ (
  (tagged 1 (at 1000000001) ∷ [])
      ∷ (at 2000000000 ∷ tagged 1 (at 2000000007) ∷ tagged 1 (at 2000000009) ∷ [])
      ∷ [],
  4,
)
unfolding save save_from add_records add_loop store_pieces add_at find_index text_eq
saved_in_order = refl

contents-add_records_example :
    contents 2 (add_records seconds_of loaded (b'b' ∷ []) records).seconds
    ≡ contents 2 loaded.seconds
      ++ pieces_at seconds_of 1 3 (index_of_stream loaded (b'b' ∷ [])) 2 records
contents-add_records_example =
    contents-add_records seconds_of loaded (b'b' ∷ []) records (tt, tt) 2 (λ e. omega arith)
