-- ===== src/Combiner/Seconds.antt =====
-- Which records `addRecords` puts into which second.
use tracebox.Prelude.{
  ℕ, ◌≡◌, ◌≢◌, sym, ap, ◌∙◌, true, false, inl, inr, List, [], ◌∷◌, ◌++◌, append-nil, append_assoc,
  ltb, ◌==◌, if◌then◌else◌, arith, Bool-cases, subst,
}
use tracebox.Bytes.{Text}
use tracebox.Reader.DataFile.{DataPiece}
use tracebox.Combiner.{
  Seconds, StreamsCombiner, store_pieces, tagged, add_loop, add_records, find_index, index_or_new,
}
use tracebox.Combiner.Contents.{contents, Ascending, contents-store_pieces, store_pieces-Ascending}

module _ (seconds_of : ℕ → ℕ) (first_second last_second idx : ℕ) where
  -- The specification: the records of the second `s`, tagged and in their order, up to the first
  -- record behind the last second.
  unfoldable pub pieces_at : ℕ → List DataPiece → List DataPiece
  pieces_at s [] = []
  pieces_at s (p ∷ ps) =
      let rest = pieces_at s ps in
      if ltb (seconds_of p.time_ns) first_second
      then rest
      else (if ltb last_second (seconds_of p.time_ns)
          then []
          else (if seconds_of p.time_ns == s then tagged idx p ∷ rest else rest))

  -- One round of the loop.
  module _ (p : DataPiece) (ps : List DataPiece) (last : ℕ) (tmp : List DataPiece)
      (m : Seconds) where
    abbrev second : ℕ
    second = seconds_of p.time_ns

    abbrev loop : List DataPiece → ℕ → List DataPiece → Seconds → Seconds
    loop = add_loop seconds_of first_second last_second idx

    add_loop-early : ltb second first_second ≡ true → loop (p ∷ ps) last tmp m ≡ loop ps last tmp m
    unfolding add_loop
    add_loop-early h = rw (h, add_loop)

    add_loop-late :
        ltb second first_second ≡ false
        → ltb last_second second ≡ true
        → loop (p ∷ ps) last tmp m ≡ store_pieces last tmp m
    unfolding add_loop
    add_loop-late h k = rw (h, add_loop) (rw (k, add_loop))

    add_loop-same :
        ltb second first_second ≡ false
        → ltb last_second second ≡ false
        → (second == last) ≡ true
        → loop (p ∷ ps) last tmp m ≡ loop ps last (tmp ++ tagged idx p ∷ []) m
    unfolding add_loop
    add_loop-same h k e = rw (h, add_loop) (rw (k, add_loop) (rw (e, add_loop)))

    add_loop-other :
        ltb second first_second ≡ false
        → ltb last_second second ≡ false
        → (second == last) ≡ false
        → loop (p ∷ ps) last tmp m ≡ loop ps second (tagged idx p ∷ []) (store_pieces last tmp m)
    unfolding add_loop
    add_loop-other h k e = rw (h, add_loop) (rw (k, add_loop) (rw (e, add_loop)))

  add_loop-Ascending :
      (ps : List DataPiece) (last : ℕ) (tmp : List DataPiece) (m : Seconds)
      → Ascending m
      → Ascending (add_loop seconds_of first_second last_second idx ps last tmp m)
  unfolding add_loop
  add_loop-Ascending [] last tmp m v = store_pieces-Ascending last tmp m v
  add_loop-Ascending (p ∷ ps) last tmp m v =
      elim (Bool-cases (ltb (seconds_of p.time_ns) first_second)) [
        | inl early ↦
            subst Ascending (sym (add_loop-early p ps last tmp m early))
              (add_loop-Ascending ps last tmp m v)
        | inr on_time ↦ elim (Bool-cases (ltb last_second (seconds_of p.time_ns))) [
          | inl late ↦
              subst Ascending (sym (add_loop-late p ps last tmp m on_time late))
                (store_pieces-Ascending last tmp m v)
          | inr within ↦ elim (Bool-cases (seconds_of p.time_ns == last)) [
            | inl same ↦
                subst Ascending (sym (add_loop-same p ps last tmp m on_time within same))
                  (add_loop-Ascending ps last (tmp ++ tagged idx p ∷ []) m v)
            | inr other ↦
                subst Ascending (sym (add_loop-other p ps last tmp m on_time within other)) (
                  add_loop-Ascending ps (seconds_of p.time_ns) (tagged idx p ∷ [])
                    (store_pieces last tmp m) (store_pieces-Ascending last tmp m v))
          ]
        ]
      ]

  contents-add_loop :
      (s : ℕ) (ps : List DataPiece) (last : ℕ) (tmp : List DataPiece) (m : Seconds)
      → Ascending m
      → s ≢ 0
      → contents s (add_loop seconds_of first_second last_second idx ps last tmp m)
        ≡ contents s m ++ ((if last == s then tmp else []) ++ pieces_at s ps)
  unfolding add_loop pieces_at
  contents-add_loop s [] last tmp m v nz =
      contents-store_pieces s last tmp m v nz
      ∙ ap (λ t. contents s m ++ t) (sym (append-nil (if last == s then tmp else [])))
  contents-add_loop s (p ∷ ps) last tmp m v nz =
      elim (Bool-cases (ltb (seconds_of p.time_ns) first_second)) [
        | inl early ↦
            ap (contents s) (add_loop-early p ps last tmp m early)
            ∙ contents-add_loop s ps last tmp m v nz
            ∙ ap (λ t. contents s m ++ ((if last == s then tmp else []) ++ t))
                (ground (arith, early))
        | inr on_time ↦ elim (Bool-cases (ltb last_second (seconds_of p.time_ns))) [
          | inl late ↦
              ap (contents s) (add_loop-late p ps last tmp m on_time late)
              ∙ contents-store_pieces s last tmp m v nz
              ∙ ap (λ t. contents s m ++ t)
                  (sym (append-nil (if last == s then tmp else []))
                    ∙ ap (λ t. (if last == s then tmp else []) ++ t)
                        (ground (arith, on_time, late)))
          | inr within ↦ elim (Bool-cases (seconds_of p.time_ns == last)) [
            | inl same ↦
                ap (contents s) (add_loop-same p ps last tmp m on_time within same)
                ∙ contents-add_loop s ps last (tmp ++ tagged idx p ∷ []) m v nz
                ∙ (let joins = append_assoc tmp (tagged idx p ∷ []) (pieces_at s ps) in
                    ground (arith, on_time, within, same, joins))
            | inr other ↦
                ap (contents s) (add_loop-other p ps last tmp m on_time within other)
                ∙ contents-add_loop s ps (seconds_of p.time_ns) (tagged idx p ∷ [])
                    (store_pieces last tmp m) (store_pieces-Ascending last tmp m v) nz
                ∙ (let stored = contents-store_pieces s last tmp m v nz in
                    let joins = append_assoc (contents s m) (if last == s then tmp else []) in
                    let one = joins (pieces_at s ps) in
                    let two = joins (tagged idx p ∷ pieces_at s ps) in
                    ground (arith, on_time, within, other, stored, one, two))
          ]
        ]
      ]

-- The index under which `addRecords` adds the records of a stream.
abbrev pub index_of_stream : StreamsCombiner → Text → ℕ
index_of_stream c stream = (index_or_new stream c.indices (find_index stream c.indices)).0

module _ (seconds_of : ℕ → ℕ) (c : StreamsCombiner) (stream : Text) (ps : List DataPiece)
    (v : Ascending c.seconds) where
  -- The list stays in the order of its keys.
  add_records-Ascending : Ascending (add_records seconds_of c stream ps).seconds
  unfolding add_records
  add_records-Ascending =
      add_loop-Ascending seconds_of c.first_second c.last_second (index_of_stream c stream) ps 0 []
        c.seconds v

  -- With the seconds in ascending order, `addRecords` puts behind the records of each second other
  -- than 0 exactly the given records of that second, in their order and tagged with the index of
  -- the stream, leaving out those before the first second and all from the first one behind the
  -- last second on.
  pub contents-add_records :
      (s : ℕ)
      → s ≢ 0
      → contents s (add_records seconds_of c stream ps).seconds
        ≡ contents s c.seconds
          ++ pieces_at seconds_of c.first_second c.last_second (index_of_stream c stream) s ps
  unfolding add_records
  contents-add_records s nz =
      contents-add_loop seconds_of c.first_second c.last_second (index_of_stream c stream) s ps 0 []
        c.seconds v nz
      ∙ ground arith
