-- ===== src/Combiner/Contents.antt =====
-- What is stored under each second.
use tracebox.Prelude.{
  ℕ, ◌<◌, ◌≡◌, ◌≢◌, refl, sym, ap, ◌∙◌, inl, inr, List, [], ◌∷◌, ◌++◌, append-nil, ltb, ◌==◌,
  if◌then◌else◌, arith, Bool-cases, All,
}
use tracebox.Reader.DataFile.{DataPiece}
use tracebox.Combiner.{Seconds, add_at, store_pieces}

-- The records of a second.
unfoldable pub contents : ℕ → Seconds → List DataPiece
contents s [] = []
contents s ((key, d) ∷ m) = let rest = contents s m in if key == s then d.pieces else rest

-- Every key is less than those behind it.
abbrev pub Ascending : Seconds → Type 0
Ascending [] = Unit
Ascending ((key, d) ∷ m) = All (λ e. key < e.0) m × Ascending m

All-less : (s key : ℕ) (m : Seconds) → s < key → All (λ e. key < e.0) m → All (λ e. s < e.0) m
All-less s key [] h v = tt
All-less s key ((k, d) ∷ m) h v = (omega (arith, h, v.0), All-less s key m h v.1)

contents-above : (s : ℕ) (m : Seconds) → All (λ e. s < e.0) m → contents s m ≡ []
unfolding contents
contents-above s [] v = refl
contents-above s ((k, d) ∷ m) v = let rest = contents-above s m v.1 in ground (arith, rest, v.0)

add_at-above :
    (low second : ℕ) (more : List DataPiece) (m : Seconds)
    → low < second
    → All (λ e. low < e.0) m
    → All (λ e. low < e.0) (add_at second more m)
unfolding add_at
add_at-above low second more [] h v = (h, tt)
add_at-above low second more ((k, d) ∷ m) h v =
    let rest = add_at-above low second more m h v.1 in
    elim (Bool-cases (k == second)) [
      | inl same ↦ rw same (v.0, v.1)
      | inr other ↦ elim (Bool-cases (ltb second k)) [
        | inl before ↦ rw other (rw before (h, (v.0, v.1)))
        | inr behind ↦ rw other (rw behind (v.0, rest))
      ]
    ]

add_at-Ascending :
    (second : ℕ) (more : List DataPiece) (m : Seconds)
    → Ascending m
    → Ascending (add_at second more m)
unfolding add_at
add_at-Ascending second more [] v = (tt, tt)
add_at-Ascending second more ((k, d) ∷ m) v = elim (Bool-cases (k == second)) [
  | inl same ↦ rw same (v.0, v.1)
  | inr other ↦ elim (Bool-cases (ltb second k)) [
    | inl before ↦
        let less : second < k = ground (arith, before) in
        rw other (rw before ((less, All-less second k m less v.0), (v.0, v.1)))
    | inr behind ↦
        let less : k < second = ground (arith, other, behind) in
        rw other
          (rw behind (add_at-above k second more m less v.0, add_at-Ascending second more m v.1))
  ]
]

contents-add_at :
    (s second : ℕ) (more : List DataPiece) (m : Seconds)
    → Ascending m
    → contents s (add_at second more m) ≡ contents s m ++ (if second == s then more else [])
unfolding add_at contents
contents-add_at s second more [] v = elim (Bool-cases (second == s)) [
  | inl same ↦ rw same refl
  | inr other ↦ rw other refl
]
contents-add_at s second more ((k, d) ∷ m) v =
    let rest = contents-add_at s second more m v.1 in
    let whole_d = append-nil d.pieces in
    let whole_m = append-nil (contents s m) in
    let above : second < k → contents second m ≡ [] =
      λ h. contents-above second m (All-less second k m h v.0) in
    elim (Bool-cases (second == s)) [
      | inr other ↦ ground (arith, rest, whole_d, whole_m, other)
      | inl same ↦
          let at_s : second ≡ s = ground (arith, same) in
          elim (Bool-cases (ltb second k)) [
            | inl before ↦
                let none_yet : contents s m ≡ [] =
                  ap (λ (t : ℕ). contents t m) (sym at_s) ∙ above (ground (arith, before)) in
                ground (arith, none_yet, at_s, before)
            | inr behind ↦ ground (arith, rest, at_s, behind)
          ]
    ]

pub store_pieces-Ascending :
    (second : ℕ) (more : List DataPiece) (m : Seconds)
    → Ascending m
    → Ascending (store_pieces second more m)
unfolding store_pieces
store_pieces-Ascending second [] m v = v
store_pieces-Ascending second (p ∷ ps) m v = elim (Bool-cases (second == 0)) [
  | inl zeroth ↦ rw zeroth v
  | inr later ↦ rw later (add_at-Ascending second (p ∷ ps) m v)
]

pub contents-store_pieces :
    (s second : ℕ) (more : List DataPiece) (m : Seconds)
    → Ascending m
    → s ≢ 0
    → contents s (store_pieces second more m) ≡ contents s m ++ (if second == s then more else [])
unfolding store_pieces
contents-store_pieces s second [] m v nz =
    let whole = append-nil (contents s m) in ground (arith, whole)
contents-store_pieces s second (p ∷ ps) m v nz =
    let added = contents-add_at s second (p ∷ ps) m v in
    let whole = append-nil (contents s m) in ground (arith, added, whole)
