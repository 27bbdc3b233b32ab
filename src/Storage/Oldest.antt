-- ===== src/Storage/Oldest.antt =====
-- `findOldest` finds the oldest day among the directories of the storage folder.
use tracebox.Prelude.{
  ◌≡◌, refl, sym, subst, ◌∙◌, Bool, true, false, ◌⊎◌, inl, inr, Option, none, some, List, [], ◌∷◌,
  ℤ, pos, negsuc, int_ltb, if◌then◌else◌, arith, All,
}
use tracebox.Storage.Filesystem.{Entry, stoi, older, oldest_from, find_oldest, max_day}

-- `a ≤ b`
abbrev pub AtMost : ℤ → ℤ → Type 0
AtMost a b = int_ltb b a ≡ false

AtMost-refl : (a : ℤ) → AtMost a a
AtMost-refl (pos n) = ground arith
AtMost-refl (negsuc n) = ground arith

AtMost-trans : (a b c : ℤ) → AtMost a b → AtMost b c → AtMost a c
AtMost-trans (pos a) (pos b) (pos c) h k = ground arith
AtMost-trans (pos a) (pos b) (negsuc c) h k = cc
AtMost-trans (pos a) (negsuc b) c h k = cc
AtMost-trans (negsuc a) b (pos c) h k = refl
AtMost-trans (negsuc a) (pos b) (negsuc c) h k = cc
AtMost-trans (negsuc a) (negsuc b) (negsuc c) h k = ground arith

AtMost-step : (day oldest : ℤ) → int_ltb day oldest ≡ true → AtMost day oldest
AtMost-step (pos a) (pos b) h = ground arith
AtMost-step (pos a) (negsuc b) h = cc
AtMost-step (negsuc a) (pos b) h = refl
AtMost-step (negsuc a) (negsuc b) h = ground arith

-- The day of an entry, if it is a directory whose name `stoi` reads.
abbrev pub day_of : Entry → Option ℤ
day_of e = if e.is_directory then stoi e.name else none

older-AtMost : (o : Option ℤ) (oldest : ℤ) → AtMost (older o oldest) oldest
older-AtMost none oldest = AtMost-refl oldest
older-AtMost (some day) oldest = by_test (int_ltb day oldest) refl
  where
    by_test : (t : Bool) → int_ltb day oldest ≡ t → AtMost (if t then day else oldest) oldest
    by_test true e = AtMost-step day oldest e
    by_test false e = AtMost-refl oldest

older-day : (day oldest : ℤ) → AtMost (older (some day) oldest) day
older-day day oldest = by_test (int_ltb day oldest) refl
  where
    by_test : (t : Bool) → int_ltb day oldest ≡ t → AtMost (if t then day else oldest) day
    by_test true e = AtMost-refl day
    by_test false e = e

-- The entry's own step, in one form for files and directories.
oldest_from-cons :
    (e : Entry) (es : List Entry) (oldest : ℤ)
    → oldest_from (e ∷ es) oldest ≡ oldest_from es (older (day_of e) oldest)
unfolding oldest_from
oldest_from-cons e es oldest = by_kind e.is_directory
  where
    by_kind :
        (d : Bool)
        → oldest_from es (if d then older (stoi e.name) oldest else oldest)
          ≡ oldest_from es (older (if d then stoi e.name else none) oldest)
    by_kind true = refl
    by_kind false = refl

oldest_from-AtMost : (es : List Entry) (oldest : ℤ) → AtMost (oldest_from es oldest) oldest
unfolding oldest_from
oldest_from-AtMost [] oldest = AtMost-refl oldest
oldest_from-AtMost (e ∷ es) oldest = rw (oldest_from-cons e es oldest) (
    AtMost-trans _ (older (day_of e) oldest) oldest
      (oldest_from-AtMost es (older (day_of e) oldest)) (older-AtMost (day_of e) oldest))

abbrev pub NotBefore : ℤ → Option ℤ → Type 0
NotBefore found none = Unit
NotBefore found (some day) = AtMost found day

oldest_from-NotBefore :
    (es : List Entry) (oldest : ℤ) → All (λ e. NotBefore (oldest_from es oldest) (day_of e)) es
oldest_from-NotBefore [] oldest = tt
oldest_from-NotBefore (e ∷ es) oldest =
    subst (λ z. All (λ x. NotBefore z (day_of x)) (e ∷ es)) (sym (oldest_from-cons e es oldest))
      (first (day_of e), oldest_from-NotBefore es (older (day_of e) oldest))
  where
    first : (o : Option ℤ) → NotBefore (oldest_from es (older o oldest)) o
    first none = tt
    first (some day) =
        AtMost-trans _ (older (some day) oldest) day
          (oldest_from-AtMost es (older (some day) oldest)) (older-day day oldest)

-- A day that some entry has.
abbrev pub Occurs : ℤ → List Entry → Type 0
Occurs day [] = ⊥
Occurs day (e ∷ es) = (day_of e ≡ some day) ⊎ Occurs day es

oldest_from-Occurs :
    (es : List Entry) (oldest : ℤ)
    → (oldest_from es oldest ≡ oldest) ⊎ Occurs (oldest_from es oldest) es
unfolding oldest_from
oldest_from-Occurs [] oldest = inl refl
oldest_from-Occurs (e ∷ es) oldest =
    subst (λ z. (z ≡ oldest) ⊎ Occurs z (e ∷ es)) (sym (oldest_from-cons e es oldest))
      (by_rest (oldest_from-Occurs es (older (day_of e) oldest)))
  where
    by_day : (o : Option ℤ) → (older o oldest ≡ oldest) ⊎ (o ≡ some (older o oldest))
    by_day none = inl refl
    by_day (some day) = by_test (int_ltb day oldest)
      where
        by_test :
            (t : Bool)
            → ((if t then day else oldest) ≡ oldest)
              ⊎ (◌≡◌ {A = Option ℤ} (some day) (some (if t then day else oldest)))
        by_test true = inr refl
        by_test false = inl refl

    by_rest :
        let found = oldest_from es (older (day_of e) oldest) in
        (found ≡ older (day_of e) oldest) ⊎ Occurs found es
        → (found ≡ oldest) ⊎ ((day_of e ≡ some found) ⊎ Occurs found es)
    by_rest (inr later) = inr (inr later)
    by_rest (inl same) = by_own (by_day (day_of e))
      where
        by_own :
            (older (day_of e) oldest ≡ oldest) ⊎ (day_of e ≡ some (older (day_of e) oldest))
            → let found = oldest_from es (older (day_of e) oldest) in
              (found ≡ oldest) ⊎ ((day_of e ≡ some found) ⊎ Occurs found es)
        by_own (inl old) = inl (same ∙ old)
        by_own (inr own) = inr (inl (cc own))

-- No directory whose name reads as a day is before the day that `findOldest` returns; and that is
-- `kMaxDay` or the day of some directory.
pub find_oldest-least :
    (es : List Entry)
    → All (λ e. NotBefore (find_oldest es) (day_of e)) es
      × ((find_oldest es ≡ max_day) ⊎ Occurs (find_oldest es) es)
unfolding find_oldest
find_oldest-least es = (oldest_from-NotBefore es max_day, oldest_from-Occurs es max_day)
