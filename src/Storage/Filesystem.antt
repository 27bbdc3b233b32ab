-- ===== src/Storage/Filesystem.antt =====
-- libs/log_writer/storage_management/storage_backend.{h,cpp}: `FilesystemStorageBackend`, over the
-- entries of the storage folder. `std::stoi` is the one of the C++ library.
use tracebox.Prelude.{
  ℕ, suc, ◌+◌, ◌-◌, ◌*◌, ◌^◌, ◌≤◌, ◌≡◌, refl, ap, Bool, true, false, ◌&&◌, ◌||◌, Option, none, some,
  List, [], ◌∷◌, ℤ, pos, negsuc, int_ltb, ltb, leb, ◌==◌, if◌then◌else◌, length, arith, inl, inr,
  ◌⊎◌,
}
use tracebox.Bytes.{Text, text_eq}
use tracebox.StreamWriter.{LogRequest, Outcome, to_string}
use tracebox.Folder.{Folder, FolderWorld, new_folder, same_day, write_folder}
use tracebox.Storage.{Backend, Removal, removed, nothing_left, throws}
use tracebox.Storage.Accounting.{Removes}

pub record FileEntry : Type 0 where
  pub is_directory : Bool
  pub size : ℕ

-- An entry of the storage folder; `files` is what a directory holds.
pub record Entry : Type 0 where
  pub name : Text
  pub is_directory : Bool
  pub files : List FileEntry

unfoldable pub sizes : List FileEntry → ℕ
sizes [] = 0
sizes (f ∷ fs) = (if f.is_directory then 0 else f.size) + sizes fs

-- `usedBytes`
unfoldable pub used_in : List Entry → ℕ
used_in [] = 0
used_in (e ∷ es) = (if e.is_directory then sizes e.files else 0) + used_in es

abbrev is_space : ℕ → Bool
is_space c = c == 32 || (leb 9 c && leb c 13)

abbrev pub is_digit : ℕ → Bool
is_digit c = leb b'0' c && leb c b'9'

unfoldable pub skip_spaces : Text → Text
skip_spaces [] = []
skip_spaces (c ∷ cs) = let rest = skip_spaces cs in if is_space c then rest else c ∷ cs

unfoldable pub digits_from : ℕ → Text → ℕ
digits_from acc [] = acc
digits_from acc (c ∷ cs) =
    let rest = digits_from (acc * 10 + (c - b'0')) cs in if is_digit c then rest else acc

-- An `int`, or out of range.
in_range : Bool → ℕ → Option ℤ
in_range negative n =
    if negative
    then (if leb n (2 ^ 31) then some (if n == 0 then pos 0 else negsuc (n - 1)) else none)
    else (if ltb n (2 ^ 31) then some (pos n) else none)

number_of : Bool → Text → Option ℤ
unfolding in_range digits_from
number_of negative [] = none
number_of negative (c ∷ cs) =
    if is_digit c then in_range negative (digits_from 0 (c ∷ cs)) else none

signed : Text → Option ℤ
unfolding number_of
signed [] = none
signed (c ∷ cs) =
    if c == b'-'
    then number_of true cs
    else (if c == b'+' then number_of false cs else number_of false (c ∷ cs))

-- `std::stoi`: the number that the text begins with, or an exception.
unfoldable pub stoi : Text → Option ℤ
unfolding signed skip_spaces
stoi text = signed (skip_spaces text)

-- `std::to_string` of an `int`
unfoldable pub int_string : ℤ → Text
int_string (pos n) = to_string n
int_string (negsuc n) = b'-' ∷ to_string (suc n)

abbrev pub max_day : ℤ
max_day = pos 99999999

-- `if (day < oldest) oldest = day;`, where an exception is ignored.
abbrev pub older : Option ℤ → ℤ → ℤ
older none oldest = oldest
older (some day) oldest = if int_ltb day oldest then day else oldest

-- The loop of `findOldest`.
unfoldable pub oldest_from : List Entry → ℤ → ℤ
oldest_from [] oldest = oldest
oldest_from (e ∷ es) oldest =
    oldest_from es (if e.is_directory then older (stoi e.name) oldest else oldest)

unfoldable pub find_oldest : List Entry → ℤ
find_oldest es = oldest_from es max_day

-- `deleteFolder`: the bytes freed and what is left; an exception if there is no such directory.
unfoldable pub delete_folder : Text → List Entry → Option (ℕ × List Entry)
delete_folder name [] = none
delete_folder name (e ∷ es) =
    let rest = behind e (delete_folder name es) in
    if text_eq e.name name
    then (if e.is_directory then some (sizes e.files, es) else none)
    else rest
  where
    behind : Entry → Option (ℕ × List Entry) → Option (ℕ × List Entry)
    behind e none = none
    behind e (some (freed, es)) = some (freed, e ∷ es)

-- `oldest == kMaxDay`
abbrev pub is_max_day : ℤ → Bool
is_max_day (pos n) = n == 99999999
is_max_day (negsuc n) = false

abbrev pub removal_of : List Entry → Option (ℕ × List Entry) → List Entry × Removal
removal_of es none = (es, throws)
removal_of es (some (freed, left)) = (left, removed freed)

unfoldable pub remove_oldest : List Entry → List Entry × Removal
remove_oldest es =
    if is_max_day (find_oldest es)
    then (es, nothing_left)
    else removal_of es (delete_folder (int_string (find_oldest es)) es)

-- `write`: a request of another day than the folder's gets a new folder.
unfoldable pub write_day : FolderWorld → Text → Folder → LogRequest → Folder × Outcome
write_day env path f request =
    if same_day env.local_date f request.time_ns
    then write_folder env f request
    else write_folder env (new_folder path) request

-- The backend over a storage folder: the entries that a call finds there, and the open folder.
-- `env` is what a write meets outside, and `after` the entries as it leaves them.
abbrev pub filesystem :
    Text → FolderWorld → (List Entry → LogRequest → Outcome → List Entry) → Backend
filesystem path env after = record {
  State = List Entry × Folder;
  used_bytes = λ s. used_in s.0;
  remove_oldest = λ s. (((remove_oldest s.0).0, s.1), (remove_oldest s.0).1);
  write = λ s request.
      let (f, out) = write_day env path s.1 request in ((after s.0 request out, f), out);
}

-- What is deleted is what was counted.
delete_folder-used :
    (name : Text) (es left : List Entry) (freed : ℕ)
    → delete_folder name es ≡ some (freed, left)
    → (used_in left + freed ≡ used_in es) × (suc (length left) ≡ length es)
unfolding delete_folder used_in
delete_folder-used name [] left freed e = cc
delete_folder-used name (x ∷ es) left freed e =
    by_rest (delete_folder name es) refl (delete_folder-used name es)
  where
    by_rest :
        (r : Option (ℕ × List Entry))
        → delete_folder name es ≡ r
        → ((more : List Entry) (n : ℕ)
            → delete_folder name es ≡ some (n, more)
            → (used_in more + n ≡ used_in es) × (suc (length more) ≡ length es))
        → (used_in left + freed ≡ used_in (x ∷ es)) × (suc (length left) ≡ length (x ∷ es))
    by_rest none q ih = ground arith
    by_rest (some (n, more)) q ih = ground (
      arith,
      ih more n q,
      ap used_in {x = left} {y = x ∷ more},
      ap length {x = left} {y = x ∷ more},
    )

removal_of-used :
    (name : Text) (es : List Entry) (freed : ℕ) (r : Option (ℕ × List Entry))
    → delete_folder name es ≡ r
    → (removal_of es r).1 ≡ removed freed
    → (used_in (removal_of es r).0 + freed ≡ used_in es)
      × (suc (length (removal_of es r).0) ≤ length es)
removal_of-used name es freed none q e = cc
removal_of-used name es freed (some (n, left)) q e =
    let same : n ≡ freed = cc e in omega (arith, delete_folder-used name es left n q, same)

-- When `removeOldest` reports a number of freed bytes, `usedBytes` is less by exactly that number,
-- and the storage folder has at least one entry less.
pub remove_oldest-used :
    (es : List Entry) (freed : ℕ)
    → (remove_oldest es).1 ≡ removed freed
    → (used_in (remove_oldest es).0 + freed ≡ used_in es)
      × (suc (length (remove_oldest es).0) ≤ length es)
unfolding remove_oldest
remove_oldest-used es freed = by_test (is_max_day (find_oldest es))
  where
    by_test :
        (t : Bool)
        → let r : List Entry × Removal =
            if t
            then (es, nothing_left)
            else removal_of es (delete_folder (int_string (find_oldest es)) es) in
          r.1 ≡ removed freed → (used_in r.0 + freed ≡ used_in es) × (suc (length r.0) ≤ length es)
    by_test true e = cc
    by_test false e = removal_of-used (int_string (find_oldest es)) es freed _ refl e

-- A call that removes nothing leaves the entries as they are.
pub remove_oldest-keeps :
    (es : List Entry)
    → ((remove_oldest es).1 ≡ nothing_left) ⊎ ((remove_oldest es).1 ≡ throws)
    → (remove_oldest es).0 ≡ es
unfolding remove_oldest
remove_oldest-keeps es =
    by_test (is_max_day (find_oldest es)) (delete_folder (int_string (find_oldest es)) es)
  where
    by_test :
        (t : Bool) (d : Option (ℕ × List Entry))
        → let r : List Entry × Removal = if t then (es, nothing_left) else removal_of es d in
          (r.1 ≡ nothing_left) ⊎ (r.1 ≡ throws) → r.0 ≡ es
    by_test true d e = refl
    by_test false none e = refl
    by_test false (some (n, left)) (inl e) = cc
    by_test false (some (n, left)) (inr e) = cc

-- The file system keeps the laws of a backend.
pub filesystem-Removes :
    (path : Text) (env : FolderWorld) (after : List Entry → LogRequest → Outcome → List Entry)
    → Removes (filesystem path env after)
filesystem-Removes path env after = record {
  days = λ s. length s.0;
  frees = λ s freed e. (remove_oldest-used s.0 freed e).0;
  fewer = λ s freed e. (remove_oldest-used s.0 freed e).1;
  stays = λ s e. ap (λ (es : List Entry). (es, s.1)) (remove_oldest-keeps s.0 (inl e));
  breaks = λ s e. ap (λ (es : List Entry). (es, s.1)) (remove_oldest-keeps s.0 (inr e));
}
