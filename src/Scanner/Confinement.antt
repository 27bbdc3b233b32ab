-- ===== src/Scanner/Confinement.antt =====
-- A request cannot leave the storage folder.
use tracebox.Prelude.{
  ◌≡◌, refl, sym, ap, ap₂, ◌∙◌, true, false, some, [], ◌∷◌, ◌++◌, arith, ◌↔◌, Option-cases, inl,
  inr, subst,
}
use tracebox.Bytes.{Text, text_eq, text_eq_sound, text_eq_refl}
use tracebox.Reader.IndexFile.{open_index, valid_index}
use tracebox.Reader.StreamReader.{idx_extension}
use tracebox.Scanner.{
  FilePath, is_within_root, has_rejected_component, has_byte, ScannerWorld, Requested,
  is_acceptable, confine, resolve_index_path,
}

-- `isWithinRoot` holds exactly if the candidate is the root followed by further components.
pub is_within_root_iff :
    (root candidate : FilePath)
    → (is_within_root root candidate ≡ true) ↔ ((rest : FilePath) × (candidate ≡ root ++ rest))
unfolding is_within_root
is_within_root_iff root candidate =
    (prefix root candidate, λ (rest, e). within root candidate rest e)
  where
    prefix :
        (root candidate : FilePath)
        → is_within_root root candidate ≡ true
        → (rest : FilePath) × (candidate ≡ root ++ rest)
    prefix [] candidate h = (candidate, refl)
    prefix (r ∷ root) [] h = cc
    prefix (r ∷ root) (c ∷ candidate) h =
        let same : text_eq r c ≡ true = ground arith in
        let more : is_within_root root candidate ≡ true = ground arith in
        let (rest, e) = prefix root candidate more in
        (rest, ap₂ ◌∷◌ (sym (text_eq_sound r c same)) e)

    reflexive : (root rest : FilePath) → is_within_root root (root ++ rest) ≡ true
    reflexive [] rest = refl
    reflexive (r ∷ root) rest = ground (arith, text_eq_refl r, reflexive root rest)

    within :
        (root candidate rest : FilePath)
        → candidate ≡ root ++ rest
        → is_within_root root candidate ≡ true
    within root candidate rest e = ap (is_within_root root) e ∙ reflexive root rest

-- What a resolved path is known to be.
pub record Confined (world : ScannerWorld) (root : FilePath) (file : Text) (requested : Requested)
    (path : FilePath) : Type 0 where
  pub inside : FilePath
  pub under_root : path ≡ root ++ inside
  pub regular : world.is_regular_file path ≡ true
  pub index :
      valid_index (open_index (world.reader.disk (world.as_text path)) world.reader.beyond_index)
      ≡ true
  pub asked : world.canonical (root ++ requested.components) ≡ some path
  pub not_absolute : requested.is_absolute ≡ false
  pub no_parent : has_rejected_component requested.components ≡ false
  pub extension : requested.extension ≡ idx_extension
  pub no_zero : has_byte 0 file ≡ false

confine-candidate :
    (world : ScannerWorld) (root candidate path : FilePath)
    → confine world root candidate ≡ some path
    → (candidate ≡ path)
      × (is_within_root root candidate ≡ true)
      × (world.is_regular_file candidate ≡ true)
      × (valid_index
            (open_index (world.reader.disk (world.as_text candidate)) world.reader.beyond_index)
          ≡ true)
unfolding confine
confine-candidate world root candidate path h = ground arith

abbrev Holds : ScannerWorld → FilePath → FilePath → Type 0
Holds world root path =
    (is_within_root root path ≡ true)
    × (world.is_regular_file path ≡ true)
    × (valid_index (open_index (world.reader.disk (world.as_text path)) world.reader.beyond_index)
        ≡ true)

confine-some :
    (world : ScannerWorld) (root candidate path : FilePath)
    → confine world root candidate ≡ some path
    → (candidate ≡ path) × Holds world root path
confine-some world root candidate path h =
    let c = confine-candidate world root candidate path h in
    (c.0, subst (Holds world root) c.0 (c.1, c.2, c.3))

is_acceptable-parts :
    (file : Text) (r : Requested)
    → is_acceptable file r ≡ true
    → (r.is_absolute ≡ false)
      × (has_rejected_component r.components ≡ false)
      × (text_eq r.extension idx_extension ≡ true)
      × (has_byte 0 file ≡ false)
unfolding is_acceptable
is_acceptable-parts file r h = ground arith

module _ (world : ScannerWorld) (parse : Text → Requested) (root : FilePath) (file : Text)
    (path : FilePath) where
  resolve_index_path-accepted :
      resolve_index_path world parse root file ≡ some path → is_acceptable file (parse file) ≡ true
  unfolding resolve_index_path
  resolve_index_path-accepted h = ground arith

  resolve_index_path-candidate :
      resolve_index_path world parse root file ≡ some path
      → (candidate : FilePath) × (world.canonical (root ++ (parse file).components)
          ≡ some candidate)
        × (confine world root candidate ≡ some path)
  unfolding resolve_index_path
  resolve_index_path-candidate h =
      elim (Option-cases (world.canonical (root ++ (parse file).components))) [
        | inl e ↦ absurd (ground arith)
        | inr (candidate, e) ↦ (candidate, e, ground arith)
      ]

  -- Every path that `resolveIndexPath` returns is the canonical form of the request under the
  -- storage folder, lies under that folder, and is a regular file with the header of an index; and
  -- the request is relative, has no `..` component, no zero byte and the extension of an index.
  pub resolve_index_path-Confined :
      resolve_index_path world parse root file ≡ some path
      → Confined world root file (parse file) path
  resolve_index_path-Confined h =
      let (candidate, canonical_is, confined) = resolve_index_path-candidate h in
      let (same, held) = confine-some world root candidate path confined in
      let (within, regular, index) = held in
      let (absolute, parent, extension, zero_byte) =
        is_acceptable-parts file (parse file) (resolve_index_path-accepted h) in
      let (rest, split) = (is_within_root_iff root path).0 within in
      record {
        inside = rest;
        under_root = split;
        regular = regular;
        index = index;
        asked = canonical_is ∙ ap some same;
        not_absolute = absolute;
        no_parent = parent;
        extension = text_eq_sound (parse file).extension idx_extension extension;
        no_zero = zero_byte;
      }
