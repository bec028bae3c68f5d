-- ===== src/Filesystem/Windows/Treated.antt =====
-- src/filesystem/mod.rs on Windows: what cleanup_stale_files does to each entry of a namespace.
use atomic_blob_storage.Base.{
  ℕ, ◌+◌, ◌≤◌, ◌≡◌, refl, ap, sym, ◌∙◌, Bool, true, false, not, List, [], ◌∷◌, ◌++◌, Option, none,
  some, arith, if_cases, if◌then◌else◌,
}
use atomic_blob_storage.Error.{Bytes, FilePath, IoError, CleanupReport, Result, ok, err}
use atomic_blob_storage.Config.{StoreConfig}
use atomic_blob_storage.Filesystem.System.{Metadata}
use atomic_blob_storage.Filesystem.Names.{is_owned_temporary_filename}
use atomic_blob_storage.Filesystem.Windows.{
  WindowsSystem, delete_file, clean_file, clean_entry, clean_entries, add_failure, add_removed,
  old_enough,
}
use atomic_blob_storage.Filesystem.Windows.Lines.{
  Line, removed, skipped, failed, report_of, unknown_entry, other_error, extend, extend-nil,
  extend-removed, extend-skipped, extend-failed, extend-append,
}

module _ {W : Type 0} (os : WindowsSystem W) (config : StoreConfig) (now minimum_age : ℕ) where
  abbrev pub path : Bytes → FilePath
  path name = config.namespace ++ (name ∷ [])

  -- A file whose time of modification is known, and at least the minimum age ago.
  abbrev pub IsOld : Metadata → Type 0
  IsOld m = (time : ℕ) × (m.modified ≡ some time) × (time + minimum_age ≤ now)

  abbrev pub is_owned : Bytes → Bool
  is_owned name = is_owned_temporary_filename name config.format.filename_suffix

  -- What one entry comes to: the lines it makes, and the state after it.
  pub data Treats : Result Bytes IoError → W → List Line → W → Type 0 where
    unreadable : (e : IoError) (w : W) → Treats (err e) w (failed unknown_entry e ∷ []) w
    foreign : (name : Bytes) (w : W) → is_owned name ≡ false → Treats (ok name) w [] w
    unseen :
        (name : Bytes) (w : W) (e : IoError)
        → is_owned name ≡ true
        → (os.symlink_metadata (path name) w).0 ≡ err e
        → Treats (ok name) w (failed name e ∷ []) (os.symlink_metadata (path name) w).1
    irregular :
        (name : Bytes) (w : W) (m : Metadata)
        → is_owned name ≡ true
        → (os.symlink_metadata (path name) w).0 ≡ ok m
        → m.is_file ≡ false
        → Treats (ok name) w (failed name other_error ∷ []) (os.symlink_metadata (path name) w).1
    young :
        (name : Bytes) (w : W) (m : Metadata)
        → is_owned name ≡ true
        → (os.symlink_metadata (path name) w).0 ≡ ok m
        → m.is_file ≡ true
        → ¬ IsOld m
        → Treats (ok name) w (skipped name ∷ []) (os.symlink_metadata (path name) w).1
    deleted :
        (name : Bytes) (w : W) (m : Metadata)
        → is_owned name ≡ true
        → (os.symlink_metadata (path name) w).0 ≡ ok m
        → m.is_file ≡ true
        → IsOld m
        → (delete_file os (path name) (os.symlink_metadata (path name) w).1).0 ≡ ok tt
        → Treats
            (ok name)
            w
            (removed name ∷ [])
            (delete_file os (path name) (os.symlink_metadata (path name) w).1).1
    undeleted :
        (name : Bytes) (w : W) (m : Metadata) (e : IoError)
        → is_owned name ≡ true
        → (os.symlink_metadata (path name) w).0 ≡ ok m
        → m.is_file ≡ true
        → IsOld m
        → (delete_file os (path name) (os.symlink_metadata (path name) w).1).0 ≡ err e
        → Treats
            (ok name)
            w
            (failed name e ∷ [])
            (delete_file os (path name) (os.symlink_metadata (path name) w).1).1

  -- The entries one after the other.
  pub data TreatsAll : List (Result Bytes IoError) → W → List Line → W → Type 0 where
    nothing_left : (w : W) → TreatsAll [] w [] w
    and_then :
        (entry : Result Bytes IoError) (entries : List (Result Bytes IoError)) (l l' : List Line)
        (w w1 w2 : W)
        → Treats entry w l w1
        → TreatsAll entries w1 l' w2
        → TreatsAll (entry ∷ entries) w (l ++ l') w2

  old_enough-IsOld : (m : Metadata) → old_enough now minimum_age m.modified ≡ true → IsOld m
  old_enough-IsOld m h = go m.modified refl h
    where
      go : (o : Option ℕ) → m.modified ≡ o → old_enough now minimum_age o ≡ true → IsOld m
      go none e h = absurd (ground arith)
      go (some time) e h = (time, e, ground arith)

  young-IsOld : (m : Metadata) → old_enough now minimum_age m.modified ≡ false → ¬ IsOld m
  young-IsOld m h (time, e, old) = ground arith

  -- Some lines extend the report, and they are those of the entry.
  abbrev Extends : Result Bytes IoError → W → CleanupReport → CleanupReport × W → Type 0
  Extends entry w r out = (l : List Line) × (out.0 ≡ extend r l) × Treats entry w l out.1

  clean_file-Extends :
      (name : Bytes) (m : Metadata) (r : CleanupReport) (w : W)
      → is_owned name ≡ true
      → (os.symlink_metadata (path name) w).0 ≡ ok m
      → m.is_file ≡ true
      → Extends
          (ok name)
          w
          r
          (clean_file os config now minimum_age name m r (os.symlink_metadata (path name) w).1)
  unfolding clean_file
  clean_file-Extends name m r w owned seen file =
      if_cases (λ (out : CleanupReport × W). Extends (ok name) w r out)
        (old_enough now minimum_age m.modified) _ _
        (λ old.
          go (old_enough-IsOld m old)
            (delete_file os (path name) (os.symlink_metadata (path name) w).1).0 refl)
        (λ recent.
          (_, sym (extend-skipped r name), young name w m owned seen file (young-IsOld m recent)))
    where
      go :
          IsOld m
          → (d : Result (Unit {0}) IoError)
          → (delete_file os (path name) (os.symlink_metadata (path name) w).1).0 ≡ d
          → Extends (ok name) w r (elim d as (λ _. CleanupReport × W) [
            | ok _ ↦ (
              add_removed name r,
              (delete_file os (path name) (os.symlink_metadata (path name) w).1).1,
            )
            | err e ↦ (
              add_failure name e r,
              (delete_file os (path name) (os.symlink_metadata (path name) w).1).1,
            )
          ])
      go old (ok u) e = (_, sym (extend-removed r name), deleted name w m owned seen file old e)
      go old (err x) e =
          (_, sym (extend-failed r name x), undeleted name w m x owned seen file old e)

  clean_entry-Extends :
      (entry : Result Bytes IoError) (r : CleanupReport) (w : W)
      → Extends entry w r (clean_entry os config now minimum_age entry r w)
  unfolding clean_entry
  clean_entry-Extends (err e) r w = (_, sym (extend-failed r unknown_entry e), unreadable e w)
  clean_entry-Extends (ok name) r w =
      if_cases (λ (out : CleanupReport × W). Extends (ok name) w r out) (not (is_owned name)) _ _
        (λ other. ([], sym (extend-nil r), foreign name w (ground arith)))
        (λ own. go (ground arith) (os.symlink_metadata (path name) w).0 refl)
    where
      go :
          is_owned name ≡ true
          → (found : Result Metadata IoError) → (os.symlink_metadata (path name) w).0 ≡ found
          → Extends (ok name) w r (elim found as (λ _. CleanupReport × W) [
            | err e ↦ (add_failure name e r, (os.symlink_metadata (path name) w).1)
            | ok m ↦
                if m.is_file
                then clean_file os config now minimum_age name m r
                    (os.symlink_metadata (path name) w).1
                else (add_failure name other_error r, (os.symlink_metadata (path name) w).1)
          ])
      go owned (err e) seen = (_, sym (extend-failed r name e), unseen name w e owned seen)
      go owned (ok m) seen =
          if_cases (λ (out : CleanupReport × W). Extends (ok name) w r out) m.is_file _ _
            (λ file. clean_file-Extends name m r w owned seen file)
            (λ other.
              (_, sym (extend-failed r name other_error), irregular name w m owned seen other))

  clean_entries-TreatsAll :
      (entries : List (Result Bytes IoError)) (r : CleanupReport) (w : W)
      → (l : List Line) × ((clean_entries os config now minimum_age entries r w).0 ≡ extend r l)
        × TreatsAll entries w l (clean_entries os config now minimum_age entries r w).1
  unfolding clean_entries
  clean_entries-TreatsAll [] r w = ([], sym (extend-nil r), nothing_left w)
  clean_entries-TreatsAll (entry ∷ entries) r w =
      let out = clean_entry os config now minimum_age entry r w in
      let (l, e, one) = clean_entry-Extends entry r w in
      let (l', e', rest) = clean_entries-TreatsAll entries out.0 out.1 in
      (
        l ++ l',
        e' ∙ ap (λ t. extend t l') e ∙ extend-append r l l',
        and_then entry entries l l' w out.1 _ one rest,
      )

  pub clean_entries-report_of :
      (entries : List (Result Bytes IoError)) (w : W)
      → (l : List Line) × ((clean_entries os config now minimum_age entries
            (record { removed = []; skipped = []; failures = [] })
            w).0
          ≡ report_of l)
        × TreatsAll entries w l
            (clean_entries os config now minimum_age entries
              (record { removed = []; skipped = []; failures = [] })
              w).1
  clean_entries-report_of entries w =
      clean_entries-TreatsAll entries (record { removed = []; skipped = []; failures = [] }) w
