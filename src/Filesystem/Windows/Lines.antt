-- ===== src/Filesystem/Windows/Lines.antt =====
-- src/filesystem/mod.rs: CleanupReport, as the lines that make it.
use atomic_blob_storage.Base.{◌≡◌, refl, ap, List, [], ◌∷◌, ◌++◌, append-nil, append_assoc}
use atomic_blob_storage.Error.{Bytes, ErrorKind, IoError, CleanupFailure, CleanupReport}
use atomic_blob_storage.Filesystem.Windows.{add_failure, add_removed, add_skipped}

-- A line of a report.
pub data Line : Type 0 where
  removed : Bytes → Line
  skipped : Bytes → Line
  failed : Bytes → IoError → Line

abbrev pub removed_of : List Line → List Bytes
removed_of [] = []
removed_of (removed name ∷ l) = name ∷ removed_of l
removed_of (skipped name ∷ l) = removed_of l
removed_of (failed name e ∷ l) = removed_of l

abbrev pub skipped_of : List Line → List Bytes
skipped_of [] = []
skipped_of (removed name ∷ l) = skipped_of l
skipped_of (skipped name ∷ l) = name ∷ skipped_of l
skipped_of (failed name e ∷ l) = skipped_of l

abbrev pub failures_of : List Line → List CleanupFailure
failures_of [] = []
failures_of (removed name ∷ l) = failures_of l
failures_of (skipped name ∷ l) = failures_of l
failures_of (failed name e ∷ l) = record { identifier = name; source = e } ∷ failures_of l

abbrev pub report_of : List Line → CleanupReport
report_of l = record { removed = removed_of l; skipped = skipped_of l; failures = failures_of l }

-- "<directory-entry>"
abbrev pub unknown_entry : Bytes
unknown_entry =
    60 ∷ 100 ∷ 105 ∷ 114 ∷ 101 ∷ 99 ∷ 116 ∷ 111 ∷ 114 ∷ 121 ∷ 45 ∷ 101 ∷ 110 ∷ 116 ∷ 114 ∷ 121 ∷ 62
    ∷ []

abbrev pub other_error : IoError
other_error = record { kind = ErrorKind.other; raw_os_error = 0 }

abbrev pub extend : CleanupReport → List Line → CleanupReport
extend r l = record {
  removed = r.removed ++ removed_of l;
  skipped = r.skipped ++ skipped_of l;
  failures = r.failures ++ failures_of l;
}

pub extend-nil : (r : CleanupReport) → extend r [] ≡ r
extend-nil r = rw (append-nil r.removed, append-nil r.skipped, append-nil r.failures) refl

pub extend-removed :
    (r : CleanupReport) (name : Bytes) → extend r (removed name ∷ []) ≡ add_removed name r
extend-removed r name = rw (append-nil r.skipped, append-nil r.failures) refl

pub extend-skipped :
    (r : CleanupReport) (name : Bytes) → extend r (skipped name ∷ []) ≡ add_skipped name r
extend-skipped r name = rw (append-nil r.removed, append-nil r.failures) refl

pub extend-failed :
    (r : CleanupReport) (name : Bytes) (e : IoError)
    → extend r (failed name e ∷ []) ≡ add_failure name e r
extend-failed r name e = rw (append-nil r.removed, append-nil r.skipped) refl

removed_of-append : (l l' : List Line) → removed_of (l ++ l') ≡ removed_of l ++ removed_of l'
removed_of-append [] l' = refl
removed_of-append (removed name ∷ l) l' = ap (λ t. name ∷ t) (removed_of-append l l')
removed_of-append (skipped name ∷ l) l' = removed_of-append l l'
removed_of-append (failed name e ∷ l) l' = removed_of-append l l'

skipped_of-append : (l l' : List Line) → skipped_of (l ++ l') ≡ skipped_of l ++ skipped_of l'
skipped_of-append [] l' = refl
skipped_of-append (removed name ∷ l) l' = skipped_of-append l l'
skipped_of-append (skipped name ∷ l) l' = ap (λ t. name ∷ t) (skipped_of-append l l')
skipped_of-append (failed name e ∷ l) l' = skipped_of-append l l'

failures_of-append : (l l' : List Line) → failures_of (l ++ l') ≡ failures_of l ++ failures_of l'
failures_of-append [] l' = refl
failures_of-append (removed name ∷ l) l' = failures_of-append l l'
failures_of-append (skipped name ∷ l) l' = failures_of-append l l'
failures_of-append (failed name e ∷ l) l' =
    ap (λ t. record { identifier = name; source = e } ∷ t) (failures_of-append l l')

pub extend-append :
    (r : CleanupReport) (l l' : List Line) → extend (extend r l) l' ≡ extend r (l ++ l')
extend-append r l l' =
    rw
      (
        removed_of-append l l',
        skipped_of-append l l',
        failures_of-append l l',
        append_assoc r.removed (removed_of l) (removed_of l'),
        append_assoc r.skipped (skipped_of l) (skipped_of l'),
        append_assoc r.failures (failures_of l) (failures_of l'),
      )
      refl
