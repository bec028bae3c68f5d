-- ===== src/Tests/Disk.antt =====
-- A disk that never fails, for the theorems about src/filesystem/mod.rs: a file is what its path gives.
use atomic_blob_storage.Base.{
  ℕ, drop, ◌≡◌, ◌≢◌, refl, ap, sym, ◌∙◌, inl, inr, ◌↔◌, Bool, true, false, ◌&&◌, [], ◌∷◌, Option,
  none, some, bytes_eq, bytes_eq_iff, if◌then◌else◌, arith, Bool-cases, length,
}
use atomic_blob_storage.Error.{Bytes, FilePath, IoError, ErrorKind, Result, ok, err}
use atomic_blob_storage.Stream.{Reader}
use atomic_blob_storage.Stream.Laws.{content, from_bytes, from_bytes-Feeds}
use atomic_blob_storage.Filesystem.System.{System, IsSystem, Metadata, RenameError, noent, exist}

abbrev pub Disk : Type 0
Disk = FilePath → Option Bytes

abbrev pub path_eq : FilePath → FilePath → Bool
path_eq [] [] = true
path_eq [] (n ∷ p) = false
path_eq (n ∷ p) [] = false
path_eq (n ∷ p) (m ∷ q) = bytes_eq n m && path_eq p q

path_eq_iff : (p q : FilePath) → (path_eq p q ≡ true) ↔ (p ≡ q)
path_eq_iff [] [] = ((λ h. refl), (λ h. refl))
path_eq_iff [] (n ∷ p) = ((λ h. absurd (ground arith)), (λ h. absurd (ground arith)))
path_eq_iff (n ∷ p) [] = ((λ h. absurd (ground arith)), (λ h. absurd (ground arith)))
path_eq_iff (n ∷ p) (m ∷ q) = ground (arith, bytes_eq_iff n m, path_eq_iff p q)

abbrev pub put : FilePath → Option Bytes → Disk → Disk
put p o disk q = if path_eq q p then o else disk q

pub put-same : (p : FilePath) (o : Option Bytes) (disk : Disk) → put p o disk p ≡ o
put-same p o disk = ground (arith, (path_eq_iff p p).1 refl)

pub put-other : (p q : FilePath) (o : Option Bytes) (disk : Disk) → q ≢ p → put p o disk q ≡ disk q
put-other p q o disk h = elim (Bool-cases (path_eq q p)) [
  | inl e ↦ absurd (h ((path_eq_iff q p).0 e))
  | inr e ↦ ground arith
]

abbrev pub no_entry : IoError
no_entry = record { kind = ErrorKind.not_found; raw_os_error = 2 }

abbrev pub a_directory : Metadata
a_directory = record { is_dir = true; is_file = false; len = 0; modified = none }

abbrev metadata_of : Option Bytes → Result Metadata IoError
metadata_of none = err no_entry
metadata_of (some bs) =
    ok (record { is_dir = false; is_file = true; len = length bs; modified = none })

abbrev reader_of : Option Bytes → Result Reader IoError
reader_of none = err no_entry
reader_of (some bs) = ok (from_bytes bs)

abbrev reader_from : ℕ → Option Bytes → Result Reader IoError
reader_from n none = err no_entry
reader_from n (some bs) = ok (from_bytes (drop n bs))

abbrev removed_of : Option Bytes → Result (Unit {0}) IoError
removed_of none = err no_entry
removed_of (some bs) = ok tt

abbrev renamed_of : Option Bytes → Option Bytes → Result (Unit {0}) RenameError
renamed_of none there = err noent
renamed_of (some bs) none = ok tt
renamed_of (some bs) (some other) = err exist

abbrev moved_of : FilePath → FilePath → Option Bytes → Option Bytes → Disk → Disk
moved_of p q none there disk = disk
moved_of p q (some bs) none disk = put p none (put q (some bs) disk)
moved_of p q (some bs) (some other) disk = disk

abbrev removed_from : FilePath → Option Bytes → Disk → Disk
removed_from p none disk = disk
removed_from p (some bs) disk = put p none disk

abbrev pub drawn : Bytes
drawn =
    0 ∷ 8 ∷ 16 ∷ 24 ∷ 32 ∷ 40 ∷ 48 ∷ 56 ∷ 64 ∷ 72 ∷ 80 ∷ 88 ∷ 96 ∷ 104 ∷ 112 ∷ 120 ∷ 128 ∷ 136 ∷ 144
    ∷ 152 ∷ 160 ∷ 168 ∷ 176 ∷ 184 ∷ 192 ∷ 200 ∷ 208 ∷ 216 ∷ 224 ∷ 232 ∷ 240 ∷ 248 ∷ []

-- Drawing random bytes always gives the same 32.
abbrev pub disk_system : System Disk
disk_system = record {
  metadata = λ p disk. (ok a_directory, disk);
  symlink_metadata = λ p disk. (metadata_of (disk p), disk);
  current_dir = λ disk. (ok [], disk);
  create_dir = λ p disk. (ok tt, disk);
  open_dir = λ p disk. (ok tt, disk);
  sync_all = λ p disk. (ok tt, disk);
  remove_file = λ p disk. (removed_of (disk p), removed_from p (disk p) disk);
  open_file = λ p disk. (reader_of (disk p), disk);
  seek_start = λ p n disk. (reader_from n (disk p), disk);
  atomic_open = λ p disk. (ok (record { written = []; failures = [] }), disk);
  commit = λ p bs disk. (ok tt, put p (some bs) disk);
  rename_noreplace =
      λ p q disk. (renamed_of (disk p) (disk q), moved_of p q (disk p) (disk q) disk);
  random = λ disk. (ok drawn, disk);
}

abbrev pub whole : Disk → FilePath → Option Bytes
whole disk = disk

removed-ok :
    (p : FilePath) (o : Option Bytes) (disk : Disk)
    → disk p ≡ o
    → removed_of o ≡ ok tt
    → removed_from p o disk p ≡ none
removed-ok p none disk e h = absurd (ground arith)
removed-ok p (some bs) disk e h = put-same p none disk

removed-other :
    (p q : FilePath) (o : Option Bytes) (disk : Disk) → q ≢ p → removed_from p o disk q ≡ disk q
removed-other p q none disk h = refl
removed-other p q (some bs) disk h = put-other p q none disk h

removed-err :
    (p : FilePath) (o : Option Bytes) (disk : Disk) (e : IoError)
    → removed_of o ≡ err e
    → removed_from p o disk ≡ disk
removed-err p none disk e h = refl
removed-err p (some bs) disk e h = absurd (ground arith)

removed-missing : (o : Option Bytes) (e : IoError) → removed_of o ≡ err e → o ≡ none
removed-missing none e h = refl
removed-missing (some bs) e h = absurd (ground arith)

reader-ok : (o : Option Bytes) (r : Reader) → reader_of o ≡ ok r → o ≡ some (content r)
reader-ok none r h = absurd (ground arith)
reader-ok (some bs) r h =
    let same : from_bytes bs ≡ r = ground arith in
    ap some (sym (from_bytes-Feeds bs).1 ∙ ap content same)

reader_from-ok :
    (n : ℕ) (o : Option Bytes) (r : Reader) (bs : Bytes)
    → reader_from n o ≡ ok r
    → o ≡ some bs
    → content r ≡ drop n bs
reader_from-ok n none r bs h e = absurd (ground arith)
reader_from-ok n (some cs) r bs h e =
    let same : from_bytes (drop n cs) ≡ r = ground arith in
    let held : cs ≡ bs = ground arith in
    sym (ap content same) ∙ (from_bytes-Feeds (drop n cs)).1 ∙ ap (drop n) held

reader-missing : (o : Option Bytes) (e : IoError) → reader_of o ≡ err e → o ≡ none
reader-missing none e h = refl
reader-missing (some bs) e h = absurd (ground arith)

moved-ok :
    (p q : FilePath) (disk : Disk) (a b : Option Bytes)
    → disk p ≡ a
    → disk q ≡ b
    → renamed_of a b ≡ ok tt
    → (b ≡ none) × (moved_of p q a b disk q ≡ a) × (moved_of p q a b disk p ≡ none)
moved-ok p q disk none b e f h = absurd (ground arith)
moved-ok p q disk (some bs) (some other) e f h = absurd (ground arith)
moved-ok p q disk (some bs) none e f h =
    let apart : q ≢ p = λ same. absurd (ground (arith, ap disk same)) in
    (
      refl,
      put-other p q none (put q (some bs) disk) apart ∙ put-same q (some bs) disk,
      put-same p none (put q (some bs) disk),
    )

moved-other :
    (p q r : FilePath) (disk : Disk) (a b : Option Bytes)
    → r ≢ p
    → r ≢ q
    → moved_of p q a b disk r ≡ disk r
moved-other p q r disk none b h k = refl
moved-other p q r disk (some bs) (some other) h k = refl
moved-other p q r disk (some bs) none h k =
    put-other p r none (put q (some bs) disk) h ∙ put-other q r (some bs) disk k

moved-err :
    (p q : FilePath) (disk : Disk) (a b : Option Bytes) (e : RenameError)
    → renamed_of a b ≡ err e
    → moved_of p q a b disk ≡ disk
moved-err p q disk none b e h = refl
moved-err p q disk (some bs) (some other) e h = refl
moved-err p q disk (some bs) none e h = absurd (ground arith)

pub disk_system-IsSystem : IsSystem disk_system whole
disk_system-IsSystem = record {
  metadata-view = λ p w. refl;
  open_dir-view = λ p w. refl;
  sync_all-view = λ p w. refl;
  random-view = λ w. refl;
  remove-ok = λ p w h. removed-ok p (w p) w refl h;
  remove-other = λ p q w h. removed-other p q (w p) w h;
  remove-err = λ p w e h. removed-err p (w p) w e h;
  remove-missing = λ p w e h k. removed-missing (w p) e h;
  open_file-view = λ p w. refl;
  open_file-ok = λ p w r h clean. reader-ok (w p) r h;
  open_file-missing = λ p w e h k. reader-missing (w p) e h;
  seek_start-view = λ p n w. refl;
  seek_start-ok = λ p n w r bs h clean e. reader_from-ok n (w p) r bs h e;
  atomic_open-view = λ p w. refl;
  atomic_open-empty = λ p w x h. ground arith;
  commit-ok = λ p bs w h. put-same p (some bs) w;
  commit-old_or_new = λ p bs w. inr (put-same p (some bs) w);
  commit-other = λ p q bs w h. put-other p q (some bs) w h;
  rename-ok = λ p q w h. moved-ok p q w (w p) (w q) refl refl h;
  rename-other = λ p q r w h k. moved-other p q r w (w p) (w q) h k;
  rename-err = λ p q w e h. moved-err p q w (w p) (w q) e h;
}
