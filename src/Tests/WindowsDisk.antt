-- ===== src/Tests/WindowsDisk.antt =====
-- A disk of Windows whose calls fail only for a file that is missing or in the way, for the theorems
-- about src/filesystem/mod.rs: a file is what the list of its wide path alone gives.
use atomic_blob_storage.Base.{
  ℕ, ◌≡◌, ◌≢◌, refl, ap, sym, ◌∙◌, Bool, true, false, List, [], ◌∷◌, ◌++◌, Option, none, some,
  arith,
}
use atomic_blob_storage.Error.{Bytes, FilePath, IoError, ErrorKind, ok, err}
use atomic_blob_storage.Stream.{Writer}
use atomic_blob_storage.Filesystem.Windows.{WindowsSystem}
use atomic_blob_storage.Filesystem.Windows.Api.{IsWindows}
use atomic_blob_storage.Tests.Disk.{no_entry, Disk, disk_system, put, put-same, put-other}

-- The path of a file of the disk, by its wide path.
abbrev at : List ℕ → FilePath
at u = u ∷ []

abbrev head_or_nil : FilePath → List ℕ
head_or_nil [] = []
head_or_nil (u ∷ p) = u

at-injective : (u v : List ℕ) → at u ≡ at v → u ≡ v
at-injective u v h = ap head_or_nil h

abbrev pub files : Disk → List ℕ → Option Bytes
files disk u = disk (at u)

abbrev pub set : List ℕ → Option Bytes → Disk → Disk
set u o disk = put (at u) o disk

set-other :
    (u v : List ℕ) (o : Option Bytes) (disk : Disk) → v ≢ u → files (set u o disk) v ≡ files disk v
set-other u v o disk h = put-other (at u) (at v) o disk (λ e. h (at-injective v u e))

abbrev created_of : List ℕ → Option Bytes → Disk → Option Writer × Disk
created_of u none disk = (some (record { written = []; failures = [] }), set u (some []) disk)
created_of u (some bs) disk = (none, disk)

abbrev deleted_of : List ℕ → Option Bytes → Disk → ℕ × Disk
deleted_of u none disk = (0, disk)
deleted_of u (some bs) disk = (1, set u none disk)

abbrev moved_by : List ℕ → List ℕ → Bool → Option Bytes → Option Bytes → Disk → ℕ × Disk
moved_by u v replace none there disk = (0, disk)
moved_by u v replace (some bs) none disk = (1, set u none (set v (some bs) disk))
moved_by u v false (some bs) (some other) disk = (0, disk)
moved_by u v true (some bs) (some other) disk = (1, set u none (set v (some bs) disk))

-- ERROR_ALREADY_EXISTS
abbrev in_the_way : IoError
in_the_way = record { kind = ErrorKind.already_exists; raw_os_error = 183 }

abbrev joined : FilePath → List ℕ
joined [] = []
joined (name ∷ path) = name ++ (92 ∷ joined path)

-- The only failing calls are creations and moves on a name in use.
abbrev pub windows_disk : WindowsSystem Disk
windows_disk = record {
  read_dir = λ p w. (ok [], w);
  symlink_metadata = λ p w. (err no_entry, w);
  absolute = λ p w. (ok p, w);
  encode_wide = joined;
  system_time = λ w. (some (1, 0), w);
  create_new = λ u w. created_of u (files w u) w;
  write_back = λ u bs w. set u (some bs) w;
  open_directory = λ u w. (true, w);
  open_attributes = λ u w. (true, w);
  flush_file_buffers = λ u w. (1, w);
  set_file_time = λ u low high w. (1, w);
  move_file_ex_w = λ u v replace w. moved_by u v replace (files w u) (files w v) w;
  delete_file_w = λ u w. deleted_of u (files w u) w;
  last_os_error = λ w. in_the_way;
  error_file_exists = 80;
  error_already_exists = 183;
}

created-other :
    (u v : List ℕ) (o : Option Bytes) (disk : Disk)
    → v ≢ u
    → files (created_of u o disk).1 v ≡ files disk v
created-other u v none disk h = set-other u v (some []) disk h
created-other u v (some bs) disk h = refl

created-ok :
    (u : List ℕ) (o : Option Bytes) (disk : Disk) (x : Writer)
    → files disk u ≡ o
    → (created_of u o disk).0 ≡ some x
    → (files disk u ≡ none) × (x.written ≡ [])
created-ok u none disk x e h = (e, ground arith)
created-ok u (some bs) disk x e h = absurd (ground arith)

created-err :
    (u : List ℕ) (o : Option Bytes) (disk : Disk)
    → (created_of u o disk).0 ≡ none
    → files (created_of u o disk).1 ≡ files disk
created-err u none disk h = absurd (ground arith)
created-err u (some bs) disk h = refl

deleted-other :
    (u v : List ℕ) (o : Option Bytes) (disk : Disk)
    → v ≢ u
    → files (deleted_of u o disk).1 v ≡ files disk v
deleted-other u v none disk h = refl
deleted-other u v (some bs) disk h = set-other u v none disk h

deleted-ok :
    (u : List ℕ) (o : Option Bytes) (disk : Disk)
    → (deleted_of u o disk).0 ≢ 0
    → files (deleted_of u o disk).1 u ≡ none
deleted-ok u none disk h = absurd (h refl)
deleted-ok u (some bs) disk h = put-same (at u) none disk

-- A move that was made.
carried :
    (u v : List ℕ) (bs : Bytes) (disk : Disk)
    → u ≢ v
    → files disk u ≡ some bs
    → (files (set u none (set v (some bs) disk)) v ≡ files disk u)
      × (files (set u none (set v (some bs) disk)) u ≡ none)
carried u v bs disk h e = (
  set-other u v none (set v (some bs) disk) (λ p. h (sym p))
      ∙ put-same (at v) (some bs) disk
      ∙ sym e,
  put-same (at u) none (set v (some bs) disk),
)

moved-ok :
    (u v : List ℕ) (replace : Bool) (o there : Option Bytes) (disk : Disk)
    → u ≢ v
    → files disk u ≡ o
    → (moved_by u v replace o there disk).0 ≢ 0
    → (files (moved_by u v replace o there disk).1 v ≡ files disk u)
      × (files (moved_by u v replace o there disk).1 u ≡ none)
moved-ok u v replace none there disk d e h = absurd (h refl)
moved-ok u v replace (some bs) none disk d e h = carried u v bs disk d e
moved-ok u v false (some bs) (some other) disk d e h = absurd (h refl)
moved-ok u v true (some bs) (some other) disk d e h = carried u v bs disk d e

moved-free :
    (u v : List ℕ) (o there : Option Bytes) (disk : Disk)
    → files disk v ≡ there
    → (moved_by u v false o there disk).0 ≢ 0
    → files disk v ≡ none
moved-free u v none there disk e h = absurd (h refl)
moved-free u v (some bs) none disk e h = e
moved-free u v (some bs) (some other) disk e h = absurd (h refl)

left_alone :
    (u v x : List ℕ) (bs : Bytes) (disk : Disk)
    → x ≢ u
    → x ≢ v
    → files (set u none (set v (some bs) disk)) x ≡ files disk x
left_alone u v x bs disk a b =
    set-other u x none (set v (some bs) disk) a ∙ set-other v x (some bs) disk b

moved-other :
    (u v x : List ℕ) (replace : Bool) (o there : Option Bytes) (disk : Disk)
    → x ≢ u
    → x ≢ v
    → files (moved_by u v replace o there disk).1 x ≡ files disk x
moved-other u v x replace none there disk a b = refl
moved-other u v x replace (some bs) none disk a b = left_alone u v x bs disk a b
moved-other u v x false (some bs) (some other) disk a b = refl
moved-other u v x true (some bs) (some other) disk a b = left_alone u v x bs disk a b

moved-err :
    (u v : List ℕ) (replace : Bool) (o there : Option Bytes) (disk : Disk)
    → (moved_by u v replace o there disk).0 ≡ 0
    → files (moved_by u v replace o there disk).1 ≡ files disk
moved-err u v replace none there disk h = refl
moved-err u v replace (some bs) none disk h = absurd (ground arith)
moved-err u v false (some bs) (some other) disk h = refl
moved-err u v true (some bs) (some other) disk h = absurd (ground arith)

pub windows_disk-IsWindows : IsWindows disk_system windows_disk files
windows_disk-IsWindows = record {
  metadata-view = λ p w. refl;
  random-view = λ w. refl;
  system_time-view = λ w. refl;
  open_directory-view = λ u w. refl;
  open_attributes-view = λ u w. refl;
  flush-view = λ u w. refl;
  set_file_time-view = λ u low high w. refl;
  create_new-other = λ u v w h. created-other u v (files w u) w h;
  create_new-ok = λ u w x h. created-ok u (files w u) w x refl h;
  create_new-err = λ u w h. created-err u (files w u) w h;
  write_back-same = λ u bs w. put-same (at u) (some bs) w;
  write_back-other = λ u v bs w h. set-other u v (some bs) w h;
  move-ok = λ u v replace w d h. moved-ok u v replace (files w u) (files w v) w d refl h;
  move-free = λ u v w d h. moved-free u v (files w u) (files w v) w refl h;
  move-other = λ u v x replace w a b. moved-other u v x replace (files w u) (files w v) w a b;
  move-err = λ u v replace w h. moved-err u v replace (files w u) (files w v) w h;
  delete-other = λ u v w h. deleted-other u v (files w u) w h;
  delete-ok = λ u w h. deleted-ok u (files w u) w h;
  open_attributes-missing = λ u w h. absurd (ground arith);
  move-missing = λ directory name name' w h g. absurd (ground arith);
  set_file_time-found = λ u low high w h. refl;
  flush-found = λ u w h. refl;
}
