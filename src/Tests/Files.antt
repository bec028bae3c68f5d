-- ===== src/Tests/Files.antt =====
-- src/filesystem/mod.rs on a disk that never fails, and the theorems about it at such inputs.
use atomic_blob_storage.Base.{
  ◌≡◌, refl, inl, true, List, [], ◌∷◌, ◌++◌, length, none, some, arith, to_be, drop, false,
}
use atomic_blob_storage.Error.{Bytes, FilePath, QuarantineInfo, ok, Outcome, IoError, Result, err}
use atomic_blob_storage.Config.{StoreConfig, is_suffix_byte}
use atomic_blob_storage.Stream.{byte, split, Reader, ready, read, write_all}
use atomic_blob_storage.Stream.Laws.{content, from_bytes}
use atomic_blob_storage.Format.Encode.{
  SaveStreamMessage, chunk, complete, envelope_header, envelope_parts, write_chunks,
  write_stream_envelope,
}
use atomic_blob_storage.Filesystem.Names.{
  hex, is_hex_byte, is_owned_temporary_filename, stem, staging_name, save_kind,
}
use atomic_blob_storage.Filesystem.Names.Laws.{staging_name-owned, stem-blob}
use atomic_blob_storage.Filesystem.Unix.{
  save_blob, save_blob_from_receiver, clear_blob, quarantine_blob, random_identifier,
}
use atomic_blob_storage.Format.Agree.{metadata}
use atomic_blob_storage.Filesystem.Load.{load_blob, load_blob_into_sender}
use atomic_blob_storage.Filesystem.Contents.Streamed.{joined, load_blob_into_sender-sends}
use atomic_blob_storage.Filesystem.Contents.Envelopes.{IsEnvelope, IsStreamed}
use atomic_blob_storage.Filesystem.Contents.Saved.{
  Replaces, save_blob-Replaces, save_blob_from_receiver-Replaces, load_blob-save_blob,
}
use atomic_blob_storage.Filesystem.Contents.Removed.{Removes, clear_blob-Removes}
use atomic_blob_storage.Filesystem.Contents.Quarantined.{Quarantines, quarantine_blob-Quarantines}
use atomic_blob_storage.Format.Layout.{layout}
use atomic_blob_storage.Blocking.{save_from, send_chunks}
use atomic_blob_storage.Blocking.Stored.{save_blob_from_receiver-save_from}
use atomic_blob_storage.Filesystem.Windows.{WindowsSystem, wide_path}
use atomic_blob_storage.Filesystem.Windows.Paths.{IsExtended, wide_path-Extends, Extends}
use atomic_blob_storage.Tests.Castagnoli.{castagnoli, castagnoli-IsCrc32c, append}
use atomic_blob_storage.Tests.Samples.{identity, abc, fixture, blob_suffix}
use atomic_blob_storage.Tests.Envelopes.{identity-IsValid}
use atomic_blob_storage.Tests.Disk.{
  no_entry, Disk, disk_system, whole, disk_system-IsSystem, drawn, put,
}

abbrev config : StoreConfig
config = record {
  namespace = (b'n' ∷ []) ∷ [];
  format = identity;
  maximum = 1024;
  max_concurrent_operations = 2;
}

-- "k.blob" in the namespace "n"
abbrev path : FilePath
path = (b'n' ∷ []) ∷ (b'k' ∷ blob_suffix) ∷ []

abbrev empty_disk : Disk
empty_disk p = none

abbrev full_disk : Disk
full_disk = put path (some fixture) empty_disk

save_abc : (save_blob disk_system castagnoli config path abc empty_disk).0 ≡ ok tt
unfolding save_blob envelope_parts envelope_header write_all append
save_abc = refl

open_abc :
    (disk_system.open_file path (save_blob disk_system castagnoli config path abc empty_disk).1).0
    ≡ ok (from_bytes fixture)
unfolding save_blob envelope_parts envelope_header write_all append to_be
open_abc = refl

save_blob-Replaces_example :
    Replaces whole path
      (IsEnvelope castagnoli config abc)
      full_disk
      (save_blob disk_system castagnoli config path abc full_disk)
save_blob-Replaces_example =
    save_blob-Replaces disk_system whole disk_system-IsSystem castagnoli castagnoli-IsCrc32c config
      path abc full_disk (omega arith)

abbrev messages : List SaveStreamMessage
messages = chunk (b'a' ∷ []) ∷ chunk (b'b' ∷ b'c' ∷ []) ∷ complete ∷ []

save_blob_from_receiver-Replaces_example :
    Replaces whole path
      (IsStreamed castagnoli config messages 3)
      empty_disk
      (save_blob_from_receiver disk_system castagnoli config path 3 messages empty_disk)
save_blob_from_receiver-Replaces_example =
    save_blob_from_receiver-Replaces disk_system whole disk_system-IsSystem castagnoli
      castagnoli-IsCrc32c config path 3 messages empty_disk

load_blob-save_blob_example :
    (load_blob disk_system castagnoli config path
      (save_blob disk_system castagnoli config path abc empty_disk).1).0
    ≡ ok (some abc)
load_blob-save_blob_example =
    load_blob-save_blob disk_system whole disk_system-IsSystem castagnoli castagnoli-IsCrc32c config
      path abc (from_bytes fixture) empty_disk identity-IsValid (omega arith) (omega arith) save_abc
      open_abc tt

clear_blob-Removes_example :
    Removes whole path full_disk (clear_blob disk_system config path full_disk)
clear_blob-Removes_example =
    clear_blob-Removes disk_system whole disk_system-IsSystem config path full_disk

quarantine_blob-Quarantines_example :
    (out : Outcome QuarantineInfo × Disk) × (quarantine_blob disk_system config path 1 full_disk
      ≡ some out)
    × Quarantines whole path full_disk out
unfolding random_identifier stem
quarantine_blob-Quarantines_example =
    quarantine_blob-Quarantines disk_system whole disk_system-IsSystem config path
      (b'k' ∷ blob_suffix) 1 full_disk refl (inl refl)

-- A hash, as it stands in a name.
abbrev hash : Bytes
hash = hex drawn

stem-blob_example : stem (hash ++ blob_suffix) ≡ hash
unfolding hex is_hex_byte is_suffix_byte
stem-blob_example = stem-blob hash (b'b' ∷ b'l' ∷ b'o' ∷ b'b' ∷ []) refl refl

staging_name-owned_example :
    is_owned_temporary_filename (staging_name hash blob_suffix save_kind hash) blob_suffix ≡ true
unfolding hex is_hex_byte
staging_name-owned_example =
    staging_name-owned hash (b'b' ∷ b'l' ∷ b'o' ∷ b'b' ∷ []) hash save_kind refl refl (inl refl)

load_blob_into_sender-sends_example :
    ((load_blob_into_sender disk_system castagnoli config path
        (record { receives = []; acknowledges = true })
        full_disk).0.0
      ≡ ok (some (metadata abc)))
    × (joined
          (load_blob_into_sender disk_system castagnoli config path
            (record { receives = []; acknowledges = true })
            full_disk).0.1
        ≡ abc)
unfolding to_be append
load_blob_into_sender-sends_example =
    load_blob_into_sender-sends disk_system whole disk_system-IsSystem castagnoli
      castagnoli-IsCrc32c config path abc (from_bytes fixture) (from_bytes (drop 18 fixture))
      full_disk identity-IsValid (omega arith) (omega arith) refl refl tt (omega arith) refl tt

-- Three bytes, in two reads.
abbrev source : Reader
source = byte b'a' ∷ byte b'b' ∷ split ∷ byte b'c' ∷ []

-- Where the file is saved from them.
abbrev streamed : Outcome (Unit {0}) × Disk
streamed =
    save_blob_from_receiver disk_system castagnoli config path 3 (save_from 3 (ok tt) source []).1
      empty_disk

streams : streamed.0 ≡ ok tt
unfolding save_blob_from_receiver save_from send_chunks envelope_header write_stream_envelope
    write_chunks write_all read ready append
streams = refl

save_blob_from_receiver-save_from_example :
    (length (content source) ≡ 3)
    × (streamed.1 path ≡ some (layout castagnoli identity (content source)))
save_blob_from_receiver-save_from_example =
    save_blob_from_receiver-save_from disk_system whole castagnoli config path 3 (ok tt) source
      empty_disk disk_system-IsSystem castagnoli-IsCrc32c tt streams

-- "C:/a"
wide_path-Extends_example :
    Extends (67 ∷ 58 ∷ 47 ∷ 97 ∷ []) (wide_path (67 ∷ 58 ∷ 47 ∷ 97 ∷ []))
    × IsExtended (wide_path (67 ∷ 58 ∷ 47 ∷ 97 ∷ []))
wide_path-Extends_example = wide_path-Extends (67 ∷ 58 ∷ 47 ∷ 97 ∷ [])

abbrev staging : Bytes
staging = staging_name hash blob_suffix save_kind hash

abbrev listing : List (Result Bytes IoError)
listing = ok staging ∷ ok (hash ++ blob_suffix) ∷ err no_entry ∷ []

-- Every file was modified at 5 and can be deleted.
abbrev windows : WindowsSystem (Unit {0})
windows = record {
  read_dir = λ p w. (ok listing, w);
  symlink_metadata =
      λ p w. (ok (record { is_dir = false; is_file = true; len = 9; modified = some 5 }), w);
  absolute = λ p w. (ok p, w);
  encode_wide = λ p. elim p [ [] ↦ [] | name ∷ rest ↦ name ];
  system_time = λ w. (some (1, 0), w);
  create_new = λ u w. (none, w);
  write_back = λ u bs w. w;
  open_directory = λ u w. (true, w);
  open_attributes = λ u w. (false, w);
  flush_file_buffers = λ u w. (1, w);
  set_file_time = λ u low high w. (1, w);
  move_file_ex_w = λ u v replace w. (0, w);
  error_file_exists = 80;
  error_already_exists = 183;
  delete_file_w = λ p w. (1, w);
  last_os_error = λ w. no_entry;
}
