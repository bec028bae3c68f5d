-- ===== src/Blocking/Stored.antt =====
-- src/blocking.rs with src/filesystem/mod.rs: a streamed save from the caller's reader to the file.
use atomic_blob_storage.Base.{ℕ, ◌≡◌, ap, sym, ◌∙◌, inl, inr, [], length, Option, some, arith}
use atomic_blob_storage.Error.{Bytes, FilePath, ok, Outcome}
use atomic_blob_storage.Config.{StoreConfig}
use atomic_blob_storage.Stream.{Reader}
use atomic_blob_storage.Stream.Laws.{content, IsClean}
use atomic_blob_storage.Format.Crc.{Crc32c, IsCrc32c}
use atomic_blob_storage.Format.Layout.{layout}
use atomic_blob_storage.Filesystem.System.{System, IsSystem}
use atomic_blob_storage.Filesystem.Unix.{save_blob_from_receiver}
use atomic_blob_storage.Filesystem.Contents.Saved.{save_blob_from_receiver-Replaces}
use atomic_blob_storage.Blocking.{save_from}
use atomic_blob_storage.Blocking.Laws.{save_from-clean}

-- On a lawful system, where the worker that receives all that save_from sends from a reader that
-- does not fail succeeds, the reader gave exactly the declared number of bytes, and the file is
-- their envelope.
pub save_blob_from_receiver-save_from :
    {W : Type 0} (os : System W) (view : W → FilePath → Option Bytes) (c : Crc32c)
    (config : StoreConfig) (path : FilePath) (declared : ℕ) (answer : Outcome (Unit {0}))
    (r : Reader) (w : W)
    → IsSystem os view
    → IsCrc32c c
    → IsClean r
    → (save_blob_from_receiver os c config path declared (save_from declared answer r []).1 w).0
      ≡ ok tt
    → (length (content r) ≡ declared)
      × (view
            (save_blob_from_receiver os c config path declared
              (save_from declared answer r []).1
              w).1
            path
          ≡ some (layout c config.format (content r)))
save_blob_from_receiver-save_from os view c config path declared answer r w sys laws clean good =
    let sent = (save_from declared answer r []).1 in
    let (others, old_or_new, new) =
      save_blob_from_receiver-Replaces os view sys c laws config path declared sent w in
    let (bs, held, (p, carried, len, (fits, whole))) = new good in
    let settled = save_from-clean declared answer r clean in
    let same : (length (content r) ≡ declared) × (some p ≡ some (content r)) = elim settled [
      | inl (exact, result, whole_sent) ↦ (exact, sym carried ∙ whole_sent)
      | inr (inl (short, result, none_sent)) ↦ absurd (ground arith)
      | inr (inr (over, result, none_sent)) ↦ absurd (ground arith)
    ] in
    let payload : p ≡ content r = ground arith in
    (same.0, held ∙ ap some (whole ∙ ap (layout c config.format) payload))
