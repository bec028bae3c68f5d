-- ===== src/Engine/Workers/Laws.antt =====
-- src/engine/workers.rs: how many threads prepare starts.
use atomic_blob_storage.Base.{
  ℕ, zero, suc, ◌+◌, ◌-◌, ◌≤◌, ◌≡◌, refl, ◌⊎◌, inl, inr, Bool, min, List, [], ◌∷◌, ◌++◌, length,
  Option, none, some, arith, length-append,
}
use atomic_blob_storage.Error.{ok, err, worker_unavailable}
use atomic_blob_storage.Engine.Workers.{WorkerPool, start_workers, prepare}

start_workers-length :
    (n : ℕ) (spawns : List (Option Bool)) (p : WorkerPool)
    → (((start_workers n spawns p).0 ≡ ok tt)
        × (length (start_workers n spawns p).1.handles ≡ length p.handles + n))
      ⊎ (((start_workers n spawns p).0 ≡ err worker_unavailable)
          × (length p.handles ≤ length (start_workers n spawns p).1.handles)
          × (length (start_workers n spawns p).1.handles ≤ length p.handles + n))
unfolding start_workers
start_workers-length zero spawns p = inl (refl, omega arith)
start_workers-length (suc n) [] p =
    let p' = record p { handles = p.handles ++ (Bool.false ∷ []); spawns = [] } in
    ground (arith, start_workers-length n [] p', length-append p.handles (Bool.false ∷ []))
start_workers-length (suc n) (some panics ∷ rest) p =
    let p' = record p { handles = p.handles ++ (panics ∷ []); spawns = rest } in
    ground (arith, start_workers-length n rest p', length-append p.handles (panics ∷ []))
start_workers-length (suc n) (none ∷ rest) p = inr (refl, omega arith, omega arith)

-- A pool within its capacity stays within it and loses no thread, and where `prepare` succeeds it
-- holds the required threads, or as many as its capacity allows.
pub prepare-length :
    (required : ℕ) (p : WorkerPool)
    → length p.handles ≤ p.capacity
    → (length (prepare required p).1.handles ≤ p.capacity)
      × (length p.handles ≤ length (prepare required p).1.handles)
      × ((prepare required p).0 ≡ ok tt
          → min required p.capacity ≤ length (prepare required p).1.handles)
unfolding prepare
prepare-length required p h =
    ground (arith, start_workers-length (min required p.capacity - length p.handles) p.spawns p)
