-- ===== src/Engine/Ledger/Queued.antt =====
-- src/engine/scheduler.rs: the sending ends that queued operations hold.
use atomic_blob_storage.Base.{ℕ, ◌+◌, ◌≡◌, refl, true, false, [], ◌∷◌, some, is_empty, arith}
use atomic_blob_storage.Engine.Operation.{Operation}
use atomic_blob_storage.Engine.Queues.{
  Queues, queue, push_back, front, pop_front, remove, remove_if_empty,
}
use atomic_blob_storage.Engine.Queues.Entries.{has_key, KeysDistinct}
use atomic_blob_storage.Engine.Ledger.{sum_of, sum_of-append, in_operation, in_entry}

pub in-push_back :
    (n k : ℕ) (op : Operation) (m : Queues)
    → sum_of (in_entry n) (push_back k op m) ≡ sum_of (in_entry n) m + in_operation n op
unfolding push_back
in-push_back n k op [] = ground arith
in-push_back n k op ((j, q) ∷ m) =
    ground (arith, in-push_back n k op m, sum_of-append (in_operation n) q (op ∷ []))

pub in-pop_front :
    (n k : ℕ) (op : Operation) (m : Queues)
    → front k m ≡ some op
    → sum_of (in_entry n) (pop_front k m) + in_operation n op ≡ sum_of (in_entry n) m
unfolding front pop_front
in-pop_front n k op [] h = absurd (ground arith)
in-pop_front n k op ((j, []) ∷ m) h = ground (arith, in-pop_front n k op m)
in-pop_front n k op ((j, o ∷ q) ∷ m) h = ground (arith, in-pop_front n k op m)

in-remove_absent :
    (n k : ℕ) (m : Queues)
    → has_key k m ≡ false
    → sum_of (in_entry n) (remove k m) ≡ sum_of (in_entry n) m
unfolding remove
in-remove_absent n k [] h = refl
in-remove_absent n k ((j, q) ∷ m) h = ground (arith, in-remove_absent n k m)

in-remove_empty :
    (n k : ℕ) (m : Queues)
    → KeysDistinct m
    → is_empty (queue k m) ≡ true
    → sum_of (in_entry n) (remove k m) ≡ sum_of (in_entry n) m
unfolding remove
in-remove_empty n k [] d h = refl
in-remove_empty n k ((j, []) ∷ m) d h =
    ground (arith, in-remove_absent n j m d.0, in-remove_empty n k m d.1, in-remove_absent n k m)
in-remove_empty n k ((j, o ∷ q) ∷ m) d h = ground (arith, in-remove_empty n k m d.1)

pub in-remove_if_empty :
    (n k : ℕ) (m : Queues)
    → KeysDistinct m
    → sum_of (in_entry n) (remove_if_empty k m) ≡ sum_of (in_entry n) m
unfolding remove_if_empty
in-remove_if_empty n k m d = ground (arith, in-remove_empty n k m d)
