-- ===== src/Engine/Queues/Laws.antt =====
-- src/engine/scheduler.rs: each operation on the queues, seen through the queue of any key.
use atomic_blob_storage.Base.{
  ℕ, ◌≡◌, refl, true, false, List, [], ◌∷◌, ◌++◌, none, some, ◌==◌, if◌then◌else◌, arith, length,
  ◌≤◌,
}
use atomic_blob_storage.Engine.Operation.{Operation}
use atomic_blob_storage.Engine.Queues.{
  Queues, queue, push_back, rest_of, front, pop_front, remove, remove_if_empty, all_empty, contains,
  remove_key,
}

pub queue-push_back :
    (k j : ℕ) (op : Operation) (m : Queues)
    → queue k (push_back j op m) ≡ (if j == k then queue k m ++ (op ∷ []) else queue k m)
unfolding push_back
queue-push_back k j op [] = ground arith
queue-push_back k j op ((i, q) ∷ m) = ground (arith, queue-push_back k j op m)

pub queue-pop_front :
    (k j : ℕ) (m : Queues)
    → queue k (pop_front j m) ≡ (if j == k then rest_of (queue k m) else queue k m)
unfolding pop_front
queue-pop_front k j [] = ground arith
queue-pop_front k j ((i, q) ∷ m) = ground (arith, queue-pop_front k j m)

pub queue-remove :
    (k j : ℕ) (m : Queues) → queue k (remove j m) ≡ (if j == k then [] else queue k m)
unfolding remove
queue-remove k j [] = ground arith
queue-remove k j ((i, q) ∷ m) = ground (arith, queue-remove k j m)

-- Dropping an entry that holds nothing loses nothing.
pub queue-remove_if_empty : (k j : ℕ) (m : Queues) → queue k (remove_if_empty j m) ≡ queue k m
unfolding remove_if_empty
queue-remove_if_empty k j m = ground (arith, queue-remove k j m)

pub front-queue :
    (k : ℕ) (m : Queues) (op : Operation)
    → front k m ≡ some op
    → queue k m ≡ op ∷ rest_of (queue k m)
unfolding front
front-queue k m op h = ground arith

pub front-none : (k : ℕ) (m : Queues) → front k m ≡ none → queue k m ≡ []
unfolding front
front-none k m h = ground arith

-- Where no entry holds anything, no key has a queued operation.
pub all_empty-queue : (m : Queues) (k : ℕ) → all_empty m ≡ true → queue k m ≡ []
all_empty-queue [] k h = refl
all_empty-queue ((j, q) ∷ m) k h = ground (arith, all_empty-queue m k)

pub contains-remove_key :
    (k j : ℕ) (js : List ℕ)
    → contains k (remove_key j js) ≡ (if j == k then false else contains k js)
unfolding remove_key
contains-remove_key k j [] = ground arith
contains-remove_key k j (i ∷ js) = ground (arith, contains-remove_key k j js)

pub length-remove_key : (j : ℕ) (js : List ℕ) → length (remove_key j js) ≤ length js
unfolding remove_key
length-remove_key j [] = omega arith
length-remove_key j (i ∷ js) = ground (arith, length-remove_key j js)

pub remove-all_empty : (k : ℕ) (m : Queues) → all_empty m ≡ true → all_empty (remove k m) ≡ true
unfolding remove
remove-all_empty k [] h = refl
remove-all_empty k ((j, q) ∷ m) h = ground (arith, remove-all_empty k m)

pub remove_if_empty-all_empty :
    (k : ℕ) (m : Queues) → all_empty m ≡ true → all_empty (remove_if_empty k m) ≡ true
unfolding remove_if_empty
remove_if_empty-all_empty k m h = ground (arith, remove-all_empty k m)
