-- ===== src/Engine/Queues.antt =====
-- src/engine/scheduler.rs: `queues`, a HashMap from key hashes to VecDeques, and the set `active`.
pub mod Laws
pub mod Entries
use atomic_blob_storage.Base.{
  ℕ, ◌+◌, length, Bool, true, false, not, ◌&&◌, ◌||◌, List, [], ◌∷◌, ◌++◌, Option, none, some, ◌==◌,
  is_empty, all, if◌then◌else◌,
}
use atomic_blob_storage.Engine.Operation.{Operation}

-- `QueuedOperation`s, whose `completion_sender` is the coordinator's channel.
abbrev pub Queues : Type 0
Queues = List (ℕ × List Operation)

-- The operations queued for a key; none where the key has no entry.
abbrev pub queue : ℕ → Queues → List Operation
queue k [] = []
queue k ((j, q) ∷ m) = if j == k then q else queue k m

-- `queues.entry(key).or_default().push_back(operation)`
unfoldable pub push_back : ℕ → Operation → Queues → Queues
push_back k op [] = (k, op ∷ []) ∷ []
push_back k op ((j, q) ∷ m) = if j == k then (j, q ++ (op ∷ [])) ∷ m else (j, q) ∷ push_back k op m

abbrev pub rest_of : List Operation → List Operation
rest_of [] = []
rest_of (op ∷ q) = q

-- `queues.get_mut(key).and_then(VecDeque::pop_front)`: what it returns, and what it leaves.
unfoldable pub front : ℕ → Queues → Option Operation
front k m = elim (queue k m) [ [] ↦ none | op ∷ q ↦ some op ]

unfoldable pub pop_front : ℕ → Queues → Queues
pop_front k [] = []
pop_front k ((j, q) ∷ m) = if j == k then (j, rest_of q) ∷ m else (j, q) ∷ pop_front k m

-- `queues.remove(key)`
unfoldable pub remove : ℕ → Queues → Queues
remove k [] = []
remove k ((j, q) ∷ m) = let rest = remove k m in if j == k then rest else (j, q) ∷ rest

-- `if queues.get(key).is_some_and(VecDeque::is_empty) { queues.remove(key); }`
unfoldable pub remove_if_empty : ℕ → Queues → Queues
remove_if_empty k m = if is_empty (queue k m) then remove k m else m

-- `queues.values().all(VecDeque::is_empty)`
abbrev pub all_empty : Queues → Bool
all_empty [] = true
all_empty ((k, q) ∷ m) = is_empty q && all_empty m

abbrev pub contains : ℕ → List ℕ → Bool
contains k [] = false
contains k (j ∷ js) = j == k || contains k js

-- `active.remove(key)`
unfoldable pub remove_key : ℕ → List ℕ → List ℕ
remove_key k [] = []
remove_key k (j ∷ js) = let rest = remove_key k js in if j == k then rest else j ∷ rest

-- `find_map` over the entries: the first key with queued work that is not active.
unfoldable pub find_ready : List ℕ → Queues → Option ℕ
find_ready active [] = none
find_ready active ((k, q) ∷ m) =
    if not (is_empty q) && not (contains k active) then some k else find_ready active m

-- The operations that wait in all queues: rounds enough for `dispatch_available`.
abbrev pub queued : Queues → ℕ
queued [] = 0
queued ((k, q) ∷ m) = length q + queued m
