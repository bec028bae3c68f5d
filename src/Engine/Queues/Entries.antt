-- ===== src/Engine/Queues/Entries.antt =====
-- src/engine/scheduler.rs: the entries of the HashMap `queues`, and the order in which it gives them.
use atomic_blob_storage.Base.{
  ℕ, ◌≤◌, ◌≡◌, ◌≢◌, refl, ◌⊎◌, inl, inr, ◌↔◌, Bool, true, false, not, ◌&&◌, ◌||◌, List, [], ◌∷◌,
  none, some, ◌==◌, is_empty, if◌then◌else◌, arith, suc, All, Bool-cases,
}
use atomic_blob_storage.Engine.Operation.{Operation}
use atomic_blob_storage.Engine.Queues.{
  Queues, queue, push_back, pop_front, remove, remove_if_empty, contains, find_ready, queued,
  all_empty,
}

-- A HashMap visits its entries in some order, each one and no other.
pub record IsHashOrder (iter : Queues → Queues) : Type 1 where
  pub visits : (P : ℕ × List Operation → Type 0) (m : Queues) → All P m ↔ All P (iter m)

abbrev pub has_key : ℕ → Queues → Bool
has_key k [] = false
has_key k ((j, q) ∷ m) = j == k || has_key k m

abbrev pub KeysDistinct : Queues → Type 0
KeysDistinct [] = Unit {0}
KeysDistinct ((k, q) ∷ m) = (has_key k m ≡ false) × KeysDistinct m

has_key-push_back :
    (k j : ℕ) (op : Operation) (m : Queues) → has_key k (push_back j op m) ≡ (j == k || has_key k m)
unfolding push_back
has_key-push_back k j op [] = ground arith
has_key-push_back k j op ((i, q) ∷ m) = ground (arith, has_key-push_back k j op m)

pub push_back-KeysDistinct :
    (j : ℕ) (op : Operation) (m : Queues) → KeysDistinct m → KeysDistinct (push_back j op m)
unfolding push_back
push_back-KeysDistinct j op [] h = (refl, tt)
push_back-KeysDistinct j op ((i, q) ∷ m) h =
    ground (arith, push_back-KeysDistinct j op m h.1, has_key-push_back i j op m)

has_key-pop_front : (k j : ℕ) (m : Queues) → has_key k (pop_front j m) ≡ has_key k m
unfolding pop_front
has_key-pop_front k j [] = refl
has_key-pop_front k j ((i, q) ∷ m) = ground (arith, has_key-pop_front k j m)

pub pop_front-KeysDistinct : (j : ℕ) (m : Queues) → KeysDistinct m → KeysDistinct (pop_front j m)
unfolding pop_front
pop_front-KeysDistinct j [] h = tt
pop_front-KeysDistinct j ((i, q) ∷ m) h =
    ground (arith, pop_front-KeysDistinct j m h.1, has_key-pop_front i j m)

has_key-remove :
    (k j : ℕ) (m : Queues) → has_key k (remove j m) ≡ (if j == k then false else has_key k m)
unfolding remove
has_key-remove k j [] = ground arith
has_key-remove k j ((i, q) ∷ m) = ground (arith, has_key-remove k j m)

remove-KeysDistinct : (j : ℕ) (m : Queues) → KeysDistinct m → KeysDistinct (remove j m)
unfolding remove
remove-KeysDistinct j [] h = tt
remove-KeysDistinct j ((i, q) ∷ m) h =
    ground (arith, remove-KeysDistinct j m h.1, has_key-remove i j m)

pub remove_if_empty-KeysDistinct :
    (j : ℕ) (m : Queues) → KeysDistinct m → KeysDistinct (remove_if_empty j m)
unfolding remove_if_empty
remove_if_empty-KeysDistinct j m h = ground (arith, remove-KeysDistinct j m h)

pub queued-pop_front :
    (k : ℕ) (m : Queues) → queue k m ≢ [] → suc (queued (pop_front k m)) ≡ queued m
unfolding pop_front
queued-pop_front k [] h = absurd (h refl)
queued-pop_front k ((j, q) ∷ m) h = ground (arith, queued-pop_front k m)

queued-remove-le : (k : ℕ) (m : Queues) → queued (remove k m) ≤ queued m
unfolding remove
queued-remove-le k [] = omega arith
queued-remove-le k ((j, q) ∷ m) = ground (arith, queued-remove-le k m)

pub queued-remove_if_empty-le : (k : ℕ) (m : Queues) → queued (remove_if_empty k m) ≤ queued m
unfolding remove_if_empty
queued-remove_if_empty-le k m = ground (arith, queued-remove-le k m)

pub queued-zero : (k : ℕ) (m : Queues) → queued m ≡ 0 → queue k m ≡ []
queued-zero k [] h = refl
queued-zero k ((j, q) ∷ m) h = ground (arith, queued-zero k m)

abbrev Idle : List ℕ → ℕ × List Operation → Type 0
Idle active (k, q) = (contains k active ≡ true) ⊎ (q ≡ [])

find_ready-Idle : (active : List ℕ) (m : Queues) → find_ready active m ≡ none → All (Idle active) m
unfolding find_ready
find_ready-Idle active [] h = tt
find_ready-Idle active ((k, q) ∷ m) h = (ground arith, find_ready-Idle active m (ground arith))

queue-Idle :
    (active : List ℕ) (k : ℕ) (m : Queues)
    → All (Idle active) m
    → contains k active ≡ false
    → queue k m ≡ []
queue-Idle active k [] h c = refl
queue-Idle active k ((j, q) ∷ m) h c = elim (Bool-cases (j == k)) [
  | inl e ↦ ground (arith, h.0)
  | inr e ↦ ground (arith, queue-Idle active k m h.1 c)
]

abbrev IsEntry : Queues → ℕ × List Operation → Type 0
IsEntry m (k, q) = queue k m ≡ q

entries_below :
    (j : ℕ) (p : List Operation) (m rest : Queues)
    → has_key j rest ≡ false
    → All (IsEntry m) rest
    → All (IsEntry ((j, p) ∷ m)) rest
entries_below j p m [] fresh h = tt
entries_below j p m ((k, q) ∷ rest) fresh h =
    (ground (arith, h.0), entries_below j p m rest (ground arith) h.1)

entries : (m : Queues) → KeysDistinct m → All (IsEntry m) m
entries [] h = tt
entries ((k, q) ∷ m) h = (ground arith, entries_below k q m m h.0 (entries m h.1))

find_ready-queue :
    (active : List ℕ) (k : ℕ) (m rest : Queues)
    → All (IsEntry m) rest
    → find_ready active rest ≡ some k
    → (contains k active ≡ false) × (queue k m ≢ [])
unfolding find_ready
find_ready-queue active k m [] h e = cc
find_ready-queue active k m ((j, q) ∷ rest) h e =
    elim (Bool-cases (not (is_empty q) && not (contains j active))) [
      | inl hit ↦ ground (arith, h.0)
      | inr miss ↦ find_ready-queue active k m rest h.1 (ground arith)
    ]

all_empty-entries :
    (m rest : Queues) → All (IsEntry m) rest → ((k : ℕ) → queue k m ≡ []) → all_empty rest ≡ true
all_empty-entries m [] h none_waits = refl
all_empty-entries m ((k, q) ∷ rest) h none_waits =
    ground (arith, h.0, none_waits k, all_empty-entries m rest h.1 none_waits)

-- Where no key has a queued operation, no entry holds one.
pub queue-all_empty :
    (m : Queues) → KeysDistinct m → ((k : ℕ) → queue k m ≡ []) → all_empty m ≡ true
queue-all_empty m d h = all_empty-entries m m (entries m d) h

module _ (iter : Queues → Queues) (order : IsHashOrder iter) where
  -- Nothing ready: every key that is not active has an empty queue.
  pub iter-none :
      (active : List ℕ) (k : ℕ) (m : Queues)
      → find_ready active (iter m) ≡ none
      → contains k active ≡ false
      → queue k m ≡ []
  iter-none active k m h c =
      queue-Idle active k m ((order.visits (Idle active) m).1 (find_ready-Idle active (iter m) h)) c

  pub iter-some :
      (active : List ℕ) (k : ℕ) (m : Queues)
      → KeysDistinct m
      → find_ready active (iter m) ≡ some k
      → (contains k active ≡ false) × (queue k m ≢ [])
  iter-some active k m d e =
      find_ready-queue active k m (iter m) ((order.visits (IsEntry m) m).0 (entries m d)) e
