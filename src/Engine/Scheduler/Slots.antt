-- ===== src/Engine/Scheduler/Slots.antt =====
-- src/engine/scheduler.rs: the slots of the running operations, and who may take them.
use atomic_blob_storage.Base.{
  ℕ, zero, suc, ◌≤◌, ◌<◌, ◌≡◌, ◌≢◌, subst, ◌∙◌, inl, inr, false, List, [], ◌∷◌, ◌==◌, ltb, arith,
  length, Bool-cases, Option-cases, ==_iff, ltb→lt,
}
use atomic_blob_storage.Engine.Operation.{Operation}
use atomic_blob_storage.Engine.Queues.{
  Queues, queue, pop_front, push_back, remove_key, contains, find_ready, queued,
}
use atomic_blob_storage.Engine.Queues.Laws.{
  queue-push_back, queue-pop_front, queue-remove_if_empty, contains-remove_key,
}
use atomic_blob_storage.Engine.Queues.Entries.{
  IsHashOrder, KeysDistinct, pop_front-KeysDistinct, remove_if_empty-KeysDistinct, queued-pop_front,
  queued-remove_if_empty-le, queued-zero, iter-none, iter-some,
}
use atomic_blob_storage.Engine.Scheduler.Defs.{Scheduler}
use atomic_blob_storage.Engine.Scheduler.Dispatch.{
  start, dispatch_if_idle, dispatch_rounds, dispatch_available,
}
use atomic_blob_storage.Engine.Scheduler.Cases.{
  dispatch_rounds_keeps, dispatch_if_idle_cases, start_cases,
}

abbrev pub Distinct : List ℕ → Type 0
Distinct [] = Unit {0}
Distinct (k ∷ ks) = (contains k ks ≡ false) × Distinct ks

-- At most `maximum` operations run, no two of them of one key, and no key has two queues.
abbrev pub SlotsOf : ℕ → List ℕ → Queues → Type 0
SlotsOf maximum active queues = (length active ≤ maximum) × Distinct active × KeysDistinct queues

abbrev pub Slots : ℕ → Scheduler → Type 0
Slots maximum s = SlotsOf maximum s.active s.queues

-- While a slot is free, every key that has queued work is running.
abbrev pub ServedBy : ℕ → List ℕ → Queues → Type 0
ServedBy maximum active queues =
    (k : ℕ) → length active < maximum → contains k active ≡ false → queue k queues ≡ []

abbrev pub Served : ℕ → Scheduler → Type 0
Served maximum s = ServedBy maximum s.active s.queues

pub remove_key-Distinct : (j : ℕ) (ks : List ℕ) → Distinct ks → Distinct (remove_key j ks)
unfolding remove_key
remove_key-Distinct j [] h = tt
remove_key-Distinct j (i ∷ ks) h =
    ground (arith, remove_key-Distinct j ks h.1, contains-remove_key i j ks)

start-Slots :
    (maximum k : ℕ) (op : Operation) (s : Scheduler)
    → Slots maximum s
    → contains k s.active ≡ false
    → length s.active < maximum
    → Slots maximum (start k op s)
start-Slots maximum k op s (few, apart, keys) idle free = elim (start_cases k op s) [
  | inl (a, q) ↦ rw (a, q) (free, (idle, apart), keys)
  | inr (a, q) ↦ rw (a, q) (few, apart, remove_if_empty-KeysDistinct k s.queues keys)
]

pub dispatch_if_idle-Slots :
    (maximum k : ℕ) (s : Scheduler) → Slots maximum s → Slots maximum (dispatch_if_idle maximum k s)
dispatch_if_idle-Slots maximum k s h =
    dispatch_if_idle_cases (Slots maximum) maximum k s (λ why. h)
      (λ op idle free e.
        start-Slots maximum k op (record s { queues = pop_front k s.queues })
          (h.0, h.1, pop_front-KeysDistinct k s.queues h.2) idle free)

start-Served :
    (maximum k : ℕ) (op : Operation) (s : Scheduler)
    → Served maximum s
    → Served maximum (start k op s)
start-Served maximum k op s h = elim (start_cases k op s) [
  | inl (a, q) ↦ rw (a, q) (λ j free idle. h j (omega arith) (ground arith))
  | inr (a, q) ↦ rw (a, q) (λ j free idle. queue-remove_if_empty j k s.queues ∙ h j free idle)
]

-- Dispatching the key that has just been given an operation keeps every key served.
pub dispatch_pushed-Served :
    (maximum k : ℕ) (op : Operation) (s : Scheduler)
    → Served maximum s
    → Served maximum (dispatch_if_idle maximum k (record s { queues = push_back k op s.queues }))
dispatch_pushed-Served maximum k op s h =
    let m = push_back k op s.queues in
    dispatch_if_idle_cases (Served maximum) maximum k (record s { queues = m })
      (λ why j free idle. elim (Bool-cases (k == j)) [
        | inl same ↦
            let e : k ≡ j = (==_iff k j).0 same in subst (λ i. queue i m ≡ []) e (ground arith)
        | inr other ↦ rw (queue-push_back j k op s.queues, other) (h j free idle)
      ])
      (λ op' idle' free' e'.
        start-Served maximum k op' (record s { queues = pop_front k m })
          (λ j free idle.
            rw (queue-pop_front j k m, queue-push_back j k op s.queues)
              (ground (arith, h j free idle))))

dispatch-queued :
    (maximum k : ℕ) (s : Scheduler)
    → contains k s.active ≡ false
    → length s.active < maximum
    → queue k s.queues ≢ []
    → queued (dispatch_if_idle maximum k s).queues < queued s.queues
dispatch-queued maximum k s idle free waits =
    dispatch_if_idle_cases (λ t. queued t.queues < queued s.queues) maximum k s
      (λ why. absurd (ground arith))
      (λ op idle' free' e. elim (start_cases k op (record s { queues = pop_front k s.queues })) [
        | inl (a, q) ↦ rw q (omega (arith, queued-pop_front k s.queues waits))
        | inr (a, q) ↦ rw q (
            omega (
              arith,
              queued-pop_front k s.queues waits,
              queued-remove_if_empty-le k (pop_front k s.queues),
            ))
      ])

module _ (iter : Queues → Queues) (order : IsHashOrder iter) (maximum : ℕ) where
  dispatch_rounds-Served :
      (fuel : ℕ) (s : Scheduler)
      → Slots maximum s
      → queued s.queues ≤ fuel
      → Served maximum (dispatch_rounds iter maximum fuel s)
  unfolding dispatch_rounds
  dispatch_rounds-Served zero s h few = λ k free idle. queued-zero k s.queues (omega arith)
  dispatch_rounds-Served (suc fuel) s h few = elim (Bool-cases (ltb (length s.active) maximum)) [
    | inr full ↦ rw (full, dispatch_rounds) (λ k free idle. absurd (ground arith))
    | inl free ↦ elim (Option-cases (find_ready s.active (iter s.queues))) [
      | inl e ↦
          rw (free, e, dispatch_rounds)
            (λ k free' idle. iter-none iter order s.active k s.queues e idle)
      | inr (k, e) ↦
          let (idle, waits) = iter-some iter order s.active k s.queues h.2 e in
          rw (free, e, dispatch_rounds)
            (dispatch_rounds-Served fuel (dispatch_if_idle maximum k s)
              (dispatch_if_idle-Slots maximum k s h)
              (omega (arith, dispatch-queued maximum k s idle (ltb→lt _ _ free) waits)))
    ]
  ]

  -- The loop of `dispatch_available` ends with every key served, whatever order the map has.
  pub dispatch_available-Served :
      (s : Scheduler) → Slots maximum s → Served maximum (dispatch_available iter maximum s)
  unfolding dispatch_available
  dispatch_available-Served s h = dispatch_rounds-Served (queued s.queues) s h (omega arith)

  pub dispatch_available-Slots :
      (s : Scheduler) → Slots maximum s → Slots maximum (dispatch_available iter maximum s)
  unfolding dispatch_available
  dispatch_available-Slots s h =
      dispatch_rounds_keeps (Slots maximum) iter maximum (queued s.queues) s
        (λ k t. dispatch_if_idle-Slots maximum k t) h
