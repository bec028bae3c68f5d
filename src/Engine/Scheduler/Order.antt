-- ===== src/Engine/Scheduler/Order.antt =====
-- src/engine/scheduler.rs: where closes stand among the pending events.
use atomic_blob_storage.Base.{
  ℕ, ◌≡◌, refl, Bool, true, false, ◌&&◌, ◌||◌, List, [], ◌∷◌, ◌++◌, arith,
}
use atomic_blob_storage.Engine.Event.{Lifecycle, PendingEvent}
use atomic_blob_storage.Engine.Scheduler.Defs.{is_open, front_is_close}
use atomic_blob_storage.Engine.Scheduler.Handle.{behind_closes}

abbrev pub is_close : PendingEvent → Bool
is_close (PendingEvent.close to) = true
is_close e = false

abbrev pub has_close : List PendingEvent → Bool
has_close [] = false
has_close (e ∷ l) = is_close e || has_close l

abbrev pub only_closes : List PendingEvent → Bool
only_closes [] = true
only_closes (e ∷ l) = is_close e && only_closes l

-- Behind a close there are only closes.
abbrev pub closes_last : List PendingEvent → Bool
closes_last [] = true
closes_last (e ∷ l) = if_close (is_close e) (only_closes l) (closes_last l)
  where
    if_close : Bool → Bool → Bool → Bool
    if_close true a b = a
    if_close false a b = b

-- An open store has no pending close, and nothing is pending behind one.
abbrev pub Ordered : Lifecycle → List PendingEvent → Type 0
Ordered l p = (is_open l ≡ true → has_close p ≡ false) × (closes_last p ≡ true)

only_closes-push :
    (to : ℕ) (l : List PendingEvent)
    → only_closes l ≡ true
    → only_closes (l ++ (PendingEvent.close to ∷ [])) ≡ true
only_closes-push to [] h = refl
only_closes-push to (e ∷ l) h = ground (arith, only_closes-push to l)

-- A close may join any pending events.
pub closes_last-push :
    (to : ℕ) (l : List PendingEvent)
    → closes_last l ≡ true
    → closes_last (l ++ (PendingEvent.close to ∷ [])) ≡ true
closes_last-push to [] h = refl
closes_last-push to (PendingEvent.close t ∷ l) h = only_closes-push to l h
closes_last-push to (PendingEvent.submission sub ∷ l) h = closes_last-push to l h
closes_last-push to (PendingEvent.maintenance m ∷ l) h = closes_last-push to l h
closes_last-push to (PendingEvent.flush t ∷ l) h = closes_last-push to l h

-- Without a close, any other event may join.
push-open :
    (e : PendingEvent) (l : List PendingEvent)
    → is_close e ≡ false
    → has_close l ≡ false
    → (has_close (l ++ (e ∷ [])) ≡ false) × (closes_last (l ++ (e ∷ [])) ≡ true)
push-open (PendingEvent.close t) [] c h = absurd (ground arith)
push-open (PendingEvent.submission sub) [] c h = (refl, refl)
push-open (PendingEvent.maintenance m) [] c h = (refl, refl)
push-open (PendingEvent.flush t) [] c h = (refl, refl)
push-open e (PendingEvent.close t ∷ l) c h = absurd (ground arith)
push-open e (PendingEvent.submission sub ∷ l) c h = push-open e l c h
push-open e (PendingEvent.maintenance m ∷ l) c h = push-open e l c h
push-open e (PendingEvent.flush t ∷ l) c h = push-open e l c h

pub push-Ordered :
    (e : PendingEvent) (l : Lifecycle) (p : List PendingEvent)
    → is_close e ≡ false
    → is_open l ≡ true
    → Ordered l p
    → Ordered l (p ++ (e ∷ []))
push-Ordered e l p c o h = let (a, b) = push-open e p c (h.0 o) in (λ u. a, b)

pub rest-Ordered :
    (e : PendingEvent) (l : Lifecycle) (p : List PendingEvent)
    → is_close e ≡ false
    → Ordered l (e ∷ p)
    → Ordered l p
rest-Ordered (PendingEvent.close t) l p c h = absurd (ground arith)
rest-Ordered (PendingEvent.submission sub) l p c h = h
rest-Ordered (PendingEvent.maintenance m) l p c h = h
rest-Ordered (PendingEvent.flush t) l p c h = h

behind-only : (l : List PendingEvent) → only_closes l ≡ true → behind_closes l ≡ []
behind-only [] h = refl
behind-only (PendingEvent.close t ∷ l) h = behind-only l h
behind-only (PendingEvent.submission sub ∷ l) h = absurd (ground arith)
behind-only (PendingEvent.maintenance m ∷ l) h = absurd (ground arith)
behind-only (PendingEvent.flush t ∷ l) h = absurd (ground arith)

-- Nothing is left behind the closes at the front.
pub behind_closes-last :
    (l : List PendingEvent) → closes_last l ≡ true → front_is_close l ≡ true → behind_closes l ≡ []
behind_closes-last [] h f = refl
behind_closes-last (PendingEvent.close t ∷ l) h f = behind-only l h
behind_closes-last (PendingEvent.submission sub ∷ l) h f = absurd (ground arith)
behind_closes-last (PendingEvent.maintenance m ∷ l) h f = absurd (ground arith)
behind_closes-last (PendingEvent.flush t ∷ l) h f = absurd (ground arith)
