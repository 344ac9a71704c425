-- ===== src/Alert/Delivery.antt =====
-- The delivery of events in batches, app/services/budget_alert_webhook.py. Which batch the webhook
-- accepts is a parameter.
use mathlib.Core.List.{append_assoc}
use amazee_ai.Common.{
  [], zero, suc, refl, arith, ◌+◌, ◌-◌, ◌≤◌, ◌<◌, ◌≡◌, ◌∷◌, ◌++◌, ◌∙◌, if◌then◌else◌, Bool, List, ℕ,
  All, ap, length, max, subst,
}
use amazee_ai.Alert.{EventId, BudgetAlertEvent}

-- `_chunk`: the batch so far is not empty and has `left` places left, of `full` after its first.
pub chunk_from {ℓ} : {A : Type ℓ} → ℕ → ℕ → List A → List A → List (List A)
chunk_from full left batch [] = batch ∷ []
chunk_from full zero batch (x ∷ xs) = batch ∷ chunk_from full full (x ∷ []) xs
chunk_from full (suc left) batch (x ∷ xs) = chunk_from full left (batch ++ x ∷ []) xs

unfoldable pub chunk {ℓ} : {A : Type ℓ} → ℕ → List A → List (List A)
unfolding chunk_from
chunk size [] = []
chunk size (x ∷ xs) = chunk_from (max 1 size - 1) (max 1 size - 1) (x ∷ []) xs

pub ids_of : List BudgetAlertEvent → List EventId
ids_of [] = []
ids_of (e ∷ es) = e.event_id ∷ ids_of es

-- The ids of the batches that were accepted.
pub deliver_batches : (List BudgetAlertEvent → Bool) → List (List BudgetAlertEvent) → List EventId
unfolding ids_of
deliver_batches accepts [] = []
deliver_batches accepts (b ∷ bs) =
    if accepts b then ids_of b ++ deliver_batches accepts bs else deliver_batches accepts bs

-- Without a URL nothing is delivered.
unfoldable pub deliver_events :
    Bool → ℕ → (List BudgetAlertEvent → Bool) → List BudgetAlertEvent → List EventId
unfolding chunk deliver_batches
deliver_events has_url size accepts events =
    if has_url then deliver_batches accepts (chunk size events) else []

pub join {ℓ} : {A : Type ℓ} → List (List A) → List A
join [] = []
join (xs ∷ xss) = xs ++ join xss

join-chunk_from {ℓ} :
    {A : Type ℓ} (full left : ℕ) (batch xs : List A)
    → join (chunk_from full left batch xs) ≡ batch ++ xs
unfolding join chunk_from
join-chunk_from full left batch [] = refl
join-chunk_from full zero batch (x ∷ xs) =
    ap (λ ys. batch ++ ys) (join-chunk_from full full (x ∷ []) xs)
join-chunk_from full (suc left) batch (x ∷ xs) =
    join-chunk_from full left (batch ++ x ∷ []) xs ∙ append_assoc batch (x ∷ []) xs

-- A batch that the webhook can be sent: not empty, and no longer than the size.
abbrev pub IsBatch {ℓ} : {A : Type ℓ} → ℕ → List A → Type 0
IsBatch size b = (0 < length b) × (length b ≤ size)

length-snoc {ℓ} : {A : Type ℓ} (xs : List A) (x : A) → length (xs ++ x ∷ []) ≡ suc (length xs)
length-snoc [] x = refl
length-snoc (y ∷ xs) x = omega (arith, length-snoc xs x)

batches-chunk_from {ℓ} :
    {A : Type ℓ} (full left : ℕ) (batch xs : List A)
    → 0 < length batch
    → length batch + left ≤ suc full
    → All (IsBatch (suc full)) (chunk_from full left batch xs)
unfolding chunk_from
batches-chunk_from full left batch [] h k = ((h, omega arith), tt)
batches-chunk_from full zero batch (x ∷ xs) h k =
    ((h, omega arith), batches-chunk_from full full (x ∷ []) xs (omega arith) (omega arith))
batches-chunk_from full (suc left) batch (x ∷ xs) h k =
    batches-chunk_from full left (batch ++ x ∷ []) xs (omega (arith, length-snoc batch x))
      (omega (arith, length-snoc batch x))

-- The batches, put together again, are the events in their order, and each is neither empty nor
-- longer than the batch size (or 1, if that is 0).
chunk_joins :
    (size : ℕ) (events : List BudgetAlertEvent)
    → (join (chunk size events) ≡ events) × All (IsBatch (max 1 size)) (chunk size events)
unfolding chunk join
chunk_joins size [] = (refl, tt)
chunk_joins size (e ∷ events) = (
  join-chunk_from (max 1 size - 1) (max 1 size - 1) (e ∷ []) events,
  subst (λ n. All (IsBatch n) (chunk size (e ∷ events))) (omega arith)
      (batches-chunk_from (max 1 size - 1) (max 1 size - 1) (e ∷ []) events (omega arith)
        (omega arith)),
)
