-- ===== src/Reconcile.antt =====
-- The spend of a team's keys and the updates that they need at LiteLLM, `reconcile_team_keys` of
-- app/core/worker.py with the requests of app/services/litellm.py. Amounts are cents. What LiteLLM tells of a
-- key is an argument; that the updates go out in batches, and which of them fail, is left out.
use Prim.Native.String.{String}
use amazee_ai.Common.{
  ◌==◌, [], none, some, true, false, ◌+◌, ◌&&◌, ◌∷◌, ◌++◌, if◌then◌else◌, Bool, Instant, Option, ℕ,
  List, leb, not, is_some, plus_days,
}
use amazee_ai.Limits.Model.{budget, OwnerType}
pub mod Settling
pub mod Sums
mod Tests

-- A duration of whole days, such as "31d", or any other.
pub data Duration : Type 0 where
  days : ℕ → Duration
  other : String → Duration

pub data Expiry : Type 0 where
  never malformed : Expiry
  at : Instant → Expiry

-- What LiteLLM tells of a key; a spend of None counts 0.
pub record KeyInfo : Type 0 where
  pub spend : ℕ
  pub max_budget : Option ℕ
  pub budget_duration : Option Duration
  pub expires : Expiry

-- The body of a POST to /key/update; none where a field is not sent.
pub record KeyUpdate : Type 0 where
  pub key : String
  pub budget_duration : Option Duration
  pub max_budget : Option ℕ
  pub duration : Option Duration

abbrev pub update_budget : String → Duration → Option ℕ → KeyUpdate
update_budget token duration amount = record {
  key = token;
  budget_duration = some duration;
  max_budget = amount;
  duration = some (days 365);
}

abbrev pub update_key_budget : String → Option Duration → Option ℕ → KeyUpdate
update_key_budget token duration amount = record {
  key = token;
  budget_duration = duration;
  max_budget = amount;
  duration = none;
}

abbrev pub update_key_duration : String → Duration → KeyUpdate
update_key_duration token duration = record {
  key = token;
  budget_duration = none;
  max_budget = none;
  duration = some duration;
}

pub record ReconcileArgs : Type 0 where
  pub expire_keys : Bool
  pub renewal_period_days : Option ℕ
  pub max_budget_amount : Option ℕ

abbrev pub is_amount : ℕ → Option ℕ → Bool
is_amount m none = false
is_amount m (some n) = n == m

-- The amount, where it is given and the key has another.
abbrev pub new_budget_amount : Option ℕ → KeyInfo → Option ℕ
new_budget_amount none info = none
new_budget_amount (some m) info = if is_amount m info.max_budget then none else some m

-- None, or "0d".
abbrev pub is_stale : Option Duration → Bool
is_stale none = true
is_stale (some (days n)) = n == 0
is_stale (some (other t)) = false

abbrev pub is_expiring : Instant → Expiry → Bool
is_expiring now (at t) = leb t (plus_days now 30)
is_expiring now _ = false

-- An update, where one of its fields is to change.
abbrev pub budget_drift : String → Option Duration → Option ℕ → Option KeyUpdate
budget_drift token none none = none
budget_drift token duration amount = some (update_key_budget token duration amount)

-- The update that a key needs, where it needs one. With a renewal, an expiry that cannot be read raises in
-- the source before an update is chosen: `reconcile_keys` skips the update of such a key.
unfoldable pub key_update : ReconcileArgs → Instant → String → KeyInfo → Option KeyUpdate
key_update a now token info =
    let amount = new_budget_amount a.max_budget_amount info in
    if a.expire_keys
    then some (update_key_duration token (days 0))
    else (elim a.renewal_period_days [
      | none ↦ budget_drift token none amount
      | some n ↦
          if is_expiring now info.expires
          then some (update_budget token (days n) amount)
          else budget_drift token (if is_stale info.budget_duration then some (days n) else none)
              amount
    ])

-- A row of `ai_tokens`.
pub record ReconcileKey : Type 0 where
  pub id : ℕ
  pub owner_id : Option ℕ
  pub litellm_token : String
  pub cached_spend : Option ℕ
  pub updated_at : Option Instant

-- The sums of the loop: by user, in the order in which the users came, of the keys without one, of all.
pub record Totals : Type 0 where
  pub by_user : List (ℕ × ℕ)
  pub service_keys : ℕ
  pub team : ℕ

-- `total_by_user[owner] += spend`
unfoldable pub add_to_user : ℕ → ℕ → List (ℕ × ℕ) → List (ℕ × ℕ)
add_to_user u n [] = (u, n) ∷ []
add_to_user u n (x ∷ xs) = if x.0 == u then (u, x.1 + n) ∷ xs else x ∷ add_to_user u n xs

abbrev pub add_spend : Option ℕ → ℕ → Totals → Totals
add_spend none n t = record t { service_keys = t.service_keys + n }
add_spend (some u) n t =
    if u == 0
    then record t { service_keys = t.service_keys + n }
    else record t { by_user = add_to_user u n t.by_user }

abbrev pub add_team : ℕ → Totals → Totals
add_team n t = record t { team = t.team + n }

-- `fromisoformat` raises, where the date is read.
abbrev pub is_unreadable : ReconcileArgs → KeyInfo → Bool
is_unreadable a info =
    not a.expire_keys
    && is_some a.renewal_period_days
    && (elim info.expires [ malformed ↦ true | never ↦ false | at t ↦ false ])

abbrev pub with_spend : Instant → ℕ → ReconcileKey → ReconcileKey
with_spend now n k =
    if is_amount n k.cached_spend
    then k
    else record k { cached_spend = some n; updated_at = some now }

abbrev pub listed : Option KeyUpdate → List KeyUpdate
listed none = []
listed (some u) = u ∷ []

-- The keys with what LiteLLM tells of them, none where that fails: the rows, the sums, the updates.
unfoldable pub reconcile_keys :
    ReconcileArgs
    → Instant
    → List (ReconcileKey × Option KeyInfo)
    → Totals
    → List ReconcileKey × Totals × List KeyUpdate
unfolding key_update add_to_user
reconcile_keys a now [] t = ([], t, [])
reconcile_keys a now ((k, none) ∷ ks) t =
    let rest = reconcile_keys a now ks t in (k ∷ rest.0, rest.1, rest.2)
reconcile_keys a now ((k, some info) ∷ ks) t =
    let counted = add_spend k.owner_id info.spend t in
    let skipped = is_unreadable a info in
    let rest = reconcile_keys a now ks (if skipped then counted else add_team info.spend counted) in
    (
      with_spend now info.spend k ∷ rest.0,
      rest.1,
      (if skipped then [] else listed (key_update a now k.litellm_token info)) ++ rest.2,
    )
