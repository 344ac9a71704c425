-- ===== src/Trial/Deleting.antt =====
-- The deletion of one trial key, its resources at LiteLLM and in Postgres first, `delete_trial_key` of
-- app/core/trial_cleanup.py. Whether a call fails in a region is a parameter.
use amazee_ai.Limits.Model.{same_owner, user_owner}
use amazee_ai.Trial.Model.{
  TrialKey, TrialSettings, is_anonymous_trial_team, Reference, Resource, TrialStore,
  has_recorded_spend, is_number, TrialUser,
}
use amazee_ai.Common.{
  none, some, true, false, ◌&&◌, ◌==◌, if◌then◌else◌, Bool, Option, ℕ, List, truthy, any, not,
  select, find_first, map,
}
use Prim.Native.String.{String}
use text.Mathlib.Text.{◌==◌ as same_text}

pub data TrialCall : Type 0 where
  delete_key delete_database : String → TrialCall
  delete_rows : ℕ → TrialCall

pub data TrialError : Type 0 where
  recorded_spend litellm_failed database_failed rows_failed : TrialError

pub data SkipReason : Type 0 where
  owns_keys row_gone no_trial_team : SkipReason

pub record TrialKeyDeletion : Type 0 where
  pub key_id : ℕ
  pub litellm_deleted : Bool
  pub database_deleted : Bool
  pub rows_deleted : Bool
  pub user_deleted : Bool
  pub error : Option TrialError
  pub skipped_user_reason : Option SkipReason

-- The resource that a text names, where it names one.
abbrev pub is_resource : ℕ → String → Resource → Bool
is_resource region t r = r.region_id == region && same_text r.name t

unfoldable pub without : ℕ → Option String → List Resource → List Resource
without region none xs = xs
without region (some t) xs =
    if truthy (some t) then select (λ x. not (is_resource region t x)) xs else xs

abbrev pub refers_to_key : ℕ → Reference → Bool
refers_to_key k r = is_number k r.key_id

abbrev pub refers_to_user : ℕ → Reference → Bool
refers_to_user u r = is_number u r.user_id

-- `_delete_key_rows`
unfoldable pub delete_key_rows : TrialKey → TrialStore → TrialStore
delete_key_rows k s = record s {
  caps = select (λ r. not (refers_to_key k.id r)) s.caps;
  alerts = select (λ r. not (refers_to_key k.id r)) s.alerts;
  keys = select (λ x. not (x.id == k.id)) s.keys;
}

abbrev pub owns : ℕ → TrialKey → Bool
owns u k = is_number u k.owner_id

abbrev pub remove_user : ℕ → TrialStore → TrialStore
remove_user u s = record s {
  limits = select (λ l. not (same_owner l.owner_type user_owner && l.owner_id == u)) s.limits;
  caps = select (λ r. not (refers_to_user u r)) s.caps;
  alerts = select (λ r. not (refers_to_user u r)) s.alerts;
  audit = map (λ a. if is_number u a then none else a) s.audit;
  users = select (λ x. not (x.id == u)) s.users;
}

abbrev pub in_trial_team : TrialSettings → TrialStore → TrialUser → Bool
in_trial_team c s u = any (λ t. is_number t.id u.team_id && is_anonymous_trial_team c t) s.teams

-- `_delete_trial_user`: why the user is kept, or none.
unfoldable pub delete_trial_user : TrialSettings → ℕ → TrialStore → Option SkipReason × TrialStore
unfolding is_anonymous_trial_team
delete_trial_user c u s =
    if any (owns u) s.keys
    then (some owns_keys, s)
    else (elim (find_first (λ x. x.id == u) s.users) [
      | none ↦ (some row_gone, s)
      | some x ↦ if in_trial_team c s x then (none, remove_user u s) else (some no_trial_team, s)
    ])

-- The rows of the key, and its owner where that is asked for.
unfoldable pub delete_owned_rows :
    TrialSettings → Bool → TrialKey → TrialStore → Option (Option SkipReason) × TrialStore
unfolding delete_key_rows delete_trial_user
delete_owned_rows c delete_user k s = elim k.owner_id [
  | none ↦ (none, delete_key_rows k s)
  | some owner ↦
      let x = delete_trial_user c owner (delete_key_rows k s) in
      if delete_user then (some x.0, x.1) else (none, delete_key_rows k s)
]

abbrev pub was_deleted : Option (Option SkipReason) → Bool
was_deleted (some none) = true
was_deleted _ = false

abbrev pub reason_of : Option (Option SkipReason) → Option SkipReason
reason_of none = none
reason_of (some r) = r

-- A call for a text that is there and not empty.
abbrev pub call_fails : (TrialCall → Bool) → (String → TrialCall) → Option String → Bool
call_fails fails call none = false
call_fails fails call (some t) = truthy (some t) && fails (call t)

abbrev pub drop_token : ℕ → TrialKey → TrialStore → TrialStore
drop_token region k s = record s { tokens = without region k.litellm_token s.tokens }

abbrev pub drop_database : ℕ → TrialKey → TrialStore → TrialStore
drop_database region k s = record s { databases = without region k.database_name s.databases }

abbrev pub deletion :
    TrialKey
    → Bool
    → Bool
    → Bool
    → Option TrialError
    → Option (Option SkipReason)
    → TrialKeyDeletion
deletion k litellm database rows error x = record {
  key_id = k.id;
  litellm_deleted = litellm;
  database_deleted = database;
  rows_deleted = rows;
  user_deleted = was_deleted x;
  error = error;
  skipped_user_reason = reason_of x;
}

module _ (c : TrialSettings) (fails : ℕ → TrialCall → Bool) where
  -- A failed call leaves the resource, and failed rows are rolled back.
  unfoldable pub delete_trial_key :
      ℕ → Bool → Bool → TrialKey → TrialStore → TrialKeyDeletion × TrialStore
  unfolding has_recorded_spend delete_owned_rows without
  delete_trial_key region delete_user allow_used k s =
      let s1 = drop_token region k s in
      let s2 = drop_database region k s1 in
      let x = delete_owned_rows c delete_user k s2 in
      if not allow_used && has_recorded_spend s k
      then (deletion k false false false (some recorded_spend) none, s)
      else (if call_fails (fails region) delete_key k.litellm_token
          then (deletion k false false false (some litellm_failed) none, s)
          else (if call_fails (fails region) delete_database k.database_name
              then (deletion k true false false (some database_failed) none, s1)
              else (if fails region (delete_rows k.id)
                  then (deletion k true true false (some rows_failed) none, s2)
                  else (deletion k true true true none x.0, x.1))))
