-- ===== src/Teams.antt =====
-- Teams, app/core/team_service.py: what a soft deletion and a restoration write, and what they ask of
-- LiteLLM. A call of LiteLLM is an entry of a log; whether it fails is a parameter.
pub mod Grouping
pub mod Deletion
pub mod Restoring
pub mod Roundtrip
pub mod Warnings
pub mod Propagation
mod Tests
use Prim.Native.String.{String}
use text.Mathlib.Text.{◌==◌ as same_text}
use amazee_ai.Common.{
  ◌==◌, [], none, some, false, ◌&&◌, ◌||◌, ◌∷◌, ◌++◌, if◌then◌else◌, Bool, Instant, List, ℕ, Option,
  any, map, not, select, truthy, true, is_some,
}

pub record Region : Type 0 where
  pub id : ℕ
  pub name : String
  pub is_active : Bool

-- A row of `teams`, as far as the service reads and writes it.
pub record TeamRow : Type 0 where
  pub id : ℕ
  pub is_active : Bool
  pub deleted_at : Option Instant
  pub retention_warning_sent_at : Option Instant
  pub updated_at : Option Instant

pub record Member : Type 0 where
  pub id : ℕ
  pub team_id : Option ℕ
  pub is_active : Bool

-- A row of `ai_tokens`, with its region.
pub record TeamKey : Type 0 where
  pub id : ℕ
  pub owner_id : Option ℕ
  pub team_id : Option ℕ
  pub litellm_token : Option String
  pub region : Option Region

pub data AuditAction : Type 0 where
  soft_delete : Instant → AuditAction
  restore : Instant → List String → AuditAction

pub data Call : Type 0 where
  create_team : ℕ → ℕ → Option (List String) → Call
  create_user : ℕ → ℕ → Call
  add_team_member : ℕ → ℕ → ℕ → Call
  update_key_duration : ℕ → String → ℕ → Call
  update_team_budget : ℕ → ℕ → ℕ → String → Call
  update_budget : ℕ → String → String → ℕ → Call

-- The team in question, the other rows that matter, the audit log and the calls so far.
pub record TeamStore : Type 0 where
  pub team : TeamRow
  pub users : List Member
  pub keys : List TeamKey
  pub audit : List AuditAction
  pub calls : List Call

abbrev pub in_team : ℕ → Option ℕ → Bool
in_team team none = false
in_team team (some t) = t == team

-- Owned by the team, or by one of its users.
abbrev pub is_team_key : ℕ → List Member → TeamKey → Bool
is_team_key team users k =
    elim k.owner_id [
      | none ↦ false
      | some owner ↦ any (λ u. u.id == owner && in_team team u.team_id) users
    ]
    || in_team team k.team_id

-- A key with its token, as the loops use it.
pub record RegionKey : Type 0 where
  pub id : ℕ
  pub token : String

-- `keys_by_region`: a dict keeps the order in which its keys came.
pub add_to_region :
    Region → RegionKey → List (Region × List RegionKey) → List (Region × List RegionKey)
add_to_region r k [] = (r, k ∷ []) ∷ []
add_to_region r k (g ∷ gs) =
    if g.0.id == r.id then (g.0, g.1 ++ k ∷ []) ∷ gs else g ∷ add_to_region r k gs

-- A key without a token or without a region is skipped.
pub group_key : TeamKey → List (Region × List RegionKey) → List (Region × List RegionKey)
unfolding add_to_region
group_key k groups = elim k.litellm_token [
  | none ↦ groups
  | some token ↦ if not (truthy (some token)) then groups else (elim k.region [
    | none ↦ groups
    | some r ↦ add_to_region r (record { id = k.id; token = token }) groups
  ])
]

pub group_keys : List TeamKey → List (Region × List RegionKey) → List (Region × List RegionKey)
unfolding group_key
group_keys [] groups = groups
group_keys (k ∷ ks) groups = group_keys ks (group_key k groups)

unfoldable pub get_team_keys_by_region : ℕ → TeamStore → List (Region × List RegionKey)
get_team_keys_by_region team s = group_keys (select (is_team_key team s.users) s.keys) []

-- `get_team_region_litellm_keys`: the optional filters keep one key, or the keys of one user.
pub get_team_region_litellm_keys : ℕ → ℕ → Option ℕ → Option ℕ → TeamStore → List TeamKey
get_team_region_litellm_keys team region key_id user_id s =
    select
      (λ k.
        elim k.region [ none ↦ false | some r ↦ r.id == region ]
        && is_some k.litellm_token
        && is_team_key team s.users k
        && elim key_id [ none ↦ true | some n ↦ k.id == n ]
        && elim user_id [
          | none ↦ true
          | some n ↦ elim k.owner_id [ none ↦ false | some owner ↦ owner == n ]
        ])
      s.keys

-- `for region, keys in ...: for key in keys: ...`
pub calls_of : (Region → RegionKey → Call) → List (Region × List RegionKey) → List Call
calls_of call [] = []
calls_of call (g ∷ gs) = map (call g.0) g.1 ++ calls_of call gs

unfoldable pub set_users_active : Bool → ℕ → List Member → List Member
set_users_active active team users =
    map (λ u. if in_team team u.team_id then record u { is_active = active } else u) users

abbrev pub duration_call : ℕ → Region → RegionKey → Call
duration_call days r k = update_key_duration r.id k.token days

-- A failed call is logged and passed over.
unfoldable pub soft_delete_team : Instant → TeamStore → TeamStore
soft_delete_team now s = record s {
  team = record (s.team) { deleted_at = some now; is_active = false };
  users = set_users_active false s.team.id s.users;
  audit = s.audit ++ soft_delete now ∷ [];
  calls = s.calls ++ calls_of (duration_call 0) (get_team_keys_by_region s.team.id s);
}
