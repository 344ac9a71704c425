-- ===== src/Purge.antt =====
-- The hard deletion of teams, `hard_delete_expired_teams` of app/core/worker.py, with the foreign keys of
-- app/db/models.py that have no ON DELETE rule: a statement that would leave one dangling is refused, and
-- the team's transaction is rolled back. Of the tables that a team's deletion cascades to, a row is its team's
-- number.
use amazee_ai.Limits.Model.{same_owner, team_owner, user_owner}
use amazee_ai.Trial.Model.{LimitRow, is_among}
use amazee_ai.Common.{
  [], none, some, false, ◌&&◌, ◌||◌, ◌∷◌, ◌++◌, if◌then◌else◌, Bool, Instant, List, Option, select,
  ℕ, any, leb, map, not, plus_days, max,
}
use text.Mathlib.Text.{◌==◌ as same_text}
use amazee_ai.Teams.{Region, Member, RegionKey, TeamKey, group_keys, in_team, is_team_key}
use Prim.Native.String.{String}
use amazee_ai.Common.{◌==◌}
pub mod Blocking
mod Tests

pub record PurgeTeam : Type 0 where
  pub id : ℕ
  pub deleted_at : Option Instant

pub record PurgeUser : Type 0 where
  pub member : Member
  pub email : String

-- What a row of `spend_caps` or of `budget_alert_state` refers to.
pub record Subject : Type 0 where
  pub team_id : Option ℕ
  pub user_id : Option ℕ
  pub key_id : Option ℕ

-- The rows; for a token, an admin region and an entry of the audit log its user; for a product and a region
-- of a team that team; and the calls of LiteLLM so far, by region and token.
pub record PurgeStore : Type 0 where
  pub teams : List PurgeTeam
  pub users : List PurgeUser
  pub keys : List TeamKey
  pub limits : List LimitRow
  pub caps : List Subject
  pub alerts : List Subject
  pub api_tokens : List (Option ℕ)
  pub admin_regions : List ℕ
  pub audit : List (Option ℕ)
  pub spend_cache : List String
  pub products : List ℕ
  pub team_regions : List ℕ
  pub cascades : List ℕ
  pub deleted_tokens : List (ℕ × String)

-- The ids that are collected at the start.
pub record Doomed : Type 0 where
  pub team : ℕ
  pub users : List ℕ
  pub emails : List String
  pub keys : List ℕ

abbrev pub is_owned : ℕ → List ℕ → TeamKey → Bool
is_owned team users k = in_team team k.team_id || is_among users k.owner_id

abbrev pub is_in : ℕ → PurgeUser → Bool
is_in team u = in_team team u.member.team_id

abbrev pub collect : ℕ → PurgeStore → Doomed
collect team s =
    let users = map (λ u. u.member.id) (select (is_in team) s.users) in
    record {
      team = team;
      users = users;
      emails = map (λ u. u.email) (select (is_in team) s.users);
      keys = map (λ k. k.id) (select (is_owned team users) s.keys);
    }

abbrev pub touches : Doomed → Subject → Bool
touches d r = in_team d.team r.team_id || is_among d.users r.user_id || is_among d.keys r.key_id

abbrev pub is_limit_of : Doomed → LimitRow → Bool
is_limit_of d l =
    (same_owner l.owner_type team_owner && l.owner_id == d.team)
    || (same_owner l.owner_type user_owner && is_among d.users (some l.owner_id))

-- Steps 1 to 3 up to the keys: the limits and the caps go.
abbrev pub delete_limits_and_caps : Doomed → PurgeStore → PurgeStore
delete_limits_and_caps d s = record s {
  limits = select (λ l. not (is_limit_of d l)) s.limits;
  caps = select (λ r. not (touches d r)) s.caps;
}

abbrev pub has_key_reference : Doomed → PurgeStore → Bool
has_key_reference d s =
    any (λ r. is_among d.keys r.key_id) s.caps || any (λ r. is_among d.keys r.key_id) s.alerts

-- The keys, and step 4: what else refers to the users.
abbrev pub delete_keys : (String → String) → Doomed → PurgeStore → PurgeStore
delete_keys normalize d s = record s {
  keys = select (λ k. not (is_owned d.team d.users k)) s.keys;
  api_tokens = select (λ t. not (is_among d.users t)) s.api_tokens;
  admin_regions = select (λ u. not (is_among d.users (some u))) s.admin_regions;
  audit = map (λ a. if is_among d.users a then none else a) s.audit;
  spend_cache = select (λ e. not (any (λ x. same_text (normalize x) e) d.emails)) s.spend_cache;
}

abbrev pub has_user_reference : Doomed → PurgeStore → Bool
has_user_reference d s =
    any (λ k. is_among d.users k.owner_id) s.keys
    || any (λ r. is_among d.users r.user_id) s.caps
    || any (λ r. is_among d.users r.user_id) s.alerts
    || any (is_among d.users) s.api_tokens
    || any (λ u. is_among d.users (some u)) s.admin_regions
    || any (is_among d.users) s.audit

-- Steps 5 to 8: the users, the products and the regions; an entry without a user in the audit log.
abbrev pub delete_users : Doomed → PurgeStore → PurgeStore
delete_users d s = record s {
  users = select (λ u. not (is_in d.team u)) s.users;
  products = select (λ t. not (t == d.team)) s.products;
  team_regions = select (λ t. not (t == d.team)) s.team_regions;
  audit = s.audit ++ none ∷ [];
}

abbrev pub has_team_reference : Doomed → PurgeStore → Bool
has_team_reference d s =
    any (is_in d.team) s.users
    || any (λ k. in_team d.team k.team_id) s.keys
    || any (λ r. in_team d.team r.team_id) s.caps
    || any (λ r. in_team d.team r.team_id) s.alerts
    || any (λ t. t == d.team) s.products

-- Step 9, with the cascades.
abbrev pub delete_team : Doomed → PurgeStore → PurgeStore
delete_team d s = record s {
  teams = select (λ t. not (t.id == d.team)) s.teams;
  cascades = select (λ t. not (t == d.team)) s.cascades;
}

-- The transaction of one team; none where a foreign key is violated.
unfoldable pub purge_rows : (String → String) → Doomed → PurgeStore → Option PurgeStore
purge_rows normalize d s =
    let s1 = delete_limits_and_caps d s in
    let s2 = delete_keys normalize d s1 in
    let s3 = delete_users d s2 in
    if has_key_reference d s1
    then none
    else (if has_user_reference d s2
        then none
        else (if has_team_reference d s3 then none else some (delete_team d s3)))

-- The tokens of the team's keys; a failed call is logged and passed over.
unfoldable pub tokens_of : List (Region × List RegionKey) → List (ℕ × String)
tokens_of [] = []
tokens_of (g ∷ gs) = map (λ k. (g.0.id, k.token)) g.1 ++ tokens_of gs

abbrev pub team_tokens : ℕ → PurgeStore → List (ℕ × String)
team_tokens team s =
    tokens_of (group_keys (select (is_team_key team (map (λ u. u.member) s.users)) s.keys) [])

abbrev pub delete_tokens : ℕ → PurgeStore → PurgeStore
delete_tokens team s = record s { deleted_tokens = s.deleted_tokens ++ team_tokens team s }

-- What a team's turn leaves: what LiteLLM deleted stays deleted where the rows are rolled back.
unfoldable pub hard_delete_team : (String → String) → ℕ → PurgeStore → PurgeStore
unfolding purge_rows
hard_delete_team normalize team s =
    let s' = delete_tokens team s in
    elim (purge_rows normalize (collect team s) s') [ none ↦ s' | some purged ↦ purged ]

unfoldable pub hard_delete_teams : (String → String) → List PurgeTeam → PurgeStore → PurgeStore
unfolding hard_delete_team
hard_delete_teams normalize [] s = s
hard_delete_teams normalize (t ∷ ts) s =
    hard_delete_teams normalize ts (hard_delete_team normalize t.id s)

-- Soft-deleted for the days of the setting, 30 at least.
abbrev pub is_expired : Instant → ℕ → PurgeTeam → Bool
is_expired now days t = elim t.deleted_at [
  | none ↦ false
  | some deleted ↦ leb (plus_days deleted (max 30 days)) now
]

unfoldable pub hard_delete_expired_teams : (String → String) → Instant → ℕ → PurgeStore → PurgeStore
unfolding hard_delete_teams
hard_delete_expired_teams normalize now days s =
    hard_delete_teams normalize (select (is_expired now days) s.teams) s
