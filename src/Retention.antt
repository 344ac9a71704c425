-- ===== src/Retention.antt =====
-- The retention of inactive teams, `_check_team_retention_policy` of app/core/worker.py, on the teams of
-- app/core/team_service.py. `now` is the clock's; whether a mail goes out is a parameter.
use amazee_ai.Common.{
  [], none, some, ◌-◌, ◌/◌, ◌||◌, ◌∷◌, ◌++◌, if◌then◌else◌, Bool, Instant, List, Option, ℕ, day,
  is_some, ltb, max, leb,
}
pub mod Runs
mod Warned
mod Tests
use amazee_ai.Teams.{TeamStore, TeamRow, soft_delete_team}

-- What the policy reads of a team and its rows. `created_at` is filled in by the database.
pub record TeamActivity : Type 0 where
  pub is_pool : Bool
  pub is_anonymous_trial : Bool
  pub created_at : Instant
  pub has_products : Bool
  pub key_updates : List (Option Instant)
  pub user_creations : List Instant
  pub key_creations : List Instant

-- Whether the SES service is there, and what `send_email` does.
pub data MailOutcome : Type 0 where
  no_service sent not_sent raised : MailOutcome

abbrev pub latest : Option Instant → Instant → Option Instant
latest none t = some t
latest (some s) t = some (max s t)

-- The first by date, descending.
abbrev pub most_recent : List Instant → Option Instant
most_recent [] = none
most_recent (t ∷ ts) = latest (most_recent ts) t

abbrev pub given : List (Option Instant) → List Instant
given [] = []
given (none ∷ ts) = given ts
given (some t ∷ ts) = t ∷ given ts

abbrev pub listed : Option Instant → List Instant
listed none = []
listed (some t) = t ∷ []

unfoldable pub calculate_last_team_activity : Instant → TeamActivity → Option Instant
calculate_last_team_activity now a =
    if a.has_products
    then some now
    else most_recent (
        listed (most_recent (given a.key_updates))
        ++ listed (most_recent a.user_creations)
        ++ listed (most_recent a.key_creations))

-- `(now - t).days`, where t is not later.
abbrev pub days_since : Instant → Instant → ℕ
days_since now t = (now - t) / day

unfoldable pub days_since_activity : Instant → TeamActivity → ℕ
unfolding calculate_last_team_activity
days_since_activity now a = elim (calculate_last_team_activity now a) [
  | some t ↦ days_since now t
  | none ↦ days_since now a.created_at
]

abbrev pub max_inactive_days : ℕ
max_inactive_days = 76

abbrev pub days_after_warning : ℕ
days_after_warning = 14

-- `_send_retention_warning`
abbrev pub send_retention_warning : Instant → MailOutcome → TeamStore → TeamStore
send_retention_warning now sent s = record s {
  team = record (s.team) { retention_warning_sent_at = some now };
}
send_retention_warning now _ s = s

abbrev pub reset_warning : TeamStore → TeamStore
reset_warning s = record s { team = record (s.team) { retention_warning_sent_at = none } }

abbrev pub is_exempt : TeamActivity → TeamStore → Bool
is_exempt a s = a.is_pool || a.is_anonymous_trial || is_some s.team.deleted_at

unfoldable pub check_team_retention_policy :
    Instant → MailOutcome → TeamActivity → TeamStore → TeamStore
unfolding days_since_activity soft_delete_team
check_team_retention_policy now mail a s =
    let days = days_since_activity now a in
    if is_exempt a s then s else (elim s.team.retention_warning_sent_at [
      | none ↦ if ltb max_inactive_days days then send_retention_warning now mail s else s
      | some warned ↦
          if leb days_after_warning (days_since now warned)
          then soft_delete_team now s
          else (if leb days max_inactive_days then reset_warning s else s)
    ])
