-- ===== src/Teams/Roundtrip.antt =====
-- A soft deletion and the restoration that follows it, app/core/team_service.py.
use amazee_ai.Common.{
  [], none, some, true, false, refl, ◌≡◌, ◌∷◌, Bool, ℕ, List, Option, All, Instant, ap₂, arith,
}
use amazee_ai.Teams.{
  TeamStore, Member, Region, Call, soft_delete_team, set_users_active, String, in_team,
}
use amazee_ai.Teams.Restoring.{restore_soft_deleted_team}

set_users_active_back :
    (team : ℕ) (users : List Member)
    → All (λ u. in_team team u.team_id ≡ true → u.is_active ≡ true) users
    → set_users_active true team (set_users_active false team users) ≡ users
unfolding set_users_active
set_users_active_back team [] h = refl
set_users_active_back team (u ∷ us) h =
    ap₂ (λ x xs. x ∷ xs) (ground (arith, h.0)) (set_users_active_back team us h.1)

-- Where the team and all its users were active and no warning had been sent, deleting the team and
-- restoring it gives back the users and the team as they were, but for the time of its update.
pub restore-soft_delete_team :
    (fails : Call → Bool) (models : Region → Option (List String)) (now later : Instant)
    (regions : List Region) (s : TeamStore)
    → s.team.is_active ≡ true
    → s.team.deleted_at ≡ none
    → s.team.retention_warning_sent_at ≡ none
    → All (λ u. in_team s.team.id u.team_id ≡ true → u.is_active ≡ true) s.users
    → let after =
        (restore_soft_deleted_team fails models later regions (soft_delete_team now s)).1 in
      (after.users ≡ s.users) × (after.team ≡ record (s.team) { updated_at = some later })
unfolding soft_delete_team restore_soft_deleted_team
restore-soft_delete_team fails models now later regions s active alive unwarned members =
    (set_users_active_back s.team.id s.users members, ground (arith, active, alive, unwarned))
