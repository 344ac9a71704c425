-- ===== src/Rbac/Scope.antt =====
-- The gate on the declared team.
use amazee_ai.Rbac.{enforce_declared_team_scope, KeyScope, User}
use amazee_ai.Common.{some, true, arith, ◌≡◌, ℕ, List}

-- One key passes for one team at most: two callers that declare different teams never both reach it.
enforce_declared_team_scope-isolates :
    (k : KeyScope) (a b : ℕ) (users : List User)
    → enforce_declared_team_scope k (some a) users ≡ true
    → enforce_declared_team_scope k (some b) users ≡ true
    → a ≡ b
unfolding enforce_declared_team_scope
enforce_declared_team_scope-isolates k a b users g h = ground arith
