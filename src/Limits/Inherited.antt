-- ===== src/Limits/Inherited.antt =====
-- Which budget is among the limits of a team, `get_team_limits` of app/core/limit_service.py: its
-- own or the system's.
use amazee_ai.Common.Lists.{select_sound}
use amazee_ai.Limits.Reading.{
  effective_limits, put_limits, is_system_limit, is_team_limit, put_limit, is_inherited,
}
use amazee_ai.Common.{
  [], true, false, inl, inr, arith, ◌≤◌, ◌≡◌, ◌&&◌, ◌∷◌, if◌then◌else◌, any, sum_by, ℕ, List,
  select, All, Bool-cases, All-mono, refl,
}
use amazee_ai.Limits.Model.{
  OwnerType, system, same_owner, Limit, Team, Store, is_budget, owned_by, team_owner, budget,
  user_owner,
}

abbrev budgets : Limit → ℕ
budgets l = if is_budget l.resource then 1 else 0

abbrev system_budgets : Limit → ℕ
system_budgets l = if is_budget l.resource && is_system_limit l then 1 else 0

-- Not the budget of the system.
abbrev pub IsLocal : Limit → Type 0
IsLocal l = (is_budget l.resource && is_system_limit l) ≡ false

system_budgets_le : (ls : List Limit) → sum_by system_budgets ls ≤ sum_by budgets ls
unfolding sum_by
system_budgets_le [] = omega arith
system_budgets_le (l ∷ ls) = ground (arith, system_budgets_le ls)

system_budgets-IsLocal : (ls : List Limit) → sum_by system_budgets ls ≡ 0 → All IsLocal ls
unfolding sum_by
system_budgets-IsLocal [] h = tt
system_budgets-IsLocal (l ∷ ls) h = (ground arith, system_budgets-IsLocal ls (omega arith))

budgets-put_other :
    (l : Limit) (dict : List Limit)
    → is_budget l.resource ≡ false
    → sum_by budgets (put_limit l dict) ≡ sum_by budgets dict
unfolding sum_by put_limit
budgets-put_other l [] b = ground arith
budgets-put_other l (m ∷ ms) b = ground (arith, budgets-put_other l ms b)

budgets-put_limit :
    (l : Limit) (dict : List Limit)
    → sum_by budgets dict ≤ 1
    → sum_by budgets (put_limit l dict) ≤ 1
unfolding sum_by put_limit
budgets-put_limit l [] h = ground arith
budgets-put_limit l (m ∷ ms) h =
    ground (arith, budgets-put_limit l ms, budgets-put_other l (m ∷ ms))

budgets-put_limits :
    (ls dict : List Limit) → sum_by budgets dict ≤ 1 → sum_by budgets (put_limits ls dict) ≤ 1
unfolding put_limits
budgets-put_limits [] dict h = h
budgets-put_limits (l ∷ ls) dict h =
    budgets-put_limits ls (put_limit l dict) (budgets-put_limit l dict h)

system_budgets-put_limit :
    (l : Limit) (dict : List Limit)
    → is_system_limit l ≡ false
    → sum_by system_budgets dict ≡ 0
    → sum_by system_budgets (put_limit l dict) ≡ 0
unfolding sum_by put_limit
system_budgets-put_limit l [] e h = ground arith
system_budgets-put_limit l (m ∷ ms) e h = ground (arith, system_budgets-put_limit l ms e)

system_budgets-put_limits :
    (ls dict : List Limit)
    → All (λ l. is_system_limit l ≡ false) ls
    → sum_by system_budgets dict ≡ 0
    → sum_by system_budgets (put_limits ls dict) ≡ 0
unfolding put_limits
system_budgets-put_limits [] dict e h = h
system_budgets-put_limits (l ∷ ls) dict e h =
    system_budgets-put_limits ls (put_limit l dict) e.1 (system_budgets-put_limit l dict e.0 h)

system_budgets-put_budget :
    (l : Limit) (dict : List Limit)
    → is_system_limit l ≡ false
    → is_budget l.resource ≡ true
    → sum_by budgets dict ≤ 1
    → sum_by system_budgets (put_limit l dict) ≡ 0
unfolding sum_by put_limit
system_budgets-put_budget l [] e b h = ground arith
system_budgets-put_budget l (m ∷ ms) e b h =
    ground (arith, system_budgets-put_budget l ms e b, system_budgets_le ms)

system_budgets-put_budgets :
    (ls dict : List Limit)
    → All (λ l. is_system_limit l ≡ false) ls
    → any (λ l. is_budget l.resource) ls ≡ true
    → sum_by budgets dict ≤ 1
    → sum_by system_budgets (put_limits ls dict) ≡ 0
unfolding put_limits any
system_budgets-put_budgets [] dict e b h = absurd (ground arith)
system_budgets-put_budgets (l ∷ ls) dict e b h = elim (Bool-cases (is_budget l.resource)) [
  | inl here ↦
      system_budgets-put_limits ls (put_limit l dict) e.1
        (system_budgets-put_budget l dict e.0 here h)
  | inr there ↦
      system_budgets-put_budgets ls (put_limit l dict) e.1 (ground arith)
        (budgets-put_limit l dict h)
]

-- The team has a budget row of its own.
abbrev pub HasBudget : ℕ → Store → Type 0
HasBudget team s = any (owned_by team_owner team budget) s.limits ≡ true

team_budget-select :
    (team : ℕ) (ls : List Limit)
    → any (owned_by team_owner team budget) ls ≡ true
    → any (λ l. is_budget l.resource) (select (is_team_limit team) ls) ≡ true
unfolding any select
team_budget-select team [] h = h
team_budget-select team (l ∷ ls) h = ground (arith, team_budget-select team ls)

pub team_owner-local :
    (o : OwnerType) → same_owner o team_owner ≡ true → same_owner o system ≡ false
team_owner-local system h = absurd (ground arith)
team_owner-local team_owner h = refl
team_owner-local user_owner h = refl

team_limit-local : (team : ℕ) (l : Limit) → is_team_limit team l ≡ true → is_system_limit l ≡ false
team_limit-local team l h = team_owner-local l.owner_type (ground arith)

pub effective_limits-IsLocal :
    (t : Team) (s : Store) → HasBudget t.id s → All IsLocal (effective_limits t s)
unfolding effective_limits sum_by
effective_limits-IsLocal t s h =
    let own = select (is_team_limit t.id) s.limits in
    let above = select (is_inherited t) (select is_system_limit s.limits) in
    system_budgets-IsLocal (effective_limits t s) (
      system_budgets-put_budgets own (put_limits above [])
        (All-mono _ _ own (team_limit-local t.id) (select_sound (is_team_limit t.id) s.limits))
        (team_budget-select t.id s.limits h) (budgets-put_limits above [] (omega arith)))
