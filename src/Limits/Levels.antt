-- ===== src/Limits/Levels.antt =====
-- The bound on how deep the change of a team's budget sets further limits,
-- `_trigger_team_budget_propagation` of app/core/limit_service.py.
use amazee_ai.Limits.Written.{write_request-owned}
use amazee_ai.Common.Lists.{find_first_sound, any_mono}
use amazee_ai.Limits.Inherited.{HasBudget, IsLocal, effective_limits-IsLocal, team_owner-local}
use amazee_ai.Limits.Applying.{
  get_token_restrictions_with, enqueue_budget, get_team_limits, set_limit,
  trigger_team_budget_propagation, propagate,
}
use amazee_ai.Limits.Reading.{
  get_team_limits_with, materialize_limit, materialize_limits, effective_limits, is_system_limit,
  team_copy,
}
use amazee_ai.Limits.Setting.{write_request, set_limit_with, after_write, is_valid_request}
use amazee_ai.Common.{
  [], true, false, inl, inr, refl, arith, ◌≡◌, ◌&&◌, ◌∷◌, ◌==◌, find_first, any, ℕ, List, All,
  Bool-cases, Option-cases, not, subst, sym, ==_iff, suc,
}
use amazee_ai.Limits.Model.{
  Limit, Team, Store, Settings, OwnerType, find_limit, Action, LimitedResource, find_team, owned_by,
  is_budget, ok, Result, same_owner, bind_result, raised, team_owner, system, budget,
  requires_pool_purchase_gate, user_owner,
}

-- Two continuations that agree where the first call returned agree.
bind_result_cong :
    {A B : Type 0} (r : Result A) (s : Store) (k k' : A → Action B)
    → ((a : A) → r ≡ ok a → k a s ≡ k' a s)
    → bind_result (r, s) k ≡ bind_result (r, s) k'
bind_result_cong (ok a) s k k' h = h a refl
bind_result_cong (raised e) s k k' h = refl

module _ (c : Settings) (p q : ℕ → ℕ → Action (Unit {0})) where
  after_write-other :
      (r : LimitedResource)
      → is_budget r.resource ≡ false
      → after_write c p true r ≡ after_write c q true r
  unfolding after_write
  after_write-other r b = elim (Bool-cases (same_owner r.owner_type team_owner)) [
    | inl e ↦ rw (b, e, after_write) refl
    | inr e ↦ rw (b, e, after_write) refl
  ]

  -- What hands a budget on does not matter to the copy of a limit other than the budget.
  set_limit-other :
      (r : LimitedResource) (s : Store)
      → is_budget r.resource ≡ false
      → set_limit_with c p true r s ≡ set_limit_with c q true r s
  unfolding set_limit_with
  set_limit-other r s b = rw (after_write-other r b) refl

  materialize_limit-other :
      (t : Team) (l : Limit) (s : Store)
      → IsLocal l
      → materialize_limit c p t l s ≡ materialize_limit c q t l s
  unfolding materialize_limit
  materialize_limit-other t l s b = elim (Bool-cases (is_system_limit l)) [
    | inl e ↦ rw e (set_limit-other (team_copy t l) s (ground arith))
    | inr e ↦ rw e refl
  ]

  materialize_limits-other :
      (t : Team) (ls : List Limit) (s : Store)
      → All IsLocal ls
      → materialize_limits c p t ls s ≡ materialize_limits c q t ls s
  unfolding materialize_limits
  materialize_limits-other t [] s b = refl
  materialize_limits-other t (l ∷ ls) s b =
      let x = materialize_limit c q t l s in
      rw (materialize_limit-other t l s b.0)
        (bind_result_cong x.0 x.1 _ _ (λ m _. rw (materialize_limits-other t ls x.1 b.1) refl))

  get_team_limits-other :
      (t : Team) (s : Store)
      → HasBudget t.id s
      → get_team_limits_with c p t s ≡ get_team_limits_with c q t s
  unfolding get_team_limits_with
  get_team_limits-other t s h =
      materialize_limits-other t (effective_limits t s) s (effective_limits-IsLocal t s h)

  get_token_restrictions-other :
      (team : ℕ) (s : Store)
      → HasBudget team s
      → get_token_restrictions_with c p team s ≡ get_token_restrictions_with c q team s
  unfolding get_token_restrictions_with find_team
  get_token_restrictions-other team s h =
      elim (Option-cases (find_first (λ t. t.id == team) s.teams)) [
        | inl missing ↦ rw missing refl
        | inr (t, found) ↦
            rw
              (
                found,
                get_team_limits-other t s (
                    subst (λ k. HasBudget k s)
                      (sym (
                        (==_iff t.id team).0
                          (find_first_sound (λ u. u.id == team) s.teams t found)))
                      h),
              )
              refl
      ]

  enqueue_budget-other :
      (team amount : ℕ) (t : Team) (s : Store)
      → HasBudget team s
      → enqueue_budget c p team amount t s ≡ enqueue_budget c q team amount t s
  unfolding enqueue_budget
  enqueue_budget-other team amount t s h = elim (Bool-cases (not (requires_pool_purchase_gate t))) [
    | inl open_team ↦ rw (open_team, enqueue_budget, get_token_restrictions-other team s h) refl
    | inr gate ↦ rw (gate, enqueue_budget) refl
  ]

same_owner_team :
    (o k : OwnerType)
    → same_owner o team_owner ≡ true
    → same_owner k o ≡ true
    → same_owner k team_owner ≡ true
same_owner_team team_owner k h e = e
same_owner_team system k h e = absurd (ground arith)
same_owner_team user_owner k h e = absurd (ground arith)

-- Two ways to hand a budget on that agree once the team has its budget row.
abbrev Agree : (ℕ → ℕ → Action (Unit {0})) → (ℕ → ℕ → Action (Unit {0})) → Type 0
Agree p q = (team amount : ℕ) (s : Store) → HasBudget team s → p team amount s ≡ q team amount s

module _ (c : Settings) (p q : ℕ → ℕ → Action (Unit {0})) (agree : Agree p q) where
  after_write-agree :
      (r : LimitedResource) (s : Store)
      → any (owned_by r.owner_type r.owner_id r.resource) s.limits ≡ true
      → after_write c p true r s ≡ after_write c q true r s
  unfolding after_write
  after_write-agree r s h =
      elim (Bool-cases (same_owner r.owner_type team_owner && is_budget r.resource && true)) [
        | inl budget_of_team ↦
            let team : same_owner r.owner_type team_owner ≡ true = ground arith in
            let is_b : is_budget r.resource ≡ true = ground arith in
            rw (team_owner-local r.owner_type team, team, is_b, after_write)
              (agree r.owner_id r.max_value s (
                any_mono (owned_by r.owner_type r.owner_id r.resource)
                  (owned_by team_owner r.owner_id budget) s.limits
                  (λ x e. ground (arith, same_owner_team r.owner_type x.owner_type team)) h))
        | inr quiet ↦ rw (quiet, after_write) refl
      ]

  set_limit-agree :
      (r : LimitedResource) (s : Store) → set_limit_with c p true r s ≡ set_limit_with c q true r s
  unfolding set_limit_with
  set_limit-agree r s = elim (Bool-cases (is_valid_request r)) [
    | inl good ↦
        let x = write_request r (find_limit r.owner_type r.owner_id r.resource s) s in
        rw good (
          bind_result_cong x.0 x.1 _ _
            (λ l e. rw (after_write-agree r x.1 (write_request-owned r s l e)) refl))
    | inr bad ↦ rw bad refl
  ]

  materialize_limit-agree :
      (t : Team) (l : Limit) (s : Store) → materialize_limit c p t l s ≡ materialize_limit c q t l s
  unfolding materialize_limit
  materialize_limit-agree t l s = elim (Bool-cases (is_system_limit l)) [
    | inl e ↦ rw e (set_limit-agree (team_copy t l) s)
    | inr e ↦ rw e refl
  ]

  materialize_limits-agree :
      (t : Team) (ls : List Limit) (s : Store)
      → materialize_limits c p t ls s ≡ materialize_limits c q t ls s
  unfolding materialize_limits
  materialize_limits-agree t [] s = refl
  materialize_limits-agree t (l ∷ ls) s =
      let x = materialize_limit c q t l s in
      rw (materialize_limit-agree t l s)
        (bind_result_cong x.0 x.1 _ _ (λ m _. rw (materialize_limits-agree t ls x.1) refl))

  get_team_limits-agree :
      (t : Team) (s : Store) → get_team_limits_with c p t s ≡ get_team_limits_with c q t s
  unfolding get_team_limits_with
  get_team_limits-agree t s = materialize_limits-agree t (effective_limits t s) s

trigger_levels :
    (c : Settings) (m n : ℕ)
    → Agree (trigger_team_budget_propagation c (suc m)) (trigger_team_budget_propagation c (suc n))
unfolding trigger_team_budget_propagation
trigger_levels c m n team amount s h = elim (Option-cases (find_team team s)) [
  | inl missing ↦ rw missing refl
  | inr (t, found) ↦ rw found (
      enqueue_budget-other c (trigger_team_budget_propagation c m)
        (trigger_team_budget_propagation c n) team amount t s h)
]

-- The bound on the depth of budget changes changes nothing: with any bound but 0, setting a limit
-- gives the result and the rows that it gives with the bound 2.
pub set_limit-levels :
    (c : Settings) (levels : ℕ) (r : LimitedResource) (s : Store)
    → set_limit_with c (trigger_team_budget_propagation c (suc levels)) true r s ≡ set_limit c r s
unfolding set_limit
set_limit-levels c levels r s =
    set_limit-agree c (trigger_team_budget_propagation c (suc levels)) (propagate c)
      (trigger_levels c levels 1) r s

-- So does reading the limits of a team.
get_team_limits-levels :
    (c : Settings) (levels : ℕ) (t : Team) (s : Store)
    → get_team_limits_with c (trigger_team_budget_propagation c (suc levels)) t s
      ≡ get_team_limits c t s
unfolding get_team_limits
get_team_limits-levels c levels t s =
    get_team_limits-agree c (trigger_team_budget_propagation c (suc levels)) (propagate c)
      (trigger_levels c levels 1) t s
