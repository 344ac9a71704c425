-- ===== src/Limits/Preserving.antt =====
-- Properties of the store that hold through every call of the limit service: a rule for each way in
-- which calls are joined.
use amazee_ai.Limits.Setting.{set_limit_with}
use amazee_ai.Limits.Applying.{
  get_token_restrictions_with, caught, get_team_limits, propagate, set_limit,
  trigger_team_budget_propagation, enqueue, enqueue_budget,
}
use amazee_ai.Limits.Reading.{
  get_team_limits_with, materialize_limit, materialize_limits, effective_limits, is_system_limit,
  team_copy,
}
use amazee_ai.Limits.Model.{
  Store, Action, Result, Settings, bind_result, ◌>>=◌, ok, Limit, LimitedResource, raised, Team,
  is_manual, find_team, Propagation, requires_pool_purchase_gate,
}
use amazee_ai.Common.{
  [], true, false, inl, inr, refl, ◌≡◌, ◌∷◌, ℕ, Bool, List, Option-cases, Bool-cases, zero, suc,
  not,
}

abbrev pub Preserves : (Store → Type 0) → {A : Type 0} → Action A → Type 0
Preserves P m = (s : Store) → P s → P (m s).1

-- Setting a limit from a product or a default keeps it.
abbrev pub SetPreserves : (Store → Type 0) → Settings → (ℕ → ℕ → Action (Unit {0})) → Type 0
SetPreserves P c after =
    (trigger : Bool) (r : LimitedResource)
    → is_manual r.limited_by ≡ false
    → Preserves P (set_limit_with c after trigger r)

module _ (P : Store → Type 0) where
  pub bind_result-Preserves :
      {A B : Type 0} (r : Result A) (s : Store) (k : A → Action B)
      → P s
      → ((a : A) → Preserves P (k a))
      → P (bind_result (r, s) k).1
  bind_result-Preserves (ok a) s k h f = f a s h
  bind_result-Preserves (raised e) s k h f = h

  pub >>=-Preserves :
      {A B : Type 0} (m : Action A) (k : A → Action B)
      → Preserves P m
      → ((a : A) → Preserves P (k a))
      → Preserves P (m >>= k)
  >>=-Preserves m k h f s p = bind_result-Preserves (m s).0 (m s).1 k (h s p) f

  module _ (c : Settings) (after : ℕ → ℕ → Action (Unit {0})) (keeps : SetPreserves P c after) where
    materialize_limit-Preserves :
        (t : Team) (l : Limit) → Preserves P (materialize_limit c after t l)
    unfolding materialize_limit
    materialize_limit-Preserves t l s p = elim (Bool-cases (is_system_limit l)) [
      | inl e ↦ rw e (keeps true (team_copy t l) refl s p)
      | inr e ↦ rw e p
    ]

    pub materialize_limits-Preserves :
        (t : Team) (ls : List Limit) → Preserves P (materialize_limits c after t ls)
    unfolding materialize_limits
    materialize_limits-Preserves t [] = λ s p. p
    materialize_limits-Preserves t (l ∷ ls) =
        >>=-Preserves (materialize_limit c after t l) _ (materialize_limit-Preserves t l) λ m.
          >>=-Preserves (materialize_limits c after t ls) _ (materialize_limits-Preserves t ls)
            λ ms s p. p

    pub get_team_limits-Preserves : (t : Team) → Preserves P (get_team_limits_with c after t)
    unfolding get_team_limits_with
    get_team_limits-Preserves t s p = materialize_limits-Preserves t (effective_limits t s) s p

    caught-Preserves : (r : Result (List Limit)) (s : Store) → P s → P (caught (r, s)).1
    caught-Preserves (ok ls) s p = p
    caught-Preserves (raised e) s p = p

    pub get_token_restrictions-Preserves :
        (team : ℕ) → Preserves P (get_token_restrictions_with c after team)
    unfolding get_token_restrictions_with
    get_token_restrictions-Preserves team s p = elim (Option-cases (find_team team s)) [
      | inl missing ↦ rw missing p
      | inr (t, found) ↦
          let x = get_team_limits_with c after t s in
          rw found (
            bind_result-Preserves (caught x).0 (caught x).1 _
              (caught-Preserves x.0 x.1 (get_team_limits-Preserves t s p)) (λ limits s' q. q))
    ]

-- What a property of the store needs so that every call keeps it: one call of `set_limit` keeps it
-- if what it hands on does, and the queue of propagations does not matter to it.
pub record IsKept (P : Store → Type 0) (c : Settings) : Type 0 where
  pub keeps_set :
      (after : ℕ → ℕ → Action (Unit {0}))
      → ((team amount : ℕ) → Preserves P (after team amount))
      → SetPreserves P c after
  pub keeps_queue : (m : Propagation) (s : Store) → P s → P (enqueue c m s)

module _ (P : Store → Type 0) (c : Settings) (kept : IsKept P c) where
  enqueue_budget-Preserves :
      (after : ℕ → ℕ → Action (Unit {0})) (team amount : ℕ) (t : Team)
      → SetPreserves P c after
      → Preserves P (enqueue_budget c after team amount t)
  unfolding enqueue_budget
  enqueue_budget-Preserves after team amount t keeps s p =
      elim (Bool-cases (not (requires_pool_purchase_gate t))) [
        | inl open_team ↦
            let x = get_token_restrictions_with c after team s in
            rw (open_team, enqueue_budget)
              (bind_result-Preserves P x.0 x.1 _
                (get_token_restrictions-Preserves P c after keeps team s p)
                (λ r s' q. kept.keeps_queue _ s' q))
        | inr gate ↦ rw (gate, enqueue_budget) (kept.keeps_queue _ s p)
      ]

  pub trigger-Preserves :
      (levels team amount : ℕ) → Preserves P (trigger_team_budget_propagation c levels team amount)
  unfolding trigger_team_budget_propagation
  trigger-Preserves zero team amount s p = p
  trigger-Preserves (suc levels) team amount s p = elim (Option-cases (find_team team s)) [
    | inl missing ↦ rw missing p
    | inr (t, found) ↦ rw found (
        enqueue_budget-Preserves (trigger_team_budget_propagation c levels) team amount t
          (kept.keeps_set (trigger_team_budget_propagation c levels) (trigger-Preserves levels)) s
          p)
  ]

  set_limit-SetPreserves : SetPreserves P c (propagate c)
  set_limit-SetPreserves = kept.keeps_set (propagate c) (trigger-Preserves 2)

  pub get_team_limits-kept : (t : Team) → Preserves P (get_team_limits c t)
  unfolding get_team_limits
  get_team_limits-kept t = get_team_limits-Preserves P c (propagate c) set_limit-SetPreserves t

  pub set_limit-kept :
      (r : LimitedResource) → is_manual r.limited_by ≡ false → Preserves P (set_limit c r)
  unfolding set_limit
  set_limit-kept r m = set_limit-SetPreserves true r m
