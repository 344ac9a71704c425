-- ===== src/Cycle/Errors.antt =====
-- The errors of a cycle, `apply_billing_cycle_for_team` of app/core/worker.py.
use amazee_ai.Ledger.{Ledger}
use amazee_ai.Limits.Model.{Team, requires_pool_purchase_gate}
use amazee_ai.Cycle.Billing.{
  check_drift, update_team_budget, set_key_restrictions, drift_calls, CycleCall, Paid,
  apply_billing_cycle_for_team, is_nil, stamp, CycleError, restrict_keys, success, sync_litellm,
  sync_team, CycleKey, sync_failed, BillingArgs, returned, projection, Applied, projected_budget,
}
use amazee_ai.Common.{
  [], none, some, true, false, refl, arith, ◌+◌, ◌≡◌, ◌∷◌, ◌&&◌, ◌∙◌, ℕ, Instant, Option, Bool,
  List, if◌then◌else◌, any, length, not, is_some, select, ◌==◌, ap, subst, sym, ◌++◌,
}

abbrev pub is_drift_check : CycleCall → Bool
is_drift_check check_drift = true
is_drift_check (update_team_budget budget) = false
is_drift_check (set_key_restrictions token budget rpm) = false

-- A call whose failure is an error: all but the drift check.
abbrev pub is_error : (CycleCall → Bool) → CycleCall → Bool
is_error fails call = fails call && not (is_drift_check call)

module _ (fails : CycleCall → Bool) where
  restrict_keys_errors :
      (gated : Bool) (budget rpm : ℕ) (keys : List CycleKey)
      → length (restrict_keys fails gated budget rpm keys).errors
        ≡ length (select (is_error fails) (restrict_keys fails gated budget rpm keys).calls)
  unfolding restrict_keys select
  restrict_keys_errors gated budget rpm [] = refl
  restrict_keys_errors gated budget rpm (k ∷ ks) =
      ground (arith, restrict_keys_errors gated budget rpm ks)

  select_drift :
      (keys : List CycleKey) (calls : List CycleCall)
      → select (is_error fails) (drift_calls keys ++ calls) ≡ select (is_error fails) calls
  unfolding select
  select_drift [] calls = refl
  select_drift (k ∷ ks) calls = ground arith

  sync_litellm_errors :
      (gated : Bool) (budget rpm : ℕ) (keys : List CycleKey) (projection : Option ℕ)
      → length (sync_litellm fails gated budget rpm keys projection).errors
        ≡ length
            (select (is_error fails) (sync_litellm fails gated budget rpm keys projection).calls)
          + (if is_some projection then 0 else 1)
  unfolding sync_litellm select
  sync_litellm_errors gated budget rpm keys none = refl
  sync_litellm_errors gated budget rpm keys (some m) = ground (
    arith,
    restrict_keys_errors gated budget rpm keys,
    select_drift keys (restrict_keys fails gated budget rpm keys).calls,
  )

  length-select :
      (calls : List CycleCall)
      → (length (select (is_error fails) calls) == 0) ≡ not (any (is_error fails) calls)
  unfolding select any
  length-select [] = refl
  length-select (x ∷ xs) = ground (arith, length-select xs)

is_nil-length : {A : Type 0} (xs : List A) → is_nil xs ≡ (length xs == 0)
is_nil-length [] = refl
is_nil-length (x ∷ xs) = ground arith

-- The team's `last_payment` and the payment's status after a cycle that went through or did not.
abbrev pub paid_after : Bool → Instant → Paid → Paid
paid_after clean start p = record {
  sync_status = elim p.sync_status [
    | none ↦ none
    | some old ↦ some (if clean then success else sync_failed)
  ];
  last_payment = if clean then some start else p.last_payment;
}

stamp_lem :
    (start : Instant) (errors : List CycleError) (p : Paid)
    → stamp start errors p ≡ paid_after (is_nil errors) start p
unfolding stamp
stamp_lem start [] p = refl
stamp_lem start (e ∷ es) p = refl

is_some_projection :
    (f : ℕ → ℕ) (o : Option ℕ)
    → is_some (elim o as (λ _. Option ℕ) [ none ↦ none | some n ↦ some (f n) ]) ≡ is_some o
is_some_projection f none = refl
is_some_projection f (some n) = refl

sync_team_errors :
    (fails : CycleCall → Bool) (now : Instant) (t : Team) (a : BillingArgs) (rpm : ℕ) (l : Ledger)
    → length (sync_team fails now t a rpm l).errors
      ≡ length (select (is_error fails) (sync_team fails now t a rpm l).calls)
        + (if is_some a.spend then 0 else 1)
unfolding sync_team
sync_team_errors fails now t a rpm l =
    sync_litellm_errors fails (requires_pool_purchase_gate t) a.budget_cents rpm a.keys
      (projection now t a l)
    ∙ ap
        (λ b.
          length (
            select (is_error fails)
              (sync_litellm fails (requires_pool_purchase_gate t) a.budget_cents rpm a.keys
                (projection now t a l)).calls)
          + (if b then 0 else 1))
        (is_some_projection
          (λ n. projected_budget now t.id a.region_id a.budget_cents a.team_cap n l) a.spend)

apply_lem :
    (fails : CycleCall → Bool) (now : Instant) (t : Team) (a : BillingArgs) (rpm : ℕ) (l : Ledger)
    (p : Paid)
    → a.region_found ≡ true
    → a.rpm_limit ≡ some rpm
    → a.limits_raise ≡ false
    → apply_billing_cycle_for_team fails now (some t) a l p ≡ (
      returned (sync_team fails now t a rpm l).errors,
      (sync_team fails now t a rpm l).calls,
      stamp a.period_start (sync_team fails now t a rpm l).errors p,
    )
unfolding apply_billing_cycle_for_team
apply_lem fails now t a rpm l p here limit fine = ground (arith, here, limit, fine)

-- A call's errors beside the calls that it made, and what it leaves of the payment.
abbrev pub ErrorsCounted :
    (CycleCall → Bool) → BillingArgs → Paid → Applied × List CycleCall × Paid → Type 0
ErrorsCounted fails a p x =
    (errors : List CycleError) × (x.0 ≡ returned errors)
    × (length errors ≡ length (select (is_error fails) x.1) + (if is_some a.spend then 0 else 1))
    × (x.2 ≡ paid_after (is_some a.spend && not (any (is_error fails) x.1)) a.period_start p)

-- For a team and a region that exist, where the limits can be read and set: the call returns as many
-- errors as calls of LiteLLM failed, but for the drift check, and one where the spend could not be read;
-- and exactly where the spend was read and no call but the drift check failed the payment succeeds and the
-- start of the cycle is the team's last payment, which stays as it was otherwise.
pub apply_billing_cycle_for_team_errors :
    (fails : CycleCall → Bool) (now : Instant) (t : Team) (a : BillingArgs) (rpm : ℕ) (l : Ledger)
    (p : Paid)
    → a.region_found ≡ true
    → a.rpm_limit ≡ some rpm
    → a.limits_raise ≡ false
    → let calls = (apply_billing_cycle_for_team fails now (some t) a l p).1 in
      (errors : List CycleError) × ((apply_billing_cycle_for_team fails now (some t) a l p).0
        ≡ returned errors)
      × (length errors
          ≡ length (select (is_error fails) calls) + (if is_some a.spend then 0 else 1))
      × ((apply_billing_cycle_for_team fails now (some t) a l p).2
          ≡ paid_after (is_some a.spend && not (any (is_error fails) calls)) a.period_start p)
apply_billing_cycle_for_team_errors fails now t a rpm l p here limit fine =
    let s = sync_team fails now t a rpm l in
    let counted = sync_team_errors fails now t a rpm l in
    let clean : is_nil s.errors ≡ (is_some a.spend && not (any (is_error fails) s.calls)) =
      is_nil-length s.errors ∙ ground (arith, counted, length-select fails s.calls) in
    subst (ErrorsCounted fails a p) (sym (apply_lem fails now t a rpm l p here limit fine)) (
      s.errors,
      refl,
      counted,
      stamp_lem a.period_start s.errors p ∙ ap (λ b. paid_after b a.period_start p) clean,
    )
