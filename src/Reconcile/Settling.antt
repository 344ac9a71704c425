-- ===== src/Reconcile/Settling.antt =====
-- A key that was updated needs no update: the reconciliation of keys does not flap.
use amazee_ai.Common.{
  none, some, false, inl, inr, refl, ◌≡◌, ◌≢◌, ◌∙◌, Instant, Option, ℕ, Bool-cases, if_true, ap,
  if_false, plus_days, true, arith, ◌==◌, zero, suc, if◌then◌else◌, Option-cases, sym, subst,
}
use amazee_ai.Reconcile.{
  KeyInfo, KeyUpdate, Duration, ReconcileArgs, new_budget_amount, Expiry, String, is_amount, days,
  key_update, at, budget_drift, is_expiring, is_stale, update_key_budget, update_budget,
}

-- A field that is sent takes the value that was sent, and another stays.
abbrev pub sent {ℓ} : {A : Type ℓ} → Option A → Option A → Option A
sent none old = old
sent (some x) old = some x

abbrev pub expiry_after : Instant → Option Duration → Expiry → Expiry
expiry_after now (some (days n)) old = at (plus_days now n)
expiry_after now _ old = old

same_lem : (m : ℕ) → (m == m) ≡ true
same_lem m = ground arith

-- A key whose three fields are as they should be.
quiet_lem :
    (a : ReconcileArgs) (now : Instant) (token : String) (info : KeyInfo) (n : ℕ)
    → a.expire_keys ≡ false
    → a.renewal_period_days ≡ some n
    → is_expiring now info.expires ≡ false
    → is_stale info.budget_duration ≡ false
    → new_budget_amount a.max_budget_amount info ≡ none
    → key_update a now token info ≡ none
unfolding key_update
quiet_lem a now token info n on period far fresh amount =
    ground (arith, on, period, far, fresh, amount)

-- Without a renewal period only the amount counts.
quiet_amount_lem :
    (a : ReconcileArgs) (now : Instant) (token : String) (info : KeyInfo)
    → a.expire_keys ≡ false
    → a.renewal_period_days ≡ none
    → new_budget_amount a.max_budget_amount info ≡ none
    → key_update a now token info ≡ none
unfolding key_update
quiet_amount_lem a now token info on period amount = ground (arith, on, period, amount)

-- The fields of an update.
abbrev IsUpdateOf : ReconcileArgs → Instant → KeyInfo → ℕ → KeyUpdate → Type 0
IsUpdateOf a now info n u =
    (u.max_budget ≡ new_budget_amount a.max_budget_amount info)
    × (is_stale (sent u.budget_duration info.budget_duration) ≡ false)
    × (is_expiring now (expiry_after now u.duration info.expires) ≡ false)

year_lem : (now : Instant) → is_expiring now (at (plus_days now 365)) ≡ false
year_lem now = ground arith

drift_lem :
    (token : String) (duration : Option Duration) (amount : Option ℕ) (u : KeyUpdate)
    → budget_drift token duration amount ≡ some u
    → u ≡ update_key_budget token duration amount
drift_lem token none none u h = ground (arith, h)
drift_lem token none (some m) u h = ground (arith, h)
drift_lem token (some d) amount u h = ground (arith, h)

active_lem :
    (a : ReconcileArgs) (now : Instant) (token : String) (info : KeyInfo) (n : ℕ)
    → a.expire_keys ≡ false
    → a.renewal_period_days ≡ some n
    → key_update a now token info ≡ (
        if is_expiring now info.expires
        then some (update_budget token (days n) (new_budget_amount a.max_budget_amount info))
        else budget_drift token
            (if is_stale info.budget_duration then some (days n) else none)
            (new_budget_amount a.max_budget_amount info))
unfolding key_update
active_lem a now token info n on period = ground (arith, on, period)

idle_lem :
    (a : ReconcileArgs) (now : Instant) (token : String) (info : KeyInfo)
    → a.expire_keys ≡ false
    → a.renewal_period_days ≡ none
    → key_update a now token info
      ≡ budget_drift token none (new_budget_amount a.max_budget_amount info)
unfolding key_update
idle_lem a now token info on period = ground (arith, on, period)

some_inj : {x y : KeyUpdate} → some x ≡ some y → x ≡ y
some_inj {x} {y} p = ap (λ o. elim o as (λ _. KeyUpdate) [ none ↦ x | some z ↦ z ]) p

stale_lem :
    (n : ℕ) (old : Option Duration)
    → (n == 0) ≡ false
    → is_stale (sent (if is_stale old then some (days n) else none) old) ≡ false
stale_lem n old positive = elim (Bool-cases (is_stale old)) [
  | inl e ↦ ap (λ o. is_stale (sent o old)) (if_true (some (days n)) none e) ∙ positive
  | inr e ↦ ap (λ o. is_stale (sent o old)) (if_false (some (days n)) none e) ∙ e
]

update_lem :
    (a : ReconcileArgs) (now : Instant) (token : String) (info : KeyInfo) (n : ℕ) (u : KeyUpdate)
    → a.expire_keys ≡ false
    → a.renewal_period_days ≡ some n
    → (n == 0) ≡ false
    → key_update a now token info ≡ some u
    → IsUpdateOf a now info n u
update_lem a now token info n u on period positive h =
    let amount = new_budget_amount a.max_budget_amount info in
    let renewed : Option Duration = if is_stale info.budget_duration then some (days n) else none in
    let h' = sym (active_lem a now token info n on period) ∙ h in
    elim (Bool-cases (is_expiring now info.expires)) [
      | inl e ↦
          subst (IsUpdateOf a now info n)
            (some_inj (sym (if_true (some (update_budget token (days n) amount)) _ e) ∙ h'))
            (refl, positive, year_lem now)
      | inr e ↦
          subst (IsUpdateOf a now info n)
            (sym (
              drift_lem token renewed amount u
                (sym (if_false _ (budget_drift token renewed amount) e) ∙ h')))
            (refl, stale_lem n info.budget_duration positive, e)
    ]

amount_settled :
    (m : Option ℕ) (info info' : KeyInfo)
    → info'.max_budget ≡ sent (new_budget_amount m info) info.max_budget
    → new_budget_amount m info' ≡ none
amount_settled none info info' h = refl
amount_settled (some m) info info' h = elim (Bool-cases (is_amount m info.max_budget)) [
  | inl e ↦
      if_true _ _ (ap (is_amount m) (h ∙ ap (λ o. sent o info.max_budget) (if_true _ _ e)) ∙ e)
  | inr e ↦
      if_true _ _
        (ap (is_amount m) (h ∙ ap (λ o. sent o info.max_budget) (if_false _ _ e)) ∙ same_lem m)
]

positive_lem :
    (a : ReconcileArgs) (n : ℕ)
    → a.renewal_period_days ≡ some n
    → a.renewal_period_days ≢ some 0
    → (n == 0) ≡ false
positive_lem a zero period positive = elim (positive period) [ ]
positive_lem a (suc n) period positive = ground arith

-- What LiteLLM documents of /key/update: a field that is sent is set, also to a number of days from now on.
module _ (apply : Instant → KeyUpdate → KeyInfo → KeyInfo)
    (sets_budget : (now : Instant) (u : KeyUpdate) (i : KeyInfo)
      → (apply now u i).max_budget ≡ sent u.max_budget i.max_budget)
    (sets_duration : (now : Instant) (u : KeyUpdate) (i : KeyInfo)
      → (apply now u i).budget_duration ≡ sent u.budget_duration i.budget_duration)
    (sets_expiry : (now : Instant) (u : KeyUpdate) (i : KeyInfo)
      → (apply now u i).expires ≡ expiry_after now u.duration i.expires) where
  -- Where keys are not to expire and the renewal period is not 0 days: after LiteLLM took the update that a
  -- key needs, the key needs none.
  pub key_update_settles :
      (a : ReconcileArgs) (now : Instant) (token : String) (info : KeyInfo) (u : KeyUpdate)
      → a.expire_keys ≡ false
      → a.renewal_period_days ≢ some 0
      → key_update a now token info ≡ some u
      → key_update a now token (apply now u info) ≡ none
  key_update_settles a now token info u on positive h =
      let info' = apply now u info in
      elim (Option-cases a.renewal_period_days) [
        | inl period ↦
            let same =
              drift_lem token none (new_budget_amount a.max_budget_amount info) u
                (sym (idle_lem a now token info on period) ∙ h) in
            quiet_amount_lem a now token info' on period (
              amount_settled a.max_budget_amount info info'
                (sets_budget now u info ∙ ap (λ v. sent v.max_budget info.max_budget) same))
        | inr period ↦
            let n = period.0 in
            let x =
              update_lem a now token info n u on period.1 (positive_lem a n period.1 positive) h in
            quiet_lem a now token info' n on period.1
              (ap (is_expiring now) (sets_expiry now u info) ∙ x.2)
              (ap is_stale (sets_duration now u info) ∙ x.1)
              (amount_settled a.max_budget_amount info info'
                (sets_budget now u info ∙ ap (λ o. sent o info.max_budget) x.0))
      ]
