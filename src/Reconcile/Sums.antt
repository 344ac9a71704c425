-- ===== src/Reconcile/Sums.antt =====
-- The sums of the reconciliation of keys.
use amazee_ai.Common.{
  [], none, some, inl, inr, arith, ◌+◌, ◌≡◌, ◌∷◌, ◌==◌, if◌then◌else◌, Option, sum_by, ℕ, Instant,
  List, Bool-cases, true, false, refl, ◌∙◌, Bool, ap,
}
use amazee_ai.Reconcile.{
  KeyInfo, ReconcileArgs, ReconcileKey, Totals, add_to_user, reconcile_keys, add_spend,
  is_unreadable, add_team,
}

-- The spend that was told of a key, and the part of it that the team's sum has.
abbrev pub told : ReconcileKey × Option KeyInfo → ℕ
told (k, none) = 0
told (k, some info) = info.spend

abbrev pub counted : ReconcileArgs → ReconcileKey × Option KeyInfo → ℕ
counted a (k, none) = 0
counted a (k, some info) = if is_unreadable a info then 0 else info.spend

abbrev pub by_owner : Totals → ℕ
by_owner t = sum_by (λ x. x.1) t.by_user + t.service_keys

plus_assoc : (a b c : ℕ) → (a + b) + c ≡ a + (b + c)
plus_assoc a b c = omega arith

sum_add_to_user :
    (u n : ℕ) (xs : List (ℕ × ℕ))
    → sum_by (λ x. x.1) (add_to_user u n xs) ≡ sum_by (λ x. x.1) xs + n
unfolding add_to_user sum_by
sum_add_to_user u n [] = omega arith
sum_add_to_user u n (x ∷ xs) = elim (Bool-cases (x.0 == u)) [
  | inl e ↦ ground (arith, e)
  | inr e ↦ ground (arith, e, sum_add_to_user u n xs)
]

by_owner-add_spend :
    (o : Option ℕ) (n : ℕ) (t : Totals) → by_owner (add_spend o n t) ≡ by_owner t + n
by_owner-add_spend none n t = omega arith
by_owner-add_spend (some u) n t = elim (Bool-cases (u == 0)) [
  | inl e ↦ ground (arith, e)
  | inr e ↦ ground (arith, e, sum_add_to_user u n t.by_user)
]

team-add_spend : (o : Option ℕ) (n : ℕ) (t : Totals) → (add_spend o n t).team ≡ t.team
team-add_spend none n t = refl
team-add_spend (some u) n t = elim (Bool-cases (u == 0)) [
  | inl e ↦ ground (arith, e)
  | inr e ↦ ground (arith, e)
]

by_owner_next :
    (b : Bool) (n : ℕ) (t : Totals) → by_owner (if b then t else add_team n t) ≡ by_owner t
by_owner_next true n t = refl
by_owner_next false n t = refl

team_next :
    (b : Bool) (n : ℕ) (t : Totals)
    → (if b then t else add_team n t).team ≡ t.team + (if b then 0 else n)
team_next true n t = omega arith
team_next false n t = omega arith

-- The users' sums and that of the keys without one make up the spend that LiteLLM told of the keys, on top of
-- what the sums were at the start; so does the team's sum, but for the keys whose expiry cannot be read.
pub reconcile_keys_sums :
    (a : ReconcileArgs) (now : Instant) (ks : List (ReconcileKey × Option KeyInfo)) (t : Totals)
    → let t' = (reconcile_keys a now ks t).1 in
      (by_owner t' ≡ by_owner t + sum_by told ks) × (t'.team ≡ t.team + sum_by (counted a) ks)
unfolding reconcile_keys sum_by
reconcile_keys_sums a now [] t = (omega arith, omega arith)
reconcile_keys_sums a now ((k, none) ∷ ks) t =
    let rest = reconcile_keys_sums a now ks t in (ground arith, ground arith)
reconcile_keys_sums a now ((k, some info) ∷ ks) t =
    let c = add_spend k.owner_id info.spend t in
    let skipped = is_unreadable a info in
    let rest = reconcile_keys_sums a now ks (if skipped then c else add_team info.spend c) in
    (
      rest.0
          ∙ ap (λ n. n + sum_by told ks)
              (by_owner_next skipped info.spend c ∙ by_owner-add_spend k.owner_id info.spend t)
          ∙ plus_assoc (by_owner t) info.spend (sum_by told ks),
      rest.1
          ∙ ap (λ n. n + sum_by (counted a) ks)
              (team_next skipped info.spend c
                ∙ ap (λ n. n + (if skipped then 0 else info.spend))
                    (team-add_spend k.owner_id info.spend t))
          ∙ plus_assoc t.team (if skipped then 0 else info.spend) (sum_by (counted a) ks),
    )
