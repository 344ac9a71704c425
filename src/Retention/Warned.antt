-- ===== src/Retention/Warned.antt =====
-- A team is deleted for inactivity only after a warning.
use amazee_ai.Retention.{
  check_team_retention_policy, is_exempt, reset_warning, send_retention_warning, sent,
}
use amazee_ai.Teams.{TeamStore, soft_delete_team}
use amazee_ai.Common.{
  [], none, some, true, inl, inr, refl, ◌≡◌, ◌⊎◌, ◌||◌, ◌∷◌, ◌∙◌, List, Option, Instant, ap, false,
  arith, subst, Bool-cases, if_true, sym, leb→le,
}
use amazee_ai.Retention.Runs.{
  Run, run_all, IsWarnedAndDeleted, is_inactive, step, IsDeletedAfter, is_excused, IsWarning,
  check_cases, is_quiet,
}

abbrev Doom : Option Instant → List Run → Instant → Type 0
Doom none rs t = IsWarnedAndDeleted rs t
Doom (some w) rs t = IsDeletedAfter w rs t ⊎ IsWarnedAndDeleted rs t

later :
    (r : Run) (rs : List Run) (t : Instant)
    → IsWarnedAndDeleted rs t
    → IsWarnedAndDeleted (r ∷ rs) t
later r rs t x = (r ∷ x.0, x.1, x.2, ap (λ l. r ∷ l) x.3, x.4, x.5)

-- A run that does nothing, since the team is excused or inactive still.
still_later :
    (o : Option Instant) (r : Run) (rs : List Run) (t : Instant)
    → (is_inactive r || is_excused r) ≡ true
    → Doom o rs t
    → Doom o (r ∷ rs) t
still_later none r rs t h x = later r rs t x
still_later (some w) r rs t h (inr x) = inr (later r rs t x)
still_later (some w) r rs t h (inl x) =
    inl (r ∷ x.0, x.1, x.2, ap (λ l. r ∷ l) x.3, (h, x.4), x.5, x.6)

exempt_lem : (r : Run) (s : TeamStore) (t : Instant) → s.team.deleted_at ≡ some t → step r s ≡ s
unfolding check_team_retention_policy
exempt_lem r s t h = let e : is_exempt r.activity s ≡ true = ground (arith, h) in if_true _ _ e

excused_lem :
    (r : Run) (s : TeamStore)
    → s.team.deleted_at ≡ none
    → is_exempt r.activity s ≡ true
    → (is_inactive r || is_excused r) ≡ true
excused_lem r s fresh e = elim (Bool-cases r.activity.is_pool) [
  | inl p ↦ ground (arith, p)
  | inr p ↦ ground (arith, p, fresh, e)
]

inactive_lem : (r : Run) → is_quiet r.now r.mail r.activity ≡ false → is_inactive r ≡ true
inactive_lem r e = ground (arith, e)

still_lem :
    (r : Run) → is_quiet r.now r.mail r.activity ≡ false → (is_inactive r || is_excused r) ≡ true
still_lem r e = ground (arith, inactive_lem r e)

-- After a warning, the one found is this run's or a later one's.
warned_doom :
    (r : Run) (rs : List Run) (t : Instant)
    → IsWarning r
    → Doom (some r.now) rs t
    → IsWarnedAndDeleted (r ∷ rs) t
warned_doom r rs t w (inl x) = ([], r, rs, refl, w, x)
warned_doom r rs t w (inr x) = later r rs t x

-- What is deleted stays as it is.
run_all-deleted :
    (rs : List Run) (s : TeamStore) (t : Instant) → s.team.deleted_at ≡ some t → run_all rs s ≡ s
unfolding run_all
run_all-deleted [] s t h = refl
run_all-deleted (r ∷ rs) s t h =
    let same : step r s ≡ s = exempt_lem r s t h in ap (run_all rs) same ∙ run_all-deleted rs s t h

some_inj : {a b : Instant} → some a ≡ some b → a ≡ b
some_inj {a} {b} p = ground (arith, p)

deleted_now :
    (r : Run) (rs : List Run) (s : TeamStore) (t : Instant)
    → (run_all rs (soft_delete_team r.now s)).team.deleted_at ≡ some t
    → r.now ≡ t
unfolding soft_delete_team
deleted_now r rs s t h =
    let same = run_all-deleted rs (soft_delete_team r.now s) r.now refl in
    some_inj (ap (λ x. x.team.deleted_at) (sym same) ∙ h)

run_all-Doom :
    (rs : List Run) (s : TeamStore) (t : Instant)
    → s.team.deleted_at ≡ none
    → (run_all rs s).team.deleted_at ≡ some t
    → Doom s.team.retention_warning_sent_at rs t
unfolding run_all
run_all-Doom [] s t fresh h = ground (arith, fresh, h)
run_all-Doom (r ∷ rs) s t fresh h =
    check_cases r.now r.mail r.activity
      (λ s'.
        (run_all rs s').team.deleted_at ≡ some t → Doom s.team.retention_warning_sent_at (r ∷ rs) t)
      s
      (λ e h'.
        still_later s.team.retention_warning_sent_at r rs t (excused_lem r s fresh e)
          (run_all-Doom rs s t fresh h'))
      (λ o. (
        λ e h'.
            subst (λ w. Doom w (r ∷ rs) t) (sym o)
              (warned_doom r rs t (inactive_lem r e.0, e.1)
                (run_all-Doom rs (send_retention_warning r.now sent s) t fresh h')),
        λ h'.
            subst (λ w. Doom w (r ∷ rs) t) (sym o)
              (later r rs t (subst (λ w. Doom w rs t) o (run_all-Doom rs s t fresh h'))),
      ))
      (λ w o. (
        λ e h'.
            subst (λ w. Doom w (r ∷ rs) t) (sym o)
              (inl ([], r, rs, refl, tt, deleted_now r rs s t h', leb→le _ _ e)),
        λ h'.
            subst (λ w. Doom w (r ∷ rs) t) (sym o)
              (inr (later r rs t (run_all-Doom rs (reset_warning s) t fresh h'))),
        λ e h'.
            still_later s.team.retention_warning_sent_at r rs t (still_lem r e)
              (run_all-Doom rs s t fresh h'),
      ))
      h

-- A team that is neither deleted nor warned, and that the policy deletes at t during some runs: one of them
-- sent a warning when more than 76 days had passed without activity; a later one, at t, deleted it, 14 days
-- or more after the warning; and at every run between the two there had been none for more than 76 days
-- still, or the team was a pool team or the trial team.
pub run_all_warned :
    (rs : List Run) (s : TeamStore) (t : Instant)
    → s.team.deleted_at ≡ none
    → s.team.retention_warning_sent_at ≡ none
    → (run_all rs s).team.deleted_at ≡ some t
    → IsWarnedAndDeleted rs t
run_all_warned rs s t fresh unwarned h =
    subst (λ w. Doom w rs t) unwarned (run_all-Doom rs s t fresh h)
