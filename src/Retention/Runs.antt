-- ===== src/Retention/Runs.antt =====
-- The retention policy over the runs of the monitor: what comes before a deletion.
use amazee_ai.Teams.{TeamStore, soft_delete_team}
use amazee_ai.Common.{
  [], none, some, true, false, inl, inr, refl, arith, ◌≤◌, ◌≡◌, ◌||◌, ◌∷◌, ◌++◌, if◌then◌else◌,
  Bool, Instant, List, All, leb, ltb, Bool-cases, Option, subst, sym, if_true, if_false,
}
use amazee_ai.Retention.{
  TeamActivity, MailOutcome, check_team_retention_policy, days_since_activity, days_since,
  is_exempt, sent, send_retention_warning, days_after_warning, max_inactive_days, no_service,
  not_sent, raised, reset_warning,
}

-- One run for the team: the time, what becomes of a mail, and the team's rows at that time.
pub record Run : Type 0 where
  pub now : Instant
  pub mail : MailOutcome
  pub activity : TeamActivity

abbrev pub step : Run → TeamStore → TeamStore
step r s = check_team_retention_policy r.now r.mail r.activity s

unfoldable pub run_all : List Run → TeamStore → TeamStore
run_all [] s = s
run_all (r ∷ rs) s = run_all rs (step r s)

abbrev pub is_inactive : Run → Bool
is_inactive r = ltb max_inactive_days (days_since_activity r.now r.activity)

-- A pool team's, or the trial team's.
abbrev pub is_excused : Run → Bool
is_excused r = r.activity.is_pool || r.activity.is_anonymous_trial

abbrev pub IsWarning : Run → Type 0
IsWarning r = (is_inactive r ≡ true) × (r.mail ≡ sent)

-- The deletion at t by a run 14 days after the warning, with no activity at the runs before it.
abbrev pub IsDeletedAfter : Instant → List Run → Instant → Type 0
IsDeletedAfter warned rs t =
    (between : List Run) × (last : Run) × (after : List Run) × (rs ≡ between ++ last ∷ after)
    × All (λ r. (is_inactive r || is_excused r) ≡ true) between
    × (last.now ≡ t)
    × (days_after_warning ≤ days_since last.now warned)

abbrev pub IsWarnedAndDeleted : List Run → Instant → Type 0
IsWarnedAndDeleted rs t =
    (before : List Run) × (warning : Run) × (rest : List Run) × (rs ≡ before ++ warning ∷ rest)
    × IsWarning warning
    × IsDeletedAfter warning.now rest t

module _ (now : Instant) (mail : MailOutcome) (a : TeamActivity) where
  abbrev pub is_quiet : Bool
  is_quiet = leb (days_since_activity now a) max_inactive_days

  check_warned_cases :
      (P : TeamStore → Type 0) (s : TeamStore) (w : Instant)
      → (leb days_after_warning (days_since now w) ≡ true → P (soft_delete_team now s))
      → P (reset_warning s)
      → (is_quiet ≡ false → P s)
      → P (
          if leb days_after_warning (days_since now w)
          then soft_delete_team now s
          else (if is_quiet then reset_warning s else s))
  check_warned_cases P s w deleted reset still =
      elim (Bool-cases (leb days_after_warning (days_since now w))) [
        | inl e ↦ subst P (sym (if_true _ _ e)) (deleted e)
        | inr e ↦ subst P (sym (if_false _ _ e)) (elim (Bool-cases is_quiet) [
          | inl f ↦ subst P (sym (if_true _ _ f)) reset
          | inr f ↦ subst P (sym (if_false _ _ f)) (still f)
        ])
      ]

  check_unwarned_cases :
      (P : TeamStore → Type 0) (s : TeamStore) (m : MailOutcome)
      → (m ≡ sent → P (send_retention_warning now sent s))
      → P s
      → P (send_retention_warning now m s)
  check_unwarned_cases P s sent warned kept = warned refl
  check_unwarned_cases P s no_service warned kept = kept
  check_unwarned_cases P s not_sent warned kept = kept
  check_unwarned_cases P s raised warned kept = kept

  -- The outcomes of a run, with what led to each.
  pub check_cases :
      (P : TeamStore → Type 0) (s : TeamStore)
      → (is_exempt a s ≡ true → P s)
      → (s.team.retention_warning_sent_at ≡ none
          → ((is_quiet ≡ false) × (mail ≡ sent) → P (send_retention_warning now sent s)) × P s)
      → ((w : Instant)
          → s.team.retention_warning_sent_at ≡ some w
          → (leb days_after_warning (days_since now w) ≡ true → P (soft_delete_team now s))
            × P (reset_warning s)
            × (is_quiet ≡ false → P s))
      → P (check_team_retention_policy now mail a s)
  unfolding check_team_retention_policy
  check_cases P s exempt unwarned warned = elim (Bool-cases (is_exempt a s)) [
    | inl e ↦ subst P (sym (if_true _ _ e)) (exempt e)
    | inr e ↦
        subst P (sym (if_false _ _ e)) (state s.team.retention_warning_sent_at unwarned warned)
  ]
    where
      state :
          (o : Option Instant)
          → (o ≡ none
              → ((is_quiet ≡ false) × (mail ≡ sent) → P (send_retention_warning now sent s)) × P s)
          → ((w : Instant)
              → o ≡ some w
              → (leb days_after_warning (days_since now w) ≡ true → P (soft_delete_team now s))
                × P (reset_warning s)
                × (is_quiet ≡ false → P s))
          → P (elim o as (λ _. TeamStore) [
            | none ↦
                if ltb max_inactive_days (days_since_activity now a)
                then send_retention_warning now mail s
                else s
            | some w ↦
                if leb days_after_warning (days_since now w)
                then soft_delete_team now s
                else (if is_quiet then reset_warning s else s)
          ])
      state none f g = elim (Bool-cases (ltb max_inactive_days (days_since_activity now a))) [
        | inl e ↦
            subst P (sym (if_true _ _ e))
              (check_unwarned_cases P s mail (λ m. (f refl).0 (ground (arith, e), m)) (f refl).1)
        | inr e ↦ subst P (sym (if_false _ _ e)) (f refl).1
      ]
      state (some w) f g = let x = g w refl in check_warned_cases P s w x.0 x.1 x.2
