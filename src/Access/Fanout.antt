-- ===== src/Access/Fanout.antt =====
-- The run over all teams of a region, `sync_region_teams_task` of app/services/access_groups.py.
-- The call of LiteLLM is a parameter: the text of its error, if it fails.
use mathlib.Core.List.{append-nil, append_assoc}
use amazee_ai.Common.{
  [], none, some, true, false, suc, ◌%◌, ◌∷◌, ◌++◌, ◌==◌, if◌then◌else◌, ℕ, List, Option, Bool,
  Instant, not, truthy, length, inl, inr, refl, arith, ◌+◌, ◌≡◌, ◌∙◌, ap, select, is_some, sym,
  Option-cases, subst, if_true,
}
use Prim.Native.String.{String}
use amazee_ai.Access.{
  Region, Catalog, CatalogSettings, effective_team_group_slugs, region_team_ids, catalog_manages,
}

pub data RunStatus : Type 0 where
  running finished failed : RunStatus

-- A row of `team_group_sync_runs`.
pub record SyncRun : Type 0 where
  pub region_id : ℕ
  pub status : RunStatus
  pub total : ℕ
  pub done : ℕ
  pub failed_team_ids : Option (List ℕ)
  pub error_sample : Option String
  pub finished_at : Option Instant

-- The `models` list that `sync_team_groups` pushes; none where the region is not managed.
unfoldable pub pushed_models : CatalogSettings → Catalog → Region → ℕ → Option (List String)
pushed_models settings c r team =
    if not (catalog_manages settings r.name)
    then none
    else (elim (effective_team_group_slugs settings c team r) [
      | some slugs ↦ some slugs
      | none ↦ some []
    ])

abbrev pub is_empty : List ℕ → Bool
is_empty [] = true
is_empty (t ∷ ts) = false

module _ (settings : CatalogSettings) (c : Catalog) (push : ℕ → List String → Option String) where
  -- The error of `sync_team_groups`, if it raises.
  unfoldable pub sync_team_groups : Region → ℕ → Option String
  unfolding pushed_models
  sync_team_groups r team = elim (pushed_models settings c r team) [
    | none ↦ none
    | some models ↦ push team models
  ]

  -- What the loop carries: the teams that failed, and the first error text that is not empty.
  pub record Progress : Type 0 where
    pub run : SyncRun
    pub failures : List ℕ
    pub sample : Option String

  abbrev pub or_sample : Option String → String → Option String
  or_sample sample text = if truthy sample then sample else some text

  -- One team: a failure is recorded, and every 25th team the list so far is committed.
  unfoldable pub sync_one : Region → ℕ → Progress → Progress
  sync_one r team p =
      let error = sync_team_groups r team in
      let failures : List ℕ = elim error [
        | none ↦ p.failures
        | some text ↦ p.failures ++ team ∷ []
      ] in
      let sample : Option String = elim error [
        | none ↦ p.sample
        | some text ↦ or_sample p.sample text
      ] in
      let done = suc p.run.done in
      record {
        run = record (p.run) {
          done = done;
          failed_team_ids = if done % 25 == 0 then some failures else p.run.failed_team_ids;
        };
        failures = failures;
        sample = sample;
      }

  pub sync_loop : Region → List ℕ → Progress → Progress
  sync_loop r [] p = p
  sync_loop r (t ∷ ts) p = sync_loop r ts (sync_one r t p)

  unfoldable pub sync_teams : Instant → Region → SyncRun → SyncRun
  sync_teams now r run =
      let teams = region_team_ids c r.id in
      let p =
        sync_loop r teams
          (record { run = record run { total = length teams }; failures = []; sample = none }) in
      record (p.run) {
        failed_team_ids = some p.failures;
        error_sample = p.sample;
        status = if is_empty p.failures then finished else failed;
        finished_at = some now;
      }

  -- The region of the run is read first; `missing` is the text for a missing or inactive one.
  unfoldable pub sync_region_teams_task : Instant → String → Option Region → SyncRun → SyncRun
  sync_region_teams_task now missing region run =
      let refused : SyncRun = record run {
        status = failed;
        error_sample = some missing;
        finished_at = some now;
      } in
      elim region [
        | none ↦ refused
        | some r ↦ if r.is_active then sync_teams now r run else refused
      ]

  -- The teams of a list whose push fails, in their order.
  pub failing : Region → List ℕ → List ℕ
  failing r ts = select (λ t. is_some (sync_team_groups r t)) ts

  sync_one_failures :
      (r : Region) (t : ℕ) (p : Progress)
      → (sync_one r t p).failures ≡ p.failures ++ failing r (t ∷ [])
  unfolding sync_one failing select
  sync_one_failures r t p = elim (Option-cases (sync_team_groups r t)) [
    | inl fine ↦ rw (sync_one, fine) (sym (append-nil p.failures))
    | inr (text, bad) ↦ rw (sync_one, bad) refl
  ]

  failing-cons :
      (r : Region) (t : ℕ) (ts : List ℕ) → failing r (t ∷ []) ++ failing r ts ≡ failing r (t ∷ ts)
  unfolding failing select
  failing-cons r t ts = elim (Option-cases (sync_team_groups r t)) [
    | inl fine ↦ rw fine refl
    | inr (text, bad) ↦ rw bad refl
  ]

  sync_loop_failures :
      (r : Region) (ts : List ℕ) (p : Progress)
      → (sync_loop r ts p).failures ≡ p.failures ++ failing r ts
  unfolding sync_loop sync_one failing select
  sync_loop_failures r [] p = sym (append-nil p.failures)
  sync_loop_failures r (t ∷ ts) p =
      sync_loop_failures r ts (sync_one r t p)
      ∙ ap (λ l. l ++ failing r ts) (sync_one_failures r t p)
      ∙ append_assoc p.failures (failing r (t ∷ [])) (failing r ts)
      ∙ ap (λ l. p.failures ++ l) (failing-cons r t ts)

  sync_loop_done :
      (r : Region) (ts : List ℕ) (p : Progress)
      → ((sync_loop r ts p).run.done ≡ p.run.done + length ts)
        × ((sync_loop r ts p).run.total ≡ p.run.total)
  unfolding sync_loop sync_one
  sync_loop_done r [] p = (omega arith, refl)
  sync_loop_done r (t ∷ ts) p =
      let rest = sync_loop_done r ts (sync_one r t p) in (omega (arith, rest.0), rest.1)

  -- A run over an active region that starts with nothing done ends with every team done, records
  -- exactly the teams whose push failed, in order, and is `failed` exactly when there is one.
  pub sync_region_teams_task_lem :
      (now : Instant) (missing : String) (r : Region) (run : SyncRun)
      → r.is_active ≡ true
      → run.done ≡ 0
      → let after = sync_region_teams_task now missing (some r) run in
        (after.done ≡ length (region_team_ids c r.id))
        × (after.total ≡ length (region_team_ids c r.id))
        × (after.failed_team_ids ≡ some (failing r (region_team_ids c r.id)))
        × (after.status
            ≡ (if is_empty (failing r (region_team_ids c r.id)) then finished else failed))
        × (after.finished_at ≡ some now)
  unfolding sync_region_teams_task sync_teams
  sync_region_teams_task_lem now missing r run active fresh =
      let teams = region_team_ids c r.id in
      let start : Progress = record {
        run = record run { total = length teams };
        failures = [];
        sample = none;
      } in
      let counts = sync_loop_done r teams start in
      let failures = sync_loop_failures r teams start in
      subst
        (λ (after : SyncRun).
          (after.done ≡ length teams)
          × (after.total ≡ length teams)
          × (after.failed_team_ids ≡ some (failing r teams))
          × (after.status ≡ (if is_empty (failing r teams) then finished else failed))
          × (after.finished_at ≡ some now))
        (sym (if_true (sync_teams now r run) _ active))
        ((
          counts.0 ∙ ap (λ n. n + length teams) fresh ∙ omega arith,
          counts.1,
          ap some failures,
          ap (λ l. if is_empty l then finished else failed) failures,
          refl,
        ))
