-- ===== src/Access/Tests.antt =====
-- A region with a default group and a deployed opt-in group, and the theorems applied there.
use amazee_ai.Access.Slugs.{has_slug, effective_team_group_slugs-members, HasGroup}
use mathlib.Core.List.{Memᴰ}
use amazee_ai.Common.Sort.{insert_by, sort_by}
use amazee_ai.Common.{
  [], none, some, true, false, refl, ◌≡◌, ◌∷◌, ◌==◌, if◌then◌else◌, List, length, select, ℕ, Option,
  any, Instant, ◌↔◌,
}
use amazee_ai.Access.{
  Region, Catalog, CatalogSettings, effective_team_group_slugs, region_team_ids, TeamRow, String,
  catalog_manages, set_of, Group,
}
use amazee_ai.Access.Fanout.{
  SyncRun, sync_region_teams_task, sync_region_teams_task_lem, running, failing, is_empty, finished,
  failed,
}

abbrev settings : CatalogSettings
settings = record { is_local = false; managed_regions = "eu" ∷ [] }

abbrev eu : Region
eu = record { id = 1; name = "eu"; is_active = true; default_access_group_id = some 10 }

abbrev team_row : ℕ → Option ℕ → Option Instant → TeamRow
team_row n region deleted = record { id = n; region_id = region; deleted_at = deleted }

abbrev catalog : Catalog
catalog = record {
  groups = record { id = 11; slug = "large" } ∷ record { id = 10; slug = "basic" } ∷ [];
  group_models = (10, 5) ∷ [];
  group_regions = (11, 1) ∷ [];
  team_groups = (7, 11) ∷ [];
  teams = team_row 7 (some 1) none ∷ team_row 8 none none ∷ team_row 9 (some 1) (some 3) ∷ [];
  team_regions = (8, 1) ∷ [];
}

-- Team 8 was never provisioned.
abbrev push : ℕ → List String → Option String
push team models = if team == 8 then some "unknown team" else none

abbrev run : SyncRun
run = record {
  region_id = 1;
  status = running;
  total = 0;
  done = 0;
  failed_team_ids = none;
  error_sample = none;
  finished_at = none;
}

program : Unit {0}
unfolding effective_team_group_slugs region_team_ids sync_region_teams_task select any sort_by
    catalog_manages set_of
program = tt

slugs_run : effective_team_group_slugs settings catalog 7 eu ≡ some ("basic" ∷ "large" ∷ [])
unfolding program insert_by
slugs_run = refl

effective_team_group_slugs-members_example :
    (slugs : List String) × (effective_team_group_slugs settings catalog 7 eu ≡ some slugs)
    × ((has_slug "large" slugs ≡ true)
        ↔ ((g : Group) × Memᴰ g catalog.groups × (g.slug ≡ "large") × HasGroup catalog 7 eu 10 g))
effective_team_group_slugs-members_example =
    effective_team_group_slugs-members settings catalog 7 eu 10 "large" refl
      (unfold program in refl)

sync_region_teams_task_lem_example :
    let after = sync_region_teams_task settings catalog push 50 "missing" (some eu) run in
    (after.done ≡ length (region_team_ids catalog 1))
    × (after.total ≡ length (region_team_ids catalog 1))
    × (after.failed_team_ids ≡ some (failing settings catalog push eu (region_team_ids catalog 1)))
    × (after.status ≡ (
        if is_empty (failing settings catalog push eu (region_team_ids catalog 1))
        then finished
        else failed))
    × (after.finished_at ≡ some 50)
sync_region_teams_task_lem_example =
    sync_region_teams_task_lem settings catalog push 50 "missing" eu run refl refl
