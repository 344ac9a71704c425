-- ===== src/Access.antt =====
-- Model access groups, app/services/access_groups.py: the models of a team in a region, and the run
-- that writes them for every team of a region. The tables are those of app/db/models.py.
use amazee_ai.Common.{
  ◌==◌, [], none, some, true, false, ◌&&◌, ◌||◌, ◌∷◌, ◌++◌, if◌then◌else◌, Bool, List, ℕ, Option,
  any, is_none, map, Instant, not, select,
}
pub mod Slugs
pub mod Fanout
mod Tests
use Prim.Native.String.{String, compare as compare_text}
use text.Mathlib.Text.{◌==◌ as same_text, is_le}
use amazee_ai.Common.Sort.{sort_by}

pub record Group : Type 0 where
  pub id : ℕ
  pub slug : String

pub record Region : Type 0 where
  pub id : ℕ
  pub name : String
  pub is_active : Bool
  pub default_access_group_id : Option ℕ

pub record TeamRow : Type 0 where
  pub id : ℕ
  pub region_id : Option ℕ
  pub deleted_at : Option Instant

-- The groups, and the rows that tie them to models, regions and teams, as pairs of numbers.
pub record Catalog : Type 0 where
  pub groups : List Group
  pub group_models : List (ℕ × ℕ)
  pub group_regions : List (ℕ × ℕ)
  pub team_groups : List (ℕ × ℕ)
  pub teams : List TeamRow
  pub team_regions : List (ℕ × ℕ)

abbrev pub has_pair : ℕ → ℕ → List (ℕ × ℕ) → Bool
has_pair a b = any (λ p. p.0 == a && p.1 == b)

-- The order of Python's `sorted` on texts.
abbrev pub text_before : String → String → Bool
text_before s t = is_le (compare_text s t)

abbrev pub slugs_where : (Group → Bool) → Catalog → List String
slugs_where p c = map (λ g. g.slug) (select p c.groups)

unfoldable pub model_access_group_slugs : Catalog → ℕ → ℕ → List String
model_access_group_slugs c model region = sort_by text_before (
    slugs_where (λ g. has_pair g.id model c.group_models && has_pair g.id region c.group_regions) c)

-- A set of texts, as the list without repetitions.
pub set_of : List String → List String
set_of [] = []
set_of (s ∷ ss) = if any (λ t. same_text t s) ss then set_of ss else s ∷ set_of ss

-- `catalog_manages` of app/core/config.py, with the names of CATALOG_MANAGED_REGIONS split up.
pub record CatalogSettings : Type 0 where
  pub is_local : Bool
  pub managed_regions : List String

unfoldable pub catalog_manages : CatalogSettings → String → Bool
catalog_manages c name = if c.is_local then true else any (λ r. same_text r name) c.managed_regions

abbrev pub is_default : Region → Group → Bool
is_default r g = elim r.default_access_group_id [ none ↦ false | some d ↦ g.id == d ]

abbrev pub is_opted_in : Catalog → ℕ → Region → Group → Bool
is_opted_in c team r g = has_pair team g.id c.team_groups && has_pair g.id r.id c.group_regions

-- None where the region has no default group or is not managed. A foreign key keeps the default group.
unfoldable pub effective_team_group_slugs :
    CatalogSettings → Catalog → ℕ → Region → Option (List String)
unfolding catalog_manages set_of
effective_team_group_slugs settings c team r =
    if is_none r.default_access_group_id || not (catalog_manages settings r.name)
    then none
    else some (
        sort_by text_before
          (set_of (slugs_where (is_default r) c ++ slugs_where (is_opted_in c team r) c)))

-- Teams that are not deleted, by their region or by a row of team_regions.
abbrev pub is_region_team : Catalog → ℕ → TeamRow → Bool
is_region_team c region t =
    is_none t.deleted_at
    && (elim t.region_id [ none ↦ false | some r ↦ r == region ]
        || has_pair t.id region c.team_regions)

unfoldable pub region_team_ids : Catalog → ℕ → List ℕ
region_team_ids c region = map (λ t. t.id) (select (is_region_team c region) c.teams)
