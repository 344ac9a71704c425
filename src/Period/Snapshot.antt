-- ===== src/Period/Snapshot.antt =====
-- The snapshot of a team's spend that LiteLLM reports, fetch_team_spend_snapshot_for_region of
-- app/core/spend_period_service.py. Amounts are natural numbers.
use Prim.Native.String.{String}
use text.Mathlib.Text.{◌==◌ as same_text}
use amazee_ai.Common.Sort.{sort_by}
use amazee_ai.Common.{
  none, some, true, false, ◌&&◌, ◌==◌, if◌then◌else◌, Bool, List, Option, ℕ, first, is_some, leb,
  map, select, truthy,
}

-- A key in a snapshot.
pub record KeySpend : Type 0 where
  pub key_id : Option ℕ
  pub owner_id : Option ℕ
  pub key_name : Option String
  pub spend : ℕ
  pub max_budget : Option ℕ
  pub prompt_tokens : Option ℕ
  pub completion_tokens : Option ℕ
  pub total_tokens : Option ℕ

pub record Snapshot : Type 0 where
  pub total_spend : ℕ
  pub total_budget : Option ℕ
  pub total_prompt_tokens : Option ℕ
  pub total_completion_tokens : Option ℕ
  pub total_tokens : Option ℕ
  pub keys : List KeySpend

-- A row of `ai_tokens`, and a key as LiteLLM reports it; the user is there where it is a number.
pub record KeyRow : Type 0 where
  pub id : ℕ
  pub name : Option String
  pub owner_id : Option ℕ
  pub team_id : Option ℕ
  pub region_id : Option ℕ

pub record LitellmKey : Type 0 where
  pub key_name : Option String
  pub owner_id : Option ℕ
  pub spend : ℕ
  pub max_budget : Option ℕ
  pub prompt_tokens : Option ℕ
  pub completion_tokens : Option ℕ
  pub total_tokens : Option ℕ

pub record LitellmTeam : Type 0 where
  pub spend : ℕ
  pub max_budget : Option ℕ
  pub prompt_tokens : Option ℕ
  pub completion_tokens : Option ℕ
  pub total_tokens : Option ℕ
  pub keys : List LitellmKey

abbrev pub same_optional : {A : Type 0} → (A → A → Bool) → Option A → Option A → Bool
same_optional same (some a) (some b) = same a b
same_optional same _ _ = false

abbrev pub same_number : Option ℕ → Option ℕ → Bool
same_number = same_optional (λ a b. a == b)

abbrev pub same_name : Option String → Option String → Bool
same_name = same_optional same_text

abbrev pub newer_key : KeyRow → KeyRow → Bool
newer_key a b = leb b.id a.id

unfoldable pub team_keys : ℕ → ℕ → List KeyRow → List KeyRow
team_keys team region keys =
    sort_by newer_key (
      select (λ k. same_number k.region_id (some region) && same_number k.team_id (some team)) keys)

-- The filters by name and by owner, where LiteLLM has them.
abbrev pub is_candidate : LitellmKey → KeyRow → Bool
is_candidate l k =
    (if truthy l.key_name then same_name k.name l.key_name else true)
    && (if is_some l.owner_id then same_number k.owner_id l.owner_id else true)

abbrev pub id_of : Option KeyRow → Option ℕ
id_of none = none
id_of (some k) = some k.id

unfoldable pub key_spend : List KeyRow → LitellmKey → KeySpend
key_spend rows l = record {
  key_id = id_of (first (select (is_candidate l) rows));
  owner_id = l.owner_id;
  key_name = l.key_name;
  spend = l.spend;
  max_budget = l.max_budget;
  prompt_tokens = l.prompt_tokens;
  completion_tokens = l.completion_tokens;
  total_tokens = l.total_tokens;
}

unfoldable pub fetch_team_spend_snapshot_for_region : LitellmTeam → ℕ → ℕ → List KeyRow → Snapshot
unfolding team_keys key_spend
fetch_team_spend_snapshot_for_region t team region keys = record {
  total_spend = t.spend;
  total_budget = t.max_budget;
  total_prompt_tokens = t.prompt_tokens;
  total_completion_tokens = t.completion_tokens;
  total_tokens = t.total_tokens;
  keys = map (key_spend (team_keys team region keys)) t.keys;
}
