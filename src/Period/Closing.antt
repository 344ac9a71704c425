-- ===== src/Period/Closing.antt =====
-- What app/core/spend_period_service.py keeps of a closed window: its row of `team_spend_periods` with
-- one row of `team_spend_period_keys` for each key (upsert_team_spend_period). The JSON payload is left
-- out. `rivals` are the rows of the table that other tasks commit between the query and the insertion.
use amazee_ai.Period.Snapshot.{KeySpend, Snapshot, same_number, same_name}
use Prim.Native.String.{String}
use amazee_ai.Limits.Model.{BudgetType, periodic, pool}
use amazee_ai.Common.{
  ◌+◌, length, [], none, some, true, false, suc, ◌&&◌, ◌||◌, ◌∷◌, ◌++◌, ◌==◌, if◌then◌else◌, Bool,
  List, Option, ℕ, Instant, any, find_first, is_some, map, not,
}

pub record Window : Type 0 where
  pub team_id : ℕ
  pub region_id : ℕ
  pub budget_type : BudgetType
  pub period_start : Instant
  pub period_end : Instant

-- A row of `team_spend_periods`.
pub record SpendPeriod : Type 0 where
  pub id : ℕ
  pub window : Window
  pub source : String
  pub created_at : Instant
  pub total_spend : ℕ
  pub total_budget : Option ℕ
  pub total_prompt_tokens : Option ℕ
  pub total_completion_tokens : Option ℕ
  pub total_tokens : Option ℕ
  pub subscription_remaining_cents : Option ℕ
  pub topup_remaining_cents : Option ℕ
  pub desired_remaining_cents : Option ℕ
  pub stripe_event_id : Option String
  pub stripe_invoice_id : Option String
  pub stripe_subscription_id : Option String

-- A row of `team_spend_period_keys`: the period, and the key as the snapshot has it.
pub record SpendPeriodKey : Type 0 where
  pub team_spend_period_id : ℕ
  pub key : KeySpend

pub record Tables : Type 0 where
  pub periods : List SpendPeriod
  pub period_keys : List SpendPeriodKey
  pub next_id : ℕ

-- The other arguments of the call.
pub record Closing : Type 0 where
  pub source : String
  pub now : Instant
  pub stripe_event_id : Option String
  pub stripe_invoice_id : Option String
  pub stripe_subscription_id : Option String
  pub subscription_remaining_cents : Option ℕ
  pub topup_remaining_cents : Option ℕ
  pub desired_remaining_cents : Option ℕ

pub data Outcome : Type 0 where
  returned : SpendPeriod → Outcome
  integrity_error runtime_error : Outcome

abbrev pub same_budget_type : BudgetType → BudgetType → Bool
same_budget_type pool pool = true
same_budget_type periodic periodic = true
same_budget_type _ _ = false

abbrev pub same_window : Window → Window → Bool
same_window a b =
    a.team_id == b.team_id
    && a.region_id == b.region_id
    && same_budget_type a.budget_type b.budget_type
    && a.period_start == b.period_start
    && a.period_end == b.period_end

-- `_query_spend_period`
unfoldable pub query_spend_period : Window → List SpendPeriod → Option SpendPeriod
query_spend_period w periods = find_first (λ p. same_window w p.window) periods

-- The unique indexes of `team_spend_period_keys`, for two rows of one period: NULLs are distinct.
abbrev pub clashes : KeySpend → KeySpend → Bool
clashes a b =
    same_number a.key_id b.key_id
    || (not (is_some a.key_id)
        && not (is_some b.key_id)
        && same_number a.owner_id b.owner_id
        && same_name a.key_name b.key_name)

unfoldable pub have_clash : List KeySpend → Bool
have_clash [] = false
have_clash (k ∷ ks) = any (clashes k) ks || have_clash ks

abbrev pub new_row : Window → Closing → Snapshot → ℕ → SpendPeriod
new_row w c snapshot id = record {
  id = id;
  window = w;
  source = c.source;
  created_at = c.now;
  total_spend = snapshot.total_spend;
  total_budget = snapshot.total_budget;
  total_prompt_tokens = snapshot.total_prompt_tokens;
  total_completion_tokens = snapshot.total_completion_tokens;
  total_tokens = snapshot.total_tokens;
  subscription_remaining_cents = c.subscription_remaining_cents;
  topup_remaining_cents = c.topup_remaining_cents;
  desired_remaining_cents = c.desired_remaining_cents;
  stripe_event_id = c.stripe_event_id;
  stripe_invoice_id = c.stripe_invoice_id;
  stripe_subscription_id = c.stripe_subscription_id;
}

abbrev pub insert_row : Window → Closing → Snapshot → Tables → Tables
insert_row w c snapshot t = record {
  periods = t.periods ++ new_row w c snapshot t.next_id ∷ [];
  period_keys =
      t.period_keys
      ++ map (λ k. record { team_spend_period_id = t.next_id; key = k }) snapshot.keys;
  next_id = suc t.next_id;
}

-- The rows of other tasks that are committed meanwhile.
abbrev pub commit_rivals : List SpendPeriod → Tables → Tables
commit_rivals rivals t = record t {
  periods = t.periods ++ rivals;
  next_id = t.next_id + length rivals;
}

-- The insertion: the unique index of the windows refuses it where a row of the window stands there,
-- and that row is read again; a clash of keys is raised after the savepoint, and the caller's transaction
-- is undone.
unfoldable pub insert_spend_period : Window → Closing → Snapshot → Tables → Outcome × Tables
unfolding query_spend_period have_clash
insert_spend_period w c snapshot t =
    if any (λ p. same_window w p.window) t.periods
    then elim (query_spend_period w t.periods) [
      | some row ↦ (returned row, t)
      | none ↦ (runtime_error, t)
    ]
    else (if have_clash snapshot.keys
        then (integrity_error, t)
        else (returned (new_row w c snapshot t.next_id), insert_row w c snapshot t))

unfoldable pub upsert_team_spend_period :
    List SpendPeriod → Window → Closing → Snapshot → Tables → Outcome × Tables
unfolding insert_spend_period
upsert_team_spend_period rivals w c snapshot t = elim (query_spend_period w t.periods) [
  | some row ↦ (returned row, t)
  | none ↦ insert_spend_period w c snapshot (commit_rivals rivals t)
]
