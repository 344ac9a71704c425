-- ===== src/Period/Tests.antt =====
-- The windows of the ledger's sample, and the theorems applied there.
use amazee_ai.Common.Table.{find_row}
use amazee_ai.Common.Sort.{sort_by}
use amazee_ai.Period.Subscription.{window_subscription}
use amazee_ai.Pool.{is_running_cycle}
use amazee_ai.Period.Credit.{credit_window_spans}
use amazee_ai.Limits.Model.{pool}
use amazee_ai.Common.{none, some, refl, ◌≤◌, ◌≡◌, Instant, is_some, any, plus_days, select}
use amazee_ai.Period.{
  SpendTeam, resolve_team_period_window, active_subscription_entry, credit_window,
  oldest_active_topup, latest_active_topup,
}
use amazee_ai.Ledger.Samples.{book, second_topup}

abbrev seven : SpendTeam
seven = record { id = 7; budget_type = pool; created_at = some 10; last_payment = none }

-- The cycle of the sample ends 30 days after instant 100; at instant `late` it is over.
abbrev late : Instant
late = plus_days 100 31

program : Unit {0}
unfolding resolve_team_period_window active_subscription_entry credit_window oldest_active_topup
    latest_active_topup sort_by select
program = tt

credit_run : (resolve_team_period_window 365 late seven 1 book).period_start ≡ some 50
unfolding program
credit_run = refl

credit_window_spans_example :
    (start : Instant) × (end : Instant) × ((resolve_team_period_window 365 late seven 1
        book).period_start
      ≡ some start)
    × ((resolve_team_period_window 365 late seven 1 book).period_end ≡ some end)
    × (start ≤ 90)
    × (plus_days 90 365 ≤ end)
unfolding find_row
credit_window_spans_example =
    credit_window_spans 365 late seven 1 book 3 second_topup refl (unfold program in refl)
      (unfold program in refl) (unfold program in refl)

window_subscription_example :
    is_some (resolve_team_period_window 365 200 seven 1 book).active_subscription
    ≡ any (is_running_cycle 200 7 1) book.entries
window_subscription_example = window_subscription 365 200 seven 1 book
