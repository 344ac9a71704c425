-- ===== src/Lib.antt =====
-- A model of the core of the amazee.ai backend (app/): the prepaid budget of a team in a region,
-- the billing cycle that renews it, the limits on what it may create, the windows that its spend
-- is measured in, the alerts on it, the teams, their retention and their access groups, the trials
-- and their removal, who may call what, how often an address may sign up, and which email domains
-- are refused. The request handlers and the background jobs rely on these services.
--
-- Ledger.antt and the files below Ledger/ model app/core/periodic_budget_ledger_service.py over
-- the table periodic_budget_ledger_entries of app/db/models.py. An Entry is a row and a Ledger the
-- table with its next key; a function takes the table and the current instant and returns the
-- table after it. add_subscription_entry, add_topup_entry, allocate_period_spend_fifo,
-- expire_subscription_entries, compute_active_topup_remaining and materialize_topup_rollovers keep
-- their names; the query _active_entries is active_entries. A query is a selection of the rows,
-- sorted where it has an ORDER BY; an object that a query returned is written back under its key
-- (Common/Table.antt), which is what a session's identity map does. A flush checks the unique
-- constraints and answers integrity_error where one is violated. Instants are microseconds in UTC.
-- The columns amount_cents and consumed_cents are natural numbers, since the service never writes
-- a negative one; the arguments amount_cents and spend_cents are integers. created_at, which
-- nothing reads, is left out.
--
-- Pool.antt and the files below Pool/ model app/core/pool_budget_service.py, which reads the
-- ledger and the table of pool purchases. The available budget is in cents (the source divides
-- whole cents by 100 and rounds to four places), and a budget duration such as "31d" is its number
-- of days.
--
-- Limits.antt and the files below Limits/ model class LimitService of app/core/limit_service.py
-- over the table limited_resources: Limits/Setting.antt the hierarchy MANUAL over PRODUCT over
-- DEFAULT and the cascade of a system limit (_set_limit), Limits/Reading.antt what a team has
-- (get_team_limits writes a row down for each system limit that the team lacks),
-- Limits/Applying.antt the restrictions of a token, the hand-over of a team's budget and the
-- application of products and defaults, Limits/Resetting.antt the way back of a limit to products
-- and defaults (reset_limit, reset_team_limits), Limits/Defaults.antt the rows of the system at
-- start (setup_default_limits, its reading of ENABLE_LIMITS a Boolean), Limits/Counting.antt the
-- counters and the checks before a user, a key or a vector database is created. A call takes the
-- Store and returns a result and the Store, since what is written before a raise stays written.
-- Float columns are natural numbers: counts as they are, dollars in cents. Changing a team's
-- budget reads the team's limits, which may set further limits; trigger_team_budget_propagation
-- takes a bound on that depth, 2. One level is what occurs: a team whose budget changes has its
-- budget row by then, so reading its limits copies no budget from the system. The job that the
-- executor runs is an entry of the queue propagations. Timestamps, logging and metrics are left
-- out.
--
-- Period.antt and the files below Period/ model app/core/spend_period_service.py: the window in
-- which a team's spend is measured (resolve_team_period_window, for a caller that passes no
-- LiteLLM data, as the spend API and the budget alerts do), read from the ledger, and the cycle of
-- a cap that is written in days (the tail of current_cycle_start). Period/Snapshot.antt and
-- Period/Closing.antt model what is kept of a closed window (fetch_team_spend_snapshot_for_region,
-- upsert_team_spend_period): the rows that other tasks commit between the query and the insertion
-- are an argument, the unique indexes are tests, and the answer of LiteLLM is an argument; the
-- JSON payload is left out.
--
-- Signup.antt and the files below Signup/ model app/services/signup_velocity.py: the cap on signup
-- attempts of an address in a rolling window, and the pruning of old attempts. Attempts come one
-- after the other; the source says that concurrent ones may pass the cap, which is not modelled.
--
-- Alert.antt and the files below Alert/ model the thresholds of app/core/budget_alert_service.py:
-- the band that a subject has crossed, the decision of _classify_subjects, the rows of
-- budget_alert_state, and one region of the sweep of monitor_budget_thresholds (Alert/Sweep.antt:
-- resets, delivery, marking), with the batches of app/services/budget_alert_webhook.py. What the
-- webhook accepts is a parameter. An event id is the four parts that event_id_for takes a digest
-- of. The subjects of a sweep, whose spend evaluate_region collects from LiteLLM, are arguments.
--
-- Access.antt and the files below Access/ model app/services/access_groups.py: the slugs of a team
-- in a region and the run that pushes them for every team of a region. Whether a push fails is a
-- parameter.
--
-- Domains.antt and the files below Domains/ model app/services/disposable_domains.py: the table of
-- disposable email domains, its refresh from the committed file, the setting and the upstream list
-- (refresh_disposable_domains), and the test of an email (is_blocked,
-- assert_email_domain_allowed). A text is the list of its code points, and a set of texts the list
-- without repetitions. What Python takes from the Unicode tables, str.lower and the test for white
-- space, is the parameter Unicode; the lines that are read are arguments.
--
-- Teams.antt and the files below Teams/ model app/core/team_service.py: soft deletion, restoration
-- and the propagation of a budget. A call of LiteLLM is an entry of a log, and which calls fail is
-- a parameter.
--
-- Rbac.antt and the files below Rbac/ model app/core/rbac.py and app/core/roles.py: the effective
-- role, the check of a dependency, the predefined dependencies and the gate on the declared team
-- of a key. A role text is one of the six that UserRole names, the empty text or any other.
--
-- Cycle.antt and the files below Cycle/ model the billing cycle of app/core/worker.py. Cycle.antt
-- settles the ledger for the window that ends and books the new one
-- (_sync_periodic_ledger_for_period, _sync_periodic_ledger_for_invoice,
-- _previous_period_spend_baseline_cents) with the functions of Ledger.antt over its table and the
-- rows of Period/Closing.antt. Cycle/Billing.antt is apply_billing_cycle_for_team, the budgets
-- that LiteLLM is given, with the drift check; a call of LiteLLM is an entry of a log and which
-- calls fail is a parameter. Cycle/Invoices.antt holds the decisions of
-- _run_cycle_from_stripe_event: the regions, the budget, the shares, the guard and the status; the
-- answers of Stripe are arguments. The test on the kind of budget, which every kind that
-- BudgetType has passes, is left out. Dollars are whole cents, which the source rounds to.
--
-- Trial.antt and the files below Trial/ model app/core/trial_cleanup.py and reap_trial_keys of
-- app/core/worker.py: Trial/Selecting.antt the guard of the live region and the query,
-- Trial/Deleting.antt the deletion of one key, Trial/Reaping.antt the job. The keys of LiteLLM and
-- the databases of every region are part of the state; whether a call fails is a parameter. A
-- deletion names the database; the role of its user, which goes with it, is left out.
--
-- Retention.antt and the files below Retention/ model _check_team_retention_policy of
-- app/core/worker.py on the teams of Teams.antt, and sequences of its runs. A difference of
-- instants is 0 where it would be negative, which the comparisons do not tell from a negative one;
-- created_at is set.
--
-- Purge.antt and the files below Purge/ model hard_delete_expired_teams of app/core/worker.py: the
-- rows that a team's turn deletes, statement by statement, and the foreign keys of
-- app/db/models.py without an ON DELETE rule, each of which is a test after the deletion it may
-- refuse. Rows of the tables with a cascade are their team's number, and an entry of the audit log
-- is its user; normalize_email_for_lookup is a parameter. The calls of LiteLLM are a log; their
-- failures, which are passed over, are left out.
--
-- Reconcile.antt and the files below Reconcile/ model the loop of reconcile_team_keys of
-- app/core/worker.py over the keys of a team, whatever their region: the sums of the spend, and
-- the update that each key needs, with the bodies of the requests in app/services/litellm.py. What
-- LiteLLM tells of a key is an argument; what it makes of an update is a parameter with its
-- documented behaviour as hypotheses. The batches and the counters of the limits that are set at
-- the end are left out.
--
-- Common.antt and the files below Common/ hold what these share: Boolean tests, selections and
-- sums over rows, tables with a key, sorting, nullable texts and instants.
--
-- Settings, the current instant and the contents of the other tables are arguments. Not modelled:
-- the calls of LiteLLM, Stripe and the other remote systems, the HTTP routes, the other jobs of
-- the background worker (the expiry of trial users, the reconciliation of products), the
-- collection of spend for alerts, migrations and scripts.
pub mod Common
pub mod Ledger
pub mod Pool
pub mod Limits
pub mod Rbac
pub mod Period
pub mod Signup
pub mod Alert
pub mod Access
pub mod Cycle
pub mod Trial
pub mod Retention
pub mod Purge
pub mod Reconcile
pub mod Domains
pub mod Teams
