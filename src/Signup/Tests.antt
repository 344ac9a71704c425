-- ===== src/Signup/Tests.antt =====
-- The cap and the pruning run on a small table, and the theorems applied there.
use amazee_ai.Signup.Pruning.{prune_signup_events-decision}
use amazee_ai.Common.{
  [], none, some, true, refl, arith, ◌+◌, ◌-◌, ◌*◌, ◌≤◌, ◌≡◌, ◌∷◌, Instant, List, day, select,
}
use amazee_ai.Signup.{
  SignupSettings, SignupEvent, enforce_signup_velocity, prune_signup_events, attempt, recent,
  minute,
}
use amazee_ai.Signup.Cap.{Attempt, admitted_of, enforce_signup_velocity_capped}

abbrev settings : SignupSettings
settings = record {
  enable_signup_velocity_limit = true;
  signup_velocity_window_minutes = 60;
  signup_max_per_ip_per_window = 2;
  signup_events_retention_days = 30;
}

abbrev event : Instant → SignupEvent
event at = record { ip_address = some "10.0.0.1"; email = none; endpoint = none; created_at = at }

-- Day 100, an attempt long ago and one just before.
abbrev now : Instant
now = 100 * day

abbrev events : List SignupEvent
events = event day ∷ event (now - minute) ∷ []

abbrev attempt_at : Instant → Attempt
attempt_at at = record { at = at; email = none; endpoint = none }

abbrev hammering : List Attempt
hammering = attempt_at now ∷ attempt_at (now + 1) ∷ attempt_at (now + 2) ∷ []

admitted_run : admitted_of settings "10.0.0.1" hammering events ≡ 1
unfolding admitted_of enforce_signup_velocity attempt recent select
admitted_run = refl

enforce_signup_velocity_capped_example :
    admitted_of settings "10.0.0.1" hammering events
    ≤ 2 - recent "10.0.0.1" (now - 30 * minute) events
enforce_signup_velocity_capped_example =
    enforce_signup_velocity_capped settings "10.0.0.1" (now - 30 * minute) hammering events refl
      refl (omega arith)

prune_signup_events-decision_example :
    (enforce_signup_velocity settings
      (now + 1)
      (some (some "10.0.0.1"))
      none
      none
      (prune_signup_events settings now events).1).0
    ≡ (enforce_signup_velocity settings (now + 1) (some (some "10.0.0.1")) none none events).0
prune_signup_events-decision_example =
    prune_signup_events-decision settings now (now + 1) (some (some "10.0.0.1")) none none events
      (omega arith) (omega arith)
