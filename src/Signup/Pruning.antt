-- ===== src/Signup/Pruning.antt =====
-- `prune_signup_events` of app/services/signup_velocity.py, and the decisions that follow it.
use amazee_ai.Common.{
  [], refl, arith, ◌+◌, ◌*◌, ◌≤◌, ◌≡◌, ◌∷◌, select, Instant, List, Option, length, not, day, ltb,
  inl, inr, Bool-cases, none, some,
}
use amazee_ai.Signup.{
  SignupSettings, SignupEvent, prune_signup_events, enforce_signup_velocity, recent, attempt,
  String, minute, window_start, cutoff,
}

recent-prune :
    (ip : String) (start old : Instant) (events : List SignupEvent)
    → old ≤ start
    → recent ip start (select (λ e. not (ltb e.created_at old)) events) ≡ recent ip start events
unfolding recent select
recent-prune ip start old [] h = refl
recent-prune ip start old (e ∷ es) h = elim (Bool-cases (ltb e.created_at old)) [
  | inl gone ↦ ground (arith, gone, recent-prune ip start old es h)
  | inr here ↦ ground (arith, here, recent-prune ip start old es h)
]

-- The rows that are counted as removed are those that are gone.
prune_signup_events_count :
    (c : SignupSettings) (now : Instant) (events : List SignupEvent)
    → (prune_signup_events c now events).0 + length (prune_signup_events c now events).1
      ≡ length events
unfolding prune_signup_events select
prune_signup_events_count c now [] = refl
prune_signup_events_count c now (e ∷ es) = ground (arith, prune_signup_events_count c now es)

attempt-decision :
    (c : SignupSettings) (pruned now : Instant) (ip : String) (email endpoint : Option String)
    (events : List SignupEvent)
    → c.signup_velocity_window_minutes * minute ≤ c.signup_events_retention_days * day
    → pruned ≤ now
    → (attempt c now ip email endpoint (prune_signup_events c pruned events).1).0
      ≡ (attempt c now ip email endpoint events).0
unfolding attempt prune_signup_events
attempt-decision c pruned now ip email endpoint events w h =
    rw (recent-prune ip (window_start c now) (cutoff c pruned) events (omega arith)) refl

-- Where the events are kept for at least the window, an attempt at or after the pruning gets the
-- answer that it would have got without it.
pub prune_signup_events-decision :
    (c : SignupSettings) (pruned now : Instant) (request : Option (Option String))
    (email endpoint : Option String) (events : List SignupEvent)
    → c.signup_velocity_window_minutes * minute ≤ c.signup_events_retention_days * day
    → pruned ≤ now
    → (enforce_signup_velocity c now request email endpoint
        (prune_signup_events c pruned events).1).0
      ≡ (enforce_signup_velocity c now request email endpoint events).0
unfolding enforce_signup_velocity
prune_signup_events-decision c pruned now none email endpoint events w h = ground arith
prune_signup_events-decision c pruned now (some none) email endpoint events w h = ground arith
prune_signup_events-decision c pruned now (some (some ip)) email endpoint events w h =
    ground (arith, attempt-decision c pruned now ip email endpoint events w h)
