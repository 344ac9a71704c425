-- ===== src/Signup/Cap.antt =====
-- Sequences of signup attempts of one address, app/services/signup_velocity.py.
use text.Mathlib.TextPositions.{eq_refl}
use amazee_ai.Common.{
  [], some, true, suc, arith, ◌+◌, ◌≤◌, ◌≡◌, ◌∷◌, ◌++◌, Instant, ℕ, List, Option, select, truthy,
  All, max, refl, ◌-◌, subst,
}
use amazee_ai.Signup.{
  SignupSettings, SignupEvent, Outcome, enforce_signup_velocity, String, recent, admitted,
  is_recent, too_many_requests, window_start, attempt,
}

-- An attempt from an address: when, and what it says.
pub record Attempt : Type 0 where
  pub at : Instant
  pub email : Option String
  pub endpoint : Option String

abbrev admissions : Outcome → ℕ
admissions admitted = 1
admissions too_many_requests = 0

-- How many of the attempts of an address are admitted, one after the other.
unfoldable pub admitted_of : SignupSettings → String → List Attempt → List SignupEvent → ℕ
admitted_of c ip [] events = 0
admitted_of c ip (a ∷ attempts) events =
    let r = enforce_signup_velocity c a.at (some (some ip)) a.email a.endpoint events in
    admissions r.0 + admitted_of c ip attempts r.1

recent-append :
    (ip : String) (start : Instant) (events : List SignupEvent) (e : SignupEvent)
    → is_recent ip start e ≡ true
    → recent ip start (events ++ e ∷ []) ≡ suc (recent ip start events)
unfolding recent select
recent-append ip start [] e h = ground (arith, h)
recent-append ip start (x ∷ xs) e h = ground (arith, recent-append ip start xs e h)

recent_mono :
    (ip : String) (a b : Instant) (events : List SignupEvent)
    → a ≤ b
    → recent ip b events ≤ recent ip a events
unfolding recent select
recent_mono ip a b [] h = omega arith
recent_mono ip a b (x ∷ xs) h = ground (arith, recent_mono ip a b xs h)

enforce-attempt :
    (c : SignupSettings) (now : Instant) (ip : String) (email endpoint : Option String)
    (events : List SignupEvent)
    → c.enable_signup_velocity_limit ≡ true
    → truthy (some ip) ≡ true
    → enforce_signup_velocity c now (some (some ip)) email endpoint events
      ≡ attempt c now ip email endpoint events
unfolding enforce_signup_velocity
enforce-attempt c now ip email endpoint events on named = rw (on, named) refl

attempt-recent :
    (c : SignupSettings) (now : Instant) (ip : String) (email endpoint : Option String)
    (start : Instant) (events : List SignupEvent)
    → start ≤ now
    → recent ip start (attempt c now ip email endpoint events).1 ≡ suc (recent ip start events)
unfolding attempt
attempt-recent c now ip email endpoint start events h =
    recent-append ip start events _ (ground (arith, eq_refl ip))

attempt-step :
    (c : SignupSettings) (now : Instant) (ip : String) (email endpoint : Option String)
    (start : Instant) (events : List SignupEvent) (later : ℕ)
    → window_start c now ≤ start
    → later + suc (recent ip start events)
      ≤ max c.signup_max_per_ip_per_window (suc (recent ip start events))
    → admissions (attempt c now ip email endpoint events).0 + later + recent ip start events
      ≤ max c.signup_max_per_ip_per_window (recent ip start events)
unfolding attempt
attempt-step c now ip email endpoint start events later h k =
    ground (arith, recent_mono ip (window_start c now) start events h)

-- Every attempt in the window is counted, so each admission uses up one of the cap.
admitted_bound :
    (c : SignupSettings) (ip : String) (start : Instant) (attempts : List Attempt)
    (events : List SignupEvent)
    → c.enable_signup_velocity_limit ≡ true
    → truthy (some ip) ≡ true
    → All (λ a. (start ≤ a.at) × (window_start c a.at ≤ start)) attempts
    → admitted_of c ip attempts events + recent ip start events
      ≤ max c.signup_max_per_ip_per_window (recent ip start events)
unfolding admitted_of
admitted_bound c ip start [] events on named h = omega arith
admitted_bound c ip start (a ∷ attempts) events on named h =
    let next = (attempt c a.at ip a.email a.endpoint events).1 in
    let counted = attempt-recent c a.at ip a.email a.endpoint start events h.0.0 in
    rw (enforce-attempt c a.at ip a.email a.endpoint events on named) (
      attempt-step c a.at ip a.email a.endpoint start events (admitted_of c ip attempts next) h.0.1
        (subst (λ n. admitted_of c ip attempts next + n ≤ max c.signup_max_per_ip_per_window n)
          counted (admitted_bound c ip start attempts next on named h.1)))

-- With the limit enabled, of a sequence of attempts of one nonempty address that fall within one
-- window at most the cap is admitted, less the attempts that the table already had since the start
-- of the window.
pub enforce_signup_velocity_capped :
    (c : SignupSettings) (ip : String) (start : Instant) (attempts : List Attempt)
    (events : List SignupEvent)
    → c.enable_signup_velocity_limit ≡ true
    → truthy (some ip) ≡ true
    → All (λ a. (start ≤ a.at) × (window_start c a.at ≤ start)) attempts
    → admitted_of c ip attempts events ≤ c.signup_max_per_ip_per_window - recent ip start events
enforce_signup_velocity_capped c ip start attempts events on named h =
    omega (arith, admitted_bound c ip start attempts events on named h)
