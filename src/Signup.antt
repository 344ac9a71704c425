-- ===== src/Signup.antt =====
-- The cap on signup attempts of one address within a rolling window,
-- app/services/signup_velocity.py, over the table signup_events of app/db/models.py.
pub mod Cap
pub mod Pruning
mod Tests
use Prim.Native.String.{String}
use amazee_ai.Common.{
  Instant, [], none, some, ◌-◌, ◌*◌, ◌&&◌, ◌∷◌, ◌++◌, ◌==◌, if◌then◌else◌, Bool, List, Option, day,
  ℕ, leb, length, not, sql_eq, select, ltb, truthy,
}

-- The settings that the service reads.
pub record SignupSettings : Type 0 where
  pub enable_signup_velocity_limit : Bool
  pub signup_velocity_window_minutes : ℕ
  pub signup_max_per_ip_per_window : ℕ
  pub signup_events_retention_days : ℕ

-- A row of `signup_events`.
pub record SignupEvent : Type 0 where
  pub ip_address : Option String
  pub email : Option String
  pub endpoint : Option String
  pub created_at : Instant

-- The call returns, or raises the HTTPException 429.
pub data Outcome : Type 0 where
  admitted too_many_requests : Outcome

abbrev pub minute : ℕ
minute = 60_000_000

-- A request may be missing, and may have no client; a client is its host.
abbrev pub client_ip : Option (Option String) → Option String
client_ip none = none
client_ip (some client) = client

abbrev pub is_recent : String → Instant → SignupEvent → Bool
is_recent ip window_start e = sql_eq e.ip_address (some ip) && leb window_start e.created_at

pub recent : String → Instant → List SignupEvent → ℕ
recent ip window_start events = length (select (is_recent ip window_start) events)

abbrev pub window_start : SignupSettings → Instant → Instant
window_start c now = now - c.signup_velocity_window_minutes * minute

-- The attempt is counted, then recorded, whatever the count says.
unfoldable pub attempt :
    SignupSettings
    → Instant
    → String
    → Option String
    → Option String
    → List SignupEvent
    → Outcome × List SignupEvent
unfolding recent
attempt c now ip email endpoint events = (
  (if leb c.signup_max_per_ip_per_window (recent ip (window_start c now) events)
      then too_many_requests
      else admitted),
  events
      ++ record { ip_address = some ip; email = email; endpoint = endpoint; created_at = now } ∷ [],
)

unfoldable pub enforce_signup_velocity :
    SignupSettings
    → Instant
    → Option (Option String)
    → Option String
    → Option String
    → List SignupEvent
    → Outcome × List SignupEvent
unfolding attempt
enforce_signup_velocity c now request email endpoint events =
    if not c.enable_signup_velocity_limit then (admitted, events) else (elim (client_ip request) [
      | none ↦ (admitted, events)
      | some ip ↦
          if truthy (some ip) then attempt c now ip email endpoint events else (admitted, events)
    ])

abbrev pub cutoff : SignupSettings → Instant → Instant
cutoff c now = now - c.signup_events_retention_days * day

-- The rows removed, and the table without them.
unfoldable pub prune_signup_events :
    SignupSettings → Instant → List SignupEvent → ℕ × List SignupEvent
prune_signup_events c now events = (
  length (select (λ e. ltb e.created_at (cutoff c now)) events),
  select (λ e. not (ltb e.created_at (cutoff c now))) events,
)
