-- ===== src/Common/Values.antt =====
-- The values of a row: signed integers, nullable texts, instants.
use Prim.Native.Nat.{ℕ, zero, suc, ◌+◌, ◌*◌}
use Prim.Native.String.{String}
use mathlib.Core.Bool.{Bool, true, false, not}
use mathlib.Core.Option.{Option, none, some}
use text.Mathlib.Text.{◌==◌}
use amazee_ai.Common.Tests.{ltb}

-- `negsuc n` is -(n + 1).
pub data ℤ : Type 0 where
  pos : ℕ → ℤ
  negsuc : ℕ → ℤ

-- max(0, x)
abbrev pub pos_part : ℤ → ℕ
pos_part (pos n) = n
pos_part (negsuc n) = 0

-- `if x <= 0: ...` as a match: the number, where it is positive.
abbrev pub positive : ℤ → Option ℕ
positive (pos zero) = none
positive (pos (suc n)) = some (suc n)
positive (negsuc n) = none

-- Microseconds since the epoch, in UTC.
abbrev pub Instant : Type 0
Instant = ℕ

abbrev pub day : ℕ
day = 86_400_000_000

-- `t + timedelta(days=n)`
abbrev pub plus_days : Instant → ℕ → Instant
plus_days t n = t + n * day

-- `column == value` in SQL: NULL equals nothing.
abbrev pub sql_eq : Option String → Option String → Bool
sql_eq (some s) (some t) = s == t
sql_eq _ _ = false

-- `if text:`
abbrev pub truthy : Option String → Bool
truthy none = false
truthy (some s) = not (s == "")

-- `column IS NULL OR column > now`
abbrev pub unexpired : Instant → Option Instant → Bool
unexpired now none = true
unexpired now (some t) = ltb now t
