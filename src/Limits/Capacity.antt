-- ===== src/Limits/Capacity.antt =====
-- The checks before a key or a vector database is created, app/core/limit_service.py, and their cap.
use amazee_ai.Common.Lists.{find_first_sound}
use amazee_ai.Limits.Manual.{limit_id}
use amazee_ai.Common.Table.{IsKeyed, set_row-IsKeyed, find_first-set_row}
use amazee_ai.Limits.Setting.{write_limit}
use amazee_ai.Limits.Counting.{
  increment_resource, verify_control_plane_count, with_current, check_key_limits,
  check_vector_db_limits, correct_count, on_not_found, take_or_refuse, check_service_key_limits,
  check_user_key_limits, validate_and_correct_service_key_count,
  validate_and_correct_user_key_count, is_key_of_user, is_service_key_of,
}
use amazee_ai.Limits.Model.{
  OwnerType, ResourceType, Limit, find_limit, Store, control_plane, ok, count, owned_by, Result,
  Action, Settings, raised, payment_required, team_owner, service_key, user_owner, vector_db,
  user_key,
}
use amazee_ai.Common.{
  some, true, false, refl, arith, ◌+◌, ◌≡◌, if◌then◌else◌, ℕ, leb, none, inl, inr, ltb, Bool-cases,
  length, select, ap, Option,
}

-- A counter's row: of the control plane, counted, and found under its owner and resource.
pub record IsCounter (kind : OwnerType) (owner : ℕ) (resource : ResourceType) (l : Limit)
    (s : Store) : Type 0 where
  pub keyed : IsKeyed limit_id s.limits
  pub found : find_limit kind owner resource s ≡ some l
  pub plane : l.limit_type ≡ control_plane
  pub unit : l.unit ≡ count

module _ (kind : OwnerType) (owner : ℕ) (resource : ResourceType) where
  -- The counter after a write to it is the row that was written.
  pub find_limit-write_limit :
      (v : ℕ) (l : Limit) (s : Store)
      → IsCounter kind owner resource l s
      → IsCounter kind owner resource (with_current v l) (write_limit (with_current v l) s)
  unfolding find_limit write_limit
  find_limit-write_limit v l s h = record {
    keyed = set_row-IsKeyed limit_id (with_current v l) s.limits h.keyed;
    found =
        find_first-set_row limit_id (owned_by kind owner resource) (with_current v l) l s.limits
          h.keyed h.found refl (find_first_sound (owned_by kind owner resource) s.limits l h.found);
    plane = h.plane;
    unit = h.unit;
  }

  increment_resource_lem :
      (n : ℕ) (l : Limit) (s : Store)
      → IsCounter kind owner resource l s
      → l.current_value ≡ some n
      → increment_resource kind owner resource s ≡ (
          if leb l.max_value n
          then (ok false, s)
          else (ok true, write_limit (with_current (n + 1) l) s))
  unfolding increment_resource verify_control_plane_count
  increment_resource_lem n l s h e = ground (arith, h.found, h.plane, h.unit)

  take_or_refuse_lem :
      (n : ℕ) (l : Limit) (s : Store)
      → IsCounter kind owner resource l s
      → l.current_value ≡ some n
      → take_or_refuse kind owner resource s ≡ (
          if leb l.max_value n
          then (raised payment_required, s)
          else (ok tt, write_limit (with_current (n + 1) l) s))
  unfolding take_or_refuse
  take_or_refuse_lem n l s h e = elim (Bool-cases (leb l.max_value n)) [
    | inl full ↦ rw (increment_resource_lem n l s h e, full) refl
    | inr room ↦ rw (increment_resource_lem n l s h e, room) refl
  ]

  -- The counter corrected to `n` and then taken.
  abbrev pub corrected : ℕ → Limit → Store → Store
  corrected n l s = write_limit (with_current n l) s

  -- What a check answers and what the counter is afterwards.
  abbrev pub Admits : ℕ → Limit → Result (Unit {0}) × Store → Type 0
  Admits n l (r, s') =
      (r ≡ (if ltb n l.max_value then ok tt else raised payment_required))
      × (find_limit kind owner resource s'
          ≡ some (with_current (if ltb n l.max_value then n + 1 else n) l))

  correct_count_lem :
      (n : ℕ) (l : Limit) (s : Store)
      → IsCounter kind owner resource l s
      → correct_count kind owner resource n s ≡ (ok tt, corrected n l s)
  unfolding correct_count
  correct_count_lem n l s h = rw (h.found) refl

  with_current_self : (n : ℕ) (l : Limit) → l.current_value ≡ some n → l ≡ with_current n l
  with_current_self n l e =
      ap (λ (o : Option ℕ). let m : Limit = record l { current_value = o } in m) e

  stored_Admits :
      (n : ℕ) (l : Limit) (s : Store) (fallback : Action (Unit {0}))
      → IsCounter kind owner resource l s
      → l.current_value ≡ some n
      → Admits n l (on_not_found (take_or_refuse kind owner resource s) fallback)
  unfolding on_not_found
  stored_Admits n l s fallback h e =
      let taken = find_limit-write_limit (n + 1) l s h in
      elim (Bool-cases (leb l.max_value n)) [
        | inl full ↦
            rw (take_or_refuse_lem n l s h e, full)
              (ground arith, ground (arith, h.found, with_current_self n l e))
        | inr room ↦
            rw (take_or_refuse_lem n l s h e, room) (ground arith, ground (arith, taken.found))
      ]

  taken_Admits :
      (n : ℕ) (l : Limit) (s : Store) (fallback : Action (Unit {0}))
      → IsCounter kind owner resource l s
      → Admits n l (on_not_found (take_or_refuse kind owner resource (corrected n l s)) fallback)
  taken_Admits n l s fallback h =
      stored_Admits n (with_current n l) (corrected n l s) fallback (find_limit-write_limit n l s h)
        refl

-- A service key is admitted exactly while the team has fewer than its limit, counted over the keys
-- that exist and not by the stored counter; the counter afterwards is right, with the new key in it.
pub check_service_key_limits_exact :
    (c : Settings) (team : ℕ) (l : Limit) (s : Store)
    → IsCounter team_owner team service_key l s
    → Admits team_owner team service_key
        (length (select (is_service_key_of team) s.keys))
        l
        (check_key_limits c team none s)
unfolding check_key_limits check_service_key_limits validate_and_correct_service_key_count
check_service_key_limits_exact c team l s h =
    let n = length (select (is_service_key_of team) s.keys) in
    rw (correct_count_lem team_owner team service_key n l s h)
      (taken_Admits team_owner team service_key n l s _ h)

-- The same of a user's keys, against the user's limit.
check_user_key_limits_exact :
    (c : Settings) (team owner : ℕ) (l : Limit) (s : Store)
    → IsCounter user_owner owner user_key l s
    → Admits user_owner owner user_key
        (length (select (is_key_of_user owner) s.keys))
        l
        (check_key_limits c team (some owner) s)
unfolding check_key_limits check_user_key_limits validate_and_correct_user_key_count
check_user_key_limits_exact c team owner l s h =
    let n = length (select (is_key_of_user owner) s.keys) in
    rw (correct_count_lem user_owner owner user_key n l s h)
      (taken_Admits user_owner owner user_key n l s _ h)

-- Against a stored counter: a vector database is admitted exactly below the limit.
check_vector_db_limits_exact :
    (c : Settings) (team n : ℕ) (l : Limit) (s : Store)
    → IsCounter team_owner team vector_db l s
    → l.current_value ≡ some n
    → Admits team_owner team vector_db n l (check_vector_db_limits c team s)
unfolding check_vector_db_limits
check_vector_db_limits_exact c team n l s h e = stored_Admits team_owner team vector_db n l s _ h e
