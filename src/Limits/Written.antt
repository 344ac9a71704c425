-- ===== src/Limits/Written.antt =====
-- The row that `_set_limit` of app/core/limit_service.py leaves for an owner and a resource.
use amazee_ai.Common.Lists.{any-append_new, find_first_sound}
use amazee_ai.Common.Table.{set_row}
use amazee_ai.Limits.Setting.{updated, write_request, add_limit, write_limit, created}
use amazee_ai.Common.{
  [], some, true, inl, inr, refl, arith, ◌≡◌, ◌&&◌, ◌∷◌, ◌==◌, ◌∙◌, find_first, any, ℕ, Bool, List,
  Option-cases, Bool-cases, not,
}
use amazee_ai.Limits.Model.{
  Limit, OwnerType, find_limit, ResourceType, LimitedResource, same_owner, owned_by, same_resource,
  Store, system, ok, team_owner, user_owner, is_manual, raised, value_error,
}

-- The new values keep the row's owner and resource.
updated-owned_by :
    (kind : OwnerType) (owner : ℕ) (resource : ResourceType) (r : LimitedResource) (x : Limit)
    → owned_by kind owner resource (updated r x) ≡ owned_by kind owner resource x
unfolding updated
updated-owned_by kind owner resource r x = refl

set_row-owned :
    (p : Limit → Bool) (v x : Limit) (rows : List Limit)
    → find_first p rows ≡ some x
    → v.id ≡ x.id
    → p v ≡ true
    → any p (set_row (λ l. l.id) v rows) ≡ true
unfolding find_first any set_row
set_row-owned p v x [] f k h = absurd (ground arith)
set_row-owned p v x (y ∷ rows) f k h = ground (arith, set_row-owned p v x rows)

owned_self :
    (o : OwnerType) (owner : ℕ) (resource : ResourceType)
    → (same_owner o o && owner == owner && same_resource resource resource) ≡ true
owned_self system owner resource = ground arith
owned_self team_owner owner resource = ground arith
owned_self user_owner owner resource = ground arith

-- Once a limit is written, its owner has a row for the resource.
pub write_request-owned :
    (r : LimitedResource) (s : Store) (l : Limit)
    → (write_request r (find_limit r.owner_type r.owner_id r.resource s) s).0 ≡ ok l
    → any
        (owned_by r.owner_type r.owner_id r.resource)
        (write_request r (find_limit r.owner_type r.owner_id r.resource s) s).1.limits
      ≡ true
unfolding write_request find_limit add_limit write_limit created
write_request-owned r s l h =
    let p = owned_by r.owner_type r.owner_id r.resource in
    elim (Option-cases (find_first p s.limits)) [
      | inl new ↦
          rw (new, write_request)
            (any-append_new p s.limits (created r s.next_id)
              (owned_self r.owner_type r.owner_id r.resource))
      | inr (x, found) ↦
          elim (Bool-cases (is_manual x.limited_by && not (is_manual r.limited_by))) [
            | inl kept ↦
                let refused : raised value_error ≡ ok l = rw (found, write_request, kept) at h in
                absurd cc
            | inr free ↦
                rw (found, write_request, free)
                  (set_row-owned p (updated r x) x s.limits found refl (
                    updated-owned_by r.owner_type r.owner_id r.resource r x
                    ∙ find_first_sound p s.limits x found))
          ]
    ]
