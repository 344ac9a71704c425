-- ===== src/Limits/Agreeing.antt =====
-- The reset of a team's limit and its setting from the products and the defaults, app/core/limit_service.py:
-- two pieces of code for the same cascade.
use amazee_ai.Limits.Enums.{same_resource_sound, team_owner_sound}
use amazee_ai.Common.Lists.{find_first_sound}
use amazee_ai.Common.Table.{IsKeyed, find_first-set_row, find_row, find_row-find_first}
use amazee_ai.Limits.Setting.{
  is_valid_request, write_limit, set_limit_with, write_request, after_write, updated,
}
use amazee_ai.Limits.Applying.{
  request_for, in_control_plane, set_team_limit, set_limit, apply_team_resource,
  set_product_or_default, skips_resource, limit_of, team_resources,
}
use amazee_ai.Limits.Reading.{
  get_team_default_limit_for_resource, get_default_team_limit_for_resource,
  get_team_product_limit_for_resource,
}
use amazee_ai.Limits.Model.{
  Limit, ResourceType, Settings, LimitSource, Team, same_owner, same_resource, Store, team_owner,
  is_manual, system, find_limit, owned_by, is_budget, LimitedResource, ok, find_team, bind_result,
  modify, ◌>>◌, pure, product, Result, default, raised, ◌>>=◌,
}
use amazee_ai.Common.{
  [], none, some, true, false, refl, arith, inl, inr, ◌≡◌, ◌∷◌, ◌∙◌, ℕ, List, Option, Bool-cases,
  find_first, sym, ap, Bool, ◌==◌, if◌then◌else◌, any,
}
use amazee_ai.Limits.Resetting.{
  reset_value, reset_row, reset_limit, reset_team, reset_to, is_user_key_limit,
}

-- What a limit allows and where that comes from.
abbrev pub terms : Option Limit → Option (ℕ × LimitSource)
terms none = none
terms (some l) = some (l.max_value, l.limited_by)

team_default_ok :
    (c : Settings) (t : Team) (resource : ResourceType) (s : Store)
    → (get_team_default_limit_for_resource c t resource s).1 ≡ s
unfolding get_team_default_limit_for_resource get_default_team_limit_for_resource
team_default_ok c t resource s = ground arith

request_for_valid :
    (team : ℕ) (resource : ResourceType) (old : Option Limit) (v : ℕ) (source : LimitSource)
    → is_manual source ≡ false
    → is_valid_request (request_for team_owner team resource old v source) ≡ true
unfolding request_for is_valid_request
request_for_valid team resource old v source m = elim (Bool-cases (in_control_plane resource)) [
  | inl e ↦ rw (e, m) refl
  | inr e ↦ rw (e, m) refl
]

-- A valid setting of a team's limit, not of its budget, over a row that was not set by hand.
set_limit_over :
    (c : Settings) (r : LimitedResource) (s : Store) (l : Limit)
    → is_valid_request r ≡ true
    → same_owner r.owner_type system ≡ false
    → same_owner r.owner_type team_owner ≡ true
    → is_budget r.resource ≡ false
    → is_manual l.limited_by ≡ false
    → find_limit r.owner_type r.owner_id r.resource s ≡ some l
    → set_limit c r s ≡ (ok (updated r l), write_limit (updated r l) s)
unfolding set_limit set_limit_with write_request after_write
set_limit_over c r s l good below team b free found =
    rw (good, found, free, write_request, below, team, b) refl

find_row_first :
    (k : ℕ) (rows : List Limit) → find_first (λ x. x.id == k) rows ≡ find_row (λ x. x.id) k rows
unfolding find_first find_row
find_row_first k [] = refl
find_row_first k (x ∷ rows) = ap (λ r. if x.id == k then some x else r) (find_row_first k rows)

module _ (c : Settings) (t : Team) (resource : ResourceType) (l : Limit) (s : Store)
    (keyed : IsKeyed (λ x. x.id) s.limits)
    (found : find_limit team_owner t.id resource s ≡ some l) where
  abbrev p : Limit → Bool
  p = owned_by team_owner t.id resource

  owned : p l ≡ true
  unfolding find_limit
  owned = find_first_sound p s.limits l found

  -- A write of the row with new values is what the query finds.
  find_limit-write_limit :
      (v : Limit)
      → v.id ≡ l.id
      → p v ≡ true
      → find_limit team_owner t.id resource (write_limit v s) ≡ some v
  unfolding find_limit write_limit
  find_limit-write_limit v same mine =
      find_first-set_row (λ x. x.id) p v l s.limits keyed found same mine

  set_team_limit-terms :
      (v : ℕ) (source : LimitSource)
      → is_budget resource ≡ false
      → is_manual l.limited_by ≡ false
      → is_manual source ≡ false
      → terms
          (find_limit team_owner t.id resource (set_team_limit c t (some l) resource source v s).1)
        ≡ some (v, source)
  unfolding set_team_limit
  set_team_limit-terms v source b free m =
      let r = request_for team_owner t.id resource (some l) v source in
      let set : set_limit c r s ≡ (ok (updated r l), write_limit (updated r l) s) =
        set_limit_over c r s l (request_for_valid t.id resource (some l) v source m)
          (unfold request_for in refl) (unfold request_for in refl) (unfold request_for in b) free
          (unfold request_for in found) in
      rw
        (
          set,
          find_limit-write_limit (updated r l) (unfold updated in refl) (unfold updated in owned),
        )
        (unfold updated request_for in refl)

  reset_to-terms :
      (v : ℕ × LimitSource)
      → terms (find_limit team_owner t.id resource (write_limit (reset_to c l v) s)) ≡ some v
  reset_to-terms v = rw (find_limit-write_limit (reset_to c l v) refl owned) refl

  team_owned : l.owner_type ≡ team_owner
  team_owned = team_owner_sound l.owner_type (ground (arith, owned))

  same : l.resource ≡ resource
  same = same_resource_sound l.resource resource (ground (arith, owned))

  not_user_key : is_user_key_limit l ≡ false
  not_user_key = rw team_owned refl

  abbrev after_reset : Result (ℕ × LimitSource) × Store → Option (ℕ × LimitSource)
  after_reset x = terms (
      find_limit team_owner t.id resource
        (bind_result x (λ v. modify (write_limit (reset_to c l v)) >> pure (reset_to c l v))).1)

  reset_value-product :
      (v : ℕ)
      → get_team_product_limit_for_resource t.id resource s ≡ some v
      → reset_value c t l s ≡ (ok (v, product), s)
  unfolding reset_value
  reset_value-product v e = rw (not_user_key, same, e) refl

  reset_value-default :
      (r : Result ℕ)
      → get_team_product_limit_for_resource t.id resource s ≡ none
      → get_team_default_limit_for_resource c t resource s ≡ (r, s)
      → reset_value c t l s ≡ bind_result (r, s) (λ v. pure (v, default))
  unfolding reset_value
  reset_value-default r e d = rw (not_user_key, same, e, ◌>>=◌, not_user_key, same, d) refl

  default-agrees :
      (r : Result ℕ)
      → is_budget resource ≡ false
      → is_manual l.limited_by ≡ false
      → after_reset (bind_result (r, s) (λ v. pure (v, default)))
        ≡ terms (
            find_limit team_owner t.id resource
              (bind_result (r, s) (set_team_limit c t (some l) resource default)).1)
  default-agrees (ok v) b free =
      reset_to-terms (v, default) ∙ sym (set_team_limit-terms v default b free refl)
  default-agrees (raised e) b free = refl

  -- What both calls do when neither returns early.
  reset_value-agrees :
      (v : Option ℕ)
      → get_team_product_limit_for_resource t.id resource s ≡ v
      → is_budget resource ≡ false
      → is_manual l.limited_by ≡ false
      → after_reset (reset_value c t l s)
        ≡ terms (
            find_limit team_owner t.id resource
              (set_product_or_default c t (some l) resource v s).1)
  unfolding set_product_or_default
  reset_value-agrees (some v) e b free =
      rw (reset_value-product v e)
        (reset_to-terms (v, product) ∙ sym (set_team_limit-terms v product b free refl))
  reset_value-agrees none e b free =
      let r = (get_team_default_limit_for_resource c t resource s).0 in
      let reads : get_team_default_limit_for_resource c t resource s ≡ (r, s) =
        ap (λ x. (r, x)) (team_default_ok c t resource s) in
      rw (reset_value-default r e reads, reads) (default-agrees r b free)

  reset_team-known :
      find_team t.id s ≡ some t → reset_team l.owner_type l.owner_id s ≡ (ok (some t), s)
  unfolding reset_team
  reset_team-known known =
      let owner : l.owner_id ≡ t.id = ground (arith, owned) in rw (team_owned, owner, known) refl

  found_id : find_first (λ x. x.id == l.id) s.limits ≡ some l
  unfolding find_limit
  found_id = find_row_first l.id s.limits ∙ find_row-find_first (λ x. x.id) p l s.limits keyed found

  reset_limit-known :
      find_team t.id s ≡ some t
      → terms (find_limit team_owner t.id resource (reset_limit c team_owner t.id resource s).1)
        ≡ after_reset (reset_value c t l s)
  unfolding reset_limit reset_row
  reset_limit-known known = rw (found, reset_row, found_id, reset_team-known known) refl

  apply-over :
      (existing : List Limit)
      → limit_of resource existing ≡ some l
      → is_budget resource ≡ false
      → is_manual l.limited_by ≡ false
      → apply_team_resource c t existing resource s
        ≡ set_product_or_default c t
            (some l)
            resource
            (get_team_product_limit_for_resource t.id resource s)
            s
  unfolding apply_team_resource skips_resource
  apply-over existing here b free = rw (here, b, free) refl

  -- Where rows have distinct keys and the team exists, resetting a limit of it that was not set by
  -- hand, of a resource that `set_team_limits` runs over other than the budget, leaves that limit with
  -- the value and the source that the step of `set_team_limits` for the resource leaves it with, for
  -- any list of the team's limits that gives this row for the resource, also where both calls raise.
  pub reset_limit-agrees :
      (existing : List Limit)
      → find_team t.id s ≡ some t
      → limit_of resource existing ≡ some l
      → any (same_resource resource) team_resources ≡ true
      → is_budget resource ≡ false
      → is_manual l.limited_by ≡ false
      → terms (find_limit team_owner t.id resource (reset_limit c team_owner t.id resource s).1)
        ≡ terms
            (find_limit team_owner t.id resource (apply_team_resource c t existing resource s).1)
  reset_limit-agrees existing known here applied b free =
      reset_limit-known known
      ∙ reset_value-agrees (get_team_product_limit_for_resource t.id resource s) refl b free
      ∙ ap (λ x. terms (find_limit team_owner t.id resource x.1))
          (sym (apply-over existing here b free))
