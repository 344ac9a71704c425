-- ===== src/Limits/Manual.antt =====
-- Limits that were set by hand, and the operations of app/core/limit_service.py that set limits from
-- products and defaults.
use amazee_ai.Limits.Reading.{
  get_team_default_limit_for_resource, get_default_team_limit_for_resource,
  get_team_product_limit_for_resource,
}
use amazee_ai.Limits.Applying.{
  set_limit, apply_team_resource, apply_team_resources, set_team_limits, enqueue, set_limit,
  get_team_limits, team_resources, set_product_or_default, set_team_limit, skips_resource, limit_of,
  request_for,
}
use amazee_ai.Limits.Preserving.{
  Preserves, SetPreserves, IsKept, bind_result-Preserves, >>=-Preserves, set_limit-kept,
  get_team_limits-kept,
}
use amazee_ai.Common.Lists.{All-append_new, All-map_self}
use amazee_ai.Limits.Setting.{
  add_limit, write_limit, created, updated, follows_system, update_default_limits_for_resource,
  write_request, set_limit_with, after_write, is_valid_request,
}
use amazee_ai.Common.Table.{
  IsKeyed, find_row, IsKeyed-append, set_row-IsKeyed, All-set_row, find_row-All, find_row-append,
  IsKeyed-map, find_row-map, find_row-find_first, find_row-set_row,
}
use amazee_ai.Limits.Model.{
  Limit, Store, is_manual, LimitedResource, find_limit, Settings, ResourceType, owned_by, Action,
  same_owner, Team, system, team_owner, is_budget, LimitSource, product, default,
}
use amazee_ai.Common.{
  some, true, false, suc, arith, ◌<◌, ◌≡◌, ℕ, All, All-mono, inl, inr, ◌≢◌, ◌∙◌, if◌then◌else◌,
  subst, Option-cases, find_first, Bool-cases, [], ◌&&◌, ◌∷◌, Bool, List, none, refl, Option,
}

abbrev pub limit_id : Limit → ℕ
limit_id l = l.id

-- The table has a primary key, the next key is new, and the row stands in it.
pub record Holds (l : Limit) (s : Store) : Type 0 where
  pub keyed : IsKeyed limit_id s.limits
  pub fresh : All (λ x. x.id < s.next_id) s.limits
  pub stored : find_row limit_id l.id s.limits ≡ some l

-- Looking up a default writes nothing.
team_default_reads :
    (c : Settings) (t : Team) (resource : ResourceType) (s : Store)
    → (get_team_default_limit_for_resource c t resource s).1 ≡ s
unfolding get_team_default_limit_for_resource get_default_team_limit_for_resource
team_default_reads c t resource s = ground arith

module _ (l : Limit) (by_hand : is_manual l.limited_by ≡ true) where
  add-Holds :
      (r : LimitedResource) (s : Store) → Holds l s → Holds l (add_limit (created r s.next_id) s)
  unfolding add_limit created
  add-Holds r s h = record {
    keyed = IsKeyed-append limit_id (created r s.next_id) s.limits h.fresh h.keyed;
    fresh =
        All-append_new (λ x. x.id < suc s.next_id) s.limits (created r s.next_id)
          (All-mono (λ x. x.id < s.next_id) (λ x. x.id < suc s.next_id) s.limits
            (λ x n. omega arith) h.fresh)
          (omega arith);
    stored = find_row-append limit_id l.id l (created r s.next_id) s.limits h.stored;
  }

  other :
      (x : Limit) (s : Store)
      → is_manual x.limited_by ≡ false
      → find_row limit_id x.id s.limits ≡ some x
      → Holds l s
      → x.id ≢ l.id
  other x s m f h same =
      let at_l : find_row limit_id l.id s.limits ≡ some x =
        subst (λ k. find_row limit_id k s.limits ≡ some x) same f in
      let stored : find_row limit_id l.id s.limits ≡ some l = h.stored in let one : x ≡ l = cc in cc

  update-Holds :
      (r : LimitedResource) (x : Limit) (s : Store)
      → is_manual x.limited_by ≡ false
      → find_row limit_id x.id s.limits ≡ some x
      → Holds l s
      → Holds l (write_limit (updated r x) s)
  unfolding write_limit updated
  update-Holds r x s m f h = record {
    keyed = set_row-IsKeyed limit_id (updated r x) s.limits h.keyed;
    fresh =
        All-set_row limit_id (λ y. y.id < s.next_id) (updated r x) s.limits h.fresh
          (find_row-All limit_id (λ y. y.id < s.next_id) x.id x s.limits h.fresh f);
    stored = ground (
      arith,
      other x s m f h,
      find_row-set_row limit_id l.id (updated r x) x s.limits f,
      h.stored,
    );
  }

  manual_stays :
      (c : Settings) (resource : ResourceType) (s : Store) → follows_system c resource s l ≡ false
  unfolding follows_system
  manual_stays c resource s = ground (arith, by_hand)

  default_update-Holds :
      (c : Settings) (resource : ResourceType) (value : ℕ) (s : Store)
      → Holds l s
      → Holds l (update_default_limits_for_resource c resource value s)
  unfolding update_default_limits_for_resource
  default_update-Holds c resource value s h =
      let f : Limit → Limit =
        λ x. if follows_system c resource s x then record x { max_value = value } else x in
      record {
        keyed = IsKeyed-map limit_id f (λ x. ground arith) s.limits h.keyed;
        fresh = All-map_self (λ x. x.id < s.next_id) f s.limits (λ x n. ground arith) h.fresh;
        stored =
            find_row-map limit_id f (λ x. ground arith) l.id l s.limits h.stored
            ∙ ground (arith, manual_stays c resource s);
      }

  write_request-Holds :
      (r : LimitedResource) (s : Store)
      → is_manual r.limited_by ≡ false
      → Holds l s
      → Holds l (write_request r (find_limit r.owner_type r.owner_id r.resource s) s).1
  unfolding write_request find_limit
  write_request-Holds r s m h =
      elim (Option-cases (find_first (owned_by r.owner_type r.owner_id r.resource) s.limits)) [
        | inl new ↦ rw (new, write_request) (add-Holds r s h)
        | inr (x, found) ↦ elim (Bool-cases (is_manual x.limited_by)) [
          | inl hand ↦ rw (found, write_request, hand, m) h
          | inr free ↦
              rw (found, write_request, free)
                (update-Holds r x s free
                  (find_row-find_first limit_id (owned_by r.owner_type r.owner_id r.resource) x
                    s.limits h.keyed found)
                  h)
        ]
      ]

  after_write-Holds :
      (c : Settings) (after : ℕ → ℕ → Action (Unit {0}))
      → ((team amount : ℕ) → Preserves (Holds l) (after team amount))
      → (trigger : Bool) (r : LimitedResource) → Preserves (Holds l) (after_write c after trigger r)
  unfolding after_write
  after_write-Holds c after keeps trigger r s h =
      elim (Bool-cases (same_owner r.owner_type system)) [
        | inl top ↦ rw (top, after_write) (default_update-Holds c r.resource r.max_value s h)
        | inr below ↦
            elim (Bool-cases
              (same_owner r.owner_type team_owner && is_budget r.resource && trigger)) [
                | inl budget_of_team ↦
                    rw (below, budget_of_team, after_write) (keeps r.owner_id r.max_value s h)
                | inr quiet ↦ rw (below, quiet, after_write) h
              ]
      ]

  set_limit-Holds :
      (c : Settings) (after : ℕ → ℕ → Action (Unit {0}))
      → ((team amount : ℕ) → Preserves (Holds l) (after team amount))
      → SetPreserves (Holds l) c after
  unfolding set_limit_with
  set_limit-Holds c after keeps trigger r m s h = elim (Bool-cases (is_valid_request r)) [
    | inr bad ↦ rw bad h
    | inl good ↦
        let x = write_request r (find_limit r.owner_type r.owner_id r.resource s) s in
        rw good (
          bind_result-Preserves (Holds l) x.0 x.1 _ (write_request-Holds r s m h) (λ row.
            >>=-Preserves (Holds l) (after_write c after trigger r) _
              (after_write-Holds c after keeps trigger r) (λ _ s' q. q)))
  ]

  Holds-IsKept : (c : Settings) → IsKept (Holds l) c
  Holds-IsKept c = record {
    keeps_set = set_limit-Holds c;
    keeps_queue =
        λ m s h. unfold enqueue in record { keyed = h.keyed; fresh = h.fresh; stored = h.stored };
  }

  set_team_limit-Holds :
      (c : Settings) (t : Team) (old : Option Limit) (resource : ResourceType)
      (source : LimitSource) (v : ℕ)
      → is_manual source ≡ false
      → Preserves (Holds l) (set_team_limit c t old resource source v)
  unfolding set_team_limit
  set_team_limit-Holds c t old resource source v m =
      >>=-Preserves (Holds l) (set_limit c (request_for team_owner t.id resource old v source)) _
        (set_limit-kept (Holds l) c (Holds-IsKept c)
          (request_for team_owner t.id resource old v source) (unfold request_for in m))
        (λ _ s h. h)

  set_product_or_default-Holds :
      (c : Settings) (t : Team) (old : Option Limit) (resource : ResourceType) (found : Option ℕ)
      → Preserves (Holds l) (set_product_or_default c t old resource found)
  unfolding set_product_or_default
  set_product_or_default-Holds c t old resource (some v) =
      set_team_limit-Holds c t old resource product v refl
  set_product_or_default-Holds c t old resource none =
      >>=-Preserves (Holds l) (get_team_default_limit_for_resource c t resource)
        (set_team_limit c t old resource default) (λ s h. rw (team_default_reads c t resource s) h)
        (λ v. set_team_limit-Holds c t old resource default v refl)

  apply_team_resource-Holds :
      (c : Settings) (t : Team) (existing : List Limit) (resource : ResourceType)
      → Preserves (Holds l) (apply_team_resource c t existing resource)
  unfolding apply_team_resource
  apply_team_resource-Holds c t existing resource s h =
      elim (Bool-cases (skips_resource t (limit_of resource existing) resource)) [
        | inl skip ↦ rw (skip, apply_team_resource) h
        | inr go ↦
            rw (go, apply_team_resource)
              (set_product_or_default-Holds c t (limit_of resource existing) resource
                (get_team_product_limit_for_resource t.id resource s) s h)
      ]

  apply_team_resources-Holds :
      (c : Settings) (t : Team) (existing : List Limit) (rs : List ResourceType)
      → Preserves (Holds l) (apply_team_resources c t existing rs)
  unfolding apply_team_resources
  apply_team_resources-Holds c t existing [] = λ s h. h
  apply_team_resources-Holds c t existing (r ∷ rs) =
      >>=-Preserves (Holds l) (apply_team_resource c t existing r) _
        (apply_team_resource-Holds c t existing r) (λ _. apply_team_resources-Holds c t existing rs)

  -- Applying the products and the defaults to a team leaves every limit that was set by hand as it
  -- is, whoever owns it: the rows that it writes down on the way, the defaults below a system limit
  -- and what a budget change hands on included; and it keeps the table's keys distinct.
  pub set_team_limits-manual :
      (c : Settings) (t : Team) (s : Store) → Holds l s → Holds l (set_team_limits c t s).1
  unfolding set_team_limits
  set_team_limits-manual c t =
      >>=-Preserves (Holds l) (get_team_limits c t) _
        (get_team_limits-kept (Holds l) c (Holds-IsKept c) t)
        (λ existing. apply_team_resources-Holds c t existing team_resources)

  -- So does any one setting of a limit from a product or a default, also on its error paths.
  set_limit-manual :
      (c : Settings) (r : LimitedResource) (s : Store)
      → is_manual r.limited_by ≡ false
      → Holds l s
      → Holds l (set_limit c r s).1
  set_limit-manual c r s m h = set_limit-kept (Holds l) c (Holds-IsKept c) r m s h
