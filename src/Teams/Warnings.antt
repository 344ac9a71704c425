-- ===== src/Teams/Warnings.antt =====
-- The regions that a restoration warns of, app/core/team_service.py.
use amazee_ai.Common.{
  [], inl, inr, refl, arith, ◌≡◌, ◌&&◌, ◌||◌, ◌∷◌, Bool, Option, List, any, ℕ, Bool-cases, some,
  true, ◌++◌, ◌∙◌, Instant, ap₂, subst, sym, ap, if_false, if_true, select, false, if◌then◌else◌,
  is_none,
}
use Prim.Native.String.{String}
use text.Mathlib.TextEquality.{eq_iff}
use amazee_ai.Teams.{
  TeamStore, Member, Region, Call, RegionKey, same_text, duration_call, create_user, in_team,
  get_team_keys_by_region,
}
use amazee_ai.Teams.Restoring.{
  restore_soft_deleted_team, provision_region, has_name, provision_regions, provision_users,
  add_name, provision_user, restored_key_days, unexpire_groups, unexpire_keys, restored,
  value_error, RestoreResult,
}
use amazee_ai.Teams.Grouping.{any-append}

restored_by :
    (b : Bool) (warnings : List String) (before after : TeamStore)
    → b ≡ false
    → let result : RestoreResult × TeamStore =
        if b then (value_error, before) else (restored warnings, after) in
      result.0 ≡ restored warnings
restored_by b warnings before after e = rw e refl

module _ (fails : Call → Bool) (models : Region → Option (List String)) where
  provision_user_failed :
      (team : ℕ) (r : Region) (u : Member)
      → (provision_user fails models team r u).1
        ≡ any fails (provision_user fails models team r u).0
  unfolding provision_user any
  provision_user_failed team r u = elim (Bool-cases (fails (create_user r.id u.id))) [
    | inl bad ↦ rw (bad, provision_user) (sym bad ∙ ground arith)
    | inr fine ↦ ground (arith, fine)
  ]

  provision_users_failed :
      (team : ℕ) (r : Region) (us : List Member)
      → (provision_users fails models team r us).1
        ≡ any fails (provision_users fails models team r us).0
  unfolding provision_users any
  provision_users_failed team r [] = refl
  provision_users_failed team r (u ∷ us) =
      ap₂ (λ a b. a || b) (provision_user_failed team r u) (provision_users_failed team r us)
      ∙ sym (
          any-append fails (provision_user fails models team r u).0
            (provision_users fails models team r us).0)

  provision_region_failed :
      (team : ℕ) (us : List Member) (r : Region)
      → (provision_region fails models team us r).1
        ≡ any fails (provision_region fails models team us r).0
  unfolding provision_region any
  provision_region_failed team us r = ground (arith, provision_users_failed team r us)

  -- A call for a region of this name failed.
  abbrev pub region_failed : String → ℕ → List Member → Region → Bool
  region_failed name team us r =
      same_text r.name name && any fails (provision_region fails models team us r).0

  abbrev pub key_failed : String → Region × List RegionKey → Bool
  key_failed name g =
      same_text g.0.name name && any (λ k. fails (duration_call restored_key_days g.0 k)) g.1

  provision_regions_warn :
      (name : String) (team : ℕ) (us : List Member) (rs : List Region)
      → has_name name (provision_regions fails models team us rs).1
        ≡ any (region_failed name team us) rs
  unfolding provision_regions any
  provision_regions_warn name team us [] = refl
  provision_regions_warn name team us (r ∷ rs) =
      ground (arith, provision_region_failed team us r, provision_regions_warn name team us rs)

  has_name-add_name :
      (name x : String) (names : List String)
      → has_name name (add_name x names) ≡ (has_name name names || same_text x name)
  unfolding any
  has_name-add_name name x names = elim (Bool-cases (has_name x names)) [
    | inl there ↦ elim (Bool-cases (same_text x name)) [
      | inl same ↦
          let named : has_name name names ≡ true =
            subst (λ n. has_name n names ≡ true) ((eq_iff x name).0 same) there in
          ground (arith, there, same, named)
      | inr other ↦ ground (arith, there, other)
    ]
    | inr new ↦
        ap (has_name name) (if_false names (names ++ x ∷ []) new)
        ∙ any-append (λ n. same_text n name) names (x ∷ [])
        ∙ ground arith
  ]

  unexpire_keys_warn :
      (name : String) (r : Region) (ks : List RegionKey) (names : List String)
      → has_name name (unexpire_keys fails models r ks names)
        ≡ (has_name name names || key_failed name (r, ks))
  unfolding unexpire_keys any
  unexpire_keys_warn name r [] names = ground arith
  unexpire_keys_warn name r (k ∷ ks) names =
      elim (Bool-cases (fails (duration_call restored_key_days r k))) [
        | inl bad ↦
            ap (λ l. has_name name (unexpire_keys fails models r ks l))
              (if_true (add_name r.name names) names bad)
            ∙ unexpire_keys_warn name r ks (add_name r.name names)
            ∙ ground (arith, has_name-add_name name r.name names, bad)
        | inr fine ↦
            ap (λ l. has_name name (unexpire_keys fails models r ks l))
              (if_false (add_name r.name names) names fine)
            ∙ unexpire_keys_warn name r ks names
            ∙ ground (arith, fine)
      ]

  unexpire_groups_warn :
      (name : String) (gs : List (Region × List RegionKey)) (names : List String)
      → has_name name (unexpire_groups fails models gs names)
        ≡ (has_name name names || any (key_failed name) gs)
  unfolding unexpire_groups any
  unexpire_groups_warn name [] names = ground arith
  unexpire_groups_warn name (g ∷ gs) names = ground (
    arith,
    unexpire_groups_warn name gs (unexpire_keys fails models g.0 g.1 names),
    unexpire_keys_warn name g.0 g.1 names,
  )

  -- A restoration of a deleted team warns of a region's name exactly when a call for a region of that
  -- name failed: one that provisions the team and its users there, or one that gives a key its
  -- duration back.
  pub restore_soft_deleted_team-warns :
      (now : Instant) (regions : List Region) (s : TeamStore) (deleted : Instant) (name : String)
      → s.team.deleted_at ≡ some deleted
      → (warnings : List String) × ((restore_soft_deleted_team fails models now regions s).0
          ≡ restored warnings)
        × (has_name name warnings ≡ (
            any
              (region_failed name s.team.id (select (λ u. in_team s.team.id u.team_id) s.users))
              regions
            || any (key_failed name) (get_team_keys_by_region s.team.id s)))
  unfolding restore_soft_deleted_team
  restore_soft_deleted_team-warns now regions s deleted name gone =
      let members = select (λ u. in_team s.team.id u.team_id) s.users in
      let provisioned = provision_regions fails models s.team.id members regions in
      let groups = get_team_keys_by_region s.team.id s in
      (
        unexpire_groups fails models groups provisioned.1,
        restored_by (is_none s.team.deleted_at) _ _ _ (ground (arith, gone)),
        unexpire_groups_warn name groups provisioned.1
            ∙ ap (λ b. b || any (key_failed name) groups)
                (provision_regions_warn name s.team.id members regions),
      )
