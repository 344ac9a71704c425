-- ===== src/Purge/Blocking.antt =====
-- What stops the hard deletion of a team.
use amazee_ai.Teams.{in_team}
use amazee_ai.Trial.Model.{is_among}
use amazee_ai.Purge.{
  Doomed, PurgeStore, has_key_reference, has_team_reference, has_user_reference, purge_rows,
  touches, delete_keys, delete_limits_and_caps, delete_users, is_in, is_owned, delete_team,
  hard_delete_team, collect, delete_tokens,
}
use Prim.Native.String.{String}
use amazee_ai.Common.{
  ℕ, [], none, some, true, false, inl, inr, refl, arith, ◌≡◌, ◌||◌, ◌∷◌, ◌==◌, ◌∙◌, if◌then◌else◌,
  Bool, any, List, select, Bool-cases, Option, not, map, ap, ◌⊎◌, sym, if_true, subst, if_false,
}

-- Of the rows that are left after a deletion none passes a test that those deleted pass.
none_left :
    {A : Type 0} (p q : A → Bool) (xs : List A)
    → ((x : A) → p x ≡ true → q x ≡ true)
    → any p (select (λ x. not (q x)) xs) ≡ false
unfolding any select
none_left p q [] h = refl
none_left p q (x ∷ xs) h = elim (Bool-cases (q x)) [
  | inl e ↦ ground (arith, e, none_left p q xs h)
  | inr e ↦ elim (Bool-cases (p x)) [
    | inl f ↦ ground (arith, e, h x f)
    | inr f ↦ ground (arith, e, f, none_left p q xs h)
  ]
]

any-or :
    {A : Type 0} (p q : A → Bool) (xs : List A) → any (λ x. p x || q x) xs ≡ (any p xs || any q xs)
unfolding any
any-or p q [] = refl
any-or p q (x ∷ xs) = elim (Bool-cases (p x)) [
  | inl e ↦ ground (arith, e)
  | inr e ↦ elim (Bool-cases (q x)) [
    | inl f ↦ elim (Bool-cases (any p xs)) [
      | inl g ↦ ground (arith, e, f, g)
      | inr g ↦ ground (arith, e, f, g)
    ]
    | inr f ↦ ground (arith, e, f, any-or p q xs)
  ]
]

-- After the users were taken out of the audit log none of them is in it.
any-detached :
    (users : List ℕ) (xs : List (Option ℕ))
    → any (is_among users) (map (λ a. if is_among users a then none else a) xs) ≡ false
unfolding any
any-detached users [] = refl
any-detached users (a ∷ rest) = elim (Bool-cases (is_among users a)) [
  | inl e ↦ ground (arith, e, any-detached users rest)
  | inr e ↦ ground (arith, e, any-detached users rest)
]

or_left : (a b : Bool) → a ≡ true → (a || b) ≡ true
or_left a b h = ground (arith, h)

or_right : (a b : Bool) → b ≡ true → (a || b) ≡ true
or_right true b h = refl
or_right false b h = h

guards_lem :
    {A : Type 0} (a b c k u t : Bool) (x : A)
    → a ≡ k
    → b ≡ u
    → c ≡ t
    → (if a then none else (if b then none else (if c then none else some x)))
      ≡ (if t || u || k then none else some x)
guards_lem true b c k u t x p q r = ground (arith, p, q, r)
guards_lem false true c k u t x p q r = ground (arith, p, q, r)
guards_lem false false true k u t x p q r = ground (arith, p, q, r)
guards_lem false false false k u t x p q r = ground (arith, p, q, r)

abbrev pub turn_of : PurgeStore → Option PurgeStore → PurgeStore
turn_of s none = s
turn_of s (some purged) = purged

module _ (normalize : String → String) (d : Doomed) (s : PurgeStore) where
  key_references :
      has_key_reference d (delete_limits_and_caps d s)
      ≡ any (λ r. is_among d.keys r.key_id) s.alerts
  key_references =
      ground (
        arith,
        none_left (λ r. is_among d.keys r.key_id) (touches d) s.caps (λ r e. or_right _ _ e),
      )

  user_references :
      has_user_reference d (delete_keys normalize d (delete_limits_and_caps d s))
      ≡ any (λ r. is_among d.users r.user_id) s.alerts
  user_references = ground (
    arith,
    none_left (λ k. is_among d.users k.owner_id) (is_owned d.team d.users) s.keys
        (λ k e. or_right _ _ e),
    none_left (λ r. is_among d.users r.user_id) (touches d) s.caps
        (λ r e. or_left _ _ (or_right _ _ e)),
    none_left (is_among d.users) (is_among d.users) s.api_tokens (λ t e. e),
    none_left (λ u. is_among d.users (some u)) (λ u. is_among d.users (some u)) s.admin_regions
        (λ u e. e),
    any-detached d.users s.audit,
  )

  team_references :
      has_team_reference d (delete_users d (delete_keys normalize d (delete_limits_and_caps d s)))
      ≡ any (λ r. in_team d.team r.team_id) s.alerts
  team_references = ground (
    arith,
    none_left (is_in d.team) (is_in d.team) s.users (λ u e. e),
    none_left (λ k. in_team d.team k.team_id) (is_owned d.team d.users) s.keys
        (λ k e. or_left _ _ e),
    none_left (λ r. in_team d.team r.team_id) (touches d) s.caps
        (λ r e. or_left _ _ (or_left _ _ e)),
    none_left (λ t. t == d.team) (λ t. t == d.team) s.products (λ t e. e),
  )

  any-touches : any (touches d) s.alerts ≡ (
      any (λ r. in_team d.team r.team_id) s.alerts
      || any (λ r. is_among d.users r.user_id) s.alerts
      || any (λ r. is_among d.keys r.key_id) s.alerts)
  any-touches =
      any-or (λ r. in_team d.team r.team_id || is_among d.users r.user_id)
        (λ r. is_among d.keys r.key_id) s.alerts
      ∙ ap (λ b. b || any (λ r. is_among d.keys r.key_id) s.alerts)
          (any-or (λ r. in_team d.team r.team_id) (λ r. is_among d.users r.user_id) s.alerts)

  abbrev pub purged : PurgeStore
  purged = delete_team d (delete_users d (delete_keys normalize d (delete_limits_and_caps d s)))

  -- A team's rows are rolled back exactly for an alert state that refers to them.
  pub purge_rows_lem :
      purge_rows normalize d s ≡ (if any (touches d) s.alerts then none else some purged)
  unfolding purge_rows
  purge_rows_lem =
      guards_lem _ _ _ _ _ _ purged key_references user_references team_references
      ∙ ap (λ b. if b then none else some purged) (sym any-touches)

  -- No row of the team, of a user of it, or of a key of theirs; and no cap of one of these.
  abbrev pub IsClean : PurgeStore → Type 0
  IsClean s' =
      (any (λ t. t.id == d.team) s'.teams ≡ false)
      × (any (is_in d.team) s'.users ≡ false)
      × (any (is_owned d.team d.users) s'.keys ≡ false)
      × (any (touches d) s'.caps ≡ false)
      × (s'.alerts ≡ s.alerts)

  purged-IsClean : IsClean purged
  purged-IsClean = (
    none_left (λ t. t.id == d.team) (λ t. t.id == d.team) s.teams (λ t e. e),
    none_left (is_in d.team) (is_in d.team) s.users (λ u e. e),
    none_left (is_owned d.team d.users) (is_owned d.team d.users) s.keys (λ k e. e),
    none_left (touches d) (touches d) s.caps (λ r e. e),
    refl,
  )

-- The turn of a team: where an alert state refers to the team, to one of its users or to a key of theirs, no
-- row is deleted, while LiteLLM is asked to delete the keys; else no row of the team, of its users, of their
-- keys or of the caps on these is left, whatever other rows refer to them.
pub hard_delete_team_outcome :
    (normalize : String → String) (team : ℕ) (s : PurgeStore)
    → let d = collect team s in
      ((any (touches d) s.alerts ≡ true)
        × (hard_delete_team normalize team s ≡ delete_tokens team s))
      ⊎ ((any (touches d) s.alerts ≡ false)
          × IsClean normalize d s (hard_delete_team normalize team s))
unfolding hard_delete_team
hard_delete_team_outcome normalize team s =
    let d = collect team s in
    let s' = delete_tokens team s in
    let result = purge_rows_lem normalize d s' in
    elim (Bool-cases (any (touches d) s.alerts)) [
      | inl e ↦ inl (e, ap (λ o. turn_of s' o) (result ∙ if_true _ _ e))
      | inr e ↦ inr (
        e,
        subst (IsClean normalize d s) (sym (ap (λ o. turn_of s' o) (result ∙ if_false _ _ e)))
            (purged-IsClean normalize d s'),
      )
    ]
