-- ===== src/Trial/Owners.antt =====
-- The references between the rows of anonymous trials while keys and their owners are deleted.
use amazee_ai.Trial.Loop.{reap_trial_keys_loop}
use amazee_ai.Trial.Reaping.{reap_trial_keys}
use amazee_ai.Trial.Branches.{delete_owned_rows_cases, delete_trial_key_cases}
use amazee_ai.Trial.Deleting.{
  delete_key_rows, owns, remove_user, refers_to_key, refers_to_user, TrialCall, delete_owned_rows,
  delete_trial_key, drop_database, drop_token,
}
use amazee_ai.Trial.Model.{
  TrialStore, TrialKey, TrialUser, Reference, is_number, TrialSettings, Region,
}
use amazee_ai.Common.{
  [], none, some, true, false, inl, inr, refl, arith, ◌≡◌, ◌&&◌, ◌∷◌, ◌==◌, ◌∙◌, List, any, select,
  ℕ, All, Bool, Bool-cases, Option, if◌then◌else◌, not, All-zip, All-mono, map, Instant,
}
use amazee_ai.Common.Lists.{All-select, any-false_inv, All-of}

-- NULL, or the row it names is there.
abbrev pub is_user : List TrialUser → Option ℕ → Bool
is_user users none = true
is_user users (some n) = any (λ u. u.id == n) users

abbrev pub is_key : List TrialKey → Option ℕ → Bool
is_key keys none = true
is_key keys (some n) = any (λ k. k.id == n) keys

abbrev pub is_referring : List TrialKey → List TrialUser → Reference → Bool
is_referring keys users r = is_key keys r.key_id && is_user users r.user_id

-- Every foreign key of the rows refers to a row.
abbrev pub IsConsistent : TrialStore → Type 0
IsConsistent s =
    All (λ k. is_user s.users k.owner_id ≡ true) s.keys
    × All (λ r. is_referring s.keys s.users r ≡ true) s.caps
    × All (λ r. is_referring s.keys s.users r ≡ true) s.alerts
    × All (λ a. is_user s.users a ≡ true) s.audit

pub any-select_other :
    {A : Type 0} (p q : A → Bool) (xs : List A)
    → ((x : A) → p x ≡ true → q x ≡ true)
    → any p (select q xs) ≡ any p xs
unfolding any select
any-select_other p q [] h = refl
any-select_other p q (x ∷ xs) h = elim (Bool-cases (p x)) [
  | inl e ↦ ground (arith, e, h x e, any-select_other p q xs h)
  | inr e ↦ elim (Bool-cases (q x)) [
    | inl f ↦ ground (arith, e, f, any-select_other p q xs h)
    | inr f ↦ ground (arith, e, f, any-select_other p q xs h)
  ]
]

All-select_with :
    {A : Type 0} (P Q : A → Type 0) (p : A → Bool) (xs : List A)
    → ((x : A) → p x ≡ true → P x → Q x)
    → All P xs
    → All Q (select p xs)
unfolding select
All-select_with P Q p [] f h = h
All-select_with P Q p (x ∷ xs) f h = elim (Bool-cases (p x)) [
  | inl e ↦ rw (e, if◌then◌else◌) (f x e h.0, All-select_with P Q p xs f h.1)
  | inr e ↦ rw (e, if◌then◌else◌) (All-select_with P Q p xs f h.1)
]

-- A reference to another row than those that go still holds.
is_key-without :
    (n : ℕ) (keys : List TrialKey) (o : Option ℕ)
    → is_number n o ≡ false
    → is_key keys o ≡ true
    → is_key (select (λ x. not (x.id == n)) keys) o ≡ true
is_key-without n keys none other h = refl
is_key-without n keys (some m) other h =
    any-select_other (λ k. k.id == m) (λ x. not (x.id == n)) keys (λ x e. ground arith) ∙ h

is_user-without :
    (n : ℕ) (users : List TrialUser) (o : Option ℕ)
    → is_number n o ≡ false
    → is_user users o ≡ true
    → is_user (select (λ x. not (x.id == n)) users) o ≡ true
is_user-without n users none other h = refl
is_user-without n users (some m) other h =
    any-select_other (λ u. u.id == m) (λ x. not (x.id == n)) users (λ x e. ground arith) ∙ h

referring-key :
    (n : ℕ) (keys : List TrialKey) (users : List TrialUser) (r : Reference)
    → not (refers_to_key n r) ≡ true
    → is_referring keys users r ≡ true
    → is_referring (select (λ x. not (x.id == n)) keys) users r ≡ true
referring-key n keys users r other h = ground (arith, is_key-without n keys r.key_id)

referring-user :
    (n : ℕ) (keys : List TrialKey) (users : List TrialUser) (r : Reference)
    → not (refers_to_user n r) ≡ true
    → is_referring keys users r ≡ true
    → is_referring keys (select (λ x. not (x.id == n)) users) r ≡ true
referring-user n keys users r other h = ground (arith, is_user-without n users r.user_id)

delete_key_rows-IsConsistent :
    (k : TrialKey) (s : TrialStore) → IsConsistent s → IsConsistent (delete_key_rows k s)
unfolding delete_key_rows
delete_key_rows-IsConsistent k s h =
    let refers = referring-key k.id s.keys s.users in
    (
      All-select (λ x. is_user s.users x.owner_id ≡ true) (λ x. not (x.id == k.id)) s.keys h.0,
      All-select_with _ _ (λ r. not (refers_to_key k.id r)) s.caps refers h.1,
      All-select_with _ _ (λ r. not (refers_to_key k.id r)) s.alerts refers h.2,
      h.3,
    )

All-map :
    (P Q : Option ℕ → Type 0) (f : Option ℕ → Option ℕ) (xs : List (Option ℕ))
    → ((x : Option ℕ) → P x → Q (f x))
    → All P xs
    → All Q (map f xs)
All-map P Q f [] g h = h
All-map P Q f (x ∷ xs) g h = (g x h.0, All-map P Q f xs g h.1)

-- An entry of the audit log after its user went.
detached_lem :
    (u : ℕ) (users : List TrialUser) (a : Option ℕ)
    → is_user users a ≡ true
    → is_user (select (λ x. not (x.id == u)) users) (if is_number u a then none else a) ≡ true
detached_lem u users a h = elim (Bool-cases (is_number u a)) [
  | inl e ↦ ground (arith, e)
  | inr e ↦ ground (arith, e, is_user-without u users a e h)
]

remove_user-IsConsistent :
    (u : ℕ) (s : TrialStore)
    → any (owns u) s.keys ≡ false
    → IsConsistent s
    → IsConsistent (remove_user u s)
remove_user-IsConsistent u s free h =
    let refers = referring-user u s.keys s.users in
    (
      All-mono _ _ s.keys (λ k x. is_user-without u s.users k.owner_id x.0 x.1)
          (All-zip _ _ s.keys (any-false_inv (owns u) s.keys free) h.0),
      All-select_with _ _ (λ r. not (refers_to_user u r)) s.caps refers h.1,
      All-select_with _ _ (λ r. not (refers_to_user u r)) s.alerts refers h.2,
      All-map _ _ (λ a. if is_number u a then none else a) s.audit (λ a. detached_lem u s.users a)
          h.3,
    )

delete_owned_rows-IsConsistent :
    (c : TrialSettings) (delete_user : Bool) (k : TrialKey) (s : TrialStore)
    → IsConsistent s
    → IsConsistent (delete_owned_rows c delete_user k s).1
delete_owned_rows-IsConsistent c delete_user k s h =
    let h' = delete_key_rows-IsConsistent k s h in
    delete_owned_rows_cases IsConsistent c delete_user k s h'
      (λ u free. remove_user-IsConsistent u (delete_key_rows k s) free h')

pub delete_trial_key-IsConsistent :
    (c : TrialSettings) (fails : ℕ → TrialCall → Bool) (region : ℕ) (delete_user allow_used : Bool)
    (k : TrialKey) (s : TrialStore)
    → IsConsistent s
    → IsConsistent (delete_trial_key c fails region delete_user allow_used k s).1
delete_trial_key-IsConsistent c fails region delete_user allow_used k s h =
    delete_trial_key_cases (λ x. IsConsistent x.1) c fails region delete_user allow_used k s h h h h
      (delete_owned_rows-IsConsistent c delete_user k
        (drop_database region k (drop_token region k s)) h)

-- The job leaves every foreign key of the rows with the row it refers to: of a key to its owner, of a cap
-- and an alert to their key and user, of an entry of the audit log to its user; whatever fails.
pub reap_trial_keys-IsConsistent :
    (c : TrialSettings) (fails : ℕ → TrialCall → Bool) (regions : List Region) (now : Instant)
    (s : TrialStore)
    → IsConsistent s
    → IsConsistent (reap_trial_keys c fails regions now s).1
reap_trial_keys-IsConsistent c fails regions now s h =
    reap_trial_keys_loop c fails regions now IsConsistent (λ k. Unit)
      (λ r s' keys h' e. All-of (λ k. tt) keys)
      (λ r k s' q h'. delete_trial_key-IsConsistent c fails r true true k s' h') s h
