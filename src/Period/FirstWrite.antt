-- ===== src/Period/FirstWrite.antt =====
-- The first write of a window wins, `upsert_team_spend_period` of app/core/spend_period_service.py.
use mathlib.Core.List.Memᴰ.{append_left}
use mathlib.Core.List.{Memᴰ}
use amazee_ai.Common.Lists.{any-false, find_first-none, find_first-append_new, find_first_sound}
use amazee_ai.Period.Snapshot.{Snapshot}
use amazee_ai.Period.Closing.{
  SpendPeriod, Window, insert_spend_period, upsert_team_spend_period, Closing, Outcome,
  query_spend_period, same_budget_type, same_window, Tables, commit_rivals, have_clash, returned,
  new_row,
}
use amazee_ai.Limits.Model.{BudgetType, pool, periodic}
use amazee_ai.Common.{
  [], some, true, false, refl, arith, inl, inr, ◌≡◌, ◌∷◌, ◌++◌, ◌∙◌, Bool, List, Option-cases,
  Bool-cases, any, find_first, none, ◌≢◌, ◌⊎◌, All-mono, ap, sym, ℕ, All,
}

same_budget_type_refl : (b : BudgetType) → same_budget_type b b ≡ true
same_budget_type_refl pool = refl
same_budget_type_refl periodic = refl

same_window_refl : (w : Window) → same_window w w ≡ true
same_window_refl w = ground (arith, same_budget_type_refl w.budget_type)

same_budget_type_sound : (a b : BudgetType) → same_budget_type a b ≡ true → a ≡ b
same_budget_type_sound pool pool h = refl
same_budget_type_sound periodic periodic h = refl
same_budget_type_sound pool periodic h = absurd (ground arith)
same_budget_type_sound periodic pool h = absurd (ground arith)

-- A row that the query takes for one of the window is one, in every column of the unique index.
same_window_sound : (v w : Window) → same_window v w ≡ true → v ≡ w
same_window_sound v w h = ground (arith, h, same_budget_type_sound v.budget_type w.budget_type)

find_first-any :
    {A : Type 0} (p : A → Bool) (xs : List A) (x : A) → find_first p xs ≡ some x → any p xs ≡ true
unfolding find_first any
find_first-any p [] x e = absurd (ground arith)
find_first-any p (y ∷ ys) x e = ground (arith, find_first-any p ys x)

-- A row that is there is returned, and nothing is written.
present_returned :
    (rivals : List SpendPeriod) (w : Window) (c : Closing) (snapshot : Snapshot) (t : Tables)
    (row : SpendPeriod)
    → query_spend_period w t.periods ≡ some row
    → upsert_team_spend_period rivals w c snapshot t ≡ (returned row, t)
unfolding upsert_team_spend_period
present_returned rivals w c snapshot t row e = rw (upsert_team_spend_period, e) refl

absent_inserted :
    (rivals : List SpendPeriod) (w : Window) (c : Closing) (snapshot : Snapshot) (t : Tables)
    → query_spend_period w t.periods ≡ none
    → upsert_team_spend_period rivals w c snapshot t
      ≡ insert_spend_period w c snapshot (commit_rivals rivals t)
unfolding upsert_team_spend_period
absent_inserted rivals w c snapshot t e = rw (upsert_team_spend_period, e) refl

find_first-Memᴰ :
    (p : SpendPeriod → Bool) (xs : List SpendPeriod) (row : SpendPeriod)
    → find_first p xs ≡ some row
    → Memᴰ row xs
unfolding find_first
find_first-Memᴰ p [] row e = absurd (ground arith)
find_first-Memᴰ p (x ∷ xs) row e = elim (Bool-cases (p x)) [
  | inl t ↦ Memᴰ.head (ground (arith, t))
  | inr t ↦ Memᴰ.tail (find_first-Memᴰ p xs row (ground (arith, t)))
]

-- Whose the row is: one that stood there or that another task wrote; or the call's own, written where none
-- of these is of the window.
abbrev pub IsFirst : List SpendPeriod → Window → Closing → Snapshot → SpendPeriod → Type 0
IsFirst before w c snapshot row =
    Memᴰ row before ⊎ ((id : ℕ) × (row ≡ new_row w c snapshot id) × All (λ p. p.window ≢ w) before)

-- The call returned the row of the window, and it is the row that stands there.
abbrev IsWritten : List SpendPeriod → Window → Closing → Snapshot → Outcome × Tables → Type 0
IsWritten before w c snapshot x =
    (row : SpendPeriod) × (x.0 ≡ returned row)
    × (query_spend_period w x.1.periods ≡ some row)
    × IsFirst before w c snapshot row

other_window : (w : Window) (p : SpendPeriod) → same_window w p.window ≡ false → p.window ≢ w
other_window w p h same =
    let self : same_window w p.window ≡ true = ap (same_window w) same ∙ same_window_refl w in
    absurd (ground (arith, h, self))

queried_window :
    (w : Window) (ps : List SpendPeriod) (row : SpendPeriod)
    → query_spend_period w ps ≡ some row
    → row.window ≡ w
unfolding query_spend_period
queried_window w ps row e =
    sym (same_window_sound w row.window (find_first_sound (λ p. same_window w p.window) ps row e))

queried_there :
    (w : Window) (ps : List SpendPeriod) (row : SpendPeriod)
    → query_spend_period w ps ≡ some row
    → Memᴰ row ps
unfolding query_spend_period
queried_there w ps row e = find_first-Memᴰ (λ p. same_window w p.window) ps row e

insert-IsWritten :
    (w : Window) (c : Closing) (snapshot : Snapshot) (t : Tables)
    → have_clash snapshot.keys ≡ false
    → IsWritten t.periods w c snapshot (insert_spend_period w c snapshot t)
unfolding insert_spend_period query_spend_period
insert-IsWritten w c snapshot t clear =
    let p : SpendPeriod → Bool = λ q. same_window w q.window in
    elim (Option-cases (find_first p t.periods)) [
      | inl absent ↦
          let none_there = find_first-none p t.periods absent in
          let no : any p t.periods ≡ false = any-false p t.periods none_there in
          let row = new_row w c snapshot t.next_id in
          rw (no, clear)
            (
              row,
              refl,
              find_first-append_new p t.periods row absent (same_window_refl w),
              inr (t.next_id, refl, All-mono _ _ t.periods (other_window w) none_there),
            )
      | inr (row, found) ↦
          rw (find_first-any p t.periods row found, found)
            (row, refl, found, inl (find_first-Memᴰ p t.periods row found))
    ]

upsert-IsWritten :
    (rivals : List SpendPeriod) (w : Window) (c : Closing) (snapshot : Snapshot) (t : Tables)
    → have_clash snapshot.keys ≡ false
    → IsWritten (t.periods ++ rivals) w c snapshot (upsert_team_spend_period rivals w c snapshot t)
upsert-IsWritten rivals w c snapshot t clear =
    elim (Option-cases (query_spend_period w t.periods)) [
      | inl absent ↦
          rw (absent_inserted rivals w c snapshot t absent)
            (insert-IsWritten w c snapshot (commit_rivals rivals t) clear)
      | inr (row, found) ↦
          rw (present_returned rivals w c snapshot t row found)
            (row, refl, found, inl (append_left rivals (queried_there w t.periods row found)))
    ]

-- Where the keys of the snapshot do not clash, the call returns a row with all the columns of the window:
-- one that stood in the table or that another task wrote meanwhile, or its own, with the snapshot, where
-- none of these is of the window. Any later call for the window returns that row and changes nothing,
-- whatever it brings.
pub upsert_team_spend_period-IsFirst :
    (rivals later : List SpendPeriod) (w : Window) (c d : Closing) (snapshot other : Snapshot)
    (t : Tables)
    → have_clash snapshot.keys ≡ false
    → (row : SpendPeriod) × ((upsert_team_spend_period rivals w c snapshot t).0 ≡ returned row)
      × (row.window ≡ w)
      × IsFirst (t.periods ++ rivals) w c snapshot row
      × (upsert_team_spend_period later w d other (upsert_team_spend_period rivals w c snapshot t).1
          ≡ (returned row, (upsert_team_spend_period rivals w c snapshot t).1))
upsert_team_spend_period-IsFirst rivals later w c d snapshot other t clear =
    let (row, e, found, whose) = upsert-IsWritten rivals w c snapshot t clear in
    let t' = (upsert_team_spend_period rivals w c snapshot t).1 in
    (
      row,
      e,
      queried_window w t'.periods row found,
      whose,
      present_returned later w d other t' row found,
    )
