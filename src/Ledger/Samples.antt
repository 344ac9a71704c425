-- ===== src/Ledger/Samples.antt =====
-- A ledger for the tests: two teams, one with a subscription cycle and two top-ups.
use amazee_ai.Ledger.Allocation.Conservation.{id_of}
use amazee_ai.Common.Table.{IsKeyed}
use amazee_ai.Ledger.{Entry, Ledger, subscription_entry, topup_entry}
use amazee_ai.Common.{[], none, some, arith, ◌∷◌, plus_days}

abbrev pub cycle : Entry
cycle = record (subscription_entry 7 1 3000 100 100 (plus_days 100 30) none (some "in_1")) {
  id = 1;
}

abbrev pub first_topup : Entry
first_topup = record (topup_entry 7 1 2000 50 none "pi_1" (plus_days 50 365)) { id = 2 }

abbrev pub second_topup : Entry
second_topup = record (topup_entry 7 1 1000 90 none "pi_2" (plus_days 90 365)) {
  id = 3;
  consumed_cents = 400;
}

abbrev pub other_team : Entry
other_team = record (topup_entry 8 1 500 60 none "pi_3" (plus_days 60 365)) { id = 4 }

abbrev pub book : Ledger
book = record { entries = other_team ∷ second_topup ∷ cycle ∷ first_topup ∷ []; next_id = 5 }

pub book-IsKeyed : IsKeyed id_of book.entries
book-IsKeyed = omega arith
