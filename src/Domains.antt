-- ===== src/Domains.antt =====
-- Disposable email domains, app/services/disposable_domains.py: the blocklist table, its daily
-- refresh, and the test of an email against it. A text is the list of its code points. Python's
-- `str.lower` and the test for white space come from the Unicode tables and are parameters; the lines
-- of the committed file, of DISPOSABLE_DOMAINS_EXTRA and of the upstream list are read elsewhere.
use amazee_ai.Common.{
  [], none, some, true, false, ◌&&◌, ◌||◌, ◌∷◌, ◌++◌, ◌==◌, if◌then◌else◌, Bool, List, ℕ, Option,
  any, length, map, not, select,
}
pub mod Labels
pub mod Blocking
pub mod Refreshing
pub mod Keys
mod Tests

abbrev pub Text : Type 0
Text = List ℕ

abbrev pub dot : ℕ
dot = 46

abbrev pub at_sign : ℕ
at_sign = 64

abbrev pub number_sign : ℕ
number_sign = 35

pub record Unicode : Type 0 where
  pub is_space : ℕ → Bool
  pub lower : Text → Text

unfoldable pub same_text : Text → Text → Bool
same_text [] [] = true
same_text (a ∷ s) (b ∷ t) = a == b && same_text s t
same_text _ _ = false

abbrev pub has_text : Text → List Text → Bool
has_text d = any (same_text d)

abbrev pub has_sign : ℕ → Text → Bool
has_sign c = any (λ a. a == c)

abbrev pub is_empty : Text → Bool
is_empty [] = true
is_empty (a ∷ s) = false

-- `str.strip`, with the test for what goes.
unfoldable pub strip_start : (ℕ → Bool) → Text → Text
strip_start p [] = []
strip_start p (a ∷ s) = if p a then strip_start p s else a ∷ s

abbrev pub keep_end : (ℕ → Bool) → ℕ → Text → Text
keep_end p a [] = if p a then [] else a ∷ []
keep_end p a (b ∷ s) = a ∷ b ∷ s

unfoldable pub strip_end : (ℕ → Bool) → Text → Text
strip_end p [] = []
strip_end p (a ∷ s) = keep_end p a (strip_end p s)

abbrev pub strip : (ℕ → Bool) → Text → Text
strip p s = strip_end p (strip_start p s)

abbrev pub strip_dots : Text → Text
strip_dots = strip (λ a. a == dot)

-- `value.rsplit("@", 1)[-1]`
unfoldable pub after_last : ℕ → Text → Text
after_last c [] = []
after_last c (a ∷ s) = if has_sign c s then after_last c s else (if a == c then s else a ∷ s)

abbrev pub starts_with : ℕ → Text → Bool
starts_with c [] = false
starts_with c (a ∷ s) = a == c

-- A set of texts, as the list without repetitions.
unfoldable pub set_of : List Text → List Text
set_of [] = []
set_of (s ∷ ss) = if has_text s ss then set_of ss else s ∷ set_of ss

-- `value.split(".")`
abbrev pub onto_first : ℕ → List Text → List Text
onto_first a [] = (a ∷ []) ∷ []
onto_first a (s ∷ ss) = (a ∷ s) ∷ ss

unfoldable pub split : ℕ → Text → List Text
split c [] = [] ∷ []
split c (a ∷ s) = if a == c then [] ∷ split c s else onto_first a (split c s)

-- `".".join(labels)`
unfoldable pub join : ℕ → List Text → Text
join c [] = []
join c (s ∷ []) = s
join c (s ∷ t ∷ ss) = s ++ c ∷ join c (t ∷ ss)

-- The suffixes of at least two labels.
unfoldable pub suffixes : List Text → List (List Text)
suffixes [] = []
suffixes (s ∷ []) = []
suffixes (s ∷ t ∷ ss) = (s ∷ t ∷ ss) ∷ suffixes (t ∷ ss)

abbrev pub labels : Text → List Text
labels domain = select (λ s. not (is_empty s)) (split dot domain)

abbrev pub suffixes_of : Text → List Text → List Text
suffixes_of domain [] = if is_empty domain then [] else domain ∷ []
suffixes_of domain (s ∷ []) = if is_empty domain then [] else domain ∷ []
suffixes_of domain (s ∷ t ∷ ss) = map (join dot) (suffixes (s ∷ t ∷ ss))

unfoldable pub candidate_suffixes : Text → List Text
unfolding split suffixes join
candidate_suffixes domain = suffixes_of domain (labels domain)

-- A row of `disposable_domains`.
pub data Source : Type 0 where
  baseline upstream : Source

pub record DisposableDomain : Type 0 where
  pub domain : Text
  pub source : Source

abbrev pub Table : Type 0
Table = List DisposableDomain

abbrev pub has_domain : Text → Table → Bool
has_domain d = any (λ r. same_text d r.domain)

-- What the fetch of DISPOSABLE_DOMAINS_URL comes to: there is no url, the call raises, or it returns
-- the lines of the list.
pub data Fetch : Type 0 where
  no_url failed : Fetch
  fetched : List Text → Fetch

-- What a refresh reads: the lines of the committed file, where it exists, those of the setting, and
-- the upstream list.
pub record Inputs : Type 0 where
  pub file : Option (List Text)
  pub extra : List Text
  pub fetch : Fetch

pub record Summary : Type 0 where
  pub total : ℕ
  pub from_upstream : ℕ
  pub from_baseline : ℕ

pub data Verdict : Type 0 where
  allowed unprocessable : Verdict

abbrev pub row_of : List Text → Text → DisposableDomain
row_of base d = record { domain = d; source = if has_text d base then baseline else upstream }

abbrev pub baseline_row : Text → DisposableDomain
baseline_row d = record { domain = d; source = baseline }

-- The rows that a failed refresh adds.
abbrev pub missing : List Text → Table → List Text
missing base table = select (λ d. not (has_domain d table)) base

unfoldable pub refresh_table : List Text → Option (List Text) → Table → Table
refresh_table base (some remote) table = map (row_of base) (set_of (base ++ remote))
refresh_table base none table = table ++ map baseline_row (missing base table)

unfoldable pub refresh_summary : List Text → Option (List Text) → Table → Summary
refresh_summary base (some remote) table = record {
  total = length (set_of (base ++ remote));
  from_upstream = length remote;
  from_baseline = length base;
}
refresh_summary base none table = record {
  total = length (set_of (map (λ r. r.domain) table ++ base));
  from_upstream = 0;
  from_baseline = length base;
}

module _ (u : Unicode) where
  abbrev pub strip_space : Text → Text
  strip_space = strip u.is_space

  -- The domain of a line; an empty text where the line names none.
  unfoldable pub parse_line : Text → Text
  unfolding strip_start strip_end after_last
  parse_line raw =
      let line = u.lower (strip_space raw) in
      if is_empty line || starts_with number_sign line
      then []
      else strip_dots (if has_sign at_sign line then after_last at_sign line else line)

  unfoldable pub parse_domains : List Text → List Text
  unfolding parse_line set_of
  parse_domains lines = set_of (select (λ d. not (is_empty d)) (map parse_line lines))

  unfoldable pub extract_domain : Text → Text
  unfolding strip_start strip_end after_last
  extract_domain email =
      let value = u.lower (strip_space email) in
      strip_dots (strip_space (if has_sign at_sign value then after_last at_sign value else value))

  unfoldable pub baseline_domains : Inputs → List Text
  unfolding parse_domains
  baseline_domains i =
      set_of (elim i.file [ none ↦ [] | some lines ↦ parse_domains lines ] ++ parse_domains i.extra)

  -- The upstream list, none where the fetch failed or the list was empty.
  unfoldable pub remote_domains : Fetch → Option (List Text)
  unfolding parse_domains
  remote_domains no_url = some []
  remote_domains failed = none
  remote_domains (fetched lines) = elim (parse_domains lines) [
    | [] ↦ none
    | ◌∷◌ d ds ↦ some (d ∷ ds)
  ]

  unfoldable pub refresh_disposable_domains : Inputs → Table → Summary × Table
  unfolding baseline_domains remote_domains refresh_table refresh_summary
  refresh_disposable_domains i table = (
    refresh_summary (baseline_domains i) (remote_domains i.fetch) table,
    refresh_table (baseline_domains i) (remote_domains i.fetch) table,
  )

  -- `enabled` is ENABLE_DISPOSABLE_EMAIL_BLOCKING.
  unfoldable pub is_blocked : Bool → Table → Text → Bool
  unfolding extract_domain candidate_suffixes
  is_blocked enabled table email =
      enabled && any (λ r. has_text r.domain (candidate_suffixes (extract_domain email))) table

  unfoldable pub assert_email_domain_allowed : Bool → Table → Text → Verdict
  unfolding is_blocked
  assert_email_domain_allowed enabled table email =
      if is_blocked enabled table email then unprocessable else allowed
