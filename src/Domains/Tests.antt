-- ===== src/Domains/Tests.antt =====
-- A blocklist with one entry, addresses below it, and refreshes; ASCII stands for Unicode.
use amazee_ai.Domains.Keys.{IsDuplicateFree, domains}
use amazee_ai.Domains.Blocking.{IsPlain, SplitAt, IsHostLabel, is_blocked-below}
use amazee_ai.Domains.{
  Inputs, Table, Text, Unicode, assert_email_domain_allowed, has_domain, is_blocked, at_sign,
  baseline, dot, refresh_disposable_domains, allowed, failed, join, unprocessable, set_of,
  same_text, candidate_suffixes,
}
use amazee_ai.Domains.{set_of}
use amazee_ai.Common.{
  [], some, true, refl, ◌≡◌, ◌↔◌, ◌∷◌, ◌++◌, ◌==◌, any, map, ℕ, ◌+◌, ◌&&◌, if◌then◌else◌, leb, All,
  select,
}

program : Unit {0}
unfolding candidate_suffixes is_blocked refresh_disposable_domains assert_email_domain_allowed any
    join set_of select same_text
program = tt

abbrev lower_letter : ℕ → ℕ
lower_letter a = if leb 65 a && leb a 90 then a + 32 else a

abbrev ascii : Unicode
ascii = record { is_space = λ a. a == 32; lower = map lower_letter }

-- dynv6
abbrev dynv : Text
dynv = 100 ∷ 121 ∷ 110 ∷ 118 ∷ 54 ∷ []

-- net
abbrev net : Text
net = 110 ∷ 101 ∷ 116 ∷ []

-- mail
abbrev mail : Text
mail = 109 ∷ 97 ∷ 105 ∷ 108 ∷ []

abbrev apex : Text
apex = dynv ++ dot ∷ net

abbrev blocklist : Table
blocklist = record { domain = apex; source = baseline } ∷ []

-- jo@Mail.dynv6.net, with a space in front, is refused, and jo@net is not.
refused_run :
    assert_email_domain_allowed ascii true blocklist
      (32 ∷ 106 ∷ at_sign ∷ 77 ∷ 97 ∷ 105 ∷ 108 ∷ dot ∷ apex)
    ≡ unprocessable
unfolding program
refused_run = refl

allowed_run : assert_email_domain_allowed ascii true blocklist (106 ∷ at_sign ∷ net) ≡ allowed
unfolding program
allowed_run = refl

abbrev address : Text
address = (106 ∷ 111 ∷ []) ++ at_sign ∷ join dot (mail ∷ dynv ∷ net ∷ [])

address-IsPlain : IsPlain ascii address
unfolding program
address-IsPlain = record {
  lowered = refl;
  spaceless = (
    refl,
    (
      refl,
      (
        refl,
        (
          refl,
          (
            refl,
            (
              refl,
              (
                refl,
                (refl, (refl, (refl, (refl, (refl, (refl, (refl, (refl, (refl, (refl, tt)))))))))),
              ),
            ),
          ),
        ),
      ),
    ),
  );
}

hosts : All IsHostLabel (mail ∷ dynv ∷ net ∷ [])
unfolding program
hosts = (
  ((refl, (refl, (refl, (refl, (refl, tt))))), (refl, (refl, (refl, (refl, tt))))),
  (
    (
      (refl, (refl, (refl, (refl, (refl, (refl, tt)))))),
      (refl, (refl, (refl, (refl, (refl, tt))))),
    ),
    (((refl, (refl, (refl, (refl, tt)))), (refl, (refl, (refl, tt)))), tt),
  ),
)

is_blocked-below_example :
    (is_blocked ascii true blocklist address ≡ true)
    ↔ SplitAt (λ back. has_domain (join dot back) blocklist) (mail ∷ dynv ∷ net ∷ [])
is_blocked-below_example =
    is_blocked-below ascii blocklist (106 ∷ 111 ∷ []) mail dynv (net ∷ []) address-IsPlain hosts

abbrev inputs : Inputs
inputs = record {
  file = some ((35 ∷ net) ∷ apex ∷ []);
  extra = (at_sign ∷ mail ++ dot ∷ net) ∷ [];
  fetch = failed;
}

blocklist-IsDuplicateFree : IsDuplicateFree (domains blocklist)
unfolding program
blocklist-IsDuplicateFree = (refl, tt)

-- A domain of one label is a candidate itself.
bare_run : candidate_suffixes net ≡ net ∷ []
unfolding program
bare_run = refl
