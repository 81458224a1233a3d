-- ===== src/LeakCheck/Query/Examples.antt =====
-- The theorems on queries at a service of two records.
use leakcheck_hub.Prelude.{
  ℕ, ◌*◌, none, some, List, [], ◌∷◌, Text, codes, take, drop, Outcome, ok, err, Error, ◌≡◌, refl,
  sym, subst,
}
use leakcheck_hub.Models.{Fields}
use leakcheck_hub.LeakCheck.Records.{QueryType, LeakRecord, QueryResult, ParsedPage}
use leakcheck_hub.LeakCheck.Query.{page_size, PageRequest, query_domain, query_records}
use leakcheck_hub.LeakCheck.Query.Pages.{
  Serves, IsPrefixOf, query_domain-IsPrefixOf, query-without_parameters,
}

abbrev leak : Text → LeakRecord
leak who = record {
  email = some who;
  username = none;
  phone = none;
  origin = none;
  password = none;
  fields = [];
  source = record {
    name = none;
    breach_date = none;
    unverified = none;
    passwordless = none;
    compilation = none;
  };
  raw = Fields.end;
}

abbrev leaks : List LeakRecord
leaks = leak (codes "a@x.test") ∷ leak (codes "b@x.test") ∷ []

-- The offset that a request asks for.
abbrev offset_of : List (Text × ℕ) → ℕ
offset_of [] = 0
offset_of (p ∷ []) = 0
offset_of (p ∷ q ∷ _) = q.1

abbrev served_at : List (Text × ℕ) → Outcome ParsedPage
served_at parameters = ok (record {
  records = take page_size (drop (offset_of parameters) leaks);
  quota = none;
  found = 2;
})

abbrev service : PageRequest → Outcome ParsedPage
service r = served_at r.parameters

served : Serves service (codes "x.test") leaks (λ n. none) (λ n. 2)
served = record { page = λ n. refl }

query_domain-IsPrefixOf_example :
    (r : QueryResult) × (query_domain service 10 (codes "x.test") ≡ ok r)
    × IsPrefixOf leaks (10 * page_size) r
query_domain-IsPrefixOf_example =
    query_domain-IsPrefixOf service (codes "x.test") leaks (λ n. none) (λ n. 2) 10 served

-- A service that refuses every request with a parameter.
abbrev plain_at : List (Text × ℕ) → Outcome ParsedPage
plain_at [] = ok (record { records = leaks; quota = none; found = 2 })
plain_at (_ ∷ _) = err Error.protocol_error

abbrev plain_only : PageRequest → Outcome ParsedPage
plain_only r = plain_at r.parameters

agree : (r : PageRequest) → r.parameters ≡ [] → service r ≡ plain_only r
agree r h = subst (λ l. served_at l ≡ plain_at l) (sym h) refl

query-without_parameters_example :
    query_records service 10 QueryType.email (codes "a@x.test")
    ≡ query_records plain_only 10 QueryType.email (codes "a@x.test")
query-without_parameters_example =
    query-without_parameters service plain_only 10 QueryType.email (codes "a@x.test") (λ e. cc)
      agree
