-- ===== src/LeakCheck/Query/Pages.antt =====
-- app/leakcheck.py: the pages of a domain query, and the requests of the other queries.
use leakcheck_hub.Prelude.{
  ℕ, zero, suc, ◌+◌, ◌-◌, ◌*◌, ◌≤◌, min, true, false, Option, none, List, [], ◌++◌, Text, ltb, leb,
  length, Outcome, ok, take, drop, length-take-min, length-drop, take_all, take-append-take, ◌≡◌,
  ◌≢◌, refl, arith, Bool-cases, inl, inr, sym, subst, ◌∙◌, ◌<◌, le→leb, length-append, ltb→lt,
  ltb_false→le, lt→leb_false,
}
use leakcheck_hub.LeakCheck.Records.{QueryType, LeakRecord, QueryResult, ParsedPage}
use leakcheck_hub.LeakCheck.Query.{
  page_size, PageRequest, domain_request, pages, query_domain, single_page, dispatch, query_records,
}

-- The service cuts its records for a domain into pages by limit and offset; the quota and the count
-- that it reports beside them are its own.
pub record Serves (ask : PageRequest → Outcome ParsedPage) (query : Text) (all : List LeakRecord)
    (quota : ℕ → Option ℕ) (found : ℕ → ℕ) : Type 0 where
  pub page :
      (n : ℕ)
      → ask (domain_request query n)
        ≡ ok (record {
          records = take page_size (drop (n * page_size) all);
          quota = quota n;
          found = found n;
        })

-- The records that a result holds, and how it says so.
pub record IsPrefixOf (all : List LeakRecord) (bound : ℕ) (r : QueryResult) : Type 0 where
  pub records : r.records ≡ take bound all
  pub found : r.found ≡ length r.records
  pub truncated : r.truncated ≡ leb bound (length all)

zero_pages : (n : ℕ) → (0 + n) * page_size ≡ n * page_size
zero_pages n = omega arith

module _ (ask : PageRequest → Outcome ParsedPage) (query : Text) (all : List LeakRecord)
    (quota : ℕ → Option ℕ) (found : ℕ → ℕ) (serves : Serves ask query all quota found) where
  pages-IsPrefixOf :
      (left n : ℕ) (q : Option ℕ) (records : List LeakRecord) (sum : ℕ)
      → records ≡ take (n * page_size) all
      → sum ≡ length records
      → n * page_size ≤ length all
      → (r : QueryResult) × (pages ask query left n records q sum ≡ ok r)
        × IsPrefixOf all ((left + n) * page_size) r
  unfolding pages
  pages-IsPrefixOf zero n q records sum same counted full = (
    record {
      query_type = QueryType.domain;
      records = records;
      quota = q;
      found = sum;
      truncated = true;
    },
    refl,
    record {
      records = rw (zero_pages n) same;
      found = counted;
      truncated = sym (le→leb ((0 + n) * page_size) (length all) (omega arith));
    },
  )
  pages-IsPrefixOf (suc left) n q records sum same counted full =
      let slice = take page_size (drop (n * page_size) all) in
      let size : length slice ≡ min page_size (length all - n * page_size) =
        rw (length-take-min page_size (drop (n * page_size) all), length-drop (n * page_size) all)
          refl in
      let joined : records ++ slice ≡ take (suc n * page_size) all =
        rw same
          (take-append-take (n * page_size) page_size (suc n * page_size) all (omega arith)) in
      let counted' : sum + length slice ≡ length (records ++ slice) =
        rw (length-append records slice) (omega arith) in
      elim (Bool-cases (ltb (length slice) page_size)) [
        | inl short ↦
            let lt = ltb→lt (length slice) page_size short in
            let all_of_it : length all ≤ suc n * page_size = omega arith in
            let under : length all < (suc left + n) * page_size = omega arith in
            let in_bound : length all ≤ (suc left + n) * page_size = omega arith in
            (
              record {
                query_type = QueryType.domain;
                records = records ++ slice;
                quota = quota n;
                found = sum + length slice;
                truncated = false;
              },
              rw (serves.page n, short) refl,
              record {
                records =
                    joined
                    ∙ take_all (suc n * page_size) all all_of_it
                    ∙ sym (take_all ((suc left + n) * page_size) all in_bound);
                found = counted';
                truncated = sym (lt→leb_false (length all) ((suc left + n) * page_size) under);
              },
            )
        | inr long ↦
            let ge = ltb_false→le (length slice) page_size long in
            let (r, returned, good) =
              pages-IsPrefixOf left (suc n) (quota n) (records ++ slice) (sum + length slice) joined
                counted' (omega arith) in
            let moved : left + suc n ≡ suc left + n = omega arith in
            (
              r,
              rw (serves.page n, long) returned,
              subst (λ k. IsPrefixOf all (k * page_size) r) moved good,
            )
      ]

-- A domain query over a service that pages a fixed list of records returns: it holds the first
-- `max_domain_pages` thousands of the records in order, all of them if there are fewer, its count is
-- theirs, and it is marked truncated exactly when the records fill every page allowed.
pub query_domain-IsPrefixOf :
    (ask : PageRequest → Outcome ParsedPage) (query : Text) (all : List LeakRecord)
    (quota : ℕ → Option ℕ) (found : ℕ → ℕ) (max_domain_pages : ℕ)
    → Serves ask query all quota found
    → (r : QueryResult) × (query_domain ask max_domain_pages query ≡ ok r)
      × IsPrefixOf all (max_domain_pages * page_size) r
unfolding query_domain
query_domain-IsPrefixOf ask query all quota found max_domain_pages serves =
    let (r, returned, good) =
      pages-IsPrefixOf ask query all quota found serves max_domain_pages 0 none [] 0 refl refl
        (omega arith) in
    let plain : max_domain_pages + 0 ≡ max_domain_pages = omega arith in
    (r, returned, subst (λ k. IsPrefixOf all (k * page_size) r) plain good)

single_page-ap :
    (ask ask' : PageRequest → Outcome ParsedPage) (kind : QueryType) (query : Text)
    → ((r : PageRequest) → r.parameters ≡ [] → ask r ≡ ask' r)
    → single_page ask kind query ≡ single_page ask' kind query
unfolding single_page
single_page-ap ask ask' kind query agree =
    rw (agree (record { query_type = kind; query = query; parameters = [] }) refl)

dispatch-without_parameters :
    (ask ask' : PageRequest → Outcome ParsedPage) (m : ℕ) (kind : QueryType) (query : Text)
    → kind ≢ QueryType.domain
    → ((r : PageRequest) → r.parameters ≡ [] → ask r ≡ ask' r)
    → dispatch ask m kind query ≡ dispatch ask' m kind query
unfolding dispatch
dispatch-without_parameters ask ask' m QueryType.domain query other agree = absurd (other refl)
dispatch-without_parameters ask ask' m kind query other agree =
    single_page-ap ask ask' kind query agree

-- A query of any kind but a domain's asks only requests without parameters: two services that
-- agree on those answer it alike.
pub query-without_parameters :
    (ask ask' : PageRequest → Outcome ParsedPage) (max_domain_pages : ℕ) (kind : QueryType)
    (query : Text)
    → kind ≢ QueryType.domain
    → ((r : PageRequest) → r.parameters ≡ [] → ask r ≡ ask' r)
    → query_records ask max_domain_pages kind query ≡ query_records ask' max_domain_pages kind query
unfolding query_records
query-without_parameters ask ask' m kind query other agree =
    let same = dispatch-without_parameters ask ask' m kind query other agree in ground arith
