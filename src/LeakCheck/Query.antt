-- ===== src/LeakCheck/Query.antt =====
-- app/leakcheck.py: `query` and the pagination of `_query_domain`, over the requests that
-- `_request_page` answers.
pub mod Pages
mod Examples
use leakcheck_hub.Prelude.{
  ℕ, zero, suc, ◌+◌, ◌*◌, ◌≤◌, Bool, true, false, not, ◌&&◌, ◌||◌, Option, none, some, List, [],
  ◌∷◌, ◌++◌, Text, codes, ltb, leb, ◌==◌, if◌then◌else◌, length, Outcome, ok, err, Error, ◌>>=◌,
}
use leakcheck_hub.Unicode.{utf8}
use leakcheck_hub.LeakCheck.Records.{QueryType, LeakRecord, QueryResult, ParsedPage}

-- `_DOMAIN_PAGE_SIZE`
abbrev pub page_size : ℕ
page_size = 1000

-- What is asked of `_request_page`. A parameter's value is the number whose decimal text is sent.
pub record PageRequest : Type 0 where
  pub query_type : QueryType
  pub query : Text
  pub parameters : List (Text × ℕ)

abbrev pub domain_request : Text → ℕ → PageRequest
domain_request query page_number = record {
  query_type = QueryType.domain;
  query = query;
  parameters = (codes "limit", page_size) ∷ (codes "offset", page_number * page_size) ∷ [];
}

module _ (ask : PageRequest → Outcome ParsedPage) where
  -- The loop of `_query_domain`, with the pages left, this page's number, and what was collected.
  pub pages : Text → ℕ → ℕ → List LeakRecord → Option ℕ → ℕ → Outcome QueryResult
  pages query zero n records quota found = ok (record {
    query_type = QueryType.domain;
    records = records;
    quota = quota;
    found = found;
    truncated = true;
  })
  pages query (suc left) n records quota found = ask (domain_request query n) >>= λ page.
      let records' = records ++ page.records in
      let found' = found + length page.records in
      let rest = pages query left (suc n) records' page.quota found' in
      if ltb (length page.records) page_size
      then ok (record {
        query_type = QueryType.domain;
        records = records';
        quota = page.quota;
        found = found';
        truncated = false;
      })
      else rest

  pub query_domain : ℕ → Text → Outcome QueryResult
  query_domain max_domain_pages query = pages query max_domain_pages 0 [] none 0

  single_page : QueryType → Text → Outcome QueryResult
  single_page query_type query = do
    page ← ask (record { query_type = query_type; query = query; parameters = [] })
    ok (record {
      query_type = query_type;
      records = page.records;
      quota = page.quota;
      found = page.found;
      truncated = false;
    })

  dispatch : ℕ → QueryType → Text → Outcome QueryResult
  unfolding query_domain single_page
  dispatch max_domain_pages QueryType.domain query = query_domain max_domain_pages query
  dispatch max_domain_pages query_type query = single_page query_type query

  -- `LeakCheckClient.query`
  pub query_records : ℕ → QueryType → Text → Outcome QueryResult
  unfolding dispatch
  query_records max_domain_pages query_type query =
      if length query == 0 || ltb 4096 (length (utf8 query))
      then err Error.value_error
      else dispatch max_domain_pages query_type query
