-- ===== src/LeakCheck/Records.antt =====
-- app/leakcheck.py: the records of a response, and the checks that `_parse_page` makes of a body.
-- `json.loads` is the library's: none where it raises.
pub mod Samples
use leakcheck_hub.Prelude.{
  ℕ, zero, suc, Bool, true, false, Option, none, some, List, [], ◌∷◌, ◌++◌, Text, Bytes, codes,
  if◌then◌else◌, Outcome, ok, err, Error, ◌>>=◌,
}
use leakcheck_hub.Python.{strip}
use leakcheck_hub.Models.{Json, Items, Fields, get}

pub data QueryType : Type 0 where
  email domain username phone origin password : QueryType

pub record BreachSource : Type 0 where
  pub name : Option Text
  pub breach_date : Option Text
  pub unverified : Option Bool
  pub passwordless : Option Bool
  pub compilation : Option Bool

pub record LeakRecord : Type 0 where
  pub email : Option Text
  pub username : Option Text
  pub phone : Option Text
  pub origin : Option Text
  pub password : Option Text
  pub fields : List Text
  pub source : BreachSource
  pub raw : Fields

pub record QueryResult : Type 0 where
  pub query_type : QueryType
  pub records : List LeakRecord
  pub quota : Option ℕ
  pub found : ℕ
  pub truncated : Bool

pub record ParsedPage : Type 0 where
  pub records : List LeakRecord
  pub quota : Option ℕ
  pub found : ℕ

optional_string : Option Json → Option Text
optional_string (some (Json.string s)) = some s
optional_string _ = none

optional_bool : Option Json → Option Bool
optional_bool none = none
optional_bool (some (Json.bool b)) = some b
optional_bool (some (Json.number zero)) = some false
optional_bool (some (Json.number (suc zero))) = some true
optional_bool _ = none

-- The stripped texts of a list that are not blank.
origin_names : Items → List Text
origin_names Items.nil = []
origin_names (Items.cons (Json.string s) r) =
    let rest = origin_names r in elim (strip s) [ [] ↦ rest | c ∷ t ↦ (c ∷ t) ∷ rest ]
origin_names (Items.cons _ r) = origin_names r

-- `", ".join(…)`
join_names : List Text → Text
join_names [] = []
join_names (s ∷ []) = s
join_names (s ∷ t ∷ r) = s ++ codes ", " ++ join_names (t ∷ r)

-- `text or None`
non_empty : Text → Option Text
non_empty [] = none
non_empty (c ∷ s) = some (c ∷ s)

optional_origin : Option Json → Option Text
unfolding origin_names join_names non_empty
optional_origin (some (Json.string s)) = some s
optional_origin (some (Json.array items)) = non_empty (join_names (origin_names items))
optional_origin _ = none

strings : Items → List Text
strings Items.nil = []
strings (Items.cons (Json.string s) r) = s ∷ strings r
strings (Items.cons _ r) = strings r

fields_of : Option Json → List Text
unfolding strings
fields_of (some (Json.array items)) = strings items
fields_of _ = []

source_of : Option Json → Fields
source_of (some (Json.object source)) = source
source_of _ = Fields.end

parse_source : Fields → BreachSource
unfolding optional_string optional_bool
parse_source source = record {
  name = optional_string (get (codes "name") source);
  breach_date = optional_string (get (codes "breach_date") source);
  unverified = optional_bool (get (codes "unverified") source);
  passwordless = optional_bool (get (codes "passwordless") source);
  compilation = optional_bool (get (codes "compilation") source);
}

pub parse_record : Json → Outcome LeakRecord
unfolding optional_string optional_origin fields_of source_of parse_source
parse_record (Json.object value) = ok (record {
  email = optional_string (get (codes "email") value);
  username = optional_string (get (codes "username") value);
  phone = optional_string (get (codes "phone") value);
  origin = optional_origin (get (codes "origin") value);
  password = optional_string (get (codes "password") value);
  fields = fields_of (get (codes "fields") value);
  source = parse_source (source_of (get (codes "source") value));
  raw = value;
})
parse_record _ = err Error.protocol_error

pub parse_records : Items → Outcome (List LeakRecord)
parse_records Items.nil = ok []
parse_records (Items.cons v r) = do
  first ← parse_record v
  rest ← parse_records r
  ok (first ∷ rest)

-- `payload.get("success") is True`
is_success : Option Json → Bool
is_success (some (Json.bool true)) = true
is_success _ = false

-- The check of `quota`: absent, null, or an integer that is not negative.
quota_of : Option Json → Outcome (Option ℕ)
quota_of none = ok none
quota_of (some Json.null) = ok none
quota_of (some (Json.number n)) = ok (some n)
quota_of _ = err Error.protocol_error

found_of : Option Json → Outcome ℕ
found_of (some (Json.number n)) = ok n
found_of _ = err Error.protocol_error

results_of : Option Json → Outcome Items
results_of (some (Json.array items)) = ok items
results_of _ = err Error.protocol_error

parse_payload : Option Json → Outcome ParsedPage
unfolding is_success quota_of found_of results_of
parse_payload (some (Json.object payload)) =
    if is_success (get (codes "success") payload)
    then (results_of (get (codes "result") payload) >>= λ items.
        found_of (get (codes "found") payload) >>= λ found.
        quota_of (get (codes "quota") payload) >>= λ quota. parse_records items >>= λ records.
        ok (record { records = records; quota = quota; found = found }))
    else err Error.protocol_error
parse_payload _ = err Error.protocol_error

pub parse_page : (Bytes → Option Json) → Bytes → Outcome ParsedPage
unfolding parse_payload
parse_page loads body = parse_payload (loads body)
