-- ===== src/LeakCheck/Records/Samples.antt =====
-- A body without records, and the page that it is read as.
use leakcheck_hub.Prelude.{true, Option, none, some, [], Bytes, codes, ok, ◌≡◌, refl, text_eq}
use leakcheck_hub.Models.{Json, Items, Fields, get}
use leakcheck_hub.LeakCheck.Records.{
  parse_page, parse_payload, is_success, quota_of, found_of, results_of, parse_records,
}

-- A stand-in for the decoder: it is only applied.
abbrev pub loads : Bytes → Option Json
loads _ = some (
    Json.object (
      Fields.field (codes "success") (Json.bool true) (
        Fields.field (codes "result") (Json.array Items.nil)
          (Fields.field (codes "found") (Json.number 0) Fields.end))))

pub empty_page :
    (body : Bytes) → parse_page loads body ≡ ok (record { records = []; quota = none; found = 0 })
unfolding parse_page parse_payload is_success quota_of found_of results_of parse_records get text_eq
empty_page body = refl
