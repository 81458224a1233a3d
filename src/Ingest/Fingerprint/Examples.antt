-- ===== src/Ingest/Fingerprint/Examples.antt =====
-- The theorem on the framing at two parts, and the one on sanitized records at a nested one.
use leakcheck_hub.Prelude.{true, [], ◌∷◌, codes, ◌≡◌, refl, arith}
use leakcheck_hub.Models.{Json, Items, Fields}
use leakcheck_hub.Ingest.Sample.{library}
use leakcheck_hub.Ingest.Fingerprint.{sanitized_raw}
use leakcheck_hub.Ingest.Fingerprint.Sanitized.{is_clean, sanitized_raw-clean}
use leakcheck_hub.Ingest.Fingerprint.Framing.{framed-injective}

framed-injective_example : codes "ab" ∷ codes "c" ∷ [] ≡ codes "ab" ∷ codes "c" ∷ []
framed-injective_example =
    framed-injective (codes "ab" ∷ codes "c" ∷ []) (codes "ab" ∷ codes "c" ∷ [])
      (omega arith, (omega arith, tt)) (omega arith, (omega arith, tt)) refl refl

-- A record with a password, and one in a list below it.
abbrev entry : Fields
entry = Fields.field (codes "password") (Json.string (codes "pw")) (
    Fields.field (codes "more")
      (Json.array (
        Items.cons (Json.object (Fields.field (codes "password") (Json.number 1) Fields.end))
          Items.nil))
      Fields.end)

sanitized_raw-clean_example : is_clean library (sanitized_raw library entry) ≡ true
sanitized_raw-clean_example = sanitized_raw-clean library entry
