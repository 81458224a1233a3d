-- ===== src/Ingest/Fingerprint/Sanitized.antt =====
-- app/ingest.py: what a finding keeps of a vendor's record.
use leakcheck_hub.Prelude.{Bool, true, not, ◌&&◌, ◌≡◌, refl, codes, text_eq, inl, inr, Bool-cases}
use leakcheck_hub.Models.{Json, Items, Fields}
use leakcheck_hub.Ingest.Library.{Library}
use leakcheck_hub.Ingest.Fingerprint.{sanitized_raw, sanitize_value, sanitize_items}

module _ (lib : Library) where
  -- No key folds to `password`, at any depth.
  mutual
    pub is_clean : Fields → Bool
    is_clean Fields.end = true
    is_clean (Fields.field key item rest) =
        not (text_eq (lib.casefold key) (codes "password")) && is_clean_value item && is_clean rest

    pub is_clean_value : Json → Bool
    is_clean_value (Json.object fields) = is_clean fields
    is_clean_value (Json.array items) = is_clean_items items
    is_clean_value _ = true

    pub is_clean_items : Items → Bool
    is_clean_items Items.nil = true
    is_clean_items (Items.cons v rest) = is_clean_value v && is_clean_items rest

  mutual
    unfolding sanitized_raw sanitize_value sanitize_items is_clean is_clean_value is_clean_items

    raw_clean : (fields : Fields) → is_clean (sanitized_raw lib fields) ≡ true
    raw_clean Fields.end = refl
    raw_clean (Fields.field key item rest) =
        elim (Bool-cases (text_eq (lib.casefold key) (codes "password"))) [
          | inl e ↦ rw e (raw_clean rest)
          | inr e ↦ rw e (rw (e, value_clean item, raw_clean rest) refl)
        ]

    value_clean : (value : Json) → is_clean_value (sanitize_value lib value) ≡ true
    value_clean Json.null = refl
    value_clean (Json.bool b) = refl
    value_clean (Json.number n) = refl
    value_clean (Json.negative n) = refl
    value_clean (Json.float s) = refl
    value_clean (Json.string s) = refl
    value_clean (Json.array items) = items_clean items
    value_clean (Json.object fields) = raw_clean fields

    items_clean : (items : Items) → is_clean_items (sanitize_items lib items) ≡ true
    items_clean Items.nil = refl
    items_clean (Items.cons v rest) = rw (value_clean v, items_clean rest) refl

  -- Whatever a vendor's record holds, what is kept of it has no key that folds to `password`, at any
  -- depth of objects and lists.
  pub sanitized_raw-clean : (fields : Fields) → is_clean (sanitized_raw lib fields) ≡ true
  sanitized_raw-clean fields = raw_clean fields
