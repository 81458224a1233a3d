-- ===== src/Platform/Store/Refinement.antt =====
-- app/platform_settings.py: the table of settings as a map from keys to values.
use leakcheck_hub.Prelude.{
  ℕ, suc, Bool, true, false, Option, none, some, List, [], ◌∷◌, ◌++◌, Text, Bytes, text_eq,
  text_eq→eq, text_eq_refl, if◌then◌else◌, find, update, find-update, find-append_none, Outcome, ok,
  ◌≡◌, refl, sym, ◌∙◌, ap, subst, arith, inl, inr, Bool-cases,
}
use leakcheck_hub.Models.{PlatformSetting}
use leakcheck_hub.Unicode.{utf8}
use leakcheck_hub.Platform.Keys.{SettingKey, key_value, setting_aad}
use leakcheck_hub.Platform.Store.{
  Cipher, IsLawful, Decoder, has_key, text_of, decoded, read_row, read, is_skipped, replaced, added,
  put, write_one, write_many,
}

-- What settings are to the rest of the portal: a map from keys to values.
abbrev pub SettingMap : Type 0
SettingMap = SettingKey → Outcome (Option Text)

abbrev pub same_key : SettingKey → SettingKey → Bool
same_key key k = text_eq (key_value key) (key_value k)

unfoldable pub assign : SettingKey → Option Text → SettingMap → SettingMap
assign key none view k = view k
assign key (some value) view k =
    if is_skipped key (some value)
    then view k
    else if same_key key k
    then ok (some value)
    else view k

-- The entries of a call, one after the other.
unfoldable pub assign_many : List (SettingKey × Option Text) → SettingMap → SettingMap
unfolding assign
assign_many [] view = view
assign_many ((key, value) ∷ values) view = assign_many values (assign key value view)

-- Rows of another key are found as they were.
find-update_other :
    (p q : PlatformSetting → Bool) (f : PlatformSetting → PlatformSetting)
    → ((x : PlatformSetting) → q (f x) ≡ q x)
    → ((x : PlatformSetting) → q x ≡ true → p x ≡ false)
    → (xs : List PlatformSetting) → find q (update p f xs) ≡ find q xs
unfolding find update
find-update_other p q f keep apart [] = refl
find-update_other p q f keep apart (x ∷ xs) =
    ground (arith, keep x, apart x, find-update_other p q f keep apart xs)

find-here :
    (p : PlatformSetting → Bool) (x : PlatformSetting) → p x ≡ true → find p (x ∷ []) ≡ some x
unfolding find
find-here p x h = ground (arith, h)

find-snoc_miss :
    (p : PlatformSetting → Bool) (x : PlatformSetting)
    → p x ≡ false
    → (xs : List PlatformSetting) → find p (xs ++ x ∷ []) ≡ find p xs
unfolding find
find-snoc_miss p x h [] = ground (arith, h)
find-snoc_miss p x h (y ∷ xs) = ground (arith, find-snoc_miss p x h xs)

apart_keys :
    (a b : Text) (row : PlatformSetting)
    → text_eq a b ≡ false
    → has_key b row ≡ true
    → has_key a row ≡ false
apart_keys a b row other h = elim (Bool-cases (has_key a row)) [
  | inr e ↦ e
  | inl e ↦
      let one : row.key ≡ a = text_eq→eq row.key a e in
      let two : row.key ≡ b = text_eq→eq row.key b h in
      let same : text_eq a b ≡ true =
        subst (λ s. text_eq a s ≡ true) (sym one ∙ two) (text_eq_refl a) in
      absurd cc
]

module _ (cipher : Cipher) (lawful : IsLawful cipher) (decoder : Decoder) (actor_id clock : ℕ) where
  decoded-lawful :
      (nonce aad : Bytes) (value : Text)
      → decoded cipher decoder (cipher.decrypt nonce (cipher.encrypt nonce (utf8 value) aad) aad)
        ≡ ok (some value)
  unfolding decoded text_of
  decoded-lawful nonce aad value =
      rw (lawful nonce (utf8 value) aad, decoder.decode-utf8 value) refl

  -- What is read after a row was put.
  put-same :
      (key value : Text) (nonce : Bytes) (o : Option PlatformSetting) (rows : List PlatformSetting)
      → find (has_key key) rows ≡ o
      → read_row cipher decoder key
          (find (has_key key) (put cipher actor_id clock key nonce value o rows))
        ≡ ok (some value)
  unfolding put added replaced read_row
  put-same key value nonce none rows e =
      let new = added cipher actor_id clock key nonce value in
      ap (read_row cipher decoder key) (
        find-append_none (has_key key) rows (new ∷ []) e
        ∙ find-here (has_key key) new (text_eq_refl key))
      ∙ decoded-lawful nonce (setting_aad key 1) value
  put-same key value nonce (some row) rows e =
      ap (read_row cipher decoder key) (
        find-update (has_key key) (replaced cipher actor_id clock key nonce value) (λ x h. h) rows
          row e)
      ∙ decoded-lawful nonce (setting_aad key 1) value

  put-other :
      (key k value : Text) (nonce : Bytes) (o : Option PlatformSetting)
      (rows : List PlatformSetting)
      → text_eq key k ≡ false
      → find (has_key k) (put cipher actor_id clock key nonce value o rows) ≡ find (has_key k) rows
  unfolding put added replaced
  put-other key k value nonce none rows other =
      find-snoc_miss (has_key k) (added cipher actor_id clock key nonce value) other rows
  put-other key k value nonce (some row) rows other =
      find-update_other (has_key key) (has_key k) (replaced cipher actor_id clock key nonce value)
        (λ x. refl) (λ x. apart_keys key k x other) rows

  write_one-refines :
      (key : SettingKey) (value : Option Text) (nonce : Bytes) (rows : List PlatformSetting)
      (k : SettingKey)
      → read cipher decoder (write_one cipher actor_id clock key value nonce rows) k
        ≡ assign key value (read cipher decoder rows) k
  unfolding write_one assign read
  write_one-refines key none nonce rows k = refl
  write_one-refines key (some value) nonce rows k =
      elim (Bool-cases (is_skipped key (some value))) [
        | inl e ↦ rw e refl
        | inr e ↦ elim (Bool-cases (same_key key k)) [
          | inl same ↦
              rw (e, same)
                (subst
                  (λ t.
                    read_row cipher decoder t (
                      find (has_key t) (
                        put cipher actor_id clock (key_value key) nonce value
                          (find (has_key (key_value key)) rows) rows))
                    ≡ ok (some value))
                  (text_eq→eq (key_value key) (key_value k) same)
                  (put-same (key_value key) value nonce (find (has_key (key_value key)) rows) rows
                    refl))
          | inr other ↦
              rw (e, other)
                (ap (read_row cipher decoder (key_value k)) (
                  put-other (key_value key) (key_value k) value nonce
                    (find (has_key (key_value key)) rows) rows other))
        ]
      ]

  -- Maps that agree on every key still agree after the same entries.
  assign_many-cong :
      (values : List (SettingKey × Option Text)) (view view' : SettingMap)
      → ((k : SettingKey) → view k ≡ view' k)
      → (k : SettingKey) → assign_many values view k ≡ assign_many values view' k
  unfolding assign_many assign
  assign_many-cong [] view view' same k = same k
  assign_many-cong ((key, value) ∷ values) view view' same k =
      assign_many-cong values (assign key value view) (assign key value view')
        (assign-cong key value view view' same) k
    where
      assign-cong :
          (key : SettingKey) (value : Option Text) (view view' : SettingMap)
          → ((k : SettingKey) → view k ≡ view' k)
          → (k : SettingKey) → assign key value view k ≡ assign key value view' k
      assign-cong key none view view' same k = same k
      assign-cong key (some value) view view' same k = rw (same k) refl

  -- With a cipher that decrypts what it encrypted, the table is a map: what is read under any key after
  -- `write_many` is what the entries, in their order, make of what was read before. A None and a blank
  -- secret leave a value as it was; another value is the one that is read back.
  pub write_many-refines :
      (nonces : ℕ → Bytes) (values : List (SettingKey × Option Text)) (n : ℕ)
      (rows : List PlatformSetting) (k : SettingKey)
      → read cipher decoder (write_many cipher actor_id clock nonces values n rows) k
        ≡ assign_many values (read cipher decoder rows) k
  unfolding write_many assign_many
  write_many-refines nonces [] n rows k = refl
  write_many-refines nonces ((key, value) ∷ values) n rows k =
      write_many-refines nonces values (suc n)
        (write_one cipher actor_id clock key value (nonces n) rows) k
      ∙ assign_many-cong values
          (read cipher decoder (write_one cipher actor_id clock key value (nonces n) rows))
          (assign key value (read cipher decoder rows))
          (write_one-refines key value (nonces n) rows) k
