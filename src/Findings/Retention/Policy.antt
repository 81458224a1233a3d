-- ===== src/Findings/Retention/Policy.antt =====
-- app/retention.py: which stored settings let the purge delete.
use leakcheck_hub.Prelude.{
  ℕ, zero, suc, true, Option, none, some, [], ◌∷◌, ◌≡◌, ◌⊎◌, inl, inr, refl, arith, Text, codes,
  text_eq→eq,
}
use leakcheck_hub.Python.{ℤ, pos, negsuc, parse_int, strip}
use leakcheck_hub.Findings.Retention.{
  Mode, RetentionPolicy, keep_everything, deletes_anything, load_policy, stored_mode, mode_of,
  with_days, checked,
}

-- What is stored where a policy deletes: the mode `none`, which takes everything closed, or the mode
-- `days` with a number of days that is at least one. White space around a setting is dropped.
pub data Deletes : (raw_mode raw_days : Option Text) → RetentionPolicy → Type 0 where
  at_once :
      {raw_days : Option Text} {p : RetentionPolicy} (text : Text)
      → strip text ≡ codes "none"
      → p.mode ≡ Mode.none_at_all
      → Deletes (some text) raw_days p
  after_days :
      {p : RetentionPolicy} (text days : Text) (n : ℕ)
      → strip text ≡ codes "days"
      → parse_int days ≡ some (pos (suc n))
      → p.mode ≡ Mode.by_days
      → p.days ≡ some (pos (suc n))
      → Deletes (some text) (some days) p

mode_of-none_at_all : (text : Text) → mode_of text ≡ some Mode.none_at_all → text ≡ codes "none"
unfolding mode_of
mode_of-none_at_all text h = text_eq→eq text (codes "none") (ground arith)

mode_of-by_days : (text : Text) → mode_of text ≡ some Mode.by_days → text ≡ codes "days"
unfolding mode_of
mode_of-by_days text h = text_eq→eq text (codes "days") (ground arith)

-- A mode other than `indefinite` is read off a text that was stored.
stored_mode-text :
    (raw : Option Text) (mode : Mode)
    → stored_mode raw ≡ some mode
    → (mode ≡ Mode.indefinite)
      ⊎ ((text : Text) × (raw ≡ some text) × (mode_of (strip text) ≡ some mode))
unfolding stored_mode
stored_mode-text none mode h = inl (ground arith)
stored_mode-text (some []) mode h = inl (ground arith)
stored_mode-text (some (c ∷ s)) mode h = inr (c ∷ s, refl, h)

-- A policy that deletes, by the mode and the stored days that it was read from.
abbrev Deleting : Mode → Option Text → RetentionPolicy → Type 0
Deleting mode raw p =
    ((mode ≡ Mode.none_at_all) × (p.mode ≡ Mode.none_at_all))
    ⊎ ((mode ≡ Mode.by_days)
        × (days : Text) × (n : ℕ) × (raw ≡ some days)
        × (parse_int days ≡ some (pos (suc n)))
        × (p.mode ≡ Mode.by_days)
        × (p.days ≡ some (pos (suc n))))

parsed-Deleting :
    (mode : Mode) (days : Text) (n : Option ℤ)
    → parse_int days ≡ n
    → deletes_anything (elim n [ none ↦ keep_everything | some k ↦ checked mode (some k) ]) ≡ true
    → Deleting mode (some days) (elim n [ none ↦ keep_everything | some k ↦ checked mode (some k) ])
unfolding deletes_anything checked
parsed-Deleting mode days none e h = absurd (ground arith)
parsed-Deleting Mode.indefinite days (some k) e h = absurd (ground arith)
parsed-Deleting Mode.none_at_all days (some k) e h = inl (refl, refl)
parsed-Deleting Mode.by_days days (some (pos zero)) e h = absurd (ground arith)
parsed-Deleting Mode.by_days days (some (pos (suc n))) e h =
    inr (refl, days, n, refl, e, refl, refl)
parsed-Deleting Mode.by_days days (some (negsuc n)) e h = absurd (ground arith)

with_days-Deleting :
    (mode : Mode) (raw : Option Text)
    → deletes_anything (with_days mode raw) ≡ true
    → Deleting mode raw (with_days mode raw)
unfolding with_days deletes_anything checked
with_days-Deleting Mode.indefinite none h = absurd (ground arith)
with_days-Deleting Mode.none_at_all none h = inl (refl, refl)
with_days-Deleting Mode.by_days none h = absurd (ground arith)
with_days-Deleting mode (some days) h = parsed-Deleting mode days (parse_int days) refl h

stored-Deletes :
    (raw_mode raw_days : Option Text) (mode : Mode) (p : RetentionPolicy)
    → stored_mode raw_mode ≡ some mode
    → Deleting mode raw_days p
    → Deletes raw_mode raw_days p
stored-Deletes raw_mode raw_days mode p e (inl (same, all)) =
    elim (stored_mode-text raw_mode mode e) [
      | inl (kept) ↦ absurd (ground arith)
      | inr (text, stored, read) ↦
          rw stored (at_once text (mode_of-none_at_all (strip text) (rw same at read)) all)
    ]
stored-Deletes raw_mode raw_days mode p e (inr (same, days, n, written, whole, by, at_least)) =
    elim (stored_mode-text raw_mode mode e) [
      | inl kept ↦ absurd (ground arith)
      | inr (text, stored, read) ↦
          rw (stored, written)
            (after_days text days n (mode_of-by_days (strip text) (rw same at read)) whole by
              at_least)
    ]

-- Whatever is stored, the policy that is read deletes only where the stored mode is the word `none`
-- or the word `days`, white space around it aside, and with `days` only where the stored number of
-- days reads as a whole number of at least one. The policy has that mode and that number.
pub load_policy-Deletes :
    (raw_mode raw_days : Option Text)
    → deletes_anything (load_policy raw_mode raw_days) ≡ true
    → Deletes raw_mode raw_days (load_policy raw_mode raw_days)
unfolding load_policy
load_policy-Deletes raw_mode raw_days h = known (stored_mode raw_mode) refl h
  where
    known :
        (m : Option Mode)
        → stored_mode raw_mode ≡ m
        → deletes_anything (elim m [ none ↦ keep_everything | some k ↦ with_days k raw_days ])
          ≡ true
        → Deletes raw_mode raw_days
            (elim m [ none ↦ keep_everything | some k ↦ with_days k raw_days ])
    known none e d = absurd (unfold deletes_anything in ground arith)
    known (some k) e d =
        stored-Deletes raw_mode raw_days k (with_days k raw_days) e
          (with_days-Deleting k raw_days d)
