-- ===== src/Auth/Local/Logins/LimitRows.antt =====
-- app/auth/local.py: the row of one address: how it is loaded, counted and found again.
use leakcheck_hub.Prelude.{
  ℕ, ◌+◌, ◌≤◌, ◌<◌, true, false, none, some, List, [], ◌∷◌, ◌++◌, Bytes, leb, text_eq→eq,
  text_eq_refl, find, update, find-update, find-holds, find-append_none, ◌≡◌, ◌⊎◌, inl, inr, refl,
  ◌∙◌, arith, Bool-cases,
}
use leakcheck_hub.Models.{AdminLoginRateLimit}
use leakcheck_hub.Auth.Local.Logins.{
  Settings, fresh_limit, loaded, load_ip_limit, has_ip, reset_ip_limit_if_elapsed, failed_once,
  record_ip_failure,
}

module _ (s : Settings) (now : ℕ) where
  -- Within its window a row without a block is as it was.
  pub reset-same :
      (l : AdminLoginRateLimit)
      → l.blocked_until ≡ none
      → now < l.window_started_at + s.ip_window
      → reset_ip_limit_if_elapsed s now l ≡ l
  unfolding reset_ip_limit_if_elapsed
  reset-same l free within =
      let late : leb (l.window_started_at + s.ip_window) now ≡ false = ground arith in
      rw (free, late) refl

  pub reset-fresh :
      (key : Bytes) → reset_ip_limit_if_elapsed s now (fresh_limit key now) ≡ fresh_limit key now
  unfolding reset_ip_limit_if_elapsed fresh_limit
  reset-fresh key = elim (Bool-cases (leb (now + s.ip_window) now)) [
    | inl e ↦ rw e refl
    | inr e ↦ rw e refl
  ]

  -- One failure more: below the limit it is counted, at the limit it blocks.
  pub record_ip_failure-counts :
      (l : AdminLoginRateLimit)
      → reset_ip_limit_if_elapsed s now l ≡ l
      → l.blocked_until ≡ none
      → let m = record_ip_failure s now l in
        ((l.attempts + 1 < s.ip_max_failures)
          × (m.attempts ≡ l.attempts + 1)
          × (m.window_started_at ≡ l.window_started_at)
          × (m.blocked_until ≡ none))
        ⊎ ((s.ip_max_failures ≤ l.attempts + 1) × (m.blocked_until ≡ some (now + s.ip_lockout)))
  unfolding record_ip_failure failed_once
  record_ip_failure-counts l same free =
      rw same (elim (Bool-cases (leb s.ip_max_failures (l.attempts + 1))) [
        | inl e ↦ rw e (inr (ground arith, refl))
        | inr e ↦ rw e (inl (ground arith, refl, refl, free))
      ])

module _ (key : Bytes) where
  pub load-found :
      (now : ℕ) (limits : List AdminLoginRateLimit) (l : AdminLoginRateLimit)
      → find (has_ip key) limits ≡ some l
      → load_ip_limit key now limits ≡ (l, limits)
  unfolding load_ip_limit loaded
  load-found now limits l h = rw h refl

  pub load-fresh :
      (now : ℕ) (limits : List AdminLoginRateLimit)
      → find (has_ip key) limits ≡ none
      → load_ip_limit key now limits ≡ (fresh_limit key now, limits ++ fresh_limit key now ∷ [])
  unfolding load_ip_limit loaded
  load-fresh now limits h = rw h refl

  pub find-fresh :
      (now : ℕ) (limits : List AdminLoginRateLimit)
      → find (has_ip key) limits ≡ none
      → find (has_ip key) (limits ++ fresh_limit key now ∷ []) ≡ some (fresh_limit key now)
  unfolding fresh_limit
  find-fresh now limits h =
      find-append_none (has_ip key) limits (fresh_limit key now ∷ []) h
      ∙ (unfold find in ground (arith, text_eq_refl key))

  -- The row that a search by the address finds after it was written.
  pub find-written :
      (before after : List AdminLoginRateLimit) (l m : AdminLoginRateLimit)
      → find (has_ip key) before ≡ some l
      → m.ip_hash ≡ l.ip_hash
      → after ≡ update (has_ip l.ip_hash) (λ _. m) before
      → find (has_ip key) after ≡ some m
  find-written before after l m h same written =
      let named : l.ip_hash ≡ key = text_eq→eq l.ip_hash key (find-holds (has_ip key) before l h) in
      let hit : has_ip key m ≡ true = rw (same, named) (text_eq_refl key) in
      rw (written, named) (find-update (has_ip key) (λ _. m) (λ _ _. hit) before l h)
