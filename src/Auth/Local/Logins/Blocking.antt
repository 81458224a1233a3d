-- ===== src/Auth/Local/Logins/Blocking.antt =====
-- app/auth/local.py: how guesses from one address lead to its block.
use leakcheck_hub.Prelude.{
  ℕ, suc, ◌+◌, ◌<◌, true, false, Option, none, some, List, [], ◌∷◌, ◌++◌, Text, Bytes, ltb, text_eq,
  find, update, ok, ◌≡◌, ◌⊎◌, inl, inr, refl, ◌∙◌, arith, Bool-cases,
}
use leakcheck_hub.Models.{User, AdminLoginRateLimit}
use leakcheck_hub.Unicode.{utf8}
use leakcheck_hub.Auth.Local.{Library, canonical_ip}
use leakcheck_hub.Auth.Local.Provisioning.{Tables}
use leakcheck_hub.Auth.Local.Logins.{
  Settings, Attempt, is_before, fresh_limit, load_ip_limit, has_ip, reset_ip_limit_if_elapsed,
  record_ip_failure, ip_hash, authenticate,
}
use leakcheck_hub.Auth.Local.Logins.LimitRows.{
  reset-same, reset-fresh, record_ip_failure-counts, load-found, load-fresh, find-fresh,
  find-written,
}
use leakcheck_hub.Auth.Local.Logins.Elsewhere.{authenticate_elsewhere}
use leakcheck_hub.Auth.Local.Logins.Writes.{
  record_ip_failure-ip_hash, authenticate-Writes, authenticate_blocked,
}

-- The name of an address in the table.
abbrev pub key_of : Library → Settings → Text → Bytes
key_of lib s ip = lib.hmac_sha256 s.ip_key (utf8 ip)

-- Attempts since an address without a row was first refused, at the instant `start`: how many were
-- refused to this address, the instant of the last of these, and the tables. All from this
-- address are within a window from `start`; in between come logins that succeed while the refusals
-- are below the limit, and whatever is tried from addresses with another hash.
pub data Guesses (lib : Library) (s : Settings) (ip : Text) (start : ℕ) (db : Tables)
    : ℕ → ℕ → Tables → Type 0 where
  first :
      (a : Attempt) (db' : Tables)
      → canonical_ip lib a.client_ip ≡ ok ip
      → a.now ≡ start
      → authenticate lib s a db ≡ ok (none, db')
      → Guesses lib s ip start db 1 a.now db'
  refused :
      (n last : ℕ) (mid : Tables) (a : Attempt) (db' : Tables)
      → Guesses lib s ip start db n last mid
      → canonical_ip lib a.client_ip ≡ ok ip
      → a.now < start + s.ip_window
      → authenticate lib s a mid ≡ ok (none, db')
      → Guesses lib s ip start db (suc n) a.now db'
  admitted :
      (n last : ℕ) (mid : Tables) (a : Attempt) (v : User) (db' : Tables)
      → Guesses lib s ip start db n last mid
      → n < s.ip_max_failures
      → canonical_ip lib a.client_ip ≡ ok ip
      → a.now < start + s.ip_window
      → authenticate lib s a mid ≡ ok (some v, db')
      → Guesses lib s ip start db n last db'
  elsewhere :
      (n last : ℕ) (mid : Tables) (a : Attempt) (other : Text) (o : Option User) (db' : Tables)
      → Guesses lib s ip start db n last mid
      → canonical_ip lib a.client_ip ≡ ok other
      → text_eq (key_of lib s other) (key_of lib s ip) ≡ false
      → authenticate lib s a mid ≡ ok (o, db')
      → Guesses lib s ip start db n last db'

module _ (lib : Library) (s : Settings) (ip : Text) (start : ℕ) where
  -- The row of the address after n refusals, the last of them at the instant `last`: below the limit
  -- it has counted them, at the limit it blocks from then on.
  State : (n last : ℕ) → List AdminLoginRateLimit → Type 0
  State n last limits =
      ((n < s.ip_max_failures)
        × (l : AdminLoginRateLimit) × (find (has_ip (key_of lib s ip)) limits ≡ some l)
        × (l.attempts ≡ n)
        × (l.window_started_at ≡ start)
        × (l.blocked_until ≡ none))
      ⊎ ((n ≡ s.ip_max_failures)
          × (l : AdminLoginRateLimit) × (find (has_ip (key_of lib s ip)) limits ≡ some l)
          × (l.blocked_until ≡ some (last + s.ip_lockout)))
      ⊎ (s.ip_max_failures < n)

  failed-State :
      (n now : ℕ) (before after : List AdminLoginRateLimit) (l : AdminLoginRateLimit)
      → find (has_ip (key_of lib s ip)) before ≡ some l
      → l.attempts ≡ n
      → l.window_started_at ≡ start
      → l.blocked_until ≡ none
      → reset_ip_limit_if_elapsed s now l ≡ l
      → after ≡ update (has_ip l.ip_hash) (λ _. record_ip_failure s now l) before
      → State (suc n) now after
  unfolding State
  failed-State n now before after l h count window free same written =
      let m = record_ip_failure s now l in
      let found =
        find-written (key_of lib s ip) before after l m h (record_ip_failure-ip_hash s now l)
          written in
      elim (record_ip_failure-counts s now l same free) [
        | inl (below, counted, kept, open_) ↦
            inl (omega (arith, count), m, found, omega (arith, count), kept ∙ window, open_)
        | inr (over, blocks) ↦ elim (Bool-cases (ltb s.ip_max_failures (suc n))) [
          | inl more ↦ inr (inr (ground arith))
          | inr exact ↦ inr (inl (ground arith, m, found, blocks))
        ]
      ]

  first-State :
      (a : Attempt) (db db' : Tables)
      → find (has_ip (key_of lib s ip)) db.limits ≡ none
      → canonical_ip lib a.client_ip ≡ ok ip
      → a.now ≡ start
      → authenticate lib s a db ≡ ok (none, db')
      → State 1 a.now db'.limits
  unfolding ip_hash
  first-State a db db' absent known began done =
      let key = key_of lib s ip in
      let fresh = fresh_limit key a.now in
      let loads = load-fresh key a.now db.limits absent in
      let free : is_before a.now (load_ip_limit key a.now db.limits).0.blocked_until ≡ false =
        rw loads (unfold fresh_limit in refl) in
      let writes = authenticate-Writes lib s a ip known db db' none free done in
      let writes' = rw (loads, reset-fresh s a.now key) at writes in
      elim writes' [
        | inl (_, written) ↦
            failed-State 0 a.now (db.limits ++ fresh ∷ []) db'.limits fresh
              (find-fresh key a.now db.limits absent) (unfold fresh_limit in refl)
              (unfold fresh_limit in began) (unfold fresh_limit in refl) (reset-fresh s a.now key)
              written
        | inr (v, impossible, _) ↦ absurd (ground arith)
      ]

  refused-State :
      (n last : ℕ) (a : Attempt) (db db' : Tables)
      → State n last db.limits
      → canonical_ip lib a.client_ip ≡ ok ip
      → a.now < start + s.ip_window
      → authenticate lib s a db ≡ ok (none, db')
      → State (suc n) a.now db'.limits
  unfolding State ip_hash
  refused-State n last a db db' (inl (below, l, h, count, window, free)) known within done =
      let key = key_of lib s ip in
      let loads = load-found key a.now db.limits l h in
      let same = reset-same s a.now l free (rw window within) in
      let open_ : is_before a.now (load_ip_limit key a.now db.limits).0.blocked_until ≡ false =
        rw (loads, free) refl in
      let writes = authenticate-Writes lib s a ip known db db' none open_ done in
      let writes' = rw loads at writes in
      let writes'' = rw same at writes' in
      elim writes'' [
        | inl (_, written) ↦
            failed-State n a.now db.limits db'.limits l h count window free same written
        | inr (v, impossible, _) ↦ absurd (ground arith)
      ]
  refused-State n last a db db' (inr (inl (exact, _, _, _))) known within done =
      inr (inr (omega arith))
  refused-State n last a db db' (inr (inr more)) known within done = inr (inr (omega arith))

  admitted-State :
      (n last : ℕ) (a : Attempt) (v : User) (db db' : Tables)
      → State n last db.limits
      → n < s.ip_max_failures
      → canonical_ip lib a.client_ip ≡ ok ip
      → a.now < start + s.ip_window
      → authenticate lib s a db ≡ ok (some v, db')
      → State n last db'.limits
  unfolding State ip_hash
  admitted-State n last a v db db' (inl (below, l, h, count, window, free)) few known within done =
      let key = key_of lib s ip in
      let loads = load-found key a.now db.limits l h in
      let same = reset-same s a.now l free (rw window within) in
      let open_ : is_before a.now (load_ip_limit key a.now db.limits).0.blocked_until ≡ false =
        rw (loads, free) refl in
      let writes = authenticate-Writes lib s a ip known db db' (some v) open_ done in
      let writes' = rw loads at writes in
      let writes'' = rw same at writes' in
      elim writes'' [
        | inl (impossible, _) ↦ absurd (ground arith)
        | inr (_, _, written) ↦ inl (
          below,
          l,
          find-written key db.limits db'.limits l l h refl written,
          count,
          window,
          free,
        )
      ]
  admitted-State n last a v db db' (inr (inl (exact, _, _, _))) few known within done =
      absurd (omega arith)
  admitted-State n last a v db db' (inr (inr more)) few known within done = absurd (omega arith)

  elsewhere-State :
      (n last : ℕ) (a : Attempt) (other : Text) (o : Option User) (db db' : Tables)
      → State n last db.limits
      → canonical_ip lib a.client_ip ≡ ok other
      → text_eq (key_of lib s other) (key_of lib s ip) ≡ false
      → authenticate lib s a db ≡ ok (o, db')
      → State n last db'.limits
  unfolding State ip_hash
  elsewhere-State n last a other o db db' (inl (below, l, h, count, window, free)) known apart
        done =
      inl (
        below,
        l,
        authenticate_elsewhere lib s a other (key_of lib s ip) db db' o l known apart h done,
        count,
        window,
        free,
      )
  elsewhere-State n last a other o db db' (inr (inl (exact, l, h, blocks))) known apart done = inr (
      inl (
        exact,
        l,
        authenticate_elsewhere lib s a other (key_of lib s ip) db db' o l known apart h done,
        blocks,
      ))
  elsewhere-State n last a other o db db' (inr (inr more)) known apart done = inr (inr more)

  Guesses-State :
      (db : Tables) (n last : ℕ) (db' : Tables)
      → find (has_ip (key_of lib s ip)) db.limits ≡ none
      → Guesses lib s ip start db n last db'
      → State n last db'.limits
  Guesses-State db _ _ _ absent (first a db' known began done) =
      first-State a db db' absent known began done
  Guesses-State db _ _ _ absent (refused m before mid a db' g known within done) =
      refused-State m before a mid db' (Guesses-State db m before mid absent g) known within done
  Guesses-State db _ _ _ absent (admitted n last mid a v db' g few known within done) =
      admitted-State n last a v mid db' (Guesses-State db n last mid absent g) few known within done
  Guesses-State db _ _ _ absent (elsewhere n last mid a other o db' g known apart done) =
      elsewhere-State n last a other o mid db' (Guesses-State db n last mid absent g) known apart
        done

-- After as many refusals to one address as the limit allows, all within a window from the first,
-- every attempt from that address is refused and changes nothing until the lockout has passed
-- since the last of them, with whatever name, password and code. The address had no row before the
-- first; in between, while they were fewer than the limit, logins from it may have succeeded, and
-- addresses with another hash may have tried anything.
pub authenticate-Guesses :
    (lib : Library) (s : Settings) (ip : Text) (start last : ℕ) (db db' : Tables) (a : Attempt)
    → find (has_ip (key_of lib s ip)) db.limits ≡ none
    → Guesses lib s ip start db s.ip_max_failures last db'
    → canonical_ip lib a.client_ip ≡ ok ip
    → a.now < last + s.ip_lockout
    → authenticate lib s a db' ≡ ok (none, db')
unfolding State ip_hash
authenticate-Guesses lib s ip start last db db' a absent g known early =
    elim (Guesses-State lib s ip start db s.ip_max_failures last db' absent g) [
      | inl (below, _, _, _, _, _) ↦ absurd (omega arith)
      | inr (inl (exact, l, h, blocks)) ↦
          let key = key_of lib s ip in
          let loads = load-found key a.now db'.limits l h in
          let shut : is_before a.now (load_ip_limit key a.now db'.limits).0.blocked_until ≡ true =
            rw (loads, blocks) (ground arith) in
          let refusal = authenticate_blocked lib s a ip known db' shut in rw loads at refusal
      | inr (inr more) ↦ absurd (omega arith)
    ]
