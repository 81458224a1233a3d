-- ===== src/Auth/Csrf/Signed.antt =====
-- app/auth/csrf.py: which tokens are accepted.
use leakcheck_hub.Prelude.{
  ℕ, true, false, Option, none, some, [], ◌∷◌, ◌++◌, Text, Bytes, text_eq_refl, text_eq→eq, all,
  ◌==◌, if◌then◌else◌, ◌≡◌, refl, sym, ◌∙◌, ap, arith, inl, inr, Bool-cases,
}
use leakcheck_hub.Unicode.{is_token, is_urlsafe}
use leakcheck_hub.Auth.Csrf.{
  Library, longer, split_dot, both_tokens, is_signed_token, signature, issue, matches, valid,
}

split_dot-append : (n s : Text) → all is_urlsafe n ≡ true → split_dot (n ++ b'.' ∷ s) ≡ some (n, s)
unfolding split_dot all is_urlsafe longer
split_dot-append [] s h = refl
split_dot-append (c ∷ n) s h =
    let other : (c == b'.') ≡ false = ground arith in
    let rest : split_dot (n ++ b'.' ∷ s) ≡ some (n, s) = split_dot-append n s (ground arith) in
    rw (other, rest) refl

join-step :
    (c : ℕ) (t : Text) (o : Option (Text × Text)) (n s : Text)
    → ((n' s' : Text) → o ≡ some (n', s') → t ≡ n' ++ b'.' ∷ s')
    → (if c == b'.' then some ([], t) else longer c o) ≡ some (n, s)
    → c ∷ t ≡ n ++ b'.' ∷ s
unfolding longer
join-step c t o n s joins h = elim (Bool-cases (c == b'.')) [
  | inl e ↦
      let dot : c ≡ b'.' = ground arith in
      let cut : ◌≡◌ {A = Option (Text × Text)} (some ([], t)) (some (n, s)) = ground arith in
      let before : [] ≡ n = cc in
      let after : t ≡ s = cc in
      ap (λ d. d ∷ t) dot ∙ ap (λ l. b'.' ∷ l) after ∙ ap (λ l. l ++ b'.' ∷ s) before
  | inr e ↦ behind o joins (ground arith)
]
  where
    behind :
        (o : Option (Text × Text))
        → ((n' s' : Text) → o ≡ some (n', s') → t ≡ n' ++ b'.' ∷ s')
        → longer c o ≡ some (n, s)
        → c ∷ t ≡ n ++ b'.' ∷ s
    behind none joins h = absurd cc
    behind (some (n', s')) joins h =
        let whole : t ≡ n' ++ b'.' ∷ s' = joins n' s' refl in
        let before : c ∷ n' ≡ n = cc in
        let after : s' ≡ s = cc in
        ap (λ l. c ∷ l) whole
        ∙ ap (λ l. (c ∷ n') ++ b'.' ∷ l) after
        ∙ ap (λ l. l ++ b'.' ∷ s) before

split_dot-joins : (t n s : Text) → split_dot t ≡ some (n, s) → t ≡ n ++ b'.' ∷ s
unfolding split_dot
split_dot-joins [] n s h = absurd cc
split_dot-joins (c ∷ t) n s h = join-step c t (split_dot t) n s (split_dot-joins t) h

module _ (lib : Library) (key : Bytes)
    (urlsafe : (message : Bytes)
      → is_token (lib.base64url (lib.hmac_sha256 key message)) ≡ true) where
  -- A token issued with a nonce of forty-three URL-safe characters is accepted for the session it
  -- was issued to, given that every signature is forty-three URL-safe characters, which is what
  -- thirty-two octets are in that encoding.
  pub valid-issue :
      (nonce : Text) (session_token : Option Text)
      → is_token nonce ≡ true
      → let token = issue lib key nonce session_token in
        valid lib key session_token (some token) (some token) ≡ true
  unfolding issue signature valid is_signed_token matches both_tokens is_token
  valid-issue nonce session_token h =
      let token : Text = issue lib key nonce session_token in
      let split : split_dot token ≡ some (nonce, signature lib key session_token nonce) =
        split_dot-append nonce (signature lib key session_token nonce) (ground arith) in
      let signed : is_token (signature lib key session_token nonce) ≡ true = urlsafe _ in
      rw (split, text_eq_refl token)
        (ground (arith, text_eq_refl (signature lib key session_token nonce)))

-- A pair of values is accepted only when both are one text: a nonce, a dot and the signature of that
-- nonce for this session, the nonce being forty-three URL-safe characters.
pub valid-issued :
    (lib : Library) (key : Bytes) (session_token : Option Text) (cookie supplied : Text)
    → valid lib key session_token (some cookie) (some supplied) ≡ true
    → (supplied ≡ cookie)
      × ((nonce : Text) × (is_token nonce ≡ true) × (cookie ≡ issue lib key nonce session_token))
unfolding issue valid is_signed_token matches both_tokens
valid-issued lib key session_token cookie supplied h =
    let same : cookie ≡ supplied = text_eq→eq cookie supplied (ground arith) in
    let (nonce, e, t) = parts (split_dot cookie) refl (ground arith) (ground arith) in
    (sym same, (nonce, t, e))
  where
    parts :
        (o : Option (Text × Text))
        → split_dot cookie ≡ o
        → both_tokens o ≡ true
        → matches lib key session_token o ≡ true
        → (nonce : Text) × (cookie ≡ issue lib key nonce session_token) × (is_token nonce ≡ true)
    parts none e b m = absurd (ground arith)
    parts (some (n, t)) e b m = (
      n,
      split_dot-joins cookie n t e
          ∙ ap (λ l. n ++ b'.' ∷ l) (text_eq→eq t (signature lib key session_token n) m),
      ground arith,
    )
