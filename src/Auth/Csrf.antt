-- ===== src/Auth/Csrf.antt =====
-- app/auth/csrf.py: signed double-submit tokens and the middleware that asks for them. The nonce is
-- drawn by the caller; `hmac` and `base64` are arguments.
pub mod Signed
mod Examples
use leakcheck_hub.Prelude.{
  ℕ, Bool, true, false, not, ◌&&◌, ◌||◌, Option, none, some, List, [], ◌∷◌, ◌++◌, Text, Bytes,
  codes, text_eq, any, ◌==◌, if◌then◌else◌,
}
use leakcheck_hub.Unicode.{utf8, is_token}

pub record Library : Type 0 where
  pub hmac_sha256 : Bytes → Bytes → Bytes
  -- `base64.urlsafe_b64encode(value).rstrip(b"=")`
  pub base64url : Bytes → Text

-- The parts of a longer text.
longer : ℕ → Option (Text × Text) → Option (Text × Text)
longer c none = none
longer c (some (before, after)) = some (c ∷ before, after)

-- `cookie_value.split(".", maxsplit=1)`: what stands before the first dot and after it.
pub split_dot : Text → Option (Text × Text)
unfolding longer
split_dot [] = none
split_dot (c ∷ s) = let rest = split_dot s in if c == b'.' then some ([], s) else longer c rest

-- `_SIGNED_TOKEN_PATTERN`: its dot is the first one, as no token holds a dot.
both_tokens : Option (Text × Text) → Bool
both_tokens none = false
both_tokens (some (n, t)) = is_token n && is_token t

pub is_signed_token : Text → Bool
unfolding both_tokens split_dot
is_signed_token s = both_tokens (split_dot s)

-- `_session_context`
session_context : Option Text → Bytes
session_context none = utf8 (codes "anonymous")
session_context (some token) =
    if is_token token then utf8 (codes "session") ++ 0 ∷ utf8 token else utf8 (codes "anonymous")

module _ (lib : Library) (key : Bytes) where
  pub signature : Option Text → Text → Text
  unfolding session_context
  signature session_token nonce = lib.base64url (
      lib.hmac_sha256 key
        (utf8 (codes "leakcheck/csrf/v1") ++ 0 ∷ (session_context session_token ++ 0 ∷ utf8 nonce)))

  -- The token that `issue` returns and sets as the cookie.
  pub issue : Text → Option Text → Text
  issue nonce session_token = nonce ++ b'.' ∷ signature session_token nonce

  matches : Option Text → Option (Text × Text) → Bool
  matches session_token none = false
  matches session_token (some (nonce, signed)) = text_eq signed (signature session_token nonce)

  pub valid : (session_token cookie_value supplied_value : Option Text) → Bool
  unfolding matches
  valid session_token none supplied = false
  valid session_token (some cookie) none = false
  valid session_token (some cookie) (some supplied) =
      is_signed_token cookie
      && is_signed_token supplied
      && text_eq cookie supplied
      && matches session_token (split_dot cookie)

  -- `CSRFMiddleware.__call__`: whether a request reaches the application.
  pub admits :
      (is_http : Bool) (method : Text) (session_token cookie_value supplied_value : Option Text)
      → Bool
  unfolding any
  admits is_http method session_token cookie supplied =
      not is_http
      || any (text_eq method) (codes "GET" ∷ codes "HEAD" ∷ codes "OPTIONS" ∷ codes "TRACE" ∷ [])
      || valid session_token cookie supplied
