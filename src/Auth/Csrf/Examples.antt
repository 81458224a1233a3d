-- ===== src/Auth/Csrf/Examples.antt =====
-- The theorems on CSRF tokens at a nonce and a session.
use leakcheck_hub.Prelude.{true, none, some, [], Text, codes, ◌≡◌, refl}
use leakcheck_hub.Unicode.{is_token}
use leakcheck_hub.Auth.Csrf.{Library, issue, valid}
use leakcheck_hub.Auth.Csrf.Signed.{valid-issue, valid-issued}

abbrev nonce : Text
nonce = codes "abcdefghijklmnopqrstuvwxyz_ABCDEFGHIJKLMNOP"

-- Stand-ins for the libraries: every digest is encoded as one token.
abbrev library : Library
library = record { hmac_sha256 = λ k m. m; base64url = λ b. nonce }

nonce-is_token : is_token nonce ≡ true
unfolding is_token
nonce-is_token = refl

accepted :
    valid library []
      (some (codes "t"))
      (some (issue library [] nonce (some (codes "t"))))
      (some (issue library [] nonce (some (codes "t"))))
    ≡ true
accepted = valid-issue library [] (λ m. nonce-is_token) nonce (some (codes "t")) nonce-is_token

valid-issue_example :
    valid library [] none (some (issue library [] nonce none)) (some (issue library [] nonce none))
    ≡ true
valid-issue_example = valid-issue library [] (λ m. nonce-is_token) nonce none nonce-is_token

valid-issued_example :
    (issue library [] nonce (some (codes "t")) ≡ issue library [] nonce (some (codes "t")))
    × ((n : Text) × (is_token n ≡ true)
        × (issue library [] nonce (some (codes "t")) ≡ issue library [] n (some (codes "t"))))
valid-issued_example =
    valid-issued library [] (some (codes "t")) (issue library [] nonce (some (codes "t")))
      (issue library [] nonce (some (codes "t"))) accepted
