-- ===== src/Ingest/Sample.antt =====
-- Stand-ins for the libraries, which the examples only apply.
use leakcheck_hub.Prelude.{true, some, [], ◌∷◌, none}
use leakcheck_hub.Ingest.Library.{Library}

abbrev pub library : Library
library = record {
  sha256 = λ b. b;
  nfkc = λ t. t;
  casefold = λ t. t;
  is_printable = λ c. true;
  is_lower = λ c. true;
  is_upper = λ c. true;
  is_digit = λ c. true;
  is_symbol = λ c. true;
  idna = λ t. some t;
  parse_date = λ t. none;
  iso_date = λ d. d ∷ [];
  encrypt = λ nonce plain aad. plain;
  uuid_bytes = λ k. k ∷ [];
  uuid_text = λ k. k ∷ [];
}
