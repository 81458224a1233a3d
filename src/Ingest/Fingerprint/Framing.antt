-- ===== src/Ingest/Fingerprint/Framing.antt =====
-- app/ingest.py: `digest.update(len(part).to_bytes(4, "big")); digest.update(part)`.
use leakcheck_hub.Prelude.{
  ℕ, ◌/◌, ◌%◌, ◌<◌, List, [], ◌∷◌, ◌++◌, Bytes, length, ◌≡◌, refl, arith, All, sym, ◌∙◌,
}

-- `n.to_bytes(4, "big")`, which raises from 2 ^ 32 on: no part is that long.
unfoldable pub to_bytes : ℕ → Bytes
to_bytes n = n / 16777216 % 256 ∷ n / 65536 % 256 ∷ n / 256 % 256 ∷ n % 256 ∷ []

-- What the digest reads: each part behind its length.
unfoldable pub framed : List Bytes → Bytes
framed [] = []
framed (p ∷ ps) = to_bytes (length p) ++ (p ++ framed ps)

to_bytes-injective : (m n : ℕ) → m < 4294967296 → n < 4294967296 → to_bytes m ≡ to_bytes n → m ≡ n
unfolding to_bytes
to_bytes-injective m n hm hn h =
    let a : m / 16777216 % 256 ≡ n / 16777216 % 256 = cc in
    let b : m / 65536 % 256 ≡ n / 65536 % 256 = cc in
    let c : m / 256 % 256 ≡ n / 256 % 256 = cc in let d : m % 256 ≡ n % 256 = cc in omega arith

length-to_bytes : (n : ℕ) → length (to_bytes n) ≡ 4
unfolding to_bytes
length-to_bytes n = refl

-- Texts of one length with equal continuations cancel.
append-cancel : (a b x y : Bytes) → length a ≡ length b → a ++ x ≡ b ++ y → (a ≡ b) × (x ≡ y)
append-cancel [] [] x y l h = (refl, h)
append-cancel [] (d ∷ b) x y l h = absurd (omega arith)
append-cancel (c ∷ a) [] x y l h = absurd (omega arith)
append-cancel (c ∷ a) (d ∷ b) x y l h = ground (arith, append-cancel a b x y)

-- The framing loses nothing: as many parts with the same framed text are the same parts, whatever
-- octets they hold, if no part is as long as 2 ^ 32.
pub framed-injective :
    (ps qs : List Bytes)
    → All (λ p. length p < 4294967296) ps
    → All (λ q. length q < 4294967296) qs
    → length ps ≡ length qs
    → framed ps ≡ framed qs
    → ps ≡ qs
unfolding framed
framed-injective [] [] sp sq l h = refl
framed-injective [] (q ∷ qs) sp sq l h = absurd (omega arith)
framed-injective (p ∷ ps) [] sp sq l h = absurd (omega arith)
framed-injective (p ∷ ps) (q ∷ qs) sp sq l h =
    let (heads, rest) =
      append-cancel (to_bytes (length p)) (to_bytes (length q)) (p ++ framed ps) (q ++ framed qs)
        (length-to_bytes (length p) ∙ sym (length-to_bytes (length q))) h in
    let (first, others) =
      append-cancel p q (framed ps) (framed qs)
        (to_bytes-injective (length p) (length q) sp.0 sq.0 heads) rest in
    let more = framed-injective ps qs sp.1 sq.1 (omega arith) others in cc
