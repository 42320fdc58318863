-- ===== src/Crypto/Token32/RoundTrip.antt =====
-- A stored credential verifies exactly the tokens that hash to it.
use sol_arch.Prelude.{
  ℕ, String, ◌≡◌, ◌≢◌, ◌↔◌, refl, sym, Bool, true, false, not, List, [], ◌∷◌, arith, eq_iff, ◌==◌,
  ◌&&◌, eqb, text_length,
}
use sol_arch.Crypto.Token32.{Digest, same_bytes, hash_token, verify_token}

same_bytes_refl : (p : List ℕ) → same_bytes p p ≡ true
unfolding same_bytes
same_bytes_refl [] = refl
same_bytes_refl (a ∷ p) = ground (arith, same_bytes_refl p)

same_bytes_eq : (p q : List ℕ) → same_bytes p q ≡ true → p ≡ q
unfolding same_bytes
same_bytes_eq [] [] e = refl
same_bytes_eq [] (b ∷ q) e = absurd (cc e)
same_bytes_eq (a ∷ p) [] e = absurd (cc e)
same_bytes_eq (a ∷ p) (b ∷ q) e = ground (arith, same_bytes_eq p q)

verifies :
    (a b c : Bool) (p q : List ℕ)
    → a ≡ false
    → b ≡ false
    → c ≡ true
    → p ≡ q
    → (not a && not b && c && same_bytes p q) ≡ true
verifies a b c p q e f g h = rw (sym h) (ground (arith, same_bytes_refl p))

-- What a successful verification has compared.
abbrev pub Matches : Digest → String → String → String → String → Type 0
Matches d name token stored pepper =
    (token ≢ "")
    × (stored ≢ "")
    × (text_length (hash_token d name token pepper) ≡ text_length stored)
    × (d.hex_decode (hash_token d name token pepper) ≡ d.hex_decode stored)

tests_hold :
    (token stored : String) (a b : ℕ) (p q : List ℕ)
    → (not (token == "") && not (stored == "") && eqb a b && same_bytes p q) ≡ true
    → (token ≢ "") × (stored ≢ "") × (a ≡ b) × (p ≡ q)
tests_hold token stored a b p q h = (
  λ e. ground (arith, h, eq_iff token "", e),
  λ e. ground (arith, h, eq_iff stored "", e),
  ground (arith, h),
  same_bytes_eq p q (ground (arith, h)),
)

tests_pass :
    (token stored : String) (a b : ℕ) (p q : List ℕ)
    → token ≢ ""
    → stored ≢ ""
    → a ≡ b
    → p ≡ q
    → (not (token == "") && not (stored == "") && eqb a b && same_bytes p q) ≡ true
tests_pass token stored a b p q some_token some_stored length_same bytes_same =
    verifies (token == "") (stored == "") (eqb a b) p q
      (ground (arith, eq_iff token "", some_token)) (ground (arith, eq_iff stored "", some_stored))
      (ground (arith, length_same)) bytes_same

-- A token that is not empty verifies against its own hash, where that hash is not empty; and any token
-- verifies against a stored text just when both are not empty and its hash has the length and the bytes
-- of that text. This holds of client secrets and of refresh tokens, by their domains.
pub verify-hash :
    (d : Digest) (name token other pepper stored : String)
    → token ≢ ""
    → hash_token d name token pepper ≢ ""
    → (verify_token d name token (hash_token d name token pepper) pepper ≡ true)
      × ((verify_token d name other stored pepper ≡ true) ↔ Matches d name other stored pepper)
unfolding verify_token
verify-hash d name token other pepper stored some_token some_hash =
    let own = hash_token d name token pepper in
    (
      tests_pass token own _ _ (d.hex_decode own) _ some_token some_hash refl refl,
      (tests_hold other stored _ _ _ _, λ m. tests_pass other stored _ _ _ _ m.0 m.1 m.2 m.3),
    )
