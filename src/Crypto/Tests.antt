-- ===== src/Crypto/Tests.antt =====
-- The credentials theorem at one token.
use sol_arch.Prelude.{◌≡◌, ◌↔◌, true, [], ◌∷◌}
use sol_arch.Crypto.Token32.{Digest, hash_token, verify_token}
use sol_arch.Crypto.Token32.RoundTrip.{Matches, verify-hash}

abbrev digest : Digest
digest = record {
  base64url_decode = λ text. [];
  base64url_encode = λ bytes. "";
  utf8 = λ text. 1 ∷ [];
  hex_decode = λ text. 7 ∷ [];
  hmac_hex = λ pepper bytes. "07";
}

verify-hash_example :
    (verify_token digest "domain" "token" (hash_token digest "domain" "token" "pepper") "pepper"
      ≡ true)
    × ((verify_token digest "domain" "other" "07" "pepper" ≡ true)
        ↔ Matches digest "domain" "other" "07" "pepper")
unfolding hash_token
verify-hash_example =
    verify-hash digest "domain" "token" "other" "pepper" "07" (λ e. cc e) (λ e. cc e)
