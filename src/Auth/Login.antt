-- ===== src/Auth/Login.antt =====
-- `createChallenge`, `verifyChallenge`, `revokeToken` and `isTokenRevoked`, with `verifyWalletSignature`
-- of apps/api/src/crypto/ed25519.util.ts. The challenges and the revoked tokens live in memory.
use Prim.Native.Char.{code}
use Prim.Native.String.{[] as empty, ◌∷◌ as prepend}
use sol_arch.Prelude.{
  ℕ, ◌+◌, ◌*◌, String, Bool, true, false, not, ◌&&◌, ◌||◌, Option, none, some, List, ◌==◌, eqb, ltb,
  length, is_some, append_text, ends_with_pad, if◌then◌else◌,
}
use sol_arch.Table.{Table, find, put}
use sol_arch.Failure.{Failure, bad_request, unauthorized, plain}
use sol_arch.Db.Contents.{without_path}
use sol_arch.Action.{Result, ok, err}
use sol_arch.Platform.{Platform}

pub record Challenge : Type 0 where
  pub wallet : String
  pub message : String
  pub expires_at : ℕ

-- A row of `wallets`, by its address, with its user.
pub record WalletRow : Type 0 where
  pub user_id : String
  pub user_status : String
  pub verified_at : ℕ

pub record AuthState : Type 0 where
  pub challenges : Table Challenge
  pub revoked_tokens : Table ℕ
  pub wallets : Table WalletRow

-- What the service calls besides.
pub record AuthTools : Type 0 where
  pub platform : Platform
  pub utf8 : String → List ℕ
  -- `nacl.sign.detached.verify(message, signature, key)`, the key by its text; `false` is a throw too
  pub verify_detached : List ℕ → List ℕ → String → Bool
  -- `jwtService.signAsync({ sub, wallet })`
  pub sign_token : String → String → String
  -- `jwtService.decode(token)?.exp`, in milliseconds
  pub token_expiry : String → Option ℕ

-- `text.includes(char)`
unfoldable pub includes : ℕ → String → Bool
includes c empty = false
includes c (prepend d s) = let rest = includes c s in eqb (code d) c || rest

-- The signature by its encoding; `none` is a throw
unfoldable pub signature_bytes : Platform → String → Option (List ℕ)
unfolding includes
signature_bytes p text =
    if includes b'/' text || includes b'+' text || ends_with_pad text
    then some (p.base64_decode text)
    else p.bs58_decode text

abbrev pub verify_bytes : AuthTools → String → String → Option (List ℕ) → Bool
verify_bytes t message key none = false
verify_bytes t message key (some bytes) =
    eqb (length bytes) 64 && t.verify_detached (t.utf8 message) bytes key

-- `verifyWalletSignature`
unfoldable pub verify_wallet_signature : AuthTools → String → String → String → Bool
unfolding signature_bytes
verify_wallet_signature t message signature key =
    verify_bytes t message key (signature_bytes t.platform signature)

abbrev pub challenge_lifetime : ℕ
challenge_lifetime = 10 * 60 * 1000

-- The random values and the time of `createChallenge`, as the message prints them.
pub record ChallengeDraw : Type 0 where
  pub challenge_id : String
  pub nonce : String
  pub timestamp : String

abbrev pub challenge_message : String → ChallengeDraw → String
challenge_message wallet draw =
    append_text "Sign this message to authenticate with SolArch:\nWallet: " (
      append_text wallet (
        append_text "\nNonce: "
          (append_text draw.nonce (append_text "\nTimestamp: " draw.timestamp))))

-- `createChallenge`; the answer is the message
unfoldable pub create_challenge :
    AuthTools → ChallengeDraw → ℕ → String → AuthState → Result String × AuthState
create_challenge t draw now wallet s =
    if is_some (t.platform.public_key wallet)
    then (
      ok (challenge_message wallet draw),
      record s {
        challenges =
            put draw.challenge_id
              (record {
                wallet = wallet;
                message = challenge_message wallet draw;
                expires_at = now + challenge_lifetime;
              })
              s.challenges;
      },
    )
    else (err (bad_request plain), s)

pub record VerifyRequest : Type 0 where
  pub challenge_id : String
  pub wallet : String
  pub signature : String

pub record Session : Type 0 where
  pub access_token : String
  pub user_id : String
  pub wallet : String
  pub user_status : String

abbrev pub forget : String → AuthState → AuthState
forget id s = record s { challenges = without_path id s.challenges }

abbrev pub verified : ℕ → WalletRow → WalletRow
verified now w = record w { verified_at = now }

-- The wallet found, or a new one with a new user.
abbrev pub wallet_or_new : String → ℕ → Option WalletRow → WalletRow
wallet_or_new new_user now none = record {
  user_id = new_user;
  user_status = "active";
  verified_at = now;
}
wallet_or_new new_user now (some w) = verified now w

-- The upsert of user and wallet, and the token.
unfoldable pub log_in : AuthTools → String → ℕ → String → AuthState → Result Session × AuthState
log_in t new_user now wallet s =
    let row = wallet_or_new new_user now (find wallet s.wallets) in
    (
      ok (record {
        access_token = t.sign_token row.user_id wallet;
        user_id = row.user_id;
        wallet = wallet;
        user_status = row.user_status;
      }),
      record s { wallets = put wallet row s.wallets },
    )

-- The checks of `verifyChallenge` on a challenge that is stored and not expired.
abbrev pub check_signature : AuthTools → VerifyRequest → Challenge → Option String → Option Failure
check_signature t dto c none = some (bad_request plain)
check_signature t dto c (some key) =
    if verify_wallet_signature t c.message dto.signature key
    then none
    else some (unauthorized plain)

unfoldable pub refused : AuthTools → VerifyRequest → Challenge → Option Failure
unfolding verify_wallet_signature
refused t dto c =
    if not (c.wallet == dto.wallet)
    then some (unauthorized plain)
    else check_signature t dto c (t.platform.public_key dto.wallet)

abbrev pub decide :
    AuthTools → String → ℕ → VerifyRequest → AuthState → Option Failure → Result Session × AuthState
decide t new_user now dto s none = log_in t new_user now dto.wallet (forget dto.challenge_id s)
decide t new_user now dto s (some e) = (err e, s)

abbrev pub verify_found :
    AuthTools
    → String
    → ℕ
    → VerifyRequest
    → AuthState
    → Option Challenge
    → Result Session × AuthState
verify_found t new_user now dto s none = (err (unauthorized plain), s)
verify_found t new_user now dto s (some c) =
    if ltb c.expires_at now
    then (err (unauthorized plain), forget dto.challenge_id s)
    else decide t new_user now dto s (refused t dto c)

-- `verifyChallenge`, by the id that a new user would get
unfoldable pub verify_challenge :
    AuthTools → String → ℕ → VerifyRequest → AuthState → Result Session × AuthState
unfolding refused log_in
verify_challenge t new_user now dto s =
    verify_found t new_user now dto s (find dto.challenge_id s.challenges)

abbrev pub token_lifetime : ℕ
token_lifetime = 7 * 24 * 60 * 60 * 1000

abbrev pub expiry_or : ℕ → Option ℕ → ℕ
expiry_or t none = t
expiry_or t (some e) = if eqb e 0 then t else e

-- `revokeToken`
unfoldable pub revoke_token : AuthTools → ℕ → String → AuthState → AuthState
revoke_token t now token s = record s {
  revoked_tokens =
      put token (expiry_or (now + token_lifetime) (t.token_expiry token)) s.revoked_tokens;
}

abbrev pub revoked_at : ℕ → String → AuthState → Option ℕ → Bool × AuthState
revoked_at now token s none = (false, s)
revoked_at now token s (some expiry) =
    if eqb expiry 0
    then (false, s)
    else if ltb expiry now
    then (false, record s { revoked_tokens = without_path token s.revoked_tokens })
    else (true, s)

-- `isTokenRevoked`
unfoldable pub is_token_revoked : ℕ → String → AuthState → Bool × AuthState
is_token_revoked now token s = revoked_at now token s (find token s.revoked_tokens)
