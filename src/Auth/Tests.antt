-- ===== src/Auth/Tests.antt =====
-- The login theorems at one wallet.
use sol_arch.Prelude.{◌≡◌, refl, true, none, [], ◌∷◌}
use sol_arch.Table.{find, put}
use sol_arch.Failure.{unauthorized, plain}
use sol_arch.Action.{ok, err}
use sol_arch.Samples.{platform}
use sol_arch.Auth.Login.{
  AuthState, AuthTools, VerifyRequest, Session, verify_challenge, refused, log_in,
  verify_wallet_signature, signature_bytes, includes,
}
use sol_arch.Auth.Challenge.{AuthRequest, IsSigned, run, verify_challenge-IsSigned, challenge_once}

abbrev tools : AuthTools
tools = record {
  platform = platform;
  utf8 = λ text. [];
  verify_detached = λ message signature key. true;
  sign_token = λ user wallet. "token";
  token_expiry = λ token. none;
}

abbrev start : AuthState
start = record {
  challenges = ("c1", record { wallet = "w1"; message = "sign"; expires_at = 600000 }) ∷ [];
  revoked_tokens = [];
  wallets = [];
}

abbrev request : VerifyRequest
request = record { challenge_id = "c1"; wallet = "w1"; signature = "s" }

abbrev session : Session
session = record { access_token = "token"; user_id = "u1"; wallet = "w1"; user_status = "active" }

logged_in :
    verify_challenge tools "u1" 5 request start
    ≡ (ok session, (verify_challenge tools "u1" 5 request start).1)
unfolding verify_challenge refused log_in verify_wallet_signature signature_bytes includes find put
logged_in = refl

verify_challenge-IsSigned_example :
    IsSigned tools 5 request start
    × (find "c1" (verify_challenge tools "u1" 5 request start).1.challenges ≡ none)
verify_challenge-IsSigned_example =
    verify_challenge-IsSigned tools "u1" 5 request start session _ logged_in

challenge_once_example :
    verify_challenge tools "u2" 7 request (
      run tools (AuthRequest.revoke 6 "token" ∷ []) (verify_challenge tools "u1" 5 request start).1)
    ≡ (
      err (unauthorized plain),
      run tools (AuthRequest.revoke 6 "token" ∷ []) (verify_challenge tools "u1" 5 request start).1,
    )
challenge_once_example =
    challenge_once tools "u1" 5 request start _ session (AuthRequest.revoke 6 "token" ∷ []) "u2" 7
      request logged_in refl refl
