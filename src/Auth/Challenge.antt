-- ===== src/Auth/Challenge.antt =====
-- A login rests on a signed challenge, and uses it up.
use sol_arch.Prelude.{
  ℕ, String, ◌≡◌, refl, sym, ap, Bool, true, false, not, ◌&&◌, Option, none, some, List, [], ◌∷◌,
  arith, eq_iff, ltb, eqb, is_some, ◌==◌, inl, inr, Bool-cases, if◌then◌else◌,
}
use mathlib.Core.Bool.{and-eq-true_iff}
use sol_arch.Table.{Table, find, put}
use sol_arch.Table.Laws.{find-put}
use sol_arch.Failure.{Failure, bad_request, unauthorized, plain}
use sol_arch.Db.Contents.{without_path}
use sol_arch.Action.{Result, ok, err}
use sol_arch.Auth.Login.{
  Challenge, AuthState, AuthTools, ChallengeDraw, VerifyRequest, Session, verify_wallet_signature,
  create_challenge, log_in, check_signature, refused, decide, verify_found, verify_challenge,
  revoke_token, is_token_revoked, challenge_message, revoked_at,
}

-- The request answers a stored challenge in time, for its wallet, with a signature of its message by
-- the wallet's key.
pub record IsSigned (t : AuthTools) (now : ℕ) (dto : VerifyRequest) (s : AuthState) : Type 0 where
  pub challenge : Challenge
  pub key : String
  pub stored : find dto.challenge_id s.challenges ≡ some challenge
  pub in_time : ltb challenge.expires_at now ≡ false
  pub wallet : challenge.wallet ≡ dto.wallet
  pub parses : t.platform.public_key dto.wallet ≡ some key
  pub signed : verify_wallet_signature t challenge.message dto.signature key ≡ true

module _ {ℓ} {V : Type ℓ} where
  find-without_path : (k : String) (t : Table V) → find k (without_path k t) ≡ none
  unfolding find without_path
  find-without_path k [] = refl
  find-without_path k ((j, v) ∷ t) = ground (arith, find-without_path k t, eq_iff j k)

  find-without_other :
      (k j : String) (t : Table V) → find j t ≡ none → find j (without_path k t) ≡ none
  unfolding find without_path
  find-without_other k j [] h = refl
  find-without_other k j ((i, v) ∷ t) h = ground (arith, find-without_other k j t)

none_if : (b : Bool) (e : Failure) → (if b then none else some e) ≡ none → b ≡ true
none_if true e h = refl
none_if false e h = absurd (cc h)

passed_gate :
    (b : Bool) (e : Failure) (o : Option Failure)
    → (if not b then some e else o) ≡ none
    → (b ≡ true) × (o ≡ none)
passed_gate true e o h = (refl, h)
passed_gate false e o h = absurd (cc h)

module _ (t : AuthTools) (new_user : String) (now : ℕ) (dto : VerifyRequest) (s : AuthState) where
  accepted_signature :
      (c : Challenge) (key : Option String)
      → check_signature t dto c key ≡ none
      → (k : String) × (key ≡ some k) × (verify_wallet_signature t c.message dto.signature k ≡ true)
  accepted_signature c none h = absurd (cc h)
  accepted_signature c (some k) h = (k, refl, none_if _ (unauthorized plain) h)

  accepted :
      (c : Challenge)
      → refused t dto c ≡ none
      → (c.wallet ≡ dto.wallet)
        × ((k : String) × (t.platform.public_key dto.wallet ≡ some k)
            × (verify_wallet_signature t c.message dto.signature k ≡ true))
  unfolding refused
  accepted c h =
      let passed =
        passed_gate (c.wallet == dto.wallet) (unauthorized plain)
          (check_signature t dto c (t.platform.public_key dto.wallet)) h in
      ((eq_iff c.wallet dto.wallet).0 passed.0, accepted_signature c _ passed.1)

  decided :
      (c : Challenge) (o : Option Failure) (r : Session) (after : AuthState)
      → decide t new_user now dto s o ≡ (ok r, after)
      → (o ≡ none) × (after.challenges ≡ without_path dto.challenge_id s.challenges)
  unfolding log_in
  decided c none r after h = (refl, sym (ap (λ x. x.1.challenges) h))
  decided c (some e) r after h = absurd (cc h)

  found_challenge :
      (o : Option Challenge) (r : Session) (after : AuthState)
      → find dto.challenge_id s.challenges ≡ o
      → verify_found t new_user now dto s o ≡ (ok r, after)
      → IsSigned t now dto s × (after.challenges ≡ without_path dto.challenge_id s.challenges)
  found_challenge none r after e h = absurd (cc h)
  found_challenge (some c) r after e h = elim (Bool-cases (ltb c.expires_at now)) [
    | inl late ↦ absurd (cc (rw (late) at h))
    | inr in_time ↦
        let end = decided c (refused t dto c) r after (rw (in_time) at h) in
        let facts = accepted c end.0 in
        (
          record {
            challenge = c;
            key = facts.1.0;
            stored = e;
            in_time = in_time;
            wallet = facts.0;
            parses = facts.1.1;
            signed = facts.1.2;
          },
          end.1,
        )
  ]

  -- A login that succeeds answers a stored challenge that has not expired, for the wallet of the
  -- challenge, with a signature of the challenge's message by that wallet's key; and the challenge is
  -- gone afterwards.
  pub verify_challenge-IsSigned :
      (r : Session) (after : AuthState)
      → verify_challenge t new_user now dto s ≡ (ok r, after)
      → IsSigned t now dto s × (find dto.challenge_id after.challenges ≡ none)
  unfolding verify_challenge
  verify_challenge-IsSigned r after run =
      let facts = found_challenge (find dto.challenge_id s.challenges) r after refl run in
      (facts.0, rw (facts.1) (find-without_path dto.challenge_id s.challenges))

  -- Without its challenge a request fails and changes nothing.
  verify_missing :
      find dto.challenge_id s.challenges ≡ none
      → verify_challenge t new_user now dto s ≡ (err (unauthorized plain), s)
  unfolding verify_challenge
  verify_missing h = rw (h) refl

  decided_missing :
      (id : String) (o : Option Failure)
      → find id s.challenges ≡ none
      → find id (decide t new_user now dto s o).1.challenges ≡ none
  unfolding log_in
  decided_missing id none h = find-without_other dto.challenge_id id s.challenges h
  decided_missing id (some e) h = h

  found_missing :
      (id : String) (o : Option Challenge)
      → find id s.challenges ≡ none
      → find id (verify_found t new_user now dto s o).1.challenges ≡ none
  found_missing id none h = h
  found_missing id (some c) h = elim (Bool-cases (ltb c.expires_at now)) [
    | inl late ↦ rw (late) (find-without_other dto.challenge_id id s.challenges h)
    | inr in_time ↦ rw (in_time) (decided_missing id (refused t dto c) h)
  ]

-- The requests to the service.
pub data AuthRequest : Type 0 where
  challenge : ChallengeDraw → ℕ → String → AuthRequest
  verify : String → ℕ → VerifyRequest → AuthRequest
  revoke : ℕ → String → AuthRequest
  check : ℕ → String → AuthRequest

unfoldable pub step : AuthTools → AuthRequest → AuthState → AuthState
step t (challenge draw now wallet) s = (create_challenge t draw now wallet s).1
step t (verify new_user now dto) s = (verify_challenge t new_user now dto s).1
step t (revoke now token) s = revoke_token t now token s
step t (check now token) s = (is_token_revoked now token s).1

unfoldable pub run : AuthTools → List AuthRequest → AuthState → AuthState
unfolding step
run t [] s = s
run t (r ∷ rs) s = run t rs (step t r s)

-- No request draws the id again.
abbrev pub draws_other : String → AuthRequest → Bool
draws_other id (challenge draw now wallet) = not (draw.challenge_id == id)
draws_other id _ = true

abbrev pub never_drawn : String → List AuthRequest → Bool
never_drawn id [] = true
never_drawn id (r ∷ rs) = draws_other id r && never_drawn id rs

put_missing :
    (id key : String) (c : Challenge) (cs : Table Challenge)
    → (key == id) ≡ false
    → find id cs ≡ none
    → find id (put key c cs) ≡ none
put_missing id key c cs other h = rw (find-put key id c cs, other) h

created_missing :
    (valid : Bool) (id key : String) (c : Challenge) (message : String) (s : AuthState)
    → (key == id) ≡ false
    → find id s.challenges ≡ none
    → find id
        (if◌then◌else◌ {A = Result String × AuthState} valid
          (ok message, record s { challenges = put key c s.challenges })
          (err (bad_request plain), s)).1.challenges
      ≡ none
created_missing true id key c message s other h = put_missing id key c s.challenges other h
created_missing false id key c message s other h = h

not_drawn : (b : Bool) → not b ≡ true → b ≡ false
not_drawn b h = ground arith

revoked_same :
    (now : ℕ) (token : String) (s : AuthState) (o : Option ℕ)
    → (revoked_at now token s o).1.challenges ≡ s.challenges
revoked_same now token s none = refl
revoked_same now token s (some expiry) = elim (Bool-cases (eqb expiry 0)) [
  | inl zero_expiry ↦ rw (zero_expiry) refl
  | inr set ↦ elim (Bool-cases (ltb expiry now)) [
    | inl past ↦ rw (set, past) refl
    | inr future ↦ rw (set, future) refl
  ]
]

step_missing :
    (t : AuthTools) (id : String) (r : AuthRequest) (s : AuthState)
    → draws_other id r ≡ true
    → find id s.challenges ≡ none
    → find id (step t r s).challenges ≡ none
unfolding step verify_challenge create_challenge revoke_token is_token_revoked
step_missing t id (challenge draw now wallet) s other h =
    created_missing (is_some (t.platform.public_key wallet)) id draw.challenge_id _
      (challenge_message wallet draw) s (not_drawn _ other) h
step_missing t id (verify new_user now dto) s other h =
    found_missing t new_user now dto s id (find dto.challenge_id s.challenges) h
step_missing t id (revoke now token) s other h = h
step_missing t id (check now token) s other h =
    rw (revoked_same now token s (find token s.revoked_tokens)) h

run_missing :
    (t : AuthTools) (id : String) (rs : List AuthRequest) (s : AuthState)
    → never_drawn id rs ≡ true
    → find id s.challenges ≡ none
    → find id (run t rs s).challenges ≡ none
unfolding run
run_missing t id [] s other h = h
run_missing t id (r ∷ rs) s other h =
    let parts = (and-eq-true_iff (draws_other id r) (never_drawn id rs)).0 other in
    run_missing t id rs (step t r s) parts.1 (step_missing t id r s parts.0 h)

-- A challenge serves one login: after a login that succeeds, and whatever requests follow that do not
-- draw the same id, every later request with that challenge is refused and changes nothing.
pub challenge_once :
    (t : AuthTools) (new_user : String) (now : ℕ) (dto : VerifyRequest) (s after : AuthState)
    (r : Session) (rs : List AuthRequest) (later_user : String) (later : ℕ) (again : VerifyRequest)
    → verify_challenge t new_user now dto s ≡ (ok r, after)
    → never_drawn dto.challenge_id rs ≡ true
    → again.challenge_id ≡ dto.challenge_id
    → verify_challenge t later_user later again (run t rs after)
      ≡ (err (unauthorized plain), run t rs after)
challenge_once t new_user now dto s after r rs later_user later again run_ok other same =
    verify_missing t later_user later again (run t rs after) (
      rw (same) (
        run_missing t dto.challenge_id rs after other
          (verify_challenge-IsSigned t new_user now dto s r after run_ok).1))
