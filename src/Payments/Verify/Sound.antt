-- ===== src/Payments/Verify/Sound.antt =====
-- `verifyPayment` answers `confirmed` for a purchase that is recorded, or that the chain proves.
use sol_arch.Prelude.{
  ℕ, String, ◌≡◌, refl, true, Option, none, some, arith, inl, inr, Option-cases, eq_iff, leb,
  truthy, ◌==◌, [], ◌∷◌,
}
use mathlib.Core.Path.{subst}
use sol_arch.Table.{Table, first, select}
use sol_arch.Table.Laws.{first_holds, Holds, first-Holds}
use sol_arch.Db.{PaymentIntent, Payment, Entitlement, Issuance, Db, is_confirmed}
use sol_arch.Action.{ok}
use sol_arch.Action.Returns.{
  bind_ok, gets_bind_ok, lift_bind_ok, check_bind_ok, or_throw_ok, unless_throw_ok, pure_ok, if_ok,
  lift_ok,
}
use sol_arch.Platform.{Platform, Env, Credentials}
use sol_arch.Platform.Chain.{Chain}
use sol_arch.Payments.Checks.{is_bound, assert_confirmed_payment_bindings}
use sol_arch.Payments.Issue.{latest, active_issuance, is_active_for}
use sol_arch.Payments.Commit.{Purchase, payment_of, entitlement_of}
use sol_arch.Payments.Verify.{
  VerifyRequest, pending, confirmed, Confirmed, Candidate, candidate, active_candidate, recorded,
  recorded_elsewhere, already_confirmed, verify_candidate, verify_intent, verify_payment,
  authenticate, confirmed_response, bearer, intent_of_secret, open_intent,
}
use sol_arch.Payments.Verify.ChainStatus.{expire_when-pending}
use sol_arch.Payments.Verify.Proven.{IsProven, verify_on_chain-IsProven}

latest_holds :
    (intent_id : String) (t : Table Issuance) (k : String) (s : Issuance)
    → latest (select (is_active_for intent_id) t) ≡ some (k, s)
    → is_active_for intent_id s ≡ true
unfolding latest select
latest_holds intent_id [] k s e = absurd (cc e)
latest_holds intent_id ((j, r) ∷ t) k s e = ground (arith, latest_holds intent_id t k s)

-- The candidate is an issuance of the intent, and choosing it writes nothing.
candidate_of_intent :
    (p : Platform) (intent_id : String) (named : Option String) (found : Option Candidate)
    (db db' : Db)
    → candidate p intent_id named db ≡ (ok found, db')
    → ((c : Candidate) → found ≡ some c → c.issuance.payment_intent_id ≡ intent_id) × (db' ≡ db)
unfolding candidate active_issuance
candidate_of_intent p intent_id (some signature) found db db' h =
    let (named, stored, rest) = lift_bind_ok _ _ db (gets_bind_ok _ _ db h) in
    let (same, final) = pure_ok _ db rest in
    let holds = first_holds _ db.issuances named.0 named.1 (or_throw_ok _ _ stored) in
    (λ c e. ground (arith, same, e, holds, eq_iff named.1.payment_intent_id intent_id), final)
candidate_of_intent p intent_id none found db db' h =
    of_active (latest (select (is_active_for intent_id) db.issuances)) refl (gets_bind_ok _ _ db h)
  where
    of_active :
        (active : Option (String × Issuance))
        → latest (select (is_active_for intent_id) db.issuances) ≡ active
        → active_candidate p active db ≡ (ok found, db')
        → ((c : Candidate) → found ≡ some c → c.issuance.payment_intent_id ≡ intent_id) × (db' ≡ db)
    of_active none e k = let (same, final) = pure_ok _ db k in (λ c f. absurd (cc (same, f)), final)
    of_active (some (id, s)) e k =
        let (signature, found', rest) = lift_bind_ok _ _ db k in
        let (same, final) = pure_ok _ db rest in
        (
          λ c f. ground (
            arith,
            same,
            f,
            latest_holds intent_id db.issuances id s e,
            eq_iff s.payment_intent_id intent_id,
          ),
          final,
        )

-- The payments hold a payment under the id of the answer, for the intent and bound to it, and the
-- entitlement of the answer is that payment's.
pub record IsRecorded (intent_id : String) (i : PaymentIntent) (r : Purchase) (db : Db)
    : Type 0 where
  pub payment : Payment
  pub entitlement : Entitlement
  pub stored : Holds r.payment_id payment db.payments
  pub of_intent : payment.payment_intent_id ≡ intent_id
  pub entitles : entitlement_of r.payment_id db ≡ some (r.entitlement_id, entitlement)
  pub bound : is_bound i payment ≡ true

named_in :
    (i : PaymentIntent) (id eid : String) (k : Confirmed)
    → confirmed k ≡ confirmed_response i (record { payment_id = id; entitlement_id = eid })
    → id ≡ k.purchase.payment_id
named_in i id eid k e = cc e

recorded_returns :
    (i : PaymentIntent) (intent_id id : String) (q : Payment) (k : Confirmed) (db db' : Db)
    → Holds id q db.payments
    → q.payment_intent_id ≡ intent_id
    → recorded i id q db ≡ (ok (confirmed k), db')
    → IsRecorded intent_id i k.purchase db × (db' ≡ db)
unfolding recorded assert_confirmed_payment_bindings
recorded_returns i intent_id id q k db db' row same h =
    let ((eid, e), found, rest) = lift_bind_ok _ _ db (gets_bind_ok _ _ db h) in
    let (u, bound, last) = lift_bind_ok _ _ db rest in
    let (answer, final) = pure_ok _ db last in
    (
      record {
        payment = q;
        entitlement = e;
        stored = subst (λ n. Holds n q db.payments) (named_in i id eid k answer) row;
        of_intent = same;
        entitles = ground (arith, or_throw_ok _ _ found, answer);
        bound = unless_throw_ok _ _ bound;
      },
      final,
    )

module _ (p : Platform) (env : Env) (creds : Credentials) (chain : Chain) (draw : Purchase)
    (now : ℕ) (intent_id : String) where
  -- For the intent `i`: its purchase was recorded before, or is proven now.
  pub data IsSettledBy (i : PaymentIntent) (k : Confirmed) (db db' : Db) : Type 0 where
    was_recorded : IsRecorded intent_id i k.purchase db → db' ≡ db → IsSettledBy i k db db'
    is_proven :
        (c : Candidate)
        → c.issuance.payment_intent_id ≡ intent_id
        → IsProven chain now intent_id i c p env draw k.purchase db db'
        → IsSettledBy i k db db'

  verify_candidate_settled :
      (i : PaymentIntent) (found : Option Candidate) (k : Confirmed) (db db' : Db)
      → ((c : Candidate) → found ≡ some c → c.issuance.payment_intent_id ≡ intent_id)
      → verify_candidate p env creds chain draw now intent_id i found db ≡ (ok (confirmed k), db')
      → IsSettledBy i k db db'
  unfolding verify_candidate
  verify_candidate_settled i none k db db' own h =
      absurd
        (cc (expire_when-pending (leb i.expires_at now) intent_id (confirmed k) pending db db' h))
  verify_candidate_settled i (some c) k db db' own h =
      of_existing (first (λ q. q.transaction_signature == c.signature) db.payments) refl
        (gets_bind_ok _ _ db h)
    where
      of_existing :
          (existing : Option (String × Payment))
          → first (λ q. q.transaction_signature == c.signature) db.payments ≡ existing
          → recorded_elsewhere p env creds chain draw now intent_id i c existing db
            ≡ (ok (confirmed k), db')
          → IsSettledBy i k db db'
      of_existing none e r =
          is_proven c (own c refl)
            (verify_on_chain-IsProven chain now intent_id i c p env draw k db db' r)
      of_existing (some (id, q)) e r =
          let (u, same, rest) = lift_bind_ok _ _ db r in
          let (rec, final) =
            recorded_returns i intent_id id q k db db' (first-Holds _ db.payments id q e)
              ((eq_iff q.payment_intent_id intent_id).0 (unless_throw_ok _ _ same)) rest in
          was_recorded rec final

  verify_intent_settled :
      (dto : VerifyRequest) (i : PaymentIntent) (k : Confirmed) (db db' : Db)
      → verify_intent p env creds chain draw now intent_id dto i db ≡ (ok (confirmed k), db')
      → (i.device_public_key ≡ dto.device_public_key) × IsSettledBy i k db db'
  unfolding verify_intent open_intent already_confirmed
  verify_intent_settled dto i k db db' h =
      let (u, opened, rest) = lift_bind_ok _ _ db h in
      let (v, snapshot, last) = lift_bind_ok _ _ db (gets_bind_ok _ _ db rest) in
      let (w, device, status) = check_bind_ok _ _ opened in
      (
        (eq_iff i.device_public_key dto.device_public_key).0 (unless_throw_ok _ _ device),
        elim (if_ok (is_confirmed i.status) _ _ db last) [
          | inl (final, done) ↦
              let ((id, q), found, more) = lift_bind_ok _ _ db (gets_bind_ok _ _ db done) in
              let own =
                (eq_iff q.payment_intent_id intent_id).0
                  (paid_for id q db (or_throw_ok _ _ found)) in
              let (rec, same) =
                recorded_returns i intent_id id q k db db' (row_of id q db (or_throw_ok _ _ found))
                  own more in
              was_recorded rec same
          | inr (unsettled, goes_on) ↦
              let (found, db1, chosen, more) = bind_ok _ _ db goes_on in
              let (own, same) =
                candidate_of_intent p intent_id (truthy dto.transaction_signature) found db db1
                  chosen in
              verify_candidate_settled i found k db db' own (rw same at more)
        ],
      )
    where
      paid_for :
          (id : String) (q : Payment) (d : Db)
          → payment_of intent_id d ≡ some (id, q)
          → (q.payment_intent_id == intent_id) ≡ true
      paid_for id q d e = first_holds _ d.payments id q (unfold payment_of in e)

      row_of :
          (id : String) (q : Payment) (d : Db)
          → payment_of intent_id d ≡ some (id, q)
          → Holds id q d.payments
      row_of id q d e = first-Holds _ d.payments id q (unfold payment_of in e)

  -- The request holds the client secret of the intent and comes from its device.
  pub record IsHolder (header device : String) (i : PaymentIntent) (db : Db) : Type 0 where
    pub secret : String
    pub carried : bearer creds "SolArchIntent " header ≡ some secret
    pub owned : creds.verify_intent secret i.client_secret_hmac env.intent_hmac_secret ≡ true
    pub stored :
        first
          (λ j. j.client_secret_hmac == creds.hash_intent secret env.intent_hmac_secret)
          db.intents
        ≡ some (intent_id, i)
    pub bound_device : i.device_public_key ≡ device

  secret_owner :
      (secret : String) (i : PaymentIntent) (db : Db)
      → intent_of_secret creds env intent_id secret db ≡ some i
      → (creds.verify_intent secret i.client_secret_hmac env.intent_hmac_secret ≡ true)
        × (first
              (λ j. j.client_secret_hmac == creds.hash_intent secret env.intent_hmac_secret)
              db.intents
            ≡ some (intent_id, i))
  unfolding intent_of_secret
  secret_owner secret i db e =
      elim (Option-cases (
        first (λ j. j.client_secret_hmac == creds.hash_intent secret env.intent_hmac_secret)
          db.intents)) [
            | inl missing ↦ absurd (ground arith)
            | inr ((id, j), found) ↦ (ground arith, ground (arith, eq_iff id intent_id))
          ]

-- If `verifyPayment` answers `confirmed`, then the request carried the client secret of the intent and
-- named its device, and either a payment is stored under the id of the answer, for the intent and bound
-- to it, with the entitlement of the answer, and nothing was written, or an issuance of the intent is proven: its signature is
-- finalized without an error, the landed transaction passes the checklist, and the commit returned
-- the purchase.
pub verify_payment_settled :
    (p : Platform) (env : Env) (creds : Credentials) (chain : Chain) (draw : Purchase) (now : ℕ)
    (intent_id header : String) (dto : VerifyRequest) (k : Confirmed) (db db' : Db)
    → verify_payment p env creds chain draw now intent_id header dto db ≡ (ok (confirmed k), db')
    → (i : PaymentIntent) × IsHolder p env creds chain draw now intent_id header
        dto.device_public_key i db
      × IsSettledBy p env creds chain draw now intent_id i k db db'
unfolding verify_payment authenticate
verify_payment_settled p env creds chain draw now intent_id header dto k db db' h =
    let (u, formed, rest) = lift_bind_ok _ _ db h in
    let (i, db1, entered, more) = bind_ok _ _ db rest in
    let (secret, carried, looked) = lift_bind_ok _ _ db entered in
    let (found, same) = lift_ok _ db (gets_bind_ok _ _ db looked) in
    let (owned, stored) =
      secret_owner p env creds chain draw now intent_id secret i db (or_throw_ok _ _ found) in
    let (device, settled) =
      verify_intent_settled p env creds chain draw now intent_id dto i k db db' (rw same at more) in
    (
      i,
      record {
        secret = secret;
        carried = or_throw_ok _ _ carried;
        owned = owned;
        stored = stored;
        bound_device = device;
      },
      settled,
    )
