-- ===== src/Licensing/Authorized.antt =====
-- What `assertEntitlementAuthority` has checked when it returns.
use sol_arch.Prelude.{
  ℕ, String, ◌≡◌, refl, Bool, true, false, Option, none, some, arith, eq_iff, ◌==◌, ◌&&◌, is_hex64,
  is_text, is_text_iff,
}
use sol_arch.Table.{find}
use sol_arch.Db.{
  Archive, PaymentIntent, Payment, Entitlement, Db, is_payment_confirmed, is_lease_active,
}
use mathlib.Core.Bool.{and-eq-true_iff}
use sol_arch.Failure.{unavailable, internal, backend_unavailable}
use sol_arch.Action.{Result, ok, err, unless_throw, or_throw, ◌&&=◌}
use sol_arch.Licensing.Authority.{
  is_paid, lease_gate, archive_gate, bought_fingerprint, authority, is_eligible_archive, agrees,
  assert_entitlement_authority, intent_of_payment,
}

pub ok_same : {A : Type 0} {a b : A} → ok a ≡ ok b → b ≡ a
ok_same e = cc

-- An entitlement that may be leased now: paid for, active, and for the archive as it was bought.
pub record Authorized (e : Entitlement) (db : Db) (now : ℕ) (fingerprint : String) : Type 0 where
  pub archive : Archive
  pub payment : Payment
  pub intent : PaymentIntent
  pub sold : find e.archive_id db.archives ≡ some archive
  pub paid : find e.payment_id db.payments ≡ some payment
  pub bought : find payment.payment_intent_id db.intents ≡ some intent
  pub confirmed : is_payment_confirmed payment.status ≡ true
  pub active : is_lease_active e.status ≡ true
  pub one_device : e.max_devices ≡ 1
  pub eligible : is_eligible_archive archive ≡ true
  pub unchanged : archive.archive_fingerprint ≡ some fingerprint
  pub as_bought : intent.archive_fingerprint ≡ fingerprint
  pub buyer : intent.confirmed_buyer_wallet ≡ some e.buyer_wallet
  pub device : intent.device_public_key ≡ e.device_public_key
  pub same_archive : intent.archive_id ≡ e.archive_id

lease_gate_ok :
    (e : Entitlement) (payment : Option Payment) (now : ℕ) {u : Unit {0}}
    → lease_gate e payment now ≡ ok u
    → (is_paid payment ≡ true) × (is_lease_active e.status ≡ true) × (e.max_devices ≡ 1)
unfolding lease_gate
lease_gate_ok e none now done = absurd (cc done)
lease_gate_ok e (some q) now done = (ground arith, ground arith, ground arith)

archive_gate_ok :
    (a : Archive) {u : Unit {0}} → archive_gate a ≡ ok u → is_eligible_archive a ≡ true
unfolding archive_gate
archive_gate_ok a done = ground arith

-- What the rows have in common.
record Matches (e : Entitlement) (a : Archive) (i : PaymentIntent) (fingerprint : String)
    : Type 0 where
  pub unchanged : a.archive_fingerprint ≡ some fingerprint
  pub as_bought : i.archive_fingerprint ≡ fingerprint
  pub buyer : i.confirmed_buyer_wallet ≡ some e.buyer_wallet
  pub device : i.device_public_key ≡ e.device_public_key
  pub same_archive : i.archive_id ≡ e.archive_id

both : (a b : Bool) → (a && b) ≡ true → (a ≡ true) × (b ≡ true)
both a b h = (and-eq-true_iff a b).0 h

agrees-Matches :
    (e : Entitlement) (a : Archive) (q : Payment) (i : PaymentIntent)
    → agrees e a q i ≡ true
    → Matches e a i i.archive_fingerprint
unfolding agrees
agrees-Matches e a q i done =
    let hex = is_hex64 i.archive_fingerprint in
    let b = i.archive_id == e.archive_id in
    let c = is_text a.archive_fingerprint i.archive_fingerprint in
    let d = i.device_public_key == e.device_public_key in
    let w = is_text i.confirmed_buyer_wallet e.buyer_wallet in
    let x = q.archive_id == e.archive_id in
    let y = q.buyer_wallet == e.buyer_wallet in
    let z = q.device_public_key == e.device_public_key in
    let (seven, _) = both (hex && b && c && d && w && x && y) z done in
    let (six, _) = both (hex && b && c && d && w && x) y seven in
    let (five, _) = both (hex && b && c && d && w) x six in
    let (four, buyer) = both (hex && b && c && d) w five in
    let (three, device) = both (hex && b && c) d four in
    let (two, unchanged) = both (hex && b) c three in
    let (_, same_archive) = both hex b two in
    record {
      unchanged = (is_text_iff a.archive_fingerprint i.archive_fingerprint).0 unchanged;
      as_bought = refl;
      buyer = (is_text_iff i.confirmed_buyer_wallet e.buyer_wallet).0 buyer;
      device = (eq_iff i.device_public_key e.device_public_key).0 device;
      same_archive = (eq_iff i.archive_id e.archive_id).0 same_archive;
    }

bought_fingerprint_ok :
    (e : Entitlement) (a : Archive) (payment : Option Payment) (intent : Option PaymentIntent)
    {fingerprint : String}
    → bought_fingerprint e a payment intent ≡ ok fingerprint
    → (q : Payment) × (i : PaymentIntent) × (payment ≡ some q)
      × (intent ≡ some i)
      × Matches e a i fingerprint
unfolding bought_fingerprint
bought_fingerprint_ok e a none intent done = absurd (cc done)
bought_fingerprint_ok e a (some q) none done = absurd (cc done)
bought_fingerprint_ok e a (some q) (some i) {fingerprint} done =
    (q, i, refl, refl, by_test (agrees e a q i) refl done)
  where
    by_test :
        (b : Bool)
        → agrees e a q i ≡ b
        → (unless_throw b (unavailable backend_unavailable) &&= λ _. ok i.archive_fingerprint)
          ≡ ok fingerprint
        → Matches e a i fingerprint
    by_test true agreed e1 = rw (ok_same e1) (agrees-Matches e a q i agreed)
    by_test false agreed e1 = absurd (cc e1)

module _ (e : Entitlement) (db : Db) (now : ℕ) (fingerprint : String) where
  Authorized-by :
      (archive : Option Archive) (lease : Result (Unit {0}))
      → find e.archive_id db.archives ≡ archive
      → lease_gate e (find e.payment_id db.payments) now ≡ lease
      → (lease &&= λ _. or_throw internal archive &&= λ a. archive_gate a &&= λ _.
          bought_fingerprint e a
            (find e.payment_id db.payments)
            (intent_of_payment (find e.payment_id db.payments) db))
        ≡ ok fingerprint
      → Authorized e db now fingerprint
  Authorized-by archive (err x) sold leased done = absurd (cc done)
  Authorized-by none (ok u) sold leased done = absurd (cc done)
  Authorized-by (some a) (ok u) sold leased done = by_gate (archive_gate a) refl done
    where
      by_gate :
          (gate : Result (Unit {0}))
          → archive_gate a ≡ gate
          → (gate &&= λ _.
              bought_fingerprint e a
                (find e.payment_id db.payments)
                (intent_of_payment (find e.payment_id db.payments) db))
            ≡ ok fingerprint
          → Authorized e db now fingerprint
      by_gate (err x) f g = absurd (cc g)
      by_gate (ok w) f g =
          let (q, i, paid, bought, same) =
            bought_fingerprint_ok e a (find e.payment_id db.payments)
              (intent_of_payment (find e.payment_id db.payments) db) g in
          let (is_paid_for, active, one_device) =
            lease_gate_ok e (find e.payment_id db.payments) now leased in
          record {
            archive = a;
            payment = q;
            intent = i;
            sold = sold;
            paid = paid;
            bought = rw (paid) at bought;
            confirmed = rw (paid) at is_paid_for;
            active = active;
            one_device = one_device;
            eligible = archive_gate_ok a f;
            unchanged = same.unchanged;
            as_bought = same.as_bought;
            buyer = same.buyer;
            device = same.device;
            same_archive = same.same_archive;
          }

  pub authority-Authorized :
      assert_entitlement_authority (authority e db) now ≡ ok fingerprint
      → Authorized e db now fingerprint
  unfolding assert_entitlement_authority authority
  authority-Authorized done = Authorized-by (find e.archive_id db.archives) _ refl refl done
