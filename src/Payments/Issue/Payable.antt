-- ===== src/Payments/Issue/Payable.antt =====
-- One payable transaction for an intent: the invariant of the issuances.
use sol_arch.Prelude.{
  String, ◌≡◌, ◌≢◌, refl, Bool, true, false, Option, none, some, [], ◌∷◌, arith, eq_iff, Bool-cases,
}
use sol_arch.Table.{Table, find, put, select}
use sol_arch.Table.Laws.{IsKeyed, find-put, put-IsKeyed}
use sol_arch.Db.{Issuance, Db, is_issuance_active}
use sol_arch.Payments.Issue.{latest, later, active_issuance, is_active_for}

-- Any two active issuances of one intent are one.
pub record OnePayable (db : Db) : Type 0 where
  pub keyed : IsKeyed db.issuances
  pub one :
      (a b : String) (s t : Issuance)
      → find a db.issuances ≡ some s
      → find b db.issuances ≡ some t
      → is_issuance_active s.status ≡ true
      → is_issuance_active t.status ≡ true
      → s.payment_intent_id ≡ t.payment_intent_id
      → a ≡ b

-- Beside that, the intent has no active issuance but, at most, `k`.
pub record OnlyPayable (intent_id k : String) (db : Db) : Type 0 where
  pub payable : OnePayable db
  pub only :
      (b : String) (t : Issuance)
      → find b db.issuances ≡ some t
      → is_active_for intent_id t ≡ true
      → b ≡ k

pub record NonePayable (intent_id : String) (db : Db) : Type 0 where
  pub payable : OnePayable db
  pub closed :
      (b : String) (t : Issuance) → find b db.issuances ≡ some t → is_active_for intent_id t ≡ false

latest-none : (t : Table Issuance) → latest t ≡ none → t ≡ []
unfolding latest
latest-none [] e = refl
latest-none ((j, s) ∷ t) e = absurd (later_some j s (latest t) e)
  where
    later_some :
        (j : String) (s : Issuance) (o : Option (String × Issuance)) → later (j, s) o ≢ none
    later_some j s none e = cc
    later_some j s (some (i, r)) e = ground arith

select_none :
    (p : Issuance → Bool) (t : Table Issuance) (b : String) (s : Issuance)
    → select p t ≡ []
    → find b t ≡ some s
    → p s ≡ false
unfolding find select
select_none p [] b s e f = cc
select_none p ((j, r) ∷ t) b s e f = ground (arith, select_none p t b s, eq_iff j b)

latest_found :
    (t : Table Issuance) (k : String) (s : Issuance)
    → IsKeyed t
    → latest t ≡ some (k, s)
    → find k t ≡ some s
unfolding find latest
latest_found [] k s h e = cc
latest_found ((j, r) ∷ t) k s h e = by_later (latest_found t k s h.1) (latest t) refl e
  where
    by_later :
        (latest t ≡ some (k, s) → find k t ≡ some s)
        → (o : Option (String × Issuance)) → latest t ≡ o
        → later (j, r) o ≡ some (k, s)
        → find k ((j, r) ∷ t) ≡ some s
    by_later rest none f e = ground (arith, eq_iff j k)
    by_later rest (some (i, q)) f e = ground (arith, eq_iff j k)

select_missing :
    (p : Issuance → Bool) (t : Table Issuance) (k : String)
    → find k t ≡ none
    → find k (select p t) ≡ none
unfolding find select
select_missing p [] k e = refl
select_missing p ((j, r) ∷ t) k e = ground (arith, select_missing p t k, eq_iff j k)

select-IsKeyed : (p : Issuance → Bool) (t : Table Issuance) → IsKeyed t → IsKeyed (select p t)
unfolding select
select-IsKeyed p [] h = tt
select-IsKeyed p ((j, r) ∷ t) h = ground (arith, select-IsKeyed p t h.1, select_missing p t j h.0)

select_found :
    (p : Issuance → Bool) (t : Table Issuance) (k : String) (s : Issuance)
    → find k (select p t) ≡ some s
    → IsKeyed t
    → (find k t ≡ some s) × (p s ≡ true)
unfolding find select
select_found p [] k s e h = cc
select_found p ((j, r) ∷ t) k s e h = ground (arith, select_found p t k s, h.0, h.1, eq_iff j k)

pub active_issuance_found :
    (intent_id : String) (db : Db) (k : String) (s : Issuance)
    → IsKeyed db.issuances
    → active_issuance intent_id db ≡ some (k, s)
    → (find k db.issuances ≡ some s) × (is_active_for intent_id s ≡ true)
unfolding active_issuance
active_issuance_found intent_id db k s h e =
    let rows = select (is_active_for intent_id) db.issuances in
    select_found (is_active_for intent_id) db.issuances k s
      (latest_found rows k s (select-IsKeyed (is_active_for intent_id) db.issuances h) e) h

pub active_issuance-none :
    (intent_id : String) (db : Db) (b : String) (s : Issuance)
    → active_issuance intent_id db ≡ none
    → find b db.issuances ≡ some s
    → is_active_for intent_id s ≡ false
unfolding active_issuance
active_issuance-none intent_id db b s e f =
    select_none (is_active_for intent_id) db.issuances b s
      (latest-none (select (is_active_for intent_id) db.issuances) e) f

pub active_only :
    (intent_id k : String) (s : Issuance) (db : Db)
    → OnePayable db
    → active_issuance intent_id db ≡ some (k, s)
    → OnlyPayable intent_id k db
active_only intent_id k s db h e = record {
  payable = h;
  only = λ b t f a.
      let (stored, active) = active_issuance_found intent_id db k s h.keyed e in
      ground (
        arith,
        h.one b k t s f stored,
        eq_iff t.payment_intent_id intent_id,
        eq_iff s.payment_intent_id intent_id,
      );
}

-- A row written anew, for the same intent and no more active than it was.
module _ (db : Db) (k : String) (old new : Issuance) (stored : find k db.issuances ≡ some old)
    (same_intent : new.payment_intent_id ≡ old.payment_intent_id) where
  pub put_payable :
      OnePayable db
      → (is_issuance_active new.status ≡ true → is_issuance_active old.status ≡ true)
      → OnePayable (record db { issuances = put k new db.issuances })
  put_payable h no_more = record {
    keyed = put-IsKeyed k new db.issuances h.keyed;
    one = λ a b s t f g x y z. ground (
      arith,
      find-put k a new db.issuances,
      find-put k b new db.issuances,
      h.one a b s t,
      h.one a b old t,
      h.one a b s old,
      eq_iff k a,
      eq_iff k b,
    );
  }

  pub put_only :
      (intent_id : String)
      → OnlyPayable intent_id k db
      → (is_issuance_active new.status ≡ true → is_issuance_active old.status ≡ true)
      → OnlyPayable intent_id k (record db { issuances = put k new db.issuances })
  put_only intent_id h no_more = record {
    payable = put_payable h.payable no_more;
    only = λ b t f a. ground (arith, find-put k b new db.issuances, h.only b t, eq_iff k b);
  }

  pub put_closed :
      (intent_id : String)
      → OnlyPayable intent_id k db
      → is_issuance_active new.status ≡ false
      → NonePayable intent_id (record db { issuances = put k new db.issuances })
  put_closed intent_id h closed = record {
    payable = put_payable h.payable (λ e. cc);
    closed = λ b t f. ground (
      arith,
      find-put k b new db.issuances,
      h.only b t,
      eq_iff k b,
      Bool-cases (is_active_for intent_id t),
    );
  }

pub insert_new :
    (intent_id k : String) (s : Issuance) (db : Db)
    → NonePayable intent_id db
    → find k db.issuances ≡ none
    → s.payment_intent_id ≡ intent_id
    → OnePayable (record db { issuances = put k s db.issuances })
insert_new intent_id k s db h fresh same = record {
  keyed = put-IsKeyed k s db.issuances h.payable.keyed;
  one = λ a b x y f g p q e. ground (
    arith,
    find-put k a s db.issuances,
    find-put k b s db.issuances,
    h.payable.one a b x y,
    h.closed a x,
    h.closed b y,
    eq_iff k a,
    eq_iff k b,
    eq_iff x.payment_intent_id intent_id,
    eq_iff y.payment_intent_id intent_id,
  );
}
