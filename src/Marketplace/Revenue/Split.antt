-- ===== src/Marketplace/Revenue/Split.antt =====
-- The revenue of an archive is its price for each payment, and falls into the two shares.
use sol_arch.Prelude.{
  ℕ, suc, ◌+◌, eq_iff, inl, inr, Bool-cases, ◌*◌, String, ◌≡◌, refl, sym, ap, some, List, [], ◌∷◌,
  arith, length, ◌==◌,
}
use sol_arch.Table.{find}
use sol_arch.Failure.{forbidden, plain}
use sol_arch.Db.{Archive, Db}
use sol_arch.Action.{Result, ok, unless_throw, ◌&&=◌}
use sol_arch.Payments.Economics.{split, to_fixed}
use sol_arch.Payments.Economics.Shares.{split_exact}
use sol_arch.Marketplace.Views.{VisitorEvent}
use sol_arch.Marketplace.Revenue.{
  Period, PaidAt, Analytics, revenue_of, rounded, payments_since, since, analytics_of,
  get_archive_analytics,
}

one_more : (n unit sum share : ℕ) → sum ≡ n * unit → share ≡ unit → sum + share ≡ suc n * unit
one_more n unit sum share h k = omega arith

result_ok : {A : Type 0} {a b : A} → Result.ok a ≡ Result.ok b → a ≡ b
result_ok h = cc h

told :
    {A : Type 0} (owner user : String) (x r : A)
    → (unless_throw (owner == user) (forbidden plain) &&= λ _. ok x) ≡ ok r
    → (owner ≡ user) × (x ≡ r)
told owner user x r h = elim (Bool-cases (owner == user)) [
  | inl own ↦ ((eq_iff owner user).0 own, result_ok (rw (own) at h))
  | inr other ↦ absurd (cc (rw (other) at h))
]

revenue_exact :
    (a : Archive) (ps : List PaidAt)
    → a.platform_fee_bps ≡ 500
    → ((revenue_of a ps).gross ≡ length ps * (a.price_amount * 10000))
      × ((revenue_of a ps).creator ≡ length ps * (a.price_amount * 9500))
      × ((revenue_of a ps).platform ≡ length ps * (a.price_amount * 500))
unfolding revenue_of split
revenue_exact a [] fee = (omega arith, omega arith, omega arith)
revenue_exact a (p ∷ ps) fee =
    let rest = revenue_exact a ps fee in
    let shares = split_exact a.price_amount in
    let n = length ps in
    rw (fee) (
      one_more n (a.price_amount * 10000) _ _ rest.0 refl,
      one_more n (a.price_amount * 9500) _ _ rest.1 shares.1,
      one_more n (a.price_amount * 500) _ _ rest.2 shares.0,
    )

-- The revenue that is answered, at the fee of 500 basis points and over any period: for each confirmed
-- payment of the period the price, of which 95 percent are the creator's and 5 percent the platform's,
-- summed in base units without a loss, and each of the three sums rounded to hundredths once, by itself;
-- and only the creator is told.
pub get_archive_analytics_lem :
    (db : Db) (now : ℕ) (period : Period) (id user_id : String) (events : List VisitorEvent)
    (paid : List PaidAt) (a : Archive) (r : Analytics)
    → find id db.archives ≡ some a
    → a.platform_fee_bps ≡ 500
    → get_archive_analytics db now period id user_id events paid ≡ ok r
    → (a.creator_user_id ≡ user_id)
      × (r.paid_unlocks ≡ length (payments_since id (since now period) paid))
      × (r.revenue.gross ≡ to_fixed (r.paid_unlocks * (a.price_amount * 10000)))
      × (r.revenue.creator ≡ to_fixed (r.paid_unlocks * (a.price_amount * 9500)))
      × (r.revenue.platform ≡ to_fixed (r.paid_unlocks * (a.price_amount * 500)))
unfolding get_archive_analytics analytics_of rounded
get_archive_analytics_lem db now period id user_id events paid a r stored fee run =
    let s1 =
      told a.creator_user_id user_id (analytics_of now period id a events paid) r
        (rw (stored) at run) in
    let exact = revenue_exact a (payments_since id (since now period) paid) fee in
    rw (sym s1.1) (s1.0, refl, ap to_fixed exact.0, ap to_fixed exact.1, ap to_fixed exact.2)
