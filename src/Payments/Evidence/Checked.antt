-- ===== src/Payments/Evidence/Checked.antt =====
-- A transaction that passes the checklist has paid both parties.
use sol_arch.Prelude.{
  ℕ, ◌+◌, ◌*◌, ◌≤◌, String, ◌≡◌, refl, sym, Bool, true, false, List, [], ◌∷◌, arith, eq_iff, ◌==◌,
  ◌&&◌, any, ltb, if◌then◌else◌,
}
use mathlib.Core.Bool.{and-eq-true_iff}
use sol_arch.Db.{PaymentIntent, Issuance}
use sol_arch.Failure.{bad_request, invalid_request}
use sol_arch.Action.{ok, throw_if, unless_throw, ◌&&=◌}
use sol_arch.Platform.{Platform, Env}
use sol_arch.Platform.Chain.{Instruction, transfer_checked, other}
use sol_arch.Payments.Economics.{split}
use sol_arch.Payments.Economics.Shares.{split_exact}
use sol_arch.Payments.Evidence.{
  Landed, pays, pays_split, misses_reference, checklist, all_instructions, transferred, has_signer,
}

-- The units of a mint that a list of instructions moves to an account.
pub received : String → String → List Instruction → ℕ
received mint account [] = 0
received mint account (other ∷ rest) = received mint account rest
received mint account (transfer_checked info ∷ rest) =
    let more = received mint account rest in
    if (info.mint == mint) && (info.destination == account) then transferred info + more else more

pays-received :
    (mint account : String) (units : ℕ) (instructions : List Instruction)
    → any (pays mint account units) instructions ≡ true
    → units ≤ received mint account instructions
unfolding pays received
pays-received mint account units [] h = absurd (cc h)
pays-received mint account units (other ∷ rest) h = pays-received mint account units rest h
pays-received mint account units (transfer_checked info ∷ rest) h =
    ground (arith, pays-received mint account units rest)

five_checks :
    (a b c d e : Bool) {u : Unit {0}}
    → (unless_throw a (bad_request invalid_request) &&= λ _.
        throw_if b (bad_request invalid_request) &&= λ _.
        throw_if c (bad_request invalid_request) &&= λ _.
        unless_throw d (bad_request invalid_request) &&= λ _.
        unless_throw e (bad_request invalid_request))
      ≡ ok u
    → (a ≡ true) × (b ≡ false) × (c ≡ false) × (d ≡ true) × (e ≡ true)
five_checks true false false true true h = (refl, refl, refl, refl, refl)
five_checks false b c d e h = absurd (cc h)
five_checks true true c d e h = absurd (cc h)
five_checks true false true d e h = absurd (cc h)
five_checks true false false false e h = absurd (cc h)
five_checks true false false true false h = absurd (cc h)

-- What a payment on the chain is: both shares arrive, in time, by the issued message, signed by both.
pub record IsPaid (p : Platform) (env : Env) (i : PaymentIntent) (s : Issuance) (l : Landed)
    : Type 0 where
  pub creator_paid :
      i.expected_price_amount * 9500 ≤ received env.usdc_mint i.creator_ata (all_instructions l.tx)
  pub platform_paid :
      i.expected_price_amount * 500 ≤ received env.usdc_mint i.platform_ata (all_instructions l.tx)
  pub as_issued : p.sha256_hex l.message ≡ s.transaction_message_hash
  pub in_time : l.block_height ≤ s.last_valid_block_height
  pub named : misses_reference i.reference l.tx.account_keys ≡ false
  pub sponsored : has_signer env.fee_payer l.tx.account_keys ≡ true
  pub signed : has_signer s.construction_account l.tx.account_keys ≡ true

-- Where the checklist passes, the instructions of the landed transaction move at least 95 percent of
-- the price to the creator's account and at least 5 percent to the platform's, in the configured mint;
-- its message has the hash of the issuance, its block is not past the issuance's last valid one, the
-- intent's reference, if it has one, is among the accounts, and the fee payer and the account that the
-- transaction was built for have signed.
pub checklist-IsPaid :
    (p : Platform) (env : Env) (i : PaymentIntent) (s : Issuance) (l : Landed)
    → checklist p env i s l ≡ ok tt
    → IsPaid p env i s l
unfolding checklist pays_split
checklist-IsPaid p env i s l h =
    let shares = split i.expected_price_amount 500 in
    let (hash, height, reference, paid, signers) =
      five_checks (p.sha256_hex l.message == s.transaction_message_hash)
        (ltb s.last_valid_block_height l.block_height)
        (misses_reference i.reference l.tx.account_keys)
        (pays_split env.usdc_mint i (all_instructions l.tx))
        (has_signer env.fee_payer l.tx.account_keys
          && has_signer s.construction_account l.tx.account_keys)
        h in
    let (to_creator, to_platform) = (and-eq-true_iff _ _).0 paid in
    let (sponsored, signed) = (and-eq-true_iff _ _).0 signers in
    let (platform_share, creator_share, _) = split_exact i.expected_price_amount in
    record {
      creator_paid = rw (sym creator_share) (
          pays-received env.usdc_mint i.creator_ata shares.creator_units (all_instructions l.tx)
            to_creator);
      platform_paid = rw (sym platform_share) (
          pays-received env.usdc_mint i.platform_ata shares.platform_units (all_instructions l.tx)
            to_platform);
      as_issued = (eq_iff (p.sha256_hex l.message) s.transaction_message_hash).0 hash;
      in_time = ground arith;
      named = reference;
      sponsored = sponsored;
      signed = signed;
    }
