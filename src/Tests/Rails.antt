-- ===== src/Tests/Rails.antt =====
-- The theorems on the x402 adapter at the sample payment.
use mandate_ledger.Prelude.{
  ℕ, ◌/◌, ◌%◌, ◌≡◌, refl, false, [], ◌∷◌, ◌++◌, arith, none, some, ok, if◌then◌else◌,
}
use mandate_ledger.Prelude.Int.{ℤ, pos, ◌+ℤ◌}
use mandate_ledger.Text.{Text, codes, trim_start, trim_end}
use mandate_ledger.Ids.{lowercase_trimmed}
use mandate_ledger.Rail.{VerifiedProof, SettlementExpectation, final_status, failed_status}
use mandate_ledger.X402.Types.{account_id}
use mandate_ledger.X402.Assets.{no_assets, get_asset, with_asset}
use mandate_ledger.X402.CartTerms.{ExactTerms, terms, normalize}
use mandate_ledger.X402.Reference.{
  AuthorizationRef, display_reference, identity_of, parse_reference,
}
use mandate_ledger.X402.Finality.{
  SettlementResponse, Log, TransactionReceipt, X402Finality, facilitator, receipt,
}
use mandate_ledger.X402.Judge.{check_finality}
use mandate_ledger.X402.Verify.{verify_proof}
use mandate_ledger.X402.References.{
  IsReference, parse_reference-display_reference, identity_of_once,
}
use mandate_ledger.X402.Accounts.{merchant_names_account}
use mandate_ledger.X402.Payments.{IsPayment, verify_proof-IsPayment, recorded_payment_again}
use mandate_ledger.X402.Pricing.{IsPriced, terms-IsPriced}
use mandate_ledger.X402.Evidence.{IsLost}
use mandate_ledger.X402.Settlements.{IsShown, final-IsShown, failed_is_expired}
use mandate_ledger.X402.Registry.{HasOneToken, with_asset-HasOneToken, is_entry}
use mandate_ledger.X402.Purchases.{payment_meets_cart}
use mandate_ledger.Cart.{Cart, unsigned}
use mandate_ledger.Tests.Wire.{
  real_hex, real_decode, real_hex_laws, sum_keccak, sample_curve, atomic_units, account, Json,
  string, sample_json, json_bytes, requirement, x402_document, usdc_asset, testnet, x402_at,
  x402_payment, shop_reference, shop_nonce, usdc_amount, shop_merchant, shop_expects, address_text,
  encode_bytes,
}
use mandate_ledger.Hash.{zeros}
use mandate_ledger.Tests.Sample.{cents, sum_digest}

abbrev verified : VerifiedProof ℤ
verified = record {
  reference = display_reference shop_reference;
  nonce = identity_of shop_reference;
  amount = usdc_amount;
  bound_ctx = some (4 ∷ []);
  bound_cart = none;
  bound_merchant = some shop_merchant;
}

verified_run : verify_proof (x402_at 1000) x402_payment (shop_expects none) ≡ ok verified
unfolding verify_proof ◌+ℤ◌ lowercase_trimmed trim_start trim_end
verified_run = refl

verify_proof-IsPayment_example : IsPayment (x402_at 1000) x402_payment (shop_expects none) verified
verify_proof-IsPayment_example =
    verify_proof-IsPayment (x402_at 1000) x402_payment (shop_expects none) verified verified_run

-- An hour later the window is long past.
recorded_payment_again_example :
    verify_proof
      (x402_at 4600)
      x402_payment
      (shop_expects (some (display_reference shop_reference)))
    ≡ ok verified
recorded_payment_again_example =
    recorded_payment_again (x402_at 1000) x402_payment (shop_expects none) verified (pos 4600)
      verified_run

shop_reference-IsReference : IsReference shop_reference
shop_reference-IsReference = record {
  named_chain = omega arith;
  chain_u64 = omega arith;
  token_bytes = record { of_size = refl; of_bytes = refl };
  from_bytes = record { of_size = refl; of_bytes = refl };
  nonce_bytes = record { of_size = refl; of_bytes = refl };
  expiry_u64 = omega arith;
}

parse_reference-display_reference_example :
    parse_reference (display_reference shop_reference) ≡ ok shop_reference
parse_reference-display_reference_example =
    parse_reference-display_reference real_hex_laws shop_reference shop_reference-IsReference

-- The same authorization with another expiry.
abbrev later_reference : AuthorizationRef
later_reference = record shop_reference { valid_before = 2000 }

later_reference-IsReference : IsReference later_reference
later_reference-IsReference = record {
  named_chain = omega arith;
  chain_u64 = omega arith;
  token_bytes = record { of_size = refl; of_bytes = refl };
  from_bytes = record { of_size = refl; of_bytes = refl };
  nonce_bytes = record { of_size = refl; of_bytes = refl };
  expiry_u64 = omega arith;
}

same_identity : identity_of shop_reference ≡ identity_of later_reference
unfolding identity_of
same_identity = refl

identity_of_once_example :
    (shop_reference.chain ≡ later_reference.chain)
    × (shop_reference.token ≡ later_reference.token)
    × (shop_reference.from ≡ later_reference.from)
    × (shop_reference.nonce ≡ later_reference.nonce)
identity_of_once_example =
    identity_of_once real_hex_laws shop_reference later_reference shop_reference-IsReference
      later_reference-IsReference same_identity

shop_account :
    mandate_ledger.Ids.new_id lowercase_trimmed (account_id 84532 (account 5)) ≡ ok shop_merchant
unfolding mandate_ledger.Ids.new_id account_id lowercase_trimmed trim_start trim_end
    mandate_ledger.Text.len mandate_ledger.Text.lower
shop_account = refl

merchant_names_account_example : (◌≡◌ {A = ℕ} 84532 84532) × (account 5 ≡ account 5)
merchant_names_account_example =
    merchant_names_account real_hex_laws 84532 84532 (account 5) (account 5) shop_merchant
      (record { of_size = refl; of_bytes = refl }) (record { of_size = refl; of_bytes = refl })
      shop_account shop_account

abbrev shop_terms : ExactTerms ℤ
shop_terms = record {
  chain = 84532;
  asset = account 3;
  token = usdc_asset;
  pay_to = account 5;
  atomic_amount = 10000;
  total = usdc_amount;
  max_timeout_seconds = 60;
}

terms_run : terms testnet requirement ≡ ok shop_terms
unfolding terms
terms_run = refl

terms-IsPriced_example : IsPriced testnet requirement shop_terms
terms-IsPriced_example = terms-IsPriced testnet requirement shop_terms terms_run

no_assets-HasOneToken : HasOneToken no_assets
unfolding get_asset
no_assets-HasOneToken = λ chain c d a b h k same. cc

with_asset_run : with_asset no_assets 84532 (account 3) usdc_asset ≡ ok testnet
unfolding with_asset
with_asset_run = refl

with_asset-HasOneToken_example :
    ((c : ℕ) (d : Text)
      → get_asset testnet c d
        ≡ (if is_entry 84532 (account 3) c d then some usdc_asset else get_asset no_assets c d))
    × HasOneToken testnet
with_asset-HasOneToken_example =
    with_asset-HasOneToken no_assets testnet 84532 (account 3) usdc_asset no_assets-HasOneToken
      with_asset_run

abbrev x402_cart : Cart ℤ
x402_cart = record {
  hash = 0 ∷ [];
  claims = record {
    merchant = shop_merchant;
    total = usdc_amount;
    category = none;
    line_count = none;
  };
  attestation = unsigned;
  raw = [];
}

normalize_run : normalize Json testnet [] ≡ ok x402_cart
unfolding normalize mandate_ledger.Ids.new_id lowercase_trimmed trim_start trim_end
normalize_run = refl

payment_meets_cart_example :
    (verified.amount ≡ x402_cart.claims.total)
    × (verified.bound_merchant ≡ some x402_cart.claims.merchant)
payment_meets_cart_example =
    payment_meets_cart (x402_at 1000) [] (string []) x402_document x402_cart x402_payment
      (shop_expects none) verified refl refl normalize_run refl verified_run

abbrev shop_settles : SettlementExpectation ℤ
shop_settles = record {
  ctx = 4 ∷ [];
  payment_reference = display_reference shop_reference;
  amount = usdc_amount;
  merchant = shop_merchant;
}

abbrev response : SettlementResponse Json
response = record {
  success = false;
  error_reason = some (codes "insufficient_funds");
  payer = some (address_text 7);
  transaction = [];
  network = codes "eip155:84532";
  amount = some (codes "10000");
  extensions = none;
}

failed_run :
    check_finality (x402_at 1100) (facilitator response) shop_settles
    ≡ ok (failed_status (codes "insufficient_funds"))
unfolding check_finality
failed_run = refl

failed_is_expired_example :
    (payment : AuthorizationRef) × (parse_reference (display_reference shop_reference) ≡ ok payment)
    × IsLost (x402_at 1100) payment (codes "insufficient_funds") (facilitator response)
failed_is_expired_example =
    failed_is_expired (x402_at 1100) (facilitator response) shop_settles
      (codes "insufficient_funds") failed_run

-- A word of 32 bytes, on the wire.
abbrev word_text : ℕ → Text
word_text n = codes "0x" ++ encode_bytes (zeros 30 ++ (n / 256) ∷ (n % 256) ∷ [])

abbrev used_log : Log
used_log = record {
  address = address_text 3;
  topics = word_text 241 ∷ word_text 7 ∷ (codes "0x" ++ encode_bytes shop_nonce) ∷ [];
  log_data = codes "0x";
}

abbrev transfer_log : Log
transfer_log = record {
  address = address_text 3;
  topics = word_text 23 ∷ word_text 7 ∷ word_text 5 ∷ [];
  log_data = word_text 10000;
}

abbrev shop_receipt : TransactionReceipt
shop_receipt = record {
  transaction_hash = word_text 171;
  block_number = codes "0x64";
  status = codes "0x1";
  logs = used_log ∷ transfer_log ∷ [];
}

abbrev shown : X402Finality Json
shown = receipt (codes "eip155:84532") 102 shop_receipt

final_run : check_finality (x402_at 1100) shown shop_settles ≡ ok (final_status (word_text 171))
unfolding check_finality lowercase_trimmed trim_start trim_end
final_run = refl

final-IsShown_example :
    (payment : AuthorizationRef) × (parse_reference (display_reference shop_reference) ≡ ok payment)
    × IsShown (x402_at 1100) payment shop_settles shown
final-IsShown_example = final-IsShown (x402_at 1100) shown shop_settles (word_text 171) final_run
