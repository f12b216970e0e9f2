-- ===== src/Tests/Adapted.antt =====
-- The theorems on the engine with the x402 rail, and on the other adapters, at sample data.
use mandate_ledger.Prelude.{
  ℕ, ◌≤◌, ◌≡◌, refl, true, [], ◌∷◌, ◌++◌, arith, none, some, ok, length, list_eq, nat_eq, pair_eq,
}
use mandate_ledger.Prelude.Int.{ℤ, pos, ◌+ℤ◌}
use mandate_ledger.Prelude.Map.{get}
use mandate_ledger.Text.{Text, Bytes, codes, trim_start, trim_end, lower}
use mandate_ledger.Hash.{CanonicalJson}
use mandate_ledger.Ids.{lowercase_trimmed}
use mandate_ledger.Cart.{new_cart, signed_by, unsigned, ScopeClaims}
use mandate_ledger.State.{Authorized, Paid}
use mandate_ledger.Event.{CartSnapshot}
use mandate_ledger.Rail.{SettlementExpectation}
use mandate_ledger.Store.Interface.{Record}
use mandate_ledger.Store.Inner.{Inner, authorized_record}
use mandate_ledger.Store.Memory.{memory_store}
use mandate_ledger.Mandate.Body.{SignerPolicy}
use mandate_ledger.Ledger.Payment.{record_payment}
use mandate_ledger.X402.Recorded.{x402_ledger, PaysRecord, paid_is_signed}
use mandate_ledger.X402.Reference.{display_reference}
use mandate_ledger.Adapters.Sandbox.{
  MemoryChecks, memory_checks, memory_count, SandboxRail, magic, magic_reorg, sandbox_finality,
}
use mandate_ledger.Adapters.Reorg.{asked, reorg_answer, reorg_is_dropped, memory_count_bounded}
use mandate_ledger.Adapters.Native.{
  NativeCart, NativeCartAdapter, unsigned_cart, sign_cart, normalize_cart,
}
use mandate_ledger.Adapters.Attested.{
  IsNativeCart, normalize_cart-IsNativeCart, normalize_cart-sign_cart,
}
use mandate_ledger.Tests.Wire.{
  real_hex, real_decode, sum_keccak, sample_curve, atomic_units, Json, sample_json, x402_at,
  x402_payment, usdc_amount, shop_merchant, shop_reference,
}
use mandate_ledger.Tests.Sample.{
  cents, sum_digest, preimage_json, keyed_copy, auth_token, usd, seed,
}
use mandate_ledger.Tests.Purchase.{shop, basket, store_1}

abbrev x402_claims : ScopeClaims ℤ
x402_claims = record {
  merchant = shop_merchant;
  total = usdc_amount;
  category = none;
  line_count = none;
}

abbrev x402_record : Record ℤ
x402_record = authorized_record shop (5 ∷ []) (record basket { claims = x402_claims })

abbrev x402_store : Inner ℤ
x402_store = record store_1 { records = (shop, x402_record) ∷ [] }

abbrev anyone : SignerPolicy
anyone = record { is_trusted = λ principal signer. true }

abbrev x402_token : Authorized ℤ
x402_token = record auth_token { ctx = shop }

abbrev x402_paid : Paid
x402_paid = record {
  ctx = shop;
  rail = codes "x402";
  reference = display_reference shop_reference;
  idempotency_key = 8732 ∷ [];
}

paid_run :
    (record_payment
      (x402_ledger (x402_at 1000) anyone (pos 1000))
      x402_token
      x402_payment
      x402_store).0
    ≡ ok x402_paid
unfolding record_payment get mandate_ledger.X402.Verify.verify_proof ◌+ℤ◌ lowercase_trimmed
    trim_start trim_end mandate_ledger.Ledger.Payment.bind_payment
    mandate_ledger.Ledger.Payment.check_proof_binding mandate_ledger.Money.money_eq
    mandate_ledger.Store.Commit.append mandate_ledger.Store.Validate.check_body
    mandate_ledger.State.can_transition_to mandate_ledger.Store.Commit.next_event
    mandate_ledger.Event.new_event mandate_ledger.Event.compute_hash
    mandate_ledger.Store.Commit.commit mandate_ledger.Ledger.Tokens.idempotency_key
    mandate_ledger.Hash.hash_of mandate_ledger.Text.utf8 display_reference
paid_run = refl

here : get x402_store.records shop ≡ some x402_record
unfolding get
here = refl

paid_is_signed_example : PaysRecord (x402_at 1000) x402_payment shop x402_record
paid_is_signed_example =
    paid_is_signed (x402_at 1000) anyone (pos 1000) x402_token x402_payment x402_store x402_record
      here refl paid_run

abbrev memory : ℕ → MemoryChecks
memory capacity = record { checks = []; capacity = capacity }

abbrev operated : SandboxRail
operated = record { rail_id = codes "mock"; finality = 2 }

abbrev dropped : Text
dropped = codes "p-reorg"

abbrev dropped_settles : SettlementExpectation ℤ
dropped_settles = record {
  ctx = shop;
  payment_reference = dropped;
  amount = usd 40;
  merchant = 1 ∷ [];
}

is_dropped : magic dropped ≡ some magic_reorg
unfolding magic
is_dropped = refl

not_seen : get (memory 2).checks (codes "mock", dropped) ≡ none
unfolding get
not_seen = refl

-- The second check, at which two confirmations would have made it final.
reorg_is_dropped_example :
    (sandbox_finality operated
      (record { reference = dropped; reported = none })
      dropped_settles
      (asked operated dropped dropped_settles 1 (memory 2))).0
    ≡ ok (reorg_answer operated dropped 2)
reorg_is_dropped_example =
    reorg_is_dropped operated dropped dropped_settles (memory 2) 1 is_dropped refl not_seen
      (omega arith) (omega arith)

memory_count_bounded_example :
    length (memory_count (codes "mock") dropped (memory 2)).1.checks
    ≤ (memory_count (codes "mock") dropped (memory 2)).1.capacity
memory_count_bounded_example = memory_count_bounded (codes "mock") dropped (memory 2) (omega arith)

instance abbrev native_json : CanonicalJson (NativeCart ℤ Json)
native_json = record { canonical_json = λ cart. ok cart.merchant }

abbrev native_cart : NativeCart ℤ Json
native_cart = record {
  merchant = codes "bigbasket.com";
  total = usd 40;
  category = none;
  items = [];
  attestation = none;
}

abbrev signed_cart : NativeCart ℤ Json
signed_cart = record native_cart {
  attestation = some (record { key_id = codes "bb"; signature = seed ++ codes "bigbasket.com" });
}

abbrev merchants : NativeCartAdapter
merchants = (codes "bb", seed) ∷ []

abbrev native_claims : ScopeClaims ℤ
native_claims = record {
  merchant = codes "bigbasket.com";
  total = usd 40;
  category = none;
  line_count = some 0;
}

plain_run :
    normalize_cart merchants (unsigned_cart native_cart)
    ≡ ok (new_cart (codes "bigbasket.com") native_claims unsigned)
unfolding normalize_cart new_cart lowercase_trimmed trim_start trim_end lower
    mandate_ledger.Text.len
plain_run = refl

signed_run :
    normalize_cart merchants signed_cart
    ≡ ok (new_cart (codes "bigbasket.com") native_claims (signed_by (codes "bb")))
unfolding normalize_cart new_cart lowercase_trimmed trim_start trim_end lower
    mandate_ledger.Text.len
signed_run = refl

sign_run : sign_cart native_cart (codes "bb") seed ≡ ok signed_cart
unfolding sign_cart
sign_run = refl

bb_known : get merchants (codes "bb") ≡ some seed
unfolding get
bb_known = refl

-- The cart that the merchant has signed.
normalize_cart-IsNativeCart_example :
    IsNativeCart merchants signed_cart
      (new_cart (codes "bigbasket.com") native_claims (signed_by (codes "bb")))
normalize_cart-IsNativeCart_example =
    normalize_cart-IsNativeCart merchants signed_cart
      (new_cart (codes "bigbasket.com") native_claims (signed_by (codes "bb"))) signed_run

normalize_cart-sign_cart_example :
    normalize_cart merchants signed_cart
    ≡ ok (
        new_cart
          (codes "bigbasket.com")
          (new_cart {Decimal = ℤ} (codes "bigbasket.com") native_claims unsigned).claims
          (signed_by (codes "bb")))
normalize_cart-sign_cart_example =
    normalize_cart-sign_cart merchants native_cart signed_cart (codes "bb") seed
      (codes "bigbasket.com") (new_cart (codes "bigbasket.com") native_claims unsigned) plain_run
      sign_run bb_known refl
