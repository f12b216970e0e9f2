-- ===== src/Tests/Engine.antt =====
-- The theorems on the engine at the sample data.
use mandate_ledger.Prelude.{
  ◌≡◌, refl, true, false, List, [], ◌∷◌, any, arith, none, some, ok, ◌==◌, list_eq, nat_eq, pair_eq,
}
use mandate_ledger.Prelude.Int.{ℤ, pos, ◌+ℤ◌}
use mandate_ledger.Prelude.Map.{get, insert}
use mandate_ledger.Ids.{derive}
use mandate_ledger.Time.{saturating_sub, saturating_sub_secs}
use mandate_ledger.Money.{is_negative, money_add, cmp_same_currency, ensure_same_currency}
use mandate_ledger.Mandate.Pattern.{pattern_matches}
use mandate_ledger.Text.{utf8}
use mandate_ledger.State.{Authorized, Paid}
use mandate_ledger.Cart.{level}
use mandate_ledger.Mandate.Scope.{validate, admits, admits_category, admits_amount}
use mandate_ledger.Mandate.Body.{verify, signing_bytes}
use mandate_ledger.Event.{snapshot, new_event, compute_hash}
use mandate_ledger.Store.Inner.{Inner, authorized_record, events_of, velocity_refusal}
use mandate_ledger.Store.Validate.{check_body, budget_refusal}
use mandate_ledger.Store.Memory.{memory_store, empty_store}
use mandate_ledger.Hash.{zero_hash, chain}
use mandate_ledger.Event.{Event, denied_event}
use mandate_ledger.Reason.{expiry, context_not_found}
use mandate_ledger.Mandate.Errors.{no_context}
use mandate_ledger.Evidence.{new_bundle, verify_bundle}
use mandate_ledger.Rail.{VerifiedProof, FinalityStatus}
use mandate_ledger.Store.Interface.{Record}
use mandate_ledger.Store.Commit.{
  append, last_hash, next_event, commit, apply_reserve, update_record,
}
use mandate_ledger.Store.Reach.{here}
use mandate_ledger.Ledger.Authorize.{authorization, first_authorize, authorize_cart}
use mandate_ledger.Ledger.Payment.{record_payment, expectation}
use mandate_ledger.Ledger.Admission.{authorized_is_admitted}
use mandate_ledger.Ledger.Retry.{authorize_repeats}
use mandate_ledger.Ledger.Binding.{IsBound, paid-IsBound}
use mandate_ledger.State.{paid}
use mandate_ledger.Ledger.Tokens.{idempotency_key}
use mandate_ledger.Ledger.Session.{Request, expire_it, session, evidence_verifies}
use mandate_ledger.Ledger.Engine.{Ledger, evidence}
use mandate_ledger.Tests.Purchase.{shop, basket, store_1, store_4}
use mandate_ledger.Tests.Sample.{
  cents_laws, cents, sum_digest, plain_hex, keyed_copy, preimage_json, body_json, sample_rail, ctx,
  mandate, cart, request_key, usd, engine, proof,
}

abbrev token : Authorized ℤ
token = record {
  ctx = ctx;
  mandate_id = 5 ∷ [];
  cart_hash = 3 ∷ [];
  merchant = 1 ∷ [];
  amount = usd 40;
}

abbrev fresh : Inner ℤ
fresh = empty_store

first_time : get fresh.records (derive mandate.body.id cart.hash request_key) ≡ none
unfolding get
first_time = refl

authorized_run : (authorize_cart (engine 10) mandate cart request_key fresh).0 ≡ ok token
unfolding authorize_cart first_authorize authorization get insert verify signing_bytes validate
    is_negative admits level pattern_matches admits_category admits_amount append check_body
    budget_refusal velocity_refusal money_add cmp_same_currency ensure_same_currency snapshot ◌+ℤ◌
    saturating_sub saturating_sub_secs next_event new_event compute_hash events_of last_hash
    zero_hash chain commit apply_reserve update_record derive utf8
authorized_run = refl

authorized_is_admitted_example :
    (verify mandate ≡ ok tt)
    × ((mandate.signer == (9 ∷ [])) ≡ true)
    × (any (λ m. m == mandate.body.id) fresh.revoked_ids ≡ false)
    × (admits mandate.body.scope cart.claims cart.attestation (pos 10) ≡ ok tt)
    × (token.ctx ≡ derive mandate.body.id cart.hash request_key)
    × (get (authorize_cart (engine 10) mandate cart request_key fresh).1.records token.ctx
        ≡ some (authorized_record token.ctx mandate.body.id (snapshot cart)))
authorized_is_admitted_example =
    authorized_is_admitted (engine 10) mandate cart request_key fresh first_time authorized_run

abbrev shop_token : Authorized ℤ
shop_token = record token { ctx = shop }

abbrev shop_proof : VerifiedProof ℤ
shop_proof = record proof { bound_ctx = some shop }

abbrev shop_record : Record ℤ
shop_record = authorized_record shop (5 ∷ []) basket

paid_run :
    (record_payment (engine 11) shop_token shop_proof store_1).0
    ≡ ok (record { ctx = shop; rail = 8 ∷ []; reference = 11 ∷ []; idempotency_key = 86 ∷ [] })
unfolding record_payment get mandate_ledger.Ledger.Payment.bind_payment
    mandate_ledger.Ledger.Payment.check_proof_binding mandate_ledger.Money.money_eq
    mandate_ledger.Store.Commit.append mandate_ledger.Store.Validate.check_body
    mandate_ledger.State.can_transition_to mandate_ledger.Store.Commit.next_event
    mandate_ledger.Event.new_event mandate_ledger.Event.compute_hash
    mandate_ledger.Store.Commit.commit mandate_ledger.Ledger.Tokens.idempotency_key
    mandate_ledger.Hash.hash_of utf8
paid_run = refl

paid-IsBound_example :
    (v : VerifiedProof ℤ) × (sample_rail.verify_proof shop_proof (expectation shop shop_record)
      ≡ ok v)
    × IsBound shop shop_record v
    × (get (record_payment (engine 11) shop_token shop_proof store_1).1.records shop
        ≡ some (record shop_record {
          state = paid;
          rail = some (8 ∷ []);
          payment_reference = some v.reference;
          idempotency_key = some (idempotency_key shop (8 ∷ []) v.nonce);
        }))
    × (get (record_payment (engine 11) shop_token shop_proof store_1).1.nonces (8 ∷ [], v.nonce)
        ≡ some shop)
unfolding get
paid-IsBound_example =
    paid-IsBound (engine 11) shop_token shop_proof store_1 shop_record refl refl paid_run

-- After the purchase the engine gives evidence.
evidence_run :
    (evidence (pos 20) shop store_4).0 ≡ ok (some (new_bundle shop (pos 20) store_4.events))
unfolding evidence mandate_ledger.Store.Inner.events_of get
evidence_run = refl

-- Before anything has happened there is a first event to give evidence of: a refusal.
abbrev early :
    List (Ledger ℤ (VerifiedProof ℤ) FinalityStatus × Request ℤ (VerifiedProof ℤ) FinalityStatus)
early = (engine 10, expire_it shop_token) ∷ []

abbrev refusal : Event ℤ
refusal = record {
  seq = 1;
  ctx = shop;
  at = pos 10;
  prev_hash = zero_hash;
  hash = 5 ∷ [];
  body = denied_event expiry context_not_found (no_context shop);
}

early_run :
    (evidence (pos 20) shop (session early fresh)).0
    ≡ ok (some (new_bundle shop (pos 20) (refusal ∷ [])))
unfolding evidence mandate_ledger.Store.Inner.events_of get session
    mandate_ledger.Ledger.Finish.expire mandate_ledger.Ledger.Engine.state
    mandate_ledger.Ledger.Engine.deny mandate_ledger.Store.Commit.append
    mandate_ledger.Store.Validate.check_body mandate_ledger.Store.Inner.denial_count
    mandate_ledger.Store.Commit.next_event mandate_ledger.Event.new_event
    mandate_ledger.Event.compute_hash mandate_ledger.Store.Commit.commit insert
    mandate_ledger.Store.Commit.apply_reserve zero_hash mandate_ledger.Store.Commit.last_hash
    mandate_ledger.Hash.chain
early_run = refl

evidence_verifies_example :
    ((new_bundle shop (pos 20) (refusal ∷ [])).ctx ≡ shop)
    × (verify_bundle (new_bundle shop (pos 20) (refusal ∷ [])) ≡ ok tt)
evidence_verifies_example = evidence_verifies early (pos 20) shop (omega arith) early_run

authorize_repeats_example :
    authorize_cart
      (engine 30)
      mandate
      cart
      request_key
      (authorize_cart (engine 10) mandate cart request_key fresh).1
    ≡ (ok token, (authorize_cart (engine 10) mandate cart request_key fresh).1)
authorize_repeats_example =
    authorize_repeats cents_laws (engine 10) (engine 30) mandate cart request_key here first_time
      authorized_run
