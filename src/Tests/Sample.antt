-- ===== src/Tests/Sample.antt =====
-- Concrete instances of what the model takes as parameters, and sample data.
use mandate_ledger.Prelude.{
  ℕ, ◌+◌, ◌≡◌, refl, true, not, ◌&&◌, List, [], ◌∷◌, ◌++◌, arith, none, some, ok, ◌==◌, ==_refl,
  list_eq, nat_eq,
}
use mandate_ledger.Prelude.Int.{ℤ, pos, ◌+ℤ◌, ◌-ℤ◌, compare_ℤ, beq_ℤ, ltb_ℤ}
use mandate_ledger.Text.{Text, Bytes}
use mandate_ledger.Hash.{Sha256, CanonicalJson}
use mandate_ledger.Ids.{ContextId, Hex}
use mandate_ledger.Money.{DecimalOps, DecimalLaws, DecimalSums, Money}
use mandate_ledger.Cart.{ScopeClaims, agent_reported, unsigned, Cart}
use mandate_ledger.State.{Authorized, Paid, Settled}
use mandate_ledger.Mandate.Pattern.{exact}
use mandate_ledger.Mandate.Scope.{Scope}
use mandate_ledger.Mandate.Body.{Ed25519, MandateBody, Mandate}
use mandate_ledger.Event.{Preimage, DeliveryReceipt}
use mandate_ledger.Evidence.{EvidenceBundle}
use mandate_ledger.Rail.{VerifiedProof, FinalityStatus, final_status, Rail}
use mandate_ledger.Ledger.Engine.{Ledger}
use mandate_ledger.Ledger.Session.{Request, authorize_it, pay_it, settle_it, deliver_it}

-- Whole cents.
instance abbrev pub cents : DecimalOps ℤ
cents = record {
  dec_zero = pos 0;
  dec_eq = beq_ℤ;
  dec_cmp = compare_ℤ;
  checked_add = λ a b. some (a +ℤ b);
  checked_sub = λ a b. some (a -ℤ b);
  is_sign_negative = λ a. ltb_ℤ a (pos 0);
  is_zero = λ a. beq_ℤ a (pos 0);
  from_str_exact = λ t. none;
  to_text = λ a. [];
}

pub negative_cents : (a : ℤ) → (ltb_ℤ a (pos 0) && not (beq_ℤ a (pos 0))) ≡ ltb_ℤ a (pos 0)
negative_cents a = ground arith

pub some_same : (a b : ℤ) → some a ≡ some b → b ≡ a
some_same a b h = ground arith

abbrev pub cents_laws : DecimalLaws ℤ
cents_laws = record {
  value = λ a. a;
  value_zero = refl;
  cmp_value = λ a b. refl;
  eq_value = λ a b. refl;
  negative_value = negative_cents;
}

-- Whole numbers, so that every sum is exact.
abbrev pub cents_sums : DecimalSums ℤ cents_laws
cents_sums = record {
  scale = λ a. 0;
  scale_zero = refl;
  add_value = λ p a b c small on_a on_b h. some_same (a +ℤ b) c h;
  sub_value = λ p a b c small on_a on_b h. some_same (a -ℤ b) c h;
}

abbrev sum : Bytes → ℕ
sum [] = 0
sum (b ∷ bs) = b + sum bs

instance abbrev pub sum_digest : Sha256
sum_digest = record { digest = λ bs. sum bs ∷ [] }

instance abbrev pub plain_hex : Hex
plain_hex = record { encode_hex = λ bs. bs }

instance abbrev pub preimage_json : CanonicalJson (Preimage ℤ)
preimage_json = record { canonical_json = λ p. ok (p.seq ∷ p.ctx) }

instance abbrev pub body_json : CanonicalJson (MandateBody ℤ)
body_json = record { canonical_json = λ b. ok b.id }

instance abbrev pub bundle_json : CanonicalJson (EvidenceBundle ℤ)
bundle_json = record { canonical_json = λ b. ok b.ctx }

pub sample_verifies : (seed message : Bytes) → ((seed ++ message) == (seed ++ message)) ≡ true
sample_verifies seed message = ==_refl (seed ++ message)

instance abbrev pub keyed_copy : Ed25519
keyed_copy = record {
  verifying_key = λ seed. seed;
  sign_bytes = λ seed message. seed ++ message;
  is_public_key = λ key. true;
  verify_strict = λ key message signature. signature == (key ++ message);
  key_is_valid = λ seed. refl;
  sign_verifies = sample_verifies;
}

abbrev pub usd : ℕ → Money ℤ
usd n = record { amount = pos n; currency = 85 ∷ 83 ∷ 68 ∷ [] }

abbrev pub sample_scope : ℕ → Scope ℤ
sample_scope total = record {
  merchants = exact (1 ∷ []) ∷ [];
  categories = none;
  currency = 85 ∷ 83 ∷ 68 ∷ [];
  max_per_txn = some (usd 60);
  max_total = some (usd total);
  valid_from = pos 0;
  valid_until = pos 1000;
  velocity = some (record { max_count = 2; window_secs = pos 100 });
  min_attestation = agent_reported;
}

abbrev pub sample_body : MandateBody ℤ
sample_body = record {
  id = 5 ∷ [];
  principal = 6 ∷ [];
  agent = 7 ∷ [];
  scope = sample_scope 100;
  issued_at = pos 0;
  parent = none;
}

abbrev pub seed : Bytes
seed = 9 ∷ []

abbrev pub mandate : Mandate ℤ
mandate = record { body = sample_body; signer = seed; signature = 9 ∷ 5 ∷ [] }

abbrev pub claims : ScopeClaims ℤ
claims = record { merchant = 1 ∷ []; total = usd 40; category = none; line_count = none }

abbrev pub cart : Cart ℤ
cart = record { hash = 3 ∷ []; claims = claims; attestation = unsigned; raw = [] }

abbrev pub request_key : Text
request_key = 2 ∷ []

-- The rail takes its proof as verified, and the finality status as it is given.
abbrev pub sample_rail : Rail ℤ (VerifiedProof ℤ) FinalityStatus
sample_rail = record { id = 8 ∷ []; verify_proof = λ p e. ok p; check_finality = λ f e. ok f }

abbrev pub engine : ℕ → Ledger ℤ (VerifiedProof ℤ) FinalityStatus
engine now = record {
  rail = sample_rail;
  signers = record { is_trusted = λ principal signer. signer == seed };
  now = pos now;
}

-- What `derive` makes of the sample mandate, cart and request key: "ctx_" and the digest.
abbrev pub ctx : ContextId
ctx = 99 ∷ 116 ∷ 120 ∷ 95 ∷ 72 ∷ []

abbrev pub proof : VerifiedProof ℤ
proof = record {
  reference = 11 ∷ [];
  nonce = 12 ∷ [];
  amount = usd 40;
  bound_ctx = some ctx;
  bound_cart = none;
  bound_merchant = some (1 ∷ []);
}

abbrev pub auth_token : Authorized ℤ
auth_token = record {
  ctx = ctx;
  mandate_id = 5 ∷ [];
  cart_hash = 3 ∷ [];
  merchant = 1 ∷ [];
  amount = usd 40;
}

abbrev pub paid_token : Paid
paid_token = record { ctx = ctx; rail = 8 ∷ []; reference = 11 ∷ []; idempotency_key = [] }

abbrev pub settled_token : Settled
settled_token = record { ctx = ctx; reference = 13 ∷ [] }

abbrev pub receipt : DeliveryReceipt
receipt = record { reference = 14 ∷ []; attestation = unsigned }

-- One purchase, from the authorization to the delivery.
abbrev pub purchase :
    List (Ledger ℤ (VerifiedProof ℤ) FinalityStatus × Request ℤ (VerifiedProof ℤ) FinalityStatus)
purchase =
    (engine 10, authorize_it mandate cart request_key)
    ∷ (engine 11, pay_it auth_token proof)
    ∷ (engine 12, settle_it paid_token (final_status (13 ∷ [])))
    ∷ (engine 13, deliver_it settled_token receipt)
    ∷ []
