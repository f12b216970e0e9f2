-- ===== src/Mandate/Body.antt =====
-- Mandate bodies, their signature, and who may sign (crates/ml-core/src/mandate.rs). Ed25519 is
-- third-party code (`ed25519_dalek`) and enters as a parameter.
use mandate_ledger.Prelude.{
  Bool, true, false, not, ◌&&◌, List, [], ◌∷◌, ◌++◌, Option, none, some, nat_beq, ◌≡◌, any, Result,
  ok, ◌>>=◌, ◌>>◌, map_err, ◌==◌, list_eq, nat_eq, option_eq, int_eq,
}
use mandate_ledger.Prelude.Map.{Map, get, insert, get_or}
use mandate_ledger.Text.{Bytes}
use mandate_ledger.Hash.{CanonicalJson, CanonicalizeError}
use mandate_ledger.Time.{Timestamp}
use mandate_ledger.Ids.{MandateId, PrincipalId, AgentId}
use mandate_ledger.Money.{DecimalOps, money_eq}
use mandate_ledger.Cart.{rank}
use mandate_ledger.Mandate.Errors.{
  MandateError, not_subset, bad_signer_key, signature_invalid, canonicalize,
}
use mandate_ledger.Mandate.Pattern.{pattern_eq}
use mandate_ledger.Mandate.Scope.{Scope, Velocity, validate, scope_subset, refuse_if}

-- `ed25519_dalek`: a seed's public key and signatures, and the strict verification. A verified
-- message is what the seed signed.
pub record Ed25519 : Type 0 where
  pub verifying_key : Bytes → Bytes
  pub sign_bytes : Bytes → Bytes → Bytes
  pub is_public_key : Bytes → Bool
  pub verify_strict : Bytes → Bytes → Bytes → Bool
  pub key_is_valid : (seed : Bytes) → is_public_key (verifying_key seed) ≡ true
  pub sign_verifies :
      (seed message : Bytes)
      → verify_strict (verifying_key seed) message (sign_bytes seed message) ≡ true

pub record MandateBody (Decimal : Type 0) : Type 0 where
  pub id : MandateId
  pub principal : PrincipalId
  pub agent : AgentId
  pub scope : Scope Decimal
  pub issued_at : Timestamp
  pub parent : Option MandateId

pub record Mandate (Decimal : Type 0) : Type 0 where
  pub body : MandateBody Decimal
  pub signer : Bytes
  pub signature : Bytes

abbrev pub list_eq_by : {A : Type 0} → (A → A → Bool) → List A → List A → Bool
list_eq_by f [] [] = true
list_eq_by f (x ∷ xs) (y ∷ ys) = f x y && list_eq_by f xs ys
list_eq_by f _ _ = false

abbrev pub option_eq_by : {A : Type 0} → (A → A → Bool) → Option A → Option A → Bool
option_eq_by f none none = true
option_eq_by f (some x) (some y) = f x y
option_eq_by f _ _ = false

abbrev pub velocity_eq : Velocity → Velocity → Bool
velocity_eq a b = nat_beq a.max_count b.max_count && a.window_secs == b.window_secs

module _ {Decimal : Type 0} ⦃ops : DecimalOps Decimal⦄ where
  -- The derived `PartialEq`s, field by field.
  unfoldable pub scope_eq : Scope Decimal → Scope Decimal → Bool
  scope_eq a b =
      list_eq_by pattern_eq a.merchants b.merchants
      && (a.categories == b.categories
          && (a.currency == b.currency
              && (option_eq_by money_eq a.max_per_txn b.max_per_txn
                  && (option_eq_by money_eq a.max_total b.max_total
                      && (a.valid_from == b.valid_from
                          && (a.valid_until == b.valid_until
                              && (option_eq_by velocity_eq a.velocity b.velocity
                                  && nat_beq (rank a.min_attestation)
                                      (rank b.min_attestation))))))))

  unfoldable pub body_eq : MandateBody Decimal → MandateBody Decimal → Bool
  body_eq a b =
      a.id == b.id
      && (a.principal == b.principal
          && (a.agent == b.agent
              && (scope_eq a.scope b.scope
                  && (a.issued_at == b.issued_at && a.parent == b.parent))))

  -- `MandateBody::attenuate`
  unfoldable pub attenuate :
      MandateBody Decimal
      → MandateId
      → AgentId
      → Scope Decimal
      → Timestamp
      → Result MandateError (MandateBody Decimal)
  attenuate self id agent scope issued_at =
      validate scope
      >> (refuse_if (not (scope_subset scope self.scope)) (not_subset id)
          >> ok (record {
            id = id;
            principal = self.principal;
            agent = agent;
            scope = scope;
            issued_at = issued_at;
            parent = some self.id;
          }))

  module _ ⦃ed : Ed25519⦄ ⦃json : CanonicalJson (MandateBody Decimal)⦄ where
    -- `MandateBody::signing_bytes`
    unfoldable pub signing_bytes : MandateBody Decimal → Result CanonicalizeError Bytes
    signing_bytes body = json.canonical_json body

    -- `Mandate::sign`
    unfoldable pub sign : MandateBody Decimal → Bytes → Result MandateError (Mandate Decimal)
    unfolding signing_bytes
    sign body seed =
        validate body.scope
        >> (map_err canonicalize (signing_bytes body) >>= λ bytes. ok (record {
          body = body;
          signer = ed.verifying_key seed;
          signature = ed.sign_bytes seed bytes;
        }))

    -- `Mandate::verify`
    unfoldable pub verify : Mandate Decimal → Result MandateError (Unit {0})
    unfolding signing_bytes
    verify m =
        validate m.body.scope
        >> (refuse_if (not (ed.is_public_key m.signer)) bad_signer_key
            >> (map_err canonicalize (signing_bytes m.body) >>= λ bytes.
                refuse_if (not (ed.verify_strict m.signer bytes m.signature)) signature_invalid))

-- `trait SignerPolicy`
pub record SignerPolicy : Type 0 where
  pub is_trusted : PrincipalId → Bytes → Bool

-- `TrustedSigners`
pub record TrustedSigners : Type 0 where
  pub keys : Map PrincipalId (List Bytes)

abbrev pub no_signers : TrustedSigners
no_signers = record { keys = [] }

-- `TrustedSigners::allow`
unfoldable pub allow : TrustedSigners → PrincipalId → Bytes → TrustedSigners
allow self principal key = record {
  keys = insert self.keys principal (get_or [] (get self.keys principal) ++ key ∷ []);
}

-- `SignerPolicy for TrustedSigners`
unfoldable pub trusted : TrustedSigners → SignerPolicy
trusted self = record {
  is_trusted = λ principal signer. elim (get self.keys principal) [
    | none ↦ false
    | some keys ↦ any (λ k. k == signer) keys
  ];
}

-- `AcceptAnySigner`
unfoldable pub accept_any_signer : SignerPolicy
accept_any_signer = record { is_trusted = λ principal signer. true }
