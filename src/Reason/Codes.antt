-- ===== src/Reason/Codes.antt =====
-- The wire codes of the refusals (crates/ml-core/src/error.rs).
use mandate_ledger.Prelude.{◌≡◌, refl, some}
use mandate_ledger.Reason.{
  DenyReason, reason_code, reason_from_code, mandate_signature_invalid, mandate_signer_untrusted,
  mandate_not_yet_valid, mandate_expired, mandate_revoked, attestation_insufficient,
  scope_merchant_mismatch, scope_category_mismatch, unverifiable_scope, currency_mismatch,
  amount_invalid, scope_per_txn_exceeded, scope_total_exceeded, velocity_exceeded, invalid_state,
  context_not_found, context_mismatch, proof_invalid, amount_mismatch, unbound_proof,
  cart_binding_mismatch, context_binding_mismatch, merchant_binding_mismatch, nonce_already_used,
  finality_invalid, rail_mismatch,
}

-- Reading back the code of a reason gives the reason: no two reasons share a code.
pub reason_from_code-code : (r : DenyReason) → reason_from_code (reason_code r) ≡ some r
unfolding reason_code reason_from_code
reason_from_code-code mandate_signature_invalid = refl
reason_from_code-code mandate_signer_untrusted = refl
reason_from_code-code mandate_not_yet_valid = refl
reason_from_code-code mandate_expired = refl
reason_from_code-code mandate_revoked = refl
reason_from_code-code attestation_insufficient = refl
reason_from_code-code scope_merchant_mismatch = refl
reason_from_code-code scope_category_mismatch = refl
reason_from_code-code unverifiable_scope = refl
reason_from_code-code currency_mismatch = refl
reason_from_code-code amount_invalid = refl
reason_from_code-code scope_per_txn_exceeded = refl
reason_from_code-code scope_total_exceeded = refl
reason_from_code-code velocity_exceeded = refl
reason_from_code-code invalid_state = refl
reason_from_code-code context_not_found = refl
reason_from_code-code context_mismatch = refl
reason_from_code-code proof_invalid = refl
reason_from_code-code amount_mismatch = refl
reason_from_code-code unbound_proof = refl
reason_from_code-code cart_binding_mismatch = refl
reason_from_code-code context_binding_mismatch = refl
reason_from_code-code merchant_binding_mismatch = refl
reason_from_code-code nonce_already_used = refl
reason_from_code-code finality_invalid = refl
reason_from_code-code rail_mismatch = refl
