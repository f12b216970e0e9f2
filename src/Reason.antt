-- ===== src/Reason.antt =====
-- Denial reasons and the engine's stages (crates/ml-core/src/error.rs, event.rs).
pub mod Codes
use mandate_ledger.Prelude.{Option, none, some, if◌then◌else◌, ◌==◌, list_eq, nat_eq}
use mandate_ledger.Text.{Text, codes}

-- `enum DenyReason`, from the macro `deny_reasons!`.
pub data DenyReason : Type 0 where
  mandate_signature_invalid mandate_signer_untrusted mandate_not_yet_valid mandate_expired
        mandate_revoked attestation_insufficient scope_merchant_mismatch scope_category_mismatch
        unverifiable_scope currency_mismatch amount_invalid scope_per_txn_exceeded
        scope_total_exceeded velocity_exceeded invalid_state context_not_found context_mismatch
        proof_invalid amount_mismatch unbound_proof cart_binding_mismatch context_binding_mismatch
        merchant_binding_mismatch nonce_already_used finality_invalid rail_mismatch :
      DenyReason

-- `DenyReason::code`
unfoldable pub reason_code : DenyReason → Text
reason_code mandate_signature_invalid = codes "MANDATE_SIGNATURE_INVALID"
reason_code mandate_signer_untrusted = codes "MANDATE_SIGNER_UNTRUSTED"
reason_code mandate_not_yet_valid = codes "MANDATE_NOT_YET_VALID"
reason_code mandate_expired = codes "MANDATE_EXPIRED"
reason_code mandate_revoked = codes "MANDATE_REVOKED"
reason_code attestation_insufficient = codes "ATTESTATION_INSUFFICIENT"
reason_code scope_merchant_mismatch = codes "SCOPE_MERCHANT_MISMATCH"
reason_code scope_category_mismatch = codes "SCOPE_CATEGORY_MISMATCH"
reason_code unverifiable_scope = codes "UNVERIFIABLE_SCOPE"
reason_code currency_mismatch = codes "CURRENCY_MISMATCH"
reason_code amount_invalid = codes "AMOUNT_INVALID"
reason_code scope_per_txn_exceeded = codes "SCOPE_PER_TXN_EXCEEDED"
reason_code scope_total_exceeded = codes "SCOPE_TOTAL_EXCEEDED"
reason_code velocity_exceeded = codes "VELOCITY_EXCEEDED"
reason_code invalid_state = codes "INVALID_STATE"
reason_code context_not_found = codes "CONTEXT_NOT_FOUND"
reason_code context_mismatch = codes "CONTEXT_MISMATCH"
reason_code proof_invalid = codes "PROOF_INVALID"
reason_code amount_mismatch = codes "AMOUNT_MISMATCH"
reason_code unbound_proof = codes "UNBOUND_PROOF"
reason_code cart_binding_mismatch = codes "CART_BINDING_MISMATCH"
reason_code context_binding_mismatch = codes "CONTEXT_BINDING_MISMATCH"
reason_code merchant_binding_mismatch = codes "MERCHANT_BINDING_MISMATCH"
reason_code nonce_already_used = codes "NONCE_ALREADY_USED"
reason_code finality_invalid = codes "FINALITY_INVALID"
reason_code rail_mismatch = codes "RAIL_MISMATCH"

-- `DenyReason::from_code`
unfoldable pub reason_from_code : Text → Option DenyReason
reason_from_code code =
    if code == codes "MANDATE_SIGNATURE_INVALID"
    then some mandate_signature_invalid
    else if code == codes "MANDATE_SIGNER_UNTRUSTED"
    then some mandate_signer_untrusted
    else if code == codes "MANDATE_NOT_YET_VALID"
    then some mandate_not_yet_valid
    else if code == codes "MANDATE_EXPIRED"
    then some mandate_expired
    else if code == codes "MANDATE_REVOKED"
    then some mandate_revoked
    else if code == codes "ATTESTATION_INSUFFICIENT"
    then some attestation_insufficient
    else if code == codes "SCOPE_MERCHANT_MISMATCH"
    then some scope_merchant_mismatch
    else if code == codes "SCOPE_CATEGORY_MISMATCH"
    then some scope_category_mismatch
    else if code == codes "UNVERIFIABLE_SCOPE"
    then some unverifiable_scope
    else if code == codes "CURRENCY_MISMATCH"
    then some currency_mismatch
    else if code == codes "AMOUNT_INVALID"
    then some amount_invalid
    else if code == codes "SCOPE_PER_TXN_EXCEEDED"
    then some scope_per_txn_exceeded
    else if code == codes "SCOPE_TOTAL_EXCEEDED"
    then some scope_total_exceeded
    else if code == codes "VELOCITY_EXCEEDED"
    then some velocity_exceeded
    else if code == codes "INVALID_STATE"
    then some invalid_state
    else if code == codes "CONTEXT_NOT_FOUND"
    then some context_not_found
    else if code == codes "CONTEXT_MISMATCH"
    then some context_mismatch
    else if code == codes "PROOF_INVALID"
    then some proof_invalid
    else if code == codes "AMOUNT_MISMATCH"
    then some amount_mismatch
    else if code == codes "UNBOUND_PROOF"
    then some unbound_proof
    else if code == codes "CART_BINDING_MISMATCH"
    then some cart_binding_mismatch
    else if code == codes "CONTEXT_BINDING_MISMATCH"
    then some context_binding_mismatch
    else if code == codes "MERCHANT_BINDING_MISMATCH"
    then some merchant_binding_mismatch
    else if code == codes "NONCE_ALREADY_USED"
    then some nonce_already_used
    else if code == codes "FINALITY_INVALID"
    then some finality_invalid
    else if code == codes "RAIL_MISMATCH"
    then some rail_mismatch
    else none

-- `enum Stage`
pub data Stage : Type 0 where
  authorize payment settlement compensation delivery expiry : Stage

-- `Display for Stage`
unfoldable pub display_stage : Stage → Text
display_stage authorize = codes "authorize"
display_stage payment = codes "payment"
display_stage settlement = codes "settlement"
display_stage compensation = codes "compensation"
display_stage delivery = codes "delivery"
display_stage expiry = codes "expiry"
