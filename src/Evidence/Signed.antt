-- ===== src/Evidence/Signed.antt =====
-- Signed evidence (crates/ml-core/src/evidence.rs).
use mandate_ledger.Prelude.{◌≡◌, Result, ok, Result-cases, arith, inl, inr, ◌>>◌}
use mandate_ledger.Text.{Bytes}
use mandate_ledger.Hash.{Sha256, CanonicalJson}
use mandate_ledger.Event.{Preimage}
use mandate_ledger.Mandate.Body.{Ed25519}
use mandate_ledger.Evidence.{
  EvidenceBundle, verify_bundle, SignedEvidence, sign_bundle, verify_signed,
}

only_bundle : {E : Type 0} (r : Result E (Unit {0})) → (r >> ok tt) ≡ r
only_bundle r = ground arith

module _ {Decimal : Type 0} ⦃sha : Sha256⦄ ⦃ed : Ed25519⦄ ⦃json : CanonicalJson (Preimage Decimal)⦄
    ⦃bundle_json : CanonicalJson (EvidenceBundle Decimal)⦄ where
  -- A bundle that was signed verifies with its signature exactly when it verifies without: `verify`
  -- of the signed bundle returns what `verify` of the bundle returns, error or not.
  pub verify_signed-sign :
      (b : EvidenceBundle Decimal) (seed : Bytes) {s : SignedEvidence Decimal}
      → sign_bundle b seed ≡ ok s
      → verify_signed s ≡ verify_bundle b
  unfolding sign_bundle verify_signed
  verify_signed-sign b seed {s} h = elim (Result-cases (bundle_json.canonical_json b)) [
    | inr (failure, e) ↦ absurd (ground arith)
    | inl (bytes, e) ↦
        let same : s.bundle ≡ b = ground arith in
        let signer : s.signer ≡ ed.verifying_key seed = ground arith in
        let signature : s.signature ≡ ed.sign_bytes seed bytes = ground arith in
        rw (same, signer, signature, ed.key_is_valid seed, e, ed.sign_verifies seed bytes)
          (only_bundle (verify_bundle b))
  ]
