-- ===== src/Tests/Components.antt =====
-- The theorems on mandates, evidence and the lifecycle at the sample data.
use mandate_ledger.Prelude.{◌≡◌, refl, true, false, [], ◌∷◌, some, ok, ◌↔◌}
use mandate_ledger.Prelude.Int.{ℤ, pos}
use mandate_ledger.Reason.{reason_code, reason_from_code, rail_mismatch}
use mandate_ledger.Reason.Codes.{reason_from_code-code}
use mandate_ledger.State.{PaymentState, expired, can_transition_to, is_terminal}
use mandate_ledger.State.Machine.{is_terminal_iff}
use mandate_ledger.Cart.{ScopeClaims, Attestation, unsigned}
use mandate_ledger.Time.{Timestamp}
use mandate_ledger.Mandate.Scope.{admits, scope_subset, validate}
use mandate_ledger.Mandate.Body.{MandateBody, attenuate, sign, verify}
use mandate_ledger.Mandate.Delegation.{scope_subset_sound, attenuate_sound, verify-sign}
use mandate_ledger.Evidence.{
  EvidenceBundle, SignedEvidence, verify_bundle, verify_signed, sign_bundle,
}
use mandate_ledger.Evidence.Signed.{verify_signed-sign}
use mandate_ledger.Tests.Sample.{
  cents, cents_laws, sum_digest, keyed_copy, preimage_json, body_json, bundle_json, sample_scope,
  sample_body, seed, mandate, claims,
}

is_terminal_iff_example :
    (is_terminal expired ≡ true) ↔ ((t : PaymentState) → can_transition_to expired t ≡ false)
is_terminal_iff_example = is_terminal_iff expired

reason_from_code-code_example : reason_from_code (reason_code rail_mismatch) ≡ some rail_mismatch
reason_from_code-code_example = reason_from_code-code rail_mismatch

narrower : scope_subset (sample_scope 50) (sample_scope 100) ≡ true
unfolding scope_subset mandate_ledger.Mandate.Pattern.pattern_subset
narrower = refl

sample_admitted : admits (sample_scope 50) claims unsigned (pos 10) ≡ ok tt
unfolding admits mandate_ledger.Cart.level mandate_ledger.Mandate.Pattern.pattern_matches
    mandate_ledger.Mandate.Scope.admits_category mandate_ledger.Money.is_negative
    mandate_ledger.Mandate.Scope.admits_amount
sample_admitted = refl

scope_subset_sound_example : admits (sample_scope 100) claims unsigned (pos 10) ≡ ok tt
scope_subset_sound_example =
    scope_subset_sound cents_laws (sample_scope 50) (sample_scope 100) claims unsigned (pos 10)
      narrower sample_admitted

abbrev sample_child : MandateBody ℤ
sample_child = record {
  id = 15 ∷ [];
  principal = 6 ∷ [];
  agent = 16 ∷ [];
  scope = sample_scope 50;
  issued_at = pos 1;
  parent = some (5 ∷ []);
}

attenuated : attenuate sample_body (15 ∷ []) (16 ∷ []) (sample_scope 50) (pos 1) ≡ ok sample_child
unfolding attenuate validate mandate_ledger.Money.is_negative scope_subset
    mandate_ledger.Mandate.Pattern.pattern_subset
attenuated = refl

attenuate_sound_example :
    (sample_child.parent ≡ some (5 ∷ []))
    × (sample_child.principal ≡ 6 ∷ [])
    × (validate (sample_scope 50) ≡ ok tt)
    × ((c : ScopeClaims ℤ) (attestation : Attestation) (now : Timestamp)
        → admits (sample_scope 50) c attestation now ≡ ok tt
        → admits (sample_scope 100) c attestation now ≡ ok tt)
attenuate_sound_example =
    attenuate_sound cents_laws sample_body (15 ∷ []) (16 ∷ []) (sample_scope 50) (pos 1) attenuated

signed : sign sample_body seed ≡ ok mandate
unfolding sign validate mandate_ledger.Money.is_negative
signed = refl

verify-sign_example : verify mandate ≡ ok tt
verify-sign_example = verify-sign sample_body seed signed

abbrev empty_bundle : EvidenceBundle ℤ
empty_bundle = record { version = 1; ctx = 4 ∷ []; generated_at = pos 0; events = [] }

abbrev signed_bundle : SignedEvidence ℤ
signed_bundle = record { bundle = empty_bundle; signer = seed; signature = 9 ∷ 4 ∷ [] }

bundle_signed : sign_bundle empty_bundle seed ≡ ok signed_bundle
unfolding sign_bundle
bundle_signed = refl

verify_signed-sign_example : verify_signed signed_bundle ≡ verify_bundle empty_bundle
verify_signed-sign_example = verify_signed-sign empty_bundle seed bundle_signed
