-- ===== src/Mandate/Delegation.antt =====
-- Delegation: a scope that is a subset of another admits no more (crates/ml-core/src/mandate.rs).
use mandate_ledger.Prelude.{
  ◌≡◌, refl, true, false, arith, Option, none, some, inl, inr, ok, Result-cases, any, all, ltb, leb,
  Bool-cases, ◌==◌, ==_eq, eq_==, list_eq, nat_eq, ◌∙◌,
}
use mandate_ledger.Prelude.Int.{◌≤ℤ◌, leb_ℤ, ltb_ℤ}
use mandate_ledger.Text.{Bytes}
use mandate_ledger.Time.{Timestamp}
use mandate_ledger.Ids.{MandateId, AgentId}
use mandate_ledger.Money.{
  DecimalOps, DecimalLaws, Money, is_negative, cmp_same_currency, ensure_same_currency,
}
use mandate_ledger.Cart.{ScopeClaims, Attestation, rank, level}
use mandate_ledger.Hash.{CanonicalJson}
use mandate_ledger.Mandate.Pattern.{pattern_matches, pattern_subset}
use mandate_ledger.Mandate.Scope.{
  Scope, admits, admits_category, admits_amount, cap_within, categories_within, velocity_within,
  scope_subset, validate,
}
use mandate_ledger.Mandate.Body.{
  Ed25519, MandateBody, Mandate, attenuate, signing_bytes, sign, verify,
}
use mandate_ledger.Mandate.Narrowing.{merchants_within, category_within_sound}

module _ {Decimal : Type 0} ⦃ops : DecimalOps Decimal⦄ where
  -- The eight checks of `admits`.
  pub record Admitted (s : Scope Decimal) (claims : ScopeClaims Decimal) (attestation : Attestation)
      (now : Timestamp) : Type 0 where
    pub started : ltb_ℤ now s.valid_from ≡ false
    pub running : ltb_ℤ s.valid_until now ≡ false
    pub attested : ltb (rank (level attestation)) (rank s.min_attestation) ≡ false
    pub merchant : any (λ p. pattern_matches p claims.merchant) s.merchants ≡ true
    pub category : admits_category {Decimal = Decimal} s.categories claims.category ≡ ok tt
    pub currency : (claims.total.currency == s.currency) ≡ true
    pub positive : is_negative claims.total ≡ false
    pub amount : admits_amount s.max_per_txn claims.total ≡ ok tt

  pub admits-Admitted :
      (s : Scope Decimal) (claims : ScopeClaims Decimal) (attestation : Attestation)
      (now : Timestamp)
      → admits s claims attestation now ≡ ok tt
      → Admitted s claims attestation now
  unfolding admits
  admits-Admitted s claims attestation now h = ground arith

  admits_of :
      (s : Scope Decimal) (claims : ScopeClaims Decimal) (attestation : Attestation)
      (now : Timestamp)
      → Admitted s claims attestation now
      → admits s claims attestation now ≡ ok tt
  unfolding admits
  admits_of s claims attestation now a =
      rw
        (a.started, a.running, a.attested, a.merchant, a.category, a.currency, a.positive, a.amount)
        refl

  -- The nine checks of `is_subset_of`.
  pub record SubScope (child parent : Scope Decimal) : Type 0 where
    pub currency : (child.currency == parent.currency) ≡ true
    pub merchants : all (λ c. any (pattern_subset c) parent.merchants) child.merchants ≡ true
    pub categories : categories_within child.categories parent.categories ≡ true
    pub per_txn : cap_within child.max_per_txn parent.max_per_txn ≡ true
    pub total : cap_within child.max_total parent.max_total ≡ true
    pub from : leb_ℤ parent.valid_from child.valid_from ≡ true
    pub until : leb_ℤ child.valid_until parent.valid_until ≡ true
    pub velocity : velocity_within child.velocity parent.velocity ≡ true
    pub attestation : leb (rank parent.min_attestation) (rank child.min_attestation) ≡ true

  pub subset-SubScope :
      (child parent : Scope Decimal) → scope_subset child parent ≡ true → SubScope child parent
  unfolding scope_subset
  subset-SubScope child parent h = ground arith

  -- What `attenuate` has checked.
  record Attenuated (self : MandateBody Decimal) (scope : Scope Decimal)
      (child : MandateBody Decimal) : Type 0 where
    pub parent : child.parent ≡ some self.id
    pub principal : child.principal ≡ self.principal
    pub scope_kept : child.scope ≡ scope
    pub valid : validate scope ≡ ok tt
    pub within : scope_subset scope self.scope ≡ true

  attenuate-made :
      (self : MandateBody Decimal) (id : MandateId) (agent : AgentId) (scope : Scope Decimal)
      (issued_at : Timestamp) {child : MandateBody Decimal}
      → attenuate self id agent scope issued_at ≡ ok child
      → Attenuated self scope child
  unfolding attenuate
  attenuate-made self id agent scope issued_at h = ground arith

  -- What `sign` signs, `verify` accepts.
  pub verify-sign :
      ⦃ed : Ed25519⦄ ⦃json : CanonicalJson (MandateBody Decimal)⦄ (body : MandateBody Decimal)
      (seed : Bytes) {m : Mandate Decimal}
      → sign body seed ≡ ok m
      → verify m ≡ ok tt
  unfolding sign verify signing_bytes
  verify-sign ⦃ed⦄ ⦃json⦄ body seed {m} h = elim (Result-cases (json.canonical_json body)) [
    | inr (failure, e) ↦ absurd (ground arith)
    | inl (bytes, e) ↦
        let valid : validate body.scope ≡ ok tt = ground arith in
        let same : m.body ≡ body = ground arith in
        let signer : m.signer ≡ ed.verifying_key seed = ground arith in
        let signature : m.signature ≡ ed.sign_bytes seed bytes = ground arith in
        rw (same, signer, signature, valid, e, ed.key_is_valid seed, ed.sign_verifies seed bytes)
          refl
  ]

  module _ (laws : DecimalLaws Decimal) where
    within_cap :
        (cap total : Money Decimal)
        → admits_amount (some cap) total ≡ ok tt
        → (total.currency ≡ cap.currency) × (laws.value total.amount ≤ℤ laws.value cap.amount)
    unfolding admits_amount cmp_same_currency ensure_same_currency
    within_cap cap total k = elim (Bool-cases (total.currency == cap.currency)) [
      | inr other ↦ absurd (ground arith)
      | inl same ↦ (==_eq _ _ same, ground (arith, laws.cmp_value total.amount cap.amount))
    ]

    under_cap :
        (cap total : Money Decimal)
        → total.currency ≡ cap.currency
        → laws.value total.amount ≤ℤ laws.value cap.amount
        → admits_amount (some cap) total ≡ ok tt
    unfolding admits_amount cmp_same_currency ensure_same_currency
    under_cap cap total same below =
        rw (eq_== _ _ same, laws.cmp_value total.amount cap.amount) (ground arith)

    lower_cap :
        (c p : Money Decimal)
        → cap_within (some c) (some p) ≡ true
        → (c.currency ≡ p.currency) × (laws.value c.amount ≤ℤ laws.value p.amount)
    unfolding cap_within cmp_same_currency ensure_same_currency
    lower_cap c p k = elim (Bool-cases (c.currency == p.currency)) [
      | inr other ↦ absurd (ground arith)
      | inl same ↦ (==_eq _ _ same, ground (arith, laws.cmp_value c.amount p.amount))
    ]

    cap_within_sound :
        (c p : Option (Money Decimal)) (total : Money Decimal)
        → cap_within c p ≡ true
        → admits_amount c total ≡ ok tt
        → admits_amount p total ≡ ok tt
    unfolding cap_within admits_amount
    cap_within_sound c none total h k = refl
    cap_within_sound none (some p) total h k = cc
    cap_within_sound (some c) (some p) total h k =
        let a = within_cap c total k in
        let b = lower_cap c p h in under_cap p total (a.0 ∙ b.0) (omega (arith, a.1, b.1))

    Admitted-within :
        (child parent : Scope Decimal) (claims : ScopeClaims Decimal) (attestation : Attestation)
        (now : Timestamp)
        → SubScope child parent
        → Admitted child claims attestation now
        → Admitted parent claims attestation now
    Admitted-within child parent claims attestation now w a = record {
      started = ground (arith, a.started, w.from);
      running = ground (arith, a.running, w.until);
      attested = ground (arith, a.attested, w.attestation);
      merchant =
          merchants_within child.merchants parent.merchants claims.merchant w.merchants a.merchant;
      category =
          category_within_sound child.categories parent.categories claims.category w.categories
            a.category;
      currency = eq_== claims.total.currency parent.currency (
          ==_eq claims.total.currency child.currency a.currency
          ∙ ==_eq child.currency parent.currency w.currency);
      positive = a.positive;
      amount =
          cap_within_sound child.max_per_txn parent.max_per_txn claims.total w.per_txn a.amount;
    }

    -- Delegation only narrows: what a subset of a scope admits, the scope itself admits, at every
    -- moment and for every attestation, where the decimals obey their laws.
    pub scope_subset_sound :
        (child parent : Scope Decimal) (claims : ScopeClaims Decimal) (attestation : Attestation)
        (now : Timestamp)
        → scope_subset child parent ≡ true
        → admits child claims attestation now ≡ ok tt
        → admits parent claims attestation now ≡ ok tt
    scope_subset_sound child parent claims attestation now h k =
        admits_of parent claims attestation now (
          Admitted-within child parent claims attestation now (subset-SubScope child parent h)
            (admits-Admitted child claims attestation now k))

    -- A body that `attenuate` returns names the delegating body as its parent and its own principal,
    -- has a valid scope, and its scope admits only what the delegating scope admits, where the
    -- decimals obey their laws.
    pub attenuate_sound :
        (self : MandateBody Decimal) (id : MandateId) (agent : AgentId) (scope : Scope Decimal)
        (issued_at : Timestamp) {child : MandateBody Decimal}
        → attenuate self id agent scope issued_at ≡ ok child
        → (child.parent ≡ some self.id)
          × (child.principal ≡ self.principal)
          × (validate child.scope ≡ ok tt)
          × ((claims : ScopeClaims Decimal) (attestation : Attestation) (now : Timestamp)
              → admits child.scope claims attestation now ≡ ok tt
              → admits self.scope claims attestation now ≡ ok tt)
    attenuate_sound self id agent scope issued_at {child} h =
        let made = attenuate-made self id agent scope issued_at h in
        (
          made.parent,
          made.principal,
          rw made.scope_kept made.valid,
          λ claims attestation now k.
              scope_subset_sound child.scope self.scope claims attestation now
                (rw made.scope_kept made.within) k,
        )
