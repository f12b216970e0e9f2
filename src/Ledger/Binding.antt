-- ===== src/Ledger/Binding.antt =====
-- What `record_payment` has checked when it returns a token for a context that was `Authorized`.
use mandate_ledger.Prelude.{
  ◌≡◌, refl, Bool, true, false, not, arith, Option, none, some, ==_eq, ◌⊎◌, inl, inr, Result, ok,
  err, Option-cases, if◌then◌else◌, Bool-cases, ◌==◌, ==_refl, list_eq, nat_eq, pair_eq, sym, ◌∙◌,
  ap, subst,
}
use mandate_ledger.Prelude.Map.{get}
use mandate_ledger.Text.{Text, codes}
use mandate_ledger.Hash.{Hash32, Sha256, CanonicalJson}
use mandate_ledger.Ids.{ContextId, MerchantId}
use mandate_ledger.Money.{DecimalOps, money_eq}
use mandate_ledger.State.{Authorized, Paid, authorized, paid, state_eq}
use mandate_ledger.Reason
use mandate_ledger.Reason.{
  payment, amount_mismatch, merchant_binding_mismatch, context_not_found, proof_invalid,
}
use mandate_ledger.Mandate.Errors.{plain, proof_amount, proof_pays, no_context}
use mandate_ledger.Event.{EventBody, Preimage, paid_event}
use mandate_ledger.Error.{LedgerError}
use mandate_ledger.Rail.{VerifiedProof, RailError, invalid_proof, unavailable}
use mandate_ledger.Store.Interface.{Record, AppendOutcome, appended, nonce_already_used}
use mandate_ledger.Store.Inner.{Inner}
use mandate_ledger.Store.Commit.{append, update_record}
use mandate_ledger.Store.Memory.{memory_store}
use mandate_ledger.Store.Append.{append-cases, was_appended, Committed}
use mandate_ledger.Store.Nonces.{IsOwned-after}
use mandate_ledger.Store.Projection.{records-append}
use mandate_ledger.Ledger.Tokens.{idempotency_key}
use mandate_ledger.Ledger.Action.{Action, call, ◌>>=◌}
use mandate_ledger.Ledger.Engine.{Ledger, deny}
use mandate_ledger.Ledger.Payment.{
  bound_to, binding_refusal, expectation, check_payee, check_proof_binding, repeat_payment,
  payment_outcome, bind_payment, after_verification, record_payment,
}
use mandate_ledger.Ledger.Outcome.{deny-fails, bind-Bound, call-ok}

not_both : {b : Bool} → b ≡ true → b ≡ false → ⊥
not_both h k = cc

-- The payee that the proof names, if it names one.
abbrev payee_matches : Option MerchantId → MerchantId → Bool
payee_matches none merchant = true
payee_matches (some payee) merchant = payee == merchant

-- What the proof names, if it names any, is this.
abbrev pub NamesNoOther : Option Text → Text → Type 0
NamesNoOther named this = (named ≡ none) ⊎ (named ≡ some this)

payee_matches-NamesNoOther :
    (named : Option MerchantId) (merchant : MerchantId)
    → payee_matches named merchant ≡ true
    → NamesNoOther named merchant
payee_matches-NamesNoOther none merchant h = inl refl
payee_matches-NamesNoOther (some payee) merchant h = inr (ap some (==_eq payee merchant h))

-- The proof is for this context or this cart, and for no other of either.
abbrev pub IsFor : Option ContextId → Option Hash32 → ContextId → Hash32 → Type 0
IsFor for_ctx for_cart ctx cart =
    ((for_ctx ≡ some ctx) × NamesNoOther for_cart cart)
    ⊎ ((for_ctx ≡ none) × (for_cart ≡ some cart))

binding_refusal-IsFor :
    (for_ctx : Option ContextId) (for_cart : Option Hash32) (ctx : ContextId) (cart : Hash32)
    → binding_refusal (bound_to for_ctx ctx) (bound_to for_cart cart) ≡ none
    → IsFor for_ctx for_cart ctx cart
unfolding binding_refusal
binding_refusal-IsFor none none ctx cart h = cc
binding_refusal-IsFor none (some b) ctx cart h =
    let same : (b == cart) ≡ true = ground (arith, h) in inr (refl, ap some (==_eq b cart same))
binding_refusal-IsFor (some a) none ctx cart h =
    let same : (a == ctx) ≡ true = ground (arith, h) in inl (ap some (==_eq a ctx same), inl refl)
binding_refusal-IsFor (some a) (some b) ctx cart h =
    let here : (a == ctx) ≡ true = ground (arith, h) in
    let same : (b == cart) ≡ true = ground (arith, h) in
    inl (ap some (==_eq a ctx here), inr (ap some (==_eq b cart same)))

module _ {Decimal : Type 0} ⦃ops : DecimalOps Decimal⦄ where
  -- A proof that is for this context's payment: its amount, what it is bound to, and its payee.
  pub record IsBound (ctx : ContextId) (rec : Record Decimal) (v : VerifiedProof Decimal)
      : Type 0 where
    pub amount : money_eq v.amount rec.amount ≡ true
    pub binding : IsFor v.bound_ctx v.bound_cart ctx rec.cart_hash
    pub payee : NamesNoOther v.bound_merchant rec.merchant

module _ {Decimal Proof Finality : Type 0} ⦃ops : DecimalOps Decimal⦄ ⦃sha : Sha256⦄
    ⦃json : CanonicalJson (Preimage Decimal)⦄ (self : Ledger Decimal Proof Finality)
    (ctx : ContextId) (rec : Record Decimal) (v : VerifiedProof Decimal) where
  check_payee-ok :
      (g : Inner Decimal) {u : Unit {0}}
      → (check_payee self ctx rec v g).0 ≡ ok u
      → (payee_matches v.bound_merchant rec.merchant ≡ true)
        × ((check_payee self ctx rec v g).1 ≡ g)
  check_payee-ok g h = elim (Option-cases v.bound_merchant) [
    | inl unnamed ↦ rw unnamed (refl, refl)
    | inr (payee, named) ↦ elim (Bool-cases (payee == rec.merchant)) [
      | inl same ↦ rw named (rw same (refl, refl))
      | inr other ↦ absurd (
          deny-fails self.now ctx payment merchant_binding_mismatch (proof_pays payee rec.merchant)
            g (rw other at (rw named at h)))
    ]
  ]

  check_proof_binding-ok :
      (g : Inner Decimal) {u : Unit {0}}
      → (check_proof_binding self ctx rec v g).0 ≡ ok u
      → IsBound ctx rec v × ((check_proof_binding self ctx rec v g).1 ≡ g)
  unfolding check_proof_binding
  check_proof_binding-ok g h = elim (Bool-cases (money_eq v.amount rec.amount)) [
    | inr other ↦ absurd (
        deny-fails self.now ctx payment amount_mismatch (proof_amount v.amount rec.amount) g
          (rw (other, check_proof_binding) at h))
    | inl same ↦
        elim (Option-cases
          (binding_refusal (bound_to v.bound_ctx ctx) (bound_to v.bound_cart rec.cart_hash))) [
            | inr (refusal, found) ↦ absurd (
                deny-fails self.now ctx payment refusal.0 (plain refusal.1) g
                  (rw (same, found, check_proof_binding) at h))
            | inl fine ↦
                let last = check_payee-ok g (rw (same, fine, check_proof_binding) at h) in
                (
                  record {
                    amount = same;
                    binding = binding_refusal-IsFor v.bound_ctx v.bound_cart ctx rec.cart_hash fine;
                    payee = payee_matches-NamesNoOther v.bound_merchant rec.merchant last.0;
                  },
                  rw (same, fine, check_proof_binding) last.1,
                )
          ]
  ]

  payment_outcome-ok :
      (key : Hash32) (o : AppendOutcome Decimal) (s : Inner Decimal) {token : Paid}
      → (payment_outcome self ctx v key o s).0 ≡ ok token
      → (was_appended (ok o) ≡ true) × ((payment_outcome self ctx v key o s).1 ≡ s)
  payment_outcome-ok key (appended e) s h = (refl, refl)
  payment_outcome-ok key nonce_already_used s h = absurd (
      deny-fails self.now ctx payment Reason.nonce_already_used
        (plain (codes "nonce already consumed by another context")) s h)
  payment_outcome-ok key o s h = cc

  abbrev pub payment_event : EventBody Decimal
  payment_event =
      paid_event self.rail.id v.reference v.nonce v.amount
        (idempotency_key ctx self.rail.id v.nonce)

  append-Committed :
      (body : EventBody Decimal) (g : Inner Decimal) {o : AppendOutcome Decimal}
      → (append ctx self.now body g).0 ≡ ok o
      → was_appended (ok o) ≡ true
      → Committed ctx self.now body g
  append-Committed body g {o} h done = elim (append-cases ctx self.now body g) [
    | inr c ↦ c
    | inl alone ↦ absurd (not_both done (rw h at alone.0))
  ]

  -- What a payment that is bound has done to the store.
  pub record Bonded (g h : Inner Decimal) : Type 0 where
    pub bound : IsBound ctx rec v
    pub committed : Committed ctx self.now payment_event g
    pub result : h ≡ (append ctx self.now payment_event g).1

  bind_payment-ok :
      (g : Inner Decimal) {token : Paid}
      → (bind_payment self ctx rec v g).0 ≡ ok token
      → Bonded g (bind_payment self ctx rec v g).1
  unfolding bind_payment
  bind_payment-ok g h =
      let key = idempotency_key ctx self.rail.id v.nonce in
      let store = call (append ctx self.now payment_event) in
      let a =
        bind-Bound (check_proof_binding self ctx rec v)
          (λ u. store >>= payment_outcome self ctx v key) g h in
      let checked = check_proof_binding-ok g a.first in
      let b =
        bind-Bound store (payment_outcome self ctx v key) (check_proof_binding self ctx rec v g).1
          a.rest in
      let kept = checked.1 in
      let outcome =
        payment_outcome-ok key b.value (store (check_proof_binding self ctx rec v g).1).1 b.rest in
      record {
        bound = checked.0;
        committed =
            append-Committed payment_event g
              (rw kept at (
                call-ok (append ctx self.now payment_event) (check_proof_binding self ctx rec v g).1
                  b.first))
              outcome.0;
        result =
            a.final
            ∙ (b.final ∙ (outcome.1 ∙ ap (λ s. (append ctx self.now payment_event s).1) kept));
      }

module _ {Decimal Proof Finality : Type 0} ⦃ops : DecimalOps Decimal⦄ ⦃sha : Sha256⦄
    ⦃json : CanonicalJson (Preimage Decimal)⦄ (self : Ledger Decimal Proof Finality) where
  abbrev continued :
      ContextId → Proof → Option (Record Decimal) → Action Decimal (Inner Decimal) Paid
  continued ctx proof none = deny self.now ctx payment context_not_found (no_context ctx)
  continued ctx proof (some rec) =
      after_verification self ctx rec (self.rail.verify_proof proof (expectation ctx rec))

  record_payment-continued :
      (auth : Authorized Decimal) (proof : Proof) (g : Inner Decimal)
      → record_payment self auth proof g ≡ continued auth.ctx proof (get g.records auth.ctx) g
  unfolding record_payment
  record_payment-continued auth proof g = ground arith

  verified_payment :
      (ctx : ContextId) (rec : Record Decimal) (r : Result RailError (VerifiedProof Decimal))
      (g : Inner Decimal) {token : Paid}
      → rec.state ≡ authorized
      → (after_verification self ctx rec r g).0 ≡ ok token
      → (v : VerifiedProof Decimal) × (r ≡ ok v)
        × Bonded self ctx rec v g (after_verification self ctx rec r g).1
  verified_payment ctx rec (err (invalid_proof detail)) g is_new h =
      absurd (deny-fails self.now ctx payment proof_invalid (plain detail) g h)
  verified_payment ctx rec (err (unavailable detail)) g is_new h = cc
  verified_payment ctx rec (ok v) g {token} is_new h =
      let same : after_verification self ctx rec (ok v) g ≡ bind_payment self ctx rec v g =
        ap
          (λ s.
            (if not (s == authorized)
                then repeat_payment self ctx rec v
                else bind_payment self ctx rec v)
              g)
          is_new in
      (
        v,
        refl,
        subst
            (λ (o : Result (LedgerError Decimal) Paid × Inner Decimal). Bonded self ctx rec v g o.1)
            (sym same)
            (bind_payment-ok self ctx rec v g (
              subst (λ (o : Result (LedgerError Decimal) Paid × Inner Decimal). o.0 ≡ ok token) same
                h)),
      )

  -- When `record_payment` returns a token for a context that is `Authorized`, the rail has verified
  -- the proof, the amount that it proves is the record's, it is bound to the context or its cart and
  -- to no other of either, it names no other payee, the record is the old one but for its state, which
  -- is `Paid`, its rail, reference and key, which are the proof's, and the proof's nonce is the
  -- context's.
  pub paid-IsBound :
      (auth : Authorized Decimal) (proof : Proof) (g : Inner Decimal) (rec : Record Decimal)
      {token : Paid}
      → get g.records auth.ctx ≡ some rec
      → rec.state ≡ authorized
      → (record_payment self auth proof g).0 ≡ ok token
      → (v : VerifiedProof Decimal) × (self.rail.verify_proof proof (expectation auth.ctx rec)
          ≡ ok v)
        × IsBound auth.ctx rec v
        × (get (record_payment self auth proof g).1.records auth.ctx
            ≡ some (record rec {
              state = paid;
              rail = some self.rail.id;
              payment_reference = some v.reference;
              idempotency_key = some (idempotency_key auth.ctx self.rail.id v.nonce);
            }))
        × (get (record_payment self auth proof g).1.nonces (self.rail.id, v.nonce) ≡ some auth.ctx)
  unfolding update_record
  paid-IsBound auth proof g rec {token} here is_new h =
      let ctx = auth.ctx in
      let answer = self.rail.verify_proof proof (expectation ctx rec) in
      let same : record_payment self auth proof g ≡ after_verification self ctx rec answer g =
        record_payment-continued auth proof g ∙ ap (λ o. continued ctx proof o g) here in
      let (v, verified, b) = verified_payment ctx rec answer g is_new (rw same at h) in
      (
        v,
        verified,
        b.bound,
        rw (same, b.result, records-append b.committed ctx, ==_refl ctx, here) refl,
        rw (same, b.result) (IsOwned-after b.committed),
      )
