-- ===== src/Store/Revocation.antt =====
-- A revocation is for good: no later append authorizes a context under the mandate.
use mandate_ledger.Prelude.{◌≡◌, true, arith, inl, inr, any, ◌==◌, ==_refl, list_eq, nat_eq, ok}
use mandate_ledger.Text.{Text}
use mandate_ledger.Hash.{Sha256, CanonicalJson}
use mandate_ledger.Time.{Timestamp}
use mandate_ledger.Ids.{ContextId, MandateId}
use mandate_ledger.Money.{DecimalOps}
use mandate_ledger.Mandate.Body.{Mandate}
use mandate_ledger.Event.{EventBody, Preimage, CartSnapshot, authorized_event}
use mandate_ledger.Store.Inner.{Inner, Effects, proceed}
use mandate_ledger.Store.Validate.{check_body}
use mandate_ledger.Store.Commit.{append}
use mandate_ledger.Store.Memory.{revoke_id}
use mandate_ledger.Store.Append.{append-cases, LeftAlone}
use mandate_ledger.Store.Log.{revoked_ids-append}
use mandate_ledger.Store.Audit.{HasRoom}
use mandate_ledger.Store.Reach.{Reach, Reach-induction}
use mandate_ledger.Store.Prune.{revoked_ids-prune}

abbrev pub IsRevoked : {Decimal : Type 0} → MandateId → Inner Decimal → Type 0
IsRevoked m g = any (λ k. k == m) g.revoked_ids ≡ true

module _ {Decimal : Type 0} ⦃ops : DecimalOps Decimal⦄ ⦃sha : Sha256⦄
    ⦃json : CanonicalJson (Preimage Decimal)⦄ where
  revoke-IsRevoked : (m : MandateId) (g : Inner Decimal) → IsRevoked m (revoke_id g m)
  unfolding revoke_id
  revoke-IsRevoked m g = ground (arith, ==_refl m)

  IsRevoked-append :
      (m : MandateId) (ctx : ContextId) (at : Timestamp) (body : EventBody Decimal)
      (g : Inner Decimal)
      → HasRoom g
      → IsRevoked m g
      → IsRevoked m (append ctx at body g).1
  IsRevoked-append m ctx at body g room h = elim (append-cases ctx at body g) [
    | inl alone ↦ rw alone.1 h
    | inr c ↦ rw (revoked_ids-append c) h
  ]

  IsRevoked-revoke :
      (m k : MandateId) (g : Inner Decimal) → IsRevoked m g → IsRevoked m (revoke_id g k)
  unfolding revoke_id
  IsRevoked-revoke m k g h = ground arith

  pub Reach-IsRevoked :
      (m : MandateId) {g h : Inner Decimal} → Reach g h → IsRevoked m g → IsRevoked m h
  Reach-IsRevoked m t =
      Reach-induction (IsRevoked m) (IsRevoked-append m) (IsRevoked-revoke m)
        (λ before g h. rw revoked_ids-prune h) t

  revoked_never_proceeds :
      (g : Inner Decimal) (ctx : ContextId) (at : Timestamp) (mandate : Mandate Decimal)
      (cart : CartSnapshot Decimal) (key : Text) (fx : Effects Decimal)
      → IsRevoked mandate.body.id g
      → check_body g ctx at (authorized_event mandate cart key) ≡ ok (proceed fx)
      → ⊥
  unfolding check_body
  revoked_never_proceeds g ctx at mandate cart key fx r h = ground arith

  -- After `revoke`, whatever calls came since and in whatever order, an append that would authorize
  -- a context under the mandate appends nothing and leaves the store as it was.
  pub revoked_for_good :
      (g : Inner Decimal) {h : Inner Decimal} (mandate : Mandate Decimal)
      (cart : CartSnapshot Decimal) (key : Text) (ctx : ContextId) (at : Timestamp)
      → Reach (revoke_id g mandate.body.id) h
      → LeftAlone ctx at (authorized_event mandate cart key) h
  revoked_for_good g {h = h} mandate cart key ctx at t =
      elim (append-cases ctx at (authorized_event mandate cart key) h) [
        | inl alone ↦ alone
        | inr c ↦ absurd (
            revoked_never_proceeds h ctx at mandate cart key c.fx
              (Reach-IsRevoked mandate.body.id t (revoke-IsRevoked mandate.body.id g)) c.checked)
      ]
