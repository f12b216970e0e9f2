-- ===== src/Ledger/Session.antt =====
-- Any sequence of calls of the engine on one in-memory store, from any callers and at any times.
use mandate_ledger.Prelude.{
  ℕ, ◌+◌, ◌*◌, ◌≤◌, ◌<◌, ◌^◌, ◌≡◌, refl, List, [], ◌∷◌, arith, Option, some, ok, length, is_empty,
  false, Bool-cases, inl, inr,
}
use mandate_ledger.Text.{Text}
use mandate_ledger.Hash.{zero_hash, Sha256, CanonicalJson}
use mandate_ledger.Time.{Timestamp}
use mandate_ledger.Ids.{ContextId, MandateId, Hex}
use mandate_ledger.Money.{DecimalOps}
use mandate_ledger.Cart.{Cart}
use mandate_ledger.State.{Authorized, Paid, Settled, SettlementFailed}
use mandate_ledger.Mandate.Body.{Ed25519, MandateBody, Mandate}
use mandate_ledger.Event.{Event, Preimage, DeliveryReceipt}
use mandate_ledger.Evidence.{EvidenceBundle, verify_bundle, new_bundle, verify_events}
use mandate_ledger.Store.Inner.{Inner, events_of}
use mandate_ledger.Store.Memory.{memory_store, empty_store, prune, revoke_id}
use mandate_ledger.Store.Chain.{events_of-eq-chain}
use mandate_ledger.Store.Reach.{Reach, here, next, revoke_step, prune_step, Reach-IsAuditable}
use mandate_ledger.Ledger.Action.{Action}
use mandate_ledger.Ledger.Engine.{Ledger, revoke, evidence}
use mandate_ledger.Ledger.Authorize.{authorize_cart}
use mandate_ledger.Ledger.Payment.{record_payment}
use mandate_ledger.Ledger.Settle.{record_settlement}
use mandate_ledger.Ledger.Finish.{compensate, expire, record_delivery}
use mandate_ledger.Ledger.Runs.{Runs, Reach-trans}
use mandate_ledger.Ledger.Steps.{authorize-Runs}
use mandate_ledger.Ledger.PaymentSteps.{record_payment-Runs}
use mandate_ledger.Ledger.FinishSteps.{
  record_settlement-Runs, compensate-Runs, expire-Runs, record_delivery-Runs,
}

-- A call of the engine that writes, or of the store's retention.
pub data Request (Decimal Proof Finality : Type 0) : Type 0 where
  authorize_it : Mandate Decimal → Cart Decimal → Text → Request Decimal Proof Finality
  pay_it : Authorized Decimal → Proof → Request Decimal Proof Finality
  settle_it : Paid → Finality → Request Decimal Proof Finality
  compensate_it : SettlementFailed → Option Text → Request Decimal Proof Finality
  expire_it : Authorized Decimal → Request Decimal Proof Finality
  deliver_it : Settled → DeliveryReceipt → Request Decimal Proof Finality
  revoke_it : MandateId → Request Decimal Proof Finality
  prune_it : Timestamp → Request Decimal Proof Finality

module _ {Decimal : Type 0} where
  last_seq-prune : (g : Inner Decimal) (before : Timestamp) → (prune g before).last_seq ≡ g.last_seq
  unfolding prune
  last_seq-prune g before = ground arith

  last_seq-revoke : (g : Inner Decimal) (m : MandateId) → (revoke_id g m).last_seq ≡ g.last_seq
  unfolding revoke_id
  last_seq-revoke g m = ground arith

module _ {Decimal : Type 0} ⦃ops : DecimalOps Decimal⦄ ⦃sha : Sha256⦄
    ⦃json : CanonicalJson (Preimage Decimal)⦄ where
  abbrev Bounded : ℕ → Inner Decimal → Inner Decimal → Type 0
  Bounded n g h = Reach g h × (h.last_seq ≤ g.last_seq + n)

  by-Runs :
      {A : Type 0} (m : ℕ) (a : Action Decimal (Inner Decimal) A) (g : Inner Decimal)
      → Runs m a
      → m ≤ 3
      → g.last_seq + 3 < 2 ^ 64
      → Bounded 3 g (a g).1
  by-Runs m a g r le room =
      let first : Bounded m g (a g).1 = r.moves g (omega (arith, le, room)) in
      (first.0, omega (arith, le, first.1))

module _ {Decimal : Type 0} ⦃sha : Sha256⦄ ⦃json : CanonicalJson (Preimage Decimal)⦄ where
  new_bundle-ctx :
      (ctx : ContextId) (at : Timestamp) (es : List (Event Decimal))
      → (new_bundle ctx at es).ctx ≡ ctx
  unfolding new_bundle
  new_bundle-ctx ctx at es = refl

  bundle_verifies :
      (ctx : ContextId) (at : Timestamp) (es : List (Event Decimal))
      → is_empty es ≡ false
      → verify_events ctx zero_hash 0 es ≡ ok tt
      → verify_bundle (new_bundle ctx at es) ≡ ok tt
  unfolding verify_bundle new_bundle
  bundle_verifies ctx at es full h = rw (full, h) refl

module _ {Decimal Proof Finality : Type 0} ⦃ops : DecimalOps Decimal⦄ ⦃sha : Sha256⦄ ⦃hex : Hex⦄
    ⦃ed : Ed25519⦄ ⦃json : CanonicalJson (Preimage Decimal)⦄
    ⦃body_json : CanonicalJson (MandateBody Decimal)⦄ where
  -- The store after one call.
  unfoldable pub perform :
      Ledger Decimal Proof Finality → Request Decimal Proof Finality → Inner Decimal → Inner Decimal
  perform self (authorize_it mandate cart key) g = (authorize_cart self mandate cart key g).1
  perform self (pay_it token proof) g = (record_payment self token proof g).1
  perform self (settle_it token finality) g = (record_settlement self token finality g).1
  perform self (compensate_it token reference) g = (compensate self token reference g).1
  perform self (expire_it token) g = (expire self token g).1
  perform self (deliver_it token receipt) g = (record_delivery self token receipt g).1
  perform self (revoke_it mandate) g = (revoke {Decimal = Decimal} mandate g).1
  perform self (prune_it before) g = prune g before

  -- The store after a sequence of calls, one after the other, each by an engine of its own: another
  -- time, another rail.
  unfoldable pub session :
      List (Ledger Decimal Proof Finality × Request Decimal Proof Finality)
      → Inner Decimal
      → Inner Decimal
  unfolding perform
  session [] g = g
  session ((self, request) ∷ rest) g = session rest (perform self request g)

  perform-Bounded :
      (self : Ledger Decimal Proof Finality) (request : Request Decimal Proof Finality)
      (g : Inner Decimal)
      → g.last_seq + 3 < 2 ^ 64
      → Bounded 3 g (perform self request g)
  unfolding perform revoke
  perform-Bounded self (authorize_it mandate cart key) g room =
      by-Runs 2 (authorize_cart self mandate cart key) g (authorize-Runs self mandate cart key)
        (omega arith) room
  perform-Bounded self (pay_it token proof) g room =
      by-Runs 3 (record_payment self token proof) g (record_payment-Runs self token proof)
        (omega arith) room
  perform-Bounded self (settle_it token finality) g room =
      by-Runs 2 (record_settlement self token finality) g
        (record_settlement-Runs self token finality) (omega arith) room
  perform-Bounded self (compensate_it token reference) g room =
      by-Runs 1 (compensate self token reference) g (compensate-Runs self token reference)
        (omega arith) room
  perform-Bounded self (expire_it token) g room =
      by-Runs 1 (expire self token) g (expire-Runs self token) (omega arith) room
  perform-Bounded self (deliver_it token receipt) g room =
      by-Runs 1 (record_delivery self token receipt) g (record_delivery-Runs self token receipt)
        (omega arith) room
  perform-Bounded self (revoke_it mandate) g room =
      (next here (revoke_step mandate g), rw (last_seq-revoke g mandate) (omega arith))
  perform-Bounded self (prune_it before) g room =
      (next here (prune_step before g), rw (last_seq-prune g before) (omega arith))

  session-Bounded :
      (calls : List (Ledger Decimal Proof Finality × Request Decimal Proof Finality))
      (g : Inner Decimal)
      → g.last_seq + 3 * length calls < 2 ^ 64
      → Reach g (session calls g)
  unfolding session
  session-Bounded [] g room = here
  session-Bounded ((self, request) ∷ rest) g room =
      let first : Bounded 3 g (perform self request g) =
        perform-Bounded self request g (omega (arith, room)) in
      Reach-trans first.0
        (session-Bounded rest (perform self request g) (omega (arith, room, first.1)))

  -- Whatever the engine is asked, in any order, on an in-memory store that starts empty, the calls
  -- come down to steps of the store: appends with a sequence number to spare, revocations and
  -- prunings, where fewer than 2 ^ 64 / 3 calls are made.
  session_reaches :
      (calls : List (Ledger Decimal Proof Finality × Request Decimal Proof Finality))
      → 3 * length calls < 2 ^ 64
      → Reach empty_store (session calls empty_store)
  session_reaches calls room = session-Bounded calls empty_store (omega (arith, room))

  -- Whatever the engine was asked before, the evidence that it gives of a context verifies and is of
  -- that context, where fewer than 2 ^ 64 / 3 calls were made.
  pub evidence_verifies :
      (calls : List (Ledger Decimal Proof Finality × Request Decimal Proof Finality))
      (now : Timestamp) (ctx : ContextId) {bundle : EvidenceBundle Decimal}
      → 3 * length calls < 2 ^ 64
      → (evidence now ctx (session calls empty_store)).0 ≡ ok (some bundle)
      → (bundle.ctx ≡ ctx) × (verify_bundle bundle ≡ ok tt)
  unfolding evidence
  evidence_verifies calls now ctx {bundle} room given =
      let g = session calls empty_store in
      let a = Reach-IsAuditable (session_reaches calls room) in
      let chain = events_of-eq-chain g ctx a.indexed in
      elim (Bool-cases (is_empty (events_of g ctx))) [
        | inl nothing ↦ absurd (ground arith)
        | inr something ↦
            let made : bundle ≡ new_bundle ctx now (events_of g ctx) = ground arith in
            rw made (
              new_bundle-ctx ctx now (events_of g ctx),
              bundle_verifies ctx now (events_of g ctx) something (rw chain (a.verified ctx)),
            )
      ]
