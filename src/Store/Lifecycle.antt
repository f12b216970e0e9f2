-- ===== src/Store/Lifecycle.antt =====
-- In every store that can be reached, records agree with chains, and nothing is delivered before it is
-- settled.
use mandate_ledger.Prelude.{
  ◌≡◌, refl, true, List, [], ◌∷◌, ◌++◌, arith, Option, none, some, inl, inr, Bool-cases,
  Option-cases, ◌==◌, ==_eq, list_eq, nat_eq, sym, ◌∙◌, any, subst,
}
use mandate_ledger.Prelude.Map.{get}
use mandate_ledger.Hash.{Sha256, CanonicalJson}
use mandate_ledger.Time.{Timestamp}
use mandate_ledger.Ids.{ContextId, MandateId}
use mandate_ledger.Money.{DecimalOps}
use mandate_ledger.State.{PaymentState, settled, delivered, can_transition_to}
use mandate_ledger.Event.{Event, EventBody, Preimage, resulting_state}
use mandate_ledger.Evidence.{final_state_of}
use mandate_ledger.Store.Interface.{Record}
use mandate_ledger.Store.Inner.{Inner}
use mandate_ledger.Store.Commit.{append}
use mandate_ledger.Store.Memory.{empty_store, prune, revoke_id, is_finished}
use mandate_ledger.Store.Chain.{chain_of}
use mandate_ledger.Store.Append.{append-cases, Committed}
use mandate_ledger.Store.Log.{body-made}
use mandate_ledger.Store.Audit.{HasRoom, chain_of-append}
use mandate_ledger.Store.Reach.{Reach, Reach-induction}
use mandate_ledger.Store.Prune.{is_forgotten, chain_of-prune, records-prune, forgotten_finished}
use mandate_ledger.Store.Projection.{Permitted, step_record, records-append, append-Permitted}
use mandate_ledger.Store.History.{
  advance, end_state, end_state-final, IsPath, IsSilent-IsPath, Tracks, Tracks-snoc, IsTracked,
}

before_delivered : (s : Option PaymentState) → Permitted s (some delivered) → s ≡ some settled
unfolding can_transition_to
before_delivered s p = ground arith

advance-none : (s : Option PaymentState) → advance none s ≡ s
advance-none s = ground arith

module _ {Decimal : Type 0} ⦃ops : DecimalOps Decimal⦄ ⦃sha : Sha256⦄
    ⦃json : CanonicalJson (Preimage Decimal)⦄ where
  Tracks-committed :
      {ctx : ContextId} {at : Timestamp} {body : EventBody Decimal} {g : Inner Decimal}
      (c : Committed ctx at body g)
      → Tracks ctx (get g.records ctx) (chain_of ctx g.events)
      → Tracks ctx
          (step_record ctx (get g.records ctx) body)
          (chain_of ctx g.events ++ c.event ∷ [])
  Tracks-committed {ctx = ctx} {body = body} {g = g} c h =
      subst
        (λ b.
          Tracks ctx (step_record ctx (get g.records ctx) b)
            (chain_of ctx g.events ++ c.event ∷ []))
        (body-made c)
        (Tracks-snoc ctx (get g.records ctx) (chain_of ctx g.events) c.event
          (rw (body-made c) (append-Permitted c)) h)

  IsTracked-committed :
      {ctx : ContextId} {at : Timestamp} {body : EventBody Decimal} {g : Inner Decimal}
      → Committed ctx at body g
      → IsTracked g
      → IsTracked (append ctx at body g).1
  IsTracked-committed {ctx = ctx} {body = body} {g = g} c h d =
      rw (records-append c d, chain_of-append c d)
        (elim (Bool-cases (ctx == d)) [
          | inr other ↦ rw other (h d)
          | inl same ↦ rw same (
              subst
                (λ k.
                  Tracks k (step_record ctx (get g.records ctx) body)
                    (chain_of k g.events ++ c.event ∷ []))
                (==_eq ctx d same) (Tracks-committed c (h ctx)))
        ])

  pub IsTracked-append :
      (ctx : ContextId) (at : Timestamp) (body : EventBody Decimal) (g : Inner Decimal)
      → HasRoom g
      → IsTracked g
      → IsTracked (append ctx at body g).1
  IsTracked-append ctx at body g room h = elim (append-cases ctx at body g) [
    | inl alone ↦ rw alone.1 h
    | inr c ↦ IsTracked-committed c h
  ]

  finished_Tracks :
      (g : Inner Decimal) (d : ContextId) → is_finished g d ≡ true → Tracks d (get g.records d) []
  finished_Tracks g d h = elim (Option-cases (get g.records d)) [
    | inl missing ↦ rw missing (inl (refl, refl, tt))
    | inr (r, found) ↦ rw found (inr (r, refl, rw (found, is_finished) at h, tt))
  ]

  pub IsTracked-prune :
      (before : Timestamp) (g : Inner Decimal) → IsTracked g → IsTracked (prune g before)
  IsTracked-prune before g h d =
      rw (records-prune, chain_of-prune)
        (elim (Bool-cases (is_forgotten g before d)) [
          | inl gone ↦ rw gone (finished_Tracks g d (forgotten_finished g before d gone))
          | inr stays ↦ rw stays (h d)
        ])

  pub IsTracked-revoke :
      (m : MandateId) (g : Inner Decimal) → IsTracked g → IsTracked (revoke_id g m)
  unfolding revoke_id
  IsTracked-revoke m g h = elim (Bool-cases (any (λ k. k == m) g.revoked_ids)) [
    | inl known ↦ rw known h
    | inr new ↦ rw new h
  ]

  -- In any store that can be reached, whatever the order of the calls, the record of every context is
  -- the fold of its chain, its state is the one that the chain ends in and the chain takes only
  -- transitions that the machine permits; or else the record is terminal and what is left of a chain
  -- changes no state.
  pub Reach-IsTracked : {g : Inner Decimal} → Reach empty_store g → IsTracked g
  Reach-IsTracked t =
      Reach-induction IsTracked IsTracked-append IsTracked-revoke IsTracked-prune t
        (λ d. unfold get in inl (refl, refl, tt))

  Tracks-IsPath :
      (d : ContextId) (rec : Option (Record Decimal)) (es : List (Event Decimal))
      → Tracks d rec es
      → IsPath none es
  Tracks-IsPath d rec es (inl t) = t.2
  Tracks-IsPath d rec es (inr t) = IsSilent-IsPath none es t.3

  -- Where a chain holds an event that needs a state, the chain up to it has reached that state.
  IsPath-before :
      (s : Option PaymentState) (xs ys : List (Event Decimal)) (e : Event Decimal)
      → IsPath s (xs ++ e ∷ ys)
      → Permitted (end_state s xs) (resulting_state e.body)
  IsPath-before s [] ys e h = h.0
  IsPath-before s (x ∷ xs) ys e h = IsPath-before (advance s (resulting_state x.body)) xs ys e h.1

  -- In any store that can be reached, whatever the order of the calls: where the chain of a context
  -- holds a `Delivered` event, the events before it end in the state `Settled`.
  pub delivered_after_settled :
      {g : Inner Decimal} (d : ContextId) (xs ys : List (Event Decimal)) (e : Event Decimal)
      → Reach empty_store g
      → chain_of d g.events ≡ xs ++ e ∷ ys
      → resulting_state e.body ≡ some delivered
      → final_state_of xs ≡ some settled
  delivered_after_settled {g = g} d xs ys e t split is_delivery =
      let path : IsPath none (xs ++ e ∷ ys) =
        subst (λ (l : List (Event Decimal)). IsPath none l) split
          (Tracks-IsPath d (get g.records d) (chain_of d g.events) (Reach-IsTracked t d)) in
      let step : Permitted (end_state none xs) (some delivered) =
        subst (λ s. Permitted (end_state none xs) s) is_delivery
          (IsPath-before none xs ys e path) in
      sym (advance-none (final_state_of xs))
      ∙ (sym (end_state-final none xs) ∙ before_delivered (end_state none xs) step)
