-- ===== src/Store/Reach.antt =====
-- Every method of the in-memory store runs under its lock, so concurrent callers make a sequence of
-- steps, in any order: the steps of the store and what they can reach.
use mandate_ledger.Hash.{Sha256, CanonicalJson}
use mandate_ledger.Time.{Timestamp}
use mandate_ledger.Ids.{ContextId, MandateId}
use mandate_ledger.Money.{DecimalOps}
use mandate_ledger.Event.{EventBody, Preimage}
use mandate_ledger.Store.Inner.{Inner}
use mandate_ledger.Store.Commit.{append}
use mandate_ledger.Store.Memory.{empty_store, prune, revoke_id}
use mandate_ledger.Store.Audit.{
  HasRoom, IsAuditable, IsAuditable-empty, IsAuditable-append, IsAuditable-revoke,
  IsAuditable-prune,
}

module _ {Decimal : Type 0} ⦃ops : DecimalOps Decimal⦄ ⦃sha : Sha256⦄
    ⦃json : CanonicalJson (Preimage Decimal)⦄ where
  -- The methods that write. An append is made while a sequence number is left.
  pub data Step : Inner Decimal → Inner Decimal → Type 0 where
    append_step :
        (ctx : ContextId) (at : Timestamp) (body : EventBody Decimal) (g : Inner Decimal)
        → HasRoom g
        → Step g (append ctx at body g).1
    revoke_step : (m : MandateId) (g : Inner Decimal) → Step g (revoke_id g m)
    prune_step : (before : Timestamp) (g : Inner Decimal) → Step g (prune g before)

  pub data Reach (s : Inner Decimal) : Inner Decimal → Type 0 where
    here : Reach s s
    next : {g h : Inner Decimal} → Reach s g → Step g h → Reach s h

  -- What every method keeps holds of all that is reached.
  pub Reach-induction :
      (P : Inner Decimal → Type 0)
      → ((ctx : ContextId) (at : Timestamp) (body : EventBody Decimal) (g : Inner Decimal)
          → HasRoom g
          → P g
          → P (append ctx at body g).1)
      → ((m : MandateId) (g : Inner Decimal) → P g → P (revoke_id g m))
      → ((before : Timestamp) (g : Inner Decimal) → P g → P (prune g before))
      → {s g : Inner Decimal} → Reach s g
      → P s
      → P g
  Reach-induction P a r p here h = h
  Reach-induction P a r p (next t (append_step ctx at body g room)) h =
      a ctx at body g room (Reach-induction P a r p t h)
  Reach-induction P a r p (next t (revoke_step m g)) h = r m g (Reach-induction P a r p t h)
  Reach-induction P a r p (next t (prune_step before g)) h =
      p before g (Reach-induction P a r p t h)

  -- In any store that can be reached, whatever the order of the calls, the chain of every context
  -- verifies as evidence, the sequence numbers of the log increase up to the last one given out, and
  -- the index lists the positions of every context's events.
  pub Reach-IsAuditable : {g : Inner Decimal} → Reach empty_store g → IsAuditable g
  Reach-IsAuditable t =
      Reach-induction IsAuditable IsAuditable-append IsAuditable-revoke IsAuditable-prune t
        IsAuditable-empty
