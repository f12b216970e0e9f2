-- ===== src/Store/Exact.antt =====
-- The states that a store comes to along states that all have a property.
use mandate_ledger.Hash.{Sha256, CanonicalJson}
use mandate_ledger.Money.{DecimalOps}
use mandate_ledger.Event.{Preimage}
use mandate_ledger.Store.Inner.{Inner}
use mandate_ledger.Store.Reach.{Step}

module _ {Decimal : Type 0} ⦃ops : DecimalOps Decimal⦄ ⦃sha : Sha256⦄
    ⦃json : CanonicalJson (Preimage Decimal)⦄ where
  -- A run of the store's steps, every state of which has the property.
  pub data ReachIn (P : Inner Decimal → Type 0) (s : Inner Decimal) : Inner Decimal → Type 0 where
    begins : P s → ReachIn P s s
    goes_on : {g h : Inner Decimal} → ReachIn P s g → Step g h → P h → ReachIn P s h

  pub ReachIn-last : (P : Inner Decimal → Type 0) {s g : Inner Decimal} → ReachIn P s g → P g
  ReachIn-last P (begins h) = h
  ReachIn-last P (goes_on run step h) = h
