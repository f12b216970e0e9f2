-- ===== src/Ledger/Action.antt =====
-- A step of the engine: it runs over the state of the store and returns a value or a `LedgerError`.
use mandate_ledger.Prelude.{Result, ok, err, map_err}
use mandate_ledger.Error.{StoreError, LedgerError, store_error}
use mandate_ledger.Store.Interface.{Method}

abbrev pub Action : Type 0 → Type 0 → Type 0 → Type 0
Action Decimal S A = S → Result (LedgerError Decimal) A × S

module _ {Decimal S : Type 0} where
  abbrev pub pure : {A : Type 0} → A → Action Decimal S A
  pure a s = (ok a, s)

  abbrev pub throw : {A : Type 0} → LedgerError Decimal → Action Decimal S A
  throw e s = (err e, s)

  -- A method of the store whose result, an error too, is looked at.
  abbrev pub attempt :
      {A B : Type 0} → Method S A → (Result StoreError A → Action Decimal S B) → Action Decimal S B
  attempt m f s = let (r, s') = m s in f r s'

  -- A method of the store under `?`.
  abbrev pub call : {A : Type 0} → Method S A → Action Decimal S A
  call m s = let (r, s') = m s in (map_err store_error r, s')

  -- A result under `?`.
  abbrev pub lift : {A : Type 0} → Result (LedgerError Decimal) A → Action Decimal S A
  lift r s = (r, s)

  infixl 5 ◌>>=◌ ◌>>◌
  abbrev pub ◌>>=◌ :
      {A B : Type 0} → Action Decimal S A → (A → Action Decimal S B) → Action Decimal S B
  ◌>>=◌ m f s = let (r, s') = m s in elim r [ ok a ↦ f a s' | err e ↦ (err e, s') ]

  abbrev pub ◌>>◌ : {A B : Type 0} → Action Decimal S A → Action Decimal S B → Action Decimal S B
  m >> k = m >>= λ _. k
