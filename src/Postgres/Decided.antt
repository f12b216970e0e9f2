-- ===== src/Postgres/Decided.antt =====
-- What a decision to write says: the nonce claimed, the rest of the tables untouched, and values that are
-- what their types say.
use mandate_ledger.Prelude.{
  ◌≡◌, refl, sym, subst, Option, none, some, Option-cases, ok, arith, Result-cases, inl, inr, ==_eq,
  list_eq, nat_eq, pair_eq,
}
use mandate_ledger.Prelude.Map.{get, get-insert, get_or}
use mandate_ledger.Text.{Text}
use mandate_ledger.Time.{Timestamp}
use mandate_ledger.Ids.{ContextId, MandateId}
use mandate_ledger.Money.{DecimalOps, Money, money_zero, money_add, ensure_same_currency}
use mandate_ledger.Mandate.Body.{Mandate}
use mandate_ledger.Event.{EventBody, CartSnapshot, authorized_event, paid_event}
use mandate_ledger.Store.Interface.{Record}
use mandate_ledger.Store.Inner.{Inner}
use mandate_ledger.Store.Commit.{apply_nonce}
use mandate_ledger.Postgres.Tables.{Tables, Sql}
use mandate_ledger.Postgres.Convert.{money_from_sql}
use mandate_ledger.Postgres.Decide.{
  PgEffects, decided, read_reserved, guard_transition, claim_nonce, plan_release, decide_authorized,
  decide,
}
use mandate_ledger.Postgres.Agreement.{nonce_in}
use mandate_ledger.Postgres.Rows.{IsTyped, IsCurrency, money_from_sql-ok}
use mandate_ledger.Postgres.Stages.{CreatesTyped, ReservesCurrency}

-- The claim of a nonce touches nothing else.
pub record Claimed {Decimal Json : Type 0} (a b : Tables Decimal Json) : Type 0 where
  pub event_seq : a.event_seq ≡ b.event_seq
  pub events : a.events ≡ b.events
  pub contexts : a.contexts ≡ b.contexts
  pub reservations : a.reservations ≡ b.reservations
  pub authorizations : a.authorizations ≡ b.authorizations
  pub revocations : a.revocations ≡ b.revocations

module _ {Decimal : Type 0} ⦃ops : DecimalOps Decimal⦄ where
  money_add-currency : (a b c : Money Decimal) → money_add a b ≡ ok c → c.currency ≡ a.currency
  unfolding money_add ensure_same_currency
  money_add-currency a b c h = ground arith

module _ {Decimal : Type 0} where
  default-IsTyped :
      (ctx : ContextId) (fx : PgEffects Decimal)
      → fx.create ≡ none
      → fx.reserve ≡ none
      → CreatesTyped ctx fx.create × ReservesCurrency fx.reserve
  default-IsTyped ctx fx c r =
      (subst (CreatesTyped {Decimal = Decimal} ctx) (sym c) tt, subst ReservesCurrency (sym r) tt)

module _ {Decimal Json : Type 0} where
  -- What is reserved has a currency; where nothing is, that of the amount is taken.
  current-IsCurrency :
      (t : Tables Decimal Json) (id : MandateId) (reserved : Option (Money Decimal))
      (amount zero_amount : Money Decimal)
      → read_reserved t id ≡ ok reserved
      → zero_amount.currency ≡ amount.currency
      → IsCurrency amount.currency
      → IsCurrency (get_or zero_amount reserved).currency
  unfolding read_reserved
  current-IsCurrency t id none amount zero_amount h z typed = subst IsCurrency (sym z) typed
  current-IsCurrency t id (some m) amount zero_amount h z typed =
      elim (Option-cases (get t.reservations id)) [
        | inl missing ↦ absurd (ground (arith, h, missing))
        | inr (row, found) ↦
            let read : money_from_sql row.amount row.currency ≡ ok m = ground (arith, h, found) in
            let (amounts, currencies, is) = money_from_sql-ok row.amount row.currency m read in
            subst IsCurrency (sym currencies) is
      ]

module _ {Decimal Json : Type 0} ⦃ops : DecimalOps Decimal⦄ ⦃sql : Sql Decimal Json⦄
    (t claimed : Tables Decimal Json) (existing : Option (Record Decimal)) (ctx : ContextId)
    (at : Timestamp) (fx : PgEffects Decimal) where
  pub decided-Claimed :
      (body : EventBody Decimal)
      → decide t existing ctx at body ≡ ok (decided fx claimed)
      → Claimed claimed t
  unfolding decide decide_authorized guard_transition claim_nonce plan_release
  decided-Claimed (authorized_event mandate cart key) h = ground arith
  decided-Claimed body h = ground arith

  pub decided-nonces :
      (g : Inner Decimal) (body : EventBody Decimal)
      → ((k : Text × Text) → get t.nonces k ≡ get g.nonces k)
      → decide t existing ctx at body ≡ ok (decided fx claimed)
      → (k : Text × Text) → get claimed.nonces k ≡ get (apply_nonce g ctx (nonce_in body)).nonces k
  unfolding decide decide_authorized guard_transition claim_nonce plan_release apply_nonce
  decided-nonces g (authorized_event mandate cart key) same h k = ground (arith, same k)
  decided-nonces g (paid_event rail reference nonce amount key) same h k =
      elim (Option-cases (get t.nonces (rail, nonce))) [
        | inl free ↦ ground (
          arith,
          same k,
          free,
          get-insert t.nonces (rail, nonce) k ctx,
          get-insert g.nonces (rail, nonce) k ctx,
        )
        | inr (owner, found) ↦ ground (
          arith,
          same k,
          found,
          ==_eq owner ctx,
          ==_eq (rail, nonce) k,
          get-insert g.nonces (rail, nonce) k ctx,
        )
      ]
  decided-nonces g body same h k = ground (arith, same k)

  -- What an authorization reserves and creates.
  pub record Reserves (id : MandateId) (cart : CartSnapshot Decimal) : Type 0 where
    pub reserved : Option (Money Decimal)
    pub next : Money Decimal
    pub read : read_reserved t id ≡ ok reserved
    pub added :
        money_add (get_or (money_zero cart.claims.total.currency) reserved) cart.claims.total
        ≡ ok next
    pub reserves : fx.reserve ≡ some (id, next)
    pub frees : fx.release ≡ none
    pub creates : fx.create ≡ some (id, cart.hash, cart.claims.merchant, cart.claims.total)

  pub decided-Reserves :
      (mandate : Mandate Decimal) (cart : CartSnapshot Decimal)
      → decide_authorized t existing ctx at mandate cart ≡ ok (decided fx claimed)
      → Reserves mandate.body.id cart
  unfolding decide_authorized guard_transition
  decided-Reserves mandate cart h = elim (Result-cases (read_reserved t mandate.body.id)) [
    | inr (failure, stuck) ↦ absurd (ground (arith, h, stuck))
    | inl (reserved, read) ↦
        let total = cart.claims.total in
        elim (Result-cases (money_add (get_or (money_zero total.currency) reserved) total)) [
          | inr (failure, stuck) ↦ absurd (ground (arith, h, read, stuck))
          | inl (next, added) ↦ record {
            reserved = reserved;
            next = next;
            read = read;
            added = added;
            reserves = ground (arith, h, read, added);
            frees = ground (arith, h, read, added);
            creates = ground (arith, h, read, added);
          }
        ]
  ]

  pub decided-IsTyped :
      (body : EventBody Decimal)
      → IsTyped ctx body
      → decide t existing ctx at body ≡ ok (decided fx claimed)
      → CreatesTyped ctx fx.create × ReservesCurrency fx.reserve
  unfolding decide guard_transition claim_nonce plan_release
  decided-IsTyped (authorized_event mandate cart key) (a, b, c, d, e) h =
      let r = decided-Reserves mandate cart h in
      let total = cart.claims.total in
      let zero_amount = money_zero total.currency in
      let current =
        current-IsCurrency t mandate.body.id r.reserved total zero_amount r.read refl e in
      (
        subst (CreatesTyped {Decimal = Decimal} ctx) (sym r.creates) (a, b, c, d, e),
        subst ReservesCurrency (sym r.reserves) (
            subst IsCurrency
              (sym (money_add-currency (get_or zero_amount r.reserved) total r.next r.added))
              current),
      )
  decided-IsTyped body typed h = default-IsTyped ctx fx (ground arith) (ground arith)
