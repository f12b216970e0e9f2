-- ===== src/Postgres/Races.antt =====
-- Two transactions of the Postgres store at once: what an authorization writes when others have
-- committed between its reads and its lock on the log (crates/ml-store-postgres/src/store.rs).
use mandate_ledger.Prelude.{
  ◌≡◌, ap, sym, ok_injective, ◌∙◌, ok, some, none, arith, ==_refl, list_eq, nat_eq, Option,
}
use mandate_ledger.Prelude.Map.{get, get-insert, get_or, insert}
use mandate_ledger.Text.Codec.{HexDecode}
use mandate_ledger.Hash.{Hash32, Sha256, CanonicalJson}
use mandate_ledger.Time.{Timestamp}
use mandate_ledger.Ids.{Hex, ContextId, MandateId}
use mandate_ledger.Money.{DecimalOps, Money, money_zero, money_add}
use mandate_ledger.Mandate.Body.{Mandate}
use mandate_ledger.Event.{Event, EventBody, CartSnapshot, Preimage, authorized_event}
use mandate_ledger.Store.Interface.{Record}
use mandate_ledger.Postgres.Tables.{Tables, ReservationRow, Sql}
use mandate_ledger.Postgres.Decide.{PgEffects, decided, read_reserved, decide}
use mandate_ledger.Postgres.Write.{write, write_reserve, write_release, write_update, drawn}
use mandate_ledger.Postgres.Stages.{create-Kept, update-Kept}
use mandate_ledger.Postgres.Logged.{write_event-Inserted}
use mandate_ledger.Postgres.Success.{write-Wrote}
use mandate_ledger.Postgres.Decided.{decided-Reserves}

-- The row that holds a reservation.
abbrev pub row_of : {Decimal : Type 0} → Money Decimal → ReservationRow Decimal
row_of m = record { amount = m.amount; currency = m.currency }

module _ {Decimal Json : Type 0} ⦃ops : DecimalOps Decimal⦄ ⦃sql : Sql Decimal Json⦄ ⦃hex : Hex⦄
    ⦃dec : HexDecode⦄ ⦃sha : Sha256⦄ ⦃json : CanonicalJson (Preimage Decimal)⦄ where
  -- The reservation that phase 2 writes, where it releases none.
  reserve-row :
      (t freed : Tables Decimal Json) (ctx : ContextId) (at : Timestamp) (fx : PgEffects Decimal)
      (id : MandateId) (next : Money Decimal)
      → fx.reserve ≡ some (id, next)
      → fx.release ≡ none
      → write_release (write_reserve t ctx at fx.reserve) fx.release ≡ ok freed
      → freed.reservations ≡ insert t.reservations id (row_of next)
  unfolding write_reserve write_release
  reserve-row t freed ctx at fx id next reserves frees h =
      sym (
        ap (λ (x : Tables Decimal Json). x.reservations) (ok_injective (rw (reserves, frees) at h)))

  -- Phase 2 of an authorization writes the row of its reservation, whatever was in it.
  written_reservation :
      (fx : PgEffects Decimal) (ctx : ContextId) (at : Timestamp) (body : EventBody Decimal)
      (t t' : Tables Decimal Json) (e : Event Decimal) (id : MandateId) (next : Money Decimal)
      → fx.reserve ≡ some (id, next)
      → fx.release ≡ none
      → write fx ctx at body t ≡ ok (e, t')
      → get t'.reservations id ≡ some (row_of next)
  written_reservation fx ctx at body t t' e id next reserves frees h =
      let w = write-Wrote fx ctx at body t e t' h in
      let logged =
        (write_event-Inserted (write_update w.created ctx e.body) t' at e w.logged).reservations in
      let updated = (update-Kept w.created ctx e.body).1 in
      let opened = (create-Kept w.released w.created ctx fx.create w.opened).1 in
      let freed = reserve-row t w.released ctx at fx id next reserves frees w.freed in
      ap (λ r. get r id) (logged ∙ (updated ∙ (opened ∙ freed)))
      ∙ ground (arith, get-insert t.reservations id id (row_of next), ==_refl id)

  -- An authorization that has read and decided on the tables `read`, and writes on the tables `now`
  -- that others have committed in the meantime, leaves of its mandate's reservation what it had read
  -- with its amount added, whatever is reserved now. A release that was committed in between, for
  -- which the store takes no lock of the mandate, is lost.
  pub late_write_overwrites :
      (read now written : Tables Decimal Json) (existing : Option (Record Decimal))
      (ctx : ContextId) (at : Timestamp) (mandate : Mandate Decimal) (cart : CartSnapshot Decimal)
      (key : Hash32) (fx : PgEffects Decimal) (claimed : Tables Decimal Json) (e : Event Decimal)
      → decide read existing ctx at (authorized_event mandate cart key) ≡ ok (decided fx claimed)
      → write fx ctx at (authorized_event mandate cart key) (drawn now) ≡ ok (e, written)
      → (reserved : Option (Money Decimal)) × (next : Money Decimal) × (read_reserved read
            mandate.body.id
          ≡ ok reserved)
        × (money_add (get_or (money_zero cart.claims.total.currency) reserved) cart.claims.total
            ≡ ok next)
        × (get written.reservations mandate.body.id ≡ some (row_of next))
  unfolding decide
  late_write_overwrites read now written existing ctx at mandate cart key fx claimed e chosen
        wrote =
      let r = decided-Reserves read claimed existing ctx at fx mandate cart chosen in
      (
        r.reserved,
        r.next,
        r.read,
        r.added,
        written_reservation fx ctx at (authorized_event mandate cart key) (drawn now) written e
            mandate.body.id r.next r.reserves r.frees wrote,
      )
