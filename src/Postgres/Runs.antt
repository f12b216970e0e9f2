-- ===== src/Postgres/Runs.antt =====
-- The Postgres store as an implementation of the in-memory store: runs of the same calls on both, one
-- after another.
use mandate_ledger.Prelude.{◌≡◌, ok}
use mandate_ledger.Text.Codec.{HexDecode, HexLaws}
use mandate_ledger.Hash.{Sha256, CanonicalJson}
use mandate_ledger.Time.{Timestamp}
use mandate_ledger.Ids.{Hex, ContextId, MandateId}
use mandate_ledger.Money.{DecimalOps}
use mandate_ledger.Event.{EventBody, Preimage}
use mandate_ledger.Store.Interface.{AppendOutcome}
use mandate_ledger.Store.Inner.{Inner}
use mandate_ledger.Store.Commit.{append}
use mandate_ledger.Store.Memory.{empty_store, revoke_id}
use mandate_ledger.Postgres.Tables.{Tables, Sql, SqlLaws, no_rows}
use mandate_ledger.Postgres.Write.{pg_append, pg_revoke}
use mandate_ledger.Postgres.Agreement.{Agrees}
use mandate_ledger.Postgres.Rows.{IsTyped}
use mandate_ledger.Postgres.Logged.{Sha256Laws}
use mandate_ledger.Postgres.Start.{Agrees-no_rows, Agrees-revoke}
use mandate_ledger.Postgres.Refinement.{pg_append-append}

module _ {Decimal Json : Type 0} ⦃ops : DecimalOps Decimal⦄ ⦃sql : Sql Decimal Json⦄ ⦃hex : Hex⦄
    ⦃dec : HexDecode⦄ ⦃sha : Sha256⦄ ⦃json : CanonicalJson (Preimage Decimal)⦄ where
  -- The states that the two stores are in after the same calls, each of which ends before the next
  -- begins, where no append of the Postgres store
  -- has failed. A call that fails is rolled back, but may use up a number, which the other store does not.
  pub data SameCalls : Tables Decimal Json → Inner Decimal → Type 0 where
    fresh : SameCalls no_rows empty_store
    appends :
        (t t' : Tables Decimal Json) (g : Inner Decimal) (ctx : ContextId) (at : Timestamp)
        (body : EventBody Decimal) (out : AppendOutcome Decimal)
        → SameCalls t g
        → IsTyped ctx body
        → pg_append ctx at body t ≡ (ok out, t')
        → SameCalls t' (append ctx at body g).1
    revokes :
        (t : Tables Decimal Json) (g : Inner Decimal) (id : MandateId)
        → SameCalls t g
        → SameCalls (pg_revoke t id) (revoke_id g id)

  module _ ⦃hex_laws : HexLaws⦄ ⦃sql_laws : SqlLaws Decimal Json⦄ ⦃sha_laws : Sha256Laws⦄ where
    SameCalls-Agrees : (t : Tables Decimal Json) (g : Inner Decimal) → SameCalls t g → Agrees t g
    SameCalls-Agrees t g fresh = Agrees-no_rows
    SameCalls-Agrees t' g (appends t t1 h ctx at body out run typed done) =
        (pg_append-append t t' h ctx at body out (SameCalls-Agrees t h run) typed done).1
    SameCalls-Agrees t g (revokes t0 h id run) = Agrees-revoke t0 h id (SameCalls-Agrees t0 h run)

    -- After the same appends and revocations on a fresh database and an empty in-memory store, one
    -- after another, none of which failed on the database, an append on the database that ends without
    -- an error, and during which nothing else is committed, has the outcome that it has in memory: the
    -- same event with the same number and hash, or the same refusal. The two then hold the same
    -- records, reservations, velocity counts, nonces, revocations and counts of refusals, and go on
    -- from the same hashes. The values are what the source's types say.
    pub postgres_refines_memory :
        (t t' : Tables Decimal Json) (g : Inner Decimal) (ctx : ContextId) (at : Timestamp)
        (body : EventBody Decimal) (out : AppendOutcome Decimal)
        → SameCalls t g
        → IsTyped ctx body
        → pg_append ctx at body t ≡ (ok out, t')
        → ((append ctx at body g).0 ≡ ok out) × Agrees t' (append ctx at body g).1
    postgres_refines_memory t t' g ctx at body out run typed done =
        pg_append-append t t' g ctx at body out (SameCalls-Agrees t g run) typed done
