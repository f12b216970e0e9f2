-- ===== src/Postgres/Start.antt =====
-- Where the two stores begin to agree: empty, and what revocation keeps.
use mandate_ledger.Prelude.{
  refl, ap, Bool, ◌||◌, any, ◌∷◌, ◌==◌, list_eq, nat_eq, Bool-cases, inl, inr,
}
use mandate_ledger.Prelude.Map.{get}
use mandate_ledger.Text.Codec.{HexDecode}
use mandate_ledger.Ids.{MandateId}
use mandate_ledger.Store.Inner.{Inner, window_count, denial_count, events_of}
use mandate_ledger.Store.Commit.{last_hash}
use mandate_ledger.Store.Memory.{empty_store, revoke_id}
use mandate_ledger.Postgres.Tables.{Tables, Sql, no_rows}
use mandate_ledger.Postgres.Decide.{read_record, read_reserved, recent_count, denied_count}
use mandate_ledger.Postgres.Write.{previous_hash, latest_row, pg_revoke}
use mandate_ledger.Postgres.Agreement.{Agrees}

module _ {Decimal Json : Type 0} ⦃sql : Sql Decimal Json⦄ ⦃dec : HexDecode⦄ where
  -- A fresh database agrees with an empty store.
  pub Agrees-no_rows : Agrees (no_rows {Decimal = Decimal} {Json = Json}) empty_store
  unfolding read_record read_reserved recent_count window_count denied_count denial_count events_of
      previous_hash latest_row last_hash get
  Agrees-no_rows = record {
    seq = refl;
    records = λ c. refl;
    reserved = λ m. refl;
    counts = λ m since. refl;
    nonces = λ k. refl;
    revoked = λ m. refl;
    denials = λ c. refl;
    hashes = λ c. refl;
    numbered = refl;
    indexed = λ c. refl;
  }

  revoked-Agrees :
      (t : Tables Decimal Json) (g : Inner Decimal) (id : MandateId)
      → Agrees t g
      → Agrees
          (record t { revocations = id ∷ t.revocations })
          (record g { revoked_ids = id ∷ g.revoked_ids })
  unfolding read_record read_reserved recent_count window_count denied_count denial_count events_of
      previous_hash
  revoked-Agrees t g id a = record {
    seq = a.seq;
    records = a.records;
    reserved = a.reserved;
    counts = a.counts;
    nonces = a.nonces;
    revoked = λ m. ap (λ (b : Bool). id == m || b) (a.revoked m);
    denials = a.denials;
    hashes = a.hashes;
    numbered = a.numbered;
    indexed = a.indexed;
  }

  -- A revocation keeps the agreement.
  pub Agrees-revoke :
      (t : Tables Decimal Json) (g : Inner Decimal) (id : MandateId)
      → Agrees t g
      → Agrees (pg_revoke t id) (revoke_id g id)
  unfolding pg_revoke revoke_id
  Agrees-revoke t g id a = elim (Bool-cases (any (λ m. m == id) g.revoked_ids)) [
    | inl already ↦ rw (a.revoked id, already) a
    | inr new ↦ rw (a.revoked id, new) (revoked-Agrees t g id a)
  ]
