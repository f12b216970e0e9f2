-- ===== src/Postgres/Query.antt =====
-- The queries of `PostgresStore` and its `Store` instance (crates/ml-store-postgres/src/store.rs).
use mandate_ledger.Prelude.{
  ℕ, Bool, true, ◌&&◌, Option, none, some, List, [], ◌∷◌, map, any, keep, take, if◌then◌else◌,
  Result, ok, err, ◌>>=◌, map_err, ◌==◌, list_eq, nat_eq,
}
use mandate_ledger.Prelude.Int.{ℤ, pos, pos_part, ltb_ℤ}
use mandate_ledger.Text.{codes, text_lt}
use mandate_ledger.Text.Codec.{HexDecode}
use mandate_ledger.Hash.{Sha256, CanonicalJson}
use mandate_ledger.Ids.{Hex, ContextId}
use mandate_ledger.Money.{DecimalOps}
use mandate_ledger.Mandate.Body.{Mandate}
use mandate_ledger.Event.{Event, EventBody, Preimage, authorized_event}
use mandate_ledger.Error.{StoreError, corrupt}
use mandate_ledger.Store.Interface.{Record, RecordFilter, Store}
use mandate_ledger.Postgres.Tables.{Tables, EventRow, ContextRow, Sql}
use mandate_ledger.Postgres.Convert.{
  bigint, state_to_sql, record_from_row, event_from_row, u64_from,
}
use mandate_ledger.Postgres.Decide.{read_record, read_reserved}
use mandate_ledger.Postgres.Write.{pg_append, pg_revoke}

-- `.map(f).collect()` into a result: the first error is returned.
unfoldable pub collect :
    {A B : Type 0} → (A → Result StoreError B) → List A → Result StoreError (List B)
collect f [] = ok []
collect f (x ∷ xs) = let rest = collect f xs in f x >>= λ y. rest >>= λ ys. ok (y ∷ ys)

-- `LIMIT`
abbrev pub limit_rows : {A : Type 0} → ℕ → List A → List A
limit_rows limit rows = take (pos_part (bigint limit)) rows

module _ {Json : Type 0} where
  -- `ORDER BY seq`
  unfoldable pub insert_row : EventRow Json → List (EventRow Json) → List (EventRow Json)
  insert_row r [] = r ∷ []
  insert_row r (x ∷ rows) = if ltb_ℤ x.seq r.seq then x ∷ insert_row r rows else r ∷ x ∷ rows

  unfoldable pub by_seq : List (EventRow Json) → List (EventRow Json)
  unfolding insert_row
  by_seq [] = []
  by_seq (r ∷ rows) = insert_row r (by_seq rows)

  -- `coalesce(max(seq), 0)`
  unfoldable pub max_seq : List (EventRow Json) → ℤ
  max_seq [] = pos 0
  max_seq (r ∷ []) = r.seq
  max_seq (r ∷ x ∷ rows) = let rest = max_seq (x ∷ rows) in if ltb_ℤ rest r.seq then r.seq else rest

module _ {Decimal : Type 0} where
  -- The mandate of a body that is tagged `authorized`.
  unfoldable pub mandate_of_body : EventBody Decimal → Result StoreError (Option (Mandate Decimal))
  mandate_of_body (authorized_event mandate cart key) = ok (some mandate)
  mandate_of_body _ = err (corrupt (codes "an event tagged authorized that is not Authorized"))

  -- `ORDER BY ctx COLLATE "C"`, the order of the bytes.
  unfoldable pub insert_context :
      ContextRow Decimal → List (ContextRow Decimal) → List (ContextRow Decimal)
  insert_context r [] = r ∷ []
  insert_context r (x ∷ rows) =
      if text_lt x.ctx r.ctx then x ∷ insert_context r rows else r ∷ x ∷ rows

  unfoldable pub by_context : List (ContextRow Decimal) → List (ContextRow Decimal)
  unfolding insert_context
  by_context [] = []
  by_context (r ∷ rows) = insert_context r (by_context rows)

  -- The `WHERE` of `scan`.
  unfoldable pub row_matches : RecordFilter → Option ContextId → ContextRow Decimal → Bool
  unfolding state_to_sql
  row_matches filter after row =
      elim filter.mandate [ none ↦ true | some m ↦ row.mandate_id == m ]
      && elim filter.state [ none ↦ true | some s ↦ row.state == state_to_sql s ]
      && elim after [ none ↦ true | some a ↦ text_lt a row.ctx ]

module _ {Decimal Json : Type 0} ⦃sql : Sql Decimal Json⦄ ⦃dec : HexDecode⦄ where
  -- `events`
  unfoldable pub pg_events :
      Tables Decimal Json → ContextId → Result StoreError (List (Event Decimal))
  unfolding collect by_seq event_from_row
  pg_events t ctx = collect event_from_row (by_seq (keep (λ r. r.ctx == ctx) t.events))

  -- `authorized_mandate`
  unfoldable pub pg_authorized_mandate :
      Tables Decimal Json → ContextId → Result StoreError (Option (Mandate Decimal))
  unfolding by_seq mandate_of_body
  pg_authorized_mandate t ctx =
      elim (by_seq
        (keep (λ r. r.ctx == ctx && sql.type_tag r.body == codes "authorized") t.events)) [
          | [] ↦ ok none
          | r ∷ rows ↦ map_err corrupt (sql.from_value r.body) >>= mandate_of_body
        ]

  -- `events_after`
  unfoldable pub pg_events_after :
      Tables Decimal Json → ℕ → ℕ → Result StoreError (List (Event Decimal))
  unfolding collect by_seq event_from_row bigint
  pg_events_after t after limit =
      collect event_from_row
        (limit_rows limit (by_seq (keep (λ r. ltb_ℤ (bigint after) r.seq) t.events)))

  -- `scan`
  unfoldable pub pg_scan :
      Tables Decimal Json
      → RecordFilter
      → Option ContextId
      → ℕ
      → Result StoreError (List (Record Decimal))
  unfolding collect by_context row_matches record_from_row bigint
  pg_scan t filter after limit =
      collect record_from_row (
        limit_rows limit (by_context (keep (row_matches filter after) (map (λ e. e.1) t.contexts))))

  -- `last_seq`
  unfoldable pub pg_last_seq : Tables Decimal Json → Result StoreError ℕ
  unfolding max_seq u64_from
  pg_last_seq t = u64_from (max_seq t.events)

module _ {Decimal Json : Type 0} ⦃ops : DecimalOps Decimal⦄ ⦃sql : Sql Decimal Json⦄ ⦃hex : Hex⦄
    ⦃dec : HexDecode⦄ ⦃sha : Sha256⦄ ⦃json : CanonicalJson (Preimage Decimal)⦄ where
  -- `Store for PostgresStore`
  instance abbrev pub postgres_store : Store Decimal (Tables Decimal Json)
  postgres_store = record {
    get_record = λ ctx t. (read_record t ctx, t);
    events = λ ctx t. (pg_events t ctx, t);
    authorized_mandate = λ ctx t. (pg_authorized_mandate t ctx, t);
    append = pg_append;
    events_after = λ after limit t. (pg_events_after t after limit, t);
    scan = λ filter after limit t. (pg_scan t filter after limit, t);
    last_seq = λ t. (pg_last_seq t, t);
    reserved = λ mandate t. (read_reserved t mandate, t);
    is_revoked = λ mandate t. (ok (any (λ m. m == mandate) t.revocations), t);
    revoke = λ mandate t. (ok tt, pg_revoke t mandate);
  }
