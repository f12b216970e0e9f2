-- ===== src/Postgres/Logged.antt =====
-- The row of an event beside the event that the in-memory store pushes.
use mandate_ledger.Prelude.{
  ℕ, ◌+◌, ◌≡◌, refl, ap, ◌∙◌, subst, Bool, true, ◌&&◌, some, List, [], ◌∷◌, ◌++◌, ok, arith,
  Result-cases, Bool-cases, inl, inr, ◌==◌, list_eq, nat_eq, if◌then◌else◌, length-keep-snoc, all,
}
use mandate_ledger.Prelude.Int.{pos, leb_ℤ}
use mandate_ledger.Text.{Text, codes}
use mandate_ledger.Text.Codec.{HexDecode, HexLaws}
use mandate_ledger.Hash.{Hash32, Sha256, CanonicalJson, chain}
use mandate_ledger.Hash.Display.{IsHash}
use mandate_ledger.Time.{Timestamp}
use mandate_ledger.Ids.{Hex, ContextId}
use mandate_ledger.Event.{
  Event, EventBody, Preimage, new_event, compute_hash, authorized_event, denied_event, paid_event,
  settled_event, failed_event, compensated_event, delivered_event, expired_event,
}
use mandate_ledger.Store.Inner.{is_denied}
use mandate_ledger.Postgres.Tables.{Tables, EventRow, Sql, SqlLaws, body_tag}
use mandate_ledger.Postgres.Decide.{denied_count}
use mandate_ledger.Postgres.Write.{hash_in_row, previous_hash, latest_row, write_event, event_row}
use mandate_ledger.Postgres.Rows.{hash_from_sql-display_hash}

-- A digest is 32 bytes, which the type of `Sha256::digest` says.
pub record Sha256Laws ⦃sha : Sha256⦄ : Type 0 where
  pub digest-IsHash : (bytes : List ℕ) → IsHash (sha.digest bytes)

module _ {Json : Type 0} where
  -- The rows are numbered up to `n`.
  abbrev pub NumberedTo : ℕ → List (EventRow Json) → Type 0
  NumberedTo n rows = all (λ r. leb_ℤ r.seq (pos n)) rows ≡ true

  -- A row with the next number is the latest of its context.
  latest_row-snoc :
      (c : Text) (n : ℕ) (rows : List (EventRow Json)) (x : EventRow Json)
      → x.seq ≡ pos (n + 1)
      → NumberedTo n rows
      → latest_row c (rows ++ x ∷ []) ≡ (if x.ctx == c then some x else latest_row c rows)
  unfolding latest_row
  latest_row-snoc c n [] x next h = ground arith
  latest_row-snoc c n (r ∷ rows) x next h = ground (arith, latest_row-snoc c n rows x next)

  NumberedTo-snoc :
      (n : ℕ) (rows : List (EventRow Json)) (x : EventRow Json)
      → x.seq ≡ pos (n + 1)
      → NumberedTo n rows
      → NumberedTo (n + 1) (rows ++ x ∷ [])
  NumberedTo-snoc n [] x next h = ground arith
  NumberedTo-snoc n (r ∷ rows) x next h = ground (arith, NumberedTo-snoc n rows x next)

module _ {Decimal : Type 0} where
  is_denied-body_tag : (b : EventBody Decimal) → (body_tag b == codes "denied") ≡ is_denied b
  unfolding body_tag
  is_denied-body_tag (authorized_event m c k) = refl
  is_denied-body_tag (denied_event s r d) = refl
  is_denied-body_tag (paid_event r f n a k) = refl
  is_denied-body_tag (settled_event r f) = refl
  is_denied-body_tag (failed_event r f) = refl
  is_denied-body_tag (compensated_event r) = refl
  is_denied-body_tag (delivered_event r) = refl
  is_denied-body_tag expired_event = refl

  pub new_event-IsHash :
      ⦃sha : Sha256⦄ ⦃laws : Sha256Laws⦄ ⦃json : CanonicalJson (Preimage Decimal)⦄ (prev : Hash32)
      (n : ℕ) (ctx : ContextId) (at : Timestamp) (body : EventBody Decimal) (e : Event Decimal)
      → new_event prev n ctx at body ≡ ok e
      → IsHash e.hash × (e.seq ≡ n) × (e.ctx ≡ ctx) × (e.body ≡ body)
  unfolding new_event compute_hash chain
  new_event-IsHash ⦃sha⦄ ⦃laws⦄ ⦃json⦄ prev n ctx at body e h =
      let preimage : Preimage Decimal = record { seq = n; ctx = ctx; at = at; body = body } in
      elim (Result-cases (json.canonical_json preimage)) [
        | inr (failure, stuck) ↦ absurd (ground (arith, h, stuck))
        | inl (bytes, written) ↦
            let hashed : sha.digest (prev ++ bytes) ≡ e.hash = ground (arith, h, written) in
            (
              subst IsHash hashed (laws.digest-IsHash (prev ++ bytes)),
              ground (arith, h, written),
              ground (arith, h, written),
              ground (arith, h, written),
            )
      ]

module _ {Decimal Json : Type 0} ⦃sql : Sql Decimal Json⦄ ⦃hex : Hex⦄ where
  -- What a row that could be inserted is.
  pub record Inserted (t t' : Tables Decimal Json) (at : Timestamp) (e : Event Decimal)
      : Type 0 where
    pub body : Json
    pub encoded : sql.to_value e.body ≡ ok body
    pub rows : t'.events ≡ t.events ++ event_row at e body ∷ []
    pub event_seq : t'.event_seq ≡ t.event_seq
    pub contexts : t'.contexts ≡ t.contexts
    pub reservations : t'.reservations ≡ t.reservations
    pub authorizations : t'.authorizations ≡ t.authorizations
    pub nonces : t'.nonces ≡ t.nonces
    pub revocations : t'.revocations ≡ t.revocations

  pub write_event-Inserted :
      (t t' : Tables Decimal Json) (at : Timestamp) (e : Event Decimal)
      → write_event t at e ≡ ok t'
      → Inserted t t' at e
  unfolding write_event
  write_event-Inserted t t' at e h = elim (Result-cases (sql.to_value e.body)) [
    | inr (failure, stuck) ↦ absurd (ground (arith, h, stuck))
    | inl (body, encoded) ↦ record {
      body = body;
      encoded = encoded;
      rows = ground (arith, h, encoded);
      event_seq = ground (arith, h, encoded);
      contexts = ground (arith, h, encoded);
      reservations = ground (arith, h, encoded);
      authorizations = ground (arith, h, encoded);
      nonces = ground (arith, h, encoded);
      revocations = ground (arith, h, encoded);
    }
  ]

  module _ ⦃laws : SqlLaws Decimal Json⦄ {t t' : Tables Decimal Json} {at : Timestamp}
      {e : Event Decimal} (w : Inserted t t' at e) where
    -- The refusals of a context, after the row.
    pub denied_count-Inserted :
        (c : ContextId)
        → denied_count t' c ≡ denied_count t c + (if e.ctx == c && is_denied e.body then 1 else 0)
    unfolding denied_count
    denied_count-Inserted c = rw w.rows (
        length-keep-snoc (λ r. r.ctx == c && sql.type_tag r.body == codes "denied") t.events
          (event_row at e w.body)
        ∙ ap (λ (b : Bool). denied_count t c + (if e.ctx == c && b then 1 else 0))
            (ap (λ (x : Text). x == codes "denied") (laws.tagged e.body w.body w.encoded)
              ∙ is_denied-body_tag e.body))

    -- The hash that the next event of a context is chained on, after the row.
    pub previous_hash-Inserted :
        ⦃dec : HexDecode⦄
        → ⦃hex_laws : HexLaws⦄ → (n : ℕ) → e.seq ≡ n + 1
        → NumberedTo n t.events
        → IsHash e.hash
        → (c : ContextId)
        → previous_hash t' c ≡ (if e.ctx == c then ok e.hash else previous_hash t c)
    unfolding previous_hash
    previous_hash-Inserted n next numbered hash c =
        ap hash_in_row (
          ap (latest_row c) w.rows
          ∙ latest_row-snoc c n t.events (event_row at e w.body) (ap pos next) numbered)
        ∙ elim (Bool-cases (e.ctx == c)) [
          | inl same ↦ rw same (hash_from_sql-display_hash e.hash hash)
          | inr other ↦ rw other refl
        ]

    pub NumberedTo-Inserted :
        (n : ℕ) → e.seq ≡ n + 1 → NumberedTo n t.events → NumberedTo (n + 1) t'.events
    NumberedTo-Inserted n next numbered =
        rw w.rows (NumberedTo-snoc n t.events (event_row at e w.body) (ap pos next) numbered)
