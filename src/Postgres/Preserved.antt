-- ===== src/Postgres/Preserved.antt =====
-- Field by field, the tables and the in-memory store agree after an append that has written.
use mandate_ledger.Prelude.{
  ℕ, ◌+◌, ◌≡◌, ap, sym, ◌∙◌, subst, ◌&&◌, List, [], ◌∷◌, ◌++◌, Result, ok, arith, Bool-cases, inl,
  inr, ◌==◌, list_eq, nat_eq, pair_eq, if◌then◌else◌, any, last-snoc,
}
use mandate_ledger.Prelude.Map.{Map, get}
use mandate_ledger.Text.{Text}
use mandate_ledger.Text.Codec.{HexDecode, HexLaws}
use mandate_ledger.Hash.{Sha256, CanonicalJson}
use mandate_ledger.Hash.Display.{IsHash}
use mandate_ledger.Time.{Timestamp}
use mandate_ledger.Ids.{Hex, ContextId, MandateId}
use mandate_ledger.Money.{DecimalOps, Money}
use mandate_ledger.Event.{Event, EventBody, Preimage}
use mandate_ledger.Error.{StoreError}
use mandate_ledger.Store.Interface.{AppendOutcome, Record}
use mandate_ledger.Store.Inner.{Inner, window_count, denial_count, events_of, is_denied}
use mandate_ledger.Store.Commit.{
  apply_reserve, apply_nonce, apply_new_record, push_event, append, last_hash,
}
use mandate_ledger.Store.Chain.{IsIndexed, chain_of, events_of-eq-chain}
use mandate_ledger.Store.Append.{committed}
use mandate_ledger.Store.Audit.{chain_of-snoc}
use mandate_ledger.Store.Denials.{denials, denials-snoc}
use mandate_ledger.Store.Log.{events-append, last_seq-append, revoked_ids-append, IsIndexed-append}
use mandate_ledger.Postgres.Tables.{Tables, EventRow, Sql, SqlLaws}
use mandate_ledger.Postgres.Decide.{read_record, read_reserved, recent_count, denied_count}
use mandate_ledger.Postgres.Write.{previous_hash, write_reserve, write_update, drawn}
use mandate_ledger.Postgres.Agreement.{nonce_in, created_record, Agrees}
use mandate_ledger.Postgres.Rows.{IsTyped}
use mandate_ledger.Postgres.Stages.{
  Kept, SameRecords, reserve-counts, release-Kept, create-Kept, update-Kept, create-SameRecords,
  update-SameRecords,
}
use mandate_ledger.Postgres.Decided.{decided-nonces}
use mandate_ledger.Postgres.Frames.{
  read_record-contexts, read_reserved-reservations, recent_count-authorizations,
  denied_count-events, previous_hash-events, window_count-auth_times, reserve-frame, release-frame,
  nonce-frame, nonce-records, Untouched, committed-Untouched, ReservedOnly,
  write_reserve-ReservedOnly, Kept-trans,
}
use mandate_ledger.Postgres.Logged.{
  Sha256Laws, NumberedTo, Inserted, write_event-Inserted, denied_count-Inserted,
  previous_hash-Inserted, NumberedTo-Inserted, new_event-IsHash,
}
use mandate_ledger.Postgres.Success.{
  Success, claim, fits, effects, release_both, result, commitment,
}

last_hash-snoc :
    {Decimal : Type 0} (es : List (Event Decimal)) (x : Event Decimal)
    → last_hash (es ++ x ∷ []) ≡ x.hash
unfolding last_hash
last_hash-snoc es x = ground (arith, last-snoc es x)

module _ {Decimal Json : Type 0} ⦃ops : DecimalOps Decimal⦄ ⦃sql : Sql Decimal Json⦄ ⦃hex : Hex⦄
    ⦃dec : HexDecode⦄ ⦃sha : Sha256⦄ ⦃json : CanonicalJson (Preimage Decimal)⦄ ⦃hex_laws : HexLaws⦄
    ⦃sql_laws : SqlLaws Decimal Json⦄ ⦃sha_laws : Sha256Laws⦄ where
  module _ {t : Tables Decimal Json} {g : Inner Decimal} {ctx : ContextId} {at : Timestamp}
      {body : EventBody Decimal} {e : Event Decimal} {t' : Tables Decimal Json}
      (s : Success t g ctx at body e t') where
    -- The tables before the row of the event.
    abbrev updated : Tables Decimal Json
    updated = write_update s.wrote.created ctx e.body

    inserted : Inserted (write_update s.wrote.created ctx e.body) t' at e
    inserted = write_event-Inserted updated t' at e s.wrote.logged

    reserve_only :
        ReservedOnly (write_reserve (drawn s.claimed) ctx at s.fx.reserve) (drawn s.claimed)
    reserve_only = write_reserve-ReservedOnly (drawn s.claimed) ctx at s.fx.reserve

    released_rows :
        Kept s.wrote.released (write_reserve (drawn s.claimed) ctx at s.fx.reserve)
        × (s.wrote.released.contexts
            ≡ (write_reserve (drawn s.claimed) ctx at s.fx.reserve).contexts)
    released_rows =
        release-Kept (write_reserve (drawn s.claimed) ctx at s.fx.reserve) s.wrote.released
          s.fx.release s.wrote.freed

    created_rows :
        Kept s.wrote.created s.wrote.released
        × (s.wrote.created.reservations ≡ s.wrote.released.reservations)
    created_rows = create-Kept s.wrote.released s.wrote.created ctx s.fx.create s.wrote.opened

    updated_rows :
        Kept (write_update s.wrote.created ctx e.body) s.wrote.created
        × ((write_update s.wrote.created ctx e.body).reservations ≡ s.wrote.created.reservations)
    updated_rows = update-Kept s.wrote.created ctx e.body

    -- From the reservation on, only the release, the creation and the update come before the row.
    kept :
        Kept
          (write_update s.wrote.created ctx e.body)
          (write_reserve (drawn s.claimed) ctx at s.fx.reserve)
    kept = Kept-trans updated_rows.0 (Kept-trans created_rows.0 released_rows.0)

    event : IsHash e.hash × (e.seq ≡ s.claimed.event_seq + 1) × (e.ctx ≡ ctx) × (e.body ≡ body)
    event = new_event-IsHash s.wrote.prev (s.claimed.event_seq + 1) ctx at body e s.wrote.made

    old_events : (write_update s.wrote.created ctx e.body).events ≡ t.events
    old_events = kept.events ∙ (reserve_only.events ∙ (claim s).events)

    -- The state of the in-memory store after its append.
    abbrev after : Inner Decimal
    after = (append ctx at body g).1

    now : after ≡ committed (release_both s).0 ctx (effects s) e
    now = ap (λ (p : Result StoreError (AppendOutcome Decimal) × Inner Decimal). p.1) (result s)

    next : e.seq ≡ t.event_seq + 1
    next = event.1 ∙ ap (λ (n : ℕ). n + 1) (claim s).event_seq

    seq-after : t'.event_seq ≡ after.last_seq
    seq-after =
        inserted.event_seq
        ∙ (kept.event_seq
            ∙ (reserve_only.event_seq ∙ (sym event.1 ∙ sym (last_seq-append (commitment s)))))

    untouched : Untouched (release_both s).0 ctx (effects s) e
    untouched = committed-Untouched (release_both s).0 ctx (effects s) e

    released_state :
        ((release_both s).0.records ≡ g.records)
        × ((release_both s).0.auth_times
            ≡ (apply_reserve g at (effects s).window s.fx.reserve).auth_times)
        × ((release_both s).0.nonces ≡ g.nonces)
    released_state =
        let (records, times, nonces) =
          release-frame (apply_reserve g at (effects s).window s.fx.reserve) (release_both s).0
            s.fx.release (release_both s).1 in
        let (old_records, old_nonces) = reserve-frame g at (effects s).window s.fx.reserve in
        (records ∙ old_records, times, nonces ∙ old_nonces)

    reserved-after : (m : MandateId) → read_reserved t' m ≡ ok (get after.reserved m)
    reserved-after m =
        read_reserved-reservations t' s.wrote.released m
          (inserted.reservations ∙ (updated_rows.1 ∙ created_rows.1))
        ∙ ((release_both s).2 m
            ∙ ap (λ (x : Map MandateId (Money Decimal)). ok (get x m))
                (sym (ap (λ (x : Inner Decimal). x.reserved) now ∙ untouched.reserved)))

    counts-after :
        (m : MandateId) (since : Timestamp) → recent_count t' m since ≡ window_count after m since
    counts-after m since =
        let reserved = apply_reserve g at (effects s).window s.fx.reserve in
        recent_count-authorizations t' (write_reserve (drawn s.claimed) ctx at s.fx.reserve) m since
          (inserted.authorizations ∙ kept.authorizations)
        ∙ (reserve-counts (drawn s.claimed) g ctx at (effects s).window s.fx.reserve m since (
              recent_count-authorizations (drawn s.claimed) t m since (claim s).authorizations
              ∙ s.agrees.counts m since)
            ∙ sym (
                window_count-auth_times after reserved m since (
                  ap (λ (x : Inner Decimal). x.auth_times) now
                  ∙ (untouched.auth_times ∙ released_state.1))))

    nonces-after : (k : Text × Text) → get t'.nonces k ≡ get after.nonces k
    nonces-after k =
        ap (λ (x : Map (Text × Text) Text). get x k)
          (inserted.nonces ∙ (kept.nonces ∙ reserve_only.nonces))
        ∙ (decided-nonces t s.claimed s.existing ctx at s.fx g body s.agrees.nonces s.chosen k
            ∙ ap (λ (x : Map (Text × Text) Text). get x k)
                (sym (
                  ap (λ (x : Inner Decimal). x.nonces) now
                  ∙ (untouched.nonces
                      ∙ nonce-frame (release_both s).0 g ctx (nonce_in body) released_state.2))))

    revoked-after :
        (m : MandateId) → any (λ x. x == m) t'.revocations ≡ any (λ x. x == m) after.revoked_ids
    revoked-after m =
        ap (λ (x : List Text). any (λ y. y == m) x)
          (inserted.revocations
            ∙ (kept.revocations ∙ (reserve_only.revocations ∙ (claim s).revocations)))
        ∙ (s.agrees.revoked m
            ∙ ap (λ (x : List Text). any (λ y. y == m) x) (sym (revoked_ids-append (commitment s))))

    records-after : (c : ContextId) → read_record t' c ≡ ok (get after.records c)
    unfolding push_event
    records-after c =
        let claimed_state = apply_nonce (release_both s).0 ctx (nonce_in body) in
        let same : SameRecords s.wrote.released claimed_state = λ d.
          read_record-contexts s.wrote.released t d
            (released_rows.1 ∙ (reserve_only.contexts ∙ (claim s).contexts))
          ∙ (s.agrees.records d
              ∙ ap (λ (x : Map ContextId (Record Decimal)). ok (get x d))
                  (sym
                    (nonce-records (release_both s).0 ctx (nonce_in body) ∙ released_state.0))) in
        let opened =
          create-SameRecords s.wrote.released s.wrote.created claimed_state ctx s.fx.create
            (fits s).0 same s.wrote.opened in
        let typed : IsTyped ctx e.body = subst (IsTyped ctx) (sym event.3) s.typed in
        let opened_state = apply_new_record claimed_state ctx (created_record ctx s.fx.create) in
        read_record-contexts t' (write_update s.wrote.created ctx e.body) c inserted.contexts
        ∙ (update-SameRecords s.wrote.created opened_state ctx e.body typed opened c
            ∙ ap (λ (x : Map ContextId (Record Decimal)). ok (get x c))
                (sym (ap (λ (x : Inner Decimal). x.records) now)))

    IsIndexed-after : IsIndexed after
    IsIndexed-after = IsIndexed-append (commitment s) s.agrees.indexed

    chain-after :
        (c : ContextId)
        → events_of after c ≡ (if e.ctx == c then events_of g c ++ e ∷ [] else events_of g c)
    chain-after c =
        events_of-eq-chain after c IsIndexed-after
        ∙ (ap (chain_of c) (events-append (commitment s))
            ∙ (chain_of-snoc c g.events e
                ∙ ap (λ (es : List (Event Decimal)). if e.ctx == c then es ++ e ∷ [] else es)
                    (sym (events_of-eq-chain g c s.agrees.indexed))))

    denials-after : (c : ContextId) → denied_count t' c ≡ denial_count after c
    unfolding denial_count
    denials-after c =
        denied_count-Inserted inserted c
        ∙ (ap (λ (n : ℕ). n + (if e.ctx == c && is_denied e.body then 1 else 0))
              (denied_count-events (write_update s.wrote.created ctx e.body) t c old_events
                ∙ s.agrees.denials c)
            ∙ sym (ap denials (chain-after c) ∙ counted c))
      where
        counted :
            (d : ContextId)
            → denials (if e.ctx == d then events_of g d ++ e ∷ [] else events_of g d)
              ≡ denials (events_of g d) + (if e.ctx == d && is_denied e.body then 1 else 0)
        counted d = elim (Bool-cases (e.ctx == d)) [
          | inl same ↦ rw same (denials-snoc (events_of g d) e)
          | inr other ↦ rw other (omega arith)
        ]

    hashes-after : (c : ContextId) → previous_hash t' c ≡ ok (last_hash (events_of after c))
    hashes-after c =
        previous_hash-Inserted inserted t.event_seq next
          (subst (λ (rows : List (EventRow Json)). NumberedTo t.event_seq rows) (sym old_events)
            s.agrees.numbered)
          event.0 c
        ∙ elim (Bool-cases (e.ctx == c)) [
          | inl same ↦ rw (chain-after c, same) (ap ok (sym (last_hash-snoc (events_of g c) e)))
          | inr other ↦
              rw (chain-after c, other)
                (previous_hash-events (write_update s.wrote.created ctx e.body) t c old_events
                  ∙ s.agrees.hashes c)
        ]

    numbered-after : NumberedTo t'.event_seq t'.events
    numbered-after =
        subst (λ (n : ℕ). NumberedTo n t'.events)
          (sym (
            inserted.event_seq
            ∙ (kept.event_seq
                ∙ (reserve_only.event_seq ∙ ap (λ (n : ℕ). n + 1) (claim s).event_seq))))
          (NumberedTo-Inserted inserted t.event_seq next (
            subst (λ (rows : List (EventRow Json)). NumberedTo t.event_seq rows) (sym old_events)
              s.agrees.numbered))

    pub Agrees-after : Agrees t' after
    Agrees-after = record {
      seq = seq-after;
      records = records-after;
      reserved = reserved-after;
      counts = counts-after;
      nonces = nonces-after;
      revoked = revoked-after;
      denials = denials-after;
      hashes = hashes-after;
      numbered = numbered-after;
      indexed = IsIndexed-after;
    }
