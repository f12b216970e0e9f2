-- ===== src/Store/Memory.antt =====
-- `MemoryStore` (crates/ml-core/src/store.rs): the queries, retention, and the `Store` instance. Every
-- method holds the lock throughout, so a method is one step on `Inner`; the lock is never poisoned,
-- since no method panics.
use mandate_ledger.Prelude.{
  ℕ, suc, Bool, true, false, not, ◌&&◌, Option, none, some, List, [], ◌∷◌, ◌++◌, map, ltb,
  if◌then◌else◌, keep, any, take, last, find_map, get_elem?, is_empty, ok, ◌==◌, list_eq, nat_eq,
}
use mandate_ledger.Prelude.Int.{ℤ, pos, leb_ℤ, ltb_ℤ}
use mandate_ledger.Prelude.Map.{Map, get, insert, get_or}
use mandate_ledger.Text.{text_lt}
use mandate_ledger.Hash.{Sha256, CanonicalJson}
use mandate_ledger.Time.{Timestamp, saturating_sub_secs}
use mandate_ledger.Ids.{ContextId, MandateId}
use mandate_ledger.Money.{DecimalOps}
use mandate_ledger.State.{is_terminal}
use mandate_ledger.Mandate.Body.{Mandate}
use mandate_ledger.Event.{Event, Preimage}
use mandate_ledger.Evidence.{mandate_of}
use mandate_ledger.Store.Interface.{Record, RecordFilter, filter_matches, Store}
use mandate_ledger.Store.Inner.{Inner, index_of, events_of}
use mandate_ledger.Store.Commit.{append}

-- `Inner::default`
abbrev pub empty_store : {Decimal : Type 0} → Inner Decimal
empty_store = record {
  records = [];
  events = [];
  by_ctx = [];
  last_seq = 0;
  reserved = [];
  auth_times = [];
  velocity_windows = [];
  nonces = [];
  revoked_ids = [];
}

-- The velocity history that `prune` keeps of one mandate.
unfoldable pub prune_times :
    Map MandateId ℤ → Timestamp → MandateId × List Timestamp → MandateId × List Timestamp
prune_times windows before (mandate, times) =
    let cutoff = saturating_sub_secs before (get_or (pos 0) (get windows mandate)) in
    (mandate, keep (λ t. leb_ℤ cutoff t) times)

module _ {Decimal : Type 0} where
  -- `events_after`
  unfoldable pub events_after : Inner Decimal → ℕ → ℕ → List (Event Decimal)
  events_after g after limit = take limit (keep (λ e. ltb after e.seq) g.events)

  abbrev pub is_after : Option ContextId → Record Decimal → Bool
  is_after none r = true
  is_after (some a) r = text_lt a r.ctx

  -- `sort_by` on the context ids, which are all different.
  unfoldable pub insert_sorted : Record Decimal → List (Record Decimal) → List (Record Decimal)
  insert_sorted r [] = r ∷ []
  insert_sorted r (x ∷ xs) = if text_lt x.ctx r.ctx then x ∷ insert_sorted r xs else r ∷ x ∷ xs

  unfoldable pub sort_records : List (Record Decimal) → List (Record Decimal)
  unfolding insert_sorted
  sort_records [] = []
  sort_records (r ∷ rs) = insert_sorted r (sort_records rs)

  abbrev pub values : Map ContextId (Record Decimal) → List (Record Decimal)
  values m = map (λ e. e.1) m

  -- `scan`
  unfoldable pub scan : Inner Decimal → RecordFilter → Option ContextId → ℕ → List (Record Decimal)
  unfolding sort_records
  scan g filter after limit =
      take limit
        (sort_records (keep (λ r. filter_matches filter r && is_after after r) (values g.records)))

  -- `authorized_mandate` of the in-memory store: it walks the index.
  unfoldable pub stored_mandate : Inner Decimal → ContextId → Option (Mandate Decimal)
  stored_mandate g ctx =
      find_map (λ i. elim (get_elem? g.events i) [ none ↦ none | some e ↦ mandate_of e.body ])
        (index_of g ctx)

  -- `revoke`
  unfoldable pub revoke_id : Inner Decimal → MandateId → Inner Decimal
  revoke_id g mandate =
      if any (λ m. m == mandate) g.revoked_ids
      then g
      else record g { revoked_ids = mandate ∷ g.revoked_ids }

  -- A context that is over: terminal, or only ever refused.
  abbrev pub is_finished : Inner Decimal → ContextId → Bool
  is_finished g ctx = elim (get g.records ctx) [ none ↦ true | some r ↦ is_terminal r.state ]

  -- Whether `prune` forgets the chain of a context.
  unfoldable pub is_gone : Inner Decimal → Timestamp → ContextId × List ℕ → Bool
  is_gone g before (ctx, idx) = is_finished g ctx && elim (last idx) [
    | none ↦ false
    | some i ↦ elim (get_elem? g.events i) [ none ↦ false | some e ↦ ltb_ℤ e.at before ]
  ]

  -- The rebuilding of `by_ctx`, from position `i`.
  unfoldable pub rebuild_index :
      ℕ → Map ContextId (List ℕ) → List (Event Decimal) → Map ContextId (List ℕ)
  rebuild_index i m [] = m
  rebuild_index i m (e ∷ es) =
      rebuild_index (suc i) (insert m e.ctx (get_or [] (get m e.ctx) ++ i ∷ [])) es

  -- `MemoryStore::prune`
  unfoldable pub prune : Inner Decimal → Timestamp → Inner Decimal
  unfolding prune_times is_gone rebuild_index
  prune g before =
      let times =
        keep (λ e. not (is_empty e.1)) (map (prune_times g.velocity_windows before) g.auth_times) in
      let gone = map (λ e. e.0) (keep (is_gone g before) g.by_ctx) in
      let events = keep (λ e. not (any (λ c. c == e.ctx) gone)) g.events in
      if is_empty gone
      then record g { auth_times = times }
      else record g { auth_times = times; events = events; by_ctx = rebuild_index 0 [] events }

module _ {Decimal : Type 0} ⦃ops : DecimalOps Decimal⦄ ⦃sha : Sha256⦄
    ⦃json : CanonicalJson (Preimage Decimal)⦄ where
  -- `Store for MemoryStore`
  instance abbrev pub memory_store : Store Decimal (Inner Decimal)
  memory_store = record {
    get_record = λ ctx g. (ok (get g.records ctx), g);
    events = λ ctx g. (ok (events_of g ctx), g);
    authorized_mandate = λ ctx g. (ok (stored_mandate g ctx), g);
    append = append;
    events_after = λ after limit g. (ok (events_after g after limit), g);
    scan = λ filter after limit g. (ok (scan g filter after limit), g);
    last_seq = λ g. (ok g.last_seq, g);
    reserved = λ mandate g. (ok (get g.reserved mandate), g);
    is_revoked = λ mandate g. (ok (any (λ m. m == mandate) g.revoked_ids), g);
    revoke = λ mandate g. (ok tt, revoke_id g mandate);
  }
