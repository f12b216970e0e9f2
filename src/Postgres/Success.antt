-- ===== src/Postgres/Success.antt =====
-- An append that has written to the tables: the in-memory store has then written the same event.
use mandate_ledger.Prelude.{
  ℕ, ◌+◌, ◌-◌, ◌^◌, ◌%◌, ◌≡◌, refl, ap, sym, ◌∙◌, subst, false, Option, ok, map_err, arith, >>=-ok,
  map_err-ok, ok_injective, list_eq, nat_eq, pair_eq, leb, ok->>=,
}
use native.Mathlib.Nat.{mod-eq_of_lt}
use mandate_ledger.Text.Codec.{HexDecode, HexLaws}
use mandate_ledger.Hash.{Hash32, Sha256, CanonicalJson}
use mandate_ledger.Time.{Timestamp}
use mandate_ledger.Ids.{Hex, ContextId}
use mandate_ledger.Money.{DecimalOps}
use mandate_ledger.Event.{Event, EventBody, Preimage, new_event}
use mandate_ledger.Error.{store_canonicalize}
use mandate_ledger.Store.Interface.{appended, Record}
use mandate_ledger.Store.Inner.{Inner, Effects, proceed, events_of}
use mandate_ledger.Store.Validate.{check_body}
use mandate_ledger.Store.Commit.{
  apply_reserve, apply_release, commit, next_event, append_verdict, append, last_hash,
}
use mandate_ledger.Store.Append.{Committed, committed}
use mandate_ledger.Postgres.Tables.{Tables, Sql}
use mandate_ledger.Postgres.Decide.{PgEffects, decided, read_record, decide}
use mandate_ledger.Postgres.Write.{
  previous_hash, write_reserve, write_release, write_create, write_update, write_event, write,
  drawn,
}
use mandate_ledger.Postgres.Agreement.{Agrees, verdicts_in, effects_in, decide-agrees}
use mandate_ledger.Postgres.Rows.{IsTyped}
use mandate_ledger.Postgres.Stages.{
  CreatesTyped, ReservesCurrency, SameReserved, reserve-SameReserved, release-SameReserved,
}
use mandate_ledger.Postgres.Decided.{Claimed, decided-Claimed, decided-IsTyped}
use mandate_ledger.Postgres.Frames.{read_reserved-reservations, previous_hash-events}

module _ {Decimal Json : Type 0} ⦃ops : DecimalOps Decimal⦄ ⦃sql : Sql Decimal Json⦄ ⦃hex : Hex⦄
    ⦃dec : HexDecode⦄ ⦃sha : Sha256⦄ ⦃json : CanonicalJson (Preimage Decimal)⦄ where
  -- The statements of phase 2, all of which went well.
  pub record Wrote (fx : PgEffects Decimal) (ctx : ContextId) (at : Timestamp)
      (body : EventBody Decimal) (t : Tables Decimal Json) (e : Event Decimal)
      (t' : Tables Decimal Json) : Type 0 where
    pub prev : Hash32
    pub released : Tables Decimal Json
    pub created : Tables Decimal Json
    pub chained : previous_hash t ctx ≡ ok prev
    pub made : new_event prev t.event_seq ctx at body ≡ ok e
    pub freed : write_release (write_reserve t ctx at fx.reserve) fx.release ≡ ok released
    pub opened : write_create released ctx fx.create ≡ ok created
    pub logged : write_event (write_update created ctx e.body) at e ≡ ok t'

  pub write-Wrote :
      (fx : PgEffects Decimal) (ctx : ContextId) (at : Timestamp) (body : EventBody Decimal)
      (t : Tables Decimal Json) (e : Event Decimal) (t' : Tables Decimal Json)
      → write fx ctx at body t ≡ ok (e, t')
      → Wrote fx ctx at body t e t'
  unfolding write
  write-Wrote fx ctx at body t e t' h =
      let (prev, chained, h1) = >>=-ok (previous_hash t ctx) _ h in
      let (e1, made, h2) =
        >>=-ok (map_err store_canonicalize (new_event prev t.event_seq ctx at body)) _ h1 in
      let (released, freed, h3) =
        >>=-ok (write_release (write_reserve t ctx at fx.reserve) fx.release) _ h2 in
      let (created, opened, h4) = >>=-ok (write_create released ctx fx.create) _ h3 in
      let (t1, logged, h5) = >>=-ok (write_event (write_update created ctx e1.body) at e1) _ h4 in
      let same_e : e1 ≡ e =
        ap (λ (p : Event Decimal × Tables Decimal Json). p.0) (ok_injective h5) in
      let same_t : t1 ≡ t' =
        ap (λ (p : Event Decimal × Tables Decimal Json). p.1) (ok_injective h5) in
      record {
        prev = prev;
        released = released;
        created = created;
        chained = chained;
        made =
            map_err-ok store_canonicalize (new_event prev t.event_seq ctx at body) made
            ∙ ap ok same_e;
        freed = freed;
        opened = opened;
        logged =
            subst
              (λ (x : Event Decimal). write_event (write_update created ctx x.body) at x ≡ ok t')
              same_e (logged ∙ ap ok same_t);
      }

  -- An append that has written, from agreeing states and typed values.
  pub record Success (t : Tables Decimal Json) (g : Inner Decimal) (ctx : ContextId)
      (at : Timestamp) (body : EventBody Decimal) (e : Event Decimal) (t' : Tables Decimal Json)
      : Type 0 where
    pub agrees : Agrees t g
    pub typed : IsTyped ctx body
    pub existing : Option (Record Decimal)
    pub fx : PgEffects Decimal
    pub claimed : Tables Decimal Json
    pub read : read_record t ctx ≡ ok existing
    pub chosen : decide t existing ctx at body ≡ ok (decided fx claimed)
    pub room : leb (2 ^ 63 - 1) t.event_seq ≡ false
    pub wrote : Wrote fx ctx at body (drawn claimed) e t'

  module _ ⦃hex_laws : HexLaws⦄ {t : Tables Decimal Json} {g : Inner Decimal} {ctx : ContextId}
      {at : Timestamp} {body : EventBody Decimal} {e : Event Decimal} {t' : Tables Decimal Json}
      (s : Success t g ctx at body e t') where
    pub claim : Claimed s.claimed t
    claim = decided-Claimed t s.claimed s.existing ctx at s.fx body s.chosen

    pub fits : CreatesTyped ctx s.fx.create × ReservesCurrency s.fx.reserve
    fits = decided-IsTyped t s.claimed s.existing ctx at s.fx body s.typed s.chosen

    -- The effects of the in-memory store.
    abbrev pub effects : Effects Decimal
    effects = effects_in ctx body s.fx

    pub checked : check_body g ctx at body ≡ ok (proceed effects)
    checked =
        sym (decide-agrees s.agrees ctx at body)
        ∙ ap (verdicts_in ctx body)
            (ok->>= (read_record t ctx) (λ x. decide t x ctx at body) s.existing s.read s.chosen)

    prev-last_hash : s.wrote.prev ≡ last_hash (events_of g ctx)
    prev-last_hash = ok_injective (
        sym s.wrote.chained
        ∙ (previous_hash-events (drawn s.claimed) t ctx claim.events ∙ s.agrees.hashes ctx))

    next_seq : s.claimed.event_seq + 1 ≡ (g.last_seq + 1) % 2 ^ 64
    next_seq =
        ap (λ (n : ℕ). n + 1) (claim.event_seq ∙ s.agrees.seq)
        ∙ sym (mod-eq_of_lt (ground (arith, s.room, s.agrees.seq)))

    pub made : next_event g ctx at body ≡ ok e
    unfolding next_event
    made = ap (map_err store_canonicalize) (
        ap (λ (h : Hash32). new_event h ((g.last_seq + 1) % 2 ^ 64) ctx at body)
          (sym prev-last_hash)
        ∙ (ap (λ (n : ℕ). new_event s.wrote.prev n ctx at body) (sym next_seq) ∙ s.wrote.made))

    -- The release in memory.
    pub release_both :
        (g' : Inner Decimal) × (apply_release
            (apply_reserve g at effects.window s.fx.reserve)
            s.fx.release
          ≡ ok g')
        × SameReserved s.wrote.released g'
    release_both =
        release-SameReserved (write_reserve (drawn s.claimed) ctx at s.fx.reserve) s.wrote.released
          (apply_reserve g at effects.window s.fx.reserve) s.fx.release
          (reserve-SameReserved (drawn s.claimed) g ctx at effects.window s.fx.reserve fits.1 (λ m.
            read_reserved-reservations (drawn s.claimed) t m claim.reservations
            ∙ s.agrees.reserved m))
          s.wrote.freed

    pub result : append ctx at body g ≡ (ok (appended e), committed release_both.0 ctx effects e)
    unfolding append commit
    result = rw (checked, made, append_verdict, release_both.1, commit) refl

    abbrev pub commitment : Committed ctx at body g
    commitment = record {
      fx = effects;
      event = e;
      released = release_both.0;
      checked = checked;
      made = made;
      freed = release_both.1;
      result = result;
    }
