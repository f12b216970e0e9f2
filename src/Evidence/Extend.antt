-- ===== src/Evidence/Extend.antt =====
-- A verified chain stays verified when an event that continues it is put at its end.
use mandate_ledger.Prelude.{
  ℕ, ◌≡◌, ◌≤◌, ◌<◌, refl, Bool, true, none, some, List, [], ◌∷◌, ◌++◌, arith, last, keep, Result,
  ok, err, ◌>>◌, eq_==, list_eq, nat_eq, Bool-cases, inl, inr,
}
use mandate_ledger.Hash.{Hash32, Sha256, CanonicalJson}
use mandate_ledger.Ids.{ContextId}
use mandate_ledger.Event.{Event, Preimage, verify_hash}
use mandate_ledger.Evidence.{EvidenceError, check_event, verify_events}

module _ {Decimal : Type 0} where
  -- The hash and the sequence number that a chain has reached.
  abbrev pub end_hash : Hash32 → List (Event Decimal) → Hash32
  end_hash p [] = p
  end_hash p (e ∷ es) = end_hash e.hash es

  abbrev pub end_seq : ℕ → List (Event Decimal) → ℕ
  end_seq lo [] = lo
  end_seq lo (e ∷ es) = end_seq e.seq es

  -- Sequence numbers rise strictly, from above `lo`.
  abbrev pub Ascending : ℕ → List (Event Decimal) → Type 0
  Ascending lo [] = Unit
  Ascending lo (e ∷ es) = (lo < e.seq) × Ascending e.seq es

  pub end_hash-last :
      (p : Hash32) (es : List (Event Decimal))
      → end_hash p es ≡ (elim (last es) [ none ↦ p | some e ↦ e.hash ])
  end_hash-last p [] = refl
  end_hash-last p (x ∷ es) = ground (arith, end_hash-last x.hash es)

  pub Ascending-snoc :
      (lo : ℕ) (es : List (Event Decimal)) (e : Event Decimal)
      → Ascending lo es
      → end_seq lo es < e.seq
      → Ascending lo (es ++ e ∷ [])
  Ascending-snoc lo [] e h k = (k, tt)
  Ascending-snoc lo (x ∷ es) e h k = (h.0, Ascending-snoc x.seq es e h.1 k)

  pub end_seq-snoc :
      (lo : ℕ) (es : List (Event Decimal)) (e : Event Decimal) → end_seq lo (es ++ e ∷ []) ≡ e.seq
  end_seq-snoc lo [] e = refl
  end_seq-snoc lo (x ∷ es) e = end_seq-snoc x.seq es e

  pub end_seq-ge : (lo : ℕ) (es : List (Event Decimal)) → Ascending lo es → lo ≤ end_seq lo es
  end_seq-ge lo [] h = omega arith
  end_seq-ge lo (x ∷ es) h = omega (arith, end_seq-ge x.seq es h.1, h.0)

  -- What is kept of a rising log rises too, and reaches no further.
  pub Ascending-keep :
      (p : Event Decimal → Bool) (a lo : ℕ) (es : List (Event Decimal))
      → a ≤ lo
      → Ascending lo es
      → Ascending a (keep p es) × (end_seq a (keep p es) ≤ end_seq lo es)
  Ascending-keep p a lo [] h k = (tt, h)
  Ascending-keep p a lo (x ∷ es) h k = elim (Bool-cases (p x)) [
    | inl kept ↦ rw kept (
        let r = Ascending-keep p x.seq x.seq es (omega arith) k.1 in
        ((omega (arith, k.0), r.0), r.1))
    | inr dropped ↦ rw dropped (Ascending-keep p a x.seq es (omega (arith, k.0)) k.1)
  ]

>>-ok : (m k : Result EvidenceError (Unit {0})) → (m >> k) ≡ ok tt → (m ≡ ok tt) × (k ≡ ok tt)
>>-ok (ok u) k h = (refl, h)
>>-ok (err e) k h = cc

module _ {Decimal : Type 0} ⦃sha : Sha256⦄ ⦃json : CanonicalJson (Preimage Decimal)⦄ where
  check_event-ok :
      (ctx : ContextId) (prev : Hash32) (lo : ℕ) (e : Event Decimal)
      → e.ctx ≡ ctx
      → lo < e.seq
      → e.prev_hash ≡ prev
      → verify_hash e ≡ ok true
      → check_event ctx prev lo e ≡ ok tt
  unfolding check_event
  check_event-ok ctx prev lo e a b c d = ground (arith, eq_== e.ctx ctx a, eq_== e.prev_hash prev c)

  pub verify_events-snoc :
      (ctx : ContextId) (p : Hash32) (lo : ℕ) (es : List (Event Decimal)) (e : Event Decimal)
      → verify_events ctx p lo es ≡ ok tt
      → e.ctx ≡ ctx
      → end_seq lo es < e.seq
      → e.prev_hash ≡ end_hash p es
      → verify_hash e ≡ ok true
      → verify_events ctx p lo (es ++ e ∷ []) ≡ ok tt
  unfolding verify_events
  verify_events-snoc ctx p lo [] e h a b c d = rw (check_event-ok ctx p lo e a b c d)
  verify_events-snoc ctx p lo (x ∷ es) e h a b c d =
      let r = >>-ok (check_event ctx p lo x) (verify_events ctx x.hash x.seq es) h in
      rw r.0 (verify_events-snoc ctx x.hash x.seq es e r.1 a b c d)
