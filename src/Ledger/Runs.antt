-- ===== src/Ledger/Runs.antt =====
-- The engine moves the in-memory store by steps of the store only, whatever it is asked.
use mandate_ledger.Prelude.{
  ℕ, ◌+◌, ◌≤◌, ◌<◌, ◌^◌, Bool, true, false, arith, Option, none, some, inl, inr, Result, ok, err,
  if◌then◌else◌, list_eq, nat_eq,
}
use native.Mathlib.Nat.{mod-le}
use mandate_ledger.Hash.{Sha256, CanonicalJson}
use mandate_ledger.Time.{Timestamp}
use mandate_ledger.Ids.{ContextId}
use mandate_ledger.Money.{DecimalOps}
use mandate_ledger.Event.{EventBody, Preimage, denied_event}
use mandate_ledger.Error.{StoreError, LedgerError}
use mandate_ledger.Reason.{Stage, DenyReason}
use mandate_ledger.Mandate.Errors.{Detail}
use mandate_ledger.Store.Interface.{
  AppendOutcome, appended, budget_exceeded, velocity_exceeded, nonce_already_used, revoked,
  denials_capped, Method,
}
use mandate_ledger.Store.Inner.{Inner}
use mandate_ledger.Store.Commit.{append}
use mandate_ledger.Store.Memory.{memory_store}
use mandate_ledger.Store.Append.{append-cases}
use mandate_ledger.Store.Log.{last_seq-append, seq-made}
use mandate_ledger.Store.Reach.{append_step, Reach, here, next}
use mandate_ledger.Ledger.Action.{Action, attempt, call, lift, ◌>>=◌}
use mandate_ledger.Ledger.Engine.{denied_with, deny, plain_outcome, append_plain}

module _ {Decimal : Type 0} ⦃ops : DecimalOps Decimal⦄ ⦃sha : Sha256⦄
    ⦃json : CanonicalJson (Preimage Decimal)⦄ where
  pub Reach-trans : {a b c : Inner Decimal} → Reach a b → Reach b c → Reach a c
  Reach-trans t here = t
  Reach-trans t (next u s) = next (Reach-trans t u) s

  abbrev Moves : ℕ → Inner Decimal → Inner Decimal → Type 0
  Moves n g h = Reach g h × (h.last_seq ≤ g.last_seq + n)

  -- The action makes steps of the store, at most `n` of them appends.
  pub record Runs {A : Type 0} (n : ℕ) (a : Action Decimal (Inner Decimal) A) : Type 0 where
    pub moves : (g : Inner Decimal) → g.last_seq + n < 2 ^ 64 → Moves n g (a g).1

  pub Runs-lift : {A : Type 0} (n : ℕ) (r : Result (LedgerError Decimal) A) → Runs n (lift r)
  Runs-lift n r = record { moves = λ g room. (here, omega arith) }

  pub Runs-weaken :
      {A : Type 0} (m n : ℕ) {a : Action Decimal (Inner Decimal) A} → m ≤ n → Runs m a → Runs n a
  Runs-weaken m n le r = record {
    moves = λ g room.
        let first : Moves m g _ = r.moves g (omega (arith, le, room)) in
        (first.0, omega (arith, le, first.1));
  }

  -- A method that reads.
  pub Runs-read :
      {A : Type 0} (n : ℕ) (f : Inner Decimal → Result StoreError A) → Runs n (call (λ g. (f g, g)))
  Runs-read n f = record { moves = λ g room. (here, omega arith) }

  Moves-on : (m n : ℕ) (g s h : Inner Decimal) → Moves m g s → Moves n s h → Moves (m + n) g h
  Moves-on m n g s h a b = (Reach-trans a.0 b.0, omega (arith, a.1, b.1))

  Moves-stop : (m n : ℕ) (g s : Inner Decimal) → Moves m g s → Moves (m + n) g s
  Moves-stop m n g s a = (a.0, omega (arith, a.1))

  bind_from :
      {A B : Type 0} (m n : ℕ) (f : A → Action Decimal (Inner Decimal) B) (g : Inner Decimal)
      (r : Result (LedgerError Decimal) A) (s : Inner Decimal)
      → g.last_seq + (m + n) < 2 ^ 64
      → ((x : A) → Runs n (f x))
      → Moves m g s
      → Moves (m + n) g ((lift r >>= f) s).1
  bind_from m n f g (ok x) s room rf a =
      Moves-on m n g s (f x s).1 a ((rf x).moves s (omega (arith, a.1, room)))
  bind_from m n f g (err e) s room rf a = Moves-stop m n g s a

  pub Runs-bind :
      {A B : Type 0} (m n : ℕ) {a : Action Decimal (Inner Decimal) A}
      {f : A → Action Decimal (Inner Decimal) B}
      → Runs m a
      → ((x : A) → Runs n (f x))
      → Runs (m + n) (a >>= f)
  Runs-bind m n {a} {f} ra rf = record {
    moves = λ g room. bind_from m n f g (a g).0 (a g).1 room rf (ra.moves g (omega (arith, room)));
  }

  -- An append whose result is looked at.
  pub Runs-attempt :
      {A B : Type 0} (m n : ℕ) {a : Method (Inner Decimal) A}
      {f : Result StoreError A → Action Decimal (Inner Decimal) B}
      → Runs m (call a)
      → ((r : Result StoreError A) → Runs n (f r))
      → Runs (m + n) (attempt a f)
  Runs-attempt m n {a} {f} ra rf = record {
    moves = λ g room.
        let first : Moves m g (a g).1 = ra.moves g (omega (arith, room)) in
        Moves-on m n g (a g).1 (attempt a f g).1 first
          ((rf (a g).0).moves (a g).1 (omega (arith, first.1, room)));
  }

  last_seq-grows :
      (ctx : ContextId) (at : Timestamp) (body : EventBody Decimal) (g : Inner Decimal)
      → (append ctx at body g).1.last_seq ≤ g.last_seq + 1
  last_seq-grows ctx at body g = elim (append-cases ctx at body g) [
    | inl alone ↦ rw alone.1 (omega arith)
    | inr c ↦ rw (last_seq-append c, seq-made c) (mod-le (g.last_seq + 1) (2 ^ 64))
  ]

  pub Runs-append :
      (ctx : ContextId) (at : Timestamp) (body : EventBody Decimal)
      → Runs 1 (call (append ctx at body))
  Runs-append ctx at body = record {
    moves = λ g room. (next here (append_step ctx at body g room), last_seq-grows ctx at body g);
  }

  denied_with-Runs :
      {A : Type 0} (ctx : ContextId) (stage : Stage) (reason : DenyReason) (detail : Detail Decimal)
      (o : AppendOutcome Decimal)
      → Runs 0 (denied_with {A = A} ctx stage reason detail o)
  denied_with-Runs ctx stage reason detail (appended e) = Runs-lift 0 _
  denied_with-Runs ctx stage reason detail (budget_exceeded m) = Runs-lift 0 _
  denied_with-Runs ctx stage reason detail (velocity_exceeded m) = Runs-lift 0 _
  denied_with-Runs ctx stage reason detail nonce_already_used = Runs-lift 0 _
  denied_with-Runs ctx stage reason detail revoked = Runs-lift 0 _
  denied_with-Runs ctx stage reason detail denials_capped = Runs-lift 0 _

  pub deny-Runs :
      {A : Type 0} (now : Timestamp) (ctx : ContextId) (stage : Stage) (reason : DenyReason)
      (detail : Detail Decimal)
      → Runs 1 (deny {A = A} now ctx stage reason detail)
  unfolding deny
  deny-Runs now ctx stage reason detail =
      Runs-bind 1 0 (Runs-append ctx now (denied_event stage reason detail))
        (denied_with-Runs ctx stage reason detail)

  plain_outcome-Runs : (o : AppendOutcome Decimal) → Runs 0 (plain_outcome o)
  plain_outcome-Runs (appended e) = Runs-lift 0 _
  plain_outcome-Runs (budget_exceeded m) = Runs-lift 0 _
  plain_outcome-Runs (velocity_exceeded m) = Runs-lift 0 _
  plain_outcome-Runs nonce_already_used = Runs-lift 0 _
  plain_outcome-Runs revoked = Runs-lift 0 _
  plain_outcome-Runs denials_capped = Runs-lift 0 _

  pub append_plain-Runs :
      (now : Timestamp) (ctx : ContextId) (body : EventBody Decimal)
      → Runs 1 (append_plain now ctx body)
  unfolding append_plain
  append_plain-Runs now ctx body = Runs-bind 1 0 (Runs-append ctx now body) plain_outcome-Runs

  -- Branches.
  pub Runs-if :
      {A : Type 0} (n : ℕ) (b : Bool) {x y : Action Decimal (Inner Decimal) A}
      → Runs n x
      → Runs n y
      → Runs n (if b then x else y)
  Runs-if n true rx ry = rx
  Runs-if n false rx ry = ry

  pub Runs-option :
      {A B : Type 0} (n : ℕ) (o : Option B) {x : Action Decimal (Inner Decimal) A}
      {f : B → Action Decimal (Inner Decimal) A}
      → Runs n x
      → ((b : B) → Runs n (f b))
      → Runs n (elim o [ none ↦ x | some b ↦ f b ])
  Runs-option n none rx rf = rx
  Runs-option n (some b) rx rf = rf b

  pub Runs-result :
      {A B E : Type 0} (n : ℕ) (r : Result E B) {x : E → Action Decimal (Inner Decimal) A}
      {f : B → Action Decimal (Inner Decimal) A}
      → ((e : E) → Runs n (x e))
      → ((b : B) → Runs n (f b))
      → Runs n (elim r [ err e ↦ x e | ok b ↦ f b ])
  Runs-result n (err e) rx rf = rx e
  Runs-result n (ok b) rx rf = rf b
