-- ===== src/Store/History.antt =====
-- The record of every context agrees with its chain, and every chain follows the state machine.
use mandate_ledger.Prelude.{
  ◌≡◌, refl, true, List, [], ◌∷◌, ◌++◌, arith, Option, none, some, ◌⊎◌, inl, inr, list_eq, nat_eq,
  ap, sym, ◌∙◌, subst,
}
use mandate_ledger.Prelude.Map.{get}
use mandate_ledger.Ids.{ContextId}
use mandate_ledger.State.{PaymentState, can_transition_to, is_terminal}
use mandate_ledger.Event.{Event, EventBody, authorized_event, resulting_state}
use mandate_ledger.Evidence.{final_state_of}
use mandate_ledger.Store.Interface.{Record}
use mandate_ledger.Store.Inner.{Inner, state_of}
use mandate_ledger.Store.Commit.{update_record}
use mandate_ledger.Store.Chain.{chain_of}
use mandate_ledger.Store.Projection.{Permitted, step_record, project, project-snoc}

-- The state after an event that results in the second, if in any.
abbrev pub advance : Option PaymentState → Option PaymentState → Option PaymentState
advance s none = s
advance s (some t) = some t

terminal_stuck :
    (s : PaymentState) (to : Option PaymentState)
    → is_terminal s ≡ true
    → Permitted (some s) to
    → to ≡ none
unfolding is_terminal can_transition_to
terminal_stuck s to h p = ground arith

module _ {Decimal : Type 0} where
  abbrev pub end_state : Option PaymentState → List (Event Decimal) → Option PaymentState
  end_state s [] = s
  end_state s (e ∷ es) = end_state (advance s (resulting_state e.body)) es

  -- Each event takes a transition that the machine permits, or none.
  abbrev pub IsPath : Option PaymentState → List (Event Decimal) → Type 0
  IsPath s [] = Unit
  IsPath s (e ∷ es) =
      Permitted s (resulting_state e.body) × IsPath (advance s (resulting_state e.body)) es

  abbrev pub IsSilent : List (Event Decimal) → Type 0
  IsSilent [] = Unit
  IsSilent (e ∷ es) = (resulting_state e.body ≡ none) × IsSilent es

  end_state-snoc :
      (s : Option PaymentState) (es : List (Event Decimal)) (e : Event Decimal)
      → end_state s (es ++ e ∷ []) ≡ advance (end_state s es) (resulting_state e.body)
  end_state-snoc s [] e = refl
  end_state-snoc s (x ∷ es) e = end_state-snoc (advance s (resulting_state x.body)) es e

  IsPath-snoc :
      (s : Option PaymentState) (es : List (Event Decimal)) (e : Event Decimal)
      → IsPath s es
      → Permitted (end_state s es) (resulting_state e.body)
      → IsPath s (es ++ e ∷ [])
  IsPath-snoc s [] e h p = (p, tt)
  IsPath-snoc s (x ∷ es) e h p = (h.0, IsPath-snoc (advance s (resulting_state x.body)) es e h.1 p)

  IsSilent-snoc :
      (es : List (Event Decimal)) (e : Event Decimal)
      → IsSilent es
      → resulting_state e.body ≡ none
      → IsSilent (es ++ e ∷ [])
  IsSilent-snoc [] e h p = (p, tt)
  IsSilent-snoc (x ∷ es) e h p = (h.0, IsSilent-snoc es e h.1 p)

  pub IsSilent-IsPath :
      (s : Option PaymentState) (es : List (Event Decimal)) → IsSilent es → IsPath s es
  IsSilent-IsPath s [] h = tt
  IsSilent-IsPath s (e ∷ es) h = rw h.0 (tt, IsSilent-IsPath s es h.1)

  pub end_state-final :
      (s : Option PaymentState) (es : List (Event Decimal))
      → end_state s es ≡ advance s (final_state_of es)
  unfolding final_state_of
  end_state-final s [] = refl
  end_state-final s (e ∷ es) =
      ground (arith, end_state-final (advance s (resulting_state e.body)) es)

  -- How a record stands to the chain: it is the fold of it, or the chain has been pruned and its
  -- context is over.
  abbrev pub Tracks : ContextId → Option (Record Decimal) → List (Event Decimal) → Type 0
  Tracks d rec es =
      ((rec ≡ project d none es) × (state_of rec ≡ end_state none es) × IsPath none es)
      ⊎ ((r : Record Decimal) × (rec ≡ some r) × (is_terminal r.state ≡ true) × IsSilent es)

  abbrev pub IsTracked : Inner Decimal → Type 0
  IsTracked g = (d : ContextId) → Tracks d (get g.records d) (chain_of d g.events)

  step_state :
      (d : ContextId) (rec : Option (Record Decimal)) (body : EventBody Decimal)
      → Permitted (state_of rec) (resulting_state body)
      → state_of (step_record d rec body) ≡ advance (state_of rec) (resulting_state body)
  unfolding resulting_state update_record
  step_state d rec (authorized_event m c k) p = refl
  step_state d rec body p = ground arith

  silent_step :
      (d : ContextId) (r : Record Decimal) (body : EventBody Decimal)
      → resulting_state body ≡ none
      → step_record d (some r) body ≡ some r
  unfolding resulting_state update_record
  silent_step d r (authorized_event m c k) h = cc
  silent_step d r body h = ground arith

  -- One event more.
  pub Tracks-snoc :
      (d : ContextId) (rec : Option (Record Decimal)) (es : List (Event Decimal))
      (e : Event Decimal)
      → Permitted (state_of rec) (resulting_state e.body)
      → Tracks d rec es
      → Tracks d (step_record d rec e.body) (es ++ e ∷ [])
  Tracks-snoc d rec es e p (inl (folded, at, path)) = inl (
    ap (λ (r : Option (Record Decimal)). step_record d r e.body) folded
        ∙ sym (project-snoc d none es e),
    step_state d rec e.body p
        ∙ (ap (λ (s : Option PaymentState). advance s (resulting_state e.body)) at
            ∙ sym (end_state-snoc none es e)),
    IsPath-snoc none es e path (subst (λ s. Permitted s (resulting_state e.body)) at p),
  )
  Tracks-snoc d rec es e p (inr (r, found, over, silent)) =
      let quiet : resulting_state e.body ≡ none =
        terminal_stuck r.state (resulting_state e.body) over (
          subst (λ (x : Option (Record Decimal)). Permitted (state_of x) (resulting_state e.body))
            found p) in
      inr (
        r,
        ap (λ (x : Option (Record Decimal)). step_record d x e.body) found
            ∙ silent_step d r e.body quiet,
        over,
        IsSilent-snoc es e silent quiet,
      )
