-- ===== src/State/Machine.antt =====
-- The lifecycle graph (crates/ml-core/src/state.rs).
use mandate_ledger.Prelude.{◌≡◌, refl, true, false, arith, ◌↔◌}
use mandate_ledger.State.{
  PaymentState, authorized, paid, settled, settlement_failed, compensated, delivered, expired,
  can_transition_to, is_terminal,
}

-- A state is terminal exactly when no transition leaves it.
pub is_terminal_iff :
    (s : PaymentState)
    → (is_terminal s ≡ true) ↔ ((t : PaymentState) → can_transition_to s t ≡ false)
unfolding is_terminal can_transition_to
is_terminal_iff authorized = (λ h. cc, λ h. absurd (ground (arith, h paid)))
is_terminal_iff paid = (λ h. cc, λ h. absurd (ground (arith, h settled)))
is_terminal_iff settled = (λ h. cc, λ h. absurd (ground (arith, h delivered)))
is_terminal_iff settlement_failed = (λ h. cc, λ h. absurd (ground (arith, h compensated)))
is_terminal_iff compensated = (λ h t. refl, λ h. refl)
is_terminal_iff delivered = (λ h t. refl, λ h. refl)
is_terminal_iff expired = (λ h t. refl, λ h. refl)
