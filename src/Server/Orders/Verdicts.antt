-- ===== src/Server/Orders/Verdicts.antt =====
-- When an open order is used again: `openOrderVerdict` of control-server/src/services/billing.ts.
use gluk_vpn.Common.{
  ℕ, Bool, true, false, Option, some, ◌≡◌, inl, inr, refl, if◌then◌else◌, Text, Bool-cases,
}
use gluk_vpn.Extension.Pac.{trim}
use gluk_vpn.Server.Orders.{Billing}
use gluk_vpn.Server.Orders.Events.{
  Lookup, unreachable, no_payment, payment, OpenOrderVerdict, reuse, already_paid, dead,
  open_order_verdict, TabpayOutcome, raised, handled, ignored, upper, handle_tabpay_event,
  is_tabpay, is_unfinished, verdict_of, verdict_after,
}

over_verdict :
    (b : Bool)
    → ◌≡◌ {A = Option OpenOrderVerdict} (some (if b then already_paid else dead)) (some reuse)
    → ⊥
over_verdict true h = cc
over_verdict false h = cc

-- A payment that is over is no reason to use an order again.
never :
    (x : Billing × TabpayOutcome) (status : Text)
    → (verdict_after (verdict_of status) x).1 ≡ some reuse
    → ⊥
unfolding verdict_of
never (b, handled) status h = over_verdict _ h
never (b, ignored i) status h = over_verdict _ h
never (b, raised r) status h = cc

-- Only an order that the gateway still waits for is used again.
pub open_order_verdict-reuse :
    (order_of : Text → Option ℕ) (uuid gateway : Text) (l : Lookup) (now : ℕ) (b : Billing)
    → (open_order_verdict order_of uuid gateway l now b).1 ≡ some reuse
    → (open_order_verdict order_of uuid gateway l now b).0 ≡ b
unfolding open_order_verdict
open_order_verdict-reuse order_of uuid gateway unreachable now b h = refl
open_order_verdict-reuse order_of uuid gateway no_payment now b h = refl
open_order_verdict-reuse order_of uuid gateway (payment id raw) now b h =
    elim (Bool-cases (is_tabpay gateway)) [
      | inr other ↦ rw (open_order_verdict, other)
      | inl ours ↦ elim (Bool-cases (is_unfinished (upper (trim raw)))) [
        | inl open_yet ↦ rw (open_order_verdict, ours, open_yet)
        | inr over ↦ absurd (
            never
              (handle_tabpay_event order_of
                (record { id = id; order_id = uuid; status = upper (trim raw) }) now b)
              (upper (trim raw)) (rw (open_order_verdict, ours, over) at h))
      ]
    ]
