-- ===== src/Server/Orders/Paid.antt =====
-- What `markOrderPaid` does to the orders: control-server/src/services/billing.ts.
use gluk_vpn.Common.{
  ℕ, zero, suc, Bool, true, false, ◌||◌, Option, some, List, [], ◌∷◌, ◌≡◌, ◌⊎◌, inl, inr, refl,
  arith, get_elem?, set, Text, text_eq, Bool-cases,
}
use gluk_vpn.Server.Entitlements.{free_plan_code, plan_key}
use gluk_vpn.Server.Orders.{
  Order, OrderStatus, pending, paid, is_status, Billing, grant_plan, settle_order, paid_order,
  is_revivable, order_conflict, mark_order_paid,
}

-- An order that was written is read back.
pub get_elem?-written :
    (orders : List Order) (id : ℕ) {o : Order} (new : Order)
    → get_elem? orders id ≡ some o
    → get_elem? (set orders id new) id ≡ some new
get_elem?-written [] id new e = cc
get_elem?-written (x ∷ orders) zero new e = refl
get_elem?-written (x ∷ orders) (suc id) new e = get_elem?-written orders id new e

-- A grant leaves the orders as they are.
pub settle_order-orders :
    (id : ℕ) (o : Order) (now : ℕ) (b : Billing) → (settle_order id o now b).0.orders ≡ b.orders
unfolding settle_order grant_plan
settle_order-orders id o now b = elim (Bool-cases (text_eq (plan_key o.plan.code) free_plan_code)) [
  | inl free ↦ rw (settle_order, grant_plan, free)
  | inr sold ↦ rw (settle_order, grant_plan, sold)
]

-- The orders that may still be paid.
abbrev pub is_payable : Bool → OrderStatus → Bool
is_payable revive s = is_status s pending || is_revivable revive s

pub mark_order_paid-cases :
    (id : ℕ) (ref : Option Text) (revive : Bool) (now : ℕ) (b : Billing) (o : Order)
    → get_elem? b.orders id ≡ some o
    → ((is_payable revive o.status ≡ true)
        × (mark_order_paid id ref revive now b
            ≡ settle_order id o now (record b { orders = set b.orders id (paid_order ref now o) })))
      ⊎ ((is_payable revive o.status ≡ false)
          × ((mark_order_paid id ref revive now b).0 ≡ b)
          × ((o.status ≡ paid)
              ⊎ ((mark_order_paid id ref revive now b).1 ≡ order_conflict o.status)))
unfolding mark_order_paid
mark_order_paid-cases id ref revive now b o found = elim (Bool-cases (is_status o.status paid)) [
  | inl done ↦
      inr (ground (arith, done), rw (mark_order_paid, found, done), inl (ground (arith, done)))
  | inr open_yet ↦ elim (Bool-cases (is_status o.status pending)) [
    | inl waits ↦ inl (ground (arith, waits), rw (mark_order_paid, found, open_yet, waits))
    | inr moved ↦ elim (Bool-cases (is_revivable revive o.status)) [
      | inl back ↦ inl (rw (moved, back), rw (mark_order_paid, found, open_yet, moved, back))
      | inr gone ↦ inr (
        rw (moved, gone),
        rw (mark_order_paid, found, open_yet, moved, gone),
        inr (rw (mark_order_paid, found, open_yet, moved, gone)),
      )
    ]
  ]
]
