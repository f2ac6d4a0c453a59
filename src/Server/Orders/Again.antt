-- ===== src/Server/Orders/Again.antt =====
-- What a status of a payment does when it is reported again: `markOrderPaid`, `markOrderFailed` and
-- `markOrderRefunded` of control-server/src/services/billing.ts.
use gluk_vpn.Common.{
  ℕ, Bool, true, false, Option, none, some, ◌≡◌, inl, inr, refl, sym, subst, ap, ◌∙◌, arith,
  get_elem?, set, Text, Bool-cases, Option-cases,
}
use gluk_vpn.Server.Orders.{
  Order, OrderStatus, pending, paid, failed, cancelled, refunded, is_status, Billing, settle_order,
  paid_order, with_status, mark_order_paid, mark_order_failed, mark_order_refunded, move_order,
  settled, PaidAnswer, order_not_found, grant_refused, order_conflict,
}
use gluk_vpn.Server.Orders.Events.{
  Meaning, success, failure, cancellation, refund, no_meaning, apply_meaning, paid_outcome,
}
use gluk_vpn.Server.Orders.Paid.{
  get_elem?-written, settle_order-orders, mark_order_paid-cases, is_payable,
}

already_paid_order :
    (id : ℕ) (ref : Option Text) (revive : Bool) (now : ℕ) (b : Billing) (o : Order)
    → get_elem? b.orders id ≡ some o
    → o.status ≡ paid
    → (mark_order_paid id ref revive now b).0 ≡ b
unfolding mark_order_paid
already_paid_order id ref revive now b o found done = rw (mark_order_paid, found, done)

missing_order :
    (id : ℕ) (ref : Option Text) (revive : Bool) (now : ℕ) (b : Billing)
    → get_elem? b.orders id ≡ none
    → (mark_order_paid id ref revive now b).0 ≡ b
unfolding mark_order_paid
missing_order id ref revive now b nothing = rw (mark_order_paid, nothing)

fixed_order :
    (id : ℕ) (ref : Option Text) (revive : Bool) (now : ℕ) (b : Billing) (o : Order)
    → get_elem? b.orders id ≡ some o
    → is_payable revive o.status ≡ false
    → (mark_order_paid id ref revive now b).0 ≡ b
fixed_order id ref revive now b o found fixed =
    elim (mark_order_paid-cases id ref revive now b o found) [
      | inl (payable, same) ↦ absurd (ground (arith, payable, fixed))
      | inr (_, same, why) ↦ same
    ]

-- What changes nothing changes nothing again.
pub stays :
    (f : ℕ → Billing → Billing) (now later : ℕ) (b : Billing)
    → ((t : ℕ) → f t b ≡ b)
    → f later (f now b) ≡ f now b
stays f now later b h = ap (f later) (h now) ∙ h later ∙ sym (h now)

mark_order_paid-again :
    (id : ℕ) (ref : Option Text) (revive : Bool) (now later : ℕ) (b : Billing)
    → (mark_order_paid id ref revive later (mark_order_paid id ref revive now b).0).0
      ≡ (mark_order_paid id ref revive now b).0
mark_order_paid-again id ref revive now later b = elim (Option-cases (get_elem? b.orders id)) [
  | inl nothing ↦
      stays (λ t x. (mark_order_paid id ref revive t x).0) now later b
        (λ t. missing_order id ref revive t b nothing)
  | inr (o, found) ↦ elim (mark_order_paid-cases id ref revive now b o found) [
    | inl (payable, same) ↦
        let moved : Billing = record b { orders = set b.orders id (paid_order ref now o) } in
        let stored : get_elem? (settle_order id o now moved).0.orders id
            ≡ some (paid_order ref now o) =
          subst (λ l. get_elem? l id ≡ some (paid_order ref now o))
            (sym (settle_order-orders id o now moved))
            (get_elem?-written b.orders id (paid_order ref now o) found) in
        subst (λ (x : Billing × PaidAnswer). (mark_order_paid id ref revive later x.0).0 ≡ x.0)
          (sym same)
          (already_paid_order id ref revive later (settle_order id o now moved).0
            (paid_order ref now o) stored refl)
    | inr (fixed, same, why) ↦
        stays (λ t x. (mark_order_paid id ref revive t x).0) now later b
          (λ t. fixed_order id ref revive t b o found fixed)
  ]
]

move_order-again :
    (old new : OrderStatus) (id : ℕ) (b : Billing)
    → is_status new old ≡ false
    → (move_order old new id (move_order old new id b).0).0 ≡ (move_order old new id b).0
move_order-again old new id b differ = elim (Option-cases (get_elem? b.orders id)) [
  | inl nothing ↦ unmoved (rw (move_order, nothing))
  | inr (o, found) ↦ elim (Bool-cases (is_status o.status old)) [
    | inr off ↦ unmoved (rw (move_order, found, off))
    | inl on ↦
        let after : Billing = record b { orders = set b.orders id (with_status new o) } in
        let moved : (move_order old new id b).0 ≡ after = rw (move_order, found, on) in
        let stored = get_elem?-written b.orders id (with_status new o) found in
        subst (λ x. (move_order old new id x).0 ≡ x) (sym moved) (rw (move_order, stored, differ))
  ]
]
  where
    unmoved :
        (move_order old new id b).0 ≡ b
        → (move_order old new id (move_order old new id b).0).0 ≡ (move_order old new id b).0
    unmoved h = ap (λ x. (move_order old new id x).0) h

paid_outcome-fst : (x : Billing × PaidAnswer) → (paid_outcome x).0 ≡ x.0
paid_outcome-fst (b, settled) = refl
paid_outcome-fst (b, order_not_found) = refl
paid_outcome-fst (b, grant_refused) = refl
paid_outcome-fst (b, order_conflict s) = refl

pub apply_meaning-again :
    (m : Meaning) (id : ℕ) (ref : Option Text) (now later : ℕ) (b : Billing)
    → (apply_meaning m id ref later (apply_meaning m id ref now b).0).0
      ≡ (apply_meaning m id ref now b).0
unfolding apply_meaning mark_order_failed mark_order_refunded
apply_meaning-again success id ref now later b =
    paid_outcome-fst
      (mark_order_paid id ref true later (paid_outcome (mark_order_paid id ref true now b)).0)
    ∙ ap (λ x. (mark_order_paid id ref true later x).0)
        (paid_outcome-fst (mark_order_paid id ref true now b))
    ∙ mark_order_paid-again id ref true now later b
    ∙ sym (paid_outcome-fst (mark_order_paid id ref true now b))
apply_meaning-again failure id ref now later b = move_order-again pending failed id b refl
apply_meaning-again cancellation id ref now later b = move_order-again pending cancelled id b refl
apply_meaning-again refund id ref now later b = move_order-again paid refunded id b refl
apply_meaning-again no_meaning id ref now later b = refl

unfoldable pub IsStored : ℕ → Billing → Type 0
IsStored id b = (o : Order) × (get_elem? b.orders id ≡ some o)

mark_order_paid-IsStored :
    (id : ℕ) (ref : Option Text) (revive : Bool) (now : ℕ) (b : Billing)
    → IsStored id b
    → IsStored id (mark_order_paid id ref revive now b).0
unfolding IsStored
mark_order_paid-IsStored id ref revive now b (o, found) =
    elim (mark_order_paid-cases id ref revive now b o found) [
      | inl (payable, same) ↦
          let moved : Billing = record b { orders = set b.orders id (paid_order ref now o) } in
          subst (λ (x : Billing × PaidAnswer). IsStored id x.0) (sym same)
            (
              paid_order ref now o,
              subst (λ l. get_elem? l id ≡ some (paid_order ref now o))
                  (sym (settle_order-orders id o now moved))
                  (get_elem?-written b.orders id (paid_order ref now o) found),
            )
      | inr (_, same, why) ↦ subst (IsStored id) (sym same) (o, found)
    ]

move_order-IsStored :
    (old new : OrderStatus) (id : ℕ) (b : Billing)
    → IsStored id b
    → IsStored id (move_order old new id b).0
unfolding IsStored
move_order-IsStored old new id b (o, found) = elim (Bool-cases (is_status o.status old)) [
  | inl on ↦
      let moved : (move_order old new id b).0
          ≡ record b { orders = set b.orders id (with_status new o) } =
        rw (move_order, found, on) in
      subst (IsStored id) (sym moved)
        (with_status new o, get_elem?-written b.orders id (with_status new o) found)
  | inr off ↦
      let same : (move_order old new id b).0 ≡ b = rw (move_order, found, off) in
      subst (IsStored id) (sym same) (o, found)
]

pub apply_meaning-IsStored :
    (m : Meaning) (id : ℕ) (ref : Option Text) (now : ℕ) (b : Billing)
    → IsStored id b
    → IsStored id (apply_meaning m id ref now b).0
unfolding apply_meaning mark_order_failed mark_order_refunded
apply_meaning-IsStored success id ref now b h =
    subst (IsStored id) (sym (paid_outcome-fst (mark_order_paid id ref true now b)))
      (mark_order_paid-IsStored id ref true now b h)
apply_meaning-IsStored failure id ref now b h = move_order-IsStored pending failed id b h
apply_meaning-IsStored cancellation id ref now b h = move_order-IsStored pending cancelled id b h
apply_meaning-IsStored refund id ref now b h = move_order-IsStored paid refunded id b h
apply_meaning-IsStored no_meaning id ref now b h = h
