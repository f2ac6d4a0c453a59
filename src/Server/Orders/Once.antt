-- ===== src/Server/Orders/Once.antt =====
-- An order grants its plan once: `markOrderPaid` of control-server/src/services/billing.ts.
use gluk_vpn.Common.{
  ℕ, zero, suc, Bool, true, false, ◌||◌, Option, none, some, List, [], ◌∷◌, ◌++◌, map, ◌+◌, ◌≡◌,
  ◌≤◌, ◌⊎◌, inl, inr, ◌==◌, if◌then◌else◌, refl, sym, subst, ap, arith, get_elem?, get_elem?-set,
  set, count, Bool-cases, Option-cases, Text,
}
use gluk_vpn.Server.Orders.{
  Order, OrderStatus, pending, paid, failed, cancelled, refunded, is_status, Billing, paid_order,
  with_status, is_revivable, cancel_order, mark_order_failed, mark_order_refunded, move_order,
  expire_stale_orders, is_stale,
}
use gluk_vpn.Server.Orders.Paid.{settle_order-orders, get_elem?-written}
use gluk_vpn.Server.Orders.Traces.{
  World, is_claimable, claim_order, Step, placed, read, claimed, cancel, fail, give_up, refund,
  expire, overwrite, overwrite_failed, Reach, start, later,
}

-- An order that was paid.
abbrev is_settled : Order → Bool
is_settled o = is_status o.status paid || is_status o.status refunded

-- How often an order may still grant.
abbrev room : ℕ → List Order → ℕ
room id orders = elim (get_elem? orders id) [ none ↦ 1 | some o ↦ if is_settled o then 0 else 1 ]

settled-le : (a b : Bool) → (a ≡ true → b ≡ true) → (if b then 0 else 1) ≤ (if a then 0 else 1)
settled-le true b h = rw (h refl) (omega arith)
settled-le false true h = omega arith
settled-le false false h = omega arith

room-append :
    (id : ℕ) (orders : List Order) (o : Order) → room id (orders ++ o ∷ []) ≤ room id orders
room-append zero [] o = ground arith
room-append (suc id) [] o = ground arith
room-append zero (x ∷ orders) o = ground arith
room-append (suc id) (x ∷ orders) o = room-append id orders o

room-set :
    (id i : ℕ) (orders : List Order) (new : Order) {o : Order}
    → get_elem? orders i ≡ some o
    → (is_settled o ≡ true → is_settled new ≡ true)
    → room id (set orders i new) ≤ room id orders
room-set id i [] new e h = cc
room-set zero zero (x ∷ orders) new {o} e h =
    let same : x ≡ o = ap (λ (p : Option Order). elim p [ none ↦ x | some y ↦ y ]) e in
    settled-le (is_settled x) (is_settled new) (λ k. h (subst (λ y. is_settled y ≡ true) same k))
room-set (suc id) zero (x ∷ orders) new e h = ground arith
room-set zero (suc i) (x ∷ orders) new e h = ground arith
room-set (suc id) (suc i) (x ∷ orders) new e h = room-set id i orders new e h

room-map :
    (id : ℕ) (f : Order → Order) (orders : List Order)
    → ((o : Order) → is_settled o ≡ true → is_settled (f o) ≡ true)
    → room id (map f orders) ≤ room id orders
room-map id f [] h = ground arith
room-map zero f (x ∷ orders) h = settled-le (is_settled x) (is_settled (f x)) (h x)
room-map (suc id) f (x ∷ orders) h = room-map id f orders h

room-move :
    (id i : ℕ) (old new : OrderStatus) (b : Billing)
    → ((o : Order)
        → is_status o.status old ≡ true
        → is_settled o ≡ true
        → is_settled (with_status new o) ≡ true)
    → room id (move_order old new i b).0.orders ≤ room id b.orders
room-move id i old new b h = elim (Option-cases (get_elem? b.orders i)) [
  | inl nothing ↦ rw (move_order, nothing) (omega arith)
  | inr (o, found) ↦ elim (Bool-cases (is_status o.status old)) [
    | inl on ↦
        rw (move_order, found, on) (room-set id i b.orders (with_status new o) found (h o on))
    | inr off ↦ rw (move_order, found, off) (omega arith)
  ]
]

room-here :
    (id : ℕ) (orders : List Order) {o : Order}
    → get_elem? orders id ≡ some o
    → room id orders ≡ (if is_settled o then 0 else 1)
room-here id orders e = rw (room, e)

still_open :
    (revivable : Bool) (o : Order)
    → is_claimable revivable o.status ≡ true
    → ◌≡◌ {A = ℕ} (if is_settled o then 0 else 1) 1
still_open revivable o on = ground (arith, on)

-- A claim takes the room of an order and grants once, or does nothing.
claim-room :
    (revivable : Bool) (i : ℕ) (seen : Order) (ref : Option Text) (now : ℕ) (w : World) (id : ℕ)
    → room id (claim_order revivable i seen ref now w).billing.orders
        + count (λ g. g == id) (claim_order revivable i seen ref now w).grants
      ≤ room id w.billing.orders + count (λ g. g == id) w.grants
unfolding claim_order
claim-room revivable i seen ref now w id = elim (Option-cases (get_elem? w.billing.orders i)) [
  | inl nothing ↦ rw (claim_order, nothing) (omega arith)
  | inr (o, found) ↦ elim (Bool-cases (is_claimable revivable o.status)) [
    | inr off ↦ rw (claim_order, found, off) (omega arith)
    | inl on ↦
        rw (claim_order, found, on)
          (subst
            (λ l.
              room id l + count (λ g. g == id) (i ∷ w.grants)
              ≤ room id w.billing.orders + count (λ g. g == id) w.grants)
            (sym (
              settle_order-orders i seen now
                (record w.billing { orders = set w.billing.orders i (paid_order ref now o) })))
            (taken o found on))
  ]
]
  where
    spent :
        (j : ℕ)
        → i ≡ j
        → (o : Order) → get_elem? w.billing.orders i ≡ some o
        → is_claimable revivable o.status ≡ true
        → room j (set w.billing.orders i (paid_order ref now o)) + 1 ≤ room j w.billing.orders
    spent j same o found on =
        subst
          (λ k.
            room k (set w.billing.orders i (paid_order ref now o)) + 1 ≤ room k w.billing.orders)
          same
          (omega (
            arith,
            room-here i w.billing.orders found,
            room-here i (set w.billing.orders i (paid_order ref now o))
                (get_elem?-written w.billing.orders i (paid_order ref now o) found),
            still_open revivable o on,
          ))

    taken :
        (o : Order)
        → get_elem? w.billing.orders i ≡ some o
        → is_claimable revivable o.status ≡ true
        → room id (set w.billing.orders i (paid_order ref now o))
            + count (λ g. g == id) (i ∷ w.grants)
          ≤ room id w.billing.orders + count (λ g. g == id) w.grants
    taken o found on = elim (Bool-cases (i == id)) [
      | inl here ↦ ground (arith, here, spent id (ground (arith, here)) o found on)
      | inr off ↦
          ground
            (arith, off, room-set id i w.billing.orders (paid_order ref now o) found (λ k. refl))
    ]

room-le : (id : ℕ) (orders : List Order) → room id orders ≤ 1
room-le id orders = elim (Option-cases (get_elem? orders id)) [
  | inl e ↦ rw (room, e) (omega arith)
  | inr (o, e) ↦ rw (room, e) (ground arith)
]

room-off :
    (id i : ℕ) (orders : List Order) (new : Order)
    → (i == id) ≡ false
    → room id (set orders i new) ≤ room id orders
room-off id i orders new off = elim (Option-cases (get_elem? orders id)) [
  | inl e ↦ ground (arith, get_elem?-set orders i id new, off, e)
  | inr (o, e) ↦ ground (arith, get_elem?-set orders i id new, off, e)
]

claim-overwrites :
    (revivable : Bool) (i : ℕ) (seen : Order) (ref : Option Text) (now : ℕ) (w : World)
    → (claim_order revivable i seen ref now w).overwrites ≡ w.overwrites
unfolding claim_order
claim-overwrites revivable i seen ref now w = ground arith

overwritten : Order → Order
overwritten o = record o { status = failed; promo_code = none; discount_minor = 0 }

-- A write over an order gives it room for one grant more.
overwrite-room :
    (i : ℕ) (w : World) (id : ℕ)
    → room id (overwrite_failed i w).billing.orders
        + count (λ g. g == id) (overwrite_failed i w).grants
        + count (λ g. g == id) w.overwrites
      ≤ room id w.billing.orders
        + count (λ g. g == id) w.grants
        + count (λ g. g == id) (overwrite_failed i w).overwrites
unfolding overwrite_failed overwritten
overwrite-room i w id = elim (Option-cases (get_elem? w.billing.orders i)) [
  | inl nothing ↦ rw (overwrite_failed, nothing) (omega arith)
  | inr (o, found) ↦ elim (Bool-cases (i == id)) [
    | inl here ↦
        rw (overwrite_failed, found)
          (ground (arith, here, room-le id (set w.billing.orders i (overwritten o))))
    | inr off ↦
        rw (overwrite_failed, found)
          (ground (arith, off, room-off id i w.billing.orders (overwritten o) off))
  ]
]

Step-room :
    {w v : World}
    → Step w v
    → (id : ℕ)
    → room id v.billing.orders + count (λ g. g == id) v.grants + count (λ g. g == id) w.overwrites
      ≤ room id w.billing.orders + count (λ g. g == id) w.grants + count (λ g. g == id) v.overwrites
unfolding cancel_order mark_order_failed mark_order_refunded expire_stale_orders
Step-room {w} (placed o e) id = omega (arith, room-append id w.billing.orders o)
Step-room {w} (read i o e) id = omega arith
Step-room {w} (claimed i o ref revive now m e) id = omega (
  arith,
  claim-room (is_revivable revive o.status) i o ref now w id,
  ap (count (λ g. g == id)) (claim-overwrites (is_revivable revive o.status) i o ref now w),
)
Step-room {w} (overwrite i) id = overwrite-room i w id
Step-room {w} (cancel i) id =
    omega
      (arith, room-move id i pending cancelled w.billing (λ o p q. absurd (ground (arith, p, q))))
Step-room {w} (fail i) id =
    omega (arith, room-move id i pending failed w.billing (λ o p q. absurd (ground (arith, p, q))))
Step-room {w} (give_up i) id =
    omega
      (arith, room-move id i pending cancelled w.billing (λ o p q. absurd (ground (arith, p, q))))
Step-room {w} (refund i) id = omega (arith, room-move id i paid refunded w.billing (λ o p q. refl))
Step-room {w} (expire now) id = omega (
  arith,
  room-map id (λ o. if is_stale now o then with_status cancelled o else o) w.billing.orders
      (λ o p. elim (Bool-cases (is_stale now o)) [
        | inl stale ↦ absurd (ground (arith, stale, p))
        | inr fresh ↦ rw fresh p
      ]),
)

settled_order :
    (id : ℕ) (orders : List Order)
    → room id orders ≡ 0
    → (o : Order) × (get_elem? orders id ≡ some o) × ((o.status ≡ paid) ⊎ (o.status ≡ refunded))
settled_order id orders k = elim (Option-cases (get_elem? orders id)) [
  | inl e ↦ absurd (omega (arith, one e, k))
  | inr (o, e) ↦ elim (Bool-cases (is_status o.status paid)) [
    | inl p ↦ (o, e, inl (ground (arith, p)))
    | inr other ↦ elim (Bool-cases (is_status o.status refunded)) [
      | inl p ↦ (o, e, inr (ground (arith, p)))
      | inr neither ↦ absurd (ground (arith, other, neither, room-here id orders e, k))
    ]
  ]
]
  where
    one : get_elem? orders id ≡ none → room id orders ≡ 1
    one e = rw (room, e)

-- However the calls that place, settle, cancel, fail, refund and expire orders interleave, and however
-- often a payment is reported, an order grants its plan at most once, and once more for each time
-- that a failed checkout of `createOrder` wrote over it; where none did, an order that granted stays
-- paid or refunded.
pub Reach-granted_once :
    {w : World}
    → Reach w
    → (id : ℕ)
    → (count (λ g. g == id) w.grants ≤ 1 + count (λ g. g == id) w.overwrites)
      × (count (λ g. g == id) w.overwrites ≡ 0
          → count (λ g. g == id) w.grants ≡ 1
          → (o : Order) × (get_elem? w.billing.orders id ≡ some o)
            × ((o.status ≡ paid) ⊎ (o.status ≡ refunded)))
Reach-granted_once {w} r id = (
  omega (arith, bound r),
  λ untouched h. settled_order id w.billing.orders (omega (arith, bound r, h, untouched)),
)
  where
    bound :
        {v : World}
        → Reach v
        → room id v.billing.orders + count (λ g. g == id) v.grants
          ≤ 1 + count (λ g. g == id) v.overwrites
    bound {v} (start e g o) = rw (e, g, o) (omega arith)
    bound (later s step) = omega (arith, bound s, Step-room step id)
