-- ===== src/Server/Orders/Create.antt =====
-- The creation of an order: `createOrder` of control-server/src/services/billing.ts. The gateway's
-- answers are arguments, as is what TabPay answers to a lookup of an open order.
use gluk_vpn.Common.{
  ℕ, suc, Bool, true, false, not, ◌&&◌, ◌||◌, Option, none, some, List, [], ◌∷◌, ◌++◌, ◌+◌, ◌*◌,
  ltb, ◌==◌, if◌then◌else◌, length, get_elem?, Text, text_eq, to_lower, is_empty_text,
}
use gluk_vpn.Server.Orders.{Plan, Order, pending, failed, is_status, Billing}
use gluk_vpn.Server.Orders.Events.{Lookup, reuse, already_paid, dead, open_order_verdict}
use gluk_vpn.Server.Orders.Pricing.{
  Provider, manual, name_of, OrderRefusal, billing_is_off, plan_not_found, plan_is_free,
  checkout_failed, lookup_failed, Charge, charged, not_charged, charge_of,
}

pub record Checkout : Type 0 where
  pub payment_url : Option Text
  pub provider_ref : Option Text

-- What the server is given by the gateway.
pub record Gateway : Type 0 where
  pub enabled : Bool
  pub provider : Provider
  pub order_of : Text → Option ℕ
  pub uuid_of : ℕ → Text
  pub look_up : Order → Lookup
  pub create_checkout : Order → Option Checkout

pub data CreateAnswer : Type 0 where
  opened reused settled_now : ℕ → CreateAnswer
  not_created : OrderRefusal → CreateAnswer

abbrev pub is_offered : Text → Bool → Plan → Bool
is_offered code hidden p = text_eq p.code (to_lower code) && (p.active && (hidden || p.is_public))

abbrev pub find_plan : (Plan → Bool) → List Plan → Option Plan
find_plan p [] = none
find_plan p (x ∷ xs) = let rest = find_plan p xs in if p x then some x else rest

-- An open order of the same plan and charge from the last six hours.
abbrev pub is_open_order : ℕ → Plan → Charge → ℕ → Order → Bool
is_open_order user plan c now o =
    o.user == user
    && (text_eq o.plan.code plan.code
        && (is_status o.status pending
            && (o.amount_minor == c.amount_minor
                && (text_eq o.currency c.currency && ltb now (o.created_at + 6 * 60 * 60 * 1000)))))

abbrev pub index_where : (Order → Bool) → List Order → Option ℕ
index_where p [] = none
index_where p (o ∷ os) =
    let rest = index_where p os in
    if p o then some 0 else elim rest [ none ↦ none | some i ↦ some (suc i) ]

abbrev has_url : Order → Bool
has_url o = elim o.payment_url [ none ↦ false | some u ↦ not (is_empty_text u) ]

abbrev is_manual : Provider → Bool
is_manual manual = true
is_manual _ = false

abbrev pub is_reusable : Provider → Order → Bool
is_reusable gateway o = text_eq o.provider (name_of gateway) && (is_manual gateway || has_url o)

abbrev pub new_order : Provider → ℕ → Plan → Charge → ℕ → Order
new_order gateway user plan c now = record {
  user = user;
  plan = plan;
  status = pending;
  amount_minor = c.amount_minor;
  currency = c.currency;
  provider = name_of gateway;
  provider_ref = none;
  payment_url = none;
  paid_at = none;
  promo_code = c.promo_code;
  discount_minor = c.discount_minor;
  created_at = now;
}

-- The row is written, then the gateway is asked; its refusal overwrites the metadata.
unfoldable pub open_order : Gateway → ℕ → Plan → Charge → ℕ → Billing → Billing × CreateAnswer
open_order g user plan c now b =
    let o = new_order g.provider user plan c now in
    let id = length b.orders in
    elim (g.create_checkout o) [
      | none ↦ (
        record b {
          orders =
              b.orders ++ record o { status = failed; promo_code = none; discount_minor = 0 } ∷ [];
        },
        not_created checkout_failed,
      )
      | some k ↦ (
        record b {
          orders =
              b.orders
              ++ record o { payment_url = k.payment_url; provider_ref = k.provider_ref } ∷ [];
        },
        opened id,
      )
    ]

-- What is done with an open order that was found.
unfoldable pub use_open_order :
    Gateway → ℕ → Plan → Charge → ℕ → ℕ → Order → Billing → Billing × CreateAnswer
unfolding open_order open_order_verdict
use_open_order g user plan c now id o b =
    let (after, verdict) =
      open_order_verdict g.order_of (g.uuid_of id) (name_of g.provider) (g.look_up o) now b in
    elim verdict [
      | none ↦ (after, not_created lookup_failed)
      | some already_paid ↦ (after, settled_now id)
      | some reuse ↦ (after, reused id)
      | some dead ↦ open_order g user plan c now after
    ]

unfoldable pub place_order : Gateway → ℕ → Plan → Charge → ℕ → Billing → Billing × CreateAnswer
unfolding use_open_order open_order
place_order g user plan c now b = elim (index_where (is_open_order user plan c now) b.orders) [
  | none ↦ open_order g user plan c now b
  | some id ↦ elim (get_elem? b.orders id) [
    | none ↦ open_order g user plan c now b
    | some o ↦
        if is_reusable g.provider o
        then use_open_order g user plan c now id o b
        else open_order g user plan c now b
  ]
]

-- `createOrder`
unfoldable pub create_order :
    Gateway → List Plan → ℕ → Text → Text → Text → Bool → ℕ → Billing → Billing × CreateAnswer
unfolding place_order charge_of
create_order g plans user plan_code currency code hidden now b =
    if not g.enabled
    then (b, not_created billing_is_off)
    else elim (find_plan (is_offered plan_code hidden) plans) [
      | none ↦ (b, not_created plan_not_found)
      | some plan ↦
          if plan.price_minor == 0
          then (b, not_created plan_is_free)
          else elim (charge_of g.provider b.promos plan user currency code now) [
            | not_charged r ↦ (b, not_created r)
            | charged c ↦ place_order g user plan c now b
          ]
    ]
