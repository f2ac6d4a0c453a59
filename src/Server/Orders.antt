-- ===== src/Server/Orders.antt =====
-- Orders and subscriptions: control-server/src/services/billing.ts. An order's id is its position in
-- its table, an account's its position in the table of limits; moments are milliseconds and amounts
-- minor units. The origin of a subscription (`source`) is left out, and so are the audit, the
-- notifications and the texts.
pub mod Granted
pub mod Running
pub mod Paid
pub mod Events
pub mod Again
pub mod Delivered
pub mod Traces
pub mod Once
pub mod Handled
pub mod Pricing
pub mod Charged
pub mod Create
pub mod Verdicts
pub mod Placed
pub mod Sent
use Prim.Native.Nat.{max}
use gluk_vpn.Common.{
  ℕ, zero, suc, Bool, true, false, not, ◌&&◌, ◌||◌, Option, none, some, List, [], ◌∷◌, ◌++◌, map,
  ◌+◌, ◌-◌, ◌*◌, leb, ltb, ◌==◌, if◌then◌else◌, length, get_elem?, set, Text, text_eq,
  is_empty_text,
}
use gluk_vpn.Server.Entitlements.{day_ms, free_plan_code, plan_key, Subscription}
use gluk_vpn.Server.Promo.{Promos, redeem_promo}

pub record Plan : Type 0 where
  pub code : Text
  pub tier : ℕ
  pub days : ℕ
  pub price_minor : ℕ
  pub currency : Text
  pub prices : List (Text × ℕ)
  pub active : Bool
  pub is_public : Bool
  pub max_devices : ℕ
  pub max_sessions : ℕ

-- The limits of an account.
pub record Limits : Type 0 where
  pub max_devices : ℕ
  pub max_sessions : ℕ

pub data OrderStatus : Type 0 where
  pending paid failed cancelled refunded : OrderStatus

abbrev pub is_status : OrderStatus → OrderStatus → Bool
is_status pending pending = true
is_status paid paid = true
is_status failed failed = true
is_status cancelled cancelled = true
is_status refunded refunded = true
is_status _ _ = false

pub record Order : Type 0 where
  pub user : ℕ
  pub plan : Plan
  pub status : OrderStatus
  pub amount_minor : ℕ
  pub currency : Text
  pub provider : Text
  pub provider_ref : Option Text
  pub payment_url : Option Text
  pub paid_at : Option ℕ
  pub promo_code : Option Text
  pub discount_minor : ℕ
  pub created_at : ℕ

pub record Billing : Type 0 where
  pub orders : List Order
  pub subscriptions : List Subscription
  pub accounts : List Limits
  pub promos : Promos

-- Grants

pub data Mode : Type 0 where
  extend replace : Mode

-- The rows that a grant takes over.
abbrev pub is_superseded : Mode → ℕ → Plan → ℕ → Subscription → Bool
is_superseded replace user plan now s = s.user == user && (s.active && ltb now s.expires_at)
is_superseded extend user plan now s =
    s.user == user && (s.active && (ltb now s.expires_at && leb s.tier plan.tier))

-- The latest end of those rows, `now` without one.
abbrev pub latest_end : (Subscription → Bool) → ℕ → List Subscription → ℕ
latest_end p now [] = now
latest_end p now (s ∷ ss) =
    let rest = latest_end p now ss in if p s then max s.expires_at rest else rest

abbrev pub ended_if : (Subscription → Bool) → Subscription → Subscription
ended_if p s = if p s then record s { active = false } else s

abbrev pub raised : Plan → Limits → Limits
raised plan l = record {
  max_devices = max l.max_devices plan.max_devices;
  max_sessions = max l.max_sessions plan.max_sessions;
}

abbrev pub raise_limits : ℕ → Plan → List Limits → List Limits
raise_limits user plan ls = elim (get_elem? ls user) [
  | none ↦ ls
  | some l ↦ set ls user (raised plan l)
]

abbrev pub term_start : Mode → ℕ → Plan → ℕ → List Subscription → ℕ
term_start extend user plan now ss = latest_end (is_superseded extend user plan now) now ss
term_start replace user plan now ss = now

-- `grantPlan`; no answer stands for the refusal of the free plan.
unfoldable pub grant_plan : Mode → ℕ → Plan → Option ℕ → ℕ → Billing → Option (Billing × ℕ)
grant_plan mode user plan days now b =
    if text_eq (plan_key plan.code) free_plan_code
    then none
    else some (
      record b {
        subscriptions =
            map (ended_if (is_superseded mode user plan now)) b.subscriptions
            ++ record {
              user = user;
              active = true;
              plan = plan.code;
              tier = plan.tier;
              created_at = now;
              expires_at = expires;
            }
              ∷ [];
        accounts = raise_limits user plan b.accounts;
      },
      expires,
    )
  where
    expires : ℕ
    expires =
        term_start mode user plan now b.subscriptions
        + elim days [ none ↦ plan.days | some d ↦ d ] * day_ms

-- Orders

pub data PaidAnswer : Type 0 where
  order_not_found grant_refused : PaidAnswer
  order_conflict : OrderStatus → PaidAnswer
  settled : PaidAnswer

abbrev pub is_revivable : Bool → OrderStatus → Bool
is_revivable revive s = revive && (is_status s failed || is_status s cancelled)

abbrev ref_or : Option Text → Option Text → Option Text
ref_or none old = old
ref_or (some r) old = if is_empty_text r then old else some r

abbrev pub paid_order : Option Text → ℕ → Order → Order
paid_order ref now o = record o {
  status = paid;
  paid_at = some now;
  provider_ref = ref_or ref o.provider_ref;
}

abbrev pub with_status : OrderStatus → Order → Order
with_status s o = record o { status = s }

abbrev redeemed : ℕ → Order → Promos → Promos
unfolding redeem_promo
redeemed id o promos = elim o.promo_code [
  | none ↦ promos
  | some code ↦
      if is_empty_text code then promos else (redeem_promo code o.user id o.discount_minor promos).0
]

-- What the winner of the conditional update does.
unfoldable pub settle_order : ℕ → Order → ℕ → Billing → Billing × PaidAnswer
unfolding grant_plan redeemed
settle_order id o now b = elim (grant_plan extend o.user o.plan none now b) [
  | none ↦ (b, grant_refused)
  | some (granted, expires) ↦ (record granted { promos = redeemed id o granted.promos }, settled)
]

-- `markOrderPaid`
unfoldable pub mark_order_paid : ℕ → Option Text → Bool → ℕ → Billing → Billing × PaidAnswer
unfolding settle_order
mark_order_paid id ref revive now b = elim (get_elem? b.orders id) [
  | none ↦ (b, order_not_found)
  | some o ↦
      if is_status o.status paid
      then (b, settled)
      else if not (is_status o.status pending) && not (is_revivable revive o.status)
      then (b, order_conflict o.status)
      else settle_order id o now (record b { orders = set b.orders id (paid_order ref now o) })
]

-- An update of one order under a condition on its status, and whether it wrote.
abbrev pub move_order : OrderStatus → OrderStatus → ℕ → Billing → Billing × Bool
move_order old new id b = elim (get_elem? b.orders id) [
  | none ↦ (b, false)
  | some o ↦
      if is_status o.status old
      then (record b { orders = set b.orders id (with_status new o) }, true)
      else (b, false)
]

-- `cancelOrder`; the flag is false where the code refuses.
unfoldable pub cancel_order : ℕ → Billing → Billing × Bool
cancel_order id b = move_order pending cancelled id b

-- `markOrderFailed`
unfoldable pub mark_order_failed : ℕ → OrderStatus → Billing → Billing × Bool
mark_order_failed id status b = move_order pending status id b

-- `markOrderRefunded`
unfoldable pub mark_order_refunded : ℕ → Billing → Billing × Bool
mark_order_refunded id b = move_order paid refunded id b

abbrev pub is_stale : ℕ → Order → Bool
is_stale now o = is_status o.status pending && ltb (o.created_at + day_ms) now

-- `expireStaleOrders`
unfoldable pub expire_stale_orders : ℕ → Billing → Billing
expire_stale_orders now b = record b {
  orders = map (λ o. if is_stale now o then with_status cancelled o else o) b.orders;
}
