-- ===== src/Server/Tests/Orders.antt =====
-- Orders, grants and webhooks at concrete inputs.
use gluk_vpn.Common.{
  true, false, none, some, [], ◌∷◌, ◌≡◌, ◌≤◌, ◌+◌, ◌⊎◌, refl, arith, count, codes, get_elem?, ◌==◌,
}
use mathlib.Core.List.{Memᴰ}
use gluk_vpn.Server.Entitlements.{Subscription, running_plan}
use gluk_vpn.Server.Orders.{
  Plan, Order, pending, paid, failed, refunded, Billing, extend, grant_plan, mark_order_paid,
  settle_order,
}
use gluk_vpn.Server.Orders.Granted.{IsExtension, grant_plan-IsExtension}
use gluk_vpn.Server.Orders.Running.{running_plan-grant_plan}
use gluk_vpn.Server.Orders.Events.{TabpayWebhookEvent}
use gluk_vpn.Server.Orders.Events.{unreachable}
use gluk_vpn.Server.Orders.Pricing.{
  stripe, charge_of, apply_code, resolve_plan_price, normalize_currency,
}
use gluk_vpn.Server.Orders.Create.{Gateway, opened, create_order, place_order, open_order}
use gluk_vpn.Server.Orders.Sent.{IsSent, create_order-IsSent}
use gluk_vpn.Server.Orders.Traces.{
  World, placed, read, claimed, overwrite, Reach, start, later, claim_order, overwrite_failed,
}
use gluk_vpn.Server.Orders.Once.{Reach-granted_once}
use gluk_vpn.Server.Orders.Handled.{mark_order_paid-Reach}

abbrev pro : Plan
pro = record {
  code = codes "pro";
  tier = 2;
  days = 30;
  price_minor = 49900;
  currency = codes "KZT";
  prices = [];
  active = true;
  is_public = true;
  max_devices = 5;
  max_sessions = 5;
}

-- A basic subscription that runs for ten more days.
abbrev basic_row : Subscription
basic_row = record {
  user = 0;
  active = true;
  plan = codes "basic";
  tier = 1;
  created_at = 0;
  expires_at = 864001000;
}

abbrev order : Order
order = record {
  user = 0;
  plan = pro;
  status = pending;
  amount_minor = 49900;
  currency = codes "KZT";
  provider = codes "tabpay";
  provider_ref = none;
  payment_url = some (codes "u");
  paid_at = none;
  promo_code = none;
  discount_minor = 0;
  created_at = 500;
}

abbrev before : Billing
before = record {
  orders = [];
  subscriptions = basic_row ∷ [];
  accounts = record { max_devices = 3; max_sessions = 3 } ∷ [];
  promos = record { codes = []; redemptions = [] };
}

abbrev ordered : Billing
ordered = record before { orders = order ∷ [] }

abbrev upgraded : Billing
upgraded = record before {
  subscriptions =
      record basic_row { active = false }
      ∷ record {
        user = 0;
        active = true;
        plan = codes "pro";
        tier = 2;
        created_at = 1000;
        expires_at = 3456001000;
      }
      ∷ [];
  accounts = record { max_devices = 5; max_sessions = 5 } ∷ [];
}

granted : grant_plan extend 0 pro none 1000 before ≡ some (upgraded, 3456001000)
unfolding grant_plan
granted = refl

grant_plan-IsExtension_example : IsExtension 0 pro 30 1000 before upgraded 3456001000
grant_plan-IsExtension_example =
    grant_plan-IsExtension 0 pro none 1000 before upgraded 3456001000 granted

running_plan-grant_plan_example :
    (s : Subscription) × (running_plan 0 1000 upgraded.subscriptions ≡ some s)
    × (s.plan ≡ codes "pro")
    × (s.expires_at ≡ 3456001000)
running_plan-grant_plan_example =
    running_plan-grant_plan extend 0 pro none 1000 before upgraded 3456001000 granted (omega arith)
      ((λ h. refl), tt)

abbrev success_event : TabpayWebhookEvent
success_event = record { id = codes "p1"; order_id = codes "0"; status = codes "success" }

abbrev no_orders : World
no_orders = record { billing = before; reads = []; grants = []; overwrites = [] }

abbrev one_order : World
one_order = record { billing = ordered; reads = []; grants = []; overwrites = [] }

one_order-Reach : Reach one_order
one_order-Reach = later {w = no_orders} (start refl refl refl) (placed order refl)

abbrev was_read : World
was_read = record one_order { reads = (0, order) ∷ [] }

abbrev paid_world : World
unfolding claim_order settle_order grant_plan
paid_world = claim_order false 0 order none 1000 was_read

Reach-granted_once_example :
    (count (λ g. g == 0) paid_world.grants ≤ 1 + count (λ g. g == 0) paid_world.overwrites)
    × (count (λ g. g == 0) paid_world.overwrites ≡ 0
        → count (λ g. g == 0) paid_world.grants ≡ 1
        → (o : Order) × (get_elem? paid_world.billing.orders 0 ≡ some o)
          × ((o.status ≡ paid) ⊎ (o.status ≡ refunded)))
unfolding paid_world claim_order
Reach-granted_once_example =
    Reach-granted_once
      (later (later one_order-Reach (read 0 order refl))
        (claimed 0 order none true 1000 (Memᴰ.head refl) refl))
      0

-- A checkout that fails behind the settlement of its order, and a later report that revives it.
abbrev failed_order : Order
failed_order = record order { status = failed; paid_at = some 1000 }

abbrev overwritten_world : World
unfolding overwrite_failed paid_world claim_order settle_order grant_plan
overwritten_world = overwrite_failed 0 paid_world

abbrev revived_world : World
unfolding overwritten_world overwrite_failed paid_world claim_order settle_order grant_plan
revived_world =
    claim_order true 0 failed_order none 5000
      (record overwritten_world { reads = (0, failed_order) ∷ overwritten_world.reads })

granted_twice : Reach revived_world × (count (λ g. g == 0) revived_world.grants ≡ 2)
unfolding overwritten_world overwrite_failed paid_world claim_order settle_order grant_plan
granted_twice = (
  later
      (later
        (later
          (later (later one_order-Reach (read 0 order refl))
            (claimed 0 order none true 1000 (Memᴰ.head refl) refl))
          (overwrite 0))
        (read 0 failed_order refl))
      (claimed 0 failed_order none true 5000 (Memᴰ.head refl) refl),
  refl,
)

mark_order_paid-Reach_example :
    (v : World) × Reach v
    × (v.billing ≡ (mark_order_paid 0 none true 1000 ordered).0)
    × ((v.grants ≡ 0 ∷ [])
        ⊎ ((v.grants ≡ []) × ((mark_order_paid 0 none true 1000 ordered).0 ≡ ordered)))
mark_order_paid-Reach_example = mark_order_paid-Reach 0 none true 1000 one_order one_order-Reach

-- A server that takes payments by Stripe.
abbrev stripe_gateway : Gateway
stripe_gateway = record {
  enabled = true;
  provider = stripe;
  order_of = λ t. some 0;
  uuid_of = λ i. codes "0";
  look_up = λ o. unreachable;
  create_checkout = λ o. some (record { payment_url = some (codes "u"); provider_ref = none });
}

create_order-IsSent_example :
    IsSent stripe_gateway
      (pro ∷ [])
      0
      (codes "PRO")
      (codes "kzt")
      (codes "")
      false
      1000
      before
      (record before {
        orders = record order { provider = codes "stripe"; created_at = 1000 } ∷ [];
      })
      0
unfolding create_order place_order open_order charge_of apply_code resolve_plan_price
    normalize_currency
create_order-IsSent_example =
    create_order-IsSent stripe_gateway (pro ∷ []) 0 (codes "PRO") (codes "kzt") (codes "") false
      1000 before _ (opened 0) 0 refl refl
