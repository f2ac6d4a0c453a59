-- ===== src/Server/Orders/Traces.antt =====
-- The statements on orders in any interleaving: control-server/src/services/billing.ts.
-- `markOrderPaid` reads an order, decides, and claims it with one conditional update; other calls
-- may run between the two. A world keeps the orders that were read, the grants that were made and the
-- orders that a failed checkout wrote over.
use gluk_vpn.Common.{
  ℕ, Bool, true, ◌&&◌, ◌||◌, Option, none, some, List, [], ◌∷◌, ◌++◌, ◌≡◌, if◌then◌else◌, get_elem?,
  set, Text,
}
use mathlib.Core.List.{Memᴰ}
use gluk_vpn.Server.Orders.{
  Order, OrderStatus, pending, failed, cancelled, is_status, Billing, settle_order, paid_order,
  is_revivable, cancel_order, mark_order_failed, mark_order_refunded, expire_stale_orders,
}
use gluk_vpn.Server.Orders.Paid.{is_payable}

pub record World : Type 0 where
  pub billing : Billing
  pub reads : List (ℕ × Order)
  pub grants : List ℕ
  pub overwrites : List ℕ

-- The statuses that the conditional update takes.
abbrev pub is_claimable : Bool → OrderStatus → Bool
is_claimable revivable s =
    is_status s pending || revivable && (is_status s failed || is_status s cancelled)

-- The conditional update of `markOrderPaid` and what its winner does, of the order as it was read.
unfoldable pub claim_order : Bool → ℕ → Order → Option Text → ℕ → World → World
unfolding settle_order
claim_order revivable id seen ref now w = elim (get_elem? w.billing.orders id) [
  | none ↦ w
  | some o ↦
      if is_claimable revivable o.status
      then record w {
        billing =
            (settle_order id seen now
              (record w.billing { orders = set w.billing.orders id (paid_order ref now o) })).0;
        grants = id ∷ w.grants;
      }
      else w
]

abbrev pub with_billing : World → Billing → World
with_billing w b = record w { billing = b }

-- The `catch` of `createOrder`: an order whose checkout failed is failed, whatever its status is by
-- then, and what it kept of a promo code is lost.
unfoldable pub overwrite_failed : ℕ → World → World
overwrite_failed id w = elim (get_elem? w.billing.orders id) [
  | none ↦ w
  | some o ↦ record w {
    billing = record w.billing {
      orders =
          set w.billing.orders id
            (record o { status = failed; promo_code = none; discount_minor = 0 });
    };
    overwrites = id ∷ w.overwrites;
  }
]

pub data Step (w : World) : World → Type 0 where
  placed :
      (o : Order)
      → o.status ≡ pending
      → Step w (with_billing w (record w.billing { orders = w.billing.orders ++ o ∷ [] }))
  read :
      (id : ℕ) (o : Order)
      → get_elem? w.billing.orders id ≡ some o
      → Step w (record w { reads = (id, o) ∷ w.reads })
  claimed :
      (id : ℕ) (o : Order) (ref : Option Text) (revive : Bool) (now : ℕ)
      → Memᴰ (id, o) w.reads
      → is_payable revive o.status ≡ true
      → Step w (claim_order (is_revivable revive o.status) id o ref now w)
  cancel : (id : ℕ) → Step w (with_billing w (cancel_order id w.billing).0)
  fail : (id : ℕ) → Step w (with_billing w (mark_order_failed id failed w.billing).0)
  give_up : (id : ℕ) → Step w (with_billing w (mark_order_failed id cancelled w.billing).0)
  refund : (id : ℕ) → Step w (with_billing w (mark_order_refunded id w.billing).0)
  overwrite : (id : ℕ) → Step w (overwrite_failed id w)
  expire : (now : ℕ) → Step w (with_billing w (expire_stale_orders now w.billing))

pub data Reach : World → Type 0 where
  start : {w : World} → w.billing.orders ≡ [] → w.grants ≡ [] → w.overwrites ≡ [] → Reach w
  later : {w v : World} → Reach w → Step w v → Reach v
