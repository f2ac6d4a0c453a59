-- ===== src/Server/Orders/Events.antt =====
-- What the payment gateways report: `handleStripeEvent`, `handleTabpayEvent`, `openOrderVerdict` and
-- `reconcilePendingOrders` of control-server/src/services/billing.ts. Which order an id that has the
-- form of a UUID names (`order_of`) is an argument, as is what TabPay answers to a lookup.
use gluk_vpn.Common.{
  ℕ, Bool, true, false, not, ◌&&◌, ◌||◌, Option, none, some, map, if◌then◌else◌, get_elem?, Text,
  text_eq, text_starts_with, codes, is_empty_text,
}
use Prim.Native.String.{String}
use gluk_vpn.Extension.Pac.{trim}
use gluk_vpn.Server.Promo.{upper_code}
use gluk_vpn.Server.Orders.{
  failed, cancelled, Billing, PaidAnswer, order_not_found, settled, mark_order_paid,
  mark_order_failed, mark_order_refunded,
}

-- The webhook's body, each field a text that may be missing.
pub record TabpayWebhookEvent : Type 0 where
  pub id : Text
  pub order_id : Text
  pub status : Text

pub data Ignored : Type 0 where
  probe malformed unknown_order no_action : Ignored

-- `raised` stands for an error that the handler passes on.
pub data TabpayOutcome : Type 0 where
  handled : TabpayOutcome
  ignored : Ignored → TabpayOutcome
  raised : PaidAnswer → TabpayOutcome

abbrev pub upper : Text → Text
upper t = map upper_code t

pub data Meaning : Type 0 where
  success failure cancellation refund no_meaning : Meaning

abbrev is_word : Text → String → Bool
is_word t w = text_eq t (codes w)

-- The cases of the `switch`.
unfoldable pub meaning_of : Text → Meaning
meaning_of s =
    if is_word s "SUCCESS"
    then success
    else if is_word s "FAILED" || is_word s "EXPIRED"
    then failure
    else if is_word s "CANCELED" || is_word s "CANCELLED"
    then cancellation
    else if is_word s "REFUNDED"
    then refund
    else no_meaning

abbrev pub paid_outcome : Billing × PaidAnswer → Billing × TabpayOutcome
paid_outcome (b, settled) = (b, handled)
paid_outcome (b, r) = (b, raised r)

abbrev pub or_null : Text → Option Text
or_null t = if is_empty_text t then none else some t

-- What a status does to an order.
unfoldable pub apply_meaning : Meaning → ℕ → Option Text → ℕ → Billing → Billing × TabpayOutcome
unfolding mark_order_paid mark_order_failed mark_order_refunded
apply_meaning success id ref now b = paid_outcome (mark_order_paid id ref true now b)
apply_meaning failure id ref now b = ((mark_order_failed id failed b).0, handled)
apply_meaning cancellation id ref now b = ((mark_order_failed id cancelled b).0, handled)
apply_meaning refund id ref now b = ((mark_order_refunded id b).0, handled)
apply_meaning no_meaning id ref now b = (b, ignored no_action)

abbrev pub is_known : ℕ → Billing → Bool
is_known id b = elim (get_elem? b.orders id) [ none ↦ false | some o ↦ true ]

-- The dashboard's synthetic event.
unfoldable pub is_probe : TabpayWebhookEvent → Bool
is_probe e = text_starts_with (trim e.id) (codes "test-")

unfoldable pub is_malformed : TabpayWebhookEvent → Bool
is_malformed e = is_empty_text (trim e.order_id) || is_empty_text (upper (trim e.status))

-- `handleTabpayEvent`
unfoldable pub handle_tabpay_event :
    (Text → Option ℕ) → TabpayWebhookEvent → ℕ → Billing → Billing × TabpayOutcome
unfolding apply_meaning meaning_of
handle_tabpay_event order_of e now b =
    if is_probe e
    then (b, ignored probe)
    else if is_malformed e
    then (b, ignored malformed)
    else elim (order_of (trim e.order_id)) [
      | none ↦ (b, ignored unknown_order)
      | some id ↦
          if not (is_known id b)
          then (b, ignored unknown_order)
          else apply_meaning (meaning_of (upper (trim e.status))) id (or_null (trim e.id)) now b
    ]

-- A Stripe event, of the fields that are read.
pub record StripeEvent : Type 0 where
  pub type_of : Text
  pub session_id : Option Text
  pub client_reference_id : Option Text
  pub metadata_order_id : Option Text
  pub payment_status : Text

pub data StripeOutcome : Type 0 where
  stripe_handled stripe_ignored : StripeOutcome
  stripe_raised : PaidAnswer → StripeOutcome

abbrev or_else : Option Text → Option Text → Option Text
or_else none b = b
or_else (some a) b = some a

abbrev stripe_answer : Billing × PaidAnswer → Billing × StripeOutcome
stripe_answer (b, settled) = (b, stripe_handled)
stripe_answer (b, r) = (b, stripe_raised r)

abbrev is_completion : Text → Bool
is_completion t =
    is_word t "checkout.session.completed" || is_word t "checkout.session.async_payment_succeeded"

-- `handleStripeEvent`; an id that names no order is not found.
unfoldable pub handle_stripe_event :
    (Text → Option ℕ) → StripeEvent → ℕ → Billing → Billing × StripeOutcome
unfolding mark_order_paid
handle_stripe_event order_of e now b =
    if not (is_completion e.type_of)
    then (b, stripe_ignored)
    else elim (or_else e.client_reference_id e.metadata_order_id) [
      | none ↦ (b, stripe_ignored)
      | some id ↦
          if is_empty_text id
            || not (is_empty_text e.payment_status) && not (is_word e.payment_status "paid")
          then (b, stripe_ignored)
          else elim (order_of id) [
            | none ↦ (b, stripe_raised order_not_found)
            | some i ↦ stripe_answer (mark_order_paid i e.session_id false now b)
          ]
    ]

-- What TabPay answers to a lookup of a payment.
pub data Lookup : Type 0 where
  unreachable no_payment : Lookup
  payment : Text → Text → Lookup

pub data OpenOrderVerdict : Type 0 where
  reuse already_paid dead : OpenOrderVerdict

-- The statuses of a payment that can still be paid.
unfoldable pub is_unfinished : Text → Bool
is_unfinished s = is_empty_text s || (is_word s "CREATED" || is_word s "PENDING")

unfoldable pub is_tabpay : Text → Bool
is_tabpay gateway = is_word gateway "tabpay"

unfoldable pub verdict_of : Text → OpenOrderVerdict
verdict_of s = if is_word s "SUCCESS" then already_paid else dead

abbrev pub verdict_after :
    OpenOrderVerdict → Billing × TabpayOutcome → Billing × Option OpenOrderVerdict
verdict_after v (b, raised r) = (b, none)
verdict_after v (b, _) = (b, some v)

-- `openOrderVerdict` of an order that the gateway keeps under the text `uuid`; an error of the
-- handler is passed on.
unfoldable pub open_order_verdict :
    (Text → Option ℕ) → Text → Text → Lookup → ℕ → Billing → Billing × Option OpenOrderVerdict
unfolding handle_tabpay_event is_unfinished is_tabpay verdict_of
open_order_verdict order_of uuid gateway unreachable now b = (b, some reuse)
open_order_verdict order_of uuid gateway no_payment now b = (b, some reuse)
open_order_verdict order_of uuid gateway (payment id raw) now b =
    let status = upper (trim raw) in
    if not (is_tabpay gateway)
    then (b, some reuse)
    else if is_unfinished status
    then (b, some reuse)
    else verdict_after (verdict_of status)
        (handle_tabpay_event order_of (record { id = id; order_id = uuid; status = status }) now b)
