-- ===== src/Server/Tests/Plans.antt =====
-- Plans, windows, quotas and promo codes at concrete inputs.
use gluk_vpn.Common.{
  ℕ, true, false, none, some, List, [], ◌∷◌, ◌≡◌, ◌≤◌, ◌<◌, ◌+◌, ◌*◌, refl, codes, arith,
}
use mathlib.Core.List.{Memᴰ}
use gluk_vpn.Server.Store
use gluk_vpn.Server.Store.{Session}
use gluk_vpn.Server.Entitlements.{
  Subscription, beta_badge, plan_badge, plan_shape, plan_matrix, free_plan, quota_period,
  quota_period_ms, chain_start, walk_back, day_ms,
}
use gluk_vpn.Server.Entitlements.Window.{quota_period_lem}
use gluk_vpn.Server.Quota.{QuotaStatus, users_over_quota}
use gluk_vpn.Server.Quota.Enforced.{users_over_quota_lem}
use gluk_vpn.Server.Promo.{PromoCode, Promos, redeem_promo}
use gluk_vpn.Server.Promo.Redeemed.{IsCounted, redeem_promo-IsCounted}

beta_is_known : plan_badge (codes " Beta_Pro") ≡ beta_badge
unfolding plan_badge
beta_is_known = refl

unknown_is_free : (plan_shape (codes "gold")).tier ≡ 0
unfolding plan_shape plan_matrix free_plan
unknown_is_free = refl

quota_period_lem_example :
    ((quota_period 100 (quota_period_ms + 200)).start ≤ quota_period_ms + 200)
    × (quota_period_ms + 200 < (quota_period 100 (quota_period_ms + 200)).end)
    × ((quota_period 100 (quota_period_ms + 200)).end
        ≡ (quota_period 100 (quota_period_ms + 200)).start + quota_period_ms)
    × ((k : ℕ)
        → 100 + k * quota_period_ms ≤ quota_period_ms + 200
        → quota_period_ms + 200 < 100 + k * quota_period_ms + quota_period_ms
        → k ≡ (quota_period 100 (quota_period_ms + 200)).index)
quota_period_lem_example = quota_period_lem 100 (quota_period_ms + 200) (omega arith)

abbrev pro : ℕ → ℕ → Subscription
pro created expires = record {
  user = 1;
  active = true;
  plan = codes "pro";
  tier = 2;
  created_at = created;
  expires_at = expires;
}

abbrev rows : List Subscription
rows = pro 1000 (30 * day_ms) ∷ pro (29 * day_ms) (60 * day_ms) ∷ []

renewed : chain_start rows 1 (codes "pro") (29 * day_ms) ≡ 1000
unfolding chain_start walk_back
renewed = refl

abbrev status : ℕ → QuotaStatus
status u = record {
  period = record { index = 0; start = 0; end = 900; anchor = 0 };
  used_bytes = 50;
  limit_bytes = some 50;
  remaining_bytes = some 0;
  exceeded = true;
}

abbrev session : Session
session = record {
  user = 4;
  device = 0;
  node = 1;
  ip = 7;
  status = Store.active;
  connected_at = 0;
  disconnected_at = none;
  close_reason = none;
}

users_over_quota_lem_example :
    Memᴰ
      (record { user = 4; used = 50; limit = 50; reset_at = 900 })
      (users_over_quota status (session ∷ []))
users_over_quota_lem_example =
    users_over_quota_lem status (session ∷ []) session 50 (Memᴰ.head refl) refl refl refl

abbrev quarter : PromoCode
quarter = record {
  id = 3;
  code = codes "TIKTOK";
  percent_off = 25;
  active = true;
  starts_at = none;
  ends_at = some 900;
  max_redemptions = some 2;
  per_user_limit = 1;
  plan_codes = [];
  redeemed_count = 0;
}

abbrev promos : Promos
promos = record { codes = quarter ∷ []; redemptions = [] }

redeem_promo-IsCounted_example :
    IsCounted (redeem_promo (codes "tiktok") 1 9 7500 promos).0
    × ((redeem_promo (codes "tiktok") 1 9 7500 promos).1 ≡ true
        → redeem_promo (codes "other") 2 9 5 (redeem_promo (codes "tiktok") 1 9 7500 promos).0
          ≡ ((redeem_promo (codes "tiktok") 1 9 7500 promos).0, false))
redeem_promo-IsCounted_example =
    redeem_promo-IsCounted (codes "tiktok") (codes "other") 1 2 9 7500 5 promos (refl, tt)
