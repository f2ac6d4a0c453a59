-- ===== src/Server/Quota.antt =====
-- How much of a plan's traffic is left, and whose tunnels are cut for it:
-- control-server/src/services/quota.ts. Counts of bytes are whole numbers.
pub mod Enforced
use Prim.Native.Nat.{min, max}
use gluk_vpn.Common.{
  ℕ, zero, suc, Bool, true, false, not, ◌&&◌, Option, none, some, List, [], ◌∷◌, ◌++◌, ◌+◌, ◌-◌,
  leb, ltb, ◌==◌, if◌then◌else◌, any,
}
use gluk_vpn.Server.Store.{is_live_status, Session}
use gluk_vpn.Server.Entitlements.{QuotaPeriod, Entitlement}

-- `TrafficUsageBucket`
pub record Bucket : Type 0 where
  pub user : ℕ
  pub start : ℕ
  pub upload : ℕ
  pub download : ℕ

-- `usedBytesInPeriod`
unfoldable pub used_bytes_in_period : ℕ → QuotaPeriod → List Bucket → ℕ
used_bytes_in_period user p [] = 0
used_bytes_in_period user p (b ∷ bs) =
    let rest = used_bytes_in_period user p bs in
    if b.user == user && (leb p.start b.start && ltb b.start p.end)
    then b.upload + b.download + rest
    else rest

pub record QuotaStatus : Type 0 where
  pub period : QuotaPeriod
  pub used_bytes : ℕ
  pub limit_bytes : Option ℕ
  pub remaining_bytes : Option ℕ
  pub exceeded : Bool

-- `quotaStatusFor`, without the fraction for the progress bar.
unfoldable pub quota_status_for : ℕ → Entitlement → List Bucket → QuotaStatus
unfolding used_bytes_in_period
quota_status_for user ent buckets = record {
  period = ent.period;
  used_bytes = used;
  limit_bytes = ent.traffic_limit_bytes;
  remaining_bytes = elim ent.traffic_limit_bytes [ none ↦ none | some limit ↦ some (limit - used) ];
  exceeded = elim ent.traffic_limit_bytes [ none ↦ false | some limit ↦ leb limit used ];
}
  where
    used : ℕ
    used = used_bytes_in_period user ent.period buckets

pub record OverQuota : Type 0 where
  pub user : ℕ
  pub used : ℕ
  pub limit : ℕ
  pub reset_at : ℕ

-- `distinct: ["userId"]` over the live sessions.
unfoldable pub live_users : List ℕ → List Session → List ℕ
live_users seen [] = []
live_users seen (s ∷ ss) =
    let fresh = live_users (s.user ∷ seen) ss in
    let rest = live_users seen ss in
    if is_live_status s.status && not (any (λ u. u == s.user) seen) then s.user ∷ fresh else rest

abbrev over_row : ℕ → QuotaStatus → Option ℕ → Option OverQuota
over_row user q none = none
over_row user q (some limit) =
    if q.exceeded
    then some (record { user = user; used = q.used_bytes; limit = limit; reset_at = q.period.end })
    else none

abbrev cons_if : Option OverQuota → List OverQuota → List OverQuota
cons_if none rows = rows
cons_if (some r) rows = r ∷ rows

-- The loop of `usersOverQuota`; `status` is `quotaStatus` at that moment.
unfoldable pub over_rows : (ℕ → QuotaStatus) → List ℕ → List OverQuota
over_rows status [] = []
over_rows status (u ∷ us) =
    cons_if (over_row u (status u) (status u).limit_bytes) (over_rows status us)

unfoldable pub users_over_quota : (ℕ → QuotaStatus) → List Session → List OverQuota
unfolding live_users over_rows
users_over_quota status sessions = over_rows status (live_users [] sessions)
