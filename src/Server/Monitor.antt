-- ===== src/Server/Monitor.antt =====
-- Closing sessions that must not stay open: step 3 of the monitor's tick
-- (control-server/src/services/monitor.ts).
pub mod Closed
use gluk_vpn.Common.{
  ℕ, Bool, true, false, not, ◌&&◌, ◌||◌, Option, none, some, List, [], ◌∷◌, ltb, ◌==◌,
  if◌then◌else◌, any, get_elem?,
}
use gluk_vpn.Server.Store
use gluk_vpn.Server.Store.{
  User, Device, VpnNode, Session, CloseReason, Db, is_live_status, maintenance_reason,
  device_revoked, subscription_expired, traffic_limit, node_disabled, node_offline,
}
use gluk_vpn.Server.Nodes.{find_node}
use gluk_vpn.Server.Admission.{is_account_active, account_close_reason}
use gluk_vpn.Server.Sessions.{close_session, ids_where}

-- What the tick reads of subscriptions, quotas and the clock.
pub record Tick : Type 0 where
  pub subscribed : ℕ → Bool
  pub over_quota : List ℕ
  pub hard_cutoff : ℕ

abbrev pub is_silent : ℕ → Option ℕ → Bool
is_silent cutoff none = true
is_silent cutoff (some t) = ltb t cutoff

-- The first reason that applies.
unfoldable pub monitor_reason : Tick → Bool → ℕ → User → Device → VpnNode → Option CloseReason
unfolding account_close_reason
monitor_reason t in_maintenance user u d n =
    if in_maintenance || n.maintenance
    then some maintenance_reason
    else if not (is_account_active u.status)
    then some (account_close_reason u.status)
    else if not d.active
    then some device_revoked
    else if not (t.subscribed user) && ltb 0 n.tier
    then some subscription_expired
    else if any (λ o. o == user) t.over_quota
    then some traffic_limit
    else if n.disabled
    then some node_disabled
    else if is_silent t.hard_cutoff n.last_heartbeat
    then some node_offline
    else none

-- The reason for a session, with the rows that it refers to.
unfoldable pub reason_of : Tick → Db → Session → Option CloseReason
unfolding monitor_reason find_node
reason_of t db s = elim (get_elem? db.users s.user) [
  | none ↦ none
  | some u ↦ elim (get_elem? db.devices s.device) [
    | none ↦ none
    | some d ↦ elim (find_node s.node db.nodes) [
      | none ↦ none
      | some n ↦ monitor_reason t db.service_maintenance s.user u d n
    ]
  ]
]

-- The reason for the session at a position of the rows that were read at first.
abbrev pub reason_at : Tick → Db → ℕ → Option CloseReason
reason_at t db i = elim (get_elem? db.sessions i) [ none ↦ none | some s ↦ reason_of t db s ]

abbrev pub close_if : ℕ → Option CloseReason → ℕ → Db → Db
close_if now none i db = db
close_if now (some r) i db = close_session now r i db

-- The loop over the live sessions; `before` are the tables as they were read.
unfoldable pub monitor_close : ℕ → Tick → Db → List ℕ → Db → Db
unfolding reason_of close_session
monitor_close now t before [] db = db
monitor_close now t before (i ∷ is) db =
    monitor_close now t before is (close_if now (reason_at t before i) i db)

unfoldable pub monitor_tick : ℕ → Tick → Db → Db
unfolding monitor_close ids_where
monitor_tick now t db =
    monitor_close now t db (ids_where (λ s. is_live_status s.status) 0 db.sessions) db
