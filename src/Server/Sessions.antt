-- ===== src/Server/Sessions.antt =====
-- Closing sessions: `closeSession` and the functions that call it for a device, a user or a node
-- (control-server/src/services/sessions.ts), `closeSessionsInTransaction` and the maintenance
-- switches (services/serviceControl.ts), the checks of the monitor (services/monitor.ts), and
-- `connectSession`. A function runs here without another handler between its statements.
use gluk_vpn.Common.{
  ℕ, suc, Bool, true, false, not, ◌&&◌, Option, none, some, List, [], ◌∷◌, map, leb, ltb, ◌==◌,
  if◌then◌else◌, any, count, get_elem?, set,
}
use Prim.Native.Nat.{max}
use gluk_vpn.Server.Store
use gluk_vpn.Server.Store.{
  SessionStatus, is_live_status, CloseReason, reconnect, Device, User, VpnNode, Session, IpLease,
  CommandType, add_peer, remove_peer, CommandStatus, undone, NodeCommand, Db, Refusal, Result, ok,
  err, ◌>>=◌, refuse_if, or_refuse, account_refused, device_is_revoked, quota_spent,
  too_many_sessions, node_full, no_address, session_was_closed,
}
use gluk_vpn.Server.Nodes.{pick_node}
use gluk_vpn.Server.Admission.{
  is_account_active, Plan, live_of_user, live_of_device, live_of_node, require_vpn_available,
  effective_session_limit, create_session, ensure_ip_pool,
}
use gluk_vpn.Server.Commands.{free_if, same_type, is_queued, enqueue_command, has_open_command}

abbrev pub close_row : ℕ → CloseReason → Session → Session
close_row now reason s = record s {
  status = Store.closed;
  disconnected_at = some now;
  close_reason = some reason;
}

-- `closeSession`
unfoldable pub close_session : ℕ → CloseReason → ℕ → Db → Db
unfolding has_open_command enqueue_command
close_session now reason i db = elim (get_elem? db.sessions i) [
  | none ↦ db
  | some s ↦
      if is_live_status s.status
      then record db {
        sessions = set db.sessions i (close_row now reason s);
        commands =
            if has_open_command s.node i remove_peer db.commands
            then db.commands
            else enqueue_command s.node i remove_peer db.commands;
      }
      else db
]

unfoldable pub close_each : ℕ → CloseReason → List ℕ → Db → Db
unfolding close_session
close_each now reason [] db = db
close_each now reason (i ∷ is) db = close_each now reason is (close_session now reason i db)

-- The ids from `i` on of the rows that a query selects.
unfoldable pub ids_where : (Session → Bool) → ℕ → List Session → List ℕ
ids_where p i [] = []
ids_where p i (s ∷ ss) = let rest = ids_where p (suc i) ss in if p s then i ∷ rest else rest

unfoldable pub close_sessions_for_device : ℕ → CloseReason → ℕ → Db → Db
unfolding close_each ids_where
close_sessions_for_device now reason d db =
    close_each now reason (ids_where (live_of_device d) 0 db.sessions) db

unfoldable pub close_sessions_for_user : ℕ → CloseReason → ℕ → Db → Db
unfolding close_each ids_where
close_sessions_for_user now reason u db =
    close_each now reason (ids_where (live_of_user u) 0 db.sessions) db

unfoldable pub close_sessions_for_node : ℕ → CloseReason → ℕ → Db → Db
unfolding close_each ids_where
close_sessions_for_node now reason n db =
    close_each now reason (ids_where (live_of_node n) 0 db.sessions) db

-- `closeSessionsInTransaction`: the rows, the setup commands that wait, the removals.
abbrev pub is_selected : List ℕ → ℕ → Bool
is_selected is i = any (λ j. j == i) is

unfoldable pub close_rows : ℕ → CloseReason → (Session → Bool) → List Session → List Session
close_rows now reason p ss =
    map (λ (s : Session). if p s && is_live_status s.status then close_row now reason s else s) ss

unfoldable pub cancel_adds : List ℕ → List NodeCommand → List NodeCommand
cancel_adds is cs = map step cs
  where
    step : NodeCommand → NodeCommand
    step c =
        if is_selected is c.session && (same_type c.type_of add_peer && is_queued c.status)
        then record c { status = undone }
        else c

unfoldable pub enqueue_removals : List Session → List ℕ → List NodeCommand → List NodeCommand
unfolding enqueue_command
enqueue_removals ss [] cs = cs
enqueue_removals ss (i ∷ is) cs = elim (get_elem? ss i) [
  | none ↦ enqueue_removals ss is cs
  | some s ↦ enqueue_removals ss is (enqueue_command s.node i remove_peer cs)
]

unfoldable pub close_in_transaction : ℕ → CloseReason → (Session → Bool) → Db → Db
unfolding close_rows cancel_adds enqueue_removals ids_where
close_in_transaction now reason scope db =
    let is = ids_where (λ s. scope s && is_live_status s.status) 0 db.sessions in
    record db {
      sessions = close_rows now reason scope db.sessions;
      commands = enqueue_removals db.sessions is (cancel_adds is db.commands);
    }

-- `updateServiceSettings`, the part on maintenance.
unfoldable pub set_service_maintenance : ℕ → Bool → Db → Db
unfolding close_in_transaction
set_service_maintenance now enabled db =
    let db' = record db { service_maintenance = enabled } in
    if enabled then close_in_transaction now Store.maintenance_reason (λ s. true) db' else db'

-- `updateNodeMaintenance`
unfoldable pub set_node_maintenance : ℕ → ℕ → Bool → Db → Db
unfolding close_in_transaction
set_node_maintenance now node enabled db =
    let db' = record db {
      nodes =
          map (λ (n : VpnNode). if n.id == node then record n { maintenance = enabled } else n)
            db.nodes;
    } in
    if enabled
    then close_in_transaction now Store.maintenance_reason (λ s. s.node == node) db'
    else db'

-- The monitor's reclaiming of addresses from sessions that were over before `cutoff`.
abbrev pub is_over_before : ℕ → Option Session → Bool
is_over_before cutoff none = false
is_over_before cutoff (some s) =
    not (is_live_status s.status)
    && (elim s.disconnected_at [ none ↦ false | some t ↦ ltb t cutoff ])

unfoldable pub reclaim_leases : ℕ → Db → Db
reclaim_leases cutoff db = record db {
  leases = map (free_if (λ i. is_over_before cutoff (get_elem? db.sessions i))) db.leases;
}

-- What `connectSession` knows of the quota.
pub record Quota : Type 0 where
  pub exceeded : Bool
  pub capped : Bool

module _ (now user device : ℕ) (plan : Plan) where
  -- The checks before anything is written.
  unfoldable pub connect_checks : Quota → Db → Result User
  unfolding require_vpn_available
  connect_checks quota db = require_vpn_available db none >>= λ _.
      or_refuse (get_elem? db.users user) account_refused >>= λ u.
      refuse_if (not (is_account_active u.status)) account_refused >>= λ _.
      or_refuse (get_elem? db.devices device) device_is_revoked >>= λ d.
      refuse_if (not d.active) device_is_revoked >>= λ _.
      refuse_if (quota.exceeded && quota.capped) quota_spent >>= λ _. ok u

  -- The node, once the device's sessions are closed.
  unfoldable pub connect_node : ℕ → Option ℕ → User → Db → Result VpnNode
  unfolding pick_node effective_session_limit
  connect_node window wanted u db =
      refuse_if
        (leb (max (effective_session_limit u) plan.max_sessions)
          (count (live_of_user user) db.sessions))
        too_many_sessions
      >>= λ _. pick_node window now wanted plan.tier db.nodes >>= λ n.
          refuse_if (leb n.capacity (count (live_of_node n.id) db.sessions)) node_full >>= λ _. ok n

  abbrev pub committed : Db → Result (Db × ℕ) → Db × Result ℕ
  committed before (err r) = (before, err r)
  committed before (ok (after, s)) = (after, ok s)

  unfoldable pub connect_to : ℕ → ℕ → VpnNode → Db → Db × Result ℕ
  unfolding ensure_ip_pool create_session
  connect_to window version n db = elim (ensure_ip_pool n db.leases) [
    | err r ↦ (db, err r)
    | ok ls ↦
        committed (record db { leases = ls })
          (create_session window now 2 user device version n.id plan (record db { leases = ls }))
  ]

  -- `connectSession` up to the row of the new session; `version` is the token version of the
  -- device that the request was authorised with.
  unfoldable pub connect_session : ℕ → ℕ → Option ℕ → Quota → Db → Db × Result ℕ
  unfolding connect_checks connect_node connect_to close_sessions_for_device
  connect_session window version wanted quota db = elim (connect_checks quota db) [
    | err r ↦ (db, err r)
    | ok u ↦
        let db' = close_sessions_for_device now reconnect device db in
        elim (connect_node window wanted u db') [
          | err r ↦ (db', err r)
          | ok n ↦ connect_to window version n db'
        ]
  ]
