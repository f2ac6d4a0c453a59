-- ===== src/Server/Admission/Gate.antt =====
-- What the checks of `createSessionWithLease` let through.
use Prim.Native.Nat.{max}
use gluk_vpn.Common.{
  ℕ, true, false, not, ◌||◌, some, ◌≡◌, ◌<◌, ◌≤◌, subst, arith, leb, ltb, ◌==◌, count, get_elem?,
}
use gluk_vpn.Server.Store.{
  User, Device, VpnNode, Db, ok, refuse_if, under_maintenance, account_refused, device_is_revoked,
  node_unavailable, node_needs_plan, too_many_sessions, device_busy, node_full,
}
use gluk_vpn.Server.Results.{found-ok, bind-ok, checked-ok, refuse_if-ok}
use gluk_vpn.Server.Nodes.{is_node_connectable, find_node}
use gluk_vpn.Server.Admission.{
  Plan, is_account_active, live_of_user, live_of_device, live_of_node, effective_session_limit,
  require_vpn_available, gate,
}

pub record IsAdmitted (window now user device version node : ℕ) (plan : Plan) (db : Db)
    (n : VpnNode) : Type 0 where
  pub account : User
  pub of_user : get_elem? db.users user ≡ some account
  pub active : is_account_active account.status ≡ true
  pub row : Device
  pub of_device : get_elem? db.devices device ≡ some row
  pub not_revoked : row.active ≡ true
  pub same_version : row.token_version ≡ version
  pub of_node : find_node node db.nodes ≡ some n
  pub within_plan : n.tier ≤ plan.tier
  pub in_service : db.service_maintenance ≡ false
  pub node_in_service : n.maintenance ≡ false
  pub connectable : is_node_connectable window now n ≡ true
  pub room_of_user :
      count (live_of_user user) db.sessions
      < max (effective_session_limit account) plan.max_sessions
  pub device_is_free : count (live_of_device device) db.sessions ≡ 0
  pub room_of_node : count (live_of_node node) db.sessions < n.capacity

available-ok :
    (db : Db) (n : VpnNode) {u : Unit}
    → require_vpn_available db (some n) ≡ ok u
    → (db.service_maintenance ≡ false) × (n.maintenance ≡ false)
unfolding require_vpn_available
available-ok db n e =
    let (a, f) =
      checked-ok db.service_maintenance under_maintenance
        (λ _. refuse_if n.maintenance under_maintenance) e in
    (a, refuse_if-ok n.maintenance under_maintenance f)

pub gate_lem :
    (window now user device version node : ℕ) (plan : Plan) (db : Db) (n : VpnNode)
    → gate window now user device version node plan db ≡ ok n
    → IsAdmitted window now user device version node plan db n
unfolding gate
gate_lem window now user device version node plan db n e =
    let (u, of_user, e1) = found-ok (get_elem? db.users user) account_refused _ e in
    let (active, e2) = checked-ok (not (is_account_active u.status)) account_refused _ e1 in
    let (d, of_device, e3) = found-ok (get_elem? db.devices device) device_is_revoked _ e2 in
    let (row, e4) =
      checked-ok (not d.active || not (d.token_version == version)) device_is_revoked _ e3 in
    let (m, of_node, e5) = found-ok (find_node node db.nodes) node_unavailable _ e4 in
    let (tier, e6) = checked-ok (ltb plan.tier m.tier) node_needs_plan _ e5 in
    let (u', available, e7) = bind-ok (require_vpn_available db (some m)) _ e6 in
    let (connectable, e8) =
      checked-ok (not (is_node_connectable window now m)) node_unavailable _ e7 in
    let (of_limit, e9) =
      checked-ok
        (leb (max (effective_session_limit u) plan.max_sessions)
          (count (live_of_user user) db.sessions))
        too_many_sessions _ e8 in
    let (free, e10) =
      checked-ok (ltb 0 (count (live_of_device device) db.sessions)) device_busy _ e9 in
    let (room, e11) =
      checked-ok (leb m.capacity (count (live_of_node node) db.sessions)) node_full _ e10 in
    let same : m ≡ n = cc in
    let (s, t) = available-ok db m available in
    subst (IsAdmitted window now user device version node plan db) same (record {
      account = u;
      of_user = of_user;
      active = ground arith;
      row = d;
      of_device = of_device;
      not_revoked = ground arith;
      same_version = ground (arith, row);
      of_node = of_node;
      within_plan = ground (arith, tier);
      in_service = s;
      node_in_service = t;
      connectable = ground arith;
      room_of_user = ground (arith, of_limit);
      device_is_free = ground (arith, free);
      room_of_node = ground (arith, room);
    })
