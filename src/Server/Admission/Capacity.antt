-- ===== src/Server/Admission/Capacity.antt =====
-- The limits that a new session keeps.
use Prim.Native.Nat.{max}
use gluk_vpn.Common.{
  ℕ, Bool, true, false, some, [], ◌∷◌, ◌++◌, ◌≤◌, ◌≡◌, refl, ap, ◌∙◌, arith, ==_iff, count,
  count-append, get_elem?,
}
use gluk_vpn.Server.Store.{User, VpnNode, Session, Db, ok}
use gluk_vpn.Server.Nodes.{is_node_connectable}
use gluk_vpn.Server.Admission.{
  Plan, live_of_user, live_of_device, live_of_node, effective_session_limit, session_of,
  create_session,
}
use gluk_vpn.Server.Admission.Opened.{create_session-IsOpened}

one_row : (p : Session → Bool) (s : Session) → count p (s ∷ []) ≤ 1
one_row p s = ground arith

counted : (p : Session → Bool) (s : Session) → p s ≡ true → count p (s ∷ []) ≡ 1
counted p s e = ground arith

-- A transaction that commits leaves the user within the larger of the limits of the account and of
-- the plan, the node within its capacity, and the device with the new session only; the node was
-- fit for clients, in service and within the plan, and the service in no maintenance.
pub create_session-within_limits :
    (window now retries user device version node : ℕ) (plan : Plan) (db db' : Db) (s : ℕ)
    → create_session window now retries user device version node plan db ≡ ok (db', s)
    → (u : User) × (n : VpnNode) × (get_elem? db.users user ≡ some u)
      × (count (live_of_user user) db'.sessions ≤ max (effective_session_limit u) plan.max_sessions)
      × (count (live_of_node node) db'.sessions ≤ n.capacity)
      × (count (live_of_device device) db'.sessions ≡ 1)
      × (is_node_connectable window now n ≡ true)
      × (n.tier ≤ plan.tier)
      × (n.maintenance ≡ false)
      × (db'.service_maintenance ≡ false)
create_session-within_limits window now retries user device version node plan db db' s e =
    let o = create_session-IsOpened window now retries user device version node plan db db' s e in
    let a = o.admitted in
    let fresh = session_of now user device node o.lease.ip in
    let rows : db'.sessions ≡ db.sessions ++ fresh ∷ [] = ap (λ (x : Db). x.sessions) o.tables in
    let u1 =
      ap (count (live_of_user user)) rows
      ∙ count-append (live_of_user user) db.sessions (fresh ∷ []) in
    let n1 =
      ap (count (live_of_node node)) rows
      ∙ count-append (live_of_node node) db.sessions (fresh ∷ []) in
    let d1 =
      ap (count (live_of_device device)) rows
      ∙ count-append (live_of_device device) db.sessions (fresh ∷ []) in
    let of_device : live_of_device device fresh ≡ true = rw ((==_iff device device).1 refl) refl in
    (
      a.account,
      o.vpn_node,
      a.of_user,
      omega (arith, u1, one_row (live_of_user user) fresh, a.room_of_user),
      omega (arith, n1, one_row (live_of_node node) fresh, a.room_of_node),
      omega (arith, d1, counted (live_of_device device) fresh of_device, a.device_is_free),
      a.connectable,
      a.within_plan,
      a.node_in_service,
      ap (λ (x : Db). x.service_maintenance) o.tables ∙ a.in_service,
    )
