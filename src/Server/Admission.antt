-- ===== src/Server/Admission.antt =====
-- Opening a session: `createSessionWithLease` and `connectSession` of
-- control-server/src/services/sessions.ts, with lib/sessionLimit.ts and lib/accountState.ts. A
-- transaction either commits the tables that it returns or leaves them as they were.
pub mod Gate
pub mod Opened
pub mod Capacity
use Prim.Native.Nat.{min, max}
use gluk_vpn.Common.{
  Text, ℕ, zero, suc, Bool, true, false, not, ◌&&◌, ◌||◌, Option, none, some, List, [], ◌∷◌, ◌++◌,
  ◌+◌, leb, ltb, ◌==◌, if◌then◌else◌, count, get_elem?, set, length,
}
use gluk_vpn.Server.Ip.{int_to_ip, parse_cidr, usable_host_ips}
use gluk_vpn.Server.Store
use gluk_vpn.Server.Store.{
  AccountStatus, account_active, User, Device, VpnNode, is_live_status, CloseReason, user_disabled,
  user_blocked, user_deleted, Session, IpLease, add_peer, queued, NodeCommand, Db, Refusal,
  under_maintenance, node_needs_plan, node_unavailable, account_refused, device_is_revoked,
  quota_spent, too_many_sessions, device_busy, node_full, bad_subnet, no_address, address_taken,
  Result, ok, err, ◌>>=◌, refuse_if, or_refuse,
}
use gluk_vpn.Server.Nodes.{is_node_connectable, find_node, pick_node}

abbrev pub session_limit_ceiling : ℕ
session_limit_ceiling = 20

-- `effectiveSessionLimit`; the column is an integer, so it is finite.
unfoldable pub effective_session_limit : User → ℕ
effective_session_limit u = max 1 (min u.max_sessions session_limit_ceiling)

abbrev pub is_account_active : AccountStatus → Bool
is_account_active account_active = true
is_account_active _ = false

-- `accountSessionCloseReason`
unfoldable pub account_close_reason : AccountStatus → CloseReason
account_close_reason Store.account_blocked = user_blocked
account_close_reason Store.account_deleted = user_deleted
account_close_reason _ = user_disabled

-- The entitlement that the caller resolved.
pub record Plan : Type 0 where
  pub tier : ℕ
  pub max_sessions : ℕ

abbrev pub live_of_user : ℕ → Session → Bool
live_of_user u s = s.user == u && is_live_status s.status

abbrev pub live_of_device : ℕ → Session → Bool
live_of_device d s = s.device == d && is_live_status s.status

abbrev pub live_of_node : ℕ → Session → Bool
live_of_node n s = s.node == n && is_live_status s.status

-- `requireVpnAvailable`
unfoldable pub require_vpn_available : Db → Option VpnNode → Result Unit
require_vpn_available db none = refuse_if db.service_maintenance under_maintenance
require_vpn_available db (some n) = refuse_if db.service_maintenance under_maintenance >>= λ _.
    refuse_if n.maintenance under_maintenance

abbrev pub is_free_on : ℕ → IpLease → Bool
is_free_on n l = l.node == n && (elim l.session [ none ↦ true | some s ↦ false ])

unfoldable pub pool_of : ℕ → List ℕ → List IpLease
pool_of node [] = []
pool_of node (ip ∷ ips) = record { node = node; ip = ip; session = none } ∷ pool_of node ips

unfoldable pub new_pool : ℕ → List ℕ → List IpLease → Result (List IpLease)
unfolding pool_of
new_pool node [] ls = err no_address
new_pool node (ip ∷ ips) ls = ok (ls ++ pool_of node (ip ∷ ips))

-- `ensureIpPool`: the rows of a node's pool, made the first time it is used.
unfoldable pub ensure_ip_pool : VpnNode → List IpLease → Result (List IpLease)
unfolding new_pool
ensure_ip_pool n ls =
    if ltb 0 (count (λ (l : IpLease). l.node == n.id) ls)
    then ok ls
    else (or_refuse (parse_cidr n.subnet) bad_subnet >>= λ c.
        new_pool n.id (usable_host_ips c 1) ls)

-- The order of texts by their code points.
abbrev pub text_before : Text → Text → Bool
text_before [] [] = false
text_before [] (d ∷ ds) = true
text_before (c ∷ cs) [] = false
text_before (c ∷ cs) (d ∷ ds) = ltb c d || (c == d && text_before cs ds)

abbrev pub one_further : Option (ℕ × ℕ) → Option (ℕ × ℕ)
one_further none = none
one_further (some (i, ip)) = some (suc i, ip)

-- The free row that comes first by the text of its address, with that address.
abbrev pub sooner : ℕ → Option (ℕ × ℕ) → Option (ℕ × ℕ)
sooner ip none = some (0, ip)
sooner ip (some (i, other)) =
    if text_before (int_to_ip other) (int_to_ip ip) then some (suc i, other) else some (0, ip)

unfoldable pub first_free : ℕ → List IpLease → Option (ℕ × ℕ)
first_free n [] = none
first_free n (l ∷ ls) =
    let rest = first_free n ls in if is_free_on n l then sooner l.ip rest else one_further rest

-- `ipLease.findFirst({ orderBy: { ip: "asc" } })`; an address is stored as a text.
unfoldable pub free_lease : ℕ → List IpLease → Option ℕ
unfolding first_free
free_lease n ls = elim (first_free n ls) [ none ↦ none | some (i, ip) ↦ some i ]

-- The `updateMany` that claims a lease, and how many rows it changed.
unfoldable pub claim_lease : ℕ → ℕ → List IpLease → List IpLease × ℕ
claim_lease i s ls = elim (get_elem? ls i) [
  | none ↦ (ls, 0)
  | some l ↦ elim l.session [
    | none ↦ (set ls i (record l { session = some s }), 1)
    | some other ↦ (ls, 0)
  ]
]

abbrev pub session_of : ℕ → ℕ → ℕ → ℕ → ℕ → Session
session_of now user device node ip = record {
  user = user;
  device = device;
  node = node;
  ip = ip;
  status = Store.pending;
  connected_at = now;
  disconnected_at = none;
  close_reason = none;
}

abbrev pub command_of : ℕ → ℕ → NodeCommand
command_of node session = record {
  node = node;
  session = session;
  type_of = add_peer;
  status = queued;
  delivered_at = 0;
  attempts = 0;
}

module _ (window now : ℕ) where
  -- The checks of the transaction, on the rows it reads under its locks.
  unfoldable pub gate : ℕ → ℕ → ℕ → ℕ → Plan → Db → Result VpnNode
  unfolding require_vpn_available is_node_connectable effective_session_limit find_node
  gate user device version node plan db =
      or_refuse (get_elem? db.users user) account_refused >>= λ u.
      refuse_if (not (is_account_active u.status)) account_refused >>= λ _.
      or_refuse (get_elem? db.devices device) device_is_revoked >>= λ d.
      refuse_if (not d.active || not (d.token_version == version)) device_is_revoked >>= λ _.
      or_refuse (find_node node db.nodes) node_unavailable >>= λ n.
      refuse_if (ltb plan.tier n.tier) node_needs_plan >>= λ _.
      require_vpn_available db (some n) >>= λ _.
      refuse_if (not (is_node_connectable window now n)) node_unavailable >>= λ _.
      refuse_if
        (leb (max (effective_session_limit u) plan.max_sessions)
          (count (live_of_user user) db.sessions))
        too_many_sessions
      >>= λ _. refuse_if (ltb 0 (count (live_of_device device) db.sessions)) device_busy >>= λ _.
          refuse_if (leb n.capacity (count (live_of_node node) db.sessions)) node_full >>= λ _. ok n

  -- What the transaction writes once a free lease is found.
  unfoldable pub open_session : ℕ → ℕ → ℕ → ℕ → Db → Result (Db × ℕ)
  unfolding claim_lease
  open_session user device node i db =
      let s = length db.sessions in
      or_refuse (get_elem? db.leases i) no_address >>= λ l.
      let claimed = claim_lease i s db.leases in
      refuse_if (not (claimed.1 == 1)) address_taken >>= λ _. ok (
        record db {
          sessions = db.sessions ++ session_of now user device node l.ip ∷ [];
          leases = claimed.0;
          commands = db.commands ++ command_of node s ∷ [];
        },
        s,
      )

  -- One attempt of `createSessionWithLease`.
  unfoldable pub create_session_once : ℕ → ℕ → ℕ → ℕ → Plan → Db → Result (Db × ℕ)
  unfolding gate free_lease open_session
  create_session_once user device version node plan db =
      gate user device version node plan db >>= λ n.
      or_refuse (free_lease node db.leases) no_address >>= λ i. open_session user device node i db

  abbrev is_race : Result (Db × ℕ) → Bool
  is_race (err address_taken) = true
  is_race _ = false

  -- `createSessionWithLease`: a lost race is tried again, two times at most.
  unfoldable pub create_session : ℕ → ℕ → ℕ → ℕ → ℕ → Plan → Db → Result (Db × ℕ)
  unfolding create_session_once
  create_session zero user device version node plan db =
      create_session_once user device version node plan db
  create_session (suc retries) user device version node plan db =
      let again = create_session retries user device version node plan db in
      let first = create_session_once user device version node plan db in
      if is_race first then again else first
