-- ===== src/Server/Tests/Lives.antt =====
-- Sessions, addresses and commands at concrete inputs.
use Prim.Native.Nat.{max}
use gluk_vpn.Common.{
  ℕ, true, false, none, some, [], ◌∷◌, ◌≡◌, ◌≢◌, ◌≤◌, refl, count, get_elem?, All, codes,
}
use gluk_vpn.Server.Ip.{
  int_to_ip, show_octet, ip_to_int, read_parts, read_octet, parse_cidr, usable_host_ips,
  addresses_from,
}
use gluk_vpn.Server.Store
use gluk_vpn.Server.Store.{
  User, Device, VpnNode, Session, IpLease, NodeCommand, Db, add_peer, done, ok, account_active,
}
use gluk_vpn.Server.Nodes.{
  is_heartbeat_fresh, effective_node_status, is_node_connectable, find_node, by_peers, is_candidate,
  pick_wanted, pick_least_loaded, pick_node,
}
use gluk_vpn.Server.Admission.{
  Plan, live_of_user, live_of_device, live_of_node, effective_session_limit, require_vpn_available,
  pool_of, new_pool, ensure_ip_pool, first_free, free_lease, claim_lease, gate, open_session,
  create_session_once, create_session,
}
use gluk_vpn.Server.Admission.Capacity.{create_session-within_limits}
use gluk_vpn.Server.Commands.{ack}
use gluk_vpn.Server.Sessions.{
  Quota, close_session, close_each, ids_where, close_sessions_for_device, connect_checks,
  connect_node, connect_to, connect_session,
}
use gluk_vpn.Server.Monitor.{Tick, monitor_reason, reason_of, monitor_close, monitor_tick}
use gluk_vpn.Server.Monitor.Closed.{IsAllowed, monitor_tick-live}
use gluk_vpn.Server.Lifecycle.{connect, Reach, here, next, start}
use gluk_vpn.Server.Lifecycle.Sound.{IsSound}
use gluk_vpn.Server.Lifecycle.Reachable.{Reach-IsSound, addresses_apart}
use gluk_vpn.Server.Lifecycle.Repeated.{ack-frees_active}

abbrev someone : User
someone = record { status = account_active; max_sessions = 5 }

abbrev phone : Device
phone = record { active = true; token_version = 1 }

abbrev frankfurt : VpnNode
frankfurt = record {
  id = 4;
  disabled = false;
  maintenance = false;
  tier = 0;
  has_key = true;
  last_heartbeat = some 1000;
  active_peers = 0;
  capacity = 9;
  subnet = codes "10.0.0.0/29";
}

abbrev plan : Plan
plan = record { tier = 0; max_sessions = 1 }

abbrev quota : Quota
quota = record { exceeded = false; capped = true }

abbrev empty : Db
empty = start (someone ∷ []) (phone ∷ phone ∷ []) (frankfurt ∷ [])

-- Both devices of the user connect.
abbrev one : Db
one = (connect_session 1200 0 0 plan 60000 1 none quota empty).0

abbrev two : Db
two = (connect_session 1200 0 1 plan 60000 1 none quota one).0

reached : Reach 60000 empty two
reached = next (next here (connect 1200 0 0 1 none plan quota)) (connect 1200 0 1 1 none plan quota)

abbrev second : Session
second = record {
  user = 0;
  device = 1;
  node = 4;
  ip = 167772163;
  status = Store.pending;
  connected_at = 1200;
  disconnected_at = none;
  close_reason = none;
}

second_session : get_elem? two.sessions 1 ≡ some second
unfolding int_to_ip show_octet first_free connect_session connect_checks connect_node connect_to
    close_sessions_for_device close_each close_session ids_where ensure_ip_pool new_pool pool_of
    parse_cidr usable_host_ips addresses_from ip_to_int read_parts read_octet create_session
    create_session_once gate open_session free_lease claim_lease require_vpn_available
    effective_session_limit is_heartbeat_fresh effective_node_status is_node_connectable find_node
    by_peers is_candidate pick_wanted pick_least_loaded pick_node
second_session = refl

addresses_apart_example : ◌≡◌ {A = ℕ} 1 1
addresses_apart_example =
    addresses_apart 60000 (someone ∷ []) (phone ∷ phone ∷ []) (frankfurt ∷ []) two 1 1 second second
      reached second_session second_session refl refl refl refl

Reach-IsSound_example : IsSound two
Reach-IsSound_example =
    Reach-IsSound 60000 (someone ∷ []) (phone ∷ phone ∷ []) (frankfurt ∷ []) two reached

-- Tables with one free address, and what the transaction makes of them.
abbrev free_one : Db
free_one = record empty { leases = record { node = 4; ip = 167772162; session = none } ∷ [] }

abbrev first : Session
first = record second { device = 0; ip = 167772162 }

abbrev setup : NodeCommand
setup = record {
  node = 4;
  session = 0;
  type_of = add_peer;
  status = Store.queued;
  delivered_at = 0;
  attempts = 0;
}

abbrev taken : Db
taken = record empty {
  sessions = first ∷ [];
  leases = record { node = 4; ip = 167772162; session = some 0 } ∷ [];
  commands = setup ∷ [];
}

create_session-within_limits_example :
    (u : User) × (n : VpnNode) × (get_elem? free_one.users 0 ≡ some u)
    × (count (live_of_user 0) taken.sessions ≤ max (effective_session_limit u) 1)
    × (count (live_of_node 4) taken.sessions ≤ n.capacity)
    × (count (live_of_device 0) taken.sessions ≡ 1)
    × (is_node_connectable 60000 1200 n ≡ true)
    × (n.tier ≤ 0)
    × (n.maintenance ≡ false)
    × (taken.service_maintenance ≡ false)
unfolding first_free create_session create_session_once gate open_session free_lease claim_lease
    require_vpn_available effective_session_limit is_heartbeat_fresh effective_node_status
    is_node_connectable find_node
create_session-within_limits_example =
    create_session-within_limits 60000 1200 2 0 0 1 4 plan free_one taken 0 refl

-- The setup was confirmed and then reported as failed.
abbrev confirmed : Db
confirmed = record taken {
  sessions = record first { status = Store.active } ∷ [];
  commands = record setup { status = done } ∷ [];
}

ack-frees_active_example :
    (get_elem? (ack 1300 4 false 0 confirmed).sessions 0
      ≡ some (record first { status = Store.active }))
    × All (λ (l : IpLease). l.session ≢ some 0) (ack 1300 4 false 0 confirmed).leases
ack-frees_active_example =
    ack-frees_active 1300 4 0 (record setup { status = done })
      (record first { status = Store.active }) confirmed refl refl refl refl refl refl

-- The monitor sees no reason to close the waiting session.
abbrev tick : Tick
tick = record { subscribed = λ u. false; over_quota = 3 ∷ []; hard_cutoff = 900 }

monitor_tick-live_example :
    (get_elem? taken.sessions 0 ≡ some first) × IsAllowed tick taken first someone phone frankfurt
unfolding monitor_tick monitor_close reason_of monitor_reason ids_where find_node
monitor_tick-live_example =
    monitor_tick-live 1500 0 tick taken first someone phone frankfurt refl refl refl refl refl

-- A node that is not heard of is left.
silent_is_closed :
    reason_of (record tick { hard_cutoff = 1100 }) taken first ≡ some Store.node_offline
unfolding reason_of monitor_reason find_node
silent_is_closed = refl
