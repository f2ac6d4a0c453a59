-- ===== src/Server/Lifecycle/Reachable.antt =====
-- The tables that any order of handlers and timers can reach.
use gluk_vpn.Common.{ℕ, some, List, [], ◌∷◌, ◌≡◌, inl, inr, sym, ap, ◌∙◌, get_elem?, All}
use mathlib.Core.List.{Memᴰ}
use mathlib.Core.List.Memᴰ
use gluk_vpn.Server.Store.{User, Device, VpnNode, Session, IpLease, Db}
use gluk_vpn.Server.Admission.{live_of_user, live_of_device, live_of_node}
use gluk_vpn.Server.Sessions.{
  ids_where, close_sessions_for_device, close_sessions_for_user, close_sessions_for_node,
}
use gluk_vpn.Server.Lifecycle.{
  Step, connect, close, close_device, close_user, close_node, service_switch, node_switch, poll,
  requeue_all, answer, monitor, reclaim, edit, Reach, here, next, start,
}
use gluk_vpn.Server.Lifecycle.Sound.{IsLive, Differ, IsPool, IsSound}
use gluk_vpn.Server.Lifecycle.Closing.{close_session-IsSound, close_each-IsSound}
use gluk_vpn.Server.Lifecycle.Switches.{
  monitor-IsSound, service_maintenance-IsSound, node_maintenance-IsSound, edit-IsSound,
}
use gluk_vpn.Server.Lifecycle.Opening.{connect_session-IsSound}
use gluk_vpn.Server.Lifecycle.Answering.{ack-IsSound}
use gluk_vpn.Server.Lifecycle.Delivering.{poll-IsSound, requeue_all-IsSound, reclaim-IsSound}

pub Step-IsSound : (window : ℕ) (db db' : Db) → Step window db db' → IsSound db → IsSound db'
unfolding close_sessions_for_device close_sessions_for_user close_sessions_for_node
Step-IsSound window db _ (connect now user device version wanted plan quota) h =
    connect_session-IsSound window now user device version wanted plan quota db h
Step-IsSound window db _ (close now reason i) h = close_session-IsSound now reason i db h
Step-IsSound window db _ (close_device now reason d) h =
    close_each-IsSound now reason (ids_where (live_of_device d) 0 db.sessions) db h
Step-IsSound window db _ (close_user now reason u) h =
    close_each-IsSound now reason (ids_where (live_of_user u) 0 db.sessions) db h
Step-IsSound window db _ (close_node now reason n) h =
    close_each-IsSound now reason (ids_where (live_of_node n) 0 db.sessions) db h
Step-IsSound window db _ (service_switch now enabled) h =
    service_maintenance-IsSound now enabled db h
Step-IsSound window db _ (node_switch now node enabled) h =
    node_maintenance-IsSound now node enabled db h
Step-IsSound window db _ (poll now node limit) h = poll-IsSound now node limit db h
Step-IsSound window db _ (requeue_all cutoff max_attempts) h =
    requeue_all-IsSound cutoff max_attempts db h
Step-IsSound window db _ (answer now node good i fresh) h = ack-IsSound now node good i db fresh h
Step-IsSound window db _ (monitor now t) h = monitor-IsSound now t db h
Step-IsSound window db _ (reclaim cutoff) h = reclaim-IsSound cutoff db h
Step-IsSound window db _ (edit users devices nodes) h =
    edit-IsSound db db.service_maintenance users devices nodes h

start-IsSound :
    (users : List User) (devices : List Device) (nodes : List VpnNode)
    → IsSound (start users devices nodes)
start-IsSound users devices nodes = record {
  held = λ i s e live. cc;
  pool = tt;
  timely = λ k c e. cc;
  once = λ j k c d e e' a a' same. cc;
  one_each = λ i j s t e e' l l' same. cc;
}

-- From empty tables, every order of the steps keeps them sound: a live session holds its address,
-- no address of a node is listed twice, a removal waits only for a session that is over and an
-- unanswered setup only for one that is not active, a session is set up by one command, and a
-- device has one live session.
pub Reach-IsSound :
    (window : ℕ) (users : List User) (devices : List Device) (nodes : List VpnNode) (db : Db)
    → Reach window (start users devices nodes) db
    → IsSound db
Reach-IsSound window users devices nodes _ here = start-IsSound users devices nodes
Reach-IsSound window users devices nodes db (next {db'} before step) =
    Step-IsSound window db' db step (Reach-IsSound window users devices nodes db' before)

-- In a pool, rows of one address are one row.
one_row :
    (ls : List IpLease) (l m : IpLease)
    → IsPool ls
    → Memᴰ l ls
    → Memᴰ m ls
    → l.node ≡ m.node
    → l.ip ≡ m.ip
    → l ≡ m
one_row [] l m p a b n e = absurd (Memᴰ.not-nil a)
one_row (x ∷ ls) l m p a b n e = elim (Memᴰ.cases_cons a) [
  | inl here_l ↦ elim (Memᴰ.cases_cons b) [
    | inl here_m ↦ here_l ∙ sym here_m
    | inr later_m ↦ absurd (
        listed ls x m p.0 later_m (ap (λ (z : IpLease). z.node) (sym here_l) ∙ n)
          (ap (λ (z : IpLease). z.ip) (sym here_l) ∙ e))
  ]
  | inr later_l ↦ elim (Memᴰ.cases_cons b) [
    | inl here_m ↦ absurd (
        listed ls x l p.0 later_l (ap (λ (z : IpLease). z.node) (sym here_m) ∙ sym n)
          (ap (λ (z : IpLease). z.ip) (sym here_m) ∙ sym e))
    | inr later_m ↦ one_row ls l m p.1 later_l later_m n e
  ]
]
  where
    listed : (ms : List IpLease) (x m : IpLease) → All (Differ x) ms → Memᴰ m ms → Differ x m
    listed [] x m h c = absurd (Memᴰ.not-nil c)
    listed (y ∷ ms) x m h c = elim (Memᴰ.cases_cons c) [
      | inl e ↦ λ n a. h.0 (n ∙ ap (λ (z : IpLease). z.node) e) (a ∙ ap (λ (z : IpLease). z.ip) e)
      | inr k ↦ listed ms x m h.1 k
    ]

-- Whatever order handlers and timers run in, provided that a node reports a failure only for a
-- command it has not answered: two sessions that are waiting or active never have the same address
-- on a node.
pub addresses_apart :
    (window : ℕ) (users : List User) (devices : List Device) (nodes : List VpnNode) (db : Db)
    (i j : ℕ) (s t : Session)
    → Reach window (start users devices nodes) db
    → get_elem? db.sessions i ≡ some s
    → get_elem? db.sessions j ≡ some t
    → IsLive s
    → IsLive t
    → s.node ≡ t.node
    → s.ip ≡ t.ip
    → i ≡ j
addresses_apart window users devices nodes db i j s t reach e e' live live' same_node same_ip =
    let h = Reach-IsSound window users devices nodes db reach in
    let a = h.held i s e live in
    let b = h.held j t e' live' in
    let one =
      one_row db.leases a.lease b.lease h.pool a.listed b.listed (a.node ∙ same_node ∙ sym b.node)
        (a.ip ∙ same_ip ∙ sym b.ip) in
    let ids : some i ≡ some j = sym a.held ∙ ap (λ (z : IpLease). z.session) one ∙ b.held in cc
