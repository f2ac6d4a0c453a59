-- ===== src/Server/Lifecycle/Opening.antt =====
-- `IsSound` and a connection: the pool of a node, the new session, its address and its setup.
use gluk_vpn.Common.{
  ℕ, true, false, Option, none, some, List, [], ◌∷◌, ◌++◌, ◌+◌, ◌-◌, ◌≡◌, ◌≢◌, inl, inr, refl, sym,
  ap, subst, ◌∙◌, arith, ◌==◌, ==_iff, ltb, count, count-none, All, All-get, length, get_elem?,
  get_elem?-snoc, get_elem?-lt, length-append, Bool-cases,
}
use mathlib.Core.List.Memᴰ
use gluk_vpn.Server.Store.{
  VpnNode, Session, IpLease, NodeCommand, Db, Result, ok, err, bad_subnet, reconnect,
}
use gluk_vpn.Server.Results.{found-ok, ok-inj, Result-cases}
use gluk_vpn.Server.Ip.{parse_cidr, usable_host_ips}
use gluk_vpn.Server.Ip.Pool.{IsRising, addresses_from-IsRising}
use gluk_vpn.Server.Admission.{
  Plan, live_of_device, session_of, command_of, pool_of, new_pool, ensure_ip_pool, create_session,
}
use gluk_vpn.Server.Admission.Opened.{IsOpened, opened, create_session-IsOpened}
use gluk_vpn.Server.Sessions.{
  ids_where, close_sessions_for_device, Quota, connect_checks, connect_node, committed, connect_to,
  connect_session,
}
use gluk_vpn.Server.Lifecycle.Closing.{close_each-IsSound}
use gluk_vpn.Server.Lifecycle.Sound.{IsLive, IsPool, IsTimely, IsSound}
use gluk_vpn.Server.Lifecycle.Leases.{set-IsPool, set-kept, set-new, new_rows-IsPool}

-- More leases.
grow-IsSound :
    (db : Db) (ls : List IpLease)
    → IsPool (db.leases ++ ls)
    → IsSound db
    → IsSound (record db { leases = db.leases ++ ls })
grow-IsSound db ls pool h = record {
  held = λ i s e live.
      let was = h.held i s e live in
      record {
        lease = was.lease;
        listed = Memᴰ.append_left ls was.listed;
        held = was.held;
        node = was.node;
        ip = was.ip;
      };
  pool = pool;
  timely = h.timely;
  once = h.once;
  one_each = h.one_each;
}

new_pool-IsSound :
    (node : ℕ) (ips : List ℕ) (ls : List IpLease) (db : Db)
    → All (λ (l : IpLease). (l.node == node) ≡ false) db.leases
    → IsRising ips
    → new_pool node ips db.leases ≡ ok ls
    → IsSound db
    → IsSound (record db { leases = ls })
unfolding new_pool
new_pool-IsSound node [] ls db fresh up e h = cc
new_pool-IsSound node (ip ∷ ips) ls db fresh up e h =
    subst (λ x. IsSound (record db { leases = x })) (ok-inj e)
      (grow-IsSound db (pool_of node (ip ∷ ips))
        (new_rows-IsPool node (ip ∷ ips) db.leases fresh up h.pool) h)

pub ensure_ip_pool-IsSound :
    (n : VpnNode) (ls : List IpLease) (db : Db)
    → ensure_ip_pool n db.leases ≡ ok ls
    → IsSound db
    → IsSound (record db { leases = ls })
unfolding ensure_ip_pool usable_host_ips
ensure_ip_pool-IsSound n ls db e h =
    elim (Bool-cases (ltb 0 (count (λ (l : IpLease). l.node == n.id) db.leases))) [
      | inl made ↦
          let same : ok db.leases ≡ ok ls = rw made at e in
          subst (λ x. IsSound (record db { leases = x })) (ok-inj same) h
      | inr fresh ↦
          let (c, parsed, e1) = found-ok (parse_cidr n.subnet) bad_subnet _ (rw fresh at e) in
          new_pool-IsSound n.id (usable_host_ips c 1) ls db
            (count-none (λ (l : IpLease). l.node == n.id) db.leases (ground arith))
            (addresses_from-IsRising (c.network + (1 + 1)) (c.size - 1 - (1 + 1))) e1 h
    ]

-- A new session with an address that was free, for a device that has none.
pub opened-IsSound :
    (now user device node i : ℕ) (l : IpLease) (db : Db)
    → get_elem? db.leases i ≡ some l
    → l.node ≡ node
    → l.session ≡ none
    → All (λ x. live_of_device device x ≡ false) db.sessions
    → IsSound db
    → IsSound (opened now user device node i l db)
opened-IsSound now user device node i l db at of_node free alone h = record {
  held = λ j s e live. elim (get_elem?-snoc db.sessions fresh j e) [
    | inl old ↦
        let was = h.held j s old live in
        record {
          lease = was.lease;
          listed =
              set-kept db.leases i l claimed was.lease at
                (λ same. let bad = sym was.held ∙ ap (λ (x : IpLease). x.session) same ∙ free in cc)
                was.listed;
          held = was.held;
          node = was.node;
          ip = was.ip;
        }
    | inr (end, new) ↦ record {
      lease = claimed;
      listed = set-new db.leases i l claimed at;
      held = ap some (sym end);
      node = of_node ∙ ap (λ (x : Session). x.node) new;
      ip = ap (λ (x : Session). x.ip) new;
    }
  ];
  pool = set-IsPool db.leases i l claimed at refl refl h.pool;
  timely = λ k c e. elim (get_elem?-snoc db.commands setup k e) [
    | inl old ↦
        let t = h.timely k c old in
        record {
          known = omega (arith, t.known, length-append db.sessions (fresh ∷ []));
          removal = λ r s e'. elim (get_elem?-snoc db.sessions fresh c.session e') [
            | inl was ↦ t.removal r s was
            | inr (end, new) ↦ absurd (omega (arith, t.known, end))
          ];
          setup = λ a o s e'. elim (get_elem?-snoc db.sessions fresh c.session e') [
            | inl was ↦ t.setup a o s was
            | inr (end, new) ↦ omega (arith, t.known, end)
          ];
        }
    | inr (end, new) ↦ subst (IsTimely (db.sessions ++ fresh ∷ [])) new (record {
      known = omega (arith, length-append db.sessions (fresh ∷ []));
      removal = λ r s e'. cc;
      setup = λ a o s e' act. elim (get_elem?-snoc db.sessions fresh (length db.sessions) e') [
        | inl was ↦ omega (arith, get_elem?-lt db.sessions (length db.sessions) was)
        | inr (end', new') ↦ let bad = ap (λ (x : Session). x.status) new' ∙ act in cc
      ];
    })
  ];
  once = λ j k c d e e' a a' same. elim (get_elem?-snoc db.commands setup j e) [
    | inl old ↦ elim (get_elem?-snoc db.commands setup k e') [
      | inl old' ↦ h.once j k c d old old' a a' same
      | inr (end, new) ↦
          omega (arith, (h.timely j c old).known, same, ap (λ (x : NodeCommand). x.session) new)
    ]
    | inr (end, new) ↦ elim (get_elem?-snoc db.commands setup k e') [
      | inl old' ↦
          omega (arith, (h.timely k d old').known, same, ap (λ (x : NodeCommand). x.session) new)
      | inr (end', new') ↦ end ∙ sym end'
    ]
  ];
  one_each = λ j k s t e e' live live' same. elim (get_elem?-snoc db.sessions fresh j e) [
    | inl old ↦ elim (get_elem?-snoc db.sessions fresh k e') [
      | inl old' ↦ h.one_each j k s t old old' live live' same
      | inr (end, new) ↦
          absurd (taken j s old live (same ∙ ap (λ (x : Session). x.device) (sym new)))
    ]
    | inr (end, new) ↦ elim (get_elem?-snoc db.sessions fresh k e') [
      | inl old' ↦
          absurd (taken k t old' live' (sym same ∙ ap (λ (x : Session). x.device) (sym new)))
      | inr (end', new') ↦ end ∙ sym end'
    ]
  ];
}
  where
    fresh : Session
    fresh = session_of now user device node l.ip

    claimed : IpLease
    claimed = record l { session = some (length db.sessions) }

    setup : NodeCommand
    setup = command_of node (length db.sessions)

    taken : (j : ℕ) (s : Session) → get_elem? db.sessions j ≡ some s → IsLive s → s.device ≢ device
    taken j s e live same =
        let off : live_of_device device s ≡ false =
          All-get (λ x. live_of_device device x ≡ false) db.sessions j alone e in
        let on : (s.device == device) ≡ true = (==_iff s.device device).1 same in cc

pub create_session-IsSound :
    (window now user device version node : ℕ) (plan : Plan) (db db' : Db) (s : ℕ)
    → IsOpened window now user device version node plan db db' s
    → IsSound db
    → IsSound db'
create_session-IsSound window now user device version node plan db db' s o h =
    subst IsSound (sym o.tables) (
      opened-IsSound now user device node o.position o.lease db o.at o.of_node o.free
        (count-none (live_of_device device) db.sessions o.admitted.device_is_free) h)

committed-IsSound :
    (window now retries user device version node : ℕ) (plan : Plan) (db : Db)
    → IsSound db
    → IsSound
        (committed now user device plan db
          (create_session window now retries user device version node plan db)).0
committed-IsSound window now retries user device version node plan db h =
    go (create_session window now retries user device version node plan db) (λ db' s e.
      create_session-IsSound window now user device version node plan db db' s
        (create_session-IsOpened window now retries user device version node plan db db' s e) h)
  where
    go :
        (r : Result (Db × ℕ))
        → ((db' : Db) (s : ℕ) → r ≡ ok (db', s) → IsSound db')
        → IsSound (committed now user device plan db r).0
    go (err x) k = h
    go (ok (db', s)) k = k db' s refl

connect_to-IsSound :
    (window now user device version : ℕ) (n : VpnNode) (plan : Plan) (db : Db)
    → IsSound db
    → IsSound (connect_to now user device plan window version n db).0
unfolding connect_to
connect_to-IsSound window now user device version n plan db h =
    elim (Result-cases (ensure_ip_pool n db.leases)) [
      | inl (x, e) ↦ rw (connect_to, e) h
      | inr (ls, e) ↦
          rw (connect_to, e)
            (committed-IsSound window now 2 user device version n.id plan
              (record db { leases = ls }) (ensure_ip_pool-IsSound n ls db e h))
    ]

pub connect_session-IsSound :
    (window now user device version : ℕ) (wanted : Option ℕ) (plan : Plan) (quota : Quota) (db : Db)
    → IsSound db
    → IsSound (connect_session now user device plan window version wanted quota db).0
unfolding connect_session close_sessions_for_device
connect_session-IsSound window now user device version wanted plan quota db h =
    let closed =
      close_each-IsSound now reconnect (ids_where (live_of_device device) 0 db.sessions) db h in
    elim (Result-cases (connect_checks now user device plan quota db)) [
      | inl (x, e) ↦ rw (connect_session, e) h
      | inr (u, e) ↦
          elim (Result-cases (
            connect_node now user device plan window wanted u
              (close_sessions_for_device now reconnect device db))) [
                | inl (x, e') ↦ rw (connect_session, e, e') closed
                | inr (n, e') ↦
                    rw (connect_session, e, e')
                      (connect_to-IsSound window now user device version n plan
                        (close_sessions_for_device now reconnect device db) closed)
              ]
    ]
