-- ===== src/Server/Lifecycle/Switches.antt =====
-- `IsSound` and the maintenance switches, the edits of other handlers and the tick of the monitor.
use gluk_vpn.Common.{
  Option, none, ℕ, suc, Bool, true, false, ◌&&◌, some, List, [], ◌∷◌, ◌+◌, ◌≡◌, inl, inr, refl, sym,
  ap, ◌∙◌, arith, ◌==◌, if◌then◌else◌, All, All-imp, map-get_elem?, get_elem?, get_elem?-map,
  length-map, Bool-cases, Option-cases,
}
use gluk_vpn.Server.Store
use gluk_vpn.Server.Store.{
  User, Device, is_live_status, CloseReason, Session, IpLease, VpnNode, CommandType, add_peer,
  remove_peer, CommandStatus, queued, undone, NodeCommand, Db,
}
use gluk_vpn.Server.Commands.{same_type, is_queued, enqueue_command}
use gluk_vpn.Server.Sessions.{
  close_row, ids_where, is_selected, close_rows, cancel_adds, enqueue_removals,
  close_in_transaction, set_service_maintenance, set_node_maintenance,
}
use gluk_vpn.Server.Monitor.{Tick, reason_at, close_if, monitor_close, monitor_tick}
use gluk_vpn.Server.Lifecycle.Sound.{
  IsLive, IsSound, Shrinks, shrink-IsSound, map-IsSound, if-IsUpdate,
}
use gluk_vpn.Server.Lifecycle.Closing.{IsOver, removal-IsSound, close_session-IsSound}

-- The transaction.
close_rows-Shrinks :
    (now : ℕ) (reason : CloseReason) (p : Session → Bool) (ss : List Session)
    → Shrinks ss (close_rows now reason p ss)
unfolding close_rows
close_rows-Shrinks now reason p ss = record {
  same_length = length-map _ ss;
  from_old = λ i s' e.
      let (s, old, f) = get_elem?-map _ ss i e in
      let (d, n, a, st) = row s s' f in (s, old, d, n, a, st);
}
  where
    row :
        (s s' : Session)
        → (if p s && is_live_status s.status then close_row now reason s else s) ≡ s'
        → (s'.device ≡ s.device)
          × (s'.node ≡ s.node)
          × (s'.ip ≡ s.ip)
          × (IsLive s' → s'.status ≡ s.status)
    row s s' f = elim (Bool-cases (p s && is_live_status s.status)) [
      | inl c ↦
          let g : close_row now reason s ≡ s' =
            sym (ap (λ b. if b then close_row now reason s else s) c) ∙ f in
          (
            ap (λ (x : Session). x.device) (sym g),
            ap (λ (x : Session). x.node) (sym g),
            ap (λ (x : Session). x.ip) (sym g),
            λ live. let bad = ap (λ (x : Session). is_live_status x.status) g ∙ live in cc,
          )
      | inr c ↦
          let g : s ≡ s' = sym (ap (λ b. if b then close_row now reason s else s) c) ∙ f in
          (
            ap (λ (x : Session). x.device) (sym g),
            ap (λ (x : Session). x.node) (sym g),
            ap (λ (x : Session). x.ip) (sym g),
            λ live. ap (λ (x : Session). x.status) (sym g),
          )
    ]

Selected : (Session → Bool) → List Session → ℕ → ℕ → Type 0
Selected p ss k i = (s : Session) × (j : ℕ) × (i ≡ k + j) × (get_elem? ss j ≡ some s) × (p s ≡ true)

ids_where-Selected :
    (p : Session → Bool) (ss : List Session) (k : ℕ) → All (Selected p ss k) (ids_where p k ss)
unfolding ids_where Selected
ids_where-Selected p [] k = tt
ids_where-Selected p (s ∷ ss) k =
    let later =
      All-imp (Selected p ss (suc k)) (Selected p (s ∷ ss) k) (ids_where p (suc k) ss)
        (λ i h. let (t, j, at, e, q) = h in (t, suc j, omega (arith, at), e, q))
        (ids_where-Selected p ss (suc k)) in
    elim (Bool-cases (p s)) [
      | inl e ↦ rw (ids_where, e) ((s, 0, omega arith, refl, e), later)
      | inr e ↦ rw (ids_where, e) later
    ]

closed_now :
    (now : ℕ) (reason : CloseReason) (scope : Session → Bool) (ss : List Session)
    → All
        (IsOver (close_rows now reason scope ss))
        (ids_where (λ s. scope s && is_live_status s.status) 0 ss)
unfolding close_rows Selected
closed_now now reason scope ss =
    All-imp (Selected p ss 0) (IsOver (close_rows now reason scope ss)) (ids_where p 0 ss)
      (λ i h.
        let (s, j, at, e, q) = h in
        let same : i ≡ j = omega (arith, at) in
        (
          close_row now reason s,
          ap (get_elem? (close_rows now reason scope ss)) same
              ∙ map-get_elem? f ss j e
              ∙ ap (λ b. some (if b then close_row now reason s else s)) q,
          refl,
        ))
      (ids_where-Selected p ss 0)
  where
    p : Session → Bool
    p s = scope s && is_live_status s.status

    f : Session → Session
    f s = if scope s && is_live_status s.status then close_row now reason s else s

enqueue_removals-IsSound :
    (db : Db) (ss : List Session) (is : List ℕ)
    → All (IsOver db.sessions) is
    → IsSound db
    → IsSound (record db { commands = enqueue_removals ss is db.commands })
unfolding enqueue_removals
enqueue_removals-IsSound db ss [] over h = h
enqueue_removals-IsSound db ss (i ∷ is) over h = elim (Option-cases (get_elem? ss i)) [
  | inl e ↦ rw (enqueue_removals, e) (enqueue_removals-IsSound db ss is over.1 h)
  | inr (s, e) ↦
      rw (enqueue_removals, e)
        (enqueue_removals-IsSound
          (record db { commands = enqueue_command s.node i remove_peer db.commands }) ss is over.1
          (removal-IsSound db s.node i over.0 h))
]

cancel_adds-IsSound :
    (db : Db) (is : List ℕ)
    → IsSound db
    → IsSound (record db { commands = cancel_adds is db.commands })
unfolding cancel_adds
cancel_adds-IsSound db is h =
    map-IsSound db _
      (λ c.
        if-IsUpdate
          (is_selected is c.session && (same_type c.type_of add_peer && is_queued c.status)) c
          (record c { status = undone }) (refl, refl, λ o. cc))
      h

pub close_in_transaction-IsSound :
    (now : ℕ) (reason : CloseReason) (scope : Session → Bool) (db : Db)
    → IsSound db
    → IsSound (close_in_transaction now reason scope db)
unfolding close_in_transaction
close_in_transaction-IsSound now reason scope db h =
    enqueue_removals-IsSound
      (record db {
        sessions = close_rows now reason scope db.sessions;
        commands = cancel_adds is db.commands;
      })
      db.sessions is (closed_now now reason scope db.sessions)
      (cancel_adds-IsSound (record db { sessions = close_rows now reason scope db.sessions }) is
        (shrink-IsSound db (close_rows now reason scope db.sessions)
          (close_rows-Shrinks now reason scope db.sessions) h))
  where
    is : List ℕ
    is = ids_where (λ s. scope s && is_live_status s.status) 0 db.sessions

-- A change of accounts, devices, nodes and the switch of the service.
pub edit-IsSound :
    (db : Db) (m : Bool) (us : List User) (ds : List Device) (ns : List VpnNode)
    → IsSound db
    → IsSound (record db { service_maintenance = m; users = us; devices = ds; nodes = ns })
edit-IsSound db m us ds ns h = record {
  held = h.held;
  pool = h.pool;
  timely = h.timely;
  once = h.once;
  one_each = h.one_each;
}

pub service_maintenance-IsSound :
    (now : ℕ) (enabled : Bool) (db : Db)
    → IsSound db
    → IsSound (set_service_maintenance now enabled db)
unfolding set_service_maintenance
service_maintenance-IsSound now true db h =
    close_in_transaction-IsSound now Store.maintenance_reason (λ s. true)
      (record db { service_maintenance = true })
      (edit-IsSound db true db.users db.devices db.nodes h)
service_maintenance-IsSound now false db h = edit-IsSound db false db.users db.devices db.nodes h

pub node_maintenance-IsSound :
    (now node : ℕ) (enabled : Bool) (db : Db)
    → IsSound db
    → IsSound (set_node_maintenance now node enabled db)
unfolding set_node_maintenance
node_maintenance-IsSound now node true db h =
    close_in_transaction-IsSound now Store.maintenance_reason (λ s. s.node == node)
      (record db { nodes = _ }) (edit-IsSound db db.service_maintenance db.users db.devices _ h)
node_maintenance-IsSound now node false db h =
    edit-IsSound db db.service_maintenance db.users db.devices _ h

close_if-IsSound :
    (now : ℕ) (o : Option CloseReason) (i : ℕ) (db : Db)
    → IsSound db
    → IsSound (close_if now o i db)
close_if-IsSound now none i db h = h
close_if-IsSound now (some r) i db h = close_session-IsSound now r i db h

monitor_close-IsSound :
    (now : ℕ) (t : Tick) (before : Db) (is : List ℕ) (db : Db)
    → IsSound db
    → IsSound (monitor_close now t before is db)
unfolding monitor_close
monitor_close-IsSound now t before [] db h = h
monitor_close-IsSound now t before (i ∷ is) db h =
    monitor_close-IsSound now t before is (close_if now (reason_at t before i) i db)
      (close_if-IsSound now (reason_at t before i) i db h)

pub monitor-IsSound : (now : ℕ) (t : Tick) (db : Db) → IsSound db → IsSound (monitor_tick now t db)
unfolding monitor_tick
monitor-IsSound now t db h =
    monitor_close-IsSound now t db (ids_where (λ s. is_live_status s.status) 0 db.sessions) db h
