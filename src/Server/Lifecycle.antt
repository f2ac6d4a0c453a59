-- ===== src/Server/Lifecycle.antt =====
-- The life of sessions, addresses and commands: each handler and timer of the control server that
-- touches them is a step, in any order.
pub mod Sound
pub mod Leases
pub mod Closing
pub mod Switches
pub mod Opening
pub mod Delivering
pub mod Answering
pub mod Reachable
pub mod Repeated
use gluk_vpn.Common.{ℕ, Bool, true, false, Option, some, List, [], ◌≡◌, get_elem?}
use gluk_vpn.Server.Store.{User, Device, VpnNode, CloseReason, NodeCommand, Db}
use gluk_vpn.Server.Admission.{Plan}
use gluk_vpn.Server.Monitor.{Tick, monitor_tick}
use gluk_vpn.Server.Commands.{is_open, claim_pending_commands, requeue_stale_commands, ack}
use gluk_vpn.Server.Sessions.{
  close_session, close_sessions_for_device, close_sessions_for_user, close_sessions_for_node,
  set_service_maintenance, set_node_maintenance, reclaim_leases, Quota, connect_session,
}

module _ (window : ℕ) where
  pub data Step (db : Db) : Db → Type 0 where
    connect :
        (now user device version : ℕ) (wanted : Option ℕ) (plan : Plan) (quota : Quota)
        → Step db (connect_session now user device plan window version wanted quota db).0
    close : (now : ℕ) (reason : CloseReason) (i : ℕ) → Step db (close_session now reason i db)
    close_device :
        (now : ℕ) (reason : CloseReason) (d : ℕ)
        → Step db (close_sessions_for_device now reason d db)
    close_user :
        (now : ℕ) (reason : CloseReason) (u : ℕ) → Step db (close_sessions_for_user now reason u db)
    close_node :
        (now : ℕ) (reason : CloseReason) (n : ℕ) → Step db (close_sessions_for_node now reason n db)
    service_switch : (now : ℕ) (enabled : Bool) → Step db (set_service_maintenance now enabled db)
    node_switch :
        (now node : ℕ) (enabled : Bool) → Step db (set_node_maintenance now node enabled db)
    poll : (now node limit : ℕ) → Step db (claim_pending_commands now node limit db)
    requeue_all :
        (cutoff max_attempts : ℕ) → Step db (requeue_stale_commands cutoff max_attempts db)
    -- A failure is reported only for a command that is not answered yet.
    answer :
        (now node : ℕ) (good : Bool) (i : ℕ)
        → ((c : NodeCommand)
            → get_elem? db.commands i ≡ some c
            → good ≡ false
            → is_open c.status ≡ true)
        → Step db (ack now node good i db)
    monitor : (now : ℕ) (t : Tick) → Step db (monitor_tick now t db)
    reclaim : (cutoff : ℕ) → Step db (reclaim_leases cutoff db)
    -- What other handlers do to accounts, devices and nodes.
    edit :
        (users : List User) (devices : List Device) (nodes : List VpnNode)
        → Step db (record db { users = users; devices = devices; nodes = nodes })

  pub data Reach (db : Db) : Db → Type 0 where
    here : Reach db db
    next : {db' db'' : Db} → Reach db db' → Step db' db'' → Reach db db''

-- Tables with no session yet.
abbrev pub start : List User → List Device → List VpnNode → Db
start users devices nodes = record {
  service_maintenance = false;
  users = users;
  devices = devices;
  nodes = nodes;
  sessions = [];
  leases = [];
  commands = [];
}
