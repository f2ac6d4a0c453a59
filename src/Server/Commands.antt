-- ===== src/Server/Commands.antt =====
-- The queue of commands for the node agents: control-server/src/services/nodeCommands.ts, and the
-- acknowledgement of routes/node.ts, which drives the states of a session.
use Prim.Native.Nat.{min, max}
use gluk_vpn.Common.{
  ℕ, zero, suc, Bool, true, false, not, ◌&&◌, none, some, List, [], ◌∷◌, ◌++◌, map, ◌+◌, ltb, ◌==◌,
  if◌then◌else◌, any, get_elem?, set,
}
use gluk_vpn.Server.Store
use gluk_vpn.Server.Store.{
  SessionStatus, is_live_status, CloseReason, peer_add_failed, Session, IpLease, CommandType,
  add_peer, remove_peer, CommandStatus, queued, delivered, done, undone, NodeCommand, Db,
}

abbrev pub same_type : CommandType → CommandType → Bool
same_type add_peer add_peer = true
same_type remove_peer remove_peer = true
same_type _ _ = false

-- PENDING or DELIVERED
abbrev pub is_open : CommandStatus → Bool
is_open queued = true
is_open delivered = true
is_open _ = false

abbrev pub is_queued : CommandStatus → Bool
is_queued queued = true
is_queued _ = false

unfoldable pub enqueue_command : ℕ → ℕ → CommandType → List NodeCommand → List NodeCommand
enqueue_command node session type_of cs = cs ++ command ∷ []
  where
    command : NodeCommand
    command = record {
      node = node;
      session = session;
      type_of = type_of;
      status = queued;
      delivered_at = 0;
      attempts = 0;
    }

unfoldable pub has_open_command : ℕ → ℕ → CommandType → List NodeCommand → Bool
has_open_command node session type_of cs =
    any
      (λ (c : NodeCommand).
        c.node == node
        && (c.session == session && (same_type c.type_of type_of && is_open c.status)))
      cs

-- An ADD_PEER of this node that waits although its session is over.
abbrev pub is_stale_add : ℕ → List Session → NodeCommand → Bool
is_stale_add node sessions c =
    c.node == node
    && (same_type c.type_of add_peer
        && (is_queued c.status && (elim (get_elem? sessions c.session) [
          | none ↦ true
          | some s ↦ not (is_live_status s.status)
        ])))

abbrev pub cancel : NodeCommand → NodeCommand
cancel c = record c { status = undone }

-- The first statement of `claimPendingCommands`.
unfoldable pub cancel_stale : ℕ → List Session → List NodeCommand → List NodeCommand
cancel_stale node sessions cs = map (λ c. if is_stale_add node sessions c then cancel c else c) cs

abbrev pub deliver : ℕ → NodeCommand → NodeCommand
deliver now c = record c { status = delivered; delivered_at = now; attempts = c.attempts + 1 }

-- The claim of up to `take` waiting commands, oldest first.
unfoldable pub claim : ℕ → ℕ → ℕ → List NodeCommand → List NodeCommand
claim now node take [] = []
claim now node zero (c ∷ cs) = c ∷ cs
claim now node (suc take) (c ∷ cs) =
    let taken = claim now node take cs in
    let passed = claim now node (suc take) cs in
    if c.node == node && is_queued c.status then deliver now c ∷ taken else c ∷ passed

unfoldable pub claim_pending_commands : ℕ → ℕ → ℕ → Db → Db
unfolding cancel_stale claim
claim_pending_commands now node limit db = record db {
  commands = claim now node (min (max limit 1) 50) (cancel_stale node db.sessions db.commands);
}

-- `requeueStaleCommands`: first those with attempts left, then those without.
abbrev pub requeue : ℕ → ℕ → NodeCommand → NodeCommand
requeue cutoff max_attempts c = elim c.status [
  | delivered ↦
      if ltb c.delivered_at cutoff
      then (if ltb c.attempts max_attempts
          then record c { status = queued }
          else record c { status = undone })
      else c
  | _ ↦ c
]

unfoldable pub requeue_stale_commands : ℕ → ℕ → Db → Db
requeue_stale_commands cutoff max_attempts db = record db {
  commands = map (requeue cutoff max_attempts) db.commands;
}

-- `completeCommand`: a command that is completed stays as it is.
unfoldable pub complete_command : Bool → NodeCommand → NodeCommand
complete_command good c =
    if is_open c.status then record c { status = if good then done else undone } else c

-- A row of the leases without its session, if that is one of those asked for.
abbrev pub free_if : (ℕ → Bool) → IpLease → IpLease
free_if p l = elim l.session [ none ↦ l | some s ↦ if p s then record l { session = none } else l ]

-- `releaseLease`
unfoldable pub release_lease : ℕ → List IpLease → List IpLease
release_lease s ls = map (free_if (λ t. t == s)) ls

-- `updateMany({ where: { id, status: "PENDING" } })`
unfoldable pub update_pending : ℕ → (Session → Session) → List Session → List Session
update_pending i f ss = elim (get_elem? ss i) [
  | none ↦ ss
  | some s ↦ elim s.status [ Store.pending ↦ set ss i (f s) | _ ↦ ss ]
]

abbrev pub activate : Session → Session
activate s = record s { status = Store.active }

abbrev pub fail_session : ℕ → Session → Session
fail_session now s = record s {
  status = Store.failed;
  disconnected_at = some now;
  close_reason = some peer_add_failed;
}

-- The effect of an acknowledgement on sessions and leases.
unfoldable pub ack_effect : ℕ → Bool → NodeCommand → Db → Db
unfolding update_pending release_lease
ack_effect now good c db = elim c.type_of [
  | add_peer ↦
      if good
      then record db { sessions = update_pending c.session activate db.sessions }
      else record db {
        sessions = update_pending c.session (fail_session now) db.sessions;
        leases = release_lease c.session db.leases;
      }
  | remove_peer ↦ if good then record db { leases = release_lease c.session db.leases } else db
]

-- The handler of `/api/node/commands/:id/ack`; a command of another node is not found.
unfoldable pub ack : ℕ → ℕ → Bool → ℕ → Db → Db
unfolding complete_command ack_effect
ack now node good i db = elim (get_elem? db.commands i) [
  | none ↦ db
  | some c ↦
      if c.node == node
      then ack_effect now good c
          (record db { commands = set db.commands i (complete_command good c) })
      else db
]
