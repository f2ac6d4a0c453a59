-- ===== src/Server/Store.antt =====
-- The tables of the control server's database that sessions live in (control-server/prisma), as
-- records: a row's id is its position in its table. Rows of users, devices and nodes carry what the
-- code reads of them.
use gluk_vpn.Common.{ℕ, Bool, true, false, Option, none, some, List, Text}

-- `User.status`
pub data AccountStatus : Type 0 where
  account_active account_disabled account_blocked account_deleted : AccountStatus

pub record User : Type 0 where
  pub status : AccountStatus
  pub max_sessions : ℕ

-- `Device.status` is ACTIVE or not.
pub record Device : Type 0 where
  pub active : Bool
  pub token_version : ℕ

pub record VpnNode : Type 0 where
  pub id : ℕ
  pub disabled : Bool
  pub maintenance : Bool
  pub tier : ℕ
  pub has_key : Bool
  pub last_heartbeat : Option ℕ
  pub active_peers : ℕ
  pub capacity : ℕ
  pub subnet : Text

pub data SessionStatus : Type 0 where
  pending active closed failed : SessionStatus

-- The states of ACTIVE_SESSION_STATES.
abbrev pub is_live_status : SessionStatus → Bool
is_live_status pending = true
is_live_status active = true
is_live_status _ = false

pub data CloseReason : Type 0 where
  reconnect maintenance_reason user_disabled user_blocked user_deleted device_revoked
        subscription_expired traffic_limit node_disabled node_offline peer_missing peer_add_failed
        requested :
      CloseReason

pub record Session : Type 0 where
  pub user : ℕ
  pub device : ℕ
  pub node : ℕ
  pub ip : ℕ
  pub status : SessionStatus
  pub connected_at : ℕ
  pub disconnected_at : Option ℕ
  pub close_reason : Option CloseReason

-- `IpLease`: an address of a node's pool and the session that holds it.
pub record IpLease : Type 0 where
  pub node : ℕ
  pub ip : ℕ
  pub session : Option ℕ

pub data CommandType : Type 0 where
  add_peer remove_peer : CommandType

pub data CommandStatus : Type 0 where
  queued delivered done undone : CommandStatus

pub record NodeCommand : Type 0 where
  pub node : ℕ
  pub session : ℕ
  pub type_of : CommandType
  pub status : CommandStatus
  pub delivered_at : ℕ
  pub attempts : ℕ

pub record Db : Type 0 where
  pub service_maintenance : Bool
  pub users : List User
  pub devices : List Device
  pub nodes : List VpnNode
  pub sessions : List Session
  pub leases : List IpLease
  pub commands : List NodeCommand

-- What a handler throws.
pub data Refusal : Type 0 where
  under_maintenance not_found node_is_disabled node_needs_plan no_key node_is_offline no_node
        node_unavailable account_refused device_is_revoked quota_spent too_many_sessions device_busy
        node_full bad_subnet no_address address_taken session_was_closed :
      Refusal

pub data Result (A : Type 0) : Type 0 where
  ok : A → Result A
  err : Refusal → Result A

infixl 5 ◌>>=◌
abbrev pub ◌>>=◌ : {A B : Type 0} → Result A → (A → Result B) → Result B
ok a >>= f = f a
err r >>= f = err r

-- `if (c) throw r`
abbrev pub refuse_if : Bool → Refusal → Result Unit
refuse_if true r = err r
refuse_if false r = ok tt

abbrev pub or_refuse : {A : Type 0} → Option A → Refusal → Result A
or_refuse none r = err r
or_refuse (some a) r = ok a
