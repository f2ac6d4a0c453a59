-- ===== src/Gateway/State.antt =====
-- The state of the gateway process of server.js, and what a check
-- of credentials answers. Everything that a `Map` holds by reference is reached by its key here.
use gluk_vpn.Common.{ℕ, String, Bool, false, Option, List, [], StringMap}

-- What `crypto`, `Buffer` and `JSON` do for the gateway: the digest of a token, the text behind a
-- base64 header, and the `sub` member of the JSON object in a token's payload part (`none` where
-- the part does not decode to an object, or has no `sub` that is a text).
pub record Runtime : Type 0 where
  pub sha256 : String → String
  pub decode_base64 : String → String
  pub payload_sub : String → Option String

pub record Counters : Type 0 where
  pub bytes_rx : ℕ
  pub bytes_tx : ℕ
  pub connections : ℕ
  pub active : ℕ
  pub since : ℕ
  pub token : Option String
  pub token_touched_at : ℕ
  pub reported_rx : ℕ
  pub reported_tx : ℕ

pub record Totals : Type 0 where
  pub bytes_rx : ℕ
  pub bytes_tx : ℕ
  pub connections : ℕ
  pub active : ℕ

pub data Scope : Type 0 where
  service node : Scope

pub data Reason : Type 0 where
  maintenance : Scope → Reason
  subscription_inactive no_active_session token_rejected : Reason
  missing_credentials control_plane_unreachable : Reason

pub record Grant : Type 0 where
  pub user_id : Option String
  pub device_id : String
  pub speed_limit_mbps : Option ℕ

-- `ok: true` with what it carries, or `ok: false` with its reason.
pub data Verdict : Type 0 where
  granted : Grant → Verdict
  refused : Reason → Verdict

pub record Answer : Type 0 where
  pub verdict : Verdict
  pub until : ℕ
  pub api_base : Option String

-- Amounts are in thousandths of a byte: `tokens` grows by `rate` in each millisecond.
pub record TokenBucket : Type 0 where
  pub rate : ℕ
  pub capacity : ℕ
  pub tokens : ℕ
  pub updated_at : ℕ

pub record Shaper : Type 0 where
  pub mbps : ℕ
  pub rx : TokenBucket
  pub tx : TokenBucket

-- One call of `handleConnect` from `net.connect` on: the variables that its callbacks share.
-- `stat_key` and `user_key` say which counters `stat` and `uStat` refer to.
pub record Handler : Type 0 where
  pub stat_key : String
  pub user_key : Option String
  pub token : String
  pub tunnel_id : Option ℕ
  pub established : Bool
  pub closed : Bool

-- `owner` is the position of the handler whose `close` the entry holds.
pub record Tunnel : Type 0 where
  pub id : ℕ
  pub api_base : Option String
  pub device_id : String
  pub token_hash : String
  pub token : String
  pub owner : ℕ

pub record Gateway : Type 0 where
  pub stats : StringMap Counters
  pub user_stats : StringMap Counters
  pub totals : Totals
  pub auth_cache : StringMap Answer
  pub maintenance_by_api : StringMap ℕ
  pub shapers : StringMap Shaper
  pub live_tunnels : List Tunnel
  pub next_tunnel_id : ℕ
  pub revalidation_running : Bool
  pub handlers : List Handler

abbrev pub no_totals : Totals
no_totals = record { bytes_rx = 0; bytes_tx = 0; connections = 0; active = 0 }

abbrev pub boot : Gateway
boot = record {
  stats = [];
  user_stats = [];
  totals = no_totals;
  auth_cache = [];
  maintenance_by_api = [];
  shapers = [];
  live_tunnels = [];
  next_tunnel_id = 0;
  revalidation_running = false;
  handlers = [];
}
