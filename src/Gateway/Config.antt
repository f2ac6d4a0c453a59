-- ===== src/Gateway/Config.antt =====
-- The settings read from the environment at the top of server.js. A number that is not
-- set is `none`; a value that is set but is no natural number is not modelled. Seconds of burst
-- are given in thousandths, times in milliseconds.
use Prim.Native.Nat.{min, max}
use gluk_vpn.Common.{ℕ, String, Bool, Option, none, some, List, ◌*◌, ◌≤◌, arith, filter, leb}

pub record Env : Type 0 where
  pub control_api : String
  pub fallback_api : String
  pub require_session : Bool
  pub auth_cache_ttl_ms : Option ℕ
  pub revalidate_interval_ms : Option ℕ
  pub token_retention_ms : Option ℕ
  pub allowed_ports : List ℕ
  pub max_connections_per_device : Option ℕ
  pub shaping_enabled : Bool
  pub shaping_burst_ms : Option ℕ
  pub allow_test_loopback_target : Bool

pub record Config : Type 0 where
  pub control_api : String
  pub fallback_api : String
  pub require_session : Bool
  pub auth_ttl_ms : ℕ
  pub revalidate_interval_ms : ℕ
  pub token_retention_ms : ℕ
  pub allowed_ports : List ℕ
  pub max_per_device : ℕ
  pub shaping_enabled : Bool
  pub shaping_burst_ms : ℕ
  pub allow_test_loopback_target : Bool

abbrev or_default : Option ℕ → ℕ → ℕ
or_default none d = d
or_default (some n) d = n

-- `Number('0')` is dropped from the ports by `.filter(Boolean)`.
abbrev is_port : ℕ → Bool
is_port n = leb 1 n

unfoldable pub config_of_env : Env → Config
config_of_env e = record {
  control_api = e.control_api;
  fallback_api = e.fallback_api;
  require_session = e.require_session;
  auth_ttl_ms = or_default e.auth_cache_ttl_ms 60000;
  revalidate_interval_ms = interval;
  token_retention_ms = max (interval * 2) (or_default e.token_retention_ms 300000);
  allowed_ports = filter is_port e.allowed_ports;
  max_per_device = or_default e.max_connections_per_device 128;
  shaping_enabled = e.shaping_enabled;
  shaping_burst_ms = min 2000 (max 50 (or_default e.shaping_burst_ms 250));
  allow_test_loopback_target = e.allow_test_loopback_target;
}
  where
    interval : ℕ
    interval = min 300000 (max 5000 (or_default e.revalidate_interval_ms 15000))

pub record IsSane (c : Config) : Type 0 where
  pub interval_floor : 5000 ≤ c.revalidate_interval_ms
  pub interval_ceiling : c.revalidate_interval_ms ≤ 300000
  pub retention_covers : 2 * c.revalidate_interval_ms ≤ c.token_retention_ms
  pub burst_floor : 50 ≤ c.shaping_burst_ms
  pub burst_ceiling : c.shaping_burst_ms ≤ 2000

-- Whatever the environment sets, tunnels are checked again every 5 s to 300 s, a token is retained
-- for two of those intervals at least, and a burst lasts 0.05 s to 2 s.
pub config_of_env-IsSane : (e : Env) → IsSane (config_of_env e)
unfolding config_of_env
config_of_env-IsSane e = omega arith
