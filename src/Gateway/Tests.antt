-- ===== src/Gateway/Tests.antt =====
-- Runs of the gateway at concrete inputs, and its theorems at inputs that meet their hypotheses.
use gluk_vpn.Common.{
  ℕ, true, false, Option, none, some, [], ◌∷◌, ◌≡◌, ◌≤◌, ◌<◌, ◌⊎◌, refl, arith, Text, codes, lookup,
  insert, update, ◌+◌, ◌-◌, ◌*◌,
}
use gluk_vpn.Gateway.Config.{Env, Config, config_of_env}
use gluk_vpn.Gateway.State.{
  Runtime, Grant, granted, refused, maintenance, service, token_rejected, Answer, TokenBucket,
  Handler, Tunnel, Gateway, boot,
}
use gluk_vpn.Gateway.Credentials.{Credentials, parse_basic, is_empty, extract_user_id}
use gluk_vpn.Gateway.ControlPlane.{absent, flag, number, Body, failed, answered, Exchange}
use gluk_vpn.Gateway.Auth.{verify, cutoff}
use gluk_vpn.Gateway.Auth.Identity.{verify-device_id}
use gluk_vpn.Gateway.Connect.Admission.{IsAdmitted, connect_admit-IsAdmitted}
use gluk_vpn.Gateway.Auth.Verdicts.{Vouches, IsHit, verify_sound}
use gluk_vpn.Gateway.Shaping.{refill, new_bucket}
use gluk_vpn.Gateway.Shaping.Bounds.{sent, sent_bound}
use gluk_vpn.Gateway.Target.{Net, resolve_target, is_blocked_address}
use gluk_vpn.Gateway.Connect.{active_of, admit_target, new_handler, connect_admit, dial, deny}
use gluk_vpn.Gateway.Tunnels.{connected, client_data}
use gluk_vpn.Gateway.Tunnels.Counting.{Counts}
use gluk_vpn.Gateway.Requests.{Url}
use gluk_vpn.Gateway.Revalidation.{Group, settle_group}
use gluk_vpn.Gateway.Revalidation.Closing.{closed_at, settle_group-closed_at}
use gluk_vpn.Gateway.System.{admit, send, here, next}
use gluk_vpn.Gateway.System.Reachable.{Reach-Counts}
use gluk_vpn.Gateway.System.Overrun.{limit_overrun}

abbrev no_env : Env
no_env = record {
  control_api = "prod";
  fallback_api = "beta";
  require_session = true;
  auth_cache_ttl_ms = none;
  revalidate_interval_ms = none;
  token_retention_ms = none;
  allowed_ports = 80 ∷ 443 ∷ 0 ∷ [];
  max_connections_per_device = some 1;
  shaping_enabled = true;
  shaping_burst_ms = none;
  allow_test_loopback_target = false;
}

cfg : Config
unfolding config_of_env
cfg = config_of_env no_env

abbrev rt : Runtime
rt = record { sha256 = λ s. s; decode_base64 = λ s. s; payload_sub = λ s. some s }

abbrev net : Net
net = record { is_ip = λ t. true; dns_lookup = λ t. none; to_number = λ t. some 443 }

abbrev creds : Credentials
creds = record { username = "d1"; token = "a.u1.c" }

abbrev other_creds : Credentials
other_creds = record { username = "d2"; token = "a.u2.c" }

parse_basic_test :
    parse_basic rt (some "BaSic  d1:t:x ") ≡ some (record { username = "d1"; token = "t:x" })
unfolding parse_basic
parse_basic_test = refl

parse_basic_no_user : parse_basic rt (some "Basic :t") ≡ none
unfolding parse_basic
parse_basic_no_user = refl

extract_user_id_test : extract_user_id rt "a.u1.c" ≡ some "u1"
unfolding extract_user_id
extract_user_id_test = refl

abbrev good_body : Body
good_body = record {
  connected = flag true;
  subscription_active = flag true;
  node_maintenance = absent;
  service = none;
  session_device_id = none;
  quota_speed_limit_mbps = number 10;
  error_code = none;
  error_node_id = none;
}

abbrev good : Exchange
good = record { reply = answered 200 (some good_body); at = 5 }

abbrev bad : Exchange
bad = record { reply = failed; at = 5 }

abbrev grant : Grant
grant = record { user_id = some "u1"; device_id = "d1"; speed_limit_mbps = some 10 }

good-verify : (verify cfg rt 1 5 (some creds) good bad boot).1.verdict ≡ granted grant
unfolding verify cfg lookup extract_user_id
good-verify = refl

-- The cache behind that request, with a second token.
abbrev kept : Answer
kept = record { verdict = granted grant; until = 60005; api_base = some "prod" }

abbrev warm : Gateway
warm = record boot { auth_cache = ("a.u1.c", kept) ∷ ("a.u2.c", kept) ∷ [] }

verify_sound_example :
    (c : Credentials) × (some creds ≡ some c)
    × (is_empty c.token ≡ false)
    × (IsHit rt c 1 boot ⊎ (Vouches cfg.require_session good ⊎ Vouches cfg.require_session bad))
verify_sound_example = verify_sound cfg rt 1 5 (some creds) good bad boot good-verify

verify-device_id_example : grant.device_id ≡ creds.username
verify-device_id_example = verify-device_id cfg rt 1 5 creds good bad boot refl good-verify

abbrev cut_off : Answer
cut_off = record { verdict = refused (maintenance service); until = 900; api_base = some "prod" }

abbrev rejected : Answer
rejected = record { verdict = refused token_rejected; until = 600; api_base = some "prod" }

-- 40 KB/s, shared by two connections.
bucket : TokenBucket
unfolding new_bucket cfg
bucket = new_bucket cfg 0 40000

sent_bound_example :
    sent bucket ((0, 90000000) ∷ (100, 5000000) ∷ (400, 80000000) ∷ [])
    ≤ bucket.tokens + (500 - bucket.updated_at) * bucket.rate
unfolding bucket
sent_bound_example =
    sent_bound bucket ((0, 90000000) ∷ (100, 5000000) ∷ (400, 80000000) ∷ []) 500 (omega arith)

-- Another connection empties the bucket down to a whole byte at each turn.
abbrev drained : ℕ → ℕ → TokenBucket → TokenBucket
unfolding refill
drained i now b = record (refill now b) { tokens = 1000 }

-- The answer to a CONNECT request to a public address, and to one to a private address.
abbrev allowed : Answer
allowed = kept

admitted :
    (connect_admit cfg net 9 (some creds) (codes "8.8.8.8:443") allowed boot).1
    ≡ dial (codes "8.8.8.8") 443 (new_handler grant "a.u1.c")
unfolding connect_admit cfg lookup insert update resolve_target is_blocked_address
admitted = refl

blocked : (connect_admit cfg net 9 (some creds) (codes "10.8.0.1:443") allowed boot).1 ≡ deny 403
unfolding connect_admit cfg lookup insert update resolve_target is_blocked_address
blocked = refl

connect_admit-IsAdmitted_example :
    IsAdmitted cfg net 9
      (some creds)
      (codes "8.8.8.8:443")
      allowed
      boot
      (codes "8.8.8.8")
      443
      (new_handler grant "a.u1.c")
connect_admit-IsAdmitted_example =
    connect_admit-IsAdmitted cfg net 9 (some creds) (codes "8.8.8.8:443") allowed boot
      (codes "8.8.8.8") 443 (new_handler grant "a.u1.c") admitted

-- One tunnel of the device, established.
abbrev tunnel : Tunnel
tunnel = record {
  id = 1;
  api_base = some "prod";
  device_id = "d1";
  token_hash = "a.u1.c";
  token = "a.u1.c";
  owner = 0;
}

abbrev open_handler : Handler
open_handler = record (new_handler grant "a.u1.c") { tunnel_id = some 1; established = true }

abbrev busy : Gateway
busy = record boot { live_tunnels = tunnel ∷ []; handlers = open_handler ∷ [] }

abbrev group : Group
group = record {
  api_base = some "prod";
  device_id = "d1";
  token_hash = "a.u1.c";
  token = "a.u1.c";
  tunnels = tunnel ∷ [];
}

settle_group-closed_at_example :
    closed_at 0 (settle_group 600 (some rejected) group busy) ≡ some true
settle_group-closed_at_example =
    (settle_group-closed_at 600 rejected group busy 0).2 token_rejected refl (λ e. cc)

limit_overrun_example :
    cfg.max_per_device
    < active_of "d1"
        (connected cfg rt 9 grant (some "prod") false 0 1 (
          connected cfg rt 9 grant
            (some "prod")
            false
            0
            0
            (admit_target cfg net 9 grant "a.u1.c"
              (codes "8.8.8.8")
              443
              (admit_target cfg net 9 grant "a.u1.c" (codes "8.8.8.8") 443 boot).0).0)).stats
unfolding cfg lookup resolve_target is_blocked_address cutoff
limit_overrun_example =
    limit_overrun cfg rt net 9 0 443 grant (some "prod") "a.u1.c" (codes "8.8.8.8")
      (codes "8.8.8.8") boot refl refl (omega arith)

abbrev any_url : Text → Option Url
any_url t = none

Reach-Counts_example :
    Counts
      (client_data 5 0 (connect_admit cfg net 9 (some creds) (codes "8.8.8.8:443") allowed boot).0)
Reach-Counts_example =
    Reach-Counts cfg rt net any_url _
      (next (next here (admit 9 (some creds) (codes "8.8.8.8:443") allowed)) (send 5 0))
