-- ===== src/Gateway/Revalidation.antt =====
-- The check of live tunnels, `revalidateLiveTunnels` of server.js, and the shutdown.
pub mod Closing
use gluk_vpn.Common.{
  ℕ, String, Bool, true, false, not, ◌&&◌, ◌||◌, Option, none, some, List, [], ◌∷◌, ◌++◌, ◌==◌,
  if◌then◌else◌, str_eq, erase, any, filter, map,
}
use gluk_vpn.Gateway.Config.{Config}
use gluk_vpn.Gateway.State.{
  Runtime, Scope, Reason, maintenance, service, node, Verdict, granted, refused, Answer, Tunnel,
  Gateway,
}
use gluk_vpn.Gateway.Credentials.{Credentials, or_null}
use gluk_vpn.Gateway.ControlPlane.{Exchange}
use gluk_vpn.Gateway.Auth.{fresh_answer, record_maintenance}
use gluk_vpn.Gateway.Tunnels.{close}

pub record Group : Type 0 where
  pub api_base : Option String
  pub device_id : String
  pub token_hash : String
  pub token : String
  pub tunnels : List Tunnel

abbrev pub same_api : Option String → Option String → Bool
same_api none none = true
same_api (some a) (some b) = str_eq a b
same_api _ _ = false

-- Equality of the texts `${apiBase}:${deviceId}:${tokenHash}`: a device id holds no colon, since
-- `parseBasic` ends the user name at the first one, and a hash is in hexadecimal.
abbrev pub in_group : Group → Tunnel → Bool
in_group gp t =
    same_api gp.api_base t.api_base
    && str_eq gp.device_id t.device_id
    && str_eq gp.token_hash t.token_hash

abbrev new_group : Tunnel → Group
new_group t = record {
  api_base = t.api_base;
  device_id = t.device_id;
  token_hash = t.token_hash;
  token = t.token;
  tunnels = t ∷ [];
}

unfoldable pub add_tunnel : Tunnel → List Group → List Group
add_tunnel t [] = new_group t ∷ []
add_tunnel t (gp ∷ gps) =
    if in_group gp t
    then record gp { tunnels = gp.tunnels ++ t ∷ [] } ∷ gps
    else gp ∷ add_tunnel t gps

unfoldable pub group_tunnels : List Group → List Tunnel → List Group
unfolding add_tunnel
group_tunnels gps [] = gps
group_tunnels gps (t ∷ ts) = group_tunnels (add_tunnel t gps) ts

unfoldable pub close_all : ℕ → List ℕ → Gateway → Gateway
close_all now [] g = g
close_all now (i ∷ is) g = close_all now is (close now i g)

abbrev pub owners : List Tunnel → List ℕ
owners = map (λ t. t.owner)

-- The tunnels that an answer about a group closes: those of the control plane that is in
-- maintenance as a whole, or those of the group.
abbrev pub condemned : Answer → Group → Gateway → List Tunnel
condemned a gp g = elim a.verdict [
  | granted gr ↦ []
  | refused (maintenance service) ↦ filter (λ t. same_api t.api_base a.api_base) g.live_tunnels
  | refused _ ↦ gp.tunnels
]

abbrev is_refused : Verdict → Bool
is_refused (granted gr) = false
is_refused (refused r) = true

-- What an answer about a group does to the cutoffs (in `verifyFresh`) and to the cache.
unfoldable pub note_answer : Answer → Group → Gateway → Gateway
unfolding record_maintenance
note_answer a gp g = record g {
  maintenance_by_api = record_maintenance (some a) g.maintenance_by_api;
  auth_cache = if is_refused a.verdict then erase gp.token_hash g.auth_cache else g.auth_cache;
}

-- The loop body behind its wait; no verdict changes nothing.
unfoldable pub settle_group : ℕ → Option Answer → Group → Gateway → Gateway
unfolding close_all note_answer
settle_group now none gp g = g
settle_group now (some a) gp g =
    close_all now (owners (condemned a gp (note_answer a gp g))) (note_answer a gp g)

abbrev pub is_live : Gateway → Tunnel → Bool
is_live g t = any (λ u. u.id == t.id) g.live_tunnels

abbrev group_credentials : Group → Credentials
group_credentials gp = record { username = gp.device_id; token = gp.token }

module _ (cfg : Config) (rt : Runtime) (now : ℕ) (ask : Group → Exchange × Exchange) where
  -- The loop body: what the control plane answers about each group enters by `ask`.
  unfoldable pub revalidate_group : Group → Gateway → Gateway
  unfolding settle_group fresh_answer
  revalidate_group gp g =
      if any (is_live g) gp.tunnels
      then settle_group now
          (fresh_answer cfg rt (group_credentials gp) cfg.require_session (or_null gp.api_base)
            (ask gp).0 (ask gp).1)
          gp g
      else g

  unfoldable pub revalidate_groups : List Group → Gateway → Gateway
  unfolding revalidate_group
  revalidate_groups [] g = g
  revalidate_groups (gp ∷ gps) g = revalidate_groups gps (revalidate_group gp g)

  -- The whole run, with nothing else in between; `revalidationRunning` is false again behind it.
  unfoldable pub revalidate : Gateway → Gateway
  unfolding revalidate_groups group_tunnels
  revalidate g =
      if g.revalidation_running
      then g
      else let g' =
          revalidate_groups (group_tunnels [] g.live_tunnels)
            (record g { revalidation_running = true }) in
        record g' { revalidation_running = false }

-- What SIGINT and SIGTERM do to the tunnels.
unfoldable pub shut_down : ℕ → Gateway → Gateway
unfolding close_all
shut_down now g = close_all now (owners g.live_tunnels) g
