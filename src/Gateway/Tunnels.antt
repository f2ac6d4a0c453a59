-- ===== src/Gateway/Tunnels.antt =====
-- The callbacks of a CONNECT tunnel in server.js: the callback of `net.connect`, the byte
-- counters and `close`. A callback is a function of the position of its call in `handlers`.
pub mod Counting
use gluk_vpn.Common.{
  ℕ, suc, String, Bool, true, false, not, ◌&&◌, ◌||◌, Option, none, some, List, [], ◌∷◌, ◌++◌, ◌+◌,
  ◌-◌, ltb, ◌==◌, if◌then◌else◌, StringMap, lookup, update, filter, get_elem?, set,
}
use gluk_vpn.Gateway.Config.{Config}
use gluk_vpn.Gateway.State.{Runtime, Counters, Totals, Grant, Answer, Handler, Tunnel, Gateway}
use gluk_vpn.Gateway.Auth.{cutoff}
use gluk_vpn.Gateway.Shaping.{shaper_for}
use gluk_vpn.Gateway.Connect.{update_user}

abbrev pub count_up : Counters → Counters
count_up c = record c { connections = c.connections + 1; active = c.active + 1 }

abbrev pub add_tx : ℕ → Counters → Counters
add_tx n c = record c { bytes_tx = c.bytes_tx + n }

abbrev add_rx : ℕ → Counters → Counters
add_rx n c = record c { bytes_rx = c.bytes_rx + n }

-- `stat.bytesTx += n` and its two companions.
unfoldable pub count_tx : ℕ → Handler → Gateway → Gateway
count_tx n h g = record g {
  stats = update h.stat_key (add_tx n) g.stats;
  user_stats = update_user h.user_key (add_tx n) g.user_stats;
  totals = let t = g.totals in record t { bytes_tx = t.bytes_tx + n };
}

unfoldable pub count_rx : ℕ → Handler → Gateway → Gateway
count_rx n h g = record g {
  stats = update h.stat_key (add_rx n) g.stats;
  user_stats = update_user h.user_key (add_rx n) g.user_stats;
  totals = let t = g.totals in record t { bytes_rx = t.bytes_rx + n };
}

-- `liveTunnels.delete(tunnelId)`, unless `tunnelId` is null.
abbrev pub drop_tunnel : Option ℕ → List Tunnel → List Tunnel
drop_tunnel none ts = ts
drop_tunnel (some id) ts = filter (λ t. not (t.id == id)) ts

-- `if (established && stat.active > 0) stat.active -= 1; stat.tokenTouchedAt = Date.now()`
abbrev pub count_down : Bool → ℕ → Counters → Counters
count_down established now c = record c {
  active = if established && ltb 0 c.active then c.active - 1 else c.active;
  token_touched_at = now;
}

abbrev total_down : Bool → Totals → Totals
total_down established t = record t {
  active = if established && ltb 0 t.active then t.active - 1 else t.active;
}

unfoldable pub close_handler : ℕ → ℕ → Handler → Gateway → Gateway
close_handler now i h g = record g {
  handlers = set g.handlers i (record h { closed = true });
  live_tunnels = drop_tunnel h.tunnel_id g.live_tunnels;
  stats = update h.stat_key (count_down h.established now) g.stats;
  user_stats = update_user h.user_key (count_down h.established now) g.user_stats;
  totals = total_down h.established g.totals;
}

-- `close`: only its first call does anything.
unfoldable pub close : ℕ → ℕ → Gateway → Gateway
unfolding close_handler
close now i g = elim (get_elem? g.handlers i) [
  | none ↦ g
  | some h ↦ if h.closed then g else close_handler now i h g
]

module _ (cfg : Config) (rt : Runtime) where
  -- The lines that count a tunnel and list it.
  unfoldable pub establish : Grant → Option String → ℕ → Handler → Gateway → Gateway
  establish gr api i h g = record g {
    stats = update h.stat_key count_up g.stats;
    user_stats = update_user h.user_key count_up g.user_stats;
    totals =
        let t = g.totals in record t { connections = t.connections + 1; active = t.active + 1 };
    next_tunnel_id = suc g.next_tunnel_id;
    live_tunnels = g.live_tunnels ++ tunnel ∷ [];
    handlers =
        set g.handlers i (record h { tunnel_id = some (suc g.next_tunnel_id); established = true });
  }
    where
      tunnel : Tunnel
      tunnel = record {
        id = suc g.next_tunnel_id;
        api_base = api;
        device_id = gr.device_id;
        token_hash = rt.sha256 h.token;
        token = h.token;
        owner = i;
      }

  -- The callback of `net.connect`. `gr` and `api` are what the object `auth` holds by now, which a
  -- later request with the same token may have changed; `destroyed` is the client socket's state,
  -- and `head` the length of what came with the request.
  unfoldable pub connected : ℕ → Grant → Option String → Bool → ℕ → ℕ → Gateway → Gateway
  unfolding establish count_tx close shaper_for
  connected now gr api destroyed head i g = elim (get_elem? g.handlers i) [
    | none ↦ g
    | some h ↦
        if h.closed || destroyed
        then g
        else if ltb now (cutoff g api)
        then close now i g
        else (shaper_for cfg now gr (count_tx head h (establish gr api i h g))).0
  ]

-- The `data` listeners of a tunnel.
unfoldable pub client_data : ℕ → ℕ → Gateway → Gateway
unfolding count_tx
client_data n i g = elim (get_elem? g.handlers i) [
  | none ↦ g
  | some h ↦ if h.established then count_tx n h g else g
]

unfoldable pub upstream_data : ℕ → ℕ → Gateway → Gateway
unfolding count_rx
upstream_data n i g = elim (get_elem? g.handlers i) [
  | none ↦ g
  | some h ↦ if h.established then count_rx n h g else g
]
