-- ===== src/Gateway/Connect.antt =====
-- The CONNECT proxy, `handleConnect` of server.js: what runs up to the first wait, the
-- callback of `net.connect`, the byte counters, and `close`. A call that dials has an entry in
-- `handlers`, which stands for the variables that its callbacks share.
pub mod Admission
use gluk_vpn.Common.{
  ℕ, suc, String, Bool, true, false, not, ◌&&◌, ◌||◌, Option, none, some, List, [], ◌∷◌, ◌++◌, ◌+◌,
  ◌-◌, ltb, leb, ◌==◌, if◌then◌else◌, StringMap, lookup, update, any, filter, get_elem?, set,
  length, Text, split, drop_first, drop_last, cons_head,
}
use gluk_vpn.Gateway.Config.{Config}
use gluk_vpn.Gateway.State.{
  Runtime, Counters, Totals, Reason, maintenance, token_rejected, Grant, Verdict, granted, refused,
  Answer, Handler, Tunnel, Gateway,
}
use gluk_vpn.Gateway.Credentials.{Credentials, or_null}
use gluk_vpn.Gateway.Counters.{touch}
use gluk_vpn.Gateway.Auth.{cutoff}
use gluk_vpn.Gateway.Shaping.{shaper_for}
use gluk_vpn.Gateway.Target.{Net, resolve_target}

-- What the client is told, or the address and port that are dialled.
pub data Outcome : Type 0 where
  deny : ℕ → Outcome
  dial : Text → ℕ → Handler → Outcome

abbrev pub update_user :
    Option String → (Counters → Counters) → StringMap Counters → StringMap Counters
update_user none f m = m
update_user (some u) f m = update u f m

abbrev pub touch_user : ℕ → Option String → StringMap Counters → StringMap Counters
touch_user now none m = m
touch_user now (some u) m = touch now u m

abbrev pub with_token : ℕ → String → Counters → Counters
with_token now token c = record c { token = some token; token_touched_at = now }

-- `counters`, `userCounters` and the lines behind them, which three handlers share.
unfoldable pub remember : ℕ → Grant → String → Gateway → Gateway
unfolding touch
remember now gr token g = record g {
  stats = update gr.device_id (with_token now token) (touch now gr.device_id g.stats);
  user_stats =
      update_user (or_null gr.user_id) (with_token now token)
        (touch_user now (or_null gr.user_id) g.user_stats);
}

abbrev pub active_of : String → StringMap Counters → ℕ
active_of d m = elim (lookup d m) [ none ↦ 0 | some c ↦ c.active ]

-- `auth.reason === 'maintenance' ? 503 : auth.reason === 'token-rejected' || !credentials ? 407 : 403`
abbrev pub denial_code : Option Credentials → Reason → ℕ
denial_code c (maintenance s) = 503
denial_code c token_rejected = 407
denial_code none _ = 407
denial_code (some c) _ = 403

-- `const [rawHost, rawPort] = String(req.url || '').split(':')`
abbrev pub raw_host : List Text → Text
raw_host [] = []
raw_host (h ∷ ps) = h

-- `Number(rawPort || 443)`
abbrev pub port_of : Net → List Text → Option ℕ
port_of net (h ∷ (c ∷ cs) ∷ ps) = net.to_number (c ∷ cs)
port_of net _ = some 443

abbrev pub port_allowed : Config → ℕ → Bool
port_allowed cfg port = any (λ p. p == port) cfg.allowed_ports

abbrev pub bare_host : Text → Text
bare_host h = drop_last b']' (drop_first b'[' h)

abbrev pub new_handler : Grant → String → Handler
new_handler gr token = record {
  stat_key = gr.device_id;
  user_key = or_null gr.user_id;
  token = token;
  tunnel_id = none;
  established = false;
  closed = false;
}

-- From the connection limit on. `resolve_target` stands behind a wait; the connection counter is
-- read before it.
unfoldable pub admit_target :
    Config → Net → ℕ → Grant → String → Text → ℕ → Gateway → Gateway × Outcome
unfolding remember
admit_target cfg net now gr token host port g =
    let g' = remember now gr token g in
    if leb cfg.max_per_device (active_of gr.device_id g'.stats)
    then (g', deny 429)
    else elim (resolve_target cfg net (bare_host host)) [
      | none ↦ (g', deny 403)
      | some address ↦ (
        record g' { handlers = g'.handlers ++ new_handler gr token ∷ [] },
        dial address port (new_handler gr token),
      )
    ]

-- The check of host and port; a port that is no number is in no list.
unfoldable pub admit_host :
    Config → Net → ℕ → Grant → String → Text → Option ℕ → Gateway → Gateway × Outcome
unfolding admit_target
admit_host cfg net now gr token [] port g = (g, deny 403)
admit_host cfg net now gr token (c ∷ cs) none g = (g, deny 403)
admit_host cfg net now gr token (c ∷ cs) (some port) g =
    if port_allowed cfg port
    then admit_target cfg net now gr token (c ∷ cs) port g
    else (g, deny 403)

-- A grant without credentials does not occur: `verify` refuses where there are none.
unfoldable pub admit_verdict :
    Config → Net → ℕ → Option Credentials → List Text → Verdict → Gateway → Gateway × Outcome
unfolding admit_host
admit_verdict cfg net now creds parts (refused r) g = (g, deny (denial_code creds r))
admit_verdict cfg net now none parts (granted gr) g = (g, deny 407)
admit_verdict cfg net now (some c) parts (granted gr) g =
    admit_host cfg net now gr c.token (raw_host parts) (port_of net parts) g

-- `handleConnect` from the answer of `verify` up to `net.connect`.
unfoldable pub connect_admit :
    Config → Net → ℕ → Option Credentials → Text → Answer → Gateway → Gateway × Outcome
unfolding admit_verdict
connect_admit cfg net now creds url auth g =
    admit_verdict cfg net now creds (split b':' url) auth.verdict g
