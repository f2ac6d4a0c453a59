-- ===== src/Gateway/Requests.antt =====
-- The other requests to the gateway: `handleControl`, `handleRequest`, and the reports to
-- the control plane. What is sent to the control
-- plane is a list of reports; whether a report arrives changes nothing in the gateway.
use Prim.Native.Nat.{max}
use gluk_vpn.Common.{
  ℕ, String, Bool, not, ◌&&◌, ◌||◌, Option, none, some, List, [], ◌∷◌, ◌++◌, ◌==◌, ◌≡◌, refl, arith,
  if◌then◌else◌, StringMap, lookup, update, Text, codes, text_eq, text_starts_with, to_lower, split,
}
use gluk_vpn.Gateway.Config.{Config}
use gluk_vpn.Gateway.State.{
  Counters, Reason, maintenance, Grant, Verdict, granted, refused, Answer, Gateway,
}
use gluk_vpn.Gateway.Credentials.{Credentials, or_null}
use gluk_vpn.Gateway.Shaping.{shaper_for}
use gluk_vpn.Gateway.Target.{Net, resolve_target}
use gluk_vpn.Gateway.Connect.{remember, port_allowed}

pub record Report : Type 0 where
  pub api : String
  pub token : String
  pub device_id : String
  pub bytes_rx : ℕ
  pub bytes_tx : ℕ

-- `reportToControlPlane`: nothing is sent without a token or without traffic.
unfoldable pub report : Config → String → String → ℕ → ℕ → List Report
report cfg token device rx tx =
    if rx == 0 && tx == 0
    then []
    else record {
      api = cfg.control_api;
      token = token;
      device_id = device;
      bytes_rx = rx;
      bytes_tx = tx;
    }
      ∷ []

pub record StatsReply : Type 0 where
  pub bytes_rx : ℕ
  pub bytes_tx : ℕ
  pub connections : ℕ
  pub total_connections : ℕ
  pub gateway_active : ℕ
  pub gateway_connections : ℕ

pub data Response : Type 0 where
  no_content : Response
  status : ℕ → Response
  stats_reply : StatsReply → Response
  forward : Text → ℕ → Response

-- A counter of the device and of its user, whichever is higher.
abbrev pub reading : (Counters → ℕ) → Option Counters → Option Counters → ℕ
reading f none none = 0
reading f none (some u) = f u
reading f (some c) none = f c
reading f (some c) (some u) = max (f c) (f u)

abbrev user_entry : Option String → StringMap Counters → Option Counters
user_entry none m = none
user_entry (some u) m = lookup u m

abbrev set_bytes : ℕ → ℕ → Counters → Counters
set_bytes rx tx c = record c { bytes_rx = rx; bytes_tx = tx }

-- `/__gluk/stats` for a device that is let through.
unfoldable pub control_stats :
    Config → ℕ → Grant → String → Gateway → Gateway × Response × List Report
unfolding remember report
control_stats cfg now gr token g =
    let g' = remember now gr token g in
    let mine = lookup gr.device_id g'.stats in
    let user = user_entry (or_null gr.user_id) g'.user_stats in
    let rx = reading (λ c. c.bytes_rx) mine user in
    let tx = reading (λ c. c.bytes_tx) mine user in
    (
      record g' { stats = update gr.device_id (set_bytes rx tx) g'.stats },
      stats_reply (record {
        bytes_rx = rx;
        bytes_tx = tx;
        connections = reading (λ c. c.active) mine user;
        total_connections = reading (λ c. c.connections) mine user;
        gateway_active = g'.totals.active;
        gateway_connections = g'.totals.connections;
      }),
      report cfg token gr.device_id rx tx,
    )

abbrev control_denial : Reason → ℕ
control_denial (maintenance s) = 503
control_denial _ = 401

unfoldable pub control_verdict :
    Config → ℕ → Option Credentials → Verdict → Gateway → Gateway × Response × List Report
unfolding control_stats
control_verdict cfg now creds (refused r) g = (g, status (control_denial r), [])
control_verdict cfg now none (granted gr) g = (g, status 401, [])
control_verdict cfg now (some c) (granted gr) g = control_stats cfg now gr c.token g

-- `handleControl`; `auth` is what `verify` answers where the code calls it.
unfoldable pub handle_control :
    Config
    → ℕ
    → Bool
    → Text
    → Option Credentials
    → Answer
    → Gateway
    → Gateway × Response × List Report
unfolding control_verdict
handle_control cfg now is_options path creds auth g =
    if is_options || text_eq path (codes "/__gluk/ping")
    then (g, no_content, [])
    else if not (text_eq path (codes "/__gluk/stats"))
    then (g, status 404, [])
    else control_verdict cfg now creds auth.verdict g

-- What `new URL` reads from a target: the host name, and the port where one is written.
pub record Url : Type 0 where
  pub hostname : Text
  pub port : Option ℕ

abbrev first_part : List Text → Text
first_part [] = []
first_part (p ∷ ps) = p

abbrev http_denial : Reason → ℕ
http_denial (maintenance s) = 503
http_denial _ = 407

-- `Number(url.port || 80)`
abbrev pub http_port : Url → ℕ
http_port u = elim u.port [ none ↦ 80 | some p ↦ p ]

unfoldable pub http_forward :
    Config → Net → ℕ → Grant → String → Url → Gateway → Gateway × Response × List Report
unfolding remember shaper_for
http_forward cfg net now gr token u g =
    if port_allowed cfg (http_port u)
    then elim (resolve_target cfg net u.hostname) [
      | none ↦ (g, status 403, [])
      | some address ↦
          ((shaper_for cfg now gr (remember now gr token g)).0, forward address (http_port u), [])
    ]
    else (g, status 403, [])

unfoldable pub http_verdict :
    Config
    → Net
    → ℕ
    → Option Credentials
    → Option Url
    → Verdict
    → Gateway
    → Gateway × Response × List Report
unfolding http_forward
http_verdict cfg net now creds url (refused r) g = (g, status (http_denial r), [])
http_verdict cfg net now none url (granted gr) g = (g, status 407, [])
http_verdict cfg net now (some c) none (granted gr) g = (g, status 400, [])
http_verdict cfg net now (some c) (some u) (granted gr) g = http_forward cfg net now gr c.token u g

-- `handleRequest`, up to the request that it makes upstream.
unfoldable pub handle_request :
    Config
    → Net
    → (Text → Option Url)
    → ℕ
    → Bool
    → Text
    → Option Credentials
    → Answer
    → Gateway
    → Gateway × Response × List Report
unfolding handle_control http_verdict
handle_request cfg net parse_url now is_options target creds auth g =
    if text_starts_with target (codes "/__gluk/")
    then handle_control cfg now is_options (first_part (split b'?' target)) creds auth g
    else if not (text_starts_with (to_lower target) (codes "http://"))
    then (g, status 400, [])
    else http_verdict cfg net now creds (parse_url target) auth.verdict g

-- One round of the loop of `flushStatsToControlPlane`.
abbrev flush_entry : Config → String → Counters → Counters × List Report
flush_entry cfg device c = elim c.token [
  | none ↦ (c, [])
  | some token ↦ if c.bytes_rx == c.reported_rx && c.bytes_tx == c.reported_tx then (c, []) else (
    record c { reported_rx = c.bytes_rx; reported_tx = c.bytes_tx },
    report cfg token device c.bytes_rx c.bytes_tx,
  )
]

unfoldable pub flush_entries : Config → StringMap Counters → StringMap Counters × List Report
unfolding report
flush_entries cfg [] = ([], [])
flush_entries cfg ((device, c) ∷ m) =
    let r = flush_entry cfg device c in
    let rest = flush_entries cfg m in ((device, r.0) ∷ rest.0, r.1 ++ rest.1)

unfoldable pub flush_stats : Config → Gateway → Gateway × List Report
unfolding flush_entries
flush_stats cfg g =
    (record g { stats = (flush_entries cfg g.stats).0 }, (flush_entries cfg g.stats).1)

flush_entry-twice :
    (cfg : Config) (device : String) (c : Counters)
    → (flush_entry cfg device (flush_entry cfg device c).0).1 ≡ []
flush_entry-twice cfg device c = ground arith

flush_entries-twice :
    (cfg : Config) (m : StringMap Counters) → (flush_entries cfg (flush_entries cfg m).0).1 ≡ []
unfolding flush_entries
flush_entries-twice cfg [] = refl
flush_entries-twice cfg ((device, c) ∷ m) =
    rw (flush_entry-twice cfg device c) (flush_entries-twice cfg m)

-- A flush marks every counter that it reports: with no traffic in between, a second flush sends
-- nothing.
pub flush_twice : (cfg : Config) (g : Gateway) → (flush_stats cfg (flush_stats cfg g).0).1 ≡ []
unfolding flush_stats
flush_twice cfg g = flush_entries-twice cfg g.stats
