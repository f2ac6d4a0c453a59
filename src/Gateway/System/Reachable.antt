-- ===== src/Gateway/System/Reachable.antt =====
-- What holds of the counters in every state that the gateway can reach.
use gluk_vpn.Common.{
  ℕ, String, Bool, true, false, Option, none, some, List, [], ◌∷◌, ◌≡◌, ◌||◌, refl, arith, ap, ltb,
  if◌then◌else◌, get_elem?, Text, codes, text_starts_with, leb, Bool-cases, Option-cases, inl, inr,
}
use gluk_vpn.Gateway.Config.{Config}
use gluk_vpn.Gateway.State.{
  Runtime, Grant, Answer, Handler, Gateway, boot, granted, refused, Verdict,
}
use gluk_vpn.Gateway.Credentials.{Credentials}
use gluk_vpn.Gateway.Auth.{cutoff, verify_cached, verify_settle}
use gluk_vpn.Gateway.Shaping.{shaper_for, shaper_cleanup}
use gluk_vpn.Gateway.Target.{Net, resolve_target}
use gluk_vpn.Gateway.Connect.{
  connect_admit, admit_host, admit_verdict, bare_host, port_allowed, admit_target, active_of,
  remember,
}
use gluk_vpn.Gateway.Tunnels.{connected, client_data, upstream_data}
use gluk_vpn.Gateway.Tunnels.Counting.{Counts, boot-Counts, establish-Counts, close-Counts}
use gluk_vpn.Gateway.Requests.{
  Url, Response, Report, handle_request, handle_control, control_stats, http_forward,
  control_verdict, http_verdict, http_port, no_content, status,
}
use gluk_vpn.Gateway.Revalidation.{Group, settle_group, close_all, note_answer, owners, condemned}
use gluk_vpn.Gateway.System.{
  Step, hit, settle, admit, connect, send, receive, close_one, request, flush, clean_auth,
  clean_shapers, revalidate_one, flag, Reach, here, next,
}
use gluk_vpn.Gateway.System.Keeping.{
  Counts-of_Same, Same-refl, Same-update, remember-Counts, remember-IsKnown, dial-Counts,
  count_tx-Counts, count_rx-Counts, flush-Counts, auth_cleanup-Counts,
}

-- The counted parts of the state are the same.
abbrev pub IsFrame : Gateway → Gateway → Type 0
IsFrame g g' =
    (g'.stats ≡ g.stats)
    × (g'.user_stats ≡ g.user_stats)
    × (g'.totals ≡ g.totals)
    × (g'.handlers ≡ g.handlers)

Counts-of_frame : {g : Gateway} (g' : Gateway) → IsFrame g g' → Counts g → Counts g'
Counts-of_frame {g} g' f v =
    Counts-of_Same g' f.3 (ap (λ t. t.active) f.2) (rw f.0 (Same-refl g.stats))
      (rw f.1 (Same-refl g.user_stats)) v

hit-IsFrame :
    (rt : Runtime) (c : Credentials) (now : ℕ) (r : Gateway × Answer) (g : Gateway)
    → verify_cached rt c now g ≡ some r
    → IsFrame g r.0
unfolding verify_cached
hit-IsFrame rt c now r g e = ground arith

settle-IsFrame :
    (rt : Runtime) (c : Credentials) (later : ℕ) (result : Option Answer) (g : Gateway)
    → IsFrame g (verify_settle rt c later result g).0
unfolding verify_settle
settle-IsFrame rt c later result g = ground arith

pub shaper_for-IsFrame :
    (cfg : Config) (now : ℕ) (gr : Grant) (g : Gateway) → IsFrame g (shaper_for cfg now gr g).0
unfolding shaper_for
shaper_for-IsFrame cfg now gr g = ground arith

shaper_for-Counts :
    (cfg : Config) (now : ℕ) (gr : Grant) {g : Gateway}
    → Counts g
    → Counts (shaper_for cfg now gr g).0
shaper_for-Counts cfg now gr {g} v = Counts-of_frame _ (shaper_for-IsFrame cfg now gr g) v

module _ (cfg : Config) (net : Net) (now : ℕ) where
  target-Counts :
      (gr : Grant) (token : String) (host : Text) (port : ℕ) {g : Gateway}
      → Counts g
      → Counts (admit_target cfg net now gr token host port g).0
  unfolding admit_target
  target-Counts gr token host port {g} v =
      let v' : Counts (remember now gr token g) = remember-Counts now gr token v in
      elim (Bool-cases
        (leb cfg.max_per_device (active_of gr.device_id (remember now gr token g).stats))) [
          | inl full ↦ rw (full, admit_target) v'
          | inr free ↦ elim (Option-cases (resolve_target cfg net (bare_host host))) [
            | inl e ↦ rw (free, e, admit_target) v'
            | inr (a, e) ↦
                rw (free, e, admit_target)
                  (dial-Counts gr token (remember-IsKnown now gr token g) v')
          ]
        ]

  host-Counts :
      (gr : Grant) (token : String) (host : Text) (port : Option ℕ) {g : Gateway}
      → Counts g
      → Counts (admit_host cfg net now gr token host port g).0
  unfolding admit_host
  host-Counts gr token [] port v = v
  host-Counts gr token (c ∷ cs) none v = v
  host-Counts gr token (c ∷ cs) (some port) v = elim (Bool-cases (port_allowed cfg port)) [
    | inl e ↦ rw (e, admit_host) (target-Counts gr token (c ∷ cs) port v)
    | inr e ↦ rw (e, admit_host) v
  ]

  verdict-Counts :
      (creds : Option Credentials) (parts : List Text) (w : Verdict) {g : Gateway}
      → Counts g
      → Counts (admit_verdict cfg net now creds parts w g).0
  unfolding admit_verdict
  verdict-Counts creds parts (refused r) v = v
  verdict-Counts none parts (granted gr) v = v
  verdict-Counts (some c) parts (granted gr) v = host-Counts gr c.token _ _ v

admit-Counts :
    (cfg : Config) (net : Net) (now : ℕ) (creds : Option Credentials) (url : Text) (auth : Answer)
    {g : Gateway}
    → Counts g
    → Counts (connect_admit cfg net now creds url auth g).0
unfolding connect_admit
admit-Counts cfg net now creds url auth v = verdict-Counts cfg net now creds _ auth.verdict v

connected-Counts :
    (cfg : Config) (rt : Runtime) (now : ℕ) (gr : Grant) (api : Option String) (destroyed : Bool)
    (head i : ℕ) (h : Handler) {g : Gateway}
    → get_elem? g.handlers i ≡ some h
    → h.established ≡ false
    → Counts g
    → Counts (connected cfg rt now gr api destroyed head i g)
unfolding connected
connected-Counts cfg rt now gr api destroyed head i h {g} at new v =
    elim (Bool-cases (h.closed || destroyed)) [
      | inl gone ↦ rw (at, connected, gone) v
      | inr live ↦ elim (Bool-cases (ltb now (cutoff g api))) [
        | inl cut ↦ rw (at, connected, live, cut) (close-Counts now i v)
        | inr fine ↦
            rw (at, connected, live, fine)
              (shaper_for-Counts cfg now gr (
                count_tx-Counts head h
                  (establish-Counts cfg rt gr api i h at new (ground arith) v)))
      ]
    ]

send-Counts : (n i : ℕ) {g : Gateway} → Counts g → Counts (client_data n i g)
unfolding client_data
send-Counts n i {g} v = elim (Option-cases (get_elem? g.handlers i)) [
  | inl e ↦ rw (e, client_data) v
  | inr (h, e) ↦ elim (Bool-cases h.established) [
    | inl t ↦ rw (e, client_data, t) (count_tx-Counts n h v)
    | inr t ↦ rw (e, client_data, t) v
  ]
]

receive-Counts : (n i : ℕ) {g : Gateway} → Counts g → Counts (upstream_data n i g)
unfolding upstream_data
receive-Counts n i {g} v = elim (Option-cases (get_elem? g.handlers i)) [
  | inl e ↦ rw (e, upstream_data) v
  | inr (h, e) ↦ elim (Bool-cases h.established) [
    | inl t ↦ rw (e, upstream_data, t) (count_rx-Counts n h v)
    | inr t ↦ rw (e, upstream_data, t) v
  ]
]

close_all-Counts : (now : ℕ) (is : List ℕ) {g : Gateway} → Counts g → Counts (close_all now is g)
unfolding close_all
close_all-Counts now [] v = v
close_all-Counts now (i ∷ is) v = close_all-Counts now is (close-Counts now i v)

settle_group-Counts :
    (now : ℕ) (a : Option Answer) (gp : Group) {g : Gateway}
    → Counts g
    → Counts (settle_group now a gp g)
unfolding settle_group
settle_group-Counts now none gp v = v
settle_group-Counts now (some a) gp {g} v =
    close_all-Counts now (owners (condemned a gp (note_answer a gp g)))
      (Counts-of_frame (note_answer a gp g) (refl, refl, refl, refl) v)

shaper_cleanup-Counts :
    (cfg : Config) (now : ℕ) {g : Gateway} → Counts g → Counts (shaper_cleanup cfg now g)
unfolding shaper_cleanup
shaper_cleanup-Counts cfg now {g} v =
    Counts-of_frame (shaper_cleanup cfg now g) (refl, refl, refl, refl) v

stats-Counts :
    (cfg : Config) (now : ℕ) (gr : Grant) (token : String) {g : Gateway}
    → Counts g
    → Counts (control_stats cfg now gr token g).0
unfolding control_stats
stats-Counts cfg now gr token {g} v =
    Counts-of_Same _ refl refl
      (Same-update gr.device_id _ (remember now gr token g).stats λ c. refl)
      (Same-refl (remember now gr token g).user_stats) (remember-Counts now gr token v)

control-Counts :
    (cfg : Config) (now : ℕ) (creds : Option Credentials) (w : Verdict) {g : Gateway}
    → Counts g
    → Counts (control_verdict cfg now creds w g).0
unfolding control_verdict
control-Counts cfg now creds (refused r) v = v
control-Counts cfg now none (granted gr) v = v
control-Counts cfg now (some c) (granted gr) v = stats-Counts cfg now gr c.token v

forward-Counts :
    (cfg : Config) (net : Net) (now : ℕ) (gr : Grant) (token : String) (u : Url) {g : Gateway}
    → Counts g
    → Counts (http_forward cfg net now gr token u g).0
unfolding http_forward
forward-Counts cfg net now gr token u {g} v = elim (Bool-cases (port_allowed cfg (http_port u))) [
  | inr e ↦ rw (e, http_forward) v
  | inl e ↦ elim (Option-cases (resolve_target cfg net u.hostname)) [
    | inl f ↦ rw (e, f, http_forward) v
    | inr (a, f) ↦
        rw (e, f, http_forward) (shaper_for-Counts cfg now gr (remember-Counts now gr token v))
  ]
]

http-Counts :
    (cfg : Config) (net : Net) (now : ℕ) (creds : Option Credentials) (u : Option Url) (w : Verdict)
    {g : Gateway}
    → Counts g
    → Counts (http_verdict cfg net now creds u w g).0
unfolding http_verdict
http-Counts cfg net now creds u (refused r) v = v
http-Counts cfg net now none u (granted gr) v = v
http-Counts cfg net now (some c) none (granted gr) v = v
http-Counts cfg net now (some c) (some u) (granted gr) v = forward-Counts cfg net now gr c.token u v

-- A conditional whose branches keep the counters keeps them.
choose-Counts :
    (b : Bool) (x y : Gateway × Response × List Report)
    → Counts x.0
    → Counts y.0
    → Counts (if b then x else y).0
choose-Counts true x y p q = p
choose-Counts false x y p q = q

request-Counts :
    (cfg : Config) (net : Net) (parse_url : Text → Option Url) (now : ℕ) (is_options : Bool)
    (target : Text) (creds : Option Credentials) (auth : Answer) {g : Gateway}
    → Counts g
    → Counts (handle_request cfg net parse_url now is_options target creds auth g).0
unfolding handle_request handle_control
request-Counts cfg net parse_url now is_options target creds auth {g} v =
    choose-Counts (text_starts_with target (codes "/__gluk/")) _ _
      (choose-Counts _ (g, no_content, []) _ v
        (choose-Counts _ (g, status 404, []) _ v (control-Counts cfg now creds auth.verdict v)))
      (choose-Counts _ (g, status 400, []) _ v
        (http-Counts cfg net now creds (parse_url target) auth.verdict v))

Step-Counts :
    (cfg : Config) (rt : Runtime) (net : Net) (parse_url : Text → Option Url) {g g' : Gateway}
    → Step cfg rt net parse_url g g'
    → Counts g
    → Counts g'
Step-Counts cfg rt net parse_url (hit c now r e) v =
    Counts-of_frame r.0 (hit-IsFrame rt c now r _ e) v
Step-Counts cfg rt net parse_url (settle c later result) v =
    Counts-of_frame _ (settle-IsFrame rt c later result _) v
Step-Counts cfg rt net parse_url (admit now creds url auth) v =
    admit-Counts cfg net now creds url auth v
Step-Counts cfg rt net parse_url (connect now gr api destroyed head i h at new) v =
    connected-Counts cfg rt now gr api destroyed head i h at new v
Step-Counts cfg rt net parse_url (send n i) v = send-Counts n i v
Step-Counts cfg rt net parse_url (receive n i) v = receive-Counts n i v
Step-Counts cfg rt net parse_url (close_one now i) v = close-Counts now i v
Step-Counts cfg rt net parse_url (request now o target creds auth) v =
    request-Counts cfg net parse_url now o target creds auth v
Step-Counts cfg rt net parse_url flush v = flush-Counts cfg v
Step-Counts cfg rt net parse_url (clean_auth now) v = auth_cleanup-Counts cfg now v
Step-Counts cfg rt net parse_url (clean_shapers now) v = shaper_cleanup-Counts cfg now v
Step-Counts cfg rt net parse_url (revalidate_one now a gp) v = settle_group-Counts now a gp v
Step-Counts cfg rt net parse_url (flag running) v = Counts-of_frame _ (refl, refl, refl, refl) v

-- In every state that the gateway reaches from its start, by any interleaving of its handlers and
-- timers: the connections in progress of each device and of each user, and the total, are the
-- numbers of tunnels that are established and not closed; and every such tunnel's counters exist.
pub Reach-Counts :
    (cfg : Config) (rt : Runtime) (net : Net) (parse_url : Text → Option Url) (g : Gateway)
    → Reach cfg rt net parse_url boot g
    → Counts g
Reach-Counts cfg rt net parse_url g here = boot-Counts
Reach-Counts cfg rt net parse_url g (next r s) =
    Step-Counts cfg rt net parse_url s (Reach-Counts cfg rt net parse_url _ r)
