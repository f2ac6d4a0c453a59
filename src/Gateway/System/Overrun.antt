-- ===== src/Gateway/System/Overrun.antt =====
-- The limit on a device's connections, which is read when a request is admitted and counted when
-- its dial succeeds.
use gluk_vpn.Common.{
  ℕ, String, true, false, Option, none, some, List, [], ◌∷◌, ◌++◌, ◌≡◌, ◌≢◌, ◌≤◌, ◌<◌, ◌+◌, ◌∙◌,
  refl, ap, arith, ltb, leb, get_elem?, set, update, length, Text, get_elem?-set,
  get_elem?-append_self, get_elem?-append_left, length-append, eq_refl,
}
use gluk_vpn.Gateway.Config.{Config}
use gluk_vpn.Gateway.State.{Runtime, Grant, Handler, Gateway}
use gluk_vpn.Gateway.Auth.{cutoff}
use gluk_vpn.Gateway.Shaping.{shaper_for}
use gluk_vpn.Gateway.Target.{Net, resolve_target}
use gluk_vpn.Gateway.Connect.{admit_target, active_of, remember, new_handler, bare_host}
use gluk_vpn.Gateway.Tunnels.{connected, establish, count_tx, count_up, add_tx}
use gluk_vpn.Gateway.Tunnels.Counting.{has, active_of-count_up, has-update, opened}
use gluk_vpn.Gateway.System.Keeping.{Same-update, remember-IsKnown, remember-Same}
use gluk_vpn.Gateway.System.Reachable.{shaper_for-IsFrame}

module _ (cfg : Config) (rt : Runtime) (now : ℕ) (gr : Grant) (api : Option String) (head : ℕ) where
  -- The state behind a dial that succeeds, with the client still there and no maintenance.
  connected_lem :
      (i : ℕ) (h : Handler) (g : Gateway)
      → get_elem? g.handlers i ≡ some h
      → h.closed ≡ false
      → cutoff g api ≤ now
      → connected cfg rt now gr api false head i g
        ≡ (shaper_for cfg now gr (count_tx head h (establish cfg rt gr api i h g))).0
  unfolding connected
  connected_lem i h g at live fine =
      let calm : ltb now (cutoff g api) ≡ false = ground arith in rw (at, connected, live, calm)

  dialled-active :
      (i : ℕ) (h : Handler) (g : Gateway)
      → has h.stat_key g.stats ≡ true
      → active_of h.stat_key
          (shaper_for cfg now gr (count_tx head h (establish cfg rt gr api i h g))).0.stats
        ≡ active_of h.stat_key g.stats + 1
  unfolding establish count_tx
  dialled-active i h g known =
      let frame = shaper_for-IsFrame cfg now gr (count_tx head h (establish cfg rt gr api i h g)) in
      let inner =
        (Same-update h.stat_key (add_tx head) (update h.stat_key count_up g.stats)
            λ c. refl).actives
          h.stat_key in
      let up = active_of-count_up h.stat_key h.stat_key g.stats known in
      ap (active_of h.stat_key) frame.0 ∙ inner ∙ rw eq_refl at up

  dialled-handlers :
      (i : ℕ) (h : Handler) (g : Gateway)
      → (shaper_for cfg now gr (count_tx head h (establish cfg rt gr api i h g))).0.handlers
        ≡ set g.handlers i (opened h g)
  unfolding establish count_tx
  dialled-handlers i h g =
      (shaper_for-IsFrame cfg now gr (count_tx head h (establish cfg rt gr api i h g))).3

  dialled-cutoff :
      (i : ℕ) (h : Handler) (g : Gateway)
      → cutoff (shaper_for cfg now gr (count_tx head h (establish cfg rt gr api i h g))).0 api
        ≡ cutoff g api
  unfolding establish count_tx shaper_for cutoff
  dialled-cutoff i h g = ground arith

  dialled-has :
      (i : ℕ) (h : Handler) (g : Gateway)
      → has h.stat_key
          (shaper_for cfg now gr (count_tx head h (establish cfg rt gr api i h g))).0.stats
        ≡ has h.stat_key g.stats
  unfolding establish count_tx
  dialled-has i h g =
      let frame = shaper_for-IsFrame cfg now gr (count_tx head h (establish cfg rt gr api i h g)) in
      ap (has h.stat_key) frame.0
      ∙ has-update h.stat_key h.stat_key (update h.stat_key count_up g.stats) (add_tx head)
      ∙ has-update h.stat_key h.stat_key g.stats count_up

  -- One more connection of the device.
  pub connected-active :
      (i : ℕ) (h : Handler) (g : Gateway)
      → get_elem? g.handlers i ≡ some h
      → h.closed ≡ false
      → cutoff g api ≤ now
      → has h.stat_key g.stats ≡ true
      → active_of h.stat_key (connected cfg rt now gr api false head i g).stats
        ≡ active_of h.stat_key g.stats + 1
  connected-active i h g at live fine known =
      rw (connected_lem i h g at live fine) (dialled-active i h g known)

  -- Two dials of one device that are in flight together both succeed, whatever the limit: the
  -- connections in progress go up by two.
  two_dials-active :
      (i j : ℕ) (h k : Handler) (g : Gateway)
      → get_elem? g.handlers i ≡ some h
      → get_elem? g.handlers j ≡ some k
      → i ≢ j
      → h.closed ≡ false
      → k.closed ≡ false
      → k.stat_key ≡ h.stat_key
      → cutoff g api ≤ now
      → has h.stat_key g.stats ≡ true
      → active_of h.stat_key
          (connected cfg rt now gr api false head j
            (connected cfg rt now gr api false head i g)).stats
        ≡ active_of h.stat_key g.stats + 2
  two_dials-active i j h k g at at' ne live live' same fine known =
      let g1 = connected cfg rt now gr api false head i g in
      let e = connected_lem i h g at live fine in
      let hs : g1.handlers ≡ set g.handlers i (opened h g) =
        ap (λ (x : Gateway). x.handlers) e ∙ dialled-handlers i h g in
      let there : get_elem? g1.handlers j ≡ some k =
        rw hs (ground (arith, get_elem?-set g.handlers i j (opened h g))) in
      let fine1 : cutoff g1 api ≤ now = rw (e, dialled-cutoff i h g) fine in
      let known1 : has k.stat_key g1.stats ≡ true = rw (e, same) (dialled-has i h g ∙ known) in
      let second : active_of k.stat_key (connected cfg rt now gr api false head j g1).stats
          ≡ active_of k.stat_key g1.stats + 1 =
        connected-active j k g1 there live' fine1 known1 in
      omega (arith, rw same at second, connected-active i h g at live fine known)

module _ (cfg : Config) (net : Net) (now : ℕ) (gr : Grant) (token : String) where
  -- The state behind an admission that dials.
  abbrev queued : Gateway → Gateway
  queued g = record (remember now gr token g) {
    handlers = (remember now gr token g).handlers ++ new_handler gr token ∷ [];
  }

  queued_lem :
      (host address : Text) (port : ℕ) (g : Gateway)
      → resolve_target cfg net (bare_host host) ≡ some address
      → active_of gr.device_id g.stats < cfg.max_per_device
      → (admit_target cfg net now gr token host port g).0 ≡ queued g
  unfolding admit_target
  queued_lem host address port g e room =
      let seen = (remember-Same now gr token g).actives gr.device_id in
      let free : leb cfg.max_per_device (active_of gr.device_id (remember now gr token g).stats)
          ≡ false =
        ground (arith, seen) in
      rw (free, e, admit_target)

  remember-handlers : (g : Gateway) → (remember now gr token g).handlers ≡ g.handlers
  unfolding remember
  remember-handlers g = refl

  queued-cutoff : (g : Gateway) (api : Option String) → cutoff (queued g) api ≡ cutoff g api
  unfolding remember cutoff
  queued-cutoff g none = refl
  queued-cutoff g (some a) = refl

at_end :
    (hs : List Handler) (nh : Handler)
    → get_elem? ((hs ++ nh ∷ []) ++ nh ∷ []) (length hs + 1) ≡ some nh
at_end hs nh =
    let e : length (hs ++ nh ∷ []) ≡ length hs + 1 = length-append hs (nh ∷ []) in
    rw (← e) (get_elem?-append_self (hs ++ nh ∷ []) [] nh)

-- The limit is not kept under concurrency. With one connection left, two requests of one device to
-- allowed targets that arrive before the first dial succeeds are both admitted, and when both dials
-- succeed the device has more connections than the limit.
pub limit_overrun :
    (cfg : Config) (rt : Runtime) (net : Net) (now head port : ℕ) (gr : Grant) (api : Option String)
    (token : String) (host address : Text) (g : Gateway)
    → resolve_target cfg net (bare_host host) ≡ some address
    → active_of gr.device_id g.stats + 1 ≡ cfg.max_per_device
    → cutoff g api ≤ now
    → let n = length g.handlers in
      let g1 = (admit_target cfg net now gr token host port g).0 in
      let g2 = (admit_target cfg net now gr token host port g1).0 in
      let g3 = connected cfg rt now gr api false head n g2 in
      let g4 = connected cfg rt now gr api false head (n + 1) g3 in
      cfg.max_per_device < active_of gr.device_id g4.stats
limit_overrun cfg rt net now head port gr api token host address g e last fine =
    let nh = new_handler gr token in
    let q = queued cfg net now gr token in
    let seen : active_of gr.device_id (q g).stats ≡ active_of gr.device_id g.stats =
      (remember-Same now gr token g).actives gr.device_id in
    let seen2 : active_of gr.device_id (q (q g)).stats ≡ active_of gr.device_id (q g).stats =
      (remember-Same now gr token (q g)).actives gr.device_id in
    let first = queued_lem cfg net now gr token host address port g e (omega arith) in
    let second = queued_lem cfg net now gr token host address port (q g) e (omega arith) in
    let hs : (q (q g)).handlers ≡ (g.handlers ++ nh ∷ []) ++ nh ∷ [] =
      rw (remember-handlers cfg net now gr token (q g), remember-handlers cfg net now gr token g) in
    let calm : cutoff (q (q g)) api ≤ now =
      rw (queued-cutoff cfg net now gr token (q g) api, queued-cutoff cfg net now gr token g api)
        fine in
    let two =
      two_dials-active cfg rt now gr api head (length g.handlers) (length g.handlers + 1) nh nh
        (q (q g))
        (rw hs (
          get_elem?-append_left (g.handlers ++ nh ∷ []) (nh ∷ []) (length g.handlers)
            (get_elem?-append_self g.handlers [] nh)))
        (rw hs (at_end g.handlers nh)) (omega arith) refl refl refl calm
        (remember-IsKnown now gr token (q g)).0 in
    rw (first, second) (omega (arith, two))
