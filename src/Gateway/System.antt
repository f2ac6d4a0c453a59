-- ===== src/Gateway/System.antt =====
-- The gateway as a whole: each turn of the event loop is a step, in any order. A handler that waits
-- is cut into the parts between its waits.
pub mod Keeping
pub mod Reachable
pub mod Overrun
use gluk_vpn.Common.{ℕ, String, Bool, false, Option, some, ◌≡◌, get_elem?, Text}
use gluk_vpn.Gateway.Config.{Config}
use gluk_vpn.Gateway.State.{Runtime, Grant, Answer, Handler, Gateway, boot}
use gluk_vpn.Gateway.Credentials.{Credentials}
use gluk_vpn.Gateway.Auth.{verify_cached, verify_settle, auth_cleanup}
use gluk_vpn.Gateway.Shaping.{shaper_cleanup}
use gluk_vpn.Gateway.Target.{Net}
use gluk_vpn.Gateway.Connect.{connect_admit}
use gluk_vpn.Gateway.Tunnels.{connected, client_data, upstream_data, close}
use gluk_vpn.Gateway.Requests.{Url, handle_request, flush_stats}
use gluk_vpn.Gateway.Revalidation.{Group, settle_group}

module _ (cfg : Config) (rt : Runtime) (net : Net) (parse_url : Text → Option Url) where
  pub data Step (g : Gateway) : Gateway → Type 0 where
    hit :
        (c : Credentials) (now : ℕ) (r : Gateway × Answer)
        → verify_cached rt c now g ≡ some r
        → Step g r.0
    settle :
        (c : Credentials) (later : ℕ) (result : Option Answer)
        → Step g (verify_settle rt c later result g).0
    admit :
        (now : ℕ) (creds : Option Credentials) (url : Text) (auth : Answer)
        → Step g (connect_admit cfg net now creds url auth g).0
    -- The callback of `net.connect` runs once.
    connect :
        (now : ℕ) (gr : Grant) (api : Option String) (destroyed : Bool) (head i : ℕ) (h : Handler)
        → get_elem? g.handlers i ≡ some h
        → h.established ≡ false
        → Step g (connected cfg rt now gr api destroyed head i g)
    send : (n i : ℕ) → Step g (client_data n i g)
    receive : (n i : ℕ) → Step g (upstream_data n i g)
    close_one : (now i : ℕ) → Step g (close now i g)
    request :
        (now : ℕ) (is_options : Bool) (target : Text) (creds : Option Credentials) (auth : Answer)
        → Step g (handle_request cfg net parse_url now is_options target creds auth g).0
    flush : Step g (flush_stats cfg g).0
    clean_auth : (now : ℕ) → Step g (auth_cleanup cfg now g)
    clean_shapers : (now : ℕ) → Step g (shaper_cleanup cfg now g)
    revalidate_one : (now : ℕ) (a : Option Answer) (gp : Group) → Step g (settle_group now a gp g)
    flag : (running : Bool) → Step g (record g { revalidation_running = running })

  pub data Reach (g : Gateway) : Gateway → Type 0 where
    here : Reach g g
    next : {h k : Gateway} → Reach g h → Step h k → Reach g k
