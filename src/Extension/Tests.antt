-- ===== src/Extension/Tests.antt =====
-- Runs of the extension at concrete inputs, and its theorems there.
use gluk_vpn.Common.{
  ℕ, String, Bool, true, false, none, some, [], ◌∷◌, ◌≡◌, ◌↔◌, ◌≢◌, refl, sym, ◌∙◌, Text, codes,
}
use gluk_vpn.Extension.Pick.{is_premium}
use gluk_vpn.Extension.Destination.{
  GatewaySettings, port_for, gateway_for, worker_pick, worker_pick_free,
}
use gluk_vpn.Extension.Store.{
  ratio, Stored, text, note_host, note_hosts, normalise_list, merge_settings,
}
use gluk_vpn.Extension.Store.Repair.{IsRepaired, merge_settings-IsRepaired}
use mathlib.Core.List.{Memᴰ}
use gluk_vpn.Extension.Pac.{
  Browser, Mode, all, only, https, direct, Gateway, Settings, Line, Pac, via, proxy_line,
  clean_host_rule, add_rule, add_rules, always_direct, build_pac,
}
use gluk_vpn.Extension.Pac.Script.{is_local, covers, matches, find_proxy}
use gluk_vpn.Extension.Pac.Rules.{Covers, matches_lem}
use gluk_vpn.Extension.Pac.Direct.{kept_out}
use gluk_vpn.Extension.Pac.Layers.{Layers, apply, IsApplied, apply_lem}
use gluk_vpn.Extension.Pick.{
  Node, Options, is_node_usable, ping_of, node_score, total_score, better, best_of, best_node,
  find_node, pick_node, manual, auto_after_unusable_choice,
}
use gluk_vpn.Extension.Pick.Fallback.{Answers, pick_node_lem}

abbrev row : String → String → String → ℕ → ℕ → Node
row id status tier load ping = record {
  id = id;
  online = none;
  status = status;
  connectable = none;
  tier = tier;
  country_code = "";
  load_percent = some load;
  capacity = none;
  active_peers = none;
  ping = some ping;
  host = none;
  browser_proxy_host = none;
  browser_proxy_port = none;
}

abbrev free_plan : Options
free_plan = record { pings = λ id. none; prefer_country_code = ""; paid = false }

abbrev far : Node
far = row "far" "online" "free" 10 95

abbrev near : Node
near = row "near" "online" "free" 10 50

abbrev full : Node
full = row "near" "online" "free" 100 50

abbrev down : Node
down = row "down" "offline" "free" 0 10

abbrev premium : Node
premium = row "premium" "online" "premium" 0 10

-- A node with 50 ms of ping wins over one with 95 ms, and loses to it once it is full.
nearest : best_node free_plan (far ∷ near ∷ down ∷ premium ∷ []) ≡ some near
unfolding best_node best_of better total_score node_score is_node_usable ping_of
nearest = refl

fullest : best_node free_plan (far ∷ full ∷ []) ≡ some far
unfolding best_node best_of better total_score node_score is_node_usable ping_of
fullest = refl

wanted :
    pick_node free_plan (near ∷ far ∷ []) "far"
    ≡ record { node = some far; reason = manual; auto = false }
unfolding pick_node find_node is_node_usable
wanted = refl

unwanted :
    pick_node free_plan (near ∷ premium ∷ []) "premium"
    ≡ record { node = some near; reason = auto_after_unusable_choice; auto = true }
unfolding pick_node find_node is_node_usable best_node best_of better
unwanted = refl

pick_node_lem_example :
    Answers free_plan
      (near ∷ premium ∷ far ∷ [])
      "premium"
      (pick_node free_plan (near ∷ premium ∷ far ∷ []) "premium")
pick_node_lem_example = pick_node_lem free_plan (near ∷ premium ∷ far ∷ []) "premium"

abbrev browser : Browser
browser = record { is_plain_host_name = λ h. false; sh_exp_match = λ h r. false }

abbrev gateway : Gateway
gateway = record { host = codes " de-01.gluk.tech "; port = 0; scheme = codes "https" }

abbrev settings : String → Bool → Settings
settings mode kill = record {
  gateway = gateway;
  api_hosts = codes "https://api.gluk.tech:8081/v1" ∷ [];
  bypass = codes "*.bank.example" ∷ [];
  site_list = codes "YouTube.com" ∷ codes "" ∷ [];
  tunnel_mode = codes mode;
  kill_switch = kill;
  tunnel_incognito = false;
}

abbrev line : Bool → Line
line fallback = record {
  keyword = https;
  host = codes "de-01.gluk.tech";
  port = 8443;
  fallback = fallback;
}

abbrev pac : Mode → Bool → Pac
pac mode fallback = record {
  direct_list = codes "api.gluk.tech" ∷ codes "de-01.gluk.tech" ∷ codes "*.bank.example" ∷ [];
  site_list = codes "youtube.com" ∷ [];
  mode = mode;
  tunnel = line fallback;
}

built : build_pac (settings "all" true) ≡ some (pac all false)
unfolding build_pac proxy_line always_direct add_rules add_rule clean_host_rule
built = refl

built-only : build_pac (settings "only" true) ≡ some (pac only true)
unfolding build_pac proxy_line always_direct add_rules add_rule clean_host_rule
built-only = refl

with_user : clean_host_rule (codes "FTP://me@Host.example:21/x?y") ≡ codes "host.example"
unfolding clean_host_rule
with_user = refl

tunnelled : find_proxy browser (pac all false) (codes "Example.org") ≡ via (line false)
unfolding find_proxy is_local matches covers
tunnelled = refl

listed_site : find_proxy browser (pac only true) (codes "m.youtube.com") ≡ via (line true)
unfolding find_proxy is_local matches covers
listed_site = refl

clean_api : clean_host_rule (codes "https://api.gluk.tech:8081/v1") ≡ codes "api.gluk.tech"
unfolding clean_host_rule
clean_api = refl

kept_out_example : find_proxy browser (pac all false) (codes "API.gluk.tech") ≡ direct
kept_out_example =
    kept_out browser (settings "all" true) (pac all false) (codes "API.gluk.tech")
      (codes "https://api.gluk.tech:8081/v1") built (Memᴰ.head refl)
      (λ e. let bad : codes "api.gluk.tech" ≡ [] = sym clean_api ∙ e in cc) (sym clean_api)

matches_lem_example :
    (matches browser (codes "m.youtube.com") (codes "youtube.com" ∷ []) ≡ true) ↔ (
      (rule : Text) × Memᴰ rule (codes "youtube.com" ∷ [])
      × (rule ≢ [])
      × Covers browser (codes "m.youtube.com") rule)
matches_lem_example = matches_lem browser (codes "m.youtube.com") (codes "youtube.com" ∷ [])

abbrev untouched : Layers
untouched = record {
  regular = none;
  regular_only = none;
  incognito_persistent = none;
  credentials = none;
}

applied : (apply (λ sc. true) (settings "all" true) untouched).1 ≡ some (pac all false)
unfolding apply build_pac proxy_line always_direct add_rules add_rule clean_host_rule
applied = refl

apply_lem_example :
    IsApplied
      (λ sc. true)
      (settings "all" true)
      (pac all false)
      untouched
      (apply (λ sc. true) (settings "all" true) untouched).0
apply_lem_example = apply_lem (λ sc. true) (settings "all" true) untouched (pac all false) applied

abbrev no_gateway_saved : GatewaySettings
no_gateway_saved = record { host = []; port = 8443; scheme = [] }

-- A port of the other channel that is still saved does not count.
stale_port : (gateway_for "beta" no_gateway_saved near).port ≡ 8444
unfolding gateway_for port_for
stale_port = refl

worker_choice : worker_pick (near ∷ premium ∷ []) "premium" ≡ some near
unfolding worker_pick pick_node find_node is_node_usable best_node best_of better
worker_choice = refl

near_usable : is_node_usable false near ≡ true
unfolding is_node_usable
near_usable = refl

worker_pick_free_example : is_premium near ≡ false
worker_pick_free_example =
    worker_pick_free (near ∷ premium ∷ []) "premium" near near (Memᴰ.head refl) near_usable
      worker_choice

abbrev stored : Stored
stored = record {
  channel = some (codes "dev");
  gateway_host = none;
  gateway_port = some (ratio 70000 0);
  gateway_scheme = some (codes "FTP");
  kill_switch = none;
  language = none;
  tunnel_mode = some (codes "only");
  site_list = some (text (codes "A.org, b.org,,a.org"));
  bypass = none;
  auto_connect = none;
  tunnel_incognito = none;
}

tidied : (merge_settings stored).site_list ≡ codes "a.org" ∷ codes "b.org" ∷ []
unfolding merge_settings normalise_list note_hosts note_host
tidied = refl

merge_settings-IsRepaired_example : IsRepaired (merge_settings stored)
merge_settings-IsRepaired_example = merge_settings-IsRepaired stored
