-- ===== src/Extension/Pac.antt =====
-- Which requests go through the gateway: lib/proxy.js of the extension. The script that `buildPac`
-- writes is taken as the function that it defines, `find_proxy`, over the record of what is
-- printed into it. `Browser` stands for the two functions that the browser gives such a script.
pub mod Script
pub mod Rules
pub mod Direct
pub mod Layers
use gluk_vpn.Common.{
  ℕ, zero, suc, Bool, true, false, not, ◌&&◌, ◌||◌, Option, none, some, List, [], ◌∷◌, ◌+◌, ◌-◌,
  ◌++◌, ltb, leb, ◌==◌, if◌then◌else◌, any, filter, map, length, Text, codes, text_eq,
  text_starts_with, contains_code, to_lower, drop, before, from, is_empty_text,
}

pub record Browser : Type 0 where
  pub is_plain_host_name : Text → Bool
  pub sh_exp_match : Text → Text → Bool

pub data Mode : Type 0 where
  all only except : Mode

pub data Keyword : Type 0 where
  https proxy socks5 : Keyword

pub record Gateway : Type 0 where
  pub host : Text
  pub port : ℕ
  pub scheme : Text

pub record Settings : Type 0 where
  pub gateway : Gateway
  pub api_hosts : List Text
  pub bypass : List Text
  pub site_list : List Text
  pub tunnel_mode : Text
  pub kill_switch : Bool
  pub tunnel_incognito : Bool

-- `HTTPS host:port`, and whether `; DIRECT` stands behind it.
pub record Line : Type 0 where
  pub keyword : Keyword
  pub host : Text
  pub port : ℕ
  pub fallback : Bool

pub record Pac : Type 0 where
  pub direct_list : List Text
  pub site_list : List Text
  pub mode : Mode
  pub tunnel : Line

pub data Route : Type 0 where
  direct : Route
  via : Line → Route

-- White space of `trim`, up to U+00A0.
abbrev is_space : ℕ → Bool
is_space c = (leb 9 c && leb c 13) || c == 32 || c == 160

abbrev pub not_space : ℕ → Bool
not_space c = not (is_space c)

abbrev pub trim_end : Text → Text
trim_end [] = []
trim_end (c ∷ cs) =
    let rest = trim_end cs in if is_space c && is_empty_text rest then [] else c ∷ rest

abbrev pub trim : Text → Text
trim cs = trim_end (from not_space cs)

abbrev or_port : ℕ → ℕ
or_port p = if p == 0 then 8443 else p

abbrev keyword_of : Text → Keyword
keyword_of s =
    if text_eq s (codes "http") then proxy else if text_eq s (codes "socks5") then socks5 else https

abbrev scheme_of : Text → Text
scheme_of s = if is_empty_text s then codes "https" else to_lower s

unfoldable pub proxy_line : Gateway → Bool → Option Line
proxy_line g fallback =
    if is_empty_text (trim g.host)
    then none
    else some (record {
      keyword = keyword_of (scheme_of g.scheme);
      host = trim g.host;
      port = or_port g.port;
      fallback = fallback;
    })

-- `[a-z0-9+.-]`
abbrev is_scheme_char : ℕ → Bool
is_scheme_char c =
    (leb b'a' c && leb c b'z') || (leb b'0' c && leb c b'9') || c == b'+' || c == b'.' || c == b'-'

abbrev strip_scheme : Text → Text
strip_scheme cs =
    let rest = from (λ c. not (is_scheme_char c)) cs in
    if not (is_empty_text (before (λ c. not (is_scheme_char c)) cs))
      && text_starts_with rest (codes "://")
    then drop 3 rest
    else cs

-- `rule.replace(/^[^/@]*@/, '')`
abbrev strip_user : Text → Text
strip_user cs =
    let rest = from (λ c. c == b'/' || c == b'@') cs in
    if text_starts_with rest (codes "@") then drop 1 rest else cs

abbrev strip_path : Text → Text
strip_path cs = before (λ c. c == b'#') (before (λ c. c == b'?') (before (λ c. c == b'/') cs))

abbrev strip_port : Text → Text
strip_port cs = if contains_code b']' cs then cs else before (λ c. c == b':') cs

unfoldable pub clean_host_rule : Text → Text
clean_host_rule value =
    trim (strip_port (strip_path (strip_user (strip_scheme (to_lower (trim value))))))

-- `list.add(clean)` on a `Set`, for a text that is not empty.
unfoldable pub add_rule : List Text → Text → List Text
unfolding clean_host_rule
add_rule list value =
    let clean = clean_host_rule value in
    if is_empty_text clean || any (text_eq clean) list then list else list ++ clean ∷ []

unfoldable pub add_rules : List Text → List Text → List Text
unfolding add_rule
add_rules list [] = list
add_rules list (v ∷ vs) = add_rules (add_rule list v) vs

-- The set, in the order of insertion.
unfoldable pub always_direct : Settings → List Text
unfolding add_rules
always_direct s = add_rules (add_rule (add_rules [] s.api_hosts) s.gateway.host) s.bypass

abbrev pub mode_of : Text → Mode
mode_of t =
    if text_eq t (codes "only") then only else if text_eq t (codes "except") then except else all

abbrev pub is_only : Mode → Bool
is_only only = true
is_only _ = false

abbrev pub is_except : Mode → Bool
is_except except = true
is_except _ = false

abbrev pub with_line : Settings → Option Line → Option Pac
with_line s none = none
with_line s (some line) = some (record {
  direct_list = always_direct s;
  site_list = filter (λ r. not (is_empty_text r)) (map clean_host_rule s.site_list);
  mode = mode_of s.tunnel_mode;
  tunnel = line;
})

-- No line is the exception "Gateway host is not configured".
unfoldable pub build_pac : Settings → Option Pac
unfolding proxy_line always_direct clean_host_rule
build_pac s =
    with_line s
      (proxy_line s.gateway (not (s.kill_switch && not (is_only (mode_of s.tunnel_mode)))))
