-- ===== src/Extension/Store.antt =====
-- The settings that lib/store.js of the extension repairs on each read: `normaliseList` and
-- `mergeSettings`. A stored object is a record of what it may hold, each part possibly missing, and
-- a stored list is one of the two forms that the code accepts.
pub mod Repair
use gluk_vpn.Common.{
  ℕ, String, Bool, true, false, not, ◌&&◌, ◌||◌, Option, none, some, List, [], ◌∷◌, ◌++◌, ◌≡◌, ◌≢◌,
  ◌≤◌, ◌<◌, ◌+◌, ◌*◌, ◌⊎◌, inl, inr, refl, sym, ap, ◌∙◌, arith, ◌==◌, ltb, Bool-cases, All,
  All-append, if◌then◌else◌, any, Text, codes, text_eq, to_lower, before, from, is_empty_text,
}
use gluk_vpn.Extension.Pac.{trim}

pub data StoredList : Type 0 where
  array : List Text → StoredList
  text : Text → StoredList

-- `value.split(/[\r\n,]+/)`: cut at each separator; the empty parts between two are dropped below.
abbrev is_separator : ℕ → Bool
is_separator c = c == 13 || c == 10 || c == b','

abbrev cons_first : ℕ → List Text → List Text
cons_first c [] = (c ∷ []) ∷ []
cons_first c (p ∷ ps) = (c ∷ p) ∷ ps

abbrev parts_of : Text → List Text
parts_of [] = [] ∷ []
parts_of (c ∷ cs) =
    let rest = parts_of cs in if is_separator c then [] ∷ rest else cons_first c rest

abbrev pub raw_list : Option StoredList → List Text
raw_list none = []
raw_list (some (array ts)) = ts
raw_list (some (text t)) = parts_of t

unfoldable pub note_host : List Text → Text → List Text
note_host seen item =
    let trimmed = to_lower (trim item) in
    if is_empty_text trimmed || any (text_eq trimmed) seen then seen else seen ++ trimmed ∷ []

unfoldable pub note_hosts : List Text → List Text → List Text
unfolding note_host
note_hosts seen [] = seen
note_hosts seen (t ∷ ts) = note_hosts (note_host seen t) ts

unfoldable pub normalise_list : Option StoredList → List Text
unfolding note_hosts
normalise_list v = note_hosts [] (raw_list v)

-- What `Number` makes of a stored port: a fraction `n / (d + 1)`, written `ratio n d`, as every
-- finite number that is not negative is one, or a negative number, NaN or an infinity.
pub data JsNumber : Type 0 where
  ratio : ℕ → ℕ → JsNumber
  other : JsNumber

pub record Stored : Type 0 where
  pub channel : Option Text
  pub gateway_host : Option Text
  pub gateway_port : Option JsNumber
  pub gateway_scheme : Option Text
  pub kill_switch : Option Bool
  pub language : Option Text
  pub tunnel_mode : Option Text
  pub site_list : Option StoredList
  pub bypass : Option StoredList
  pub auto_connect : Option Bool
  pub tunnel_incognito : Option Bool

pub record Merged : Type 0 where
  pub channel : Text
  pub gateway_host : Text
  pub gateway_port : JsNumber
  pub gateway_scheme : Text
  pub kill_switch : Bool
  pub language : Text
  pub tunnel_mode : Text
  pub site_list : List Text
  pub bypass : List Text
  pub auto_connect : Bool
  pub tunnel_incognito : Bool

-- `DEFAULT_SETTINGS` under what is stored.
abbrev pub or_default : {A : Type 0} → Option A → A → A
or_default none d = d
or_default (some a) d = a

abbrev pub or_list : Option StoredList → StoredList → Option StoredList
or_list none d = some d
or_list (some l) d = some l

-- `choices.includes(value) ? value : fallback`
abbrev pub one_of : List Text → Text → Text → Text
one_of choices value fallback = if any (text_eq value) choices then value else fallback

abbrev pub tunnel_modes : List Text
tunnel_modes = codes "all" ∷ codes "except" ∷ codes "only" ∷ []

abbrev pub language_choices : List Text
language_choices = codes "auto" ∷ codes "ru" ∷ codes "en" ∷ []

abbrev pub schemes : List Text
schemes = codes "https" ∷ codes "http" ∷ codes "socks5" ∷ []

abbrev pub default_bypass : StoredList
default_bypass = array (
    codes "localhost" ∷ codes "127.0.0.1" ∷ codes "*.local" ∷ codes "10.*" ∷ codes "192.168.*" ∷ [])

-- `Number.isFinite(port) && port > 0 && port < 65536 ? port : 8443`
abbrev pub repair_port : JsNumber → JsNumber
repair_port (ratio n d) = if ltb 0 n && ltb n (65536 * (d + 1)) then ratio n d else ratio 8443 0
repair_port other = ratio 8443 0

unfoldable pub merge_settings : Stored → Merged
unfolding normalise_list
merge_settings s = record {
  channel =
      if text_eq (or_default s.channel (codes "prod")) (codes "beta")
      then codes "beta"
      else codes "prod";
  gateway_host = trim (or_default s.gateway_host []);
  gateway_port = repair_port (or_default s.gateway_port (ratio 8443 0));
  gateway_scheme =
      one_of schemes (to_lower (or_default s.gateway_scheme (codes "https"))) (codes "https");
  kill_switch = or_default s.kill_switch true;
  language = one_of language_choices (or_default s.language (codes "auto")) (codes "auto");
  tunnel_mode = one_of tunnel_modes (or_default s.tunnel_mode (codes "all")) (codes "all");
  site_list = normalise_list (or_list s.site_list (array []));
  bypass = normalise_list (or_list s.bypass default_bypass);
  auto_connect = or_default s.auto_connect false;
  tunnel_incognito = or_default s.tunnel_incognito false;
}
