-- ===== src/Extension/Destination.antt =====
-- Where the service worker connects to: `pickNode` and `gatewayFor` of background.js of the
-- extension. Ports are natural numbers, and 0 stands for one that is missing.
use gluk_vpn.Common.{
  ℕ, String, Bool, true, false, not, ◌&&◌, ◌||◌, Option, none, some, List, [], ◌∷◌, ◌≡◌, ◌≢◌, ◌⊎◌,
  inl, inr, refl, sym, ap, subst, ◌∙◌, arith, ◌==◌, str_eq, Bool-cases, All, if◌then◌else◌, Text,
  codes, is_empty_text,
}
use mathlib.Core.List.{Memᴰ}
use gluk_vpn.Extension.Pick.{Node, Options, is_premium, is_node_usable, pick_node}
use gluk_vpn.Extension.Pick.Best.{NoneUsable}
use gluk_vpn.Extension.Pick.Fallback.{pick_node_lem}
use gluk_vpn.Extension.Pac.{trim, Gateway}

-- The options that `chooseNode(list, preferredId)` leaves to their defaults.
abbrev pub default_options : Options
default_options = record { pings = λ id. none; prefer_country_code = ""; paid = false }

-- `list[0] ?? null`
abbrev pub first_row : List Node → Option Node
first_row [] = none
first_row (n ∷ ns) = some n

abbrev or_else : Option Node → Option Node → Option Node
or_else none b = b
or_else (some a) b = some a

-- `pickNode` of the worker; a preference that is null is the empty id.
unfoldable pub worker_pick : List Node → String → Option Node
worker_pick ns preferred = or_else (pick_node default_options ns preferred).node (first_row ns)

pub record GatewaySettings : Type 0 where
  pub host : Text
  pub port : ℕ
  pub scheme : Text

abbrev paired : ℕ → Bool
paired p = p == 8443 || p == 8444

abbrev pub channel_port : String → ℕ
channel_port channel = if str_eq channel "beta" then 8444 else 8443

abbrev pub number_or_zero : Option ℕ → ℕ
number_or_zero none = 0
number_or_zero (some n) = n

unfoldable pub port_for : ℕ → ℕ → ℕ → ℕ
port_for own advertised saved =
    if not (advertised == 0) && not (paired advertised)
    then advertised
    else if not (saved == 0) && not (paired saved)
    then saved
    else own

abbrev text_or : Text → Text → Text
text_or a b = if is_empty_text a then b else a

abbrev text_of : Option String → Text
text_of none = []
text_of (some s) = codes s

unfoldable pub gateway_for : String → GatewaySettings → Node → Gateway
unfolding port_for
gateway_for channel saved n = record {
  host = text_or (trim saved.host) (text_or (text_of n.browser_proxy_host) (text_of n.host));
  port = port_for (channel_port channel) (number_or_zero n.browser_proxy_port) saved.port;
  scheme = text_or saved.scheme (codes "https");
}

foreign_port :
    (own advertised saved other : ℕ)
    → paired other ≡ true
    → own ≢ other
    → port_for own advertised saved ≢ other
unfolding port_for
foreign_port own advertised saved other h d = ground (arith, h, d)

port_for_cases :
    (own advertised saved : ℕ)
    → (port_for own advertised saved ≡ own)
      ⊎ (port_for own advertised saved ≡ advertised)
      ⊎ (port_for own advertised saved ≡ saved)
unfolding port_for
port_for_cases own advertised saved =
    elim (Bool-cases (not (advertised == 0) && not (paired advertised))) [
      | inl a ↦ inr (inl (rw a refl))
      | inr a ↦ elim (Bool-cases (not (saved == 0) && not (paired saved))) [
        | inl b ↦ inr (inr (rw (a, b) refl))
        | inr b ↦ inl (rw (a, b) refl)
      ]
    ]

-- The channels are not crossed: whatever the node advertises and whatever is saved, the port is
-- never the one of the other channel, and one that is not the channel's own is the node's or the
-- saved one.
pub channels_apart :
    (channel : String) (saved : GatewaySettings) (n : Node)
    → (str_eq channel "beta" ≡ true → (gateway_for channel saved n).port ≢ 8443)
      × (str_eq channel "beta" ≡ false → (gateway_for channel saved n).port ≢ 8444)
      × (((gateway_for channel saved n).port ≡ channel_port channel)
          ⊎ ((gateway_for channel saved n).port ≡ number_or_zero n.browser_proxy_port)
          ⊎ ((gateway_for channel saved n).port ≡ saved.port))
unfolding gateway_for port_for
channels_apart channel saved n = (
  (λ beta.
      foreign_port (channel_port channel) (number_or_zero n.browser_proxy_port) saved.port 8443 refl
        (rw beta (λ e. omega arith))),
  (λ prod.
      foreign_port (channel_port channel) (number_or_zero n.browser_proxy_port) saved.port 8444 refl
        (rw prod (λ e. omega arith))),
  port_for_cases (channel_port channel) _ saved.port,
)

quiet :
    (ns : List Node) (t : Option Node)
    → t ≡ none
    → NoneUsable false ns
    → ((or_else t (first_row ns) ≡ none) × (ns ≡ []))
      ⊎ ((n : Node) × (or_else t (first_row ns) ≡ some n)
          × Memᴰ n ns
          × (NoneUsable false ns ⊎ (is_node_usable false n ≡ true)))
quiet [] t e h = inl (ap (λ u. or_else u none) e, refl)
quiet (n ∷ ns) t e h = inr (n, ap (λ u. or_else u (some n)) e, Memᴰ.head refl, inl h)

-- The worker gives a node whenever the list has one; and while the free plan may use a node of the
-- list, what it gives is one that the free plan may use.
pub worker_pick_lem :
    (ns : List Node) (preferred : String)
    → ((worker_pick ns preferred ≡ none) × (ns ≡ []))
      ⊎ ((n : Node) × (worker_pick ns preferred ≡ some n)
          × Memᴰ n ns
          × (NoneUsable false ns ⊎ (is_node_usable false n ≡ true)))
unfolding worker_pick
worker_pick_lem ns preferred = elim (pick_node_lem default_options ns preferred) [
  | inl (e, h) ↦ quiet ns (pick_node default_options ns preferred).node e h
  | inr (n, h) ↦ inr (n, ap (λ t. or_else t (first_row ns)) h.given, h.listed, inr h.usable)
]

All-at : (P : Node → Type 0) (ns : List Node) (n : Node) → All P ns → Memᴰ n ns → P n
All-at P [] n h m = elim m [ ]
All-at P (x ∷ ns) n h (Memᴰ.head e) = subst P (sym e) h.0
All-at P (x ∷ ns) n h (Memᴰ.tail m) = All-at P ns n h.1 m

usable_not-premium : (n : Node) → is_node_usable false n ≡ true → is_premium n ≡ false
unfolding is_node_usable
usable_not-premium n h = ground arith

-- Premium hardware is never given by the worker while the free plan may use some node of the list,
-- whichever node is preferred and whatever plan the account has.
pub worker_pick_free :
    (ns : List Node) (preferred : String) (m n : Node)
    → Memᴰ m ns
    → is_node_usable false m ≡ true
    → worker_pick ns preferred ≡ some n
    → is_premium n ≡ false
worker_pick_free ns preferred m n listed usable e = elim (worker_pick_lem ns preferred) [
  | inl (none_given, empty) ↦ let bad : none ≡ some n = sym none_given ∙ e in cc
  | inr (r, given, at, inl unusable) ↦
      let bad : is_node_usable false m ≡ false =
        All-at (λ x. is_node_usable false x ≡ false) ns m unusable listed in
      cc
  | inr (r, given, at, inr ok) ↦
      let same : some r ≡ some n = sym given ∙ e in
      let r_n : r ≡ n = cc in subst (λ x. is_premium x ≡ false) r_n (usable_not-premium r ok)
]
