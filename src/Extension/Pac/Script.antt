-- ===== src/Extension/Pac/Script.antt =====
-- `FindProxyForURL` of the script that `buildPac` writes.
use gluk_vpn.Common.{
  ℕ, Bool, false, not, ◌&&◌, ◌||◌, List, [], ◌∷◌, ◌+◌, ◌-◌, ltb, leb, ◌==◌, if◌then◌else◌, length,
  Text, codes, text_eq, text_starts_with, contains_code, to_lower, drop, is_empty_text,
}
use gluk_vpn.Extension.Pac.{Browser, is_only, is_except, Pac, Route, direct, via}

-- The second part of a 172 address, with the dot behind it: `(1[6-9]|2[0-9]|3[01])\.`.
abbrev private_172 : Text → Bool
private_172 (a ∷ b ∷ c ∷ cs) =
    ((a == b'1' && leb b'6' b && leb b b'9')
      || (a == b'2' && leb b'0' b && leb b b'9')
      || (a == b'3' && (b == b'0' || b == b'1')))
    && c == b'.'
private_172 _ = false

unfoldable pub is_local : Browser → Text → Bool
is_local br host =
    br.is_plain_host_name host
    || text_eq host (codes "localhost")
    || text_eq host (codes "127.0.0.1")
    || text_eq host (codes "::1")
    || text_starts_with host (codes "10.")
    || text_starts_with host (codes "192.168.")
    || text_starts_with host (codes "169.254.")
    || (text_starts_with host (codes "172.") && private_172 (drop 4 host))

-- `text.slice(-k)`, for `k` from 1 to the length.
abbrev pub slice_end : ℕ → Text → Text
slice_end k t = drop (length t - k) t

-- `rule.charAt(0) === '.'`
abbrev pub is_dotted : Text → Bool
is_dotted [] = false
is_dotted (c ∷ cs) = c == b'.'

-- The tests of one rule, which is not empty.
unfoldable pub covers : Browser → Text → Text → Bool
covers br host rule =
    text_eq host rule
    || (contains_code b'*' rule && br.sh_exp_match host rule)
    || (is_dotted rule
        && (ltb (length rule) (length host) && text_eq (slice_end (length rule) host) rule))
    || (not (is_dotted rule)
        && (ltb (length rule + 1) (length host)
            && text_eq (slice_end (length rule + 1) host) (b'.' ∷ rule)))

unfoldable pub matches : Browser → Text → List Text → Bool
unfolding covers
matches br host [] = false
matches br host (rule ∷ rules) =
    (not (is_empty_text rule) && covers br host rule) || matches br host rules

unfoldable pub find_proxy : Browser → Pac → Text → Route
unfolding is_local matches
find_proxy br pac url_host =
    let host = to_lower url_host in
    if is_local br host
    then direct
    else if matches br host pac.direct_list
    then direct
    else if is_except pac.mode && matches br host pac.site_list
    then direct
    else if is_only pac.mode && not (matches br host pac.site_list)
    then direct
    else via pac.tunnel
