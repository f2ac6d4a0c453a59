-- ===== src/Gateway/Credentials.antt =====
-- `extractUserId` and `parseBasic` of server.js. Texts are walked character by
-- character, with the code points of the separators.
use Prim.Native.Char.{Char, code}
use gluk_vpn.Common.{
  ℕ, String, Bool, true, false, ◌&&◌, ◌||◌, Option, none, some, List, [], ◌∷◌, ◌+◌, leb, ◌==◌,
  if◌then◌else◌,
}
use gluk_vpn.Gateway.State.{Runtime}

pub record Credentials : Type 0 where
  pub username : String
  pub token : String

abbrev pub is_empty : String → Bool
is_empty String.[] = true
is_empty (String.◌∷◌ c s) = false

-- The text before the first `sep` and the text behind it; `none` without a `sep`.
unfoldable pub split_first : ℕ → String → Option (String × String)
split_first sep String.[] = none
split_first sep (String.◌∷◌ c s) =
    let rest = split_first sep s in
    if code c == sep
    then some (String.[], s)
    else elim rest [ none ↦ none | some (a, b) ↦ some (String.◌∷◌ c a, b) ]

-- `token.split('.')[1]`
unfoldable pub second_part : String → Option String
unfolding split_first
second_part token = elim (split_first b'.' token) [
  | none ↦ none
  | some (header, rest) ↦ elim (split_first b'.' rest) [ none ↦ some rest | some (p, q) ↦ some p ]
]

-- A text that JavaScript takes for false is `null` after `|| null`.
abbrev pub or_null : Option String → Option String
or_null none = none
or_null (some s) = if is_empty s then none else some s

unfoldable pub extract_user_id : Runtime → String → Option String
unfolding second_part
extract_user_id rt token = elim (or_null (second_part token)) [
  | none ↦ none
  | some part ↦ or_null (rt.payload_sub part)
]

lower_code : ℕ → ℕ
lower_code c = if leb b'A' c && leb c b'Z' then c + 32 else c

-- Drops a prefix that is given in lower case, whatever the case of the text.
strip_prefix : List ℕ → String → Option String
unfolding lower_code
strip_prefix [] s = some s
strip_prefix (p ∷ ps) String.[] = none
strip_prefix (p ∷ ps) (String.◌∷◌ c s) =
    let rest = strip_prefix ps s in if lower_code (code c) == p then rest else none

is_space : Char → Bool
is_space c = code c == 32 || (leb 9 (code c) && leb (code c) 13) || code c == 160

trim_start : String → String
unfolding is_space
trim_start String.[] = String.[]
trim_start (String.◌∷◌ c s) = let rest = trim_start s in if is_space c then rest else String.◌∷◌ c s

trim_end : String → String
unfolding is_space
trim_end String.[] = String.[]
trim_end (String.◌∷◌ c s) =
    let rest = trim_end s in if is_space c && is_empty rest then String.[] else String.◌∷◌ c rest

-- The argument is the value of the `proxy-authorization` header, or of `authorization` without it.
unfoldable pub parse_basic : Runtime → Option String → Option Credentials
unfolding strip_prefix trim_start trim_end split_first
parse_basic rt none = none
parse_basic rt (some header) =
    elim (strip_prefix (b'b' ∷ b'a' ∷ b's' ∷ b'i' ∷ b'c' ∷ 32 ∷ []) header) [
      | none ↦ none
      | some rest ↦ elim (split_first b':' (rt.decode_base64 (trim_end (trim_start rest)))) [
        | none ↦ none
        | some (username, token) ↦
            if is_empty username then none else some (record { username = username; token = token })
      ]
    ]
