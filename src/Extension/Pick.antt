-- ===== src/Extension/Pick.antt =====
-- Automatic server choice, lib/pick.js of the extension. Pings, loads, capacities and peer counts
-- are natural numbers, and a score is a fraction of two of them: the code's floating point score up
-- to rounding.
pub mod Best
pub mod Fallback
use Prim.Native.Nat.{min}
use gluk_vpn.Common.{
  ℕ, String, Bool, true, false, not, ◌&&◌, ◌||◌, Option, none, some, List, [], ◌∷◌, ◌+◌, ◌-◌, ◌*◌,
  ltb, leb, if◌then◌else◌, str_eq, filter,
}

-- A row of the node list. A number that is missing (undefined) is `none`; a null, which the code
-- takes for 0, is `some 0`. `tier` and `status` are in lower case, `country_code` in upper case.
pub record Node : Type 0 where
  pub id : String
  pub online : Option Bool
  pub status : String
  pub connectable : Option Bool
  pub tier : String
  pub country_code : String
  pub load_percent : Option ℕ
  pub capacity : Option ℕ
  pub active_peers : Option ℕ
  pub ping : Option ℕ
  pub host : Option String
  pub browser_proxy_host : Option String
  pub browser_proxy_port : Option ℕ

pub record Options : Type 0 where
  pub pings : String → Option ℕ
  pub prefer_country_code : String
  pub paid : Bool

pub record Fraction : Type 0 where
  pub num : ℕ
  pub den : ℕ

abbrev pub ratio : ℕ → ℕ → Fraction
ratio n d = record { num = n; den = d }

-- `a < b` of fractions with positive denominators.
abbrev pub less : Fraction → Fraction → Bool
less a b = ltb (a.num * b.den) (b.num * a.den)

-- The share of a full load that is taken, `loadPercentOf` / 100.
unfoldable pub load_of : Node → Option Fraction
load_of n = elim n.load_percent [
  | some l ↦ some (ratio (min 100 l) 100)
  | none ↦ elim n.capacity [
    | none ↦ none
    | some c ↦ elim n.active_peers [
      | none ↦ none
      | some p ↦ if ltb 0 c then some (ratio (min c p) c) else none
    ]
  ]
]

unfoldable pub headroom_of : Node → Fraction
headroom_of n = elim n.capacity [
  | none ↦ ratio 6 10
  | some c ↦ elim n.active_peers [
    | none ↦ ratio 6 10
    | some p ↦ if ltb 0 c then ratio (c - p) c else ratio 6 10
  ]
]

unfoldable pub is_premium : Node → Bool
is_premium n = str_eq n.tier "premium" || str_eq n.tier "pro"

abbrev is_false : Option Bool → Bool
is_false (some false) = true
is_false _ = false

unfoldable pub is_node_online : Node → Bool
is_node_online n = not (is_false n.online) && not (str_eq n.status "offline")

unfoldable pub is_node_usable : Bool → Node → Bool
unfolding is_node_online is_premium
is_node_usable paid n =
    is_node_online n && not (is_false n.connectable) && not (is_premium n && not paid)

unfoldable pub ping_of : Options → Node → Option ℕ
ping_of o n = elim (o.pings n.id) [ none ↦ n.ping | some p ↦ some p ]

-- 20 ms is best, 300 ms worst; an unknown ping is mediocre.
unfoldable pub ping_grade : Option ℕ → Fraction
ping_grade none = ratio 55 100
ping_grade (some p) =
    if leb p 20 then ratio 1 1 else if leb 300 p then ratio 0 1 else ratio (300 - p) 280

unfoldable pub load_grade : Option Fraction → Fraction
load_grade none = ratio 6 10
load_grade (some l) = ratio (l.den - l.num) l.den

-- 0.55 a + 0.30 b + 0.15 c
abbrev pub weigh : Fraction → Fraction → Fraction → Fraction
weigh a b c =
    ratio
      (55 * (a.num * (b.den * c.den))
        + 30 * (b.num * (a.den * c.den))
        + 15 * (c.num * (a.den * b.den)))
      (100 * (a.den * (b.den * c.den)))

-- A bonus in hundredths.
abbrev pub add_bonus : ℕ → Fraction → Fraction
add_bonus k a = ratio (100 * a.num + k * a.den) (100 * a.den)

unfoldable pub node_score : Bool → Option ℕ → Node → Fraction
unfolding ping_grade load_grade load_of headroom_of is_premium
node_score paid ping n =
    let score = weigh (ping_grade ping) (load_grade (load_of n)) (headroom_of n) in
    if paid && is_premium n then add_bonus 5 score else score

-- The score with the bonus for the preferred country; both codes are in upper case.
unfoldable pub total_score : Options → Node → Fraction
unfolding node_score ping_of
total_score o n =
    let score = node_score o.paid (ping_of o n) n in
    if not (str_eq o.prefer_country_code "") && str_eq n.country_code o.prefer_country_code
    then add_bonus 6 score
    else score

-- The loop of `bestNode`: a later candidate wins only with a higher score. `none` stands for the
-- start, whose score -1 every candidate beats.
unfoldable pub better : (Node → Fraction) → Option Node → Node → Option Node
better score none n = some n
better score (some b) n = if less (score b) (score n) then some n else some b

unfoldable pub best_of : (Node → Fraction) → Option Node → List Node → Option Node
unfolding better
best_of score best [] = best
best_of score best (n ∷ ns) = best_of score (better score best n) ns

unfoldable pub best_node : Options → List Node → Option Node
unfolding best_of
best_node o ns = best_of (total_score o) none (filter (is_node_usable o.paid) ns)

-- `list.find((node) => nodeId(node) === wanted)`
unfoldable pub find_node : String → List Node → Option Node
find_node wanted [] = none
find_node wanted (n ∷ ns) = if str_eq n.id wanted then some n else find_node wanted ns

pub data Reason : Type 0 where
  manual auto_after_unusable_choice scored no_available_nodes : Reason

pub record Choice : Type 0 where
  pub node : Option Node
  pub reason : Reason
  pub auto : Bool

abbrev auto_reason : Bool → Option Node → Reason
auto_reason wanted none = no_available_nodes
auto_reason true (some n) = auto_after_unusable_choice
auto_reason false (some n) = scored

abbrev automatic : Bool → Option Node → Choice
automatic wanted n = record { node = n; reason = auto_reason wanted n; auto = true }

abbrev usable_choice : Bool → Option Node → Option Node
usable_choice paid none = none
usable_choice paid (some n) = if is_node_usable paid n then some n else none

-- `pickNode`; an empty wanted id is no choice.
unfoldable pub pick_node : Options → List Node → String → Choice
unfolding best_node find_node
pick_node o ns wanted =
    if str_eq wanted ""
    then automatic false (best_node o ns)
    else elim (usable_choice o.paid (find_node wanted ns)) [
      | some n ↦ record { node = some n; reason = manual; auto = false }
      | none ↦ automatic true (best_node o ns)
    ]
