-- ===== src/Server/Entitlements.antt =====
-- What an account is entitled to: control-server/src/services/entitlements.ts. Moments are
-- milliseconds, plan codes and names are lists of code points, and a missing code is the empty one.
pub mod Window
pub mod Best
use gluk_vpn.Common.{
  ℕ, zero, suc, Bool, true, false, not, ◌&&◌, ◌||◌, Option, none, some, List, [], ◌∷◌, ◌+◌, ◌-◌,
  ◌*◌, ◌/◌, ◌≡◌, leb, ltb, ◌==◌, if◌then◌else◌, filter, Text, text_eq, codes, to_lower,
  is_empty_text,
}
use Prim.Native.String.{String}
use gluk_vpn.Extension.Pac.{trim}

abbrev pub day_ms : ℕ
day_ms = 24 * 60 * 60 * 1000

abbrev pub quota_period_ms : ℕ
quota_period_ms = 30 * day_ms

abbrev pub free_plan_code : Text
free_plan_code = codes "free"

pub record PlanShape : Type 0 where
  pub code : Text
  pub name : Text
  pub tier : ℕ
  pub max_devices : ℕ
  pub max_sessions : ℕ
  pub traffic_gb : Option ℕ
  pub speed_mbps : Option ℕ

abbrev shape : String → String → ℕ → ℕ → ℕ → ℕ → PlanShape
shape code name tier places traffic speed = record {
  code = codes code;
  name = codes name;
  tier = tier;
  max_devices = places;
  max_sessions = places;
  traffic_gb = some traffic;
  speed_mbps = some speed;
}

unfoldable pub free_plan : PlanShape
free_plan = shape "free" "Free" 0 1 5 30

unfoldable pub plan_matrix : List PlanShape
unfolding free_plan
plan_matrix =
    free_plan
    ∷ shape "basic" "Basic" 1 3 50 100
    ∷ shape "pro" "Pro" 2 5 150 250
    ∷ shape "basic_3m" "Basic" 1 3 50 100
    ∷ shape "pro_3m" "Pro" 2 5 150 250
    ∷ shape "basic_trial" "Basic" 1 3 50 100
    ∷ shape "pro_trial" "Pro" 2 5 150 250
    ∷ shape "beta_pro" "β Pro" 2 5 150 250
    ∷ shape "test" "β Pro" 2 5 150 250
    ∷ []

abbrev pub plan_key : Text → Text
plan_key code = to_lower (trim code)

abbrev pub shape_with : Text → List PlanShape → Option PlanShape
shape_with key [] = none
shape_with key (p ∷ ps) =
    let rest = shape_with key ps in if text_eq p.code key then some p else rest

-- `planShape`
unfoldable pub plan_shape : Text → PlanShape
unfolding plan_matrix
plan_shape code = elim (shape_with (plan_key code) plan_matrix) [
  | some p ↦ p
  | none ↦ record free_plan {
    code = if is_empty_text (plan_key code) then free_plan_code else plan_key code;
  }
]

pub data Badge : Type 0 where
  free_badge basic_badge pro_badge beta_badge : Badge

abbrev is_code : Text → String → Bool
is_code key code = text_eq key (codes code)

unfoldable pub plan_badge : Text → Badge
plan_badge code =
    let key = plan_key code in
    if is_code key "beta_pro" || is_code key "test"
    then beta_badge
    else if is_code key "pro" || (is_code key "pro_3m" || is_code key "pro_trial")
    then pro_badge
    else if is_code key "basic" || (is_code key "basic_3m" || is_code key "basic_trial")
    then basic_badge
    else free_badge

abbrev pub badge_priority : Badge → ℕ
badge_priority beta_badge = 1
badge_priority pro_badge = 2
badge_priority basic_badge = 3
badge_priority free_badge = 4

unfoldable pub plan_speed_priority : Text → ℕ
unfolding plan_badge
plan_speed_priority code = badge_priority (plan_badge code)

-- `manual ?? plan ?? null`
unfoldable pub effective_speed_limit : Option ℕ → Option ℕ → Option ℕ
effective_speed_limit none plan = plan
effective_speed_limit (some manual) plan = some manual

unfoldable pub is_grantable_plan_code : Text → Bool
is_grantable_plan_code code =
    not (is_empty_text (plan_key code)) && not (text_eq (plan_key code) free_plan_code)

pub record QuotaPeriod : Type 0 where
  pub index : ℕ
  pub start : ℕ
  pub end : ℕ
  pub anchor : ℕ

-- `quotaPeriod`
unfoldable pub quota_period : ℕ → ℕ → QuotaPeriod
quota_period anchor at = record {
  index = index;
  start = anchor + index * quota_period_ms;
  end = anchor + index * quota_period_ms + quota_period_ms;
  anchor = anchor;
}
  where
    index : ℕ
    index = if leb at anchor then 0 else (at - anchor) / quota_period_ms

pub record Subscription : Type 0 where
  pub user : ℕ
  pub active : Bool
  pub plan : Text
  pub tier : ℕ
  pub created_at : ℕ
  pub expires_at : ℕ

-- `orderBy: { createdAt: "desc" }`
abbrev pub insert_newest : Subscription → List Subscription → List Subscription
insert_newest s [] = s ∷ []
insert_newest s (t ∷ ts) =
    let rest = insert_newest s ts in if leb t.created_at s.created_at then s ∷ t ∷ ts else t ∷ rest

abbrev pub newest_first : List Subscription → List Subscription
newest_first [] = []
newest_first (s ∷ ss) = insert_newest s (newest_first ss)

abbrev pub take : ℕ → List Subscription → List Subscription
take zero ss = []
take (suc n) [] = []
take (suc n) (s ∷ ss) = s ∷ take n ss

abbrev pub is_earlier : ℕ → Text → ℕ → Subscription → Bool
is_earlier user plan created s = s.user == user && (text_eq s.plan plan && ltb s.created_at created)

-- The loop of `chainStart`.
unfoldable pub walk_back : ℕ → List Subscription → ℕ
walk_back anchor [] = anchor
walk_back anchor (s ∷ ss) =
    let rest = walk_back s.created_at ss in
    if ltb (s.expires_at + day_ms) anchor then anchor else rest

unfoldable pub chain_start : List Subscription → ℕ → Text → ℕ → ℕ
unfolding walk_back
chain_start subs user plan created =
    walk_back created (take 36 (newest_first (filter (is_earlier user plan created) subs)))

-- `subscription.findFirst`: the highest tier, then the latest end.
abbrev pub is_running : ℕ → ℕ → Subscription → Bool
is_running user at s =
    s.user == user && (s.active && (ltb at s.expires_at && not (text_eq s.plan free_plan_code)))

abbrev pub is_above : Subscription → Subscription → Bool
is_above s t = ltb t.tier s.tier || (s.tier == t.tier && leb t.expires_at s.expires_at)

abbrev pub better : Subscription → Option Subscription → Option Subscription
better s none = some s
better s (some t) = if is_above s t then some s else some t

unfoldable pub running_plan : ℕ → ℕ → List Subscription → Option Subscription
running_plan user at [] = none
running_plan user at (s ∷ ss) =
    let rest = running_plan user at ss in if is_running user at s then better s rest else rest

-- A row of the plans' table.
pub record PlanRow : Type 0 where
  pub code : Text
  pub name : Text
  pub tier : ℕ
  pub max_devices : ℕ
  pub max_sessions : ℕ
  pub traffic_gb : Option ℕ
  pub speed_mbps : Option ℕ

pub record Account : Type 0 where
  pub created_at : ℕ
  pub speed_limit_mbps : Option ℕ

pub record Entitlement : Type 0 where
  pub plan_code : Text
  pub plan_name : Text
  pub badge : Badge
  pub tier : ℕ
  pub subscribed : Bool
  pub expires_at : Option ℕ
  pub days_left : Option ℕ
  pub max_devices : ℕ
  pub max_sessions : ℕ
  pub traffic_limit_bytes : Option ℕ
  pub speed_limit_mbps : Option ℕ
  pub speed_is_manual : Bool
  pub speed_priority : ℕ
  pub period : QuotaPeriod

abbrev find_row : Text → List PlanRow → Option PlanRow
find_row code [] = none
find_row code (r ∷ rs) = let rest = find_row code rs in if text_eq r.code code then some r else rest

-- A value of the row, or the fallback of the code.
abbrev from_row {ℓ} : {A : Type ℓ} → Option PlanRow → (PlanRow → A) → A → A
from_row none f d = d
from_row (some r) f d = f r

abbrev is_given : Option ℕ → Bool
is_given none = false
is_given (some n) = true

abbrev pub to_bytes : Option ℕ → Option ℕ
to_bytes none = none
to_bytes (some gb) = some (gb * 1024 * 1024 * 1024)

abbrev named : Text → Text → Text
named row_name shape_name = if is_empty_text (trim row_name) then shape_name else row_name

-- `resolveEntitlement`, of the rows it reads.
unfoldable pub entitlement_of :
    Option Account → Option Subscription → List Subscription → List PlanRow → ℕ → ℕ → Entitlement
unfolding plan_shape plan_badge plan_speed_priority effective_speed_limit quota_period chain_start
entitlement_of account active subs rows user at = record {
  plan_code = s.code;
  plan_name = from_row row (λ r. named r.name s.name) s.name;
  badge = plan_badge s.code;
  tier = elim active [ some a ↦ a.tier | none ↦ from_row row (λ r. r.tier) s.tier ];
  subscribed = elim active [ some a ↦ true | none ↦ false ];
  expires_at = elim active [ some a ↦ some a.expires_at | none ↦ none ];
  days_left = elim active [
    | some a ↦ some ((a.expires_at - at + (day_ms - 1)) / day_ms)
    | none ↦ none
  ];
  max_devices = from_row row (λ r. r.max_devices) s.max_devices;
  max_sessions = from_row row (λ r. r.max_sessions) s.max_sessions;
  traffic_limit_bytes = to_bytes (from_row row (λ r. r.traffic_gb) s.traffic_gb);
  speed_limit_mbps = effective_speed_limit manual (from_row row (λ r. r.speed_mbps) s.speed_mbps);
  speed_is_manual = is_given manual;
  speed_priority = plan_speed_priority s.code;
  period = quota_period anchor at;
}
  where
    s : PlanShape
    s = plan_shape (elim active [ some a ↦ a.plan | none ↦ free_plan_code ])

    row : Option PlanRow
    row = find_row s.code rows

    manual : Option ℕ
    manual = elim account [ some u ↦ u.speed_limit_mbps | none ↦ none ]

    anchor : ℕ
    anchor = elim active [
      | some a ↦ chain_start subs user a.plan a.created_at
      | none ↦ elim account [ some u ↦ u.created_at | none ↦ at ]
    ]

unfoldable pub resolve_entitlement :
    Option Account → List Subscription → List PlanRow → ℕ → ℕ → Entitlement
unfolding entitlement_of running_plan
resolve_entitlement account subs rows user at =
    entitlement_of account (running_plan user at subs) subs rows user at
