-- ===== src/Gateway/Tunnels/Counting.antt =====
-- The counters of open tunnels agree with the tunnels that are open.
use gluk_vpn.Common.{
  ℕ, suc, String, Bool, true, false, not, ◌&&◌, Option, none, some, List, ◌+◌, ◌-◌, ◌≡◌,
  if◌then◌else◌, StringMap, lookup, lookup-update, update, get_elem?, count, count-set, All,
  All-get, All-set, All-imp, arith, refl, str_eq, eq_iff, Bool-cases, Option-cases, inl, inr,
}
use gluk_vpn.Gateway.Config.{Config}
use gluk_vpn.Gateway.State.{Runtime, Counters, Grant, Handler, Gateway, boot}
use gluk_vpn.Gateway.Connect.{update_user, active_of}
use gluk_vpn.Gateway.Tunnels.{count_up, count_down, close_handler, close, establish}

abbrev pub is_open : Handler → Bool
is_open h = h.established && not h.closed

abbrev pub of_device : String → Handler → Bool
of_device d h = is_open h && str_eq h.stat_key d

abbrev pub user_is : Option String → String → Bool
user_is none d = false
user_is (some u) d = str_eq u d

abbrev pub of_user : String → Handler → Bool
of_user u h = is_open h && user_is h.user_key u

abbrev pub has : String → StringMap Counters → Bool
has k m = elim (lookup k m) [ none ↦ false | some c ↦ true ]

abbrev pub has_user : Option String → StringMap Counters → Bool
has_user none m = true
has_user (some u) m = has u m

-- The counters that a handler refers to exist.
abbrev pub IsKnown : Gateway → Handler → Type 0
IsKnown g h = (has h.stat_key g.stats ≡ true) × (has_user h.user_key g.user_stats ≡ true)

pub record Counts (g : Gateway) : Type 0 where
  pub device : (d : String) → active_of d g.stats ≡ count (of_device d) g.handlers
  pub user : (u : String) → active_of u g.user_stats ≡ count (of_user u) g.handlers
  pub total : g.totals.active ≡ count is_open g.handlers
  pub known : All (IsKnown g) g.handlers

pub boot-Counts : Counts boot
unfolding lookup
boot-Counts = record { device = λ d. refl; user = λ u. refl; total = refl; known = tt }

module _ (k d : String) (m : StringMap Counters) where
  pub active_of-count_up :
      has k m ≡ true
      → active_of d (update k count_up m)
        ≡ (if str_eq k d then active_of d m + 1 else active_of d m)
  active_of-count_up h = ground (arith, lookup-update k d count_up m, eq_iff k d)

  active_of-count_down :
      (established : Bool) (now : ℕ)
      → active_of d (update k (count_down established now) m)
        ≡ (if established && str_eq k d then active_of d m - 1 else active_of d m)
  active_of-count_down established now =
      ground (arith, lookup-update k d (count_down established now) m, eq_iff k d)

  pub has-update : (f : Counters → Counters) → has d (update k f m) ≡ has d m
  has-update f = ground (arith, lookup-update k d f m, eq_iff k d)

active_of-user_up :
    (k : Option String) (d : String) (m : StringMap Counters)
    → has_user k m ≡ true
    → active_of d (update_user k count_up m)
      ≡ (if user_is k d then active_of d m + 1 else active_of d m)
active_of-user_up none d m h = refl
active_of-user_up (some u) d m h = active_of-count_up u d m h

active_of-user_down :
    (k : Option String) (d : String) (m : StringMap Counters) (established : Bool) (now : ℕ)
    → active_of d (update_user k (count_down established now) m)
      ≡ (if established && user_is k d then active_of d m - 1 else active_of d m)
active_of-user_down none d m established now = ground arith
active_of-user_down (some u) d m established now = active_of-count_down u d m established now

has_user-update :
    (k l : Option String) (f : Counters → Counters) (m : StringMap Counters)
    → has_user l (update_user k f m) ≡ has_user l m
has_user-update none l f m = refl
has_user-update (some u) none f m = refl
has_user-update (some u) (some v) f m = has-update u v m f

-- Changes through references keep every handler's counters in place.
known-update :
    (g : Gateway) (hs : List Handler) (k : String) (l : Option String) (f : Counters → Counters)
    → All (IsKnown g) hs
    → All
        (λ h.
          (has h.stat_key (update k f g.stats) ≡ true)
          × (has_user h.user_key (update_user l f g.user_stats) ≡ true))
        hs
known-update g hs k l f = All-imp (IsKnown g) _ hs λ h p. (
  rw (has-update k h.stat_key g.stats f) p.0,
  rw (has_user-update l h.user_key f g.user_stats) p.1,
)

abbrev pub opened : Handler → Gateway → Handler
opened h g = record h { tunnel_id = some (suc g.next_tunnel_id); established = true }

abbrev shut : Handler → Handler
shut h = record h { closed = true }

module _ (cfg : Config) (rt : Runtime) where
  pub establish-Counts :
      (gr : Grant) (api : Option String) (i : ℕ) (h : Handler) {g : Gateway}
      → get_elem? g.handlers i ≡ some h
      → h.established ≡ false
      → h.closed ≡ false
      → Counts g
      → Counts (establish cfg rt gr api i h g)
  unfolding establish
  establish-Counts gr api i h {g} at new live v =
      let here : IsKnown g h = All-get (IsKnown g) g.handlers i v.known at in
      record {
        device = λ d. ground (
          arith,
          v.device d,
          active_of-count_up h.stat_key d g.stats here.0,
          count-set (of_device d) g.handlers i h (opened h g) at,
        );
        user = λ u. ground (
          arith,
          v.user u,
          active_of-user_up h.user_key u g.user_stats here.1,
          count-set (of_user u) g.handlers i h (opened h g) at,
        );
        total = ground (arith, count-set is_open g.handlers i h (opened h g) at);
        known =
            let kept = known-update g g.handlers h.stat_key h.user_key count_up v.known in
            All-set _ g.handlers i (opened h g) kept (All-get _ g.handlers i kept at);
      }

close_handler-Counts :
    (now i : ℕ) (h : Handler) {g : Gateway}
    → get_elem? g.handlers i ≡ some h
    → h.closed ≡ false
    → Counts g
    → Counts (close_handler now i h g)
unfolding close_handler
close_handler-Counts now i h {g} at live v = record {
  device = λ d. ground (
    arith,
    v.device d,
    active_of-count_down h.stat_key d g.stats h.established now,
    count-set (of_device d) g.handlers i h (shut h) at,
  );
  user = λ u. ground (
    arith,
    v.user u,
    active_of-user_down h.user_key u g.user_stats h.established now,
    count-set (of_user u) g.handlers i h (shut h) at,
  );
  total = ground (arith, count-set is_open g.handlers i h (shut h) at);
  known =
      let kept =
        known-update g g.handlers h.stat_key h.user_key (count_down h.established now) v.known in
      All-set _ g.handlers i (shut h) kept (All-get _ g.handlers i kept at);
}

pub close-Counts : (now i : ℕ) {g : Gateway} → Counts g → Counts (close now i g)
unfolding close
close-Counts now i {g} v = elim (Option-cases (get_elem? g.handlers i)) [
  | inl e ↦ rw (e, close) v
  | inr (h, e) ↦ elim (Bool-cases h.closed) [
    | inl done ↦ rw (e, close, done) v
    | inr live ↦ rw (e, close, live) (close_handler-Counts now i h e live v)
  ]
]
