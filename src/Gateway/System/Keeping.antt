-- ===== src/Gateway/System/Keeping.antt =====
-- The operations that open and close no tunnel keep the counters of open tunnels.
use gluk_vpn.Common.{
  ℕ, String, true, Option, none, some, [], ◌∷◌, ◌≡◌, StringMap, lookup, update, map_values,
  lookup-insert, lookup-update, lookup-map_values, All-imp, All-append, count-append, arith, refl,
  ◌∙◌, eq_iff, ◌++◌, Option-cases, inl, inr,
}
use gluk_vpn.Gateway.Config.{Config}
use gluk_vpn.Gateway.State.{Counters, Handler, Gateway, Grant}
use gluk_vpn.Gateway.Counters.{touch, fresh_counters}
use gluk_vpn.Gateway.Connect.{update_user, active_of, touch_user, new_handler, remember}
use gluk_vpn.Gateway.Auth.{auth_cleanup}
use gluk_vpn.Gateway.Requests.{flush_entries, flush_stats}
use gluk_vpn.Gateway.Tunnels.{count_tx, count_rx}
use gluk_vpn.Gateway.Credentials.{or_null}
use gluk_vpn.Gateway.Tunnels.Counting.{
  Counts, has, has_user, IsKnown, of_device, of_user, is_open, has-update,
}

-- The same connections in progress, and no entry lost.
pub record Same (m m' : StringMap Counters) : Type 0 where
  pub actives : (d : String) → active_of d m' ≡ active_of d m
  pub keeps : (d : String) → has d m ≡ true → has d m' ≡ true

pub Same-refl : (m : StringMap Counters) → Same m m
Same-refl m = record { actives = λ d. refl; keeps = λ d h. h }

pub Same-trans : {m n k : StringMap Counters} → Same m n → Same n k → Same m k
Same-trans p q = record {
  actives = λ d. q.actives d ∙ p.actives d;
  keeps = λ d h. q.keeps d (p.keeps d h);
}

pub Same-update :
    (k : String) (f : Counters → Counters) (m : StringMap Counters)
    → ((c : Counters) → (f c).active ≡ c.active)
    → Same m (update k f m)
Same-update k f m same = record {
  actives = λ d. at d (lookup d m) refl;
  keeps = λ d h. ground (arith, lookup-update k d f m);
}
  where
    at :
        (d : String) (o : Option Counters)
        → lookup d m ≡ o
        → active_of d (update k f m) ≡ active_of d m
    at d none e = ground (arith, lookup-update k d f m, e)
    at d (some c) e = ground (arith, lookup-update k d f m, e, same c)

pub Same-update_user :
    (k : Option String) (f : Counters → Counters) (m : StringMap Counters)
    → ((c : Counters) → (f c).active ≡ c.active)
    → Same m (update_user k f m)
Same-update_user none f m same = Same-refl m
Same-update_user (some u) f m same = Same-update u f m same

pub Same-map_values :
    (f : Counters → Counters) (m : StringMap Counters)
    → ((c : Counters) → (f c).active ≡ c.active)
    → Same m (map_values f m)
Same-map_values f m same = record {
  actives = λ d. at d (lookup d m) refl;
  keeps = λ d h. ground (arith, lookup-map_values d f m);
}
  where
    at :
        (d : String) (o : Option Counters)
        → lookup d m ≡ o
        → active_of d (map_values f m) ≡ active_of d m
    at d none e = ground (arith, lookup-map_values d f m, e)
    at d (some c) e = ground (arith, lookup-map_values d f m, e, same c)

pub Same-touch : (now : ℕ) (k : String) (m : StringMap Counters) → Same m (touch now k m)
unfolding touch
Same-touch now k m = elim (Option-cases (lookup k m)) [
  | inl e ↦ record {
    actives = λ d. ground (arith, e, lookup-insert k d (fresh_counters now) m, eq_iff k d);
    keeps = λ d h. ground (arith, e, lookup-insert k d (fresh_counters now) m, eq_iff k d);
  }
  | inr (c, e) ↦ record { actives = λ d. ground (arith, e); keeps = λ d h. ground (arith, e) }
]

pub has-touch : (now : ℕ) (k : String) (m : StringMap Counters) → has k (touch now k m) ≡ true
unfolding touch
has-touch now k m = elim (Option-cases (lookup k m)) [
  | inl e ↦ ground (arith, e, lookup-insert k k (fresh_counters now) m, eq_iff k k)
  | inr (c, e) ↦ ground (arith, e)
]

Same-touch_user :
    (now : ℕ) (k : Option String) (m : StringMap Counters) → Same m (touch_user now k m)
Same-touch_user now none m = Same-refl m
Same-touch_user now (some u) m = Same-touch now u m

has_user-touch_user :
    (now : ℕ) (k : Option String) (f : Counters → Counters) (m : StringMap Counters)
    → has_user k (update_user k f (touch_user now k m)) ≡ true
has_user-touch_user now none f m = refl
has_user-touch_user now (some u) f m = has-update u u (touch now u m) f ∙ has-touch now u m

-- Changes of the two maps, and of nothing else that is counted.
pub Counts-of_Same :
    {g : Gateway} (g' : Gateway)
    → g'.handlers ≡ g.handlers
    → g'.totals.active ≡ g.totals.active
    → Same g.stats g'.stats
    → Same g.user_stats g'.user_stats
    → Counts g
    → Counts g'
Counts-of_Same {g} g' hs ts p q v = record {
  device = λ d. ground (arith, p.actives d, v.device d, hs);
  user = λ u. ground (arith, q.actives u, v.user u, hs);
  total = ground (arith, v.total);
  known = rw hs (
      All-imp (IsKnown g) (IsKnown g') g.handlers
        (λ h k. (p.keeps h.stat_key k.0, keeps_user h.user_key k.1)) v.known);
}
  where
    keeps_user :
        (k : Option String) → has_user k g.user_stats ≡ true → has_user k g'.user_stats ≡ true
    keeps_user none h = refl
    keeps_user (some u) h = q.keeps u h

pub remember-Same :
    (now : ℕ) (gr : Grant) (token : String) (g : Gateway)
    → Same g.stats (remember now gr token g).stats
unfolding remember
remember-Same now gr token g =
    Same-trans (Same-touch now gr.device_id g.stats) (Same-update gr.device_id _ _ λ c. refl)

pub remember-Counts :
    (now : ℕ) (gr : Grant) (token : String) {g : Gateway}
    → Counts g
    → Counts (remember now gr token g)
unfolding remember
remember-Counts now gr token {g} v =
    Counts-of_Same (remember now gr token g) refl refl (remember-Same now gr token g)
      (Same-trans (Same-touch_user now (or_null gr.user_id) g.user_stats)
        (Same-update_user (or_null gr.user_id) _ _ λ c. refl))
      v

-- Behind `remember` the counters that a new tunnel will refer to exist.
pub remember-IsKnown :
    (now : ℕ) (gr : Grant) (token : String) (g : Gateway)
    → IsKnown (remember now gr token g) (new_handler gr token)
unfolding remember
remember-IsKnown now gr token g = (
  has-update gr.device_id gr.device_id (touch now gr.device_id g.stats) _
      ∙ has-touch now gr.device_id g.stats,
  has_user-touch_user now (or_null gr.user_id) _ g.user_stats,
)

pub dial-Counts :
    (gr : Grant) (token : String) {g : Gateway}
    → IsKnown g (new_handler gr token)
    → Counts g
    → Counts (record g { handlers = g.handlers ++ new_handler gr token ∷ [] })
dial-Counts gr token {g} k v = record {
  device = λ d.
      ground (arith, v.device d, count-append (of_device d) g.handlers (new_handler gr token ∷ []));
  user = λ u.
      ground (arith, v.user u, count-append (of_user u) g.handlers (new_handler gr token ∷ []));
  total = ground (arith, v.total, count-append is_open g.handlers (new_handler gr token ∷ []));
  known = All-append _ g.handlers (new_handler gr token ∷ []) v.known (k, tt);
}

pub count_tx-Counts : (n : ℕ) (h : Handler) {g : Gateway} → Counts g → Counts (count_tx n h g)
unfolding count_tx
count_tx-Counts n h {g} v =
    Counts-of_Same (count_tx n h g) refl refl (Same-update h.stat_key _ _ λ c. refl)
      (Same-update_user h.user_key _ _ λ c. refl) v

pub count_rx-Counts : (n : ℕ) (h : Handler) {g : Gateway} → Counts g → Counts (count_rx n h g)
unfolding count_rx
count_rx-Counts n h {g} v =
    Counts-of_Same (count_rx n h g) refl refl (Same-update h.stat_key _ _ λ c. refl)
      (Same-update_user h.user_key _ _ λ c. refl) v

Same-flush : (cfg : Config) (m : StringMap Counters) → Same m (flush_entries cfg m).0
unfolding flush_entries lookup
Same-flush cfg [] = Same-refl []
Same-flush cfg ((k, c) ∷ m) = record {
  actives = λ d. ground (arith, (Same-flush cfg m).actives d);
  keeps = λ d h. ground (arith, (Same-flush cfg m).keeps d);
}

pub flush-Counts : (cfg : Config) {g : Gateway} → Counts g → Counts (flush_stats cfg g).0
unfolding flush_stats
flush-Counts cfg {g} v =
    Counts-of_Same (flush_stats cfg g).0 refl refl (Same-flush cfg g.stats) (Same-refl g.user_stats)
      v

pub auth_cleanup-Counts :
    (cfg : Config) (now : ℕ) {g : Gateway} → Counts g → Counts (auth_cleanup cfg now g)
unfolding auth_cleanup
auth_cleanup-Counts cfg now {g} v =
    Counts-of_Same (auth_cleanup cfg now g) refl refl (Same-map_values _ g.stats λ c. ground arith)
      (Same-map_values _ g.user_stats λ c. ground arith) v
