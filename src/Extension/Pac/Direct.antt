-- ===== src/Extension/Pac/Direct.antt =====
-- Who stays out of the tunnel: the control plane's hosts, and in the mode `only` all but the sites.
use gluk_vpn.Common.{
  Bool, true, false, not, ◌&&◌, ◌||◌, Option, none, some, List, [], ◌∷◌, ◌++◌, ◌≡◌, ◌≢◌, inl, inr,
  refl, sym, ap, subst, ◌∙◌, arith, Bool-cases, if◌then◌else◌, any, filter, map, Text, text_eq,
  text_eq_lem, to_lower, is_empty_text,
}
use mathlib.Core.List.{Memᴰ}
use mathlib.Core.List.Memᴰ
use gluk_vpn.Extension.Pac.{
  Browser, only, is_only, Settings, Line, Pac, Gateway, with_line, trim, Route, direct, via,
  proxy_line, clean_host_rule, add_rule, add_rules, always_direct, build_pac, mode_of,
}
use gluk_vpn.Extension.Pac.Script.{matches, find_proxy, is_local}
use gluk_vpn.Extension.Pac.Rules.{Covers, matches_lem}

any-Memᴰ : (t : Text) (xs : List Text) → any (text_eq t) xs ≡ true → Memᴰ t xs
any-Memᴰ t [] h = cc
any-Memᴰ t (x ∷ xs) h = elim (Bool-cases (text_eq t x)) [
  | inl e ↦ Memᴰ.head ((text_eq_lem t x).0 e)
  | inr e ↦ Memᴰ.tail (any-Memᴰ t xs (ground (arith, e)))
]

add_rule_keeps : (t : Text) (xs : List Text) (v : Text) → Memᴰ t xs → Memᴰ t (add_rule xs v)
unfolding add_rule
add_rule_keeps t xs v m =
    elim (Bool-cases (is_empty_text (clean_host_rule v) || any (text_eq (clean_host_rule v)) xs)) [
      | inl e ↦ rw e m
      | inr e ↦ rw e (Memᴰ.append_left _ m)
    ]

is_empty_false : (t : Text) → t ≢ [] → is_empty_text t ≡ false
is_empty_false [] h = elim (h refl) [ ]
is_empty_false (c ∷ t) h = refl

add_rule_adds :
    (xs : List Text) (v : Text) → clean_host_rule v ≢ [] → Memᴰ (clean_host_rule v) (add_rule xs v)
unfolding add_rule
add_rule_adds xs v some_rule = elim (Bool-cases (any (text_eq (clean_host_rule v)) xs)) [
  | inl e ↦ rw (is_empty_false (clean_host_rule v) some_rule, e) (any-Memᴰ (clean_host_rule v) xs e)
  | inr e ↦
      rw (is_empty_false (clean_host_rule v) some_rule, e) (Memᴰ.append_right xs (Memᴰ.head refl))
]

add_rules_keeps : (t : Text) (xs vs : List Text) → Memᴰ t xs → Memᴰ t (add_rules xs vs)
unfolding add_rules
add_rules_keeps t xs [] m = m
add_rules_keeps t xs (v ∷ vs) m = add_rules_keeps t (add_rule xs v) vs (add_rule_keeps t xs v m)

add_rules_adds :
    (xs vs : List Text) (v : Text)
    → clean_host_rule v ≢ []
    → Memᴰ v vs
    → Memᴰ (clean_host_rule v) (add_rules xs vs)
unfolding add_rules
add_rules_adds xs [] v some_rule m = elim m [ ]
add_rules_adds xs (w ∷ vs) v some_rule (Memᴰ.head e) =
    add_rules_keeps (clean_host_rule v) (add_rule xs w) vs
      (subst (λ u. Memᴰ (clean_host_rule v) (add_rule xs u)) e (add_rule_adds xs v some_rule))
add_rules_adds xs (w ∷ vs) v some_rule (Memᴰ.tail m) =
    add_rules_adds (add_rule xs w) vs v some_rule m

-- The raw entries that must stay direct.
abbrev pub Stays : Settings → Text → Type 0
Stays s v = Memᴰ v (s.api_hosts ++ s.gateway.host ∷ s.bypass)

always_direct_lem :
    (s : Settings) (v : Text)
    → Stays s v
    → clean_host_rule v ≢ []
    → Memᴰ (clean_host_rule v) (always_direct s)
unfolding always_direct
always_direct_lem s v m some_rule = elim (Memᴰ.append_cases s.api_hosts m) [
  | inl api ↦
      add_rules_keeps _ _ s.bypass
        (add_rule_keeps _ _ s.gateway.host (add_rules_adds [] s.api_hosts v some_rule api))
  | inr (Memᴰ.head e) ↦ add_rules_keeps _ _ s.bypass (
      subst (λ u. Memᴰ (clean_host_rule v) (add_rule (add_rules [] s.api_hosts) u)) e
        (add_rule_adds _ v some_rule))
  | inr (Memᴰ.tail m') ↦ add_rules_adds _ s.bypass v some_rule m'
]

with_line_lem :
    (s : Settings) (o : Option Line) (pac : Pac)
    → with_line s o ≡ some pac
    → (pac.direct_list ≡ always_direct s)
      × (pac.site_list ≡ filter (λ r. not (is_empty_text r)) (map clean_host_rule s.site_list))
      × (pac.mode ≡ mode_of s.tunnel_mode)
      × (o ≡ some pac.tunnel)
with_line_lem s none pac e = cc
with_line_lem s (some line) pac e =
    let same : built ≡ pac = cc in
    (
      ap (λ (p : Pac). p.direct_list) (sym same),
      ap (λ (p : Pac). p.site_list) (sym same),
      ap (λ (p : Pac). p.mode) (sym same),
      ap (λ (p : Pac). some p.tunnel) same,
    )
  where
    built : Pac
    built = record {
      direct_list = always_direct s;
      site_list = filter (λ r. not (is_empty_text r)) (map clean_host_rule s.site_list);
      mode = mode_of s.tunnel_mode;
      tunnel = line;
    }

chosen : (b : Bool) (x l : Line) → (if b then none else some x) ≡ some l → x ≡ l
chosen true x l e = cc
chosen false x l e = cc

proxy_line_lem : (g : Gateway) (f : Bool) (l : Line) → proxy_line g f ≡ some l → l.fallback ≡ f
unfolding proxy_line
proxy_line_lem g f l e =
    ap (λ (x : Line). x.fallback) (sym (chosen (is_empty_text (trim g.host)) _ l e))

-- What a script that is built holds.
build_pac_lem :
    (s : Settings) (pac : Pac)
    → build_pac s ≡ some pac
    → (pac.direct_list ≡ always_direct s)
      × (pac.site_list ≡ filter (λ r. not (is_empty_text r)) (map clean_host_rule s.site_list))
      × (pac.mode ≡ mode_of s.tunnel_mode)
      × (proxy_line s.gateway (not (s.kill_switch && not (is_only (mode_of s.tunnel_mode))))
          ≡ some pac.tunnel)
unfolding build_pac
build_pac_lem s pac e = with_line_lem s _ pac e

decision : Bool → Bool → Bool → Bool → Line → Route
decision l d e o line =
    if l then direct else if d then direct else if e then direct else if o then direct else via line

decision-direct : (l d e o : Bool) (line : Line) → d ≡ true → decision l d e o line ≡ direct
unfolding decision
decision-direct l d e o line h = ground (arith, h)

decision-via :
    (l d e o : Bool) (line line' : Line)
    → decision l d e o line ≡ via line'
    → (o ≡ false) × (line ≡ line')
unfolding decision
decision-via true d e o line line' h = cc
decision-via false true e o line line' h = cc
decision-via false false true o line line' h = cc
decision-via false false false true line line' h = cc
decision-via false false false false line line' h = (refl, cc)

-- The control plane, the gateway itself and the bypass entries stay reachable without the gateway,
-- in every mode: a request to a host whose name is such an entry, cleaned, goes direct.
pub kept_out :
    (br : Browser) (s : Settings) (pac : Pac) (host entry : Text)
    → build_pac s ≡ some pac
    → Stays s entry
    → clean_host_rule entry ≢ []
    → to_lower host ≡ clean_host_rule entry
    → find_proxy br pac host ≡ direct
unfolding find_proxy decision
kept_out br s pac host entry built stays some_rule same =
    let listed =
      subst (Memᴰ (clean_host_rule entry)) (sym (build_pac_lem s pac built).0)
        (always_direct_lem s entry stays some_rule) in
    let hit =
      (matches_lem br (to_lower host) pac.direct_list).1
        (clean_host_rule entry, listed, some_rule, Covers.same same) in
    decision-direct _ _ _ _ pac.tunnel hit

filtered : (p : Text → Bool) (t : Text) (xs : List Text) → Memᴰ t (filter p xs) → Memᴰ t xs
filtered p t [] m = m
filtered p t (x ∷ xs) m = elim (Bool-cases (p x)) [
  | inl e ↦ elim ((subst (Memᴰ t) (passes e) m)) [
    | Memᴰ.head h ↦ Memᴰ.head h
    | Memᴰ.tail m' ↦ Memᴰ.tail (filtered p t xs m')
  ]
  | inr e ↦ Memᴰ.tail (filtered p t xs (subst (Memᴰ t) (fails e) m))
]
  where
    passes : p x ≡ true → filter p (x ∷ xs) ≡ x ∷ filter p xs
    passes e = ground (arith, e)

    fails : p x ≡ false → filter p (x ∷ xs) ≡ filter p xs
    fails e = ground (arith, e)

clash : {A : Type 0} (a b : Bool) → a ≡ true → b ≡ false → a && not b ≡ false → A
clash true true h k e = cc
clash true false h k e = cc
clash false b h k e = cc

-- In the mode `only` nothing goes through the gateway but what a listed site covers.
pub only_sites :
    (br : Browser) (s : Settings) (pac : Pac) (host : Text) (line : Line)
    → build_pac s ≡ some pac
    → mode_of s.tunnel_mode ≡ only
    → find_proxy br pac host ≡ via line
    → ((site : Text) × Memᴰ site s.site_list × Covers br (to_lower host) (clean_host_rule site))
unfolding find_proxy decision
only_sites br s pac host line built mode e =
    elim (Bool-cases (matches br (to_lower host) pac.site_list)) [
      | inl hit ↦
          let (rule, m, some_rule, c) = (matches_lem br (to_lower host) pac.site_list).0 hit in
          let (site, m', same) =
            Memᴰ.of_map clean_host_rule s.site_list
              (filtered _ rule _ (subst (Memᴰ rule) (build_pac_lem s pac built).1 m)) in
          (site, m', subst (Covers br (to_lower host)) (sym same) c)
      | inr miss ↦
          let (listed, same) =
            decision-via (is_local br (to_lower host)) (matches br (to_lower host) pac.direct_list)
              _ _ pac.tunnel line e in
          clash (is_only pac.mode) (matches br (to_lower host) pac.site_list)
            (ap is_only ((build_pac_lem s pac built).2 ∙ mode)) miss listed
    ]

-- The line that a script which is built ends with.
pub built-fallback :
    (s : Settings) (pac : Pac)
    → build_pac s ≡ some pac
    → pac.tunnel.fallback ≡ not (s.kill_switch && not (is_only (mode_of s.tunnel_mode)))
built-fallback s pac built = proxy_line_lem s.gateway _ pac.tunnel (build_pac_lem s pac built).3

-- A request leaves by the fallback beside the gateway only without the kill switch or in the mode
-- `only`: the line of a script that is built says so exactly then.
pub kill_switch_lem :
    (br : Browser) (s : Settings) (pac : Pac) (host : Text) (line : Line)
    → build_pac s ≡ some pac
    → find_proxy br pac host ≡ via line
    → line.fallback ≡ not (s.kill_switch && not (is_only (mode_of s.tunnel_mode)))
unfolding find_proxy decision
kill_switch_lem br s pac host line built e =
    let (rest, same) =
      decision-via (is_local br (to_lower host)) (matches br (to_lower host) pac.direct_list) _ _
        pac.tunnel line e in
    ap (λ (x : Line). x.fallback) (sym same) ∙ built-fallback s pac built
