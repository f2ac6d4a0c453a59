-- ===== src/Extension/Pac/Layers.antt =====
-- `ProxyEngine`: the layers of the browser's proxy settings that the extension writes, and the
-- credentials it keeps. A call on a layer fails where `accepts` says so.
use gluk_vpn.Common.{
  Bool, not, ◌&&◌, Option, none, some, ◌≡◌, inl, inr, subst, refl, sym, ap, ◌∙◌, arith, Bool-cases,
  if◌then◌else◌, Text, codes, text_eq,
}
use gluk_vpn.Extension.Pac.{is_only, mode_of, Settings, Pac, build_pac}
use gluk_vpn.Extension.Pac.Direct.{built-fallback}

pub data Scope : Type 0 where
  regular regular_only incognito_persistent : Scope

-- `{ mode: 'pac_script', pacScript: { data, mandatory } }`
pub record Value : Type 0 where
  pub data_of : Pac
  pub mandatory : Bool

pub record Layers : Type 0 where
  pub regular : Option Value
  pub regular_only : Option Value
  pub incognito_persistent : Option Value
  pub credentials : Option (Text × Text)

abbrev pub layer : Scope → Layers → Option Value
layer Scope.regular l = l.regular
layer Scope.regular_only l = l.regular_only
layer Scope.incognito_persistent l = l.incognito_persistent

-- `chrome.proxy.settings.set` and `clear`, where they succeed.
unfoldable pub write : Scope → Option Value → Layers → Layers
write Scope.regular v l = record l { regular = v }
write Scope.regular_only v l = record l { regular_only = v }
write Scope.incognito_persistent v l = record l { incognito_persistent = v }

module _ (accepts : Scope → Bool) where
  unfoldable pub best_effort : Scope → Option Value → Layers → Layers
  unfolding write
  best_effort sc v l = if accepts sc then write sc v l else l

  -- `config.killSwitch && config.tunnelMode !== 'only'`, on the mode as it is written.
  abbrev pub mandatory_of : Settings → Bool
  mandatory_of s = s.kill_switch && not (text_eq s.tunnel_mode (codes "only"))

  abbrev pub value_of : Settings → Pac → Value
  value_of s pac = record { data_of = pac; mandatory = mandatory_of s }

  abbrev pub apply_pac : Settings → Option Pac → Layers → Layers × Option Pac
  apply_pac s none l = (l, none)
  apply_pac s (some pac) l =
      if accepts Scope.regular
      then (
        best_effort Scope.incognito_persistent
            (if s.tunnel_incognito then some (value_of s pac) else none)
            (write Scope.regular (some (value_of s pac)) l),
        some pac,
      )
      else (l, none)

  -- `apply`: the layers behind it, and the script unless it throws.
  unfoldable pub apply : Settings → Layers → Layers × Option Pac
  unfolding best_effort write build_pac
  apply s l = apply_pac s (build_pac s) l

  -- `clear`; its first call throws where it fails.
  unfoldable pub clear : Layers → Layers
  unfolding best_effort write
  clear l =
      if accepts Scope.regular
      then record (best_effort Scope.incognito_persistent none
          (best_effort Scope.regular_only none (write Scope.regular none l))) { credentials = none }
      else l

  only_lem : (t : Text) → is_only (mode_of t) ≡ text_eq t (codes "only")
  only_lem t = elim (Bool-cases (text_eq t (codes "only"))) [
    | inl e ↦ rw e refl
    | inr e ↦ elim (Bool-cases (text_eq t (codes "except"))) [
      | inl x ↦ rw (e, x) refl
      | inr x ↦ rw (e, x) refl
    ]
  ]

  -- `apply` and `buildPac` agree on when there is no way around the gateway.
  mandatory_lem :
      (s : Settings) (pac : Pac) → build_pac s ≡ some pac → mandatory_of s ≡ not pac.tunnel.fallback
  mandatory_lem s pac built = sym (
      ap not (built-fallback s pac built)
      ∙ not-not _
      ∙ ap (λ o. s.kill_switch && not o) (only_lem s.tunnel_mode))
    where
      not-not : (b : Bool) → not (not b) ≡ b
      not-not b = ground arith

  abbrev pub IsApplied : Settings → Pac → Layers → Layers → Type 0
  IsApplied s pac before after =
      (after.regular ≡ some (record { data_of = pac; mandatory = not pac.tunnel.fallback }))
      × (after.incognito_persistent ≡ (
          if accepts Scope.incognito_persistent
          then (if s.tunnel_incognito
              then some (record { data_of = pac; mandatory = not pac.tunnel.fallback })
              else none)
          else before.incognito_persistent))

  apply_pac_lem :
      (s : Settings) (o : Option Pac) (l : Layers) (pac : Pac)
      → ((p : Pac) → o ≡ some p → mandatory_of s ≡ not p.tunnel.fallback)
      → (apply_pac s o l).1 ≡ some pac
      → IsApplied s pac l (apply_pac s o l).0
  unfolding best_effort write
  apply_pac_lem s none l pac m e = cc
  apply_pac_lem s (some p) l pac m e = elim (Bool-cases (accepts Scope.regular)) [
    | inl a ↦
        let given : some p ≡ some pac = rw a at e in
        let same : p ≡ pac = cc in
        subst (λ q. IsApplied s q l (apply_pac s (some p) l).0) same
          (elim (Bool-cases (accepts Scope.incognito_persistent)) [
            | inl i ↦ rw (a, i, m p refl) (refl, refl)
            | inr i ↦ rw (a, i, m p refl) (refl, refl)
          ])
    | inr r ↦ let given : ◌≡◌ {A = Option Pac} none (some pac) = rw r at e in cc
  ]

  -- What stands in the layers once `apply` has given a script: the script in the layer of regular
  -- windows, mandatory exactly if it has no way around the gateway; the same in the layer of
  -- incognito windows, or nothing, as the setting says, where the browser lets it be written.
  pub apply_lem :
      (s : Settings) (l : Layers) (pac : Pac)
      → (apply s l).1 ≡ some pac
      → IsApplied s pac l (apply s l).0
  unfolding apply
  apply_lem s l pac e = apply_pac_lem s (build_pac s) l pac (mandatory_lem s) e
