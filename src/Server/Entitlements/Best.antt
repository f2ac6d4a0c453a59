-- ===== src/Server/Entitlements/Best.antt =====
-- Which subscription decides: the query of `resolveEntitlement`.
use gluk_vpn.Common.{ℕ, true, false, Option, none, some, List, ◌≡◌, ◌≢◌, ◌<◌, ◌≤◌, ◌⊎◌, All}
use mathlib.Core.List.{Memᴰ}
use mathlib.Core.List.Memᴰ
use gluk_vpn.Server.Entitlements.{free_plan_code, Subscription, is_running, is_above, Entitlement}

-- A running subscription of the user that no other running one is above, or none where none runs.
abbrev IsBest : ℕ → ℕ → List Subscription → Option Subscription → Type 0
IsBest user at ss none = All (λ t. is_running user at t ≡ false) ss
IsBest user at ss (some s) =
    Memᴰ s ss
    × (is_running user at s ≡ true)
    × All (λ t. is_running user at t ≡ true → is_above s t ≡ true) ss

-- A subscription of the user that is active, has not ended at that moment, and is not Free.
pub record IsRunning (user at : ℕ) (s : Subscription) : Type 0 where
  pub own : s.user ≡ user
  pub active : s.active ≡ true
  pub unexpired : at < s.expires_at
  pub sold : s.plan ≢ free_plan_code

-- What an entitlement rests on: Free, with nothing that runs; or a running subscription that no other
-- one of the user exceeds in tier, or at the same tier in its end.
pub data Decides (user at : ℕ) (ss : List Subscription) (e : Entitlement) : Type 0 where
  free :
      ((t : Subscription) → Memᴰ t ss → ¬ IsRunning user at t)
      → e.subscribed ≡ false
      → e.plan_code ≡ free_plan_code
      → e.expires_at ≡ none
      → Decides user at ss e
  by :
      (s : Subscription)
      → Memᴰ s ss
      → IsRunning user at s
      → ((t : Subscription)
          → Memᴰ t ss
          → IsRunning user at t
          → (t.tier < s.tier) ⊎ ((t.tier ≡ s.tier) × (t.expires_at ≤ s.expires_at)))
      → e.subscribed ≡ true
      → e.tier ≡ s.tier
      → e.expires_at ≡ some s.expires_at
      → Decides user at ss e
