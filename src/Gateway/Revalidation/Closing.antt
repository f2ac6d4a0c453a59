-- ===== src/Gateway/Revalidation/Closing.antt =====
-- Which tunnels a check of live tunnels closes.
use gluk_vpn.Common.{
  ℕ, Bool, true, false, ◌&&◌, ◌||◌, Option, none, some, List, [], ◌∷◌, ◌==◌, ◌≡◌, ◌≢◌, ◌∙◌, refl,
  ap, arith, any, filter, get_elem?, get_elem?-set, Option-cases, inl, inr,
}
use gluk_vpn.Gateway.State.{
  Reason, maintenance, service, Grant, granted, refused, Answer, Handler, Tunnel, Gateway,
}
use gluk_vpn.Gateway.Tunnels.{close, close_handler}
use gluk_vpn.Gateway.Revalidation.{Group, same_api, close_all, owners, condemned, settle_group}

-- Whether a call's tunnel was closed; `none` where there is no such call.
abbrev pub closed_in : List Handler → ℕ → Option Bool
closed_in hs j = elim (get_elem? hs j) [ none ↦ none | some h ↦ some h.closed ]

abbrev pub closed_at : ℕ → Gateway → Option Bool
closed_at j g = closed_in g.handlers j

-- Marked as closed, if the test says so.
abbrev pub mark : Bool → Option Bool → Option Bool
mark b none = none
mark b (some c) = some (c || b)

close-closed_at :
    (now i j : ℕ) (g : Gateway) → closed_at j (close now i g) ≡ mark (i == j) (closed_at j g)
unfolding close close_handler
close-closed_at now i j g = elim (Option-cases (get_elem? g.handlers i)) [
  | inl e ↦ ground (arith, e)
  | inr (h, e) ↦ ground (arith, e, get_elem?-set g.handlers i j (record h { closed = true }))
]

close_all-closed_at :
    (now : ℕ) (is : List ℕ) (j : ℕ) (g : Gateway)
    → closed_at j (close_all now is g) ≡ mark (any (λ i. i == j) is) (closed_at j g)
unfolding close_all
close_all-closed_at now [] j g = ground arith
close_all-closed_at now (i ∷ is) j g =
    ground (arith, close_all-closed_at now is j (close now i g), close-closed_at now i j g)

any-owners :
    (ts : List Tunnel) (j : ℕ)
    → any (λ i. i == j) (owners ts) ≡ any (λ (t : Tunnel). t.owner == j) ts
any-owners [] j = refl
any-owners (t ∷ ts) j = ap (λ b. (t.owner == j) || b) (any-owners ts j)

any-filter :
    (p q : Tunnel → Bool) (ts : List Tunnel) → any q (filter p ts) ≡ any (λ t. q t && p t) ts
any-filter p q [] = refl
any-filter p q (t ∷ ts) = ground (arith, any-filter p q ts)

settled :
    (now : ℕ) (a : Answer) (gp : Group) (g : Gateway) (j : ℕ)
    → closed_at j (settle_group now (some a) gp g)
      ≡ mark (any (λ i. i == j) (owners (condemned a gp g))) (closed_at j g)
unfolding settle_group
settled now a gp g j = close_all-closed_at now (owners (condemned a gp g)) j _

mark_none : (c : Option Bool) → mark false c ≡ c
mark_none none = refl
mark_none (some true) = refl
mark_none (some false) = refl

-- What an answer about a group does to a call: a grant closes none; a maintenance of the whole service
-- closes every call that owns a live tunnel of the control plane that answered, and no other; any
-- other refusal closes every call that owns a tunnel of the group, and no other.
pub settle_group-closed_at :
    (now : ℕ) (a : Answer) (gp : Group) (g : Gateway) (j : ℕ)
    → ((gr : Grant)
        → a.verdict ≡ granted gr
        → closed_at j (settle_group now (some a) gp g) ≡ closed_at j g)
      × (a.verdict ≡ refused (maintenance service)
          → closed_at j (settle_group now (some a) gp g)
            ≡ mark
                (any
                  (λ (t : Tunnel). (t.owner == j) && same_api t.api_base a.api_base)
                  g.live_tunnels)
                (closed_at j g))
      × ((r : Reason)
          → a.verdict ≡ refused r
          → r ≢ maintenance service
          → closed_at j (settle_group now (some a) gp g)
            ≡ mark (any (λ (t : Tunnel). t.owner == j) gp.tunnels) (closed_at j g))
settle_group-closed_at now a gp g j = (
  (λ gr e. settled now a gp g j ∙ rw (condemned, e) (mark_none (closed_at j g))),
  (λ e.
      settled now a gp g j
      ∙ rw (condemned, e)
          (ap (λ b. mark b (closed_at j g))
            (any-owners (filter (λ t. same_api t.api_base a.api_base) g.live_tunnels) j
              ∙ any-filter (λ t. same_api t.api_base a.api_base) (λ t. t.owner == j)
                  g.live_tunnels))),
  (λ r e other.
      settled now a gp g j
      ∙ ap (λ b. mark b (closed_at j g))
          (ap (λ ts. any (λ i. i == j) (owners ts)) (of_group r e other)
            ∙ any-owners gp.tunnels j)),
)
  where
    of_group :
        (r : Reason)
        → a.verdict ≡ refused r
        → r ≢ maintenance service
        → condemned a gp g ≡ gp.tunnels
    of_group (maintenance service) e other = absurd (other refl)
    of_group r e other = rw (condemned, e) refl
