-- ===== src/Server/Promo/Discount.antt =====
-- What `applyPromo` grants.
use Prim.Native.Nat.{min, max}
use gluk_vpn.Common.{
  ℕ, Bool, true, false, not, ◌&&◌, Option, none, some, List, [], ◌∷◌, ◌⊎◌, is_empty_text, ap, ◌∙◌,
  text_eq_lem, ◌+◌, ◌-◌, ◌≤◌, ◌<◌, ◌≡◌, refl, sym, subst, arith, leb, ltb, if◌then◌else◌, any, Text,
  text_eq, to_lower, length, Bool-cases, Option-cases, inl, inr,
}
use mathlib.Core.List.{Memᴰ}
use gluk_vpn.Extension.Pac.{trim}
use gluk_vpn.Server.Promo.{
  PromoCode, Promos, with_code, normalize_promo_code, find_promo, PromoRefusal, promo_not_found,
  PromoApplication, applied, refused, not_yet, over, used_up, used_already, percent_of,
  promo_refusal, discount, apply_promo,
}

-- The code of an application and its amounts.
pub record IsGranted (db : Promos) (user : Option ℕ) (amount minimum at : ℕ) (a : PromoApplication)
    : Type 0 where
  pub active : a.promo.active ≡ true
  pub started : not_yet a.promo.starts_at at ≡ false
  pub not_ended : over a.promo.ends_at at ≡ false
  pub not_used_up : used_up a.promo.max_redemptions a.promo.redeemed_count ≡ false
  pub not_used_already : used_already db a.promo user ≡ false
  pub sum : a.amount_minor + a.discount_minor ≡ amount
  pub floor : max 1 minimum ≤ a.amount_minor
  pub positive : 0 < a.discount_minor
  pub percent : a.discount_minor ≤ percent_of a.promo.percent_off amount

record IsFit (db : Promos) (p : PromoCode) (user : Option ℕ) (at : ℕ) : Type 0 where
  active : p.active ≡ true
  started : not_yet p.starts_at at ≡ false
  not_ended : over p.ends_at at ≡ false
  not_used_up : used_up p.max_redemptions p.redeemed_count ≡ false
  not_used_already : used_already db p user ≡ false

-- A chain of refusals that comes to none.
passed :
    (b : Bool) (r : PromoRefusal) (rest : Option PromoRefusal)
    → (if b then some r else rest) ≡ none
    → (b ≡ false) × (rest ≡ none)
passed true r rest e = cc
passed false r rest e = (refl, e)

fit :
    (db : Promos) (p : PromoCode) (user : Option ℕ) (plan : Text) (at : ℕ)
    → promo_refusal db p user plan at ≡ none
    → IsFit db p user at
unfolding promo_refusal
fit db p user plan at e =
    let (a, e1) = passed (not p.active) _ _ e in
    let (s, e2) = passed (not_yet p.starts_at at) _ _ e1 in
    let (o, e3) = passed (over p.ends_at at) _ _ e2 in
    let (l, e4) =
      passed
        (ltb 0 (length p.plan_codes)
          && not (any (λ c. text_eq c (to_lower (trim plan))) p.plan_codes))
        _ _ e3 in
    let (u, e5) = passed (used_up p.max_redemptions p.redeemed_count) _ _ e4 in
    let (m, e6) = passed (used_already db p user) _ _ e5 in
    record {
      active = ground arith;
      started = s;
      not_ended = o;
      not_used_up = u;
      not_used_already = m;
    }

amounts :
    (p : PromoCode) (amount minimum : ℕ) (a : PromoApplication)
    → discount p amount minimum ≡ applied a
    → (a.promo ≡ p)
      × (a.amount_minor + a.discount_minor ≡ amount)
      × (max 1 minimum ≤ a.amount_minor)
      × (0 < a.discount_minor)
      × (a.discount_minor ≤ percent_of p.percent_off amount)
unfolding discount
amounts p amount minimum a e = elim (Bool-cases (leb off 0)) [
  | inl z ↦ let bad = rw z at e in cc
  | inr some_off ↦
      let given : applied made ≡ applied a = rw some_off at e in
      let same : made ≡ a = cc in
      subst
        (λ (x : PromoApplication).
          (x.promo ≡ p)
          × (x.amount_minor + x.discount_minor ≡ amount)
          × (max 1 minimum ≤ x.amount_minor)
          × (0 < x.discount_minor)
          × (x.discount_minor ≤ percent_of p.percent_off amount))
        same (refl, ground arith, ground arith, ground arith, ground arith)
]
  where
    off : ℕ
    off = min (percent_of p.percent_off amount) (amount - max 1 minimum)

    made : PromoApplication
    made = record { promo = p; discount_minor = off; amount_minor = amount - off }

-- A discount is granted only for an active code within its dates, that is not used up, neither at
-- all nor by the payer; it is positive and at most the percentage, what is charged and the discount
-- make the price, and what is charged is at least the minimum, and at least 1.
pub apply_promo-IsGranted :
    (db : Promos) (code : Text) (user : Option ℕ) (plan : Text) (amount minimum at : ℕ)
    (a : PromoApplication)
    → apply_promo db code user plan amount minimum at ≡ applied a
    → IsGranted db user amount minimum at a
unfolding apply_promo
apply_promo-IsGranted db code user plan amount minimum at a e =
    elim (Option-cases (find_promo code db)) [
      | inl f ↦ let bad : refused promo_not_found ≡ applied a = rw (apply_promo, f) at e in cc
      | inr (p, f) ↦ elim (Option-cases (promo_refusal db p user plan at)) [
        | inr (r, g) ↦ let bad : refused r ≡ applied a = rw (apply_promo, f, g) at e in cc
        | inl g ↦
            let given : discount p amount minimum ≡ applied a = rw (apply_promo, f, g) at e in
            let (same, sum, floor, positive, percent) = amounts p amount minimum a given in
            let k : IsFit db a.promo user at =
              subst (λ x. IsFit db x user at) (sym same) (fit db p user plan at g) in
            record {
              active = k.active;
              started = k.started;
              not_ended = k.not_ended;
              not_used_up = k.not_used_up;
              not_used_already = k.not_used_already;
              sum = sum;
              floor = floor;
              positive = positive;
              percent =
                  subst (λ (x : PromoCode). a.discount_minor ≤ percent_of x.percent_off amount)
                    (sym same) percent;
            }
      ]
    ]

with_code-Mem :
    (c : Text) (ps : List PromoCode) {p : PromoCode}
    → with_code c ps ≡ some p
    → Memᴰ p ps × (p.code ≡ c)
with_code-Mem c [] e = cc
with_code-Mem c (x ∷ ps) {p} e = elim (Bool-cases (text_eq x.code c)) [
  | inl here ↦
      let same : x ≡ p =
        ap (λ (o : Option PromoCode). elim o [ none ↦ x | some y ↦ y ])
          (rw (with_code, here) at e) in
      (
        Memᴰ.head (sym same),
        ap (λ (y : PromoCode). y.code) (sym same) ∙ (text_eq_lem x.code c).0 here,
      )
  | inr off ↦ let (m, same) = with_code-Mem c ps (rw (with_code, off) at e) in (Memᴰ.tail m, same)
]

-- The code that was typed, and the plan that it is for.
pub record IsTyped (db : Promos) (code plan : Text) (p : PromoCode) : Type 0 where
  pub stored : Memᴰ p db.codes
  pub typed : p.code ≡ normalize_promo_code code
  pub fits : (p.plan_codes ≡ []) ⊎ Memᴰ (to_lower (trim plan)) p.plan_codes

fits_of :
    (plan : Text) (cs : List Text)
    → (ltb 0 (length cs) && not (any (λ c. text_eq c plan) cs)) ≡ false
    → (cs ≡ []) ⊎ Memᴰ plan cs
fits_of plan [] h = inl refl
fits_of plan (c ∷ cs) h = inr (listed (c ∷ cs) (ground (arith, h)))
  where
    listed : (ds : List Text) → any (λ c. text_eq c plan) ds ≡ true → Memᴰ plan ds
    listed [] k = cc
    listed (d ∷ ds) k = elim (Bool-cases (text_eq d plan)) [
      | inl here ↦ Memᴰ.head (sym ((text_eq_lem d plan).0 here))
      | inr off ↦ Memᴰ.tail (listed ds (ground (arith, off, k)))
    ]

found_promo :
    (db : Promos) (code : Text) {p : PromoCode}
    → find_promo code db ≡ some p
    → Memᴰ p db.codes × (p.code ≡ normalize_promo_code code)
unfolding find_promo
found_promo db code e = elim (Bool-cases (is_empty_text (normalize_promo_code code))) [
  | inl none_typed ↦ let bad = rw (find_promo, none_typed) at e in cc
  | inr typed ↦ with_code-Mem (normalize_promo_code code) db.codes (rw (find_promo, typed) at e)
]

refused_not :
    (db : Promos) (p : PromoCode) (user : Option ℕ) (plan : Text) (at : ℕ)
    → promo_refusal db p user plan at ≡ none
    → (ltb 0 (length p.plan_codes)
        && not (any (λ c. text_eq c (to_lower (trim plan))) p.plan_codes))
      ≡ false
unfolding promo_refusal
refused_not db p user plan at e =
    let (a, e1) = passed (not p.active) _ _ e in
    let (s, e2) = passed (not_yet p.starts_at at) _ _ e1 in
    let (o, e3) = passed (over p.ends_at at) _ _ e2 in
    (passed
      (ltb 0 (length p.plan_codes)
        && not (any (λ c. text_eq c (to_lower (trim plan))) p.plan_codes))
      _ _ e3).0

-- The code that is applied is the stored one that was typed, and it is for the plan or for any.
pub apply_promo-IsTyped :
    (db : Promos) (code : Text) (user : Option ℕ) (plan : Text) (amount minimum at : ℕ)
    (a : PromoApplication)
    → apply_promo db code user plan amount minimum at ≡ applied a
    → IsTyped db code plan a.promo
unfolding apply_promo
apply_promo-IsTyped db code user plan amount minimum at a e =
    elim (Option-cases (find_promo code db)) [
      | inl f ↦ let bad : refused promo_not_found ≡ applied a = rw (apply_promo, f) at e in cc
      | inr (p, f) ↦ elim (Option-cases (promo_refusal db p user plan at)) [
        | inr (r, g) ↦ let bad : refused r ≡ applied a = rw (apply_promo, f, g) at e in cc
        | inl g ↦
            let same = (amounts p amount minimum a (rw (apply_promo, f, g) at e)).0 in
            let (m, typed) = found_promo db code f in
            subst (IsTyped db code plan) (sym same) (record {
              stored = m;
              typed = typed;
              fits = fits_of (to_lower (trim plan)) p.plan_codes (refused_not db p user plan at g);
            })
      ]
    ]
