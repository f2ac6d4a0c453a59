-- ===== src/Server/Promo/Redeemed.antt =====
-- The count of redemptions: `redeemPromo`.
use gluk_vpn.Common.{
  ℕ, suc, Bool, true, false, List, [], ◌∷◌, map, ◌+◌, ◌≡◌, refl, sym, subst, ◌∙◌, arith, ◌==◌,
  ==_iff, any, count, All, Text, Bool-cases, Option-cases, inl, inr,
}
use gluk_vpn.Server.Promo.{PromoCode, Redemption, Promos, find_promo, counted_up, redeem_promo}

abbrev pub of_promo : ℕ → Redemption → Bool
of_promo id r = r.promo == id

-- Every code counts its redemptions.
abbrev pub IsCounted : Promos → Type 0
IsCounted db =
    All (λ (p : PromoCode). p.redeemed_count ≡ count (of_promo p.id) db.redemptions) db.codes

recounted_one :
    (p : PromoCode) (rs : List Redemption) (r : Redemption)
    → p.redeemed_count ≡ count (of_promo p.id) rs
    → (counted_up r.promo p).redeemed_count ≡ count (of_promo (counted_up r.promo p).id) (r ∷ rs)
recounted_one p rs r h = elim (Bool-cases (p.id == r.promo)) [
  | inl e ↦
      let up : counted_up r.promo p ≡ record p { redeemed_count = p.redeemed_count + 1 } =
        rw e refl in
      let hit : count (of_promo p.id) (r ∷ rs) ≡ suc (count (of_promo p.id) rs) = ground arith in
      subst (λ (x : PromoCode). x.redeemed_count ≡ count (of_promo x.id) (r ∷ rs)) (sym up)
        (omega (arith, h, hit))
  | inr e ↦
      let same : counted_up r.promo p ≡ p = rw e refl in
      let miss : count (of_promo p.id) (r ∷ rs) ≡ count (of_promo p.id) rs = ground arith in
      subst (λ (x : PromoCode). x.redeemed_count ≡ count (of_promo x.id) (r ∷ rs)) (sym same)
        (h ∙ sym miss)
]

recounted :
    (ps : List PromoCode) (rs : List Redemption) (r : Redemption)
    → All (λ (p : PromoCode). p.redeemed_count ≡ count (of_promo p.id) rs) ps
    → All
        (λ (p : PromoCode). p.redeemed_count ≡ count (of_promo p.id) (r ∷ rs))
        (map (counted_up r.promo) ps)
recounted [] rs r h = tt
recounted (p ∷ ps) rs r h = (recounted_one p rs r h.0, recounted ps rs r h.1)

-- Redeeming keeps the count of every code equal to the number of its redemptions, and an order is
-- redeemed once: after a success, the same order, with whatever code and user, changes nothing.
pub redeem_promo-IsCounted :
    (code code' : Text) (user user' order d d' : ℕ) (db : Promos)
    → IsCounted db
    → IsCounted (redeem_promo code user order d db).0
      × ((redeem_promo code user order d db).1 ≡ true
          → redeem_promo code' user' order d' (redeem_promo code user order d db).0
            ≡ ((redeem_promo code user order d db).0, false))
unfolding redeem_promo
redeem_promo-IsCounted code code' user user' order d d' db h =
    elim (Option-cases (find_promo code db)) [
      | inl f ↦ result (db, false) (rw (redeem_promo, f) refl) (h, λ e. cc)
      | inr (p, f) ↦ elim (Bool-cases (any (λ (r : Redemption). r.order == order) db.redemptions)) [
        | inl e ↦ result (db, false) (rw (redeem_promo, f, e) refl) (h, λ e'. cc)
        | inr e ↦
            result (after p, true) (rw (redeem_promo, f, e) refl)
              (
                recounted db.codes db.redemptions (row p) h,
                λ e'. again (after p) (rw ((==_iff order order).1 refl) refl),
              )
      ]
    ]
  where
    row : PromoCode → Redemption
    row p = record { promo = p.id; user = user; order = order; discount = d }

    after : PromoCode → Promos
    after p = record db {
      codes = map (counted_up p.id) db.codes;
      redemptions = row p ∷ db.redemptions;
    }

    IsOnce : Promos × Bool → Type 0
    IsOnce x = IsCounted x.0 × (x.1 ≡ true → redeem_promo code' user' order d' x.0 ≡ (x.0, false))

    result :
        (x : Promos × Bool)
        → redeem_promo code user order d db ≡ x
        → IsOnce x
        → IsOnce (redeem_promo code user order d db)
    result x e k = subst IsOnce (sym e) k

    again :
        (db' : Promos)
        → any (λ (r : Redemption). r.order == order) db'.redemptions ≡ true
        → redeem_promo code' user' order d' db' ≡ (db', false)
    again db' e = elim (Option-cases (find_promo code' db')) [
      | inl f ↦ rw (redeem_promo, f) refl
      | inr (p, f) ↦ rw (redeem_promo, f, e) refl
    ]
