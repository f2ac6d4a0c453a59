-- ===== src/Extension/Pac/Rules.antt =====
-- What a rule of the script covers.
use gluk_vpn.Common.{
  ℕ, zero, suc, Bool, true, false, not, ◌&&◌, ◌||◌, List, [], ◌∷◌, ◌++◌, ◌+◌, ◌-◌, ◌≡◌, ◌≢◌, ◌↔◌,
  ◌⊎◌, inl, inr, ◌<◌, refl, ap, subst, ◌∙◌, ltb→lt, arith, ltb, length, Text, text_eq, text_eq_lem,
  contains_code, drop, is_empty_text,
}
use mathlib.Core.List.{Memᴰ}
use gluk_vpn.Extension.Pac.{Browser}
use gluk_vpn.Extension.Pac.Script.{covers, matches, slice_end, is_dotted}

abbrev pub first : ℕ → Text → Text
first zero cs = []
first (suc k) [] = []
first (suc k) (c ∷ cs) = c ∷ first k cs

first-drop : (k : ℕ) (t : Text) → t ≡ first k t ++ drop k t
first-drop zero t = refl
first-drop (suc k) [] = refl
first-drop (suc k) (c ∷ t) = ap (λ u. c ∷ u) (first-drop k t)

first-some : (k : ℕ) (t : Text) → 0 < k → 0 < length t → first k t ≢ []
first-some zero t h p = ground arith
first-some (suc k) [] h p = ground arith
first-some (suc k) (c ∷ t) h p = λ e. cc

length-some : (t : Text) → t ≢ [] → 0 < length t
length-some [] h = ground arith
length-some (c ∷ t) h = ground arith

length-append : (s t : Text) → length (s ++ t) ≡ length s + length t
length-append [] t = ground arith
length-append (c ∷ s) t = ground (arith, length-append s t)

drop-append : (s t : Text) → drop (length s) (s ++ t) ≡ t
drop-append [] t = refl
drop-append (c ∷ s) t = drop-append s t

-- `tail` stands at the end of `host`, behind one character at least.
pub EndsWith : Text → Text → Type 0
EndsWith host tail = (front : Text) × (front ≢ []) × (host ≡ front ++ tail)

pub slice_end-EndsWith :
    (host tail : Text)
    → (((ltb (length tail) (length host) && text_eq (slice_end (length tail) host) tail) ≡ true)
        ↔ EndsWith host tail)
unfolding EndsWith
slice_end-EndsWith host tail = (to, back)
  where
    k : ℕ
    k = length host - length tail

    split_test : (a b : Bool) → a && b ≡ true → (a ≡ true) × (b ≡ true)
    split_test a b h = ground arith

    to :
        (ltb (length tail) (length host) && text_eq (slice_end (length tail) host) tail) ≡ true
        → EndsWith host tail
    to h =
        let (longer, same) = split_test _ _ h in
        let shorter : length tail < length host = ltb→lt _ _ longer in
        (
          first k host,
          first-some k host (omega arith) (omega arith),
          first-drop k host ∙ ap (λ u. first k host ++ u) ((text_eq_lem (drop k host) tail).0 same),
        )

    back :
        EndsWith host tail
        → (ltb (length tail) (length host) && text_eq (slice_end (length tail) host) tail) ≡ true
    back (front, some_front, e) =
        let long = length-some front some_front in
        let sum = ap length e ∙ length-append front tail in
        let at_front : k ≡ length front = omega arith in
        let same : drop k host ≡ tail =
          ap (λ i. drop i host) at_front ∙ ap (drop (length front)) e ∙ drop-append front tail in
        ground (arith, (text_eq_lem (drop k host) tail).1 same)

-- A rule covers its own text, what its wildcards match, and what ends in it behind a dot, which
-- may be its own first character.
pub data Covers (br : Browser) (host rule : Text) : Type 0 where
  same : host ≡ rule → Covers br host rule
  wildcard : contains_code b'*' rule ≡ true → br.sh_exp_match host rule ≡ true → Covers br host rule
  dotted : is_dotted rule ≡ true → EndsWith host rule → Covers br host rule
  subdomain : is_dotted rule ≡ false → EndsWith host (b'.' ∷ rule) → Covers br host rule

subdomain_lem :
    (host rule : Text)
    → (((ltb (length rule + 1) (length host)
            && text_eq (slice_end (length rule + 1) host) (b'.' ∷ rule))
          ≡ true)
        ↔ EndsWith host (b'.' ∷ rule))
subdomain_lem host rule =
    subst
      (λ k.
        ((ltb k (length host) && text_eq (slice_end k host) (b'.' ∷ rule)) ≡ true)
        ↔ EndsWith host (b'.' ∷ rule))
      longer (slice_end-EndsWith host (b'.' ∷ rule))
  where
    longer : length (b'.' ∷ rule) ≡ length rule + 1
    longer = ground arith

or_cases : (a b : Bool) → a || b ≡ true → (a ≡ true) ⊎ (b ≡ true)
or_cases a b h = ground arith

or_left : (a b : Bool) → a ≡ true → a || b ≡ true
or_left a b h = ground arith

or_right : (a b : Bool) → b ≡ true → a || b ≡ true
or_right a b h = ground arith

and_both : (a b : Bool) → a ≡ true → b ≡ true → a && b ≡ true
and_both a b h k = ground arith

and_cases : (a b : Bool) → a && b ≡ true → (a ≡ true) × (b ≡ true)
and_cases a b h = ground arith

not-false : (a : Bool) → (not a ≡ true) ↔ (a ≡ false)
not-false a = ground arith

covers-Covers : (br : Browser) (host rule : Text) → covers br host rule ≡ true → Covers br host rule
unfolding covers
covers-Covers br host rule h = elim (or_cases (text_eq host rule || star || dot) sub h) [
  | inr s ↦
      let (dot_test, e) = and_cases (not (is_dotted rule)) _ s in
      subdomain ((not-false (is_dotted rule)).0 dot_test) ((subdomain_lem host rule).0 e)
  | inl h ↦ elim (or_cases (text_eq host rule || star) dot h) [
    | inr d ↦
        let (dot_test, e) = and_cases (is_dotted rule) _ d in
        dotted dot_test ((slice_end-EndsWith host rule).0 e)
    | inl h ↦ elim (or_cases (text_eq host rule) star h) [
      | inl e ↦ same ((text_eq_lem host rule).0 e)
      | inr w ↦
          let (some_star, match) = and_cases (contains_code b'*' rule) _ w in
          wildcard some_star match
    ]
  ]
]
  where
    star : Bool
    star = contains_code b'*' rule && br.sh_exp_match host rule

    dot : Bool
    dot =
        is_dotted rule
        && (ltb (length rule) (length host) && text_eq (slice_end (length rule) host) rule)

    sub : Bool
    sub =
        not (is_dotted rule)
        && (ltb (length rule + 1) (length host)
            && text_eq (slice_end (length rule + 1) host) (b'.' ∷ rule))

Covers-covers : (br : Browser) (host rule : Text) → Covers br host rule → covers br host rule ≡ true
unfolding covers
Covers-covers br host rule (same e) = ground (arith, (text_eq_lem host rule).1 e)
Covers-covers br host rule (wildcard s m) = ground (arith, s, m)
Covers-covers br host rule (dotted d e) = ground (arith, d, (slice_end-EndsWith host rule).1 e)
Covers-covers br host rule (subdomain d e) = ground (arith, d, (subdomain_lem host rule).1 e)

not_empty : (t : Text) → t ≢ [] → not (is_empty_text t) ≡ true
not_empty [] h = elim (h refl) [ ]
not_empty (c ∷ t) h = refl

-- The script's search finds exactly what a rule of the list covers, whatever wildcards mean.
pub matches_lem :
    (br : Browser) (host : Text) (rules : List Text)
    → ((matches br host rules ≡ true)
        ↔ ((rule : Text) × Memᴰ rule rules × (rule ≢ []) × Covers br host rule))
unfolding matches
matches_lem br host rules = (found rules, holds rules)
  where
    found :
        (rules : List Text)
        → matches br host rules ≡ true
        → ((rule : Text) × Memᴰ rule rules × (rule ≢ []) × Covers br host rule)
    found [] h = cc
    found ([] ∷ rules) h = let (r, m, s, c) = found rules h in (r, Memᴰ.tail m, s, c)
    found ((c ∷ cs) ∷ rules) h = elim (or_cases _ _ h) [
      | inl e ↦ (c ∷ cs, Memᴰ.head refl, (λ e. cc), covers-Covers br host (c ∷ cs) e)
      | inr h ↦ let (r, m, s, c) = found rules h in (r, Memᴰ.tail m, s, c)
    ]

    holds :
        (rules : List Text)
        → ((rule : Text) × Memᴰ rule rules × (rule ≢ []) × Covers br host rule)
        → matches br host rules ≡ true
    holds [] (r, m, s, c) = elim m [ ]
    holds (rule ∷ rules) (r, Memᴰ.head e, s, c) = or_left _ _ (
        subst (λ t. not (is_empty_text t) && covers br host t ≡ true) e
          (and_both _ _ (not_empty r s) (Covers-covers br host r c)))
    holds (rule ∷ rules) (r, Memᴰ.tail m, s, c) = or_right _ _ (holds rules (r, m, s, c))
