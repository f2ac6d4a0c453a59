-- ===== src/Extension/Pick/Best.antt =====
-- The choice is usable, and no usable node scores higher.
use gluk_vpn.Common.{
  ℕ, Bool, true, false, Option, none, some, List, [], ◌∷◌, ◌≡◌, ◌≤◌, ◌*◌, ◌⊎◌, inl, inr, refl,
  arith, filter, All, All-imp, Bool-cases, ap, ◌∙◌, subst, sym, if◌then◌else◌,
}
use mathlib.Core.List.{Memᴰ}
use native.Mathlib.Nat.{mul-le-mul_left, le_of_mul-le-mul_left, mul-pos}
use gluk_vpn.Extension.Pick.{
  node_score, ping_grade, load_grade, load_of, headroom_of, ping_of, weigh, Node, Options, Fraction,
  less, is_node_usable, total_score, better, best_of, best_node,
}

-- Not higher.
abbrev pub AtMost : Fraction → Fraction → Type 0
AtMost a b = a.num * b.den ≤ b.num * a.den

less-false : (a b : Fraction) → less a b ≡ false → AtMost b a
less-false a b h = ground arith

less-true : (a b : Fraction) → less a b ≡ true → AtMost a b
less-true a b h = ground arith

-- The order of fractions with positive denominators is transitive.
AtMost-trans : (a b c : Fraction) → 1 ≤ b.den → AtMost a b → AtMost b c → AtMost a c
AtMost-trans a b c pos p q =
    le_of_mul-le-mul_left {k = b.den}
      (grind (arith, mul-le-mul_left c.den p, mul-le-mul_left a.den q)) pos

abbrev pub IsProper : Fraction → Type 0
IsProper a = 1 ≤ a.den

ping_grade-IsProper : (p : Option ℕ) → IsProper (ping_grade p)
unfolding ping_grade
ping_grade-IsProper none = ground arith
ping_grade-IsProper (some p) = ground arith

load_grade-IsProper : (n : Node) → IsProper (load_grade (load_of n))
unfolding load_grade load_of
load_grade-IsProper n = ground arith

headroom_of-IsProper : (n : Node) → IsProper (headroom_of n)
unfolding headroom_of
headroom_of-IsProper n = ground arith

weigh-IsProper : (a b c : Fraction) → IsProper a → IsProper b → IsProper c → IsProper (weigh a b c)
weigh-IsProper a b c p q r = grind (arith, mul-pos p (mul-pos q r))

node_score-IsProper : (paid : Bool) (ping : Option ℕ) (n : Node) → IsProper (node_score paid ping n)
unfolding node_score
node_score-IsProper paid ping n = ground (
  arith,
  weigh-IsProper _ _ _ (ping_grade-IsProper ping) (load_grade-IsProper n) (headroom_of-IsProper n),
)

-- Every score is a fraction with a positive denominator.
total_score-IsProper : (o : Options) (n : Node) → IsProper (total_score o n)
unfolding total_score
total_score-IsProper o n = ground (arith, node_score-IsProper o.paid (ping_of o n) n)

-- Of two candidates.
better-some :
    (score : Node → Fraction) (b n : Node)
    → ((m : Node) × (better score (some b) n ≡ some m)
        × ((m ≡ b) ⊎ (m ≡ n))
        × AtMost (score b) (score m)
        × AtMost (score n) (score m))
unfolding better
better-some score b n = elim (Bool-cases (less (score b) (score n))) [
  | inl h ↦ (
    n,
    ap (λ t. if t then some n else some b) h,
    inr refl,
    less-true (score b) (score n) h,
    omega arith,
  )
  | inr h ↦ (
    b,
    ap (λ t. if t then some n else some b) h,
    inl refl,
    omega arith,
    less-false (score b) (score n) h,
  )
]

module _ (score : Node → Fraction) (proper : (n : Node) → IsProper (score n)) where
  -- The result is at least as good as the start and every candidate.
  best_of-highest :
      (b : Node) (ns : List Node)
      → ((r : Node) × (best_of score (some b) ns ≡ some r)
          × ((P : Node → Type 0) → P b → All P ns → P r)
          × AtMost (score b) (score r)
          × All (λ n. AtMost (score n) (score r)) ns)
  unfolding best_of
  best_of-highest b [] = (b, refl, (λ P p q. p), omega arith, tt)
  best_of-highest b (n ∷ ns) =
      let (m, e, from, bm, nm) = better-some score b n in
      let (r, e', keep, mr, rest) = best_of-highest m ns in
      (
        r,
        ap (λ t. best_of score t ns) e ∙ e',
        (λ P p q.
            keep P (elim from [ inl e ↦ subst P (sym e) p | inr e ↦ subst P (sym e) q.0 ]) q.1),
        AtMost-trans (score b) (score m) (score r) (proper m) bm mr,
        (AtMost-trans (score n) (score m) (score r) (proper m) nm mr, rest),
      )

-- What holds of all holds of those that pass, which pass.
filter-All :
    {A : Type 0} (p : A → Bool) (Q : A → Type 0) (xs : List A)
    → All Q xs
    → All (λ x. (p x ≡ true) × Q x) (filter p xs)
filter-All p Q [] h = tt
filter-All p Q (x ∷ xs) h = ground (arith, h.0, filter-All p Q xs h.1)

All-filter :
    {A : Type 0} (p : A → Bool) (Q : A → Type 0) (xs : List A)
    → All Q (filter p xs)
    → All (λ x. p x ≡ true → Q x) xs
All-filter p Q [] h = tt
All-filter p Q (x ∷ xs) h = elim (Bool-cases (p x)) [
  | inl e ↦
      let (q, qs) : All Q (x ∷ filter p xs) =
        subst (All Q) (ap (λ t. elim t [ true ↦ x ∷ filter p xs | false ↦ filter p xs ]) e) h in
      ((λ _. q), All-filter p Q xs qs)
  | inr e ↦ (
    (λ pass. cc),
    All-filter p Q xs
        (subst (All Q) (ap (λ t. elim t [ true ↦ x ∷ filter p xs | false ↦ filter p xs ]) e) h),
  )
]

All-Memᴰ : {A : Type 0} (xs : List A) → All (λ x. Memᴰ x xs) xs
All-Memᴰ [] = tt
All-Memᴰ (x ∷ xs) = (
  Memᴰ.head refl,
  All-imp (λ y. Memᴰ y xs) (λ y. Memᴰ y (x ∷ xs)) xs (λ y m. Memᴰ.tail m) (All-Memᴰ xs),
)

-- A server for the automatic choice: a usable row of the list, and no usable row scores higher.
pub record IsBest (o : Options) (ns : List Node) (r : Node) : Type 0 where
  pub listed : Memᴰ r ns
  pub usable : is_node_usable o.paid r ≡ true
  pub highest :
      All (λ n. is_node_usable o.paid n ≡ true → AtMost (total_score o n) (total_score o r)) ns

abbrev pub NoneUsable : Bool → List Node → Type 0
NoneUsable paid = All (λ n. is_node_usable paid n ≡ false)

none_passes : (p : Node → Bool) (xs : List Node) → filter p xs ≡ [] → All (λ x. p x ≡ false) xs
none_passes p [] h = tt
none_passes p (x ∷ xs) h = elim (Bool-cases (p x)) [
  | inl e ↦ ground (arith, e)
  | inr e ↦ (e, none_passes p xs (ground (arith, e)))
]

-- Automatic choice gives a best server, or there is no usable one in the list.
pub best_node_lem :
    (o : Options) (ns : List Node)
    → ((best_node o ns ≡ none) × NoneUsable o.paid ns)
      ⊎ ((r : Node) × (best_node o ns ≡ some r) × IsBest o ns r)
unfolding best_node best_of better
best_node_lem o ns = go (filter (is_node_usable o.paid) ns) refl
  where
    score : Node → Fraction
    score = total_score o

    go :
        (xs : List Node)
        → filter (is_node_usable o.paid) ns ≡ xs
        → ((best_of score none xs ≡ none) × NoneUsable o.paid ns)
          ⊎ ((r : Node) × (best_of score none xs ≡ some r) × IsBest o ns r)
    go [] e = inl (refl, none_passes (is_node_usable o.paid) ns e)
    go (x ∷ xs) e =
        let (r, found, keep, first, rest) = best_of-highest score (total_score-IsProper o) x xs in
        let passed : All (λ n. (is_node_usable o.paid n ≡ true) × Memᴰ n ns) (x ∷ xs) =
          subst (All (λ n. (is_node_usable o.paid n ≡ true) × Memᴰ n ns)) e
            (filter-All (is_node_usable o.paid) (λ n. Memᴰ n ns) ns (All-Memᴰ ns)) in
        let (pass, mem) =
          keep (λ n. (is_node_usable o.paid n ≡ true) × Memᴰ n ns) passed.0 passed.1 in
        inr (
          r,
          found,
          record {
            listed = mem;
            usable = pass;
            highest =
                All-filter (is_node_usable o.paid) (λ n. AtMost (total_score o n) (total_score o r))
                  ns
                  (subst (All (λ n. AtMost (total_score o n) (total_score o r))) (sym e)
                    (first, rest));
          },
        )
