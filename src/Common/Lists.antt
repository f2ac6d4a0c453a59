-- ===== src/Common/Lists.antt =====
-- Lists measured and indexed by native numbers, and predicates and counts over them.
use Prim.Native.Nat.{ℕ, zero, suc, ◌+◌, ◌<◌}
use mathlib.Core.Path.{◌≡◌, refl, subst}
use mathlib.Core.Bool.{Bool, true, false, ◌&&◌, ◌||◌}
use mathlib.Core.List.{List, [], ◌∷◌, ◌++◌, map}
use mathlib.Core.Logic.{◌⊎◌, inl, inr, ◌≢◌}
use mathlib.Core.Option.{Option, none, some}
use native.Mathlib.Omega.{arith}
use gluk_vpn.Common.Tests.{◌==◌, if◌then◌else◌}

module _ {ℓ} {A : Type ℓ} where
  abbrev pub length : List A → ℕ
  length [] = 0
  length (x ∷ xs) = suc (length xs)

  abbrev pub get_elem? : List A → ℕ → Option A
  get_elem? [] i = none
  get_elem? (x ∷ xs) zero = some x
  get_elem? (x ∷ xs) (suc i) = get_elem? xs i

  -- A write out of bounds changes nothing.
  abbrev pub set : List A → ℕ → A → List A
  set [] i v = []
  set (x ∷ xs) zero v = v ∷ xs
  set (x ∷ xs) (suc i) v = x ∷ set xs i v

  abbrev pub any : (A → Bool) → List A → Bool
  any p [] = false
  any p (x ∷ xs) = p x || any p xs

  abbrev pub all : (A → Bool) → List A → Bool
  all p [] = true
  all p (x ∷ xs) = p x && all p xs

  -- `Array.prototype.filter`, on a Boolean test.
  abbrev pub filter : (A → Bool) → List A → List A
  filter p [] = []
  filter p (x ∷ xs) = elim (p x) [ true ↦ x ∷ filter p xs | false ↦ filter p xs ]

  abbrev pub count : (A → Bool) → List A → ℕ
  count p [] = 0
  count p (x ∷ xs) = elim (p x) [ true ↦ suc (count p xs) | false ↦ count p xs ]

  abbrev pub All {κ} : (A → Type κ) → List A → Type κ
  All P [] = Unit
  All P (x ∷ xs) = P x × All P xs

  pub length-append : (xs ys : List A) → length (xs ++ ys) ≡ length xs + length ys
  length-append [] ys = omega arith
  length-append (x ∷ xs) ys = omega (arith, length-append xs ys)

  pub count-append : (p : A → Bool) (xs ys : List A) → count p (xs ++ ys) ≡ count p xs + count p ys
  count-append p [] ys = omega arith
  count-append p (x ∷ xs) ys = ground (arith, count-append p xs ys)

  count_zero :
      (p : A → Bool) (x : A) (xs : List A) → count p (x ∷ xs) ≡ 0 → (p x ≡ false) × (count p xs ≡ 0)
  count_zero p x xs h = ground arith

  pub count-none : (p : A → Bool) (xs : List A) → count p xs ≡ 0 → All (λ x. p x ≡ false) xs
  count-none p [] h = tt
  count-none p (x ∷ xs) h = let (a, b) = count_zero p x xs h in (a, count-none p xs b)

  -- Writing at a position trades what stood there for what is written.
  pub count-set :
      (p : A → Bool) (xs : List A) (i : ℕ) (x y : A)
      → get_elem? xs i ≡ some x
      → count p (set xs i y) + count p (x ∷ []) ≡ count p xs + count p (y ∷ [])
  count-set p [] i x y h = ground arith
  count-set p (z ∷ xs) zero x y h = ground arith
  count-set p (z ∷ xs) (suc i) x y h = ground (arith, count-set p xs i x y)

module _ {ℓ κ} {A : Type ℓ} (P : A → Type κ) where
  pub All-get : (xs : List A) (i : ℕ) {x : A} → All P xs → get_elem? xs i ≡ some x → P x
  All-get [] i h e = cc
  All-get (y ∷ xs) zero {x} h e = let same : y ≡ x = cc in subst P same h.0
  All-get (y ∷ xs) (suc i) h e = All-get xs i h.1 e

  pub All-set : (xs : List A) (i : ℕ) (x : A) → All P xs → P x → All P (set xs i x)
  All-set [] i x h p = tt
  All-set (y ∷ xs) zero x h p = (p, h.1)
  All-set (y ∷ xs) (suc i) x h p = (h.0, All-set xs i x h.1 p)

  pub All-append : (xs ys : List A) → All P xs → All P ys → All P (xs ++ ys)
  All-append [] ys h k = k
  All-append (x ∷ xs) ys h k = (h.0, All-append xs ys h.1 k)

  pub All-imp {μ} : (Q : A → Type μ) (xs : List A) → ((x : A) → P x → Q x) → All P xs → All Q xs
  All-imp Q [] f h = tt
  All-imp Q (x ∷ xs) f h = (f x h.0, All-imp Q xs f h.1)

-- What a write does to a read.
pub get_elem?-set {ℓ} :
    {A : Type ℓ} (xs : List A) (i j : ℕ) (v : A)
    → get_elem? (set xs i v) j
      ≡ elim (get_elem? xs j) [ none ↦ none | some x ↦ if i == j then some v else some x ]
get_elem?-set [] i j v = refl
get_elem?-set (x ∷ xs) zero zero v = ground arith
get_elem?-set (x ∷ xs) zero (suc j) v = ground arith
get_elem?-set (x ∷ xs) (suc i) zero v = ground arith
get_elem?-set (x ∷ xs) (suc i) (suc j) v = ground (arith, get_elem?-set xs i j v)

module _ {ℓ} {A : Type ℓ} where
  pub get_elem?-append_self :
      (xs ys : List A) (x : A) → get_elem? (xs ++ x ∷ ys) (length xs) ≡ some x
  get_elem?-append_self [] ys x = refl
  get_elem?-append_self (z ∷ xs) ys x = get_elem?-append_self xs ys x

  pub get_elem?-append_left :
      (xs ys : List A) (i : ℕ) {x : A} → get_elem? xs i ≡ some x → get_elem? (xs ++ ys) i ≡ some x
  get_elem?-append_left [] ys i e = cc
  get_elem?-append_left (z ∷ xs) ys zero e = e
  get_elem?-append_left (z ∷ xs) ys (suc i) e = get_elem?-append_left xs ys i e

  -- What is read from a list with one more item at its end.
  pub get_elem?-snoc :
      (xs : List A) (y : A) (i : ℕ) {x : A}
      → get_elem? (xs ++ y ∷ []) i ≡ some x
      → (get_elem? xs i ≡ some x) ⊎ ((i ≡ length xs) × (y ≡ x))
  get_elem?-snoc [] y zero e = inr (refl, cc)
  get_elem?-snoc [] y (suc i) e = cc
  get_elem?-snoc (z ∷ xs) y zero e = inl e
  get_elem?-snoc (z ∷ xs) y (suc i) e = elim (get_elem?-snoc xs y i e) [
    | inl old ↦ inl old
    | inr (at, new) ↦ inr (ground (arith, at), new)
  ]

  pub get_elem?-lt : (xs : List A) (i : ℕ) {x : A} → get_elem? xs i ≡ some x → i < length xs
  get_elem?-lt [] i e = cc
  get_elem?-lt (z ∷ xs) zero e = omega arith
  get_elem?-lt (z ∷ xs) (suc i) e = omega (arith, get_elem?-lt xs i e)

  pub length-set : (xs : List A) (i : ℕ) (v : A) → length (set xs i v) ≡ length xs
  length-set [] i v = refl
  length-set (z ∷ xs) zero v = refl
  length-set (z ∷ xs) (suc i) v = ground (arith, length-set xs i v)

  -- Where a list that was written at `i` is read.
  pub get_elem?-set_cases :
      (xs : List A) (i j : ℕ) (v : A) {x : A}
      → get_elem? (set xs i v) j ≡ some x
      → ((i ≡ j) × (v ≡ x)) ⊎ ((i ≢ j) × (get_elem? xs j ≡ some x))
  get_elem?-set_cases [] i j v e = cc
  get_elem?-set_cases (z ∷ xs) zero zero v e = inl (refl, cc)
  get_elem?-set_cases (z ∷ xs) zero (suc j) v e = inr (λ h. omega arith, e)
  get_elem?-set_cases (z ∷ xs) (suc i) zero v e = inr (λ h. omega arith, e)
  get_elem?-set_cases (z ∷ xs) (suc i) (suc j) v e = elim (get_elem?-set_cases xs i j v e) [
    | inl (at, new) ↦ inl (omega (arith, at), new)
    | inr (off, old) ↦ inr ((λ h. off (omega (arith, h))), old)
  ]

module _ {ℓ κ} {A : Type ℓ} {B : Type κ} where
  pub length-map : (f : A → B) (xs : List A) → length (map f xs) ≡ length xs
  length-map f [] = refl
  length-map f (x ∷ xs) = ground (arith, length-map f xs)

  pub get_elem?-map :
      (f : A → B) (xs : List A) (i : ℕ) {y : B}
      → get_elem? (map f xs) i ≡ some y
      → ((x : A) × (get_elem? xs i ≡ some x) × (f x ≡ y))
  get_elem?-map f [] i e = cc
  get_elem?-map f (x ∷ xs) zero e = (x, refl, cc)
  get_elem?-map f (x ∷ xs) (suc i) e = get_elem?-map f xs i e

  pub map-get_elem? :
      (f : A → B) (xs : List A) (i : ℕ) {x : A}
      → get_elem? xs i ≡ some x
      → get_elem? (map f xs) i ≡ some (f x)
  map-get_elem? f [] i e = cc
  map-get_elem? f (y ∷ xs) zero e = cc
  map-get_elem? f (y ∷ xs) (suc i) e = map-get_elem? f xs i e
