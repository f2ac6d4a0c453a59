-- ===== src/Server/Routes/Excluded.antt =====
-- What is left out of the tunnel: the exclusions as they are read, sorted and merged.
use Prim.Native.Nat.{max}
use gluk_vpn.Common.{
  ℕ, Bool, true, false, not, ◌&&◌, ◌||◌, Option, none, some, List, [], ◌∷◌, ◌+◌, ◌-◌, ◌*◌, ◌/◌, ◌^◌,
  ◌≤◌, ◌≡◌, refl, ap, subst, ◌∙◌, arith, leb, ltb, ◌==◌, if◌then◌else◌, any, All, All-imp, length,
  Text, split, before, is_empty_text, Bool-cases, inl, inr,
}
use gluk_vpn.Extension.Pac.{trim}
use gluk_vpn.Server.Ip.{read_digits}
use gluk_vpn.Server.Routes.{
  last_ipv4, max_routes, Range, snapped, parse_range, Block, push_range, is_whole, ranges_of,
  insert_range, sort_ranges, merge_from, merge_ranges, routes_from, everything, routes_around,
  bits_text, read_octets, is_slash, is_short_number, split_tunnel_routes,
}
use gluk_vpn.Server.Routes.Blocks.{covers, power-positive}
use gluk_vpn.Server.Routes.Holes.{in_range, IsRange, Spaced, routes_cover}

-- Sorting.
any-insert :
    (x : ℕ) (r : Range) (rs : List Range)
    → any (in_range x) (insert_range r rs) ≡ (in_range x r || any (in_range x) rs)
any-insert x r [] = refl
any-insert x r (s ∷ ss) = elim (Bool-cases (leb r.start s.start)) [
  | inl e ↦ rw (insert_range, e) refl
  | inr e ↦
      rw (insert_range, e)
        (ap (λ b. in_range x s || b) (any-insert x r ss)
          ∙ swap (in_range x s) (in_range x r) (any (in_range x) ss))
]
  where
    swap : (a b c : Bool) → (a || (b || c)) ≡ (b || (a || c))
    swap true true c = refl
    swap true false c = refl
    swap false b c = refl

any-sort : (x : ℕ) (rs : List Range) → any (in_range x) (sort_ranges rs) ≡ any (in_range x) rs
unfolding sort_ranges
any-sort x [] = refl
any-sort x (r ∷ rs) = any-insert x r (sort_ranges rs) ∙ ap (λ b. in_range x r || b) (any-sort x rs)

abbrev IsSorted : List Range → Type 0
IsSorted [] = Unit
IsSorted (r ∷ rs) = All (λ (s : Range). r.start ≤ s.start) rs × IsSorted rs

All-insert :
    (P : Range → Type 0) (r : Range) (rs : List Range) → P r → All P rs → All P (insert_range r rs)
All-insert P r [] p h = (p, tt)
All-insert P r (s ∷ ss) p h = elim (Bool-cases (leb r.start s.start)) [
  | inl e ↦ rw (insert_range, e) (p, h)
  | inr e ↦ rw (insert_range, e) (h.0, All-insert P r ss p h.1)
]

insert-IsSorted : (r : Range) (rs : List Range) → IsSorted rs → IsSorted (insert_range r rs)
insert-IsSorted r [] h = (tt, tt)
insert-IsSorted r (s ∷ ss) h = elim (Bool-cases (leb r.start s.start)) [
  | inl e ↦
      let low : r.start ≤ s.start = ground arith in
      rw (insert_range, e)
        (
          (
            low,
            All-imp (λ (t : Range). s.start ≤ t.start) (λ (t : Range). r.start ≤ t.start) ss
                (λ t k. omega arith) h.0,
          ),
          h,
        )
  | inr e ↦
      rw (insert_range, e)
        (
          All-insert (λ (t : Range). s.start ≤ t.start) r ss (ground arith) h.0,
          insert-IsSorted r ss h.1,
        )
]

sort-IsSorted : (rs : List Range) → IsSorted (sort_ranges rs)
unfolding sort_ranges
sort-IsSorted [] = tt
sort-IsSorted (r ∷ rs) = insert-IsSorted r (sort_ranges rs) (sort-IsSorted rs)

All-sort : (P : Range → Type 0) (rs : List Range) → All P rs → All P (sort_ranges rs)
unfolding sort_ranges
All-sort P [] h = tt
All-sort P (r ∷ rs) h = All-insert P r (sort_ranges rs) h.0 (All-sort P rs h.1)

-- Merging.
joined_range :
    (x a b c d : ℕ)
    → a ≤ c
    → c ≤ b + 1
    → (leb a x && leb x (max b d)) ≡ ((leb a x && leb x b) || (leb c x && leb x d))
joined_range x a b c d h k = ground arith

any-merge :
    (x : ℕ) (last : Range) (rs : List Range)
    → IsSorted (last ∷ rs)
    → any (in_range x) (merge_from last rs) ≡ (in_range x last || any (in_range x) rs)
unfolding merge_from
any-merge x last [] h = refl
any-merge x last (r ∷ rs) ((low, lows), (above, sorted)) =
    elim (Bool-cases (leb r.start (last.end + 1))) [
      | inl e ↦
          rw (merge_from, e)
            (any-merge x (record last { end = max last.end r.end }) rs (lows, sorted)
              ∙ ap (λ b. b || any (in_range x) rs)
                  (joined_range x last.start last.end r.start r.end low (ground arith))
              ∙ assoc (in_range x last) (in_range x r) (any (in_range x) rs))
      | inr e ↦
          rw (merge_from, e) (ap (λ b. in_range x last || b) (any-merge x r rs (above, sorted)))
    ]
  where
    assoc : (a b c : Bool) → ((a || b) || c) ≡ (a || (b || c))
    assoc true b c = refl
    assoc false b c = refl

merge-Spaced :
    (cursor : ℕ) (last : Range) (rs : List Range)
    → cursor ≤ last.start
    → IsRange last
    → All IsRange rs
    → Spaced cursor (merge_from last rs)
unfolding merge_from Spaced
merge-Spaced cursor last [] low valid h = (low, valid, tt)
merge-Spaced cursor last (r ∷ rs) low valid h = elim (Bool-cases (leb r.start (last.end + 1))) [
  | inl e ↦
      rw (merge_from, e)
        (merge-Spaced cursor (record last { end = max last.end r.end }) rs low (ground arith) h.1)
  | inr e ↦ rw (merge_from, e) (low, valid, merge-Spaced (last.end + 1) r rs (ground arith) h.0 h.1)
]

-- Reading.
snapped-IsRange : (bits : ℕ) (o : Option ℕ) (r : Range) → snapped bits o ≡ some r → IsRange r
snapped-IsRange bits none r e = cc
snapped-IsRange bits (some value) r e =
    let same : made ≡ r = cc in subst IsRange same (omega (arith, power-positive (32 - bits)))
  where
    made : Range
    made = record {
      start = value / 2 ^ (32 - bits) * 2 ^ (32 - bits);
      end = value / 2 ^ (32 - bits) * 2 ^ (32 - bits) + 2 ^ (32 - bits) - 1;
    }

only_if :
    {A : Type 0} (b : Bool) (o : Option A) {a : A} → (if b then none else o) ≡ some a → o ≡ some a
only_if true o e = cc
only_if false o e = e

parse_range-IsRange : (t : Text) (r : Range) → parse_range t ≡ some r → IsRange r
unfolding parse_range
parse_range-IsRange t r e =
    snapped-IsRange (read_digits 0 (bits_text (trim t)))
      (read_octets 0 (split b'.' (before is_slash (trim t)))) r
      (only_if (not (length (split b'.' (before is_slash (trim t))) == 4)) _ (
        only_if
          (is_empty_text (trim t)
            || (not (is_short_number 2 (bits_text (trim t)))
                || ltb 32 (read_digits 0 (bits_text (trim t)))))
          _ e))

push_range-IsRange :
    (o : Option Range) (rs : List Range)
    → ((r : Range) → o ≡ some r → IsRange r)
    → All IsRange rs
    → All IsRange (push_range o rs)
push_range-IsRange none rs f h = h
push_range-IsRange (some r) rs f h = elim (Bool-cases (is_whole r)) [
  | inl e ↦ rw (push_range, e) h
  | inr e ↦ rw (push_range, e) (f r refl, h)
]

ranges_of-IsRange : (ts : List Text) → All IsRange (ranges_of ts)
unfolding ranges_of
ranges_of-IsRange [] = tt
ranges_of-IsRange (t ∷ ts) =
    push_range-IsRange (parse_range t) (ranges_of ts) (parse_range-IsRange t) (ranges_of-IsRange ts)

-- The routes around the ranges, before their number is looked at.
abbrev pub around : List Range → List Block
around rs = routes_from 0 (merge_ranges (sort_ranges rs))

no_holes : Spaced 0 []
unfolding Spaced
no_holes = tt

from_zero : (x : ℕ) (b : Bool) → (leb 0 x && b) ≡ b
from_zero x b = ground arith

covers-around :
    (rs : List Range) (x : ℕ)
    → All IsRange rs
    → x ≤ last_ipv4
    → covers (around rs) x ≡ not (any (in_range x) rs)
unfolding merge_ranges
covers-around rs x h top =
    sorted_covers (sort_ranges rs) (sort-IsSorted rs) (All-sort IsRange rs h)
    ∙ ap not (any-sort x rs)
  where
    sorted_covers :
        (ss : List Range)
        → IsSorted ss
        → All IsRange ss
        → covers (routes_from 0 (merge_ranges ss)) x ≡ not (any (in_range x) ss)
    sorted_covers [] s k = routes_cover 0 [] x top no_holes ∙ from_zero x true
    sorted_covers (r ∷ rs) s k =
        routes_cover 0 (merge_from r rs) x top (merge-Spaced 0 r rs (omega arith) k.0 k.1)
        ∙ from_zero x (not (any (in_range x) (merge_from r rs)))
        ∙ ap not (any-merge x r rs s)

covers-everything : (x : ℕ) → x ≤ last_ipv4 → covers everything x ≡ true
covers-everything x top = ground arith

-- What the routes around the ranges cover.
pub routes_of_ranges :
    (ts : List Text) (x : ℕ)
    → x ≤ last_ipv4
    → (any (in_range x) (ranges_of ts) ≡ false → covers (split_tunnel_routes ts) x ≡ true)
      × (1 ≤ length (around (ranges_of ts))
          → length (around (ranges_of ts)) ≤ max_routes
          → any (in_range x) (ranges_of ts) ≡ true
          → covers (split_tunnel_routes ts) x ≡ false)
unfolding split_tunnel_routes
routes_of_ranges ts x top = by_ranges (ranges_of ts) (ranges_of-IsRange ts)
  where
    by_ranges :
        (rs : List Range)
        → All IsRange rs
        → (any (in_range x) rs ≡ false → covers (routes_around rs) x ≡ true)
          × (1 ≤ length (around rs)
              → length (around rs) ≤ max_routes
              → any (in_range x) rs ≡ true
              → covers (routes_around rs) x ≡ false)
    by_ranges [] h = ((λ e. covers-everything x top), λ low high e. cc)
    by_ranges (r ∷ rs) h =
        let exact = covers-around (r ∷ rs) x h top in
        elim (Bool-cases
          (length (around (r ∷ rs)) == 0 || ltb max_routes (length (around (r ∷ rs))))) [
            | inl e ↦
                rw (routes_around, e)
                  ((λ off. covers-everything x top), λ low high on. ground arith)
            | inr e ↦
                rw (routes_around, e)
                  ((λ off. exact ∙ ap not off), λ low high on. exact ∙ ap not on)
          ]
