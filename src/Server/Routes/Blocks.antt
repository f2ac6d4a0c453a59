-- ===== src/Server/Routes/Blocks.antt =====
-- The blocks of a range: `rangeToCidrs`.
use gluk_vpn.Common.{
  ℕ, zero, suc, Bool, ◌&&◌, ◌||◌, List, ◌+◌, ◌-◌, ◌*◌, ◌/◌, ◌%◌, ◌^◌, ◌≤◌, ◌≡◌, sym, ap, ◌∙◌, arith,
  leb, ltb, ◌==◌, ==_iff, any, All, Bool-cases, inl, inr,
}
use native.Mathlib.Nat.{pow-succ', div-add-mod', mul_assoc}
use gluk_vpn.Server.Routes.{Block, alignment_loop, alignment_at, halve_to_fit, range_to_cidrs}

abbrev pub in_block : ℕ → Block → Bool
in_block x b = leb b.address x && ltb x (b.address + 2 ^ b.exponent)

-- A client with these routes sends `x` through the tunnel.
abbrev pub covers : List Block → ℕ → Bool
covers bs x = any (in_block x) bs

pub power-positive : (k : ℕ) → 1 ≤ 2 ^ k
power-positive zero = omega arith
power-positive (suc k) = omega (arith, power-positive k, pow-succ' 2 k)

halved : (cursor end k : ℕ) → cursor ≤ end → cursor + 2 ^ halve_to_fit cursor end k ≤ end + 1
unfolding halve_to_fit
halved cursor end zero h = omega arith
halved cursor end (suc k) h = elim (Bool-cases (ltb end (cursor + 2 ^ suc k - 1))) [
  | inl e ↦ rw (halve_to_fit, e) (halved cursor end k h)
  | inr e ↦ rw (halve_to_fit, e) (ground arith)
]

one_block :
    (c w e x : ℕ)
    → 1 ≤ w
    → c + w ≤ e + 1
    → ((leb c x && ltb x (c + w)) || (leb (c + w) x && leb x e)) ≡ (leb c x && leb x e)
one_block c w e x p h = ground arith

-- With a round for each address, the blocks hold exactly the addresses of the range.
pub range_covers :
    (fuel cursor end x : ℕ)
    → end + 1 ≤ cursor + fuel
    → covers (range_to_cidrs fuel cursor end) x ≡ (leb cursor x && leb x end)
unfolding range_to_cidrs
range_covers zero cursor end x h = ground arith
range_covers (suc fuel) cursor end x h = elim (Bool-cases (leb cursor end)) [
  | inr e ↦ rw (range_to_cidrs, e) (ground arith)
  | inl e ↦
      let k = halve_to_fit cursor end (alignment_at cursor) in
      let fits : cursor + 2 ^ k ≤ end + 1 =
        halved cursor end (alignment_at cursor) (ground arith) in
      let rest = range_covers fuel (cursor + 2 ^ k) end x (omega (arith, power-positive k)) in
      rw (range_to_cidrs, e)
        (ap (λ b. (leb cursor x && ltb x (cursor + 2 ^ k)) || b) rest
          ∙ one_block cursor (2 ^ k) end x (power-positive k) fits)
]

-- An address at which a block of 2 ^ k addresses may start.
abbrev pub IsAligned : ℕ → ℕ → Type 0
IsAligned value k = (q : ℕ) × (value ≡ q * 2 ^ k)

loop-IsAligned :
    (fuel value k : ℕ) → IsAligned value k → IsAligned value (alignment_loop fuel value k)
unfolding alignment_loop
loop-IsAligned zero value k h = h
loop-IsAligned (suc fuel) value k h = elim (Bool-cases (value % 2 ^ (k + 1) == 0)) [
  | inr e ↦ rw (alignment_loop, e) h
  | inl e ↦
      let exact = div-add-mod' value (2 ^ (k + 1)) in
      let none_left = (==_iff (value % 2 ^ (k + 1)) 0).0 e in
      rw (alignment_loop, e)
        (loop-IsAligned fuel value (k + 1) (value / 2 ^ (k + 1), omega (arith, exact, none_left)))
]

alignment_at-IsAligned : (value : ℕ) → IsAligned value (alignment_at value)
unfolding alignment_at
alignment_at-IsAligned value = elim (Bool-cases (value == 0)) [
  | inl e ↦ rw (alignment_at, e) (0, omega (arith, (==_iff value 0).0 e))
  | inr e ↦ rw (alignment_at, e) (loop-IsAligned 32 value 0 (value, omega arith))
]

halved-IsAligned :
    (cursor end k : ℕ) → IsAligned cursor k → IsAligned cursor (halve_to_fit cursor end k)
unfolding halve_to_fit
halved-IsAligned cursor end zero h = h
halved-IsAligned cursor end (suc k) (q, e) = elim (Bool-cases (ltb end (cursor + 2 ^ suc k - 1))) [
  | inl f ↦
      rw (halve_to_fit, f)
        (halved-IsAligned cursor end k
          (q * 2, e ∙ ap (λ m. q * m) (pow-succ' 2 k) ∙ sym (mul_assoc q 2 (2 ^ k))))
  | inr f ↦ rw (halve_to_fit, f) (q, e)
]

-- Each block starts where a block of its size may, so that its text stands for just its addresses.
pub range-IsAligned :
    (fuel cursor end : ℕ)
    → All (λ (b : Block). IsAligned b.address b.exponent) (range_to_cidrs fuel cursor end)
unfolding range_to_cidrs
range-IsAligned zero cursor end = tt
range-IsAligned (suc fuel) cursor end = elim (Bool-cases (leb cursor end)) [
  | inr e ↦ rw (range_to_cidrs, e) tt
  | inl e ↦
      let k = halve_to_fit cursor end (alignment_at cursor) in
      rw (range_to_cidrs, e)
        (
          halved-IsAligned cursor end (alignment_at cursor) (alignment_at-IsAligned cursor),
          range-IsAligned fuel (cursor + 2 ^ k) end,
        )
]
