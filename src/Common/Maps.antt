-- ===== src/Common/Maps.antt =====
-- A `Map` with text keys, as the list of its entries in insertion order: `set` on a key that is
-- there keeps the entry's place, as JavaScript does.
use Prim.Native.String.{String}
use mathlib.Core.Path.{◌≡◌, refl}
use mathlib.Core.Bool.{Bool}
use mathlib.Core.List.{List, [], ◌∷◌}
use mathlib.Core.Option.{Option, none, some}
use native.Mathlib.Omega.{arith}
use text.Mathlib.Text.{◌==◌}
use text.Mathlib.TextEquality.{eq_iff}
use mathlib.Core.Logic.{◌≢◌, inl, inr}
use gluk_vpn.Common.Tests.{if◌then◌else◌, Bool-cases}

abbrev pub StringMap {ℓ} : Type ℓ → Type ℓ
StringMap V = List (String × V)

module _ {ℓ} {V : Type ℓ} where
  -- `map.get(key)`
  unfoldable pub lookup : String → StringMap V → Option V
  lookup key [] = none
  lookup key (entry ∷ rest) = if entry.0 == key then some (entry.1) else lookup key rest

  -- `map.delete(key)`
  unfoldable pub erase : String → StringMap V → StringMap V
  erase key [] = []
  erase key (entry ∷ rest) = if entry.0 == key then erase key rest else entry ∷ erase key rest

  unfoldable pub map_values : (V → V) → StringMap V → StringMap V
  map_values f [] = []
  map_values f ((key, w) ∷ rest) = (key, f w) ∷ map_values f rest

  -- `map.set(key, v)`
  unfoldable pub insert : String → V → StringMap V → StringMap V
  insert key v [] = (key, v) ∷ []
  insert key v (entry ∷ rest) =
      if entry.0 == key then (key, v) ∷ rest else entry ∷ insert key v rest

  -- The cleanup loops: `for (const [k, v] of m) if (!keep(k, v)) m.delete(k)`.
  unfoldable pub retain : (String → V → Bool) → StringMap V → StringMap V
  retain keep [] = []
  retain keep ((key, w) ∷ rest) =
      if keep key w then (key, w) ∷ retain keep rest else retain keep rest

  -- A change of the object that an entry refers to; no entry, no change.
  unfoldable pub update : String → (V → V) → StringMap V → StringMap V
  update k f [] = []
  update k f ((j, w) ∷ m) = if j == k then (j, f w) ∷ m else (j, w) ∷ update k f m

  -- What `get` gives behind each change.
  pub lookup-erase :
      (gone key : String) (m : StringMap V)
      → lookup key (erase gone m) ≡ (if gone == key then none else lookup key m)
  unfolding lookup erase
  lookup-erase gone key [] = ground arith
  lookup-erase gone key ((head, w) ∷ rest) =
      ground (arith, eq_iff gone key, eq_iff head gone, eq_iff head key, lookup-erase gone key rest)

  pub lookup-insert :
      (new key : String) (v : V) (m : StringMap V)
      → lookup key (insert new v m) ≡ (if new == key then some v else lookup key m)
  unfolding lookup insert
  lookup-insert new key v [] = ground arith
  lookup-insert new key v ((head, w) ∷ rest) =
      ground (arith, eq_iff new key, eq_iff head new, eq_iff head key, lookup-insert new key v rest)

  abbrev pub on_some : (V → V) → Option V → Option V
  on_some f none = none
  on_some f (some v) = some (f v)

  pub lookup-update :
      (k j : String) (f : V → V) (m : StringMap V)
      → lookup j (update k f m) ≡ (if k == j then on_some f (lookup j m) else lookup j m)
  unfolding lookup update
  lookup-update k j f [] = ground arith
  lookup-update k j f ((i, w) ∷ m) =
      ground (arith, eq_iff k j, eq_iff i k, eq_iff i j, lookup-update k j f m)

  pub lookup-map_values :
      (k : String) (f : V → V) (m : StringMap V)
      → lookup k (map_values f m) ≡ on_some f (lookup k m)
  unfolding lookup map_values
  lookup-map_values k f [] = refl
  lookup-map_values k f ((i, w) ∷ m) = ground (arith, eq_iff i k, lookup-map_values k f m)

  abbrev pub IsFresh : String → StringMap V → Type 0
  IsFresh k [] = Unit
  IsFresh k ((j, w) ∷ m) = (j ≢ k) × IsFresh k m

  -- No key twice, which `Map` guarantees.
  abbrev pub IsMap : StringMap V → Type 0
  IsMap [] = Unit
  IsMap ((j, w) ∷ m) = IsFresh j m × IsMap m

  IsFresh-lookup : (k : String) (m : StringMap V) → IsFresh k m → lookup k m ≡ none
  unfolding lookup
  IsFresh-lookup k [] h = refl
  IsFresh-lookup k ((i, w) ∷ m) h = ground (arith, eq_iff i k, IsFresh-lookup k m h.1)

  IsFresh-retain :
      (k : String) (keep : String → V → Bool) (m : StringMap V)
      → IsFresh k m
      → IsFresh k (retain keep m)
  unfolding retain
  IsFresh-retain k keep [] h = tt
  IsFresh-retain k keep ((i, w) ∷ m) h = ground (arith, IsFresh-retain k keep m h.1)

  abbrev pub keep_some : (V → Bool) → Option V → Option V
  keep_some p none = none
  keep_some p (some v) = if p v then some v else none

  pub lookup-retain :
      (k : String) (keep : String → V → Bool) (m : StringMap V)
      → IsMap m
      → lookup k (retain keep m) ≡ keep_some (keep k) (lookup k m)
  unfolding lookup retain
  lookup-retain k keep [] h = refl
  lookup-retain k keep ((i, w) ∷ m) h = elim (Bool-cases (i == k)) [
    | inl same ↦
        let e : i ≡ k = (eq_iff i k).0 same in
        ground (arith, e, IsFresh-lookup k (retain keep m) (IsFresh-retain k keep m (rw e at h.0)))
    | inr other ↦ ground (arith, other, lookup-retain k keep m h.1)
  ]
