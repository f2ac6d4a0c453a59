-- ===== src/Common/Texts.antt =====
-- Texts that the program walks character by character: lists of code points.
use Prim.Native.Nat.{ℕ, zero, suc, ◌+◌}
use mathlib.Core.Path.{◌≡◌}
use mathlib.Core.Logic.{◌↔◌}
use native.Mathlib.Omega.{arith}
use Prim.Native.Char.{code}
use Prim.Native.String.{String}
use mathlib.Core.Bool.{Bool, true, false, ◌&&◌, ◌||◌}
use mathlib.Core.List.{List, [], ◌∷◌, map}
use gluk_vpn.Common.Tests.{leb, ◌==◌, if◌then◌else◌}

abbrev pub Text : Type 0
Text = List ℕ

-- The code points of a quoted text.
abbrev pub codes : String → Text
codes String.[] = []
codes (String.◌∷◌ c s) = code c ∷ codes s

abbrev pub text_eq : Text → Text → Bool
text_eq [] [] = true
text_eq [] (d ∷ ds) = false
text_eq (c ∷ cs) [] = false
text_eq (c ∷ cs) (d ∷ ds) = c == d && text_eq cs ds

-- `text.startsWith(prefix)`, with the arguments in that order.
abbrev pub text_starts_with : Text → Text → Bool
text_starts_with cs [] = true
text_starts_with [] (p ∷ ps) = false
text_starts_with (c ∷ cs) (p ∷ ps) = c == p && text_starts_with cs ps

abbrev pub contains_code : ℕ → Text → Bool
contains_code k [] = false
contains_code k (c ∷ cs) = c == k || contains_code k cs

abbrev pub lower_code : ℕ → ℕ
lower_code c = if leb b'A' c && leb c b'Z' then c + 32 else c

-- `toLowerCase()` on ASCII.
abbrev pub to_lower : Text → Text
to_lower cs = map lower_code cs

-- `split(sep)`: the parts between the separators, one at least.
abbrev pub cons_head : ℕ → List Text → List Text
cons_head c [] = (c ∷ []) ∷ []
cons_head c (p ∷ ps) = (c ∷ p) ∷ ps

abbrev pub split : ℕ → Text → List Text
split sep [] = [] ∷ []
split sep (c ∷ cs) = if c == sep then [] ∷ split sep cs else cons_head c (split sep cs)

-- Drops the last character if it is `k`.
abbrev pub drop_last : ℕ → Text → Text
drop_last k [] = []
drop_last k (c ∷ []) = if c == k then [] else c ∷ []
drop_last k (c ∷ d ∷ cs) = c ∷ drop_last k (d ∷ cs)

-- Drops the first character if it is `k`.
abbrev pub drop_first : ℕ → Text → Text
drop_first k [] = []
drop_first k (c ∷ cs) = if c == k then cs else c ∷ cs

-- Drops the first `k` characters.
abbrev pub drop : ℕ → Text → Text
drop zero cs = cs
drop (suc k) [] = []
drop (suc k) (c ∷ cs) = drop k cs

-- What stands before the first character of which `p` holds: `split(c)[0]`.
abbrev pub before : (ℕ → Bool) → Text → Text
before p [] = []
before p (c ∷ cs) = if p c then [] else c ∷ before p cs

-- The rest, from the first character of which `p` holds.
abbrev pub from : (ℕ → Bool) → Text → Text
from p [] = []
from p (c ∷ cs) = if p c then c ∷ cs else from p cs

abbrev pub is_empty_text : Text → Bool
is_empty_text [] = true
is_empty_text (c ∷ cs) = false

pub text_eq_lem : (s t : Text) → ((text_eq s t ≡ true) ↔ (s ≡ t))
text_eq_lem [] [] = ground arith
text_eq_lem [] (d ∷ ds) = ground arith
text_eq_lem (c ∷ cs) [] = ground arith
text_eq_lem (c ∷ cs) (d ∷ ds) = ground (arith, text_eq_lem cs ds)
