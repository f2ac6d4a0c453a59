-- ===== src/Server/Results.antt =====
-- What follows from a chain of checks that ended well (`Result` of the server's tables).
use gluk_vpn.Common.{Bool, true, false, Option, none, some, ◌≡◌, ◌⊎◌, inl, inr, refl, ap}
use gluk_vpn.Server.Store.{Refusal, Result, ok, err, ◌>>=◌, refuse_if, or_refuse}

pub bind-ok :
    {A B : Type 0} (r : Result A) (f : A → Result B) {b : B}
    → (r >>= f) ≡ ok b
    → (a : A) × (r ≡ ok a) × (f a ≡ ok b)
bind-ok (ok a) f e = (a, refl, e)
bind-ok (err x) f e = cc

pub refuse_if-ok : (b : Bool) (x : Refusal) {u : Unit} → refuse_if b x ≡ ok u → b ≡ false
refuse_if-ok true x e = cc
refuse_if-ok false x e = refl

-- A check and what comes after it.
pub checked-ok :
    {B : Type 0} (b : Bool) (x : Refusal) (f : Unit → Result B) {r : B}
    → (refuse_if b x >>= f) ≡ ok r
    → (b ≡ false) × (f tt ≡ ok r)
checked-ok true x f e = cc
checked-ok false x f e = (refl, e)

-- A lookup and what comes after it.
pub found-ok :
    {A B : Type 0} (o : Option A) (x : Refusal) (f : A → Result B) {r : B}
    → (or_refuse o x >>= f) ≡ ok r
    → (a : A) × (o ≡ some a) × (f a ≡ ok r)
found-ok none x f e = cc
found-ok (some a) x f e = (a, refl, e)

pub ok-inj : {A : Type 0} {a b : A} → ok a ≡ ok b → a ≡ b
ok-inj {A} {a} e = ap (λ (r : Result A). elim r [ ok x ↦ x | err x ↦ a ]) e

pub Result-cases :
    {A : Type 0} (r : Result A) → ((x : Refusal) × (r ≡ err x)) ⊎ ((a : A) × (r ≡ ok a))
Result-cases (err x) = inl (x, refl)
Result-cases (ok a) = inr (a, refl)
