-- ===== src/Base/Errors.antt =====
-- Errors as values: `throw` is `err`, and a chain of calls that may throw is a `do` block.
use mathlib.Core.Path.{◌≡◌, refl}
use mathlib.Core.Logic.{◌⊎◌, inl, inr}
use mathlib.Core.Bool.{Bool, true, false}
use mathlib.Core.List.{List, [], ◌∷◌}
use mathlib.Core.Option.{Option, none, some}

pub data Result {ℓ} (E : Type 0) (A : Type ℓ) : Type ℓ where
  err : E → Result E A
  ok : A → Result E A

abbrev pub ◌>>=◌ {ℓ₁ ℓ₂} :
    {E : Type 0} {X : Type ℓ₁} {Y : Type ℓ₂} → Result E X → (X → Result E Y) → Result E Y
err thrown >>= next = err thrown
ok x >>= next = next x

-- Two statements, the first without a value.
abbrev pub ◌>>◌ {ℓ} : {E : Type 0} {Y : Type ℓ} → Result E (Unit {0}) → Result E Y → Result E Y
err thrown >> rest = err thrown
ok done >> rest = rest

infixl 5 ◌>>=◌ ◌>>◌
-- `if (bad) throw e;`
abbrev pub throw_if : {E : Type 0} → Bool → E → Result E (Unit {0})
throw_if true e = err e
throw_if false e = ok tt

-- A call whose failure is reported as the caller's own error.
abbrev pub or_throw {ℓ} : {E : Type 0} {A : Type ℓ} → Option A → E → Result E A
or_throw none e = err e
or_throw (some a) e = ok a

-- A chain that returns has had every call in it return.
pub >>=-eq-ok {ℓ₁ ℓ₂} :
    {E : Type 0} {X : Type ℓ₁} {Y : Type ℓ₂} (call : Result E X) (next : X → Result E Y) {y : Y}
    → (call >>= next) ≡ ok y
    → (x : X) × (call ≡ ok x) × (next x ≡ ok y)
>>=-eq-ok (err thrown) next returns = cc
>>=-eq-ok (ok x) next returns = (x, refl, returns)

pub throw_if-eq-ok {ℓ} :
    {E : Type 0} {B : Type ℓ} (t : Bool) (e : E) (k : Result E B) {b : B}
    → (throw_if t e >> k) ≡ ok b
    → (t ≡ false) × (k ≡ ok b)
throw_if-eq-ok true e k h = (cc, cc)
throw_if-eq-ok false e k h = (refl, h)

pub or_throw-eq-ok {ℓ} :
    {E : Type 0} {A : Type ℓ} (o : Option A) (e : E) {a : A} → or_throw o e ≡ ok a → o ≡ some a
or_throw-eq-ok none e h = cc
or_throw-eq-ok (some b) e h = cc

pub ok-injective {ℓ} :
    {E : Type 0} {A : Type ℓ} {a b : A} → ◌≡◌ {A = Result E A} (ok a) (ok b) → a ≡ b
ok-injective h = cc

pub Result-cases {ℓ} :
    {E : Type 0} {A : Type ℓ} (r : Result E A) → ((a : A) × (r ≡ ok a)) ⊎ ((e : E) × (r ≡ err e))
Result-cases (ok a) = inl (a, refl)
Result-cases (err e) = inr (e, refl)

-- `list.map(f)` for an `f` that may throw.
abbrev pub map_result {ℓ κ} :
    {E : Type 0} {A : Type ℓ} {B : Type κ} → (A → Result E B) → List A → Result E (List B)
map_result f [] = ok []
map_result f (x ∷ xs) = do y ← f x; ys ← map_result f xs; ok (y ∷ ys)

pub >>-eq-ok {ℓ} :
    {E : Type 0} {B : Type ℓ} (call : Result E (Unit {0})) (k : Result E B) {b : B}
    → (call >> k) ≡ ok b
    → (call ≡ ok tt) × (k ≡ ok b)
>>-eq-ok (err thrown) k h = (cc, cc)
>>-eq-ok (ok done) k h = (refl, h)
