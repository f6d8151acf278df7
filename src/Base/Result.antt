-- ===== src/Base/Result.antt =====
-- The results of Go functions that return an error beside a value.
use mathlib.Core.Path.{◌≡◌, refl, ap}
use mathlib.Core.Option.{Option, none, some}
use mathlib.Core.Bool.{Bool, true, false}
use mathlib.Core.Logic.{◌≢◌}

pub data Result (E A : Type 0) : Type 0 where
  failure : E → Result E A
  success : A → Result E A

infixl 5 ◌>>=◌
abbrev pub ◌>>=◌ : {E A B : Type 0} → Result E A → (A → Result E B) → Result E B
failure e >>= f = failure e
success a >>= f = f a

-- The value, or an error where there is none.
abbrev pub or_else : {E A : Type 0} → E → Option A → Result E A
or_else e none = failure e
or_else e (some a) = success a

-- An error unless the test succeeds.
abbrev pub check : {E : Type 0} → E → Bool → Result E (Unit {0})
check e true = success tt
check e false = failure e

pub >>=-eq-success :
    {E A B : Type 0} (m : Result E A) (f : A → Result E B) {b : B}
    → (m >>= f) ≡ success b
    → (a : A) × (m ≡ success a) × (f a ≡ success b)
>>=-eq-success (failure e) f h = absurd (cc h)
>>=-eq-success (success a) f h = (a, refl, h)

pub or_else-eq-success :
    {E A : Type 0} (e : E) (o : Option A) {a : A} → or_else e o ≡ success a → o ≡ some a
or_else-eq-success e none h = absurd (cc h)
or_else-eq-success e (some a) h = cc h

pub check-eq-success :
    {E : Type 0} (e : E) (b : Bool) {u : Unit {0}} → check e b ≡ success u → b ≡ true
check-eq-success e true h = refl
check-eq-success e false h = absurd (cc h)

-- An error that the first part does not give comes from the second.
pub >>=-eq-failure :
    {E A B : Type 0} (m : Result E A) (f : A → Result E B) {e : E}
    → (m >>= f) ≡ failure e
    → m ≢ failure e
    → (a : A) × (m ≡ success a) × (f a ≡ failure e)
>>=-eq-failure (failure e') f {e} h k = let same : e' ≡ e = cc in absurd (k (ap failure same))
>>=-eq-failure (success a) f h k = (a, refl, h)

pub success-ne-failure : {E A : Type 0} (a : A) (e : E) → success a ≢ failure e
success-ne-failure a e = λ g. cc
