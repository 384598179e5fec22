-- ===== src/Common/Results.antt =====
-- `Result` with `?`, early `return Err`, and a loop that stops at the first error.
use mathlib.Core.Path.{◌≡◌, refl}
use mathlib.Core.Logic.{◌⊎◌, inl, inr}
use mathlib.Core.Bool.{Bool, true, false}
use mathlib.Core.List.{List, [], ◌∷◌}
use bloc_kuntu.Common.Lists.{All}

pub data Result (E A : Type 0) : Type 0 where
  ok : A → Result E A
  err : E → Result E A

-- `first?` and then the rest of the function, which gets the value.
abbrev pub ◌>>=◌ : {E A B : Type 0} → Result E A → (A → Result E B) → Result E B
err e >>= rest = err e
ok a >>= rest = rest a

-- `first?;`
abbrev pub ◌>>◌ : {E B : Type 0} → Result E (Unit {0}) → Result E B → Result E B
first >> rest = first >>= λ _. rest

infixl 5 ◌>>=◌ ◌>>◌
-- `if test { return Err(e); }`
abbrev pub reject_if : {E : Type 0} → Bool → E → Result E (Unit {0})
reject_if true e = err e
reject_if false e = ok tt

-- `for x in xs { check(x)?; }`
abbrev pub for_each : {E A : Type 0} → (A → Result E (Unit {0})) → List A → Result E (Unit {0})
for_each check [] = ok tt
for_each check (x ∷ xs) = let rest = for_each check xs in check x >>= λ _. rest

-- A function that returns a value got one from its first step.
pub >>=-eq-ok :
    {E A B : Type 0} (first : Result E A) (rest : A → Result E B) {value : B}
    → (first >>= rest) ≡ ok value
    → (found : A) × (first ≡ ok found) × (rest found ≡ ok value)
>>=-eq-ok (err e) rest returned = cc
>>=-eq-ok (ok a) rest returned = (a, refl, returned)

pub >>-eq-ok :
    {E B : Type 0} (m : Result E (Unit {0})) (k : Result E B) {b : B}
    → (m >> k) ≡ ok b
    → (m ≡ ok tt) × (k ≡ ok b)
>>-eq-ok (ok tt) k h = (refl, h)
>>-eq-ok (err e) k h = cc

pub reject_if-eq-ok : {E : Type 0} (b : Bool) (e : E) → reject_if b e ≡ ok tt → b ≡ false
reject_if-eq-ok true e h = cc
reject_if-eq-ok false e h = refl

pub for_each-eq-ok :
    {E A : Type 0} (check : A → Result E (Unit {0})) (xs : List A)
    → for_each check xs ≡ ok tt
    → All (λ x. check x ≡ ok tt) xs
for_each-eq-ok check [] h = tt
for_each-eq-ok check (x ∷ xs) h =
    let (first, rest) = >>-eq-ok (check x) (for_each check xs) h in
    (first, for_each-eq-ok check xs rest)

pub Result-cases :
    {E A : Type 0} (m : Result E A) → ((a : A) × (m ≡ ok a)) ⊎ ((e : E) × (m ≡ err e))
Result-cases (ok a) = inl (a, refl)
Result-cases (err e) = inr (e, refl)

pub ok-injective : {E A : Type 0} {a b : A} → ◌≡◌ {A = Result E A} (ok a) (ok b) → a ≡ b
ok-injective h = cc
