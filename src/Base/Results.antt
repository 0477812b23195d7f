-- ===== src/Base/Results.antt =====
-- A call that returns or raises: the outcome, and a method's outcome with the state it leaves.
use mathlib.Core.Path.{◌≡◌, refl}
use mathlib.Core.Logic.{◌≢◌, ◌↔◌, ◌⊎◌, inl, inr}

pub data Result (E A : Type 0) : Type 0 where
  ok : A → Result E A
  err : E → Result E A

infixl 5 ◌>>=◌
abbrev pub ◌>>=◌ : {Err X Y : Type 0} → Result Err X → (X → Result Err Y) → Result Err Y
err why >>= next = err why
ok x >>= next = next x

pub Result-cases :
    {Err X : Type 0} (r : Result Err X) → ((x : X) × (r ≡ ok x)) ⊎ ((why : Err) × (r ≡ err why))
Result-cases (err why) = inr (why, refl)
Result-cases (ok x) = inl (x, refl)

-- Where a bind returned, both its parts did.
pub >>=-returned :
    {Err X Y : Type 0} (r : Result Err X) (next : X → Result Err Y) {y : Y}
    → (r >>= next) ≡ ok y
    → (x : X) × (r ≡ ok x) × (next x ≡ ok y)
>>=-returned (err why) next returned = cc
>>=-returned (ok x) next returned = (x, refl, returned)

-- A bind raises `e` only where one of its parts does.
pub >>=-ne-err :
    {E A B : Type 0} (m : Result E A) (f : A → Result E B) (e : E)
    → m ≢ err e
    → ((a : A) → f a ≢ err e)
    → (m >>= f) ≢ err e
>>=-ne-err (ok a) f e hm hf = hf a
>>=-ne-err (err x) f e hm hf = λ q. hm (cc q)

-- A bind raises where its first part does, and where the part behind it cannot, only there.
pub >>=-eq-err :
    {E A B : Type 0} (m : Result E A) (f : A → Result E B) (e : E)
    → ((a : A) → f a ≢ err e)
    → ((m >>= f) ≡ err e) ↔ (m ≡ err e)
>>=-eq-err (ok a) f e hf = (λ q. absurd (hf a q), λ q. cc)
>>=-eq-err (err x) f e hf = (λ q. cc, λ q. cc)
