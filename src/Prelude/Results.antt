-- ===== src/Prelude/Results.antt =====
-- Code that raises: the value, or the exception as a value.
use mathlib.Core.Path.{◌≡◌, refl, subst}

pub data Result (E A : Type 0) : Type 0 where
  ok : A → Result E A
  err : E → Result E A

module _ {E : Type 0} {A B : Type 0} where
  infixl 5 ◌>>=◌ ◌>>◌
  abbrev pub ◌>>=◌ : Result E A → (A → Result E B) → Result E B
  err raised >>= next = err raised
  ok value >>= next = next value

  abbrev pub ◌>>◌ : Result E A → Result E B → Result E B
  first >> second = first >>= λ ignored. second

  pub >>=-eq-ok :
      (r : Result E A) (next : A → Result E B) {b : B}
      → (r >>= next) ≡ ok b
      → (a : A) × (r ≡ ok a) × (next a ≡ ok b)
  >>=-eq-ok (err raised) next h = cc
  >>=-eq-ok (ok value) next h = (value, refl, h)

-- What holds of every value that is returned.
abbrev pub Yields : {E A : Type 0} → (A → Type 0) → Result E A → Type 0
Yields Q (ok a) = Q a
Yields Q (err e) = Unit

module _ {E A B : Type 0} (Q : B → Type 0) where
  pub Yields-bind :
      (P : A → Type 0) (m : Result E A) (f : A → Result E B)
      → Yields P m
      → ((a : A) → P a → Yields Q (f a))
      → Yields Q (m >>= f)
  Yields-bind P (ok a) f p h = h a p
  Yields-bind P (err e) f p h = tt

  -- A step whose result the postcondition does not need.
  pub Yields-skip :
      (m : Result E A) (f : A → Result E B) → ((a : A) → Yields Q (f a)) → Yields Q (m >>= f)
  Yields-skip (ok a) f h = h a
  Yields-skip (err e) f h = tt

pub Yields-of :
    {E A : Type 0} (Q : A → Type 0) (r : Result E A) (a : A) → Yields Q r → r ≡ ok a → Q a
Yields-of Q (ok b) a y h = subst Q (same b a h) y
  where
    same : {E A : Type 0} (x y : A) → ◌≡◌ {A = Result E A} (ok x) (ok y) → x ≡ y
    same x y e = cc
Yields-of Q (err e) a y h = cc

pub Yields-intro :
    {E A : Type 0} (Q : A → Type 0) (r : Result E A) → ((a : A) → r ≡ ok a → Q a) → Yields Q r
Yields-intro Q (ok a) h = h a refl
Yields-intro Q (err e) h = tt
