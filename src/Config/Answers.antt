-- ===== src/Config/Answers.antt =====
-- What holds of the answer of a chain of steps that may fail.
use pingerus.Base.{◌≡◌, refl}
use pingerus.World.Errors.{Result, ok, err}
use pingerus.Config.{◌>>=◌}

-- The answer of a load, if there is one, has the property.
abbrev pub Answers : {B : Type 0} → (B → Type 0) → Result B → Type 0
Answers P (ok b) = P b
Answers P (err e) = Unit

module _ {B : Type 0} (P : B → Type 0) where
  pub after :
      {A : Type 0} (m : Result A) (f : A → Result B)
      → ((a : A) → m ≡ ok a → Answers P (f a))
      → Answers P (m >>= f)
  after (ok a) f h = h a refl
  after (err x) f h = tt

  pub after_both :
      (m : Result B) (f : B → Result B)
      → Answers P m
      → ((b : B) → P b → Answers P (f b))
      → Answers P (m >>= f)
  after_both (ok b) f h g = g b h
  after_both (err x) f h g = tt
