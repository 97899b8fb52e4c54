-- ===== src/Base/Exec.antt =====
-- Operations that change a state and may throw: what was changed before a throw stays changed.
-- `E` is the component's type of errors.
use downshift.Base.Errors.{Result, ok, err}

abbrev pub Exec : Type 0 → Type 0 → Type 0 → Type 0
Exec S E A = S → S × Result E A

module _ {S E A : Type 0} where
  abbrev pub pure : A → Exec S E A
  pure a s = (s, ok a)

  abbrev pub raise : E → Exec S E A
  raise e s = (s, err e)

  abbrev pub lift : Result E A → Exec S E A
  lift r s = (s, r)

module _ {S E : Type 0} where
  abbrev pub modify : (S → S) → Exec S E Unit
  modify f s = (f s, ok tt)

  abbrev pub gets : {A : Type 0} → (S → A) → Exec S E A
  gets f s = (s, ok (f s))

module _ {S E A B : Type 0} where
  abbrev pub continue : S → Result E A → (A → Exec S E B) → S × Result E B
  continue s (ok a) f = f a s
  continue s (err e) f = (s, err e)

  infixl 5 ◌>>=◌ ◌>>◌
  abbrev pub ◌>>=◌ : Exec S E A → (A → Exec S E B) → Exec S E B
  ◌>>=◌ m f s = let (t, r) = m s in continue t r f

  abbrev pub ◌>>◌ : Exec S E A → Exec S E B → Exec S E B
  m >> n = m >>= λ _. n
