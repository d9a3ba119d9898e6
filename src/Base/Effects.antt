-- ===== src/Base/Effects.antt =====
-- Go functions that return `(value, error)` and have effects: the state comes back beside the
-- value and beside the error, since what was done before an error stays done.
use mathlib.Core.Path.{◌≡◌, refl}
use mathlib.Core.Bool.{Bool, true, false}
use mathlib.Core.Logic.{◌⊎◌, inl, inr}

pub data Result (E A : Type 0) : Type 0 where
  ok : A → Result E A
  err : E → Result E A

abbrev pub Exec : Type 0 → Type 0 → Type 0 → Type 0
Exec S E A = S → Result E A × S

abbrev pub continue : {S E A B : Type 0} → Result E A → (A → Exec S E B) → S → Result E B × S
continue (ok a) f s = f a s
continue (err e) f s = (err e, s)

infixl 5 ◌>>=◌ ◌>>◌
abbrev pub ◌>>=◌ : {S E A B : Type 0} → Exec S E A → (A → Exec S E B) → Exec S E B
◌>>=◌ m f s = continue (m s).0 f (m s).1

abbrev pub ◌>>◌ : {S E A B : Type 0} → Exec S E A → Exec S E B → Exec S E B
m >> n = m >>= λ _. n

abbrev pub pure : {S E A : Type 0} → A → Exec S E A
pure a s = (ok a, s)

abbrev pub fail : {S E A : Type 0} → E → Exec S E A
fail e s = (err e, s)

-- `v, err := m` where the code goes on to look at `err`.
abbrev pub attempt : {S E F A : Type 0} → Exec S E A → Exec S F (Result E A)
attempt m s = (ok (m s).0, (m s).1)

-- `if err := m; err != nil { return e(err) }`
abbrev pub convert : {E F A : Type 0} → (E → F) → Result E A → Result F A
convert f (ok a) = ok a
convert f (err e) = err (f e)

pub convert_ok :
    {E F A : Type 0} (f : E → F) (r : Result E A) {a : A} → convert f r ≡ ok a → r ≡ ok a
convert_ok f (ok b) h = cc
convert_ok f (err e) h = absurd cc

abbrev pub or_fail : {S E F A : Type 0} → Exec S E A → (E → F) → Exec S F A
or_fail m f s = (convert f (m s).0, (m s).1)

-- `if b { return e }`
abbrev pub refuse_if : {S E : Type 0} → Bool → E → Exec S E (Unit {0})
refuse_if true e = fail e
refuse_if false e = pure tt

-- `defer cleanup()`
abbrev pub finally : {S E A : Type 0} → Exec S E A → (S → S) → Exec S E A
finally m cleanup s = ((m s).0, cleanup (m s).1)

abbrev pub lift : {S E A : Type 0} → Result E A → Exec S E A
lift r s = (r, s)

pub Result-cases :
    {E A : Type 0} (r : Result E A) → ((a : A) × (r ≡ ok a)) ⊎ ((e : E) × (r ≡ err e))
Result-cases (ok a) = inl (a, refl)
Result-cases (err e) = inr (e, refl)

abbrev pub is_ok : {E A : Type 0} → Result E A → Bool
is_ok (ok a) = true
is_ok (err e) = false

-- `v, err := r; if err != nil { return err }` of a function without effects.
abbrev pub and_then : {E A B : Type 0} → Result E A → (A → Result E B) → Result E B
and_then (ok a) f = f a
and_then (err e) f = err e

pub ok_of : {E A : Type 0} {r : Result E A} → is_ok r ≡ true → (a : A) × (r ≡ ok a)
ok_of {r = ok a} h = (a, refl)
ok_of {r = err e} h = absurd cc
