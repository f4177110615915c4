-- ===== src/Exec/Ends.antt =====
-- What an action guarantees of how it ends: one predicate for a value and the state that is left,
-- one for an exception and the state.
use silo_core.Base.{Bool, true, false, ◌≡◌, refl, sym, ap, subst, if◌then◌else◌}
use silo_core.Errors.{Error, Result, ok, err}
use silo_core.Exec.{Exec, after, caught}

pub data Ends {S A : Type 0} (Q : A → S → Type 0) (E : Error → S → Type 0) (r : Result A × S)
    : Type 0 where
  returned : (a : A) (s : S) → r ≡ (ok a, s) → Q a s → Ends Q E r
  thrown : (e : Error) (s : S) → r ≡ (err e, s) → E e s → Ends Q E r

module _ {S A : Type 0} {Q : A → S → Type 0} {E : Error → S → Type 0} where
  pub Ends-weaken :
      {Q' : A → S → Type 0} {E' : Error → S → Type 0} (r : Result A × S)
      → Ends Q' E' r
      → ((a : A) (s : S) → Q' a s → Q a s)
      → ((e : Error) (s : S) → E' e s → E e s)
      → Ends Q E r
  Ends-weaken r (returned a s eq h) f g = returned a s eq (f a s h)
  Ends-weaken r (thrown e s eq h) f g = thrown e s eq (g e s h)

  pub Ends-after :
      {B : Type 0} {R : B → S → Type 0} (r : Result B × S) (k : B → Exec S A)
      → Ends R E r
      → ((b : B) (s : S) → R b s → Ends Q E (k b s))
      → Ends Q E (after r k)
  Ends-after r k (returned b s eq h) f = subst (λ x. Ends Q E (after x k)) (sym eq) (f b s h)
  Ends-after r k (thrown e s eq h) f = thrown e s (ap (λ x. after x k) eq) h

  pub Ends-caught :
      {F : Error → S → Type 0} (r : Result A × S) (handle : Error → Exec S A)
      → Ends Q F r
      → ((e : Error) (s : S) → F e s → Ends Q E (handle e s))
      → Ends Q E (caught r handle)
  Ends-caught r handle (returned a s eq h) f = returned a s (ap (λ x. caught x handle) eq) h
  Ends-caught r handle (thrown e s eq h) f =
      subst (λ x. Ends Q E (caught x handle)) (sym eq) (f e s h)

  pub Ends-if :
      (b : Bool) (m n : Exec S A) (s : S)
      → (b ≡ true → Ends Q E (m s))
      → (b ≡ false → Ends Q E (n s))
      → Ends Q E ((if b then m else n) s)
  Ends-if true m n s h g = h refl
  Ends-if false m n s h g = g refl

  pub Ends-either :
      (b : Bool) (r t : Result A × S)
      → (b ≡ true → Ends Q E r)
      → (b ≡ false → Ends Q E t)
      → Ends Q E (if b then r else t)
  Ends-either true r t h g = h refl
  Ends-either false r t h g = g refl

  -- Two guarantees at once, the second of the state alone.
  pub Ends-both :
      {P : S → Type 0} (r : Result A × S)
      → Ends Q E r
      → P r.1
      → Ends (λ a s. Q a s × P s) (λ e s. E e s × P s) r
  Ends-both {P} r (returned a s eq h) g = returned a s eq (h, subst (λ x. P x.1) eq g)
  Ends-both {P} r (thrown e s eq h) g = thrown e s eq (h, subst (λ x. P x.1) eq g)

-- Every action ends.
pub anything : {S A : Type 0} (r : Result A × S) → Ends (λ _ _. Unit {0}) (λ _ _. Unit {0}) r
anything (ok a, s) = returned a s refl tt
anything (err e, s) = thrown e s refl tt
