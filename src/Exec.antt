-- ===== src/Exec.antt =====
-- An async method that reads and changes a state and may throw: a function from the state to a
-- result and the state that it leaves, thrown or not.
pub mod Ends
use silo_core.Errors.{Error, Result, ok, err}

abbrev pub Exec : Type 0 → Type 0 → Type 0
Exec S A = S → Result A × S

module _ {S : Type 0} where
  abbrev pub pure : {A : Type 0} → A → Exec S A
  pure a s = (ok a, s)

  abbrev pub raise : {A : Type 0} → Error → Exec S A
  raise e s = (err e, s)

  abbrev pub after : {A B : Type 0} → Result A × S → (A → Exec S B) → Result B × S
  after (ok a, s) k = k a s
  after (err e, s) k = (err e, s)

  infixl 5 ◌>>=◌ ◌>>◌
  abbrev pub ◌>>=◌ : {A B : Type 0} → Exec S A → (A → Exec S B) → Exec S B
  ◌>>=◌ m k s = after (m s) k

  abbrev pub ◌>>◌ : {A B : Type 0} → Exec S A → Exec S B → Exec S B
  ◌>>◌ m k s = after (m s) (λ _. k)

  -- a pure check that throws
  abbrev pub check : Result (Unit {0}) → Exec S (Unit {0})
  check r s = (r, s)

  -- `try { ... } catch (error) { ... }`, the first argument being what the `try` came to
  abbrev pub caught : {A : Type 0} → Result A × S → (Error → Exec S A) → Result A × S
  caught (ok a, s) handle = (ok a, s)
  caught (err e, s) handle = handle e s
