-- ===== src/Chat/Completion/Counts.antt =====
-- The calls of a generation, counted by kind.
use silo_core.Base.{ℕ, ◌+◌, ◌<◌, Bool, true, false, ◌≡◌, List, [], ◌∷◌, arith}
use silo_core.Chat.{succeeded, failed}
use silo_core.Chat.Calls.{Call, asked, stored, recorded, promoted}

abbrev pub is_ask : Call → Bool
is_ask (asked _ _) = true
is_ask _ = false

abbrev pub is_store : Call → Bool
is_store (stored _) = true
is_store _ = false

abbrev pub is_promotion : Call → Bool
is_promotion (promoted _ _) = true
is_promotion _ = false

abbrev pub is_success : Call → Bool
is_success (recorded u) = elim u.outcome [ succeeded ↦ true | _ ↦ false ]
is_success _ = false

abbrev pub is_failure : Call → Bool
is_failure (recorded u) = elim u.outcome [ failed ↦ true | _ ↦ false ]
is_failure _ = false

abbrev pub one : Bool → ℕ
one true = 1
one false = 0

abbrev pub number : (Call → Bool) → List Call → ℕ
number p [] = 0
number p (c ∷ cs) = one (p c) + number p cs

-- The calls that a turn or a loop adds, by kind.
pub record Added (asks stores successes failures promotions : ℕ) (before after : List Call)
    : Type 0 where
  pub asks_added : number is_ask after ≡ asks + number is_ask before
  pub stores_added : number is_store after ≡ stores + number is_store before
  pub successes_added : number is_success after ≡ successes + number is_success before
  pub failures_added : number is_failure after ≡ failures + number is_failure before
  pub promotions_added : number is_promotion after ≡ promotions + number is_promotion before

pub absurd_bound : (n : ℕ) → ¬ (n < 0)
absurd_bound n h = omega arith
