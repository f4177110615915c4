-- ===== src/Chat/Completion/Accounts.antt =====
-- How often a generation asks, stores, records and promotes.
use silo_core.Base.{
  ℕ, zero, suc, ◌+◌, ◌≤◌, ◌<◌, Bool, true, false, ◌||◌, ◌≡◌, refl, sym, ap, Option, some, List,
  length, arith, subst,
}
use silo_core.Errors.{Error, Result, ok, err}
use silo_core.Chat.{ChatGenerationInput, PreparedGeneration, completion}
use silo_core.Chat.Calls.{Site, Call, World}
use silo_core.Chat.Generation.{record_generation_usage_safely, is_eligible}
use silo_core.Chat.Completion.{
  Attempt, ChatGenerationResult, fail, after_attempt, after_hand_over, generate_loop, Loop,
}
use silo_core.Chat.Completion.Counts.{
  is_ask, is_store, is_promotion, is_success, is_failure, one, number, Added, absurd_bound,
}
use silo_core.Chat.Completion.Turns.{Turn, turn_answered, turn_broken, attempt-Turn}
use silo_core.Chat.Completion.Handovers.{Handed, nobody_left, handed, hand_over-Handed}

module _ (s : Site) where
  -- What a loop that may still ask `left` more providers, if the first fails, adds to the calls.
  pub record Accounted (left : ℕ) (returned promotion : ℕ) (before after : List Call) : Type 0 where
    pub asks_bounded : number is_ask after ≤ suc left + number is_ask before
    pub usage_each :
        (number is_success after + number is_failure after) + number is_ask before
        ≡ (number is_success before + number is_failure before) + number is_ask after
    pub successes_added : number is_success after ≡ returned + number is_success before
    pub stores_added : number is_store after ≡ returned + number is_store before
    pub promotions_bounded : number is_promotion after ≤ promotion + number is_promotion before
    pub promoted_if_returned : number is_promotion after ≤ returned + number is_promotion before

  abbrev pub returns : Result ChatGenerationResult → ℕ
  returns (ok _) = 1
  returns (err _) = 0

  -- The loop ended with fuel to spare.
  pub data Completed (left promotion : ℕ) (before : List Call)
      (o : Option (Result ChatGenerationResult × World s.State)) : Type 0 where
    completed :
        (r : Result ChatGenerationResult) (w : World s.State)
        → o ≡ some (r, w)
        → Accounted left (returns r) promotion before w.calls
        → Completed left promotion before o

  one_bound : (b : Bool) → one b ≤ 1
  one_bound true = omega arith
  one_bound false = omega arith

  answered-Accounted :
      (left : ℕ) (switched : Bool) (c c' : List Call)
      → Added 1 1 1 0 (one switched) c c'
      → Accounted left 1 (one switched + left) c c'
  answered-Accounted left switched c c' h =
      let a = h.asks_added in
      let b = h.stores_added in
      let d = h.successes_added in
      let f = h.failures_added in
      let g = h.promotions_added in
      let k = one_bound switched in
      record {
        asks_bounded = omega arith;
        usage_each = omega arith;
        successes_added = omega arith;
        stores_added = omega arith;
        promotions_bounded = omega arith;
        promoted_if_returned = omega arith;
      }

  failed-Added :
      (prepared : PreparedGeneration) (e : Error) (c : List Call) (v u : World s.State)
      → Added 1 0 0 0 0 c v.calls
      → u.calls ≡ (fail s prepared e v).calls
      → Added 1 0 0 1 0 c u.calls
  unfolding fail record_generation_usage_safely
  failed-Added prepared e c v u h kept =
      let a = h.asks_added in
      let b = h.stores_added in
      let d = h.successes_added in
      let f = h.failures_added in
      let g = h.promotions_added in
      let a' : number is_ask u.calls ≡ 0 + number is_ask v.calls = ap (number is_ask) kept in
      let b' : number is_store u.calls ≡ 0 + number is_store v.calls = ap (number is_store) kept in
      let d' : number is_success u.calls ≡ 0 + number is_success v.calls =
        ap (number is_success) kept in
      let f' : number is_failure u.calls ≡ 1 + number is_failure v.calls =
        ap (number is_failure) kept in
      let g' : number is_promotion u.calls ≡ 0 + number is_promotion v.calls =
        ap (number is_promotion) kept in
      record {
        asks_added = omega arith;
        stores_added = omega arith;
        successes_added = omega arith;
        failures_added = omega arith;
        promotions_added = omega arith;
      }

  thrown-Accounted :
      (left promotion : ℕ) (c c' : List Call)
      → Added 1 0 0 1 0 c c'
      → Accounted left 0 promotion c c'
  thrown-Accounted left promotion c c' h =
      let a = h.asks_added in
      let b = h.stores_added in
      let d = h.successes_added in
      let f = h.failures_added in
      let g = h.promotions_added in
      record {
        asks_bounded = omega arith;
        usage_each = omega arith;
        successes_added = omega arith;
        stores_added = omega arith;
        promotions_bounded = omega arith;
        promoted_if_returned = omega arith;
      }

  later-Accounted :
      (left n promotion returned : ℕ) (c d e : List Call)
      → left < n
      → Added 1 0 0 1 0 c d
      → Accounted left returned (1 + left) d e
      → Accounted n returned (promotion + n) c e
  later-Accounted left n promotion returned c d e less h acc =
      let a = h.asks_added in
      let b = h.stores_added in
      let x = h.successes_added in
      let f = h.failures_added in
      let g = h.promotions_added in
      let a' = acc.asks_bounded in
      let u' = acc.usage_each in
      let b' = acc.stores_added in
      let x' = acc.successes_added in
      let g' = acc.promotions_bounded in
      let r' = acc.promoted_if_returned in
      record {
        asks_bounded = omega arith;
        usage_each = omega arith;
        successes_added = omega arith;
        stores_added = omega arith;
        promotions_bounded = omega arith;
        promoted_if_returned = omega arith;
      }

  module _ (input : ChatGenerationInput) (initial : PreparedGeneration) where
    -- The loop's further turns end, for fewer ids.
    Ending : ℕ → Loop s → Type 0
    Ending n again =
        (p : PreparedGeneration) (left : List ℕ) (u : World s.State)
        → length left < n
        → Completed (length left) (1 + length left) u.calls (again p left u)

    Handed-Completed :
        (again : Loop s) (prepared : PreparedGeneration) (ids : List ℕ) (k : ℕ) (e : Error)
        (c : List Call) (v : World s.State)
        (r : Option (PreparedGeneration × List ℕ) × World s.State)
        → Ending (length ids) again
        → Added 1 0 0 0 0 c v.calls
        → Handed s ids (fail s prepared e v).calls r
        → Completed (length ids) (k + length ids) c (after_hand_over s again e r)
    unfolding Ending
    Handed-Completed again prepared ids k e c v r ends h (nobody_left w eq kept) =
        subst (λ x. Completed (length ids) (k + length ids) c (after_hand_over s again e x))
          (sym eq)
          (completed (err e) w refl (
            thrown-Accounted (length ids) (k + length ids) c w.calls
              (failed-Added prepared e c v w h kept)))
    Handed-Completed again prepared ids k e c v r ends h (handed p left w eq kept less) =
        subst (λ x. Completed (length ids) (k + length ids) c (after_hand_over s again e x))
          (sym eq)
          (elim (ends p left w less) [
            | completed t u eq' acc ↦ completed t u eq' (
                later-Accounted (length left) (length ids) k (returns t) c w.calls u.calls less
                  (failed-Added prepared e c v w h kept) acc)
          ])

    Turn-Completed :
        (again : Loop s) (prepared : PreparedGeneration) (ids : List ℕ) (switched : Bool)
        (c : List Call) (r : Attempt × World s.State)
        → Ending (length ids) again
        → Turn s switched c r
        → Completed
            (length ids)
            (one switched + length ids)
            c
            (after_attempt s again input initial prepared ids switched r)
    unfolding after_attempt
    Turn-Completed again prepared ids switched c r ends (turn_answered m w eq h) =
        subst
          (λ x.
            Completed (length ids) (one switched + length ids) c
              (after_attempt s again input initial prepared ids switched x))
          (sym eq) (completed _ w refl (answered-Accounted (length ids) switched c w.calls h))
    Turn-Completed again prepared ids switched c r ends (turn_broken e b w eq h) =
        subst
          (λ x.
            Completed (length ids) (one switched + length ids) c
              (after_attempt s again input initial prepared ids switched x))
          (sym eq)
          (Handed-Completed again prepared ids (one switched) e c w _ ends h (
            hand_over-Handed s input initial completion (b || is_eligible e) ids
              (fail s prepared e w)))

    pub loop-Completed :
        (fuel : ℕ) (prepared : PreparedGeneration) (ids : List ℕ) (switched : Bool)
        (w : World s.State)
        → length ids < fuel
        → Completed
            (length ids)
            (one switched + length ids)
            w.calls
            (generate_loop s fuel input initial prepared ids switched w)
    unfolding generate_loop Ending
    loop-Completed zero prepared ids switched w less = elim (absurd_bound (length ids) less) [ ]
    loop-Completed (suc fuel) prepared ids switched w less =
        Turn-Completed _ prepared ids switched w.calls _
          (λ p left u shorter. loop-Completed fuel p left true u (omega arith))
          (attempt-Turn s input initial prepared switched w)
