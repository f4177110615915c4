-- ===== src/Chat/Completion/Handovers.antt =====
-- `nextFallback` leaves fewer providers and adds no call.
use silo_core.Base.{
  ℕ, ◌<◌, Bool, true, false, ◌≡◌, refl, ◌∙◌, Option, none, some, List, [], ◌∷◌, length, arith,
}
use silo_core.Errors.{Result, ok, err}
use silo_core.Chat.{
  ChatGenerationInput, PreparedGeneration, ChatGenerationOperation, ResolvedProvider,
}
use silo_core.Exec.{after, pure, ◌>>=◌}
use silo_core.Chat.Calls.{Site, Call, World}
use silo_core.Chat.Generation.{next_fallback, prepare_fallback, with_provider, read_clock}
use silo_core.Chat.Completion.{hand_over}

module _ (s : Site) where
  -- The calls of a look for the next provider are not kept, and it leaves fewer ids.
  pub data Handed (ids : List ℕ) (c : List Call)
      (r : Option (PreparedGeneration × List ℕ) × World s.State) : Type 0 where
    nobody_left : (w : World s.State) → r ≡ (none, w) → w.calls ≡ c → Handed ids c r
    handed :
        (p : PreparedGeneration) (left : List ℕ) (w : World s.State)
        → r ≡ (some (p, left), w)
        → w.calls ≡ c
        → length left < length ids
        → Handed ids c r

  module _ (input : ChatGenerationInput) (initial : PreparedGeneration)
      (operation : ChatGenerationOperation) where
    resolved-calls :
        (id : ℕ) (c : List Call) (r : Result ResolvedProvider) (st : s.State)
        → (after
            (r, record { state = st; calls = c })
            (λ resolved.
              read_clock s
              >>= (λ started_at. pure (with_provider s initial input resolved started_at)))).1.calls
          ≡ c
    resolved-calls id c (ok resolved) st = refl
    resolved-calls id c (err e) st = refl

    prepare_fallback-calls :
        (id : ℕ) (w : World s.State)
        → (prepare_fallback s initial input id operation w).1.calls ≡ w.calls
    unfolding prepare_fallback
    prepare_fallback-calls id w = resolved-calls id w.calls _ _

    step-Handed :
        (id : ℕ) (ids : List ℕ) (w : World s.State) (r : Result PreparedGeneration × World s.State)
        → r.1.calls ≡ w.calls
        → ((v : World s.State) → Handed ids v.calls (next_fallback s initial input ids operation v))
        → Handed (id ∷ ids) w.calls (elim r.0 [
          | ok fallback ↦ (some (fallback, ids), r.1)
          | err _ ↦ next_fallback s initial input ids operation r.1
        ])
    step-Handed id ids w (ok p, v) e rest = handed p ids v refl e (omega arith)
    step-Handed id ids w (err _, v) e rest = elim (rest v) [
      | nobody_left u eq kept ↦ nobody_left u eq (kept ∙ e)
      | handed p left u eq kept less ↦ handed p left u eq (kept ∙ e) (omega arith)
    ]

    pub next_fallback-Handed :
        (ids : List ℕ) (w : World s.State)
        → Handed ids w.calls (next_fallback s initial input ids operation w)
    unfolding next_fallback
    next_fallback-Handed [] w = nobody_left w refl refl
    next_fallback-Handed (id ∷ ids) w =
        step-Handed id ids w (prepare_fallback s initial input id operation w)
          (prepare_fallback-calls id w) (next_fallback-Handed ids)

  pub hand_over-Handed :
      (input : ChatGenerationInput) (initial : PreparedGeneration)
      (operation : ChatGenerationOperation) (b : Bool) (ids : List ℕ) (w : World s.State)
      → Handed ids w.calls (hand_over s b initial input ids operation w)
  unfolding hand_over
  hand_over-Handed input initial operation true ids w =
      next_fallback-Handed input initial operation ids w
  hand_over-Handed input initial operation false ids w = nobody_left w refl refl
