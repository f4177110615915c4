-- ===== src/Chat/Completion/Turns.antt =====
-- What one turn of `generateAssistantResponse` asks, stores, records and promotes.
use silo_core.Base.{ℕ, Bool, true, false, ◌≡◌, refl, List, ◌∷◌, arith, if◌then◌else◌}
use silo_core.Errors.{Error, Result, ok, err}
use silo_core.Chat.{
  ChatMessage, ChatGenerationInput, LlmCompletionResponse, PreparedGeneration,
  GeneratedAssistantMessageInput,
}
use silo_core.Llm.SafeError.{normalize_adapter_error}
use silo_core.Chat.Calls.{Site, Call, asked, stored, World, within_ok}
use silo_core.Chat.Generation.{record_generation_usage_safely, complete_from_adapter}
use silo_core.Chat.Completion.{
  Attempt, answered, broken, attempt, use_response, settle, promote_safely, is_blank_response,
  no_response,
}
use silo_core.Chat.Completion.Counts.{one, Added}

module _ (s : Site) where
  -- One turn of the loop, before the usage of a failure.
  pub data Turn (switched : Bool) (c : List Call) (r : Attempt × World s.State) : Type 0 where
    turn_answered :
        (m : ChatMessage) (w : World s.State)
        → r ≡ (answered m, w)
        → Added 1 1 1 0 (one switched) c w.calls
        → Turn switched c r
    turn_broken :
        (e : Error) (b : Bool) (w : World s.State)
        → r ≡ (broken e b, w)
        → Added 1 0 0 0 0 c w.calls
        → Turn switched c r

  module _ (input : ChatGenerationInput) (initial prepared : PreparedGeneration) where
    asked_world : List Call → s.State → World s.State
    asked_world c st = record {
      state = st;
      calls = asked prepared.provider_metadata.provider_id prepared.request ∷ c;
    }

    stored-Turn :
        (c : List Call) (switched : Bool) (response : LlmCompletionResponse) (latency_ms : ℕ)
        (message : GeneratedAssistantMessageInput) (st : s.State) (x : Result ChatMessage × s.State)
        → Turn switched c (
            settle s initial prepared switched response latency_ms
              (within_ok (stored message) (asked_world c st) x))
    unfolding settle promote_safely record_generation_usage_safely asked_world
    stored-Turn c false response latency_ms message st (ok m, st') =
        turn_answered m _ refl (record {
          asks_added = omega arith;
          stores_added = omega arith;
          successes_added = omega arith;
          failures_added = omega arith;
          promotions_added = omega arith;
        })
    stored-Turn c true response latency_ms message st (ok m, st') = turn_answered m _ refl (record {
      asks_added = omega arith;
      stores_added = omega arith;
      successes_added = omega arith;
      failures_added = omega arith;
      promotions_added = omega arith;
    })
    stored-Turn c switched response latency_ms message st (err e, st') =
        turn_broken e false _ refl (record {
          asks_added = omega arith;
          stores_added = omega arith;
          successes_added = omega arith;
          failures_added = omega arith;
          promotions_added = omega arith;
        })

    blank-Turn :
        (c : List Call) (switched : Bool) (response : LlmCompletionResponse) (st : s.State)
        (b : Bool) (latency_ms : ℕ) (message : GeneratedAssistantMessageInput)
        (x : Result ChatMessage × s.State)
        → Turn switched c (
            if b
            then (broken no_response true, asked_world c st)
            else settle s initial prepared switched response latency_ms
                (within_ok (stored message) (asked_world c st) x))
    unfolding asked_world
    blank-Turn c switched response st true latency_ms message x =
        turn_broken _ true _ refl (record {
          asks_added = omega arith;
          stores_added = omega arith;
          successes_added = omega arith;
          failures_added = omega arith;
          promotions_added = omega arith;
        })
    blank-Turn c switched response st false latency_ms message x =
        stored-Turn c switched response latency_ms message st x

    response-Turn :
        (c : List Call) (switched : Bool) (r : Result LlmCompletionResponse) (st : s.State)
        → Turn switched c (
            use_response s input initial prepared switched (elim r [
              | ok response ↦ (ok response, asked_world c st)
              | err e ↦ (err (normalize_adapter_error e), asked_world c st)
            ]))
    unfolding use_response asked_world
    response-Turn c switched (err e) st = turn_broken _ false _ refl (record {
      asks_added = omega arith;
      stores_added = omega arith;
      successes_added = omega arith;
      failures_added = omega arith;
      promotions_added = omega arith;
    })
    response-Turn c switched (ok response) st =
        blank-Turn c switched response st (is_blank_response s response) _ _ _

    pub attempt-Turn :
        (switched : Bool) (w : World s.State)
        → Turn switched w.calls (attempt s input initial prepared switched w)
    unfolding attempt complete_from_adapter asked_world
    attempt-Turn switched w = response-Turn w.calls switched _ _
