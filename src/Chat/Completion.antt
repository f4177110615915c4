-- ===== src/Chat/Completion.antt =====
-- chat.service.ts: `generateAssistantResponse`, the loop that asks one provider after another for a
-- complete response.
pub mod Counts
mod Turns
pub mod Handovers
pub mod Accounts
pub mod Ends
use silo_core.Base.{
  ℕ, zero, suc, ◌-◌, ◌+◌, String, Bool, true, false, not, ◌&&◌, ◌||◌, Option, none, some, List, [],
  ◌∷◌, ◌++◌, map, is_some, or_else, str_eq, length, if◌then◌else◌,
}
use silo_core.Errors.{Error, Result, ok, err, not_found, llm_failure, llm_error}
use silo_core.Exec.{Exec, pure, raise, ◌>>=◌, ◌>>◌}
use silo_core.Workspace.{WorkspaceAction, create_resource, read_workspace}
use silo_core.Workspace.Policy.{check_workspace_action}
use silo_core.Llm.Failure.{LlmProviderError, plain_error, named, Code}
use silo_core.Llm.Failure.Classification.{is_generation_fallback_eligible}
use silo_core.Llm.SafeError.{normalize_adapter_error, get_llm_error_code, PublicMessage}
use silo_core.Chat.{
  MessageAuthor, user, assistant, system, HistoryMessage, ChatMessage, ChatGenerationParams,
  ChatGenerationInput, TokenUsage, LlmMessageRole, user_role, assistant_role, system_role,
  LlmMessage, LlmCompletionRequest, LlmCompletionResponse, LlmProvider, ResolvedProvider,
  ChatGenerationOperation, completion, GenerationUsageOutcome, succeeded, failed,
  PreparedGeneration, GenerationUsageCreateInput, AssistantMetadata, GeneratedAssistantMessageInput,
}
use silo_core.Chat.Calls.{
  Site, Call, asked, added, stored, recorded, promoted, World, ChatWorkspaceContext, quiet, noted,
  noted_if_ok, swallow,
}
use silo_core.Chat.Generation.{
  is_text, is_eligible, is_title_eligible_reply, is_incomplete_generation,
  ensure_authorized_workspace, record_generation_usage_safely, next_fallback,
  create_assistant_metadata, complete_from_adapter, prepare_generation,
}

pub record ProviderSwitchNotice : Type 0 where
  pub from_provider_name : String
  pub to_provider_name : String

pub record ChatGenerationResult : Type 0 where
  pub user_message : ChatMessage
  pub assistant_message : ChatMessage
  pub provider_switch : Option ProviderSwitchNotice

-- How one turn of the loop ends; a failure says whether the response was empty.
pub data Attempt : Type 0 where
  answered : ChatMessage → Attempt
  broken : Error → Bool → Attempt

abbrev pub no_response : Error
no_response =
    llm_error (record {
      error_class = plain_error;
      code = some (named "UPSTREAM_ERROR");
      status_code = none;
    })

module _ (s : Site) where
  open s use {State, create_generated_assistant_message, promote_default_provider, now, trim}

  -- `!content?.trim() && !reasoning?.trim()`
  abbrev pub is_blank_response : LlmCompletionResponse → Bool
  is_blank_response response =
      not (is_text (trim response.content)) && not (is_text (trim (or_else response.reasoning "")))

  unfoldable pub to_generated_message :
      ChatGenerationInput
      → PreparedGeneration
      → LlmCompletionResponse
      → GeneratedAssistantMessageInput
  unfolding is_title_eligible_reply is_incomplete_generation
  to_generated_message input prepared response = record {
    session_id = input.session_id;
    workspace_id = prepared.workspace_id;
    triggering_user_message_id = prepared.user_message.id;
    content = response.content;
    metadata =
        create_assistant_metadata s prepared response.reasoning response.finish_reason
          (is_incomplete_generation s response.content response.reasoning response.finish_reason)
          none response.usage response.latency_ms;
    title_eligible =
        is_title_eligible_reply s response.content response.reasoning response.finish_reason;
  }

  unfoldable pub promote_safely :
      Bool → PreparedGeneration → PreparedGeneration → World State → World State
  promote_safely false initial prepared w = w
  promote_safely true initial prepared w =
      let from_id = initial.provider_metadata.provider_id in
      let to_id = prepared.provider_metadata.provider_id in
      swallow (noted (promoted from_id to_id) (promote_default_provider from_id to_id) w)

  unfoldable pub settle :
      PreparedGeneration
      → PreparedGeneration
      → Bool
      → LlmCompletionResponse
      → ℕ
      → Result ChatMessage × World State
      → Attempt × World State
  unfolding record_generation_usage_safely promote_safely
  settle initial prepared switched response latency_ms (err e, w) = (broken e false, w)
  settle initial prepared switched response latency_ms (ok message, w) = (
    answered message,
    promote_safely switched initial prepared (
        record_generation_usage_safely s prepared false succeeded latency_ms response.usage none w),
  )

  unfoldable pub use_response :
      ChatGenerationInput
      → PreparedGeneration
      → PreparedGeneration
      → Bool
      → Result LlmCompletionResponse × World State
      → Attempt × World State
  unfolding settle to_generated_message
  use_response input initial prepared switched (err e, w) = (broken e false, w)
  use_response input initial prepared switched (ok response, w) =
      if is_blank_response response
      then (broken no_response true, w)
      else let latency_ms = now w.state - prepared.started_at in
        let message = to_generated_message input prepared response in
        settle initial prepared switched response latency_ms
          (noted_if_ok (stored message) (create_generated_assistant_message message) w)

  -- The body of the `try`.
  unfoldable pub attempt :
      ChatGenerationInput
      → PreparedGeneration
      → PreparedGeneration
      → Bool
      → World State
      → Attempt × World State
  unfolding complete_from_adapter use_response
  attempt input initial prepared switched w =
      use_response input initial prepared switched (complete_from_adapter s prepared w)

  abbrev to_result :
      PreparedGeneration → PreparedGeneration → Bool → ChatMessage → ChatGenerationResult
  to_result initial prepared switched message = record {
    user_message = prepared.user_message;
    assistant_message = message;
    provider_switch =
        if switched
        then some (record {
          from_provider_name = initial.provider_metadata.provider_name;
          to_provider_name = prepared.provider_metadata.provider_name;
        })
        else none;
  }

  -- The usage of a failed turn.
  unfoldable pub fail : PreparedGeneration → Error → World State → World State
  unfolding record_generation_usage_safely
  fail prepared e w =
      record_generation_usage_safely s prepared false failed (now w.state - prepared.started_at)
        none (some (get_llm_error_code e)) w

  unfoldable pub hand_over :
      Bool
      → PreparedGeneration
      → ChatGenerationInput
      → List ℕ
      → ChatGenerationOperation
      → World State
      → Option (PreparedGeneration × List ℕ) × World State
  unfolding next_fallback
  hand_over true initial input ids operation w = next_fallback s initial input ids operation w
  hand_over false initial input ids operation w = (none, w)

  abbrev pub Loop : Type 0
  Loop =
      PreparedGeneration → List ℕ → World State → Option (Result ChatGenerationResult × World State)

  -- `if (fallback) { ...; continue; }` and `throw error`; `again` is the loop's next turn.
  abbrev pub after_hand_over :
      Loop
      → Error
      → Option (PreparedGeneration × List ℕ) × World State
      → Option (Result ChatGenerationResult × World State)
  after_hand_over again e (none, w) = some (err e, w)
  after_hand_over again e (some (fallback, ids), w) = again fallback ids w

  unfoldable pub after_attempt :
      Loop
      → ChatGenerationInput
      → PreparedGeneration
      → PreparedGeneration
      → List ℕ
      → Bool
      → Attempt × World State
      → Option (Result ChatGenerationResult × World State)
  unfolding fail hand_over
  after_attempt again input initial prepared ids switched (answered message, w) =
      some (ok (to_result initial prepared switched message), w)
  after_attempt again input initial prepared ids switched (broken e empty_response, w) =
      after_hand_over again e (
        hand_over (empty_response || is_eligible e) initial input ids completion
          (fail prepared e w))

  -- The loop `while (true)`, on fuel; `none` is an exhausted one.
  unfoldable pub generate_loop :
      ℕ
      → ChatGenerationInput
      → PreparedGeneration
      → PreparedGeneration
      → List ℕ
      → Bool
      → World State
      → Option (Result ChatGenerationResult × World State)
  unfolding attempt after_attempt
  generate_loop zero input initial prepared ids switched w = none
  generate_loop (suc fuel) input initial prepared ids switched w =
      after_attempt (λ other left u. generate_loop fuel input initial other left true u) input
        initial prepared ids switched (attempt input initial prepared switched w)

  unfoldable pub after_preparation :
      ChatGenerationInput
      → Result PreparedGeneration × World State
      → Option (Result ChatGenerationResult × World State)
  unfolding generate_loop
  after_preparation input (err e, w) = some (err e, w)
  after_preparation input (ok initial, w) =
      generate_loop (suc (length initial.fallback_provider_ids)) input initial initial
        initial.fallback_provider_ids false w

  unfoldable pub generate_assistant_response :
      ChatGenerationInput
      → ChatWorkspaceContext
      → World State
      → Option (Result ChatGenerationResult × World State)
  unfolding after_preparation
  generate_assistant_response input context w = after_preparation input (
      (ensure_authorized_workspace s context create_resource
          >> prepare_generation s input context completion)
        w)
