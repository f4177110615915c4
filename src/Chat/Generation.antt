-- ===== src/Chat/Generation.antt =====
-- chat.service.ts: a generation is prepared, and a provider that fails hands over to the next one.
use silo_core.Base.{
  ℕ, String, Bool, true, false, not, ◌&&◌, ◌||◌, Option, none, some, List, [], ◌∷◌, ◌++◌, map,
  is_some, or_else, str_eq, if◌then◌else◌,
}
use silo_core.Errors.{Error, ok, err, not_found, llm_failure}
use silo_core.Exec.{Exec, pure, raise, ◌>>=◌}
use silo_core.Workspace.{WorkspaceAction, read_workspace}
use silo_core.Workspace.Policy.{check_workspace_action}
use silo_core.Llm.Failure.{Code}
use silo_core.Llm.Failure.Classification.{is_generation_fallback_eligible}
use silo_core.Llm.SafeError.{normalize_adapter_error, PublicMessage}
use silo_core.Chat.{
  MessageAuthor, user, assistant, system, HistoryMessage, ChatMessage, ChatMessageCreateInput,
  ChatGenerationParams, ChatGenerationInput, TokenUsage, LlmMessageRole, user_role, assistant_role,
  system_role, LlmMessage, LlmCompletionResponse, ResolvedProvider, ChatGenerationOperation,
  GenerationUsageOutcome, PreparedGeneration, GenerationUsageCreateInput, AssistantMetadata,
}
use silo_core.Chat.Calls.{
  Site, asked, added, recorded, World, ChatWorkspaceContext, quiet, noted, swallow,
}

abbrev pub is_default_generation : ChatGenerationInput → Bool
is_default_generation input = not (is_some input.provider_id) && not (is_some input.model)

abbrev to_llm_role : MessageAuthor → LlmMessageRole
to_llm_role assistant = assistant_role
to_llm_role system = system_role
to_llm_role user = user_role

abbrev to_llm_messages : List HistoryMessage → List LlmMessage
to_llm_messages = map (λ m. record { role = to_llm_role m.author; content = m.content })

-- `a ?? b` where b may be missing too
abbrev or_none : {A : Type 0} → Option A → Option A → Option A
or_none none d = d
or_none (some a) d = some a

unfoldable pub apply_generation_defaults :
    ChatGenerationParams → ChatGenerationParams → ChatGenerationParams
apply_generation_defaults defaults input = record {
  temperature = or_none input.temperature defaults.temperature;
  top_p = or_none input.top_p defaults.top_p;
  max_tokens = or_none input.max_tokens defaults.max_tokens;
  stop_sequences = or_none input.stop_sequences defaults.stop_sequences;
}

-- `Boolean(s)` of a string, and of one that may be missing
abbrev pub is_text : String → Bool
is_text s = not (str_eq s "")

abbrev pub is_given : Option String → Bool
is_given none = false
is_given (some s) = is_text s

abbrev pub is_eligible : Error → Bool
is_eligible (llm_failure f) = is_generation_fallback_eligible f
is_eligible _ = false

module _ (s : Site) where
  open s use {
    State, get_session_in_workspace, create_message, create_generated_assistant_message,
    resolve_generation_provider, list_fallback_provider_ids, promote_default_provider,
    record_generation, complete, now, trim, to_lower_case,
  }

  is_cut_off : String → Bool
  is_cut_off reason =
      let normalized = to_lower_case (trim reason) in
      str_eq normalized "length" || str_eq normalized "max_tokens"

  unfoldable pub is_incomplete_generation : String → Option String → Option String → Option Bool
  unfolding is_cut_off
  is_incomplete_generation content reasoning finish_reason =
      if is_given reasoning && not (is_text (trim content))
      then some true
      else if not (is_given finish_reason)
      then none
      else if is_cut_off (or_else finish_reason "")
      then some true
      else none

  unfoldable ended_by : Option String → String → Bool
  ended_by none reason = false
  ended_by (some s) reason = str_eq (to_lower_case (trim s)) reason

  unfoldable pub is_title_eligible_reply : String → Option String → Option String → Bool
  unfolding is_incomplete_generation ended_by
  is_title_eligible_reply content reasoning finish_reason =
      is_text (trim content)
      && (not (is_some (is_incomplete_generation content reasoning finish_reason))
          && (not (ended_by finish_reason "error") && not (ended_by finish_reason "aborted")))

  unfoldable pub ensure_authorized_workspace :
      ChatWorkspaceContext → WorkspaceAction → Exec (World State) ℕ
  ensure_authorized_workspace context action =
      let decision = check_workspace_action (some context.actor) context.workspace action in
      if not decision.allowed
      then raise (not_found "Workspace not found")
      else pure context.workspace.id

  unfoldable pub session_or_not_found :
      Option (List HistoryMessage) → Exec (World State) (List HistoryMessage)
  session_or_not_found none = raise (not_found "Session not found")
  session_or_not_found (some messages) = pure messages

  unfoldable pub ensure_session_in_workspace : ℕ → ℕ → Exec (World State) (List HistoryMessage)
  unfolding session_or_not_found
  ensure_session_in_workspace session_id workspace_id = do
    found ← quiet (get_session_in_workspace session_id workspace_id)
    session_or_not_found found

  -- The world after the call, which never throws.
  unfoldable pub record_generation_usage_safely :
      PreparedGeneration
      → Bool
      → GenerationUsageOutcome
      → ℕ
      → Option TokenUsage
      → Option Code
      → World State
      → World State
  record_generation_usage_safely prepared streaming outcome latency_ms usage error_code w =
      let input : GenerationUsageCreateInput = record {
        workspace_id = prepared.workspace_id;
        provider_id = prepared.provider_metadata.provider_id;
        model = prepared.request.model;
        streaming = streaming;
        latency_ms = latency_ms;
        usage = usage;
        outcome = outcome;
        error_code = error_code;
      } in
      swallow (noted (recorded input) (record_generation input) w)

  unfoldable pub with_provider :
      PreparedGeneration → ChatGenerationInput → ResolvedProvider → ℕ → PreparedGeneration
  unfolding apply_generation_defaults
  with_provider initial input resolved started_at =
      let params = apply_generation_defaults resolved.generation_defaults input.params in
      record initial {
        provider = resolved.provider;
        provider_metadata = record {
          provider_id = resolved.provider_id;
          provider_name = resolved.provider_name;
          provider_type = resolved.provider.config_type;
        };
        request = record {
          model = resolved.model;
          messages = initial.request.messages;
          params = params;
        };
        params = params;
        started_at = started_at;
      }

  abbrev pub read_clock : Exec (World State) ℕ
  read_clock w = (ok (now w.state), w)

  unfoldable pub prepare_fallback :
      PreparedGeneration
      → ChatGenerationInput
      → ℕ
      → ChatGenerationOperation
      → Exec (World State) PreparedGeneration
  unfolding with_provider
  prepare_fallback initial input provider_id operation = do
    resolved ← quiet (
        resolve_generation_provider
          (record { provider_id = some provider_id; model = none; operation = operation }))
    started_at ← read_clock
    pure (with_provider initial input resolved started_at)

  -- The next provider that resolves, with the ids that are left, in the world after the calls.
  unfoldable pub next_fallback :
      PreparedGeneration
      → ChatGenerationInput
      → List ℕ
      → ChatGenerationOperation
      → World State
      → Option (PreparedGeneration × List ℕ) × World State
  unfolding prepare_fallback
  next_fallback initial input [] operation w = (none, w)
  next_fallback initial input (id ∷ ids) operation w =
      let (r, v) = prepare_fallback initial input id operation w in
      elim r [
        | ok fallback ↦ (some (fallback, ids), v)
        | err _ ↦ next_fallback initial input ids operation v
      ]

  abbrev pub create_assistant_metadata :
      PreparedGeneration
      → Option String
      → Option String
      → Option Bool
      → Option PublicMessage
      → Option TokenUsage
      → Option ℕ
      → AssistantMetadata
  create_assistant_metadata prepared reasoning finish_reason incomplete error_message usage
        latency_ms =
      record {
        provider = prepared.provider_metadata;
        model = prepared.request.model;
        reasoning = reasoning;
        finish_reason = finish_reason;
        incomplete = incomplete;
        error_message = error_message;
        usage = usage;
        latency_ms = latency_ms;
        params = prepared.params;
      }

  unfoldable pub complete_from_adapter :
      PreparedGeneration → Exec (World State) LlmCompletionResponse
  complete_from_adapter prepared w =
      let (r, v) =
        noted (asked prepared.provider_metadata.provider_id prepared.request)
          (complete prepared.provider prepared.request) w in
      elim r [ ok response ↦ (ok response, v) | err e ↦ (err (normalize_adapter_error e), v) ]

  unfoldable pub add_user_message : ChatGenerationInput → Exec (World State) ChatMessage
  add_user_message input =
      let message : ChatMessageCreateInput = record {
        content = input.content;
        author = user;
        session_id = input.session_id;
      } in
      noted (added message) (create_message message)

  unfoldable pub or_no_ids : Bool → ℕ → Exec (World State) (List ℕ)
  or_no_ids true id = quiet (list_fallback_provider_ids id)
  or_no_ids false id = pure []

  unfoldable pub to_prepared :
      ChatGenerationInput
      → ℕ
      → List HistoryMessage
      → ResolvedProvider
      → List ℕ
      → ChatMessage
      → ℕ
      → PreparedGeneration
  unfolding apply_generation_defaults
  to_prepared input workspace_id messages resolved ids user_message started_at =
      let params = apply_generation_defaults resolved.generation_defaults input.params in
      record {
        provider = resolved.provider;
        fallback_provider_ids = ids;
        workspace_id = workspace_id;
        provider_metadata = record {
          provider_id = resolved.provider_id;
          provider_name = resolved.provider_name;
          provider_type = resolved.provider.config_type;
        };
        request = record {
          model = resolved.model;
          messages = to_llm_messages (
              messages
              ++ (record { content = user_message.content; author = user_message.author } ∷ []));
          params = params;
        };
        user_message = user_message;
        started_at = started_at;
        params = params;
      }

  unfoldable pub prepare_generation :
      ChatGenerationInput
      → ChatWorkspaceContext
      → ChatGenerationOperation
      → Exec (World State) PreparedGeneration
  unfolding ensure_authorized_workspace ensure_session_in_workspace or_no_ids to_prepared
      add_user_message
  prepare_generation input context operation = do
    workspace_id ← ensure_authorized_workspace context read_workspace
    messages ← ensure_session_in_workspace input.session_id workspace_id
    resolved ← quiet (
        resolve_generation_provider
          (record { provider_id = input.provider_id; model = input.model; operation = operation }))
    ids ← or_no_ids (is_default_generation input) resolved.provider_id
    user_message ← add_user_message input
    started_at ← read_clock
    pure (to_prepared input workspace_id messages resolved ids user_message started_at)
