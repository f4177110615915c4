-- ===== src/Chat/Calls.antt =====
-- What `createChatService` depends on (ChatServiceDependencies of chat.service.ts), the adapters, the
-- clock and JavaScript's strings: a parameter. The calls that reach a provider or write are kept, the
-- latest first, next to the state that the parameter keeps for itself.
use silo_core.Base.{ℕ, String, Bool, Option, List, ◌∷◌}
use silo_core.Errors.{Error, Result, ok, err}
use silo_core.Exec.{Exec}
use silo_core.Workspace.{Workspace, WorkspaceActor}
use silo_core.Chat.{
  HistoryMessage, ChatMessage, ChatMessageCreateInput, LlmCompletionRequest, LlmCompletionResponse,
  LlmStreamChunk, LlmProvider, ResolvedProvider, ResolveInput, GeneratedAssistantMessageInput,
  GenerationUsageCreateInput,
}

pub record Site : Type 1 where
  pub State : Type 0
  pub get_session_in_workspace : ℕ → ℕ → Exec State (Option (List HistoryMessage))
  pub create_message : ChatMessageCreateInput → Exec State ChatMessage
  pub create_generated_assistant_message : GeneratedAssistantMessageInput → Exec State ChatMessage
  pub resolve_generation_provider : ResolveInput → Exec State ResolvedProvider
  pub list_fallback_provider_ids : ℕ → Exec State (List ℕ)
  pub promote_default_provider : ℕ → ℕ → Exec State Bool
  pub record_generation : GenerationUsageCreateInput → Exec State (Unit {0})
  pub complete : LlmProvider → LlmCompletionRequest → Exec State LlmCompletionResponse
  -- the chunks that the adapter yields, and what it throws after them, if anything
  pub stream_complete :
      LlmProvider → LlmCompletionRequest → State → (List LlmStreamChunk × Option Error) × State
  pub now : State → ℕ
  pub trim : String → String
  pub to_lower_case : String → String

-- A stored message is one that the repository accepted; the other calls may have failed.
pub data Call : Type 0 where
  asked : ℕ → LlmCompletionRequest → Call
  added : ChatMessageCreateInput → Call
  stored : GeneratedAssistantMessageInput → Call
  recorded : GenerationUsageCreateInput → Call
  promoted : ℕ → ℕ → Call

pub record World (State : Type 0) : Type 0 where
  pub state : State
  pub calls : List Call

-- The workspace of `IChatWorkspaceContext` is the row that the policy looks at.
pub record ChatWorkspaceContext : Type 0 where
  pub workspace : Workspace
  pub actor : WorkspaceActor

module _ {State : Type 0} where
  -- A call that leaves no trace, one that is kept, and one that is kept if it returns.
  abbrev pub within : {A : Type 0} → World State → Result A × State → Result A × World State
  within w (r, s) = (r, record { state = s; calls = w.calls })

  abbrev pub quiet : {A : Type 0} → Exec State A → Exec (World State) A
  quiet op w = within w (op w.state)

  abbrev pub noted : {A : Type 0} → Call → Exec State A → Exec (World State) A
  noted c op w = within (record w { calls = c ∷ w.calls }) (op w.state)

  abbrev pub within_ok :
      {A : Type 0} → Call → World State → Result A × State → Result A × World State
  within_ok c w (ok a, s) = (ok a, record { state = s; calls = c ∷ w.calls })
  within_ok c w (err e, s) = (err e, record { state = s; calls = w.calls })

  abbrev pub noted_if_ok : {A : Type 0} → Call → Exec State A → Exec (World State) A
  noted_if_ok c op w = within_ok c w (op w.state)

  abbrev pub swallow : {A : Type 0} → Result A × World State → World State
  swallow (r, w) = w
