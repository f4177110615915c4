-- ===== src/Chat.antt =====
-- The chat (backend/src/modules/chat): messages, generations and what the services that
-- `createChatService` depends on take and reply. Times of a message and the log are left out, and so
-- is the operation context, which only the log and the adapters read.
pub mod Calls
pub mod Generation
pub mod Completion
pub mod Streaming
pub mod Sessions
mod Tests
use silo_core.Base.{ℕ, String, Bool, Option, List}
use silo_core.Json.{Json}
use silo_core.Llm.Failure.{LlmProviderType, Code}
use silo_core.Llm.SafeError.{PublicMessage}

pub data MessageAuthor : Type 0 where
  user assistant system : MessageAuthor

pub record HistoryMessage : Type 0 where
  pub content : String
  pub author : MessageAuthor

pub record ChatMessage : Type 0 where
  pub id : ℕ
  pub content : String
  pub author : MessageAuthor
  pub session_id : ℕ

pub record ChatMessageCreateInput : Type 0 where
  pub content : String
  pub author : MessageAuthor
  pub session_id : ℕ

-- A JavaScript number that is only passed on, by its text.
abbrev pub Decimal : Type 0
Decimal = String

pub record ChatGenerationParams : Type 0 where
  pub temperature : Option Decimal
  pub top_p : Option Decimal
  pub max_tokens : Option Decimal
  pub stop_sequences : Option (List String)

pub record ChatGenerationInput : Type 0 where
  pub content : String
  pub provider_id : Option ℕ
  pub model : Option String
  pub params : ChatGenerationParams
  pub session_id : ℕ

pub record TokenUsage : Type 0 where
  pub prompt_tokens : ℕ
  pub completion_tokens : ℕ
  pub total_tokens : ℕ

pub data LlmMessageRole : Type 0 where
  user_role assistant_role system_role : LlmMessageRole

pub record LlmMessage : Type 0 where
  pub role : LlmMessageRole
  pub content : String

pub record LlmCompletionRequest : Type 0 where
  pub model : String
  pub messages : List LlmMessage
  pub params : ChatGenerationParams

pub record LlmCompletionResponse : Type 0 where
  pub content : String
  pub reasoning : Option String
  pub finish_reason : Option String
  pub usage : Option TokenUsage
  pub latency_ms : Option ℕ

pub record LlmStreamChunk : Type 0 where
  pub content : Option String
  pub reasoning : Option String
  pub done : Bool
  pub finish_reason : Option String
  pub usage : Option TokenUsage

-- An adapter, by the members that the chat reads.
pub record LlmProvider : Type 0 where
  pub id : String
  pub config_type : LlmProviderType

pub record ResolvedProvider : Type 0 where
  pub provider_id : ℕ
  pub provider_name : String
  pub provider : LlmProvider
  pub model : String
  pub generation_defaults : ChatGenerationParams

pub data ChatGenerationOperation : Type 0 where
  completion streaming : ChatGenerationOperation

pub record ResolveInput : Type 0 where
  pub provider_id : Option ℕ
  pub model : Option String
  pub operation : ChatGenerationOperation

pub record ProviderMetadata : Type 0 where
  pub provider_id : ℕ
  pub provider_name : String
  pub provider_type : LlmProviderType

pub record AssistantMetadata : Type 0 where
  pub provider : ProviderMetadata
  pub model : String
  pub reasoning : Option String
  pub finish_reason : Option String
  pub incomplete : Option Bool
  pub error_message : Option PublicMessage
  pub usage : Option TokenUsage
  pub latency_ms : Option ℕ
  pub params : ChatGenerationParams

pub record GeneratedAssistantMessageInput : Type 0 where
  pub session_id : ℕ
  pub workspace_id : ℕ
  pub triggering_user_message_id : ℕ
  pub content : String
  pub metadata : AssistantMetadata
  pub title_eligible : Bool

pub data GenerationUsageOutcome : Type 0 where
  succeeded failed aborted : GenerationUsageOutcome

-- `operation` is always CHAT_REPLY here.
pub record GenerationUsageCreateInput : Type 0 where
  pub workspace_id : ℕ
  pub provider_id : ℕ
  pub model : String
  pub streaming : Bool
  pub latency_ms : ℕ
  pub usage : Option TokenUsage
  pub outcome : GenerationUsageOutcome
  pub error_code : Option Code

pub record PreparedGeneration : Type 0 where
  pub provider : LlmProvider
  pub fallback_provider_ids : List ℕ
  pub workspace_id : ℕ
  pub provider_metadata : ProviderMetadata
  pub request : LlmCompletionRequest
  pub user_message : ChatMessage
  pub started_at : ℕ
  pub params : ChatGenerationParams
