-- ===== src/Llm/Failure.antt =====
-- llm.failure.ts: what kind of failure a provider's error is, and whether another provider may take
-- over. Messages and the id of the provider are left out. The weak maps keyed by the error that is
-- returned are the two last fields of the result: what they hold for that error.
pub mod Classification
pub mod Laws
use silo_core.Base.{
  ℕ, String, Bool, true, false, not, ◌&&◌, ◌||◌, Option, none, some, List, [], ◌∷◌, any, leb, ◌==◌,
  str_eq, is_some, if◌then◌else◌,
}
use silo_core.Base.Int.{Number, int, pos}

pub data LlmProviderType : Type 0 where
  ollama openai_compatible : LlmProviderType

pub data ProviderFailureOperation : Type 0 where
  initialise list_models complete stream embed pull_model : ProviderFailureOperation

pub data ProviderFailureStage : Type 0 where
  upstream_request response_parse stream_read local_abort : ProviderFailureStage

pub data ProviderFailureCategory : Type 0 where
  authentication rate_limit timeout connection http malformed_response : ProviderFailureCategory
  stream_failure cancelled capability invalid_request unknown : ProviderFailureCategory

pub data ProviderFailureCode : Type 0 where
  authentication_code rate_limit_code timeout_code connection_code http_error_code :
      ProviderFailureCode
  malformed_response_code stream_error_code cancelled_code capability_code : ProviderFailureCode
  invalid_request_code unknown_code : ProviderFailureCode

pub data AbortCause : Type 0 where
  deadline local_cancel : AbortCause

-- The code of a provider's error: `HTTP_<status>`, or another string.
pub data Code : Type 0 where
  http_code : ℕ → Code
  named : String → Code

-- LlmProviderError and its three subclasses.
pub data ErrorClass : Type 0 where
  plain_error streaming_error authentication_error rate_limit_error : ErrorClass

pub record LlmProviderError : Type 0 where
  pub error_class : ErrorClass
  pub code : Option Code
  pub status_code : Option Number

-- Any other thrown value: its prototypes and its `name`.
pub record OtherError : Type 0 where
  pub is_error : Bool
  pub is_syntax_error : Bool
  pub is_type_error : Bool
  pub name : Option String

pub data Thrown : Type 0 where
  capability_error : Thrown
  provider_error : LlmProviderError → Thrown
  input_error : Thrown
  other_error : OtherError → Thrown

pub record FailureInput : Type 0 where
  pub provider_type : LlmProviderType
  pub operation : ProviderFailureOperation
  pub error : Thrown
  pub stage : ProviderFailureStage
  -- `diagnostics.failureCode`, where it is a string
  pub failure_code : Option String
  pub abort_cause : Option AbortCause

-- Category, code and `retryable` of a failure.
pub record Verdict : Type 0 where
  pub category : ProviderFailureCategory
  pub code : ProviderFailureCode
  pub retryable : Option Bool

pub record ProviderFailure : Type 0 where
  pub error : Thrown
  pub stage : ProviderFailureStage
  pub verdict : Verdict
  pub upstream_status : Option ℕ
  pub availability : Option ProviderFailureCode
  pub generation_not_found : Bool

abbrev pub one_of : List String → Option String → Bool
one_of names none = false
one_of names (some s) = any (λ t. str_eq t s) names

abbrev pub transient_codes : List String
transient_codes =
    "ECONNREFUSED" ∷ "ECONNRESET" ∷ "ETIMEDOUT" ∷ "ENOTFOUND" ∷ "EAI_AGAIN" ∷ "EPIPE"
    ∷ "EHOSTUNREACH" ∷ "ENETUNREACH" ∷ []

abbrev pub malformed_codes : List String
malformed_codes =
    "MALFORMED_RESPONSE" ∷ "MALFORMED_STREAM_CHUNK" ∷ "MALFORMED_MODEL_LIST"
    ∷ "MALFORMED_EMBEDDING_RESPONSE" ∷ []

abbrev pub code_name : Option Code → Option String
code_name (some (named s)) = some s
code_name _ = none

abbrev pub is_stream : ProviderFailureOperation → Bool
is_stream stream = true
is_stream _ = false

abbrev is_listing : ProviderFailureOperation → Bool
is_listing initialise = true
is_listing list_models = true
is_listing _ = false

abbrev pub is_generation : ProviderFailureOperation → Bool
is_generation complete = true
is_generation stream = true
is_generation _ = false

abbrev plain : String → Option Number → LlmProviderError
plain code status = record {
  error_class = plain_error;
  code = some (named code);
  status_code = status;
}

abbrev of_status : ProviderFailureOperation → ℕ → LlmProviderError
of_status operation status = record {
  error_class = if is_stream operation then streaming_error else plain_error;
  code = some (http_code status);
  status_code = some (int (pos status));
}

abbrev openai_http_error : ProviderFailureOperation → ℕ → LlmProviderError
openai_http_error operation status =
    if is_stream operation
    then of_status operation status
    else if status == 401 || status == 403
    then record {
      error_class = authentication_error;
      code = some (named "AUTHENTICATION_ERROR");
      status_code = some (int (pos status));
    }
    else if status == 429
    then record {
      error_class = rate_limit_error;
      code = some (named "RATE_LIMITED");
      status_code = some (int (pos status));
    }
    else if is_listing operation && (status == 404 || status == 405)
    then plain "MODEL_LISTING_UNSUPPORTED" (some (int (pos status)))
    else of_status operation status

unfoldable pub provider_http_error :
    LlmProviderType → ProviderFailureOperation → ℕ → LlmProviderError
provider_http_error openai_compatible operation status = openai_http_error operation status
provider_http_error ollama initialise status = plain "HEALTH_CHECK_FAILED" (some (int (pos status)))
provider_http_error ollama operation status = of_status operation status

abbrev generic_code : LlmProviderType → ProviderFailureOperation → String
generic_code ollama initialise = "CONNECTION_ERROR"
generic_code openai_compatible initialise = "LIST_MODELS_FAILED"
generic_code _ list_models = "LIST_MODELS_FAILED"
generic_code _ pull_model = "PULL_MODEL_FAILED"
generic_code _ embed = "EMBEDDINGS_FAILED"
generic_code _ stream = "UPSTREAM_STREAM_ERROR"
generic_code _ complete = "UPSTREAM_ERROR"

unfoldable pub generic_error : LlmProviderType → ProviderFailureOperation → Bool → LlmProviderError
generic_error provider_type operation aborted = record {
  error_class = if is_stream operation then streaming_error else plain_error;
  code = some (named (if aborted then "REQUEST_TIMEOUT" else generic_code provider_type operation));
  status_code = none;
}
