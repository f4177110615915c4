-- ===== src/Llm/Failure/Classification.antt =====
-- llm.failure.ts: `classifyProviderFailure` and the fallback to another provider.
use silo_core.Base.{
  ℕ, String, Bool, true, false, not, ◌&&◌, ◌||◌, Option, none, some, leb, ◌==◌, is_some, [], ◌∷◌,
  if◌then◌else◌,
}
use silo_core.Base.Int.{Number, int, pos}
use silo_core.Llm.Failure.{
  ProviderFailureOperation, ProviderFailureStage, upstream_request, response_parse, stream_read,
  ProviderFailureCategory, authentication, rate_limit, timeout, connection, http,
  malformed_response, stream_failure, cancelled, capability, invalid_request, unknown,
  ProviderFailureCode, authentication_code, rate_limit_code, timeout_code, connection_code,
  http_error_code, malformed_response_code, stream_error_code, cancelled_code, capability_code,
  invalid_request_code, unknown_code, AbortCause, deadline, local_cancel, Code, http_code,
  ErrorClass, streaming_error, LlmProviderError, OtherError, Thrown, capability_error,
  provider_error, input_error, other_error, FailureInput, Verdict, ProviderFailure, one_of,
  transient_codes, malformed_codes, code_name, is_stream, is_generation, generic_error,
}

abbrev is_deadline : Option AbortCause → Bool
is_deadline (some deadline) = true
is_deadline _ = false

abbrev named_as : String → OtherError → Bool
named_as s e = one_of (s ∷ []) e.name

-- `aborted`: a provider's error, a capability error and an input error have names of their own.
abbrev pub is_aborted : Thrown → Option AbortCause → Bool
is_aborted (other_error e) cause =
    named_as "AbortError" e || (is_deadline cause && named_as "TimeoutError" e)
is_aborted _ cause = false

abbrev is_streaming_error : ErrorClass → Bool
is_streaming_error streaming_error = true
is_streaming_error _ = false

abbrev to_streaming_error : ProviderFailureOperation → LlmProviderError → LlmProviderError
to_streaming_error operation e =
    if is_stream operation && not (is_streaming_error e.error_class)
    then record e { error_class = streaming_error }
    else e

unfoldable pub normalized : FailureInput → Thrown
normalized i = elim i.error [
  | capability_error ↦ capability_error
  | provider_error e ↦ provider_error (to_streaming_error i.operation e)
  | input_error ↦
      provider_error (generic_error i.provider_type i.operation (is_aborted i.error i.abort_cause))
  | other_error e ↦
      provider_error (generic_error i.provider_type i.operation (is_aborted i.error i.abort_cause))
]

abbrev pub valid_status : Option Number → Option ℕ
valid_status (some (int (pos n))) = if leb 100 n && leb n 599 then some n else none
valid_status _ = none

abbrev pub status_of : Thrown → Option ℕ
status_of (provider_error e) = valid_status e.status_code
status_of _ = none

abbrev pub code_of : Thrown → Option Code
code_of (provider_error e) = e.code
code_of _ = none

abbrev is_parse_error : Thrown → Bool
is_parse_error (other_error e) = e.is_syntax_error || e.is_type_error
is_parse_error _ = false

abbrev is_response_parse : ProviderFailureStage → Bool
is_response_parse response_parse = true
is_response_parse _ = false

abbrev is_upstream_request : ProviderFailureStage → Bool
is_upstream_request upstream_request = true
is_upstream_request _ = false

abbrev is_stream_read : ProviderFailureStage → Bool
is_stream_read stream_read = true
is_stream_read _ = false

abbrev pub is_malformed : FailureInput → Option Code → Bool
is_malformed i code =
    one_of malformed_codes (code_name code) || (is_response_parse i.stage && is_parse_error i.error)

abbrev failure_stage : FailureInput → Bool → ProviderFailureStage
failure_stage i malformed =
    if malformed then (if is_stream i.operation then stream_read else response_parse) else i.stage

abbrev is_capability_error : Thrown → Bool
is_capability_error capability_error = true
is_capability_error _ = false

-- `error instanceof InvalidInputError`, which a capability error is too
abbrev is_input_error : Thrown → Bool
is_input_error capability_error = true
is_input_error input_error = true
is_input_error _ = false

abbrev is_network_error : Thrown → Bool
is_network_error (other_error e) = e.is_type_error || (e.is_error && named_as "FetchError" e)
is_network_error _ = false

abbrev pub is_status : Option ℕ → ℕ → Bool
is_status none n = false
is_status (some s) n = s == n

abbrev is_code : Option Code → String → Bool
is_code code s = one_of (s ∷ []) (code_name code)

abbrev pub verdict : ProviderFailureCategory → ProviderFailureCode → Option Bool → Verdict
verdict category code retryable = record { category = category; code = code; retryable = retryable }

abbrev pub http_verdict : ℕ → Verdict
http_verdict status = verdict http http_error_code (if leb 500 status then some true else none)

-- The chain of tests, once no abort explains the failure and the answer was not malformed: first
-- what the error says of itself, then its status, then signs of a lost connection.
unfoldable pub by_error : Bool → Bool → Bool → Bool → Verdict → Verdict
by_error lacks_capability is_invalid is_unauthenticated is_limited rest =
    if lacks_capability
    then verdict capability capability_code (some false)
    else if is_invalid
    then verdict invalid_request invalid_request_code (some false)
    else if is_unauthenticated
    then verdict authentication authentication_code (some false)
    else if is_limited
    then verdict rate_limit rate_limit_code (some true)
    else rest

unfoldable pub by_connection : Bool → Bool → Bool → Bool → Verdict
by_connection is_transient is_unconnected is_network is_broken_stream =
    if is_transient
    then verdict connection connection_code (some true)
    else if is_unconnected
    then verdict connection connection_code (some true)
    else if is_network
    then verdict connection connection_code (some true)
    else if is_broken_stream
    then verdict stream_failure stream_error_code none
    else verdict unknown unknown_code none

unfoldable pub by_status : FailureInput → Option ℕ → Option Code → ProviderFailureStage → Verdict
by_status i (some n) code stage = http_verdict n
by_status i none code stage =
    by_connection (one_of transient_codes i.failure_code) (is_code code "CONNECTION_ERROR")
      (is_upstream_request stage
        && (not (is_aborted i.error i.abort_cause) && is_network_error i.error))
      (is_stream_read stage && not (is_aborted i.error i.abort_cause))

abbrev pub of_tests : FailureInput → Option ℕ → Option Code → ProviderFailureStage → Verdict
of_tests i status code stage =
    by_error (is_capability_error i.error || is_code code "MODEL_LISTING_UNSUPPORTED")
      (is_input_error i.error || is_code code "PROVIDER_INVALID_REQUEST")
      (is_code code "AUTHENTICATION_ERROR" || (is_status status 401 || is_status status 403))
      (is_code code "RATE_LIMITED" || is_status status 429) (by_status i status code stage)

abbrev pub of_cause : Option AbortCause → Bool → Verdict → Verdict
of_cause (some local_cancel) malformed rest = verdict cancelled cancelled_code (some false)
of_cause (some deadline) malformed rest = verdict timeout timeout_code (some true)
of_cause none malformed rest =
    if malformed then verdict malformed_response malformed_response_code (some false) else rest

unfoldable pub verdict_of : FailureInput → Thrown → Verdict
verdict_of i error =
    let malformed = is_malformed i (code_of error) in
    of_cause (if is_aborted i.error i.abort_cause then i.abort_cause else none) malformed
      (of_tests i (status_of error) (code_of error) (failure_stage i malformed))

abbrev pub is_http_404 : Option Code → Bool
is_http_404 (some (http_code n)) = n == 404
is_http_404 _ = false

abbrev pub available : Verdict → Option ProviderFailureCode
available v = elim v.retryable [ none ↦ none | some b ↦ if b then some v.code else none ]

unfoldable pub classify_provider_failure : FailureInput → ProviderFailure
unfolding normalized verdict_of by_error by_connection by_status
classify_provider_failure i =
    let error = normalized i in
    let v = verdict_of i error in
    record {
      error = error;
      stage = failure_stage i (is_malformed i (code_of error));
      verdict = v;
      upstream_status = status_of error;
      availability = available v;
      generation_not_found =
          is_status (status_of error) 404
          && (is_http_404 (code_of error) && is_generation i.operation);
    }

-- `isGenerationFallbackEligible` on the error of a failure.
unfoldable pub is_generation_fallback_eligible : ProviderFailure → Bool
is_generation_fallback_eligible f = is_some f.availability || f.generation_not_found
