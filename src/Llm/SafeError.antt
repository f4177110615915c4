-- ===== src/Llm/SafeError.antt =====
-- llm.safeError.ts: what of a provider's error may be shown. Reading a code or a status never throws
-- here.
use silo_core.Base.{
  ℕ, String, Bool, true, false, ◌&&◌, ◌||◌, ◌≡◌, refl, Option, none, some, List, [], ◌∷◌, any, leb,
  ◌==◌, str_eq, or_else, if◌then◌else◌, arith, inl, inr, Bool-cases, if_true, if_false, ◌∙◌, subst,
  sym, ap, ==_iff,
}
use silo_core.Base.Int.{Number, int, pos, negsuc, non_integer}
use silo_core.Errors.{Error, invalid_input, llm_failure, llm_error, llm_capability}
use silo_core.Llm.Failure.{
  Code, http_code, named, LlmProviderError, Thrown, capability_error, provider_error, input_error,
  other_error, plain_error,
}

-- the names of `PUBLIC_PROVIDER_ERRORS`
abbrev public_provider_errors : List String
public_provider_errors =
    "AUTHENTICATION_ERROR" ∷ "RATE_LIMITED" ∷ "MODEL_LISTING_UNSUPPORTED" ∷ "REQUEST_TIMEOUT"
    ∷ "CONNECTION_ERROR" ∷ "UPSTREAM_ERROR" ∷ "UPSTREAM_STREAM_ERROR" ∷ "LIST_MODELS_FAILED"
    ∷ "PULL_MODEL_FAILED" ∷ "EMBEDDINGS_FAILED" ∷ "MALFORMED_RESPONSE" ∷ "MALFORMED_STREAM_CHUNK"
    ∷ "MALFORMED_MODEL_LIST" ∷ "MALFORMED_EMBEDDING_RESPONSE" ∷ "PROVIDER_INVALID_REQUEST" ∷ []

unfoldable has_public_name : String → Bool
has_public_name code = any (λ name. str_eq name code) public_provider_errors

abbrev is_http_status : ℕ → Bool
is_http_status n = leb 100 n && leb n 599

unfoldable pub is_public_llm_error_code : Code → Bool
unfolding has_public_name
is_public_llm_error_code (http_code n) = is_http_status n
is_public_llm_error_code (named code) =
    has_public_name code
    || (str_eq code "PROVIDER_AUTHENTICATION_ERROR"
        || (str_eq code "HEALTH_CHECK_FAILED"
            || (str_eq code "LLM_PROVIDER_CAPABILITY_UNSUPPORTED"
                || str_eq code "ADAPTER_UNAVAILABLE")))

unfoldable status_of_number : Option Number → Option ℕ
status_of_number (some (int (pos n))) = if is_http_status n then some n else none
status_of_number _ = none

unfoldable safe_http_status : LlmProviderError → Option ℕ
unfolding status_of_number
safe_http_status e = status_of_number e.status_code

abbrev is_status : Option ℕ → ℕ → Bool
is_status none n = false
is_status (some m) n = m == n

unfoldable safe_code : Option ℕ → Option Code → Option Code
unfolding has_public_name
safe_code status none = none
safe_code status (some (named code)) =
    if has_public_name code || str_eq code "HEALTH_CHECK_FAILED" then some (named code) else none
safe_code status (some (http_code n)) = if is_status status n then some (http_code n) else none

unfoldable safe_provider_code : LlmProviderError → Option Code
unfolding safe_code safe_http_status
safe_provider_code e = safe_code (safe_http_status e) e.code

-- `code === 'AUTHENTICATION_ERROR' ? 'PROVIDER_AUTHENTICATION_ERROR' : code`
unfoldable public_code : Option Code → Option Code
public_code (some (named code)) =
    if str_eq code "AUTHENTICATION_ERROR"
    then some (named "PROVIDER_AUTHENTICATION_ERROR")
    else some (named code)
public_code code = code

abbrev thrown_of : Error → Option Thrown
thrown_of (llm_failure f) = some f.error
thrown_of (llm_error e) = some (provider_error e)
thrown_of llm_capability = some capability_error
thrown_of _ = none

unfoldable code_of_thrown : Option Thrown → Option Code
unfolding safe_provider_code public_code
code_of_thrown (some capability_error) = some (named "LLM_PROVIDER_CAPABILITY_UNSUPPORTED")
code_of_thrown (some (provider_error e)) = public_code (safe_provider_code e)
code_of_thrown _ = none

unfoldable pub get_public_llm_error_code : Error → Option Code
unfolding code_of_thrown
get_public_llm_error_code e = code_of_thrown (thrown_of e)

-- `getLlmErrorCode` of llm.logging.ts
unfoldable pub get_llm_error_code : Error → Code
get_llm_error_code e = or_else (get_public_llm_error_code e) (named "UNKNOWN_ERROR")

-- A message by what it says of the error; `provider_message` is the text of that code.
pub data PublicMessage : Type 0 where
  unsupported_capability : PublicMessage
  returned_http : Option ℕ → PublicMessage
  health_check_failed : Option ℕ → PublicMessage
  provider_message : String → PublicMessage
  fallback_message : PublicMessage

unfoldable message_of_code : LlmProviderError → Option Code → PublicMessage
unfolding safe_http_status
message_of_code e none = fallback_message
message_of_code e (some (http_code n)) = returned_http (safe_http_status e)
message_of_code e (some (named code)) =
    if str_eq code "HEALTH_CHECK_FAILED"
    then health_check_failed (safe_http_status e)
    else provider_message code

unfoldable message_of_thrown : Option Thrown → PublicMessage
unfolding message_of_code safe_provider_code
message_of_thrown (some capability_error) = unsupported_capability
message_of_thrown (some (provider_error e)) = message_of_code e (safe_provider_code e)
message_of_thrown _ = fallback_message

unfoldable pub get_public_llm_error_message : Error → PublicMessage
unfolding message_of_thrown
get_public_llm_error_message e = message_of_thrown (thrown_of e)

abbrev rejected_request : LlmProviderError
rejected_request = record {
  error_class = plain_error;
  code = some (named "PROVIDER_INVALID_REQUEST");
  status_code = none;
}

abbrev normalize_thrown : Error → Thrown → Error
normalize_thrown e input_error = llm_error rejected_request
normalize_thrown e _ = e

unfoldable pub normalize_adapter_error : Error → Error
normalize_adapter_error (invalid_input message) = llm_error rejected_request
normalize_adapter_error (llm_failure f) = normalize_thrown (llm_failure f) f.error
normalize_adapter_error e = e

-- What the operational logs and the usage rows get is a code that may be public.
pub data AllPublic : Option Code → Type 0 where
  no_code : AllPublic none
  public : (c : Code) → is_public_llm_error_code c ≡ true → AllPublic (some c)

or_in : (a b x y : Bool) → (a || b) ≡ true → (a || (x || (b || y))) ≡ true
or_in a b x y e = ground arith

named_public :
    (code : String)
    → (has_public_name code || str_eq code "HEALTH_CHECK_FAILED") ≡ true
    → is_public_llm_error_code (named code) ≡ true
unfolding is_public_llm_error_code
named_public code e = or_in (has_public_name code) _ _ _ e

provider_code_public : is_public_llm_error_code (named "PROVIDER_AUTHENTICATION_ERROR") ≡ true
unfolding is_public_llm_error_code has_public_name
provider_code_public = refl

capability_code_public :
    is_public_llm_error_code (named "LLM_PROVIDER_CAPABILITY_UNSUPPORTED") ≡ true
unfolding is_public_llm_error_code has_public_name
capability_code_public = refl

http_public : (n : ℕ) → is_http_status n ≡ true → is_public_llm_error_code (http_code n) ≡ true
unfolding is_public_llm_error_code
http_public n e = e

shown_named :
    (code : String)
    → is_public_llm_error_code (named code) ≡ true
    → AllPublic (public_code (some (named code)))
unfolding public_code
shown_named code e = elim (Bool-cases (str_eq code "AUTHENTICATION_ERROR")) [
  | inl auth ↦ subst AllPublic (sym (if_true _ _ auth)) (public _ provider_code_public)
  | inr other ↦ subst AllPublic (sym (if_false _ _ other)) (public _ e)
]

range_of :
    (s : Option Number) (n : ℕ) → is_status (status_of_number s) n ≡ true → is_http_status n ≡ true
unfolding status_of_number
range_of none n h = cc
range_of (some non_integer) n h = cc
range_of (some (int (negsuc k))) n h = cc
range_of (some (int (pos k))) n h = elim (Bool-cases (is_http_status k)) [
  | inl good ↦
      let same = sym (ap (λ x. is_status x n) (if_true (some k) none good)) ∙ h in
      subst (λ m. is_http_status m ≡ true) ((==_iff k n).0 same) good
  | inr bad ↦ let none_there = sym (ap (λ x. is_status x n) (if_false (some k) none bad)) ∙ h in cc
]

status_in_range :
    (e : LlmProviderError) (n : ℕ)
    → is_status (safe_http_status e) n ≡ true
    → is_http_status n ≡ true
unfolding safe_http_status
status_in_range e n h = range_of e.status_code n h

safe_code_public :
    (e : LlmProviderError) (c : Option Code)
    → AllPublic (public_code (safe_code (safe_http_status e) c))
unfolding safe_code public_code
safe_code_public e none = no_code
safe_code_public e (some (named code)) =
    elim (Bool-cases (has_public_name code || str_eq code "HEALTH_CHECK_FAILED")) [
      | inl ok ↦
          subst (λ x. AllPublic (public_code x)) (sym (if_true _ _ ok))
            (shown_named code (named_public code ok))
      | inr no_name ↦ subst (λ x. AllPublic (public_code x)) (sym (if_false _ _ no_name)) no_code
    ]
safe_code_public e (some (http_code n)) = elim (Bool-cases (is_status (safe_http_status e) n)) [
  | inl same ↦
      subst (λ x. AllPublic (public_code x)) (sym (if_true _ _ same))
        (public _ (http_public n (status_in_range e n same)))
  | inr other ↦ subst (λ x. AllPublic (public_code x)) (sym (if_false _ _ other)) no_code
]

thrown_public : (t : Option Thrown) → AllPublic (code_of_thrown t)
unfolding code_of_thrown safe_provider_code
thrown_public none = no_code
thrown_public (some capability_error) = public _ capability_code_public
thrown_public (some (provider_error e)) = safe_code_public e e.code
thrown_public (some input_error) = no_code
thrown_public (some (other_error o)) = no_code

-- Whatever was thrown, the code that `getPublicLlmErrorCode` replies, if any, is one that
-- `isPublicLlmErrorCode` accepts: a listed code, or `HTTP_` and a status from 100 to 599.
pub get_public_llm_error_code-AllPublic : (e : Error) → AllPublic (get_public_llm_error_code e)
unfolding get_public_llm_error_code
get_public_llm_error_code-AllPublic e = thrown_public (thrown_of e)
