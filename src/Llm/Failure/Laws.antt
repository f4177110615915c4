-- ===== src/Llm/Failure/Laws.antt =====
-- When the failure of one provider lets another take over.
use silo_core.Base.{
  ℕ, ◌≡◌, refl, ◌↔◌, ◌⊎◌, ◌≤◌, inl, inr, Bool, true, false, ◌||◌, ◌&&◌, Option, none, some, arith,
  is_some,
}
use silo_core.Llm.Failure.{
  ProviderFailureOperation, ProviderFailureCategory, authentication, rate_limit, timeout,
  connection, http, malformed_response, stream_failure, cancelled, capability, invalid_request,
  unknown, ProviderFailureCode, authentication_code, rate_limit_code, timeout_code, connection_code,
  http_error_code, malformed_response_code, stream_error_code, cancelled_code, capability_code,
  invalid_request_code, unknown_code, AbortCause, deadline, local_cancel, http_code, complete,
  stream, Code, Thrown, FailureInput, Verdict, ProviderFailure, ProviderFailureStage, is_generation,
}
use silo_core.Llm.Failure.Classification.{
  by_error, by_connection, by_status, normalized, status_of, code_of, of_tests, of_cause,
  verdict_of, available, http_verdict, classify_provider_failure, is_generation_fallback_eligible,
  is_status, is_http_404,
}

-- Failures that another try may well not meet: time ran out, too many requests, no connection, or a
-- server's own error.
abbrev pub IsTransient : Option ℕ → ProviderFailureCategory → Type 0
IsTransient status timeout = Unit
IsTransient status rate_limit = Unit
IsTransient status connection = Unit
IsTransient (some n) http = 500 ≤ n
IsTransient _ _ = ⊥

-- The one code of a category.
abbrev pub code_of_category : ProviderFailureCategory → ProviderFailureCode
code_of_category authentication = authentication_code
code_of_category rate_limit = rate_limit_code
code_of_category timeout = timeout_code
code_of_category connection = connection_code
code_of_category http = http_error_code
code_of_category malformed_response = malformed_response_code
code_of_category stream_failure = stream_error_code
code_of_category cancelled = cancelled_code
code_of_category capability = capability_code
code_of_category invalid_request = invalid_request_code
code_of_category unknown = unknown_code

-- A verdict is to be retried exactly if it is transient, and its code is that of its category.
record Fits (status : Option ℕ) (v : Verdict) : Type 0 where
  pub retry : (is_some (available v) ≡ true) ↔ IsTransient status v.category
  pub coded : v.code ≡ code_of_category v.category

false_not_true : ¬ (false ≡ true)
false_not_true e = cc

abbrev of_category : ProviderFailureCategory → Option Bool → Verdict
of_category c retryable = record { category = c; code = code_of_category c; retryable = retryable }

-- The verdicts at the ends of the chain of tests.
declined :
    (status : Option ℕ) (c : ProviderFailureCategory)
    → ¬ IsTransient status c
    → Fits status (of_category c (some false))
declined status c h = record {
  retry = (λ e. absurd (false_not_true e), λ a. absurd (h a));
  coded = refl;
}

silent :
    (status : Option ℕ) (c : ProviderFailureCategory)
    → ¬ IsTransient status c
    → Fits status (of_category c none)
silent status c h = record {
  retry = (λ e. absurd (false_not_true e), λ a. absurd (h a));
  coded = refl;
}

retried :
    (status : Option ℕ) (c : ProviderFailureCategory)
    → IsTransient status c
    → Fits status (of_category c (some true))
retried status c h = record { retry = (λ _. h, λ _. refl); coded = refl }

http_verdict-Fits : (n : ℕ) → Fits (some n) (http_verdict n)
http_verdict-Fits n = record { retry = ground arith; coded = refl }

by_error-Fits :
    (s : Option ℕ) (a b c d : Bool) (rest : Verdict)
    → (¬ IsTransient s capability) × (¬ IsTransient s invalid_request)
    → ¬ IsTransient s authentication
    → Fits s rest
    → Fits s (by_error a b c d rest)
unfolding by_error
by_error-Fits s true b c d rest (h, i) k r = declined s capability h
by_error-Fits s false true c d rest (h, i) k r = declined s invalid_request i
by_error-Fits s false false true d rest (h, i) k r = declined s authentication k
by_error-Fits s false false false true rest (h, i) k r = retried s rate_limit tt
by_error-Fits s false false false false rest (h, i) k r = r

by_connection-Fits : (a b c d : Bool) → Fits none (by_connection a b c d)
unfolding by_connection
by_connection-Fits true b c d = retried none connection tt
by_connection-Fits false true c d = retried none connection tt
by_connection-Fits false false true d = retried none connection tt
by_connection-Fits false false false true = silent none stream_failure λ a. a
by_connection-Fits false false false false = silent none unknown λ a. a

of_tests-Fits :
    (i : FailureInput) (status : Option ℕ) (code : Option Code) (stage : ProviderFailureStage)
    → Fits status (of_tests i status code stage)
unfolding by_status
of_tests-Fits i none code stage =
    by_error-Fits none _ _ _ _ _ (λ a. a, λ a. a) (λ a. a) (by_connection-Fits _ _ _ _)
of_tests-Fits i (some n) code stage =
    by_error-Fits (some n) _ _ _ _ _ (λ a. a, λ a. a) (λ a. a) (http_verdict-Fits n)

not-IsTransient :
    (status : Option ℕ)
    → (¬ IsTransient status cancelled) × (¬ IsTransient status malformed_response)
not-IsTransient none = (λ a. a, λ a. a)
not-IsTransient (some n) = (λ a. a, λ a. a)

of_cause-Fits :
    (status : Option ℕ) (cause : Option AbortCause) (malformed : Bool) (rest : Verdict)
    → Fits status rest
    → Fits status (of_cause cause malformed rest)
of_cause-Fits status (some local_cancel) malformed rest h =
    declined status cancelled (not-IsTransient status).0
of_cause-Fits status (some deadline) malformed rest h = retried status timeout tt
of_cause-Fits status none true rest h =
    declined status malformed_response (not-IsTransient status).1
of_cause-Fits status none false rest h = h

verdict_of-Fits : (i : FailureInput) (error : Thrown) → Fits (status_of error) (verdict_of i error)
unfolding verdict_of
verdict_of-Fits i error =
    of_cause-Fits (status_of error) _ _ _ (of_tests-Fits i (status_of error) (code_of error) _)

-- The model that was asked for is not there: an answer 404 of the provider to a generation.
abbrev pub IsModelMissing : FailureInput → ProviderFailure → Type 0
IsModelMissing i f =
    (f.upstream_status ≡ some 404)
    × (code_of f.error ≡ some (http_code 404))
    × ((i.operation ≡ complete) ⊎ (i.operation ≡ stream))

or_iff : {A B : Type 0} (b c : Bool) → (b ≡ true) ↔ A → (c ≡ true) ↔ B → ((b || c) ≡ true) ↔ (A ⊎ B)
or_iff true c h g = (λ e. inl (h.0 refl), λ x. refl)
or_iff false c h g =
    (λ e. inr (g.0 e), λ x. elim x [ inl a ↦ absurd (false_not_true (h.1 a)) | inr b ↦ g.1 b ])

missing_iff :
    (status : Option ℕ) (code : Option Code) (operation : ProviderFailureOperation)
    → ((is_status status 404 && (is_http_404 code && is_generation operation)) ≡ true) ↔ (
        (status ≡ some 404)
        × (code ≡ some (http_code 404))
        × ((operation ≡ complete) ⊎ (operation ≡ stream)))
missing_iff status code operation = ground arith

-- A failed generation may fall back to another provider exactly if its failure is transient by its
-- category and status, or if the provider answered that it has not the model.
pub is_generation_fallback_eligible_iff :
    (i : FailureInput)
    → let f = classify_provider_failure i in
      (is_generation_fallback_eligible f ≡ true)
      ↔ (IsTransient f.upstream_status f.verdict.category ⊎ IsModelMissing i f)
unfolding classify_provider_failure is_generation_fallback_eligible
is_generation_fallback_eligible_iff i =
    or_iff _ _ (verdict_of-Fits i (normalized i)).retry
      (missing_iff (status_of (normalized i)) (code_of (normalized i)) i.operation)

-- The code that is reported for a failure is the code of its category.
pub provider_failure_code_of_category :
    (i : FailureInput)
    → let v = (classify_provider_failure i).verdict in v.code ≡ code_of_category v.category
unfolding classify_provider_failure
provider_failure_code_of_category i = (verdict_of-Fits i (normalized i)).coded
