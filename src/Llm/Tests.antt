-- ===== src/Llm/Tests.antt =====
-- The classification of failures on concrete errors.
use silo_core.Base.{ℕ, ◌≡◌, refl, ◌↔◌, ◌⊎◌, true, false, some, none}
use silo_core.Errors.{Error, llm_error}
use silo_core.Llm.SafeError.{
  AllPublic, get_public_llm_error_code, get_public_llm_error_code-AllPublic,
}
use silo_core.Llm.Failure.{
  rate_limit_error, named, FailureInput, openai_compatible, ollama, ProviderFailureOperation,
  complete, list_models, ProviderFailureCategory, rate_limit, connection, authentication,
  upstream_request, provider_http_error, provider_error, other_error, generic_error,
}
use silo_core.Llm.Failure.Classification.{
  classify_provider_failure, is_generation_fallback_eligible, by_error, by_status, by_connection,
}
use silo_core.Llm.Failure.Laws.{is_generation_fallback_eligible_iff, IsTransient, IsModelMissing}

abbrev answered : ProviderFailureOperation → ℕ → FailureInput
unfolding provider_http_error
answered operation status = record {
  provider_type = openai_compatible;
  operation = operation;
  error = provider_error (provider_http_error openai_compatible operation status);
  stage = upstream_request;
  failure_code = none;
  abort_cause = none;
}

abbrev unplugged : FailureInput
unplugged = record {
  provider_type = ollama;
  operation = complete;
  error = other_error (record {
    is_error = true;
    is_syntax_error = false;
    is_type_error = true;
    name = some "TypeError";
  });
  stage = upstream_request;
  failure_code = some "ECONNREFUSED";
  abort_cause = none;
}

abbrev category_of : FailureInput → ProviderFailureCategory
category_of i = (classify_provider_failure i).verdict.category

category_tests :
    (category_of (answered complete 429) ≡ rate_limit)
    × (category_of (answered complete 401) ≡ authentication)
    × (category_of unplugged ≡ connection)
unfolding classify_provider_failure provider_http_error by_error by_status by_connection
    generic_error
category_tests = (refl, refl, refl)

missing_model :
    is_generation_fallback_eligible (classify_provider_failure (answered complete 404)) ≡ true
unfolding classify_provider_failure provider_http_error by_error by_status
    is_generation_fallback_eligible
missing_model = refl

missing_list :
    is_generation_fallback_eligible (classify_provider_failure (answered list_models 404)) ≡ false
unfolding classify_provider_failure provider_http_error by_error by_status
    is_generation_fallback_eligible
missing_list = refl

is_generation_fallback_eligible_iff_example :
    (is_generation_fallback_eligible (classify_provider_failure unplugged) ≡ true) ↔ (
      IsTransient
        (classify_provider_failure unplugged).upstream_status
        (classify_provider_failure unplugged).verdict.category
      ⊎ IsModelMissing unplugged (classify_provider_failure unplugged))
is_generation_fallback_eligible_iff_example = is_generation_fallback_eligible_iff unplugged

abbrev limited : Error
limited = llm_error (record {
  error_class = rate_limit_error;
  code = some (named "RATE_LIMITED");
  status_code = none;
})

get_public_llm_error_code-AllPublic_example : AllPublic (get_public_llm_error_code limited)
get_public_llm_error_code-AllPublic_example = get_public_llm_error_code-AllPublic limited
