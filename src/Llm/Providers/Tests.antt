-- ===== src/Llm/Providers/Tests.antt =====
-- Two providers: tests, and the theorems at concrete inputs.
mod Memory
use mathlib.Core.Option
use silo_core.Base.{
  ℕ, zero, suc, Bool, true, false, ◌≡◌, ◌≢◌, ap, sym, ◌∙◌, refl, Option, none, some, List, [], ◌∷◌,
}
use silo_core.Json.{object, end}
use silo_core.Exec.Ends.{Ends}
use silo_core.Llm.Providers.{
  LlmProviderConfig, LlmProviderConfigUpdateInput, db_ollama, admin, oldest_first,
}
use silo_core.Llm.Providers.Repository.{
  get_or_select_default, set_default, promote_default, update_provider, soft_delete_locked,
  replace_deleted, promote_locked, switch_default, update_config, update_locked, restore_default,
  select_automatic, select_next, record_switch, or_select,
}
use silo_core.Llm.Providers.Repository
use silo_core.Llm.Providers.Commands.{
  Command, promote_default as promotes, update_provider as updates, soft_delete, run, apply,
}
use silo_core.Llm.Providers.Defaults.{IsSound, SameRows, IsDefault, state_check}
use silo_core.Llm.Providers.Defaults.Selection.{
  some-injective, Chosen, get_or_select_default_chooses,
}
use silo_core.Llm.Providers.Defaults.Switching.{
  SetOutcome, PromoteOutcome, set_default_outcome, promote_default_outcome,
}
use silo_core.Llm.Providers.Defaults.Runs.{Served, update_provider_outcome, run-IsSound}
use silo_core.Llm.Providers.Tests.Memory.{memory, memory-IsPlatform, find_unique}

abbrev local : LlmProviderConfig
local = record {
  id = 0;
  name = "local";
  config_type = db_ollama;
  base_url = "http://localhost:11434";
  enabled = true;
  is_default = true;
  default_source = some admin;
  default_model = "llama3";
  timeout_ms = none;
  generation_defaults = object end;
  extra_headers = none;
  api_key = none;
  deleted_at = none;
  created_at = 0;
}

abbrev remote : LlmProviderConfig
remote = record local { id = 1; name = "remote"; is_default = false; default_source = none }

abbrev both : Option LlmProviderConfig × Option LlmProviderConfig
both = (some local, some remote)

abbrev disabling : LlmProviderConfigUpdateInput
disabling = record {
  name = none;
  config_type = none;
  base_url = none;
  enabled = some false;
  default_model = none;
  timeout_ms = none;
  generation_defaults = none;
  extra_headers = none;
  api_key = none;
}

-- what the tests compute with
repository : Unit {0}
unfolding apply Repository.soft_delete soft_delete_locked replace_deleted promote_default
    promote_locked switch_default update_config update_provider update_locked restore_default
    select_automatic select_next record_switch or_select
repository = tt

row-check : (k : ℕ) (c : LlmProviderConfig) → find_unique both k ≡ some c → state_check c ≡ true
unfolding state_check
row-check zero c e = ap state_check (some-injective c local (sym e))
row-check (suc zero) c e = ap state_check (some-injective c remote (sym e))
row-check (suc (suc k)) c e = cc

default-id : (k : ℕ) (c : LlmProviderConfig) → IsDefault memory both k c → k ≡ 0
default-id zero c h = refl
default-id (suc zero) c h =
    let marked = h.marked in
    let unmarked = ap LlmProviderConfig.is_default (some-injective c remote (sym h.found)) in cc
default-id (suc (suc k)) c h = let found = h.found in cc

both-IsSound : IsSound memory both
both-IsSound = record {
  rows_checked = record { checked = row-check };
  one_default = record { single = λ i j c d h g. default-id i c h ∙ sym (default-id j d g) };
}

-- The remote provider takes over, and gives the default back when it is disabled.
abbrev calls : List Command
calls = promotes 0 1 ∷ updates 1 disabling ∷ soft_delete 1 5 ∷ []

abbrev default_after : List Command → Option (Option ℕ)
unfolding repository
default_after cs =
    Option.map (λ c. some c.id)
      (memory.find_first (run memory cs both) (λ c. c.is_default) oldest_first)

taken_over : default_after (promotes 0 1 ∷ []) ≡ some (some 1)
unfolding repository
taken_over = refl

given_back : default_after calls ≡ some (some 0)
unfolding repository
given_back = refl

get_or_select_default_chooses_example :
    Ends
      (λ reply s. IsSound memory s × Chosen memory reply s)
      (λ _ _. ⊥)
      (get_or_select_default memory both)
get_or_select_default_chooses_example =
    get_or_select_default_chooses memory memory-IsPlatform both both-IsSound

set_default_outcome_example :
    Ends
      (λ reply s. IsSound memory s × SetOutcome memory both 1 reply s)
      (λ _ _. ⊥)
      (set_default memory 1 both)
set_default_outcome_example = set_default_outcome memory memory-IsPlatform both 1 both-IsSound

promote_default_outcome_example :
    Ends
      (λ reply s. IsSound memory s × PromoteOutcome memory both 0 1 reply s)
      (λ _ _. ⊥)
      (promote_default memory 0 1 both)
promote_default_outcome_example =
    promote_default_outcome memory memory-IsPlatform both 0 1 both-IsSound

update_provider_outcome_example :
    Ends
      (λ _ s. Served memory s × (memory.find_unique both 0 ≢ none))
      (λ _ s. SameRows memory both s × (memory.find_unique both 0 ≡ none))
      (update_provider memory 0 disabling both)
update_provider_outcome_example =
    update_provider_outcome memory memory-IsPlatform both 0 disabling both-IsSound

run-IsSound_example : IsSound memory (run memory calls both)
run-IsSound_example = run-IsSound memory memory-IsPlatform calls both both-IsSound
