-- ===== src/Chat/Tests.antt =====
-- A chat with three providers, of which the first answers nothing: tests, and the theorems at
-- concrete inputs.
use Prim.Native.String.{String}
use silo_core.Base.{
  ℕ, zero, suc, ◌+◌, ◌≤◌, Bool, true, false, ◌≡◌, refl, Option, none, some, List, [], ◌∷◌, str_eq,
  if◌then◌else◌, inl,
}
use silo_core.Workspace.Policy.{check_workspace_action, check_workspace_access}
use silo_core.Errors.{Result, ok, err, external}
use silo_core.Exec.{◌>>◌}
use silo_core.Workspace.{standard, active, create_resource}
use silo_core.Llm.Failure.{openai_compatible}
use silo_core.Chat.{
  user, ChatMessage, ChatGenerationInput, ChatGenerationParams, LlmCompletionResponse,
  LlmStreamChunk, ResolvedProvider, completion, aborted,
}
use silo_core.Chat.Calls.{Site, Call, recorded, World, ChatWorkspaceContext}
use silo_core.Chat.Generation.{
  ensure_authorized_workspace, prepare_generation, complete_from_adapter, next_fallback,
  prepare_fallback, ensure_session_in_workspace, session_or_not_found, or_no_ids, to_prepared,
  add_user_message, record_generation_usage_safely, with_provider,
}
use silo_core.Chat.Completion.{
  generate_assistant_response, ChatGenerationResult, after_preparation, generate_loop,
  after_attempt, attempt, use_response, settle, fail, hand_over, promote_safely,
}
use silo_core.Chat.Completion.Counts.{
  number, is_ask, is_store, is_success, is_failure, is_promotion,
}
use silo_core.Chat.Completion.Ends.{Generated, generate_assistant_response-Generated, chosen_stays}
use silo_core.Chat.Streaming.{
  Stream, user_message, delta, assistant_message, provider_switch, done, retrying, switch_succeeded,
  ChatGenerationStreamEvent, persist_assistant_message, record_turn, read_turn, ask, judge,
  read_chunks, yield_chunk, take_chunk, emit,
}
use silo_core.Chat.Streaming.Loop.{
  StreamEnd, prepare_stream, stream_assistant_response, stream_prepared, stream_rounds, stream_loop,
  after_turn, switch, retry, end_finished, complete_stream, promote_stream, end_closed, abort,
  end_failed, give_up, tell, announce, finish,
}
use silo_core.Chat.Streaming.Ends.Streams.{Streamed, stream_assistant_response-Streamed}

abbrev no_params : ChatGenerationParams
no_params = record { temperature = none; top_p = none; max_tokens = none; stop_sequences = none }

-- the adapter of a provider: the first is silent, the second and third answer, the others break off
abbrev adapter_of : ℕ → String
adapter_of zero = "silent"
adapter_of (suc zero) = "open"
adapter_of (suc (suc zero)) = "open"
adapter_of (suc (suc (suc _))) = "broken"

abbrev id_or_first : Option ℕ → ℕ
id_or_first none = 0
id_or_first (some id) = id

abbrev provider : ℕ → ResolvedProvider
provider id = record {
  provider_id = id;
  provider_name = "provider";
  provider = record { id = adapter_of id; config_type = openai_compatible };
  model = "small";
  generation_defaults = no_params;
}

abbrev answer : String → LlmCompletionResponse
answer id = record {
  content = if str_eq id "silent" then "" else "Hello";
  reasoning = none;
  finish_reason = some "stop";
  usage = none;
  latency_ms = none;
}

abbrev piece : String → Bool → LlmStreamChunk
piece text last = record {
  content = some text;
  reasoning = none;
  done = last;
  finish_reason = none;
  usage = none;
}

abbrev pieces : String → List LlmStreamChunk
pieces id =
    if str_eq id "silent"
    then []
    else if str_eq id "broken"
    then piece "Hel" false ∷ []
    else piece "Hel" false ∷ piece "lo" true ∷ []

abbrev message : String → ChatMessage
message content = record { id = 1; content = content; author = user; session_id = 3 }

abbrev site : Site
site = record {
  State = ℕ;
  get_session_in_workspace = λ _ _ n. (ok (some []), n);
  create_message = λ m n. (ok (message m.content), n);
  create_generated_assistant_message = λ m n. (ok (message m.content), n);
  resolve_generation_provider = λ r n. (ok (provider (id_or_first r.provider_id)), n);
  list_fallback_provider_ids = λ _ n. (ok (1 ∷ 2 ∷ []), n);
  promote_default_provider = λ _ _ n. (ok true, n);
  record_generation = λ _ n. (ok tt, n);
  complete = λ p _ n. (ok (answer p.id), n);
  stream_complete = λ p _ n. ((pieces p.id, none), n);
  now = λ n. n;
  trim = λ text. text;
  to_lower_case = λ text. text;
}

abbrev context : ChatWorkspaceContext
context = record {
  workspace = record {
    id = 7;
    name = "Team";
    workspace_type = standard;
    status = active;
    owner_user_id = 4;
  };
  actor = record { user_id = 4; role = none };
}

abbrev question : Option ℕ → ChatGenerationInput
question provider_id = record {
  content = "Hi";
  provider_id = provider_id;
  model = none;
  params = no_params;
  session_id = 3;
}

abbrev start : World ℕ
start = record { state = 0; calls = [] }

-- what the tests compute with
service : Unit {0}
unfolding generate_assistant_response after_preparation generate_loop after_attempt attempt
    use_response settle fail hand_over promote_safely complete_from_adapter next_fallback
    prepare_fallback prepare_generation ensure_authorized_workspace ensure_session_in_workspace
    session_or_not_found or_no_ids to_prepared add_user_message record_generation_usage_safely
    check_workspace_action check_workspace_access with_provider stream_assistant_response
    stream_prepared stream_rounds stream_loop after_turn switch retry end_finished complete_stream
    promote_stream end_closed abort end_failed give_up tell announce finish
    persist_assistant_message record_turn read_turn ask judge read_chunks yield_chunk take_chunk
    emit
service = tt

abbrev calls_of : Option (Result ChatGenerationResult × World ℕ) → List Call
calls_of none = []
calls_of (some (_, w)) = w.calls

abbrev generated : ChatGenerationInput → List Call
unfolding service
generated input = calls_of (generate_assistant_response site input context start)

falls_back : number is_ask (generated (question none)) ≡ 2
unfolding service
falls_back = refl

falls_back_stores_once : number is_store (generated (question none)) ≡ 1
unfolding service
falls_back_stores_once = refl

chosen_is_not_left : number is_ask (generated (question (some 0))) ≡ 1
unfolding service
chosen_is_not_left = refl

abbrev events_of : StreamEnd × Option (Stream ℕ) → List ChatGenerationStreamEvent
events_of (_, none) = []
events_of (_, some t) = t.events

abbrev stream_calls_of : StreamEnd × Option (Stream ℕ) → List Call
stream_calls_of (_, none) = []
stream_calls_of (_, some t) = t.world.calls

abbrev streamed_for : ChatGenerationInput → ℕ → StreamEnd × Option (Stream ℕ)
unfolding service
streamed_for input demand = stream_assistant_response site input context demand start

stream_events : events_of (streamed_for (question none) 9) ≡ (
    done
    ∷ provider_switch "provider" "provider" switch_succeeded
    ∷ assistant_message (message "Hello")
    ∷ delta (some "lo") none
    ∷ delta (some "Hel") none
    ∷ provider_switch "provider" "provider" retrying
    ∷ user_message (message "Hi")
    ∷ [])
unfolding service
stream_events = refl

abbrev is_abort : Call → Bool
is_abort (recorded u) = elim u.outcome [ aborted ↦ true | _ ↦ false ]
is_abort _ = false

abbrev usages : ChatGenerationInput → ℕ → ℕ
unfolding service
usages input demand =
    let calls = stream_calls_of (streamed_for input demand) in
    number is_success calls + number is_failure calls + number is_abort calls

-- A reader that closes at the message of a failed stream leaves no usage, one that reads on or that
-- closes at the delta before it leaves one.
usage_of_failure : usages (question (some 5)) 9 ≡ 1
unfolding service
usage_of_failure = refl

usage_of_closed_delta : usages (question (some 5)) 1 ≡ 1
unfolding service
usage_of_closed_delta = refl

no_usage_at_closed_message : usages (question (some 5)) 2 ≡ 0
unfolding service
no_usage_at_closed_message = refl

abbrev result_after :
    Option (Result ChatGenerationResult × World ℕ) → Result ChatGenerationResult × World ℕ
result_after none = (err (external "none"), start)
result_after (some r) = r

abbrev chosen : Result ChatGenerationResult × World ℕ
unfolding service
chosen = result_after (generate_assistant_response site (question (some 0)) context start)

chosen_stays_example :
    (number is_ask chosen.1.calls ≤ 1 + number is_ask start.calls)
    × (number is_promotion chosen.1.calls ≤ number is_promotion start.calls)
unfolding service
chosen_stays_example =
    chosen_stays site (question (some 0)) context start chosen.1 chosen.0 (inl (λ e. cc)) refl

generate_assistant_response-Generated_example :
    Generated site
      (question none)
      []
      ((ensure_authorized_workspace site context create_resource
          >> prepare_generation site (question none) context completion)
        start)
      (generate_assistant_response site (question none) context start)
generate_assistant_response-Generated_example =
    generate_assistant_response-Generated site (question none) context start

stream_assistant_response-Streamed_example :
    Streamed site
      (prepare_stream site (question none) context start)
      (stream_assistant_response site (question none) context 9 start)
stream_assistant_response-Streamed_example =
    stream_assistant_response-Streamed site (question none) context 9 start
