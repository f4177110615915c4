-- ===== src/Chat/Streaming.antt =====
-- chat.service.ts: `streamAssistantResponse`, its local variables as a state, the events that it
-- yields and its steps. The reader takes a number of events and closes the generator at the next
-- one; one that reads on takes more events than there are.
pub mod Loop
pub mod View
pub mod Ends
use Prim.Native.String.{◌++◌ as str_append}
use silo_core.Base.{
  ℕ, zero, suc, ◌-◌, String, Bool, true, false, not, ◌&&◌, ◌||◌, Option, none, some, List, [], ◌∷◌,
  or_else, str_eq, if◌then◌else◌, is_some,
}
use silo_core.Errors.{Error, Result, ok, err, llm_error}
use silo_core.Llm.Failure.{streaming_error, named, Code}
use silo_core.Llm.SafeError.{PublicMessage, normalize_adapter_error}
use silo_core.Chat.{
  ChatMessage, ChatGenerationInput, TokenUsage, LlmStreamChunk, PreparedGeneration,
  GenerationUsageOutcome, GeneratedAssistantMessageInput,
}
use silo_core.Chat.Calls.{Site, asked, stored, World, noted_if_ok}
use silo_core.Chat.Generation.{
  is_text, is_given, is_incomplete_generation, is_title_eligible_reply, create_assistant_metadata,
  record_generation_usage_safely,
}

pub data SwitchStatus : Type 0 where
  retrying switch_succeeded : SwitchStatus

pub data ChatGenerationStreamEvent : Type 0 where
  user_message : ChatMessage → ChatGenerationStreamEvent
  delta : Option String → Option String → ChatGenerationStreamEvent
  assistant_message : ChatMessage → ChatGenerationStreamEvent
  provider_switch : String → String → SwitchStatus → ChatGenerationStreamEvent
  done : ChatGenerationStreamEvent

-- `events` are those yielded so far, the latest first, and `demand` is how many the reader takes
-- before the one at which it closes.
pub record Stream (State : Type 0) : Type 0 where
  pub prepared : PreparedGeneration
  pub fallback_ids : List ℕ
  pub switched : Bool
  pub content : String
  pub reasoning : String
  pub usage : Option TokenUsage
  pub finish_reason : Option String
  pub assistant_message_persisted : Bool
  pub events : List ChatGenerationStreamEvent
  pub demand : ℕ
  pub world : World State

-- The arguments of `persistAssistantMessage`.
pub record PersistOptions : Type 0 where
  pub finish_reason : Option String
  pub incomplete : Option Bool
  pub error_message : Option PublicMessage
  pub successful : Bool

-- How the stream of one provider ends: a failure says whether the response was empty.
pub data TurnEnd : Type 0 where
  turn_finished : TurnEnd
  turn_closed : TurnEnd
  turn_failed : Error → Bool → TurnEnd

-- `if (chunk.content) content += chunk.content`
abbrev pub add_text : String → Option String → String
add_text text more = if is_given more then str_append text (or_else more "") else text

abbrev given_or : Option String → Option String → Option String
given_or new old = if is_given new then new else old

abbrev some_or : Option TokenUsage → Option TokenUsage → Option TokenUsage
some_or none old = old
some_or (some u) old = some u

-- `reasoning || undefined`
abbrev text_or_none : String → Option String
text_or_none text = if is_text text then some text else none

abbrev pub is_silent : String → String → Bool
is_silent content reasoning = not (is_text content) && not (is_text reasoning)

abbrev pub stream_error : Error
stream_error = llm_error (record {
  error_class = streaming_error;
  code = some (named "UPSTREAM_STREAM_ERROR");
  status_code = none;
})

module _ {State : Type 0} where
  abbrev pub go_on : ℕ → ChatGenerationStreamEvent → Stream State → Bool × Stream State
  go_on zero e t = (false, record t { events = e ∷ t.events })
  go_on (suc n) e t = (true, record t { events = e ∷ t.events; demand = n })

  -- `yield`: whether the reader goes on, and the state after it.
  unfoldable pub emit : ChatGenerationStreamEvent → Stream State → Bool × Stream State
  emit e t = go_on t.demand e t

  -- What the loop over the chunks does with one before it yields.
  unfoldable pub take_chunk : LlmStreamChunk → Stream State → Stream State
  take_chunk c t = record t {
    content = add_text t.content c.content;
    reasoning = add_text t.reasoning c.reasoning;
    usage = some_or c.usage t.usage;
    finish_reason = given_or c.finish_reason t.finish_reason;
  }

  unfoldable pub yield_chunk : LlmStreamChunk → Stream State → Bool × Stream State
  unfolding take_chunk emit
  yield_chunk c t =
      if not (is_given c.content) && not (is_given c.reasoning)
      then (true, take_chunk c t)
      else emit (delta c.content c.reasoning) (take_chunk c t)

  -- The end is `none` if the reader closed, else whether a chunk said that it was the last.
  unfoldable pub read_chunks :
      List LlmStreamChunk → Bool → Stream State → Option Bool × Stream State
  unfolding yield_chunk
  read_chunks [] saw_completion t = (some saw_completion, t)
  read_chunks (c ∷ cs) saw_completion t =
      let (goes_on, u) = yield_chunk c t in
      let rest = read_chunks cs (saw_completion || c.done) u in if goes_on then rest else (none, u)

  unfoldable pub judge : Option Bool → Option Error → Stream State → TurnEnd
  judge none failure t = turn_closed
  judge (some saw_completion) (some e) t = turn_failed (normalize_adapter_error e) false
  judge (some saw_completion) none t =
      if is_silent t.content t.reasoning
      then turn_failed stream_error true
      else if not saw_completion
      then turn_failed stream_error false
      else turn_finished

module _ (s : Site) where
  open s use {State, create_generated_assistant_message, stream_complete, now}

  unfoldable pub ask : Stream State → (List LlmStreamChunk × Option Error) × Stream State
  ask t =
      let (reply, state) = stream_complete t.prepared.provider t.prepared.request t.world.state in
      (
        reply,
        record t {
          world = record {
            state = state;
            calls =
                asked t.prepared.provider_metadata.provider_id t.prepared.request ∷ t.world.calls;
          };
        },
      )

  -- The inner `try`: the stream of one provider is read.
  unfoldable pub read_turn : Stream State → TurnEnd × Stream State
  unfolding ask read_chunks judge
  read_turn t =
      let (reply, u) = ask t in
      let (end, v) = read_chunks reply.0 false u in (judge end reply.1 v, v)

  -- `Date.now() - prepared.startedAt`
  abbrev pub latency_of : Stream State → ℕ
  latency_of t = now t.world.state - t.prepared.started_at

  unfoldable pub record_turn :
      GenerationUsageOutcome → Option Code → ℕ → Stream State → Stream State
  unfolding record_generation_usage_safely
  record_turn outcome error_code latency_ms t = record t {
    world =
        record_generation_usage_safely s t.prepared true outcome latency_ms t.usage error_code
          t.world;
  }

  abbrev or_given : Option String → Option String → Option String
  or_given none old = old
  or_given (some f) old = some f

  abbrev or_incomplete : Option Bool → Option Bool → Option Bool
  or_incomplete none b = b
  or_incomplete (some a) b = some a

  unfoldable pub to_streamed_message :
      ChatGenerationInput → PersistOptions → Stream State → GeneratedAssistantMessageInput
  unfolding is_incomplete_generation is_title_eligible_reply
  to_streamed_message input options t =
      let reasoning = text_or_none t.reasoning in
      let finish_reason = or_given options.finish_reason t.finish_reason in
      record {
        session_id = input.session_id;
        workspace_id = t.prepared.workspace_id;
        triggering_user_message_id = t.prepared.user_message.id;
        content = t.content;
        metadata =
            create_assistant_metadata s t.prepared reasoning finish_reason
              (or_incomplete options.incomplete
                (is_incomplete_generation s t.content reasoning finish_reason))
              options.error_message t.usage (some (now t.world.state - t.prepared.started_at));
        title_eligible =
            options.successful && is_title_eligible_reply s t.content reasoning finish_reason;
      }

  abbrev pub persisted :
      Stream State → Result ChatMessage × World State → Result (Option ChatMessage) × Stream State
  persisted t (ok m, w) = (ok (some m), record t { world = w; assistant_message_persisted = true })
  persisted t (err e, w) = (err e, record t { world = w; assistant_message_persisted = true })

  unfoldable pub persist_assistant_message :
      ChatGenerationInput
      → PersistOptions
      → Stream State
      → Result (Option ChatMessage) × Stream State
  unfolding to_streamed_message
  persist_assistant_message input options t =
      let message = to_streamed_message input options t in
      if t.assistant_message_persisted || is_silent t.content t.reasoning
      then (ok none, t)
      else persisted t
          (noted_if_ok (stored message) (create_generated_assistant_message message) t.world)
