-- ===== src/Chat/Streaming/Loop.antt =====
-- chat.service.ts: `streamAssistantResponse` from turn to turn, and its three ends: success, an
-- error, and a reader that closes.
use silo_core.Base.{
  ℕ, zero, suc, Bool, true, false, ◌&&◌, ◌||◌, Option, none, some, List, [], length, if◌then◌else◌,
}
use silo_core.Errors.{Error, Result, ok, err}
use silo_core.Exec.{◌>>◌}
use silo_core.Workspace.{create_resource}
use silo_core.Llm.SafeError.{get_llm_error_code, get_public_llm_error_message}
use silo_core.Chat.{
  ChatMessage, ChatGenerationInput, PreparedGeneration, streaming, succeeded, failed, aborted,
}
use silo_core.Chat.Calls.{Site, World, ChatWorkspaceContext}
use silo_core.Chat.Generation.{
  is_eligible, ensure_authorized_workspace, prepare_generation, next_fallback,
}
use silo_core.Chat.Completion.{promote_safely}
use silo_core.Chat.Streaming.{
  ChatGenerationStreamEvent, Stream, TurnEnd, turn_finished, turn_closed, turn_failed,
  PersistOptions, SwitchStatus, retrying, switch_succeeded, user_message, assistant_message,
  provider_switch, done, emit, is_silent, read_turn, record_turn, latency_of,
  persist_assistant_message,
}

-- How the generator ends: it ran to its end, was closed, or threw. `exhausted` is the end of a loop
-- without fuel.
pub data StreamEnd : Type 0 where
  finished : StreamEnd
  closed : StreamEnd
  thrown : Error → StreamEnd
  exhausted : StreamEnd

abbrev pub on_success : PersistOptions
on_success = record {
  finish_reason = none;
  incomplete = none;
  error_message = none;
  successful = true;
}

abbrev pub on_error : Error → PersistOptions
on_error e = record {
  finish_reason = some "error";
  incomplete = some true;
  error_message = some (get_public_llm_error_message e);
  successful = false;
}

abbrev pub on_abort : PersistOptions
on_abort = record {
  finish_reason = some "aborted";
  incomplete = some true;
  error_message = none;
  successful = false;
}

module _ (s : Site) (input : ChatGenerationInput) (initial : PreparedGeneration) where
  open s use {State}

  unfoldable pub finish : Bool × Stream State → StreamEnd × Stream State
  unfolding emit
  finish (false, t) = (closed, t)
  finish (true, t) = (finished, (emit done t).1)

  abbrev pub notice_of :
      PreparedGeneration → PreparedGeneration → SwitchStatus → ChatGenerationStreamEvent
  notice_of old new status =
      provider_switch old.provider_metadata.provider_name new.provider_metadata.provider_name status

  unfoldable pub announce : Bool × Stream State → StreamEnd × Stream State
  unfolding finish
  announce (false, t) = (closed, t)
  announce (true, t) =
      finish
        (if t.switched then emit (notice_of initial t.prepared switch_succeeded) t else (true, t))

  unfoldable pub tell : Option ChatMessage → Stream State → Bool × Stream State
  unfolding emit
  tell none t = (true, t)
  tell (some m) t = emit (assistant_message m) t

  -- The `catch`, once the text so far is persisted.
  unfoldable pub give_up :
      Error → ℕ → Result (Option ChatMessage) × Stream State → StreamEnd × Stream State
  unfolding tell record_turn
  give_up e latency_ms (err broken, t) = (thrown broken, t)
  give_up e latency_ms (ok m, t) =
      let (goes_on, u) = tell m t in
      if goes_on
      then (thrown e, record_turn s failed (some (get_llm_error_code e)) latency_ms u)
      else (closed, u)

  unfoldable pub end_failed : Error → Stream State → StreamEnd × Stream State
  unfolding give_up persist_assistant_message
  end_failed e t = give_up e (latency_of s t) (persist_assistant_message s input (on_error e) t)

  unfoldable pub abort : ℕ → Result (Option ChatMessage) × Stream State → StreamEnd × Stream State
  unfolding record_turn
  abort latency_ms (err broken, t) = (thrown broken, t)
  abort latency_ms (ok m, t) = (closed, record_turn s aborted none latency_ms t)

  -- The `finally` of a stream that neither completed nor failed.
  unfoldable pub end_closed : Stream State → StreamEnd × Stream State
  unfolding abort persist_assistant_message
  end_closed t = abort (latency_of s t) (persist_assistant_message s input on_abort t)

  unfoldable pub promote_stream : Stream State → Stream State
  unfolding promote_safely
  promote_stream t = record t { world = promote_safely s t.switched initial t.prepared t.world }

  unfoldable pub complete_stream :
      Result (Option ChatMessage) × Stream State → StreamEnd × Stream State
  unfolding end_failed announce tell promote_stream record_turn
  complete_stream (err e, t) = end_failed e t
  complete_stream (ok m, t) =
      announce (tell m (promote_stream (record_turn s succeeded none (latency_of s t) t)))

  unfoldable pub end_finished : Stream State → StreamEnd × Stream State
  unfolding complete_stream persist_assistant_message
  end_finished t = complete_stream (persist_assistant_message s input on_success t)

  abbrev pub Rounds : Type 0
  Rounds = Stream State → StreamEnd × Stream State

  abbrev pub to_switched : PreparedGeneration → List ℕ → Stream State → Stream State
  to_switched fallback ids t = record t {
    prepared = fallback;
    fallback_ids = ids;
    switched = true;
    usage = none;
    finish_reason = none;
  }

  -- The next turn, unless the reader closes at the notice of the switch.
  unfoldable pub retry : Rounds → Bool × Stream State → StreamEnd × Stream State
  unfolding end_closed
  retry again (false, t) = end_closed t
  retry again (true, t) = again t

  unfoldable pub switch :
      Rounds
      → Error
      → Stream State
      → Option (PreparedGeneration × List ℕ) × World State
      → StreamEnd × Stream State
  unfolding end_failed retry emit record_turn
  switch again e t (none, w) = end_failed e (record t { world = w })
  switch again e t (some (fallback, ids), w) =
      let v = record t { world = w } in
      let u = record_turn s failed (some (get_llm_error_code e)) (latency_of s v) v in
      retry again (emit (notice_of t.prepared fallback retrying) (to_switched fallback ids u))

  unfoldable pub after_turn : Rounds → TurnEnd × Stream State → StreamEnd × Stream State
  unfolding end_finished end_closed end_failed switch next_fallback
  after_turn again (turn_finished, t) = end_finished t
  after_turn again (turn_closed, t) = end_closed t
  after_turn again (turn_failed e empty_response, t) =
      if is_silent t.content t.reasoning && (empty_response || is_eligible e)
      then switch again e t (next_fallback s initial input t.fallback_ids streaming t.world)
      else end_failed e t

  -- The loop `while (true)`, on fuel.
  unfoldable pub stream_loop : ℕ → Rounds
  unfolding after_turn read_turn
  stream_loop zero t = (exhausted, t)
  stream_loop (suc fuel) t = after_turn (stream_loop fuel) (read_turn s t)

  -- From the message of the user on, which stands outside the `try`.
  unfoldable pub stream_rounds : Bool × Stream State → StreamEnd × Stream State
  unfolding stream_loop
  stream_rounds (false, t) = (closed, t)
  stream_rounds (true, t) = stream_loop (suc (length t.fallback_ids)) t

module _ (s : Site) where
  open s use {State}

  abbrev pub start_stream : ℕ → PreparedGeneration → World State → Stream State
  start_stream demand initial w = record {
    prepared = initial;
    fallback_ids = initial.fallback_provider_ids;
    switched = false;
    content = "";
    reasoning = "";
    usage = none;
    finish_reason = none;
    assistant_message_persisted = false;
    events = [];
    demand = demand;
    world = w;
  }

  abbrev pub prepare_stream :
      ChatGenerationInput
      → ChatWorkspaceContext
      → World State
      → Result PreparedGeneration × World State
  unfolding ensure_authorized_workspace prepare_generation
  prepare_stream input context =
      ensure_authorized_workspace s context create_resource
      >> prepare_generation s input context streaming

  unfoldable pub stream_prepared :
      ChatGenerationInput
      → ℕ
      → Result PreparedGeneration × World State
      → StreamEnd × Option (Stream State)
  unfolding stream_rounds emit
  stream_prepared input demand (err e, w) = (thrown e, none)
  stream_prepared input demand (ok initial, w) =
      let (end, t) =
        stream_rounds s input initial
          (emit (user_message initial.user_message) (start_stream demand initial w)) in
      (end, some t)

  -- How the generator ends, with its state if it got to yield.
  unfoldable pub stream_assistant_response :
      ChatGenerationInput
      → ChatWorkspaceContext
      → ℕ
      → World State
      → StreamEnd × Option (Stream State)
  unfolding stream_prepared
  stream_assistant_response input context demand w =
      stream_prepared input demand (prepare_stream input context w)
