-- ===== src/Chat/Streaming/Ends/Streams.antt =====
-- `streamAssistantResponse` as a whole.
use silo_core.Base.{
  ℕ, suc, ◌<◌, Bool, true, false, ◌≡◌, refl, sym, Option, none, some, List, length, arith, subst,
}
use silo_core.Errors.{Error, Result, ok, err}
use silo_core.Chat.{ChatGenerationInput, PreparedGeneration}
use silo_core.Chat.Calls.{Site, Call, World, ChatWorkspaceContext}
use silo_core.Chat.Streaming.{Stream, user_message, emit}
use silo_core.Chat.Streaming.View.{Live, view, told, emit-view}
use silo_core.Chat.Streaming.Loop.{
  StreamEnd, thrown, start_stream, prepare_stream, stream_rounds, stream_prepared,
  stream_assistant_response,
}
use silo_core.Chat.Streaming.Ends.{Final, was_closed, nothing_kept}
use silo_core.Chat.Streaming.Ends.Rounds.{stream_loop-Ended}

-- How a stream ends, by the end of its preparation.
pub data Streamed (s : Site) (preparation : Result PreparedGeneration × World s.State)
    (r : StreamEnd × Option (Stream s.State)) : Type 0 where
  refused :
      (e : Error) (w : World s.State)
      → preparation ≡ (err e, w)
      → r ≡ (thrown e, none)
      → Streamed s preparation r
  streamed :
      (initial : PreparedGeneration) (w : World s.State) (end : StreamEnd) (t : Stream s.State)
      → preparation ≡ (ok initial, w)
      → r ≡ (end, some t)
      → Final w.calls end (view t)
      → Streamed s preparation r

module _ (s : Site) where
  started-Live :
      (initial : PreparedGeneration) (demand : ℕ) (w : World s.State)
      → Live w.calls initial.fallback_provider_ids
          (told (user_message initial.user_message) (view (start_stream s demand initial w)))
  started-Live initial demand w = record {
    content_told = refl;
    reasoning_told = refl;
    not_persisted = refl;
    ids_kept = refl;
    ordered = refl;
    not_done = refl;
    none_stored = refl;
    none_succeeded = refl;
  }

  rounds-Final :
      (input : ChatGenerationInput) (initial : PreparedGeneration) (c : List Call) (ids : List ℕ)
      (goes_on : Bool) (t : Stream s.State)
      → Live c ids (view t)
      → Final c
          (stream_rounds s input initial (goes_on, t)).0
          (view (stream_rounds s input initial (goes_on, t)).1)
  unfolding stream_rounds
  rounds-Final input initial c ids false t h = was_closed false 0 refl (omega arith) (record {
    kept = nothing_kept h.none_stored;
    ordered = h.ordered;
    not_done = h.not_done;
    succeeded_so = let n = h.none_succeeded in omega arith;
  })
  rounds-Final input initial c ids true t h =
      stream_loop-Ended s input initial c (suc (length t.fallback_ids)) ids t h
        (subst (λ x. length x < suc (length t.fallback_ids)) h.ids_kept (omega arith))

  prepared-Streamed :
      (input : ChatGenerationInput) (demand : ℕ) (x : Result PreparedGeneration × World s.State)
      → Streamed s x (stream_prepared s input demand x)
  unfolding stream_prepared
  prepared-Streamed input demand (err e, w) = refused e w refl refl
  prepared-Streamed input demand (ok initial, w) =
      let first = emit (user_message initial.user_message) (start_stream s demand initial w) in
      streamed initial w _ _ refl refl (
        rounds-Final input initial w.calls initial.fallback_provider_ids first.0 first.1 (
          subst (Live w.calls initial.fallback_provider_ids)
            (sym (emit-view (user_message initial.user_message) (start_stream s demand initial w)))
            (started-Live initial demand w)))

  -- `streamAssistantResponse` always ends, whatever the providers answer and wherever the reader
  -- closes. Over the calls since it was prepared, it stores at most one message, whose content is
  -- the text of the deltas that the reader got, and no success is recorded if it throws. It yields
  -- the notice that another provider is tried only before any text. It ends by itself just with one
  -- `done`, its last event, and then one message is stored and one success recorded.
  pub stream_assistant_response-Streamed :
      (input : ChatGenerationInput) (context : ChatWorkspaceContext) (demand : ℕ)
      (w : World s.State)
      → Streamed s
          (prepare_stream s input context w)
          (stream_assistant_response s input context demand w)
  unfolding stream_assistant_response
  stream_assistant_response-Streamed input context demand w =
      prepared-Streamed input demand (prepare_stream s input context w)
