-- ===== src/Chat/Streaming/Ends.antt =====
-- How a stream ends, whatever the providers answer and wherever the reader closes.
pub mod Rounds
pub mod Streams
use silo_core.Base.{
  ℕ, zero, suc, ◌+◌, ◌≤◌, ◌<◌, String, Bool, true, false, not, ◌&&◌, ◌||◌, ◌≡◌, refl, sym, ap, ◌∙◌,
  Option, none, some, List, [], ◌∷◌, length, arith, if◌then◌else◌, Bool-cases, inl, inr, subst,
  if_true, if_false,
}
use silo_core.Errors.{Error, Result, ok, err}
use silo_core.Chat.{
  ChatMessage, ChatGenerationInput, PreparedGeneration, GeneratedAssistantMessageInput,
  GenerationUsageOutcome, succeeded, failed, aborted,
}
use silo_core.Llm.Failure.{Code}
use silo_core.Chat.Calls.{Site, Call, stored, recorded, promoted, World, within_ok, noted_if_ok}
use silo_core.Chat.Generation.{record_generation_usage_safely}
use silo_core.Chat.Completion.{promote_safely}
use silo_core.Chat.Completion.Counts.{number, is_store, is_success}
use silo_core.Chat.Streaming.{
  ChatGenerationStreamEvent, assistant_message, done, Stream, PersistOptions, is_silent, emit,
  record_turn, persisted, persist_assistant_message, to_streamed_message,
}
use silo_core.Chat.Streaming.View.{
  told_content, is_ordered, has_done, latest_store, View, Live, view, told, emit-view,
}
use silo_core.Chat.Streaming.Loop.{StreamEnd, finished, closed, thrown}

-- The message that was stored, if one was, says what was told.
pub data Kept (c : List Call) (v : View) : Bool → Type 0 where
  nothing_kept : number is_store v.calls ≡ number is_store c → Kept c v false
  one_kept :
      (m : GeneratedAssistantMessageInput)
      → latest_store v.calls ≡ some m
      → m.content ≡ told_content v.events
      → number is_store v.calls ≡ 1 + number is_store c
      → Kept c v true

-- A stream that is about to end, with a message stored or not, and the successes recorded.
pub record Settled (c : List Call) (has_stored : Bool) (successes : ℕ) (v : View) : Type 0 where
  pub kept : Kept c v has_stored
  pub ordered : is_ordered v.events ≡ true
  pub not_done : has_done v.events ≡ false
  pub succeeded_so : number is_success v.calls ≡ successes + number is_success c

pub data Final (c : List Call) (end : StreamEnd) (v : View) : Type 0 where
  ran_to_end :
      (es : List ChatGenerationStreamEvent)
      → end ≡ finished
      → v.events ≡ done ∷ es
      → Settled c true 1 (record v { events = es })
      → Final c end v
  was_closed :
      (has_stored : Bool) (n : ℕ) → end ≡ closed → n ≤ 1 → Settled c has_stored n v → Final c end v
  did_throw :
      (e : Error) (has_stored : Bool) → end ≡ thrown e → Settled c has_stored 0 v → Final c end v

Kept-told :
    (c : List Call) (b : Bool) (v : View) (e : ChatGenerationStreamEvent)
    → told_content (e ∷ v.events) ≡ told_content v.events
    → Kept c v b
    → Kept c (told e v) b
Kept-told c b v e same (nothing_kept n) = nothing_kept n
Kept-told c b v e same (one_kept m latest says n) = one_kept m latest (says ∙ sym same) n

pub Settled-told :
    (c : List Call) (b : Bool) (n : ℕ) (v : View) (e : ChatGenerationStreamEvent)
    → told_content (e ∷ v.events) ≡ told_content v.events
    → is_ordered (e ∷ v.events) ≡ is_ordered v.events
    → has_done (e ∷ v.events) ≡ has_done v.events
    → Settled c b n v
    → Settled c b n (told e v)
Settled-told c b n v e same_text same_order same_done h = record {
  kept = Kept-told c b v e same_text h.kept;
  ordered = same_order ∙ h.ordered;
  not_done = same_done ∙ h.not_done;
  succeeded_so = h.succeeded_so;
}

Kept-called :
    (c : List Call) (b : Bool) (v : View) (x : Call)
    → latest_store (x ∷ v.calls) ≡ latest_store v.calls
    → number is_store (x ∷ v.calls) ≡ number is_store v.calls
    → Kept c v b
    → Kept c (record v { calls = x ∷ v.calls }) b
Kept-called c b v x same_latest same_number (nothing_kept n) = nothing_kept (same_number ∙ n)
Kept-called c b v x same_latest same_number (one_kept m latest says n) =
    one_kept m (same_latest ∙ latest) says (same_number ∙ n)

pub Settled-called :
    (c : List Call) (b : Bool) (n k : ℕ) (v : View) (x : Call)
    → latest_store (x ∷ v.calls) ≡ latest_store v.calls
    → number is_store (x ∷ v.calls) ≡ number is_store v.calls
    → number is_success (x ∷ v.calls) ≡ k + number is_success v.calls
    → Settled c b n v
    → Settled c b (k + n) (record v { calls = x ∷ v.calls })
Settled-called c b n k v x same_latest same_number more h = record {
  kept = Kept-called c b v x same_latest same_number h.kept;
  ordered = h.ordered;
  not_done = h.not_done;
  succeeded_so = let m = more in let so = h.succeeded_so in omega arith;
}

or_right : (a b : Bool) → b ≡ true → (a || b) ≡ true
or_right true b e = refl
or_right false b e = e

or_neither : (a b : Bool) → a ≡ false → b ≡ false → (a || b) ≡ false
or_neither true b e f = e
or_neither false b e f = f

abbrev pub successes_of : GenerationUsageOutcome → ℕ
successes_of succeeded = 1
successes_of _ = 0

module _ (s : Site) where
  pub recorded-Settled :
      (c : List Call) (b : Bool) (n : ℕ) (outcome : GenerationUsageOutcome) (code : Option Code)
      (latency_ms : ℕ) (t : Stream s.State)
      → Settled c b n (view t)
      → Settled c b (successes_of outcome + n) (view (record_turn s outcome code latency_ms t))
  unfolding record_turn record_generation_usage_safely
  recorded-Settled c b n succeeded code latency_ms t h =
      Settled-called c b n 1 (view t) _ refl (omega arith) (omega arith) h
  recorded-Settled c b n failed code latency_ms t h =
      Settled-called c b n 0 (view t) _ refl (omega arith) (omega arith) h
  recorded-Settled c b n aborted code latency_ms t h =
      Settled-called c b n 0 (view t) _ refl (omega arith) (omega arith) h

  -- What `persistAssistantMessage` leaves of a stream that has not ended.
  pub data Persisted (c : List Call) (t : Stream s.State)
      (r : Result (Option ChatMessage) × Stream s.State) : Type 0 where
    stored_none :
        (u : Stream s.State)
        → r ≡ (ok none, u)
        → is_silent t.content t.reasoning ≡ true
        → Settled c false 0 (view u)
        → Persisted c t r
    stored_one :
        (m : ChatMessage) (u : Stream s.State)
        → r ≡ (ok (some m), u)
        → Settled c true 0 (view u)
        → Persisted c t r
    not_stored :
        (e : Error) (u : Stream s.State)
        → r ≡ (err e, u)
        → u.assistant_message_persisted ≡ true
        → Settled c false 0 (view u)
        → Persisted c t r

  Live-Settled :
      (c : List Call) (ids : List ℕ) (v : View) (b : Bool)
      → Live c ids v
      → Settled c false 0 (record v { is_persisted = b })
  Live-Settled c ids v b h = record {
    kept = nothing_kept h.none_stored;
    ordered = h.ordered;
    not_done = h.not_done;
    succeeded_so = let so = h.none_succeeded in omega arith;
  }

  stored-Persisted :
      (c : List Call) (ids : List ℕ) (t : Stream s.State) (m : GeneratedAssistantMessageInput)
      (x : Result ChatMessage × s.State)
      → m.content ≡ t.content
      → Live c ids (view t)
      → Persisted c t (persisted s t (within_ok (stored m) t.world x))
  stored-Persisted c ids t m (ok message, st) says h = stored_one message _ refl (record {
    kept = one_kept m refl (says ∙ h.content_told) (let n = h.none_stored in omega arith);
    ordered = h.ordered;
    not_done = h.not_done;
    succeeded_so = let so = h.none_succeeded in omega arith;
  })
  stored-Persisted c ids t m (err e, st) says h =
      not_stored e _ refl refl (Live-Settled c ids (view t) true h)

  pub persist-Persisted :
      (c : List Call) (ids : List ℕ) (input : ChatGenerationInput) (options : PersistOptions)
      (t : Stream s.State)
      → Live c ids (view t)
      → Persisted c t (persist_assistant_message s input options t)
  unfolding persist_assistant_message to_streamed_message
  persist-Persisted c ids input options t h = elim (Bool-cases (is_silent t.content t.reasoning)) [
    | inl silent ↦
        subst (Persisted c t) (sym (if_true _ _ (or_right _ _ silent)))
          (stored_none t refl silent (Live-Settled c ids (view t) t.assistant_message_persisted h))
    | inr loud ↦
        subst (Persisted c t) (sym (if_false _ _ (or_neither _ _ h.not_persisted loud)))
          (stored-Persisted c ids t (to_streamed_message s input options t) _ refl h)
  ]
