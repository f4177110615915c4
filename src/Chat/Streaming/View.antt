-- ===== src/Chat/Streaming/View.antt =====
-- What a reader of a stream has seen, and what the stream has stored and recorded, from turn to turn.
use silo_core.Base.{
  ℕ, zero, suc, String, Bool, true, false, not, ◌&&◌, ◌||◌, ◌≡◌, refl, sym, ap, ◌∙◌, Option, none,
  some, List, [], ◌∷◌, arith, if◌then◌else◌, Bool-cases, inl, inr, subst, if_true, if_false,
}
use silo_core.Chat.{GeneratedAssistantMessageInput, LlmStreamChunk}
use silo_core.Chat.Calls.{Site, Call, stored}
use silo_core.Chat.Completion.Counts.{number, is_store, is_success}
use silo_core.Chat.Generation.{is_given}
use silo_core.Chat.Streaming.{
  ChatGenerationStreamEvent, delta, provider_switch, done, retrying, Stream, add_text, is_silent,
  emit, go_on, take_chunk, yield_chunk, read_chunks, read_turn, ask,
}

-- The text of the deltas among the events, the latest of which is first.
abbrev pub told_content : List ChatGenerationStreamEvent → String
told_content [] = ""
told_content (delta content reasoning ∷ es) = add_text (told_content es) content
told_content (_ ∷ es) = told_content es

abbrev pub told_reasoning : List ChatGenerationStreamEvent → String
told_reasoning [] = ""
told_reasoning (delta content reasoning ∷ es) = add_text (told_reasoning es) reasoning
told_reasoning (_ ∷ es) = told_reasoning es

-- No text was told before a notice that another provider is tried.
abbrev pub is_ordered : List ChatGenerationStreamEvent → Bool
is_ordered [] = true
is_ordered (provider_switch _ _ retrying ∷ es) =
    is_silent (told_content es) (told_reasoning es) && is_ordered es
is_ordered (_ ∷ es) = is_ordered es

abbrev pub has_done : List ChatGenerationStreamEvent → Bool
has_done [] = false
has_done (done ∷ es) = true
has_done (_ ∷ es) = has_done es

abbrev pub latest_store : List Call → Option GeneratedAssistantMessageInput
latest_store [] = none
latest_store (stored m ∷ cs) = some m
latest_store (_ ∷ cs) = latest_store cs

-- The parts of the state that the properties of a stream are about.
pub record View : Type 0 where
  pub content : String
  pub reasoning : String
  pub is_persisted : Bool
  pub ids : List ℕ
  pub events : List ChatGenerationStreamEvent
  pub calls : List Call

abbrev pub told : ChatGenerationStreamEvent → View → View
told e v = record v { events = e ∷ v.events }

-- A stream that has not ended, and the calls before it.
pub record Live (c : List Call) (ids : List ℕ) (v : View) : Type 0 where
  pub content_told : v.content ≡ told_content v.events
  pub reasoning_told : v.reasoning ≡ told_reasoning v.events
  pub not_persisted : v.is_persisted ≡ false
  pub ids_kept : v.ids ≡ ids
  pub ordered : is_ordered v.events ≡ true
  pub not_done : has_done v.events ≡ false
  pub none_stored : number is_store v.calls ≡ number is_store c
  pub none_succeeded : number is_success v.calls ≡ number is_success c

neither : (a b : Bool) → (not a && not b) ≡ true → (a ≡ false) × (b ≡ false)
neither true b e = cc
neither false true e = cc
neither false false e = (refl, refl)

module _ {State : Type 0} where
  abbrev pub view : Stream State → View
  view t = record {
    content = t.content;
    reasoning = t.reasoning;
    is_persisted = t.assistant_message_persisted;
    ids = t.fallback_ids;
    events = t.events;
    calls = t.world.calls;
  }

  go_on-view :
      (n : ℕ) (e : ChatGenerationStreamEvent) (t : Stream State)
      → view (go_on n e t).1 ≡ told e (view t)
  go_on-view zero e t = refl
  go_on-view (suc n) e t = refl

  pub emit-view :
      (e : ChatGenerationStreamEvent) (t : Stream State) → view (emit e t).1 ≡ told e (view t)
  unfolding emit
  emit-view e t = go_on-view t.demand e t

  delta-Live :
      (c : List Call) (ids : List ℕ) (k : LlmStreamChunk) (t : Stream State)
      → Live c ids (view t)
      → Live c ids (told (delta k.content k.reasoning) (view (take_chunk k t)))
  unfolding take_chunk
  delta-Live c ids k t h = record {
    content_told = ap (λ x. add_text x k.content) h.content_told;
    reasoning_told = ap (λ x. add_text x k.reasoning) h.reasoning_told;
    not_persisted = h.not_persisted;
    ids_kept = h.ids_kept;
    ordered = h.ordered;
    not_done = h.not_done;
    none_stored = h.none_stored;
    none_succeeded = h.none_succeeded;
  }

  silent-Live :
      (c : List Call) (ids : List ℕ) (k : LlmStreamChunk) (t : Stream State)
      → is_given k.content ≡ false
      → is_given k.reasoning ≡ false
      → Live c ids (view t)
      → Live c ids (view (take_chunk k t))
  unfolding take_chunk
  silent-Live c ids k t no_content no_reasoning h = record {
    content_told = if_false _ _ no_content ∙ h.content_told;
    reasoning_told = if_false _ _ no_reasoning ∙ h.reasoning_told;
    not_persisted = h.not_persisted;
    ids_kept = h.ids_kept;
    ordered = h.ordered;
    not_done = h.not_done;
    none_stored = h.none_stored;
    none_succeeded = h.none_succeeded;
  }

  yield_chunk-Live :
      (c : List Call) (ids : List ℕ) (k : LlmStreamChunk) (t : Stream State)
      → Live c ids (view t)
      → Live c ids (view (yield_chunk k t).1)
  unfolding yield_chunk
  yield_chunk-Live c ids k t h =
      elim (Bool-cases (not (is_given k.content) && not (is_given k.reasoning))) [
        | inl silent ↦
            let (no_content, no_reasoning) = neither _ _ silent in
            subst (λ (r : Bool × Stream State). Live c ids (view r.1)) (sym (if_true _ _ silent))
              (silent-Live c ids k t no_content no_reasoning h)
        | inr loud ↦
            subst (λ (r : Bool × Stream State). Live c ids (view r.1)) (sym (if_false _ _ loud))
              (subst (Live c ids) (sym (emit-view _ (take_chunk k t))) (delta-Live c ids k t h))
      ]

  choice-Live :
      (c : List Call) (ids : List ℕ) (b : Bool) (r r' : Option Bool × Stream State)
      → Live c ids (view r.1)
      → Live c ids (view r'.1)
      → Live c ids (view (if b then r else r').1)
  choice-Live c ids true r r' h g = h
  choice-Live c ids false r r' h g = g

  read_chunks-Live :
      (c : List Call) (ids : List ℕ) (ks : List LlmStreamChunk) (saw : Bool) (t : Stream State)
      → Live c ids (view t)
      → Live c ids (view (read_chunks ks saw t).1)
  unfolding read_chunks
  read_chunks-Live c ids [] saw t h = h
  read_chunks-Live c ids (k ∷ ks) saw t h =
      let next = yield_chunk-Live c ids k t h in
      choice-Live c ids (yield_chunk k t).0 _ _ (read_chunks-Live c ids ks (saw || k.done) _ next)
        next

module _ (s : Site) where
  pub read_turn-Live :
      (c : List Call) (ids : List ℕ) (t : Stream s.State)
      → Live c ids (view t)
      → Live c ids (view (read_turn s t).1)
  unfolding read_turn ask
  read_turn-Live c ids t h = read_chunks-Live c ids (ask s t).0.0 false (ask s t).1 (record {
    content_told = h.content_told;
    reasoning_told = h.reasoning_told;
    not_persisted = h.not_persisted;
    ids_kept = h.ids_kept;
    ordered = h.ordered;
    not_done = h.not_done;
    none_stored = let e = h.none_stored in omega arith;
    none_succeeded = let e = h.none_succeeded in omega arith;
  })
