-- ===== src/Chat/Streaming/Ends/Rounds.antt =====
-- The ends of `streamAssistantResponse`, and its loop over the providers.
use silo_core.Base.{
  or_left, both_true, ℕ, zero, suc, ◌<◌, Bool, true, false, not, ◌&&◌, ◌||◌, ◌≡◌, refl, sym, ap,
  ◌∙◌, Option, none, some, List, length, arith, if◌then◌else◌, Bool-cases, inl, inr, subst, if_true,
  if_false,
}
use silo_core.Errors.{Error, ok}
use silo_core.Llm.SafeError.{get_llm_error_code}
use silo_core.Chat.{
  ChatMessage, ChatGenerationInput, PreparedGeneration, streaming, succeeded, failed, aborted,
}
use silo_core.Chat.Calls.{Site, Call, World}
use silo_core.Chat.Generation.{is_eligible, next_fallback, record_generation_usage_safely}
use silo_core.Chat.Completion.{promote_safely}
use silo_core.Chat.Completion.Counts.{absurd_bound}
use silo_core.Chat.Completion.Handovers.{Handed, nobody_left, handed, next_fallback-Handed}
use silo_core.Chat.Streaming.{
  assistant_message, done, retrying, switch_succeeded, Stream, TurnEnd, turn_finished, turn_closed,
  turn_failed, is_silent, emit, record_turn, latency_of, stream_error, read_turn, judge,
  persist_assistant_message,
}
use silo_core.Chat.Streaming.View.{told_content, Live, view, told, emit-view, read_turn-Live}
use silo_core.Chat.Streaming.Loop.{
  StreamEnd, finished, on_success, on_error, on_abort, finish, announce, tell, give_up, end_failed,
  abort, end_closed, promote_stream, complete_stream, end_finished, Rounds, retry, switch,
  after_turn, stream_loop, notice_of, to_switched,
}
use silo_core.Chat.Streaming.Ends.{
  Final, ran_to_end, was_closed, did_throw, Settled, Settled-told, Settled-called, recorded-Settled,
  stored_none, stored_one, not_stored, persist-Persisted,
}

not_both : (b : Bool) → b ≡ true → b ≡ false → ⊥
not_both b e f = cc

module _ (s : Site) (input : ChatGenerationInput) (initial : PreparedGeneration) where
  -- The end and what the reader has seen.
  Ended : List Call → StreamEnd × Stream s.State → Type 0
  Ended c r = Final c r.0 (view r.1)

  told-Settled :
      (c : List Call) (b : Bool) (n : ℕ) (m : ChatMessage) (t : Stream s.State)
      → Settled c b n (view t)
      → Settled c b n (view (emit (assistant_message m) t).1)
  told-Settled c b n m t h =
      subst (Settled c b n) (sym (emit-view (assistant_message m) t))
        (Settled-told c b n (view t) (assistant_message m) refl refl refl h)

  tell-Settled :
      (c : List Call) (b : Bool) (n : ℕ) (o : Option ChatMessage) (t : Stream s.State)
      → Settled c b n (view t)
      → Settled c b n (view (tell s input initial o t).1)
  unfolding tell
  tell-Settled c b n none t h = h
  tell-Settled c b n (some m) t h = told-Settled c b n m t h

  give_up-Ended :
      (c : List Call) (e : Error) (latency_ms : ℕ) (t : Stream s.State) (b : Bool)
      (o : Option ChatMessage)
      → Settled c b 0 (view t)
      → Ended c (give_up s input initial e latency_ms (ok o, t))
  unfolding give_up Ended
  give_up-Ended c e latency_ms t b o h =
      let told_one = tell-Settled c b 0 o t h in
      let u = (tell s input initial o t).1 in
      elim (Bool-cases (tell s input initial o t).0) [
        | inl goes_on ↦ subst (Ended c) (sym (if_true _ _ goes_on)) (
            did_throw e b refl
              (recorded-Settled s c b 0 failed (some (get_llm_error_code e)) _ u told_one))
        | inr stops ↦
            subst (Ended c) (sym (if_false _ _ stops)) (was_closed b 0 refl (omega arith) told_one)
      ]

  end_failed-Ended :
      (c : List Call) (ids : List ℕ) (e : Error) (t : Stream s.State)
      → Live c ids (view t)
      → Ended c (end_failed s input initial e t)
  unfolding end_failed give_up Ended
  end_failed-Ended c ids e t h = elim (persist-Persisted s c ids input (on_error e) t h) [
    | stored_none u eq _ done_so ↦
        subst (λ x. Ended c (give_up s input initial e (latency_of s t) x)) (sym eq)
          (give_up-Ended c e _ u false none done_so)
    | stored_one m u eq done_so ↦
        subst (λ x. Ended c (give_up s input initial e (latency_of s t) x)) (sym eq)
          (give_up-Ended c e _ u true (some m) done_so)
    | not_stored e' u eq _ done_so ↦
        subst (λ x. Ended c (give_up s input initial e (latency_of s t) x)) (sym eq)
          (did_throw e' false refl done_so)
  ]

  end_closed-Ended :
      (c : List Call) (ids : List ℕ) (t : Stream s.State)
      → Live c ids (view t)
      → Ended c (end_closed s input initial t)
  unfolding end_closed abort Ended
  end_closed-Ended c ids t h = elim (persist-Persisted s c ids input on_abort t h) [
    | stored_none u eq _ done_so ↦
        subst (λ x. Ended c (abort s input initial (latency_of s t) x)) (sym eq)
          (was_closed false 0 refl (omega arith)
            (recorded-Settled s c false 0 aborted none _ u done_so))
    | stored_one m u eq done_so ↦
        subst (λ x. Ended c (abort s input initial (latency_of s t) x)) (sym eq)
          (was_closed true 0 refl (omega arith)
            (recorded-Settled s c true 0 aborted none _ u done_so))
    | not_stored e' u eq _ done_so ↦
        subst (λ x. Ended c (abort s input initial (latency_of s t) x)) (sym eq)
          (did_throw e' false refl done_so)
  ]

  -- An error after the attempt to store: nothing is stored again.
  end_refused :
      (c : List Call) (e : Error) (t : Stream s.State)
      → t.assistant_message_persisted ≡ true
      → Settled c false 0 (view t)
      → Ended c (end_failed s input initial e t)
  unfolding end_failed persist_assistant_message
  end_refused c e t at_once h =
      subst (λ x. Ended c (give_up s input initial e (latency_of s t) x))
        (sym (if_true _ _ (or_left _ (is_silent t.content t.reasoning) at_once)))
        (give_up-Ended c e _ t false none h)

  promoted-Settled :
      (c : List Call) (switched : Bool) (t : Stream s.State)
      → Settled c true 1 (view t)
      → Settled c true 1
          (view (record t { world = promote_safely s switched initial t.prepared t.world }))
  unfolding promote_safely
  promoted-Settled c false t h = h
  promoted-Settled c true t h =
      Settled-called c true 1 0 (view t) _ refl (omega arith) (omega arith) h

  finish-Ended :
      (c : List Call) (goes_on : Bool) (t : Stream s.State)
      → Settled c true 1 (view t)
      → Ended c (finish s input initial (goes_on, t))
  unfolding finish Ended
  finish-Ended c false t h = was_closed true 1 refl (omega arith) h
  finish-Ended c true t h =
      subst (Final c finished) (sym (emit-view done t)) (ran_to_end t.events refl refl h)

  notice-Ended :
      (c : List Call) (b : Bool) (t : Stream s.State)
      → Settled c true 1 (view t)
      → Ended c (
          finish s input initial (
            if b
            then emit (notice_of s input initial initial t.prepared switch_succeeded) t
            else (true, t)))
  notice-Ended c false t h = finish-Ended c true t h
  notice-Ended c true t h =
      let e = notice_of s input initial initial t.prepared switch_succeeded in
      finish-Ended c (emit e t).0 (emit e t).1 (
        subst (Settled c true 1) (sym (emit-view e t))
          (Settled-told c true 1 (view t) e refl refl refl h))

  announce-Ended :
      (c : List Call) (goes_on : Bool) (t : Stream s.State)
      → Settled c true 1 (view t)
      → Ended c (announce s input initial (goes_on, t))
  unfolding announce Ended
  announce-Ended c false t h = was_closed true 1 refl (omega arith) h
  announce-Ended c true t h = notice-Ended c t.switched t h

  -- The success path, for a stream that told some text.
  end_finished-Ended :
      (c : List Call) (ids : List ℕ) (t : Stream s.State)
      → Live c ids (view t)
      → is_silent t.content t.reasoning ≡ false
      → Ended c (end_finished s input initial t)
  unfolding end_finished complete_stream promote_stream
  end_finished-Ended c ids t h loud = elim (persist-Persisted s c ids input on_success t h) [
    | stored_none u eq silent _ ↦ elim (not_both (is_silent t.content t.reasoning) silent loud) [ ]
    | stored_one m u eq done_so ↦
        let v = record_turn s succeeded none (latency_of s u) u in
        let w = promote_stream s input initial v in
        subst (λ x. Ended c (complete_stream s input initial x)) (sym eq)
          (announce-Ended c (tell s input initial (some m) w).0 (tell s input initial (some m) w).1
            (tell-Settled c true 1 (some m) w (
              promoted-Settled c v.switched v
                (recorded-Settled s c true 0 succeeded none _ u done_so))))
    | not_stored e u eq at_once done_so ↦
        subst (λ x. Ended c (complete_stream s input initial x)) (sym eq)
          (end_refused c e u at_once done_so)
  ]

  -- The loop's further rounds end, for fewer ids.
  Ending : List Call → ℕ → Rounds s input initial → Type 0
  Ending c n again =
      (left : List ℕ) (t : Stream s.State)
      → Live c left (view t)
      → length left < n
      → Ended c (again t)

  first_true : (a b : Bool) → (a && b) ≡ true → a ≡ true
  first_true true b e = refl
  first_true false b e = e

  moved-Live :
      (c : List Call) (ids : List ℕ) (t : Stream s.State) (w : World s.State)
      → w.calls ≡ t.world.calls
      → Live c ids (view t)
      → Live c ids (view (record t { world = w }))
  moved-Live c ids t w kept h = subst (λ x. Live c ids (record (view t) { calls = x })) (sym kept) h

  switched-Live :
      (c : List Call) (ids left : List ℕ) (p : PreparedGeneration) (e : Error) (t : Stream s.State)
      → is_silent t.content t.reasoning ≡ true
      → Live c ids (view t)
      → Live c left (
          told (notice_of s input initial t.prepared p retrying) (
            view (
              to_switched s input initial p left
                (record_turn s failed (some (get_llm_error_code e)) (latency_of s t) t))))
  unfolding record_turn record_generation_usage_safely
  switched-Live c ids left p e t silent h = record {
    content_told = h.content_told;
    reasoning_told = h.reasoning_told;
    not_persisted = h.not_persisted;
    ids_kept = refl;
    ordered =
        both_true _ _
          (sym (
              ap (λ x. is_silent x t.reasoning) h.content_told
              ∙ ap (is_silent (told_content t.events)) h.reasoning_told)
            ∙ silent)
          h.ordered;
    not_done = h.not_done;
    none_stored = let n = h.none_stored in omega arith;
    none_succeeded = let n = h.none_succeeded in omega arith;
  }

  retry-Ended :
      (c : List Call) (left : List ℕ) (n : ℕ) (again : Rounds s input initial) (b : Bool)
      (t : Stream s.State)
      → Ending c n again
      → length left < n
      → Live c left (view t)
      → Ended c (retry s input initial again (b, t))
  unfolding retry Ending
  retry-Ended c left n again false t ends less h = end_closed-Ended c left t h
  retry-Ended c left n again true t ends less h = ends left t h less

  switch-Ended :
      (c : List Call) (ids : List ℕ) (again : Rounds s input initial) (e : Error)
      (t : Stream s.State) (r : Option (PreparedGeneration × List ℕ) × World s.State)
      → Ending c (length ids) again
      → is_silent t.content t.reasoning ≡ true
      → Live c ids (view t)
      → Handed s ids t.world.calls r
      → Ended c (switch s input initial again e t r)
  unfolding switch
  switch-Ended c ids again e t r ends silent h (nobody_left w eq kept) =
      subst (λ x. Ended c (switch s input initial again e t x)) (sym eq)
        (end_failed-Ended c ids e (record t { world = w }) (moved-Live c ids t w kept h))
  switch-Ended c ids again e t r ends silent h (handed p left w eq kept less) =
      let moved : Stream s.State = record t { world = w } in
      let notice = notice_of s input initial t.prepared p retrying in
      let next =
        to_switched s input initial p left
          (record_turn s failed (some (get_llm_error_code e)) (latency_of s moved) moved) in
      subst (λ x. Ended c (switch s input initial again e t x)) (sym eq)
        (retry-Ended c left (length ids) again (emit notice next).0 (emit notice next).1 ends less (
          subst (Live c left) (sym (emit-view notice next))
            (switched-Live c ids left p e moved silent (moved-Live c ids t w kept h))))

  after_turn-Ended :
      (c : List Call) (ids : List ℕ) (again : Rounds s input initial) (r : TurnEnd × Stream s.State)
      → Ending c (length ids) again
      → Live c ids (view r.1)
      → (r.0 ≡ turn_finished → is_silent r.1.content r.1.reasoning ≡ false)
      → Ended c (after_turn s input initial again r)
  unfolding after_turn
  after_turn-Ended c ids again (turn_finished, t) ends h loud =
      end_finished-Ended c ids t h (loud refl)
  after_turn-Ended c ids again (turn_closed, t) ends h loud = end_closed-Ended c ids t h
  after_turn-Ended c ids again (turn_failed e empty_response, t) ends h loud =
      elim (Bool-cases (is_silent t.content t.reasoning && (empty_response || is_eligible e))) [
        | inl may ↦ subst (Ended c) (sym (if_true _ _ may)) (
            switch-Ended c ids again e t _ ends (first_true _ _ may) h (
              subst
                (λ x.
                  Handed s x t.world.calls
                    (next_fallback s initial input t.fallback_ids streaming t.world))
                h.ids_kept (next_fallback-Handed s input initial streaming t.fallback_ids t.world)))
        | inr may_not ↦ subst (Ended c) (sym (if_false _ _ may_not)) (end_failed-Ended c ids e t h)
      ]

  judged_loud :
      (b : Bool) (o : Bool)
      → (if b
          then turn_failed stream_error true
          else if o
          then turn_failed stream_error false
          else turn_finished)
        ≡ turn_finished
      → b ≡ false
  judged_loud true o e = cc
  judged_loud false o e = refl

  judge-loud :
      (end : Option Bool) (failure : Option Error) (t : Stream s.State)
      → judge end failure t ≡ turn_finished
      → is_silent t.content t.reasoning ≡ false
  unfolding judge
  judge-loud none failure t e = cc
  judge-loud (some saw) (some f) t e = cc
  judge-loud (some saw) none t e = judged_loud (is_silent t.content t.reasoning) (not saw) e

  pub stream_loop-Ended :
      (c : List Call) (fuel : ℕ) (ids : List ℕ) (t : Stream s.State)
      → Live c ids (view t)
      → length ids < fuel
      → Final c (stream_loop s input initial fuel t).0 (view (stream_loop s input initial fuel t).1)
  unfolding stream_loop read_turn Ended Ending
  stream_loop-Ended c zero ids t h less = elim (absurd_bound (length ids) less) [ ]
  stream_loop-Ended c (suc fuel) ids t h less =
      after_turn-Ended c ids (stream_loop s input initial fuel) (read_turn s t)
        (λ left u live shorter. stream_loop-Ended c fuel left u live (omega arith))
        (read_turn-Live s c ids t h) (λ e. judge-loud _ _ (read_turn s t).1 e)
