-- ===== src/Chat/Completion/Ends.antt =====
-- `generateAssistantResponse` ends, and how its calls add up.
use silo_core.Base.{
  ◌≢◌, ◌⊎◌, inl, inr, is_some, ◌&&◌, ℕ, suc, ◌+◌, ◌≤◌, Bool, true, false, not, ◌≡◌, refl, sym, ap,
  ◌∙◌, Option, none, some, List, [], ◌∷◌, length, arith, subst,
}
use silo_core.Errors.{Error, Result, ok, err}
use silo_core.Exec.{Exec, pure, ◌>>=◌, ◌>>◌}
use silo_core.Exec.Ends.{Ends, returned, thrown, Ends-after, Ends-if, Ends-weaken}
use silo_core.Workspace.{WorkspaceAction, create_resource, read_workspace}
use silo_core.Workspace.Policy.{check_workspace_action}
use silo_core.Chat.{
  HistoryMessage, ChatMessageCreateInput, ChatGenerationInput, PreparedGeneration,
  ChatGenerationOperation, completion,
}
use silo_core.Chat.Calls.{Site, Call, added, World, ChatWorkspaceContext, quiet}
use silo_core.Chat.Generation.{
  prepare_generation, is_default_generation, ensure_authorized_workspace,
  ensure_session_in_workspace, session_or_not_found, or_no_ids, to_prepared, add_user_message,
}
use silo_core.Chat.Completion.{ChatGenerationResult, after_preparation, generate_assistant_response}
use silo_core.Chat.Completion.Counts.{
  number, is_ask, is_store, is_success, is_failure, is_promotion,
}
use silo_core.Chat.Completion.Accounts.{Accounted, completed, returns, loop-Completed}

-- The calls of both lists that ask, store, record or promote are as many.
pub record SameCounts (before after : List Call) : Type 0 where
  pub asks_same : number is_ask after ≡ number is_ask before
  pub stores_same : number is_store after ≡ number is_store before
  pub successes_same : number is_success after ≡ number is_success before
  pub failures_same : number is_failure after ≡ number is_failure before
  pub promotions_same : number is_promotion after ≡ number is_promotion before

same : (c : List Call) → SameCounts c c
same c = record {
  asks_same = refl;
  stores_same = refl;
  successes_same = refl;
  failures_same = refl;
  promotions_same = refl;
}

added_same : (c : List Call) (input : ChatMessageCreateInput) → SameCounts c (added input ∷ c)
added_same c input = record {
  asks_same = omega arith;
  stores_same = omega arith;
  successes_same = omega arith;
  failures_same = omega arith;
  promotions_same = omega arith;
}

SameCounts-trans : (c d e : List Call) → SameCounts c d → SameCounts d e → SameCounts c e
SameCounts-trans c d e h g = record {
  asks_same = g.asks_same ∙ h.asks_same;
  stores_same = g.stores_same ∙ h.stores_same;
  successes_same = g.successes_same ∙ h.successes_same;
  failures_same = g.failures_same ∙ h.failures_same;
  promotions_same = g.promotions_same ∙ h.promotions_same;
}

module _ (s : Site) where
  -- An action that asks no provider, and what it replies.
  record Prepares {A : Type 0} (Q : A → Type 0) (m : Exec (World s.State) A) : Type 0 where
    ends :
        (w : World s.State)
        → Ends (λ a v. Q a × SameCounts w.calls v.calls) (λ _ v. SameCounts w.calls v.calls) (m w)

  pure-Prepares :
      {A : Type 0} {Q : A → Type 0} (a : A) → Q a → Prepares Q (pure {S = World s.State} a)
  pure-Prepares a q = record { ends = λ w. returned a w refl (q, same w.calls) }

  bind-Prepares :
      {A B : Type 0} {R : A → Type 0} {Q : B → Type 0} (m : Exec (World s.State) A)
      (k : A → Exec (World s.State) B)
      → Prepares R m
      → ((a : A) → R a → Prepares Q (k a))
      → Prepares Q (m >>= k)
  bind-Prepares m k first rest = record {
    ends = λ w. Ends-after (m w) k (first.ends w) (λ a v h.
        Ends-weaken _ ((rest a h.0).ends v)
          (λ b u g. (g.0, SameCounts-trans w.calls v.calls u.calls h.1 g.1))
          (λ _ u g. SameCounts-trans w.calls v.calls u.calls h.1 g));
  }

  quiet-Ends :
      {A : Type 0} (c : List Call) (r : Result A) (st : s.State)
      → Ends {S = World s.State}
          (λ _ v. Unit {0} × SameCounts c v.calls)
          (λ _ v. SameCounts c v.calls)
          (r, record { state = st; calls = c })
  quiet-Ends c (ok a) st = returned a _ refl (tt, same c)
  quiet-Ends c (err e) st = thrown e _ refl (same c)

  quiet-Prepares : {A : Type 0} (op : Exec s.State A) → Prepares (λ _. Unit {0}) (quiet op)
  quiet-Prepares op = record { ends = λ w. quiet-Ends w.calls _ _ }

  session-Prepares :
      (o : Option (List HistoryMessage)) → Prepares (λ _. Unit {0}) (session_or_not_found s o)
  unfolding session_or_not_found
  session-Prepares none = record { ends = λ w. thrown _ w refl (same w.calls) }
  session-Prepares (some messages) = pure-Prepares messages tt

  authorized-Prepares :
      (context : ChatWorkspaceContext) (action : WorkspaceAction)
      → Prepares (λ _. Unit {0}) (ensure_authorized_workspace s context action)
  unfolding ensure_authorized_workspace
  authorized-Prepares context action = record {
    ends = λ w.
        Ends-if (not (check_workspace_action (some context.actor) context.workspace action).allowed)
          _ _ w (λ _. thrown _ w refl (same w.calls)) (λ _. returned _ w refl (tt, same w.calls));
  }

  ids-Prepares : (b : Bool) (id : ℕ) → Prepares (λ ids. b ≡ false → ids ≡ []) (or_no_ids s b id)
  unfolding or_no_ids
  ids-Prepares true id = record {
    ends = λ w.
        Ends-weaken _ ((quiet-Prepares (s.list_fallback_provider_ids id)).ends w)
          (λ _ _ h. ((λ e. cc), h.1)) (λ _ _ h. h);
  }
  ids-Prepares false id = pure-Prepares [] (λ _. refl)

  added-Ends :
      {A : Type 0} (c : List Call) (input : ChatMessageCreateInput) (r : Result A) (st : s.State)
      → Ends {S = World s.State}
          (λ _ v. Unit {0} × SameCounts c v.calls)
          (λ _ v. SameCounts c v.calls)
          (r, record { state = st; calls = added input ∷ c })
  added-Ends c input (ok a) st = returned a _ refl (tt, added_same c input)
  added-Ends c input (err e) st = thrown e _ refl (added_same c input)

  added-Prepares :
      (input : ChatGenerationInput) → Prepares (λ _. Unit {0}) (add_user_message s input)
  unfolding add_user_message
  added-Prepares input = record { ends = λ w. added-Ends w.calls _ _ _ }

  prepare-Prepares :
      (input : ChatGenerationInput) (context : ChatWorkspaceContext)
      (operation : ChatGenerationOperation)
      → Prepares
          (λ initial. is_default_generation input ≡ false → initial.fallback_provider_ids ≡ [])
          (prepare_generation s input context operation)
  unfolding prepare_generation ensure_session_in_workspace to_prepared
  prepare-Prepares input context operation =
      bind-Prepares _ _ (authorized-Prepares context read_workspace) (λ workspace_id _.
        bind-Prepares _ _
          (bind-Prepares _ _
            (quiet-Prepares (s.get_session_in_workspace input.session_id workspace_id))
            (λ found _. session-Prepares found))
          (λ messages _.
            bind-Prepares _ _ (quiet-Prepares (s.resolve_generation_provider _)) (λ resolved _.
              bind-Prepares _ _ (ids-Prepares (is_default_generation input) resolved.provider_id)
                (λ ids none_if_chosen. bind-Prepares _ _ (added-Prepares input) (λ message _.
                  record { ends = λ w. returned _ w refl (none_if_chosen, same w.calls) })))))

  authorized_prepare-Prepares :
      (input : ChatGenerationInput) (context : ChatWorkspaceContext)
      → Prepares
          (λ initial. is_default_generation input ≡ false → initial.fallback_provider_ids ≡ [])
          (ensure_authorized_workspace s context create_resource
            >> prepare_generation s input context completion)
  authorized_prepare-Prepares input context =
      bind-Prepares _ _ (authorized-Prepares context create_resource)
        (λ _ _. prepare-Prepares input context completion)

  -- How a generation ends, by the end of its preparation.
  pub data Generated (input : ChatGenerationInput) (before : List Call)
      (preparation : Result PreparedGeneration × World s.State)
      (o : Option (Result ChatGenerationResult × World s.State)) : Type 0 where
    refused :
        (e : Error) (w : World s.State)
        → preparation ≡ (err e, w)
        → o ≡ some (err e, w)
        → SameCounts before w.calls
        → Generated input before preparation o
    ran :
        (initial : PreparedGeneration) (v : World s.State) (r : Result ChatGenerationResult)
        (w : World s.State)
        → preparation ≡ (ok initial, v)
        → (is_default_generation input ≡ false → initial.fallback_provider_ids ≡ [])
        → o ≡ some (r, w)
        → Accounted s
            (length initial.fallback_provider_ids)
            (returns s r)
            (length initial.fallback_provider_ids)
            before
            w.calls
        → Generated input before preparation o

  from_counts :
      (n k m : ℕ) (c d e : List Call)
      → SameCounts c d
      → Accounted s n k (0 + m) d e
      → Accounted s n k m c e
  from_counts n k m c d e h acc =
      let a = h.asks_same in
      let b = h.stores_same in
      let x = h.successes_same in
      let f = h.failures_same in
      let g = h.promotions_same in
      let a' = acc.asks_bounded in
      let u' = acc.usage_each in
      let b' = acc.stores_added in
      let x' = acc.successes_added in
      let g' = acc.promotions_bounded in
      let r' = acc.promoted_if_returned in
      record {
        asks_bounded = omega arith;
        usage_each = omega arith;
        successes_added = omega arith;
        stores_added = omega arith;
        promotions_bounded = omega arith;
        promoted_if_returned = omega arith;
      }

  prepared-Generated :
      (input : ChatGenerationInput) (c : List Call) (x : Result PreparedGeneration × World s.State)
      → Ends
          (λ initial v.
            (is_default_generation input ≡ false → initial.fallback_provider_ids ≡ [])
            × SameCounts c v.calls)
          (λ _ v. SameCounts c v.calls)
          x
      → Generated input c x (after_preparation s input x)
  unfolding after_preparation
  prepared-Generated input c x (thrown e v eq h) =
      subst (λ y. Generated input c x (after_preparation s input y)) (sym eq)
        (refused e v eq refl h)
  prepared-Generated input c x (returned initial v eq h) =
      let ids = initial.fallback_provider_ids in
      subst (λ y. Generated input c x (after_preparation s input y)) (sym eq)
        (elim (loop-Completed s input initial (suc (length ids)) initial ids false v
          (omega arith)) [
            | completed r w eq' acc ↦
                ran initial v r w eq h.0 eq'
                  (from_counts (length ids) (returns s r) (length ids) c v.calls w.calls h.1 acc)
          ])

  -- `generateAssistantResponse` always ends. A call that is refused before it runs asks, stores,
  -- records and promotes nothing. One that runs asks at most one provider and each one of the
  -- fallback list, of which there are none for a chosen provider or model; it records one usage for
  -- every provider that it asked, and stores one message and records one success just if it returns.
  -- It promotes a provider at most once, only if it returns, and not if there is no fallback.
  pub generate_assistant_response-Generated :
      (input : ChatGenerationInput) (context : ChatWorkspaceContext) (w : World s.State)
      → Generated input w.calls
          ((ensure_authorized_workspace s context create_resource
              >> prepare_generation s input context completion)
            w)
          (generate_assistant_response s input context w)
  unfolding generate_assistant_response
  generate_assistant_response-Generated input context w =
      prepared-Generated input w.calls _ ((authorized_prepare-Prepares input context).ends w)

some_of_other : {A : Type 0} (o : Option A) → o ≢ none → is_some o ≡ true
some_of_other none h = absurd (h refl)
some_of_other (some a) h = refl

not_both : (a b : Bool) → b ≡ true → (not a && not b) ≡ false
not_both true b e = refl
not_both false b e = ap not e

chosen-NotDefault :
    (input : ChatGenerationInput)
    → (input.provider_id ≢ none) ⊎ (input.model ≢ none)
    → is_default_generation input ≡ false
chosen-NotDefault input (inl provider) =
    ap (λ b. not b && not (is_some input.model)) (some_of_other input.provider_id provider)
chosen-NotDefault input (inr model) = not_both _ _ (some_of_other input.model model)

-- A generation for which the user chose the provider or the model, or both, asks at most one provider and
-- promotes none.
pub chosen_stays :
    (s : Site) (input : ChatGenerationInput) (context : ChatWorkspaceContext) (w v : World s.State)
    (r : Result ChatGenerationResult)
    → (input.provider_id ≢ none) ⊎ (input.model ≢ none)
    → generate_assistant_response s input context w ≡ some (r, v)
    → (number is_ask v.calls ≤ 1 + number is_ask w.calls)
      × (number is_promotion v.calls ≤ number is_promotion w.calls)
chosen_stays s input context w v r chosen e =
    elim (generate_assistant_response-Generated s input context w) [
      | refused e' u _ eq h ↦
          let same_world : u ≡ v = cc in
          let a = h.asks_same in
          let g = h.promotions_same in
          subst
            (λ x.
              (number is_ask x.calls ≤ 1 + number is_ask w.calls)
              × (number is_promotion x.calls ≤ number is_promotion w.calls))
            same_world (omega arith, omega arith)
      | ran initial _ r' u _ none_left eq acc ↦
          let same_world : u ≡ v = cc in
          let a = acc.asks_bounded in
          let g = acc.promotions_bounded in
          let k : length initial.fallback_provider_ids ≡ 0 =
            ap length (none_left (chosen-NotDefault input chosen)) in
          subst
            (λ x.
              (number is_ask x.calls ≤ 1 + number is_ask w.calls)
              × (number is_promotion x.calls ≤ number is_promotion w.calls))
            same_world (omega arith, omega arith)
    ]
