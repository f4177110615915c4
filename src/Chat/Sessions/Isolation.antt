-- ===== src/Chat/Sessions/Isolation.antt =====
-- The sessions of a workspace and their messages stay as they are, whatever is called in another one.
use mathlib.Core.Option
use silo_core.Base.{
  ◌&&◌, and_false, ℕ, String, Bool, true, false, not, ◌≡◌, ◌≢◌, refl, sym, ap, ◌∙◌, subst, Option,
  none, some, List, [], ◌∷◌, All, ◌==◌, ==_iff, Bool-cases, inl, inr, if_false,
}
use silo_core.Exec.{Exec, ◌>>=◌}
use silo_core.Exec.Ends.{Ends, returned, thrown, Ends-after, Ends-weaken, Ends-if}
use silo_core.Workspace.{WorkspaceAction, create_resource, update_resource, delete_resource}
use silo_core.Workspace.Policy.{check_workspace_action}
use silo_core.Chat.{ChatMessage, ChatMessageCreateInput}
use silo_core.Chat.Calls.{ChatWorkspaceContext}
use silo_core.Chat.Sessions.{
  ChatSession, ChatSessionCreateInput, SessionData, Platform, IsPlatform, KeepsPlace, is_at, bind,
  changed_where, kept_where, to_titled, by_user, touched, after_message, ensure_authorized,
  session_found, create_session_row, get_session_in_workspace, update_session_in_workspace,
  delete_found_session, delete_session_in_workspace, create_message_row, ensure_session,
  create_session, update_session, delete_session, send_message,
}

pub data SessionCall : Type 0 where
  creates : ChatSessionCreateInput → SessionCall
  updates : ℕ → Option String → SessionCall
  deletes : ℕ → SessionCall
  sends : ChatMessageCreateInput → SessionCall

module _ (p : Platform) where
  -- the database after the call, whether it returns or throws
  unfoldable pub perform : SessionCall → ChatWorkspaceContext → p.Db → p.Db
  unfolding create_session update_session delete_session send_message
  perform (creates d) context db = (create_session p d context db).1
  perform (updates id title) context db = (update_session p id title context db).1
  perform (deletes id) context db = (delete_session p id context db).1
  perform (sends d) context db = (send_message p d context db).1

  abbrev pub perform_all : List (ChatWorkspaceContext × SessionCall) → p.Db → p.Db
  perform_all [] db = db
  perform_all ((context, call) ∷ rest) db = perform_all rest (perform call context db)

  -- The sessions of other workspaces are as they were, and so are their messages.
  record Keeps (w : ℕ) (db s : p.Db) : Type 0 where
    session :
        (k : ℕ) (c : ChatSession)
        → p.find_unique db k ≡ some c
        → c.workspace_id ≢ w
        → p.find_unique s k ≡ some c
    messages :
        (k v : ℕ) (c : ChatSession)
        → p.find_unique db k ≡ some c
        → c.workspace_id ≢ w
        → p.find_messages s k v ≡ p.find_messages db k v

  Keeps-same : (w : ℕ) (db : p.Db) → Keeps w db db
  Keeps-same w db = record { session = λ k c e _. e; messages = λ k v c e _. refl }

  Keeps-trans : (w : ℕ) (a b c : p.Db) → Keeps w a b → Keeps w b c → Keeps w a c
  Keeps-trans w a b c h g = record {
    session = λ k x e d. g.session k x (h.session k x e d) d;
    messages = λ k v x e d. g.messages k v x (h.session k x e d) d ∙ h.messages k v x e d;
  }

  -- An action in the workspace, and what holds of what it replies and leaves.
  record Isolated {A : Type 0} (w : ℕ) (Q : A → p.Db → Type 0) (m : Exec p.Db A) : Type 0 where
    ends : (db : p.Db) → Ends (λ a s. Q a s × Keeps w db s) (λ _ s. Keeps w db s) (m db)

  abbrev Any : {A : Type 0} → A → p.Db → Type 0
  Any _ _ = Unit {0}

  bind-Isolated :
      {A B : Type 0} {R : A → p.Db → Type 0} {Q : B → p.Db → Type 0} (w : ℕ) (m : Exec p.Db A)
      (k : A → Exec p.Db B)
      → Isolated w R m
      → ((a : A) (s : p.Db)
          → R a s
          → Ends (λ b t. Q b t × Keeps w s t) (λ _ t. Keeps w s t) (k a s))
      → Isolated w Q (m >>= k)
  bind-Isolated w m k first rest = record {
    ends = λ db. Ends-after (m db) k (first.ends db) (λ a s h.
        Ends-weaken _ (rest a s h.0) (λ b t g. (g.0, Keeps-trans w db s t h.1 g.1))
          (λ _ t g. Keeps-trans w db s t h.1 g));
  }

  authorized-Isolated :
      (context : ChatWorkspaceContext) (action : WorkspaceAction)
      → Isolated context.workspace.id
          (λ w _. w ≡ context.workspace.id)
          (ensure_authorized p context action)
  unfolding ensure_authorized
  authorized-Isolated context action = record {
    ends = λ db.
        Ends-if (not (check_workspace_action (some context.actor) context.workspace action).allowed)
          _ _ db (λ _. thrown _ db refl (Keeps-same _ db))
          (λ _. returned _ db refl (refl, Keeps-same _ db));
  }

  -- The session is there, in the workspace.
  record IsIn (id w : ℕ) (c : ChatSession) (s : p.Db) : Type 0 where
    at_place : is_at id w c ≡ true
    stored : p.find_unique s c.id ≡ some c

  found-Ends :
      (w : ℕ) (Q : ChatSession → p.Db → Type 0) (o : Option ChatSession) (s : p.Db)
      → ((c : ChatSession) → o ≡ some c → Q c s)
      → Ends (λ c t. Q c t × Keeps w s t) (λ _ t. Keeps w s t) (session_found p o s)
  unfolding session_found
  found-Ends w Q none s h = thrown _ s refl (Keeps-same w s)
  found-Ends w Q (some c) s h = returned c s refl (h c refl, Keeps-same w s)

elsewhere : (id w : ℕ) (c : ChatSession) → c.workspace_id ≢ w → is_at id w c ≡ false
elsewhere id w c differs = elim (Bool-cases (c.workspace_id == w)) [
  | inl same ↦ elim (differs ((==_iff _ _).0 same)) [ ]
  | inr other ↦ and_false (c.id == id) _ other
]

some-id : (c d : ChatSession) → some c ≡ some d → c ≡ d
some-id c d e = cc

and_left : (a b : Bool) → (a && b) ≡ true → a ≡ true
and_left true b e = refl
and_left false b e = cc

and_right : (a b : Bool) → (a && b) ≡ true → b ≡ true
and_right true b e = e
and_right false b e = cc

module _ (p : Platform) (laws : IsPlatform p) where
  created-Keeps : (db : p.Db) (d : SessionData) (w : ℕ) → Keeps p w db (p.create db d).1
  created-Keeps db d w = record {
    session = λ k c e _. elim (Bool-cases ((p.create db d).0.id == k)) [
      | inl same ↦
          let gone = ap (p.find_unique db) (sym ((==_iff _ _).0 same)) ∙ laws.created_new db d in cc
      | inr other ↦ laws.find-create db d k ∙ if_false _ _ other ∙ e
    ];
    messages = λ k v c e _. laws.messages-create db d k v c e;
  }

  updated-Keeps :
      (db : p.Db) (id w : ℕ) (f : ChatSession → ChatSession)
      → KeepsPlace f
      → Keeps p w db (p.update_many db (is_at id w) f).1
  updated-Keeps db id w f keeps = record {
    session = λ k c e differs.
        laws.find-update_many db (is_at id w) f k keeps
        ∙ ap (Option.map (changed_where (is_at id w) f)) e
        ∙ ap (λ x. some x) (if_false (f c) c (elsewhere id w c differs));
    messages = λ k v c e _. laws.messages-update_many db (is_at id w) f k v keeps;
  }

  deleted-Keeps : (db : p.Db) (id w : ℕ) → Keeps p w db (p.delete_many db (is_at id w))
  deleted-Keeps db id w = record {
    session = λ k c e differs.
        laws.find-delete_many db (is_at id w) k
        ∙ ap (λ o. bind o (kept_where (is_at id w))) e
        ∙ if_false none (some c) (elsewhere id w c differs);
    messages = λ k v c e differs.
        laws.messages-delete_many db (is_at id w) k v c e (elsewhere id w c differs);
  }

  rolled_back-Keeps : (w : ℕ) (db t : p.Db) → Keeps p w db (p.rollback db t)
  rolled_back-Keeps w db t = record {
    session = λ k c e _. laws.find-rollback db t k ∙ e;
    messages = λ k v c e _. laws.messages-rollback db t k v;
  }

  touch-Keeps : (w : ℕ) (db : p.Db) (id : ℕ) → Keeps p w db (p.touch db id).1
  touch-Keeps w db id = record {
    session = λ k c e _. laws.find-touch db id k ∙ e;
    messages = λ k v c e _. laws.messages-touch db id k v;
  }

  -- A session in the workspace is none of another workspace.
  not_that :
      (id w k : ℕ) (db : p.Db) (here c : ChatSession)
      → IsIn p id w here db
      → p.find_unique db k ≡ some c
      → c.workspace_id ≢ w
      → id ≢ k
  not_that id w k db here c place e differs same =
      let same_id = (==_iff here.id id).0 (and_left _ _ place.at_place) in
      let same_workspace = (==_iff here.workspace_id w).0 (and_right _ _ place.at_place) in
      let there : p.find_unique db k ≡ some here =
        ap (p.find_unique db) (sym (same_id ∙ same)) ∙ place.stored in
      differs (ap ChatSession.workspace_id (some-id c here (sym e ∙ there)) ∙ same_workspace)

  message-Keeps :
      (w : ℕ) (db : p.Db) (d : ChatMessageCreateInput) (here : ChatSession)
      → IsIn p d.session_id w here db
      → Keeps p w db (p.create_message db d).1
  message-Keeps w db d here place = record {
    session = λ k c e _. laws.find-create_message db d k ∙ e;
    messages = λ k v c e differs.
        laws.messages-create_message db d k v (not_that d.session_id w k db here c place e differs);
  }

  update-Isolated :
      (id w : ℕ) (title : Option String)
      → Isolated p w (Any p) (update_session_in_workspace p id w title)
  unfolding update_session_in_workspace
  update-Isolated id w none = record { ends = λ db. returned _ db refl (tt, Keeps-same p w db) }
  update-Isolated id w (some title) = record {
    ends = λ db.
        returned _ _ refl (tt, updated-Keeps db id w (to_titled title by_user) (λ _. (refl, refl)));
  }

  delete_found-Ends :
      (id w : ℕ) (o : Option ChatSession) (db : p.Db)
      → Ends
          (λ _ s. Unit {0} × Keeps p w db s)
          (λ _ s. Keeps p w db s)
          (delete_found_session p id w o db)
  unfolding delete_found_session
  delete_found-Ends id w none db = returned _ db refl (tt, Keeps-same p w db)
  delete_found-Ends id w (some c) db = returned _ _ refl (tt, deleted-Keeps db id w)

  delete-Isolated : (id w : ℕ) → Isolated p w (Any p) (delete_session_in_workspace p id w)
  unfolding delete_session_in_workspace
  delete-Isolated id w = record {
    ends = λ db. delete_found-Ends id w (p.find_first db (is_at id w)) db;
  }

  -- The transaction that stores a message, whether it returns or throws.
  touched-Ends :
      (w : ℕ) (db : p.Db) (m : ChatMessage) (r : Bool × p.Db)
      → Keeps p w db r.1
      → Ends (λ _ s. Unit {0} × Keeps p w db s) (λ _ s. Keeps p w db s) (touched p db m r)
  touched-Ends w db m (true, t) keeps = returned m t refl (tt, keeps)
  touched-Ends w db m (false, t) keeps = thrown _ _ refl (rolled_back-Keeps w db t)

  message-Ends :
      (w : ℕ) (db : p.Db) (session_id : ℕ) (r : Option ChatMessage × p.Db)
      → Keeps p w db r.1
      → Ends
          (λ _ s. Unit {0} × Keeps p w db s)
          (λ _ s. Keeps p w db s)
          (after_message p db session_id r)
  message-Ends w db session_id (none, t) keeps = thrown _ _ refl (rolled_back-Keeps w db t)
  message-Ends w db session_id (some m, t) keeps =
      touched-Ends w db m (p.touch t session_id)
        (Keeps-trans p w db t (p.touch t session_id).1 keeps (touch-Keeps w t session_id))

  create_message-Ends :
      (w : ℕ) (d : ChatMessageCreateInput) (here : ChatSession) (db : p.Db)
      → IsIn p d.session_id w here db
      → Ends (λ _ s. Unit {0} × Keeps p w db s) (λ _ s. Keeps p w db s) (create_message_row p d db)
  unfolding create_message_row
  create_message-Ends w d here db place =
      message-Ends w db d.session_id (p.create_message db d) (message-Keeps w db d here place)

  ensure-Ends :
      (id w : ℕ) (db : p.Db)
      → Ends
          (λ c s. IsIn p id w c s × Keeps p w db s)
          (λ _ s. Keeps p w db s)
          (ensure_session p id w db)
  unfolding ensure_session get_session_in_workspace
  ensure-Ends id w db = found-Ends p w (IsIn p id w) (p.find_first db (is_at id w)) db λ c e.
      let found = laws.find_first_some db (is_at id w) c e in
      record { at_place = found.0; stored = found.1 }

  create-Isolated :
      (d : ChatSessionCreateInput) (w v : ℕ) → Isolated p w (Any p) (create_session_row p d v)
  unfolding create_session_row
  create-Isolated d w v = record { ends = λ db. returned _ _ refl (tt, created-Keeps db _ w) }

  replied-Ends :
      (w : ℕ) (o : Option ChatSession) (s : p.Db)
      → Ends (λ _ t. Unit {0} × Keeps p w s t) (λ _ t. Keeps p w s t) (session_found p o s)
  replied-Ends w o s = found-Ends p w (λ _ _. Unit {0}) o s (λ _ _. tt)

  after_of :
      {A : Type 0} (w : ℕ) (db : p.Db) (m : Exec p.Db A)
      → Isolated p w (Any p) m
      → Keeps p w db (m db).1
  after_of w db m h = elim (h.ends db) [
    | returned a s eq g ↦ subst (Keeps p w db) (ap (λ x. x.1) (sym eq)) g.1
    | thrown e s eq g ↦ subst (Keeps p w db) (ap (λ x. x.1) (sym eq)) g
  ]

  -- An action on a session, in the workspace that the policy let through.
  act-Isolated :
      {A : Type 0} (context : ChatWorkspaceContext) (action : WorkspaceAction) (m : ℕ → Exec p.Db A)
      → Isolated p context.workspace.id (Any p) (m context.workspace.id)
      → Isolated p context.workspace.id (Any p) (ensure_authorized p context action >>= m)
  act-Isolated context action m h =
      bind-Isolated p context.workspace.id _ m (authorized-Isolated p context action)
        (λ v s e. (subst (λ x. Isolated p context.workspace.id (Any p) (m x)) (sym e) h).ends s)

  perform-Keeps :
      (call : SessionCall) (context : ChatWorkspaceContext) (db : p.Db)
      → Keeps p context.workspace.id db (perform p call context db)
  unfolding perform create_session update_session delete_session send_message
  perform-Keeps (creates d) context db =
      let w = context.workspace.id in
      after_of w db (create_session p d context)
        (act-Isolated context create_resource (create_session_row p d) (create-Isolated d w w))
  perform-Keeps (updates id title) context db =
      let w = context.workspace.id in
      after_of w db (update_session p id title context) (
        act-Isolated context update_resource _
          (bind-Isolated p w _ _ (update-Isolated id w title) (λ o s _. replied-Ends w o s)))
  perform-Keeps (deletes id) context db =
      let w = context.workspace.id in
      after_of w db (delete_session p id context) (
        act-Isolated context delete_resource _
          (bind-Isolated p w _ _ (delete-Isolated id w) (λ o s _. replied-Ends w o s)))
  perform-Keeps (sends d) context db =
      let w = context.workspace.id in
      after_of w db (send_message p d context) (
        act-Isolated context create_resource _ (
          bind-Isolated p w _ _ (record { ends = λ s. ensure-Ends d.session_id w s })
            (λ here s place. create_message-Ends w d here s place)))

  -- Any calls that create, rename or delete sessions or add messages, each in some workspace, leave
  -- every session of a workspace that none of them is made in as it is, with the messages that are
  -- listed for it.
  pub other_workspace_stays :
      (calls : List (ChatWorkspaceContext × SessionCall)) (db : p.Db) (k : ℕ) (c : ChatSession)
      → p.find_unique db k ≡ some c
      → All (λ x. c.workspace_id ≢ x.0.workspace.id) calls
      → (p.find_unique (perform_all p calls db) k ≡ some c)
        × (p.find_messages (perform_all p calls db) k c.workspace_id
            ≡ p.find_messages db k c.workspace_id)
  other_workspace_stays [] db k c e _ = (e, refl)
  other_workspace_stays ((context, call) ∷ rest) db k c e elsewhere_all =
      let keeps = perform-Keeps call context db in
      let later =
        other_workspace_stays rest (perform p call context db) k c
          (keeps.session k c e elsewhere_all.0) elsewhere_all.1 in
      (later.0, later.1 ∙ keeps.messages k c.workspace_id c e elsewhere_all.0)
