-- ===== src/Chat/Sessions.antt =====
-- chat.repository.ts and the methods of chat.service.ts on sessions and messages, over the Prisma
-- client, a parameter with laws. Of a row of `chat_sessions` the times are left out, and so are the
-- order and the page of a list.
pub mod Isolation
pub mod Titles
mod Tests
use mathlib.Core.Option
use silo_core.Base.{
  ℕ, String, Bool, true, false, not, ◌&&◌, ◌||◌, ◌≡◌, ◌≢◌, Option, none, some, List, ◌==◌, ltb,
  or_else, if◌then◌else◌,
}
use silo_core.Errors.{Error, Result, ok, err, not_found, external}
use silo_core.Exec.{Exec, pure, raise, ◌>>=◌, ◌>>◌}
use silo_core.Workspace.{
  WorkspaceAction, create_resource, read_workspace, update_resource, delete_resource,
}
use silo_core.Workspace.Policy.{check_workspace_action}
use silo_core.Chat.{ChatMessage, ChatMessageCreateInput, GeneratedAssistantMessageInput}
use silo_core.Chat.Calls.{ChatWorkspaceContext}

pub data ChatSessionTitleSource : Type 0 where
  placeholder generated by_user : ChatSessionTitleSource

pub record ChatSession : Type 0 where
  pub id : ℕ
  pub title : String
  pub title_source : ChatSessionTitleSource
  pub user_id : ℕ
  pub workspace_id : ℕ
  pub latest_eligible_assistant_message_id : Option ℕ

-- The data of `chatSession.create`.
pub record SessionData : Type 0 where
  pub title : String
  pub title_source : ChatSessionTitleSource
  pub user_id : ℕ
  pub workspace_id : ℕ

pub record ChatSessionCreateInput : Type 0 where
  pub title : Option String
  pub user_id : ℕ

abbrev pub is_placeholder : ChatSessionTitleSource → Bool
is_placeholder placeholder = true
is_placeholder _ = false

abbrev pub new_session : ℕ → SessionData → ChatSession
new_session id d = record {
  id = id;
  title = d.title;
  title_source = d.title_source;
  user_id = d.user_id;
  workspace_id = d.workspace_id;
  latest_eligible_assistant_message_id = none;
}

abbrev pub changed_where :
    (ChatSession → Bool) → (ChatSession → ChatSession) → ChatSession → ChatSession
changed_where q f c = if q c then f c else c

abbrev pub kept_where : (ChatSession → Bool) → ChatSession → Option ChatSession
kept_where q c = if q c then none else some c

abbrev pub bind : Option ChatSession → (ChatSession → Option ChatSession) → Option ChatSession
bind none f = none
bind (some c) f = f c

-- A message is stored only for a session that is there. Touching a session changes its times alone.
pub record Platform : Type 1 where
  pub Db : Type 0
  pub find_unique : Db → ℕ → Option ChatSession
  pub find_first : Db → (ChatSession → Bool) → Option ChatSession
  pub find_many : Db → (ChatSession → Bool) → List ChatSession
  pub create : Db → SessionData → ChatSession × Db
  pub update_many : Db → (ChatSession → Bool) → (ChatSession → ChatSession) → ℕ × Db
  pub delete_many : Db → (ChatSession → Bool) → Db
  pub touch : Db → ℕ → Bool × Db
  pub create_message : Db → ChatMessageCreateInput → Option ChatMessage × Db
  pub find_messages : Db → ℕ → ℕ → List ChatMessage
  pub rollback : Db → Db → Db

abbrev pub KeepsPlace : (ChatSession → ChatSession) → Type 0
KeepsPlace f = (c : ChatSession) → ((f c).id ≡ c.id) × ((f c).workspace_id ≡ c.workspace_id)

-- What Prisma documents of these queries: first of the sessions, then of the messages of a session,
-- which go with it and belong to no other.
pub record IsPlatform (p : Platform) : Type 0 where
  pub find_first_some :
      (db : p.Db) (q : ChatSession → Bool) (c : ChatSession)
      → p.find_first db q ≡ some c
      → (q c ≡ true) × (p.find_unique db c.id ≡ some c)
  pub created_new : (db : p.Db) (d : SessionData) → p.find_unique db (p.create db d).0.id ≡ none
  pub find-create :
      (db : p.Db) (d : SessionData) (k : ℕ)
      → p.find_unique (p.create db d).1 k
        ≡ (if (p.create db d).0.id == k then some (p.create db d).0 else p.find_unique db k)
  pub find-update_many :
      (db : p.Db) (q : ChatSession → Bool) (f : ChatSession → ChatSession) (k : ℕ)
      → KeepsPlace f
      → p.find_unique (p.update_many db q f).1 k
        ≡ Option.map (changed_where q f) (p.find_unique db k)
  pub find-delete_many :
      (db : p.Db) (q : ChatSession → Bool) (k : ℕ)
      → p.find_unique (p.delete_many db q) k ≡ bind (p.find_unique db k) (kept_where q)
  pub find-touch : (db : p.Db) (id k : ℕ) → p.find_unique (p.touch db id).1 k ≡ p.find_unique db k
  pub find-create_message :
      (db : p.Db) (d : ChatMessageCreateInput) (k : ℕ)
      → p.find_unique (p.create_message db d).1 k ≡ p.find_unique db k
  pub find-rollback :
      (before after : p.Db) (k : ℕ)
      → p.find_unique (p.rollback before after) k ≡ p.find_unique before k
  pub messages-create :
      (db : p.Db) (d : SessionData) (k w : ℕ) (c : ChatSession)
      → p.find_unique db k ≡ some c
      → p.find_messages (p.create db d).1 k w ≡ p.find_messages db k w
  pub messages-update_many :
      (db : p.Db) (q : ChatSession → Bool) (f : ChatSession → ChatSession) (k w : ℕ)
      → KeepsPlace f
      → p.find_messages (p.update_many db q f).1 k w ≡ p.find_messages db k w
  pub messages-delete_many :
      (db : p.Db) (q : ChatSession → Bool) (k w : ℕ) (c : ChatSession)
      → p.find_unique db k ≡ some c
      → q c ≡ false
      → p.find_messages (p.delete_many db q) k w ≡ p.find_messages db k w
  pub messages-touch :
      (db : p.Db) (id k w : ℕ) → p.find_messages (p.touch db id).1 k w ≡ p.find_messages db k w
  pub messages-create_message :
      (db : p.Db) (d : ChatMessageCreateInput) (k w : ℕ)
      → d.session_id ≢ k
      → p.find_messages (p.create_message db d).1 k w ≡ p.find_messages db k w
  pub messages-rollback :
      (before after : p.Db) (k w : ℕ)
      → p.find_messages (p.rollback before after) k w ≡ p.find_messages before k w

-- `where: { id, workspaceId }`
abbrev pub is_at : ℕ → ℕ → ChatSession → Bool
is_at id workspace_id c = c.id == id && c.workspace_id == workspace_id

abbrev pub in_workspace : ℕ → ChatSession → Bool
in_workspace workspace_id c = c.workspace_id == workspace_id

abbrev pub to_titled : String → ChatSessionTitleSource → ChatSession → ChatSession
to_titled title source c = record c { title = title; title_source = source }

abbrev source_of : Option String → ChatSessionTitleSource
source_of none = placeholder
source_of (some _) = by_user

module _ (p : Platform) where
  open p use {
    Db, find_first, find_many, create, update_many, delete_many, touch, create_message,
    find_messages, rollback,
  }

  unfoldable pub create_session_row : ChatSessionCreateInput → ℕ → Exec Db ChatSession
  create_session_row d workspace_id db =
      let (c, db') = create db (record {
        title = or_else d.title "New Chat";
        title_source = source_of d.title;
        user_id = d.user_id;
        workspace_id = workspace_id;
      }) in
      (ok c, db')

  unfoldable pub get_session_in_workspace : ℕ → ℕ → Exec Db (Option ChatSession)
  get_session_in_workspace session_id workspace_id db =
      (ok (find_first db (is_at session_id workspace_id)), db)

  abbrev pub after_count : ℕ × Db → (Db → Option ChatSession) → Result (Option ChatSession) × Db
  after_count (count, db) found = (ok (if count == 0 then none else found db), db)

  unfoldable pub update_session_in_workspace : ℕ → ℕ → Option String → Exec Db (Option ChatSession)
  update_session_in_workspace session_id workspace_id none db =
      (ok (find_first db (is_at session_id workspace_id)), db)
  update_session_in_workspace session_id workspace_id (some title) db =
      after_count (update_many db (is_at session_id workspace_id) (to_titled title by_user))
        (λ db'. find_first db' (is_at session_id workspace_id))

  abbrev pub is_untitled_at : ℕ → ℕ → ChatSession → Bool
  is_untitled_at session_id workspace_id c =
      is_at session_id workspace_id c && is_placeholder c.title_source

  unfoldable pub apply_generated_title_in_workspace : ℕ → ℕ → String → Exec Db Bool
  apply_generated_title_in_workspace session_id workspace_id title db =
      let (count, db') =
        update_many db (is_untitled_at session_id workspace_id) (to_titled title generated) in
      (ok (count == 1), db')

  unfoldable pub delete_found_session : ℕ → ℕ → Option ChatSession → Exec Db (Option ChatSession)
  delete_found_session session_id workspace_id none db = (ok none, db)
  delete_found_session session_id workspace_id (some session) db =
      (ok (some session), delete_many db (is_at session_id workspace_id))

  unfoldable pub delete_session_in_workspace : ℕ → ℕ → Exec Db (Option ChatSession)
  unfolding delete_found_session
  delete_session_in_workspace session_id workspace_id db =
      delete_found_session session_id workspace_id (find_first db (is_at session_id workspace_id))
        db

  -- The transaction of `createMessage` from the stored message on.
  abbrev pub touched : Db → ChatMessage → Bool × Db → Result ChatMessage × Db
  touched before message (true, db) = (ok message, db)
  touched before message (false, db) = (err (external "P2025"), rollback before db)

  abbrev pub after_message : Db → ℕ → Option ChatMessage × Db → Result ChatMessage × Db
  after_message before session_id (none, db) = (err (external "P2003"), rollback before db)
  after_message before session_id (some message, db) = touched before message (touch db session_id)

  unfoldable pub create_message_row : ChatMessageCreateInput → Exec Db ChatMessage
  create_message_row d db = after_message db d.session_id (create_message db d)

  unfoldable pub list_messages_in_workspace : ℕ → ℕ → Exec Db (List ChatMessage)
  list_messages_in_workspace session_id workspace_id db =
      (ok (find_messages db session_id workspace_id), db)

  unfoldable pub ensure_authorized : ChatWorkspaceContext → WorkspaceAction → Exec Db ℕ
  ensure_authorized context action =
      let decision = check_workspace_action (some context.actor) context.workspace action in
      if not decision.allowed
      then raise (not_found "Workspace not found")
      else pure context.workspace.id

  unfoldable pub session_found : Option ChatSession → Exec Db ChatSession
  session_found none = raise (not_found "Session not found")
  session_found (some session) = pure session

  unfoldable pub create_session :
      ChatSessionCreateInput → ChatWorkspaceContext → Exec Db ChatSession
  unfolding ensure_authorized create_session_row
  create_session d context = do
    workspace_id ← ensure_authorized context create_resource
    create_session_row d workspace_id

  unfoldable pub get_session_by_id : ℕ → ChatWorkspaceContext → Exec Db ChatSession
  unfolding ensure_authorized get_session_in_workspace session_found
  get_session_by_id id context = do
    workspace_id ← ensure_authorized context read_workspace
    found ← get_session_in_workspace id workspace_id
    session_found found

  unfoldable pub get_workspace_sessions : ChatWorkspaceContext → Exec Db (List ChatSession)
  unfolding ensure_authorized
  get_workspace_sessions context = do
    workspace_id ← ensure_authorized context read_workspace
    (λ db. (ok (find_many db (in_workspace workspace_id)), db))

  unfoldable pub update_session : ℕ → Option String → ChatWorkspaceContext → Exec Db ChatSession
  unfolding ensure_authorized update_session_in_workspace session_found
  update_session id title context = do
    workspace_id ← ensure_authorized context update_resource
    session ← update_session_in_workspace id workspace_id title
    session_found session

  unfoldable pub delete_session : ℕ → ChatWorkspaceContext → Exec Db ChatSession
  unfolding ensure_authorized delete_session_in_workspace session_found
  delete_session id context = do
    workspace_id ← ensure_authorized context delete_resource
    session ← delete_session_in_workspace id workspace_id
    session_found session

  unfoldable pub ensure_session : ℕ → ℕ → Exec Db ChatSession
  unfolding get_session_in_workspace session_found
  ensure_session session_id workspace_id = do
    found ← get_session_in_workspace session_id workspace_id
    session_found found

  unfoldable pub send_message : ChatMessageCreateInput → ChatWorkspaceContext → Exec Db ChatMessage
  unfolding ensure_authorized ensure_session create_message_row
  send_message d context = do
    workspace_id ← ensure_authorized context create_resource
    ensure_session d.session_id workspace_id
    create_message_row d

  unfoldable pub get_messages_by_session_id : ℕ → ChatWorkspaceContext → Exec Db (List ChatMessage)
  unfolding ensure_authorized ensure_session list_messages_in_workspace
  get_messages_by_session_id session_id context = do
    workspace_id ← ensure_authorized context read_workspace
    ensure_session session_id workspace_id
    list_messages_in_workspace session_id workspace_id
