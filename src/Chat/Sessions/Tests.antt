-- ===== src/Chat/Sessions/Tests.antt =====
-- Calls on the sessions of two workspaces: tests, and the theorems at concrete inputs.
mod Memory
use Prim.Native.String.{String}
use mathlib.Core.Option
use silo_core.Base.{
  ℕ, suc, ◌≤◌, Bool, true, false, ◌≡◌, ◌∙◌, refl, sym, ap, Option, none, some, List, [], ◌∷◌, ◌==◌,
  if◌then◌else◌, Bool-cases, inl, inr, if_true, if_false, arith,
}
use silo_core.Errors.{ok, err, not_found}
use silo_core.Exec.{◌>>◌}
use silo_core.Workspace.{standard, active}
use silo_core.Workspace.Policy.{check_workspace_action, check_workspace_access}
use silo_core.Chat.{ChatMessage, ChatMessageCreateInput, user}
use silo_core.Chat.Calls.{ChatWorkspaceContext}
use silo_core.Chat.Sessions.{
  send_message, ensure_session, get_session_in_workspace, create_message_row, ChatSession, Platform,
  IsPlatform, by_user, placeholder, generated, to_titled, new_session, changed_where, kept_where,
  bind, ensure_authorized, update_session, update_session_in_workspace, delete_session,
  delete_session_in_workspace, delete_found_session, session_found,
}
use silo_core.Chat.Sessions.Tests.Memory.{Rows, find_row, memory, memory-IsPlatform}
use silo_core.Chat.Sessions.Titles.{apply_titles, first_title_stays}
use silo_core.Chat.Sessions.Isolation.{
  SessionCall, creates, updates, deletes, sends, perform_all, other_workspace_stays,
}

abbrev context_of : ℕ → ChatWorkspaceContext
context_of w = record {
  workspace = record {
    id = w;
    owner_user_id = 1;
    workspace_type = standard;
    status = active;
    name = "w";
  };
  actor = record { user_id = 1; role = none };
}

-- the second session of two, in another workspace than the first
abbrev other_session : ChatSession
other_session = record {
  id = 1;
  title = "plans";
  title_source = by_user;
  user_id = 1;
  workspace_id = 6;
  latest_eligible_assistant_message_id = none;
}

abbrev own_session : ChatSession
own_session = record other_session { id = 0; workspace_id = 5 }

abbrev greeting : ChatMessage
greeting = record { id = 0; content = "hi"; author = user; session_id = 1 }

abbrev two_sessions : Rows × List ChatMessage
two_sessions = (some other_session ∷ some own_session ∷ [], greeting ∷ [])

-- renames both sessions, of which one is in another workspace, sends a message to each, adds a
-- session, and deletes one
abbrev calls : List (ChatWorkspaceContext × SessionCall)
calls =
    (context_of 5, updates 0 (some "mine"))
    ∷ (context_of 5, updates 1 (some "not mine"))
    ∷ (context_of 5, sends (record { content = "hello"; author = user; session_id = 0 }))
    ∷ (context_of 5, sends (record { content = "hello"; author = user; session_id = 1 }))
    ∷ (context_of 5, creates (record { title = none; user_id = 1 }))
    ∷ (context_of 5, deletes 0)
    ∷ []

other_workspace_stays_example :
    (find_row (perform_all memory calls two_sessions).0 1 ≡ some other_session)
    × (memory.find_messages (perform_all memory calls two_sessions) 1 6
        ≡ memory.find_messages two_sessions 1 6)
other_workspace_stays_example =
    other_workspace_stays memory memory-IsPlatform calls two_sessions 1 other_session refl
      (omega arith, (omega arith, (omega arith, (omega arith, (omega arith, (omega arith, tt))))))

other_message_refused :
    (send_message memory
      (record { content = "hello"; author = user; session_id = 1 })
      (context_of 5)
      two_sessions).0
    ≡ err (not_found "Session not found")
unfolding send_message ensure_authorized check_workspace_action check_workspace_access
    ensure_session get_session_in_workspace session_found
other_message_refused = refl

own_message_stored :
    memory.find_messages
      (send_message memory
        (record { content = "hello"; author = user; session_id = 0 })
        (context_of 5)
        two_sessions).1
      0
      5
    ≡ (record { id = 1; content = "hello"; author = user; session_id = 0 } ∷ [])
unfolding send_message ensure_authorized check_workspace_action check_workspace_access
    ensure_session get_session_in_workspace session_found create_message_row
own_message_stored = refl

renamed :
    (update_session memory 0 (some "mine") (context_of 5) two_sessions).0
    ≡ ok (record own_session { title = "mine" })
unfolding update_session ensure_authorized check_workspace_action check_workspace_access
    update_session_in_workspace session_found
renamed = refl

not_renamed :
    (update_session memory 1 (some "not mine") (context_of 5) two_sessions).0
    ≡ err (not_found "Session not found")
unfolding update_session ensure_authorized check_workspace_action check_workspace_access
    update_session_in_workspace session_found
not_renamed = refl

nothing_deleted_twice :
    ((delete_session memory 0 (context_of 5) >> delete_session memory 0 (context_of 5))
      two_sessions).0
    ≡ err (not_found "Session not found")
unfolding delete_session ensure_authorized check_workspace_action check_workspace_access
    delete_session_in_workspace delete_found_session session_found
nothing_deleted_twice = refl

abbrev untitled_session : ChatSession
untitled_session = record own_session { title = "New Chat"; title_source = placeholder }

-- the session's own title, a later one, and one for another session
first_title_stays_example :
    find_row
      (apply_titles memory
        ((0, (5, "first")) ∷ (0, (5, "second")) ∷ (1, (6, "other")) ∷ [])
        ((some other_session ∷ some untitled_session ∷ []), [])).0
      0
    ≡ some (to_titled "first" generated untitled_session)
first_title_stays_example =
    first_title_stays memory memory-IsPlatform ((0, (5, "second")) ∷ (1, (6, "other")) ∷ [])
      ((some other_session ∷ some untitled_session ∷ []), []) untitled_session "first" refl refl
