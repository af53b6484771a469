-- ===== src/Application/Conversations.antt =====
-- application/conversations/use_cases.py
pub mod Closing
use nexabot.Prelude.{ℕ, String, Option, none, List, []}
use nexabot.Prelude.Int.{ℤ, pos}
use nexabot.Domain.Errors.{not_found_error}
use nexabot.Domain.Json.{Mapping, end}
use nexabot.Domain.Conversations.{Conversation, Message, MessageRole, active}
use nexabot.Domain.Conversations as Entity
use nexabot.Ports.Repositories.{default_message_window}
use nexabot.Database.World.{World, utc_now, uuid4}
use nexabot.Database.Conversations as Repository
use nexabot.Exec.{Exec, pure, lift, or_raise, ◌>>=◌, ◌>>◌}

-- `Conversation(...)` with the defaults of the other fields.
unfoldable pub new_conversation : ℕ → ℕ → Option String → ℕ → ℕ → Conversation
new_conversation id owner_id title created updated = record {
  id = id;
  owner_id = owner_id;
  status = active;
  title = title;
  messages = [];
  metadata = end;
  created_at = created;
  updated_at = updated;
  history_window = none;
}

-- `CreateConversation.execute`
unfoldable pub create_conversation : ℕ → Option String → Exec World Conversation
create_conversation owner_id title = do
  id ← uuid4
  created ← utc_now
  updated ← utc_now
  let conversation = new_conversation id owner_id title created updated
  Repository.add conversation
  pure conversation

unfoldable pub get_or_raise : ℕ → Exec World Conversation
get_or_raise conversation_id = do
  found ← Repository.get conversation_id (pos default_message_window)
  or_raise found (not_found_error "Conversation not found." "conversation_not_found" [])

-- `AppendMessage.execute`
unfoldable pub append_message : ℕ → MessageRole → String → Mapping → Exec World Message
append_message conversation_id role content metadata = do
  conversation ← get_or_raise conversation_id
  id ← uuid4
  created ← utc_now
  updated ← utc_now
  appended ← lift (Entity.append_message id created updated role content metadata conversation)
  Repository.append_message appended.0
  pure appended.0

-- `LoadRecentContext.execute`
unfoldable pub load_recent_context : ℕ → ℤ → Exec World (List Message)
load_recent_context conversation_id limit = Repository.recent_messages conversation_id limit

-- `ArchiveConversation.execute`
unfoldable pub archive_conversation : ℕ → Exec World Conversation
archive_conversation conversation_id = do
  conversation ← get_or_raise conversation_id
  now ← utc_now
  archived ← lift (Entity.archive now conversation)
  Repository.save archived
  pure archived

-- `DeleteConversation.execute`
unfoldable pub delete_conversation : ℕ → Exec World Conversation
delete_conversation conversation_id = do
  conversation ← get_or_raise conversation_id
  now ← utc_now
  deleted ← lift (Entity.delete now conversation)
  Repository.save deleted
  pure deleted
