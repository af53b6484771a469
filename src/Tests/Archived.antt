-- ===== src/Tests/Archived.antt =====
-- A conversation that is archived, and a message that comes too late.
use nexabot.Prelude.{◌≢◌, refl, inl, [], is_empty, strip, is_space}
use nexabot.Domain.Json.{end}
use nexabot.Domain.Conversations.{
  Conversation, ConversationStatus, Message, MessageRole, archive, ensure_active, make_message,
}
use nexabot.Ports.Repositories.{validate_message_window}
use nexabot.Database.World.{World, utc_now}
use nexabot.Database.Conversations as Repository
use nexabot.Application.Conversations.{get_or_raise, append_message, archive_conversation}
use nexabot.Application.Conversations.Closing.{closed_refuses_message}
use nexabot.Tests.Fixture.{world_with, answer_hi, loaded_conversation}
use nexabot.Exec.{ok}

abbrev open_world : World
open_world = world_with answer_hi []

abbrev archived_world : World
archived_world = (archive_conversation 3 open_world).1

abbrev archived : Conversation
archived = record loaded_conversation { status = ConversationStatus.archived }

abbrev late : Message
late = record {
  id = 100;
  conversation_id = 3;
  role = MessageRole.user;
  content = "again";
  metadata = end;
  created_at = 1;
}

closed_refuses_message_example :
    append_message 3 MessageRole.user "again" end archived_world ≢ (ok late, archived_world)
unfolding archive_conversation get_or_raise Repository.get Repository.to_domain
    validate_message_window archive Repository.save utc_now ensure_active Repository.load_messages
    Repository.messages_to_domain Repository.message_page Repository.newest_first
    Repository.insert_newest_first Repository.message_to_domain make_message is_empty strip is_space
closed_refuses_message_example =
    closed_refuses_message 3 MessageRole.user "again" end open_world archived_world archived_world
      archived late (inl refl)
