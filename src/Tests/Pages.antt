-- ===== src/Tests/Pages.antt =====
-- The newest two of three messages, two of which have the same instant.
use nexabot.Prelude.{◌≡◌, refl, [], ◌∷◌, is_empty, strip, is_space}
use nexabot.Domain.Conversations.{MessageRole, make_message}
use nexabot.Database.Tables.{MessageRow}
use nexabot.Database.World.{World}
use nexabot.Database.Conversations.{
  load_messages, messages_to_domain, message_to_domain, message_page, newest_first,
  insert_newest_first,
}
use nexabot.Database.Conversations.Loading.{message_of}
use nexabot.Database.Conversations.Paging.{IsPage, load_messages-IsPage}
use nexabot.Tests.Fixture.{world_with, answer_hi, hello_row}

abbrev reply_row : MessageRow
reply_row = record hello_row {
  id = 6;
  role = MessageRole.assistant;
  content = "hi";
  created_at = 4;
}

abbrev more_row : MessageRow
more_row = record hello_row { id = 9; content = "more"; created_at = 4 }

abbrev talk : World
talk = record (world_with answer_hi []) {
  db = record (world_with answer_hi []).db { messages = more_row ∷ hello_row ∷ reply_row ∷ [] };
}

load_messages-IsPage_example :
    IsPage 3 2 talk.db.messages (message_of reply_row ∷ message_of more_row ∷ []) × (talk ≡ talk)
unfolding load_messages messages_to_domain message_to_domain message_page newest_first
    insert_newest_first make_message is_empty strip is_space
load_messages-IsPage_example =
    load_messages-IsPage 3 2 talk talk (message_of reply_row ∷ message_of more_row ∷ []) refl
