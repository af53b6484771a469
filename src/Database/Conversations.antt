-- ===== src/Database/Conversations.antt =====
-- infrastructure/database/repositories/conversations.py
pub mod Ordering
pub mod Loading
pub mod Paging
use nexabot.Prelude.{
  ℕ, ◌+◌, String, Bool, true, false, ◌&&◌, ◌||◌, Option, none, some, List, [], ◌∷◌, ◌++◌, map,
  reverse, ltb, ◌==◌, any, find, select, take, length, update_where, if◌then◌else◌,
}
use nexabot.Prelude.Int.{ℤ, pos}
use nexabot.Domain.Errors.{Exception, integrity_error, not_found_error}
use nexabot.Domain.Conversations.{ConversationStatus, active, Message, make_message, Conversation}
use nexabot.Ports.Repositories.{validate_message_window, default_message_window}
use nexabot.Database.Tables.{
  ConversationRow, MessageRow, Db, is_conversation, is_user, message_accepted,
}
use nexabot.Database.World.{World}
use nexabot.Exec.{Exec, Result, ok, err, pure, throw, raise, lift, gets, and_then, ◌>>=◌, ◌>>◌}

-- `_message_to_domain`
unfoldable pub message_to_domain : MessageRow → Result Message
message_to_domain row = make_message (record {
  id = row.id;
  conversation_id = row.conversation_id;
  role = row.role;
  content = row.content;
  metadata = row.meta;
  created_at = row.created_at;
})

unfoldable pub messages_to_domain : List MessageRow → Result (List Message)
messages_to_domain [] = ok []
messages_to_domain (row ∷ rows) =
    let rest = messages_to_domain rows in
    and_then (message_to_domain row) λ m. and_then rest λ ms. ok (m ∷ ms)

-- `ORDER BY created_at DESC, id DESC`
abbrev pub newer : MessageRow → MessageRow → Bool
newer a b = ltb b.created_at a.created_at || (a.created_at == b.created_at && ltb b.id a.id)

unfoldable pub insert_newest_first : MessageRow → List MessageRow → List MessageRow
insert_newest_first x [] = x ∷ []
insert_newest_first x (y ∷ ys) = if newer x y then x ∷ y ∷ ys else y ∷ insert_newest_first x ys

unfoldable pub newest_first : List MessageRow → List MessageRow
newest_first [] = []
newest_first (x ∷ xs) = insert_newest_first x (newest_first xs)

abbrev pub in_conversation : ℕ → MessageRow → Bool
in_conversation id r = r.conversation_id == id

-- The page of `_load_messages`, before the rows become entities.
unfoldable pub message_page : ℕ → ℕ → List MessageRow → List MessageRow
message_page conversation_id limit rows =
    reverse (take limit (newest_first (select (in_conversation conversation_id) rows)))

-- `_load_messages`
unfoldable pub load_messages : ℕ → ℕ → Exec World (List Message)
load_messages conversation_id limit = do
  rows ← gets (λ w. w.db.messages)
  lift (messages_to_domain (message_page conversation_id limit rows))

-- `limit if len(messages) == limit else None`
abbrev pub window_of : ℕ → List Message → Option ℕ
window_of limit messages = if length messages == limit then some limit else none

abbrev pub with_messages : ConversationRow → ℕ → List Message → Conversation
with_messages row limit messages = record {
  id = row.id;
  owner_id = row.owner_id;
  status = row.status;
  title = row.title;
  messages = messages;
  metadata = row.meta;
  created_at = row.created_at;
  updated_at = row.updated_at;
  history_window = window_of limit messages;
}

-- `_to_domain`
unfoldable pub to_domain : ConversationRow → ℤ → Exec World Conversation
to_domain row message_limit = do
  limit ← lift (validate_message_window message_limit)
  messages ← load_messages row.id limit
  pure (with_messages row limit messages)

abbrev load_found : Option ConversationRow → ℤ → Exec World (Option Conversation)
load_found none message_limit = pure none
load_found (some row) message_limit = do
  conversation ← to_domain row message_limit
  pure (some conversation)

unfoldable pub get : ℕ → ℤ → Exec World (Option Conversation)
get conversation_id message_limit = do
  row ← gets (λ w. find (is_conversation conversation_id) w.db.conversations)
  load_found row message_limit

abbrev is_active_row : ConversationRow → Bool
is_active_row r = elim r.status [ active ↦ true | _ ↦ false ]

-- `ORDER BY created_at DESC LIMIT 1`; of rows with the same instant either may come first, here
-- the first one stored.
unfoldable pub latest : List ConversationRow → Option ConversationRow
latest [] = none
latest (r ∷ rows) = elim (latest rows) [
  | none ↦ some r
  | some s ↦ if ltb r.created_at s.created_at then some s else some r
]

unfoldable pub get_active_for_user : ℕ → ℤ → Exec World (Option Conversation)
get_active_for_user user_id message_limit = do
  row ← gets (λ w. latest (
      select (λ (r : ConversationRow). r.owner_id == user_id && is_active_row r)
        w.db.conversations))
  load_found row message_limit

-- The INSERT of a message, flushed.
unfoldable pub append_message : Message → Exec World Unit
append_message m w =
    let row : MessageRow = record {
      id = m.id;
      conversation_id = m.conversation_id;
      role = m.role;
      content = m.content;
      meta = m.metadata;
      created_at = m.created_at;
    } in
    if message_accepted row w.db
    then (ok tt, record w { db = record w.db { messages = w.db.messages ++ row ∷ [] } })
    else (err integrity_error, w)

unfoldable pub append_messages : List Message → Exec World Unit
append_messages [] = pure tt
append_messages (m ∷ ms) = let rest = append_messages ms in do append_message m; rest

unfoldable pub row_of : Conversation → ConversationRow
row_of c = record {
  id = c.id;
  owner_id = c.owner_id;
  status = c.status;
  title = c.title;
  meta = c.metadata;
  created_at = c.created_at;
  updated_at = c.updated_at;
}

abbrev insert_conversation : ConversationRow → Exec World Unit
insert_conversation row w =
    if any (is_conversation row.id) w.db.conversations
    then (err integrity_error, w)
    else if any (is_user row.owner_id) w.db.users
    then (ok tt, record w { db = record w.db { conversations = w.db.conversations ++ row ∷ [] } })
    else (err integrity_error, w)

unfoldable pub add : Conversation → Exec World Unit
add c = do insert_conversation (row_of c); append_messages c.messages

-- `save` writes the status, the title, the metadata and `updated_at`.
abbrev pub saved : Conversation → ConversationRow → ConversationRow
saved c r = record r {
  status = c.status;
  title = c.title;
  meta = c.metadata;
  updated_at = c.updated_at;
}

unfoldable pub save : Conversation → Exec World Unit
save c w = elim (find (is_conversation c.id) w.db.conversations) [
  | none ↦ raise (not_found_error "Conversation not found." "conversation_not_found" []) w
  | some row ↦ (
    ok tt,
    record w {
      db = record w.db {
        conversations = update_where (is_conversation c.id) (saved c) w.db.conversations;
      };
    },
  )
]

unfoldable pub recent_messages : ℕ → ℤ → Exec World (List Message)
recent_messages conversation_id limit = do
  window ← lift (validate_message_window limit)
  load_messages conversation_id window
