-- ===== src/Domain/Conversations.antt =====
-- domain/conversations/entities.py: messages and the conversation aggregate.
pub mod History
use nexabot.Prelude.{
  ℕ, ◌+◌, ◌-◌, String, Bool, true, false, not, Option, none, some, List, [], ◌∷◌, ◌++◌, str_eq,
  is_empty, strip, length, last_n, if◌then◌else◌,
}
use nexabot.Prelude.Int.{ℤ, pos, not_positive, exceeds, to_ℕ}
use nexabot.Domain.Errors.{Detail, conflict_error, validation_error, default_validation_code}
use nexabot.Domain.Json.{Mapping}
use nexabot.Exec.{Result, ok, err, fails, and_then}

pub data ConversationStatus : Type 0 where
  active archived deleted : ConversationStatus

unfoldable pub status_value : ConversationStatus → String
status_value active = "active"
status_value archived = "archived"
status_value deleted = "deleted"

pub data MessageRole : Type 0 where
  system user assistant tool : MessageRole

pub record Message : Type 0 where
  pub id : ℕ
  pub conversation_id : ℕ
  pub role : MessageRole
  pub content : String
  pub metadata : Mapping
  pub created_at : ℕ

-- `Message(...)`: `__post_init__` refuses blank content.
unfoldable pub make_message : Message → Result Message
make_message m =
    if is_empty (strip m.content)
    then fails (validation_error "Message content is required." default_validation_code [])
    else ok m

-- `history_window` is how many trailing messages were loaded, or `none` for the full history.
pub record Conversation : Type 0 where
  pub id : ℕ
  pub owner_id : ℕ
  pub status : ConversationStatus
  pub title : Option String
  pub messages : List Message
  pub metadata : Mapping
  pub created_at : ℕ
  pub updated_at : ℕ
  pub history_window : Option ℕ

abbrev pub is_active : ConversationStatus → Bool
is_active active = true
is_active _ = false

abbrev pub is_deleted : ConversationStatus → Bool
is_deleted deleted = true
is_deleted _ = false

unfoldable pub ensure_active : Conversation → Result Unit
unfolding status_value
ensure_active c =
    if is_active c.status
    then ok tt
    else fails (
        conflict_error "Conversation is not active." "conversation_not_active"
          (("status", Detail.text (status_value c.status)) ∷ []))

-- The trailing run of loaded messages grows with each append.
abbrev pub widen : Option ℕ → Option ℕ
widen none = none
widen (some w) = some (w + 1)

-- The id and the two readings of the clock, for `created_at` and `updated_at`, come in.
unfoldable pub append_message :
    ℕ → ℕ → ℕ → MessageRole → String → Mapping → Conversation → Result (Message × Conversation)
unfolding ensure_active make_message
append_message new_id created updated role content metadata c = and_then (ensure_active c) λ _.
    and_then
      (make_message (record {
        id = new_id;
        conversation_id = c.id;
        role = role;
        content = content;
        metadata = metadata;
        created_at = created;
      }))
      λ message. ok (
        message,
        record c {
          messages = c.messages ++ message ∷ [];
          history_window = widen c.history_window;
          updated_at = updated;
        },
      )

-- `self.history_window is not None and limit > self.history_window`
abbrev pub beyond_window : ℤ → Option ℕ → Bool
beyond_window limit none = false
beyond_window limit (some w) = exceeds limit w

abbrev pub loaded : Option ℕ → ℕ
loaded none = 0
loaded (some w) = w

unfoldable pub recent_messages : ℤ → Conversation → Result (List Message)
recent_messages limit c =
    if not_positive limit
    then fails
        (validation_error "Recent message limit must be positive." default_validation_code [])
    else if beyond_window limit c.history_window
    then fails (
        validation_error "Requested more history than was loaded for this conversation."
          "conversation_history_not_loaded"
          (("requested", Detail.int limit)
            ∷ ("loaded", Detail.int (pos (loaded c.history_window)))
            ∷ []))
    else ok (last_n (to_ℕ limit) c.messages)

unfoldable pub archive : ℕ → Conversation → Result Conversation
unfolding ensure_active
archive now c =
    and_then (ensure_active c) λ _. ok (record c { status = archived; updated_at = now })

unfoldable pub delete : ℕ → Conversation → Result Conversation
delete now c =
    if is_deleted c.status
    then fails (conflict_error "Conversation is already deleted." "conversation_already_deleted" [])
    else ok (record c { status = deleted; updated_at = now })
