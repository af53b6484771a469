-- ===== src/Domain/Conversations/History.antt =====
-- domain/conversations/entities.py: a partly loaded conversation never answers with too little.
use nexabot.Prelude.{
  ℕ, ◌≡◌, refl, ap, ◌∙◌, sym, String, false, Option, none, some, List, [], ◌∷◌, ◌++◌, arith, length,
  last_n, last_n-append, length-append,
}
use mathlib.Core.List.{append_assoc}
use nexabot.Prelude.Int.{ℤ, pos, negsuc, to_ℕ}
use nexabot.Domain.Json.{Mapping}
use nexabot.Domain.Conversations.{
  Conversation, Message, MessageRole, append_message, recent_messages, widen, beyond_window,
}
use nexabot.Exec.{ok}

-- `none` says that the full history is held, `some w` that just the last `w` messages are.
abbrev pub Knows : Option ℕ → List Message → List Message → Type 0
Knows none older held = older ≡ []
Knows (some w) older held = w ≡ length held

-- The conversation holds the end of its history, and its window is the number of messages it holds,
-- or there is no window and it holds them all.
pub record IsView (c : Conversation) (history : List Message) : Type 0 where
  pub older : List Message
  pub split : history ≡ older ++ c.messages
  pub knows : Knows c.history_window older c.messages

recent_known :
    (limit : ℤ) (window : Option ℕ) (older held : List Message)
    → Knows window older held
    → beyond_window limit window ≡ false
    → last_n (to_ℕ limit) held ≡ last_n (to_ℕ limit) (older ++ held)
recent_known limit none older held h within = rw h refl
recent_known (pos n) (some w) older held h within = sym (last_n-append n older held (ground arith))
recent_known (negsuc n) (some w) older held h within =
    sym (last_n-append 0 older held (omega arith))

recent_messages-eq-ok :
    (limit : ℤ) (c : Conversation) {recent : List Message}
    → recent_messages limit c ≡ ok recent
    → (recent ≡ last_n (to_ℕ limit) c.messages) × (beyond_window limit c.history_window ≡ false)
unfolding recent_messages
recent_messages-eq-ok limit c h = ground arith

-- Whatever `recent_messages` returns of a view is what the full history would return: its last
-- `limit` messages. It never returns too little without raising.
pub recent_messages-IsView :
    (limit : ℤ) (c : Conversation) (history recent : List Message)
    → IsView c history
    → recent_messages limit c ≡ ok recent
    → recent ≡ last_n (to_ℕ limit) history
recent_messages-IsView limit c history recent v h =
    let (returned, within) = recent_messages-eq-ok limit c h in
    returned
    ∙ recent_known limit c.history_window v.older c.messages v.knows within
    ∙ ap (last_n (to_ℕ limit)) (sym v.split)

pub append_message-eq-ok :
    (new_id created updated : ℕ) (role : MessageRole) (content : String) (metadata : Mapping)
    (c : Conversation) {m : Message} {c' : Conversation}
    → append_message new_id created updated role content metadata c ≡ ok (m, c')
    → (c' ≡ record c {
      messages = c.messages ++ m ∷ [];
      history_window = widen c.history_window;
      updated_at = updated;
    })
      × (m ≡ record {
        id = new_id;
        conversation_id = c.id;
        role = role;
        content = content;
        metadata = metadata;
        created_at = created;
      })
unfolding append_message
append_message-eq-ok new_id created updated role content metadata c h = (ground arith, ground arith)

widen-Knows :
    (window : Option ℕ) (older held : List Message) (m : Message)
    → Knows window older held
    → Knows (widen window) older (held ++ m ∷ [])
widen-Knows none older held m h = h
widen-Knows (some w) older held m h = omega (arith, length-append held (m ∷ []))

-- An appended message extends the history, and the conversation stays a view of it: it holds the
-- message at the end, and its window, if it has one, is again the number of messages that it holds.
pub append_message-IsView :
    (new_id created updated : ℕ) (role : MessageRole) (content : String) (metadata : Mapping)
    (c : Conversation) (history : List Message) {m : Message} {c' : Conversation}
    → IsView c history
    → append_message new_id created updated role content metadata c ≡ ok (m, c')
    → IsView c' (history ++ m ∷ [])
append_message-IsView new_id created updated role content metadata c history {m} {c'} v h =
    rw (append_message-eq-ok new_id created updated role content metadata c h).0 (record {
      older = v.older;
      split = ap (λ l. l ++ m ∷ []) v.split ∙ append_assoc v.older c.messages (m ∷ []);
      knows = widen-Knows c.history_window v.older c.messages m v.knows;
    })
