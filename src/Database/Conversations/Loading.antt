-- ===== src/Database/Conversations/Loading.antt =====
-- infrastructure/database/repositories/conversations.py: a loaded conversation is a view of the
-- stored history.
use nexabot.Prelude.{
  ℕ, zero, suc, ◌≡◌, ◌≢◌, refl, ap, subst, ◌∙◌, sym, false, Option, none, some, List, [], ◌∷◌, ◌++◌,
  map, reverse, arith, length, take, drop, find, select, ◌==◌, Bool-cases, inl, inr, length-map,
  length-reverse, find-passes,
}
use mathlib.Core.List.{reverse-append, map-append}
use nexabot.Prelude.Int.{ℤ}
use nexabot.Domain.Conversations.{Conversation, Message, make_message}
use nexabot.Domain.Conversations.History.{Knows, IsView}
use nexabot.Ports.Repositories.{validate_message_window}
use nexabot.Database.Tables.{ConversationRow, MessageRow, is_conversation}
use nexabot.Database.World.{World}
use nexabot.Database.Conversations.{
  message_to_domain, messages_to_domain, newest_first, in_conversation, message_page, load_messages,
  window_of, with_messages, to_domain, load_found, get,
}
use nexabot.Exec.{lift, ok, and_then-eq-ok, >>=-eq-ok}

abbrev pub message_of : MessageRow → Message
message_of row = record {
  id = row.id;
  conversation_id = row.conversation_id;
  role = row.role;
  content = row.content;
  metadata = row.meta;
  created_at = row.created_at;
}

-- The stored history of a conversation, the oldest message first.
unfoldable pub stored_history : ℕ → List MessageRow → List Message
stored_history id rows = map message_of (reverse (newest_first (select (in_conversation id) rows)))

message_to_domain-eq-ok :
    (r : MessageRow) {m : Message} → message_to_domain r ≡ ok m → m ≡ message_of r
unfolding message_to_domain make_message
message_to_domain-eq-ok r h = ground arith

messages_to_domain-eq-ok :
    (rows : List MessageRow) {ms : List Message}
    → messages_to_domain rows ≡ ok ms
    → ms ≡ map message_of rows
unfolding messages_to_domain
messages_to_domain-eq-ok [] h = ground arith
messages_to_domain-eq-ok (r ∷ rows) h =
    let (m, first, h') = and_then-eq-ok (message_to_domain r) _ h in
    let (ms, rest, made) = and_then-eq-ok (messages_to_domain rows) _ h' in
    cc (made, message_to_domain-eq-ok r first, messages_to_domain-eq-ok rows rest)

-- The ordered rows of a conversation.
abbrev ordered : ℕ → List MessageRow → List MessageRow
ordered id rows = newest_first (select (in_conversation id) rows)

pub take-drop : {A : Type 0} (n : ℕ) (xs : List A) → take n xs ++ drop n xs ≡ xs
take-drop zero xs = refl
take-drop (suc n) [] = refl
take-drop (suc n) (x ∷ xs) = ap (◌∷◌ x) (take-drop n xs)

-- The page ends the history; what comes before it is the reverse of what was dropped.
stored_history-page :
    (id limit : ℕ) (rows : List MessageRow)
    → stored_history id rows
      ≡ map message_of (reverse (drop limit (ordered id rows)))
        ++ map message_of (message_page id limit rows)
unfolding stored_history message_page
stored_history-page id limit rows =
    ap (λ l. map message_of (reverse l)) (sym (take-drop limit (ordered id rows)))
    ∙ ap (map message_of)
        (reverse-append (take limit (ordered id rows)) (drop limit (ordered id rows)))
    ∙ map-append message_of (reverse (drop limit (ordered id rows)))
        (reverse (take limit (ordered id rows)))

drop_all : {A : Type 0} (n : ℕ) (xs : List A) → length (take n xs) ≢ n → drop n xs ≡ []
drop_all zero xs h = absurd (h refl)
drop_all (suc n) [] h = refl
drop_all (suc n) (x ∷ xs) h = drop_all n xs (λ e. h (ap suc e))

length-page :
    (id limit : ℕ) (rows : List MessageRow)
    → length (map message_of (message_page id limit rows)) ≡ length (take limit (ordered id rows))
unfolding message_page
length-page id limit rows =
    length-map message_of (reverse (take limit (ordered id rows)))
    ∙ length-reverse (take limit (ordered id rows))

short_ne :
    (id limit : ℕ) (rows : List MessageRow)
    → (length (map message_of (message_page id limit rows)) == limit) ≡ false
    → length (take limit (ordered id rows)) ≢ limit
short_ne id limit rows h = ground (arith, length-page id limit rows)

-- A page that is not full is the whole history.
window_of-Knows :
    (id limit : ℕ) (rows : List MessageRow)
    → Knows
        (window_of limit (map message_of (message_page id limit rows)))
        (map message_of (reverse (drop limit (ordered id rows))))
        (map message_of (message_page id limit rows))
window_of-Knows id limit rows =
    elim (Bool-cases (length (map message_of (message_page id limit rows)) == limit)) [
      | inl full ↦ rw full (ground arith)
      | inr short ↦
          rw short
            (rw (drop_all limit (ordered id rows) (λ e. short_ne id limit rows short e)) refl)
    ]

pub load_messages-eq-ok :
    (id limit : ℕ) (w : World) {ms : List Message}
    → (load_messages id limit w).0 ≡ ok ms
    → (ms ≡ map message_of (message_page id limit w.db.messages))
      × ((load_messages id limit w).1 ≡ w)
unfolding load_messages
load_messages-eq-ok id limit w h =
    (messages_to_domain-eq-ok (message_page id limit w.db.messages) h, refl)

-- A conversation made of the newest page of its rows.
page_IsView :
    (row : ConversationRow) (limit : ℕ) (rows : List MessageRow)
    → IsView
        (with_messages row limit (map message_of (message_page row.id limit rows)))
        (stored_history row.id rows)
page_IsView row limit rows = record {
  older = map message_of (reverse (drop limit (ordered row.id rows)));
  split = stored_history-page row.id limit rows;
  knows = window_of-Knows row.id limit rows;
}

-- A successful load reads the world and leaves it alone.
to_domain-eq-ok :
    (row : ConversationRow) (message_limit : ℤ) (w : World) {c : Conversation} {w' : World}
    → to_domain row message_limit w ≡ (ok c, w')
    → (limit : ℕ) × (c
        ≡ with_messages row limit (map message_of (message_page row.id limit w.db.messages)))
      × (w' ≡ w)
unfolding to_domain
to_domain-eq-ok row message_limit w h =
    let (limit, _, h') = >>=-eq-ok (lift (validate_message_window message_limit)) _ w h in
    let (ms, loaded, h'') = >>=-eq-ok (load_messages row.id limit) _ w h' in
    let (page, same) = load_messages-eq-ok row.id limit w (ap (λ p. p.0) loaded) in
    let made : with_messages row limit ms ≡ _ = cc (ap (λ p. p.0) h'') in
    (limit, sym made ∙ ap (with_messages row limit) page, sym (ap (λ p. p.1) h'') ∙ same)

load_found-eq-ok :
    (found : Option ConversationRow) (message_limit : ℤ) (w : World) (c : Conversation) {w' : World}
    → load_found found message_limit w ≡ (ok (some c), w')
    → (row : ConversationRow) × (limit : ℕ) × (found ≡ some row)
      × (c ≡ with_messages row limit (map message_of (message_page row.id limit w.db.messages)))
      × (w' ≡ w)
load_found-eq-ok none message_limit w c h = absurd (cc (ap (λ p. p.0) h))
load_found-eq-ok (some row) message_limit w c h =
    let (found, loaded, h') = >>=-eq-ok (to_domain row message_limit) _ w h in
    let (limit, made, same) = to_domain-eq-ok row message_limit w {c = found} loaded in
    let here : c ≡ found = cc (ap (λ p. p.0) h') in
    (row, limit, refl, here ∙ made, sym (ap (λ p. p.1) h') ∙ same)

row_found :
    (id : ℕ) (rows : List ConversationRow) (row : ConversationRow)
    → find (is_conversation id) rows ≡ some row
    → row.id ≡ id
row_found id rows row h = ground (arith, find-passes (is_conversation id) rows row h)

-- A conversation that `get` returns comes from the stored row of its id, and nothing changes.
pub get-eq-ok :
    (id : ℕ) (message_limit : ℤ) (w : World) (c : Conversation) {w' : World}
    → get id message_limit w ≡ (ok (some c), w')
    → (row : ConversationRow) × (limit : ℕ) × (find (is_conversation id) w.db.conversations
        ≡ some row)
      × (c ≡ with_messages row limit (map message_of (message_page row.id limit w.db.messages)))
      × (w' ≡ w)
unfolding get
get-eq-ok id message_limit w c h =
    load_found-eq-ok (find (is_conversation id) w.db.conversations) message_limit w c h

-- A conversation that `get` returns is a view of the stored history of its messages, in the order
-- of their instants: it holds the newest ones, and its window is the number that it holds, or it has
-- no window and holds them all. Loading changes nothing.
pub get-IsView :
    (id : ℕ) (message_limit : ℤ) (w : World) (c : Conversation) {w' : World}
    → get id message_limit w ≡ (ok (some c), w')
    → IsView c (stored_history id w.db.messages) × (c.id ≡ id) × (w' ≡ w)
get-IsView id message_limit w c h =
    let (row, limit, found, made, same) = get-eq-ok id message_limit w c h in
    let e : row.id ≡ id = row_found id w.db.conversations row found in
    (
      rw made (
          subst
            (λ k.
              IsView
                (with_messages row limit (map message_of (message_page row.id limit w.db.messages)))
                (stored_history k w.db.messages))
            e (page_IsView row limit w.db.messages)),
      rw made e,
      same,
    )
