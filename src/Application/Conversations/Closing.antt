-- ===== src/Application/Conversations/Closing.antt =====
-- application/conversations/use_cases.py: a conversation that is archived or deleted takes no message.
use nexabot.Prelude.{
  ℕ, ◌+◌, ◌≡◌, ◌≢◌, ◌⊎◌, inl, inr, refl, ap, sym, ◌∙◌, String, true, false, Option, none, some, [],
  arith, find, update_where, find-passes,
}
use nexabot.Prelude.Unique.{find-update_where}
use nexabot.Prelude.Int.{pos}
use nexabot.Domain.Errors.{NexaBotError, domain_error, not_found_error}
use nexabot.Domain.Json.{Mapping}
use nexabot.Domain.Conversations.{
  Conversation, ConversationStatus, Message, MessageRole, active, is_active,
}
use nexabot.Domain.Conversations as Entity
use nexabot.Ports.Repositories.{default_message_window}
use nexabot.Database.Tables.{ConversationRow, is_conversation}
use nexabot.Database.World.{World, utc_now, uuid4}
use nexabot.Database.Conversations as Repository
use nexabot.Database.Conversations.Loading.{get-eq-ok, get-IsView}
use nexabot.Application.Conversations.{
  get_or_raise, append_message, archive_conversation, delete_conversation,
}
use nexabot.Exec.{Exec, Result, ok, err, >>=-eq-ok, ◌>>=◌, ◌>>◌, pure, lift, or_raise}

-- The stored conversation is not active.
abbrev pub Closed : ℕ → World → Type 0
Closed id w =
    (row : ConversationRow) × (find (is_conversation id) w.db.conversations ≡ some row)
    × (is_active row.status ≡ false)

found-Closed :
    (c : Conversation) (found : Option ConversationRow) (w w' : World) (x : Unit)
    → is_active c.status ≡ false
    → find (is_conversation c.id) w.db.conversations ≡ found
    → Repository.save c w ≡ (ok x, w')
    → Closed c.id w'
unfolding Repository.save
found-Closed c none w w' x closed e h =
    let refused : (Repository.save c w).0
        ≡ err
            (domain_error (not_found_error "Conversation not found." "conversation_not_found" [])) =
      rw (Repository.save, e) refl in
    absurd (cc (sym refused ∙ ap (λ p. p.0) h))
found-Closed c (some row) w w' x closed e h =
    let opened : (Repository.save c w).1.db.conversations
        ≡ update_where (is_conversation c.id) (Repository.saved c) w.db.conversations =
      rw (Repository.save, e) refl in
    (
      Repository.saved c row,
      ap (λ p. find (is_conversation c.id) p.1.db.conversations) (sym h)
          ∙ ap (find (is_conversation c.id)) opened
          ∙ find-update_where (is_conversation c.id) (is_conversation c.id) (Repository.saved c)
              (λ r. refl) w.db.conversations
          ∙ rw (e, find-passes (is_conversation c.id) w.db.conversations row e) refl,
      closed,
    )

saved-Closed :
    (c d : Conversation) (w w' : World)
    → is_active c.status ≡ false
    → (Repository.save c >> pure c) w ≡ (ok d, w')
    → Closed c.id w'
saved-Closed c d w w' closed h =
    let (x, first, rest) = >>=-eq-ok (Repository.save c) (λ _. pure c) w h in
    found-Closed c (find (is_conversation c.id) w.db.conversations) w w' x closed refl
      (first ∙ ap (λ p. (ok x, p.1)) rest)

archive-closes :
    (now : ℕ) (c d : Conversation)
    → Entity.archive now c ≡ ok d
    → (d.id ≡ c.id) × (is_active d.status ≡ false)
unfolding Entity.archive
archive-closes now c d h = ground arith

delete-closes :
    (now : ℕ) (c d : Conversation)
    → Entity.delete now c ≡ ok d
    → (d.id ≡ c.id) × (is_active d.status ≡ false)
unfolding Entity.delete
delete-closes now c d h = ground arith

got-eq-ok :
    (found : Option Conversation) (e : NexaBotError) (w w' : World) (c : Conversation)
    → or_raise found e w ≡ (ok c, w')
    → found ≡ some c
got-eq-ok none e w w' c h = absurd (cc (ap (λ p. p.0) h))
got-eq-ok (some d) e w w' c h = ap some (cc (ap (λ p. p.0) h))

get_or_raise-eq-ok :
    (id : ℕ) (w w' : World) (c : Conversation)
    → get_or_raise id w ≡ (ok c, w')
    → (u : World) × (Repository.get id (pos default_message_window) w ≡ (ok (some c), u))
unfolding get_or_raise
get_or_raise-eq-ok id w w' c h =
    let (found, first, rest) = >>=-eq-ok (Repository.get id (pos default_message_window)) _ w h in
    let u = (Repository.get id (pos default_message_window) w).1 in
    (u, first ∙ ap (λ o. (ok o, u)) (got-eq-ok found _ u w' c rest))

-- What follows the loading of the conversation that is closed.
abbrev close_with :
    (ℕ → Conversation → Result Conversation) → Conversation → Exec World Conversation
close_with method c = do
  now ← utc_now
  ended ← lift (method now c)
  Repository.save ended
  pure ended

close_with-Closed :
    (method : ℕ → Conversation → Result Conversation) (c d : Conversation) (w w' : World)
    → ((now : ℕ) (a b : Conversation)
        → method now a ≡ ok b
        → (b.id ≡ a.id) × (is_active b.status ≡ false))
    → close_with method c w ≡ (ok d, w')
    → Closed c.id w'
unfolding utc_now
close_with-Closed method c d w w' closes h =
    let now = w.host.clock w.reads in
    let (ended, first, rest) =
      >>=-eq-ok (lift (method now c)) (λ b. Repository.save b >> pure b)
        (record w { reads = w.reads + 1 }) h in
    let (same, closed) = closes now c ended (ap (λ p. p.0) first) in
    let (row, at, status) = saved-Closed ended d _ w' closed rest in
    (row, ap (λ i. find (is_conversation i) w'.db.conversations) (sym same) ∙ at, status)

closing-Closed :
    (method : ℕ → Conversation → Result Conversation) (id : ℕ) (d : Conversation) (w w' : World)
    → ((now : ℕ) (a b : Conversation)
        → method now a ≡ ok b
        → (b.id ≡ a.id) × (is_active b.status ≡ false))
    → (get_or_raise id >>= close_with method) w ≡ (ok d, w')
    → Closed id w'
closing-Closed method id d w w' closes h =
    let (c, first, rest) = >>=-eq-ok (get_or_raise id) (close_with method) w h in
    let (u, loaded) = get_or_raise-eq-ok id w _ c first in
    let (view, same, kept) = get-IsView id (pos default_message_window) w c loaded in
    let (row, at, status) = close_with-Closed method c d _ w' closes rest in
    (row, ap (λ i. find (is_conversation i) w'.db.conversations) (sym same) ∙ at, status)

appends-active :
    (id created updated : ℕ) (role : MessageRole) (content : String) (metadata : Mapping)
    (c : Conversation) {p : Message × Conversation}
    → Entity.append_message id created updated role content metadata c ≡ ok p
    → is_active c.status ≡ true
unfolding Entity.append_message Entity.ensure_active
appends-active id created updated role content metadata c h = ground arith

Closed-refuses :
    (id : ℕ) (role : MessageRole) (content : String) (metadata : Mapping) (w w' : World)
    (m : Message)
    → Closed id w
    → append_message id role content metadata w ≢ (ok m, w')
unfolding append_message uuid4 utc_now
Closed-refuses id role content metadata w w' m closed h =
    let (c, first, rest) = >>=-eq-ok (get_or_raise id) _ w h in
    let (u, loaded) = get_or_raise-eq-ok id w _ c first in
    let (row, limit, found, made, same) = get-eq-ok id (pos default_message_window) w c loaded in
    let (p, appended, _) =
      >>=-eq-ok (lift (Entity.append_message _ _ _ role content metadata c)) _ _ rest in
    let live = appends-active _ _ _ role content metadata c (ap (λ q. q.0) appended) in
    let (row', at, status) = closed in
    let one : row' ≡ row = cc (sym at ∙ found) in
    let here : is_active c.status ≡ false =
      ap (λ (x : Conversation). is_active x.status) made
      ∙ ap (λ (r : ConversationRow). is_active r.status) (sym one)
      ∙ status in
    cc (sym live ∙ here)

-- Once a conversation has been archived or deleted, no message is appended to it.
pub closed_refuses_message :
    (id : ℕ) (role : MessageRole) (content : String) (metadata : Mapping) (w w' w'' : World)
    (c : Conversation) (m : Message)
    → (archive_conversation id w ≡ (ok c, w')) ⊎ (delete_conversation id w ≡ (ok c, w'))
    → append_message id role content metadata w' ≢ (ok m, w'')
unfolding archive_conversation delete_conversation
closed_refuses_message id role content metadata w w' w'' c m (inl h) =
    Closed-refuses id role content metadata w' w'' m
      (closing-Closed Entity.archive id c w w' archive-closes h)
closed_refuses_message id role content metadata w w' w'' c m (inr h) =
    Closed-refuses id role content metadata w' w'' m
      (closing-Closed Entity.delete id c w w' delete-closes h)
