-- ===== src/Application/AgentTurn/Starting.antt =====
-- application/agent/use_cases.py: what each call of `_start_turn` has found when it succeeds.
use nexabot.Prelude.{
  length, subst, ℕ, ◌+◌, ◌≡◌, refl, sym, ap, ◌∙◌, String, Bool, true, false, not, Option, none,
  some, [], ◌∷◌, ◌++◌, arith, ◌==◌,
}
use nexabot.Prelude.Int.{ℤ}
use nexabot.Domain.Errors.{NexaBotError}
use nexabot.Domain.Json.{end}
use nexabot.Domain.Identity.{User, active, ensure_active}
use nexabot.Domain.Agent.{
  AgentLimits, with_step, next_step, planning, model_call, AgentRun, running, start, record_step,
  new_run,
}
use nexabot.Domain.Conversations.{Conversation, ConversationStatus, Message, MessageRole}
use nexabot.Domain.Conversations as Entity
use nexabot.Domain.Conversations.History.{append_message-eq-ok}
use nexabot.Domain.Agent.Steps.{record_step-eq-ok, Numbered}
use nexabot.Database.World.{World, utc_now, uuid4}
use nexabot.Database.Users
use nexabot.Database.Conversations
use nexabot.Database.Conversations.Loading.{get-IsView}
use nexabot.Database.AgentRuns.Reading.{tables}
use nexabot.Application.AgentTurn.Answered.{message_row}
use nexabot.Application.Identity.{resolve_current_actor}
use nexabot.Application.AgentTurn.Command.{RunAgentTurnCommand}
use nexabot.Application.AgentTurn.Phases.{started_run, append_user_message, owned_conversation}
use nexabot.Exec.{lift, ok, >>=-eq-ok, raise_if, or_raise, ◌>>=◌, pure, ◌>>◌}

ensure_active-eq-ok : (u : User) → ensure_active u ≡ ok tt → u.status ≡ active
unfolding ensure_active
ensure_active-eq-ok u h = ground arith

known_actor :
    (u u' : User) (w w' : World)
    → (lift (ensure_active u) >> pure u) w ≡ (ok u', w')
    → (u' ≡ u) × (u.status ≡ active) × (w' ≡ w)
known_actor u u' w w' h =
    let (done, first, rest) = >>=-eq-ok (lift (ensure_active u)) (λ _. pure u) w h in
    (cc (ap (λ p. p.0) rest), ensure_active-eq-ok u (ap (λ p. p.0) first), sym (ap (λ p. p.1) rest))

owner_of :
    (s c : Conversation) (actor_id : ℕ) (f : NexaBotError) (w w' : World) (b : Bool)
    → (s.owner_id == actor_id) ≡ b
    → (raise_if (not b) f >> pure s) w ≡ (ok c, w')
    → (c ≡ s) × (s.owner_id ≡ actor_id) × (w' ≡ w)
owner_of s c actor_id f w w' true same h =
    (cc (ap (λ p. p.0) h), ground arith, sym (ap (λ p. p.1) h))
owner_of s c actor_id f w w' false same h = absurd (cc (ap (λ p. p.0) h))

looked_up :
    (found : Option User) (e : NexaBotError) (u' : User) (w w' : World)
    → (or_raise found e >>= λ u. lift (ensure_active u) >> pure u) w ≡ (ok u', w')
    → (found ≡ some u') × (u'.status ≡ active) × (w' ≡ w)
looked_up none e u' w w' h = absurd (cc (ap (λ p. p.0) h))
looked_up (some u) e u' w w' h =
    let (same, live, still) = known_actor u u' w w' h in
    (ap some (sym same), ap (λ (x : User). x.status) same ∙ live, still)

pub resolve-eq-ok :
    (t : ℤ) (w w' : World) (u : User)
    → resolve_current_actor t w ≡ (ok u, w')
    → (Users.get_by_telegram_identity t w ≡ (ok (some u), w)) × (u.status ≡ active) × (w' ≡ w)
unfolding resolve_current_actor Users.get_by_telegram_identity
resolve-eq-ok t w w' u h =
    let (found, first, rest) = >>=-eq-ok (Users.get_by_telegram_identity t) _ w h in
    let (same, live, still) = looked_up found _ u w w' rest in
    (first ∙ ap (λ o. (ok o, w)) same, live, still)

owned :
    (found : Option Conversation) (actor_id : ℕ) (e f : NexaBotError) (c : Conversation)
    (w w' : World)
    → (or_raise found e >>= λ s. raise_if (not (s.owner_id == actor_id)) f >> pure s) w ≡ (ok c, w')
    → (found ≡ some c) × (c.owner_id ≡ actor_id) × (w' ≡ w)
owned none actor_id e f c w w' h = absurd (cc (ap (λ p. p.0) h))
owned (some s) actor_id e f c w w' h =
    let (same, owner, still) = owner_of s c actor_id f w w' (s.owner_id == actor_id) refl h in
    (ap some (sym same), ap (λ (x : Conversation). x.owner_id) same ∙ owner, still)

pub owned-eq-ok :
    (actor_id : ℕ) (command : RunAgentTurnCommand) (w w' : World) (c : Conversation)
    → owned_conversation actor_id command w ≡ (ok c, w')
    → (Conversations.get command.conversation_id command.context_window w ≡ (ok (some c), w))
      × (c.owner_id ≡ actor_id)
      × (w' ≡ w)
unfolding owned_conversation
owned-eq-ok actor_id command w w' c h =
    let (found, first, rest) =
      >>=-eq-ok (Conversations.get command.conversation_id command.context_window) _ w h in
    let (same, owner, still) =
      owned found actor_id _ _ c
        (Conversations.get command.conversation_id command.context_window w).1 w' rest in
    let loaded =
      first
      ∙ ap (λ o. (ok o, (Conversations.get command.conversation_id command.context_window w).1))
          same in
    let (view, id, kept) = get-IsView command.conversation_id command.context_window w c loaded in
    (loaded ∙ ap (λ u. (ok (some c), u)) kept, owner, still ∙ kept)

append_message-active :
    (id created updated : ℕ) (text : String) (c : Conversation) {p : Message × Conversation}
    → Entity.append_message id created updated MessageRole.user text end c ≡ ok p
    → c.status ≡ ConversationStatus.active
unfolding Entity.append_message Entity.ensure_active
append_message-active id created updated text c h = ground arith

-- The user's message has joined an active conversation.
abbrev pub Asked : String → Message → Conversation → Conversation → Type 0
Asked text m before after =
    (after.messages ≡ before.messages ++ m ∷ [])
    × (m.content ≡ text)
    × (m.conversation_id ≡ before.id)
    × (m.role ≡ MessageRole.user)
    × (before.status ≡ ConversationStatus.active)
    × (after.status ≡ ConversationStatus.active)

pub append_message-tables :
    (m : Message) (w w' : World)
    → Conversations.append_message m w ≡ (ok tt, w')
    → tables w' ≡ (w.db.messages ++ message_row m ∷ [], w.db.agent_runs, w.db.agent_steps)
unfolding Conversations.append_message
append_message-tables m w w' h = ground arith

pub append_user-eq-ok :
    (text : String) (c c' : Conversation) (w w' : World)
    → append_user_message text c w ≡ (ok c', w')
    → (m : Message) × Asked text m c c'
      × (tables w' ≡ (w.db.messages ++ message_row m ∷ [], w.db.agent_runs, w.db.agent_steps))
unfolding append_user_message uuid4 utc_now
append_user-eq-ok text c c' w w' h =
    let id = w.host.uuid w.drawn in
    let created = w.host.clock w.reads in
    let updated = w.host.clock (w.reads + 1) in
    let ((m, d), first, rest) =
      >>=-eq-ok (lift (Entity.append_message id created updated MessageRole.user text end c))
        (λ appended. Conversations.append_message appended.0 >> pure appended.1) _ h in
    let (done, stored, last) = >>=-eq-ok (Conversations.append_message m) (λ _. pure d) _ rest in
    let appended = ap (λ p. p.0) first in
    let (grown, made) =
      append_message-eq-ok id created updated MessageRole.user text end c appended in
    let same : c' ≡ d = cc (ap (λ p. p.0) last) in
    (
      m,
      (
        ap (λ (x : Conversation). x.messages) (same ∙ grown),
        ap (λ (x : Message). x.content) made,
        ap (λ (x : Message). x.conversation_id) made,
        ap (λ (x : Message). x.role) made,
        append_message-active id created updated text c appended,
        ap (λ (x : Conversation). x.status) (same ∙ grown)
            ∙ append_message-active id created updated text c appended,
      ),
      ap (λ p. tables p.1) (sym last) ∙ append_message-tables m _ _ stored,
    )

-- The run has the limits that were asked for and two steps, which are numbered.
abbrev pub Planned : AgentLimits → AgentRun → Type 0
Planned limits run = (run.limits ≡ limits) × (length run.steps ≡ 2) × Numbered run.id 0 run.steps

twice-Planned :
    (id at id' at' : ℕ) (first planned run : AgentRun)
    → first.steps ≡ []
    → planned ≡ with_step (next_step id at planning end first) first
    → run ≡ with_step (next_step id' at' model_call end planned) planned
    → Planned first.limits run
twice-Planned id at id' at' first planned run empty one two =
    subst (Planned first.limits) (sym two) (
      subst (λ r. Planned first.limits (with_step (next_step id' at' model_call end r) r)) (sym one)
        (refl, rw empty refl, rw empty (refl, refl, (refl, refl, tt))))

pub started_run-eq-ok :
    (user_id conversation_id : ℕ) (command : RunAgentTurnCommand) (run : AgentRun) (w w' : World)
    → started_run user_id conversation_id command w ≡ (ok run, w')
    → (run.user_id ≡ user_id)
      × (run.conversation_id ≡ conversation_id)
      × (run.status ≡ running)
      × Planned command.limits run
      × (tables w' ≡ tables w)
unfolding started_run uuid4 utc_now start new_run
started_run-eq-ok user_id conversation_id command run w w' h =
    let (planned, first, rest) = >>=-eq-ok (lift (record_step _ _ planning end _)) _ _ h in
    let one = (record_step-eq-ok _ _ planning end _ (ap (λ q. q.0) first)).0 in
    let two = (record_step-eq-ok _ _ model_call end planned (ap (λ q. q.0) rest)).0 in
    (
      ap (λ (r : AgentRun). r.user_id) two ∙ ap (λ (r : AgentRun). r.user_id) one,
      ap (λ (r : AgentRun). r.conversation_id) two ∙ ap (λ (r : AgentRun). r.conversation_id) one,
      ap (λ (r : AgentRun). r.status) two ∙ ap (λ (r : AgentRun). r.status) one,
      twice-Planned _ _ _ _ _ planned run refl one two,
      ap (λ q. tables q.1) (sym rest),
    )
