-- ===== src/Application/AgentTurn/Authority.antt =====
-- application/agent/use_cases.py: whose turn `_start_turn` starts.
use nexabot.Prelude.{List, [], ◌∷◌, ◌++◌, map, sym, ℕ, ◌≡◌, ap, ◌∙◌, subst, String, some}
use nexabot.Domain.Identity.{User, active}
use nexabot.Domain.Agent.{AgentRun, running}
use nexabot.Domain.Conversations.{Conversation, Message}
use nexabot.Database.World.{World}
use nexabot.Database.Tables.{MessageRow, AgentRunRow, AgentStepRow}
use nexabot.Database.UnitOfWork.{enter}
use nexabot.Database.UnitOfWork.Atomicity.{Ended, transaction-Ended}
use nexabot.Database.Users
use nexabot.Database.Conversations
use nexabot.Database.AgentRuns
use nexabot.Database.AgentRuns.Reading.{tables, add-tables}
use nexabot.Application.AgentTurn.Answered.{message_row}
use nexabot.Application.Identity.{resolve_current_actor}
use nexabot.Application.AgentTurn.Command.{RunAgentTurnCommand}
use nexabot.Application.AgentTurn.Phases.{
  started_run, append_user_message, owned_conversation, start_body, start_turn,
}
use nexabot.Exec.{Exec, ok, >>=-eq-ok, ◌>>=◌, pure, ◌>>◌}
use nexabot.Application.AgentTurn.Starting.{
  Asked, Planned, resolve-eq-ok, owned-eq-ok, append_user-eq-ok, started_run-eq-ok,
}

-- The tables that had the message, the run and its steps inserted, each behind the others.
abbrev pub begun_tables :
    Message → AgentRun → World → List MessageRow × List AgentRunRow × List AgentStepRow
begun_tables message run w = (
  w.db.messages ++ message_row message ∷ [],
  w.db.agent_runs ++ AgentRuns.row_of run ∷ [],
  w.db.agent_steps ++ map AgentRuns.step_row run.steps,
)

-- A turn that may run: whose it is and what it is about.
pub record IsAuthorized (command : RunAgentTurnCommand) (text : String) (w w' : World)
    (c : Conversation) (run : AgentRun) : Type 0 where
  pub actor : User
  pub known : Users.get_by_telegram_identity command.telegram_user_id w ≡ (ok (some actor), w)
  pub live : actor.status ≡ active
  pub stored : Conversation
  pub loaded :
      Conversations.get command.conversation_id command.context_window w ≡ (ok (some stored), w)
  pub owned_by : stored.owner_id ≡ actor.id
  pub message : Message
  pub asked : Asked text message stored c
  pub of_actor : run.user_id ≡ actor.id
  pub of_conversation : run.conversation_id ≡ stored.id
  pub started : run.status ≡ running
  pub planned : Planned command.limits run
  pub written : tables w' ≡ begun_tables message run w

-- The last calls of `_start_turn`, each with what follows it.
abbrev add_run : Conversation → AgentRun → Exec World (Conversation × AgentRun)
add_run appended r = AgentRuns.add r >> pure (appended, r)

abbrev run_for : ℕ → ℕ → RunAgentTurnCommand → Conversation → Exec World (Conversation × AgentRun)
run_for actor_id stored_id command appended =
    started_run actor_id stored_id command >>= add_run appended

abbrev ask_for :
    ℕ → RunAgentTurnCommand → String → Conversation → Exec World (Conversation × AgentRun)
ask_for actor_id command text stored =
    append_user_message text stored >>= run_for actor_id stored.id command

abbrev with_run :
    AgentRun
    → List MessageRow × List AgentRunRow × List AgentStepRow
    → List MessageRow × List AgentRunRow × List AgentStepRow
with_run r (messages, runs, steps) =
    (messages, runs ++ AgentRuns.row_of r ∷ [], steps ++ map AgentRuns.step_row r.steps)

module _ (command : RunAgentTurnCommand) (text : String) (c : Conversation) (run : AgentRun)
    (actor : User) where
  -- What follows the check of the owner.
  begun :
      (stored : Conversation) (u w' : World)
      → ask_for actor.id command text stored u ≡ (ok (c, run), w')
      → (m : Message) × Asked text m stored c
        × (run.user_id ≡ actor.id)
        × (run.conversation_id ≡ stored.id)
        × (run.status ≡ running)
        × Planned command.limits run
        × (tables w' ≡ begun_tables m run u)
  begun stored u w' h =
      let (appended, first, h1) =
        >>=-eq-ok (append_user_message text stored) (run_for actor.id stored.id command) u h in
      let (r, second, h2) =
        >>=-eq-ok (started_run actor.id stored.id command) (add_run appended) _ h1 in
      let (done, third, h3) = >>=-eq-ok (AgentRuns.add r) (λ _. pure (appended, r)) _ h2 in
      let same_c : c ≡ appended = cc (ap (λ p. p.0) h3) in
      let same_run : run ≡ r = cc (ap (λ p. p.0) h3) in
      let (of_actor, of_conversation, live, planned, kept) =
        started_run-eq-ok actor.id stored.id command r _ _ second in
      let (m, asked, sent) = append_user-eq-ok text stored appended u _ first in
      (
        m,
        rw same_c asked,
        ap (λ (x : AgentRun). x.user_id) same_run ∙ of_actor,
        ap (λ (x : AgentRun). x.conversation_id) same_run ∙ of_conversation,
        ap (λ (x : AgentRun). x.status) same_run ∙ live,
        rw same_run planned,
        ap (λ p. tables p.1) (sym h3)
            ∙ add-tables r _ _ third
            ∙ ap (with_run r) (kept ∙ sent)
            ∙ ap (λ x. begun_tables m x u) (sym same_run),
      )

  -- What follows the resolution of the actor.
  resolved :
      (w w' : World)
      → Users.get_by_telegram_identity command.telegram_user_id w ≡ (ok (some actor), w)
      → actor.status ≡ active
      → (owned_conversation actor.id command >>= ask_for actor.id command text) w
        ≡ (ok (c, run), w')
      → IsAuthorized command text w w' c run
  resolved w w' known live h =
      let (stored, first, h1) =
        >>=-eq-ok (owned_conversation actor.id command) (ask_for actor.id command text) w h in
      let (loaded, owner, same) = owned-eq-ok actor.id command w _ stored first in
      let (m, asked, of_actor, of_conversation, running', planned, sent) = begun stored _ w' h1 in
      record {
        actor = actor;
        known = known;
        live = live;
        stored = stored;
        loaded = loaded;
        owned_by = owner;
        message = m;
        asked = asked;
        of_actor = of_actor;
        of_conversation = of_conversation;
        started = running';
        planned = planned;
        written = sent ∙ ap (begun_tables m run) same;
      }

body-IsAuthorized :
    (command : RunAgentTurnCommand) (text : String) (w w' : World) (c : Conversation)
    (run : AgentRun)
    → start_body command text w ≡ (ok (c, run), w')
    → IsAuthorized command text w w' c run
unfolding start_body
body-IsAuthorized command text w w' c run h =
    let (actor, first, h1) =
      >>=-eq-ok (resolve_current_actor command.telegram_user_id)
        (λ a. owned_conversation a.id command >>= ask_for a.id command text) w h in
    let (known, live, same) = resolve-eq-ok command.telegram_user_id w _ actor first in
    resolved command text c run actor w w' known live (
      subst
        (λ u.
          (owned_conversation actor.id command >>= ask_for actor.id command text) u
          ≡ (ok (c, run), w'))
        same h1)

-- A turn that starts was asked for by a known user who is active, in an existing conversation that
-- is active and that this user owns, as the database was when its transaction began. The user's text
-- is the last message of the conversation, which stays active, and the run is theirs and running,
-- with the limits of the command and two numbered steps. The transaction has added that message, that
-- run and those steps to their tables, each row once and behind the others, and no other row there.
pub start_turn-IsAuthorized :
    (command : RunAgentTurnCommand) (text : String) (w w' : World) (c : Conversation)
    (run : AgentRun)
    → start_turn command text w ≡ (ok (c, run), w')
    → IsAuthorized command text (enter w) w' c run
unfolding start_turn
start_turn-IsAuthorized command text w w' c run h =
    body-IsAuthorized command text (enter w) w' c run
      (subst (Ended (start_body command text) w) h (transaction-Ended (start_body command text) w))
