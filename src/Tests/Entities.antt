-- ===== src/Tests/Entities.antt =====
-- Runs, conversations and their rows.
use nexabot.Prelude.{refl, none, some, List, [], ◌∷◌, is_empty, strip, is_space, arith}
use nexabot.Prelude.Int.{pos}
use nexabot.Domain.Json.{end}
use nexabot.Domain.Agent.{
  AgentRun, default_limits, running, succeeded, new_run, start, finish, final_response,
}
use nexabot.Domain.Agent.Lifecycle.{Reach, new, next, starts, finishes, IsLegal, Reach-IsLegal}
use nexabot.Domain.Agent.Closing.{closed}
use nexabot.Domain.Conversations.{
  Conversation, Message, MessageRole, ConversationStatus, append_message,
}
use nexabot.Domain.Conversations.History.{IsView, append_message-IsView}
use nexabot.Domain.Context.{select_within_token_budget}
use nexabot.Domain.Context.Budget.{IsSelection, select_within_token_budget-IsSelection}

abbrev fresh_run : AgentRun
fresh_run = new_run 1 2 3 "stub" "m" default_limits

abbrev live_run : AgentRun
live_run = record fresh_run { status = running; started_at = some 10 }

abbrev answered_run : AgentRun
answered_run = record (closed 5 11 final_response end live_run) {
  status = succeeded;
  final_response = some "hi";
  usage_metadata = end;
  finished_at = some 12;
}

reached : Reach answered_run
unfolding new_run start finish is_empty strip is_space
reached =
    next (next (new 1 2 3 "stub" "m" default_limits) (starts 10 refl))
      (finishes 5 11 12 "hi" end refl)

Reach-IsLegal_example : IsLegal answered_run
Reach-IsLegal_example = Reach-IsLegal reached

abbrev hello : Message
hello = record {
  id = 7;
  conversation_id = 3;
  role = MessageRole.user;
  content = "hello";
  metadata = end;
  created_at = 1;
}

abbrev reply : Message
reply = record {
  id = 8;
  conversation_id = 3;
  role = MessageRole.assistant;
  content = "hi";
  metadata = end;
  created_at = 2;
}

-- The newest of two messages was loaded.
abbrev half_loaded : Conversation
half_loaded = record {
  id = 3;
  owner_id = 2;
  status = ConversationStatus.active;
  title = none;
  messages = reply ∷ [];
  metadata = end;
  created_at = 0;
  updated_at = 2;
  history_window = some 1;
}

half-IsView : IsView half_loaded (hello ∷ reply ∷ [])
half-IsView = record { older = hello ∷ []; split = refl; knows = omega arith }

abbrev extended : Conversation
extended = record half_loaded {
  messages = reply ∷ hello ∷ [];
  history_window = some 2;
  updated_at = 9;
}

append_message-IsView_example : IsView extended (hello ∷ reply ∷ hello ∷ [])
unfolding append_message is_empty strip is_space
append_message-IsView_example =
    append_message-IsView 7 1 9 MessageRole.user "hello" end half_loaded (hello ∷ reply ∷ [])
      {m = hello} {c' = extended} half-IsView refl

select_within_token_budget-IsSelection_example :
    (older : List Message) × IsSelection
      (pos 6)
      (hello ∷ reply ∷ [])
      older
      (select_within_token_budget (pos 6) (hello ∷ reply ∷ []))
select_within_token_budget-IsSelection_example =
    select_within_token_budget-IsSelection (pos 6) (hello ∷ reply ∷ [])
