-- ===== src/Database/Silence.antt =====
-- The persistence layer sends nothing to the model provider: what its operations leave alone.
use nexabot.Prelude.{
  ℕ, ◌≡◌, refl, ◌∙◌, String, Option, none, some, List, [], ◌∷◌, arith, find, Option-cases, inl, inr,
}
use nexabot.Prelude.Int.{ℤ}
use nexabot.Domain.Errors.{Exception}
use nexabot.Domain.Json.{Mapping}
use nexabot.Domain.Agent.{AgentRun, AgentStep}
use nexabot.Domain.Conversations.{Message}
use nexabot.Ports.Repositories.{IdempotencyState}
use nexabot.Database.Tables.{AgentRunRow, Db, IdempotencyRow, is_run}
use nexabot.Database.World.{World, utc_now, uuid4}
use nexabot.Database.UnitOfWork.{enter, commit, exit, transaction}
use nexabot.Database.Idempotency
use nexabot.Database.Idempotency.Statements.{get_row}
use nexabot.Database.Conversations
use nexabot.Database.AgentRuns
use nexabot.Exec.{Exec, Result, ok, err, ◌>>=◌, continue}

abbrev pub IsSilent : {A : Type 0} → Exec World A → Type 0
IsSilent m = (w : World) → (m w).1.sent ≡ w.sent

continue-IsSilent :
    {A B : Type 0} (r : Result A) (f : A → Exec World B) (w : World)
    → ((a : A) → IsSilent (f a))
    → (continue r f w).1.sent ≡ w.sent
continue-IsSilent (ok a) f w h = h a w
continue-IsSilent (err e) f w h = refl

pub >>=-IsSilent :
    {A B : Type 0} (m : Exec World A) (f : A → Exec World B)
    → IsSilent m
    → ((a : A) → IsSilent (f a))
    → IsSilent (m >>= f)
>>=-IsSilent m f first rest w = continue-IsSilent (m w).0 f (m w).1 rest ∙ first w

commit-IsSilent :
    {A : Type 0} (before : Db) (a : A) (fault : Option Exception) (w : World)
    → (commit before a fault w).1.sent ≡ w.sent
unfolding commit
commit-IsSilent before a none w = refl
commit-IsSilent before a (some e) w = refl

exit-IsSilent :
    {A : Type 0} (before : Db) (r : Result A) (w : World) → (exit before r w).1.sent ≡ w.sent
unfolding exit
exit-IsSilent before (ok a) w = commit-IsSilent before a (w.host.commit_fault w.begun) w
exit-IsSilent before (err e) w = refl

pub transaction-IsSilent :
    {A : Type 0} (body : Exec World A) → IsSilent body → IsSilent (transaction body)
unfolding transaction enter
transaction-IsSilent body h w =
    exit-IsSilent (enter w).db (body (enter w)).0 (body (enter w)).1 ∙ h (enter w)

reclaim_if_expired-IsSilent :
    (row : IdempotencyRow) (ttl : ℕ) → IsSilent (Idempotency.reclaim_if_expired row ttl)
unfolding Idempotency.reclaim_if_expired utc_now uuid4
reclaim_if_expired-IsSilent row ttl w = ground arith

claim_existing-IsSilent :
    (row : IdempotencyRow) (ttl : ℕ) → IsSilent (Idempotency.claim_existing row ttl)
unfolding Idempotency.claim_existing
claim_existing-IsSilent row ttl w = ground (arith, reclaim_if_expired-IsSilent row ttl w)

claim_raced-IsSilent :
    (namespace : String) (ttl : ℕ) (found : Option IdempotencyRow)
    → IsSilent (Idempotency.claim_raced namespace ttl found)
claim_raced-IsSilent namespace ttl none w = refl
claim_raced-IsSilent namespace ttl (some raced) w = claim_existing-IsSilent raced ttl w

after_insert-IsSilent :
    (namespace key : String) (ttl token : ℕ) (inserted : Option (List IdempotencyRow))
    → IsSilent (Idempotency.after_insert namespace key ttl token inserted)
unfolding Idempotency.after_insert
after_insert-IsSilent namespace key ttl token (some rows) w = refl
after_insert-IsSilent namespace key ttl token none w =
    claim_raced-IsSilent namespace ttl (get_row namespace key w.db.idempotency_records) w

create_claim-IsSilent :
    (namespace key : String) (ttl : ℕ) → IsSilent (Idempotency.create_claim namespace key ttl)
unfolding Idempotency.create_claim utc_now uuid4
create_claim-IsSilent namespace key ttl w = after_insert-IsSilent namespace key ttl _ _ _

claim_or_create-IsSilent :
    (namespace key : String) (ttl : ℕ) (found : Option IdempotencyRow)
    → IsSilent (Idempotency.claim_or_create namespace key ttl found)
claim_or_create-IsSilent namespace key ttl none w = create_claim-IsSilent namespace key ttl w
claim_or_create-IsSilent namespace key ttl (some row) w = claim_existing-IsSilent row ttl w

pub start-IsSilent :
    (namespace key : String) (ttl : ℕ) → IsSilent (Idempotency.start namespace key ttl)
unfolding Idempotency.start
start-IsSilent namespace key ttl w =
    claim_or_create-IsSilent namespace key ttl (get_row namespace key w.db.idempotency_records) w

pub settle-IsSilent :
    (namespace key : String) (token : ℕ) (state : IdempotencyState) (result : Mapping)
    → IsSilent (Idempotency.settle namespace key token state result)
unfolding Idempotency.settle
settle-IsSilent namespace key token state result w = ground arith

pub get_conversation-IsSilent : (id : ℕ) (limit : ℤ) → IsSilent (Conversations.get id limit)
unfolding Conversations.get Conversations.to_domain Conversations.load_messages
get_conversation-IsSilent id limit w = ground arith

pub append_message-IsSilent : (m : Message) → IsSilent (Conversations.append_message m)
unfolding Conversations.append_message
append_message-IsSilent m w = ground arith

append_step-IsSilent : (s : AgentStep) → IsSilent (AgentRuns.append_step s)
unfolding AgentRuns.append_step
append_step-IsSilent s w = ground arith

append_steps-IsSilent : (steps : List AgentStep) → IsSilent (AgentRuns.append_steps steps)
unfolding AgentRuns.append_steps
append_steps-IsSilent [] w = refl
append_steps-IsSilent (s ∷ steps) w =
    >>=-IsSilent (AgentRuns.append_step s) (λ _. AgentRuns.append_steps steps)
      (append_step-IsSilent s) (λ _. append_steps-IsSilent steps) w

pub add_run-IsSilent : (run : AgentRun) → IsSilent (AgentRuns.add run)
unfolding AgentRuns.add AgentRuns.insert_run
add_run-IsSilent run =
    >>=-IsSilent (AgentRuns.insert_run (AgentRuns.row_of run))
      (λ _. AgentRuns.append_steps run.steps) (λ w. ground arith)
      (λ _. append_steps-IsSilent run.steps)

pub get_run-IsSilent : (id : ℕ) → IsSilent (AgentRuns.get id)
unfolding AgentRuns.get
get_run-IsSilent id w = ground arith

update_run-IsSilent : (run : AgentRun) (row : AgentRunRow) → IsSilent (AgentRuns.update_run run row)
unfolding AgentRuns.update_run
update_run-IsSilent run row w = ground arith

pub save_run-IsSilent : (run : AgentRun) → IsSilent (AgentRuns.save run)
unfolding AgentRuns.save
save_run-IsSilent run w = elim (Option-cases (find (is_run run.id) w.db.agent_runs)) [
  | inl e ↦ rw e refl
  | inr (row, e) ↦ rw e (
      >>=-IsSilent (AgentRuns.update_run run row) _ (update_run-IsSilent run row)
        (λ _ u. append_steps-IsSilent _ u) w)
]
