-- ===== src/Database/Idempotency/Interleaving.antt =====
-- infrastructure/database/repositories/idempotency.py: any number of workers on one key, whose
-- statements interleave. The database runs each statement atomically; between a worker's read and
-- its write the others do what they like, and a worker that never steps again has crashed.
mod Holding
mod Keeps
pub mod Safety
pub mod Takeover
use nexabot.Prelude.{
  ℕ, ◌+◌, ◌≤◌, ◌≡◌, String, Bool, true, false, not, ◌&&◌, Option, none, some, List, [], ◌==◌,
  if◌then◌else◌,
}
use nexabot.Domain.Json.{Mapping, end}
use nexabot.Ports.Repositories.{IdempotencyState, started}
use nexabot.Database.Tables.{IdempotencyRow}
use nexabot.Database.Idempotency.Statements.{
  is_open, get_row, insert_claim, is_expired, reclaim_row, settle_row,
}

-- Where a worker stands: before `start`; after its read; with the claim; without it; and after its
-- settlement, which won or was refused.
pub data Phase : Type 0 where
  idle : Phase
  saw : Option IdempotencyRow → Phase
  holds : ℕ → Phase
  refused : Phase
  settled : Bool → Phase

-- `drawn` numbers the UUIDs, so that each is new.
pub record Sys : Type 0 where
  pub rows : List IdempotencyRow
  pub time : ℕ
  pub drawn : ℕ
  pub phase : ℕ → Phase

abbrev pub update : (ℕ → Phase) → ℕ → Phase → ℕ → Phase
update f i p j = if i == j then p else f j

-- Before any worker has begun.
abbrev pub init : List IdempotencyRow → ℕ → Sys
init rows now = record { rows = rows; time = now; drawn = 0; phase = λ _. idle }

module _ (namespace key : String) (ttl : ℕ) where
  -- The row that `start` inserts.
  abbrev pub claim_row : Sys → IdempotencyRow
  claim_row s = record {
    id = s.drawn + 1;
    namespace = namespace;
    key = key;
    state = started;
    result = end;
    claimed_at = s.time;
    claim_token = s.drawn;
  }

  -- `raced`: the row that another caller has created, or none.
  abbrev pub after_race : Option IdempotencyRow → Phase
  after_race none = refused
  after_race (some row) = saw (some row)

  abbrev pub may_take : ℕ → IdempotencyRow → Bool
  may_take now row = is_open row.state && is_expired ttl now row

  pub data Step (s u : Sys) : Type 0 where
    ticks : (t : ℕ) → s.time ≤ t → u ≡ record s { time = t } → Step s u
    looks :
        (i : ℕ)
        → s.phase i ≡ idle
        → u ≡ record s { phase = update s.phase i (saw (get_row namespace key s.rows)) }
        → Step s u
    creates :
        (i : ℕ) (rows : List IdempotencyRow)
        → s.phase i ≡ saw none
        → insert_claim (claim_row s) s.rows ≡ some rows
        → u
          ≡ record s { rows = rows; drawn = s.drawn + 2; phase = update s.phase i (holds s.drawn) }
        → Step s u
    races :
        (i : ℕ)
        → s.phase i ≡ saw none
        → insert_claim (claim_row s) s.rows ≡ none
        → u ≡ record s {
          drawn = s.drawn + 2;
          phase = update s.phase i (after_race (get_row namespace key s.rows));
        }
        → Step s u
    reclaims :
        (i : ℕ) (row : IdempotencyRow)
        → s.phase i ≡ saw (some row)
        → may_take s.time row ≡ true
        → u ≡ record s {
          rows = (reclaim_row row.id row.claim_token s.time s.drawn s.rows).1;
          drawn = s.drawn + 1;
          phase = update s.phase i (
              if (reclaim_row row.id row.claim_token s.time s.drawn s.rows).0
              then holds s.drawn
              else refused);
        }
        → Step s u
    gives_up :
        (i : ℕ) (row : IdempotencyRow)
        → s.phase i ≡ saw (some row)
        → may_take s.time row ≡ false
        → u ≡ record s { phase = update s.phase i refused }
        → Step s u
    settles :
        (i token : ℕ) (state : IdempotencyState) (result : Mapping)
        → s.phase i ≡ holds token
        → is_open state ≡ false
        → u ≡ record s {
          rows = (settle_row namespace key token state result s.rows).1;
          phase = update s.phase i (settled (settle_row namespace key token state result s.rows).0);
        }
        → Step s u

  pub data Reach (s : Sys) : Sys → Type 0 where
    here : Reach s s
    next : {t u : Sys} → Reach s t → Step t u → Reach s u
