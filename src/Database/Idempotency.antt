-- ===== src/Database/Idempotency.antt =====
-- infrastructure/database/repositories/idempotency.py: claims on a key, their takeover after
-- expiry and their settlement, each a compare-and-swap on the claim token.
pub mod Statements
pub mod Claims
pub mod Inserting
pub mod Interleaving
pub mod Granting
unfoldable pub use Statements.{get_row, insert_claim, reclaim_row, settle_row, is_expired}
use nexabot.Prelude.{ℕ, String, Bool, true, false, Option, none, some, List, [], ◌∷◌, if◌then◌else◌}
use nexabot.Domain.Errors.{Detail, integrity_error, conflict_error, not_found_error}
use nexabot.Domain.Json.{Json, Mapping, end, entry}
use nexabot.Ports.Repositories.{
  IdempotencyState, started, completed, failed, IdempotencyRecord, default_claim_ttl_seconds,
}
use nexabot.Database.Tables.{IdempotencyRow, Db}
use nexabot.Database.World.{World, utc_now, uuid4}
use nexabot.Exec.{Exec, ok, err, pure, raise, gets, ◌>>=◌, ◌>>◌}

abbrev records : Exec World (List IdempotencyRow)
records = gets (λ w. w.db.idempotency_records)

abbrev put_records : List IdempotencyRow → Exec World Unit
put_records rows w = (ok tt, record w { db = record w.db { idempotency_records = rows } })

abbrev record_of : IdempotencyRow → Option ℕ → Bool → IdempotencyRecord
record_of row token owned = record {
  namespace = row.namespace;
  key = row.key;
  state = row.state;
  result = row.result;
  owned = owned;
  claim_token = token;
}

-- `_reclaim_if_expired`
unfoldable pub reclaim_if_expired : IdempotencyRow → ℕ → Exec World (Option ℕ)
reclaim_if_expired row ttl = do
  now ← utc_now
  if is_expired ttl now row
      then (do
        token ← uuid4
        claimed_at ← utc_now
        let (won, rows) = reclaim_row row.id row.claim_token claimed_at token (← records)
        put_records rows
        pure (if won then some token else none))
      else pure none

abbrev is_held {ℓ} : {A : Type ℓ} → Option A → Bool
is_held none = false
is_held (some a) = true

abbrev is_started : IdempotencyState → Bool
is_started started = true
is_started _ = false

-- `_claim_existing`
unfoldable pub claim_existing : IdempotencyRow → ℕ → Exec World IdempotencyRecord
claim_existing row ttl = do
  token ← (if is_started row.state then reclaim_if_expired row ttl else pure none)
  pure (record_of row token (is_held token))

-- The row that another caller has created in between, if it is there.
abbrev pub claim_raced : String → ℕ → Option IdempotencyRow → Exec World IdempotencyRecord
claim_raced namespace ttl none = raise (
    conflict_error "The idempotency key is contended." "idempotency_key_contended"
      (("namespace", Detail.text namespace) ∷ []))
claim_raced namespace ttl (some raced) = claim_existing raced ttl

-- What follows an attempt to insert: the nested transaction keeps its failure to itself.
unfoldable pub after_insert :
    String → String → ℕ → ℕ → Option (List IdempotencyRow) → Exec World IdempotencyRecord
after_insert namespace key ttl token (some rows) = do
  put_records rows
  pure (record {
    namespace = namespace;
    key = key;
    state = started;
    result = end;
    owned = true;
    claim_token = some token;
  })
after_insert namespace key ttl token none = do
  rows ← records
  claim_raced namespace ttl (get_row namespace key rows)

-- `start`, when no row was found: the row with its fresh token and id is inserted.
unfoldable pub create_claim : String → String → ℕ → Exec World IdempotencyRecord
create_claim namespace key ttl = do
  token ← uuid4
  id ← uuid4
  now ← utc_now
  rows ← records
  after_insert namespace key ttl token (
      insert_claim
        (record {
          id = id;
          namespace = namespace;
          key = key;
          state = started;
          result = end;
          claimed_at = now;
          claim_token = token;
        })
        rows)

abbrev pub claim_or_create :
    String → String → ℕ → Option IdempotencyRow → Exec World IdempotencyRecord
claim_or_create namespace key ttl (some existing) = claim_existing existing ttl
claim_or_create namespace key ttl none = create_claim namespace key ttl

unfoldable pub start : String → String → ℕ → Exec World IdempotencyRecord
start namespace key ttl = do
  rows ← records
  claim_or_create namespace key ttl (get_row namespace key rows)

-- `_settle`
unfoldable pub settle : String → String → ℕ → IdempotencyState → Mapping → Exec World Unit
settle namespace key token state result = do
  rows ← records
  let (won, rows') = settle_row namespace key token state result rows
  put_records rows'
  if won then pure tt else elim (get_row namespace key rows') [
    | none ↦
        raise (not_found_error "Idempotency record not found." "idempotency_record_not_found" [])
    | some row ↦ raise (
        conflict_error "This attempt no longer owns the idempotency claim." "idempotency_claim_lost"
          (("namespace", Detail.text namespace) ∷ []))
  ]

unfoldable pub complete : String → String → Mapping → ℕ → Exec World Unit
complete namespace key result token = settle namespace key token completed result

unfoldable pub fail : String → String → String → ℕ → Exec World Unit
fail namespace key reason token =
    settle namespace key token failed (entry "reason" (Json.str reason) end)
