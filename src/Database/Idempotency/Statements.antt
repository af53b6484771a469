-- ===== src/Database/Idempotency/Statements.antt =====
-- infrastructure/database/repositories/idempotency.py: the SQL statements, each of which the
-- database runs atomically.
use nexabot.Prelude.{
  ℕ, ◌+◌, ◌*◌, String, Bool, true, false, not, ◌&&◌, ◌||◌, Option, none, some, List, [], ◌∷◌, ◌++◌,
  ltb, ◌==◌, str_eq, any, find, update_where, length, select, if◌then◌else◌,
}
use nexabot.Domain.Json.{Mapping}
use nexabot.Ports.Repositories.{IdempotencyState, started}
use nexabot.Database.Tables.{IdempotencyRow}

abbrev pub has_key : String → String → IdempotencyRow → Bool
has_key namespace key r = str_eq r.namespace namespace && str_eq r.key key

abbrev pub is_open : IdempotencyState → Bool
is_open started = true
is_open _ = false

-- `_get_row`
unfoldable pub get_row : String → String → List IdempotencyRow → Option IdempotencyRow
get_row namespace key = find (has_key namespace key)

-- The INSERT, refused by the primary key or by the unique pair (namespace, key).
unfoldable pub insert_claim : IdempotencyRow → List IdempotencyRow → Option (List IdempotencyRow)
insert_claim row rows =
    if any (λ (r : IdempotencyRow). r.id == row.id || has_key row.namespace row.key r) rows
    then none
    else some (rows ++ row ∷ [])

-- `utc_now() - claimed_at >= timedelta(seconds=ttl)`, in microseconds
unfoldable pub is_expired : ℕ → ℕ → IdempotencyRow → Bool
is_expired ttl now row = not (ltb now (row.claimed_at + ttl * 1000000))

-- `rowcount == 1`, and the table after the UPDATE.
abbrev changed_one :
    (IdempotencyRow → Bool)
    → (IdempotencyRow → IdempotencyRow)
    → List IdempotencyRow
    → Bool × List IdempotencyRow
changed_one test change rows = (length (select test rows) == 1, update_where test change rows)

-- The WHERE clause of the takeover.
abbrev pub takes_over : ℕ → ℕ → IdempotencyRow → Bool
takes_over id old_token r = r.id == id && is_open r.state && r.claim_token == old_token

unfoldable pub reclaim_row : ℕ → ℕ → ℕ → ℕ → List IdempotencyRow → Bool × List IdempotencyRow
reclaim_row id old_token now token =
    changed_one (takes_over id old_token)
      (λ (r : IdempotencyRow). record r { claimed_at = now; claim_token = token })

-- The WHERE clause of a settlement.
abbrev pub settles : String → String → ℕ → IdempotencyRow → Bool
settles namespace key token r = has_key namespace key r && is_open r.state && r.claim_token == token

unfoldable pub settle_row :
    String
    → String
    → ℕ
    → IdempotencyState
    → Mapping
    → List IdempotencyRow
    → Bool × List IdempotencyRow
settle_row namespace key token state result =
    changed_one (settles namespace key token)
      (λ (r : IdempotencyRow). record r { state = state; result = result })
