-- ===== src/Database/Idempotency/Interleaving/Safety.antt =====
-- What the interleaved workers may rely on: one holder of a started claim, one winner, and a
-- settled row that never changes again.
use nexabot.Prelude.{ℕ, ◌≡◌, refl, String, true, false, none, some, List, arith}
use nexabot.Database.Tables.{IdempotencyRow}
use nexabot.Ports.Repositories.{IdempotencyState}
use nexabot.Domain.Json.{Mapping}
use nexabot.Database.Idempotency.Statements.{
  is_open, get_row, insert_claim, reclaim_row, settle_row,
}
use nexabot.Database.Idempotency.Claims.{IsKeyed, settle_row-outcome, reclaim_row-outcome}
use nexabot.Database.Idempotency.Inserting.{insert_claim-eq-some, get_row_free}
use nexabot.Database.Idempotency.Interleaving.{
  saw, holds, settled, Sys, claim_row, Step, ticks, looks, creates, races, reclaims, gives_up,
  settles, init, Reach, here, next,
}
use nexabot.Database.Idempotency.Interleaving.Keeps.{IsSound, init-IsSound, Reach-IsSound}

-- In every state that workers reach from a free key, however their statements interleave, at most
-- one of them has had its settlement accepted.
pub one_winner :
    (namespace key : String) (ttl : ℕ) (rows : List IdempotencyRow) (now : ℕ)
    → IsKeyed rows
    → get_row namespace key rows ≡ none
    → {s : Sys} → Reach namespace key ttl (init rows now) s
    → (i j : ℕ) → s.phase i ≡ settled true
    → s.phase j ≡ settled true
    → i ≡ j
one_winner namespace key ttl rows now k free run i j =
    (Reach-IsSound namespace key ttl run
        (init-IsSound namespace key ttl rows now k free)).claims.one
      i j

-- In every state that workers reach from a free key, a row that is still started bears the token
-- of exactly one worker: one that holds the claim.
pub one_holder :
    (namespace key : String) (ttl : ℕ) (rows : List IdempotencyRow) (now : ℕ)
    → IsKeyed rows
    → get_row namespace key rows ≡ none
    → {s : Sys} → Reach namespace key ttl (init rows now) s
    → (r : IdempotencyRow) → get_row namespace key s.rows ≡ some r
    → is_open r.state ≡ true
    → (i : ℕ) × (s.phase i ≡ holds r.claim_token)
      × ((j : ℕ) → s.phase j ≡ holds r.claim_token → i ≡ j)
one_holder namespace key ttl rows now k free run r found opened =
    let claims =
      (Reach-IsSound namespace key ttl run
        (init-IsSound namespace key ttl rows now k free)).claims in
    let (i, holder) = claims.current r found opened in
    (i, holder, λ j other. claims.distinct i j r.claim_token holder other)

module _ (namespace key : String) (ttl : ℕ) where
  module _ {s : Sys} (v : IsSound namespace key ttl s) (r : IdempotencyRow)
      (found : get_row namespace key s.rows ≡ some r) (closed : is_open r.state ≡ false) where
    settle-closed :
        (token : ℕ) (state : IdempotencyState) (result : Mapping)
        → get_row namespace key (settle_row namespace key token state result s.rows).1 ≡ some r
    settle-closed token state result =
        let (_, after, _) = settle_row-outcome namespace key token state result s.rows v.keyed in
        rw (after, found, closed) refl

    reclaim-closed :
        (i : ℕ) (seen : IdempotencyRow)
        → s.phase i ≡ saw (some seen)
        → get_row namespace key (reclaim_row seen.id seen.claim_token s.time s.drawn s.rows).1
          ≡ some r
    reclaim-closed i seen h =
        let (x, found_x, same, older, dated) = v.claims.seen i seen h in
        let (_, after, _) =
          reclaim_row-outcome namespace key seen s.time s.drawn s.rows v.keyed r found
            (ground arith) in
        rw (after, closed) refl

    create-closed :
        (i : ℕ) (rows : List IdempotencyRow)
        → insert_claim (claim_row namespace key ttl s) s.rows ≡ some rows
        → get_row namespace key rows ≡ some r
    create-closed i rows inserted =
        let (_, free, _) = insert_claim-eq-some (claim_row namespace key ttl s) s.rows inserted in
        let gone = get_row_free namespace key s.rows free in absurd (ground arith)

  Step-final :
      {s u : Sys}
      → Step namespace key ttl s u
      → IsSound namespace key ttl s
      → (r : IdempotencyRow) → get_row namespace key s.rows ≡ some r
      → is_open r.state ≡ false
      → get_row namespace key u.rows ≡ some r
  Step-final (ticks t later e) v r found closed = rw e found
  Step-final (looks i h e) v r found closed = rw e found
  Step-final (creates i rows h inserted e) v r found closed =
      rw e (create-closed v r found closed i rows inserted)
  Step-final (races i h inserted e) v r found closed = rw e found
  Step-final (reclaims i row h may e) v r found closed =
      rw e (reclaim-closed v r found closed i row h)
  Step-final (gives_up i row h may e) v r found closed = rw e found
  Step-final (settles i token state result h final e) v r found closed =
      rw e (settle-closed v r found closed token state result)

  Reach-final :
      {s u : Sys}
      → Reach namespace key ttl s u
      → IsSound namespace key ttl s
      → (r : IdempotencyRow) → get_row namespace key s.rows ≡ some r
      → is_open r.state ≡ false
      → get_row namespace key u.rows ≡ some r
  Reach-final here v r found closed = found
  Reach-final (next run st) v r found closed =
      Step-final st (Reach-IsSound namespace key ttl run v) r (Reach-final run v r found closed)
        closed

-- Once the claim on a key is settled, no statement of any worker, however late, changes its row:
-- state, result, instant and token stay as they are.
pub settled_final :
    (namespace key : String) (ttl : ℕ) (rows : List IdempotencyRow) (now : ℕ)
    → IsKeyed rows
    → get_row namespace key rows ≡ none
    → {s u : Sys} → Reach namespace key ttl (init rows now) s
    → (r : IdempotencyRow) → get_row namespace key s.rows ≡ some r
    → is_open r.state ≡ false
    → Reach namespace key ttl s u
    → get_row namespace key u.rows ≡ some r
settled_final namespace key ttl rows now k free before r found closed after =
    Reach-final namespace key ttl after
      (Reach-IsSound namespace key ttl before (init-IsSound namespace key ttl rows now k free)) r
      found closed
