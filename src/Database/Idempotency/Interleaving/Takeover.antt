-- ===== src/Database/Idempotency/Interleaving/Takeover.antt =====
-- A claim changes hands only after its time to live.
use nexabot.Prelude.{ℕ, ◌≡◌, ◌≢◌, refl, sym, ◌∙◌, String, true, none, some, List, arith, ap}
use nexabot.Database.Tables.{IdempotencyRow}
use nexabot.Ports.Repositories.{IdempotencyState}
use nexabot.Domain.Json.{Mapping}
use nexabot.Database.Idempotency.Statements.{
  get_row, insert_claim, is_expired, reclaim_row, settle_row,
}
use nexabot.Database.Idempotency.Claims.{
  IsKeyed, settle_outcome, settle_row-outcome, reclaim_outcome, reclaim_row-outcome,
}
use nexabot.Database.Idempotency.Inserting.{insert_claim-eq-some, get_row_free}
use nexabot.Database.Idempotency.Interleaving.{
  saw, Sys, claim_row, may_take, Step, ticks, looks, creates, races, reclaims, gives_up, settles,
  init, Reach,
}
use nexabot.Database.Idempotency.Interleaving.Keeps.{IsSound, init-IsSound, Reach-IsSound}

-- The expiry depends on the instant of the claim only.
is_expired-cong :
    (ttl now : ℕ) (r r' : IdempotencyRow)
    → r.claimed_at ≡ r'.claimed_at
    → is_expired ttl now r ≡ is_expired ttl now r'
unfolding is_expired
is_expired-cong ttl now r r' e = rw e refl

settle_outcome-token :
    (token : ℕ) (state : IdempotencyState) (result : Mapping) (r r' : IdempotencyRow)
    → (settle_outcome token state result (some r)).1 ≡ some r'
    → r'.claim_token ≡ r.claim_token
settle_outcome-token token state result r r' e = ground arith

reclaim_outcome-token :
    (seen : IdempotencyRow) (now token : ℕ) (r : IdempotencyRow)
    → (reclaim_outcome seen now token r).1.claim_token ≢ r.claim_token
    → r.claim_token ≡ seen.claim_token
reclaim_outcome-token seen now token r changes = ground arith

module _ (namespace key : String) (ttl : ℕ) {s : Sys} (v : IsSound namespace key ttl s)
    (r r' : IdempotencyRow) (found : get_row namespace key s.rows ≡ some r)
    (changes : r'.claim_token ≢ r.claim_token) where
  settle_keeps :
      (token : ℕ) (state : IdempotencyState) (result : Mapping)
      → get_row namespace key (settle_row namespace key token state result s.rows).1 ≢ some r'
  settle_keeps token state result after' =
      let (_, after, _) = settle_row-outcome namespace key token state result s.rows v.keyed in
      changes (
        settle_outcome-token token state result r r'
          (ap (λ o. (settle_outcome token state result o).1) (sym found) ∙ sym after ∙ after'))

  reclaim_expired :
      (i : ℕ) (seen : IdempotencyRow)
      → s.phase i ≡ saw (some seen)
      → may_take namespace key ttl s.time seen ≡ true
      → get_row namespace key (reclaim_row seen.id seen.claim_token s.time s.drawn s.rows).1
        ≡ some r'
      → is_expired ttl s.time r ≡ true
  reclaim_expired i seen h may after' =
      let (x, found_x, same, older, dated) = v.claims.seen i seen h in
      let (_, after, _) =
        reclaim_row-outcome namespace key seen s.time s.drawn s.rows v.keyed r found
          (ground arith) in
      let bears = reclaim_outcome-token seen s.time s.drawn r (ground arith) in
      let dates = dated (ground arith) in
      rw (is_expired-cong ttl s.time r seen (ground arith)) (ground arith)

  create_absurd :
      (rows : List IdempotencyRow) → insert_claim (claim_row namespace key ttl s) s.rows ≢ some rows
  create_absurd rows inserted =
      let (_, free, _) = insert_claim-eq-some (claim_row namespace key ttl s) s.rows inserted in
      let gone = get_row_free namespace key s.rows free in absurd (ground arith)

  Step-expired :
      {u : Sys}
      → Step namespace key ttl s u
      → get_row namespace key u.rows ≡ some r'
      → is_expired ttl s.time r ≡ true
  Step-expired (ticks t later e) after = absurd (ground arith)
  Step-expired (looks i h e) after = absurd (ground arith)
  Step-expired (creates i rows h inserted e) after = absurd (create_absurd rows inserted)
  Step-expired (races i h inserted e) after = absurd (ground arith)
  Step-expired (reclaims i row h may e) after =
      reclaim_expired i row h may (ap (λ (x : Sys). get_row namespace key x.rows) (sym e) ∙ after)
  Step-expired (gives_up i row h may e) after = absurd (ground arith)
  Step-expired (settles i token state result h final e) after = absurd (
      settle_keeps token state result
        (ap (λ (x : Sys). get_row namespace key x.rows) (sym e) ∙ after))

-- In a state that workers reach from a free key, a statement that gives the row of the key another
-- token finds the claim that is there at least as old as its time to live, although the worker
-- decided on what it had read before.
pub takeover_expired :
    (namespace key : String) (ttl : ℕ) (rows : List IdempotencyRow) (now : ℕ)
    → IsKeyed rows
    → get_row namespace key rows ≡ none
    → {s u : Sys} → Reach namespace key ttl (init rows now) s
    → Step namespace key ttl s u
    → (r r' : IdempotencyRow) → get_row namespace key s.rows ≡ some r
    → get_row namespace key u.rows ≡ some r'
    → r'.claim_token ≢ r.claim_token
    → is_expired ttl s.time r ≡ true
takeover_expired namespace key ttl rows now k free before step r r' found after changes =
    Step-expired namespace key ttl
      (Reach-IsSound namespace key ttl before (init-IsSound namespace key ttl rows now k free)) r r'
      found changes step after
