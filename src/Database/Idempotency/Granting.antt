-- ===== src/Database/Idempotency/Granting.antt =====
-- infrastructure/database/repositories/idempotency.py: what `start` grants.
use nexabot.Prelude.{
  subst, sym, any, ℕ, ◌+◌, ◌≡◌, refl, ap, ◌∙◌, ◌⊎◌, inl, inr, String, true, false, Option, none,
  some, List, arith, Bool-cases,
}
use nexabot.Domain.Json.{end}
use nexabot.Ports.Repositories.{IdempotencyState, started, completed, failed, IdempotencyRecord}
use nexabot.Database.Tables.{IdempotencyRow}
use nexabot.Database.World.{World, utc_now, uuid4}
use nexabot.Database.Idempotency.{
  reclaim_if_expired, claim_existing, claim_raced, after_insert, create_claim, claim_or_create,
  start,
}
use nexabot.Database.Idempotency.Statements.{
  has_key, get_row, insert_claim, reclaim_row, is_open, is_expired,
}
use nexabot.Database.Idempotency.Claims.{has_id, IsKeyed, reclaim_row-outcome, reclaimed_row}
use nexabot.Database.Idempotency.Inserting.{get_row_free, insert_claim-eq-some, insert_claim_free}
use nexabot.Exec.{Result, ok, err}

-- What `start` has answered and done: the caller owns a started row that bears the caller's token,
-- or owns nothing and has changed nothing.
abbrev pub IsGrant :
    String → String → List IdempotencyRow → Result IdempotencyRecord × World → Type 0
IsGrant namespace key before (ok answer, w') =
    ((answer.owned ≡ true)
      × (r : IdempotencyRow) × (get_row namespace key w'.db.idempotency_records ≡ some r)
      × (is_open r.state ≡ true)
      × (answer.claim_token ≡ some r.claim_token))
    ⊎ ((answer.owned ≡ false) × (answer.claim_token ≡ none) × (w'.db.idempotency_records ≡ before))
IsGrant namespace key before (err e, w') = w'.db.idempotency_records ≡ before

module _ (namespace key : String) (ttl : ℕ) (w : World) (k : IsKeyed w.db.idempotency_records) where
  module _ (row : IdempotencyRow)
      (found : get_row namespace key w.db.idempotency_records ≡ some row)
      (opened : is_open row.state ≡ true) where
    retaken :
        (now token : ℕ)
        → ((reclaim_row row.id row.claim_token now token w.db.idempotency_records).0 ≡ true)
          × (get_row namespace key
                (reclaim_row row.id row.claim_token now token w.db.idempotency_records).1
              ≡ some (reclaimed_row now token row))
    retaken now token =
        let (won, after, _) =
          reclaim_row-outcome namespace key row now token w.db.idempotency_records k row found
            refl in
        (ground (arith, won), ground (arith, after))

  existing-IsGrant :
      (row : IdempotencyRow)
      → get_row namespace key w.db.idempotency_records ≡ some row
      → (state : IdempotencyState) → row.state ≡ state
      → IsGrant namespace key w.db.idempotency_records (claim_existing row ttl w)
  unfolding claim_existing reclaim_if_expired utc_now uuid4 is_expired
  existing-IsGrant row found completed e = rw e (inr (refl, refl, refl))
  existing-IsGrant row found failed e = rw e (inr (refl, refl, refl))
  existing-IsGrant row found started e =
      let opened : is_open row.state ≡ true = ap is_open e in
      elim (Bool-cases (is_expired ttl (w.host.clock w.reads) row)) [
        | inl old ↦
            let (won, after) =
              retaken row found opened (w.host.clock (w.reads + 1)) (w.host.uuid w.drawn) in
            rw (e, old, won)
              (inl (
                refl,
                reclaimed_row (w.host.clock (w.reads + 1)) (w.host.uuid w.drawn) row,
                after,
                opened,
                refl,
              ))
        | inr young ↦ rw (e, young) (inr (refl, refl, refl))
      ]

  raced-IsGrant :
      (raced : Option IdempotencyRow)
      → get_row namespace key w.db.idempotency_records ≡ raced
      → IsGrant namespace key w.db.idempotency_records (claim_raced namespace ttl raced w)
  raced-IsGrant none found = refl
  raced-IsGrant (some row) found = existing-IsGrant row found row.state refl

-- The world after the draws of `create_claim`, and the row that it inserts.
abbrev claiming : World → World
claiming w = record w { drawn = w.drawn + 1 + 1; reads = w.reads + 1 }

abbrev new_claim : String → String → World → IdempotencyRow
new_claim namespace key w = record {
  id = w.host.uuid (w.drawn + 1);
  namespace = namespace;
  key = key;
  state = started;
  result = end;
  claimed_at = w.host.clock w.reads;
  claim_token = w.host.uuid w.drawn;
}

module _ (namespace key : String) (ttl : ℕ) (w : World) (k : IsKeyed w.db.idempotency_records) where
  inserted-IsGrant :
      (inserted : Option (List IdempotencyRow))
      → insert_claim (new_claim namespace key w) w.db.idempotency_records ≡ inserted
      → IsGrant namespace key w.db.idempotency_records
          (after_insert namespace key ttl (w.host.uuid w.drawn) inserted (claiming w))
  unfolding after_insert
  inserted-IsGrant none e =
      raced-IsGrant namespace key ttl (claiming w) k
        (get_row namespace key w.db.idempotency_records) refl
  inserted-IsGrant (some rows) e =
      let (fresh, free, made) =
        insert_claim-eq-some (new_claim namespace key w) w.db.idempotency_records e in
      let (_, found, _) =
        insert_claim_free (new_claim namespace key w) w.db.idempotency_records k free fresh in
      inl (refl, new_claim namespace key w, ap (get_row namespace key) made ∙ found, refl, refl)

  create-IsGrant : IsGrant namespace key w.db.idempotency_records (create_claim namespace key ttl w)
  unfolding create_claim utc_now uuid4
  create-IsGrant =
      inserted-IsGrant (insert_claim (new_claim namespace key w) w.db.idempotency_records) refl

  chosen-IsGrant :
      (found : Option IdempotencyRow)
      → get_row namespace key w.db.idempotency_records ≡ found
      → IsGrant namespace key w.db.idempotency_records (claim_or_create namespace key ttl found w)
  chosen-IsGrant none e = create-IsGrant
  chosen-IsGrant (some row) e = existing-IsGrant namespace key ttl w k row e row.state refl

  -- Whoever holds the key and however old the claim is, `start` either grants the claim, and then
  -- the row of the key is started and bears the token that the caller was given, or grants
  -- nothing, and then it has changed nothing; it raises only with the table unchanged.
  pub start-IsGrant : IsGrant namespace key w.db.idempotency_records (start namespace key ttl w)
  unfolding start
  start-IsGrant = chosen-IsGrant (get_row namespace key w.db.idempotency_records) refl

-- The key is free and the UUID for its row is fresh, or its claim is started and has expired.
abbrev pub IsAvailable : String → String → ℕ → World → Type 0
IsAvailable namespace key ttl w =
    ((any (has_key namespace key) w.db.idempotency_records ≡ false)
      × (any (has_id (w.host.uuid (w.drawn + 1))) w.db.idempotency_records ≡ false))
    ⊎ ((row : IdempotencyRow) × (get_row namespace key w.db.idempotency_records ≡ some row)
        × (row.state ≡ started)
        × (is_expired ttl (w.host.clock w.reads) row ≡ true))

abbrev pub IsOwned : Result IdempotencyRecord × World → Type 0
IsOwned (ok answer, w') = answer.owned ≡ true
IsOwned (err e, w') = ⊥

module _ (namespace key : String) (ttl : ℕ) (w : World) (k : IsKeyed w.db.idempotency_records) where
  retaken-IsOwned :
      (row : IdempotencyRow)
      → get_row namespace key w.db.idempotency_records ≡ some row
      → row.state ≡ started
      → is_expired ttl (w.host.clock w.reads) row ≡ true
      → IsOwned (claim_existing row ttl w)
  unfolding claim_existing reclaim_if_expired utc_now uuid4 is_expired
  retaken-IsOwned row found e old =
      let (won, _) =
        retaken namespace key ttl w k row found (ap is_open e) (w.host.clock (w.reads + 1))
          (w.host.uuid w.drawn) in
      rw (e, old, won) refl

  -- Where the table respects its unique constraints, a caller that finds the key free, with a fresh
  -- UUID for its row, or that finds its claim expired, gets the claim.
  pub start-IsOwned : IsAvailable namespace key ttl w → IsOwned (start namespace key ttl w)
  unfolding start create_claim after_insert utc_now uuid4
  start-IsOwned (inl (free, fresh)) =
      let none_found = get_row_free namespace key w.db.idempotency_records free in
      let (inserted, _, _) =
        insert_claim_free (new_claim namespace key w) w.db.idempotency_records k free fresh in
      subst (λ o. IsOwned (claim_or_create namespace key ttl o w)) (sym none_found)
        (subst (λ o. IsOwned (after_insert namespace key ttl (w.host.uuid w.drawn) o (claiming w)))
          (sym inserted) refl)
  start-IsOwned (inr (row, found, e, old)) =
      subst (λ o. IsOwned (claim_or_create namespace key ttl o w)) (sym found)
        (retaken-IsOwned row found e old)
