-- ===== src/Database/Idempotency/Interleaving/Keeps.antt =====
-- Every statement of the interleaved workers keeps their invariant.
use nexabot.Prelude.{
  ℕ, ◌+◌, ◌≤◌, ◌≡◌, refl, inl, inr, String, Bool, true, false, ◌&&◌, Option, none, some, List, ◌==◌,
  if◌then◌else◌, arith,
}
use nexabot.Domain.Json.{Mapping}
use nexabot.Ports.Repositories.{IdempotencyState}
use nexabot.Database.Tables.{IdempotencyRow}
use nexabot.Database.Idempotency.Statements.{
  is_open, get_row, insert_claim, reclaim_row, settle_row,
}
use nexabot.Database.Idempotency.Claims.{
  IsKeyed, settle_outcome, settle_row-outcome, reclaim_outcome, reclaim_row-outcome, reclaimed_row,
  settled_row,
}
use nexabot.Database.Idempotency.Inserting.{insert_claim-eq-some, insert_claim_free, get_row_free}
use nexabot.Database.Idempotency.Interleaving.{
  idle, saw, holds, refused, settled, Sys, update, claim_row, after_race, Step, ticks, looks,
  creates, races, reclaims, gives_up, settles, init, Reach, here, next,
}
use nexabot.Database.Idempotency.Interleaving.Holding.{
  Snapshot, Inv, move-Inv, claim-Inv, win-Inv, lose-Inv,
}

module _ (namespace key : String) (ttl : ℕ) where
  -- The invariant of the whole system: the constraints of the table, and the claims on the key.
  pub record IsSound (s : Sys) : Type 0 where
    pub keyed : IsKeyed s.rows
    pub claims : Inv (get_row namespace key s.rows) s.drawn s.phase

  pub init-IsSound :
      (rows : List IdempotencyRow) (now : ℕ)
      → IsKeyed rows
      → get_row namespace key rows ≡ none
      → IsSound (init rows now)
  init-IsSound rows now k free = record {
    keyed = k;
    claims = record {
      row_token = λ r e. absurd (ground arith);
      seen = λ i row e. absurd (ground arith);
      held = λ i t e. absurd (ground arith);
      distinct = λ i j t e f. absurd (ground arith);
      current = λ r e o. absurd (ground arith);
      won = λ i e. absurd (ground arith);
      one = λ i j e f. absurd (ground arith);
    };
  }

  module _ {s : Sys} (v : IsSound s) where
    abbrev row : Option IdempotencyRow
    row = get_row namespace key s.rows

    read : (x : IdempotencyRow) (drawn : ℕ) → row ≡ some x → s.drawn ≤ drawn → Snapshot row drawn x
    read x drawn e grows = (x, e, refl, omega (arith, v.claims.row_token x e), λ _. refl)

    creates-IsSound :
        (i : ℕ) (rows : List IdempotencyRow)
        → s.phase i ≡ saw none
        → insert_claim (claim_row namespace key ttl s) s.rows ≡ some rows
        → IsSound (record s {
          rows = rows;
          drawn = s.drawn + 2;
          phase = update s.phase i (holds s.drawn);
        })
    creates-IsSound i rows h inserted =
        let (fresh, free, made) =
          insert_claim-eq-some (claim_row namespace key ttl s) s.rows inserted in
        let (_, found, keyed) =
          insert_claim_free (claim_row namespace key ttl s) s.rows v.keyed free fresh in
        record {
          keyed = rw made keyed;
          claims =
              rw (made, found)
                (claim-Inv v.claims i (s.drawn + 2) (claim_row namespace key ttl s) (omega arith)
                  refl (inl (get_row_free namespace key s.rows free)));
        }

    races-IsSound :
        (i : ℕ)
        → s.phase i ≡ saw none
        → IsSound (record s {
          drawn = s.drawn + 2;
          phase = update s.phase i (after_race namespace key ttl row);
        })
    races-IsSound i h = record {
      keyed = v.keyed;
      claims =
          move-Inv v.claims i (s.drawn + 2) (after_race namespace key ttl row) (omega arith)
            (λ t e. ground arith) (λ t e. ground arith) (λ e. ground arith) (λ x e. raced x e);
    }
      where
        raced :
            (x : IdempotencyRow)
            → after_race namespace key ttl row ≡ saw (some x)
            → Snapshot row (s.drawn + 2) x
        raced x e = read x (s.drawn + 2) (ground arith) (omega arith)

    gives_up-IsSound :
        (i : ℕ) (seen : IdempotencyRow)
        → s.phase i ≡ saw (some seen)
        → IsSound (record s { phase = update s.phase i refused })
    gives_up-IsSound i seen h = record {
      keyed = v.keyed;
      claims =
          move-Inv v.claims i s.drawn refused (omega arith) (λ t e. ground arith)
            (λ t e. ground arith) (λ e. ground arith) (λ x e. absurd (ground arith));
    }

    looks-IsSound :
        (i : ℕ) → s.phase i ≡ idle → IsSound (record s { phase = update s.phase i (saw row) })
    looks-IsSound i h = record {
      keyed = v.keyed;
      claims =
          move-Inv v.claims i s.drawn (saw row) (omega arith) (λ t e. ground arith)
            (λ t e. ground arith) (λ e. ground arith)
            (λ x e. read x s.drawn (ground arith) (omega arith));
    }

    reclaims-IsSound :
        (i : ℕ) (seen : IdempotencyRow)
        → s.phase i ≡ saw (some seen)
        → IsSound (record s {
          rows = (reclaim_row seen.id seen.claim_token s.time s.drawn s.rows).1;
          drawn = s.drawn + 1;
          phase = update s.phase i (
              if (reclaim_row seen.id seen.claim_token s.time s.drawn s.rows).0
              then holds s.drawn
              else refused);
        })
    reclaims-IsSound i seen h =
        let (r, found, same, older, dated) = v.claims.seen i seen h in
        let (won, after, keyed) =
          reclaim_row-outcome namespace key seen s.time s.drawn s.rows v.keyed r found same in
        record {
          keyed = keyed;
          claims =
              rw (after, won)
                (taken r found same (is_open r.state && r.claim_token == seen.claim_token) refl);
        }
      where
        taken :
            (r : IdempotencyRow)
            → row ≡ some r
            → r.id ≡ seen.id
            → (b : Bool) → (is_open r.state && r.claim_token == seen.claim_token) ≡ b
            → Inv (some (reclaim_outcome seen s.time s.drawn r).1) (s.drawn + 1) (
                update s.phase i
                  (if (reclaim_outcome seen s.time s.drawn r).0 then holds s.drawn else refused))
        taken r found same true e = rw e (
            claim-Inv v.claims i (s.drawn + 1) (reclaimed_row s.time s.drawn r) (omega arith) refl
              (inr (r, found, ground arith, refl)))
        taken r found same false e =
            rw (e, ← found)
              (move-Inv v.claims i (s.drawn + 1) refused (omega arith) (λ t e'. ground arith)
                (λ t e'. ground arith) (λ e'. ground arith) (λ x e'. absurd (ground arith)))

    settles-IsSound :
        (i token : ℕ) (state : IdempotencyState) (result : Mapping)
        → s.phase i ≡ holds token
        → is_open state ≡ false
        → IsSound (record s {
          rows = (settle_row namespace key token state result s.rows).1;
          phase = update s.phase i (settled (settle_row namespace key token state result s.rows).0);
        })
    settles-IsSound i token state result h final =
        let (won, after, keyed) =
          settle_row-outcome namespace key token state result s.rows v.keyed in
        record { keyed = keyed; claims = rw (after, won) (ended row refl) }
      where
        split :
            (r : IdempotencyRow)
            → row ≡ some r
            → (b : Bool) → (is_open r.state && r.claim_token == token) ≡ b
            → Inv
                (settle_outcome token state result (some r)).1
                s.drawn
                (update s.phase i (settled (settle_outcome token state result (some r)).0))
        split r e true test = rw test (
            win-Inv v.claims i token r (settled_row state result r) h e (ground arith) refl refl
              refl final)
        split r e false test = rw (test, ← e) (lose-Inv v.claims i token h (λ x f o. ground arith))

        ended :
            (found : Option IdempotencyRow)
            → row ≡ found
            → Inv
                (settle_outcome token state result found).1
                s.drawn
                (update s.phase i (settled (settle_outcome token state result found).0))
        ended none e = rw (← e) (lose-Inv v.claims i token h (λ r f o. absurd (ground arith)))
        ended (some r) e = split r e (is_open r.state && r.claim_token == token) refl

  pub Step-IsSound : {s u : Sys} → Step namespace key ttl s u → IsSound s → IsSound u
  Step-IsSound (ticks t later e) v = rw e (record { keyed = v.keyed; claims = v.claims })
  Step-IsSound (looks i h e) v = rw e (looks-IsSound v i h)
  Step-IsSound (creates i rows h inserted e) v = rw e (creates-IsSound v i rows h inserted)
  Step-IsSound (races i h inserted e) v = rw e (races-IsSound v i h)
  Step-IsSound (reclaims i row h may e) v = rw e (reclaims-IsSound v i row h)
  Step-IsSound (gives_up i row h may e) v = rw e (gives_up-IsSound v i row h)
  Step-IsSound (settles i token state result h final e) v =
      rw e (settles-IsSound v i token state result h final)

  pub Reach-IsSound : {s u : Sys} → Reach namespace key ttl s u → IsSound s → IsSound u
  Reach-IsSound here v = v
  Reach-IsSound (next r st) v = Step-IsSound st (Reach-IsSound r v)
