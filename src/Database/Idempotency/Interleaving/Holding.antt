-- ===== src/Database/Idempotency/Interleaving/Holding.antt =====
-- The invariant of the interleaved workers: who holds, has seen or has settled the claim, and what
-- each kind of change keeps of it.
use nexabot.Prelude.{
  ℕ, ◌≤◌, ◌<◌, ◌≡◌, ◌≢◌, refl, ◌⊎◌, inl, inr, true, false, Option, none, some, ◌==◌, arith,
  Bool-cases,
}
use nexabot.Database.Tables.{IdempotencyRow}
use nexabot.Database.Idempotency.Statements.{is_open}
use nexabot.Database.Idempotency.Interleaving.{Phase, saw, holds, settled, update}

-- What a worker has read may be stale, but it is an earlier state of the same row: while the token
-- is the same, so is the instant of the claim.
abbrev pub Snapshot : Option IdempotencyRow → ℕ → IdempotencyRow → Type 0
Snapshot found drawn row =
    (r : IdempotencyRow) × (found ≡ some r)
    × (r.id ≡ row.id)
    × (row.claim_token < drawn)
    × (r.claim_token ≡ row.claim_token → r.claimed_at ≡ row.claimed_at)

-- The claims on the row of the key, as the workers hold them.
pub record Inv (found : Option IdempotencyRow) (drawn : ℕ) (phase : ℕ → Phase) : Type 0 where
  pub row_token : (r : IdempotencyRow) → found ≡ some r → r.claim_token < drawn
  pub seen : (i : ℕ) (row : IdempotencyRow) → phase i ≡ saw (some row) → Snapshot found drawn row
  pub held : (i t : ℕ) → phase i ≡ holds t → t < drawn
  pub distinct : (i j t : ℕ) → phase i ≡ holds t → phase j ≡ holds t → i ≡ j
  pub current :
      (r : IdempotencyRow)
      → found ≡ some r
      → is_open r.state ≡ true
      → (i : ℕ) × (phase i ≡ holds r.claim_token)
  pub won :
      (i : ℕ)
      → phase i ≡ settled true
      → (r : IdempotencyRow) × (found ≡ some r) × (is_open r.state ≡ false)
  pub one : (i j : ℕ) → phase i ≡ settled true → phase j ≡ settled true → i ≡ j

module _ {found : Option IdempotencyRow} {drawn : ℕ} {phase : ℕ → Phase}
    (v : Inv found drawn phase) where
  -- While the row is started nobody has won.
  unwon :
      (r : IdempotencyRow)
      → found ≡ some r
      → is_open r.state ≡ true
      → (j : ℕ) → phase j ≢ settled true
  unwon r found_r opened j e = let (x, found_x, closed) = v.won j e in absurd (ground arith)

  -- A worker with no claim moves to a phase with neither a claim nor a victory; the row stays.
  pub move-Inv :
      (i drawn' : ℕ) (q : Phase)
      → drawn ≤ drawn'
      → ((t : ℕ) → phase i ≢ holds t)
      → ((t : ℕ) → q ≢ holds t)
      → q ≢ settled true
      → ((row : IdempotencyRow) → q ≡ saw (some row) → Snapshot found drawn' row)
      → Inv found drawn' (update phase i q)
  move-Inv i drawn' q grows old unheld unwon snapshot = record {
    row_token = λ r e. omega (arith, v.row_token r e);
    seen = λ j row e. elim (Bool-cases (i == j)) [
      | inl same ↦ snapshot row (ground arith)
      | inr differs ↦
          let (r, found_r, id, older, dated) = v.seen j row (ground arith) in
          (r, found_r, id, omega arith, dated)
    ];
    held = λ j t e. ground (arith, v.held j t, unheld t);
    distinct = λ j k t e f. ground (arith, v.distinct j k t, unheld t);
    current = λ r e o. let (j, q') = v.current r e o in (j, ground (arith, old r.claim_token));
    won = λ j e. v.won j (ground arith);
    one = λ j k e f. ground (arith, v.one j k);
  }

  -- A worker obtains the claim: the row bears its fresh token.
  pub claim-Inv :
      (i drawn' : ℕ) (r' : IdempotencyRow)
      → drawn < drawn'
      → r'.claim_token ≡ drawn
      → (found ≡ none)
        ⊎ ((r : IdempotencyRow) × (found ≡ some r) × (is_open r.state ≡ true) × (r'.id ≡ r.id))
      → Inv (some r') drawn' (update phase i (holds drawn))
  claim-Inv i drawn' r' grows bears before = record {
    row_token = λ r e. ground arith;
    seen = λ j row e.
        let (r, found_r, same, older, dated) = v.seen j row (ground arith) in
        (r', refl, ground arith, omega arith, λ e'. absurd (omega arith));
    held = λ j t e. ground (arith, v.held j t);
    distinct = λ j k t e f. ground (arith, v.distinct j k t, v.held j t, v.held k t);
    current = λ r e o. (i, ground arith);
    won = λ j e. let (r, found_r, closed) = v.won j (ground arith) in absurd (ground arith);
    one = λ j k e f. let (r, found_r, closed) = v.won j (ground arith) in absurd (ground arith);
  }

  -- The holder of the current claim settles it.
  pub win-Inv :
      (i t : ℕ) (r r' : IdempotencyRow)
      → phase i ≡ holds t
      → found ≡ some r
      → is_open r.state ≡ true
      → r'.id ≡ r.id
      → r'.claim_token ≡ r.claim_token
      → r'.claimed_at ≡ r.claimed_at
      → is_open r'.state ≡ false
      → Inv (some r') drawn (update phase i (settled true))
  win-Inv i t r r' h found_r opened same bears dates closed = record {
    row_token = λ x e. ground (arith, v.row_token r found_r);
    seen = λ j row e.
        let (x, found_x, same_x, older, dated) = v.seen j row (ground arith) in
        (r', refl, ground arith, older, λ e'. ground (arith, dated));
    held = λ j u e. ground (arith, v.held j u);
    distinct = λ j k u e f. ground (arith, v.distinct j k u);
    current = λ x e o. absurd (ground arith);
    won = λ j e. (r', refl, closed);
    one = λ j k e f. ground (arith, unwon r found_r opened j, unwon r found_r opened k);
  }

  -- A holder whose claim is no longer current is refused.
  pub lose-Inv :
      (i t : ℕ)
      → phase i ≡ holds t
      → ((r : IdempotencyRow) → found ≡ some r → is_open r.state ≡ true → r.claim_token ≢ t)
      → Inv found drawn (update phase i (settled false))
  lose-Inv i t h stale = record {
    row_token = v.row_token;
    seen = λ j row e. v.seen j row (ground arith);
    held = λ j u e. ground (arith, v.held j u);
    distinct = λ j k u e f. ground (arith, v.distinct j k u);
    current = λ r e o. let (j, q) = v.current r e o in (j, ground (arith, stale r e o));
    won = λ j e. v.won j (ground arith);
    one = λ j k e f. ground (arith, v.one j k);
  }
