-- ===== src/Database/Idempotency/Claims.antt =====
-- infrastructure/database/repositories/idempotency.py: what each statement does to the one row of
-- its key.
use nexabot.Prelude.{
  ℕ, ◌≡◌, refl, ap, ◌∙◌, String, Bool, true, false, ◌&&◌, Option, none, some, List, [], arith, ◌==◌,
  find, select, update_where, length, if◌then◌else◌, find-passes,
}
use nexabot.Prelude.Unique.{
  Unique, changed, matched, find-update_where, Unique-update_where, select-Unique,
  update_where_none, find-Unique,
}
use nexabot.Domain.Json.{Mapping}
use nexabot.Ports.Repositories.{IdempotencyState}
use nexabot.Database.Tables.{IdempotencyRow}
use nexabot.Database.Idempotency.Statements.{
  has_key, is_open, get_row, takes_over, reclaim_row, settles, settle_row,
}

abbrev pub has_id : ℕ → IdempotencyRow → Bool
has_id id r = r.id == id

-- The two unique constraints of the table.
pub record IsKeyed (rows : List IdempotencyRow) : Type 0 where
  pub keys : (namespace key : String) → Unique (has_key namespace key) rows
  pub ids : (id : ℕ) → Unique (has_id id) rows

abbrev pub settled_row : IdempotencyState → Mapping → IdempotencyRow → IdempotencyRow
settled_row state result r = record r { state = state; result = result }

abbrev pub reclaimed_row : ℕ → ℕ → IdempotencyRow → IdempotencyRow
reclaimed_row now token r = record r { claimed_at = now; claim_token = token }

-- What a settlement makes of the row of its key.
abbrev pub settle_outcome :
    ℕ → IdempotencyState → Mapping → Option IdempotencyRow → Bool × Option IdempotencyRow
settle_outcome token state result none = (false, none)
settle_outcome token state result (some r) =
    if is_open r.state && r.claim_token == token
    then (true, some (settled_row state result r))
    else (false, some r)

settles-narrow :
    (namespace key : String) (token : ℕ) (r : IdempotencyRow)
    → settles namespace key token r ≡ true
    → has_key namespace key r ≡ true
settles-narrow namespace key token r h = ground arith

-- A test for at most one row, as an UPDATE counts it.
count_matched :
    (p q : IdempotencyRow → Bool) (found : Option IdempotencyRow)
    → (length (matched q found) == 1) ≡ false
    → matched q found ≡ []
count_matched p q none h = refl
count_matched p q (some r) h = ground arith

module _ (p q : IdempotencyRow → Bool) (f : IdempotencyRow → IdempotencyRow)
    (narrow : (r : IdempotencyRow) → q r ≡ true → p r ≡ true) (rows : List IdempotencyRow)
    (u : Unique p rows) where
  -- An UPDATE that counts no row changes none.
  lost_update : (length (select q rows) == 1) ≡ false → update_where q f rows ≡ rows
  lost_update h =
      let e = select-Unique p q narrow rows u in
      update_where_none q f rows (e ∙ count_matched p q (find p rows) (rw e at h))

abbrev SameKeys : (IdempotencyRow → IdempotencyRow) → Type 0
SameKeys f =
    ((namespace key : String) (r : IdempotencyRow)
      → has_key namespace key (f r) ≡ has_key namespace key r)
    × ((id : ℕ) (r : IdempotencyRow) → has_id id (f r) ≡ has_id id r)

IsKeyed-update :
    (q : IdempotencyRow → Bool) (f : IdempotencyRow → IdempotencyRow) (rows : List IdempotencyRow)
    → SameKeys f
    → IsKeyed rows
    → IsKeyed (update_where q f rows)
IsKeyed-update q f rows same k = record {
  keys = λ namespace key.
      Unique-update_where (has_key namespace key) q f (same.0 namespace key) rows
        (k.keys namespace key);
  ids = λ id. Unique-update_where (has_id id) q f (same.1 id) rows (k.ids id);
}

module _ (namespace key : String) (token : ℕ) (state : IdempotencyState) (result : Mapping) where
  settle_matched :
      (found : Option IdempotencyRow)
      → ((r : IdempotencyRow) → found ≡ some r → has_key namespace key r ≡ true)
      → (length (matched (settles namespace key token) found) == 1)
        ≡ (settle_outcome token state result found).0
  settle_matched none h = refl
  settle_matched (some r) h = ground (arith, h r refl)

  settle_changed :
      (found : Option IdempotencyRow)
      → ((r : IdempotencyRow) → found ≡ some r → has_key namespace key r ≡ true)
      → changed (settles namespace key token) (settled_row state result) found
        ≡ (settle_outcome token state result found).1
  settle_changed none h = refl
  settle_changed (some r) h = ground (arith, h r refl)

  module _ (rows : List IdempotencyRow) (k : IsKeyed rows) where
    -- A settlement wins exactly if the row of its key is started and bears the token; then it
    -- writes the outcome into that row, and otherwise it changes nothing. The unique constraints
    -- stay.
    pub settle_row-outcome :
        ((settle_row namespace key token state result rows).0
          ≡ (settle_outcome token state result (get_row namespace key rows)).0)
        × (get_row namespace key (settle_row namespace key token state result rows).1
            ≡ (settle_outcome token state result (get_row namespace key rows)).1)
        × IsKeyed (settle_row namespace key token state result rows).1
    unfolding settle_row get_row
    settle_row-outcome = (
      ap (λ (l : List IdempotencyRow). length l == 1)
            (select-Unique (has_key namespace key) (settles namespace key token)
              (settles-narrow namespace key token) rows (k.keys namespace key))
          ∙ settle_matched (find (has_key namespace key) rows)
              (λ r. find-passes (has_key namespace key) rows r),
      find-update_where (has_key namespace key) (settles namespace key token)
            (settled_row state result) (λ r. refl) rows
          ∙ settle_changed (find (has_key namespace key) rows)
              (λ r. find-passes (has_key namespace key) rows r),
      IsKeyed-update (settles namespace key token) (settled_row state result) rows
          ((λ n k' r. refl), (λ i r. refl)) k,
    )

    pub settle_row_lost :
        (settle_row namespace key token state result rows).0 ≡ false
        → (settle_row namespace key token state result rows).1 ≡ rows
    unfolding settle_row
    settle_row_lost h =
        lost_update (has_key namespace key) (settles namespace key token) (settled_row state result)
          (settles-narrow namespace key token) rows (k.keys namespace key) h

-- What a takeover makes of the row of its key, given the row that was read.
abbrev pub reclaim_outcome : IdempotencyRow → ℕ → ℕ → IdempotencyRow → Bool × IdempotencyRow
reclaim_outcome seen now token r =
    if is_open r.state && r.claim_token == seen.claim_token
    then (true, reclaimed_row now token r)
    else (false, r)

takes_over-narrow :
    (id old : ℕ) (r : IdempotencyRow) → takes_over id old r ≡ true → has_id id r ≡ true
takes_over-narrow id old r h = ground arith

module _ (namespace key : String) (seen : IdempotencyRow) (now token : ℕ)
    (rows : List IdempotencyRow) (k : IsKeyed rows) (r : IdempotencyRow)
    (found : get_row namespace key rows ≡ some r) (same : r.id ≡ seen.id) where
  reclaim_found : find (has_id seen.id) rows ≡ some r
  unfolding get_row
  reclaim_found =
      find-Unique (has_key namespace key) (has_id seen.id) rows r found (ground arith)
        (k.ids seen.id)

  reclaim_matched :
      (length (matched (takes_over seen.id seen.claim_token) (some r)) == 1)
      ≡ (reclaim_outcome seen now token r).0
  reclaim_matched = ground arith

  reclaim_changed :
      changed (takes_over seen.id seen.claim_token) (reclaimed_row now token) (some r)
      ≡ some (reclaim_outcome seen now token r).1
  reclaim_changed = ground arith

  -- A takeover wins exactly if the row is still started and bears the token that was read; then
  -- it renews the claim, and otherwise it changes nothing. The unique constraints stay.
  pub reclaim_row-outcome :
      ((reclaim_row seen.id seen.claim_token now token rows).0
        ≡ (reclaim_outcome seen now token r).0)
      × (get_row namespace key (reclaim_row seen.id seen.claim_token now token rows).1
          ≡ some (reclaim_outcome seen now token r).1)
      × IsKeyed (reclaim_row seen.id seen.claim_token now token rows).1
  unfolding reclaim_row get_row
  reclaim_row-outcome = (
    ap (λ (l : List IdempotencyRow). length l == 1)
          (select-Unique (has_id seen.id) (takes_over seen.id seen.claim_token)
            (takes_over-narrow seen.id seen.claim_token) rows (k.ids seen.id))
        ∙ ap (λ o. length (matched (takes_over seen.id seen.claim_token) o) == 1) reclaim_found
        ∙ reclaim_matched,
    find-update_where (has_key namespace key) (takes_over seen.id seen.claim_token)
          (reclaimed_row now token) (λ x. refl) rows
        ∙ ap (changed (takes_over seen.id seen.claim_token) (reclaimed_row now token)) found
        ∙ reclaim_changed,
    IsKeyed-update (takes_over seen.id seen.claim_token) (reclaimed_row now token) rows
        ((λ n k' x. refl), (λ i x. refl)) k,
  )
