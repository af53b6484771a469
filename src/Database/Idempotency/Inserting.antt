-- ===== src/Database/Idempotency/Inserting.antt =====
-- infrastructure/database/repositories/idempotency.py: what the INSERT of a claim does.
use nexabot.Prelude.{
  ℕ, ◌≡◌, refl, ◌∙◌, String, Bool, true, false, ◌||◌, none, some, List, [], ◌∷◌, ◌++◌, arith, any,
  eq_iff, if◌then◌else◌, find-append_none, Bool-cases, inl, inr,
}
use nexabot.Prelude.Unique.{Unique, Unique-append, Unique-append_other, find-none-any, any-or}
use mathlib.Core.Path.{subst, subst₂}
use text.Mathlib.TextPositions.{eq_refl}
use nexabot.Database.Tables.{IdempotencyRow}
use nexabot.Database.Idempotency.Statements.{has_key, get_row, insert_claim}
use nexabot.Database.Idempotency.Claims.{IsKeyed, has_id}

-- The INSERT of a claim.
module _ (row : IdempotencyRow) (rows : List IdempotencyRow) where
  abbrev key_taken : Bool
  key_taken = any (has_key row.namespace row.key) rows

  abbrev id_taken : Bool
  id_taken = any (has_id row.id) rows

  insert_claim_lem :
      insert_claim row rows ≡ (if id_taken || key_taken then none else some (rows ++ row ∷ []))
  unfolding insert_claim
  insert_claim_lem = rw (any-or (has_id row.id) (has_key row.namespace row.key) rows) refl

  pub insert_claim-eq-some :
      {rows' : List IdempotencyRow}
      → insert_claim row rows ≡ some rows'
      → (id_taken ≡ false) × (key_taken ≡ false) × (rows' ≡ rows ++ row ∷ [])
  insert_claim-eq-some h = ground (arith, insert_claim_lem)

  module _ (k : IsKeyed rows) (free : key_taken ≡ false) (fresh : id_taken ≡ false) where
    same_key :
        (namespace key : String)
        → has_key namespace key row ≡ true
        → any (has_key namespace key) rows ≡ false
    same_key namespace key h =
        let n : row.namespace ≡ namespace = (eq_iff row.namespace namespace).0 (ground arith) in
        let e : row.key ≡ key = (eq_iff row.key key).0 (ground arith) in
        subst₂ (λ a b. any (has_key a b) rows ≡ false) n e free

    same_id : (id : ℕ) → has_id id row ≡ true → any (has_id id) rows ≡ false
    same_id id h =
        let e : row.id ≡ id = ground arith in subst (λ a. any (has_id a) rows ≡ false) e fresh

    keys_of_insert : (namespace key : String) → Unique (has_key namespace key) (rows ++ row ∷ [])
    keys_of_insert namespace key = elim (Bool-cases (has_key namespace key row)) [
      | inl same ↦
          Unique-append (has_key namespace key) rows row (k.keys namespace key)
            (same_key namespace key same)
      | inr differs ↦
          Unique-append_other (has_key namespace key) rows row (k.keys namespace key) differs
    ]

    ids_of_insert : (id : ℕ) → Unique (has_id id) (rows ++ row ∷ [])
    ids_of_insert id = elim (Bool-cases (has_id id row)) [
      | inl same ↦ Unique-append (has_id id) rows row (k.ids id) (same_id id same)
      | inr differs ↦ Unique-append_other (has_id id) rows row (k.ids id) differs
    ]

    own_key : has_key row.namespace row.key row ≡ true
    own_key = ground (arith, eq_refl row.namespace, eq_refl row.key)

    -- A claim for a free key, under a fresh id, is stored, found by its key, and keeps the unique
    -- constraints.
    pub insert_claim_free :
        (insert_claim row rows ≡ some (rows ++ row ∷ []))
        × (get_row row.namespace row.key (rows ++ row ∷ []) ≡ some row)
        × IsKeyed (rows ++ row ∷ [])
    unfolding get_row
    insert_claim_free = (
      insert_claim_lem ∙ rw (fresh, free) refl,
      find-append_none (has_key row.namespace row.key) rows (row ∷ [])
            (find-none-any (has_key row.namespace row.key) rows free)
          ∙ rw own_key refl,
      record { keys = keys_of_insert; ids = ids_of_insert },
    )

pub get_row_free :
    (namespace key : String) (rows : List IdempotencyRow)
    → any (has_key namespace key) rows ≡ false
    → get_row namespace key rows ≡ none
unfolding get_row
get_row_free namespace key rows free = find-none-any (has_key namespace key) rows free
