-- ===== src/Migrations/Chain.antt =====
-- src/migrations: the chain of revisions, up and down, beside any other tables.
use nexabot.Prelude.{
  String, ◌≡◌, refl, ap, ◌∙◌, Bool, Bool-cases, inl, inr, true, false, ◌&&◌, Option, none, some,
  List, [], ◌∷◌, ◌++◌, All, any, str_eq, eq_iff, arith,
}
use nexabot.Migrations.Schema.{
  Schema, Op, on_table, create_index, has_name, table_name, refers_to, has_index, run,
}
use nexabot.Migrations.Local.{Spares, touched, indexed, index_taken, run-local}
use nexabot.Migrations.Foundation.{upgrade, application_tables, downgrade}
use nexabot.Migrations.Revisions.{
  upgrade_limits, downgrade_limits, upgrade_claims, downgrade_claims, upgrade_token,
  downgrade_token, upgrade_checks, downgrade_checks,
}
use nexabot.Migrations.Matching.{same_schema}
use nexabot.Database.Metadata.{metadata}

-- A revision: its `upgrade` and its `downgrade`.
abbrev pub Revision : Type 0
Revision = List Op × List Op

-- The chain of `down_revision`, from the first on.
unfoldable pub revisions : List Revision
unfolding upgrade downgrade upgrade_limits downgrade_limits upgrade_claims downgrade_claims
    upgrade_token downgrade_token upgrade_checks downgrade_checks
revisions =
    (upgrade, downgrade)
    ∷ (upgrade_limits, downgrade_limits)
    ∷ (upgrade_claims, downgrade_claims)
    ∷ (upgrade_token, downgrade_token)
    ∷ (upgrade_checks, downgrade_checks)
    ∷ []

abbrev tables_of : Option Schema → Schema
tables_of none = []
tables_of (some u) = u

-- `alembic upgrade head` on an empty database, from the tables of a revision.
abbrev pub head_from : Schema → List Revision → Schema
head_from u [] = u
head_from u ((up, down) ∷ rest) = head_from (tables_of (run up u)) rest

-- Every revision of a chain, applied beside the tables `s` to those of the revision before it,
-- succeeds, and its downgrade leads back.
abbrev pub IsReversible : Schema → Schema → List Revision → Type 0
IsReversible s u [] = Unit {0}
IsReversible s u ((up, down) ∷ rest) =
    (run up (s ++ u) ≡ some (s ++ tables_of (run up u)))
    × (run down (s ++ tables_of (run up u)) ≡ some (s ++ u))
    × IsReversible s (tables_of (run up u)) rest

-- The names of the indexes that a chain creates on its way up.
abbrev indexes_of : List Op → List String
indexes_of [] = []
indexes_of (on_table n (create_index i) ∷ ops) = i.name ∷ indexes_of ops
indexes_of (op ∷ ops) = indexes_of ops

unfoldable pub application_indexes : List String
unfolding upgrade upgrade_limits upgrade_claims upgrade_token upgrade_checks
application_indexes =
    indexes_of (upgrade ++ upgrade_limits ++ upgrade_claims ++ upgrade_token ++ upgrade_checks)

abbrev index_known : List String → Option String → Bool
index_known indexes none = true
index_known indexes (some i) = any (str_eq i) indexes

-- The operations name these tables and create these indexes alone.
abbrev stays_in : List String → List String → List Op → Bool
stays_in names indexes [] = true
stays_in names indexes (op ∷ ops) =
    any (str_eq (touched op)) names
    && index_known indexes (indexed op)
    && stays_in names indexes ops

-- The same on an empty database, where the revisions stay in these tables and indexes.
abbrev IsClosed : List String → List String → Schema → List Revision → Type 0
IsClosed names indexes u [] = Unit {0}
IsClosed names indexes u ((up, down) ∷ rest) =
    (run up u ≡ some (tables_of (run up u)))
    × (run down (tables_of (run up u)) ≡ some u)
    × (stays_in names indexes up ≡ true)
    × (stays_in names indexes down ≡ true)
    × IsClosed names indexes (tables_of (run up u)) rest

-- What no name of a list has, a name of the list does not have.
spared :
    (p : String → Bool) (names : List String) (m : String)
    → any p names ≡ false
    → any (str_eq m) names ≡ true
    → p m ≡ false
spared p [] m h e = absurd (cc e)
spared p (n ∷ names) m h e = elim (Bool-cases (str_eq m n)) [
  | inl here ↦ ap p ((eq_iff m n).0 here) ∙ ground arith
  | inr elsewhere ↦ spared p names m (ground arith) (ground arith)
]

module _ (s : Schema) (names indexes : List String)
    (no_table : any (λ n. any (has_name table_name n) s) names ≡ false)
    (no_reference : any (λ n. any (refers_to n) s) names ≡ false)
    (no_index : any (λ i. any (has_index i) s) indexes ≡ false) where
  index_free : (i : Option String) → index_known indexes i ≡ true → index_taken i s ≡ false
  index_free none h = refl
  index_free (some i) h = spared (λ j. any (has_index j) s) indexes i no_index h

  stays_in-Spares : (ops : List Op) → stays_in names indexes ops ≡ true → All (Spares s) ops
  stays_in-Spares [] h = tt
  stays_in-Spares (op ∷ ops) h = (
    (
      spared (λ n. any (has_name table_name n) s) names (touched op) no_table (ground arith),
      spared (λ n. any (refers_to n) s) names (touched op) no_reference (ground arith),
      index_free (indexed op) (ground arith),
    ),
    stays_in-Spares ops (ground arith),
  )

  closed-IsReversible :
      (revs : List Revision) (u : Schema) → IsClosed names indexes u revs → IsReversible s u revs
  closed-IsReversible [] u c = tt
  closed-IsReversible ((up, down) ∷ rest) u (up_done, down_done, up_in, down_in, closed) = (
    run-local up s u _ (stays_in-Spares up up_in) up_done,
    run-local down s _ u (stays_in-Spares down down_in) down_done,
    closed-IsReversible rest _ closed,
  )

revisions-IsClosed : IsClosed application_tables application_indexes [] revisions
unfolding revisions run application_indexes
revisions-IsClosed = (
  refl,
  refl,
  refl,
  refl,
  (
    refl,
    refl,
    refl,
    refl,
    (refl, refl, refl, refl, (refl, refl, refl, refl, (refl, refl, refl, refl, tt))),
  ),
)

-- On any database that has no table and no index of these names, and no table with a foreign key to
-- one of these tables, whatever else it holds, every revision of the chain succeeds in its turn, its
-- foreign keys and its indexes included, and its downgrade, which drops no table that another one
-- refers to, leads back to the revision before, the last one to the database as it was. The tables of
-- the last revision are those that the mapping declares, with the same columns, keys, constraints and
-- indexes.
pub revisions-IsReversible :
    (s : Schema)
    → any (λ n. any (has_name table_name n) s) application_tables ≡ false
    → any (λ n. any (refers_to n) s) application_tables ≡ false
    → any (λ i. any (has_index i) s) application_indexes ≡ false
    → IsReversible s [] revisions × (same_schema (head_from [] revisions) metadata ≡ true)
unfolding same_schema metadata revisions run
revisions-IsReversible s no_table no_reference no_index = (
  closed-IsReversible s application_tables application_indexes no_table no_reference no_index
      revisions [] revisions-IsClosed,
  refl,
)
