-- ===== src/Migrations/Matching.antt =====
-- When two schemas declare the same tables, in whatever order: what `alembic check` compares.
use nexabot.Prelude.{
  String, Bool, true, false, ◌&&◌, Option, none, some, List, [], ◌∷◌, str_eq, ◌==◌, length, find,
}
use nexabot.Migrations.Schema.{
  ColumnType, string, text, json, integer, big_integer, boolean, date_time, ForeignKey, Column,
  Rule, unique, check, Constraint, Index, Table, Schema, has_name, table_name,
}

abbrev bool_eq : Bool → Bool → Bool
bool_eq true b = b
bool_eq false true = false
bool_eq false false = true

abbrev option_eq : {A : Type 0} → (A → A → Bool) → Option A → Option A → Bool
option_eq eq none none = true
option_eq eq (some a) (some b) = eq a b
option_eq eq _ _ = false

abbrev list_eq : {A : Type 0} → (A → A → Bool) → List A → List A → Bool
list_eq eq [] [] = true
list_eq eq (a ∷ xs) (b ∷ ys) = eq a b && list_eq eq xs ys
list_eq eq _ _ = false

abbrev type_eq : ColumnType → ColumnType → Bool
type_eq (string m) (string n) = m == n
type_eq text text = true
type_eq json json = true
type_eq integer integer = true
type_eq big_integer big_integer = true
type_eq boolean boolean = true
type_eq date_time date_time = true
type_eq _ _ = false

abbrev key_eq : ForeignKey → ForeignKey → Bool
key_eq a b =
    str_eq a.name b.name && str_eq a.target b.target && option_eq str_eq a.ondelete b.ondelete

abbrev column_eq : Column → Column → Bool
column_eq a b =
    type_eq a.column_type b.column_type
    && bool_eq a.nullable b.nullable
    && option_eq key_eq a.foreign_key b.foreign_key
    && option_eq str_eq a.server_default b.server_default

abbrev rule_eq : Rule → Rule → Bool
rule_eq (unique a) (unique b) = list_eq str_eq a b
rule_eq (check a) (check b) = str_eq a b
rule_eq _ _ = false

abbrev constraint_eq : Constraint → Constraint → Bool
constraint_eq a b = rule_eq a.rule b.rule

abbrev index_eq : Index → Index → Bool
index_eq a b = list_eq str_eq a.columns b.columns && bool_eq a.is_unique b.is_unique

abbrev found_eq : {A : Type 0} → (A → A → Bool) → A → Option A → Bool
found_eq eq a none = false
found_eq eq a (some b) = eq a b

-- Each element of the first list equals the one of that name in the second.
abbrev included : {A : Type 0} → (A → String) → (A → A → Bool) → List A → List A → Bool
included name_of eq [] ys = true
included name_of eq (a ∷ xs) ys =
    found_eq eq a (find (has_name name_of (name_of a)) ys) && included name_of eq xs ys

abbrev same_named : {A : Type 0} → (A → String) → (A → A → Bool) → List A → List A → Bool
same_named name_of eq xs ys = length xs == length ys && included name_of eq xs ys

abbrev table_eq : Table → Table → Bool
table_eq a b =
    same_named (λ (c : Column). c.name) column_eq a.columns b.columns
    && list_eq str_eq a.primary_key b.primary_key
    && same_named (λ (c : Constraint). c.name) constraint_eq a.constraints b.constraints
    && same_named (λ (i : Index). i.name) index_eq a.indexes b.indexes

unfoldable pub same_schema : Schema → Schema → Bool
same_schema = same_named table_name table_eq
