-- ===== src/Migrations/Schema.antt =====
-- A database schema, and what the operations of Alembic (op.create_table and so on) do to it. An
-- operation fails, with none, when what it names exists already or does not exist, when a foreign key
-- has no table to refer to, and when a table that is dropped is referred to by another. The name of an
-- index is unique in the schema.
use Prim.Native.Char.{code}
use nexabot.Prelude.{
  ℕ, String, Bool, true, false, not, ◌&&◌, ◌||◌, ◌==◌, Option, none, some, List, [], ◌∷◌, ◌++◌,
  str_eq, any, if◌then◌else◌,
}

pub data ColumnType : Type 0 where
  string : ℕ → ColumnType
  text json integer big_integer boolean date_time : ColumnType

pub record ForeignKey : Type 0 where
  pub name : String
  pub target : String
  pub ondelete : Option String

-- `target.split(".")[0]`
abbrev pub before_dot : String → String
before_dot String.[] = String.[]
before_dot (String.◌∷◌ c s) = if code c == 46 then String.[] else String.◌∷◌ c (before_dot s)

pub record Column : Type 0 where
  pub name : String
  pub column_type : ColumnType
  pub nullable : Bool
  pub foreign_key : Option ForeignKey
  pub server_default : Option String

-- A unique constraint on columns, or a check of a condition.
pub data Rule : Type 0 where
  unique : List String → Rule
  check : String → Rule

pub record Constraint : Type 0 where
  pub name : String
  pub rule : Rule

pub record Index : Type 0 where
  pub name : String
  pub columns : List String
  pub is_unique : Bool

pub record Table : Type 0 where
  pub name : String
  pub columns : List Column
  pub primary_key : List String
  pub constraints : List Constraint
  pub indexes : List Index

abbrev pub Schema : Type 0
Schema = List Table

module _ {A : Type 0} (name_of : A → String) where
  abbrev pub has_name : String → A → Bool
  has_name n x = str_eq (name_of x) n

  abbrev pub insert_new : A → List A → Option (List A)
  insert_new x xs = if any (has_name (name_of x)) xs then none else some (xs ++ x ∷ [])

  abbrev pub onto : A → Option (List A) → Option (List A)
  onto x none = none
  onto x (some xs) = some (x ∷ xs)

  abbrev pub remove_named : String → List A → Option (List A)
  remove_named n [] = none
  remove_named n (x ∷ xs) =
      let rest = remove_named n xs in if has_name n x then some xs else onto x rest

  abbrev replaced : Option A → List A → Option (List A)
  replaced none xs = none
  replaced (some x) xs = some (x ∷ xs)

  abbrev pub change_named : String → (A → Option A) → List A → Option (List A)
  change_named n f [] = none
  change_named n f (x ∷ xs) =
      let rest = change_named n f xs in if has_name n x then replaced (f x) xs else onto x rest

-- Change what a table keeps in one of its lists.
abbrev with_columns : Table → Option (List Column) → Option Table
with_columns t none = none
with_columns t (some cs) = some (record t { columns = cs })

abbrev with_indexes : Table → Option (List Index) → Option Table
with_indexes t none = none
with_indexes t (some is) = some (record t { indexes = is })

abbrev with_constraints : Table → Option (List Constraint) → Option Table
with_constraints t none = none
with_constraints t (some cs) = some (record t { constraints = cs })

-- What an operation does to one table.
pub data Change : Type 0 where
  add_column : Column → Change
  drop_column : String → Change
  -- `alter_column(..., server_default=...)` and `alter_column(..., nullable=...)`
  alter_default : String → Option String → Change
  alter_nullable : String → Bool → Change
  create_index : Index → Change
  drop_index : String → Change
  create_constraint : Constraint → Change
  drop_constraint : String → Change
  -- `op.execute` of an UPDATE
  update_rows : Change

unfoldable pub change : Change → Table → Option Table
change (add_column c) t = with_columns t (insert_new (λ (x : Column). x.name) c t.columns)
change (drop_column n) t = with_columns t (remove_named (λ (x : Column). x.name) n t.columns)
change (alter_default n d) t = with_columns t (
    change_named (λ (x : Column). x.name) n (λ c. some (record c { server_default = d })) t.columns)
change (alter_nullable n b) t =
    with_columns t
      (change_named (λ (x : Column). x.name) n (λ c. some (record c { nullable = b })) t.columns)
change (create_index i) t = with_indexes t (insert_new (λ (x : Index). x.name) i t.indexes)
change (drop_index n) t = with_indexes t (remove_named (λ (x : Index). x.name) n t.indexes)
change (create_constraint c) t =
    with_constraints t (insert_new (λ (x : Constraint). x.name) c t.constraints)
change (drop_constraint n) t =
    with_constraints t (remove_named (λ (x : Constraint). x.name) n t.constraints)
change update_rows t = some t

pub data Op : Type 0 where
  create_table : Table → Op
  drop_table : String → Op
  on_table : String → Change → Op

abbrev pub table_name : Table → String
table_name t = t.name

-- The key of a column, if it has one, refers to a table of the schema or to its own table `n`.
abbrev pub key_known : String → Option ForeignKey → Schema → Bool
key_known n none s = true
key_known n (some k) s =
    str_eq n (before_dot k.target) || any (has_name table_name (before_dot k.target)) s

abbrev pub keys_known : String → List Column → Schema → Bool
keys_known n [] s = true
keys_known n (c ∷ cs) s = key_known n c.foreign_key s && keys_known n cs s

abbrev pub points_to : String → Option ForeignKey → Bool
points_to n none = false
points_to n (some k) = str_eq (before_dot k.target) n

-- Another table has a key that refers to the table `n`.
abbrev pub refers_to : String → Table → Bool
refers_to n t = not (str_eq t.name n) && any (λ (c : Column). points_to n c.foreign_key) t.columns

abbrev pub has_index : String → Table → Bool
has_index n t = any (has_name (λ (i : Index). i.name) n) t.indexes

-- What a change of the table `n` asks of the other tables.
abbrev pub allowed : String → Change → Schema → Bool
allowed n (add_column c) s = key_known n c.foreign_key s
allowed n (create_index i) s = not (any (has_index i.name) s)
allowed n _ s = true

unfoldable pub apply : Op → Schema → Option Schema
unfolding change
apply (create_table t) s = if keys_known t.name t.columns s then insert_new table_name t s else none
apply (drop_table n) s = if any (refers_to n) s then none else remove_named table_name n s
apply (on_table n c) s = if allowed n c s then change_named table_name n (change c) s else none

abbrev pub and_run : {A : Type 0} → Option A → (A → Option A) → Option A
and_run none f = none
and_run (some x) f = f x

-- The operations of a migration, in their order.
unfoldable pub run : List Op → Schema → Option Schema
unfolding apply
run [] s = some s
run (op ∷ ops) s = and_run (apply op s) (run ops)
