-- ===== src/Migrations/Columns.antt =====
-- The helpers of 20260824_0001_foundation.py and of models.py, and the naming convention of base.py.
use Prim.Native.String.{◌++◌}
use nexabot.Prelude.{String, Bool, false, Option, none, some, List, [], ◌∷◌}
use nexabot.Migrations.Schema.{
  ColumnType, string, date_time, Column, unique, check, Constraint, Index, create_index,
  create_constraint, drop_constraint, Op, on_table, before_dot,
}

-- `sa.Column(name, type, nullable=...)`
abbrev pub col : String → ColumnType → Bool → Column
col name column_type nullable = record {
  name = name;
  column_type = column_type;
  nullable = nullable;
  foreign_key = none;
  server_default = none;
}

-- `_pk()` and `uuid_pk()`
abbrev pub pk : Column
pk = col "id" (string 36) false

-- `_fk` and `uuid_fk`; the mapping names its keys by the convention, which the migration spells out.
abbrev pub fk : String → String → String → Bool → Option String → Column
fk table name target nullable ondelete = record {
  name = name;
  column_type = string 36;
  nullable = nullable;
  foreign_key = some (record {
    name = "fk_" ++ table ++ "_" ++ name ++ "_" ++ before_dot target;
    target = target;
    ondelete = ondelete;
  });
  server_default = none;
}

-- `_timestamps()` and `TimestampMixin`
abbrev pub timestamps : List Column
timestamps = col "created_at" date_time false ∷ col "updated_at" date_time false ∷ []

-- `sa.UniqueConstraint(..., name=...)`
abbrev pub unique_on : String → List String → Constraint
unique_on name columns = record { name = name; rule = unique columns }

abbrev pub unique_name : String → String → String
unique_name table column = "uq_" ++ table ++ "_" ++ column

-- A check constraint, with the prefix that the naming convention gives it.
abbrev pub check_name : String → String → String
check_name table name = "ck_" ++ table ++ "_" ++ name

abbrev pub check_on : String → String → String → Constraint
check_on table name condition = record { name = check_name table name; rule = check condition }

abbrev pub plain_index : String → List String → Index
plain_index name columns = record { name = name; columns = columns; is_unique = false }

-- `index=True` on a column
abbrev pub column_index : String → String → Bool → Index
column_index table column is_unique = record {
  name = "ix_" ++ table ++ "_" ++ column;
  columns = column ∷ [];
  is_unique = is_unique;
}

-- `_index`
abbrev pub index_on : String → String → List String → Bool → Op
index_on table name columns is_unique =
    on_table table (create_index (record { name = name; columns = columns; is_unique = is_unique }))

-- `batch_op.create_check_constraint` and `batch_op.drop_constraint`
abbrev pub create_check : String × String × String → Op
create_check (table, name, condition) =
    on_table table (create_constraint (check_on table name condition))

abbrev pub drop_check : String × String × String → Op
drop_check (table, name, condition) = on_table table (drop_constraint (check_name table name))
