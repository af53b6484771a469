-- ===== src/Database/Metadata/Identity.antt =====
-- infrastructure/database/models.py: the tables user_roles to permissions as the mapping declares them.
use nexabot.Prelude.{true, false, some, none, [], ◌∷◌}
use nexabot.Migrations.Schema.{string, text, big_integer, Table}
use nexabot.Migrations.Columns.{
  pk, fk, col, timestamps, unique_on, column_index, unique_name, check_on,
}

abbrev pub user_roles_table : Table
user_roles_table = record {
  name = "user_roles";
  columns =
      fk "user_roles" "user_id" "users.id" false (some "CASCADE")
      ∷ fk "user_roles" "role_id" "roles.id" false (some "CASCADE")
      ∷ [];
  primary_key = "user_id" ∷ "role_id" ∷ [];
  constraints = [];
  indexes = [];
}

abbrev pub role_permissions_table : Table
role_permissions_table = record {
  name = "role_permissions";
  columns =
      fk "role_permissions" "role_id" "roles.id" false (some "CASCADE")
      ∷ fk "role_permissions" "permission_id" "permissions.id" false (some "CASCADE")
      ∷ [];
  primary_key = "role_id" ∷ "permission_id" ∷ [];
  constraints = [];
  indexes = [];
}

abbrev pub users_table : Table
users_table = record {
  name = "users";
  columns = pk ∷ col "status" (string 32) false ∷ timestamps;
  primary_key = "id" ∷ [];
  constraints =
      check_on "users" "user_status_valid" "status IN ('active', 'banned', 'disabled')" ∷ [];
  indexes = column_index "users" "status" false ∷ [];
}

abbrev pub telegram_identities_table : Table
telegram_identities_table = record {
  name = "telegram_identities";
  columns =
      pk
      ∷ fk "telegram_identities" "user_id" "users.id" false none
      ∷ col "telegram_user_id" big_integer false
      ∷ col "username" (string 255) true
      ∷ col "first_name" (string 255) true
      ∷ col "last_name" (string 255) true
      ∷ timestamps;
  primary_key = "id" ∷ [];
  constraints = unique_on "uq_telegram_identities_user_id" ("user_id" ∷ []) ∷ [];
  indexes =
      column_index "telegram_identities" "user_id" false
      ∷ column_index "telegram_identities" "telegram_user_id" true
      ∷ [];
}

abbrev pub roles_table : Table
roles_table = record {
  name = "roles";
  columns = pk ∷ col "name" (string 128) false ∷ col "description" text true ∷ timestamps;
  primary_key = "id" ∷ [];
  constraints = unique_on (unique_name "roles" "name") ("name" ∷ []) ∷ [];
  indexes = [];
}

abbrev pub permissions_table : Table
permissions_table = record {
  name = "permissions";
  columns = pk ∷ col "namespace" (string 128) false ∷ col "action" (string 128) false ∷ timestamps;
  primary_key = "id" ∷ [];
  constraints = unique_on "uq_permissions_namespace_action" ("namespace" ∷ "action" ∷ []) ∷ [];
  indexes = [];
}
