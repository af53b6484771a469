-- ===== src/Migrations/Foundation/Identity.antt =====
-- migrations/versions/20260824_0001_foundation.py: the tables users to telegram_identities.
use nexabot.Prelude.{true, false, some, none, List, [], ◌∷◌}
use nexabot.Migrations.Schema.{string, text, big_integer, Op, create_table}
use nexabot.Migrations.Columns.{pk, fk, col, timestamps, index_on, unique_on}

abbrev pub create_users : List Op
create_users =
    create_table (record {
      name = "users";
      columns = pk ∷ col "status" (string 32) false ∷ timestamps;
      primary_key = "id" ∷ [];
      constraints = [];
      indexes = [];
    })
    ∷ index_on "users" "ix_users_status" ("status" ∷ []) false
    ∷ []

abbrev pub create_roles : List Op
create_roles =
    create_table (record {
      name = "roles";
      columns = pk ∷ col "name" (string 128) false ∷ col "description" text true ∷ timestamps;
      primary_key = "id" ∷ [];
      constraints = unique_on "uq_roles_name" ("name" ∷ []) ∷ [];
      indexes = [];
    })
    ∷ []

abbrev pub create_permissions : List Op
create_permissions =
    create_table (record {
      name = "permissions";
      columns =
          pk ∷ col "namespace" (string 128) false ∷ col "action" (string 128) false ∷ timestamps;
      primary_key = "id" ∷ [];
      constraints = unique_on "uq_permissions_namespace_action" ("namespace" ∷ "action" ∷ []) ∷ [];
      indexes = [];
    })
    ∷ []

abbrev pub create_user_roles : List Op
create_user_roles =
    create_table (record {
      name = "user_roles";
      columns =
          fk "user_roles" "user_id" "users.id" false (some "CASCADE")
          ∷ fk "user_roles" "role_id" "roles.id" false (some "CASCADE")
          ∷ [];
      primary_key = "user_id" ∷ "role_id" ∷ [];
      constraints = [];
      indexes = [];
    })
    ∷ []

abbrev pub create_role_permissions : List Op
create_role_permissions =
    create_table (record {
      name = "role_permissions";
      columns =
          fk "role_permissions" "role_id" "roles.id" false (some "CASCADE")
          ∷ fk "role_permissions" "permission_id" "permissions.id" false (some "CASCADE")
          ∷ [];
      primary_key = "role_id" ∷ "permission_id" ∷ [];
      constraints = [];
      indexes = [];
    })
    ∷ []

abbrev pub create_telegram_identities : List Op
create_telegram_identities =
    create_table (record {
      name = "telegram_identities";
      columns =
          pk
          ∷ fk "telegram_identities" "user_id" "users.id" false none
          ∷ col "telegram_user_id" big_integer false
          ∷ col "username" (string 255) true
          ∷ col "first_name" (string 255) true
          ∷ col "last_name" (string 255) true
          ∷ timestamps;
      primary_key = "id" ∷ [];
      constraints = unique_on "uq_telegram_identities_user_id" ("user_id" ∷ []) ∷ [];
      indexes = [];
    })
    ∷ index_on "telegram_identities" "ix_telegram_identities_user_id" ("user_id" ∷ []) false
    ∷ index_on "telegram_identities" "ix_telegram_identities_telegram_user_id"
        ("telegram_user_id" ∷ []) true
    ∷ []
