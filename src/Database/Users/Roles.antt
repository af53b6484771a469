-- ===== src/Database/Users/Roles.antt =====
-- infrastructure/database/repositories/identity.py: the roles of a user and their permissions.
use nexabot.Prelude.{
  ℕ, Bool, none, some, List, [], ◌∷◌, ◌++◌, ◌&&◌, not, ◌==◌, str_eq, any, find, select,
  if◌then◌else◌,
}
use nexabot.Domain.Errors.{integrity_error}
use nexabot.Domain.Identity.{Permission, make_permission, Role, make_role}
use nexabot.Database.Tables.{RoleRow, PermissionRow, Link, Db}
use nexabot.Database.World.{World, uuid4}
use nexabot.Exec.{Exec, Result, ok, err, pure, gets, modify, and_then, ◌>>=◌, ◌>>◌}

abbrev pub links : ℕ → ℕ → Link → Bool
links from target l = l.from == from && l.target == target

abbrev pub links_from : ℕ → Link → Bool
links_from from l = l.from == from

abbrev pub permission_rows : ℕ → Db → List PermissionRow
permission_rows role_id db =
    select (λ (p : PermissionRow). any (links role_id p.id) db.role_permissions) db.permissions

unfoldable pub load_permissions : List PermissionRow → Result (List Permission)
load_permissions [] = ok []
load_permissions (p ∷ ps) =
    let rest = load_permissions ps in
    and_then (make_permission p.namespace p.action) λ q. and_then rest λ qs. ok (q ∷ qs)

unfoldable pub load_role : RoleRow → Db → Result Role
load_role row db = and_then (load_permissions (permission_rows row.id db)) (make_role row.name)

unfoldable pub load_role_rows : List RoleRow → Db → Result (List Role)
load_role_rows [] db = ok []
load_role_rows (r ∷ rs) db =
    let rest = load_role_rows rs db in
    and_then (load_role r db) λ role. and_then rest λ roles. ok (role ∷ roles)

-- `_load_roles`
unfoldable pub load_roles : ℕ → Db → Result (List Role)
load_roles user_id db =
    load_role_rows (select (λ (r : RoleRow). any (links user_id r.id) db.user_roles) db.roles) db

abbrev add_permission_row : PermissionRow → World → World
add_permission_row row w = record w {
  db = record w.db { permissions = w.db.permissions ++ row ∷ [] };
}

abbrev add_role_row : RoleRow → World → World
add_role_row row w = record w { db = record w.db { roles = w.db.roles ++ row ∷ [] } }

-- The two INSERTs of links, whose pairs are primary keys.
unfoldable pub grant : Link → Exec World Unit
grant l w =
    if any (links l.from l.target) w.db.role_permissions then (err integrity_error, w) else (
      ok tt,
      record w { db = record w.db { role_permissions = w.db.role_permissions ++ l ∷ [] } },
    )

unfoldable pub assign : Link → Exec World Unit
assign l w =
    if any (links l.from l.target) w.db.user_roles
    then (err integrity_error, w)
    else (ok tt, record w { db = record w.db { user_roles = w.db.user_roles ++ l ∷ [] } })

abbrev pub is_permission : Permission → PermissionRow → Bool
is_permission p r = str_eq r.namespace p.namespace && str_eq r.action p.action

unfoldable pub get_or_create_permission : Permission → Exec World ℕ
get_or_create_permission p = do
  found ← gets (λ w. find (is_permission p) w.db.permissions)
  elim found [
    | some row ↦ pure row.id
    | none ↦ (do
      permission_id ← uuid4
      modify (
          add_permission_row
            (record { id = permission_id; namespace = p.namespace; action = p.action }))
      pure permission_id)
  ]

-- The loop over `role.permissions`; `assigned` are the links before the loop.
unfoldable pub grant_all : ℕ → List Link → List Permission → Exec World Unit
grant_all role_id assigned [] = pure tt
grant_all role_id assigned (p ∷ ps) =
    let rest = grant_all role_id assigned ps in
    (do
      permission_id ← get_or_create_permission p
      (if any (links role_id permission_id) assigned
          then pure tt
          else grant (record { from = role_id; target = permission_id }))
      rest)

unfoldable pub role_id_of : Role → Exec World ℕ
role_id_of role = do
  found ← gets (λ w. find (λ (r : RoleRow). str_eq r.name role.name) w.db.roles)
  elim found [
    | some row ↦ pure row.id
    | none ↦ (do
      role_id ← uuid4
      modify (add_role_row (record { id = role_id; name = role.name }))
      pure role_id)
  ]

unfoldable pub get_or_create_role : Role → Exec World ℕ
get_or_create_role role = do
  role_id ← role_id_of role
  assigned ← gets (λ w. select (links_from role_id) w.db.role_permissions)
  grant_all role_id assigned role.permissions
  pure role_id

unfoldable pub assign_all : ℕ → List Role → Exec World Unit
assign_all user_id [] = pure tt
assign_all user_id (role ∷ roles) =
    let rest = assign_all user_id roles in
    (do
      role_id ← get_or_create_role role
      assign (record { from = user_id; target = role_id })
      rest)

-- `_sync_roles`
unfoldable pub sync_roles : ℕ → List Role → Exec World Unit
sync_roles user_id roles = do
  modify (λ w. record w {
    db = record w.db {
      user_roles = select (λ (l : Link). not (links_from user_id l)) w.db.user_roles;
    };
  })
  assign_all user_id roles
